-- ===== src/Signals/Stacks.antt =====
-- The functions on the two stacks of src/libevsig/signals.c.
use libevsig.Base.{
  ℕ, ◌+◌, ◌-◌, ◌%◌, ◌^◌, Bool, true, false, Option, none, some, ◌&&◌, Result, ok, ◌>>=◌, ltb, ◌==◌,
  if◌then◌else◌,
}
use libevsig.Memory.{load}
use libevsig.Vector.{Vector, grow, append, find_last, any_from, rm_last}
use libevsig.Thread.{
  SigType, ReturnPoint, SigHandler, null_handler, catchall_handler, sig_static_handler,
  user_handler, HandlerEntry, RestartEntry,
}

-- `_sig_push_handler`. The room is what the allocator finds if the stack has to grow; the result
-- is the id and the stack. The id is one more than that of the entry below, in 64 bits.
unfoldable pub handler_id : Vector HandlerEntry → Result ℕ
unfolding load
handler_id v =
    if ltb 0 v.fill then (do e ← load v.block (v.fill - 1); ok ((e.id + 1) % 2 ^ 64)) else ok 1

unfoldable pub push_entry :
    Bool → Vector HandlerEntry → SigType → SigHandler → ℕ → Result (ℕ × Vector HandlerEntry)
unfolding handler_id grow append
push_entry room v sig_type handler userdata = do
  grown ← grow room v
  id ← handler_id grown
  v' ←
      append grown
        (record { sig_type = sig_type; handler = handler; handler_userdata = userdata; id = id })
  ok (id, v')

unfoldable pub sig_push_handler :
    Bool → Vector HandlerEntry → SigType → SigHandler → ℕ → Result (ℕ × Vector HandlerEntry)
unfolding push_entry
sig_push_handler room v sig_type null_handler userdata = ok (0, v)
sig_push_handler room v sig_type catchall_handler userdata =
    push_entry room v sig_type catchall_handler userdata
sig_push_handler room v sig_type sig_static_handler userdata =
    push_entry room v sig_type sig_static_handler userdata
sig_push_handler room v sig_type (user_handler k) userdata =
    push_entry room v sig_type (user_handler k) userdata

-- `_sig_rm_handler`
unfoldable pub sig_rm_handler : Vector HandlerEntry → ℕ → Result (Vector HandlerEntry)
unfolding rm_last
sig_rm_handler v id = if id == 0 then ok v else rm_last (λ (e : HandlerEntry). e.id == id) v

-- The search of `_sig_assert_handler` and `_sig_assertwarn_handler`.
unfoldable pub handler_exists : Vector HandlerEntry → SigType → Result Bool
unfolding any_from
handler_exists v sig_type = any_from (λ (e : HandlerEntry). e.sig_type == sig_type) v.block v.fill 0

-- `_sig_push_restart`; the first id is 0.
unfoldable pub restart_id : Vector RestartEntry → Result ℕ
unfolding load
restart_id v =
    if ltb 0 v.fill then (do e ← load v.block (v.fill - 1); ok ((e.id + 1) % 2 ^ 64)) else ok 0

unfoldable pub sig_push_restart :
    Bool → Vector RestartEntry → SigType → SigType → ReturnPoint → Result (ℕ × Vector RestartEntry)
unfolding restart_id grow append
sig_push_restart room v sig_type restart_type p = do
  grown ← grow room v
  id ← restart_id grown
  v' ← append grown (record { sig_type = sig_type; restart_type = restart_type; p = p; id = id })
  ok (id, v')

-- `_sig_rm_restart`
unfoldable pub sig_rm_restart : Vector RestartEntry → ℕ → Result (Vector RestartEntry)
unfolding rm_last
sig_rm_restart v id = rm_last (λ (e : RestartEntry). e.id == id) v

abbrev pub is_restart_for : SigType → SigType → RestartEntry → Bool
is_restart_for sig_type restart_type e = e.sig_type == sig_type && e.restart_type == restart_type

abbrev pub found_any : Option ℕ → Bool
found_any none = false
found_any (some i) = true

-- `_sig_restart_available`
unfoldable pub sig_restart_available : Vector RestartEntry → SigType → SigType → Result Bool
unfolding find_last
sig_restart_available v sig_type restart_type = do
  found ← find_last (is_restart_for sig_type restart_type) v.block v.fill
  ok (found_any found)
