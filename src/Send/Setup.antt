-- ===== src/Send/Setup.antt =====
-- What `sig_init` leaves, and the ids of the handlers.
use libevsig.Base.{
  ◌≡◌, ◌≢◌, refl, ap, Bool, true, false, none, some, List, [], ◌∷◌, ok, arith, replicate,
}
use libevsig.Vector.{Vector, Holds, Yields, empty_vector, empty-Holds}
use libevsig.Memory.{cells}
use libevsig.Signals.Names.{signal_all}
use libevsig.Unwind.{Models, unwind_init}
use libevsig.Thread.{SigHandler, null_handler, catchall_handler, HandlerEntry, RestartEntry, Thread}
use libevsig.Send.Ops.{sig_init, register_global}

abbrev pub catchall_entry : HandlerEntry
catchall_entry = record {
  sig_type = signal_all;
  handler = catchall_handler;
  handler_userdata = 0;
  id = 1;
}

abbrev is_null_handler : SigHandler → Bool
is_null_handler null_handler = true
is_null_handler _ = false

catchall-ne-null : catchall_handler ≢ null_handler
catchall-ne-null e = ground (arith, ap is_null_handler e)

module _ {W : Type 0} where
  unwind_init-Models :
      (t : Thread W) {hs : List HandlerEntry} {rs : List RestartEntry}
      → t.unwind_init_ref ≡ 0
      → Holds t.handlers hs
      → Holds t.restarts rs
      → Yields (unwind_init true t) (λ u. Models u (record {
        handlers = hs;
        restarts = rs;
        actions = [];
        unwind_init_ref = 1;
        tid = t.tid;
        global = t.global;
        world = t.world;
      }))
  unfolding unwind_init
  unwind_init-Models t fresh hs rs = (
    record t { unwind_stack = empty_vector; unwind_init_ref = 1 },
    rw fresh,
    record {
      handlers = hs;
      restarts = rs;
      actions = empty-Holds;
      same_ref = refl;
      same_tid = refl;
      same_global = refl;
      same_world = refl;
    },
  )

  -- A thread that was not set up, with memory to be had, comes out of `sig_init` with the catch-all
  -- handler for all signals, under the id 1, as its one handler, and with no restart and no unwind
  -- action; `g` is the thread after its registration with the global shutdown signal.
  pub sig_init-Models :
      (created threadlocal : Bool) (t g : Thread W)
      → register_global true created threadlocal t ≡ ok g
      → g.unwind_init_ref ≡ 0
      → Yields (sig_init true created threadlocal t) (λ u. Models u (record {
        handlers = catchall_entry ∷ [];
        restarts = [];
        actions = [];
        unwind_init_ref = 1;
        tid = g.tid;
        global = g.global;
        world = g.world;
      }))
  unfolding sig_init
  sig_init-Models created threadlocal t g registered fresh =
      let handlers : Vector HandlerEntry = record (empty_vector) {
        block = cells (some catchall_entry ∷ replicate 31 none);
        fill = 1;
      } in
      let held : Holds handlers (catchall_entry ∷ []) = record {
        contents = some catchall_entry ∷ replicate 31 none;
        is_block = refl;
        sized = refl;
        filled = refl;
        has_room = omega arith;
        stored = (refl, tt);
      } in
      let (u, made, s) =
        unwind_init-Models (record g { handlers = handlers; restarts = empty_vector }) fresh held
          empty-Holds in
      (u, rw registered made, s)
