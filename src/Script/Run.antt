-- ===== src/Script/Run.antt =====
-- What code that uses the library does. Every entry that a scoped macro pushes is run, or taken off,
-- at the end of its block unless the block is left by `longjmp`.
use libevsig.Base.{
  ℕ, zero, suc, ◌==◌, Bool, true, false, if◌then◌else◌, List, ◌∷◌, Option, none, some, Result, ok,
  exit, fault, hang, ◌>>=◌, length, get_elem?,
}
use libevsig.Thread.{
  SigType, ReturnPoint, OnUnwind, unwind_handler_sig_rm_handler, unwind_handler_sig_rm_restart,
  user_action, Thread, Program, Flow, returned, landed, thread_exited,
}
use libevsig.Signals.{sig_push_restart, sig_restart_available}
use libevsig.Unwind.{
  unwind_action, return_point, unwind_rm_handler, unwind, jump, unwind_run_handler,
}
use libevsig.Send.{autopop_handler, sig_send, sig_assert_handler}
use libevsig.Script.Syntax.{
  Code, done, leave, jump_to, work, block, send, assert_handler, if_available, action,
  explicit_action, handler, return_point_for, autopop_point, provide, autopop,
}

module _ {W : Type 0} where
  abbrev pub next : (Thread W → Result (Flow W)) → Flow W → Result (Flow W)
  next f (returned t) = f t
  next f (landed p t) = ok (landed p t)
  next f (thread_exited t) = ok (thread_exited t)

  -- The end of the scope of `EXPLICIT_UNWIND_ACTION`.
  unfoldable pub dismiss : Thread W → Result (Flow W)
  unfolding unwind_rm_handler
  dismiss t = ok (returned (unwind_rm_handler t))

  -- A landing at the point `d` runs the code again from there.
  abbrev pub resume : ℕ → (Thread W → Result (Flow W)) → Flow W → Result (Flow W)
  resume d again (returned t) = ok (returned t)
  resume d again (landed p t) = if p.jbuf == d then again t else ok (landed p t)
  resume d again (thread_exited t) = ok (thread_exited t)

  -- `setjmp` and what follows it: `first` where it returns 0, and `again` after each landing.
  unfoldable pub retry :
      ℕ
      → ℕ
      → (Thread W → Result (Flow W))
      → (Thread W → Result (Flow W))
      → Thread W
      → Result (Flow W)
  retry zero d again first t = hang
  retry (suc n) d again first t = first t >>= resume d (retry n d again again)

  -- The push of a restart for the point `p`, with its unwind action.
  unfoldable pub open_restart :
      Bool → SigType → SigType → ReturnPoint → Thread W → Result (ℕ × Thread W)
  unfolding sig_push_restart unwind_action
  open_restart room sig_type restart_type p t = do
    (id, v) ← sig_push_restart room t.restarts sig_type restart_type p
    t' ←
        unwind_action room (record t { restarts = v })
          (record { h = unwind_handler_sig_rm_restart; userdata = id })
    ok (id, t')

-- `work_on` is what the program's own code does; the fuel is for `_unwind`, and each `setjmp` returns
-- at most `rounds` times.
module _ {W : Type 0} (prog : Program W) (work_on : ℕ → W → W) (fuel rounds : ℕ) where
  -- The end of the scope of an unwind action.
  unfoldable pub close : OnUnwind → ℕ → Flow W → Result (Flow W)
  unfolding unwind_run_handler
  close h userdata f = next (unwind_run_handler prog fuel (record { h = h; userdata = userdata })) f

  unfoldable pub with_restart :
      SigType → SigType → ReturnPoint → (Thread W → Result (Flow W)) → Thread W → Result (Flow W)
  unfolding open_restart close
  with_restart sig_type restart_type p inner t = do
    (id, t') ← open_restart true sig_type restart_type p t
    inner t' >>= close unwind_handler_sig_rm_restart id

  -- `UNWIND`; code that names no point in scope does not compile.
  unfoldable pub jump_out : Option ReturnPoint → Thread W → Result (Flow W)
  unfolding unwind
  jump_out none t = fault
  jump_out (some p) t = jump (unwind prog fuel p t)

  -- The return points in scope, the innermost first, are named by their number.
  unfoldable pub exec : List ReturnPoint → Code → Thread W → Result (Flow W)
  unfolding dismiss retry close jump_out with_restart unwind_action autopop_handler return_point
      unwind sig_send sig_assert_handler sig_restart_available
  exec ps done t = ok (returned t)
  exec ps (leave n) t = exit n
  exec ps (jump_to k) t = jump_out (get_elem? ps k) t
  exec ps (work k c) t = exec ps c (record t { world = work_on k t.world })
  exec ps (block b c) t = exec ps b t >>= next (exec ps c)
  exec ps (send m c) t = sig_send prog fuel m t >>= next (exec ps c)
  exec ps (assert_handler s msg c) t = sig_assert_handler prog fuel s msg t >>= next (exec ps c)
  exec ps (if_available s r a b c) t = do
    available ← sig_restart_available t.restarts s r
    elim available [ true ↦ exec ps a t | false ↦ exec ps b t ] >>= next (exec ps c)
  exec ps (action k userdata c) t = do
    t' ← unwind_action true t (record { h = user_action k; userdata = userdata })
    exec ps c t' >>= close (user_action k) userdata
  exec ps (explicit_action k userdata c) t = do
    t' ← unwind_action true t (record { h = user_action k; userdata = userdata })
    exec ps c t' >>= next dismiss
  exec ps (handler sig_type h userdata c) t = do
    (id, t') ← autopop_handler true t sig_type h userdata
    exec ps c t' >>= close unwind_handler_sig_rm_handler id
  exec ps (return_point_for b h c) t =
      let p = return_point t (length ps) in
      retry rounds (length ps) (exec (p ∷ ps) h) (exec (p ∷ ps) b) t >>= next (exec ps c)
  exec ps (autopop_point h c) t =
      let p = return_point t (length ps) in
      let rest = exec (p ∷ ps) c in
      retry rounds (length ps) (λ u. exec (p ∷ ps) h u >>= next rest) rest t
  exec ps (provide sig_type b restart_type a c) t =
      let p = return_point t (length ps) in
      retry rounds (length ps) (exec (p ∷ ps) a)
        (with_restart sig_type restart_type p (exec (p ∷ ps) b)) t
      >>= next (exec ps c)
  exec ps (autopop sig_type restart_type a c) t =
      let p = return_point t (length ps) in
      let rest = with_restart sig_type restart_type p (exec (p ∷ ps) c) in
      retry rounds (length ps) (λ u. exec (p ∷ ps) a u >>= next rest) rest t
