-- ===== src/Unwind/Ops.antt =====
-- The functions of src/libevsig/unwind.c on the unwind stack, and the macros of
-- include/libevsig/unwind.h.
use libevsig.Base.{
  ℕ, zero, suc, ◌+◌, ◌-◌, ◌^◌, Bool, false, Option, none, some, Result, ok, hang, ◌>>=◌, ltb, ◌==◌,
  if◌then◌else◌,
}
use libevsig.Memory.{load, free}
use libevsig.Vector.{allocate, push_back}
use libevsig.Shutdown.{confirm_shutdown}
use libevsig.Signals.{sig_rm_handler, sig_rm_restart}
use libevsig.Thread.{
  ReturnPoint, OnUnwind, unwind_handler_sig_rm_handler, unwind_handler_sig_rm_restart, user_action,
  UnwindEntry, Thread, Program, Flow, returned, landed, thread_exited,
}

-- `--` on a `uint64_t`.
abbrev pub dec64 : ℕ → ℕ
dec64 n = if n == 0 then 2 ^ 64 - 1 else n - 1

module _ {W : Type 0} where
  abbrev pub set_fill : Thread W → ℕ → Thread W
  set_fill t n = record t { unwind_stack = record (t.unwind_stack) { fill = n } }

  -- `_unwind_action`
  unfoldable pub unwind_action : Bool → Thread W → UnwindEntry → Result (Thread W)
  unfolding push_back
  unwind_action room t e = do
    v ← push_back room t.unwind_stack e
    ok (record t { unwind_stack = v })

  -- What `UNWIND_RETURN_POINT` and `UNWIND_AUTOPOP_RETURN_POINT` put into the return point.
  unfoldable pub return_point : Thread W → ℕ → ReturnPoint
  return_point t jbuf = record { returned = false; jbuf = jbuf; unwind_to = t.unwind_stack.fill }

  -- `unwind_rm_handler`
  unfoldable pub unwind_rm_handler : Thread W → Thread W
  unwind_rm_handler t = set_fill t (dec64 t.unwind_stack.fill)

  -- `unwind_init`, less the signal handlers that it asks the system for.
  unfoldable pub unwind_init : Bool → Thread W → Result (Thread W)
  unfolding allocate
  unwind_init room t =
      if t.unwind_init_ref == 0
      then (do
        v ← allocate room
        ok (record t { unwind_stack = v; unwind_init_ref = t.unwind_init_ref + 1 }))
      else ok (record t { unwind_init_ref = t.unwind_init_ref + 1 })

  -- An `_unwind` that a caller waits for never returns to it.
  abbrev pub jump : Result (ReturnPoint × Thread W) → Result (Flow W)
  jump m = do (p, t) ← m; ok (landed p t)

module _ {W : Type 0} (prog : Program W) where
  -- `h(userdata)`: where it jumps to, if it does not return, and the state then.
  unfoldable pub call : OnUnwind → ℕ → Thread W → Result (Option ReturnPoint × Thread W)
  unfolding sig_rm_handler sig_rm_restart
  call unwind_handler_sig_rm_handler id t = do
    v ← sig_rm_handler t.handlers id
    ok (none, record t { handlers = v })
  call unwind_handler_sig_rm_restart id t = do
    v ← sig_rm_restart t.restarts id
    ok (none, record t { restarts = v })
  call (user_action k) userdata t =
      let (w, target) = prog.on_unwind k userdata t.world in ok (target, record t { world = w })

  -- The loop of `_unwind`, with `n` rounds left: the index is `unwind_to + n - 1`. A jump out of a
  -- handler is handed on.
  unfoldable pub unwind_loop :
      (ReturnPoint → Thread W → Result (ReturnPoint × Thread W))
      → ReturnPoint
      → ℕ
      → Thread W
      → Result (ReturnPoint × Thread W)
  unfolding call load
  unwind_loop again p zero t = ok (p, t)
  unwind_loop again p (suc n) t = do
    let popped = set_fill t (dec64 t.unwind_stack.fill)
    e ← load popped.unwind_stack.block (p.unwind_to + n)
    (target, t') ← call e.h e.userdata popped
    elim target [ none ↦ unwind_loop again p n t' | some q ↦ again q t' ]

  -- `_unwind`, on fuel for the jumps out of handlers. It ends in `longjmp`, at the return point and
  -- in the state of the result.
  unfoldable pub unwind : ℕ → ReturnPoint → Thread W → Result (ReturnPoint × Thread W)
  unfolding unwind_loop
  unwind zero p t = hang
  unwind (suc fuel) p t =
      if ltb 0 t.unwind_stack.fill
      then unwind_loop (unwind fuel) p (t.unwind_stack.fill - p.unwind_to) t
      else ok (p, t)

  -- `unwind_run_handler`, called at the end of a scope with the scope's own copy of the entry.
  unfoldable pub unwind_run_handler : ℕ → UnwindEntry → Thread W → Result (Flow W)
  unfolding call unwind
  unwind_run_handler fuel e t = do
    (target, t') ← call e.h e.userdata (set_fill t (dec64 t.unwind_stack.fill))
    elim target [ none ↦ ok (returned t') | some q ↦ jump (unwind fuel q t') ]

  -- The loop of `unwind_cleanup`: the entry is called before it is taken off.
  unfoldable pub drain : ℕ → Thread W → Result (Flow W)
  unfolding call load unwind
  drain zero t = hang
  drain (suc fuel) t =
      let rest = (do
        e ← load t.unwind_stack.block (t.unwind_stack.fill - 1)
        (target, t') ← call e.h e.userdata t
        elim target [
          | none ↦ drain fuel (set_fill t' (dec64 t'.unwind_stack.fill))
          | some q ↦ jump (unwind fuel q t')
        ]) in
      if ltb 0 t.unwind_stack.fill then rest else ok (returned t)

  -- The end of `unwind_cleanup`.
  unfoldable pub release : Flow W → Result (Flow W)
  unfolding free confirm_shutdown
  release (returned t) = do
    b ← free t.unwind_stack.block
    s ← confirm_shutdown t.global t.tid
    ok (returned (record t { unwind_stack = record (t.unwind_stack) { block = b }; global = s }))
  release (landed p t) = ok (landed p t)
  release (thread_exited t) = ok (thread_exited t)

  -- `unwind_cleanup`
  unfoldable pub unwind_cleanup : ℕ → Thread W → Result (Flow W)
  unfolding drain release
  unwind_cleanup fuel t =
      let ref = if ltb 0 t.unwind_init_ref then t.unwind_init_ref - 1 else t.unwind_init_ref in
      let t' : Thread W = record t { unwind_init_ref = ref } in
      if ref == 0 then drain fuel t' >>= release else ok (returned t')
