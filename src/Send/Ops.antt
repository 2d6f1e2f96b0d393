-- ===== src/Send/Ops.antt =====
-- The sending of signals, the set-up and the clean-up of a thread, and the scoped macros.
use libevsig.Base.{
  ℕ, zero, suc, Bool, true, ◌&&◌, ◌||◌, Result, ok, exit, ◌>>=◌, ◌==◌, if◌then◌else◌,
}
use libevsig.Memory.{load, free}
use libevsig.Vector.{allocate}
use libevsig.Shutdown.{register_thread, send_async}
use libevsig.Signals.{sig_push_handler, sig_push_restart, handler_exists}
use libevsig.Signals.Names.{signal_all, signal_no_sig_handler, sig_restart_null}
use libevsig.Unwind.{unwind, jump, unwind_action, unwind_init, unwind_cleanup, return_point}
use libevsig.Thread.{
  SigType, ReturnPoint, unwind_handler_sig_rm_handler, unwind_handler_sig_rm_restart, SigHandler,
  null_handler, catchall_handler, sig_static_handler, user_handler, HandlerEntry, RestartEntry,
  Thread, Program, Flow, returned, landed, thread_exited,
}

-- The arguments of a signal handler beside its user data.
pub record Message : Type 0 where
  pub sig_type : SigType
  pub msg : ℕ
  pub signal_data : ℕ
  pub signal_data_cleanup_func : ℕ

-- A handler selects a restart, or it does not return.
pub data Reply (W : Type 0) : Type 0 where
  selects : SigType → Thread W → Reply W
  leaves : Flow W → Reply W

abbrev pub takes_restart : SigType → SigType → RestartEntry → Bool
takes_restart sig_type restart_type e =
    e.restart_type == restart_type && (e.sig_type == sig_type || e.sig_type == signal_all)

abbrev pub handles : SigType → HandlerEntry → Bool
handles sig_type e = e.sig_type == sig_type || e.sig_type == signal_all

module _ {W : Type 0} where
  -- `sig_init`; the three answers are those of the allocator, `pthread_create` is `created`.
  unfoldable pub register_global : Bool → Bool → Bool → Thread W → Result (Thread W)
  unfolding register_thread
  register_global room created threadlocal t =
      if threadlocal
      then ok t
      else (do s ← register_thread room created t.global t.tid; ok (record t { global = s }))

  unfoldable pub sig_init : Bool → Bool → Bool → Thread W → Result (Thread W)
  unfolding register_global allocate sig_push_handler unwind_init
  sig_init room created threadlocal t = do
    t' ← register_global room created threadlocal t
    fresh ← allocate room
    restarts ← allocate room
    (id, handlers) ← sig_push_handler room fresh signal_all catchall_handler 0
    unwind_init room (record t' { handlers = handlers; restarts = restarts })

  -- `SIG_AUTOPOP_HANDLER` up to the end of its scope
  unfoldable pub autopop_handler :
      Bool → Thread W → SigType → SigHandler → ℕ → Result (ℕ × Thread W)
  unfolding sig_push_handler unwind_action
  autopop_handler room t sig_type handler userdata = do
    (id, v) ← sig_push_handler room t.handlers sig_type handler userdata
    t' ←
        unwind_action room (record t { handlers = v })
          (record { h = unwind_handler_sig_rm_handler; userdata = id })
    ok (id, t')

  -- `SIG_AUTOPOP_RESTART` up to the end of its scope, with the return point that it makes
  unfoldable pub autopop_restart :
      Bool → Thread W → SigType → SigType → ℕ → Result (ℕ × ReturnPoint × Thread W)
  unfolding return_point sig_push_restart unwind_action
  autopop_restart room t sig_type restart_type jbuf = do
    let p = return_point t jbuf
    (id, v) ← sig_push_restart room t.restarts sig_type restart_type p
    t' ←
        unwind_action room (record t { restarts = v })
          (record { h = unwind_handler_sig_rm_restart; userdata = id })
    ok (id, p, t')

  abbrev pub exits : Flow W → Flow W
  exits (returned t) = thread_exited t
  exits (landed p t) = landed p t
  exits (thread_exited t) = thread_exited t

  -- A restart that was selected and is not there ends the process.
  abbrev pub must_leave : Flow W → Result (Flow W)
  must_leave (returned t) = exit 1
  must_leave (landed p t) = ok (landed p t)
  must_leave (thread_exited t) = ok (thread_exited t)

module _ {W : Type 0} (prog : Program W) where
  -- `sig_cleanup`
  unfoldable pub sig_cleanup : ℕ → Thread W → Result (Flow W)
  unfolding free unwind_cleanup
  sig_cleanup fuel t = do
    h ← free t.handlers.block
    r ← free t.restarts.block
    unwind_cleanup prog fuel (record t {
      handlers = record (t.handlers) { block = h };
      restarts = record (t.restarts) { block = r };
    })

  -- `catchall_handler`: it reports, raises SIGINT, asks all threads to unwind, cleans this one up
  -- and ends it.
  unfoldable pub catchall : ℕ → SigType → ℕ → Thread W → Result (Flow W)
  unfolding send_async sig_cleanup
  catchall fuel sig_type msg t = do
    s ← send_async t.global true
    flow ←
        sig_cleanup fuel
          (record t { world = prog.raise_sigint (prog.report sig_type msg t.world); global = s })
    ok (exits flow)

  -- `e->handler(sig_type, e->handler_userdata, msg, signal_data)`. A null handler is never pushed.
  unfoldable pub call_handler : ℕ → SigHandler → ℕ → Message → Thread W → Result (Reply W)
  unfolding catchall
  call_handler fuel null_handler userdata m t = Result.fault
  call_handler fuel catchall_handler userdata m t = do
    flow ← catchall fuel m.sig_type m.msg t
    ok (leaves flow)
  call_handler fuel sig_static_handler userdata m t = ok (selects userdata t)
  call_handler fuel (user_handler k) userdata m t =
      let (restart_type, w) = prog.on_signal k m.sig_type userdata m.msg m.signal_data t.world in
      ok (selects restart_type (record t { world = w }))

  -- The loop of `_run_restart` over the `i` lowest entries.
  unfoldable pub run_restart : ℕ → SigType → SigType → ℕ → Thread W → Result (Flow W)
  unfolding load unwind
  run_restart fuel sig_type restart_type zero t = ok (returned t)
  run_restart fuel sig_type restart_type (suc i) t = do
    e ← load t.restarts.block i
    if takes_restart sig_type restart_type e
        then jump (unwind prog fuel e.p t)
        else run_restart fuel sig_type restart_type i t

  -- `if (signal_data_cleanup_func) signal_data_cleanup_func(signal_data)`
  abbrev pub cleaned : Message → W → W
  cleaned m w =
      if m.signal_data_cleanup_func == 0
      then w
      else prog.cleanup m.signal_data_cleanup_func m.signal_data w

  -- What follows the call of a handler; `next` goes on to the entries below.
  unfoldable pub after_handler :
      ℕ → Message → (Thread W → Result (Flow W)) → Reply W → Result (Flow W)
  unfolding run_restart
  after_handler fuel m next (leaves flow) = ok flow
  after_handler fuel m next (selects restart_type t) =
      let t' : Thread W = record t { world = cleaned m t.world } in
      if restart_type == sig_restart_null
      then next t'
      else run_restart fuel m.sig_type restart_type t'.restarts.fill t' >>= must_leave

  -- The loop of `_sig_send` over the `i` lowest entries.
  unfoldable pub send_loop : ℕ → Message → ℕ → Thread W → Result (Flow W)
  unfolding load call_handler after_handler
  send_loop fuel m zero t = ok (returned t)
  send_loop fuel m (suc i) t = do
    e ← load t.handlers.block i
    if handles m.sig_type e
        then call_handler fuel e.handler e.handler_userdata m t
          >>= after_handler fuel m (send_loop fuel m i)
        else send_loop fuel m i t

  -- `_sig_send`
  unfoldable pub sig_send : ℕ → Message → Thread W → Result (Flow W)
  unfolding send_loop
  sig_send fuel m t = send_loop fuel m t.handlers.fill t

  -- `_sig_assert_handler`; `msg` is the address of the text that it prints into its buffer.
  unfoldable pub sig_assert_handler : ℕ → SigType → ℕ → Thread W → Result (Flow W)
  unfolding handler_exists sig_send
  sig_assert_handler fuel sig_type msg t = do
    exists ← handler_exists t.handlers sig_type
    if exists
        then ok (returned t)
        else sig_send fuel
            (record {
              sig_type = signal_no_sig_handler;
              msg = msg;
              signal_data = 0;
              signal_data_cleanup_func = 0;
            })
            t
