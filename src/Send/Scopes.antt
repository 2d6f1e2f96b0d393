-- ===== src/Send/Scopes.antt =====
-- The scoped macros, and what opening one does.
use libevsig.Base.{ℕ, ◌≡◌, ◌≢◌, refl, subst, true, List, [], ◌∷◌, ok}
use libevsig.Vector.{Vector, Holds, Yields, push_back-Holds}
use libevsig.Signals.{
  sig_push_handler-Holds, sig_push_restart-Holds, next_handler_id, next_restart_id,
}
use libevsig.Unwind.{Model, Models, unwind_action, return_point}
use libevsig.Thread.{
  SigType, ReturnPoint, OnUnwind, unwind_handler_sig_rm_handler, unwind_handler_sig_rm_restart,
  user_action, UnwindEntry, SigHandler, null_handler, HandlerEntry, RestartEntry, Thread,
}
use libevsig.Send.Ops.{autopop_handler, autopop_restart}

abbrev pub action_for : OnUnwind → ℕ → UnwindEntry
action_for h userdata = record { h = h; userdata = userdata }

abbrev pub handler_entry : SigType → SigHandler → ℕ → ℕ → HandlerEntry
handler_entry sig_type handler userdata id = record {
  sig_type = sig_type;
  handler = handler;
  handler_userdata = userdata;
  id = id;
}

module _ {W : Type 0} where
  -- One scoped macro, with the unwind action that it leaves on the stack. The id of a handler is 0
  -- only for a null handler, as long as the 64-bit ids have not wrapped.
  pub data Opens (t : Thread W) : UnwindEntry → Thread W → Type 0 where
    null_scope :
        (sig_type : SigType) (userdata : ℕ) {id : ℕ} {u : Thread W}
        → autopop_handler true t sig_type null_handler userdata ≡ ok (id, u)
        → Opens t (record { h = unwind_handler_sig_rm_handler; userdata = id }) u
    handler_scope :
        (sig_type : SigType) (handler : SigHandler) (userdata : ℕ) {id : ℕ} {u : Thread W}
        → handler ≢ null_handler
        → id ≢ 0
        → autopop_handler true t sig_type handler userdata ≡ ok (id, u)
        → Opens t (record { h = unwind_handler_sig_rm_handler; userdata = id }) u
    restart_scope :
        (sig_type restart_type : SigType) (jbuf : ℕ) {id : ℕ} {p : ReturnPoint} {u : Thread W}
        → autopop_restart true t sig_type restart_type jbuf ≡ ok (id, p, u)
        → Opens t (record { h = unwind_handler_sig_rm_restart; userdata = id }) u
    action_scope :
        (k userdata : ℕ) {u : Thread W}
        → unwind_action true t (record { h = user_action k; userdata = userdata }) ≡ ok u
        → Opens t (record { h = user_action k; userdata = userdata }) u

  -- Scopes opened inside one another, with their actions, the innermost first.
  pub data Nested (t : Thread W) : List UnwindEntry → Thread W → Type 0 where
    outermost : Nested t [] t
    inside :
        {es : List UnwindEntry} {e : UnwindEntry} {u v : Thread W}
        → Nested t es u
        → Opens u e v
        → Nested t (e ∷ es) v

  pub unwind_action-Models :
      (t : Thread W) (e : UnwindEntry) (m : Model W)
      → Models t m
      → Yields (unwind_action true t e) (λ u. Models u (record m { actions = e ∷ m.actions }))
  unfolding unwind_action
  unwind_action-Models t e m s =
      let (v, pushed, held) = push_back-Holds t.unwind_stack e s.actions in
      (
        record t { unwind_stack = v },
        rw pushed,
        record {
          handlers = s.handlers;
          restarts = s.restarts;
          actions = held;
          same_ref = s.same_ref;
          same_tid = s.same_tid;
          same_global = s.same_global;
          same_world = s.same_world;
        },
      )

  pub with_handlers :
      {t : Thread W} {m : Model W}
      → Models t m
      → {v : Vector HandlerEntry} {hs : List HandlerEntry} → Holds v hs
      → Models (record t { handlers = v }) (record m { handlers = hs })
  with_handlers s held = record {
    handlers = held;
    restarts = s.restarts;
    actions = s.actions;
    same_ref = s.same_ref;
    same_tid = s.same_tid;
    same_global = s.same_global;
    same_world = s.same_world;
  }

  pub with_restarts :
      {t : Thread W} {m : Model W}
      → Models t m
      → {v : Vector RestartEntry} {rs : List RestartEntry} → Holds v rs
      → Models (record t { restarts = v }) (record m { restarts = rs })
  with_restarts s held = record {
    handlers = s.handlers;
    restarts = held;
    actions = s.actions;
    same_ref = s.same_ref;
    same_tid = s.same_tid;
    same_global = s.same_global;
    same_world = s.same_world;
  }

  abbrev pub handler_opened : Model W → SigType → SigHandler → ℕ → Model W
  handler_opened m sig_type handler userdata = record m {
    handlers = handler_entry sig_type handler userdata (next_handler_id m.handlers) ∷ m.handlers;
    actions = action_for unwind_handler_sig_rm_handler (next_handler_id m.handlers) ∷ m.actions;
  }

  pub autopop_handler-Models :
      (t : Thread W) (sig_type : SigType) (handler : SigHandler) (userdata : ℕ) (m : Model W)
      → handler ≢ null_handler
      → Models t m
      → Yields (autopop_handler true t sig_type handler userdata) (λ r.
        (r.0 ≡ next_handler_id m.handlers)
        × Models r.1 (handler_opened m sig_type handler userdata))
  unfolding autopop_handler
  autopop_handler-Models t sig_type handler userdata m real s =
      let (r, pushed, post) =
        sig_push_handler-Holds t.handlers sig_type handler userdata real s.handlers in
      let (u, acted, s') =
        unwind_action-Models (record t { handlers = r.1 })
          (action_for unwind_handler_sig_rm_handler r.0) _ (with_handlers s post.1) in
      (
        (r.0, u),
        rw (pushed, acted),
        (
          post.0,
          subst
              (λ k. Models u (record m {
                handlers =
                    handler_entry sig_type handler userdata (next_handler_id m.handlers)
                    ∷ m.handlers;
                actions = action_for unwind_handler_sig_rm_handler k ∷ m.actions;
              }))
              post.0 s',
        ),
      )

  pub null_opened-Models :
      (t : Thread W) (sig_type : SigType) (userdata : ℕ) (m : Model W)
      → Models t m
      → Yields (autopop_handler true t sig_type null_handler userdata) (λ r.
        (r.0 ≡ 0)
        × Models r.1
            (record m { actions = action_for unwind_handler_sig_rm_handler 0 ∷ m.actions }))
  unfolding autopop_handler
  null_opened-Models t sig_type userdata m s =
      let (u, acted, s') =
        unwind_action-Models t (action_for unwind_handler_sig_rm_handler 0) m s in
      ((0, u), rw acted, (refl, s'))

  abbrev pub restart_opened : Model W → SigType → SigType → ReturnPoint → Model W
  restart_opened m sig_type restart_type p = record m {
    restarts =
        record {
          sig_type = sig_type;
          restart_type = restart_type;
          p = p;
          id = next_restart_id m.restarts;
        }
        ∷ m.restarts;
    actions = action_for unwind_handler_sig_rm_restart (next_restart_id m.restarts) ∷ m.actions;
  }

  pub autopop_restart-Models :
      (t : Thread W) (sig_type restart_type : SigType) (jbuf : ℕ) (m : Model W)
      → Models t m
      → Yields (autopop_restart true t sig_type restart_type jbuf) (λ r.
        (r.0 ≡ next_restart_id m.restarts)
        × (r.1 ≡ return_point t jbuf)
        × Models r.2 (restart_opened m sig_type restart_type (return_point t jbuf)))
  unfolding autopop_restart
  autopop_restart-Models t sig_type restart_type jbuf m s =
      let (r, pushed, post) =
        sig_push_restart-Holds t.restarts sig_type restart_type (return_point t jbuf) s.restarts in
      let (u, acted, s') =
        unwind_action-Models (record t { restarts = r.1 })
          (action_for unwind_handler_sig_rm_restart r.0) _ (with_restarts s post.1) in
      (
        (r.0, return_point t jbuf, u),
        rw (pushed, acted),
        (
          post.0,
          refl,
          subst
              (λ k. Models u (record m {
                restarts =
                    record {
                      sig_type = sig_type;
                      restart_type = restart_type;
                      p = return_point t jbuf;
                      id = next_restart_id m.restarts;
                    }
                    ∷ m.restarts;
                actions = action_for unwind_handler_sig_rm_restart k ∷ m.actions;
              }))
              post.0 s',
        ),
      )
