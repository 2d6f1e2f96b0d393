-- ===== src/Send/Persistent.antt =====
-- Handlers that outlive the scopes they are pushed in: `SIG_PERSISTENT_HANDLER` and `SIG_RM_HANDLER`.
use libevsig.Base.{
  ℕ, ◌+◌, ◌^◌, ◌<◌, ◌≡◌, ◌≢◌, refl, ◌∙◌, none, sym, subst, ap, Bool, true, List, ◌∷◌, Result, ok,
  ◌>>=◌, ==_refl, ==-ne, arith,
}
use libevsig.Vector.{Yields}
use libevsig.Signals.{
  sig_push_handler, sig_rm_handler, sig_push_handler-Holds, sig_rm_handler-Holds, next_handler_id,
  without_handler,
}
use libevsig.Unwind.{Model, Models, unwind_run_handler}
use libevsig.Thread.{
  SigType, SigHandler, null_handler, HandlerEntry, unwind_handler_sig_rm_handler, Thread, Program,
  Flow, returned,
}
use libevsig.Send.Ops.{autopop_handler}
use libevsig.Send.Scopes.{
  action_for, handler_entry, handler_opened, with_handlers, autopop_handler-Models,
}
use libevsig.Send.Restore.{Closes, closed}

module _ {W : Type 0} where
  -- `SIG_PERSISTENT_HANDLER`
  unfoldable pub persistent_handler :
      Bool → Thread W → SigType → SigHandler → ℕ → Result (ℕ × Thread W)
  unfolding sig_push_handler
  persistent_handler room t sig_type handler userdata = do
    (id, v) ← sig_push_handler room t.handlers sig_type handler userdata
    ok (id, record t { handlers = v })

  -- `SIG_RM_HANDLER`
  unfoldable pub rm_handler : Thread W → ℕ → Result (Thread W)
  unfolding sig_rm_handler
  rm_handler t id = do v ← sig_rm_handler t.handlers id; ok (record t { handlers = v })

  persistent_handler-Models :
      (t : Thread W) (sig_type : SigType) (handler : SigHandler) (userdata : ℕ) (m : Model W)
      → handler ≢ null_handler
      → Models t m
      → Yields (persistent_handler true t sig_type handler userdata) (λ r.
        (r.0 ≡ next_handler_id m.handlers)
        × Models r.1 (record m {
          handlers =
              handler_entry sig_type handler userdata (next_handler_id m.handlers) ∷ m.handlers;
        }))
  unfolding persistent_handler
  persistent_handler-Models t sig_type handler userdata m real s =
      let (r, pushed, (same, held)) =
        sig_push_handler-Holds t.handlers sig_type handler userdata real s.handlers in
      ((r.0, record t { handlers = r.1 }), rw pushed refl, (same, with_handlers s held))

  rm_handler-Models :
      (t : Thread W) (id : ℕ) (m : Model W)
      → Models t m
      → Yields
          (rm_handler t id)
          (λ u. Models u (record m { handlers = without_handler id m.handlers }))
  unfolding rm_handler
  rm_handler-Models t id m s =
      let (v, removed, held) = sig_rm_handler-Holds t.handlers id s.handlers in
      (record t { handlers = v }, rw removed refl, with_handlers s held)

-- The entry below another one with a different id.
under-dropped :
    (id : ℕ) (e f : HandlerEntry) (es : List HandlerEntry)
    → id ≢ 0
    → f.id ≡ id
    → e.id ≢ id
    → without_handler id (e ∷ f ∷ es) ≡ e ∷ es
under-dropped id e f es valid same other = rw (==-ne valid, ==-ne other, same, ==_refl id) refl

top-dropped :
    (id : ℕ) (e : HandlerEntry) (es : List HandlerEntry)
    → id ≢ 0
    → e.id ≡ id
    → without_handler id (e ∷ es) ≡ es
top-dropped id e es valid same = rw (==-ne valid, same, ==_refl id) refl

module _ {W : Type 0} (prog : Program W) (fuel : ℕ) where
  -- A scope with `SIG_AUTOPOP_HANDLER`, in which `SIG_PERSISTENT_HANDLER` pushes a handler; the result
  -- is the id of the latter, and the end of the scope.
  unfoldable pub persistent_in_scope :
      Thread W → SigType → SigHandler → ℕ → SigType → SigHandler → ℕ → Result (ℕ × Flow W)
  unfolding autopop_handler persistent_handler unwind_run_handler
  persistent_in_scope t sig_type handler userdata sig_type' handler' userdata' = do
    (scope_id, inner) ← autopop_handler true t sig_type handler userdata
    (id, pushed) ← persistent_handler true inner sig_type' handler' userdata'
    flow ← unwind_run_handler prog fuel (action_for unwind_handler_sig_rm_handler scope_id) pushed
    ok (id, flow)

  scope-Closes :
      (m : Model W) (f e : HandlerEntry)
      → f.id ≢ 0
      → e.id ≢ f.id
      → Closes prog
          (record m { handlers = e ∷ m.handlers })
          (record m {
            handlers = e ∷ f ∷ m.handlers;
            actions = action_for unwind_handler_sig_rm_handler f.id ∷ m.actions;
          })
          (action_for unwind_handler_sig_rm_handler f.id)
  scope-Closes m f e valid other = record {
    top = refl;
    undone = λ w.
        ap (λ hs. (none, record m { handlers = hs; world = w }))
          (under-dropped f.id e f m.handlers valid refl other);
  }

  gone_through :
      (t : Thread W) (sig_type : SigType) (handler : SigHandler) (userdata : ℕ)
      (sig_type' : SigType) (handler' : SigHandler) (userdata' : ℕ) (o r : ℕ × Thread W)
      (v : Thread W)
      → autopop_handler true t sig_type handler userdata ≡ ok o
      → persistent_handler true o.1 sig_type' handler' userdata' ≡ ok r
      → unwind_run_handler prog fuel (action_for unwind_handler_sig_rm_handler o.0) r.1
        ≡ ok (returned v)
      → persistent_in_scope t sig_type handler userdata sig_type' handler' userdata'
        ≡ ok (r.0, returned v)
  unfolding persistent_in_scope
  gone_through t sig_type handler userdata sig_type' handler' userdata' o r v opened pushed closes =
      rw (opened, pushed, closes) refl

  -- With memory to be had and two ids to spare, a handler that `SIG_PERSISTENT_HANDLER` pushes in
  -- the scope of another one, neither being null, is still there when that scope has ended, above
  -- all that were there before it; `SIG_RM_HANDLER` of its id takes it out and leaves the thread as
  -- it was.
  pub persistent_in_scope-rm_handler :
      (t : Thread W) (sig_type : SigType) (handler : SigHandler) (userdata : ℕ)
      (sig_type' : SigType) (handler' : SigHandler) (userdata' : ℕ) (m : Model W)
      → handler ≢ null_handler
      → handler' ≢ null_handler
      → 0 < next_handler_id m.handlers
      → next_handler_id m.handlers + 1 < 2 ^ 64
      → Models t m
      → (id : ℕ) × (v : Thread W) × (persistent_in_scope t sig_type handler userdata sig_type'
            handler' userdata'
          ≡ ok (id, returned v))
        × Models v
            (record m { handlers = handler_entry sig_type' handler' userdata' id ∷ m.handlers })
        × Yields (rm_handler v id) (λ u. Models u m)
  persistent_in_scope-rm_handler t sig_type handler userdata sig_type' handler' userdata' m real
        real' positive spare s =
      let n = next_handler_id m.handlers in
      let (o, opened, (first, inner)) =
        autopop_handler-Models t sig_type handler userdata m real s in
      let (r, pushed, (second, both)) =
        persistent_handler-Models o.1 sig_type' handler' userdata'
          (handler_opened m sig_type handler userdata) real' inner in
      let id = next_handler_id ((handler_opened m sig_type handler userdata).handlers) in
      let above : id ≡ n + 1 = omega (arith, spare) in
      let e = handler_entry sig_type' handler' userdata' id in
      let (v, closes, left) =
        closed prog fuel (record m { handlers = e ∷ m.handlers }) _
          (action_for unwind_handler_sig_rm_handler n) m.world r.1
          (scope-Closes m (handler_entry sig_type handler userdata n) e
            (λ z. omega (arith, positive, z)) (λ z. omega (arith, above, z)))
          both in
      let (u, removed, rest) = rm_handler-Models v id _ left in
      (
        id,
        v,
        gone_through t sig_type handler userdata sig_type' handler' userdata' o r v opened pushed (
              subst
                (λ k.
                  unwind_run_handler prog fuel (action_for unwind_handler_sig_rm_handler k) r.1
                  ≡ ok (returned v))
                (sym first) closes)
            ∙ ap (λ k. ok (k, returned v)) second,
        left,
        (
          u,
          removed,
          subst (λ hs. Models u (record m { handlers = hs }))
              (top-dropped id e m.handlers (λ z. omega (arith, above, z)) refl) rest,
        ),
      )
