-- ===== src/Send/Restore.antt =====
-- What unwinding past the scoped macros, and the end of their scopes, leave.
use libevsig.Base.{
  ℕ, ◌≤◌, ◌<◌, ◌≡◌, refl, ◌∙◌, ap, sym, subst, Option, none, some, List, [], ◌∷◌, ◌++◌, ok, arith,
  lt→ltb, le→ltb, ==_refl, ==-ne, length, length-append,
}
use libevsig.Vector.{Yields, Yields-at}
use libevsig.Signals.{next_handler_id, next_restart_id}
use libevsig.Unwind.{
  Model, Models, Models-unique, act, unwind_to_point, unwind, unwind_run_handler, return_point,
  jump,
}
use libevsig.Unwind.Refine.{unwind-refines, call-act, popped}
use libevsig.Thread.{
  ReturnPoint, OnUnwind, unwind_handler_sig_rm_handler, unwind_handler_sig_rm_restart, user_action,
  UnwindEntry, Thread, Program, returned,
}
use libevsig.Send.Scopes.{
  Opens, null_scope, handler_scope, restart_scope, action_scope, Nested, outermost, inside,
  unwind_action-Models, handler_opened, autopop_handler-Models, null_opened-Models, restart_opened,
  autopop_restart-Models, action_for,
}

module _ {W : Type 0} (prog : Program W) where
  -- What an action does to the rest of the process, if it returns.
  abbrev pub effect : OnUnwind → ℕ → W → W
  effect unwind_handler_sig_rm_handler userdata w = w
  effect unwind_handler_sig_rm_restart userdata w = w
  effect (user_action k) userdata w = (prog.on_unwind k userdata w).0

  abbrev pub replay : List UnwindEntry → W → W
  replay [] w = w
  replay (e ∷ es) w = replay es (effect e.h e.userdata w)

  -- The action on top of `after` undoes what was opened on `before`.
  pub record Closes (before after : Model W) (e : UnwindEntry) : Type 0 where
    pub top : after.actions ≡ e ∷ before.actions
    pub undone :
        (w : W)
        → act prog e.h e.userdata (record after { actions = before.actions; world = w })
          ≡ (none, record before { world = effect e.h e.userdata w })

  Opens-Closes :
      {t u : Thread W} {e : UnwindEntry} (m : Model W)
      → ((k userdata : ℕ) (w : W) → (prog.on_unwind k userdata w).1 ≡ none)
      → Models t m
      → Opens t e u
      → (m' : Model W) × Models u m' × Closes m m' e
  Opens-Closes {t} {u} m returns s (null_scope sig_type userdata {id} opened) =
      let post =
        Yields-at
          (λ r.
            (r.0 ≡ 0)
            × Models r.1
                (record m { actions = action_for unwind_handler_sig_rm_handler 0 ∷ m.actions }))
          (null_opened-Models t sig_type userdata m s) opened in
      (
        record m { actions = action_for unwind_handler_sig_rm_handler 0 ∷ m.actions },
        post.1,
        record { top = rw post.0; undone = λ w. rw post.0 },
      )
  Opens-Closes {t} {u} m returns s
        (handler_scope sig_type handler userdata {id} real valid opened) =
      let post =
        Yields-at
          (λ r.
            (r.0 ≡ next_handler_id m.handlers)
            × Models r.1 (handler_opened m sig_type handler userdata))
          (autopop_handler-Models t sig_type handler userdata m real s) opened in
      (
        handler_opened m sig_type handler userdata,
        post.1,
        record { top = rw post.0; undone = λ w. rw (← post.0, ==-ne valid, ==_refl id) },
      )
  Opens-Closes {t} {u} m returns s (restart_scope sig_type restart_type jbuf {id} {p} opened) =
      let post =
        Yields-at
          (λ r.
            (r.0 ≡ next_restart_id m.restarts)
            × (r.1 ≡ return_point t jbuf)
            × Models r.2 (restart_opened m sig_type restart_type (return_point t jbuf)))
          (autopop_restart-Models t sig_type restart_type jbuf m s) opened in
      (
        restart_opened m sig_type restart_type (return_point t jbuf),
        post.2,
        record { top = rw post.0; undone = λ w. rw (← post.0, ==_refl id) },
      )
  Opens-Closes {t} {u} m returns s (action_scope k userdata opened) =
      let s' =
        Yields-at
          (λ v. Models v (record m { actions = action_for (user_action k) userdata ∷ m.actions }))
          (unwind_action-Models t (action_for (user_action k) userdata) m s) opened in
      (
        record m { actions = action_for (user_action k) userdata ∷ m.actions },
        s',
        record { top = refl; undone = λ w. rw (returns k userdata w) },
      )

  -- What a nest of scopes is undone to.
  record Undone (before : Model W) (t : Thread W) (es : List UnwindEntry) : Type 0 where
    now : Model W
    models : Models t now
    stacked : now.actions ≡ es ++ before.actions
    pub undone :
        (p : ReturnPoint) (w : W)
        → p.unwind_to ≡ length before.actions
        → unwind_to_point prog p now.actions (record now { world = w })
          ≡ (p, record before { world = replay es w })

  pub unwind-none :
      (p : ReturnPoint) (m : Model W) (xs : List UnwindEntry)
      → length xs ≤ p.unwind_to
      → unwind_to_point prog p xs m ≡ (p, m)
  unfolding unwind_to_point
  unwind-none p m [] e = refl
  unwind-none p m (x ∷ xs) e = rw (le→ltb p.unwind_to (length (x ∷ xs)) e)

  pub unwind-cons :
      (p : ReturnPoint) (e : UnwindEntry) (xs : List UnwindEntry) (m m' : Model W)
      → p.unwind_to ≤ length xs
      → act prog e.h e.userdata (record m { actions = xs }) ≡ (none, m')
      → unwind_to_point prog p (e ∷ xs) m ≡ unwind_to_point prog p xs m'
  unfolding unwind_to_point
  unwind-cons p e xs m m' above acts = rw (lt→ltb p.unwind_to (length (e ∷ xs)) (omega arith), acts)

  Nested-Undone :
      {t u : Thread W} {es : List UnwindEntry} (m : Model W)
      → ((k userdata : ℕ) (w : W) → (prog.on_unwind k userdata w).1 ≡ none)
      → Models t m
      → Nested t es u
      → Undone m u es
  Nested-Undone m returns s outermost = record {
    now = m;
    models = s;
    stacked = refl;
    undone = λ p w e. unwind-none p (record m { world = w }) m.actions (omega arith);
  }
  Nested-Undone m returns s (inside {es} {e} n o) =
      let inner = Nested-Undone m returns s n in
      let (now, models, closes) = Opens-Closes inner.now returns inner.models o in
      record {
        now = now;
        models = models;
        stacked = closes.top ∙ ap (λ xs. e ∷ xs) inner.stacked;
        undone = λ p w eq.
            subst
              (λ ys.
                unwind_to_point prog p ys (record now { world = w })
                ≡ (p, record m { world = replay (e ∷ es) w }))
              (sym closes.top)
              (unwind-cons p e inner.now.actions (record now { world = w }) _
                  (omega (arith, ap length inner.stacked, length-append es m.actions))
                  (closes.undone w)
                ∙ inner.undone p (effect e.h e.userdata w) eq);
      }

  -- Unwinding to a return point from inside any nest of scopes opened since, with actions that
  -- return, ends at that point with every handler, every restart and every unwind action again as
  -- they were when the return point was made. Each action opened since runs once, the last first.
  pub unwind_restores :
      (fuel jbuf : ℕ) (t u : Thread W) (m : Model W) (es : List UnwindEntry)
      → ((k userdata : ℕ) (w : W) → (prog.on_unwind k userdata w).1 ≡ none)
      → Models t m
      → Nested t es u
      → u.unwind_stack.fill < fuel
      → Yields
          (unwind prog fuel (return_point t jbuf) u)
          (λ r. (r.0 ≡ return_point t jbuf) × Models r.1 (record m { world = replay es u.world }))
  unfolding return_point
  unwind_restores fuel jbuf t u m es returns s n enough =
      let d = Nested-Undone m returns s n in
      let p : ReturnPoint = return_point t jbuf in
      let (r, landed, post) =
        unwind-refines prog fuel p u d.now d.models (omega (arith, d.models.actions.filled)) in
      let end = d.undone p d.now.world (s.actions.filled) in
      (
        r,
        landed,
        (
          post.0 ∙ ap (λ x. x.0) end,
          (subst (λ w. Models r.1 (record m { world = replay es w })) (sym d.models.same_world)
              (subst (λ x. Models r.1 x.1) end post.1)),
        ),
      )

  pub run-none :
      (fuel : ℕ) (target : Option ReturnPoint) (v : Thread W)
      → target ≡ none
      → (elim target [ none ↦ ok (returned v) | some q ↦ jump (unwind prog fuel q v) ])
        ≡ ok (returned v)
  run-none fuel none v e = refl
  run-none fuel (some q) v e = cc

  -- The end of the scope of what was opened, whatever was done to the rest of the process since.
  pub closed :
      (fuel : ℕ) (before after : Model W) (e : UnwindEntry) (w : W) (u : Thread W)
      → Closes before after e
      → Models u (record after { world = w })
      → (v : Thread W) × (unwind_run_handler prog fuel e u ≡ ok (returned v))
        × Models v (record before { world = effect e.h e.userdata w })
  unfolding unwind_run_handler
  closed fuel before after e w u closes s =
      let (r, called, post) =
        call-act prog e.h e.userdata _ _
          (popped prog u (record after { world = w }) s closes.top) in
      let undone = closes.undone w in
      let none_left : r.0 ≡ none = post.0 ∙ ap (λ x. x.0) undone in
      (r.1, rw called (run-none fuel r.0 r.1 none_left), subst (λ x. Models r.1 x.1) undone post.1)

  -- A macro has opened its scope, and the code in the scope has come to its end: it did anything to
  -- the rest of the process, and left handlers, restarts, actions, thread and global signal as the
  -- macro made them. Then the end of the scope, if unwind actions return, undoes the macro: the thread
  -- is as before it, but for the rest of the process, on which the macro's action has run once.
  pub scope_restores :
      (fuel : ℕ) (t u v : Thread W) (m now : Model W) (e : UnwindEntry) (w : W)
      → ((k userdata : ℕ) (w : W) → (prog.on_unwind k userdata w).1 ≡ none)
      → Models t m
      → Opens t e u
      → Models u now
      → Models v (record now { world = w })
      → (r : Thread W) × (unwind_run_handler prog fuel e v ≡ ok (returned r))
        × Models r (record m { world = effect e.h e.userdata w })
  scope_restores fuel t u v m now e w returns s o opened ended =
      let (after, models, closes) = Opens-Closes m returns s o in
      closed fuel m after e w v closes (
        subst (λ n. Models v (record n { world = w })) (Models-unique u now after opened models)
          ended)
