-- ===== src/Unwind/Refine.antt =====
-- `_unwind` refines its specification, and ends whatever the actions do.
use libevsig.Base.{
  ℕ, zero, suc, ◌+◌, ◌-◌, ◌≤◌, ◌<◌, ◌≡◌, refl, ap, Option, none, some, List, [], ◌∷◌, ok, Result,
  arith, lt→ltb, le→ltb, length,
}
use libevsig.Memory.{load}
use libevsig.Vector.{Holds, Yields, load-top, pop-Holds}
use libevsig.Signals.{sig_rm_handler-Holds, sig_rm_restart-Holds}
use libevsig.Thread.{
  ReturnPoint, OnUnwind, unwind_handler_sig_rm_handler, unwind_handler_sig_rm_restart, user_action,
  UnwindEntry, Thread, Program,
}
use libevsig.Unwind.Ops.{dec64, set_fill, call, unwind_loop, unwind}
use libevsig.Unwind.Spec.{Model, Models, act, retarget, unwind_to_point}

module _ {W : Type 0} (prog : Program W) where
  -- A call of an action does what the specification says.
  pub call-act :
      (h : OnUnwind) (userdata : ℕ) (t : Thread W) (m : Model W)
      → Models t m
      → Yields
          (call prog h userdata t)
          (λ r. (r.0 ≡ (act prog h userdata m).0) × Models r.1 (act prog h userdata m).1)
  unfolding call
  call-act unwind_handler_sig_rm_handler id t m s =
      let (v, removed, held) = sig_rm_handler-Holds t.handlers id s.handlers in
      (
        (none, record t { handlers = v }),
        rw removed,
        (
          refl,
          record {
            handlers = held;
            restarts = s.restarts;
            actions = s.actions;
            same_ref = s.same_ref;
            same_tid = s.same_tid;
            same_global = s.same_global;
            same_world = s.same_world;
          },
        ),
      )
  call-act unwind_handler_sig_rm_restart id t m s =
      let (v, removed, held) = sig_rm_restart-Holds t.restarts id s.restarts in
      (
        (none, record t { restarts = v }),
        rw removed,
        (
          refl,
          record {
            handlers = s.handlers;
            restarts = held;
            actions = s.actions;
            same_ref = s.same_ref;
            same_tid = s.same_tid;
            same_global = s.same_global;
            same_world = s.same_world;
          },
        ),
      )
  call-act (user_action k) userdata t m s =
      let after = prog.on_unwind k userdata t.world in
      (
        (after.1, record t { world = after.0 }),
        refl,
        (
          ap (λ w. (prog.on_unwind k userdata w).1) s.same_world,
          record {
            handlers = s.handlers;
            restarts = s.restarts;
            actions = s.actions;
            same_ref = s.same_ref;
            same_tid = s.same_tid;
            same_global = s.same_global;
            same_world = ap (λ w. (prog.on_unwind k userdata w).0) s.same_world;
          },
        ),
      )

  -- The state in which an action is called.
  pub popped :
      (t : Thread W) (m : Model W) {e : UnwindEntry} {xs : List UnwindEntry}
      → Models t m
      → m.actions ≡ e ∷ xs
      → Models (set_fill t (dec64 t.unwind_stack.fill)) (record m { actions = xs })
  popped t m {e} {xs} s eq =
      let held : Holds t.unwind_stack (e ∷ xs) = rw eq at s.actions in
      record {
        handlers = s.handlers;
        restarts = s.restarts;
        actions = pop-Holds t.unwind_stack held (ground (arith, held.filled));
        same_ref = s.same_ref;
        same_tid = s.same_tid;
        same_global = s.same_global;
        same_world = s.same_world;
      }

  -- A computation that lands where, and as, the specification says.
  abbrev pub Lands : Result (ReturnPoint × Thread W) → ReturnPoint × Model W → Type 0
  Lands run r = Yields run (λ a. (a.0 ≡ r.0) × Models a.1 r.1)

  act-actions :
      (h : OnUnwind) (userdata : ℕ) (m : Model W) → (act prog h userdata m).1.actions ≡ m.actions
  act-actions unwind_handler_sig_rm_handler userdata m = refl
  act-actions unwind_handler_sig_rm_restart userdata m = refl
  act-actions (user_action k) userdata m = refl

  -- The refinement for the loop, at a list of entries.
  abbrev LoopLands : List UnwindEntry → Type 0
  LoopLands xs =
      (fuel n : ℕ) (p : ReturnPoint) (t : Thread W) (m : Model W)
      → Models t m
      → m.actions ≡ xs
      → n ≡ length xs - p.unwind_to
      → length xs ≤ fuel
      → Lands (unwind_loop prog (unwind prog fuel) p n t) (unwind_to_point prog p xs m)

  enter :
      (xs : List UnwindEntry) (fuel : ℕ) (p : ReturnPoint) (t : Thread W) (m : Model W)
      → LoopLands xs
      → Models t m
      → m.actions ≡ xs
      → length xs ≤ fuel
      → Lands (unwind prog (suc fuel) p t) (unwind_to_point prog p xs m)
  unfolding unwind unwind_to_point
  enter [] fuel p t m loop s eq enough =
      rw (le→ltb 0 t.unwind_stack.fill (omega (arith, none_left))) ((p, t), refl, (refl, s))
    where
      none_left : t.unwind_stack.fill ≡ 0
      none_left = rw (s.actions.filled, eq)
  enter (e ∷ xs) fuel p t m loop s eq enough =
      rw (lt→ltb 0 t.unwind_stack.fill (omega (arith, some_left))) (
        loop fuel (t.unwind_stack.fill - p.unwind_to) p t m s eq
          (ap (λ k. k - p.unwind_to) some_left) enough)
    where
      some_left : t.unwind_stack.fill ≡ suc (length xs)
      some_left = rw (s.actions.filled, eq)

  -- After the call of an action: the loop goes on, or a new unwinding begins.
  after_call :
      (xs : List UnwindEntry) (fuel n : ℕ) (p : ReturnPoint) (target : Option ReturnPoint)
      (t : Thread W) (m : Model W)
      → LoopLands xs
      → Models t m
      → m.actions ≡ xs
      → n ≡ length xs - p.unwind_to
      → length xs ≤ fuel
      → Lands
          (elim target [
            | none ↦ unwind_loop prog (unwind prog (suc fuel)) p n t
            | some q ↦ unwind prog (suc fuel) q t
          ])
          (unwind_to_point prog (retarget p target) xs m)
  after_call xs fuel n p none t m loop s eq rounds enough =
      loop (suc fuel) n p t m s eq rounds (omega arith)
  after_call xs fuel n p (some q) t m loop s eq rounds enough = enter xs fuel q t m loop s eq enough

  loop_lands : (xs : List UnwindEntry) → LoopLands xs
  unfolding unwind_loop unwind_to_point
  loop_lands [] fuel zero p t m s eq rounds enough = ((p, t), refl, (refl, s))
  loop_lands [] fuel (suc n) p t m s eq rounds enough = absurd (omega arith)
  loop_lands (e ∷ xs) fuel zero p t m s eq rounds enough =
      rw (le→ltb p.unwind_to (length (e ∷ xs)) (omega arith)) ((p, t), refl, (refl, s))
  loop_lands (e ∷ xs) zero (suc n) p t m s eq rounds enough = absurd (omega arith)
  loop_lands (e ∷ xs) (suc fuel) (suc n) p t m s eq rounds enough =
      let (r, called, (jumps, s')) = call-act e.h e.userdata _ _ (popped t m s eq) in
      rw (lt→ltb p.unwind_to (length (e ∷ xs)) (omega arith), loaded, called, ← jumps)
        (after_call xs fuel n p r.0 r.1 _ (loop_lands xs) s'
          (act-actions e.h e.userdata (record m { actions = xs })) (omega arith) (omega arith))
    where
      loaded : load t.unwind_stack.block (p.unwind_to + n) ≡ ok e
      loaded =
          let index : p.unwind_to + n ≡ length xs = omega arith in
          rw index (load-top t.unwind_stack (rw eq at s.actions))

  -- With more fuel than entries `_unwind` ends, whether its actions return or unwind in turn, and
  -- lands where its specification says, in the state that it says.
  pub unwind-refines :
      (fuel : ℕ) (p : ReturnPoint) (t : Thread W) (m : Model W)
      → Models t m
      → length m.actions < fuel
      → Lands (unwind prog fuel p t) (unwind_to_point prog p m.actions m)
  unwind-refines zero p t m s enough = absurd (omega arith)
  unwind-refines (suc fuel) p t m s enough =
      enter m.actions fuel p t m (loop_lands m.actions) s refl (omega arith)
