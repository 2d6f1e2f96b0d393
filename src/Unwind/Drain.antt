-- ===== src/Unwind/Drain.antt =====
-- What `unwind_cleanup` does with the actions that are left, if they are the program's own.
use libevsig.Base.{
  ℕ, zero, suc, ◌-◌, ◌<◌, ◌≡◌, refl, ap, none, List, [], ◌∷◌, ok, arith, ltb, lt→ltb, le→ltb,
  length, if◌then◌else◌,
}
use libevsig.Memory.{free, freed}
use libevsig.Vector.{Holds, load-top, pop-Holds}
use libevsig.Shutdown.{Signal, confirm_shutdown}
use libevsig.Thread.{
  OnUnwind, unwind_handler_sig_rm_handler, unwind_handler_sig_rm_restart, user_action, UnwindEntry,
  Thread, Program, returned,
}
use libevsig.Unwind.Ops.{dec64, set_fill, call, drain, release, unwind_cleanup}

abbrev IsUserAction : OnUnwind → Type 0
IsUserAction (user_action k) = Unit
IsUserAction _ = ⊥

-- No scope of a handler or of a restart is open.
abbrev pub AllUserActions : List UnwindEntry → Type 0
AllUserActions [] = Unit
AllUserActions (e ∷ es) = IsUserAction e.h × AllUserActions es

module _ {W : Type 0} (prog : Program W) where
  abbrev ran : OnUnwind → ℕ → W → W
  ran (user_action k) userdata w = (prog.on_unwind k userdata w).0
  ran _ userdata w = w

  -- The actions, one after the other, the top one first.
  abbrev pub all_ran : List UnwindEntry → W → W
  all_ran [] w = w
  all_ran (e ∷ es) w = all_ran es (ran e.h e.userdata w)

  abbrev drained : Thread W → List UnwindEntry → Thread W
  drained t es = record t {
    unwind_stack = record (t.unwind_stack) { fill = 0 };
    world = all_ran es t.world;
  }

module _ {W : Type 0} (prog : Program W)
    (returns : (k userdata : ℕ) (w : W) → (prog.on_unwind k userdata w).1 ≡ none) where
  called :
      (h : OnUnwind) (userdata : ℕ) (t : Thread W)
      → IsUserAction h
      → call prog h userdata t ≡ ok (none, record t { world = ran prog h userdata t.world })
  unfolding call
  called (user_action k) userdata t user = rw (returns k userdata t.world) refl
  called unwind_handler_sig_rm_handler userdata t user = absurd user
  called unwind_handler_sig_rm_restart userdata t user = absurd user

  -- Each action is called once, the top one first.
  drain-runs :
      (fuel : ℕ) (es : List UnwindEntry) (t : Thread W)
      → Holds t.unwind_stack es
      → AllUserActions es
      → length es < fuel
      → drain prog fuel t ≡ ok (returned (drained prog t es))
  unfolding drain
  drain-runs zero es t h user enough = absurd (omega (arith, enough))
  drain-runs (suc fuel) [] t h user enough =
      rw (le→ltb 0 t.unwind_stack.fill (omega (arith, h.filled))) (
        ap (λ n. ok (returned (record t { unwind_stack = record (t.unwind_stack) { fill = n } })))
          h.filled)
  drain-runs (suc fuel) (e ∷ es) t h (first, user) enough =
      let index : t.unwind_stack.fill - 1 ≡ length es = omega (arith, h.filled) in
      rw
        (
          lt→ltb 0 t.unwind_stack.fill (omega (arith, h.filled)),
          index,
          load-top t.unwind_stack h,
          called e.h e.userdata t first,
        )
        (drain-runs fuel es
          (set_fill (record t { world = ran prog e.h e.userdata t.world })
            (dec64 t.unwind_stack.fill))
          (pop-Holds t.unwind_stack h (ground (arith, h.filled))) user (omega arith))

  -- The last `unwind_cleanup` of a thread.
  pub unwind_cleanup-runs :
      (fuel : ℕ) (es : List UnwindEntry) (t : Thread W) (g : Signal)
      → t.unwind_init_ref ≡ 1
      → Holds t.unwind_stack es
      → AllUserActions es
      → length es < fuel
      → confirm_shutdown t.global t.tid ≡ ok g
      → unwind_cleanup prog fuel t
        ≡ ok (
            returned (record t {
              unwind_init_ref = 0;
              unwind_stack = record (t.unwind_stack) { block = freed; fill = 0 };
              global = g;
              world = all_ran prog es t.world;
            }))
  unfolding unwind_cleanup release free
  unwind_cleanup-runs fuel es t g last h user enough confirmed = rw (
    dropped,
    drain-runs fuel es (record t { unwind_init_ref = 0 }) h user enough,
    h.is_block,
    confirmed,
  )
    where
      dropped : (if ltb 0 t.unwind_init_ref then t.unwind_init_ref - 1 else t.unwind_init_ref) ≡ 0
      dropped = rw last
