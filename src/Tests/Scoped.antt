-- ===== src/Tests/Scoped.antt =====
-- Scopes that open and close on top of the catch-all handler.
use libevsig.Base.{ℕ, ◌≡◌, ◌≢◌, refl, ap, Bool, true, false, [], ◌∷◌, arith, ok, none}
use libevsig.Vector.{Yields, pop-Holds, empty_vector, empty-Holds}
use libevsig.Shutdown.{init}
use libevsig.Unwind.{Model, Models, unwind, unwind_action, unwind_run_handler, return_point}
use libevsig.Signals.Names.{signal_fail}
use libevsig.Thread.{
  UnwindEntry, Thread, returned, unwind_handler_sig_rm_handler, user_handler, null_handler,
  SigHandler,
}
use libevsig.Send.{autopop_handler}
use libevsig.Send.Scopes.{handler_scope, action_scope, Nested, outermost, inside}
use libevsig.Send.Restore.{unwind_restores, scope_restores}
use libevsig.Tests.{counting}
use libevsig.Tests.Vectors.{one, two, one-Holds, two-Holds, catching, answering, first_action}

abbrev pub outside : Thread ℕ
outside = record {
  handlers = one catching;
  restarts = empty_vector;
  unwind_stack = empty_vector;
  unwind_init_ref = 1;
  tid = 7;
  global = init;
  world = 0;
}

abbrev pub outside_model : Model ℕ
outside_model = record {
  handlers = catching ∷ [];
  restarts = [];
  actions = [];
  unwind_init_ref = 1;
  tid = 7;
  global = init;
  world = 0;
}

pub outside-Models : Models outside outside_model
outside-Models = record {
  handlers = one-Holds catching;
  restarts = empty-Holds;
  actions = empty-Holds;
  same_ref = refl;
  same_tid = refl;
  same_global = refl;
  same_world = refl;
}

abbrev scoped_handler : UnwindEntry
scoped_handler = record { h = unwind_handler_sig_rm_handler; userdata = 2 }

abbrev within : Thread ℕ
within = record outside { handlers = two answering catching; unwind_stack = one scoped_handler }

abbrev innermost : Thread ℕ
innermost = record within { unwind_stack = two first_action scoped_handler }

abbrev is_null : SigHandler → Bool
is_null null_handler = true
is_null _ = false

pub user-ne-null : user_handler 0 ≢ null_handler
user-ne-null e = ground (arith, ap is_null e)

pushes : autopop_handler true outside signal_fail (user_handler 0) 5 ≡ ok (2, within)
unfolding autopop_handler
pushes = refl

acts : unwind_action true within first_action ≡ ok innermost
unfolding unwind_action
acts = refl

nested : Nested outside (first_action ∷ scoped_handler ∷ []) innermost
nested =
    inside
      (inside outermost
        (handler_scope signal_fail (user_handler 0) 5 user-ne-null (omega arith) pushes))
      (action_scope 5 0 acts)

counting_returns : (k userdata : ℕ) (w : ℕ) → (counting.on_unwind k userdata w).1 ≡ none
counting_returns k userdata w = refl

-- The action has run, and the scoped handler is gone.
unwind_restores_example :
    Yields
      (unwind counting 3 (return_point outside 42) innermost)
      (λ r. (r.0 ≡ return_point outside 42) × Models r.1 (record outside_model { world = 1 }))
unwind_restores_example =
    unwind_restores counting 3 42 outside innermost outside_model
      (first_action ∷ scoped_handler ∷ []) counting_returns outside-Models nested (omega arith)

abbrev one_action : Thread ℕ
one_action = record outside { unwind_stack = one first_action }

acts_alone : unwind_action true outside first_action ≡ ok one_action
unfolding unwind_action
acts_alone = refl

abbrev acting_model : Model ℕ
acting_model = record outside_model { actions = first_action ∷ [] }

acting-Models : Models one_action acting_model
acting-Models = record {
  handlers = one-Holds catching;
  restarts = empty-Holds;
  actions = one-Holds first_action;
  same_ref = refl;
  same_tid = refl;
  same_global = refl;
  same_world = refl;
}

-- In the scope a handler was pushed and removed again: its entry is still in the block.
abbrev stale : Thread ℕ
stale = record one_action { handlers = record (two answering catching) { fill = 1 }; world = 8 }

stale-Models : Models stale (record acting_model { world = 8 })
stale-Models = record {
  handlers = pop-Holds (two answering catching) (two-Holds answering catching) refl;
  restarts = empty-Holds;
  actions = one-Holds first_action;
  same_ref = refl;
  same_tid = refl;
  same_global = refl;
  same_world = refl;
}

scope_restores_example :
    (r : Thread ℕ) × (unwind_run_handler counting 1 first_action stale ≡ ok (returned r))
    × Models r (record outside_model { world = 9 })
scope_restores_example =
    scope_restores counting 1 outside one_action stale outside_model acting_model first_action 8
      counting_returns outside-Models (action_scope 5 0 acts_alone) acting-Models stale-Models
