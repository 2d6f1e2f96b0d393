-- ===== src/Tests/Endings.antt =====
-- Threads that end at a signal, that are set up twice, and that assert.
use libevsig.Base.{ℕ, suc, ◌≡◌, refl, [], ◌∷◌, arith, some, none, true, false, ok, fault, ◌>>=◌}
use libevsig.Memory.{cells}
use libevsig.Vector.{Vector, Yields}
use libevsig.Signals.Names.{signal_fail, signal_write_error}
use libevsig.Unwind.{Model, Models}
use libevsig.Unwind.Install.{unwind_init_system}
use libevsig.Unwind.Print.{print}
use libevsig.Thread.{user_handler, returned, Thread}
use libevsig.Send.{sig_init, sig_cleanup, sig_assert_handler, register_global}
use libevsig.Send.Scopes.{handler_entry}
use libevsig.Send.Persistent.{persistent_in_scope, rm_handler, persistent_in_scope-rm_handler}
use libevsig.Send.Nested.{and_then, sig_init-twice}
use libevsig.Send.Assert.{
  Asserts, sig_assertwarn_handler, sig_assert_handler-sig_assertwarn_handler,
}
use libevsig.Tests.{counting}
use libevsig.Tests.Lists.{busy}
use libevsig.Tests.Scoped.{user-ne-null, outside, outside_model, outside-Models}
use libevsig.Tests.Sends.{set_up, model}
use libevsig.Tests.Vectors.{one, catching}

-- Nobody handles the signal in this thread, which has two actions.
abbrev alone : Thread ℕ
alone = record set_up { handlers = one catching; global = busy }

abbrev alone_model : Model ℕ
alone_model = record model { handlers = catching ∷ []; global = busy }

joins : register_global true true true outside ≡ ok outside
unfolding register_global
joins = refl

sig_init-twice_example :
    (sig_init true true true outside >>= λ u.
    sig_cleanup counting 10 u >>= and_then counting (sig_cleanup counting 10))
    ≡ fault
sig_init-twice_example = sig_init-twice counting 10 0 true true outside outside joins refl

abbrev warn : ℕ → ℕ → ℕ
warn sig_type w = suc w

sig_assert_handler-sig_assertwarn_handler_example :
    Asserts warn signal_write_error outside false
      (sig_assert_handler counting 10 signal_write_error 5 outside)
      (sig_assertwarn_handler warn signal_write_error outside)
sig_assert_handler-sig_assertwarn_handler_example =
    sig_assert_handler-sig_assertwarn_handler counting warn 10 signal_write_error 5 outside
      outside_model [] refl outside-Models (omega arith)

-- "ab"
printed :
    print (λ bs w. bs) 10 (cells (some 97 ∷ some 98 ∷ some 0 ∷ none ∷ [])) [] ≡ ok (97 ∷ 98 ∷ [])
unfolding print
printed = refl

-- Eleven handlers are installed, by a thread that is not thread-local.
installs :
    (unwind_init_system (λ sig w. suc w) true false (record outside { unwind_init_ref = 0 })
      >>= λ t. ok t.world)
    ≡ ok 11
unfolding unwind_init_system
installs = refl

persistent_in_scope-rm_handler_example :
    (id : ℕ) × (v : Thread ℕ) × (persistent_in_scope counting 10 outside signal_fail
        (user_handler 0)
        5
        signal_write_error
        (user_handler 0)
        6
      ≡ ok (id, returned v))
    × Models v (record outside_model {
      handlers = handler_entry signal_write_error (user_handler 0) 6 id ∷ catching ∷ [];
    })
    × Yields (rm_handler v id) (λ u. Models u outside_model)
persistent_in_scope-rm_handler_example =
    persistent_in_scope-rm_handler counting 10 outside signal_fail (user_handler 0) 5
      signal_write_error (user_handler 0) 6 outside_model user-ne-null user-ne-null (omega arith)
      (omega arith) outside-Models
