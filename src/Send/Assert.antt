-- ===== src/Send/Assert.antt =====
-- The two assertions that a handler exists.
use libevsig.Base.{
  ℕ, ◌<◌, ◌≡◌, refl, Bool, true, false, List, [], ◌∷◌, ◌++◌, Result, ok, ◌>>=◌, ◌==◌, if◌then◌else◌,
  any, length,
}
use libevsig.Signals.{handler_exists, handler_exists-any}
use libevsig.Signals.Names.{signal_no_sig_handler}
use libevsig.Unwind.{Model, Models}
use libevsig.Thread.{SigType, HandlerEntry, Thread, Program, Flow, returned}
use libevsig.Send.Ops.{sig_send, sig_assert_handler}
use libevsig.Send.Setup.{catchall_entry}
use libevsig.Send.Ends.{Leaves, sig_send-Leaves}

-- `_sig_assertwarn_handler`; `warn` prints that the signal type has no handler.
unfoldable pub sig_assertwarn_handler :
    {W : Type 0} → (SigType → W → W) → SigType → Thread W → Result (Thread W)
unfolding handler_exists
sig_assertwarn_handler warn sig_type t = do
  exists ← handler_exists t.handlers sig_type
  ok (if exists then t else record t { world = warn sig_type t.world })

abbrev pub pushed_for : SigType → List HandlerEntry → Bool
pushed_for sig_type hs = any (λ (e : HandlerEntry). e.sig_type == sig_type) hs

module _ {W : Type 0} where
  -- What the two come to, whether a handler was pushed or not.
  abbrev pub Asserts :
      (SigType → W → W) → SigType → Thread W → Bool → Result (Flow W) → Result (Thread W) → Type 0
  Asserts warn sig_type t true asserted warned = (asserted ≡ ok (returned t)) × (warned ≡ ok t)
  Asserts warn sig_type t false asserted warned =
      Leaves asserted × (warned ≡ ok (record t { world = warn sig_type t.world }))

module _ {W : Type 0} (prog : Program W) where
  pub sig_assert_handler-returns :
      (fuel : ℕ) (sig_type : SigType) (msg : ℕ) (t : Thread W) (md : Model W)
      → pushed_for sig_type md.handlers ≡ true
      → Models t md
      → sig_assert_handler prog fuel sig_type msg t ≡ ok (returned t)
  unfolding sig_assert_handler
  sig_assert_handler-returns fuel sig_type msg t md found s =
      rw (handler_exists-any t.handlers sig_type s.handlers, found) refl

  decided :
      (warn : SigType → W → W) (fuel : ℕ) (sig_type : SigType) (msg : ℕ) (t : Thread W)
      (pushed : Bool)
      → handler_exists t.handlers sig_type ≡ ok pushed
      → Leaves (
          sig_send prog fuel
            (record {
              sig_type = signal_no_sig_handler;
              msg = msg;
              signal_data = 0;
              signal_data_cleanup_func = 0;
            })
            t)
      → Asserts warn sig_type t pushed
          (sig_assert_handler prog fuel sig_type msg t)
          (sig_assertwarn_handler warn sig_type t)
  unfolding sig_assert_handler sig_assertwarn_handler
  decided warn fuel sig_type msg t true found leaves = rw found (refl, refl)
  decided warn fuel sig_type msg t false found leaves = rw found (leaves, refl)

  -- With the catch-all handler at the bottom of the handlers, and more fuel than unwind actions: if
  -- a handler was pushed for this very type, the assertion returns and the other one prints no
  -- warning; else the assertion does not return, and the other one prints its warning and returns.
  -- A handler for all signals does not count for another type.
  pub sig_assert_handler-sig_assertwarn_handler :
      (warn : SigType → W → W) (fuel : ℕ) (sig_type : SigType) (msg : ℕ) (t : Thread W)
      (md : Model W) (hs : List HandlerEntry)
      → md.handlers ≡ hs ++ catchall_entry ∷ []
      → Models t md
      → length md.actions < fuel
      → Asserts warn sig_type t
          (pushed_for sig_type md.handlers)
          (sig_assert_handler prog fuel sig_type msg t)
          (sig_assertwarn_handler warn sig_type t)
  sig_assert_handler-sig_assertwarn_handler warn fuel sig_type msg t md hs lists s enough =
      decided warn fuel sig_type msg t (pushed_for sig_type md.handlers)
        (handler_exists-any t.handlers sig_type s.handlers)
        (sig_send-Leaves prog fuel _ t md hs lists s enough)
