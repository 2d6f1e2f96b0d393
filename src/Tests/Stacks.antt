-- ===== src/Tests/Stacks.antt =====
-- The laws of the handler stack and the restart stack, on two entries.
use libevsig.Base.{
  ◌>>=◌, ℕ, ◌≡◌, ◌≢◌, refl, ap, List, Bool, true, false, [], ◌∷◌, arith, ok, exit, any, some,
}
use libevsig.Memory.{cells}
use libevsig.Vector.{Vector, Holds, Yields, push_back, push_back-exit}
use libevsig.Signals.{
  sig_push_handler, sig_push_handler-Holds, sig_rm_handler, sig_rm_handler-Holds, sig_push_restart,
  sig_rm_restart-sig_push_restart, sig_push_restart-Holds, sig_rm_restart, sig_rm_restart-Holds,
  handler_exists, handler_exists-any, sig_restart_available, sig_restart_available-any,
}
use libevsig.Signals.Ids.{
  sig_push_handler-IsDescending, sig_rm_handler-IsDescending, IsDescending, HasIds, has_id,
}
use libevsig.Signals.History.{StackCall, pushes, removes, all_made, Ordered, all_made-Ordered}
use libevsig.Signals.Names.{signal_all, signal_fail, signal_read_error}
use libevsig.Thread.{SigHandler, null_handler, user_handler, HandlerEntry, RestartEntry}
use libevsig.Tests.Vectors.{
  one, two, one-Holds, two-Holds, catching, answering, restarting, outer_point,
}

abbrev is_null : SigHandler → Bool
is_null null_handler = true
is_null _ = false

user-ne-null : user_handler 7 ≢ null_handler
user-ne-null e = ground (arith, ap is_null e)

abbrev third : ℕ → HandlerEntry
third id = record {
  sig_type = signal_read_error;
  handler = user_handler 7;
  handler_userdata = 9;
  id = id;
}

abbrev second_restart : RestartEntry
second_restart = record { sig_type = signal_all; restart_type = 1001; p = outer_point; id = 1 }

descending : IsDescending (answering ∷ catching ∷ [])
descending = (omega arith, omega arith, (omega arith, tt), (omega arith, omega arith, tt, tt))

spare : HasIds (answering ∷ catching ∷ [])
spare = omega arith

sig_push_handler-Holds_example :
    Yields
      (sig_push_handler true (two answering catching) signal_read_error (user_handler 7) 9)
      (λ r. (r.0 ≡ 3) × Holds r.1 (third 3 ∷ answering ∷ catching ∷ []))
sig_push_handler-Holds_example =
    sig_push_handler-Holds (two answering catching) signal_read_error (user_handler 7) 9
      user-ne-null (two-Holds answering catching)

sig_rm_handler-Holds_example :
    Yields (sig_rm_handler (two answering catching) 1) (λ w. Holds w (answering ∷ []))
sig_rm_handler-Holds_example =
    sig_rm_handler-Holds (two answering catching) 1 (two-Holds answering catching)

pushes_second :
    Yields
      (sig_push_restart true (one restarting) signal_all 1001 outer_point)
      (λ r. (r.0 ≡ 1) × Holds r.1 (second_restart ∷ restarting ∷ []))
pushes_second =
    sig_push_restart-Holds (one restarting) signal_all 1001 outer_point (one-Holds restarting)

drops_first :
    Yields (sig_rm_restart (two second_restart restarting) 0) (λ w. Holds w (second_restart ∷ []))
drops_first =
    sig_rm_restart-Holds (two second_restart restarting) 0 (two-Holds second_restart restarting)

sig_rm_restart-sig_push_restart_example :
    Yields
      (sig_push_restart true (one restarting) signal_all 1001 outer_point >>= λ r.
        sig_rm_restart r.1 r.0)
      (λ w. Holds w (restarting ∷ []))
sig_rm_restart-sig_push_restart_example =
    sig_rm_restart-sig_push_restart (one restarting) signal_all 1001 outer_point
      (one-Holds restarting)

answering_found : handler_exists (two answering catching) signal_fail ≡ ok true
answering_found =
    handler_exists-any (two answering catching) signal_fail (two-Holds answering catching)

sig_restart_available-any_example :
    sig_restart_available (two second_restart restarting) signal_fail 1001 ≡ ok false
sig_restart_available-any_example =
    sig_restart_available-any (two second_restart restarting) signal_fail 1001
      (two-Holds second_restart restarting)

third_pushed :
    Yields
      (sig_push_handler true (two answering catching) signal_read_error (user_handler 7) 9)
      (λ r.
        Holds r.1 (third r.0 ∷ answering ∷ catching ∷ [])
        × IsDescending (third r.0 ∷ answering ∷ catching ∷ []))
third_pushed =
    sig_push_handler-IsDescending (two answering catching) signal_read_error (user_handler 7) 9
      (answering ∷ catching ∷ []) user-ne-null (two-Holds answering catching) descending spare

first_removed : Yields (sig_rm_handler (two answering catching) 2) (λ w.
    Holds w (catching ∷ [])
    × IsDescending (catching ∷ [])
    × (any (has_id 2) (catching ∷ []) ≡ false))
first_removed =
    sig_rm_handler-IsDescending (two answering catching) 2 (answering ∷ catching ∷ []) (omega arith)
      (two-Holds answering catching) descending

abbrev full : Vector ℕ
full = record { block = cells (some 4 ∷ []); alloc = 1; fill = 1 }

full-Holds : Holds full (4 ∷ [])
full-Holds = record {
  contents = some 4 ∷ [];
  is_block = refl;
  sized = refl;
  filled = refl;
  has_room = omega arith;
  stored = (refl, tt);
}

push_back-exit_example : push_back false full 9 ≡ exit 1
push_back-exit_example = push_back-exit full 9 full-Holds refl

-- A push over an entry, its removal, and the removal of an id that is not there.
abbrev calls : List StackCall
calls =
    pushes signal_read_error (user_handler 7) 9
    ∷ removes 2
    ∷ removes 40
    ∷ pushes 5 null_handler 0
    ∷ []

all_made-Ordered_example : Yields (all_made calls (two answering catching)) (Ordered 7)
all_made-Ordered_example =
    all_made-Ordered calls 3 (two answering catching) (omega arith) (omega arith) (record {
      entries = answering ∷ catching ∷ [];
      holds = two-Holds answering catching;
      descending = descending;
      below = (omega arith, (omega arith, tt));
    })
