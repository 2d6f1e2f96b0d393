-- ===== src/Shutdown/Parallel/Flag.antt =====
-- What is done behind the mutex neither reads nor writes the flag `shutdown`.
use libevsig.Base.{
  ℕ, zero, suc, true, ap, ◌≡◌, refl, Bool, Bool-cases, inl, inr, Result, ok, exit, fault, hang,
  ◌>>=◌, succeeded, sym, ltb, arith,
}
use libevsig.Vector.{ok-injective}
use libevsig.Shutdown.Ops.{Signal, start_thread}
use libevsig.Shutdown.Parallel.Sections.{
  Section, searching, growing_threads, inserting_thread, starting, shifting_threads,
  growing_callbacks, inserting_callback, shifting_callbacks, asking, letting_go, notifying,
  checking, unlocking, Next, goes_on, leaves, perform, complete,
}

abbrev pub flagged : Bool → Signal → Signal
flagged x s = record s { shutdown = x }

abbrev also : Bool → Result (Next × Signal) → Result (Next × Signal)
also x r = r >>= λ a. ok (a.0, flagged x a.1)

bound :
    {A : Type 0} (x : Bool) (r : Result A) (k : A → Next × Signal)
    → (r >>= λ a. ok ((k a).0, flagged x (k a).1)) ≡ also x (r >>= λ a. ok (k a))
bound x (ok a) k = refl
bound x (exit n) k = refl
bound x fault k = refl
bound x hang k = refl

perform-flagged :
    (x room : Bool) (section : Section) (s : Signal)
    → perform room section (flagged x s) ≡ also x (perform room section s)
unfolding perform start_thread
perform-flagged x room (searching t i) s = elim (Bool-cases (ltb i s.threadlist.fill)) [
  | inl more ↦ rw more (bound x _ _)
  | inr all_seen ↦ rw all_seen refl
]
perform-flagged x room (growing_threads t g) s = bound x _ _
perform-flagged x room (inserting_thread t) s = bound x _ _
perform-flagged x room starting s = ground arith
perform-flagged x room (shifting_threads t d) s = bound x _ _
perform-flagged x room (growing_callbacks cb ud g) s = bound x _ _
perform-flagged x room (inserting_callback cb ud) s = bound x _ _
perform-flagged x room (shifting_callbacks id d) s = bound x _ _
perform-flagged x room (asking exit_process) s = refl
perform-flagged x room letting_go s = refl
perform-flagged x room (notifying i) s = elim (Bool-cases (ltb i s.callbacks.fill)) [
  | inl more ↦ rw more (bound x _ _)
  | inr all_called ↦ rw all_called refl
]
perform-flagged x room checking s = refl
perform-flagged x room (unlocking a) s = refl

rest_of : ℕ → Next × Signal → Result Signal
rest_of n (next, s') = elim next [ goes_on rest ↦ complete n rest s' | leaves a ↦ ok s' ]

onwards :
    (x : Bool) (n : ℕ) (r : Next × Signal) (after : Signal)
    → ((section : Section) (s : Signal)
        → complete n section s ≡ ok after
        → complete n section (flagged x s) ≡ ok (flagged x after))
    → rest_of n r ≡ ok after
    → rest_of n (r.0, flagged x r.1) ≡ ok (flagged x after)
unfolding rest_of
onwards x n (goes_on rest, s) after below left = below rest s left
onwards x n (leaves a, s) after below left = ap (λ u. ok (flagged x u)) (ok-injective left)

pub complete-flagged :
    (x : Bool) (n : ℕ) (section : Section) (s after : Signal)
    → complete n section s ≡ ok after
    → complete n section (flagged x s) ≡ ok (flagged x after)
unfolding complete rest_of
complete-flagged x zero section s after done = cc
complete-flagged x (suc n) section s after done =
    let (r, (first, rest)) = succeeded (rest_of n) (perform true section s) (sym done) in
    rw (perform-flagged x true section s, first)
      (onwards x n r after (λ section' s' d. complete-flagged x n section' s' after d) rest)
