-- ===== src/Tests/Parallel.antt =====
-- Threads whose calls of one shutdown signal interleave.
use libevsig.Base.{
  ℕ, ◌≡◌, refl, inr, true, false, List, [], ◌∷◌, Result, ok, exit, fault, hang, ◌++◌, replicate,
}
use libevsig.Shutdown.{Signal, init}
use libevsig.Shutdown.Parallel.{
  Call, registers, adds, calls, sends, System, Event, advance, run, start,
}
use libevsig.Shutdown.Parallel.Contract.{Board, Shows, effects}
use libevsig.Shutdown.Parallel.Progress.{own_step, run-progresses}
use libevsig.Vector.{Yields}
use libevsig.Shutdown.Parallel.Serial.{KeepsAllLists}
use libevsig.Tests.Vectors.{two}
use libevsig.Tests.Lists.{newer, older}

abbrev step : ℕ → Call → Event
step t c = record { thread = t; wish = calls c; granted = true }

-- Thread 1 registers the thread 7 while thread 2 adds a callback: both ask for the mutex, thread 2 is the
-- first to have it, and thread 1 gets it when thread 2 is out again.
abbrev crossing : List Event
crossing =
    step 1 (registers 7)
      ∷ step 2 (adds 20 30)
      ∷ step 2 (adds 20 30)
      ∷ step 1 (registers 7)
      ∷ replicate 3 (step 2 (adds 20 30))
    ++ step 1 (registers 7) ∷ replicate 2 (step 2 (adds 20 30))
    ++ replicate 6 (step 1 (registers 7))

abbrev empty_board : Board
empty_board = record { threads = []; callbacks = []; last_id = 0; exits = false }

init-Shows : Shows init empty_board
init-Shows = record {
  unlocked = refl;
  threads = inr (refl, refl);
  callbacks = inr (refl, refl);
  last_id = refl;
  exits = refl;
}

abbrev sending : ℕ → Event
sending t = record { thread = t; wish = sends; granted = true }

-- Thread 3 sends the signal before, and finds nobody to wait for; later it sends once more.
abbrev polling : List Event
polling = replicate 16 (sending 3) ++ crossing ++ replicate 2 (sending 3)

polling-KeepsAllLists : KeepsAllLists polling (ok (start init))
unfolding advance
polling-KeepsAllLists = (
  tt,
  (
    tt,
    (
      tt,
      (
        tt,
        (
          tt,
          (
            tt,
            (
              tt,
              (
                tt,
                (
                  tt,
                  (
                    refl,
                    (
                      refl,
                      (
                        refl,
                        (
                          refl,
                          (
                            refl,
                            (
                              refl,
                              (
                                refl,
                                (
                                  tt,
                                  (
                                    tt,
                                    (
                                      tt,
                                      (
                                        tt,
                                        (
                                          tt,
                                          (
                                            tt,
                                            (
                                              tt,
                                              (
                                                tt,
                                                (
                                                  tt,
                                                  (
                                                    tt,
                                                    (
                                                      tt,
                                                      (tt, (tt, (tt, (tt, (tt, (tt, (tt, tt))))))),
                                                    ),
                                                  ),
                                                ),
                                              ),
                                            ),
                                          ),
                                        ),
                                      ),
                                    ),
                                  ),
                                ),
                              ),
                            ),
                          ),
                        ),
                      ),
                    ),
                  ),
                ),
              ),
            ),
          ),
        ),
      ),
    ),
  ),
)

-- The calls that took the mutex, counted, and the entries of the two lists; 1000 for an end by `exit`.
abbrev reading : Result System → List ℕ
reading (ok m) = m.signal.threadlist.fill ∷ m.signal.callbacks.fill ∷ m.signal.master_mutex ∷ []
reading (exit n) = 1000 ∷ n ∷ []
reading fault = 2000 ∷ []
reading hang = 3000 ∷ []

crossed : reading (run crossing (start init)) ≡ 1 ∷ 1 ∷ 1 ∷ []
unfolding run
crossed = refl

polled : reading (run polling (start init)) ≡ 1 ∷ 1 ∷ 1 ∷ []
unfolding run
polled = refl

-- Two callbacks, and no threads to wait for.
abbrev two_callbacks : Signal
two_callbacks = record init { callbacks = two newer older; callbacks_last_insert_id = 2 }

-- The second sender finds the flag set and leaves.
one_after_the_other :
    reading (run (replicate 18 (sending 1) ++ replicate 2 (sending 2)) (start two_callbacks))
    ≡ 0 ∷ 0 ∷ 0 ∷ []
unfolding run
one_after_the_other = refl

-- Both look at the flag before one of them sets it: the second frees the callbacks once more.
both_at_once :
    reading (
      run
        (replicate 2 (sending 1)
          ++ replicate 2 (sending 2)
          ++ replicate 16 (sending 1)
          ++ replicate 8 (sending 2))
        (start two_callbacks))
    ≡ 2000 ∷ []
unfolding run
both_at_once = refl

-- A callback is registered after the send: the array that it goes into is freed.
added_late :
    reading
      (run (replicate 18 (sending 1) ++ replicate 5 (step 2 (adds 20 30))) (start two_callbacks))
    ≡ 2000 ∷ []
unfolding run
added_late = refl

-- A send has done `free(s->threadlist)` with a null pointer when another thread grows the list; the send
-- then stores null, and the insertion goes through it.
lost_list :
    reading (
      run
        (replicate 13 (sending 1)
          ++ replicate 6 (step 2 (registers 7))
          ++ sending 1 ∷ step 2 (registers 7) ∷ [])
        (start init))
    ≡ 2000 ∷ []
unfolding run
lost_list = refl

abbrev state_of : Result System → System
state_of (ok m) = m
state_of _ = start init

-- Thread 1 holds the mutex here.
abbrev midway : System
midway = state_of (run polling (start init))

midway-reached : run polling (start init) ≡ ok midway
unfolding run
midway-reached = refl

run-progresses_example :
    (t : ℕ) × (k : ℕ) × Yields
      (run (replicate k (own_step t)) midway)
      (λ m'. Shows m'.signal (effects midway.log empty_board))
run-progresses_example =
    run-progresses polling init empty_board midway polling-KeepsAllLists init-Shows midway-reached
