-- ===== src/Tests/Threads.antt =====
-- Whole threads: the demonstration program, with and without its handler, and code that recovers.
use libevsig.Base.{ℕ, ◌+◌, ◌≡◌, refl, inr, [], ◌∷◌, false, arith}
use libevsig.Vector.{any_from}
use libevsig.Shutdown.{insert_thread, insert_into, start_thread, drop_from}
use libevsig.Shutdown.Threads.{WaitsFor, without_thread}
use libevsig.Thread.{user_handler, sig_static_handler}
use libevsig.Signals.Names.{signal_fail}
use libevsig.Send.Setup.{catchall_entry}
use libevsig.Script.{
  exec, Code, done, work, send, assert_handler, if_available, action, handler, provide,
}
use libevsig.Script.Finish.{IsOver, run_thread-IsOver}
use libevsig.Script.Whole.{run_thread, Clean, run_thread-Clean}
use libevsig.Script.Frames.{Sound}
use libevsig.Script.Sound.{exec-Sound}
use libevsig.Script.Fits.{Fits}
use libevsig.Demo.{main_func, something_bad}
use libevsig.Tests.Scoped.{outside, outside_model, outside-Models}
use libevsig.Tests.{counting, new_thread, worlds}

abbrev add : ℕ → ℕ → ℕ
add k w = k + w

-- As it stands in the repository the demonstration runs into the freed stacks.
demo_faults : worlds (run_thread counting add 100 10 false main_func new_thread) ≡ 500
unfolding run_thread any_from insert_thread insert_into start_thread drop_from
demo_faults = refl

-- With the handler of the README it exits in the restart of `main`.
demo_exits :
    worlds (
      run_thread counting add 100 10 false
        (handler signal_fail (user_handler 0) 0 main_func)
        new_thread)
    ≡ 401
unfolding run_thread any_from insert_thread insert_into start_thread drop_from
demo_exits = refl

-- A restart that is provided for one call, selected by a static handler; the unwind action adds one
-- and the restart a hundred.
abbrev recovering : Code
recovering = handler signal_fail sig_static_handler 1000 (
    assert_handler signal_fail 3 (
      provide signal_fail
        (action 5 0 (if_available signal_fail 1000 (send something_bad done) done done)) 1000
        (work 100 done) (work 1000 done)))

recovers : worlds (run_thread counting add 100 10 false recovering new_thread) ≡ 1201
unfolding run_thread any_from insert_thread insert_into start_thread drop_from
recovers = refl

fits : Fits counting 0 (catchall_entry ∷ []) recovering
fits = (refl, ((((λ w. tt), tt), tt, tt), tt, tt))

waiting : WaitsFor new_thread.global []
waiting = record { unlocked = refl; listed = inr (refl, refl) }

run_thread-Clean_example :
    Clean counting add 100 10
      (without_thread 7 [])
      (run_thread counting add 100 10 false recovering new_thread)
run_thread-Clean_example =
    run_thread-Clean counting add 99 10 (λ k u w. refl) false recovering new_thread [] refl waiting
      fits (omega arith) (omega arith)

run_thread-IsOver_example : IsOver (run_thread counting add 100 10 false recovering new_thread)
run_thread-IsOver_example =
    run_thread-IsOver counting add 99 8 (λ k u w. refl) false recovering new_thread [] refl waiting
      (((refl, tt), tt, tt), tt, tt) fits (omega arith) (omega arith)

-- The same code in a thread that is set up already.
exec-Sound_example :
    Sound counting [] outside_model (exec counting add 100 10 [] recovering outside)
exec-Sound_example =
    exec-Sound counting add 100 10 (λ k u w. refl) recovering [] outside_model 0 outside fits
      (record { frames = tt; live = tt; enough = omega arith; ids = omega arith }) outside-Models
