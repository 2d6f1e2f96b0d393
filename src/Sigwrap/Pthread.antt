-- ===== src/Sigwrap/Pthread.antt =====
-- src/libevsig/sigwrap_pthread.c
use libevsig.Base.{ℕ, List, Result}
use libevsig.Thread.{Thread, Program}
use libevsig.Sigwrap.Names.{sys_pthread_create, sys_pthread_join, sys_pthread_cancel}
use libevsig.Sigwrap.Ops.{System, Wrapped, checked, nonzero, returned_value}

module _ {W : Type 0} (prog : Program W) (sys : System W) (fuel : ℕ) where
  unfoldable pub sw_pthread_create : List ℕ → Thread W → Result (Wrapped W)
  unfolding checked
  sw_pthread_create args t = checked prog sys fuel sys_pthread_create nonzero returned_value args t

  unfoldable pub sw_pthread_join : List ℕ → Thread W → Result (Wrapped W)
  unfolding checked
  sw_pthread_join args t = checked prog sys fuel sys_pthread_join nonzero returned_value args t

  unfoldable pub sw_pthread_cancel : List ℕ → Thread W → Result (Wrapped W)
  unfolding checked
  sw_pthread_cancel args t = checked prog sys fuel sys_pthread_cancel nonzero returned_value args t
