-- ===== src/Sigwrap/Epoll.antt =====
-- src/libevsig/sigwrap_epoll.c
use libevsig.Base.{ℕ, List, Result}
use libevsig.Thread.{Thread, Program}
use libevsig.Sigwrap.Names.{sys_epoll_create1, sys_epoll_ctl, sys_epoll_wait}
use libevsig.Sigwrap.Ops.{System, Wrapped, checked, minus_one_int, errno_value}

module _ {W : Type 0} (prog : Program W) (sys : System W) (fuel : ℕ) where
  unfoldable pub sw_epoll_create1 : List ℕ → Thread W → Result (Wrapped W)
  unfolding checked
  sw_epoll_create1 args t = checked prog sys fuel sys_epoll_create1 minus_one_int errno_value args t

  unfoldable pub sw_epoll_ctl : List ℕ → Thread W → Result (Wrapped W)
  unfolding checked
  sw_epoll_ctl args t = checked prog sys fuel sys_epoll_ctl minus_one_int errno_value args t

  unfoldable pub sw_epoll_wait : List ℕ → Thread W → Result (Wrapped W)
  unfolding checked
  sw_epoll_wait args t = checked prog sys fuel sys_epoll_wait minus_one_int errno_value args t
