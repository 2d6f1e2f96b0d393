-- ===== src/Sigwrap/Socket.antt =====
-- src/libevsig/sigwrap_socket.c
use libevsig.Base.{ℕ, List, Result}
use libevsig.Thread.{Thread, Program}
use libevsig.Sigwrap.Names.{sys_socket, sys_setsockopt, sys_bind, sys_listen, sys_connect}
use libevsig.Sigwrap.Ops.{System, Wrapped, checked, minus_one_int, errno_value}

module _ {W : Type 0} (prog : Program W) (sys : System W) (fuel : ℕ) where
  unfoldable pub sw_socket : List ℕ → Thread W → Result (Wrapped W)
  unfolding checked
  sw_socket args t = checked prog sys fuel sys_socket minus_one_int errno_value args t

  unfoldable pub sw_setsockopt : List ℕ → Thread W → Result (Wrapped W)
  unfolding checked
  sw_setsockopt args t = checked prog sys fuel sys_setsockopt minus_one_int errno_value args t

  unfoldable pub sw_bind : List ℕ → Thread W → Result (Wrapped W)
  unfolding checked
  sw_bind args t = checked prog sys fuel sys_bind minus_one_int errno_value args t

  unfoldable pub sw_listen : List ℕ → Thread W → Result (Wrapped W)
  unfolding checked
  sw_listen args t = checked prog sys fuel sys_listen minus_one_int errno_value args t

  unfoldable pub sw_connect : List ℕ → Thread W → Result (Wrapped W)
  unfolding checked
  sw_connect args t = checked prog sys fuel sys_connect minus_one_int errno_value args t
