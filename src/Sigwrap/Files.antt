-- ===== src/Sigwrap/Files.antt =====
-- src/libevsig/sigwrap.c, the wrappers that check one result.
use libevsig.Base.{ℕ, List, Result}
use libevsig.Thread.{Thread, Program}
use libevsig.Sigwrap.Names.{
  sys_malloc, sys_realloc, sys_calloc, sys_pwrite, sys_fopen, sys_fclose, sys_fflush, sys_munmap,
  sys_mmap, sys_madvise, sys_msync, sys_fsync, sys_fdatasync, sys_ftruncate, sys_fallocate,
  sys_fstat, sys_printf, sys_fprintf, sys_fcntl3, sys_fcntl2, sys_inet_ntop, sys_read, sys_write,
  sys_getrandom,
}
use libevsig.Sigwrap.Ops.{
  System, Wrapped, checked, map_failed, minus_one_int, minus_one_long, negative_int, nonzero,
  null_pointer, alloc_failed, errno_value, general_failure,
}

module _ {W : Type 0} (prog : Program W) (sys : System W) (fuel : ℕ) where
  unfoldable pub sw_malloc : List ℕ → Thread W → Result (Wrapped W)
  unfolding checked
  sw_malloc args t = checked prog sys fuel sys_malloc null_pointer alloc_failed args t

  unfoldable pub sw_realloc : List ℕ → Thread W → Result (Wrapped W)
  unfolding checked
  sw_realloc args t = checked prog sys fuel sys_realloc null_pointer alloc_failed args t

  unfoldable pub sw_calloc : List ℕ → Thread W → Result (Wrapped W)
  unfolding checked
  sw_calloc args t = checked prog sys fuel sys_calloc null_pointer alloc_failed args t

  unfoldable pub sw_pwrite : List ℕ → Thread W → Result (Wrapped W)
  unfolding checked
  sw_pwrite args t = checked prog sys fuel sys_pwrite minus_one_long errno_value args t

  unfoldable pub sw_fopen : List ℕ → Thread W → Result (Wrapped W)
  unfolding checked
  sw_fopen args t = checked prog sys fuel sys_fopen null_pointer errno_value args t

  unfoldable pub sw_fclose : List ℕ → Thread W → Result (Wrapped W)
  unfolding checked
  sw_fclose args t = checked prog sys fuel sys_fclose nonzero errno_value args t

  unfoldable pub sw_fflush : List ℕ → Thread W → Result (Wrapped W)
  unfolding checked
  sw_fflush args t = checked prog sys fuel sys_fflush nonzero errno_value args t

  unfoldable pub sw_munmap : List ℕ → Thread W → Result (Wrapped W)
  unfolding checked
  sw_munmap args t = checked prog sys fuel sys_munmap nonzero errno_value args t

  unfoldable pub sw_mmap : List ℕ → Thread W → Result (Wrapped W)
  unfolding checked
  sw_mmap args t = checked prog sys fuel sys_mmap map_failed errno_value args t

  unfoldable pub sw_madvise : List ℕ → Thread W → Result (Wrapped W)
  unfolding checked
  sw_madvise args t = checked prog sys fuel sys_madvise minus_one_int errno_value args t

  unfoldable pub sw_msync : List ℕ → Thread W → Result (Wrapped W)
  unfolding checked
  sw_msync args t = checked prog sys fuel sys_msync nonzero errno_value args t

  unfoldable pub sw_fsync : List ℕ → Thread W → Result (Wrapped W)
  unfolding checked
  sw_fsync args t = checked prog sys fuel sys_fsync nonzero errno_value args t

  unfoldable pub sw_fdatasync : List ℕ → Thread W → Result (Wrapped W)
  unfolding checked
  sw_fdatasync args t = checked prog sys fuel sys_fdatasync nonzero errno_value args t

  unfoldable pub sw_ftruncate : List ℕ → Thread W → Result (Wrapped W)
  unfolding checked
  sw_ftruncate args t = checked prog sys fuel sys_ftruncate minus_one_int errno_value args t

  unfoldable pub sw_fallocate : List ℕ → Thread W → Result (Wrapped W)
  unfolding checked
  sw_fallocate args t = checked prog sys fuel sys_fallocate minus_one_int errno_value args t

  unfoldable pub sw_fstat : List ℕ → Thread W → Result (Wrapped W)
  unfolding checked
  sw_fstat args t = checked prog sys fuel sys_fstat minus_one_int errno_value args t

  unfoldable pub sw_printf : List ℕ → Thread W → Result (Wrapped W)
  unfolding checked
  sw_printf args t = checked prog sys fuel sys_printf negative_int general_failure args t

  unfoldable pub sw_fprintf : List ℕ → Thread W → Result (Wrapped W)
  unfolding checked
  sw_fprintf args t = checked prog sys fuel sys_fprintf negative_int general_failure args t

  unfoldable pub sw_fcntl3 : List ℕ → Thread W → Result (Wrapped W)
  unfolding checked
  sw_fcntl3 args t = checked prog sys fuel sys_fcntl3 minus_one_int errno_value args t

  unfoldable pub sw_fcntl2 : List ℕ → Thread W → Result (Wrapped W)
  unfolding checked
  sw_fcntl2 args t = checked prog sys fuel sys_fcntl2 minus_one_int errno_value args t

  unfoldable pub sw_inet_ntop : List ℕ → Thread W → Result (Wrapped W)
  unfolding checked
  sw_inet_ntop args t = checked prog sys fuel sys_inet_ntop null_pointer errno_value args t

  unfoldable pub sw_read : List ℕ → Thread W → Result (Wrapped W)
  unfolding checked
  sw_read args t = checked prog sys fuel sys_read minus_one_long errno_value args t

  unfoldable pub sw_write : List ℕ → Thread W → Result (Wrapped W)
  unfolding checked
  sw_write args t = checked prog sys fuel sys_write minus_one_long errno_value args t

  unfoldable pub sw_getrandom : List ℕ → Thread W → Result (Wrapped W)
  unfolding checked
  sw_getrandom args t = checked prog sys fuel sys_getrandom minus_one_long errno_value args t
