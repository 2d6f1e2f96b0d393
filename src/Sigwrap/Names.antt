-- ===== src/Sigwrap/Names.antt =====
-- The functions that the wrappers call.
pub data Function : Type 0 where
  sys_malloc sys_realloc sys_calloc sys_fread sys_fwrite sys_pwrite sys_fopen sys_fclose sys_fflush
        sys_munmap sys_mmap sys_madvise sys_msync sys_fsync sys_fdatasync sys_fseek sys_ftruncate
        sys_fallocate sys_fstat sys_printf sys_fprintf sys_fcntl3 sys_fcntl2 sys_inet_ntop sys_read
        sys_write sys_getrandom sys_epoll_create1 sys_epoll_ctl sys_epoll_wait sys_pthread_create
        sys_pthread_join sys_pthread_cancel sys_socket sys_setsockopt sys_bind sys_listen
        sys_connect :
      Function
