-- ===== src/Errno/Names.antt =====
-- The error numbers for which src/libevsig/errno_signals.c defines a signal type.
pub data Errno : Type 0 where
  e2big eacces eaddrinuse eaddrnotavail eadv eafnosupport eagain ealready ebade : Errno
  ebadf ebadfd ebadmsg ebadr ebadrqc ebadslt ebfont ebusy ecanceled echild echrng : Errno
  ecomm econnaborted econnrefused econnreset edeadlk edeadlock edestaddrreq edom : Errno
  edotdot edquot eexist efault efbig ehostdown ehostunreach ehwpoison eidrm eilseq : Errno
  einprogress eintr einval eio eisconn eisdir eisnam ekeyexpired ekeyrejected : Errno
  ekeyrevoked el2hlt el2nsync el3hlt el3rst elibacc elibbad elibexec elibmax elibscn : Errno
  elnrng eloop emediumtype emfile emlink emsgsize emultihop enametoolong enavail : Errno
  enetdown enetreset enetunreach enfile enoano enobufs enocsi enodata enodev enoent : Errno
  enoexec enokey enolck enolink enomedium enomem enomsg enonet enopkg enoprotoopt : Errno
  enospc enosr enostr enosys enotblk enotconn enotdir enotempty enotnam : Errno
  enotrecoverable enotsock enotsup enotty enotuniq enxio eof eopnotsupp eoverflow : Errno
  eownerdead eperm epfnosupport epipe eproto eprotonosupport eprototype erange : Errno
  eremchg eremote eremoteio erestart erfkill erofs eshutdown esocktnosupport espipe : Errno
  esrch esrmnt estale estrpipe etime etimedout etoomanyrefs etxtbsy euclean eunatch : Errno
  eusers ewouldblock exdev exfull : Errno
