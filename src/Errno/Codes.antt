-- ===== src/Errno/Codes.antt =====
-- The values of the macros, as include/libevsig/errno_signals.h lists them, in 32 bits.
use libevsig.Base.{ℕ, ◌-◌, ◌^◌}
use libevsig.Errno.Names.{
  Errno, e2big, eacces, eaddrinuse, eaddrnotavail, eadv, eafnosupport, eagain, ealready, ebade,
  ebadf, ebadfd, ebadmsg, ebadr, ebadrqc, ebadslt, ebfont, ebusy, ecanceled, echild, echrng, ecomm,
  econnaborted, econnrefused, econnreset, edeadlk, edeadlock, edestaddrreq, edom, edotdot, edquot,
  eexist, efault, efbig, ehostdown, ehostunreach, ehwpoison, eidrm, eilseq, einprogress, eintr,
  einval, eio, eisconn, eisdir, eisnam, ekeyexpired, ekeyrejected, ekeyrevoked, el2hlt, el2nsync,
  el3hlt, el3rst, elibacc, elibbad, elibexec, elibmax, elibscn, elnrng, eloop, emediumtype, emfile,
  emlink, emsgsize, emultihop, enametoolong, enavail, enetdown, enetreset, enetunreach, enfile,
  enoano, enobufs, enocsi, enodata, enodev, enoent, enoexec, enokey, enolck, enolink, enomedium,
  enomem, enomsg, enonet, enopkg, enoprotoopt, enospc, enosr, enostr, enosys, enotblk, enotconn,
  enotdir, enotempty, enotnam, enotrecoverable, enotsock, enotsup, enotty, enotuniq, enxio, eof,
  eopnotsupp, eoverflow, eownerdead, eperm, epfnosupport, epipe, eproto, eprotonosupport,
  eprototype, erange, eremchg, eremote, eremoteio, erestart, erfkill, erofs, eshutdown,
  esocktnosupport, espipe, esrch, esrmnt, estale, estrpipe, etime, etimedout, etoomanyrefs, etxtbsy,
  euclean, eunatch, eusers, ewouldblock, exdev, exfull,
}

unfoldable pub code : Errno → ℕ
code e2big = 7
code eacces = 13
code eaddrinuse = 98
code eaddrnotavail = 99
code eadv = 68
code eafnosupport = 97
code eagain = 11
code ealready = 114
code ebade = 52
code ebadf = 9
code ebadfd = 77
code ebadmsg = 74
code ebadr = 53
code ebadrqc = 56
code ebadslt = 57
code ebfont = 59
code ebusy = 16
code ecanceled = 125
code echild = 10
code echrng = 44
code ecomm = 70
code econnaborted = 103
code econnrefused = 111
code econnreset = 104
code edeadlk = 35
code edeadlock = 35
code edestaddrreq = 89
code edom = 33
code edotdot = 73
code edquot = 122
code eexist = 17
code efault = 14
code efbig = 27
code ehostdown = 112
code ehostunreach = 113
code ehwpoison = 133
code eidrm = 43
code eilseq = 84
code einprogress = 115
code eintr = 4
code einval = 22
code eio = 5
code eisconn = 106
code eisdir = 21
code eisnam = 120
code ekeyexpired = 127
code ekeyrejected = 129
code ekeyrevoked = 128
code el2hlt = 51
code el2nsync = 45
code el3hlt = 46
code el3rst = 47
code elibacc = 79
code elibbad = 80
code elibexec = 83
code elibmax = 82
code elibscn = 81
code elnrng = 48
code eloop = 40
code emediumtype = 124
code emfile = 24
code emlink = 31
code emsgsize = 90
code emultihop = 72
code enametoolong = 36
code enavail = 119
code enetdown = 100
code enetreset = 102
code enetunreach = 101
code enfile = 23
code enoano = 55
code enobufs = 105
code enocsi = 50
code enodata = 61
code enodev = 19
code enoent = 2
code enoexec = 8
code enokey = 126
code enolck = 37
code enolink = 67
code enomedium = 123
code enomem = 12
code enomsg = 42
code enonet = 64
code enopkg = 65
code enoprotoopt = 92
code enospc = 28
code enosr = 63
code enostr = 60
code enosys = 38
code enotblk = 15
code enotconn = 107
code enotdir = 20
code enotempty = 39
code enotnam = 118
code enotrecoverable = 131
code enotsock = 88
code enotsup = 95
code enotty = 25
code enotuniq = 76
code enxio = 6
code eof = 2 ^ 32 - 1
code eopnotsupp = 95
code eoverflow = 75
code eownerdead = 130
code eperm = 1
code epfnosupport = 96
code epipe = 32
code eproto = 71
code eprotonosupport = 93
code eprototype = 91
code erange = 34
code eremchg = 78
code eremote = 66
code eremoteio = 121
code erestart = 85
code erfkill = 132
code erofs = 30
code eshutdown = 108
code esocktnosupport = 94
code espipe = 29
code esrch = 3
code esrmnt = 69
code estale = 116
code estrpipe = 86
code etime = 62
code etimedout = 110
code etoomanyrefs = 109
code etxtbsy = 26
code euclean = 117
code eunatch = 49
code eusers = 87
code ewouldblock = 11
code exdev = 18
code exfull = 54
