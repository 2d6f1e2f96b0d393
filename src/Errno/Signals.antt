-- ===== src/Errno/Signals.antt =====
-- The signal types of src/libevsig/errno_signals.c, as addresses from 64 on.
use libevsig.Thread.{SigType}
use libevsig.Errno.Names.{
  Errno, e2big, eacces, eaddrinuse, eaddrnotavail, eadv, eafnosupport, eagain, ealready, ebade,
  ebadf, ebadfd, ebadmsg, ebadr, ebadrqc, ebadslt, ebfont, ebusy, ecanceled, echild, echrng, ecomm,
  econnaborted, econnrefused, econnreset, edeadlk, edeadlock, edestaddrreq, edom, edotdot, edquot,
  eexist, efault, efbig, ehostdown, ehostunreach, ehwpoison, eidrm, eilseq, einprogress, eintr,
  einval, eio, eisconn, eisdir, eisnam, ekeyexpired, ekeyrejected, ekeyrevoked, el2hlt, el2nsync,
  el3hlt, el3rst, elibacc, elibbad, elibexec, elibmax, elibscn, elnrng, eloop, emediumtype, emfile,
  emlink, emsgsize, emultihop, enametoolong, enavail, enetdown, enetreset, enetunreach, enfile,
  enoano, enobufs, enocsi, enodata, enodev, enoent, enoexec, enokey, enolck, enolink, enomedium,
  enomem, enomsg, enonet, enopkg, enoprotoopt, enospc, enosr, enostr, enosys, enotblk, enotconn,
  enotdir, enotempty, enotnam, enotrecoverable, enotsock, enotsup, enotty, enotuniq, enxio, eof,
  eopnotsupp, eoverflow, eownerdead, eperm, epfnosupport, epipe, eproto, eprotonosupport,
  eprototype, erange, eremchg, eremote, eremoteio, erestart, erfkill, erofs, eshutdown,
  esocktnosupport, espipe, esrch, esrmnt, estale, estrpipe, etime, etimedout, etoomanyrefs, etxtbsy,
  euclean, eunatch, eusers, ewouldblock, exdev, exfull,
}

unfoldable pub signal_of : Errno → SigType
signal_of e2big = 64
signal_of eacces = 65
signal_of eaddrinuse = 66
signal_of eaddrnotavail = 67
signal_of eadv = 68
signal_of eafnosupport = 69
signal_of eagain = 70
signal_of ealready = 71
signal_of ebade = 72
signal_of ebadf = 73
signal_of ebadfd = 74
signal_of ebadmsg = 75
signal_of ebadr = 76
signal_of ebadrqc = 77
signal_of ebadslt = 78
signal_of ebfont = 79
signal_of ebusy = 80
signal_of ecanceled = 81
signal_of echild = 82
signal_of echrng = 83
signal_of ecomm = 84
signal_of econnaborted = 85
signal_of econnrefused = 86
signal_of econnreset = 87
signal_of edeadlk = 88
signal_of edeadlock = 89
signal_of edestaddrreq = 90
signal_of edom = 91
signal_of edotdot = 92
signal_of edquot = 93
signal_of eexist = 94
signal_of efault = 95
signal_of efbig = 96
signal_of ehostdown = 97
signal_of ehostunreach = 98
signal_of ehwpoison = 99
signal_of eidrm = 100
signal_of eilseq = 101
signal_of einprogress = 102
signal_of eintr = 103
signal_of einval = 104
signal_of eio = 105
signal_of eisconn = 106
signal_of eisdir = 107
signal_of eisnam = 108
signal_of ekeyexpired = 109
signal_of ekeyrejected = 110
signal_of ekeyrevoked = 111
signal_of el2hlt = 112
signal_of el2nsync = 113
signal_of el3hlt = 114
signal_of el3rst = 115
signal_of elibacc = 116
signal_of elibbad = 117
signal_of elibexec = 118
signal_of elibmax = 119
signal_of elibscn = 120
signal_of elnrng = 121
signal_of eloop = 122
signal_of emediumtype = 123
signal_of emfile = 124
signal_of emlink = 125
signal_of emsgsize = 126
signal_of emultihop = 127
signal_of enametoolong = 128
signal_of enavail = 129
signal_of enetdown = 130
signal_of enetreset = 131
signal_of enetunreach = 132
signal_of enfile = 133
signal_of enoano = 134
signal_of enobufs = 135
signal_of enocsi = 136
signal_of enodata = 137
signal_of enodev = 138
signal_of enoent = 139
signal_of enoexec = 140
signal_of enokey = 141
signal_of enolck = 142
signal_of enolink = 143
signal_of enomedium = 144
signal_of enomem = 145
signal_of enomsg = 146
signal_of enonet = 147
signal_of enopkg = 148
signal_of enoprotoopt = 149
signal_of enospc = 150
signal_of enosr = 151
signal_of enostr = 152
signal_of enosys = 153
signal_of enotblk = 154
signal_of enotconn = 155
signal_of enotdir = 156
signal_of enotempty = 157
signal_of enotnam = 158
signal_of enotrecoverable = 159
signal_of enotsock = 160
signal_of enotsup = 161
signal_of enotty = 162
signal_of enotuniq = 163
signal_of enxio = 164
signal_of eof = 165
signal_of eopnotsupp = 166
signal_of eoverflow = 167
signal_of eownerdead = 168
signal_of eperm = 169
signal_of epfnosupport = 170
signal_of epipe = 171
signal_of eproto = 172
signal_of eprotonosupport = 173
signal_of eprototype = 174
signal_of erange = 175
signal_of eremchg = 176
signal_of eremote = 177
signal_of eremoteio = 178
signal_of erestart = 179
signal_of erfkill = 180
signal_of erofs = 181
signal_of eshutdown = 182
signal_of esocktnosupport = 183
signal_of espipe = 184
signal_of esrch = 185
signal_of esrmnt = 186
signal_of estale = 187
signal_of estrpipe = 188
signal_of etime = 189
signal_of etimedout = 190
signal_of etoomanyrefs = 191
signal_of etxtbsy = 192
signal_of euclean = 193
signal_of eunatch = 194
signal_of eusers = 195
signal_of ewouldblock = 196
signal_of exdev = 197
signal_of exfull = 198
