-- ===== src/Errno/Labels.antt =====
-- Each error number has a label among the cases of `sig_from_errno`.
use libevsig.Base.{ℕ, ◌≡◌, ◌≢◌, arith, refl, Bool, true, false, List, [], ◌∷◌, ◌==◌, if◌then◌else◌}
use libevsig.Errno.Names.{
  Errno, e2big, eacces, eaddrinuse, eaddrnotavail, eadv, eafnosupport, eagain, ealready, ebade,
  ebadf, ebadfd, ebadmsg, ebadr, ebadrqc, ebadslt, ebfont, ebusy, ecanceled, echild, echrng, ecomm,
  econnaborted, econnrefused, econnreset, edeadlk, edeadlock, edestaddrreq, edom, edotdot, edquot,
  eexist, efault, efbig, ehostdown, ehostunreach, ehwpoison, eidrm, eilseq, einprogress, eintr,
  einval, eio, eisconn, eisdir, eisnam, ekeyexpired, ekeyrejected, ekeyrevoked, el2hlt, el2nsync,
  el3hlt, el3rst, elibacc, elibbad, elibexec, elibmax, elibscn, elnrng, eloop, emediumtype, emfile,
  emlink, emsgsize, emultihop, enametoolong, enavail, enetdown, enetreset, enetunreach, enfile,
  enoano, enobufs, enocsi, enodata, enodev, enoent, enoexec, enokey, enolck, enolink, enomedium,
  enomem, enomsg, enonet, enopkg, enoprotoopt, enospc, enosr, enostr, enosys, enotblk, enotconn,
  enotdir, enotempty, enotnam, enotrecoverable, enotsock, enotsup, enotty, enotuniq, enxio, eof,
  eopnotsupp, eoverflow, eownerdead, eperm, epfnosupport, epipe, eproto, eprotonosupport,
  eprototype, erange, eremchg, eremote, eremoteio, erestart, erfkill, erofs, eshutdown,
  esocktnosupport, espipe, esrch, esrmnt, estale, estrpipe, etime, etimedout, etoomanyrefs, etxtbsy,
  euclean, eunatch, eusers, ewouldblock, exdev, exfull,
}
use libevsig.Errno.Codes.{code}
use libevsig.Errno.Signals.{signal_of}
use libevsig.Errno.Cases.{cases}

abbrev pub has_label : ℕ → List (Errno × Errno) → Bool
has_label n [] = false
has_label n ((label, result) ∷ rest) = if n == code label then true else has_label n rest

pub has_label-code : (e : Errno) → has_label (code e) cases ≡ true
unfolding code
has_label-code e2big = refl
has_label-code eacces = refl
has_label-code eaddrinuse = refl
has_label-code eaddrnotavail = refl
has_label-code eadv = refl
has_label-code eafnosupport = refl
has_label-code eagain = refl
has_label-code ealready = refl
has_label-code ebade = refl
has_label-code ebadf = refl
has_label-code ebadfd = refl
has_label-code ebadmsg = refl
has_label-code ebadr = refl
has_label-code ebadrqc = refl
has_label-code ebadslt = refl
has_label-code ebfont = refl
has_label-code ebusy = refl
has_label-code ecanceled = refl
has_label-code echild = refl
has_label-code echrng = refl
has_label-code ecomm = refl
has_label-code econnaborted = refl
has_label-code econnrefused = refl
has_label-code econnreset = refl
has_label-code edeadlk = refl
has_label-code edeadlock = refl
has_label-code edestaddrreq = refl
has_label-code edom = refl
has_label-code edotdot = refl
has_label-code edquot = refl
has_label-code eexist = refl
has_label-code efault = refl
has_label-code efbig = refl
has_label-code ehostdown = refl
has_label-code ehostunreach = refl
has_label-code ehwpoison = refl
has_label-code eidrm = refl
has_label-code eilseq = refl
has_label-code einprogress = refl
has_label-code eintr = refl
has_label-code einval = refl
has_label-code eio = refl
has_label-code eisconn = refl
has_label-code eisdir = refl
has_label-code eisnam = refl
has_label-code ekeyexpired = refl
has_label-code ekeyrejected = refl
has_label-code ekeyrevoked = refl
has_label-code el2hlt = refl
has_label-code el2nsync = refl
has_label-code el3hlt = refl
has_label-code el3rst = refl
has_label-code elibacc = refl
has_label-code elibbad = refl
has_label-code elibexec = refl
has_label-code elibmax = refl
has_label-code elibscn = refl
has_label-code elnrng = refl
has_label-code eloop = refl
has_label-code emediumtype = refl
has_label-code emfile = refl
has_label-code emlink = refl
has_label-code emsgsize = refl
has_label-code emultihop = refl
has_label-code enametoolong = refl
has_label-code enavail = refl
has_label-code enetdown = refl
has_label-code enetreset = refl
has_label-code enetunreach = refl
has_label-code enfile = refl
has_label-code enoano = refl
has_label-code enobufs = refl
has_label-code enocsi = refl
has_label-code enodata = refl
has_label-code enodev = refl
has_label-code enoent = refl
has_label-code enoexec = refl
has_label-code enokey = refl
has_label-code enolck = refl
has_label-code enolink = refl
has_label-code enomedium = refl
has_label-code enomem = refl
has_label-code enomsg = refl
has_label-code enonet = refl
has_label-code enopkg = refl
has_label-code enoprotoopt = refl
has_label-code enospc = refl
has_label-code enosr = refl
has_label-code enostr = refl
has_label-code enosys = refl
has_label-code enotblk = refl
has_label-code enotconn = refl
has_label-code enotdir = refl
has_label-code enotempty = refl
has_label-code enotnam = refl
has_label-code enotrecoverable = refl
has_label-code enotsock = refl
has_label-code enotsup = refl
has_label-code enotty = refl
has_label-code enotuniq = refl
has_label-code enxio = refl
has_label-code eof = refl
has_label-code eopnotsupp = refl
has_label-code eoverflow = refl
has_label-code eownerdead = refl
has_label-code eperm = refl
has_label-code epfnosupport = refl
has_label-code epipe = refl
has_label-code eproto = refl
has_label-code eprotonosupport = refl
has_label-code eprototype = refl
has_label-code erange = refl
has_label-code eremchg = refl
has_label-code eremote = refl
has_label-code eremoteio = refl
has_label-code erestart = refl
has_label-code erfkill = refl
has_label-code erofs = refl
has_label-code eshutdown = refl
has_label-code esocktnosupport = refl
has_label-code espipe = refl
has_label-code esrch = refl
has_label-code esrmnt = refl
has_label-code estale = refl
has_label-code estrpipe = refl
has_label-code etime = refl
has_label-code etimedout = refl
has_label-code etoomanyrefs = refl
has_label-code etxtbsy = refl
has_label-code euclean = refl
has_label-code eunatch = refl
has_label-code eusers = refl
has_label-code ewouldblock = refl
has_label-code exdev = refl
has_label-code exfull = refl

-- The address of a signal type.
pub signal_of-ne-null : (e : Errno) → signal_of e ≢ 0
unfolding signal_of
signal_of-ne-null e2big = λ null. ground arith
signal_of-ne-null eacces = λ null. ground arith
signal_of-ne-null eaddrinuse = λ null. ground arith
signal_of-ne-null eaddrnotavail = λ null. ground arith
signal_of-ne-null eadv = λ null. ground arith
signal_of-ne-null eafnosupport = λ null. ground arith
signal_of-ne-null eagain = λ null. ground arith
signal_of-ne-null ealready = λ null. ground arith
signal_of-ne-null ebade = λ null. ground arith
signal_of-ne-null ebadf = λ null. ground arith
signal_of-ne-null ebadfd = λ null. ground arith
signal_of-ne-null ebadmsg = λ null. ground arith
signal_of-ne-null ebadr = λ null. ground arith
signal_of-ne-null ebadrqc = λ null. ground arith
signal_of-ne-null ebadslt = λ null. ground arith
signal_of-ne-null ebfont = λ null. ground arith
signal_of-ne-null ebusy = λ null. ground arith
signal_of-ne-null ecanceled = λ null. ground arith
signal_of-ne-null echild = λ null. ground arith
signal_of-ne-null echrng = λ null. ground arith
signal_of-ne-null ecomm = λ null. ground arith
signal_of-ne-null econnaborted = λ null. ground arith
signal_of-ne-null econnrefused = λ null. ground arith
signal_of-ne-null econnreset = λ null. ground arith
signal_of-ne-null edeadlk = λ null. ground arith
signal_of-ne-null edeadlock = λ null. ground arith
signal_of-ne-null edestaddrreq = λ null. ground arith
signal_of-ne-null edom = λ null. ground arith
signal_of-ne-null edotdot = λ null. ground arith
signal_of-ne-null edquot = λ null. ground arith
signal_of-ne-null eexist = λ null. ground arith
signal_of-ne-null efault = λ null. ground arith
signal_of-ne-null efbig = λ null. ground arith
signal_of-ne-null ehostdown = λ null. ground arith
signal_of-ne-null ehostunreach = λ null. ground arith
signal_of-ne-null ehwpoison = λ null. ground arith
signal_of-ne-null eidrm = λ null. ground arith
signal_of-ne-null eilseq = λ null. ground arith
signal_of-ne-null einprogress = λ null. ground arith
signal_of-ne-null eintr = λ null. ground arith
signal_of-ne-null einval = λ null. ground arith
signal_of-ne-null eio = λ null. ground arith
signal_of-ne-null eisconn = λ null. ground arith
signal_of-ne-null eisdir = λ null. ground arith
signal_of-ne-null eisnam = λ null. ground arith
signal_of-ne-null ekeyexpired = λ null. ground arith
signal_of-ne-null ekeyrejected = λ null. ground arith
signal_of-ne-null ekeyrevoked = λ null. ground arith
signal_of-ne-null el2hlt = λ null. ground arith
signal_of-ne-null el2nsync = λ null. ground arith
signal_of-ne-null el3hlt = λ null. ground arith
signal_of-ne-null el3rst = λ null. ground arith
signal_of-ne-null elibacc = λ null. ground arith
signal_of-ne-null elibbad = λ null. ground arith
signal_of-ne-null elibexec = λ null. ground arith
signal_of-ne-null elibmax = λ null. ground arith
signal_of-ne-null elibscn = λ null. ground arith
signal_of-ne-null elnrng = λ null. ground arith
signal_of-ne-null eloop = λ null. ground arith
signal_of-ne-null emediumtype = λ null. ground arith
signal_of-ne-null emfile = λ null. ground arith
signal_of-ne-null emlink = λ null. ground arith
signal_of-ne-null emsgsize = λ null. ground arith
signal_of-ne-null emultihop = λ null. ground arith
signal_of-ne-null enametoolong = λ null. ground arith
signal_of-ne-null enavail = λ null. ground arith
signal_of-ne-null enetdown = λ null. ground arith
signal_of-ne-null enetreset = λ null. ground arith
signal_of-ne-null enetunreach = λ null. ground arith
signal_of-ne-null enfile = λ null. ground arith
signal_of-ne-null enoano = λ null. ground arith
signal_of-ne-null enobufs = λ null. ground arith
signal_of-ne-null enocsi = λ null. ground arith
signal_of-ne-null enodata = λ null. ground arith
signal_of-ne-null enodev = λ null. ground arith
signal_of-ne-null enoent = λ null. ground arith
signal_of-ne-null enoexec = λ null. ground arith
signal_of-ne-null enokey = λ null. ground arith
signal_of-ne-null enolck = λ null. ground arith
signal_of-ne-null enolink = λ null. ground arith
signal_of-ne-null enomedium = λ null. ground arith
signal_of-ne-null enomem = λ null. ground arith
signal_of-ne-null enomsg = λ null. ground arith
signal_of-ne-null enonet = λ null. ground arith
signal_of-ne-null enopkg = λ null. ground arith
signal_of-ne-null enoprotoopt = λ null. ground arith
signal_of-ne-null enospc = λ null. ground arith
signal_of-ne-null enosr = λ null. ground arith
signal_of-ne-null enostr = λ null. ground arith
signal_of-ne-null enosys = λ null. ground arith
signal_of-ne-null enotblk = λ null. ground arith
signal_of-ne-null enotconn = λ null. ground arith
signal_of-ne-null enotdir = λ null. ground arith
signal_of-ne-null enotempty = λ null. ground arith
signal_of-ne-null enotnam = λ null. ground arith
signal_of-ne-null enotrecoverable = λ null. ground arith
signal_of-ne-null enotsock = λ null. ground arith
signal_of-ne-null enotsup = λ null. ground arith
signal_of-ne-null enotty = λ null. ground arith
signal_of-ne-null enotuniq = λ null. ground arith
signal_of-ne-null enxio = λ null. ground arith
signal_of-ne-null eof = λ null. ground arith
signal_of-ne-null eopnotsupp = λ null. ground arith
signal_of-ne-null eoverflow = λ null. ground arith
signal_of-ne-null eownerdead = λ null. ground arith
signal_of-ne-null eperm = λ null. ground arith
signal_of-ne-null epfnosupport = λ null. ground arith
signal_of-ne-null epipe = λ null. ground arith
signal_of-ne-null eproto = λ null. ground arith
signal_of-ne-null eprotonosupport = λ null. ground arith
signal_of-ne-null eprototype = λ null. ground arith
signal_of-ne-null erange = λ null. ground arith
signal_of-ne-null eremchg = λ null. ground arith
signal_of-ne-null eremote = λ null. ground arith
signal_of-ne-null eremoteio = λ null. ground arith
signal_of-ne-null erestart = λ null. ground arith
signal_of-ne-null erfkill = λ null. ground arith
signal_of-ne-null erofs = λ null. ground arith
signal_of-ne-null eshutdown = λ null. ground arith
signal_of-ne-null esocktnosupport = λ null. ground arith
signal_of-ne-null espipe = λ null. ground arith
signal_of-ne-null esrch = λ null. ground arith
signal_of-ne-null esrmnt = λ null. ground arith
signal_of-ne-null estale = λ null. ground arith
signal_of-ne-null estrpipe = λ null. ground arith
signal_of-ne-null etime = λ null. ground arith
signal_of-ne-null etimedout = λ null. ground arith
signal_of-ne-null etoomanyrefs = λ null. ground arith
signal_of-ne-null etxtbsy = λ null. ground arith
signal_of-ne-null euclean = λ null. ground arith
signal_of-ne-null eunatch = λ null. ground arith
signal_of-ne-null eusers = λ null. ground arith
signal_of-ne-null ewouldblock = λ null. ground arith
signal_of-ne-null exdev = λ null. ground arith
signal_of-ne-null exfull = λ null. ground arith
