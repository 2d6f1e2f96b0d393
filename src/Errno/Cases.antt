-- ===== src/Errno/Cases.antt =====
-- The cases of `sig_from_errno`, in their order: the label and the signal type returned.
use libevsig.Base.{List, [], ◌∷◌, ◌++◌}
use libevsig.Errno.Names.{
  Errno, e2big, eacces, eaddrinuse, eaddrnotavail, eadv, eafnosupport, eagain, ealready, ebade,
  ebadf, ebadfd, ebadmsg, ebadr, ebadrqc, ebadslt, ebfont, ebusy, ecanceled, echild, echrng, ecomm,
  econnaborted, econnrefused, econnreset, edeadlk, edeadlock, edestaddrreq, edom, edotdot, edquot,
  eexist, efault, efbig, ehostdown, ehostunreach, ehwpoison, eidrm, eilseq, einprogress, eintr,
  einval, eio, eisconn, eisdir, eisnam, ekeyexpired, ekeyrejected, ekeyrevoked, el2hlt, el2nsync,
  el3hlt, el3rst, elibacc, elibbad, elibexec, elibmax, elibscn, elnrng, eloop, emediumtype, emfile,
  emlink, emsgsize, emultihop, enametoolong, enavail, enetdown, enetreset, enetunreach, enfile,
  enoano, enobufs, enocsi, enodata, enodev, enoent, enoexec, enokey, enolck, enolink, enomedium,
  enomem, enomsg, enonet, enopkg, enoprotoopt, enospc, enosr, enostr, enosys, enotblk, enotconn,
  enotdir, enotempty, enotnam, enotrecoverable, enotsock, enotty, enotuniq, enxio, eof, eopnotsupp,
  eoverflow, eownerdead, eperm, epfnosupport, epipe, eproto, eprotonosupport, eprototype, erange,
  eremchg, eremote, eremoteio, erestart, erfkill, erofs, eshutdown, esocktnosupport, espipe, esrch,
  esrmnt, estale, estrpipe, etime, etimedout, etoomanyrefs, etxtbsy, euclean, eunatch, eusers,
  exdev, exfull,
}

-- A label whose signal type has its own name.
abbrev same : Errno → Errno × Errno
same e = (e, e)

abbrev pub first_cases : List (Errno × Errno)
first_cases =
    same e2big
    ∷ same eacces
    ∷ same eaddrinuse
    ∷ same eaddrnotavail
    ∷ same eadv
    ∷ same eafnosupport
    ∷ same ealready
    ∷ same ebade
    ∷ same ebadf
    ∷ same ebadfd
    ∷ same ebadmsg
    ∷ same ebadr
    ∷ same ebadrqc
    ∷ same ebadslt
    ∷ same ebfont
    ∷ same ebusy
    ∷ same ecanceled
    ∷ same echild
    ∷ same echrng
    ∷ same ecomm
    ∷ same econnaborted
    ∷ same econnrefused
    ∷ same econnreset
    ∷ (edeadlk, edeadlock)
    ∷ same edestaddrreq
    ∷ same edom
    ∷ same edotdot
    ∷ same edquot
    ∷ same eexist
    ∷ same efault
    ∷ same efbig
    ∷ same ehostdown
    ∷ same ehostunreach
    ∷ same ehwpoison
    ∷ same eidrm
    ∷ same eilseq
    ∷ same einprogress
    ∷ same eintr
    ∷ same einval
    ∷ same eio
    ∷ same eisconn
    ∷ same eisdir
    ∷ same eisnam
    ∷ same ekeyexpired
    ∷ []

abbrev pub second_cases : List (Errno × Errno)
second_cases =
    same ekeyrejected
    ∷ same ekeyrevoked
    ∷ same el2hlt
    ∷ same el2nsync
    ∷ same el3hlt
    ∷ same el3rst
    ∷ same elibacc
    ∷ same elibbad
    ∷ same elibexec
    ∷ same elibmax
    ∷ same elibscn
    ∷ same elnrng
    ∷ same eloop
    ∷ same emediumtype
    ∷ same emfile
    ∷ same emlink
    ∷ same emsgsize
    ∷ same emultihop
    ∷ same enametoolong
    ∷ same enavail
    ∷ same enetdown
    ∷ same enetreset
    ∷ same enetunreach
    ∷ same enfile
    ∷ same enoano
    ∷ same enobufs
    ∷ same enocsi
    ∷ same enodata
    ∷ same enodev
    ∷ same enoent
    ∷ same enoexec
    ∷ same enokey
    ∷ same enolck
    ∷ same enolink
    ∷ same enomedium
    ∷ same enomem
    ∷ same enomsg
    ∷ same enonet
    ∷ same enopkg
    ∷ same enoprotoopt
    ∷ same enospc
    ∷ same enosr
    ∷ same enostr
    ∷ same enosys
    ∷ []

abbrev pub third_cases : List (Errno × Errno)
third_cases =
    same enotblk
    ∷ same enotconn
    ∷ same enotdir
    ∷ same enotempty
    ∷ same enotnam
    ∷ same enotrecoverable
    ∷ same enotsock
    ∷ same eopnotsupp
    ∷ same enotty
    ∷ same enotuniq
    ∷ same enxio
    ∷ same eof
    ∷ same eoverflow
    ∷ same eownerdead
    ∷ same eperm
    ∷ same epfnosupport
    ∷ same epipe
    ∷ same eproto
    ∷ same eprotonosupport
    ∷ same eprototype
    ∷ same erange
    ∷ same eremchg
    ∷ same eremote
    ∷ same eremoteio
    ∷ same erestart
    ∷ same erfkill
    ∷ same erofs
    ∷ same eshutdown
    ∷ same esocktnosupport
    ∷ same espipe
    ∷ same esrch
    ∷ same esrmnt
    ∷ same estale
    ∷ same estrpipe
    ∷ same etime
    ∷ same etimedout
    ∷ same etoomanyrefs
    ∷ same etxtbsy
    ∷ same euclean
    ∷ same eunatch
    ∷ same eusers
    ∷ same eagain
    ∷ same exdev
    ∷ same exfull
    ∷ []

abbrev pub cases : List (Errno × Errno)
cases = first_cases ++ second_cases ++ third_cases
