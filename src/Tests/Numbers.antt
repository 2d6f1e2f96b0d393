-- ===== src/Tests/Numbers.antt =====
-- An error number that two macros share, and one that none has.
use libevsig.Base.{◌≡◌, ◌≢◌, ◌⊎◌, refl}
use libevsig.Errno.{Errno, sig_from_errno, signal_of, code}
use libevsig.Errno.Names.{edeadlk, edeadlock}
use libevsig.Errno.Switch.{sig_from_errno-code}

sig_from_errno-code_example :
    ((sig_from_errno 35 7 ≡ 0) × ((e : Errno) → code e ≢ 35))
    ⊎ ((e : Errno) × ((sig_from_errno 35 7 ≡ signal_of e) × (signal_of e ≢ 0) × (code e ≡ 35)))
sig_from_errno-code_example = sig_from_errno-code 35 7

shared_number : sig_from_errno (code edeadlk) 7 ≡ signal_of edeadlock
unfolding sig_from_errno code signal_of
shared_number = refl

no_number : sig_from_errno 0 7 ≡ 0
unfolding sig_from_errno
no_number = refl
