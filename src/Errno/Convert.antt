-- ===== src/Errno/Convert.antt =====
-- `sig_from_errno` and `str_from_errno`.
use libevsig.Base.{ℕ, List, [], ◌∷◌, ◌==◌, if◌then◌else◌}
use libevsig.Thread.{SigType}
use libevsig.Errno.Names.{Errno}
use libevsig.Errno.Signals.{signal_of}
use libevsig.Errno.Codes.{code}
use libevsig.Errno.Cases.{cases}

-- A `switch` over these labels; null if none is met.
unfoldable pub switch : ℕ → List (Errno × Errno) → SigType
unfolding code signal_of
switch n [] = 0
switch n ((label, result) ∷ rest) = if n == code label then signal_of result else switch n rest

-- `sig_from_errno`: the `switch` is over the thread's `errno`, not over the argument.
unfoldable pub sig_from_errno : ℕ → ℕ → SigType
unfolding switch
sig_from_errno errno errno_in = switch errno cases
