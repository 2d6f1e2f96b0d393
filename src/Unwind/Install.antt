-- ===== src/Unwind/Install.antt =====
-- The handlers of system signals that `unwind_init` installs.
use libevsig.Base.{Bool, List, [], ◌∷◌, Result, ok, ◌>>=◌, if◌then◌else◌}
use libevsig.Thread.{Thread}
use libevsig.Unwind.Ops.{unwind_init}
use libevsig.Unwind.Dispatch.{
  SystemSignal, sigint, sigterm, sighup, sigquit, sigill, sigpipe, sigalrm, sigsys, sigstkflt,
  sigabrt, sigfpe,
}

-- The calls of `sigaction`, in their order.
abbrev pub installed : List SystemSignal
installed =
    sigterm ∷ sigint ∷ sighup ∷ sigquit ∷ sigill ∷ sigpipe ∷ sigalrm ∷ sigsys ∷ sigstkflt ∷ sigabrt
    ∷ sigfpe ∷ []

module _ {W : Type 0} (sigaction : SystemSignal → W → W) where
  unfoldable pub install : List SystemSignal → W → W
  install [] w = w
  install (sig ∷ sigs) w = install sigs (sigaction sig w)

  -- `unwind_init`; `sigaction` makes `_sighandle_dispatch` the handler of a signal.
  unfoldable pub unwind_init_system : Bool → Bool → Thread W → Result (Thread W)
  unfolding unwind_init install
  unwind_init_system room threadlocal t = do
    u ← unwind_init room t
    ok (if threadlocal then u else record u { world = install installed u.world })
