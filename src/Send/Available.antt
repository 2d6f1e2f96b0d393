-- ===== src/Send/Available.antt =====
-- What `_sig_restart_available` promises about `_run_restart`.
use libevsig.Base.{
  ℕ, ◌≡◌, refl, sym, ap, ◌∙◌, true, false, some, List, [], ◌∷◌, Bool-cases, inl, inr, any, ok,
  arith,
}
use libevsig.Vector.{ok-injective}
use libevsig.Signals.{sig_restart_available, sig_restart_available-any, is_restart_for}
use libevsig.Unwind.{Model, Models, unwind, jump}
use libevsig.Thread.{SigType, RestartEntry, Thread, Program}
use libevsig.Send.Ops.{run_restart, takes_restart}
use libevsig.Send.Spec.{restart_for}
use libevsig.Send.Refine.{tried, run_restart-tried}

is_restart_for-takes :
    (s r : SigType) (e : RestartEntry) → is_restart_for s r e ≡ true → takes_restart s r e ≡ true
is_restart_for-takes s r e h = ground arith

any-restart_for :
    (s r : SigType) (es : List RestartEntry)
    → any (is_restart_for s r) es ≡ true
    → (e : RestartEntry) × (restart_for s r es ≡ some e)
any-restart_for s r [] h = cc
any-restart_for s r (e ∷ es) h = elim (Bool-cases (takes_restart s r e)) [
  | inl takes ↦ (e, rw takes refl)
  | inr passes ↦ elim (Bool-cases (is_restart_for s r e)) [
    | inl fits ↦ let bad : true ≡ false = sym (is_restart_for-takes s r e fits) ∙ passes in cc
    | inr misses ↦
        let rest : any (is_restart_for s r) es ≡ true = rw misses at h in
        rw passes (any-restart_for s r es rest)
  ]
]

module _ {W : Type 0} (prog : Program W) where
  -- Where `_sig_restart_available` says yes, `_run_restart` for the same types unwinds to the return
  -- point of a restart on the stack.
  pub sig_restart_available-run_restart :
      (fuel : ℕ) (s r : SigType) (t : Thread W) (m : Model W)
      → Models t m
      → sig_restart_available t.restarts s r ≡ ok true
      → (e : RestartEntry) × (restart_for s r m.restarts ≡ some e)
        × (run_restart prog fuel s r t.restarts.fill t ≡ jump (unwind prog fuel e.p t))
  sig_restart_available-run_restart fuel s r t m models says =
      let h = models.restarts in
      let there = ok-injective (sym (sig_restart_available-any t.restarts s r h) ∙ says) in
      let (e, found) = any-restart_for s r m.restarts there in
      (
        e,
        found,
        ap (λ n. run_restart prog fuel s r n t) h.filled
            ∙ run_restart-tried prog fuel s r t h.contents m.restarts h.is_block h.stored
            ∙ ap (tried prog fuel t) found,
      )
