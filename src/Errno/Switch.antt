-- ===== src/Errno/Switch.antt =====
-- What the conversion from error numbers to signal types gives for every error number.
use libevsig.Base.{
  ℕ, ◌≡◌, ◌≢◌, subst, refl, sym, ◌∙◌, Bool, true, false, List, [], ◌∷◌, ◌==◌, ==_iff, if◌then◌else◌,
  Bool-cases, ◌⊎◌, inl, inr,
}
use libevsig.Errno.Names.{Errno}
use libevsig.Errno.Signals.{signal_of}
use libevsig.Errno.Codes.{code}
use libevsig.Errno.Cases.{cases}
use libevsig.Errno.Labels.{has_label, has_label-code, signal_of-ne-null}
use libevsig.Errno.Convert.{switch, sig_from_errno}

abbrev every {ℓ} : {A : Type ℓ} → (A → Bool) → List A → Bool
every p [] = true
every p (x ∷ xs) = if p x then every p xs else false

abbrev is_own : Errno × Errno → Bool
is_own (label, result) = code result == code label

-- The whole table, computed.
own : every is_own cases ≡ true
unfolding code
own = refl

-- The first label that is met, if any is.
switch-code :
    (n : ℕ) (xs : List (Errno × Errno))
    → every is_own xs ≡ true
    → ((switch n xs ≡ 0) × (has_label n xs ≡ false))
      ⊎ ((e : Errno) × ((switch n xs ≡ signal_of e) × (code e ≡ n)))
unfolding switch
switch-code n [] h = inl (refl, refl)
switch-code n ((label, result) ∷ rest) h = elim (Bool-cases (n == code label)) [
  | inl hit ↦ elim (Bool-cases (code result == code label)) [
    | inl same ↦ rw hit (
        inr (
          result,
          (refl, (==_iff (code result) (code label)).0 same ∙ sym ((==_iff n (code label)).0 hit)),
        ))
    | inr differs ↦ let bad : false ≡ true = rw differs at h in cc
  ]
  | inr miss ↦ elim (Bool-cases (code result == code label)) [
    | inl same ↦ rw miss (switch-code n rest (rw same at h))
    | inr differs ↦ let bad : false ≡ true = rw differs at h in cc
  ]
]

-- Whatever the argument is: `sig_from_errno` returns a signal type whose own error macro has the
-- value of the thread's errno, or null, and null exactly for a value that none of these macros has.
pub sig_from_errno-code :
    (errno errno_in : ℕ)
    → ((sig_from_errno errno errno_in ≡ 0) × ((e : Errno) → code e ≢ errno))
      ⊎ ((e : Errno) × ((sig_from_errno errno errno_in ≡ signal_of e)
            × (signal_of e ≢ 0)
            × (code e ≡ errno)))
unfolding sig_from_errno
sig_from_errno-code errno errno_in = elim (switch-code errno cases own) [
  | inl (null, unlisted) ↦
      inl (
        null,
        λ e is. let listed = subst (λ n. has_label n cases ≡ true) is (has_label-code e) in cc,
      )
  | inr (e, (found, own_code)) ↦ inr (e, (found, signal_of-ne-null e, own_code))
]
