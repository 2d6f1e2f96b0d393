-- ===== src/Base/Outcome.antt =====
-- What a C function comes to: a value, a call of `exit`, undefined behaviour, or a wait for ever
-- (also a loop whose fuel ran out).
use Prim.Native.Nat.{ℕ}
use mathlib.Core.Path.{◌≡◌, refl, sym}

pub data Result {ℓ} (A : Type ℓ) : Type ℓ where
  ok : A → Result A
  exit : ℕ → Result A
  fault : Result A
  hang : Result A

infixl 5 ◌>>=◌
abbrev pub ◌>>=◌ {ℓ κ} : {A : Type ℓ} {B : Type κ} → Result A → (A → Result B) → Result B
ok a >>= f = f a
exit n >>= f = exit n
fault >>= f = fault
hang >>= f = hang

-- A chain that succeeds has a first part that succeeds, on whose value the rest succeeds.
pub succeeded {ℓ κ} :
    {B : Type κ} {A : Type ℓ} (next : A → Result B) {b : B} (first : Result A)
    → ok b ≡ (first >>= next)
    → (a : A) × ((first ≡ ok a) × (next a ≡ ok b))
succeeded next fault e = cc
succeeded next hang e = cc
succeeded next (exit n) e = cc
succeeded next (ok a) e = (a, (refl, sym e))
