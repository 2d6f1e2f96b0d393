-- ===== src/Vector/Search.antt =====
-- The two searches of a vector, from the top and from the bottom, against its list.
use libevsig.Base.{
  ℕ, ◌≡◌, refl, ap, get_elem?, inl, inr, Bool, true, Option, none, some, List, [], ◌∷◌, ◌++◌, ok,
  arith, Bool-cases, if◌then◌else◌, length, any, remove, rev_onto, rev_onto-append, any-rev_onto,
  rev_onto-rev_onto, length-rev_onto, append-nil,
}
use libevsig.Memory.{Cells, cells, Stored, Stored-below, load-Stored}
use libevsig.Vector.Ops.{find_last, any_from}

module _ {ℓ} {A : Type ℓ} (p : A → Bool) where
  -- The index of the topmost entry that the test accepts.
  abbrev pub position : List A → Option ℕ
  position [] = none
  position (x ∷ xs) = if p x then some (length xs) else position xs

  pub find_last-position :
      (c : Cells A) (xs : List A)
      → Stored c xs
      → find_last p (cells c) (length xs) ≡ ok (position xs)
  unfolding find_last
  find_last-position c [] s = refl
  find_last-position c (x ∷ xs) s = elim (Bool-cases (p x)) [
    | inl hit ↦ rw (load-Stored c (length xs) s.0, hit)
    | inr miss ↦ rw (load-Stored c (length xs) s.0, miss) (find_last-position c xs s.1)
  ]

  -- A list split at the topmost entry that the test accepts.
  pub record Split (xs : List A) (i : ℕ) : Type ℓ where
    pub above : List A
    pub entry : A
    pub below : List A
    pub whole : xs ≡ above ++ entry ∷ below
    pub accepted : p entry ≡ true
    pub place : i ≡ length below
    pub rest : remove p xs ≡ above ++ below

  pub position-some : (xs : List A) (i : ℕ) → position xs ≡ some i → Split xs i
  position-some [] i e = cc
  position-some (x ∷ xs) i e = elim (Bool-cases (p x)) [
    | inl hit ↦ record {
      above = [];
      entry = x;
      below = xs;
      whole = refl;
      accepted = hit;
      place = let found : some (length xs) ≡ some i = rw hit at e in cc;
      rest = rw hit;
    }
    | inr miss ↦
        let s : Split xs i = position-some xs i (rw miss at e) in
        record {
          above = x ∷ s.above;
          entry = s.entry;
          below = s.below;
          whole = ap (λ ys. x ∷ ys) s.whole;
          accepted = s.accepted;
          place = s.place;
          rest = rw miss (ap (λ ys. x ∷ ys) s.rest);
        }
  ]

  pub position-none : (xs : List A) → position xs ≡ none → remove p xs ≡ xs
  position-none [] e = refl
  position-none (x ∷ xs) e = elim (Bool-cases (p x)) [
    | inl hit ↦ let found : some (length xs) ≡ none = rw hit at e in cc
    | inr miss ↦ rw miss (ap (λ ys. x ∷ ys) (position-none xs (rw miss at e)))
  ]

  any_from-rev_onto :
      (c : Cells A) (rs zs : List A)
      → Stored c (rev_onto rs zs)
      → any_from p (cells c) (length rs) (length zs) ≡ ok (any p rs)
  unfolding any_from
  any_from-rev_onto c [] zs s = refl
  any_from-rev_onto c (r ∷ rs) zs s = elim (Bool-cases (p r)) [
    | inl hit ↦ rw (load-Stored c (length zs) first, hit)
    | inr miss ↦ rw (load-Stored c (length zs) first, miss) (any_from-rev_onto c rs (r ∷ zs) s)
  ]
    where
      first : get_elem? c (length zs) ≡ some (some r)
      first = (Stored-below c (rev_onto rs []) (r ∷ zs) (rw (rev_onto-append rs (r ∷ zs)) at s)).0

  -- The search from the bottom says whether the test holds anywhere.
  pub any_from-any :
      (c : Cells A) (xs : List A) → Stored c xs → any_from p (cells c) (length xs) 0 ≡ ok (any p xs)
  any_from-any c xs s =
      rw (← length_back, ← any_back)
        (any_from-rev_onto c (rev_onto xs []) [] (rw (rev_onto-rev_onto xs [] [], append-nil) s))
    where
      length_back : length (rev_onto xs []) ≡ length xs
      length_back = omega (arith, length-rev_onto xs [])

      any_back : any p (rev_onto xs []) ≡ any p xs
      any_back = ground (arith, any-rev_onto p xs [])
