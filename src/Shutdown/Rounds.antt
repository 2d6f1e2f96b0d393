-- ===== src/Shutdown/Rounds.antt =====
-- One round of the loop that shifts every match out of an array.
use libevsig.Base.{
  ℕ, zero, suc, ◌+◌, ◌<◌, ◌≤◌, ◌≡◌, refl, ◌∙◌, ap, sym, subst, inl, inr, Bool, not, some, List, [],
  ◌∷◌, Result, ok, arith, ltb, lt→ltb, le→ltb, ltb→le, Bool-cases, if◌then◌else◌, length, keep, set,
  get_elem?, length-set, get_elem?-set_ne, get_elem?-lt,
}
use libevsig.Memory.{Block, Cells, cells, Stored, Stored-push, load-Stored, store-lt}
use libevsig.Shutdown.Compact.{skip, move_back, shift_out}

module _ {ℓ} {A : Type ℓ} where
  -- The entries from index `j` on, the lowest first.
  abbrev pub Ahead : Cells A → ℕ → List A → Type ℓ
  Ahead c j [] = Unit
  Ahead c j (r ∷ rs) = (get_elem? c j ≡ some (some r)) × Ahead c (suc j) rs

  Ahead-set :
      (c : Cells A) (i j : ℕ) (a : A) (rs : List A)
      → i < j
      → Ahead c j rs
      → Ahead (set c i (some a)) j rs
  Ahead-set c i j a [] lt h = tt
  Ahead-set c i j a (r ∷ rs) lt h = (
    get_elem?-set_ne c {i = i} {j = j} (some a) (omega arith) ∙ h.0,
    Ahead-set c i (suc j) a rs (omega arith) h.1,
  )

module _ {ℓ} {A : Type ℓ} (p : A → Bool) where
  abbrev pub others : List A → List A
  others = keep (λ a. not (p a))

  -- The matches at the front of what is ahead.
  abbrev pub skipped : List A → ℕ
  skipped [] = 0
  skipped (r ∷ rs) = if p r then suc (skipped rs) else 0

  abbrev pub after_skip : List A → List A
  after_skip [] = []
  after_skip (r ∷ rs) = if p r then after_skip rs else r ∷ rs

  pub record Skips (c : Cells A) (fill i s : ℕ) (rs : List A) (run : Result ℕ) : Type ℓ where
    pub result : run ≡ ok (s + skipped rs)
    pub ahead : Ahead c (i + (s + skipped rs)) (after_skip rs)
    pub total : i + (s + skipped rs) + length (after_skip rs) ≡ fill

  pub skip-Skips :
      (c : Cells A) (fill i fuel s : ℕ) (rs : List A)
      → length rs < fuel
      → Ahead c (i + s) rs
      → i + s + length rs ≡ fill
      → Skips c fill i s rs (skip p (cells c) fill i fuel s)
  unfolding skip
  skip-Skips c fill i zero s rs enough h total = absurd (omega arith)
  skip-Skips c fill i (suc fuel) s [] enough h total = record {
    result = rw (le→ltb (i + s) fill (omega arith)) (ap ok (omega arith));
    ahead = tt;
    total = omega arith;
  }
  skip-Skips c fill i (suc fuel) s (r ∷ rs) enough h total = elim (Bool-cases (p r)) [
    | inl hit ↦
        let rest =
          skip-Skips c fill i fuel (s + 1) rs (omega arith)
            (subst (λ j. Ahead c j rs) (omega arith) h.1) (omega arith) in
        let more : s + 1 + skipped rs ≡ s + suc (skipped rs) = omega arith in
        record {
          result =
              rw (lt→ltb (i + s) fill (omega arith), load-Stored c (i + s) h.0, hit)
                (rest.result ∙ ap ok more);
          ahead = rw (hit, ← more) rest.ahead;
          total = rw (hit, ← more) rest.total;
        }
    | inr miss ↦ record {
      result =
          rw (lt→ltb (i + s) fill (omega arith), load-Stored c (i + s) h.0, miss)
            (ap ok (omega arith));
      ahead = rw miss (subst (λ j. Ahead c j (r ∷ rs)) (omega arith) h);
      total = rw miss (omega arith);
    }
  ]

  pub others-after_skip : (rs : List A) → others rs ≡ others (after_skip rs)
  others-after_skip [] = refl
  others-after_skip (r ∷ rs) = elim (Bool-cases (p r)) [
    | inl hit ↦ rw hit (others-after_skip rs)
    | inr miss ↦ rw miss (rw miss)
  ]

  pub move_back-past : (b : Block A) (fill i s : ℕ) → fill ≤ i + s → move_back p b fill i s ≡ ok b
  unfolding move_back
  move_back-past b fill i s past = elim (Bool-cases (ltb 0 s)) [
    | inl shifted ↦ rw (shifted, le→ltb (i + s) fill past)
    | inr in_place ↦ rw in_place
  ]

  skip-past : (b : Block A) (fill i fuel s : ℕ) → fill ≤ i + s → skip p b fill i (suc fuel) s ≡ ok s
  unfolding skip
  skip-past b fill i fuel s past = rw (le→ltb (i + s) fill past)

  pub shift_out-suc :
      (b d : Block A) (fill n i s k : ℕ)
      → skip p b fill i (suc fill) s ≡ ok k
      → move_back p b fill i k ≡ ok d
      → shift_out p b fill (suc n) i s ≡ shift_out p d fill n (suc i) k
  unfolding shift_out
  shift_out-suc b d fill n i s k skips moves = rw (skips, moves)

  -- Once nothing is ahead the loop changes nothing.
  pub shift_out-done :
      (b : Block A) (fill n i s : ℕ) → fill ≤ i + s → shift_out p b fill n i s ≡ ok (s, b)
  unfolding shift_out
  shift_out-done b fill zero i s past = refl
  shift_out-done b fill (suc n) i s past =
      shift_out-suc b b fill n i s s (skip-past b fill i fill s past)
        (move_back-past b fill i s past)
      ∙ shift_out-done b fill n (suc i) s (omega arith)

  -- One round with an entry `r` ahead that stays: it comes to stand at index `i`.
  pub record Moved (c : Cells A) (i s : ℕ) (r : A) (rs out : List A) (run : Result (Block A))
      : Type ℓ where
    pub contents : Cells A
    pub result : run ≡ ok (cells contents)
    pub sized : length contents ≡ length c
    pub stored : Stored contents (r ∷ out)
    pub ahead : Ahead contents (suc i + s) rs

  pub move_back-Moved :
      (c : Cells A) (fill i s : ℕ) (r : A) (rs out : List A)
      → Stored c out
      → i ≡ length out
      → Ahead c (i + s) (r ∷ rs)
      → i + s < fill
      → Moved c i s r rs out (move_back p (cells c) fill i s)
  unfolding move_back
  move_back-Moved c fill i s r rs out stored at h inside = elim (Bool-cases (ltb 0 s)) [
    | inl shifted ↦
        let fits : i < length c = omega (arith, get_elem?-lt c (i + s) h.0) in
        record {
          contents = set c i (some r);
          result =
              rw (
                shifted,
                lt→ltb (i + s) fill inside,
                load-Stored c (i + s) h.0,
                store-lt c i r fits,
              );
          sized = length-set c i (some r);
          stored =
              subst (λ k. Stored (set c k (some r)) (r ∷ out)) (sym at)
                (Stored-push c r out (omega arith) stored);
          ahead =
              Ahead-set c i (suc i + s) r rs (omega arith)
                (subst (λ j. Ahead c j rs) (omega arith) h.1);
        }
    | inr in_place ↦
        let none_skipped : s ≡ 0 = omega (arith, ltb→le 0 s in_place) in
        record {
          contents = c;
          result = rw in_place;
          sized = refl;
          stored = (subst (λ k. get_elem? c k ≡ some (some r)) (omega arith) h.0, stored);
          ahead = subst (λ j. Ahead c j rs) (omega arith) h.1;
        }
  ]
