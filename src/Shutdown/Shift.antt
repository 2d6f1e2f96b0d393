-- ===== src/Shutdown/Shift.antt =====
-- The loop that shifts every match out of an array keeps the other entries, in their order.
use libevsig.Base.{
  ℕ, zero, suc, ◌+◌, ◌-◌, ◌≡◌, refl, ◌∙◌, ap, inl, inr, Bool, false, not, List, [], ◌∷◌, Result, ok,
  arith, Bool-cases, length, keep, rev_onto, length-rev_onto, rev_onto-append, rev_onto-rev_onto,
  append-nil,
}
use libevsig.Memory.{Block, Cells, cells, Stored, Stored-below}
use libevsig.Vector.{Vector, Holds, Yields}
use libevsig.Shutdown.Compact.{skip, shift_out, compact}
use libevsig.Shutdown.Rounds.{
  Ahead, others, skipped, after_skip, skip-Skips, others-after_skip, move_back-past, shift_out-suc,
  shift_out-done, move_back-Moved,
}

module _ {ℓ} {A : Type ℓ} (p : A → Bool) where
  -- What the loop leaves, started with `out` below index `i` and `rs` from index `i + s` on.
  record Shifts (c : Cells A) (fill : ℕ) (rs out : List A) (run : Result (ℕ × Block A))
      : Type ℓ where
    shift : ℕ
    contents : Cells A
    result : run ≡ ok (shift, cells contents)
    sized : length contents ≡ length c
    stored : Stored contents (rev_onto (others p rs) out)
    total : shift + length out + length (others p rs) ≡ fill

  abbrev ShiftsAt : ℕ → Type ℓ
  ShiftsAt n =
      (i s : ℕ) (c : Cells A) (fill : ℕ) (rs out : List A)
      → n + i ≡ fill
      → i ≡ length out
      → Stored c out
      → Ahead c (i + s) rs
      → i + s + length rs ≡ fill
      → Shifts c fill rs out (shift_out p (cells c) fill n i s)

  after_skip-head : (rs : List A) (r : A) (rest : List A) → after_skip p rs ≡ r ∷ rest → p r ≡ false
  after_skip-head [] r rest e = ground (arith, e)
  after_skip-head (x ∷ rs) r rest e = elim (Bool-cases (p x)) [
    | inl hit ↦ after_skip-head rs r rest (rw hit at e)
    | inr miss ↦
        let same : x ∷ rs ≡ r ∷ rest = rw miss at e in let head : x ≡ r = cc in rw (← head) miss
  ]

  -- One round, by what it finds ahead once it has skipped p.
  round_Shifts :
      (n i s k : ℕ) (c : Cells A) (fill : ℕ) (rs rest out : List A)
      → ShiftsAt n
      → suc n + i ≡ fill
      → i ≡ length out
      → Stored c out
      → skip p (cells c) fill i (suc fill) s ≡ ok k
      → Ahead c (i + k) rest
      → i + k + length rest ≡ fill
      → after_skip p rs ≡ rest
      → Shifts c fill rs out (shift_out p (cells c) fill (suc n) i s)
  round_Shifts n i s k c fill rs [] out later rounds at stored skips h total e = record {
    shift = k;
    contents = c;
    result =
        shift_out-suc p (cells c) (cells c) fill n i s k skips
          (move_back-past p (cells c) fill i k (omega arith))
        ∙ shift_out-done p (cells c) fill n (suc i) k (omega arith);
    sized = refl;
    stored = rw (others-after_skip p rs, e) stored;
    total = rw (others-after_skip p rs, e) (omega arith);
  }
  round_Shifts n i s k c fill rs (r ∷ rest) out later rounds at stored skips h total e =
      let m = move_back-Moved p c fill i k r rest out stored at h (omega arith) in
      let d =
        later (suc i) k m.contents fill rest (r ∷ out) (omega arith) (omega arith) m.stored m.ahead
          (omega arith) in
      let stays : others p rs ≡ r ∷ others p rest =
        others-after_skip p rs ∙ ap (others p) e ∙ rw (after_skip-head rs r rest e) refl in
      record {
        shift = d.shift;
        contents = d.contents;
        result =
            shift_out-suc p (cells c) (cells m.contents) fill n i s k skips m.result ∙ d.result;
        sized = d.sized ∙ m.sized;
        stored = rw stays d.stored;
        total = rw stays (omega (arith, d.total));
      }

  shift_out-Shifts : (n : ℕ) → ShiftsAt n
  unfolding shift_out
  shift_out-Shifts zero i s c fill [] out rounds at stored h total = record {
    shift = s;
    contents = c;
    result = refl;
    sized = refl;
    stored = stored;
    total = omega arith;
  }
  shift_out-Shifts zero i s c fill (r ∷ rs) out rounds at stored h total = absurd (omega arith)
  shift_out-Shifts (suc n) i s c fill rs out rounds at stored h total =
      let k = skip-Skips p c fill i (suc fill) s rs (omega arith) h total in
      round_Shifts n i s (s + skipped p rs) c fill rs (after_skip p rs) out (shift_out-Shifts n)
        rounds at stored k.result k.ahead k.total refl

  Stored-Ahead :
      (c : Cells A) (rs out : List A) → Stored c (rev_onto rs out) → Ahead c (length out) rs
  Stored-Ahead c [] out s = tt
  Stored-Ahead c (r ∷ rs) out s =
      let below : Stored c (r ∷ out) =
        Stored-below c (rev_onto rs []) (r ∷ out) (rw (rev_onto-append rs (r ∷ out)) at s) in
      (below.0, Stored-Ahead c rs (r ∷ out) s)

  keep-rev_onto :
      (q : A → Bool) (xs ys : List A) → keep q (rev_onto xs ys) ≡ rev_onto (keep q xs) (keep q ys)
  keep-rev_onto q [] ys = refl
  keep-rev_onto q (x ∷ xs) ys = elim (Bool-cases (q x)) [
    | inl kept ↦ rw (keep-rev_onto q xs (x ∷ ys), kept)
    | inr dropped ↦ rw (keep-rev_onto q xs (x ∷ ys), dropped)
  ]

  others-back : (xs : List A) → rev_onto (others p (rev_onto xs [])) [] ≡ others p xs
  others-back xs =
      rw (keep-rev_onto (λ a. not (p a)) xs [], rev_onto-rev_onto (others p xs) [] [])
        (append-nil (others p xs))

  -- The loop that shifts every match out of the array ends, leaves the other entries in their order,
  -- and counts them.
  pub compact-Holds :
      (v : Vector A) (xs : List A)
      → Holds v xs
      → Yields (compact p v) (λ w. Holds w (others p xs) × (w.fill ≡ length (others p xs)))
  unfolding compact
  compact-Holds v xs h = (
    record v { block = cells d.contents; fill = v.fill - d.shift },
    rw (h.is_block, d.result),
    (
      record {
        contents = d.contents;
        is_block = refl;
        sized = d.sized ∙ h.sized;
        filled = left;
        has_room = h.has_room;
        stored = rw (others-back xs) at d.stored;
      },
      left,
    ),
  )
    where
      back : Stored h.contents (rev_onto (rev_onto xs []) [])
      back = rw (rev_onto-rev_onto xs [] [], append-nil xs) h.stored

      d :
          Shifts h.contents v.fill
            (rev_onto xs [])
            []
            (shift_out p (cells h.contents) v.fill v.fill 0 0)
      d =
          shift_out-Shifts v.fill 0 0 h.contents v.fill (rev_onto xs []) [] (omega arith) refl tt
            (Stored-Ahead h.contents (rev_onto xs []) [] back)
            (omega (arith, h.filled, length-rev_onto xs []))

      left : v.fill - d.shift ≡ length (others p xs)
      left = omega (
        arith,
        d.total,
        ap length (others-back xs),
        length-rev_onto (others p (rev_onto xs [])) [],
      )
