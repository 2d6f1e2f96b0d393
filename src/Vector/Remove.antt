-- ===== src/Vector/Remove.antt =====
-- The shift that closes the gap of a removed entry.
use libevsig.Base.{
  ℕ, suc, ◌+◌, ◌-◌, ◌<◌, ◌≡◌, refl, sym, subst, ◌∙◌, ap, ◌⊎◌, inl, inr, Bool, true, false, none,
  some, List, [], ◌∷◌, ◌++◌, Result, ok, fault, ◌>>=◌, arith, Bool-cases, Option-cases, ltb, lt→ltb,
  length, remove, rev_onto, rev_onto-append, rev_onto-rev_onto, length-rev_onto, length-append, set,
  length-set,
}
use libevsig.Memory.{
  Block, Cells, cells, freed, Stored, Stored-below, Stored-replace, Stored-length, load-Stored,
  store-lt,
}
use libevsig.Vector.Ops.{Vector, find_last, shift_down, rm_at, rm_last}
use libevsig.Vector.Invariant.{Holds, Yields}
use libevsig.Vector.Search.{position, Split, find_last-position, position-some, position-none}

module _ {ℓ} {A : Type ℓ} where
  record Shifted (m : Result (Block A)) (size : ℕ) (xs : List A) : Type ℓ where
    contents : Cells A
    result : m ≡ ok (cells contents)
    sized : length contents ≡ size
    stored : Stored contents xs

  Stored-overwrite :
      (c : Cells A) (rs : List A) (a x : A) (zs : List A)
      → Stored c (rev_onto rs (x ∷ zs))
      → Stored (set c (length zs) (some a)) (rev_onto rs (a ∷ zs))
  Stored-overwrite c rs a x zs s =
      rw (rev_onto-append rs (a ∷ zs))
        (Stored-replace c a (rev_onto rs []) x zs (rw (rev_onto-append rs (x ∷ zs)) at s))

  -- `rs` lists what lies above the gap `x`, the lowest first.
  shift_down-Shifted :
      (c : Cells A) (rs : List A) (x : A) (zs : List A)
      → Stored c (rev_onto rs (x ∷ zs))
      → Shifted (shift_down (cells c) (length rs) (length zs)) (length c) (rev_onto rs zs)
  unfolding shift_down
  shift_down-Shifted c [] x zs s = record {
    contents = c;
    result = refl;
    sized = refl;
    stored = s.1;
  }
  shift_down-Shifted c (r ∷ rs) x zs s =
      let rest =
        shift_down-Shifted (set c (length zs) (some r)) rs r (r ∷ zs)
          (Stored-overwrite c (r ∷ rs) r x zs s) in
      record {
        contents = rest.contents;
        result =
            rw (load-Stored c (length (x ∷ zs)) (two.0), store-lt c (length zs) r fits) rest.result;
        sized = rest.sized ∙ length-set c (length zs) (some r);
        stored = rest.stored;
      }
    where
      two : Stored c (r ∷ x ∷ zs)
      two = Stored-below c (rev_onto rs []) (r ∷ x ∷ zs) (rw (rev_onto-append rs (r ∷ x ∷ zs)) at s)

      fits : length zs < length c
      fits = Stored-length c (x ∷ zs) two.1

  -- The same with the list above the gap the top first, and the count as the code computes it.
  close_gap :
      (c : Cells A) (n i : ℕ) (ys : List A) (x : A) (zs : List A)
      → Stored c (ys ++ x ∷ zs)
      → i ≡ length zs
      → n ≡ length ys
      → Shifted (shift_down (cells c) n i) (length c) (ys ++ zs)
  close_gap c n i ys x zs s at_gap rounds =
      subst (λ l. Shifted (shift_down (cells c) n i) (length c) l) (rev_onto-rev_onto ys [] zs)
        (rw (at_gap, rounds, ← back)
          (shift_down-Shifted c (rev_onto ys []) x zs (rw (rev_onto-rev_onto ys [] (x ∷ zs)) s)))
    where
      back : length (rev_onto ys []) ≡ length ys
      back = omega (arith, length-rev_onto ys [])

  length-gap :
      (xs ys : List A) (x : A) (zs : List A)
      → xs ≡ ys ++ x ∷ zs
      → length xs ≡ length ys + suc (length zs)
  length-gap xs ys x zs e = rw e (length-append ys (x ∷ zs))

  run_at :
      (v : Vector A) (i : ℕ) {b d : Block A}
      → v.block ≡ b
      → shift_down b (v.fill - 1 - i) i ≡ ok d
      → rm_at v (some i) ≡ ok (record v { block = d; fill = v.fill - 1 })
  unfolding rm_at
  run_at v i {b} {d} e shifted =
      subst
        (λ m.
          (m >>= λ d'. ok (record v { block = d'; fill = v.fill - 1 }))
          ≡ ok (record v { block = d; fill = v.fill - 1 }))
        (sym (ap (λ a. shift_down a (v.fill - 1 - i) i) e ∙ shifted)) refl

module _ {ℓ} {A : Type ℓ} (p : A → Bool) where
  found :
      (v : Vector A) (xs : List A) → Holds v xs → find_last p v.block v.fill ≡ ok (position p xs)
  found v xs h = rw (h.is_block, h.filled) (find_last-position p h.contents xs h.stored)

  rm_last-some :
      (v : Vector A) (xs : List A) (i : ℕ)
      → Holds v xs
      → ltb 0 v.fill ≡ true
      → position p xs ≡ some i
      → Yields (rm_last p v) (λ w. Holds w (remove p xs))
  unfolding rm_last
  rm_last-some v xs i h nonempty e = (
    record v { block = cells gap.contents; fill = v.fill - 1 },
    rw nonempty (rw found_in_block (run_at v i h.is_block gap.result)),
    record {
      contents = gap.contents;
      is_block = refl;
      sized = gap.sized ∙ h.sized;
      filled = omega (arith, h.filled, size, ap length s.rest, length-append s.above s.below);
      has_room = h.has_room;
      stored = rw s.rest gap.stored;
    },
  )
    where
      s : Split p xs i
      s = position-some p xs i e

      size : length xs ≡ length s.above + suc (length s.below)
      size = length-gap xs s.above s.entry s.below s.whole

      found_in_block : find_last p v.block v.fill ≡ ok (some i)
      found_in_block = found v xs h ∙ ap ok e

      gap :
          Shifted
            (shift_down (cells h.contents) (v.fill - 1 - i) i)
            (length h.contents)
            (s.above ++ s.below)
      gap =
          close_gap h.contents (v.fill - 1 - i) i s.above s.entry s.below (rw s.whole at h.stored)
            s.place (omega (arith, h.filled, size, s.place))

  rm_last-none :
      (v : Vector A) (xs : List A)
      → Holds v xs
      → position p xs ≡ none
      → Yields (rm_last p v) (λ w. Holds w (remove p xs))
  unfolding rm_last rm_at
  rm_last-none v xs h e = (v, unchanged (Bool-cases (ltb 0 v.fill)), rw (position-none p xs e) h)
    where
      unchanged : (ltb 0 v.fill ≡ true) ⊎ (ltb 0 v.fill ≡ false) → rm_last p v ≡ ok v
      unchanged (inl nonempty) = rw nonempty (rw (found v xs h ∙ ap ok e))
      unchanged (inr empty) = rw empty

  -- Removal takes the topmost entry that the test accepts out of the list, and no other.
  pub rm_last-Holds :
      (v : Vector A) {xs : List A} → Holds v xs → Yields (rm_last p v) (λ w. Holds w (remove p xs))
  rm_last-Holds v {xs} h = elim (Option-cases (position p xs)) [
    | inl e ↦ rm_last-none v xs h e
    | inr (i, e) ↦ rm_last-some v xs i h (lt→ltb 0 v.fill (nonempty i e)) e
  ]
    where
      nonempty : (i : ℕ) → position p xs ≡ some i → 0 < v.fill
      nonempty i e =
          let s : Split p xs i = position-some p xs i e in
          omega (arith, h.filled, length-gap xs s.above s.entry s.below s.whole)

  -- To remove from a block that was freed is undefined behaviour.
  pub rm_last-freed :
      (v : Vector A) (n : ℕ) → v.block ≡ freed → v.fill ≡ suc n → rm_last p v ≡ fault
  unfolding rm_last
  rm_last-freed v n dangling some_left = rw (lt→ltb 0 v.fill (omega (arith, some_left)), search)
    where
      search : find_last p v.block v.fill ≡ fault
      search = rw (dangling, some_left)
