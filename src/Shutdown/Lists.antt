-- ===== src/Shutdown/Lists.antt =====
-- What registration and its end do to the two lists of a shutdown signal.
use libevsig.Base.{
  ◌*◌, ◌<◌, ◌≡◌, refl, ◌⊎◌, inl, inr, Bool, true, none, List, [], ◌∷◌, ok, ◌>>=◌, arith, leb, ◌==◌,
  ==-ne, Bool-cases, if◌then◌else◌, length, any, replicate,
}
use libevsig.Memory.{cells, resize}
use libevsig.Vector.{
  Vector, Holds, Yields, Grown, resize-Grown, append, append-Holds, any_from, any_from-any,
}
use libevsig.Shutdown.Compact.{compact}
use libevsig.Shutdown.Rounds.{others}
use libevsig.Shutdown.Shift.{compact-Holds}
use libevsig.Shutdown.Ops.{no_entries, grow_list, free_if_empty, insert_into, drop_from}

-- A list that is allocated exactly while it has entries; the list has the newest first.
abbrev pub Tracks {ℓ} : {A : Type ℓ} → Vector A → List A → Type ℓ
Tracks v xs = (Holds v xs × (0 < length xs)) ⊎ ((v ≡ no_entries) × (xs ≡ []))

module _ {ℓ} {A : Type ℓ} where
  eight-Grown : Grown {A = A} (record { block = cells (replicate 8 none); alloc = 8; fill = 0 }) []
  eight-Grown = record {
    holds = record {
      contents = replicate 8 none;
      is_block = refl;
      sized = refl;
      filled = refl;
      has_room = omega arith;
      stored = tt;
    };
    spare = omega arith;
  }

  grow_list-Holds :
      (v : Vector A) (xs : List A) → Holds v xs → Yields (grow_list true v) (λ w. Grown w xs)
  unfolding grow_list
  grow_list-Holds v xs h = elim (Bool-cases (leb v.alloc v.fill)) [
    | inl full ↦ (
      record v { block = cells (resize (v.alloc * 2) h.contents); alloc = v.alloc * 2 },
      rw (full, doubled, h.is_block),
      resize-Grown v (v.alloc * 2) h (omega (arith, h.has_room)),
    )
    | inr spare ↦ (v, rw spare, record { holds = h; spare = ground arith })
  ]
    where
      doubled : (if v.alloc == 0 then 8 else v.alloc * 2) ≡ v.alloc * 2
      doubled = rw (==-ne {a = v.alloc} {b = 0} (omega (arith, h.has_room)))

  grow_list-Grown :
      (v : Vector A) (xs : List A) → Tracks v xs → Yields (grow_list true v) (λ w. Grown w xs)
  unfolding grow_list
  grow_list-Grown v xs (inl h) = grow_list-Holds v xs h.0
  grow_list-Grown v xs (inr e) =
      (record { block = cells (replicate 8 none); alloc = 8; fill = 0 }, rw e.0, rw e.1 eight-Grown)

  append-Tracks :
      (v : Vector A) (a : A) (xs : List A)
      → Grown v xs
      → Yields (append v a) (λ w. Tracks w (a ∷ xs))
  append-Tracks v a xs g =
      let (w, appended, h) = append-Holds v a g in (w, appended, inl (h, omega arith))

  free_if_empty-Tracks :
      (v : Vector A) (xs : List A)
      → Holds v xs
      → v.fill ≡ length xs
      → Yields (free_if_empty v) (λ w. Tracks w xs)
  unfolding free_if_empty
  free_if_empty-Tracks v [] h filled = (no_entries, rw (filled, h.is_block), inr (refl, refl))
  free_if_empty-Tracks v (x ∷ xs) h filled =
      (v, rw (==-ne {a = v.fill} {b = 0} (omega arith)), inl (h, omega arith))

  null-drops : (p : A → Bool) → (compact p no_entries >>= free_if_empty) ≡ ok no_entries
  unfolding compact free_if_empty
  null-drops p = refl

  -- Shifting out and freeing, as the two operations do them one after the other.
  pub drop_from-Tracks :
      (p : A → Bool) (v : Vector A) (xs : List A)
      → Tracks v xs
      → Yields (drop_from p v) (λ w. Tracks w (others p xs))
  unfolding drop_from
  drop_from-Tracks p v xs (inl h) =
      let (w, shifted, post) = compact-Holds p v xs h.0 in
      let (u, kept, tracked) = free_if_empty-Tracks w (others p xs) post.0 post.1 in
      (u, rw shifted kept, tracked)
  drop_from-Tracks p v xs (inr e) = (no_entries, rw e.0 (null-drops p), inr (refl, rw e.1))

  pub insert_into-Tracks :
      (v : Vector A) (a : A) (xs : List A)
      → Tracks v xs
      → Yields (insert_into true v a) (λ w. Tracks w (a ∷ xs))
  unfolding insert_into
  insert_into-Tracks v a xs tracked =
      let (w, grown, g) = grow_list-Grown v xs tracked in
      let (u, appended, post) = append-Tracks w a xs g in (u, rw grown appended, post)

  -- The search for duplicates.
  pub any_from-Tracks :
      (p : A → Bool) (v : Vector A) (xs : List A)
      → Tracks v xs
      → any_from p v.block v.fill 0 ≡ ok (any p xs)
  unfolding any_from
  any_from-Tracks p v xs (inl h) =
      rw (h.0.is_block, h.0.filled) (any_from-any p h.0.contents xs h.0.stored)
  any_from-Tracks p v xs (inr e) = rw (e.0, e.1)
