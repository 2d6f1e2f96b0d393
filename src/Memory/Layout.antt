-- ===== src/Memory/Layout.antt =====
-- A stack of values laid out in a block from index 0 up, the list having the top first.
use libevsig.Base.{
  ℕ, ◌-◌, ◌≤◌, ◌<◌, ◌≡◌, ◌∙◌, none, some, Option, List, [], ◌∷◌, ◌++◌, ok, arith, lt→ltb, length,
  set, replicate, get_elem?, length-append, length-replicate, get_elem?-lt, get_elem?-set_self,
  get_elem?-set_ne, get_elem?-append, take-all,
}
use libevsig.Memory.Blocks.{Cells, cells, resize, load, store}

module _ {ℓ} {A : Type ℓ} where
  abbrev pub Stored : Cells A → List A → Type ℓ
  Stored c [] = Unit
  Stored c (x ∷ xs) = (get_elem? c (length xs) ≡ some (some x)) × Stored c xs

  pub Stored-length : (c : Cells A) (xs : List A) → Stored c xs → length xs ≤ length c
  Stored-length c [] s = omega arith
  Stored-length c (x ∷ xs) s = get_elem?-lt c (length xs) s.0

  -- A write at or above the top is not seen.
  pub Stored-set :
      (c : Cells A) {i : ℕ} (a : A) (xs : List A)
      → length xs ≤ i
      → Stored c xs
      → Stored (set c i (some a)) xs
  Stored-set c a [] h s = tt
  Stored-set c {i} a (x ∷ xs) h s = (
    get_elem?-set_ne c {i = i} {j = length xs} (some a) (omega arith) ∙ s.0,
    Stored-set c a xs (omega arith) s.1,
  )

  pub Stored-push :
      (c : Cells A) (a : A) (xs : List A)
      → length xs < length c
      → Stored c xs
      → Stored (set c (length xs) (some a)) (a ∷ xs)
  Stored-push c a xs h s =
      (get_elem?-set_self c (length xs) (some a) h, Stored-set c a xs (omega arith) s)

  -- A write under the top replaces one value.
  pub Stored-replace :
      (c : Cells A) (a : A) (ys : List A) (x : A) (zs : List A)
      → Stored c (ys ++ x ∷ zs)
      → Stored (set c (length zs) (some a)) (ys ++ a ∷ zs)
  Stored-replace c a [] x zs s = Stored-push c a zs (Stored-length c (x ∷ zs) s) s.1
  Stored-replace c a (y ∷ ys) x zs s = (
    get_elem?-set_ne c {i = length zs} {j = length (ys ++ a ∷ zs)} (some a)
          (omega (arith, length-append ys (a ∷ zs)))
        ∙ rw same s.0,
    Stored-replace c a ys x zs s.1,
  )
    where
      same : length (ys ++ a ∷ zs) ≡ length (ys ++ x ∷ zs)
      same = omega (arith, length-append ys (a ∷ zs), length-append ys (x ∷ zs))

  pub Stored-append : (c d : Cells A) (xs : List A) → Stored c xs → Stored (c ++ d) xs
  Stored-append c d [] s = tt
  Stored-append c d (x ∷ xs) s = (get_elem?-append c d (length xs) s.0, Stored-append c d xs s.1)

  pub Stored-below : (c : Cells A) (ys xs : List A) → Stored c (ys ++ xs) → Stored c xs
  Stored-below c [] xs s = s
  Stored-below c (y ∷ ys) xs s = Stored-below c ys xs s.1

  pub length-resize : (n : ℕ) (c : Cells A) → length c ≤ n → length (resize n c) ≡ n
  unfolding resize
  length-resize n c h =
      let cell : Option A = none in
      rw (take-all n c h) (
        omega (
          arith,
          length-append c (replicate (n - length c) cell),
          length-replicate (n - length c) cell,
        ))

  pub Stored-resize :
      (c : Cells A) (n : ℕ) (xs : List A) → length c ≤ n → Stored c xs → Stored (resize n c) xs
  unfolding resize
  Stored-resize c n xs h s = rw (take-all n c h) (Stored-append c _ xs s)

  pub load-Stored :
      (c : Cells A) (i : ℕ) {x : A} → get_elem? c i ≡ some (some x) → load (cells c) i ≡ ok x
  unfolding load
  load-Stored c i e = rw e

  pub store-lt :
      (c : Cells A) (i : ℕ) (a : A)
      → i < length c
      → store (cells c) i a ≡ ok (cells (set c i (some a)))
  unfolding store
  store-lt c i a h = rw (lt→ltb i (length c) h)
