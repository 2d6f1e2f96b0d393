-- ===== src/Vector/Invariant.antt =====
-- The invariant of a growing array, and what a push does under it.
use libevsig.Base.{
  ℕ, ◌+◌, ◌*◌, ◌<◌, ◌≡◌, refl, ◌∙◌, sym, subst, inl, inr, true, false, none, List, [], ◌∷◌, Result,
  ok, exit, arith, Bool-cases, ltb, ltb→le, length, get_elem?, set, length-set, replicate, some,
}
use libevsig.Memory.{
  Cells, cells, realloc, resize, Stored, Stored-length, Stored-push, length-resize, Stored-resize,
  store-lt, load, load-Stored,
}
use libevsig.Vector.Ops.{Vector, grow, append, push_back}

-- The vector holds these entries, the top first, in a live block of `alloc` cells.
pub record Holds {ℓ} {A : Type ℓ} (v : Vector A) (xs : List A) : Type ℓ where
  pub contents : Cells A
  pub is_block : v.block ≡ cells contents
  pub sized : length contents ≡ v.alloc
  pub filled : v.fill ≡ length xs
  pub has_room : 0 < v.alloc
  pub stored : Stored contents xs

-- The computation returns a value, and the value is as the predicate says.
abbrev pub Yields {ℓ κ} : {A : Type ℓ} → Result A → (A → Type κ) → Type (ℓ ⊔ κ)
Yields {A = A} m P = (a : A) × (m ≡ ok a) × P a

pub ok-injective {ℓ} : {A : Type ℓ} {a b : A} → ok a ≡ ok b → a ≡ b
ok-injective h = cc

-- What is so of the value of a computation is so of the value that it is known to return.
pub Yields-at {ℓ κ} :
    {A : Type ℓ} {m : Result A} (P : A → Type κ) {a : A} → Yields m P → m ≡ ok a → P a
Yields-at P (b, returns, holds) h = subst P (ok-injective (sym returns ∙ h)) holds

module _ {ℓ} {A : Type ℓ} where
  -- What `allocate` makes.
  abbrev pub empty_vector : Vector A
  empty_vector = record { block = cells (replicate 32 none); alloc = 32; fill = 0 }

  pub empty-Holds : Holds empty_vector []
  empty-Holds = record {
    contents = replicate 32 none;
    is_block = refl;
    sized = refl;
    filled = refl;
    has_room = omega arith;
    stored = tt;
  }

  -- A full vector ends the process if the allocator finds no room.
  pub push_back-exit :
      (v : Vector A) (a : A) {xs : List A}
      → Holds v xs
      → v.fill ≡ v.alloc
      → push_back false v a ≡ exit 1
  unfolding push_back realloc
  push_back-exit v a h full = rw (h.is_block, full_test)
    where
      full_test : ltb v.alloc (v.fill + 1) ≡ true
      full_test = ground arith

  -- The room that a push finds.
  pub record Grown (w : Vector A) (xs : List A) : Type ℓ where
    pub holds : Holds w xs
    pub spare : w.fill < w.alloc

  -- Twice the room is room for one more.
  pub resize-Grown :
      (v : Vector A) (n : ℕ) {xs : List A} (h : Holds v xs)
      → v.alloc < n
      → Grown (record v { block = cells (resize n h.contents); alloc = n }) xs
  resize-Grown v n {xs} h more = record {
    holds = record {
      contents = resize n h.contents;
      is_block = refl;
      sized = length-resize n h.contents (omega (arith, h.sized));
      filled = h.filled;
      has_room = omega arith;
      stored = Stored-resize h.contents n xs (omega (arith, h.sized)) h.stored;
    };
    spare = omega (arith, h.filled, h.sized, Stored-length h.contents xs h.stored);
  }

  pub grow-Grown :
      (v : Vector A) {xs : List A} → Holds v xs → Yields (grow true v) (λ w. Grown w xs)
  unfolding grow
  grow-Grown v {xs} h = elim (Bool-cases (ltb v.alloc (v.fill + 1))) [
    | inl full ↦ (
      record v { block = cells (resize (v.alloc * 2) h.contents); alloc = v.alloc * 2 },
      rw (full, h.is_block),
      resize-Grown v (v.alloc * 2) h (omega (arith, h.has_room)),
    )
    | inr spare ↦ (
      v,
      rw spare,
      record { holds = h; spare = omega (arith, ltb→le v.alloc (v.fill + 1) spare) },
    )
  ]

  -- What a push writes, once there is room.
  put : {v : Vector A} {xs : List A} → Holds v xs → A → Vector A
  put {v} h a = record v { block = cells (set h.contents v.fill (some a)); fill = v.fill + 1 }

  put-Holds :
      {v : Vector A} (a : A) {xs : List A} (h : Holds v xs)
      → v.fill < v.alloc
      → Holds (put h a) (a ∷ xs)
  unfolding put
  put-Holds {v} a {xs} h spare = record {
    contents = set h.contents v.fill (some a);
    is_block = refl;
    sized = length-set h.contents v.fill (some a) ∙ h.sized;
    filled = omega (arith, h.filled);
    has_room = h.has_room;
    stored =
        subst (λ n. Stored (set h.contents n (some a)) (a ∷ xs)) (sym h.filled)
          (Stored-push h.contents a xs (omega (arith, h.filled, h.sized)) h.stored);
  }

  pub append-Holds :
      (v : Vector A) (a : A) {xs : List A}
      → Grown v xs
      → Yields (append v a) (λ w. Holds w (a ∷ xs))
  unfolding append put
  append-Holds v a {xs} g =
      let h : Holds v xs = g.holds in
      (
        put h a,
        rw (h.is_block, store-lt h.contents v.fill a (omega (arith, g.spare, h.sized))),
        put-Holds a h g.spare,
      )

  -- A push into a vector that holds `xs` returns one that holds the entry on top of `xs`.
  pub push_back-Holds :
      (v : Vector A) (a : A) {xs : List A}
      → Holds v xs
      → Yields (push_back true v a) (λ w. Holds w (a ∷ xs))
  unfolding push_back
  push_back-Holds v a h =
      let (w, grown, g) = grow-Grown v h in
      let (w', pushed, h') = append-Holds w a g in (w', rw grown pushed, h')

  Stored-unique :
      (c : Cells A) (xs ys : List A) → length xs ≡ length ys → Stored c xs → Stored c ys → xs ≡ ys
  Stored-unique c [] [] same s t = refl
  Stored-unique c [] (y ∷ ys) same s t = absurd (omega (arith, same))
  Stored-unique c (x ∷ xs) [] same s t = absurd (omega (arith, same))
  Stored-unique c (x ∷ xs) (y ∷ ys) same s t =
      let below : length xs ≡ length ys = omega (arith, same) in
      let rest = Stored-unique c xs ys below s.1 t.1 in
      let top : some (some x) ≡ some (some y) =
        sym s.0 ∙ subst (λ n. get_elem? c n ≡ some (some y)) (sym below) t.0 in
      cc

  -- A vector holds one list.
  pub Holds-unique : (v : Vector A) (xs ys : List A) → Holds v xs → Holds v ys → xs ≡ ys
  Holds-unique v xs ys h k =
      let same : h.contents ≡ k.contents =
        let e : cells h.contents ≡ cells k.contents = sym h.is_block ∙ k.is_block in cc in
      Stored-unique h.contents xs ys (sym h.filled ∙ k.filled) h.stored
        (subst (λ c. Stored c ys) (sym same) k.stored)

  -- The top of a vector, and the vector without it.
  pub load-top :
      (v : Vector A) {x : A} {xs : List A} → Holds v (x ∷ xs) → load v.block (length xs) ≡ ok x
  load-top v {xs = xs} h = rw (h.is_block, load-Stored h.contents (length xs) h.stored.0)

  pub pop-Holds :
      (v : Vector A) {x : A} {xs : List A} {n : ℕ}
      → Holds v (x ∷ xs)
      → n ≡ length xs
      → Holds (record v { fill = n }) xs
  pop-Holds v h e = record {
    contents = h.contents;
    is_block = h.is_block;
    sized = h.sized;
    filled = e;
    has_room = h.has_room;
    stored = h.stored.1;
  }
