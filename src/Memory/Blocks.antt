-- ===== src/Memory/Blocks.antt =====
-- A block of cells behind one pointer, with malloc, realloc, free and the two accesses. A cell that
-- has not been written is `none`, and to read it is undefined behaviour, as is any access through a
-- null or a dangling pointer, any access out of range, and a second free.
use libevsig.Base.{
  ℕ, ◌-◌, Bool, true, false, Option, none, some, List, ◌++◌, Result, ok, fault, ltb, if◌then◌else◌,
  length, get_elem?, set, take, replicate,
}

abbrev pub Cells {ℓ} : Type ℓ → Type ℓ
Cells A = List (Option A)

pub data Block {ℓ} (A : Type ℓ) : Type ℓ where
  null : Block A
  freed : Block A
  cells : Cells A → Block A

module _ {ℓ} {A : Type ℓ} where
  -- The first argument says whether the allocator finds the room: if not, the result is null.
  unfoldable pub malloc : Bool → ℕ → Block A
  malloc true n = cells (replicate n none)
  malloc false n = null

  unfoldable pub resize : ℕ → Cells A → Cells A
  resize n c = take n c ++ replicate (n - length c) none

  unfoldable pub realloc : Bool → Block A → ℕ → Result (Block A)
  unfolding malloc
  realloc room null n = ok (malloc room n)
  realloc room freed n = fault
  realloc true (cells c) n = ok (cells (resize n c))
  realloc false (cells c) n = ok null

  -- What the pointer is afterwards.
  unfoldable pub free : Block A → Result (Block A)
  free null = ok null
  free freed = fault
  free (cells c) = ok freed

  abbrev pub is_null : Block A → Bool
  is_null null = true
  is_null freed = false
  is_null (cells c) = false

  abbrev pub written : Option (Option A) → Result A
  written (some (some a)) = ok a
  written (some none) = fault
  written none = fault

  unfoldable pub load : Block A → ℕ → Result A
  load null i = fault
  load freed i = fault
  load (cells c) i = written (get_elem? c i)

  unfoldable pub store : Block A → ℕ → A → Result (Block A)
  store null i a = fault
  store freed i a = fault
  store (cells c) i a = if ltb i (length c) then ok (cells (set c i (some a))) else fault
