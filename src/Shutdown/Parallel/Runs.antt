-- ===== src/Shutdown/Parallel/Runs.antt =====
-- One statement after the other, the growth and the shift of a list are what they are at once.
use libevsig.Base.{
  ℕ, zero, suc, ◌+◌, ◌*◌, ◌≡◌, refl, sym, subst, inl, inr, Option, none, some, Bool, true,
  Bool-cases, Result, ok, exit, succeeded, ltb, leb, lt→ltb, le→ltb, ◌==◌, if◌then◌else◌, arith,
}
use libevsig.Memory.{Block, is_null, realloc, free, load}
use libevsig.Vector.{Vector, ok-injective}
use libevsig.Shutdown.Compact.{skip, move_back, shift_out, compact}
use libevsig.Shutdown.Ops.{grow_list, free_if_empty, drop_from}
use libevsig.Shutdown.Parallel.Moves.{
  testing_room, raising, rounds, skipping, moving, cutting, testing_empty, freeing_block,
  nulling_list, grow_step, shift_step,
}

-- From a statement and a list, the statements that are left lead to the last list.
pub data Runs {P V : Type 0} (step : P → V → Result (Option P × V)) : P → V → V → Type 0 where
  last : {p : P} {v w : V} → step p v ≡ ok (none, w) → Runs step p v w
  more : {p q : P} {v u w : V} → step p v ≡ ok (some q, u) → Runs step q u w → Runs step p v w

module _ {A : Type 0} where
  pub grow_list-Runs :
      (v w : Vector A) → grow_list true v ≡ ok w → Runs (grow_step true) testing_room v w
  unfolding grow_list grow_step
  grow_list-Runs v w grown = elim (Bool-cases (leb v.alloc v.fill)) [
    | inl full ↦
        let n = if v.alloc == 0 then 8 else v.alloc * 2 in
        let (b, (got, kept)) = succeeded _ (realloc true v.block n) (sym (rw full at grown)) in
        elim (Bool-cases (is_null b)) [
          | inl refused ↦ let bad : exit 1 ≡ ok w = rw refused at kept in cc
          | inr real ↦
              subst (Runs (grow_step true) testing_room v) (ok-injective (rw real at kept)) (
                more {q = raising} {u = v} (rw full refl) (
                  more {u = record v { alloc = n }} refl
                    (last {w = record v { alloc = n; block = b }} (rw (got, real) refl))))
        ]
    | inr fits ↦
        subst (Runs (grow_step true) testing_room v) (ok-injective (rw fits at grown))
          (last {w = v} (rw fits refl))
  ]

  module _ (p : A → Bool) where
    skip-Runs :
        (fuel i shift n : ℕ) (v w : Vector A)
        → skip p v.block v.fill i fuel shift ≡ ok n
        → Runs (shift_step p) (moving i n) v w
        → Runs (shift_step p) (skipping i shift) v w
    unfolding skip shift_step
    skip-Runs zero i shift n v w done rest = cc
    skip-Runs (suc fuel) i shift n v w done rest = elim (Bool-cases (ltb (i + shift) v.fill)) [
      | inl within ↦
          let (a, (loaded, branch)) =
            succeeded _ (load v.block (i + shift)) (sym (rw within at done)) in
          elim (Bool-cases (p a)) [
            | inl match ↦
                more (rw (within, loaded, match) refl)
                  (skip-Runs fuel i (shift + 1) n v w (rw match at branch) rest)
            | inr differs ↦ more (rw (within, loaded, differs) refl) (
                subst (λ k. Runs (shift_step p) (moving i k) v w)
                  (sym (ok-injective (rw differs at branch))) rest)
          ]
      | inr out ↦ more (rw out refl) (
          subst (λ k. Runs (shift_step p) (moving i k) v w) (sym (ok-injective (rw out at done)))
            rest)
    ]

    shift_out-Runs :
        (n i shift alloc fill last_shift : ℕ) (b c : Block A) (w : Vector A)
        → shift_out p b fill n i shift ≡ ok (last_shift, c)
        → i + n ≡ fill
        → Runs
            (shift_step p)
            (cutting last_shift)
            (record { block = c; alloc = alloc; fill = fill })
            w
        → Runs (shift_step p) (rounds i shift) (record { block = b; alloc = alloc; fill = fill }) w
    unfolding shift_out shift_step
    shift_out-Runs zero i shift alloc fill last_shift b c w done end rest =
        more (rw (le→ltb i fill (omega (arith, end))) refl) (
          subst
            (λ r.
              Runs (shift_step p) (cutting (r.0))
                (record { block = r.1; alloc = alloc; fill = fill }) w)
            (sym (ok-injective done)) rest)
    shift_out-Runs (suc n) i shift alloc fill last_shift b c w done end rest =
        let (next, (skipped, left)) = succeeded _ (skip p b fill i (suc fill) shift) (sym done) in
        let (d, (moved, later)) = succeeded _ (move_back p b fill i next) (sym left) in
        more (rw (lt→ltb i fill (omega (arith, end))) refl) (
          skip-Runs (suc fill) i shift next (record { block = b; alloc = alloc; fill = fill }) w
            skipped
            (more (rw moved refl) (
              shift_out-Runs n (suc i) next alloc fill last_shift d c w later (omega (arith, end))
                rest)))

    emptied-Runs : (v w : Vector A) → free_if_empty v ≡ ok w → Runs (shift_step p) testing_empty v w
    unfolding free_if_empty shift_step
    emptied-Runs v w done = elim (Bool-cases (v.fill == 0)) [
      | inl empty ↦
          let (b, (gone, made)) = succeeded _ (free v.block) (sym (rw empty at done)) in
          subst (Runs (shift_step p) testing_empty v) (ok-injective made) (
            more {q = freeing_block} {u = v} (rw empty refl) (
              more {q = nulling_list} {u = record v { block = b }} (rw gone refl)
                (more refl (more refl (last refl)))))
      | inr left ↦
          subst (Runs (shift_step p) testing_empty v) (ok-injective (rw left at done))
            (last {w = v} (rw left refl))
    ]

    pub drop_from-Runs :
        (v w : Vector A) → drop_from p v ≡ ok w → Runs (shift_step p) (rounds 0 0) v w
    unfolding drop_from compact shift_step
    drop_from-Runs v w done =
        let (u, (compacted, emptied)) = succeeded free_if_empty (compact p v) (sym done) in
        let (r, (shifted, made)) =
          succeeded _ (shift_out p v.block v.fill v.fill 0 0) (sym compacted) in
        shift_out-Runs v.fill 0 0 v.alloc v.fill r.0 v.block r.1 w shifted (omega arith) (
          more refl (
            emptied-Runs _ w
              (subst (λ x. free_if_empty x ≡ ok w) (sym (ok-injective made)) emptied)))
