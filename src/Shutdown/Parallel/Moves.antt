-- ===== src/Shutdown/Parallel/Moves.antt =====
-- The statements that grow one of the two lists, and those that shift entries out of it, one at a time.
use libevsig.Base.{
  ℕ, suc, ◌+◌, ◌-◌, ◌*◌, Option, none, some, Bool, Result, ok, exit, ◌>>=◌, ltb, leb, ◌==◌,
  if◌then◌else◌,
}
use libevsig.Memory.{null, is_null, realloc, free, load}
use libevsig.Vector.{Vector}
use libevsig.Shutdown.Compact.{move_back}

-- `if (fill >= alloc)`; the new `alloc`; `list = realloc(...)` with the test of its result.
pub data Growth : Type 0 where
  testing_room raising reallocating : Growth

-- With the variables `i` and `shift`: the test of the outer loop, that of the inner loop, and the move;
-- `fill -= shift`; `if (!fill)`; and the four statements under it.
pub data Shift : Type 0 where
  rounds skipping moving : ℕ → ℕ → Shift
  cutting : ℕ → Shift
  testing_empty freeing_block nulling_list zeroing_alloc zeroing_fill : Shift

module _ {ℓ} {A : Type ℓ} where
  -- What a statement does to the list, and the next one, if there is one. A null from `realloc` ends the
  -- process.
  unfoldable pub grow_step : Bool → Growth → Vector A → Result (Option Growth × Vector A)
  unfolding realloc
  grow_step room testing_room v = ok (if leb v.alloc v.fill then some raising else none, v)
  grow_step room raising v =
      ok (some reallocating, record v { alloc = if v.alloc == 0 then 8 else v.alloc * 2 })
  grow_step room reallocating v = do
    b ← realloc room v.block v.alloc
    if is_null b then exit 1 else ok (none, record v { block = b })

  -- The same for the statements that shift the entries out that match.
  unfoldable pub shift_step : (A → Bool) → Shift → Vector A → Result (Option Shift × Vector A)
  unfolding load move_back free
  shift_step p (rounds i shift) v =
      ok (some (if ltb i v.fill then skipping i shift else cutting shift), v)
  shift_step p (skipping i shift) v =
      if ltb (i + shift) v.fill
      then (do
        a ← load v.block (i + shift)
        ok (some (if p a then skipping i (shift + 1) else moving i shift), v))
      else ok (some (moving i shift), v)
  shift_step p (moving i shift) v = do
    b ← move_back p v.block v.fill i shift
    ok (some (rounds (suc i) shift), record v { block = b })
  shift_step p (cutting shift) v = ok (some testing_empty, record v { fill = v.fill - shift })
  shift_step p testing_empty v = ok (if v.fill == 0 then some freeing_block else none, v)
  shift_step p freeing_block v = do b ← free v.block; ok (some nulling_list, record v { block = b })
  shift_step p nulling_list v = ok (some zeroing_alloc, record v { block = null })
  shift_step p zeroing_alloc v = ok (some zeroing_fill, record v { alloc = 0 })
  shift_step p zeroing_fill v = ok (none, record v { fill = 0 })
