-- ===== src/Vector/Ops.antt =====
-- The loops and the growth that the stacks' functions are made of.
use libevsig.Base.{
  ℕ, zero, suc, ◌+◌, ◌-◌, ◌*◌, Bool, true, false, Option, none, some, Result, ok, exit, ◌>>=◌, ltb,
  if◌then◌else◌,
}
use libevsig.Memory.{Block, malloc, realloc, load, store, is_null}

-- `sig_handler_stack`, `sig_handler_stack_alloc` and `sig_handler_stack_fill`, and the like.
pub record Vector {ℓ} (A : Type ℓ) : Type ℓ where
  pub block : Block A
  pub alloc : ℕ
  pub fill : ℕ

module _ {ℓ} {A : Type ℓ} where
  -- An empty stack with room for 32 entries; the process ends if there is no memory.
  unfoldable pub allocate : Bool → Result (Vector A)
  unfolding malloc
  allocate room =
      let b : Block A = malloc room 32 in
      if is_null b then exit 1 else ok (record { block = b; alloc = 32; fill = 0 })

  -- Twice the room, if one more entry does not fit.
  unfoldable pub grow : Bool → Vector A → Result (Vector A)
  unfolding realloc
  grow room v =
      if ltb v.alloc (v.fill + 1)
      then (do
        b ← realloc room v.block (v.alloc * 2)
        if is_null b then exit 1 else ok (record v { block = b; alloc = v.alloc * 2 }))
      else ok v

  -- `stack[fill++] = a`
  unfoldable pub append : Vector A → A → Result (Vector A)
  unfolding store
  append v a = do b ← store v.block v.fill a; ok (record v { block = b; fill = v.fill + 1 })

  unfoldable pub push_back : Bool → Vector A → A → Result (Vector A)
  unfolding grow append
  push_back room v a = do v' ← grow room v; append v' a

  -- The highest index below `n` at which the test holds: `for (i = n-1; i >= 0; i--)`.
  unfoldable pub find_last : (A → Bool) → Block A → ℕ → Result (Option ℕ)
  unfolding load
  find_last p b zero = ok none
  find_last p b (suc i) = do a ← load b i; if p a then ok (some i) else find_last p b i

  -- Whether the test holds at one of the `n` indices from `i` on.
  unfoldable pub any_from : (A → Bool) → Block A → ℕ → ℕ → Result Bool
  unfolding load
  any_from p b zero i = ok false
  any_from p b (suc n) i = do a ← load b i; if p a then ok true else any_from p b n (suc i)

  -- `a[i] = a[i+1]` for the `n` indices from `i` on.
  unfoldable pub shift_down : Block A → ℕ → ℕ → Result (Block A)
  unfolding load store
  shift_down b zero i = ok b
  shift_down b (suc n) i = do a ← load b (suc i); b' ← store b i a; shift_down b' n (suc i)

  -- What follows the search: `fill-1-i` entries move down by one.
  unfoldable pub rm_at : Vector A → Option ℕ → Result (Vector A)
  rm_at v none = ok v
  rm_at v (some i) = do
    b ← shift_down v.block (v.fill - 1 - i) i
    ok (record v { block = b; fill = v.fill - 1 })

  -- The topmost entry that the test accepts is shifted out.
  unfoldable pub rm_last : (A → Bool) → Vector A → Result (Vector A)
  unfolding find_last shift_down rm_at
  rm_last p v = if ltb 0 v.fill then find_last p v.block v.fill >>= rm_at v else ok v
