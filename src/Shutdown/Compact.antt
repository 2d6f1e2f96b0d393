-- ===== src/Shutdown/Compact.antt =====
-- The loop of `evsig_thread_shutdown_signal_confirm_shutdown` and of
-- `evsig_thread_shutdown_signal_unregister_cb` that shifts every match out of an array.
use libevsig.Base.{ℕ, zero, suc, ◌+◌, ◌-◌, Bool, ◌&&◌, Result, ok, hang, ◌>>=◌, ltb, if◌then◌else◌}
use libevsig.Memory.{Block, load, store}
use libevsig.Vector.{Vector}

module _ {ℓ} {A : Type ℓ} (p : A → Bool) where
  -- `while (i+shift < fill && list[i+shift] matches) shift++`, on fuel.
  unfoldable pub skip : Block A → ℕ → ℕ → ℕ → ℕ → Result ℕ
  unfolding load
  skip b fill i zero shift = hang
  skip b fill i (suc fuel) shift =
      let on_match = skip b fill i fuel (shift + 1) in
      if ltb (i + shift) fill
      then (do a ← load b (i + shift); if p a then on_match else ok shift)
      else ok shift

  -- `if (shift && i+shift < fill) list[i] = list[i+shift]`
  unfoldable pub move_back : Block A → ℕ → ℕ → ℕ → Result (Block A)
  unfolding load store
  move_back b fill i shift =
      if ltb 0 shift && ltb (i + shift) fill then (do a ← load b (i + shift); store b i a) else ok b

  -- The `n` rounds of the outer loop from index `i` on.
  unfoldable pub shift_out : Block A → ℕ → ℕ → ℕ → ℕ → Result (ℕ × Block A)
  unfolding skip move_back
  shift_out b fill zero i shift = ok (shift, b)
  shift_out b fill (suc n) i shift = do
    shift' ← skip b fill i (suc fill) shift
    b' ← move_back b fill i shift'
    shift_out b' fill n (suc i) shift'

  -- `fill -= shift`
  unfoldable pub compact : Vector A → Result (Vector A)
  unfolding shift_out
  compact v = do
    (shift, b) ← shift_out v.block v.fill v.fill 0 0
    ok (record v { block = b; fill = v.fill - shift })
