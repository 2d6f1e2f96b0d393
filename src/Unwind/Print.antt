-- ===== src/Unwind/Print.antt =====
-- `_print`, the printing for handlers of system signals; the one of
-- src/libevsig/thread_shutdown_signal.c is the same.
use libevsig.Base.{
  ℕ, zero, suc, ◌+◌, ◌<◌, ◌≡◌, ◌≢◌, refl, ◌∙◌, ap, List, [], ◌∷◌, Result, ok, hang, ◌>>=◌, ◌==◌,
  ==-ne, if◌then◌else◌, arith, length,
}
use libevsig.Memory.{Block, load}

-- The loop that counts, from the `len`-th byte on.
unfoldable pub count_bytes : ℕ → Block ℕ → ℕ → Result ℕ
unfolding load
count_bytes zero msg len = hang
count_bytes (suc fuel) msg len = do
  b ← load msg len
  if b == 0 then ok len else count_bytes fuel msg (suc len)

-- The `n` bytes from index `i` on, which `write` reads.
unfoldable pub bytes_of : Block ℕ → ℕ → ℕ → Result (List ℕ)
unfolding load
bytes_of msg i zero = ok []
bytes_of msg i (suc n) = do b ← load msg i; bs ← bytes_of msg (suc i) n; ok (b ∷ bs)

-- `write_to_stderr` is `write(STDERR_FILENO, ...)`, whose result is thrown away.
unfoldable pub print : {W : Type 0} → (List ℕ → W → W) → ℕ → Block ℕ → W → Result W
unfolding count_bytes bytes_of
print write_to_stderr fuel msg w = do
  len ← count_bytes fuel msg 0
  bs ← bytes_of msg 0 len
  ok (write_to_stderr bs w)

-- From index `i` on the memory holds these bytes, none of them 0, and a zero byte.
abbrev pub Spells : Block ℕ → ℕ → List ℕ → Type 0
Spells msg i [] = load msg i ≡ ok 0
Spells msg i (b ∷ bs) = (b ≢ 0) × (load msg i ≡ ok b) × Spells msg (suc i) bs

count_bytes-Spells :
    (fuel : ℕ) (msg : Block ℕ) (i : ℕ) (bs : List ℕ)
    → Spells msg i bs
    → length bs < fuel
    → count_bytes fuel msg i ≡ ok (i + length bs)
unfolding count_bytes
count_bytes-Spells zero msg i bs s enough = absurd (omega (arith, enough))
count_bytes-Spells (suc fuel) msg i [] ended enough = rw ended (ap (λ n. ok n) (omega arith))
count_bytes-Spells (suc fuel) msg i (b ∷ bs) (ne, there, s) enough =
    rw (there, ==-ne ne)
      (count_bytes-Spells fuel msg (suc i) bs s (omega (arith, enough))
        ∙ ap (λ n. ok n) (omega arith))

bytes_of-Spells :
    (msg : Block ℕ) (i : ℕ) (bs : List ℕ) → Spells msg i bs → bytes_of msg i (length bs) ≡ ok bs
unfolding bytes_of
bytes_of-Spells msg i [] s = refl
bytes_of-Spells msg i (b ∷ bs) (ne, there, s) = rw (there, bytes_of-Spells msg (suc i) bs s) refl

-- With more fuel than bytes, a text that ends in a zero byte is written whole, without that byte.
pub print-Spells :
    {W : Type 0} (write_to_stderr : List ℕ → W → W) (fuel : ℕ) (msg : Block ℕ) (bs : List ℕ) (w : W)
    → Spells msg 0 bs
    → length bs < fuel
    → print write_to_stderr fuel msg w ≡ ok (write_to_stderr bs w)
unfolding print
print-Spells write_to_stderr fuel msg bs w s enough =
    rw (count_bytes-Spells fuel msg 0 bs s enough, zero_add, bytes_of-Spells msg 0 bs s) refl
  where
    zero_add : 0 + length bs ≡ length bs
    zero_add = omega arith
