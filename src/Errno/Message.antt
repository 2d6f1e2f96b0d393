-- ===== src/Errno/Message.antt =====
-- `str_from_errno`: the text of an error in the thread's buffer.
use libevsig.Base.{
  ℕ, zero, suc, ◌+◌, ◌<◌, ◌≤◌, ◌≡◌, ◌≢◌, refl, ◌∙◌, ap, sym, List, [], ◌∷◌, ◌++◌, append_assoc,
  true, Result, ok, ◌>>=◌, ltb, lt→ltb, ◌==◌, ==-ne, if◌then◌else◌, arith, length, set, take,
  length-append,
}
use libevsig.Vector.{Yields}

-- The bytes `bs` are stored from index `i` on; a store out of range is undefined.
unfoldable pub write : List ℕ → ℕ → List ℕ → Result (List ℕ)
write buf i [] = ok buf
write buf i (b ∷ bs) =
    let rest = write (set buf i b) (suc i) bs in if ltb i (length buf) then rest else Result.fault

-- The bytes before the first that is 0.
abbrev pub c_string : List ℕ → List ℕ
c_string [] = []
c_string (b ∷ bs) = if b == 0 then [] else b ∷ c_string bs

abbrev pub strlen : List ℕ → ℕ
strlen buf = length (c_string buf)

unfoldable pub strncat : List ℕ → List ℕ → ℕ → Result (List ℕ)
unfolding write
strncat buf src n = write buf (strlen buf) (take n src ++ 0 ∷ [])

-- `buf` is `prefixed_str`. `strerror_r` gives the text for an error number and a size.
unfoldable pub str_from_errno : (ℕ → ℕ → List ℕ) → List ℕ → List ℕ → ℕ → Result (List ℕ)
unfolding write strncat
str_from_errno strerror_r buf prefix errno_in = do
  emptied ← write buf 0 (0 ∷ [])
  prefixed ← strncat emptied prefix 256
  write prefixed (strlen prefixed) (strerror_r errno_in 767 ++ 0 ∷ [])

-- No byte is 0.
abbrev pub IsString : List ℕ → Type 0
IsString [] = Unit
IsString (b ∷ bs) = (b ≢ 0) × IsString bs

IsString-take : (n : ℕ) (bs : List ℕ) → IsString bs → IsString (take n bs)
IsString-take zero bs s = tt
IsString-take (suc n) [] s = tt
IsString-take (suc n) (b ∷ bs) s = (s.0, IsString-take n bs s.1)

IsString-append : (xs bs : List ℕ) → IsString xs → IsString bs → IsString (xs ++ bs)
IsString-append [] bs s t = t
IsString-append (x ∷ xs) bs s t = (s.0, IsString-append xs bs s.1 t)

length-take_le : (n : ℕ) (bs : List ℕ) → length (take n bs) ≤ n
length-take_le zero bs = omega arith
length-take_le (suc n) [] = omega arith
length-take_le (suc n) (b ∷ bs) = omega (arith, length-take_le n bs)

c_string-ended : (xs rest : List ℕ) → IsString xs → c_string (xs ++ 0 ∷ rest) ≡ xs
c_string-ended [] rest s = refl
c_string-ended (x ∷ xs) rest s = rw (==-ne s.0) (ap (λ l. x ∷ l) (c_string-ended xs rest s.1))

set-append :
    (pre : List ℕ) (o b : ℕ) (old : List ℕ) → set (pre ++ o ∷ old) (length pre) b ≡ pre ++ b ∷ old
set-append [] o b old = refl
set-append (p ∷ pre) o b old = ap (λ l. p ∷ l) (set-append pre o b old)

-- Bytes that fit replace as many of those from there on.
record Written (pre bytes old : List ℕ) (run : Result (List ℕ)) : Type 0 where
  rest : List ℕ
  result : run ≡ ok (pre ++ (bytes ++ rest))
  sized : length bytes + length rest ≡ length old

write-Written :
    (pre bytes old : List ℕ)
    → length bytes ≤ length old
    → Written pre bytes old (write (pre ++ old) (length pre) bytes)
unfolding write
write-Written pre [] old fits = record { rest = old; result = refl; sized = omega arith }
write-Written pre (b ∷ bytes) [] fits = absurd (omega arith)
write-Written pre (b ∷ bytes) (o ∷ old) fits =
    let w = write-Written (pre ++ b ∷ []) bytes old (omega arith) in
    let inside : ltb (length pre) (length (pre ++ o ∷ old)) ≡ true =
      lt→ltb (length pre) (length (pre ++ o ∷ old)) (omega (arith, length-append pre (o ∷ old))) in
    let next : length (pre ++ b ∷ []) ≡ suc (length pre) =
      omega (arith, length-append pre (b ∷ [])) in
    record {
      rest = w.rest;
      result =
          rw (inside, set-append pre o b old)
            (rw (append_assoc pre (b ∷ []) old, append_assoc pre (b ∷ []) (bytes ++ w.rest), next)
              at w.result);
      sized = omega (arith, w.sized);
    }

-- A string is put behind the one in the buffer, with its end.
record Appended (size : ℕ) (text : List ℕ) (run : Result (List ℕ)) : Type 0 where
  rest : List ℕ
  result : run ≡ ok (text ++ 0 ∷ rest)
  sized : length (text ++ 0 ∷ rest) ≡ size

write-Appended :
    (xs rest bytes : List ℕ)
    → IsString xs
    → length bytes ≤ length rest
    → Appended
        (length (xs ++ 0 ∷ rest))
        (xs ++ bytes)
        (write (xs ++ 0 ∷ rest) (strlen (xs ++ 0 ∷ rest)) (bytes ++ 0 ∷ []))
write-Appended xs rest bytes s fits =
    let ended = length-append bytes (0 ∷ []) in
    let w = write-Written xs (bytes ++ 0 ∷ []) (0 ∷ rest) (omega (arith, ended)) in
    record {
      rest = w.rest;
      result = rw (c_string-ended xs rest s) (
          w.result
          ∙ ap (λ l. ok (xs ++ l)) (append_assoc bytes (0 ∷ []) w.rest)
          ∙ ap ok (sym (append_assoc xs bytes (0 ∷ w.rest))));
      sized = omega (
        arith,
        w.sized,
        ended,
        length-append xs (0 ∷ rest),
        length-append (xs ++ bytes) (0 ∷ w.rest),
        length-append xs bytes,
      );
    }

-- For an error text without the byte 0 that is shorter than the size it is asked for, and whatever
-- the buffer of 1024 bytes held before: all stores of `str_from_errno` are within the buffer, and the
-- string in it is then the first 256 bytes of the prefix, or all of it, and the whole error text.
pub str_from_errno-c_string :
    (strerror_r : ℕ → ℕ → List ℕ) (buf prefix : List ℕ) (errno_in : ℕ)
    → length buf ≡ 1024
    → IsString prefix
    → IsString (strerror_r errno_in 767)
    → length (strerror_r errno_in 767) < 767
    → Yields
        (str_from_errno strerror_r buf prefix errno_in)
        (λ b. (length b ≡ 1024) × (c_string b ≡ take 256 prefix ++ strerror_r errno_in 767))
unfolding str_from_errno strncat
str_from_errno-c_string strerror_r buf prefix errno_in sized s text short =
    let p = take 256 prefix in
    let m = strerror_r errno_in 767 in
    let p_string = IsString-take 256 prefix s in
    let one = write-Written [] (0 ∷ []) buf (omega (arith, sized)) in
    let two =
      write-Appended [] one.rest p tt
        (omega (arith, sized, one.sized, length-take_le 256 prefix)) in
    let three = write-Appended p two.rest m p_string (
      omega (
        arith,
        sized,
        one.sized,
        two.sized,
        short,
        length-append p (0 ∷ two.rest),
        length-take_le 256 prefix,
      )) in
    (
      (p ++ m) ++ 0 ∷ three.rest,
      rw (one.result, two.result) three.result,
      (
        omega (arith, sized, one.sized, two.sized, three.sized),
        c_string-ended (p ++ m) three.rest (IsString-append p m p_string text),
      ),
    )
