-- ===== src/Send/Backtrace.antt =====
-- The backtrace of `catchall_handler`: which addresses it shows, and the array that it collects them in.
use libevsig.Base.{
  ℕ, suc, ◌+◌, ◌≤◌, ◌<◌, ◌≡◌, ◌⊎◌, refl, inl, inr, Bool-cases, Option, none, some, List, [], ◌∷◌,
  Result, ok, fault, ◌>>=◌, ltb, le→ltb, ltb→lt, ltb→le, ◌==◌, if◌then◌else◌, arith, length, take,
  drop, set, replicate, length-set, length-replicate,
}
use libevsig.Memory.{Block, Cells, cells, store, store-lt}

-- What `dladdr` tells of an address; a name is the bytes of a string, or null.
pub record DlInfo : Type 0 where
  pub dli_fname : Option (List ℕ)
  pub dli_sname : Option (List ℕ)

-- `frame_info`; `snprintf` cuts a name at 255 bytes.
pub record FrameInfo : Type 0 where
  pub addr : ℕ
  pub func : List ℕ
  pub lib : List ℕ

-- "???"
abbrev unknown_name : List ℕ
unknown_name = 63 ∷ 63 ∷ 63 ∷ []

abbrev named : Option (List ℕ) → List ℕ
named none = unknown_name
named (some name) = name

unfoldable pub frame_of : Option DlInfo → ℕ → FrameInfo
frame_of none a = record { addr = a; func = unknown_name; lib = unknown_name }
frame_of (some info) a = record {
  addr = a;
  func = take 255 (named info.dli_sname);
  lib = take 255 (named info.dli_fname);
}

-- The index behind the first address that is the return address; `i` addresses came before.
unfoldable pub start_from : ℕ → ℕ → List ℕ → ℕ
start_from start_addr i [] = 0
start_from start_addr i (a ∷ addrs) =
    if a == start_addr then suc i else start_from start_addr (suc i) addrs

-- `if (flen > max_func) max_func = flen;`
abbrev wider : ℕ → List ℕ → ℕ
wider most name = if ltb most (length name) then length name else most

-- The loop that fills `frames` from index `i` on; the result is the array and the two widths.
unfoldable pub collect :
    (ℕ → Option DlInfo) → List ℕ → ℕ → Block FrameInfo → ℕ → ℕ → Result (Block FrameInfo × ℕ × ℕ)
unfolding frame_of store
collect dladdr [] i frames max_func max_lib = ok (frames, max_func, max_lib)
collect dladdr (a ∷ addrs) i frames max_func max_lib =
    let f = frame_of (dladdr a) a in
    store frames i f >>= λ frames'.
    collect dladdr addrs (suc i) frames' (wider max_func f.func) (wider max_lib f.lib)

abbrev max_frames : ℕ
max_frames = 64

-- The addresses of `backtrace` and the return address of the handler, null or not.
unfoldable pub backtrace_frames :
    (ℕ → Option DlInfo) → List ℕ → ℕ → Result (Block FrameInfo × ℕ × ℕ)
unfolding start_from collect
backtrace_frames dladdr addrs start_addr =
    let start = if start_addr == 0 then 0 else start_from start_addr 0 addrs in
    collect dladdr (drop start addrs) 0 (cells (replicate max_frames none)) 0 0

-- The addresses that are shown.
abbrev pub shown : List ℕ → ℕ → List ℕ
shown addrs start_addr = drop (if start_addr == 0 then 0 else start_from start_addr 0 addrs) addrs

store-past :
    (c : Cells FrameInfo) (i : ℕ) (f : FrameInfo) → length c ≤ i → store (cells c) i f ≡ fault
unfolding store
store-past c i f past = rw (le→ltb i (length c) past) refl

collect-fault :
    (dladdr : ℕ → Option DlInfo) (addrs : List ℕ) (i : ℕ) (c : Cells FrameInfo)
    (max_func max_lib : ℕ)
    → i ≤ length c
    → length c < i + length addrs
    → collect dladdr addrs i (cells c) max_func max_lib ≡ fault
unfolding collect
collect-fault dladdr [] i c max_func max_lib inside more = absurd (omega arith)
collect-fault dladdr (a ∷ addrs) i c max_func max_lib inside more =
    let f = frame_of (dladdr a) a in
    elim (Bool-cases (ltb i (length c))) [
      | inl fits ↦
          let same = length-set c i (some f) in
          let lt = ltb→lt i (length c) fits in
          rw (store-lt c i f lt) (
            collect-fault dladdr addrs (suc i) (set c i (some f)) _ _ (omega (arith, lt, same))
              (omega (arith, same)))
      | inr full ↦ rw (store-past c i f (ltb→le i (length c) full)) refl
    ]

collect-ok :
    (dladdr : ℕ → Option DlInfo) (addrs : List ℕ) (i : ℕ) (c : Cells FrameInfo)
    (max_func max_lib : ℕ)
    → i + length addrs ≤ length c
    → (r : Block FrameInfo × ℕ × ℕ) × (collect dladdr addrs i (cells c) max_func max_lib ≡ ok r)
unfolding collect
collect-ok dladdr [] i c max_func max_lib fits = ((cells c, max_func, max_lib), refl)
collect-ok dladdr (a ∷ addrs) i c max_func max_lib fits =
    let f = frame_of (dladdr a) a in
    let same = length-set c i (some f) in
    let (r, rest) =
      collect-ok dladdr addrs (suc i) (set c i (some f)) (wider max_func f.func)
        (wider max_lib f.lib) (omega (arith, fits, same)) in
    (r, rw (store-lt c i f (omega (arith, fits))) rest)

-- The backtrace of a signal that nobody handles is collected in an array of 64 frames: with at most
-- 64 addresses to show all stores are within it, and with more of them one is stored behind its end.
pub backtrace_frames-fits :
    (dladdr : ℕ → Option DlInfo) (addrs : List ℕ) (start_addr : ℕ)
    → ((length (shown addrs start_addr) ≤ 64)
        × (r : Block FrameInfo × ℕ × ℕ) × (backtrace_frames dladdr addrs start_addr ≡ ok r))
      ⊎ ((64 < length (shown addrs start_addr))
          × (backtrace_frames dladdr addrs start_addr ≡ fault))
unfolding backtrace_frames
backtrace_frames-fits dladdr addrs start_addr =
    let room = length-replicate {A = Option FrameInfo} 64 none in
    let empty = replicate {A = Option FrameInfo} max_frames none in
    elim (Bool-cases (ltb 64 (length (shown addrs start_addr)))) [
      | inl more ↦
          let lt = ltb→lt 64 (length (shown addrs start_addr)) more in
          inr (
            lt,
            collect-fault dladdr (shown addrs start_addr) 0 empty 0 0 (omega arith)
                (omega (arith, lt, room)),
          )
      | inr few ↦
          let le = ltb→le 64 (length (shown addrs start_addr)) few in
          let (r, done) =
            collect-ok dladdr (shown addrs start_addr) 0 empty 0 0 (omega (arith, le, room)) in
          inl (le, r, done)
    ]
