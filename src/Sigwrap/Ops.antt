-- ===== src/Sigwrap/Ops.antt =====
-- What the wrappers of system calls have in common: a call, a test of its result, a signal.
use libevsig.Base.{
  ℕ, ◌^◌, ◌-◌, ◌==◌, leb, Bool, not, List, ◌∷◌, [], Result, ok, ◌>>=◌, if◌then◌else◌,
}
use libevsig.Thread.{SigType, Thread, Program, Flow, returned, landed, thread_exited}
use libevsig.Signals.Names.{
  signal_alloc_failed, signal_fail, signal_invalid_input, signal_read_error, signal_write_error,
}
use libevsig.Send.{Message, sig_send}
use libevsig.Errno.{sig_from_errno, signal_of}
use libevsig.Errno.Names.{eof}
use libevsig.Sigwrap.Names.{Function, sys_fread, sys_fwrite, sys_fseek}

-- What a call of the system comes to: its result as a word, `errno` after it, the rest of the process.
pub record Answer (W : Type 0) : Type 0 where
  pub out : ℕ
  pub errno : ℕ
  pub world : W

-- The system: its functions, by name and arguments, and the two flags of a stream.
pub record System (W : Type 0) : Type 0 where
  pub call : Function → List ℕ → W → Answer W
  pub feof : ℕ → W → Bool
  pub ferror : ℕ → W → Bool

-- A wrapper returns a word, unless the signal that it sends is left by unwinding.
pub data Wrapped (W : Type 0) : Type 0 where
  gives : ℕ → Thread W → Wrapped W
  left : Flow W → Wrapped W

-- The tests `!out`, `out`, `out == -1`, `out == MAP_FAILED` and `out < 0`; an `int` has 32 bits.
pub data Failure : Type 0 where
  null_pointer nonzero minus_one_int minus_one_long map_failed negative_int : Failure

abbrev pub fails : Failure → ℕ → Bool
fails null_pointer out = out == 0
fails nonzero out = not (out == 0)
fails minus_one_int out = out == 2 ^ 32 - 1
fails minus_one_long out = out == 2 ^ 64 - 1
fails map_failed out = out == 2 ^ 64 - 1
fails negative_int out = leb (2 ^ 31) out

-- The signal types `SIGNAL_ALLOC_FAILED`, `SIGNAL_FAIL`, `sig_from_errno(errno)` and
-- `sig_from_errno(out)`.
pub data Report : Type 0 where
  alloc_failed general_failure errno_value returned_value : Report

unfoldable pub reported : Report → ℕ → ℕ → SigType
unfolding sig_from_errno
reported alloc_failed out errno = signal_alloc_failed
reported general_failure out errno = signal_fail
reported errno_value out errno = sig_from_errno errno errno
reported returned_value out errno = sig_from_errno errno out

-- The text of a message is named by an address, and has no signal data.
abbrev pub plain : SigType → Message
plain sig_type = record {
  sig_type = sig_type;
  msg = 1;
  signal_data = 0;
  signal_data_cleanup_func = 0;
}

module _ {W : Type 0} where
  abbrev pub and_then : (Thread W → Result (Wrapped W)) → Flow W → Result (Wrapped W)
  and_then k (returned t) = k t
  and_then k (landed p t) = ok (left (landed p t))
  and_then k (thread_exited t) = ok (left (thread_exited t))

module _ {W : Type 0} (prog : Program W) (sys : System W) (fuel : ℕ) where
  -- `if (...) SIG_SEND(...); return out;`
  unfoldable pub checked : Function → Failure → Report → List ℕ → Thread W → Result (Wrapped W)
  unfolding reported sig_send
  checked f failure report args t =
      let a = sys.call f args t.world in
      let u : Thread W = record t { world = a.world } in
      if fails failure a.out
      then sig_send prog fuel (plain (reported report a.out a.errno)) u
        >>= and_then (λ v. ok (gives a.out v))
      else ok (gives a.out u)

  -- `sw_fread`, of the arguments `ptr`, `size`, `nmemb` and `stream`.
  unfoldable pub sw_fread : ℕ → ℕ → ℕ → ℕ → Thread W → Result (Wrapped W)
  unfolding sig_send signal_of
  sw_fread ptr size nmemb stream t =
      let a = sys.call sys_fread (ptr ∷ size ∷ nmemb ∷ stream ∷ []) t.world in
      let u : Thread W = record t { world = a.world } in
      let called =
        if not (a.out == nmemb)
        then (if sys.ferror stream a.world
            then sig_send prog fuel (plain signal_read_error) u
              >>= and_then (λ v. ok (gives a.out v))
            else ok (gives a.out u))
        else ok (gives a.out u) in
      let open_stream =
        if sys.feof stream t.world
        then sig_send prog fuel (plain (signal_of eof)) t >>= and_then (λ v. ok (gives 0 v))
        else called in
      if stream == 0
      then sig_send prog fuel (plain signal_invalid_input) t
        >>= and_then (λ v. ok (gives (2 ^ 64 - 1) v))
      else open_stream

  -- The rest of `sw_fwrite` after the test for a null stream; `fwrite` to a null stream is undefined.
  unfoldable pub fwrite_checked : ℕ → ℕ → ℕ → ℕ → Thread W → Result (Wrapped W)
  unfolding sig_send
  fwrite_checked ptr size nmemb stream t =
      let a = sys.call sys_fwrite (ptr ∷ size ∷ nmemb ∷ stream ∷ []) t.world in
      let u : Thread W = record t { world = a.world } in
      let called =
        if not (a.out == nmemb)
        then sig_send prog fuel (plain signal_write_error) u >>= and_then (λ v. ok (gives a.out v))
        else ok (gives a.out u) in
      if stream == 0 then Result.fault else called

  unfoldable pub sw_fwrite : ℕ → ℕ → ℕ → ℕ → Thread W → Result (Wrapped W)
  unfolding sig_send fwrite_checked
  sw_fwrite ptr size nmemb stream t =
      if stream == 0
      then sig_send prog fuel (plain signal_invalid_input) t
        >>= and_then (fwrite_checked ptr size nmemb stream)
      else fwrite_checked ptr size nmemb stream t

  -- The rest of `sw_fseek` after the test for a null stream, as above.
  unfoldable pub fseek_checked : ℕ → ℕ → ℕ → Thread W → Result (Wrapped W)
  unfolding checked
  fseek_checked stream offset whence t =
      let called = checked sys_fseek minus_one_int errno_value (stream ∷ offset ∷ whence ∷ []) t in
      if stream == 0 then Result.fault else called

  unfoldable pub sw_fseek : ℕ → ℕ → ℕ → Thread W → Result (Wrapped W)
  unfolding sig_send fseek_checked
  sw_fseek stream offset whence t =
      if stream == 0
      then sig_send prog fuel (plain signal_invalid_input) t
        >>= and_then (fseek_checked stream offset whence)
      else fseek_checked stream offset whence t
