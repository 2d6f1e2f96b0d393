-- ===== src/Tests/Calls.antt =====
-- Wrappers of calls that succeed and that fail, a signal, an error text, and a backtrace.
use libevsig.Base.{
  ◌⊎◌, ◌≤◌, ◌<◌, fault, Option, none, ℕ, suc, ◌≡◌, ◌≢◌, refl, ◌>>=◌, false, List, [], ◌∷◌,
  replicate, length-replicate, arith, ok, length,
}
use libevsig.Vector.{Yields}
use libevsig.Thread.{Thread, landed}
use libevsig.Unwind.{Models, unwind_to_point}
use libevsig.Send.{catchall, sig_send}
use libevsig.Send.Refine.{at_world}
use libevsig.Memory.{Block}
use libevsig.Send.Backtrace.{DlInfo, FrameInfo, shown, backtrace_frames, backtrace_frames-fits}
use libevsig.Send.Ends.{Leaves, sig_send-Leaves}
use libevsig.Errno.Message.{str_from_errno, str_from_errno-c_string, c_string}
use libevsig.Sigwrap.{
  System, gives, left, fails, null_pointer, nonzero, and_then, alloc_failed, returned_value,
  reported, negative_int, general_failure, checked, sw_fwrite,
}
use libevsig.Sigwrap.Names.{sys_printf, sys_malloc, sys_pthread_join}
use libevsig.Sigwrap.Laws.{checked-Reports}
use libevsig.Sigwrap.ReturnedValue.{returned_value-unheard}
use libevsig.Sigwrap.Success.{checked-succeeded, sw_fwrite-wrote_all}
use libevsig.Tests.{counting, failure}
use libevsig.Tests.Vectors.{outer_point, answering}
use libevsig.Tests.Sends.{set_up, model, set_up-Models}

-- Every call gives this result, and leaves this in `errno`.
abbrev answering_with : ℕ → ℕ → System ℕ
answering_with out errno = record {
  call = λ f args w. record { out = out; errno = errno; world = suc w };
  feof = λ stream w. false;
  ferror = λ stream w. false;
}

-- The handler on top selects restart type 1000, and two actions run on the way.
checked-Reports_example :
    (t : Thread ℕ) × (checked counting
        (answering_with 4294967295 0)
        3
        sys_printf
        negative_int
        general_failure
        []
        set_up
      ≡ ok (left (landed outer_point t)))
    × Models t (record model { actions = []; world = 3 })
unfolding unwind_to_point reported
checked-Reports_example =
    checked-Reports counting (answering_with 4294967295 0) 3 sys_printf negative_int general_failure
      [] set_up (record model { world = 1 }) refl (at_world counting 3 set_up model 1 set_up-Models)
      (omega arith)

returned_value-unheard_example :
    checked counting
      (answering_with 22 0)
      3
      sys_pthread_join
      nonzero
      returned_value
      (9 ∷ 0 ∷ [])
      set_up
    ≡ (catchall counting 3 0 1 (record set_up { world = 1 }) >>= and_then (λ v. ok (gives 22 v)))
returned_value-unheard_example =
    returned_value-unheard counting (answering_with 22 0) 3 sys_pthread_join nonzero (9 ∷ 0 ∷ [])
      set_up (record model { world = 1 }) (answering ∷ []) refl refl refl
      (λ e. absurd (omega (arith, e)), λ e. absurd (omega (arith, e)), tt)
      (at_world counting 3 set_up model 1 set_up-Models) (omega arith)

abbrev address : ℕ
address = 4096

allocates :
    checked counting (answering_with 4096 0) 3 sys_malloc null_pointer alloc_failed (64 ∷ []) set_up
    ≡ ok (gives 4096 (record set_up { world = 1 }))
unfolding checked
allocates = refl

checked-succeeded_example :
    (fails null_pointer address ≡ false)
    × (address ≡ 4096)
    × (record set_up { world = 1 } ≡ record set_up { world = 1 })
checked-succeeded_example =
    checked-succeeded counting (answering_with 4096 0) 3 sys_malloc null_pointer alloc_failed
      (64 ∷ []) set_up (record set_up { world = 1 }) address model (answering ∷ []) refl
      set_up-Models (omega arith) allocates

abbrev stream : ℕ
stream = 9

abbrev items : ℕ
items = 5

writes :
    sw_fwrite counting (answering_with 5 0) 3 64 1 items stream set_up
    ≡ ok (gives 5 (record set_up { world = 1 }))
unfolding sw_fwrite
writes = refl

sw_fwrite-wrote_all_example : (stream ≢ 0) × (items ≡ 5) × (items ≡ 5)
sw_fwrite-wrote_all_example =
    sw_fwrite-wrote_all counting (answering_with 5 0) 3 64 1 items stream set_up
      (record set_up { world = 1 }) items model (answering ∷ []) refl set_up-Models (omega arith)
      writes

sig_send-Leaves_example : Leaves (sig_send counting 3 failure set_up)
sig_send-Leaves_example =
    sig_send-Leaves counting 3 failure set_up model (answering ∷ []) refl set_up-Models
      (omega arith)

-- A text of three bytes for every error.
abbrev error_text : ℕ → ℕ → List ℕ
error_text errno size = 66 ∷ 97 ∷ 100 ∷ []

abbrev old_buffer : List ℕ
old_buffer = replicate 1024 7

buffer-length : length old_buffer ≡ 1024
buffer-length = length-replicate {A = ℕ} 1024 7

str_from_errno-c_string_example :
    Yields
      (str_from_errno error_text old_buffer (58 ∷ []) 9)
      (λ b. (length b ≡ 1024) × (c_string b ≡ 58 ∷ 66 ∷ 97 ∷ 100 ∷ []))
str_from_errno-c_string_example =
    str_from_errno-c_string error_text old_buffer (58 ∷ []) 9 buffer-length
      (λ e. absurd (omega (arith, e)), tt)
      (
        λ e. absurd (omega (arith, e)),
        (λ e. absurd (omega (arith, e)), (λ e. absurd (omega (arith, e)), tt)),
      )
      (omega arith)

-- Seventy return addresses, of which none is the handler's own.
abbrev deep : List ℕ
deep = replicate 70 9

abbrev unnamed : ℕ → Option DlInfo
unnamed a = none

overflows : backtrace_frames unnamed deep 5 ≡ fault
unfolding backtrace_frames
overflows = refl

backtrace_frames-fits_example :
    ((length (shown deep 5) ≤ 64)
      × (r : Block FrameInfo × ℕ × ℕ) × (backtrace_frames unnamed deep 5 ≡ ok r))
    ⊎ ((64 < length (shown deep 5)) × (backtrace_frames unnamed deep 5 ≡ fault))
backtrace_frames-fits_example = backtrace_frames-fits unnamed deep 5
