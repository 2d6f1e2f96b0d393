-- ===== src/Sigwrap/Handlers.antt =====
-- The unwind actions that src/libevsig/unwind.c offers to programs.
use libevsig.Base.{ℕ, ◌∷◌, [], Result, ok, ◌==◌, if◌then◌else◌}
use libevsig.Memory.{Block, free}
use libevsig.Thread.{Thread, Program}
use libevsig.Sigwrap.Ops.{System, Wrapped, gives}
use libevsig.Sigwrap.Files.{sw_fclose, sw_fprintf}

-- `unwind_handler_free`
unfoldable pub unwind_handler_free : {A : Type 0} → Block A → Result (Block A)
unfolding free
unwind_handler_free ptr = free ptr

module _ {W : Type 0} (prog : Program W) (sys : System W) (fuel : ℕ) where
  -- `unwind_handler_print`; `stderr` and the format are addresses.
  unfoldable pub unwind_handler_print : ℕ → ℕ → ℕ → Thread W → Result (Wrapped W)
  unfolding sw_fprintf
  unwind_handler_print stderr format ptr t = sw_fprintf prog sys fuel (stderr ∷ format ∷ ptr ∷ []) t

  -- `unwind_handler_fclose`
  unfoldable pub unwind_handler_fclose : ℕ → Thread W → Result (Wrapped W)
  unfolding sw_fclose
  unwind_handler_fclose file t =
      if file == 0 then ok (gives 0 t) else sw_fclose prog sys fuel (file ∷ []) t
