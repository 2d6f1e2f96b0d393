-- ===== src/Tests/Vectors.antt =====
-- Concrete stacks in blocks of 32 cells, with what they hold.
use libevsig.Base.{refl, false, none, some, [], ◌∷◌, replicate, arith}
use libevsig.Memory.{cells}
use libevsig.Vector.{Vector, Holds}
use libevsig.Signals.Names.{signal_all, signal_fail}
use libevsig.Thread.{
  ReturnPoint, UnwindEntry, user_action, user_handler, catchall_handler, HandlerEntry, RestartEntry,
}

module _ {ℓ} {A : Type ℓ} where
  abbrev pub one : A → Vector A
  one a = record { block = cells (some a ∷ replicate 31 none); alloc = 32; fill = 1 }

  abbrev pub two : A → A → Vector A
  two a b = record { block = cells (some b ∷ some a ∷ replicate 30 none); alloc = 32; fill = 2 }

  pub one-Holds : (a : A) → Holds (one a) (a ∷ [])
  one-Holds a = record {
    contents = some a ∷ replicate 31 none;
    is_block = refl;
    sized = refl;
    filled = refl;
    has_room = omega arith;
    stored = (refl, tt);
  }

  -- The top first.
  pub two-Holds : (a b : A) → Holds (two a b) (a ∷ b ∷ [])
  two-Holds a b = record {
    contents = some b ∷ some a ∷ replicate 30 none;
    is_block = refl;
    sized = refl;
    filled = refl;
    has_room = omega arith;
    stored = (refl, (refl, tt));
  }

abbrev pub catching : HandlerEntry
catching = record {
  sig_type = signal_all;
  handler = catchall_handler;
  handler_userdata = 0;
  id = 1;
}

abbrev pub answering : HandlerEntry
answering = record {
  sig_type = signal_fail;
  handler = user_handler 0;
  handler_userdata = 5;
  id = 2;
}

abbrev pub outer_point : ReturnPoint
outer_point = record { returned = false; jbuf = 42; unwind_to = 0 }

abbrev pub restarting : RestartEntry
restarting = record { sig_type = signal_fail; restart_type = 1000; p = outer_point; id = 0 }

abbrev pub first_action : UnwindEntry
first_action = record { h = user_action 5; userdata = 0 }

abbrev pub second_action : UnwindEntry
second_action = record { h = user_action 6; userdata = 0 }
