-- ===== src/Thread.antt =====
-- The thread-local state of src/libevsig/signals.c and src/libevsig/unwind.c: the entries of the
-- three stacks (include/libevsig/_signals.h, include/libevsig/unwind.h) and the variables.
use libevsig.Base.{ℕ, Bool, Option}
use libevsig.Vector.{Vector}
use libevsig.Shutdown.{Signal}

-- A signal or restart type is a pointer that is only ever compared: the address of an array.
abbrev pub SigType : Type 0
SigType = ℕ

-- `unwind_return_point`. The `jmp_buf` is named by a number.
pub record ReturnPoint : Type 0 where
  pub returned : Bool
  pub jbuf : ℕ
  pub unwind_to : ℕ

-- The functions that an unwind action can be: two of the library's own, and those of the program.
pub data OnUnwind : Type 0 where
  unwind_handler_sig_rm_handler : OnUnwind
  unwind_handler_sig_rm_restart : OnUnwind
  user_action : ℕ → OnUnwind

-- `unwind_handler_stack_entry`. For the library's two functions `userdata` stands for the id that it
-- points at.
pub record UnwindEntry : Type 0 where
  pub h : OnUnwind
  pub userdata : ℕ

-- The functions that a signal handler can be.
pub data SigHandler : Type 0 where
  null_handler : SigHandler
  catchall_handler : SigHandler
  sig_static_handler : SigHandler
  user_handler : ℕ → SigHandler

-- `sig_handler_stack_entry`
pub record HandlerEntry : Type 0 where
  pub sig_type : SigType
  pub handler : SigHandler
  pub handler_userdata : ℕ
  pub id : ℕ

-- `sig_restart_stack_entry`
pub record RestartEntry : Type 0 where
  pub sig_type : SigType
  pub restart_type : SigType
  pub p : ReturnPoint
  pub id : ℕ

-- The stacks, `unwind_init_ref`, the thread's `gettid()`, the global shutdown signal as this thread
-- finds it, and the rest of the process, which only the program's functions touch.
pub record Thread (W : Type 0) : Type 0 where
  pub handlers : Vector HandlerEntry
  pub restarts : Vector RestartEntry
  pub unwind_stack : Vector UnwindEntry
  pub unwind_init_ref : ℕ
  pub tid : ℕ
  pub global : Signal
  pub world : W

-- The program's functions. An unwind action may end in a call of `UNWIND`; they leave the library's
-- stacks as they find them.
pub record Program (W : Type 0) : Type 0 where
  pub on_unwind : ℕ → ℕ → W → W × Option ReturnPoint
  -- The signal's type, the handler's user data, the message and the signal's data.
  pub on_signal : ℕ → SigType → ℕ → ℕ → ℕ → W → SigType × W
  -- `signal_data_cleanup_func`, never called if it is null.
  pub cleanup : ℕ → ℕ → W → W
  -- `raise(SIGINT)`, where it returns.
  pub raise_sigint : W → W
  -- Printing.
  pub report : SigType → ℕ → W → W

-- How a call that may leave its frame ends.
pub data Flow (W : Type 0) : Type 0 where
  returned : Thread W → Flow W
  -- By `longjmp` to the return point.
  landed : ReturnPoint → Thread W → Flow W
  -- By the thread's own exit function.
  thread_exited : Thread W → Flow W
