-- ===== src/Lib.antt =====
-- libevsig, a C library of signals (conditions with handlers and restarts), unwind actions and an
-- orderly shutdown of threads.
--
-- The parts. A thread keeps three stacks: of signal handlers, of restarts, and of unwind actions.
-- `_sig_send` asks the handlers from the top down; one that selects a restart makes `_run_restart`
-- unwind to the restart's return point, which runs the unwind actions pushed since and jumps. The
-- scoped macros push an entry together with the unwind action that removes it. A signal that no other
-- handler takes reaches the catch-all handler, which asks the shutdown thread to send the global
-- shutdown signal, cleans up and ends its thread. The shutdown signal keeps a list of threads to wait
-- for and a list of callbacks, behind a spin mutex.
--
-- The files, with the code that each is about:
--   Base       shared names, tests, lists, and the outcome of a C function
--   Memory     blocks of cells behind a pointer: malloc, realloc, free, loads and stores
--   Vector     the growing arrays behind all stacks: src/libevsig/signals.c, src/libevsig/unwind.c
--   Thread     the thread-local state and its entries: include/libevsig/_signals.h,
--              include/libevsig/unwind.h
--   Signals    the handler and restart stacks: src/libevsig/signals.c
--   Unwind     the stack of unwind actions: src/libevsig/unwind.c, include/libevsig/unwind.h; in
--              Unwind/Dispatch the handler of the operating system's signals, in Unwind/Install its
--              installation, in Unwind/Print its printing
--   Send       sending, restarts, the catch-all handler, set-up, clean-up, scopes:
--              src/libevsig/signals.c, include/libevsig/_signals.h
--   Shutdown   the shutdown signal: src/libevsig/thread_shutdown_signal.c and its header, as one
--              thread runs it; in Shutdown/Parallel as any number of threads run it, a statement
--              at a time
--   Mutex      the spin mutex: src/libevsig/evsig_mutex.c, as one thread sees it, and in
--              Mutex/Contention as the interleaved atomic steps of several threads, each in a
--              phase; Mutex/Backoff has the waits between two attempts, Mutex/Waiting the two
--              loops round by round, Mutex/Random `fnv_hash` and `rand64`
--   Script     code that uses the macros of include/libevsig/unwind.h and
--              include/libevsig/_signals.h, as a syntax with a meaning
--   Sigwrap    the wrappers of system calls: src/libevsig/sigwrap.c, sigwrap_epoll.c,
--              sigwrap_pthread.c and sigwrap_socket.c, with the C file's name for each; in
--              Sigwrap/Handlers the unwind actions of src/libevsig/unwind.c that use them
--   Demo       the demonstration program: src/cli/main.c
--   Errno      error numbers to signal types and texts: src/libevsig/errno_signals.c and its header
--   Time       readings of the clock and a sleep: include/libevsig/util.h
--   Tests      runs at concrete inputs, and the theorems applied at some
--
-- Names. A definition has the name of the C function that it models, less the leading underscore and
-- the prefix `evsig_thread_shutdown_signal_`. A loop of a function, or a part of one, is a definition
-- of its own that the comment above it explains.
--
-- State. A thread's variables are the record `Thread`; a function takes the state and returns it
-- in a `Result`: `ok`, `exit n` for a call of `exit`, `fault` for undefined behaviour (a null,
-- dangling or out-of-range access, a second free), `hang` for a wait or a loop that has not ended.
-- A cell that was not written may not be read. What the allocator and `pthread_create` answer is a
-- Boolean argument. A call that may leave its frame returns a `Flow`: returned, landed at a return
-- point by `longjmp`, or ended the thread.
--
-- Numbers. A signal or restart type is an address that is only ever compared, so it is a number, and
-- null is 0. The ids are `uint64_t` and wrap. The fill and the room of a stack are plain numbers, as
-- memory ends before they wrap; the decrement of a fill wraps from 0. Time is in `uint64_t`.
--
-- The program. Its unwind actions, signal handlers, clean-up function, printing and `raise(SIGINT)`
-- are the parameter `Program`: they act on the rest of the process, and leave the three stacks as they
-- found them. An unwind action may end in `UNWIND`. The user data of the two actions that the library
-- pushes itself stands for the id that it points at. The callbacks of a shutdown signal, the other
-- threads during its sleeps and the clock are the parameter `Surroundings`.
--
-- Code. `Script` has the statements that call the library; the last part of each is the rest of its
-- block, where the scope of a macro ends. What the program's own code does between them is the
-- parameter `work_on`. The `jmp_buf` of a return point is named by the number of the points around it,
-- and a landing runs the code again that `setjmp` stands in front of.
--
-- Several threads at one shutdown signal. A `Section` is a place between `evsig_lock` and
-- `evsig_unlock`, and `perform` does the statement there; the statements that grow a list, and
-- those that shift entries out of it and free it, are in Shutdown/Parallel/Moves. A `Phase` is a
-- place of a thread, also outside the mutex: in `evsig_lock`, and in `send_block` at the test and
-- the store of the flag, in the sleep, and at each of the seven statements that free the lists
-- without the mutex. An `Event` says which thread does its next step, and what it is answered
-- there; a schedule is a list of events, and `run` is its effect. The system keeps the calls in
-- the order in which they took the mutex. Each statement is one step, with the few exceptions that
-- Shutdown/Parallel/Sections names, and all threads see the steps in one order. A callback leaves
-- the signal alone: what it makes other threads do are steps of theirs.
--
-- The shutdown thread. `shutdown_thread_global` is the whole of it, from its wait for `shutdown_mutex`;
-- `shutdown_thread_if_started` does nothing if no registration has started it, as after
-- `sig_init(true, ...)` alone.
--
-- The system. The functions that the wrappers call are the parameter `System`: each gives a word, an
-- `errno`, and the rest of the process as it leaves it. An `int` that is negative is a word of 32 bits,
-- a `size_t`, `ssize_t` or pointer one of 64. `strerror_r` is a parameter too.
--
-- Fuel. `unwind` has fuel for the jumps out of actions: each takes an entry off first, so more fuel
-- than entries is enough. `drain` has fuel for the entries, `notify` for the callbacks, `poll` for
-- the rounds until the time is up. `skip` has the number of entries for fuel.
--
-- The code of `Script` may go round: each `setjmp` returns at most `rounds` times, and beyond that
-- the run counts as one that goes on. `seeded` has fuel for the readings of a clock that hash to 0,
-- and `spin_until` and `thread_loop` for their rounds.
--
-- Not modelled: printing, but for the array behind the backtrace of an unhandled signal, which
-- Send/Backtrace has apart from the catch-all handler, and for Unwind/Print; that `raise(SIGINT)` in the
-- catch-all handler runs `_sighandle_dispatch`, which asks for what the catch-all handler asks for next;
-- the texts of the wrappers' messages; the shutdown thread among the threads of Shutdown/Parallel, where
-- any thread may call `send_block`; `SIG_PERSISTENT_HANDLER` and `SIG_RM_HANDLER` among the statements of
-- `Script`, as they do not keep to scopes, which Send/Persistent has apart; an exit function that is null
-- or returns.
pub mod Base
pub mod Memory
pub mod Vector
pub mod Mutex
pub mod Shutdown
pub mod Thread
pub mod Signals
pub mod Unwind
pub mod Send
pub mod Script
pub mod Sigwrap
pub mod Demo
pub mod Time
pub mod Errno
mod Tests
