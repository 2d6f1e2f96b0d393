-- ===== src/Script/Syntax.antt =====
-- The statements of a C block that matter to the library. The last argument of a constructor is the
-- rest of the block: a scoped macro lasts until the end of it.
use libevsig.Base.{ℕ, suc, ◌+◌}
use libevsig.Thread.{SigType, SigHandler}
use libevsig.Send.{Message}

pub data Code : Type 0 where
  -- The end of the block.
  done : Code
  -- `exit(n)`
  leave : ℕ → Code
  -- `UNWIND(&p)`, for the return point that the `k`-th enclosing macro defines, the innermost first.
  jump_to : ℕ → Code
  -- Code that does not call the library.
  work : ℕ → Code → Code
  -- A block, or a call of a function.
  block : Code → Code → Code
  -- `SIG_SEND`
  send : Message → Code → Code
  -- `SIG_ASSERT_HANDLER`, with the address of the text that it prints if there is none.
  assert_handler : SigType → ℕ → Code → Code
  -- `if (SIG_RESTART_AVAILABLE(...))`, with its two branches.
  if_available : SigType → SigType → Code → Code → Code → Code
  -- `UNWIND_ACTION`
  action : ℕ → ℕ → Code → Code
  -- `EXPLICIT_UNWIND_ACTION`
  explicit_action : ℕ → ℕ → Code → Code
  -- `SIG_AUTOPOP_HANDLER`
  handler : SigType → SigHandler → ℕ → Code → Code
  -- `UNWIND_RETURN_POINT`, with the code that might unwind and the code that handles it.
  return_point_for : Code → Code → Code → Code
  -- `UNWIND_AUTOPOP_RETURN_POINT`, with the code that handles an unwinding.
  autopop_point : Code → Code → Code
  -- `SIG_PROVIDE_RESTART`, with the code that might send and the restart's action.
  provide : SigType → Code → SigType → Code → Code → Code
  -- `SIG_AUTOPOP_RESTART`, with the restart's action.
  autopop : SigType → SigType → Code → Code → Code

-- No fewer than the entries that are open at any time.
abbrev pub size : Code → ℕ
size done = 0
size (leave n) = 0
size (jump_to k) = 0
size (work k c) = size c
size (block b c) = size b + size c
size (send m c) = size c
size (assert_handler s msg c) = size c
size (if_available s r a b c) = size a + size b + size c
size (action k u c) = suc (size c)
size (explicit_action k u c) = suc (size c)
size (handler s h u c) = suc (size c)
size (return_point_for b h c) = size b + size h + size c
size (autopop_point h c) = size h + size c
size (provide s b r a c) = suc (size b) + size a + size c
size (autopop s r a c) = suc (size a + size c)
