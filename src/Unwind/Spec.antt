-- ===== src/Unwind/Spec.antt =====
-- What unwinding promises, over plain lists with the top first: each action is taken off and called
-- once, from the top down, as long as more entries are left than the return point wants.
use libevsig.Base.{ℕ, Option, none, some, List, [], ◌∷◌, ◌≡◌, ◌∙◌, sym, ltb, if◌then◌else◌, length}
use libevsig.Vector.{Holds, Holds-unique}
use libevsig.Shutdown.{Signal}
use libevsig.Signals.{without_handler, without_restart}
use libevsig.Thread.{
  ReturnPoint, OnUnwind, unwind_handler_sig_rm_handler, unwind_handler_sig_rm_restart, user_action,
  UnwindEntry, HandlerEntry, RestartEntry, Thread, Program,
}

pub record Model (W : Type 0) : Type 0 where
  pub handlers : List HandlerEntry
  pub restarts : List RestartEntry
  pub actions : List UnwindEntry
  pub unwind_init_ref : ℕ
  pub tid : ℕ
  pub global : Signal
  pub world : W

-- The thread's stacks hold the model's lists, and the rest agrees.
pub record Models {W : Type 0} (t : Thread W) (m : Model W) : Type 0 where
  pub handlers : Holds t.handlers m.handlers
  pub restarts : Holds t.restarts m.restarts
  pub actions : Holds t.unwind_stack m.actions
  pub same_ref : t.unwind_init_ref ≡ m.unwind_init_ref
  pub same_tid : t.tid ≡ m.tid
  pub same_global : t.global ≡ m.global
  pub same_world : t.world ≡ m.world

-- A thread has one model.
pub Models-unique : {W : Type 0} (t : Thread W) (m n : Model W) → Models t m → Models t n → m ≡ n
Models-unique t m n a b =
    let handlers = Holds-unique t.handlers m.handlers n.handlers a.handlers b.handlers in
    let restarts = Holds-unique t.restarts m.restarts n.restarts a.restarts b.restarts in
    let actions = Holds-unique t.unwind_stack m.actions n.actions a.actions b.actions in
    let same_ref : m.unwind_init_ref ≡ n.unwind_init_ref = sym a.same_ref ∙ b.same_ref in
    let same_tid : m.tid ≡ n.tid = sym a.same_tid ∙ b.same_tid in
    let same_global : m.global ≡ n.global = sym a.same_global ∙ b.same_global in
    let same_world : m.world ≡ n.world = sym a.same_world ∙ b.same_world in cc

-- The point that unwinding goes on to.
abbrev pub retarget : ReturnPoint → Option ReturnPoint → ReturnPoint
retarget p none = p
retarget p (some q) = q

module _ {W : Type 0} (prog : Program W) where
  abbrev pub act : OnUnwind → ℕ → Model W → Option ReturnPoint × Model W
  act unwind_handler_sig_rm_handler id m =
      (none, record m { handlers = without_handler id m.handlers })
  act unwind_handler_sig_rm_restart id m =
      (none, record m { restarts = without_restart id m.restarts })
  act (user_action k) userdata m =
      let (w, target) = prog.on_unwind k userdata m.world in (target, record m { world = w })

  -- The list is `m.actions`.
  unfoldable pub unwind_to_point : ReturnPoint → List UnwindEntry → Model W → ReturnPoint × Model W
  unwind_to_point p [] m = (p, m)
  unwind_to_point p (e ∷ xs) m =
      let (target, m') = act e.h e.userdata (record m { actions = xs }) in
      let rest = unwind_to_point (retarget p target) xs m' in
      if ltb p.unwind_to (length (e ∷ xs)) then rest else (p, m)
