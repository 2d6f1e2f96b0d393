-- ===== src/Send/Spec.antt =====
-- What the sending of a signal promises, over plain lists with the top first.
use libevsig.Base.{
  ℕ, Option, none, some, List, [], ◌∷◌, ◌≡◌, Result, ok, exit, fault, ◌==◌, if◌then◌else◌,
}
use libevsig.Signals.Names.{sig_restart_null}
use libevsig.Unwind.{Model, Models, unwind_to_point}
use libevsig.Thread.{
  SigType, SigHandler, null_handler, catchall_handler, sig_static_handler, user_handler,
  HandlerEntry, RestartEntry, Thread, Program, Flow, returned, landed,
}
use libevsig.Send.Ops.{Message, handles, takes_restart, cleaned, catchall}

-- What the handlers make of a signal: all of them decline, one of them selects a restart, the
-- catch-all handler is reached, or a null entry is.
pub data Choice (W : Type 0) : Type 0 where
  declined : W → Choice W
  selected : SigType → W → Choice W
  unhandled : W → Choice W
  broken : Choice W

-- The topmost restart that was pushed for the signal, or for all, under the type selected.
abbrev pub restart_for : SigType → SigType → List RestartEntry → Option RestartEntry
restart_for sig_type restart_type [] = none
restart_for sig_type restart_type (e ∷ es) =
    if takes_restart sig_type restart_type e then some e else restart_for sig_type restart_type es

module _ {W : Type 0} (prog : Program W) where
  -- How a selected restart ends, in a state with these lists.
  abbrev pub RestartsAt : Option RestartEntry → Model W → Result (Flow W) → Type 0
  RestartsAt none md run = run ≡ exit 1
  RestartsAt (some e) md run =
      (t : Thread W) × (run ≡ ok (landed (unwind_to_point prog e.p md.actions md).0 t))
      × Models t (unwind_to_point prog e.p md.actions md).1

module _ {W : Type 0} (prog : Program W) (m : Message) where
  abbrev pub answer : SigType → W → (W → Choice W) → Choice W
  answer restart_type w next =
      if restart_type == sig_restart_null
      then next (cleaned prog m w)
      else selected restart_type (cleaned prog m w)

  abbrev pub ask : SigHandler → ℕ → (W → Choice W) → W → Choice W
  ask null_handler userdata next w = broken
  ask catchall_handler userdata next w = unhandled w
  ask sig_static_handler userdata next w = answer userdata w next
  ask (user_handler k) userdata next w =
      let (restart_type, w') = prog.on_signal k m.sig_type userdata m.msg m.signal_data w in
      answer restart_type w' next

  -- The handlers are asked from the top down.
  abbrev pub choose : List HandlerEntry → W → Choice W
  choose [] w = declined w
  choose (e ∷ es) w =
      if handles m.sig_type e then ask e.handler e.handler_userdata (choose es) w else choose es w

  -- How `_sig_send` ends for a choice, in a state with these lists.
  abbrev pub Outcome : ℕ → Choice W → Model W → Thread W → Result (Flow W) → Type 0
  Outcome fuel (declined w) md t run = run ≡ ok (returned (record t { world = w }))
  Outcome fuel (selected restart_type w) md t run =
      RestartsAt prog (restart_for m.sig_type restart_type md.restarts) (record md { world = w })
        run
  Outcome fuel (unhandled w) md t run =
      run ≡ catchall prog fuel m.sig_type m.msg (record t { world = w })
  Outcome fuel broken md t run = run ≡ fault
