-- ===== src/Send/Ends.antt =====
-- A signal in a thread that is set up: the catch-all handler at the bottom leaves no way to return.
use libevsig.Base.{
  ℕ, ◌<◌, ◌≡◌, refl, sym, subst, inl, inr, Option, none, some, List, [], ◌∷◌, ◌++◌, Result, ok,
  exit, fault, hang, ◌>>=◌, Bool-cases, ◌==◌, length, true,
}
use libevsig.Shutdown.{send_async}
use libevsig.Signals.Names.{signal_all, sig_restart_null}
use libevsig.Unwind.{Model, Models}
use libevsig.Thread.{
  SigType, SigHandler, null_handler, catchall_handler, sig_static_handler, user_handler,
  HandlerEntry, RestartEntry, Thread, Program, Flow, returned, landed, thread_exited,
}
use libevsig.Send.Ops.{Message, handles, exits, cleaned, sig_cleanup, catchall, sig_send}
use libevsig.Send.Setup.{catchall_entry}
use libevsig.Send.Spec.{
  Choice, declined, selected, unhandled, broken, answer, ask, choose, RestartsAt, Outcome,
}
use libevsig.Send.Refine.{sig_send-refines}

module _ {W : Type 0} where
  -- The code after a call is not reached from here.
  abbrev pub Leaves : Result (Flow W) → Type 0
  Leaves (ok (returned t)) = ⊥
  Leaves _ = Unit

  Leaves-exits : (flow : Flow W) → Leaves (ok (exits flow))
  Leaves-exits (returned t) = tt
  Leaves-exits (landed p t) = tt
  Leaves-exits (thread_exited t) = tt

  Leaves-then : (r : Result (Flow W)) → Leaves (r >>= λ flow. ok (exits flow))
  Leaves-then (ok flow) = Leaves-exits flow
  Leaves-then (exit n) = tt
  Leaves-then fault = tt
  Leaves-then hang = tt

  Leaves-after :
      {A : Type 0} (r : Result A) (next : A → Result (Flow W))
      → ((a : A) → Leaves (next a))
      → Leaves (r >>= next)
  Leaves-after (ok a) next leaves = leaves a
  Leaves-after (exit n) next leaves = tt
  Leaves-after fault next leaves = tt
  Leaves-after hang next leaves = tt

  abbrev pub IsDeclined : Choice W → Type 0
  IsDeclined (declined w) = Unit
  IsDeclined _ = ⊥

catchall_entry-handles : (s : SigType) → handles s catchall_entry ≡ true
catchall_entry-handles s = elim (Bool-cases (signal_all == s)) [
  | inl same ↦ rw same refl
  | inr other ↦ rw other refl
]

module _ {W : Type 0} (prog : Program W) where
  catchall-Leaves :
      (fuel : ℕ) (s : SigType) (msg : ℕ) (t : Thread W) → Leaves (catchall prog fuel s msg t)
  unfolding catchall
  catchall-Leaves fuel s msg t = Leaves-after (send_async t.global true) _ (λ g. Leaves-then (
      sig_cleanup prog fuel
        (record t { world = prog.raise_sigint (prog.report s msg t.world); global = g })))

  answer-asks :
      (m : Message) (r : SigType) (w : W) (next : W → Choice W)
      → ((v : W) → IsDeclined (next v) → ⊥)
      → IsDeclined (answer prog m r w next)
      → ⊥
  answer-asks m r w next below d = elim (Bool-cases (r == sig_restart_null)) [
    | inl null ↦ below (cleaned prog m w) (rw null at d)
    | inr other ↦ rw other at d
  ]

  ask-asks :
      (m : Message) (h : SigHandler) (userdata : ℕ) (w : W) (next : W → Choice W)
      → ((v : W) → IsDeclined (next v) → ⊥)
      → IsDeclined (ask prog m h userdata next w)
      → ⊥
  ask-asks m null_handler userdata w next below d = d
  ask-asks m catchall_handler userdata w next below d = d
  ask-asks m sig_static_handler userdata w next below d = answer-asks m userdata w next below d
  ask-asks m (user_handler k) userdata w next below d = answer-asks m _ _ next below d

  choose-asks :
      (m : Message) (hs : List HandlerEntry) (w : W)
      → IsDeclined (choose prog m (hs ++ catchall_entry ∷ []) w)
      → ⊥
  choose-asks m [] w d = rw (catchall_entry-handles m.sig_type) at d
  choose-asks m (e ∷ hs) w d = elim (Bool-cases (handles m.sig_type e)) [
    | inl heard ↦ ask-asks m e.handler e.handler_userdata w _ (choose-asks m hs) (rw heard at d)
    | inr other ↦ choose-asks m hs w (rw other at d)
  ]

  restarted-Leaves :
      (chosen : Option RestartEntry) (md : Model W) (run : Result (Flow W))
      → RestartsAt prog chosen md run
      → Leaves run
  restarted-Leaves none md run ends = rw ends tt
  restarted-Leaves (some e) md run (t, lands, models) = rw lands tt

  chosen-Leaves :
      (m : Message) (fuel : ℕ) (c : Choice W) (md : Model W) (t : Thread W) (run : Result (Flow W))
      → (IsDeclined c → ⊥)
      → Outcome prog m fuel c md t run
      → Leaves run
  chosen-Leaves m fuel (declined w) md t run asks o = absurd (asks tt)
  chosen-Leaves m fuel (selected r w) md t run asks o =
      restarted-Leaves _ (record md { world = w }) run o
  chosen-Leaves m fuel (unhandled w) md t run asks o =
      rw o (catchall-Leaves fuel m.sig_type m.msg (record t { world = w }))
  chosen-Leaves m fuel broken md t run asks o = rw o tt

  -- With the catch-all handler at the bottom of the handler stack, `SIG_SEND` never returns to the
  -- code that sends, whatever the handlers above it do: that code is left for a return point, or the
  -- thread or the process ends.
  pub sig_send-Leaves :
      (fuel : ℕ) (m : Message) (t : Thread W) (md : Model W) (hs : List HandlerEntry)
      → md.handlers ≡ hs ++ catchall_entry ∷ []
      → Models t md
      → length md.actions < fuel
      → Leaves (sig_send prog fuel m t)
  sig_send-Leaves fuel m t md hs lists s enough =
      chosen-Leaves m fuel (choose prog m md.handlers t.world) md t (sig_send prog fuel m t)
        (subst (λ l. IsDeclined (choose prog m l t.world) → ⊥) (sym lists)
          (choose-asks m hs t.world))
        (sig_send-refines prog fuel m t md s enough)
