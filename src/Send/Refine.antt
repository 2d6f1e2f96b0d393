-- ===== src/Send/Refine.antt =====
-- `_sig_send` refines its specification.
use libevsig.Base.{
  ℕ, ◌<◌, ◌≡◌, refl, ◌∙◌, ap, sym, subst, inl, inr, Option, none, some, List, [], ◌∷◌, Result, ok,
  exit, fault, hang, ◌>>=◌, Bool-cases, ◌==◌, length,
}
use libevsig.Memory.{load, cells, Cells, Stored, load-Stored}
use libevsig.Signals.Names.{sig_restart_null}
use libevsig.Unwind.{Model, Models, unwind, jump}
use libevsig.Unwind.Refine.{unwind-refines}
use libevsig.Thread.{
  SigType, SigHandler, null_handler, catchall_handler, sig_static_handler, user_handler,
  HandlerEntry, RestartEntry, Thread, Program, Flow, returned,
}
use libevsig.Send.Ops.{
  Message, selects, leaves, catchall, handles, takes_restart, cleaned, must_leave, run_restart,
  call_handler, after_handler, send_loop, sig_send,
}
use libevsig.Send.Spec.{Choice, restart_for, answer, ask, choose, RestartsAt, Outcome}

module _ {W : Type 0} (prog : Program W) (fuel : ℕ) where
  abbrev pub tried : Thread W → Option RestartEntry → Result (Flow W)
  tried t none = ok (returned t)
  tried t (some e) = jump (unwind prog fuel e.p t)

  -- `_run_restart` unwinds to the topmost restart that fits.
  pub run_restart-tried :
      (sig_type restart_type : SigType) (t : Thread W) (c : Cells RestartEntry)
      (es : List RestartEntry)
      → t.restarts.block ≡ cells c
      → Stored c es
      → run_restart prog fuel sig_type restart_type (length es) t
        ≡ tried t (restart_for sig_type restart_type es)
  unfolding run_restart
  run_restart-tried sig_type restart_type t c [] block s = refl
  run_restart-tried sig_type restart_type t c (e ∷ es) block s =
      elim (Bool-cases (takes_restart sig_type restart_type e)) [
        | inl fits ↦ rw (loaded, fits)
        | inr other ↦ rw (loaded, other) (run_restart-tried sig_type restart_type t c es block s.1)
      ]
    where
      loaded : load t.restarts.block (length es) ≡ ok e
      loaded = rw block (load-Stored c (length es) s.0)

  pub at_world :
      (t : Thread W) (md : Model W) (w : W)
      → Models t md
      → Models (record t { world = w }) (record md { world = w })
  at_world t md w s = record {
    handlers = s.handlers;
    restarts = s.restarts;
    actions = s.actions;
    same_ref = s.same_ref;
    same_tid = s.same_tid;
    same_global = s.same_global;
    same_world = refl;
  }

  lands :
      (t : Thread W) (md : Model W) (o : Option RestartEntry)
      → Models t md
      → length md.actions < fuel
      → RestartsAt prog o md (tried t o >>= must_leave)
  lands t md none s enough = refl
  lands t md (some e) s enough =
      let (r, landed, post) = unwind-refines prog fuel e.p t md s enough in
      (r.1, rw (landed, post.0), post.1)

  -- A restart that was selected is run, or the process ends.
  selected-restarts :
      (sig_type restart_type : SigType) (t : Thread W) (md : Model W)
      → Models t md
      → length md.actions < fuel
      → RestartsAt prog
          (restart_for sig_type restart_type md.restarts)
          md
          (run_restart prog fuel sig_type restart_type t.restarts.fill t >>= must_leave)
  selected-restarts sig_type restart_type t md s enough =
      subst
        (λ run.
          RestartsAt prog (restart_for sig_type restart_type md.restarts) md (run >>= must_leave))
        (sym (
          ap (λ n. run_restart prog fuel sig_type restart_type n t) s.restarts.filled
          ∙ run_restart-tried sig_type restart_type t s.restarts.contents md.restarts
              s.restarts.is_block s.restarts.stored))
        (lands t md (restart_for sig_type restart_type md.restarts) s enough)

module _ {W : Type 0} (prog : Program W) (fuel : ℕ) (m : Message) (t : Thread W) (md : Model W)
    (s : Models t md) (enough : length md.actions < fuel) where
  abbrev at : W → Thread W
  at w = record t { world = w }

  -- The rest of the loop, and what it promises.
  abbrev Continues : (W → Choice W) → (Thread W → Result (Flow W)) → Type 0
  Continues choice next = (w : W) → Outcome prog m fuel (choice w) md t (next (at w))

  answered :
      (choice : W → Choice W) (next : Thread W → Result (Flow W)) (restart_type : SigType) (w : W)
      → Continues choice next
      → Outcome prog m fuel
          (answer prog m restart_type w choice)
          md
          t
          (after_handler prog fuel m next (selects restart_type (at w)))
  unfolding after_handler
  answered choice next restart_type w rest = elim (Bool-cases (restart_type == sig_restart_null)) [
    | inl declines ↦ rw declines (rest (cleaned prog m w))
    | inr chosen ↦ rw chosen (
        selected-restarts prog fuel m.sig_type restart_type (at (cleaned prog m w))
          (record md { world = cleaned prog m w }) (at_world prog fuel t md (cleaned prog m w) s)
          enough)
  ]

  leave-through :
      (next : Thread W → Result (Flow W)) (r : Result (Flow W))
      → ((r >>= λ flow. ok (leaves flow)) >>= after_handler prog fuel m next) ≡ r
  unfolding after_handler
  leave-through next (ok flow) = refl
  leave-through next (exit n) = refl
  leave-through next fault = refl
  leave-through next hang = refl

  asked :
      (h : SigHandler) (userdata : ℕ) (choice : W → Choice W) (next : Thread W → Result (Flow W))
      (w : W)
      → Continues choice next
      → Outcome prog m fuel
          (ask prog m h userdata choice w)
          md
          t
          (call_handler prog fuel h userdata m (at w) >>= after_handler prog fuel m next)
  unfolding call_handler
  asked null_handler userdata choice next w rest = refl
  asked catchall_handler userdata choice next w rest =
      leave-through next (catchall prog fuel m.sig_type m.msg (at w))
  asked sig_static_handler userdata choice next w rest = answered choice next userdata w rest
  asked (user_handler k) userdata choice next w rest =
      let reply = prog.on_signal k m.sig_type userdata m.msg m.signal_data w in
      answered choice next reply.0 reply.1 rest

  send_loop-choose :
      (c : Cells HandlerEntry) (es : List HandlerEntry)
      → t.handlers.block ≡ cells c
      → Stored c es
      → Continues (choose prog m es) (send_loop prog fuel m (length es))
  unfolding send_loop
  send_loop-choose c [] block stored w = refl
  send_loop-choose c (e ∷ es) block stored w = elim (Bool-cases (handles m.sig_type e)) [
    | inl hit ↦
        rw (loaded, hit)
          (asked e.handler e.handler_userdata (choose prog m es) (send_loop prog fuel m (length es))
            w (send_loop-choose c es block stored.1))
    | inr miss ↦ rw (loaded, miss) (send_loop-choose c es block stored.1 w)
  ]
    where
      loaded : load t.handlers.block (length es) ≡ ok e
      loaded = rw block (load-Stored c (length es) stored.0)

  -- With more fuel than unwind actions, `_sig_send` asks the handlers for the signal from the top down
  -- and ends as their choice says: it returns if all decline; it lands at the topmost restart that
  -- fits the one selected, unwound to its point, or ends the process if there is none; it goes on
  -- into the catch-all handler if that is reached, and a null handler is undefined behaviour.
  pub sig_send-refines :
      Outcome prog m fuel (choose prog m md.handlers t.world) md t (sig_send prog fuel m t)
  unfolding sig_send
  sig_send-refines =
      subst
        (λ n.
          Outcome prog m fuel (choose prog m md.handlers t.world) md t (send_loop prog fuel m n t))
        (sym s.handlers.filled)
        (send_loop-choose s.handlers.contents md.handlers s.handlers.is_block s.handlers.stored
          t.world)
