-- ===== src/Script/Fits.antt =====
-- Code whose signals are answered where they are sent, and the runs of signals and of closing scopes.
use libevsig.Base.{
  ℕ, suc, ◌+◌, ◌^◌, ◌≤◌, ◌<◌, ◌≡◌, refl, true, subst, Option, none, some, List, [], ◌∷◌, Result, ok,
  exit, fault, hang, ◌>>=◌, arith, length, Bool-cases, inl, inr,
}
use libevsig.Unwind.{Model, Models, unwind_to_point}
use libevsig.Send.{Message, sig_send, takes_restart}
use libevsig.Send.Spec.{
  Choice, declined, selected, unhandled, broken, choose, restart_for, RestartsAt, Outcome,
}
use libevsig.Send.Assert.{pushed_for}
use libevsig.Send.Refine.{sig_send-refines}
use libevsig.Send.Restore.{Closes, effect, closed}
use libevsig.Thread.{
  SigType, ReturnPoint, OnUnwind, HandlerEntry, RestartEntry, Thread, Program, Flow, returned,
  landed, thread_exited,
}
use libevsig.Script.Syntax.{
  Code, done, leave, jump_to, work, block, send, assert_handler, if_available, action,
  explicit_action, handler, return_point_for, autopop_point, provide, autopop,
}
use libevsig.Script.Run.{close}
use libevsig.Script.Frames.{
  Frame, points, Frames, IsFrame, Live, Sound, Frames-new, Live-wider, landing-Sound,
  some-injective,
}
use libevsig.Script.Opening.{last_id, pushed}

module _ {W : Type 0} (prog : Program W) where
  -- No handler asked is null or the catch-all.
  abbrev pub IsAnswered : Choice W → Type 0
  IsAnswered (declined w) = Unit
  IsAnswered (selected r w) = Unit
  IsAnswered _ = ⊥

  -- Code under `n` return points and these handlers: it unwinds to points in scope only, and each
  -- signal that it sends is answered by the handlers there, whatever the rest of the process is like;
  -- each handler that it asserts is there.
  abbrev pub Fits : ℕ → List HandlerEntry → Code → Type 0
  Fits n hs done = Unit
  Fits n hs (leave k) = Unit
  Fits n hs (jump_to k) = k < n
  Fits n hs (work k c) = Fits n hs c
  Fits n hs (block b c) = Fits n hs b × Fits n hs c
  Fits n hs (send m c) = ((w : W) → IsAnswered (choose prog m hs w)) × Fits n hs c
  Fits n hs (assert_handler s msg c) = (pushed_for s hs ≡ true) × Fits n hs c
  Fits n hs (if_available s r a b c) = Fits n hs a × Fits n hs b × Fits n hs c
  Fits n hs (action k u c) = Fits n hs c
  Fits n hs (explicit_action k u c) = Fits n hs c
  Fits n hs (handler s h u c) = Fits n (pushed hs s h u) c
  Fits n hs (return_point_for b h c) = Fits (suc n) hs b × Fits (suc n) hs h × Fits n hs c
  Fits n hs (autopop_point h c) = Fits (suc n) hs h × Fits (suc n) hs c
  Fits n hs (provide s b r a c) = Fits (suc n) hs b × Fits (suc n) hs a × Fits n hs c
  Fits n hs (autopop s r a c) = Fits (suc n) hs a × Fits (suc n) hs c

  -- The points in scope below the stacks of `m`, the restarts among these points, and room for `n` more entries.
  pub record Ready (fuel : ℕ) (fs : List (Frame prog)) (m : Model W) (n : ℕ) : Type 0 where
    pub frames : Frames prog fs m
    pub live : Live prog fs m.restarts
    pub enough : length m.actions + n < fuel
    pub ids : last_id m.handlers + n < 2 ^ 64

  pub Frames-world :
      (fs : List (Frame prog)) (m : Model W) (w : W)
      → Frames prog fs m
      → Frames prog fs (record m { world = w })
  Frames-world [] m w f = tt
  Frames-world ((p, b) ∷ fs) m w f = (f.0, f.1, f.2, Frames-world fs m w f.3)

  pub Ready-less :
      {fuel : ℕ} {fs : List (Frame prog)} {m : Model W} {n : ℕ} (k : ℕ)
      → k ≤ n
      → Ready fuel fs m n
      → Ready fuel fs m k
  Ready-less k le r = record {
    frames = r.frames;
    live = r.live;
    enough = omega (arith, r.enough);
    ids = omega (arith, r.ids);
  }

  pub Ready-new :
      {fuel : ℕ} {fs : List (Frame prog)} {m : Model W} {n : ℕ} (p : ReturnPoint)
      → p.unwind_to ≡ length m.actions
      → p.jbuf ≡ length (points prog fs)
      → Ready fuel fs m n
      → Ready fuel ((p, m) ∷ fs) m n
  Ready-new {fs = fs} {m = m} p height name r = record {
    frames = Frames-new prog fs p m height name r.frames;
    live = Live-wider prog (p, m) fs m.restarts r.live;
    enough = r.enough;
    ids = r.ids;
  }

  pub close-Sound :
      (work_on : ℕ → W → W) (fuel rounds : ℕ) (fs : List (Frame prog)) (m now : Model W) (w : W)
      (h : OnUnwind) (userdata : ℕ) (r : Result (Flow W))
      → Closes prog (record m { world = w }) now (record { h = h; userdata = userdata })
      → Sound prog fs now r
      → Sound prog fs m (r >>= close prog work_on fuel rounds h userdata)
  unfolding close
  close-Sound work_on fuel rounds fs m now w h userdata (ok (returned t)) c s =
      let (v, ran, models) = closed prog fuel (record m { world = w }) now _ s.0 t c s.1 in
      rw ran (effect prog h userdata s.0, models)
  close-Sound work_on fuel rounds fs m now w h userdata (ok (landed p t)) c s = s
  close-Sound work_on fuel rounds fs m now w h userdata (ok (thread_exited t)) c s = absurd s
  close-Sound work_on fuel rounds fs m now w h userdata (exit n) c s = tt
  close-Sound work_on fuel rounds fs m now w h userdata fault c s = absurd s
  close-Sound work_on fuel rounds fs m now w h userdata hang c s = tt

  Live-restart_for :
      (fs : List (Frame prog)) (s r : SigType) (es : List RestartEntry) (e : RestartEntry)
      → Live prog fs es
      → restart_for s r es ≡ some e
      → (base : Model W) × IsFrame prog fs e.p base
  Live-restart_for fs s r [] e l found = cc
  Live-restart_for fs s r (x ∷ es) e l found = elim (Bool-cases (takes_restart s r x)) [
    | inl takes ↦
        let same : x ≡ e = some-injective (rw takes at found) in
        (l.0.0, subst (λ (y : RestartEntry). IsFrame prog fs y.p l.0.0) same l.0.1)
    | inr passes ↦ Live-restart_for fs s r es e l.1 (rw passes at found)
  ]

  restarted-Sound :
      (fs : List (Frame prog)) (m : Model W) (s r : SigType) (chosen : Option RestartEntry)
      (run : Result (Flow W)) (w : W)
      → restart_for s r m.restarts ≡ chosen
      → Frames prog fs m
      → Live prog fs m.restarts
      → RestartsAt prog chosen (record m { world = w }) run
      → Sound prog fs m run
  restarted-Sound fs m s r none run w chosen f l ends = rw ends tt
  restarted-Sound fs m s r (some e) run w chosen f l (t, lands, models) =
      let (base, at) = Live-restart_for fs s r m.restarts e l chosen in
      let end = unwind_to_point prog e.p m.actions (record m { world = w }) in
      rw lands (landing-Sound prog fs m w e.p end.0 base end.1 t at f refl models)

  answered-Sound :
      (fuel : ℕ) (fs : List (Frame prog)) (m : Model W) (msg : Message) (t : Thread W)
      (c : Choice W) (run : Result (Flow W)) (w : W)
      → IsAnswered c
      → Frames prog fs m
      → Live prog fs m.restarts
      → Models t (record m { world = w })
      → Outcome prog msg fuel c (record m { world = w }) t run
      → Sound prog fs m run
  answered-Sound fuel fs m msg t (declined w') run w a f l s o = rw o (
    w',
    record {
      handlers = s.handlers;
      restarts = s.restarts;
      actions = s.actions;
      same_ref = s.same_ref;
      same_tid = s.same_tid;
      same_global = s.same_global;
      same_world = refl;
    },
  )
  answered-Sound fuel fs m msg t (selected rt w') run w a f l s o =
      restarted-Sound fs m msg.sig_type rt _ run w' refl f l o
  answered-Sound fuel fs m msg t (unhandled w') run w a f l s o = absurd a
  answered-Sound fuel fs m msg t broken run w a f l s o = absurd a

  pub send-Sound :
      (fuel : ℕ) (fs : List (Frame prog)) (m : Model W) (msg : Message) (w : W) (t : Thread W)
      (n : ℕ)
      → ((v : W) → IsAnswered (choose prog msg m.handlers v))
      → Ready fuel fs m n
      → Models t (record m { world = w })
      → Sound prog fs m (sig_send prog fuel msg t)
  send-Sound fuel fs m msg w t n answers r s =
      answered-Sound fuel fs m msg t (choose prog msg m.handlers t.world) (sig_send prog fuel msg t)
        w (answers t.world) r.frames r.live s
        (sig_send-refines prog fuel msg t (record m { world = w }) s (omega (arith, r.enough)))
