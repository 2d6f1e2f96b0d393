-- ===== src/Script/Sound.antt =====
-- Whatever code does with the macros, as long as its signals are answered, the stacks stay right.
use libevsig.Base.{
  any, Bool-cases, inl, inr, ℕ, zero, suc, ◌+◌, ◌≤◌, ◌≡◌, refl, ap, sym, subst, none, List, ◌∷◌,
  Result, ok, exit, fault, hang, ◌>>=◌, arith, length,
}
use libevsig.Unwind.{Model, Models, return_point, unwind_rm_handler}
use libevsig.Unwind.Refine.{popped}
use libevsig.Send.Scopes.{unwind_action-Models, action_for}
use libevsig.Send.Assert.{sig_assert_handler-returns}
use libevsig.Send.Restore.{Closes}
use libevsig.Thread.{
  SigType, ReturnPoint, OnUnwind, user_action, HandlerEntry, RestartEntry, UnwindEntry, Thread,
  Program, Flow, returned, landed, thread_exited, unwind_handler_sig_rm_restart,
  unwind_handler_sig_rm_handler,
}
use libevsig.Signals.{is_restart_for, sig_restart_available-any}
use libevsig.Script.Syntax.{
  Code, done, leave, jump_to, work, block, send, assert_handler, if_available, action,
  explicit_action, handler, return_point_for, autopop_point, provide, autopop, size,
}
use libevsig.Script.Run.{next, dismiss, with_restart, jump_out, exec}
use libevsig.Script.Frames.{
  Frame, points, IsFrame, Live, Sound, Frames-Closes, unwind-Sound, next-Sound, retry-Sound,
  points-get,
}
use libevsig.Script.Opening.{
  last_id, Opened, autopop_handler-Opened, open_restart-Opened, action-Closes, pushed-low,
}
use libevsig.Script.Fits.{Fits, Ready, Ready-less, Ready-new, Frames-world, close-Sound, send-Sound}

module _ {W : Type 0} (prog : Program W) (work_on : ℕ → W → W) (fuel rounds : ℕ)
    (returns : (k userdata : ℕ) (w : W) → (prog.on_unwind k userdata w).1 ≡ none) where
  -- The state in which the scope of a macro starts.
  pub Ready-Closes :
      {fs : List (Frame prog)} {m now : Model W} {n : ℕ} {e : UnwindEntry} (w : W)
      → Closes prog (record m { world = w }) now e
      → Live prog fs now.restarts
      → last_id now.handlers ≤ last_id m.handlers + 1
      → Ready prog fuel fs m (suc n)
      → Ready prog fuel fs now n
  Ready-Closes {fs} {m} {now} {n} {e} w c live low r = record {
    frames =
        Frames-Closes prog fs (record m { world = w }) now e c (Frames-world prog fs m w r.frames);
    live = live;
    enough = omega (arith, ap length c.top, r.enough);
    ids = omega (arith, low, r.ids);
  }

  pub Ready-Opened :
      {fs : List (Frame prog)} {m : Model W} {n : ℕ} {rs : List RestartEntry}
      {hs : List HandlerEntry} {h : OnUnwind} {run : Result (ℕ × Thread W)} (w : W)
      (o : Opened prog returns (record m { world = w }) hs rs h run)
      → Live prog fs rs
      → last_id hs ≤ last_id m.handlers + 1
      → Ready prog fuel fs m (suc n)
      → Ready prog fuel fs o.now n
  Ready-Opened {fs} {m} {n} {rs} {hs} w o live low r =
      Ready-Closes w o.closes (subst (λ es. Live prog fs es) (sym o.restarts) live)
        (omega (arith, ap last_id o.handlers, low)) r

  dismiss-Sound :
      (fs : List (Frame prog)) (m : Model W) (e : UnwindEntry) (w : W) (r : Result (Flow W))
      → Sound prog fs (record m { actions = e ∷ m.actions; world = w }) r
      → Sound prog fs m (r >>= next dismiss)
  unfolding dismiss unwind_rm_handler
  dismiss-Sound fs m e w (ok (returned t)) s = (s.0, popped prog t _ s.1 refl)
  dismiss-Sound fs m e w (ok (landed p t)) s = s
  dismiss-Sound fs m e w (ok (thread_exited t)) s = absurd s
  dismiss-Sound fs m e w (exit n) s = tt
  dismiss-Sound fs m e w fault s = absurd s
  dismiss-Sound fs m e w hang s = tt

  pub with_restart-Sound :
      (fs : List (Frame prog)) (m base : Model W) (w : W) (t : Thread W) (s r : SigType)
      (p : ReturnPoint) (inner : Thread W → Result (Flow W)) (n : ℕ)
      → IsFrame prog fs p base
      → Ready prog fuel fs m (suc n)
      → Models t (record m { world = w })
      → ((now : Model W) (u : Thread W)
          → now.handlers ≡ m.handlers
          → Ready prog fuel fs now n
          → Models u now
          → Sound prog fs now (inner u))
      → Sound prog fs m (with_restart prog work_on fuel rounds s r p inner t)
  unfolding with_restart
  with_restart-Sound fs m base w t s r p inner n at ready models sound =
      let o = open_restart-Opened prog returns t (record m { world = w }) s r p models in
      rw o.result (
        close-Sound prog work_on fuel rounds fs m o.now w unwind_handler_sig_rm_restart o.id _
          o.closes
          (sound o.now o.thread o.handlers
            (Ready-Opened w o ((base, at), ready.live) (omega arith) ready) o.models))

  pub worked :
      {t : Thread W} {m : Model W} (f : W → W)
      → Models t m
      → Models (record t { world = f t.world }) (record m { world = f m.world })
  worked f s = record {
    handlers = s.handlers;
    restarts = s.restarts;
    actions = s.actions;
    same_ref = s.same_ref;
    same_tid = s.same_tid;
    same_global = s.same_global;
    same_world = ap f s.same_world;
  }

  -- Code that fits in where it stands, with unwind actions that return, and ids and fuel for all
  -- its entries, ends in one of four ways: it returns with the stacks it started with, it lands at
  -- a return point in scope with the stacks of that point, it ends the process, or it runs on.
  pub exec-Sound :
      (c : Code) (fs : List (Frame prog)) (m : Model W) (w : W) (t : Thread W)
      → Fits prog (length (points prog fs)) m.handlers c
      → Ready prog fuel fs m (size c)
      → Models t (record m { world = w })
      → Sound prog fs m (exec prog work_on fuel rounds (points prog fs) c t)
  unfolding exec dismiss return_point jump_out
  exec-Sound done fs m w t fits r s = (w, s)
  exec-Sound (leave n) fs m w t fits r s = tt
  exec-Sound (jump_to k) fs m w t fits r s =
      let (p, base, (at, found)) = points-get prog fs k fits in
      subst (λ o. Sound prog fs m (jump_out prog work_on fuel rounds o t)) (sym found)
        (unwind-Sound prog fuel fs m w t p base at s r.frames (omega (arith, r.enough)))
  exec-Sound (work k c) fs m w t fits r s =
      exec-Sound c fs m (work_on k w) _ fits r (worked (work_on k) s)
  exec-Sound (block b c) fs m w t fits r s =
      next-Sound prog fs m _ _
        (exec-Sound b fs m w t fits.0 (Ready-less prog (size b) (omega arith) r) s)
        (λ w' u s'. exec-Sound c fs m w' u fits.1 (Ready-less prog (size c) (omega arith) r) s')
  exec-Sound (send msg c) fs m w t fits r s =
      next-Sound prog fs m _ _ (send-Sound prog fuel fs m msg w t (size c) fits.0 r s)
        (λ w' u s'. exec-Sound c fs m w' u fits.1 r s')
  exec-Sound (assert_handler s msg c) fs m w t (found, fits) r models =
      rw (sig_assert_handler-returns prog fuel s msg t (record m { world = w }) found models)
        (exec-Sound c fs m w t fits r models)
  exec-Sound (if_available s r a b c) fs m w t fits rd models =
      let rest = λ (w' : W) (u : Thread W) (s' : Models u (record m { world = w' })).
        exec-Sound c fs m w' u fits.2 (Ready-less prog (size c) (omega arith) rd) s' in
      elim (Bool-cases (any (is_restart_for s r) m.restarts)) [
        | inl there ↦
            rw (sig_restart_available-any t.restarts s r models.restarts, there)
              (next-Sound prog fs m _ _
                (exec-Sound a fs m w t fits.0 (Ready-less prog (size a) (omega arith) rd) models)
                rest)
        | inr missing ↦
            rw (sig_restart_available-any t.restarts s r models.restarts, missing)
              (next-Sound prog fs m _ _
                (exec-Sound b fs m w t fits.1 (Ready-less prog (size b) (omega arith) rd) models)
                rest)
      ]
  exec-Sound (action k userdata c) fs m w t fits r s =
      let (u, pushes, models) =
        unwind_action-Models t (action_for (user_action k) userdata) (record m { world = w }) s in
      let c_ = action-Closes prog returns (record m { world = w }) k userdata in
      rw pushes (
        close-Sound prog work_on fuel rounds fs m _ w (user_action k) userdata _ c_
          (exec-Sound c fs _ w u fits (Ready-Closes w c_ r.live (omega arith) r) models))
  exec-Sound (explicit_action k userdata c) fs m w t fits r s =
      let (u, pushes, models) =
        unwind_action-Models t (action_for (user_action k) userdata) (record m { world = w }) s in
      let c_ = action-Closes prog returns (record m { world = w }) k userdata in
      rw pushes (
        dismiss-Sound fs m (action_for (user_action k) userdata) w _
          (exec-Sound c fs _ w u fits (Ready-Closes w c_ r.live (omega arith) r) models))
  exec-Sound (handler sig_type h userdata c) fs m w t fits r s =
      let o =
        autopop_handler-Opened prog returns t (record m { world = w }) sig_type h userdata
          (omega (arith, r.ids)) s in
      rw o.result (
        close-Sound prog work_on fuel rounds fs m o.now w unwind_handler_sig_rm_handler o.id _
          o.closes
          (exec-Sound c fs o.now o.now.world o.thread
            (subst (λ hs. Fits prog (length (points prog fs)) hs c) (sym o.handlers) fits)
            (Ready-Opened w o r.live (pushed-low m.handlers sig_type h userdata) r) o.models))
  exec-Sound (return_point_for b h c) fs m w t fits r s =
      let p : ReturnPoint = return_point t (length (points prog fs)) in
      let at_point = Ready-new prog p s.actions.filled refl r in
      next-Sound prog fs m _ _
        (retry-Sound prog rounds fs m p _ _ refl r.frames
          (λ w' u s'.
            exec-Sound h ((p, m) ∷ fs) m w' u fits.1
              (Ready-less prog (size h) (omega arith) at_point) s')
          (λ w' u s'.
            exec-Sound b ((p, m) ∷ fs) m w' u fits.0
              (Ready-less prog (size b) (omega arith) at_point) s')
          w t s)
        (λ w' u s'. exec-Sound c fs m w' u fits.2 (Ready-less prog (size c) (omega arith) r) s')
  exec-Sound (autopop_point h c) fs m w t fits r s =
      let p : ReturnPoint = return_point t (length (points prog fs)) in
      let at_point = Ready-new prog p s.actions.filled refl r in
      let rest = λ (w' : W) (u : Thread W) (s' : Models u (record m { world = w' })).
        exec-Sound c ((p, m) ∷ fs) m w' u fits.1 (Ready-less prog (size c) (omega arith) at_point)
          s' in
      retry-Sound prog rounds fs m p _ _ refl r.frames
        (λ w' u s'.
          next-Sound prog ((p, m) ∷ fs) m _ _
            (exec-Sound h ((p, m) ∷ fs) m w' u fits.0
              (Ready-less prog (size h) (omega arith) at_point) s')
            rest)
        rest w t s
  exec-Sound (provide sig_type b restart_type a c) fs m w t fits r s =
      let p : ReturnPoint = return_point t (length (points prog fs)) in
      let at_point = Ready-new prog p s.actions.filled refl r in
      next-Sound prog fs m _ _
        (retry-Sound prog rounds fs m p _ _ refl r.frames
          (λ w' u s'.
            exec-Sound a ((p, m) ∷ fs) m w' u fits.1
              (Ready-less prog (size a) (omega arith) at_point) s')
          (λ w' u s'.
            with_restart-Sound ((p, m) ∷ fs) m m w' u sig_type restart_type p _ (size b)
              (zero, refl) (Ready-less prog (suc (size b)) (omega arith) at_point) s'
              (λ now v same ready models.
                exec-Sound b ((p, m) ∷ fs) now now.world v
                  (subst (λ hs. Fits prog (suc (length (points prog fs))) hs b) (sym same) fits.0)
                  ready models))
          w t s)
        (λ w' u s'. exec-Sound c fs m w' u fits.2 (Ready-less prog (size c) (omega arith) r) s')
  exec-Sound (autopop sig_type restart_type a c) fs m w t fits r s =
      let p : ReturnPoint = return_point t (length (points prog fs)) in
      let at_point = Ready-new prog p s.actions.filled refl r in
      let rest = λ (w' : W) (u : Thread W) (s' : Models u (record m { world = w' })).
        with_restart-Sound ((p, m) ∷ fs) m m w' u sig_type restart_type p
          (exec prog work_on fuel rounds (p ∷ points prog fs) c) (size c) (zero, refl)
          (Ready-less prog (suc (size c)) (omega arith) at_point) s'
          (λ now v same ready models.
            exec-Sound c ((p, m) ∷ fs) now now.world v
              (subst (λ hs. Fits prog (suc (length (points prog fs))) hs c) (sym same) fits.1) ready
              models) in
      retry-Sound prog rounds fs m p _ _ refl r.frames
        (λ w' u s'.
          next-Sound prog ((p, m) ∷ fs) m _ _
            (exec-Sound a ((p, m) ∷ fs) m w' u fits.0
              (Ready-less prog (size a) (omega arith) at_point) s')
            rest)
        rest w t s
