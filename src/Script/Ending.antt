-- ===== src/Script/Ending.antt =====
-- Code that settles comes to an end.
use libevsig.Base.{
  any, Bool-cases, inl, inr, ℕ, zero, suc, Bool, true, false, Option, some, none, ◌<◌, ◌≡◌, refl,
  sym, subst, none, List, ◌∷◌, Result, ◌>>=◌, arith, length, get_elem?,
}
use libevsig.Unwind.{Model, Models, return_point}
use libevsig.Send.Scopes.{unwind_action-Models, action_for}
use libevsig.Thread.{
  SigType, ReturnPoint, user_action, RestartEntry, Thread, Program, Flow,
  unwind_handler_sig_rm_restart, unwind_handler_sig_rm_handler,
}
use libevsig.Signals.{is_restart_for, sig_restart_available-any}
use libevsig.Script.Syntax.{
  Code, done, leave, jump_to, work, block, send, assert_handler, if_available, action,
  explicit_action, handler, return_point_for, autopop_point, provide, autopop, size,
}
use libevsig.Script.Run.{next, dismiss, with_restart, jump_out, exec}
use libevsig.Script.Frames.{Frame, points, IsFrame, Sound, retry-Sound, points-get}
use libevsig.Script.Opening.{autopop_handler-Opened, open_restart-Opened, action-Closes, pushed-low}
use libevsig.Script.Fits.{Fits, Ready, Ready-less, Ready-new, send-Sound}
use libevsig.Script.Fits.{IsAnswered}
use libevsig.Script.Sound.{Ready-Closes, Ready-Opened, with_restart-Sound, worked, exec-Sound}
use libevsig.Script.Settled.{
  IsFinal, Settles, Ends, next-Ends, close-Ends, dismiss-Ends, retry-Ends,
}
use libevsig.Send.{Message, sig_send}
use libevsig.Send.Spec.{Choice, declined, selected, unhandled, broken, choose, RestartsAt, Outcome}
use libevsig.Send.Assert.{sig_assert_handler-returns}
use libevsig.Send.Refine.{sig_send-refines}
use libevsig.Unwind.{unwind, jump}
use libevsig.Unwind.Refine.{unwind-refines}
use libevsig.Thread.{RestartEntry}

module _ {W : Type 0} (prog : Program W) where
  restarted-Ends :
      (chosen : Option RestartEntry) (m : Model W) (run : Result (Flow W))
      → RestartsAt prog chosen m run
      → Ends false run
  restarted-Ends none m run ends = rw ends tt
  restarted-Ends (some e) m run (t, lands, models) = rw lands refl

  answered-Ends :
      (fuel : ℕ) (msg : Message) (c : Choice W) (m : Model W) (t : Thread W) (run : Result (Flow W))
      → IsAnswered prog c
      → Outcome prog msg fuel c m t run
      → Ends false run
  answered-Ends fuel msg (declined w) m t run a o = rw o tt
  answered-Ends fuel msg (selected r w) m t run a o =
      restarted-Ends _ (record m { world = w }) run o
  answered-Ends fuel msg (unhandled w) m t run a o = absurd a
  answered-Ends fuel msg broken m t run a o = absurd a

module _ {W : Type 0} (prog : Program W) (work_on : ℕ → W → W) (fuel n : ℕ)
    (returns : (k userdata : ℕ) (w : W) → (prog.on_unwind k userdata w).1 ≡ none) where
  abbrev rounds : ℕ
  rounds = suc (suc n)

  final-exits :
      (calm : Bool) (a : Code) (ps : List ReturnPoint) (t : Thread W)
      (k : Thread W → Result (Flow W))
      → IsFinal a
      → Ends calm (exec prog work_on fuel rounds ps a t >>= next k)
  unfolding exec
  final-exits calm (leave i) ps t k f = tt
  final-exits calm (work i c) ps t k f = final-exits calm c ps _ k f
  final-exits calm done ps t k f = absurd f
  final-exits calm (jump_to i) ps t k f = absurd f
  final-exits calm (block b c) ps t k f = absurd f
  final-exits calm (send m c) ps t k f = absurd f
  final-exits calm (assert_handler s msg c) ps t k f = absurd f
  final-exits calm (if_available s r a b c) ps t k f = absurd f
  final-exits calm (action i u c) ps t k f = absurd f
  final-exits calm (explicit_action i u c) ps t k f = absurd f
  final-exits calm (handler s h u c) ps t k f = absurd f
  final-exits calm (return_point_for b h c) ps t k f = absurd f
  final-exits calm (autopop_point h c) ps t k f = absurd f
  final-exits calm (provide s b r a c) ps t k f = absurd f
  final-exits calm (autopop s r a c) ps t k f = absurd f

  unwind-Ends :
      (m : Model W) (w : W) (t : Thread W) (p : ReturnPoint)
      → Models t (record m { world = w })
      → length m.actions < fuel
      → Ends false (jump (unwind prog fuel p t))
  unwind-Ends m w t p s enough =
      let (r, lands, post) = unwind-refines prog fuel p t (record m { world = w }) s enough in
      rw lands refl

  with_restart-Ends :
      (calm : Bool) (fs : List (Frame prog)) (m base : Model W) (w : W) (t : Thread W)
      (s r : SigType) (p : ReturnPoint) (inner : Thread W → Result (Flow W)) (k : ℕ)
      → IsFrame prog fs p base
      → Ready prog fuel fs m (suc k)
      → Models t (record m { world = w })
      → ((now : Model W) (u : Thread W)
          → now.handlers ≡ m.handlers
          → Ready prog fuel fs now k
          → Models u now
          → Sound prog fs now (inner u) × Ends calm (inner u))
      → Ends calm (with_restart prog work_on fuel rounds s r p inner t)
  unfolding with_restart
  with_restart-Ends calm fs m base w t s r p inner k at ready models runs =
      let o = open_restart-Opened prog returns t (record m { world = w }) s r p models in
      let both =
        runs o.now o.thread o.handlers
          (Ready-Opened prog work_on fuel rounds returns w o ((base, at), ready.live) (omega arith)
            ready)
          o.models in
      rw o.result (
        close-Ends prog work_on fuel rounds calm fs m o.now w unwind_handler_sig_rm_restart o.id _
          o.closes both.0 both.1)

  -- Code with a restart of its own, if the code itself ends.
  restartable :
      (calm : Bool) (c : Code) (fs : List (Frame prog)) (m : Model W) (p : ReturnPoint)
      (sig_type restart_type : SigType)
      → ((now : Model W) (u : Thread W)
          → Fits prog (suc (length (points prog fs))) now.handlers c
          → Ready prog fuel ((p, m) ∷ fs) now (size c)
          → Models u now
          → Ends calm (exec prog work_on fuel rounds (p ∷ points prog fs) c u))
      → Fits prog (suc (length (points prog fs))) m.handlers c
      → Ready prog fuel ((p, m) ∷ fs) m (suc (size c))
      → (let run =
            with_restart prog work_on fuel rounds sig_type restart_type p
              (exec prog work_on fuel rounds (p ∷ points prog fs) c) in
          ((w : W) (t : Thread W)
            → Models t (record m { world = w })
            → Sound prog ((p, m) ∷ fs) m (run t))
          × ((w : W) (t : Thread W) → Models t (record m { world = w }) → Ends calm (run t)))
  restartable calm c fs m p sig_type restart_type inner fits ready =
      let fits_in = λ (now : Model W) (same : now.handlers ≡ m.handlers).
        subst (λ hs. Fits prog (suc (length (points prog fs))) hs c) (sym same) fits in
      let sound =
        λ (now : Model W) (v : Thread W) (same : now.handlers ≡ m.handlers)
            (r : Ready prog fuel ((p, m) ∷ fs) now (size c)) (s : Models v now).
          exec-Sound prog work_on fuel rounds returns c ((p, m) ∷ fs) now now.world v
            (fits_in now same) r s in
      (
        λ w t s.
            with_restart-Sound prog work_on fuel rounds returns ((p, m) ∷ fs) m m w t sig_type
              restart_type p _ (size c) (zero, refl) ready s sound,
        λ w t s.
            with_restart-Ends calm ((p, m) ∷ fs) m m w t sig_type restart_type p _ (size c)
              (zero, refl) ready s
              (λ now v same r s'. (sound now v same r s', inner now v (fits_in now same) r s')),
      )

  -- Code that fits in where it stands, and that settles, comes to an end; calm code does not land.
  pub exec-Ends :
      (calm : Bool) (c : Code) (fs : List (Frame prog)) (m : Model W) (w : W) (t : Thread W)
      → Settles calm c
      → Fits prog (length (points prog fs)) m.handlers c
      → Ready prog fuel fs m (size c)
      → Models t (record m { world = w })
      → Ends calm (exec prog work_on fuel rounds (points prog fs) c t)
  unfolding exec dismiss return_point jump_out
  exec-Ends calm done fs m w t settles fits r s = tt
  exec-Ends calm (leave i) fs m w t settles fits r s = tt
  exec-Ends calm (jump_to k) fs m w t settles fits r s =
      let (p, base, (at, found)) = points-get prog fs k fits in
      subst (λ b. Ends b (jump_out prog work_on fuel rounds (get_elem? (points prog fs) k) t))
        (sym settles)
        (subst (λ o. Ends false (jump_out prog work_on fuel rounds o t)) (sym found)
          (unwind-Ends m w t p s (omega (arith, r.enough))))
  exec-Ends calm (work k c) fs m w t settles fits r s =
      exec-Ends calm c fs m (work_on k w) _ settles fits r
        (worked prog work_on fuel rounds returns (work_on k) s)
  exec-Ends calm (block b c) fs m w t settles fits r s =
      let first = Ready-less prog (size b) (omega arith) r in
      next-Ends prog calm fs m _ _
        (exec-Sound prog work_on fuel rounds returns b fs m w t fits.0 first s)
        (exec-Ends calm b fs m w t settles.0 fits.0 first s)
        (λ w' u s'.
          exec-Ends calm c fs m w' u settles.1 fits.1 (Ready-less prog (size c) (omega arith) r) s')
  exec-Ends calm (send msg c) fs m w t settles fits r s =
      next-Ends prog calm fs m _ _ (send-Sound prog fuel fs m msg w t (size c) fits.0 r s)
        (subst (λ b. Ends b (sig_send prog fuel msg t)) (sym settles.0)
          (answered-Ends prog fuel msg (choose prog msg m.handlers t.world) (record m { world = w })
            t (sig_send prog fuel msg t) (fits.0 t.world)
            (sig_send-refines prog fuel msg t (record m { world = w }) s
              (omega (arith, r.enough)))))
        (λ w' u s'. exec-Ends calm c fs m w' u settles.1 fits.1 r s')
  exec-Ends calm (assert_handler s msg c) fs m w t settles (found, fits) r models =
      rw (sig_assert_handler-returns prog fuel s msg t (record m { world = w }) found models)
        (exec-Ends calm c fs m w t settles fits r models)
  exec-Ends calm (if_available s r a b c) fs m w t settles fits rd models =
      let rest = λ (w' : W) (u : Thread W) (s' : Models u (record m { world = w' })).
        exec-Ends calm c fs m w' u settles.2 fits.2 (Ready-less prog (size c) (omega arith) rd)
          s' in
      let of_a = Ready-less prog (size a) (omega arith) rd in
      let of_b = Ready-less prog (size b) (omega arith) rd in
      elim (Bool-cases (any (is_restart_for s r) m.restarts)) [
        | inl there ↦
            rw (sig_restart_available-any t.restarts s r models.restarts, there)
              (next-Ends prog calm fs m _ _
                (exec-Sound prog work_on fuel rounds returns a fs m w t fits.0 of_a models)
                (exec-Ends calm a fs m w t settles.0 fits.0 of_a models) rest)
        | inr missing ↦
            rw (sig_restart_available-any t.restarts s r models.restarts, missing)
              (next-Ends prog calm fs m _ _
                (exec-Sound prog work_on fuel rounds returns b fs m w t fits.1 of_b models)
                (exec-Ends calm b fs m w t settles.1 fits.1 of_b models) rest)
      ]
  exec-Ends calm (action k userdata c) fs m w t settles fits r s =
      let (u, pushes, models) =
        unwind_action-Models t (action_for (user_action k) userdata) (record m { world = w }) s in
      let c_ = action-Closes prog returns (record m { world = w }) k userdata in
      let inner = Ready-Closes prog work_on fuel rounds returns w c_ r.live (omega arith) r in
      rw pushes (
        close-Ends prog work_on fuel rounds calm fs m _ w (user_action k) userdata _ c_
          (exec-Sound prog work_on fuel rounds returns c fs _ w u fits inner models)
          (exec-Ends calm c fs _ w u settles fits inner models))
  exec-Ends calm (explicit_action k userdata c) fs m w t settles fits r s =
      let (u, pushes, models) =
        unwind_action-Models t (action_for (user_action k) userdata) (record m { world = w }) s in
      let c_ = action-Closes prog returns (record m { world = w }) k userdata in
      rw pushes (
        dismiss-Ends calm _ (
          exec-Ends calm c fs _ w u settles fits
            (Ready-Closes prog work_on fuel rounds returns w c_ r.live (omega arith) r) models))
  exec-Ends calm (handler sig_type h userdata c) fs m w t settles fits r s =
      let o =
        autopop_handler-Opened prog returns t (record m { world = w }) sig_type h userdata
          (omega (arith, r.ids)) s in
      let inner_fits =
        subst (λ hs. Fits prog (length (points prog fs)) hs c) (sym o.handlers) fits in
      let inner =
        Ready-Opened prog work_on fuel rounds returns w o r.live
          (pushed-low m.handlers sig_type h userdata) r in
      rw o.result (
        close-Ends prog work_on fuel rounds calm fs m o.now w unwind_handler_sig_rm_handler o.id _
          o.closes
          (exec-Sound prog work_on fuel rounds returns c fs o.now o.now.world o.thread inner_fits
            inner o.models)
          (exec-Ends calm c fs o.now o.now.world o.thread settles inner_fits inner o.models))
  exec-Ends calm (return_point_for b h c) fs m w t settles fits r s =
      let p : ReturnPoint = return_point t (length (points prog fs)) in
      let run = exec prog work_on fuel rounds (p ∷ points prog fs) in
      let at_point = Ready-new prog p s.actions.filled refl r in
      let in_body = Ready-less prog (size b) (omega arith) at_point in
      let in_handling = Ready-less prog (size h) (omega arith) at_point in
      next-Ends prog calm fs m _ _
        (retry-Sound prog rounds fs m p _ _ refl r.frames
          (λ w' u s'.
            exec-Sound prog work_on fuel rounds returns h ((p, m) ∷ fs) m w' u fits.1 in_handling
              s')
          (λ w' u s'.
            exec-Sound prog work_on fuel rounds returns b ((p, m) ∷ fs) m w' u fits.0 in_body s')
          w t s)
        (retry-Ends prog n calm fs m p (run h) (run b) t refl r.frames
          (exec-Sound prog work_on fuel rounds returns b ((p, m) ∷ fs) m w t fits.0 in_body s)
          (exec-Ends calm b ((p, m) ∷ fs) m w t settles.0 fits.0 in_body s)
          (λ w' u s'. exec-Ends true h ((p, m) ∷ fs) m w' u settles.1 fits.1 in_handling s'))
        (λ w' u s'.
          exec-Ends calm c fs m w' u settles.2 fits.2 (Ready-less prog (size c) (omega arith) r) s')
  exec-Ends calm (autopop_point h c) fs m w t settles fits r s =
      let p : ReturnPoint = return_point t (length (points prog fs)) in
      let run = exec prog work_on fuel rounds (p ∷ points prog fs) in
      let inner =
        Ready-less prog (size c) (omega arith) (Ready-new prog p s.actions.filled refl r) in
      retry-Ends prog n calm fs m p (λ u. run h u >>= next (run c)) (run c) t refl r.frames
        (exec-Sound prog work_on fuel rounds returns c ((p, m) ∷ fs) m w t fits.1 inner s)
        (exec-Ends calm c ((p, m) ∷ fs) m w t settles.1 fits.1 inner s)
        (λ w' u s'. final-exits true h (p ∷ points prog fs) u (run c) settles.0)
  exec-Ends calm (provide sig_type b restart_type a c) fs m w t settles fits r s =
      let p : ReturnPoint = return_point t (length (points prog fs)) in
      let run = exec prog work_on fuel rounds (p ∷ points prog fs) in
      let at_point = Ready-new prog p s.actions.filled refl r in
      let in_body = Ready-less prog (suc (size b)) (omega arith) at_point in
      let in_action = Ready-less prog (size a) (omega arith) at_point in
      let (sound, ends) =
        restartable calm b fs m p sig_type restart_type
          (λ now u f ready s'. exec-Ends calm b ((p, m) ∷ fs) now now.world u settles.0 f ready s')
          fits.0 in_body in
      next-Ends prog calm fs m _ _
        (retry-Sound prog rounds fs m p _ _ refl r.frames
          (λ w' u s'.
            exec-Sound prog work_on fuel rounds returns a ((p, m) ∷ fs) m w' u fits.1 in_action s')
          sound w t s)
        (retry-Ends prog n calm fs m p (run a)
          (with_restart prog work_on fuel rounds sig_type restart_type p (run b)) t refl r.frames
          (sound w t s) (ends w t s)
          (λ w' u s'. exec-Ends true a ((p, m) ∷ fs) m w' u settles.1 fits.1 in_action s'))
        (λ w' u s'.
          exec-Ends calm c fs m w' u settles.2 fits.2 (Ready-less prog (size c) (omega arith) r) s')
  exec-Ends calm (autopop sig_type restart_type a c) fs m w t settles fits r s =
      let p : ReturnPoint = return_point t (length (points prog fs)) in
      let run = exec prog work_on fuel rounds (p ∷ points prog fs) in
      let rest = with_restart prog work_on fuel rounds sig_type restart_type p (run c) in
      let inner =
        Ready-less prog (suc (size c)) (omega arith) (Ready-new prog p s.actions.filled refl r) in
      let (sound, ends) =
        restartable calm c fs m p sig_type restart_type
          (λ now u f ready s'. exec-Ends calm c ((p, m) ∷ fs) now now.world u settles.1 f ready s')
          fits.1 inner in
      retry-Ends prog n calm fs m p (λ u. run a u >>= next rest) rest t refl r.frames (sound w t s)
        (ends w t s) (λ w' u s'. final-exits true a (p ∷ points prog fs) u rest settles.0)
