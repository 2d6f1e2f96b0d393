-- ===== src/Script/Settled.antt =====
-- Runs that come to an end, and code whose handling of an unwinding does not unwind again.
use libevsig.Base.{
  ℕ, zero, suc, Bool, true, false, ◌∙◌, ==_iff, ==-ne, ◌==◌, ◌≡◌, ap, sym, subst, List, ◌∷◌, Result,
  ok, exit, fault, hang, ◌>>=◌, length,
}
use libevsig.Unwind.{Model, Models}
use libevsig.Send.Restore.{Closes}
use libevsig.Thread.{ReturnPoint, OnUnwind, Thread, Program, Flow, returned, landed, thread_exited}
use libevsig.Script.Syntax.{
  Code, done, leave, jump_to, work, block, send, assert_handler, if_available, action,
  explicit_action, handler, return_point_for, autopop_point, provide, autopop,
}
use libevsig.Script.Run.{next, dismiss}
use libevsig.Script.Frames.{Frame, points, Sound}
use libevsig.Script.Frames.{IsFrame-name, some-injective, Frames}
use libevsig.Script.Run.{resume, retry, close}
use libevsig.Send.Restore.{closed}

-- Code that prints, and so on, and then ends the process.
abbrev pub IsFinal : Code → Type 0
IsFinal (leave n) = Unit
IsFinal (work k c) = IsFinal c
IsFinal _ = ⊥

-- Code that cannot go round: what follows a landing neither sends nor unwinds, or it ends the process.
-- Calm code does not itself send or unwind.
abbrev pub Settles : Bool → Code → Type 0
Settles calm done = Unit
Settles calm (leave n) = Unit
Settles calm (jump_to k) = calm ≡ false
Settles calm (work k c) = Settles calm c
Settles calm (block b c) = Settles calm b × Settles calm c
Settles calm (send m c) = (calm ≡ false) × Settles calm c
Settles calm (assert_handler s msg c) = Settles calm c
Settles calm (if_available s r a b c) = Settles calm a × Settles calm b × Settles calm c
Settles calm (action k u c) = Settles calm c
Settles calm (explicit_action k u c) = Settles calm c
Settles calm (handler s h u c) = Settles calm c
Settles calm (return_point_for b h c) = Settles calm b × Settles true h × Settles calm c
Settles calm (autopop_point h c) = IsFinal h × Settles calm c
Settles calm (provide s b r a c) = Settles calm b × Settles true a × Settles calm c
Settles calm (autopop s r a c) = IsFinal a × Settles calm c

module _ {W : Type 0} where
  -- The run does not go on for ever, and does not land if it is calm.
  abbrev pub Ends : Bool → Result (Flow W) → Type 0
  Ends calm (ok (returned t)) = Unit
  Ends calm (ok (landed p t)) = calm ≡ false
  Ends calm (ok (thread_exited t)) = Unit
  Ends calm (exit n) = Unit
  Ends calm fault = Unit
  Ends calm hang = ⊥

  pub resume-calm :
      (calm : Bool) (d : ℕ) (k : Thread W → Result (Flow W)) (r : Result (Flow W))
      → Ends true r
      → Ends calm (r >>= resume d k)
  resume-calm calm d k (ok (returned t)) e = tt
  resume-calm calm d k (ok (landed p t)) e = cc
  resume-calm calm d k (ok (thread_exited t)) e = tt
  resume-calm calm d k (exit n) e = tt
  resume-calm calm d k fault e = tt
  resume-calm calm d k hang e = absurd e

  pub dismiss-Ends :
      (calm : Bool) (r : Result (Flow W)) → Ends calm r → Ends calm (r >>= next dismiss)
  unfolding dismiss
  dismiss-Ends calm (ok (returned t)) e = tt
  dismiss-Ends calm (ok (landed p t)) e = e
  dismiss-Ends calm (ok (thread_exited t)) e = tt
  dismiss-Ends calm (exit n) e = tt
  dismiss-Ends calm fault e = tt
  dismiss-Ends calm hang e = absurd e

module _ {W : Type 0} (prog : Program W) where
  pub next-Ends :
      (calm : Bool) (fs : List (Frame prog)) (m : Model W) (r : Result (Flow W))
      (k : Thread W → Result (Flow W))
      → Sound prog fs m r
      → Ends calm r
      → ((w : W) (t : Thread W) → Models t (record m { world = w }) → Ends calm (k t))
      → Ends calm (r >>= next k)
  next-Ends calm fs m (ok (returned t)) k s e rest = rest s.0 t s.1
  next-Ends calm fs m (ok (landed p t)) k s e rest = e
  next-Ends calm fs m (ok (thread_exited t)) k s e rest = tt
  next-Ends calm fs m (exit n) k s e rest = tt
  next-Ends calm fs m fault k s e rest = tt
  next-Ends calm fs m hang k s e rest = absurd e

  pub close-Ends :
      (work_on : ℕ → W → W) (fuel rounds : ℕ) (calm : Bool) (fs : List (Frame prog))
      (m now : Model W) (w : W) (h : OnUnwind) (userdata : ℕ) (r : Result (Flow W))
      → Closes prog (record m { world = w }) now (record { h = h; userdata = userdata })
      → Sound prog fs now r
      → Ends calm r
      → Ends calm (r >>= close prog work_on fuel rounds h userdata)
  unfolding close
  close-Ends work_on fuel rounds calm fs m now w h userdata (ok (returned t)) c s e =
      let (v, ran, models) = closed prog fuel (record m { world = w }) now _ s.0 t c s.1 in
      rw ran tt
  close-Ends work_on fuel rounds calm fs m now w h userdata (ok (landed p t)) c s e = e
  close-Ends work_on fuel rounds calm fs m now w h userdata (ok (thread_exited t)) c s e = tt
  close-Ends work_on fuel rounds calm fs m now w h userdata (exit n) c s e = tt
  close-Ends work_on fuel rounds calm fs m now w h userdata fault c s e = tt
  close-Ends work_on fuel rounds calm fs m now w h userdata hang c s e = absurd e

  resume-Ends :
      (calm : Bool) (fs : List (Frame prog)) (m : Model W) (p : ReturnPoint)
      (k : Thread W → Result (Flow W)) (r : Result (Flow W))
      → p.jbuf ≡ length (points prog fs)
      → Frames prog fs m
      → Sound prog ((p, m) ∷ fs) m r
      → Ends calm r
      → ((w : W) (t : Thread W) → Models t (record m { world = w }) → Ends calm (k t))
      → Ends calm (r >>= resume (length (points prog fs)) k)
  resume-Ends calm fs m p k (ok (returned t)) name f s e again = tt
  resume-Ends calm fs m p k (ok (landed q t)) name f (base, w, ((zero, at), models)) e again =
      let same : (p, m) ≡ (q, base) = some-injective at in
      let here : q.jbuf ≡ length (points prog fs) =
        sym (ap (λ (x : Frame prog). x.0.jbuf) same) ∙ name in
      let hit : (q.jbuf == length (points prog fs)) ≡ true =
        (==_iff q.jbuf (length (points prog fs))).1 here in
      rw hit (
        again w t
          (subst (λ (x : Frame prog). Models t (record (x.1) { world = w })) (sym same) models))
  resume-Ends calm fs m p k (ok (landed q t)) name f (base, w, ((suc i, at), models)) e again =
      rw (==-ne (IsFrame-name prog fs m q base f (i, at))) e
  resume-Ends calm fs m p k (ok (thread_exited t)) name f s e again = tt
  resume-Ends calm fs m p k (exit n) name f s e again = tt
  resume-Ends calm fs m p k fault name f s e again = tt
  resume-Ends calm fs m p k hang name f s e again = absurd e

  -- Two rounds are enough where the code after a landing is calm.
  pub retry-Ends :
      (n : ℕ) (calm : Bool) (fs : List (Frame prog)) (m : Model W) (p : ReturnPoint)
      (again first : Thread W → Result (Flow W)) (t : Thread W)
      → p.jbuf ≡ length (points prog fs)
      → Frames prog fs m
      → Sound prog ((p, m) ∷ fs) m (first t)
      → Ends calm (first t)
      → ((w : W) (u : Thread W) → Models u (record m { world = w }) → Ends true (again u))
      → Ends calm (retry (suc (suc n)) (length (points prog fs)) again first t)
  unfolding retry
  retry-Ends n calm fs m p again first t name f s e calmly =
      resume-Ends calm fs m p _ (first t) name f s e
        (λ w u models. resume-calm calm (length (points prog fs)) _ (again u) (calmly w u models))
