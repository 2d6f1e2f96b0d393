-- ===== src/Script/Frames.antt =====
-- The return points in scope, each with the stacks that it stands for, and what a run may come to.
use libevsig.Base.{
  ℕ, zero, suc, ◌≤◌, ◌<◌, ◌≡◌, ◌≢◌, refl, ◌∙◌, ap, sym, subst, true, some, List, [], ◌∷◌, Result,
  ok, exit, fault, hang, ◌>>=◌, arith, length, get_elem?, ◌==◌, ==-ne, ==_iff,
}
use libevsig.Unwind.{Model, Models, unwind_to_point, unwind, jump}
use libevsig.Unwind.Refine.{unwind-refines}
use libevsig.Send.Restore.{Closes, effect, unwind-none, unwind-cons}
use libevsig.Thread.{
  ReturnPoint, UnwindEntry, RestartEntry, Thread, Program, Flow, returned, landed, thread_exited,
}
use libevsig.Script.Run.{next, resume, retry}

pub some-injective {ℓ} : {A : Type ℓ} {a b : A} → some a ≡ some b → a ≡ b
some-injective h = cc

module _ {W : Type 0} (prog : Program W) where
  -- From `cur` unwinding to the height of `base` leads to the stacks of `base`.
  abbrev pub Above : Model W → Model W → Type 0
  Above base cur =
      (length base.actions ≤ length cur.actions)
      × ((p : ReturnPoint) (w : W)
          → p.unwind_to ≡ length base.actions
          → (w' : W) × (unwind_to_point prog p cur.actions (record cur { world = w })
              ≡ (p, record base { world = w' })))

  abbrev pub Frame : Type 0
  Frame = ReturnPoint × Model W

  abbrev pub points : List Frame → List ReturnPoint
  points [] = []
  points ((p, base) ∷ fs) = p ∷ points fs

  -- The points in scope, each named by the number of those around it, below the stacks of `cur`.
  abbrev pub Frames : List Frame → Model W → Type 0
  Frames [] cur = Unit
  Frames ((p, base) ∷ fs) cur =
      (p.unwind_to ≡ length base.actions)
      × (p.jbuf ≡ length (points fs))
      × Above base cur
      × Frames fs cur

  -- A point in scope.
  abbrev pub IsFrame : List Frame → ReturnPoint → Model W → Type 0
  IsFrame fs p base = (i : ℕ) × (get_elem? fs i ≡ some (p, base))

  -- Every restart leads to a point in scope.
  abbrev pub Live : List Frame → List RestartEntry → Type 0
  Live fs [] = Unit
  Live fs (e ∷ es) = ((base : Model W) × IsFrame fs e.p base) × Live fs es

  -- A run that started with the stacks of `m`: it returns with those very stacks, or it lands at a
  -- point in scope with the stacks of that point, or it ends the process, or the fuel runs out.
  abbrev pub Sound : List Frame → Model W → Result (Flow W) → Type 0
  Sound fs m (ok (returned t)) = (w : W) × Models t (record m { world = w })
  Sound fs m (ok (landed p t)) =
      (base : Model W) × (w : W) × (IsFrame fs p base × Models t (record base { world = w }))
  Sound fs m (ok (thread_exited t)) = ⊥
  Sound fs m (exit n) = Unit
  Sound fs m fault = ⊥
  Sound fs m hang = Unit

  Above-self : (m : Model W) → Above m m
  Above-self m = (
    omega arith,
    λ p w e. (w, unwind-none prog p (record m { world = w }) m.actions (omega arith)),
  )

  Above-Closes :
      (base m now : Model W) (e : UnwindEntry) → Closes prog m now e → Above base m → Above base now
  Above-Closes base m now e c a = (
    omega (arith, a.0, ap length c.top),
    λ p w height.
        let (w', back) = a.1 p (effect prog e.h e.userdata w) height in
        (
          w',
          subst
              (λ ys.
                unwind_to_point prog p ys (record now { world = w })
                ≡ (p, record base { world = w' }))
              (sym c.top)
              (unwind-cons prog p e m.actions (record now { world = w }) _ (omega (arith, a.0))
                  (c.undone w)
                ∙ back),
        ),
  )

  pub Frames-Closes :
      (fs : List Frame) (m now : Model W) (e : UnwindEntry)
      → Closes prog m now e
      → Frames fs m
      → Frames fs now
  Frames-Closes [] m now e c f = tt
  Frames-Closes ((p, base) ∷ fs) m now e c f =
      (f.0, f.1, Above-Closes base m now e c f.2, Frames-Closes fs m now e c f.3)

  -- A point that is made here.
  pub Frames-new :
      (fs : List Frame) (p : ReturnPoint) (m : Model W)
      → p.unwind_to ≡ length m.actions
      → p.jbuf ≡ length (points fs)
      → Frames fs m
      → Frames ((p, m) ∷ fs) m
  Frames-new fs p m height name f = (height, name, Above-self m, f)

  pub Live-wider :
      (f : Frame) (fs : List Frame) (es : List RestartEntry) → Live fs es → Live (f ∷ fs) es
  Live-wider f fs [] l = tt
  Live-wider f fs (e ∷ es) l = ((l.0.0, (suc l.0.1.0, l.0.1.1)), Live-wider f fs es l.1)

  IsFrame-below :
      (fs : List Frame) (cur : Model W) (p : ReturnPoint) (base : Model W) (i : ℕ)
      → Frames fs cur
      → get_elem? fs i ≡ some (p, base)
      → (p.unwind_to ≡ length base.actions) × (p.jbuf < length (points fs)) × Above base cur
  IsFrame-below [] cur p base i f at = cc
  IsFrame-below ((q, b) ∷ fs) cur p base zero f at =
      subst
        (λ (x : Frame).
          (x.0.unwind_to ≡ length x.1.actions)
          × (x.0.jbuf < suc (length (points fs)))
          × Above x.1 cur)
        (some-injective at) (f.0, omega (arith, f.1), f.2)
  IsFrame-below ((q, b) ∷ fs) cur p base (suc i) f at =
      let (height, low, above) = IsFrame-below fs cur p base i f.3 at in
      (height, omega (arith, low), above)

  pub landing-Sound :
      (fs : List Frame) (m : Model W) (w : W) (p q : ReturnPoint) (base end : Model W)
      (t : Thread W)
      → IsFrame fs p base
      → Frames fs m
      → unwind_to_point prog p m.actions (record m { world = w }) ≡ (q, end)
      → Models t end
      → Sound fs m (ok (landed q t))
  landing-Sound fs m w p q base end t at f lands s =
      let (height, low, above) = IsFrame-below fs m p base at.0 f at.1 in
      let (w', back) = above.1 p w height in
      let same : (q, end) ≡ (p, record base { world = w' }) = sym lands ∙ back in
      (
        base,
        w',
        (
          subst (λ x. IsFrame fs x base) (sym (ap (λ (x : Frame). x.0) same)) at,
          subst (λ x. Models t x) (ap (λ (x : Frame). x.1) same) s,
        ),
      )

  -- Unwinding to a point in scope, with fuel for all entries, lands there.
  pub unwind-Sound :
      (fuel : ℕ) (fs : List Frame) (m : Model W) (w : W) (t : Thread W) (p : ReturnPoint)
      (base : Model W)
      → IsFrame fs p base
      → Models t (record m { world = w })
      → Frames fs m
      → length m.actions < fuel
      → Sound fs m (jump (unwind prog fuel p t))
  unwind-Sound fuel fs m w t p base at s f enough =
      let (r, lands, post) = unwind-refines prog fuel p t (record m { world = w }) s enough in
      let end : Model W = (unwind_to_point prog p m.actions (record m { world = w })).1 in
      rw lands
        (landing-Sound fs m w p r.0 base end r.1 at f (ap (λ x. (x, end)) (sym post.0)) post.1)

  pub next-Sound :
      (fs : List Frame) (m : Model W) (r : Result (Flow W)) (k : Thread W → Result (Flow W))
      → Sound fs m r
      → ((w : W) (t : Thread W) → Models t (record m { world = w }) → Sound fs m (k t))
      → Sound fs m (r >>= next k)
  next-Sound fs m (ok (returned t)) k s then_sound = then_sound s.0 t s.1
  next-Sound fs m (ok (landed p t)) k s then_sound = s
  next-Sound fs m (ok (thread_exited t)) k s then_sound = absurd s
  next-Sound fs m (exit n) k s then_sound = tt
  next-Sound fs m fault k s then_sound = absurd s
  next-Sound fs m hang k s then_sound = tt

  -- A point named otherwise than those in scope is not landed at.
  pub IsFrame-name :
      (fs : List Frame) (cur : Model W) (p : ReturnPoint) (base : Model W)
      → Frames fs cur
      → IsFrame fs p base
      → p.jbuf ≢ length (points fs)
  IsFrame-name fs cur p base f at e =
      let below = IsFrame-below fs cur p base at.0 f at.1 in omega (arith, below.1, e)

  resume-Sound :
      (fs : List Frame) (m : Model W) (p : ReturnPoint) (k : Thread W → Result (Flow W))
      (r : Result (Flow W))
      → p.jbuf ≡ length (points fs)
      → Frames fs m
      → Sound ((p, m) ∷ fs) m r
      → ((w : W) (t : Thread W) → Models t (record m { world = w }) → Sound fs m (k t))
      → Sound fs m (r >>= resume (length (points fs)) k)
  resume-Sound fs m p k (ok (returned t)) name f s again = s
  resume-Sound fs m p k (ok (landed q t)) name f (base, w, ((zero, at), models)) again =
      let same : (p, m) ≡ (q, base) = some-injective at in
      let here : q.jbuf ≡ length (points fs) = sym (ap (λ (x : Frame). x.0.jbuf) same) ∙ name in
      let hit : (q.jbuf == length (points fs)) ≡ true =
        (==_iff q.jbuf (length (points fs))).1 here in
      rw hit
        (again w t (subst (λ (x : Frame). Models t (record (x.1) { world = w })) (sym same) models))
  resume-Sound fs m p k (ok (landed q t)) name f (base, w, ((suc i, at), models)) again =
      rw (==-ne (IsFrame-name fs m q base f (i, at))) (base, w, ((i, at), models))
  resume-Sound fs m p k (ok (thread_exited t)) name f s again = absurd s
  resume-Sound fs m p k (exit n) name f s again = tt
  resume-Sound fs m p k fault name f s again = absurd s
  resume-Sound fs m p k hang name f s again = tt

  -- `setjmp` at a new point, around code that is sound both at first and after a landing.
  pub retry-Sound :
      (n : ℕ) (fs : List Frame) (m : Model W) (p : ReturnPoint)
      (again first : Thread W → Result (Flow W))
      → p.jbuf ≡ length (points fs)
      → Frames fs m
      → ((w : W) (t : Thread W)
          → Models t (record m { world = w })
          → Sound ((p, m) ∷ fs) m (again t))
      → ((w : W) (t : Thread W)
          → Models t (record m { world = w })
          → Sound ((p, m) ∷ fs) m (first t))
      → (w : W) (t : Thread W) → Models t (record m { world = w })
      → Sound fs m (retry n (length (points fs)) again first t)
  unfolding retry
  retry-Sound zero fs m p again first name f a b w t s = tt
  retry-Sound (suc n) fs m p again first name f a b w t s =
      resume-Sound fs m p (retry n (length (points fs)) again again) (first t) name f (b w t s)
        (retry-Sound n fs m p again again name f a a)

  pub points-get :
      (fs : List Frame) (k : ℕ)
      → k < length (points fs)
      → (p : ReturnPoint) × (base : Model W) × (IsFrame fs p base
          × (get_elem? (points fs) k ≡ some p))
  points-get [] k lt = absurd (omega arith)
  points-get ((p, base) ∷ fs) zero lt = (p, base, ((zero, refl), refl))
  points-get ((q, b) ∷ fs) (suc k) lt =
      let (p, base, (at, found)) = points-get fs k (omega arith) in
      (p, base, ((suc at.0, at.1), found))
