-- ===== src/Sigwrap/ReturnedValue.antt =====
-- The error numbers that src/libevsig/sigwrap_pthread.c takes from the result of a call.
use libevsig.Base.{
  ℕ, ◌<◌, ◌≡◌, ◌≢◌, refl, ◌∙◌, ap, subst, ==-ne, true, List, ◌∷◌, [], ◌++◌, ok, ◌>>=◌, length,
}
use libevsig.Thread.{Thread, Program, HandlerEntry}
use libevsig.Signals.Names.{signal_all}
use libevsig.Unwind.{Model, Models}
use libevsig.Send.{catchall}
use libevsig.Send.Spec.{unhandled, choose}
use libevsig.Send.Setup.{catchall_entry}
use libevsig.Errno.{sig_from_errno}
use libevsig.Sigwrap.Names.{Function}
use libevsig.Sigwrap.Ops.{
  System, gives, Failure, fails, reported, returned_value, plain, and_then, checked,
}
use libevsig.Sigwrap.Laws.{Reports, checked-Reports}

returned_value-null : (out errno : ℕ) → errno ≡ 0 → reported returned_value out errno ≡ 0
unfolding reported sig_from_errno
returned_value-null out errno e = rw e refl

module _ {W : Type 0} (prog : Program W) (sys : System W) (fuel : ℕ) where
  -- No handler for all signals, and none for null.
  abbrev pub Specific : List HandlerEntry → Type 0
  Specific [] = Unit
  Specific (e ∷ es) = (e.sig_type ≢ 0) × (e.sig_type ≢ signal_all) × Specific es

  choose-null :
      (hs : List HandlerEntry) (w : W)
      → Specific hs
      → choose prog (plain 0) (hs ++ catchall_entry ∷ []) w ≡ unhandled w
  choose-null [] w s = refl
  choose-null (e ∷ hs) w s = rw (==-ne s.0, ==-ne s.1) (choose-null hs w s.2)

  -- Where `errno` is 0, as the thread functions leave it, each error number that a wrapper takes from
  -- the result comes out as the null signal type: whichever handlers for single signal types there
  -- are above the catch-all handler, none of them is asked.
  pub returned_value-unheard :
      (f : Function) (failure : Failure) (args : List ℕ) (t : Thread W) (md : Model W)
      (hs : List HandlerEntry)
      → fails failure (sys.call f args t.world).out ≡ true
      → (sys.call f args t.world).errno ≡ 0
      → md.handlers ≡ hs ++ catchall_entry ∷ []
      → Specific hs
      → Models (record t { world = (sys.call f args t.world).world }) md
      → length md.actions < fuel
      → checked prog sys fuel f failure returned_value args t ≡ (
          catchall prog fuel 0 1 (record t { world = (sys.call f args t.world).world })
          >>= and_then (λ v. ok (gives (sys.call f args t.world).out v)))
  returned_value-unheard f failure args t md hs bad clear lists specific s enough =
      let a = sys.call f args t.world in
      let u : Thread W = record t { world = a.world } in
      let run = checked prog sys fuel f failure returned_value args t in
      let reports = checked-Reports prog sys fuel f failure returned_value args t md bad s enough in
      let heard =
        subst
          (λ ty.
            Reports prog (plain ty) fuel a.out (choose prog (plain ty) md.handlers a.world) md u
              run)
          (returned_value-null a.out a.errno clear) reports in
      subst (λ c. Reports prog (plain 0) fuel a.out c md u run)
        (ap (λ l. choose prog (plain 0) l a.world) lists ∙ choose-null hs a.world specific) heard
