-- ===== src/Sigwrap/Laws.antt =====
-- What a wrapper gives back, which signal it sends, and what goes wrong.
use libevsig.Base.{
  ℕ, ◌<◌, ◌≡◌, refl, true, false, List, Option, none, some, Result, ok, exit, fault, ◌>>=◌, length,
}
use libevsig.Thread.{Thread, Program, Flow, landed, RestartEntry}
use libevsig.Unwind.{Model, Models, unwind_to_point}
use libevsig.Send.{Message, sig_send, catchall}
use libevsig.Send.Spec.{
  Choice, declined, selected, unhandled, broken, choose, restart_for, RestartsAt, Outcome,
}
use libevsig.Send.Refine.{sig_send-refines}
use libevsig.Sigwrap.Names.{Function}
use libevsig.Sigwrap.Ops.{
  System, Wrapped, gives, left, Failure, fails, Report, reported, plain, and_then, checked,
}

module _ {W : Type 0} (prog : Program W) where
  -- A restart that was selected: it is landed at, or the process ends if there is none.
  abbrev pub Restarts : Option RestartEntry → Model W → Result (Wrapped W) → Type 0
  Restarts none md run = run ≡ exit 1
  Restarts (some e) md run =
      (t : Thread W) × (run ≡ ok (left (landed (unwind_to_point prog e.p md.actions md).0 t)))
      × Models t (unwind_to_point prog e.p md.actions md).1

  -- How a wrapper ends whose call gave `out` and failed, in a state with these lists.
  abbrev pub Reports : Message → ℕ → ℕ → Choice W → Model W → Thread W → Result (Wrapped W) → Type 0
  Reports m fuel out (declined w) md t run = run ≡ ok (gives out (record t { world = w }))
  Reports m fuel out (selected r w) md t run =
      Restarts (restart_for m.sig_type r md.restarts) (record md { world = w }) run
  Reports m fuel out (unhandled w) md t run = run ≡ (
      catchall prog fuel m.sig_type m.msg (record t { world = w })
      >>= and_then (λ v. ok (gives out v)))
  Reports m fuel out broken md t run = run ≡ fault

  abbrev giving : ℕ → Thread W → Result (Wrapped W)
  giving out v = ok (gives out v)

  restarted-Restarts :
      (out : ℕ) (chosen : Option RestartEntry) (md : Model W) (run : Result (Flow W))
      → RestartsAt prog chosen md run
      → Restarts chosen md (run >>= and_then (giving out))
  restarted-Restarts out none md run ends = rw ends refl
  restarted-Restarts out (some e) md run (t, lands, models) = (t, (rw lands refl), models)

  sent-Reports :
      (m : Message) (fuel out : ℕ) (c : Choice W) (md : Model W) (t : Thread W)
      (run : Result (Flow W))
      → Outcome prog m fuel c md t run
      → Reports m fuel out c md t (run >>= and_then (giving out))
  sent-Reports m fuel out (declined w) md t run o = rw o refl
  sent-Reports m fuel out (selected r w) md t run o =
      restarted-Restarts out (restart_for m.sig_type r md.restarts) (record md { world = w }) run o
  sent-Reports m fuel out (unhandled w) md t run o = rw o refl
  sent-Reports m fuel out broken md t run o = rw o refl

module _ {W : Type 0} (prog : Program W) (sys : System W) (fuel : ℕ) where
  -- A wrapper whose call succeeds gives back the call's result, and sends nothing: the thread is as
  -- the call left it.
  pub checked-quiet :
      (f : Function) (failure : Failure) (report : Report) (args : List ℕ) (t : Thread W)
      → fails failure (sys.call f args t.world).out ≡ false
      → checked prog sys fuel f failure report args t
        ≡ ok (
            gives
              (sys.call f args t.world).out
              (record t { world = (sys.call f args t.world).world }))
  unfolding checked
  checked-quiet f failure report args t passes = rw passes refl

  -- A wrapper whose call fails asks the handlers for the signal that it reports. If all decline it
  -- gives back the call's own result; if one selects a restart, the topmost that fits is landed at,
  -- unwound to its point, or the process ends if there is none.
  pub checked-Reports :
      (f : Function) (failure : Failure) (report : Report) (args : List ℕ) (t : Thread W)
      (md : Model W)
      → fails failure (sys.call f args t.world).out ≡ true
      → Models (record t { world = (sys.call f args t.world).world }) md
      → length md.actions < fuel
      → (let a = sys.call f args t.world in
          let m = plain (reported report a.out a.errno) in
          Reports prog m fuel a.out
            (choose prog m md.handlers a.world)
            md
            (record t { world = a.world })
            (checked prog sys fuel f failure report args t))
  unfolding checked
  checked-Reports f failure report args t md fault_seen s enough =
      let a = sys.call f args t.world in
      let m = plain (reported report a.out a.errno) in
      let u : Thread W = record t { world = a.world } in
      rw fault_seen (
        sent-Reports prog m fuel a.out (choose prog m md.handlers a.world) md u
          (sig_send prog fuel m u) (sig_send-refines prog fuel m u md s enough))
