-- ===== src/Sigwrap/Success.antt =====
-- What a caller may rely on when a wrapper returns.
use libevsig.Base.{
  ℕ, ◌<◌, ◌≡◌, ◌≢◌, ◌∙◌, sym, subst, ◌==◌, ==_iff, false, List, ◌∷◌, [], ◌++◌, Result, ok, exit,
  fault, hang, inl, inr, Bool-cases, ◌>>=◌, arith, length,
}
use libevsig.Thread.{Thread, Program, Flow, returned, landed, thread_exited, HandlerEntry}
use libevsig.Unwind.{Model, Models}
use libevsig.Send.{Message, sig_send}
use libevsig.Send.Refine.{at_world}
use libevsig.Send.Setup.{catchall_entry}
use libevsig.Sigwrap.Names.{Function, sys_fwrite}
use libevsig.Sigwrap.Ops.{
  Answer, System, Wrapped, gives, Failure, fails, Report, and_then, checked, sw_fwrite,
  fwrite_checked,
}
use libevsig.Send.Ends.{Leaves, sig_send-Leaves}

module _ {W : Type 0} where
  -- Nothing is given back.
  abbrev IsLost : Result (Wrapped W) → Type 0
  IsLost (ok (gives out v)) = ⊥
  IsLost _ = Unit

  unsent-IsLost :
      (r : Result (Flow W)) (k : Thread W → Result (Wrapped W))
      → Leaves r
      → IsLost (r >>= and_then k)
  unsent-IsLost (ok (returned t)) k l = absurd l
  unsent-IsLost (ok (landed p t)) k l = tt
  unsent-IsLost (ok (thread_exited t)) k l = tt
  unsent-IsLost (exit n) k l = tt
  unsent-IsLost fault k l = tt
  unsent-IsLost hang k l = tt

  lost : (r : Result (Wrapped W)) (out : ℕ) (v : Thread W) → IsLost r → r ≢ ok (gives out v)
  lost r out v l gave = subst IsLost gave l

  given :
      (out : ℕ) (t : Thread W) (out' : ℕ) (v : Thread W)
      → Result.ok (gives out t) ≡ ok (gives out' v)
      → (out' ≡ out) × (v ≡ t)
  given out t out' v gave = (cc, cc)

open_stream-ne : (stream : ℕ) → (stream == 0) ≡ false → stream ≢ 0
open_stream-ne stream open_stream null = ground arith

module _ {W : Type 0} (prog : Program W) (sys : System W) (fuel : ℕ) where
  sent-IsLost :
      (m : Message) (t : Thread W) (md : Model W) (hs : List HandlerEntry)
      (k : Thread W → Result (Wrapped W))
      → md.handlers ≡ hs ++ catchall_entry ∷ []
      → Models t md
      → length md.actions < fuel
      → IsLost (sig_send prog fuel m t >>= and_then k)
  sent-IsLost m t md hs k lists s enough =
      unsent-IsLost (sig_send prog fuel m t) k (sig_send-Leaves prog fuel m t md hs lists s enough)

  -- Under the catch-all handler, a wrapper of one call that returns gives back the result of a call
  -- that has not failed, and leaves the thread as the call left it.
  pub checked-succeeded :
      (f : Function) (failure : Failure) (report : Report) (args : List ℕ) (t v : Thread W)
      (out : ℕ) (md : Model W) (hs : List HandlerEntry)
      → md.handlers ≡ hs ++ catchall_entry ∷ []
      → Models t md
      → length md.actions < fuel
      → checked prog sys fuel f failure report args t ≡ ok (gives out v)
      → (fails failure out ≡ false)
        × (out ≡ (sys.call f args t.world).out)
        × (v ≡ record t { world = (sys.call f args t.world).world })
  unfolding checked
  checked-succeeded f failure report args t v out md hs lists s enough gave =
      elim (Bool-cases (fails failure a.out)) [
        | inl failed ↦ absurd (
            lost _ out v
              (sent-IsLost _ u (record md { world = a.world }) hs _ lists
                (at_world prog fuel t md a.world s) enough)
              (rw failed at gave))
        | inr passed ↦
            let (same, after) = given a.out u out v (rw passed at gave) in
            (subst (λ o. fails failure o ≡ false) (sym same) passed, same, after)
      ]
    where
      a : Answer W
      a = sys.call f args t.world

      u : Thread W
      u = record t { world = a.world }

  -- Under the catch-all handler, `sw_fwrite` returns only if the stream is not null and all items
  -- have been written; it gives back their number.
  pub sw_fwrite-wrote_all :
      (ptr size nmemb stream : ℕ) (t v : Thread W) (out : ℕ) (md : Model W) (hs : List HandlerEntry)
      → md.handlers ≡ hs ++ catchall_entry ∷ []
      → Models t md
      → length md.actions < fuel
      → sw_fwrite prog sys fuel ptr size nmemb stream t ≡ ok (gives out v)
      → (stream ≢ 0)
        × (out ≡ nmemb)
        × (out ≡ (sys.call sys_fwrite (ptr ∷ size ∷ nmemb ∷ stream ∷ []) t.world).out)
  unfolding sw_fwrite fwrite_checked
  sw_fwrite-wrote_all ptr size nmemb stream t v out md hs lists s enough gave =
      elim (Bool-cases (stream == 0)) [
        | inl null ↦
            absurd (lost _ out v (sent-IsLost _ t md hs _ lists s enough) (rw null at gave))
        | inr open_stream ↦ elim (Bool-cases (a.out == nmemb)) [
          | inl all ↦
              let done = given a.out u out v (rw (open_stream, all) at gave) in
              (open_stream-ne stream open_stream, done.0 ∙ (==_iff a.out nmemb).0 all, done.0)
          | inr short ↦ absurd (
              lost _ out v
                (sent-IsLost _ u (record md { world = a.world }) hs _ lists
                  (at_world prog fuel t md a.world s) enough)
                (rw (open_stream, short) at gave))
        ]
      ]
    where
      a : Answer W
      a = sys.call sys_fwrite (ptr ∷ size ∷ nmemb ∷ stream ∷ []) t.world

      u : Thread W
      u = record t { world = a.world }
