-- ===== src/Signals/History.antt =====
-- The handler stack after any pushes and removals.
use libevsig.Base.{
  ℕ, suc, ◌+◌, ◌^◌, ◌<◌, ◌≡◌, ◌≢◌, refl, ap, subst, inl, inr, Bool, true, false, List, [], ◌∷◌,
  Result, ok, ◌>>=◌, ◌==◌, Bool-cases, arith, length,
}
use libevsig.Vector.{Vector, Holds, Yields}
use libevsig.Thread.{
  SigType, SigHandler, null_handler, catchall_handler, sig_static_handler, user_handler,
  HandlerEntry,
}
use libevsig.Signals.Stacks.{sig_push_handler, sig_rm_handler}
use libevsig.Signals.Laws.{next_handler_id, sig_push_handler-Holds, sig_rm_handler-Holds}
use libevsig.Signals.Ids.{
  AllBelow, IsDescending, HasIds, AllBelow-mono, remove-AllBelow, remove-IsDescending,
  next-IsDescending, has_id,
}

-- A call of `_sig_push_handler` or of `_sig_rm_handler`.
pub data StackCall : Type 0 where
  pushes : SigType → SigHandler → ℕ → StackCall
  removes : ℕ → StackCall

unfoldable pub made : StackCall → Vector HandlerEntry → Result (Vector HandlerEntry)
unfolding sig_push_handler sig_rm_handler
made (pushes sig_type handler userdata) v = do
  (id, w) ← sig_push_handler true v sig_type handler userdata
  ok w
made (removes id) v = sig_rm_handler v id

-- The first call first.
unfoldable pub all_made : List StackCall → Vector HandlerEntry → Result (Vector HandlerEntry)
unfolding made
all_made [] v = ok v
all_made (c ∷ cs) v = made c v >>= all_made cs

-- The stack holds entries whose ids fall from the top down, all below a bound.
pub record Ordered (bound : ℕ) (v : Vector HandlerEntry) : Type 0 where
  pub entries : List HandlerEntry
  pub holds : Holds v entries
  pub descending : IsDescending entries
  pub below : AllBelow bound entries

abbrev is_null_handler : SigHandler → Bool
is_null_handler null_handler = true
is_null_handler _ = false

HasIds-below : (n : ℕ) (xs : List HandlerEntry) → n < 2 ^ 64 → AllBelow n xs → HasIds xs
HasIds-below n [] fits b = tt
HasIds-below n (x ∷ xs) fits b = omega (arith, b.0)

next-below :
    (n : ℕ) (xs : List HandlerEntry)
    → 0 < n
    → n < 2 ^ 64
    → AllBelow n xs
    → next_handler_id xs < suc n
next-below n [] positive fits b = omega arith
next-below n (x ∷ xs) positive fits b = omega (arith, b.0)

pushed-Ordered :
    (n : ℕ) (v : Vector HandlerEntry) (sig_type : SigType) (handler : SigHandler) (userdata : ℕ)
    → handler ≢ null_handler
    → 0 < n
    → n < 2 ^ 64
    → Ordered n v
    → Yields (made (pushes sig_type handler userdata) v) (Ordered (suc n))
unfolding made
pushed-Ordered n v sig_type handler userdata real positive fits o =
    let (r, pushed, (same, held)) =
      sig_push_handler-Holds v sig_type handler userdata real o.holds in
    (
      r.1,
      rw pushed refl,
      record {
        entries = _;
        holds = held;
        descending =
            next-IsDescending o.entries o.descending (HasIds-below n o.entries fits o.below);
        below = (
          next-below n o.entries positive fits o.below,
          AllBelow-mono o.entries (omega arith) o.below,
        );
      },
    )

kept : (n : ℕ) (v : Vector HandlerEntry) → Ordered n v → Ordered (suc n) v
kept n v o = record {
  entries = o.entries;
  holds = o.holds;
  descending = o.descending;
  below = AllBelow-mono o.entries (omega arith) o.below;
}

made-Ordered :
    (n : ℕ) (c : StackCall) (v : Vector HandlerEntry)
    → 0 < n
    → n < 2 ^ 64
    → Ordered n v
    → Yields (made c v) (Ordered (suc n))
unfolding made sig_push_handler
made-Ordered n (pushes sig_type null_handler userdata) v positive fits o = (v, refl, kept n v o)
made-Ordered n (pushes sig_type catchall_handler userdata) v positive fits o =
    pushed-Ordered n v sig_type catchall_handler userdata
      (λ z. ground (arith, ap is_null_handler z)) positive fits o
made-Ordered n (pushes sig_type sig_static_handler userdata) v positive fits o =
    pushed-Ordered n v sig_type sig_static_handler userdata
      (λ z. ground (arith, ap is_null_handler z)) positive fits o
made-Ordered n (pushes sig_type (user_handler k) userdata) v positive fits o =
    pushed-Ordered n v sig_type (user_handler k) userdata
      (λ z. ground (arith, ap is_null_handler z)) positive fits o
made-Ordered n (removes id) v positive fits o =
    let (w, removed, held) = sig_rm_handler-Holds v id o.holds in
    (
      w,
      removed,
      elim (Bool-cases (id == 0)) [
        | inl zero_id ↦ kept n w (record {
          entries = o.entries;
          holds = rw zero_id at held;
          descending = o.descending;
          below = o.below;
        })
        | inr valid ↦ kept n w (record {
          entries = _;
          holds = rw valid at held;
          descending = remove-IsDescending (has_id id) o.entries o.descending;
          below = remove-AllBelow (has_id id) n o.entries o.below;
        })
      ],
    )

-- On a stack whose ids are positive, fall from the top down and are below a bound, any pushes and
-- removals, of handlers null or not and of ids there or not, in any order, with memory to be had,
-- all succeed and keep the ids so, as long as their number and the bound together are below 2 to
-- the 64; the bound grows by their number.
pub all_made-Ordered :
    (cs : List StackCall) (n : ℕ) (v : Vector HandlerEntry)
    → 0 < n
    → n + length cs < 2 ^ 64
    → Ordered n v
    → Yields (all_made cs v) (Ordered (n + length cs))
unfolding all_made
all_made-Ordered [] n v positive fits o =
    let none_made : n ≡ n + 0 = omega arith in (v, refl, subst (λ k. Ordered k v) none_made o)
all_made-Ordered (c ∷ cs) n v positive fits o =
    let (w, first, o') = made-Ordered n c v positive (omega (arith, fits)) o in
    let (u, others, o'') = all_made-Ordered cs (suc n) w (omega arith) (omega (arith, fits)) o' in
    let one_more : suc n + length cs ≡ n + suc (length cs) = omega arith in
    (u, rw first others, subst (λ k. Ordered k u) one_more o'')
