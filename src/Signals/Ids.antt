-- ===== src/Signals/Ids.antt =====
-- The ids of the handler stack: each is above those below it, so an id names one handler.
use libevsig.Base.{
  ℕ, ◌+◌, ◌^◌, ◌<◌, ◌≤◌, ◌≡◌, ◌≢◌, refl, inl, inr, Bool, true, false, List, [], ◌∷◌, arith, ◌==◌,
  ==-ne, Bool-cases, any, remove,
}
use libevsig.Vector.{Vector, Holds, Yields}
use libevsig.Thread.{SigType, SigHandler, null_handler, HandlerEntry}
use libevsig.Signals.Stacks.{sig_push_handler, sig_rm_handler}
use libevsig.Signals.Laws.{next_handler_id, sig_push_handler-Holds, sig_rm_handler-Holds}

abbrev pub AllBelow : ℕ → List HandlerEntry → Type 0
AllBelow n [] = Unit
AllBelow n (e ∷ xs) = (e.id < n) × AllBelow n xs

-- Positive 64-bit ids that fall from the top down.
abbrev pub IsDescending : List HandlerEntry → Type 0
IsDescending [] = Unit
IsDescending (e ∷ xs) = (0 < e.id) × (e.id < 2 ^ 64) × AllBelow e.id xs × IsDescending xs

-- The last id before the counter wraps has not been given out.
abbrev pub HasIds : List HandlerEntry → Type 0
HasIds [] = Unit
HasIds (e ∷ xs) = e.id + 1 < 2 ^ 64

pub AllBelow-mono : {n k : ℕ} (xs : List HandlerEntry) → n ≤ k → AllBelow n xs → AllBelow k xs
AllBelow-mono [] le b = tt
AllBelow-mono (e ∷ xs) le b = (omega arith, AllBelow-mono xs le b.1)

next-IsFresh :
    (xs : List HandlerEntry) → IsDescending xs → HasIds xs → AllBelow (next_handler_id xs) xs
next-IsFresh [] d h = tt
next-IsFresh (e ∷ xs) d h = (omega arith, AllBelow-mono xs (omega arith) d.2)

pub remove-AllBelow :
    (p : HandlerEntry → Bool) (n : ℕ) (xs : List HandlerEntry)
    → AllBelow n xs
    → AllBelow n (remove p xs)
remove-AllBelow p n [] b = tt
remove-AllBelow p n (e ∷ xs) b = elim (Bool-cases (p e)) [
  | inl hit ↦ rw hit b.1
  | inr miss ↦ rw miss (b.0, remove-AllBelow p n xs b.1)
]

pub remove-IsDescending :
    (p : HandlerEntry → Bool) (xs : List HandlerEntry)
    → IsDescending xs
    → IsDescending (remove p xs)
remove-IsDescending p [] d = tt
remove-IsDescending p (e ∷ xs) d = elim (Bool-cases (p e)) [
  | inl hit ↦ rw hit d.3
  | inr miss ↦ rw miss (d.0, d.1, remove-AllBelow p e.id xs d.2, remove-IsDescending p xs d.3)
]

abbrev pub has_id : ℕ → HandlerEntry → Bool
has_id id e = e.id == id

AllBelow-any :
    (id n : ℕ) (xs : List HandlerEntry) → n ≤ id → AllBelow n xs → any (has_id id) xs ≡ false
AllBelow-any id n [] le b = refl
AllBelow-any id n (e ∷ xs) le b =
    rw (==-ne {a = e.id} {b = id} (omega arith)) (AllBelow-any id n xs le b.1)

remove-any :
    (id : ℕ) (xs : List HandlerEntry)
    → IsDescending xs
    → any (has_id id) (remove (has_id id) xs) ≡ false
remove-any id [] d = refl
remove-any id (e ∷ xs) d = elim (Bool-cases (has_id id e)) [
  | inl hit ↦ rw hit (AllBelow-any id e.id xs (ground arith) d.2)
  | inr miss ↦ rw (miss, miss) (remove-any id xs d.3)
]

-- The next id is in order on top of the stack.
pub next-IsDescending :
    (ys : List HandlerEntry)
    → IsDescending ys
    → HasIds ys
    → (0 < next_handler_id ys)
      × (next_handler_id ys < 2 ^ 64)
      × AllBelow (next_handler_id ys) ys
      × IsDescending ys
next-IsDescending [] e s = (omega arith, omega arith, tt, tt)
next-IsDescending (y ∷ ys) e s = (omega arith, omega arith, next-IsFresh (y ∷ ys) e s, e)

-- With memory to be had and ids to spare, `_sig_push_handler` keeps the ids in order for a handler
-- that is not null: the one that it returns is positive and above all others of the stack.
pub sig_push_handler-IsDescending :
    (v : Vector HandlerEntry) (sig_type : SigType) (handler : SigHandler) (userdata : ℕ)
    (xs : List HandlerEntry)
    → handler ≢ null_handler
    → Holds v xs
    → IsDescending xs
    → HasIds xs
    → Yields (sig_push_handler true v sig_type handler userdata) (λ r.
      Holds r.1 (
        record { sig_type = sig_type; handler = handler; handler_userdata = userdata; id = r.0 }
        ∷ xs)
      × IsDescending (
          record { sig_type = sig_type; handler = handler; handler_userdata = userdata; id = r.0 }
          ∷ xs))
sig_push_handler-IsDescending v sig_type handler userdata xs real h d spare =
    let (r, pushed, post) = sig_push_handler-Holds v sig_type handler userdata real h in
    (r, pushed, (rw post.0 post.1, rw post.0 (next-IsDescending xs d spare)))

-- `_sig_rm_handler` of an id that is not 0 keeps the ids in order, and leaves no entry with that id.
pub sig_rm_handler-IsDescending :
    (v : Vector HandlerEntry) (id : ℕ) (xs : List HandlerEntry)
    → id ≢ 0
    → Holds v xs
    → IsDescending xs
    → Yields (sig_rm_handler v id) (λ w.
      Holds w (remove (has_id id) xs)
      × IsDescending (remove (has_id id) xs)
      × (any (has_id id) (remove (has_id id) xs) ≡ false))
sig_rm_handler-IsDescending v id xs valid h d =
    let (w, removed, held) = sig_rm_handler-Holds v id h in
    (
      w,
      removed,
      (rw (==-ne valid) at held, remove-IsDescending (has_id id) xs d, remove-any id xs d),
    )
