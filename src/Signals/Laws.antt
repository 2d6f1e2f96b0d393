-- ===== src/Signals/Laws.antt =====
-- What the functions on the two stacks of src/libevsig/signals.c do to the lists that they hold.
use libevsig.Base.{
  ℕ, suc, ◌+◌, ◌-◌, ◌%◌, ◌^◌, ◌≡◌, ◌≢◌, refl, ap, subst, inl, inr, Bool, true, List, [], ◌∷◌, ok,
  ◌==◌, ◌>>=◌, ==_refl, lt→ltb, if◌then◌else◌, arith, Bool-cases, length, any, remove,
}
use libevsig.Vector.{
  Vector, Holds, Yields, grow-Grown, append-Holds, load-top, rm_last-Holds, any_from-any,
  find_last-position, position,
}
use libevsig.Thread.{
  SigType, ReturnPoint, SigHandler, null_handler, catchall_handler, sig_static_handler,
  user_handler, HandlerEntry, RestartEntry,
}
use libevsig.Signals.Stacks.{
  handler_id, push_entry, sig_push_handler, sig_rm_handler, handler_exists, restart_id,
  sig_push_restart, sig_rm_restart, sig_restart_available, is_restart_for, found_any,
}

-- The id of the next entry: one above that of the top.
abbrev pub next_handler_id : List HandlerEntry → ℕ
next_handler_id [] = 1
next_handler_id (e ∷ xs) = (e.id + 1) % 2 ^ 64

abbrev pub next_restart_id : List RestartEntry → ℕ
next_restart_id [] = 0
next_restart_id (e ∷ xs) = (e.id + 1) % 2 ^ 64

abbrev pub without_handler : ℕ → List HandlerEntry → List HandlerEntry
without_handler id xs = if id == 0 then xs else remove (λ (e : HandlerEntry). e.id == id) xs

abbrev pub without_restart : ℕ → List RestartEntry → List RestartEntry
without_restart id xs = remove (λ (e : RestartEntry). e.id == id) xs

handler_id-next :
    (v : Vector HandlerEntry) (xs : List HandlerEntry)
    → Holds v xs
    → handler_id v ≡ ok (next_handler_id xs)
unfolding handler_id
handler_id-next v [] h = rw h.filled
handler_id-next v (e ∷ xs) h =
    rw (h.filled, lt→ltb 0 (length (e ∷ xs)) (omega arith), one_less, load-top v h)
  where
    one_less : suc (length xs) - 1 ≡ length xs
    one_less = omega arith

restart_id-next :
    (v : Vector RestartEntry) (xs : List RestartEntry)
    → Holds v xs
    → restart_id v ≡ ok (next_restart_id xs)
unfolding restart_id
restart_id-next v [] h = rw h.filled
restart_id-next v (e ∷ xs) h =
    rw (h.filled, lt→ltb 0 (length (e ∷ xs)) (omega arith), one_less, load-top v h)
  where
    one_less : suc (length xs) - 1 ≡ length xs
    one_less = omega arith

push_entry-Holds :
    (v : Vector HandlerEntry) (sig_type : SigType) (handler : SigHandler) (userdata : ℕ)
    {xs : List HandlerEntry}
    → Holds v xs
    → Yields (push_entry true v sig_type handler userdata) (λ r.
      (r.0 ≡ next_handler_id xs)
      × Holds r.1 (
          record {
            sig_type = sig_type;
            handler = handler;
            handler_userdata = userdata;
            id = next_handler_id xs;
          }
          ∷ xs))
unfolding push_entry
push_entry-Holds v sig_type handler userdata {xs} h =
    let (w, grown, g) = grow-Grown v h in
    let (w', pushed, h') =
      append-Holds w
        (record {
          sig_type = sig_type;
          handler = handler;
          handler_userdata = userdata;
          id = next_handler_id xs;
        })
        g in
    ((next_handler_id xs, w'), rw (grown, handler_id-next w xs g.holds, pushed), (refl, h'))

-- With memory to be had, `_sig_push_handler` puts a handler that is not null on top, under an id one
-- above that of the entry below, in 64 bits; the id of the first is 1.
pub sig_push_handler-Holds :
    (v : Vector HandlerEntry) (sig_type : SigType) (handler : SigHandler) (userdata : ℕ)
    {xs : List HandlerEntry}
    → handler ≢ null_handler
    → Holds v xs
    → Yields (sig_push_handler true v sig_type handler userdata) (λ r.
      (r.0 ≡ next_handler_id xs)
      × Holds r.1 (
          record {
            sig_type = sig_type;
            handler = handler;
            handler_userdata = userdata;
            id = next_handler_id xs;
          }
          ∷ xs))
unfolding sig_push_handler
sig_push_handler-Holds v sig_type null_handler userdata ne h = absurd (ne refl)
sig_push_handler-Holds v sig_type catchall_handler userdata ne h =
    push_entry-Holds v sig_type catchall_handler userdata h
sig_push_handler-Holds v sig_type sig_static_handler userdata ne h =
    push_entry-Holds v sig_type sig_static_handler userdata h
sig_push_handler-Holds v sig_type (user_handler k) userdata ne h =
    push_entry-Holds v sig_type (user_handler k) userdata h

-- `_sig_rm_handler` takes the topmost handler with the id out, and nothing for the id 0; the others
-- stay, in their order.
pub sig_rm_handler-Holds :
    (v : Vector HandlerEntry) (id : ℕ) {xs : List HandlerEntry}
    → Holds v xs
    → Yields (sig_rm_handler v id) (λ w. Holds w (without_handler id xs))
unfolding sig_rm_handler
sig_rm_handler-Holds v id h = elim (Bool-cases (id == 0)) [
  | inl zero_id ↦ (v, rw zero_id, rw zero_id h)
  | inr valid ↦
      let (w, removed, held) = rm_last-Holds (λ (e : HandlerEntry). e.id == id) v h in
      (w, rw valid removed, rw valid held)
]

-- With memory to be had, `_sig_push_restart` puts the restart on top, under an id one above that of
-- the entry below, in 64 bits; the id of the first is 0.
pub sig_push_restart-Holds :
    (v : Vector RestartEntry) (sig_type restart_type : SigType) (p : ReturnPoint)
    {xs : List RestartEntry}
    → Holds v xs
    → Yields (sig_push_restart true v sig_type restart_type p) (λ r.
      (r.0 ≡ next_restart_id xs)
      × Holds r.1 (
          record {
            sig_type = sig_type;
            restart_type = restart_type;
            p = p;
            id = next_restart_id xs;
          }
          ∷ xs))
unfolding sig_push_restart
sig_push_restart-Holds v sig_type restart_type p {xs} h =
    let (w, grown, g) = grow-Grown v h in
    let (w', pushed, h') =
      append-Holds w
        (record {
          sig_type = sig_type;
          restart_type = restart_type;
          p = p;
          id = next_restart_id xs;
        })
        g in
    ((next_restart_id xs, w'), rw (grown, restart_id-next w xs g.holds, pushed), (refl, h'))

-- `_sig_rm_restart` takes the topmost restart with the id out, if there is one; the others stay, in
-- their order.
pub sig_rm_restart-Holds :
    (v : Vector RestartEntry) (id : ℕ) {xs : List RestartEntry}
    → Holds v xs
    → Yields (sig_rm_restart v id) (λ w. Holds w (without_restart id xs))
unfolding sig_rm_restart
sig_rm_restart-Holds v id h = rm_last-Holds (λ (e : RestartEntry). e.id == id) v h

-- With memory to be had, `_sig_push_restart` and then `_sig_rm_restart` of the id that it returned give
-- back the restarts of before, whatever ids are on the stack.
pub sig_rm_restart-sig_push_restart :
    (v : Vector RestartEntry) (sig_type restart_type : SigType) (p : ReturnPoint)
    {xs : List RestartEntry}
    → Holds v xs
    → Yields
        (sig_push_restart true v sig_type restart_type p >>= λ r. sig_rm_restart r.1 r.0)
        (λ w. Holds w xs)
sig_rm_restart-sig_push_restart v sig_type restart_type p {xs} h =
    let (r, pushed, (same, held)) = sig_push_restart-Holds v sig_type restart_type p h in
    let (w, removed, left) = sig_rm_restart-Holds r.1 r.0 held in
    (w, rw pushed removed, subst (λ l. Holds w l) (top-dropped r.0 same) left)
  where
    top-dropped :
        (id : ℕ)
        → id ≡ next_restart_id xs
        → without_restart id (
            record {
              sig_type = sig_type;
              restart_type = restart_type;
              p = p;
              id = next_restart_id xs;
            }
            ∷ xs)
          ≡ xs
    top-dropped id e = rw (e, ==_refl (next_restart_id xs)) refl

-- The search of the two assertions says whether a handler was pushed for this very type.
pub handler_exists-any :
    (v : Vector HandlerEntry) (sig_type : SigType) {xs : List HandlerEntry}
    → Holds v xs
    → handler_exists v sig_type ≡ ok (any (λ (e : HandlerEntry). e.sig_type == sig_type) xs)
unfolding handler_exists
handler_exists-any v sig_type {xs} h =
    rw (h.is_block, h.filled)
      (any_from-any (λ (e : HandlerEntry). e.sig_type == sig_type) h.contents xs h.stored)

found_any-position :
    (p : RestartEntry → Bool) (xs : List RestartEntry) → found_any (position p xs) ≡ any p xs
found_any-position p [] = refl
found_any-position p (x ∷ xs) = elim (Bool-cases (p x)) [
  | inl hit ↦ rw hit
  | inr miss ↦ rw miss (found_any-position p xs)
]

-- `_sig_restart_available` says whether a restart of this type was pushed for this very signal.
pub sig_restart_available-any :
    (v : Vector RestartEntry) (sig_type restart_type : SigType) {xs : List RestartEntry}
    → Holds v xs
    → sig_restart_available v sig_type restart_type
      ≡ ok (any (is_restart_for sig_type restart_type) xs)
unfolding sig_restart_available
sig_restart_available-any v sig_type restart_type {xs} h =
    rw
      (
        h.is_block,
        h.filled,
        find_last-position (is_restart_for sig_type restart_type) h.contents xs h.stored,
      )
      (ap ok (found_any-position (is_restart_for sig_type restart_type) xs))
