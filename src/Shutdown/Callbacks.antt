-- ===== src/Shutdown/Callbacks.antt =====
-- The callbacks of a shutdown signal: their list, and what a send leaves of it.
use libevsig.Base.{ℕ, ◌+◌, ◌%◌, ◌^◌, ◌≡◌, refl, Bool, true, List, ◌∷◌, fault, ◌==◌}
use libevsig.Memory.{freed}
use libevsig.Vector.{Vector, Yields}
use libevsig.Shutdown.Rounds.{others}
use libevsig.Shutdown.Lists.{Tracks, drop_from-Tracks, insert_into-Tracks}
use libevsig.Shutdown.Ops.{Signal, Callback, drop_from, insert_into, register_cb, unregister_cb}

abbrev pub is_callback : ℕ → Callback → Bool
is_callback id c = c.id == id

-- A signal with these callbacks, the last registered first, whose mutex nobody holds.
pub record Notifies (s : Signal) (cs : List Callback) : Type 0 where
  pub unlocked : s.master_mutex ≡ 0
  pub listed : Tracks s.callbacks cs

abbrev pub next_callback_id : Signal → ℕ
next_callback_id s = (s.callbacks_last_insert_id + 1) % 2 ^ 64

-- On a mutex that nobody holds and with memory to be had, `register_cb` returns the next id and adds
-- the callback under it.
pub register_cb-Notifies :
    (s : Signal) (cb ud : ℕ) (cs : List Callback)
    → Notifies s cs
    → Yields (register_cb true s cb ud) (λ r.
      (r.0 ≡ next_callback_id s)
      × (r.1.callbacks_last_insert_id ≡ r.0)
      × Notifies r.1 (record { id = r.0; cb = cb; ud = ud } ∷ cs))
unfolding register_cb
register_cb-Notifies s cb ud cs n =
    let (list, inserted, tracked) =
      insert_into-Tracks s.callbacks (record { id = next_callback_id s; cb = cb; ud = ud }) cs
        n.listed in
    (
      (
        next_callback_id s,
        record s {
          callbacks = list;
          callbacks_last_insert_id = next_callback_id s;
          master_mutex = 0;
        },
      ),
      rw (n.unlocked, inserted),
      (refl, refl, record { unlocked = refl; listed = tracked }),
    )

-- On a mutex that nobody holds, `unregister_cb` takes out every callback with the id and keeps the
-- others in order.
pub unregister_cb-Notifies :
    (s : Signal) (id : ℕ) (cs : List Callback)
    → Notifies s cs
    → Yields (unregister_cb s id) (λ s'. Notifies s' (others (is_callback id) cs))
unfolding unregister_cb
unregister_cb-Notifies s id cs n =
    let (list, dropped, tracked) = drop_from-Tracks (is_callback id) s.callbacks cs n.listed in
    (
      record s { callbacks = list; master_mutex = 0 },
      rw (n.unlocked, dropped),
      record { unlocked = refl; listed = tracked },
    )

-- A list whose memory was freed and whose pointer was not reset.
abbrev pub dangling {ℓ} : {A : Type ℓ} → Vector A
dangling = record { block = freed; alloc = 0; fill = 0 }

pub drop_from-dangling : (p : Callback → Bool) → drop_from p dangling ≡ fault
unfolding drop_from
drop_from-dangling p = refl

pub insert_into-dangling : (room : Bool) (c : Callback) → insert_into room dangling c ≡ fault
unfolding insert_into
insert_into-dangling room c = refl
