-- ===== src/Mutex/Exclusion.antt =====
-- Mutual exclusion, and that no unlocking is lost, for every interleaving.
use libevsig.Base.{
  ℕ, suc, ◌≡◌, ◌≢◌, refl, ap, sym, ◌∙◌, Bool, true, false, none, some, List, [], ◌∷◌, ◌==◌, ==_refl,
  ==_iff, ==-ne, Bool-cases, inl, inr, ◌⊎◌, arith,
}
use libevsig.Mutex.{evsig_unlock}
use libevsig.Mutex.Contention.{
  Phase, outside, waiting, inside, Contention, compare_exchange, put, attempted, act, advance, run,
  unlocked,
}

-- Whoever is inside is the one owner; the word says whether there is one.
abbrev Owned : Contention → Type 0
Owned c =
    ((c.mutex ≡ 0) × ((t : ℕ) → c.phases t ≢ inside))
    ⊎ ((o : ℕ) × ((c.mutex ≡ 1) × (c.phases o ≡ inside) × ((t : ℕ) → c.phases t ≡ inside → t ≡ o)))

abbrev is_inside : Phase → Bool
is_inside inside = true
is_inside _ = false

waiting-ne : (k : ℕ) → waiting k ≢ inside
waiting-ne k e = ground (arith, ap is_inside e)

outside-ne : outside ≢ inside
outside-ne e = ground (arith, ap is_inside e)

put_self : (t : ℕ) (p : Phase) (phases : ℕ → Phase) → put t p phases t ≡ p
put_self t p phases = rw (==_refl t) refl

put-ne : (t u : ℕ) (p : Phase) (phases : ℕ → Phase) → u ≢ t → put t p phases u ≡ phases u
put-ne t u p phases ne = rw (==-ne ne) refl

-- Of a thread that is not inside another phase is written that is not inside either.
stays_out-Owned :
    (c : Contention) (t : ℕ) (p : Phase)
    → c.phases t ≢ inside
    → p ≢ inside
    → Owned c
    → Owned (record c { phases = put t p c.phases })
stays_out-Owned c t p out still (inl free) = inl (
  free.0,
  λ u e. elim (Bool-cases (u == t)) [
    | inl same ↦ still (sym (at-same u same) ∙ e)
    | inr other ↦ free.1 u (sym (at-other u other) ∙ e)
  ],
)
  where
    at-same : (u : ℕ) → (u == t) ≡ true → put t p c.phases u ≡ p
    at-same u same = rw same refl

    at-other : (u : ℕ) → (u == t) ≡ false → put t p c.phases u ≡ c.phases u
    at-other u other = rw other refl
stays_out-Owned c t p out still (inr (o, held)) = inr (
  o,
  (
    held.0,
    put-ne t o p c.phases (λ e. out (sym (ap (λ n. c.phases n) e) ∙ held.1)) ∙ held.1,
    λ u e. elim (Bool-cases (u == t)) [
      | inl same ↦ absurd (
          still
            (sym (put_self t p c.phases) ∙ sym (ap (put t p c.phases) ((==_iff u t).0 same)) ∙ e))
      | inr other ↦
          let left : put t p c.phases u ≡ c.phases u = rw other refl in held.2 u (sym left ∙ e)
    ],
  ),
)

acquired-Owned :
    (c : Contention) (t : ℕ)
    → ((u : ℕ) → c.phases u ≢ inside)
    → Owned (record { mutex = 1; phases = put t inside c.phases })
acquired-Owned c t free = inr (
  t,
  (
    refl,
    put_self t inside c.phases,
    λ u e. elim (Bool-cases (u == t)) [
      | inl same ↦ (==_iff u t).0 same
      | inr other ↦
          let left : put t inside c.phases u ≡ c.phases u = rw other refl in
          absurd (free u (sym left ∙ e))
    ],
  ),
)

released-Owned :
    (c : Contention) (t : ℕ)
    → ((u : ℕ) → c.phases u ≡ inside → u ≡ t)
    → Owned (record { mutex = 0; phases = put t outside c.phases })
released-Owned c t only = inl (
  refl,
  λ u e. elim (Bool-cases (u == t)) [
    | inl same ↦ outside-ne (
        sym (put_self t outside c.phases)
        ∙ sym (ap (put t outside c.phases) ((==_iff u t).0 same))
        ∙ e)
    | inr other ↦
        let left : put t outside c.phases u ≡ c.phases u = rw other refl in
        let alone = only u (sym left ∙ e) in ground arith
  ],
)

compare_exchange-spurious : (m : ℕ) → compare_exchange true m ≡ none
unfolding compare_exchange
compare_exchange-spurious m = ground arith

compare_exchange-free : (m : ℕ) → m ≡ 0 → compare_exchange false m ≡ some 1
unfolding compare_exchange
compare_exchange-free m e = rw e refl

compare_exchange-held : (spurious : Bool) (m : ℕ) → m ≡ 1 → compare_exchange spurious m ≡ none
unfolding compare_exchange
compare_exchange-held spurious m e = rw e refl

attempt-Owned :
    (spurious : Bool) (t k : ℕ) (c : Contention)
    → c.phases t ≡ waiting k
    → Owned c
    → Owned (attempted t k c (compare_exchange spurious c.mutex))
attempt-Owned true t k c here o = rw (compare_exchange-spurious c.mutex) (
    stays_out-Owned c t (waiting (suc k)) (λ e. waiting-ne k (sym here ∙ e)) (waiting-ne (suc k)) o)
attempt-Owned false t k c here (inl free) =
    rw (compare_exchange-free c.mutex free.0) (acquired-Owned c t free.1)
attempt-Owned false t k c here (inr (o, held)) = rw (compare_exchange-held false c.mutex held.0) (
    stays_out-Owned c t (waiting (suc k)) (λ e. waiting-ne k (sym here ∙ e)) (waiting-ne (suc k))
      (inr (o, held)))

act-Owned :
    (spurious : Bool) (t : ℕ) (c : Contention) (p : Phase)
    → c.phases t ≡ p
    → Owned c
    → Owned (act spurious t c p)
unfolding act evsig_unlock
act-Owned spurious t c outside here o =
    stays_out-Owned c t (waiting 0) (λ e. outside-ne (sym here ∙ e)) (waiting-ne 0) o
act-Owned spurious t c (waiting k) here o = attempt-Owned spurious t k c here o
act-Owned spurious t c inside here (inl free) = absurd (free.1 t here)
act-Owned spurious t c inside here (inr (o, held)) =
    released-Owned c t (λ u e. held.2 u e ∙ sym (held.2 t here))

run-Owned : (steps : List (Bool × ℕ)) (c : Contention) → Owned c → Owned (run steps c)
unfolding run advance
run-Owned [] c o = o
run-Owned ((spurious, t) ∷ rest) c o =
    run-Owned rest (advance spurious t c) (act-Owned spurious t c (c.phases t) refl o)

unlocked-Owned : Owned unlocked
unlocked-Owned = inl (refl, λ t. outside-ne)

exclusive : (c : Contention) (t u : ℕ) → Owned c → c.phases t ≡ inside → c.phases u ≡ inside → t ≡ u
exclusive c t u (inl free) in_t in_u = absurd (free.1 t in_t)
exclusive c t u (inr (o, held)) in_t in_u = held.2 t in_t ∙ sym (held.2 u in_u)

-- However the steps of any number of threads interleave, and whichever attempts fail for no reason:
-- from an unlocked mutex on, at no time are two threads between `evsig_lock` and `evsig_unlock`.
pub run-exclusive :
    (steps : List (Bool × ℕ)) (t u : ℕ)
    → (run steps unlocked).phases t ≡ inside
    → t ≢ u
    → (run steps unlocked).phases u ≢ inside
run-exclusive steps t u in_t ne in_u =
    ne (exclusive (run steps unlocked) t u (run-Owned steps unlocked unlocked-Owned) in_t in_u)

enters :
    (t k : ℕ) (c : Contention)
    → Owned c
    → ((u : ℕ) → c.phases u ≢ inside)
    → (attempted t k c (compare_exchange false c.mutex)).phases t ≡ inside
enters t k c (inl free) empty =
    rw (compare_exchange-free c.mutex free.0) (put_self t inside c.phases)
enters t k c (inr (o, held)) empty = absurd (empty o held.1)

-- No unlocking is lost: whatever happened before, while no thread is inside, the next attempt of any
-- waiting thread that does not fail for no reason succeeds.
pub run-live :
    (steps : List (Bool × ℕ)) (t k : ℕ)
    → (run steps unlocked).phases t ≡ waiting k
    → ((u : ℕ) → (run steps unlocked).phases u ≢ inside)
    → (advance false t (run steps unlocked)).phases t ≡ inside
unfolding advance act
run-live steps t k here empty =
    ap (λ p. (act false t (run steps unlocked) p).phases t) here
    ∙ enters t k (run steps unlocked) (run-Owned steps unlocked unlocked-Owned) empty
