-- ===== src/Recovery/Unavailable.antt =====
-- What a caller is told when no minter of a set can serve.
use mathlib.Core.List.{Memᴰ}
use openbao_cloud_creds.Base.{
  ℕ, ◌≤◌, ◌≡◌, refl, ◌⊎◌, inl, inr, Option, none, some, Option-cases, true, false, Bool-cases, ltb,
  if◌then◌else◌, List, [], ◌∷◌, All, arith,
}
use openbao_cloud_creds.Errors.{upstream_quota_exceeded, upstream_auth_failed}
use openbao_cloud_creds.Recovery.{
  StateMachine, in_rate_limit_cooldown, retry_in, sooner, soonest_retry, unavailable_error,
}

-- The waits of the minters that a rate limit holds back.
abbrev pub waits : ℕ → List StateMachine → List ℕ
waits now [] = []
waits now (sm ∷ machines) =
    if in_rate_limit_cooldown now sm
    then retry_in now sm ∷ waits now machines
    else waits now machines

soonest_retry-le_acc :
    (now : ℕ) (acc : Option ℕ) (machines : List StateMachine) {r s : ℕ}
    → soonest_retry now acc machines ≡ some r
    → acc ≡ some s
    → r ≤ s
unfolding soonest_retry sooner
soonest_retry-le_acc now acc [] h e = ground arith
soonest_retry-le_acc now acc (sm ∷ machines) {r} {s} h e = ground (
  arith,
  soonest_retry-le_acc now (sooner now acc sm) machines {r = r} {s = s} h,
  soonest_retry-le_acc now (sooner now acc sm) machines {r = r} {s = retry_in now sm} h,
)

sooner_waiting :
    (now : ℕ) (acc : Option ℕ) (sm : StateMachine)
    → in_rate_limit_cooldown now sm ≡ true
    → (x : ℕ) × (sooner now acc sm ≡ some x)
      × (x ≤ retry_in now sm)
      × ((x ≡ retry_in now sm) ⊎ (acc ≡ some x))
unfolding sooner
sooner_waiting now none sm e = (retry_in now sm, ground arith, omega arith, inl refl)
sooner_waiting now (some s) sm e = elim (Bool-cases (ltb (retry_in now sm) s)) [
  | inl l ↦ (retry_in now sm, ground arith, omega arith, inl refl)
  | inr l ↦ (s, ground arith, ground arith, inr refl)
]

sooner_free :
    (now : ℕ) (acc : Option ℕ) (sm : StateMachine)
    → in_rate_limit_cooldown now sm ≡ false
    → sooner now acc sm ≡ acc
unfolding sooner
sooner_free now acc sm e = ground arith

soonest_retry-le :
    (now : ℕ) (acc : Option ℕ) (machines : List StateMachine) {r : ℕ}
    → soonest_retry now acc machines ≡ some r
    → All (λ w. r ≤ w) (waits now machines)
unfolding soonest_retry
soonest_retry-le now acc [] h = tt
soonest_retry-le now acc (sm ∷ machines) {r} h =
    let rest = soonest_retry-le now (sooner now acc sm) machines {r = r} h in
    elim (Bool-cases (in_rate_limit_cooldown now sm)) [
      | inl e ↦
          let (x, is_x, below, _) = sooner_waiting now acc sm e in
          rw e (
            omega (
              arith,
              soonest_retry-le_acc now (sooner now acc sm) machines {r = r} {s = x} h is_x,
            ),
            rest,
          )
      | inr e ↦ rw e rest
    ]

soonest_retry-mem :
    (now : ℕ) (acc : Option ℕ) (machines : List StateMachine) {r : ℕ}
    → soonest_retry now acc machines ≡ some r
    → (acc ≡ some r) ⊎ Memᴰ r (waits now machines)
unfolding soonest_retry
soonest_retry-mem now acc [] h = inl h
soonest_retry-mem now acc (sm ∷ machines) {r} h =
    elim (Bool-cases (in_rate_limit_cooldown now sm)) [
      | inr e ↦
          rw e (
            rw (sooner_free now acc sm e) at (soonest_retry-mem now (sooner now acc sm) machines h))
      | inl e ↦ rw e (waiting (sooner_waiting now acc sm e) (soonest_retry-mem now _ machines h))
    ]
  where
    waiting :
        (x : ℕ) × (sooner now acc sm ≡ some x)
          × (x ≤ retry_in now sm)
          × ((x ≡ retry_in now sm) ⊎ (acc ≡ some x))
        → (sooner now acc sm ≡ some r) ⊎ Memᴰ r (waits now machines)
        → (acc ≡ some r) ⊎ Memᴰ r (retry_in now sm ∷ waits now machines)
    waiting w (inr m) = inr (Memᴰ.tail m)
    waiting (x, is_x, _, inl q) (inl f) = inr (Memᴰ.head (ground arith))
    waiting (x, is_x, _, inr q) (inl f) = inl (ground arith)

soonest_retry-none :
    (now : ℕ) (acc : Option ℕ) (machines : List StateMachine)
    → soonest_retry now acc machines ≡ none
    → (acc ≡ none) × (waits now machines ≡ [])
unfolding soonest_retry
soonest_retry-none now acc [] h = (h, refl)
soonest_retry-none now acc (sm ∷ machines) h =
    let rest = soonest_retry-none now (sooner now acc sm) machines h in
    elim (Bool-cases (in_rate_limit_cooldown now sm)) [
      | inl e ↦ let (x, is_x, _, _) = sooner_waiting now acc sm e in absurd (ground (arith, rest.0))
      | inr e ↦ rw e (rw (sooner_free now acc sm e) at rest)
    ]

-- No minter waits and the credentials are said to fail, or the rate limit is named with the least wait.
abbrev pub Explains : ℕ → List StateMachine → Type 0
Explains now machines =
    ((waits now machines ≡ [])
      × (unavailable_error now machines ≡ (upstream_auth_failed, 502, none)))
    ⊎ ((r : ℕ) × (unavailable_error now machines ≡ (upstream_quota_exceeded, 503, some r))
        × Memᴰ r (waits now machines)
        × All (λ w. r ≤ w) (waits now machines))

-- A set that can serve nobody is reported as a quota problem exactly if the rate limit holds back one of
-- its minters, and as failing credentials if it holds back none. The wait that it reports is then
-- that of one of these minters, and no longer than that of any.
pub unavailable_error_lem : (now : ℕ) (machines : List StateMachine) → Explains now machines
unfolding unavailable_error
unavailable_error_lem now machines = elim (Option-cases (soonest_retry now none machines)) [
  | inl e ↦ inl ((soonest_retry-none now none machines e).1, rw (e, unavailable_error))
  | inr (r, e) ↦ inr (
    r,
    rw (e, unavailable_error),
    from_acc (soonest_retry-mem now none machines e),
    soonest_retry-le now none machines e,
  )
]
  where
    from_acc :
        {r : ℕ}
        → ◌≡◌ {A = Option ℕ} none (some r) ⊎ Memᴰ r (waits now machines)
        → Memᴰ r (waits now machines)
    from_acc (inl q) = absurd (ground arith)
    from_acc (inr m) = m
