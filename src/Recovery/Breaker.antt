-- ===== src/Recovery/Breaker.antt =====
-- The rate-limit breaker: how long a cooldown lasts, and who may use the minter meanwhile.
use native.Mathlib.Nat.{pow-suc}
use openbao_cloud_creds.Base.{
  ℕ, zero, suc, ◌+◌, ◌-◌, ◌*◌, ◌/◌, ◌^◌, ◌≤◌, ◌<◌, min, ◌≡◌, refl, ◌≢◌, ◌↔◌, inl, inr, Bool, true,
  false, if◌then◌else◌, ap, ◌∙◌, Bool-cases, ltb, List, [], ◌∷◌, All, arith,
}
use openbao_cloud_creds.Recovery.{
  StateMachine, Jitter, rate_limit_cooldown, max_rate_limit_cooldown, probe_grace,
  max_cloud_hint_jitter, double_backoff, cooldown_for, record_rate_limited, serviceable,
  record_error, release_probe, record_missing, selectable, in_rate_limit_cooldown, try_acquire,
  retry_in, snapshot,
}
use openbao_cloud_creds.Recovery.Health.{
  Action, succeed, fail, strike_at, release, lose, acquire, act, run,
}

pow-pos : (k : ℕ) → 0 < 2 ^ k
pow-pos zero = omega arith
pow-pos (suc k) = rw pow-suc (omega (arith, pow-pos k))

capped :
    (b p : ℕ)
    → max_rate_limit_cooldown ≤ b
    → 0 < p
    → min b max_rate_limit_cooldown ≡ min (b * (p * 2)) max_rate_limit_cooldown
capped b p h k = grind arith

double_backoff-pow :
    (k b : ℕ)
    → min (double_backoff k b) max_rate_limit_cooldown ≡ min (b * 2 ^ k) max_rate_limit_cooldown
unfolding double_backoff
double_backoff-pow zero b = omega arith
double_backoff-pow (suc k) b = elim (Bool-cases (ltb b max_rate_limit_cooldown)) [
  | inl e ↦
      rw (e, pow-suc)
        (double_backoff-pow k (b * 2) ∙ ap (λ (t : ℕ). min t max_rate_limit_cooldown) (grind arith))
  | inr e ↦ rw (e, pow-suc) (capped b (2 ^ k) (ground arith) (pow-pos k))
]

-- The window of a strike: the cloud's own wait, or the exponential one with its cap.
abbrev pub window : ℕ → ℕ
window strikes = min (rate_limit_cooldown * 2 ^ (strikes - 1)) max_rate_limit_cooldown

-- A jitter that stays within the bound that it is drawn for.
abbrev pub IsBounded : Jitter → Type 0
IsBounded jitter = (b : ℕ) → jitter b ≤ b

backoff-window :
    (strikes : ℕ)
    → min
        (double_backoff ((if ltb strikes 1 then 1 else strikes) - 1) rate_limit_cooldown)
        max_rate_limit_cooldown
      ≡ window strikes
backoff-window zero = double_backoff-pow 0 rate_limit_cooldown
backoff-window (suc k) = rw (lt→ltb-false k) (double_backoff-pow (suc k - 1) rate_limit_cooldown)
  where
    lt→ltb-false : (k : ℕ) → ltb (suc k) 1 ≡ false
    lt→ltb-false k = ground arith

abbrev pub shortest : ℕ → ℕ → ℕ
shortest strikes hint = if ltb 0 hint then hint else window strikes / 2

abbrev pub longest : ℕ → ℕ → ℕ
longest strikes hint = if ltb 0 hint then hint + max_cloud_hint_jitter else window strikes

-- With no hint the cooldown of a strike lies between half the window and the window, which is 5s doubled
-- for each earlier strike and capped at 2 minutes. With a hint it lies between the hint and the
-- hint plus 2s, so that it is never shorter than the cloud asked. The jitter is one that stays within the
-- bound that it is drawn for.
pub cooldown_for_bounds :
    (jitter : Jitter) (strikes hint : ℕ)
    → IsBounded jitter
    → (shortest strikes hint ≤ cooldown_for jitter strikes hint)
      × (cooldown_for jitter strikes hint ≤ longest strikes hint)
unfolding cooldown_for
cooldown_for_bounds jitter strikes hint bounded = elim (Bool-cases (ltb 0 hint)) [
  | inl e ↦ rw e (grind (arith, bounded (min hint max_cloud_hint_jitter)))
  | inr e ↦ rw (e, backoff-window strikes) (omega (arith, bounded (window strikes / 2)))
]

cooldown_refuses :
    (now : ℕ) (sm : StateMachine)
    → now < sm.cooldown_until
    → ((try_acquire now sm).1 ≡ false) × (selectable now sm ≡ false)
unfolding try_acquire selectable
cooldown_refuses now sm h = ground arith

record_rate_limited-cooldown :
    (jitter jitter' : Jitter) (hint at : ℕ) (sm : StateMachine)
    → (record_rate_limited jitter jitter' hint at sm).cooldown_until
      ≡ at + cooldown_for jitter (sm.rate_limit_strikes + 1) hint
unfolding record_rate_limited
record_rate_limited-cooldown jitter jitter' hint at sm = ground arith

-- An action that neither succeeds nor reports a rate limit.
abbrev pub IsQuiet : Action → Type 0
IsQuiet (succeed at) = ⊥
IsQuiet (strike_at jitter hint at) = ⊥
IsQuiet (fail jitter status at) = status ≢ 429
IsQuiet _ = Unit

act-cooldown :
    (sm : StateMachine) (a : Action) → IsQuiet a → (act sm a).cooldown_until ≡ sm.cooldown_until
unfolding act record_error release_probe record_missing try_acquire
act-cooldown sm (succeed at) q = absurd q
act-cooldown sm (strike_at jitter hint at) q = absurd q
act-cooldown sm (fail jitter status at) q = ground arith
act-cooldown sm release q = refl
act-cooldown sm lose q = refl
act-cooldown sm (acquire now) q = ground arith

run-cooldown :
    (sm : StateMachine) (actions : List Action)
    → All IsQuiet actions
    → (run sm actions).cooldown_until ≡ sm.cooldown_until
unfolding run
run-cooldown sm [] q = refl
run-cooldown sm (a ∷ rest) q = run-cooldown (act sm a) rest q.1 ∙ act-cooldown sm a q.0

-- After a rate limit at `at` the minter is refused for issuance and is not selectable until the cloud's
-- wait is over (half the window of this strike where it named none), whatever its state was and
-- whatever happens meanwhile, other than a success or another rate limit.
pub rate_limit_refuses :
    (jitter jitter' : Jitter) (hint at now : ℕ) (sm : StateMachine) (actions : List Action)
    → IsBounded jitter
    → All IsQuiet actions
    → now < at + shortest (sm.rate_limit_strikes + 1) hint
    → let t = run (record_rate_limited jitter jitter' hint at sm) actions in
      ((try_acquire now t).1 ≡ false) × (selectable now t ≡ false)
rate_limit_refuses jitter jitter' hint at now sm actions bounded q h = cooldown_refuses now _ (
    omega (
      arith,
      run-cooldown (record_rate_limited jitter jitter' hint at sm) actions q,
      record_rate_limited-cooldown jitter jitter' hint at sm,
      (cooldown_for_bounds jitter (sm.rate_limit_strikes + 1) hint bounded).0,
    ))

record_rate_limited-half_open :
    (jitter jitter' : Jitter) (hint at : ℕ) (sm : StateMachine)
    → serviceable sm.state ≡ true
    → (serviceable (record_rate_limited jitter jitter' hint at sm).state ≡ true)
      × ((record_rate_limited jitter jitter' hint at sm).probe_until ≡ 0)
unfolding record_rate_limited serviceable
record_rate_limited-half_open jitter jitter' hint at sm h = ground arith

expired_grants :
    (now : ℕ) (sm : StateMachine)
    → serviceable sm.state ≡ true
    → sm.probe_until ≡ 0
    → sm.cooldown_until ≤ now
    → (try_acquire now sm).1 ≡ true
unfolding try_acquire
expired_grants now sm s p c = ground arith

-- A rate limit that names no wait replaces a longer wait that the cloud asked for earlier. If the cloud
-- asks a serviceable minter for `hint` at `at`, and a second rate limit without a wait is recorded at
-- `at'`, more than 2 minutes before the first wait ends, then a caller is granted before that end.
pub later_strike_may_shorten :
    (j j' k k' : Jitter) (hint at at' : ℕ) (sm : StateMachine)
    → IsBounded k
    → serviceable sm.state ≡ true
    → at' + max_rate_limit_cooldown < at + hint
    → let t = record_rate_limited k k' 0 at' (record_rate_limited j j' hint at sm) in
      (now : ℕ) × (now < at + hint) × ((try_acquire now t).1 ≡ true)
later_strike_may_shorten j j' k k' hint at at' sm bounded h early =
    let once = record_rate_limited j j' hint at sm in
    let open_once = record_rate_limited-half_open j j' hint at sm h in
    let open_twice = record_rate_limited-half_open k k' 0 at' once open_once.0 in
    let cd = (cooldown_for_bounds k (once.rate_limit_strikes + 1) 0 bounded).1 in
    (
      at' + max_rate_limit_cooldown,
      early,
      expired_grants _ _ open_twice.0 open_twice.1
          (omega (arith, record_rate_limited-cooldown k k' 0 at' once, cd)),
    )

-- For a serviceable minter the wait that `RetryIn` names is 0 exactly if issuance would be granted now.
pub retry_in-try_acquire :
    (now : ℕ) (sm : StateMachine)
    → serviceable sm.state ≡ true
    → (retry_in now sm ≡ 0) ↔ ((try_acquire now sm).1 ≡ true)
unfolding retry_in try_acquire
retry_in-try_acquire now sm h = ground arith

-- A snapshot is one consistent view: it agrees with every getter at that time, it is selectable whenever
-- issuance would be granted, and it names a wait only while it says that the minter is limited.
pub snapshot_consistent :
    (now : ℕ) (sm : StateMachine)
    → ((snapshot now sm).selectable ≡ selectable now sm)
      × ((snapshot now sm).rate_limited ≡ in_rate_limit_cooldown now sm)
      × ((try_acquire now sm).1 ≡ true → (snapshot now sm).selectable ≡ true)
      × (0 < (snapshot now sm).retry_in_seconds → (snapshot now sm).rate_limited ≡ true)
unfolding snapshot selectable in_rate_limit_cooldown try_acquire
snapshot_consistent now sm = ground arith

-- Callers for issuance, at the given times and with no outcome recorded: who is granted.
unfoldable pub acquire_all : StateMachine → List ℕ → List Bool
acquire_all sm [] = []
acquire_all sm (now ∷ times) = (try_acquire now sm).1 ∷ acquire_all (try_acquire now sm).0 times

probing_refused :
    (sm : StateMachine) (now : ℕ)
    → 0 < sm.rate_limit_strikes
    → now < sm.probe_until
    → try_acquire now sm ≡ (sm, false)
unfolding try_acquire
probing_refused sm now h k = ground arith

acquire_all_refused :
    (sm : StateMachine) (times : List ℕ)
    → 0 < sm.rate_limit_strikes
    → All (λ now. now < sm.probe_until) times
    → All (λ granted. granted ≡ false) (acquire_all sm times)
unfolding acquire_all
acquire_all_refused sm [] h k = tt
acquire_all_refused sm (now ∷ times) h k =
    let same = probing_refused sm now h k.0 in
    (ap (λ r. r.1) same, rw same (acquire_all_refused sm times h k.1))

granted :
    (now : ℕ) (sm : StateMachine)
    → 0 < sm.rate_limit_strikes
    → (try_acquire now sm).1 ≡ true
    → (try_acquire now sm).0 ≡ record sm { probe_until = now + probe_grace }
unfolding try_acquire
granted now sm h g = ground arith

-- Half-open, exactly one caller is let through: when a minter with strikes grants a caller at `now`, all
-- callers that come within the grace of 35s, in any order and number, are refused, as long as
-- no outcome is recorded.
pub probe_exclusive :
    (now : ℕ) (sm : StateMachine) (times : List ℕ)
    → 0 < sm.rate_limit_strikes
    → (try_acquire now sm).1 ≡ true
    → All (λ later. later < now + probe_grace) times
    → All (λ granted. granted ≡ false) (acquire_all (try_acquire now sm).0 times)
probe_exclusive now sm times h g k =
    rw (granted now sm h g)
      (acquire_all_refused (record sm { probe_until = now + probe_grace }) times h k)
