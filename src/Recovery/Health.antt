-- ===== src/Recovery/Health.antt =====
-- What the health of a minter means, over every sequence of recorded outcomes.
use openbao_cloud_creds.Base.{
  ℕ, ◌+◌, ◌≤◌, ◌<◌, ◌≡◌, refl, ◌≢◌, ◌⊎◌, inr, true, false, List, [], ◌∷◌, All, ap, arith,
}
use openbao_cloud_creds.Errors.{
  ErrorCode, classify, indicts_minter, health_status, upstream_quota_exceeded, upstream_auth_failed,
}
use openbao_cloud_creds.Recovery.{
  State, Config, StateMachine, Jitter, Outcome, new_state_machine, record_success, record_error,
  strike, release_probe, record_missing, record_outcome, try_acquire, selectable,
}

-- One critical section of the mutex that can change the state machine.
pub data Action : Type 0 where
  succeed : ℕ → Action
  fail : Jitter → ℕ → ℕ → Action
  strike_at : Jitter → ℕ → ℕ → Action
  release : Action
  lose : Action
  acquire : ℕ → Action

unfoldable pub act : StateMachine → Action → StateMachine
act sm (succeed at) = record_success at sm
act sm (fail jitter status at) = record_error jitter status at sm
act sm (strike_at jitter retry_after at) = strike jitter retry_after at sm
act sm release = release_probe sm
act sm lose = record_missing sm
act sm (acquire now) = (try_acquire now sm).0

unfoldable pub run : StateMachine → List Action → StateMachine
run sm [] = sm
run sm (a ∷ rest) = run (act sm a) rest

pub record Inv (sm : StateMachine) : Type 0 where
  pub tally : sm.consecutive_auth_failures ≤ sm.consecutive_failures
  pub first_seen : sm.first_auth_error_at ≢ 0 → 0 < sm.consecutive_auth_failures
  pub clean : sm.state ≡ State.healthy → sm.consecutive_failures ≡ 0
  pub rejected_twice :
      sm.state ≡ State.auth_failing
      → 0 < sm.config.auth_fail_threshold
      → 2 ≤ sm.consecutive_auth_failures

new-Inv : (cfg : Config) → Inv (new_state_machine cfg)
unfolding new_state_machine
new-Inv cfg = ground arith

record_error-Inv :
    (jitter : Jitter) (status at : ℕ) (sm : StateMachine)
    → Inv sm
    → Inv (record_error jitter status at sm)
unfolding record_error
record_error-Inv jitter status at sm v = ground arith

-- Every critical section keeps the tallies consistent with the state of the minter.
pub act-Inv : (sm : StateMachine) (a : Action) → Inv sm → Inv (act sm a)
unfolding act record_success strike release_probe record_missing try_acquire
act-Inv sm (succeed at) v = ground arith
act-Inv sm (fail jitter status at) v = record_error-Inv jitter status at sm v
act-Inv sm (strike_at jitter retry_after at) v = ground arith
act-Inv sm release v = ground arith
act-Inv sm lose v = ground arith
act-Inv sm (acquire now) v = ground arith

run-Inv : (sm : StateMachine) (actions : List Action) → Inv sm → Inv (run sm actions)
unfolding run
run-Inv sm [] v = v
run-Inv sm (a ∷ rest) v = run-Inv (act sm a) rest (act-Inv sm a v)

-- From a new state machine, every sequence of critical sections keeps the tallies consistent: rejected
-- logins are among the failures, a healthy minter has no failure, and with a positive threshold
-- `auth_failing` means at least two rejected logins since the last success.
pub run-new-Inv : (cfg : Config) (actions : List Action) → Inv (run (new_state_machine cfg) actions)
run-new-Inv cfg actions = run-Inv (new_state_machine cfg) actions (new-Inv cfg)

-- The critical sections that `Record` runs, in order.
abbrev pub sections : Jitter → Jitter → Outcome → ℕ → List Action
unfolding indicts_minter health_status
sections jitter jitter' o at = elim (indicts_minter (classify o.status o.err)) [
  | false ↦ release ∷ []
  | true ↦ elim (classify o.status o.err) [
    | upstream_quota_exceeded ↦ strike_at jitter o.retry_after at ∷ fail jitter' 503 at ∷ []
    | c ↦ fail jitter' (health_status c) at ∷ []
  ]
]

abbrev pub count_auth : ErrorCode → ℕ
count_auth upstream_auth_failed = 1
count_auth _ = 0

abbrev pub count_limit : ErrorCode → ℕ
count_limit upstream_quota_exceeded = 1
count_limit _ = 0

abbrev pub count_failure : ErrorCode → ℕ
unfolding indicts_minter
count_failure c = elim (indicts_minter c) [ true ↦ 1 | false ↦ 0 ]

-- An outcome is counted by its code alone, on every branch: a rejected login counts only if the code is
-- `upstream_auth_failed`, a strike only if it is `upstream_quota_exceeded`, and a failure only if
-- the code indicts the minter.
pub record_outcome-tallies :
    (jitter jitter' : Jitter) (o : Outcome) (at : ℕ) (sm : StateMachine)
    → let c = classify o.status o.err in
      let t = record_outcome jitter jitter' o at sm in
      (t.consecutive_auth_failures ≡ sm.consecutive_auth_failures + count_auth c)
      × (t.rate_limit_strikes ≡ sm.rate_limit_strikes + count_limit c)
      × (t.consecutive_failures ≡ sm.consecutive_failures + count_failure c)
unfolding record_outcome indicts_minter health_status
record_outcome-tallies jitter jitter' o at sm = ground arith

-- Recording an outcome is exactly the run of its critical sections, so what holds for every sequence
-- of sections holds however the halves of concurrent records interleave.
pub record_outcome-run :
    (jitter jitter' : Jitter) (o : Outcome) (at : ℕ) (sm : StateMachine)
    → record_outcome jitter jitter' o at sm ≡ run sm (sections jitter jitter' o at)
unfolding record_outcome run act indicts_minter health_status
record_outcome-run jitter jitter' o at sm = ground arith

abbrev pub IsSuccess : Action → Type 0
IsSuccess (succeed at) = Unit
IsSuccess _ = ⊥

abbrev pub IsOut : StateMachine → Type 0
IsOut sm = (sm.state ≡ State.auth_failing) ⊎ (sm.state ≡ State.missing)

act-IsOut : (sm : StateMachine) (a : Action) → ¬ IsSuccess a → IsOut sm → IsOut (act sm a)
unfolding act record_error strike release_probe record_missing try_acquire
act-IsOut sm (succeed at) n h = absurd (n tt)
act-IsOut sm (fail jitter status at) n h = ground arith
act-IsOut sm (strike_at jitter retry_after at) n h = h
act-IsOut sm release n h = h
act-IsOut sm lose n h = inr refl
act-IsOut sm (acquire now) n h = ground arith

run-IsOut :
    (sm : StateMachine) (actions : List Action)
    → All (λ a. ¬ IsSuccess a) actions
    → IsOut sm
    → IsOut (run sm actions)
unfolding run
run-IsOut sm [] n h = h
run-IsOut sm (a ∷ rest) n h = run-IsOut (act sm a) rest n.1 (act-IsOut sm a n.0 h)

IsOut-refused :
    (sm : StateMachine) (now : ℕ)
    → IsOut sm
    → (try_acquire now sm ≡ (sm, false)) × (selectable now sm ≡ false)
unfolding try_acquire selectable
IsOut-refused sm now h = ground arith

-- A minter that fails authentication or is missing stays out of use until a success is recorded: after
-- any sequence without a success it is neither granted for issuance nor selectable, at any time.
pub out_until_success :
    (sm : StateMachine) (actions : List Action) (now : ℕ)
    → IsOut sm
    → All (λ a. ¬ IsSuccess a) actions
    → ((try_acquire now (run sm actions)).1 ≡ false) × (selectable now (run sm actions) ≡ false)
out_until_success sm actions now h n =
    let (refused, unselectable) = IsOut-refused _ now (run-IsOut sm actions n h) in
    (ap (λ r. r.1) refused, unselectable)
