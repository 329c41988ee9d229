-- ===== src/Capability/Limiter.antt =====
-- pkg/capability/limiter.go: the minters' rate limits, shared with the probes.
use openbao_cloud_creds.Base.{
  ℕ, Text, text_eq, List, [], ◌∷◌, Option, none, some, ltb, if◌then◌else◌,
}
use openbao_cloud_creds.Errors.{GoError, upstream_quota_exceeded, classify}
use openbao_cloud_creds.Recovery.{
  StateMachine, Jitter, record_success, record_outcome, release_probe, in_rate_limit_cooldown,
  retry_in,
}

-- The minters' state machines by id; a limiter that is nil has none.
abbrev pub States : Type 0
States = List (Text × StateMachine)

unfoldable pub state_for : Text → States → Option StateMachine
state_for id [] = none
state_for id ((k, sm) ∷ states) = if text_eq k id then some sm else state_for id states

unfoldable pub set_state : Text → StateMachine → States → States
set_state id sm [] = []
set_state id sm ((k, old) ∷ states) =
    if text_eq k id then (k, sm) ∷ states else (k, old) ∷ set_state id sm states

-- `loginRejected`: how many logins of the minter were rejected, where that is not 0.
unfoldable pub login_rejected : Text → States → Option ℕ
login_rejected id states = elim (state_for id states) [
  | none ↦ none
  | some sm ↦ if ltb 0 sm.consecutive_auth_failures then some sm.consecutive_auth_failures else none
]

-- `acquire`: the time to wait where the minter is throttled.
unfoldable pub acquire : ℕ → Text → States → Option ℕ
acquire now id states = elim (state_for id states) [
  | none ↦ none
  | some sm ↦ if in_rate_limit_cooldown now sm then some (retry_in now sm) else none
]

-- What `record` does to the minter's state machine, with the two draws of jitter that it may make.
record_probe : Jitter → Jitter → ℕ → ℕ → GoError → StateMachine → StateMachine
record_probe jitter jitter' now status none sm = record_success now sm
record_probe jitter jitter' now status (some ls) sm = elim (classify status (some ls)) [
  | upstream_quota_exceeded ↦
      record_outcome jitter jitter' (record { status = status; err = some ls; retry_after = 0 }) now
        sm
  | _ ↦ release_probe sm
]

unfoldable pub record_result : Jitter → Jitter → ℕ → Text → ℕ → GoError → States → States
unfolding record_probe
record_result jitter jitter' now id status err states = elim (state_for id states) [
  | none ↦ states
  | some sm ↦ set_state id (record_probe jitter jitter' now status err sm) states
]
