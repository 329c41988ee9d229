-- ===== src/Recovery.antt =====
-- pkg/recovery/state.go and ratelimit.go: the health of one minter and its rate-limit breaker.
--
-- A `time.Time` is the number of nanoseconds since Go's zero time, so `IsZero` is `== 0`; a
-- `time.Duration` is a number of nanoseconds, and a duration that is not positive is 0. Where the
-- source tests `a.Sub(b) >= d`, the model tests `b + d ≤ a`. Counters do not overflow. Each function
-- is one critical section of the mutex; `record_rate_limited` is two.
pub mod Breaker
pub mod Health
pub mod Unavailable
pub mod Examples
use openbao_cloud_creds.Base.{
  ℕ, zero, suc, ◌+◌, ◌-◌, ◌*◌, ◌/◌, min, Text, text, List, [], ◌∷◌, Option, none, some, Bool, true,
  false, ◌&&◌, ◌||◌, not, ◌==◌, ltb, leb, if◌then◌else◌,
}
use openbao_cloud_creds.Errors.{
  ErrorCode, upstream_quota_exceeded, upstream_auth_failed, GoError, classify, indicts_minter,
  health_status,
}

pub data State : Type 0 where
  healthy transient_failing auth_failing missing : State

pub record Config : Type 0 where
  pub auth_fail_threshold : ℕ
  pub health_check_interval : ℕ

pub record StateMachine : Type 0 where
  pub state : State
  pub config : Config
  pub first_auth_error_at : ℕ
  pub last_error_at : ℕ
  pub last_success_at : ℕ
  pub entered_auth_failed : ℕ
  pub cooldown_until : ℕ
  pub consecutive_failures : ℕ
  pub consecutive_auth_failures : ℕ
  pub rate_limit_strikes : ℕ
  pub probe_until : ℕ

abbrev pub second : ℕ
second = 1_000_000_000

abbrev pub rate_limit_cooldown : ℕ
rate_limit_cooldown = 5_000_000_000

abbrev pub max_rate_limit_cooldown : ℕ
max_rate_limit_cooldown = 120_000_000_000

abbrev pub max_cloud_hint_jitter : ℕ
max_cloud_hint_jitter = 2_000_000_000

abbrev pub probe_grace : ℕ
probe_grace = 35_000_000_000

abbrev pub probe_poll_interval : ℕ
probe_poll_interval = 100_000_000

unfoldable pub new_state_machine : Config → StateMachine
new_state_machine cfg = record {
  state = State.healthy;
  config = cfg;
  first_auth_error_at = 0;
  last_error_at = 0;
  last_success_at = 0;
  entered_auth_failed = 0;
  cooldown_until = 0;
  consecutive_failures = 0;
  consecutive_auth_failures = 0;
  rate_limit_strikes = 0;
  probe_until = 0;
}

-- One draw of `jitterFraction()`: the jitter that it gives for each bound. The fraction is below 1.
abbrev pub Jitter : Type 0
Jitter = ℕ → ℕ

-- The loop of `cooldownFor`, over the rounds left.
unfoldable pub double_backoff : ℕ → ℕ → ℕ
double_backoff zero backoff = backoff
double_backoff (suc rounds) backoff =
    let rest = double_backoff rounds (backoff * 2) in
    if ltb backoff max_rate_limit_cooldown then rest else backoff

unfoldable pub cooldown_for : Jitter → ℕ → ℕ → ℕ
unfolding double_backoff
cooldown_for jitter strikes hint =
    if ltb 0 hint
    then hint + jitter (min hint max_cloud_hint_jitter)
    else let strikes' = if ltb strikes 1 then 1 else strikes in
      let backoff =
        min (double_backoff (strikes' - 1) rate_limit_cooldown) max_rate_limit_cooldown in
      let half = backoff / 2 in half + jitter half

unfoldable pub record_success : ℕ → StateMachine → StateMachine
record_success at sm = record sm {
  consecutive_failures = 0;
  consecutive_auth_failures = 0;
  last_success_at = at;
  first_auth_error_at = 0;
  cooldown_until = 0;
  rate_limit_strikes = 0;
  probe_until = 0;
  state = State.healthy;
}

unfoldable pub is_auth_error : ℕ → Bool
is_auth_error status = status == 401 || status == 403

-- The `switch sm.state` of `RecordError`; `auth` is `isAuthError(httpStatus)`.
error_transition : State → Bool → ℕ → StateMachine → StateMachine
error_transition State.healthy auth at sm =
    let t = record sm { state = State.transient_failing } in
    if auth then record t { first_auth_error_at = at } else t
error_transition State.transient_failing auth at sm =
    let first = if sm.first_auth_error_at == 0 then at else sm.first_auth_error_at in
    let t = record sm { first_auth_error_at = first } in
    if not auth
    then record sm { first_auth_error_at = 0 }
    else if leb (first + sm.config.auth_fail_threshold) at
    then record t { state = State.auth_failing; entered_auth_failed = at }
    else t
error_transition State.auth_failing auth at sm = sm
error_transition State.missing auth at sm = sm

unfoldable pub record_error : Jitter → ℕ → ℕ → StateMachine → StateMachine
unfolding is_auth_error error_transition cooldown_for
record_error jitter status at sm =
    let auth = is_auth_error status in
    let counted = record sm {
      consecutive_failures = sm.consecutive_failures + 1;
      consecutive_auth_failures =
          if auth then sm.consecutive_auth_failures + 1 else sm.consecutive_auth_failures;
      last_error_at = at;
      cooldown_until = if status == 429 then at + cooldown_for jitter 1 0 else sm.cooldown_until;
    } in
    error_transition sm.state auth at counted

-- The first critical section of `recordRateLimited`; `RecordError` is the second.
unfoldable pub strike : Jitter → ℕ → ℕ → StateMachine → StateMachine
unfolding cooldown_for
strike jitter retry_after at sm =
    let strikes = sm.rate_limit_strikes + 1 in
    record sm {
      rate_limit_strikes = strikes;
      cooldown_until = at + cooldown_for jitter strikes retry_after;
      probe_until = 0;
    }

unfoldable pub record_rate_limited : Jitter → Jitter → ℕ → ℕ → StateMachine → StateMachine
unfolding strike record_error
record_rate_limited jitter jitter' retry_after at sm =
    record_error jitter' 503 at (strike jitter retry_after at sm)

unfoldable pub release_probe : StateMachine → StateMachine
release_probe sm = record sm { probe_until = 0 }

pub record Outcome : Type 0 where
  pub status : ℕ
  pub err : GoError
  pub retry_after : ℕ

-- `Record`, with the two draws of jitter that a call may make.
unfoldable pub record_outcome : Jitter → Jitter → Outcome → ℕ → StateMachine → StateMachine
unfolding record_rate_limited record_error release_probe
record_outcome jitter jitter' o at sm =
    let code = classify o.status o.err in
    if not (indicts_minter code) then release_probe sm else elim code [
      | upstream_quota_exceeded ↦ record_rate_limited jitter jitter' o.retry_after at sm
      | c ↦ record_error jitter' (health_status c) at sm
    ]

unfoldable pub record_missing : StateMachine → StateMachine
record_missing sm = record sm { state = State.missing }

unfoldable pub serviceable : State → Bool
serviceable State.healthy = true
serviceable State.transient_failing = true
serviceable _ = false

unfoldable pub selectable : ℕ → StateMachine → Bool
unfolding serviceable
selectable now sm = if ltb now sm.cooldown_until then false else serviceable sm.state

unfoldable pub in_rate_limit_cooldown : ℕ → StateMachine → Bool
in_rate_limit_cooldown now sm = ltb now sm.cooldown_until || ltb 0 sm.rate_limit_strikes

unfoldable pub try_acquire : ℕ → StateMachine → StateMachine × Bool
unfolding serviceable
try_acquire now sm =
    if not (serviceable sm.state)
    then (sm, false)
    else if ltb now sm.cooldown_until
    then (sm, false)
    else if sm.rate_limit_strikes == 0
    then (sm, true)
    else if ltb now sm.probe_until
    then (sm, false)
    else (record sm { probe_until = now + probe_grace }, true)

unfoldable pub retry_in : ℕ → StateMachine → ℕ
unfolding serviceable
retry_in now sm =
    if not (serviceable sm.state)
    then 0
    else if ltb now sm.cooldown_until
    then sm.cooldown_until - now
    else if ltb 0 sm.rate_limit_strikes && ltb now sm.probe_until
    then probe_poll_interval
    else 0

unfoldable pub needs_health_check : ℕ → StateMachine → Bool
needs_health_check now sm = elim sm.state [
  | State.auth_failing ↦
      let last_check =
        if not (sm.last_success_at == 0) && ltb sm.entered_auth_failed sm.last_success_at
        then sm.last_success_at
        else sm.entered_auth_failed in
      leb (last_check + sm.config.health_check_interval) now
  | _ ↦ false
]

-- `LastSuccessAt` is kept as a time; the source renders it as text.
pub record Snapshot : Type 0 where
  pub state : State
  pub consecutive_failures : ℕ
  pub consecutive_auth_failures : ℕ
  pub last_success_at : Option ℕ
  pub selectable : Bool
  pub rate_limited : Bool
  pub retry_in_seconds : ℕ

unfoldable pub snapshot : ℕ → StateMachine → Snapshot
unfolding serviceable retry_in
snapshot now sm = record {
  state = sm.state;
  consecutive_failures = sm.consecutive_failures;
  consecutive_auth_failures = sm.consecutive_auth_failures;
  last_success_at = if sm.last_success_at == 0 then none else some sm.last_success_at;
  selectable = not (ltb now sm.cooldown_until) && serviceable sm.state;
  rate_limited = ltb now sm.cooldown_until || ltb 0 sm.rate_limit_strikes;
  retry_in_seconds = if ltb 0 (retry_in now sm) then retry_in now sm / second else 0;
}

-- One round of the loop of `UnavailableError`; the source starts `soonest` at -1, here `none`.
unfoldable pub sooner : ℕ → Option ℕ → StateMachine → Option ℕ
sooner now soonest sm = if not (in_rate_limit_cooldown now sm) then soonest else elim soonest [
  | none ↦ some (retry_in now sm)
  | some s ↦ if ltb (retry_in now sm) s then some (retry_in now sm) else some s
]

unfoldable pub soonest_retry : ℕ → Option ℕ → List StateMachine → Option ℕ
soonest_retry now soonest [] = soonest
soonest_retry now soonest (sm ∷ machines) = soonest_retry now (sooner now soonest sm) machines

-- The code and the status of `UnavailableError`, and the wait that its message names (rounded to a second).
unfoldable pub unavailable_error : ℕ → List StateMachine → ErrorCode × ℕ × Option ℕ
unfolding soonest_retry sooner
unavailable_error now machines = elim (soonest_retry now none machines) [
  | some s ↦ (upstream_quota_exceeded, 503, some s)
  | none ↦ (upstream_auth_failed, 502, none)
]
