-- ===== src/Recovery/Examples.antt =====
-- The health of a minter at concrete inputs.
use openbao_cloud_creds.Base.{
  ℕ, ◌+◌, ◌/◌, ◌≤◌, ◌<◌, ◌≡◌, refl, inr, true, false, List, [], ◌∷◌, All, none, some, arith,
}
use openbao_cloud_creds.Errors.{upstream_quota_exceeded}
use openbao_cloud_creds.Recovery.{
  State, Config, StateMachine, Jitter, Outcome, new_state_machine, record_error,
  record_rate_limited, record_missing, in_rate_limit_cooldown, sooner, serviceable, selectable,
  try_acquire, retry_in, unavailable_error,
}
use openbao_cloud_creds.Recovery.Health.{
  Action, fail, acquire, act, run, Inv, run-new-Inv, out_until_success,
}
use openbao_cloud_creds.Recovery.Breaker.{
  rate_limit_refuses, later_strike_may_shorten, acquire_all, probe_exclusive,
}

abbrev settings : Config
settings = record { auth_fail_threshold = 60_000_000_000; health_check_interval = 300_000_000_000 }

-- A jitter of half the bound.
abbrev half : Jitter
half b = b / 2

half_bounded : (b : ℕ) → half b ≤ b
half_bounded b = omega arith

abbrev rejections : List Action
rejections = fail half 401 5 ∷ fail half 503 6 ∷ fail half 401 7 ∷ fail half 403 70_000_000_000 ∷ []

run-new-Inv_example : Inv (run (new_state_machine settings) rejections)
run-new-Inv_example = run-new-Inv settings rejections

failed_after_rejections : (run (new_state_machine settings) rejections).state ≡ State.auth_failing
unfolding run act record_error new_state_machine
failed_after_rejections = refl

abbrev refused_login : Outcome
refused_login = record { status = 401; err = none; retry_after = 0 }

abbrev lost : StateMachine
lost = record_missing (new_state_machine settings)

out_until_success_example :
    ((try_acquire 99 (run lost (fail half 500 3 ∷ acquire 4 ∷ []))).1 ≡ false)
    × (selectable 99 (run lost (fail half 500 3 ∷ acquire 4 ∷ [])) ≡ false)
unfolding record_missing
out_until_success_example =
    out_until_success lost (fail half 500 3 ∷ acquire 4 ∷ []) 99 (inr refl)
      ((λ b. b), ((λ b. b), tt))

rate_limit_refuses_example :
    let t =
      run
        (record_rate_limited half half 60_000_000_000 10 (new_state_machine settings))
        (fail half 500 20 ∷ []) in
    ((try_acquire 50_000_000_000 t).1 ≡ false) × (selectable 50_000_000_000 t ≡ false)
rate_limit_refuses_example =
    rate_limit_refuses half half 60_000_000_000 10 50_000_000_000 (new_state_machine settings)
      (fail half 500 20 ∷ []) half_bounded ((λ e. omega arith), tt) (omega arith)

later_strike_may_shorten_example :
    let t =
      record_rate_limited half half 0 20
        (record_rate_limited half half 600_000_000_000 10 (new_state_machine settings)) in
    (now : ℕ) × (now < 10 + 600_000_000_000) × ((try_acquire now t).1 ≡ true)
unfolding new_state_machine serviceable
later_strike_may_shorten_example =
    later_strike_may_shorten half half half half 600_000_000_000 10 20 (new_state_machine settings)
      half_bounded refl (omega arith)

-- After one strike at time 0 the cooldown is over, and the first caller probes.
abbrev half_open : StateMachine
half_open = record_rate_limited half half 0 0 (new_state_machine settings)

probe_exclusive_example :
    All
      (λ granted. granted ≡ false)
      (acquire_all (try_acquire 9_000_000_000 half_open).0 (9_000_000_001 ∷ 43_000_000_000 ∷ []))
unfolding new_state_machine record_rate_limited try_acquire
probe_exclusive_example =
    probe_exclusive 9_000_000_000 half_open (9_000_000_001 ∷ 43_000_000_000 ∷ []) (omega arith) refl
      (omega arith)

told_to_wait :
    unavailable_error 1 (half_open ∷ lost ∷ []) ≡ (upstream_quota_exceeded, 503, some 3_749_999_999)
unfolding unavailable_error record_rate_limited record_missing new_state_machine
    in_rate_limit_cooldown retry_in sooner
told_to_wait = refl
