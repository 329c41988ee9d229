-- ===== src/Capability/Probes.antt =====
-- `Runner.Verify` of pkg/capability: the distinct probes one after another, with the cache and the limiter.
--
-- A probe's answer may depend on the probes before, which are kept in order with their answers. The clock is
-- read between two probes and again after each. What a mint that fails to be recorded in the cache
-- leaves is the storage as it was.
use openbao_cloud_creds.Base.{
  ℕ, ◌+◌, ◌++◌, Text, List, [], ◌∷◌, none, some, Bool, true, false, any, if◌then◌else◌,
}
use openbao_cloud_creds.Errors.{GoError, Link, probe_unsupported}
use openbao_cloud_creds.Storage.{Storage}
use openbao_cloud_creds.Recovery.{Jitter}
use openbao_cloud_creds.Capability.{Check, dedupe}
use openbao_cloud_creds.Capability.Cache.{fresh, store}
use openbao_cloud_creds.Capability.Limiter.{States, acquire, record_result}

abbrev pub Answer : Type 0
Answer = ℕ × GoError

abbrev pub Prober : Type 0
Prober = List (Check × Answer) → Check → Answer

pub record Result : Type 0 where
  pub ran : ℕ
  pub skipped : ℕ
  pub cached : ℕ

-- `Failure` and `Throttled`, or no error.
pub data End : Type 0 where
  fine : End
  throttled : Text → ℕ → End
  refused : Check → Answer → End

pub record State (S : Type 0) : Type 0 where
  pub storage : S
  pub states : States
  pub calls : List (Check × Answer)
  pub result : Result

pub data Round (S : Type 0) : Type 0 where
  onward : State S → Round S
  left : State S → End → Round S

is_probe_unsupported : Link → Bool
is_probe_unsupported probe_unsupported = true
is_probe_unsupported _ = false

-- `errors.Is(err, ErrUnsupported)`.
unfoldable pub is_unsupported : List Link → Bool
unfolding is_probe_unsupported
is_unsupported ls = any is_probe_unsupported ls

-- What the runner is given: the cache's storage, digest and time to live, the clock, the draws of jitter, and
-- what the probes answer.
pub record Runner (S : Type 0) : Type 0 where
  pub store : Storage S
  pub digest : Text → Text
  pub ttl : ℕ
  pub clock : List (Check × Answer) → ℕ
  pub jitter : Jitter
  pub jitter' : Jitter
  pub run : Prober

module _ {S : Type 0} (r : Runner S) where
  -- The state after a probe was asked and its outcome shared with the limiter.
  unfoldable pub asked : Check → State S → State S
  asked c p =
      let answer = r.run p.calls c in
      let calls = p.calls ++ (c, answer) ∷ [] in
      record p {
        calls = calls;
        states =
            record_result r.jitter r.jitter' (r.clock calls) c.minter answer.0 answer.1 p.states;
      }

  unfoldable pub remember : Check → State S → State S
  remember c p = record p { storage = store r.store r.digest r.ttl (r.clock p.calls) p.storage c }

  unfoldable pub answered : Check → State S → Answer → Round S
  answered c p (status, none) =
      onward (record (remember c p) { result = record p.result { ran = p.result.ran + 1 } })
  answered c p (status, some ls) =
      if is_unsupported ls
      then onward (record p { result = record p.result { skipped = p.result.skipped + 1 } })
      else left p (refused c (status, some ls))

  unfoldable pub probe : Check → State S → Round S
  unfolding asked answered
  probe c p =
      if fresh r.store r.digest r.ttl (r.clock p.calls) p.storage c
      then onward (record p { result = record p.result { cached = p.result.cached + 1 } })
      else elim (acquire (r.clock p.calls) c.minter p.states) [
        | some wait ↦ left p (throttled c.minter wait)
        | none ↦ answered c (asked c p) (r.run p.calls c)
      ]

  unfoldable pub probe_all : List Check → State S → State S × End
  probe_all [] p = (p, fine)
  probe_all (c ∷ checks) p = elim (probe c p) [
    | onward q ↦ probe_all checks q
    | left q end ↦ (q, end)
  ]

  unfoldable pub begin : S → States → State S
  begin s states = record {
    storage = s;
    states = states;
    calls = [];
    result = record { ran = 0; skipped = 0; cached = 0 };
  }

  -- `Verify`.
  unfoldable pub verify : S → States → List Check → State S × End
  unfolding probe_all begin
  verify s states checks = probe_all (dedupe checks) (begin s states)
