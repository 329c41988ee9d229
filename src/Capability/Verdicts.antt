-- ===== src/Capability/Verdicts.antt =====
-- How a verification ends, and what it has asked the cloud.
use openbao_cloud_creds.Base.{
  ℕ, ◌+◌, ◌++◌, ◌≡◌, ◌⊎◌, Text, List, [], ◌∷◌, none, some, true, false, length, All,
}
use openbao_cloud_creds.Errors.{Link}
use openbao_cloud_creds.Capability.{Check}
use openbao_cloud_creds.Capability.Probes.{
  Answer, End, fine, throttled, refused, State, Round, onward, left, is_unsupported, Runner, asked,
  probe_all,
}

-- An answer that does not end the verification: no error, or that probing is not supported.
abbrev pub Passes : Check × Answer → Type 0
Passes call =
    (call.1.1 ≡ none) ⊎ ((ls : List Link) × (call.1.1 ≡ some ls) × (is_unsupported ls ≡ true))

-- An answer that ends it: an error other than that probing is not supported.
abbrev pub Fails : Check × Answer → Type 0
Fails call = (ls : List Link) × (call.1.1 ≡ some ls) × (is_unsupported ls ≡ false)

module _ {S : Type 0} (r : Runner S) where
  data Probed (c : Check) (p : State S) : Round S → Type 0 where
    from_cache :
        (q : State S)
        → q.calls ≡ p.calls
        → q.result.ran + q.result.skipped ≡ p.result.ran + p.result.skipped
        → q.result.cached ≡ p.result.cached + 1
        → Probed c p (onward q)
    held : (wait : ℕ) → Probed c p (left p (throttled c.minter wait))
    passed :
        (q : State S)
        → q.calls ≡ p.calls ++ (c, r.run p.calls c) ∷ []
        → Passes (c, r.run p.calls c)
        → q.result.ran + q.result.skipped ≡ p.result.ran + p.result.skipped + 1
        → q.result.cached ≡ p.result.cached
        → Probed c p (onward q)
    failed :
        Fails (c, r.run p.calls c) → Probed c p (left (asked r c p) (refused c (r.run p.calls c)))

  -- The counters agree with the calls, all of which passed.
  record Counted (p : State S) (n : ℕ) : Type 0 where
    counted : p.result.ran + p.result.skipped + p.result.cached ≡ n
    called : length p.calls ≡ p.result.ran + p.result.skipped
    passes : All Passes p.calls

  -- How a verification of `n` probes ends.
  data Ended (p : State S) (n : ℕ) : End → Type 0 where
    ended_fine : Counted p n → Ended p n fine
    ended_throttled :
        (minter : Text) (wait : ℕ) → All Passes p.calls → Ended p n (throttled minter wait)
    ended_refused :
        (c : Check) (a : Answer) (before : List (Check × Answer))
        → p.calls ≡ before ++ (c, a) ∷ []
        → All Passes before
        → Fails (c, a)
        → Ended p n (refused c a)

  abbrev follow : List Check → Round S → State S × End
  follow checks t = elim t [ onward q ↦ probe_all r checks q | left q end ↦ (q, end) ]
