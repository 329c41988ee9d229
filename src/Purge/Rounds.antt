-- ===== src/Purge/Rounds.antt =====
-- The rounds of the loop of `Pass`, one by one.
use openbao_cloud_creds.Base.{
  ℕ, suc, ◌+◌, ◌-◌, ◌≤◌, ◌<◌, ◌++◌, ◌≡◌, refl, ◌⊎◌, inl, inr, Text, List, [], ◌∷◌, none, some,
  Option-cases, Bool, true, false, Bool-cases, leb, length, length-append, arith,
}
use openbao_cloud_creds.Storage.{Storage}
use openbao_cloud_creds.Purge.{
  Answer, gone, throttled, failed, Record, Deleter, Config, scan, State, Round, onward, left,
  attempt, budget_of, delete_loop, begin, settle, pass,
}

Answer-cases : (a : Answer) → (a ≡ gone) ⊎ ((a ≡ throttled) ⊎ (a ≡ failed))
Answer-cases gone = inl refl
Answer-cases throttled = inr (inl refl)
Answer-cases failed = inr (inr refl)

abbrev pub asked : {S : Type 0} → Deleter → Record → State S → State S
asked del r p = record p { calls = p.calls ++ (r, del p.calls r) ∷ [] }

abbrev pub after_failure : {S : Type 0} → Deleter → Record → State S → State S
after_failure del r p = record (asked del r p) {
  result = record p.result { failed = p.result.failed + 1 };
}

abbrev pub after_removal : {S : Type 0} → Deleter → Record → S → State S → State S
after_removal del r s p = record (asked del r p) {
  storage = s;
  result = record p.result { deleted = p.result.deleted + 1 };
}

module _ {S : Type 0} (st : Storage S) (del : Deleter) (prefix : Text) (budget : ℕ) where
  -- The ways in which a round ends, with what is known in each.
  pub data Attempted (r : Record) (p : State S) : Round S → Type 0 where
    full : budget ≤ p.result.deleted + p.result.failed → Attempted r p (left p true)
    limited :
        p.result.deleted + p.result.failed < budget
        → del p.calls r ≡ throttled
        → Attempted r p
            (left (record (asked del r p) { result = record p.result { throttled = true } }) true)
    refused :
        p.result.deleted + p.result.failed < budget
        → del p.calls r ≡ failed
        → Attempted r p (onward (after_failure del r p))
    stuck :
        p.result.deleted + p.result.failed < budget
        → del p.calls r ≡ gone
        → st.delete p.storage (prefix ++ r.id) ≡ none
        → Attempted r p (left (asked del r p) false)
    removed :
        p.result.deleted + p.result.failed < budget
        → del p.calls r ≡ gone
        → (s : S) → st.delete p.storage (prefix ++ r.id) ≡ some s
        → Attempted r p (onward (after_removal del r s p))

  pub attempt-Attempted :
      (r : Record) (p : State S) → Attempted r p (attempt st del prefix budget r p)
  unfolding attempt
  attempt-Attempted r p = elim (Bool-cases (leb budget (p.result.deleted + p.result.failed))) [
    | inl e ↦ rw e (full (ground arith))
    | inr e ↦ rw e (elim (Answer-cases (del p.calls r)) [
      | inl g ↦ rw g (elim (Option-cases (st.delete p.storage (prefix ++ r.id))) [
        | inl n ↦ rw n (stuck (ground arith) g n)
        | inr (s, d) ↦ rw d (removed (ground arith) g s d)
      ])
      | inr (inl g) ↦ rw g (limited (ground arith) g)
      | inr (inr g) ↦ rw g (refused (ground arith) g)
    ])
  ]

  -- The counters before a round: within the budget, and one for each call.
  pub record Counts (p : State S) : Type 0 where
    pub within : p.result.deleted + p.result.failed ≤ budget
    pub called : p.result.deleted + p.result.failed ≡ length p.calls

  pub record Ends (n : ℕ) (p q : State S) : Type 0 where
    pub within : q.result.deleted + q.result.failed ≤ budget
    pub called : length q.calls ≤ budget
    pub covered : q.result.deleted ≤ p.result.deleted + n
    pub tracked : q.result.tracked ≡ p.result.tracked

  unfoldable pub proceed : List Record → Round S → State S × Bool
  proceed rs t = elim t [
    | left q fine ↦ (q, fine)
    | onward q ↦ delete_loop st del prefix budget rs q
  ]

  round-Ends :
      {r : Record} {p : State S} {t : Round S} (rs : List Record)
      → Counts p
      → Attempted r p t
      → ((q : State S) → Counts q → Ends (length rs) q (delete_loop st del prefix budget rs q).0)
      → Ends (suc (length rs)) p (proceed rs t).0
  unfolding proceed
  round-Ends {r} {p} rs c (full l) ih = omega arith
  round-Ends {r} {p} rs c (limited l e) ih =
      omega (arith, length-append p.calls ((r, del p.calls r) ∷ []))
  round-Ends {r} {p} rs c (stuck l e n) ih =
      omega (arith, length-append p.calls ((r, del p.calls r) ∷ []))
  round-Ends {r} {p} rs c (refused l e) ih = omega (
    arith,
    ih (after_failure del r p) (omega (arith, length-append p.calls ((r, del p.calls r) ∷ []))),
  )
  round-Ends {r} {p} rs c (removed l e s d) ih = omega (
    arith,
    ih (after_removal del r s p) (omega (arith, length-append p.calls ((r, del p.calls r) ∷ []))),
  )

  pub delete_loop-Ends :
      (rs : List Record) (p : State S)
      → Counts p
      → Ends (length rs) p (delete_loop st del prefix budget rs p).0
  unfolding delete_loop proceed
  delete_loop-Ends [] p c = omega arith
  delete_loop-Ends (r ∷ rs) p c =
      round-Ends rs c (attempt-Attempted r p) (λ q. delete_loop-Ends rs q)

  -- What `settle` adds to the end of the loop.
  pub record Settled (x y : State S × Bool) : Type 0 where
    pub same_end : y.1 ≡ x.1
    pub same_storage : y.0.storage ≡ x.0.storage
    pub same_calls : y.0.calls ≡ x.0.calls
    pub same_deleted : y.0.result.deleted ≡ x.0.result.deleted
    pub same_failed : y.0.result.failed ≡ x.0.result.failed
    pub same_tracked : y.0.result.tracked ≡ x.0.result.tracked

  pub settle-Settled : (x : State S × Bool) → Settled x (settle st del x)
  settle-Settled (p, true) = record {
    same_end = refl;
    same_storage = refl;
    same_calls = refl;
    same_deleted = refl;
    same_failed = refl;
    same_tracked = refl;
  }
  settle-Settled (p, false) = record {
    same_end = refl;
    same_storage = refl;
    same_calls = refl;
    same_deleted = refl;
    same_failed = refl;
    same_tracked = refl;
  }

  pub settle-remaining :
      (x : State S × Bool)
      → (settle st del x).1 ≡ true
      → (settle st del x).0.result.remaining ≡ x.0.result.tracked - x.0.result.deleted
  settle-remaining (p, true) h = refl
  settle-remaining (p, false) h = absurd (ground arith)

-- The records that a pass finds, and how it goes on from there.
pub pass-scan :
    {S : Type 0} (st : Storage S) (del : Deleter) (s : S) (cfg : Config)
    → (pass st del s cfg).1 ≡ true
    → (rs : List Record) × (scan st s cfg.prefix cfg.role cfg.cutoff ≡ some rs)
      × (pass st del s cfg
          ≡ settle st del (
              delete_loop st del cfg.prefix
                (budget_of cfg.max_deletes)
                rs
                (begin st del s (length rs))))
unfolding pass
pass-scan st del s cfg fine = elim (Option-cases (scan st s cfg.prefix cfg.role cfg.cutoff)) [
  | inl e ↦ absurd (never (rw (e, pass) at fine))
  | inr (rs, e) ↦ (rs, e, rw (e, pass))
]
  where
    never : false ≡ true → ⊥
    never h = cc
