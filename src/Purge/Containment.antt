-- ===== src/Purge/Containment.antt =====
-- Whom a pass of a purge touches: the calls that it makes, and the storage that it leaves.
use mathlib.Core.List.{Memᴰ}
use openbao_cloud_creds.Purge.Rules.{Kept, loop_rule}
use openbao_cloud_creds.Base.{
  mem_more, mem_last, ℕ, suc, ◌+◌, ◌++◌, ◌≡◌, refl, sym, ◌∙◌, ◌⊎◌, inl, inr, Text, text_eq,
  text_eq_iff, text_eq_refl, List, [], ◌∷◌, Option, none, some, Option-cases, true, Bool-cases,
  length, length-append, All, All-append, arith,
}
use openbao_cloud_creds.Storage.{Value, Storage, Laws}
use openbao_cloud_creds.Purge.{
  Answer, gone, Record, Deleter, Config, is_complete, scan, State, Round, budget_of, delete_loop,
  begin, settle, pass,
}
use openbao_cloud_creds.Purge.Rounds.{
  Attempted, full, limited, refused, stuck, removed, attempt-Attempted, proceed, asked,
  after_failure, after_removal, settle-Settled, settle-remaining, pass-scan, Counts,
  delete_loop-Ends,
}
use openbao_cloud_creds.Purge.Scope.{InScope, scan-InScope}

-- Every call of the pass is for a record in scope.
module _ {S : Type 0} (st : Storage S) (content : S → Text → Option Value) (laws : Laws st content)
    (del : Deleter) (s₀ : S) (cfg : Config) where
  abbrev AllInScope : State S → Type 0
  AllInScope p = All (λ c. InScope content s₀ cfg c.0) p.calls

  -- A key is as it was, or it is gone with the record of a call that the cloud answered with `gone`.
  abbrev pub Touched : State S → Text → Type 0
  Touched p k =
      (content p.storage k ≡ content s₀ k)
      ⊎ ((content p.storage k ≡ none)
          × (r : Record) × Memᴰ (r, gone) p.calls
          × (k ≡ cfg.prefix ++ r.id))

  calls-Kept :
      Kept st del cfg.prefix (budget_of cfg.max_deletes) AllInScope (InScope content s₀ cfg)
  calls-Kept = record {
    call = λ r p i h. All-append _ p.calls ((r, del p.calls r) ∷ []) h (i, tt);
    count = λ p res h. h;
    cut = λ r p s i h e d. All-append _ p.calls ((r, del p.calls r) ∷ []) h (i, tt);
  }

  Touched-more :
      (p : State S) (c : Record × Answer) (k : Text)
      → Touched p k
      → Touched (record p { calls = p.calls ++ c ∷ [] }) k
  Touched-more p c k (inl e) = inl e
  Touched-more p c k (inr (e, r, m, q)) = inr (e, r, mem_more p.calls (c ∷ []) m, q)

  cut-Touched :
      (r : Record) (p : State S) (s : S)
      → ((k : Text) → Touched p k)
      → del p.calls r ≡ gone
      → st.delete p.storage (cfg.prefix ++ r.id) ≡ some s
      → (k : Text) → Touched (record (asked del r p) { storage = s }) k
  cut-Touched r p s h e d k = elim (Bool-cases (text_eq (cfg.prefix ++ r.id) k)) [
    | inl q ↦ inr (
      laws.delete_removes p.storage (cfg.prefix ++ r.id) k d ∙ rw q,
      r,
      rw e (mem_last p.calls (r, gone)),
      sym ((text_eq_iff (cfg.prefix ++ r.id) k).0 q),
    )
    | inr q ↦ elim (Touched-more p (r, del p.calls r) k (h k)) [
      | inl f ↦ inl (laws.delete_removes p.storage (cfg.prefix ++ r.id) k d ∙ rw q f)
      | inr (f, t, m, z) ↦
          inr (laws.delete_removes p.storage (cfg.prefix ++ r.id) k d ∙ rw q f, t, m, z)
    ]
  ]

  storage-Kept :
      Kept st del cfg.prefix
        (budget_of cfg.max_deletes)
        (λ p. (k : Text) → Touched p k)
        (λ r. Unit {0})
  storage-Kept = record {
    call = λ r p i h k. Touched-more p (r, del p.calls r) k (h k);
    count = λ p res h. h;
    cut = λ r p s i h e d. cut-Touched r p s h e d;
  }

  everywhere : {A : Type 0} (xs : List A) → All (λ x. Unit {0}) xs
  everywhere [] = tt
  everywhere (x ∷ xs) = (tt, everywhere xs)

  -- What holds of the state at the start of the loop and is kept by its rounds holds after the pass.
  pass_rule :
      (I : State S → Type 0) (P : Record → Type 0)
      → Kept st del cfg.prefix (budget_of cfg.max_deletes) I P
      → ((p q : State S) → p.storage ≡ q.storage → p.calls ≡ q.calls → I q → I p)
      → ((n : ℕ) → I (begin st del s₀ n))
      → ((rs : List Record) → scan st s₀ cfg.prefix cfg.role cfg.cutoff ≡ some rs → All P rs)
      → I (pass st del s₀ cfg).0
  unfolding pass
  pass_rule I P k same start scoped =
      elim (Option-cases (scan st s₀ cfg.prefix cfg.role cfg.cutoff)) [
        | inl e ↦ rw (e, pass) (start 0)
        | inr (rs, e) ↦
            let b = budget_of cfg.max_deletes in
            let x = delete_loop st del cfg.prefix b rs (begin st del s₀ (length rs)) in
            let z = settle-Settled st del cfg.prefix b x in
            rw (e, pass)
              (same (settle st del x).0 x.0 z.same_storage z.same_calls (
                loop_rule st del cfg.prefix b I P k rs (begin st del s₀ (length rs)) (scoped rs e)
                  (start (length rs))))
      ]

  -- Whether or not a pass ends with an error, it asks the cloud to delete only what a stored record of
  -- the purge's role tracks, created no later than the cutoff as far as the record says.
  pub pass-calls-InScope : All (λ c. InScope content s₀ cfg c.0) (pass st del s₀ cfg).0.calls
  unfolding begin
  pass-calls-InScope =
      pass_rule AllInScope (InScope content s₀ cfg) calls-Kept (λ p q e f h. rw f h) (λ n. tt)
        (λ rs e. scan-InScope st content laws s₀ cfg e)

  -- Whether or not a pass ends with an error, each key of the storage is as it was, or it is gone and
  -- belonged to a record whose upstream delete the cloud answered as gone: a record is never dropped
  -- on a failure or on throttling.
  pub pass-storage-Touched : (k : Text) → Touched (pass st del s₀ cfg).0 k
  unfolding begin
  pass-storage-Touched =
      pass_rule (λ p. (k : Text) → Touched p k) (λ r. Unit {0}) storage-Kept
        (λ p q e f h k. rw (e, f) (h k)) (λ n k. inl refl) (λ rs e. everywhere rs)

  absent-Kept :
      (k : Text)
      → Kept st del cfg.prefix
          (budget_of cfg.max_deletes)
          (λ p. content p.storage k ≡ none)
          (λ r. Unit {0})
  absent-Kept k = record {
    call = λ r p i h. h;
    count = λ p res h. h;
    cut = λ r p s i h e d. laws.delete_removes p.storage (cfg.prefix ++ r.id) k d ∙ ground arith;
  }

  -- What is missing from the storage before the loop's remaining rounds is missing after them.
  stays_absent :
      (k : Text) (rs : List Record) (p : State S)
      → content p.storage k ≡ none
      → content (delete_loop st del cfg.prefix (budget_of cfg.max_deletes) rs p).0.storage k ≡ none
  stays_absent k rs p h =
      loop_rule st del cfg.prefix (budget_of cfg.max_deletes) (λ q. content q.storage k ≡ none)
        (λ r. Unit {0}) (absent-Kept k) rs p (everywhere rs) h

  abbrev Absent : State S → List Record → Type 0
  Absent p rs = All (λ r. content p.storage (cfg.prefix ++ r.id) ≡ none) rs

  round_cleared :
      {r : Record} {p : State S} {t : Round S} (rs : List Record)
      → Counts st del cfg.prefix (budget_of cfg.max_deletes) p
      → Attempted st del cfg.prefix (budget_of cfg.max_deletes) r p t
      → ((q : State S)
          → Counts st del cfg.prefix (budget_of cfg.max_deletes) q
          → (delete_loop st del cfg.prefix (budget_of cfg.max_deletes) rs q).0.result.deleted
            ≡ q.result.deleted + length rs
          → Absent (delete_loop st del cfg.prefix (budget_of cfg.max_deletes) rs q).0 rs)
      → (proceed st del cfg.prefix (budget_of cfg.max_deletes) rs t).0.result.deleted
        ≡ p.result.deleted + suc (length rs)
      → Absent (proceed st del cfg.prefix (budget_of cfg.max_deletes) rs t).0 (r ∷ rs)
  unfolding proceed
  round_cleared rs c (full l) ih h = absurd (omega arith)
  round_cleared rs c (limited l e) ih h = absurd (omega arith)
  round_cleared rs c (stuck l e n) ih h = absurd (omega arith)
  round_cleared {r} {p} rs c (refused l e) ih h =
      let d =
        delete_loop-Ends st del cfg.prefix (budget_of cfg.max_deletes) rs (after_failure del r p)
          (omega (arith, length-append p.calls ((r, del p.calls r) ∷ []))) in
      absurd (omega (arith, d))
  round_cleared {r} {p} rs c (removed l e s d) ih h = (
    stays_absent (cfg.prefix ++ r.id) rs (after_removal del r s p) (
        laws.delete_removes p.storage (cfg.prefix ++ r.id) (cfg.prefix ++ r.id) d
        ∙ rw (text_eq_refl (cfg.prefix ++ r.id))),
    ih (after_removal del r s p) (omega (arith, length-append p.calls ((r, del p.calls r) ∷ [])))
        (omega arith),
  )

  loop_cleared :
      (rs : List Record) (p : State S)
      → Counts st del cfg.prefix (budget_of cfg.max_deletes) p
      → (delete_loop st del cfg.prefix (budget_of cfg.max_deletes) rs p).0.result.deleted
        ≡ p.result.deleted + length rs
      → Absent (delete_loop st del cfg.prefix (budget_of cfg.max_deletes) rs p).0 rs
  unfolding delete_loop proceed
  loop_cleared [] p c h = tt
  loop_cleared (r ∷ rs) p c h =
      round_cleared rs c (attempt-Attempted st del cfg.prefix (budget_of cfg.max_deletes) r p)
        (λ q. loop_cleared rs q) h

  -- When a pass ends without an error and its result is complete, nothing is left of any record that its
  -- scan found in scope.
  pub pass-is_complete :
      (pass st del s₀ cfg).1 ≡ true
      → is_complete (pass st del s₀ cfg).0.result ≡ true
      → (rs : List Record) × (scan st s₀ cfg.prefix cfg.role cfg.cutoff ≡ some rs)
        × All (λ r. content (pass st del s₀ cfg).0.storage (cfg.prefix ++ r.id) ≡ none) rs
  unfolding is_complete begin
  pass-is_complete fine done =
      let b = budget_of cfg.max_deletes in
      let (rs, found, e) = pass-scan st del s₀ cfg fine in
      let p = begin st del s₀ (length rs) in
      let x = delete_loop st del cfg.prefix b rs p in
      let c : Counts st del cfg.prefix b p = omega arith in
      let ends = delete_loop-Ends st del cfg.prefix b rs p c in
      let kept = settle-Settled st del cfg.prefix b x in
      let left = settle-remaining st del cfg.prefix b x (rw e at fine) in
      let empty : (settle st del x).0.result.remaining ≡ 0 = ground (arith, rw e at done) in
      (
        rs,
        found,
        rw (e, kept.same_storage) (loop_cleared rs p c (omega (arith, ends, left, empty))),
      )
