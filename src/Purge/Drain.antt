-- ===== src/Purge/Drain.antt =====
-- Purging makes headway: what one pass achieves while nothing fails.
use mathlib.Core.List.{Memᴰ}
use openbao_cloud_creds.Base.{
  ℕ, zero, suc, ◌+◌, ◌-◌, ◌≤◌, min, ◌++◌, ◌≡◌, refl, sym, ap, subst, ◌∙◌, ◌⊎◌, inl, inr, Text,
  text_eq, text_eq_iff, text_eq_refl, List, [], ◌∷◌, take, Option, none, some, Bool, true,
  Bool-cases, length, arith, if◌then◌else◌,
}
use openbao_cloud_creds.Storage.{Value, Storage, Laws}
use openbao_cloud_creds.Purge.{
  Answer, gone, throttled, Record, Deleter, Config, scan, State, Round, budget_of, delete_loop,
  begin, pass,
}
use openbao_cloud_creds.Purge.Rounds.{
  Attempted, full, limited, refused, stuck, removed, attempt-Attempted, proceed, after_removal,
  settle-Settled, settle-remaining,
}

module _ {S : Type 0} (content : S → Text → Option Value) (prefix : Text) where
  -- From one storage to another the keys of the records are emptied, and no other key changes.
  pub record Emptied (rs : List Record) (s t : S) : Type 0 where
    pub emptied : (r : Record) → Memᴰ r rs → content t (prefix ++ r.id) ≡ none
    pub others :
        (k : Text) → (content t k ≡ content s k) ⊎ ((r : Record) × Memᴰ r rs × (k ≡ prefix ++ r.id))

  Emptied-none : (s : S) → Emptied [] s s
  Emptied-none s = record { emptied = λ r m. elim m [ ]; others = λ k. inl refl }

  Emptied-cons :
      (r : Record) (rs : List Record) (s t u : S)
      → ((k : Text) → content t k ≡ (if text_eq (prefix ++ r.id) k then none else content s k))
      → Emptied rs t u
      → Emptied (r ∷ rs) s u
  Emptied-cons r rs s t u removes h = record {
    emptied = λ x m. gone_in x m;
    others = λ k. elim (Bool-cases (text_eq (prefix ++ r.id) k)) [
      | inl e ↦ inr (r, Memᴰ.head refl, sym ((text_eq_iff (prefix ++ r.id) k).0 e))
      | inr e ↦ elim (h.others k) [
        | inl q ↦ inl (q ∙ removes k ∙ rw e refl)
        | inr (x, m, q) ↦ inr (x, Memᴰ.tail m, q)
      ]
    ];
  }
    where
      here : content u (prefix ++ r.id) ≡ none
      here = elim (h.others (prefix ++ r.id)) [
        | inl q ↦ q ∙ removes (prefix ++ r.id) ∙ rw (text_eq_refl (prefix ++ r.id)) refl
        | inr (x, m, q) ↦ ap (content u) q ∙ h.emptied x m
      ]

      gone_in : (x : Record) → Memᴰ x (r ∷ rs) → content u (prefix ++ x.id) ≡ none
      gone_in x (Memᴰ.head e) = ap (λ y. content u (prefix ++ y.id)) e ∙ here
      gone_in x (Memᴰ.tail m) = h.emptied x m

module _ {S : Type 0} (st : Storage S) (del : Deleter) where
  -- Each upstream delete is answered as gone, and each record can be deleted.
  pub record Smooth : Type 0 where
    pub gone_always : (calls : List (Record × Answer)) (r : Record) → del calls r ≡ gone
    pub deletes : (s : S) (k : Text) → (t : S) × (st.delete s k ≡ some t)

  -- The loop's end while nothing fails.
  record Drained (content : S → Text → Option Value) (prefix : Text) (budget : ℕ) (rs : List Record)
      (p : State S) (x : State S × Bool) : Type 0 where
    fine : x.1 ≡ true
    deleted : x.0.result.deleted ≡ min budget (p.result.deleted + length rs)
    left_empty : Emptied content prefix (take (budget - p.result.deleted) rs) p.storage x.0.storage
    failed : x.0.result.failed ≡ 0
    tracked : x.0.result.tracked ≡ p.result.tracked

  module _ (content : S → Text → Option Value) (laws : Laws st content) (smooth : Smooth)
      (prefix : Text) (budget : ℕ) where
    take_empty : (n : ℕ) → ◌≡◌ {A = List Record} (take n []) []
    take_empty zero = refl
    take_empty (suc n) = refl

    round-Drained :
        {r : Record} {p : State S} {t : Round S} (rs : List Record)
        → p.result.failed ≡ 0
        → p.result.deleted ≤ budget
        → Attempted st del prefix budget r p t
        → ((q : State S)
            → q.result.failed ≡ 0
            → q.result.deleted ≤ budget
            → Drained content prefix budget rs q (delete_loop st del prefix budget rs q))
        → Drained content prefix budget (r ∷ rs) p (proceed st del prefix budget rs t)
    unfolding proceed
    round-Drained {r} {p} rs f d (full l) ih = record {
      fine = refl;
      deleted = omega arith;
      left_empty =
          let spent : budget - p.result.deleted ≡ 0 = omega arith in
          rw spent (Emptied-none content prefix p.storage);
      failed = f;
      tracked = refl;
    }
    round-Drained {r} {p} rs f d (limited l e) ih =
        absurd (never (sym e ∙ smooth.gone_always p.calls r))
      where
        never : throttled ≡ gone → ⊥
        never q = cc
    round-Drained {r} {p} rs f d (refused l e) ih =
        absurd (never (sym e ∙ smooth.gone_always p.calls r))
      where
        never : Answer.failed ≡ gone → ⊥
        never q = cc
    round-Drained {r} {p} rs f d (stuck l e n) ih =
        let (t, k) = smooth.deletes p.storage (prefix ++ r.id) in absurd (never t (sym n ∙ k))
      where
        never : (t : S) → none ≡ some t → ⊥
        never t q = cc
    round-Drained {r} {p} rs f d (removed l e s k) ih =
        let h = ih (after_removal del r s p) f (omega arith) in
        record {
          fine = h.fine;
          deleted = omega (arith, h.deleted);
          left_empty =
              let more : budget - p.result.deleted ≡ suc (budget - (p.result.deleted + 1)) =
                omega arith in
              rw more (
                Emptied-cons content prefix r (take (budget - (p.result.deleted + 1)) rs) p.storage
                  s _ (λ j. laws.delete_removes p.storage (prefix ++ r.id) j k) h.left_empty);
          failed = h.failed;
          tracked = h.tracked;
        }

    delete_loop-Drained :
        (rs : List Record) (p : State S)
        → p.result.failed ≡ 0
        → p.result.deleted ≤ budget
        → Drained content prefix budget rs p (delete_loop st del prefix budget rs p)
    unfolding delete_loop proceed
    delete_loop-Drained [] p f d = record {
      fine = refl;
      deleted = omega arith;
      left_empty =
          subst (λ l. Emptied content prefix l p.storage p.storage)
            (sym (take_empty (budget - p.result.deleted))) (Emptied-none content prefix p.storage);
      failed = f;
      tracked = refl;
    }
    delete_loop-Drained (r ∷ rs) p f d =
        round-Drained rs f d (attempt-Attempted st del prefix budget r p)
          (λ q. delete_loop-Drained rs q)

-- While the cloud answers every upstream delete as gone and records can be deleted, a pass whose scan succeeds
-- ends without an error. Of the records that the scan found, in its order, it removes as many as its budget
-- allows from the storage and counts the others as remaining: after the pass the keys of the first ones
-- are empty, and every other key of the storage is as it was.
pub pass_drains :
    {S : Type 0} (st : Storage S) (content : S → Text → Option Value) (laws : Laws st content)
    (del : Deleter) (s : S) (cfg : Config) (rs : List Record)
    → Smooth st del
    → scan st s cfg.prefix cfg.role cfg.cutoff ≡ some rs
    → let x = pass st del s cfg in
      (x.1 ≡ true)
      × (x.0.result.deleted ≡ min (budget_of cfg.max_deletes) (length rs))
      × (x.0.result.failed ≡ 0)
      × (x.0.result.remaining ≡ length rs - budget_of cfg.max_deletes)
      × Emptied content cfg.prefix (take (budget_of cfg.max_deletes) rs) s x.0.storage
unfolding pass begin
pass_drains st content laws del s cfg rs smooth found =
    let b = budget_of cfg.max_deletes in
    let x = delete_loop st del cfg.prefix b rs (begin st del s (length rs)) in
    let d =
      delete_loop-Drained st del content laws smooth cfg.prefix b rs (begin st del s (length rs))
        refl (omega arith) in
    let whole : b - 0 ≡ b = omega arith in
    let emptied =
      subst (λ n. Emptied content cfg.prefix (take n rs) s x.0.storage) whole d.left_empty in
    let kept = settle-Settled st del cfg.prefix b x in
    let left = settle-remaining st del cfg.prefix b x (kept.same_end ∙ d.fine) in
    rw (pass, found)
      (
        kept.same_end ∙ d.fine,
        omega (arith, kept.same_deleted, d.deleted),
        kept.same_failed ∙ d.failed,
        omega (arith, left, d.deleted, d.tracked),
        subst (Emptied content cfg.prefix (take b rs) s) (sym kept.same_storage) emptied,
      )
