-- ===== src/Expiry/Pruned.antt =====
-- Which records a pass removes.
use mathlib.Core.List.{Memᴰ}
use openbao_cloud_creds.Base.{
  mem_more, mem_last, ℕ, ◌+◌, ◌≤◌, ◌<◌, ltb, text, ◌++◌, ◌≡◌, refl, sym, ◌∙◌, inl, inr, Text,
  text_eq, text_eq_iff, List, [], ◌∷◌, Option, none, some, Option-cases, true, false, Bool-cases,
  length, length-append, arith,
}
use openbao_cloud_creds.Storage.{
  str, stamp, num, flag, Fields, Value, object, bytes, Storage, Laws, field,
}
use openbao_cloud_creds.Expiry.{
  Options, Result, value_expired, is_expired, prune_key, prune_keys, prune_expired,
}

-- The record has a time of expiry, and it is past.
abbrev pub HasExpired : ℕ → Option Value → Type 0
HasExpired now v =
    (fs : Fields) × (t : ℕ) × (v ≡ some (object fs))
    × (field (text "expires_at") fs ≡ some (stamp t))
    × (t < now)

value_expired-HasExpired :
    (now : ℕ) (v : Option Value) → value_expired now v ≡ true → HasExpired now v
unfolding value_expired
value_expired-HasExpired now none h = absurd (ground arith)
value_expired-HasExpired now (some (bytes b)) h = absurd (ground arith)
value_expired-HasExpired now (some (object fs)) h =
    elim (Option-cases (field (text "expires_at") fs)) [
      | inl e ↦ absurd (never (rw (value_expired, e) at h))
      | inr (stamp t, e) ↦
          let late : ltb t now ≡ true = rw (value_expired, e) at h in (fs, t, refl, e, ground arith)
      | inr (str s, e) ↦ absurd (never (rw (value_expired, e) at h))
      | inr (num n, e) ↦ absurd (never (rw (value_expired, e) at h))
      | inr (flag b, e) ↦ absurd (never (rw (value_expired, e) at h))
    ]
  where
    never : false ≡ true → ⊥
    never q = cc

module _ {S : Type 0} (st : Storage S) (content : S → Text → Option Value) (laws : Laws st content)
    (o : Options) where
  -- A key is as it was, or the pass was no dry run and removed it, with its record's time of expiry in the
  -- past and its name in the report.
  pub data Outcome (s₀ : S) (p : S × Result) (k : Text) : Type 0 where
    same : content p.0 k ≡ content s₀ k → Outcome s₀ p k
    removed :
        content p.0 k ≡ none
        → o.dry_run ≡ false
        → HasExpired o.now (content s₀ k)
        → (key : Text) → Memᴰ key p.1.expired
        → k ≡ o.prefix ++ key
        → Outcome s₀ p k

  data Step (p : S × Result) (key : Text) : S × Result → Type 0 where
    skipped : Step p key p
    reported : Step p key (p.0, record p.1 { expired = p.1.expired ++ key ∷ [] })
    deleted :
        (t : S)
        → o.dry_run ≡ false
        → HasExpired o.now (content p.0 (o.prefix ++ key))
        → st.delete p.0 (o.prefix ++ key) ≡ some t
        → Step p key
            (t, record p.1 { expired = p.1.expired ++ key ∷ []; deleted = p.1.deleted + 1 })

  is_expired-content :
      (s : S) (k : Text) → is_expired st s k o.now ≡ true → HasExpired o.now (content s k)
  unfolding is_expired
  is_expired-content s k h = elim (Option-cases (st.get s k)) [
    | inl e ↦ absurd (ground arith)
    | inr (v, e) ↦ rw (← laws.get_reads s k e) (value_expired-HasExpired o.now v (ground arith))
  ]

  prune_key-Step : (p : S × Result) (key : Text) → Step p key (prune_key st o key p)
  unfolding prune_key
  prune_key-Step (s, res) key = elim (Bool-cases (is_expired st s (o.prefix ++ key) o.now)) [
    | inr e ↦ rw (prune_key, e) skipped
    | inl e ↦ elim (Bool-cases o.dry_run) [
      | inl d ↦ rw (prune_key, e, d) reported
      | inr d ↦ elim (Option-cases (st.delete s (o.prefix ++ key))) [
        | inl f ↦ rw (prune_key, e, d, f) reported
        | inr (t, f) ↦
            let q : prune_key st o key (s, res)
                ≡ (t, record res { expired = res.expired ++ key ∷ []; deleted = res.deleted + 1 }) =
              simp (prune_key, e, d, f) in
            rw q (deleted t d (is_expired-content s (o.prefix ++ key) e) f)
      ]
    ]
  ]

  -- What a deletion of one key does to the outcome of another.
  elsewhere :
      (s₀ : S) (p q : S × Result) (k : Text)
      → content q.0 k ≡ content p.0 k
      → ((key : Text) → Memᴰ key p.1.expired → Memᴰ key q.1.expired)
      → Outcome s₀ p k
      → Outcome s₀ q k
  elsewhere s₀ p q k e more (same f) = same (e ∙ f)
  elsewhere s₀ p q k e more (removed n d v key m f) = removed (e ∙ n) d v key (more key m) f

  -- What the deletion of an expired key does to its own outcome.
  here :
      (s₀ : S) (p q : S × Result) (key k : Text)
      → content q.0 k ≡ none
      → o.dry_run ≡ false
      → HasExpired o.now (content p.0 k)
      → Memᴰ key q.1.expired
      → k ≡ o.prefix ++ key
      → Outcome s₀ p k
      → Outcome s₀ q k
  here s₀ p q key k n d v m e (same f) = removed n d (rw (← f) v) key m e
  here s₀ p q key k n d v m e (removed n' d' v' key' m' e') = removed n d v' key m e

  Step-Outcome :
      (s₀ : S) (p : S × Result) (key : Text) {q : S × Result}
      → Step p key q
      → ((k : Text) → Outcome s₀ p k)
      → (k : Text) → Outcome s₀ q k
  Step-Outcome s₀ p key skipped h k = h k
  Step-Outcome s₀ p key reported h k =
      elsewhere s₀ p (p.0, record p.1 { expired = p.1.expired ++ key ∷ [] }) k refl
        (λ j m. mem_more p.1.expired (key ∷ []) m) (h k)
  Step-Outcome s₀ p key (deleted t d v f) h k =
      let res = record p.1 { expired = p.1.expired ++ key ∷ []; deleted = p.1.deleted + 1 } in
      elim (Bool-cases (text_eq (o.prefix ++ key) k)) [
        | inl e ↦
            let q : (o.prefix ++ key) ≡ k = (text_eq_iff (o.prefix ++ key) k).0 e in
            here s₀ p (t, res) key k (laws.delete_removes p.0 (o.prefix ++ key) k f ∙ rw e) d
              (rw (← q) v) (mem_last p.1.expired key) (sym q) (h k)
        | inr e ↦
            elsewhere s₀ p (t, res) k (laws.delete_removes p.0 (o.prefix ++ key) k f ∙ rw e)
              (λ j m. mem_more p.1.expired (key ∷ []) m) (h k)
      ]

  prune_keys-Outcome :
      (s₀ : S) (keys : List Text) (p : S × Result)
      → ((k : Text) → Outcome s₀ p k)
      → (k : Text) → Outcome s₀ (prune_keys st o keys p) k
  unfolding prune_keys
  prune_keys-Outcome s₀ [] p h k = h k
  prune_keys-Outcome s₀ (key ∷ keys) p h k =
      prune_keys-Outcome s₀ keys (prune_key st o key p)
        (Step-Outcome s₀ p key (prune_key-Step p key) h) k

  -- The report of a pass over some keys.
  record Reported (n : ℕ) (p q : S × Result) : Type 0 where
    deleted_le : q.1.deleted + length p.1.expired ≤ p.1.deleted + length q.1.expired
    expired_le : length q.1.expired ≤ length p.1.expired + n
    same_scanned : q.1.scanned ≡ p.1.scanned

  Step-Reported : (p : S × Result) (key : Text) {q : S × Result} → Step p key q → Reported 1 p q
  Step-Reported p key skipped = omega arith
  Step-Reported p key reported = omega (arith, length-append p.1.expired (key ∷ []))
  Step-Reported p key (deleted t d v f) = omega (arith, length-append p.1.expired (key ∷ []))

  prune_keys-Reported :
      (keys : List Text) (p : S × Result) → Reported (length keys) p (prune_keys st o keys p)
  unfolding prune_keys
  prune_keys-Reported [] p = omega arith
  prune_keys-Reported (key ∷ keys) p = omega (
    arith,
    Step-Reported p key (prune_key-Step p key),
    prune_keys-Reported keys (prune_key st o key p),
  )

  -- Of each key of the storage, a pass leaves the content as it was, or it was no dry run and removed a record
  -- whose time of expiry had passed and whose key it reports. It reports no more deletions than
  -- expired records, and no more of these than it scanned.
  pub prune_expired_lem :
      (s : S) (p : S × Result)
      → prune_expired st s o ≡ some p
      → ((k : Text) → Outcome s p k)
        × (p.1.deleted ≤ length p.1.expired)
        × (length p.1.expired ≤ p.1.scanned)
  unfolding prune_expired
  prune_expired_lem s p h = elim (Option-cases (st.list s o.prefix)) [
    | inl e ↦ absurd (never (rw (prune_expired, e) at h))
    | inr (keys, e) ↦
        let start : S × Result = (s, record { scanned = length keys; expired = []; deleted = 0 }) in
        let q : prune_keys st o keys start ≡ p = unwrap (rw (prune_expired, e) at h) in
        let r = prune_keys-Reported keys start in
        rw (← q)
          (prune_keys-Outcome s keys start (λ k. same refl), omega (arith, r), omega (arith, r))
  ]
    where
      never : none ≡ some p → ⊥
      never q = cc

      unwrap : {a b : S × Result} → some a ≡ some b → a ≡ b
      unwrap q = cc
