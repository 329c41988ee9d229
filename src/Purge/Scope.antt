-- ===== src/Purge/Scope.antt =====
-- What one pass of a purge deletes, and what it leaves.
use openbao_cloud_creds.Base.{
  ℕ, ◌+◌, ◌≤◌, ◌++◌, ◌≡◌, refl, sym, ◌⊎◌, inl, inr, Text, text, text_eq, text_eq_iff, sort_strings,
  List, [], ◌∷◌, Option, none, some, Option-cases, true, Bool-cases, length, All, arith,
}
use openbao_cloud_creds.Storage.{Fields, Value, object, bytes, Storage, Laws, string_field}
use openbao_cloud_creds.Purge.{
  Record, Deleter, Config, record_created, in_scope, make_record, keep_record, add_record, scan_ids,
  scan, budget_of, delete_loop, begin, pass,
}
use openbao_cloud_creds.Purge.Rounds.{delete_loop-Ends, settle-Settled, settle-remaining, pass-scan}

-- A pass that ends without an error deletes and fails no more often than its budget allows, asks the
-- cloud no more often than that, and reports as remaining exactly the records in scope that it did
-- not delete.
pub pass-within :
    {S : Type 0} (st : Storage S) (del : Deleter) (s : S) (cfg : Config)
    → (pass st del s cfg).1 ≡ true
    → let p = (pass st del s cfg).0 in
      (rs : List Record) × (scan st s cfg.prefix cfg.role cfg.cutoff ≡ some rs)
      × (p.result.deleted + p.result.failed ≤ budget_of cfg.max_deletes)
      × (length p.calls ≤ budget_of cfg.max_deletes)
      × (p.result.remaining + p.result.deleted ≡ length rs)
unfolding begin
pass-within st del s cfg fine =
    let (rs, found, e) = pass-scan st del s cfg fine in
    let b = budget_of cfg.max_deletes in
    let x = delete_loop st del cfg.prefix b rs (begin st del s (length rs)) in
    let ends = delete_loop-Ends st del cfg.prefix b rs (begin st del s (length rs)) (omega arith) in
    let kept = settle-Settled st del cfg.prefix b x in
    let left = settle-remaining st del cfg.prefix b x (rw e at fine) in
    (
      rs,
      found,
      rw e (omega (arith, ends, kept)),
      rw (e, kept.same_calls) ends.called,
      rw e (omega (arith, ends, kept, left)),
    )

-- A record that a purge of `role` may delete: it is stored as read, it names the role, and it was created
-- no later than the cutoff, as far as its record says.
pub record InScope {S : Type 0} (content : S → Text → Option Value) (s : S) (cfg : Config)
    (r : Record) : Type 0 where
  pub names_role : string_field (text "role") r.fields ≡ cfg.role
  pub same_role : r.role ≡ cfg.role
  pub in_time : (record_created r.fields ≡ 0) ⊎ (record_created r.fields ≤ cfg.cutoff)
  pub stored : content s (cfg.prefix ++ r.id) ≡ some (object r.fields)

in_scope_sound :
    (role : Text) (cutoff : ℕ) (fs : Fields)
    → in_scope role cutoff fs ≡ true
    → (text_eq (string_field (text "role") fs) role ≡ true)
      × ((record_created fs ≡ 0) ⊎ (record_created fs ≤ cutoff))
unfolding in_scope
in_scope_sound role cutoff fs h = ground arith

keep_record-InScope :
    {S : Type 0} (content : S → Text → Option Value) (s : S) (cfg : Config) (id : Text)
    (v : Option Value)
    → content s (cfg.prefix ++ id) ≡ v
    → (rs : List Record) → All (InScope content s cfg) rs
    → All (InScope content s cfg) (add_record (keep_record id cfg.role cfg.cutoff v) rs)
unfolding keep_record make_record
keep_record-InScope content s cfg id none e rs h = h
keep_record-InScope content s cfg id (some (bytes b)) e rs h = h
keep_record-InScope content s cfg id (some (object fs)) e rs h =
    elim (Bool-cases (in_scope cfg.role cfg.cutoff fs)) [
      | inl t ↦
          let (named, timely) = in_scope_sound cfg.role cfg.cutoff fs t in
          rw t (
            record {
              names_role = (text_eq_iff _ _).0 named;
              same_role = refl;
              in_time = timely;
              stored = e;
            },
            h,
          )
      | inr t ↦ rw t h
    ]

module _ {S : Type 0} (st : Storage S) (content : S → Text → Option Value)
    (laws : Laws st content) where
  scan_ids-InScope :
      (s : S) (cfg : Config) (ids : List Text) {rs : List Record}
      → scan_ids st s cfg.prefix cfg.role cfg.cutoff ids ≡ some rs
      → All (InScope content s cfg) rs
  unfolding scan_ids
  scan_ids-InScope s cfg [] {rs} h = rw (← unwrap h) tt
    where
      unwrap : {a b : List Record} → some a ≡ some b → a ≡ b
      unwrap q = cc
  scan_ids-InScope s cfg (id ∷ ids) {rs} h = elim (Option-cases (st.get s (cfg.prefix ++ id))) [
    | inl e ↦ absurd (ground arith)
    | inr (v, e) ↦ elim (Option-cases (scan_ids st s cfg.prefix cfg.role cfg.cutoff ids)) [
      | inl f ↦ absurd (ground arith)
      | inr (ts, f) ↦
          let q : rs ≡ add_record (keep_record id cfg.role cfg.cutoff v) ts = ground arith in
          rw q (
            keep_record-InScope content s cfg id v (sym (laws.get_reads s _ e)) ts
              (scan_ids-InScope s cfg ids f))
    ]
  ]

  pub scan-InScope :
      (s : S) (cfg : Config) {rs : List Record}
      → scan st s cfg.prefix cfg.role cfg.cutoff ≡ some rs
      → All (InScope content s cfg) rs
  unfolding scan
  scan-InScope s cfg {rs} h = elim (Option-cases (st.list s cfg.prefix)) [
    | inl e ↦ absurd (ground arith)
    | inr (ids, e) ↦ scan_ids-InScope s cfg (sort_strings ids) (rw (e, scan) at h)
  ]
