-- ===== src/Purge/Progress.antt =====
-- The durable intent of a purge: how it is stored and read back, armed, and advanced.
use openbao_cloud_creds.Base.{
  ℕ, ◌+◌, ◌++◌, ◌≡◌, refl, ap, ◌≢◌, ◌⊎◌, inl, inr, Text, text_eq, text_eq_refl, text_eq_iff, Option,
  none, some, Option-cases, Bool, true, false, Bool-cases, List, [], ◌==◌, length, arith, ◌∙◌, sym,
}
use openbao_cloud_creds.Storage.{Value, Storage, Laws, field}
use openbao_cloud_creds.Purge.{
  intent_prefix, Deleter, is_complete, Intent, Config, Record, scan, State, pass,
}
use openbao_cloud_creds.Purge.Intents.{
  encode_intent, decode_intent, new_intent, save_intent, load_intent, arm, count_pass, Advanced,
  after_pass, advance,
}

decode-encode : (i : Intent) → decode_intent (encode_intent i) ≡ some i
unfolding decode_intent encode_intent field text_eq
decode-encode i = refl

abbrev intent_key : Text → Text
intent_key role = intent_prefix ++ role

load-failed :
    {S : Type 0} (st : Storage S) (t : S) (role : Text)
    → st.get t (intent_key role) ≡ none
    → load_intent st t role ≡ none
unfolding load_intent
load-failed st t role g = rw (load_intent, g) refl

load-stored :
    {S : Type 0} (st : Storage S) (t : S) (i : Intent)
    → st.get t (intent_key i.role) ≡ some (some (encode_intent i))
    → load_intent st t i.role ≡ some (some i)
unfolding load_intent
load-stored st t i g = rw (load_intent, g, decode-encode i) refl

-- An intent that was saved is the one that a read after it gives, where the read succeeds, and every other key
-- of the storage is as it was.
pub load_intent-save_intent :
    {S : Type 0} (st : Storage S) (content : S → Text → Option Value) (laws : Laws st content)
    (s t : S) (i : Intent) (m : Option Intent) (k : Text)
    → save_intent st s i ≡ some t
    → load_intent st t i.role ≡ some m
    → k ≢ intent_prefix ++ i.role
    → (m ≡ some i) × (content t k ≡ content s k)
unfolding save_intent
load_intent-save_intent st content laws s t i m k h e d = (
  elim (Option-cases (st.get t (intent_key i.role))) [
    | inl n ↦ absurd (no (sym e ∙ load-failed st t i.role n))
    | inr (v, g) ↦ same (
        sym e
        ∙ load-stored st t i (
            g
            ∙ ap some (
                laws.get_reads t (intent_key i.role) g
                ∙ laws.put_writes s (intent_key i.role) (encode_intent i) (intent_key i.role) h
                ∙ rw (text_eq_refl (intent_key i.role)))))
  ],
  elim (Bool-cases (text_eq (intent_key i.role) k)) [
    | inl e ↦ absurd (d (sym ((text_eq_iff (intent_key i.role) k).0 e)))
    | inr e ↦ laws.put_writes s (intent_key i.role) (encode_intent i) k h ∙ rw e
  ],
)
  where
    no : {m : Option Intent} → some m ≡ none → ⊥
    no q = cc

    same : {a b : Option Intent} → some a ≡ some b → a ≡ b
    same q = cc

-- Arming a purge that succeeds makes no upstream call: it fixes the cutoff at the present, counts what the scan
-- finds, is complete at once only where that is nothing, and stores exactly the intent that it returns.
-- Arming that fails leaves the storage as it was.
pub arm_lem :
    {S : Type 0} (st : Storage S) (s : S) (prefix role : Text) (now : ℕ)
    → ((arm st s prefix role now).1 ≡ none × (arm st s prefix role now).0 ≡ s)
      ⊎ ((i : Intent) × (rs : List Record) × ((arm st s prefix role now).1 ≡ some i)
          × (scan st s prefix role i.cutoff ≡ some rs)
          × (save_intent st s i ≡ some (arm st s prefix role now).0)
          × (i.role ≡ role)
          × (i.cutoff ≡ now)
          × (i.tracked ≡ length rs)
          × (i.complete ≡ (length rs == 0)))
unfolding arm new_intent save_intent
arm_lem st s prefix role now = elim (Option-cases (scan st s prefix role now)) [
  | inl e ↦ inl (rw (e, arm) refl, rw (e, arm) refl)
  | inr (rs, e) ↦ elim (Option-cases (save_intent st s (new_intent role now (length rs)))) [
    | inl f ↦ inl (rw (e, f, arm) refl, rw (e, f, arm) refl)
    | inr (t, f) ↦ inr (
      new_intent role now (length rs),
      rs,
      rw (e, f, arm) refl,
      e,
      rw (e, f, arm),
      refl,
      refl,
      refl,
      refl,
    )
  ]
]

-- What is done after a pass, apart from an intent that is complete.
pub record Continued {S : Type 0} (st : Storage S) (i : Intent) (x : State S × Bool)
    (a : Advanced S) : Type 0 where
  pub same_calls : a.calls ≡ x.0.calls
  pub failed_pass : x.1 ≡ false → (a.storage ≡ x.0.storage) × (a.intent ≡ i) × (a.outcome ≡ none)
  pub counted :
      x.1 ≡ true
      → (a.intent.deleted ≡ i.deleted + x.0.result.deleted)
        × (a.intent.complete ≡ is_complete x.0.result)
  pub saved :
      x.1 ≡ true
      → ((a.outcome ≡ none) × (a.storage ≡ x.0.storage))
        ⊎ ((a.outcome ≡ some x.0.result) × (save_intent st x.0.storage a.intent ≡ some a.storage))

-- What stays of an intent.
pub record SamePurge (i j : Intent) : Type 0 where
  pub same_role : j.role ≡ i.role
  pub same_cutoff : j.cutoff ≡ i.cutoff
  pub same_armed_at : j.armed_at ≡ i.armed_at
  pub same_tracked : j.tracked ≡ i.tracked

after_pass-Continued :
    {S : Type 0} (st : Storage S) (del : Deleter) (i : Intent) (x : State S × Bool)
    → SamePurge i (after_pass st del i x).intent × Continued st i x (after_pass st del i x)
unfolding after_pass count_pass
after_pass-Continued st del i (p, false) = (
  record { same_role = refl; same_cutoff = refl; same_armed_at = refl; same_tracked = refl },
  record {
    same_calls = refl;
    failed_pass = λ h. (refl, refl, refl);
    counted = λ h. absurd (ground arith);
    saved = λ h. absurd (ground arith);
  },
)
after_pass-Continued st del i (p, true) =
    elim (Option-cases (save_intent st p.storage (count_pass i p.result))) [
      | inl e ↦
          rw (e, after_pass)
            (
              record {
                same_role = refl;
                same_cutoff = refl;
                same_armed_at = refl;
                same_tracked = refl;
              },
              record {
                same_calls = refl;
                failed_pass = λ h. absurd (ground arith);
                counted = λ h. (refl, refl);
                saved = λ h. inl (refl, refl);
              },
            )
      | inr (t, e) ↦
          rw (e, after_pass)
            (
              record {
                same_role = refl;
                same_cutoff = refl;
                same_armed_at = refl;
                same_tracked = refl;
              },
              record {
                same_calls = refl;
                failed_pass = λ h. absurd (ground arith);
                counted = λ h. (refl, refl);
                saved = λ h. inr (refl, e);
              },
            )
    ]

-- Advancing keeps the role, the cutoff, the time of arming and the count at arming. A complete intent is left
-- alone, with no upstream call and no write. Otherwise the pass runs with the intent's own role and
-- cutoff, its calls are the only ones, and the intent counts what a pass without an error deleted, and
-- becomes complete exactly when that pass left nothing.
pub advance_lem :
    {S : Type 0} (st : Storage S) (del : Deleter) (s : S) (i : Intent) (prefix : Text)
    (max_deletes : ℕ)
    → let a = advance st del s i prefix max_deletes in
      let cfg : Config = record {
        prefix = prefix;
        role = i.role;
        cutoff = i.cutoff;
        max_deletes = max_deletes;
      } in
      SamePurge i a.intent
      × (i.complete ≡ true → (a.storage ≡ s) × (a.calls ≡ []) × (a.intent ≡ i))
      × (i.complete ≡ false → Continued st i (pass st del s cfg) a)
unfolding advance
advance_lem st del s i prefix max_deletes = elim (Bool-cases i.complete) [
  | inl e ↦
      rw (e, advance)
        (
          record {
            same_role = refl;
            same_cutoff = refl;
            same_armed_at = refl;
            same_tracked = refl;
          },
          λ h. (refl, refl, refl),
          λ h. absurd (ground arith),
        )
  | inr e ↦
      let cfg : Config = record {
        prefix = prefix;
        role = i.role;
        cutoff = i.cutoff;
        max_deletes = max_deletes;
      } in
      let k = after_pass-Continued st del i (pass st del s cfg) in
      let q : advance st del s i prefix max_deletes ≡ after_pass st del i (pass st del s cfg) =
        simp (e, advance) in
      rw q (k.0, λ h. absurd (ground arith), λ h. k.1)
]
