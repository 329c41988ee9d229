-- ===== src/Purge/Intents.antt =====
-- pkg/upstreampurge/intent.go, and the storing and reporting of intents in upstreampurge.go.
use openbao_cloud_creds.Base.{
  ℕ, ◌+◌, ◌++◌, Text, text, List, [], ◌∷◌, Option, none, some, Bool, true, false, not, ◌==◌, length,
  if◌then◌else◌,
}
use openbao_cloud_creds.Storage.{
  ◌>>=◌, as_text, as_time, as_num, as_flag, str, stamp, num, flag, Value, object, bytes, Storage,
  field,
}
use openbao_cloud_creds.Purge.{
  intent_prefix, Answer, Record, Deleter, Result, is_complete, Intent, scan, State, pass,
}

unfoldable pub encode_intent : Intent → Value
encode_intent i = object (
    (text "role", str i.role)
    ∷ (text "armed_at", stamp i.armed_at)
    ∷ (text "cutoff", stamp i.cutoff)
    ∷ (text "tracked", num i.tracked)
    ∷ (text "deleted", num i.deleted)
    ∷ (text "failed", num i.failed)
    ∷ (text "complete", flag i.complete)
    ∷ [])

unfoldable pub decode_intent : Value → Option Intent
unfolding field
decode_intent (bytes b) = none
decode_intent (object fs) = do
  role ← as_text (field (text "role") fs)
  armed_at ← as_time (field (text "armed_at") fs)
  cutoff ← as_time (field (text "cutoff") fs)
  tracked ← as_num (field (text "tracked") fs)
  deleted ← as_num (field (text "deleted") fs)
  failed ← as_num (field (text "failed") fs)
  complete ← as_flag (field (text "complete") fs)
  some (record {
    role = role;
    armed_at = armed_at;
    cutoff = cutoff;
    tracked = tracked;
    deleted = deleted;
    failed = failed;
    complete = complete;
  })

-- The keys of a progress report; `cutoff` is `none` where the source says "".
pub record Report : Type 0 where
  pub role : Text
  pub armed : Bool
  pub cutoff : Option ℕ
  pub tracked : ℕ
  pub deleted : ℕ
  pub remaining : ℕ
  pub failed : ℕ
  pub complete : Bool

unfoldable pub report : Intent → ℕ → Report
report i remaining = record {
  role = i.role;
  armed = not i.complete;
  cutoff = some i.cutoff;
  tracked = i.tracked;
  deleted = i.deleted;
  remaining = remaining;
  failed = i.failed;
  complete = i.complete;
}

unfoldable pub no_intent_report : Text → Report
no_intent_report role = record {
  role = role;
  armed = false;
  cutoff = none;
  tracked = 0;
  deleted = 0;
  remaining = 0;
  failed = 0;
  complete = false;
}

unfoldable pub dry_run_report : Text → ℕ → ℕ → Report
dry_run_report role cutoff tracked = record {
  role = role;
  armed = false;
  cutoff = some cutoff;
  tracked = tracked;
  deleted = 0;
  remaining = tracked;
  failed = 0;
  complete = false;
}

unfoldable pub new_intent : Text → ℕ → ℕ → Intent
new_intent role now tracked = record {
  role = role;
  armed_at = now;
  cutoff = now;
  tracked = tracked;
  deleted = 0;
  failed = 0;
  complete = tracked == 0;
}

module _ {S : Type 0} (st : Storage S) where
  unfoldable pub save_intent : S → Intent → Option S
  save_intent s i = st.put s (intent_prefix ++ i.role) (encode_intent i)

  -- `some none` is a role that has never been purged.
  unfoldable pub load_intent : S → Text → Option (Option Intent)
  load_intent s role = elim (st.get s (intent_prefix ++ role)) [
    | none ↦ none
    | some none ↦ some none
    | some (some v) ↦ elim (decode_intent v) [ none ↦ none | some i ↦ some (some i) ]
  ]

  unfoldable pub arm : S → Text → Text → ℕ → S × Option Intent
  unfolding save_intent new_intent
  arm s prefix role now = elim (scan st s prefix role now) [
    | none ↦ (s, none)
    | some rs ↦
        let i = new_intent role now (length rs) in
        elim (save_intent s i) [ none ↦ (s, none) | some t ↦ (t, some i) ]
  ]

  unfoldable pub progress : S → Text → Text → Option Report
  unfolding load_intent
  progress s prefix role = elim (load_intent s role) [
    | none ↦ none
    | some none ↦ some (no_intent_report role)
    | some (some i) ↦ elim (scan st s prefix role i.cutoff) [
      | none ↦ none
      | some rs ↦ some (report i (length rs))
    ]
  ]

-- What `Advance` leaves: the storage, the calls made, the intent in memory, and its result.
pub record Advanced (S : Type 0) : Type 0 where
  pub storage : S
  pub calls : List (Record × Answer)
  pub intent : Intent
  pub outcome : Option Result

abbrev empty_result : Result
empty_result = record { tracked = 0; deleted = 0; failed = 0; remaining = 0; throttled = false }

unfoldable pub count_pass : Intent → Result → Intent
count_pass i r = record i {
  deleted = i.deleted + r.deleted;
  failed = r.failed;
  complete = is_complete r;
}

module _ {S : Type 0} (st : Storage S) (del : Deleter) where
  unfoldable pub after_pass : Intent → State S × Bool → Advanced S
  unfolding save_intent count_pass
  after_pass i (p, false) = record {
    storage = p.storage;
    calls = p.calls;
    intent = i;
    outcome = none;
  }
  after_pass i (p, true) =
      let next = count_pass i p.result in
      elim (save_intent st p.storage next) [
        | none ↦ record { storage = p.storage; calls = p.calls; intent = next; outcome = none }
        | some t ↦ record { storage = t; calls = p.calls; intent = next; outcome = some p.result }
      ]

  unfoldable pub advance : S → Intent → Text → ℕ → Advanced S
  unfolding after_pass
  advance s i prefix max_deletes =
      if i.complete
      then record { storage = s; calls = []; intent = i; outcome = some empty_result }
      else after_pass i (
          pass st del s (record {
            prefix = prefix;
            role = i.role;
            cutoff = i.cutoff;
            max_deletes = max_deletes;
          }))
