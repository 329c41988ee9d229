-- ===== src/Purge/Examples.antt =====
-- Runs of the purge on a storage in memory.
use openbao_cloud_creds.Base.{
  ◌-◌, min, ℕ, ◌+◌, ◌++◌, ◌≤◌, ◌≡◌, refl, ◌≢◌, inl, Text, text, text_eq, List, [], ◌∷◌, take, none,
  some, true, length, All, sort_strings, strip_prefix, text_le,
}
use openbao_cloud_creds.Storage.{str, stamp, Value, object, field, string_field}
use openbao_cloud_creds.Storage.Memory.{Entries, memory, look, drop_key, keys_under, memory_laws}
use openbao_cloud_creds.Purge.{
  intent_prefix, gone, Record, Deleter, Config, is_complete, Intent, budget_of, keep_record,
  in_scope, make_record, record_created, scan_ids, scan, attempt, delete_loop, begin, pass,
}
use openbao_cloud_creds.Purge.Intents.{
  decode_intent, encode_intent, new_intent, save_intent, load_intent,
}
use openbao_cloud_creds.Purge.Endpoint.{mode_dry_run, mode_normal, Resolver}
use openbao_cloud_creds.Purge.Drain.{Emptied, Smooth, pass_drains}
use openbao_cloud_creds.Purge.Scope.{pass-within, InScope}
use openbao_cloud_creds.Purge.Containment.{
  Touched, pass-calls-InScope, pass-storage-Touched, pass-is_complete,
}
use openbao_cloud_creds.Purge.Progress.{load_intent-save_intent}

abbrev ci : Text
ci = text "ci"

abbrev issued : ℕ → Text → Value
issued created role = object ((text "role", str role) ∷ (text "created", stamp created) ∷ [])

abbrev tracked : Entries
tracked =
    (text "t/a", issued 5 ci) ∷ (text "t/b", issued 9 ci) ∷ (text "t/c", issued 5 (text "web")) ∷ []

abbrev always_gone : Deleter
always_gone = λ calls r. gone

abbrev purge_ci : Config
purge_ci = record { prefix = text "t/"; role = ci; cutoff = 7; max_deletes = 0 }

abbrev intent : Intent
intent = new_intent ci 7 1

pass_fine : (pass memory always_gone tracked purge_ci).1 ≡ true
unfolding pass scan scan_ids keep_record in_scope make_record record_created field string_field
    text_eq look keys_under delete_loop attempt begin budget_of drop_key sort_strings strip_prefix
    text_le
pass_fine = refl

pass_complete : is_complete (pass memory always_gone tracked purge_ci).0.result ≡ true
unfolding pass scan scan_ids keep_record in_scope make_record record_created field string_field
    text_eq look keys_under delete_loop attempt begin budget_of drop_key sort_strings strip_prefix
    text_le is_complete
pass_complete = refl

pass-within_example :
    let p = (pass memory always_gone tracked purge_ci).0 in
    (rs : List Record) × (scan memory tracked purge_ci.prefix purge_ci.role purge_ci.cutoff
      ≡ some rs)
    × (p.result.deleted + p.result.failed ≤ budget_of purge_ci.max_deletes)
    × (length p.calls ≤ budget_of purge_ci.max_deletes)
    × (p.result.remaining + p.result.deleted ≡ length rs)
pass-within_example = pass-within memory always_gone tracked purge_ci pass_fine

pass-calls-InScope_example :
    All (λ c. InScope look tracked purge_ci c.0) (pass memory always_gone tracked purge_ci).0.calls
pass-calls-InScope_example = pass-calls-InScope memory look memory_laws always_gone tracked purge_ci

pass-storage-Touched_example :
    Touched memory look memory_laws always_gone tracked purge_ci
      (pass memory always_gone tracked purge_ci).0
      (text "t/a")
pass-storage-Touched_example =
    pass-storage-Touched memory look memory_laws always_gone tracked purge_ci (text "t/a")

pass-is_complete_example :
    (rs : List Record) × (scan memory tracked purge_ci.prefix purge_ci.role purge_ci.cutoff
      ≡ some rs)
    × All
        (λ r.
          look (pass memory always_gone tracked purge_ci).0.storage (purge_ci.prefix ++ r.id)
          ≡ none)
        rs
pass-is_complete_example =
    pass-is_complete memory look memory_laws always_gone tracked purge_ci pass_fine pass_complete

saved_fine :
    save_intent memory tracked intent ≡ some ((text "purge/ci", encode_intent intent) ∷ tracked)
unfolding save_intent drop_key text_eq new_intent
saved_fine = refl

abbrev with_intent : Entries
with_intent = (text "purge/ci", encode_intent intent) ∷ tracked

loaded : load_intent memory with_intent intent.role ≡ some (some intent)
unfolding load_intent look text_eq decode_intent encode_intent field new_intent
loaded = refl

other_key : text "t/a" ≢ intent_prefix ++ intent.role
unfolding new_intent
other_key e = cc

load_intent-save_intent_example :
    (some intent ≡ some intent) × (look with_intent (text "t/a") ≡ look tracked (text "t/a"))
load_intent-save_intent_example =
    load_intent-save_intent memory look memory_laws tracked with_intent intent (some intent)
      (text "t/a") saved_fine loaded other_key

abbrev resolve_all : Resolver Entries
resolve_all s role = inl (record { prefix = text "t/"; delete = always_gone })

dry_run_differs : mode_dry_run ≢ mode_normal
dry_run_differs e = cc

smooth : Smooth memory always_gone
smooth = record { gone_always = λ calls r. refl; deletes = λ s k. (drop_key s k, refl) }

abbrev record_a : Record
record_a = record {
  id = text "a";
  role = ci;
  minter = [];
  created = 5;
  fields = (text "role", str ci) ∷ (text "created", stamp 5) ∷ [];
}

scanned : scan memory tracked purge_ci.prefix purge_ci.role purge_ci.cutoff ≡ some (record_a ∷ [])
unfolding scan scan_ids keep_record in_scope make_record record_created field string_field text_eq
    look keys_under sort_strings strip_prefix text_le
scanned = refl

pass_drains_example :
    let x = pass memory always_gone tracked purge_ci in
    (x.1 ≡ true)
    × (x.0.result.deleted ≡ min (budget_of purge_ci.max_deletes) (length (record_a ∷ [])))
    × (x.0.result.failed ≡ 0)
    × (x.0.result.remaining ≡ length (record_a ∷ []) - budget_of purge_ci.max_deletes)
    × Emptied look
        (text "t/")
        (take (budget_of purge_ci.max_deletes) (record_a ∷ []))
        tracked
        x.0.storage
pass_drains_example =
    pass_drains memory look memory_laws always_gone tracked purge_ci (record_a ∷ []) smooth scanned
