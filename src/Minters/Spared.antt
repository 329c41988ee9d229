-- ===== src/Minters/Spared.antt =====
-- A pass over a mount whose retired minter has an upstream key that the listing selects.
use mathlib.Core.List.{Memᴰ}
use openbao_cloud_creds.Base.{
  sort_by, text_le, ◌≡◌, ◌≢◌, refl, Text, text, text_eq, strip_prefix, List, [], ◌∷◌, Option, none,
  some, true, false, All,
}
use openbao_cloud_creds.Storage.{Value, object, bytes}
use openbao_cloud_creds.Storage.Memory.{Entries, memory, look, keys_under}
use openbao_cloud_creds.Reconciler.{
  UpstreamEntity, Config, Pass, Deleter, classify, is_owned, is_confirmed, claim, visit, scan, run,
}
use openbao_cloud_creds.Minters.{Minter, bad_interval, param}
use openbao_cloud_creds.Minters.Owned.{
  minter_set_prefix, add_id, add_ids, add_minters, read_sets, minter_upstream_ids, merge_owned,
  by_name, first_bad_interval, validate_intervals,
}
use openbao_cloud_creds.Minters.Registry.{IsCounted, run-spares_minters}

abbrev retired : Minter
retired = record {
  id = text "old";
  token = text "secret";
  expires_at = 0;
  never_expires = true;
  created_at = 1;
  retired = true;
  retired_at = 9;
  rotation_params = (text "key_id", text "k1") ∷ [];
}

abbrev decode : Value → Option (List Minter)
decode (object fs) = some (retired ∷ [])
decode (bytes b) = none

abbrev stored : Entries
stored = (text "minter-sets/main", object []) ∷ []

abbrev listing : List UpstreamEntity
listing =
    record { id = text "k1"; name = text "cloud-creds-a-s"; created_at = 1; expires_at = 0 }
    ∷ record { id = text "k2"; name = text "cloud-creds-a-x"; created_at = 1; expires_at = 0 }
    ∷ []

abbrev cfg : Config
cfg = record { max_deletes_per_pass = 5; confirmation_hold = 0; dry_run = false }

abbrev obeying : Deleter
obeying calls e = true

recorded : minter_upstream_ids memory decode stored (text "key_id" ∷ []) ≡ some (text "k1" ∷ [])
unfolding minter_upstream_ids keys_under strip_prefix read_sets look text_eq add_minters add_ids
    param add_id
recorded = refl

one_pass :
    (p : Pass) × (run obeying cfg 99
        (some listing)
        (some (merge_owned (text "t" ∷ []) (text "k1" ∷ [])))
      ≡ some p)
unfolding run scan visit claim classify is_owned is_confirmed text_eq merge_owned
one_pass = (_, refl)

run-spares_minters_example :
    (names : List Text) × (memory.list stored minter_set_prefix ≡ some names)
    × ((name : Text)
        → Memᴰ name names
        → IsCounted memory decode stored
            (text "key_id" ∷ [])
            (λ id. All (λ e. e.id ≢ id) one_pass.0.calls)
            name)
run-spares_minters_example =
    run-spares_minters memory decode stored (text "key_id") [] (text "k1" ∷ []) (text "t" ∷ [])
      obeying cfg 99 (some listing) one_pass.0 recorded one_pass.1

-- Of two bad intervals, the one whose name comes first is reported.
first_of_two :
    validate_intervals ((text "b", 0) ∷ (text "c", 7) ∷ (text "a", 0) ∷ [])
    ≡ some (bad_interval (text "a"))
unfolding validate_intervals first_bad_interval sort_by by_name text_le
first_of_two = refl
