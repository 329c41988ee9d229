-- ===== src/Expiry/Examples.antt =====
-- A pass over one expired record and one that is not.
use openbao_cloud_creds.Base.{
  ℕ, ◌≤◌, ◌≡◌, refl, Text, text, text_eq, strip_prefix, [], ◌∷◌, some, false, length,
}
use openbao_cloud_creds.Storage.{stamp, Value, object, field}
use openbao_cloud_creds.Storage.Memory.{Entries, memory, look, drop_key, keys_under, memory_laws}
use openbao_cloud_creds.Expiry.{
  Options, Result, value_expired, is_expired, prune_key, prune_keys, prune_expired,
}
use openbao_cloud_creds.Expiry.Pruned.{Outcome, prune_expired_lem}

abbrev expiring : ℕ → Value
expiring t = object ((text "expires_at", stamp t) ∷ [])

abbrev tokens : Entries
tokens = (text "t/a", expiring 5) ∷ (text "t/b", expiring 9) ∷ []

abbrev options : Options
options = record { prefix = text "t/"; now = 7; dry_run = false }

abbrev pruned : Entries × Result
pruned =
    ((text "t/b", expiring 9) ∷ [], record { scanned = 2; expired = text "a" ∷ []; deleted = 1 })

pruned_one : prune_expired memory tokens options ≡ some pruned
unfolding prune_expired prune_keys prune_key is_expired value_expired field text_eq look drop_key
    keys_under strip_prefix
pruned_one = refl

prune_expired_example :
    ((k : Text) → Outcome memory look memory_laws options tokens pruned k)
    × (pruned.1.deleted ≤ length pruned.1.expired)
    × (length pruned.1.expired ≤ pruned.1.scanned)
prune_expired_example = prune_expired_lem memory look memory_laws options tokens pruned pruned_one
