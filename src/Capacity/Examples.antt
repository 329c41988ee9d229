-- ===== src/Capacity/Examples.antt =====
-- Three credentials of two minters, under a cap of two.
use openbao_cloud_creds.Base.{◌≡◌, refl, Text, text, text_eq, strip_prefix, [], ◌∷◌, some}
use openbao_cloud_creds.Storage.{str, Value, object, field, string_field}
use openbao_cloud_creds.Storage.Memory.{Entries, memory, look, keys_under}
use openbao_cloud_creds.Capacity.{State, count_one, minter_of, count_ids, snapshot}

abbrev issued_by : Text → Value
issued_by minter = object ((text "minter", str minter) ∷ [])

abbrev tokens : Entries
tokens =
    (text "t/a", issued_by (text "m"))
    ∷ (text "t/b", issued_by (text "n"))
    ∷ (text "t/c", issued_by (text "m"))
    ∷ []

abbrev counted : State
counted = record { limit = 2; used = (text "m", 2) ∷ (text "n", 1) ∷ []; warn_at = 1 }

counts_two : snapshot memory tokens (text "t/") 2 ≡ some counted
unfolding snapshot count_ids count_one minter_of string_field field text_eq look keys_under
    strip_prefix
counts_two = refl
