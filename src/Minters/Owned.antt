-- ===== src/Minters/Owned.antt =====
-- pkg/cloudconfig/owned.go: the upstream ids that a mount owns by its minters, for the registry of the
-- reconciler. `json.Unmarshal` into a minter set is an argument.
--
-- A set of ids is a list, of which order and repetitions mean nothing.
use openbao_cloud_creds.Base.{
  ℕ, ◌==◌, Text, text, is_empty, ◌++◌, sort_by, text_le, List, [], ◌∷◌, Option, none, some, Bool,
  if◌then◌else◌,
}
use openbao_cloud_creds.Storage.{Value, Storage}
use openbao_cloud_creds.Minters.{Minter, Problem, bad_interval, param}

abbrev pub minter_set_prefix : Text
minter_set_prefix = text "minter-sets/"

unfoldable pub add_id : Text → List Text → List Text
add_id id owned = if is_empty id then owned else id ∷ owned

unfoldable pub add_ids : List Text → Minter → List Text → List Text
add_ids [] m owned = owned
add_ids (key ∷ keys) m owned = add_ids keys m (add_id (param key m.rotation_params) owned)

unfoldable pub add_minters : List Text → List Minter → List Text → List Text
add_minters keys [] owned = owned
add_minters keys (m ∷ minters) owned = add_minters keys minters (add_ids keys m owned)

module _ {S : Type 0} (st : Storage S) (decode : Value → Option (List Minter)) where
  unfoldable pub read_sets : S → List Text → List Text → List Text → Option (List Text)
  read_sets s keys [] owned = some owned
  read_sets s keys (name ∷ names) owned = elim (st.get s (minter_set_prefix ++ name)) [
    | none ↦ none
    | some none ↦ read_sets s keys names owned
    | some (some v) ↦ elim (decode v) [
      | none ↦ none
      | some minters ↦ read_sets s keys names (add_minters keys minters owned)
    ]
  ]

  -- `MinterUpstreamIDs`; `none` is an error.
  unfoldable pub minter_upstream_ids : S → List Text → Option (List Text)
  minter_upstream_ids s [] = some []
  minter_upstream_ids s (key ∷ keys) = elim (st.list s minter_set_prefix) [
    | none ↦ none
    | some names ↦ read_sets s (key ∷ keys) names []
  ]

unfoldable pub merge_owned : List Text → List Text → List Text
merge_owned into [] = into
merge_owned into (id ∷ from) = merge_owned (id ∷ into) from

unfoldable pub first_bad_interval : List (Text × ℕ) → Option Problem
first_bad_interval [] = none
first_bad_interval ((name, interval) ∷ intervals) =
    let rest = first_bad_interval intervals in
    if interval == 0 then some (bad_interval name) else rest

unfoldable pub by_name : Text × ℕ → Text × ℕ → Bool
by_name a b = text_le a.0 b.0

unfoldable pub validate_intervals : List (Text × ℕ) → Option Problem
validate_intervals intervals = first_bad_interval (sort_by by_name intervals)
