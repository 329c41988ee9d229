-- ===== src/Capacity.antt =====
-- pkg/mintercapacity: how many live credentials each minter has, against a cap.
pub mod Counts
pub mod Examples
use openbao_cloud_creds.Base.{
  ℕ, ◌+◌, ◌*◌, ◌/◌, ◌++◌, max, Text, text, text_eq, List, [], ◌∷◌, Option, none, some, Bool, true,
  false, ltb, leb, if◌then◌else◌,
}
use openbao_cloud_creds.Storage.{Value, object, bytes, Storage, string_field}

-- `State.Used`, a map that reads 0 where a minter is missing.
abbrev pub Used : Type 0
Used = List (Text × ℕ)

unfoldable pub used_by : Text → Used → ℕ
used_by id [] = 0
used_by id ((k, n) ∷ used) = if text_eq k id then n else used_by id used

unfoldable pub count_one : Text → Used → Used
count_one id [] = (id, 1) ∷ []
count_one id ((k, n) ∷ used) =
    if text_eq k id then (k, n + 1) ∷ used else (k, n) ∷ count_one id used

-- A limit that is not positive is 0.
pub record State : Type 0 where
  pub limit : ℕ
  pub used : Used
  pub warn_at : ℕ

unfoldable pub enforced : State → Bool
enforced s = ltb 0 s.limit

unfoldable pub has_room : Text → State → Bool
unfolding enforced
has_room id s = if enforced s then ltb (used_by id s.used) s.limit else true

unfoldable pub nearing : Text → State → Bool
unfolding enforced
nearing id s = if enforced s then leb s.warn_at (used_by id s.used) else false

-- The minter that a stored record counts for; a record that cannot be read counts for the empty id.
unfoldable pub minter_of : Value → Text
minter_of (bytes b) = []
minter_of (object fs) = string_field (text "minter") fs

module _ {S : Type 0} (st : Storage S) where
  unfoldable pub count_ids : S → Text → List Text → Used → Option Used
  unfolding minter_of
  count_ids s prefix [] used = some used
  count_ids s prefix (id ∷ ids) used = elim (st.get s (prefix ++ id)) [
    | none ↦ none
    | some none ↦ count_ids s prefix ids used
    | some (some v) ↦ count_ids s prefix ids (count_one (minter_of v) used)
  ]

  -- `Snapshot`; four fifths of the limit are rounded down, as the source's conversion does.
  unfoldable pub snapshot : S → Text → ℕ → Option State
  unfolding count_ids
  snapshot s prefix limit =
      if ltb 0 limit
      then elim (st.list s prefix) [
        | none ↦ none
        | some ids ↦ elim (count_ids s prefix ids []) [
          | none ↦ none
          | some used ↦
              some (record { limit = limit; used = used; warn_at = max (limit * 4 / 5) 1 })
        ]
      ]
      else some (record { limit = 0; used = []; warn_at = 0 })
