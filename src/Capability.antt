-- ===== src/Capability.antt =====
-- pkg/capability: the probe mints that a configuration write runs to learn whether a minter can serve the roles
-- bound to it.
pub mod Cache
pub mod Limiter
pub mod Probes
pub mod Gate
pub mod Guarded
pub mod Groups
pub mod Freshness
pub mod Verdicts
pub mod Examples
use openbao_cloud_creds.Base.{
  ℕ, ◌++◌, Text, text, text_eq, text_le, sort_by, sort_strings, any, map, List, [], ◌∷◌, Option,
  none, some, Bool, true, false, ◌||◌, not, if◌then◌else◌,
}
use openbao_cloud_creds.Storage.{
  ◌>>=◌, Json, Fields, Value, object, bytes, Storage, field, as_text, as_flag,
}

-- `Check`, without the function that runs it.
pub record Check : Type 0 where
  pub key : Text
  pub minter : Text
  pub roles : List Text
  pub minter_json : Option Text

unfoldable pub append_missing : List Text → List Text → List Text
append_missing dst [] = dst
append_missing dst (s ∷ src) =
    append_missing (if any (λ t. text_eq t s) dst then dst else dst ++ s ∷ []) src

-- One check put into the groups, which stand in the order of their first check.
unfoldable pub merge_check : List Check → Check → List Check
unfolding append_missing
merge_check [] c = c ∷ []
merge_check (g ∷ groups) c =
    if text_eq g.key c.key
    then record g { roles = append_missing g.roles c.roles } ∷ groups
    else g ∷ merge_check groups c

unfoldable pub group_checks : List Check → List Check → List Check
unfolding merge_check
group_checks groups [] = groups
group_checks groups (c ∷ checks) = group_checks (merge_check groups c) checks

unfoldable pub dedupe : List Check → List Check
unfolding group_checks
dedupe checks = sort_by (λ a b. text_le a.key b.key) (group_checks [] checks)

abbrev pub roles_prefix : Text
roles_prefix = text "roles/"

pub record BoundRole : Type 0 where
  pub name : Text
  pub raw : Value

keep_bound : Bool → BoundRole → Option BoundRole
keep_bound bound r = if bound then some r else none

-- A stored role of the set; `none` where it is of another set, disabled or cannot be read as a role.
unfoldable pub bound_role : Text → Value → Option BoundRole
unfolding field keep_bound
bound_role set_name (bytes b) = none
bound_role set_name (object fs) = do
  name ← as_text (field (text "name") fs)
  minter_set ← as_text (field (text "minter_set") fs)
  disabled ← as_flag (field (text "disabled") fs)
  keep_bound (not (disabled || not (text_eq minter_set set_name)))
      (record { name = name; raw = object fs })

abbrev add_role : Option BoundRole → List BoundRole → List BoundRole
add_role none bound = bound
add_role (some r) bound = r ∷ bound

module _ {S : Type 0} (st : Storage S) where
  bound_roles : S → Text → List Text → Option (List BoundRole)
  unfolding bound_role
  bound_roles s set_name [] = some []
  bound_roles s set_name (name ∷ names) =
      let rest = bound_roles s set_name names in
      elim (st.get s (roles_prefix ++ name)) [
        | none ↦ none
        | some none ↦ rest
        | some (some v) ↦ elim rest [
          | none ↦ none
          | some bound ↦ some (add_role (bound_role set_name v) bound)
        ]
      ]

  -- `RolesBoundTo`.
  unfoldable pub roles_bound_to : S → Text → Option (List BoundRole)
  unfolding bound_roles
  roles_bound_to s set_name = elim (st.list s roles_prefix) [
    | none ↦ none
    | some names ↦ bound_roles s set_name (sort_strings names)
  ]
