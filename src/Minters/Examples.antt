-- ===== src/Minters/Examples.antt =====
-- A set of two minters that expire eight days apart, and a rewrite of a retired one.
use openbao_cloud_creds.Base.{
  ℕ, ◌≤◌, ◌≡◌, refl, ◌⊎◌, Text, text, is_empty, sort_by, insert_sorted, any, List, [], ◌∷◌, none,
  Bool, true, false, length, All,
}
use openbao_cloud_creds.Minters.{
  Minter, active_minters, add_expiry, collect_expiries, check_gap, check_gaps, by_expiry,
  check_expiries, validate_minter_set, preserve_lifecycle,
}
use openbao_cloud_creds.Minters.Sets.{HasExpiry, PairwiseApart, validate_minter_set_lem}
use openbao_cloud_creds.Minters.Rewrites.{Each, Rewritten, preserve_lifecycle_lem}

abbrev minter : Text → ℕ → Bool → Minter
minter id expires retired = record {
  id = id;
  token = text "secret";
  expires_at = expires;
  never_expires = false;
  created_at = 0;
  retired = retired;
  retired_at = 0;
  rotation_params = [];
}

abbrev pair : List Minter
pair =
    minter (text "b") 1_000_000_000_000_000 false
    ∷ minter (text "a") 5 false
    ∷ minter (text "c") 0 true
    ∷ []

accepted : validate_minter_set pair ≡ none
unfolding validate_minter_set active_minters collect_expiries add_expiry check_expiries check_gaps
    check_gap by_expiry sort_by insert_sorted
accepted = refl

validate_minter_set_example :
    let active = active_minters pair in
    (is_empty active ≡ false)
    × All HasExpiry active
    × ((any (λ m. m.never_expires) active ≡ true) ⊎ ((2 ≤ length active) × PairwiseApart active))
validate_minter_set_example = validate_minter_set_lem pair accepted

preserve_lifecycle_example :
    Each
      (Rewritten pair 7)
      (minter (text "c") 9 false ∷ [])
      (preserve_lifecycle (minter (text "c") 9 false ∷ []) pair 7)
preserve_lifecycle_example = preserve_lifecycle_lem (minter (text "c") 9 false ∷ []) pair 7
