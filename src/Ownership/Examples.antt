-- ===== src/Ownership/Examples.antt =====
-- Names of two mounts.
use openbao_cloud_creds.Base.{
  ◌⊎◌, arith, ◌≤◌, ◌<◌, ℕ, ◌+◌, ◌++◌, ◌≡◌, refl, ◌≤◌, ◌<◌, Text, text, has_prefix, true, length,
}
use openbao_cloud_creds.Ownership.{fit_name}
use openbao_cloud_creds.Ownership.Names.{fit_name_lem}

fit_name_example :
    let name = fit_name (text "cc-0a-") (text "long-role") (text "r1") 12 in
    let n : ℕ = 12 in
    (length name ≤ n)
    × ((has_prefix name (text "cc-0a-") ≡ true) ⊎ (n < length (text "cc-0a-")))
    × (((m : Text) × (name ≡ text "cc-0a-" ++ (m ++ text "r1")))
        ⊎ (n < length (text "cc-0a-") + length (text "r1")))
fit_name_example = fit_name_lem (text "cc-0a-") (text "long-role") (text "r1") 12 (omega arith)

cut_in_the_middle : fit_name (text "cc-0a-") (text "long-role") (text "r1") 12 ≡ text "cc-0a-lon-r1"
unfolding fit_name
cut_in_the_middle = refl
