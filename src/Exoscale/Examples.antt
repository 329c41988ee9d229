-- ===== src/Exoscale/Examples.antt =====
-- A sweep of a set with an active minter and three retired ones, of which one is refused by the cloud.
use openbao_cloud_creds.Base.{ℕ, ◌≡◌, refl, Text, text, text_eq, [], ◌∷◌, some, Bool, true, false}
use openbao_cloud_creds.Storage.{object}
use openbao_cloud_creds.Storage.Memory.{Entries, memory}
use openbao_cloud_creds.Minters.{Minter, param}
use openbao_cloud_creds.Vultr.{MinterSet}
use openbao_cloud_creds.Exoscale.{
  delete_api_key, World, Env, is_due, delete_retired_upstream, sweep_minter, sweep_minters,
  sweep_set,
}
use openbao_cloud_creds.Exoscale.Sweep.{SetSwept, sweep_set-Swept}

abbrev minter : Text → Bool → ℕ → Minter
minter id retired at = record {
  id = id;
  token = text "secret";
  expires_at = 0;
  never_expires = true;
  created_at = 1;
  retired = retired;
  retired_at = at;
  rotation_params = (text "key_id", id) ∷ [];
}

abbrev main_set : MinterSet
main_set = record {
  schema = 1;
  name = text "main";
  minters =
      minter (text "a") false 0
      ∷ minter (text "b") true 10
      ∷ minter (text "c") true 20
      ∷ minter (text "d") true 95
      ∷ [];
}

-- The cloud does not know the first key, and refuses to delete any other.
abbrev cloud : Env Entries
cloud = record {
  storage = memory;
  delete = λ calls c. elim calls [ [] ↦ (404, true) | x ∷ xs ↦ (500, true) ];
  decode_set = λ v. some main_set;
  encode_set = λ set. object [];
}

abbrev before : World Entries
before = record {
  minter_retire_grace = some 30;
  minter_sets = [];
  storage = (text "minter-sets/main", object []) ∷ [];
  calls = [];
}

-- The second minter is dropped; the deletion of the third is tried again later; the fourth has its grace.
swept_minters :
    (sweep_minters cloud 100 30 main_set.minters before).0.calls
    ≡ delete_api_key (text "secret") (text "b") ∷ delete_api_key (text "secret") (text "c") ∷ []
unfolding sweep_minters sweep_minter is_due delete_retired_upstream param text_eq
swept_minters = refl

sweep_set-Swept_example :
    SetSwept cloud 100 30 (text "main") before (sweep_set cloud 100 30 (text "main") before)
sweep_set-Swept_example = sweep_set-Swept cloud 100 30 (text "main") before
