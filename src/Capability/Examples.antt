-- ===== src/Capability/Examples.antt =====
-- A verification of three checks, two of them for one mint request.
use mathlib.Core.List.{Memᴰ}
use openbao_cloud_creds.Storage.{str, field, object, bytes, Value}
use openbao_cloud_creds.Capability.Limiter.{state_for}
use openbao_cloud_creds.Base.{
  ◌*◌, ◌++◌, ◌≡◌, refl, Text, text, List, [], ◌∷◌, none, some, true, false, text_eq, arith,
}
use openbao_cloud_creds.Storage.Memory.{Entries, memory, look, drop_key}
use openbao_cloud_creds.Recovery.{second, StateMachine, new_state_machine}
use openbao_cloud_creds.Capability.{Check}
use openbao_cloud_creds.Capability.Cache.{cache_key, encode_entry}
use openbao_cloud_creds.Capability.Probes.{Prober, Runner}
use openbao_cloud_creds.Minters.{Minter, active_minters}
use openbao_cloud_creds.Errors.{upstream_auth_failed}
use openbao_cloud_creds.Capability.Gate.{
  Gate, disabled_role, disabled_flag, load_minter_set, untouched, verify_role,
}
use openbao_cloud_creds.Capability.Guarded.{verify_role_spares}
use openbao_cloud_creds.Capability.Freshness.{entry_for}

abbrev check_for : Text → Text → Check
check_for key role = record {
  key = key;
  minter = text "m1";
  roles = role ∷ [];
  minter_json = some (text "secret");
}

abbrev checks : List Check
checks =
    check_for (text "b") (text "ci")
    ∷ check_for (text "a") (text "web")
    ∷ check_for (text "b") (text "cd")
    ∷ []

abbrev always_mints : Prober
always_mints calls c = (200, none)

abbrev runner : Runner Entries
runner = record {
  store = memory;
  digest = λ t. text "d" ++ t;
  ttl = 10;
  clock = λ calls. 3 * second;
  jitter = λ n. 0;
  jitter' = λ n. 0;
  run = always_mints;
}

abbrev probe_b : Check
probe_b = check_for (text "b") (text "ci")

abbrev digest : Text → Text
digest t = text "d" ++ t

abbrev remembered : Entries
remembered =
    (
      cache_key memory digest 10 probe_b,
      encode_entry (entry_for digest (3 * second) (text "secret")),
    )
    ∷ []

stored :
    memory.put []
      (cache_key memory digest 10 probe_b)
      (encode_entry (entry_for digest (3 * second) (text "secret")))
    ≡ some remembered
unfolding drop_key
stored = refl

abbrev minter : Minter
minter = record {
  id = text "m1";
  token = text "secret";
  expires_at = 0;
  never_expires = true;
  created_at = 0;
  retired = false;
  retired_at = 0;
  rotation_params = [];
}

abbrev rejected : StateMachine
rejected =
    record (new_state_machine (record { auth_fail_threshold = 5; health_check_interval = 5 })) {
      consecutive_failures = 1;
      consecutive_auth_failures = 1;
    }

abbrev gate : Gate Entries
gate = record {
  enabled = true;
  runner = runner;
  decode_set = λ v. some (minter ∷ []);
  checks = λ name minters role. checks;
}

abbrev ci_role : Value
ci_role = object ((text "name", str (text "ci")) ∷ (text "minter_set", str (text "set")) ∷ [])

abbrev with_set : Entries
with_set = (text "minter-sets/set", bytes []) ∷ []

role_enabled : disabled_role ci_role ≡ false
unfolding disabled_role disabled_flag field text_eq
role_enabled = refl

set_loaded : load_minter_set gate with_set (text "set") ≡ some (some (minter ∷ []))
unfolding load_minter_set look text_eq
set_loaded = refl

minter_active : Memᴰ minter (active_minters (minter ∷ []))
unfolding active_minters
minter_active = Memᴰ.head refl

minter_known : state_for minter.id ((text "m1", rejected) ∷ []) ≡ some rejected
unfolding state_for text_eq
minter_known = refl

verify_role_spares_example :
    verify_role gate with_set ((text "m1", rejected) ∷ []) (text "set") ci_role
    ≡ untouched gate with_set ((text "m1", rejected) ∷ []) (some upstream_auth_failed)
verify_role_spares_example =
    verify_role_spares gate with_set ((text "m1", rejected) ∷ []) (text "set") ci_role (minter ∷ [])
      minter rejected refl role_enabled set_loaded minter_active minter_known (omega arith)
