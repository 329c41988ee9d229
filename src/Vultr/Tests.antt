-- ===== src/Vultr/Tests.antt =====
-- A mount from its first minter set to a pass of the reconciler.
use mathlib.Core.List.{Memᴰ}
use openbao_cloud_creds.Base.{
  ℕ, ◌≡◌, refl, ◌≢◌, Text, text, List, [], ◌∷◌, Option, none, some, inl, true, false, All, find_key,
  text_eq, has_prefix, strip_prefix, is_digit, trim_space, trim_left, trim_right, is_space,
  parse_int, parse_below, parse_digits,
}
use openbao_cloud_creds.Storage.{str, flag, Fields, bytes}
use openbao_cloud_creds.Storage.Memory.{Entries, memory, look, keys_under, drop_key}
use openbao_cloud_creds.Minters.{Minter}
use openbao_cloud_creds.Capability.Gate.{Gate}
use openbao_cloud_creds.Recovery.{selectable, serviceable, new_state_machine}
use openbao_cloud_creds.Ownership.{owns, mount_prefix, instance_id}
use openbao_cloud_creds.Ledger.{
  created_at, entry_key, path_escape, is_path_byte, seconds_of, from_unix,
}
use openbao_cloud_creds.Reconciler.{
  Pass, run, visit, is_owned, is_confirmed, claim, classify, scan, start,
}
use openbao_cloud_creds.Vultr.Pool.{any_healthy_minter, any_healthy}
use openbao_cloud_creds.Vultr.{MinterSet, MinterState, MinterStates, World}
use openbao_cloud_creds.Vultr.Creds.{owner_instance_id}
use openbao_cloud_creds.Vultr.Sets.{states_of, load_minter_set}
use openbao_cloud_creds.Vultr.Rehydration.{Carried, load_minter_set_lem}
use openbao_cloud_creds.Vultr.Reclaim.{
  Users, min_confirmation_hold, path_reconcile, reconcile, run_pass, list_tagged_entities,
  tagged_entities, owned_ids, delete_entity,
}
use openbao_cloud_creds.Vultr.Owner.{IsOwner}
use openbao_cloud_creds.Vultr.Spared.{IsReclaimable, path_reconcile-IsReclaimable}
use openbao_cloud_creds.Vultr.Examples.{cloud, minter, sets, mount}

abbrev pub gate : Gate Entries
gate = record {
  enabled = true;
  runner = record {
    store = memory;
    digest = λ t. t;
    ttl = 10;
    clock = λ calls. 3;
    jitter = λ n. 0;
    jitter' = λ n. 0;
    run = λ calls check. (201, none);
  };
  decode_set = λ v. some (minter (text "a") ∷ []);
  checks = λ name minters role. [];
}

abbrev bare : World Entries
bare = record {
  backend = record { instance_id = []; minter_sets = []; credential_limit = 1 };
  storage = mount.storage;
  calls = [];
}

abbrev written : Option (List (Option Fields))
written = some (
    some (
      (text "id", str (text "a"))
      ∷ (text "token", str (text "a-token"))
      ∷ (text "never_expires", flag true)
      ∷ [])
    ∷ [])

abbrev one_minter : MinterSet
one_minter = record { schema = 1; name = text "main"; minters = minter (text "a") ∷ [] }

load_minter_set_example :
    (states : MinterStates) × (find_key (text "main") (load_minter_set one_minter sets)
      ≡ some states)
    × ((m : Minter)
        → Memᴰ m (minter (text "a") ∷ [])
        → (ms : MinterState) × (find_key m.id states ≡ some ms))
    × ((id : Text) (ms : MinterState)
        → find_key id states ≡ some ms
        → Carried (states_of (text "main") sets) id ms.sm)
    × ((name : Text)
        → name ≢ text "main"
        → find_key name (load_minter_set one_minter sets) ≡ find_key name sets)
load_minter_set_example = load_minter_set_lem one_minter sets

abbrev users : Users
users = inl (
    record { id = text "u-9"; name = text "cloud-creds-a1-dns-9" }
    ∷ record { id = text "u-0"; name = text "cloud-creds-a1-dns-0" }
    ∷ record { id = text "root"; name = text "root" }
    ∷ [])

abbrev pass : Pass
pass = record {
  budget = record { limit = 10; live = 1; inert = 0 };
  result = record {
    scanned = 2;
    orphans_found = text "u-9" ∷ [];
    deleted = 1;
    hit_limit = false;
    expired = 0;
    errors = [];
  };
  calls =
      record {
        id = text "u-9";
        name = text "cloud-creds-a1-dns-9";
        created_at = 62_135_596_801_000_000_000;
        expires_at = 0;
      }
      ∷ [];
}

abbrev aged : World Entries
aged = record mount { storage = (text "mint-ledger/u-9", bytes (text "1")) ∷ mount.storage }

abbrev later : ℕ
later = 63_900_000_000_000_000_007

deletes_one : (path_reconcile cloud (text "normal") 0 10 users later aged).1 ≡ inl pass
unfolding path_reconcile text_eq reconcile any_healthy_minter any_healthy selectable serviceable
    new_state_machine owner_instance_id instance_id look run_pass run list_tagged_entities owned_ids
    tagged_entities owns mount_prefix has_prefix visit is_owned is_confirmed claim classify scan
    start created_at entry_key path_escape is_path_byte is_digit seconds_of trim_space trim_left
    trim_right is_space parse_int parse_below parse_digits from_unix delete_entity keys_under
    strip_prefix drop_key
deletes_one = refl

path_reconcile-IsReclaimable_example :
    let w = (path_reconcile cloud (text "normal") 0 10 users later aged).0 in
    (owner : Text) × (owned : List Text) × IsOwner cloud aged owner
    × (memory.list w.storage (text "active-users/") ≡ some owned)
    × All (IsReclaimable cloud w.storage owner owned min_confirmation_hold later) pass.calls
path_reconcile-IsReclaimable_example =
    path_reconcile-IsReclaimable cloud (text "normal") 0 10 users later aged pass deletes_one
