-- ===== src/Vultr/Examples.antt =====
-- A mount with two minters, of which the first has no room.
use openbao_cloud_creds.Base.{
  ℕ, ◌++◌, ◌≡◌, refl, ◌⊎◌, Text, text, text_eq, List, [], ◌∷◌, Option, none, some, inl, inr, true,
  false, any, All, find_key, set_key, keys, strip_prefix, sort_by, insert_sorted, text_le,
  if◌then◌else◌,
}
use openbao_cloud_creds.Errors.{pool_exhausted}
use openbao_cloud_creds.Recovery.{
  new_state_machine, serviceable, try_acquire, record_success, unavailable_error,
}
use openbao_cloud_creds.Storage.{Value, object, bytes, str, field, string_field}
use openbao_cloud_creds.Storage.Memory.{Entries, memory, look, drop_key, keys_under}
use openbao_cloud_creds.Caller.Lineage
use openbao_cloud_creds.Caller.Requester
use openbao_cloud_creds.Envelope.{kind_text, require_credential_kind}
use openbao_cloud_creds.Ownership.{mount_prefix, instance_id}
use openbao_cloud_creds.Ledger.{note_mint}
use openbao_cloud_creds.Capacity
use openbao_cloud_creds.Capacity.{enforced, has_room, used_by}
use openbao_cloud_creds.Affinity.{
  order_keys, order, prefers, weigh, big_endian, key_from_request, affinity_key,
}
use openbao_cloud_creds.Minters.{Minter}
use openbao_cloud_creds.Vultr.{
  VultrRole, MinterState, MinterStates, MinterSets, Call, create_user, created, World, Env,
}
use openbao_cloud_creds.Vultr.Pool.{
  machines_of, select_minter, select_from, try_minter, acquire, conclude, record_minter_success,
  update_minter,
}
use openbao_cloud_creds.Vultr.Selection.{can_serve, is_full, probing, select_minter_lem}
use openbao_cloud_creds.Vultr.Creds.{
  CredsRequest, creds_read, creds_revoke, admit, admit_caller, load_role, select_and_serve, serve,
  owner_instance_id, create_credential, build_user_identity, email_domain_for, record_issued_user,
}
use openbao_cloud_creds.Vultr.Issuance.{Outcome, Justified, creds_read-Outcome}
use openbao_cloud_creds.Vultr.Revocation.{Revoked, creds_revoke-Revoked}

abbrev pub role : VultrRole
role = record {
  name = text "dns";
  default_ttl = 900_000_000_000;
  max_ttl = 3_600_000_000_000;
  acls = text "dns" ∷ text "billing" ∷ [];
  email_domain = [];
  minter_set = text "main";
  disabled = false;
  require_caller_identity = text "token_accessor";
  require_caller_lineage = [];
}

abbrev decode_role : Value → Option VultrRole
decode_role (bytes b) = none
decode_role (object fs) = some role

abbrev raw : Value → Text
raw (object fs) = []
raw (bytes b) = b

abbrev pub cloud : Env Entries
cloud = record {
  storage = memory;
  create = λ calls call. created (text "u-1") (text "key");
  delete = λ calls call. (204, false, none);
  decode_role = decode_role;
  decode_set = λ v. none;
  encode_role = λ r. object [];
  encode_set = λ m. object [];
  raw = raw;
  print = λ j. [];
  random = some (text "a1");
  view = none;
  sha256 = λ t. t;
  draw = λ n. none;
  jitter = λ n. 0;
  jitter' = λ n. 0;
}

abbrev pub minter : Text → Minter
minter id = record {
  id = id;
  token = id ++ text "-token";
  expires_at = 0;
  never_expires = true;
  created_at = 0;
  retired = false;
  retired_at = 0;
  rotation_params = [];
}

abbrev fresh_state : Text → MinterState
fresh_state id = record {
  minter = minter id;
  sm = new_state_machine (record { auth_fail_threshold = 0; health_check_interval = 0 });
}

abbrev pub states : MinterStates
states = (text "a", fresh_state (text "a")) ∷ (text "b", fresh_state (text "b")) ∷ []

abbrev pub sets : MinterSets
sets = (text "main", states) ∷ []

abbrev full_a : Capacity.State
full_a = record { limit = 1; used = (text "a", 1) ∷ []; warn_at = 1 }

abbrev pub mount : World Entries
mount = record {
  backend = record { instance_id = []; minter_sets = sets; credential_limit = 1 };
  storage =
      (text "roles/dns", object [])
      ∷ (text "active-users/u-0", object ((text "minter", str (text "a")) ∷ []))
      ∷ [];
  calls = [];
}

abbrev pub request : CredsRequest
request = record {
  role_name = text "dns";
  credential_kind = text "bearer_token";
  shard_key = none;
  request_id = text "0123456789";
  caller = record { entity_id = []; token_accessor = text "acc" };
}

loaded : find_key (text "main") sets ≡ some states
unfolding find_key text_eq
loaded = refl

select_minter_example :
    let ids = order_keys cloud.sha256 cloud.draw (text "acc") states in
    let r = select_minter cloud (text "main") (text "acc") full_a 7 sets in
    ((before : List Text) × (id : Text) × (after : List Text) × (ms : MinterState) × (ids
        ≡ before ++ id ∷ after)
      × All (λ i. can_serve full_a 7 states i ≡ false) before
      × (can_serve full_a 7 states id ≡ true)
      × (find_key id states ≡ some ms)
      × (r.1 ≡ inl (record { set_id = text "main"; minter_id = id; token = ms.minter.token }))
      × (r.0 ≡ set_key (text "main") (probing full_a 7 id ms states) sets))
    ⊎ (All (λ i. can_serve full_a 7 states i ≡ false) ids
        × (r.1
            ≡ inr (
                if any (is_full full_a states) ids
                then pool_exhausted
                else (unavailable_error 7 (machines_of states)).0))
        × (r.0 ≡ sets))
select_minter_example = select_minter_lem cloud (text "main") (text "acc") full_a 7 sets loaded

creds_read-Outcome_example :
    let now : ℕ = 63_900_000_000_000_000_007 in
    let r = creds_read cloud request now mount in
    Outcome cloud (Justified cloud request now mount) mount.calls r.0 r.1
creds_read-Outcome_example = creds_read-Outcome cloud request 63_900_000_000_000_000_007 mount

creds_revoke-Revoked_example :
    let r = creds_revoke cloud (text "u-0") (text "main") (text "a") 9 mount in
    Revoked cloud (text "u-0") (text "main") (text "a") 9 mount r.0 r.1
creds_revoke-Revoked_example =
    creds_revoke-Revoked cloud (text "u-0") (text "main") (text "a") 9 mount

-- The read asks for one sub-user, by the minter that has room.
abbrev asked : List Call
asked =
    create_user (text "b-token") (text "cloud-creds-a1-dns-01234567")
      (text "cloud-creds-a1-dns-01234567@managed.local") (text "dns" ∷ text "billing" ∷ [])
    ∷ []

reads_by_b : (creds_read cloud request 63_900_000_000_000_000_007 mount).0.calls ≡ asked
unfolding creds_read admit require_credential_kind kind_text text_eq load_role look
    Requester.enforce Requester.parse_requirement Requester.find_requirement
    Requester.requirement_text Requester.check_requirement admit_caller Lineage.enforce
    Lineage.parse_requirement Lineage.check_requirement Capacity.snapshot Capacity.count_ids
    Capacity.count_one Capacity.minter_of string_field field keys_under strip_prefix
    select_and_serve select_minter find_key set_key order_keys keys order prefers weigh big_endian
    sort_by insert_sorted text_le key_from_request affinity_key select_from try_minter has_room
    enforced used_by acquire try_acquire serviceable new_state_machine conclude serve
    owner_instance_id instance_id create_credential build_user_identity email_domain_for
    mount_prefix record_minter_success update_minter record_success record_issued_user note_mint
    drop_key
reads_by_b = refl
