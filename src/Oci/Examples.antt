-- ===== src/Oci/Examples.antt =====
-- A role with two slots.
use openbao_cloud_creds.Base.{
  ℕ, ◌+◌, ◌*◌, ◌≤◌, ◌≡◌, refl, Text, text, text_eq, [], ◌∷◌, none, some, true, false, find_key,
  emit, format, arith,
}
use openbao_cloud_creds.Storage.{object}
use openbao_cloud_creds.Storage.Memory.{Entries, memory, look, memory_laws}
use openbao_cloud_creds.Caller.Lineage
use openbao_cloud_creds.Caller.Requester
use openbao_cloud_creds.Envelope.{
  Envelope, identity, oci_auth_token, require_credential_kind, new_envelope,
}
use openbao_cloud_creds.Recovery.{selectable, serviceable, new_state_machine}
use openbao_cloud_creds.Vultr.Examples.{sets}
use openbao_cloud_creds.Oci.{slot_active, Slot, OciRole, World, Env}
use openbao_cloud_creds.Oci.Slots.{
  storage_key_for_slot, is_active, is_servable, better, freshest_from, freshest_slot, load_slot,
  load_slots_from, load_all_slots, rotate_slot, initialize_slots, rotation_interval, fill_slots,
  owner_instance_id, select_minter_for_set, healthy_minter, save_slot,
}
use openbao_cloud_creds.Oci.Creds.{
  CredsRequest, Lease, issued, creds_read, load_issuable_role, serve_freshest, serve_slot,
  ttl_seconds,
}
use openbao_cloud_creds.Oci.Freshest.{Served, creds_read-Served}
use openbao_cloud_creds.Oci.Rotation.{Rotated, rotate_slot-Rotated}
use openbao_cloud_creds.Oci.Chosen.{IsChosen}
use openbao_cloud_creds.Oci.Stagger.{IsStaggered, initialize_slots-IsStaggered}

abbrev role : OciRole
role = record {
  name = text "r";
  user_ocid = text "u";
  slot_count = 2;
  rotation_period = 100_000_000_000;
  default_ttl = 900_000_000_000;
  max_ttl = 900_000_000_000;
  minter_set = text "main";
  disabled = false;
  require_caller_identity = [];
  require_caller_lineage = [];
}

abbrev slot : Slot
slot = record {
  token_id = text "t";
  token_value = text "v";
  rotated_at = 5;
  next_rotation_at = 50_000_000_005;
  state = slot_active;
  slot_index = 0;
  description = [];
  minter_set = text "main";
  minter_id = text "a";
}

abbrev cloud : Env Entries
cloud = record {
  storage = memory;
  create = λ calls call. some (text "v2", text "t2");
  decode_role = λ v. some role;
  decode_slot = λ v. some slot;
  encode_slot = λ s. object [];
  raw = λ v. [];
  random = none;
  view = none;
}

abbrev stored : Entries
stored = (text "roles/r", object []) ∷ (text "slots/r/0", object []) ∷ []

abbrev mount : World Entries
mount = record { instance_id = text "a1"; minter_sets = sets; storage = stored; calls = [] }

rotate_slot-Rotated_example :
    let r = rotate_slot cloud role 0 7 mount in
    Rotated cloud role 0 7 sets (owner_instance_id cloud mount).0.storage [] r.0 r.1
rotate_slot-Rotated_example = rotate_slot-Rotated cloud role 0 7 mount

fills : (initialize_slots cloud role 7 mount).1 ≡ true
unfolding initialize_slots owner_instance_id select_minter_for_set find_key text_eq healthy_minter
    selectable serviceable new_state_machine fill_slots save_slot
fills = refl

initialize_slots-IsStaggered_example :
    let r = initialize_slots cloud role 7 mount in
    (owner : Text) × (minter_id : Text) × (minter : Text) × ((owner_instance_id cloud mount).1
      ≡ some owner)
    × IsChosen 7 (text "main") (owner_instance_id cloud mount).0.minter_sets minter_id minter
    × IsStaggered cloud look memory_laws role 7 owner minter_id minter r.0.storage r.0.calls 1
    × (7 + rotation_interval role * (1 + 1) ≤ 7 + 100_000_000_000)
initialize_slots-IsStaggered_example =
    initialize_slots-IsStaggered cloud look memory_laws role 7 1 mount (omega arith) fills

abbrev request : CredsRequest
request = record {
  role_name = text "r";
  credential_kind = [];
  caller = record { entity_id = []; token_accessor = [] };
}

abbrev late : ℕ
late = 49_500_000_005

abbrev envelope : Envelope
envelope = record {
  cloud = text "oci";
  role = text "r";
  credential = (text "auth_token", text "v") ∷ (text "user_id", text "u") ∷ [];
  expires_at = late;
  ttl_seconds = 0;
  renewable = false;
  credential_id = text "t";
  metadata = record {
    scope = text "u";
    scope_kind = identity;
    credential_kind = oci_auth_token;
    issued_by = text "cloud-creds-oci/v0.1";
    api_version = text "4";
    minter_set = text "main";
    minter_id = text "a";
  };
}

abbrev lease : Lease
lease = record {
  role = text "r";
  slot_index = 0;
  token_id = text "t";
  minter_set = text "main";
  minter_id = text "a";
  ttl = 0;
  max_ttl = 900_000_000_000;
}

-- Half a second before the rotation the slot is served for no time at all.
serves : creds_read cloud request late stored ≡ issued envelope lease
unfolding creds_read require_credential_kind load_issuable_role look text_eq Requester.enforce
    Requester.parse_requirement Requester.check_requirement Lineage.enforce
    Lineage.parse_requirement Lineage.check_requirement serve_freshest load_all_slots
    load_slots_from load_slot storage_key_for_slot format emit freshest_slot freshest_from
    is_servable is_active better serve_slot ttl_seconds new_envelope
serves = refl

creds_read-Served_example : Served cloud request late stored envelope lease
creds_read-Served_example = creds_read-Served cloud request late stored serves
