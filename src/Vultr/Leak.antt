-- ===== src/Vultr/Leak.antt =====
-- A role as a stored object, and its disabling on a mount that has no minter left.
use openbao_cloud_creds.Base.{
  ℕ, ◌≡◌, refl, ◌⊎◌, inr, Text, text, text_eq, List, [], ◌∷◌, Option, none, some, true, false,
}
use openbao_cloud_creds.Errors.{ErrorCode, role_disabled, internal}
use openbao_cloud_creds.Storage.{str, num, flag, Fields, field, Value, object}
use openbao_cloud_creds.Storage.Memory.{Entries, memory, look, drop_key, memory_laws}
use openbao_cloud_creds.Capability.Gate.{disabled_role, disabled_flag}
use openbao_cloud_creds.Caller.Lineage
use openbao_cloud_creds.Caller.Requester
use openbao_cloud_creds.Minters.{validate_role}
use openbao_cloud_creds.Vultr.{VultrRole, World, Env}
use openbao_cloud_creds.Vultr.Creds.{load_role, CredsRequest, refused, creds_read}
use openbao_cloud_creds.Vultr.Roles.{check_role, minter_set_exists, role_write}
use openbao_cloud_creds.Vultr.Disabling.{disable, disabled_copy, role_write-disable}
use openbao_cloud_creds.Vultr.Examples.{cloud, role}
use openbao_cloud_creds.Vultr.Tests.{gate}

abbrev acl_fields : List Text → Fields
acl_fields [] = []
acl_fields (a ∷ acls) = (text "acl", str a) ∷ acl_fields acls

abbrev acls_of : Fields → Option (List Text)
acls_of [] = some []
acls_of ((k, str a) ∷ fs) = elim (acls_of fs) [ none ↦ none | some acls ↦ some (a ∷ acls) ]
acls_of ((k, _) ∷ fs) = none

abbrev encode : VultrRole → Value
encode r = object (
    (text "name", str r.name)
    ∷ (text "default_ttl", num r.default_ttl)
    ∷ (text "max_ttl", num r.max_ttl)
    ∷ (text "email_domain", str r.email_domain)
    ∷ (text "minter_set", str r.minter_set)
    ∷ (text "disabled", flag r.disabled)
    ∷ (text "require_caller_identity", str r.require_caller_identity)
    ∷ (text "require_caller_lineage", str r.require_caller_lineage)
    ∷ acl_fields r.acls)

abbrev decode : Value → Option VultrRole
decode
      (object (
        (_, str name)
        ∷ (_, num default_ttl)
        ∷ (_, num max_ttl)
        ∷ (_, str email_domain)
        ∷ (_, str minter_set)
        ∷ (_, flag disabled)
        ∷ (_, str identity)
        ∷ (_, str lineage)
        ∷ rest)) =
    elim (acls_of rest) [
      | none ↦ none
      | some acls ↦ some (record {
        name = name;
        default_ttl = default_ttl;
        max_ttl = max_ttl;
        acls = acls;
        email_domain = email_domain;
        minter_set = minter_set;
        disabled = disabled;
        require_caller_identity = identity;
        require_caller_lineage = lineage;
      })
    ]
decode _ = none

acls_of-acl_fields : (acls : List Text) → acls_of (acl_fields acls) ≡ some acls
acls_of-acl_fields [] = refl
acls_of-acl_fields (a ∷ acls) = rw (acls_of-acl_fields acls) refl

encodes : (r : VultrRole) → decode (encode r) ≡ some r
encodes r = rw (decode, encode, acls_of-acl_fields r.acls) refl

field-acl_fields :
    (name : Text) (acls : List Text)
    → text_eq (text "acl") name ≡ false
    → field name (acl_fields acls) ≡ none
unfolding field
field-acl_fields name [] h = refl
field-acl_fields name (a ∷ acls) h = rw (field, field-acl_fields name acls h, h) refl

flags : (r : VultrRole) → r.disabled ≡ true → disabled_role (encode r) ≡ true
unfolding disabled_role disabled_flag field text_eq
flags r h =
    let named : field (text "name") (acl_fields r.acls) ≡ none =
      field-acl_fields (text "name") r.acls refl in
    let bound : field (text "minter_set") (acl_fields r.acls) ≡ none =
      field-acl_fields (text "minter_set") r.acls refl in
    let off : field (text "disabled") (acl_fields r.acls) ≡ none =
      field-acl_fields (text "disabled") r.acls refl in
    simp (disabled_role, disabled_flag, field, named, bound, off, h)

abbrev quiet_cloud : Env Entries
quiet_cloud = record cloud { encode_role = encode; decode_role = decode }

abbrev leaky : World Entries
leaky = record {
  backend = record { instance_id = text "a1"; minter_sets = []; credential_limit = 0 };
  storage = (text "roles/dns", encode role) ∷ (text "minter-sets/main", object []) ∷ [];
  calls = [];
}

abbrev contained : Entries
contained =
    (text "roles/dns", encode (disabled_copy role)) ∷ (text "minter-sets/main", object []) ∷ []

role_ok : check_role quiet_cloud role leaky.storage ≡ none
unfolding check_role Requester.parse_requirement Requester.find_requirement
    Requester.requirement_text Lineage.parse_requirement minter_set_exists look text_eq
    validate_role
role_ok = refl

puts : memory.put leaky.storage (text "roles/dns") (encode (disabled_copy role)) ≡ some contained
unfolding drop_key text_eq
puts = refl

finds : memory.get leaky.storage (text "roles/dns") ≡ some (some (encode role))
unfolding look text_eq
finds = refl

role_write-disable_example :
    let x = role_write quiet_cloud gate (text "dns") disable leaky in
    (x.1 ≡ none)
    × (x.0.storage ≡ contained)
    × (x.0.calls ≡ [])
    × ((load_role quiet_cloud contained (text "dns") ≡ inr role_disabled)
        ⊎ (load_role quiet_cloud contained (text "dns") ≡ inr internal))
    × ((req : CredsRequest) (t : ℕ) (w : World Entries)
        → req.role_name ≡ text "dns"
        → w.storage ≡ contained
        → (code : ErrorCode) × (creds_read quiet_cloud req t w ≡ (w, refused code)))
role_write-disable_example =
    role_write-disable quiet_cloud gate look memory_laws encodes flags (text "dns") leaky finds refl
      refl refl refl role_ok refl puts
