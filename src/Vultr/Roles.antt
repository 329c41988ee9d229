-- ===== src/Vultr/Roles.antt =====
-- plugins/credential-vultr/path_roles.go, and PrefillRoleWrite of pkg/cloudconfig/rolewrite.go: a role is
-- written, read and deleted.
--
-- A field of a request is `none` where the request leaves it out. Durations are asked for in whole seconds, and
-- one that is not positive is 0. What prefills a field is of its type, so the second validation passes.
use openbao_cloud_creds.Base.{
  ℕ, ◌*◌, ◌/◌, ◌++◌, Text, text, is_empty, List, [], Option, none, some, Bool, true, false,
  if◌then◌else◌,
}
use openbao_cloud_creds.Errors.{ErrorCode, config_invalid, internal}
use openbao_cloud_creds.Caller.Lineage
use openbao_cloud_creds.Caller.Requester
use openbao_cloud_creds.Ledger.{second}
use openbao_cloud_creds.Minters.{validate_role}
use openbao_cloud_creds.Capability.Gate.{Gate, verify_role}
use openbao_cloud_creds.Vultr.{VultrRole, World, Env}
use openbao_cloud_creds.Vultr.Creds.{owner_instance_id, with_minter_sets}
use openbao_cloud_creds.Vultr.Sets.{set_prefix, machines_by_id, return_machines}

abbrev pub role_prefix : Text
role_prefix = text "roles/"

-- The fields of a role write, and of what a role's read endpoint answers, in seconds.
pub record RoleFields : Type 0 where
  pub default_ttl : Option ℕ
  pub max_ttl : Option ℕ
  pub acls : Option (List Text)
  pub email_domain : Option Text
  pub minter_set : Option Text
  pub disabled : Option Bool
  pub require_caller_identity : Option Text
  pub require_caller_lineage : Option Text

-- `roleData`.
unfoldable pub role_data : VultrRole → RoleFields
role_data r = record {
  default_ttl = some (r.default_ttl / second);
  max_ttl = some (r.max_ttl / second);
  acls = some r.acls;
  email_domain = some r.email_domain;
  minter_set = some r.minter_set;
  disabled = some r.disabled;
  require_caller_identity = some r.require_caller_identity;
  require_caller_lineage = some r.require_caller_lineage;
}

abbrev pub or_else {ℓ} : {A : Type ℓ} → Option A → Option A → Option A
or_else (some a) b = some a
or_else none b = b

-- `d.Get`: the schema's default where a field is missing.
abbrev pub get_or {ℓ} : {A : Type ℓ} → A → Option A → A
get_or a none = a
get_or a (some b) = b

-- `prefill`.
unfoldable pub prefill : RoleFields → RoleFields → RoleFields
prefill d stored = record {
  default_ttl = or_else d.default_ttl stored.default_ttl;
  max_ttl = or_else d.max_ttl stored.max_ttl;
  acls = or_else d.acls stored.acls;
  email_domain = or_else d.email_domain stored.email_domain;
  minter_set = or_else d.minter_set stored.minter_set;
  disabled = or_else d.disabled stored.disabled;
  require_caller_identity = or_else d.require_caller_identity stored.require_caller_identity;
  require_caller_lineage = or_else d.require_caller_lineage stored.require_caller_lineage;
}

-- The role that `pathRoleWrite` assembles.
unfoldable pub assemble : Text → RoleFields → VultrRole
assemble name d = record {
  name = name;
  default_ttl = get_or 900 d.default_ttl * second;
  max_ttl = get_or 3600 d.max_ttl * second;
  acls = get_or [] d.acls;
  email_domain = get_or (text "managed.local") d.email_domain;
  minter_set = get_or [] d.minter_set;
  disabled = get_or false d.disabled;
  require_caller_identity = get_or [] d.require_caller_identity;
  require_caller_lineage = get_or [] d.require_caller_lineage;
}

module _ {S : Type 0} (env : Env S) where
  -- `PrefillRoleWrite`; `none` is an error.
  unfoldable pub prefill_role_write : S → Text → RoleFields → Option RoleFields
  prefill_role_write s name d = elim (env.storage.get s (role_prefix ++ name)) [
    | none ↦ none
    | some none ↦ some d
    | some (some v) ↦ elim (env.decode_role v) [
      | none ↦ some d
      | some stored ↦ some (prefill d (role_data stored))
    ]
  ]

  -- `minterSetExists`.
  unfoldable pub minter_set_exists : S → Text → Option Bool
  minter_set_exists s name = elim (env.storage.get s (set_prefix ++ name)) [
    | none ↦ none
    | some none ↦ some false
    | some (some v) ↦ some true
  ]

  -- What `pathRoleWrite` asks of a role before the gate, in its order.
  unfoldable pub check_role : VultrRole → S → Option ErrorCode
  check_role r s =
      if is_empty r.acls
      then some config_invalid
      else if is_empty r.minter_set
      then some config_invalid
      else elim (Requester.parse_requirement r.require_caller_identity) [
        | none ↦ some config_invalid
        | some _ ↦ elim (Lineage.parse_requirement r.require_caller_lineage) [
          | none ↦ some config_invalid
          | some _ ↦ elim (minter_set_exists s r.minter_set) [
            | none ↦ some internal
            | some false ↦ some config_invalid
            | some true ↦
                elim (validate_role
                  (record { name = r.name; default_ttl = r.default_ttl; max_ttl = r.max_ttl })) [
                    | some problem ↦ some config_invalid
                    | none ↦ none
                  ]
          ]
        ]
      ]

  unfoldable pub save_role : VultrRole → World S → World S × Option ErrorCode
  save_role r w = elim (env.storage.put w.storage (role_prefix ++ r.name) (env.encode_role r)) [
    | none ↦ (w, some internal)
    | some s ↦ (record w { storage = s }, none)
  ]

  module _ (gate : Gate S) where
    -- `verifyRoleCapability`.
    unfoldable pub verify_role_capability : VultrRole → World S → World S × Option ErrorCode
    verify_role_capability r w =
        let (w', owner) = owner_instance_id env w in
        let sets = w'.backend.minter_sets in
        elim owner [
          | none ↦ (w', some internal)
          | some id ↦
              let (p, code) =
                verify_role gate w'.storage (machines_by_id sets) r.minter_set
                  (env.encode_role r) in
              (
                record (with_minter_sets env (return_machines p.states sets) w') {
                  storage = p.storage;
                },
                code,
              )
        ]

    -- `pathRoleWrite`: `none` is success.
    unfoldable pub role_write : Text → RoleFields → World S → World S × Option ErrorCode
    role_write name d w = elim (prefill_role_write w.storage name d) [
      | none ↦ (w, some internal)
      | some filled ↦
          let r = assemble name filled in
          elim (check_role r w.storage) [
            | some code ↦ (w, some code)
            | none ↦
                let (w', refusal) = verify_role_capability r w in
                elim refusal [ some code ↦ (w', some code) | none ↦ save_role r w' ]
          ]
    ]

  -- `pathRoleRead`: `none` is an error, `some none` a role that does not exist.
  unfoldable pub role_read : Text → S → Option (Option RoleFields)
  role_read name s = elim (env.storage.get s (role_prefix ++ name)) [
    | none ↦ none
    | some none ↦ some none
    | some (some v) ↦ elim (env.decode_role v) [ none ↦ none | some r ↦ some (some (role_data r)) ]
  ]

  -- `pathRoleDelete`, with `false` on an error.
  unfoldable pub role_delete : Text → S → S × Bool
  role_delete name s = elim (env.storage.delete s (role_prefix ++ name)) [
    | none ↦ (s, false)
    | some t ↦ (t, true)
  ]
