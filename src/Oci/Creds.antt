-- ===== src/Oci/Creds.antt =====
-- plugins/credential-oci/path_creds.go: the freshest slot of a role is served.
use openbao_cloud_creds.Base.{
  ℕ, ◌+◌, ◌-◌, ◌*◌, ◌/◌, ◌++◌, Text, text, [], ◌∷◌, none, some, ◌⊎◌, inl, inr, false, ◌&&◌, ltb,
  if◌then◌else◌,
}
use openbao_cloud_creds.Errors.{ErrorCode, role_not_found, role_disabled, internal, pool_exhausted}
use openbao_cloud_creds.Caller.{Request}
use openbao_cloud_creds.Caller.Lineage
use openbao_cloud_creds.Caller.Requester
use openbao_cloud_creds.Envelope.{
  oci_auth_token, require_credential_kind, identity, Envelope, new_envelope,
}
use openbao_cloud_creds.Ledger.{second}
use openbao_cloud_creds.Oci.{Slot, OciRole, Env}
use openbao_cloud_creds.Oci.Slots.{freshest_slot, load_all_slots}

pub record CredsRequest : Type 0 where
  pub role_name : Text
  pub credential_kind : Text
  pub caller : Request

-- The lease's internal data and times.
pub record Lease : Type 0 where
  pub role : Text
  pub slot_index : ℕ
  pub token_id : Text
  pub minter_set : Text
  pub minter_id : Text
  pub ttl : ℕ
  pub max_ttl : ℕ

pub data Reply : Type 0 where
  refused : ErrorCode → Reply
  issued : Envelope → Lease → Reply

-- The seconds that a slot is served for: those to its rotation, or the role's if they are fewer.
unfoldable pub ttl_seconds : OciRole → Slot → ℕ → ℕ
ttl_seconds role best now =
    let remaining = (best.next_rotation_at - now) / second in
    let default = role.default_ttl / second in
    if ltb 0 default && ltb default remaining then default else remaining

unfoldable pub serve_slot : OciRole → Text → Slot → ℕ → Reply
serve_slot role role_name best now =
    let ttl = ttl_seconds role best now in
    issued
      (new_envelope (record {
        cloud = text "oci";
        role = role_name;
        credential = (text "auth_token", best.token_value) ∷ (text "user_id", role.user_ocid) ∷ [];
        expires_at = now + ttl * second;
        ttl_seconds = ttl;
        renewable = false;
        credential_id = best.token_id;
        scope = role.user_ocid;
        scope_kind = identity;
        credential_kind = oci_auth_token;
        issued_by = text "cloud-creds-oci/v0.1";
        minter_set = best.minter_set;
        minter_id = best.minter_id;
      }))
      (record {
        role = role_name;
        slot_index = best.slot_index;
        token_id = best.token_id;
        minter_set = best.minter_set;
        minter_id = best.minter_id;
        ttl = ttl * second;
        max_ttl = role.max_ttl;
      })

module _ {S : Type 0} (env : Env S) where
  -- `loadIssuableRole`.
  unfoldable pub load_issuable_role : S → Text → OciRole ⊎ ErrorCode
  load_issuable_role s name = elim (env.storage.get s (text "roles/" ++ name)) [
    | none ↦ inr internal
    | some none ↦ inr role_not_found
    | some (some v) ↦ elim (env.decode_role v) [
      | none ↦ inr internal
      | some role ↦ if role.disabled then inr role_disabled else inl role
    ]
  ]

  -- `pathCredsRead` from the loading of the slots on.
  unfoldable pub serve_freshest : CredsRequest → OciRole → ℕ → S → Reply
  serve_freshest req role now s = elim (load_all_slots env s req.role_name role.slot_count) [
    | none ↦ refused internal
    | some slots ↦ elim (freshest_slot slots now) [
      | none ↦ refused pool_exhausted
      | some best ↦ serve_slot role req.role_name best now
    ]
  ]

  -- `pathCredsRead`, which changes nothing.
  unfoldable pub creds_read : CredsRequest → ℕ → S → Reply
  creds_read req now s = elim (require_credential_kind req.credential_kind oci_auth_token) [
    | some code ↦ refused code
    | none ↦ elim (load_issuable_role s req.role_name) [
      | inr code ↦ refused code
      | inl role ↦ elim (Requester.enforce (some req.caller) role.require_caller_identity) [
        | some code ↦ refused code
        | none ↦ elim (Lineage.enforce (some req.caller) env.view role.require_caller_lineage).1 [
          | some code ↦ refused code
          | none ↦ serve_freshest req role now s
        ]
      ]
    ]
  ]
