-- ===== src/Vultr/Creds.antt =====
-- plugins/credential-vultr/path_creds.go: a credential is read, renewed and revoked.
use openbao_cloud_creds.Base.{
  ℕ, ◌+◌, ◌*◌, ◌/◌, ◌++◌, Text, text, is_empty, take, List, [], ◌∷◌, Option, none, some, ◌⊎◌, inl,
  inr, Bool, true, false, ◌&&◌, not, ◌==◌, if◌then◌else◌,
}
use openbao_cloud_creds.Errors.{ErrorCode, role_not_found, role_disabled, internal, classify}
use openbao_cloud_creds.Storage.{str, stamp, Fields, object}
use openbao_cloud_creds.Caller.{Request}
use openbao_cloud_creds.Caller.Lineage
use openbao_cloud_creds.Caller.Lineage.{Lineage, stamp_lineage}
use openbao_cloud_creds.Caller.Requester
use openbao_cloud_creds.Caller.Requester.{stamp_identity}
use openbao_cloud_creds.Capacity
use openbao_cloud_creds.Affinity.{key_from_request}
use openbao_cloud_creds.Ownership.{instance_id, mount_prefix}
use openbao_cloud_creds.Ledger.{note_mint, second}
use openbao_cloud_creds.Envelope.{
  bearer_token, require_credential_kind, acl, Envelope, new_envelope,
}
use openbao_cloud_creds.Vultr.{
  active_prefix, VultrRole, MinterSets, create_user, delete_user, created, create_failed, World,
  Env,
}
use openbao_cloud_creds.Vultr.Pool.{
  SelectedMinter, select_minter, record_minter_success, record_minter_error, get_minter,
  any_healthy_minter_in_set,
}

-- What a request for a credential states.
pub record CredsRequest : Type 0 where
  pub role_name : Text
  pub credential_kind : Text
  pub shard_key : Option Text
  pub request_id : Text
  pub caller : Request

-- The lease's internal data and times.
pub record Lease : Type 0 where
  pub upstream_user_id : Text
  pub role : Text
  pub minter_set : Text
  pub minter_id : Text
  pub ttl : ℕ
  pub max_ttl : ℕ

-- The answer to a request: the code of an error response, or an envelope under a lease.
pub data Reply : Type 0 where
  refused : ErrorCode → Reply
  issued : Envelope → Lease → Reply

abbrev pub lease_short_id_len : ℕ
lease_short_id_len = 8

unfoldable pub email_domain_for : VultrRole → Text
email_domain_for role =
    if is_empty role.email_domain then text "managed.local" else role.email_domain

-- `buildUserIdentity`: the name and the email.
unfoldable pub build_user_identity : Text → Text → Text → VultrRole → Text × Text
build_user_identity owner_prefix role_name lease_id role =
    let name = owner_prefix ++ (role_name ++ (text "-" ++ take lease_short_id_len lease_id)) in
    (name, name ++ (text "@" ++ email_domain_for role))

-- `strings.Join`.
unfoldable pub join : Text → List Text → Text
join sep [] = []
join sep (s ∷ []) = s
join sep (s ∷ rest) = s ++ (sep ++ join sep rest)

unfoldable pub build_envelope : VultrRole → Text → Text → Text → SelectedMinter → ℕ → Envelope
build_envelope role role_name user_id api_key sel expires_at = new_envelope (record {
  cloud = text "vultr";
  role = role_name;
  credential = (text "api_key", api_key) ∷ [];
  expires_at = expires_at;
  ttl_seconds = role.default_ttl / second;
  renewable = true;
  credential_id = user_id;
  scope = join (text ",") role.acls;
  scope_kind = acl;
  credential_kind = bearer_token;
  issued_by = text "cloud-creds-vultr/v0.1";
  minter_set = sel.set_id;
  minter_id = sel.minter_id;
})

-- A time that `time.RFC3339` renders has whole seconds.
abbrev pub whole : ℕ → ℕ
whole t = t / second * second

unfoldable pub tracking_record : Text → Text → ℕ → Request → Lineage → Fields
tracking_record role_name minter_id now caller found =
    stamp_lineage
      (stamp_identity
        ((text "role", str role_name)
          ∷ (text "minter", str minter_id)
          ∷ (text "created", stamp (whole now))
          ∷ [])
        (some caller))
      found

module _ {S : Type 0} (env : Env S) where
  -- `loadRole`.
  unfoldable pub load_role : S → Text → VultrRole ⊎ ErrorCode
  load_role s name = elim (env.storage.get s (text "roles/" ++ name)) [
    | none ↦ inr internal
    | some none ↦ inr role_not_found
    | some (some v) ↦ elim (env.decode_role v) [
      | none ↦ inr internal
      | some role ↦ if role.disabled then inr role_disabled else inl role
    ]
  ]

  -- The end of `admit`: the caller's parent, and the outstanding credentials.
  unfoldable pub admit_caller :
      CredsRequest → World S → VultrRole → (VultrRole × Lineage × Capacity.State) ⊎ ErrorCode
  admit_caller req w role =
      let (found, refusal) =
        Lineage.enforce (some req.caller) env.view role.require_caller_lineage in
      elim refusal [
        | some code ↦ inr code
        | none ↦
            elim (Capacity.snapshot env.storage w.storage active_prefix
              w.backend.credential_limit) [
                | none ↦ inr internal
                | some capacity ↦ inl (role, found, capacity)
              ]
      ]

  -- What `pathCredsRead` asks before it selects a minter, in its order.
  unfoldable pub admit : CredsRequest → World S → (VultrRole × Lineage × Capacity.State) ⊎ ErrorCode
  admit req w = elim (require_credential_kind req.credential_kind bearer_token) [
    | some code ↦ inr code
    | none ↦ elim (load_role w.storage req.role_name) [
      | inr code ↦ inr code
      | inl role ↦ elim (Requester.enforce (some req.caller) role.require_caller_identity) [
        | some code ↦ inr code
        | none ↦ admit_caller req w role
      ]
    ]
  ]

  -- `ownerInstanceID`.
  unfoldable pub owner_instance_id : World S → World S × Option Text
  owner_instance_id w =
      if not (is_empty w.backend.instance_id)
      then (w, some w.backend.instance_id)
      else let (s, id) = instance_id env.storage env.raw env.random w.storage in
        elim id [
          | none ↦ (record w { storage = s }, none)
          | some id ↦
              (record w { storage = s; backend = record w.backend { instance_id = id } }, some id)
        ]

  -- `recordIssuedUser`, and the answer of `pathCredsRead`.
  unfoldable pub record_issued_user :
      CredsRequest
      → VultrRole
      → Lineage
      → SelectedMinter
      → ℕ
      → Text
      → Text
      → World S
      → World S × Reply
  record_issued_user req role found sel now user api_key w =
      let s = (note_mint env.storage env.raw user now w.storage).0 in
      let tracked = object (tracking_record req.role_name sel.minter_id now req.caller found) in
      elim (env.storage.put s (active_prefix ++ user) tracked) [
        | none ↦ (
          record w { storage = s; calls = w.calls ++ delete_user sel.token user ∷ [] },
          refused internal,
        )
        | some t ↦ (
          record w { storage = t },
          issued (build_envelope role req.role_name user api_key sel (now + role.default_ttl))
              (record {
                upstream_user_id = user;
                role = req.role_name;
                minter_set = sel.set_id;
                minter_id = sel.minter_id;
                ttl = role.default_ttl;
                max_ttl = role.max_ttl;
              }),
        )
      ]

  abbrev pub with_minter_sets : MinterSets → World S → World S
  with_minter_sets pool w = record w { backend = record w.backend { minter_sets = pool } }

  -- `pathCredsRead` from the call of `CreateUser` on.
  unfoldable pub create_credential :
      CredsRequest → VultrRole → Lineage → SelectedMinter → ℕ → Text → World S → World S × Reply
  create_credential req role found sel now owner w =
      let (name, email) =
        build_user_identity (mount_prefix owner) req.role_name req.request_id role in
      let call = create_user sel.token name email role.acls in
      let asked = record w { calls = w.calls ++ call ∷ [] } in
      let pool = w.backend.minter_sets in
      elim (env.create w.calls call) [
        | create_failed status err ↦ (
          with_minter_sets (record_minter_error env sel.set_id sel.minter_id status err now pool)
              asked,
          refused (classify status err),
        )
        | created user api_key ↦
            record_issued_user req role found sel now user api_key
              (with_minter_sets (record_minter_success sel.set_id sel.minter_id now pool) asked)
      ]

  -- From the call of `ownerPrefix` on.
  unfoldable pub serve :
      CredsRequest → VultrRole → Lineage → SelectedMinter → ℕ → World S → World S × Reply
  serve req role found sel now w =
      let (w', owner) = owner_instance_id w in
      elim owner [
        | none ↦ (w', refused internal)
        | some id ↦ create_credential req role found sel now id w'
      ]

  -- From the call of `selectMinter` on.
  unfoldable pub select_and_serve :
      CredsRequest → VultrRole → Lineage → Capacity.State → ℕ → World S → World S × Reply
  select_and_serve req role found capacity now w =
      let key = key_from_request (some req.caller) req.shard_key in
      let (pool, choice) =
        select_minter env role.minter_set key capacity now w.backend.minter_sets in
      elim choice [
        | inr code ↦ (with_minter_sets pool w, refused code)
        | inl sel ↦ serve req role found sel now (with_minter_sets pool w)
      ]

  -- `pathCredsRead`.
  unfoldable pub creds_read : CredsRequest → ℕ → World S → World S × Reply
  creds_read req now w = elim (admit req w) [
    | inr code ↦ (w, refused code)
    | inl (role, found, capacity) ↦ select_and_serve req role found capacity now w
  ]

  -- The client that a revocation uses: of the issuing minter, or else of any that is healthy in its set.
  unfoldable pub revoking_token : ℕ → Text → Text → MinterSets → Option Text
  revoking_token now set id pool = elim (get_minter set id pool) [
    | some token ↦ some token
    | none ↦ any_healthy_minter_in_set now set pool
  ]

  unfoldable pub forget : Text → S → S
  forget user s = elim (env.storage.delete s (active_prefix ++ user)) [ none ↦ s | some t ↦ t ]

  -- `pathCredsRevoke` from the call of `DeleteUser` on, whose error the cloud's 404 is not.
  unfoldable pub delete_credential : Text → Text → Text → Text → ℕ → World S → World S × Bool
  delete_credential token set id user now w =
      let call = delete_user token user in
      let (status, failed, err) = env.delete w.calls call in
      let asked = record w { calls = w.calls ++ call ∷ [] } in
      let pool = w.backend.minter_sets in
      if failed && not (status == 404)
      then (with_minter_sets (record_minter_error env set id status err now pool) asked, false)
      else let done = with_minter_sets (record_minter_success set id now pool) asked in
        (record done { storage = forget user w.storage }, true)

  -- `pathCredsRevoke`, with `false` on an error, after which OpenBao tries again. A field of the lease that is
  -- missing reads as the empty string.
  unfoldable pub creds_revoke : Text → Text → Text → ℕ → World S → World S × Bool
  creds_revoke user set id now w =
      if is_empty user then (w, true) else elim (revoking_token now set id w.backend.minter_sets) [
        | none ↦ (record w { storage = forget user w.storage }, true)
        | some token ↦ delete_credential token set id user now w
      ]
