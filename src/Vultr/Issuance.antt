-- ===== src/Vultr/Issuance.antt =====
-- What becomes of a request for a credential, and of what the cloud has created for it.
use openbao_cloud_creds.Base.{
  ℕ, ◌+◌, ◌++◌, ◌≡◌, refl, sym, ap, subst, ◌∙◌, ◌⊎◌, inl, inr, Text, text, is_empty, List, [], ◌∷◌,
  none, some, Option-cases, Sum-cases, true, false, Bool-cases, has_prefix-append,
}
use openbao_cloud_creds.Errors.{ErrorCode, internal, role_disabled, classify, GoError}
use openbao_cloud_creds.Storage.{str, stamp, Fields, Value, object}
use openbao_cloud_creds.Caller.Lineage.{Lineage, stamp_lineage}
use openbao_cloud_creds.Caller.Lineage
use openbao_cloud_creds.Caller.Requester
use openbao_cloud_creds.Caller.Requester.{stamp_identity}
use openbao_cloud_creds.Capacity
use openbao_cloud_creds.Envelope.{Envelope, new_envelope, require_credential_kind, bearer_token}
use openbao_cloud_creds.Vultr.{
  active_prefix, VultrRole, Call, create_user, delete_user, Created, created, create_failed, World,
  Env,
}
use openbao_cloud_creds.Vultr.Pool.{SelectedMinter, select_minter}
use openbao_cloud_creds.Vultr.Owner.{IsOwner, owner_instance_id-IsOwner}
use openbao_cloud_creds.Affinity.{key_from_request}
use openbao_cloud_creds.Ledger.{note_mint}
use openbao_cloud_creds.Ownership.{mount_prefix, owns, instance_id}
use openbao_cloud_creds.Vultr.Creds.{
  whole, tracking_record, build_envelope, build_user_identity, load_role, admit_caller, admit,
  CredsRequest, Lease, Reply, refused, issued, owner_instance_id, record_issued_user,
  with_minter_sets, create_credential, serve, select_and_serve, creds_read,
}

module _ {S : Type 0} (env : Env S) where
  -- How a request ends, from the calls made before it, with the world after it and the answer. `Ask` is what
  -- stands behind the call of `CreateUser` and the fields of the record that is to track what it creates.
  pub data Outcome (Ask : Call → Fields → Type 0) (before : List Call) (after : World S)
      : Reply → Type 0 where
    -- The cloud was not asked for anything.
    turned_away :
        {code : ErrorCode} → after.calls ≡ before → Outcome Ask before after (refused code)
    -- The cloud created nothing.
    not_created :
        {call : Call} {fields : Fields} {status : ℕ} {err : GoError}
        → Ask call fields
        → after.calls ≡ before ++ call ∷ []
        → env.create before call ≡ create_failed status err
        → Outcome Ask before after (refused (classify status err))
    -- What the cloud created is handed out, and the last write tracked it.
    handed_out :
        {call : Call} {user api_key : Text} {s : S} {fields : Fields} {e : Envelope} {lease : Lease}
        → Ask call fields
        → after.calls ≡ before ++ call ∷ []
        → env.create before call ≡ created user api_key
        → env.storage.put s (active_prefix ++ user) (object fields) ≡ some after.storage
        → e.credential ≡ (text "api_key", api_key) ∷ []
        → (e.credential_id ≡ user) × (lease.upstream_user_id ≡ user)
        → Outcome Ask before after (issued e lease)
    -- What the cloud created could not be tracked: it is not handed out, and the minter that created it
    -- is asked to delete it.
    undone :
        {token name email user api_key : Text} {acls : List Text} {fields : Fields}
        → Ask (create_user token name email acls) fields
        → after.calls
          ≡ (before ++ create_user token name email acls ∷ []) ++ delete_user token user ∷ []
        → env.create before (create_user token name email acls) ≡ created user api_key
        → Outcome Ask before after (refused internal)

  Outcome-map :
      {Ask Ask' : Call → Fields → Type 0} {before : List Call} {after : World S} {reply : Reply}
      → ((call : Call) (fields : Fields) → Ask call fields → Ask' call fields)
      → Outcome Ask before after reply
      → Outcome Ask' before after reply
  Outcome-map f (turned_away p) = turned_away p
  Outcome-map f (not_created {call = call} {fields = fields} a p q) =
      not_created (f call fields a) p q
  Outcome-map f (handed_out {call = call} {fields = fields} a p q r k i) =
      handed_out (f call fields a) p q r k i
  Outcome-map f (undone {fields = fields} a p q) = undone (f _ fields a) p q

  pub Created-cases :
      (c : Created)
      → ((status : ℕ) × (err : GoError) × (c ≡ create_failed status err))
        ⊎ ((user : Text) × (api_key : Text) × (c ≡ created user api_key))
  Created-cases (create_failed status err) = inl (status, err, refl)
  Created-cases (created user api_key) = inr (user, api_key, refl)

  told :
      (role : VultrRole) (name user api_key : Text) (sel : SelectedMinter) (expires_at : ℕ)
      → let e = build_envelope role name user api_key sel expires_at in
        (e.credential ≡ (text "api_key", api_key) ∷ []) × (e.credential_id ≡ user)
  unfolding build_envelope new_envelope
  told role name user api_key sel expires_at = (refl, refl)

  owner_instance_id-calls : (w : World S) → (owner_instance_id env w).0.calls ≡ w.calls
  unfolding owner_instance_id
  owner_instance_id-calls w = elim (Bool-cases (is_empty w.backend.instance_id)) [
    | inr e ↦ rw (owner_instance_id, e) refl
    | inl e ↦ elim (Option-cases (instance_id env.storage env.raw env.random w.storage).1) [
      | inl f ↦ rw (owner_instance_id, e, f) refl
      | inr (id, f) ↦ rw (owner_instance_id, e, f) refl
    ]
  ]

  -- A sub-user with the role's ACLs, asked for with the chosen minter's token, under a name that carries the
  -- tag of this mount. The record that tracks it tells the role, the minter, the second of its creation, the
  -- caller, and the caller's parent as it was found.
  abbrev pub AsksFor :
      CredsRequest → VultrRole → Lineage → SelectedMinter → ℕ → World S → Call → Fields → Type 0
  AsksFor req role found sel now w call fields =
      (owner : Text) × (name : Text) × (email : Text) × (call
        ≡ create_user sel.token name email role.acls)
      × IsOwner env w owner
      × (owns owner name ≡ true)
      × (fields
          ≡ stamp_lineage
              (stamp_identity
                ((text "role", str req.role_name)
                  ∷ (text "minter", str sel.minter_id)
                  ∷ (text "created", stamp (whole now))
                  ∷ [])
                (some req.caller))
              found)

  owns-build_user_identity :
      (owner name lease : Text) (role : VultrRole)
      → owns owner (build_user_identity (mount_prefix owner) name lease role).0 ≡ true
  unfolding owns build_user_identity
  owns-build_user_identity owner name lease role = has_prefix-append (mount_prefix owner) _

  module _ (req : CredsRequest) (role : VultrRole) (found : Lineage) (sel : SelectedMinter)
      (now : ℕ) (w₀ : World S) where
    abbrev Ours : Call → Fields → Type 0
    Ours = AsksFor req role found sel now w₀

    abbrev tracked_by : Fields
    tracked_by = tracking_record req.role_name sel.minter_id now req.caller found

    record_issued_user-Outcome :
        (name email : Text) (user api_key : Text) (before : List Call) (w : World S)
        → w.calls ≡ before ++ create_user sel.token name email role.acls ∷ []
        → env.create before (create_user sel.token name email role.acls) ≡ created user api_key
        → Ours (create_user sel.token name email role.acls) tracked_by
        → let r = record_issued_user env req role found sel now user api_key w in
          Outcome Ours before r.0 r.1
    unfolding record_issued_user
    record_issued_user-Outcome name email user api_key before w asked made for =
        let s = (note_mint env.storage env.raw user now w.storage).0 in
        let tracked = object tracked_by in
        elim (Option-cases (env.storage.put s (active_prefix ++ user) tracked)) [
          | inl e ↦
              rw (record_issued_user, e)
                (undone for (ap (λ l. l ++ delete_user sel.token user ∷ []) asked) made)
          | inr (t, e) ↦
              let (key_of, id_of) =
                told role req.role_name user api_key sel (now + role.default_ttl) in
              rw (record_issued_user, e) (handed_out for asked made e key_of (id_of, refl))
        ]

    create_credential-Outcome :
        (owner : Text) (w : World S)
        → IsOwner env w₀ owner
        → let r = create_credential env req role found sel now owner w in
          Outcome Ours w.calls r.0 r.1
    unfolding create_credential tracking_record
    create_credential-Outcome owner w whose =
        let (name, email) =
          build_user_identity (mount_prefix owner) req.role_name req.request_id role in
        let call = create_user sel.token name email role.acls in
        let for : Ours call tracked_by = (
          owner,
          name,
          email,
          refl,
          whose,
          owns-build_user_identity owner req.role_name req.request_id role,
          refl,
        ) in
        elim (Created-cases (env.create w.calls call)) [
          | inl (status, err, e) ↦ rw (create_credential, e) (not_created for refl e)
          | inr (user, api_key, e) ↦
              rw (create_credential, e)
                (record_issued_user-Outcome name email user api_key w.calls _ refl e for)
        ]

    serve-Outcome :
        (w : World S)
        → ((owner : Text) → IsOwner env w owner → IsOwner env w₀ owner)
        → let r = serve env req role found sel now w in Outcome Ours w.calls r.0 r.1
    unfolding serve
    serve-Outcome w ours = elim (Option-cases (owner_instance_id env w).1) [
      | inl e ↦ rw (serve, e) (turned_away (owner_instance_id-calls w))
      | inr (id, e) ↦
          rw (serve, e)
            (let w' = (owner_instance_id env w).0 in
              let r = create_credential env req role found sel now id w' in
              subst (λ l. Outcome Ours l r.0 r.1) (owner_instance_id-calls w)
                (create_credential-Outcome id w' (ours id (owner_instance_id-IsOwner env w id e))))
    ]

  -- The role is stored under its name, and is not disabled.
  abbrev pub IsEnabled : S → Text → VultrRole → Type 0
  IsEnabled s name role =
      (v : Value) × (env.storage.get s (text "roles/" ++ name) ≡ some (some v))
      × (env.decode_role v ≡ some role)
      × (role.disabled ≡ false)

  load_role-IsEnabled :
      (s : S) (name : Text) (role : VultrRole)
      → load_role env s name ≡ inl role
      → IsEnabled s name role
  unfolding load_role
  load_role-IsEnabled s name role h =
      elim (Option-cases (env.storage.get s (text "roles/" ++ name))) [
        | inl e ↦ absurd (refused_role (rw (load_role, e) at h))
        | inr (none, e) ↦ absurd (refused_role (rw (load_role, e) at h))
        | inr (some v, e) ↦ elim (Option-cases (env.decode_role v)) [
          | inl f ↦ absurd (refused_role (rw (load_role, e, f) at h))
          | inr (r, f) ↦ elim (Bool-cases r.disabled) [
            | inl g ↦
                let q : load_role env s name ≡ inr role_disabled = simp (load_role, e, f, g) in
                absurd (refused_role (sym q ∙ h))
            | inr g ↦
                let q : load_role env s name ≡ inl r = simp (load_role, e, f, g) in
                let same : r ≡ role = loaded_role (sym q ∙ h) in
                (v, e, f ∙ ap some same, ap (λ x. x.disabled) (sym same) ∙ g)
          ]
        ]
      ]
    where
      refused_role :
          {code : ErrorCode} {r : VultrRole}
          → ◌≡◌ {A = VultrRole ⊎ ErrorCode} (inr code) (inl r)
          → ⊥
      refused_role q = cc

      loaded_role : {a b : VultrRole} → ◌≡◌ {A = VultrRole ⊎ ErrorCode} (inl a) (inl b) → a ≡ b
      loaded_role q = cc

  -- Who may have asked for a call of `CreateUser`, and what chose its minter.
  pub record Justified (req : CredsRequest) (now : ℕ) (w : World S) (call : Call) (fields : Fields)
      : Type 0 where
    pub role : VultrRole
    pub capacity : Capacity.State
    pub sel : SelectedMinter
    pub parsable : require_credential_kind req.credential_kind bearer_token ≡ none
    pub enabled : IsEnabled w.storage req.role_name role
    pub identified : Requester.enforce (some req.caller) role.require_caller_identity ≡ none
    pub parented : (Lineage.enforce (some req.caller) env.view role.require_caller_lineage).1 ≡ none
    pub counted :
        Capacity.snapshot env.storage w.storage active_prefix w.backend.credential_limit
        ≡ some capacity
    pub chosen :
        (select_minter env role.minter_set
          (key_from_request (some req.caller) req.shard_key)
          capacity
          now
          w.backend.minter_sets).1
        ≡ inl sel
    pub asks :
        AsksFor req role
          (Lineage.enforce (some req.caller) env.view role.require_caller_lineage).0
          sel
          now
          w
          call
          fields

  -- What `admit` has checked when it lets a request pass.
  abbrev Admitted : CredsRequest → World S → VultrRole → Lineage → Capacity.State → Type 0
  Admitted req w role found capacity =
      (require_credential_kind req.credential_kind bearer_token ≡ none)
      × (load_role env w.storage req.role_name ≡ inl role)
      × (Requester.enforce (some req.caller) role.require_caller_identity ≡ none)
      × ((Lineage.enforce (some req.caller) env.view role.require_caller_lineage).1 ≡ none)
      × (Capacity.snapshot env.storage w.storage active_prefix w.backend.credential_limit
          ≡ some capacity)
      × ((Lineage.enforce (some req.caller) env.view role.require_caller_lineage).0 ≡ found)

  abbrev Admission : Type 0
  Admission = VultrRole × Lineage × Capacity.State

  refusal :
      {code : ErrorCode} {a : Admission} → ◌≡◌ {A = Admission ⊎ ErrorCode} (inr code) (inl a) → ⊥
  refusal q = cc

  admission : {a b : Admission} → ◌≡◌ {A = Admission ⊎ ErrorCode} (inl a) (inl b) → a ≡ b
  admission q = cc

  admit_caller-Admitted :
      (req : CredsRequest) (w : World S) (r : VultrRole) {role : VultrRole} {found : Lineage}
      {capacity : Capacity.State}
      → admit_caller env req w r ≡ inl (role, found, capacity)
      → (r ≡ role)
        × ((Lineage.enforce (some req.caller) env.view r.require_caller_lineage).1 ≡ none)
        × (Capacity.snapshot env.storage w.storage active_prefix w.backend.credential_limit
            ≡ some capacity)
        × ((Lineage.enforce (some req.caller) env.view r.require_caller_lineage).0 ≡ found)
  unfolding admit_caller
  admit_caller-Admitted req w r h =
      let counted =
        Capacity.snapshot env.storage w.storage active_prefix w.backend.credential_limit in
      elim (Option-cases (Lineage.enforce (some req.caller) env.view r.require_caller_lineage).1) [
        | inr (code, e) ↦ absurd (refusal (rw (admit_caller, e) at h))
        | inl e ↦ elim (Option-cases counted) [
          | inl f ↦ absurd (refusal (rw (admit_caller, e, f) at h))
          | inr (c, f) ↦
              let q = admission (rw (admit_caller, e, f) at h) in
              (ap (λ a. a.0) q, e, f ∙ ap some (ap (λ a. a.2) q), ap (λ a. a.1) q)
        ]
      ]

  admit-Admitted :
      (req : CredsRequest) (w : World S) {role : VultrRole} {found : Lineage}
      {capacity : Capacity.State}
      → admit env req w ≡ inl (role, found, capacity)
      → Admitted req w role found capacity
  unfolding admit
  admit-Admitted req w h =
      elim (Option-cases (require_credential_kind req.credential_kind bearer_token)) [
        | inr (code, e) ↦ absurd (refusal (rw (admit, e) at h))
        | inl e ↦ elim (Sum-cases (load_role env w.storage req.role_name)) [
          | inr (code, f) ↦ absurd (refusal (rw (admit, e, f) at h))
          | inl (r, f) ↦
              elim (Option-cases (Requester.enforce (some req.caller) r.require_caller_identity)) [
                | inr (code, g) ↦ absurd (refusal (rw (admit, e, f, g) at h))
                | inl g ↦
                    let (q, k, c, l) = admit_caller-Admitted req w r (rw (admit, e, f, g) at h) in
                    (
                      e,
                      f ∙ ap inl q,
                      ap (λ x. Requester.enforce (some req.caller) x.require_caller_identity)
                            (sym q)
                          ∙ g,
                      ap
                            (λ x.
                              (Lineage.enforce (some req.caller) env.view
                                x.require_caller_lineage).1)
                            (sym q)
                          ∙ k,
                      c,
                      ap
                            (λ x.
                              (Lineage.enforce (some req.caller) env.view
                                x.require_caller_lineage).0)
                            (sym q)
                          ∙ l,
                    )
              ]
        ]
      ]

  select_and_serve-Outcome :
      (req : CredsRequest) (role : VultrRole) (found : Lineage) (capacity : Capacity.State)
      (now : ℕ) (w : World S)
      → Admitted req w role found capacity
      → let r = select_and_serve env req role found capacity now w in
        Outcome (Justified req now w) w.calls r.0 r.1
  unfolding select_and_serve
  select_and_serve-Outcome req role found capacity now w ok =
      let key = key_from_request (some req.caller) req.shard_key in
      let sets = w.backend.minter_sets in
      let pick = select_minter env role.minter_set key capacity now sets in
      elim (Sum-cases pick.1) [
        | inr (code, e) ↦ rw (select_and_serve, e) (turned_away refl)
        | inl (sel, e) ↦
            rw (select_and_serve, e)
              (Outcome-map
                (λ call fields asks. record {
                  role = role;
                  capacity = capacity;
                  sel = sel;
                  parsable = ok.0;
                  enabled = load_role-IsEnabled w.storage req.role_name role ok.1;
                  identified = ok.2;
                  parented = ok.3;
                  counted = ok.4;
                  chosen = e;
                  asks = subst (λ l. AsksFor req role l sel now w call fields) (sym ok.5) asks;
                })
                (serve-Outcome req role found sel now w (with_minter_sets env pick.0 w)
                  (λ owner whose. whose)))
      ]

-- A request for a credential that reaches the cloud is justified: the caller can parse what the mount serves, the
-- role exists and is enabled, its requirements on the caller's identity and parent are met, and the
-- minter is the one that is selected for the role's set. It then creates one sub-user with the role's
-- ACLs under a name that carries the tag of the mount's own instance id. What is created is handed out only
-- under a lease that names it and with its tracking record, which tells the role, the minter, the time and the caller,
-- as the last write, or else the same minter is asked to delete it. Every other request
-- asks the cloud for nothing.
pub creds_read-Outcome :
    {S : Type 0} (env : Env S) (req : CredsRequest) (now : ℕ) (w : World S)
    → let r = creds_read env req now w in Outcome env (Justified env req now w) w.calls r.0 r.1
unfolding creds_read
creds_read-Outcome env req now w = elim (Sum-cases (admit env req w)) [
  | inr (code, e) ↦ rw (creds_read, e) (turned_away refl)
  | inl ((role, found, capacity), e) ↦
      rw (creds_read, e)
        (select_and_serve-Outcome env req role found capacity now w (admit-Admitted env req w e))
]
