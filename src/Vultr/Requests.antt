-- ===== src/Vultr/Requests.antt =====
-- Reading and revoking a credential change state machines only.
use openbao_cloud_creds.Base.{
  ℕ, ◌++◌, ◌≡◌, refl, sym, subst, inl, inr, Text, is_empty, some, Option-cases, Sum-cases,
  Bool-cases, ◌&&◌, ◌==◌, not,
}
use openbao_cloud_creds.Caller.Lineage.{Lineage}
use openbao_cloud_creds.Ownership.{mount_prefix, instance_id}
use openbao_cloud_creds.Ledger.{note_mint}
use openbao_cloud_creds.Affinity.{key_from_request}
use openbao_cloud_creds.Vultr.{
  active_prefix, VultrRole, MinterSets, World, Env, create_user, delete_user,
}
use openbao_cloud_creds.Storage.{object}
use openbao_cloud_creds.Vultr.Pool.{
  SelectedMinter, select_minter, record_minter_success, record_minter_error,
}
use openbao_cloud_creds.Vultr.Creds.{
  CredsRequest, tracking_record, build_user_identity, owner_instance_id, record_issued_user,
  create_credential, serve, select_and_serve, admit, creds_read, revoking_token, delete_credential,
  creds_revoke, with_minter_sets,
}
use openbao_cloud_creds.Vultr.Issuance.{Created-cases}
use openbao_cloud_creds.Vultr.Machines.{
  SameMinters, same, then_same, update_minter-same, select_minter-same,
}

-- The minter sets of a world.
abbrev pub held : {S : Type 0} → World S → MinterSets
held w = w.backend.minter_sets

record_minter_success-same :
    (set id : Text) (at : ℕ) (sets : MinterSets)
    → SameMinters sets (record_minter_success set id at sets)
unfolding record_minter_success
record_minter_success-same set id at sets = update_minter-same _ set id sets

module _ {S : Type 0} (env : Env S) where
  pub owner_instance_id-held : (w : World S) → held (owner_instance_id env w).0 ≡ held w
  unfolding owner_instance_id
  owner_instance_id-held w = elim (Bool-cases (is_empty w.backend.instance_id)) [
    | inr e ↦ rw (owner_instance_id, e) refl
    | inl e ↦ elim (Option-cases (instance_id env.storage env.raw env.random w.storage).1) [
      | inl f ↦ rw (owner_instance_id, e, f) refl
      | inr (id, f) ↦ rw (owner_instance_id, e, f) refl
    ]
  ]

  module _ (req : CredsRequest) (role : VultrRole) (found : Lineage) (sel : SelectedMinter)
      (now : ℕ) where
    record_issued_user-held :
        (user api_key : Text) (w : World S)
        → held (record_issued_user env req role found sel now user api_key w).0 ≡ held w
    unfolding record_issued_user
    record_issued_user-held user api_key w =
        let s = (note_mint env.storage env.raw user now w.storage).0 in
        let tracked = object (tracking_record req.role_name sel.minter_id now req.caller found) in
        elim (Option-cases (env.storage.put s (active_prefix ++ user) tracked)) [
          | inl e ↦ rw (record_issued_user, e) refl
          | inr (t, e) ↦ rw (record_issued_user, e) refl
        ]

    create_credential-same :
        (owner : Text) (w : World S)
        → SameMinters (held w) (held (create_credential env req role found sel now owner w).0)
    unfolding create_credential record_minter_error
    create_credential-same owner w =
        let (name, email) =
          build_user_identity (mount_prefix owner) req.role_name req.request_id role in
        let call = create_user sel.token name email role.acls in
        elim (Created-cases env (env.create w.calls call)) [
          | inl (status, err, e) ↦
              rw (create_credential, e) (update_minter-same _ sel.set_id sel.minter_id (held w))
          | inr (user, api_key, e) ↦
              rw (create_credential, e)
                (subst (SameMinters (held w)) (sym (record_issued_user-held user api_key _))
                  (record_minter_success-same sel.set_id sel.minter_id now (held w)))
        ]

    serve-same : (w : World S) → SameMinters (held w) (held (serve env req role found sel now w).0)
    unfolding serve
    serve-same w = elim (Option-cases (owner_instance_id env w).1) [
      | inl e ↦
          rw (serve, e)
            (subst (SameMinters (held w)) (sym (owner_instance_id-held w)) (same (held w)))
      | inr (id, e) ↦
          rw (serve, e)
            (let w' = (owner_instance_id env w).0 in
              subst
                (λ l. SameMinters l (held (create_credential env req role found sel now id w').0))
                (owner_instance_id-held w) (create_credential-same id w'))
    ]

  pub creds_read-same :
      (req : CredsRequest) (now : ℕ) (w : World S)
      → SameMinters (held w) (held (creds_read env req now w).0)
  unfolding creds_read select_and_serve
  creds_read-same req now w = elim (Sum-cases (admit env req w)) [
    | inr (code, e) ↦ rw (creds_read, e) (same (held w))
    | inl ((role, found, capacity), e) ↦
        let key = key_from_request (some req.caller) req.shard_key in
        let pick = select_minter env role.minter_set key capacity now (held w) in
        let chosen = select_minter-same env role.minter_set key capacity now (held w) in
        elim (Sum-cases pick.1) [
          | inr (code, f) ↦ rw (creds_read, e, select_and_serve, f) chosen
          | inl (sel, f) ↦
              rw (creds_read, e, select_and_serve, f)
                (then_same (held w) pick.0 _ chosen
                  (serve-same req role found sel now (with_minter_sets env pick.0 w)))
        ]
  ]

  pub creds_revoke-same :
      (user set id : Text) (now : ℕ) (w : World S)
      → SameMinters (held w) (held (creds_revoke env user set id now w).0)
  unfolding creds_revoke delete_credential record_minter_error
  creds_revoke-same user set id now w = elim (Bool-cases (is_empty user)) [
    | inl e ↦ rw (creds_revoke, e) (same (held w))
    | inr e ↦ elim (Option-cases (revoking_token env now set id (held w))) [
      | inl f ↦ rw (creds_revoke, e, f) (same (held w))
      | inr (token, f) ↦
          let answer = env.delete w.calls (delete_user token user) in
          elim (Bool-cases (answer.1 && not (answer.0 == 404))) [
            | inl g ↦
                rw (creds_revoke, e, f, delete_credential, g) (update_minter-same _ set id (held w))
            | inr g ↦
                rw (creds_revoke, e, f, delete_credential, g)
                  (record_minter_success-same set id now (held w))
          ]
    ]
  ]
