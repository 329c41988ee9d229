-- ===== src/Vultr/Reclaim.antt =====
-- plugins/credential-vultr/reconciler_integration.go, workers.go and path_reconcile.go: what the reconciler
-- lists and deletes on this cloud.
--
-- The users of the account are an argument, or the error of the listing.
use openbao_cloud_creds.Base.{
  ℕ, max, Text, text, text_eq, map, List, [], ◌∷◌, Option, none, some, ◌⊎◌, inl, inr, false, ◌||◌,
  ◌&&◌, not, ◌==◌, ◌++◌, if◌then◌else◌,
}
use openbao_cloud_creds.Errors.{
  ErrorCode, config_invalid, upstream_auth_failed, internal, Link, classify,
}
use openbao_cloud_creds.Ownership.{owns}
use openbao_cloud_creds.Ledger
use openbao_cloud_creds.Ledger.{created_at}
use openbao_cloud_creds.Reconciler.{UpstreamEntity, Config, Deleter, Pass, run}
use openbao_cloud_creds.Vultr.{active_prefix, Call, delete_user, World, Env}
use openbao_cloud_creds.Vultr.Pool.{any_healthy_minter}
use openbao_cloud_creds.Vultr.Creds.{owner_instance_id}

-- `userInfo`.
pub record UserInfo : Type 0 where
  pub id : Text
  pub name : Text

-- `MinConfirmationHold` and `WorkerConfirmationHold`: five minutes and an hour.
abbrev pub min_confirmation_hold : ℕ
min_confirmation_hold = 300_000_000_000

abbrev pub worker_confirmation_hold : ℕ
worker_confirmation_hold = 3_600_000_000_000

-- The answer of `ListUsers`.
abbrev pub Users : Type 0
Users = List UserInfo ⊎ List Link

-- The code of a pass that fails: the listing's error, or one of the storage.
unfoldable pub failure : Users → ErrorCode
failure (inl users) = internal
failure (inr err) = classify 0 (some err)

module _ {S : Type 0} (env : Env S) where
  -- The loop of `ListTaggedEntities`.
  unfoldable pub tagged_entities : S → Text → List UserInfo → List UpstreamEntity
  tagged_entities s owner [] = []
  tagged_entities s owner (u ∷ users) =
      let rest = tagged_entities s owner users in
      if owns owner u.name
      then record {
        id = u.id;
        name = u.name;
        created_at = created_at env.storage env.raw s u.id;
        expires_at = 0;
      }
        ∷ rest
      else rest

  unfoldable pub list_tagged_entities : S → Text → Users → Option (List UpstreamEntity)
  list_tagged_entities s owner (inr err) = none
  list_tagged_entities s owner (inl users) = some (tagged_entities s owner users)

  -- `OwnedIDs`.
  unfoldable pub owned_ids : S → Option (List Text)
  owned_ids s = env.storage.list s active_prefix

  -- `DeleteEntity`, after the calls made before the pass and the deletions of it.
  unfoldable pub delete_entity : Text → List Call → Deleter
  delete_entity token before asked e =
      let (status, failed, err) =
        env.delete (before ++ map (λ x. delete_user token x.id) asked) (delete_user token e.id) in
      not (failed && not (status == 404))

  unfoldable pub run_pass :
      Config → Text → Text → Users → ℕ → World S → World S × (Pass ⊎ ErrorCode)
  run_pass cfg token owner users now w =
      let listed = list_tagged_entities w.storage owner users in
      elim (run (delete_entity token w.calls) cfg now listed (owned_ids w.storage)) [
        | none ↦ (w, inr (failure users))
        | some p ↦
            (record w { calls = w.calls ++ map (λ x. delete_user token x.id) p.calls }, inl p)
      ]

  -- What a worker's pass and a manual one share: a healthy minter is asked, for entities of this mount alone.
  unfoldable pub reconcile : Config → Users → ℕ → World S → World S × (Pass ⊎ ErrorCode)
  reconcile cfg users now w = elim (any_healthy_minter now w.backend.minter_sets) [
    | none ↦ (w, inr upstream_auth_failed)
    | some token ↦
        let (w', owner) = owner_instance_id env w in
        elim owner [ none ↦ (w', inr internal) | some id ↦ run_pass cfg token id users now w' ]
  ]

  -- `reconcileWorker`, after its sweep of the cache: a pass, and then the pruning of the ledger.
  unfoldable pub reconcile_worker : ℕ → Users → ℕ → World S → World S × (Pass ⊎ ErrorCode)
  reconcile_worker max_deletes users now w =
      let cfg : Config = record {
        max_deletes_per_pass = max_deletes;
        confirmation_hold = worker_confirmation_hold;
        dry_run = false;
      } in
      let (w', result) = reconcile cfg users now w in
      elim result [
        | inr code ↦ (w', inr code)
        | inl p ↦ elim (Ledger.prune env.storage env.raw now w'.storage) [
          | none ↦ (w', inl p)
          | some (s, pruned) ↦ (record w' { storage = s }, inl p)
        ]
      ]

  -- `pathReconcile`; a hold that is asked for is raised to the minimum.
  unfoldable pub path_reconcile : Text → ℕ → ℕ → Users → ℕ → World S → World S × (Pass ⊎ ErrorCode)
  path_reconcile mode hold max_deletes users now w =
      if not (text_eq mode (text "normal") || text_eq mode (text "dry_run"))
      then (w, inr config_invalid)
      else reconcile
          (record {
            max_deletes_per_pass = max_deletes;
            confirmation_hold = max hold min_confirmation_hold;
            dry_run = text_eq mode (text "dry_run");
          })
          users now w
