-- ===== src/Vultr/Spared.antt =====
-- Whom the reconciler leaves alone: it joins the owner tag, the tracking records, the ledger and the hold.
use openbao_cloud_creds.Base.{
  ℕ, ◌+◌, ◌≤◌, ◌<◌, max, ◌≡◌, refl, sym, ap, ◌∙◌, ◌≢◌, ◌⊎◌, inl, inr, Text, text, text_eq, List, [],
  ◌∷◌, some, Option-cases, true, ◌||◌, not, Bool-cases, All, arith,
}
use openbao_cloud_creds.Errors.{ErrorCode, Link}
use openbao_cloud_creds.Ownership.{owns}
use openbao_cloud_creds.Ledger.{created_at}
use openbao_cloud_creds.Reconciler.{UpstreamEntity, Config, Pass, run}
use openbao_cloud_creds.Reconciler.Orphans.{IsDeletable, run-calls-IsDeletable, run-listed}
use openbao_cloud_creds.Vultr.{active_prefix, World, Env}
use openbao_cloud_creds.Vultr.Pool.{any_healthy_minter}
use openbao_cloud_creds.Vultr.Creds.{owner_instance_id}
use openbao_cloud_creds.Vultr.Owner.{IsOwner, owner_instance_id-IsOwner}
use openbao_cloud_creds.Vultr.Reclaim.{
  UserInfo, min_confirmation_hold, tagged_entities, list_tagged_entities, owned_ids, Users,
  delete_entity, run_pass, reconcile, path_reconcile,
}

-- The entity may be deleted under a hold: its name carries the mount's tag, no tracking record is under its
-- id, and the ledger has had its mint for at least the hold.
abbrev pub IsReclaimable :
    {S : Type 0} → Env S → S → Text → List Text → ℕ → ℕ → UpstreamEntity → Type 0
IsReclaimable env s owner owned hold now e =
    (owns owner e.name ≡ true)
    × All (λ id. e.id ≢ id) owned
    × (created_at env.storage env.raw s e.id ≢ 0)
    × (created_at env.storage env.raw s e.id + hold ≤ now)

module _ {S : Type 0} (env : Env S) where
  -- What the listing says of an entity.
  abbrev Tagged : S → Text → UpstreamEntity → Type 0
  Tagged s owner e =
      (owns owner e.name ≡ true) × (e.created_at ≡ created_at env.storage env.raw s e.id)

  tagged_entities-Tagged :
      (s : S) (owner : Text) (users : List UserInfo)
      → All (Tagged s owner) (tagged_entities env s owner users)
  unfolding tagged_entities
  tagged_entities-Tagged s owner [] = tt
  tagged_entities-Tagged s owner (u ∷ users) = elim (Bool-cases (owns owner u.name)) [
    | inl e ↦ rw (tagged_entities, e) ((e, refl), tagged_entities-Tagged s owner users)
    | inr e ↦ rw (tagged_entities, e) (tagged_entities-Tagged s owner users)
  ]

  reclaimable :
      (cfg : Config) (s : S) (owner : Text) (owned : List Text) (hold now : ℕ)
      (es : List UpstreamEntity)
      → 0 < hold
      → hold ≤ cfg.confirmation_hold
      → All (Tagged s owner) es
      → All (IsDeletable cfg now owned) es
      → All (IsReclaimable env s owner owned hold now) es
  reclaimable cfg s owner owned hold now [] pos le h k = tt
  reclaimable cfg s owner owned hold now (e ∷ es) pos le h k = (
    (h.0.0, k.0.0, (held h.0.1 k.0.1).0, (held h.0.1 k.0.1).1),
    reclaimable cfg s owner owned hold now es pos le h.1 k.1,
  )
    where
      held :
          e.created_at ≡ created_at env.storage env.raw s e.id
          → (cfg.confirmation_hold ≡ 0)
            ⊎ ((e.created_at ≢ 0) × (e.created_at + cfg.confirmation_hold ≤ now))
          → (created_at env.storage env.raw s e.id ≢ 0)
            × (created_at env.storage env.raw s e.id + hold ≤ now)
      held q (inl z) = absurd (omega arith)
      held q (inr (n, l)) = (λ z. n (q ∙ z), omega arith)

  -- What a pass that ends well has deleted.
  abbrev Spares : World S → ℕ → ℕ → World S × (Pass ⊎ ErrorCode) → Type 0
  Spares before hold now r =
      (p : Pass)
      → r.1 ≡ inl p
      → (owner : Text) × (owned : List Text) × IsOwner env before owner
        × (env.storage.list r.0.storage active_prefix ≡ some owned)
        × All (IsReclaimable env r.0.storage owner owned hold now) p.calls

  failed : {code : ErrorCode} {p : Pass} → ◌≡◌ {A = Pass ⊎ ErrorCode} (inr code) (inl p) → ⊥
  failed q = cc

  passed : {p q : Pass} → ◌≡◌ {A = Pass ⊎ ErrorCode} (inl p) (inl q) → p ≡ q
  passed q = cc

  unlisted :
      (cfg : Config) (token owner : Text) (err : List Link) (now : ℕ) (w : World S) {p : Pass}
      → (run_pass env cfg token owner (inr err) now w).1 ≡ inl p
      → ⊥
  unfolding run_pass list_tagged_entities run
  unlisted cfg token owner err now w h = failed h

  run_pass-Spares :
      (cfg : Config) (token owner : Text) (users : Users) (hold now : ℕ) (before w : World S)
      → IsOwner env before owner
      → 0 < hold
      → hold ≤ cfg.confirmation_hold
      → Spares before hold now (run_pass env cfg token owner users now w)
  unfolding run_pass list_tagged_entities owned_ids
  run_pass-Spares cfg token owner (inr err) hold now before w whose pos le p h =
      absurd (unlisted cfg token owner err now w h)
  run_pass-Spares cfg token owner (inl users) hold now before w whose pos le p h =
      let cloud = delete_entity env token w.calls in
      let listed = tagged_entities env w.storage owner users in
      let registry = env.storage.list w.storage active_prefix in
      elim (Option-cases (run cloud cfg now (some listed) registry)) [
        | inl e ↦ absurd (failed (rw (run_pass, e) at h))
        | inr (q, e) ↦
            let same : q ≡ p = passed (rw (run_pass, e) at h) in
            let r = e ∙ ap some same in
            let (entities, owned, x, y, safe) =
              run-calls-IsDeletable cloud cfg now (some listed) registry p r in
            let tagged =
              run-listed cloud cfg now listed owned (Tagged w.storage owner) p
                (tagged_entities-Tagged w.storage owner users)
                (ap (run cloud cfg now (some listed)) (sym y) ∙ r) in
            (
              owner,
              owned,
              whose,
              rw (run_pass, e) y,
              rw (run_pass, e)
                  (reclaimable cfg w.storage owner owned hold now p.calls pos le tagged safe),
            )
      ]

  reconcile-Spares :
      (cfg : Config) (users : Users) (hold now : ℕ) (w : World S)
      → 0 < hold
      → hold ≤ cfg.confirmation_hold
      → Spares w hold now (reconcile env cfg users now w)
  unfolding reconcile
  reconcile-Spares cfg users hold now w pos le =
      elim (Option-cases (any_healthy_minter now w.backend.minter_sets)) [
        | inl e ↦ rw (reconcile, e) (λ p h. absurd (failed h))
        | inr (token, e) ↦ elim (Option-cases (owner_instance_id env w).1) [
          | inl f ↦ rw (reconcile, e, f) (λ p h. absurd (failed h))
          | inr (id, f) ↦
              rw (reconcile, e, f)
                (run_pass-Spares cfg token id users hold now w (owner_instance_id env w).0
                  (owner_instance_id-IsOwner env w id f) pos le)
        ]
      ]

-- Whatever hold an operator asks for, a manual pass asks the cloud to delete only users whose name carries
-- the tag of this mount's own instance id, under whose id no credential is tracked, and whose mint the ledger had recorded at
-- least five minutes ago: a user that the ledger does not know is never deleted, nor is one that was
-- minted just now.
pub path_reconcile-IsReclaimable :
    {S : Type 0} (env : Env S) (mode : Text) (hold max_deletes : ℕ) (users : Users) (now : ℕ)
    (w : World S) (p : Pass)
    → let r = path_reconcile env mode hold max_deletes users now w in
      r.1 ≡ inl p
      → (owner : Text) × (owned : List Text) × IsOwner env w owner
        × (env.storage.list r.0.storage active_prefix ≡ some owned)
        × All (IsReclaimable env r.0.storage owner owned min_confirmation_hold now) p.calls
unfolding path_reconcile
path_reconcile-IsReclaimable env mode hold max_deletes users now w p h =
    let cfg : Config = record {
      max_deletes_per_pass = max_deletes;
      confirmation_hold = max hold min_confirmation_hold;
      dry_run = text_eq mode (text "dry_run");
    } in
    elim (Bool-cases (not (text_eq mode (text "normal") || text_eq mode (text "dry_run")))) [
      | inl e ↦ absurd (failed env (rw (path_reconcile, e) at h))
      | inr e ↦
          rw (path_reconcile, e)
            (reconcile-Spares env cfg users min_confirmation_hold now w (omega arith) (omega arith)
              p (rw (path_reconcile, e) at h))
    ]
