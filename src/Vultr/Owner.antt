-- ===== src/Vultr/Owner.antt =====
-- Whose mount it is: the instance id that the owner tag carries.
use openbao_cloud_creds.Base.{
  ◌≡◌, sym, ◌∙◌, ◌⊎◌, inl, inr, Text, is_empty, none, some, Option-cases, true, false, Bool-cases,
}
use openbao_cloud_creds.Ownership.{instance_id}
use openbao_cloud_creds.Vultr.{World, Env}
use openbao_cloud_creds.Vultr.Creds.{owner_instance_id}

-- The instance id that the mount has in memory, or else the one that its storage holds or is given.
abbrev pub IsOwner : {S : Type 0} → Env S → World S → Text → Type 0
IsOwner env w owner =
    ((is_empty w.backend.instance_id ≡ false) × (owner ≡ w.backend.instance_id))
    ⊎ ((is_empty w.backend.instance_id ≡ true)
        × ((instance_id env.storage env.raw env.random w.storage).1 ≡ some owner))

pub owner_instance_id-IsOwner :
    {S : Type 0} (env : Env S) (w : World S) (owner : Text)
    → (owner_instance_id env w).1 ≡ some owner
    → IsOwner env w owner
unfolding owner_instance_id
owner_instance_id-IsOwner env w owner h = elim (Bool-cases (is_empty w.backend.instance_id)) [
  | inr e ↦ inl (e, sym (taken (rw (owner_instance_id, e) at h)))
  | inl e ↦ elim (Option-cases (instance_id env.storage env.raw env.random w.storage).1) [
    | inl f ↦ absurd (never (rw (owner_instance_id, e, f) at h))
    | inr (id, f) ↦ inr (e, f ∙ rw (owner_instance_id, e, f) at h)
  ]
]
  where
    taken : {a b : Text} → some a ≡ some b → a ≡ b
    taken q = cc

    never : {a : Text} → none ≡ some a → ⊥
    never q = cc
