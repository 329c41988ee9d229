-- ===== src/Purge/Dispatch.antt =====
-- What the operator's call and the sweep may do to a mount.
use openbao_cloud_creds.Base.{
  ℕ, ◌≡◌, refl, ◌≢◌, ◌⊎◌, inl, inr, Text, text_eq, text_eq_iff, List, [], ◌∷◌, Option, none, some,
  Option-cases, true, Bool-cases,
}
use openbao_cloud_creds.Storage.{Storage}
use openbao_cloud_creds.Purge.{Intent, scan}
use openbao_cloud_creds.Purge.Intents.{load_intent}
use openbao_cloud_creds.Purge.Endpoint.{
  mode_normal, mode_dry_run, Target, Resolver, write_dry_run, write, sweep_role, sweep_roles,
}

write_dry_run-inert :
    {S : Type 0} (st : Storage S) (resolve : Resolver S) (m : ℕ) (s : S) (role : Text)
    (target : Target) (now : ℕ)
    → let h = write_dry_run st resolve m s role target now in (h.storage ≡ s) × (h.calls ≡ [])
unfolding write_dry_run
write_dry_run-inert st resolve m s role target now =
    elim (Option-cases (scan st s target.prefix role now)) [
      | inl e ↦ rw (e, write_dry_run) (refl, refl)
      | inr (rs, e) ↦ rw (e, write_dry_run) (refl, refl)
    ]

resolved : {A B : Type 0} (x : A ⊎ B) → ((a : A) × (x ≡ inl a)) ⊎ ((b : B) × (x ≡ inr b))
resolved (inl a) = inl (a, refl)
resolved (inr b) = inr (b, refl)

-- A call in any mode but the normal one, a dry run or a mode that is not known, deletes nothing upstream and
-- leaves the storage as it was.
pub write-inert :
    {S : Type 0} (st : Storage S) (resolve : Resolver S) (max_deletes : ℕ) (s : S)
    (role mode : Text) (now : ℕ)
    → mode ≢ mode_normal
    → let h = write st resolve max_deletes s role mode now in (h.storage ≡ s) × (h.calls ≡ [])
unfolding write
write-inert st resolve m s role mode now d = elim (Bool-cases (text_eq mode mode_normal)) [
  | inl e ↦ absurd (d ((text_eq_iff mode mode_normal).0 e))
  | inr e ↦ elim (Bool-cases (text_eq mode mode_dry_run)) [
    | inr f ↦ rw (e, f, write) (refl, refl)
    | inl f ↦ elim (resolved (resolve s role)) [
      | inl (t, g) ↦ rw (write, e, f, g, f) (write_dry_run-inert st resolve m s role t now)
      | inr (c, g) ↦ rw (write, e, f, g) (refl, refl)
    ]
  ]
]

sweep_role-idle :
    {S : Type 0} (st : Storage S) (resolve : Resolver S) (m : ℕ) (s : S) (role : Text)
    (l : Option (Option Intent))
    → load_intent st s role ≡ l
    → ((i : Intent) → l ≡ some (some i) → i.complete ≡ true)
    → sweep_role st resolve m s role ≡ (s, [])
unfolding sweep_role
sweep_role-idle st resolve m s role none e h = rw (e, sweep_role) refl
sweep_role-idle st resolve m s role (some none) e h = rw (e, sweep_role) refl
sweep_role-idle st resolve m s role (some (some i)) e h = simp (e, sweep_role, h i refl)

-- A sweep leaves every role alone whose intents are all missing, unreadable or complete: it deletes nothing
-- upstream and writes nothing.
pub sweep_roles-idle :
    {S : Type 0} (st : Storage S) (resolve : Resolver S) (max_deletes : ℕ) (s : S)
    (roles : List Text)
    → ((role : Text) (i : Intent) → load_intent st s role ≡ some (some i) → i.complete ≡ true)
    → sweep_roles st resolve max_deletes s roles ≡ (s, [])
unfolding sweep_roles
sweep_roles-idle st resolve m s [] h = refl
sweep_roles-idle st resolve m s (role ∷ roles) h =
    rw
      (
        sweep_roles,
        sweep_role-idle st resolve m s role (load_intent st s role) refl (λ i e. h role i e),
        sweep_roles-idle st resolve m s roles h,
      )
      refl
