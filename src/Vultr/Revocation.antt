-- ===== src/Vultr/Revocation.antt =====
-- What a revocation asks for, and when it drops the tracking record.
use mathlib.Core.List.{Memᴰ}
use openbao_cloud_creds.Base.{
  ℕ, ◌++◌, ◌≡◌, refl, sym, ◌∙◌, ◌≢◌, ◌⊎◌, inl, inr, Text, text_eq, text_eq_iff, is_empty, [], ◌∷◌,
  Option, none, some, Option-cases, Bool, true, false, Bool-cases, ◌==◌, ==_iff, find_key, subst,
  All, arith,
}
use openbao_cloud_creds.Errors.{GoError}
use openbao_cloud_creds.Recovery.{selectable}
use openbao_cloud_creds.Storage.{Value, Laws}
use openbao_cloud_creds.Vultr.{
  active_prefix, delete_user, MinterState, MinterStates, MinterSets, World, Env,
}
use openbao_cloud_creds.Vultr.Pool.{get_minter, any_healthy, any_healthy_minter_in_set}
use openbao_cloud_creds.Vultr.Creds.{forget, revoking_token, delete_credential, creds_revoke}

-- The cloud deleted the user, or does not know it.
abbrev pub IsGone : ℕ × Bool × GoError → Type 0
IsGone (status, failed, err) = (failed ≡ false) ⊎ (status ≡ 404)

abbrev pub Remains : ℕ × Bool × GoError → Type 0
Remains (status, failed, err) = (failed ≡ true) × (status ≢ 404)

-- The minter of the lease is held under its set and id, with its token.
abbrev pub IsIssuer : Text → Text → MinterSets → Text → Type 0
IsIssuer set id sets token =
    (states : MinterStates) × (ms : MinterState) × (find_key set sets ≡ some states)
    × (find_key id states ≡ some ms)
    × (ms.minter.token ≡ token)

-- No minter is held under the set and the id.
abbrev pub IsUnknown : Text → Text → MinterSets → Type 0
IsUnknown set id sets =
    (find_key set sets ≡ none)
    ⊎ ((states : MinterStates) × (find_key set sets ≡ some states) × (find_key id states ≡ none))

-- A minter that is held in the set, not retired and selectable, has the token.
abbrev pub IsHealthy : ℕ → Text → MinterSets → Text → Type 0
IsHealthy now set sets token =
    (states : MinterStates) × (id : Text) × (ms : MinterState) × (find_key set sets ≡ some states)
    × Memᴰ (id, ms) states
    × (ms.minter.retired ≡ false)
    × (selectable now ms.sm ≡ true)
    × (ms.minter.token ≡ token)

-- Each minter that is held in the set is retired or cannot be selected.
abbrev pub AllUnhealthy : ℕ → Text → MinterSets → Type 0
AllUnhealthy now set sets =
    (states : MinterStates)
    → find_key set sets ≡ some states
    → All (λ x. (x.1.minter.retired ≡ true) ⊎ (selectable now x.1.sm ≡ false)) states

-- The token by which a revocation asks: the issuing minter's, or, where that minter is gone, a healthy one's
-- of its set.
abbrev pub Asks : ℕ → Text → Text → MinterSets → Text → Type 0
Asks now set id sets token =
    IsIssuer set id sets token ⊎ (IsUnknown set id sets × IsHealthy now set sets token)

pub get_minter-cases :
    (set id : Text) (sets : MinterSets)
    → ((token : Text) × (get_minter set id sets ≡ some token) × IsIssuer set id sets token)
      ⊎ ((get_minter set id sets ≡ none) × IsUnknown set id sets)
unfolding get_minter
get_minter-cases set id sets = elim (Option-cases (find_key set sets)) [
  | inl e ↦ inr (rw (get_minter, e) refl, inl e)
  | inr (states, e) ↦ elim (Option-cases (find_key id states)) [
    | inl f ↦ inr (rw (get_minter, e, f) refl, inr (states, e, f))
    | inr (ms, f) ↦ inl (ms.minter.token, rw (get_minter, e, f) refl, (states, ms, e, f, refl))
  ]
]

taken : {a b : Text} → some a ≡ some b → a ≡ b
taken q = cc

never : {a : Text} → none ≡ some a → ⊥
never q = cc

-- A minter of the list that is not retired and selectable has the token.
abbrev HasHealthy : ℕ → MinterStates → Text → Type 0
HasHealthy now states token =
    (id : Text) × (ms : MinterState) × Memᴰ (id, ms) states
    × (ms.minter.retired ≡ false)
    × (selectable now ms.sm ≡ true)
    × (ms.minter.token ≡ token)

HasHealthy-cons :
    (now : ℕ) (x : Text × MinterState) (states : MinterStates) (token : Text)
    → HasHealthy now states token
    → HasHealthy now (x ∷ states) token
HasHealthy-cons now x states token (id, ms, m, live, free, same) =
    (id, ms, Memᴰ.tail m, live, free, same)

any_healthy-some :
    (now : ℕ) (states : MinterStates) (token : Text)
    → any_healthy now states ≡ some token
    → HasHealthy now states token
unfolding any_healthy
any_healthy-some now [] token h = absurd (never h)
any_healthy-some now ((id, ms) ∷ states) token h = elim (Bool-cases ms.minter.retired) [
  | inl e ↦
      HasHealthy-cons now (id, ms) states token
        (any_healthy-some now states token (rw (any_healthy, e) at h))
  | inr e ↦ elim (Bool-cases (selectable now ms.sm)) [
    | inl f ↦ (id, ms, Memᴰ.head refl, e, f, taken (rw (any_healthy, e, f) at h))
    | inr f ↦
        HasHealthy-cons now (id, ms) states token
          (any_healthy-some now states token (rw (any_healthy, e, f) at h))
  ]
]

any_healthy-none :
    (now : ℕ) (states : MinterStates)
    → any_healthy now states ≡ none
    → All (λ x. (x.1.minter.retired ≡ true) ⊎ (selectable now x.1.sm ≡ false)) states
unfolding any_healthy
any_healthy-none now [] h = tt
any_healthy-none now ((id, ms) ∷ states) h = elim (Bool-cases ms.minter.retired) [
  | inl e ↦ (inl e, any_healthy-none now states (rw (any_healthy, e) at h))
  | inr e ↦ elim (Bool-cases (selectable now ms.sm)) [
    | inl f ↦ absurd (never (sym (rw (any_healthy, e, f) at h)))
    | inr f ↦ (inr f, any_healthy-none now states (rw (any_healthy, e, f) at h))
  ]
]

any_healthy_minter_in_set-some :
    (now : ℕ) (set : Text) (sets : MinterSets) (token : Text)
    → any_healthy_minter_in_set now set sets ≡ some token
    → IsHealthy now set sets token
unfolding any_healthy_minter_in_set
any_healthy_minter_in_set-some now set sets token h = elim (Option-cases (find_key set sets)) [
  | inl e ↦ absurd (never (rw (any_healthy_minter_in_set, e) at h))
  | inr (states, e) ↦
      let (id, ms, m, live, free, same) =
        any_healthy-some now states token (rw (any_healthy_minter_in_set, e) at h) in
      (states, id, ms, e, m, live, free, same)
]

any_healthy_minter_in_set-none :
    (now : ℕ) (set : Text) (sets : MinterSets)
    → any_healthy_minter_in_set now set sets ≡ none
    → AllUnhealthy now set sets
unfolding any_healthy_minter_in_set
any_healthy_minter_in_set-none now set sets h states e =
    any_healthy-none now states (rw (any_healthy_minter_in_set, e) at h)

revoking_token-Asks :
    {S : Type 0} (env : Env S) (now : ℕ) (set id : Text) (sets : MinterSets) (token : Text)
    → revoking_token env now set id sets ≡ some token
    → Asks now set id sets token
unfolding revoking_token
revoking_token-Asks env now set id sets token h = elim (get_minter-cases set id sets) [
  | inl (t, e, issuer) ↦
      inl (subst (IsIssuer set id sets) (taken (rw (revoking_token, e) at h)) issuer)
  | inr (e, unknown) ↦
      inr (unknown, any_healthy_minter_in_set-some now set sets token (rw (revoking_token, e) at h))
]

revoking_token-none :
    {S : Type 0} (env : Env S) (now : ℕ) (set id : Text) (sets : MinterSets)
    → revoking_token env now set id sets ≡ none
    → IsUnknown set id sets × AllUnhealthy now set sets
unfolding revoking_token
revoking_token-none env now set id sets h = elim (get_minter-cases set id sets) [
  | inl (t, e, issuer) ↦ absurd (never (sym (rw (revoking_token, e) at h)))
  | inr (e, unknown) ↦
      (unknown, any_healthy_minter_in_set-none now set sets (rw (revoking_token, e) at h))
]

module _ {S : Type 0} (env : Env S) where
  -- How a revocation ends, with `false` where OpenBao will try again.
  pub data Revoked (user set id : Text) (now : ℕ) (w : World S) (after : World S)
      : Bool → Type 0 where
    -- The lease names no user.
    unnamed : is_empty user ≡ true → after ≡ w → Revoked user set id now w after true
    -- No minter is left to ask: the cloud is not asked, and the record is dropped.
    abandoned :
        IsUnknown set id w.backend.minter_sets
        → AllUnhealthy now set w.backend.minter_sets
        → after.calls ≡ w.calls
        → after.storage ≡ forget env user w.storage
        → Revoked user set id now w after true
    deleted :
        (token : Text)
        → Asks now set id w.backend.minter_sets token
        → after.calls ≡ w.calls ++ delete_user token user ∷ []
        → IsGone (env.delete w.calls (delete_user token user))
        → after.storage ≡ forget env user w.storage
        → Revoked user set id now w after true
    kept :
        (token : Text)
        → Asks now set id w.backend.minter_sets token
        → after.calls ≡ w.calls ++ delete_user token user ∷ []
        → Remains (env.delete w.calls (delete_user token user))
        → after.storage ≡ w.storage
        → Revoked user set id now w after false

  delete_credential-Revoked :
      (token user set id : Text) (now : ℕ) (w : World S)
      → Asks now set id w.backend.minter_sets token
      → let r = delete_credential env token set id user now w in Revoked user set id now w r.0 r.1
  unfolding delete_credential
  delete_credential-Revoked token user set id now w e =
      let answer = env.delete w.calls (delete_user token user) in
      elim (Bool-cases answer.1) [
        | inr f ↦ rw (delete_credential, f) (deleted token e refl (inl f) refl)
        | inl f ↦ elim (Bool-cases (answer.0 == 404)) [
          | inl g ↦
              rw (delete_credential, f, g)
                (deleted token e refl (inr ((==_iff answer.0 404).0 g)) refl)
          | inr g ↦
              let other : answer.0 ≢ 404 = ground arith in
              rw (delete_credential, f, g) (kept token e refl (f, other) refl)
        ]
      ]

-- A revocation asks the cloud to delete the lease's user and nothing else, by the minter that issued it
-- or, where that is gone, by one of its set that is not retired and can be selected. It fails, and then keeps the tracking record,
-- just when the cloud answers an error other than 404. It drops the record only when the user is gone
-- or no minter is left to ask, and does nothing for a lease that names no user.
pub creds_revoke-Revoked :
    {S : Type 0} (env : Env S) (user set id : Text) (now : ℕ) (w : World S)
    → let r = creds_revoke env user set id now w in Revoked env user set id now w r.0 r.1
unfolding creds_revoke
creds_revoke-Revoked env user set id now w = elim (Bool-cases (is_empty user)) [
  | inl e ↦ rw (creds_revoke, e) (unnamed e refl)
  | inr e ↦ elim (Option-cases (revoking_token env now set id w.backend.minter_sets)) [
    | inl f ↦
        let (unknown, none_left) = revoking_token-none env now set id w.backend.minter_sets f in
        rw (creds_revoke, e, f) (abandoned unknown none_left refl refl)
    | inr (token, f) ↦
        rw (creds_revoke, e, f)
          (delete_credential-Revoked env token user set id now w
            (revoking_token-Asks env now set id w.backend.minter_sets token f))
  ]
]

-- Forgetting one user leaves every other key of the storage as it was.
pub forget_other :
    {S : Type 0} (env : Env S) (content : S → Text → Option Value) (laws : Laws env.storage content)
    (user k : Text) (s : S)
    → k ≢ active_prefix ++ user
    → content (forget env user s) k ≡ content s k
unfolding forget
forget_other env content laws user k s other =
    elim (Option-cases (env.storage.delete s (active_prefix ++ user))) [
      | inl e ↦ rw (forget, e) refl
      | inr (t, e) ↦
          let differ : text_eq (active_prefix ++ user) k ≡ false =
            elim (Bool-cases (text_eq (active_prefix ++ user) k)) [
              | inr f ↦ f
              | inl f ↦ absurd (other (sym ((text_eq_iff (active_prefix ++ user) k).0 f)))
            ] in
          rw (forget, e) (laws.delete_removes s (active_prefix ++ user) k e ∙ rw differ refl)
    ]
