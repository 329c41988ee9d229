-- ===== src/Oci/Chosen.antt =====
-- By which minter a slot is filled and its old token is deleted.
use mathlib.Core.List.{Memᴰ}
use openbao_cloud_creds.Base.{
  ℕ, ◌≡◌, refl, sym, ap, ◌⊎◌, inl, inr, Text, is_empty, [], ◌∷◌, Option, none, some, Option-cases,
  true, false, ◌||◌, Bool-cases, find_key, All, if◌then◌else◌,
}
use openbao_cloud_creds.Recovery.{selectable}
use openbao_cloud_creds.Vultr.{MinterState, MinterStates, MinterSets}
use openbao_cloud_creds.Vultr.Pool.{get_minter}
use openbao_cloud_creds.Vultr.Revocation.{
  IsIssuer, IsUnknown, IsHealthy, AllUnhealthy, get_minter-cases,
}
use openbao_cloud_creds.Oci.{Slot}
use openbao_cloud_creds.Oci.Slots.{healthy_minter, select_minter_for_set, client_for_slot}

module _ {ℓ} {A : Type ℓ} where
  taken : {a b : A} → some a ≡ some b → a ≡ b
  taken q = cc

  never : {a : A} → none ≡ some a → ⊥
  never q = cc

-- The minter is held in the list under the id, not retired and selectable, and has the token.
abbrev IsServing : ℕ → MinterStates → Text → Text → Type 0
IsServing now states id token =
    (ms : MinterState) × Memᴰ (id, ms) states
    × (ms.minter.retired ≡ false)
    × (selectable now ms.sm ≡ true)
    × (ms.minter.token ≡ token)

-- The minter is held in the set under the id, not retired and selectable, and has the token.
abbrev pub IsChosen : ℕ → Text → MinterSets → Text → Text → Type 0
IsChosen now set sets id token =
    (states : MinterStates) × (find_key set sets ≡ some states) × IsServing now states id token

IsServing-cons :
    (now : ℕ) (x : Text × MinterState) (states : MinterStates) (id token : Text)
    → IsServing now states id token
    → IsServing now (x ∷ states) id token
IsServing-cons now x states id token (ms, m, live, free, same) = (ms, Memᴰ.tail m, live, free, same)

healthy_minter-some :
    (now : ℕ) (states : MinterStates) (id token : Text)
    → healthy_minter now states ≡ some (id, token)
    → IsServing now states id token
unfolding healthy_minter
healthy_minter-some now [] id token h = absurd (never h)
healthy_minter-some now ((i, ms) ∷ states) id token h = elim (Bool-cases ms.minter.retired) [
  | inl e ↦
      IsServing-cons now (i, ms) states id token
        (healthy_minter-some now states id token (rw (healthy_minter, e) at h))
  | inr e ↦ elim (Bool-cases (selectable now ms.sm)) [
    | inl f ↦
        let same = taken (rw (healthy_minter, e, f) at h) in
        (ms, Memᴰ.head (ap (λ x. (x.0, ms)) (sym same)), e, f, ap (λ x. x.1) same)
    | inr f ↦
        IsServing-cons now (i, ms) states id token
          (healthy_minter-some now states id token (rw (healthy_minter, e, f) at h))
  ]
]

healthy_minter-none :
    (now : ℕ) (states : MinterStates)
    → healthy_minter now states ≡ none
    → All (λ x. (x.1.minter.retired ≡ true) ⊎ (selectable now x.1.sm ≡ false)) states
unfolding healthy_minter
healthy_minter-none now [] h = tt
healthy_minter-none now ((i, ms) ∷ states) h = elim (Bool-cases ms.minter.retired) [
  | inl e ↦ (inl e, healthy_minter-none now states (rw (healthy_minter, e) at h))
  | inr e ↦ elim (Bool-cases (selectable now ms.sm)) [
    | inl f ↦ absurd (never (sym (rw (healthy_minter, e, f) at h)))
    | inr f ↦ (inr f, healthy_minter-none now states (rw (healthy_minter, e, f) at h))
  ]
]

pub select_minter_for_set-IsChosen :
    (now : ℕ) (set : Text) (sets : MinterSets) (id token : Text)
    → select_minter_for_set now set sets ≡ some (id, token)
    → IsChosen now set sets id token
unfolding select_minter_for_set
select_minter_for_set-IsChosen now set sets id token h = elim (Option-cases (find_key set sets)) [
  | inl e ↦ absurd (never (rw (select_minter_for_set, e) at h))
  | inr (states, e) ↦
      (states, e, healthy_minter-some now states id token (rw (select_minter_for_set, e) at h))
]

select_minter_for_set-none :
    (now : ℕ) (set : Text) (sets : MinterSets)
    → select_minter_for_set now set sets ≡ none
    → AllUnhealthy now set sets
unfolding select_minter_for_set
select_minter_for_set-none now set sets h states e =
    healthy_minter-none now states (rw (select_minter_for_set, e) at h)

-- The slot names no minter that is held.
abbrev pub IsOrphaned : Slot → MinterSets → Type 0
IsOrphaned s sets =
    (is_empty s.minter_set || is_empty s.minter_id ≡ true) ⊎ IsUnknown s.minter_set s.minter_id sets

-- The token is the slot's minter's, or, where the slot names none that is held, a healthy one's of the role's set.
abbrev pub IsClient : ℕ → Slot → Text → MinterSets → Text → Type 0
IsClient now s role_set sets token =
    ((is_empty s.minter_set || is_empty s.minter_id ≡ false)
      × IsIssuer s.minter_set s.minter_id sets token)
    ⊎ (IsOrphaned s sets × IsHealthy now role_set sets token)

-- There is neither the slot's minter nor a healthy one of the role's set.
abbrev pub HasNoClient : ℕ → Slot → Text → MinterSets → Type 0
HasNoClient now s role_set sets = IsOrphaned s sets × AllUnhealthy now role_set sets

-- The first choice of `client_for_slot`.
abbrev own_client : Slot → MinterSets → Option Text
own_client s sets =
    if is_empty s.minter_set || is_empty s.minter_id
    then none
    else get_minter s.minter_set s.minter_id sets

own_client-cases :
    (s : Slot) (sets : MinterSets)
    → ((token : Text) × (own_client s sets ≡ some token)
        × (is_empty s.minter_set || is_empty s.minter_id ≡ false)
        × IsIssuer s.minter_set s.minter_id sets token)
      ⊎ ((own_client s sets ≡ none) × IsOrphaned s sets)
own_client-cases s sets = elim (Bool-cases (is_empty s.minter_set || is_empty s.minter_id)) [
  | inl e ↦ inr (simp e, inl e)
  | inr e ↦ elim (get_minter-cases s.minter_set s.minter_id sets) [
    | inl (token, f, issuer) ↦ inl (token, simp (e, f), e, issuer)
    | inr (f, unknown) ↦ inr (simp (e, f), inr unknown)
  ]
]

abbrev token_of : Option (Text × Text) → Option Text
token_of none = none
token_of (some x) = some x.1

-- Whom the deletion of a slot's token is left to.
pub client_for_slot-cases :
    (now : ℕ) (s : Slot) (role_set : Text) (sets : MinterSets)
    → ((token : Text) × (client_for_slot now s role_set sets ≡ some token)
        × IsClient now s role_set sets token)
      ⊎ ((client_for_slot now s role_set sets ≡ none) × HasNoClient now s role_set sets)
unfolding client_for_slot
client_for_slot-cases now s role_set sets = elim (own_client-cases s sets) [
  | inl (token, e, filled, issuer) ↦ inl (token, rw e refl, inl (filled, issuer))
  | inr (e, orphaned) ↦ elim (Option-cases (select_minter_for_set now role_set sets)) [
    | inl f ↦ inr (rw e (ap token_of f), (orphaned, select_minter_for_set-none now role_set sets f))
    | inr ((id, token), f) ↦
        let (states, g, (ms, m, live, free, same)) =
          select_minter_for_set-IsChosen now role_set sets id token f in
        inl (token, rw e (ap token_of f), inr (orphaned, (states, id, ms, g, m, live, free, same)))
  ]
]
