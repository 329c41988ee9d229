-- ===== src/Capability/Guarded.antt =====
-- What a role write may cost the minters.
use mathlib.Core.List.{Memᴰ}
use openbao_cloud_creds.Base.{
  ℕ, ◌<◌, ◌≡◌, sym, ap, ◌∙◌, inl, inr, Text, List, [], ◌∷◌, some, Option-cases, true, false, ltb,
  arith,
}
use openbao_cloud_creds.Errors.{upstream_auth_failed}
use openbao_cloud_creds.Storage.{Value}
use openbao_cloud_creds.Minters.{Minter, active_minters}
use openbao_cloud_creds.Recovery.{StateMachine}
use openbao_cloud_creds.Capability.Limiter.{States, state_for, login_rejected}
use openbao_cloud_creds.Capability.Gate.{
  Gate, disabled_role, find_rejected, load_minter_set, untouched, verify_role,
}

login_rejected-counts :
    (id : Text) (states : States) (sm : StateMachine)
    → state_for id states ≡ some sm
    → 0 < sm.consecutive_auth_failures
    → (n : ℕ) × (login_rejected id states ≡ some n)
unfolding login_rejected
login_rejected-counts id states sm e h =
    let positive : ltb 0 sm.consecutive_auth_failures ≡ true = ground arith in
    (sm.consecutive_auth_failures, simp (login_rejected, e, positive))

find_rejected-finds :
    (states : States) (minters : List Minter) (m : Minter) (n : ℕ)
    → Memᴰ m minters
    → login_rejected m.id states ≡ some n
    → (id : Text) × (find_rejected states minters ≡ some id)
unfolding find_rejected
find_rejected-finds states [] m n q e = elim q [ ]
find_rejected-finds states (k ∷ minters) m n (Memᴰ.head q) e =
    (k.id, simp (find_rejected, ap (λ x. login_rejected x.id states) (sym q) ∙ e))
find_rejected-finds states (k ∷ minters) m n (Memᴰ.tail q) e =
    elim (Option-cases (login_rejected k.id states)) [
      | inr (j, f) ↦ (k.id, simp (find_rejected, f))
      | inl f ↦
          let (id, g) = find_rejected-finds states minters m n q e in
          (id, simp (find_rejected, f, g))
    ]

-- While the operator's switch for the verification of capabilities is on, the check of an enabled role that is to
-- be written refuses it without a probe, and with the storage and the state machines as they were, if the
-- role's set is stored and one of its active minters has had a login rejected since its last success.
pub verify_role_spares :
    {S : Type 0} (g : Gate S) (s : S) (states : States) (set_name : Text) (role : Value)
    (minters : List Minter) (m : Minter) (sm : StateMachine)
    → g.enabled ≡ true
    → disabled_role role ≡ false
    → load_minter_set g s set_name ≡ some (some minters)
    → Memᴰ m (active_minters minters)
    → state_for m.id states ≡ some sm
    → 0 < sm.consecutive_auth_failures
    → verify_role g s states set_name role ≡ untouched g s states (some upstream_auth_failed)
unfolding verify_role
verify_role_spares g s states set_name role minters m sm e d l q k h =
    let (n, r) = login_rejected-counts m.id states sm k h in
    let (id, f) = find_rejected-finds states (active_minters minters) m n q r in
    simp (verify_role, e, d, l, f)
