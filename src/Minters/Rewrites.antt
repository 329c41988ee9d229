-- ===== src/Minters/Rewrites.antt =====
-- What a rewrite of a minter set keeps of the stored one.
use openbao_cloud_creds.Base.{
  ℕ, ◌≡◌, ◌≢◌, refl, ap, ◌⊎◌, inl, inr, Text, text_eq, text_eq_iff, is_empty, ◌++◌, List, [], ◌∷◌,
  none, some, Bool-cases, ◌==◌, All, arith, if◌then◌else◌,
}
use openbao_cloud_creds.Minters.{Minter, find_minter, preserve_one, preserve_lifecycle}

-- The stored minter of an id: one of that id with none of that id after it.
abbrev pub IsStored : List Minter → Text → Minter → Type 0
IsStored stored id m =
    (before : List Minter) × (after : List Minter) × (stored ≡ before ++ m ∷ after)
    × (m.id ≡ id)
    × All (λ x. x.id ≢ id) after

-- What the search finds: the stored minter, or that no stored minter has the id.
find_minter-cases :
    (id : Text) (stored : List Minter)
    → ((m : Minter) × (find_minter id stored ≡ some m) × IsStored stored id m)
      ⊎ ((find_minter id stored ≡ none) × All (λ x. x.id ≢ id) stored)
unfolding find_minter
find_minter-cases id [] = inr (refl, tt)
find_minter-cases id (m ∷ stored) = elim (find_minter-cases id stored) [
  | inl (n, e, (before, after, q, same, others)) ↦
      inl (n, rw (find_minter, e) refl, (m ∷ before, after, ap (◌∷◌ m) q, same, others))
  | inr (e, others) ↦ elim (Bool-cases (text_eq m.id id)) [
    | inl f ↦
        inl (m, rw (find_minter, e, f) refl, ([], stored, refl, (text_eq_iff m.id id).0 f, others))
    | inr f ↦
        inr (rw (find_minter, e, f) refl, (λ q. ground (arith, (text_eq_iff m.id id).1 q), others))
  ]
]

-- The minter as it is written, for an incoming one.
pub record Rewritten (stored : List Minter) (now : ℕ) (m out : Minter) : Type 0 where
  pub same_id : out.id ≡ m.id
  pub same_token : out.token ≡ m.token
  pub same_expiry : out.expires_at ≡ m.expires_at
  pub history :
      ((previous : Minter) × IsStored stored m.id previous
        × (out.retired ≡ previous.retired)
        × (out.retired_at ≡ previous.retired_at)
        × (out.created_at ≡ previous.created_at)
        × (out.rotation_params
            ≡ (if is_empty m.rotation_params then previous.rotation_params else m.rotation_params)))
      ⊎ (All (λ x. x.id ≢ m.id) stored
          × (out.retired ≡ m.retired)
          × (out.created_at ≡ (if m.created_at == 0 then now else m.created_at)))

preserve_one-Rewritten :
    (stored : List Minter) (now : ℕ) (m : Minter)
    → Rewritten stored now m (preserve_one stored now m)
unfolding preserve_one
preserve_one-Rewritten stored now m = elim (find_minter-cases m.id stored) [
  | inr (e, others) ↦ elim (Bool-cases (m.created_at == 0)) [
    | inl z ↦
        let q : preserve_one stored now m ≡ record m { created_at = now } =
          simp (preserve_one, e, z) in
        rw q (record {
          same_id = refl;
          same_token = refl;
          same_expiry = refl;
          history = inr (others, refl, simp z);
        })
    | inr z ↦
        let q : preserve_one stored now m ≡ m = simp (preserve_one, e, z) in
        rw q (record {
          same_id = refl;
          same_token = refl;
          same_expiry = refl;
          history = inr (others, refl, simp z);
        })
  ]
  | inl (p, e, is_stored) ↦
      let out : Minter = record m {
        created_at = p.created_at;
        retired = p.retired;
        retired_at = p.retired_at;
        rotation_params =
            if is_empty m.rotation_params then p.rotation_params else m.rotation_params;
      } in
      let q : preserve_one stored now m ≡ out = simp (preserve_one, e) in
      rw q (record {
        same_id = refl;
        same_token = refl;
        same_expiry = refl;
        history = inl (p, is_stored, refl, refl, refl, refl);
      })
]

-- The minters of two lists, one by one.
abbrev pub Each : (Minter → Minter → Type 0) → List Minter → List Minter → Type 0
Each P [] [] = Unit
Each P (m ∷ ms) (n ∷ ns) = P m n × Each P ms ns
Each P _ _ = ⊥

-- A rewrite of a minter set keeps the order, ids, tokens and expiries that are written. A minter whose id is
-- stored keeps its retirement and its time of creation, so that no rewrite brings a retired minter
-- back, and its rotation parameters unless new ones are given. A minter that is not stored is
-- created at the present unless it says otherwise.
pub preserve_lifecycle_lem :
    (incoming stored : List Minter) (now : ℕ)
    → Each (Rewritten stored now) incoming (preserve_lifecycle incoming stored now)
unfolding preserve_lifecycle
preserve_lifecycle_lem [] stored now = tt
preserve_lifecycle_lem (m ∷ incoming) stored now =
    (preserve_one-Rewritten stored now m, preserve_lifecycle_lem incoming stored now)
