-- ===== src/Oci/Rotation.antt =====
-- What a rotation asks for, in which order, and what it leaves in the slot.
use mathlib.Core.List.{append-nil}
use openbao_cloud_creds.Base.{
  ℕ, ◌+◌, ◌++◌, ◌≡◌, refl, sym, ap, subst, ◌∙◌, ◌⊎◌, inl, inr, Text, is_empty, List, [], ◌∷◌, none,
  some, Option-cases, Bool, true, false, Bool-cases,
}
use openbao_cloud_creds.Ownership.{instance_id}
use openbao_cloud_creds.Oci.{
  Slot, OciRole, MinterSets, Call, create_auth_token, delete_auth_token, World, Env,
}
use openbao_cloud_creds.Oci.Chosen.{IsClient, HasNoClient, client_for_slot-cases}
use openbao_cloud_creds.Oci.Slots.{
  select_minter_for_set, rotation_interval, slot_description, load_slot, save_slot,
  owner_instance_id, filled, delete_old, replace_token, rotate_slot,
}

module _ {S : Type 0} (env : Env S) (role : OciRole) (i now : ℕ) where
  -- The deletion of the slot's token is asked for, by the slot's minter or a healthy one, or there is no token or
  -- no minter.
  abbrev pub Asks : MinterSets → Slot → List Call → Type 0
  Asks sets existing last =
      ((last ≡ [])
        × ((is_empty existing.token_id ≡ true) ⊎ HasNoClient now existing role.minter_set sets))
      ⊎ ((token : Text) × (is_empty existing.token_id ≡ false)
          × IsClient now existing role.minter_set sets token
          × (last ≡ delete_auth_token token role.user_ocid existing.token_id ∷ []))

  -- How a rotation of the slot ends, from the calls made before it and the storage that the slot was loaded
  -- from; `false` is an error.
  pub data Rotated (sets : MinterSets) (loaded : S) (before : List Call) (after : World S)
      : Bool → Type 0 where
    -- The cloud was not asked for anything.
    not_started : after.calls ≡ before → Rotated sets loaded before after false
    -- The cloud created no token, and was asked for nothing else.
    not_created :
        {call : Call}
        → after.calls ≡ before ++ call ∷ []
        → env.create before call ≡ none
        → Rotated sets loaded before after false
    -- The new token could not be stored: the minter that created it is asked to delete it, and no other.
    undone :
        {minter value id description : Text}
        → after.calls
          ≡ (before ++ create_auth_token minter role.user_ocid description ∷ [])
            ++ delete_auth_token minter role.user_ocid id ∷ []
        → env.create before (create_auth_token minter role.user_ocid description) ≡ some (value, id)
        → Rotated sets loaded before after false
    -- The new token is stored, in the last write, before the deletion of the old one is asked for.
    replaced :
        {minter value id description : Text} {last : List Call} (existing new : Slot)
        → after.calls ≡ (before ++ create_auth_token minter role.user_ocid description ∷ []) ++ last
        → env.create before (create_auth_token minter role.user_ocid description) ≡ some (value, id)
        → load_slot env loaded role.name i ≡ some (some existing)
        → save_slot env role.name new loaded ≡ some after.storage
        → (new.token_id ≡ id)
          × (new.token_value ≡ value)
          × (new.slot_index ≡ i)
          × (new.rotated_at ≡ now)
          × (new.next_rotation_at ≡ now + rotation_interval role)
        → Asks sets existing last
        → Rotated sets loaded before after true

  delete_old-cases :
      (existing : Slot) (w : World S)
      → let x = delete_old env role existing now w in
        (x.storage ≡ w.storage)
        × (last : List Call) × (x.calls ≡ w.calls ++ last)
        × Asks w.minter_sets existing last
  unfolding delete_old
  delete_old-cases existing w = elim (Bool-cases (is_empty existing.token_id)) [
    | inl e ↦ rw (delete_old, e) (refl, [], sym (append_nil w.calls), inl (refl, inl refl))
    | inr e ↦ elim (client_for_slot-cases now existing role.minter_set w.minter_sets) [
      | inr (f, nobody) ↦
          rw (delete_old, e, f) (refl, [], sym (append_nil w.calls), inl (refl, inr nobody))
      | inl (token, f, client) ↦
          rw (delete_old, e, f) (refl, _, refl, inr (token, refl, client, refl))
    ]
  ]
    where
      append_nil : (l : List Call) → l ++ [] ≡ l
      append_nil l = append-nil l

  replace_token-Rotated :
      (owner minter_id minter : Text) (existing : Slot) (w : World S)
      → load_slot env w.storage role.name i ≡ some (some existing)
      → let r = replace_token env role owner minter_id minter existing i now w in
        Rotated w.minter_sets w.storage w.calls r.0 r.1
  unfolding replace_token
  replace_token-Rotated owner minter_id minter existing w found =
      let call = create_auth_token minter role.user_ocid (slot_description owner role.name i) in
      elim (Option-cases (env.create w.calls call)) [
        | inl e ↦ rw (replace_token, e) (not_created refl e)
        | inr ((value, id), e) ↦
            let slot =
              filled env role owner minter_id value id i now (now + rotation_interval role) in
            elim (Option-cases (save_slot env role.name slot w.storage)) [
              | inl f ↦ rw (replace_token, e, f) (undone refl e)
              | inr (s, f) ↦
                  let w' : World S = record w { calls = w.calls ++ call ∷ []; storage = s } in
                  let (kept, last, asked, which) = delete_old-cases existing w' in
                  rw (replace_token, e, f)
                    (replaced existing slot asked e found (f ∙ ap some (sym kept))
                      (refl, refl, refl, refl, refl) which)
            ]
      ]

  owner_instance_id-calls : (w : World S) → (owner_instance_id env w).0.calls ≡ w.calls
  unfolding owner_instance_id
  owner_instance_id-calls w = elim (Bool-cases (is_empty w.instance_id)) [
    | inr e ↦ rw (owner_instance_id, e) refl
    | inl e ↦ elim (Option-cases (instance_id env.storage env.raw env.random w.storage).1) [
      | inl f ↦ rw (owner_instance_id, e, f) refl
      | inr (id, f) ↦ rw (owner_instance_id, e, f) refl
    ]
  ]

  owner_instance_id-minter_sets :
      (w : World S) → (owner_instance_id env w).0.minter_sets ≡ w.minter_sets
  unfolding owner_instance_id
  owner_instance_id-minter_sets w = elim (Bool-cases (is_empty w.instance_id)) [
    | inr e ↦ rw (owner_instance_id, e) refl
    | inl e ↦ elim (Option-cases (instance_id env.storage env.raw env.random w.storage).1) [
      | inl f ↦ rw (owner_instance_id, e, f) refl
      | inr (id, f) ↦ rw (owner_instance_id, e, f) refl
    ]
  ]

-- A rotation asks for at most one new token. A rotation that succeeds has stored the new token in the slot, with
-- its rotation an interval ahead, in the same storage that the old one was loaded from, and only
-- after that it asks to delete the token that stood in the slot before, and no other, by the slot's
-- minter or, where the slot names none that is held, by one of the role's set that is not retired
-- and can be selected. It leaves that out only when the slot recorded no token or there is no such
-- minter. A rotation that fails asks
-- for no deletion but that of its own new token.
pub rotate_slot-Rotated :
    {S : Type 0} (env : Env S) (role : OciRole) (i now : ℕ) (w : World S)
    → let r = rotate_slot env role i now w in
      Rotated env role i now w.minter_sets (owner_instance_id env w).0.storage w.calls r.0 r.1
unfolding rotate_slot
rotate_slot-Rotated env role i now w =
    let w' = (owner_instance_id env w).0 in
    let still = owner_instance_id-calls env role i now w in
    let same = owner_instance_id-minter_sets env role i now w in
    elim (Option-cases (owner_instance_id env w).1) [
      | inl e ↦ rw (rotate_slot, e) (not_started still)
      | inr (owner, e) ↦ elim (Option-cases (load_slot env w'.storage role.name i)) [
        | inl f ↦ rw (rotate_slot, e, f) (not_started still)
        | inr (none, f) ↦ rw (rotate_slot, e, f) (not_started still)
        | inr (some existing, f) ↦
            elim (Option-cases (select_minter_for_set now role.minter_set w'.minter_sets)) [
              | inl g ↦ rw (rotate_slot, e, f, g) (not_started still)
              | inr ((minter_id, minter), g) ↦
                  let r = replace_token env role owner minter_id minter existing i now w' in
                  rw (rotate_slot, e, f, g)
                    (subst (λ m. Rotated env role i now m w'.storage w.calls r.0 r.1) same
                      (subst (λ l. Rotated env role i now w'.minter_sets w'.storage l r.0 r.1) still
                        (replace_token-Rotated env role i now owner minter_id minter existing w'
                          f)))
            ]
      ]
    ]
