-- ===== src/Oci/Stagger.antt =====
-- The slots of a new role rotate one interval after the other.
use mathlib.Core.List.{append_assoc, append-nil}
use native.Mathlib.Nat.{div-mul-le_self, mul-le-mul_left}
use openbao_cloud_creds.Base.{
  ℕ, zero, suc, ◌+◌, ◌*◌, ◌/◌, ◌≤◌, ◌<◌, ◌++◌, ◌≡◌, refl, sym, ap, ◌∙◌, ◌≢◌, ◌⊎◌, inl, inr, Text,
  text, text_eq, text_eq_iff, text_eq_refl, append_cancel_left, List, [], ◌∷◌, Option, some,
  Option-cases, true, false, Bool-cases, ◌==◌, ==_iff, subst, if◌then◌else◌, format, parse_digits,
  parse_digits-format, arith,
}
use openbao_cloud_creds.Storage.{Value, Laws}
use openbao_cloud_creds.Oci.{slot_active, Slot, OciRole, Call, create_auth_token, World, Env}
use openbao_cloud_creds.Oci.Chosen.{IsChosen, select_minter_for_set-IsChosen}
use openbao_cloud_creds.Oci.Slots.{
  storage_key_for_slot, select_minter_for_set, rotation_interval, slot_description, save_slot,
  owner_instance_id, filled, fill_slots, initialize_slots,
}

format_inj : (a b : ℕ) → format a ≡ format b → a ≡ b
format_inj a b h =
    taken (sym (parse_digits-format a) ∙ ap (parse_digits 0) h ∙ parse_digits-format b)
  where
    taken : {x y : ℕ} → some x ≡ some y → x ≡ y
    taken q = cc

storage_key_inj :
    (role : Text) (i j : ℕ) → storage_key_for_slot role i ≡ storage_key_for_slot role j → i ≡ j
unfolding storage_key_for_slot
storage_key_inj role i j h = format_inj i j (
    append_cancel_left (text "/") (format i) (format j) (
      append_cancel_left role (text "/" ++ format i) (text "/" ++ format j) (
        append_cancel_left (text "slots/") (role ++ (text "/" ++ format i))
          (role ++ (text "/" ++ format j)) h)))

keys_differ :
    (role : Text) (i j : ℕ)
    → i ≢ j
    → text_eq (storage_key_for_slot role i) (storage_key_for_slot role j) ≡ false
keys_differ role i j other =
    let a = storage_key_for_slot role i in
    let b = storage_key_for_slot role j in
    elim (Bool-cases (text_eq a b)) [
      | inr e ↦ e
      | inl e ↦ absurd (other (storage_key_inj role i j ((text_eq_iff a b).0 e)))
    ]

-- The call that creates the token of a slot.
abbrev pub token_call : OciRole → Text → Text → ℕ → Call
token_call role owner minter i =
    create_auth_token minter role.user_ocid (slot_description owner role.name i)

module _ {S : Type 0} (env : Env S) (content : S → Text → Option Value)
    (laws : Laws env.storage content) (role : OciRole) (now : ℕ) where
  -- Under the index stands a slot that was filled now and rotates at its turn: its value and id are those
  -- that the cloud answered to a call which created a token for the role's user, by the minter that
  -- the slot names and under the slot's description.
  abbrev pub IsStaggered : Text → Text → Text → S → List Call → ℕ → Type 0
  IsStaggered owner minter_id minter s calls i =
      (slot : Slot) × (before : List Call) × (after : List Call) × (calls
        ≡ before ++ token_call role owner minter i ∷ after)
      × (env.create before (token_call role owner minter i)
          ≡ some (slot.token_value, slot.token_id))
      × (slot.minter_id ≡ minter_id)
      × (slot.minter_set ≡ role.minter_set)
      × (slot.slot_index ≡ i)
      × (content s (storage_key_for_slot role.name i) ≡ some (env.encode_slot slot))
      × (slot.state ≡ slot_active)
      × (slot.rotated_at ≡ now)
      × (slot.next_rotation_at ≡ now + rotation_interval role * (i + 1))

  saved :
      (slot : Slot) (s : S) {t : S} (k : Text)
      → save_slot env role.name slot s ≡ some t
      → content t k ≡ (
          if text_eq (storage_key_for_slot role.name slot.slot_index) k
          then some (env.encode_slot slot)
          else content s k)
  unfolding save_slot
  saved slot s k h =
      laws.put_writes s (storage_key_for_slot role.name slot.slot_index) (env.encode_slot slot) k h

  module _ (owner minter_id minter : Text) where
    -- The slot that a round fills.
    abbrev slot_at : ℕ → Text → Text → Slot
    slot_at i value id =
        filled env role owner minter_id value id i now (now + rotation_interval role * (i + 1))

    -- The world from which the loop goes on.
    abbrev onward : ℕ → World S → S → World S
    onward i w s = record w {
      calls =
          w.calls
          ++ create_auth_token minter role.user_ocid (slot_description owner role.name i) ∷ [];
      storage = s;
    }

    -- A round fails, or fills its slot and goes on.
    round :
        (n i : ℕ) (w : World S)
        → let r = fill_slots env role owner minter_id minter now i (suc n) w in
          (r.1 ≡ false)
          ⊎ ((value : Text) × (id : Text) × (s : S) × (env.create w.calls
                  (token_call role owner minter i)
                ≡ some (value, id))
              × (save_slot env role.name (slot_at i value id) w.storage ≡ some s)
              × (r ≡ fill_slots env role owner minter_id minter now (i + 1) n (onward i w s)))
    unfolding fill_slots
    round n i w =
        let call = create_auth_token minter role.user_ocid (slot_description owner role.name i) in
        elim (Option-cases (env.create w.calls call)) [
          | inl e ↦ inl (rw (fill_slots, e) refl)
          | inr ((value, id), e) ↦
              elim (Option-cases (save_slot env role.name (slot_at i value id) w.storage)) [
                | inl f ↦ inl (rw (fill_slots, e, f) refl)
                | inr (s, f) ↦ inr (value, id, s, e, f, rw (fill_slots, e, f) refl)
              ]
        ]

    -- A slot that is filled is left alone by the rest of the loop.
    fill_slots-earlier :
        (n i j : ℕ) (w : World S)
        → j < i
        → let r = fill_slots env role owner minter_id minter now i n w in
          (r.1 ≡ false)
          ⊎ (content r.0.storage (storage_key_for_slot role.name j)
              ≡ content w.storage (storage_key_for_slot role.name j))
    unfolding fill_slots
    fill_slots-earlier zero i j w h = inr refl
    fill_slots-earlier (suc n) i j w h = elim (round n i w) [
      | inl e ↦ inl e
      | inr (value, id, s, made, f, q) ↦
          let other : i ≢ j = omega arith in
          let here =
            saved (slot_at i value id) w.storage (storage_key_for_slot role.name j) f
            ∙ rw (keys_differ role.name i j other) refl in
          rw q (elim (fill_slots-earlier n (i + 1) j (onward i w s) (omega arith)) [
            | inl e ↦ inl e
            | inr e ↦ inr (e ∙ here)
          ])
    ]

    -- The calls of the rest of the loop come after those that were made.
    fill_slots-calls :
        (n i : ℕ) (w : World S)
        → (more : List Call) × ((fill_slots env role owner minter_id minter now i n w).0.calls
            ≡ w.calls ++ more)
    unfolding fill_slots
    fill_slots-calls zero i w = ([], sym (append-nil w.calls))
    fill_slots-calls (suc n) i w =
        let call = token_call role owner minter i in
        elim (Option-cases (env.create w.calls call)) [
          | inl e ↦ (call ∷ [], rw (fill_slots, e) refl)
          | inr ((value, id), e) ↦
              elim (Option-cases (save_slot env role.name (slot_at i value id) w.storage)) [
                | inl f ↦ (call ∷ [], rw (fill_slots, e, f) refl)
                | inr (s, f) ↦
                    let (more, q) = fill_slots-calls n (i + 1) (onward i w s) in
                    (call ∷ more, rw (fill_slots, e, f) (q ∙ append_assoc w.calls (call ∷ []) more))
              ]
        ]

    fill_slots-IsStaggered :
        (n i j : ℕ) (w : World S)
        → i ≤ j
        → j < i + n
        → let r = fill_slots env role owner minter_id minter now i n w in
          (r.1 ≡ false) ⊎ IsStaggered owner minter_id minter r.0.storage r.0.calls j
    fill_slots-IsStaggered zero i j w h k = absurd (omega arith)
    fill_slots-IsStaggered (suc n) i j w h k = elim (round n i w) [
      | inl e ↦ inl e
      | inr (value, id, s, made, f, q) ↦ elim (Bool-cases (i == j)) [
        | inr e ↦
            rw q (fill_slots-IsStaggered n (i + 1) j (onward i w s) (ground arith) (omega arith))
        | inl e ↦
            let same : i ≡ j = (==_iff i j).0 e in
            let key = storage_key_for_slot role.name i in
            let here = saved (slot_at i value id) w.storage key f ∙ rw (text_eq_refl key) refl in
            let rest = fill_slots env role owner minter_id minter now (i + 1) n (onward i w s) in
            let (more, calls) = fill_slots-calls n (i + 1) (onward i w s) in
            let asked = calls ∙ append_assoc w.calls (token_call role owner minter i ∷ []) more in
            rw q (elim (fill_slots-earlier n (i + 1) i (onward i w s) (omega arith)) [
              | inl e ↦ inl e
              | inr kept ↦ inr (
                  subst (IsStaggered owner minter_id minter rest.0.storage rest.0.calls) same (
                    slot_at i value id,
                    w.calls,
                    more,
                    asked,
                    made,
                    refl,
                    refl,
                    refl,
                    kept ∙ here,
                    refl,
                    refl,
                    refl,
                  ))
            ])
      ]
    ]

within : (period count i : ℕ) → i < count → period / count * (i + 1) ≤ period
within period count i h =
    omega (arith, div-mul-le_self period count, mul-le-mul_left (period / count) h)

-- When the slots of a role could be filled, each of them holds, as active and of the present, the value and the id
-- of a token that a minter of the role's set, which is not retired and can be selected, was asked to create
-- for the role's user under this mount's description of the slot. The rotations are one interval
-- apart: the slot with index `i` is due after `i + 1` intervals, and all are due within the role's
-- rotation period.
pub initialize_slots-IsStaggered :
    {S : Type 0} (env : Env S) (content : S → Text → Option Value) (laws : Laws env.storage content)
    (role : OciRole) (now i : ℕ) (w : World S)
    → i < role.slot_count
    → let r = initialize_slots env role now w in
      r.1 ≡ true
      → (owner : Text) × (minter_id : Text) × (minter : Text) × ((owner_instance_id env w).1
          ≡ some owner)
        × IsChosen now role.minter_set (owner_instance_id env w).0.minter_sets minter_id minter
        × IsStaggered env content laws role now owner minter_id minter r.0.storage r.0.calls i
        × (now + rotation_interval role * (i + 1) ≤ now + role.rotation_period)
unfolding initialize_slots rotation_interval
initialize_slots-IsStaggered env content laws role now i w h ok =
    let w' = (owner_instance_id env w).0 in
    let late = within role.rotation_period role.slot_count i h in
    elim (Option-cases (owner_instance_id env w).1) [
      | inl e ↦ absurd (never (rw (initialize_slots, e) at ok))
      | inr (owner, e) ↦
          elim (Option-cases (select_minter_for_set now role.minter_set w'.minter_sets)) [
            | inl f ↦ absurd (never (rw (initialize_slots, e, f) at ok))
            | inr ((minter_id, minter), f) ↦
                elim (fill_slots-IsStaggered env content laws role now owner minter_id minter
                  role.slot_count 0 i w' (omega arith) (omega arith)) [
                    | inl g ↦ absurd (never (sym g ∙ rw (initialize_slots, e, f) at ok))
                    | inr g ↦ (
                      owner,
                      minter_id,
                      minter,
                      e,
                      select_minter_for_set-IsChosen now role.minter_set w'.minter_sets minter_id
                          minter f,
                      rw (initialize_slots, e, f) g,
                      omega (arith, late),
                    )
                  ]
          ]
    ]
  where
    never : false ≡ true → ⊥
    never q = cc
