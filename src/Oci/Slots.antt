-- ===== src/Oci/Slots.antt =====
-- plugins/credential-oci/slots.go and workers.go: slots are stored, filled and rotated.
use openbao_cloud_creds.Base.{
  ℕ, zero, suc, ◌+◌, ◌*◌, ◌/◌, ◌++◌, Text, text, is_empty, List, [], ◌∷◌, Option, none, some, Bool,
  true, false, ◌||◌, ◌&&◌, not, ltb, if◌then◌else◌, find_key, format,
}
use openbao_cloud_creds.Ownership.{instance_id, mount_prefix}
use openbao_cloud_creds.Recovery.{selectable}
use openbao_cloud_creds.Vultr.{MinterStates, MinterSets}
use openbao_cloud_creds.Vultr.Pool.{get_minter}
use openbao_cloud_creds.Oci.{
  SlotState, slot_active, Slot, OciRole, create_auth_token, delete_auth_token, World, Env,
}

-- `storageKeyForSlot`.
unfoldable pub storage_key_for_slot : Text → ℕ → Text
storage_key_for_slot role i = text "slots/" ++ (role ++ (text "/" ++ format i))

unfoldable pub is_active : SlotState → Bool
is_active slot_active = true
is_active _ = false

-- The tests of the loop of `freshestSlot`.
unfoldable pub is_servable : ℕ → Slot → Bool
is_servable now s = is_active s.state && ltb now s.next_rotation_at

unfoldable pub better : Option Slot → Slot → Option Slot
better none s = some s
better (some best) s = if ltb best.rotated_at s.rotated_at then some s else some best

unfoldable pub freshest_from : ℕ → Option Slot → List Slot → Option Slot
freshest_from now best [] = best
freshest_from now best (s ∷ slots) =
    freshest_from now (if is_servable now s then better best s else best) slots

-- `freshestSlot`.
unfoldable pub freshest_slot : List Slot → ℕ → Option Slot
freshest_slot slots now = freshest_from now none slots

-- The loop of `selectMinterForSet`, in the order that the map is ranged over: the id and the token.
unfoldable pub healthy_minter : ℕ → MinterStates → Option (Text × Text)
healthy_minter now [] = none
healthy_minter now ((id, ms) ∷ states) =
    if not ms.minter.retired && selectable now ms.sm
    then some (id, ms.minter.token)
    else healthy_minter now states

-- `selectMinterForSet`, with `none` for either of its errors.
unfoldable pub select_minter_for_set : ℕ → Text → MinterSets → Option (Text × Text)
select_minter_for_set now set sets = elim (find_key set sets) [
  | none ↦ none
  | some states ↦ healthy_minter now states
]

abbrev or_healthy : ℕ → Text → MinterSets → Option Text → Option Text
or_healthy now set sets (some token) = some token
or_healthy now set sets none = elim (select_minter_for_set now set sets) [
  | none ↦ none
  | some (id, token) ↦ some token
]

-- `clientForSlot`: the token of the minter that provisioned the slot, or of a healthy one.
unfoldable pub client_for_slot : ℕ → Slot → Text → MinterSets → Option Text
client_for_slot now s role_set sets = or_healthy now role_set sets (
    if is_empty s.minter_set || is_empty s.minter_id
    then none
    else get_minter s.minter_set s.minter_id sets)

-- A role has at least one slot.
unfoldable pub rotation_interval : OciRole → ℕ
rotation_interval role = role.rotation_period / role.slot_count

unfoldable pub slot_description : Text → Text → ℕ → Text
slot_description owner role i = mount_prefix owner ++ (role ++ (text "-slot-" ++ format i))

module _ {S : Type 0} (env : Env S) where
  -- `loadSlot`: `none` is an error, `some none` a slot that does not exist.
  unfoldable pub load_slot : S → Text → ℕ → Option (Option Slot)
  load_slot s role i = elim (env.storage.get s (storage_key_for_slot role i)) [
    | none ↦ none
    | some none ↦ some none
    | some (some v) ↦ elim (env.decode_slot v) [ none ↦ none | some slot ↦ some (some slot) ]
  ]

  -- `saveSlot`.
  unfoldable pub save_slot : Text → Slot → S → Option S
  save_slot role slot s =
      env.storage.put s (storage_key_for_slot role slot.slot_index) (env.encode_slot slot)

  -- The loop of `loadAllSlots`, from an index on, with the number of slots left.
  unfoldable pub load_slots_from : S → Text → ℕ → ℕ → Option (List Slot)
  load_slots_from s role i zero = some []
  load_slots_from s role i (suc n) = elim (load_slot s role i) [
    | none ↦ none
    | some found ↦ elim (load_slots_from s role (i + 1) n) [
      | none ↦ none
      | some slots ↦ some (elim found [ none ↦ slots | some slot ↦ slot ∷ slots ])
    ]
  ]

  unfoldable pub load_all_slots : S → Text → ℕ → Option (List Slot)
  load_all_slots s role slot_count = load_slots_from s role 0 slot_count

  -- `deleteSlots`, with `false` on an error.
  unfoldable pub delete_slots_from : Text → ℕ → ℕ → S → S × Bool
  delete_slots_from role i zero s = (s, true)
  delete_slots_from role i (suc n) s = elim (env.storage.delete s (storage_key_for_slot role i)) [
    | none ↦ (s, false)
    | some t ↦ delete_slots_from role (i + 1) n t
  ]

  -- `ownerInstanceID`.
  unfoldable pub owner_instance_id : World S → World S × Option Text
  owner_instance_id w =
      if not (is_empty w.instance_id)
      then (w, some w.instance_id)
      else let (s, id) = instance_id env.storage env.raw env.random w.storage in
        elim id [
          | none ↦ (record w { storage = s }, none)
          | some id ↦ (record w { storage = s; instance_id = id }, some id)
        ]

  -- The slot that a new token fills.
  abbrev pub filled : OciRole → Text → Text → Text → Text → ℕ → ℕ → ℕ → Slot
  filled role owner minter_id token_value token_id i now next = record {
    token_id = token_id;
    token_value = token_value;
    rotated_at = now;
    next_rotation_at = next;
    state = slot_active;
    slot_index = i;
    description = slot_description owner role.name i;
    minter_set = role.minter_set;
    minter_id = minter_id;
  }

  -- The loop of `initializeSlots`, from an index on, with the number of slots left; `false` on an error.
  unfoldable pub fill_slots : OciRole → Text → Text → Text → ℕ → ℕ → ℕ → World S → World S × Bool
  fill_slots role owner minter_id minter now i zero w = (w, true)
  fill_slots role owner minter_id minter now i (suc n) w =
      let call = create_auth_token minter role.user_ocid (slot_description owner role.name i) in
      let asked = record w { calls = w.calls ++ call ∷ [] } in
      elim (env.create w.calls call) [
        | none ↦ (asked, false)
        | some (value, id) ↦
            let slot =
              filled role owner minter_id value id i now (now + rotation_interval role * (i + 1)) in
            elim (save_slot role.name slot w.storage) [
              | none ↦ (asked, false)
              | some s ↦
                  fill_slots role owner minter_id minter now (i + 1) n
                    (record asked { storage = s })
            ]
      ]

  -- `initializeSlots`.
  unfoldable pub initialize_slots : OciRole → ℕ → World S → World S × Bool
  initialize_slots role now w =
      let (w', owner) = owner_instance_id w in
      elim owner [
        | none ↦ (w', false)
        | some owner ↦ elim (select_minter_for_set now role.minter_set w'.minter_sets) [
          | none ↦ (w', false)
          | some (minter_id, minter) ↦
              fill_slots role owner minter_id minter now 0 role.slot_count w'
        ]
      ]

  -- The end of `rotateSlot`: the old token is deleted as far as it can be.
  unfoldable pub delete_old : OciRole → Slot → ℕ → World S → World S
  delete_old role existing now w =
      if is_empty existing.token_id
      then w
      else elim (client_for_slot now existing role.minter_set w.minter_sets) [
        | none ↦ w
        | some token ↦ record w {
          calls = w.calls ++ delete_auth_token token role.user_ocid existing.token_id ∷ [];
        }
      ]

  -- `rotateSlot` from the call of `CreateAuthToken` on, with `false` on an error.
  unfoldable pub replace_token :
      OciRole → Text → Text → Text → Slot → ℕ → ℕ → World S → World S × Bool
  replace_token role owner minter_id minter existing i now w =
      let call = create_auth_token minter role.user_ocid (slot_description owner role.name i) in
      let asked = record w { calls = w.calls ++ call ∷ [] } in
      elim (env.create w.calls call) [
        | none ↦ (asked, false)
        | some (value, id) ↦
            let slot = filled role owner minter_id value id i now (now + rotation_interval role) in
            elim (save_slot role.name slot w.storage) [
              | none ↦ (
                record asked {
                  calls = asked.calls ++ delete_auth_token minter role.user_ocid id ∷ [];
                },
                false,
              )
              | some s ↦ (delete_old role existing now (record asked { storage = s }), true)
            ]
      ]

  -- `rotateSlot`.
  unfoldable pub rotate_slot : OciRole → ℕ → ℕ → World S → World S × Bool
  rotate_slot role i now w =
      let (w', owner) = owner_instance_id w in
      elim owner [
        | none ↦ (w', false)
        | some owner ↦ elim (load_slot w'.storage role.name i) [
          | none ↦ (w', false)
          | some none ↦ (w', false)
          | some (some existing) ↦ elim (select_minter_for_set now role.minter_set w'.minter_sets) [
            | none ↦ (w', false)
            | some (minter_id, minter) ↦ replace_token role owner minter_id minter existing i now w'
          ]
        ]
      ]

  -- One round of the loop of `rotateDueSlots`.
  unfoldable pub rotate_if_due : OciRole → ℕ → ℕ → World S → World S
  rotate_if_due role i now w = elim (load_slot w.storage role.name i) [
    | none ↦ w
    | some none ↦ w
    | some (some s) ↦
        let due = is_active s.state && ltb s.next_rotation_at now in
        elim due [ true ↦ (rotate_slot role i now w).0 | false ↦ w ]
  ]

  unfoldable pub rotate_due_from : OciRole → ℕ → ℕ → ℕ → World S → World S
  rotate_due_from role i zero now w = w
  rotate_due_from role i (suc n) now w =
      rotate_due_from role (i + 1) n now (rotate_if_due role i now w)

  -- `rotateDueSlots`.
  unfoldable pub rotate_due_slots : OciRole → ℕ → World S → World S
  rotate_due_slots role now w = rotate_due_from role 0 role.slot_count now w

  -- `loadRole`: a role that cannot be read is passed over.
  unfoldable pub load_role : S → Text → Option OciRole
  load_role s name = elim (env.storage.get s (text "roles/" ++ name)) [
    | none ↦ none
    | some none ↦ none
    | some (some v) ↦ env.decode_role v
  ]

  unfoldable pub rotate_roles : ℕ → List Text → World S → World S
  rotate_roles now [] w = w
  rotate_roles now (name ∷ names) w = elim (load_role w.storage name) [
    | none ↦ rotate_roles now names w
    | some role ↦ elim role.disabled [
      | true ↦ rotate_roles now names w
      | false ↦ rotate_roles now names (rotate_due_slots role now w)
    ]
  ]

  -- `rotationWorker`, with `false` on an error.
  unfoldable pub rotation_worker : ℕ → World S → World S × Bool
  rotation_worker now w = elim (env.storage.list w.storage (text "roles/")) [
    | none ↦ (w, false)
    | some names ↦ (rotate_roles now names w, true)
  ]
