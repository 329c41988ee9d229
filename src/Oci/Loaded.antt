-- ===== src/Oci/Loaded.antt =====
-- What the loading of a role and of its slots reads from the storage.
use mathlib.Core.List.{Memᴰ}
use openbao_cloud_creds.Base.{
  ℕ, zero, suc, ◌+◌, ◌≤◌, ◌<◌, ◌≡◌, sym, ◌∙◌, ◌⊎◌, inl, inr, ap, subst, ltb, Text, text, ◌++◌, List,
  [], ◌∷◌, Option, none, some, Option-cases, false, Bool-cases, arith,
}
use openbao_cloud_creds.Errors.{ErrorCode, role_disabled}
use openbao_cloud_creds.Storage.{Value}
use openbao_cloud_creds.Oci.{Slot, OciRole, Env}
use openbao_cloud_creds.Oci.Slots.{storage_key_for_slot, load_slot, load_slots_from, load_all_slots}
use openbao_cloud_creds.Oci.Creds.{load_issuable_role}

module _ {ℓ} {A : Type ℓ} where
  taken : {a b : A} → some a ≡ some b → a ≡ b
  taken q = cc

  never : {a : A} → none ≡ some a → ⊥
  never q = cc

refused_role : {code : ErrorCode} {r : OciRole} → inr code ≡ inl r → ⊥
refused_role q = cc

loaded_role : {q r : OciRole} → ◌≡◌ {A = OciRole ⊎ ErrorCode} (inl q) (inl r) → q ≡ r
loaded_role q = cc

module _ {S : Type 0} (env : Env S) where
  -- The role is stored under its name, and is not disabled.
  abbrev pub IsEnabled : S → Text → OciRole → Type 0
  IsEnabled s name role =
      (v : Value) × (env.storage.get s (text "roles/" ++ name) ≡ some (some v))
      × (env.decode_role v ≡ some role)
      × (role.disabled ≡ false)

  pub load_issuable_role-IsEnabled :
      (s : S) (name : Text) (role : OciRole)
      → load_issuable_role env s name ≡ inl role
      → IsEnabled s name role
  unfolding load_issuable_role
  load_issuable_role-IsEnabled s name role h =
      elim (Option-cases (env.storage.get s (text "roles/" ++ name))) [
        | inl e ↦ absurd (refused_role (rw (load_issuable_role, e) at h))
        | inr (none, e) ↦ absurd (refused_role (rw (load_issuable_role, e) at h))
        | inr (some v, e) ↦ elim (Option-cases (env.decode_role v)) [
          | inl f ↦ absurd (refused_role (rw (load_issuable_role, e, f) at h))
          | inr (r, f) ↦ elim (Bool-cases r.disabled) [
            | inl g ↦
                let q : load_issuable_role env s name ≡ inr role_disabled =
                  simp (load_issuable_role, e, f, g) in
                absurd (refused_role (sym q ∙ h))
            | inr g ↦
                let q : load_issuable_role env s name ≡ inl r =
                  simp (load_issuable_role, e, f, g) in
                let same : r ≡ role = loaded_role (sym q ∙ h) in
                (v, e, f ∙ ap some same, sym (ap (λ x. x.disabled) same) ∙ g)
          ]
        ]
      ]

  -- The slot is stored under the key of its index.
  abbrev pub IsHeld : S → Text → ℕ → Slot → Type 0
  IsHeld s role i slot =
      (v : Value) × (env.storage.get s (storage_key_for_slot role i) ≡ some (some v))
      × (env.decode_slot v ≡ some slot)

  load_slot-IsHeld :
      (s : S) (role : Text) (i : ℕ) (slot : Slot)
      → load_slot env s role i ≡ some (some slot)
      → IsHeld s role i slot
  unfolding load_slot
  load_slot-IsHeld s role i slot h =
      elim (Option-cases (env.storage.get s (storage_key_for_slot role i))) [
        | inl e ↦ absurd (never (rw (load_slot, e) at h))
        | inr (none, e) ↦ absurd (never (taken (rw (load_slot, e) at h)))
        | inr (some v, e) ↦ elim (Option-cases (env.decode_slot v)) [
          | inl f ↦ absurd (never (rw (load_slot, e, f) at h))
          | inr (t, f) ↦ (v, e, f ∙ taken (rw (load_slot, e, f) at h))
        ]
      ]

  IsHeld-load_slot :
      (s : S) (role : Text) (i : ℕ) (slot : Slot)
      → IsHeld s role i slot
      → load_slot env s role i ≡ some (some slot)
  unfolding load_slot
  IsHeld-load_slot s role i slot (v, e, f) = simp (load_slot, e, f)

  -- The slots of a list are just those that are stored at so many indices from one on.
  pub record AllHeld (s : S) (role : Text) (i n : ℕ) (slots : List Slot) : Type 0 where
    pub held : (slot : Slot) → Memᴰ slot slots → (j : ℕ) × (j < i + n) × IsHeld s role j slot
    pub whole : (j : ℕ) (slot : Slot) → i ≤ j → j < i + n → IsHeld s role j slot → Memᴰ slot slots

  load_slots_from-AllHeld :
      (s : S) (role : Text) (i n : ℕ) (slots : List Slot)
      → load_slots_from env s role i n ≡ some slots
      → AllHeld s role i n slots
  unfolding load_slots_from
  load_slots_from-AllHeld s role i zero slots h = record {
    held = λ slot m. absurd (nothing slot (subst (Memᴰ slot) (sym (taken h)) m));
    whole = λ j slot le lt k. absurd (omega (arith, le, lt));
  }
    where
      nothing : (slot : Slot) → Memᴰ slot [] → ⊥
      nothing slot m = elim m [ ]
  load_slots_from-AllHeld s role i (suc n) slots h = elim (Option-cases (load_slot env s role i)) [
    | inl e ↦ absurd (never (rw (load_slots_from, e) at h))
    | inr (found, e) ↦ elim (Option-cases (load_slots_from env s role (i + 1) n)) [
      | inl f ↦ absurd (never (rw (load_slots_from, e, f) at h))
      | inr (rest, f) ↦
          let ih = load_slots_from-AllHeld s role (i + 1) n rest f in
          one found rest e ih (rw (load_slots_from, e, f) at h)
    ]
  ]
    where
      here :
          (found : Option Slot)
          → load_slot env s role i ≡ some found
          → (j : ℕ) (slot : Slot) → j ≡ i
          → IsHeld s role j slot
          → load_slot env s role i ≡ some (some slot)
      here found e j slot q k = ap (load_slot env s role) (sym q) ∙ IsHeld-load_slot s role j slot k

      one :
          (found : Option Slot) (rest : List Slot)
          → load_slot env s role i ≡ some found
          → AllHeld s role (i + 1) n rest
          → some (elim found [ none ↦ rest | some slot ↦ slot ∷ rest ]) ≡ some slots
          → AllHeld s role i (suc n) slots
      one none rest e ih q = subst (AllHeld s role i (suc n)) (taken q) (record {
        held = λ slot m. let (j, lt, k) = ih.held slot m in (j, omega (arith, lt), k);
        whole = λ j slot le lt k. elim (Bool-cases (ltb i j)) [
          | inl f ↦ ih.whole j slot (ground arith) (omega (arith, lt)) k
          | inr f ↦ absurd (never (taken (sym e ∙ here none e j slot (ground arith) k)))
        ];
      })
      one (some t) rest e ih q = subst (AllHeld s role i (suc n)) (taken q) (record {
        held = λ slot m. elim m [
          | Memᴰ.head x ↦
              (i, omega arith, subst (IsHeld s role i) (sym x) (load_slot-IsHeld s role i t e))
          | Memᴰ.tail x ↦ let (j, lt, k) = ih.held slot x in (j, omega (arith, lt), k)
        ];
        whole = λ j slot le lt k. elim (Bool-cases (ltb i j)) [
          | inl f ↦ Memᴰ.tail (ih.whole j slot (ground arith) (omega (arith, lt)) k)
          | inr f ↦
              Memᴰ.head (sym (taken (taken (sym e ∙ here (some t) e j slot (ground arith) k))))
        ];
      })

  pub load_all_slots-AllHeld :
      (s : S) (role : Text) (n : ℕ) (slots : List Slot)
      → load_all_slots env s role n ≡ some slots
      → AllHeld s role 0 n slots
  unfolding load_all_slots
  load_all_slots-AllHeld s role n slots h = load_slots_from-AllHeld s role 0 n slots h
