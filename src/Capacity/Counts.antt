-- ===== src/Capacity/Counts.antt =====
-- The counts are those of the stored records.
use openbao_cloud_creds.Base.{
  ℕ, ◌+◌, ◌<◌, ◌++◌, ◌≡◌, refl, sym, ap, ◌∙◌, ◌↔◌, ◌⊎◌, inl, inr, Text, text_eq, text_eq_iff,
  select, List, [], ◌∷◌, Option, none, some, Option-cases, Bool, true, false, Bool-cases, ltb,
  length, if◌then◌else◌, arith,
}
use openbao_cloud_creds.Storage.{Value, Storage, Laws}
use openbao_cloud_creds.Capacity.{
  Used, used_by, count_one, State, enforced, has_room, minter_of, count_ids, snapshot,
}

used_by-count_one :
    (id k : Text) (used : Used)
    → used_by id (count_one k used) ≡ used_by id used + (if text_eq k id then 1 else 0)
unfolding used_by count_one
used_by-count_one id k [] = ground arith
used_by-count_one id k ((j, n) ∷ used) =
    ground (arith, text_eq_iff j k, text_eq_iff j id, text_eq_iff k id, used_by-count_one id k used)

module _ {S : Type 0} (st : Storage S) (content : S → Text → Option Value)
    (laws : Laws st content) where
  -- Whether the record with this id counts for the minter.
  unfoldable pub holds : S → Text → Text → Text → Bool
  holds s prefix minter id = elim (content s (prefix ++ id)) [
    | none ↦ false
    | some v ↦ text_eq (minter_of v) minter
  ]

  holds-stored :
      (s : S) (prefix minter id : Text) (v : Option Value)
      → st.get s (prefix ++ id) ≡ some v
      → holds s prefix minter id ≡ elim v [ none ↦ false | some w ↦ text_eq (minter_of w) minter ]
  unfolding holds
  holds-stored s prefix minter id v e = rw (holds, ← laws.get_reads s (prefix ++ id) e) refl

  count_ids-used_by :
      (s : S) (prefix minter : Text) (ids : List Text) (used res : Used)
      → count_ids st s prefix ids used ≡ some res
      → used_by minter res ≡ used_by minter used + length (select (holds s prefix minter) ids)
  unfolding count_ids
  count_ids-used_by s prefix minter [] used res h = rw (← unwrap h) (omega arith)
    where
      unwrap : {a b : Used} → some a ≡ some b → a ≡ b
      unwrap q = cc
  count_ids-used_by s prefix minter (id ∷ ids) used res h =
      elim (Option-cases (st.get s (prefix ++ id))) [
        | inl e ↦ absurd (never (rw (count_ids, e) at h))
        | inr (none, e) ↦
            rw (holds-stored s prefix minter id none e)
              (count_ids-used_by s prefix minter ids used res (rw (count_ids, e) at h))
        | inr (some v, e) ↦
            let more =
              count_ids-used_by s prefix minter ids (count_one (minter_of v) used) res
                (rw (count_ids, e) at h) in
            rw (holds-stored s prefix minter id (some v) e)
              (ground (arith, more, used_by-count_one minter (minter_of v) used))
      ]
    where
      never : none ≡ some res → ⊥
      never q = cc

  counted_afresh :
      (s : S) (prefix minter : Text) (ids : List Text) (res : Used)
      → count_ids st s prefix ids [] ≡ some res
      → used_by minter res ≡ length (select (holds s prefix minter) ids)
  unfolding used_by
  counted_afresh s prefix minter ids res h =
      omega (arith, count_ids-used_by s prefix minter ids [] res h)

  has_room_iff :
      (minter : Text) (state : State)
      → 0 < state.limit
      → (has_room minter state ≡ true) ↔ (used_by minter state.used < state.limit)
  unfolding has_room enforced
  has_room_iff minter state pos = ground arith

  has_room_uncapped :
      (minter : Text) (state : State) → state.limit ≡ 0 → has_room minter state ≡ true
  unfolding has_room enforced
  has_room_uncapped minter state e = ground arith

  -- A snapshot under a cap counts for each minter exactly the listed records that are stored and name it, and
  -- the minter has room just while there are fewer of them than the cap. Without a cap there is
  -- always room.
  pub snapshot_lem :
      (s : S) (prefix minter : Text) (limit : ℕ) (state : State)
      → snapshot st s prefix limit ≡ some state
      → ((limit ≡ 0) × (has_room minter state ≡ true))
        ⊎ ((0 < limit)
            × (ids : List Text) × (st.list s prefix ≡ some ids)
            × (used_by minter state.used ≡ length (select (holds s prefix minter) ids))
            × ((has_room minter state ≡ true)
                ↔ (length (select (holds s prefix minter) ids) < limit)))
  unfolding snapshot
  snapshot_lem s prefix minter limit state h = elim (Bool-cases (ltb 0 limit)) [
    | inr z ↦
        let q = unwrap (rw (snapshot, z) at h) in
        inl (ground arith, has_room_uncapped minter state (ap (λ x. x.limit) (sym q)))
    | inl z ↦ elim (Option-cases (st.list s prefix)) [
      | inl e ↦ absurd (never (rw (snapshot, z, e) at h))
      | inr (ids, e) ↦ elim (Option-cases (count_ids st s prefix ids [])) [
        | inl f ↦ absurd (never (rw (snapshot, z, e, f) at h))
        | inr (used, f) ↦
            let q = unwrap (rw (snapshot, z, e, f) at h) in
            let n =
              ap (λ x. used_by minter x.used) (sym q) ∙ counted_afresh s prefix minter ids used f in
            let l : state.limit ≡ limit = ap (λ x. x.limit) (sym q) in
            let pos : 0 < limit = ground arith in
            inr (pos, ids, e, n, rw (← n, ← l) (has_room_iff minter state (rw l pos)))
      ]
    ]
  ]
    where
      never : none ≡ some state → ⊥
      never q = cc

      unwrap : {a b : State} → some a ≡ some b → a ≡ b
      unwrap q = cc
