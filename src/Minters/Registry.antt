-- ===== src/Minters/Registry.antt =====
-- What the ids that a mount owns by its minters are, and that a pass of the reconciler spares them.
use mathlib.Core.List.{Memᴰ}
use openbao_cloud_creds.Base.{
  ◌≡◌, ◌≢◌, ap, ◌⊎◌, inl, inr, ℕ, Text, is_empty, ◌++◌, List, [], ◌∷◌, Option, none, some,
  Option-cases, false, Bool-cases, All,
}
use openbao_cloud_creds.Storage.{Value, Storage}
use openbao_cloud_creds.Reconciler.{UpstreamEntity, Config, Pass, Deleter, run}
use openbao_cloud_creds.Reconciler.Orphans.{IsDeletable, run-calls-IsDeletable}
use openbao_cloud_creds.Minters.{Minter, param}
use openbao_cloud_creds.Minters.Owned.{
  minter_set_prefix, add_id, add_ids, add_minters, read_sets, minter_upstream_ids, merge_owned,
}

-- What holds of every id that a minter records under the keys.
abbrev pub Recorded : List Text → (Text → Type 0) → Minter → Type 0
Recorded keys Q m =
    (key : Text)
    → Memᴰ key keys
    → is_empty (param key m.rotation_params) ≡ false
    → Q (param key m.rotation_params)

abbrev Among : List Text → Text → Type 0
Among owned id = Memᴰ id owned

module _ {ℓ} {A : Type ℓ} where
  taken : {a b : A} → some a ≡ some b → a ≡ b
  taken q = cc

  never : {a : A} → none ≡ some a → ⊥
  never q = cc

add_id-keeps : (id x : Text) (owned : List Text) → Memᴰ x owned → Memᴰ x (add_id id owned)
unfolding add_id
add_id-keeps id x owned h = elim (Bool-cases (is_empty id)) [
  | inl e ↦ rw (add_id, e) h
  | inr e ↦ rw (add_id, e) (Memᴰ.tail h)
]

add_ids-keeps :
    (keys : List Text) (m : Minter) (x : Text) (owned : List Text)
    → Memᴰ x owned
    → Memᴰ x (add_ids keys m owned)
unfolding add_ids
add_ids-keeps [] m x owned h = h
add_ids-keeps (key ∷ keys) m x owned h =
    add_ids-keeps keys m x (add_id (param key m.rotation_params) owned)
      (add_id-keeps (param key m.rotation_params) x owned h)

add_ids-Recorded :
    (keys : List Text) (m : Minter) (owned : List Text)
    → Recorded keys (Among (add_ids keys m owned)) m
unfolding add_ids add_id
add_ids-Recorded [] m owned key h full = elim h [ ]
add_ids-Recorded (k ∷ keys) m owned key (Memᴰ.head e) full =
    add_ids-keeps keys m (param key m.rotation_params) (add_id (param k m.rotation_params) owned)
      (rw (add_id, rw e at full) (Memᴰ.head (ap (λ x. param x m.rotation_params) e)))
add_ids-Recorded (k ∷ keys) m owned key (Memᴰ.tail h) full =
    add_ids-Recorded keys m (add_id (param k m.rotation_params) owned) key h full

add_minters-keeps :
    (keys : List Text) (minters : List Minter) (x : Text) (owned : List Text)
    → Memᴰ x owned
    → Memᴰ x (add_minters keys minters owned)
unfolding add_minters
add_minters-keeps keys [] x owned h = h
add_minters-keeps keys (m ∷ minters) x owned h =
    add_minters-keeps keys minters x (add_ids keys m owned) (add_ids-keeps keys m x owned h)

add_minters-Recorded :
    (keys : List Text) (minters : List Minter) (owned : List Text) (m : Minter)
    → Memᴰ m minters
    → Recorded keys (Among (add_minters keys minters owned)) m
unfolding add_minters
add_minters-Recorded keys [] owned m h = elim h [ ]
add_minters-Recorded keys (n ∷ minters) owned m (Memᴰ.head e) = rw e (λ key k full.
    add_minters-keeps keys minters (param key n.rotation_params) (add_ids keys n owned)
      (add_ids-Recorded keys n owned key k full))
add_minters-Recorded keys (n ∷ minters) owned m (Memᴰ.tail h) =
    add_minters-Recorded keys minters (add_ids keys n owned) m h

merge_owned-keeps :
    (into from : List Text) (x : Text) → Memᴰ x into ⊎ Memᴰ x from → Memᴰ x (merge_owned into from)
unfolding merge_owned
merge_owned-keeps into [] x (inl h) = h
merge_owned-keeps into [] x (inr h) = elim h [ ]
merge_owned-keeps into (id ∷ from) x (inl h) =
    merge_owned-keeps (id ∷ into) from x (inl (Memᴰ.tail h))
merge_owned-keeps into (id ∷ from) x (inr (Memᴰ.head e)) =
    merge_owned-keeps (id ∷ into) from x (inl (Memᴰ.head e))
merge_owned-keeps into (id ∷ from) x (inr (Memᴰ.tail h)) =
    merge_owned-keeps (id ∷ into) from x (inr h)

module _ {S : Type 0} (st : Storage S) (decode : Value → Option (List Minter)) (s : S)
    (keys : List Text) where
  read_sets-keeps :
      (names : List Text) (x : Text) (owned : List Text) {out : List Text}
      → Memᴰ x owned
      → read_sets st decode s keys names owned ≡ some out
      → Memᴰ x out
  unfolding read_sets
  read_sets-keeps [] x owned h e = rw (← taken e) h
  read_sets-keeps (name ∷ names) x owned h e =
      elim (Option-cases (st.get s (minter_set_prefix ++ name))) [
        | inl f ↦ absurd (never (rw (read_sets, f) at e))
        | inr (none, f) ↦ read_sets-keeps names x owned h (rw (read_sets, f) at e)
        | inr (some v, f) ↦ elim (Option-cases (decode v)) [
          | inl g ↦ absurd (never (rw (read_sets, f, g) at e))
          | inr (minters, g) ↦
              read_sets-keeps names x (add_minters keys minters owned)
                (add_minters-keeps keys minters x owned h) (rw (read_sets, f, g) at e)
        ]
      ]

  -- A listed set is gone, or it was read, and something holds of all the ids of its minters.
  abbrev pub IsCounted : (Text → Type 0) → Text → Type 0
  IsCounted Q name =
      (st.get s (minter_set_prefix ++ name) ≡ some none)
      ⊎ ((v : Value) × (minters : List Minter) × (st.get s (minter_set_prefix ++ name)
            ≡ some (some v))
          × (decode v ≡ some minters)
          × ((m : Minter) → Memᴰ m minters → Recorded keys Q m))

  read_sets-IsCounted :
      (names owned : List Text) (out : List Text) (name : Text)
      → Memᴰ name names
      → read_sets st decode s keys names owned ≡ some out
      → IsCounted (Among out) name
  unfolding read_sets
  read_sets-IsCounted [] owned out name h e = elim h [ ]
  read_sets-IsCounted (n ∷ names) owned out name (Memᴰ.head q) e =
      rw q (elim (Option-cases (st.get s (minter_set_prefix ++ n))) [
        | inl f ↦ absurd (never (rw (read_sets, f) at e))
        | inr (none, f) ↦ inl f
        | inr (some v, f) ↦ elim (Option-cases (decode v)) [
          | inl g ↦ absurd (never (rw (read_sets, f, g) at e))
          | inr (minters, g) ↦ inr (
            v,
            minters,
            f,
            g,
            λ m k key i full.
                read_sets-keeps names (param key m.rotation_params) (add_minters keys minters owned)
                  (add_minters-Recorded keys minters owned m k key i full)
                  (rw (read_sets, f, g) at e),
          )
        ]
      ])
  read_sets-IsCounted (n ∷ names) owned out name (Memᴰ.tail h) e =
      elim (Option-cases (st.get s (minter_set_prefix ++ n))) [
        | inl f ↦ absurd (never (rw (read_sets, f) at e))
        | inr (none, f) ↦ read_sets-IsCounted names owned out name h (rw (read_sets, f) at e)
        | inr (some v, f) ↦ elim (Option-cases (decode v)) [
          | inl g ↦ absurd (never (rw (read_sets, f, g) at e))
          | inr (minters, g) ↦
              read_sets-IsCounted names (add_minters keys minters owned) out name h
                (rw (read_sets, f, g) at e)
        ]
      ]

  IsCounted-map :
      (Q R : Text → Type 0) (name : Text)
      → ((id : Text) → Q id → R id)
      → IsCounted Q name
      → IsCounted R name
  IsCounted-map Q R name f (inl gone) = inl gone
  IsCounted-map Q R name f (inr (v, minters, got, decoded, h)) = inr (
    v,
    minters,
    got,
    decoded,
    λ m k key i full. f (param key m.rotation_params) (h m k key i full),
  )

All-Memᴰ : (P : Text → Type 0) (xs : List Text) {x : Text} → All P xs → Memᴰ x xs → P x
All-Memᴰ P [] h k = elim k [ ]
All-Memᴰ P (y ∷ xs) h (Memᴰ.head e) = rw e (h.0)
All-Memᴰ P (y ∷ xs) h (Memᴰ.tail k) = All-Memᴰ P xs h.1 k

module _ {S : Type 0} (st : Storage S) (decode : Value → Option (List Minter)) (s : S) where
  -- The owned ids are complete: every set that the storage lists is gone or was read, and all the ids
  -- that its minters record under the keys, of retired ones too, are among them. If a set cannot
  -- be read or parsed, there is no answer.
  pub minter_upstream_ids-IsCounted :
      (key : Text) (keys owned : List Text)
      → minter_upstream_ids st decode s (key ∷ keys) ≡ some owned
      → (names : List Text) × (st.list s minter_set_prefix ≡ some names)
        × ((name : Text)
            → Memᴰ name names
            → IsCounted st decode s (key ∷ keys) (λ id. Memᴰ id owned) name)
  unfolding minter_upstream_ids
  minter_upstream_ids-IsCounted key keys owned e =
      elim (Option-cases (st.list s minter_set_prefix)) [
        | inl f ↦ absurd (never (rw (minter_upstream_ids, f) at e))
        | inr (names, f) ↦ (
          names,
          f,
          λ name h.
              read_sets-IsCounted st decode s (key ∷ keys) names [] owned name h
                (rw (minter_upstream_ids, f) at e),
        )
      ]

  not_deleted :
      (calls : List UpstreamEntity) (cfg : Config) (now : ℕ) (owned : List Text) (id : Text)
      → All (IsDeletable cfg now owned) calls
      → Memᴰ id owned
      → All (λ e. e.id ≢ id) calls
  not_deleted [] cfg now owned id h k = tt
  not_deleted (e ∷ calls) cfg now owned id h k =
      (All-Memᴰ (λ x. e.id ≢ x) owned h.0.0 k, not_deleted calls cfg now owned id h.1 k)

  -- Where the owned ids of a mount's registry are the tracked ones merged with those of its minters, a pass
  -- of the reconciler never asks for the deletion of an upstream credential that a minter of a
  -- stored set records: each set that is listed is gone or was read and parsed, and the id that
  -- any of its minters, retired or not, has under any of the keys is the id of no entity that
  -- the pass asks to delete.
  pub run-spares_minters :
      (key : Text) (keys minter_ids tracked : List Text) (cloud : Deleter) (cfg : Config) (now : ℕ)
      (listing : Option (List UpstreamEntity)) (p : Pass)
      → minter_upstream_ids st decode s (key ∷ keys) ≡ some minter_ids
      → run cloud cfg now listing (some (merge_owned tracked minter_ids)) ≡ some p
      → (names : List Text) × (st.list s minter_set_prefix ≡ some names)
        × ((name : Text)
            → Memᴰ name names
            → IsCounted st decode s (key ∷ keys) (λ id. All (λ e. e.id ≢ id) p.calls) name)
  run-spares_minters key keys minter_ids tracked cloud cfg now listing p e r =
      let all = merge_owned tracked minter_ids in
      let (names, listed, counted) = minter_upstream_ids-IsCounted key keys minter_ids e in
      let (entities, owned, found, same, deletable) =
        run-calls-IsDeletable cloud cfg now listing (some all) p r in
      (
        names,
        listed,
        λ name h.
            IsCounted-map st decode s (key ∷ keys) (Among minter_ids)
              (λ id. All (λ x. x.id ≢ id) p.calls) name
              (λ id k.
                not_deleted p.calls cfg now all id (rw (taken same) deletable)
                  (merge_owned-keeps tracked minter_ids id (inr k)))
              (counted name h),
      )
