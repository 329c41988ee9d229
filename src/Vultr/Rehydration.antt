-- ===== src/Vultr/Rehydration.antt =====
-- What the mount holds after its minter sets are loaded: valid sets only, and the state machines of before.
use mathlib.Core.List.{Memᴰ}
use openbao_cloud_creds.Base.{
  ◌≡◌, refl, sym, ap, ◌∙◌, ◌≢◌, ◌⊎◌, inl, inr, Text, text_eq, text_eq_iff, text_eq_refl, ◌++◌, List,
  [], ◌∷◌, none, some, Option-cases, false, Bool-cases, find_key, set_key, find_key-set_key,
  remove_key, find_key-remove_key,
}
use openbao_cloud_creds.Recovery.{StateMachine}
use openbao_cloud_creds.Minters.{Minter, validate_minter_set, check_schema}
use openbao_cloud_creds.Vultr.{MinterSet, MinterState, MinterStates, MinterSets, Env}
use openbao_cloud_creds.Vultr.Sets.{
  set_prefix, fresh_machine, carried, load_states, states_of, load_minter_set, load_stored,
  load_names,
}

module _ {ℓ} {A : Type ℓ} where
  taken : {a b : A} → some a ≡ some b → a ≡ b
  taken q = cc

  -- What is read after a write: what was written, or what another key held.
  pub find_set-cases :
      (key k : Text) (a : A) (m : List (Text × A)) {v : A}
      → find_key key (set_key k a m) ≡ some v
      → ((k ≡ key) × (a ≡ v)) ⊎ (find_key key m ≡ some v)
  find_set-cases key k a m {v} h = elim (Bool-cases (text_eq k key)) [
    | inl e ↦ inl ((text_eq_iff k key).0 e, taken (rw e at (sym (find_key-set_key key k a m) ∙ h)))
    | inr e ↦ inr (rw e at (sym (find_key-set_key key k a m) ∙ h))
  ]

  pub find_remove-cases :
      (key k : Text) (m : List (Text × A)) {v : A}
      → find_key key (remove_key k m) ≡ some v
      → find_key key m ≡ some v
  find_remove-cases key k m {v} h = elim (Bool-cases (text_eq k key)) [
    | inl e ↦ absurd (never (rw e at (sym (find_key-remove_key key k m) ∙ h)))
    | inr e ↦ rw e at (sym (find_key-remove_key key k m) ∙ h)
  ]
    where
      never : none ≡ some v → ⊥
      never q = cc

-- Every entry of the states is a minter of the list, under its id.
abbrev pub Holds : List Minter → MinterStates → Type 0
Holds minters states =
    (id : Text) (ms : MinterState)
    → find_key id states ≡ some ms
    → Memᴰ ms.minter minters × (ms.minter.id ≡ id)

-- The set holds what a list that `validate_minter_set` accepts has: under each id of the list one of its
-- minters of that id, and nothing else.
abbrev pub Valid : MinterStates → Type 0
Valid states =
    (minters : List Minter) × (validate_minter_set minters ≡ none)
    × Holds minters states
    × ((m : Minter) → Memᴰ m minters → (ms : MinterState) × (find_key m.id states ≡ some ms))

-- Every set that the mount holds is valid.
abbrev pub Sound : MinterSets → Type 0
Sound sets = (name : Text) (states : MinterStates) → find_key name sets ≡ some states → Valid states

load_states-Holds :
    (minters : List Minter) (previous : MinterStates) (rest : List Minter) (states : MinterStates)
    → ((m : Minter) → Memᴰ m rest → Memᴰ m minters)
    → Holds minters states
    → Holds minters (load_states previous rest states)
unfolding load_states
load_states-Holds minters previous [] states sub h = h
load_states-Holds minters previous (m ∷ rest) states sub h =
    let entry : MinterState = record { minter = m; sm = carried previous m.id } in
    load_states-Holds minters previous rest (set_key m.id entry states) (λ x k. sub x (Memᴰ.tail k))
      (λ id ms k. elim (find_set-cases id m.id entry states k) [
        | inl (p, q) ↦ rw (← q) (sub m (Memᴰ.head refl), p)
        | inr q ↦ h id ms q
      ])

pub no_entry {ℓ} : {A : Type ℓ} {a : A} (id : Text) → find_key id [] ≡ some a → ⊥
unfolding find_key
no_entry id h = cc

-- Once an id has an entry, the rest of the loop leaves it one.
load_states-keeps :
    (previous : MinterStates) (rest : List Minter) (states : MinterStates) (id : Text)
    {ms : MinterState}
    → find_key id states ≡ some ms
    → (out : MinterState) × (find_key id (load_states previous rest states) ≡ some out)
unfolding load_states
load_states-keeps previous [] states id {ms} h = (ms, h)
load_states-keeps previous (m ∷ rest) states id {ms} h =
    let entry : MinterState = record { minter = m; sm = carried previous m.id } in
    elim (Bool-cases (text_eq m.id id)) [
      | inl e ↦
          load_states-keeps previous rest (set_key m.id entry states) id {ms = entry}
            (find_key-set_key id m.id entry states ∙ rw e refl)
      | inr e ↦
          load_states-keeps previous rest (set_key m.id entry states) id {ms = ms}
            (find_key-set_key id m.id entry states ∙ rw e h)
    ]

load_states_complete :
    (previous : MinterStates) (rest : List Minter) (states : MinterStates) {m : Minter}
    → Memᴰ m rest
    → (out : MinterState) × (find_key m.id (load_states previous rest states) ≡ some out)
unfolding load_states
load_states_complete previous [] states k = elim k [ ]
load_states_complete previous (n ∷ rest) states (Memᴰ.head e) =
    let entry : MinterState = record { minter = n; sm = carried previous n.id } in
    rw e (
      load_states-keeps previous rest (set_key n.id entry states) n.id {ms = entry}
        (find_key-set_key n.id n.id entry states ∙ rw (text_eq_refl n.id) refl))
load_states_complete previous (n ∷ rest) states (Memᴰ.tail k) =
    load_states_complete previous rest _ k

pub load_minter_set-Sound :
    (set : MinterSet) (sets : MinterSets)
    → validate_minter_set set.minters ≡ none
    → Sound sets
    → Sound (load_minter_set set sets)
unfolding load_minter_set
load_minter_set-Sound set sets ok sound name states h =
    let loaded = load_states (states_of set.name sets) set.minters [] in
    elim (find_set-cases name set.name loaded sets h) [
      | inl (p, q) ↦ rw (← q) (
        set.minters,
        ok,
        load_states-Holds set.minters (states_of set.name sets) set.minters [] (λ m k. k)
            (λ id ms k. absurd (no_entry id k)),
        λ m k. load_states_complete (states_of set.name sets) set.minters [] k,
      )
      | inr q ↦ sound name states q
    ]

load_stored-Sound :
    {S : Type 0} (env : Env S) (s : S) (name : Text) (sets : MinterSets)
    → Sound sets
    → Sound (load_stored env s name sets)
unfolding load_stored
load_stored-Sound env s name sets sound =
    elim (Option-cases (env.storage.get s (set_prefix ++ name))) [
      | inl e ↦ rw (load_stored, e) sound
      | inr (none, e) ↦ rw (load_stored, e) sound
      | inr (some v, e) ↦ elim (Option-cases (env.decode_set v)) [
        | inl f ↦ rw (load_stored, e, f) sound
        | inr (set, f) ↦ elim (Option-cases (check_schema set.schema)) [
          | inr (problem, g) ↦ rw (load_stored, e, f, g) sound
          | inl g ↦ elim (Option-cases (validate_minter_set set.minters)) [
            | inr (problem, k) ↦ rw (load_stored, e, f, g, k) sound
            | inl k ↦ rw (load_stored, e, f, g, k) (load_minter_set-Sound set sets k sound)
          ]
        ]
      ]
    ]

pub load_names-Sound :
    {S : Type 0} (env : Env S) (s : S) (names : List Text) (sets : MinterSets)
    → Sound sets
    → Sound (load_names env s names sets)
unfolding load_names
load_names-Sound env s [] sets sound = sound
load_names-Sound env s (name ∷ names) sets sound =
    load_names-Sound env s names (load_stored env s name sets)
      (load_stored-Sound env s name sets sound)

load_states-carried :
    (previous : MinterStates) (rest : List Minter) (states : MinterStates) (id : Text)
    {ms : MinterState}
    → ((ms : MinterState) → find_key id states ≡ some ms → ms.sm ≡ carried previous id)
    → find_key id (load_states previous rest states) ≡ some ms
    → ms.sm ≡ carried previous id
unfolding load_states
load_states-carried previous [] states id {ms} h k = h ms k
load_states-carried previous (m ∷ rest) states id h k =
    let entry : MinterState = record { minter = m; sm = carried previous m.id } in
    load_states-carried previous rest (set_key m.id entry states) id
      (λ ms q. elim (find_set-cases id m.id entry states q) [
        | inl (p, r) ↦ sym (ap (λ x. x.sm) r) ∙ ap (carried previous) p
        | inr r ↦ h ms r
      ])
      k

-- A state machine is the one of an id's entry, or a new one if the id has none.
abbrev pub Carried : MinterStates → Text → StateMachine → Type 0
Carried previous id sm =
    ((old : MinterState) × (find_key id previous ≡ some old) × (sm ≡ old.sm))
    ⊎ ((find_key id previous ≡ none) × (sm ≡ fresh_machine))

carried-Carried : (previous : MinterStates) (id : Text) → Carried previous id (carried previous id)
unfolding carried
carried-Carried previous id = elim (Option-cases (find_key id previous)) [
  | inl e ↦ inr (e, rw (carried, e) refl)
  | inr (old, e) ↦ inl (old, e, rw (carried, e) refl)
]

-- After a set is loaded, each of its minters has an entry, and the state machine of an entry is the one that
-- its id had in that set before, or a new one if it had none: a rewrite or a reload neither forgives a
-- minter that fails nor ends a cooldown. The other sets are as they were.
pub load_minter_set_lem :
    (set : MinterSet) (sets : MinterSets)
    → (states : MinterStates) × (find_key set.name (load_minter_set set sets) ≡ some states)
      × ((m : Minter) → Memᴰ m set.minters → (ms : MinterState) × (find_key m.id states ≡ some ms))
      × ((id : Text) (ms : MinterState)
          → find_key id states ≡ some ms
          → Carried (states_of set.name sets) id ms.sm)
      × ((name : Text)
          → name ≢ set.name
          → find_key name (load_minter_set set sets) ≡ find_key name sets)
unfolding load_minter_set
load_minter_set_lem set sets =
    let previous = states_of set.name sets in
    let loaded = load_states previous set.minters [] in
    (
      loaded,
      find_key-set_key set.name set.name loaded sets ∙ rw (text_eq_refl set.name) refl,
      λ m k. load_states_complete previous set.minters [] k,
      λ id ms k.
          rw (load_states-carried previous set.minters [] id (λ x q. absurd (no_entry id q)) k)
            (carried-Carried previous id),
      λ name other. find_key-set_key name set.name loaded sets ∙ rw (differ name other) refl,
    )
  where
    differ : (name : Text) → name ≢ set.name → text_eq set.name name ≡ false
    differ name other = elim (Bool-cases (text_eq set.name name)) [
      | inr e ↦ e
      | inl e ↦ absurd (other (sym ((text_eq_iff set.name name).0 e)))
    ]
