-- ===== src/Vultr/Machines.antt =====
-- What changes state machines only keeps the minters, and so the validity of the sets.
use mathlib.Core.List.{Memᴰ}
use openbao_cloud_creds.Base.{
  ℕ, ◌≡◌, refl, sym, ap, subst, ◌∙◌, inl, inr, Text, text_eq, [], ◌∷◌, some, Option-cases,
  Bool-cases, find_key, set_key, find_key-set_key,
}
use openbao_cloud_creds.Recovery.{StateMachine}
use openbao_cloud_creds.Capacity
use openbao_cloud_creds.Capability.Limiter.{States}
use openbao_cloud_creds.Vultr.{MinterState, MinterStates, MinterSets, Env}
use openbao_cloud_creds.Vultr.Pool.{update_minter, select_minter}
use openbao_cloud_creds.Vultr.Selection.{select_minter_lem}
use openbao_cloud_creds.Vultr.Sets.{return_in, return_machines}
use openbao_cloud_creds.Vultr.Rehydration.{Sound, find_set-cases}

-- The second states hold the minters of the first, under the same ids; their state machines may differ.
abbrev pub SameIn : MinterStates → MinterStates → Type 0
SameIn states states' =
    ((id : Text) (ms' : MinterState)
      → find_key id states' ≡ some ms'
      → (ms : MinterState) × (find_key id states ≡ some ms) × (ms.minter ≡ ms'.minter))
    × ((id : Text) (ms : MinterState)
        → find_key id states ≡ some ms
        → (ms' : MinterState) × (find_key id states' ≡ some ms'))

abbrev pub SameMinters : MinterSets → MinterSets → Type 0
SameMinters sets sets' =
    (name : Text) (states' : MinterStates)
    → find_key name sets' ≡ some states'
    → (states : MinterStates) × (find_key name sets ≡ some states) × SameIn states states'

same_in : (states : MinterStates) → SameIn states states
same_in states = (λ id ms h. (ms, h, refl), λ id ms h. (ms, h))

pub same : (sets : MinterSets) → SameMinters sets sets
same sets name states h = (states, h, same_in states)

pub then_same : (a b c : MinterSets) → SameMinters a b → SameMinters b c → SameMinters a c
then_same a b c p q name states h =
    let (t, k, r) = q name states h in
    let (u, l, s) = p name t k in
    (
      u,
      l,
      (
        λ id ms m. let (n, o, e) = r.0 id ms m in let (x, y, f) = s.0 id n o in (x, y, f ∙ e),
        λ id ms m. let (n, o) = s.1 id ms m in r.1 id n o,
      ),
    )

pub Sound-same : (sets sets' : MinterSets) → SameMinters sets sets' → Sound sets → Sound sets'
Sound-same sets sets' p sound name states h =
    let (t, k, r) = p name states h in
    let (minters, ok, held, complete) = sound name t k in
    (
      minters,
      ok,
      λ id ms m.
          let (n, o, e) = r.0 id ms m in subst (λ x. Memᴰ x minters × (x.id ≡ id)) e (held id n o),
      λ m i. let (ms, q) = complete m i in r.1 m.id ms q,
    )

set_machine :
    (id : Text) (ms : MinterState) (sm : StateMachine) (states : MinterStates)
    → find_key id states ≡ some ms
    → SameIn states (set_key id (record ms { sm = sm }) states)
set_machine id ms sm states h = (
  λ i ms' k. elim (find_set-cases i id (record ms { sm = sm }) states k) [
    | inl (p, q) ↦ (ms, ap (λ x. find_key x states) (sym p) ∙ h, ap (λ x. x.minter) q)
    | inr q ↦ (ms', q, refl)
  ],
  λ i n k. elim (Bool-cases (text_eq id i)) [
    | inl e ↦
        (record ms { sm = sm }, find_key-set_key i id (record ms { sm = sm }) states ∙ rw e refl)
    | inr e ↦ (n, find_key-set_key i id (record ms { sm = sm }) states ∙ rw e k)
  ],
)

set_states :
    (name : Text) (states states' : MinterStates) (sets : MinterSets)
    → find_key name sets ≡ some states
    → SameIn states states'
    → SameMinters sets (set_key name states' sets)
set_states name states states' sets h p n out k = elim (find_set-cases n name states' sets k) [
  | inl (e, q) ↦ (states, ap (λ x. find_key x sets) (sym e) ∙ h, subst (SameIn states) q p)
  | inr q ↦ (out, q, same_in out)
]

pub update_minter-same :
    (f : StateMachine → StateMachine) (set id : Text) (sets : MinterSets)
    → SameMinters sets (update_minter f set id sets)
unfolding update_minter
update_minter-same f set id sets = elim (Option-cases (find_key set sets)) [
  | inl e ↦ rw (update_minter, e) (same sets)
  | inr (states, e) ↦ elim (Option-cases (find_key id states)) [
    | inl g ↦ rw (update_minter, e, g) (same sets)
    | inr (ms, g) ↦
        rw (update_minter, e, g)
          (set_states set states _ sets e (set_machine id ms (f ms.sm) states g))
  ]
]

pub select_minter-same :
    {S : Type 0} (env : Env S) (set key : Text) (capacity : Capacity.State) (now : ℕ)
    (sets : MinterSets)
    → SameMinters sets (select_minter env set key capacity now sets).0
unfolding select_minter
select_minter-same env set key capacity now sets = elim (Option-cases (find_key set sets)) [
  | inl e ↦ rw (select_minter, e) (same sets)
  | inr (states, e) ↦ elim (select_minter_lem env set key capacity now sets e) [
    | inl (before, id, after, ms, p, q, u, v, x, y) ↦
        rw y (set_states set states _ sets e (set_machine id ms _ states v))
    | inr (q, x, y) ↦ rw y (same sets)
  ]
]

return_in-minters :
    (machines : States) (states : MinterStates) (id : Text) (ms' : MinterState)
    → find_key id (return_in machines states).0 ≡ some ms'
    → (ms : MinterState) × (find_key id states ≡ some ms) × (ms.minter ≡ ms'.minter)
unfolding return_in find_key
return_in-minters machines [] id ms h = (ms, h, refl)
return_in-minters [] ((k, m) ∷ states) id ms h = (ms, h, refl)
return_in-minters ((j, sm) ∷ machines) ((k, m) ∷ states) id ms h =
    elim (Bool-cases (text_eq k id)) [
      | inl e ↦
          (m, rw (find_key, e) refl, ap (λ x. x.minter) (taken (rw (return_in, find_key, e) at h)))
      | inr e ↦
          let (n, o, q) =
            return_in-minters machines states id ms (rw (return_in, find_key, e) at h) in
          (n, rw (find_key, e) o, q)
    ]
  where
    taken : {a b : MinterState} → some a ≡ some b → a ≡ b
    taken q = cc

return_in-ids :
    (machines : States) (states : MinterStates) (id : Text) (ms : MinterState)
    → find_key id states ≡ some ms
    → (ms' : MinterState) × (find_key id (return_in machines states).0 ≡ some ms')
unfolding return_in find_key
return_in-ids machines [] id ms h = (ms, h)
return_in-ids [] ((k, m) ∷ states) id ms h = (ms, h)
return_in-ids ((j, sm) ∷ machines) ((k, m) ∷ states) id ms h = elim (Bool-cases (text_eq k id)) [
  | inl e ↦ (record m { sm = sm }, rw (return_in, find_key, e) refl)
  | inr e ↦
      let (n, o) = return_in-ids machines states id ms (rw (find_key, e) at h) in
      (n, rw (return_in, find_key, e) o)
]

return_in-same :
    (machines : States) (states : MinterStates) → SameIn states (return_in machines states).0
return_in-same machines states = (return_in-minters machines states, return_in-ids machines states)

pub return_machines-same :
    (machines : States) (sets : MinterSets) → SameMinters sets (return_machines machines sets)
unfolding return_machines find_key
return_machines-same machines [] name states h = (states, h, same_in states)
return_machines-same machines ((k, s) ∷ sets) name states h = elim (Bool-cases (text_eq k name)) [
  | inl e ↦ (
    s,
    rw (find_key, e) refl,
    subst (SameIn s) (taken (rw (return_machines, find_key, e) at h)) (return_in-same machines s),
  )
  | inr e ↦
      let (n, o, q) =
        return_machines-same (return_in machines s).1 sets name states
          (rw (return_machines, find_key, e) at h) in
      (n, rw (find_key, e) o, q)
]
  where
    taken : {a b : MinterStates} → some a ≡ some b → a ≡ b
    taken q = cc
