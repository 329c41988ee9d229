-- ===== src/Vultr/Selection.antt =====
-- Which minter serves a request.
use openbao_cloud_creds.Base.{
  ℕ, ◌++◌, ◌≡◌, refl, ap, ◌∙◌, ◌⊎◌, inl, inr, Text, List, [], ◌∷◌, Option, none, some, Option-cases,
  Bool, true, false, ◌&&◌, ◌||◌, not, Bool-cases, any, All, find_key, set_key, set_key-same,
  if◌then◌else◌, arith,
}
use openbao_cloud_creds.Errors.{pool_exhausted}
use openbao_cloud_creds.Recovery.{StateMachine, try_acquire, unavailable_error}
use openbao_cloud_creds.Capacity
use openbao_cloud_creds.Capacity.{has_room}
use openbao_cloud_creds.Affinity.{order_keys}
use openbao_cloud_creds.Minters.{Minter}
use openbao_cloud_creds.Vultr.{MinterState, MinterStates, MinterSets, Env}
use openbao_cloud_creds.Vultr.Pool.{
  machines_of, Attempt, no_room, passed_over, acquired, acquire, try_minter, select_from, conclude,
  select_minter,
}

-- The minter is in the set, has room, is not retired, and its state machine lets a caller through.
unfoldable pub can_serve : Capacity.State → ℕ → MinterStates → Text → Bool
can_serve capacity now states id = elim (find_key id states) [
  | none ↦ false
  | some ms ↦ has_room id capacity && (not ms.minter.retired && (try_acquire now ms.sm).1)
]

unfoldable pub is_full : Capacity.State → MinterStates → Text → Bool
is_full capacity states id = elim (find_key id states) [
  | none ↦ false
  | some ms ↦ not (has_room id capacity)
]

try_acquire_refused :
    (now : ℕ) (sm : StateMachine) → (try_acquire now sm).1 ≡ false → (try_acquire now sm).0 ≡ sm
unfolding try_acquire
try_acquire_refused now sm h = ground arith

or_false : (b : Bool) → b ≡ b || false
or_false true = refl
or_false false = refl

module _ (capacity : Capacity.State) (now : ℕ) where
  -- The states after a minter has let a caller through.
  abbrev pub probing : Text → MinterState → MinterStates → MinterStates
  probing id ms states = set_key id (record ms { sm = (try_acquire now ms.sm).0 }) states

  -- What a round of the loop comes to, for this id.
  data Tried (id : Text) (states : MinterStates) : Attempt → Type 0 where
    tried_full :
        can_serve capacity now states id ≡ false
        → is_full capacity states id ≡ true
        → Tried id states no_room
    tried_unfit :
        can_serve capacity now states id ≡ false
        → is_full capacity states id ≡ false
        → Tried id states (passed_over states)
    tried_fit :
        (ms : MinterState)
        → find_key id states ≡ some ms
        → can_serve capacity now states id ≡ true
        → Tried id states (acquired (probing id ms states) ms.minter)

  acquire-Tried :
      (id : Text) (ms : MinterState) (states : MinterStates)
      → find_key id states ≡ some ms
      → has_room id capacity ≡ true
      → ms.minter.retired ≡ false
      → Tried id states (acquire now id ms states)
  unfolding acquire can_serve is_full
  acquire-Tried id ms states e r t = elim (Bool-cases (try_acquire now ms.sm).1) [
    | inl g ↦ rw (acquire, g) (tried_fit ms e (rw (can_serve, e, r, t, g) refl))
    | inr g ↦
        let same : probing id ms states ≡ states =
          rw (try_acquire_refused now ms.sm g) (set_key-same id ms states e) in
        rw (acquire, g, same)
          (tried_unfit (rw (can_serve, e, r, t, g) refl) (rw (is_full, e, r) refl))
  ]

  try_minter-Tried :
      (id : Text) (states : MinterStates) → Tried id states (try_minter capacity now id states)
  unfolding try_minter can_serve is_full
  try_minter-Tried id states = elim (Option-cases (find_key id states)) [
    | inl e ↦ rw (try_minter, e) (tried_unfit (rw (can_serve, e) refl) (rw (is_full, e) refl))
    | inr (ms, e) ↦ elim (Bool-cases (has_room id capacity)) [
      | inr r ↦
          rw (try_minter, e, r) (tried_full (rw (can_serve, e, r) refl) (rw (is_full, e, r) refl))
      | inl r ↦ elim (Bool-cases ms.minter.retired) [
        | inl t ↦
            rw (try_minter, e, r, t)
              (tried_unfit (rw (can_serve, e, r, t) refl) (rw (is_full, e, r) refl))
        | inr t ↦
            let q : try_minter capacity now id states ≡ acquire now id ms states =
              simp (try_minter, e, r, t) in
            rw q (acquire-Tried id ms states e r t)
      ]
    ]
  ]

  -- What the loop comes to, from `atCapacity` as it was before: the first minter that can serve, or none.
  abbrev Selected :
      Bool → List Text → MinterStates → MinterStates × Bool × Option (Text × Minter) → Type 0
  Selected full ids states r =
      ((before : List Text) × (id : Text) × (after : List Text) × (ms : MinterState) × (ids
          ≡ before ++ id ∷ after)
        × All (λ i. can_serve capacity now states i ≡ false) before
        × (can_serve capacity now states id ≡ true)
        × (find_key id states ≡ some ms)
        × (r.0 ≡ probing id ms states)
        × (r.2 ≡ some (id, ms.minter)))
      ⊎ (All (λ i. can_serve capacity now states i ≡ false) ids
          × (r ≡ (states, full || any (is_full capacity states) ids, none)))

  add_unfit :
      (full full' : Bool) (id : Text) (ids : List Text) (states : MinterStates)
      (r : MinterStates × Bool × Option (Text × Minter))
      → can_serve capacity now states id ≡ false
      → (full' ≡ full || is_full capacity states id)
      → Selected full' ids states r
      → Selected full (id ∷ ids) states r
  add_unfit full full' id ids states r h k (inl (before, i, after, ms, p, q, u, v, x, y)) =
      inl (id ∷ before, i, after, ms, ap (◌∷◌ id) p, (h, q), u, v, x, y)
  add_unfit full full' id ids states r h k (inr (q, p)) =
      inr ((h, q), p ∙ ap (λ b. (states, b, none)) (rw k (or_assoc full)))
    where
      or_assoc :
          (a : Bool)
          → (a || is_full capacity states id) || any (is_full capacity states) ids
            ≡ a || (is_full capacity states id || any (is_full capacity states) ids)
      or_assoc true = refl
      or_assoc false = refl

  round :
      (full : Bool) (id : Text) (ids : List Text) (states : MinterStates) (a : Attempt)
      → Tried id states a
      → try_minter capacity now id states ≡ a
      → Selected true ids states (select_from capacity now true ids states)
      → Selected full ids states (select_from capacity now full ids states)
      → Selected full (id ∷ ids) states (select_from capacity now full (id ∷ ids) states)
  unfolding select_from
  round full id ids states no_room (tried_full h f) e full_rest rest =
      rw (select_from, e) (add_unfit full true id ids states _ h (rw f (or_true full)) full_rest)
    where
      or_true : (b : Bool) → true ≡ b || true
      or_true true = refl
      or_true false = refl
  round full id ids states (passed_over _) (tried_unfit h f) e full_rest rest =
      rw (select_from, e) (add_unfit full full id ids states _ h (rw f (or_false full)) rest)
  round full id ids states (acquired _ _) (tried_fit ms k h) e full_rest rest =
      rw (select_from, e) (inl ([], id, ids, ms, refl, tt, h, k, refl, refl))

  select_from-Selected :
      (full : Bool) (ids : List Text) (states : MinterStates)
      → Selected full ids states (select_from capacity now full ids states)
  unfolding select_from
  select_from-Selected full [] states = inr (tt, ap (λ b. (states, b, none)) (or_false full))
  select_from-Selected full (id ∷ ids) states =
      round full id ids states (try_minter capacity now id states) (try_minter-Tried id states) refl
        (select_from-Selected true ids states) (select_from-Selected full ids states)

-- Of a set that is loaded, the minter that serves is the first in the client's order that has room, is
-- not retired and is let through by its state machine, and only its state machine takes note. If there
-- is none, no state changes, and the answer is `pool_exhausted` as soon as one lacks room, or else
-- what the state machines tell.
pub select_minter_lem :
    {S : Type 0} (env : Env S) (set key : Text) (capacity : Capacity.State) (now : ℕ)
    (pool : MinterSets) {states : MinterStates}
    → find_key set pool ≡ some states
    → let ids = order_keys env.sha256 env.draw key states in
      let r = select_minter env set key capacity now pool in
      ((before : List Text) × (id : Text) × (after : List Text) × (ms : MinterState) × (ids
          ≡ before ++ id ∷ after)
        × All (λ i. can_serve capacity now states i ≡ false) before
        × (can_serve capacity now states id ≡ true)
        × (find_key id states ≡ some ms)
        × (r.1 ≡ inl (record { set_id = set; minter_id = id; token = ms.minter.token }))
        × (r.0 ≡ set_key set (probing capacity now id ms states) pool))
      ⊎ (All (λ i. can_serve capacity now states i ≡ false) ids
          × (r.1
              ≡ inr (
                  if any (is_full capacity states) ids
                  then pool_exhausted
                  else (unavailable_error now (machines_of states)).0))
          × (r.0 ≡ pool))
unfolding select_minter conclude
select_minter_lem env set key capacity now pool {states} h =
    let ids = order_keys env.sha256 env.draw key states in
    elim (select_from-Selected capacity now false ids states) [
      | inl (before, id, after, ms, p, q, u, v, x, y) ↦ inl (
        before,
        id,
        after,
        ms,
        p,
        q,
        u,
        v,
        rw (select_minter, h, conclude, y) refl,
        rw (select_minter, h, x) refl,
      )
      | inr (q, p) ↦
          let kept : set_key set states pool ≡ pool = set_key-same set states pool h in
          inr (
            q,
            rw (select_minter, h, p) (concluded (any (is_full capacity states) ids) states),
            rw (select_minter, h, p) kept,
          )
    ]
  where
    concluded :
        (full : Bool) (states : MinterStates)
        → conclude set now (states, full, none)
          ≡ inr (if full then pool_exhausted else (unavailable_error now (machines_of states)).0)
    concluded true states = refl
    concluded false states = refl
