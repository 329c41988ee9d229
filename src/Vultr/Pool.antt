-- ===== src/Vultr/Pool.antt =====
-- plugins/credential-vultr/path_creds.go: the minters of the mount, and which one serves a request.
use openbao_cloud_creds.Base.{
  ℕ, Text, List, [], ◌∷◌, Option, none, some, ◌⊎◌, inl, inr, Bool, true, false, not, if◌then◌else◌,
  find_key, set_key,
}
use openbao_cloud_creds.Errors.{ErrorCode, config_invalid, pool_exhausted, GoError}
use openbao_cloud_creds.Recovery.{
  StateMachine, record_success, record_outcome, try_acquire, selectable, unavailable_error,
}
use openbao_cloud_creds.Capacity
use openbao_cloud_creds.Capacity.{has_room}
use openbao_cloud_creds.Affinity.{order_keys}
use openbao_cloud_creds.Minters.{Minter}
use openbao_cloud_creds.Vultr.{MinterState, MinterStates, MinterSets, Env}

-- `machinesOf`.
unfoldable pub machines_of : MinterStates → List StateMachine
machines_of [] = []
machines_of ((id, ms) ∷ states) =
    if not ms.minter.retired then ms.sm ∷ machines_of states else machines_of states

-- What one round of the loop of `selectMinter` comes to.
pub data Attempt : Type 0 where
  no_room : Attempt
  passed_over : MinterStates → Attempt
  acquired : MinterStates → Minter → Attempt

unfoldable pub acquire : ℕ → Text → MinterState → MinterStates → Attempt
acquire now id ms states =
    let (sm, granted) = try_acquire now ms.sm in
    let next = set_key id (record ms { sm = sm }) states in
    if granted then acquired next ms.minter else passed_over next

-- An id of the order is a key of the map; one that is not is passed over.
unfoldable pub try_minter : Capacity.State → ℕ → Text → MinterStates → Attempt
try_minter capacity now id states = elim (find_key id states) [
  | none ↦ passed_over states
  | some ms ↦
      if not (has_room id capacity)
      then no_room
      else if ms.minter.retired
      then passed_over states
      else acquire now id ms states
]

-- The loop of `selectMinter`: the states, `atCapacity`, and the minter that is let through.
unfoldable pub select_from :
    Capacity.State
    → ℕ
    → Bool
    → List Text
    → MinterStates
    → MinterStates × Bool × Option (Text × Minter)
select_from capacity now full [] states = (states, full, none)
select_from capacity now full (id ∷ ids) states = elim (try_minter capacity now id states) [
  | no_room ↦ select_from capacity now true ids states
  | passed_over next ↦ select_from capacity now full ids next
  | acquired next m ↦ (next, full, some (id, m))
]

-- `selectedMinter`.
pub record SelectedMinter : Type 0 where
  pub set_id : Text
  pub minter_id : Text
  pub token : Text

-- The end of `selectMinter`.
unfoldable pub conclude :
    Text → ℕ → MinterStates × Bool × Option (Text × Minter) → SelectedMinter ⊎ ErrorCode
conclude set now (states, full, some (id, m)) =
    inl (record { set_id = set; minter_id = id; token = m.token })
conclude set now (states, true, none) = inr pool_exhausted
conclude set now (states, false, none) = inr (unavailable_error now (machines_of states)).0

-- What `recordMinterSuccess` and `recordMinterError` do to a minter that is there.
unfoldable pub update_minter : (StateMachine → StateMachine) → Text → Text → MinterSets → MinterSets
update_minter f set id pool = elim (find_key set pool) [
  | none ↦ pool
  | some states ↦ elim (find_key id states) [
    | none ↦ pool
    | some ms ↦ set_key set (set_key id (record ms { sm = f ms.sm }) states) pool
  ]
]

unfoldable pub record_minter_success : Text → Text → ℕ → MinterSets → MinterSets
record_minter_success set id at pool = update_minter (record_success at) set id pool

-- `getMinter`: the token of its client.
unfoldable pub get_minter : Text → Text → MinterSets → Option Text
get_minter set id pool = elim (find_key set pool) [
  | none ↦ none
  | some states ↦ elim (find_key id states) [ none ↦ none | some ms ↦ some ms.minter.token ]
]

-- The inner loop of `anyHealthyMinter` and `anyHealthyMinterInSet`, in the order that the map is ranged over.
unfoldable pub any_healthy : ℕ → MinterStates → Option Text
any_healthy now [] = none
any_healthy now ((id, ms) ∷ states) =
    if ms.minter.retired
    then any_healthy now states
    else if selectable now ms.sm
    then some ms.minter.token
    else any_healthy now states

unfoldable pub any_healthy_minter_in_set : ℕ → Text → MinterSets → Option Text
any_healthy_minter_in_set now set pool = elim (find_key set pool) [
  | none ↦ none
  | some states ↦ any_healthy now states
]

unfoldable pub any_healthy_minter : ℕ → MinterSets → Option Text
any_healthy_minter now [] = none
any_healthy_minter now ((set, states) ∷ pool) = elim (any_healthy now states) [
  | some token ↦ some token
  | none ↦ any_healthy_minter now pool
]

module _ {S : Type 0} (env : Env S) where
  -- `selectMinter`.
  unfoldable pub select_minter :
      Text → Text → Capacity.State → ℕ → MinterSets → MinterSets × (SelectedMinter ⊎ ErrorCode)
  select_minter set key capacity now pool = elim (find_key set pool) [
    | none ↦ (pool, inr config_invalid)
    | some states ↦
        let r = select_from capacity now false (order_keys env.sha256 env.draw key states) states in
        (set_key set r.0 pool, conclude set now r)
  ]

  -- `RecordUpstream` names no wait.
  unfoldable pub record_minter_error : Text → Text → ℕ → GoError → ℕ → MinterSets → MinterSets
  record_minter_error set id status err at pool =
      update_minter
        (record_outcome env.jitter env.jitter'
          (record { status = status; err = err; retry_after = 0 }) at)
        set id pool
