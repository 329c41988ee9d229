-- ===== src/Vultr/Sets.antt =====
-- plugins/credential-vultr/path_minter_sets.go: the minter sets are written, deleted and loaded.
--
-- The probes that a write makes are kept in the state of the gate (Capability/Probes), not in `calls`.
use openbao_cloud_creds.Base.{
  ℕ, ◌++◌, Text, text, List, [], ◌∷◌, Option, none, some, Bool, true, false, find_key, set_key,
  remove_key, keys,
}
use openbao_cloud_creds.Errors.{ErrorCode, config_invalid, internal}
use openbao_cloud_creds.Storage.{Json, str, stamp, flag, Fields, field}
use openbao_cloud_creds.Recovery.{StateMachine, new_state_machine}
use openbao_cloud_creds.Minters.{
  Minter, schema_version, validate_set_name, validate_minter_keys, validate_minter_ids,
  validate_minter_set, preserve_lifecycle, check_schema,
}
use openbao_cloud_creds.Capability.Limiter.{States}
use openbao_cloud_creds.Capability.Gate.{Gate, verify_set}
use openbao_cloud_creds.Vultr.{MinterSet, MinterStates, MinterSets, World, Env}
use openbao_cloud_creds.Vultr.Creds.{owner_instance_id, with_minter_sets}

abbrev pub set_prefix : Text
set_prefix = text "minter-sets/"

abbrev allowed_keys : List Text
allowed_keys = text "id" ∷ text "expires_at" ∷ text "never_expires" ∷ text "token" ∷ []

-- `authFailThreshold` and `healthCheckInterval`.
abbrev pub fresh_machine : StateMachine
fresh_machine =
    new_state_machine
      (record { auth_fail_threshold = 30_000_000_000; health_check_interval = 300_000_000_000 })

unfoldable pub is_set : Option Json → Bool
is_set (some (flag b)) = b
is_set _ = false

-- `expires_at`, where `none` is a text that is no time.
unfoldable pub expiry_of : Option Json → Option ℕ
expiry_of (some (stamp t)) = some t
expiry_of (some (str s)) = none
expiry_of _ = some 0

-- `loadMinterSet`: the state machine of a minter that is known is carried over.
unfoldable pub carried : MinterStates → Text → StateMachine
carried previous id = elim (find_key id previous) [ none ↦ fresh_machine | some ms ↦ ms.sm ]

unfoldable pub load_states : MinterStates → List Minter → MinterStates → MinterStates
load_states previous [] states = states
load_states previous (m ∷ minters) states =
    load_states previous minters
      (set_key m.id (record { minter = m; sm = carried previous m.id }) states)

unfoldable pub states_of : Text → MinterSets → MinterStates
states_of name sets = elim (find_key name sets) [ none ↦ [] | some states ↦ states ]

unfoldable pub load_minter_set : MinterSet → MinterSets → MinterSets
load_minter_set set sets =
    set_key set.name (load_states (states_of set.name sets) set.minters []) sets

-- The state machines by the ids of their minters, as `minterStateByID` looks for them.
unfoldable pub machines_in : MinterStates → States → States
machines_in [] rest = rest
machines_in ((id, ms) ∷ states) rest = (id, ms.sm) ∷ machines_in states rest

unfoldable pub machines_by_id : MinterSets → States
machines_by_id [] = []
machines_by_id ((name, states) ∷ sets) = machines_in states (machines_by_id sets)

-- The machines put back in their places: the limiter changes them where they stand.
unfoldable pub return_in : States → MinterStates → MinterStates × States
return_in machines [] = ([], machines)
return_in [] states = (states, [])
return_in ((k, sm) ∷ machines) ((id, ms) ∷ states) =
    let (rest, left) = return_in machines states in ((id, record ms { sm = sm }) ∷ rest, left)

unfoldable pub return_machines : States → MinterSets → MinterSets
return_machines machines [] = []
return_machines machines ((name, states) ∷ sets) =
    let (returned, left) = return_in machines states in (name, returned) ∷ return_machines left sets

module _ {S : Type 0} (env : Env S) where
  -- `parseMinter`.
  unfoldable pub parse_minter : ℕ → Fields → Option Minter
  parse_minter now fields = elim (validate_minter_keys allowed_keys (keys fields)) [
    | some problem ↦ none
    | none ↦ elim (expiry_of (field (text "expires_at") fields)) [
      | none ↦ none
      | some expiry ↦ some (record {
        id = env.print (field (text "id") fields);
        token = env.print (field (text "token") fields);
        expires_at = expiry;
        never_expires = is_set (field (text "never_expires") fields);
        created_at = now;
        retired = false;
        retired_at = 0;
        rotation_params = [];
      })
    ]
  ]

  -- `parseMinters`: `none` is an entry that is no object.
  unfoldable pub parse_minters : ℕ → List (Option Fields) → Option (List Minter)
  parse_minters now [] = some []
  parse_minters now (none ∷ entries) = none
  parse_minters now (some fields ∷ entries) = elim (parse_minter now fields) [
    | none ↦ none
    | some m ↦ elim (parse_minters now entries) [ none ↦ none | some ms ↦ some (m ∷ ms) ]
  ]

  -- `loadStoredSet`, with no minters where no set is stored.
  unfoldable pub load_stored_set : S → Text → Option (List Minter)
  load_stored_set s name = elim (env.storage.get s (set_prefix ++ name)) [
    | none ↦ none
    | some none ↦ some []
    | some (some v) ↦ elim (env.decode_set v) [ none ↦ none | some set ↦ some set.minters ]
  ]

  -- What `pathMinterSetWrite` asks of a set before the gate: the minters as they will be written.
  unfoldable pub accept_minters :
      ℕ → Text → Option (List (Option Fields)) → S → Option ErrorCode × List Minter
  accept_minters now name written s = elim (validate_set_name name) [
    | some problem ↦ (some config_invalid, [])
    | none ↦ elim written [
      | none ↦ (some config_invalid, [])
      | some entries ↦ elim (parse_minters now entries) [
        | none ↦ (some config_invalid, [])
        | some minters ↦ elim (validate_minter_ids minters) [
          | some problem ↦ (some config_invalid, [])
          | none ↦ elim (load_stored_set s name) [
            | none ↦ (some internal, [])
            | some stored ↦
                let kept = preserve_lifecycle minters stored now in
                elim (validate_minter_set kept) [
                  | some problem ↦ (some config_invalid, [])
                  | none ↦ (none, kept)
                ]
          ]
        ]
      ]
    ]
  ]

  unfoldable pub save_set : MinterSet → World S → World S × Option ErrorCode
  save_set set w = elim (env.storage.put w.storage (set_prefix ++ set.name) (env.encode_set set)) [
    | none ↦ (w, some internal)
    | some s ↦ (
      record (with_minter_sets env (load_minter_set set w.backend.minter_sets) w) { storage = s },
      none,
    )
  ]

  module _ (gate : Gate S) where
    -- `verifySetCapability`.
    unfoldable pub verify_set_capability : MinterSet → World S → World S × Option ErrorCode
    verify_set_capability set w =
        let (w', owner) = owner_instance_id env w in
        let sets = w'.backend.minter_sets in
        elim owner [
          | none ↦ (w', some internal)
          | some id ↦
              let (p, code) =
                verify_set gate w'.storage (machines_by_id sets) set.name set.minters in
              (
                record (with_minter_sets env (return_machines p.states sets) w') {
                  storage = p.storage;
                },
                code,
              )
        ]

    -- `pathMinterSetWrite`: `none` is success.
    unfoldable pub minter_set_write :
        ℕ → Text → Option (List (Option Fields)) → World S → World S × Option ErrorCode
    minter_set_write now name written w =
        let (problem, minters) = accept_minters now name written w.storage in
        let set : MinterSet = record { schema = schema_version; name = name; minters = minters } in
        elim problem [
          | some code ↦ (w, some code)
          | none ↦
              let (w', refusal) = verify_set_capability set w in
              elim refusal [ some code ↦ (w', some code) | none ↦ save_set set w' ]
        ]

  -- `pathMinterSetDelete`.
  unfoldable pub minter_set_delete : Text → World S → World S × Option ErrorCode
  minter_set_delete name w = elim (env.storage.delete w.storage (set_prefix ++ name)) [
    | none ↦ (w, some internal)
    | some s ↦ (
      record (with_minter_sets env (remove_key name w.backend.minter_sets) w) { storage = s },
      none,
    )
  ]

  -- One round of the loop of `loadAllMinterSets`.
  unfoldable pub load_stored : S → Text → MinterSets → MinterSets
  load_stored s name sets = elim (env.storage.get s (set_prefix ++ name)) [
    | none ↦ sets
    | some none ↦ sets
    | some (some v) ↦ elim (env.decode_set v) [
      | none ↦ sets
      | some set ↦ elim (check_schema set.schema) [
        | some problem ↦ sets
        | none ↦ elim (validate_minter_set set.minters) [
          | some problem ↦ sets
          | none ↦ load_minter_set set sets
        ]
      ]
    ]
  ]

  unfoldable pub load_names : S → List Text → MinterSets → MinterSets
  load_names s [] sets = sets
  load_names s (name ∷ names) sets = load_names s names (load_stored s name sets)

  -- `loadAllMinterSets`, with `false` on an error.
  unfoldable pub load_all_minter_sets : World S → World S × Bool
  load_all_minter_sets w = elim (env.storage.list w.storage set_prefix) [
    | none ↦ (w, false)
    | some names ↦ (with_minter_sets env (load_names w.storage names w.backend.minter_sets) w, true)
  ]
