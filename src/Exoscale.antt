-- ===== src/Exoscale.antt =====
-- plugins/credential-exoscale: the sweep that deletes the upstream keys of minters that have been rotated out
-- (minter_retire.go), and how minter sets are read and written (path_minter_sets.go).
--
-- A `World` is the backend's state, the storage and the deletions that the cloud has been asked for, in
-- order; the cloud's answers may depend on them. The sweep holds one lock throughout, and is a function of
-- the world. `loadMinterSet` is line for line that of the Vultr engine, and is taken from there with the types
-- of the backend's minter sets.
pub mod Rounds
pub mod Sweep
pub mod Examples
use openbao_cloud_creds.Base.{
  ℕ, ◌+◌, ◌==◌, Text, text, is_empty, ◌++◌, List, [], ◌∷◌, Option, none, some, Bool, true, false,
  ◌&&◌, not, ltb, if◌then◌else◌,
}
use openbao_cloud_creds.Storage.{Value, Storage}
use openbao_cloud_creds.Minters.{Minter, min_minter_gap, param}
use openbao_cloud_creds.Minters.Owned.{minter_set_prefix}
use openbao_cloud_creds.Vultr.{MinterSet, MinterSets}
use openbao_cloud_creds.Vultr.Sets.{load_minter_set}

-- `DeleteAPIKey`, with the token that it is made by.
pub data Call : Type 0 where
  delete_api_key : Text → Text → Call

-- `minter_retire_grace` is `none` where there is no configuration.
pub record World (S : Type 0) : Type 0 where
  pub minter_retire_grace : Option ℕ
  pub minter_sets : MinterSets
  pub storage : S
  pub calls : List Call

-- `delete` answers the status, and whether `DeleteAPIKey` returns an error.
pub record Env (S : Type 0) : Type 0 where
  pub storage : Storage S
  pub delete : List Call → Call → ℕ × Bool
  pub decode_set : Value → Option MinterSet
  pub encode_set : MinterSet → Value

-- `RotationParams[fieldKeyID]`.
abbrev pub key_id : Minter → Text
key_id m = param (text "key_id") m.rotation_params

unfoldable pub retire_grace : Option ℕ → ℕ
retire_grace none = min_minter_gap
retire_grace (some grace) = if grace == 0 then min_minter_gap else grace

unfoldable pub is_due : ℕ → ℕ → Minter → Bool
is_due now grace m = m.retired && ltb (m.retired_at + grace) now

module _ {S : Type 0} (env : Env S) where
  -- `readSet`: `none` is an error.
  unfoldable pub read_set : S → Text → Option (Option MinterSet)
  read_set s name = elim (env.storage.get s (minter_set_prefix ++ name)) [
    | none ↦ none
    | some none ↦ some none
    | some (some v) ↦ elim (env.decode_set v) [ none ↦ none | some set ↦ some (some set) ]
  ]

  -- `persistSet`, with `false` on an error.
  unfoldable pub persist_set : MinterSet → World S → World S × Bool
  persist_set set w =
      elim (env.storage.put w.storage (minter_set_prefix ++ set.name) (env.encode_set set)) [
        | none ↦ (w, false)
        | some s ↦ (record w { storage = s; minter_sets = load_minter_set set w.minter_sets }, true)
      ]

  unfoldable pub delete_retired_upstream : Minter → World S → World S × Bool
  delete_retired_upstream m w =
      if is_empty (key_id m)
      then (w, true)
      else let call = delete_api_key m.token (key_id m) in
        let (status, failed) = env.delete w.calls call in
        (record w { calls = w.calls ++ call ∷ [] }, not (failed && not (status == 404)))

  -- One round of the loop of `sweepSet`, and whether the minter is dropped.
  unfoldable pub sweep_minter : ℕ → ℕ → Minter → World S → World S × Bool
  sweep_minter now grace m w =
      if is_due now grace m then delete_retired_upstream m w else (w, false)

  -- The loop of `sweepSet`, with `kept` and `changed`.
  unfoldable pub sweep_minters : ℕ → ℕ → List Minter → World S → World S × List Minter × Bool
  sweep_minters now grace [] w = (w, [], false)
  sweep_minters now grace (m ∷ minters) w =
      let x = sweep_minter now grace m w in
      let (w', kept, changed) = sweep_minters now grace minters x.0 in
      if x.1 then (w', kept, true) else (w', m ∷ kept, changed)

  -- `sweepSet`, with `false` on an error.
  unfoldable pub sweep_set : ℕ → ℕ → Text → World S → World S × Bool
  sweep_set now grace name w = elim (read_set w.storage name) [
    | none ↦ (w, false)
    | some none ↦ (w, true)
    | some (some set) ↦
        let (w', kept, changed) = sweep_minters now grace set.minters w in
        if changed then persist_set (record set { minters = kept }) w' else (w', true)
  ]

  -- A set that fails is left for the next pass.
  unfoldable pub sweep_names : ℕ → ℕ → List Text → World S → World S
  sweep_names now grace [] w = w
  sweep_names now grace (name ∷ names) w =
      sweep_names now grace names (sweep_set now grace name w).0

  -- `sweepRetiredMinters`, with `false` on an error.
  unfoldable pub sweep_retired_minters : ℕ → World S → World S × Bool
  sweep_retired_minters now w = elim (env.storage.list w.storage minter_set_prefix) [
    | none ↦ (w, false)
    | some names ↦ (sweep_names now (retire_grace w.minter_retire_grace) names w, true)
  ]
