-- ===== src/Exoscale/Sweep.antt =====
-- What the sweep deletes and drops, and that the active minters of a set stay as they are.
use mathlib.Core.List.{Memᴰ}
use openbao_cloud_creds.Base.{
  ◌≡◌, refl, sym, ap, ◌∙◌, ◌⊎◌, inl, inr, ℕ, Text, is_empty, ◌++◌, List, none, some, Option-cases,
  Bool, true, false, Bool-cases, All, if◌then◌else◌,
}
use openbao_cloud_creds.Minters.{
  Minter, empty_set, active_minters, collect_expiries, check_expiries, validate_minter_set,
}
use openbao_cloud_creds.Minters.Owned.{minter_set_prefix}
use openbao_cloud_creds.Vultr.{MinterSet}
use openbao_cloud_creds.Exoscale.{Call, World, Env, read_set, persist_set, sweep_minters, sweep_set}
use openbao_cloud_creds.Exoscale.Rounds.{Asked, Gone, sweep_minters-Swept}

-- What a sweep of one set does.
module _ {S : Type 0} (env : Env S) (now grace : ℕ) (name : Text) where
  -- For a set that was read.
  abbrev pub SetKept : MinterSet → World S → World S × Bool → Type 0
  SetKept set w out =
      (kept : List Minter) × (new : List Call) × (out.0.calls ≡ w.calls ++ new)
      × All (Asked now grace set.minters) new
      × ((m : Minter) → Memᴰ m set.minters → Memᴰ m kept ⊎ Gone env now grace out.0.calls m)
      × (active_minters kept ≡ active_minters set.minters)
      × (validate_minter_set kept ≡ validate_minter_set set.minters)
      × (((out.0.storage ≡ w.storage) × ((kept ≡ set.minters) ⊎ (out.1 ≡ false)))
          ⊎ (env.storage.put w.storage (minter_set_prefix ++ set.name)
                (env.encode_set (record set { minters = kept }))
              ≡ some out.0.storage))

  abbrev pub SetSwept : World S → World S × Bool → Type 0
  SetSwept w out =
      ((out.0 ≡ w) × (read_set env w.storage name ≡ none) × (out.1 ≡ false))
      ⊎ (((out.0 ≡ w) × (read_set env w.storage name ≡ some none) × (out.1 ≡ true))
          ⊎ ((set : MinterSet) × (read_set env w.storage name ≡ some (some set))
              × SetKept set w out))

  sweep_minters-SetKept :
      (set : MinterSet) (w : World S)
      → let (w', kept, changed) = sweep_minters env now grace set.minters w in
        SetKept set w
          (if changed then persist_set env (record set { minters = kept }) w' else (w', true))
  unfolding persist_set validate_minter_set
  sweep_minters-SetKept set w =
      let x = sweep_minters env now grace set.minters w in
      let ((new, calls, all_due), same, active, accounted, still) =
        sweep_minters-Swept env now grace set.minters w in
      let valid : validate_minter_set x.1 ≡ validate_minter_set set.minters =
        ap (λ ms. if is_empty ms then some empty_set else check_expiries (collect_expiries ms))
          active in
      let written = record set { minters = x.1 } in
      let key = minter_set_prefix ++ set.name in
      elim (Bool-cases x.2) [
        | inr f ↦
            rw f (x.1, new, calls, all_due, accounted, active, valid, inl (same, inl (still f)))
        | inl f ↦ elim (Option-cases (env.storage.put x.0.storage key (env.encode_set written))) [
          | inl e ↦
              rw (f, persist_set, e)
                (x.1, new, calls, all_due, accounted, active, valid, inl (same, inr refl))
          | inr (s, e) ↦
              rw (f, persist_set, e)
                (
                  x.1,
                  new,
                  calls,
                  all_due,
                  accounted,
                  active,
                  valid,
                  inr (ap (λ t. env.storage.put t key (env.encode_set written)) (sym same) ∙ e),
                )
        ]
      ]

  -- A sweep of a set that cannot be read, or that is gone, does nothing. Else each call that it makes deletes
  -- the recorded key of a retired minter of the set whose grace is over, by that minter's own
  -- token. A minter is kept unless its grace is over and it has no key on record, or the cloud has
  -- answered the deletion of its key with success or with 404. The active minters of the
  -- set are the same ones as before, so the set is as valid as it was. Either the stored set
  -- is left as it was, because no minter is dropped or because the write fails, which is
  -- then reported; or what is written under the set's name is the set with the minters
  -- that are kept.
  pub sweep_set-Swept : (w : World S) → SetSwept w (sweep_set env now grace name w)
  unfolding sweep_set
  sweep_set-Swept w = elim (Option-cases (read_set env w.storage name)) [
    | inl e ↦ rw (sweep_set, e) (inl (refl, refl, refl))
    | inr (none, e) ↦ rw (sweep_set, e) (inr (inl (refl, refl, refl)))
    | inr (some set, e) ↦ rw (sweep_set, e) (inr (inr (set, refl, sweep_minters-SetKept set w)))
  ]
