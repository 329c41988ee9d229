-- ===== src/Purge/Endpoint.antt =====
-- pkg/upstreampurge/endpoint.go: the operator's write and read, and the worker's sweep.
use openbao_cloud_creds.Base.{
  ℕ, Text, text, text_eq, List, [], ◌∷◌, ◌++◌, Option, none, some, not, ◌||◌, ◌⊎◌, inl, inr, length,
  if◌then◌else◌,
}
use openbao_cloud_creds.Errors.{ErrorCode, config_invalid, internal}
use openbao_cloud_creds.Storage.{Storage}
use openbao_cloud_creds.Purge.{intent_prefix, Answer, Record, Deleter, scan}
use openbao_cloud_creds.Purge.Intents.{
  Report, report, dry_run_report, load_intent, arm, progress, Advanced, advance,
}

abbrev pub mode_normal : Text
mode_normal = text "normal"

abbrev pub mode_dry_run : Text
mode_dry_run = text "dry_run"

-- What the plugin gives for one role.
pub record Target : Type 0 where
  pub prefix : Text
  pub delete : Deleter

-- A report with the mode that the call ran in (empty for a read), or an error response.
pub data Response : Type 0 where
  reported : Text → Report → Response
  refused : ErrorCode → Response

-- What a call leaves: the storage, the deletions asked for, and the response.
pub record Handled (S : Type 0) : Type 0 where
  pub storage : S
  pub calls : List (Record × Answer)
  pub response : Response

-- `Resolve` is the plugin's: a target or the error response to answer with.
abbrev pub Resolver : Type 0 → Type 0
Resolver S = S → Text → Target ⊎ ErrorCode

module _ {S : Type 0} (st : Storage S) (resolve : Resolver S) (max_deletes : ℕ) where
  unfoldable pub write_dry_run : S → Text → Target → ℕ → Handled S
  write_dry_run s role target now = elim (scan st s target.prefix role now) [
    | none ↦ record { storage = s; calls = []; response = refused internal }
    | some rs ↦ record {
      storage = s;
      calls = [];
      response = reported mode_dry_run (dry_run_report role now (length rs));
    }
  ]

  finish_write : Advanced S → Handled S
  finish_write a = elim a.outcome [
    | none ↦ record { storage = a.storage; calls = a.calls; response = refused internal }
    | some r ↦ record {
      storage = a.storage;
      calls = a.calls;
      response = reported mode_normal (report a.intent r.remaining);
    }
  ]

  write_normal : S → Text → Target → ℕ → Handled S
  unfolding finish_write
  write_normal s role target now =
      let (t, armed) = arm st s target.prefix role now in
      elim armed [
        | none ↦ record { storage = t; calls = []; response = refused internal }
        | some i ↦ finish_write (advance st target.delete t i target.prefix max_deletes)
      ]

  -- The operator's call, in the given mode.
  unfoldable pub write : S → Text → Text → ℕ → Handled S
  unfolding write_dry_run write_normal
  write s role mode now =
      if not (text_eq mode mode_normal || text_eq mode mode_dry_run)
      then record { storage = s; calls = []; response = refused config_invalid }
      else elim (resolve s role) [
        | inr code ↦ record { storage = s; calls = []; response = refused code }
        | inl target ↦
            if text_eq mode mode_dry_run
            then write_dry_run s role target now
            else write_normal s role target now
      ]

  unfoldable pub read : S → Text → Response
  read s role = elim (resolve s role) [
    | inr code ↦ refused code
    | inl target ↦ elim (progress st s target.prefix role) [
      | none ↦ refused internal
      | some r ↦ reported [] r
    ]
  ]

  -- One role of a sweep. A role that cannot be read or resolved is skipped.
  unfoldable pub sweep_role : S → Text → S × List (Record × Answer)
  sweep_role s role = elim (load_intent st s role) [
    | none ↦ (s, [])
    | some none ↦ (s, [])
    | some (some i) ↦ if i.complete then (s, []) else elim (resolve s role) [
      | inr code ↦ (s, [])
      | inl target ↦
          let a = advance st target.delete s i target.prefix max_deletes in (a.storage, a.calls)
    ]
  ]

  unfoldable pub sweep_roles : S → List Text → S × List (Record × Answer)
  unfolding sweep_role
  sweep_roles s [] = (s, [])
  sweep_roles s (role ∷ roles) =
      let (t, calls) = sweep_role s role in
      let (u, more) = sweep_roles t roles in (u, calls ++ more)

  -- `Sweep`; `none` is the error of the listing.
  unfoldable pub sweep : S → Option (S × List (Record × Answer))
  unfolding sweep_roles
  sweep s = elim (st.list s intent_prefix) [ none ↦ none | some roles ↦ some (sweep_roles s roles) ]
