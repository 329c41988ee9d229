-- ===== src/Capability/Gate.antt =====
-- pkg/capability/gate.go: the check that a write of a minter set or a role must pass.
--
-- The stored form of a minter set is read by an argument, as are the checks that a plugin makes for a role.
use openbao_cloud_creds.Base.{
  ◌++◌, Text, text, map, List, [], ◌∷◌, Option, none, some, Bool, false, ◌||◌, not, if◌then◌else◌,
}
use openbao_cloud_creds.Errors.{
  ErrorCode, config_invalid, internal, upstream_auth_failed, upstream_quota_exceeded,
}
use openbao_cloud_creds.Storage.{◌>>=◌, Value, object, bytes, field, as_text, as_flag}
use openbao_cloud_creds.Minters.{Minter, active_minters}
use openbao_cloud_creds.Capability.{Check, BoundRole, roles_bound_to}
use openbao_cloud_creds.Capability.Limiter.{States, login_rejected}
use openbao_cloud_creds.Capability.Probes.{
  End, fine, throttled, refused, State, Runner, begin, verify,
}

abbrev pub minter_set_prefix : Text
minter_set_prefix = text "minter-sets/"

-- `disabledRole`; a role that cannot be read is not disabled.
unfoldable pub disabled_flag : Value → Option Bool
unfolding field
disabled_flag (bytes b) = none
disabled_flag (object fs) = do
  name ← as_text (field (text "name") fs)
  minter_set ← as_text (field (text "minter_set") fs)
  as_flag (field (text "disabled") fs)

unfoldable pub disabled_role : Value → Bool
disabled_role v = elim (disabled_flag v) [ none ↦ false | some b ↦ b ]

-- `ChecksPerMinter`, with the stored form of a minter.
unfoldable pub checks_per_minter : (Minter → Text) → List Minter → Text → Text → List Check
checks_per_minter marshal minters role_name shape =
    map
      (λ m. record {
        key = m.id ++ (text "|" ++ shape);
        minter = m.id;
        roles = role_name ∷ [];
        minter_json = some (marshal m);
      })
      (active_minters minters)

unfoldable pub render_failure : End → Option ErrorCode
render_failure fine = none
render_failure (throttled minter wait) = some upstream_quota_exceeded
render_failure (refused c a) = some config_invalid

-- The first active minter with a rejected login.
unfoldable pub find_rejected : States → List Minter → Option Text
find_rejected states [] = none
find_rejected states (m ∷ minters) = elim (login_rejected m.id states) [
  | some n ↦ some m.id
  | none ↦ find_rejected states minters
]

pub record Gate (S : Type 0) : Type 0 where
  pub enabled : Bool
  pub runner : Runner S
  pub decode_set : Value → Option (List Minter)
  pub checks : Text → List Minter → Value → List Check

module _ {S : Type 0} (g : Gate S) where
  unfoldable pub load_minter_set : S → Text → Option (Option (List Minter))
  load_minter_set s name = elim (g.runner.store.get s (minter_set_prefix ++ name)) [
    | none ↦ none
    | some none ↦ some none
    | some (some v) ↦ elim (g.decode_set v) [ none ↦ none | some minters ↦ some (some minters) ]
  ]

  unfoldable pub run_gate : S → States → List Check → State S × Option ErrorCode
  run_gate s states checks = let x = verify g.runner s states checks in (x.0, render_failure x.1)

  -- A call that probes nothing.
  abbrev pub untouched : S → States → Option ErrorCode → State S × Option ErrorCode
  untouched s states code = (begin g.runner s states, code)

  unfoldable pub checks_for : Text → List Minter → List BoundRole → List Check
  checks_for set_name minters [] = []
  checks_for set_name minters (r ∷ roles) =
      g.checks set_name minters r.raw ++ checks_for set_name minters roles

  unfoldable pub verify_set : S → States → Text → List Minter → State S × Option ErrorCode
  verify_set s states set_name minters =
      if not g.enabled
      then untouched s states none
      else elim (roles_bound_to g.runner.store s set_name) [
        | none ↦ untouched s states (some internal)
        | some roles ↦ run_gate s states (checks_for set_name minters roles)
      ]

  unfoldable pub verify_successor : S → States → Text → Minter → State S × Option ErrorCode
  unfolding verify_set
  verify_successor s states set_name successor = verify_set s states set_name (successor ∷ [])

  unfoldable pub verify_role : S → States → Text → Value → State S × Option ErrorCode
  verify_role s states set_name role =
      if not g.enabled || disabled_role role
      then untouched s states none
      else elim (load_minter_set s set_name) [
        | none ↦ untouched s states (some internal)
        | some none ↦ untouched s states (some config_invalid)
        | some (some minters) ↦ elim (find_rejected states (active_minters minters)) [
          | some id ↦ untouched s states (some upstream_auth_failed)
          | none ↦ run_gate s states (g.checks set_name minters role)
        ]
      ]
