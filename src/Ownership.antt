-- ===== src/Ownership.antt =====
-- pkg/ownertag: the names that tie an upstream credential to the mount that created it.
pub mod Names
pub mod Examples
use openbao_cloud_creds.Base.{
  ℕ, ◌+◌, ◌-◌, ◌++◌, Text, text, is_empty, has_prefix, List, Option, none, some, Bool, not, leb,
  ltb, length, take, if◌then◌else◌,
}
use openbao_cloud_creds.Storage.{Value, object, bytes, Storage}

abbrev pub storage_key : Text
storage_key = text "owner-instance-id"

abbrev pub base : Text
base = text "cloud-creds-"

abbrev pub dash : Text
dash = text "-"

module _ {S : Type 0} (st : Storage S) where
  mint_id : S → Option Text → S × Option Text
  mint_id s none = (s, none)
  mint_id s (some id) = elim (st.put s storage_key (bytes id)) [
    | none ↦ (s, none)
    | some t ↦ (t, some id)
  ]

  -- `InstanceID`, given what the random source answers in hexadecimal digits, and the bytes of a stored
  -- value.
  unfoldable pub instance_id : (Value → Text) → Option Text → S → S × Option Text
  unfolding mint_id
  instance_id raw random s = elim (st.get s storage_key) [
    | none ↦ (s, none)
    | some none ↦ mint_id s random
    | some (some v) ↦ if not (is_empty (raw v)) then (s, some (raw v)) else mint_id s random
  ]

-- `Prefix`.
unfoldable pub mount_prefix : Text → Text
mount_prefix id = base ++ (id ++ dash)

unfoldable pub credential_name : Text → Text → Text → Text
unfolding mount_prefix
credential_name id role request_id = mount_prefix id ++ (role ++ (dash ++ request_id))

-- `FitName`; a limit that is not positive is 0, and a slice that would run past the end is cut there.
unfoldable pub fit_name : Text → Text → Text → ℕ → Text
fit_name prefix middle suffix max_len =
    let assembled = prefix ++ (middle ++ (dash ++ suffix)) in
    let budget = max_len - length prefix - length suffix - 1 in
    if leb max_len 0
    then assembled
    else if leb (length assembled) max_len
    then assembled
    else if ltb 0 budget
    then prefix ++ (take budget middle ++ (dash ++ suffix))
    else if leb (length prefix + length suffix) max_len
    then prefix ++ suffix
    else if ltb (length prefix) max_len
    then prefix ++ take (max_len - length prefix) suffix
    else take max_len prefix

unfoldable pub owns : Text → Text → Bool
unfolding mount_prefix has_prefix
owns id name = has_prefix name (mount_prefix id)
