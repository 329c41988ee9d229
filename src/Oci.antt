-- ===== src/Oci.antt =====
-- plugins/credential-oci: the engine that keeps a few shared auth tokens per role, in slots that rotate.
--
-- The minter sets are held as in plugins/credential-vultr, whose types are used. The clock does not move within a
-- call. The cloud's answers may depend on the calls before; what `encoding/json` makes of a slot and a role is an
-- argument, and so is the time of day.
pub mod Slots
pub mod Creds
pub mod Loaded
pub mod Freshest
pub mod Chosen
pub mod Rotation
pub mod Stagger
pub mod Examples
use openbao_cloud_creds.Base.{ℕ, Text, List, Option, Bool}
use openbao_cloud_creds.Storage.{Value, Storage}
use openbao_cloud_creds.Caller.{View}
use openbao_cloud_creds.Vultr.{MinterSets}

-- `slotState`.
pub data SlotState : Type 0 where
  slot_active slot_retiring slot_retired slot_empty : SlotState

-- `slot`.
pub record Slot : Type 0 where
  pub token_id : Text
  pub token_value : Text
  pub rotated_at : ℕ
  pub next_rotation_at : ℕ
  pub state : SlotState
  pub slot_index : ℕ
  pub description : Text
  pub minter_set : Text
  pub minter_id : Text

-- `ociRole`.
pub record OciRole : Type 0 where
  pub name : Text
  pub user_ocid : Text
  pub slot_count : ℕ
  pub rotation_period : ℕ
  pub default_ttl : ℕ
  pub max_ttl : ℕ
  pub minter_set : Text
  pub disabled : Bool
  pub require_caller_identity : Text
  pub require_caller_lineage : Text

-- The calls that change the account: the minter's token, the user, and the description or the id.
pub data Call : Type 0 where
  create_auth_token : Text → Text → Text → Call
  delete_auth_token : Text → Text → Text → Call

pub record World (S : Type 0) : Type 0 where
  pub instance_id : Text
  pub minter_sets : MinterSets
  pub storage : S
  pub calls : List Call

-- `create` answers the value and the id of a token, or `none` for an error.
pub record Env (S : Type 0) : Type 0 where
  pub storage : Storage S
  pub create : List Call → Call → Option (Text × Text)
  pub decode_role : Value → Option OciRole
  pub decode_slot : Value → Option Slot
  pub encode_slot : Slot → Value
  pub raw : Value → Text
  pub random : Option Text
  pub view : Option View
