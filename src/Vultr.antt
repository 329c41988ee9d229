-- ===== src/Vultr.antt =====
-- plugins/credential-vultr: the engine that creates a sub-user of an account for each credential.
--
-- A `World` is the backend's state, the storage and the calls that the cloud has been asked for, in order.
-- What is outside stands in an `Env`: the storage, the cloud's answers, which may depend on the calls before,
-- how a stored role and minter set are
-- encoded, the digest, the random draws and OpenBao's view of its
-- entities. The locks are left out: each function is one request, or one critical section of it.
pub mod Pool
pub mod Creds
pub mod Owner
pub mod Selection
pub mod Issuance
pub mod Revocation
pub mod Sets
pub mod Rehydration
pub mod Machines
pub mod Requests
pub mod Operation
pub mod Reclaim
pub mod Roles
pub mod Disabling
pub mod Spared
pub mod Examples
pub mod Tests
pub mod Leak
use openbao_cloud_creds.Base.{ℕ, Text, text, List, Option, Bool}
use openbao_cloud_creds.Storage.{Json, Value, Storage}
use openbao_cloud_creds.Errors.{GoError}
use openbao_cloud_creds.Recovery.{StateMachine, Jitter}
use openbao_cloud_creds.Caller.{View}
use openbao_cloud_creds.Minters.{Minter}

-- `activeTrackingPrefix`.
abbrev pub active_prefix : Text
active_prefix = text "active-users/"

-- `vultrRole`.
pub record VultrRole : Type 0 where
  pub name : Text
  pub default_ttl : ℕ
  pub max_ttl : ℕ
  pub acls : List Text
  pub email_domain : Text
  pub minter_set : Text
  pub disabled : Bool
  pub require_caller_identity : Text
  pub require_caller_lineage : Text

-- `cloudconfig.MinterSet`.
pub record MinterSet : Type 0 where
  pub schema : ℕ
  pub name : Text
  pub minters : List Minter

-- `minterState`; the name of its set is the key that it stands under.
pub record MinterState : Type 0 where
  pub minter : Minter
  pub sm : StateMachine

abbrev pub MinterStates : Type 0
MinterStates = List (Text × MinterState)

-- `backend.minterSets`.
abbrev pub MinterSets : Type 0
MinterSets = List (Text × MinterStates)

pub record Backend : Type 0 where
  pub instance_id : Text
  pub minter_sets : MinterSets
  pub credential_limit : ℕ

-- The calls that change the account, with the token they are made by.
pub data Call : Type 0 where
  create_user : Text → Text → Text → List Text → Call
  delete_user : Text → Text → Call

-- The answer to `CreateUser`: the id and the API key, or the status and the error.
pub data Created : Type 0 where
  created : Text → Text → Created
  create_failed : ℕ → GoError → Created

pub record World (S : Type 0) : Type 0 where
  pub backend : Backend
  pub storage : S
  pub calls : List Call

-- `print` is what the verb %v of `fmt` prints; `delete` answers the status, and whether `DeleteUser` returns an error, and which.
pub record Env (S : Type 0) : Type 0 where
  pub storage : Storage S
  pub create : List Call → Call → Created
  pub delete : List Call → Call → ℕ × Bool × GoError
  pub decode_role : Value → Option VultrRole
  pub decode_set : Value → Option MinterSet
  pub encode_role : VultrRole → Value
  pub encode_set : MinterSet → Value
  pub raw : Value → Text
  pub print : Option Json → Text
  pub random : Option Text
  pub view : Option View
  pub sha256 : Text → List ℕ
  pub draw : ℕ → Option ℕ
  pub jitter : Jitter
  pub jitter' : Jitter
