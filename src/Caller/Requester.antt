-- ===== src/Caller/Requester.antt =====
-- pkg/requester: the caller's identity on a record, and roles that require one.
use openbao_cloud_creds.Base.{
  ◌++◌, Text, text, text_eq, is_empty, List, [], ◌∷◌, Option, none, some, ◌&&◌, if◌then◌else◌,
}
use openbao_cloud_creds.Storage.{str, Fields}
use openbao_cloud_creds.Errors.{ErrorCode, config_invalid, caller_unidentified}
use openbao_cloud_creds.Caller.{Request}

abbrev pub field_token_accessor : Text
field_token_accessor = text "requested_by_token_accessor"

abbrev pub field_entity_id : Text
field_entity_id = text "requested_by_entity_id"

unfoldable pub identity : Option Request → Fields
identity none = []
identity (some req) =
    (if is_empty req.token_accessor
      then []
      else (field_token_accessor, str req.token_accessor) ∷ [])
    ++ (if is_empty req.entity_id then [] else (field_entity_id, str req.entity_id) ∷ [])

-- `Stamp`: an entry that is added last is the one that counts.
unfoldable pub stamp_identity : Fields → Option Request → Fields
stamp_identity fields req = fields ++ identity req

pub data Requirement : Type 0 where
  require_none require_any require_token_accessor : Requirement

unfoldable pub requirement_text : Requirement → Text
requirement_text require_none = text "none"
requirement_text require_any = text "any"
requirement_text require_token_accessor = text "token_accessor"

abbrev pub requirements : List Requirement
requirements = require_none ∷ require_any ∷ require_token_accessor ∷ []

unfoldable pub find_requirement : Text → List Requirement → Option Requirement
unfolding requirement_text
find_requirement value [] = none
find_requirement value (r ∷ rs) =
    if text_eq value (requirement_text r) then some r else find_requirement value rs

unfoldable pub parse_requirement : Text → Option Requirement
parse_requirement value =
    if is_empty value then some require_none else find_requirement value requirements

unfoldable pub check_requirement : Option Request → Requirement → Option ErrorCode
check_requirement req require_none = none
check_requirement none require_any = some caller_unidentified
check_requirement (some req) require_any =
    if is_empty req.token_accessor && is_empty req.entity_id then some caller_unidentified else none
check_requirement none require_token_accessor = some caller_unidentified
check_requirement (some req) require_token_accessor =
    if is_empty req.token_accessor then some caller_unidentified else none

-- `Enforce`: the refusal's code, if there is one.
unfoldable pub enforce : Option Request → Text → Option ErrorCode
enforce req value = elim (parse_requirement value) [
  | none ↦ some config_invalid
  | some r ↦ check_requirement req r
]
