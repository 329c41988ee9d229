-- ===== src/Caller/Lineage.antt =====
-- pkg/lineage: the parent that is recorded for a caller, and roles that require one.
use openbao_cloud_creds.Base.{
  ◌++◌, Text, text, text_eq, is_empty, List, [], ◌∷◌, Option, none, some, Bool, true, false, ◌||◌,
  not, if◌then◌else◌,
}
use openbao_cloud_creds.Storage.{str, Fields}
use openbao_cloud_creds.Errors.{ErrorCode, config_invalid, entity_unavailable, caller_unparented}
use openbao_cloud_creds.Caller.{Metadata, meta_of, Request, Alias, Entity, View}

abbrev pub meta_parent_entity_id : Text
meta_parent_entity_id = text "cloud_creds_parent_entity_id"

abbrev pub meta_unit_id : Text
meta_unit_id = text "cloud_creds_unit_id"

pub data Source : Type 0 where
  no_source alias_custom_metadata alias_metadata entity_metadata : Source

unfoldable pub source_text : Source → Text
source_text no_source = []
source_text alias_custom_metadata = text "alias_custom_metadata"
source_text alias_metadata = text "alias_metadata"
source_text entity_metadata = text "entity_metadata"

pub record Lineage : Type 0 where
  pub parent_entity_id : Text
  pub unit_id : Text
  pub source : Source

abbrev pub no_lineage : Lineage
no_lineage = record { parent_entity_id = []; unit_id = []; source = no_source }

unfoldable pub from_metadata : Metadata → Source → Lineage
from_metadata meta source =
    if is_empty (meta_of meta_parent_entity_id meta) then no_lineage else record {
      parent_entity_id = meta_of meta_parent_entity_id meta;
      unit_id = meta_of meta_unit_id meta;
      source = source;
    }

-- What one alias says. A nil alias says nothing.
unfoldable pub alias_lineage : Option Alias → Lineage
alias_lineage none = no_lineage
alias_lineage (some a) =
    let custom = from_metadata a.custom_metadata alias_custom_metadata in
    if is_empty custom.parent_entity_id then from_metadata a.metadata alias_metadata else custom

-- The loop's variables after an alias, or `none` where it ends the loop.
unfoldable pub merge_alias : Lineage → Bool → Lineage → Option (Lineage × Bool)
merge_alias found unit_disputed next =
    if is_empty next.parent_entity_id
    then some (found, unit_disputed)
    else if is_empty found.parent_entity_id
    then some (next, unit_disputed)
    else if not (text_eq found.parent_entity_id next.parent_entity_id)
    then none
    else if is_empty next.unit_id || text_eq next.unit_id found.unit_id
    then some (found, unit_disputed)
    else if is_empty found.unit_id
    then some (record found { unit_id = next.unit_id }, unit_disputed)
    else some (found, true)

unfoldable pub merge_aliases : Lineage → Bool → List (Option Alias) → Option Lineage
merge_aliases found unit_disputed [] =
    some (if unit_disputed then record found { unit_id = [] } else found)
merge_aliases found unit_disputed (a ∷ rest) =
    elim (merge_alias found unit_disputed (alias_lineage a)) [
      | none ↦ none
      | some (next, disputed) ↦ merge_aliases next disputed rest
    ]

-- `fromAliases`; `none` is a lineage on which the aliases do not agree.
unfoldable pub from_aliases : List (Option Alias) → Option Lineage
from_aliases aliases = merge_aliases no_lineage false aliases

unfoldable pub entity_lineage : Entity → Lineage
entity_lineage e = elim (from_aliases e.aliases) [
  | none ↦ no_lineage
  | some found ↦
      if is_empty found.parent_entity_id then from_metadata e.metadata entity_metadata else found
]

-- The lineage, with `false` where the caller's entity cannot be read.
unfoldable pub resolve_caller : Option Request → Option View → Lineage × Bool
resolve_caller none view = (no_lineage, true)
resolve_caller (some req) none = (no_lineage, true)
resolve_caller (some req) (some view) =
    if is_empty req.entity_id then (no_lineage, true) else elim (view req.entity_id) [
      | none ↦ (no_lineage, false)
      | some none ↦ (no_lineage, true)
      | some (some e) ↦ (entity_lineage e, true)
    ]

unfoldable pub resolve : Option Request → Option View → Lineage
resolve req view = (resolve_caller req view).0

pub data Requirement : Type 0 where
  require_none require_parent require_live_parent : Requirement

unfoldable pub requirement_text : Requirement → Text
requirement_text require_none = text "none"
requirement_text require_parent = text "parent"
requirement_text require_live_parent = text "live_parent"

abbrev pub requirements : List Requirement
requirements = require_none ∷ require_parent ∷ require_live_parent ∷ []

unfoldable pub find_requirement : Text → List Requirement → Option Requirement
unfolding requirement_text
find_requirement value [] = none
find_requirement value (r ∷ rs) =
    if text_eq value (requirement_text r) then some r else find_requirement value rs

unfoldable pub parse_requirement : Text → Option Requirement
parse_requirement value =
    if is_empty value then some require_none else find_requirement value requirements

-- The check of a live parent; both arguments are there wherever a parent was found.
unfoldable pub check_live : Option Request → Option View → Text → Option ErrorCode
check_live (some req) (some view) parent =
    if text_eq parent req.entity_id then some caller_unparented else elim (view parent) [
      | none ↦ some entity_unavailable
      | some none ↦ some caller_unparented
      | some (some e) ↦ if e.disabled then some caller_unparented else none
    ]
check_live _ _ parent = none

unfoldable pub check_requirement :
    Option Request → Option View → Requirement → Lineage × Bool → Option ErrorCode
check_requirement req view require_none found = none
check_requirement req view r (found, false) = some entity_unavailable
check_requirement req view require_parent (found, true) =
    if is_empty found.parent_entity_id then some caller_unparented else none
check_requirement req view require_live_parent (found, true) =
    if is_empty found.parent_entity_id
    then some caller_unparented
    else check_live req view found.parent_entity_id

-- `Enforce`: the lineage, and the refusal's code if there is one.
unfoldable pub enforce : Option Request → Option View → Text → Lineage × Option ErrorCode
enforce req view value = elim (parse_requirement value) [
  | none ↦ (no_lineage, some config_invalid)
  | some r ↦ ((resolve_caller req view).0, check_requirement req view r (resolve_caller req view))
]

-- `Stamp`: an entry that is added last is the one that counts.
unfoldable pub stamp_lineage : Fields → Lineage → Fields
stamp_lineage fields found =
    if is_empty found.parent_entity_id
    then fields
    else fields
      ++ ((text "requested_by_parent_entity_id", str found.parent_entity_id)
          ∷ (text "requested_by_lineage_source", str (source_text found.source))
          ∷ (if is_empty found.unit_id
              then []
              else (text "requested_by_unit_id", str found.unit_id) ∷ []))
