-- ===== src/Caller/Examples.antt =====
-- Callers with and without a parent.
use openbao_cloud_creds.Base.{
  ◌≡◌, refl, ◌≢◌, text, text_eq, is_empty, [], ◌∷◌, Option, none, some, true, false,
}
use openbao_cloud_creds.Storage.{str, field}
use openbao_cloud_creds.Caller.{Request, Alias, Entity, View, meta_of}
use openbao_cloud_creds.Caller.Lineage.{
  meta_parent_entity_id, from_metadata, alias_lineage, merge_alias, merge_aliases, from_aliases,
  entity_lineage, resolve_caller, find_requirement, requirement_text, parse_requirement, check_live,
  check_requirement, enforce,
}
use openbao_cloud_creds.Caller.Requester
use openbao_cloud_creds.Caller.Requester.{field_token_accessor, field_entity_id, stamp_identity}
use openbao_cloud_creds.Caller.Parents.{enforce_live_parent}
use openbao_cloud_creds.Caller.Attribution.{enforce-stamp_identity}

abbrev service_alias : Option Alias
service_alias =
    some (record { custom_metadata = (meta_parent_entity_id, text "svc") ∷ []; metadata = [] })

abbrev unit : Entity
unit = record { aliases = none ∷ service_alias ∷ []; metadata = []; disabled = false }

abbrev service : Entity
service = record { aliases = []; metadata = []; disabled = false }

abbrev directory : View
directory id = elim (text_eq id (text "unit")) [
  | true ↦ some (some unit)
  | false ↦ elim (text_eq id (text "svc")) [ true ↦ some (some service) | false ↦ some none ]
]

abbrev request : Request
request = record { entity_id = text "unit"; token_accessor = text "acc" }

admitted : (enforce (some request) (some directory) (text "live_parent")).1 ≡ none
unfolding enforce parse_requirement find_requirement requirement_text text_eq resolve_caller
    check_requirement check_live entity_lineage from_aliases merge_aliases merge_alias alias_lineage
    from_metadata meta_of
admitted = refl

enforce_live_parent_example :
    (r : Request) × (v : View) × (caller parent : Entity) × (some request ≡ some r)
    × (some directory ≡ some v)
    × (v r.entity_id ≡ some (some caller))
    × ((enforce (some request) (some directory) (text "live_parent")).0 ≡ entity_lineage caller)
    × ((entity_lineage caller).parent_entity_id ≢ r.entity_id)
    × (v (entity_lineage caller).parent_entity_id ≡ some (some parent))
    × (parent.disabled ≡ false)
enforce_live_parent_example = enforce_live_parent (some request) (some directory) admitted

attributable : Requester.enforce (some request) (text "token_accessor") ≡ none
unfolding Requester.enforce Requester.parse_requirement Requester.find_requirement
    Requester.requirement_text Requester.check_requirement text_eq
attributable = refl

enforce-stamp_identity_example :
    (r : Request) × (some request ≡ some r)
    × (is_empty r.token_accessor ≡ false)
    × (field field_token_accessor (stamp_identity [] (some request)) ≡ some (str r.token_accessor))
enforce-stamp_identity_example = enforce-stamp_identity (some request) [] attributable
