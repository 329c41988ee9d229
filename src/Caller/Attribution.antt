-- ===== src/Caller/Attribution.antt =====
-- A role that requires a caller's identity issues only what can be attributed.
use openbao_cloud_creds.Base.{
  ◌++◌, ◌≡◌, refl, ◌⊎◌, inl, inr, Text, text, text_eq, is_empty, [], ◌∷◌, Option, none, some, false,
  Bool-cases, arith,
}
use openbao_cloud_creds.Storage.{Json, str, Fields, field}
use openbao_cloud_creds.Caller.{Request}
use openbao_cloud_creds.Caller.Requester.{
  field_token_accessor, field_entity_id, identity, stamp_identity, require_any,
  require_token_accessor, requirement_text, find_requirement, parse_requirement, check_requirement,
  enforce,
}

-- A field of what is appended last is the field of the whole.
field-append :
    (name : Text) (fs gs : Fields) (j : Json)
    → field name gs ≡ some j
    → field name (fs ++ gs) ≡ some j
unfolding field
field-append name [] gs j h = h
field-append name ((k, v) ∷ fs) gs j h = rw (field, field-append name fs gs j h) refl

identity-accessor :
    (r : Request)
    → is_empty r.token_accessor ≡ false
    → field field_token_accessor (identity (some r)) ≡ some (str r.token_accessor)
unfolding identity field text_eq
identity-accessor r h =
    rw (identity, h)
      (elim (Bool-cases (is_empty r.entity_id)) [ inl e ↦ rw e refl | inr e ↦ rw e refl ])

identity-entity :
    (r : Request)
    → is_empty r.entity_id ≡ false
    → field field_entity_id (identity (some r)) ≡ some (str r.entity_id)
unfolding identity field text_eq
identity-entity r h =
    rw (identity, h)
      (elim (Bool-cases (is_empty r.token_accessor)) [ inl e ↦ rw e refl | inr e ↦ rw e refl ])

token_accessor_parsed : parse_requirement (text "token_accessor") ≡ some require_token_accessor
unfolding parse_requirement find_requirement requirement_text text_eq
token_accessor_parsed = refl

any_parsed : parse_requirement (text "any") ≡ some require_any
unfolding parse_requirement find_requirement requirement_text text_eq
any_parsed = refl

requires_accessor :
    (req : Option Request)
    → check_requirement req require_token_accessor ≡ none
    → (r : Request) × (req ≡ some r) × (is_empty r.token_accessor ≡ false)
unfolding check_requirement
requires_accessor none h = absurd (ground arith)
requires_accessor (some r) h = (r, refl, ground arith)

requires_any :
    (req : Option Request)
    → check_requirement req require_any ≡ none
    → (r : Request) × (req ≡ some r)
      × ((is_empty r.token_accessor ≡ false) ⊎ (is_empty r.entity_id ≡ false))
unfolding check_requirement
requires_any none h = absurd (ground arith)
requires_any (some r) h = (r, refl, ground arith)

stamped_accessor :
    (fields : Fields) (req : Option Request) (r : Request)
    → req ≡ some r
    → is_empty r.token_accessor ≡ false
    → field field_token_accessor (stamp_identity fields req) ≡ some (str r.token_accessor)
unfolding stamp_identity
stamped_accessor fields req r e h = rw e (
    field-append field_token_accessor fields (identity (some r)) (str r.token_accessor)
      (identity-accessor r h))

stamped_entity :
    (fields : Fields) (req : Option Request) (r : Request)
    → req ≡ some r
    → is_empty r.entity_id ≡ false
    → field field_entity_id (stamp_identity fields req) ≡ some (str r.entity_id)
unfolding stamp_identity
stamped_entity fields req r e h = rw e (
    field-append field_entity_id fields (identity (some r)) (str r.entity_id) (identity-entity r h))

-- A caller whom a role admits that requires a token accessor has one, and every record stamped for that caller
-- names it.
pub enforce-stamp_identity :
    (req : Option Request) (fields : Fields)
    → enforce req (text "token_accessor") ≡ none
    → (r : Request) × (req ≡ some r)
      × (is_empty r.token_accessor ≡ false)
      × (field field_token_accessor (stamp_identity fields req) ≡ some (str r.token_accessor))
unfolding enforce
enforce-stamp_identity req fields h =
    let (r, e, n) = requires_accessor req (rw (enforce, token_accessor_parsed) at h) in
    (r, e, n, stamped_accessor fields req r e n)

-- A caller whom a role admits that requires any identity has a token accessor or an entity, and every record
-- stamped for that caller names it.
enforce_any :
    (req : Option Request) (fields : Fields)
    → enforce req (text "any") ≡ none
    → (r : Request) × (req ≡ some r)
      × ((field field_token_accessor (stamp_identity fields req) ≡ some (str r.token_accessor))
          ⊎ (field field_entity_id (stamp_identity fields req) ≡ some (str r.entity_id)))
unfolding enforce
enforce_any req fields h =
    let (r, e, n) = requires_any req (rw (enforce, any_parsed) at h) in
    (
      r,
      e,
      elim n [
        | inl a ↦ inl (stamped_accessor fields req r e a)
        | inr b ↦ inr (stamped_entity fields req r e b)
      ],
    )
