-- ===== src/Caller/Parents.antt =====
-- Which parent is believed: the aliases must agree on it, and a role that requires it is issued to no other.
use openbao_cloud_creds.Base.{
  ◌≡◌, refl, sym, ap, ◌∙◌, ◌≢◌, ◌⊎◌, inl, inr, Text, text, text_eq, text_eq_iff, is_empty, List, [],
  ◌∷◌, Option, none, some, Option-cases, Bool, true, false, Bool-cases, All, arith,
}
use openbao_cloud_creds.Caller.{Request, Alias, Entity, View}
use openbao_cloud_creds.Caller.Lineage.{
  Lineage, no_lineage, alias_lineage, merge_alias, merge_aliases, from_aliases, entity_lineage,
  resolve_caller, require_live_parent, find_requirement, requirement_text, parse_requirement,
  check_live, check_requirement, enforce,
}

-- An alias that names no parent, or this one.
abbrev pub Names : Text → Option Alias → Type 0
Names parent a =
    (is_empty (alias_lineage a).parent_entity_id ≡ true)
    ⊎ ((alias_lineage a).parent_entity_id ≡ parent)

-- What one alias does to the parent that was found so far.
merge_alias-parent :
    (found : Lineage) (d : Bool) (next : Lineage) {l : Lineage} {b : Bool}
    → merge_alias found d next ≡ some (l, b)
    → ((is_empty next.parent_entity_id ≡ true) ⊎ (next.parent_entity_id ≡ l.parent_entity_id))
      × (is_empty found.parent_entity_id ≡ false → l.parent_entity_id ≡ found.parent_entity_id)
      × ((l.parent_entity_id ≡ found.parent_entity_id)
          ⊎ (l.parent_entity_id ≡ next.parent_entity_id))
unfolding merge_alias
merge_alias-parent found d next {l} {b} h =
    ground (arith, text_eq_iff found.parent_entity_id next.parent_entity_id)

merge_alias-refuses :
    (found : Lineage) (d : Bool) (next : Lineage)
    → merge_alias found d next ≡ none
    → (is_empty found.parent_entity_id ≡ false)
      × (is_empty next.parent_entity_id ≡ false)
      × (found.parent_entity_id ≢ next.parent_entity_id)
unfolding merge_alias
merge_alias-refuses found d next h =
    ground (arith, text_eq_iff found.parent_entity_id next.parent_entity_id)

split_merge :
    (found : Lineage) (d : Bool) (a : Option Alias) (rest : List (Option Alias)) (l : Lineage)
    → merge_aliases found d (a ∷ rest) ≡ some l
    → (f : Lineage) × (b : Bool) × (merge_alias found d (alias_lineage a) ≡ some (f, b))
      × (merge_aliases f b rest ≡ some l)
unfolding merge_aliases
split_merge found d a rest l h = elim (Option-cases (merge_alias found d (alias_lineage a))) [
  | inl e ↦ absurd (never (rw (merge_aliases, e) at h))
  | inr ((f, b), e) ↦ (f, b, e, rw (merge_aliases, e) at h)
]
  where
    never : none ≡ some l → ⊥
    never q = cc

kept-Names :
    (found f l : Lineage) (a : Option Alias)
    → ((is_empty (alias_lineage a).parent_entity_id ≡ true)
        ⊎ ((alias_lineage a).parent_entity_id ≡ f.parent_entity_id))
    → (is_empty f.parent_entity_id ≡ false → l.parent_entity_id ≡ f.parent_entity_id)
    → Names l.parent_entity_id a
kept-Names found f l a p q = ground arith

merge_aliases-agree :
    (found : Lineage) (d : Bool) (aliases : List (Option Alias)) (l : Lineage)
    → merge_aliases found d aliases ≡ some l
    → (is_empty found.parent_entity_id ≡ false → l.parent_entity_id ≡ found.parent_entity_id)
      × All (Names l.parent_entity_id) aliases
unfolding merge_aliases
merge_aliases-agree found true [] l h = (λ q. ground arith, tt)
merge_aliases-agree found false [] l h = (λ q. ground arith, tt)
merge_aliases-agree found d (a ∷ rest) l h =
    let (f, b, e, k) = split_merge found d a rest l h in
    let (named, kept, either) = merge_alias-parent found d (alias_lineage a) e in
    let (same, agree) = merge_aliases-agree f b rest l k in
    (λ q. same (rw (kept q) q) ∙ kept q, (kept-Names found f l a named same, agree))

-- Where the aliases' parents are merged, each alias names no parent or the one that was found.
pub from_aliases-Names :
    (aliases : List (Option Alias)) (l : Lineage)
    → from_aliases aliases ≡ some l
    → All (Names l.parent_entity_id) aliases
unfolding from_aliases
from_aliases-Names aliases l h = (merge_aliases-agree no_lineage false aliases l h).1

merge_aliases-disagree :
    (found : Lineage) (d : Bool) (aliases : List (Option Alias)) (parent : Text)
    → merge_aliases found d aliases ≡ none
    → ((is_empty found.parent_entity_id ≡ true) ⊎ (found.parent_entity_id ≡ parent))
    → All (Names parent) aliases
    → ⊥
unfolding merge_aliases
merge_aliases-disagree found true [] parent h s n = cc
merge_aliases-disagree found false [] parent h s n = cc
merge_aliases-disagree found d (a ∷ rest) parent h s n =
    elim (Option-cases (merge_alias found d (alias_lineage a))) [
      | inl e ↦
          let (full, named, differ) = merge_alias-refuses found d (alias_lineage a) e in
          clash s n.0 full named differ
      | inr ((f, b), e) ↦
          let (named, kept, either) = merge_alias-parent found d (alias_lineage a) e in
          merge_aliases-disagree f b rest parent (rw (merge_aliases, e) at h) (carry f s n.0 either)
            n.1
    ]
  where
    clash :
        ((is_empty found.parent_entity_id ≡ true) ⊎ (found.parent_entity_id ≡ parent))
        → Names parent a
        → is_empty found.parent_entity_id ≡ false
        → is_empty (alias_lineage a).parent_entity_id ≡ false
        → found.parent_entity_id ≢ (alias_lineage a).parent_entity_id
        → ⊥
    clash s n f g differ = ground arith

    carry :
        (f : Lineage)
        → ((is_empty found.parent_entity_id ≡ true) ⊎ (found.parent_entity_id ≡ parent))
        → Names parent a
        → ((f.parent_entity_id ≡ found.parent_entity_id)
            ⊎ (f.parent_entity_id ≡ (alias_lineage a).parent_entity_id))
        → ((is_empty f.parent_entity_id ≡ true) ⊎ (f.parent_entity_id ≡ parent))
    carry f s n either = ground arith

-- Either the aliases are merged, and each of them names no parent or the one that was found, or they are not,
-- and there is no parent that each alias names if it names any.
pub from_aliases_agree :
    (aliases : List (Option Alias))
    → ((l : Lineage) × (from_aliases aliases ≡ some l) × All (Names l.parent_entity_id) aliases)
      ⊎ ((from_aliases aliases ≡ none) × ((parent : Text) × All (Names parent) aliases → ⊥))
unfolding from_aliases
from_aliases_agree aliases = elim (Option-cases (from_aliases aliases)) [
  | inl e ↦
      inr (e, λ (parent, n). merge_aliases-disagree no_lineage false aliases parent e (inl refl) n)
  | inr (l, e) ↦ inl (l, e, from_aliases-Names aliases l e)
]

Entity-cases :
    (o : Option (Option Entity))
    → (o ≡ none) ⊎ (o ≡ some none) ⊎ ((e : Entity) × (o ≡ some (some e)))
Entity-cases none = inl refl
Entity-cases (some none) = inr (inl refl)
Entity-cases (some (some e)) = inr (inr (e, refl))

check_live-passes :
    (r : Request) (v : View) (parent : Text)
    → check_live (some r) (some v) parent ≡ none
    → (parent ≢ r.entity_id) × (e : Entity) × (v parent ≡ some (some e)) × (e.disabled ≡ false)
unfolding check_live
check_live-passes r v parent h = elim (Entity-cases (v parent)) [
  | inl q ↦ absurd (ground arith)
  | inr (inl q) ↦ absurd (ground arith)
  | inr (inr (e, q)) ↦ (ground (arith, text_eq_iff parent r.entity_id), e, q, ground arith)
]

passes_live :
    (r : Request) (v : View)
    → check_requirement (some r) (some v) require_live_parent (resolve_caller (some r) (some v))
      ≡ none
    → (caller : Entity) × (v r.entity_id ≡ some (some caller))
      × ((resolve_caller (some r) (some v)).0 ≡ entity_lineage caller)
      × (check_live (some r) (some v) (entity_lineage caller).parent_entity_id ≡ none)
unfolding resolve_caller check_requirement
passes_live r v h = elim (Bool-cases (is_empty r.entity_id)) [
  | inl q ↦ absurd (ground arith)
  | inr q ↦ elim (Entity-cases (v r.entity_id)) [
    | inl f ↦ absurd (ground arith)
    | inr (inl f) ↦ absurd (ground arith)
    | inr (inr (e, f)) ↦ (e, f, rw (resolve_caller, q, f) refl, ground arith)
  ]
]

live_parent_parsed : parse_requirement (text "live_parent") ≡ some require_live_parent
unfolding parse_requirement find_requirement requirement_text text_eq
live_parent_parsed = refl

enforce_live :
    (req : Option Request) (view : Option View)
    → enforce req view (text "live_parent") ≡ (
      (resolve_caller req view).0,
      check_requirement req view require_live_parent (resolve_caller req view),
    )
unfolding enforce
enforce_live req view = rw (enforce, live_parent_parsed) refl

-- Whoever passes a role that requires a live parent is a caller whose entity was read, for whom that entity
-- records a parent, which is not the caller itself, and whose own entity exists and is not
-- disabled.
pub enforce_live_parent :
    (req : Option Request) (view : Option View)
    → (enforce req view (text "live_parent")).1 ≡ none
    → (r : Request) × (v : View) × (caller parent : Entity) × (req ≡ some r)
      × (view ≡ some v)
      × (v r.entity_id ≡ some (some caller))
      × ((enforce req view (text "live_parent")).0 ≡ entity_lineage caller)
      × ((entity_lineage caller).parent_entity_id ≢ r.entity_id)
      × (v (entity_lineage caller).parent_entity_id ≡ some (some parent))
      × (parent.disabled ≡ false)
unfolding resolve_caller check_requirement
enforce_live_parent none view h = absurd (ground (arith, enforce_live none view))
enforce_live_parent (some r) none h = absurd (ground (arith, enforce_live (some r) none))
enforce_live_parent (some r) (some v) h =
    let q = enforce_live (some r) (some v) in
    let (caller, found, same, live) = passes_live r v (sym (ap (λ x. x.1) q) ∙ h) in
    let (other, parent, exists, enabled) =
      check_live-passes r v (entity_lineage caller).parent_entity_id live in
    (r, v, caller, parent, refl, refl, found, ap (λ x. x.0) q ∙ same, other, exists, enabled)
