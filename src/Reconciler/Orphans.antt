-- ===== src/Reconciler/Orphans.antt =====
-- Which entities a pass finds, and that it asks for the deletion of no other.
use mathlib.Core.List.{append_assoc, append-nil}
use openbao_cloud_creds.Base.{
  ℕ, ◌+◌, ◌++◌, ◌≤◌, ◌≡◌, refl, sym, ap, ◌∙◌, ◌≢◌, ◌⊎◌, inl, inr, text_eq_iff, Text, List, [], ◌∷◌,
  map, Option, none, some, Bool, true, false, ◌&&◌, not, Bool-cases, select, length, All,
  All-append, if◌then◌else◌, arith,
}
use openbao_cloud_creds.Reconciler.{
  UpstreamEntity, Config, Pass, Deleter, is_owned, is_confirmed, claim, visit, scan, start, run,
}

-- An entity that the pass may delete: not owned, and old enough for certain.
abbrev pub is_orphan : Config → ℕ → List Text → UpstreamEntity → Bool
is_orphan cfg now owned e = not (is_owned owned e) && is_confirmed cfg now e

abbrev pub ids : List UpstreamEntity → List Text
ids = map (λ e. e.id)

module _ (cloud : Deleter) (cfg : Config) (now : ℕ) (owned : List Text) where
  abbrev orphans : List UpstreamEntity → List UpstreamEntity
  orphans = select (is_orphan cfg now owned)

  visit-found :
      (e : UpstreamEntity) (p : Pass)
      → (visit cloud cfg now owned e p).result.orphans_found
        ≡ p.result.orphans_found ++ ids (orphans (e ∷ []))
  unfolding visit claim
  visit-found e p = ground (
    arith,
    append-nil p.result.orphans_found,
    Bool-cases (is_owned owned e),
    Bool-cases (is_confirmed cfg now e),
  )

  pub scan-found :
      (es : List UpstreamEntity) (p : Pass)
      → (scan cloud cfg now owned es p).result.orphans_found
        ≡ p.result.orphans_found ++ ids (orphans es)
  unfolding scan
  scan-found [] p = sym (append-nil _)
  scan-found (e ∷ es) p =
      scan-found es (visit cloud cfg now owned e p)
      ∙ ap (λ l. l ++ ids (orphans es)) (visit-found e p)
      ∙ regroup (is_orphan cfg now owned e)
    where
      regroup :
          (b : Bool)
          → (p.result.orphans_found ++ ids (if b then e ∷ [] else [])) ++ ids (orphans es)
            ≡ p.result.orphans_found ++ ids (if b then e ∷ orphans es else orphans es)
      regroup true = append_assoc p.result.orphans_found (e.id ∷ []) (ids (orphans es))
      regroup false = rw append-nil

  visit-scanned :
      (e : UpstreamEntity) (p : Pass)
      → (visit cloud cfg now owned e p).result.scanned ≡ p.result.scanned
  unfolding visit claim
  visit-scanned e p = ground arith

  pub scan-scanned :
      (es : List UpstreamEntity) (p : Pass)
      → (scan cloud cfg now owned es p).result.scanned ≡ p.result.scanned
  unfolding scan
  scan-scanned [] p = refl
  scan-scanned (e ∷ es) p = scan-scanned es (visit cloud cfg now owned e p) ∙ visit-scanned e p

-- A pass reports exactly the orphans of the listing, in its order, and the number of entities that it
-- examined: whatever the budget, the answers of the cloud and the dry-run flag are. It
-- succeeds whenever the listing and the registry do.
pub run-orphans_found :
    (cloud : Deleter) (cfg : Config) (now : ℕ) (entities : List UpstreamEntity) (owned : List Text)
    → (p : Pass) × (run cloud cfg now (some entities) (some owned) ≡ some p)
      × (p.result.orphans_found ≡ ids (select (is_orphan cfg now owned) entities))
      × (p.result.scanned ≡ length entities)
unfolding run
run-orphans_found cloud cfg now entities owned = (
  scan cloud cfg now owned entities (start cfg entities),
  refl,
  scan-found cloud cfg now owned entities (start cfg entities),
  scan-scanned cloud cfg now owned entities (start cfg entities),
)

-- What makes a deletion safe, told without the code's tests: the entity's id is none of the owned ids,
-- and where a hold is set its creation time is known and at least that long ago.
abbrev pub IsDeletable : Config → ℕ → List Text → UpstreamEntity → Type 0
IsDeletable cfg now owned e =
    All (λ id. e.id ≢ id) owned
    × ((cfg.confirmation_hold ≡ 0)
        ⊎ ((e.created_at ≢ 0) × (e.created_at + cfg.confirmation_hold ≤ now)))

not_owned :
    (owned : List Text) (e : UpstreamEntity)
    → is_owned owned e ≡ false
    → All (λ id. e.id ≢ id) owned
unfolding is_owned
not_owned [] e h = tt
not_owned (id ∷ owned) e h =
    (λ q. ground (arith, (text_eq_iff e.id id).1 q), not_owned owned e (ground arith))

confirmed :
    (cfg : Config) (now : ℕ) (e : UpstreamEntity)
    → is_confirmed cfg now e ≡ true
    → (cfg.confirmation_hold ≡ 0)
      ⊎ ((e.created_at ≢ 0) × (e.created_at + cfg.confirmation_hold ≤ now))
unfolding is_confirmed
confirmed cfg now e h = ground arith

module _ (cloud : Deleter) (cfg : Config) (now : ℕ) (owned : List Text) where
  visit-calls :
      (e : UpstreamEntity) (p : Pass)
      → ((visit cloud cfg now owned e p).calls ≡ p.calls)
        ⊎ (((visit cloud cfg now owned e p).calls ≡ p.calls ++ e ∷ [])
            × (is_owned owned e ≡ false)
            × (is_confirmed cfg now e ≡ true))
  unfolding visit claim
  visit-calls e p = ground arith

  scan-IsDeletable :
      (es : List UpstreamEntity) (p : Pass)
      → All (IsDeletable cfg now owned) p.calls
      → All (IsDeletable cfg now owned) (scan cloud cfg now owned es p).calls
  unfolding scan
  scan-IsDeletable [] p h = h
  scan-IsDeletable (e ∷ es) p h =
      scan-IsDeletable es (visit cloud cfg now owned e p) (step (visit-calls e p))
    where
      step :
          ((visit cloud cfg now owned e p).calls ≡ p.calls)
            ⊎ (((visit cloud cfg now owned e p).calls ≡ p.calls ++ e ∷ [])
                × (is_owned owned e ≡ false)
                × (is_confirmed cfg now e ≡ true))
          → All (IsDeletable cfg now owned) (visit cloud cfg now owned e p).calls
      step (inl same) = rw same h
      step (inr (more, o, c)) = rw more (
          All-append (IsDeletable cfg now owned) p.calls (e ∷ []) h
            ((not_owned owned e o, confirmed cfg now e c), tt))

module _ (cloud : Deleter) (cfg : Config) (now : ℕ) (owned : List Text)
    (P : UpstreamEntity → Type 0) where
  scan-listed :
      (es : List UpstreamEntity) (p : Pass)
      → All P es
      → All P p.calls
      → All P (scan cloud cfg now owned es p).calls
  unfolding scan
  scan-listed [] p h k = k
  scan-listed (e ∷ es) p h k =
      scan-listed es (visit cloud cfg now owned e p) h.1
        (step (visit-calls cloud cfg now owned e p))
    where
      step :
          ((visit cloud cfg now owned e p).calls ≡ p.calls)
            ⊎ (((visit cloud cfg now owned e p).calls ≡ p.calls ++ e ∷ [])
                × (is_owned owned e ≡ false)
                × (is_confirmed cfg now e ≡ true))
          → All P (visit cloud cfg now owned e p).calls
      step (inl same) = rw same k
      step (inr (more, o, c)) = rw more (All-append P p.calls (e ∷ []) k (h.0, tt))

-- Only what is listed is deleted.
pub run-listed :
    (cloud : Deleter) (cfg : Config) (now : ℕ) (entities : List UpstreamEntity) (owned : List Text)
    (P : UpstreamEntity → Type 0) (p : Pass)
    → All P entities
    → run cloud cfg now (some entities) (some owned) ≡ some p
    → All P p.calls
unfolding run
run-listed cloud cfg now entities owned P p h q =
    rw (← taken q) (scan-listed cloud cfg now owned P entities (start cfg entities) h tt)
  where
    taken : {a b : Pass} → some a ≡ some b → a ≡ b
    taken r = cc

-- A pass never asks for the deletion of a credential that the mount owns, nor, where a confirmation hold
-- is set, of one whose age is unknown or below the hold; and it asks for none at all if the listing
-- or the registry fails.
pub run-calls-IsDeletable :
    (cloud : Deleter) (cfg : Config) (now : ℕ) (listing : Option (List UpstreamEntity))
    (registry : Option (List Text)) (p : Pass)
    → run cloud cfg now listing registry ≡ some p
    → (entities : List UpstreamEntity) × (owned : List Text) × (listing ≡ some entities)
      × (registry ≡ some owned)
      × All (IsDeletable cfg now owned) p.calls
unfolding run
run-calls-IsDeletable cloud cfg now none registry p h = absurd (ground arith)
run-calls-IsDeletable cloud cfg now (some entities) none p h = absurd (ground arith)
run-calls-IsDeletable cloud cfg now (some entities) (some owned) p h = (
  entities,
  owned,
  refl,
  refl,
  rw (← some_injective h) (scan-IsDeletable cloud cfg now owned entities (start cfg entities) tt),
)
  where
    some_injective : {a b : Pass} → some a ≡ some b → a ≡ b
    some_injective q = cc
