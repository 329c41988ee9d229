-- ===== src/Reconciler.antt =====
-- pkg/reconciler/reconciler.go: one pass that deletes orphaned upstream credentials.
--
-- Times and durations are those of Recovery. The cloud's listing and the registry of owned ids are
-- arguments, `none` where the call fails. The answer of `DeleteEntity` is an argument too: it may depend
-- on all the deletions that were asked for before. A limit that is not positive is 0, and the log
-- lines are left out; the deletions asked for are kept in order instead, as `calls`.
pub mod Budget
pub mod Orphans
pub mod Examples
use openbao_cloud_creds.Base.{
  ℕ, ◌+◌, ◌++◌, Text, text_eq, List, [], ◌∷◌, Option, none, some, Bool, true, false, ◌&&◌, ◌||◌,
  not, ◌==◌, ltb, leb, any, length, if◌then◌else◌,
}

pub record UpstreamEntity : Type 0 where
  pub id : Text
  pub name : Text
  pub created_at : ℕ
  pub expires_at : ℕ

pub data OrphanClass : Type 0 where
  live_orphan inert_orphan : OrphanClass

unfoldable pub classify : ℕ → UpstreamEntity → OrphanClass
classify now e =
    if not (e.expires_at == 0) && ltb e.expires_at now then inert_orphan else live_orphan

pub record DeleteBudget : Type 0 where
  pub limit : ℕ
  pub live : ℕ
  pub inert : ℕ

unfoldable pub claim : OrphanClass → DeleteBudget → DeleteBudget × Bool
claim live_orphan b =
    if leb b.limit b.live then (b, false) else (record b { live = b.live + 1 }, true)
claim inert_orphan b =
    if leb b.limit b.inert then (b, false) else (record b { inert = b.inert + 1 }, true)

pub record Config : Type 0 where
  pub max_deletes_per_pass : ℕ
  pub confirmation_hold : ℕ
  pub dry_run : Bool

pub record Result : Type 0 where
  pub scanned : ℕ
  pub orphans_found : List Text
  pub deleted : ℕ
  pub hit_limit : Bool
  pub expired : ℕ
  pub errors : List Text

-- The variables of the loop in `Run`, and the deletions that it has asked for.
pub record Pass : Type 0 where
  pub budget : DeleteBudget
  pub result : Result
  pub calls : List UpstreamEntity

-- Whether `DeleteEntity` succeeds, after the calls made so far.
abbrev pub Deleter : Type 0
Deleter = List UpstreamEntity → UpstreamEntity → Bool

unfoldable pub is_owned : List Text → UpstreamEntity → Bool
is_owned owned e = any (λ id. text_eq e.id id) owned

-- The guard on the age: `continue` where it does not hold.
unfoldable pub is_confirmed : Config → ℕ → UpstreamEntity → Bool
is_confirmed cfg now e =
    if ltb 0 cfg.confirmation_hold
    then not (e.created_at == 0) && leb (e.created_at + cfg.confirmation_hold) now
    else true

abbrev count_expired : OrphanClass → ℕ → ℕ
count_expired inert_orphan n = n + 1
count_expired live_orphan n = n

-- The end of the loop's body, from the call of `DeleteEntity` on.
delete_entity : Deleter → OrphanClass → UpstreamEntity → Pass → Pass
delete_entity cloud class e p =
    let r = p.result in
    let asked = record p { calls = p.calls ++ e ∷ [] } in
    if cloud p.calls e
    then record asked {
      result = record r { deleted = r.deleted + 1; expired = count_expired class r.expired };
    }
    else record asked { result = record r { errors = r.errors ++ e.id ∷ [] } }

-- From the call of `claim` on.
spend : Deleter → OrphanClass → UpstreamEntity → Pass → Pass
unfolding delete_entity claim
spend cloud class e p =
    let (b, granted) = claim class p.budget in
    if granted
    then delete_entity cloud class e (record p { budget = b })
    else record p { budget = b; result = record p.result { hit_limit = true } }

-- The loop's body, for one entity of the listing.
unfoldable pub visit : Deleter → Config → ℕ → List Text → UpstreamEntity → Pass → Pass
unfolding spend
visit cloud cfg now owned e p =
    let found = record p {
      result = record p.result { orphans_found = p.result.orphans_found ++ e.id ∷ [] };
    } in
    if is_owned owned e
    then p
    else if not (is_confirmed cfg now e)
    then p
    else if cfg.dry_run
    then found
    else spend cloud (classify now e) e found

unfoldable pub scan : Deleter → Config → ℕ → List Text → List UpstreamEntity → Pass → Pass
scan cloud cfg now owned [] p = p
scan cloud cfg now owned (e ∷ es) p = scan cloud cfg now owned es (visit cloud cfg now owned e p)

unfoldable pub start : Config → List UpstreamEntity → Pass
start cfg entities = record {
  budget = record { limit = cfg.max_deletes_per_pass; live = 0; inert = 0 };
  result = record {
    scanned = length entities;
    orphans_found = [];
    deleted = 0;
    hit_limit = false;
    expired = 0;
    errors = [];
  };
  calls = [];
}

-- `Run`; `none` is an error.
unfoldable pub run :
    Deleter → Config → ℕ → Option (List UpstreamEntity) → Option (List Text) → Option Pass
unfolding scan start
run cloud cfg now none owned = none
run cloud cfg now (some entities) none = none
run cloud cfg now (some entities) (some owned) =
    some (scan cloud cfg now owned entities (start cfg entities))
