-- ===== src/Reconciler/Examples.antt =====
-- A reconciler pass at a concrete listing.
use Prim.Native.String.{String}
use openbao_cloud_creds.Base.{
  ℕ, ◌≡◌, refl, Text, text, List, [], ◌∷◌, Option, some, true, false, ltb, length, take, All,
  text_eq,
}
use openbao_cloud_creds.Reconciler.{
  UpstreamEntity, live_orphan, classify, Config, Pass, Deleter, is_owned, is_confirmed, claim,
  visit, scan, run,
}
use openbao_cloud_creds.Reconciler.Orphans.{ids, IsDeletable, run-calls-IsDeletable}
use openbao_cloud_creds.Reconciler.Budget.{orphans_of, of_class, run-calls}

abbrev entity : String → ℕ → ℕ → UpstreamEntity
entity id created expires = record {
  id = text id;
  name = text "cloud-creds-1";
  created_at = created;
  expires_at = expires;
}

-- Two expired orphans, one live, one owned and one of unknown age.
abbrev listing : List UpstreamEntity
listing =
    entity "a" 10 20 ∷ entity "b" 11 21 ∷ entity "c" 12 0 ∷ entity "d" 13 0 ∷ entity "e" 0 0 ∷ []

abbrev cautious : Config
cautious = record { max_deletes_per_pass = 1; confirmation_hold = 60; dry_run = false }

abbrev failing_on_c : Deleter
failing_on_c calls e = ltb (length calls) 1

abbrev one_pass : Option Pass
one_pass = run failing_on_c cautious 100 (some listing) (some (text "d" ∷ []))

-- The live orphan is tried although expired ones stand before it.
one_pass_runs :
    (p : Pass) × (one_pass ≡ some p)
    × (ids p.calls ≡ text "a" ∷ text "c" ∷ [])
    × (p.result.errors ≡ text "c" ∷ [])
    × (p.result.hit_limit ≡ true)
unfolding run scan visit claim classify is_owned is_confirmed text_eq
one_pass_runs = (_, refl, refl, refl, refl)

run-calls-IsDeletable_example :
    (entities : List UpstreamEntity) × (owned : List Text) × (some listing ≡ some entities)
    × (some (text "d" ∷ []) ≡ some owned)
    × All (IsDeletable cautious 100 owned) one_pass_runs.0.calls
run-calls-IsDeletable_example =
    run-calls-IsDeletable failing_on_c cautious 100 (some listing) (some (text "d" ∷ []))
      one_pass_runs.0 one_pass_runs.1

run-calls_example :
    (p : Pass) × (one_pass ≡ some p)
    × (of_class live_orphan 100 p.calls
        ≡ take 1 (orphans_of live_orphan cautious 100 (text "d" ∷ []) listing))
run-calls_example = run-calls failing_on_c cautious 100 listing (text "d" ∷ []) live_orphan refl
