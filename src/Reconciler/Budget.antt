-- ===== src/Reconciler/Budget.antt =====
-- How many deletions a pass asks for, and of which orphans: the two budgets do not compete.
use mathlib.Core.List.{append_assoc, append-nil}
use openbao_cloud_creds.Base.{
  ℕ, zero, suc, ◌+◌, ◌-◌, ◌*◌, ◌++◌, ◌≤◌, ◌<◌, ◌≡◌, refl, sym, ap, ◌∙◌, inl, inr, Text, List, [],
  ◌∷◌, some, Bool, true, false, ◌&&◌, ◌||◌, Bool-cases, select, select-append, length,
  length-append, take, ltb, ltb→lt, if◌then◌else◌, arith,
}
use openbao_cloud_creds.Reconciler.{
  UpstreamEntity, OrphanClass, live_orphan, inert_orphan, classify, Config, Pass, Deleter, claim,
  visit, scan, start, run,
}
use openbao_cloud_creds.Reconciler.Orphans.{is_orphan}

abbrev pub same_class : OrphanClass → OrphanClass → Bool
same_class live_orphan live_orphan = true
same_class inert_orphan inert_orphan = true
same_class _ _ = false

abbrev spent : OrphanClass → Pass → ℕ
spent live_orphan p = p.budget.live
spent inert_orphan p = p.budget.inert

-- The orphans of one class in a listing.
abbrev pub orphans_of :
    OrphanClass → Config → ℕ → List Text → List UpstreamEntity → List UpstreamEntity
orphans_of c cfg now owned =
    select (λ e. is_orphan cfg now owned e && same_class c (classify now e))

abbrev pub of_class : OrphanClass → ℕ → List UpstreamEntity → List UpstreamEntity
of_class c now = select (λ e. same_class c (classify now e))

take-nil : (n : ℕ) → take {A = UpstreamEntity} n [] ≡ []
take-nil zero = refl
take-nil (suc n) = refl

minus_zero : (n : ℕ) → n - 0 ≡ n
minus_zero n = omega arith

full_le : (a b : ℕ) → ltb a b ≡ false → b ≤ a
full_le a b h = ground arith

module _ (cloud : Deleter) (cfg : Config) (now : ℕ) (owned : List Text)
    (wet : cfg.dry_run ≡ false) where
  visit-limit :
      (e : UpstreamEntity) (p : Pass)
      → (visit cloud cfg now owned e p).budget.limit ≡ p.budget.limit
  unfolding visit claim
  visit-limit e p = ground arith

  visit_other :
      (c : OrphanClass) (e : UpstreamEntity) (p : Pass)
      → is_orphan cfg now owned e && same_class c (classify now e) ≡ false
      → (of_class c now (visit cloud cfg now owned e p).calls ≡ of_class c now p.calls)
        × (spent c (visit cloud cfg now owned e p) ≡ spent c p)
  unfolding visit claim
  visit_other live_orphan e p h = ground (
    arith,
    select-append (λ e. same_class live_orphan (classify now e)) p.calls (e ∷ []),
    append-nil (of_class live_orphan now p.calls),
  )
  visit_other inert_orphan e p h = ground (
    arith,
    select-append (λ e. same_class inert_orphan (classify now e)) p.calls (e ∷ []),
    append-nil (of_class inert_orphan now p.calls),
  )

  visit_granted :
      (c : OrphanClass) (e : UpstreamEntity) (p : Pass)
      → is_orphan cfg now owned e && same_class c (classify now e) ≡ true
      → spent c p < p.budget.limit
      → (of_class c now (visit cloud cfg now owned e p).calls ≡ of_class c now p.calls ++ e ∷ [])
        × (spent c (visit cloud cfg now owned e p) ≡ spent c p + 1)
  unfolding visit claim
  visit_granted live_orphan e p h l =
      ground (arith, select-append (λ e. same_class live_orphan (classify now e)) p.calls (e ∷ []))
  visit_granted inert_orphan e p h l =
      ground (arith, select-append (λ e. same_class inert_orphan (classify now e)) p.calls (e ∷ []))

  visit_denied :
      (c : OrphanClass) (e : UpstreamEntity) (p : Pass)
      → is_orphan cfg now owned e && same_class c (classify now e) ≡ true
      → p.budget.limit ≤ spent c p
      → (visit cloud cfg now owned e p).calls ≡ p.calls
        × (spent c (visit cloud cfg now owned e p) ≡ spent c p)
        × ((visit cloud cfg now owned e p).result.hit_limit ≡ true)
  unfolding visit claim
  visit_denied live_orphan e p h l = ground arith
  visit_denied inert_orphan e p h l = ground arith

  scan-calls :
      (c : OrphanClass) (es : List UpstreamEntity) (p : Pass)
      → of_class c now (scan cloud cfg now owned es p).calls
        ≡ of_class c now p.calls
          ++ take (p.budget.limit - spent c p) (orphans_of c cfg now owned es)
  unfolding scan
  scan-calls c [] p = rw (take-nil (p.budget.limit - spent c p)) (sym (append-nil _))
  scan-calls c (e ∷ es) p =
      let q = visit cloud cfg now owned e p in
      let ih = scan-calls c es q in
      elim (Bool-cases (is_orphan cfg now owned e && same_class c (classify now e))) [
        | inr out ↦
            let (same, kept) = visit_other c e p out in
            rw out (ih ∙ step _ _ _ _ same (omega (arith, visit-limit e p)))
        | inl hit ↦ elim (Bool-cases (ltb (spent c p) p.budget.limit)) [
          | inl room ↦
              let (more, used) = visit_granted c e p hit (ltb→lt _ _ room) in
              let l : p.budget.limit - spent c p ≡ suc (q.budget.limit - spent c q) =
                omega (arith, visit-limit e p, ltb→lt _ _ room) in
              rw (hit, l)
                (ih
                  ∙ ap (λ w. w ++ take (q.budget.limit - spent c q) (orphans_of c cfg now owned es))
                      more
                  ∙ append_assoc (of_class c now p.calls) (e ∷ []) _)
          | inr full ↦
              let (same, kept, _) = visit_denied c e p hit (full_le _ _ full) in
              let l : p.budget.limit - spent c p ≡ 0 = omega (arith, full_le _ _ full) in
              let l' : q.budget.limit - spent c q ≡ 0 =
                omega (arith, full_le _ _ full, visit-limit e p) in
              rw (hit, l) (ih ∙ step _ _ _ _ (ap (of_class c now) same) l')
        ]
      ]
    where
      step :
          (w v : List UpstreamEntity) (m n : ℕ)
          → w ≡ v
          → m ≡ n
          → w ++ take m (orphans_of c cfg now owned es)
            ≡ v ++ take n (orphans_of c cfg now owned es)
      step w v m n a b = rw (a, b)

  visit-hit_limit :
      (e : UpstreamEntity) (p : Pass)
      → p.budget.live ≤ p.budget.limit
      → p.budget.inert ≤ p.budget.limit
      → ((visit cloud cfg now owned e p).budget.live ≤ p.budget.limit)
        × ((visit cloud cfg now owned e p).budget.inert ≤ p.budget.limit)
  unfolding visit claim
  visit-hit_limit e p h k = ground arith

  visit-over :
      (e : UpstreamEntity) (p : Pass)
      → p.budget.live ≤ p.budget.limit
      → p.budget.inert ≤ p.budget.limit
      → (xs ys : List UpstreamEntity)
      → let q = visit cloud cfg now owned e p in
        (q.result.hit_limit
          || (ltb p.budget.limit (q.budget.live + length xs)
              || ltb p.budget.limit (q.budget.inert + length ys)))
        ≡ (p.result.hit_limit
            || (ltb p.budget.limit (
                  p.budget.live
                  + length (
                      if is_orphan cfg now owned e && same_class live_orphan (classify now e)
                      then e ∷ xs
                      else xs))
                || ltb p.budget.limit (
                    p.budget.inert
                    + length (
                        if is_orphan cfg now owned e && same_class inert_orphan (classify now e)
                        then e ∷ ys
                        else ys))))
  unfolding visit claim
  visit-over e p h k xs ys = ground arith

  -- What is over budget in the rest of the listing is what sets the flag.
  scan-hit_limit :
      (es : List UpstreamEntity) (p : Pass)
      → p.budget.live ≤ p.budget.limit
      → p.budget.inert ≤ p.budget.limit
      → (scan cloud cfg now owned es p).result.hit_limit ≡ (
          p.result.hit_limit
          || (ltb p.budget.limit (p.budget.live + length (orphans_of live_orphan cfg now owned es))
              || ltb p.budget.limit
                  (p.budget.inert + length (orphans_of inert_orphan cfg now owned es))))
  unfolding scan
  scan-hit_limit [] p h k = ground arith
  scan-hit_limit (e ∷ es) p h k =
      let q = visit cloud cfg now owned e p in
      let bounds = visit-hit_limit e p h k in
      scan-hit_limit es q (omega (arith, bounds, visit-limit e p))
        (omega (arith, bounds, visit-limit e p))
      ∙ rw (visit-limit e p) (
          visit-over e p h k (orphans_of live_orphan cfg now owned es)
            (orphans_of inert_orphan cfg now owned es))

-- A pass that is no dry run asks for the deletion of the first `limit` live orphans of the listing and of
-- the first `limit` expired ones, of each in the listing's order, and so of nothing else: no amount of
-- one class, and no failed deletion, takes from what is left for the other.
pub run-calls :
    (cloud : Deleter) (cfg : Config) (now : ℕ) (entities : List UpstreamEntity) (owned : List Text)
    (c : OrphanClass)
    → cfg.dry_run ≡ false
    → (p : Pass) × (run cloud cfg now (some entities) (some owned) ≡ some p)
      × (of_class c now p.calls
          ≡ take cfg.max_deletes_per_pass (orphans_of c cfg now owned entities))
unfolding run
run-calls cloud cfg now entities owned c wet =
    (scan cloud cfg now owned entities (start cfg entities), refl, first c)
  where
    first :
        (c : OrphanClass)
        → of_class c now (scan cloud cfg now owned entities (start cfg entities)).calls
          ≡ take cfg.max_deletes_per_pass (orphans_of c cfg now owned entities)
    first live_orphan =
        rw (minus_zero cfg.max_deletes_per_pass) at
          (scan-calls cloud cfg now owned wet live_orphan entities (start cfg entities))
    first inert_orphan =
        rw (minus_zero cfg.max_deletes_per_pass) at
          (scan-calls cloud cfg now owned wet inert_orphan entities (start cfg entities))

-- A pass that is no dry run says that it hit a limit exactly if the listing has more orphans of one of the
-- two classes than the limit.
pub run-hit_limit :
    (cloud : Deleter) (cfg : Config) (now : ℕ) (entities : List UpstreamEntity) (owned : List Text)
    → cfg.dry_run ≡ false
    → (p : Pass) × (run cloud cfg now (some entities) (some owned) ≡ some p)
      × (p.result.hit_limit ≡ (
          ltb cfg.max_deletes_per_pass (length (orphans_of live_orphan cfg now owned entities))
          || ltb cfg.max_deletes_per_pass
              (length (orphans_of inert_orphan cfg now owned entities))))
unfolding run
run-hit_limit cloud cfg now entities owned wet = (
  scan cloud cfg now owned entities (start cfg entities),
  refl,
  scan-hit_limit cloud cfg now owned wet entities (start cfg entities) (omega arith) (omega arith)
      ∙ cc (
        zero_plus (length (orphans_of live_orphan cfg now owned entities)),
        zero_plus (length (orphans_of inert_orphan cfg now owned entities)),
      ),
)
  where
    zero_plus : (n : ℕ) → 0 + n ≡ n
    zero_plus n = omega arith

-- What the counters of a pass say, of every call that it has made.
record Accounts (cfg : Config) (p : Pass) : Type 0 where
  within_live : p.budget.live ≤ p.budget.limit
  within_inert : p.budget.inert ≤ p.budget.limit
  charged : length p.calls ≡ p.budget.live + p.budget.inert
  answered : p.result.deleted + length p.result.errors ≡ length p.calls
  idle : cfg.dry_run ≡ true → length p.calls ≡ 0
  housekeeping : p.result.expired ≤ p.result.deleted
  expired_charged : p.result.expired ≤ p.budget.inert

module _ (cloud : Deleter) (cfg : Config) (now : ℕ) (owned : List Text) where
  visit-Accounts :
      (e : UpstreamEntity) (p : Pass)
      → Accounts cfg p
      → Accounts cfg (visit cloud cfg now owned e p)
  unfolding visit claim
  visit-Accounts e p v =
      ground (arith, length-append p.calls (e ∷ []), length-append p.result.errors (e.id ∷ []))

  scan-Accounts :
      (es : List UpstreamEntity) (p : Pass)
      → Accounts cfg p
      → Accounts cfg (scan cloud cfg now owned es p)
  unfolding scan
  scan-Accounts [] p v = v
  scan-Accounts (e ∷ es) p v =
      scan-Accounts es (visit cloud cfg now owned e p) (visit-Accounts e p v)

  scan-budget_limit :
      (es : List UpstreamEntity) (p : Pass)
      → (scan cloud cfg now owned es p).budget.limit ≡ p.budget.limit
  unfolding scan visit claim
  scan-budget_limit [] p = refl
  scan-budget_limit (e ∷ es) p = scan-budget_limit es (visit cloud cfg now owned e p) ∙ ground arith

-- The counters of a pass add up, whatever the cloud answers: every deletion asked for is counted as
-- deleted or as an error, there are at most twice the limit of them, and none in a dry run. The
-- expired ones among the deleted are at most the limit.
pub run-accounts :
    (cloud : Deleter) (cfg : Config) (now : ℕ) (entities : List UpstreamEntity) (owned : List Text)
    → (p : Pass) × (run cloud cfg now (some entities) (some owned) ≡ some p)
      × (p.result.deleted + length p.result.errors ≡ length p.calls)
      × (length p.calls ≤ (if cfg.dry_run then 0 else 2 * cfg.max_deletes_per_pass))
      × (p.result.expired ≤ p.result.deleted)
      × (p.result.expired ≤ cfg.max_deletes_per_pass)
unfolding run start
run-accounts cloud cfg now entities owned =
    let p = scan cloud cfg now owned entities (start cfg entities) in
    let v = scan-Accounts cloud cfg now owned entities (start cfg entities) (ground arith) in
    let l = scan-budget_limit cloud cfg now owned entities (start cfg entities) in
    (
      p,
      refl,
      v.answered,
      bounded p v l,
      v.housekeeping,
      omega (arith, v.expired_charged, v.within_inert, l),
    )
  where
    bounded :
        (p : Pass)
        → Accounts cfg p
        → p.budget.limit ≡ cfg.max_deletes_per_pass
        → length p.calls ≤ (if cfg.dry_run then 0 else 2 * cfg.max_deletes_per_pass)
    bounded p v l = ground arith
