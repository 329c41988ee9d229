-- ===== src/Purge/Rules.antt =====
-- An invariant of the rounds holds for the loop of `Pass`.
use openbao_cloud_creds.Base.{ℕ, ◌++◌, ◌≡◌, Text, List, [], ◌∷◌, some, All}
use openbao_cloud_creds.Storage.{Storage}
use openbao_cloud_creds.Purge.{gone, Record, Deleter, Result, State, Round, delete_loop}
use openbao_cloud_creds.Purge.Rounds.{
  Attempted, full, limited, refused, stuck, removed, attempt-Attempted, proceed, asked,
  after_failure, after_removal,
}

module _ {S : Type 0} (st : Storage S) (del : Deleter) (prefix : Text) (budget : ℕ) where
  -- What an invariant must survive: a call, a change of the counters, and a removal after a call that
  -- the cloud answered with `gone`.
  pub record Kept (I : State S → Type 0) (P : Record → Type 0) : Type 0 where
    pub call : (r : Record) (p : State S) → P r → I p → I (asked del r p)
    pub count : (p : State S) (res : Result) → I p → I (record p { result = res })
    pub cut :
        (r : Record) (p : State S) (s : S)
        → P r
        → I p
        → del p.calls r ≡ gone
        → st.delete p.storage (prefix ++ r.id) ≡ some s
        → I (record (asked del r p) { storage = s })

  round_rule :
      (I : State S → Type 0) (P : Record → Type 0)
      → Kept I P
      → {r : Record} {p : State S} {t : Round S} (rs : List Record) → P r
      → I p
      → Attempted st del prefix budget r p t
      → ((q : State S) → I q → I (delete_loop st del prefix budget rs q).0)
      → I (proceed st del prefix budget rs t).0
  unfolding proceed
  round_rule I P k rs pr h (full l) ih = h
  round_rule I P k {r} {p} rs pr h (limited l e) ih = k.count (asked del r p) _ (k.call r p pr h)
  round_rule I P k {r} {p} rs pr h (stuck l e n) ih = k.call r p pr h
  round_rule I P k {r} {p} rs pr h (refused l e) ih =
      ih (after_failure del r p) (k.count (asked del r p) _ (k.call r p pr h))
  round_rule I P k {r} {p} rs pr h (removed l e s d) ih =
      ih (after_removal del r s p)
        (k.count (record (asked del r p) { storage = s }) _ (k.cut r p s pr h e d))

  -- An invariant of the rounds holds when the loop is left.
  pub loop_rule :
      (I : State S → Type 0) (P : Record → Type 0)
      → Kept I P
      → (rs : List Record) (p : State S) → All P rs
      → I p
      → I (delete_loop st del prefix budget rs p).0
  unfolding delete_loop proceed
  loop_rule I P k [] p ps h = h
  loop_rule I P k (r ∷ rs) p ps h =
      round_rule I P k rs ps.0 h (attempt-Attempted st del prefix budget r p)
        (λ q j. loop_rule I P k rs q ps.1 j)
