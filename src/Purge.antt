-- ===== src/Purge.antt =====
-- pkg/upstreampurge: deleting upstream what a role has issued, by an operator's durable intent.
--
-- The calls of the plugin's deleter are kept in order with their answers, and an answer may depend on
-- all the calls before. `none` of a fallible call is an error; what a failing call leaves behind stands
-- beside it. Log lines are left out.
pub mod Intents
pub mod Rounds
pub mod Scope
pub mod Rules
pub mod Containment
pub mod Progress
pub mod Endpoint
pub mod Dispatch
pub mod Drain
pub mod Examples
use openbao_cloud_creds.Base.{
  ℕ, ◌+◌, ◌-◌, ◌≤◌, ◌++◌, ◌≡◌, Text, text, text_eq, is_empty, sort_strings, List, [], ◌∷◌, Option,
  none, some, Bool, true, false, ◌&&◌, ◌||◌, not, ◌==◌, ltb, leb, length, if◌then◌else◌,
}
use openbao_cloud_creds.Errors.{GoError}
use openbao_cloud_creds.Storage.{
  Json, str, stamp, num, flag, Fields, Value, object, bytes, Storage, field, string_field,
}

abbrev pub intent_prefix : Text
intent_prefix = text "purge/"

abbrev pub default_max_deletes : ℕ
default_max_deletes = 50

-- `Outcome`: how a plugin turns the answer of one upstream delete into what `Pass` counts.
pub data Answer : Type 0 where
  gone throttled failed : Answer

unfoldable pub outcome : ℕ → GoError → Answer
outcome status none = gone
outcome status (some ls) =
    if status == 404 then gone else if status == 429 then throttled else failed

pub record Record : Type 0 where
  pub id : Text
  pub role : Text
  pub minter : Text
  pub created : ℕ
  pub fields : Fields

-- `Deleter`, over the calls made so far.
abbrev pub Deleter : Type 0
Deleter = List (Record × Answer) → Record → Answer

pub record Config : Type 0 where
  pub prefix : Text
  pub role : Text
  pub cutoff : ℕ
  pub max_deletes : ℕ

pub record Result : Type 0 where
  pub tracked : ℕ
  pub deleted : ℕ
  pub failed : ℕ
  pub remaining : ℕ
  pub throttled : Bool

unfoldable pub is_complete : Result → Bool
is_complete r = r.remaining == 0

pub record Intent : Type 0 where
  pub role : Text
  pub armed_at : ℕ
  pub cutoff : ℕ
  pub tracked : ℕ
  pub deleted : ℕ
  pub failed : ℕ
  pub complete : Bool

unfoldable pub record_created : Fields → ℕ
unfolding field
record_created fs = elim (field (text "created") fs) [ some (stamp t) ↦ t | _ ↦ 0 ]

-- The loop's body of `Scan`, past the read: whether the record is in scope.
unfoldable pub in_scope : Text → ℕ → Fields → Bool
in_scope role cutoff fs =
    if not (text_eq (string_field (text "role") fs) role)
    then false
    else not (not (record_created fs == 0) && ltb cutoff (record_created fs))

unfoldable pub make_record : Text → Text → Fields → Record
make_record role id fs = record {
  id = id;
  role = role;
  minter = string_field (text "minter") fs;
  created = record_created fs;
  fields = fs;
}

unfoldable pub keep_record : Text → Text → ℕ → Option Value → Option Record
unfolding in_scope make_record
keep_record id role cutoff (some (object fs)) =
    if in_scope role cutoff fs then some (make_record role id fs) else none
keep_record id role cutoff _ = none

abbrev pub add_record : Option Record → List Record → List Record
add_record none rs = rs
add_record (some r) rs = r ∷ rs

module _ {S : Type 0} (st : Storage S) where
  scan_ids : S → Text → Text → ℕ → List Text → Option (List Record)
  unfolding keep_record
  scan_ids s prefix role cutoff [] = some []
  scan_ids s prefix role cutoff (id ∷ ids) =
      let rest = scan_ids s prefix role cutoff ids in
      elim (st.get s (prefix ++ id)) [
        | none ↦ none
        | some v ↦ elim rest [
          | none ↦ none
          | some rs ↦ some (add_record (keep_record id role cutoff v) rs)
        ]
      ]

  unfoldable pub scan : S → Text → Text → ℕ → Option (List Record)
  unfolding scan_ids
  scan s prefix role cutoff = elim (st.list s prefix) [
    | none ↦ none
    | some ids ↦ scan_ids s prefix role cutoff (sort_strings ids)
  ]

-- The variables of the loop in `Pass`, with the storage and the calls made.
pub record State (S : Type 0) : Type 0 where
  pub storage : S
  pub result : Result
  pub calls : List (Record × Answer)

unfoldable pub budget_of : ℕ → ℕ
budget_of max_deletes = if max_deletes == 0 then default_max_deletes else max_deletes

-- How one round of the loop of `Pass` ends: the loop goes on, or it is left, with or without an error.
pub data Round (S : Type 0) : Type 0 where
  onward : State S → Round S
  left : State S → Bool → Round S

module _ {S : Type 0} (st : Storage S) (del : Deleter) where
  unfoldable pub attempt : Text → ℕ → Record → State S → Round S
  attempt prefix budget r p =
      let asked = record p { calls = p.calls ++ (r, del p.calls r) ∷ [] } in
      let res = p.result in
      if leb budget (res.deleted + res.failed) then left p true else elim (del p.calls r) [
        | throttled ↦ left (record asked { result = record res { throttled = true } }) true
        | failed ↦ onward (record asked { result = record res { failed = res.failed + 1 } })
        | gone ↦ elim (st.delete p.storage (prefix ++ r.id)) [
          | none ↦ left asked false
          | some s ↦
              onward
                (record asked { storage = s; result = record res { deleted = res.deleted + 1 } })
        ]
      ]

  -- The loop of `Pass`; `false` is the error of a record that cannot be deleted.
  unfoldable pub delete_loop : Text → ℕ → List Record → State S → State S × Bool
  delete_loop prefix budget [] p = (p, true)
  delete_loop prefix budget (r ∷ rs) p = elim (attempt prefix budget r p) [
    | left q fine ↦ (q, fine)
    | onward q ↦ delete_loop prefix budget rs q
  ]

  unfoldable pub begin : S → ℕ → State S
  begin s tracked = record {
    storage = s;
    result = record {
      tracked = tracked;
      deleted = 0;
      failed = 0;
      remaining = 0;
      throttled = false;
    };
    calls = [];
  }

  -- The result's `remaining`, which is set only after a loop without an error.
  abbrev settle : State S × Bool → State S × Bool
  settle (p, true) = (
    record p { result = record p.result { remaining = p.result.tracked - p.result.deleted } },
    true,
  )
  settle (p, false) = (p, false)

  -- `Pass`: the state after it, and whether it ends without an error.
  unfoldable pub pass : S → Config → State S × Bool
  unfolding delete_loop attempt begin budget_of
  pass s cfg = elim (scan st s cfg.prefix cfg.role cfg.cutoff) [
    | none ↦ (begin s 0, false)
    | some rs ↦ settle (delete_loop cfg.prefix (budget_of cfg.max_deletes) rs (begin s (length rs)))
  ]
