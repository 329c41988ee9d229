-- ===== src/Minters.antt =====
-- pkg/cloudconfig: minters, minter sets and roles as they are configured (minter.go, owned.go, role.go,
-- schema.go).
--
-- A time of 0 is the zero time, and a duration that is not positive is 0. An error is a value of `Problem`,
-- and `none` is no error.
pub mod Sets
pub mod Rewrites
pub mod Owned
pub mod Registry
pub mod Spared
pub mod Examples
use openbao_cloud_creds.Base.{
  ℕ, ◌+◌, ◌-◌, ◌*◌, ◌≤◌, Text, text, text_eq, is_empty, cut, sort_by, any, List, [], ◌∷◌, Option,
  none, some, Bool, true, false, ◌&&◌, ◌||◌, not, ltb, leb, ◌==◌, length, if◌then◌else◌,
}

-- `MinMinterGap`: seven days.
abbrev pub min_minter_gap : ℕ
min_minter_gap = 604_800_000_000_000

pub record Minter : Type 0 where
  pub id : Text
  pub token : Text
  pub expires_at : ℕ
  pub never_expires : Bool
  pub created_at : ℕ
  pub retired : Bool
  pub retired_at : ℕ
  pub rotation_params : List (Text × Text)

pub data Problem : Type 0 where
  empty_name bad_name empty_set too_few : Problem
  no_expiry : Text → Problem
  close_expiry : Text → Text → Problem
  no_id : Problem
  same_id : Text → Problem
  unknown_key : Text → Problem
  bad_default_ttl bad_max_ttl ttl_order : Problem
  newer_schema : ℕ → Problem
  bad_interval : Text → Problem

-- A byte of `[a-zA-Z0-9_-]`.
is_name_byte : ℕ → Bool
is_name_byte b =
    (leb 97 b && leb b 122)
    || (leb 65 b && leb b 90)
    || (leb 48 b && leb b 57)
    || b == 95
    || b == 45

unfoldable pub validate_set_name : Text → Option Problem
unfolding is_name_byte
validate_set_name name =
    if is_empty name
    then some empty_name
    else if any (λ b. not (is_name_byte b)) name
    then some bad_name
    else none

unfoldable pub active_minters : List Minter → List Minter
active_minters [] = []
active_minters (m ∷ minters) =
    if not m.retired then m ∷ active_minters minters else active_minters minters

-- What the loop over the active minters finds: a minter without an expiry, or whether one never expires, with
-- those that expire.
pub data Expiries : Type 0 where
  missing : Text → Expiries
  found : Bool → List Minter → Expiries

unfoldable pub add_expiry : Minter → Expiries → Expiries
add_expiry m (missing id) = missing id
add_expiry m (found never expiring) =
    if m.never_expires then found true expiring else found never (m ∷ expiring)

unfoldable pub collect_expiries : List Minter → Expiries
unfolding add_expiry
collect_expiries [] = found false []
collect_expiries (m ∷ minters) =
    let rest = collect_expiries minters in
    if not m.never_expires && m.expires_at == 0 then missing m.id else add_expiry m rest

unfoldable pub check_gap : Minter → List Minter → Option Problem
check_gap m [] = none
check_gap m (n ∷ rest) =
    let later = check_gap n rest in
    if ltb (n.expires_at - m.expires_at) min_minter_gap
    then some (close_expiry m.id n.id)
    else later

unfoldable pub check_gaps : List Minter → Option Problem
unfolding check_gap
check_gaps [] = none
check_gaps (m ∷ rest) = check_gap m rest

unfoldable pub by_expiry : Minter → Minter → Bool
by_expiry m n = leb m.expires_at n.expires_at

unfoldable pub check_expiries : Expiries → Option Problem
unfolding by_expiry
check_expiries (missing id) = some (no_expiry id)
check_expiries (found true expiring) = none
check_expiries (found false expiring) =
    if ltb (length expiring) 2 then some too_few else check_gaps (sort_by by_expiry expiring)

unfoldable pub validate_minter_set : List Minter → Option Problem
validate_minter_set minters =
    let active = active_minters minters in
    if is_empty active then some empty_set else check_expiries (collect_expiries active)

-- `ValidateMinterKeys`, whose first unknown key is any one of them.
unfoldable pub validate_minter_keys : List Text → List Text → Option Problem
validate_minter_keys allowed [] = none
validate_minter_keys allowed (key ∷ keys) =
    if any (λ k. text_eq k key) allowed
    then validate_minter_keys allowed keys
    else some (unknown_key key)

-- The entry of `byID`: the last stored minter of that id.
unfoldable pub find_minter : Text → List Minter → Option Minter
find_minter id [] = none
find_minter id (m ∷ minters) = elim (find_minter id minters) [
  | some n ↦ some n
  | none ↦ if text_eq m.id id then some m else none
]

unfoldable pub preserve_one : List Minter → ℕ → Minter → Minter
preserve_one stored now m = elim (find_minter m.id stored) [
  | some previous ↦ record m {
    created_at = previous.created_at;
    retired = previous.retired;
    retired_at = previous.retired_at;
    rotation_params =
        if is_empty m.rotation_params then previous.rotation_params else m.rotation_params;
  }
  | none ↦ if m.created_at == 0 then record m { created_at = now } else m
]

-- `PreserveLifecycle`; a set that is not stored has no minters.
unfoldable pub preserve_lifecycle : List Minter → List Minter → ℕ → List Minter
unfolding preserve_one
preserve_lifecycle [] stored now = []
preserve_lifecycle (m ∷ incoming) stored now =
    preserve_one stored now m ∷ preserve_lifecycle incoming stored now

unfoldable pub check_ids : List Text → List Minter → Option Problem
check_ids seen [] = none
check_ids seen (m ∷ minters) =
    if is_empty m.id || text_eq m.id (text "<nil>")
    then some no_id
    else if any (λ id. text_eq id m.id) seen
    then some (same_id m.id)
    else check_ids (m.id ∷ seen) minters

unfoldable pub validate_minter_ids : List Minter → Option Problem
unfolding check_ids
validate_minter_ids minters = check_ids [] minters

unfoldable pub param : Text → List (Text × Text) → Text
param key [] = []
param key ((k, v) ∷ params) = if text_eq k key then v else param key params

unfoldable pub cloud_key_id : Minter → List Text → Text
unfolding param cut
cloud_key_id m [] = elim (cut (text ":") m.token) [ none ↦ [] | some (public, secret) ↦ public ]
cloud_key_id m (key ∷ keys) =
    if is_empty (param key m.rotation_params)
    then cloud_key_id m keys
    else param key m.rotation_params

abbrev pub schema_version : ℕ
schema_version = 1

unfoldable pub check_schema : ℕ → Option Problem
check_schema schema = if ltb schema_version schema then some (newer_schema schema) else none

pub record Role : Type 0 where
  pub name : Text
  pub default_ttl : ℕ
  pub max_ttl : ℕ

unfoldable pub validate_role : Role → Option Problem
validate_role r =
    if is_empty r.name
    then some empty_name
    else if leb r.default_ttl 0
    then some bad_default_ttl
    else if leb r.max_ttl 0
    then some bad_max_ttl
    else if ltb r.max_ttl r.default_ttl
    then some ttl_order
    else none
