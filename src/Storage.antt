-- ===== src/Storage.antt =====
-- The storage that OpenBao hands to a plugin (`logical.Storage` of the SDK), as an interface over its own
-- state, and the values that the plugins keep in it.
--
-- A stored value that is a JSON object is kept as its fields. A string field that `time.Parse` reads as an
-- RFC 3339 time is a `stamp`. Any other value is kept as its bytes, and is no JSON object.
pub mod Memory
use openbao_cloud_creds.Base.{
  ℕ, Text, text_eq, List, [], ◌∷◌, Option, none, some, Bool, false, ◌≡◌, if◌then◌else◌,
}

pub data Json : Type 0 where
  str : Text → Json
  stamp : ℕ → Json
  num : ℕ → Json
  flag : Bool → Json

abbrev pub Fields : Type 0
Fields = List (Text × Json)

pub data Value : Type 0 where
  object : Fields → Value
  bytes : Text → Value

-- `none` is an error, also inside a call that would change the state: it is then left as it was.
pub record Storage (S : Type 0) : Type 0 where
  pub list : S → Text → Option (List Text)
  pub get : S → Text → Option (Option Value)
  pub put : S → Text → Value → Option S
  pub delete : S → Text → Option S

-- What the plugins rely on: a read that succeeds tells the content, and a write that succeeds changes
-- the content of its key alone.
pub record Laws {S : Type 0} (st : Storage S) (content : S → Text → Option Value) : Type 0 where
  pub get_reads : (s : S) (k : Text) {v : Option Value} → st.get s k ≡ some v → v ≡ content s k
  pub put_writes :
      (s : S) (k : Text) (v : Value) {t : S} (j : Text)
      → st.put s k v ≡ some t
      → content t j ≡ (if text_eq k j then some v else content s j)
  pub delete_removes :
      (s : S) (k : Text) {t : S} (j : Text)
      → st.delete s k ≡ some t
      → content t j ≡ (if text_eq k j then none else content s j)

-- A field of a JSON object: the last one of that name.
unfoldable pub field : Text → Fields → Option Json
field name [] = none
field name ((k, v) ∷ fs) = elim (field name fs) [
  | some w ↦ some w
  | none ↦ if text_eq k name then some v else none
]

-- `s, _ := fields[name].(string)`, for a text that is no time: a stamp is never empty, nor a name.
unfoldable pub string_field : Text → Fields → Text
unfolding field
string_field name fs = elim (field name fs) [ some (str s) ↦ s | _ ↦ [] ]

infixl 5 ◌>>=◌
abbrev pub ◌>>=◌ {ℓ κ} : {A : Type ℓ} {B : Type κ} → Option A → (A → Option B) → Option B
none >>= f = none
some a >>= f = f a

-- What `json.Unmarshal` does with a field of each type: zero where it is missing, an error where it is of
-- another type.
abbrev pub as_text : Option Json → Option Text
as_text none = some []
as_text (some (str s)) = some s
as_text (some j) = none

abbrev pub as_time : Option Json → Option ℕ
as_time none = some 0
as_time (some (stamp t)) = some t
as_time (some j) = none

abbrev pub as_num : Option Json → Option ℕ
as_num none = some 0
as_num (some (num n)) = some n
as_num (some j) = none

abbrev pub as_flag : Option Json → Option Bool
as_flag none = some false
as_flag (some (flag b)) = some b
as_flag (some j) = none
