-- ===== src/Ledger.antt =====
-- pkg/mintledger/mintledger.go: when this mount minted a credential, for clouds that do not report it.
--
-- A nil storage is left out. A time is a number of nanoseconds since Go's zero time, as in Recovery; the
-- ledger keeps whole seconds since 1970, and a time before 1970 is written as 0.
pub mod Entries
pub mod Examples
use openbao_cloud_creds.Base.{
  ℕ, suc, ◌+◌, ◌-◌, ◌*◌, ◌/◌, ◌%◌, ◌++◌, Text, text, is_empty, any, List, [], ◌∷◌, Option, none,
  some, Bool, true, false, ◌||◌, ◌&&◌, ◌==◌, ltb, leb, if◌then◌else◌, ℤ, pos, negsuc, format,
  is_digit, parse_int, trim_space,
}
use openbao_cloud_creds.Storage.{Value, bytes, Storage}

abbrev pub prefix : Text
prefix = text "mint-ledger/"

-- `Retention`: thirty days.
abbrev pub retention : ℕ
retention = 2_592_000_000_000_000

abbrev pub second : ℕ
second = 1_000_000_000

-- 1970 in seconds since the year 1.
abbrev pub unix_epoch : ℕ
unix_epoch = 62_135_596_800

-- `t.Unix()`.
unfoldable pub unix : ℕ → ℕ
unix t = t / second - unix_epoch

-- `time.Unix(seconds, 0)`.
unfoldable pub from_unix : ℤ → ℕ
from_unix (pos n) = (unix_epoch + n) * second
from_unix (negsuc n) = (unix_epoch - suc n) * second

-- `url.PathEscape`, byte by byte.
unfoldable pub is_path_byte : ℕ → Bool
is_path_byte b =
    (leb 97 b && leb b 122)
    || (leb 65 b && leb b 90)
    || is_digit b
    || any (λ c. c == b) (text "-_.~$&+:=@")

unfoldable pub hex_digit : ℕ → ℕ
hex_digit n = if ltb n 10 then 48 + n else 55 + n

unfoldable pub path_escape : Text → Text
path_escape [] = []
path_escape (b ∷ bs) =
    let rest = path_escape bs in
    if is_path_byte b then b ∷ rest else 37 ∷ hex_digit (b / 16) ∷ hex_digit (b % 16) ∷ rest

unfoldable pub entry_key : Text → Text
entry_key id = prefix ++ path_escape id

module _ {S : Type 0} (st : Storage S) (raw : Value → Text) where
  -- `Record`: the storage, with `false` on an error.
  unfoldable pub note_mint : Text → ℕ → S → S × Bool
  note_mint id at s =
      if is_empty id then (s, true) else elim (st.put s (entry_key id) (bytes (format (unix at)))) [
        | none ↦ (s, false)
        | some t ↦ (t, true)
      ]

  -- The seconds that a stored value states.
  unfoldable pub seconds_of : Value → Option ℤ
  seconds_of v = parse_int (trim_space (raw v))

  -- `CreatedAt`, given the bytes of a stored value.
  unfoldable pub created_at : S → Text → ℕ
  created_at s id = if is_empty id then 0 else elim (st.get s (entry_key id)) [
    | none ↦ 0
    | some none ↦ 0
    | some (some v) ↦ elim (seconds_of v) [ none ↦ 0 | some n ↦ from_unix n ]
  ]

  -- Whether the loop of `Prune` goes on to the deletion of an entry.
  unfoldable pub is_past : S → Text → ℕ → Bool
  is_past s key now = elim (st.get s (prefix ++ key)) [
    | none ↦ false
    | some none ↦ false
    | some (some v) ↦ elim (seconds_of v) [
      | none ↦ false
      | some n ↦ ltb (from_unix n + retention) now
    ]
  ]

  unfoldable pub prune_keys : ℕ → List Text → S → ℕ → S × ℕ
  prune_keys now [] s pruned = (s, pruned)
  prune_keys now (key ∷ keys) s pruned = elim (is_past s key now) [
    | false ↦ prune_keys now keys s pruned
    | true ↦ elim (st.delete s (prefix ++ key)) [
      | none ↦ prune_keys now keys s pruned
      | some t ↦ prune_keys now keys t (pruned + 1)
    ]
  ]

  -- `Prune`; `none` is an error.
  unfoldable pub prune : ℕ → S → Option (S × ℕ)
  prune now s = elim (st.list s prefix) [ none ↦ none | some keys ↦ some (prune_keys now keys s 0) ]
