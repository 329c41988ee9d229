-- ===== src/Ledger/Examples.antt =====
-- A ledger in memory, with one mint of last year and one of now.
use openbao_cloud_creds.Base.{
  ℕ, ◌*◌, ◌/◌, ◌≡◌, refl, ◌≢◌, ◌⊎◌, Text, text, text_eq, strip_prefix, [], ◌∷◌, none, some, true,
  emit, format, is_digit, parse_digits, parse_below, parse_int, is_space, trim_left, trim_right,
  trim_space, max_int, ◌≤◌, arith,
}
use openbao_cloud_creds.Storage.{Value, object, bytes}
use openbao_cloud_creds.Storage.Memory.{Entries, memory, look, drop_key, keys_under, memory_laws}
use openbao_cloud_creds.Ledger.{
  second, unix, from_unix, is_path_byte, hex_digit, path_escape, entry_key, note_mint, seconds_of,
  created_at, is_past, prune_keys, prune,
}
use openbao_cloud_creds.Ledger.Entries.{created_at-note_mint, IsExpired, prune_lem}

abbrev raw : Value → Text
raw (object fs) = []
raw (bytes b) = b

raw_bytes : (b : Text) → raw (bytes b) ≡ b
raw_bytes b = refl

abbrev now : ℕ
now = 63_900_000_000_000_000_007

abbrev noted : Entries
noted = (text "mint-ledger/a%2Fb", bytes (text "1764403200")) ∷ []

notes : note_mint memory raw (text "a/b") now [] ≡ (noted, true)
unfolding note_mint entry_key path_escape is_path_byte hex_digit is_digit unix format emit drop_key
notes = refl

now_fits : unix now ≤ max_int
unfolding unix
now_fits = omega arith

created_at-note_mint_example :
    ((created_at memory raw noted (text "a/b") ≡ now / second * second)
      ⊎ (memory.get noted (entry_key (text "a/b")) ≡ none))
    × ((j : Text) → j ≢ text "a/b" → look noted (entry_key j) ≡ look [] (entry_key j))
created_at-note_mint_example =
    created_at-note_mint memory look memory_laws raw raw_bytes (text "a/b") now [] refl
      (omega arith) now_fits notes

abbrev two_mints : Entries
two_mints =
    (text "mint-ledger/new", bytes (text "1764403200"))
    ∷ (text "mint-ledger/old", bytes (text "1700000000\n"))
    ∷ (text "mint-ledger/odd", bytes (text "soon"))
    ∷ []

abbrev one_left : Entries
one_left =
    (text "mint-ledger/new", bytes (text "1764403200"))
    ∷ (text "mint-ledger/odd", bytes (text "soon"))
    ∷ []

prunes_one : prune memory raw now two_mints ≡ some (one_left, 1)
unfolding prune prune_keys is_past seconds_of parse_int parse_below parse_digits is_digit trim_space
    trim_left trim_right is_space from_unix look drop_key keys_under strip_prefix text_eq
prunes_one = refl

prune_example :
    let key = text "mint-ledger/old" in
    (look one_left key ≡ look two_mints key)
    ⊎ ((look one_left key ≡ none)
        × IsExpired memory look memory_laws raw raw_bytes now (look two_mints key))
prune_example =
    prune_lem memory look memory_laws raw raw_bytes now two_mints (text "mint-ledger/old")
      prunes_one
