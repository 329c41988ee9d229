-- ===== src/Totp.antt =====
-- pkg/totp: time-based one-time passwords (totp.go) and the seeds that they are made from (otpauth.go).
--
-- The base32 decoder, HMAC-SHA1 and the URL parser are arguments. A time is its Unix time in seconds. An index
-- out of range, at which Go panics, is `none`.
pub mod Codes
pub mod Examples
use openbao_cloud_creds.Base.{
  ℕ, zero, suc, ◌-◌, ◌+◌, ◌*◌, ◌/◌, ◌%◌, ◌==◌, ◌++◌, Text, text, text_eq, is_empty, List, [], ◌∷◌,
  map, drop, length, Option, none, some, Bool, true, false, ◌&&◌, ◌||◌, not, leb, format,
  trim_space, if◌then◌else◌,
}

-- `Step` in seconds.
abbrev pub step : ℕ
step = 30

abbrev pub digits : ℕ
digits = 6

unfoldable pub to_upper : ℕ → ℕ
to_upper c = if leb 97 c && leb c 122 then c - 32 else c

unfoldable pub without_spaces : Text → Text
without_spaces [] = []
without_spaces (c ∷ cs) = let rest = without_spaces cs in if c == 32 then rest else c ∷ rest

unfoldable pub normalise : Text → Text
normalise seed = map to_upper (without_spaces (trim_space seed))

-- The low bytes of a number, the highest of them first.
unfoldable pub big_endian : ℕ → ℕ → List ℕ → List ℕ
big_endian zero n rest = rest
big_endian (suc k) n rest = big_endian k (n / 256) (n % 256 ∷ rest)

unfoldable pub last_byte : List ℕ → Option ℕ
last_byte [] = none
last_byte (b ∷ []) = some b
last_byte (b ∷ c ∷ bs) = last_byte (c ∷ bs)

-- `binary.BigEndian.Uint32` of the first four bytes.
unfoldable pub word_of : List ℕ → Option ℕ
word_of (a ∷ b ∷ c ∷ d ∷ rest) = some (((a * 256 + b) * 256 + c) * 256 + d)
word_of _ = none

-- The dynamic truncation of a digest.
unfoldable pub truncate : List ℕ → Option ℕ
truncate sum = elim (last_byte sum) [
  | none ↦ none
  | some b ↦ elim (word_of (drop (b % 16) sum)) [
    | none ↦ none
    | some word ↦ some (word % 2_147_483_648)
  ]
]

unfoldable pub zeros : ℕ → Text
zeros zero = []
zeros (suc n) = 48 ∷ zeros n

-- `%0*d`.
unfoldable pub pad : ℕ → ℕ → Text
pad width n = zeros (width - length (format n)) ++ format n

pub data Code : Type 0 where
  code_is : Text → Code
  bad_seed : Code
  panics : Code

abbrev pub modulus : ℕ
modulus = 1_000_000

module _ (decode : Text → Option (List ℕ)) (hmac_sha1 : List ℕ → List ℕ → List ℕ) where
  unfoldable pub code : Text → ℕ → Code
  code seed at = elim (decode (normalise seed)) [
    | none ↦ bad_seed
    | some key ↦ elim (truncate (hmac_sha1 key (big_endian 8 (at / step) []))) [
      | none ↦ panics
      | some n ↦ code_is (pad digits (n % modulus))
    ]
  ]

unfoldable pub seconds_until_next_window : ℕ → ℕ
seconds_until_next_window at = step - at % step

-- What `url.Parse` makes of a seed; a field that the query lacks is empty.
pub record Url : Type 0 where
  pub scheme : Text
  pub host : Text
  pub query : Text → Text

-- The parameters that an enrolment may state, and what they must be.
abbrev pub assumed : List (Text × Text)
assumed =
    (text "algorithm", text "SHA1") ∷ (text "digits", text "6") ∷ (text "period", text "30") ∷ []

unfoldable pub agrees : Url → List (Text × Text) → Bool
agrees url [] = true
agrees url ((field, want) ∷ rest) =
    let got = url.query field in (is_empty got || text_eq got want) && agrees url rest

-- `ParseSeed`: `none` is an error.
unfoldable pub parse_seed : (Text → Option Url) → Text → Option Text
parse_seed parse [] = none
parse_seed parse (c ∷ seed) = elim (parse (c ∷ seed)) [
  | none ↦ some (c ∷ seed)
  | some url ↦
      if is_empty url.scheme
      then some (c ∷ seed)
      else if not (text_eq url.scheme (text "otpauth"))
      then none
      else if not (text_eq url.host (text "totp"))
      then none
      else if not (agrees url assumed)
      then none
      else if is_empty (url.query (text "secret"))
      then none
      else some (url.query (text "secret"))
]
