-- ===== src/Totp/Examples.antt =====
-- The digest of RFC 4226's example of a truncation, and a seed that is pasted with spaces.
use openbao_cloud_creds.Base.{
  ℕ, ◌≡◌, ◌≤◌, ◌<◌, ◌+◌, ◌/◌, refl, Text, text, List, [], ◌∷◌, length, Option, none, some,
  AreDigits, trim_left, trim_right, trim_space, format, text_eq, if◌then◌else◌,
}
use openbao_cloud_creds.Totp.{
  step, digits, to_upper, without_spaces, normalise, last_byte, word_of, truncate, zeros, pad,
  code_is, code, seconds_until_next_window, Url, agrees, parse_seed,
}
use openbao_cloud_creds.Totp.Codes.{code_lem}

abbrev digest : List ℕ → List ℕ → List ℕ
digest key message =
    31 ∷ 134 ∷ 152 ∷ 105 ∷ 14 ∷ 2 ∷ 202 ∷ 22 ∷ 97 ∷ 133 ∷ 80 ∷ 239 ∷ 127 ∷ 25 ∷ 218 ∷ 142 ∷ 148 ∷ 91
    ∷ 85 ∷ 90 ∷ []

abbrev decode : Text → Option (List ℕ)
decode s = some s

truncated : code decode digest (text " gezd gnbv") 59 ≡ code_is (text "872921")
unfolding code truncate last_byte word_of pad zeros format
truncated = refl

normalised : normalise (text " gezd gnbv") ≡ text "GEZDGNBV"
unfolding normalise without_spaces to_upper trim_space trim_left trim_right
normalised = refl

-- An enrolment with eight digits is refused.
abbrev eight : Text → Option Url
eight s = some (record {
  scheme = text "otpauth";
  host = text "totp";
  query = λ field. if text_eq field (text "digits") then text "8" else [];
})

eight_refused : parse_seed eight (text "otpauth://totp/x") ≡ none
unfolding parse_seed agrees text_eq
eight_refused = refl

code_example :
    (c : Text) × (code decode digest (text "GEZD") 59 ≡ code_is c)
    × (length c ≡ digits)
    × AreDigits c
    × (0 < seconds_until_next_window 59)
    × (seconds_until_next_window 59 ≤ step)
    × ((d : ℕ)
        → d < seconds_until_next_window 59
        → code decode digest (text "GEZD") (59 + d) ≡ code_is c)
    × ((59 + seconds_until_next_window 59) / step ≡ 59 / step + 1)
code_example = code_lem decode digest (text "GEZD") 59 (normalise (text "GEZD")) (λ k m. refl) refl
