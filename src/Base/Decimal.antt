-- ===== src/Base/Decimal.antt =====
-- `strconv`: decimal texts of integers, and their parsing; `strings.TrimSpace`.
use Prim.Native.Nat.{ℕ, zero, suc, ◌+◌, ◌-◌, ◌*◌, ◌/◌, ◌%◌, ◌≤◌, ◌<◌}
use mathlib.Core.Path.{◌≡◌, refl, ap, ◌∙◌}
use mathlib.Core.Logic.{inl, inr}
use mathlib.Core.Bool.{Bool, true, false, ◌&&◌, ◌||◌}
use mathlib.Core.Option.{Option, none, some}
use mathlib.Core.List.{[], ◌∷◌}
use native.Mathlib.Omega.{arith}
use openbao_cloud_creds.Base.Tests.{ltb, leb, ◌==◌, if◌then◌else◌, Bool-cases}
use openbao_cloud_creds.Base.Lists.{All}
use openbao_cloud_creds.Base.Bytes.{Text, is_empty}

-- A Go `int` or `int64`.
pub data ℤ : Type 0 where
  pos : ℕ → ℤ
  negsuc : ℕ → ℤ

-- The digits of a number in front of a text, the fuel being more than the number.
unfoldable pub emit : ℕ → ℕ → Text → Text
emit zero n rest = rest
emit (suc fuel) n rest = elim (ltb n 10) [
  | true ↦ (48 + n) ∷ rest
  | false ↦ emit fuel (n / 10) ((48 + n % 10) ∷ rest)
]

-- `strconv.FormatInt(n, 10)` of a number that is not negative.
unfoldable pub format : ℕ → Text
unfolding emit
format n = emit (suc n) n []

unfoldable pub is_digit : ℕ → Bool
is_digit c = leb 48 c && leb c 57

unfoldable pub parse_digits : ℕ → Text → Option ℕ
unfolding is_digit
parse_digits n [] = some n
parse_digits n (c ∷ cs) = elim (is_digit c) [
  | true ↦ parse_digits (n * 10 + (c - 48)) cs
  | false ↦ none
]

abbrev pub max_int : ℕ
max_int = 9_223_372_036_854_775_807

-- `strconv.ParseUint` with the bound of the sign.
unfoldable pub parse_below : ℕ → Text → Option ℕ
unfolding parse_digits
parse_below bound [] = none
parse_below bound (c ∷ cs) = elim (parse_digits 0 (c ∷ cs)) [
  | none ↦ none
  | some n ↦ if leb n bound then some n else none
]

unfoldable pub negate : ℕ → ℤ
negate zero = pos 0
negate (suc n) = negsuc n

-- `strconv.ParseInt(s, 10, 64)`, and `strconv.Atoi`.
unfoldable pub parse_int : Text → Option ℤ
unfolding parse_below negate
parse_int [] = none
parse_int (c ∷ cs) =
    if c == 45
    then elim (parse_below (max_int + 1) cs) [ none ↦ none | some n ↦ some (negate n) ]
    else if c == 43
    then elim (parse_below max_int cs) [ none ↦ none | some n ↦ some (pos n) ]
    else elim (parse_below max_int (c ∷ cs)) [ none ↦ none | some n ↦ some (pos n) ]

-- A white-space byte; the spaces that need more than one byte are left out.
unfoldable pub is_space : ℕ → Bool
is_space c = (leb 9 c && leb c 13) || c == 32

unfoldable pub trim_left : Text → Text
unfolding is_space
trim_left [] = []
trim_left (c ∷ cs) = let rest = trim_left cs in if is_space c then rest else c ∷ cs

unfoldable pub trim_right : Text → Text
unfolding is_space
trim_right [] = []
trim_right (c ∷ cs) =
    let rest = trim_right cs in if is_empty rest && is_space c then [] else c ∷ rest

unfoldable pub trim_space : Text → Text
trim_space s = trim_right (trim_left s)

is_digit-low : (n : ℕ) → n < 10 → is_digit (48 + n) ≡ true
unfolding is_digit
is_digit-low n h = ground arith

parse_digits-cons :
    (a n : ℕ) (rest : Text)
    → n < 10
    → parse_digits a ((48 + n) ∷ rest) ≡ parse_digits (a * 10 + n) rest
unfolding parse_digits
parse_digits-cons a n rest h =
    let q : 48 + n - 48 ≡ n = omega arith in rw (parse_digits, is_digit-low n h, q) refl

parse_digits-emit :
    (fuel n : ℕ) (rest : Text) → n < fuel → parse_digits 0 (emit fuel n rest) ≡ parse_digits n rest
unfolding emit
parse_digits-emit zero n rest h = ground arith
parse_digits-emit (suc fuel) n rest h = elim (Bool-cases (ltb n 10)) [
  | inl e ↦
      let q : 0 * 10 + n ≡ n = omega arith in
      rw (emit, e) (parse_digits-cons 0 n rest (ground arith) ∙ ap (λ k. parse_digits k rest) q)
  | inr e ↦
      let q : n / 10 * 10 + n % 10 ≡ n = omega arith in
      rw (emit, e)
        (parse_digits-emit fuel (n / 10) ((48 + n % 10) ∷ rest) (ground arith)
          ∙ parse_digits-cons (n / 10) (n % 10) rest (omega arith)
          ∙ ap (λ k. parse_digits k rest) q)
]

pub parse_digits-format : (n : ℕ) → parse_digits 0 (format n) ≡ some n
unfolding format parse_digits
parse_digits-format n = parse_digits-emit (suc n) n [] (omega arith)

-- Only digits are written, at least one.
abbrev pub AreDigits : Text → Type 0
AreDigits s = All (λ c. is_digit c ≡ true) s

emit-AreDigits : (fuel n : ℕ) (rest : Text) → AreDigits rest → AreDigits (emit fuel n rest)
unfolding emit
emit-AreDigits zero n rest h = h
emit-AreDigits (suc fuel) n rest h = elim (Bool-cases (ltb n 10)) [
  | inl e ↦ rw (emit, e) (is_digit-low n (ground arith), h)
  | inr e ↦
      rw (emit, e)
        (emit-AreDigits fuel (n / 10) ((48 + n % 10) ∷ rest)
          (is_digit-low (n % 10) (omega arith), h))
]

pub format-AreDigits : (n : ℕ) → AreDigits (format n)
unfolding format
format-AreDigits n = emit-AreDigits (suc n) n [] tt

emit_cons : (fuel n : ℕ) (c : ℕ) (rest : Text) → is_empty (emit fuel n (c ∷ rest)) ≡ false
unfolding emit
emit_cons zero n c rest = refl
emit_cons (suc fuel) n c rest = elim (Bool-cases (ltb n 10)) [
  | inl e ↦ rw (emit, e) refl
  | inr e ↦ rw (emit, e) (emit_cons fuel (n / 10) (48 + n % 10) (c ∷ rest))
]

pub format_full : (n : ℕ) → is_empty (format n) ≡ false
unfolding format emit
format_full n = elim (Bool-cases (ltb n 10)) [
  | inl e ↦ rw (emit, e) refl
  | inr e ↦ rw (emit, e) (emit_cons n (n / 10) (48 + n % 10) [])
]

pub parse_int-digits :
    (s : Text) (n : ℕ)
    → AreDigits s
    → is_empty s ≡ false
    → parse_digits 0 s ≡ some n
    → n ≤ max_int
    → parse_int s ≡ some (pos n)
unfolding parse_int parse_below is_digit
parse_int-digits [] n d f e h = cc
parse_int-digits (c ∷ cs) n d f e h =
    let minus : (c == 45) ≡ false = ground (arith, d.0) in
    let plus : (c == 43) ≡ false = ground (arith, d.0) in
    let small : leb n max_int ≡ true = ground arith in
    rw (parse_int, minus, plus, parse_below, e, small) refl

-- Printing and parsing are inverse as long as the number fits.
pub parse_int-format : (n : ℕ) → n ≤ max_int → parse_int (format n) ≡ some (pos n)
parse_int-format n h =
    parse_int-digits (format n) n (format-AreDigits n) (format_full n) (parse_digits-format n) h

digit_no_space : (c : ℕ) → is_digit c ≡ true → is_space c ≡ false
unfolding is_digit is_space
digit_no_space c h = ground arith

trim_left-digits : (s : Text) → AreDigits s → trim_left s ≡ s
unfolding trim_left
trim_left-digits [] d = refl
trim_left-digits (c ∷ cs) d = rw (trim_left, digit_no_space c d.0) refl

trim_right-digits : (s : Text) → AreDigits s → trim_right s ≡ s
unfolding trim_right
trim_right-digits [] d = refl
trim_right-digits (c ∷ cs) d = ground (arith, digit_no_space c d.0, trim_right-digits cs d.1)

pub trim_space-digits : (s : Text) → AreDigits s → trim_space s ≡ s
unfolding trim_space
trim_space-digits s d = ap trim_right (trim_left-digits s d) ∙ trim_right-digits s d
