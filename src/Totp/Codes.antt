-- ===== src/Totp/Codes.antt =====
-- What a code is, and how long it is one.
use openbao_cloud_creds.Base.{
  ◌≡◌, refl, ap, inl, inr, ℕ, zero, suc, ◌+◌, ◌-◌, ◌*◌, ◌/◌, ◌%◌, ◌≤◌, ◌<◌, Text, List, [], ◌∷◌,
  drop, length, length-append, length-drop, Option, some, true, Bool-cases, ltb, All-append,
  AreDigits, is_digit, format, format-AreDigits, emit, arith,
}
use openbao_cloud_creds.Totp.{
  step, digits, normalise, big_endian, last_byte, word_of, truncate, zeros, pad, code_is, modulus,
  code, seconds_until_next_window,
}

abbrev ten_to : ℕ → ℕ
ten_to zero = 1
ten_to (suc k) = 10 * ten_to k

length-emit :
    (k fuel n : ℕ) (rest : Text)
    → n < ten_to (suc k)
    → length (emit fuel n rest) ≤ suc k + length rest
unfolding emit
length-emit k zero n rest h = omega arith
length-emit zero (suc fuel) n rest h =
    let small : ltb n 10 ≡ true = ground arith in rw (emit, small) (omega arith)
length-emit (suc k) (suc fuel) n rest h = elim (Bool-cases (ltb n 10)) [
  | inl e ↦ rw (emit, e) (omega arith)
  | inr e ↦
      rw (emit, e)
        (omega (arith, length-emit k fuel (n / 10) ((48 + n % 10) ∷ rest) (omega (arith, h))))
]

zeros-AreDigits : (n : ℕ) → AreDigits (zeros n)
unfolding zeros is_digit
zeros-AreDigits zero = tt
zeros-AreDigits (suc n) = (refl, zeros-AreDigits n)

length-zeros : (n : ℕ) → length (zeros n) ≡ n
unfolding zeros
length-zeros zero = refl
length-zeros (suc n) = ap suc (length-zeros n)

pad_lem : (n : ℕ) → n < modulus → (length (pad digits n) ≡ digits) × AreDigits (pad digits n)
unfolding pad format
pad_lem n h =
    let short = length-emit 5 (suc n) n [] h in
    let both = length-append (zeros (6 - length (format n))) (format n) in
    (
      omega (arith, short, both, length-zeros (6 - length (format n))),
      All-append (λ c. is_digit c ≡ true) (zeros (6 - length (format n))) (format n)
          (zeros-AreDigits (6 - length (format n))) (format-AreDigits n),
    )

word_of_full : (bs : List ℕ) → 4 ≤ length bs → (w : ℕ) × (word_of bs ≡ some w)
unfolding word_of
word_of_full (a ∷ b ∷ c ∷ d ∷ rest) h = (_, refl)
word_of_full [] h = absurd (omega arith)
word_of_full (a ∷ []) h = absurd (omega arith)
word_of_full (a ∷ b ∷ []) h = absurd (omega arith)
word_of_full (a ∷ b ∷ c ∷ []) h = absurd (omega arith)

last_byte_full : (b : ℕ) (bs : List ℕ) → (c : ℕ) × (last_byte (b ∷ bs) ≡ some c)
unfolding last_byte
last_byte_full b [] = (b, refl)
last_byte_full b (c ∷ bs) = last_byte_full c bs

-- A digest of twenty bytes has four bytes at every offset.
truncate_full : (sum : List ℕ) → length sum ≡ 20 → (n : ℕ) × (truncate sum ≡ some n)
unfolding truncate
truncate_full [] h = absurd (omega arith)
truncate_full (b ∷ bs) h =
    let (c, e) = last_byte_full b bs in
    let long = length-drop (c % 16) (b ∷ bs) in
    let (w, f) = word_of_full (drop (c % 16) (b ∷ bs)) (omega (arith, h, long)) in
    (w % 2_147_483_648, rw (truncate, e, f) refl)

-- Where the digest always has twenty bytes, as that of SHA-1, a seed that decodes gives a code, of six decimal
-- digits. It stays the code until the next window of thirty seconds, which begins in at least one
-- second and at most thirty, and is the one after.
pub code_lem :
    (decode : Text → Option (List ℕ)) (hmac_sha1 : List ℕ → List ℕ → List ℕ) (seed : Text) (at : ℕ)
    (key : List ℕ)
    → ((k m : List ℕ) → length (hmac_sha1 k m) ≡ 20)
    → decode (normalise seed) ≡ some key
    → (c : Text) × (code decode hmac_sha1 seed at ≡ code_is c)
      × (length c ≡ digits)
      × AreDigits c
      × (0 < seconds_until_next_window at)
      × (seconds_until_next_window at ≤ step)
      × ((d : ℕ)
          → d < seconds_until_next_window at
          → code decode hmac_sha1 seed (at + d) ≡ code_is c)
      × ((at + seconds_until_next_window at) / step ≡ at / step + 1)
unfolding code seconds_until_next_window
code_lem decode hmac_sha1 seed at key twenty decoded =
    let message = big_endian 8 (at / step) [] in
    let (n, e) = truncate_full (hmac_sha1 key message) (twenty key message) in
    let (long, are_digits) = pad_lem (n % modulus) (omega arith) in
    (
      pad digits (n % modulus),
      rw (code, decoded, e) refl,
      long,
      are_digits,
      omega arith,
      omega arith,
      (λ d h.
          let same : (at + d) / step ≡ at / step = omega (arith, h) in
          rw (code, decoded, same, e) refl),
      omega arith,
    )
