-- ===== src/Ownership/Names.antt =====
-- Whose a name is, and what a name that is cut to fit keeps.
use mathlib.Core.List.{append_assoc}
use openbao_cloud_creds.Base.{
  ◌⊎◌, ℕ, zero, suc, ◌+◌, ◌-◌, ◌≤◌, ◌<◌, ◌++◌, ◌≡◌, refl, sym, ap, ◌↔◌, inl, inr, Text, has_prefix,
  has_prefix-append, List, [], ◌∷◌, true, Bool-cases, leb, ltb, length, take, length-append,
  length-take, arith,
}
use openbao_cloud_creds.Ownership.{dash, mount_prefix, credential_name, fit_name, owns}

has_prefix-both : (p s q : Text) → has_prefix (p ++ s) (p ++ q) ≡ has_prefix s q
unfolding has_prefix
has_prefix-both [] s q = refl
has_prefix-both (a ∷ p) s q = ground (arith, has_prefix-both p s q)

has_prefix_refl : (s : Text) → has_prefix s s ≡ true
unfolding has_prefix
has_prefix_refl [] = refl
has_prefix_refl (a ∷ s) = ground (arith, has_prefix_refl s)

has_prefix_same_length :
    (a b s q : Text) → length a ≡ length b → has_prefix (a ++ s) (b ++ q) ≡ true → a ≡ b
unfolding has_prefix
has_prefix_same_length [] [] s q e h = refl
has_prefix_same_length [] (y ∷ b) s q e h = absurd (omega arith)
has_prefix_same_length (x ∷ a) [] s q e h = absurd (omega arith)
has_prefix_same_length (x ∷ a) (y ∷ b) s q e h = ground (arith, has_prefix_same_length a b s q)

-- Of two mounts whose ids have the same length, each owns the credentials it names and none of the other's.
pub owns-credential_name :
    (id other role request_id : Text)
    → length id ≡ length other
    → (owns id (credential_name other role request_id) ≡ true) ↔ (id ≡ other)
unfolding owns credential_name mount_prefix
owns-credential_name id other role request_id e = (
  λ h. sym (
      has_prefix_same_length other id (dash ++ (role ++ (dash ++ request_id))) dash (sym e)
        (rw (← append_assoc other dash (role ++ (dash ++ request_id))) h)),
  λ q. rw (← q) (has_prefix-append (id ++ dash) (role ++ (dash ++ request_id))),
)

-- What a name keeps of its parts.
record Fits (prefix middle suffix : Text) (n : ℕ) (t : Text) : Type 0 where
  unlimited : n ≡ 0 → t ≡ prefix ++ (middle ++ (dash ++ suffix))
  bounded : 0 < n → length t ≤ n
  starts : length prefix ≤ n → has_prefix t prefix ≡ true
  ends : length prefix + length suffix ≤ n → (m : Text) × (t ≡ prefix ++ (m ++ suffix))

with_suffix :
    (prefix middle suffix : Text) (n : ℕ) (m : Text)
    → (n ≡ 0 → m ≡ middle ++ dash)
    → (0 < n → length (prefix ++ (m ++ suffix)) ≤ n)
    → Fits prefix middle suffix n (prefix ++ (m ++ suffix))
with_suffix prefix middle suffix n m u b = record {
  unlimited = λ e. rw (u e, append_assoc middle dash suffix) refl;
  bounded = b;
  starts = λ h. has_prefix-append prefix (m ++ suffix);
  ends = λ h. (m, refl);
}

module _ (prefix middle suffix : Text) (n : ℕ) where
  take_all : {A : Type 0} (k : ℕ) (xs : List A) → length xs ≤ k → take k xs ≡ xs
  take_all zero [] h = refl
  take_all zero (x ∷ xs) h = absurd (omega arith)
  take_all (suc k) [] h = refl
  take_all (suc k) (x ∷ xs) h = ap (◌∷◌ x) (take_all k xs (omega arith))

  whole-Fits :
      (0 < n → length (prefix ++ (middle ++ (dash ++ suffix))) ≤ n)
      → Fits prefix middle suffix n (prefix ++ (middle ++ (dash ++ suffix)))
  whole-Fits b = rw⁻¹ (append_assoc middle dash suffix) (
      with_suffix prefix middle suffix n (middle ++ dash) (λ q. refl)
        (λ q. rw (append_assoc middle dash suffix) (b q)))

  middle-Fits :
      0 < n - length prefix - length suffix - 1
      → let budget = n - length prefix - length suffix - 1 in
        Fits prefix middle suffix n (prefix ++ (take budget middle ++ (dash ++ suffix)))
  middle-Fits g =
      let budget = n - length prefix - length suffix - 1 in
      rw⁻¹ (append_assoc (take budget middle) dash suffix) (
        with_suffix prefix middle suffix n (take budget middle ++ dash) (λ q. absurd (omega arith))
          (λ q. omega (
            arith,
            length-append prefix ((take budget middle ++ dash) ++ suffix),
            length-append (take budget middle ++ dash) suffix,
            length-append (take budget middle) dash,
            length-take budget middle,
          )))

  suffix-Fits :
      length prefix < n
      → n < length prefix + length suffix
      → Fits prefix middle suffix n (prefix ++ take (n - length prefix) suffix)
  suffix-Fits k h = record {
    unlimited = λ e. absurd (omega arith);
    bounded = λ q. omega (
      arith,
      length-append prefix (take (n - length prefix) suffix),
      length-take (n - length prefix) suffix,
    );
    starts = λ q. has_prefix-append prefix (take (n - length prefix) suffix);
    ends = λ q. absurd (omega arith);
  }

  prefix-Fits :
      0 < n
      → n ≤ length prefix
      → n < length prefix + length suffix
      → Fits prefix middle suffix n (take n prefix)
  prefix-Fits e k h = record {
    unlimited = λ q. absurd (omega arith);
    bounded = λ q. omega (arith, length-take n prefix);
    starts = λ q. rw (take_all n prefix q) (has_prefix_refl prefix);
    ends = λ q. absurd (omega arith);
  }

  fit_name-Fits : Fits prefix middle suffix n (fit_name prefix middle suffix n)
  unfolding fit_name
  fit_name-Fits =
      let whole = prefix ++ (middle ++ (dash ++ suffix)) in
      let budget = n - length prefix - length suffix - 1 in
      elim (Bool-cases (leb n 0)) [
        | inl e ↦ rw (fit_name, e) (whole-Fits (λ q. absurd (ground arith)))
        | inr e ↦ elim (Bool-cases (leb (length whole) n)) [
          | inl f ↦ rw (fit_name, e, f) (whole-Fits (λ q. ground arith))
          | inr f ↦ elim (Bool-cases (ltb 0 budget)) [
            | inl g ↦ rw (fit_name, e, f, g) (middle-Fits (ground arith))
            | inr g ↦ elim (Bool-cases (leb (length prefix + length suffix) n)) [
              | inl h ↦
                  rw (fit_name, e, f, g, h)
                    (with_suffix prefix middle suffix n [] (λ q. absurd (ground arith))
                      (λ q. ground (arith, length-append prefix suffix)))
              | inr h ↦ elim (Bool-cases (ltb (length prefix) n)) [
                | inl k ↦ rw (fit_name, e, f, g, h, k) (suffix-Fits (ground arith) (ground arith))
                | inr k ↦
                    rw (fit_name, e, f, g, h, k)
                      (prefix-Fits (ground arith) (ground arith) (ground arith))
              ]
            ]
          ]
        ]
      ]

-- A name made to fit a positive limit is never longer than it. It begins with the mount's prefix unless that
-- does not fit the limit by itself, and it ends with the suffix unless the two do not fit
-- together.
pub fit_name_lem :
    (prefix middle suffix : Text) (max_len : ℕ)
    → 0 < max_len
    → let name = fit_name prefix middle suffix max_len in
      (length name ≤ max_len)
      × ((has_prefix name prefix ≡ true) ⊎ (max_len < length prefix))
      × (((m : Text) × (name ≡ prefix ++ (m ++ suffix)))
          ⊎ (max_len < length prefix + length suffix))
fit_name_lem prefix middle suffix n pos =
    let f = fit_name-Fits prefix middle suffix n in
    (
      f.bounded pos,
      elim (Bool-cases (leb (length prefix) n)) [
        | inl e ↦ inl (f.starts (ground arith))
        | inr e ↦ inr (ground arith)
      ],
      elim (Bool-cases (leb (length prefix + length suffix) n)) [
        | inl e ↦ inl (f.ends (ground arith))
        | inr e ↦ inr (ground arith)
      ],
    )
