-- ===== src/Base/Bytes.antt =====
-- Text as the list of its bytes: equality, prefixes, `strings.Cut`, and the byte order.
use Prim.Native.Char.{code}
use Prim.Native.Nat.{ℕ}
use Prim.Native.String.{String}
use mathlib.Core.Path.{◌≡◌, refl}
use mathlib.Core.Logic.{◌↔◌, inl, inr}
use mathlib.Core.Bool.{Bool, true, false, ◌&&◌}
use mathlib.Core.Option.{Option, none, some}
use mathlib.Core.List.{List, [], ◌∷◌, ◌++◌}
use native.Mathlib.Omega.{arith}
use openbao_cloud_creds.Base.Tests.{◌==◌, if◌then◌else◌, Option-cases}

abbrev pub Text : Type 0
Text = List ℕ

-- The bytes of a literal (the source's literals are ASCII).
abbrev pub text : String → Text
text String.[] = []
text (String.◌∷◌ c s) = code c ∷ text s

unfoldable pub text_eq : Text → Text → Bool
text_eq [] [] = true
text_eq (a ∷ s) (b ∷ t) = a == b && text_eq s t
text_eq _ _ = false

pub text_eq_iff : (s t : Text) → (text_eq s t ≡ true) ↔ (s ≡ t)
unfolding text_eq
text_eq_iff [] [] = (λ _. refl, λ _. refl)
text_eq_iff [] (b ∷ t) = (λ h. cc, λ h. cc)
text_eq_iff (a ∷ s) [] = (λ h. cc, λ h. cc)
text_eq_iff (a ∷ s) (b ∷ t) =
    (λ h. ground (arith, (text_eq_iff s t).0), λ h. ground (arith, (text_eq_iff s t).1))

pub text_eq_refl : (s : Text) → text_eq s s ≡ true
text_eq_refl s = (text_eq_iff s s).1 refl

-- `s != ""`.
abbrev pub is_empty {ℓ} : {A : Type ℓ} → List A → Bool
is_empty [] = true
is_empty (_ ∷ _) = false

unfoldable pub has_prefix : Text → Text → Bool
has_prefix s [] = true
has_prefix [] (b ∷ p) = false
has_prefix (a ∷ s) (b ∷ p) = a == b && has_prefix s p

pub has_prefix-append : (p s : Text) → has_prefix (p ++ s) p ≡ true
unfolding has_prefix
has_prefix-append [] s = refl
has_prefix-append (a ∷ p) s = ground (arith, has_prefix-append p s)

-- `s` with the prefix `p` taken off, if it has it.
unfoldable pub strip_prefix : Text → Text → Option Text
strip_prefix s [] = some s
strip_prefix [] (b ∷ p) = none
strip_prefix (a ∷ s) (b ∷ p) = if a == b then strip_prefix s p else none

pub strip_prefix-eq : (s p : Text) {r : Text} → strip_prefix s p ≡ some r → s ≡ p ++ r
unfolding strip_prefix
strip_prefix-eq s [] h = ground arith
strip_prefix-eq [] (b ∷ p) h = cc
strip_prefix-eq (a ∷ s) (b ∷ p) {r} h = ground (arith, strip_prefix-eq s p {r = r})

pub append_cancel_left : (p s t : Text) → p ++ s ≡ p ++ t → s ≡ t
append_cancel_left [] s t h = h
append_cancel_left (a ∷ p) s t h = append_cancel_left p s t (cc)

-- `strings.Cut(s, sep)`: the text before and after the first `sep`.
unfoldable pub cut : Text → Text → Option (Text × Text)
unfolding strip_prefix
cut sep [] = elim (strip_prefix [] sep) [ some r ↦ some ([], r) | none ↦ none ]
cut sep (a ∷ s) =
    let rest = cut sep s in
    elim (strip_prefix (a ∷ s) sep) [
      | some r ↦ some ([], r)
      | none ↦ elim rest [ none ↦ none | some (before, after) ↦ some (a ∷ before, after) ]
    ]

-- What is cut off, put back with the separator, is the text.
pub cut-eq :
    (sep s : Text) {before after : Text}
    → cut sep s ≡ some (before, after)
    → s ≡ before ++ (sep ++ after)
unfolding cut
cut-eq sep [] h = elim (Option-cases (strip_prefix [] sep)) [
  | inl e ↦ ground arith
  | inr (r, e) ↦ ground (arith, strip_prefix-eq [] sep {r = r})
]
cut-eq sep (a ∷ s) {before} {after} h = elim (Option-cases (strip_prefix (a ∷ s) sep)) [
  | inr (r, e) ↦ ground (arith, strip_prefix-eq (a ∷ s) sep {r = r})
  | inl e ↦ elim (Option-cases (cut sep s)) [
    | inl f ↦ ground arith
    | inr ((b, c), f) ↦ ground (arith, cut-eq sep s {before = b} {after = c})
  ]
]
