-- ===== src/Base/Maps.antt =====
-- A Go map with string keys, as the list of its entries.
use mathlib.Core.Path.{◌≡◌, refl}
use mathlib.Core.Option.{Option, none, some}
use mathlib.Core.List.{List, [], ◌∷◌}
use native.Mathlib.Omega.{arith}
use openbao_cloud_creds.Base.Tests.{if◌then◌else◌}
use openbao_cloud_creds.Base.Bytes.{Text, text_eq, text_eq_iff}

module _ {ℓ} {A : Type ℓ} where
  unfoldable pub find_key : Text → List (Text × A) → Option A
  find_key key [] = none
  find_key key ((k, a) ∷ m) = if text_eq k key then some a else find_key key m

  -- `m[key] = a`: in the entry's place where there is one.
  unfoldable pub set_key : Text → A → List (Text × A) → List (Text × A)
  set_key key a [] = (key, a) ∷ []
  set_key key a ((k, b) ∷ m) = if text_eq k key then (k, a) ∷ m else (k, b) ∷ set_key key a m

  unfoldable pub remove_key : Text → List (Text × A) → List (Text × A)
  remove_key key [] = []
  remove_key key ((k, b) ∷ m) =
      if text_eq k key then remove_key key m else (k, b) ∷ remove_key key m

  unfoldable pub keys : List (Text × A) → List Text
  keys [] = []
  keys ((k, a) ∷ m) = k ∷ keys m

  unfoldable pub values : List (Text × A) → List A
  values [] = []
  values ((k, a) ∷ m) = a ∷ values m

module _ {ℓ} {A : Type ℓ} where
  pub find_key-set_key :
      (key k : Text) (a : A) (m : List (Text × A))
      → find_key key (set_key k a m) ≡ (if text_eq k key then some a else find_key key m)
  unfolding find_key set_key
  find_key-set_key key k a [] = refl
  find_key-set_key key k a ((j, b) ∷ m) =
      ground
        (arith, text_eq_iff k key, text_eq_iff j key, text_eq_iff j k, find_key-set_key key k a m)

  pub find_key-remove_key :
      (key k : Text) (m : List (Text × A))
      → find_key key (remove_key k m) ≡ (if text_eq k key then none else find_key key m)
  unfolding find_key remove_key
  find_key-remove_key key k [] = ground arith
  find_key-remove_key key k ((j, b) ∷ m) =
      ground
        (arith, text_eq_iff k key, text_eq_iff j key, text_eq_iff j k, find_key-remove_key key k m)

  -- Writing back what is there changes nothing.
  pub set_key-same :
      (key : Text) (a : A) (m : List (Text × A)) → find_key key m ≡ some a → set_key key a m ≡ m
  unfolding find_key set_key
  set_key-same key a [] h = ground arith
  set_key-same key a ((k, b) ∷ m) h = ground (arith, set_key-same key a m)
