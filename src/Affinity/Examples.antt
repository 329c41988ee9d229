-- ===== src/Affinity/Examples.antt =====
-- The order of two minters, listed in two ways.
use mathlib.Core.List.{Perm, Permᴰ}
use openbao_cloud_creds.Base.{none, ℕ, ◌≡◌, refl, Text, text, List, [], ◌∷◌}
use openbao_cloud_creds.Affinity.{order}
use openbao_cloud_creds.Affinity.Order.{order_lem}

abbrev ids : List Text
ids = text "m1" ∷ text "m2" ∷ []

abbrev swapped : List Text
swapped = text "m2" ∷ text "m1" ∷ []

-- Any digest will do.
abbrev digest : Text → List ℕ
digest t = t

order_example :
    (order digest (λ n. none) (text "worker") ids
      ≡ order digest (λ n. none) (text "worker") swapped)
    × Perm (order digest (λ n. none) (text "worker") ids) ids
order_example = order_lem digest (λ n. none) (text "worker") ids swapped refl (Permᴰ.swap refl refl)
