-- ===== src/Capability/Groups.antt =====
-- Which probes are left when those of one mint request are made into one.
use mathlib.Core.List.{Memᴰ}
use openbao_cloud_creds.Base.{
  mem_more, mem_last, ◌++◌, ◌≡◌, refl, sym, ap, ◌∙◌, inl, inr, Text, text_eq, text_eq_iff, text_le,
  insert_sorted, sort_by, any, List, [], ◌∷◌, Bool, true, false, Bool-cases, All, All-map,
  if◌then◌else◌, arith,
}
use openbao_cloud_creds.Capability.{Check, append_missing, merge_check, group_checks, dedupe}

any_mem : (s : Text) (xs : List Text) → any (λ t. text_eq t s) xs ≡ true → Memᴰ s xs
any_mem s [] h = absurd (ground arith)
any_mem s (x ∷ xs) h = elim (Bool-cases (text_eq x s)) [
  | inl e ↦ Memᴰ.head (sym ((text_eq_iff x s).0 e))
  | inr e ↦ Memᴰ.tail (any_mem s xs (ground arith))
]

abbrev add_missing : Text → List Text → List Text
add_missing s dst = if any (λ t. text_eq t s) dst then dst else dst ++ s ∷ []

add_missing-new : (s : Text) (dst : List Text) → Memᴰ s (add_missing s dst)
add_missing-new s dst = elim (Bool-cases (any (λ t. text_eq t s) dst)) [
  | inl e ↦ rw e (any_mem s dst e)
  | inr e ↦ rw e (mem_last dst s)
]

add_missing-old : (s : Text) (dst : List Text) {t : Text} → Memᴰ t dst → Memᴰ t (add_missing s dst)
add_missing-old s dst m = elim (Bool-cases (any (λ t. text_eq t s) dst)) [
  | inl e ↦ rw e m
  | inr e ↦ rw e (mem_more dst (s ∷ []) m)
]

append_missing-old : (dst src : List Text) {t : Text} → Memᴰ t dst → Memᴰ t (append_missing dst src)
unfolding append_missing
append_missing-old dst [] m = m
append_missing-old dst (s ∷ src) m =
    append_missing-old (add_missing s dst) src (add_missing-old s dst m)

append_missing-new : (dst src : List Text) → All (λ s. Memᴰ s (append_missing dst src)) src
unfolding append_missing
append_missing-new dst [] = tt
append_missing-new dst (s ∷ src) = (
  append_missing-old (add_missing s dst) src (add_missing-new s dst),
  append_missing-new (add_missing s dst) src,
)

-- One of the probes stands for this check: it has its key, and names its roles.
abbrev pub Covers : List Check → Check → Type 0
Covers groups c = (g : Check) × Memᴰ g groups × (g.key ≡ c.key) × All (λ s. Memᴰ s g.roles) c.roles

own_members : (xs : List Text) → All (λ s. Memᴰ s xs) xs
own_members [] = tt
own_members (x ∷ xs) = (Memᴰ.head refl, All-map (λ s m. Memᴰ.tail m) xs (own_members xs))

merge_check-Covers : (groups : List Check) (c : Check) → Covers (merge_check groups c) c
unfolding merge_check
merge_check-Covers [] c = (c, Memᴰ.head refl, refl, own_members c.roles)
merge_check-Covers (g ∷ groups) c = elim (Bool-cases (text_eq g.key c.key)) [
  | inl e ↦ rw e (
    record g { roles = append_missing g.roles c.roles },
    Memᴰ.head refl,
    (text_eq_iff g.key c.key).0 e,
    append_missing-new g.roles c.roles,
  )
  | inr e ↦ let (d, m, k, roles) = merge_check-Covers groups c in rw e (d, Memᴰ.tail m, k, roles)
]

Covers-more :
    {g : Check} {groups : List Check} (d : Check) → Covers groups d → Covers (g ∷ groups) d
Covers-more d (h, m, k, roles) = (h, Memᴰ.tail m, k, roles)

merge_check-keeps :
    (groups : List Check) (c d : Check) → Covers groups d → Covers (merge_check groups c) d
unfolding merge_check
merge_check-keeps [] c d (h, m, k, roles) = elim m [ ]
merge_check-keeps (g ∷ groups) c d (h, Memᴰ.head q, k, roles) =
    elim (Bool-cases (text_eq g.key c.key)) [
      | inl e ↦ rw e (
        record g { roles = append_missing g.roles c.roles },
        Memᴰ.head refl,
        ap (λ x. x.key) (sym q) ∙ k,
        All-map (λ s m. append_missing-old g.roles c.roles (rw q at m)) d.roles roles,
      )
      | inr e ↦ rw e (h, Memᴰ.head q, k, roles)
    ]
merge_check-keeps (g ∷ groups) c d (h, Memᴰ.tail m, k, roles) =
    elim (Bool-cases (text_eq g.key c.key)) [
      | inl e ↦ rw e (h, Memᴰ.tail m, k, roles)
      | inr e ↦ rw e (Covers-more d (merge_check-keeps groups c d (h, m, k, roles)))
    ]

group_checks-keeps :
    (groups checks : List Check) (d : Check)
    → Covers groups d
    → Covers (group_checks groups checks) d
unfolding group_checks
group_checks-keeps groups [] d h = h
group_checks-keeps groups (c ∷ checks) d h =
    group_checks-keeps (merge_check groups c) checks d (merge_check-keeps groups c d h)

group_checks-Covers :
    (groups checks : List Check) → All (Covers (group_checks groups checks)) checks
unfolding group_checks
group_checks-Covers groups [] = tt
group_checks-Covers groups (c ∷ checks) = (
  group_checks-keeps (merge_check groups c) checks c (merge_check-Covers groups c),
  group_checks-Covers (merge_check groups c) checks,
)

-- No two probes have the same key.
abbrev pub OtherKey : Text → Check → Type 0
OtherKey k g = text_eq g.key k ≡ false

abbrev pub DistinctKeys : List Check → Type 0
DistinctKeys [] = Unit
DistinctKeys (g ∷ groups) = All (OtherKey g.key) groups × DistinctKeys groups

merge_check-OtherKey :
    (k : Text) (groups : List Check) (c : Check)
    → text_eq c.key k ≡ false
    → All (OtherKey k) groups
    → All (OtherKey k) (merge_check groups c)
unfolding merge_check
merge_check-OtherKey k [] c n h = (n, tt)
merge_check-OtherKey k (g ∷ groups) c n h = elim (Bool-cases (text_eq g.key c.key)) [
  | inl e ↦ rw e (h.0, h.1)
  | inr e ↦ rw e (h.0, merge_check-OtherKey k groups c n h.1)
]

text_eq_flip : (s t : Text) → text_eq s t ≡ false → text_eq t s ≡ false
text_eq_flip s t h = ground (arith, text_eq_iff s t, text_eq_iff t s)

merge_check-DistinctKeys :
    (groups : List Check) (c : Check) → DistinctKeys groups → DistinctKeys (merge_check groups c)
unfolding merge_check
merge_check-DistinctKeys [] c h = (tt, tt)
merge_check-DistinctKeys (g ∷ groups) c h = elim (Bool-cases (text_eq g.key c.key)) [
  | inl e ↦ rw e (h.0, h.1)
  | inr e ↦ rw e (
    merge_check-OtherKey g.key groups c (text_eq_flip g.key c.key e) h.0,
    merge_check-DistinctKeys groups c h.1,
  )
]

group_checks-DistinctKeys :
    (groups checks : List Check) → DistinctKeys groups → DistinctKeys (group_checks groups checks)
unfolding group_checks
group_checks-DistinctKeys groups [] h = h
group_checks-DistinctKeys groups (c ∷ checks) h =
    group_checks-DistinctKeys (merge_check groups c) checks (merge_check-DistinctKeys groups c h)

module _ (le : Check → Check → Bool) where
  insert-new : (g : Check) (groups : List Check) → Memᴰ g (insert_sorted le g groups)
  unfolding insert_sorted
  insert-new g [] = Memᴰ.head refl
  insert-new g (h ∷ groups) = elim (Bool-cases (le g h)) [
    | inl e ↦ rw e (Memᴰ.head refl)
    | inr e ↦ rw e (Memᴰ.tail (insert-new g groups))
  ]

  insert-old :
      (g : Check) (groups : List Check) {d : Check}
      → Memᴰ d groups
      → Memᴰ d (insert_sorted le g groups)
  unfolding insert_sorted
  insert-old g [] m = elim m [ ]
  insert-old g (h ∷ groups) (Memᴰ.head q) = elim (Bool-cases (le g h)) [
    | inl e ↦ rw e (Memᴰ.tail (Memᴰ.head q))
    | inr e ↦ rw e (Memᴰ.head q)
  ]
  insert-old g (h ∷ groups) (Memᴰ.tail m) = elim (Bool-cases (le g h)) [
    | inl e ↦ rw e (Memᴰ.tail (Memᴰ.tail m))
    | inr e ↦ rw e (Memᴰ.tail (insert-old g groups m))
  ]

  insert-All :
      (P : Check → Type 0) (g : Check) (groups : List Check)
      → P g
      → All P groups
      → All P (insert_sorted le g groups)
  unfolding insert_sorted
  insert-All P g [] p h = (p, tt)
  insert-All P g (x ∷ groups) p h = elim (Bool-cases (le g x)) [
    | inl e ↦ rw e (p, h)
    | inr e ↦ rw e (h.0, insert-All P g groups p h.1)
  ]

  insert-DistinctKeys :
      (g : Check) (groups : List Check)
      → All (OtherKey g.key) groups
      → DistinctKeys groups
      → DistinctKeys (insert_sorted le g groups)
  unfolding insert_sorted
  insert-DistinctKeys g [] o h = (tt, tt)
  insert-DistinctKeys g (x ∷ groups) o h = elim (Bool-cases (le g x)) [
    | inl e ↦ rw e (o, h)
    | inr e ↦ rw e (
      insert-All (OtherKey x.key) g groups (text_eq_flip x.key g.key o.0) h.0,
      insert-DistinctKeys g groups o.1 h.1,
    )
  ]

  sort_by-keeps : (groups : List Check) {d : Check} → Memᴰ d groups → Memᴰ d (sort_by le groups)
  unfolding sort_by
  sort_by-keeps [] m = elim m [ ]
  sort_by-keeps (g ∷ groups) (Memᴰ.head q) = rw q (insert-new g (sort_by le groups))
  sort_by-keeps (g ∷ groups) (Memᴰ.tail m) =
      insert-old g (sort_by le groups) (sort_by-keeps groups m)

  sort_by-All :
      (P : Check → Type 0) (groups : List Check) → All P groups → All P (sort_by le groups)
  unfolding sort_by
  sort_by-All P [] h = tt
  sort_by-All P (g ∷ groups) h = insert-All P g (sort_by le groups) h.0 (sort_by-All P groups h.1)

  sort_by-DistinctKeys :
      (groups : List Check) → DistinctKeys groups → DistinctKeys (sort_by le groups)
  unfolding sort_by
  sort_by-DistinctKeys [] h = tt
  sort_by-DistinctKeys (g ∷ groups) h =
      insert-DistinctKeys g (sort_by le groups) (sort_by-All (OtherKey g.key) groups h.0)
        (sort_by-DistinctKeys groups h.1)

-- The probes that are run have distinct keys, and each check is covered by one of them that has its key and
-- names every role that it names.
pub dedupe_lem :
    (checks : List Check) → DistinctKeys (dedupe checks) × All (Covers (dedupe checks)) checks
unfolding dedupe
dedupe_lem checks = (
  sort_by-DistinctKeys (λ a b. text_le a.key b.key) (group_checks [] checks)
      (group_checks-DistinctKeys [] checks tt),
  All-map
      (λ d (h, m, k, roles).
        (h, sort_by-keeps (λ a b. text_le a.key b.key) (group_checks [] checks) m, k, roles))
      checks (group_checks-Covers [] checks),
)
