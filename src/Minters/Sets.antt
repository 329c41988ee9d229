-- ===== src/Minters/Sets.antt =====
-- What a minter set must have to be accepted.
use openbao_cloud_creds.Base.{
  ◌+◌, ◌≤◌, ◌≡◌, refl, ap, ◌≢◌, ◌⊎◌, inl, inr, is_empty, insert_sorted, sort_by, any, List, [], ◌∷◌,
  none, Bool, true, false, Bool-cases, not, ◌&&◌, ◌==◌, length, All, All-map, arith,
}
use openbao_cloud_creds.Minters.{
  min_minter_gap, Minter, active_minters, Expiries, missing, found, add_expiry, collect_expiries,
  check_gap, check_gaps, by_expiry, check_expiries, validate_minter_set,
}

abbrev pub HasExpiry : Minter → Type 0
HasExpiry m = (m.never_expires ≡ true) ⊎ (m.expires_at ≢ 0)

-- The two expire at least the minimal gap apart.
abbrev pub Apart : Minter → Minter → Type 0
Apart m n =
    (m.expires_at + min_minter_gap ≤ n.expires_at) ⊎ (n.expires_at + min_minter_gap ≤ m.expires_at)

abbrev pub PairwiseApart : List Minter → Type 0
PairwiseApart [] = Unit
PairwiseApart (m ∷ rest) = All (Apart m) rest × PairwiseApart rest

-- What the loop over the active minters finds out.
abbrev Found : List Minter → Expiries → Type 0
Found ms (missing id) = Unit
Found ms (found never expiring) =
    All HasExpiry ms
    × (((never ≡ true) × (any (λ m. m.never_expires) ms ≡ true))
        ⊎ ((never ≡ false) × (expiring ≡ ms)))

add_expiry-Found :
    (m : Minter) (ms : List Minter) (e : Expiries)
    → HasExpiry m
    → Found ms e
    → Found (m ∷ ms) (add_expiry m e)
unfolding add_expiry
add_expiry-Found m ms (missing id) h f = tt
add_expiry-Found m ms (found never expiring) h (all, which) = elim (Bool-cases m.never_expires) [
  | inl e ↦
      let q : add_expiry m (found never expiring) ≡ found true expiring = simp (add_expiry, e) in
      rw q ((h, all), inl (refl, ground arith))
  | inr e ↦
      let q : add_expiry m (found never expiring) ≡ found never (m ∷ expiring) =
        simp (add_expiry, e) in
      rw q (
        (h, all),
        elim which [ inl (a, b) ↦ inl (a, ground arith) | inr (a, b) ↦ inr (a, ap (◌∷◌ m) b) ],
      )
]

collect_expiries-Found : (ms : List Minter) → Found ms (collect_expiries ms)
unfolding collect_expiries
collect_expiries-Found [] = (tt, inr (refl, refl))
collect_expiries-Found (m ∷ ms) = elim (Bool-cases (not m.never_expires && m.expires_at == 0)) [
  | inl e ↦ let q : collect_expiries (m ∷ ms) ≡ missing m.id = simp (collect_expiries, e) in rw q tt
  | inr e ↦
      let q : collect_expiries (m ∷ ms) ≡ add_expiry m (collect_expiries ms) =
        simp (collect_expiries, e) in
      rw q (add_expiry-Found m ms (collect_expiries ms) (ground arith) (collect_expiries-Found ms))
]

later_trans :
    (m n : Minter) (rest : List Minter)
    → m.expires_at ≤ n.expires_at
    → All (λ o. n.expires_at + min_minter_gap ≤ o.expires_at) rest
    → All (λ o. m.expires_at + min_minter_gap ≤ o.expires_at) rest
later_trans m n [] h a = tt
later_trans m n (o ∷ rest) h a = (omega (arith, a.0), later_trans m n rest h a.1)

gaps_apart :
    (m : Minter) (rest : List Minter)
    → check_gap m rest ≡ none
    → All (λ n. m.expires_at + min_minter_gap ≤ n.expires_at) rest × PairwiseApart (m ∷ rest)
unfolding check_gap
gaps_apart m [] h = (tt, (tt, tt))
gaps_apart m (n ∷ rest) h =
    let gap : m.expires_at + min_minter_gap ≤ n.expires_at = ground arith in
    let later : check_gap n rest ≡ none = ground arith in
    let (after, apart) = gaps_apart n rest later in
    let all = later_trans m n rest (omega arith) after in
    ((gap, all), ((inl gap, All-map (λ o q. inl q) rest all), apart))

module _ (le : Minter → Minter → Bool) where
  insert-All :
      (P : Minter → Type 0) (x : Minter) (xs : List Minter)
      → All P (insert_sorted le x xs)
      → P x × All P xs
  unfolding insert_sorted
  insert-All P x [] h = h
  insert-All P x (y ∷ xs) h = elim (Bool-cases (le x y)) [
    | inl e ↦ (rw (insert_sorted, e) at h)
    | inr e ↦
        let k : P y × All P (insert_sorted le x xs) = rw (insert_sorted, e) at h in
        let (p, all) = insert-All P x xs k.1 in (p, (k.0, all))
  ]

  insert-PairwiseApart :
      (x : Minter) (xs : List Minter)
      → PairwiseApart (insert_sorted le x xs)
      → All (Apart x) xs × PairwiseApart xs
  unfolding insert_sorted
  insert-PairwiseApart x [] h = h
  insert-PairwiseApart x (y ∷ xs) h = elim (Bool-cases (le x y)) [
    | inl e ↦ (rw (insert_sorted, e) at h)
    | inr e ↦
        let k : PairwiseApart (y ∷ insert_sorted le x xs) = rw (insert_sorted, e) at h in
        let (a, all) = insert-All (Apart y) x xs k.0 in
        let (b, rest) = insert-PairwiseApart x xs k.1 in ((swap a, b), (all, rest))
  ]
    where
      swap : Apart y x → Apart x y
      swap (inl q) = inr q
      swap (inr q) = inl q

  sort_by-PairwiseApart : (xs : List Minter) → PairwiseApart (sort_by le xs) → PairwiseApart xs
  unfolding sort_by
  sort_by-PairwiseApart [] h = tt
  sort_by-PairwiseApart (x ∷ xs) h =
      let (a, rest) = insert-PairwiseApart x (sort_by le xs) h in
      (sorted_all xs a, sort_by-PairwiseApart xs rest)
    where
      sorted_all : (xs : List Minter) → All (Apart x) (sort_by le xs) → All (Apart x) xs
      sorted_all [] a = tt
      sorted_all (y ∷ ys) a =
          let (p, q) = insert-All (Apart x) y (sort_by le ys) a in (p, sorted_all ys q)

gaps_of : (ms : List Minter) → check_gaps ms ≡ none → PairwiseApart ms
unfolding check_gaps
gaps_of [] h = tt
gaps_of (m ∷ rest) h = (gaps_apart m rest h).1

Sound : List Minter → Type 0
Sound ms =
    All HasExpiry ms
    × ((any (λ m. m.never_expires) ms ≡ true) ⊎ ((2 ≤ length ms) × PairwiseApart ms))

check_expiries-Sound :
    (ms : List Minter) (e : Expiries) → Found ms e → check_expiries e ≡ none → Sound ms
unfolding check_expiries Sound
check_expiries-Sound ms (missing id) f h = cc
check_expiries-Sound ms (found true expiring) (all, which) h =
    (all, elim which [ inl (a, b) ↦ inl b | inr (a, b) ↦ cc ])
check_expiries-Sound ms (found false expiring) (all, which) h = (
  all,
  elim which [
    | inl (a, b) ↦ cc
    | inr (a, b) ↦
        let gaps : check_gaps (sort_by by_expiry expiring) ≡ none = ground arith in
        let two : 2 ≤ length expiring = ground arith in
        let apart =
          sort_by-PairwiseApart by_expiry expiring (gaps_of (sort_by by_expiry expiring) gaps) in
        inr ((rw b at two), (rw b at apart))
  ],
)

-- In a minter set that is accepted some minter is active, and each active minter expires at a known time or
-- never. Either one of them never expires, or there are two at least and every two of them
-- expire at least seven days apart.
pub validate_minter_set_lem :
    (minters : List Minter)
    → validate_minter_set minters ≡ none
    → let active = active_minters minters in
      (is_empty active ≡ false)
      × All HasExpiry active
      × ((any (λ m. m.never_expires) active ≡ true) ⊎ ((2 ≤ length active) × PairwiseApart active))
unfolding validate_minter_set Sound
validate_minter_set_lem minters h = elim (Bool-cases (is_empty (active_minters minters))) [
  | inl e ↦ absurd (ground arith)
  | inr e ↦
      let checked : check_expiries (collect_expiries (active_minters minters)) ≡ none =
        ground arith in
      let (all, which) =
        check_expiries-Sound (active_minters minters) (collect_expiries (active_minters minters))
          (collect_expiries-Found (active_minters minters)) checked in
      (e, all, which)
]
