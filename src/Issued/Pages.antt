-- ===== src/Issued/Pages.antt =====
-- What a page says of the keys after it.
use openbao_cloud_creds.Base.{
  ℕ, ◌+◌, ◌-◌, ◌<◌, ◌++◌, ◌≡◌, inl, inr, length-select-le, Text, any, select, List, [], ◌∷◌, Option,
  none, some, Option-cases, Bool, true, false, Bool-cases, not, ltb, ◌==◌, length, length-append,
  if◌then◌else◌, arith,
}
use openbao_cloud_creds.Storage.{Value, Storage}
use openbao_cloud_creds.Issued.{
  Pager, Listing, Response, add_entry, respond, read_page, read_prefixes, list_pages,
}

-- Whether the read of a key finds a record.
abbrev pub is_there : Option (Option Value) → Bool
is_there (some (some v)) = true
is_there _ = false

length-select_lt :
    (p : Text → Bool) (xs : List Text)
    → any (λ x. not (p x)) xs ≡ true
    → length (select p xs) < length xs
length-select_lt p [] h = absurd (ground arith)
length-select_lt p (x ∷ xs) h = elim (Bool-cases (p x)) [
  | inl e ↦ rw e (omega (arith, length-select_lt p xs (ground arith)))
  | inr e ↦ rw e (omega (arith, length-select-le p xs))
]

add_entry-keys :
    (index : ℕ) (key : Text) (v : Option Value) (l : Listing)
    → length (add_entry index key v l).keys ≡ length l.keys + (if is_there (some v) then 1 else 0)
unfolding add_entry
add_entry-keys index key none l = omega arith
add_entry-keys index key (some v) l = omega (arith, length-append l.keys (key ∷ []))

module _ {S : Type 0} (st : Storage S) (pager : Pager S) (s : S) where
  read_page-keys :
      (index : ℕ) (prefix : Text) (page : List Text) (l m : Listing)
      → read_page st pager s index prefix page l ≡ some m
      → length m.keys
        ≡ length l.keys + length (select (λ key. is_there (st.get s (prefix ++ key))) page)
  unfolding read_page
  read_page-keys index prefix [] l m h = rw (← unwrap h) (omega arith)
    where
      unwrap : {a b : Listing} → some a ≡ some b → a ≡ b
      unwrap q = cc
  read_page-keys index prefix (key ∷ page) l m h = elim (Option-cases (st.get s (prefix ++ key))) [
    | inl e ↦ absurd (never (rw (read_page, e) at h))
    | inr (v, e) ↦
        let rest =
          read_page-keys index prefix page (add_entry index key v l) m (rw (read_page, e) at h) in
        rw e (counted v rest)
  ]
    where
      never : none ≡ some m → ⊥
      never q = cc

      counted :
          (v : Option Value)
          → length m.keys
            ≡ length (add_entry index key v l).keys
              + length (select (λ k. is_there (st.get s (prefix ++ k))) page)
          → length m.keys
            ≡ length l.keys
              + length (
                  if is_there (some v)
                  then key ∷ select (λ k. is_there (st.get s (prefix ++ k))) page
                  else select (λ k. is_there (st.get s (prefix ++ k))) page)
      counted none rest = omega (arith, rest, add_entry-keys index key none l)
      counted (some w) rest = omega (arith, rest, add_entry-keys index key (some w) l)

  abbrev nothing_yet : Text → Listing
  nothing_yet after = record { keys = []; info = []; last = record { prefix = 0; key = after } }

  one_page :
      (prefix : Text) (limit : ℕ) (after : Text) (page : List Text) (r : Response)
      → ltb 0 limit ≡ true
      → pager s prefix after limit ≡ some page
      → list_pages st pager s (prefix ∷ []) limit (record { prefix = 0; key = after }) ≡ some r
      → (m : Listing) × (read_page st pager s 0 prefix page (nothing_yet after) ≡ some m)
        × (respond limit m ≡ r)
  unfolding list_pages read_prefixes
  one_page prefix limit after page r positive listed h =
      let whole : limit - 0 ≡ limit = omega arith in
      elim (Option-cases (read_page st pager s 0 prefix page (nothing_yet after))) [
        | inl e ↦ absurd (never (rw (list_pages, read_prefixes, positive, whole, listed, e) at h))
        | inr (m, e) ↦
            (m, e, unwrap (rw (list_pages, read_prefixes, positive, whole, listed, e) at h))
      ]
    where
      never : none ≡ some r → ⊥
      never q = cc

      unwrap : {a b : Response} → some a ≡ some b → a ≡ b
      unwrap q = cc

  -- A mount with one prefix whose page was cut at the limit, and one of whose listed records has vanished
  -- before it is read, answers that there is no more and gives no cursor, though the rest of the
  -- keys was not listed.
  pub list_pages_cut :
      (prefix : Text) (limit : ℕ) (after : Text) (page : List Text) (r : Response)
      → pager s prefix after limit ≡ some page
      → length page ≡ limit
      → any (λ key. not (is_there (st.get s (prefix ++ key)))) page ≡ true
      → list_pages st pager s (prefix ∷ []) limit (record { prefix = 0; key = after }) ≡ some r
      → (r.more ≡ false) × (r.next_after ≡ none) × (length r.keys < limit)
  unfolding respond
  list_pages_cut prefix limit after page r listed cut lost h =
      let there : Text → Bool = λ key. is_there (st.get s (prefix ++ key)) in
      let few = length-select_lt there page lost in
      let (m, read, e) = one_page prefix limit after page r (ground arith) listed h in
      let n = read_page-keys 0 prefix page (nothing_yet after) m read in
      let short : length m.keys < limit = omega (arith, n, few) in
      let other : (length m.keys == limit) ≡ false = ground arith in
      rw (← e) (other, simp (respond, other), short)
