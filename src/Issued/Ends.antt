-- ===== src/Issued/Ends.antt =====
-- Where a full page ends, for a pager that gives at most as many keys as it is asked for.
use openbao_cloud_creds.Base.{
  ℕ, zero, suc, ◌+◌, ◌-◌, length, length-append, drop, ◌≤◌, ◌<◌, ◌++◌, ◌≡◌, refl, subst, ◌⊎◌, inl,
  inr, Text, List, [], ◌∷◌, none, some, Option-cases, Bool-cases, ltb, arith,
}
use openbao_cloud_creds.Storage.{Value, Storage}
use openbao_cloud_creds.Issued.{Cursor, Pager, Listing, add_entry, read_page, read_prefixes}

-- `ListPage`'s promise: a page has at most as many keys as were asked for.
abbrev pub IsBounded : {S : Type 0} → Pager S → Type 0
IsBounded {S} pager =
    (s : S) (prefix after : Text) (n : ℕ) (page : List Text)
    → pager s prefix after n ≡ some page
    → length page ≤ n

module _ {ℓ} {A : Type ℓ} where
  taken : {a b : A} → some a ≡ some b → a ≡ b
  taken q = cc

  never : {a : A} → none ≡ some a → ⊥
  never q = cc

  tail : {x y : A} {xs ys : List A} → x ∷ xs ≡ y ∷ ys → xs ≡ ys
  tail q = cc

  not_empty : {x : A} {xs : List A} → [] ≡ x ∷ xs → ⊥
  not_empty q = cc

drop-suc :
    (n : ℕ) (xs : List Text) {x : Text} {rest : List Text}
    → drop n xs ≡ x ∷ rest
    → drop (suc n) xs ≡ rest
drop-suc zero [] h = absurd (not_empty h)
drop-suc zero (y ∷ xs) h = tail h
drop-suc (suc n) [] h = absurd (not_empty h)
drop-suc (suc n) (y ∷ xs) h = drop-suc n xs h

module _ {S : Type 0} (st : Storage S) (s : S) (prefixes : List Text) where
  -- The keys end with the key of a position, and its record stands under the position's prefix.
  pub record EndsAt (keys : List Text) (at : Cursor) : Type 0 where
    pub front : List Text
    pub prefix : Text
    pub rest : List Text
    pub value : Value
    pub last_key : keys ≡ front ++ at.key ∷ []
    pub under : drop at.prefix prefixes ≡ prefix ∷ rest
    pub stands : st.get s (prefix ++ at.key) ≡ some (some value)

  module _ (pager : Pager S) (limit : ℕ) where
    read_page-EndsAt :
        (index : ℕ) (prefix : Text) (rest : List Text) (page : List Text) (l m : Listing)
        → drop index prefixes ≡ prefix ∷ rest
        → length l.keys + length page ≤ limit
        → EndsAt l.keys l.last ⊎ (length l.keys < limit)
        → read_page st pager s index prefix page l ≡ some m
        → EndsAt m.keys m.last ⊎ (length m.keys < limit)
    unfolding read_page add_entry
    read_page-EndsAt index prefix rest [] l m at room h e =
        subst (λ x. EndsAt x.keys x.last ⊎ (length x.keys < limit)) (taken e) h
    read_page-EndsAt index prefix rest (key ∷ page) l m at room h e =
        elim (Option-cases (st.get s (prefix ++ key))) [
          | inl f ↦ absurd (never (rw (read_page, f) at e))
          | inr (none, f) ↦
              read_page-EndsAt index prefix rest page (add_entry index key none l) m at
                (omega (arith, room)) (inr (omega (arith, room))) (rw (read_page, f) at e)
          | inr (some v, f) ↦
              let more = length-append l.keys (key ∷ []) in
              read_page-EndsAt index prefix rest page (add_entry index key (some v) l) m at
                (omega (arith, room, more))
                (inl (record {
                  front = l.keys;
                  prefix = prefix;
                  rest = rest;
                  value = v;
                  last_key = refl;
                  under = at;
                  stands = f;
                }))
                (rw (read_page, f) at e)
        ]

    read_page-length :
        (index : ℕ) (prefix : Text) (page : List Text) (l m : Listing)
        → read_page st pager s index prefix page l ≡ some m
        → length m.keys ≤ length l.keys + length page
    unfolding read_page add_entry
    read_page-length index prefix [] l m e = rw (← taken e) (omega arith)
    read_page-length index prefix (key ∷ page) l m e =
        elim (Option-cases (st.get s (prefix ++ key))) [
          | inl f ↦ absurd (never (rw (read_page, f) at e))
          | inr (none, f) ↦
              let h =
                read_page-length index prefix page (add_entry index key none l) m
                  (rw (read_page, f) at e) in
              omega (arith, h)
          | inr (some v, f) ↦
              let more = length-append l.keys (key ∷ []) in
              let h =
                read_page-length index prefix page (add_entry index key (some v) l) m
                  (rw (read_page, f) at e) in
              omega (arith, h, more)
        ]

    pub read_prefixes-EndsAt :
        (index : ℕ) (after : Text) (rest : List Text) (l m : Listing)
        → IsBounded pager
        → drop index prefixes ≡ rest
        → length l.keys ≤ limit
        → EndsAt l.keys l.last ⊎ (length l.keys < limit)
        → read_prefixes st pager s limit index after rest l ≡ some m
        → EndsAt m.keys m.last ⊎ (length m.keys < limit)
    unfolding read_prefixes
    read_prefixes-EndsAt index after [] l m bounded at room h e =
        subst (λ x. EndsAt x.keys x.last ⊎ (length x.keys < limit)) (taken e) h
    read_prefixes-EndsAt index after (prefix ∷ rest) l m bounded at room h e =
        elim (Bool-cases (ltb (length l.keys) limit)) [
          | inr f ↦
              subst (λ x. EndsAt x.keys x.last ⊎ (length x.keys < limit))
                (taken (rw (read_prefixes, f) at e)) h
          | inl f ↦ elim (Option-cases (pager s prefix after (limit - length l.keys))) [
            | inl g ↦ absurd (never (rw (read_prefixes, f, g) at e))
            | inr (page, g) ↦ elim (Option-cases (read_page st pager s index prefix page l)) [
              | inl k ↦ absurd (never (rw (read_prefixes, f, g, k) at e))
              | inr (o, k) ↦
                  let few = bounded s prefix after (limit - length l.keys) page g in
                  let next : suc index ≡ index + 1 = omega arith in
                  let fits : length l.keys + length page ≤ limit = omega (arith, few, room) in
                  let count = read_page-length index prefix page l o k in
                  read_prefixes-EndsAt (index + 1) [] rest o m bounded
                    (subst (λ n. drop n prefixes ≡ rest) next (drop-suc index prefixes at))
                    (omega (arith, fits, count))
                    (read_page-EndsAt index prefix rest page l o at fits h k)
                    (rw (read_prefixes, f, g, k) at e)
            ]
          ]
        ]
