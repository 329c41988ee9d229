-- ===== src/Issued/Resumption.antt =====
-- That a client which loops on the cursors is never refused.
use openbao_cloud_creds.Base.{
  ℤ, pos, negsuc, ℕ, zero, suc, ◌+◌, ◌-◌, length, drop, length-drop, sym, ◌≢◌, ◌≤◌, ◌<◌, ◌==◌, ◌++◌,
  ◌≡◌, refl, ◌∙◌, ap, subst, ◌⊎◌, inl, inr, Text, text, cut, parse_int, max_int, List, [], ◌∷◌,
  Option, none, some, Option-cases, false, Bool-cases, Sum-cases, ltb, arith,
}
use openbao_cloud_creds.Issued.Ends.{IsBounded, EndsAt, read_prefixes-EndsAt}
use openbao_cloud_creds.Issued.Cursors.{parse_cursor-show_cursor}
use openbao_cloud_creds.Storage.{Value, Storage}
use openbao_cloud_creds.Issued.{
  Cursor, Pager, Listing, Response, show_cursor, parse_cursor, add_entry, respond, read_page,
  read_prefixes, list_pages, list_issued, page_limit,
}
use openbao_cloud_creds.Errors.{ErrorCode, internal, config_invalid}

module _ {ℓ} {A : Type ℓ} where
  taken : {a b : A} → some a ≡ some b → a ≡ b
  taken q = cc

  never : {a : A} → none ≡ some a → ⊥
  never q = cc

left : {A B : Type 0} {a b : A} → ◌≡◌ {A = A ⊎ B} (inl a) (inl b) → a ≡ b
left q = cc

refused : {A B : Type 0} {a : A} {b : B} → ◌≡◌ {A = A ⊎ B} (inr b) (inl a) → ⊥
refused q = cc

add_entry-last :
    (index : ℕ) (key : Text) (v : Option Value) (l : Listing)
    → (add_entry index key v l).last.prefix ≡ index
unfolding add_entry
add_entry-last index key none l = refl
add_entry-last index key (some v) l = refl

module _ {S : Type 0} (st : Storage S) (pager : Pager S) (s : S) where
  read_page-last :
      (index : ℕ) (prefix : Text) (page : List Text) (l m : Listing) (bound : ℕ)
      → index < bound
      → l.last.prefix < bound
      → read_page st pager s index prefix page l ≡ some m
      → m.last.prefix < bound
  unfolding read_page
  read_page-last index prefix [] l m bound i h e = rw (← taken e) h
  read_page-last index prefix (key ∷ page) l m bound i h e =
      elim (Option-cases (st.get s (prefix ++ key))) [
        | inl f ↦ absurd (never (rw (read_page, f) at e))
        | inr (v, f) ↦
            read_page-last index prefix page (add_entry index key v l) m bound i
              (rw (add_entry-last index key v l) i) (rw (read_page, f) at e)
      ]

  -- The position stays inside the prefixes.
  read_prefixes-last :
      (limit index : ℕ) (after : Text) (prefixes : List Text) (l m : Listing)
      → l.last.prefix < index + length prefixes
      → read_prefixes st pager s limit index after prefixes l ≡ some m
      → m.last.prefix < index + length prefixes
  unfolding read_prefixes
  read_prefixes-last limit index after [] l m h e = rw (← taken e) h
  read_prefixes-last limit index after (prefix ∷ prefixes) l m h e =
      elim (Bool-cases (ltb (length l.keys) limit)) [
        | inr f ↦ rw (← taken (rw (read_prefixes, f) at e)) h
        | inl f ↦ elim (Option-cases (pager s prefix after (limit - length l.keys))) [
          | inl g ↦ absurd (never (rw (read_prefixes, f, g) at e))
          | inr (page, g) ↦ elim (Option-cases (read_page st pager s index prefix page l)) [
            | inl k ↦ absurd (never (rw (read_prefixes, f, g, k) at e))
            | inr (o, k) ↦
                let inside =
                  read_page-last index prefix page l o (index + suc (length prefixes)) (omega arith)
                    h k in
                let rest =
                  read_prefixes-last limit (index + 1) [] prefixes o m (omega (arith, inside))
                    (rw (read_prefixes, f, g, k) at e) in
                omega (arith, rest)
          ]
        ]
      ]

page_limit_positive : (wanted : ℤ) (limit : ℕ) → page_limit wanted ≡ inl limit → 0 < limit
unfolding page_limit
page_limit_positive (negsuc n) limit e = absurd (refused e)
page_limit_positive (pos n) limit e = ground arith

parse_cursor-inside :
    (t : Text) (prefixes : ℕ) (c : Cursor)
    → 0 < prefixes
    → parse_cursor t prefixes ≡ inl c
    → c.prefix < prefixes
unfolding parse_cursor
parse_cursor-inside [] prefixes c h e = rw (← left e) h
parse_cursor-inside (b ∷ t) prefixes c h e = elim (Option-cases (cut (text "|") (b ∷ t))) [
  | inl f ↦ absurd (refused (rw (parse_cursor, f) at e))
  | inr ((index, key), f) ↦ elim (Option-cases (parse_int index)) [
    | inl g ↦ absurd (refused (rw (parse_cursor, f, g) at e))
    | inr (negsuc n, g) ↦ absurd (refused (rw (parse_cursor, f, g) at e))
    | inr (pos n, g) ↦ elim (Bool-cases (ltb n prefixes)) [
      | inl k ↦ rw (← left (rw (parse_cursor, f, g, k) at e)) (ground arith)
      | inr k ↦ absurd (refused (rw (parse_cursor, f, g, k) at e))
    ]
  ]
]

module _ {S : Type 0} (st : Storage S) (pager : Pager S) where
  -- What a handed-out cursor is, for the mount's prefixes and the page's keys.
  abbrev Resumable : S → List Text → List Text → Text → Type 0
  Resumable s prefixes keys next =
      (at : Cursor) × (at.prefix < length prefixes)
      × (next ≡ show_cursor at)
      × EndsAt st s prefixes keys at

  respond-Resumable :
      (s : S) (prefixes : List Text) (limit : ℕ) (l : Listing) {next : Text}
      → l.last.prefix < length prefixes
      → EndsAt st s prefixes l.keys l.last ⊎ (length l.keys < limit)
      → (respond limit l).next_after ≡ some next
      → Resumable s prefixes (respond limit l).keys next
  unfolding respond
  respond-Resumable s prefixes limit l h ends e = elim (Bool-cases (length l.keys == limit)) [
    | inl f ↦ elim ends [
      | inl at ↦ (l.last, h, sym (taken (rw f at e)), at)
      | inr few ↦ absurd (ground arith)
    ]
    | inr f ↦ absurd (never (rw f at e))
  ]

  list_pages-Resumable :
      (s : S) (prefixes : List Text) (limit : ℕ) (cursor : Cursor) (r : Response) {next : Text}
      → IsBounded pager
      → 0 < limit
      → cursor.prefix < length prefixes
      → list_pages st pager s prefixes limit cursor ≡ some r
      → r.next_after ≡ some next
      → Resumable s prefixes r.keys next
  unfolding list_pages
  list_pages-Resumable s prefixes limit cursor r {next} bounded positive h e n =
      let start : Listing = record { keys = []; info = []; last = cursor } in
      let from : List Text = drop cursor.prefix prefixes in
      let all : cursor.prefix + length from ≡ length prefixes =
        omega (arith, h, length-drop cursor.prefix prefixes) in
      elim (Option-cases (read_prefixes st pager s limit cursor.prefix cursor.key from start)) [
        | inl f ↦ absurd (never (rw (list_pages, f) at e))
        | inr (l, f) ↦
            let inside =
              read_prefixes-last st pager s limit cursor.prefix cursor.key from start l
                (omega (arith, h, all)) f in
            let ends =
              read_prefixes-EndsAt st s prefixes pager limit cursor.prefix cursor.key from start l
                bounded refl (omega (arith, positive)) (inr positive) f in
            let same : respond limit l ≡ r = taken (rw (list_pages, f) at e) in
            subst (λ x. Resumable s prefixes x.keys next) same
              (respond-Resumable s prefixes limit l (omega (arith, inside, all)) ends
                (ap (λ x. x.next_after) same ∙ n))
      ]

  drop_empty : (n : ℕ) → ◌≡◌ {A = List Text} (drop n []) []
  drop_empty zero = refl
  drop_empty (suc n) = refl

  -- With no prefix, nothing is listed.
  list_pages_empty :
      (s : S) (limit : ℕ) (cursor : Cursor) (r : Response) {next : Text}
      → 0 < limit
      → list_pages st pager s [] limit cursor ≡ some r
      → r.next_after ≡ some next
      → ⊥
  unfolding list_pages read_prefixes respond
  list_pages_empty s limit cursor r h e n =
      let other : (0 == limit) ≡ false = ground arith in
      let answered = rw (list_pages, drop_empty cursor.prefix, read_prefixes) at e in
      never (rw (respond, other) at (ap (λ x. x.next_after) (taken answered) ∙ n))

  -- For a mount with at most 2 ^ 63 - 1 prefixes, and a storage whose pages have at most as many keys as
  -- are asked for: the cursor that a page hands out is the text of the position of the page's last
  -- key, whose record was found under the prefix of that position. The cursor is parsed to just
  -- that position when it is passed back, and that request with the same limit is never refused
  -- as malformed.
  pub list_issued-next :
      (s : S) (prefixes : List Text) (wanted : ℤ) (after : Text) (r : Response) (next : Text)
      → IsBounded pager
      → length prefixes ≤ max_int
      → list_issued st pager s prefixes wanted after ≡ inl r
      → r.next_after ≡ some next
      → (at : Cursor) × (at.prefix < length prefixes)
        × (next ≡ show_cursor at)
        × EndsAt st s prefixes r.keys at
        × (parse_cursor next (length prefixes) ≡ inl at)
        × ((t : S) → list_issued st pager t prefixes wanted next ≢ inr config_invalid)
  unfolding list_issued
  list_issued-next s prefixes wanted after r next bounded b e n =
      elim (Sum-cases (page_limit wanted)) [
        | inr (code, f) ↦ absurd (refused (rw (list_issued, f) at e))
        | inl (limit, f) ↦ elim (Sum-cases (parse_cursor after (length prefixes))) [
          | inr (code, g) ↦ absurd (refused (rw (list_issued, f, g) at e))
          | inl (cursor, g) ↦ elim (Option-cases (list_pages st pager s prefixes limit cursor)) [
            | inl k ↦ absurd (refused (rw (list_issued, f, g, k) at e))
            | inr (o, k) ↦
                let same : o ≡ r = left (rw (list_issued, f, g, k) at e) in
                let answer : list_pages st pager s prefixes limit cursor ≡ some r =
                  k ∙ ap some same in
                let (at, inside, shown, ends) =
                  resumable limit cursor (page_limit_positive wanted limit f) g answer in
                let parsed : parse_cursor next (length prefixes) ≡ inl at =
                  rw shown (parse_cursor-show_cursor at (length prefixes) inside b) in
                (at, inside, shown, ends, parsed, λ t. goes_on limit at f parsed t)
          ]
        ]
      ]
    where
      goes_on :
          (limit : ℕ) (at : Cursor)
          → page_limit wanted ≡ inl limit
          → parse_cursor next (length prefixes) ≡ inl at
          → (t : S) → list_issued st pager t prefixes wanted next ≢ inr config_invalid
      goes_on limit at f g t q = elim (Option-cases (list_pages st pager t prefixes limit at)) [
        | inl k ↦ absurd (other (rw (list_issued, f, g, k) at q))
        | inr (o, k) ↦ absurd (listed (rw (list_issued, f, g, k) at q))
      ]
        where
          other : ◌≡◌ {A = Response ⊎ ErrorCode} (inr internal) (inr config_invalid) → ⊥
          other q = cc

          listed : {o : Response} → ◌≡◌ {A = Response ⊎ ErrorCode} (inl o) (inr config_invalid) → ⊥
          listed q = cc

      resumable :
          (limit : ℕ) (cursor : Cursor)
          → 0 < limit
          → parse_cursor after (length prefixes) ≡ inl cursor
          → list_pages st pager s prefixes limit cursor ≡ some r
          → Resumable s prefixes r.keys next
      resumable limit cursor positive g k = go prefixes g k
        where
          go :
              (ps : List Text)
              → parse_cursor after (length ps) ≡ inl cursor
              → list_pages st pager s ps limit cursor ≡ some r
              → Resumable s ps r.keys next
          go [] g k = absurd (list_pages_empty s limit cursor r positive k n)
          go (p ∷ ps) g k =
              list_pages-Resumable s (p ∷ ps) limit cursor r bounded positive
                (parse_cursor-inside after (suc (length ps)) cursor (omega arith) g) k n
