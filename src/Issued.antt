-- ===== src/Issued.antt =====
-- pkg/issuedlist: the inventory of the credentials that a mount has issued, page by page.
pub mod Pages
pub mod Cursors
pub mod Ends
pub mod Resumption
pub mod Examples
use openbao_cloud_creds.Base.{
  ℤ, pos, negsuc, ℕ, zero, suc, ◌+◌, ◌-◌, ◌++◌, ◌⊎◌, inl, inr, Text, text, text_eq, any, select,
  cut, format, parse_int, drop, List, [], ◌∷◌, Option, none, some, Bool, true, false, ltb, ◌==◌,
  length, if◌then◌else◌,
}
use openbao_cloud_creds.Errors.{ErrorCode, config_invalid, internal}
use openbao_cloud_creds.Storage.{Fields, Value, object, bytes, Storage}

abbrev pub default_limit : ℕ
default_limit = 200

abbrev pub max_limit : ℕ
max_limit = 1000

unfoldable pub page_limit : ℤ → ℕ ⊎ ErrorCode
page_limit (negsuc n) = inr config_invalid
page_limit (pos n) =
    if n == 0 then inl default_limit else if ltb max_limit n then inr config_invalid else inl n

-- `Fields`.
abbrev pub fields : List Text
fields =
    text "role"
    ∷ text "minter"
    ∷ text "minter_set"
    ∷ text "created"
    ∷ text "expires_at"
    ∷ text "app_object_id"
    ∷ text "requested_by_token_accessor"
    ∷ text "requested_by_entity_id"
    ∷ text "requested_by_parent_entity_id"
    ∷ text "requested_by_unit_id"
    ∷ text "requested_by_lineage_source"
    ∷ []

unfoldable pub published : Value → Fields
published (bytes b) = []
published (object fs) = select (λ f. any (λ name. text_eq name f.0) fields) fs

-- A position across the prefixes.
pub record Cursor : Type 0 where
  pub prefix : ℕ
  pub key : Text

unfoldable pub show_cursor : Cursor → Text
show_cursor c = format c.prefix ++ text "|" ++ c.key

unfoldable pub parse_cursor : Text → ℕ → Cursor ⊎ ErrorCode
parse_cursor [] prefixes = inl (record { prefix = 0; key = [] })
parse_cursor (c ∷ cs) prefixes = elim (cut (text "|") (c ∷ cs)) [
  | none ↦ inr config_invalid
  | some (index, key) ↦ elim (parse_int index) [
    | none ↦ inr config_invalid
    | some (negsuc n) ↦ inr config_invalid
    | some (pos n) ↦
        if ltb n prefixes then inl (record { prefix = n; key = key }) else inr config_invalid
  ]
]

-- The SDK's `ListPage`: the keys under a prefix after a key, at most so many.
abbrev pub Pager : Type 0 → Type 0
Pager S = S → Text → Text → ℕ → Option (List Text)

-- The variables of the loop in `list`.
pub record Listing : Type 0 where
  pub keys : List Text
  pub info : List (Text × Fields)
  pub last : Cursor

pub record Response : Type 0 where
  pub keys : List Text
  pub info : List (Text × Fields)
  pub more : Bool
  pub next_after : Option Text

unfoldable pub add_entry : ℕ → Text → Option Value → Listing → Listing
add_entry index key none l = record l { last = record { prefix = index; key = key } }
add_entry index key (some v) l = record {
  keys = l.keys ++ key ∷ [];
  info = l.info ++ (key, published v) ∷ [];
  last = record { prefix = index; key = key };
}

unfoldable pub respond : ℕ → Listing → Response
respond limit l = record {
  keys = l.keys;
  info = l.info;
  more = length l.keys == limit;
  next_after = if length l.keys == limit then some (show_cursor l.last) else none;
}

module _ {S : Type 0} (st : Storage S) (pager : Pager S) where
  unfoldable pub read_page : S → ℕ → Text → List Text → Listing → Option Listing
  read_page s index prefix [] l = some l
  read_page s index prefix (key ∷ page) l = elim (st.get s (prefix ++ key)) [
    | none ↦ none
    | some v ↦ read_page s index prefix page (add_entry index key v l)
  ]

  -- The rest of the prefixes; only the first one resumes after a key.
  unfoldable pub read_prefixes : S → ℕ → ℕ → Text → List Text → Listing → Option Listing
  unfolding read_page
  read_prefixes s limit index after [] l = some l
  read_prefixes s limit index after (prefix ∷ prefixes) l = elim (ltb (length l.keys) limit) [
    | false ↦ some l
    | true ↦ elim (pager s prefix after (limit - length l.keys)) [
      | none ↦ none
      | some page ↦ elim (read_page s index prefix page l) [
        | none ↦ none
        | some m ↦ read_prefixes s limit (index + 1) [] prefixes m
      ]
    ]
  ]

  -- `list` past the limit and the cursor; `none` is an internal error.
  unfoldable pub list_pages : S → List Text → ℕ → Cursor → Option Response
  unfolding read_prefixes
  list_pages s prefixes limit cursor =
      elim (read_prefixes s limit cursor.prefix cursor.key (drop cursor.prefix prefixes)
        (record { keys = []; info = []; last = cursor })) [
          | none ↦ none
          | some l ↦ some (respond limit l)
        ]

  -- `list`, with the values of the fields `limit` and `after`.
  unfoldable pub list_issued : S → List Text → ℤ → Text → Response ⊎ ErrorCode
  list_issued s prefixes wanted after = elim (page_limit wanted) [
    | inr code ↦ inr code
    | inl limit ↦ elim (parse_cursor after (length prefixes)) [
      | inr code ↦ inr code
      | inl at ↦ elim (list_pages s prefixes limit at) [ none ↦ inr internal | some r ↦ inl r ]
    ]
  ]
