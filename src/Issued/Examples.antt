-- ===== src/Issued/Examples.antt =====
-- A page of two keys of which one was revoked before it was read, with a third key after it.
use openbao_cloud_creds.Base.{
  arith, format, pos, ◌≢◌, inl, inr, Text, ℕ, zero, suc, take, List, ◌<◌, ◌≡◌, refl, ◌++◌, text,
  text_eq, any, not, [], ◌∷◌, none, some, true, false, length,
}
use openbao_cloud_creds.Storage.{str, Value, object}
use openbao_cloud_creds.Storage.Memory.{Entries, memory, look}
use openbao_cloud_creds.Issued.{
  Cursor, Pager, Response, list_issued, parse_cursor, page_limit, show_cursor, published, add_entry,
  respond, read_page, read_prefixes, list_pages,
}
use openbao_cloud_creds.Errors.{config_invalid}
use openbao_cloud_creds.Issued.Ends.{IsBounded, EndsAt}
use openbao_cloud_creds.Issued.Resumption.{list_issued-next}
use openbao_cloud_creds.Issued.Pages.{is_there, list_pages_cut}

abbrev issued : Value
issued = object ((text "role", str (text "ci")) ∷ (text "secret", str (text "s")) ∷ [])

abbrev tokens : Entries
tokens = (text "t/a", issued) ∷ (text "t/c", issued) ∷ []

-- The listing was made while the second key was there.
abbrev pager : Pager Entries
pager es prefix after n = some (text "a" ∷ text "b" ∷ [])

abbrev answer : Response
answer = record {
  keys = text "a" ∷ [];
  info = (text "a", (text "role", str (text "ci")) ∷ []) ∷ [];
  more = false;
  next_after = none;
}

answered :
    list_pages memory pager tokens (text "t/" ∷ []) 2 (record { prefix = 0; key = [] })
    ≡ some answer
unfolding list_pages read_prefixes read_page add_entry respond published look text_eq
answered = refl

one_lost :
    any (λ key. not (is_there (memory.get tokens (text "t/" ++ key)))) (text "a" ∷ text "b" ∷ [])
    ≡ true
unfolding look text_eq
one_lost = refl

list_pages_cut_example :
    let limit : ℕ = 2 in
    (answer.more ≡ false) × (answer.next_after ≡ none) × (length answer.keys < limit)
list_pages_cut_example =
    list_pages_cut memory pager tokens (text "t/") 2 [] (text "a" ∷ text "b" ∷ []) answer refl refl
      one_lost answered

abbrev one_key : Pager Entries
one_key es prefix after n = some (take n (text "a" ∷ []))

abbrev first_page : Response
first_page = record {
  keys = text "a" ∷ [];
  info = (text "a", (text "role", str (text "ci")) ∷ []) ∷ [];
  more = true;
  next_after = some (text "0|a");
}

given : {a b : List Text} → some a ≡ some b → a ≡ b
given q = cc

one_key-IsBounded : IsBounded one_key
one_key-IsBounded s prefix after zero page e = rw (← given e) (omega arith)
one_key-IsBounded s prefix after (suc zero) page e = rw (← given e) (omega arith)
one_key-IsBounded s prefix after (suc (suc n)) page e = rw (← given e) (omega arith)

first : list_issued memory one_key tokens (text "t/" ∷ []) (pos 1) [] ≡ inl first_page
unfolding list_issued page_limit parse_cursor list_pages respond add_entry look text_eq published
    show_cursor format
first = refl

list_issued-next_example :
    (at : Cursor) × (at.prefix < 1)
    × (text "0|a" ≡ show_cursor at)
    × EndsAt memory tokens (text "t/" ∷ []) (text "a" ∷ []) at
    × (parse_cursor (text "0|a") 1 ≡ inl at)
    × ((t : Entries)
        → list_issued memory one_key t (text "t/" ∷ []) (pos 1) (text "0|a") ≢ inr config_invalid)
list_issued-next_example =
    list_issued-next memory one_key tokens (text "t/" ∷ []) (pos 1) [] first_page (text "0|a")
      one_key-IsBounded (omega arith) first refl
