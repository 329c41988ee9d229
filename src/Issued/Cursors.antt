-- ===== src/Issued/Cursors.antt =====
-- The cursor of a page as a text, which the next request passes back.
use openbao_cloud_creds.Base.{
  pos, ℕ, ◌≤◌, ◌<◌, ◌==◌, ◌++◌, ◌≡◌, refl, inl, Text, text, strip_prefix, cut, AreDigits, format,
  format-AreDigits, is_digit, is_empty, format_full, parse_int, parse_int-format, max_int, [], ◌∷◌,
  some, true, false, ltb, arith,
}
use openbao_cloud_creds.Issued.{Cursor, show_cursor, parse_cursor}

-- The first separator ends the digits in front of it.
cut-digits :
    (digits key : Text)
    → AreDigits digits
    → cut (text "|") (digits ++ text "|" ++ key) ≡ some (digits, key)
unfolding cut strip_prefix is_digit
cut-digits [] key d = refl
cut-digits (c ∷ digits) key d =
    let other : (c == 124) ≡ false = ground (arith, d.0) in
    rw (cut, strip_prefix, other, cut-digits digits key d.1) refl

is_empty-append : (s t : Text) → is_empty s ≡ false → is_empty (s ++ t) ≡ false
is_empty-append [] t h = cc
is_empty-append (c ∷ s) t h = refl

parse_cursor-cut :
    (t index key : Text) (n prefixes : ℕ)
    → is_empty t ≡ false
    → cut (text "|") t ≡ some (index, key)
    → parse_int index ≡ some (pos n)
    → n < prefixes
    → parse_cursor t prefixes ≡ inl (record { prefix = n; key = key })
unfolding parse_cursor
parse_cursor-cut [] index key n prefixes full e f h = cc
parse_cursor-cut (c ∷ cs) index key n prefixes full e f h =
    let inside : ltb n prefixes ≡ true = ground arith in rw (parse_cursor, e, f, inside) refl

-- A cursor whose prefix is one of the mount's comes back as it was, whatever its key is.
pub parse_cursor-show_cursor :
    (c : Cursor) (prefixes : ℕ)
    → c.prefix < prefixes
    → prefixes ≤ max_int
    → parse_cursor (show_cursor c) prefixes ≡ inl c
unfolding show_cursor
parse_cursor-show_cursor c prefixes h b =
    parse_cursor-cut (format c.prefix ++ text "|" ++ c.key) (format c.prefix) c.key c.prefix
      prefixes
      (is_empty-append (format c.prefix ++ text "|") c.key
        (is_empty-append (format c.prefix) (text "|") (format_full c.prefix)))
      (cut-digits (format c.prefix) c.key (format-AreDigits c.prefix))
      (parse_int-format c.prefix (omega (arith, h, b))) h
