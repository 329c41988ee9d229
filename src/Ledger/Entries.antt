-- ===== src/Ledger/Entries.antt =====
-- What the ledger tells, and what pruning leaves.
use openbao_cloud_creds.Base.{
  ℕ, ◌+◌, ◌*◌, ◌/◌, ◌%◌, ◌≤◌, ◌<◌, ◌++◌, ◌≡◌, refl, sym, ap, subst, ◌∙◌, ◌≢◌, ◌⊎◌, inl, inr, Text,
  text_eq, text_eq_iff, text_eq_refl, is_empty, append_cancel_left, List, [], ◌∷◌, Option, none,
  some, Option-cases, true, false, Bool-cases, if◌then◌else◌, ℤ, pos, format, is_digit,
  parse_int-format, trim_space-digits, format-AreDigits, max_int, arith,
}
use openbao_cloud_creds.Storage.{Value, bytes, Storage, Laws}
use openbao_cloud_creds.Ledger.{
  prefix, retention, second, unix_epoch, unix, from_unix, is_path_byte, hex_digit, path_escape,
  entry_key, note_mint, seconds_of, created_at, is_past, prune_keys, prune,
}

hex_digit_inj : (a b : ℕ) → hex_digit a ≡ hex_digit b → a ≡ b
unfolding hex_digit
hex_digit_inj a b h = ground arith

percent_escaped : is_path_byte 37 ≡ false
unfolding is_path_byte is_digit
percent_escaped = refl

escape_plain : (b : ℕ) (s : Text) → is_path_byte b ≡ true → path_escape (b ∷ s) ≡ b ∷ path_escape s
unfolding path_escape
escape_plain b s e = rw e refl

abbrev escaped : ℕ → Text → Text
escaped b rest = 37 ∷ hex_digit (b / 16) ∷ hex_digit (b % 16) ∷ rest

escape_percent :
    (b : ℕ) (s : Text) → is_path_byte b ≡ false → path_escape (b ∷ s) ≡ escaped b (path_escape s)
unfolding path_escape
escape_percent b s e = rw e refl

first : {a b : ℕ} {s t : Text} → a ∷ s ≡ b ∷ t → a ≡ b
first h = cc

rest_of : {a b : ℕ} {s t : Text} → a ∷ s ≡ b ∷ t → s ≡ t
rest_of h = cc

no_percent : (b : ℕ) → is_path_byte b ≡ true → b ≢ 37
no_percent b e q = never (sym e ∙ ap is_path_byte q ∙ percent_escaped)
  where
    never : true ≡ false → ⊥
    never r = cc

same_byte :
    (b c : ℕ)
    → hex_digit (b / 16) ≡ hex_digit (c / 16)
    → hex_digit (b % 16) ≡ hex_digit (c % 16)
    → b ≡ c
same_byte b c h k =
    let p : b / 16 ≡ c / 16 = hex_digit_inj (b / 16) (c / 16) h in
    let q : b % 16 ≡ c % 16 = hex_digit_inj (b % 16) (c % 16) k in omega arith

-- Different ids have different entries.
pub path_escape_inj : (s t : Text) → path_escape s ≡ path_escape t → s ≡ t
unfolding path_escape
path_escape_inj [] [] h = refl
path_escape_inj [] (c ∷ t) h = ground arith
path_escape_inj (b ∷ s) [] h = ground arith
path_escape_inj (b ∷ s) (c ∷ t) h = elim (Bool-cases (is_path_byte b)) [
  | inl e ↦ elim (Bool-cases (is_path_byte c)) [
    | inl f ↦
        let q : b ∷ path_escape s ≡ c ∷ path_escape t =
          sym (escape_plain b s e) ∙ h ∙ escape_plain c t f in
        let r = path_escape_inj s t (rest_of q) in rw (first q, r) refl
    | inr f ↦
        let q : b ∷ path_escape s ≡ escaped c (path_escape t) =
          sym (escape_plain b s e) ∙ h ∙ escape_percent c t f in
        absurd (no_percent b e (first q))
  ]
  | inr e ↦ elim (Bool-cases (is_path_byte c)) [
    | inl f ↦
        let q : escaped b (path_escape s) ≡ c ∷ path_escape t =
          sym (escape_percent b s e) ∙ h ∙ escape_plain c t f in
        absurd (no_percent c f (sym (first q)))
    | inr f ↦
        let q : escaped b (path_escape s) ≡ escaped c (path_escape t) =
          sym (escape_percent b s e) ∙ h ∙ escape_percent c t f in
        let byte = same_byte b c (first (rest_of q)) (first (rest_of (rest_of q))) in
        let r = path_escape_inj s t (rest_of (rest_of (rest_of q))) in rw (byte, r) refl
  ]
]

module _ {S : Type 0} (st : Storage S) (content : S → Text → Option Value) (laws : Laws st content)
    (raw : Value → Text) (raw_bytes : (b : Text) → raw (bytes b) ≡ b) where
  seconds_of-format : (n : ℕ) → n ≤ max_int → seconds_of st raw (bytes (format n)) ≡ some (pos n)
  unfolding seconds_of
  seconds_of-format n h =
      rw (seconds_of, raw_bytes, trim_space-digits (format n) (format-AreDigits n))
        (parse_int-format n h)

  note_mint-put :
      (id : Text) (at : ℕ) (s : S) {t : S}
      → is_empty id ≡ false
      → note_mint st raw id at s ≡ (t, true)
      → st.put s (entry_key id) (bytes (format (unix at))) ≡ some t
  unfolding note_mint
  note_mint-put id at s {t} full h =
      elim (Option-cases (st.put s (entry_key id) (bytes (format (unix at))))) [
        | inl e ↦ absurd (never (ap (λ r. r.1) (rw (note_mint, full, e) at h)))
        | inr (u, e) ↦ rw e (ap some (ap (λ r. r.0) (rw (note_mint, full, e) at h)))
      ]
    where
      never : false ≡ true → ⊥
      never q = cc

  stored :
      (id : Text) (at : ℕ) (s : S) {t : S} (j : Text)
      → is_empty id ≡ false
      → note_mint st raw id at s ≡ (t, true)
      → content t (entry_key j) ≡ (
          if text_eq (entry_key id) (entry_key j)
          then some (bytes (format (unix at)))
          else content s (entry_key j))
  stored id at s j full h =
      laws.put_writes s (entry_key id) (bytes (format (unix at))) (entry_key j)
        (note_mint-put id at s full h)

  created_at-entry :
      (t : S) (id : Text) (n : ℕ) {v : Option Value}
      → is_empty id ≡ false
      → n ≤ max_int
      → content t (entry_key id) ≡ some (bytes (format n))
      → st.get t (entry_key id) ≡ some v
      → created_at st raw t id ≡ from_unix (pos n)
  unfolding created_at
  created_at-entry t id n {v} full small c g =
      let q : st.get t (entry_key id) ≡ some (some (bytes (format n))) =
        g ∙ ap some (laws.get_reads t (entry_key id) g ∙ c) in
      rw (created_at, full, q, seconds_of-format n small) refl

  -- A stored value states a time, at least the retention ago.
  abbrev pub IsExpired : ℕ → Option Value → Type 0
  IsExpired now stored_value =
      (v : Value) × (n : ℤ) × (stored_value ≡ some v)
      × (seconds_of st raw v ≡ some n)
      × (from_unix n + retention < now)

  is_past-IsExpired :
      (s : S) (key : Text) (now : ℕ)
      → is_past st raw s key now ≡ true
      → IsExpired now (content s (prefix ++ key))
  unfolding is_past
  is_past-IsExpired s key now h = elim (Option-cases (st.get s (prefix ++ key))) [
    | inl e ↦ absurd (never (rw (is_past, e) at h))
    | inr (none, e) ↦ absurd (never (rw (is_past, e) at h))
    | inr (some v, e) ↦ elim (Option-cases (seconds_of st raw v)) [
      | inl f ↦ absurd (never (rw (is_past, e, f) at h))
      | inr (n, f) ↦ (
        v,
        n,
        sym (laws.get_reads s (prefix ++ key) e),
        f,
        ground (arith, rw (is_past, e, f) at h),
      )
    ]
  ]
    where
      never : false ≡ true → ⊥
      never q = cc

  -- An entry after some deletions: as it was, or gone and expired.
  abbrev pub Pruned : ℕ → Option Value → Option Value → Type 0
  Pruned now before after = (after ≡ before) ⊎ ((after ≡ none) × IsExpired now before)

  deleted-Pruned :
      (now : ℕ) (key k : Text) (s t : S) (after : Option Value)
      → is_past st raw s key now ≡ true
      → st.delete s (prefix ++ key) ≡ some t
      → Pruned now (content t k) after
      → Pruned now (content s k) after
  deleted-Pruned now key k s t after p d h = elim (Bool-cases (text_eq (prefix ++ key) k)) [
    | inl e ↦
        let gone : content t k ≡ none = laws.delete_removes s (prefix ++ key) k d ∙ rw e refl in
        let same : prefix ++ key ≡ k = (text_eq_iff (prefix ++ key) k).0 e in
        let old : IsExpired now (content s k) =
          subst (λ x. IsExpired now (content s x)) same (is_past-IsExpired s key now p) in
        elim h [ inl q ↦ inr (q ∙ gone, old) | inr (q, x) ↦ inr (q, old) ]
    | inr e ↦
        let kept : content t k ≡ content s k =
          laws.delete_removes s (prefix ++ key) k d ∙ rw e refl in
        rw kept at h
  ]

  prune_keys-Pruned :
      (now : ℕ) (keys : List Text) (s : S) (n : ℕ) (k : Text)
      → Pruned now (content s k) (content (prune_keys st raw now keys s n).0 k)
  unfolding prune_keys
  prune_keys-Pruned now [] s n k = inl refl
  prune_keys-Pruned now (key ∷ keys) s n k = elim (Bool-cases (is_past st raw s key now)) [
    | inr e ↦ rw (prune_keys, e) (prune_keys-Pruned now keys s n k)
    | inl e ↦ elim (Option-cases (st.delete s (prefix ++ key))) [
      | inl d ↦ rw (prune_keys, e, d) (prune_keys-Pruned now keys s n k)
      | inr (t, d) ↦
          rw (prune_keys, e, d)
            (deleted-Pruned now key k s t _ e d (prune_keys-Pruned now keys t (n + 1) k))
    ]
  ]

whole_seconds :
    (at : ℕ) → unix_epoch * second ≤ at → from_unix (pos (unix at)) ≡ at / second * second
unfolding from_unix unix
whole_seconds at h = omega arith

keys_differ : (id j : Text) → j ≢ id → text_eq (entry_key id) (entry_key j) ≡ false
unfolding entry_key
keys_differ id j other = elim (Bool-cases (text_eq (entry_key id) (entry_key j))) [
  | inr e ↦ e
  | inl e ↦
      let q : entry_key id ≡ entry_key j = (text_eq_iff (entry_key id) (entry_key j)).0 e in
      let r : path_escape id ≡ path_escape j =
        append_cancel_left prefix (path_escape id) (path_escape j) q in
      absurd (other (sym (path_escape_inj id j r)))
]

-- A mint that was noted is told with its time, in whole seconds, wherever the ledger can be read; and
-- what the ledger says of any other id is what it said before. The time is after 1970.
pub created_at-note_mint :
    {S : Type 0} (st : Storage S) (content : S → Text → Option Value) (laws : Laws st content)
    (raw : Value → Text) (raw_bytes : (b : Text) → raw (bytes b) ≡ b) (id : Text) (at : ℕ) (s : S)
    {t : S}
    → is_empty id ≡ false
    → unix_epoch * second ≤ at
    → unix at ≤ max_int
    → note_mint st raw id at s ≡ (t, true)
    → ((created_at st raw t id ≡ at / second * second) ⊎ (st.get t (entry_key id) ≡ none))
      × ((j : Text) → j ≢ id → content t (entry_key j) ≡ content s (entry_key j))
unfolding entry_key
created_at-note_mint st content laws raw raw_bytes id at s {t} full late small h = (
  elim (Option-cases (st.get t (entry_key id))) [
    | inl g ↦ inr g
    | inr (v, g) ↦ inl (
        created_at-entry st content laws raw raw_bytes t id (unix at) full small
          (stored st content laws raw raw_bytes id at s id full h
            ∙ rw (text_eq_refl (entry_key id)) refl)
          g
        ∙ whole_seconds at late)
  ],
  λ j other.
      stored st content laws raw raw_bytes id at s j full h ∙ rw (keys_differ id j other) refl,
)

-- Pruning leaves every key of the storage as it was, or removes an entry that states a time more than
-- the retention ago; whatever fails on the way.
pub prune_lem :
    {S : Type 0} (st : Storage S) (content : S → Text → Option Value) (laws : Laws st content)
    (raw : Value → Text) (raw_bytes : (b : Text) → raw (bytes b) ≡ b) (now : ℕ) (s : S) {t : S}
    {n : ℕ} (k : Text)
    → prune st raw now s ≡ some (t, n)
    → (content t k ≡ content s k)
      ⊎ ((content t k ≡ none) × IsExpired st content laws raw raw_bytes now (content s k))
unfolding prune
prune_lem {S} st content laws raw raw_bytes now s {t} {n} k h =
    elim (Option-cases (st.list s prefix)) [
      | inl e ↦ absurd (never (rw (prune, e) at h))
      | inr (keys, e) ↦
          let q : prune_keys st raw now keys s 0 ≡ (t, n) = unwrap (rw (prune, e) at h) in
          rw (← ap (λ r. r.0) q) (prune_keys-Pruned st content laws raw raw_bytes now keys s 0 k)
    ]
  where
    never : {r : S × ℕ} → none ≡ some r → ⊥
    never q = cc

    unwrap : {A : Type 0} {a b : A} → some a ≡ some b → a ≡ b
    unwrap q = cc
