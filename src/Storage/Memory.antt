-- ===== src/Storage/Memory.antt =====
-- A storage in memory, as an association list: the interface's assumptions can be met.
use openbao_cloud_creds.Base.{
  ◌≡◌, ◌∙◌, Text, text_eq, text_eq_iff, strip_prefix, List, [], ◌∷◌, Option, none, some, inl, inr,
  Bool-cases, if◌then◌else◌, arith,
}
use openbao_cloud_creds.Storage.{Value, Storage, Laws}

abbrev pub Entries : Type 0
Entries = List (Text × Value)

unfoldable pub look : Entries → Text → Option Value
look [] k = none
look ((j, v) ∷ es) k = if text_eq j k then some v else look es k

unfoldable pub drop_key : Entries → Text → Entries
drop_key [] k = []
drop_key ((j, v) ∷ es) k = if text_eq k j then drop_key es k else (j, v) ∷ drop_key es k

abbrev add_id : Option Text → List Text → List Text
add_id none ids = ids
add_id (some id) ids = id ∷ ids

unfoldable pub keys_under : Text → Entries → List Text
keys_under p [] = []
keys_under p ((j, v) ∷ es) = add_id (strip_prefix j p) (keys_under p es)

abbrev pub memory : Storage Entries
memory = record {
  list = λ es p. some (keys_under p es);
  get = λ es k. some (look es k);
  put = λ es k v. some ((k, v) ∷ drop_key es k);
  delete = λ es k. some (drop_key es k);
}

look-drop_key :
    (es : Entries) (k j : Text) → look (drop_key es k) j ≡ (if text_eq k j then none else look es j)
unfolding look drop_key
look-drop_key [] k j = ground arith
look-drop_key ((i, v) ∷ es) k j =
    ground (arith, text_eq_iff k j, text_eq_iff i j, text_eq_iff k i, look-drop_key es k j)

memory-get : (s : Entries) (k : Text) {v : Option Value} → some (look s k) ≡ some v → v ≡ look s k
memory-get s k h = cc

look-put :
    (s : Entries) (k : Text) (v : Value) {t : Entries} (j : Text)
    → some ((k, v) ∷ drop_key s k) ≡ some t
    → look t j ≡ (if text_eq k j then some v else look s j)
unfolding look
look-put s k v {t} j h =
    rw (← unwrap h)
      (elim (Bool-cases (text_eq k j)) [ inl e ↦ rw e | inr e ↦ rw e (look-drop_key s k j ∙ rw e) ])
  where
    unwrap : {a b : Entries} → some a ≡ some b → a ≡ b
    unwrap q = cc

look-delete :
    (s : Entries) (k : Text) {t : Entries} (j : Text)
    → some (drop_key s k) ≡ some t
    → look t j ≡ (if text_eq k j then none else look s j)
look-delete s k {t} j h = rw (← unwrap h) (look-drop_key s k j)
  where
    unwrap : {a b : Entries} → some a ≡ some b → a ≡ b
    unwrap q = cc

pub memory_laws : Laws memory look
memory_laws = record { get_reads = memory-get; put_writes = look-put; delete_removes = look-delete }
