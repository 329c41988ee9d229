-- ===== src/Affinity.antt =====
-- pkg/minteraffinity: which minter a client prefers, and its fallbacks in order.
pub mod Order
pub mod Examples
use openbao_cloud_creds.Base.{
  ℕ, zero, suc, Option, none, some, length, ◌-◌, ◌+◌, ◌*◌, ◌++◌, Text, is_empty, text_le, sort_by,
  take, map, List, [], ◌∷◌, Bool, ltb, ◌==◌, ◌&&◌, ◌||◌, not, if◌then◌else◌, keys,
}
use openbao_cloud_creds.Caller.{Request}

-- `Key`.
unfoldable pub affinity_key : Text → Text → Text → Text
affinity_key explicit client_token_accessor entity_id =
    if not (is_empty explicit)
    then explicit
    else if not (is_empty client_token_accessor)
    then client_token_accessor
    else entity_id

-- The bytes of a big-endian number.
unfoldable pub big_endian : ℕ → List ℕ → ℕ
big_endian acc [] = acc
big_endian acc (b ∷ bs) = big_endian (acc * 256 + b) bs

-- `weigh`, over the SHA-256 digest as bytes.
unfoldable pub weigh : (Text → List ℕ) → Text → Text → ℕ
unfolding big_endian
weigh sha256 key id = big_endian 0 (take 8 (sha256 (key ++ (0 ∷ id))))

-- Whether the first id comes no later than the second: by descending weight, then by id.
unfoldable pub prefers : (Text → ℕ) → Text → Text → Bool
prefers weight a b = ltb (weight b) (weight a) || (weight a == weight b && text_le a b)

unfoldable pub id_at : ℕ → List Text → Text
id_at n [] = []
id_at zero (id ∷ ids) = id
id_at (suc n) (id ∷ ids) = id_at n ids

unfoldable pub put_at : ℕ → Text → List Text → List Text
put_at n new [] = []
put_at zero new (id ∷ ids) = new ∷ ids
put_at (suc n) new (id ∷ ids) = id ∷ put_at n new ids

unfoldable pub swap_ids : ℕ → ℕ → List Text → List Text
unfolding id_at put_at
swap_ids i j ids = put_at j (id_at i ids) (put_at i (id_at j ids) ids)

-- The loop of `shuffle` from its index down; a draw below a bound may fail, which ends it.
unfoldable pub shuffle_from : (ℕ → Option ℕ) → ℕ → List Text → List Text
unfolding swap_ids
shuffle_from draw zero ids = ids
shuffle_from draw (suc i) ids = elim (draw (i + 2)) [
  | none ↦ ids
  | some j ↦ shuffle_from draw i (swap_ids (suc i) j ids)
]

unfoldable pub shuffle : (ℕ → Option ℕ) → List Text → List Text
unfolding shuffle_from
shuffle draw ids = shuffle_from draw (length ids - 1) ids

-- `Order`.
unfoldable pub order : (Text → List ℕ) → (ℕ → Option ℕ) → Text → List Text → List Text
unfolding prefers weigh shuffle
order sha256 draw key ids =
    if is_empty key then shuffle draw ids else sort_by (prefers (weigh sha256 key)) ids

-- `KeyFromRequest`; the field is `none` where the path does not declare it or the caller left it out.
unfoldable pub key_from_request : Option Request → Option Text → Text
unfolding affinity_key
key_from_request none none = []
key_from_request none (some explicit) = explicit
key_from_request (some req) none = affinity_key [] req.token_accessor req.entity_id
key_from_request (some req) (some explicit) = affinity_key explicit req.token_accessor req.entity_id

-- `OrderKeys`.
unfoldable pub order_keys {ℓ} :
    {A : Type ℓ} → (Text → List ℕ) → (ℕ → Option ℕ) → Text → List (Text × A) → List Text
unfolding order
order_keys sha256 draw key states = order sha256 draw key (keys states)
