-- ===== src/Capability/Cache.antt =====
-- pkg/capability/cache.go: which probes have lately succeeded.
use openbao_cloud_creds.Base.{
  ℕ, ◌+◌, ◌-◌, ◌*◌, ◌/◌, ◌++◌, Text, text, text_eq, List, [], ◌∷◌, Option, none, some, Bool, true,
  false, ◌&&◌, not, leb, ltb, if◌then◌else◌,
}
use openbao_cloud_creds.Storage.{
  ◌>>=◌, str, num, Value, object, bytes, Storage, field, as_text, as_num,
}
use openbao_cloud_creds.Recovery.{second}
use openbao_cloud_creds.Capability.{Check}

abbrev pub cache_prefix : Text
cache_prefix = text "capability-cache/"

abbrev pub default_cache_ttl : ℕ
default_cache_ttl = 3_600_000_000_000

pub record CacheEntry : Type 0 where
  pub fingerprint : Text
  pub verified_at : ℕ

unfoldable pub encode_entry : CacheEntry → Value
encode_entry e =
    object ((text "fingerprint", str e.fingerprint) ∷ (text "verified_at", num e.verified_at) ∷ [])

unfoldable pub decode_entry : Value → Option CacheEntry
unfolding field
decode_entry (bytes b) = none
decode_entry (object fs) = do
  fingerprint ← as_text (field (text "fingerprint") fs)
  verified_at ← as_num (field (text "verified_at") fs)
  some (record { fingerprint = fingerprint; verified_at = verified_at })

-- The cache over a storage, with its time to live and the hexadecimal SHA-256 digest. A cache that is nil or
-- has no storage is one whose time to live is 0. Times are nanoseconds; a verdict is dated in
-- whole seconds.
module _ {S : Type 0} (st : Storage S) (digest : Text → Text) (ttl : ℕ) where
  unfoldable pub cache_key : Check → Text
  cache_key c = cache_prefix ++ digest c.key

  unfoldable pub fresh_entry : ℕ → Text → Option CacheEntry → Bool
  fresh_entry now json none = false
  fresh_entry now json (some e) =
      text_eq e.fingerprint (digest json)
      && (leb (e.verified_at * second) now && leb (now - e.verified_at * second) ttl)

  unfoldable pub fresh : ℕ → S → Check → Bool
  unfolding cache_key fresh_entry
  fresh now s c = elim c.minter_json [
    | none ↦ false
    | some json ↦ ltb 0 ttl && elim (st.get s (cache_key c)) [
      | some (some v) ↦ fresh_entry now json (decode_entry v)
      | _ ↦ false
    ]
  ]

  unfoldable pub store : ℕ → S → Check → S
  unfolding cache_key
  store now s c = elim c.minter_json [
    | none ↦ s
    | some json ↦
        if ltb 0 ttl
        then elim (st.put s (cache_key c)
            (encode_entry (record { fingerprint = digest json; verified_at = now / second }))) [
              | none ↦ s
              | some t ↦ t
            ]
        else s
  ]

module _ {S : Type 0} (st : Storage S) where
  old_entry : ℕ → ℕ → Option CacheEntry → Bool
  old_entry now ttl none = true
  old_entry now ttl (some e) = ltb (e.verified_at * second + ttl) now

  -- `expired`.
  unfoldable pub expired_entry : S → Text → ℕ → ℕ → Bool
  unfolding old_entry
  expired_entry s key now ttl = elim (st.get s key) [
    | some (some v) ↦ old_entry now ttl (decode_entry v)
    | _ ↦ true
  ]

  prune_key : ℕ → ℕ → Text → S × ℕ → S × ℕ
  prune_key now ttl key (s, pruned) =
      if ltb 0 ttl && not (expired_entry s (cache_prefix ++ key) now ttl)
      then (s, pruned)
      else elim (st.delete s (cache_prefix ++ key)) [
        | none ↦ (s, pruned)
        | some t ↦ (t, pruned + 1)
      ]

  prune_keys : ℕ → ℕ → List Text → S × ℕ → S × ℕ
  unfolding prune_key
  prune_keys now ttl [] p = p
  prune_keys now ttl (key ∷ keys) p = prune_keys now ttl keys (prune_key now ttl key p)

  -- `PruneCache`: the storage and how many entries it deleted, or `none` where they cannot be listed.
  unfoldable pub prune_cache : S → ℕ → ℕ → Option (S × ℕ)
  unfolding prune_keys
  prune_cache s now ttl = elim (st.list s cache_prefix) [
    | none ↦ none
    | some keys ↦ some (prune_keys now ttl keys (s, 0))
  ]
