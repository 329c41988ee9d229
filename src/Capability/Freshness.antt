-- ===== src/Capability/Freshness.antt =====
-- How long a probe's verdict stands in the cache.
use openbao_cloud_creds.Base.{
  ℕ, ◌+◌, ◌*◌, ◌/◌, ◌≤◌, ◌<◌, ◌≡◌, refl, ap, ◌∙◌, ◌↔◌, Text, text_eq, text_eq_iff, text_eq_refl,
  Option, some, true, ltb, arith,
}
use openbao_cloud_creds.Storage.{Value, Storage, Laws, field}
use openbao_cloud_creds.Recovery.{second}
use openbao_cloud_creds.Capability.{Check}
use openbao_cloud_creds.Capability.Cache.{
  CacheEntry, encode_entry, decode_entry, cache_key, fresh_entry, fresh, store,
}

decode-encode : (e : CacheEntry) → decode_entry (encode_entry e) ≡ some e
unfolding decode_entry encode_entry field text_eq
decode-encode e = refl

abbrev pub entry_for : (Text → Text) → ℕ → Text → CacheEntry
entry_for digest now json = record { fingerprint = digest json; verified_at = now / second }

fresh_entry_iff :
    {S : Type 0} (st : Storage S) (digest : Text → Text) (ttl later : ℕ) (json : Text)
    (e : CacheEntry)
    → (fresh_entry st digest ttl later json (some e) ≡ true) ↔ (
        (e.fingerprint ≡ digest json)
        × (e.verified_at * second ≤ later)
        × (later ≤ e.verified_at * second + ttl))
unfolding fresh_entry
fresh_entry_iff st digest ttl later json e = ground (arith, text_eq_iff e.fingerprint (digest json))

store_open :
    {S : Type 0} (st : Storage S) (digest : Text → Text) (ttl : ℕ) (s t : S) (c : Check)
    (old : Text) (now : ℕ)
    → ltb 0 ttl ≡ true
    → c.minter_json ≡ some old
    → st.put s (cache_key st digest ttl c) (encode_entry (entry_for digest now old)) ≡ some t
    → store st digest ttl now s c ≡ t
unfolding store
store_open st digest ttl s t c old now pos jc put = simp (store, jc, pos, put)

fresh_open :
    {S : Type 0} (st : Storage S) (digest : Text → Text) (ttl : ℕ) (t : S) (d : Check) (new : Text)
    (later : ℕ) (e : CacheEntry)
    → ltb 0 ttl ≡ true
    → d.minter_json ≡ some new
    → st.get t (cache_key st digest ttl d) ≡ some (some (encode_entry e))
    → fresh st digest ttl later t d ≡ fresh_entry st digest ttl later new (some e)
unfolding fresh
fresh_open st digest ttl t d new later e pos jd get = simp (fresh, jd, pos, get, decode-encode e)

-- A verdict stored for a probe is found again, for a probe with the same cache key, exactly while the minter's
-- stored form has the digest it had, and from the second it was stored in until the time to live
-- is over.
pub fresh-store :
    {S : Type 0} (st : Storage S) (content : S → Text → Option Value) (laws : Laws st content)
    (digest : Text → Text) (ttl : ℕ) (s t : S) (c d : Check) (old new : Text) (now later : ℕ)
    (v : Option Value)
    → 0 < ttl
    → c.minter_json ≡ some old
    → d.minter_json ≡ some new
    → cache_key st digest ttl d ≡ cache_key st digest ttl c
    → st.put s (cache_key st digest ttl c) (encode_entry (entry_for digest now old)) ≡ some t
    → st.get t (cache_key st digest ttl d) ≡ some v
    → (store st digest ttl now s c ≡ t)
      × ((fresh st digest ttl later t d ≡ true) ↔ (
          (digest old ≡ digest new)
          × (now / second * second ≤ later)
          × (later ≤ now / second * second + ttl)))
fresh-store st content laws digest ttl s t c d old new now later v pos jc jd same put get =
    let e = entry_for digest now old in
    let stored : v ≡ some (encode_entry e) =
      laws.get_reads t (cache_key st digest ttl d) get
      ∙ laws.put_writes s (cache_key st digest ttl c) (encode_entry e) (cache_key st digest ttl d)
          put
      ∙ rw (same, text_eq_refl (cache_key st digest ttl c)) refl in
    let opened =
      fresh_open st digest ttl t d new later e (ground arith) jd (get ∙ ap some stored) in
    (
      store_open st digest ttl s t c old now (ground arith) jc put,
      rw opened (fresh_entry_iff st digest ttl later new e),
    )
