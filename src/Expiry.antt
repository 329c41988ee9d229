-- ===== src/Expiry.antt =====
-- pkg/localexpiry: removing the records of credentials that have expired upstream by themselves.
pub mod Pruned
pub mod Examples
use openbao_cloud_creds.Base.{
  ℕ, ◌+◌, ◌++◌, Text, text, List, [], ◌∷◌, Option, none, some, Bool, false, ltb, length,
  if◌then◌else◌,
}
use openbao_cloud_creds.Storage.{stamp, Value, object, bytes, Storage, field}

pub record Options : Type 0 where
  pub prefix : Text
  pub now : ℕ
  pub dry_run : Bool

pub record Result : Type 0 where
  pub scanned : ℕ
  pub expired : List Text
  pub deleted : ℕ

-- Whether a stored value records a time of expiry before `now`.
unfoldable pub value_expired : ℕ → Option Value → Bool
unfolding field
value_expired now (some (object fs)) = elim (field (text "expires_at") fs) [
  | some (stamp t) ↦ ltb t now
  | _ ↦ false
]
value_expired now _ = false

module _ {S : Type 0} (st : Storage S) where
  unfoldable pub is_expired : S → Text → ℕ → Bool
  is_expired s key now = elim (st.get s key) [ none ↦ false | some v ↦ value_expired now v ]

  -- The loop's body.
  unfoldable pub prune_key : Options → Text → S × Result → S × Result
  unfolding is_expired
  prune_key o key (s, res) =
      if is_expired s (o.prefix ++ key) o.now
      then (let found = record res { expired = res.expired ++ key ∷ [] } in
          if o.dry_run then (s, found) else elim (st.delete s (o.prefix ++ key)) [
            | none ↦ (s, found)
            | some t ↦ (t, record found { deleted = res.deleted + 1 })
          ])
      else (s, res)

  unfoldable pub prune_keys : Options → List Text → S × Result → S × Result
  prune_keys o [] p = p
  prune_keys o (key ∷ keys) p = prune_keys o keys (prune_key o key p)

  -- `PruneExpired`; `none` is the error of the listing.
  unfoldable pub prune_expired : S → Options → Option (S × Result)
  unfolding prune_keys
  prune_expired s o = elim (st.list s o.prefix) [
    | none ↦ none
    | some keys ↦
        some (prune_keys o keys (s, record { scanned = length keys; expired = []; deleted = 0 }))
  ]
