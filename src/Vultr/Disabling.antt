-- ===== src/Vultr/Disabling.antt =====
-- A role is disabled by one field, whatever the minters and the cloud are up to.
use openbao_cloud_creds.Base.{
  ℕ, ◌*◌, ◌/◌, ◌++◌, ◌≡◌, refl, sym, ap, ◌∙◌, ◌⊎◌, inl, inr, Text, text_eq_refl, is_empty, Option,
  none, some, Option-cases, true, false, Bool-cases,
}
use openbao_cloud_creds.Envelope.{bearer_token, require_credential_kind}
use openbao_cloud_creds.Errors.{ErrorCode, role_disabled, internal}
use openbao_cloud_creds.Storage.{Value, Laws}
use openbao_cloud_creds.Ledger.{second}
use openbao_cloud_creds.Capability.Limiter.{States}
use openbao_cloud_creds.Capability.Probes.{begin}
use openbao_cloud_creds.Capability.Gate.{Gate, disabled_role, untouched, verify_role}
use openbao_cloud_creds.Vultr.{VultrRole, World, Env}
use openbao_cloud_creds.Vultr.Creds.{
  owner_instance_id, load_role, CredsRequest, refused, admit, creds_read,
}
use openbao_cloud_creds.Vultr.Sets.{machines_by_id}
use openbao_cloud_creds.Vultr.Roles.{
  role_prefix, RoleFields, role_data, prefill, assemble, prefill_role_write, check_role,
  verify_role_capability, save_role, role_write,
}

-- A request that carries `disabled=true` and nothing else.
abbrev pub disable : RoleFields
disable = record {
  default_ttl = none;
  max_ttl = none;
  acls = none;
  email_domain = none;
  minter_set = none;
  disabled = some true;
  require_caller_identity = none;
  require_caller_lineage = none;
}

abbrev pub disabled_copy : VultrRole → VultrRole
disabled_copy r = record r { disabled = true }

assembled :
    (name : Text) (r : VultrRole)
    → r.name ≡ name
    → r.default_ttl / second * second ≡ r.default_ttl
    → r.max_ttl / second * second ≡ r.max_ttl
    → assemble name (prefill disable (role_data r)) ≡ disabled_copy r
unfolding assemble prefill role_data
assembled name r p q t =
    let make : Text → ℕ → ℕ → VultrRole =
      λ n a b. record r { disabled = true; name = n; default_ttl = a; max_ttl = b } in
    ap (λ n. make n (r.default_ttl / second * second) (r.max_ttl / second * second)) (sym p)
    ∙ ap (λ a. make r.name a (r.max_ttl / second * second)) q
    ∙ ap (λ b. make r.name r.default_ttl b) t

check_role-disabled :
    {S : Type 0} (env : Env S) (r : VultrRole) (s : S)
    → check_role env (disabled_copy r) s ≡ check_role env r s
unfolding check_role
check_role-disabled env r s = refl

verify_role-disabled :
    {S : Type 0} (gate : Gate S) (s : S) (states : States) (set : Text) (role : Value)
    → disabled_role role ≡ true
    → verify_role gate s states set role ≡ untouched gate s states none
unfolding verify_role
verify_role-disabled gate s states set role h = elim (Bool-cases gate.enabled) [
  | inl e ↦ simp (verify_role, e, h)
  | inr e ↦ simp (verify_role, e, h)
]

module _ {S : Type 0} (env : Env S) (gate : Gate S) where
  cached_id :
      (w : World S)
      → is_empty w.backend.instance_id ≡ false
      → owner_instance_id env w ≡ (w, some w.backend.instance_id)
  unfolding owner_instance_id
  cached_id w known = simp (owner_instance_id, known)

  -- The gate lets a disabled role pass, and probes nothing.
  verify_disabled :
      (r : VultrRole) (w : World S)
      → is_empty w.backend.instance_id ≡ false
      → disabled_role (env.encode_role r) ≡ true
      → let x = verify_role_capability env gate r w in
        (x.1 ≡ none) × (x.0.storage ≡ w.storage) × (x.0.calls ≡ w.calls)
  unfolding verify_role_capability begin
  verify_disabled r w known off =
      let states = machines_by_id w.backend.minter_sets in
      let q = verify_role-disabled gate w.storage states r.minter_set (env.encode_role r) off in
      let here : (owner_instance_id env w).0 ≡ w = ap (λ x. x.0) (cached_id w known) in
      let named = ap (λ x. x.1) (cached_id w known) in
      rw (verify_role_capability, named, here, q) (refl, refl, refl)

  saved :
      (r : VultrRole) (w w' : World S) {s : S}
      → w'.storage ≡ w.storage
      → w'.calls ≡ w.calls
      → env.storage.put w.storage (role_prefix ++ r.name) (env.encode_role r) ≡ some s
      → let x = save_role env r w' in (x.1 ≡ none) × (x.0.storage ≡ s) × (x.0.calls ≡ w.calls)
  unfolding save_role
  saved r w w' {s} p q h =
      let k : env.storage.put w'.storage (role_prefix ++ r.name) (env.encode_role r) ≡ some s =
        ap (λ t. env.storage.put t (role_prefix ++ r.name) (env.encode_role r)) p ∙ h in
      rw (save_role, k) (refl, refl, q)

  write_checked :
      (name : Text) (d : RoleFields) (r : VultrRole) (w : World S) {filled : RoleFields} {s : S}
      → prefill_role_write env w.storage name d ≡ some filled
      → assemble name filled ≡ r
      → check_role env r w.storage ≡ none
      → is_empty w.backend.instance_id ≡ false
      → disabled_role (env.encode_role r) ≡ true
      → env.storage.put w.storage (role_prefix ++ r.name) (env.encode_role r) ≡ some s
      → let x = role_write env gate name d w in
        (x.1 ≡ none) × (x.0.storage ≡ s) × (x.0.calls ≡ w.calls)
  unfolding role_write
  write_checked name d r w e a c known off h =
      let (passed, kept, quiet) = verify_disabled r w known off in
      let w' = (verify_role_capability env gate r w).0 in
      let x : role_write env gate name d w ≡ save_role env r w' =
        simp (role_write, e, a, c, passed) in
      rw x (saved r w w' kept quiet h)

creds_read-refused :
    {S : Type 0} (env : Env S) (req : CredsRequest) (t : ℕ) (w : World S) {code : ErrorCode}
    → load_role env w.storage req.role_name ≡ inr code
    → (c : ErrorCode) × (creds_read env req t w ≡ (w, refused c))
unfolding creds_read admit
creds_read-refused env req t w {code} h =
    elim (Option-cases (require_credential_kind req.credential_kind bearer_token)) [
      | inr (c, e) ↦ (c, rw (creds_read, admit, e) refl)
      | inl e ↦ (code, rw (creds_read, admit, e, h) refl)
    ]

refuses :
    {S : Type 0} (env : Env S) (name : Text) (s : S)
    → (load_role env s name ≡ inr role_disabled) ⊎ (load_role env s name ≡ inr internal)
    → (req : CredsRequest) (t : ℕ) (w : World S) → req.role_name ≡ name
    → w.storage ≡ s
    → (code : ErrorCode) × (creds_read env req t w ≡ (w, refused code))
refuses env name s off req t w p q =
    let same : load_role env w.storage req.role_name ≡ load_role env s name =
      ap (λ x. load_role env x req.role_name) q ∙ ap (load_role env s) p in
    elim off [
      | inl e ↦ creds_read-refused env req t w (same ∙ e)
      | inr e ↦ creds_read-refused env req t w (same ∙ e)
    ]

-- Let a role be stored under its name, with times of whole seconds, that a write of its own fields would still
-- pass, as its minter set exists; let the mount have its instance id in memory; and let the storage take the
-- write, and `encoding/json` read back what it writes. Then a request that carries `disabled=true`
-- alone succeeds: the rest of the role is kept, neither the health of its minters nor the gate stands in
-- the way, and the cloud is not asked for anything. In the storage that this leaves the role is
-- answered by `role_disabled`, or by `internal` if it cannot be read, and every request for
-- its credentials is refused with the mount left as it is.
pub role_write-disable :
    {S : Type 0} (env : Env S) (gate : Gate S) (content : S → Text → Option Value)
    (laws : Laws env.storage content)
    (encodes : (r : VultrRole) → env.decode_role (env.encode_role r) ≡ some r)
    (flags : (r : VultrRole) → r.disabled ≡ true → disabled_role (env.encode_role r) ≡ true)
    (name : Text) (w : World S) {v : Value} {r : VultrRole} {s : S}
    → env.storage.get w.storage (role_prefix ++ name) ≡ some (some v)
    → env.decode_role v ≡ some r
    → r.name ≡ name
    → r.default_ttl / second * second ≡ r.default_ttl
    → r.max_ttl / second * second ≡ r.max_ttl
    → check_role env r w.storage ≡ none
    → is_empty w.backend.instance_id ≡ false
    → env.storage.put w.storage (role_prefix ++ r.name) (env.encode_role (disabled_copy r)) ≡ some s
    → let x = role_write env gate name disable w in
      (x.1 ≡ none)
      × (x.0.storage ≡ s)
      × (x.0.calls ≡ w.calls)
      × ((load_role env s name ≡ inr role_disabled) ⊎ (load_role env s name ≡ inr internal))
      × ((req : CredsRequest) (t : ℕ) (w' : World S)
          → req.role_name ≡ name
          → w'.storage ≡ s
          → (code : ErrorCode) × (creds_read env req t w' ≡ (w', refused code)))
unfolding load_role prefill_role_write
role_write-disable env gate content laws encodes flags name w {v} {r} {s} g d n t u ok known h =
    let filled : prefill_role_write env w.storage name disable
        ≡ some (prefill disable (role_data r)) =
      rw (prefill_role_write, g, d) refl in
    let x =
      write_checked env gate name disable (disabled_copy r) w filled (assembled name r n t u)
        (check_role-disabled env r w.storage ∙ ok) known (flags (disabled_copy r) refl) h in
    let off = after (env.storage.get s (role_prefix ++ name)) refl in
    (x.0, x.1, x.2, off, λ req t w' p q. refuses env name s off req t w' p q)
  where
    after :
        (o : Option (Option Value))
        → env.storage.get s (role_prefix ++ name) ≡ o
        → (load_role env s name ≡ inr role_disabled) ⊎ (load_role env s name ≡ inr internal)
    after none e = inr (rw (load_role, e) refl)
    after (some read) e =
        let put_key : content s (role_prefix ++ r.name) ≡ some (env.encode_role (disabled_copy r)) =
          laws.put_writes w.storage (role_prefix ++ r.name) (env.encode_role (disabled_copy r))
            (role_prefix ++ r.name) h
          ∙ rw (text_eq_refl (role_prefix ++ r.name)) refl in
        let stored : content s (role_prefix ++ name) ≡ some (env.encode_role (disabled_copy r)) =
          ap (λ k. content s (role_prefix ++ k)) (sym n) ∙ put_key in
        let found : env.storage.get s (role_prefix ++ name)
            ≡ some (some (env.encode_role (disabled_copy r))) =
          e ∙ ap some (laws.get_reads s (role_prefix ++ name) e ∙ stored) in
        inl (rw (load_role, found, encodes (disabled_copy r)) refl)
