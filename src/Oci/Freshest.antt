-- ===== src/Oci/Freshest.antt =====
-- Which slot is served, and for how long.
use mathlib.Core.List.{Memᴰ}
use openbao_cloud_creds.Base.{
  ℕ, ◌+◌, ◌-◌, ◌*◌, ◌/◌, ◌≤◌, ◌<◌, ◌≡◌, refl, sym, ap, ◌∙◌, ◌↔◌, ◌⊎◌, inl, inr, text, List, [], ◌∷◌,
  none, some, Option-cases, Sum-cases, true, false, ◌&&◌, Bool-cases, ltb, All, arith,
}
use openbao_cloud_creds.Errors.{ErrorCode}
use openbao_cloud_creds.Caller.Lineage
use openbao_cloud_creds.Caller.Requester
use openbao_cloud_creds.Envelope.{Envelope, new_envelope, oci_auth_token, require_credential_kind}
use openbao_cloud_creds.Ledger.{second}
use openbao_cloud_creds.Oci.{
  SlotState, slot_active, slot_retiring, slot_retired, slot_empty, Slot, OciRole, Env,
}
use openbao_cloud_creds.Oci.Slots.{
  is_active, is_servable, better, freshest_from, freshest_slot, load_all_slots,
}
use openbao_cloud_creds.Oci.Loaded.{
  IsEnabled, load_issuable_role-IsEnabled, AllHeld, load_all_slots-AllHeld,
}
use openbao_cloud_creds.Oci.Creds.{
  CredsRequest, Lease, refused, issued, ttl_seconds, serve_slot, load_issuable_role, serve_freshest,
  creds_read,
}

-- No servable slot of the list was rotated later.
abbrev pub IsFreshest : ℕ → Slot → List Slot → Type 0
IsFreshest now best slots =
    All (λ s. (is_servable now s ≡ false) ⊎ (s.rotated_at ≤ best.rotated_at)) slots

module _ (now : ℕ) where
  -- Where the loop has a slot, it ends with that one or with a servable one of the list.
  abbrev Later : Slot → List Slot → Slot → Type 0
  Later b slots r =
      (b.rotated_at ≤ r.rotated_at)
      × ((b ≡ r) ⊎ ((is_servable now r ≡ true) × Memᴰ r slots))
      × IsFreshest now r slots

  from_kept :
      (b s : Slot) (slots : List Slot) (r : Slot)
      → (is_servable now s ≡ false) ⊎ (s.rotated_at ≤ b.rotated_at)
      → Later b slots r
      → Later b (s ∷ slots) r
  from_kept b s slots r h (le, from, best) = (
    le,
    elim from [ inl q ↦ inl q | inr (q, m) ↦ inr (q, Memᴰ.tail m) ],
    (elim h [ inl e ↦ inl e | inr k ↦ inr (omega arith) ], best),
  )

  from_new :
      (b s : Slot) (slots : List Slot) (r : Slot)
      → is_servable now s ≡ true
      → b.rotated_at ≤ s.rotated_at
      → Later s slots r
      → Later b (s ∷ slots) r
  from_new b s slots r e h (le, from, best) = (
    omega arith,
    elim from [
      | inl q ↦ inr (ap (is_servable now) (sym q) ∙ e, Memᴰ.head (sym q))
      | inr (q, m) ↦ inr (q, Memᴰ.tail m)
    ],
    (inr le, best),
  )

  from_some :
      (b : Slot) (slots : List Slot)
      → (r : Slot) × (freshest_from now (some b) slots ≡ some r) × Later b slots r
  unfolding freshest_from better
  from_some b [] = (b, refl, (omega arith, inl refl, tt))
  from_some b (s ∷ slots) = elim (Bool-cases (is_servable now s)) [
    | inr e ↦
        let (r, q, l) = from_some b slots in
        (r, rw (freshest_from, e) q, from_kept b s slots r (inl e) l)
    | inl e ↦ elim (Bool-cases (ltb b.rotated_at s.rotated_at)) [
      | inl f ↦
          let (r, q, l) = from_some s slots in
          let next : freshest_from now (some b) (s ∷ slots) ≡ freshest_from now (some s) slots =
            simp (freshest_from, e, better, f) in
          (r, next ∙ q, from_new b s slots r e (ground arith) l)
      | inr f ↦
          let (r, q, l) = from_some b slots in
          let next : freshest_from now (some b) (s ∷ slots) ≡ freshest_from now (some b) slots =
            simp (freshest_from, e, better, f) in
          (r, next ∙ q, from_kept b s slots r (inr (ground arith)) l)
    ]
  ]

  from_none :
      (slots : List Slot)
      → ((freshest_from now none slots ≡ none) × All (λ s. is_servable now s ≡ false) slots)
        ⊎ ((r : Slot) × (freshest_from now none slots ≡ some r)
            × (is_servable now r ≡ true)
            × Memᴰ r slots
            × IsFreshest now r slots)
  unfolding freshest_from better
  from_none [] = inl (refl, tt)
  from_none (s ∷ slots) = elim (Bool-cases (is_servable now s)) [
    | inr e ↦ elim (from_none slots) [
      | inl (q, h) ↦ inl (rw (freshest_from, e) q, (e, h))
      | inr (r, q, v, m, best) ↦ inr (r, rw (freshest_from, e) q, v, Memᴰ.tail m, (inl e, best))
    ]
    | inl e ↦
        let (r, q, l) = from_some s slots in
        let (le, from, best) = l in
        let next : freshest_from now none (s ∷ slots) ≡ freshest_from now (some s) slots =
          simp (freshest_from, e, better) in
        inr (
          r,
          next ∙ q,
          elim from [ inl p ↦ ap (is_servable now) (sym p) ∙ e | inr (v, m) ↦ v ],
          elim from [ inl p ↦ Memᴰ.head (sym p) | inr (v, m) ↦ Memᴰ.tail m ],
          (inr le, best),
        )
  ]

-- The slot that is served is one of the role's, active and not due for rotation, and no other such slot was
-- rotated later; there is none to serve just if every slot is inactive or due.
pub freshest_slot_lem :
    (slots : List Slot) (now : ℕ)
    → ((freshest_slot slots now ≡ none) × All (λ s. is_servable now s ≡ false) slots)
      ⊎ ((r : Slot) × (freshest_slot slots now ≡ some r)
          × (is_servable now r ≡ true)
          × Memᴰ r slots
          × IsFreshest now r slots)
unfolding freshest_slot
freshest_slot_lem slots now = from_none now slots

-- What a lease on a slot may be told: it ends by the slot's rotation and, where the role sets at least a
-- second, within the role's default. It is empty just in the last second before the rotation.
abbrev pub IsHonest : OciRole → Slot → ℕ → ℕ → Type 0
IsHonest role best now ttl =
    (now + ttl * second ≤ best.next_rotation_at)
    × ((role.default_ttl < second) ⊎ (ttl * second ≤ role.default_ttl))
    × ((ttl ≡ 0) ↔ (best.next_rotation_at < now + second))

ttl_seconds-IsHonest :
    (role : OciRole) (best : Slot) (now : ℕ)
    → now < best.next_rotation_at
    → IsHonest role best now (ttl_seconds role best now)
unfolding ttl_seconds
ttl_seconds-IsHonest role best now h =
    let remaining = (best.next_rotation_at - now) / second in
    let default = role.default_ttl / second in
    elim (Bool-cases (ltb 0 default && ltb default remaining)) [
      | inl e ↦
          rw (ttl_seconds, e)
            (ground arith, inr (ground arith), (λ z. ground arith, λ z. ground arith))
      | inr e ↦
          rw (ttl_seconds, e) (ground arith, ground arith, (λ z. ground arith, λ z. ground arith))
    ]

is_servable-open : (now : ℕ) (s : Slot) → is_servable now s ≡ true → now < s.next_rotation_at
unfolding is_servable
is_servable-open now s h = elim (Bool-cases (is_active s.state)) [
  | inl e ↦ ground arith
  | inr e ↦ ground arith
]

is_servable-active :
    (now : ℕ) (s : Slot)
    → is_servable now s ≡ true
    → (s.state ≡ slot_active) × (now < s.next_rotation_at)
unfolding is_servable is_active
is_servable-active now s h = go s.state refl
  where
    go : (t : SlotState) → s.state ≡ t → (s.state ≡ slot_active) × (now < s.next_rotation_at)
    go slot_active e = (e, is_servable-open now s h)
    go slot_retiring e = absurd (never (rw e at h))
      where
        never : false ≡ true → ⊥
        never q = cc
    go slot_retired e = absurd (never (rw e at h))
      where
        never : false ≡ true → ⊥
        never q = cc
    go slot_empty e = absurd (never (rw e at h))
      where
        never : false ≡ true → ⊥
        never q = cc

active-is_servable :
    (now : ℕ) (s : Slot)
    → s.state ≡ slot_active
    → now < s.next_rotation_at
    → is_servable now s ≡ true
unfolding is_servable is_active
active-is_servable now s e h = rw (is_servable, e) (ground arith)

-- No active slot of the list that is not due was rotated later.
abbrev pub IsLatest : ℕ → Slot → List Slot → Type 0
IsLatest now best slots =
    All (λ s. s.state ≡ slot_active → now < s.next_rotation_at → s.rotated_at ≤ best.rotated_at)
      slots

IsFreshest-IsLatest :
    (now : ℕ) (best : Slot) (slots : List Slot)
    → IsFreshest now best slots
    → IsLatest now best slots
IsFreshest-IsLatest now best [] h = tt
IsFreshest-IsLatest now best (s ∷ slots) h = (
  λ e k. elim h.0 [
    | inl closed ↦ absurd (never (sym closed ∙ active-is_servable now s e k))
    | inr le ↦ le
  ],
  IsFreshest-IsLatest now best slots h.1,
)
  where
    never : false ≡ true → ⊥
    never q = cc

-- What stands behind a credential that is handed out.
pub record Served {S : Type 0} (env : Env S) (req : CredsRequest) (now : ℕ) (s : S) (e : Envelope)
    (lease : Lease) : Type 0 where
  pub role : OciRole
  pub slots : List Slot
  pub best : Slot
  pub parsable : require_credential_kind req.credential_kind oci_auth_token ≡ none
  pub enabled : IsEnabled env s req.role_name role
  pub identified : Requester.enforce (some req.caller) role.require_caller_identity ≡ none
  pub parented : (Lineage.enforce (some req.caller) env.view role.require_caller_lineage).1 ≡ none
  pub loaded : AllHeld env s req.role_name 0 role.slot_count slots
  pub servable : (best.state ≡ slot_active) × (now < best.next_rotation_at)
  pub among : Memᴰ best slots
  pub freshest : IsLatest now best slots
  pub told :
      (e.credential ≡ (text "auth_token", best.token_value) ∷ (text "user_id", role.user_ocid) ∷ [])
      × (e.credential_id ≡ best.token_id)
      × (lease.token_id ≡ best.token_id)
      × (lease.slot_index ≡ best.slot_index)
  pub honest : IsHonest role best now e.ttl_seconds
  pub agreed : (e.expires_at ≡ now + e.ttl_seconds * second) × (lease.ttl ≡ e.ttl_seconds * second)

module _ {S : Type 0} (env : Env S) (req : CredsRequest) (now : ℕ) (s : S) where
  never : {code : ErrorCode} {e : Envelope} {lease : Lease} → refused code ≡ issued e lease → ⊥
  never q = cc

  envelope_of : {e f : Envelope} {l m : Lease} → issued e l ≡ issued f m → e ≡ f
  envelope_of q = cc

  lease_of : {e f : Envelope} {l m : Lease} → issued e l ≡ issued f m → l ≡ m
  lease_of q = cc

  serve_slot-Served :
      (role : OciRole) (slots : List Slot) (best : Slot) {e : Envelope} {lease : Lease}
      → require_credential_kind req.credential_kind oci_auth_token ≡ none
      → load_issuable_role env s req.role_name ≡ inl role
      → Requester.enforce (some req.caller) role.require_caller_identity ≡ none
      → (Lineage.enforce (some req.caller) env.view role.require_caller_lineage).1 ≡ none
      → load_all_slots env s req.role_name role.slot_count ≡ some slots
      → (is_servable now best ≡ true) × Memᴰ best slots × IsFreshest now best slots
      → serve_slot role req.role_name best now ≡ issued e lease
      → Served env req now s e lease
  unfolding serve_slot new_envelope
  serve_slot-Served role slots best a b c d l (v, m, f) h =
      rw (← envelope_of h, ← lease_of h)
        (record {
          role = role;
          slots = slots;
          best = best;
          parsable = a;
          enabled = load_issuable_role-IsEnabled env s req.role_name role b;
          identified = c;
          parented = d;
          loaded = load_all_slots-AllHeld env s req.role_name role.slot_count slots l;
          servable = is_servable-active now best v;
          among = m;
          freshest = IsFreshest-IsLatest now best slots f;
          told = (refl, refl, refl, refl);
          honest = ttl_seconds-IsHonest role best now (is_servable-open now best v);
          agreed = (refl, refl);
        })

  serve_freshest-Served :
      (role : OciRole) {e : Envelope} {lease : Lease}
      → require_credential_kind req.credential_kind oci_auth_token ≡ none
      → load_issuable_role env s req.role_name ≡ inl role
      → Requester.enforce (some req.caller) role.require_caller_identity ≡ none
      → (Lineage.enforce (some req.caller) env.view role.require_caller_lineage).1 ≡ none
      → serve_freshest env req role now s ≡ issued e lease
      → Served env req now s e lease
  unfolding serve_freshest
  serve_freshest-Served role a b c d h =
      elim (Option-cases (load_all_slots env s req.role_name role.slot_count)) [
        | inl l ↦ absurd (never (rw (serve_freshest, l) at h))
        | inr (slots, l) ↦ elim (freshest_slot_lem slots now) [
          | inl (q, _) ↦ absurd (never (rw (serve_freshest, l, q) at h))
          | inr (best, q, v, m, f) ↦
              serve_slot-Served role slots best a b c d l (v, m, f) (rw (serve_freshest, l, q) at h)
        ]
      ]

-- A credential is handed out only to a caller that can parse it and meets the requirements of the role, which
-- is stored under the name of the request and not disabled. It is the token of a slot that is
-- stored for the role, active and not due, and no other such slot was rotated later. The lease and
-- the envelope tell the same time, and that time ends by the slot's rotation: it is never longer
-- than the token lives, but it is 0 in the last second before the rotation.
pub creds_read-Served :
    {S : Type 0} (env : Env S) (req : CredsRequest) (now : ℕ) (s : S) {e : Envelope} {lease : Lease}
    → creds_read env req now s ≡ issued e lease
    → Served env req now s e lease
unfolding creds_read serve_freshest
creds_read-Served env req now s h =
    elim (Option-cases (require_credential_kind req.credential_kind oci_auth_token)) [
      | inr (code, a) ↦ absurd (never env req now s (rw (creds_read, a) at h))
      | inl a ↦ elim (Sum-cases (load_issuable_role env s req.role_name)) [
        | inr (code, b) ↦ absurd (never env req now s (rw (creds_read, a, b) at h))
        | inl (role, b) ↦
            elim (Option-cases (Requester.enforce (some req.caller) role.require_caller_identity)) [
              | inr (code, c) ↦ absurd (never env req now s (rw (creds_read, a, b, c) at h))
              | inl c ↦
                  elim (Option-cases
                    (Lineage.enforce (some req.caller) env.view role.require_caller_lineage).1) [
                      | inr (code, d) ↦
                          absurd (never env req now s (rw (creds_read, a, b, c, d) at h))
                      | inl d ↦
                          serve_freshest-Served env req now s role a b c d
                            (rw (creds_read, a, b, c, d) at h)
                    ]
            ]
      ]
    ]
