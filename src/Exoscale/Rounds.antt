-- ===== src/Exoscale/Rounds.antt =====
-- What the sweep makes of the minters of a set, one after the other.
use mathlib.Core.List.{Memᴰ, append_assoc, append-nil}
use openbao_cloud_creds.Base.{
  ◌≡◌, refl, sym, ap, ◌∙◌, ◌⊎◌, inl, inr, ℕ, ◌+◌, ◌<◌, ◌==◌, is_empty, ◌++◌, List, [], ◌∷◌, Bool,
  true, false, not, ◌&&◌, Bool-cases, All, if◌then◌else◌, arith,
}
use openbao_cloud_creds.Minters.{Minter, active_minters}
use openbao_cloud_creds.Exoscale.{
  Call, delete_api_key, World, Env, key_id, is_due, delete_retired_upstream, sweep_minter,
  sweep_minters,
}

-- The deletion of a minter's key.
abbrev pub deletion : Minter → Call
deletion m = delete_api_key m.token (key_id m)

-- The answer says that the key is gone: it was deleted, or the cloud does not know it.
abbrev pub is_gone : ℕ × Bool → Bool
is_gone (status, failed) = not (failed && not (status == 404))

-- The minter was retired, and longer ago than the grace.
abbrev pub IsDue : ℕ → ℕ → Minter → Type 0
IsDue now grace m = (m.retired ≡ true) × (m.retired_at + grace < now)

is_due-IsDue : (now grace : ℕ) (m : Minter) → is_due now grace m ≡ true → IsDue now grace m
unfolding is_due
is_due-IsDue now grace m h = ground arith

-- A call that deletes the key on record of a minter of the list whose grace is over.
abbrev pub Asked : ℕ → ℕ → List Minter → Call → Type 0
Asked now grace minters c =
    (m : Minter) × Memᴰ m minters
    × IsDue now grace m
    × (is_empty (key_id m) ≡ false)
    × (c ≡ deletion m)

module _ {S : Type 0} (env : Env S) (now grace : ℕ) where
  -- A minter whose grace is over, and that has no key on record, or one that the cloud has said is gone.
  abbrev pub Gone : List Call → Minter → Type 0
  Gone calls m =
      IsDue now grace m
      × ((is_empty (key_id m) ≡ true)
          ⊎ ((before : List Call) × (after : List Call) × (calls ≡ before ++ deletion m ∷ after)
              × (is_gone (env.delete before (deletion m)) ≡ true)))

  -- The world after the deletion of a minter's key was asked for.
  abbrev asked : Minter → World S → World S
  asked m w = record w { calls = w.calls ++ deletion m ∷ [] }

  -- What becomes of one minter.
  data Round (m : Minter) (w : World S) : World S × Bool → Type 0 where
    spared : is_due now grace m ≡ false → Round m w (w, false)
    keyless : IsDue now grace m → is_empty (key_id m) ≡ true → Round m w (w, true)
    gone :
        IsDue now grace m
        → is_empty (key_id m) ≡ false
        → is_gone (env.delete w.calls (deletion m)) ≡ true
        → Round m w (asked m w, true)
    refused : IsDue now grace m → is_empty (key_id m) ≡ false → Round m w (asked m w, false)

  sweep_minter-Round : (m : Minter) (w : World S) → Round m w (sweep_minter env now grace m w)
  unfolding sweep_minter delete_retired_upstream
  sweep_minter-Round m w = elim (Bool-cases (is_due now grace m)) [
    | inr e ↦ rw (sweep_minter, e) (spared e)
    | inl e ↦ elim (Bool-cases (is_empty (key_id m))) [
      | inl f ↦
          rw (sweep_minter, e, delete_retired_upstream, f) (keyless (is_due-IsDue now grace m e) f)
      | inr f ↦ elim (Bool-cases (is_gone (env.delete w.calls (deletion m)))) [
        | inl g ↦
            rw (sweep_minter, e, delete_retired_upstream, f, g)
              (gone (is_due-IsDue now grace m e) f g)
        | inr g ↦
            rw (sweep_minter, e, delete_retired_upstream, f, g)
              (refused (is_due-IsDue now grace m e) f)
      ]
    ]
  ]

  -- What the loop leaves of a list of minters.
  abbrev pub Swept : List Minter → World S → World S × List Minter × Bool → Type 0
  Swept minters w out =
      ((new : List Call) × (out.0.calls ≡ w.calls ++ new) × All (Asked now grace minters) new)
      × (out.0.storage ≡ w.storage)
      × (active_minters out.1 ≡ active_minters minters)
      × ((m : Minter) → Memᴰ m minters → Memᴰ m out.1 ⊎ Gone out.0.calls m)
      × (out.2 ≡ false → out.1 ≡ minters)

  weaken_calls :
      (m : Minter) (minters : List Minter) (new : List Call)
      → All (Asked now grace minters) new
      → All (Asked now grace (m ∷ minters)) new
  weaken_calls m minters [] h = tt
  weaken_calls m minters (c ∷ new) ((n, k, due, full, e), h) =
      ((n, Memᴰ.tail k, due, full, e), weaken_calls m minters new h)

  retired_inactive :
      (m : Minter) (minters : List Minter)
      → IsDue now grace m
      → active_minters (m ∷ minters) ≡ active_minters minters
  unfolding active_minters
  retired_inactive m minters (retired, late) = rw (active_minters, retired) refl

  active_cons :
      (m : Minter) (xs ys : List Minter)
      → active_minters xs ≡ active_minters ys
      → active_minters (m ∷ xs) ≡ active_minters (m ∷ ys)
  unfolding active_minters
  active_cons m xs ys h = ap (λ k. if not m.retired then m ∷ k else k) h

  abbrev Accounted : List Minter → List Minter → List Call → Type 0
  Accounted minters kept calls = (m : Minter) → Memᴰ m minters → Memᴰ m kept ⊎ Gone calls m

  keeps_head :
      (m : Minter) (minters kept : List Minter) (calls : List Call)
      → Accounted minters kept calls
      → Accounted (m ∷ minters) (m ∷ kept) calls
  keeps_head m minters kept calls h n (Memᴰ.head e) = inl (Memᴰ.head e)
  keeps_head m minters kept calls h n (Memᴰ.tail k) = elim (h n k) [
    | inl stays ↦ inl (Memᴰ.tail stays)
    | inr is_away ↦ inr is_away
  ]

  drops_head :
      (m : Minter) (minters kept : List Minter) (calls : List Call)
      → Gone calls m
      → Accounted minters kept calls
      → Accounted (m ∷ minters) kept calls
  drops_head m minters kept calls away h n (Memᴰ.head e) = rw e (inr away)
  drops_head m minters kept calls away h n (Memᴰ.tail k) = h n k

  -- One round, and then the rest of the loop.
  and_then : Minter → World S × Bool → World S × List Minter × Bool → World S × List Minter × Bool
  and_then m x (w, kept, changed) = if x.1 then (w, kept, true) else (w, m ∷ kept, changed)

  Swept-cons :
      (m : Minter) (minters : List Minter) (w : World S) (x : World S × Bool)
      (out : World S × List Minter × Bool)
      → Round m w x
      → Swept minters x.0 out
      → Swept (m ∷ minters) w (and_then m x out)
  unfolding and_then
  Swept-cons m minters w x out (spared e) ((new, calls, all_due), same, active, kept, still) = (
    (new, calls, weaken_calls m minters new all_due),
    same,
    active_cons m out.1 minters active,
    keeps_head m minters out.1 out.0.calls kept,
    λ h. ap (◌∷◌ m) (still h),
  )
  Swept-cons m minters w x out (keyless e f) ((new, calls, all_due), same, active, kept, still) = (
    (new, calls, weaken_calls m minters new all_due),
    same,
    active ∙ sym (retired_inactive m minters e),
    drops_head m minters out.1 out.0.calls (e, inl f) kept,
    λ h. absurd (ground arith),
  )
  Swept-cons m minters w x out (gone e full g) ((new, calls, all_due), same, active, kept, still) =
      let extended = calls ∙ append_assoc w.calls (deletion m ∷ []) new in
      (
        (
          deletion m ∷ new,
          extended,
          ((m, Memᴰ.head refl, e, full, refl), weaken_calls m minters new all_due),
        ),
        same,
        active ∙ sym (retired_inactive m minters e),
        drops_head m minters out.1 out.0.calls (e, inr (w.calls, new, extended, g)) kept,
        λ h. absurd (ground arith),
      )
  Swept-cons m minters w x out (refused e full) ((new, calls, all_due), same, active, kept, still) =
      (
        (
          deletion m ∷ new,
          calls ∙ append_assoc w.calls (deletion m ∷ []) new,
          ((m, Memᴰ.head refl, e, full, refl), weaken_calls m minters new all_due),
        ),
        same,
        active_cons m out.1 minters active,
        keeps_head m minters out.1 out.0.calls kept,
        λ h. ap (◌∷◌ m) (still h),
      )

  pub sweep_minters-Swept :
      (minters : List Minter) (w : World S)
      → Swept minters w (sweep_minters env now grace minters w)
  unfolding sweep_minters and_then
  sweep_minters-Swept [] w =
      (([], sym (append-nil w.calls), tt), refl, refl, (λ m h. inl h), λ h. refl)
  sweep_minters-Swept (m ∷ minters) w =
      let x = sweep_minter env now grace m w in
      Swept-cons m minters w x (sweep_minters env now grace minters x.0) (sweep_minter-Round m w)
        (sweep_minters-Swept minters x.0)
