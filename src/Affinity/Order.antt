-- ===== src/Affinity/Order.antt =====
-- The order of the minters depends on the client's key and on which minters there are, not on how they are listed.
use mathlib.Core.List.{Perm, Permᴰ}
use openbao_cloud_creds.Base.{
  Option, ℕ, ◌≡◌, refl, sym, ap, ◌∙◌, ◌⊎◌, inl, inr, Text, text_le_total, text_le_trans,
  text_le_antisymm, is_empty, insert_sorted, sort_by, sort_by-perm, List, [], ◌∷◌, Bool, true,
  false, Bool-cases, arith,
}
use openbao_cloud_creds.Affinity.{weigh, prefers, order}

prefers_total : (w : Text → ℕ) (a b : Text) → (prefers w a b ≡ true) ⊎ (prefers w b a ≡ true)
unfolding prefers
prefers_total w a b = ground (arith, text_le_total a b)

prefers_trans :
    (w : Text → ℕ) (a b c : Text)
    → prefers w a b ≡ true
    → prefers w b c ≡ true
    → prefers w a c ≡ true
unfolding prefers
prefers_trans w a b c h k = ground (arith, text_le_trans a b c)

prefers_antisymm : (w : Text → ℕ) (a b : Text) → prefers w a b ≡ true → prefers w b a ≡ true → a ≡ b
unfolding prefers
prefers_antisymm w a b h k = ground (arith, text_le_antisymm a b)

-- Inserting by a total order commutes.
module _ (le : Text → Text → Bool) (total : (a b : Text) → (le a b ≡ true) ⊎ (le b a ≡ true))
    (trans : (a b c : Text) → le a b ≡ true → le b c ≡ true → le a c ≡ true)
    (antisymm : (a b : Text) → le a b ≡ true → le b a ≡ true → a ≡ b) where
  insert_before :
      (a x : Text) (xs : List Text) → le a x ≡ true → insert_sorted le a (x ∷ xs) ≡ a ∷ x ∷ xs
  unfolding insert_sorted
  insert_before a x xs e = simp e

  insert_nil : (a : Text) → insert_sorted le a [] ≡ a ∷ []
  unfolding insert_sorted
  insert_nil a = refl

  insert_after :
      (a x : Text) (xs : List Text)
      → le a x ≡ false
      → insert_sorted le a (x ∷ xs) ≡ x ∷ insert_sorted le a xs
  unfolding insert_sorted
  insert_after a x xs e = simp e

  -- Two insertions in front of the same list.
  insert_both :
      (a b : Text) (xs : List Text)
      → insert_sorted le a xs ≡ a ∷ xs
      → insert_sorted le b xs ≡ b ∷ xs
      → insert_sorted le a (b ∷ xs) ≡ insert_sorted le b (a ∷ xs)
  insert_both a b xs p q = elim (Bool-cases (le a b)) [
    | inl e ↦ elim (Bool-cases (le b a)) [
      | inl f ↦ rw (antisymm a b e f) refl
      | inr f ↦ insert_before a b xs e ∙ sym (insert_after b a xs f ∙ ap (◌∷◌ a) q)
    ]
    | inr e ↦
        let f : le b a ≡ true = ground (arith, total a b) in
        insert_after a b xs e ∙ ap (◌∷◌ b) p ∙ sym (insert_before b a xs f)
  ]

  -- One insertion in front of the list's head and one after it.
  insert_around :
      (a b x : Text) (xs : List Text)
      → le b x ≡ true
      → le a x ≡ false
      → insert_sorted le a (b ∷ x ∷ xs) ≡ insert_sorted le b (x ∷ insert_sorted le a xs)
  insert_around a b x xs e f = elim (Bool-cases (le a b)) [
    | inl g ↦ absurd (never (sym f ∙ trans a b x g e))
    | inr g ↦
        insert_after a b (x ∷ xs) g
        ∙ ap (◌∷◌ b) (insert_after a x xs f)
        ∙ sym (insert_before b x (insert_sorted le a xs) e)
  ]
    where
      never : false ≡ true → ⊥
      never q = cc

  insert_comm :
      (a b : Text) (xs : List Text)
      → insert_sorted le a (insert_sorted le b xs) ≡ insert_sorted le b (insert_sorted le a xs)
  insert_comm a b [] =
      rw (insert_nil a, insert_nil b) (insert_both a b [] (insert_nil a) (insert_nil b))
  insert_comm a b (x ∷ xs) = elim (Bool-cases (le b x)) [
    | inl e ↦ elim (Bool-cases (le a x)) [
      | inl f ↦
          rw (insert_before b x xs e, insert_before a x xs f)
            (insert_both a b (x ∷ xs) (insert_before a x xs f) (insert_before b x xs e))
      | inr f ↦ rw (insert_before b x xs e, insert_after a x xs f) (insert_around a b x xs e f)
    ]
    | inr e ↦ elim (Bool-cases (le a x)) [
      | inl f ↦
          rw (insert_after b x xs e, insert_before a x xs f) (sym (insert_around b a x xs f e))
      | inr f ↦
          rw (insert_after b x xs e, insert_after a x xs f)
            (insert_after a x (insert_sorted le b xs) f
              ∙ ap (◌∷◌ x) (insert_comm a b xs)
              ∙ sym (insert_after b x (insert_sorted le a xs) e))
    ]
  ]

  sort_by-Permᴰ : (xs ys : List Text) → Permᴰ xs ys → sort_by le xs ≡ sort_by le ys
  unfolding sort_by
  sort_by-Permᴰ xs ys Permᴰ.nil = refl
  sort_by-Permᴰ (a ∷ xs) (b ∷ ys) (Permᴰ.cons e p) = rw (e, sort_by-Permᴰ xs ys p) refl
  sort_by-Permᴰ (a ∷ b ∷ xs) (c ∷ d ∷ ys) (Permᴰ.swap e f) =
      rw (e, f) (insert_comm d c (sort_by le xs))
  sort_by-Permᴰ xs ys (Permᴰ.trans {l₂ = zs} p q) = sort_by-Permᴰ xs zs p ∙ sort_by-Permᴰ zs ys q

-- For a client with a key, the order is the same however the same minters are listed, and it is an order of
-- all of them and of no others.
pub order_lem :
    (sha256 : Text → List ℕ) (draw : ℕ → Option ℕ) (key : Text) (ids others : List Text)
    → is_empty key ≡ false
    → Permᴰ ids others
    → (order sha256 draw key ids ≡ order sha256 draw key others)
      × Perm (order sha256 draw key ids) ids
unfolding order
order_lem sha256 draw key ids others e p =
    let w = weigh sha256 key in
    rw (order, e)
      (
        sort_by-Permᴰ (prefers w) (prefers_total w) (prefers_trans w) (prefers_antisymm w) ids
            others p,
        sort_by-perm (prefers w) ids,
      )
