-- ===== src/Store/Listing/Laws.antt =====
-- That ORDER BY keeps the rows.
use mathlib.Core.List.{Perm}
use mathlib.Core.List.Perm
use pocket_flow_go.Prelude.{
  Bool, List, ◌∷◌, Bool-cases, [], inl, inr, length, ◌≡◌, suc, ◌∙◌, ap, refl,
}
use pocket_flow_go.Store.Listing.{insert_with, order_with}

module _ {A : Type 0} (before : A → A → Bool) where
  insert_with-perm : (r : A) (rs : List A) → Perm (insert_with before r rs) (r ∷ rs)
  unfolding insert_with
  insert_with-perm r [] = Perm.refl (r ∷ [])
  insert_with-perm r (s ∷ rs) = elim (Bool-cases (before r s)) [
    | inl t ↦ rw t (Perm.refl (r ∷ s ∷ rs))
    | inr f ↦ rw f (Perm.trans (Perm.cons s (insert_with-perm r rs)) (Perm.swap r s rs))
  ]

  pub order_with-perm : (rs : List A) → Perm (order_with before rs) rs
  unfolding order_with
  order_with-perm [] = Perm.refl []
  order_with-perm (r ∷ rs) =
      Perm.trans (insert_with-perm r (order_with before rs)) (Perm.cons r (order_with-perm rs))

  length-insert_with : (r : A) (rs : List A) → length (insert_with before r rs) ≡ suc (length rs)
  unfolding insert_with
  length-insert_with r [] = refl
  length-insert_with r (s ∷ rs) = elim (Bool-cases (before r s)) [
    | inl t ↦ rw t refl
    | inr f ↦ rw f (ap suc (length-insert_with r rs))
  ]

  pub length-order_with : (rs : List A) → length (order_with before rs) ≡ length rs
  unfolding order_with
  length-order_with [] = refl
  length-order_with (r ∷ rs) =
      length-insert_with r (order_with before rs) ∙ ap suc (length-order_with rs)
