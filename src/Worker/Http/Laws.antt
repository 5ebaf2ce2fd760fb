-- ===== src/Worker/Http/Laws.antt =====
-- What the sum of the HTTP worker adds up.
use mathlib.Core.List.{foldl}
use pocket_flow_go.Worker.{Toolkit}
use pocket_flow_go.Prelude.{
  List, Option, some, ◌∷◌, [], none, ◌≡◌, Option-cases, ap, inl, ◌∙◌, inr, refl,
}
use pocket_flow_go.Value.{
  Value, float, items, Items, str, Object, arr, cons, nil, bool, int, int64, obj, null,
}
use pocket_flow_go.Worker.Http.{add_item, sum_handler, sum_items, sum_of, answer}
use pocket_flow_go.Prelude.Int.{pos}

module _ {F : Type 0} (k : Toolkit F) where
  -- A number, or a text that reads as one.
  number_of : Value F → Option F
  number_of (float x) = some x
  number_of (str t) = k.rt.parse_float t
  number_of _ = none

  abbrev cons_number : Option F → List F → List F
  cons_number none xs = xs
  cons_number (some x) xs = x ∷ xs

  unfoldable pub numbers : List (Value F) → List F
  unfolding number_of
  numbers [] = []
  numbers (v ∷ vs) = cons_number (number_of v) (numbers vs)

  add_item-number :
      (s : F) (v : Value F) (xs : List F)
      → foldl k.add (add_item k s v) xs ≡ foldl k.add s (cons_number (number_of v) xs)
  unfolding add_item number_of
  add_item-number s (float x) xs = refl
  add_item-number s (str t) xs = elim (Option-cases (k.rt.parse_float t)) [
    | inl e ↦ rw (add_item, e) refl
    | inr (x, e) ↦ rw (add_item, e) refl
  ]
  add_item-number s null xs = refl
  add_item-number s (bool b) xs = refl
  add_item-number s (int n) xs = refl
  add_item-number s (int64 n) xs = refl
  add_item-number s (arr vs) xs = refl
  add_item-number s (obj m) xs = refl

  sum_items-numbers : (s : F) (vs : Items F) → sum_items k s vs ≡ foldl k.add s (numbers (items vs))
  unfolding sum_items numbers items
  sum_items-numbers s nil = refl
  sum_items-numbers s (cons v vs) =
      sum_items-numbers (add_item k s v) vs ∙ add_item-number s v (numbers (items vs))

  -- For an array, sumHandler answers with the sum, from the left, of the numbers among its elements,
  -- where a text that reads as a number counts as one and other elements count for nothing.
  pub sum_handler-numbers :
      (vs : Items F) (params : Object F)
      → sum_handler k (some (record { input = arr vs; params = params }))
        ≡ answer (float (foldl k.add (k.rt.of_int (pos 0)) (numbers (items vs))))
  unfolding sum_handler sum_of
  sum_handler-numbers vs params =
      ap (λ s. answer (float s)) (sum_items-numbers (k.rt.of_int (pos 0)) vs)
