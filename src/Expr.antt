-- ===== src/Expr.antt =====
-- The conditions of choice nodes (pkg/engine/expr.go).
pub mod Laws
use pocket_flow_go.Prelude.{
  ℕ, Bool, true, false, not, ◌&&◌, String, Option, none, some, List, [], ◌∷◌, ◌==◌, if◌then◌else◌,
  any,
}
use pocket_flow_go.Prelude.Text.{text_lt, contains}
use pocket_flow_go.Runtime.{Runtime}
use pocket_flow_go.Value.{
  Value, Items, Object, null, bool, int, int64, float, str, arr, obj, nil, cons, empty, field,
  items,
}
use pocket_flow_go.Path.{is_null, resolve_ref, resolve_val}

-- The result of `cmp`: -1, 0 or 1.
pub data Sign : Type 0 where
  less same more : Sign

abbrev pub is_more : Sign → Bool
is_more more = true
is_more _ = false

abbrev pub is_less : Sign → Bool
is_less less = true
is_less _ = false

module _ {F : Type 0} (rt : Runtime F) where
  unfoldable pub as_float : Value F → Option F
  as_float (float x) = some x
  as_float (int n) = some (rt.of_int n)
  as_float (int64 n) = some (rt.of_int n)
  as_float (str s) = rt.parse_float s
  as_float _ = none

  unfoldable pub to_string : Value F → String
  to_string (str s) = s
  to_string (float x) = rt.format_float x
  to_string v = rt.marshal v

  sign_float : F → F → Sign
  sign_float a b = if rt.float_lt a b then less else if rt.float_lt b a then more else same

  sign_text : String → String → Sign
  unfolding text_lt
  sign_text a b = if text_lt a b then less else if text_lt b a then more else same

  unfoldable pub cmp : Value F → Value F → Sign
  unfolding as_float to_string sign_float sign_text
  cmp a b = elim (as_float a) [
    | some x ↦ elim (as_float b) [
      | some y ↦ sign_float x y
      | none ↦ sign_text (to_string a) (to_string b)
    ]
    | none ↦ sign_text (to_string a) (to_string b)
  ]

  unfoldable pub equal : Value F → Value F → Bool
  unfolding as_float to_string
  equal a b = elim (as_float a) [
    | some x ↦ elim (as_float b) [ some y ↦ rt.float_eq x y | none ↦ to_string a == to_string b ]
    | none ↦ to_string a == to_string b
  ]

  -- The search of `in` and `contains`.
  unfoldable pub has_element : Value F → Value F → Bool
  unfolding equal items contains
  has_element (arr xs) v = any (λ x. equal x v) (items xs)
  has_element (str s) (str t) = contains s t
  has_element _ _ = false

  module _ (shared params : Object F) (input : Value F) where
    -- An operator on two resolved values, and `none` where `k` is no such operator.
    unfoldable pub eval_pair : String → Value F → Value F → Option Bool
    unfolding equal cmp has_element
    eval_pair k a b =
        if k == "eq"
        then some (equal a b)
        else if k == "ne"
        then some (not (equal a b))
        else if k == "gt"
        then some (is_more (cmp a b))
        else if k == "lt"
        then some (is_less (cmp a b))
        else if k == "ge"
        then some (not (is_less (cmp a b)))
        else if k == "le"
        then some (not (is_more (cmp a b)))
        else if k == "in"
        then some (has_element b a)
        else if k == "contains"
        then some (has_element a b)
        else none

    -- The cases of the switch that do not evaluate further expressions.
    unfoldable pub eval_leaf : String → Value F → Option Bool
    unfolding eval_pair resolve_val resolve_ref
    eval_leaf k (arr (cons a (cons b nil))) =
        eval_pair k (resolve_val shared params input a) (resolve_val shared params input b)
    eval_leaf k (str s) =
        if k == "exists" then some (not (is_null (resolve_ref shared params input s))) else none
    eval_leaf k _ = none

    -- `none`: the case does not return, and the loop goes on to the next key.
    unfoldable mutual
      unfolding eval_leaf

      pub eval_expr : Object F → Bool
      eval_expr empty = false
      eval_expr (field k v rest) =
          let others = eval_expr rest in elim (eval_case k v) [ some b ↦ b | none ↦ others ]

      -- The body of the switch for one key and its value.
      pub eval_case : String → Value F → Option Bool
      eval_case k (arr xs) =
          let conj = eval_all xs in
          let disj = eval_any xs in
          if k == "and"
          then some conj
          else if k == "or"
          then some disj
          else if k == "not"
          then some (not (equal (resolve_val shared params input (arr xs)) (bool true)))
          else eval_leaf k (arr xs)
      eval_case k (obj m) = let inner = eval_expr m in if k == "not" then some (not inner) else none
      eval_case k v =
          if k == "not"
          then some (not (equal (resolve_val shared params input v) (bool true)))
          else eval_leaf k v

      -- evalExpr(toMap(it)): a value that is no map stands for {"eq": [it, true]}.
      pub eval_value : Value F → Bool
      eval_value (obj m) = eval_expr m
      eval_value v = equal (resolve_val shared params input v) (bool true)

      pub eval_all : Items F → Bool
      eval_all nil = true
      eval_all (cons v vs) = let rest = eval_all vs in if eval_value v then rest else false

      pub eval_any : Items F → Bool
      eval_any nil = false
      eval_any (cons v vs) = let rest = eval_any vs in if eval_value v then true else rest
