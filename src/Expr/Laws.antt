-- ===== src/Expr/Laws.antt =====
-- What an expression means: the evaluator against conditions as a data type of their own, and the
-- order in which the keys of one expression are tried.
use pocket_flow_go.Value.{Object, Value, arr, field, cons, empty, nil, str, obj, Items}
use pocket_flow_go.Runtime.{Runtime}
use pocket_flow_go.Prelude.{String, Bool, not, true, ◌&&◌, ◌≡◌, ap, false, arith, ◌||◌, refl}
use pocket_flow_go.Expr.{
  eval_expr, equal, eval_leaf, eval_pair, is_more, cmp, is_less, has_element, eval_all, eval_any,
}
use pocket_flow_go.Path.{resolve_val, is_null, resolve_ref}

pub data CompareOp : Type 0 where
  eq ne gt lt ge le member contains : CompareOp

abbrev pub op_name : CompareOp → String
op_name eq = "eq"
op_name ne = "ne"
op_name gt = "gt"
op_name lt = "lt"
op_name ge = "ge"
op_name le = "le"
op_name member = "in"
op_name contains = "contains"

mutual
  pub data Cond (F : Type 0) : Type 0 where
    compare : CompareOp → Value F → Value F → Cond F
    exists : String → Cond F
    neg : Cond F → Cond F
    conj disj : Conds F → Cond F

  pub data Conds (F : Type 0) : Type 0 where
    none_left : Conds F
    also : Cond F → Conds F → Conds F

module _ {F : Type 0} where
  abbrev one_key : String → Value F → Object F
  one_key k v = field k v empty

  -- The JSON form of a condition: a map with one key.
  unfoldable mutual
    pub encode : Cond F → Object F
    encode (compare op a b) = one_key (op_name op) (arr (cons a (cons b nil)))
    encode (exists path) = one_key "exists" (str path)
    encode (neg c) = one_key "not" (obj (encode c))
    encode (conj cs) = one_key "and" (arr (encode_all cs))
    encode (disj cs) = one_key "or" (arr (encode_all cs))

    pub encode_all : Conds F → Items F
    encode_all none_left = nil
    encode_all (also c cs) = cons (obj (encode c)) (encode_all cs)

module _ {F : Type 0} (rt : Runtime F) (shared params : Object F) (input : Value F) where
  compare_values : CompareOp → Value F → Value F → Bool
  compare_values eq a b = equal rt a b
  compare_values ne a b = not (equal rt a b)
  compare_values gt a b = is_more (cmp rt a b)
  compare_values lt a b = is_less (cmp rt a b)
  compare_values ge a b = not (is_less (cmp rt a b))
  compare_values le a b = not (is_more (cmp rt a b))
  compare_values member a b = has_element rt b a
  compare_values contains a b = has_element rt a b

  -- The truth value of a condition, by its structure.
  unfoldable mutual
    unfolding compare_values

    pub denote : Cond F → Bool
    denote (compare op a b) =
        compare_values op (resolve_val shared params input a) (resolve_val shared params input b)
    denote (exists path) = not (is_null (resolve_ref shared params input path))
    denote (neg c) = not (denote c)
    denote (conj cs) = denote_all cs
    denote (disj cs) = denote_any cs

    pub denote_all : Conds F → Bool
    denote_all none_left = true
    denote_all (also c cs) = denote c && denote_all cs

    pub denote_any : Conds F → Bool
    denote_any none_left = false
    denote_any (also c cs) = denote c || denote_any cs

  eval_compare :
      (op : CompareOp) (a b : Value F)
      → eval_expr rt shared params input (encode (compare op a b)) ≡ denote (compare op a b)
  unfolding eval_expr eval_leaf eval_pair encode denote
  eval_compare eq a b = refl
  eval_compare _ a b = refl

  mutual
    unfolding eval_expr encode denote

    eval-encode_lem : (c : Cond F) → eval_expr rt shared params input (encode c) ≡ denote c
    eval-encode_lem (compare op a b) = eval_compare op a b
    eval-encode_lem (exists path) = refl
    eval-encode_lem (neg c) = ap not (eval-encode_lem c)
    eval-encode_lem (conj cs) = eval_all-encode cs
    eval-encode_lem (disj cs) = eval_any-encode cs

    eval_all-encode :
        (cs : Conds F) → eval_all rt shared params input (encode_all cs) ≡ denote_all cs
    eval_all-encode none_left = refl
    eval_all-encode (also c cs) = ground (arith, eval-encode_lem c, eval_all-encode cs)

    eval_any-encode :
        (cs : Conds F) → eval_any rt shared params input (encode_all cs) ≡ denote_any cs
    eval_any-encode none_left = refl
    eval_any-encode (also c cs) = ground (arith, eval-encode_lem c, eval_any-encode cs)

  -- On the JSON form of a condition (comparisons, membership, exists, not, and, or, nested at
  -- will, one key to each map) evalExpr computes the truth value that the structure of the
  -- condition defines.
  pub eval_expr-encode : (c : Cond F) → eval_expr rt shared params input (encode c) ≡ denote c
  eval_expr-encode c = eval-encode_lem c
