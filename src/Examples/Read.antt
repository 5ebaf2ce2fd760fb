-- ===== src/Examples/Read.antt =====
-- The theorems on expressions, paths and flows, applied.
use pocket_flow_go.Prelude.Decimal.{itoa}
use pocket_flow_go.Expr.Laws.{
  Cond, conj, also, encode, ge, denote, eval_expr-encode, neg, exists, none_left,
}
use pocket_flow_go.Value.{Object, Value, empty, field, obj, int, null, str}
use pocket_flow_go.Prelude.Text.{cut}
use pocket_flow_go.Expr.{eval_expr}
use pocket_flow_go.Path.{get_by_path, parse_segment}
use pocket_flow_go.Examples.{toy_runtime}
use pocket_flow_go.Prelude.Int.{ℤ, pos}
use pocket_flow_go.Prelude.{◌≡◌, some, refl, arith}
use pocket_flow_go.Path.Laws.{get_by_path-dotted}
use pocket_flow_go.Path.Segments.{parse_segment-with_index}

abbrev age_cond : Cond ℤ
age_cond = conj (
    also (Cond.compare ge (str "$shared.age") (int (pos 18)))
      (also (neg (exists "$shared.banned")) none_left))

abbrev person : Object ℤ
person = field "age" (int (pos 20)) empty

eval_expr-encode_example :
    eval_expr toy_runtime person empty null (encode age_cond)
    ≡ denote toy_runtime person empty null age_cond
eval_expr-encode_example = eval_expr-encode toy_runtime person empty null age_cond

nested_value : Value ℤ
nested_value = obj (field "a" (obj (field "b" (int (pos 3)) empty)) empty)

get_by_path-dotted_example :
    get_by_path nested_value "a.b" ≡ get_by_path (get_by_path nested_value "a") "b"
get_by_path-dotted_example = get_by_path-dotted nested_value "a" "b"

parse_segment-with_index_example : parse_segment "items[12]" ≡ ("items", some (pos 12))
unfolding cut itoa
parse_segment-with_index_example = parse_segment-with_index "items" 12 refl refl (omega arith)
