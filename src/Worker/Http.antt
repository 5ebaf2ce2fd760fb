-- ===== src/Worker/Http.antt =====
-- The sample HTTP worker (cmd/worker/main.go). A handler is given the decoded request, `none` where
-- decoding fails. The counter of running requests is in Worker/Http/Load; the start-up is not modelled.
pub mod Laws
pub mod Load
use pocket_flow_go.Worker.{Toolkit}
use pocket_flow_go.Worker.Builtins.{float_or}
use pocket_flow_go.Value.{
  Items, Value, at, Object, arr, cons, float, null, str, nil, obj, field, empty,
}
use pocket_flow_go.Prelude.{Option, String, if◌then◌else◌, some, ◌==◌, none}
use pocket_flow_go.Prelude.Int.{pos}

pub record ExecRequest (F : Type 0) : Type 0 where
  pub input : Value F
  pub params : Object F

pub record ExecResponse (F : Type 0) : Type 0 where
  pub result : Value F
  pub error : String

module _ {F : Type 0} where
  abbrev pub answer : Value F → ExecResponse F
  answer v = record { result = v; error = "" }

  abbrev pub refuse : String → ExecResponse F
  refuse s = record { result = null; error = s }

  -- s, _ := v.(string)
  abbrev pub text_or : String → Value F → String
  text_or zero_value (str s) = s
  text_or zero_value _ = zero_value

module _ {F : Type 0} (k : Toolkit F) where
  transform : String → Object F → Value F → ExecResponse F
  transform op params (str s) =
      if op == "upper"
      then answer (str (k.upper s))
      else if op == "lower"
      then answer (str (k.lower s))
      else refuse "unsupported op"
  transform op params (float x) =
      answer (float (k.mul x (float_or k (k.rt.of_int (pos 1)) (at "mul" params))))
  transform op params _ = refuse "bad input"

  unfoldable pub transform_handler : Option (ExecRequest F) → ExecResponse F
  unfolding transform
  transform_handler none = refuse "bad request"
  transform_handler (some req) = transform (text_or "" (at "op" req.params)) req.params req.input

  -- One round of the loop over the array.
  unfoldable pub add_item : F → Value F → F
  add_item s (float x) = k.add s x
  add_item s (str t) = elim (k.rt.parse_float t) [ none ↦ s | some x ↦ k.add s x ]
  add_item s _ = s

  unfoldable pub sum_items : F → Items F → F
  unfolding add_item
  sum_items s nil = s
  sum_items s (cons v vs) = sum_items (add_item s v) vs

  unfoldable pub sum_of : Value F → ExecResponse F
  unfolding sum_items
  sum_of (arr xs) = answer (float (sum_items (k.rt.of_int (pos 0)) xs))
  sum_of _ = refuse "bad input"

  unfoldable pub sum_handler : Option (ExecRequest F) → ExecResponse F
  unfolding sum_of
  sum_handler none = refuse "bad request"
  sum_handler (some req) = sum_of req.input

abbrev action_of : String → String
action_of v = if v == "" then "goB" else v

module _ {F : Type 0} where
  unfoldable pub route_handler : Option (ExecRequest F) → ExecResponse F
  unfolding at
  route_handler none = refuse "bad request"
  route_handler (some req) =
      answer (obj (field "action" (str (action_of (text_or "" (at "action" req.params)))) empty))
