-- ===== src/Runtime.antt =====
-- What the engine takes from Go on floating-point numbers and JSON: the parameters of the model.
-- `marshal` is the text of json.Marshal, empty on an error, which the engine ignores; `unmarshal`
-- is the value that json.Unmarshal stores in an `interface{}`.
use pocket_flow_go.Prelude.{Bool, String, Option}
use pocket_flow_go.Prelude.Int.{ℤ}
use pocket_flow_go.Value.{Value}

pub record Runtime (F : Type 0) : Type 0 where
  pub float_lt : F → F → Bool
  pub float_eq : F → F → Bool
  pub of_int : ℤ → F  -- float64(x)
  pub to_int : F → ℤ  -- int64(x)
  pub parse_float : String → Option F  -- strconv.ParseFloat(x, 64)
  pub format_float : F → String  -- fmt.Sprintf("%g", x)
  pub marshal : Value F → String
  pub unmarshal : String → Option (Value F)
