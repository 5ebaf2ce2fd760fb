-- ===== src/Worker/Builtins.antt =====
-- The registered functions "upper", "log_result" and "mul" (pkg/engine/local_func.go).
use pocket_flow_go.Worker.{Toolkit}
use pocket_flow_go.Prelude.{Option, String, ℕ, if◌then◌else◌, some, ◌==◌, none}
use pocket_flow_go.Value.{Value, at, Object, float, str, get}
use pocket_flow_go.Error.{Result, ok, err, text}
use pocket_flow_go.Prelude.Int.{pos}

module _ {F : Type 0} (k : Toolkit F) where
  abbrev from_params : Option (Value F) → Result (Value F)
  from_params (some (str s)) = ok (str (k.upper s))
  from_params _ = err (text "expected string input")

  unfoldable pub upper_func : Value F → Object F → Result (Value F)
  upper_func (str s) params = ok (str (k.upper s))
  upper_func _ params = from_params (get "text" params)

  unfoldable pub log_result_func : Value F → Object F → Result (Value F)
  log_result_func input params = ok input

  abbrev pub float_or : F → Value F → F
  float_or zero_value (float x) = x
  float_or zero_value _ = zero_value

  unfoldable pub mul_func : Value F → Object F → Result (Value F)
  unfolding at
  mul_func input params = ok (
      float (
        k.mul (float_or (k.rt.of_int (pos 0)) input)
          (float_or (k.rt.of_int (pos 1)) (at "mul" params))))

  -- RegisterFunc in cmd/scheduler/main.go; the context and the time of a call play no part.
  unfoldable pub local_funcs : String → Option (ℕ → Value F → Object F → Result (Value F))
  unfolding upper_func log_result_func mul_func
  local_funcs name =
      if name == "mul"
      then some (λ n. mul_func)
      else if name == "upper"
      then some (λ n. upper_func)
      else if name == "log_result"
      then some (λ n. log_result_func)
      else none
