-- ===== src/Engine/Waiting.antt =====
-- Nodes that wait: timers (pkg/engine/timer.go), events (pkg/engine/wait_event.go) and approvals
-- (pkg/engine/approval.go). Between two runs their state is in shared["_rt"].
pub mod Timer
pub mod Event
pub mod Approval
use pocket_flow_go.Runtime.{Runtime}
use pocket_flow_go.Value.{at, Value, string?, Object, float, int64, int}
use pocket_flow_go.Prelude.{String, none, some}
use pocket_flow_go.Prelude.Int.{ℤ, pos}

module _ {F : Type 0} (rt : Runtime F) where
  -- `int(v)` of a float64, an int as it is, and 0 for anything else
  unfoldable pub millis : Value F → ℤ
  millis (float x) = rt.to_int x
  millis (int n) = n
  millis _ = pos 0

  -- An int64, or a float64 that JSON made of it, and 0 for anything else
  unfoldable pub timestamp : Value F → ℤ
  timestamp (int64 n) = n
  timestamp (float x) = rt.to_int x
  timestamp _ = pos 0

-- v, ok := params[key].(string), and "" if it is none
unfoldable pub text_param : {F : Type 0} → String → Object F → String
unfolding at string?
text_param key params = elim (string? (at key params)) [ none ↦ "" | some s ↦ s ]
