-- ===== src/Worker.antt =====
-- The workers that come with the scheduler (cmd/worker, cmd/worker-async) and the functions that the
-- scheduler registers (pkg/engine/local_func.go): what they take from Go, as parameters.
pub mod Builtins
pub mod Http
pub mod Async
pub mod Registry
use pocket_flow_go.Prelude.{String}
use pocket_flow_go.Runtime.{Runtime}
use pocket_flow_go.Value.{Value}

pub record Toolkit (F : Type 0) : Type 0 where
  pub rt : Runtime F
  pub add : F → F → F
  pub mul : F → F → F
  pub upper : String → String  -- strings.ToUpper
  pub lower : String → String  -- strings.ToLower
  pub show : Value F → String  -- fmt.Sprintf("%v", x)
