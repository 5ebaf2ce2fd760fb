-- ===== src/Engine/Executor/Node/Tries.antt =====
-- The executions of a visit of an executor node, said without the loop: each is recorded and
-- followed by the next while its error can be retried and retries are left.
use pocket_flow_go.Engine.Executor.Node.{exec_executor, exec_input, record_attempt}
use pocket_flow_go.Engine.{Engine, World, returned}
use pocket_flow_go.Engine.Core.{NodeRunInput}
use pocket_flow_go.Engine.Executor.Result.{ExecutorResult}
use pocket_flow_go.Error.{Err, async_pending, fatal}
use pocket_flow_go.Prelude.{Option, ℕ, some, ◌≡◌, ◌+◌, ◌<◌, none, ◌≤◌}
use pocket_flow_go.Prelude.Int.{pos_part}

-- Any error but the two sentinels may be retried.
abbrev pub CanRetry : Option Err → Type 0
CanRetry none = ⊥
CanRetry (some async_pending) = ⊥
CanRetry (some fatal) = ⊥
CanRetry (some x) = Unit

module _ {F : Type 0} (e : Engine F) (inp : NodeRunInput F) where
  -- After some executions, from a world, executions up to a number of them in all have been made, of
  -- which the last has come back with the result.
  pub data Tries : ℕ → World → ℕ → ExecutorResult F → Type 0 where
    last_try :
        {n : ℕ} {w v : World} {res : ExecutorResult F}
        → exec_executor e (exec_input e inp) w ≡ returned res v
        → Tries n w (n + 1) res
    tried_again :
        {n m : ℕ} {w v u : World} {first res : ExecutorResult F}
        → exec_executor e (exec_input e inp) w ≡ returned first v
        → CanRetry first.error
        → n + 1 ≤ pos_part inp.node.max_retries
        → record_attempt e inp (n + 1) first v ≡ returned tt u
        → Tries (n + 1) u m res
        → Tries n w m res

  -- The error is the end of it: it is fatal, or more executions were made than there are retries.
  abbrev pub IsFinal : ℕ → Err → Type 0
  IsFinal m async_pending = ⊥
  IsFinal m fatal = Unit
  IsFinal m x = pos_part inp.node.max_retries < m

  -- What the attempts end with.
  abbrev pub EndsWith : ℕ → Option Err → Type 0
  EndsWith m none = Unit
  EndsWith m (some x) = IsFinal m x
