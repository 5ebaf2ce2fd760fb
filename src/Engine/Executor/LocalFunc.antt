-- ===== src/Engine/Executor/LocalFunc.antt =====
-- Execution by a registered function (pkg/engine/executor_local_func.go).
pub mod Laws
use pocket_flow_go.Engine.{Engine, M, pure, ◌>>=◌, ask, hang}
use pocket_flow_go.Engine.Executor.Result.{ExecutorInput, ExecutorResult, failure, success, goes_on}
use pocket_flow_go.Prelude.{ℕ, none, suc, ◌+◌, some, ◌<>◌, if◌then◌else◌, zero}
use pocket_flow_go.Value.{Value, Object}
use pocket_flow_go.Error.{Result, fatal, ok, err, text}
use pocket_flow_go.Prelude.Int.{pos_part}

module _ {F : Type 0} (e : Engine F) (inp : ExecutorInput F) where
  -- The retry loop: `rounds` bounds the rounds, and the loop counts as endless behind them.
  unfoldable call_rounds :
      (ℕ → Value F → Object F → Result (Value F)) → ℕ → ℕ → M (ExecutorResult F)
  call_rounds fn zero attempts = hang
  call_rounds fn (suc rounds) attempts = do
    let again = call_rounds fn rounds (attempts + 1)
    res ← ask (λ n. fn n inp.input inp.params)
    elim res [
      | ok v ↦ pure (success v ("local-func:" <> inp.node.func) "local" "")
      | err x ↦
          if goes_on inp.node.max_attempts (attempts + 1)
          then again
          else pure (failure ("local-func:" <> inp.node.func) "local" (text "failed"))
    ]

  unfoldable pub exec_local_func : M (ExecutorResult F)
  unfolding call_rounds
  exec_local_func = elim (e.local_funcs inp.node.func) [
    | none ↦ pure (failure "" "" fatal)
    | some fn ↦ call_rounds fn (pos_part inp.node.max_attempts + e.patience + 1) 0
  ]
