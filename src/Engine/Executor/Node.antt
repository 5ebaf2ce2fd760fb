-- ===== src/Engine/Executor/Node.antt =====
-- The executor node: the dispatch, the retries and what follows a result
-- (pkg/engine/executor.go).
pub mod Laws
pub mod Output
pub mod Tries
pub mod Rows
use pocket_flow_go.Engine.{Engine, M, looping, pure, ◌>>=◌, ◌>>◌, hang}
use pocket_flow_go.Engine.Executor.Result.{ExecutorResult, ExecutorInput, failure, ok_or_error}
use pocket_flow_go.Flow.{TextMap, pick_action, Post}
use pocket_flow_go.Value.{put, Value, at, Object, obj, field, str, empty}
use pocket_flow_go.Engine.Core.{NodeRunInput, put_output, record_run, suspend_task, finish_node}
use pocket_flow_go.Engine.Executor.Http.{exec_http}
use pocket_flow_go.Prelude.{
  List, Option, String, ℕ, Bool, [], if◌then◌else◌, some, ◌∷◌, none, not, suc, ◌+◌, ◌==◌, ◌||◌,
  zero,
}
use pocket_flow_go.Engine.Executor.LocalFunc.{exec_local_func}
use pocket_flow_go.Error.{Err, err, err_string, is_pending, is_nil, text, is_fatal}
use pocket_flow_go.Engine.Executor.Script.{exec_local_script}
use pocket_flow_go.Engine.Executor.Queued.{exec_queue}
use pocket_flow_go.Prelude.Int.{ltb_ℤ, pos, pos_part}

-- How the retry loop ends: suspended, or with the last result.
pub data Attempted (F : Type 0) : Type 0 where
  suspended : Attempted F
  finished : ExecutorResult F → Attempted F

-- for toKey, fromField := range OutputMap { shared[toKey] = mm[fromField] }
unfoldable pub copy_fields : {F : Type 0} → List (String × String) → Object F → Object F → Object F
unfolding put at
copy_fields [] result shared = shared
copy_fields ((to, from) ∷ rest) result shared =
    copy_fields rest result (put to (at from result) shared)

-- The part of the output that `OutputMap` selects; only a map has parts.
unfoldable pub copy_output : {F : Type 0} → TextMap → Value F → Object F → Object F
unfolding copy_fields
copy_output (some fields) (obj m) shared = copy_fields fields m shared
copy_output _ _ shared = shared

unfoldable pub result_action : {F : Type 0} → Post → Value F → String
unfolding pick_action
result_action post res =
    if not (post.action_static == "")
    then post.action_static
    else if not (post.action_key == "")
    then pick_action res post.action_key
    else ""

module _ {F : Type 0} (e : Engine F) where
  unfoldable pub exec_executor : ExecutorInput F → M (ExecutorResult F)
  unfolding exec_http exec_local_func exec_local_script exec_queue
  exec_executor inp =
      if inp.node.exec_type == "" || inp.node.exec_type == "http"
      then exec_http e inp
      else if inp.node.exec_type == "local_func"
      then exec_local_func e inp
      else if inp.node.exec_type == "local_script"
      then exec_local_script e inp
      else if inp.node.exec_type == "queue"
      then exec_queue e inp
      else pure (failure "" "" (text "unsupported exec"))

  module _ (inp : NodeRunInput F) where
    abbrev exec_input : ExecutorInput F
    exec_input = record {
      task = inp.task;
      node = inp.node;
      node_key = inp.node_key;
      input = inp.input;
      params = inp.params;
    }

    unfoldable record_attempt : ℕ → ExecutorResult F → M (Unit {0})
    unfolding record_run err_string
    record_attempt attempt res =
        if res.skip_record
        then pure tt
        else record_run e inp.task inp.node_key attempt (ok_or_error res.error)
            (field "input_key" (str inp.node.prep.input_key) empty) inp.input res.result
            (err_string res.error) "" res.worker_id res.worker_url res.log_path

    -- attempts > MaxRetries
    abbrev exhausted : ℕ → Bool
    exhausted attempts = ltb_ℤ inp.node.max_retries (pos attempts)

    -- The `for` loop; `attempts` have been made.
    unfoldable pub attempt_rounds : ℕ → ℕ → M (Attempted F)
    unfolding exec_executor record_attempt
    attempt_rounds zero attempts = hang
    attempt_rounds (suc rounds) attempts = do
      let again = attempt_rounds rounds (attempts + 1)
      res ← exec_executor exec_input
      if is_pending res.error then pure suspended else (do
        record_attempt (attempts + 1) res
        if is_nil res.error || is_fatal res.error || exhausted (attempts + 1)
            then pure (finished res)
            else again)

    unfoldable pub output_shared : Value F → Object F
    unfolding copy_output put_output
    output_shared res =
        put_output inp.node.post.output_key res
          (copy_output inp.node.post.output_map res inp.shared)

    unfoldable finish_attempts : Attempted F → M (Option Err)
    unfolding suspend_task output_shared result_action finish_node
    finish_attempts suspended = suspend_task e inp.task "waiting_queue" inp.shared
    finish_attempts (finished res) = elim res.error [
      | none ↦
          finish_node e inp.task inp.flow_def inp.node_key (result_action inp.node.post res.result)
            (output_shared res.result) (inp.task.step_count + 1) none
      | some x ↦
          finish_node e inp.task inp.flow_def inp.node_key "" inp.shared (inp.task.step_count + 1)
            (some x)
    ]

    unfoldable pub run_executor_node : M (Option Err)
    unfolding attempt_rounds finish_attempts
    run_executor_node = do
      ended ← attempt_rounds (pos_part inp.node.max_retries + 1) 0
      finish_attempts ended
