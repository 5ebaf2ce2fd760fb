-- ===== src/Engine/Waiting/Timer.antt =====
-- Timers (pkg/engine/timer.go).
pub mod Laws
use pocket_flow_go.Engine.{Engine, M, ◌>>◌, pure, ◌>>=◌, now_milli}
use pocket_flow_go.Engine.Waiting.{millis, timestamp}
use pocket_flow_go.Engine.Core.{
  runtime_of, keep_runtime, put_output, clear_runtime, update_task_running, NodeRunInput,
  record_run, finish_node,
}
use pocket_flow_go.Prelude.Int.{ℤ, is_pos, leb_ℤ, pos, ◌-ℤ◌}
use pocket_flow_go.Value.{object?, at, Object, field, int, empty, null, int64}
use pocket_flow_go.Prelude.{ℕ, Bool, not, ◌||◌, Option, ◌<>◌, if◌then◌else◌, ◌+◌, none, some}
use pocket_flow_go.Error.{Err}

-- Whether the delay is over: delay <= 0 || now-start >= delay
unfoldable pub is_due : ℤ → ℤ → ℕ → Bool
is_due delay start now = not (is_pos delay) || leb_ℤ delay (pos now -ℤ start)

module _ {F : Type 0} (e : Engine F) where
  -- The timer has been started before.
  unfoldable resume_timer : NodeRunInput F → Object F → Object F → ℕ → M (Option Err)
  unfolding millis timestamp at is_due put_output clear_runtime record_run finish_node
      update_task_running
  resume_timer inp rt tm now =
      let key = "tm:" <> inp.node_key in
      let delay = millis e.rt (at "delay_ms" inp.params) in
      if is_due delay (timestamp e.rt (at "start" tm)) now
      then (do
        let action = inp.node.post.action_static
        let shared = clear_runtime key rt (put_output inp.node.post.output_key inp.input inp.shared)
        record_run e inp.task inp.node_key 1 "ok" (field "delay_ms" (int delay) empty) inp.input
            null "" action "" "" ""
        finish_node e inp.task inp.flow_def inp.node_key action shared (inp.task.step_count + 1)
            none)
      else (do update_task_running e inp.task inp.node_key inp.shared; pure none)

  unfoldable pub run_timer : NodeRunInput F → M (Option Err)
  unfolding runtime_of object? at resume_timer keep_runtime update_task_running
  run_timer inp = do
    let rt = runtime_of inp.shared
    let key = "tm:" <> inp.node_key
    now ← now_milli e
    elim (object? (at key rt)) [
      | some tm ↦ resume_timer inp rt tm now
      | none ↦ (do
        update_task_running e inp.task inp.node_key
            (keep_runtime key (field "start" (int64 (pos now)) empty) rt inp.shared)
        pure none)
    ]
