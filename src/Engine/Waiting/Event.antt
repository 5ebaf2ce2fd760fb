-- ===== src/Engine/Waiting/Event.antt =====
-- Nodes that wait for a signal (pkg/engine/wait_event.go).
pub mod Laws
use pocket_flow_go.Engine.{Engine, M, ◌>>◌, pure, ◌>>=◌, now_milli}
use pocket_flow_go.Prelude.{
  String, Bool, ℕ, false, if◌then◌else◌, ◌&&◌, ◌==◌, Option, not, ◌<>◌, true, ◌+◌, none, some,
}
use pocket_flow_go.Value.{
  Value, put, Object, object?, at, field, str, empty, bool, obj, null, int64,
}
use pocket_flow_go.Engine.Waiting.{millis, timestamp, text_param}
use pocket_flow_go.Flow.{pick_action}
use pocket_flow_go.Engine.Core.{
  put_output, runtime_of, NodeRunInput, clear_runtime, keep_runtime, record_run,
  update_task_running, finish_node,
}
use pocket_flow_go.Prelude.Int.{ℤ, is_pos, leb_ℤ, pos, ◌-ℤ◌}
use pocket_flow_go.Path.{resolve_ref}
use pocket_flow_go.Error.{Err, text}

-- timeout > 0 && now-start >= timeout
unfoldable pub is_late : ℤ → ℤ → ℕ → Bool
is_late timeout start now = is_pos timeout && leb_ℤ timeout (pos now -ℤ start)

module _ {F : Type 0} (e : Engine F) where
  -- sig != nil && sig != "" && sig != false
  unfoldable pub is_signal : Value F → Bool
  is_signal null = false
  is_signal (str s) = not (s == "")
  is_signal (bool b) = b
  is_signal _ = true

  unfoldable pub signal_action : NodeRunInput F → Value F → String
  unfolding pick_action
  signal_action inp sig =
      if inp.node.post.action_static == "" && not (inp.node.post.action_key == "")
      then pick_action (obj (field "signal" sig empty)) inp.node.post.action_key
      else inp.node.post.action_static

  signal_prep : String → Object F
  signal_prep key = field "signal_key" (str key) empty

  unfoldable received : NodeRunInput F → Object F → String → Value F → M (Option Err)
  unfolding signal_action put_output clear_runtime record_run finish_node signal_prep
  received inp rt signal_key sig = do
    let key = "we:" <> inp.node_key
    let action = signal_action inp sig
    let shared = clear_runtime key rt (put_output inp.node.post.output_key sig inp.shared)
    record_run e inp.task inp.node_key 1 "ok" (signal_prep signal_key) inp.input sig "" action "" ""
        ""
    finish_node e inp.task inp.flow_def inp.node_key action shared (inp.task.step_count + 1) none

  unfoldable timed_out : NodeRunInput F → Object F → Object F → String → M (Option Err)
  unfolding put keep_runtime update_task_running clear_runtime record_run finish_node signal_prep
  timed_out inp rt we signal_key =
      let key = "we:" <> inp.node_key in
      let action = inp.node.post.action_static in
      let steps = inp.task.step_count + 1 in
      if inp.node.failure_strategy == "retry"
      then (do
        restart ← now_milli e
        update_task_running e inp.task inp.node_key
            (keep_runtime key (put "start" (int64 (pos restart)) we) rt inp.shared)
        pure none)
      else if inp.node.failure_strategy == "continue"
      then (do
        record_run e inp.task inp.node_key 1 "ok" (signal_prep signal_key) inp.input null "" action
            "" "" ""
        finish_node e inp.task inp.flow_def inp.node_key action (clear_runtime key rt inp.shared)
            steps none)
      else (do
        record_run e inp.task inp.node_key 1 "error" (signal_prep signal_key) inp.input null
            "timeout" action "" "" ""
        finish_node e inp.task inp.flow_def inp.node_key action (clear_runtime key rt inp.shared)
            steps (some (text "timeout")))

  -- The wait goes on, or the timeout has passed. The clock is read only if there is a timeout.
  unfoldable await : NodeRunInput F → Object F → Object F → String → M (Option Err)
  unfolding millis timestamp at is_late timed_out keep_runtime update_task_running
  await inp rt we signal_key =
      let timeout = millis e.rt (at "timeout_ms" inp.params) in
      let wait : M (Option Err) = (do
        update_task_running e inp.task inp.node_key
            (keep_runtime ("we:" <> inp.node_key) we rt inp.shared)
        pure none) in
      if is_pos timeout
      then (do
        now ← now_milli e
        if is_late timeout (timestamp e.rt (at "start" we)) now
            then timed_out inp rt we signal_key
            else wait)
      else wait

  unfoldable pub run_wait_event : NodeRunInput F → M (Option Err)
  unfolding runtime_of object? at text_param resolve_ref is_signal received await
  run_wait_event inp = do
    let rt = runtime_of inp.shared
    we ← elim (object? (at ("we:" <> inp.node_key) rt)) [
      | some we ↦ pure we
      | none ↦ (do now ← now_milli e; pure (field "start" (int64 (pos now)) empty))
    ]
    let signal_key = text_param "signal_key" inp.params
    let sig = resolve_ref inp.shared inp.params inp.input signal_key
    if is_signal sig then received inp rt signal_key sig else await inp rt we signal_key
