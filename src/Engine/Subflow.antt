-- ===== src/Engine/Subflow.antt =====
-- Embedded flows (pkg/engine/subflow.go). One run of the node executes one sub-node; between two
-- runs the cursor and the inner shared map are in shared["_rt"].
pub mod Config
pub mod Laws
use pocket_flow_go.Engine.{Engine, M, ◌>>=◌, ◌>>◌, now_milli, panic, pure}
use pocket_flow_go.Value.{
  Object, Value, empty, object?, at, null, put, obj, string?, field, str, int64, int,
}
use pocket_flow_go.Prelude.{
  Option, String, Bool, some, if◌then◌else◌, none, ◌&&◌, ◌+◌, ◌<>◌, ◌==◌, not, ◌||◌, false, ◌∷◌,
  true, [],
}
use pocket_flow_go.Flow.{Post, EmbeddedFlow, find_next, node_at, DefNode, zero_node}
use pocket_flow_go.Engine.Executor.Node.{copy_output, result_action, exec_executor}
use pocket_flow_go.Engine.Core.{
  runtime_of, NodeRunInput, put_output, clear_runtime, finish_node, keep_runtime, record_run,
  record_run_detailed, suspend_task, update_task_running,
}
use pocket_flow_go.Engine.Waiting.{millis, timestamp}
use pocket_flow_go.Prelude.Int.{ℤ, ◌+ℤ◌, is_pos, pos, leb_ℤ, ltb_ℤ}
use pocket_flow_go.Error.{Err, err_string, async_pending}
use pocket_flow_go.Engine.Subflow.Config.{sub_params, sub_input, sub_config}
use pocket_flow_go.Engine.Executor.Result.{ExecutorResult, ok_or_error}

-- The state of the embedded flow; `sub_shared` is `none` where the map is nil.
pub record SubState (F : Type 0) : Type 0 where
  pub rt : Object F
  pub slot : Object F
  pub curr_sub : String
  pub sub_shared : Option (Object F)

abbrev pub readable : {F : Type 0} → Option (Object F) → Object F
readable none = empty
readable (some m) = m

-- A nil map is stored as null.
abbrev pub storable : {F : Type 0} → Option (Object F) → Value F
storable none = null
storable (some m) = obj m

module _ {F : Type 0} where
  unfoldable pub init_subflow : String → String → Object F → SubState F
  unfolding runtime_of object? at string?
  init_subflow key start shared =
      let rt = runtime_of shared in
      let fresh =
        field "curr" (str start) (field "shared" (obj empty) (field "last" (str "") empty)) in
      let slot : Object F = elim (object? (at key rt)) [ none ↦ fresh | some s ↦ s ] in
      record {
        rt = rt;
        slot = slot;
        curr_sub = elim (string? (at "curr" slot)) [ none ↦ "" | some s ↦ s ];
        sub_shared = object? (at "shared" slot);
      }

  -- Whether a success writes to the inner map.
  writes : Post → Value F → Bool
  writes post (obj m) =
      not (post.output_key == "")
      || elim post.output_map [ none ↦ false | some [] ↦ false | some (f ∷ fs) ↦ true ]
  writes post _ = not (post.output_key == "")

  -- The inner map after a success; `none` for the panic of a write to a nil map.
  unfoldable pub process_success : Post → Value F → Option (Object F) → Option (Option (Object F))
  unfolding copy_output put_output writes
  process_success post res (some m) =
      some (some (put_output post.output_key res (copy_output post.output_map res m)))
  process_success post res none = if writes post res then none else some none

module _ {F : Type 0} (e : Engine F) (inp : NodeRunInput F) (key : String) (st : SubState F) where
  -- Whether the next try is still to wait for; the clock is read only with the retry strategy.
  retry_delayed : M Bool
  unfolding timestamp at
  retry_delayed =
      if inp.node.failure_strategy == "retry"
      then (do
        now ← now_milli e
        let next_try = timestamp e.rt (at "next_try_at" st.slot)
        pure (is_pos next_try && ltb_ℤ (pos now) next_try))
      else pure false

  wait_for_retry : M (Option Err)
  unfolding keep_runtime update_task_running
  wait_for_retry = do
    update_task_running e inp.task inp.node_key (keep_runtime key st.slot st.rt inp.shared)
    pure none

  -- finishSubflow: there is no current sub-node; the runtime state stays
  finish_empty : M (Option Err)
  unfolding record_run finish_node
  finish_empty = do
    record_run e inp.task inp.node_key 1 "ok"
        (field "input_key" (str inp.node.prep.input_key) empty) null null ""
        inp.node.post.action_static "" "" ""
    finish_node e inp.task inp.flow_def inp.node_key inp.node.post.action_static inp.shared
        (inp.task.step_count + 1) none

  -- The action of the whole node, from the inner map.
  unfoldable pub outer_action : Option (Object F) → String
  unfolding result_action
  outer_action sub = result_action inp.node.post (obj (readable sub))

  unfoldable pub outer_shared : Option (Object F) → Object F
  unfolding clear_runtime put_output
  outer_shared sub =
      clear_runtime key st.rt (put_output inp.node.post.output_key (storable sub) inp.shared)

  finish_failure : Err → M (Option Err)
  unfolding outer_action outer_shared finish_node
  finish_failure x =
      finish_node e inp.task inp.flow_def inp.node_key (outer_action st.sub_shared)
        (outer_shared st.sub_shared) (inp.task.step_count + 1)
        (if inp.node.failure_strategy == "continue" then none else some x)

  finish_success : Option (Object F) → M (Option Err)
  unfolding outer_action outer_shared finish_node
  finish_success sub =
      finish_node e inp.task inp.flow_def inp.node_key (outer_action sub) (outer_shared sub)
        (inp.task.step_count + 1) none

  -- An int, or a float64 that JSON made of it
  retries_of : ℤ
  unfolding millis at
  retries_of = millis e.rt (at "retries" st.slot)

  abbrev retry_count : ℤ
  retry_count = retries_of +ℤ pos 1

  -- MaxRetries > 0 && rcount >= MaxRetries
  unfoldable pub retries_used_up : Bool
  unfolding retries_of
  retries_used_up = is_pos inp.node.max_retries && leb_ℤ inp.node.max_retries retry_count

  -- The state with the new count, and the time of the next try if there is a delay.
  retry_slot : M (Object F)
  unfolding put retries_of
  retry_slot =
      if is_pos inp.node.wait_millis
      then (do
        now ← now_milli e
        pure (
            put "next_try_at" (int64 (pos now +ℤ inp.node.wait_millis))
              (put "retries" (int retry_count) st.slot)))
      else pure (put "retries" (int retry_count) st.slot)

  schedule_retry : Err → M (Option Err)
  unfolding retry_slot retries_used_up finish_failure keep_runtime update_task_running
  schedule_retry x = do
    slot ← retry_slot
    if retries_used_up then finish_failure x else (do
      update_task_running e inp.task inp.node_key (keep_runtime key slot st.rt inp.shared)
      pure none)

  sub_failed : Err → M (Option Err)
  unfolding suspend_task schedule_retry finish_failure
  sub_failed async_pending = suspend_task e inp.task "waiting_queue" inp.shared
  sub_failed x = if inp.node.failure_strategy == "retry" then schedule_retry x else finish_failure x

  -- The cursor moves on, or the embedded flow ends.
  advance : EmbeddedFlow F → String → Option (Object F) → M (Option Err)
  unfolding find_next finish_success put keep_runtime update_task_running
  advance flow sub_action sub =
      let next_sub = find_next flow.edges st.curr_sub sub_action in
      if next_sub == "" then finish_success sub else (do
        update_task_running e inp.task inp.node_key (
            keep_runtime key (put "shared" (storable sub) (put "curr" (str next_sub) st.slot)) st.rt
              inp.shared)
        pure none)

  record_sub : DefNode F → Value F → ExecutorResult F → String → M (Unit {0})
  unfolding record_run_detailed err_string
  record_sub sn sub_input res sub_action =
      record_run_detailed e inp.task inp.node_key 1 (ok_or_error res.error) "sub_node_complete"
        st.curr_sub
        (field "input_key" (str sn.prep.input_key) (field "sub" (str st.curr_sub) empty)) sub_input
        res.result (err_string res.error) sub_action res.worker_id res.worker_url res.log_path

  unfoldable pub sub_finished :
      EmbeddedFlow F → DefNode F → Value F → ExecutorResult F → M (Option Err)
  unfolding process_success result_action record_sub sub_failed advance
  sub_finished flow sn sub_input res = elim res.error [
    | some x ↦ (do record_sub sn sub_input res ""; sub_failed x)
    | none ↦ elim (process_success sn.post res.result st.sub_shared) [
      | none ↦ panic
      | some sub ↦ (do
        let action = result_action sn.post res.result
        record_sub sn sub_input res action
        advance flow action sub)
    ]
  ]

  run_sub_node : EmbeddedFlow F → M (Option Err)
  unfolding node_at sub_params sub_input sub_config exec_executor sub_finished
  run_sub_node flow = do
    let sn = node_at zero_node st.curr_sub flow.nodes
    let params = sub_params inp.node sn inp.params st.curr_sub
    let input = sub_input sn params (readable st.sub_shared)
    res ← exec_executor e (record {
      task = inp.task;
      node = sub_config inp.node st.curr_sub sn;
      node_key = inp.node_key;
      input = input;
      params = params;
    })
    sub_finished flow sn input res

  subflow_step : EmbeddedFlow F → M (Option Err)
  unfolding retry_delayed wait_for_retry finish_empty run_sub_node
  subflow_step flow = do
    delayed ← retry_delayed
    if delayed
        then wait_for_retry
        else if st.curr_sub == ""
        then finish_empty
        else run_sub_node flow

unfoldable pub run_subflow :
    {F : Type 0} → Engine F → NodeRunInput F → EmbeddedFlow F → M (Option Err)
unfolding init_subflow subflow_step
run_subflow e inp flow =
    let key = "sf:" <> inp.node_key in
    subflow_step e inp key (init_subflow key flow.start inp.shared) flow
