-- ===== src/Engine/Fanout.antt =====
-- What parallel and foreach nodes share: the runtime state of their branches, and the collection of
-- the results of branches that run at the same time (pkg/engine/parallel.go, the same code again in
-- pkg/engine/foreach.go). A branch runs to its end before the next; the order is the order in which
-- the results arrive on the channel.
pub mod Laws
pub mod Finish
pub mod Launch
pub mod Results
pub mod Round
pub mod Collection
pub mod Sequence
use pocket_flow_go.Flow.{DefNode, Script, ExecSpec, zero_node, Post, find_next}
use pocket_flow_go.Engine.{Engine, M, pure, ◌>>=◌, ◌>>◌, to_json}
use pocket_flow_go.Prelude.{
  List, Option, String, Bool, if◌then◌else◌, ℕ, ◌==◌, none, not, some, ◌∷◌, [], get_elem?, true,
  ◌||◌, ◌&&◌, ltb, ◌+◌, nat_eq, suc, zero,
}
use pocket_flow_go.Value.{
  Object, at, get, put, put_all, Value, object?, of_list, obj, field, arr, str, empty, size, has,
}
use pocket_flow_go.Engine.Executor.Node.{result_action, exec_executor}
use pocket_flow_go.Engine.Core.{
  runtime_of, NodeRunInput, keep_runtime, put_output, record_run_detailed, suspend_task,
  clear_runtime, update_task_running, record_run, save_step, finish_node,
}
use pocket_flow_go.Prelude.Int.{ℤ, is_pos, pos_part}
use pocket_flow_go.Engine.Executor.Result.{ExecutorInput, ExecutorResult, ok_or_error}
use pocket_flow_go.Error.{message, err_string, Err, async_pending, is_pending, text}

-- A branch: the key of its result, and what is executed and recorded.
pub record Branch (F : Type 0) : Type 0 where
  pub key : String
  pub exec : ExecutorInput F
  pub prep : Object F

-- done and errs, and the flags of the loop over the channel
pub record Collected (F : Type 0) : Type 0 where
  pub done : Object F
  pub errs : Object F
  pub had_err : Bool
  pub has_pending : Bool

-- The state of a node's branches.
pub record Progress (F : Type 0) : Type 0 where
  pub rt : Object F
  pub slot : Object F
  pub done : Object F
  pub errs : Object F

-- How many are launched at once.
unfoldable pub launch_count : ℤ → ℕ → ℕ
launch_count limit open_count =
    if not (is_pos limit) || ltb open_count (pos_part limit) then open_count else pos_part limit

-- xs[:n]; none where there are fewer elements, at which the slice panics.
unfoldable pub prefix : {A : Type 0} → ℕ → List A → Option (List A)
prefix zero xs = some []
prefix (suc n) [] = none
prefix (suc n) (x ∷ xs) = elim (prefix n xs) [ none ↦ none | some ys ↦ some (x ∷ ys) ]

unfoldable pub insert_at : {A : Type 0} → ℕ → A → List A → List A
insert_at zero x ys = x ∷ ys
insert_at (suc p) x [] = x ∷ []
insert_at (suc p) x (y ∷ ys) = y ∷ insert_at p x ys

-- The order in which the elements arrive: each behind so many of the later ones.
unfoldable pub arrange : {A : Type 0} → List ℕ → List A → List A
unfolding insert_at
arrange [] xs = xs
arrange (p ∷ ps) [] = []
arrange (p ∷ ps) (x ∷ xs) = insert_at p x (arrange ps xs)

module _ {F : Type 0} where
  -- The state under `key`, or a fresh one; `none` where `["done"]` or `["errs"]` is no map, at which
  -- the type assertion panics.
  unfoldable pub init_progress : String → Object F → Object F → Option (Progress F)
  unfolding runtime_of object? at
  init_progress key fresh shared =
      let rt = runtime_of shared in
      let slot : Object F = elim (object? (at key rt)) [ none ↦ fresh | some s ↦ s ] in
      elim (object? (at "done" slot)) [
        | none ↦ none
        | some done ↦ elim (object? (at "errs" slot)) [
          | none ↦ none
          | some errs ↦ some (record { rt = rt; slot = slot; done = done; errs = errs })
        ]
      ]

  -- pl["done"] = done; pl["errs"] = errs; rt[key] = pl; shared["_rt"] = rt
  unfoldable pub keep_progress : String → Progress F → Object F → Object F → Object F → Object F
  unfolding put keep_runtime
  keep_progress key p done errs shared =
      keep_runtime key (put "errs" (obj errs) (put "done" (obj done) p.slot)) p.rt shared

  -- neither in done nor in errs
  abbrev pub unsettled : Object F → Object F → String → Bool
  unsettled done errs k = not (has k done) && not (has k errs)

  -- The aggregate of a finished node: every key in order, nil where there is no result.
  unfoldable pub aggregate : List String → Object F → List (Value F)
  unfolding at
  aggregate [] done = []
  aggregate (k ∷ ks) done = at k done ∷ aggregate ks done

  -- The aggregate of a node that fails fast: the results that there are.
  unfoldable pub aggregate_done : List String → Object F → List (Value F)
  unfolding get
  aggregate_done [] done = []
  aggregate_done (k ∷ ks) done = elim (get k done) [
    | none ↦ aggregate_done ks done
    | some v ↦ v ∷ aggregate_done ks done
  ]

  -- Where one result goes.
  unfoldable pub store_result : String → ExecutorResult F → Collected F → Collected F
  unfolding put message
  store_result key res c = elim res.error [
    | none ↦ record c { done = put key res.result c.done }
    | some async_pending ↦ record c { has_pending = true }
    | some x ↦ record c { errs = put key (str (message x)) c.errs; had_err = true }
  ]

  -- The action of a node with several results.
  unfoldable pub fanout_action : Post → List (Value F) → String
  unfolding result_action of_list
  fanout_action post agg = result_action post (obj (field "result" (arr (of_list agg)) empty))

module _ {F : Type 0} (e : Engine F) (inp : NodeRunInput F) (sub_status : String) where
  unfoldable pub record_branch : Branch F → ExecutorResult F → M (Unit {0})
  unfolding record_run_detailed err_string
  record_branch b res =
      record_run_detailed e inp.task inp.node_key 1 (ok_or_error res.error) sub_status b.key b.prep
        b.exec.input res.result (err_string res.error) "" res.worker_id res.worker_url res.log_path

  -- The loop over the channel.
  unfoldable pub collect : List (Branch F) → Collected F → M (Collected F)
  unfolding exec_executor record_branch store_result
  collect [] c = pure c
  collect (b ∷ bs) c = do
    let rest = collect bs
    res ← exec_executor e b.exec
    if is_pending res.error then pure tt else record_branch b res
    rest (store_result b.key res c)

  -- handleFailFast
  unfoldable pub fail_fast : List String → Object F → Object F → M (Option Err)
  unfolding aggregate_done fanout_action put_output find_next save_step of_list
  fail_fast keys done shared = do
    let agg = aggregate_done keys done
    let action = fanout_action inp.node.post agg
    let next = find_next inp.flow_def.edges inp.node_key action
    save_step e inp.task.id (if next == "" then "failed" else "running") next action
        (put_output inp.node.post.output_key (arr (of_list agg)) shared) (inp.task.step_count + 1)
    pure none

  -- What follows the collection.
  unfoldable pub after_collection : String → Progress F → List String → Collected F → M (Option Err)
  unfolding keep_progress suspend_task fail_fast update_task_running
  after_collection key p keys c =
      let shared = keep_progress key p c.done c.errs inp.shared in
      if c.has_pending
      then suspend_task e inp.task "waiting_queue" shared
      else if inp.node.failure_strategy == "fail_fast" && c.had_err
      then fail_fast keys c.done shared
      else (do update_task_running e inp.task inp.node_key shared; pure none)

  -- What the result of a branch of the sequential mode does, by its error.
  unfoldable take_result :
      String → Progress F → Branch F → ExecutorResult F → Option Err → M (Option Err)
  unfolding suspend_task keep_runtime put err_string update_task_running
  take_result key p b res none = do
    update_task_running e inp.task inp.node_key
        (keep_runtime key (put "done" (obj (put b.key res.result p.done)) p.slot) p.rt inp.shared)
    pure none
  take_result key p b res (some async_pending) = suspend_task e inp.task "waiting_queue" inp.shared
  take_result key p b res (some x) = do
    update_task_running e inp.task inp.node_key (
        keep_runtime key (put "errs" (obj (put b.key (str (err_string (some x))) p.errs)) p.slot)
          p.rt inp.shared)
    pure none

  -- One branch of the sequential mode.
  unfoldable pub run_one : String → Progress F → Branch F → M (Option Err)
  unfolding exec_executor record_branch take_result
  run_one key p b = do
    res ← exec_executor e b.exec
    record_branch b res
    take_result key p b res res.error

  -- finishParallelNode and finishForeachNode, but for the text of the error
  unfoldable pub finish_branches : String → Progress F → List String → String → M (Option Err)
  unfolding aggregate fanout_action put_output clear_runtime record_run finish_node size of_list
  finish_branches key p keys failure_text =
      let agg = aggregate keys p.done in
      let action = fanout_action inp.node.post agg in
      let shared =
        clear_runtime key p.rt
          (put_output inp.node.post.output_key (arr (of_list agg)) inp.shared) in
      let fine = nat_eq (size p.errs) 0 || inp.node.failure_strategy == "continue" in
      do
        record_run e inp.task inp.node_key 1 (if fine then "ok" else "error")
            (field "input_key" (str inp.node.prep.input_key) empty) inp.input (arr (of_list agg))
            (if fine then "" else to_json e (obj p.errs)) action "" "" ""
        finish_node e inp.task inp.flow_def inp.node_key action shared (inp.task.step_count + 1)
            (if fine then none else some (text failure_text))

-- The fields of a node that a branch starts from (`prepareExecution`).
unfoldable pub branch_node : {F : Type 0} → DefNode F → String → DefNode F
branch_node node service = record zero_node {
  service = service;
  exec_type = node.exec_type;
  func = node.func;
  script = node.script;
  weighted_by_load = node.weighted_by_load;
  max_attempts = node.max_attempts;
  attempt_delay_millis = node.attempt_delay_millis;
}

abbrev pub non_empty_or : String → String → String
non_empty_or a b = if a == "" then b else a

abbrev pub script_or : Script → Script → Script
script_or a b = if a.cmd == "" then b else a

-- A specification over such a node, and its parameters over the call's.
unfoldable pub override_node : {F : Type 0} → Option (ExecSpec F) → DefNode F → DefNode F
override_node none use_node = use_node
override_node (some sp) use_node = record use_node {
  exec_type = non_empty_or sp.exec_type use_node.exec_type;
  func = non_empty_or sp.func use_node.func;
  script = script_or sp.script use_node.script;
}

unfoldable pub override_params : {F : Type 0} → Option (ExecSpec F) → Object F → Object F
unfolding put_all
override_params none params = params
override_params (some sp) params = put_all sp.params params
