-- ===== src/Engine/Fanout/Sequence.antt =====
-- A visit of a parallel or foreach node that runs one branch after the other.
use pocket_flow_go.Prelude.{refl, inl, ◌≢◌, ◌⊎◌, inr}
use pocket_flow_go.Engine.{Engine, World, returned, ◌>>◌, pure}
use pocket_flow_go.Engine.Core.{
  NodeRunInput, keep_runtime, suspend_task, update_task_running, save_step,
}
use pocket_flow_go.Prelude.{String, Option, ◌+◌, ◌≡◌, none, some}
use pocket_flow_go.Engine.Fanout.{Progress, Branch, run_one, record_branch}
use pocket_flow_go.Store.{Task}
use pocket_flow_go.Value.{Object, put, obj, str, Value}
use pocket_flow_go.Engine.Executor.Result.{ExecutorResult}
use pocket_flow_go.Engine.Core.Laws.{
  Moved, Writable, Ends, Ends-continue, save_step-row, waiting-row, Ends-map,
}
use pocket_flow_go.Error.{Err, err_string, async_pending, message}
use pocket_flow_go.Engine.Executor.Node.{exec_executor}
use pocket_flow_go.Engine.Fanout.{take_result}
use pocket_flow_go.Store.Tasks.Laws.{find_task}
use pocket_flow_go.Engine.Fanout.Results.{Limited}
use pocket_flow_go.Engine.Core.Kept.{Ends-returned, Kept, find-Kept, Kept-trans}
use pocket_flow_go.Engine.Executor.Node.Rows.{exec_executor-Kept}
use pocket_flow_go.Engine.Fanout.Collection.{record_branch-Kept}
use pocket_flow_go.Engine.Core.SharedData.{Under, put-Under, Keeps, keep_runtime-Keeps}

module _ {F : Type 0} (e : Engine F) (inp : NodeRunInput F) (sub_status : String) where
  -- The branch is pending: the task waits for the queue, with its shared data as they were.
  abbrev pub Pauses : Task → World → Type 0
  Pauses r v =
      Moved e inp.task.id r "waiting_queue" inp.task.current_node_key inp.task.last_action
        inp.shared inp.task.step_count v

  -- The row stays at the node, running, with the value added under the branch's key to a field of the
  -- node's state.
  abbrev pub StaysWith :
      String → Progress F → String → Object F → String → Value F → Task → World → Type 0
  StaysWith key p name old branch value r v =
      (m slot shared : Object F) × Under branch value old m
      × Under name (obj m) p.slot slot
      × Keeps key slot p.rt inp.shared shared
      × Moved e inp.task.id r "running" inp.node_key "" shared (inp.task.step_count + 1) v

  -- What the branch's result does: it is kept, or it is pending, or its error is kept.
  abbrev pub Takes : String → Progress F → String → ExecutorResult F → Task → World → Type 0
  Takes key p branch res r v =
      ((res.error ≡ none) × StaysWith key p "done" p.done branch res.result r v)
      ⊎ ((res.error ≡ some async_pending) × Pauses r v)
      ⊎ ((x : Err) × (res.error ≡ some x)
          × (x ≢ async_pending)
          × StaysWith key p "errs" p.errs branch (str (message x)) r v)

  abbrev pub RunsOne : String → Progress F → Branch F → Task → World → Option Err → World → Type 0
  RunsOne key p b r w out v =
      (out ≡ none)
      × (res : ExecutorResult F) × (u : World) × (exec_executor e b.exec w ≡ returned res u)
      × Takes key p b.key res r v

  waiting-StaysWith :
      (key : String) (p : Progress F) (name : String) (old : Object F) (branch : String)
      (value : Value F) (r : Task) (w : World)
      → find_task inp.task.id w.db ≡ some r
      → Writable e r
      → Ends
          ((update_task_running e inp.task inp.node_key
                (keep_runtime key (put name (obj (put branch value old)) p.slot) p.rt inp.shared)
              >> pure {A = Option Err} none)
            w)
          (λ out v. (out ≡ none) × StaysWith key p name old branch value r v)
  waiting-StaysWith key p name old branch value r w found may =
      let m : Object F = put branch value old in
      let slot : Object F = put name (obj m) p.slot in
      Ends-map
        (λ out v.
          (out ≡ none)
          × Moved e inp.task.id r "running" inp.node_key "" (keep_runtime key slot p.rt inp.shared)
              (inp.task.step_count + 1) v)
        (λ out v. (out ≡ none) × StaysWith key p name old branch value r v) _
        (waiting-row e inp.task r w found inp.node_key (keep_runtime key slot p.rt inp.shared) may)
        (λ out v (fine, row). (
          fine,
          (
            m,
            slot,
            keep_runtime key slot p.rt inp.shared,
            put-Under branch value old,
            put-Under name (obj m) p.slot,
            keep_runtime-Keeps key slot p.rt inp.shared,
            row,
          ),
        ))

  error-Takes :
      (key : String) (p : Progress F) (b : Branch F) (res : ExecutorResult F) (x : Err) (r : Task)
      (w : World)
      → find_task inp.task.id w.db ≡ some r
      → Writable e r
      → res.error ≡ some x
      → x ≢ async_pending
      → Ends
          ((update_task_running e inp.task inp.node_key (
                keep_runtime key
                  (put "errs" (obj (put b.key (str (message x)) p.errs)) p.slot)
                  p.rt
                  inp.shared)
              >> pure {A = Option Err} none)
            w)
          (λ out v. (out ≡ none) × Takes key p b.key res r v)
  error-Takes key p b res x r w found may h differ =
      Ends-map (λ out v. (out ≡ none) × StaysWith key p "errs" p.errs b.key (str (message x)) r v)
        (λ out v. (out ≡ none) × Takes key p b.key res r v) _
        (waiting-StaysWith key p "errs" p.errs b.key (str (message x)) r w found may)
        (λ out v (fine, stays). (fine, inr (inr (x, h, differ, stays))))

  take_result-Takes :
      (key : String) (p : Progress F) (b : Branch F) (res : ExecutorResult F) (x : Option Err)
      (r : Task) (w : World)
      → find_task inp.task.id w.db ≡ some r
      → Writable e r
      → res.error ≡ x
      → Ends
          (take_result e inp sub_status key p b res x w)
          (λ out v. (out ≡ none) × Takes key p b.key res r v)
  unfolding take_result suspend_task err_string
  take_result-Takes key p b res none r w found may h =
      Ends-map (λ out v. (out ≡ none) × StaysWith key p "done" p.done b.key res.result r v)
        (λ out v. (out ≡ none) × Takes key p b.key res r v) _
        (waiting-StaysWith key p "done" p.done b.key res.result r w found may)
        (λ out v (fine, stays). (fine, inl (h, stays)))
  take_result-Takes key p b res (some async_pending) r w found may h =
      Ends-continue _ (λ out v. (out ≡ none) × Takes key p b.key res r v)
        (save_step e inp.task.id "waiting_queue" inp.task.current_node_key inp.task.last_action
          inp.shared inp.task.step_count w)
        (λ _. pure none)
        (save_step-row e inp.task.id r w found "waiting_queue" inp.task.current_node_key
          inp.task.last_action inp.shared inp.task.step_count may)
        (λ _ v row. (refl, inr (inl (h, row))))
  take_result-Takes key p b res (some x) r w found may h =
      error-Takes key p b res x r w found may h (λ same. cc)

  pub run_one-RunsOne :
      (key : String) (p : Progress F) (b : Branch F) (r : Task) (w : World)
      → Limited b
      → find_task inp.task.id w.db ≡ some r
      → Writable e r
      → Ends (run_one e inp sub_status key p b w) (RunsOne key p b r w)
  unfolding run_one
  run_one-RunsOne key p b r w (n, limit) found may =
      Ends-continue _ (RunsOne key p b r w) (exec_executor e b.exec w) _
        (Ends-returned _ _ (exec_executor-Kept e b.exec n limit w))
        (λ res v (kept, ran).
          Ends-continue (λ _ x. Kept v x) (RunsOne key p b r w)
            (record_branch e inp sub_status b res v) _ (record_branch-Kept e inp sub_status b res v)
            (λ _ x later.
              Ends-map (λ out y. (out ≡ none) × Takes key p b.key res r y) (RunsOne key p b r w) _
                (take_result-Takes key p b res res.error r x
                  (find-Kept inp.task.id r w x (Kept-trans w v x kept later) found) may refl)
                (λ out y (fine, takes). (fine, res, v, ran, takes))))
