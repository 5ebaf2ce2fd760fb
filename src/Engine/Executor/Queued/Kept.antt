-- ===== src/Engine/Executor/Queued/Kept.antt =====
-- That the queue executor comes back, and changes no task.
use pocket_flow_go.Engine.Executor.Queued.{
  answer_of, enqueue, exec_queue, last_run, queued_run, queue_payload,
}
use pocket_flow_go.Engine.{Engine, World, unix, to_json}
use pocket_flow_go.Store.Queue.{enqueue_task, new_work}
use pocket_flow_go.Engine.Executor.Result.{ExecutorInput}
use pocket_flow_go.Prelude.{ℕ, String, ◌<>◌, Option-cases, inl, inr, suc, refl}
use pocket_flow_go.Engine.Core.Laws.{Ends}
use pocket_flow_go.Engine.Core.Kept.{Kept, Kept-trans, create_node_run-Kept}
use pocket_flow_go.Store.Runs.{create_node_run, list_node_runs}
use pocket_flow_go.Store.Sql.{insert_row}
use pocket_flow_go.Store.{QueueTask}
use pocket_flow_go.Error.{Result-cases}

enqueue_task-Kept :
    (now : ℕ) (id task_id node_key service input : String) (w : World)
    → Kept w (record w { db = (enqueue_task now id task_id node_key service input w.db).1 })
unfolding enqueue_task
enqueue_task-Kept now id task_id node_key service input w =
    elim (Option-cases (
      insert_row (λ (q : QueueTask). q.id) (new_work now id task_id node_key service input)
        w.db.task_queue)) [
          | inl h ↦ rw (enqueue_task, h) (refl, refl)
          | inr (rows, h) ↦ rw (enqueue_task, h) (refl, refl)
        ]

module _ {F : Type 0} (e : Engine F) (inp : ExecutorInput F) where
  enqueue-Kept : (w : World) → Ends (enqueue e inp w) (λ _ v. Kept w v)
  unfolding enqueue
  enqueue-Kept w =
      let run_id = "run" <> "-" <> e.uuid w.tick in
      let recorded : World = record {
        db = (create_node_run (queued_run e inp run_id (unix e (suc w.tick))) w.db).1;
        tick = suc (suc (suc (suc w.tick)));
      } in
      let now = unix e (suc (suc (suc w.tick))) in
      let id = "q" <> "-" <> e.uuid (suc (suc w.tick)) in
      let work = to_json e (queue_payload e inp run_id) in
      let queued = enqueue_task now id inp.task.id inp.node_key inp.node.service work recorded.db in
      let kept =
        Kept-trans w recorded (record recorded { db = queued.1 })
          (create_node_run-Kept (queued_run e inp run_id (unix e (suc w.tick))) w)
          (enqueue_task-Kept now id inp.task.id inp.node_key inp.node.service work recorded) in
      elim (Result-cases queued.0) [
        | inl (q, h) ↦ rw (Ends, h) kept
        | inr (x, h) ↦ rw (Ends, h) kept
      ]

  pub exec_queue-Kept : (w : World) → Ends (exec_queue e inp w) (λ _ v. Kept w v)
  unfolding exec_queue
  exec_queue-Kept w =
      elim (Option-cases
        (answer_of e inp (last_run inp.node_key (list_node_runs inp.task.id w.db)))) [
          | inl h ↦ rw (Ends, h) (enqueue-Kept w)
          | inr (res, h) ↦ rw (Ends, h) (refl, refl)
        ]
