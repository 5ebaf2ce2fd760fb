-- ===== src/Engine/Executor/Queued/Enqueue.antt =====
-- What the first execution of a node leaves in the tables: a queued run and open work.
use pocket_flow_go.Engine.{Engine, World, unix, to_json, returned}
use pocket_flow_go.Engine.Executor.Result.{ExecutorInput, failure}
use pocket_flow_go.Engine.Executor.Queued.{exec_queue, enqueue, queued_run, queue_payload}
use pocket_flow_go.Prelude.{
  ◌++◌, String, ◌<>◌, ◌∷◌, [], suc, ◌≡◌, none, any, ◌==◌, false, ◌∙◌, ℕ, refl,
}
use pocket_flow_go.Store.{NodeRun, QueueTask, Db}
use pocket_flow_go.Store.Runs.{create_node_run}
use pocket_flow_go.Store.Queue.{new_work, enqueue_task}
use pocket_flow_go.Store.Sql.{insert_row}
use pocket_flow_go.Engine.Executor.Queued.Laws.{latest, unanswered}
use pocket_flow_go.Error.{async_pending, ok}

create_node_run-fresh :
    (nr : NodeRun) (db : Db)
    → any (λ (r : NodeRun). r.id == nr.id) db.node_runs ≡ false
    → create_node_run nr db ≡ (ok tt, record db { node_runs = db.node_runs ++ nr ∷ [] })
unfolding create_node_run insert_row
create_node_run-fresh nr db fresh = rw (create_node_run, insert_row, fresh) refl

enqueue_task-fresh :
    (now : ℕ) (id task_id node_key service input : String) (db : Db)
    → any (λ (q : QueueTask). q.id == id) db.task_queue ≡ false
    → enqueue_task now id task_id node_key service input db ≡ (
      ok id,
      record db {
        task_queue = db.task_queue ++ new_work now id task_id node_key service input ∷ [];
      },
    )
unfolding enqueue_task insert_row
enqueue_task-fresh now id task_id node_key service input db fresh =
    rw (enqueue_task, insert_row, fresh) refl

module _ {F : Type 0} (e : Engine F) (inp : ExecutorInput F) where
  abbrev pub new_run_id : World → String
  new_run_id w = "run" <> "-" <> e.uuid w.tick

  abbrev pub new_queue_id : World → String
  new_queue_id w = "q" <> "-" <> e.uuid (suc (suc w.tick))

  abbrev pub first_run : World → NodeRun
  first_run w = queued_run e inp (new_run_id w) (unix e (suc w.tick))

  abbrev pub first_work : World → QueueTask
  first_work w =
      new_work (unix e (suc (suc (suc w.tick)))) (new_queue_id w) inp.task.id inp.node_key
        inp.node.service (to_json e (queue_payload e inp (new_run_id w)))

  abbrev pub enqueued : World → World
  enqueued w = record {
    db = record w.db {
      node_runs = w.db.node_runs ++ first_run w ∷ [];
      task_queue = w.db.task_queue ++ first_work w ∷ [];
    };
    tick = suc (suc (suc (suc w.tick)));
  }

  enqueue-stores :
      (w : World)
      → any (λ (r : NodeRun). r.id == new_run_id w) w.db.node_runs ≡ false
      → any (λ (q : QueueTask). q.id == new_queue_id w) w.db.task_queue ≡ false
      → enqueue e inp w ≡ returned (failure "queue" "queue" async_pending) (enqueued w)
  unfolding enqueue queued_run
  enqueue-stores w fresh_run fresh_work =
      let queued = record w.db { node_runs = w.db.node_runs ++ first_run w ∷ [] } in
      rw
        (
          create_node_run-fresh (first_run w) w.db fresh_run,
          enqueue_task-fresh (unix e (suc (suc (suc w.tick)))) (new_queue_id w) inp.task.id
              inp.node_key inp.node.service (to_json e (queue_payload e inp (new_run_id w))) queued
              fresh_work,
        )
        refl

  -- Where the node of the call has no run and the drawn ids are new, the queue executor answers that
  -- the task is pending, and has added a queued run and pending work.
  pub exec_queue-first :
      (w : World)
      → latest e inp w.db ≡ none
      → any (λ (r : NodeRun). r.id == new_run_id w) w.db.node_runs ≡ false
      → any (λ (q : QueueTask). q.id == new_queue_id w) w.db.task_queue ≡ false
      → exec_queue e inp w ≡ returned (failure "queue" "queue" async_pending) (enqueued w)
  exec_queue-first w first fresh_run fresh_work =
      unanswered e inp w first ∙ enqueue-stores w fresh_run fresh_work
