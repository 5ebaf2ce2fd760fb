-- ===== src/Engine/Executor/Queued/Laws.antt =====
-- When the queue is asked again, and what an ended run answers.
use pocket_flow_go.Engine.Executor.Queued.{enqueue, answer_of}
use pocket_flow_go.Engine.{Engine, World, returned, M, pure}
use pocket_flow_go.Engine.Executor.Result.{ExecutorInput, failure, success, ExecutorResult}
use pocket_flow_go.Store.{Db, NodeRun}
use pocket_flow_go.Engine.Executor.Queued.{exec_queue, run_answer, last_run}
use pocket_flow_go.Prelude.{Option, ◌≡◌, some, ◌⊎◌, true, inl, inr, ap, refl, ◌∙◌, none}
use pocket_flow_go.Store.Runs.{list_node_runs}
use pocket_flow_go.Value.{Value}
use pocket_flow_go.Error.{async_pending, text}

module _ {F : Type 0} (e : Engine F) (inp : ExecutorInput F) where
  abbrev pub latest : Db → Option NodeRun
  latest db = last_run inp.node_key (list_node_runs inp.task.id db)

  abbrev answer_or_enqueue : Option (ExecutorResult F) → M (ExecutorResult F)
  answer_or_enqueue none = enqueue e inp
  answer_or_enqueue (some res) = pure res

  -- A node without a run is queued.
  pub unanswered : (w : World) → latest w.db ≡ none → exec_queue e inp w ≡ enqueue e inp w
  unfolding exec_queue
  unanswered w h = ap (λ a. answer_or_enqueue a w) (ap (answer_of e inp) h)

  answered :
      (w : World) (r : NodeRun) (res : ExecutorResult F)
      → latest w.db ≡ some r
      → run_answer e inp r ≡ some res
      → exec_queue e inp w ≡ returned res w
  unfolding exec_queue
  answered w r res h k = ap (λ a. answer_or_enqueue a w) (ap (answer_of e inp) h ∙ k)

  -- While the latest run of the node is queued or running, the queue executor answers that the
  -- task is pending and leaves the tables as they were, so nothing is queued twice.
  exec_queue-pending :
      (w : World) (r : NodeRun)
      → latest w.db ≡ some r
      → (r.status ≡ "queued") ⊎ (r.status ≡ "running")
      → exec_queue e inp w ≡ returned (failure "queue" "queue" async_pending) w
  unfolding run_answer
  exec_queue-pending w r h (inl q) = answered w r _ h (rw q refl)
  exec_queue-pending w r h (inr q) = answered w r _ h (rw q refl)

  -- Where the latest run of the node is ok and its output parses, the queue executor returns that
  -- output as the result, marked as recorded, and leaves the tables as they were.
  pub exec_queue-ok :
      (w : World) (r : NodeRun) (v : Value F)
      → latest w.db ≡ some r
      → r.status ≡ "ok"
      → e.rt.unmarshal r.exec_output_json ≡ some v
      → exec_queue e inp w
        ≡ returned (record (success v r.worker_id "queue" r.log_path) { skip_record = true }) w
  unfolding run_answer
  exec_queue-ok w r v h q parsed = answered w r _ h (rw (q, parsed) refl)

  -- Where the latest run of the node has failed, the queue executor returns its error, marked as
  -- recorded, and leaves the tables as they were: nothing is queued again.
  pub exec_queue-error :
      (w : World) (r : NodeRun)
      → latest w.db ≡ some r
      → r.status ≡ "error"
      → exec_queue e inp w
        ≡ returned
            (record (failure r.worker_id "queue" (text r.error_text)) {
              log_path = r.log_path;
              skip_record = true;
            })
            w
  unfolding run_answer
  exec_queue-error w r h q = answered w r _ h (rw q refl)
