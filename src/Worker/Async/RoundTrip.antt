-- ===== src/Worker/Async/RoundTrip.antt =====
-- The way of work through the queue: the engine queues it, a worker takes, executes and completes it,
-- and the engine returns its result.
use pocket_flow_go.Prelude.{
  List, String, any, select, ◌≡◌, [], false, true, arith, some, ◌==◌, refl, eq_iff, ◌∙◌, ap, none,
  ◌≢◌, sym,
}
use pocket_flow_go.Store.{QueueTask, Task, NodeRun}
use pocket_flow_go.Store.Queue.{is_open, claim}
use pocket_flow_go.Store.Sql.Laws.{All-map}
use pocket_flow_go.Engine.{Engine, Outcome, World, to_json, returned, unix}
use pocket_flow_go.Engine.Executor.Result.{ExecutorInput, ExecutorResult, success, failure}
use pocket_flow_go.Worker.Async.{
  AsyncWorker, Payload, execute, Work, run_service, async_round, worked,
}
use pocket_flow_go.Value.{Value}
use pocket_flow_go.Engine.Executor.Queued.{queued_run, queue_payload, exec_queue}
use pocket_flow_go.Engine.Executor.Queued.Latest.{RunsAre, latest-RunsAre, RunsAre-insert}
use pocket_flow_go.Worker.Async.Laws.{Ready, WorkedOut, Reported, async_round-WorkedOut}
use pocket_flow_go.Engine.Executor.Queued.Laws.{latest, exec_queue-ok, exec_queue-error}
use pocket_flow_go.Error.{ok, async_pending, Result, err, message, text}
use pocket_flow_go.Engine.Executor.Queued.Enqueue.{
  new_run_id, new_queue_id, enqueued, first_work, first_run, exec_queue-first,
}
use pocket_flow_go.Store.Tasks.Laws.{find_task}
use pocket_flow_go.Path.{is_null}
use pocket_flow_go.Engine.Core.Laws.{Ends, Ends-map}
use pocket_flow_go.Worker.Async.Served.{server_api, work_of}
use pocket_flow_go.Worker.Async.Handed.{poll_queue-single, after_poll, handed_out, find-after_poll}

module _ {F : Type 0} (e : Engine F) (inp : ExecutorInput F) (a : AsyncWorker F) where
  abbrev pub text_of : World → String
  text_of w = to_json e (queue_payload e inp (new_run_id e inp w))

  abbrev pub given : Payload F
  given = record { input = inp.input; params = inp.params }

  -- What the node's last run gives: the result, or the error.
  abbrev pub answer_of_run : Result (Value F) → String → ExecutorResult F
  answer_of_run (ok v) path = record (success v "queue" "queue" path) { skip_record = true }
  answer_of_run (err x) path = record (failure "queue" "queue" (text (message x))) {
    log_path = path;
    skip_record = true;
  }

  -- The work returns as the answer of the node.
  abbrev pub Returns : Result (Value F) → Outcome (ExecutorResult F) → World → Type 0
  Returns r o u = (path : String) × (o ≡ returned (answer_of_run r path) u)

  -- What can come back: a result that is not nil and that JSON reads back, or an error with a text.
  abbrev pub Readable : Result (Value F) → Type 0
  Readable (ok v) = (is_null v ≡ false) × (e.rt.unmarshal (to_json e v) ≡ some v)
  Readable (err x) = message x ≢ ""

  execute-given :
      (work : Work) (s : String) (r : Result (Value F))
      → work.input_json ≡ s
      → work.service ≡ inp.node.service
      → a.payload_of s ≡ ok given
      → run_service a inp.node.service given ≡ r
      → execute a work ≡ r
  unfolding execute
  execute-given work s r same_text same_service decodes runs =
      let decoded : a.payload_of work.input_json ≡ ok given = ap a.payload_of same_text ∙ decodes in
      rw (execute, decoded) (ap (λ service. run_service a service given) same_service ∙ runs)

  result-Returns :
      (r : Result (Value F)) (u : World)
      → RunsAre (Reported e a r) inp.task.id inp.node_key u.db.node_runs
      → Readable r
      → Returns r (exec_queue e inp u) u
  result-Returns (ok v) u runs (real, reads) =
      let (r, found, ended) =
        latest-RunsAre (Reported e a (ok v)) inp.task.id inp.node_key u.db runs in
      let stored : r.exec_output_json ≡ to_json e v = ended.1 ∙ (rw real refl) in
      let answer = exec_queue-ok e inp u r v found ended.0 (ap e.rt.unmarshal stored ∙ reads) in
      (
        r.log_path,
        answer
            ∙ ap
                (λ worker.
                  returned (record (success v worker "queue" r.log_path) { skip_record = true }) u)
                ended.2,
      )
  result-Returns (err x) u runs named =
      let (r, found, ended) =
        latest-RunsAre (Reported e a (err x)) inp.task.id inp.node_key u.db runs in
      let failed : (message x == "") ≡ false = ground (arith, eq_iff (message x) "") in
      let answer = exec_queue-error e inp u r found (ended.0 ∙ (rw failed refl)) in
      (
        r.log_path,
        answer
            ∙ ap
                (λ worker.
                  returned
                    (record (failure worker "queue" (text r.error_text)) {
                      log_path = r.log_path;
                      skip_record = true;
                    })
                    u)
                ended.2
            ∙ ap
                (λ s.
                  returned
                    (record (failure "queue" "queue" (text s)) {
                      log_path = r.log_path;
                      skip_record = true;
                    })
                    u)
                ended.1,
      )

  -- The queued run is the one that the work names.
  first_queued :
      (w : World) (rows : List NodeRun)
      → a.run_id_of (text_of w) ≡ new_run_id e inp w
      → RunsAre (λ r. r ≡ first_run e inp w) inp.task.id inp.node_key rows
      → RunsAre
          (λ r. (r.id ≡ a.run_id_of (text_of w)) × (r.worker_id ≡ "queue"))
          inp.task.id
          inp.node_key
          rows
  unfolding queued_run
  first_queued w rows names only = (
    only.0,
    All-map
        (λ r f same_task same_key. (
          ap (λ (x : NodeRun). x.id) (f same_task same_key) ∙ sym names,
          ap (λ (x : NodeRun). x.worker_id) (f same_task same_key),
        ))
        rows only.1,
  )

  -- Let the node of the call have no run yet, its task be in the table, the ids that are drawn be
  -- new, no other open work be there for the worker's services, of which the node's service is
  -- one, the worker's disk work, the payload decode to the input, the parameters and the id of
  -- the run, which is not empty, and let the service give a result that is not nil and that JSON
  -- reads back, or an error with a text. Then the queue executor answers that the task is
  -- pending; a round of the async worker against the server's handlers completes that work
  -- without an error; and the queue executor, called again, returns the service's result, or an
  -- error with that text, marked as recorded, and leaves the tables as they were.
  pub queue_round_trip :
      (w : World) (t : Task) (r : Result (Value F))
      → latest e inp w.db ≡ none
      → any (λ (x : NodeRun). x.id == new_run_id e inp w) w.db.node_runs ≡ false
      → any (λ (q : QueueTask). q.id == new_queue_id e inp w) w.db.task_queue ≡ false
      → find_task inp.task.id w.db ≡ some t
      → select (is_open a.services) w.db.task_queue ≡ []
      → any (λ s. inp.node.service == s) a.services ≡ true
      → Ready e a
      → a.run_id_of (text_of w) ≡ new_run_id e inp w
      → new_run_id e inp w ≢ ""
      → a.payload_of (text_of w) ≡ ok given
      → run_service a inp.node.service given ≡ r
      → Readable r
      → Ends (exec_queue e inp w) (λ first w1.
        (first ≡ failure "queue" "queue" async_pending)
        × Ends (async_round a (server_api e) w1) (λ round w2.
          (round ≡ worked (new_queue_id e inp w) none) × Returns r (exec_queue e inp w2) w2))
  unfolding queued_run
  queue_round_trip w t r unrun fresh_run fresh_work found none_open offered ready names named
        decodes runs readable =
      let w1 = enqueued e inp w in
      let q = first_work e inp w in
      let now = unix e w1.tick in
      let polled =
        poll_queue-single now a.worker_id 60 w1.db w.db.task_queue q refl refl a.services none_open
          offered in
      let db' = after_poll now a.worker_id 60 w1.db w.db.task_queue q refl refl in
      let taken = handed_out now a.worker_id 60 w1.db w.db.task_queue q refl refl in
      let kept = find-after_poll now a.worker_id 60 w1.db w.db.task_queue q refl refl fresh_work in
      let only = RunsAre-insert inp.task.id inp.node_key w.db (first_run e inp w) unrun refl refl in
      rw (exec_queue-first e inp w unrun fresh_run fresh_work) (
        refl,
        Ends-map (WorkedOut e a (new_queue_id e inp w) r inp.task.id inp.node_key) _
            (async_round a (server_api e) w1)
            (async_round-WorkedOut e a w1 taken (claim now a.worker_id 60 q) db' t inp.node_key r
              polled kept found ready (λ unnamed. named (sym names ∙ unnamed))
              (first_queued w db'.node_runs names only)
              (execute-given (work_of taken) (text_of w) r refl refl decodes runs))
            (λ round u h. (h.0, result-Returns r u h.1 readable)),
      )
