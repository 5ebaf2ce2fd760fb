-- ===== src/Worker/Async/Served.antt =====
-- The interface `QueueApi` as the server's handlers fill it: the worker's calls reach
-- pkg/server/server.go as they are sent.
use pocket_flow_go.Worker.Async.{Work, QueueApi}
use pocket_flow_go.Server.{Body, queue_body}
use pocket_flow_go.Prelude.{Option, some, none}
use pocket_flow_go.Store.{QueueTask}
use pocket_flow_go.Server.Queue.{handle_queue_poll, handle_queue_update_run, handle_queue_complete}
use pocket_flow_go.Engine.{Engine, ◌>>=◌, pure}

abbrev pub work_of : QueueTask → Work
work_of q = record {
  id = q.id;
  task_id = q.task_id;
  node_key = q.node_key;
  service = q.service;
  input_json = q.input_json;
}

abbrev body_work : Body → Option Work
body_work (queue_body q) = some (work_of q)
body_work _ = none

unfoldable pub server_api : {F : Type 0} → Engine F → QueueApi F
unfolding handle_queue_poll handle_queue_update_run handle_queue_complete
server_api e = record {
  poll_queue = λ worker services. do
    res ← handle_queue_poll e worker services
    pure (some (res.code, body_work res.body));
  update_run = λ run_id status. do
    res ← handle_queue_update_run e run_id status
    pure (some res.code);
  complete_queue = λ c. do
    res ← handle_queue_complete e c
    pure (some res.code);
}
