-- ===== src/Server.antt =====
-- The handlers of the HTTP API (pkg/server/server.go). A handler is given its decoded request and answers with a status code and
-- what it writes; decoding a request and the CORS headers are not modelled.
pub mod Tasks
pub mod Queue
pub mod Workers
pub mod Listing
use pocket_flow_go.Engine.{M, pure}
use pocket_flow_go.Prelude.{String, ℕ, List}
use pocket_flow_go.Store.{WorkerInfo, QueueTask, FlowRow, Task, FlowVersion, NodeRun}
use pocket_flow_go.Prelude.Int.{ℤ}

-- What a handler writes: a text under "ok", "id", "error" or "content", one row, rows, a page of rows
-- with the total, the number and the size of the page, or nothing.
pub data Body : Type 0 where
  ok_body no_body : Body
  id_body error_body content_body : String → Body
  worker_list : List WorkerInfo → Body
  flow_page : List FlowRow → ℕ → ℤ → ℤ → Body
  task_page : List Task → ℕ → ℤ → ℤ → Body
  version_list : List FlowVersion → Body
  version_body : FlowVersion → Body
  task_body : Task → Body
  run_list : List NodeRun → Body
  worker_body : WorkerInfo → Body
  queue_body : QueueTask → Body

pub record Response : Type 0 where
  pub code : ℕ
  pub body : Body

abbrev pub respond : ℕ → Body → M Response
respond code body = pure (record { code = code; body = body })

abbrev pub respond_ok : M Response
respond_ok = respond 200 ok_body

abbrev pub respond_error : ℕ → String → M Response
respond_error code s = respond code (error_body s)
