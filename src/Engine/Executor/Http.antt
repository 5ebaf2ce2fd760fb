-- ===== src/Engine/Executor/Http.antt =====
-- Execution by an HTTP worker (pkg/engine/executor_http.go).
pub mod Laws
use pocket_flow_go.Prelude.{
  Bool, List, ◌==◌, if◌then◌else◌, ◌∷◌, [], select, ◌||◌, ◌<>◌, none, some,
}
use pocket_flow_go.Engine.{Engine, HttpReply, M, pure, ◌>>=◌, now_unix, gets, ask, to_json}
use pocket_flow_go.Store.{WorkerInfo}
use pocket_flow_go.Engine.Executor.Result.{ExecutorInput, ExecutorResult, success, failure, payload}
use pocket_flow_go.Prelude.Int.{leb_ℤ, pos}
use pocket_flow_go.Store.Workers.{list_workers}
use pocket_flow_go.Error.{text}

abbrev is_http : WorkerInfo → Bool
is_http w = w.worker_type == "http" || w.worker_type == ""

-- sort.SliceStable by load: a row goes before the first whose load is not smaller
insert_by_load : WorkerInfo → List WorkerInfo → List WorkerInfo
insert_by_load w [] = w ∷ []
insert_by_load w (v ∷ vs) = if leb_ℤ w.load v.load then w ∷ v ∷ vs else v ∷ insert_by_load w vs

unfoldable pub sort_by_load : List WorkerInfo → List WorkerInfo
unfolding insert_by_load
sort_by_load [] = []
sort_by_load (w ∷ ws) = insert_by_load w (sort_by_load ws)

-- The workers in the order in which they are tried.
unfoldable pub candidates : Bool → List WorkerInfo → List WorkerInfo
unfolding sort_by_load
candidates weighted ws = if weighted then sort_by_load (select is_http ws) else select is_http ws

module _ {F : Type 0} (e : Engine F) (inp : ExecutorInput F) where
  reply_result : WorkerInfo → HttpReply F → ExecutorResult F
  reply_result w r =
      if r.error == "" then success r.result w.id w.url "" else failure w.id w.url (text r.error)

  -- The loop over the workers: one that cannot be reached or understood is passed over.
  unfoldable try_workers : List WorkerInfo → M (ExecutorResult F)
  unfolding reply_result
  try_workers [] = pure (failure "" "" (text "all workers failed"))
  try_workers (w ∷ ws) = do
    let rest = try_workers ws
    reply ← ask (λ n. e.http n (w.url <> "/exec/" <> inp.node.service) (to_json e (payload inp)))
    elim reply [ none ↦ rest | some r ↦ pure (reply_result w r) ]

  unfoldable pub exec_http : M (ExecutorResult F)
  unfolding list_workers candidates try_workers
  exec_http = do
    now ← now_unix e
    workers ← gets (list_workers now inp.node.service (pos 15))
    elim (candidates inp.node.weighted_by_load workers) [
      | [] ↦ pure (failure "" "" (text "no worker"))
      | w ∷ ws ↦ try_workers (w ∷ ws)
    ]
