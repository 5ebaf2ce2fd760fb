-- ===== src/Engine/Parallel/Laws.antt =====
-- The end of a parallel node.
use pocket_flow_go.Store.{Task}
use pocket_flow_go.Engine.Parallel.{with_progress, parallel_services_of, fresh_parallel}
use pocket_flow_go.Engine.{Engine, World}
use pocket_flow_go.Engine.Parallel.{run_parallel}
use pocket_flow_go.Engine.Core.{NodeRunInput}
use pocket_flow_go.Engine.Fanout.{Progress, init_progress, unsettled}
use pocket_flow_go.Prelude.{String, List, ◌≡◌, some, ◌∷◌, ◌<>◌, select, []}
use pocket_flow_go.Store.Tasks.Laws.{find_task}
use pocket_flow_go.Engine.Core.Laws.{Writable, Ends}
use pocket_flow_go.Engine.Fanout.Finish.{Settled, finish_branches-Settled}

module _ {F : Type 0} (e : Engine F) where
  -- For a found task that the engine may write, and a parallel node with services whose state has
  -- a result or an error for each service, the handler ends without an error, and the row goes
  -- along the action that the node selects from the list of the results in the order of the
  -- services, null for those with an error (where there is no next node, it is failed if there
  -- are errors and the strategy is not continue, else completed), with that list under the output
  -- key and the state of the branches cleared.
  pub run_parallel-Settled :
      (inp : NodeRunInput F) (p : Progress F) (svc : String) (svcs : List String) (r : Task)
      (w : World)
      → find_task inp.task.id w.db ≡ some r
      → Writable e r
      → parallel_services_of inp.node inp.params ≡ svc ∷ svcs
      → init_progress ("pl:" <> inp.node_key) (fresh_parallel inp.node) inp.shared ≡ some p
      → select (unsettled p.done p.errs) (svc ∷ svcs) ≡ []
      → Ends
          (run_parallel e inp w)
          (Settled e inp r ("pl:" <> inp.node_key) p (svc ∷ svcs) "parallel error")
  unfolding run_parallel with_progress
  run_parallel-Settled inp p svc svcs r w found may listed progress settled =
      rw (run_parallel, listed, progress, with_progress, settled)
        (finish_branches-Settled e inp "branch_complete" ("pl:" <> inp.node_key) p (svc ∷ svcs)
          "parallel error" r w found may)
