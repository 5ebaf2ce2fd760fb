-- ===== src/Engine/Executor/Http/Laws.antt =====
-- That an execution by HTTP workers comes back.
use pocket_flow_go.Engine.Executor.Http.{try_workers, exec_http}
use pocket_flow_go.Engine.{Engine, World, unix, to_json}
use pocket_flow_go.Engine.Executor.Result.{ExecutorInput, payload}
use pocket_flow_go.Engine.Executor.Http.{exec_http, candidates}
use pocket_flow_go.Engine.Core.Laws.{Ends}
use pocket_flow_go.Engine.Core.Kept.{Kept}
use pocket_flow_go.Store.Workers.{list_workers}
use pocket_flow_go.Prelude.Int.{pos}
use pocket_flow_go.Prelude.{inl, inr, ◌∷◌, suc, List, List-cases, refl, Option-cases, ◌<>◌, []}
use pocket_flow_go.Store.{WorkerInfo}

module _ {F : Type 0} (e : Engine F) (inp : ExecutorInput F) where
  try_workers-Kept :
      (ws : List WorkerInfo) (w : World) → Ends (try_workers e inp ws w) (λ _ v. Kept w v)
  unfolding try_workers
  try_workers-Kept [] w = (refl, refl)
  try_workers-Kept (k ∷ ks) w =
      elim (Option-cases
        (e.http w.tick (k.url <> "/exec/" <> inp.node.service) (to_json e (payload inp)))) [
          | inl h ↦ rw h (try_workers-Kept ks (record w { tick = suc w.tick }))
          | inr (r, h) ↦ rw h (refl, refl)
        ]

  -- The loop over the workers ends, and the tables stay.
  pub exec_http-Kept : (w : World) → Ends (exec_http e inp w) (λ _ v. Kept w v)
  unfolding exec_http
  exec_http-Kept w =
      elim (List-cases (
        candidates inp.node.weighted_by_load
          (list_workers (unix e w.tick) inp.node.service (pos 15) w.db))) [
            | inl h ↦ rw (Ends, h) (refl, refl)
            | inr (k, ks, h) ↦
                rw (Ends, h) (try_workers-Kept (k ∷ ks) (record w { tick = suc w.tick }))
          ]
