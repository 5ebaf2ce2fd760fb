-- ===== src/Engine/Fanout/Round.antt =====
-- What a round of branches that run at the same time leaves.
use pocket_flow_go.Engine.Fanout.{
  Collected, Branch, collect, Progress, after_collection, aggregate_done, fail_fast, fanout_action,
  keep_progress,
}
use pocket_flow_go.Prelude.{
  String, ◌≡◌, false, ◌==◌, inl, inr, Bool, Option, true, ◌&&◌, none, some, arith, eq_iff, List,
  ◌⊎◌, if◌then◌else◌, refl, ◌+◌, ◌≢◌, ◌∙◌, sym,
}
use pocket_flow_go.Value.{arr, of_list, Object, Value, put, get, obj, field, empty}
use pocket_flow_go.Error.{Err, text}
use pocket_flow_go.Engine.{Engine, World, pure, ◌>>◌, ◌>>=◌}
use pocket_flow_go.Engine.Core.{
  NodeRunInput, suspend_task, put_output, save_step, update_task_running,
}
use pocket_flow_go.Engine.Core.Laws.{
  Ends, Ends-continue, Moved, Ends-map, Writable, save_step-row, waiting-row, Ends-if, Leaves,
  Moved-Leaves,
}
use pocket_flow_go.Engine.Core.Kept.{Kept, find-Kept}
use pocket_flow_go.Store.{Task}
use pocket_flow_go.Engine.Executor.Node.{result_action}
use pocket_flow_go.Engine.Core.{finished_status}
use mathlib.Core.List.{Perm}
use pocket_flow_go.Store.Tasks.Laws.{find_task}
use pocket_flow_go.Flow.{find_next}
use pocket_flow_go.Store.Sql.Laws.{All}
use pocket_flow_go.Engine.Fanout.Results.{
  Limited, Collecting, GathersDone, collection_of, aggregate_done-GathersDone,
}
use pocket_flow_go.Engine.Core.SharedData.{
  Keeps, keep_runtime-Keeps, OutputKeyIs, put_output-OutputKeyIs,
}
use pocket_flow_go.Engine.Core.Outcome.{selected-Selects, Selects}
use pocket_flow_go.Value.Laws.{get-put_ne, get-put_self}
use pocket_flow_go.Engine.Fanout.Collection.{collect-Collecting}

module _ {F : Type 0} (e : Engine F) (inp : NodeRunInput F) (sub_status : String) where
  -- What was collected is kept in the node's state, which is else as it was.
  abbrev pub KeepsProgress : String → Progress F → Collected F → Object F → Type 0
  KeepsProgress key p c shared =
      (slot : Object F) × Keeps key slot p.rt inp.shared shared
      × (get "done" slot ≡ some (obj c.done))
      × (get "errs" slot ≡ some (obj c.errs))
      × ((k : String) → k ≢ "done" → k ≢ "errs" → get k slot ≡ get k p.slot)

  -- A branch is pending: the task waits for the queue, with the collection kept.
  abbrev pub WaitsFor : String → Progress F → Task → Collected F → World → Type 0
  WaitsFor key p r c v =
      (c.has_pending ≡ true)
      × (shared : Object F) × KeepsProgress key p c shared
      × Moved e inp.task.id r "waiting_queue" inp.task.current_node_key inp.task.last_action shared
          inp.task.step_count v

  -- No branch is pending, but one has failed, and the node fails with it.
  abbrev pub FailsFast : String → Progress F → List String → Task → Collected F → World → Type 0
  FailsFast key p keys r c v =
      (c.has_pending ≡ false)
      × (inp.node.failure_strategy ≡ "fail_fast")
      × (c.had_err ≡ true)
      × (kept : Object F) × KeepsProgress key p c kept
      × (vs : List (Value F)) × GathersDone c.done keys vs
      × (action : String) × Selects inp.node.post (obj (field "result" (arr (of_list vs)) empty))
          action
      × (shared : Object F) × OutputKeyIs inp.node.post.output_key (arr (of_list vs)) kept shared
      × Leaves e inp.task.id r inp.flow_def.edges inp.node_key (some (text "fail_fast")) action
          shared (inp.task.step_count + 1) v

  -- No branch is pending, and none has failed or the node does not fail with one: it goes on with
  -- the branches that are left.
  abbrev pub GoesRound : String → Progress F → Task → Collected F → World → Type 0
  GoesRound key p r c v =
      (c.has_pending ≡ false)
      × ((inp.node.failure_strategy ≢ "fail_fast") ⊎ (c.had_err ≡ false))
      × (shared : Object F) × KeepsProgress key p c shared
      × Moved e inp.task.id r "running" inp.node_key "" shared (inp.task.step_count + 1) v

  abbrev pub Ended :
      String → Progress F → List String → Task → Collected F → Option Err → World → Type 0
  Ended key p keys r c res v =
      (res ≡ none) × (WaitsFor key p r c v ⊎ FailsFast key p keys r c v ⊎ GoesRound key p r c v)

  no_fail_fast :
      (had_err : Bool)
      → (inp.node.failure_strategy == "fail_fast" && had_err) ≡ false
      → (inp.node.failure_strategy ≢ "fail_fast") ⊎ (had_err ≡ false)
  no_fail_fast false slow = inr refl
  no_fail_fast true slow =
      inl (λ same. ground (arith, slow, eq_iff inp.node.failure_strategy "fail_fast", same))

  keep_progress-KeepsProgress :
      (key : String) (p : Progress F) (c : Collected F)
      → KeepsProgress key p c (keep_progress key p c.done c.errs inp.shared)
  unfolding keep_progress
  keep_progress-KeepsProgress key p c =
      let with_done : Object F = put "done" (obj c.done) p.slot in
      let slot : Object F = put "errs" (obj c.errs) with_done in
      (
        slot,
        keep_runtime-Keeps key slot p.rt inp.shared,
        get-put_ne "errs" "done" (obj c.errs) with_done
              (λ same. ground (arith, eq_iff "errs" "done", same))
            ∙ get-put_self "done" (obj c.done) p.slot,
        get-put_self "errs" (obj c.errs) with_done,
        λ k no_done no_errs.
            get-put_ne "errs" k (obj c.errs) with_done (λ same. no_errs (sym same))
            ∙ get-put_ne "done" k (obj c.done) p.slot (λ same. no_done (sym same)),
      )

  fail_fast-FailsFast :
      (key : String) (p : Progress F) (keys : List String) (c : Collected F) (r : Task) (w : World)
      → find_task inp.task.id w.db ≡ some r
      → Writable e r
      → c.has_pending ≡ false
      → inp.node.failure_strategy ≡ "fail_fast"
      → c.had_err ≡ true
      → Ends
          (fail_fast e inp sub_status keys c.done (keep_progress key p c.done c.errs inp.shared) w)
          (Ended key p keys r c)
  unfolding fail_fast fanout_action result_action finished_status
  fail_fast-FailsFast key p keys c r w found may settled strategy failed =
      let kept = keep_progress key p c.done c.errs inp.shared in
      let agg = aggregate_done keys c.done in
      let action = fanout_action inp.node.post agg in
      let next = find_next inp.flow_def.edges inp.node_key action in
      let shared = put_output inp.node.post.output_key (arr (of_list agg)) kept in
      Ends-continue _ (Ended key p keys r c)
        (save_step e inp.task.id (if next == "" then "failed" else "running") next action shared
          (inp.task.step_count + 1) w)
        (λ _. pure none)
        (save_step-row e inp.task.id r w found (if next == "" then "failed" else "running") next
          action shared (inp.task.step_count + 1) may)
        (λ _ v h. (
          refl,
          inr (
              inl (
                settled,
                strategy,
                failed,
                kept,
                keep_progress-KeepsProgress key p c,
                agg,
                aggregate_done-GathersDone c.done keys,
                action,
                selected-Selects inp.node.post (obj (field "result" (arr (of_list agg)) empty)),
                shared,
                put_output-OutputKeyIs inp.node.post.output_key (arr (of_list agg)) kept,
                Moved-Leaves e inp.task.id r inp.flow_def.edges inp.node_key
                    (some (text "fail_fast")) action shared (inp.task.step_count + 1) v h,
              )),
        ))

  pub after_collection-Ended :
      (key : String) (p : Progress F) (keys : List String) (c : Collected F) (r : Task) (w : World)
      → find_task inp.task.id w.db ≡ some r
      → Writable e r
      → Ends (after_collection e inp sub_status key p keys c w) (Ended key p keys r c)
  unfolding after_collection suspend_task
  after_collection-Ended key p keys c r w found may =
      let shared = keep_progress key p c.done c.errs inp.shared in
      Ends-if c.has_pending (suspend_task e inp.task "waiting_queue" shared) _
        (Ended key p keys r c) w
        (λ pending.
          Ends-continue _ (Ended key p keys r c)
            (save_step e inp.task.id "waiting_queue" inp.task.current_node_key inp.task.last_action
              shared inp.task.step_count w)
            (λ _. pure none)
            (save_step-row e inp.task.id r w found "waiting_queue" inp.task.current_node_key
              inp.task.last_action shared inp.task.step_count may)
            (λ _ v h. (refl, inl (pending, shared, keep_progress-KeepsProgress key p c, h))))
        (λ settled.
          Ends-if (inp.node.failure_strategy == "fail_fast" && c.had_err)
            (fail_fast e inp sub_status keys c.done shared)
            (update_task_running e inp.task inp.node_key shared >> pure {A = Option Err} none)
            (Ended key p keys r c) w
            (λ fast.
              fail_fast-FailsFast key p keys c r w found may settled
                (ground (arith, fast, eq_iff inp.node.failure_strategy "fail_fast"))
                (ground (arith, fast)))
            (λ slow.
              Ends-map _ (Ended key p keys r c) _
                (waiting-row e inp.task r w found inp.node_key shared may)
                (λ res v h. (
                  h.0,
                  inr (
                      inr (
                        settled,
                        no_fail_fast c.had_err slow,
                        shared,
                        keep_progress-KeepsProgress key p c,
                        h.1,
                      )),
                ))))

  -- The launched branches have been collected, each once, in the order in which they arrive, and the
  -- row has gone on by the collection.
  abbrev pub Visited :
      String
      → Progress F
      → List String
      → List (Branch F)
      → Task
      → World
      → Option Err
      → World
      → Type 0
  Visited key p keys launched r w res v =
      (bs : List (Branch F)) × Perm bs launched
      × (c : Collected F) × (u : World) × Collecting e inp sub_status bs (collection_of p) w c u
      × Ended key p keys r c res v

  pub collected-Visited :
      (key : String) (p : Progress F) (keys : List String) (bs launched : List (Branch F))
      (r : Task) (w : World)
      → Perm bs launched
      → All Limited bs
      → find_task inp.task.id w.db ≡ some r
      → Writable e r
      → Ends
          ((collect e inp sub_status bs (collection_of p)
              >>= after_collection e inp sub_status key p keys)
            w)
          (Visited key p keys launched r w)
  collected-Visited key p keys bs launched r w perm limits found may =
      Ends-continue (λ c v. Kept w v × Collecting e inp sub_status bs (collection_of p) w c v)
        (Visited key p keys launched r w) (collect e inp sub_status bs (collection_of p) w)
        (after_collection e inp sub_status key p keys)
        (collect-Collecting e inp sub_status bs (collection_of p) w limits)
        (λ c v (kept, collecting).
          Ends-map (Ended key p keys r c) (Visited key p keys launched r w) _
            (after_collection-Ended key p keys c r v (find-Kept inp.task.id r w v kept found) may)
            (λ res x ended. (bs, perm, c, v, collecting, ended)))
