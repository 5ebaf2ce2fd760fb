-- ===== src/Engine/Subflow/Laws.antt =====
-- Where the cursor of an embedded flow goes.
use pocket_flow_go.Engine.Subflow.{
  sub_finished, advance, finish_success, record_sub, SubState, outer_action, outer_shared,
  process_success, storable,
}
use pocket_flow_go.Engine.{Engine, World}
use pocket_flow_go.Engine.Core.{NodeRunInput, keep_runtime, finished_status}
use pocket_flow_go.Prelude.{
  String, Option, ◌≡◌, none, some, ◌⊎◌, ◌≢◌, ◌+◌, Bool-cases, ◌==◌, inl, eq_iff, inr, arith, ap,
  find_first, ◌∙◌,
}
use pocket_flow_go.Flow.{EmbeddedFlow, DefNode, find_next}
use pocket_flow_go.Value.{Object, Value, put, str}
use pocket_flow_go.Error.{Err}
use pocket_flow_go.Engine.Core.Laws.{
  Moved, Writable, Ends, Ends-map, finish_node-Moved, waiting-row, Ends-continue,
  record_run_detailed-tasks,
}
use pocket_flow_go.Store.Tasks.Laws.{find_task}
use pocket_flow_go.Engine.Executor.Result.{ExecutorResult}
use pocket_flow_go.Engine.Executor.Node.{result_action}
use pocket_flow_go.Store.{Task}

module _ {F : Type 0} (e : Engine F) (inp : NodeRunInput F) (key : String) (st : SubState F)
    (flow : EmbeddedFlow F) (sub : Option (Object F)) where
  -- The node has ended: the row goes along the outer action.
  abbrev Left : Task → World → Type 0
  Left r w =
      let action = outer_action e inp key st sub in
      let next = find_next inp.flow_def.edges inp.node_key action in
      Moved e inp.task.id r (finished_status none next) next action (outer_shared e inp key st sub)
        (inp.task.step_count + 1) w

  -- The node goes on: the row stays, with the inner map and the cursor at the next sub-node.
  abbrev Advanced : Task → String → World → Type 0
  Advanced r next w =
      Moved e inp.task.id r "running" inp.node_key ""
        (keep_runtime key (put "shared" (storable sub) (put "curr" (str next) st.slot)) st.rt
          inp.shared)
        (inp.task.step_count + 1) w

  abbrev Proceeds : Task → String → Option Err → World → Type 0
  Proceeds r next res w =
      (res ≡ none) × (((next ≡ "") × Left r w) ⊎ ((next ≢ "") × Advanced r next w))

  advance-Proceeds :
      (action : String) (r : Task) (w : World)
      → find_task inp.task.id w.db ≡ some r
      → Writable e r
      → Ends
          (advance e inp key st flow action sub w)
          (Proceeds r (find_next flow.edges st.curr_sub action))
  unfolding advance finish_success
  advance-Proceeds action r w found may =
      let next = find_next flow.edges st.curr_sub action in
      elim (Bool-cases (next == "")) [
        | inl t ↦ rw t (
            Ends-map _ (Proceeds r next) _
              (finish_node-Moved e inp.task r w found inp.flow_def inp.node_key
                (outer_action e inp key st sub) (outer_shared e inp key st sub)
                (inp.task.step_count + 1) none may)
              (λ res v h. (h.0, inl ((eq_iff next "").0 t, h.1))))
        | inr f ↦ rw f (
            Ends-map _ (Proceeds r next) _ (waiting-row e inp.task r w found inp.node_key _ may)
              (λ res v h. (h.0, inr (λ same. ground (arith, eq_iff next ""), h.1))))
      ]

  -- For a found task that the engine may write, where a sub-node's execution has come back
  -- without an error and its result fits into the inner map: the handler of the subflow ends
  -- without an error. Where the sub-node's action leads to no sub-node, the row goes along the
  -- outer action, completed where there is no next node, with the inner map under the output key
  -- and the subflow's state cleared; else it stays at the node, running, with the inner map and
  -- the cursor at the next sub-node kept.
  sub_finished-Proceeds :
      (sn : DefNode F) (sub_input : Value F) (res : ExecutorResult F) (r : Task) (w : World)
      → find_task inp.task.id w.db ≡ some r
      → Writable e r
      → res.error ≡ none
      → process_success sn.post res.result st.sub_shared ≡ some sub
      → Ends
          (sub_finished e inp key st flow sn sub_input res w)
          (Proceeds r (find_next flow.edges st.curr_sub (result_action sn.post res.result)))
  unfolding sub_finished record_sub
  sub_finished-Proceeds sn sub_input res r w found may fine processed =
      let action = result_action sn.post res.result in
      rw (sub_finished, fine, processed)
        (Ends-continue _ _ (record_sub e inp key st sn sub_input res action w)
          (λ _. advance e inp key st flow action sub)
          (record_run_detailed-tasks e inp.task inp.node_key 1 _ _ _ _ _ _ _ _ _ _ _ w)
          (λ _ v h.
            advance-Proceeds action r v
              (ap (find_first (λ (t : Task). t.id == inp.task.id)) h ∙ found) may))
