-- ===== src/Engine/Choice/Laws.antt =====
-- Where a choice node sends its task.
use pocket_flow_go.Store.{Task}
use pocket_flow_go.Engine.{Engine, World}
use pocket_flow_go.Engine.Choice.{run_choice, choice_action}
use pocket_flow_go.Engine.Core.{
  NodeRunInput, finished_status, put_output, record_run, record_run_detailed, finish_node,
}
use pocket_flow_go.Store.Tasks.Laws.{find_task}
use pocket_flow_go.Prelude.{◌≡◌, some, none, ◌+◌, ◌∙◌}
use pocket_flow_go.Engine.Core.Laws.{Writable, Ends, Moved, recorded_end, Ends-continue, Ends-map}
use pocket_flow_go.Flow.{find_next}
use pocket_flow_go.Engine.Core.Kept.{
  SameVersions, record_run_detailed-Kept, finish_node-SameVersions, Kept,
}
use pocket_flow_go.Value.{field, str, empty, null}

module _ {F : Type 0} (e : Engine F) where
  -- For a found task that the engine may write, the handler of a choice node ends and the row
  -- goes to the node that the chosen action leads to, completed where there is none, with the
  -- input stored under the output key.
  pub run_choice-row :
      (inp : NodeRunInput F) (r : Task) (w : World)
      → find_task inp.task.id w.db ≡ some r
      → Writable e r
      → Ends (run_choice e inp w) (λ res v.
        (res ≡ none)
        × Moved e inp.task.id r
            (finished_status none (find_next inp.flow_def.edges inp.node_key (choice_action e inp)))
            (find_next inp.flow_def.edges inp.node_key (choice_action e inp))
            (choice_action e inp)
            (put_output inp.node.post.output_key inp.input inp.shared)
            (inp.task.step_count + 1)
            v)
  unfolding run_choice
  run_choice-row inp r w found may =
      recorded_end e inp.task r w found inp.node_key "ok" "" _ _ _ inp.flow_def
        (choice_action e inp) _ (inp.task.step_count + 1) none may

  pub run_choice-SameVersions :
      (inp : NodeRunInput F) (w : World) → Ends (run_choice e inp w) (SameVersions e w)
  unfolding run_choice record_run
  run_choice-SameVersions inp w =
      let shared = put_output inp.node.post.output_key inp.input inp.shared in
      let prep = field "input_key" (str inp.node.prep.input_key) empty in
      Ends-continue (λ _ v. Kept w v) (SameVersions e w)
        (record_run_detailed e inp.task inp.node_key 1 "ok" "" "" prep inp.input null ""
          (choice_action e inp) "" "" "" w)
        (λ _.
          finish_node e inp.task inp.flow_def inp.node_key (choice_action e inp) shared
            (inp.task.step_count + 1) none)
        (record_run_detailed-Kept e inp.task inp.node_key 1 "ok" "" "" prep inp.input null ""
          (choice_action e inp) "" "" "" w)
        (λ _ v kept.
          Ends-map (SameVersions e v) (SameVersions e w) _
            (finish_node-SameVersions e inp.task inp.flow_def inp.node_key (choice_action e inp)
              shared (inp.task.step_count + 1) none v)
            (λ _ x same. same ∙ kept.1))
