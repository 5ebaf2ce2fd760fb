-- ===== src/Engine/Fanout/Finish.antt =====
-- Where a parallel or foreach node sends its task when every branch has ended.
use pocket_flow_go.Store.{Task}
use pocket_flow_go.Engine.{Engine, World}
use pocket_flow_go.Engine.Core.{NodeRunInput, clear_runtime, put_output}
use pocket_flow_go.Engine.Executor.Node.{result_action}
use pocket_flow_go.Engine.Fanout.{Progress, finish_branches, aggregate, fanout_action}
use pocket_flow_go.Prelude.{
  String, List, Option, if◌then◌else◌, nat_eq, ◌≡◌, some, ◌||◌, ◌==◌, none, ◌+◌, Bool-cases, inl,
  ◌⊎◌, ◌≢◌, arith, inr, eq_iff, refl,
}
use pocket_flow_go.Error.{Err, text}
use pocket_flow_go.Value.{Value, size, arr, of_list, empty, obj, field, Object}
use pocket_flow_go.Store.Tasks.Laws.{find_task}
use pocket_flow_go.Engine.Core.Laws.{Writable, Ends, Ends-map, Leaves, recorded_end-Leaves}
use pocket_flow_go.Engine.Fanout.Results.{Gathers, aggregate-Gathers}
use pocket_flow_go.Engine.Core.Outcome.{Selects, selected-Selects}
use pocket_flow_go.Engine.Core.SharedData.{
  size-empty, OutputKeyIs, put_output-OutputKeyIs, Clears, clear_runtime-Clears, empty-size,
}

module _ {F : Type 0} (e : Engine F) (inp : NodeRunInput F) where
  -- The error of the node: none where no branch failed or the strategy is to continue.
  abbrev pub FailsWith : Progress F → String → Option Err → Type 0
  FailsWith p failure_text x =
      (((p.errs ≡ empty) ⊎ (inp.node.failure_strategy ≡ "continue")) × (x ≡ none))
      ⊎ ((p.errs ≢ empty)
          × (inp.node.failure_strategy ≢ "continue")
          × (x ≡ some (text failure_text)))

  -- The row has gone along the action of the results, which stand under the output key, with the
  -- state of the branches cleared.
  abbrev pub Settled :
      Task → String → Progress F → List String → String → Option Err → World → Type 0
  Settled r key p keys failure_text res w =
      (res ≡ none)
      × (vs : List (Value F)) × Gathers p.done keys vs
      × (action : String) × Selects inp.node.post (obj (field "result" (arr (of_list vs)) empty))
          action
      × (written shared : Object F) × OutputKeyIs inp.node.post.output_key (arr (of_list vs))
          inp.shared written
      × Clears key p.rt written shared
      × (x : Option Err) × FailsWith p failure_text x
      × Leaves e inp.task.id r inp.flow_def.edges inp.node_key x action shared
          (inp.task.step_count + 1) w

  verdict-FailsWith :
      (p : Progress F) (failure_text : String)
      → FailsWith p failure_text (
          if nat_eq (size p.errs) 0 || inp.node.failure_strategy == "continue"
          then none
          else some (text failure_text))
  verdict-FailsWith p failure_text =
      let strategy = inp.node.failure_strategy in
      elim (Bool-cases (nat_eq (size p.errs) 0)) [
        | inl t ↦ rw t (inl (inl (size-empty p.errs (ground (arith, t))), refl))
        | inr f ↦ elim (Bool-cases (strategy == "continue")) [
          | inl t ↦ rw (f, t) (inl (inr ((eq_iff strategy "continue").0 t), refl))
          | inr g ↦
              rw (f, g)
                (inr (
                  (λ none_failed.
                      let nothing = empty-size p.errs none_failed in ground (arith, f, nothing)),
                  (λ same. ground (arith, g, eq_iff strategy "continue", same)),
                  refl,
                ))
        ]
      ]

  pub finish_branches-Settled :
      (sub_status key : String) (p : Progress F) (keys : List String) (failure_text : String)
      (r : Task) (w : World)
      → find_task inp.task.id w.db ≡ some r
      → Writable e r
      → Ends
          (finish_branches e inp sub_status key p keys failure_text w)
          (Settled r key p keys failure_text)
  unfolding finish_branches fanout_action result_action
  finish_branches-Settled sub_status key p keys failure_text r w found may =
      let agg = aggregate keys p.done in
      let action = fanout_action inp.node.post agg in
      let written = put_output inp.node.post.output_key (arr (of_list agg)) inp.shared in
      let shared = clear_runtime key p.rt written in
      let x : Option Err =
        if nat_eq (size p.errs) 0 || inp.node.failure_strategy == "continue"
        then none
        else some (text failure_text) in
      Ends-map
        (λ res v.
          (res ≡ none)
          × Leaves e inp.task.id r inp.flow_def.edges inp.node_key x action shared
              (inp.task.step_count + 1) v)
        (Settled r key p keys failure_text) _
        (recorded_end-Leaves e inp.task r w found inp.node_key _ _ _ _ _ inp.flow_def action shared
          (inp.task.step_count + 1) x may)
        (λ res v (fine, left). (
          fine,
          agg,
          aggregate-Gathers p.done keys,
          action,
          selected-Selects inp.node.post (obj (field "result" (arr (of_list agg)) empty)),
          written,
          shared,
          put_output-OutputKeyIs inp.node.post.output_key (arr (of_list agg)) inp.shared,
          clear_runtime-Clears key p.rt written,
          x,
          verdict-FailsWith p failure_text,
          left,
        ))
