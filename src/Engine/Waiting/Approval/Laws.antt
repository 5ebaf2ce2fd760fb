-- ===== src/Engine/Waiting/Approval/Laws.antt =====
-- When an approval node lets its task go on.
use pocket_flow_go.Store.{Task}
use pocket_flow_go.Engine.{Engine, World}
use pocket_flow_go.Engine.Core.{NodeRunInput, clear_runtime, keep_runtime, runtime_of, put_output}
use pocket_flow_go.Value.{Object, Value, as_object, at, bool, null, str, obj, field, empty}
use pocket_flow_go.Prelude.{
  String, ◌<>◌, ◌≡◌, some, false, true, none, ◌+◌, Option, ◌≢◌, Bool-cases, ◌==◌, inl, ap, eq_iff,
  inr, arith, refl,
}
use pocket_flow_go.Engine.Waiting.Approval.{run_approval, approval_action, is_decided, verdict}
use pocket_flow_go.Path.{resolve_ref}
use pocket_flow_go.Store.Tasks.Laws.{find_task}
use pocket_flow_go.Engine.Waiting.{text_param}
use pocket_flow_go.Engine.Core.Laws.{
  Writable, Ends, Moved, waiting-row, Ends-map, Leaves, recorded_end-Leaves,
}
use pocket_flow_go.Error.{Err}
use pocket_flow_go.Engine.Core.Outcome.{TextAt, pick_action-TextAt}
use pocket_flow_go.Engine.Core.SharedData.{
  OutputKeyIs, put_output-OutputKeyIs, Clears, clear_runtime-Clears,
}

module _ {F : Type 0} (e : Engine F) (inp : NodeRunInput F) where
  -- What stands under the node's key, as the handler reads it.
  abbrev pub approval : Value F
  approval = resolve_ref inp.shared inp.params inp.input (text_param "approval_key" inp.params)

  abbrev pub after_approval : Object F
  after_approval =
      clear_runtime ("ap:" <> inp.node_key) (runtime_of inp.shared)
        (put_output inp.node.post.output_key approval inp.shared)

  abbrev pub OtherDecision : Value F → Type 0
  OtherDecision (bool b) = ⊥
  OtherDecision (str s) = ⊥
  OtherDecision _ = Unit

  -- What a decision is called: by the action key, if there is one; else yes is approved, no is
  -- rejected, a text is itself, and anything else is the static action.
  pub data Concludes : Value F → String → Type 0 where
    by_approval_key :
        {val : Value F} {action : String}
        → inp.node.post.action_key ≢ ""
        → TextAt inp.node.post.action_key (obj (field "approval" val empty)) action
        → Concludes val action
    by_yes : inp.node.post.action_key ≡ "" → Concludes (bool true) "approved"
    by_no : inp.node.post.action_key ≡ "" → Concludes (bool false) "rejected"
    by_name : {s : String} → inp.node.post.action_key ≡ "" → s ≢ "" → Concludes (str s) s
    by_default :
        {val : Value F}
        → inp.node.post.action_key ≡ ""
        → OtherDecision val
        → Concludes val inp.node.post.action_static

  verdict-Concludes :
      (val : Value F)
      → val ≢ str ""
      → inp.node.post.action_key ≡ ""
      → Concludes val (verdict e inp.node.post.action_static val)
  unfolding verdict
  verdict-Concludes (bool true) some_text h = by_yes h
  verdict-Concludes (bool false) some_text h = by_no h
  verdict-Concludes (str s) some_text h = elim (Bool-cases (s == "")) [
    | inl t ↦ absurd (some_text (ap str ((eq_iff s "").0 t)))
    | inr f ↦ rw f (by_name h (λ same. ground (arith, f, eq_iff s "", same)))
  ]
  verdict-Concludes _ some_text h = by_default h tt

  approval_action-Concludes :
      (val : Value F) → val ≢ str "" → Concludes val (approval_action e inp val)
  unfolding approval_action
  approval_action-Concludes val some_text = elim (Bool-cases (inp.node.post.action_key == "")) [
    | inl t ↦ rw t (verdict-Concludes val some_text ((eq_iff inp.node.post.action_key "").0 t))
    | inr f ↦ rw f (
        by_approval_key (λ same. ground (arith, f, eq_iff inp.node.post.action_key "", same))
          (pick_action-TextAt (obj (field "approval" val empty)) inp.node.post.action_key))
  ]

  decision-is_decided : (val : Value F) → val ≢ null → val ≢ str "" → is_decided e val ≡ true
  unfolding is_decided
  decision-is_decided null some_value some_text = absurd (some_value refl)
  decision-is_decided (str s) some_value some_text = elim (Bool-cases (s == "")) [
    | inl t ↦ absurd (some_text (ap str ((eq_iff s "").0 t)))
    | inr f ↦ rw f refl
  ]
  decision-is_decided _ some_value some_text = refl

  -- The row has left along the action of the decision.
  abbrev pub DecisionLeads : Task → Option Err → World → Type 0
  DecisionLeads r res v =
      (res ≡ none)
      × (action : String) × Concludes approval action
      × (written shared : Object F) × OutputKeyIs inp.node.post.output_key approval inp.shared
          written
      × Clears ("ap:" <> inp.node_key) (runtime_of inp.shared) written shared
      × Leaves e inp.task.id r inp.flow_def.edges inp.node_key none action shared
          (inp.task.step_count + 1) v

  -- For a found task that the engine may write, where the value at the approval key is neither
  -- nil nor the empty text, the handler ends, and the row goes along the text of the decision
  -- under the action key, if the node has one, else along approved for true, rejected for false,
  -- a text itself, and the static action for anything else; it is completed where there is no
  -- next node, with the decision under the output key, the node's waiting state cleared and the
  -- step counted.
  pub run_approval-decided :
      (r : Task) (w : World)
      → find_task inp.task.id w.db ≡ some r
      → Writable e r
      → approval ≢ null
      → approval ≢ str ""
      → Ends (run_approval e inp w) (DecisionLeads r)
  unfolding run_approval
  run_approval-decided r w found may some_value some_text =
      let action = approval_action e inp approval in
      rw (decision-is_decided approval some_value some_text) (
        Ends-map
          (λ res v.
            (res ≡ none)
            × Leaves e inp.task.id r inp.flow_def.edges inp.node_key none action after_approval
                (inp.task.step_count + 1) v)
          (DecisionLeads r) _
          (recorded_end-Leaves e inp.task r w found inp.node_key "ok" "" _ _ _ inp.flow_def action _
            (inp.task.step_count + 1) none may)
          (λ res v (fine, left). (
            fine,
            action,
            approval_action-Concludes approval some_text,
            put_output inp.node.post.output_key approval inp.shared,
            after_approval,
            put_output-OutputKeyIs inp.node.post.output_key approval inp.shared,
            clear_runtime-Clears ("ap:" <> inp.node_key) (runtime_of inp.shared)
                (put_output inp.node.post.output_key approval inp.shared),
            left,
          )))

  abbrev pub while_waiting : Object F
  while_waiting =
      keep_runtime ("ap:" <> inp.node_key)
        (as_object (at ("ap:" <> inp.node_key) (runtime_of inp.shared))) (runtime_of inp.shared)
        inp.shared

  -- For a found task that the engine may write, where the value at the approval key is nil or the
  -- empty text, the handler ends and the row stays at the node, running, with the node's waiting
  -- state kept in the shared data.
  run_approval-undecided :
      (r : Task) (w : World)
      → find_task inp.task.id w.db ≡ some r
      → Writable e r
      → is_decided e approval ≡ false
      → Ends (run_approval e inp w) (λ res v.
        (res ≡ none)
        × Moved e inp.task.id r "running" inp.node_key "" while_waiting (inp.task.step_count + 1) v)
  unfolding run_approval
  run_approval-undecided r w found may fails =
      rw fails (waiting-row e inp.task r w found inp.node_key while_waiting may)
