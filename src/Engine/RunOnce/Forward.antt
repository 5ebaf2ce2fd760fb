-- ===== src/Engine/RunOnce/Forward.antt =====
-- That a choice node or an executor node sends its task down, in a flow without cycles.
use pocket_flow_go.Engine.RunOnce.{node_input, dispatch}
use pocket_flow_go.Flow.{DefNode, FlowDef, DefEdge, node_at, zero_node}
use pocket_flow_go.Engine.{Engine, World}
use pocket_flow_go.Prelude.{
  String, Bool, ℕ, ◌≡◌, ◌==◌, List, true, ◌⊎◌, ◌<◌, Option, ◌||◌, ◌≢◌, false, some, inl, none, ◌∷◌,
  arith, eq_iff, inr, [], refl, sym,
}
use pocket_flow_go.Store.{Task}
use pocket_flow_go.Store.Tasks.Laws.{find_task}
use pocket_flow_go.Store.Sql.Laws.{All}
use pocket_flow_go.Error.{Err}
use pocket_flow_go.Value.{Object}
use pocket_flow_go.Engine.Core.Laws.{Moved, Writable, Ends, moved, Ends-map, Leaves, Moved-Leaves}
use pocket_flow_go.Prelude.Int.{pos, ℤ}
use pocket_flow_go.Engine.Core.Kept.{SameVersions, Ends-both}
use pocket_flow_go.Engine.Choice.{run_choice, choice_action}
use pocket_flow_go.Engine.Choice.Laws.{run_choice-row, run_choice-SameVersions}
use mathlib.Core.Path.{subst}
use pocket_flow_go.Engine.Executor.Node.{run_executor_node}
use pocket_flow_go.Engine.Executor.Node.Rows.{
  run_executor_node-Leads, run_executor_node-SameVersions,
}
use pocket_flow_go.Engine.Core.{NodeRunInput}
use pocket_flow_go.Store.Tasks.Joined.{named}
use pocket_flow_go.Engine.Core.Outcome.{
  Follows, no_edge, edge_taken, edge_passed, fits_named, fits_default,
}

-- The scheduler's reasons to leave a task.
abbrev pub is_left : Task → Bool
is_left t =
    t.status == "completed"
    || t.status == "failed"
    || t.status == "waiting_queue"
    || t.current_node_key == ""

-- The kinds that have handlers of their own, which may wait or take several steps.
abbrev pub is_special : String → Bool
is_special kind =
    kind == "parallel"
    || kind == "subflow"
    || kind == "timer"
    || kind == "foreach"
    || kind == "wait_event"
    || kind == "approval"

-- A choice node, or an executor node whose max_attempts is not negative.
abbrev pub IsPlain : {F : Type 0} → DefNode F → Type 0
IsPlain node =
    (node.kind ≡ "choice")
    ⊎ ((node.kind ≢ "choice")
        × (is_special node.kind ≡ false)
        × (n : ℕ) × (node.max_attempts ≡ pos n))

-- Every node is plain, and every edge goes down.
abbrev pub IsForward : {F : Type 0} → (String → ℕ) → FlowDef F → Type 0
IsForward {F} rank def =
    ((key : String)
      → IsPlain (node_at (record { node = zero_node {F = F}; subflow = none }) key def.nodes).node)
    × All (λ (ed : DefEdge). rank ed.to < rank ed.from) def.edges

Follows-rank :
    (rank : String → ℕ) (edges : List DefEdge) (from action next : String)
    → All (λ (ed : DefEdge). rank ed.to < rank ed.from) edges
    → Follows edges from action next
    → (next ≡ "") ⊎ (rank next < rank from)
Follows-rank rank [] from action _ a no_edge = inl refl
Follows-rank rank (ed ∷ rest) from _ _ a (edge_taken (fits_named own n m)) =
    inr (subst (λ f. rank ed.to < rank f) own a.0)
Follows-rank rank (ed ∷ rest) from _ _ a (edge_taken (fits_default own m)) =
    inr (subst (λ f. rank ed.to < rank f) own a.0)
Follows-rank rank (ed ∷ rest) from action next a (edge_passed no_fit others) =
    Follows-rank rank rest from action next a.1 others

module _ {F : Type 0} (e : Engine F) (inp : NodeRunInput F) (w : World) where
  dispatch-choice : inp.node.kind ≡ "choice" → dispatch e inp w ≡ run_choice e inp w
  unfolding dispatch
  dispatch-choice choice = rw (dispatch, (eq_iff inp.node.kind "choice").1 choice) refl

  dispatch-executor :
      inp.node.kind ≢ "choice"
      → is_special inp.node.kind ≡ false
      → dispatch e inp w ≡ run_executor_node e inp w
  unfolding dispatch
  dispatch-executor no_choice plain =
      let kind = inp.node.kind in
      let choice : (kind == "choice") ≡ false = ground (arith, eq_iff kind "choice", no_choice) in
      let parallel : (kind == "parallel") ≡ false = ground (arith, plain) in
      let subflow : (kind == "subflow") ≡ false = ground (arith, plain) in
      let timer : (kind == "timer") ≡ false = ground (arith, plain) in
      let foreach : (kind == "foreach") ≡ false = ground (arith, plain) in
      let event : (kind == "wait_event") ≡ false = ground (arith, plain) in
      let approval : (kind == "approval") ≡ false = ground (arith, plain) in
      rw (dispatch, choice, parallel, subflow, timer, foreach, event, approval) refl

module _ {F : Type 0} (e : Engine F) (rank : String → ℕ) where
  -- The row has been left, or it has gone down.
  abbrev pub Down : Task → Task → Type 0
  Down r r' =
      (r'.flow_version_id ≡ r.flow_version_id)
      × (r'.lease_owner ≡ r.lease_owner)
      × ((is_left r' ≡ true) ⊎ (rank r'.current_node_key < rank r.current_node_key))

  abbrev pub Stepped : String → Task → World → Type 0
  Stepped id r v = (r' : Task) × (find_task id v.db ≡ some r') × Down r r'

  Leaves-Stepped :
      (id : String) (r : Task) (edges : List DefEdge) (x : Option Err) (action : String)
      (shared : Object F) (steps : ℕ) (v : World)
      → All (λ (ed : DefEdge). rank ed.to < rank ed.from) edges
      → Leaves e id r edges r.current_node_key x action shared steps v
      → Stepped id r v
  Leaves-Stepped id r edges x action shared steps v forward
        (next, status, follows, said, (stamp, h)) =
      (
        moved e stamp status next action shared steps r,
        h,
        (
          refl,
          refl,
          elim (Follows-rank rank edges r.current_node_key action next forward follows) [
            | inl gone ↦ inl (ground (arith, gone, eq_iff next ""))
            | inr lower ↦ inr lower
          ],
        ),
      )

  -- What one step has done.
  abbrev pub Step : String → Task → World → Option Err → World → Type 0
  Step id r w res v = (res ≡ none) × Stepped id r v × SameVersions e w res v

  module _ (flow name : String) (version : ℤ) (r : Task) (def : FlowDef F)
      (forward : IsForward rank def) (w : World) (found : find_task r.id w.db ≡ some r)
      (may : Writable e r) where
    abbrev inp : NodeRunInput F
    inp = node_input e (named flow name version r) def

    choice-Step : Ends (run_choice e inp w) (Step r.id r w)
    unfolding node_input
    choice-Step =
        Ends-map _ (Step r.id r w) _
          (Ends-both _ _ _ (run_choice-row e inp r w found may) (run_choice-SameVersions e inp w))
          (λ res v (row, same). (
            row.0,
            Leaves-Stepped r.id r def.edges none (choice_action e inp) _ _ v forward.1 (
                Moved-Leaves e r.id r def.edges r.current_node_key none (choice_action e inp) _ _ v
                  row.1),
            same,
          ))

    waiting-Stepped :
        (node action : String) (shared : Object F) (steps : ℕ) (v : World)
        → Moved e r.id r "waiting_queue" node action shared steps v
        → Stepped r.id r v
    waiting-Stepped node action shared steps v (stamp, h) =
        (moved e stamp "waiting_queue" node action shared steps r, h, (refl, refl, inl refl))

    executor-Step :
        (n : ℕ) → inp.node.max_attempts ≡ pos n → Ends (run_executor_node e inp w) (Step r.id r w)
    unfolding node_input
    executor-Step n limit =
        Ends-map _ (Step r.id r w) _
          (Ends-both _ _ _ (run_executor_node-Leads e inp n limit r w found may)
            (run_executor_node-SameVersions e inp n limit w))
          (λ res v ((fine, leads), same). (
            fine,
            elim leads [
              | inl (pending, row) ↦ waiting-Stepped _ _ _ _ v row
              | inr (inl (m, out, action, shared, ran, good, selected, written, row)) ↦
                  Leaves-Stepped r.id r def.edges none action shared _ v forward.1 row
              | inr (inr (m, out, x, ran, bad, last, row)) ↦
                  Leaves-Stepped r.id r def.edges (some x) "" _ _ v forward.1 row
            ],
            same,
          ))

    pub dispatch-Step : Ends (dispatch e inp w) (Step r.id r w)
    unfolding node_input
    dispatch-Step = elim (forward.0 r.current_node_key) [
      | inl choice ↦
          subst (λ o. Ends o (Step r.id r w)) (sym (dispatch-choice e inp w choice)) choice-Step
      | inr (no_choice, plain, n, limit) ↦
          subst (λ o. Ends o (Step r.id r w)) (sym (dispatch-executor e inp w no_choice plain))
            (executor-Step n limit)
    ]
