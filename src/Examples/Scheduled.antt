-- ===== src/Examples/Scheduled.antt =====
-- The theorems on the scheduling loop, applied.
use pocket_flow_go.Engine.Core.Laws.{Ends}
use pocket_flow_go.Engine.{Engine, World}
use pocket_flow_go.Flow.{FlowDef, node_at, zero_node}
use pocket_flow_go.Prelude.{
  String, ◌<◌, ℕ, Bool-cases, arith, if◌then◌else◌, ◌==◌, none, some, eq_iff, inl, ◌∷◌, [], inr,
  refl, ◌≡◌,
}
use pocket_flow_go.Engine.RunOnce.Forward.{IsForward}
use pocket_flow_go.Scheduler.{lease_and_step, step_task, leave}
use pocket_flow_go.Examples.{two_waiting, toy_engine, one_leased, leased_task}
use pocket_flow_go.Prelude.Int.{ℤ, pos}
use pocket_flow_go.Scheduler.Round.{Served, lease_and_step-Served}
use pocket_flow_go.Store.Flows.{new_flow_version}
use pocket_flow_go.Examples.Stored.{Keyed-waiting}
use mathlib.Core.Path.{subst}
use mathlib.Core.Option.{some-injective}
use pocket_flow_go.Store.Tasks.Laws.{find_task}
use pocket_flow_go.Store.Tasks.{set_status}
use pocket_flow_go.Scheduler.Stolen.{step_task-taken_over}

-- A choice node "a", whose usual action leads to a node "b" without a service.
abbrev forward_flow : FlowDef ℤ
forward_flow = record {
  start = "a";
  nodes = ("a", record { node = record zero_node { kind = "choice" }; subflow = none }) ∷ [];
  edges = record { from = "a"; action = "default"; to = "b" } ∷ [];
}

abbrev forward_engine : Engine ℤ
forward_engine = record toy_engine { decode_flow = λ s. some forward_flow }

abbrev forward_rank : String → ℕ
forward_rank key = if key == "a" then 1 else 0

abbrev forward_world : World
forward_world = record {
  db = record two_waiting {
    flow_versions = new_flow_version "fv1" "f1" (pos 1) "{}" "published" ∷ [];
  };
  tick = 0;
}

IsForward-forward_flow : IsForward forward_rank forward_flow
unfolding node_at
IsForward-forward_flow = (
  λ key. elim (Bool-cases ("a" == key)) [
    | inl t ↦ rw t (inl refl)
    | inr f ↦ rw f (inr (λ same. ground (arith, eq_iff "" "choice", same), refl, 0, refl))
  ],
  (omega arith, tt),
)

rank_bound : (key : String) → forward_rank key < 2
rank_bound key = ground arith

lease_and_step-Served_example :
    Ends (lease_and_step forward_engine 2 forward_world) (Served forward_engine forward_rank)
lease_and_step-Served_example =
    lease_and_step-Served forward_engine forward_rank (λ same. ground (arith, eq_iff "s1" "", same))
      (λ n m. omega arith) 2 forward_world Keyed-waiting
      (λ id fv def stored decoded.
        subst (λ d. IsForward forward_rank d) (some-injective _ _ decoded) IsForward-forward_flow)
      rank_bound

abbrev slow_engine : Engine ℤ
slow_engine = record toy_engine { owner = "s2" }

-- The task "t1" is leased by "s1".
step_task-taken_over_example : Ends (step_task slow_engine "t1" (one_leased "running")) (λ next v.
    (next ≡ leave)
    × (stamp : ℕ) × (find_task "t1" v.db
        ≡ some (set_status stamp "failed" (leased_task "running"))))
step_task-taken_over_example =
    step_task-taken_over slow_engine "t1" (leased_task "running") (one_leased "running") refl
      (λ same. ground (arith, eq_iff "s2" "", same))
      (λ same. ground (arith, eq_iff "s1" "s2", same))
