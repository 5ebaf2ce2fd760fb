-- ===== src/Engine/Parallel.antt =====
-- Parallel nodes (pkg/engine/parallel.go).
pub mod Laws
pub mod Round
use pocket_flow_go.Flow.{DefNode, ExecSpec}
use pocket_flow_go.Engine.{Engine, M, panic, pure, ◌>>◌, ◌>>=◌, ask}
use pocket_flow_go.Prelude.{
  List, String, Option, map, ◌∷◌, [], none, some, ◌<>◌, if◌then◌else◌, ◌==◌, select, take, length,
  false,
}
use pocket_flow_go.Value.{
  at, items, string?, Object, Value, arr, field, obj, empty, put_all, str, int, null,
}
use pocket_flow_go.Engine.Core.{NodeRunInput, record_run, update_task_running}
use pocket_flow_go.Engine.Fanout.{
  Progress, branch_node, finish_branches, init_progress, launch_count, run_one, override_node,
  arrange, prefix, collect, override_params, after_collection, Branch, unsettled,
}
use pocket_flow_go.Error.{Err}

module _ {F : Type 0} where
  text_items : List (Value F) → List String
  unfolding string?
  text_items [] = []
  text_items (v ∷ vs) = elim (string? v) [ none ↦ text_items vs | some s ↦ s ∷ text_items vs ]

  listed_services : Value F → List String
  unfolding text_items items
  listed_services (arr xs) = text_items (items xs)
  listed_services _ = []

  abbrev spec_services : List (ExecSpec F) → List String
  spec_services = map (λ sp. sp.service)

  -- The services of a node, in order.
  unfoldable pub parallel_services_of : DefNode F → Object F → List String
  unfolding listed_services at
  parallel_services_of node params = elim node.parallel_execs [
    | sp ∷ sps ↦ spec_services (sp ∷ sps)
    | [] ↦ elim node.parallel_services [
      | s ∷ ss ↦ s ∷ ss
      | [] ↦ listed_services (at "services" params)
    ]
  ]

  -- specs[svc]: of two specifications for one service, the later
  unfoldable pub spec_of : String → List (ExecSpec F) → Option (ExecSpec F)
  spec_of svc [] = none
  spec_of svc (sp ∷ sps) = elim (spec_of svc sps) [
    | some later ↦ some later
    | none ↦ if sp.service == svc then some sp else none
  ]

  -- {"done": {}, "errs": {}, "mode": …, "max": …, "strategy": …}
  unfoldable pub fresh_parallel : DefNode F → Object F
  fresh_parallel node = field "done" (obj empty) (
      field "errs" (obj empty) (
        field "mode" (str node.parallel_mode) (
          field "max" (int node.max_parallel)
            (field "strategy" (str node.failure_strategy) empty))))

module _ {F : Type 0} (e : Engine F) (inp : NodeRunInput F) where
  unfoldable pub parallel_branch : String → Branch F
  unfolding spec_of branch_node override_node override_params put_all
  parallel_branch svc = record {
    key = svc;
    exec = record {
      task = inp.task;
      node = override_node spec (branch_node inp.node svc);
      node_key = inp.node_key;
      input = inp.input;
      params = override_params spec (put_all inp.params empty);
    };
    prep = field "input_key" (str inp.node.prep.input_key) (field "branch" (str svc) empty);
  }
    where
      spec : Option (ExecSpec F)
      spec = spec_of svc inp.node.parallel_execs

  handle_no_services : M (Option Err)
  unfolding record_run update_task_running
  handle_no_services = do
    record_run e inp.task inp.node_key 1 "error"
        (field "input_key" (str inp.node.prep.input_key) empty) inp.input null "no services" "" ""
        "" ""
    update_task_running e inp.task inp.node_key inp.shared
    pure none

  unfoldable run_concurrent : String → Progress F → List String → List String → M (Option Err)
  unfolding launch_count prefix arrange parallel_branch collect after_collection
  run_concurrent key p svcs remaining =
      elim (prefix (launch_count inp.node.max_parallel (length remaining)) remaining) [
        | none ↦ panic
        | some to_run ↦ (do
          order ← ask (λ n. e.arrival n (length to_run))
          c ←
              collect e inp "branch_complete" (arrange order (map parallel_branch to_run))
                (record { done = p.done; errs = p.errs; had_err = false; has_pending = false })
          after_collection e inp "branch_complete" key p svcs c)
      ]

  run_sequential : String → Progress F → List String → M (Option Err)
  unfolding run_one parallel_branch
  run_sequential key p [] = pure none
  run_sequential key p (next ∷ later) = run_one e inp "branch_complete" key p (parallel_branch next)

  -- The launch by the mode that the state names; any other text is the sequential mode.
  unfoldable launch : String → Progress F → List String → List String → M (Option Err)
  unfolding at string? run_concurrent run_sequential
  launch key p svcs remaining = elim (string? (at "mode" p.slot)) [
    | none ↦ panic
    | some mode ↦
        if mode == "concurrent"
        then run_concurrent key p svcs remaining
        else run_sequential key p remaining
  ]

  with_progress : String → List String → Option (Progress F) → M (Option Err)
  unfolding finish_branches launch
  with_progress key svcs none = panic
  with_progress key svcs (some p) = elim (select (unsettled p.done p.errs) svcs) [
    | [] ↦ finish_branches e inp "branch_complete" key p svcs "parallel error"
    | svc ∷ more ↦ launch key p svcs (svc ∷ more)
  ]

  unfoldable pub run_parallel : M (Option Err)
  unfolding parallel_services_of handle_no_services init_progress fresh_parallel with_progress
  run_parallel =
      let key = "pl:" <> inp.node_key in
      elim (parallel_services_of inp.node inp.params) [
        | [] ↦ handle_no_services
        | s ∷ ss ↦
            with_progress key (s ∷ ss) (init_progress key (fresh_parallel inp.node) inp.shared)
      ]
