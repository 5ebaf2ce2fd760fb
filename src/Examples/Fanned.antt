-- ===== src/Examples/Fanned.antt =====
-- The theorems on finished parallel and foreach nodes, applied.
use pocket_flow_go.Flow.{DefNode, zero_node}
use pocket_flow_go.Prelude.{String, ◌∷◌, [], refl, inr, arith, eq_iff}
use pocket_flow_go.Engine.Parallel.{parallel_services_of, run_parallel, fresh_parallel}
use pocket_flow_go.Engine.Foreach.{
  resolve_items, open_branches, run_foreach, index_keys, fresh_foreach, foreach_branch,
}
use pocket_flow_go.Engine.Core.{NodeRunInput, runtime_of}
use pocket_flow_go.Value.{
  Object, items, field, int, obj, object?, at, empty, arr, get, as_object, cons, nil, string?,
}
use pocket_flow_go.Engine.Fanout.{Progress, init_progress, Branch}
use pocket_flow_go.Prelude.Int.{ℤ, pos}
use pocket_flow_go.Examples.{run_of, toy_engine, one_leased, leased_task}
use pocket_flow_go.Engine.Core.Laws.{Ends, Writable}
use pocket_flow_go.Prelude.Decimal.{itoa}
use pocket_flow_go.Engine.Fanout.Finish.{Settled}
use pocket_flow_go.Engine.Parallel.Laws.{run_parallel-Settled}
use pocket_flow_go.Examples.Stepped.{lease_held}
use pocket_flow_go.Engine.{Engine}
use pocket_flow_go.Engine.Foreach.Round.{VisitedItems, run_foreach-Visited}
use pocket_flow_go.Engine.Parallel.Round.{
  VisitedServices, IsBranch, run_parallel-Visited, run_parallel-RunsOne,
}
use pocket_flow_go.Engine.Fanout.Sequence.{RunsOne}

abbrev fan_node : DefNode ℤ
fan_node = record zero_node { parallel_services = "s" ∷ [] }

-- The state of a node whose only branch has the result 7.
abbrev settled_slot : String → Object ℤ
settled_slot key =
    field "done" (obj (field key (int (pos 7)) empty)) (field "errs" (obj empty) empty)

abbrev settled_rt : String → String → Object ℤ
settled_rt name key = field name (obj (settled_slot key)) empty

abbrev settled_progress : String → String → Progress ℤ
settled_progress name key = record {
  rt = settled_rt name key;
  slot = settled_slot key;
  done = field key (int (pos 7)) empty;
  errs = empty;
}

abbrev fan_input : String → String → NodeRunInput ℤ
fan_input name key =
    record (run_of fan_node (field "_rt" (obj (settled_rt name key)) empty) empty) {
      input = arr (cons (int (pos 1)) nil);
    }

run_parallel-Settled_example :
    Ends (run_parallel toy_engine (fan_input "pl:a" "s") (one_leased "running")) (
      Settled toy_engine
        (fan_input "pl:a" "s")
        (leased_task "running")
        "pl:a"
        (settled_progress "pl:a" "s")
        ("s" ∷ [])
        "parallel error")
unfolding parallel_services_of init_progress runtime_of object? at get as_object
run_parallel-Settled_example =
    run_parallel-Settled toy_engine (fan_input "pl:a" "s") (settled_progress "pl:a" "s") "s" []
      (leased_task "running") (one_leased "running") refl lease_held refl refl refl

-- The first branch arrives behind the second.
abbrev fan_engine : Engine ℤ
fan_engine = record toy_engine { arrival = λ n count. 1 ∷ [] }

fan_held : Writable fan_engine (leased_task "running")
fan_held = inr (λ same. ground (arith, eq_iff "s1" "", same), refl, λ n. omega arith)

abbrev round_node : DefNode ℤ
round_node = record zero_node {
  parallel_mode = "concurrent";
  max_parallel = pos 2;
  parallel_services = "s" ∷ "u" ∷ [];
}

abbrev round_run : NodeRunInput ℤ
round_run = record (run_of round_node empty empty) {
  input = arr (cons (int (pos 1)) (cons (int (pos 2)) nil));
}

abbrev fresh_progress : Object ℤ → Progress ℤ
fresh_progress slot = record { rt = empty; slot = slot; done = empty; errs = empty }

run_foreach-Visited_example : Ends (run_foreach fan_engine round_run (one_leased "running")) (
    VisitedItems fan_engine round_run
      (fresh_progress (fresh_foreach round_node))
      (int (pos 1) ∷ int (pos 2) ∷ [])
      (foreach_branch fan_engine round_run 0 (int (pos 1))
        ∷ foreach_branch fan_engine round_run 1 (int (pos 2))
        ∷ [])
      (leased_task "running")
      (record (one_leased "running") { tick = 1 }))
unfolding resolve_items items init_progress runtime_of object? at get as_object open_branches itoa
    fresh_foreach string? index_keys
run_foreach-Visited_example =
    run_foreach-Visited fan_engine round_run 0 refl (fresh_progress (fresh_foreach round_node))
      (int (pos 1)) (int (pos 2) ∷ []) _ _ (leased_task "running") (one_leased "running") refl
      fan_held refl refl refl refl

run_parallel-Visited_example : Ends (run_parallel fan_engine round_run (one_leased "running")) (
    VisitedServices fan_engine round_run
      (fresh_progress (fresh_parallel round_node))
      ("s" ∷ "u" ∷ [])
      ("s" ∷ "u" ∷ [])
      (leased_task "running")
      (record (one_leased "running") { tick = 1 }))
unfolding parallel_services_of init_progress runtime_of object? at get as_object fresh_parallel
    string?
run_parallel-Visited_example =
    run_parallel-Visited fan_engine round_run 0 refl (fresh_progress (fresh_parallel round_node))
      "s" ("u" ∷ []) "s" ("u" ∷ []) (leased_task "running") (one_leased "running") refl fan_held
      refl refl refl refl

abbrev calm_node : DefNode ℤ
calm_node = record round_node { parallel_mode = "sequential" }

run_parallel-RunsOne_example :
    Ends
      (run_parallel fan_engine (record round_run { node = calm_node }) (one_leased "running"))
      (λ out v.
        (b : Branch ℤ) × IsBranch fan_engine (record round_run { node = calm_node }) "s" b
        × RunsOne fan_engine
            (record round_run { node = calm_node })
            "branch_complete"
            "pl:a"
            (fresh_progress (fresh_parallel calm_node))
            b
            (leased_task "running")
            (one_leased "running")
            out
            v)
unfolding parallel_services_of init_progress runtime_of object? at get as_object fresh_parallel
    string?
run_parallel-RunsOne_example =
    run_parallel-RunsOne fan_engine (record round_run { node = calm_node }) 0 refl
      (fresh_progress (fresh_parallel calm_node)) "s" ("u" ∷ []) "s" ("u" ∷ []) "sequential"
      (leased_task "running") (one_leased "running") refl fan_held refl refl refl refl
      (λ same. ground (arith, eq_iff "sequential" "concurrent", same))
