-- ===== src/Examples/Stepped.antt =====
-- The theorems on the engine, applied.
use pocket_flow_go.Flow.{DefNode, zero_node}
use pocket_flow_go.Engine.Core.{finish_node}
use pocket_flow_go.Value.{as_object, empty}
use pocket_flow_go.Engine.Core.Laws.{Writable, Ends, Moved, Leaves, finish_node-row}
use pocket_flow_go.Store.Tasks.{
  get_task, joined, get_task, joined, get_task, joined, get_task, joined, get_task, joined,
  get_task, joined, get_task, joined, get_task, joined, get_task, joined, get_task, joined,
  get_task, joined, get_task, joined, get_task, joined, get_task, joined, get_task, joined,
}
use pocket_flow_go.Examples.{toy_engine, leased_task, one_leased, toy_flow}
use pocket_flow_go.Prelude.Int.{ℤ}
use pocket_flow_go.Engine.RunOnce.{run_once}
use pocket_flow_go.Prelude.{inr, none, arith, ◌≡◌, eq_iff, refl}
use pocket_flow_go.Engine.RunOnce.Laws.{run_once-canceling}
use pocket_flow_go.Store.Tasks.Laws.{find_task}
use pocket_flow_go.Engine.Core.Frame.{finish_node-others}

pub lease_held : Writable toy_engine (leased_task "running")
lease_held = inr (λ same. ground (arith, eq_iff "s1" "", same), refl, λ n. omega arith)

canceling_held : Writable toy_engine (leased_task "canceling")
canceling_held = inr (λ same. ground (arith, eq_iff "s1" "", same), refl, λ n. omega arith)

abbrev pub static_node : DefNode ℤ
static_node = record zero_node {
  post = record { output_key = ""; output_map = none; action_static = "approved"; action_key = "" };
}

finish_node-row_example :
    Ends
      (finish_node toy_engine
        (leased_task "running")
        toy_flow
        "a"
        "approved"
        empty
        1
        none
        (one_leased "running"))
      (λ res v.
        (res ≡ none)
        × Leaves toy_engine "t1"
            (leased_task "running")
            toy_flow.edges
            "a"
            none
            "approved"
            empty
            1
            v)
finish_node-row_example =
    finish_node-row toy_engine (leased_task "running") (leased_task "running")
      (one_leased "running") refl toy_flow "a" "approved" empty 1 none lease_held

run_once-canceling_example :
    Ends
      (run_once toy_engine "t1" (one_leased "canceling"))
      (λ _ v. Moved toy_engine "t1" (leased_task "canceling") "canceled" "" "canceled" empty 0 v)
unfolding get_task joined as_object
run_once-canceling_example =
    run_once-canceling toy_engine "t1" (one_leased "canceling") (leased_task "canceling") refl
      canceling_held refl

finish_node-others_example :
    Ends
      (finish_node toy_engine
        (leased_task "running")
        toy_flow
        "a"
        "approved"
        empty
        1
        none
        (one_leased "running"))
      (λ _ v. find_task "t0" v.db ≡ find_task "t0" (one_leased "running").db)
finish_node-others_example =
    finish_node-others toy_engine (leased_task "running") toy_flow "a" "approved" empty 1 none "t0"
      (one_leased "running") (λ same. ground (arith, eq_iff "t0" "t1", same))
