-- ===== src/Engine/Foreach.antt =====
-- Foreach nodes (pkg/engine/foreach.go).
pub mod Laws
pub mod Round
use pocket_flow_go.Flow.{DefNode, ExecSpec}
use pocket_flow_go.Engine.{Engine, M, panic, pure, ◌>>◌, ◌>>=◌, ask}
use pocket_flow_go.Value.{
  items, Object, Value, at, field, arr, obj, string?, empty, int, put_all, str, nil,
}
use pocket_flow_go.Prelude.Decimal.{itoa}
use pocket_flow_go.Engine.Core.{NodeRunInput, record_run, finish_node}
use pocket_flow_go.Prelude.{
  ℕ, List, String, Option, [], ◌∷◌, ◌+◌, ◌<>◌, if◌then◌else◌, none, take, find_first, length, some,
  ◌==◌, false,
}
use pocket_flow_go.Engine.Fanout.{
  branch_node, finish_branches, init_progress, launch_count, run_one, Branch, override_node,
  arrange, prefix, Progress, collect, override_params, after_collection, unsettled,
}
use pocket_flow_go.Error.{Err}
use pocket_flow_go.Prelude.Int.{pos, eq_ℤ}

module _ {F : Type 0} where
  unfoldable pub resolve_items : Value F → List (Value F)
  unfolding items
  resolve_items (arr xs) = items xs
  resolve_items _ = []

  -- The keys of the results: the indices from `i` on.
  unfoldable pub index_keys : ℕ → List (Value F) → List String
  unfolding itoa
  index_keys i [] = []
  index_keys i (x ∷ xs) = itoa i ∷ index_keys (i + 1) xs

  unfoldable pub fresh_foreach : DefNode F → Object F
  fresh_foreach node = field "done" (obj empty) (
      field "errs" (obj empty) (
        field "idx" (int (pos 0)) (
          field "mode" (str node.parallel_mode) (
            field "max" (int node.max_parallel)
              (field "strategy" (str node.failure_strategy) empty)))))

module _ {F : Type 0} (e : Engine F) (inp : NodeRunInput F) where
  unfoldable pub foreach_branch : ℕ → Value F → Branch F
  unfolding branch_node override_node override_params put_all itoa
  foreach_branch i item = record {
    key = itoa i;
    exec = record {
      task = inp.task;
      node = override_node spec (branch_node inp.node inp.node.service);
      node_key = inp.node_key;
      input = item;
      params = override_params spec (put_all inp.params empty);
    };
    prep = field "branch" (int (pos i)) empty;
  }
    where
      spec : Option (ExecSpec F)
      spec = find_first (λ (s : ExecSpec F). eq_ℤ s.index (pos i)) inp.node.foreach_execs

  -- The branches of the items that have no result yet, in order.
  unfoldable pub open_branches : Object F → Object F → ℕ → List (Value F) → List (Branch F)
  unfolding foreach_branch itoa
  open_branches done errs i [] = []
  open_branches done errs i (x ∷ xs) =
      let rest = open_branches done errs (i + 1) xs in
      if unsettled done errs (itoa i) then foreach_branch i x ∷ rest else rest

  handle_empty_list : M (Option Err)
  unfolding record_run finish_node
  handle_empty_list = do
    record_run e inp.task inp.node_key 1 "ok"
        (field "input_key" (str inp.node.prep.input_key) empty) inp.input (arr nil) ""
        inp.node.post.action_static "" "" ""
    finish_node e inp.task inp.flow_def inp.node_key inp.node.post.action_static inp.shared
        (inp.task.step_count + 1) none

  unfoldable foreach_concurrent :
      String → Progress F → List String → List (Branch F) → M (Option Err)
  unfolding launch_count prefix arrange collect after_collection
  foreach_concurrent key p keys remaining =
      elim (prefix (launch_count inp.node.max_parallel (length remaining)) remaining) [
        | none ↦ panic
        | some to_run ↦ (do
          order ← ask (λ n. e.arrival n (length to_run))
          c ←
              collect e inp "item_complete" (arrange order to_run)
                (record { done = p.done; errs = p.errs; had_err = false; has_pending = false })
          after_collection e inp "item_complete" key p keys c)
      ]

  foreach_sequential : String → Progress F → List (Branch F) → M (Option Err)
  unfolding run_one
  foreach_sequential key p [] = pure none
  foreach_sequential key p (b ∷ bs) = run_one e inp "item_complete" key p b

  unfoldable launch_items : String → Progress F → List String → List (Branch F) → M (Option Err)
  unfolding at string? foreach_concurrent foreach_sequential
  launch_items key p keys remaining = elim (string? (at "mode" p.slot)) [
    | none ↦ panic
    | some mode ↦
        if mode == "concurrent"
        then foreach_concurrent key p keys remaining
        else foreach_sequential key p remaining
  ]

  with_items : String → List (Value F) → Option (Progress F) → M (Option Err)
  unfolding open_branches index_keys finish_branches launch_items
  with_items key xs none = panic
  with_items key xs (some p) = elim (open_branches p.done p.errs 0 xs) [
    | [] ↦ finish_branches e inp "item_complete" key p (index_keys 0 xs) "foreach error"
    | b ∷ bs ↦ launch_items key p (index_keys 0 xs) (b ∷ bs)
  ]

  unfoldable pub run_foreach : M (Option Err)
  unfolding resolve_items handle_empty_list init_progress fresh_foreach with_items
  run_foreach =
      let key = "fe:" <> inp.node_key in
      elim (resolve_items inp.input) [
        | [] ↦ handle_empty_list
        | x ∷ xs ↦ with_items key (x ∷ xs) (init_progress key (fresh_foreach inp.node) inp.shared)
      ]
