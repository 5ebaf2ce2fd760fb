-- ===== src/Engine/Parallel/Round.antt =====
-- A visit of a parallel node that runs its branches at the same time.
use pocket_flow_go.Engine.Parallel.{
  run_concurrent, launch, with_progress, parallel_branch, run_parallel, spec_of,
  parallel_services_of, fresh_parallel,
}
use pocket_flow_go.Engine.{Engine, World}
use pocket_flow_go.Engine.Core.{NodeRunInput}
use pocket_flow_go.Prelude.{
  List, ℕ, String, ◌≡◌, length, map, ◌∷◌, some, [], ◌<>◌, select, suc, ◌∙◌, ◌≢◌, ◌==◌, false, arith,
  eq_iff, Option, refl,
}
use pocket_flow_go.Prelude.Int.{pos}
use pocket_flow_go.Store.Sql.Laws.{All}
use pocket_flow_go.Engine.Fanout.{Branch, Progress, init_progress, unsettled, arrange}
use pocket_flow_go.Store.{Task}
use pocket_flow_go.Store.Tasks.Laws.{find_task}
use pocket_flow_go.Engine.Core.Laws.{Writable, Ends, Ends-map}
use pocket_flow_go.Value.{string?, at}
use pocket_flow_go.Engine.Fanout.Round.{Visited, collected-Visited}
use pocket_flow_go.Engine.Fanout.Launch.{
  All-arrange, arrange-perm, prefix-Launches, Launches, override_node-max_attempts,
  override_node-service,
}
use pocket_flow_go.Engine.Fanout.Results.{Limited}
use pocket_flow_go.Engine.Parallel.{run_sequential}
use pocket_flow_go.Engine.Fanout.Sequence.{RunsOne, run_one-RunsOne}
use pocket_flow_go.Error.{Err}

module _ {F : Type 0} (e : Engine F) (inp : NodeRunInput F) where
  -- The branch of a service: it executes the service with the node's input, under its name.
  abbrev pub IsBranch : String → Branch F → Type 0
  IsBranch svc b =
      (b.key ≡ svc)
      × (b.exec.node.service ≡ svc)
      × (b.exec.input ≡ inp.input)
      × (b.exec.task ≡ inp.task)
      × (b.exec.node_key ≡ inp.node_key)

  abbrev pub Branches : List String → List (Branch F) → Type 0
  Branches [] [] = Unit
  Branches (svc ∷ svcs) (b ∷ bs) = IsBranch svc b × Branches svcs bs
  Branches _ _ = ⊥

  parallel_branch-IsBranch : (svc : String) → IsBranch svc (parallel_branch e inp svc)
  unfolding parallel_branch
  parallel_branch-IsBranch svc = (
    refl,
    override_node-service inp.node (spec_of svc inp.node.parallel_execs) svc,
    refl,
    refl,
    refl,
  )

  map-Branches : (svcs : List String) → Branches svcs (map (parallel_branch e inp) svcs)
  map-Branches [] = tt
  map-Branches (svc ∷ svcs) = (parallel_branch-IsBranch svc, map-Branches svcs)

  -- The services that are launched are the first of the open ones, as many as the limit lets; each of
  -- their branches has been collected once, and the row has gone on by what was collected.
  abbrev pub VisitedServices :
      Progress F → List String → List String → Task → World → Option Err → World → Type 0
  VisitedServices p svcs remaining r w res v =
      (launched rest : List String) × Launches inp.node.max_parallel remaining launched rest
      × (branches : List (Branch F)) × Branches launched branches
      × Visited e inp "branch_complete" ("pl:" <> inp.node_key) p svcs branches r w res v

  module _ (n : ℕ) (limit : inp.node.max_attempts ≡ pos n) where
    branches-Limited : (svcs : List String) → All Limited (map (parallel_branch e inp) svcs)
    unfolding parallel_branch
    branches-Limited [] = tt
    branches-Limited (svc ∷ svcs) = (
      (n, override_node-max_attempts inp.node (spec_of svc inp.node.parallel_execs) svc ∙ limit),
      branches-Limited svcs,
    )

    run_concurrent-Visited :
        (p : Progress F) (svcs remaining : List String) (r : Task) (w : World)
        → find_task inp.task.id w.db ≡ some r
        → Writable e r
        → Ends
            (run_concurrent e inp ("pl:" <> inp.node_key) p svcs remaining w)
            (VisitedServices p svcs remaining r (record w { tick = suc w.tick }))
    unfolding run_concurrent
    run_concurrent-Visited p svcs remaining r w found may =
        let (ys, rest, cut, launches) = prefix-Launches inp.node.max_parallel remaining in
        let branches = map (parallel_branch e inp) ys in
        let order = e.arrival w.tick (length ys) in
        let there : World = record w { tick = suc w.tick } in
        rw (Ends, cut)
          (Ends-map
            (Visited e inp "branch_complete" ("pl:" <> inp.node_key) p svcs branches r there)
            (VisitedServices p svcs remaining r there) _
            (collected-Visited e inp "branch_complete" ("pl:" <> inp.node_key) p svcs
              (arrange order branches) branches r there (arrange-perm order branches)
              (All-arrange Limited order branches (branches-Limited ys)) found may)
            (λ res v visited. (ys, rest, launches, branches, map-Branches ys, visited)))

    -- For a found task that the engine may write, and a parallel node in the concurrent mode,
    -- with services that are still open and a max_attempts that is not negative, in whatever
    -- order the results arrive: the handler ends without an error. The first of the open services
    -- were launched, all of them where there is no limit, else as many as the limit lets; the
    -- branch of each was executed once with the node's input, and its result or its error
    -- collected under its name, or that it is pending, each but a pending one recorded. The
    -- collection is kept in the node's state, and the row waits for the queue exactly where a
    -- branch is pending; else, where a branch has failed and the strategy is fail_fast, it has
    -- gone along the action of the results that there are, failed where there is no next node,
    -- with these results under the output key; else it stays at the node, running.
    pub run_parallel-Visited :
        (p : Progress F) (svc : String) (svcs : List String) (s : String) (ss : List String)
        (r : Task) (w : World)
        → find_task inp.task.id w.db ≡ some r
        → Writable e r
        → parallel_services_of inp.node inp.params ≡ svc ∷ svcs
        → init_progress ("pl:" <> inp.node_key) (fresh_parallel inp.node) inp.shared ≡ some p
        → select (unsettled p.done p.errs) (svc ∷ svcs) ≡ s ∷ ss
        → string? (at "mode" p.slot) ≡ some "concurrent"
        → Ends
            (run_parallel e inp w)
            (VisitedServices p (svc ∷ svcs) (s ∷ ss) r (record w { tick = suc w.tick }))
    unfolding run_parallel with_progress launch
    run_parallel-Visited p svc svcs s ss r w found may listed progress still mode =
        rw (run_parallel, listed, progress, with_progress, still, launch, mode)
          (run_concurrent-Visited p (svc ∷ svcs) (s ∷ ss) r w found may)

    -- For a found task that the engine may write, and a parallel node in another mode than the
    -- concurrent one, with services that are still open and a max_attempts that is not negative:
    -- the handler ends without an error, after one execution of the first open service, with the
    -- node's input. Where that is pending, the row waits for the queue, with the shared data as
    -- they were; else it stays at the node, running, with the result, or the text of the error,
    -- added under the service's name to what the node's state holds.
    pub run_parallel-RunsOne :
        (p : Progress F) (svc : String) (svcs : List String) (s : String) (ss : List String)
        (mode : String) (r : Task) (w : World)
        → find_task inp.task.id w.db ≡ some r
        → Writable e r
        → parallel_services_of inp.node inp.params ≡ svc ∷ svcs
        → init_progress ("pl:" <> inp.node_key) (fresh_parallel inp.node) inp.shared ≡ some p
        → select (unsettled p.done p.errs) (svc ∷ svcs) ≡ s ∷ ss
        → string? (at "mode" p.slot) ≡ some mode
        → mode ≢ "concurrent"
        → Ends (run_parallel e inp w) (λ out v.
          (b : Branch F) × IsBranch s b
          × RunsOne e inp "branch_complete" ("pl:" <> inp.node_key) p b r w out v)
    unfolding run_parallel with_progress launch run_sequential
    run_parallel-RunsOne p svc svcs s ss mode r w found may listed progress still named other =
        let sequential : (mode == "concurrent") ≡ false =
          ground (arith, other, eq_iff mode "concurrent") in
        let limited = branches-Limited (s ∷ ss) in
        let b = parallel_branch e inp s in
        rw (run_parallel, listed, progress, with_progress, still, launch, named, sequential)
          (Ends-map (RunsOne e inp "branch_complete" ("pl:" <> inp.node_key) p b r w)
            (λ out v.
              (c : Branch F) × IsBranch s c
              × RunsOne e inp "branch_complete" ("pl:" <> inp.node_key) p c r w out v)
            _
            (run_one-RunsOne e inp "branch_complete" ("pl:" <> inp.node_key) p b r w limited.0 found
              may)
            (λ out v runs. (b, parallel_branch-IsBranch s, runs)))
