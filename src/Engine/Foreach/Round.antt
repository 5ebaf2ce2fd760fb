-- ===== src/Engine/Foreach/Round.antt =====
-- A visit of a foreach node that runs its items at the same time.
use pocket_flow_go.Engine.Foreach.{
  foreach_concurrent, launch_items, with_items, foreach_branch, open_branches, run_foreach,
  resolve_items, fresh_foreach, index_keys,
}
use pocket_flow_go.Engine.{Engine, World}
use pocket_flow_go.Engine.Core.{NodeRunInput}
use pocket_flow_go.Prelude.{
  List, ℕ, ◌≡◌, length, some, ◌∷◌, Bool-cases, ◌<>◌, inl, find_first, ◌+◌, inr, [], suc, ◌∙◌,
  String, ◌≢◌, ◌==◌, false, arith, eq_iff, Option, refl, none, ◌⊎◌, true,
}
use pocket_flow_go.Engine.Fanout.{Branch, Progress, unsettled, init_progress, arrange}
use pocket_flow_go.Prelude.Int.{pos, eq_ℤ}
use pocket_flow_go.Value.{Object, Value, string?, at, get, has}
use pocket_flow_go.Store.Sql.Laws.{All}
use pocket_flow_go.Flow.{ExecSpec}
use pocket_flow_go.Store.{Task}
use pocket_flow_go.Engine.Fanout.Round.{Visited, collected-Visited}
use pocket_flow_go.Store.Tasks.Laws.{find_task}
use pocket_flow_go.Engine.Core.Laws.{Writable, Ends, Ends-map}
use pocket_flow_go.Prelude.Decimal.{itoa}
use pocket_flow_go.Engine.Fanout.Results.{Limited}
use pocket_flow_go.Engine.Fanout.Launch.{
  All-arrange, All-start, arrange-perm, prefix-Launches, Launches, override_node-max_attempts,
  override_node-service,
}
use pocket_flow_go.Engine.Foreach.{foreach_sequential}
use pocket_flow_go.Engine.Fanout.Sequence.{RunsOne, run_one-RunsOne}
use mathlib.Core.Path.{subst}
use pocket_flow_go.Error.{Err}

module _ {F : Type 0} (e : Engine F) (inp : NodeRunInput F) where
  -- The branch of an item: it executes the node's service with the item, under its index.
  abbrev pub IsItem : ℕ → Value F → Branch F → Type 0
  IsItem i x b =
      (b.key ≡ itoa i)
      × (b.exec.node.service ≡ inp.node.service)
      × (b.exec.input ≡ x)
      × (b.exec.task ≡ inp.task)
      × (b.exec.node_key ≡ inp.node_key)

  -- The branches of those items, from an index on, that have neither a result nor an error.
  pub data OpenItems : Object F → Object F → ℕ → List (Value F) → List (Branch F) → Type 0 where
    no_items : {done errs : Object F} {i : ℕ} → OpenItems done errs i [] []
    item_open :
        {done errs : Object F} {i : ℕ} {x : Value F} {xs : List (Value F)} {b : Branch F}
        {bs : List (Branch F)}
        → get (itoa i) done ≡ none
        → get (itoa i) errs ≡ none
        → IsItem i x b
        → OpenItems done errs (i + 1) xs bs
        → OpenItems done errs i (x ∷ xs) (b ∷ bs)
    item_settled :
        {done errs : Object F} {i : ℕ} {x : Value F} {xs : List (Value F)} {bs : List (Branch F)}
        → (get (itoa i) done ≢ none) ⊎ (get (itoa i) errs ≢ none)
        → OpenItems done errs (i + 1) xs bs
        → OpenItems done errs i (x ∷ xs) bs

  foreach_branch-IsItem : (i : ℕ) (x : Value F) → IsItem i x (foreach_branch e inp i x)
  unfolding foreach_branch
  foreach_branch-IsItem i x = (
    refl,
    override_node-service inp.node
        (find_first (λ (s : ExecSpec F). eq_ℤ s.index (pos i)) inp.node.foreach_execs)
        inp.node.service,
    refl,
    refl,
    refl,
  )

  lacking : (o : Option (Value F)) → (elim o [ none ↦ false | some v ↦ true ]) ≡ false → o ≡ none
  lacking none h = refl
  lacking (some v) h = cc

  present : (o : Option (Value F)) → (elim o [ none ↦ false | some v ↦ true ]) ≡ true → o ≢ none
  present none h same = cc
  present (some v) h same = cc

  open_branches-OpenItems :
      (done errs : Object F) (i : ℕ) (xs : List (Value F))
      → OpenItems done errs i xs (open_branches e inp done errs i xs)
  unfolding open_branches
  open_branches-OpenItems done errs i [] = no_items
  open_branches-OpenItems done errs i (x ∷ xs) =
      let others = open_branches-OpenItems done errs (i + 1) xs in
      let in_done = lacking (get (itoa i) done) in
      let in_errs = lacking (get (itoa i) errs) in
      elim (Bool-cases (has (itoa i) done)) [
        | inl h ↦ rw h (item_settled (inl (present (get (itoa i) done) h)) others)
        | inr h ↦ elim (Bool-cases (has (itoa i) errs)) [
          | inl k ↦ rw (h, k) (item_settled (inr (present (get (itoa i) errs) k)) others)
          | inr k ↦ rw (h, k) (item_open (in_done h) (in_errs k) (foreach_branch-IsItem i x) others)
        ]
      ]

  -- The items that are launched are the first of the open ones, as many as the limit lets; each of
  -- their branches has been collected once, and the row has gone on by what was collected.
  abbrev pub VisitedItems :
      Progress F → List (Value F) → List (Branch F) → Task → World → Option Err → World → Type 0
  VisitedItems p xs remaining r w res v =
      OpenItems p.done p.errs 0 xs remaining
      × (launched rest : List (Branch F)) × Launches inp.node.max_parallel remaining launched rest
      × Visited e inp "item_complete" ("fe:" <> inp.node_key) p (index_keys 0 xs) launched r w res v

  module _ (n : ℕ) (limit : inp.node.max_attempts ≡ pos n) where
    open_branches-Limited :
        (done errs : Object F) (i : ℕ) (xs : List (Value F))
        → All Limited (open_branches e inp done errs i xs)
    unfolding open_branches foreach_branch
    open_branches-Limited done errs i [] = tt
    open_branches-Limited done errs i (x ∷ xs) = elim (Bool-cases (unsettled done errs (itoa i))) [
      | inl t ↦ rw t (
        (
          n,
          override_node-max_attempts inp.node
                (find_first (λ (s : ExecSpec F). eq_ℤ s.index (pos i)) inp.node.foreach_execs)
                inp.node.service
              ∙ limit,
        ),
        open_branches-Limited done errs (i + 1) xs,
      )
      | inr f ↦ rw f (open_branches-Limited done errs (i + 1) xs)
    ]

    foreach_concurrent-Visited :
        (p : Progress F) (xs : List (Value F)) (remaining : List (Branch F)) (r : Task) (w : World)
        → OpenItems p.done p.errs 0 xs remaining
        → All Limited remaining
        → find_task inp.task.id w.db ≡ some r
        → Writable e r
        → Ends
            (foreach_concurrent e inp ("fe:" <> inp.node_key) p (index_keys 0 xs) remaining w)
            (VisitedItems p xs remaining r (record w { tick = suc w.tick }))
    unfolding foreach_concurrent
    foreach_concurrent-Visited p xs remaining r w items limits found may =
        let (ys, rest, cut, launches) = prefix-Launches inp.node.max_parallel remaining in
        let order = e.arrival w.tick (length ys) in
        let there : World = record w { tick = suc w.tick } in
        let own : All Limited ys =
          All-start Limited ys rest (subst (All Limited) launches.0 limits) in
        rw (Ends, cut)
          (Ends-map
            (Visited e inp "item_complete" ("fe:" <> inp.node_key) p (index_keys 0 xs) ys r there)
            (VisitedItems p xs remaining r there) _
            (collected-Visited e inp "item_complete" ("fe:" <> inp.node_key) p (index_keys 0 xs)
              (arrange order ys) ys r there (arrange-perm order ys)
              (All-arrange Limited order ys own) found may)
            (λ res v visited. (items, ys, rest, launches, visited)))

    -- For a found task that the engine may write, and a foreach node in the concurrent mode, with
    -- items that are still open and a max_attempts that is not negative, in whatever order the
    -- results arrive: the handler ends without an error. The open items are those without a
    -- result and an error under their index, and the first of them were launched, all of them
    -- where there is no limit, else as many as the limit lets; the branch of each was executed
    -- once with the item as its input, and its result or its error collected under the index, or
    -- that it is pending, each but a pending one recorded. The collection is kept in the node's
    -- state, and the row waits for the queue exactly where a branch is pending; else, where a
    -- branch has failed and the strategy is fail_fast, it has gone along the action of the
    -- results that there are, failed where there is no next node, with these results under the
    -- output key; else it stays at the node, running.
    pub run_foreach-Visited :
        (p : Progress F) (x : Value F) (xs : List (Value F)) (b : Branch F) (bs : List (Branch F))
        (r : Task) (w : World)
        → find_task inp.task.id w.db ≡ some r
        → Writable e r
        → resolve_items inp.input ≡ x ∷ xs
        → init_progress ("fe:" <> inp.node_key) (fresh_foreach inp.node) inp.shared ≡ some p
        → open_branches e inp p.done p.errs 0 (x ∷ xs) ≡ b ∷ bs
        → string? (at "mode" p.slot) ≡ some "concurrent"
        → Ends
            (run_foreach e inp w)
            (VisitedItems p (x ∷ xs) (b ∷ bs) r (record w { tick = suc w.tick }))
    unfolding run_foreach with_items launch_items
    run_foreach-Visited p x xs b bs r w found may listed progress still mode =
        let limits : All Limited (b ∷ bs) =
          rw still at (open_branches-Limited p.done p.errs 0 (x ∷ xs)) in
        let items : OpenItems p.done p.errs 0 (x ∷ xs) (b ∷ bs) =
          subst (OpenItems p.done p.errs 0 (x ∷ xs)) still
            (open_branches-OpenItems p.done p.errs 0 (x ∷ xs)) in
        rw (run_foreach, listed, progress, with_items, still, launch_items, mode)
          (foreach_concurrent-Visited p (x ∷ xs) (b ∷ bs) r w items limits found may)

    -- The same in the sequential mode: the first open item is run, and its result or error kept.
    run_foreach-RunsOne :
        (p : Progress F) (x : Value F) (xs : List (Value F)) (b : Branch F) (bs : List (Branch F))
        (mode : String) (r : Task) (w : World)
        → find_task inp.task.id w.db ≡ some r
        → Writable e r
        → resolve_items inp.input ≡ x ∷ xs
        → init_progress ("fe:" <> inp.node_key) (fresh_foreach inp.node) inp.shared ≡ some p
        → open_branches e inp p.done p.errs 0 (x ∷ xs) ≡ b ∷ bs
        → string? (at "mode" p.slot) ≡ some mode
        → mode ≢ "concurrent"
        → Ends (run_foreach e inp w) (RunsOne e inp "item_complete" ("fe:" <> inp.node_key) p b r w)
    unfolding run_foreach with_items launch_items foreach_sequential
    run_foreach-RunsOne p x xs b bs mode r w found may listed progress still named other =
        let sequential : (mode == "concurrent") ≡ false =
          ground (arith, other, eq_iff mode "concurrent") in
        let limits : All Limited (b ∷ bs) =
          rw still at (open_branches-Limited p.done p.errs 0 (x ∷ xs)) in
        rw (run_foreach, listed, progress, with_items, still, launch_items, named, sequential)
          (run_one-RunsOne e inp "item_complete" ("fe:" <> inp.node_key) p b r w limits.0 found may)
