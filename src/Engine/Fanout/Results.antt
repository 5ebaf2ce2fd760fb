-- ===== src/Engine/Fanout/Results.antt =====
-- The collection of the results of branches, said one branch after the other.
use pocket_flow_go.Engine.{Engine, World, returned}
use pocket_flow_go.Engine.Core.{NodeRunInput}
use pocket_flow_go.Engine.Fanout.{
  Branch, Collected, Progress, record_branch, aggregate, aggregate_done,
}
use pocket_flow_go.Engine.Executor.Node.{exec_executor}
use pocket_flow_go.Engine.Executor.Result.{ExecutorResult}
use pocket_flow_go.Error.{Err, async_pending, message}
use pocket_flow_go.Value.{Object, at, Value, get, put, null, str}
use pocket_flow_go.Prelude.{
  String, false, ℕ, List, ◌≡◌, [], ◌∷◌, Option-cases, none, inl, some, inr, ◌≢◌, true,
}
use pocket_flow_go.Prelude.Int.{pos}

module _ {F : Type 0} where
  -- The execution of the branch has no endless loop.
  abbrev pub Limited : Branch F → Type 0
  Limited b = (n : ℕ) × (b.exec.node.max_attempts ≡ pos n)

  -- The collection that a round starts from.
  abbrev pub collection_of : Progress F → Collected F
  collection_of p = record { done = p.done; errs = p.errs; had_err = false; has_pending = false }

  -- The results of the keys in their order, null where there is none.
  pub data Gathers : Object F → List String → List (Value F) → Type 0 where
    gathered_all : {done : Object F} → Gathers done [] []
    gathered :
        {done : Object F} {k : String} {ks : List String} {v : Value F} {vs : List (Value F)}
        → get k done ≡ some v
        → Gathers done ks vs
        → Gathers done (k ∷ ks) (v ∷ vs)
    gathered_null :
        {done : Object F} {k : String} {ks : List String} {vs : List (Value F)}
        → get k done ≡ none
        → Gathers done ks vs
        → Gathers done (k ∷ ks) (null ∷ vs)

  -- The results of those keys that have one, in their order.
  pub data GathersDone : Object F → List String → List (Value F) → Type 0 where
    done_all : {done : Object F} → GathersDone done [] []
    done_here :
        {done : Object F} {k : String} {ks : List String} {v : Value F} {vs : List (Value F)}
        → get k done ≡ some v
        → GathersDone done ks vs
        → GathersDone done (k ∷ ks) (v ∷ vs)
    done_missing :
        {done : Object F} {k : String} {ks : List String} {vs : List (Value F)}
        → get k done ≡ none
        → GathersDone done ks vs
        → GathersDone done (k ∷ ks) vs

  pub aggregate-Gathers : (done : Object F) (ks : List String) → Gathers done ks (aggregate ks done)
  unfolding aggregate at
  aggregate-Gathers done [] = gathered_all
  aggregate-Gathers done (k ∷ ks) = elim (Option-cases (get k done)) [
    | inl h ↦ rw h (gathered_null h (aggregate-Gathers done ks))
    | inr (v, h) ↦ rw h (gathered h (aggregate-Gathers done ks))
  ]

  pub aggregate_done-GathersDone :
      (done : Object F) (ks : List String) → GathersDone done ks (aggregate_done ks done)
  unfolding aggregate_done
  aggregate_done-GathersDone done [] = done_all
  aggregate_done-GathersDone done (k ∷ ks) = elim (Option-cases (get k done)) [
    | inl h ↦ rw (aggregate_done, h) (done_missing h (aggregate_done-GathersDone done ks))
    | inr (v, h) ↦ rw (aggregate_done, h) (done_here h (aggregate_done-GathersDone done ks))
  ]

module _ {F : Type 0} (e : Engine F) (inp : NodeRunInput F) (sub_status : String) where
  -- Each branch has been executed, one after the other, and its result or its error collected under
  -- its key, or that it is pending. Only a pending branch is not recorded.
  pub data Collecting : List (Branch F) → Collected F → World → Collected F → World → Type 0 where
    all_collected : {c : Collected F} {w : World} → Collecting [] c w c w
    collected_result :
        {b : Branch F} {bs : List (Branch F)} {c c' : Collected F} {w v u y : World}
        {res : ExecutorResult F}
        → exec_executor e b.exec w ≡ returned res v
        → res.error ≡ none
        → record_branch e inp sub_status b res v ≡ returned tt u
        → Collecting bs (record c { done = put b.key res.result c.done }) u c' y
        → Collecting (b ∷ bs) c w c' y
    collected_error :
        {b : Branch F} {bs : List (Branch F)} {c c' : Collected F} {w v u y : World}
        {res : ExecutorResult F} {x : Err}
        → exec_executor e b.exec w ≡ returned res v
        → res.error ≡ some x
        → x ≢ async_pending
        → record_branch e inp sub_status b res v ≡ returned tt u
        → Collecting bs
            (record c { errs = put b.key (str (message x)) c.errs; had_err = true })
            u
            c'
            y
        → Collecting (b ∷ bs) c w c' y
    collected_pending :
        {b : Branch F} {bs : List (Branch F)} {c c' : Collected F} {w v y : World}
        {res : ExecutorResult F}
        → exec_executor e b.exec w ≡ returned res v
        → res.error ≡ some async_pending
        → Collecting bs (record c { has_pending = true }) v c' y
        → Collecting (b ∷ bs) c w c' y
