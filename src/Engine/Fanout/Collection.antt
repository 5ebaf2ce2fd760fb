-- ===== src/Engine/Fanout/Collection.antt =====
-- That the code's loop over the results makes the collection of Results.
use pocket_flow_go.Engine.Fanout.{Collected, store_result, Branch, collect, record_branch}
use pocket_flow_go.Prelude.{
  String, ◌≡◌, false, Bool, Option, true, none, some, List, ◌∷◌, [], if◌then◌else◌, refl, ◌≢◌, ◌∙◌,
  sym,
}
use pocket_flow_go.Engine.Executor.Result.{ExecutorResult, ok_or_error}
use pocket_flow_go.Value.{put, str}
use pocket_flow_go.Error.{is_pending, Err, err_string, message, async_pending}
use pocket_flow_go.Engine.{Engine, World, pure, returned, continue}
use pocket_flow_go.Engine.Core.{NodeRunInput}
use pocket_flow_go.Engine.Core.Laws.{Ends, Ends-continue, Ends-map}
use pocket_flow_go.Engine.Core.Kept.{Kept, record_run_detailed-Kept, Kept-trans, Ends-returned}
use pocket_flow_go.Engine.Executor.Node.{exec_executor}
use pocket_flow_go.Engine.Executor.Node.Rows.{exec_executor-Kept}
use pocket_flow_go.Store.Sql.Laws.{All}
use pocket_flow_go.Engine.Fanout.Results.{
  Limited, Collecting, collected_result, collected_error, collected_pending, all_collected,
}
use mathlib.Core.Path.{subst}

module _ {F : Type 0} (e : Engine F) (inp : NodeRunInput F) (sub_status : String) where
  pub record_branch-Kept :
      (b : Branch F) (res : ExecutorResult F) (w : World)
      → Ends (record_branch e inp sub_status b res w) (λ _ v. Kept w v)
  unfolding record_branch
  record_branch-Kept b res w =
      record_run_detailed-Kept e inp.task inp.node_key 1 (ok_or_error res.error) sub_status b.key
        b.prep b.exec.input res.result (err_string res.error) "" res.worker_id res.worker_url
        res.log_path w

  stored_none :
      (key : String) (res : ExecutorResult F) (c : Collected F)
      → res.error ≡ none
      → store_result key res c ≡ record c { done = put key res.result c.done }
  unfolding store_result
  stored_none key res c h = rw (store_result, h) refl

  stored_pending :
      (key : String) (res : ExecutorResult F) (c : Collected F)
      → res.error ≡ some async_pending
      → store_result key res c ≡ record c { has_pending = true }
  unfolding store_result
  stored_pending key res c h = rw (store_result, h) refl

  stored_error :
      (key : String) (res : ExecutorResult F) (x : Err) (c : Collected F)
      → is_pending (some x) ≡ false
      → res.error ≡ some x
      → store_result key res c
        ≡ record c { errs = put key (str (message x)) c.errs; had_err = true }
  unfolding store_result
  stored_error key res async_pending c p h = cc
  stored_error key res x c p h = rw (store_result, h) refl

  not_pending : (x : Err) → is_pending (some x) ≡ false → x ≢ async_pending
  not_pending async_pending p same = cc
  not_pending x p same = cc

  recorded-step :
      (b : Branch F) (bs : List (Branch F)) (c next : Collected F) (w v : World)
      (res : ExecutorResult F)
      → Kept w v
      → ((u : World)
          → Ends
              (collect e inp sub_status bs next u)
              (λ c' y. Kept u y × Collecting e inp sub_status bs next u c' y))
      → ((c' : Collected F) (u y : World)
          → record_branch e inp sub_status b res v ≡ returned tt u
          → Collecting e inp sub_status bs next u c' y
          → Collecting e inp sub_status (b ∷ bs) c w c' y)
      → Ends
          (continue
            (record_branch e inp sub_status b res v)
            (λ _. collect e inp sub_status bs next))
          (λ c' y. Kept w y × Collecting e inp sub_status (b ∷ bs) c w c' y)
  recorded-step b bs c next w v res kept others build =
      Ends-continue (λ a u. Kept v u × (record_branch e inp sub_status b res v ≡ returned a u))
        (λ c' y. Kept w y × Collecting e inp sub_status (b ∷ bs) c w c' y)
        (record_branch e inp sub_status b res v) _ (Ends-returned _ _ (record_branch-Kept b res v))
        (λ a u (later, saved).
          Ends-map (λ c' y. Kept u y × Collecting e inp sub_status bs next u c' y) _
            (collect e inp sub_status bs next u) (others u)
            (λ c' y (rest, all).
              (Kept-trans w u y (Kept-trans w v u kept later) rest, build c' u y saved all)))

  -- How a collection goes on after the execution of its first branch.
  collected-step :
      (b : Branch F) (bs : List (Branch F)) (c next : Collected F) (w v : World)
      (res : ExecutorResult F) (x : Option Err) (pending : Bool)
      → exec_executor e b.exec w ≡ returned res v
      → Kept w v
      → res.error ≡ x
      → is_pending x ≡ pending
      → store_result b.key res c ≡ next
      → ((u : World)
          → Ends
              (collect e inp sub_status bs next u)
              (λ c' y. Kept u y × Collecting e inp sub_status bs next u c' y))
      → Ends
          (continue
            ((if pending then pure tt else record_branch e inp sub_status b res) v)
            (λ _. collect e inp sub_status bs next))
          (λ c' y. Kept w y × Collecting e inp sub_status (b ∷ bs) c w c' y)
  collected-step b bs c next w v res none true ran kept h p stored others = absurd cc
  collected-step b bs c next w v res none false ran kept h p stored others =
      recorded-step b bs c next w v res kept others (λ c' u y saved all.
        collected_result ran h saved (
          subst (λ n. Collecting e inp sub_status bs n u c' y)
            (sym stored ∙ stored_none b.key res c h) all))
  collected-step b bs c next w v res (some async_pending) true ran kept h p stored others =
      Ends-map (λ c' y. Kept v y × Collecting e inp sub_status bs next v c' y) _
        (collect e inp sub_status bs next v) (others v)
        (λ c' y (rest, all). (
          Kept-trans w v y kept rest,
          collected_pending ran h (
              subst (λ n. Collecting e inp sub_status bs n v c' y)
                (sym stored ∙ stored_pending b.key res c h) all),
        ))
  collected-step b bs c next w v res (some x) true ran kept h p stored others = absurd cc
  collected-step b bs c next w v res (some x) false ran kept h p stored others =
      recorded-step b bs c next w v res kept others (λ c' u y saved all.
        collected_error ran h (not_pending x p) saved (
          subst (λ n. Collecting e inp sub_status bs n u c' y)
            (sym stored ∙ stored_error b.key res x c p h) all))

  -- Where no branch has an endless loop, the collection ends.
  pub collect-Collecting :
      (bs : List (Branch F)) (c : Collected F) (w : World)
      → All Limited bs
      → Ends
          (collect e inp sub_status bs c w)
          (λ c' v. Kept w v × Collecting e inp sub_status bs c w c' v)
  unfolding collect
  collect-Collecting [] c w limits = ((refl, refl), all_collected)
  collect-Collecting (b ∷ bs) c w ((n, limit), limits) =
      Ends-continue _ (λ c' y. Kept w y × Collecting e inp sub_status (b ∷ bs) c w c' y)
        (exec_executor e b.exec w) _ (Ends-returned _ _ (exec_executor-Kept e b.exec n limit w))
        (λ res v (kept, ran).
          collected-step b bs c (store_result b.key res c) w v res res.error (is_pending res.error)
            ran kept refl refl refl
            (λ u. collect-Collecting bs (store_result b.key res c) u limits))
