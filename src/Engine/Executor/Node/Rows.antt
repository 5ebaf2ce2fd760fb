-- ===== src/Engine/Executor/Node/Rows.antt =====
-- Where an executor node sends its task.
use pocket_flow_go.Engine.Executor.Node.Tries.{
  last_try, tried_again, CanRetry, EndsWith, Tries, IsFinal,
}
use pocket_flow_go.Engine.Executor.Node.{
  exec_executor, Attempted, attempt_rounds, run_executor_node, finished, result_action,
  output_shared, suspended,
}
use pocket_flow_go.Engine.{Engine, World, returned, pure}
use pocket_flow_go.Engine.Executor.Result.{ExecutorInput, ExecutorResult}
use pocket_flow_go.Prelude.{
  ℕ, ◌≡◌, Bool-cases, ◌==◌, ◌||◌, inl, inr, refl, String, Option, ◌≤◌, none, some, ◌<◌, true, ◌⊎◌,
  ◌+◌, arith, false, suc, Option-cases, zero, ◌∙◌, Bool,
}
use pocket_flow_go.Prelude.Int.{pos, pos_part, ℤ, ltb_ℤ, negsuc}
use pocket_flow_go.Engine.Core.Laws.{
  Ends, Moved, Writable, Ends-continue, save_step-row, Ends-map, finish_node-row, Leaves,
}
use pocket_flow_go.Engine.Core.Kept.{
  Kept, Ends-returned, find-Kept, record_run_detailed-Kept, Kept-trans, SameVersions,
  save_step-SameVersions, finish_node-SameVersions,
}
use pocket_flow_go.Engine.Executor.Http.Laws.{exec_http-Kept}
use pocket_flow_go.Engine.Executor.LocalFunc.Laws.{exec_local_func-Kept}
use pocket_flow_go.Engine.Executor.Script.Laws.{exec_local_script-Kept}
use pocket_flow_go.Engine.Executor.Queued.Kept.{exec_queue-Kept}
use pocket_flow_go.Engine.Core.{NodeRunInput, record_run, suspend_task, save_step}
use pocket_flow_go.Store.{Task}
use pocket_flow_go.Flow.{Post}
use pocket_flow_go.Store.Tasks.Laws.{find_task}
use pocket_flow_go.Error.{Err, is_pending, is_nil, is_fatal, async_pending, fatal}
use pocket_flow_go.Engine.Executor.Node.{record_attempt, exec_input, exhausted, finish_attempts}
use pocket_flow_go.Engine.Executor.Node.Laws.{rounds_left}
use pocket_flow_go.Value.{Object, Value}
use pocket_flow_go.Engine.Core.Outcome.{Selects, selected-Selects}
use pocket_flow_go.Engine.Executor.Node.Output.{output_shared-OutputIs, OutputIs}
use mathlib.Core.Path.{subst}

module _ {F : Type 0} (e : Engine F) where
  pub exec_executor-Kept :
      (inp : ExecutorInput F) (n : ℕ)
      → inp.node.max_attempts ≡ pos n
      → (w : World) → Ends (exec_executor e inp w) (λ _ v. Kept w v)
  unfolding exec_executor
  exec_executor-Kept inp n limit w =
      let kind = inp.node.exec_type in
      elim (Bool-cases (kind == "" || kind == "http")) [
        | inl h ↦ rw (Ends, h) (exec_http-Kept e inp w)
        | inr not_http ↦ elim (Bool-cases (kind == "local_func")) [
          | inl h ↦ rw (Ends, not_http, h) (exec_local_func-Kept e inp n limit w)
          | inr not_func ↦ elim (Bool-cases (kind == "local_script")) [
            | inl h ↦ rw (Ends, not_http, not_func, h) (exec_local_script-Kept e inp n limit w)
            | inr not_script ↦ elim (Bool-cases (kind == "queue")) [
              | inl h ↦ rw (Ends, not_http, not_func, not_script, h) (exec_queue-Kept e inp w)
              | inr h ↦ rw (Ends, not_http, not_func, not_script, h) (refl, refl)
            ]
          ]
        ]
      ]

  module _ (inp : NodeRunInput F) where
    -- What the attempts from a world end with, some having been made before: a pending execution, or
    -- one that came back without an error, or with one that ends the attempts.
    abbrev Attempts : ℕ → World → Attempted F → Type 0
    Attempts n w suspended =
        (m : ℕ) × (res : ExecutorResult F) × Tries e inp n w m res
        × (res.error ≡ some async_pending)
    Attempts n w (finished res) = (m : ℕ) × Tries e inp n w m res × EndsWith e inp m res.error

    pending_error : (x : Option Err) → is_pending x ≡ true → x ≡ some async_pending
    pending_error none h = cc
    pending_error (some async_pending) h = refl
    pending_error (some x) h = cc

    retried-CanRetry :
        (x : Option Err) (b : Bool)
        → is_pending x ≡ false
        → (is_nil x || is_fatal x || b) ≡ false
        → CanRetry x
    retried-CanRetry none b h more = cc
    retried-CanRetry (some async_pending) b h more = cc
    retried-CanRetry (some fatal) b h more = cc
    retried-CanRetry (some x) b h more = tt

    exhausted_retries : (z : ℤ) (n : ℕ) → ltb_ℤ z (pos (n + 1)) ≡ true → pos_part z < n + 1
    exhausted_retries (pos k) n h = ground (arith, h)
    exhausted_retries (negsuc k) n h = ground arith

    stopped-EndsWith :
        (n : ℕ) (x : Option Err)
        → is_pending x ≡ false
        → (is_nil x || is_fatal x || exhausted e inp (n + 1)) ≡ true
        → EndsWith e inp (n + 1) x
    stopped-EndsWith n none h stop = tt
    stopped-EndsWith n (some async_pending) h stop = cc
    stopped-EndsWith n (some fatal) h stop = tt
    stopped-EndsWith n (some x) h stop = exhausted_retries inp.node.max_retries n stop

    retried-Attempts :
        (n : ℕ) (w v u : World) (first : ExecutorResult F) (ended : Attempted F)
        → exec_executor e (exec_input e inp) w ≡ returned first v
        → CanRetry first.error
        → n + 1 ≤ pos_part inp.node.max_retries
        → record_attempt e inp (n + 1) first v ≡ returned tt u
        → Attempts (n + 1) u ended
        → Attempts n w ended
    retried-Attempts n w v u first suspended ran can left kept (m, res, tries, h) =
        (m, res, tried_again ran can left kept tries, h)
    retried-Attempts n w v u first (finished res) ran can left kept (m, tries, h) =
        (m, tried_again ran can left kept tries, h)

    record_attempt-Kept :
        (attempt : ℕ) (res : ExecutorResult F) (w : World)
        → Ends (record_attempt e inp attempt res w) (λ _ v. Kept w v)
    unfolding record_attempt record_run
    record_attempt-Kept attempt res w = elim (Bool-cases res.skip_record) [
      | inl h ↦ rw (Ends, h) (refl, refl)
      | inr h ↦
          rw (Ends, h)
            (record_run_detailed-Kept e inp.task inp.node_key attempt _ _ _ _ _ _ _ _ _ _ _ w)
    ]

    -- The row waits for the queue: the last execution is pending.
    abbrev pub Waits : Task → World → World → Type 0
    Waits r w v =
        ((m : ℕ) × (res : ExecutorResult F) × Tries e inp 0 w m res
          × (res.error ≡ some async_pending))
        × Moved e inp.task.id r "waiting_queue" inp.task.current_node_key inp.task.last_action
            inp.shared inp.task.step_count v

    -- The row has gone on with the result of the last execution.
    abbrev pub GoesOn : Task → World → World → Type 0
    GoesOn r w v =
        (m : ℕ) × (res : ExecutorResult F) × (action : String) × (shared : Object F) × Tries e inp 0
          w m res
        × (res.error ≡ none)
        × Selects inp.node.post res.result action
        × OutputIs inp.node.post res.result inp.shared shared
        × Leaves e inp.task.id r inp.flow_def.edges inp.node_key none action shared
            (inp.task.step_count + 1) v

    -- The row has gone along the empty action, with the error of the last execution.
    abbrev pub Fails : Task → World → World → Type 0
    Fails r w v =
        (m : ℕ) × (res : ExecutorResult F) × (x : Err) × Tries e inp 0 w m res
        × (res.error ≡ some x)
        × IsFinal e inp m x
        × Leaves e inp.task.id r inp.flow_def.edges inp.node_key (some x) "" inp.shared
            (inp.task.step_count + 1) v

    abbrev pub Leads : Task → World → Option Err → World → Type 0
    Leads r w res v = (res ≡ none) × (Waits r w v ⊎ GoesOn r w v ⊎ Fails r w v)

    result_action-Selects : (post : Post) (v : Value F) → Selects post v (result_action post v)
    unfolding result_action
    result_action-Selects post v = selected-Selects post v

    finish_attempts-Leads :
        (ended : Attempted F) (r : Task) (start w : World)
        → Attempts 0 start ended
        → find_task inp.task.id w.db ≡ some r
        → Writable e r
        → Ends (finish_attempts e inp ended w) (Leads r start)
    unfolding finish_attempts suspend_task
    finish_attempts-Leads suspended r start w done found may =
        Ends-continue _ (Leads r start)
          (save_step e inp.task.id "waiting_queue" inp.task.current_node_key inp.task.last_action
            inp.shared inp.task.step_count w)
          (λ _. pure none)
          (save_step-row e inp.task.id r w found "waiting_queue" inp.task.current_node_key
            inp.task.last_action inp.shared inp.task.step_count may)
          (λ _ v h. (refl, inl (done, h)))
    finish_attempts-Leads (finished res) r start w (m, tries, ends) found may =
        elim (Option-cases res.error) [
          | inl h ↦
              let action = result_action inp.node.post res.result in
              rw (Ends, h)
                (Ends-map _ (Leads r start) _
                  (finish_node-row e inp.task r w found inp.flow_def inp.node_key action
                    (output_shared e inp res.result) (inp.task.step_count + 1) none may)
                  (λ _ v k. (
                    k.0,
                    inr (
                        inl (
                          m,
                          res,
                          action,
                          output_shared e inp res.result,
                          tries,
                          h,
                          result_action-Selects inp.node.post res.result,
                          output_shared-OutputIs e inp res.result,
                          k.1,
                        )),
                  )))
          | inr (x, h) ↦
              rw (Ends, h)
                (Ends-map _ (Leads r start) _
                  (finish_node-row e inp.task r w found inp.flow_def inp.node_key "" inp.shared
                    (inp.task.step_count + 1) (some x) may)
                  (λ _ v k.
                    (k.0, inr (inr (m, res, x, tries, h, subst (EndsWith e inp m) h ends, k.1)))))
        ]

    finish_attempts-SameVersions :
        (ended : Attempted F) (w : World) → Ends (finish_attempts e inp ended w) (SameVersions e w)
    unfolding finish_attempts suspend_task
    finish_attempts-SameVersions suspended w =
        Ends-continue _ (SameVersions e w)
          (save_step e inp.task.id "waiting_queue" inp.task.current_node_key inp.task.last_action
            inp.shared inp.task.step_count w)
          (λ _. pure none)
          (save_step-SameVersions e inp.task.id "waiting_queue" inp.task.current_node_key
            inp.task.last_action inp.shared inp.task.step_count w)
          (λ _ v h. h)
    finish_attempts-SameVersions (finished res) w = elim (Option-cases res.error) [
      | inl h ↦
          rw (Ends, h)
            (finish_node-SameVersions e inp.task inp.flow_def inp.node_key
              (result_action inp.node.post res.result) (output_shared e inp res.result)
              (inp.task.step_count + 1) none w)
      | inr (x, h) ↦
          rw (Ends, h)
            (finish_node-SameVersions e inp.task inp.flow_def inp.node_key "" inp.shared
              (inp.task.step_count + 1) (some x) w)
    ]

    module _ (n : ℕ) (limit : inp.node.max_attempts ≡ pos n) where
      attempt_rounds-Attempts :
          (rounds attempts : ℕ)
          → attempts ≤ pos_part inp.node.max_retries
          → pos_part inp.node.max_retries < rounds + attempts
          → (w : World)
          → Ends
              (attempt_rounds e inp rounds attempts w)
              (λ ended v. Kept w v × Attempts attempts w ended)
      unfolding attempt_rounds
      attempt_rounds-Attempts zero attempts le lt w = omega (arith, le, lt)
      attempt_rounds-Attempts (suc rounds) attempts le lt w =
          Ends-continue _ (λ ended v. Kept w v × Attempts attempts w ended)
            (exec_executor e (exec_input e inp) w) _
            (Ends-returned _ _ (exec_executor-Kept (exec_input e inp) n limit w))
            (λ res v (kept, ran). elim (Bool-cases (is_pending res.error)) [
              | inl h ↦
                  rw (Ends, h) (kept, (attempts + 1, res, last_try ran, pending_error res.error h))
              | inr h ↦ rw h (
                  Ends-continue _ (λ ended v. Kept w v × Attempts attempts w ended)
                    (record_attempt e inp (attempts + 1) res v) _
                    (Ends-returned _ _ (record_attempt-Kept (attempts + 1) res v))
                    (λ u x (later, stored).
                      elim (Bool-cases (
                        is_nil res.error || is_fatal res.error || exhausted e inp (attempts + 1))) [
                          | inl stop ↦
                              rw (Ends, stop)
                                (
                                  Kept-trans w v x kept later,
                                  (
                                    attempts + 1,
                                    last_try ran,
                                    stopped-EndsWith attempts res.error h stop,
                                  ),
                                )
                          | inr more ↦ rw more (
                              Ends-map _ (λ ended v. Kept w v × Attempts attempts w ended) _
                                (attempt_rounds-Attempts rounds (attempts + 1)
                                  (rounds_left e inp attempts _ more) (ground (arith, lt)) x)
                                (λ ended y (rest, done). (
                                  Kept-trans w x y (Kept-trans w v x kept later) rest,
                                  retried-Attempts attempts w v x res ended ran
                                      (retried-CanRetry res.error _ h more)
                                      (rounds_left e inp attempts _ more) stored done,
                                )))
                        ]))
            ])

      -- For a found task that the engine may write, and an executor node whose max_attempts is
      -- not negative, whatever the workers, functions and scripts answer: the handler ends
      -- without an error, after executions of which each but the last came back with an error
      -- that can be retried, was recorded, and was not beyond max_retries. Then either the last
      -- execution is pending, and the row waits for the queue; or it has no error, and the row
      -- has gone along the static action, else the text of the result under the action key,
      -- completed where there is no next node, with the result under the output key and its
      -- fields under the keys of the output map; or its error is fatal or comes after more
      -- executions than max_retries, and the row has gone along the empty action, failed where
      -- there is no next node.
      pub run_executor_node-Leads :
          (r : Task) (w : World)
          → find_task inp.task.id w.db ≡ some r
          → Writable e r
          → Ends (run_executor_node e inp w) (Leads r w)
      unfolding run_executor_node
      run_executor_node-Leads r w found may =
          Ends-continue _ (Leads r w) (attempt_rounds e inp (pos_part inp.node.max_retries + 1) 0 w)
            (finish_attempts e inp)
            (attempt_rounds-Attempts (pos_part inp.node.max_retries + 1) 0 (ground arith)
              (ground arith) w)
            (λ ended v (kept, done).
              finish_attempts-Leads ended r w v done (find-Kept inp.task.id r w v kept found) may)

      pub run_executor_node-SameVersions :
          (w : World) → Ends (run_executor_node e inp w) (SameVersions e w)
      unfolding run_executor_node
      run_executor_node-SameVersions w =
          Ends-continue _ (SameVersions e w)
            (attempt_rounds e inp (pos_part inp.node.max_retries + 1) 0 w) (finish_attempts e inp)
            (attempt_rounds-Attempts (pos_part inp.node.max_retries + 1) 0 (ground arith)
              (ground arith) w)
            (λ ended v (kept, done).
              Ends-map (SameVersions e v) (SameVersions e w) _
                (finish_attempts-SameVersions ended v) (λ _ x same. same ∙ kept.1))
