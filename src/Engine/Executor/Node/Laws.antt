-- ===== src/Engine/Executor/Node/Laws.antt =====
-- That the retry loop ends.
use pocket_flow_go.Engine.Executor.Node.{
  record_attempt, exec_input, exhausted, finish_attempts, attempt_rounds, run_executor_node,
  Attempted, finished, suspended,
}
use pocket_flow_go.Engine.{Engine, Outcome, M, returned, World, panicked, continue, looping}
use pocket_flow_go.Engine.Core.{
  NodeRunInput, record_run, record_run_detailed, finish_node, save_step, suspend_task, put_status,
  put_progress,
}
use pocket_flow_go.Engine.Executor.Node.{exec_executor}
use pocket_flow_go.Prelude.{
  ℕ, ◌≤◌, Bool-cases, ◌<◌, inl, ◌+◌, inr, arith, suc, zero, Bool, String, ◌||◌, ◌≡◌, ◌==◌, Option,
  Option-cases, false, none, some,
}
use pocket_flow_go.Engine.Executor.Result.{ExecutorResult}
use pocket_flow_go.Prelude.Int.{pos_part}
use pocket_flow_go.Error.{is_pending, is_nil, is_fatal, Err}
use pocket_flow_go.Value.{Object}

-- A call that does not run on for ever.
abbrev Settles : {A : Type 0} → Outcome A → Type 0
Settles (returned a w) = Unit
Settles panicked = Unit
Settles looping = ⊥

Settles-continue :
    {A B : Type 0} (o : Outcome A) (f : A → M B)
    → Settles o
    → ((a : A) (w : World) → Settles (f a w))
    → Settles (continue o f)
Settles-continue (returned a w) f h k = k a w
Settles-continue panicked f h k = tt
Settles-continue looping f h k = h

module _ {F : Type 0} (e : Engine F) (inp : NodeRunInput F) where
  record_attempt-Settles :
      (attempt : ℕ) (res : ExecutorResult F) (w : World)
      → Settles (record_attempt e inp attempt res w)
  unfolding record_attempt record_run record_run_detailed
  record_attempt-Settles attempt res w = elim (Bool-cases res.skip_record) [
    | inl h ↦ rw h tt
    | inr h ↦ rw h tt
  ]

  -- Where another attempt is made, the retries are not used up.
  pub rounds_left :
      (attempts : ℕ) (b : Bool)
      → (b || exhausted e inp (attempts + 1)) ≡ false
      → attempts + 1 ≤ pos_part inp.node.max_retries
  rounds_left attempts b h = ground (arith, h)

  save_step-Settles :
      (id status node action : String) (shared : Object F) (steps : ℕ) (w : World)
      → Settles (save_step e id status node action shared steps w)
  unfolding save_step put_status put_progress
  save_step-Settles id status node action shared steps w = elim (Bool-cases (e.owner == "")) [
    | inl h ↦ rw h tt
    | inr h ↦ rw h tt
  ]

  finish_node-Settles :
      (action : String) (shared : Object F) (steps : ℕ) (x : Option Err) (w : World)
      → Settles (finish_node e inp.task inp.flow_def inp.node_key action shared steps x w)
  unfolding finish_node
  finish_node-Settles action shared steps x w =
      Settles-continue (save_step e inp.task.id _ _ action shared steps w) _
        (save_step-Settles _ _ _ _ _ _ w) (λ _ v. tt)

  finish_attempts-Settles :
      (ended : Attempted F) (w : World) → Settles (finish_attempts e inp ended w)
  unfolding finish_attempts suspend_task
  finish_attempts-Settles suspended w =
      Settles-continue
        (save_step e inp.task.id "waiting_queue" inp.task.current_node_key inp.task.last_action
          inp.shared inp.task.step_count w)
        _ (save_step-Settles _ _ _ _ _ _ w) (λ _ v. tt)
  finish_attempts-Settles (finished res) w = elim (Option-cases res.error) [
    | inl h ↦ rw h (finish_node-Settles _ _ _ none w)
    | inr (x, h) ↦ rw h (finish_node-Settles _ _ _ (some x) w)
  ]

  module _ (execution : (w : World) → Settles (exec_executor e (exec_input e inp) w)) where
    attempt_rounds-Settles :
        (rounds attempts : ℕ)
        → attempts ≤ pos_part inp.node.max_retries
        → pos_part inp.node.max_retries < rounds + attempts
        → (w : World) → Settles (attempt_rounds e inp rounds attempts w)
    unfolding attempt_rounds
    attempt_rounds-Settles zero attempts le lt w = omega (arith, le, lt)
    attempt_rounds-Settles (suc rounds) attempts le lt w =
        Settles-continue (exec_executor e (exec_input e inp) w) _ (execution w) (λ res v.
          elim (Bool-cases (is_pending res.error)) [
            | inl h ↦ rw h tt
            | inr h ↦ rw h (
                Settles-continue (record_attempt e inp (attempts + 1) res v) _
                  (record_attempt-Settles (attempts + 1) res v)
                  (λ u x.
                    elim (Bool-cases
                      (is_nil res.error || is_fatal res.error || exhausted e inp (attempts + 1))) [
                        | inl stop ↦ rw stop tt
                        | inr more ↦ rw more (
                            attempt_rounds-Settles rounds (attempts + 1)
                              (rounds_left attempts _ more) (ground (arith, lt)) x)
                      ]))
          ])

    -- If every single execution of the node comes back, with a result or a panic, then so does
    -- the handler: the retry loop does not outlast max_retries + 1 attempts.
    run_executor_node-Settles : (w : World) → Settles (run_executor_node e inp w)
    unfolding run_executor_node
    run_executor_node-Settles w =
        Settles-continue (attempt_rounds e inp (pos_part inp.node.max_retries + 1) 0 w)
          (finish_attempts e inp)
          (attempt_rounds-Settles (pos_part inp.node.max_retries + 1) 0 (ground arith)
            (ground arith) w)
          finish_attempts-Settles
