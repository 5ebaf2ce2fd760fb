-- ===== src/Engine/Executor/Script/Laws.antt =====
-- That an execution of a script comes back.
use pocket_flow_go.Engine.Executor.Script.{
  start_script, script_rounds, exec_local_script, interpreter,
}
use pocket_flow_go.Engine.{Engine, World}
use pocket_flow_go.Engine.Executor.Result.{ExecutorInput, goes_on}
use pocket_flow_go.Prelude.{
  ℕ, ◌≡◌, ◌+◌, arith, Bool-cases, ◌≤◌, ◌<◌, ◌==◌, inl, suc, inr, ◌<>◌, refl, zero,
}
use pocket_flow_go.Prelude.Int.{pos, pos_part}
use pocket_flow_go.Engine.Executor.Script.{exec_local_script}
use pocket_flow_go.Engine.Core.Laws.{Ends}
use pocket_flow_go.Engine.Core.Kept.{Kept, Ends-Kept}
use pocket_flow_go.Error.{Result-cases}
use pocket_flow_go.Engine.Executor.LocalFunc.Laws.{goes_on-pos}

module _ {F : Type 0} (e : Engine F) (inp : ExecutorInput F) where
  start_script-Kept : (w : World) → Ends (start_script e inp w) (λ _ v. Kept w v)
  unfolding start_script
  start_script-Kept w = elim (Bool-cases (inp.node.script.code_text == "")) [
    | inl h ↦ rw h (refl, refl)
    | inr h ↦
        elim (Result-cases
          (e.temp_file w.tick ("pf-script-*" <> (interpreter inp.node.script).1))) [
            | inl (path, k) ↦ rw (h, k) (refl, refl)
            | inr (x, k) ↦ rw (h, k) (refl, refl)
          ]
  ]

  module _ (n : ℕ) (limit : inp.node.max_attempts ≡ pos n) where
    script_rounds-Kept :
        (rounds attempts : ℕ)
        → attempts ≤ n
        → n < rounds + attempts
        → (w : World) → Ends (script_rounds e inp rounds attempts w) (λ _ v. Kept w v)
    unfolding script_rounds
    script_rounds-Kept zero attempts le lt w = omega (arith, le, lt)
    script_rounds-Kept (suc rounds) attempts le lt w =
        Ends-Kept w (start_script e inp w) _ (start_script-Kept w) (λ started v.
          elim (Result-cases started) [
            | inr (x, h) ↦ rw h (refl, refl)
            | inl (out, h) ↦ elim (Bool-cases out.failed) [
              | inr ok ↦ rw (h, ok) (refl, refl)
              | inl bad ↦ elim (Bool-cases (goes_on inp.node.max_attempts (attempts + 1))) [
                | inl more ↦
                    let ahead = goes_on-pos n (attempts + 1) (rw limit at more) in
                    rw (h, bad, more)
                      (script_rounds-Kept rounds (attempts + 1) (ground (arith, ahead))
                        (ground (arith, lt)) v)
                | inr stop ↦ rw (h, bad, stop) (refl, refl)
              ]
            ]
          ])

    -- Where max_attempts is not negative, the runs of the script end, and the tables stay.
    pub exec_local_script-Kept : (w : World) → Ends (exec_local_script e inp w) (λ _ v. Kept w v)
    unfolding exec_local_script
    exec_local_script-Kept w =
        script_rounds-Kept (pos_part inp.node.max_attempts + e.patience + 1) 0 (ground arith)
          (rw limit (ground arith)) w
