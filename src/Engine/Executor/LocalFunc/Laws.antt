-- ===== src/Engine/Executor/LocalFunc/Laws.antt =====
-- That an execution by a registered function comes back.
use pocket_flow_go.Engine.Executor.LocalFunc.{call_rounds, exec_local_func}
use pocket_flow_go.Engine.{Engine, World}
use pocket_flow_go.Prelude.{
  ℕ, ◌≡◌, true, ◌<◌, arith, Option-cases, inl, inr, ◌+◌, refl, ◌≤◌, suc, Bool-cases, zero,
}
use pocket_flow_go.Engine.Executor.Result.{ExecutorInput, goes_on}
use pocket_flow_go.Prelude.Int.{pos, pos_part}
use pocket_flow_go.Engine.Executor.LocalFunc.{exec_local_func}
use pocket_flow_go.Engine.Core.Laws.{Ends}
use pocket_flow_go.Engine.Core.Kept.{Kept}
use pocket_flow_go.Value.{Value, Object}
use pocket_flow_go.Error.{Result, Result-cases}

-- Where a limited loop goes on, the limit is ahead.
pub goes_on-pos : (n attempts : ℕ) → goes_on (pos n) attempts ≡ true → attempts < n
goes_on-pos n attempts h = ground arith

module _ {F : Type 0} (e : Engine F) (inp : ExecutorInput F) (n : ℕ)
    (limit : inp.node.max_attempts ≡ pos n) where
  call_rounds-Kept :
      (fn : ℕ → Value F → Object F → Result (Value F)) (rounds attempts : ℕ)
      → attempts ≤ n
      → n < rounds + attempts
      → (w : World) → Ends (call_rounds e inp fn rounds attempts w) (λ _ v. Kept w v)
  unfolding call_rounds
  call_rounds-Kept fn zero attempts le lt w = omega (arith, le, lt)
  call_rounds-Kept fn (suc rounds) attempts le lt w =
      elim (Result-cases (fn w.tick inp.input inp.params)) [
        | inl (v, h) ↦ rw h (refl, refl)
        | inr (x, h) ↦ elim (Bool-cases (goes_on inp.node.max_attempts (attempts + 1))) [
          | inl more ↦
              let ahead = goes_on-pos n (attempts + 1) (rw limit at more) in
              rw (h, more)
                (call_rounds-Kept fn rounds (attempts + 1) (ground (arith, ahead))
                  (ground (arith, lt)) (record w { tick = suc w.tick }))
          | inr stop ↦ rw (h, stop) (refl, refl)
        ]
      ]

  -- Where max_attempts is not negative, the calls of the function end, and the tables stay.
  pub exec_local_func-Kept : (w : World) → Ends (exec_local_func e inp w) (λ _ v. Kept w v)
  unfolding exec_local_func
  exec_local_func-Kept w = elim (Option-cases (e.local_funcs inp.node.func)) [
    | inl h ↦ rw (Ends, h) (refl, refl)
    | inr (fn, h) ↦
        rw (Ends, h)
          (call_rounds-Kept fn (pos_part inp.node.max_attempts + e.patience + 1) 0 (ground arith)
            (rw limit (ground arith)) w)
  ]
