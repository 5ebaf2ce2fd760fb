-- ===== src/Engine/Waiting/Timer/Laws.antt =====
-- When a timer lets its task go on.
use pocket_flow_go.Store.{Task}
use pocket_flow_go.Engine.Waiting.Timer.{resume_timer}
use pocket_flow_go.Prelude.{suc, refl, ◌≤◌}
use pocket_flow_go.Value.{field, empty, int64}
use pocket_flow_go.Engine.{Engine, World}
use pocket_flow_go.Engine.Waiting.Timer.{is_due, run_timer}
use pocket_flow_go.Prelude.{
  ℕ, ◌<◌, Bool, String, leb, ◌<>◌, ◌≡◌, ◌+◌, not, some, ◌||◌, if◌then◌else◌, ◌-◌, none, arith, true,
  false,
}
use pocket_flow_go.Engine.Core.{
  NodeRunInput, clear_runtime, runtime_of, put_output, keep_runtime, finished_status,
}
use pocket_flow_go.Value.{Object, object?, at}
use pocket_flow_go.Prelude.Int.{pos, is_pos, leb_ℤ, negsuc}
use pocket_flow_go.Flow.{find_next}
use pocket_flow_go.Store.Tasks.Laws.{find_task}
use pocket_flow_go.Engine.Core.Laws.{Writable, Ends, Moved, waiting-row, recorded_end}
use pocket_flow_go.Engine.Waiting.{timestamp, millis}

is_due_diff :
    (d s now : ℕ) (b : Bool)
    → 0 < d
    → leb (0 + s) (now + 0) ≡ b
    → (not (is_pos (pos d))
        || leb_ℤ (pos d) (if b then pos (now + 0 - (0 + s)) else negsuc (0 + s - (now + 0) - 1)))
      ≡ leb (s + d) now
is_due_diff d s now true lt h = ground (arith, h)
is_due_diff d s now false lt h = ground (arith, h)

-- A timer of `d` milliseconds that was started at `s` is due at `now` exactly when `s + d ≤ now`.
is_due-pos : (d s now : ℕ) → 0 < d → is_due (pos d) (pos s) now ≡ leb (s + d) now
unfolding is_due
is_due-pos d s now lt = is_due_diff d s now (leb (0 + s) (now + 0)) lt refl

leb-true : {a b : ℕ} → a ≤ b → leb a b ≡ true
leb-true h = ground (arith, h)

leb-false : {a b : ℕ} → b < a → leb a b ≡ false
leb-false h = ground (arith, h)

module _ {F : Type 0} (e : Engine F) (inp : NodeRunInput F) where
  abbrev key : String
  key = "tm:" <> inp.node_key

  abbrev after_timer : Object F
  after_timer =
      clear_runtime key (runtime_of inp.shared)
        (put_output inp.node.post.output_key inp.input inp.shared)

  abbrev timer_target : String
  timer_target = find_next inp.flow_def.edges inp.node_key inp.node.post.action_static

  -- A timer that was started at `s`, with a delay of `d`.
  module _ (r : Task) (w : World) (tm : Object F) (d s : ℕ)
      (found : find_task inp.task.id w.db ≡ some r) (may : Writable e r)
      (started : object? (at key (runtime_of inp.shared)) ≡ some tm)
      (at_s : timestamp e.rt (at "start" tm) ≡ pos s)
      (after_d : millis e.rt (at "delay_ms" inp.params) ≡ pos d) (pos_d : 0 < d) where
    -- For a found task that the engine may write, and a timer with state that was started at s
    -- with a delay of d > 0 ms: where the clock reads at least s + d, the handler ends and the
    -- row goes on along the static action, with the timer's state cleared.
    pub run_timer-due :
        s + d ≤ e.clock w.tick
        → Ends (run_timer e inp w) (λ res v.
          (res ≡ none)
          × Moved e inp.task.id r
              (finished_status none timer_target)
              timer_target
              inp.node.post.action_static
              after_timer
              (inp.task.step_count + 1)
              v)
    unfolding run_timer resume_timer
    run_timer-due late =
        let due = is_due-pos d s (e.clock w.tick) pos_d in
        rw (started, at_s, after_d, due, leb-true late)
          (recorded_end e inp.task r (record w { tick = suc w.tick }) found inp.node_key "ok" "" _ _
            _ inp.flow_def inp.node.post.action_static after_timer (inp.task.step_count + 1) none
            may)

    -- For a found task that the engine may write, and a timer with state that was started at s
    -- with a delay of d > 0 ms: where the clock reads less than s + d, the handler ends and the
    -- row stays at the node, running, with the shared data as they were.
    run_timer-early :
        e.clock w.tick < s + d
        → Ends (run_timer e inp w) (λ res v.
          (res ≡ none)
          × Moved e inp.task.id r "running" inp.node_key "" inp.shared (inp.task.step_count + 1) v)
    unfolding run_timer resume_timer
    run_timer-early early =
        let due = is_due-pos d s (e.clock w.tick) pos_d in
        rw (started, at_s, after_d, due, leb-false early)
          (waiting-row e inp.task r (record w { tick = suc w.tick }) found inp.node_key inp.shared
            may)

  -- For a found task that the engine may write, whose timer has no state yet, the handler ends
  -- and the row stays at the node, running, with the clock's reading kept as the start of the
  -- timer.
  run_timer-first :
      (r : Task) (w : World)
      → find_task inp.task.id w.db ≡ some r
      → Writable e r
      → object? (at key (runtime_of inp.shared)) ≡ none
      → Ends (run_timer e inp w) (λ res v.
        (res ≡ none)
        × Moved e inp.task.id r "running" inp.node_key ""
            (keep_runtime key
              (field "start" (int64 (pos (e.clock w.tick))) empty)
              (runtime_of inp.shared)
              inp.shared)
            (inp.task.step_count + 1)
            v)
  unfolding run_timer
  run_timer-first r w found may fresh =
      rw fresh (waiting-row e inp.task r _ found inp.node_key _ may)
