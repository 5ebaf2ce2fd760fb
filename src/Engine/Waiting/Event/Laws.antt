-- ===== src/Engine/Waiting/Event/Laws.antt =====
-- When a node that waits for a signal lets its task go on.
use pocket_flow_go.Store.{Task}
use pocket_flow_go.Prelude.{
  suc, inr, ℕ, ◌<◌, Bool, ◌≤◌, leb, ◌≢◌, ◌==◌, arith, if◌then◌else◌, ◌-◌, eq_iff, refl, Option,
  Bool-cases, ap, sym,
}
use pocket_flow_go.Engine.Waiting.Event.{
  received, await, timed_out, run_wait_event, signal_action, is_signal,
}
use pocket_flow_go.Engine.{Engine, World}
use pocket_flow_go.Engine.Core.{NodeRunInput, clear_runtime, runtime_of, put_output, keep_runtime}
use pocket_flow_go.Value.{Object, Value, object?, at, null, obj, str, bool, field, empty}
use pocket_flow_go.Prelude.{String, ◌<>◌, ◌≡◌, some, none, true, false, ◌+◌, Option-cases, inl}
use pocket_flow_go.Store.Tasks.Laws.{find_task}
use pocket_flow_go.Path.{resolve_ref}
use pocket_flow_go.Engine.Waiting.{text_param, millis, timestamp}
use pocket_flow_go.Engine.Core.Laws.{
  Writable, Ends, Moved, waiting-row, Ends-map, Leaves, recorded_end-Leaves,
}
use pocket_flow_go.Prelude.Int.{is_pos, pos, leb_ℤ, negsuc, ◌-ℤ◌}
use pocket_flow_go.Error.{text, Err}
use pocket_flow_go.Engine.Core.Outcome.{by_key, Selects, by_static, by_nothing, pick_action-TextAt}
use mathlib.Core.Path.{subst}
use pocket_flow_go.Engine.Core.SharedData.{
  OutputKeyIs, put_output-OutputKeyIs, Clears, clear_runtime-Clears,
}

late_diff :
    (t s now : ℕ) (b : Bool)
    → s + t ≤ now
    → leb (0 + s) (now + 0) ≡ b
    → leb_ℤ (pos t) (if b then pos (now + 0 - (0 + s)) else negsuc (0 + s - (now + 0) - 1)) ≡ true
late_diff t s now true late h = ground (arith, h)
late_diff t s now false late h = ground (arith, h)

-- A timeout of `t` that has run since `s` is over from `s + t` on.
leb-late : (t s now : ℕ) → s + t ≤ now → leb_ℤ (pos t) (pos now -ℤ pos s) ≡ true
leb-late t s now late = late_diff t s now (leb (0 + s) (now + 0)) late refl

module _ {F : Type 0} (e : Engine F) (inp : NodeRunInput F) where
  abbrev pub key : String
  key = "we:" <> inp.node_key

  abbrev pub signal : Value F
  signal = resolve_ref inp.shared inp.params inp.input (text_param "signal_key" inp.params)

  abbrev pub after_signal : Object F
  after_signal =
      clear_runtime key (runtime_of inp.shared)
        (put_output inp.node.post.output_key signal inp.shared)

  -- The row has left along the action that the node selects for the signal.
  abbrev pub SignalLeads : Task → Option Err → World → Type 0
  SignalLeads r res v =
      (res ≡ none)
      × (action : String) × Selects inp.node.post (obj (field "signal" signal empty)) action
      × (written shared : Object F) × OutputKeyIs inp.node.post.output_key signal inp.shared written
      × Clears key (runtime_of inp.shared) written shared
      × Leaves e inp.task.id r inp.flow_def.edges inp.node_key none action shared
          (inp.task.step_count + 1) v

  signal_action-Selects :
      (sig : Value F)
      → Selects inp.node.post (obj (field "signal" sig empty)) (signal_action e inp sig)
  unfolding signal_action
  signal_action-Selects sig =
      let post = inp.node.post in
      elim (Bool-cases (post.action_static == "")) [
        | inr f ↦ rw f (by_static (λ same. ground (arith, f, eq_iff post.action_static "", same)))
        | inl t ↦ elim (Bool-cases (post.action_key == "")) [
          | inl u ↦
              rw (t, u)
                (subst (Selects post (obj (field "signal" sig empty)))
                  (sym ((eq_iff post.action_static "").0 t))
                  (by_nothing ((eq_iff post.action_static "").0 t)
                    ((eq_iff post.action_key "").0 u)))
          | inr f ↦
              rw (t, f)
                (by_key ((eq_iff post.action_static "").0 t)
                  (λ same. ground (arith, f, eq_iff post.action_key "", same))
                  (pick_action-TextAt (obj (field "signal" sig empty)) post.action_key))
        ]
      ]

  signal-is_signal :
      (sig : Value F) → sig ≢ null → sig ≢ str "" → sig ≢ bool false → is_signal e sig ≡ true
  unfolding is_signal
  signal-is_signal null some_value some_text no_false = absurd (some_value refl)
  signal-is_signal (bool true) some_value some_text no_false = refl
  signal-is_signal (bool false) some_value some_text no_false = absurd (no_false refl)
  signal-is_signal (str s) some_value some_text no_false = elim (Bool-cases (s == "")) [
    | inl t ↦ absurd (some_text (ap str ((eq_iff s "").0 t)))
    | inr f ↦ rw f refl
  ]
  signal-is_signal _ some_value some_text no_false = refl

  received-row :
      (r : Task) (w : World)
      → find_task inp.task.id w.db ≡ some r
      → Writable e r
      → Ends
          (received e inp (runtime_of inp.shared) (text_param "signal_key" inp.params) signal w)
          (SignalLeads r)
  unfolding received
  received-row r w found may =
      let action = signal_action e inp signal in
      Ends-map
        (λ res v.
          (res ≡ none)
          × Leaves e inp.task.id r inp.flow_def.edges inp.node_key none action after_signal
              (inp.task.step_count + 1) v)
        (SignalLeads r) _
        (recorded_end-Leaves e inp.task r w found inp.node_key "ok" "" _ _ _ inp.flow_def action _
          (inp.task.step_count + 1) none may)
        (λ res v (fine, left). (
          fine,
          action,
          signal_action-Selects signal,
          put_output inp.node.post.output_key signal inp.shared,
          after_signal,
          put_output-OutputKeyIs inp.node.post.output_key signal inp.shared,
          clear_runtime-Clears key (runtime_of inp.shared)
              (put_output inp.node.post.output_key signal inp.shared),
          left,
        ))

  -- For a found task that the engine may write, where the value at the signal key is not nil, not
  -- the empty text and not false, the handler ends and the row goes along the static action, else
  -- the text of the signal under the action key, completed where there is no next node, with the
  -- signal under the output key and the node's waiting state cleared, whether the wait had begun
  -- or not.
  pub run_wait_event-received :
      (r : Task) (w : World)
      → find_task inp.task.id w.db ≡ some r
      → Writable e r
      → signal ≢ null
      → signal ≢ str ""
      → signal ≢ bool false
      → Ends (run_wait_event e inp w) (SignalLeads r)
  unfolding run_wait_event
  run_wait_event-received r w found may some_value some_text no_false =
      let holds = signal-is_signal signal some_value some_text no_false in
      elim (Option-cases (object? (at key (runtime_of inp.shared)))) [
        | inl h ↦ rw (h, holds) (received-row r (record w { tick = suc w.tick }) found may)
        | inr (we, h) ↦ rw (h, holds) (received-row r w found may)
      ]

  module _ (r : Task) (w : World) (we : Object F) (found : find_task inp.task.id w.db ≡ some r)
      (may : Writable e r) (waiting : object? (at key (runtime_of inp.shared)) ≡ some we)
      (silent : is_signal e signal ≡ false) where
    -- For a found task that the engine may write, whose node waits without a signal and without a
    -- positive timeout, the handler ends and the row stays at the node, running, with the node's
    -- waiting state kept.
    run_wait_event-waiting :
        is_pos (millis e.rt (at "timeout_ms" inp.params)) ≡ false
        → Ends (run_wait_event e inp w) (λ res v.
          (res ≡ none)
          × Moved e inp.task.id r "running" inp.node_key ""
              (keep_runtime key we (runtime_of inp.shared) inp.shared)
              (inp.task.step_count + 1)
              v)
    unfolding run_wait_event await
    run_wait_event-waiting forever =
        rw (waiting, silent, forever) (waiting-row e inp.task r w found inp.node_key _ may)

    -- For a found task that the engine may write, whose node waits since s without a signal, with
    -- a timeout t > 0 and a failure strategy that is neither retry nor continue: where the clock
    -- reads at least s + t, the handler ends and the row goes along the static action, running
    -- where an edge leads on and failed where none does, with the node's waiting state cleared.
    pub run_wait_event-timeout :
        (t s : ℕ)
        → millis e.rt (at "timeout_ms" inp.params) ≡ pos t
        → timestamp e.rt (at "start" we) ≡ pos s
        → 0 < t
        → s + t ≤ e.clock w.tick
        → inp.node.failure_strategy ≢ "retry"
        → inp.node.failure_strategy ≢ "continue"
        → Ends (run_wait_event e inp w) (λ res v.
          (res ≡ none)
          × Leaves e inp.task.id r inp.flow_def.edges inp.node_key
              (some (text "timeout"))
              inp.node.post.action_static
              (clear_runtime key (runtime_of inp.shared) inp.shared)
              (inp.task.step_count + 1)
              v)
    unfolding run_wait_event await timed_out
    run_wait_event-timeout t s after_t from_s pos_t late no_retry no_continue =
        let retry : (inp.node.failure_strategy == "retry") ≡ false =
          ground (arith, eq_iff inp.node.failure_strategy "retry", no_retry) in
        let goes_on : (inp.node.failure_strategy == "continue") ≡ false =
          ground (arith, eq_iff inp.node.failure_strategy "continue", no_continue) in
        let limited : is_pos (pos t) ≡ true = ground (arith, pos_t) in
        let over = leb-late t s (e.clock w.tick) late in
        rw (waiting, silent, after_t, limited, from_s, over, retry, goes_on)
          (recorded_end-Leaves e inp.task r (record w { tick = suc w.tick }) found inp.node_key
            "error" "timeout" _ _ _ inp.flow_def inp.node.post.action_static _
            (inp.task.step_count + 1) (some (text "timeout")) may)
