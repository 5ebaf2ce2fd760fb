-- ===== src/Examples/Waited.antt =====
-- The theorems on nodes that wait, applied.
use pocket_flow_go.Examples.Stepped.{lease_held}
use pocket_flow_go.Prelude.Text.{cut}
use pocket_flow_go.Prelude.Text.{strip_prefix, split, has_prefix}
use pocket_flow_go.Engine.Core.{
  NodeRunInput, finished_status, runtime_of, put_output, clear_runtime,
}
use pocket_flow_go.Value.{
  Object, at, put, as_object, field, object?, get, int, int64, obj, str, bool, delete, empty, size,
  string?, null, Value,
}
use pocket_flow_go.Flow.{find_next, zero_node}
use pocket_flow_go.Prelude.Int.{ℤ, pos}
use pocket_flow_go.Examples.{run_of, toy_engine, one_leased, leased_task, toy_flow}
use pocket_flow_go.Examples.Stepped.{static_node}
use pocket_flow_go.Engine.Waiting.{text_param, timestamp, millis}
use pocket_flow_go.Engine.Core.Laws.{Ends, Moved, Leaves}
use pocket_flow_go.Prelude.{true, ◌≡◌, none, arith, refl, eq_iff, ◌≢◌, false, some}
use pocket_flow_go.Path.{resolve_ref, get_by_path, walk, step_into, parse_segment}
use pocket_flow_go.Engine.Waiting.Timer.{run_timer}
use pocket_flow_go.Engine.Waiting.Approval.{is_decided, approval_action, run_approval}
use pocket_flow_go.Engine.Waiting.Event.{is_signal, signal_action, run_wait_event}
use pocket_flow_go.Engine.Waiting.Timer.Laws.{run_timer-due}
use pocket_flow_go.Engine.Waiting.Event.Laws.{
  run_wait_event-received, run_wait_event-timeout, SignalLeads,
}
use pocket_flow_go.Engine.Waiting.Approval.Laws.{run_approval-decided, DecisionLeads}
use pocket_flow_go.Error.{text}

abbrev delayed : Object ℤ
delayed = field "delay_ms" (int (pos 500)) empty

abbrev timer_state : Object ℤ
timer_state = field "start" (int64 (pos 99000)) empty

abbrev timer_run : NodeRunInput ℤ
timer_run =
    run_of static_node (field "_rt" (obj (field "tm:a" (obj timer_state) empty)) empty) delayed

-- Started at 99.0 seconds with a delay of half a second, and visited at 100 seconds.
run_timer-due_example : Ends (run_timer toy_engine timer_run (one_leased "running")) (λ res v.
    (res ≡ none) × Moved toy_engine "t1" (leased_task "running") "running" "c" "approved" empty 1 v)
unfolding finished_status find_next put_output clear_runtime runtime_of put at delete size object?
    as_object get timestamp millis
run_timer-due_example =
    run_timer-due toy_engine timer_run (leased_task "running") (one_leased "running") timer_state
      500 99000 refl lease_held refl refl refl (omega arith) (omega arith)

abbrev yes : Value ℤ
yes = bool true

true_null : yes ≢ null
true_null same = cc

true_text : yes ≢ str ""
true_text same = cc

true_false : yes ≢ bool false
true_false same = cc

abbrev approval_params : Object ℤ
approval_params = field "approval_key" (str "$shared.ok") empty

run_approval-decided_example :
    Ends
      (run_approval toy_engine
        (run_of zero_node (field "ok" (bool true) empty) approval_params)
        (one_leased "running"))
      (DecisionLeads toy_engine
        (run_of zero_node (field "ok" (bool true) empty) approval_params)
        (leased_task "running"))
unfolding finished_status find_next put_output clear_runtime runtime_of put at delete size object?
    as_object get text_param string? resolve_ref get_by_path walk step_into parse_segment split
    is_decided approval_action has_prefix strip_prefix cut
run_approval-decided_example =
    run_approval-decided toy_engine
      (run_of zero_node (field "ok" (bool true) empty) approval_params) (leased_task "running")
      (one_leased "running") refl lease_held true_null true_text

abbrev event_params : Object ℤ
event_params = field "signal_key" (str "$shared.go") (field "timeout_ms" (int (pos 500)) empty)

abbrev event_state : Object ℤ
event_state = field "start" (int64 (pos 99000)) empty

abbrev event_shared : Object ℤ
event_shared = field "_rt" (obj (field "we:a" (obj event_state) empty)) empty

abbrev signalled : NodeRunInput ℤ
signalled = run_of static_node (field "go" (bool true) empty) event_params

run_wait_event-received_example :
    Ends
      (run_wait_event toy_engine signalled (one_leased "running"))
      (SignalLeads toy_engine signalled (leased_task "running"))
unfolding finished_status find_next put_output clear_runtime runtime_of put at delete size object?
    as_object get text_param string? resolve_ref get_by_path walk step_into parse_segment split
    is_signal signal_action has_prefix strip_prefix cut
run_wait_event-received_example =
    run_wait_event-received toy_engine signalled (leased_task "running") (one_leased "running") refl
      lease_held true_null true_text true_false

-- Half a second from 99.0 seconds is over at 100 seconds.
run_wait_event-timeout_example :
    Ends
      (run_wait_event toy_engine
        (run_of static_node event_shared event_params)
        (one_leased "running"))
      (λ res v.
        (res ≡ none)
        × Leaves toy_engine "t1"
            (leased_task "running")
            toy_flow.edges
            "a"
            (some (text "timeout"))
            "approved"
            empty
            1
            v)
unfolding put_output clear_runtime runtime_of put at delete size object? as_object get text_param
    string? resolve_ref get_by_path walk step_into parse_segment split is_signal has_prefix
    strip_prefix cut millis timestamp
run_wait_event-timeout_example =
    run_wait_event-timeout toy_engine (run_of static_node event_shared event_params)
      (leased_task "running") (one_leased "running") event_state refl lease_held refl refl 500 99000
      refl refl (omega arith) (omega arith) (λ same. ground (arith, eq_iff "" "retry", same))
      (λ same. ground (arith, eq_iff "" "continue", same))

abbrev patient_params : Object ℤ
patient_params = field "signal_key" (str "$shared.go") empty
