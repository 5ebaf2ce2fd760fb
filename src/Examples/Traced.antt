-- ===== src/Examples/Traced.antt =====
-- The theorems on sequences of calls, applied.
use pocket_flow_go.Store.{Db, empty_db}
use pocket_flow_go.Store.Trace.Keys.{IsKeyed, Reach-IsKeyed}
use pocket_flow_go.Store.Trace.{
  Reach, AnyCall, perform, fail_call, refresh_workers_call, enqueue_call,
}
use pocket_flow_go.Store.Tasks.{lease_next_task, get_task, joined}
use pocket_flow_go.Store.Queue.{poll_queue, fail_queue_task, claim}
use pocket_flow_go.Store.Trace.Leases.{lease_next_task_once}
use pocket_flow_go.Store.Trace.Held.{Respects}
use pocket_flow_go.Store.Sql.{oldest, update_where}
use pocket_flow_go.Examples.{two_waiting, two_queued, waiting_task, queued_work}
use pocket_flow_go.Prelude.{◌∷◌, [], ◌≢◌, String, arith, refl}
use pocket_flow_go.Prelude.Int.{pos}
use pocket_flow_go.Store.Workers.{refresh_workers_status}
use pocket_flow_go.Store.Trace.Queue.{poll_queue_once}
use pocket_flow_go.Examples.Stored.{Keyed-waiting}
use pocket_flow_go.Store.Trace.Phases.{PhasePath, phase, Reach-PhasePath}

two_calls :
    Reach AnyCall empty_db
      (perform (fail_call "q1") (perform (enqueue_call 9 "q1" "t1" "a" "sum" "{}") empty_db))
two_calls =
    Reach.later (Reach.later Reach.start (enqueue_call 9 "q1" "t1" "a" "sum" "{}") tt)
      (fail_call "q1") tt

Reach-IsKeyed_example :
    IsKeyed (perform (fail_call "q1") (perform (enqueue_call 9 "q1" "t1" "a" "sum" "{}") empty_db))
Reach-IsKeyed_example = Reach-IsKeyed (tt, tt, tt, tt, tt, tt) two_calls

-- "s1" leases "t2", and the workers' status is refreshed.
abbrev after_lease : Db
after_lease = (lease_next_task 10 "s1" 15 two_waiting).1

refreshed :
    Reach
      (Respects "s1" 25 "t2")
      after_lease
      (perform (refresh_workers_call 11 (pos 15)) after_lease)
refreshed = Reach.later Reach.start (refresh_workers_call 11 (pos 15)) tt

lease_next_task_once_example : ◌≢◌ {A = String} "t1" "t2"
unfolding lease_next_task oldest update_where get_task joined perform refresh_workers_status
lease_next_task_once_example =
    lease_next_task_once 10 15 12 15 "s1" "s2" two_waiting after_lease _ _
      (waiting_task "t2" "running" 5) (waiting_task "t1" "pending" 7) Keyed-waiting (omega arith)
      refl refreshed (omega arith) refl

abbrev after_poll : Db
after_poll = (poll_queue 10 "w1" ("sum" ∷ []) 60 two_queued).1

failed : Reach AnyCall after_poll (perform (fail_call "q2") after_poll)
failed = Reach.later Reach.start (fail_call "q2") tt

-- The work "q2" is taken and fails; the next is "q1".
poll_queue_once_example : ◌≢◌ {A = String} "q1" "q2"
unfolding poll_queue oldest update_where perform fail_queue_task
poll_queue_once_example =
    poll_queue_once 10 11 60 60 "w1" "w2" ("sum" ∷ []) ("sum" ∷ []) two_queued after_poll _ _
      (record (claim 10 "w1" 60 (queued_work "q2" 8)) { created_at = 0 })
      (record (claim 11 "w2" 60 (queued_work "q1" 9)) { created_at = 0 }) refl failed refl

-- "q2" is enqueued, taken and then fails.
Reach-PhasePath_example :
    PhasePath (phase "q2" after_poll) (phase "q2" (perform (fail_call "q2") after_poll))
Reach-PhasePath_example = Reach-PhasePath "q2" failed
