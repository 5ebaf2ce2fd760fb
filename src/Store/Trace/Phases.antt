-- ===== src/Store/Trace/Phases.antt =====
-- The queue as a machine that hands each piece of work out once: what a client may rely on of the
-- table, and that every call keeps to it.
use pocket_flow_go.Store.Trace.{later, start}
use pocket_flow_go.Store.Trace.Frame.{
  perform-SameQueue, perform-SameQueue, perform-SameQueue, perform-SameQueue, perform-SameQueue,
  perform-SameQueue, perform-SameQueue, perform-SameQueue, perform-SameQueue, perform-SameQueue,
  perform-SameQueue, perform-SameQueue, perform-SameQueue, perform-SameQueue, perform-SameQueue,
}
use pocket_flow_go.Prelude.{
  Option, String, ◌==◌, Bool, List, some, find_first, if◌then◌else◌, ◌≡◌, ◌++◌, Option-cases, false,
  none, true, ℕ, Bool-cases, inl, ◌∷◌, [], inr, ap, arith, refl, select, any, ◌&&◌,
}
use pocket_flow_go.Store.{QueueTask, Db}
use pocket_flow_go.Store.Queue.{
  complete_queue_task, enqueue_task, poll_queue, new_work, is_open, fail_queue_task,
}
use pocket_flow_go.Store.Queue.Laws.{find_queued}
use pocket_flow_go.Store.Sql.{insert_row, update_where, oldest}
use pocket_flow_go.Store.Sql.Laws.{map_row, find_first-update_where}
use pocket_flow_go.Error.{err, constraint, ok}
use pocket_flow_go.Store.Trace.{
  Call, perform, Reach, enqueue_call, poll_call, complete_call, fail_call,
}
use mathlib.Core.Path.{subst}
use pocket_flow_go.Store.Trace.Distinct.{inserted}

pub data Phase : Type 0 where
  absent waiting taken : Phase

pub data PhaseStep : Phase → Phase → Type 0 where
  stay : {p : Phase} → PhaseStep p p
  enqueue : PhaseStep absent waiting
  take_up : PhaseStep waiting taken

pub data PhasePath (from : Phase) : Phase → Type 0 where
  here : PhasePath from from
  next : {p q : Phase} → PhasePath from p → PhaseStep p q → PhasePath from q

abbrev phase_of_row : Option QueueTask → Phase
phase_of_row none = absent
phase_of_row (some q) = if q.status == "pending" then waiting else taken

-- The phase of the work with an id.
abbrev pub phase : String → Db → Phase
phase id db = phase_of_row (find_queued id db)

abbrev Keeps : String → Db → Db → Type 0
Keeps id db db' = PhaseStep (phase id db) (phase id db')

closed_row :
    (test : QueueTask → Bool) (set : QueueTask → QueueTask)
    → ((q : QueueTask) → ((set q).status == "pending") ≡ false)
    → (o : Option QueueTask)
    → PhaseStep (phase_of_row o) (phase_of_row (map_row (λ q. if test q then set q else q) o))
closed_row test set closed none = stay
closed_row test set closed (some q) = elim (Bool-cases (test q)) [
  | inr f ↦ rw f stay
  | inl t ↦ elim (Bool-cases (q.status == "pending")) [
    | inl open_row ↦ rw (t, closed q, open_row) take_up
    | inr shut ↦ rw (t, closed q, shut) stay
  ]
]

found_last :
    (id : String) (rows : List QueueTask) (row : QueueTask)
    → find_first (λ (q : QueueTask). q.id == id) (rows ++ row ∷ [])
      ≡ elim (find_first (λ (q : QueueTask). q.id == id) rows) [
        | some q ↦ some q
        | none ↦ if row.id == id then some row else none
      ]
found_last id [] row = ground arith
found_last id (r ∷ rows) row = ground (arith, found_last id rows row)

appended :
    (row : QueueTask) (rows filled : List QueueTask)
    → insert_row (λ (q : QueueTask). q.id) row rows ≡ some filled
    → rows ++ row ∷ [] ≡ filled
unfolding insert_row
appended row rows filled e = elim (Bool-cases (any (λ (q : QueueTask). q.id == row.id) rows)) [
  | inl t ↦ ground arith
  | inr f ↦ ground arith
]

new_row :
    (id : String) (row : QueueTask) (o : Option QueueTask)
    → (row.status == "pending") ≡ true
    → PhaseStep
        (phase_of_row o)
        (phase_of_row (elim o [ some q ↦ some q | none ↦ if row.id == id then some row else none ]))
new_row id row (some q) pending = stay
new_row id row none pending = elim (Bool-cases (row.id == id)) [
  | inl t ↦ rw (t, pending) enqueue
  | inr f ↦ rw f stay
]

module _ (id : String) (db : Db) where
  queue-Keeps :
      (test : QueueTask → Bool) (set : QueueTask → QueueTask)
      → ((q : QueueTask) → (set q).id ≡ q.id)
      → ((q : QueueTask) → ((set q).status == "pending") ≡ false)
      → Keeps id db (record db { task_queue = update_where test set db.task_queue })
  queue-Keeps test set same closed =
      rw
        (find_first-update_where (λ (q : QueueTask). q.id == id) test set
          (λ q. ap (λ s. s == id) (same q)) db.task_queue)
        (closed_row test set closed (find_queued id db))

  enqueue_task-Keeps :
      (now : ℕ) (new task_id node_key service input : String)
      → Keeps id db (enqueue_task now new task_id node_key service input db).1
  unfolding enqueue_task
  enqueue_task-Keeps now new task_id node_key service input =
      let row = new_work now new task_id node_key service input in
      inserted (λ (q : QueueTask). q.id) row db.task_queue db (Keeps id db)
        (λ rows. record db { task_queue = rows }) (err constraint) (ok new) stay
        (λ rows e.
          subst (λ r. PhaseStep (phase id db) (phase id (record db { task_queue = r })))
            (appended row db.task_queue rows e)
            (rw (found_last id db.task_queue row) (new_row id row (find_queued id db) refl)))

  poll_queue-Keeps :
      (now : ℕ) (worker : String) (services : List String) (timeout : ℕ)
      → Keeps id db (poll_queue now worker services timeout db).1
  unfolding poll_queue
  poll_queue-Keeps now worker [] timeout = stay
  poll_queue-Keeps now worker (svc ∷ services) timeout =
      elim (Option-cases (
        oldest (λ (q : QueueTask). q.created_at)
          (select (is_open (svc ∷ services)) db.task_queue))) [
            | inl e ↦ rw (poll_queue, e) stay
            | inr (q, e) ↦
                elim (Bool-cases
                  (any (λ (r : QueueTask). r.id == q.id && r.status == "pending") db.task_queue)) [
                    | inl h ↦ rw (poll_queue, e, h) (queue-Keeps _ _ (λ r. refl) (λ r. refl))
                    | inr h ↦ rw (poll_queue, e, h) stay
                  ]
          ]

  complete_queue_task-Keeps : (done : String) → Keeps id db (complete_queue_task done db).1
  unfolding complete_queue_task
  complete_queue_task-Keeps done = elim (Option-cases (find_queued done db)) [
    | inl e ↦ rw (complete_queue_task, e) stay
    | inr (q, e) ↦ rw (complete_queue_task, e) (queue-Keeps _ _ (λ r. refl) (λ r. refl))
  ]

  -- Every call is at most one step of the machine.
  perform-Keeps : (c : Call) → Keeps id db (perform c db)
  unfolding perform fail_queue_task
  perform-Keeps (enqueue_call now new task_id node_key service input) =
      enqueue_task-Keeps now new task_id node_key service input
  perform-Keeps (poll_call now worker services timeout) =
      poll_queue-Keeps now worker services timeout
  perform-Keeps (complete_call done) = complete_queue_task-Keeps done
  perform-Keeps (fail_call done) = queue-Keeps _ _ (λ r. refl) (λ r. refl)
  perform-Keeps c = rw (perform-SameQueue db c tt) stay

-- The queue implements a machine in which work is absent, waiting or taken, and goes from absent
-- to waiting and from waiting to taken and nowhere else: any sequence of calls of the store takes
-- the phase of the work with an id along a path of that machine.
pub Reach-PhasePath :
    {allowed : Call → Type 0} {db db' : Db} (id : String)
    → Reach allowed db db'
    → PhasePath (phase id db) (phase id db')
Reach-PhasePath id start = here
Reach-PhasePath id (later {mid} r c _) = next (Reach-PhasePath id r) (perform-Keeps id mid c)
