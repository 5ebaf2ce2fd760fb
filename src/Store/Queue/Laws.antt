-- ===== src/Store/Queue/Laws.antt =====
-- That the queue hands each piece of work to one worker, the oldest first.
use pocket_flow_go.Prelude.{
  List, String, ℕ, Option, select, ◌≡◌, ◌==◌, find_first, some, ◌&&◌, arith, if◌then◌else◌, true,
  ◌≢◌, false, ◌≤◌, ◌∷◌, Option-cases, [], inl, inr, eq_iff, sym, ◌∙◌, Bool, refl,
}
use pocket_flow_go.Store.Queue.{poll_queue, is_open, claim}
use pocket_flow_go.Store.{Db, QueueTask}
use pocket_flow_go.Store.Sql.{update_where, oldest}
use pocket_flow_go.Store.Sql.Laws.{All, oldest-test, select-mem, oldest-le, oldest-mem, All-mem}
use mathlib.Core.List.{Memᴰ}
use mathlib.Core.Bool.{false≢true}

abbrev pub find_queued : String → Db → Option QueueTask
find_queued id db = find_first (λ (q : QueueTask). q.id == id) db.task_queue

abbrev pub open_rows : List String → Db → List QueueTask
open_rows services db = select (is_open services) db.task_queue

abbrev pub candidate : List String → Db → Option QueueTask
candidate services db = oldest (λ (q : QueueTask). q.created_at) (open_rows services db)

abbrev pub claimed_rows : ℕ → String → ℕ → String → List QueueTask → List QueueTask
claimed_rows now worker timeout id rows =
    update_where (λ (r : QueueTask). r.id == id && r.status == "pending") (claim now worker timeout)
      rows

-- What a successful poll has read and written.
pub poll_inversion :
    (now : ℕ) (worker : String) (services : List String) (timeout : ℕ) (db db' : Db) (q : QueueTask)
    → poll_queue now worker services timeout db ≡ (some q, db')
    → (r : QueueTask) × (candidate services db ≡ some r)
      × (q.id ≡ r.id)
      × (db'.task_queue ≡ claimed_rows now worker timeout r.id db.task_queue)
unfolding poll_queue
poll_inversion now worker [] timeout db db' q h = ground arith
poll_inversion now worker (svc ∷ services) timeout db db' q h =
    elim (Option-cases (candidate (svc ∷ services) db)) [
      | inl e ↦ ground arith
      | inr (r, e) ↦ (r, e, ground arith, ground arith)
    ]

closed_row :
    (now : ℕ) (worker : String) (timeout : ℕ) (services : List String) (id : String) (x : QueueTask)
    (b : Bool)
    → (x.id == id && x.status == "pending") ≡ b
    → (if b then claim now worker timeout x else x).id ≡ id
    → is_open services (if b then claim now worker timeout x else x) ≡ false
closed_row now worker timeout services id x true h same = refl
closed_row now worker timeout services id x false h same = ground (arith, eq_iff x.id id)

-- After a poll, no row with that id is open.
closed_rows :
    (now : ℕ) (worker : String) (timeout : ℕ) (services : List String) (id : String)
    (rows : List QueueTask)
    → All
        (λ (x : QueueTask). x.id ≡ id → is_open services x ≡ false)
        (claimed_rows now worker timeout id rows)
unfolding update_where
closed_rows now worker timeout services id [] = tt
closed_rows now worker timeout services id (x ∷ xs) = (
  closed_row now worker timeout services id x _ refl,
  closed_rows now worker timeout services id xs,
)

-- Two successful calls of PollQueue, the second on the tables that the first left, hand out work
-- with different ids, whoever polls, for whichever services and at whatever times.
poll_queue_exclusive :
    (now later timeout timeout' : ℕ) (worker worker' : String) (services services' : List String)
    (db db' db'' : Db) (p q : QueueTask)
    → poll_queue now worker services timeout db ≡ (some p, db')
    → poll_queue later worker' services' timeout' db' ≡ (some q, db'')
    → q.id ≢ p.id
poll_queue_exclusive now later timeout timeout' worker worker' services services' db db' db'' p q
      first second same =
    let (r, e, p_id, rows) = poll_inversion now worker services timeout db db' p first in
    let (s, e', q_id, rows') = poll_inversion later worker' services' timeout' db' db'' q second in
    let closed = closed_rows now worker timeout services' r.id db.task_queue in
    let here : Memᴰ s db'.task_queue =
      select-mem (is_open services') db'.task_queue s
        (oldest-mem (λ (x : QueueTask). x.created_at) (open_rows services' db') s e') in
    let shut = All-mem _ db'.task_queue s (rw (← rows) at closed) here in
    let open_again =
      oldest-test (λ (x : QueueTask). x.created_at) (is_open services') db'.task_queue s e' in
    false≢true (sym (shut (sym q_id ∙ same ∙ p_id)) ∙ open_again)

-- The work that a successful PollQueue hands out is a row that was pending, for one of the
-- services, and no such row was created earlier.
poll_queue_oldest :
    (now timeout : ℕ) (worker : String) (services : List String) (db db' : Db) (q : QueueTask)
    → poll_queue now worker services timeout db ≡ (some q, db')
    → (r : QueueTask) × (q.id ≡ r.id)
      × (is_open services r ≡ true)
      × All
          (λ (x : QueueTask). r.created_at ≤ x.created_at)
          (select (is_open services) db.task_queue)
poll_queue_oldest now timeout worker services db db' q h =
    let (r, e, q_id, rows) = poll_inversion now worker services timeout db db' q h in
    (
      r,
      q_id,
      oldest-test (λ (x : QueueTask). x.created_at) (is_open services) db.task_queue r e,
      oldest-le (λ (x : QueueTask). x.created_at) (open_rows services db) r e,
    )
