-- ===== src/Worker/Async/Handed.antt =====
-- Work that is the only open one in the queue is handed out.
use pocket_flow_go.Prelude.{
  Bool, ℕ, List, String, any, select, ◌≡◌, [], false, true, ◌++◌, find_first, ◌∷◌, Bool-cases,
  arith, some, ◌==◌, inl, refl, ◌&&◌, inr, eq_refl, eq_iff, ◌∙◌, ap, if◌then◌else◌,
}
use pocket_flow_go.Store.{Db, QueueTask}
use pocket_flow_go.Store.Queue.{is_open, poll_queue, claim}
use pocket_flow_go.Store.Sql.{update_where, oldest}
use pocket_flow_go.Store.Queue.Laws.{find_queued}
use pocket_flow_go.Store.Sql.Laws.{find_first-update_where, map_row}

module _ {A : Type 0} (p : A → Bool) (r : A) where
  select-append :
      (rows : List A) → select p rows ≡ [] → p r ≡ true → select p (rows ++ r ∷ []) ≡ r ∷ []
  select-append [] none_open h = rw h refl
  select-append (x ∷ rows) none_open h = elim (Bool-cases (p x)) [
    | inl t ↦ absurd (ground arith)
    | inr f ↦ rw f (select-append rows (ground arith) h)
  ]

  find_first-append :
      (rows : List A) → any p rows ≡ false → p r ≡ true → find_first p (rows ++ r ∷ []) ≡ some r
  find_first-append [] fresh h = rw h refl
  find_first-append (x ∷ rows) fresh h = ground (arith, find_first-append rows)

  any-last : (rows : List A) → p r ≡ true → any p (rows ++ r ∷ []) ≡ true
  any-last [] h = ground arith
  any-last (x ∷ rows) h = ground (arith, any-last rows h)

-- The only open work is handed out.
module _ (now : ℕ) (worker : String) (timeout : ℕ) (db : Db) (rows : List QueueTask) (q : QueueTask)
    (queue : db.task_queue ≡ rows ++ q ∷ []) (pending : q.status ≡ "pending") where
  abbrev pub after_poll : Db
  after_poll = record db {
    task_queue =
        update_where (λ r. r.id == q.id && r.status == "pending") (claim now worker timeout)
          db.task_queue;
  }

  abbrev pub handed_out : QueueTask
  handed_out = record (claim now worker timeout q) { created_at = 0 }

  is_pending_work : (q.id == q.id && q.status == "pending") ≡ true
  is_pending_work = ground (arith, eq_refl q.id, eq_iff q.status "pending")

  pub poll_queue-single :
      (services : List String)
      → select (is_open services) rows ≡ []
      → is_open services q ≡ true
      → poll_queue now worker services timeout db ≡ (some handed_out, after_poll)
  unfolding oldest poll_queue update_where
  poll_queue-single [] none_open opened = absurd (ground arith)
  poll_queue-single (svc ∷ services) none_open opened =
      let here : select (is_open (svc ∷ services)) db.task_queue ≡ q ∷ [] =
        rw queue (select-append (is_open (svc ∷ services)) q rows none_open opened) in
      let still : any (λ (r : QueueTask). r.id == q.id && r.status == "pending") db.task_queue
          ≡ true =
        rw queue (any-last _ q rows is_pending_work) in
      rw (poll_queue, here, still) refl

  pub find-after_poll :
      any (λ (r : QueueTask). r.id == q.id) rows ≡ false
      → find_queued q.id after_poll ≡ some (claim now worker timeout q)
  find-after_poll fresh =
      let there : find_first (λ (r : QueueTask). r.id == q.id) db.task_queue ≡ some q =
        rw queue (find_first-append _ q rows fresh (eq_refl q.id)) in
      find_first-update_where (λ (r : QueueTask). r.id == q.id)
        (λ r. r.id == q.id && r.status == "pending") (claim now worker timeout) (λ r. refl)
        db.task_queue
      ∙ ap
          (map_row
            (λ r. if r.id == q.id && r.status == "pending" then claim now worker timeout r else r))
          there
      ∙ (rw is_pending_work refl)
