-- ===== src/Server/Workers/Alive.antt =====
-- That a worker which has registered can be allocated.
use pocket_flow_go.Engine.{Engine, World, unix}
use pocket_flow_go.Store.{WorkerInfo, Db}
use pocket_flow_go.Store.Workers.{
  refresh_workers_status, upsert, register_worker, list_workers, is_listed,
}
use pocket_flow_go.Store.Sql.{update_where}
use pocket_flow_go.Prelude.{
  Bool, List, ℕ, ◌≡◌, any, true, String, arith, select, ◌∷◌, Bool-cases, [], ◌≢◌, ◌==◌, inl, refl,
  inr, suc, ◌≤◌, ◌+◌, ◌∙◌, List-cases,
}
use pocket_flow_go.Server.Workers.{
  handle_register_worker, handle_allocate, registration, least_loaded,
}
use pocket_flow_go.Prelude.Int.{ℤ, is_pos, pos}
use pocket_flow_go.Engine.Core.Laws.{Ends}
use pocket_flow_go.Server.{worker_body}
use pocket_flow_go.Server.Workers.Laws.{Allocated, allocated}

any-upsert :
    (p : WorkerInfo → Bool) (w : WorkerInfo) (rows : List WorkerInfo)
    → p w ≡ true
    → any p (upsert w rows) ≡ true
unfolding upsert
any-upsert p w [] h = ground arith
any-upsert p w (r ∷ rows) h = ground (arith, any-upsert p w rows h)

any-update_same :
    (p test : WorkerInfo → Bool) (set : WorkerInfo → WorkerInfo)
    → ((r : WorkerInfo) → p (set r) ≡ p r)
    → (rows : List WorkerInfo) → any p (update_where test set rows) ≡ any p rows
unfolding update_where
any-update_same p test set same [] = refl
any-update_same p test set same (r ∷ rows) =
    ground (arith, same r, any-update_same p test set same rows)

any-select_nonempty :
    (p : WorkerInfo → Bool) (rows : List WorkerInfo) → any p rows ≡ true → select p rows ≢ []
any-select_nonempty p [] h e = ground arith
any-select_nonempty p (r ∷ rows) h e = elim (Bool-cases (p r)) [
  | inl t ↦ ground arith
  | inr f ↦ any-select_nonempty p rows (ground arith) (ground arith)
]

refreshed :
    (p : WorkerInfo → Bool) (now : ℕ) (ttl : ℤ) (db : Db)
    → ((r : WorkerInfo) (status : String) → p (record r { status = status }) ≡ p r)
    → any p (refresh_workers_status now ttl db).workers ≡ any p db.workers
unfolding refresh_workers_status
refreshed p now ttl db same = elim (Bool-cases (is_pos ttl)) [
  | inl t ↦ rw t (any-update_same p _ _ (λ r. same r "offline") db.workers)
  | inr f ↦ rw f refl
]

-- The row that a registration stores is listed.
registered-is_listed :
    (stamp now heartbeat : ℕ) (id url service worker_type : String) (services : List String)
    (db : Db)
    → any (λ s. s == service) services ≡ true
    → now ≤ stamp + 15
    → any
        (is_listed now service (pos 15))
        (register_worker stamp (registration id url services worker_type heartbeat) db).workers
      ≡ true
unfolding register_worker
registered-is_listed stamp now heartbeat id url service worker_type services db offered recent =
    any-upsert (is_listed now service (pos 15)) _ db.workers
      (elim (Bool-cases (worker_type == "")) [
        | inl t ↦ rw t (ground arith)
        | inr f ↦ rw f (ground arith)
      ])

module _ {F : Type 0} (e : Engine F) where
  -- Where a worker registers with a service and the clock, read at the end of a following
  -- allocation of that service, is at most 15 seconds past its reading by the registration, both
  -- handlers end, the allocation answers 200, and the worker that it answers with passes the
  -- tests of ListWorkers for the service and has the least load of all that do.
  pub register-allocate :
      (id url service worker_type : String) (services : List String) (w : World)
      → any (λ s. s == service) services ≡ true
      → unix e (suc (suc (suc w.tick))) ≤ unix e (suc w.tick) + 15
      → Ends (handle_register_worker e id url services worker_type w) (λ res w1.
        (res.code ≡ 200)
        × Ends (handle_allocate e service w1) (λ answer w2.
          (x : WorkerInfo) × (answer ≡ record { code = 200; body = worker_body x })
          × Allocated (unix e (suc w1.tick)) service w2.db x))
  unfolding handle_register_worker register_worker handle_allocate list_workers
  register-allocate id url service worker_type services w offered recent =
      let db =
        register_worker (unix e (suc w.tick))
          (registration id url services worker_type (unix e w.tick)) w.db in
      let now = unix e (suc (suc (suc w.tick))) in
      let refreshed_db = refresh_workers_status (unix e (suc (suc w.tick))) (pos 15) db in
      let listed : any (is_listed now service (pos 15)) refreshed_db.workers ≡ true =
        refreshed (is_listed now service (pos 15)) (unix e (suc (suc w.tick))) (pos 15) db
          (λ r status. refl)
        ∙ registered-is_listed (unix e (suc w.tick)) now (unix e w.tick) id url service worker_type
            services w.db offered recent in
      (
        refl,
        elim (List-cases (list_workers now service (pos 15) refreshed_db)) [
          | inl h ↦ absurd (any-select_nonempty _ refreshed_db.workers listed h)
          | inr (x, xs, h) ↦
              rw h (least_loaded x (x ∷ xs), refl, allocated now service refreshed_db x xs h)
        ],
      )
