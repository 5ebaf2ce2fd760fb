-- ===== src/Engine/Executor/Queued/Latest.antt =====
-- The latest run of a node, from what holds of all its runs.
use pocket_flow_go.Prelude.{
  Bool, List, String, ◌==◌, any, ℕ, ◌≡◌, ◌&&◌, ◌++◌, false, none, select, some, true, ◌||◌, ◌∷◌,
  Bool-cases, Option-cases, [], arith, if◌then◌else◌, ◌∙◌, ap, eq_iff, inl, inr, leb, refl, sym,
}
use pocket_flow_go.Store.{NodeRun, Db}
use pocket_flow_go.Store.Sql.{insert_by, order_by, update_where}
use pocket_flow_go.Engine.Executor.Queued.{last_run}
use pocket_flow_go.Store.Runs.{list_node_runs}
use pocket_flow_go.Store.Sql.Laws.{All, All-map}
use mathlib.Core.Path.{subst}

module _ {A : Type 0} where
  any-insert_by :
      (p : A → Bool) (key : A → ℕ) (r : A) (rs : List A)
      → any p (insert_by key r rs) ≡ (p r || any p rs)
  unfolding insert_by
  any-insert_by p key r [] = refl
  any-insert_by p key r (s ∷ ss) = ground (arith, any-insert_by p key r ss)

  any-order_by : (p : A → Bool) (key : A → ℕ) (rs : List A) → any p (order_by key rs) ≡ any p rs
  unfolding order_by
  any-order_by p key [] = refl
  any-order_by p key (r ∷ rs) =
      any-insert_by p key r (order_by key rs) ∙ ap (λ b. p r || b) (any-order_by p key rs)

  All-insert_by :
      (P : A → Type 0) (key : A → ℕ) (r : A) (rs : List A)
      → P r
      → All P rs
      → All P (insert_by key r rs)
  unfolding insert_by
  All-insert_by P key r [] h a = (h, tt)
  All-insert_by P key r (s ∷ ss) h a = elim (Bool-cases (leb (key r) (key s))) [
    | inl t ↦ rw t (h, a)
    | inr f ↦ rw f (a.0, All-insert_by P key r ss h a.1)
  ]

  All-order_by : (P : A → Type 0) (key : A → ℕ) (rs : List A) → All P rs → All P (order_by key rs)
  unfolding order_by
  All-order_by P key [] a = tt
  All-order_by P key (r ∷ rs) a =
      All-insert_by P key r (order_by key rs) a.0 (All-order_by P key rs a.1)

  any-select : (p q : A → Bool) (rs : List A) → any p (select q rs) ≡ any (λ r. q r && p r) rs
  any-select p q [] = refl
  any-select p q (r ∷ rs) = ground (arith, any-select p q rs)

  All-where :
      (P : A → Type 0) (q : A → Bool) (rs : List A)
      → All (λ r. q r ≡ true → P r) rs
      → All P (select q rs)
  All-where P q [] a = tt
  All-where P q (r ∷ rs) a = elim (Bool-cases (q r)) [
    | inl t ↦ rw t (a.0 t, All-where P q rs a.1)
    | inr f ↦ rw f (All-where P q rs a.1)
  ]

  All-append : (P : A → Type 0) (rs ss : List A) → All P rs → All P ss → All P (rs ++ ss)
  All-append P [] ss a b = b
  All-append P (r ∷ rs) ss a b = (a.0, All-append P rs ss a.1 b)

  any-append : (p : A → Bool) (rs ss : List A) → any p (rs ++ ss) ≡ (any p rs || any p ss)
  any-append p [] ss = refl
  any-append p (r ∷ rs) ss = ground (arith, any-append p rs ss)

  All-any-false : (p : A → Bool) (rs : List A) → any p rs ≡ false → All (λ r. p r ≡ false) rs
  All-any-false p [] h = tt
  All-any-false p (r ∷ rs) h = (ground arith, All-any-false p rs (ground arith))

last_run-All :
    (P : NodeRun → Type 0) (key : String) (rs : List NodeRun) (s : NodeRun)
    → All (λ (r : NodeRun). r.node_key ≡ key → P r) rs
    → last_run key rs ≡ some s
    → P s
unfolding last_run
last_run-All P key [] s a h = cc
last_run-All P key (r ∷ rs) s a h = elim (Option-cases (last_run key rs)) [
  | inr (later, e) ↦ last_run-All P key rs s a.1 (ground arith)
  | inl e ↦ elim (Bool-cases (r.node_key == key)) [
    | inl t ↦ subst P (ground arith) (a.0 ((eq_iff r.node_key key).0 t))
    | inr f ↦ absurd (ground arith)
  ]
]

last_run-any :
    (key : String) (rs : List NodeRun)
    → last_run key rs ≡ none
    → any (λ (r : NodeRun). r.node_key == key) rs ≡ false
unfolding last_run
last_run-any key [] h = refl
last_run-any key (r ∷ rs) h = ground (arith, last_run-any key rs)

abbrev of_node : String → String → NodeRun → Bool
of_node task_id key r = r.task_id == task_id && r.node_key == key

-- The node has run, and what `P` says holds of all its runs.
abbrev pub RunsAre : (NodeRun → Type 0) → String → String → List NodeRun → Type 0
RunsAre P task_id key rows =
    (any (of_node task_id key) rows ≡ true)
    × All (λ (r : NodeRun). r.task_id ≡ task_id → r.node_key ≡ key → P r) rows

pub latest-RunsAre :
    (P : NodeRun → Type 0) (task_id key : String) (db : Db)
    → RunsAre P task_id key db.node_runs
    → (r : NodeRun) × (last_run key (list_node_runs task_id db) ≡ some r) × P r
unfolding list_node_runs
latest-RunsAre P task_id key db h =
    let rows = select (λ (r : NodeRun). r.task_id == task_id) db.node_runs in
    let in_order = order_by (λ (r : NodeRun). r.started_at) rows in
    let asked : All (λ (r : NodeRun). r.node_key ≡ key → P r) rows =
      All-where _ _ db.node_runs
        (All-map (λ r f t. f ((eq_iff r.task_id task_id).0 t)) db.node_runs h.1) in
    let found : any (λ (r : NodeRun). r.node_key == key) in_order ≡ true =
      any-order_by _ _ rows ∙ any-select _ _ db.node_runs ∙ h.0 in
    elim (Option-cases (last_run key in_order)) [
      | inl e ↦ absurd (ground (arith, last_run-any key in_order e))
      | inr (r, e) ↦ (r, e, last_run-All P key in_order r (All-order_by _ _ rows asked) e)
    ]

-- The first run of a node.
pub RunsAre-insert :
    (task_id key : String) (db : Db) (new : NodeRun)
    → last_run key (list_node_runs task_id db) ≡ none
    → new.task_id ≡ task_id
    → new.node_key ≡ key
    → RunsAre (λ r. r ≡ new) task_id key (db.node_runs ++ new ∷ [])
unfolding list_node_runs
RunsAre-insert task_id key db new h same_task same_key =
    let rows = select (λ (r : NodeRun). r.task_id == task_id) db.node_runs in
    let other_runs : any (of_node task_id key) db.node_runs ≡ false =
      sym (any-order_by _ _ rows ∙ any-select _ _ db.node_runs) ∙ last_run-any key _ h in
    (
      any-append _ db.node_runs (new ∷ [])
          ∙ ground (arith, eq_iff new.task_id task_id, eq_iff new.node_key key),
      All-append _ db.node_runs (new ∷ [])
          (All-map
            (λ r f t k. absurd (ground (arith, eq_iff r.task_id task_id, eq_iff r.node_key key)))
            db.node_runs (All-any-false _ db.node_runs other_runs))
          ((λ t k. refl), tt),
    )

updated_any :
    (p test : NodeRun → Bool) (set : NodeRun → NodeRun)
    → ((r : NodeRun) → p (set r) ≡ p r)
    → (rows : List NodeRun) → any p (update_where test set rows) ≡ any p rows
unfolding update_where
updated_any p test set same [] = refl
updated_any p test set same (r ∷ rows) = ground (arith, same r, updated_any p test set same rows)

-- An update of the runs of which `P` holds.
module _ (P Q : NodeRun → Type 0) (task_id key : String) (test : NodeRun → Bool)
    (set : NodeRun → NodeRun) (hit : (r : NodeRun) → P r → test r ≡ true)
    (kept : (r : NodeRun) → P r → Q (set r))
    (same_task : (r : NodeRun) → (set r).task_id ≡ r.task_id)
    (same_key : (r : NodeRun) → (set r).node_key ≡ r.node_key) where
  updated_row :
      (r : NodeRun) (b : Bool)
      → test r ≡ b
      → (r.task_id ≡ task_id → r.node_key ≡ key → P r)
      → (if b then set r else r).task_id ≡ task_id
      → (if b then set r else r).node_key ≡ key
      → Q (if b then set r else r)
  updated_row r true e f t k = kept r (f (sym (same_task r) ∙ t) (sym (same_key r) ∙ k))
  updated_row r false e f t k = absurd (ground (arith, hit r (f t k)))

  updated_rows :
      (rows : List NodeRun)
      → All (λ (r : NodeRun). r.task_id ≡ task_id → r.node_key ≡ key → P r) rows
      → All
          (λ (r : NodeRun). r.task_id ≡ task_id → r.node_key ≡ key → Q r)
          (update_where test set rows)
  unfolding update_where
  updated_rows [] a = tt
  updated_rows (r ∷ rows) a = (updated_row r _ refl a.0, updated_rows rows a.1)

  pub RunsAre-update_where :
      (rows : List NodeRun)
      → RunsAre P task_id key rows
      → RunsAre Q task_id key (update_where test set rows)
  RunsAre-update_where rows h = (
    updated_any (of_node task_id key) test set (λ r. ground (arith, same_task r, same_key r)) rows
        ∙ h.0,
    updated_rows rows h.1,
  )
