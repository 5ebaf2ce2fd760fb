-- ===== src/Store/Trace/Distinct.antt =====
-- That a statement keeps the ids of its table distinct, and what an insertion keeps.
use pocket_flow_go.Prelude.{
  String, List, Bool, any, ◌≡◌, ◌≢◌, ◌++◌, ◌==◌, some, ◌∷◌, Bool-cases, [], false, arith, inl,
  eq_iff, inr, sym, ◌∙◌, if◌then◌else◌, refl, Option-cases, none,
}
use pocket_flow_go.Store.Sql.{insert_row, update_where}
use pocket_flow_go.Store.Sql.Laws.{All, Keyed}
use mathlib.Core.Path.{subst}
use pocket_flow_go.Store.{Db, WorkerInfo}
use pocket_flow_go.Error.{Result}
use pocket_flow_go.Store.Workers.{upsert}

module _ {A : Type 0} (id : A → String) where
  apart-update :
      (x : String) (test : A → Bool) (set : A → A)
      → ((r : A) → id (set r) ≡ id r)
      → (rs : List A) → All (λ y. id y ≢ x) rs
      → All (λ y. id y ≢ x) (update_where test set rs)
  unfolding update_where
  apart-update x test set same [] a = tt
  apart-update x test set same (r ∷ rs) a = elim (Bool-cases (test r)) [
    | inl t ↦ rw t (λ e. a.0 (sym (same r) ∙ e), apart-update x test set same rs a.1)
    | inr f ↦ rw f (a.0, apart-update x test set same rs a.1)
  ]

  kept_id :
      (test : A → Bool) (set : A → A)
      → ((r : A) → id (set r) ≡ id r)
      → (r : A) → id (if test r then set r else r) ≡ id r
  kept_id test set same r = elim (Bool-cases (test r)) [ inl t ↦ rw t (same r) | inr f ↦ rw f refl ]

  pub Keyed-update_where :
      (test : A → Bool) (set : A → A)
      → ((r : A) → id (set r) ≡ id r)
      → (rs : List A) → Keyed id rs
      → Keyed id (update_where test set rs)
  unfolding update_where
  Keyed-update_where test set same [] k = tt
  Keyed-update_where test set same (r ∷ rs) k = (
    rw (kept_id test set same r) (apart-update (id r) test set same rs k.0),
    Keyed-update_where test set same rs k.1,
  )

  apart-append :
      (x : String) (r : A) (rs : List A)
      → All (λ y. id y ≢ x) rs
      → id r ≢ x
      → All (λ y. id y ≢ x) (rs ++ r ∷ [])
  apart-append x r [] a ne = (ne, tt)
  apart-append x r (s ∷ rs) a ne = (a.0, apart-append x r rs a.1 ne)

  Keyed-append :
      (r : A) (rs : List A)
      → Keyed id rs
      → any (λ s. id s == id r) rs ≡ false
      → Keyed id (rs ++ r ∷ [])
  Keyed-append r [] k h = (tt, tt)
  Keyed-append r (s ∷ rs) k h = (
    apart-append (id s) r rs k.0 (λ e. ground (arith, eq_iff (id s) (id r))),
    Keyed-append r rs k.1 (ground arith),
  )

  pub Keyed-insert_row :
      (r : A) (rs rows : List A) → Keyed id rs → insert_row id r rs ≡ some rows → Keyed id rows
  unfolding insert_row
  Keyed-insert_row r rs rows k h = elim (Bool-cases (any (λ s. id s == id r) rs)) [
    | inl t ↦ ground arith
    | inr f ↦ subst (Keyed id) (ground arith) (Keyed-append r rs k f)
  ]

apart-upsert :
    (x : String) (w : WorkerInfo) (ws : List WorkerInfo)
    → w.id ≢ x
    → All (λ (v : WorkerInfo). v.id ≢ x) ws
    → All (λ (v : WorkerInfo). v.id ≢ x) (upsert w ws)
unfolding upsert
apart-upsert x w [] ne a = (ne, tt)
apart-upsert x w (v ∷ vs) ne a = elim (Bool-cases (v.id == w.id)) [
  | inl t ↦ rw t (ne, a.1)
  | inr f ↦ rw f (a.0, apart-upsert x w vs ne a.1)
]

pub Keyed-upsert :
    (w : WorkerInfo) (ws : List WorkerInfo)
    → Keyed (λ (v : WorkerInfo). v.id) ws
    → Keyed (λ (v : WorkerInfo). v.id) (upsert w ws)
unfolding upsert
Keyed-upsert w [] k = (tt, tt)
Keyed-upsert w (v ∷ vs) k = elim (Bool-cases (v.id == w.id)) [
  | inl t ↦ rw t (rw (← (eq_iff v.id w.id).0 t) k.0, k.1)
  | inr f ↦
      rw f (
        apart-upsert v.id w vs (λ same. ground (arith, eq_iff v.id w.id)) k.0,
        Keyed-upsert w vs k.1,
      )
]

-- What an insertion keeps, if every new list of rows does.
pub inserted :
    {A B : Type 0} (id : A → String) (r : A) (rs : List A) (db : Db) (P : Db → Type 0)
    (fill : List A → Db) (refused done : Result B)
    → P db
    → ((rows : List A) → insert_row id r rs ≡ some rows → P (fill rows))
    → P
        (let out : Result B × Db = elim (insert_row id r rs) [
          | none ↦ (refused, db)
          | some rows ↦ (done, fill rows)
        ] in
          out).1
inserted id r rs db P fill refused done old new = elim (Option-cases (insert_row id r rs)) [
  | inl e ↦ rw e old
  | inr (rows, e) ↦ rw e (new rows e)
]
