-- ===== src/Store/Trace/Rows.antt =====
-- A property of the row with a given id, as a property of the table that updates and insertions
-- keep.
use pocket_flow_go.Prelude.{
  String, Bool, List, any, ◌≡◌, ◌≢◌, ◌==◌, some, true, ◌++◌, Bool-cases, false, ◌∙◌, ◌∷◌, [], arith,
  inl, inr, sym, refl, ap, eq_iff, find_first,
}
use pocket_flow_go.Store.Sql.{insert_row, update_where}
use mathlib.Core.List.{Memᴰ}
use pocket_flow_go.Store.Sql.Laws.{All, All-mem}
use mathlib.Core.Bool.{false≢true}
use mathlib.Core.Path.{subst}

module _ {A : Type 0} (key : A → String) (id : String) (P : A → Type 0) where
  -- There is a row with the id, and each such row has the property.
  abbrev pub Holds : List A → Type 0
  Holds rows = (any (λ r. key r == id) rows ≡ true) × All (λ r. key r ≡ id → P r) rows

  -- The query by the id gives a row with the property.
  pub Holds-find_first :
      (rows : List A) → Holds rows → (r : A) × (find_first (λ r. key r == id) rows ≡ some r) × P r
  Holds-find_first [] h = absurd (false≢true h.0)
  Holds-find_first (x ∷ xs) (there, all) = elim (Bool-cases (key x == id)) [
    | inl t ↦ rw t (x, refl, all.0 ((eq_iff (key x) id).0 t))
    | inr f ↦ rw f (Holds-find_first xs (rw f at there, all.1))
  ]

  module _ (test : A → Bool) (set : A → A) (same : (r : A) → key (set r) ≡ key r) where
    pub any-update_where :
        (rows : List A)
        → any (λ r. key r == id) (update_where test set rows) ≡ any (λ r. key r == id) rows
    unfolding update_where
    any-update_where [] = refl
    any-update_where (r ∷ rows) = elim (Bool-cases (test r)) [
      | inl t ↦ rw (t, same r, any-update_where rows)
      | inr f ↦ rw (f, any-update_where rows)
    ]

    All-update :
        ((r : A) → key r ≡ id → test r ≡ true → P r → P (set r))
        → (rows : List A) → All (λ r. key r ≡ id → P r) rows
        → All (λ r. key r ≡ id → P r) (update_where test set rows)
    unfolding update_where
    All-update keep [] a = tt
    All-update keep (r ∷ rows) a = elim (Bool-cases (test r)) [
      | inl t ↦ rw t (
        λ e. (let own : key r ≡ id = sym (same r) ∙ e in keep r own t (a.0 own)),
        All-update keep rows a.1,
      )
      | inr f ↦ rw f (a.0, All-update keep rows a.1)
    ]

    pub Holds-update_where :
        ((r : A) → key r ≡ id → test r ≡ true → P r → P (set r))
        → (rows : List A) → Holds rows
        → Holds (update_where test set rows)
    Holds-update_where keep rows h = (any-update_where rows ∙ h.0, All-update keep rows h.1)

  any-append :
      (row : A) (rows : List A)
      → any (λ r. key r == id) rows ≡ true
      → any (λ r. key r == id) (rows ++ row ∷ []) ≡ true
  any-append row [] h = cc
  any-append row (r ∷ rows) h = ground (arith, any-append row rows)

  All-append :
      (row : A) (rows : List A)
      → key row ≢ id
      → All (λ r. key r ≡ id → P r) rows
      → All (λ r. key r ≡ id → P r) (rows ++ row ∷ [])
  All-append row [] ne a = (λ e. absurd (ne e), tt)
  All-append row (r ∷ rows) ne a = (a.0, All-append row rows ne a.1)

  -- A new row has another id.
  new_key :
      (row : A) (rows : List A)
      → any (λ r. key r == id) rows ≡ true
      → any (λ r. key r == key row) rows ≡ false
      → key row ≢ id
  new_key row rows h f e = false≢true (sym f ∙ rw e h)

  pub Holds-insert_row :
      (row : A) (rows filled : List A)
      → Holds rows
      → insert_row key row rows ≡ some filled
      → Holds filled
  unfolding insert_row
  Holds-insert_row row rows filled h made = elim (Bool-cases (any (λ r. key r == key row) rows)) [
    | inl t ↦ ground arith
    | inr f ↦
        subst Holds (ground arith)
          (any-append row rows h.0, All-append row rows (new_key row rows h.0 f) h.1)
  ]

  -- A row that is in the table has the property.
  pub Holds-mem : (rows : List A) (r : A) → Holds rows → Memᴰ r rows → key r ≡ id → P r
  Holds-mem rows r h m = All-mem (λ x. key x ≡ id → P x) rows r h.1 m

  pub any-mem :
      (rows : List A) (r : A) → Memᴰ r rows → key r ≡ id → any (λ x. key x == id) rows ≡ true
  any-mem [] r m own = elim m [ ]
  any-mem (x ∷ rows) r (Memᴰ.head e) own =
      (let here : key x ≡ id = ap key (sym e) ∙ own in ground (arith, eq_iff (key x) id))
  any-mem (x ∷ rows) r (Memᴰ.tail m) own = ground (arith, any-mem rows r m own)
