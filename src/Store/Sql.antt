-- ===== src/Store/Sql.antt =====
-- The clauses of SQL that the statements use, over a table as the list of its rows.
pub mod Laws
use pocket_flow_go.Prelude.{
  Bool, String, ℕ, List, Option, ◌∷◌, [], if◌then◌else◌, none, any, leb, some, ◌==◌, ◌++◌,
}

module _ {A : Type 0} where
  -- UPDATE … SET … WHERE …
  unfoldable pub update_where : (A → Bool) → (A → A) → List A → List A
  update_where test set [] = []
  update_where test set (r ∷ rs) = (if test r then set r else r) ∷ update_where test set rs

  -- ORDER BY key ASC LIMIT 1; of rows with one key, the row stored first
  unfoldable pub oldest : (A → ℕ) → List A → Option A
  oldest key [] = none
  oldest key (r ∷ rs) = elim (oldest key rs) [
    | none ↦ some r
    | some s ↦ if leb (key r) (key s) then some r else some s
  ]

  unfoldable pub insert_by : (A → ℕ) → A → List A → List A
  insert_by key r [] = r ∷ []
  insert_by key r (s ∷ ss) = if leb (key r) (key s) then r ∷ s ∷ ss else s ∷ insert_by key r ss

  -- ORDER BY key ASC; rows with one key stay in the order in which they are stored
  unfoldable pub order_by : (A → ℕ) → List A → List A
  unfolding insert_by
  order_by key [] = []
  order_by key (r ∷ rs) = insert_by key r (order_by key rs)

  -- INSERT INTO a table whose primary key is `id`
  unfoldable pub insert_row : (A → String) → A → List A → Option (List A)
  insert_row id r rs = if any (λ s. id s == id r) rs then none else some (rs ++ r ∷ [])
