-- ===== src/Store/Sql/Laws.antt =====
-- What a query finds after an update, and which row ORDER BY … LIMIT 1 selects.
use pocket_flow_go.Prelude.{
  Bool, List, Option, ℕ, find_first, select, some, ◌≡◌, ◌≤◌, ◌∷◌, Option-cases, [], arith,
  if◌then◌else◌, none, true, Bool-cases, false, inl, refl, inr, leb, String, sym, ◌∙◌, ◌≢◌, ap,
}
use pocket_flow_go.Store.Sql.{oldest, update_where}
use mathlib.Core.Path.{subst}
use mathlib.Core.List.{Memᴰ}

module _ {A : Type 0} where
  abbrev pub map_row : (A → A) → Option A → Option A
  map_row f none = none
  map_row f (some r) = some (f r)

  pub find_first-update_where :
      (p test : A → Bool) (set : A → A)
      → ((r : A) → p (set r) ≡ p r)
      → (rs : List A)
      → find_first p (update_where test set rs)
        ≡ map_row (λ r. if test r then set r else r) (find_first p rs)
  unfolding update_where
  find_first-update_where p test set same [] = refl
  find_first-update_where p test set same (r ∷ rs) =
      ground (arith, same r, find_first-update_where p test set same rs)

  pub find_first-test : (p : A → Bool) (rs : List A) {r : A} → find_first p rs ≡ some r → p r ≡ true
  find_first-test p [] h = cc
  find_first-test p (x ∷ xs) h = elim (Bool-cases (p x)) [
    | inl t ↦ ground arith
    | inr f ↦ find_first-test p xs (ground arith)
  ]

  -- An update of rows that the query does not ask for.
  pub find_first-update_where_ne :
      (p test : A → Bool) (set : A → A)
      → ((r : A) → p (set r) ≡ p r)
      → ((r : A) → p r ≡ true → test r ≡ false)
      → (rs : List A) → find_first p (update_where test set rs) ≡ find_first p rs
  unfolding update_where
  find_first-update_where_ne p test set same apart [] = refl
  find_first-update_where_ne p test set same apart (r ∷ rs) =
      ground (arith, same r, apart r, find_first-update_where_ne p test set same apart rs)

  abbrev pub All : (A → Type 0) → List A → Type 0
  All P [] = Unit
  All P (x ∷ xs) = P x × All P xs

  All-le :
      (key : A → ℕ) (m n : ℕ) (rs : List A)
      → m ≤ n
      → All (λ x. n ≤ key x) rs
      → All (λ x. m ≤ key x) rs
  All-le key m n [] h a = tt
  All-le key m n (r ∷ rs) h a = (omega arith, All-le key m n rs h a.1)

  oldest-none : (key : A → ℕ) (rs : List A) → oldest key rs ≡ none → rs ≡ []
  unfolding oldest
  oldest-none key [] h = refl
  oldest-none key (x ∷ xs) h = ground arith

  -- The row that is selected has the least key.
  pub oldest-le :
      (key : A → ℕ) (rs : List A) (r : A) → oldest key rs ≡ some r → All (λ x. key r ≤ key x) rs
  unfolding oldest
  oldest-le key [] r h = tt
  oldest-le key (x ∷ xs) r h = elim (Option-cases (oldest key xs)) [
    | inl e ↦ rw (oldest-none key xs e) (ground arith, tt)
    | inr (s, e) ↦
        let rest = oldest-le key xs s e in
        let below : key r ≤ key s = ground arith in
        (ground arith, All-le key (key r) (key s) xs below rest)
  ]

  -- What holds of all rows holds of the one that is selected.
  pub oldest-All :
      (P : A → Type 0) (key : A → ℕ) (rs : List A) (r : A) → All P rs → oldest key rs ≡ some r → P r
  unfolding oldest
  oldest-All P key [] r a h = cc
  oldest-All P key (x ∷ xs) r a h = elim (Option-cases (oldest key xs)) [
    | inl e ↦ subst P (ground arith) a.0
    | inr (s, e) ↦ elim (Bool-cases (leb (key x) (key s))) [
      | inl t ↦ subst P (ground arith) a.0
      | inr f ↦ oldest-All P key xs r a.1 (ground arith)
    ]
  ]

  pub All-select : (p : A → Bool) (rs : List A) → All (λ x. p x ≡ true) (select p rs)
  All-select p [] = tt
  All-select p (x ∷ xs) = elim (Bool-cases (p x)) [
    | inl t ↦ rw t (t, All-select p xs)
    | inr f ↦ rw f (All-select p xs)
  ]

  -- The selected row passes the test of WHERE.
  pub oldest-test :
      (key : A → ℕ) (p : A → Bool) (rs : List A) (r : A)
      → oldest key (select p rs) ≡ some r
      → p r ≡ true
  oldest-test key p rs r h = oldest-All (λ x. p x ≡ true) key (select p rs) r (All-select p rs) h

  -- The row that is selected is one of the rows.
  pub oldest-mem : (key : A → ℕ) (rs : List A) (r : A) → oldest key rs ≡ some r → Memᴰ r rs
  unfolding oldest
  oldest-mem key [] r h = cc
  oldest-mem key (x ∷ xs) r h = elim (Option-cases (oldest key xs)) [
    | inl e ↦ Memᴰ.head (ground arith)
    | inr (s, e) ↦ elim (Bool-cases (leb (key x) (key s))) [
      | inl t ↦ Memᴰ.head (ground arith)
      | inr f ↦ Memᴰ.tail (oldest-mem key xs r (ground arith))
    ]
  ]

  cons_mem :
      (x r : A) (xs ys : List A) → (Memᴰ r xs → Memᴰ r ys) → Memᴰ r (x ∷ xs) → Memᴰ r (x ∷ ys)
  cons_mem x r xs ys f (Memᴰ.head e) = Memᴰ.head e
  cons_mem x r xs ys f (Memᴰ.tail m) = Memᴰ.tail (f m)

  pub select-mem : (p : A → Bool) (rs : List A) (r : A) → Memᴰ r (select p rs) → Memᴰ r rs
  select-mem p [] r m = m
  select-mem p (x ∷ xs) r m = elim (Bool-cases (p x)) [
    | inl t ↦ cons_mem x r (select p xs) xs (select-mem p xs r) (rw t at m)
    | inr f ↦ Memᴰ.tail (select-mem p xs r (rw f at m))
  ]

  pub All-map : {P Q : A → Type 0} → ((a : A) → P a → Q a) → (rs : List A) → All P rs → All Q rs
  All-map f [] a = tt
  All-map f (r ∷ rs) a = (f r a.0, All-map f rs a.1)

  pub All-mem : (P : A → Type 0) (rs : List A) (r : A) → All P rs → Memᴰ r rs → P r
  All-mem P [] r a m = elim m [ ]
  All-mem P (x ∷ xs) r a (Memᴰ.head e) = subst P (sym e) a.0
  All-mem P (x ∷ xs) r a (Memᴰ.tail m) = All-mem P xs r a.1 m

  -- The primary key: no two rows have one id.
  abbrev pub Keyed : (A → String) → List A → Type 0
  Keyed id [] = Unit
  Keyed id (x ∷ xs) = All (λ y. id y ≢ id x) xs × Keyed id xs

  -- What holds of a row holds of every row with its id.
  pub Keyed-All :
      (id : A → String) (P : A → Type 0) (rs : List A) (r : A)
      → Keyed id rs
      → Memᴰ r rs
      → P r
      → All (λ s. id s ≡ id r → P s) rs
  Keyed-All id P [] r k m p = tt
  Keyed-All id P (x ∷ xs) r k (Memᴰ.head e) p =
      (λ _. subst P e p, All-map (λ y ne same. absurd (ne (same ∙ ap id e))) xs k.0)
  Keyed-All id P (x ∷ xs) r k (Memᴰ.tail m) p = (
    λ same. absurd (All-mem (λ y. id y ≢ id x) xs r k.0 m (sym same)),
    Keyed-All id P xs r k.1 m p,
  )

  -- A property of the rows after an update.
  pub All-update_where :
      (P : A → Type 0) (test : A → Bool) (set : A → A) (rs : List A)
      → All (λ r. P (if test r then set r else r)) rs
      → All P (update_where test set rs)
  unfolding update_where
  All-update_where P test set [] a = tt
  All-update_where P test set (r ∷ rs) a = (a.0, All-update_where P test set rs a.1)
