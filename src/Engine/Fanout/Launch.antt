-- ===== src/Engine/Fanout/Launch.antt =====
-- Which branches are launched at once.
use pocket_flow_go.Prelude.{
  List, ℕ, ◌<◌, length, ◌∷◌, suc, ◌≡◌, ◌≤◌, arith, inl, some, zero, [], inr, refl, Option, String,
  none, ◌++◌, ◌+◌, ◌⊎◌, Bool-cases, ap, ltb,
}
use mathlib.Core.List.{Perm}
use mathlib.Core.List.Perm
use pocket_flow_go.Engine.Fanout.{
  launch_count, prefix, arrange, insert_at, override_node, branch_node,
}
use pocket_flow_go.Store.Sql.Laws.{All}
use pocket_flow_go.Prelude.Int.{ℤ, pos_part}
use pocket_flow_go.Flow.{DefNode, ExecSpec}

-- What is launched is the start of what is open: all of it where there is no limit, else as much as
-- the limit lets.
abbrev pub FillsLimit : {A : Type 0} → ℤ → List A → List A → Type 0
FillsLimit limit launched rest =
    (pos_part limit ≡ 0 → rest ≡ [])
    × (0 < pos_part limit
        → (length launched ≤ pos_part limit) × ((rest ≡ []) ⊎ (length launched ≡ pos_part limit)))

abbrev pub Launches : {A : Type 0} → ℤ → List A → List A → List A → Type 0
Launches limit remaining launched rest =
    (remaining ≡ launched ++ rest) × FillsLimit limit launched rest

prefix-split :
    {A : Type 0} (n : ℕ) (xs : List A)
    → n ≤ length xs
    → (ys : List A) × (rest : List A) × (prefix n xs ≡ some ys)
      × (xs ≡ ys ++ rest)
      × (length ys ≡ n)
      × (n + length rest ≡ length xs)
unfolding prefix
prefix-split zero xs le = ([], xs, refl, refl, refl, omega arith)
prefix-split (suc n) [] le = absurd (omega (arith, le))
prefix-split (suc n) (x ∷ xs) le =
    let (ys, rest, cut, parts, front, all) = prefix-split n xs (omega (arith, le)) in
    (x ∷ ys, rest, rw cut refl, ap (λ zs. x ∷ zs) parts, omega (arith, front), omega (arith, all))

length-zero : {A : Type 0} (xs : List A) → length xs ≡ 0 → xs ≡ []
length-zero [] h = refl
length-zero (x ∷ xs) h = absurd (omega (arith, h))

launch_count-le : (limit : ℤ) (n : ℕ) → launch_count limit n ≤ n
unfolding launch_count
launch_count-le limit n = ground arith

launch_count-unlimited : (limit : ℤ) (n : ℕ) → pos_part limit ≡ 0 → launch_count limit n ≡ n
unfolding launch_count
launch_count-unlimited limit n h = ground (arith, h)

launch_count-limited :
    (limit : ℤ) (n : ℕ)
    → 0 < pos_part limit
    → (launch_count limit n ≤ pos_part limit)
      × ((launch_count limit n ≡ n) ⊎ (launch_count limit n ≡ pos_part limit))
unfolding launch_count
launch_count-limited limit n positive = elim (Bool-cases (ltb n (pos_part limit))) [
  | inl t ↦ (ground (arith, t, positive), inl (ground (arith, t, positive)))
  | inr f ↦ (ground (arith, f, positive), inr (ground (arith, f, positive)))
]

-- The slice does not panic, and is what is launched.
pub prefix-Launches :
    {A : Type 0} (limit : ℤ) (xs : List A)
    → (ys : List A) × (rest : List A) × (prefix (launch_count limit (length xs)) xs ≡ some ys)
      × Launches limit xs ys rest
prefix-Launches limit xs =
    let n = launch_count limit (length xs) in
    let (ys, rest, cut, parts, front, all) =
      prefix-split n xs (launch_count-le limit (length xs)) in
    (
      ys,
      rest,
      cut,
      (
        parts,
        (
          (λ unlimited.
              let full = launch_count-unlimited limit (length xs) unlimited in
              length-zero rest (omega (arith, full, all))),
          (λ positive.
              let (below, either) = launch_count-limited limit (length xs) positive in
              (
                omega (arith, below, front),
                elim either [
                  | inl full ↦ inl (length-zero rest (omega (arith, full, all)))
                  | inr limited ↦ inr (omega (arith, limited, front))
                ],
              )),
        ),
      ),
    )

pub All-start : {A : Type 0} (P : A → Type 0) (xs ys : List A) → All P (xs ++ ys) → All P xs
All-start P [] ys a = tt
All-start P (x ∷ xs) ys a = (a.0, All-start P xs ys a.1)

All-insert_at :
    {A : Type 0} (P : A → Type 0) (p : ℕ) (x : A) (xs : List A)
    → P x
    → All P xs
    → All P (insert_at p x xs)
unfolding insert_at
All-insert_at P zero x xs h a = (h, a)
All-insert_at P (suc p) x [] h a = (h, tt)
All-insert_at P (suc p) x (y ∷ ys) h a = (a.0, All-insert_at P p x ys h a.1)

pub All-arrange :
    {A : Type 0} (P : A → Type 0) (order : List ℕ) (xs : List A)
    → All P xs
    → All P (arrange order xs)
unfolding arrange
All-arrange P [] xs a = a
All-arrange P (p ∷ order) [] a = tt
All-arrange P (p ∷ order) (x ∷ xs) a =
    All-insert_at P p x (arrange order xs) a.0 (All-arrange P order xs a.1)

insert_at-perm : {A : Type 0} (p : ℕ) (x : A) (xs : List A) → Perm (insert_at p x xs) (x ∷ xs)
unfolding insert_at
insert_at-perm zero x xs = Perm.refl (x ∷ xs)
insert_at-perm (suc p) x [] = Perm.refl (x ∷ [])
insert_at-perm (suc p) x (y ∷ ys) =
    Perm.trans (Perm.cons y (insert_at-perm p x ys)) (Perm.swap x y ys)

-- Every launched branch arrives exactly once.
pub arrange-perm : {A : Type 0} (order : List ℕ) (xs : List A) → Perm (arrange order xs) xs
unfolding arrange
arrange-perm [] xs = Perm.refl xs
arrange-perm (p ∷ order) [] = Perm.refl []
arrange-perm (p ∷ order) (x ∷ xs) =
    Perm.trans (insert_at-perm p x (arrange order xs)) (Perm.cons x (arrange-perm order xs))

-- A branch's node has the limit of the node that it comes from.
pub override_node-max_attempts :
    {F : Type 0} (node : DefNode F) (spec : Option (ExecSpec F)) (service : String)
    → (override_node spec (branch_node node service)).max_attempts ≡ node.max_attempts
unfolding override_node branch_node
override_node-max_attempts node none service = refl
override_node-max_attempts node (some sp) service = refl

pub override_node-service :
    {F : Type 0} (node : DefNode F) (spec : Option (ExecSpec F)) (service : String)
    → (override_node spec (branch_node node service)).service ≡ service
unfolding override_node branch_node
override_node-service node none service = refl
override_node-service node (some sp) service = refl
