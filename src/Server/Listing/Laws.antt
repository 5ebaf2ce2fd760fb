-- ===== src/Server/Listing/Laws.antt =====
-- That the pages make up the whole listing.
use native.Mathlib.Nat.{mul-le-mul_right}
use Prim.Native.Nat.{◌^◌}
use mathlib.Core.Path.{ap₂, subst}
use mathlib.Core.List.{Perm}
use pocket_flow_go.Engine.{Outcome, World, returned}
use pocket_flow_go.Server.Listing.{handle_list_flows, offset_of, wrap_int64}
use pocket_flow_go.Prelude.{
  ℕ, List, ◌*◌, ◌<◌, [], length, take, ◌+◌, suc, ◌≤◌, ◌++◌, ◌≡◌, drop, zero, ◌∷◌, ap, arith, refl,
  ◌∙◌, sym, leb, true,
}
use pocket_flow_go.Server.{Response, flow_page}
use pocket_flow_go.Store.Listing.{list_flows, order_with}
use pocket_flow_go.Store.{FlowRow}
use pocket_flow_go.Prelude.Int.{pos, is_pos, leb_ℤ}
use pocket_flow_go.Store.Listing.Laws.{order_with-perm, length-order_with}

module _ {A : Type 0} where
  take-nil : (n : ℕ) → take {A = A} n [] ≡ []
  take-nil zero = refl
  take-nil (suc n) = refl

  take-add : (a b : ℕ) (xs : List A) → take (a + b) xs ≡ take a xs ++ take b (drop a xs)
  take-add zero b xs = let e : 0 + b ≡ b = omega arith in rw e refl
  take-add (suc a) zero [] = take-nil (suc a + 0)
  take-add (suc a) (suc b) [] = take-nil (suc a + suc b)
  take-add (suc a) b (x ∷ xs) =
      let e : suc a + b ≡ suc (a + b) = omega arith in rw e (ap (λ l. x ∷ l) (take-add a b xs))

  take-all : (n : ℕ) (xs : List A) → length xs ≤ n → take n xs ≡ xs
  take-all zero [] h = refl
  take-all zero (x ∷ xs) h = absurd (omega arith)
  take-all (suc n) [] h = refl
  take-all (suc n) (x ∷ xs) h = ap (λ l. x ∷ l) (take-all n xs (omega arith))

  -- The pages from the first to the n-th, one after the other.
  abbrev pub pages : (ℕ → List A) → ℕ → List A
  pages page zero = []
  pages page (suc n) = pages page n ++ page (suc n)

  pages-take :
      (size : ℕ) (rows : List A) (page : ℕ → List A) (n : ℕ)
      → ((p : ℕ) → p < n → page (suc p) ≡ take size (drop (p * size) rows))
      → pages page n ≡ take (n * size) rows
  pages-take size rows page zero h = let e : 0 * size ≡ 0 = omega arith in rw e refl
  pages-take size rows page (suc n) h =
      let e : suc n * size ≡ n * size + size = grind arith in
      ap₂ ◌++◌ (pages-take size rows page n (λ p lt. h p (omega arith))) (h n (omega arith))
      ∙ sym (take-add (n * size) size rows)
      ∙ (rw e refl)

offset_of-page :
    (p size : ℕ) → p * size < 2 ^ 63 → offset_of (pos (suc p)) (pos size) ≡ pos (p * size)
unfolding offset_of wrap_int64
offset_of-page p size small = ground arith

-- The rows that an answer lists.
abbrev pub flows_of : Outcome Response → List FlowRow
flows_of (returned res w) = elim res.body [ flow_page rows total page size ↦ rows | _ ↦ [] ]
flows_of _ = []

handle_list_flows-page :
    (p size : ℕ) (w : World)
    → 0 < size
    → p * size < 2 ^ 63
    → flows_of (handle_list_flows (pos (suc p)) (pos size) w)
      ≡ take size (
          drop
            (p * size)
            (order_with (λ (f g : FlowRow). leb g.created_at f.created_at) w.db.flows))
unfolding handle_list_flows list_flows
handle_list_flows-page p size w pos_size small =
    let limited : is_pos (pos size) ≡ true = ground arith in
    let first : leb_ℤ (pos 1) (pos (suc p)) ≡ true = ground arith in
    let some_rows : leb_ℤ (pos 1) (pos size) ≡ true = ground arith in
    rw (first, some_rows, limited, offset_of-page p size small) refl

page_below : (p n size : ℕ) → n * size ≤ 2 ^ 63 → p < n → 0 < size → p * size < 2 ^ 63
page_below p n size small lt pos_size =
    let below : suc p ≤ n = omega arith in
    let rest = mul-le-mul_right size below in
    let next : suc p * size ≡ p * size + size = grind arith in omega arith

-- For a page size above 0 and so many pages that they hold all flows, where their number times
-- the size is at most 2^63, the pages from the first to the last that handleFlows answers, one
-- after the other, are a permutation of the flows table.
pub handle_list_flows-pages :
    (n size : ℕ) (w : World)
    → 0 < size
    → n * size ≤ 2 ^ 63
    → length w.db.flows ≤ n * size
    → Perm (pages (λ p. flows_of (handle_list_flows (pos p) (pos size) w)) n) w.db.flows
handle_list_flows-pages n size w pos_size small enough =
    let before = λ (f g : FlowRow). leb g.created_at f.created_at in
    let rows = order_with before w.db.flows in
    let whole =
      pages-take size rows (λ p. flows_of (handle_list_flows (pos p) (pos size) w)) n
        (λ p lt.
          handle_list_flows-page p size w pos_size (page_below p n size small lt pos_size)) in
    let kept = order_with-perm before w.db.flows in
    let as_many = length-order_with before w.db.flows in
    subst (λ l. Perm l w.db.flows) (sym (whole ∙ take-all (n * size) rows (omega arith))) kept
