-- ===== src/Path/Laws.antt =====
-- Paths compose: a dotted path is walked part by part.
use Prim.Native.Char.{code}
use text.Mathlib.TextLemmas.{nil-append, cons-append}
use pocket_flow_go.Prelude.{
  ◌≡◌, refl, ℕ, String, ◌<>◌, List, [], ◌∷◌, ◌++◌, arith, ◌==◌, eq_iff, nat_eq, Bool-cases, inl,
  inr,
}
use pocket_flow_go.Prelude.Text.{split}
use pocket_flow_go.Value.{Value, null}
use pocket_flow_go.Path.{step_into, walk, get_by_path}

abbrev dotted : String → String → String
dotted p q = p <> String.◌∷◌ "." q

split-cons : (sep : ℕ) (s : String) → (p : String) × (ps : List String) × (split sep s ≡ p ∷ ps)
unfolding split
split-cons sep String.[] = (String.[], [], refl)
split-cons sep (String.◌∷◌ c s) = elim (Bool-cases (nat_eq (code c) sep)) [
  | inl e ↦ (String.[], split sep s, rw e)
  | inr e ↦ let (p, ps, h) = split-cons sep s in (String.◌∷◌ c p, ps, rw (e, h))
]

split-dotted : (p q : String) → split b'.' (dotted p q) ≡ split b'.' p ++ split b'.' q
unfolding split
split-dotted String.[] q = rw nil-append refl
split-dotted (String.◌∷◌ c p) q =
    let (x, xs, h) = split-cons b'.' p in
    elim (Bool-cases (nat_eq (code c) b'.')) [
      | inl e ↦ rw (cons-append, e, split-dotted p q)
      | inr e ↦ rw (cons-append, e, split-dotted p q, h)
    ]

module _ {F : Type 0} where
  step_into-null : (seg : String) → step_into {F = F} seg null ≡ null
  unfolding step_into
  step_into-null seg = ground arith

  walk-null : (segs : List String) → walk {F = F} segs null ≡ null
  unfolding walk
  walk-null [] = refl
  walk-null (seg ∷ rest) = ground (arith, walk-null rest, step_into-null seg)

  walk-append : (xs ys : List String) (v : Value F) → walk (xs ++ ys) v ≡ walk ys (walk xs v)
  unfolding walk
  walk-append [] ys v = refl
  walk-append (x ∷ xs) ys v =
      ground (arith, walk-append xs ys v, walk-append xs ys (step_into x v), walk-null ys)

  get_by_path-walk : (v : Value F) (p : String) → get_by_path v p ≡ walk (split b'.' p) v
  unfolding get_by_path
  get_by_path-walk v p = elim (Bool-cases (p == "")) [
    | inl e ↦ rw ((eq_iff p "").0 e) refl
    | inr e ↦ rw e refl
  ]

  -- getByPath on two paths joined by a dot gives what getByPath with the second path gives on the
  -- result of the first.
  pub get_by_path-dotted :
      (v : Value F) (p q : String) → get_by_path v (dotted p q) ≡ get_by_path (get_by_path v p) q
  get_by_path-dotted v p q =
      simp get_by_path-walk (rw split-dotted (walk-append (split b'.' p) (split b'.' q) v))
