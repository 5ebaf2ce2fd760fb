-- ===== src/Path.antt =====
-- References into nested values: `parseSegment` and `getByPath` (pkg/engine/util.go), `resolveRef`
-- and `resolveVal` (pkg/engine/expr.go).
pub mod Laws
pub mod Segments
use Prim.Native.Char.{code}
use pocket_flow_go.Prelude.{
  ℕ, Bool, true, false, String, Option, none, some, List, [], ◌∷◌, ◌==◌, if◌then◌else◌, get_elem?,
  nat_eq,
}
use pocket_flow_go.Prelude.Int.{ℤ, pos, negsuc}
use pocket_flow_go.Prelude.Text.{strip_prefix, split, cut}
use pocket_flow_go.Prelude.Decimal.{atoi}
use pocket_flow_go.Value.{Value, Object, null, str, arr, obj, items, at, or_null}

-- The name and the number of "name[number]".
indexed : String → Option (String × ℤ)
unfolding cut atoi
indexed seg = elim (cut b'[' seg) [
  | none ↦ none
  | some (name, rest) ↦ elim (cut b']' name) [
    | some before ↦ none
    | none ↦ elim (cut b']' rest) [
      | none ↦ none
      | some (num, behind) ↦ elim (atoi num) [ none ↦ none | some n ↦ some (name, n) ]
    ]
  ]
]

-- The name, and the index if there is one.
unfoldable pub parse_segment : String → String × Option ℤ
unfolding indexed
parse_segment seg = elim (indexed seg) [ none ↦ (seg, none) | some (name, n) ↦ (name, some n) ]

-- `if k != "" && k[0] == '.' { k = k[1:] }`
unfoldable pub drop_dot : String → String
drop_dot String.[] = String.[]
drop_dot (String.◌∷◌ c s) = if nat_eq (code c) b'.' then s else String.◌∷◌ c s

module _ {F : Type 0} where
  abbrev pub is_null : Value F → Bool
  is_null null = true
  is_null _ = false

  -- The `switch m := cur.(type)`: a map's entry, and nil from any other value.
  member : String → Value F → Value F
  unfolding at
  member name (obj m) = at name m
  member name _ = null

  -- The `switch arr := cur.(type)` for an index.
  element : Option ℤ → Value F → Value F
  unfolding items
  element none v = v
  element (some (pos n)) (arr xs) = or_null (get_elem? (items xs) n)
  element (some _) _ = null

  unfoldable pub step_into : String → Value F → Value F
  unfolding parse_segment member element
  step_into seg cur = let (name, idx) = parse_segment seg in element idx (member name cur)

  -- The loop over the segments; nil ends it.
  unfoldable pub walk : List String → Value F → Value F
  unfolding step_into
  walk [] cur = cur
  walk (seg ∷ rest) cur =
      let same = walk rest cur in
      let next = step_into seg cur in
      let deeper = walk rest next in
      if seg == "" then same else if is_null next then null else deeper

  unfoldable pub get_by_path : Value F → String → Value F
  unfolding walk split
  get_by_path v path = if path == "" then v else walk (split b'.' path) v

  module _ (shared params : Object F) (input : Value F) where
    input_ref : String → Value F
    unfolding get_by_path drop_dot
    input_ref p = if p == "" then input else get_by_path input (drop_dot p)

    unfoldable pub resolve_ref : String → Value F
    unfolding strip_prefix get_by_path drop_dot input_ref
    resolve_ref path = elim (strip_prefix "$params." path) [
      | some k ↦ get_by_path (obj params) (drop_dot k)
      | none ↦ elim (strip_prefix "$shared." path) [
        | some k ↦ get_by_path (obj shared) (drop_dot k)
        | none ↦ elim (strip_prefix "$input" path) [ some p ↦ input_ref p | none ↦ str path ]
      ]
    ]

    unfoldable pub resolve_val : Value F → Value F
    unfolding resolve_ref
    resolve_val (str s) = resolve_ref s
    resolve_val v = v
