-- ===== src/Path/Segments.antt =====
-- A segment with an index is read back: the name, and the number between the brackets.
use Prim.Native.Char.{Char, code}
use text.Mathlib.TextLemmas.{nil-append, cons-append}
use pocket_flow_go.Prelude.{ℕ, ◌≤◌, ◌≡◌, refl, String, ◌<>◌, none, some, arith}
use pocket_flow_go.Prelude.Int.{pos}
use pocket_flow_go.Prelude.Text.{cut}
use pocket_flow_go.Prelude.Decimal.{itoa, max_int64}
use pocket_flow_go.Prelude.Decimal.Laws.{cut-itoa, atoi-itoa}
use pocket_flow_go.Path.{parse_segment}

cut-append :
    (c : Char) (s t : String)
    → cut (code c) s ≡ none
    → cut (code c) (s <> String.◌∷◌ c t) ≡ some (s, t)
unfolding cut
cut-append c String.[] t h = rw nil-append (ground arith)
cut-append c (String.◌∷◌ d s) t h = rw cons-append (ground (arith, cut-append c s t))

-- "name[n]"
abbrev pub with_index : String → ℕ → String
with_index name n = name <> String.◌∷◌ "[" (itoa n <> String.◌∷◌ "]" String.[])

-- parseSegment reads back a segment that is printed as name[n], for a name without brackets and
-- an index that fits 64 bits.
pub parse_segment-with_index :
    (name : String) (n : ℕ)
    → cut b'[' name ≡ none
    → cut b']' name ≡ none
    → n ≤ max_int64
    → parse_segment (with_index name n) ≡ (name, some (pos n))
unfolding parse_segment
parse_segment-with_index name n no_open no_close fits =
    rw (parse_segment, opened, no_close, closed, atoi-itoa n fits) refl
  where
    opened : cut b'[' (with_index name n) ≡ some (name, itoa n <> String.◌∷◌ "]" String.[])
    opened = cut-append "[" name _ no_open

    closed : cut b']' (itoa n <> String.◌∷◌ "]" String.[]) ≡ some (itoa n, String.[])
    closed = cut-append "]" (itoa n) _ (cut-itoa n)
