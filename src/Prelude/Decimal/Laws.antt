-- ===== src/Prelude/Decimal/Laws.antt =====
-- The decimal text of an index: read back by `atoi`, different for different indices.
use mathlib.Core.Option
use mathlib.Core.Option.{some-injective}
use pocket_flow_go.Prelude.{
  sym, ◌∙◌, ℕ, zero, suc, ◌+◌, ◌/◌, ◌%◌, ◌≤◌, ◌<◌, ◌≡◌, refl, ap, String, none, some, arith, ltb,
  ltb→lt, le→leb, Bool-cases, inl, inr,
}
use pocket_flow_go.Prelude.Text.{cut}
use pocket_flow_go.Prelude.Int.{pos}
use pocket_flow_go.Prelude.Decimal.{
  digit, digit_code, emit, itoa, atoi, unsigned, max_int64, parse_digits, parse_digits-itoa,
  in_range,
}
use Prim.Native.Char.{Char}

pub itoa-injective : (m n : ℕ) → itoa m ≡ itoa n → m ≡ n
itoa-injective m n e = cc (parse_digits-itoa m, parse_digits-itoa n, ap (λ s. parse_digits s 0) e)

cut-digit :
    (d : ℕ) (s : String) → d < 10 → cut b']' s ≡ none → cut b']' (String.◌∷◌ (digit d) s) ≡ none
unfolding cut
cut-digit d s h e = rw (digit_code d h, e) (ground arith)

cut-emit : (fuel n : ℕ) (out : String) → cut b']' out ≡ none → cut b']' (emit fuel n out) ≡ none
unfolding emit
cut-emit zero n out h = h
cut-emit (suc fuel) n out h = elim (Bool-cases (ltb n 10)) [
  | inl last ↦ rw last (cut-digit n out (ltb→lt n 10 last) h)
  | inr more ↦ rw more (cut-emit fuel (n / 10) _ (cut-digit (n % 10) out (omega arith) h))
]

pub cut-itoa : (n : ℕ) → cut b']' (itoa n) ≡ none
unfolding itoa cut
cut-itoa n = cut-emit (n + 1) n String.[] refl

emit-digit :
    (fuel n : ℕ) (out : String)
    → n < fuel
    → (d : ℕ) × (s : String) × (d < 10) × (emit fuel n out ≡ String.◌∷◌ (digit d) s)
unfolding emit
emit-digit zero n out h = elim h [ ]
emit-digit (suc fuel) n out h = elim (Bool-cases (ltb n 10)) [
  | inl last ↦ (n, out, ltb→lt n 10 last, rw last)
  | inr more ↦ rw more (emit-digit fuel (n / 10) _ (ground arith))
]

atoi-digit :
    (d : ℕ) (s : String)
    → d < 10
    → atoi (String.◌∷◌ (digit d) s) ≡ Option.map pos (unsigned (String.◌∷◌ (digit d) s) max_int64)
unfolding atoi
atoi-digit d s h = rw (digit_code d h) (ground arith)

itoa-digit : (n : ℕ) → (d : ℕ) × (s : String) × (d < 10) × (itoa n ≡ String.◌∷◌ (digit d) s)
unfolding itoa
itoa-digit n = emit-digit (n + 1) n String.[] (omega arith)

unsigned-cons :
    (c : Char) (s : String) (limit : ℕ)
    → unsigned (String.◌∷◌ c s) limit
      ≡ Option.bind (parse_digits (String.◌∷◌ c s) 0) (in_range limit)
unfolding unsigned
unsigned-cons c s limit = refl

bind-in_range : (n limit : ℕ) → n ≤ limit → Option.bind (some n) (in_range limit) ≡ some n
unfolding Option.bind
bind-in_range n limit h = rw (le→leb n limit h)

unsigned-itoa :
    (n d : ℕ) (s : String)
    → n ≤ max_int64
    → itoa n ≡ String.◌∷◌ (digit d) s
    → unsigned (String.◌∷◌ (digit d) s) max_int64 ≡ some n
unsigned-itoa n d s h e =
    unsigned-cons (digit d) s max_int64
    ∙ ap (λ t. Option.bind (parse_digits t 0) (in_range max_int64)) (sym e)
    ∙ ap (λ o. Option.bind o (in_range max_int64)) (parse_digits-itoa n)
    ∙ bind-in_range n max_int64 h

pub atoi-itoa : (n : ℕ) → n ≤ max_int64 → atoi (itoa n) ≡ some (pos n)
atoi-itoa n h =
    let (d, s, lt, e) = itoa-digit n in
    rw e (atoi-digit d s lt ∙ ap (Option.map pos) (unsigned-itoa n d s h e))
