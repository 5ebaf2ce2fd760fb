-- ===== src/Prelude/Decimal.antt =====
-- strconv.Itoa on an index, and strconv.Atoi.
pub mod Laws
use Prim.Native.Char.{Char, code}
use Prim.Native.String.{String}
use mathlib.Core.Option
use pocket_flow_go.Prelude.{
  ltb→lt, ℕ, zero, suc, ◌+◌, ◌-◌, ◌*◌, ◌/◌, ◌%◌, ◌<◌, ◌≡◌, refl, ◌∙◌, ap, false, Option, none, some,
  arith, ltb, leb, nat_eq, if◌then◌else◌, ◌||◌, Bool-cases, inl, inr,
}
use pocket_flow_go.Prelude.Int.{ℤ, pos, negsuc}

pub digit : ℕ → Char
digit zero = "0"
digit (suc zero) = "1"
digit (suc (suc zero)) = "2"
digit (suc (suc (suc zero))) = "3"
digit (suc (suc (suc (suc zero)))) = "4"
digit (suc (suc (suc (suc (suc zero))))) = "5"
digit (suc (suc (suc (suc (suc (suc zero)))))) = "6"
digit (suc (suc (suc (suc (suc (suc (suc zero))))))) = "7"
digit (suc (suc (suc (suc (suc (suc (suc (suc zero)))))))) = "8"
digit _ = "9"

-- Each round takes the last digit off; `fuel` rounds write every number below `fuel`.
pub emit : ℕ → ℕ → String → String
unfolding digit
emit zero n out = out
emit (suc fuel) n out =
    let rest = emit fuel (n / 10) (String.◌∷◌ (digit (n % 10)) out) in
    if ltb n 10 then String.◌∷◌ (digit n) out else rest

unfoldable pub itoa : ℕ → String
unfolding emit
itoa n = emit (n + 1) n String.[]

-- The digits of a text, added to what stands before them.
unfoldable pub parse_digits : String → ℕ → Option ℕ
parse_digits String.[] n = some n
parse_digits (String.◌∷◌ c s) n =
    let rest = parse_digits s (n * 10 + (code c - b'0')) in
    if ltb (code c) b'0' || ltb b'9' (code c) then none else rest

abbrev pub max_int64 : ℕ
max_int64 = 9223372036854775807

abbrev pub in_range : ℕ → ℕ → Option ℕ
in_range limit n = if leb n limit then some n else none

negated : ℕ → ℤ
negated zero = pos 0
negated (suc n) = negsuc n

-- The digits behind a sign; there must be one.
pub unsigned : String → ℕ → Option ℕ
unfolding parse_digits
unsigned String.[] limit = none
unsigned (String.◌∷◌ c s) limit = Option.bind (parse_digits (String.◌∷◌ c s) 0) (in_range limit)

unfoldable pub atoi : String → Option ℤ
unfolding unsigned negated Option.bind
atoi String.[] = none
atoi (String.◌∷◌ c s) =
    if nat_eq (code c) b'-'
    then Option.map negated (unsigned s (max_int64 + 1))
    else if nat_eq (code c) b'+'
    then Option.map pos (unsigned s max_int64)
    else Option.map pos (unsigned (String.◌∷◌ c s) max_int64)

atoi_tests :
    (atoi "42" ≡ some (pos 42))
    × (atoi "-7" ≡ some (negsuc 6))
    × (atoi "4x" ≡ none)
    × (itoa 1203 ≡ "1203")
unfolding atoi itoa
atoi_tests = (refl, refl, refl, refl)

pub digit_code : (d : ℕ) → d < 10 → code (digit d) ≡ b'0' + d
unfolding digit
digit_code zero h = refl
digit_code (suc zero) h = refl
digit_code (suc (suc zero)) h = refl
digit_code (suc (suc (suc zero))) h = refl
digit_code (suc (suc (suc (suc zero)))) h = refl
digit_code (suc (suc (suc (suc (suc zero))))) h = refl
digit_code (suc (suc (suc (suc (suc (suc zero)))))) h = refl
digit_code (suc (suc (suc (suc (suc (suc (suc zero))))))) h = refl
digit_code (suc (suc (suc (suc (suc (suc (suc (suc zero)))))))) h = refl
digit_code (suc (suc (suc (suc (suc (suc (suc (suc (suc zero))))))))) h = refl
digit_code (suc (suc (suc (suc (suc (suc (suc (suc (suc (suc n)))))))))) h = absurd (omega arith)

parse_digits-digit :
    (d acc : ℕ) (s : String)
    → d < 10
    → parse_digits (String.◌∷◌ (digit d) s) acc ≡ parse_digits s (acc * 10 + d)
unfolding parse_digits
parse_digits-digit d acc s h = rw (digit_code d h, outside, shifted)
  where
    outside : (ltb (b'0' + d) b'0' || ltb b'9' (b'0' + d)) ≡ false
    outside = ground arith

    shifted : b'0' + d - b'0' ≡ d
    shifted = omega arith

parse_digits-emit :
    (fuel n : ℕ) (out : String) → n < fuel → parse_digits (emit fuel n out) 0 ≡ parse_digits out n
unfolding emit
parse_digits-emit zero n out h = elim h [ ]
parse_digits-emit (suc fuel) n out h = elim (Bool-cases (ltb n 10)) [
  | inl last ↦
      rw last (parse_digits-digit n 0 out (ltb→lt n 10 last) ∙ ap (parse_digits out) (omega arith))
  | inr more ↦ rw more (
      parse_digits-emit fuel (n / 10) (String.◌∷◌ (digit (n % 10)) out) (ground arith)
      ∙ parse_digits-digit (n % 10) (n / 10) out (omega arith)
      ∙ ap (parse_digits out) (omega arith))
]

pub parse_digits-itoa : (n : ℕ) → parse_digits (itoa n) 0 ≡ some n
unfolding itoa parse_digits
parse_digits-itoa n = parse_digits-emit (n + 1) n String.[] (omega arith)
