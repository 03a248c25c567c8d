-- ===== src/Expand/Arith/Int64.antt =====
-- The int64_t values of an arithmetic expansion (src/mid/expand.c): the operators on mathematical
-- integers, whether a result fits, and the decimal reader.
use petrush.Base.{
  ℕ, zero, suc, ◌+◌, ◌-◌, ◌*◌, ◌/◌, ◌%◌, Bool, true, false, ◌||◌, Option, none, some, [], ◌∷◌, not,
  leb, ltb, ◌==◌, if◌then◌else◌,
}
use petrush.Base.Int.{ℤ, pos, negsuc, is_negative, eq_ℤ}
use petrush.Text.{Bytes, is_digit}

-- INT64_MAX; INT64_MIN is `negsuc int64_max`.
abbrev pub int64_max : ℕ
int64_max = 9223372036854775807

abbrev pub fits : ℤ → Bool
fits (pos n) = leb n int64_max
fits (negsuc n) = leb n int64_max

abbrev pub neg : ℤ → ℤ
neg (pos zero) = pos 0
neg (pos (suc n)) = negsuc n
neg (negsuc n) = pos (suc n)

-- The unary minus, which leaves INT64_MIN.
abbrev pub negate64 : ℤ → ℤ
negate64 v = if eq_ℤ v (negsuc int64_max) then negsuc int64_max else neg v

abbrev pub sub_ℕ : ℕ → ℕ → ℤ
sub_ℕ a b = if leb b a then pos (a - b) else negsuc (b - a - 1)

abbrev pub add_ℤ : ℤ → ℤ → ℤ
add_ℤ (pos a) (pos b) = pos (a + b)
add_ℤ (pos a) (negsuc b) = sub_ℕ a (suc b)
add_ℤ (negsuc a) (pos b) = sub_ℕ b (suc a)
add_ℤ (negsuc a) (negsuc b) = negsuc (suc (a + b))

abbrev pub sub_ℤ : ℤ → ℤ → ℤ
sub_ℤ a b = add_ℤ a (neg b)

abbrev pub magnitude : ℤ → ℕ
magnitude (pos n) = n
magnitude (negsuc n) = suc n

abbrev pub signed : Bool → ℕ → ℤ
signed false n = pos n
signed true n = neg (pos n)

abbrev pub differ : Bool → Bool → Bool
differ false b = b
differ true b = not b

abbrev pub mul_ℤ : ℤ → ℤ → ℤ
mul_ℤ a b = signed (differ (is_negative a) (is_negative b)) (magnitude a * magnitude b)

-- The quotient rounded to zero, and the remainder with the sign of the dividend.
abbrev pub quot_ℤ : ℤ → ℤ → ℤ
quot_ℤ a b = signed (differ (is_negative a) (is_negative b)) (magnitude a / magnitude b)

abbrev pub rem_ℤ : ℤ → ℤ → ℤ
rem_ℤ a b = signed (is_negative a) (magnitude a % magnitude b)

-- The digits from the accumulator on; `none` is -1.
unfoldable pub parse_digits : ℕ → ℕ → Bytes → Option ℕ
parse_digits lim acc [] = some acc
parse_digits lim acc (c ∷ cs) =
    let rest = parse_digits lim (acc * 10 + (c - 48)) cs in
    if not (is_digit c) then none else if ltb ((lim - (c - 48)) / 10) acc then none else rest

-- At least one digit is needed.
abbrev pub parse_magnitude : ℕ → Bytes → Option ℕ
parse_magnitude lim [] = none
parse_magnitude lim (c ∷ cs) = parse_digits lim 0 (c ∷ cs)

abbrev pub with_sign : Bool → Option ℕ → Option ℤ
with_sign neg? none = none
with_sign neg? (some n) = some (signed neg? n)

unfoldable pub parse_i64 : Bytes → Option ℤ
parse_i64 [] = none
parse_i64 (c ∷ cs) =
    if c == b'+' || c == b'-'
    then with_sign (c == b'-') (parse_magnitude (int64_max + (if c == b'-' then 1 else 0)) cs)
    else with_sign false (parse_magnitude int64_max (c ∷ cs))

abbrev pub or_zero : Option ℤ → ℤ
or_zero none = pos 0
or_zero (some v) = v

-- What the text of a variable or a literal stands for; NULL and text that is no number are 0.
unfoldable pub value_from_text : Option Bytes → ℤ
unfolding parse_i64
value_from_text none = pos 0
value_from_text (some s) = or_zero (parse_i64 s)
