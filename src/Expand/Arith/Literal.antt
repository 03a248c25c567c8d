-- ===== src/Expand/Arith/Literal.antt =====
-- The decimal reader of the arithmetic expansion, against the decimal printer.
use petrush.Base.{
  ℕ, zero, suc, ◌+◌, ◌-◌, ◌*◌, ◌/◌, ◌%◌, ◌≤◌, ◌<◌, ◌≡◌, refl, sym, ap, ◌∙◌, subst, true, false,
  ◌||◌, some, [], ◌∷◌, inl, inr, Bool-cases, arith, ltb, ◌==◌,
}
use petrush.Base.Int.{pos, negsuc}
use petrush.Text.{Bytes, is_digit, decimal, decimal_onto, decimal-head}
use petrush.Expand.Arith.Int64.{int64_max, with_sign, parse_digits, parse_magnitude, parse_i64}

-- Reading one digit in front of `rest`, within the limit.
parse_digits-digit :
    (lim acc d : ℕ) (rest : Bytes)
    → d < 10
    → acc * 10 + d ≤ lim
    → parse_digits lim acc ((48 + d) ∷ rest) ≡ parse_digits lim (acc * 10 + d) rest
unfolding parse_digits
parse_digits-digit lim acc d rest digit within =
    let e : 48 + d - 48 ≡ d = omega arith in
    let is : is_digit (48 + d) ≡ true = ground arith in
    let small : ltb ((lim - d) / 10) acc ≡ false = ground arith in rw is (rw e (rw small refl))

-- The digits of n, read from 0 on, leave n as the accumulator.
parse_digits-decimal_onto :
    (f lim n : ℕ) (rest : Bytes)
    → n < f
    → n ≤ lim
    → parse_digits lim 0 (decimal_onto f n rest) ≡ parse_digits lim n rest
unfolding decimal_onto
parse_digits-decimal_onto zero lim n rest fuel within = absurd (omega arith)
parse_digits-decimal_onto (suc f) lim n rest fuel within = elim (Bool-cases (ltb n 10)) [
  | inl one ↦
      let e : 0 * 10 + n ≡ n = omega arith in
      rw one (
        parse_digits-digit lim 0 n rest (ground arith) (omega arith)
        ∙ ap (λ k. parse_digits lim k rest) e)
  | inr more ↦
      let e : (n / 10) * 10 + n % 10 ≡ n = omega arith in
      rw more (
        parse_digits-decimal_onto f lim (n / 10) ((48 + n % 10) ∷ rest) (ground arith) (omega arith)
        ∙ parse_digits-digit lim (n / 10) (n % 10) rest (omega arith) (omega arith)
        ∙ ap (λ k. parse_digits lim k rest) e)
]

parse_digits-decimal : (lim n : ℕ) → n ≤ lim → parse_digits lim 0 (decimal n) ≡ some n
unfolding decimal parse_digits
parse_digits-decimal lim n h = parse_digits-decimal_onto (suc n) lim n [] (omega arith) h

parse_magnitude-decimal : (lim n : ℕ) → n ≤ lim → parse_magnitude lim (decimal n) ≡ some n
parse_magnitude-decimal lim n h =
    let (d, ds, e, digit) = decimal-head n in
    subst (λ t. parse_magnitude lim t ≡ some n) (sym e)
      (subst (λ t. parse_digits lim 0 t ≡ some n) e (parse_digits-decimal lim n h))

-- The printed form of every value of int64_t is read back as the value: a number up to INT64_MAX
-- with or without a plus sign, and the negative numbers down to INT64_MIN, whose magnitude is
-- INT64_MAX + 1.
pub parse_i64-decimal :
    (n : ℕ)
    → n ≤ int64_max
    → (parse_i64 (decimal n) ≡ some (pos n))
      × (parse_i64 (b'+' ∷ decimal n) ≡ some (pos n))
      × (parse_i64 (b'-' ∷ decimal (suc n)) ≡ some (negsuc n))
unfolding parse_i64
parse_i64-decimal n h =
    let (d, ds, e, digit) = decimal-head n in
    let plain : (d == b'+' || d == b'-') ≡ false = ground arith in
    let read : parse_magnitude int64_max (d ∷ ds) ≡ some n =
      subst (λ t. parse_magnitude int64_max t ≡ some n) e (parse_magnitude-decimal int64_max n h) in
    (
      subst (λ t. parse_i64 t ≡ some (pos n)) (sym e) (rw plain (ap (with_sign false) read)),
      ap (with_sign false) (parse_magnitude-decimal int64_max n h),
      ap (with_sign true) (parse_magnitude-decimal (int64_max + 1) (suc n) (omega arith)),
    )
