-- ===== src/Examples/Expand.antt =====
-- Tests and witnesses on the options, the positional parameters and the arithmetic evaluator.
use petrush.Base.{arith, ◌≡◌, refl, true, false, Option, some, [], ◌∷◌}
use petrush.Base.Int.{pos, negsuc}
use petrush.Text.{Bytes, codes, decimal}
use petrush.Expand.Options.{Options}
use petrush.Expand.Positional.{Positional}
use petrush.Expand.Arith.{
  Outcome, value, failed, undefined, eval_arith, skip_ws, run, after_run, variable, dollar, atom,
  unary, loop, term, expr,
}
use petrush.Expand.Arith.Int64.{parse_digits, parse_i64, value_from_text}
use petrush.Expand.Arith.Within.{Ends}
use petrush.Expand.Arith.Total.{eval_arith-Ends}
use petrush.Expand.Arith.Literal.{parse_i64-decimal}

abbrev plain : Options
plain = record {
  opt_e = false;
  opt_u = true;
  opt_x = false;
  last_status = pos 0;
  arith_error = false;
  nounset_error = false;
}

abbrev three : Positional
three = record { arg0 = some (codes "petrush"); args = codes "a" ∷ codes "bc" ∷ codes "d" ∷ [] }

abbrev environment : Bytes → Option Bytes
environment name = some (codes "7")

unfoldable evaluate : Bytes → Outcome
unfolding eval_arith skip_ws run after_run variable dollar atom unary loop term expr value_from_text
    parse_i64 parse_digits
evaluate text = eval_arith environment three text

evaluate_mixed : evaluate (codes " 1 + 2*(3 - -4) % 5 + x") ≡ value (pos 12) []
unfolding evaluate eval_arith skip_ws run after_run variable dollar atom unary loop term expr
    value_from_text parse_i64 parse_digits
evaluate_mixed = refl

evaluate_zero : evaluate (codes "1 / (2 - 2)") ≡ failed 1
unfolding evaluate eval_arith skip_ws run after_run variable dollar atom unary loop term expr
    value_from_text parse_i64 parse_digits
evaluate_zero = refl

evaluate_overflow : evaluate (codes "(-9223372036854775807 - 1) / -1") ≡ undefined
unfolding evaluate eval_arith skip_ws run after_run variable dollar atom unary loop term expr
    value_from_text parse_i64 parse_digits
evaluate_overflow = refl

eval_arith-Ends_example : Ends (eval_arith environment three (codes "((1))"))
eval_arith-Ends_example = eval_arith-Ends environment three (codes "((1))")

parse_i64-decimal_example :
    (parse_i64 (decimal 1204) ≡ some (pos 1204))
    × (parse_i64 (b'+' ∷ decimal 1204) ≡ some (pos 1204))
    × (parse_i64 (b'-' ∷ decimal 1205) ≡ some (negsuc 1204))
parse_i64-decimal_example = parse_i64-decimal 1204 (omega arith)
