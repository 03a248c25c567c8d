-- ===== src/Expand/Arith/Total.antt =====
-- The arithmetic evaluator ends: each reader consumes text, so the fuels suffice.
use petrush.Base.{
  ℕ, zero, suc, ◌-◌, ◌<◌, ◌≡◌, Bool, true, false, ◌&&◌, ◌||◌, not, [], ◌∷◌, Option, arith, ◌==◌,
  length,
}
use petrush.Base.Int.{ℤ}
use petrush.Text.{Bytes, is_digit}
use petrush.Expand.Positional.{Positional}
use petrush.Expand.Arith.{
  Outcome, is_name_char, skip_ws, variable, dollar, atom, closing, primary_on, primary_at, primary,
  unary_on, unary_at, unary, operand, multiplicative, additive, is_multiplicative, is_additive,
  term, expr, finish, eval_at, eval_arith,
}
use petrush.Expand.Arith.Within.{
  Ends, Reads, Within, Within-Ends, Within-failed, Within-le, Within-value, additive-Applies,
  after_run-lt, and-left, and_then-Within, if-Within, length-skip_ws, level-Reads,
  multiplicative-Applies,
}

module _ (getenv : Bytes → Option Bytes) (positional : Positional) where
  variable-Within :
      (c : ℕ) (cs : Bytes)
      → is_name_char c ≡ true
      → Within (length cs) (variable getenv positional (c ∷ cs))
  unfolding variable
  variable-Within c cs h = Within-value (after_run-lt is_name_char c cs h)

  dollar-Within : (p : Bytes) → Within (length p) (dollar getenv positional p)
  unfolding dollar
  dollar-Within [] = Within-failed
  dollar-Within (d ∷ ds) =
      if-Within {b = is_digit d} (λ digit. Within-value (omega arith))
        (λ other.
          if-Within {b = is_name_char d && not (is_digit d)}
            (λ name.
              Within-le (omega arith)
                (variable-Within d ds (and-left (is_name_char d) (not (is_digit d)) name)))
            (λ bad. Within-failed))

  atom-Within : (c : ℕ) (cs : Bytes) → Within (length cs) (atom getenv positional c cs)
  unfolding atom
  atom-Within c cs =
      if-Within {b = c == b'$'} (λ sign. dollar-Within cs)
        (λ other.
          if-Within {b = is_name_char c && not (is_digit c)}
            (λ name. variable-Within c cs (and-left (is_name_char c) (not (is_digit c)) name))
            (λ other'.
              if-Within {b = is_digit c} (λ digit. Within-value (after_run-lt is_digit c cs digit))
                (λ bad. Within-failed)))

  closing-Within : (v : ℤ) (p : Bytes) → Within (length p) (closing getenv positional v p)
  closing-Within v [] = Within-failed
  closing-Within v (c ∷ cs) =
      if-Within {b = c == b')'} (λ h. Within-value (omega arith)) (λ h. Within-failed)

  primary_on-Within :
      (b : Bool) (expr : Bytes → Outcome) (n c : ℕ) (cs : Bytes)
      → Reads n expr
      → length cs < n
      → Within (length cs) (primary_on getenv positional b expr c cs)
  primary_on-Within false expr n c cs reads lt = atom-Within c cs
  primary_on-Within true expr n c cs reads lt = and_then-Within (reads cs lt) (λ v rest le.
      Within-le (omega (arith, length-skip_ws rest)) (closing-Within v (skip_ws rest)))

  primary_at-Within :
      (expr : Bytes → Outcome) (n : ℕ) (p : Bytes)
      → Reads n expr
      → length p < suc n
      → Within (length p - 1) (primary_at getenv positional expr p)
  primary_at-Within expr n [] reads lt = Within-failed
  primary_at-Within expr n (c ∷ cs) reads lt =
      Within-le (omega arith) (primary_on-Within (c == b'(') expr n c cs reads (omega arith))

  primary-Within :
      (expr : Bytes → Outcome) (n : ℕ) (p : Bytes)
      → Reads n expr
      → length p < suc n
      → Within (length p - 1) (primary getenv positional expr p)
  primary-Within expr n p reads lt =
      Within-le (omega (arith, length-skip_ws p))
        (primary_at-Within expr n (skip_ws p) reads (omega (arith, length-skip_ws p)))

  unary_on-Within :
      (b : Bool) (expr more : Bytes → Outcome) (n c : ℕ) (cs : Bytes)
      → Reads n expr
      → length cs < n
      → Within (length cs - 1) (more cs)
      → Within (length cs) (unary_on getenv positional b expr more c cs)
  unary_on-Within true expr more n c cs reads lt within =
      and_then-Within within (λ v rest le. Within-value (omega arith))
  unary_on-Within false expr more n c cs reads lt within =
      Within-le (omega arith) (primary-Within expr n (c ∷ cs) reads (omega arith))

  unary_at-Within :
      (expr more : Bytes → Outcome) (n : ℕ) (p : Bytes)
      → Reads n expr
      → Reads (length p) more
      → length p < suc n
      → Within (length p - 1) (unary_at getenv positional expr more p)
  unary_at-Within expr more n [] reads reads_more lt = primary-Within expr n [] reads lt
  unary_at-Within expr more n (c ∷ cs) reads reads_more lt = Within-le (omega arith) (
      unary_on-Within (c == b'+' || c == b'-') expr more n c cs reads (omega arith)
        (reads_more cs (omega arith)))

  unary-Within :
      (expr : Bytes → Outcome) (n f : ℕ) (p : Bytes)
      → Reads n expr
      → length p < suc n
      → length p < f
      → Within (length p - 1) (unary getenv positional expr f p)
  unfolding unary
  unary-Within expr n zero p reads lt le = absurd (omega arith)
  unary-Within expr n (suc f) p reads lt le =
      let shorter = length-skip_ws p in
      Within-le (omega (arith, shorter)) (
        unary_at-Within expr (unary getenv positional expr f) n (skip_ws p) reads
          (λ q lt'. unary-Within expr n f q reads (omega (arith, shorter)) (omega (arith, shorter)))
          (omega (arith, shorter)))

  operand-Reads :
      (expr : Bytes → Outcome) (n : ℕ)
      → Reads n expr
      → Reads (suc n) (operand getenv positional expr)
  operand-Reads expr n reads p lt = unary-Within expr n (suc (length p)) p reads lt (omega arith)

  term-Reads :
      (expr : Bytes → Outcome) (n : ℕ) → Reads n expr → Reads (suc n) (term getenv positional expr)
  unfolding term
  term-Reads expr n reads =
      level-Reads is_multiplicative (operand getenv positional expr) multiplicative (suc n)
        (operand-Reads expr n reads) multiplicative-Applies

  expr-Reads : (f : ℕ) → Reads f (expr getenv positional f)
  unfolding expr
  expr-Reads zero p lt = absurd (omega arith)
  expr-Reads (suc f) p lt =
      level-Reads is_additive (term getenv positional (expr getenv positional f)) additive (suc f)
        (term-Reads (expr getenv positional f) f (expr-Reads f)) additive-Applies p lt

  finish-Within : (v : ℤ) (p : Bytes) → Within 0 (finish getenv positional v p)
  finish-Within v [] = Within-value (omega arith)
  finish-Within v (c ∷ cs) = Within-failed

  eval_at-Within : (p : Bytes) → Within 0 (eval_at getenv positional p)
  eval_at-Within [] = Within-value (omega arith)
  eval_at-Within (c ∷ cs) =
      and_then-Within {n = length cs}
        (Within-le (omega arith) (expr-Reads (suc (length (c ∷ cs))) (c ∷ cs) (omega arith)))
        (λ v rest le. finish-Within v (skip_ws rest))

  -- The evaluator ends on every text: the fuels suffice. A value that it returns is that of the whole
  -- text, with nothing left.
  pub eval_arith-Ends : (inner : Bytes) → Ends (eval_arith getenv positional inner)
  unfolding eval_arith
  eval_arith-Ends inner = Within-Ends _ (eval_at-Within (skip_ws inner))
