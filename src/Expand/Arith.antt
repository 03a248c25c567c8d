-- ===== src/Expand/Arith.antt =====
-- Arithmetic expansion `$((...))` (src/mid/expand.c). The text from `p` to `end` is a list.
pub mod Int64
pub mod Within
pub mod Total
pub mod Literal
use petrush.Base.{
  ℕ, zero, suc, ◌-◌, ◌≡◌, refl, Bool, true, false, ◌&&◌, ◌||◌, Option, none, some, List, [], ◌∷◌,
  not, arith, leb, ltb, ◌==◌, if◌then◌else◌, length, take,
}
use petrush.Base.Int.{ℤ, pos, negsuc, eq_ℤ}
use petrush.Text.{Bytes, is_digit, is_alnum}
use petrush.Expand.Positional.{Positional, positional_get}
use Int64.{fits, negate64, add_ℤ, sub_ℤ, mul_ℤ, quot_ℤ, rem_ℤ, value_from_text}

-- A result and the text behind it; the error of the context (1 a division by zero, 2 the syntax);
-- a signed overflow, which C leaves undefined; or too little fuel.
pub data Outcome : Type 0 where
  value : ℤ → Bytes → Outcome
  failed : ℕ → Outcome
  undefined : Outcome
  out_of_fuel : Outcome

abbrev pub and_then : Outcome → (ℤ → Bytes → Outcome) → Outcome
and_then (value v rest) k = k v rest
and_then (failed e) k = failed e
and_then undefined k = undefined
and_then out_of_fuel k = out_of_fuel

abbrev pub checked : ℤ → Bytes → Outcome
checked v rest = if fits v then value v rest else undefined

abbrev pub is_blank : ℕ → Bool
is_blank c = c == 32 || c == 9 || c == 10 || c == 13

unfoldable pub skip_ws : Bytes → Bytes
skip_ws [] = []
skip_ws (c ∷ cs) = if is_blank c then skip_ws cs else c ∷ cs

abbrev pub is_name_char : ℕ → Bool
is_name_char c = is_alnum c || c == b'_'

-- The longest run of bytes that satisfy the test, and the text behind it.
unfoldable pub run : (ℕ → Bool) → Bytes → Bytes
run test [] = []
run test (c ∷ cs) = if test c then c ∷ run test cs else []

unfoldable pub after_run : (ℕ → Bool) → Bytes → Bytes
after_run test [] = []
after_run test (c ∷ cs) = if test c then after_run test cs else c ∷ cs

abbrev pub multiplicative : ℕ → ℤ → ℤ → Bytes → Outcome
multiplicative op left right rest =
    if op == b'*'
    then checked (mul_ℤ left right) rest
    else if eq_ℤ right (pos 0)
    then failed 1
    else if not (fits (quot_ℤ left right))
    then undefined
    else if op == b'/'
    then value (quot_ℤ left right) rest
    else value (rem_ℤ left right) rest

abbrev pub additive : ℕ → ℤ → ℤ → Bytes → Outcome
additive op left right rest =
    checked (if op == b'+' then add_ℤ left right else sub_ℤ left right) rest

abbrev pub is_multiplicative : ℕ → Bool
is_multiplicative op = op == b'*' || op == b'/' || op == b'%'

abbrev pub is_additive : ℕ → Bool
is_additive op = op == b'+' || op == b'-'

-- The loop that both binary levels have: the flag tells that the byte is an operator of the level.
abbrev pub loop_on :
    Bool
    → (Bytes → Outcome)
    → (ℕ → ℤ → ℤ → Bytes → Outcome)
    → (ℤ → Bytes → Outcome)
    → ℤ
    → ℕ
    → Bytes
    → Outcome
loop_on false read apply more left c cs = value left (c ∷ cs)
loop_on true read apply more left c cs =
    and_then (read cs) (λ right rest. and_then (apply c left right rest) more)

abbrev pub loop_at :
    (ℕ → Bool)
    → (Bytes → Outcome)
    → (ℕ → ℤ → ℤ → Bytes → Outcome)
    → (ℤ → Bytes → Outcome)
    → ℤ
    → Bytes
    → Outcome
loop_at is_op read apply more left [] = value left []
loop_at is_op read apply more left (c ∷ cs) = loop_on (is_op c) read apply more left c cs

-- The fuel bounds the operators in a row.
unfoldable pub loop :
    (ℕ → Bool) → (Bytes → Outcome) → (ℕ → ℤ → ℤ → Bytes → Outcome) → ℕ → ℤ → Bytes → Outcome
loop is_op read apply zero left p = out_of_fuel
loop is_op read apply (suc f) left p =
    loop_at is_op read apply (loop is_op read apply f) left (skip_ws p)

abbrev pub level : (ℕ → Bool) → (Bytes → Outcome) → (ℕ → ℤ → ℤ → Bytes → Outcome) → Bytes → Outcome
level is_op read apply p =
    and_then (read p) (λ left rest. loop is_op read apply (suc (length rest)) left rest)

-- The environment and the positional parameters that the expansion reads.
module _ (getenv : Bytes → Option Bytes) (positional : Positional) where
  -- A name is cut to the 255 bytes that its buffer holds.
  unfoldable pub variable : Bytes → Outcome
  unfolding run after_run
  variable p =
      value (value_from_text (getenv (take 255 (run is_name_char p)))) (after_run is_name_char p)

  unfoldable pub dollar : Bytes → Outcome
  unfolding variable
  dollar [] = failed 2
  dollar (d ∷ ds) =
      if is_digit d
      then value (value_from_text (positional_get (d - 48) positional)) ds
      else if is_name_char d && not (is_digit d)
      then variable (d ∷ ds)
      else failed 2

  unfoldable pub atom : ℕ → Bytes → Outcome
  unfolding variable dollar run after_run
  atom c cs =
      if c == b'$'
      then dollar cs
      else if is_name_char c && not (is_digit c)
      then variable (c ∷ cs)
      else if is_digit c
      then value (value_from_text (some (run is_digit (c ∷ cs)))) (after_run is_digit (c ∷ cs))
      else failed 2

  abbrev pub closing : ℤ → Bytes → Outcome
  closing v [] = failed 2
  closing v (c ∷ cs) = if c == b')' then value v cs else failed 2

  -- The flag tells that the byte is an open parenthesis; `expr` reads what it holds.
  abbrev pub primary_on : Bool → (Bytes → Outcome) → ℕ → Bytes → Outcome
  primary_on true expr c cs = and_then (expr cs) (λ v rest. closing v (skip_ws rest))
  primary_on false expr c cs = atom c cs

  abbrev pub primary_at : (Bytes → Outcome) → Bytes → Outcome
  primary_at expr [] = failed 2
  primary_at expr (c ∷ cs) = primary_on (c == b'(') expr c cs

  abbrev pub apply_sign : ℕ → ℤ → Bytes → Outcome
  apply_sign op v rest = value (if op == b'-' then negate64 v else v) rest

  abbrev pub primary : (Bytes → Outcome) → Bytes → Outcome
  primary expr p = primary_at expr (skip_ws p)

  -- The flag tells that the byte is a sign; `more` reads what it stands before.
  abbrev pub unary_on : Bool → (Bytes → Outcome) → (Bytes → Outcome) → ℕ → Bytes → Outcome
  unary_on true expr more c cs = and_then (more cs) (apply_sign c)
  unary_on false expr more c cs = primary expr (c ∷ cs)

  abbrev pub unary_at : (Bytes → Outcome) → (Bytes → Outcome) → Bytes → Outcome
  unary_at expr more [] = primary expr []
  unary_at expr more (c ∷ cs) = unary_on (c == b'+' || c == b'-') expr more c cs

  -- The fuel bounds the signs in a row.
  unfoldable pub unary : (Bytes → Outcome) → ℕ → Bytes → Outcome
  unary expr zero p = out_of_fuel
  unary expr (suc f) p = unary_at expr (unary expr f) (skip_ws p)

  -- With a fuel that is enough for the text.
  abbrev pub operand : (Bytes → Outcome) → Bytes → Outcome
  operand expr p = unary expr (suc (length p)) p

  unfoldable pub term : (Bytes → Outcome) → Bytes → Outcome
  term expr p = level is_multiplicative (operand expr) multiplicative p

  -- The fuel bounds the depth of the parentheses.
  unfoldable pub expr : ℕ → Bytes → Outcome
  unfolding term
  expr zero p = out_of_fuel
  expr (suc f) p = level is_additive (term (expr f)) additive p

  -- The result of the call that the context's error ends, or that leaves text behind.
  abbrev pub finish : ℤ → Bytes → Outcome
  finish v [] = value v []
  finish v (c ∷ cs) = failed 2

  abbrev pub eval_at : Bytes → Outcome
  eval_at [] = value (pos 0) []
  eval_at (c ∷ cs) =
      and_then (expr (suc (length (c ∷ cs))) (c ∷ cs)) (λ v rest. finish v (skip_ws rest))

  unfoldable pub eval_arith : Bytes → Outcome
  unfolding expr
  eval_arith inner = eval_at (skip_ws inner)
