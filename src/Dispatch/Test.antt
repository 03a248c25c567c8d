-- ===== src/Dispatch/Test.antt =====
-- `test`, `[` and `[[` (src/mid/dispatcher.c): statuses 0 for true, 1 for false, 2 for an error.
pub mod Skip
pub mod Chain
use petrush.Base.{
  ℕ, zero, suc, ◌-◌, Bool, true, false, not, ◌&&◌, ◌||◌, Option, none, some, List, [], ◌∷◌, leb,
  ltb, ◌==◌, if◌then◌else◌, length, take, drop,
}
use petrush.Base.Int.{ℤ, pos, negsuc, eq_ℤ}
use petrush.Text.{Bytes, codes, str_eq}
use petrush.Dispatch.Strtol.{parse_long}
use petrush.Dispatch.Glob.{case_pat_match}

abbrev pub is_empty : Bytes → Bool
is_empty [] = true
is_empty (c ∷ cs) = false

-- The status of a truth value.
abbrev pub status_of : Bool → ℕ
status_of true = 0
status_of false = 1

abbrev pub lt_ℤ : ℤ → ℤ → Bool
lt_ℤ (pos a) (pos b) = ltb a b
lt_ℤ (pos a) (negsuc b) = false
lt_ℤ (negsuc a) (pos b) = true
lt_ℤ (negsuc a) (negsuc b) = ltb b a

abbrev pub compare_longs : Bytes → Option ℤ → Option ℤ → ℕ
compare_longs op (some a) (some b) =
    if str_eq op (codes "-eq")
    then status_of (eq_ℤ a b)
    else if str_eq op (codes "-ne")
    then status_of (not (eq_ℤ a b))
    else if str_eq op (codes "-lt")
    then status_of (lt_ℤ a b)
    else if str_eq op (codes "-gt")
    then status_of (lt_ℤ b a)
    else 2
compare_longs op _ _ = 2

unfoldable pub feat_test_binary : Bytes → Bytes → Bytes → ℕ
unfolding parse_long str_eq
feat_test_binary lhs op rhs =
    if str_eq op (codes "=")
    then status_of (str_eq lhs rhs)
    else if str_eq op (codes "!=")
    then status_of (not (str_eq lhs rhs))
    else compare_longs op (parse_long lhs) (parse_long rhs)

unfoldable pub dbr_is_unary : Bytes → Bool
unfolding str_eq
dbr_is_unary op =
    str_eq op (codes "-f")
    || str_eq op (codes "-d")
    || str_eq op (codes "-e")
    || str_eq op (codes "-z")
    || str_eq op (codes "-n")

unfoldable pub dbr_is_binop : Bytes → Bool
unfolding str_eq
dbr_is_binop op =
    str_eq op (codes "=")
    || str_eq op (codes "==")
    || str_eq op (codes "!=")
    || str_eq op (codes "-eq")
    || str_eq op (codes "-ne")
    || str_eq op (codes "-lt")
    || str_eq op (codes "-gt")

unfoldable pub dbr_str_cmp : Bytes → Bytes → Bytes → Bool → ℕ
unfolding case_pat_match str_eq
dbr_str_cmp lhs op rhs rhs_quoted =
    let eq = if rhs_quoted then str_eq lhs rhs else case_pat_match rhs lhs in
    if str_eq op (codes "!=") then status_of (not eq) else status_of eq

-- A token with the flag for its quotes.
abbrev pub Word : Type 0
Word = Bytes × Bool

abbrev pub is_bang : Word → Bool
is_bang (w, q) = str_eq w (codes "!")

-- Where a primary that begins a list of words ends, by its form.
pub data Primary : Type 0 where
  missing : Primary
  unary : Bytes → Bytes → List Word → Primary
  binary : Bytes → Bytes → Word → List Word → Primary
  string : Bytes → List Word → Primary

abbrev pub binary_or_string : Bytes → List Word → Primary
binary_or_string w ((op, q) ∷ r ∷ rest) =
    if dbr_is_binop op then binary w op r rest else string w ((op, q) ∷ r ∷ rest)
binary_or_string w rest = string w rest

abbrev pub primary_of : List Word → Primary
primary_of [] = missing
primary_of ((w, q) ∷ []) = string w []
primary_of ((w, q) ∷ (v, q') ∷ rest) =
    if dbr_is_unary w then unary w v rest else binary_or_string w ((v, q') ∷ rest)

abbrev pub negated : Bool → ℕ → ℕ
negated neg st = if st == 2 then 2 else if neg then (if st == 0 then 1 else 0) else st

abbrev pub words_after : Primary → Option (List Word)
words_after missing = none
words_after (unary op operand rest) = some rest
words_after (binary lhs op rhs rest) = some rest
words_after (string s rest) = some rest

-- `none` is the result 2.
unfoldable pub dbr_skip_term : List Word → Option (List Word)
unfolding dbr_is_unary dbr_is_binop str_eq
dbr_skip_term [] = none
dbr_skip_term (w ∷ ws) = if is_bang w then dbr_skip_term ws else words_after (primary_of (w ∷ ws))

-- The loop goes on behind the words that were skipped.
abbrev pub skip_to : ℕ → (ℕ → List Word → Option ℕ) → Option (List Word) → Option ℕ
skip_to st next none = some 2
skip_to st next (some rest) = next st rest

-- What `access` and `stat` are asked of a path.
pub data FileTest : Type 0 where
  exists regular directory : FileTest

module _ (file_is : FileTest → Bytes → Bool) where
  unfoldable pub feat_test_unary : Bytes → Bytes → ℕ
  unfolding str_eq
  feat_test_unary op operand =
      if str_eq op (codes "-z")
      then status_of (is_empty operand)
      else if str_eq op (codes "-n")
      then status_of (not (is_empty operand))
      else if str_eq op (codes "-e")
      then status_of (file_is exists operand)
      else if str_eq op (codes "-f")
      then status_of (file_is regular operand)
      else if str_eq op (codes "-d")
      then status_of (file_is directory operand)
      else 2

  -- The expression of `test` behind the command's name.
  abbrev pub test_args : List Bytes → ℕ
  test_args [] = 1
  test_args (s ∷ []) = status_of (not (is_empty s))
  test_args (op ∷ s ∷ []) = feat_test_unary op s
  test_args (l ∷ op ∷ r ∷ []) = feat_test_binary l op r
  test_args (_ ∷ _ ∷ _ ∷ _ ∷ _) = 2

  abbrev pub last_is_bracket : List Bytes → Bool
  last_is_bracket [] = false
  last_is_bracket (s ∷ []) = str_eq s (codes "]")
  last_is_bracket (_ ∷ s ∷ rest) = last_is_bracket (s ∷ rest)

  unfoldable pub builtin_test : List Bytes → ℕ
  unfolding feat_test_unary feat_test_binary str_eq
  builtin_test [] = 2
  builtin_test (name ∷ args) =
      if str_eq name (codes "[")
      then (if last_is_bracket args then test_args (take (length args - 1) args) else 2)
      else test_args args

  -- The status of a primary, and the words behind it.
  unfoldable pub eval_primary : Primary → ℕ × List Word
  unfolding feat_test_unary feat_test_binary dbr_str_cmp str_eq
  eval_primary missing = (2, [])
  eval_primary (unary op operand rest) = (feat_test_unary op operand, rest)
  eval_primary (binary lhs op (rhs, quoted) rest) = (
    if str_eq op (codes "=") || str_eq op (codes "==") || str_eq op (codes "!=")
        then dbr_str_cmp lhs op rhs quoted
        else feat_test_binary lhs op rhs,
    rest,
  )
  eval_primary (string s rest) = (status_of (not (is_empty s)), rest)

  unfoldable pub dbr_eval_term : Bool → List Word → ℕ × List Word
  unfolding dbr_is_unary dbr_is_binop eval_primary str_eq
  dbr_eval_term neg [] = (2, [])
  dbr_eval_term neg (w ∷ ws) =
      let (st, rest) = eval_primary (primary_of (w ∷ ws)) in
      if is_bang w then dbr_eval_term (not neg) ws else (negated neg st, rest)

  -- A connective whose right side counts (`taken`) or is skipped; `next` is the rest of the loop.
  abbrev pub joined : Bool → ℕ → List Word → (ℕ → List Word → Option ℕ) → Option ℕ
  joined taken st ws next =
      if st == 2
      then some 2
      else if taken
      then (let (r, rest) = dbr_eval_term false ws in if r == 2 then some 2 else next r rest)
      else skip_to st next (dbr_skip_term ws)

  -- The loop; the fuel bounds the connectives, and `none` means that it ran out.
  unfoldable pub dbr_loop : ℕ → ℕ → List Word → Option ℕ
  unfolding dbr_eval_term dbr_skip_term str_eq
  dbr_loop f st [] = some st
  dbr_loop zero st (w ∷ ws) = none
  dbr_loop (suc f) st ((op, q) ∷ ws) =
      if str_eq op (codes "&&")
      then joined (st == 0) st ws (dbr_loop f)
      else if str_eq op (codes "||")
      then joined (not (st == 0)) st ws (dbr_loop f)
      else some 2

  unfoldable pub dbr_eval_expr : List Word → Option ℕ
  unfolding dbr_loop dbr_eval_term
  dbr_eval_expr [] = some 1
  dbr_eval_expr (w ∷ ws) =
      let (st, rest) = dbr_eval_term false (w ∷ ws) in dbr_loop (length rest) st rest
