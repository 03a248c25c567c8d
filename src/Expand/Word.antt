-- ===== src/Expand/Word.antt =====
-- Word expansion: `expand_brace`, `expand_params_inner`, `expand_heredoc_body` and `expand_word`
-- (src/mid/expand.c). The buffer of the result is the list of its bytes; memory does not run out.
pub mod Total
pub mod Plain
pub mod Braced
pub mod Forms
use petrush.Base.{
  ℕ, zero, suc, ◌+◌, ◌-◌, Bool, true, false, not, ◌&&◌, ◌||◌, Option, none, some, List, [], ◌∷◌,
  ◌++◌, leb, ltb, ◌==◌, if◌then◌else◌, length, take, drop,
}
use petrush.Base.Int.{ℤ, pos, negsuc}
use petrush.Text.{Bytes, codes, at, is_digit, decimal}
use petrush.Parser.Span.{arith_span, cmdsubst_span}
use petrush.Expand.Options.{Options, shellopt_flags, nounset_fail}
use petrush.Expand.Positional.{
  Positional, or_empty, positional_count, positional_get, positional_join,
}
use petrush.Expand.Arith.{
  Outcome, value, failed, undefined, out_of_fuel, is_name_char, run, eval_arith,
}
use petrush.Dispatch.Env.{is_nil}
use petrush.Dispatch.Shell.{Outer}

-- `%d`.
abbrev pub printed : ℤ → Bytes
printed (pos n) = decimal n
printed (negsuc n) = b'-' ∷ decimal (suc n)

-- What the loop does at a place: the state and the bytes written, or a word whose expansion is
-- written, with the number of bytes passed; or an arithmetic overflow, which C leaves undefined.
pub data Step (W : Type 0) : Type 0 where
  emit : Outer W → Bytes → ℕ → Step W
  nested : Bytes → ℕ → Step W
  overflow no_fuel : Step W

-- The state behind an expansion, and its text.
pub data Expansion (W : Type 0) : Type 0 where
  done : Outer W → Bytes → Expansion W
  overflowed lacks_fuel : Expansion W

-- The hook that runs the command of `$(...)`, if there is one; `none` is its result NULL.
abbrev pub Hook : Type 0 → Type 0
Hook W = Option (Outer W → Bytes → Outer W × Option Bytes)

abbrev pub unset_error : {W : Type 0} → Outer W → Outer W
unset_error o = record o { opts = nounset_fail o.opts }

abbrev pub fail_unset : {W : Type 0} → Bool → Outer W → Outer W
fail_unset on o = if on then unset_error o else o

-- A value that is unset is an error where `set -u` is on.
abbrev pub nounset_check : {W : Type 0} → Option Bytes → Outer W → Outer W
nounset_check none o = fail_unset o.opts.opt_u o
nounset_check (some v) o = o

-- The name that its buffer of 256 bytes holds.
abbrev pub cut : Bytes → Bytes
cut name = take 255 name

abbrev pub lookup : {W : Type 0} → Outer W → Bytes → Option Bytes
lookup o name = o.env (cut name)

-- `$NAME` and `${NAME}`.
abbrev pub variable_step : {W : Type 0} → Outer W → Bytes → ℕ → Step W
variable_step o name n = let v = lookup o name in emit (nounset_check v o) (or_empty v) n

-- `${#NAME}`.
abbrev pub length_step : {W : Type 0} → Outer W → Bytes → ℕ → Step W
length_step o name n =
    let v = lookup o name in emit (nounset_check v o) (decimal (length (or_empty v))) n

-- The bytes up to a `}`.
unfoldable pub until_brace : Bytes → Bytes
until_brace [] = []
until_brace (c ∷ cs) = if c == b'}' then [] else c ∷ until_brace cs

-- A `$` that is taken as it is.
abbrev pub literal_dollar : {W : Type 0} → Outer W → Step W
literal_dollar o = emit o (b'$' ∷ []) 1

-- `${NAME:-word}` and `${NAME:+word}`; `set -u` does not count here.
abbrev pub operator_step : {W : Type 0} → Outer W → ℕ → Bytes → Bytes → ℕ → Step W
operator_step o op v word n =
    if op == b'-'
    then (if is_nil v then nested word n else emit o v n)
    else if is_nil v
    then emit o [] n
    else nested word n

-- `${#...}`, of which `inner` is what stands behind the `#`.
abbrev pub length_form : {W : Type 0} → Outer W → Bytes → ℕ → Step W
length_form o inner n =
    let name = run is_name_char inner in
    if length name == 0
    then literal_dollar o
    else if not (length name == length inner)
    then literal_dollar o
    else length_step o name n

-- `inner` stands between the braces, and the whole takes `n` bytes.
abbrev pub brace_form : {W : Type 0} → Outer W → Bytes → ℕ → Step W
brace_form o inner n =
    let name = run is_name_char inner in
    let i = length name in
    if at inner 0 == b'#'
    then length_form o (drop 1 inner) n
    else if i == 0
    then literal_dollar o
    else if i == length inner
    then variable_step o name n
    else if at inner i == b':' && (at inner (i + 1) == b'-' || at inner (i + 1) == b'+')
    then operator_step o (at inner (i + 1)) (or_empty (lookup o name)) (drop (i + 2) inner) n
    else literal_dollar o

-- `body` is the text behind `${`.
unfoldable pub expand_brace : {W : Type 0} → Outer W → Bytes → Step W
unfolding until_brace run decimal
expand_brace o body =
    let inner = until_brace body in
    if not (at body (length inner) == b'}')
    then literal_dollar o
    else brace_form o inner (length inner + 3)

-- `$0` to `$9`.
abbrev pub digit_step : {W : Type 0} → Outer W → ℕ → Step W
digit_step o n = let v = positional_get n o.positional in emit (nounset_check v o) (or_empty v) 2

abbrev pub arith_failed : {W : Type 0} → Outer W → Outer W
arith_failed o = record o { opts = record o.opts { arith_error = true } }

-- A division by zero is an error; a wrong expression is 0.
abbrev pub arith_step : {W : Type 0} → Outer W → Outcome → ℕ → Step W
arith_step o (value v rest) n = emit o (printed v) n
arith_step o (failed e) n = emit (if e == 1 then arith_failed o else o) (printed (pos 0)) n
arith_step o undefined n = overflow
arith_step o out_of_fuel n = no_fuel

abbrev pub drop_newline : ℕ → Bytes → Bytes
drop_newline c [] = if c == 10 then [] else c ∷ []
drop_newline c (d ∷ ds) = c ∷ d ∷ ds

-- The captured text without the newlines at its end.
unfoldable pub strip_newlines : Bytes → Bytes
strip_newlines [] = []
strip_newlines (c ∷ cs) = drop_newline c (strip_newlines cs)

abbrev pub captured_step : {W : Type 0} → Outer W × Option Bytes → ℕ → Step W
captured_step (o, none) n = emit o [] n
captured_step (o, some text) n = emit o (strip_newlines text) n

abbrev pub cmdsubst_step : {W : Type 0} → Hook W → Outer W → Bytes → ℕ → Step W
cmdsubst_step none o p span = literal_dollar o
cmdsubst_step (some hook) o p span = captured_step (hook o (take (span - 3) (drop 2 p))) span

-- `p` begins with `$(`.
abbrev pub paren_step : {W : Type 0} → Hook W → Outer W → Bytes → Step W
paren_step hook o p =
    if ltb 0 (arith_span p)
    then arith_step o (eval_arith o.env o.positional (take (arith_span p - 5) (drop 3 p)))
        (arith_span p)
    else if cmdsubst_span p == 0
    then literal_dollar o
    else cmdsubst_step hook o p (cmdsubst_span p)

-- At a `$` with the byte `d` behind it; `p` is the text from the `$` on.
unfoldable pub dollar_step : {W : Type 0} → Hook W → Outer W → ℕ → Bytes → Step W
unfolding expand_brace positional_count positional_get positional_join shellopt_flags run decimal
    strip_newlines arith_span cmdsubst_span
dollar_step hook o d p =
    if d == b'{'
    then expand_brace o (drop 2 p)
    else if d == b'#'
    then emit o (decimal (positional_count o.positional)) 2
    else if d == b'?'
    then emit o (printed o.opts.last_status) 2
    else if d == b'-'
    then emit o (shellopt_flags o.opts) 2
    else if d == b'@' || d == b'*'
    then emit o (positional_join (o.env (codes "IFS")) o.positional) 2
    else if is_digit d
    then digit_step o (d - 48)
    else if is_name_char d
    then variable_step o (run is_name_char (drop 1 p)) (suc (length (run is_name_char (drop 1 p))))
    else if d == b'('
    then paren_step hook o p
    else literal_dollar o

-- At a backslash in the body of a here-document, with the byte `next` behind it.
unfoldable pub escape_step : {W : Type 0} → Outer W → ℕ → Step W
escape_step o next =
    if next == b'$' || next == b'`' || next == b'\\'
    then emit o (next ∷ []) 2
    else if next == 10
    then emit o [] 2
    else if next == 0
    then emit o (b'\\' ∷ []) 1
    else emit o (b'\\' ∷ next ∷ []) 2

-- One round of the loop, at the byte `c` with `cs` behind it.
unfoldable pub step : {W : Type 0} → Hook W → Bool → Outer W → ℕ → Bytes → Step W
unfolding dollar_step escape_step
step hook heredoc_escapes o c cs =
    if heredoc_escapes && c == b'\\'
    then escape_step o (at cs 0)
    else if c == b'$' && not (at cs 0 == 0)
    then dollar_step hook o (at cs 0) (c ∷ cs)
    else emit o (c ∷ []) 1

-- The text in front of what a later round writes.
abbrev pub prefixed : {W : Type 0} → Bytes → Expansion W → Expansion W
prefixed piece (done o t) = done o (piece ++ t)
prefixed piece overflowed = overflowed
prefixed piece lacks_fuel = lacks_fuel

abbrev pub then_on : {W : Type 0} → Expansion W → (Outer W → Bytes → Expansion W) → Expansion W
then_on (done o t) next = next o t
then_on overflowed next = overflowed
then_on lacks_fuel next = lacks_fuel

-- What a round leads to: `word` expands a word, `more` goes on with the text that is left.
unfoldable pub proceed :
    {W : Type 0}
    → (Outer W → Bytes → Expansion W)
    → (Outer W → Bytes → Expansion W)
    → Outer W
    → Bytes
    → Step W
    → Expansion W
proceed word more o p (emit o' piece n) = prefixed piece (more o' (drop n p))
proceed word more o p (nested w n) =
    then_on (word o w) (λ o' piece. prefixed piece (more o' (drop n p)))
proceed word more o p overflow = overflowed
proceed word more o p no_fuel = lacks_fuel

-- `~` and `~/`, or else what `inner` makes of the word.
unfoldable pub with_tilde :
    {W : Type 0} → (Outer W → Bytes → Expansion W) → Outer W → Bytes → Expansion W
with_tilde inner o w =
    if at w 0 == b'~' && (at w 1 == 0 || at w 1 == b'/')
    then done o (or_empty (o.env (codes "HOME")) ++ drop 1 w)
    else inner o w

-- The fuel bounds the rounds and the words within braces.
unfoldable pub expand_params_inner :
    {W : Type 0} → Hook W → ℕ → Bool → Outer W → Bytes → Expansion W
unfolding step proceed with_tilde
expand_params_inner hook f heredoc_escapes o [] = done o []
expand_params_inner hook zero heredoc_escapes o (c ∷ cs) = lacks_fuel
expand_params_inner hook (suc f) heredoc_escapes o (c ∷ cs) =
    proceed (with_tilde (expand_params_inner hook f false))
      (expand_params_inner hook f heredoc_escapes) o (c ∷ cs) (step hook heredoc_escapes o c cs)

-- A unit of fuel for each byte.
unfoldable pub expand_heredoc_body : {W : Type 0} → Hook W → Outer W → Bytes → Expansion W
unfolding expand_params_inner
expand_heredoc_body hook o body = expand_params_inner hook (length body) true o body

unfoldable pub expand_word : {W : Type 0} → Hook W → Outer W → Bytes → Expansion W
unfolding expand_params_inner with_tilde
expand_word hook o w = with_tilde (expand_params_inner hook (length w) false) o w
