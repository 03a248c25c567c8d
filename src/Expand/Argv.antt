-- ===== src/Expand/Argv.antt =====
-- `expand_positional_token` and `expand_cmd_argv` (src/mid/expand.c). The arguments are pairs of a
-- word and its quoting mark; `glob` stands for `glob_word` (NULL is `none`).
pub mod Quoted
use petrush.Base.{
  ℕ, Bool, true, false, not, ◌&&◌, ◌||◌, Option, none, some, List, [], ◌∷◌, ◌++◌, ◌==◌,
  if◌then◌else◌,
}
use petrush.Text.{Bytes, codes, str_eq}
use petrush.Parser.Stage.{Cmd}
use petrush.Expand.Positional.{positional_join}
use petrush.Expand.Word.{
  Expansion, done, overflowed, lacks_fuel, Hook, expand_heredoc_body, expand_word,
}
use petrush.Dispatch.Shell.{Outer}

abbrev pub Words : Type 0
Words = List (Bytes × ℕ)

abbrev pub Glob : Type 0 → Type 0
Glob W = Outer W → Bytes → Option (List Bytes)

abbrev pub is_at : Bytes → Bool
is_at w = str_eq w (codes "$@")

abbrev pub is_star : Bytes → Bool
is_star w = str_eq w (codes "$*")

-- Words that no later round expands: they are marked as single-quoted.
abbrev pub literals : List Bytes → Words
literals [] = []
literals (w ∷ ws) = (w, 1) ∷ literals ws

-- The words that stand for `$@` and `$*`; `none` for any other word.
unfoldable pub expand_positional_token : {W : Type 0} → Outer W → Bytes → ℕ → Option Words
unfolding positional_join str_eq
expand_positional_token o w quoted =
    if not (is_at w) && not (is_star w)
    then none
    else if is_star w && not (quoted == 0)
    then some ((positional_join (o.env (codes "IFS")) o.positional, quoted) ∷ [])
    else some (literals o.positional.args)

-- Some state and a value; `none` stands for an arithmetic overflow, which C leaves undefined.
abbrev pub with_text : {W X : Type 0} → Expansion W → (Outer W → Bytes → Option X) → Option X
with_text (done o t) next = next o t
with_text overflowed next = none
with_text lacks_fuel next = none

abbrev pub put_words : {W : Type 0} → Words → Option (Outer W × Words) → Option (Outer W × Words)
put_words ws none = none
put_words ws (some (o, rest)) = some (o, ws ++ rest)

abbrev pub word_or_token :
    {W : Type 0}
    → Hook W
    → (Outer W → Option (Outer W × Words))
    → Outer W
    → Bytes
    → ℕ
    → Option Words
    → Option (Outer W × Words)
word_or_token hook more o w quoted (some ws) = put_words ws (more o)
word_or_token hook more o w quoted none =
    with_text (expand_word hook o w) (λ o' t. put_words ((t, quoted) ∷ []) (more o'))

abbrev pub expand_arg :
    {W : Type 0}
    → Hook W
    → (Outer W → Option (Outer W × Words))
    → Outer W
    → Bytes
    → ℕ
    → Bool
    → Option (Outer W × Words)
expand_arg hook more o w quoted true = put_words ((w, quoted) ∷ []) (more o)
expand_arg hook more o w quoted false =
    word_or_token hook more o w quoted (expand_positional_token o w quoted)

-- The first loop: single-quoted words stay.
unfoldable pub expand_args : {W : Type 0} → Hook W → Outer W → Words → Option (Outer W × Words)
unfolding expand_positional_token expand_word
expand_args hook o [] = some (o, [])
expand_args hook o ((w, quoted) ∷ ws) =
    expand_arg hook (λ o'. expand_args hook o' ws) o w quoted (quoted == 1)

unfoldable pub pattern_has_meta : Bytes → Bool
pattern_has_meta [] = false
pattern_has_meta (c ∷ cs) = c == b'*' || c == b'?' || pattern_has_meta cs

-- The pattern itself is no match.
abbrev pub matches_of : Bytes → List Bytes → Words
matches_of w (g ∷ []) = if str_eq g w then (w, 0) ∷ [] else (g, 1) ∷ []
matches_of w gs = literals gs

abbrev pub matches_or : Bytes → Option (List Bytes) → Words
matches_or w none = (w, 0) ∷ []
matches_or w (some gs) = matches_of w gs

abbrev pub glob_arg : {W : Type 0} → Glob W → Outer W → Bytes → ℕ → Words
glob_arg glob o w quoted =
    if not (quoted == 0) || not (pattern_has_meta w)
    then (w, quoted) ∷ []
    else matches_or w (glob o w)

-- The second loop: names of files for the patterns that are not quoted.
unfoldable pub glob_args : {W : Type 0} → Glob W → Outer W → Words → Words
unfolding pattern_has_meta str_eq
glob_args glob o [] = []
glob_args glob o ((w, quoted) ∷ ws) = glob_arg glob o w quoted ++ glob_args glob o ws

abbrev pub pairs : List Bytes → List ℕ → Words
pairs [] qs = []
pairs (w ∷ ws) [] = (w, 0) ∷ pairs ws []
pairs (w ∷ ws) (q ∷ qs) = (w, q) ∷ pairs ws qs

abbrev pub arg_words : Words → List Bytes
arg_words [] = []
arg_words ((w, q) ∷ ws) = w ∷ arg_words ws

abbrev pub marks_of : Words → List ℕ
marks_of [] = []
marks_of ((w, q) ∷ ws) = q ∷ marks_of ws

-- A file name of a redirection, if there is one: no names of files are put in its place.
abbrev pub expand_path :
    {W X : Type 0}
    → Hook W
    → Outer W
    → Option Bytes
    → (Outer W → Option Bytes → Option X)
    → Option X
expand_path hook o none next = next o none
expand_path hook o (some w) next = with_text (expand_word hook o w) (λ o' t. next o' (some t))

-- The body of a here-document, unless its delimiter was quoted.
abbrev pub expand_body :
    {W X : Type 0}
    → Hook W
    → Outer W
    → Bool
    → Option Bytes
    → (Outer W → Option Bytes → Option X)
    → Option X
expand_body hook o quoted none next = next o none
expand_body hook o true (some b) next = next o (some b)
expand_body hook o false (some b) next =
    with_text (expand_heredoc_body hook o b) (λ o' t. next o' (some t))

-- The redirections and the here-document, behind the arguments.
abbrev pub expand_files :
    {W : Type 0} → Hook W → Glob W → Cmd → Option (Outer W × Words) → Option (Outer W × Cmd)
expand_files hook glob c none = none
expand_files hook glob c (some (o, ws)) =
    let args = glob_args glob o ws in
    expand_path hook o c.redir_in λ o1 redir_in. expand_path hook o1 c.redir_out λ o2 redir_out.
      expand_path hook o2 c.redir_err λ o3 redir_err.
        expand_body hook o3 c.here_quoted c.here_body λ o4 here_body. some (
          o4,
          record c {
            argv = arg_words args;
            argv_quoted = marks_of args;
            redir_in = redir_in;
            redir_out = redir_out;
            redir_err = redir_err;
            here_body = here_body;
          },
        )

unfoldable pub expand_cmd_argv :
    {W : Type 0} → Hook W → Glob W → Outer W → Cmd → Option (Outer W × Cmd)
unfolding expand_args glob_args expand_word expand_heredoc_body
expand_cmd_argv hook glob o c =
    expand_files hook glob c (expand_args hook o (pairs c.argv c.argv_quoted))
