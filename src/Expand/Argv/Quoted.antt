-- ===== src/Expand/Argv/Quoted.antt =====
-- Arguments that are single-quoted, and the parameters that `$@` stands for, are taken as they are.
use petrush.Base.{
  ℕ, ◌≡◌, refl, ap, sym, ◌∙◌, ◌==◌, false, none, some, List, [], ◌∷◌, ◌++◌, Option, append_assoc,
  append-nil,
}
use petrush.Text.{Bytes, codes}
use petrush.Parser.Stage.{Cmd, cmd_zero}
use petrush.Expand.Word.{Hook}
use petrush.Dispatch.Shell.{Outer}
use petrush.Expand.Argv.{
  Words, Glob, literals, put_words, expand_positional_token, expand_args, glob_args, pairs,
  arg_words, marks_of, expand_cmd_argv,
}

glob_args-literals :
    {W : Type 0} (glob : Glob W) (o : Outer W) (ws : List Bytes)
    → glob_args glob o (literals ws) ≡ literals ws
unfolding glob_args
glob_args-literals glob o [] = refl
glob_args-literals glob o (w ∷ ws) = ap (◌∷◌ (w, 1)) (glob_args-literals glob o ws)

put_words-nil : {W : Type 0} (r : Option (Outer W × Words)) → put_words [] r ≡ r
put_words-nil none = refl
put_words-nil (some (o, ws)) = refl

put_words-put_words :
    {W : Type 0} (a b : Words) (r : Option (Outer W × Words))
    → put_words a (put_words b r) ≡ put_words (a ++ b) r
put_words-put_words a b none = refl
put_words-put_words a b (some (o, ws)) = ap (λ l. some (o, l)) (sym (append_assoc {0} a b ws))

expand_args-literals :
    {W : Type 0} (hook : Hook W) (o : Outer W) (ws : List Bytes) (more : Words)
    → expand_args hook o (literals ws ++ more) ≡ put_words (literals ws) (expand_args hook o more)
unfolding expand_args
expand_args-literals hook o [] more = sym (put_words-nil (expand_args hook o more))
expand_args-literals hook o (w ∷ ws) more =
    ap (put_words ((w, 1) ∷ [])) (expand_args-literals hook o ws more)
    ∙ put_words-put_words ((w, 1) ∷ []) (literals ws) (expand_args hook o more)

expand_args-all :
    {W : Type 0} (hook : Hook W) (o : Outer W) (ws : List Bytes)
    → expand_args hook o (literals ws) ≡ some (o, literals ws)
unfolding expand_args
expand_args-all hook o ws =
    ap (expand_args hook o) (sym (append-nil {0} (literals ws)))
    ∙ expand_args-literals hook o ws []
    ∙ ap (λ l. some (o, l)) (append-nil {0} (literals ws))

pairs-arg_words : (ws : Words) → pairs (arg_words ws) (marks_of ws) ≡ ws
pairs-arg_words [] = refl
pairs-arg_words ((w, q) ∷ ws) = ap (◌∷◌ (w, q)) (pairs-arg_words ws)

literals-append : (a b : List Bytes) → literals a ++ literals b ≡ literals (a ++ b)
literals-append [] b = refl
literals-append (w ∷ a) b = ap (◌∷◌ (w, 1)) (literals-append a b)

-- A command with these arguments, and nothing else.
abbrev pub command_of : Words → Cmd
command_of ws = record cmd_zero { argv = arg_words ws; argv_quoted = marks_of ws }

expand_cmd_argv-command_of :
    {W : Type 0} (hook : Hook W) (glob : Glob W) (o : Outer W) (ws : Words) (vs : List Bytes)
    → expand_args hook o ws ≡ some (o, literals vs)
    → expand_cmd_argv hook glob o (command_of ws) ≡ some (o, command_of (literals vs))
unfolding expand_cmd_argv
expand_cmd_argv-command_of hook glob o ws vs e =
    rw (pairs-arg_words ws) (rw e (rw (glob_args-literals glob o vs) refl))

-- Behind single-quoted words, `$@` (quoted or not) becomes the parameters, one word each; neither
-- these nor the single-quoted words are expanded, whatever bytes they hold, and no file names are put
-- in their place. The command that results is marked so that expanding it again changes nothing. The
-- state stays as it was.
pub expand_cmd_argv-parameters :
    {W : Type 0} (hook : Hook W) (glob : Glob W) (o : Outer W) (ws : List Bytes) (quoted : ℕ)
    → (quoted == 1) ≡ false
    → (let expanded = command_of (literals (ws ++ o.positional.args)) in
        (expand_cmd_argv hook glob o (command_of (literals ws ++ ((codes "$@", quoted) ∷ [])))
          ≡ some (o, expanded))
        × (expand_cmd_argv hook glob o expanded ≡ some (o, expanded)))
unfolding expand_args expand_positional_token
expand_cmd_argv-parameters hook glob o ws quoted h =
    let args = o.positional.args in
    let last : expand_args hook o ((codes "$@", quoted) ∷ []) ≡ some (o, literals args ++ []) =
      rw h refl in
    let again : expand_args hook o (literals (ws ++ args)) ≡ some (o, literals (ws ++ args)) =
      expand_args-all hook o (ws ++ args) in
    (
      expand_cmd_argv-command_of hook glob o _ (ws ++ args) (
          expand_args-literals hook o ws ((codes "$@", quoted) ∷ [])
          ∙ ap (put_words (literals ws)) last
          ∙ ap (λ l. some (o, literals ws ++ l)) (append-nil {0} (literals args))
          ∙ ap (λ l. some (o, l)) (literals-append ws args)),
      expand_cmd_argv-command_of hook glob o _ (ws ++ args) again,
    )
