-- ===== src/Examples/Words.antt =====
-- Tests and witnesses on word expansion.
use petrush.Base.{ℕ, ◌≡◌, ◌≢◌, refl, true, false, Option, none, some, [], ◌∷◌, ◌++◌, if◌then◌else◌}
use petrush.Base.Int.{pos}
use petrush.Text.{Bytes, codes, str_eq}
use petrush.Expand.Arith.{
  run, eval_arith, skip_ws, after_run, variable, dollar, atom, unary, loop, term, expr,
}
use petrush.Expand.Arith.Int64.{parse_digits, parse_i64, value_from_text}
use petrush.Dispatch.Shell.{Outer}
use petrush.Expand.Word.{Expansion, done, lacks_fuel, Hook, expand_word, expand_heredoc_body}
use petrush.Expand.Word.Total.{expand_word-ne-fuel}
use petrush.Expand.Word.Plain.{expand_heredoc_body-escaped}
use petrush.Expand.Word.Forms.{ahead, expand_word_forms}
use petrush.Expand.Argv.{literals, expand_cmd_argv}
use petrush.Expand.Argv.Quoted.{command_of, expand_cmd_argv-parameters}

abbrev variables : Bytes → Option Bytes
variables name =
    if str_eq name (codes "X")
    then some (codes "xy")
    else if str_eq name (codes "HOME")
    then some (codes "/h")
    else none

abbrev outer : Outer ℕ
outer = record {
  world = 0;
  env = variables;
  opts = record {
    opt_e = false;
    opt_u = true;
    opt_x = false;
    last_status = pos 3;
    arith_error = false;
    nounset_error = false;
  };
  positional = record { arg0 = some (codes "petrush"); args = codes "a*" ∷ codes "$X" ∷ [] };
  shell_abort = false;
}

-- A hook that writes its command and two newlines, and counts its calls.
abbrev echo : Hook ℕ
echo = some (λ o command. (record o { world = 1 }, some (command ++ (10 ∷ 10 ∷ []))))

abbrev text_of : Expansion ℕ → Bytes
text_of (done o t) = t
text_of _ = []

word_forms :
    (text_of (expand_word echo outer (codes "a$X-${X}-${#X}-${Y:-$X}-${X:+z}-${Y:+z}"))
      ≡ codes "axy-xy-2-xy-z-")
    × (text_of (expand_word echo outer (codes "$? $# $2 $$ ${X%y} ${X"))
        ≡ codes "3 2 $X $$ ${X%y} ${X")
    × (text_of (expand_word echo outer (codes "$(ls (a))|$((2*X+1))")) ≡ codes "ls (a)|1")
    × (text_of (expand_word echo outer (codes "~/a~")) ≡ codes "/h/a~")
    × (text_of (expand_heredoc_body echo outer (codes "~ \\$X \\a $X")) ≡ codes "~ $X \\a xy")
unfolding expand_word expand_heredoc_body str_eq eval_arith skip_ws run after_run variable dollar
    atom unary loop term expr value_from_text parse_i64 parse_digits
word_forms = (refl, refl, refl, refl, refl)

unset_is_error :
    expand_word echo outer (codes "$Y")
    ≡ done (record outer { opts = record outer.opts { nounset_error = true } }) []
unfolding expand_word str_eq
unset_is_error = refl

expand_word-ne-fuel_example :
    (expand_word echo outer (codes "${X:-$(a)}") ≢ lacks_fuel)
    × (expand_heredoc_body echo outer (codes "${X:-$(a)}") ≢ lacks_fuel)
expand_word-ne-fuel_example = expand_word-ne-fuel echo outer (codes "${X:-$(a)}")

expand_heredoc_body-escaped_example :
    expand_heredoc_body echo outer (codes "\\$X \\\\ \\`a\\`") ≡ done outer (codes "$X \\ `a`")
expand_heredoc_body-escaped_example = expand_heredoc_body-escaped echo outer (codes "$X \\ `a`")

expand_word_forms_example :
    expand_word echo outer (codes "${X:-y}/b") ≡ ahead echo (codes "/b") outer (codes "xy")
unfolding str_eq
expand_word_forms_example =
    (expand_word_forms echo outer (codes "X") (codes "y") (codes "/b") (λ q. cc) (refl, tt)
      (refl, tt)).2

expand_cmd_argv-parameters_example :
    (expand_cmd_argv echo
        (λ o w. none)
        outer
        (command_of (literals (codes "*" ∷ []) ++ ((codes "$@", 2) ∷ [])))
      ≡ some (outer, command_of (literals (codes "*" ∷ codes "a*" ∷ codes "$X" ∷ []))))
    × (expand_cmd_argv echo
          (λ o w. none)
          outer
          (command_of (literals (codes "*" ∷ codes "a*" ∷ codes "$X" ∷ [])))
        ≡ some (outer, command_of (literals (codes "*" ∷ codes "a*" ∷ codes "$X" ∷ []))))
expand_cmd_argv-parameters_example =
    expand_cmd_argv-parameters echo (λ o w. none) outer (codes "*" ∷ []) 2 refl
