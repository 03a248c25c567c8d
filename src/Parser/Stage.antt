-- ===== src/Parser/Stage.antt =====
-- Stages and pipelines: `build_stage`, `petrush_parse_pipeline` and `petrush_parse`
-- (src/mid/parser.c, include/petrush/parser.h).
pub mod Shape
pub mod Meaning
pub mod Lines
pub mod Total
use petrush.Base.{
  ℕ, Bool, true, false, ◌||◌, Option, none, some, List, [], ◌∷◌, ◌++◌, ◌==◌, if◌then◌else◌, length,
}
use petrush.Text.{Bytes}
use petrush.Parser.Result.{Result, ok, error, out_of_fuel, ◌>>=◌}
use petrush.Parser.Token.{
  Kind, word, pipe, lt, dless, dlessdash, gt, gtgt, errgt, errgtgt, errtoout, ampgt, Token,
  tokenize,
}

-- `petrush_cmd_t`; `argc` is the length of `argv`, `here_skip_n` that of `here_skip_delims`.
pub record Cmd : Type 0 where
  pub argv : List Bytes
  pub argv_quoted : List ℕ
  pub redir_in : Option Bytes
  pub redir_out : Option Bytes
  pub redir_append : Bool
  pub redir_err : Option Bytes
  pub redir_err_append : Bool
  pub redir_err_to_out : Bool
  pub here_delim : Option Bytes
  pub here_body : Option Bytes
  pub here_quoted : Bool
  pub here_strip : Bool
  pub here_skip_delims : List Bytes
  pub here_feed_i : ℕ

-- `memset(cmd, 0, sizeof(*cmd))`.
abbrev pub cmd_zero : Cmd
cmd_zero = record {
  argv = [];
  argv_quoted = [];
  redir_in = none;
  redir_out = none;
  redir_append = false;
  redir_err = none;
  redir_err_append = false;
  redir_err_to_out = false;
  here_delim = none;
  here_body = none;
  here_quoted = false;
  here_strip = false;
  here_skip_delims = [];
  here_feed_i = 0;
}

abbrev pub here_clear : Cmd → Cmd
here_clear c = record c {
  here_delim = none;
  here_body = none;
  here_quoted = false;
  here_strip = false;
  here_skip_delims = [];
  here_feed_i = 0;
}

abbrev pub push_arg : Token → Cmd → Cmd
push_arg t c = record c {
  argv = c.argv ++ t.text ∷ [];
  argv_quoted = c.argv_quoted ++ t.quoted ∷ [];
}

-- `2>&1`.
abbrev pub merge_err : Cmd → Cmd
merge_err c = record c { redir_err = none; redir_err_append = false; redir_err_to_out = true }

-- A further here-document makes the delimiter before it one to skip.
abbrev pub skipped : Option Bytes → List Bytes → List Bytes
skipped none ds = ds
skipped (some d) ds = ds ++ d ∷ []

abbrev pub here_doc : Bool → Token → Cmd → Cmd
here_doc strip u c = record c {
  redir_in = none;
  here_delim = some u.text;
  here_body = none;
  here_quoted = if u.quoted == 0 then false else true;
  here_strip = strip;
  here_skip_delims = skipped c.here_delim c.here_skip_delims;
  here_feed_i = 0;
}

abbrev pub input_from : Token → Cmd → Cmd
input_from u c = let d = here_clear c in record d { redir_in = some u.text }

abbrev pub output_to : Bool → Token → Cmd → Cmd
output_to append u c = record c { redir_out = some u.text; redir_append = append }

abbrev pub error_to : Bool → Token → Cmd → Cmd
error_to append u c = record c {
  redir_err = some u.text;
  redir_err_append = append;
  redir_err_to_out = false;
}

-- `&>`.
abbrev pub both_to : Token → Cmd → Cmd
both_to u c = record c {
  redir_out = some u.text;
  redir_append = false;
  redir_err = none;
  redir_err_append = false;
  redir_err_to_out = true;
}

-- The operator `k` with the word `u` that follows it.
unfoldable pub redirect : Kind → Token → Cmd → Result Cmd
redirect dless u c = ok (here_doc false u c)
redirect dlessdash u c = ok (here_doc true u c)
redirect lt u c = ok (input_from u c)
redirect gt u c = ok (output_to false u c)
redirect gtgt u c = ok (output_to true u c)
redirect errgt u c = ok (error_to false u c)
redirect errgtgt u c = ok (error_to true u c)
redirect ampgt u c = ok (both_to u c)
redirect word u c = error
redirect pipe u c = error
redirect errtoout u c = error

-- A redirection takes the next token, which must be a word.
abbrev pub with_path : Kind → Token → Kind → (Cmd → Result Cmd) → Cmd → Result Cmd
with_path k u word after c = redirect k u c >>= after
with_path k u _ after c = error

-- One round at a token `t` of the kind given, with `u` next: `here` goes on at `u`, `after` behind it.
unfoldable pub build_at :
    Kind → Token → Token → (Cmd → Result Cmd) → (Cmd → Result Cmd) → Cmd → Result Cmd
build_at word t u here after c = here (push_arg t c)
build_at pipe t u here after c = error
build_at errtoout t u here after c = here (merge_err c)
build_at k t u here after c = with_path k u u.kind after c

-- The last round: no token follows.
unfoldable pub build_last : Kind → Token → Cmd → Result Cmd
build_last word t c = ok (push_arg t c)
build_last errtoout t c = ok (merge_err c)
build_last _ t c = error

-- The loop of `build_stage` over the tokens of a stage.
unfoldable pub build : List Token → Cmd → Result Cmd
build [] c = ok c
build (t ∷ []) c = build_last t.kind t c
build (t ∷ u ∷ ts) c = build_at t.kind t u (build (u ∷ ts)) (build ts) c

-- A stage with no word of its own is an error.
abbrev pub with_args : Cmd → Result Cmd
with_args c = if length c.argv == 0 then error else ok c

unfoldable pub build_stage : List Token → Result Cmd
build_stage ts = build ts cmd_zero >>= with_args

-- At a `|` with the tokens `seg` before it and `ts` behind it.
unfoldable pub at_pipe :
    List Token → List Token → (List Token → Result (List Cmd)) → Result (List Cmd)
at_pipe [] ts next = error
at_pipe (s ∷ seg) [] next = build_stage (s ∷ seg) >>= λ c. error
at_pipe (s ∷ seg) (t ∷ ts) next = build_stage (s ∷ seg) >>= λ c. next [] >>= λ cs. ok (c ∷ cs)

unfoldable pub stage_at :
    Kind → Token → List Token → List Token → (List Token → Result (List Cmd)) → Result (List Cmd)
unfolding at_pipe
stage_at pipe t seg ts next = at_pipe seg ts next
stage_at _ t seg ts next = next (seg ++ t ∷ [])

-- The stages of a pipeline; `seg` holds the tokens since the last `|`.
unfoldable pub stages : List Token → List Token → Result (List Cmd)
stages seg [] = build_stage seg >>= λ c. ok (c ∷ [])
stages seg (t ∷ ts) = stage_at t.kind t seg ts (λ s. stages s ts)

abbrev pub pipeline_of : List Token → Result (List Cmd)
pipeline_of [] = ok []
pipeline_of (t ∷ ts) = stages [] (t ∷ ts)

unfoldable pub parse_pipeline : Bytes → Result (List Cmd)
unfolding tokenize stages stage_at build_stage build build_at build_last redirect
parse_pipeline input = tokenize input >>= pipeline_of

abbrev pub single : List Cmd → Result Cmd
single [] = ok cmd_zero
single (c ∷ []) = ok c
single (c ∷ d ∷ cs) = error

unfoldable pub parse : Bytes → Result Cmd
unfolding parse_pipeline
parse input = parse_pipeline input >>= single
