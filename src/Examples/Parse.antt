-- ===== src/Examples/Parse.antt =====
-- The parser of pipelines (src/mid/parser.c, tests/test_parser.c).
use petrush.Base.{suc, ◌+◌, ◌≡◌, ◌⊎◌, refl, true, some, List, [], ◌∷◌, length, arith}
use petrush.Text.{Bytes, codes}
use petrush.Parser.Result.{ok, error}
use petrush.Parser.Span.{cmdsubst_span, arith_span, dollar_group_span}
use petrush.Parser.Span.Balance.{empty, plain, group, cmdsubst_span-Balanced}
use petrush.Parser.Token.{Token, word, pipe, dlessdash, op, tokenize}
use petrush.Parser.Token.Print.{Line, Writes, end, next, operator, bare, tokenize-Line}
use petrush.Parser.Token.Print
use petrush.Parser.Stage.{Cmd, cmd_zero, build_stage, build, build_last, parse_pipeline, parse}
use petrush.Parser.Stage.Shape.{AreStages, pipes, parse_pipeline_shape}
use petrush.Parser.Stage.Meaning.{
  words_cmd, path_word, LastWins, HereDoc, stage-LastWins, stage-HereDoc,
}
use petrush.Parser.Stage.Lines.{parse_pipeline-Line}

spans :
    (cmdsubst_span (codes "$(ls ')' (a)) x") ≡ 13)
    × (cmdsubst_span (codes "$((1))") ≡ 0)
    × (arith_span (codes "$((1+(2)))") ≡ 10)
    × (dollar_group_span (codes "$(open") ≡ 0)
unfolding cmdsubst_span arith_span dollar_group_span
spans = (refl, refl, refl, refl)

cmdsubst_span-Balanced_example : cmdsubst_span (codes "$(a(b)) c") ≡ length (codes "a(b)") + 3
cmdsubst_span-Balanced_example =
    cmdsubst_span-Balanced (codes "a(b)") (codes " c")
      (plain b'a' refl (group {inner = codes "b"} (plain b'b' refl empty) empty))
      (λ e. absurd (omega arith))

merged :
    parse_pipeline (codes "make 2>&1|grep 'a b' >out")
    ≡ ok (
        record cmd_zero { argv = codes "make" ∷ []; argv_quoted = 0 ∷ []; redir_err_to_out = true }
        ∷ record cmd_zero {
          argv = codes "grep" ∷ codes "a b" ∷ [];
          argv_quoted = 0 ∷ 1 ∷ [];
          redir_out = some (codes "out");
        }
        ∷ [])
unfolding parse_pipeline
merged = refl

refused :
    (parse_pipeline (codes "a | | b") ≡ error)
    × (parse_pipeline (codes "a |") ≡ error)
    × (parse_pipeline (codes "> f") ≡ error)
    × (parse_pipeline (codes "a 2>&2") ≡ error)
    × (parse (codes "a | b") ≡ error)
unfolding parse parse_pipeline
refused = (refl, refl, refl, refl, refl)

abbrev echo : Token
echo = record { kind = word; text = codes "echo"; quoted = 0 }

abbrev semi : Token
semi = record { kind = word; text = codes "|;>"; quoted = 1 }

abbrev wc : Token
wc = record { kind = word; text = codes "wc"; quoted = 0 }

abbrev line : Bytes
line = codes " echo '|;>' | wc"

line-Line : Line (echo ∷ semi ∷ op pipe ∷ wc ∷ []) line
line-Line = next echo (codes "echo") (bare b'e' (codes "cho") (refl, (refl, (refl, (refl, tt))))) (
    next semi (codes "'|;>'") (Print.quoted b'\'' (codes "|;>") refl (refl, (refl, (refl, tt)))) (
      next (op pipe) (codes "|") (operator pipe refl)
        (next wc (codes "wc") (bare b'w' (codes "c") (refl, (refl, tt))) end)))

parse_pipeline-Line_example :
    parse_pipeline line ≡ ok (words_cmd (echo ∷ semi ∷ []) ∷ words_cmd (wc ∷ []) ∷ [])
parse_pipeline-Line_example =
    parse_pipeline-Line (echo ∷ semi ∷ []) ((wc ∷ []) ∷ []) line ((refl, (refl, tt)), λ e. cc)
      (((refl, tt), λ e. cc), tt) line-Line

parse_pipeline_shape_example :
    (ts : List Token) × (tokenize line ≡ ok ts)
    × AreStages (words_cmd (echo ∷ semi ∷ []) ∷ words_cmd (wc ∷ []) ∷ [])
    × ((ts ≡ []) × (words_cmd (echo ∷ semi ∷ []) ∷ words_cmd (wc ∷ []) ∷ [] ≡ [])
        ⊎ (length (words_cmd (echo ∷ semi ∷ []) ∷ words_cmd (wc ∷ []) ∷ []) ≡ suc (pipes ts)))
parse_pipeline_shape_example =
    parse_pipeline_shape line (words_cmd (echo ∷ semi ∷ []) ∷ words_cmd (wc ∷ []) ∷ [])
      parse_pipeline-Line_example

wc_parsed : parse (codes "wc") ≡ ok (words_cmd (wc ∷ []))
unfolding parse
wc_parsed = refl

wc_stage : build_stage (wc ∷ []) ≡ ok (words_cmd (wc ∷ []))
unfolding build_stage build build_last
wc_stage = refl

stage-LastWins_example : LastWins (wc ∷ []) (words_cmd (wc ∷ [])) (codes "out") 0
stage-LastWins_example = stage-LastWins (wc ∷ []) (words_cmd (wc ∷ [])) (codes "out") 0 wc_stage

stage-HereDoc_example :
    (e : Cmd) × (build_stage (wc ∷ op dlessdash ∷ path_word (codes "EOF") 1 ∷ []) ≡ ok e)
    × HereDoc (words_cmd (wc ∷ [])) (codes "EOF") 1 true e
stage-HereDoc_example = stage-HereDoc (wc ∷ []) (words_cmd (wc ∷ [])) (codes "EOF") 1 true wc_stage
