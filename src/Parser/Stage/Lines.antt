-- ===== src/Parser/Stage/Lines.antt =====
-- A pipeline that is written with spaces between its tokens is parsed back.
use petrush.Base.{◌≡◌, ◌≢◌, refl, ◌∙◌, List, [], ◌∷◌, ◌++◌, map, append-nil, append_assoc, arith}
use petrush.Text.{Bytes}
use petrush.Parser.Result.{Result, ok, ◌>>=◌}
use petrush.Parser.Token.{Kind, word, pipe, Token, op}
use petrush.Parser.Token.Print.{Line, tokenize-Line}
use petrush.Parser.Stage.{
  Cmd, cmd_zero, build_stage, stages, stage_at, at_pipe, pipeline_of, parse_pipeline,
}
use petrush.Parser.Stage.Meaning.{AllWords, words_cmd, build-words}

-- A stage as words: at least one.
abbrev pub IsCommand : List Token → Type 0
IsCommand ts = AllWords ts × (ts ≢ [])

abbrev pub AreCommands : List (List Token) → Type 0
AreCommands [] = Unit
AreCommands (s ∷ ss) = IsCommand s × AreCommands ss

-- The tokens of the stages, with a `|` between any two.
abbrev pub piped : List Token → List (List Token) → List Token
piped s [] = s
piped s (s' ∷ ss) = s ++ op pipe ∷ piped s' ss

build_stage-words : (ts : List Token) → IsCommand ts → build_stage ts ≡ ok (words_cmd ts)
unfolding build_stage
build_stage-words [] h = absurd (h.1 refl)
build_stage-words (t ∷ ts) h = rw (build-words (t ∷ ts) cmd_zero h.0) (ground arith)

stage_at-word :
    (k : Kind) (t : Token) (seg ts : List Token) (next : List Token → Result (List Cmd))
    → k ≡ word
    → stage_at k t seg ts next ≡ next (seg ++ t ∷ [])
unfolding stage_at
stage_at-word k t seg ts next h = rw h refl

at_pipe-some :
    (s rest : List Token) (next : List Token → Result (List Cmd))
    → s ≢ []
    → rest ≢ []
    → at_pipe s rest next ≡ (build_stage s >>= λ c. next [] >>= λ cs. ok (c ∷ cs))
unfolding at_pipe
at_pipe-some [] rest next h k = absurd (h refl)
at_pipe-some (t ∷ s) [] next h k = absurd (k refl)
at_pipe-some (t ∷ s) (u ∷ rest) next h k = refl

piped-ne-nil : (s : List Token) (ss : List (List Token)) → s ≢ [] → piped s ss ≢ []
piped-ne-nil s [] h = h
piped-ne-nil [] (s' ∷ ss) h = absurd (h refl)
piped-ne-nil (t ∷ s) (s' ∷ ss) h = ground arith

-- Words are taken over into the stage that is read.
stages-words :
    (seg ts us : List Token) → AllWords ts → stages seg (ts ++ us) ≡ stages (seg ++ ts) us
unfolding stages
stages-words seg [] us h = rw (append-nil seg)
stages-words seg (t ∷ ts) us h =
    stage_at-word t.kind t seg (ts ++ us) (λ s. stages s (ts ++ us)) h.0
    ∙ stages-words (seg ++ t ∷ []) ts us h.1
    ∙ rw (append_assoc seg (t ∷ []) ts)

stages-piped :
    (s : List Token) (ss : List (List Token))
    → IsCommand s
    → AreCommands ss
    → stages [] (piped s ss) ≡ ok (words_cmd s ∷ map words_cmd ss)
unfolding stages stage_at
stages-piped s [] h hs =
    let run : stages [] s ≡ stages s [] = rw (append-nil s) at (stages-words [] s [] h.0) in
    run ∙ rw (build_stage-words s h)
stages-piped s (s' ∷ ss) h hs =
    stages-words [] s (op pipe ∷ piped s' ss) h.0
    ∙ at_pipe-some s (piped s' ss) (λ s. stages s (piped s' ss)) h.1 (piped-ne-nil s' ss hs.0.1)
    ∙ rw (build_stage-words s h, stages-piped s' ss hs.0 hs.1)

pipeline_of-some : (ts : List Token) → ts ≢ [] → pipeline_of ts ≡ stages [] ts
pipeline_of-some [] h = absurd (h refl)
pipeline_of-some (t ∷ ts) h = refl

-- A line that holds commands with pipes between them, each token written with a space before it, is
-- parsed as these commands: each has the texts of its words as its arguments, with their quoting
-- marks, and no redirection. So a quoted word never adds a stage or a redirection, whatever it holds.
pub parse_pipeline-Line :
    (s : List Token) (ss : List (List Token)) (line : Bytes)
    → IsCommand s
    → AreCommands ss
    → Line (piped s ss) line
    → parse_pipeline line ≡ ok (words_cmd s ∷ map words_cmd ss)
unfolding parse_pipeline
parse_pipeline-Line s ss line h hs l =
    rw (tokenize-Line l)
      (pipeline_of-some (piped s ss) (piped-ne-nil s ss h.1) ∙ stages-piped s ss h hs)
