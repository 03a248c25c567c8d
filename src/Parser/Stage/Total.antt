-- ===== src/Parser/Stage/Total.antt =====
-- The parser of a pipeline ends on every input.
use petrush.Base.{◌≢◌, List, [], ◌∷◌, arith}
use petrush.Text.{Bytes}
use petrush.Parser.Result.{Result, ok, error, out_of_fuel, ◌>>=◌, bind-ne-fuel}
use petrush.Parser.Token.{Kind, word, pipe, errtoout, Token, tokenize}
use petrush.Parser.Token.Progress.{tokenize-ne-fuel}
use petrush.Parser.Stage.{
  Cmd, cmd_zero, redirect, with_path, build_at, build_last, build, with_args, build_stage, at_pipe,
  stage_at, stages, pipeline_of, parse_pipeline, single, parse,
}

redirect-ne-fuel : (k : Kind) (u : Token) (c : Cmd) → redirect k u c ≢ out_of_fuel
unfolding redirect
redirect-ne-fuel k u c = ground arith

with_path-ne-fuel :
    (k uk : Kind) (u : Token) (after : Cmd → Result Cmd) (c : Cmd)
    → ((e : Cmd) → after e ≢ out_of_fuel)
    → with_path k u uk after c ≢ out_of_fuel
with_path-ne-fuel k word u after c h =
    bind-ne-fuel (redirect k u c) after (redirect-ne-fuel k u c) (λ e _. h e)
with_path-ne-fuel k _ u after c h = λ e. cc

build_at-ne-fuel :
    (k : Kind) (t u : Token) (here after : Cmd → Result Cmd) (c : Cmd)
    → ((e : Cmd) → here e ≢ out_of_fuel)
    → ((e : Cmd) → after e ≢ out_of_fuel)
    → build_at k t u here after c ≢ out_of_fuel
unfolding build_at
build_at-ne-fuel word t u here after c h a = h _
build_at-ne-fuel errtoout t u here after c h a = h _
build_at-ne-fuel pipe t u here after c h a = λ e. cc
build_at-ne-fuel _ t u here after c h a = with_path-ne-fuel _ u.kind u after c a

build_last-ne-fuel : (k : Kind) (t : Token) (c : Cmd) → build_last k t c ≢ out_of_fuel
unfolding build_last
build_last-ne-fuel word t c = λ e. cc
build_last-ne-fuel _ t c = λ e. cc

build-ne-fuel : (ts : List Token) (c : Cmd) → build ts c ≢ out_of_fuel
unfolding build
build-ne-fuel [] c = λ e. cc
build-ne-fuel (t ∷ []) c = build_last-ne-fuel t.kind t c
build-ne-fuel (t ∷ u ∷ ts) c =
    build_at-ne-fuel t.kind t u (build (u ∷ ts)) (build ts) c (build-ne-fuel (u ∷ ts))
      (build-ne-fuel ts)

build_stage-ne-fuel : (ts : List Token) → build_stage ts ≢ out_of_fuel
unfolding build_stage
build_stage-ne-fuel ts =
    bind-ne-fuel (build ts cmd_zero) with_args (build-ne-fuel ts cmd_zero) (λ c _. ground arith)

at_pipe-ne-fuel :
    (seg ts : List Token) (next : List Token → Result (List Cmd))
    → ((s : List Token) → next s ≢ out_of_fuel)
    → at_pipe seg ts next ≢ out_of_fuel
unfolding at_pipe
at_pipe-ne-fuel [] ts next h = λ e. cc
at_pipe-ne-fuel (s ∷ seg) [] next h =
    bind-ne-fuel (build_stage (s ∷ seg)) (λ c. error) (build_stage-ne-fuel (s ∷ seg)) (λ c _ e. cc)
at_pipe-ne-fuel (s ∷ seg) (t ∷ ts) next h =
    bind-ne-fuel (build_stage (s ∷ seg)) (λ c. next [] >>= λ cs. ok (c ∷ cs))
      (build_stage-ne-fuel (s ∷ seg))
      (λ c _. bind-ne-fuel (next []) (λ cs. ok (c ∷ cs)) (h []) (λ cs _ e. cc))

stage_at-ne-fuel :
    (k : Kind) (t : Token) (seg ts : List Token) (next : List Token → Result (List Cmd))
    → ((s : List Token) → next s ≢ out_of_fuel)
    → stage_at k t seg ts next ≢ out_of_fuel
unfolding stage_at
stage_at-ne-fuel pipe t seg ts next h = at_pipe-ne-fuel seg ts next h
stage_at-ne-fuel _ t seg ts next h = h _

stages-ne-fuel : (seg ts : List Token) → stages seg ts ≢ out_of_fuel
unfolding stages
stages-ne-fuel seg [] =
    bind-ne-fuel (build_stage seg) (λ c. ok (c ∷ [])) (build_stage-ne-fuel seg) (λ c _ e. cc)
stages-ne-fuel seg (t ∷ ts) =
    stage_at-ne-fuel t.kind t seg ts (λ s. stages s ts) (λ s. stages-ne-fuel s ts)

pipeline_of-ne-fuel : (ts : List Token) → pipeline_of ts ≢ out_of_fuel
pipeline_of-ne-fuel [] = λ e. cc
pipeline_of-ne-fuel (t ∷ ts) = stages-ne-fuel [] (t ∷ ts)

single-ne-fuel : (cs : List Cmd) → single cs ≢ out_of_fuel
single-ne-fuel [] = λ e. cc
single-ne-fuel (c ∷ []) = λ e. cc
single-ne-fuel (c ∷ d ∷ cs) = λ e. cc

-- Parsing a pipeline, and parsing one command, end on every input with a value or the error -1:
-- one round of the tokenizer for each byte is enough.
pub parse-ne-fuel :
    (input : Bytes) → (parse_pipeline input ≢ out_of_fuel) × (parse input ≢ out_of_fuel)
unfolding parse_pipeline parse
parse-ne-fuel input =
    let whole =
      bind-ne-fuel (tokenize input) pipeline_of (tokenize-ne-fuel input)
        (λ ts _. pipeline_of-ne-fuel ts) in
    (whole, bind-ne-fuel (parse_pipeline input) single whole (λ cs _. single-ne-fuel cs))
