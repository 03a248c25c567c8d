-- ===== src/Parser/Stage/Shape.antt =====
-- The invariant of the commands that the parser builds.
use petrush.Base.{
  ℕ, suc, ◌+◌, ◌≡◌, ◌≢◌, ◌⊎◌, refl, true, false, none, List, [], ◌∷◌, ◌++◌, arith, length, inl, inr,
  length-append,
}
use petrush.Text.{Bytes}
use petrush.Parser.Result.{Result, ok, error, ◌>>=◌, bind-ok}
use petrush.Parser.Token.{Kind, word, pipe, errtoout, Token, tokenize}
use petrush.Parser.Stage.{
  Cmd, cmd_zero, push_arg, merge_err, redirect, build, build_at, build_last, with_path, at_pipe,
  stage_at, with_args, build_stage, stages, pipeline_of, parse_pipeline, parse, single,
}

-- The fields agree: a quoting mark for each argument; input from a file or from a here-document;
-- errors to a file or to the output; no flag without the file that it is about; a here-document
-- that is skipped stands before one that is read; no body is there yet.
pub record IsCmd (c : Cmd) : Type 0 where
  pub parallel : length c.argv_quoted ≡ length c.argv
  pub one_input : (c.redir_in ≡ none) ⊎ (c.here_delim ≡ none)
  pub one_error : (c.redir_err ≡ none) ⊎ (c.redir_err_to_out ≡ false)
  pub append_to : c.redir_append ≡ true → c.redir_out ≢ none
  pub append_err_to : c.redir_err_append ≡ true → c.redir_err ≢ none
  pub skipped_before : (c.here_delim ≡ none) → (c.here_skip_delims ≡ [])
  pub pending : (c.here_body ≡ none) × (c.here_feed_i ≡ 0)

cmd_zero-IsCmd : IsCmd cmd_zero
cmd_zero-IsCmd = ground arith

push_arg-IsCmd : (t : Token) (c : Cmd) → IsCmd c → IsCmd (push_arg t c)
push_arg-IsCmd t c v = record {
  parallel = omega (
    arith,
    length-append {0} c.argv (t.text ∷ []),
    length-append {0} c.argv_quoted (t.quoted ∷ []),
    v.parallel,
  );
  one_input = v.one_input;
  one_error = v.one_error;
  append_to = v.append_to;
  append_err_to = v.append_err_to;
  skipped_before = v.skipped_before;
  pending = v.pending;
}

merge_err-IsCmd : (c : Cmd) → IsCmd c → IsCmd (merge_err c)
merge_err-IsCmd c v = ground arith

redirect-IsCmd : (k : Kind) (u : Token) (c d : Cmd) → IsCmd c → redirect k u c ≡ ok d → IsCmd d
unfolding redirect
redirect-IsCmd _ u c d v h = ground arith

-- The rounds of `build` that lead from one command to another.
pub data Built : List Token → Cmd → Cmd → Type 0 where
  done : {c : Cmd} → Built [] c c
  arg :
      {t : Token} {ts : List Token} {c d : Cmd}
      → t.kind ≡ word
      → Built ts (push_arg t c) d
      → Built (t ∷ ts) c d
  merge :
      {t : Token} {ts : List Token} {c d : Cmd}
      → t.kind ≡ errtoout
      → Built ts (merge_err c) d
      → Built (t ∷ ts) c d
  path :
      {t u : Token} {ts : List Token} {c e d : Cmd}
      → u.kind ≡ word
      → redirect t.kind u c ≡ ok e
      → Built ts e d
      → Built (t ∷ u ∷ ts) c d

Built-same : {c d : Cmd} → ok c ≡ ok d → Built [] c d
Built-same {c} h = let e : c ≡ _ = ground arith in rw e done

with_path-Built :
    (k uk : Kind) (t u : Token) (ts : List Token) (c d : Cmd) (after : Cmd → Result Cmd)
    → t.kind ≡ k
    → u.kind ≡ uk
    → ((e : Cmd) → after e ≡ ok d → Built ts e d)
    → with_path k u uk after c ≡ ok d
    → Built (t ∷ u ∷ ts) c d
with_path-Built k word t u ts c d after tk uk ih h =
    let (e, r, a) = bind-ok (redirect k u c) after h in path uk (rw tk r) (ih e a)
with_path-Built k _ t u ts c d after tk uk ih h = absurd (ground arith)

build_at-Built :
    (k : Kind) (t u : Token) (ts : List Token) (c d : Cmd)
    → t.kind ≡ k
    → ((c' : Cmd) → build (u ∷ ts) c' ≡ ok d → Built (u ∷ ts) c' d)
    → ((c' : Cmd) → build ts c' ≡ ok d → Built ts c' d)
    → build_at k t u (build (u ∷ ts)) (build ts) c ≡ ok d
    → Built (t ∷ u ∷ ts) c d
unfolding build_at
build_at-Built word t u ts c d e here after h = arg e (here (push_arg t c) h)
build_at-Built errtoout t u ts c d e here after h = merge e (here (merge_err c) h)
build_at-Built pipe t u ts c d e here after h = absurd (ground arith)
build_at-Built k t u ts c d e here after h =
    with_path-Built _ u.kind t u ts c d (build ts) e refl after h

build_last-Built :
    (k : Kind) (t : Token) (c d : Cmd) → t.kind ≡ k → build_last k t c ≡ ok d → Built (t ∷ []) c d
unfolding build_last
build_last-Built word t c d e h = arg e (Built-same h)
build_last-Built errtoout t c d e h = merge e (Built-same h)
build_last-Built _ t c d e h = absurd (ground arith)

pub build-Built : (ts : List Token) (c d : Cmd) → build ts c ≡ ok d → Built ts c d
unfolding build
build-Built [] c d h = Built-same h
build-Built (t ∷ []) c d h = build_last-Built t.kind t c d refl h
build-Built (t ∷ u ∷ ts) c d h =
    build_at-Built t.kind t u ts c d refl (λ c'. build-Built (u ∷ ts) c' d)
      (λ c'. build-Built ts c' d) h

Built-IsCmd : {ts : List Token} {c d : Cmd} → IsCmd c → Built ts c d → IsCmd d
Built-IsCmd v done = v
Built-IsCmd v (arg {t} {c} k b) = Built-IsCmd (push_arg-IsCmd t c v) b
Built-IsCmd v (merge {c} k b) = Built-IsCmd (merge_err-IsCmd c v) b
Built-IsCmd v (path {t} {u} {c} {e} k r b) = Built-IsCmd (redirect-IsCmd t.kind u c e v r) b

-- What a stage of a pipeline is.
pub record IsStage (c : Cmd) : Type 0 where
  pub shape : IsCmd c
  pub has_command : c.argv ≢ []

abbrev pub AreStages : List Cmd → Type 0
AreStages [] = Unit
AreStages (c ∷ cs) = IsStage c × AreStages cs

build_stage-IsStage : (ts : List Token) (d : Cmd) → build_stage ts ≡ ok d → IsStage d
unfolding build_stage
build_stage-IsStage ts d h =
    let (e, b, w) = bind-ok (build ts cmd_zero) with_args h in
    let same : d ≡ e = ground arith in
    rw same (record {
      shape = Built-IsCmd cmd_zero-IsCmd (build-Built ts cmd_zero e b);
      has_command = λ none_left. ground arith;
    })

-- The number of `|` among the tokens.
abbrev pub pipe_in : Kind → ℕ
pipe_in pipe = 1
pipe_in _ = 0

abbrev pub pipes : List Token → ℕ
pipes [] = 0
pipes (t ∷ ts) = pipe_in t.kind + pipes ts

-- What a run of `stages` over tokens with `n` pipes gives.
abbrev Stages : ℕ → List Cmd → Type 0
Stages n cs = AreStages cs × (length cs ≡ suc n)

single-Stages :
    (seg : List Token) (cs : List Cmd)
    → (build_stage seg >>= λ c. ok (c ∷ [])) ≡ ok cs
    → Stages 0 cs
single-Stages seg cs h =
    let (c, b, e) = bind-ok (build_stage seg) (λ c. ok (c ∷ [])) h in
    let same : cs ≡ c ∷ [] = ground arith in rw same ((build_stage-IsStage seg c b, tt), refl)

at_pipe-Stages :
    (n : ℕ) (seg ts : List Token) (next : List Token → Result (List Cmd)) (cs : List Cmd)
    → ((s : List Token) (ds : List Cmd) → next s ≡ ok ds → Stages n ds)
    → at_pipe seg ts next ≡ ok cs
    → Stages (1 + n) cs
unfolding at_pipe
at_pipe-Stages n [] ts next cs ih h = absurd (ground arith)
at_pipe-Stages n (s ∷ seg) [] next cs ih h =
    let (c, b, e) = bind-ok (build_stage (s ∷ seg)) (λ c. error) h in absurd (ground arith)
at_pipe-Stages n (s ∷ seg) (t ∷ ts) next cs ih h =
    let (c, b, e) = bind-ok (build_stage (s ∷ seg)) (λ c. next [] >>= λ ds. ok (c ∷ ds)) h in
    let (ds, b', e') = bind-ok (next []) (λ ds. ok (c ∷ ds)) e in
    let same : cs ≡ c ∷ ds = ground arith in
    let (rest, len) = ih [] ds b' in
    rw same ((build_stage-IsStage (s ∷ seg) c b, rest), omega arith)

stage_at-Stages :
    (k : Kind) (n : ℕ) (t : Token) (seg ts : List Token) (next : List Token → Result (List Cmd))
    (cs : List Cmd)
    → ((s : List Token) (ds : List Cmd) → next s ≡ ok ds → Stages n ds)
    → stage_at k t seg ts next ≡ ok cs
    → Stages (pipe_in k + n) cs
unfolding stage_at
stage_at-Stages pipe n t seg ts next cs ih h = at_pipe-Stages n seg ts next cs ih h
stage_at-Stages _ n t seg ts next cs ih h = let (a, l) = ih (seg ++ t ∷ []) cs h in (a, omega arith)

pub stages-Stages :
    (seg ts : List Token) (cs : List Cmd)
    → stages seg ts ≡ ok cs
    → AreStages cs × (length cs ≡ suc (pipes ts))
unfolding stages
stages-Stages seg [] cs h = single-Stages seg cs h
stages-Stages seg (t ∷ ts) cs h =
    stage_at-Stages t.kind (pipes ts) t seg ts (λ s. stages s ts) cs (λ s ds. stages-Stages s ts ds)
      h

-- What `petrush_parse_pipeline` accepts is no stage at all, for a text with no token, or one stage
-- for each part between pipes; every stage has a command word, and its fields agree.
pub parse_pipeline_shape :
    (input : Bytes) (cs : List Cmd)
    → parse_pipeline input ≡ ok cs
    → (ts : List Token) × (tokenize input ≡ ok ts)
      × AreStages cs
      × ((ts ≡ []) × (cs ≡ []) ⊎ (length cs ≡ suc (pipes ts)))
unfolding parse_pipeline
parse_pipeline_shape input cs h =
    let (ts, e, p) = bind-ok (tokenize input) pipeline_of h in
    let (a, o) = pipeline_shape ts p in (ts, e, a, o)
  where
    pipeline_shape :
        (ts : List Token)
        → pipeline_of ts ≡ ok cs
        → AreStages cs × ((ts ≡ []) × (cs ≡ []) ⊎ (length cs ≡ suc (pipes ts)))
    pipeline_shape [] p = let same : cs ≡ [] = ground arith in (rw same tt, inl (refl, same))
    pipeline_shape (t ∷ ts) p = let (a, l) = stages-Stages [] (t ∷ ts) cs p in (a, inr l)

-- The parser of one command takes nothing, or a stage; a line with a `|` is refused.
pub parse_shape : (input : Bytes) (c : Cmd) → parse input ≡ ok c → (c ≡ cmd_zero) ⊎ IsStage c
unfolding parse
parse_shape input c h =
    let (cs, e, s) = bind-ok (parse_pipeline input) single h in
    let (ts, _, a, _) = parse_pipeline_shape input cs e in only cs s a
  where
    only : (cs : List Cmd) → single cs ≡ ok c → AreStages cs → (c ≡ cmd_zero) ⊎ IsStage c
    only [] s a = inl (ground arith)
    only (d ∷ []) s a = let same : c ≡ d = ground arith in inr (rw same a.0)
    only (d ∷ d' ∷ cs) s a = absurd (ground arith)
