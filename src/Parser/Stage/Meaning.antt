-- ===== src/Parser/Stage/Meaning.antt =====
-- What the tokens of a stage mean: arguments in order, and the last redirection wins.
use petrush.Base.{
  ℕ, ◌≡◌, ◌≢◌, ◌↔◌, refl, ◌∙◌, Bool, true, false, none, some, List, [], ◌∷◌, ◌++◌, append-nil,
  append_assoc, arith, if◌then◌else◌,
}
use petrush.Text.{Bytes}
use petrush.Parser.Result.{Result, ok, bind-ok}
use petrush.Parser.Token.{
  Kind, word, pipe, lt, dless, dlessdash, gt, gtgt, errgt, errgtgt, errtoout, ampgt, Token, op,
}
use petrush.Parser.Stage.{
  Cmd, cmd_zero, push_arg, merge_err, redirect, build, build_at, build_last, with_path, with_args,
  build_stage, here_doc, input_from, output_to, error_to, both_to,
}
use petrush.Parser.Stage.Shape.{Built, done, arg, merge, path, build-Built}

abbrev pub AllWords : List Token → Type 0
AllWords [] = Unit
AllWords (t ∷ ts) = (t.kind ≡ word) × AllWords ts

abbrev pub texts : List Token → List Bytes
texts [] = []
texts (t ∷ ts) = t.text ∷ texts ts

abbrev pub marks : List Token → List ℕ
marks [] = []
marks (t ∷ ts) = t.quoted ∷ marks ts

abbrev with_words : List Token → Cmd → Cmd
with_words ts c = record c { argv = c.argv ++ texts ts; argv_quoted = c.argv_quoted ++ marks ts }

-- The command of a stage that holds words alone.
abbrev pub words_cmd : List Token → Cmd
words_cmd ts = record cmd_zero { argv = texts ts; argv_quoted = marks ts }

-- The round of a word, whatever follows.
build_word :
    (t : Token) (ts : List Token) (c : Cmd)
    → t.kind ≡ word
    → build (t ∷ ts) c ≡ build ts (push_arg t c)
unfolding build build_last build_at
build_word t [] c h = rw h refl
build_word t (u ∷ ts) c h = rw h refl

build_merge :
    (t : Token) (ts : List Token) (c : Cmd)
    → t.kind ≡ errtoout
    → build (t ∷ ts) c ≡ build ts (merge_err c)
unfolding build build_last build_at
build_merge t [] c h = rw h refl
build_merge t (u ∷ ts) c h = rw h refl

redirect-not_op :
    (k : Kind) (u : Token) (c e : Cmd)
    → redirect k u c ≡ ok e
    → (k ≢ word) × (k ≢ pipe) × (k ≢ errtoout)
unfolding redirect
redirect-not_op k u c e r = ground arith

with_path-word :
    (k : Kind) (u : Token) (uk : Kind) (after : Cmd → Result Cmd) (c e : Cmd)
    → uk ≡ word
    → redirect k u c ≡ ok e
    → with_path k u uk after c ≡ after e
with_path-word k u uk after c e h r = rw h (rw r)

build_at-path :
    (k : Kind) (t u : Token) (here after : Cmd → Result Cmd) (c e : Cmd)
    → u.kind ≡ word
    → redirect k u c ≡ ok e
    → build_at k t u here after c ≡ after e
unfolding build_at
build_at-path word t u here after c e h r = absurd ((redirect-not_op word u c e r).0 refl)
build_at-path pipe t u here after c e h r = absurd ((redirect-not_op pipe u c e r).1 refl)
build_at-path errtoout t u here after c e h r = absurd ((redirect-not_op errtoout u c e r).2 refl)
build_at-path _ t u here after c e h r = with_path-word _ u u.kind after c e h r

-- The round of a redirection and its word, whatever follows.
build_path :
    (t u : Token) (ts : List Token) (c e : Cmd)
    → u.kind ≡ word
    → redirect t.kind u c ≡ ok e
    → build (t ∷ u ∷ ts) c ≡ build ts e
unfolding build
build_path t u ts c e h r = build_at-path t.kind t u (build (u ∷ ts)) (build ts) c e h r

pub build-words : (ts : List Token) (c : Cmd) → AllWords ts → build ts c ≡ ok (with_words ts c)
unfolding build
build-words [] c h = rw (append-nil c.argv, append-nil c.argv_quoted)
build-words (t ∷ ts) c h =
    build_word t ts c h.0
    ∙ build-words ts (push_arg t c) h.1
    ∙ rw (
      append_assoc c.argv (t.text ∷ []) (texts ts),
      append_assoc c.argv_quoted (t.quoted ∷ []) (marks ts),
    )

-- Tokens that build `d` may be followed by more, which then start from `d`.
build-append :
    {ts : List Token} {c d : Cmd} (us : List Token) → Built ts c d → build (ts ++ us) c ≡ build us d
build-append us done = refl
build-append us (arg {t} {ts} {c} k b) = build_word t (ts ++ us) c k ∙ build-append us b
build-append us (merge {t} {ts} {c} k b) = build_merge t (ts ++ us) c k ∙ build-append us b
build-append us (path {t} {u} {ts} {c} {e} k r b) =
    build_path t u (ts ++ us) c e k r ∙ build-append us b

build-then_path :
    (ts : List Token) (t u : Token) (d e : Cmd)
    → build_stage ts ≡ ok d
    → u.kind ≡ word
    → redirect t.kind u d ≡ ok e
    → e.argv ≡ d.argv
    → build_stage (ts ++ t ∷ u ∷ []) ≡ ok e
unfolding build_stage
build-then_path ts t u d e h k r same =
    let (d', b, w) = bind-ok (build ts cmd_zero) with_args h in
    let full : d ≡ d' = ground arith in
    let r' : redirect t.kind u d' ≡ ok e = rw full at r in
    let run =
      build-append (t ∷ u ∷ []) (build-Built ts cmd_zero d' b) ∙ build_path t u [] d' e k r' in
    rw run (unfold build in ground arith)

build-then_merge :
    (ts : List Token) (d : Cmd)
    → build_stage ts ≡ ok d
    → build_stage (ts ++ op errtoout ∷ []) ≡ ok (merge_err d)
unfolding build_stage
build-then_merge ts d h =
    let (d', b, w) = bind-ok (build ts cmd_zero) with_args h in
    let full : d ≡ d' = ground arith in
    let run =
      build-append (op errtoout ∷ []) (build-Built ts cmd_zero d' b)
      ∙ build_merge (op errtoout) [] d' refl in
    rw run (unfold build in ground arith)

abbrev pub path_word : Bytes → ℕ → Token
path_word text quoted = record { kind = word; text = text; quoted = quoted }

-- What the stage `ts`, which builds `d`, builds with one more redirection to `p` at its end.
pub record LastWins (ts : List Token) (d : Cmd) (p : Bytes) (q : ℕ) : Type 0 where
  pub out :
      build_stage (ts ++ op gt ∷ path_word p q ∷ [])
      ≡ ok (record d { redir_out = some p; redir_append = false })
  pub append :
      build_stage (ts ++ op gtgt ∷ path_word p q ∷ [])
      ≡ ok (record d { redir_out = some p; redir_append = true })
  pub errors :
      build_stage (ts ++ op errgt ∷ path_word p q ∷ [])
      ≡ ok (record d { redir_err = some p; redir_err_append = false; redir_err_to_out = false })
  pub append_errors :
      build_stage (ts ++ op errgtgt ∷ path_word p q ∷ [])
      ≡ ok (record d { redir_err = some p; redir_err_append = true; redir_err_to_out = false })
  pub merged :
      build_stage (ts ++ op errtoout ∷ [])
      ≡ ok (record d { redir_err = none; redir_err_append = false; redir_err_to_out = true })
  pub both :
      build_stage (ts ++ op ampgt ∷ path_word p q ∷ [])
      ≡ ok (record d {
        redir_out = some p;
        redir_append = false;
        redir_err = none;
        redir_err_append = false;
        redir_err_to_out = true;
      })
  pub input :
      build_stage (ts ++ op lt ∷ path_word p q ∷ [])
      ≡ ok (record d {
        redir_in = some p;
        here_delim = none;
        here_body = none;
        here_quoted = false;
        here_strip = false;
        here_skip_delims = [];
        here_feed_i = 0;
      })

-- A redirection at the end of a stage replaces the earlier ones of its stream and leaves the rest of
-- the command alone: `>` and `>>` the output's file and its flag; `2>`, `2>>` the errors' file and
-- the merging of errors into the output; `2>&1` the errors' file; `&>` both; `<` the input's file
-- and any here-document, those to be skipped included.
pub stage-LastWins :
    (ts : List Token) (d : Cmd) (p : Bytes) (q : ℕ) → build_stage ts ≡ ok d → LastWins ts d p q
unfolding redirect
stage-LastWins ts d p q h =
    let u = path_word p q in
    record {
      out = build-then_path ts (op gt) u d (output_to false u d) h refl refl refl;
      append = build-then_path ts (op gtgt) u d (output_to true u d) h refl refl refl;
      errors = build-then_path ts (op errgt) u d (error_to false u d) h refl refl refl;
      append_errors = build-then_path ts (op errgtgt) u d (error_to true u d) h refl refl refl;
      merged = build-then_merge ts d h;
      both = build-then_path ts (op ampgt) u d (both_to u d) h refl refl refl;
      input = build-then_path ts (op lt) u d (input_from u d) h refl refl refl;
    }

-- The command `e` that comes of `d` by a here-document with the delimiter `p`.
pub record HereDoc (d : Cmd) (p : Bytes) (q : ℕ) (strip : Bool) (e : Cmd) : Type 0 where
  pub same_args : (e.argv ≡ d.argv) × (e.redir_out ≡ d.redir_out) × (e.redir_err ≡ d.redir_err)
  pub no_file : e.redir_in ≡ none
  pub delimiter : (e.here_delim ≡ some p) × (e.here_body ≡ none)
  pub strips : e.here_strip ≡ strip
  pub literal : (e.here_quoted ≡ false) ↔ (q ≡ 0)
  pub skips_old :
      (old : Bytes) → d.here_delim ≡ some old → e.here_skip_delims ≡ d.here_skip_delims ++ old ∷ []
  pub skips_same : d.here_delim ≡ none → e.here_skip_delims ≡ d.here_skip_delims

here_doc-HereDoc :
    (strip : Bool) (p : Bytes) (q : ℕ) (d : Cmd)
    → HereDoc d p q strip (here_doc strip (path_word p q) d)
here_doc-HereDoc strip p q d = record {
  same_args = (refl, refl, refl);
  no_file = refl;
  delimiter = (refl, refl);
  strips = refl;
  literal = ground arith;
  skips_old = λ old e. rw e refl;
  skips_same = λ e. rw e refl;
}

-- A here-document at the end of a stage takes the input from a file or an earlier here-document,
-- whose delimiter is then the last of those to skip; `<<-` asks for tabs to be stripped, and the body
-- is literal where the delimiter was quoted. The arguments and the files of the output stay.
pub stage-HereDoc :
    (ts : List Token) (d : Cmd) (p : Bytes) (q : ℕ) (strip : Bool)
    → build_stage ts ≡ ok d
    → (e : Cmd) × (build_stage (ts ++ op (if strip then dlessdash else dless) ∷ path_word p q ∷ [])
        ≡ ok e)
      × HereDoc d p q strip e
unfolding redirect
stage-HereDoc ts d p q false h =
    let u = path_word p q in
    (
      here_doc false u d,
      build-then_path ts (op dless) u d (here_doc false u d) h refl refl refl,
      here_doc-HereDoc false p q d,
    )
stage-HereDoc ts d p q true h =
    let u = path_word p q in
    (
      here_doc true u d,
      build-then_path ts (op dlessdash) u d (here_doc true u d) h refl refl refl,
      here_doc-HereDoc true p q d,
    )
