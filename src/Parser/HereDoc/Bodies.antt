-- ===== src/Parser/HereDoc/Bodies.antt =====
-- The bodies that here-documents collect from the lines behind a command.
use petrush.Base.{
  suc, ◌+◌, ◌-◌, ◌≤◌, ◌<◌, ◌≡◌, refl, sym, ap, ◌∙◌, Bool, true, false, ◌||◌, Option, none, some,
  List, [], ◌∷◌, ◌++◌, append_assoc, append-nil, arith, ltb, ◌==◌, length, length-append, get_elem?,
}
use petrush.Text.{Bytes, codes, str_eq, str_eq_refl}
use petrush.Parser.Stage.{Cmd}
use petrush.Parser.HereDoc.{
  heredoc_max, FeedRc, complete, pending, failed, is_pending, cmd_heredoc_pending,
  cmd_current_delim, body_text, here_body_append, body_line, or_no_text, close_body, still,
  cmd_heredoc_feed,
}

abbrev pub go_on : FeedRc × Bool × Cmd → (Cmd → FeedRc × Cmd) → FeedRc × Cmd
go_on (pending, ate, c) next = next c
go_on (complete, ate, c) next = (complete, c)
go_on (failed, ate, c) next = (failed, c)

-- Lines are fed while the result says that the command waits.
unfoldable pub feed_all : List Bytes → Cmd → FeedRc × Cmd
unfolding cmd_heredoc_feed
feed_all [] c = (pending, c)
feed_all (line ∷ lines) c = go_on (cmd_heredoc_feed c (some line)) (feed_all lines)

-- The text of a body: each line, less its tabs for `<<-`, and a newline.
abbrev pub text_of : Bool → List Bytes → Bytes
text_of strip [] = []
text_of strip (line ∷ lines) = (body_line strip line ++ codes "\n") ++ text_of strip lines

-- No line of the body is the delimiter.
abbrev pub NoDelim : Bool → Bytes → List Bytes → Type 0
NoDelim strip delim [] = Unit
NoDelim strip delim (line ∷ lines) =
    (str_eq (body_line strip line) delim ≡ false) × NoDelim strip delim lines

abbrev with_body : Cmd → Option Bytes → Cmd
with_body c b = record c { here_body = b }

feed-text :
    (c : Cmd) (delim line : Bytes)
    → cmd_heredoc_pending c ≡ true
    → cmd_current_delim c ≡ some delim
    → str_eq (body_line c.here_strip line) delim ≡ false
    → length (body_text c.here_body) + length (body_line c.here_strip line) < heredoc_max
    → cmd_heredoc_feed c (some line) ≡ (
      pending,
      true,
      with_body c (some (body_text c.here_body ++ (body_line c.here_strip line ++ codes "\n"))),
    )
unfolding cmd_heredoc_feed here_body_append
feed-text c delim line waits current other room =
    let fits : (ltb heredoc_max (length (body_text c.here_body))
          || ltb (heredoc_max - length (body_text c.here_body))
              (length (body_line c.here_strip line))
          || ltb
              (heredoc_max - length (body_text c.here_body) - length (body_line c.here_strip line))
              1)
        ≡ false =
      ground arith in
    rw waits (rw current (rw other (rw fits refl)))

feed-delim :
    (c : Cmd) (delim line : Bytes)
    → cmd_heredoc_pending c ≡ true
    → cmd_current_delim c ≡ some delim
    → body_line c.here_strip line ≡ delim
    → cmd_heredoc_feed c (some line) ≡ still (close_body c)
unfolding cmd_heredoc_feed
feed-delim c delim line waits current same =
    rw waits (rw current (rw same (rw (str_eq_refl delim) refl)))

-- The body behind the lines, from the body before them.
abbrev grown : Bool → Option Bytes → List Bytes → Option Bytes
grown strip b [] = b
grown strip b (line ∷ lines) = some (body_text b ++ text_of strip (line ∷ lines))

grown-cons :
    (strip : Bool) (b : Option Bytes) (line : Bytes) (lines : List Bytes)
    → grown strip (some (body_text b ++ (body_line strip line ++ codes "\n"))) lines
      ≡ grown strip b (line ∷ lines)
grown-cons strip b line [] =
    ap (λ t. some (body_text b ++ t)) (sym (append-nil {0} (body_line strip line ++ codes "\n")))
grown-cons strip b line (l ∷ ls) =
    ap some
      (append_assoc {0} (body_text b) (body_line strip line ++ codes "\n") (text_of strip (l ∷ ls)))

-- Up to the delimiter the lines are collected; then the body is closed.
feed_all-close :
    (c : Cmd) (delim closing : Bytes) (lines : List Bytes)
    → cmd_heredoc_pending c ≡ true
    → cmd_current_delim c ≡ some delim
    → body_line c.here_strip closing ≡ delim
    → NoDelim c.here_strip delim lines
    → length (body_text c.here_body) + length (text_of c.here_strip lines) ≤ heredoc_max
    → feed_all (lines ++ closing ∷ []) c
      ≡ go_on
          (still (close_body (with_body c (grown c.here_strip c.here_body lines))))
          (feed_all [])
unfolding feed_all cmd_heredoc_pending cmd_current_delim
feed_all-close c delim closing [] waits current same none_of room =
    ap (λ r. go_on r (feed_all [])) (feed-delim c delim closing waits current same)
feed_all-close c delim closing (line ∷ lines) waits current same none_of room =
    let line_length = length-append {0} (body_line c.here_strip line) (codes "\n") in
    let all_length =
      length-append {0} (body_line c.here_strip line ++ codes "\n") (text_of c.here_strip lines) in
    let body_length =
      length-append {0} (body_text c.here_body) (body_line c.here_strip line ++ codes "\n") in
    ap (λ r. go_on r (feed_all (lines ++ closing ∷ [])))
      (feed-text c delim line waits current none_of.0 (omega (arith, line_length, all_length)))
    ∙ feed_all-close
        (with_body c (some (body_text c.here_body ++ (body_line c.here_strip line ++ codes "\n"))))
        delim closing lines waits current same none_of.1
        (omega (arith, line_length, all_length, body_length))
    ∙ ap (λ b. go_on (still (close_body (with_body c b))) (feed_all []))
        (grown-cons c.here_strip c.here_body line lines)

or_no_text-grown :
    (strip : Bool) (lines : List Bytes)
    → or_no_text (grown strip none lines) ≡ some (text_of strip lines)
or_no_text-grown strip [] = refl
or_no_text-grown strip (line ∷ lines) = refl

-- The here-document that a command reads: its lines, up to the first one that is the delimiter, become
-- the body, each with a newline and for `<<-` without its tabs in front, as long as the text has at
-- most 1 MiB. No line, and no other field of the command, is lost, and nothing more is waited for.
pub feed_all-Body :
    (c : Cmd) (delim closing : Bytes) (lines : List Bytes)
    → c.here_delim ≡ some delim
    → c.here_feed_i ≡ length c.here_skip_delims
    → c.here_body ≡ none
    → body_line c.here_strip closing ≡ delim
    → NoDelim c.here_strip delim lines
    → length (text_of c.here_strip lines) ≤ heredoc_max
    → feed_all (lines ++ closing ∷ []) c ≡ (
      complete,
      record c { here_body = some (text_of c.here_strip lines); here_feed_i = suc c.here_feed_i },
    )
unfolding feed_all cmd_heredoc_pending cmd_current_delim
feed_all-Body c delim closing lines delimited main no_body same none_of room =
    let waits : cmd_heredoc_pending c ≡ true = rw delimited (rw main (ground arith)) in
    let passed : ltb c.here_feed_i (length c.here_skip_delims) ≡ false = ground arith in
    let at_main : (c.here_feed_i == length c.here_skip_delims) ≡ true = ground arith in
    let current : cmd_current_delim c ≡ some delim = rw delimited (rw passed (rw at_main refl)) in
    let ended : is_pending c.here_delim (suc c.here_feed_i) (length c.here_skip_delims) ≡ false =
      rw delimited (ground arith) in
    let begun : length (body_text c.here_body) ≡ 0 = rw no_body refl in
    feed_all-close c delim closing lines waits current same none_of (omega arith)
    ∙ rw ended (rw at_main (rw no_body (rw (or_no_text-grown c.here_strip lines) refl)))

-- A here-document that is skipped, because a later one takes its place: its lines are read up to its
-- own delimiter and dropped, and then the command waits for the next one.
pub feed_all-Skipped :
    (c : Cmd) (last delim closing : Bytes) (lines : List Bytes)
    → c.here_delim ≡ some last
    → c.here_feed_i < length c.here_skip_delims
    → get_elem? c.here_skip_delims c.here_feed_i ≡ some delim
    → c.here_body ≡ none
    → body_line c.here_strip closing ≡ delim
    → NoDelim c.here_strip delim lines
    → length (text_of c.here_strip lines) ≤ heredoc_max
    → feed_all (lines ++ closing ∷ []) c
      ≡ (pending, record c { here_body = none; here_feed_i = suc c.here_feed_i })
unfolding feed_all cmd_heredoc_pending cmd_current_delim
feed_all-Skipped c last delim closing lines delimited skips entry no_body same none_of room =
    let waits : cmd_heredoc_pending c ≡ true = rw delimited (ground arith) in
    let within : ltb c.here_feed_i (length c.here_skip_delims) ≡ true = ground arith in
    let not_main : (c.here_feed_i == length c.here_skip_delims) ≡ false = ground arith in
    let current : cmd_current_delim c ≡ some delim = rw delimited (rw within entry) in
    let goes_on : is_pending c.here_delim (suc c.here_feed_i) (length c.here_skip_delims) ≡ true =
      rw delimited (ground arith) in
    let begun : length (body_text c.here_body) ≡ 0 = rw no_body refl in
    feed_all-close c delim closing lines waits current same none_of (omega arith)
    ∙ rw goes_on (rw not_main refl)
