-- ===== src/Parser/HereDoc.antt =====
-- Feeding lines to the here-documents of a command and of a pipeline (src/mid/parser.c).
pub mod Bodies
use petrush.Base.{
  ℕ, suc, ◌+◌, ◌-◌, Bool, true, false, not, ◌||◌, Option, none, some, List, [], ◌∷◌, ◌++◌, ltb,
  ◌==◌, if◌then◌else◌, length, get_elem?,
}
use petrush.Text.{Bytes, codes, str_eq}
use petrush.Parser.Stage.{Cmd}

-- PETRUSH_HEREDOC_MAX.
abbrev pub heredoc_max : ℕ
heredoc_max = 1048576

-- The results 0, 1 and -1.
pub data FeedRc : Type 0 where
  complete pending failed : FeedRc

abbrev pub is_pending : Option Bytes → ℕ → ℕ → Bool
is_pending none feed_i skip_n = false
is_pending (some d) feed_i skip_n = ltb feed_i (skip_n + 1)

unfoldable pub cmd_heredoc_pending : Cmd → Bool
cmd_heredoc_pending c = is_pending c.here_delim c.here_feed_i (length c.here_skip_delims)

abbrev pub delim_of : Option Bytes → ℕ → List Bytes → Option Bytes
delim_of none feed_i skips = none
delim_of (some d) feed_i skips =
    if ltb feed_i (length skips)
    then get_elem? skips feed_i
    else if feed_i == length skips
    then some d
    else none

unfoldable pub cmd_current_delim : Cmd → Option Bytes
cmd_current_delim c = delim_of c.here_delim c.here_feed_i c.here_skip_delims

abbrev pub body_text : Option Bytes → Bytes
body_text none = []
body_text (some b) = b

-- `none` is the result -1.
unfoldable pub here_body_append : Bytes → Cmd → Option Cmd
here_body_append line c =
    if ltb heredoc_max (length (body_text c.here_body))
      || ltb (heredoc_max - length (body_text c.here_body)) (length line)
      || ltb (heredoc_max - length (body_text c.here_body) - length line) 1
    then none
    else some (record c { here_body = some (body_text c.here_body ++ (line ++ codes "\n")) })

unfoldable pub skip_tabs : Bytes → Bytes
skip_tabs [] = []
skip_tabs (b ∷ bs) = if b == 9 then skip_tabs bs else b ∷ bs

-- The line that is compared and kept: `<<-` takes the tabs in front away.
unfoldable pub body_line : Bool → Bytes → Bytes
unfolding skip_tabs
body_line strip line = if strip then skip_tabs line else line

abbrev pub or_no_text : Option Bytes → Option Bytes
or_no_text none = some []
or_no_text (some b) = some b

-- The delimiter was read: the text of a skipped document is dropped, an absent one is empty.
abbrev pub close_body : Cmd → Cmd
close_body c = record c {
  here_body = if c.here_feed_i == length c.here_skip_delims then or_no_text c.here_body else none;
  here_feed_i = suc c.here_feed_i;
}

abbrev pub still : Cmd → FeedRc × Bool × Cmd
still c = (if cmd_heredoc_pending c then pending else complete, true, c)

abbrev pub appended : Cmd → Option Cmd → FeedRc × Bool × Cmd
appended c none = (failed, true, c)
appended c (some c') = (pending, true, c')

abbrev pub feed_to : Cmd → Bytes → Option Bytes → FeedRc × Bool × Cmd
feed_to c line none = (failed, false, c)
feed_to c line (some delim) =
    if str_eq (body_line c.here_strip line) delim
    then still (close_body c)
    else appended c (here_body_append (body_line c.here_strip line) c)

abbrev pub feed_line : Cmd → Option Bytes → FeedRc × Bool × Cmd
feed_line c none = (failed, false, c)
feed_line c (some line) = feed_to c line (cmd_current_delim c)

-- The result, whether the line was taken, and the command after it; no line is the end of the input.
unfoldable pub cmd_heredoc_feed : Cmd → Option Bytes → FeedRc × Bool × Cmd
unfolding cmd_heredoc_pending cmd_current_delim here_body_append body_line
cmd_heredoc_feed c line =
    if not (cmd_heredoc_pending c) then (complete, false, c) else feed_line c line

-- The pipeline branch of `item_heredoc_pending`.
unfoldable pub pipeline_heredoc_pending : List Cmd → Bool
pipeline_heredoc_pending [] = false
pipeline_heredoc_pending (c ∷ cs) = cmd_heredoc_pending c || pipeline_heredoc_pending cs

abbrev pub behind : Cmd → FeedRc × Bool × List Cmd → FeedRc × Bool × List Cmd
behind c (rc, ate, cs) = (rc, ate, c ∷ cs)

abbrev pub in_front : List Cmd → FeedRc × Bool × Cmd → FeedRc × Bool × List Cmd
in_front cs (rc, ate, c) = (rc, ate, c ∷ cs)

-- The pipeline branch of `item_heredoc_feed`: the first command that waits takes the line.
unfoldable pub pipeline_heredoc_feed : List Cmd → Option Bytes → FeedRc × Bool × List Cmd
unfolding cmd_heredoc_feed
pipeline_heredoc_feed [] line = (complete, false, [])
pipeline_heredoc_feed (c ∷ cs) line =
    let later = behind c (pipeline_heredoc_feed cs line) in
    if not (cmd_heredoc_pending c) then later else in_front cs (cmd_heredoc_feed c line)
