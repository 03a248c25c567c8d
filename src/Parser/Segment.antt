-- ===== src/Parser/Segment.antt =====
-- The items of a list that are pipelines, and what stands behind an item (src/mid/parser.c):
-- `parse_pipeline_item` and `take_conn_after`.
pub mod Bounds
use petrush.Base.{
  ℕ, zero, suc, ◌+◌, ◌-◌, Bool, true, false, Option, none, some, List, [], ◌∷◌, ◌==◌, if◌then◌else◌,
  length, take, drop,
}
use petrush.Text.{Bytes, is_space, skip_space}
use petrush.Parser.Result.{Result, ok, ◌>>=◌}
use petrush.Parser.Stage.{Cmd, parse_pipeline}
use petrush.Parser.Connector.{RunCond, cond_always, Connector, find_list_connector}
use petrush.Parser.Keyword.{skip_ws_pos}

-- What an item leaves: the position, the condition of the next item, whether a connector was taken,
-- and whether it sends the item to the background.
pub record After : Type 0 where
  pub pos : ℕ
  pub cond : RunCond
  pub had_conn : Bool
  pub bg : Bool

abbrev pub no_conn : ℕ → After
no_conn pos = record { pos = pos; cond = cond_always; had_conn = false; bg = false }

abbrev pub past : Connector → After
past k = record { pos = k.pos + k.len; cond = k.cond; had_conn = true; bg = k.bg }

-- A byte in front of text without space at its end.
abbrev pub rtrim_cons : ℕ → Bytes → Bytes
rtrim_cons c [] = if is_space c then [] else c ∷ []
rtrim_cons c (d ∷ ds) = c ∷ d ∷ ds

-- The bytes up to the last one that is not space.
unfoldable pub rtrim : Bytes → Bytes
rtrim [] = []
rtrim (c ∷ cs) = rtrim_cons c (rtrim cs)

-- The results 0 and -2 of `parse_pipeline_item`.
pub data Segment : Type 0 where
  segment : List Cmd → After → Segment
  empty_segment : After → Segment

unfoldable pub segment_of : Bytes → After → Result Segment
unfolding parse_pipeline
segment_of [] a = ok (empty_segment a)
segment_of (c ∷ cs) a = parse_pipeline (c ∷ cs) >>= λ p. ok (segment p a)

-- The segment from `pos` to `end`, without the space around it.
abbrev pub segment_text : Bytes → ℕ → ℕ → Bytes
segment_text s pos end = rtrim (skip_space (take (end - pos) (drop pos s)))

abbrev pub segment_to : Bytes → ℕ → Option Connector → Result Segment
segment_to s pos none = segment_of (segment_text s pos (length s)) (no_conn (length s))
segment_to s pos (some k) = segment_of (segment_text s pos k.pos) (past k)

unfoldable pub parse_pipeline_item : Bytes → ℕ → Result Segment
unfolding skip_space rtrim segment_of find_list_connector
parse_pipeline_item s pos = segment_to s pos (find_list_connector s pos)

abbrev pub taken_at : ℕ → Option Connector → After
taken_at i none = no_conn i
taken_at i (some k) = if k.pos == i then past k else no_conn i

-- A connector right behind a compound command.
unfoldable pub take_conn_after : Bytes → ℕ → After
unfolding skip_ws_pos find_list_connector
take_conn_after s pos = let i = skip_ws_pos s pos in taken_at i (find_list_connector s i)
