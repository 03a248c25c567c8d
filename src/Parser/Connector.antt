-- ===== src/Parser/Connector.antt =====
-- `find_list_connector` (src/mid/parser.c): the next `&&`, `||`, `;` or `&` of a list.
pub mod Found
use petrush.Base.{
  ℕ, zero, suc, ◌+◌, ◌-◌, Bool, true, false, not, ◌&&◌, ◌||◌, Option, none, some, List, [], ◌∷◌,
  ltb, ◌==◌, if◌then◌else◌, drop,
}
use petrush.Text.{Bytes, at}
use petrush.Parser.Span.{is_quote}
use petrush.Parser.Token.{group_rest}

-- `petrush_run_cond_t`: when the item behind a connector runs.
pub data RunCond : Type 0 where
  cond_always cond_and cond_or : RunCond

-- `len` is the number of bytes that the connector takes, `bg` marks a lone `&`.
pub record Connector : Type 0 where
  pub pos : ℕ
  pub cond : RunCond
  pub len : ℕ
  pub bg : Bool

-- The connector at the unquoted byte `c`, which is byte `i`, with `before2` and `before1` before it
-- and `cs` behind it.
unfoldable pub connector_at : ℕ → ℕ → ℕ → Bytes → ℕ → Option Connector
connector_at before2 before1 c cs i =
    if c == b'&' && at cs 0 == b'&'
    then some (record { pos = i; cond = cond_and; len = 2; bg = false })
    else if c == b'|' && at cs 0 == b'|'
    then some (record { pos = i; cond = cond_or; len = 2; bg = false })
    else if c == b';'
    then (if at cs 0 == b';'
        then some (record { pos = i; cond = cond_always; len = 0; bg = false })
        else some (record { pos = i; cond = cond_always; len = 1; bg = false }))
    else if c == b'&' && at cs 0 == b'>'
    then none
    else if c == b'&'
    then (if before2 == b'2' && before1 == b'>' && at cs 0 == b'1'
        then none
        else some (record { pos = i; cond = cond_always; len = 1; bg = true }))
    else none

-- The open quote behind the byte `c`.
abbrev pub quote_after : ℕ → ℕ → ℕ
quote_after quote c =
    if quote == 0 then (if is_quote c then c else 0) else if c == quote then 0 else quote

-- The result where the byte itself gives `found` and the rest of the text gives `more`.
abbrev pub first_of : Option Connector → Option Connector → Option Connector
first_of none more = more
first_of (some k) more = some k

-- The byte is neither quoted nor a quote.
abbrev pub is_unquoted : ℕ → ℕ → Bool
is_unquoted quote c = quote == 0 && not (is_quote c)

-- The loop from byte `i` on; `skip` counts the bytes of a `$` group left to pass.
unfoldable pub scan : ℕ → ℕ → ℕ → ℕ → ℕ → Bytes → Option Connector
unfolding connector_at group_rest
scan skip quote before2 before1 i [] = none
scan (suc skip) quote before2 before1 i (c ∷ cs) = scan skip quote before1 c (i + 1) cs
scan zero quote before2 before1 i (c ∷ cs) =
    first_of (if is_unquoted quote c then connector_at before2 before1 c cs i else none) (
      scan (if is_unquoted quote c then group_rest (c ∷ cs) else 0) (quote_after quote c) before1 c
        (i + 1) cs)

-- Byte `from - k`, or 0 in front of the text.
abbrev pub back : Bytes → ℕ → ℕ → ℕ
back s from k = if ltb from k then 0 else at s (from - k)

unfoldable pub find_list_connector : Bytes → ℕ → Option Connector
unfolding scan
find_list_connector s from = scan 0 0 (back s from 2) (back s from 1) from (drop from s)
