-- ===== src/Parser/Span.antt =====
-- `petrush_cmdsubst_span`, `petrush_arith_span` and `dollar_group_span` (src/mid/parser.c).
pub mod Balance
use petrush.Base.{
  ℕ, ◌+◌, ◌-◌, Bool, true, false, not, ◌&&◌, ◌||◌, List, [], ◌∷◌, ltb, ◌==◌, if◌then◌else◌, drop,
}
use petrush.Text.{Bytes, at}

-- The bytes of `'` and `"`.
abbrev pub is_quote : ℕ → Bool
is_quote c = c == 34 || c == 39

-- The variables of the loop; `quote` is 0 outside quotes.
pub record Scan : Type 0 where
  pub depth : ℕ
  pub quote : ℕ

-- The body of the loop at the byte `c`.
unfoldable pub span_step : Scan → ℕ → Scan
span_step sc c =
    if not (sc.quote == 0)
    then (if c == sc.quote then record sc { quote = 0 } else sc)
    else if is_quote c
    then record sc { quote = c }
    else if c == b'('
    then record sc { depth = sc.depth + 1 }
    else if c == b')'
    then record sc { depth = sc.depth - 1 }
    else sc

-- `n` is the offset `s - p`; an end of the text at a depth above 0 gives 0.
unfoldable pub span_loop : Scan → ℕ → Bytes → ℕ
unfolding span_step
span_loop sc n [] = if sc.depth == 0 then n else 0
span_loop sc n (c ∷ cs) =
    let more = span_loop (span_step sc c) (n + 1) cs in if sc.depth == 0 then n else more

unfoldable pub cmdsubst_span : Bytes → ℕ
unfolding span_loop
cmdsubst_span p =
    if not (at p 0 == b'$') || not (at p 1 == b'(') || at p 2 == b'('
    then 0
    else span_loop (record { depth = 1; quote = 0 }) 2 (drop 2 p)

unfoldable pub arith_span : Bytes → ℕ
unfolding span_loop
arith_span p =
    if not (at p 0 == b'$') || not (at p 1 == b'(') || not (at p 2 == b'(')
    then 0
    else span_loop (record { depth = 2; quote = 0 }) 3 (drop 3 p)

unfoldable pub dollar_group_span : Bytes → ℕ
unfolding cmdsubst_span arith_span
dollar_group_span p = if ltb 0 (arith_span p) then arith_span p else cmdsubst_span p
