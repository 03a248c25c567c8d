-- ===== src/Parser/Token.antt =====
-- Tokens: the operators and the words of a line (src/mid/parser.c, up to `tokenize`).
pub mod Progress
pub mod Print
use petrush.Base.{
  ℕ, zero, suc, ◌+◌, ◌-◌, Bool, true, false, not, ◌&&◌, ◌||◌, Option, none, some, List, [], ◌∷◌,
  ltb, ◌==◌, if◌then◌else◌, length, take, drop,
}
use petrush.Text.{Bytes, at, is_space, skip_space}
use petrush.Parser.Result.{Result, ok, error, out_of_fuel, ◌>>=◌}
use petrush.Parser.Span.{is_quote, dollar_group_span}

-- `tok_kind_t`.
pub data Kind : Type 0 where
  word pipe lt dless dlessdash gt gtgt errgt errgtgt errtoout ampgt : Kind

-- `quoted` is 0 for a bare word, 1 for single quotes, 2 for double quotes.
pub record Token : Type 0 where
  pub kind : Kind
  pub text : Bytes
  pub quoted : ℕ

-- An operator's token holds no text.
abbrev pub op : Kind → Token
op k = record { kind = k; text = []; quoted = 0 }

-- The operator at `p` and its length.
unfoldable pub try_consume_simple_op : Bytes → Option (Kind × ℕ)
try_consume_simple_op p =
    if at p 0 == b'|'
    then some (pipe, 1)
    else if at p 0 == b'<'
    then (if at p 1 == b'<'
        then (if at p 2 == b'-' then some (dlessdash, 3) else some (dless, 2))
        else some (lt, 1))
    else if at p 0 == b'&' && at p 1 == b'>'
    then some (ampgt, 2)
    else if at p 0 == b'>'
    then (if at p 1 == b'>' then some (gtgt, 2) else some (gt, 1))
    else none

pub data ErrRedir : Type 0 where
  no_match invalid : ErrRedir
  consumed : Kind → ℕ → ErrRedir

-- What may stand behind `2>&1`.
abbrev pub ends_merge : ℕ → Bool
ends_merge c = c == 0 || is_space c || c == b'|' || c == b'<' || c == b'>' || c == b'&'

unfoldable pub try_consume_err_redir : Bytes → ErrRedir
try_consume_err_redir p =
    if not (at p 0 == b'2' && at p 1 == b'>')
    then no_match
    else if at p 2 == b'>'
    then consumed errgtgt 3
    else if at p 2 == b'&'
    then (if at p 3 == b'1'
        then (if ends_merge (at p 4) then consumed errtoout 4 else invalid)
        else invalid)
    else consumed errgt 2

-- The bytes up to the closing quote, with it, or to the end of the text.
unfoldable pub quoted_length : ℕ → Bytes → ℕ
quoted_length q [] = 0
quoted_length q (c ∷ cs) = if c == q then 1 else suc (quoted_length q cs)

-- The word ends before this byte, of which `next` is the successor.
abbrev pub breaks_word : ℕ → ℕ → Bool
breaks_word c next =
    is_space c || (c == b'|' || c == b'<' || c == b'>') || (c == b'&' && next == b'>')

-- The bytes still to be skipped behind a `$` that begins a group.
unfoldable pub group_rest : Bytes → ℕ
group_rest p = if at p 0 == b'$' then dollar_group_span p - 1 else 0

-- The bytes of a bare word; the first argument counts the bytes of a `$( )` group left to pass.
unfoldable pub bare_length : ℕ → Bytes → ℕ
unfolding group_rest
bare_length skip [] = 0
bare_length (suc skip) (c ∷ cs) = suc (bare_length skip cs)
bare_length zero (c ∷ cs) =
    let more = suc (bare_length (group_rest (c ∷ cs)) cs) in
    if breaks_word c (at cs 0) then 0 else more

-- `token_len` of a quoted word that begins at `start` and of which `n` bytes were read.
abbrev pub unquoted_length : ℕ → ℕ → Bytes → ℕ
unquoted_length q n start = if ltb 0 n && at start (n - 1) == q then n - 1 else n

abbrev pub quote_code : ℕ → ℕ
quote_code q = if q == 39 then 1 else 2

-- The word at the text's beginning, and the text after it.
unfoldable pub scan_word : Bytes → Token × Bytes
unfolding quoted_length bare_length
scan_word [] = (record { kind = word; text = []; quoted = 0 }, [])
scan_word (c ∷ cs) =
    if is_quote c
    then (
      record {
        kind = word;
        text = take (unquoted_length c (quoted_length c cs) cs) cs;
        quoted = quote_code c;
      },
      drop (quoted_length c cs) cs,
    )
    else (
      record { kind = word; text = take (bare_length 0 (c ∷ cs)) (c ∷ cs); quoted = 0 },
      drop (bare_length 0 (c ∷ cs)) (c ∷ cs),
    )

abbrev pub err_or_word : Bytes → ErrRedir → Result (Token × Bytes)
err_or_word p no_match = ok (scan_word p)
err_or_word p invalid = error
err_or_word p (consumed k n) = ok (op k, drop n p)

abbrev pub op_or_word : Bytes → Option (Kind × ℕ) → Result (Token × Bytes)
op_or_word p none = err_or_word p (try_consume_err_redir p)
op_or_word p (some (k, n)) = ok (op k, drop n p)

-- One round of the loop, at a byte that is not space.
unfoldable pub next_token : Bytes → Result (Token × Bytes)
next_token p =
    if is_quote (at p 0) then ok (scan_word p) else op_or_word p (try_consume_simple_op p)

-- The loop of `tokenize`, with fuel for each token.
unfoldable pub tokens : ℕ → Bytes → Result (List Token)
tokens zero p = elim (skip_space p) [ [] ↦ ok [] | c ∷ cs ↦ out_of_fuel ]
tokens (suc f) p = elim (skip_space p) [
  | [] ↦ ok []
  | c ∷ cs ↦ next_token (c ∷ cs) >>= λ r. tokens f r.1 >>= λ ts. ok (r.0 ∷ ts)
]

-- As many rounds as the text has bytes.
unfoldable pub tokenize : Bytes → Result (List Token)
unfolding tokens next_token try_consume_simple_op try_consume_err_redir scan_word skip_space
tokenize input = tokens (length input) input
