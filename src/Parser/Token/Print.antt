-- ===== src/Parser/Token/Print.antt =====
-- A printer for tokens, which the tokenizer reads back.
use petrush.Base.{
  ℕ, zero, suc, ◌-◌, ◌≤◌, ◌≡◌, ◌≢◌, refl, ap, ◌∙◌, Bool, true, false, not, ◌||◌, List, [], ◌∷◌,
  ◌++◌, append_assoc, arith, length, drop, ◌==◌, take-append_left, drop-append_left, length-append,
}
use petrush.Text.{Bytes, codes, at, is_space, skip_space, AllBytes}
use petrush.Parser.Result.{ok, ◌>>=◌}
use petrush.Parser.Span.{is_quote}
use petrush.Parser.Token.{
  Kind, word, pipe, lt, dless, dlessdash, gt, gtgt, errgt, errgtgt, errtoout, ampgt, Token, op,
  try_consume_simple_op, try_consume_err_redir, quoted_length, unquoted_length, quote_code,
  bare_length, scan_word, next_token, tokens, tokenize,
}

abbrev pub symbol : Kind → Bytes
symbol word = []
symbol pipe = codes "|"
symbol lt = codes "<"
symbol dless = codes "<<"
symbol dlessdash = codes "<<-"
symbol gt = codes ">"
symbol gtgt = codes ">>"
symbol errgt = codes "2>"
symbol errgtgt = codes "2>>"
symbol errtoout = codes "2>&1"
symbol ampgt = codes "&>"

abbrev pub is_op : Kind → Bool
is_op word = false
is_op _ = true

-- A byte that has no meaning of its own in a bare word.
abbrev pub is_bare : ℕ → Bool
is_bare c =
    not (is_space c || is_quote c || c == b'|' || c == b'<' || c == b'>' || c == b'&' || c == b'$')

-- The ways to write a token.
pub data Writes : Token → Bytes → Type 0 where
  operator : (k : Kind) → is_op k ≡ true → Writes (op k) (symbol k)
  quoted :
      (q : ℕ) (text : Bytes)
      → is_quote q ≡ true
      → AllBytes (λ c. not (c == q)) text
      → Writes (record { kind = word; text = text; quoted = quote_code q }) (q ∷ (text ++ q ∷ []))
  bare :
      (c : ℕ) (text : Bytes)
      → AllBytes is_bare (c ∷ text)
      → Writes (record { kind = word; text = c ∷ text; quoted = 0 }) (c ∷ text)

-- A line that holds the tokens in order, with a space before each of them.
pub data Line : List Token → Bytes → Type 0 where
  end : Line [] []
  next :
      {ts : List Token} {line : Bytes} (t : Token) (p : Bytes)
      → Writes t p
      → Line ts line
      → Line (t ∷ ts) (b' ' ∷ (p ++ line))

-- What follows a token in such a line.
abbrev Gap : Bytes → Type 0
Gap [] = Unit
Gap (c ∷ cs) = c ≡ b' '

quoted_length-append :
    (q : ℕ) (text rest : Bytes)
    → AllBytes (λ c. not (c == q)) text
    → quoted_length q (text ++ q ∷ rest) ≡ suc (length text)
unfolding quoted_length
quoted_length-append q [] rest h = ground arith
quoted_length-append q (c ∷ text) rest h = ground (arith, quoted_length-append q text rest h.1)

at-append : (text rest : Bytes) (q : ℕ) → at (text ++ q ∷ rest) (length text) ≡ q
at-append [] rest q = refl
at-append (c ∷ text) rest q = at-append text rest q

drop-past : (text rest : Bytes) (q : ℕ) → drop (suc (length text)) (text ++ q ∷ rest) ≡ rest
drop-past [] rest q = refl
drop-past (c ∷ text) rest q = drop-past text rest q

next_token-quoted :
    (q : ℕ) (text rest : Bytes)
    → is_quote q ≡ true
    → AllBytes (λ c. not (c == q)) text
    → next_token (q ∷ (text ++ q ∷ rest))
      ≡ ok (record { kind = word; text = text; quoted = quote_code q }, rest)
unfolding next_token scan_word
next_token-quoted q text rest h a =
    let n = quoted_length-append q text rest a in
    let top : suc (length text) - 1 ≡ length text = omega arith in
    let closed : unquoted_length q (suc (length text)) (text ++ q ∷ rest) ≡ length text =
      ground (arith, at-append text rest q, top) in
    rw (h, n, closed, take-append_left text (q ∷ rest), drop-past text rest q)

bare_length-append :
    (text rest : Bytes)
    → AllBytes is_bare text
    → Gap rest
    → bare_length 0 (text ++ rest) ≡ length text
unfolding bare_length
bare_length-append [] [] h g = refl
bare_length-append [] (c ∷ cs) h g = rw g refl
bare_length-append (c ∷ text) rest h g = ground (arith, bare_length-append text rest h.1 g)

-- A bare word is no operator, also where it begins with the digit of `2>`.
bare-no_op :
    (c : ℕ) (text rest : Bytes)
    → AllBytes is_bare (c ∷ text)
    → Gap rest
    → next_token (c ∷ (text ++ rest)) ≡ ok (scan_word (c ∷ (text ++ rest)))
unfolding next_token try_consume_simple_op try_consume_err_redir
bare-no_op c [] [] h g = ground arith
bare-no_op c [] (d ∷ rest) h g = ground arith
bare-no_op c (d ∷ text) rest h g = ground arith

scan_word-bare :
    (c : ℕ) (text rest : Bytes)
    → AllBytes is_bare (c ∷ text)
    → Gap rest
    → scan_word (c ∷ (text ++ rest)) ≡ (record { kind = word; text = c ∷ text; quoted = 0 }, rest)
unfolding scan_word
scan_word-bare c text rest h g =
    let n = bare_length-append (c ∷ text) rest h g in
    let no_quote : is_quote c ≡ false = ground arith in
    rw (no_quote, n, take-append_left (c ∷ text) rest, drop-append_left (c ∷ text) rest)

next_token-op :
    (k : Kind) (rest : Bytes)
    → is_op k ≡ true
    → Gap rest
    → next_token (symbol k ++ rest) ≡ ok (op k, rest)
unfolding next_token try_consume_simple_op try_consume_err_redir
next_token-op word rest h g = ground arith
next_token-op _ [] h g = refl
next_token-op _ (c ∷ rest) h g = rw g refl

symbol-skip :
    (k : Kind) (rest : Bytes)
    → is_op k ≡ true
    → (skip_space (symbol k ++ rest) ≡ symbol k ++ rest) × (symbol k ++ rest ≢ [])
unfolding skip_space
symbol-skip word rest h = absurd (ground arith)
symbol-skip _ rest h = (refl, ground arith)

next_token-Writes :
    {t : Token} {p : Bytes} (rest : Bytes)
    → Writes t p
    → Gap rest
    → (next_token (p ++ rest) ≡ ok (t, rest))
      × (skip_space (p ++ rest) ≡ p ++ rest)
      × (p ++ rest ≢ [])
unfolding skip_space
next_token-Writes rest (operator k h) g =
    let (a, b) = symbol-skip k rest h in (next_token-op k rest h g, a, b)
next_token-Writes rest (quoted q text h a) g = (
  rw (append_assoc text (q ∷ []) rest) (next_token-quoted q text rest h a),
  ground arith,
  ground arith,
)
next_token-Writes rest (bare c text h) g = (
  bare-no_op c text rest h g ∙ ap ok (scan_word-bare c text rest h g),
  ground arith,
  ground arith,
)

tokens_next :
    (f : ℕ) (p rest : Bytes) (t : Token)
    → next_token p ≡ ok (t, rest)
    → skip_space p ≡ p
    → p ≢ []
    → tokens (suc f) (b' ' ∷ p) ≡ (tokens f rest >>= λ ts. ok (t ∷ ts))
unfolding tokens
tokens_next f [] rest t n s ne = absurd (ne refl)
tokens_next f (c ∷ p) rest t n s ne =
    let blank : skip_space (b' ' ∷ c ∷ p) ≡ c ∷ p = unfold skip_space in s in
    rw (blank, tokens) (rw n)

Line-Gap : {ts : List Token} {line : Bytes} → Line ts line → Gap line
Line-Gap end = tt
Line-Gap (next t p w l) = refl

tokens-Line :
    {ts : List Token} {line : Bytes} (f : ℕ)
    → Line ts line
    → length line ≤ f
    → tokens f line ≡ ok ts
unfolding tokens
tokens-Line zero end h = unfold skip_space in refl
tokens-Line (suc f) end h = unfold skip_space in refl
tokens-Line zero (next t p w l) h = absurd (omega arith)
tokens-Line (suc f) (next {ts} {line} t p w l) h =
    let (n, s, ne) = next_token-Writes line w (Line-Gap l) in
    tokens_next f (p ++ line) line t n s ne
    ∙ rw (tokens-Line f l (omega (arith, length-append p line)))

-- The tokenizer reads back every line of tokens: operators in their spelling, bare words, and
-- words between quotes, which keep every byte but their quote and are never taken for operators.
pub tokenize-Line : {ts : List Token} {line : Bytes} → Line ts line → tokenize line ≡ ok ts
unfolding tokenize
tokenize-Line {line} l = tokens-Line (length line) l (omega arith)
