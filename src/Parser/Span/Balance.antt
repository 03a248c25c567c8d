-- ===== src/Parser/Span/Balance.antt =====
-- A span ends at the parenthesis that closes the group, and lies within the text.
use petrush.Base.{
  ℕ, suc, ◌+◌, ◌≤◌, ◌≡◌, ◌≢◌, refl, ◌∙◌, Bool, true, not, ◌||◌, [], ◌∷◌, ◌++◌, append_assoc, arith,
  length, drop, ◌==◌, length-append, length-drop,
}
use petrush.Text.{Bytes, at, AllBytes}
use petrush.Parser.Span.{
  Scan, is_quote, span_step, span_loop, cmdsubst_span, arith_span, dollar_group_span,
}

abbrev pub is_plain : ℕ → Bool
is_plain c = not (is_quote c || c == b'(' || c == b')')

-- Texts whose parentheses match, where those between quotes do not count.
pub data Balanced : Bytes → Type 0 where
  empty : Balanced []
  plain : {cs : Bytes} (c : ℕ) → is_plain c ≡ true → Balanced cs → Balanced (c ∷ cs)
  quoted :
      {rest : Bytes} (q : ℕ) (body : Bytes)
      → is_quote q ≡ true
      → AllBytes (λ c. not (c == q)) body
      → Balanced rest
      → Balanced (q ∷ (body ++ q ∷ rest))
  group :
      {inner rest : Bytes}
      → Balanced inner
      → Balanced rest
      → Balanced (b'(' ∷ (inner ++ b')' ∷ rest))

abbrev at_depth : ℕ → Scan
at_depth d = record { depth = suc d; quote = 0 }

abbrev inside : ℕ → ℕ → Scan
inside d q = record { depth = suc d; quote = q }

open_quote : (d q : ℕ) → is_quote q ≡ true → span_step (at_depth d) q ≡ inside d q
unfolding span_step
open_quote d q h = ground arith

close_quote : (d q : ℕ) → is_quote q ≡ true → span_step (inside d q) q ≡ at_depth d
unfolding span_step
close_quote d q h = ground arith

in_quote :
    (d q c : ℕ) → is_quote q ≡ true → not (c == q) ≡ true → span_step (inside d q) c ≡ inside d q
unfolding span_step
in_quote d q c h k = ground arith

plain_step : (d c : ℕ) → is_plain c ≡ true → span_step (at_depth d) c ≡ at_depth d
unfolding span_step
plain_step d c h = ground arith

open_group : (d : ℕ) → span_step (at_depth d) b'(' ≡ at_depth (suc d)
unfolding span_step
open_group d = ground arith

close_group : (d : ℕ) → span_step (at_depth (suc d)) b')' ≡ at_depth d
unfolding span_step
close_group d = ground arith

-- One round of the loop, and a rearrangement of the offset.
loop_next :
    (d q n c : ℕ) (cs : Bytes) (sc : Scan)
    → span_step (inside d q) c ≡ sc
    → span_loop (inside d q) n (c ∷ cs) ≡ span_loop sc (n + 1) cs
unfolding span_loop
loop_next d q n c cs sc h = ground arith

span_at : (sc : Scan) (m n : ℕ) (cs : Bytes) → m ≡ n → span_loop sc m cs ≡ span_loop sc n cs
span_at sc m n cs e = rw e refl

loop-body :
    (d q n : ℕ) (body rest : Bytes)
    → is_quote q ≡ true
    → AllBytes (λ c. not (c == q)) body
    → span_loop (inside d q) n (body ++ q ∷ rest)
      ≡ span_loop (at_depth d) (n + length body + 1) rest
loop-body d q n [] rest h a =
    loop_next d q n q rest (at_depth d) (close_quote d q h)
    ∙ span_at (at_depth d) (n + 1) (n + 0 + 1) rest (omega arith)
loop-body d q n (c ∷ body) rest h a =
    loop_next d q n c (body ++ q ∷ rest) (inside d q) (in_quote d q c h a.0)
    ∙ loop-body d q (n + 1) body rest h a.1
    ∙ span_at (at_depth d) (n + 1 + length body + 1) (n + suc (length body) + 1) rest (omega arith)

loop-Balanced :
    (d n : ℕ) {inner : Bytes} (rest : Bytes)
    → Balanced inner
    → span_loop (at_depth d) n (inner ++ rest) ≡ span_loop (at_depth d) (n + length inner) rest
loop-Balanced d n rest empty = span_at (at_depth d) n (n + 0) rest (omega arith)
loop-Balanced d n rest (plain {cs} c h b) =
    loop_next d 0 n c (cs ++ rest) (at_depth d) (plain_step d c h)
    ∙ loop-Balanced d (n + 1) rest b
    ∙ span_at (at_depth d) (n + 1 + length cs) (n + suc (length cs)) rest (omega arith)
loop-Balanced d n rest (quoted {rest = r} q body h a b) =
    loop_next d 0 n q ((body ++ q ∷ r) ++ rest) (inside d q) (open_quote d q h)
    ∙ rw (append_assoc body (q ∷ r) rest) (loop-body d q (n + 1) body (r ++ rest) h a)
    ∙ loop-Balanced d (n + 1 + length body + 1) rest b
    ∙ span_at (at_depth d) (n + 1 + length body + 1 + length r) (n + suc (length (body ++ q ∷ r)))
        rest (omega (arith, length-append {0} body (q ∷ r)))
loop-Balanced d n rest (group {inner} {rest = r} b b') =
    loop_next d 0 n b'(' ((inner ++ b')' ∷ r) ++ rest) (at_depth (suc d)) (open_group d)
    ∙ rw (append_assoc inner (b')' ∷ r) rest) (loop-Balanced (suc d) (n + 1) (b')' ∷ (r ++ rest)) b)
    ∙ loop_next (suc d) 0 (n + 1 + length inner) b')' (r ++ rest) (at_depth d) (close_group d)
    ∙ loop-Balanced d (n + 1 + length inner + 1) rest b'
    ∙ span_at (at_depth d) (n + 1 + length inner + 1 + length r)
        (n + suc (length (inner ++ b')' ∷ r))) rest
        (omega (arith, length-append {0} inner (b')' ∷ r)))

-- At depth 1 the loop ends behind the next closing parenthesis.
loop_close : (n : ℕ) (rest : Bytes) → span_loop (at_depth 0) n (b')' ∷ rest) ≡ n + 1
unfolding span_loop
loop_close n [] = ground arith
loop_close n (c ∷ rest) = ground arith

-- The span of `$(` and a balanced text and `)` ends at that parenthesis, whatever follows; a text
-- that begins with a further parenthesis is left to the arithmetic form.
pub cmdsubst_span-Balanced :
    (inner rest : Bytes)
    → Balanced inner
    → at (inner ++ b')' ∷ rest) 0 ≢ b'('
    → cmdsubst_span (b'$' ∷ b'(' ∷ (inner ++ b')' ∷ rest)) ≡ length inner + 3
unfolding cmdsubst_span
cmdsubst_span-Balanced inner rest b ne =
    let loop = loop-Balanced 0 2 (b')' ∷ rest) b ∙ loop_close (2 + length inner) rest in
    ground (arith, loop)

-- The span of `$((` and a balanced text and `))` ends at the second of these parentheses.
pub arith_span-Balanced :
    (inner rest : Bytes)
    → Balanced inner
    → arith_span (b'$' ∷ b'(' ∷ b'(' ∷ (inner ++ b')' ∷ b')' ∷ rest)) ≡ length inner + 5
unfolding arith_span
arith_span-Balanced inner rest b =
    let loop =
      loop-Balanced 1 3 (b')' ∷ b')' ∷ rest) b
      ∙ loop_next 1 0 (3 + length inner) b')' (b')' ∷ rest) (at_depth 0) (close_group 0)
      ∙ loop_close (3 + length inner + 1) rest in
    ground (arith, loop)

-- A span lies within the text.
span_loop-le : (sc : Scan) (n : ℕ) (p : Bytes) → span_loop sc n p ≤ n + length p
unfolding span_loop
span_loop-le sc n [] = ground arith
span_loop-le sc n (c ∷ cs) = ground (arith, span_loop-le (span_step sc c) (n + 1) cs)

-- A span stays within the text that it is asked of; 0 says that there is none.
pub dollar_group_span-le : (p : Bytes) → dollar_group_span p ≤ length p
unfolding dollar_group_span
dollar_group_span-le [] = ground arith
dollar_group_span-le (a ∷ []) = ground arith
dollar_group_span-le (a ∷ b ∷ p) = ground (
  arith,
  span_loop-le (record { depth = 1; quote = 0 }) 2 p,
  span_loop-le (record { depth = 2; quote = 0 }) 3 (drop 1 p),
  length-drop 1 p,
)
