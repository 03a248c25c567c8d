-- ===== src/Parser/Token/Progress.antt =====
-- Every token takes at least one byte, so the tokenizer's fuel is enough.
use petrush.Base.{
  ℕ, zero, suc, ◌≤◌, ◌<◌, ◌≡◌, ◌≢◌, ◌⊎◌, refl, false, none, some, [], ◌∷◌, arith, length, drop, inl,
  inr, Bool-cases, Option-cases, length-drop,
}
use petrush.Text.{Bytes, at, is_space, skip_space}
use petrush.Parser.Result.{Result, ok, error, out_of_fuel, ◌>>=◌, bind-ne-fuel}
use petrush.Parser.Span.{is_quote}
use petrush.Parser.Token.{
  Token, try_consume_simple_op, try_consume_err_redir, quoted_length, breaks_word, bare_length,
  group_rest, scan_word, Kind, next_token, err_or_word, op_or_word, tokens, tokenize,
}

-- The result is an error, or what is left is shorter than `n` bytes.
abbrev Shrinks : ℕ → Result (Token × Bytes) → Type 0
Shrinks n (ok (t, rest)) = length rest < n
Shrinks n error = Unit
Shrinks n out_of_fuel = ⊥

-- Where no operator begins, a word does.
simple_none-breaks :
    (c : ℕ) (cs : Bytes)
    → is_space c ≡ false
    → try_consume_simple_op (c ∷ cs) ≡ none
    → breaks_word c (at cs 0) ≡ false
unfolding try_consume_simple_op
simple_none-breaks c cs h e = ground arith

scan_word-shrinks :
    (c : ℕ) (cs : Bytes)
    → (is_quote c ≡ false → breaks_word c (at cs 0) ≡ false)
    → length (scan_word (c ∷ cs)).1 < length (c ∷ cs)
unfolding scan_word
scan_word-shrinks c cs h = elim (Bool-cases (is_quote c)) [
  | inl q ↦ rw q (omega (arith, length-drop (quoted_length c cs) cs))
  | inr q ↦ rw q (rw (h q) (omega (arith, length-drop (bare_length (group_rest (c ∷ cs)) cs) cs)))
]

-- Dropping at least one byte of a text that is not empty.
length-drop_some : (n : ℕ) (c : ℕ) (cs : Bytes) → 0 < n → length (drop n (c ∷ cs)) < length (c ∷ cs)
length-drop_some zero c cs h = absurd (omega arith)
length-drop_some (suc n) c cs h = omega (arith, length-drop n cs)

err_or_word-Shrinks :
    (c : ℕ) (cs : Bytes)
    → breaks_word c (at cs 0) ≡ false
    → Shrinks (length (c ∷ cs)) (err_or_word (c ∷ cs) (try_consume_err_redir (c ∷ cs)))
unfolding try_consume_err_redir
err_or_word-Shrinks c cs h = ground (
  arith,
  scan_word-shrinks c cs (λ _. h),
  length-drop_some 2 c cs,
  length-drop_some 3 c cs,
  length-drop_some 4 c cs,
)

simple_some-pos : (p : Bytes) (k : Kind) (n : ℕ) → try_consume_simple_op p ≡ some (k, n) → 0 < n
unfolding try_consume_simple_op
simple_some-pos p k n h = ground arith

op_or_word-Shrinks :
    (c : ℕ) (cs : Bytes)
    → is_space c ≡ false
    → Shrinks (length (c ∷ cs)) (op_or_word (c ∷ cs) (try_consume_simple_op (c ∷ cs)))
op_or_word-Shrinks c cs h = elim (Option-cases (try_consume_simple_op (c ∷ cs))) [
  | inl e ↦ rw e (err_or_word-Shrinks c cs (simple_none-breaks c cs h e))
  | inr ((k, n), e) ↦ rw e (length-drop_some n c cs (simple_some-pos (c ∷ cs) k n e))
]

next_token-Shrinks :
    (c : ℕ) (cs : Bytes) → is_space c ≡ false → Shrinks (length (c ∷ cs)) (next_token (c ∷ cs))
unfolding next_token
next_token-Shrinks c cs h = elim (Bool-cases (is_quote c)) [
  | inl q ↦ rw q (scan_word-shrinks c cs (λ e. absurd (ground arith)))
  | inr q ↦ rw q (op_or_word-Shrinks c cs h)
]

-- Behind leading space there is nothing, or a byte that is not space.
pub skip_space-cases :
    (p : Bytes)
    → (skip_space p ≡ [])
      ⊎ ((c : ℕ) × (cs : Bytes) × (skip_space p ≡ c ∷ cs)
          × (is_space c ≡ false)
          × (length cs < length p))
unfolding skip_space
skip_space-cases [] = inl refl
skip_space-cases (c ∷ cs) = elim (Bool-cases (is_space c)) [
  | inl e ↦ elim (skip_space-cases cs) [
    | inl x ↦ inl (rw e x)
    | inr (d, ds, x, y, z) ↦ inr (d, ds, rw e x, y, omega arith)
  ]
  | inr e ↦ inr (c, cs, rw e, e, omega arith)
]

ok-ne-fuel : {A : Type 0} (a : A) → ok a ≢ out_of_fuel
ok-ne-fuel a = λ e. cc

Shrinks-ne-fuel : (n : ℕ) (r : Result (Token × Bytes)) → Shrinks n r → r ≢ out_of_fuel
Shrinks-ne-fuel n (ok a) h = λ e. cc
Shrinks-ne-fuel n error h = λ e. cc
Shrinks-ne-fuel n out_of_fuel h = absurd h

Shrinks-ok :
    (n : ℕ) (r : Result (Token × Bytes)) (a : Token × Bytes)
    → Shrinks n r
    → r ≡ ok a
    → length a.1 < n
Shrinks-ok n r a h e = rw e at h

tokens-step :
    (f c : ℕ) (cs : Bytes)
    → is_space c ≡ false
    → length cs ≤ f
    → ((r : Bytes) → length r ≤ f → tokens f r ≢ out_of_fuel)
    → (next_token (c ∷ cs) >>= λ r. tokens f r.1 >>= λ ts. ok (r.0 ∷ ts)) ≢ out_of_fuel
tokens-step f c cs h l ih =
    bind-ne-fuel (next_token (c ∷ cs)) (λ r. tokens f r.1 >>= λ ts. ok (r.0 ∷ ts))
      (Shrinks-ne-fuel (length (c ∷ cs)) (next_token (c ∷ cs)) (next_token-Shrinks c cs h))
      λ r e.
        bind-ne-fuel (tokens f r.1) (λ ts. ok (r.0 ∷ ts))
          (ih r.1 (
            omega (
              arith,
              Shrinks-ok (length (c ∷ cs)) (next_token (c ∷ cs)) r (next_token-Shrinks c cs h) e,
            )))
          (λ ts _. ok-ne-fuel (r.0 ∷ ts))

-- One round for each byte of the text is enough fuel.
pub tokens-ne-fuel : (f : ℕ) (p : Bytes) → length p ≤ f → tokens f p ≢ out_of_fuel
unfolding tokens
tokens-ne-fuel zero p h = elim (skip_space-cases p) [
  | inl e ↦ rw (e, tokens) (ok-ne-fuel [])
  | inr (c, cs, e, d, l) ↦ absurd (omega arith)
]
tokens-ne-fuel (suc f) p h = elim (skip_space-cases p) [
  | inl e ↦ rw (e, tokens) (ok-ne-fuel [])
  | inr (c, cs, e, d, l) ↦ rw (e, tokens) (tokens-step f c cs d (omega arith) (tokens-ne-fuel f))
]

-- The tokenizer ends on every input, with tokens or with its error.
pub tokenize-ne-fuel : (input : Bytes) → tokenize input ≢ out_of_fuel
unfolding tokenize
tokenize-ne-fuel input = tokens-ne-fuel (length input) input (omega arith)
