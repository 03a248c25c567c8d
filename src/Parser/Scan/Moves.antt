-- ===== src/Parser/Scan/Moves.antt =====
-- Where the tests for space, keywords, braces and names of functions lead to in the text.
use petrush.Base.{
  ℕ, zero, suc, ◌+◌, ◌≤◌, ◌<◌, ◌≡◌, refl, ap, ◌∙◌, true, Option, none, some, [], ◌∷◌, arith, length,
  take, drop, inl, inr, Bool-cases, some-ne-none, sym, subst, length-drop,
}
use petrush.Text.{Bytes, at, AllBytes}
use petrush.Parser.Result.{Yields, yields, yields_error}
use petrush.Parser.Keyword.{
  blanks, skip_ws_pos, starts_with, match_kw_at, match_lbrace_at, match_rbrace_at, match_dsemi_at,
}
use petrush.Parser.Scan.{
  required, expect, is_fn_name_start, is_fn_name_char, name_length, scan_fn_name,
  match_empty_parens,
}

length-blanks : (p : Bytes) → blanks p ≤ length p
unfolding blanks
length-blanks [] = omega arith
length-blanks (c ∷ cs) = ground (arith, length-blanks cs)

-- A position from `lo` on and not behind the text.
abbrev pub Between : Bytes → ℕ → ℕ → Type 0
Between s lo e = (lo ≤ e) × (e ≤ length s)

pub skip_ws_pos-Between : (s : Bytes) (pos : ℕ) → pos ≤ length s → Between s pos (skip_ws_pos s pos)
unfolding skip_ws_pos
skip_ws_pos-Between s pos h =
    (omega arith, omega (arith, length-blanks (drop pos s), length-drop pos s))

length-starts_with : (p kw : Bytes) → starts_with p kw ≡ true → length kw ≤ length p
unfolding starts_with
length-starts_with p [] h = omega arith
length-starts_with [] (k ∷ ks) h = absurd (ground arith)
length-starts_with (c ∷ cs) (k ∷ ks) h =
    let e : starts_with cs ks ≡ true = ground arith in omega (arith, length-starts_with cs ks e)

-- A byte other than the terminator stands inside the text.
pub at-inside : (s : Bytes) (i : ℕ) → 0 < at s i → i < length s
at-inside [] i h = absurd (omega arith)
at-inside (c ∷ cs) zero h = omega arith
at-inside (c ∷ cs) (suc i) h = omega (arith, at-inside cs i h)

-- A position behind `lo` and not behind the text.
abbrev pub Past : Bytes → ℕ → ℕ → Type 0
Past s lo e = (lo < e) × (e ≤ length s)

pub match_kw_at-Past :
    (s : Bytes) (pos : ℕ) (kw : Bytes) (e : ℕ)
    → 0 < length kw
    → match_kw_at s pos kw ≡ some e
    → Past s pos e
unfolding match_kw_at skip_ws_pos
match_kw_at-Past s pos kw e h m = elim (Bool-cases (starts_with (drop (skip_ws_pos s pos) s) kw)) [
  | inl here ↦
      let l = length-starts_with (drop (skip_ws_pos s pos) s) kw here in
      let d = length-drop (skip_ws_pos s pos) s in ground arith
  | inr other ↦ absurd (ground arith)
]

pub match_lbrace_at-Past : (s : Bytes) (pos e : ℕ) → match_lbrace_at s pos ≡ some e → Past s pos e
unfolding match_lbrace_at skip_ws_pos
match_lbrace_at-Past s pos e m = ground (arith, at-inside s (pos + blanks (drop pos s)))

pub match_rbrace_at-Past : (s : Bytes) (pos e : ℕ) → match_rbrace_at s pos ≡ some e → Past s pos e
unfolding match_rbrace_at skip_ws_pos
match_rbrace_at-Past s pos e m = ground (arith, at-inside s (pos + blanks (drop pos s)))

pub match_dsemi_at-Past : (s : Bytes) (pos e : ℕ) → match_dsemi_at s pos ≡ some e → Past s pos e
unfolding match_dsemi_at skip_ws_pos
match_dsemi_at-Past s pos e m = ground (arith, at-inside s (pos + blanks (drop pos s) + 1))

pub required-Yields :
    (P : ℕ → Type 0) (o : Option ℕ) → ((e : ℕ) → o ≡ some e → P e) → Yields P (required o)
required-Yields P none h = yields_error
required-Yields P (some e) h = yields (h e refl)

pub expect-Past : (s kw : Bytes) (pos : ℕ) → 0 < length kw → Yields (Past s pos) (expect s kw pos)
expect-Past s kw pos h = required-Yields _ _ (λ e. match_kw_at-Past s pos kw e h)

-- A letter or `_`, then letters, digits and `_`.
abbrev pub IsFnName : Bytes → Type 0
IsFnName [] = ⊥
IsFnName (c ∷ cs) = (is_fn_name_start c ≡ true) × AllBytes is_fn_name_char cs

name_length-chars :
    (p : Bytes) → AllBytes is_fn_name_char (take (name_length p) p) × (name_length p ≤ length p)
unfolding name_length
name_length-chars [] = (tt, omega arith)
name_length-chars (c ∷ cs) = elim (Bool-cases (is_fn_name_char c)) [
  | inl e ↦ let (all, le) = name_length-chars cs in rw e ((e, all), omega arith)
  | inr e ↦ rw e (tt, omega arith)
]

drop-cons : (i : ℕ) (s : Bytes) → i < length s → drop i s ≡ at s i ∷ drop (i + 1) s
drop-cons i [] h = absurd (omega arith)
drop-cons zero (c ∷ cs) h = refl
drop-cons (suc i) (c ∷ cs) h =
    let e : suc (i + 1) ≡ suc i + 1 = omega arith in
    drop-cons i cs (omega arith) ∙ ap (λ n. at cs i ∷ drop n (c ∷ cs)) e

some-pair :
    {w v : Bytes} {i j : ℕ}
    → ◌≡◌ {A = Option (Bytes × ℕ)} (some (w, i)) (some (v, j))
    → (w ≡ v) × (i ≡ j)
some-pair e = (cc, cc)

pub scan_fn_name-IsFnName :
    (s : Bytes) (pos : ℕ) (name : Bytes) (j : ℕ)
    → scan_fn_name s pos ≡ some (name, j)
    → IsFnName name × Past s pos j
unfolding scan_fn_name skip_ws_pos
scan_fn_name-IsFnName s pos name j e =
    let i = pos + blanks (drop pos s) in
    let n = name_length (drop (i + 1) s) in
    elim (Bool-cases (is_fn_name_start (at s i))) [
      | inl start ↦
          let inside : i < length s = ground (arith, at-inside s i) in
          let (all, le) = name_length-chars (drop (i + 1) s) in
          let (text, place) = some-pair (rw start at e) in
          (
            subst IsFnName text (rw (drop-cons i s inside) (start, all)),
            (omega arith, omega (arith, length-drop (i + 1) s)),
          )
      | inr start ↦ absurd (some-ne-none (sym (rw start at e)))
    ]

pub match_empty_parens-Past :
    (s : Bytes) (pos e : ℕ) → match_empty_parens s pos ≡ some e → Past s pos e
unfolding match_empty_parens skip_ws_pos
match_empty_parens-Past s pos e m =
    let i = pos + blanks (drop pos s) in
    let j = i + 1 + blanks (drop (i + 1) s) in ground (arith, at-inside s i, at-inside s j)
