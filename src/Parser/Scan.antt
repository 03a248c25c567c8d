-- ===== src/Parser/Scan.antt =====
-- The words of compound commands (src/mid/parser.c): `scan_for_word`, `scan_case_pattern`, the names
-- of functions, and the loops of `parse_for`, `parse_case` and `parse_dbracket` that read words.
pub mod Moves
pub mod Progress
use petrush.Base.{
  ℕ, zero, suc, ◌+◌, Bool, true, false, not, ◌&&◌, ◌||◌, Option, none, some, List, [], ◌∷◌, ◌==◌,
  if◌then◌else◌, length, take, drop,
}
use petrush.Text.{Bytes, codes, at, is_space, is_alpha, is_alnum}
use petrush.Parser.Result.{Result, ok, error, out_of_fuel, ◌>>=◌, branch, answer}
use petrush.Parser.Span.{is_quote}
use petrush.Parser.Token.{quoted_length, group_rest, unquoted_length, quote_code}
use petrush.Parser.Keyword.{skip_ws_pos, match_kw_at, match_lbrace_at}

-- A word, its quoting mark, and the number of bytes that were read for it.
pub record Scanned : Type 0 where
  pub text : Bytes
  pub quoted : ℕ
  pub used : ℕ

-- The bytes of a word that is not quoted, up to a byte for which `stops` holds; the number counts
-- the bytes of a `$` group left to pass.
unfoldable pub open_length : (ℕ → Bool) → ℕ → Bytes → ℕ
unfolding group_rest
open_length stops skip [] = 0
open_length stops (suc skip) (c ∷ cs) = suc (open_length stops skip cs)
open_length stops zero (c ∷ cs) =
    let more = suc (open_length stops (group_rest (c ∷ cs)) cs) in if stops c then 0 else more

-- The scan of a word; the two scans differ in the bytes that end a word outside quotes.
unfoldable pub scan_until : (ℕ → Bool) → Bytes → Scanned
unfolding quoted_length open_length
scan_until stops [] = record { text = []; quoted = 0; used = 0 }
scan_until stops (c ∷ cs) =
    if is_quote c
    then record {
      text = take (unquoted_length c (quoted_length c cs) cs) cs;
      quoted = quote_code c;
      used = suc (quoted_length c cs);
    }
    else record {
      text = take (open_length stops 0 (c ∷ cs)) (c ∷ cs);
      quoted = 0;
      used = open_length stops 0 (c ∷ cs);
    }

abbrev pub ends_for_word : ℕ → Bool
ends_for_word c = is_space c || (c == b';' || c == b'|' || c == b'&' || c == b'<' || c == b'>')

abbrev pub scan_for_word : Bytes → Scanned
scan_for_word p = scan_until ends_for_word p

abbrev pub ends_case_pattern : ℕ → Bool
ends_case_pattern c =
    is_space c || (c == b'|' || c == b')' || c == b';' || c == b'&' || c == b'<' || c == b'>')

abbrev pub scan_case_pattern : Bytes → Scanned
scan_case_pattern p = scan_until ends_case_pattern p

-- A word at `pos`, and the position behind it; an empty word is an error.
abbrev pub word_of : ℕ → Scanned → Result (Scanned × ℕ)
word_of pos w = if length w.text == 0 then error else ok (w, pos + w.used)

abbrev pub word_at : Bytes → ℕ → Result (Scanned × ℕ)
word_at s pos = word_of pos (scan_for_word (drop pos s))

abbrev pub pattern_at : Bytes → ℕ → Result (Scanned × ℕ)
pattern_at s pos = word_of pos (scan_case_pattern (drop pos s))

-- A keyword that must stand here; the result is its end.
abbrev pub required : Option ℕ → Result ℕ
required none = error
required (some end) = ok end

abbrev pub expect : Bytes → Bytes → ℕ → Result ℕ
expect s kw pos = required (match_kw_at s pos kw)

-- The words between `in` and `do`, with the position behind the `;`, or in front of `do`.
unfoldable pub for_words : ℕ → Bytes → ℕ → Result (List Bytes × ℕ)
unfolding scan_until skip_ws_pos match_kw_at
for_words zero s pos = out_of_fuel
for_words (suc f) s pos =
    let i = skip_ws_pos s pos in
    branch (at s i == 0) (λ _. error)
      λ _.
        branch (at s i == b';') (λ _. ok ([], i + 1))
          λ _.
            answer (match_kw_at s i (codes "do"))
              (λ _. word_at s i >>= λ (w, j). for_words f s j >>= λ (ws, e). ok (w.text ∷ ws, e))
              (λ end. ok ([], i))

-- The patterns of one arm of `case`, with the position behind the `)`.
unfoldable pub case_patterns : ℕ → Bytes → ℕ → Result (List Bytes × ℕ)
unfolding scan_until skip_ws_pos
case_patterns zero s pos = out_of_fuel
case_patterns (suc f) s pos =
    let i = skip_ws_pos s pos in
    branch (at s i == 0) (λ _. error)
      λ _. pattern_at s i >>= λ (w, j).
        let k = skip_ws_pos s j in
        branch (at s k == b'|') (λ _. case_patterns f s (k + 1) >>= λ (ws, e). ok (w.text ∷ ws, e))
          λ _. branch (at s k == b')') (λ _. ok (w.text ∷ [], k + 1)) (λ _. error)

-- A token of `[[` that begins at `i`: its text, its quoting mark and its end, or the closing `]]`.
pub data DbToken : Type 0 where
  db_end : ℕ → DbToken
  db_token : Bytes → ℕ → ℕ → DbToken

abbrev pub ends_bang : ℕ → Bool
ends_bang c = c == 0 || is_space c || c == b'&' || c == b'|'

abbrev pub db_word : Bytes → ℕ → Result DbToken
db_word s i = word_at s i >>= λ (w, j). ok (db_token w.text w.quoted j)

-- The token at `i`, where the closing `]]` ends at the position that is given, if it stands there.
unfoldable pub db_token_at : Bytes → ℕ → Option ℕ → Result DbToken
unfolding scan_until
db_token_at s i closed =
    branch (at s i == 0) (λ _. error)
      λ _.
        answer closed
          (λ _.
            branch (at s i == b'&' && at s (i + 1) == b'&')
              (λ _. ok (db_token (codes "&&") 0 (i + 2)))
              λ _.
                branch (at s i == b'|' && at s (i + 1) == b'|')
                  (λ _. ok (db_token (codes "||") 0 (i + 2)))
                  λ _.
                    branch (at s i == b'!' && ends_bang (at s (i + 1)))
                      (λ _. ok (db_token (codes "!") 0 (i + 1))) λ _. db_word s i)
          λ end. ok (db_end end)

-- What goes on behind a token.
abbrev pub db_next : (ℕ → Result (List (Bytes × ℕ) × ℕ)) → DbToken → Result (List (Bytes × ℕ) × ℕ)
db_next next (db_end end) = ok ([], end)
db_next next (db_token w quoted j) = next j >>= λ (ws, e). ok ((w, quoted) ∷ ws, e)

-- The tokens up to `]]`, with the position behind it.
unfoldable pub db_tokens : ℕ → Bytes → ℕ → Result (List (Bytes × ℕ) × ℕ)
unfolding skip_ws_pos db_token_at match_kw_at
db_tokens zero s pos = out_of_fuel
db_tokens (suc f) s pos =
    let i = skip_ws_pos s pos in
    db_token_at s i (match_kw_at s i (codes "]]")) >>= db_next (db_tokens f s)

abbrev pub is_fn_name_start : ℕ → Bool
is_fn_name_start c = is_alpha c || c == b'_'

abbrev pub is_fn_name_char : ℕ → Bool
is_fn_name_char c = is_alnum c || c == b'_'

-- The number of bytes of a name that the text begins with.
unfoldable pub name_length : Bytes → ℕ
name_length [] = 0
name_length (c ∷ cs) = if is_fn_name_char c then suc (name_length cs) else 0

-- A name behind space, and its end.
unfoldable pub scan_fn_name : Bytes → ℕ → Option (Bytes × ℕ)
unfolding skip_ws_pos name_length
scan_fn_name s pos =
    let i = skip_ws_pos s pos in
    let n = suc (name_length (drop (i + 1) s)) in
    if is_fn_name_start (at s i) then some (take n (drop i s), i + n) else none

unfoldable pub match_empty_parens : Bytes → ℕ → Option ℕ
unfolding skip_ws_pos
match_empty_parens s pos =
    let i = skip_ws_pos s pos in
    let j = skip_ws_pos s (i + 1) in
    if not (at s i == b'(') then none else if not (at s j == b')') then none else some (j + 1)

abbrev pub answered_by {ℓ} : {A : Type ℓ} → Option A → Bool
answered_by none = false
answered_by (some a) = true

abbrev pub opens_body : Bytes → Option ℕ → Bool
opens_body s none = false
opens_body s (some j) = answered_by (match_lbrace_at s j)

abbrev pub opens_fn : Bytes → Option (Bytes × ℕ) → Bool
opens_fn s none = false
opens_fn s (some (name, j)) = opens_body s (match_empty_parens s j)

-- A name, `()` and `{`.
unfoldable pub looks_like_fn_def : Bytes → ℕ → Bool
unfolding scan_fn_name match_empty_parens match_lbrace_at
looks_like_fn_def s pos = opens_fn s (scan_fn_name s pos)
