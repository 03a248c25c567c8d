-- ===== src/Parser/Scan/Progress.antt =====
-- What the scans of words take: at least a byte for each word, and no byte behind the text.
use petrush.Base.{
  ℕ, zero, suc, ◌+◌, ◌≤◌, ◌<◌, ◌≡◌, ◌≢◌, refl, Bool, false, List, [], ◌∷◌, arith, ◌==◌, length,
  take, drop, inl, inr, Bool-cases, length-drop,
}
use petrush.Text.{Bytes, codes}
use petrush.Parser.Result.{Yields, yields, yields_error, Yields-bind, Yields-branch, Yields-answer}
use petrush.Parser.Span.{is_quote}
use petrush.Parser.Token.{quoted_length, group_rest}
use petrush.Parser.Keyword.{skip_ws_pos, match_kw_at}
use petrush.Parser.Scan.{
  Scanned, open_length, scan_until, word_of, for_words, case_patterns, DbToken, db_end, db_token,
  db_token_at, db_tokens,
}
use petrush.Parser.Scan.Moves.{Between, skip_ws_pos-Between, at-inside, Past, match_kw_at-Past}

length-quoted : (q : ℕ) (p : Bytes) → quoted_length q p ≤ length p
unfolding quoted_length
length-quoted q [] = omega arith
length-quoted q (c ∷ cs) = ground (arith, length-quoted q cs)

length-open : (stops : ℕ → Bool) (skip : ℕ) (p : Bytes) → open_length stops skip p ≤ length p
unfolding open_length
length-open stops skip [] = omega arith
length-open stops (suc skip) (c ∷ cs) = omega (arith, length-open stops skip cs)
length-open stops zero (c ∷ cs) = ground (arith, length-open stops (group_rest (c ∷ cs)) cs)

take-some : (n : ℕ) (p : Bytes) → take n p ≢ [] → 0 < n
take-some zero p h = absurd (h refl)
take-some (suc n) p h = omega arith

-- A scan stays within the text, and takes something for a word that is not empty.
scan_until-used :
    (stops : ℕ → Bool) (p : Bytes)
    → ((scan_until stops p).used ≤ length p)
      × ((scan_until stops p).text ≢ [] → 0 < (scan_until stops p).used)
unfolding scan_until
scan_until-used stops [] = (omega arith, λ h. absurd (h refl))
scan_until-used stops (c ∷ cs) = elim (Bool-cases (is_quote c)) [
  | inl q ↦ rw q (omega (arith, length-quoted c cs), λ _. omega arith)
  | inr q ↦ rw q (length-open stops 0 (c ∷ cs), take-some (open_length stops 0 (c ∷ cs)) (c ∷ cs))
]

-- A word that is not empty, and a position behind it.
abbrev pub IsWordAt : Bytes → ℕ → Scanned × ℕ → Type 0
IsWordAt s pos (w, j) = (w.text ≢ []) × Past s pos j

length-zero : (p : Bytes) → (length p == 0) ≡ false → p ≢ []
length-zero [] h = absurd (ground arith)
length-zero (c ∷ p) h = λ e. cc

pub word_of-IsWordAt :
    (s : Bytes) (pos : ℕ) (stops : ℕ → Bool)
    → pos ≤ length s
    → Yields (IsWordAt s pos) (word_of pos (scan_until stops (drop pos s)))
word_of-IsWordAt s pos stops h =
    let w = scan_until stops (drop pos s) in
    elim (Bool-cases (length w.text == 0)) [
      | inl e ↦ rw e yields_error
      | inr e ↦
          let some_text = length-zero w.text e in
          let (le, lt) = scan_until-used stops (drop pos s) in
          let pos_used = lt some_text in
          rw e (yields (some_text, (omega arith, omega (arith, length-drop pos s))))
    ]

abbrev pub AllFull : List Bytes → Type 0
AllFull [] = Unit
AllFull (w ∷ ws) = (w ≢ []) × AllFull ws

-- As many rounds as there are bytes left are enough fuel for the loops over words.
pub for_words-Yields :
    (f : ℕ) (s : Bytes) (pos : ℕ)
    → pos ≤ length s
    → length s < pos + f
    → Yields (λ (ws, e). AllFull ws × Between s pos e) (for_words f s pos)
unfolding for_words
for_words-Yields zero s pos h enough = absurd (omega arith)
for_words-Yields (suc f) s pos h enough =
    let i = skip_ws_pos s pos in
    let (from, to) = skip_ws_pos-Between s pos h in
    Yields-branch _ _ _ (λ _. yields_error)
      λ _.
        Yields-branch _ _ _
          (λ e.
            let l : i < length s = ground (arith, at-inside s i) in
            yields (tt, (omega arith, omega arith)))
          λ _.
            Yields-answer _ _ _
              (λ _. Yields-bind (word_of-IsWordAt s i _ to) λ (w, j) (full, (lt, le)).
                Yields-bind (for_words-Yields f s j le (omega arith))
                  λ (ws, k) (fulls, (from', to')). yields ((full, fulls), (omega arith, to')))
              (λ end _. yields (tt, (from, to)))

-- The patterns of an arm: at least one, and none empty.
abbrev pub ArePatterns : List Bytes → Type 0
ArePatterns ws = (ws ≢ []) × AllFull ws

pub case_patterns-Yields :
    (f : ℕ) (s : Bytes) (pos : ℕ)
    → pos ≤ length s
    → length s < pos + f
    → Yields (λ (ws, e). ArePatterns ws × Past s pos e) (case_patterns f s pos)
unfolding case_patterns
case_patterns-Yields zero s pos h enough = absurd (omega arith)
case_patterns-Yields (suc f) s pos h enough =
    let i = skip_ws_pos s pos in
    let (from, to) = skip_ws_pos-Between s pos h in
    Yields-branch _ _ _ (λ _. yields_error)
      λ _. Yields-bind (word_of-IsWordAt s i _ to) λ (w, j) (full, (lt, le)).
        let k = skip_ws_pos s j in
        let (from', to') = skip_ws_pos-Between s j le in
        Yields-branch _ _ _
          (λ bar.
            let l : k < length s = ground (arith, at-inside s k) in
            Yields-bind (case_patterns-Yields f s (k + 1) (omega arith) (omega arith))
              λ (ws, e) ((some_ws, fulls), (lt', le')).
                yields (((λ q. cc), (full, fulls)), (omega arith, le')))
          λ _.
            Yields-branch _ _ _
              (λ shut.
                let l : k < length s = ground (arith, at-inside s k) in
                yields (((λ q. cc), (full, tt)), (omega arith, omega arith)))
              (λ _. yields_error)

abbrev IsDbToken : Bytes → ℕ → DbToken → Type 0
IsDbToken s pos (db_end e) = Past s pos e
IsDbToken s pos (db_token w quoted e) = (w ≢ []) × Past s pos e

db_token_at-IsDbToken :
    (s : Bytes) (i : ℕ)
    → i ≤ length s
    → Yields (IsDbToken s i) (db_token_at s i (match_kw_at s i (codes "]]")))
unfolding db_token_at
db_token_at-IsDbToken s i h =
    Yields-branch _ _ _ (λ _. yields_error)
      λ _.
        Yields-answer _ _ _
          (λ _.
            Yields-branch _ _ _
              (λ e.
                let l : i + 1 < length s = ground (arith, at-inside s (i + 1)) in
                yields ((λ q. cc), (omega arith, omega arith)))
              λ _.
                Yields-branch _ _ _
                  (λ e.
                    let l : i + 1 < length s = ground (arith, at-inside s (i + 1)) in
                    yields ((λ q. cc), (omega arith, omega arith)))
                  λ _.
                    Yields-branch _ _ _
                      (λ e.
                        let l : i < length s = ground (arith, at-inside s i) in
                        yields ((λ q. cc), (omega arith, omega arith)))
                      λ _. Yields-bind (word_of-IsWordAt s i _ h) λ (w, j) p. yields p)
          (λ end e. yields (match_kw_at-Past s i (codes "]]") end (omega arith) e))

abbrev pub AreTokens : List (Bytes × ℕ) → Type 0
AreTokens [] = Unit
AreTokens ((w, quoted) ∷ ws) = (w ≢ []) × AreTokens ws

pub db_tokens-Yields :
    (f : ℕ) (s : Bytes) (pos : ℕ)
    → pos ≤ length s
    → length s < pos + f
    → Yields (λ (ws, e). AreTokens ws × Past s pos e) (db_tokens f s pos)
unfolding db_tokens
db_tokens-Yields zero s pos h enough = absurd (omega arith)
db_tokens-Yields (suc f) s pos h enough =
    let i = skip_ws_pos s pos in
    let (from, to) = skip_ws_pos-Between s pos h in
    Yields-bind (db_token_at-IsDbToken s i to) (elim [
      | db_end e ↦ λ (lt, le). yields (tt, (omega arith, le))
      | db_token w quoted j ↦ λ (full, (lt, le)).
          Yields-bind (db_tokens-Yields f s j le (omega arith))
            λ (ws, e) (fulls, (lt', le')). yields ((full, fulls), (omega arith, le'))
    ])
