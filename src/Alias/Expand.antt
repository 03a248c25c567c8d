-- ===== src/Alias/Expand.antt =====
-- The expansion of a line's first word (src/mid/alias.c).
use petrush.Base.{ℕ, ◌<◌, ◌≡◌, ◌≢◌, refl, Bool, true, not, none, some, [], ◌∷◌, ◌++◌, arith, length}
use petrush.Text.{Bytes, is_space, skip_space, AllBytes, skip_space-append, length-pos}
use petrush.Alias.{
  Aliases, alias_name_max, alias_get, ends_word, first_word, after_word, alias_expand_line,
}

abbrev pub is_word_byte : ℕ → Bool
is_word_byte c = not (ends_word c)

-- What follows a word: nothing, or a byte that ends words.
abbrev pub EndsWord : Bytes → Type 0
EndsWord [] = Unit
EndsWord (c ∷ cs) = ends_word c ≡ true

first_word-append :
    (w rest : Bytes)
    → AllBytes is_word_byte w
    → EndsWord rest
    → (first_word (w ++ rest) ≡ w) × (after_word (w ++ rest) ≡ rest)
unfolding first_word after_word
first_word-append [] [] h e = (refl, refl)
first_word-append [] (c ∷ cs) h e = ground arith
first_word-append (x ∷ w) rest h e = ground (arith, first_word-append w rest h.1 e)

skip_space-word :
    (w rest : Bytes) → w ≢ [] → AllBytes is_word_byte w → skip_space (w ++ rest) ≡ w ++ rest
unfolding skip_space
skip_space-word [] rest ne h = absurd (ne refl)
skip_space-word (c ∷ w) rest ne h = ground arith

-- A line is leading space, a first word and the rest, which is empty or begins at a byte that ends
-- words. The word is replaced by its value, once, where it is an alias whose name fits; otherwise
-- the line stays, but for its leading space.
pub alias_expand_line_lem :
    (t : Aliases) (blank word rest : Bytes)
    → AllBytes is_space blank
    → word ≢ []
    → AllBytes is_word_byte word
    → EndsWord rest
    → ((value : Bytes)
        → length word < alias_name_max
        → alias_get word t ≡ some value
        → alias_expand_line t (blank ++ (word ++ rest)) ≡ value ++ rest)
      × (alias_get word t ≡ none → alias_expand_line t (blank ++ (word ++ rest)) ≡ word ++ rest)
unfolding alias_expand_line
alias_expand_line_lem t blank word rest b ne w e =
    let (first, after) = first_word-append word rest w e in
    rw (skip_space-append blank (word ++ rest) b, skip_space-word word rest ne w, first, after)
      (
        λ value short found. ground (arith, length-pos word ne),
        λ absent. ground (arith, length-pos word ne),
      )
