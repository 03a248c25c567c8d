-- ===== src/Examples/Session.antt =====
-- History expansion and the directory stack (src/mid/hist_expand.c, src/mid/dirstack.c).
use petrush.Base.{
  ◌+◌, ◌-◌, ◌^◌, ◌≡◌, ◌≤◌, ◌<◌, refl, Option, none, some, List, [], ◌∷◌, length, arith, get_elem?,
  ap,
}
use petrush.Text.{Bytes, codes, decimal, str_eq}
use petrush.HistExpand.{hist_expand_line, hist_word_designator, max_words}
use petrush.HistExpand.Events.{
  hist_number_wraps, hist_word_designator_lem, Spaced, render, words_of,
}
use petrush.DirStack.{pushd}
use petrush.DirStack.Laws.{push_all, pop_all, pop_all-push_all}

abbrev events : List Bytes
events = codes "ls -la  /tmp" ∷ codes "make" ∷ codes "!!" ∷ []

designators :
    (hist_expand_line events (codes "!!") ≡ some (codes "make"))
    × (hist_expand_line events (codes "!1") ≡ some (codes "ls -la  /tmp"))
    × (hist_expand_line (codes "ls -la  /tmp" ∷ []) (codes "!$") ≡ some (codes "/tmp"))
    × (hist_expand_line (codes "ls -la  /tmp" ∷ []) (codes " !^") ≡ some (codes "-la"))
    × (hist_expand_line events (codes "!x") ≡ none)
unfolding hist_expand_line str_eq
designators = (refl, refl, refl, refl, refl)

-- 4294967298 names the second event.
hist_number_wraps_example :
    hist_expand_line events (b'!' ∷ decimal (2 ^ 32 + 2)) ≡ get_elem? events (2 - 1)
hist_number_wraps_example = hist_number_wraps events 2 (omega arith) (omega arith)

abbrev three_words : Spaced
three_words = ([], codes "ls") ∷ (codes " ", codes "-la") ∷ (codes "  ", codes "/tmp") ∷ []

hist_word_designator_example :
    (length (words_of three_words) ≤ max_words
      → hist_word_designator (render three_words []) b'$'
        ≡ get_elem? (words_of three_words) (length (words_of three_words) - 1))
    × (max_words < length (words_of three_words)
        → hist_word_designator (render three_words []) b'$' ≡ get_elem? (words_of three_words) 63)
    × (hist_word_designator (render three_words []) b'^' ≡ get_elem? (words_of three_words) 1)
hist_word_designator_example =
    hist_word_designator_lem three_words []
      (
        tt,
        (λ e. cc),
        (refl, (refl, tt)),
        (λ e. cc),
        (
          (refl, tt),
          (λ e. cc),
          (refl, (refl, (refl, tt))),
          (λ e. cc),
          ((refl, (refl, tt)), (λ e. cc), (refl, (refl, (refl, (refl, tt)))), tt, tt),
        ),
      )
      tt

-- A world that is its working directory; every directory can be entered.
abbrev here : Bytes → Option Bytes
here w = some w

abbrev enter : Bytes → Bytes → Option Bytes
enter path w = some path

some-injective : (a b : Bytes) → Option.some a ≡ some b → a ≡ b
some-injective a b h = cc

there_and_back :
    push_all here enter (codes "/tmp" ∷ codes "/usr" ∷ []) (codes "/") []
    ≡ some (codes "/usr", codes "/tmp" ∷ codes "/" ∷ [])
unfolding pushd
there_and_back = refl

pop_all-push_all_example :
    pop_all here enter
      (codes "/tmp" ∷ codes "/usr" ∷ [])
      (codes "/usr")
      (codes "/tmp" ∷ codes "/" ∷ [])
    ≡ some (codes "/", [])
pop_all-push_all_example =
    pop_all-push_all here enter (λ path cwd w w' g c. ap some (some-injective cwd w (cc)))
      (codes "/tmp" ∷ codes "/usr" ∷ []) (codes "/") (codes "/usr") []
      (codes "/tmp" ∷ codes "/" ∷ []) there_and_back
