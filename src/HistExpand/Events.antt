-- ===== src/HistExpand/Events.antt =====
-- What each designator stands for (src/mid/hist_expand.c).
use petrush.Base.{
  ℕ, zero, suc, ◌+◌, ◌-◌, ◌*◌, ◌/◌, ◌%◌, ◌^◌, ◌≤◌, ◌<◌, ◌≡◌, ◌≢◌, refl, ◌∙◌, Bool, true, false,
  Option, none, some, List, [], ◌∷◌, ◌++◌, arith, length, take, not, ltb, ◌==◌, if◌then◌else◌,
  get_elem?, inl, inr, Bool-cases, length-take, get_elem?-take,
}
use petrush.Text.{
  Bytes, codes, str_eq, is_space, is_digit, skip_space, decimal, decimal_onto, AllBytes,
  skip_space-append, decimal-head,
}
use petrush.HistExpand.{
  is_event, hist_last_event, hist_word_designator, strtol_from, numbered, hist_expand_line,
  split_words, take_word, drop_word, max_words,
}

-- Printing a number and reading it back: digits that stand behind a value already read.
strtol-decimal_onto :
    (f n : ℕ) (rest : Bytes) → n < f → strtol_from 0 (decimal_onto f n rest) ≡ strtol_from n rest
unfolding strtol_from decimal_onto
strtol-decimal_onto zero n rest h = absurd (omega arith)
strtol-decimal_onto (suc f) n rest h = elim (Bool-cases (ltb n 10)) [
  | inl one ↦ rw one (ground arith)
  | inr more ↦
      let digit : is_digit (48 + n % 10) ≡ true = ground arith in
      let value : n / 10 * 10 + (48 + n % 10 - 48) ≡ n = omega arith in
      rw more
        (strtol-decimal_onto f (n / 10) ((48 + n % 10) ∷ rest) (ground arith) ∙ rw (digit, value))
]

strtol-decimal : (n : ℕ) → strtol_from 0 (decimal n) ≡ (n, [])
unfolding strtol_from decimal
strtol-decimal n = strtol-decimal_onto (suc n) n [] (omega arith)

-- `!` and a number is the event of the history that the number, read as an `int`, names.
hist-decimal :
    (events : List Bytes) (n : ℕ)
    → hist_expand_line events (b'!' ∷ decimal n) ≡ numbered events (n, [])
unfolding hist_expand_line
hist-decimal events n =
    let (d, ds, e', g) = decimal-head n in
    let read : strtol_from 0 (d ∷ ds) ≡ (n, []) = rw e' at (strtol-decimal n) in
    rw e' (unfold str_eq in ground (arith, read))

-- `!n` is the n-th event, counted from 1 at the oldest, for every n that is an `int`; beyond the
-- history there is no expansion.
pub hist_number :
    (events : List Bytes) (n : ℕ)
    → 1 ≤ n
    → n < 2 ^ 31
    → hist_expand_line events (b'!' ∷ decimal n) ≡ get_elem? events (n - 1)
hist_number events n lo hi =
    let low : n % 2 ^ 32 ≡ n = omega arith in hist-decimal events n ∙ ground (arith, low)

-- A number that is 2 ^ 32 too large names the same event as the number itself: the cast to `int`
-- drops the high bits.
pub hist_number_wraps :
    (events : List Bytes) (n : ℕ)
    → 1 ≤ n
    → n < 2 ^ 31
    → hist_expand_line events (b'!' ∷ decimal (2 ^ 32 + n)) ≡ get_elem? events (n - 1)
hist_number_wraps events n lo hi =
    let low : (2 ^ 32 + n) % 2 ^ 32 ≡ n = omega arith in
    hist-decimal events (2 ^ 32 + n) ∙ ground (arith, low)

abbrev pub NoEvents : List Bytes → Type 0
NoEvents [] = Unit
NoEvents (h ∷ hs) = (is_event h ≡ false) × NoEvents hs

last_event-none : (hs : List Bytes) → NoEvents hs → hist_last_event hs ≡ none
unfolding hist_last_event
last_event-none [] h = refl
last_event-none (x ∷ hs) h = rw (last_event-none hs h.1) (rw h.0)

last_event-some :
    (older newer : List Bytes) (e : Bytes)
    → is_event e ≡ true
    → NoEvents newer
    → hist_last_event (older ++ e ∷ newer) ≡ some e
unfolding hist_last_event
last_event-some [] newer e r h = rw (last_event-none newer h) (rw r)
last_event-some (x ∷ older) newer e r h = rw (last_event-some older newer e r h)

-- `!!` is the newest event that is not empty and not "!!", behind any leading space; where there
-- is none, there is no expansion.
pub hist_bang_bang :
    (blank : Bytes) (older newer : List Bytes) (e : Bytes)
    → AllBytes is_space blank
    → is_event e ≡ true
    → NoEvents newer
    → (hist_expand_line (older ++ e ∷ newer) (blank ++ codes "!!") ≡ some e)
      × (hist_expand_line newer (blank ++ codes "!!") ≡ none)
unfolding hist_expand_line str_eq
hist_bang_bang blank older newer e b r h =
    rw (skip_space-append blank (codes "!!") b)
      (last_event-some older newer e r h, last_event-none newer h)

abbrev pub is_black : ℕ → Bool
is_black c = not (is_space c)

-- A line as its words, each with the space before it.
abbrev pub Spaced : Type 0
Spaced = List (Bytes × Bytes)

abbrev pub render : Spaced → Bytes → Bytes
render [] tail = tail
render ((b, w) ∷ ps) tail = b ++ (w ++ render ps tail)

abbrev pub words_of : Spaced → List Bytes
words_of [] = []
words_of ((b, w) ∷ ps) = w ∷ words_of ps

abbrev pub Follows : Spaced → Type 0
Follows [] = Unit
Follows ((b, w) ∷ ps) = b ≢ []

abbrev pub IsSpaced : Spaced → Type 0
IsSpaced [] = Unit
IsSpaced ((b, w) ∷ ps) =
    AllBytes is_space b × (w ≢ []) × AllBytes is_black w × Follows ps × IsSpaced ps

abbrev StartsBlank : Bytes → Type 0
StartsBlank [] = Unit
StartsBlank (c ∷ cs) = is_space c ≡ true

StartsBlank-append : (b cs : Bytes) → b ≢ [] → AllBytes is_space b → StartsBlank (b ++ cs)
StartsBlank-append [] cs ne h = absurd (ne refl)
StartsBlank-append (c ∷ b) cs ne h = h.0

StartsBlank-all : (b : Bytes) → AllBytes is_space b → StartsBlank b
StartsBlank-all [] h = tt
StartsBlank-all (c ∷ b) h = h.0

StartsBlank-render :
    (ps : Spaced) (tail : Bytes)
    → Follows ps
    → IsSpaced ps
    → AllBytes is_space tail
    → StartsBlank (render ps tail)
StartsBlank-render [] tail f h t = StartsBlank-all tail t
StartsBlank-render ((b, w) ∷ ps) tail f h t = StartsBlank-append b (w ++ render ps tail) f h.0

take_word-append :
    (w rest : Bytes)
    → AllBytes is_black w
    → StartsBlank rest
    → (take_word (w ++ rest) ≡ w) × (drop_word (w ++ rest) ≡ rest)
unfolding take_word drop_word
take_word-append [] [] h s = (refl, refl)
take_word-append [] (c ∷ cs) h s = rw s (refl, refl)
take_word-append (c ∷ w) rest h s = ground (arith, take_word-append w rest h.1 s)

split_words-word :
    (k : ℕ) (w rest : Bytes)
    → w ≢ []
    → AllBytes is_black w
    → StartsBlank rest
    → split_words (suc k) (w ++ rest) ≡ w ∷ split_words k rest
unfolding split_words
split_words-word k [] rest ne h s = absurd (ne refl)
split_words-word k (c ∷ w) rest ne h s =
    let (x, y) = take_word-append (c ∷ w) rest h s in
    let dark : skip_space (c ∷ (w ++ rest)) ≡ c ∷ (w ++ rest) = ground arith in
    rw (dark, split_words) (rw (x, y))

split_words-skip :
    (k : ℕ) (b rest : Bytes) → AllBytes is_space b → split_words k (b ++ rest) ≡ split_words k rest
unfolding split_words
split_words-skip zero b rest h = refl
split_words-skip (suc k) b rest h = rw (skip_space-append b rest h, split_words)

skip_space-all : (b : Bytes) → AllBytes is_space b → skip_space b ≡ []
unfolding skip_space
skip_space-all [] h = refl
skip_space-all (c ∷ b) h = rw (h.0) (skip_space-all b h.1)

-- Splitting a line gives its words in order, at most `k` of them, whatever the space between.
pub split_words-render :
    (k : ℕ) (ps : Spaced) (tail : Bytes)
    → IsSpaced ps
    → AllBytes is_space tail
    → split_words k (render ps tail) ≡ take k (words_of ps)
unfolding split_words
split_words-render zero ps tail h t = refl
split_words-render (suc k) [] tail h t = rw (skip_space-all tail t, split_words)
split_words-render (suc k) ((b, w) ∷ ps) tail h t = rw (
  split_words-skip (suc k) b (w ++ render ps tail) h.0,
  split_words-word k w (render ps tail) h.1 h.2 (StartsBlank-render ps tail h.3 h.4 t),
  split_words-render k ps tail h.4 t,
)

abbrev last_of : List Bytes → Option Bytes
last_of xs = if length xs == 0 then none else get_elem? xs (length xs - 1)

last_of-suc : (xs : List Bytes) (m : ℕ) → length xs ≡ suc m → last_of xs ≡ get_elem? xs m
last_of-suc xs m h =
    let some_word : (length xs == 0) ≡ false = ground arith in
    let top : length xs - 1 ≡ m = omega arith in rw (some_word, top)

last_of-take :
    (ws : List Bytes)
    → length ws ≤ max_words
    → last_of (take max_words ws) ≡ get_elem? ws (length ws - 1)
last_of-take [] h = refl
last_of-take (w ∷ ws) h =
    let i = length ws in
    let top : suc i - 1 ≡ i = omega arith in
    let n : length (take max_words (w ∷ ws)) ≡ suc i =
      omega (arith, length-take max_words (w ∷ ws)) in
    last_of-suc (take max_words (w ∷ ws)) i n
    ∙ get_elem?-take max_words (w ∷ ws) i (omega arith)
    ∙ rw top

last_of-take_many :
    (ws : List Bytes) → max_words < length ws → last_of (take max_words ws) ≡ get_elem? ws 63
last_of-take_many ws h =
    let n : length (take max_words ws) ≡ suc 63 = omega (arith, length-take max_words ws) in
    last_of-suc (take max_words ws) 63 n ∙ get_elem?-take max_words ws 63 (omega arith)

second_of-take :
    (ws : List Bytes)
    → (if length (take max_words ws) == 0
        then none
        else if ltb (length (take max_words ws)) 2
        then none
        else get_elem? (take max_words ws) 1)
      ≡ get_elem? ws 1
second_of-take [] = refl
second_of-take (w ∷ []) = refl
second_of-take (w ∷ v ∷ ws) = ground arith

-- `!$` is the last word of the last event where it has at most 64 words, and the 64th word where
-- it has more; `!^` is the second word, and nothing where there is only one.
pub hist_word_designator_lem :
    (ps : Spaced) (tail : Bytes)
    → IsSpaced ps
    → AllBytes is_space tail
    → (length (words_of ps) ≤ max_words
        → hist_word_designator (render ps tail) b'$'
          ≡ get_elem? (words_of ps) (length (words_of ps) - 1))
      × (max_words < length (words_of ps)
          → hist_word_designator (render ps tail) b'$' ≡ get_elem? (words_of ps) 63)
      × (hist_word_designator (render ps tail) b'^' ≡ get_elem? (words_of ps) 1)
unfolding hist_word_designator
hist_word_designator_lem ps tail h t =
    rw (split_words-render max_words ps tail h t)
      (last_of-take (words_of ps), last_of-take_many (words_of ps), second_of-take (words_of ps))
