-- ===== src/HistExpand.antt =====
-- History expansion of `!!`, `!n`, `!$` and `!^` (src/mid/hist_expand.c). The history is the list
-- that the UI port serves, oldest event first: an index out of range gives NULL there.
pub mod Events
use petrush.Base.{
  ℕ, zero, suc, ◌+◌, ◌-◌, ◌*◌, ◌%◌, ◌^◌, Bool, true, false, not, ◌&&◌, ◌||◌, Option, none, some,
  List, [], ◌∷◌, leb, ltb, ◌==◌, if◌then◌else◌, length, drop, get_elem?,
}
use petrush.Text.{Bytes, codes, str_eq, is_space, is_digit, skip_space, at}

-- A real event is not empty and not "!!".
abbrev pub is_event : Bytes → Bool
is_event h = not (length h == 0) && not (str_eq h (codes "!!"))

-- The loop runs from the newest event to the oldest: the last real event of the list.
unfoldable pub hist_last_event : List Bytes → Option Bytes
hist_last_event [] = none
hist_last_event (h ∷ hs) =
    let newer = hist_last_event hs in
    elim newer [ some e ↦ some e | none ↦ if is_event h then some h else none ]

unfoldable pub take_word : Bytes → Bytes
take_word [] = []
take_word (c ∷ cs) = if is_space c then [] else c ∷ take_word cs

unfoldable pub drop_word : Bytes → Bytes
drop_word [] = []
drop_word (c ∷ cs) = if is_space c then c ∷ cs else drop_word cs

-- The words of a line, at most as many as the first argument.
unfoldable pub split_words : ℕ → Bytes → List Bytes
unfolding take_word drop_word skip_space
split_words zero p = []
split_words (suc k) p = elim (skip_space p) [
  | [] ↦ []
  | c ∷ cs ↦ take_word (c ∷ cs) ∷ split_words k (drop_word (c ∷ cs))
]

-- The size of `starts` and `lens`.
abbrev pub max_words : ℕ
max_words = 64

unfoldable pub hist_word_designator : Bytes → ℕ → Option Bytes
unfolding split_words
hist_word_designator event which =
    let words = split_words max_words event in
    if length words == 0
    then none
    else if which == b'$'
    then get_elem? words (length words - 1)
    else if which == b'^'
    then (if ltb (length words) 2 then none else get_elem? words 1)
    else none

-- `strtol(p, &end, 10)` at a digit: the value of the digits, and the text at `end`.
unfoldable pub strtol_from : ℕ → Bytes → ℕ × Bytes
strtol_from acc [] = (acc, [])
strtol_from acc (c ∷ cs) =
    if is_digit c then strtol_from (acc * 10 + (c - 48)) cs else (acc, c ∷ cs)

-- `strtol` stops at LONG_MAX.
abbrev pub long_max : ℕ
long_max = 2 ^ 63 - 1

abbrev pub saturate : ℕ → ℕ
saturate n = if ltb long_max n then long_max else n

-- `petrush_history_get((int)num - 1)`: the cast keeps the low 32 bits, and the index is negative,
-- or wraps to one beyond the history, where they are 0 or have the sign bit.
abbrev pub get_event : List Bytes → ℕ → Option Bytes
get_event events num =
    let m = num % 2 ^ 32 in if m == 0 || leb (2 ^ 31) m then none else get_elem? events (m - 1)

abbrev pub numbered : List Bytes → ℕ × Bytes → Option Bytes
numbered events (v, rest) =
    if length rest == 0 && leb 1 (saturate v) then get_event events (saturate v) else none

abbrev pub designated : Option Bytes → ℕ → Option Bytes
designated none which = none
designated (some h) which = hist_word_designator h which

-- `line` is the input with its leading space skipped.
expand_trimmed : List Bytes → Bytes → Option Bytes
expand_trimmed events line =
    if str_eq line (codes "!!")
    then hist_last_event events
    else if str_eq line (codes "!$")
    then designated (hist_last_event events) b'$'
    else if str_eq line (codes "!^")
    then designated (hist_last_event events) b'^'
    else if at line 0 == b'!' && is_digit (at line 1)
    then numbered events (strtol_from 0 (drop 1 line))
    else none

unfoldable pub hist_expand_line : List Bytes → Bytes → Option Bytes
unfolding expand_trimmed hist_last_event hist_word_designator strtol_from skip_space
hist_expand_line events line = expand_trimmed events (skip_space line)
