-- ===== src/Alias.antt =====
-- The alias table and the expansion of a line's first word (src/mid/alias.c).
pub mod Table
pub mod Invariant
pub mod Expand
pub mod Reach
use mathlib.Core.Option
use petrush.Base.{
  ℕ, ◌-◌, Bool, true, false, not, ◌&&◌, ◌||◌, Option, none, some, List, [], ◌∷◌, ◌++◌, leb, ◌==◌,
  if◌then◌else◌, length, take, replicate,
}
use petrush.Text.{Bytes, codes, str_eq, is_alpha, is_alnum, is_space, skip_space}

abbrev pub alias_max : ℕ
alias_max = 64

abbrev pub alias_name_max : ℕ
alias_name_max = 64

abbrev pub alias_val_max : ℕ
alias_val_max = 512

pub record Alias : Type 0 where
  pub name : Bytes
  pub value : Bytes

-- `g_aliases`; `none` is an entry whose `used` is 0.
abbrev pub Aliases : Type 0
Aliases = List (Option Alias)

-- The table at program start, and after `alias_clear_all`.
abbrev pub clear_all : Aliases
clear_all = replicate alias_max none

name_chars : Bytes → Bool
name_chars [] = true
name_chars (c ∷ cs) = (is_alnum c || c == b'_' || c == b'-') && name_chars cs

unfoldable pub valid_name : Bytes → Bool
unfolding name_chars
valid_name [] = false
valid_name (c ∷ cs) = (is_alpha c || c == b'_') && name_chars (c ∷ cs)

-- `snprintf` of "%s" into a buffer of the given size.
abbrev pub copied : ℕ → Bytes → Bytes
copied size s = take (size - 1) s

-- The loop over the entries in use: `none` where no entry has the name.
unfoldable pub update : Bytes → Bytes → Aliases → Option Aliases
update name value [] = none
update name value (none ∷ t) = Option.map (◌∷◌ none) (update name value t)
update name value (some a ∷ t) =
    if str_eq a.name name
    then some (some (record a { value = copied alias_val_max value }) ∷ t)
    else Option.map (◌∷◌ (some a)) (update name value t)

-- The loop over the free entries: `none` where the table is full.
unfoldable pub fill : Bytes → Bytes → Aliases → Option Aliases
fill name value [] = none
fill name value (none ∷ t) =
    some
      (some (record { name = copied alias_name_max name; value = copied alias_val_max value }) ∷ t)
fill name value (some a ∷ t) = Option.map (◌∷◌ (some a)) (fill name value t)

abbrev pub outcome : Aliases → Option Aliases → Bool × Aliases
outcome t none = (false, t)
outcome t (some t') = (true, t')

abbrev pub or_else : Option Aliases → Option Aliases → Option Aliases
or_else none o = o
or_else (some t) o = some t

-- The flag is `true` for the result 0, `false` for -1.
unfoldable pub alias_set : Bytes → Bytes → Aliases → Bool × Aliases
alias_set name value t =
    if not (valid_name name)
    then (false, t)
    else if leb alias_name_max (length name)
    then (false, t)
    else if leb alias_val_max (length value)
    then (false, t)
    else outcome t (or_else (update name value t) (fill name value t))

unfoldable pub remove : Bytes → Aliases → Option Aliases
remove name [] = none
remove name (none ∷ t) = Option.map (◌∷◌ none) (remove name t)
remove name (some a ∷ t) =
    if str_eq a.name name then some (none ∷ t) else Option.map (◌∷◌ (some a)) (remove name t)

unfoldable pub alias_unset : Bytes → Aliases → Bool × Aliases
alias_unset name t = outcome t (remove name t)

unfoldable pub alias_get : Bytes → Aliases → Option Bytes
alias_get name [] = none
alias_get name (none ∷ t) = alias_get name t
alias_get name (some a ∷ t) = if str_eq a.name name then some a.value else alias_get name t

-- The lines of `alias_list_print`.
unfoldable pub alias_list_print : Aliases → List Bytes
alias_list_print [] = []
alias_list_print (none ∷ t) = alias_list_print t
alias_list_print (some a ∷ t) =
    (codes "alias " ++ (a.name ++ (codes "='" ++ (a.value ++ codes "'\n")))) ∷ alias_list_print t

abbrev pub ends_word : ℕ → Bool
ends_word c = is_space c || c == b'|' || c == b'<' || c == b'>' || c == b'&'

-- The first word of a line, and what follows it.
unfoldable pub first_word : Bytes → Bytes
first_word [] = []
first_word (c ∷ cs) = if ends_word c then [] else c ∷ first_word cs

unfoldable pub after_word : Bytes → Bytes
after_word [] = []
after_word (c ∷ cs) = if ends_word c then c ∷ cs else after_word cs

abbrev pub replaced : Bytes → Bytes → Option Bytes → Bytes
replaced line rest none = line
replaced line rest (some repl) = repl ++ rest

-- `line` is the input with its leading space skipped.
expand_trimmed : Aliases → Bytes → Bytes
expand_trimmed t line =
    if length (first_word line) == 0
    then line
    else if leb alias_name_max (length (first_word line))
    then line
    else replaced line (after_word line) (alias_get (first_word line) t)

unfoldable pub alias_expand_line : Aliases → Bytes → Bytes
unfolding expand_trimmed
alias_expand_line t line = expand_trimmed t (skip_space line)
