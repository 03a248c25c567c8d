-- ===== src/Pudod/AllowList.antt =====
-- `load_allow_list` and `is_allowed` (src/pudod/pudod.c). The file is a list of bytes, none of them 0.
use petrush.Base.{
  ℕ, zero, suc, ◌-◌, Bool, true, false, ◌||◌, Option, none, some, List, [], ◌∷◌, ◌++◌, ◌==◌, leb,
  if◌then◌else◌, length,
}
use petrush.Text.{Bytes}
use petrush.Pudod.Paths.{
  Stat, is_absolute, clipped, resolve_allow_entry, path_is_generic_shell, is_one_of,
}

abbrev pub path_max : ℕ
path_max = 4096

abbrev pub max_allowed : ℕ
max_allowed = 64

-- `fgets` with room for `n` bytes: a line with its newline, or as much of it as there is room for.
unfoldable pub fgets : ℕ → Bytes → Bytes × Bytes
fgets zero text = ([], text)
fgets (suc n) [] = ([], [])
fgets (suc n) (c ∷ cs) =
    let (line, rest) = fgets n cs in if c == b'\n' then (c ∷ [], cs) else (c ∷ line, rest)

abbrev pub is_blank : ℕ → Bool
is_blank c = c == b' ' || c == b'\t' || c == b'\n' || c == b'\r'

unfoldable pub trim_start : Bytes → Bytes
trim_start [] = []
trim_start (c ∷ cs) = if is_blank c then trim_start cs else c ∷ cs

abbrev pub keep : ℕ → Bytes → Bytes
keep c [] = if is_blank c then [] else c ∷ []
keep c (d ∷ ds) = c ∷ d ∷ ds

unfoldable pub trim_end : Bytes → Bytes
trim_end [] = []
trim_end (c ∷ cs) = keep c (trim_end cs)

abbrev pub absolute_only : Bytes → Option Bytes
absolute_only p = if is_absolute p then some p else none

-- The path that a line names; `none` for an empty line, a comment, and anything that does not begin
-- with a slash.
abbrev pub entry_of : Bytes → Option Bytes
entry_of [] = none
entry_of (c ∷ cs) = if c == b'#' then none else absolute_only (trim_end (c ∷ cs))

unfoldable pub line_entry : Bytes → Option Bytes
unfolding trim_start trim_end
line_entry line = entry_of (trim_start line)

-- A path is allowed unless it is a shell.
abbrev pub unless_shell : Option Bool → Bytes → List Bytes → List Bytes
unless_shell (some true) canonical allowed = allowed
unless_shell (some false) canonical allowed = allowed ++ clipped path_max canonical ∷ []
unless_shell none canonical allowed = allowed ++ clipped path_max canonical ∷ []

-- Behind `pudod_resolve_allow_entry`: the list with the path, if it is to be allowed.
abbrev pub add_allowed : List Bytes → Option Bytes → List Bytes
add_allowed allowed none = allowed
add_allowed allowed (some canonical) =
    unless_shell (path_is_generic_shell canonical) canonical allowed

module _ {W : Type 0} (realpath : W → Bytes → Option Bytes × W) where
  -- One line of the file, by what it names.
  abbrev pub load_entry : Option Bytes → List Bytes → W → List Bytes × W
  load_entry none allowed w = (allowed, w)
  load_entry (some p) allowed w =
      let (canonical, w') = resolve_allow_entry realpath path_max p w in
      (add_allowed allowed canonical, w')

  -- A line and the rest of the file, which `next` goes on with.
  abbrev pub load_line :
      (Bytes → List Bytes → W → List Bytes × W) → Bytes × Bytes → List Bytes → W → List Bytes × W
  load_line next (line, rest) allowed w =
      let (allowed', w') = load_entry (line_entry line) allowed w in next rest allowed' w'

  -- The loop; the fuel bounds the lines.
  unfoldable pub load_lines : ℕ → Bytes → List Bytes → W → List Bytes × W
  unfolding line_entry resolve_allow_entry path_is_generic_shell
  load_lines zero text allowed w = (allowed, w)
  load_lines (suc f) [] allowed w = (allowed, w)
  load_lines (suc f) (c ∷ cs) allowed w =
      let more = load_line (load_lines f) (fgets (path_max - 1) (c ∷ cs)) allowed w in
      if leb max_allowed (length allowed) then (allowed, w) else more

-- The opened file: what `fstat` tells, unless it fails, and the text, unless `fdopen` fails.
pub record ListFile : Type 0 where
  pub stat : Option Stat
  pub stream : Option Bytes

unfoldable pub is_allowed : Bytes → List Bytes → Bool
unfolding is_one_of
is_allowed path allowed = is_one_of path allowed
