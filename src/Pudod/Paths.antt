-- ===== src/Pudod/Paths.antt =====
-- The checks of the helper: src/pudod/allow_resolve.c, target_check.c and child_argv.c.
use petrush.Base.{
  ℕ, ◌+◌, ◌-◌, ◌/◌, ◌%◌, Bool, false, not, ◌&&◌, ◌||◌, Option, none, some, List, [], ◌∷◌, ◌==◌, leb,
  ltb, if◌then◌else◌, length, take,
}
use petrush.Text.{Bytes, codes, str_eq}

abbrev pub slash : ℕ
slash = b'/'

abbrev pub is_absolute : Bytes → Bool
is_absolute [] = false
is_absolute (c ∷ cs) = c == slash

-- A path in a buffer of the given size; a longer one is cut.
abbrev pub clipped : ℕ → Bytes → Bytes
clipped size path = if leb size (length path) then take (size - 1) path else path

abbrev pub clip_answer : {W : Type 0} → ℕ → Option Bytes × W → Option Bytes × W
clip_answer size (none, w) = (none, w)
clip_answer size (some canonical, w) = (some (clipped size canonical), w)

-- `pudod_resolve_allow_entry`; `realpath` is the one of the C library.
unfoldable pub resolve_allow_entry :
    {W : Type 0} → (W → Bytes → Option Bytes × W) → ℕ → Bytes → W → Option Bytes × W
resolve_allow_entry realpath size entry w =
    if size == 0
    then (none, w)
    else if is_absolute entry
    then clip_answer size (realpath w entry)
    else (none, w)

abbrev pub or_here : Bool → Bytes → Option Bytes → Option Bytes
or_here here cs (some base) = some base
or_here here cs none = if here then some cs else none

-- The text behind the last slash.
unfoldable pub after_last_slash : Bytes → Option Bytes
after_last_slash [] = none
after_last_slash (c ∷ cs) = or_here (c == slash) cs (after_last_slash cs)

abbrev pub shells : List Bytes
shells = codes "sh" ∷ codes "bash" ∷ codes "dash" ∷ codes "ash" ∷ codes "busybox" ∷ []

unfoldable pub is_one_of : Bytes → List Bytes → Bool
unfolding str_eq
is_one_of name [] = false
is_one_of name (s ∷ rest) = str_eq name s || is_one_of name rest

abbrev pub shell_base : Option Bytes → Option Bool
shell_base none = none
shell_base (some []) = none
shell_base (some (c ∷ cs)) = some (is_one_of (c ∷ cs) shells)

-- `none` is the result -1.
unfoldable pub path_is_generic_shell : Bytes → Option Bool
unfolding after_last_slash is_one_of
path_is_generic_shell path = shell_base (after_last_slash path)

-- What `fstat` tells.
pub record Stat : Type 0 where
  pub mode : ℕ
  pub uid : ℕ

-- One bit of a mode.
abbrev pub bit : ℕ → ℕ → Bool
bit mode value = (mode / value) % 2 == 1

-- `S_ISREG`: the type in the bits 0170000 is 0100000.
abbrev pub is_regular : ℕ → Bool
is_regular mode = (mode / 4096) % 16 == 8

unfoldable pub target_is_root_exec : Stat → Bool
target_is_root_exec st =
    is_regular st.mode && st.uid == 0 && (bit st.mode 1 || bit st.mode 8 || bit st.mode 64)

-- The owner is root, and neither the bit 020 nor 002 is set.
abbrev pub is_trusted : Stat → Bool
is_trusted st = st.uid == 0 && not (bit st.mode 16 || bit st.mode 2)

abbrev pub max_args : ℕ
max_args = 128

-- The vector for the program, without its NULL; `cap` is the room with it.
unfoldable pub build_child_argv : List Bytes → Bytes → ℕ → Option (List Bytes)
build_child_argv (prog ∷ cmd ∷ args) resolved cap =
    if ltb cap 2
    then none
    else if ltb max_args (length args)
    then none
    else if ltb cap (length args + 2)
    then none
    else some (resolved ∷ args)
build_child_argv _ resolved cap = none
