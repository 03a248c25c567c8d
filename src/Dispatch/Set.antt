-- ===== src/Dispatch/Set.antt =====
-- The builtin `set` (src/mid/dispatcher.c).
pub mod Answer
pub mod Lines
use petrush.Base.{
  ℕ, Bool, true, false, not, ◌&&◌, ◌||◌, Option, none, some, List, [], ◌∷◌, ◌++◌, ◌==◌,
  if◌then◌else◌,
}
use petrush.Base.Int.{ℤ, pos}
use petrush.Text.{Bytes, codes, str_eq}
use petrush.Expand.Options.{Options, shellopt_set}
use petrush.Expand.Positional.{Positional, or_empty}
use petrush.Dispatch.Shell.{Outer, Host, raise_abort}

-- `none` is the result -1.
unfoldable pub set_apply_letter : ℕ → Bool → Options → Option Options
unfolding shellopt_set
set_apply_letter letter on o =
    if letter == b'x'
    then some (shellopt_set b'x' on o).1
    else if letter == b'u'
    then some (shellopt_set b'u' on o).1
    else if letter == b'e'
    then some (shellopt_set b'e' on o).1
    else if letter == b'C'
    then (if on then some o else none)
    else none

unfoldable pub set_apply_o_name : Bytes → Bool → Options → Option Options
unfolding shellopt_set str_eq
set_apply_o_name name on o =
    if str_eq name (codes "xtrace")
    then some (shellopt_set b'x' on o).1
    else if str_eq name (codes "nounset")
    then some (shellopt_set b'u' on o).1
    else if str_eq name (codes "errexit")
    then some (shellopt_set b'e' on o).1
    else if str_eq name (codes "noclobber")
    then (if on then some o else none)
    else none

-- A sign with something behind it.
abbrev pub is_option : Bytes → Bool
is_option [] = false
is_option (c ∷ []) = false
is_option (c ∷ d ∷ cs) = c == b'-' || c == b'+'

abbrev pub is_on : Bytes → Bool
is_on [] = false
is_on (c ∷ cs) = c == b'-'

abbrev pub option_letters : Bytes → Bytes
option_letters [] = []
option_letters (c ∷ cs) = cs

-- `strchr` for `=`: what stands before and behind it.
abbrev pub put_before : ℕ → Option (Bytes × Bytes) → Option (Bytes × Bytes)
put_before c none = none
put_before c (some (name, value)) = some (c ∷ name, value)

unfoldable pub at_equals : Bytes → Option (Bytes × Bytes)
at_equals [] = none
at_equals (c ∷ cs) =
    let more = put_before c (at_equals cs) in if c == b'=' then some ([], cs) else more

abbrev pub env_line : Bytes → Option (Bytes × Bytes) → Bytes
env_line e none = e ++ codes "=\n"
env_line e (some (name, value)) = name ++ (b'=' ∷ value ++ codes "\n")

-- What the builtin does from some place on.
abbrev pub SetArgs : Type 0 → Type 0
SetArgs W = Outer W → Outer W × ℤ

module _ {W : Type 0} where
  -- An error ends the script; the options that were applied before it stay.
  abbrev pub set_fail : SetArgs W
  set_fail o = (raise_abort o, pos 1)

  abbrev pub set_done : SetArgs W
  set_done o = (o, pos 0)

  -- Behind one letter or name.
  abbrev pub set_then : Option Options → SetArgs W → SetArgs W
  set_then none next o = set_fail o
  set_then (some opts) next o = next (record o { opts = opts })

  unfoldable pub set_letters : Bytes → Bool → SetArgs W → SetArgs W
  unfolding set_apply_letter
  set_letters [] on next o = next o
  set_letters (c ∷ cs) on next o =
      set_then (set_apply_letter c on o.opts) (set_letters cs on next) o

  -- `-o` and `+o`, with the name and what follows it.
  abbrev pub set_named : Option (Bytes × SetArgs W) → Bool → SetArgs W
  set_named none on o = set_fail o
  set_named (some (name, next)) on o = set_then (set_apply_o_name name on o.opts) next o

  -- $0 stays.
  abbrev pub set_rewrite_positionals : List Bytes → Outer W → Outer W
  set_rewrite_positionals args o = record o {
    positional = record { arg0 = some (or_empty o.positional.arg0); args = args };
  }

  -- One argument, with those behind it.
  abbrev pub set_arg : Bytes → List Bytes → Option (Bytes × SetArgs W) → SetArgs W → SetArgs W
  set_arg arg args named next o =
      if str_eq arg (codes "--")
      then set_done (set_rewrite_positionals args o)
      else if is_option arg
      then (if str_eq (option_letters arg) (codes "o")
          then set_named named (is_on arg) o
          else set_letters (option_letters arg) (is_on arg) next o)
      else set_done (set_rewrite_positionals (arg ∷ args) o)

  unfoldable pub set_loop : List Bytes → SetArgs W
  unfolding set_letters set_apply_o_name str_eq
  set_loop [] o = set_done o
  set_loop (arg ∷ []) o = set_arg arg [] none set_done o
  set_loop (arg ∷ name ∷ rest) o =
      set_arg arg (name ∷ rest) (some (name, set_loop rest)) (set_loop (name ∷ rest)) o

  unfoldable pub print_env : (Bytes → W → W) → List Bytes → W → W
  unfolding at_equals
  print_env print [] w = w
  print_env print (e ∷ es) w = print_env print es (print (env_line e (at_equals e)) w)

  -- Without arguments the environment is listed.
  unfoldable pub builtin_set : Host W → List Bytes → Outer W → Outer W × ℤ
  unfolding set_loop print_env
  builtin_set h [] o = (record o { world = print_env h.print (h.environ o) o.world }, pos 0)
  builtin_set h (arg ∷ args) o = set_loop (arg ∷ args) o
