-- ===== src/DirStack.antt =====
-- The directory stack of `pushd` and `popd` (src/mid/dirstack.c).
pub mod Laws
use petrush.Base.{
  ℕ, Bool, true, false, Option, none, some, List, [], ◌∷◌, ◌++◌, leb, length, if◌then◌else◌, ◌==◌,
}
use petrush.Text.{Bytes, codes}

abbrev pub dirstack_max : ℕ
dirstack_max = 32

-- `g_stack` up to `g_size`, the top first.
abbrev pub Stack : Type 0
Stack = List Bytes

abbrev pub clear : Stack
clear = []

abbrev pub size : Stack → ℕ
size s = length s

-- The working directory belongs to the operating system: `W` is its state, `getcwd` gives none and
-- `chdir` none where the call fails, and a `chdir` that fails changes nothing.
module _ {W : Type 0} (getcwd : W → Option Bytes) (chdir : Bytes → W → Option W) where
  abbrev pub push_from : Bytes → W → Stack → Option Bytes → Option W → Bool × W × Stack
  push_from path w s none after = (false, w, s)
  push_from path w s (some cwd) none = (false, w, s)
  push_from path w s (some cwd) (some w') = (true, w', cwd ∷ s)

  -- The flag is `true` for the result 0, `false` for -1.
  unfoldable pub pushd : Bytes → W → Stack → Bool × W × Stack
  pushd path w s =
      if length path == 0
      then (false, w, s)
      else if leb dirstack_max (size s)
      then (false, w, s)
      else push_from path w s (getcwd w) (chdir path w)

  abbrev pub pop_to : W → Stack → Option W → Bool × W × Stack
  pop_to w s none = (false, w, s)
  pop_to w s (some w') = (true, w', s)

  unfoldable pub popd : W → Stack → Bool × W × Stack
  popd w [] = (false, w, [])
  popd w (d ∷ s) = pop_to w s (chdir d w)

  abbrev pub lines : Stack → List Bytes
  lines [] = []
  lines (d ∷ s) = (d ++ codes "\n") ∷ lines s

  abbrev pub cwd_line : Option Bytes → List Bytes
  cwd_line none = []
  cwd_line (some cwd) = (cwd ++ codes "\n") ∷ []

  -- The lines that `dirs` prints.
  unfoldable pub print : W → Stack → List Bytes
  print w s = cwd_line (getcwd w) ++ lines s
