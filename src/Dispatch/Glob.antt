-- ===== src/Dispatch/Glob.antt =====
-- `case_pat_match` (src/mid/dispatcher.c): `*` and `?` in the patterns of `case` and `[[`.
pub mod Matches
pub mod Decides
use petrush.Base.{
  ℕ, zero, suc, ◌≡◌, refl, Bool, true, false, ◌&&◌, ◌||◌, Option, none, some, List, [], ◌∷◌, ◌==◌,
  if◌then◌else◌, length,
}
use petrush.Text.{Bytes, codes}

abbrev pub star : ℕ
star = b'*'

-- The last loop, and the test for the end.
unfoldable pub only_stars : Bytes → Bool
only_stars [] = true
only_stars (c ∷ p) = c == star && only_stars p

-- What the byte of the text meets: a star in the pattern, a byte that it matches, or neither.
pub data Meet : Type 0 where
  at_star matching mismatch : Meet

abbrev pub meet : Bytes → ℕ → Meet
meet [] x = mismatch
meet (c ∷ p) x = if c == star then at_star else if c == b'?' || c == x then matching else mismatch

abbrev pub behind : Bytes → Bytes
behind [] = []
behind (c ∷ cs) = cs

-- `star_p` and `star_s`, the pattern behind the last star and the text that it stands at.
abbrev pub Star : Type 0
Star = Option (Bytes × Bytes)

abbrev pub GlobLoop : Type 0
GlobLoop = Bytes → Bytes → Star → Option Bool

-- One round, with the loop for one star less, for one byte less behind the star, and for one byte less
-- of the text.
abbrev pub glob_step :
    Meet → Bytes → ℕ → Bytes → Star → (ℕ → ℕ → GlobLoop) → (ℕ → GlobLoop) → GlobLoop → Option Bool
glob_step at_star p x s st stars takes steps =
    stars (suc (length (x ∷ s))) (suc (length (x ∷ s))) (behind p) (x ∷ s) (some (behind p, x ∷ s))
glob_step matching p x s st stars takes steps = steps (behind p) s st
glob_step mismatch p x s none stars takes steps = some false
glob_step mismatch p x s (some (sp, ss)) stars takes steps =
    takes (suc (length (behind ss))) sp (behind ss) (some (sp, behind ss))

-- The first loop; the fuels bound the stars that are left, the bytes that a star takes, and the text.
-- `none` means that a fuel ran out.
unfoldable pub glob_loop : ℕ → ℕ → ℕ → GlobLoop
unfolding only_stars
glob_loop a b c p [] st = some (only_stars p)
glob_loop (suc a) (suc b) (suc c) p (x ∷ s) st =
    glob_step (meet p x) p x s st (glob_loop a) (glob_loop (suc a) b) (glob_loop (suc a) (suc b) c)
glob_loop _ _ _ p (x ∷ s) st = none

abbrev pub is_true : Option Bool → Bool
is_true none = false
is_true (some b) = b

unfoldable pub case_pat_match : Bytes → Bytes → Bool
unfolding glob_loop
case_pat_match pat str =
    is_true (glob_loop (suc (length pat)) (suc (length str)) (suc (length str)) pat str none)

backtracks : case_pat_match (codes "*a?b*") (codes "xaabayb") ≡ true
unfolding case_pat_match
backtracks = refl

anchored : case_pat_match (codes "a*b") (codes "aab.") ≡ false
unfolding case_pat_match
anchored = refl
