-- ===== src/Expand/Options.antt =====
-- The shell options, `$-` and the last status (src/mid/expand.c).
use petrush.Base.{
  ◌&&◌, ℕ, ◌≡◌, ◌↔◌, ◌⊎◌, refl, Bool, true, false, ◌||◌, [], ◌∷◌, ◌++◌, arith, ◌==◌, if◌then◌else◌,
}
use petrush.Base.Int.{ℤ, pos}
use petrush.Text.{Bytes}

pub record Options : Type 0 where
  pub opt_e : Bool
  pub opt_u : Bool
  pub opt_x : Bool
  pub last_status : ℤ
  pub arith_error : Bool
  pub nounset_error : Bool

-- The flag is `true` for the result 0, `false` for -1.
unfoldable pub shellopt_set : ℕ → Bool → Options → Bool × Options
shellopt_set flag on o =
    if flag == b'e'
    then (true, record o { opt_e = on })
    else if flag == b'u'
    then (true, record o { opt_u = on })
    else if flag == b'x'
    then (true, record o { opt_x = on })
    else (false, o)

unfoldable pub shellopt_get : ℕ → Options → Bool
shellopt_get flag o =
    if flag == b'e'
    then o.opt_e
    else if flag == b'u'
    then o.opt_u
    else if flag == b'x'
    then o.opt_x
    else false

abbrev pub letter : Bool → ℕ → Bytes
letter on c = if on then c ∷ [] else []

-- The text of `$-`.
unfoldable pub shellopt_flags : Options → Bytes
shellopt_flags o = b'C' ∷ (letter o.opt_e b'e' ++ (letter o.opt_u b'u' ++ letter o.opt_x b'x'))

abbrev pub last_status_set : ℤ → Options → Options
last_status_set status o = record o { last_status = status }

-- The flag that a failed expansion left, and the options with the flag cleared.
unfoldable pub take_arith_error : Options → Bool × Options
take_arith_error o = (o.arith_error, record o { arith_error = false })

unfoldable pub take_nounset_error : Options → Bool × Options
take_nounset_error o = (o.nounset_error, record o { nounset_error = false })

abbrev pub nounset_fail : Options → Options
nounset_fail o = record o { nounset_error = true }

abbrev pub reset_for_tests : Options → Options
reset_for_tests o = record o {
  opt_e = false;
  opt_u = false;
  opt_x = false;
  last_status = pos 0;
  nounset_error = false;
}

abbrev pub Contains : ℕ → Bytes → Type 0
Contains c [] = ⊥
Contains c (d ∷ ds) = (c ≡ d) ⊎ Contains c ds

-- The letters of the options.
abbrev pub is_option : ℕ → Bool
is_option flag = flag == b'e' || flag == b'u' || flag == b'x'

-- Setting an option is refused exactly for letters other than e, u and x, and then changes nothing;
-- an accepted change is what is read afterwards under the letter, all other letters read as before.
-- `$-` shows C and the letters of the options that are on.
pub shellopt_laws :
    (flag other : ℕ) (on : Bool) (o : Options)
    → ((shellopt_set flag on o).0 ≡ is_option flag)
      × ((shellopt_set flag on o).1 ≡ (if is_option flag then (shellopt_set flag on o).1 else o))
      × (shellopt_get other (shellopt_set flag on o).1
          ≡ (if is_option flag && other == flag then on else shellopt_get other o))
      × (Contains flag (shellopt_flags o) ↔ ((flag == b'C' || shellopt_get flag o) ≡ true))
unfolding shellopt_set shellopt_get shellopt_flags
shellopt_laws flag other on o = (ground arith, ground arith, ground arith, ground arith)

-- A failed expansion with `set -u` is reported once: the flag is read and cleared together, and the
-- options and the last status stay.
pub take_nounset_error-twice :
    (o : Options)
    → ((take_nounset_error (nounset_fail o)).0 ≡ true)
      × ((take_nounset_error (take_nounset_error o).1).0 ≡ false)
      × ((flag : ℕ) → shellopt_get flag (take_nounset_error o).1 ≡ shellopt_get flag o)
unfolding take_nounset_error shellopt_get
take_nounset_error-twice o = (refl, refl, λ flag. refl)
