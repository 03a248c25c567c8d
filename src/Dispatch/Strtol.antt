-- ===== src/Dispatch/Strtol.antt =====
-- The checked uses of `strtol(s, &end, 10)` in src/mid/dispatcher.c: a number with nothing behind it.
use petrush.Base.{ℕ, ◌-◌, ◌%◌, ◌≡◌, refl, Option, some}
use petrush.Base.Int.{ℤ, pos, negsuc}
use petrush.Text.{Bytes, codes, skip_space}
use petrush.Expand.Arith.Int64.{parse_i64, parse_digits}

-- Space, a sign, and digits up to the end, within a `long`.
unfoldable pub parse_long : Bytes → Option ℤ
unfolding parse_i64 skip_space
parse_long s = parse_i64 (skip_space s)

-- `v & 0xff`.
abbrev pub low_byte : ℤ → ℕ
low_byte (pos n) = n % 256
low_byte (negsuc n) = 255 - n % 256

parse_long_signed : parse_long (codes " -1") ≡ some (negsuc 0)
unfolding parse_long parse_digits
parse_long_signed = refl
