-- ===== src/Text.antt =====
-- C strings as lists of bytes with no terminator: reading past the end gives the byte 0. The
-- character tests are those of <ctype.h> in the C locale, which the sources call.
use Prim.Native.Char.{code}
use Prim.Native.String.{String}
use petrush.Base.{
  ℕ, zero, suc, ◌+◌, ◌/◌, ◌%◌, ◌≡◌, refl, ◌↔◌, Bool, true, false, ◌&&◌, ◌||◌, List, [], ◌∷◌, ◌++◌,
  ◌≢◌, ◌≤◌, ◌<◌, length, inl, inr, Bool-cases, arith, leb, ltb, ◌==◌, if◌then◌else◌, get_or,
}

abbrev pub Bytes : Type 0
Bytes = List ℕ

-- The code points of a literal, which are its bytes where it is ASCII.
abbrev pub codes : String → Bytes
codes String.[] = []
codes (String.◌∷◌ c s) = code c ∷ codes s

-- `p[i]`, with the terminator behind the last byte.
abbrev pub at : Bytes → ℕ → ℕ
at p i = get_or p i 0

abbrev pub is_space : ℕ → Bool
is_space c = c == 32 || (leb 9 c && leb c 13)

abbrev pub is_digit : ℕ → Bool
is_digit c = leb 48 c && leb c 57

abbrev pub is_alpha : ℕ → Bool
is_alpha c = (leb 65 c && leb c 90) || (leb 97 c && leb c 122)

abbrev pub is_alnum : ℕ → Bool
is_alnum c = is_alpha c || is_digit c

-- `strcmp(a, b) == 0`.
unfoldable pub str_eq : Bytes → Bytes → Bool
str_eq [] [] = true
str_eq (x ∷ xs) (y ∷ ys) = x == y && str_eq xs ys
str_eq [] (y ∷ ys) = false
str_eq (x ∷ xs) [] = false

-- while (*p && isspace(*p)) p++.
unfoldable pub skip_space : Bytes → Bytes
skip_space [] = []
skip_space (c ∷ cs) = if is_space c then skip_space cs else c ∷ cs

-- The decimal digits of `%d` on a number that is not negative; the fuel is the number itself.
unfoldable pub decimal_onto : ℕ → ℕ → Bytes → Bytes
decimal_onto zero n acc = acc
decimal_onto (suc f) n acc =
    let more = decimal_onto f (n / 10) ((48 + n % 10) ∷ acc) in
    if ltb n 10 then (48 + n) ∷ acc else more

unfoldable pub decimal : ℕ → Bytes
unfolding decimal_onto
decimal n = decimal_onto (suc n) n []

pub str_eq_iff : (a b : Bytes) → (str_eq a b ≡ true) ↔ (a ≡ b)
unfolding str_eq
str_eq_iff (x ∷ a) (y ∷ b) = ground (arith, str_eq_iff a b)
str_eq_iff _ _ = ground arith

pub str_eq_refl : (a : Bytes) → str_eq a a ≡ true
str_eq_refl a = (str_eq_iff a a).1 refl

abbrev pub AllBytes : (ℕ → Bool) → Bytes → Type 0
AllBytes p [] = Unit
AllBytes p (c ∷ cs) = (p c ≡ true) × AllBytes p cs

pub skip_space-append :
    (blank rest : Bytes) → AllBytes is_space blank → skip_space (blank ++ rest) ≡ skip_space rest
unfolding skip_space
skip_space-append [] rest h = refl
skip_space-append (c ∷ cs) rest h = rw (h.0) (skip_space-append cs rest h.1)

pub length-pos : (w : Bytes) → w ≢ [] → 1 ≤ length w
length-pos [] ne = absurd (ne refl)
length-pos (c ∷ w) ne = omega arith

pub length-skip_space : (p : Bytes) → length (skip_space p) ≤ length p
unfolding skip_space
length-skip_space [] = omega arith
length-skip_space (c ∷ cs) = ground (arith, length-skip_space cs)

decimal_onto-head :
    (f n : ℕ) (rest : Bytes)
    → n < f
    → (d : ℕ) × (ds : Bytes) × (decimal_onto f n rest ≡ d ∷ ds) × (is_digit d ≡ true)
unfolding decimal_onto
decimal_onto-head zero n rest h = absurd (omega arith)
decimal_onto-head (suc f) n rest h = elim (Bool-cases (ltb n 10)) [
  | inl one ↦ (48 + n, rest, rw one refl, ground arith)
  | inr more ↦
      let (d, ds, e, g) = decimal_onto-head f (n / 10) ((48 + n % 10) ∷ rest) (ground arith) in
      (d, ds, rw more e, g)
]

pub decimal-head : (n : ℕ) → (d : ℕ) × (ds : Bytes) × (decimal n ≡ d ∷ ds) × (is_digit d ≡ true)
unfolding decimal
decimal-head n = decimal_onto-head (suc n) n [] (omega arith)
