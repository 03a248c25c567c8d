-- ===== src/Expand/Positional.antt =====
-- Positional parameters (src/mid/expand.c).
use petrush.Base.{
  ℕ, zero, suc, ◌+◌, ◌-◌, ◌≤◌, ◌≡◌, refl, ap, ◌∙◌, Bool, true, false, Option, none, some, List, [],
  ◌∷◌, ◌++◌, arith, ltb, ◌==◌, if◌then◌else◌, length, drop, get_elem?, length-append, length-drop,
  Bool-cases, inl, inr, sym, subst,
}
use petrush.Text.{Bytes}

-- `g_pos_arg0` and `g_pos_args`; `g_pos_nargs` is the number of `args`.
pub record Positional : Type 0 where
  pub arg0 : Option Bytes
  pub args : List Bytes

abbrev pub positional_clear : Positional
positional_clear = record { arg0 = none; args = [] }

-- A NULL among the arguments is the empty string.
abbrev pub or_empty : Option Bytes → Bytes
or_empty none = []
or_empty (some s) = s

abbrev pub copies : List (Option Bytes) → List Bytes
copies [] = []
copies (a ∷ as') = or_empty a ∷ copies as'

-- The list holds the `nargs` entries of `args`; it is empty where `nargs` is not positive.
abbrev pub positional_set : Option Bytes → List (Option Bytes) → Positional
positional_set arg0 args = record { arg0 = arg0; args = copies args }

unfoldable pub positional_count : Positional → ℕ
positional_count p = length p.args

-- `none` is NULL.
unfoldable pub positional_get : ℕ → Positional → Option Bytes
unfolding positional_count
positional_get n p =
    if n == 0
    then some (or_empty p.arg0)
    else if ltb (positional_count p) n
    then none
    else get_elem? p.args (n - 1)

-- The flag is `true` for the result 0, `false` for -1. The count is below 2 ^ 31: the source reads
-- it as a signed number.
unfoldable pub positional_shift : ℕ → Positional → Bool × Positional
unfolding positional_count
positional_shift n p =
    if n == 0
    then (true, p)
    else if ltb (positional_count p) n
    then (false, p)
    else (true, record p { args = drop n p.args })

abbrev pub first_byte : Bytes → ℕ
first_byte [] = b' '
first_byte (c ∷ cs) = c

-- The separator; the argument is the value of IFS.
abbrev pub ifs_join_char : Option Bytes → ℕ
ifs_join_char none = b' '
ifs_join_char (some ifs) = first_byte ifs

-- The size that is allocated for the parameters that are left, the terminator not counted.
unfoldable pub join_size : List Bytes → ℕ
join_size [] = 0
join_size (v ∷ []) = length v
join_size (v ∷ w ∷ vs) = length v + 1 + join_size (w ∷ vs)

-- The bytes that are written.
unfoldable pub join : ℕ → List Bytes → Bytes
join sep [] = []
join sep (v ∷ []) = v
join sep (v ∷ w ∷ vs) = v ++ (sep ∷ join sep (w ∷ vs))

unfoldable pub positional_join : Option Bytes → Positional → Bytes
unfolding join
positional_join ifs p = join (ifs_join_char ifs) p.args

length-join : (sep : ℕ) (vs : List Bytes) → length (join sep vs) ≡ join_size vs
unfolding join join_size
length-join sep [] = refl
length-join sep (v ∷ []) = refl
length-join sep (v ∷ w ∷ vs) =
    omega (arith, length-append {0} v (sep ∷ join sep (w ∷ vs)), length-join sep (w ∷ vs))

-- Joining the parameters fills its buffer exactly, but for the terminator; one parameter is joined
-- to itself, and a further one is put behind the separator, which is the first byte of IFS, or a
-- space where IFS is unset or empty.
pub positional_join_lem :
    (ifs : Option Bytes) (arg0 : Option Bytes) (v w : Bytes) (vs : List Bytes)
    → (length (positional_join ifs (record { arg0 = arg0; args = vs })) ≡ join_size vs)
      × (positional_join ifs (record { arg0 = arg0; args = v ∷ [] }) ≡ v)
      × (positional_join ifs (record { arg0 = arg0; args = v ∷ w ∷ vs })
          ≡ v ++ (ifs_join_char ifs ∷ positional_join ifs (record { arg0 = arg0; args = w ∷ vs })))
      × (ifs_join_char (some []) ≡ b' ')
unfolding positional_join
positional_join_lem ifs arg0 v w vs = (length-join (ifs_join_char ifs) vs, refl, refl, refl)

get_elem?-drop : (n : ℕ) (xs : List Bytes) (i : ℕ) → get_elem? (drop n xs) i ≡ get_elem? xs (n + i)
get_elem?-drop zero xs i = let e : i ≡ 0 + i = omega arith in ap (get_elem? xs) e
get_elem?-drop (suc n) [] i = refl
get_elem?-drop (suc n) (x ∷ xs) i =
    let e : suc (n + i) ≡ suc n + i = omega arith in
    get_elem?-drop n xs i ∙ ap (get_elem? (x ∷ xs)) e

get_elem?-beyond : (xs : List Bytes) (i : ℕ) → length xs ≤ i → get_elem? xs i ≡ none
get_elem?-beyond [] i h = refl
get_elem?-beyond (x ∷ xs) zero h = absurd (omega arith)
get_elem?-beyond (x ∷ xs) (suc i) h = get_elem?-beyond xs i (omega arith)

-- Parameter i + 1 is entry i of the arguments, if there is one.
positional_get_lem : (i : ℕ) (p : Positional) → positional_get (suc i) p ≡ get_elem? p.args i
unfolding positional_get
positional_get_lem i p =
    let zeroth : (suc i == 0) ≡ false = ground arith in
    rw zeroth (elim (Bool-cases (ltb (length p.args) (suc i))) [
      | inl out ↦ rw out (sym (get_elem?-beyond p.args i (ground arith)))
      | inr within ↦ let e : suc i - 1 ≡ i = omega arith in rw within (ap (get_elem? p.args) e)
    ])

args-shift :
    (n : ℕ) (p : Positional)
    → n ≤ positional_count p
    → (positional_shift n p).1.args ≡ drop n p.args
unfolding positional_shift
args-shift n p h = ground arith

-- Shifting by at most as many as there are parameters makes parameter i what parameter i + n was,
-- leaves n fewer, and keeps `$0`; shifting by more is refused and changes nothing.
pub positional_shift_lem :
    (n i more : ℕ) (p : Positional)
    → n ≤ positional_count p
    → ((positional_shift n p).0 ≡ true)
      × (positional_count (positional_shift n p).1 + n ≡ positional_count p)
      × (positional_get 0 (positional_shift n p).1 ≡ positional_get 0 p)
      × (positional_get (suc i) (positional_shift n p).1 ≡ positional_get (suc i + n) p)
      × (positional_shift (suc (positional_count p) + more) p ≡ (false, p))
unfolding positional_shift positional_get
positional_shift_lem n i more p le =
    let left = args-shift n p le in
    let e : suc i + n ≡ suc (n + i) = omega arith in
    let shifted : get_elem? p.args (n + i) ≡ positional_get (suc i + n) p =
      subst (λ k. get_elem? p.args (n + i) ≡ positional_get k p) (sym e)
        (sym (positional_get_lem (n + i) p)) in
    (
      ground arith,
      ground (arith, length-drop n p.args, left),
      ground arith,
      positional_get_lem i (positional_shift n p).1
          ∙ ap (λ (as' : List Bytes). get_elem? as' i) left
          ∙ get_elem?-drop n p.args i
          ∙ shifted,
      ground arith,
    )
