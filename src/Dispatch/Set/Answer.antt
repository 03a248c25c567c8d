-- ===== src/Dispatch/Set/Answer.antt =====
-- What `set` with letters does to the options.
use petrush.Base.{
  ℕ, ◌≡◌, refl, sym, ◌∙◌, ap, Bool, true, false, ◌&&◌, ◌||◌, Option, none, some, [], ◌∷◌, ◌==◌,
  if◌then◌else◌, inl, inr, arith, Bool-cases, some-inj,
}
use petrush.Base.Int.{ℤ, pos}
use petrush.Text.{Bytes, codes, str_eq}
use petrush.Expand.Options.{Options, shellopt_set, shellopt_get}
use petrush.Dispatch.Shell.{Outer, Host, raise_abort}
use petrush.Dispatch.Set.{
  set_apply_letter, SetArgs, set_then, set_done, set_letters, set_rewrite_positionals, set_loop,
  builtin_set,
}

abbrev pub is_flag : ℕ → Bool
is_flag f = f == b'e' || f == b'u' || f == b'x'

abbrev pub contains : ℕ → Bytes → Bool
contains f [] = false
contains f (c ∷ cs) = f == c || contains f cs

get-shellopt_set :
    (f letter : ℕ) (on : Bool) (o : Options)
    → is_flag f ≡ true
    → is_flag letter ≡ true
    → shellopt_get f (shellopt_set letter on o).1 ≡ (if f == letter then on else shellopt_get f o)
unfolding shellopt_set shellopt_get
get-shellopt_set f letter on o flag known = ground arith

-- A letter that is taken, once the test for it is decided.
taken :
    (f letter flag : ℕ) (on : Bool) (o o' : Options)
    → is_flag f ≡ true
    → is_flag flag ≡ true
    → (letter == flag) ≡ true
    → some (shellopt_set flag on o).1 ≡ some o'
    → shellopt_get f o' ≡ (if f == letter then on else shellopt_get f o)
taken f letter flag on o o' fl known is h =
    let same : flag ≡ letter = ground arith in
    ap (shellopt_get f) (sym (some-inj h))
    ∙ get-shellopt_set f flag on o fl known
    ∙ ap (λ l. if f == l then on else shellopt_get f o) same

get-set_apply_letter :
    (f letter : ℕ) (on : Bool) (o o' : Options)
    → is_flag f ≡ true
    → set_apply_letter letter on o ≡ some o'
    → shellopt_get f o' ≡ (if f == letter then on else shellopt_get f o)
unfolding set_apply_letter
get-set_apply_letter f letter on o o' flag h = elim (Bool-cases (letter == b'x')) [
  | inl x ↦ taken f letter b'x' on o o' flag refl x (ground arith)
  | inr not_x ↦ elim (Bool-cases (letter == b'u')) [
    | inl u ↦ taken f letter b'u' on o o' flag refl u (ground arith)
    | inr not_u ↦ elim (Bool-cases (letter == b'e')) [
      | inl e ↦ taken f letter b'e' on o o' flag refl e (ground arith)
      | inr not_e ↦
          let other : (f == letter) ≡ false = ground arith in
          let kept : o' ≡ o = ground arith in rw (other, kept) refl
    ]
  ]
]

marker_flag :
    (f c : ℕ) (cs : Bytes)
    → is_flag f ≡ true
    → (c == b'-' && str_eq cs []) ≡ true
    → contains f (c ∷ cs) ≡ false
unfolding str_eq
marker_flag f c [] flag h = ground arith
marker_flag f c (d ∷ cs) flag h = absurd (ground arith)

module _ {W : Type 0} where
  set_then-done :
      (r : Option Options) (next : SetArgs W) (o o' : Outer W)
      → set_then r next o ≡ (o', pos 0)
      → (opts : Options) × (r ≡ some opts) × (next (record o { opts = opts }) ≡ (o', pos 0))
  set_then-done none next o o' h = let e : pos 1 ≡ pos 0 = ap (λ x. x.1) h in absurd (ground arith)
  set_then-done (some opts) next o o' h = (opts, refl, h)

  set_letters-get :
      (f : ℕ) (letters : Bytes) (o o' : Outer W)
      → is_flag f ≡ true
      → set_letters letters true set_done o ≡ (o', pos 0)
      → shellopt_get f o'.opts ≡ (contains f letters || shellopt_get f o.opts)
  unfolding set_letters
  set_letters-get f [] o o' flag h = ap (λ r. shellopt_get f r.0.opts) (sym h)
  set_letters-get f (c ∷ cs) o o' flag h =
      let (opts, e, rest) = set_then-done (set_apply_letter c true o.opts) _ o o' h in
      let more = set_letters-get f cs (record o { opts = opts }) o' flag rest in
      let first = get-set_apply_letter f c true o.opts opts flag e in ground arith

  -- An end marker, `-o` without a name, and letters.
  by_kind :
      (marker named : Bool) (f : ℕ) (letters : Bytes) (o o1 o' : Outer W) (r : Outer W × ℤ)
      → (marker ≡ true → contains f letters ≡ false)
      → o1.opts ≡ o.opts
      → (r ≡ (o', pos 0) → shellopt_get f o'.opts ≡ (contains f letters || shellopt_get f o.opts))
      → (if marker then (o1, pos 0) else if named then (raise_abort o, pos 1) else r) ≡ (o', pos 0)
      → shellopt_get f o'.opts ≡ (contains f letters || shellopt_get f o.opts)
  by_kind true named f letters o o1 o' r out same good h =
      ap (λ x. shellopt_get f x.0.opts) (sym h)
      ∙ ap (shellopt_get f) same
      ∙ ap (λ b. b || shellopt_get f o.opts) (sym (out refl))
  by_kind false true f letters o o1 o' r out same good h =
      let e : pos 1 ≡ pos 0 = ap (λ x. x.1) h in absurd (ground arith)
  by_kind false false f letters o o1 o' r out same good h = good h

  -- `set -` with letters, where it succeeds, turns on the options of its letters, and leaves the other
  -- options as they were; `-` and `--` alone turn on none.
  pub builtin_set-letters :
      (host : Host W) (f : ℕ) (letters : Bytes) (o o' : Outer W)
      → is_flag f ≡ true
      → builtin_set host ((b'-' ∷ letters) ∷ []) o ≡ (o', pos 0)
      → shellopt_get f o'.opts ≡ (contains f letters || shellopt_get f o.opts)
  unfolding builtin_set set_loop
  builtin_set-letters host f [] o o' flag h = ap (λ r. shellopt_get f r.0.opts) (sym h)
  builtin_set-letters host f (c ∷ cs) o o' flag h =
      by_kind (c == b'-' && str_eq cs []) (str_eq (c ∷ cs) (codes "o")) f (c ∷ cs) o
        (set_rewrite_positionals [] o) o' (set_letters (c ∷ cs) true set_done o)
        (marker_flag f c cs flag) refl (set_letters-get f (c ∷ cs) o o' flag) h
