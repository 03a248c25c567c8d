-- ===== src/Pudod/Split.antt =====
-- A line that is too long for the buffer of the loader.
use petrush.Base.{
  ℕ, zero, suc, ◌+◌, ◌-◌, ◌≤◌, ◌<◌, ◌≡◌, refl, sym, ap, ◌∙◌, subst, Bool, true, false, not, ◌&&◌,
  Option, none, List, [], ◌∷◌, ◌++◌, ◌==◌, if◌then◌else◌, leb, arith, length, length-append,
  Bool-cases, inl, inr,
}
use petrush.Text.{Bytes, AllBytes}
use petrush.Pudod.AllowList.{
  path_max, max_allowed, fgets, is_blank, trim_start, line_entry, load_line, load_lines,
}

abbrev pub one_line : Bytes → Bool
one_line [] = true
one_line (c ∷ cs) = not (c == b'\n') && one_line cs

fgets-full : (a rest : Bytes) → one_line a ≡ true → fgets (length a) (a ++ rest) ≡ (a, rest)
unfolding fgets
fgets-full [] rest h = refl
fgets-full (c ∷ a) rest h =
    let inside : (c == b'\n') ≡ false = ground arith in
    rw inside (ap (λ r. (c ∷ r.0, r.1)) (fgets-full a rest (ground arith)))

fgets-rest : (n : ℕ) (text : Bytes) → length (fgets n text).1 ≤ length text
unfolding fgets
fgets-rest zero text = omega arith
fgets-rest (suc n) [] = omega arith
fgets-rest (suc n) (c ∷ cs) = elim (Bool-cases (c == b'\n')) [
  | inl e ↦ rw e (omega arith)
  | inr e ↦ rw e (omega (arith, fgets-rest n cs))
]

-- A call of `fgets` takes a byte at least.
fgets-shorter : (n c : ℕ) (cs : Bytes) → 0 < n → length (fgets n (c ∷ cs)).1 ≤ length cs
unfolding fgets
fgets-shorter zero c cs h = absurd (omega arith)
fgets-shorter (suc n) c cs h = elim (Bool-cases (c == b'\n')) [
  | inl e ↦ rw e (omega arith)
  | inr e ↦ rw e (fgets-rest n cs)
]

line_entry-comment :
    (lead comment : Bytes) → AllBytes is_blank lead → line_entry (lead ++ (b'#' ∷ comment)) ≡ none
unfolding line_entry trim_start
line_entry-comment [] comment h = refl
line_entry-comment (c ∷ lead) comment h = rw (h.0) (line_entry-comment lead comment h.1)

module _ {W : Type 0} (realpath : W → Bytes → Option Bytes × W) where
  load_lines-full :
      (f : ℕ) (text : Bytes) (allowed : List Bytes) (w : W)
      → leb max_allowed (length allowed) ≡ true
      → load_lines realpath f text allowed w ≡ (allowed, w)
  unfolding load_lines
  load_lines-full zero text allowed w h = refl
  load_lines-full (suc f) [] allowed w h = refl
  load_lines-full (suc f) (c ∷ cs) allowed w h = rw h refl

  -- A unit of fuel for each byte is enough.
  load_lines-enough :
      (f g : ℕ) (text : Bytes) (allowed : List Bytes) (w : W)
      → length text ≤ f
      → length text ≤ g
      → load_lines realpath f text allowed w ≡ load_lines realpath g text allowed w
  unfolding load_lines
  load_lines-enough zero zero text allowed w hf hg = refl
  load_lines-enough zero (suc g) [] allowed w hf hg = refl
  load_lines-enough zero (suc g) (c ∷ cs) allowed w hf hg = absurd (omega arith)
  load_lines-enough (suc f) zero [] allowed w hf hg = refl
  load_lines-enough (suc f) zero (c ∷ cs) allowed w hf hg = absurd (omega arith)
  load_lines-enough (suc f) (suc g) [] allowed w hf hg = refl
  load_lines-enough (suc f) (suc g) (c ∷ cs) allowed w hf hg =
      let r = fgets (path_max - 1) (c ∷ cs) in
      let shorter = fgets-shorter (path_max - 1) c cs (omega arith) in
      ap (λ more. if leb max_allowed (length allowed) then (allowed, w) else more)
        (load_lines-enough f g r.1 _ _ (omega arith) (omega arith))

  -- A full buffer that names no entry.
  load_lines-buffer :
      (f : ℕ) (a rest : Bytes) (allowed : List Bytes) (w : W)
      → one_line a ≡ true
      → length a ≡ path_max - 1
      → line_entry a ≡ none
      → load_lines realpath (suc f) (a ++ rest) allowed w ≡ load_lines realpath f rest allowed w
  unfolding load_lines
  load_lines-buffer f [] rest allowed w h e n = absurd (omega arith)
  load_lines-buffer f (c ∷ a) rest allowed w h e n =
      let cut : fgets (path_max - 1) (c ∷ a ++ rest) ≡ (c ∷ a, rest) =
        subst (λ m. fgets m (c ∷ a ++ rest) ≡ (c ∷ a, rest)) e (fgets-full (c ∷ a) rest h) in
      elim (Bool-cases (leb max_allowed (length allowed))) [
        | inl full ↦ rw full (sym (load_lines-full f rest allowed w full))
        | inr room ↦
            rw room
              (ap (λ r. load_line realpath (load_lines realpath f) r allowed w) cut ∙ rw n refl)
      ]

  -- Where a comment, with the space in front of it, fills the loader's buffer, the file is loaded as
  -- if it began behind these bytes, in the middle of the line: what stands there counts as a line of
  -- its own, whatever has been loaded so far (where the list is full, neither is loaded).
  pub load_lines-split :
      (lead comment rest : Bytes) (allowed : List Bytes) (w : W)
      → AllBytes is_blank lead
      → one_line (lead ++ (b'#' ∷ comment)) ≡ true
      → length (lead ++ (b'#' ∷ comment)) ≡ path_max - 1
      → load_lines realpath
          (length (lead ++ (b'#' ∷ comment) ++ rest))
          (lead ++ (b'#' ∷ comment) ++ rest)
          allowed
          w
        ≡ load_lines realpath (length rest) rest allowed w
  load_lines-split lead comment rest allowed w blank h e =
      let a = lead ++ (b'#' ∷ comment) in
      let f = path_max - 2 + length rest in
      let fuel : length (a ++ rest) ≡ suc f = omega (arith, length-append {0} a rest, e) in
      ap (λ n. load_lines realpath n (a ++ rest) allowed w) fuel
      ∙ load_lines-buffer f a rest allowed w h e (line_entry-comment lead comment blank)
      ∙ load_lines-enough f (length rest) rest allowed w (omega arith) (omega arith)
