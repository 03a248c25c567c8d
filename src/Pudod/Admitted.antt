-- ===== src/Pudod/Admitted.antt =====
-- Where the paths of the allow-list come from.
use petrush.Base.{
  ℕ, zero, suc, ◌-◌, ◌≡◌, refl, sym, subst, Bool, true, false, inl, inr, Option, none, some, List,
  [], ◌∷◌, ◌++◌, leb, length, arith, Bool-cases,
}
use petrush.Text.{Bytes, str_eq, str_eq_iff}
use petrush.Pudod.Paths.{clipped, resolve_allow_entry, path_is_generic_shell, is_one_of}
use petrush.Pudod.AllowList.{
  path_max, max_allowed, fgets, line_entry, add_allowed, unless_shell, load_entry, load_lines,
}

-- The lines that `fgets` cuts the text into.
pub data Line : Bytes → Bytes → Type 0 where
  this_line : {text : Bytes} → Line text (fgets (path_max - 1) text).0
  later : {text line : Bytes} → Line (fgets (path_max - 1) text).1 line → Line text line

abbrev pub All : (Bytes → Type 0) → List Bytes → Type 0
All P [] = Unit
All P (x ∷ xs) = P x × All P xs

All-append : (P : Bytes → Type 0) (xs ys : List Bytes) → All P xs → All P ys → All P (xs ++ ys)
All-append P [] ys a b = b
All-append P (x ∷ xs) ys (p, a) b = (p, All-append P xs ys a b)

pub All-is_one_of :
    (P : Bytes → Type 0) (x : Bytes) (xs : List Bytes) → All P xs → is_one_of x xs ≡ true → P x
unfolding is_one_of
All-is_one_of P x [] a h = absurd cc
All-is_one_of P x (y ∷ ys) (p, a) h = elim (Bool-cases (str_eq x y)) [
  | inl same ↦ subst P (sym ((str_eq_iff x y).0 same)) p
  | inr other ↦ All-is_one_of P x ys a (ground arith)
]

module _ {W : Type 0} (realpath : W → Bytes → Option Bytes × W) where
  -- The path is what an entry resolved to at some time, and no shell.
  pub record FromEntry (p path : Bytes) : Type 0 where
    pub canonical : Bytes
    pub w : W
    pub resolves : (resolve_allow_entry realpath path_max p w).0 ≡ some canonical
    pub whole : path ≡ clipped path_max canonical
    pub no_shell : path_is_generic_shell canonical ≡ some true → ⊥

  -- The path comes from a line of the text.
  pub record Admitted (text path : Bytes) : Type 0 where
    pub line : Bytes
    pub entry : Bytes
    pub is_line : Line text line
    pub names : line_entry line ≡ some entry
    pub from : FromEntry entry path

  unless_shell-All :
      (P : Bytes → Type 0) (o : Option Bool) (c : Bytes) (allowed : List Bytes)
      → ((o ≡ some true → ⊥) → P (clipped path_max c))
      → All P allowed
      → All P (unless_shell o c allowed)
  unless_shell-All P (some true) c allowed ok a = a
  unless_shell-All P (some false) c allowed ok a = All-append P allowed _ a (ok (λ e. cc), tt)
  unless_shell-All P none c allowed ok a = All-append P allowed _ a (ok (λ e. cc), tt)

  add_allowed-All :
      (P : Bytes → Type 0) (p : Bytes) (w : W) (o : Option Bytes) (allowed : List Bytes)
      → (resolve_allow_entry realpath path_max p w).0 ≡ o
      → ((path : Bytes) → FromEntry p path → P path)
      → All P allowed
      → All P (add_allowed allowed o)
  add_allowed-All P p w none allowed e ok a = a
  add_allowed-All P p w (some c) allowed e ok a =
      unless_shell-All P (path_is_generic_shell c) c allowed
        (λ no_shell.
          ok (clipped path_max c)
            (record { canonical = c; w = w; resolves = e; whole = refl; no_shell = no_shell }))
        a

  load_entry-All :
      (P : Bytes → Type 0) (o : Option Bytes) (allowed : List Bytes) (w : W)
      → ((p path : Bytes) → o ≡ some p → FromEntry p path → P path)
      → All P allowed
      → All P (load_entry realpath o allowed w).0
  load_entry-All P none allowed w ok a = a
  load_entry-All P (some p) allowed w ok a =
      add_allowed-All P p w (resolve_allow_entry realpath path_max p w).0 allowed refl
        (λ path f. ok p path refl f) a

  -- Every path that is loaded comes from a line of the text.
  load_lines-All :
      (P : Bytes → Type 0) (f : ℕ) (text : Bytes) (allowed : List Bytes) (w : W)
      → ((path : Bytes) → Admitted text path → P path)
      → All P allowed
      → All P (load_lines realpath f text allowed w).0
  unfolding load_lines
  load_lines-All P zero text allowed w ok a = a
  load_lines-All P (suc f) [] allowed w ok a = a
  load_lines-All P (suc f) (c ∷ cs) allowed w ok a =
      let (line, rest) = fgets (path_max - 1) (c ∷ cs) in
      let loaded =
        load_entry-All P (line_entry line) allowed w
          (λ p path e from.
            ok path
              (record { line = line; entry = p; is_line = this_line; names = e; from = from }))
          a in
      let (allowed', w') = load_entry realpath (line_entry line) allowed w in
      let more : All P (load_lines realpath f rest allowed' w').0 =
        load_lines-All P f rest allowed' w'
          (λ path m. ok path (record {
            line = m.line;
            entry = m.entry;
            is_line = later m.is_line;
            names = m.names;
            from = m.from;
          }))
          loaded in
      elim (Bool-cases (leb max_allowed (length allowed))) [
        | inl full ↦ rw full a
        | inr room ↦ rw room more
      ]

  pub load_lines-Admitted :
      (f : ℕ) (text : Bytes) (w : W) → All (Admitted text) (load_lines realpath f text [] w).0
  load_lines-Admitted f text w = load_lines-All (Admitted text) f text [] w (λ path m. m) tt
