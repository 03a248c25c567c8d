-- ===== src/DirStack/Laws.antt =====
-- `popd` undoes `pushd`, and the stack's bound (src/mid/dirstack.c).
use petrush.Base.{
  suc, ◌≤◌, ◌≡◌, refl, ◌⊎◌, Bool, true, false, Option, none, some, List, [], ◌∷◌, arith, length,
  inl, inr, Option-cases,
}
use petrush.Text.{Bytes}
use petrush.DirStack.{Stack, dirstack_max, pushd, popd}

module _ {W : Type 0} (getcwd : W → Option Bytes) (chdir : Bytes → W → Option W) where
  Result-cases :
      (r : Bool × W × Stack)
      → ((w : W) × (s : Stack) × (r ≡ (false, w, s))) ⊎ ((w : W) × (s : Stack) × (r ≡ (true, w, s)))
  Result-cases (false, w, s) = inl (w, s, refl)
  Result-cases (true, w, s) = inr (w, s, refl)

  abbrev continue_if : Bool × W × Stack → (W → Stack → Option (W × Stack)) → Option (W × Stack)
  continue_if (false, w, s) k = none
  continue_if (true, w, s) k = k w s

  -- Going to a list of directories in order, each by `pushd`; `none` where one of them fails.
  abbrev pub push_all : List Bytes → W → Stack → Option (W × Stack)
  push_all [] w s = some (w, s)
  push_all (p ∷ ps) w s = continue_if (pushd getcwd chdir p w s) (push_all ps)

  abbrev then_popd : Option (W × Stack) → Option (W × Stack)
  then_popd none = none
  then_popd (some (w, s)) = continue_if (popd getcwd chdir w s) (λ w' s'. some (w', s'))

  -- As many `popd` as the list has elements.
  abbrev pub pop_all : List Bytes → W → Stack → Option (W × Stack)
  pop_all [] w s = some (w, s)
  pop_all (p ∷ ps) w s = then_popd (pop_all ps w s)

  -- An accepted `pushd` adds one entry, within the bound, and a refused one changes nothing; a full
  -- stack and an empty path are refused. `popd` of a stack that is not empty takes one entry off
  -- whatever `chdir` answers.
  pub dirstack_sizes :
      (path : Bytes) (w : W) (s : Stack)
      → length s ≤ dirstack_max
      → ((pushd getcwd chdir path w s).0 ≡ true
          → (length (pushd getcwd chdir path w s).2 ≡ suc (length s))
            × (length (pushd getcwd chdir path w s).2 ≤ dirstack_max))
        × ((pushd getcwd chdir path w s).0 ≡ false → pushd getcwd chdir path w s ≡ (false, w, s))
        × ((length s ≡ dirstack_max) ⊎ (path ≡ []) → (pushd getcwd chdir path w s).0 ≡ false)
        × ((d : Bytes) → (popd getcwd chdir w (d ∷ s)).2 ≡ s)
  unfolding pushd popd
  dirstack_sizes path w s h = (ground arith, ground arith, ground arith, λ d. ground arith)

  module _
      (returns : (path cwd : Bytes) (w w' : W)
        → getcwd w ≡ some cwd
        → chdir path w ≡ some w'
        → chdir cwd w' ≡ some w) where
    -- Where going back to the directory that `getcwd` named restores the world, `popd` after an
    -- accepted `pushd` succeeds and restores the directory and the stack.
    pub popd-pushd :
        (path : Bytes) (w w' : W) (s s' : Stack)
        → pushd getcwd chdir path w s ≡ (true, w', s')
        → popd getcwd chdir w' s' ≡ (true, w, s)
    unfolding pushd popd
    popd-pushd path w w' s s' h = elim (Option-cases (getcwd w)) [
      | inl e ↦ absurd (ground arith)
      | inr (cwd, e) ↦ elim (Option-cases (chdir path w)) [
        | inl f ↦ absurd (ground arith)
        | inr (u, f) ↦
            let same : s' ≡ cwd ∷ s = ground arith in
            let world : w' ≡ u = ground arith in rw (same, world, returns path cwd w u e f)
      ]
    ]

    -- Leaving the directories of any accepted sequence of `pushd` by as many `popd` leads back to
    -- the first directory, with the stack as it was.
    pub pop_all-push_all :
        (ps : List Bytes) (w w' : W) (s s' : Stack)
        → push_all ps w s ≡ some (w', s')
        → pop_all ps w' s' ≡ some (w, s)
    pop_all-push_all [] w w' s s' h = ground arith
    pop_all-push_all (p ∷ ps) w w' s s' h = elim (Result-cases (pushd getcwd chdir p w s)) [
      | inl (v, t, e) ↦ absurd (ground arith)
      | inr (v, t, e) ↦
          let later : push_all ps v t ≡ some (w', s') = rw e at h in
          rw (pop_all-push_all ps v w' t s' later) (rw (popd-pushd p w v s t e))
    ]
