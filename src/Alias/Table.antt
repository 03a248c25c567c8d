-- ===== src/Alias/Table.antt =====
-- Lookup after each operation on the alias table (src/mid/alias.c).
use petrush.Base.{
  ℕ, zero, suc, ◌-◌, ◌≤◌, ◌<◌, ◌≡◌, ◌↔◌, ◌⊎◌, refl, ap, ◌∙◌, true, false, none, some, [], ◌∷◌,
  arith, length, inl, inr, Bool-cases, Option-cases, if◌then◌else◌, take,
}
use petrush.Text.{Bytes, str_eq, str_eq_iff}
use petrush.Alias.{
  Aliases, alias_name_max, alias_val_max, valid_name, copied, update, fill, remove, alias_set,
  alias_unset, alias_get,
}

take-of_le : (n : ℕ) (xs : Bytes) → length xs ≤ n → take n xs ≡ xs
take-of_le zero [] h = refl
take-of_le zero (x ∷ xs) h = absurd (omega arith)
take-of_le (suc n) [] h = refl
take-of_le (suc n) (x ∷ xs) h = ap (◌∷◌ x) (take-of_le n xs (omega arith))

-- A text that is shorter than the buffer is copied whole.
pub copied-whole : (size : ℕ) (s : Bytes) → length s < size → copied size s ≡ s
copied-whole size s h = take-of_le (size - 1) s (omega arith)

module _ (name value : Bytes) where
  get-update :
      (t t' : Aliases) (n : Bytes)
      → update name value t ≡ some t'
      → alias_get n t'
        ≡ (if str_eq name n then some (copied alias_val_max value) else alias_get n t)
  unfolding update alias_get
  get-update [] t' n h = absurd (ground arith)
  get-update (none ∷ t) t' n h = elim (Option-cases (update name value t)) [
    | inl e ↦ absurd (ground arith)
    | inr (u, e) ↦ ground (arith, get-update t u n e)
  ]
  get-update (some a ∷ t) t' n h = elim (Option-cases (update name value t)) [
    | inl e ↦ ground (arith, str_eq_iff a.name name, str_eq_iff name n, str_eq_iff a.name n)
    | inr (u, e) ↦
        ground (
          arith,
          get-update t u n e,
          str_eq_iff a.name name,
          str_eq_iff name n,
          str_eq_iff a.name n,
        )
  ]

  pub update-none : (t : Aliases) → (update name value t ≡ none) ↔ (alias_get name t ≡ none)
  unfolding update alias_get
  update-none [] = (λ _. refl, λ _. refl)
  update-none (none ∷ t) = ground (arith, update-none t)
  update-none (some a ∷ t) = ground (arith, update-none t)

  get-fill :
      (t t' : Aliases) (n : Bytes)
      → copied alias_name_max name ≡ name
      → alias_get name t ≡ none
      → fill name value t ≡ some t'
      → alias_get n t'
        ≡ (if str_eq name n then some (copied alias_val_max value) else alias_get n t)
  unfolding fill alias_get
  get-fill [] t' n w g h = absurd (ground arith)
  get-fill (none ∷ t) t' n w g h = elim (Bool-cases (str_eq name n)) [
    | inl e ↦ ground (arith, str_eq_iff name n, w)
    | inr e ↦ ground (arith, str_eq_iff name n, w)
  ]
  get-fill (some a ∷ t) t' n w g h = elim (Option-cases (fill name value t)) [
    | inl e ↦ absurd (ground arith)
    | inr (u, e) ↦ ground (
      arith,
      get-fill t u n w (ground arith) e,
      str_eq_iff a.name name,
      str_eq_iff name n,
      str_eq_iff a.name n,
    )
  ]

-- The entries in use.
abbrev pub used : Aliases → ℕ
used [] = 0
used (none ∷ t) = used t
used (some a ∷ t) = suc (used t)

pub used-le-length : (t : Aliases) → used t ≤ length t
used-le-length [] = omega arith
used-le-length (none ∷ t) = omega (arith, used-le-length t)
used-le-length (some a ∷ t) = omega (arith, used-le-length t)

fill-none : (name value : Bytes) (t : Aliases) → (fill name value t ≡ none) ↔ (used t ≡ length t)
unfolding fill
fill-none name value [] = (λ _. refl, λ _. refl)
fill-none name value (none ∷ t) =
    (λ e. absurd (ground arith), λ e. absurd (omega (arith, used-le-length t)))
fill-none name value (some a ∷ t) = ground (arith, fill-none name value t)

module _ (name value : Bytes) (t : Aliases) where
  -- After an accepted definition the name has the whole value, and no other name has changed.
  pub get-alias_set :
      (t' : Aliases) (n : Bytes)
      → alias_set name value t ≡ (true, t')
      → alias_get n t' ≡ (if str_eq name n then some value else alias_get n t)
  unfolding alias_set
  get-alias_set t' n h = elim (Option-cases (update name value t)) [
    | inl e ↦ elim (Option-cases (fill name value t)) [
      | inl f ↦ absurd (ground arith)
      | inr (u, f) ↦ ground (
        arith,
        get-fill name value t u n (copied-whole alias_name_max name (ground arith))
            ((update-none name value t).0 e) f,
        copied-whole alias_val_max value (ground arith),
      )
    ]
    | inr (u, e) ↦
        ground
          (arith, get-update name value t u n e, copied-whole alias_val_max value (ground arith))
  ]

  -- A definition is refused exactly when the name is malformed or too long, when the value is too
  -- long, or when the name is new and all entries are in use; the table then stays as it was.
  pub alias_set_refuses :
      (((alias_set name value t).0 ≡ false) ↔ (
        (valid_name name ≡ false)
        ⊎ (alias_name_max ≤ length name)
        ⊎ (alias_val_max ≤ length value)
        ⊎ (alias_get name t ≡ none) × (used t ≡ length t)))
      × ((alias_set name value t).0 ≡ false → (alias_set name value t).1 ≡ t)
  unfolding alias_set
  alias_set_refuses = elim (Option-cases (update name value t)) [
    | inl e ↦ elim (Option-cases (fill name value t)) [
      | inl f ↦ ground (arith, update-none name value t, fill-none name value t)
      | inr (u, f) ↦ ground (arith, update-none name value t, fill-none name value t)
    ]
    | inr (u, e) ↦ ground (arith, update-none name value t, fill-none name value t)
  ]

-- Each name stands in one entry.
abbrev pub Distinct : Aliases → Type 0
Distinct [] = Unit
Distinct (none ∷ t) = Distinct t
Distinct (some a ∷ t) = (alias_get a.name t ≡ none) × Distinct t

get-remove :
    (name : Bytes) (t t' : Aliases) (n : Bytes)
    → Distinct t
    → remove name t ≡ some t'
    → alias_get n t' ≡ (if str_eq name n then none else alias_get n t)
unfolding remove alias_get
get-remove name [] t' n d h = absurd (ground arith)
get-remove name (none ∷ t) t' n d h = elim (Option-cases (remove name t)) [
  | inl e ↦ absurd (ground arith)
  | inr (u, e) ↦ ground (arith, get-remove name t u n d e)
]
get-remove name (some a ∷ t) t' n d h = elim (Bool-cases (str_eq a.name name)) [
  | inl same ↦ elim (Bool-cases (str_eq name n)) [
    | inl e ↦
        let an : a.name ≡ n = (str_eq_iff a.name name).0 same ∙ (str_eq_iff name n).0 e in
        let gone : alias_get n t ≡ none = rw an at (d.0) in ground arith
    | inr e ↦
        let an : str_eq a.name n ≡ false = rw ((str_eq_iff a.name name).0 same) e in ground arith
  ]
  | inr other ↦ elim (Option-cases (remove name t)) [
    | inl e ↦ absurd (ground arith)
    | inr (u, e) ↦ ground (
      arith,
      get-remove name t u n d.1 e,
      str_eq_iff a.name name,
      str_eq_iff name n,
      str_eq_iff a.name n,
    )
  ]
]

remove-none : (name : Bytes) (t : Aliases) → (remove name t ≡ none) ↔ (alias_get name t ≡ none)
unfolding remove alias_get
remove-none name [] = (λ _. refl, λ _. refl)
remove-none name (none ∷ t) = ground (arith, remove-none name t)
remove-none name (some a ∷ t) = ground (arith, remove-none name t)

module _ (name : Bytes) (t : Aliases) (d : Distinct t) where
  -- Where names are distinct, `alias_unset` succeeds exactly on the names that are defined; after
  -- it the name has no value, and every other name has the value that it had.
  pub get-alias_unset :
      (((alias_unset name t).0 ≡ false) ↔ (alias_get name t ≡ none))
      × ((n : Bytes)
          → alias_get n (alias_unset name t).1 ≡ (if str_eq name n then none else alias_get n t))
  unfolding alias_unset
  get-alias_unset = elim (Option-cases (remove name t)) [
    | inl e ↦ rw e (
      (λ _. (remove-none name t).0 e, λ _. refl),
      λ n. ground (arith, (remove-none name t).0 e, str_eq_iff name n),
    )
    | inr (u, e) ↦ rw e (
      (λ x. absurd (ground arith), λ x. absurd (ground (arith, remove-none name t))),
      λ n. get-remove name t u n d e,
    )
  ]
