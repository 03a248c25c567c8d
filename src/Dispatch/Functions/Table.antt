-- ===== src/Dispatch/Functions/Table.antt =====
-- The table of functions as a map from names to bodies.
use petrush.Base.{
  ℕ, suc, ◌+◌, ◌≡◌, ◌↔◌, ◌⊎◌, refl, sym, ◌∙◌, ap, subst, Bool, true, false, Option, none, some, [],
  ◌∷◌, arith, inl, inr, Bool-cases, Option-cases, if◌then◌else◌, set,
}
use petrush.Text.{Bytes, str_eq, str_eq_iff}
use petrush.Dispatch.Syntax.{Items}
use petrush.Dispatch.Env.{is_nil}
use petrush.Dispatch.Shell.{Fn}
use petrush.Dispatch.Functions.{Fns, find_slot, put_fn, fn_set, fn_get}

abbrev pub full : Fns → Bool
full [] = true
full (none ∷ t) = false
full (some e ∷ t) = full t

module _ (name : Bytes) (body : Items) where
  -- The slot takes the definition, and no other name notices.
  Defines : Fns → ℕ → Type 0
  Defines t j =
      (n : Bytes)
      → fn_get n (set t j (some (record { name = name; body = body })))
        ≡ (if str_eq name n then some body else fn_get n t)

  Defines-skip : (t : Fns) (j : ℕ) → Defines t j → Defines (none ∷ t) (suc j)
  unfolding Defines fn_get
  Defines-skip t j d n = d n

  Defines-other :
      (e : Fn) (t : Fns) (j : ℕ)
      → str_eq e.name name ≡ false
      → Defines t j
      → Defines (some e ∷ t) (suc j)
  unfolding Defines fn_get
  Defines-other e t j other d n =
      ground (arith, d n, str_eq_iff e.name name, str_eq_iff e.name n, str_eq_iff name n)

  Defines-free : (t : Fns) → Defines (none ∷ t) 0
  unfolding Defines fn_get
  Defines-free t n = refl

  Defines-own : (e : Fn) (t : Fns) → str_eq e.name name ≡ true → Defines (some e ∷ t) 0
  unfolding Defines fn_get
  Defines-own e t own n =
      ground (arith, str_eq_iff e.name name, str_eq_iff e.name n, str_eq_iff name n)

  abbrev Found : Fns → ℕ → Option ℕ → ℕ → Type 0
  Found t i free k =
      ((free ≡ some k) × (fn_get name t ≡ none)) ⊎ ((j : ℕ) × (k ≡ i + j) × Defines t j)

  find_slot-Found :
      (t : Fns) (i : ℕ) (free : Option ℕ) (k : ℕ)
      → find_slot name t i free ≡ some k
      → Found t i free k
  unfolding find_slot fn_get
  find_slot-Found [] i free k h = inl (h, refl)
  find_slot-Found (none ∷ t) i none k h = elim (find_slot-Found t (suc i) (some i) k h) [
    | inl (e, g) ↦ inr (0, (let q : i ≡ k = cc in omega (arith, q)), Defines-free t)
    | inr (j, e, d) ↦ inr (suc j, omega (arith, e), Defines-skip t j d)
  ]
  find_slot-Found (none ∷ t) i (some f) k h = elim (find_slot-Found t (suc i) (some f) k h) [
    | inl (e, g) ↦ inl (e, g)
    | inr (j, e, d) ↦ inr (suc j, omega (arith, e), Defines-skip t j d)
  ]
  find_slot-Found (some e ∷ t) i free k h = elim (Bool-cases (str_eq e.name name)) [
    | inl own ↦ inr (0, ground arith, Defines-own e t own)
    | inr other ↦ elim (find_slot-Found t (suc i) free k (ground arith)) [
      | inl (f, g) ↦ inl (f, rw other g)
      | inr (j, q, d) ↦ inr (suc j, omega (arith, q), Defines-other e t j other d)
    ]
  ]

  -- A definition that is taken gives the name its body, and leaves every other name as it was.
  pub get-fn_set :
      (t t' : Fns) (n : Bytes)
      → fn_set name body t ≡ some t'
      → fn_get n t' ≡ (if str_eq name n then some body else fn_get n t)
  unfolding fn_set Defines
  get-fn_set t t' n h = elim (Bool-cases (is_nil name)) [
    | inl empty ↦ absurd (ground arith)
    | inr named ↦ elim (Option-cases (find_slot name t 0 none)) [
      | inl no_slot ↦ absurd (ground arith)
      | inr (k, e) ↦ elim (find_slot-Found t 0 none k e) [
        | inl (f, g) ↦ absurd cc
        | inr (j, q, d) ↦
            let same_slot : j ≡ k = omega (arith, q) in
            let defined : t' ≡ set t k (some (record { name = name; body = body })) =
              ground arith in
            subst (λ u. fn_get n u ≡ (if str_eq name n then some body else fn_get n t))
              (ap (λ i. set t i (some (record { name = name; body = body }))) same_slot
                ∙ sym defined)
              (d n)
      ]
    ]
  ]

find_slot-none :
    (name : Bytes) (t : Fns) (i : ℕ) (free : Option ℕ)
    → (find_slot name t i free ≡ none) ↔ ((free ≡ none) × (fn_get name t ≡ none) × (full t ≡ true))
unfolding find_slot fn_get
find_slot-none name [] i free = (λ h. (h, refl, refl), λ h. h.0)
find_slot-none name (none ∷ t) i none =
    (λ h. absurd (let r = (find_slot-none name t (suc i) (some i)).0 h in cc), λ h. absurd cc)
find_slot-none name (none ∷ t) i (some f) =
    (λ h. absurd (let r = (find_slot-none name t (suc i) (some f)).0 h in cc), λ h. absurd cc)
find_slot-none name (some e ∷ t) i free = elim (Bool-cases (str_eq e.name name)) [
  | inl own ↦ ground arith
  | inr other ↦ rw other (find_slot-none name t (suc i) free)
]

-- A definition is refused exactly when the name is empty, or new while every slot is taken.
pub fn_set_refuses :
    (name : Bytes) (body : Items) (t : Fns)
    → (fn_set name body t ≡ none) ↔ ((name ≡ []) ⊎ ((fn_get name t ≡ none) × (full t ≡ true)))
unfolding fn_set
fn_set_refuses [] body t = (λ h. inl refl, λ h. refl)
fn_set_refuses (c ∷ cs) body t = (
  λ h. elim (Option-cases (find_slot (c ∷ cs) t 0 none)) [
    | inl no_slot ↦ inr (let r = (find_slot-none (c ∷ cs) t 0 none).0 no_slot in (r.1, r.2))
    | inr (k, e) ↦ absurd (ground arith)
  ],
  λ h. elim h [
    | inl e ↦ absurd cc
    | inr g ↦ ap (put_fn (c ∷ cs) body t) ((find_slot-none (c ∷ cs) t 0 none).1 (refl, g.0, g.1))
  ],
)
