-- ===== src/Alias/Invariant.antt =====
-- The invariant of the alias table and its preservation (src/mid/alias.c).
use petrush.Base.{
  suc, ◌<◌, ◌≡◌, refl, ap, ◌∙◌, true, false, none, some, [], ◌∷◌, arith, length, leb, inl, inr,
  Bool-cases, Option-cases,
}
use petrush.Text.{Bytes, str_eq, str_eq_iff}
use petrush.Alias.{
  Alias, Aliases, alias_max, alias_name_max, alias_val_max, clear_all, valid_name, copied, update,
  fill, remove, alias_set, alias_unset, alias_get,
}
use petrush.Alias.Table.{Distinct, copied-whole, update-none}

-- What holds of an entry: what it holds fits its buffers.
pub record IsAlias (a : Alias) : Type 0 where
  pub name_valid : valid_name a.name ≡ true
  pub name_fits : length a.name < alias_name_max
  pub value_fits : length a.value < alias_val_max

abbrev pub AreAliases : Aliases → Type 0
AreAliases [] = Unit
AreAliases (none ∷ t) = AreAliases t
AreAliases (some a ∷ t) = IsAlias a × AreAliases t

pub record IsAliases (t : Aliases) : Type 0 where
  pub full_length : length t ≡ alias_max
  pub entries : AreAliases t
  pub distinct : Distinct t

pub clear_all-IsAliases : IsAliases clear_all
clear_all-IsAliases = record { full_length = refl; entries = tt; distinct = tt }

-- The three parts of the invariant for a table that an operation on `t` makes; a name other than
-- `name` that was absent stays absent.
record Kept (name : Bytes) (t t' : Aliases) : Type 0 where
  same_length : length t' ≡ length t
  still_entries : AreAliases t'
  still_distinct : Distinct t'
  no_others : (n : Bytes) → str_eq name n ≡ false → alias_get n t ≡ none → alias_get n t' ≡ none

cons_none : {name : Bytes} {t t' : Aliases} → Kept name t t' → Kept name (none ∷ t) (none ∷ t')
unfolding alias_get
cons_none k = record {
  same_length = ap suc k.same_length;
  still_entries = k.still_entries;
  still_distinct = k.still_distinct;
  no_others = k.no_others;
}

cons_other :
    {name : Bytes} {t t' : Aliases} (a : Alias)
    → IsAlias a
    → alias_get a.name t ≡ none
    → str_eq name a.name ≡ false
    → Kept name t t'
    → Kept name (some a ∷ t) (some a ∷ t')
unfolding alias_get
cons_other a ok fresh other k = record {
  same_length = ap suc k.same_length;
  still_entries = (ok, k.still_entries);
  still_distinct = (k.no_others a.name other fresh, k.still_distinct);
  no_others = λ n e h. ground (arith, k.no_others n e);
}

str_eq-sym_false : (a b : Bytes) → str_eq a b ≡ false → str_eq b a ≡ false
str_eq-sym_false a b h = ground (arith, str_eq_iff a b, str_eq_iff b a)

module _ (name value : Bytes) (fits : length value < alias_val_max) where
  update-Kept :
      (t t' : Aliases) → AreAliases t → Distinct t → update name value t ≡ some t' → Kept name t t'
  unfolding update
  update-Kept [] t' e d h = absurd (ground arith)
  update-Kept (none ∷ t) t' e d h = elim (Option-cases (update name value t)) [
    | inl x ↦ absurd (ground arith)
    | inr (u, x) ↦
        let same : t' ≡ none ∷ u = ground arith in rw same (cons_none (update-Kept t u e d x))
  ]
  update-Kept (some a ∷ t) t' e d h = elim (Bool-cases (str_eq a.name name)) [
    | inl s ↦
        let same : t' ≡ some (record a { value = copied alias_val_max value }) ∷ t = ground arith in
        rw same (record {
          same_length = refl;
          still_entries = (
            record {
              name_valid = e.0.name_valid;
              name_fits = e.0.name_fits;
              value_fits = rw (copied-whole alias_val_max value fits) fits;
            },
            e.1,
          );
          still_distinct = d;
          no_others = λ n x g. unfold alias_get in ground (arith, str_eq_iff a.name name);
        })
    | inr s ↦ elim (Option-cases (update name value t)) [
      | inl x ↦ absurd (ground arith)
      | inr (u, x) ↦
          let same : t' ≡ some a ∷ u = ground arith in
          rw same
            (cons_other a e.0 d.0 (str_eq-sym_false a.name name s) (update-Kept t u e.1 d.1 x))
    ]
  ]

  module _ (valid : valid_name name ≡ true) (short : length name < alias_name_max) where
    fill-Kept :
        (t t' : Aliases)
        → AreAliases t
        → Distinct t
        → alias_get name t ≡ none
        → fill name value t ≡ some t'
        → Kept name t t'
    unfolding fill alias_get
    fill-Kept [] t' e d g h = absurd (ground arith)
    fill-Kept (none ∷ t) t' e d g h =
        let whole = copied-whole alias_name_max name short in
        let new : Alias = record { name = name; value = copied alias_val_max value } in
        let same : t' ≡ some new ∷ t = ground (arith, whole) in
        rw same (record {
          same_length = refl;
          still_entries = (
            record {
              name_valid = valid;
              name_fits = short;
              value_fits = rw (copied-whole alias_val_max value fits) fits;
            },
            e,
          );
          still_distinct = (g, d);
          no_others = λ n x y. rw x y;
        })
    fill-Kept (some a ∷ t) t' e d g h = elim (Bool-cases (str_eq a.name name)) [
      | inl s ↦ absurd (ground arith)
      | inr s ↦ elim (Option-cases (fill name value t)) [
        | inl x ↦ absurd (ground arith)
        | inr (u, x) ↦
            let same : t' ≡ some a ∷ u = ground arith in
            rw same (
              cons_other a e.0 d.0 (str_eq-sym_false a.name name s)
                (fill-Kept t u e.1 d.1 (ground arith) x))
      ]
    ]

remove-Kept :
    (name : Bytes) (t t' : Aliases)
    → AreAliases t
    → Distinct t
    → remove name t ≡ some t'
    → Kept name t t'
unfolding remove
remove-Kept name [] t' e d h = absurd (ground arith)
remove-Kept name (none ∷ t) t' e d h = elim (Option-cases (remove name t)) [
  | inl x ↦ absurd (ground arith)
  | inr (u, x) ↦
      let same : t' ≡ none ∷ u = ground arith in rw same (cons_none (remove-Kept name t u e d x))
]
remove-Kept name (some a ∷ t) t' e d h = elim (Bool-cases (str_eq a.name name)) [
  | inl s ↦
      let same : t' ≡ none ∷ t = ground arith in
      rw same (record {
        same_length = refl;
        still_entries = e.1;
        still_distinct = d.1;
        no_others = λ n x g. unfold alias_get in ground (arith, str_eq_iff a.name n);
      })
  | inr s ↦ elim (Option-cases (remove name t)) [
    | inl x ↦ absurd (ground arith)
    | inr (u, x) ↦
        let same : t' ≡ some a ∷ u = ground arith in
        rw same
          (cons_other a e.0 d.0 (str_eq-sym_false a.name name s) (remove-Kept name t u e.1 d.1 x))
  ]
]

Kept-IsAliases : (name : Bytes) (t t' : Aliases) → IsAliases t → Kept name t t' → IsAliases t'
Kept-IsAliases name t t' v k = record {
  full_length = k.same_length ∙ v.full_length;
  entries = k.still_entries;
  distinct = k.still_distinct;
}

-- Defining an alias keeps the table well formed: 64 entries, valid names that fit, values that
-- fit, and no name twice. This holds on every branch, a refusal included.
pub alias_set-IsAliases :
    (name value : Bytes) (t : Aliases) → IsAliases t → IsAliases (alias_set name value t).1
unfolding alias_set
alias_set-IsAliases name value t v = elim (Bool-cases (valid_name name)) [
  | inr bad ↦ rw bad v
  | inl good ↦ rw good (elim (Bool-cases (leb alias_name_max (length name))) [
    | inl long ↦ rw long v
    | inr short ↦ rw short (elim (Bool-cases (leb alias_val_max (length value))) [
      | inl big ↦ rw big v
      | inr small ↦ rw small (elim (Option-cases (update name value t)) [
        | inr (u, e) ↦ rw e (
            Kept-IsAliases name t u v
              (update-Kept name value (ground arith) t u v.entries v.distinct e))
        | inl e ↦ rw e (elim (Option-cases (fill name value t)) [
          | inl f ↦ rw f v
          | inr (u, f) ↦ rw f (
              Kept-IsAliases name t u v (
                fill-Kept name value (ground arith) good (ground arith) t u v.entries v.distinct
                  ((update-none name value t).0 e) f))
        ])
      ])
    ])
  ])
]

-- Removing an alias keeps the table well formed.
pub alias_unset-IsAliases :
    (name : Bytes) (t : Aliases) → IsAliases t → IsAliases (alias_unset name t).1
unfolding alias_unset
alias_unset-IsAliases name t v = elim (Option-cases (remove name t)) [
  | inl e ↦ rw e v
  | inr (u, e) ↦ rw e (Kept-IsAliases name t u v (remove-Kept name t u v.entries v.distinct e))
]
