-- ===== src/Dispatch/Functions/Grown.antt =====
-- How `local` and the end of a function move the stack of saved values.
use petrush.Base.{
  some-ne-none, some-inj, ℕ, suc, ◌≤◌, ◌<◌, ◌≡◌, refl, sym, ◌∙◌, subst, true, false, Option, none,
  some, List, [], ◌∷◌, arith, inl, inr, Bool-cases, leb, ◌==◌, length,
}
use petrush.Base.Int.{ℤ, pos}
use petrush.Text.{Bytes}
use petrush.Dispatch.Env.{Env, Saved, local_push, local_restore_frame, is_nil, local_stack_max}
use petrush.Dispatch.Functions.{
  local_args, name_part, value_part, bad_name, Locals, local_into, local_step,
}

-- The stack with entries of the level on top.
pub data Grown (level : ℕ) (old : List Saved) : List Saved → Type 0 where
  same : Grown level old old
  pushed :
      {e : Saved} {l : List Saved}
      → e.depth ≡ level
      → 0 < level
      → Grown level old l
      → Grown level old (e ∷ l)

abbrev pub Bounded : ℕ → List Saved → Type 0
Bounded level [] = Unit
Bounded level (e ∷ l) = (e.depth ≤ level) × Bounded level l

pub Grown-trans :
    {level : ℕ} {a b c : List Saved} → Grown level a b → Grown level b c → Grown level a c
Grown-trans g same = g
Grown-trans g (pushed e p h) = pushed e p (Grown-trans g h)

pub Grown-Bounded :
    {level : ℕ} {a b : List Saved} → Grown level a b → Bounded level a → Bounded level b
Grown-Bounded same h = h
Grown-Bounded (pushed e p g) h = (omega arith, Grown-Bounded g h)

pub Bounded-suc : (level : ℕ) (l : List Saved) → Bounded level l → Bounded (suc level) l
Bounded-suc level [] h = tt
Bounded-suc level (e ∷ l) h = (omega arith, Bounded-suc level l h.1)

-- Outside functions the stack does not grow.
pub Grown-zero : {a b : List Saved} → Grown 0 a b → b ≡ a
Grown-zero same = refl
Grown-zero (pushed e p g) = absurd (omega arith)

-- Leaving a level takes its entries off, and no other where the rest belongs to lower levels.
restore-same :
    (level : ℕ) (l : List Saved) (env : Env)
    → Bounded level l
    → (local_restore_frame (suc level) l env).0 ≡ l
unfolding local_restore_frame
restore-same level [] env h = refl
restore-same level (e ∷ l) env h =
    let other : (e.depth == suc level) ≡ false = ground arith in rw other refl

pub restore-Grown :
    (level : ℕ) {a b : List Saved} (env : Env)
    → Bounded level a
    → Grown (suc level) a b
    → (local_restore_frame (suc level) b env).0 ≡ a
unfolding local_restore_frame
restore-Grown level {a = a} env h same = restore-same level a env h
restore-Grown level env h (pushed {e = e} eq p g) =
    let own : (e.depth == suc level) ≡ true = ground arith in rw own (restore-Grown level _ h g)

local_push-Grown :
    (level : ℕ) (name : Bytes) (env : Env) (l l' : List Saved)
    → 0 < level
    → local_push level name env l ≡ some l'
    → Grown level l l'
unfolding local_push
local_push-Grown level name env l l' p h = elim (Bool-cases (is_nil name)) [
  | inl empty ↦ absurd (some-ne-none (sym h ∙ rw empty refl))
  | inr named ↦ elim (Bool-cases (leb local_stack_max (length l))) [
    | inl full ↦ absurd (some-ne-none (sym h ∙ rw named (rw full refl)))
    | inr room ↦
        let e : local_push level name env l
            ≡ some (record { depth = level; name = name; old = env name } ∷ l) =
          rw named (rw room refl) in
        subst (Grown level l) (some-inj (sym e ∙ h)) (pushed refl p same)
  ]
]

local_into-Grown :
    (level : ℕ) (o : Option (List Saved)) (name : Bytes) (value : Option Bytes) (next : Locals)
    (ret : ℤ) (env : Env) (l : List Saved)
    → ((l' : List Saved) → o ≡ some l' → Grown level l l')
    → ((r : ℤ) (e : Env) (l' : List Saved) → Grown level l' (next r e l').1)
    → Grown level l (local_into o name value next ret env l).1
local_into-Grown level none name value next ret env l push more = same
local_into-Grown level (some l') name value next ret env l push more =
    Grown-trans (push l' refl) (more _ _ l')

local_step-Grown :
    (level c : ℕ) (name : Bytes) (value : Option Bytes) (next : Locals) (ret : ℤ) (env : Env)
    (l : List Saved)
    → 0 < level
    → ((r : ℤ) (e : Env) (l' : List Saved) → Grown level l' (next r e l').1)
    → Grown level l (local_step level c name value next ret env l).1
local_step-Grown level c name value next ret env l p more = elim (Bool-cases (c == b'-')) [
  | inl option ↦ rw option same
  | inr plain ↦ rw plain (elim (Bool-cases (bad_name name value)) [
    | inl bad ↦ rw bad (more (pos 1) env l)
    | inr good ↦ rw good (
        local_into-Grown level (local_push level name env l) name value next ret env l
          (λ l' e. local_push-Grown level name env l l' p e) more)
  ])
]

pub local_args-Grown :
    (level : ℕ) (args : List Bytes) (ret : ℤ) (env : Env) (l : List Saved)
    → 0 < level
    → Grown level l (local_args level args ret env l).1
unfolding local_args
local_args-Grown level [] ret env l p = same
local_args-Grown level ([] ∷ args) ret env l p = local_args-Grown level args (pos 1) env l p
local_args-Grown level ((c ∷ cs) ∷ args) ret env l p =
    local_step-Grown level c (name_part (c ∷ cs)) (value_part (c ∷ cs)) (local_args level args) ret
      env l p (λ r e l'. local_args-Grown level args r e l' p)
