-- ===== src/Dispatch/Functions/Locals.antt =====
-- What `local` assigns lasts until the function ends.
use petrush.Base.{
  ℕ, suc, ◌≡◌, refl, sym, ◌∙◌, ap, subst, true, false, Option, none, some, List, [], ◌∷◌, arith,
  inl, inr, Bool-cases, Option-cases, ◌==◌, ◌||◌,
}
use petrush.Base.Int.{ℤ, pos}
use petrush.Text.{Bytes, str_eq, str_eq_iff}
use petrush.Dispatch.Env.{
  Env, env_name, put, setenv, unsetenv, Saved, restore_one, local_push, local_restore_frame,
}
use petrush.Dispatch.Shell.{Shell}
use petrush.Dispatch.Functions.{
  local_args, name_part, value_part, bad_name, Locals, local_into, local_step, assign_local,
  builtin_local, enter_fn, leave_fn,
}
use petrush.Dispatch.Functions.Grown.{Bounded}

-- The same value for every name.
abbrev pub SameEnv : Env → Env → Type 0
SameEnv e e' = (x : Bytes) → e x ≡ e' x

put-Same :
    (name : Bytes) (v : Option Bytes) (e e' : Env)
    → SameEnv e e'
    → SameEnv (put name v e) (put name v e')
put-Same name v e e' h x = ground (arith, h x)

setenv-Same :
    (name v : Bytes) (e e' : Env) → SameEnv e e' → SameEnv (setenv name v e).1 (setenv name v e').1
unfolding setenv
setenv-Same name v e e' h = elim (Bool-cases (env_name name)) [
  | inl fine ↦ rw fine (put-Same name (some v) e e' h)
  | inr bad ↦ rw bad h
]

unsetenv-Same :
    (name : Bytes) (e e' : Env) → SameEnv e e' → SameEnv (unsetenv name e) (unsetenv name e')
unfolding unsetenv
unsetenv-Same name e e' h = elim (Bool-cases (env_name name)) [
  | inl fine ↦ rw fine (put-Same name none e e' h)
  | inr bad ↦ rw bad h
]

restore_one-Same :
    (a : Saved) (e e' : Env) → SameEnv e e' → SameEnv (restore_one a e) (restore_one a e')
restore_one-Same a e e' h = elim (Option-cases a.old) [
  | inl unset ↦ rw unset (unsetenv-Same a.name e e' h)
  | inr (v, old) ↦ rw old (setenv-Same a.name v e e' h)
]

put-put : (name : Bytes) (v : Option Bytes) (e : Env) → SameEnv (put name (e name) (put name v e)) e
put-put name v e x = elim (Bool-cases (str_eq name x)) [
  | inl own ↦ rw own (ap e ((str_eq_iff name x).0 own))
  | inr other ↦ rw other refl
]

restore_one-fine :
    (depth : ℕ) (name : Bytes) (old : Option Bytes) (e : Env)
    → env_name name ≡ true
    → restore_one (record { depth = depth; name = name; old = old }) e ≡ put name old e
unfolding setenv unsetenv
restore_one-fine depth name none e fine = rw fine refl
restore_one-fine depth name (some v) e fine = rw (restore_one, fine) refl

restore_one-bad :
    (depth : ℕ) (name : Bytes) (old : Option Bytes) (e : Env)
    → env_name name ≡ false
    → restore_one (record { depth = depth; name = name; old = old }) e ≡ e
unfolding setenv unsetenv
restore_one-bad depth name none e bad = rw bad refl
restore_one-bad depth name (some v) e bad = rw (restore_one, bad) refl

assign_local-fine :
    (name : Bytes) (value : Option Bytes) (ret : ℤ) (e : Env)
    → env_name name ≡ true
    → (assign_local name value ret e).1 ≡ put name value e
unfolding setenv unsetenv
assign_local-fine name none ret e fine = rw fine refl
assign_local-fine name (some v) ret e fine = rw fine refl

assign_local-bad :
    (name : Bytes) (value : Option Bytes) (ret : ℤ) (e : Env)
    → env_name name ≡ false
    → (assign_local name value ret e).1 ≡ e
unfolding setenv unsetenv
assign_local-bad name none ret e bad = rw bad refl
assign_local-bad name (some v) ret e bad = rw bad refl

-- Taking back the value that a name had before an assignment.
undone :
    (depth : ℕ) (name : Bytes) (value : Option Bytes) (ret : ℤ) (e : Env)
    → SameEnv
        (restore_one
          (record { depth = depth; name = name; old = e name })
          (assign_local name value ret e).1)
        e
undone depth name value ret e x = elim (Bool-cases (env_name name)) [
  | inl fine ↦
      ap (λ f. f x)
        (restore_one-fine depth name (e name) (assign_local name value ret e).1 fine
          ∙ ap (put name (e name)) (assign_local-fine name value ret e fine))
      ∙ put-put name value e x
  | inr bad ↦
      ap (λ f. f x)
        (restore_one-bad depth name (e name) (assign_local name value ret e).1 bad
          ∙ assign_local-bad name value ret e bad)
]

-- The stack and the environment that the end of the function leaves are the same.
SameEnd : ℕ → List Saved → Env → List Saved → Env → Type 0
SameEnd level l e l' e' =
    ((local_restore_frame level l e).0 ≡ (local_restore_frame level l' e').0)
    × SameEnv (local_restore_frame level l e).1 (local_restore_frame level l' e').1

SameEnd-env : (level : ℕ) (l : List Saved) (e e' : Env) → SameEnv e e' → SameEnd level l e l e'
unfolding local_restore_frame SameEnd
SameEnd-env level [] e e' h = (refl, h)
SameEnd-env level (a ∷ l) e e' h = elim (Bool-cases (a.depth == level)) [
  | inl own ↦
      rw own (SameEnd-env level l (restore_one a e) (restore_one a e') (restore_one-Same a e e' h))
  | inr other ↦ rw other (refl, h)
]

-- One entry more, and the assignment of its name.
SameEnd-push :
    (level : ℕ) (name : Bytes) (value : Option Bytes) (ret : ℤ) (e : Env) (l l' : List Saved)
    → local_push level name e l ≡ some l'
    → SameEnd level l' (assign_local name value ret e).1 l e
unfolding local_push local_restore_frame
SameEnd-push level name value ret e l l' h =
    let pushed : l' ≡ record { depth = level; name = name; old = e name } ∷ l = ground arith in
    let own : (level == level) ≡ true = ground arith in
    subst (λ k. SameEnd level k (assign_local name value ret e).1 l e) (sym pushed)
      (unfold SameEnd in rw own (SameEnd-env level l _ e (undone level name value ret e)))

Ends : ℕ → List Saved → Env → Env × List Saved × ℤ → Type 0
Ends level l e (e', l', ret) = SameEnd level l' e' l e

into-Ends :
    (level : ℕ) (name : Bytes) (value : Option Bytes) (next : Locals) (ret : ℤ) (e : Env)
    (l : List Saved) (o : Option (List Saved))
    → o ≡ local_push level name e l
    → ((r : ℤ) (e' : Env) (l' : List Saved) → Ends level l' e' (next r e' l'))
    → Ends level l e (local_into o name value next ret e l)
unfolding Ends SameEnd
into-Ends level name value next ret e l none h more = (refl, λ x. refl)
into-Ends level name value next ret e l (some l') h more =
    let (ret', e') = assign_local name value ret e in
    let (p, same) = more ret' e' l' in
    let (q, push) = SameEnd-push level name value ret e l l' (sym h) in
    (p ∙ q, λ x. same x ∙ push x)

step-Ends :
    (level c : ℕ) (name : Bytes) (value : Option Bytes) (next : Locals) (ret : ℤ) (e : Env)
    (l : List Saved)
    → ((r : ℤ) (e' : Env) (l' : List Saved) → Ends level l' e' (next r e' l'))
    → Ends level l e (local_step level c name value next ret e l)
unfolding Ends SameEnd
step-Ends level c name value next ret e l more = elim (Bool-cases (c == b'-')) [
  | inl option ↦ rw option (refl, λ x. refl)
  | inr plain ↦ rw plain (elim (Bool-cases (bad_name name value)) [
    | inl bad ↦ rw bad (more (pos 1) e l)
    | inr good ↦
        rw good (into-Ends level name value next ret e l (local_push level name e l) refl more)
  ])
]

local_args-Ends :
    (level : ℕ) (args : List Bytes) (ret : ℤ) (e : Env) (l : List Saved)
    → Ends level l e (local_args level args ret e l)
unfolding local_args Ends SameEnd
local_args-Ends level [] ret e l = (refl, λ x. refl)
local_args-Ends level ([] ∷ args) ret e l = local_args-Ends level args (pos 1) e l
local_args-Ends level ((c ∷ cs) ∷ args) ret e l =
    step-Ends level c (name_part (c ∷ cs)) (value_part (c ∷ cs)) (local_args level args) ret e l
      (λ r e' l'. local_args-Ends level args r e' l')

-- Leaving a level whose stack has no entry changes nothing.
restore-none :
    (level : ℕ) (l : List Saved) (e : Env)
    → Bounded level l
    → local_restore_frame (suc level) l e ≡ (l, e)
unfolding local_restore_frame
restore-none level [] e h = refl
restore-none level (a ∷ l) e h =
    let other : (a.depth == suc level) ≡ false = ground arith in rw other refl

module _ {W : Type 0} where
  -- A function that does nothing but `local`, whatever its arguments, leaves every variable with the
  -- value that it had before the call, and the stack of saved values as it was.
  pub leave_fn-local :
      (name : Bytes) (args locals : List Bytes) (s : Shell W)
      → Bounded s.fn_depth s.locals
      → let s' = leave_fn s.outer.positional (builtin_local locals (enter_fn name args s)).0 in
        SameEnv s'.outer.env s.outer.env × (s'.locals ≡ s.locals)
  unfolding leave_fn builtin_local Ends SameEnd
  leave_fn-local name args [] s v =
      let none_left = restore-none s.fn_depth s.locals s.outer.env v in
      let refused : (suc s.fn_depth == 0 || true) ≡ true = ground arith in
      rw refused ((λ x. ap (λ r. r.1 x) none_left), ap (λ r. r.0) none_left)
  leave_fn-local name args (a ∷ locals) s v =
      let none_left = restore-none s.fn_depth s.locals s.outer.env v in
      let taken : (suc s.fn_depth == 0 || false) ≡ false = ground arith in
      let (stack, env) =
        local_args-Ends (suc s.fn_depth) (a ∷ locals) (pos 0) s.outer.env s.locals in
      rw taken ((λ x. env x ∙ ap (λ r. r.1 x) none_left), stack ∙ ap (λ r. r.0) none_left)
