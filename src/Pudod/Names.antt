-- ===== src/Pudod/Names.antt =====
-- The names that the helper refuses: shells by the end of their path, and variables of its own.
use petrush.Base.{
  ◌≡◌, ◌≢◌, refl, sym, ◌∙◌, ap, Bool, true, false, not, ◌&&◌, none, some, List, [], ◌∷◌, ◌++◌, ◌==◌,
  arith, inl, inr, Bool-cases, if◌then◌else◌,
}
use petrush.Text.{Bytes, str_eq, str_eq_iff}
use petrush.Dispatch.Env.{Env, env_name, unsetenv}
use petrush.Pudod.Paths.{
  slash, after_last_slash, shells, is_one_of, shell_base, path_is_generic_shell,
}
use petrush.Pudod.Main.{sanitize}

abbrev pub no_slash : Bytes → Bool
no_slash [] = true
no_slash (c ∷ cs) = not (c == slash) && no_slash cs

after_last_slash-none : (base : Bytes) → no_slash base ≡ true → after_last_slash base ≡ none
unfolding after_last_slash
after_last_slash-none [] h = refl
after_last_slash-none (c ∷ cs) h =
    let other : (c == slash) ≡ false = ground arith in
    rw other (rw (after_last_slash-none cs (ground arith)) refl)

after_last_slash-append :
    (dir base : Bytes) → no_slash base ≡ true → after_last_slash (dir ++ slash ∷ base) ≡ some base
unfolding after_last_slash
after_last_slash-append [] base h = rw (after_last_slash-none base h) refl
after_last_slash-append (d ∷ dir) base h = rw (after_last_slash-append dir base h) refl

-- A path whose last component is not empty is told to be a shell exactly when that component is one of
-- the listed names.
pub path_is_generic_shell_lem :
    (dir base : Bytes)
    → no_slash base ≡ true
    → base ≢ []
    → path_is_generic_shell (dir ++ slash ∷ base) ≡ some (is_one_of base shells)
unfolding path_is_generic_shell
path_is_generic_shell_lem dir [] h ne = absurd (ne refl)
path_is_generic_shell_lem dir (c ∷ cs) h ne = ap shell_base (after_last_slash-append dir (c ∷ cs) h)

unsetenv-other : (name x : Bytes) (env : Env) → str_eq name x ≡ false → unsetenv name env x ≡ env x
unfolding unsetenv
unsetenv-other name x env h = ground arith

unsetenv-none : (name x : Bytes) (env : Env) → env x ≡ none → unsetenv name env x ≡ none
unfolding unsetenv
unsetenv-none name x env h = ground arith

unsetenv-own :
    (name x : Bytes) (env : Env)
    → env_name x ≡ true
    → str_eq x name ≡ true
    → unsetenv name env x ≡ none
unfolding unsetenv
unsetenv-own name x env valid same =
    let e : x ≡ name = (str_eq_iff x name).0 same in
    let same' : str_eq name x ≡ true = (str_eq_iff name x).1 (sym e) in
    let valid' : env_name name ≡ true = sym (ap env_name e) ∙ valid in ground arith

sanitize-none :
    (names : List Bytes) (x : Bytes) (env : Env) → env x ≡ none → sanitize names env x ≡ none
unfolding sanitize
sanitize-none [] x env h = h
sanitize-none (name ∷ names) x env h =
    sanitize-none names x (unsetenv name env) (unsetenv-none name x env h)

-- Clearing names of variables unsets each of them, if it is a name, and no other variable.
pub sanitize_lem :
    (names : List Bytes) (x : Bytes) (env : Env)
    → env_name x ≡ true
    → sanitize names env x ≡ (if is_one_of x names then none else env x)
unfolding sanitize is_one_of
sanitize_lem [] x env valid = refl
sanitize_lem (name ∷ names) x env valid = elim (Bool-cases (str_eq x name)) [
  | inl own ↦ rw own (sanitize-none names x (unsetenv name env) (unsetenv-own name x env valid own))
  | inr other ↦
      let other' : str_eq name x ≡ false = elim (Bool-cases (str_eq name x)) [
        | inl same ↦ absurd (let e = (str_eq_iff x name).1 (sym ((str_eq_iff name x).0 same)) in cc)
        | inr differ ↦ differ
      ] in
      rw other (
        sanitize_lem names x (unsetenv name env) valid
        ∙ ap (λ v. if is_one_of x names then none else v) (unsetenv-other name x env other'))
]
