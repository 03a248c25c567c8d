-- ===== src/Dispatch/Env.antt =====
-- The environment as `setenv`, `unsetenv` and `getenv` see it (src/foundation/env.c), and the stack of
-- values that `local` saves (src/mid/dispatcher.c).
use petrush.Base.{
  ℕ, Bool, true, false, not, ◌&&◌, Option, none, some, List, [], ◌∷◌, ◌==◌, leb, length,
  if◌then◌else◌,
}
use petrush.Text.{Bytes, str_eq}

abbrev pub Env : Type 0
Env = Bytes → Option Bytes

-- The names that `setenv` takes: not empty, and no `=` in them.
unfoldable pub no_equals : Bytes → Bool
no_equals [] = true
no_equals (c ∷ cs) = not (c == b'=') && no_equals cs

abbrev pub env_name : Bytes → Bool
env_name [] = false
env_name (c ∷ cs) = no_equals (c ∷ cs)

abbrev pub put : Bytes → Option Bytes → Env → Env
put name value env x = if str_eq name x then value else env x

-- The flag is `true` for the result 0.
unfoldable pub setenv : Bytes → Bytes → Env → Bool × Env
unfolding no_equals
setenv name value env = if env_name name then (true, put name (some value) env) else (false, env)

unfoldable pub unsetenv : Bytes → Env → Env
unfolding no_equals
unsetenv name env = if env_name name then put name none env else env

-- `petrush_local_save_t`; `old` is the value before, if there was one.
pub record Saved : Type 0 where
  pub depth : ℕ
  pub name : Bytes
  pub old : Option Bytes

abbrev pub local_stack_max : ℕ
local_stack_max = 256

abbrev pub is_nil : Bytes → Bool
is_nil [] = true
is_nil (c ∷ cs) = false

-- The stack has its top first; `none` is the result -1.
unfoldable pub local_push : ℕ → Bytes → Env → List Saved → Option (List Saved)
local_push depth name env saved =
    if is_nil name
    then none
    else if leb local_stack_max (length saved)
    then none
    else some (record { depth = depth; name = name; old = env name } ∷ saved)

abbrev pub restore_one : Saved → Env → Env
restore_one e env = elim e.old [ none ↦ unsetenv e.name env | some v ↦ (setenv e.name v env).1 ]

-- What is left of the stack, and the environment.
unfoldable pub local_restore_frame : ℕ → List Saved → Env → List Saved × Env
unfolding setenv unsetenv
local_restore_frame depth [] env = ([], env)
local_restore_frame depth (e ∷ saved) env =
    let restored = local_restore_frame depth saved (restore_one e env) in
    if e.depth == depth then restored else (e ∷ saved, env)
