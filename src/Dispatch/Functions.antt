-- ===== src/Dispatch/Functions.antt =====
-- The table of functions, and `return` and `local` (src/mid/dispatcher.c).
pub mod Grown
pub mod Table
pub mod Locals
use petrush.Base.{
  ℕ, zero, suc, ◌-◌, Bool, true, false, not, ◌||◌, Option, none, some, List, [], ◌∷◌, leb, ltb,
  ◌==◌, if◌then◌else◌, length, replicate, set,
}
use petrush.Base.Int.{ℤ, pos, negsuc}
use petrush.Text.{Bytes, codes, str_eq}
use petrush.Expand.Positional.{Positional, positional_set, or_empty}
use petrush.Parser.Stage.{Cmd}
use petrush.Dispatch.Syntax.{Items}
use petrush.Dispatch.Strtol.{parse_long, low_byte}
use petrush.Dispatch.Env.{Env, Saved, setenv, unsetenv, local_push, local_restore_frame, is_nil}
use petrush.Dispatch.Shell.{Outer, Fn, Shell}

abbrev pub fn_max : ℕ
fn_max = 64

abbrev pub Fns : Type 0
Fns = List (Option Fn)

-- The table at program start.
abbrev pub no_fns : Fns
no_fns = replicate fn_max none

-- The slot of the name, or else the first free slot; `free` is the one that was seen so far.
unfoldable pub find_slot : Bytes → Fns → ℕ → Option ℕ → Option ℕ
unfolding str_eq
find_slot name [] i free = free
find_slot name (none ∷ t) i none = find_slot name t (suc i) (some i)
find_slot name (none ∷ t) i (some j) = find_slot name t (suc i) (some j)
find_slot name (some e ∷ t) i free =
    if str_eq e.name name then some i else find_slot name t (suc i) free

abbrev pub put_fn : Bytes → Items → Fns → Option ℕ → Option Fns
put_fn name body t none = none
put_fn name body t (some slot) = some (set t slot (some (record { name = name; body = body })))

-- `none` is the result -1.
unfoldable pub fn_set : Bytes → Items → Fns → Option Fns
unfolding find_slot
fn_set name body t = if is_nil name then none else put_fn name body t (find_slot name t 0 none)

unfoldable pub fn_get : Bytes → Fns → Option Items
unfolding str_eq
fn_get name [] = none
fn_get name (none ∷ t) = fn_get name t
fn_get name (some e ∷ t) = if str_eq e.name name then some e.body else fn_get name t

-- `call_fn` up to the body: a deeper level, with the arguments as parameters.
abbrev pub enter_fn : {W : Type 0} → Bytes → List Bytes → Shell W → Shell W
enter_fn name args s = record s {
  fn_depth = suc s.fn_depth;
  outer = record s.outer { positional = record { arg0 = some name; args = args } };
}

abbrev pub status_of_call : {W : Type 0} → Shell W → ℤ → ℤ
status_of_call s status = if s.returning then s.return_status else status

-- `call_fn` behind the body: the values that `local` saved come back, and the old parameters.
unfoldable pub leave_fn : {W : Type 0} → Positional → Shell W → Shell W
unfolding local_restore_frame
leave_fn old s =
    let (locals, env) = local_restore_frame s.fn_depth s.locals s.outer.env in
    record s {
      returning = false;
      locals = locals;
      fn_depth = s.fn_depth - 1;
      outer = record s.outer {
        env = env;
        positional = record { arg0 = some (or_empty old.arg0); args = old.args };
      };
    }

abbrev pub return_with : {W : Type 0} → Option ℤ → Shell W → Shell W × ℤ
return_with none s = (s, pos 1)
return_with (some v) s =
    (record s { returning = true; return_status = pos (low_byte v) }, pos (low_byte v))

-- The arguments behind the name.
abbrev pub return_code : List Bytes → Option ℤ
return_code [] = some (pos 0)
return_code (a ∷ []) = parse_long a
return_code (a ∷ b ∷ as') = none

unfoldable pub builtin_return : {W : Type 0} → List Bytes → Shell W → Shell W × ℤ
unfolding parse_long
builtin_return args s = if s.fn_depth == 0 then (s, pos 1) else return_with (return_code args) s

-- The name of an argument of `local`, and its value if there is a `=`.
unfoldable pub name_part : Bytes → Bytes
name_part [] = []
name_part (c ∷ cs) = if c == b'=' then [] else c ∷ name_part cs

unfoldable pub value_part : Bytes → Option Bytes
value_part [] = none
value_part (c ∷ cs) = if c == b'=' then some cs else value_part cs

-- An assigned name is copied into a buffer of 256 bytes.
abbrev pub bad_name : Bytes → Option Bytes → Bool
bad_name name none = false
bad_name name (some v) = is_nil name || leb 256 (length name)

-- The status and the environment behind one argument.
abbrev pub assign_local : Bytes → Option Bytes → ℤ → Env → ℤ × Env
assign_local name none ret env = (ret, unsetenv name env)
assign_local name (some v) ret env =
    let (fine, env') = setenv name v env in (if fine then ret else pos 1, env')

-- The rest of the loop over the arguments of `local`.
abbrev pub Locals : Type 0
Locals = ℤ → Env → List Saved → Env × List Saved × ℤ

-- With what `local_push` gave.
abbrev pub local_into : Option (List Saved) → Bytes → Option Bytes → Locals → Locals
local_into none name value next ret env saved = (env, saved, pos 1)
local_into (some saved') name value next ret env saved =
    let (ret', env') = assign_local name value ret env in next ret' env' saved'

-- One argument, of its first byte and its parts.
abbrev pub local_step : ℕ → ℕ → Bytes → Option Bytes → Locals → Locals
local_step depth c name value next ret env saved =
    if c == b'-'
    then (env, saved, pos 1)
    else if bad_name name value
    then next (pos 1) env saved
    else local_into (local_push depth name env saved) name value next ret env saved

unfoldable pub local_args : ℕ → List Bytes → Locals
unfolding local_push setenv unsetenv name_part value_part
local_args depth [] ret env saved = (env, saved, ret)
local_args depth ([] ∷ args) ret env saved = local_args depth args (pos 1) env saved
local_args depth ((c ∷ cs) ∷ args) ret env saved =
    local_step depth c (name_part (c ∷ cs)) (value_part (c ∷ cs)) (local_args depth args) ret env
      saved

abbrev pub no_args : List Bytes → Bool
no_args [] = true
no_args (a ∷ as') = false

unfoldable pub builtin_local : {W : Type 0} → List Bytes → Shell W → Shell W × ℤ
unfolding local_args
builtin_local args s =
    if s.fn_depth == 0 || no_args args
    then (s, pos 1)
    else (let (env, locals, ret) = local_args s.fn_depth args (pos 0) s.outer.env s.locals in
        (record s { locals = locals; outer = record s.outer { env = env } }, ret))
