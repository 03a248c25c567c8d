-- ===== src/Dispatch/Shell.antt =====
-- The state of the dispatcher (the static variables of src/mid/dispatcher.c), and what it takes from
-- the rest of the shell.
use petrush.Base.{ℕ, suc, ◌-◌, Bool, true, false, not, ◌||◌, Option, List, ltb, if◌then◌else◌}
use petrush.Base.Int.{ℤ, pos, eq_ℤ}
use petrush.Text.{Bytes}
use petrush.Parser.Connector.{RunCond, cond_always, cond_and, cond_or}
use petrush.Parser.Stage.{Cmd}
use petrush.Expand.Options.{
  Options, shellopt_get, last_status_set, take_arith_error, take_nounset_error,
}
use petrush.Expand.Positional.{Positional}
use petrush.Dispatch.Syntax.{Items, nil, cons}
use petrush.Dispatch.Test.{FileTest}
use petrush.Dispatch.Env.{Env, Saved}

-- What commands change: the world outside, and the state that other files keep.
pub record Outer (W : Type 0) : Type 0 where
  pub world : W
  pub env : Env
  pub opts : Options
  pub positional : Positional
  pub shell_abort : Bool

-- `petrush_fn_entry_t`.
pub record Fn : Type 0 where
  pub name : Bytes
  pub body : Items

pub record Shell (W : Type 0) : Type 0 where
  pub outer : Outer W
  pub fns : List (Option Fn)
  pub fn_depth : ℕ
  pub returning : Bool
  pub return_status : ℤ
  pub no_errexit : ℕ
  pub locals : List Saved

-- The operations of the other parts: word expansion, the builtins that are not modelled here, the
-- redirections of a builtin, external commands, pipelines of several stages and jobs in the
-- background with their status, the questions to the file system, and the traps that wait. The C
-- library's `environ` and output are the last two.
pub record Host (W : Type 0) : Type 0 where
  pub expand_cmd_argv : Outer W → Cmd → Outer W × Cmd
  pub expand_word : Outer W → Bytes → Outer W × Bytes
  pub find_builtin : Bytes → Option (Outer W → Cmd → Outer W × ℤ)
  pub apply_redirs : W → Cmd → Bool × W
  pub restore_fds : W → W
  pub execute_external : Outer W → Cmd → Outer W × Bool × ℤ
  pub execute_pipeline : Outer W → List Cmd → Outer W × Bool × ℤ
  pub background : Outer W → List Cmd → Outer W × ℤ
  pub file_is : W → FileTest → Bytes → Bool
  pub traps_poll : Outer W → Outer W
  pub environ : Outer W → List Bytes
  pub print : Bytes → W → W

abbrev pub raise_abort : {W : Type 0} → Outer W → Outer W
raise_abort o = record o { shell_abort = true }

-- `take_expand_errors`: an unset parameter ends the script as well.
unfoldable pub take_expand_errors : {W : Type 0} → Outer W → Bool × Outer W
unfolding take_arith_error take_nounset_error
take_expand_errors o =
    let (arith_bad, opts) = take_arith_error o.opts in
    let (unset, opts') = take_nounset_error opts in
    let o' = record o { opts = opts' } in (arith_bad || unset, if unset then raise_abort o' else o')

-- The next item hangs on the status of this one.
abbrev pub hangs_on : RunCond → Bool
hangs_on cond_always = false
hangs_on cond_and = true
hangs_on cond_or = true

-- `andor_not_last`, of the items behind.
abbrev pub andor_not_last : Items → Bool
andor_not_last nil = false
andor_not_last (cons cond bg it rest) = hangs_on cond

unfoldable pub maybe_errexit : {W : Type 0} → Items → ℤ → Shell W → Shell W
unfolding shellopt_get
maybe_errexit rest status s =
    if eq_ℤ status (pos 0)
    then s
    else if not (shellopt_get b'e' s.outer.opts)
    then s
    else if ltb 0 s.no_errexit
    then s
    else if andor_not_last rest
    then s
    else record s { outer = raise_abort s.outer }

-- The item is passed over: its connective does not want the status.
abbrev pub passed_over : RunCond → ℤ → Bool
passed_over cond_always status = false
passed_over cond_and status = not (eq_ℤ status (pos 0))
passed_over cond_or status = eq_ℤ status (pos 0)

abbrev pub set_status : {W : Type 0} → ℤ → Shell W → Shell W
set_status status s = record s {
  outer = record s.outer { opts = last_status_set status s.outer.opts };
}

-- The condition of `if` and `while` runs with the counter raised.
abbrev pub enter_condition : {W : Type 0} → Shell W → Shell W
enter_condition s = record s { no_errexit = suc s.no_errexit }

abbrev pub leave_condition : {W : Type 0} → Shell W → Shell W
leave_condition s = record s { no_errexit = s.no_errexit - 1 }
