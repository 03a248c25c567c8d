-- ===== src/Dispatch/Command.antt =====
-- `dispatch_command` and `dispatch_pipeline` (src/mid/dispatcher.c). Word expansion writes into the tree,
-- so a command is returned as well. `run` executes a list.
use petrush.Base.{Bool, true, false, ◌||◌, Option, none, some, List, [], ◌∷◌, if◌then◌else◌}
use petrush.Base.Int.{ℤ, pos, eq_ℤ}
use petrush.Text.{Bytes, codes, str_eq}
use petrush.Parser.Stage.{Cmd}
use petrush.Dispatch.Syntax.{Items}
use petrush.Dispatch.Test.{builtin_test}
use petrush.Dispatch.Shell.{Outer, Shell, Host, take_expand_errors}
use petrush.Dispatch.Set.{builtin_set}
use petrush.Dispatch.Functions.{
  fn_get, enter_fn, leave_fn, status_of_call, builtin_return, builtin_local,
}

infixl 5 ◌>>=◌
unfoldable pub ◌>>=◌ : {A B : Type 0} → Option A → (A → Option B) → Option B
none >>= f = none
some a >>= f = f a

-- A branch waits until it is chosen.
unfoldable pub choose : {A : Type 0} → Bool → (Unit {0} → A) → (Unit {0} → A) → A
choose true yes_branch no_branch = yes_branch tt
choose false yes_branch no_branch = no_branch tt

-- What stops a compound command, with its status, or its next step.
unfoldable pub unless_stopped : {A : Type 0} → Option ℤ → (ℤ → A) → (Unit {0} → A) → A
unless_stopped none stop next = next tt
unless_stopped (some r) stop next = stop r

abbrev pub is_some : {A : Type 0} → Option A → Bool
is_some none = false
is_some (some a) = true

abbrev pub cmd_needs_redir : Cmd → Bool
cmd_needs_redir c =
    is_some c.redir_in
    || is_some c.here_body
    || is_some c.here_delim
    || is_some c.redir_out
    || is_some c.redir_err
    || c.redir_err_to_out

abbrev pub arguments : List Bytes → List Bytes
arguments [] = []
arguments (name ∷ args) = args

module _ {W : Type 0} (h : Host W) where
  abbrev pub with_outer : Shell W → Outer W → Shell W
  with_outer s o = record s { outer = o }

  -- A builtin of another part, on the state that it may change.
  abbrev pub outside : Option (Outer W → Cmd → Outer W × ℤ) → Option (Shell W → Cmd → Shell W × ℤ)
  outside none = none
  outside (some fn) = some (λ s c. let (o, status) = fn s.outer c in (with_outer s o, status))

  unfoldable pub find_builtin : Bytes → Option (Shell W → Cmd → Shell W × ℤ)
  unfolding builtin_return builtin_local builtin_test builtin_set str_eq
  find_builtin name =
      if str_eq name (codes "return")
      then some (λ s c. builtin_return (arguments c.argv) s)
      else if str_eq name (codes "local")
      then some (λ s c. builtin_local (arguments c.argv) s)
      else if str_eq name (codes "true") || str_eq name (codes ":")
      then some (λ s c. (s, pos 0))
      else if str_eq name (codes "false")
      then some (λ s c. (s, pos 1))
      else if str_eq name (codes "test") || str_eq name (codes "[")
      then some (λ s c. (s, pos (builtin_test (h.file_is s.outer.world) c.argv)))
      else if str_eq name (codes "set")
      then outside (some (λ o c. builtin_set h (arguments c.argv) o))
      else outside (h.find_builtin name)

  abbrev pub with_world : Shell W → W → Shell W
  with_world s w = with_outer s (record s.outer { world = w })

  abbrev pub restored : Shell W × ℤ → Shell W × ℤ
  restored (s, status) = (with_world s (h.restore_fds s.outer.world), status)

  unfoldable pub run_builtin : (Shell W → Cmd → Shell W × ℤ) → Shell W → Cmd → Shell W × ℤ
  run_builtin fn s c =
      if cmd_needs_redir c
      then (let (fine, w) = h.apply_redirs s.outer.world c in
          restored (if fine then fn (with_world s w) c else (with_world s w, pos 1)))
      else fn s c

  -- The status where the call did its work, and otherwise one that is not 0.
  abbrev pub or_127 : Bool × ℤ → ℤ
  or_127 (fine, status) = if fine then status else if eq_ℤ status (pos 0) then pos 127 else status

  abbrev pub external : Shell W → Cmd → Shell W × ℤ
  external s c =
      let (o, fine, status) = h.execute_external s.outer c in
      (with_outer s o, or_127 (fine, status))

  abbrev pub builtin_or_external :
      Option (Shell W → Cmd → Shell W × ℤ) → Shell W → Cmd → Shell W × ℤ
  builtin_or_external none s c = external s c
  builtin_or_external (some fn) s c = run_builtin fn s c

  abbrev pub Run : Type 0
  Run = Shell W → Items → Option (Shell W × Items × ℤ)

  -- `run` executes the copy of the body.
  unfoldable pub call_fn : Run → Bytes → List Bytes → Items → Shell W → Option (Shell W × ℤ)
  unfolding leave_fn
  call_fn run name args body s = run (enter_fn name args s) body >>= λ (s', copy, status).
      some (leave_fn s.outer.positional s', status_of_call s' status)

  abbrev pub fn_or_builtin :
      Run → Option Items → Bytes → List Bytes → Shell W → Cmd → Option (Shell W × ℤ)
  fn_or_builtin run (some body) name args s c = call_fn run name args body s
  fn_or_builtin run none name args s c = some (builtin_or_external (find_builtin name) s c)

  abbrev pub run_argv : Run → List Bytes → Shell W → Cmd → Option (Shell W × ℤ)
  run_argv run [] s c = some (external s c)
  run_argv run (name ∷ args) s c = fn_or_builtin run (fn_get name s.fns) name args s c

  -- The command behind its expansion.
  abbrev pub run_expanded : Run → Bool → Shell W → Cmd → Option (Shell W × ℤ)
  run_expanded run true s c = some (s, pos 1)
  run_expanded run false s c = run_argv run c.argv s c

  -- With the words of the command.
  abbrev pub command_of : Run → List Bytes → Shell W → Cmd → Option (Shell W × Cmd × ℤ)
  command_of run [] s c = some (s, c, pos 0)
  command_of run (_ ∷ _) s c =
      let (o, c') = h.expand_cmd_argv s.outer c in
      let (bad, o') = take_expand_errors o in
      run_expanded run bad (with_outer s o') c' >>= λ (s', status). some (s', c', status)

  unfoldable pub dispatch_command : Run → Shell W → Cmd → Option (Shell W × Cmd × ℤ)
  unfolding call_fn fn_get find_builtin run_builtin take_expand_errors
  dispatch_command run s c = command_of run c.argv s c

  unfoldable pub expand_all : Outer W → List Cmd → Outer W × List Cmd
  expand_all o [] = (o, [])
  expand_all o (c ∷ cs) =
      let (o', c') = h.expand_cmd_argv o c in let (o'', cs') = expand_all o' cs in (o'', c' ∷ cs')

  abbrev pub run_stages : Run → Shell W → List Cmd → Option (Shell W × List Cmd × ℤ)
  run_stages run s [] = some (s, [], pos 0)
  run_stages run s (c ∷ []) =
      dispatch_command run s c >>= λ (s', c', status). some (s', c' ∷ [], status)
  run_stages run s (c ∷ d ∷ cs) =
      let (o, fine, status) = h.execute_pipeline s.outer (c ∷ d ∷ cs) in
      some (with_outer s o, c ∷ d ∷ cs, or_127 (fine, status))

  abbrev pub run_clean : Run → Bool → Shell W → List Cmd → Option (Shell W × List Cmd × ℤ)
  run_clean run true s cs = some (s, cs, pos 1)
  run_clean run false s cs = run_stages run s cs

  unfoldable pub dispatch_pipeline : Run → Shell W → List Cmd → Option (Shell W × List Cmd × ℤ)
  unfolding expand_all dispatch_command take_expand_errors
  dispatch_pipeline run s [] = some (s, [], pos 0)
  dispatch_pipeline run s (c ∷ cs) =
      let (o, cs') = expand_all s.outer (c ∷ cs) in
      let (bad, o') = take_expand_errors o in run_clean run bad (with_outer s o') cs'
