-- ===== src/Dispatch/Eval/Ends.antt =====
-- Runs that end, and the table of functions behind a command where it has none.
use petrush.Base.{
  ◌≡◌, refl, Bool, true, false, not, ◌||◌, Option, none, some, List, [], ◌∷◌, ltb, ◌==◌,
  if◌then◌else◌,
}
use petrush.Base.Int.{ℤ, pos, eq_ℤ}
use petrush.Text.{Bytes, codes, str_eq}
use petrush.Parser.Stage.{Cmd}
use petrush.Dispatch.Shell.{Outer, Shell, Host, maybe_errexit, andor_not_last, take_expand_errors}
use petrush.Dispatch.Syntax.{Items}
use petrush.Expand.Options.{shellopt_get}
use petrush.Dispatch.Functions.{
  fn_get, builtin_return, builtin_local, return_with, return_code, no_args,
}
use petrush.Dispatch.Set.{builtin_set}
use petrush.Dispatch.Command.{
  ◌>>=◌, choose, unless_stopped, find_builtin, outside, arguments, run_builtin, cmd_needs_redir,
  with_world, builtin_or_external, run_argv, fn_or_builtin, run_expanded, command_of,
  dispatch_command, run_stages, run_clean, dispatch_pipeline, expand_all, with_outer, Run,
}

pub data Ends {A : Type 0} (P : A → Type 0) : Option A → Type 0 where
  ended : {a : A} → P a → Ends P (some a)

pub bind-Ends :
    {A B : Type 0} {P : A → Type 0} {Q : B → Type 0} {o : Option A} {f : A → Option B}
    → Ends P o
    → ((a : A) → P a → Ends Q (f a))
    → Ends Q (o >>= f)
unfolding ◌>>=◌
bind-Ends (ended {a = a} p) next = next a p

module _ {A : Type 0} where
  pub map-Ends : {P Q : A → Type 0} {o : Option A} → ((a : A) → P a → Q a) → Ends P o → Ends Q o
  map-Ends f (ended {a = a} p) = ended (f a p)

  pub choose-Ends :
      {P : A → Type 0} (b : Bool) (x y : Unit {0} → Option A)
      → Ends P (x tt)
      → Ends P (y tt)
      → Ends P (choose b x y)
  unfolding choose
  choose-Ends true x y px py = px
  choose-Ends false x y px py = py

  pub unless_stopped-Ends :
      {P : A → Type 0} (o : Option ℤ) (stop : ℤ → Option A) (next : Unit {0} → Option A)
      → ((r : ℤ) → Ends P (stop r))
      → Ends P (next tt)
      → Ends P (unless_stopped o stop next)
  unfolding unless_stopped
  unless_stopped-Ends none stop next ps pn = pn
  unless_stopped-Ends (some r) stop next ps pn = ps r

module _ {W : Type 0} where
  -- Both shells have the same table of functions.
  abbrev pub SameFns : Shell W → Shell W → Type 0
  SameFns s s' = s'.fns ≡ s.fns

  -- No function is defined.
  abbrev pub NoFns : Shell W → Type 0
  NoFns s = (name : Bytes) → fn_get name s.fns ≡ none

  if-fns : (b : Bool) (s x y : Shell W) → SameFns s x → SameFns s y → SameFns s (if b then x else y)
  if-fns true s x y px py = px
  if-fns false s x y px py = py

  pub maybe_errexit-fns :
      (rest : Items) (status : ℤ) (s : Shell W) → SameFns s (maybe_errexit rest status s)
  unfolding maybe_errexit
  maybe_errexit-fns rest status s = if-fns (eq_ℤ status (pos 0)) s s _ refl (
      if-fns (not (shellopt_get b'e' s.outer.opts)) s s _ refl
        (if-fns (ltb 0 s.no_errexit) s s _ refl (if-fns (andor_not_last rest) s s _ refl refl)))

  return_with-fns : (o : Option ℤ) (s : Shell W) → SameFns s (return_with o s).0
  return_with-fns none s = refl
  return_with-fns (some v) s = refl

  if-pair :
      (b : Bool) (s : Shell W) (x y : Shell W × ℤ)
      → SameFns s x.0
      → SameFns s y.0
      → SameFns s (if b then x else y).0
  if-pair true s x y px py = px
  if-pair false s x y px py = py

  builtin_return-fns : (args : List Bytes) (s : Shell W) → SameFns s (builtin_return args s).0
  unfolding builtin_return
  builtin_return-fns args s =
      if-pair (s.fn_depth == 0) s (s, pos 1) (return_with (return_code args) s) refl
        (return_with-fns (return_code args) s)

  builtin_local-fns : (args : List Bytes) (s : Shell W) → SameFns s (builtin_local args s).0
  unfolding builtin_local
  builtin_local-fns args s = if-pair (s.fn_depth == 0 || no_args args) s (s, pos 1) _ refl refl

-- Commands, in a shell without functions.
module _ {W : Type 0} (h : Host W) where
  abbrev KeepsFns : Option (Shell W → Cmd → Shell W × ℤ) → Type 0
  KeepsFns none = Unit
  KeepsFns (some fn) = (s : Shell W) (c : Cmd) → SameFns s (fn s c).0

  if-Keeps :
      (b : Bool) (x y : Option (Shell W → Cmd → Shell W × ℤ))
      → KeepsFns x
      → KeepsFns y
      → KeepsFns (if b then x else y)
  if-Keeps true x y kx ky = kx
  if-Keeps false x y kx ky = ky

  outside-Keeps : (o : Option (Outer W → Cmd → Outer W × ℤ)) → KeepsFns (outside h o)
  outside-Keeps none = tt
  outside-Keeps (some fn) = λ s c. refl

  find_builtin-fns : (name : Bytes) → KeepsFns (find_builtin h name)
  unfolding find_builtin
  find_builtin-fns name =
      if-Keeps (str_eq name (codes "return")) _ _ (λ s c. builtin_return-fns (arguments c.argv) s)
        (if-Keeps (str_eq name (codes "local")) _ _ (λ s c. builtin_local-fns (arguments c.argv) s)
          (if-Keeps (str_eq name (codes "true") || str_eq name (codes ":")) _ _ (λ s c. refl)
            (if-Keeps (str_eq name (codes "false")) _ _ (λ s c. refl)
              (if-Keeps (str_eq name (codes "test") || str_eq name (codes "[")) _ _ (λ s c. refl)
                (if-Keeps (str_eq name (codes "set")) _ _
                  (outside-Keeps (some (λ o c. builtin_set h (arguments c.argv) o)))
                  (outside-Keeps (h.find_builtin name)))))))

  run_builtin-fns :
      (fn : Shell W → Cmd → Shell W × ℤ) → KeepsFns (some fn) → KeepsFns (some (run_builtin h fn))
  unfolding run_builtin
  run_builtin-fns fn keeps s c =
      let w = (h.apply_redirs s.outer.world c).1 in
      if-pair (cmd_needs_redir c) s _ (fn s c)
        (if-pair (h.apply_redirs s.outer.world c).0 s (fn (with_world h s w) c)
          (with_world h s w, pos 1) (keeps (with_world h s w) c) refl)
        (keeps s c)

  builtin_or_external-fns :
      (o : Option (Shell W → Cmd → Shell W × ℤ)) (s : Shell W) (c : Cmd)
      → KeepsFns o
      → SameFns s (builtin_or_external h o s c).0
  builtin_or_external-fns none s c keeps = refl
  builtin_or_external-fns (some fn) s c keeps = run_builtin-fns fn keeps s c

  module _ (run : Run h) where
    fn_or_builtin-Ends :
        (o : Option Items) (name : Bytes) (args : List Bytes) (s : Shell W) (c : Cmd)
        → o ≡ none
        → Ends (λ r. SameFns s r.0) (fn_or_builtin h run o name args s c)
    fn_or_builtin-Ends none name args s c e =
        ended (builtin_or_external-fns (find_builtin h name) s c (find_builtin-fns name))
    fn_or_builtin-Ends (some body) name args s c e = absurd cc

    run_argv-Ends :
        (argv : List Bytes) (s : Shell W) (c : Cmd)
        → NoFns s
        → Ends (λ r. SameFns s r.0) (run_argv h run argv s c)
    run_argv-Ends [] s c nf = ended refl
    run_argv-Ends (name ∷ args) s c nf =
        fn_or_builtin-Ends (fn_get name s.fns) name args s c (nf name)

    run_expanded-Ends :
        (bad : Bool) (s : Shell W) (c : Cmd)
        → NoFns s
        → Ends (λ r. SameFns s r.0) (run_expanded h run bad s c)
    run_expanded-Ends true s c nf = ended refl
    run_expanded-Ends false s c nf = run_argv-Ends c.argv s c nf

    command_of-Ends :
        (argv : List Bytes) (s : Shell W) (c : Cmd)
        → NoFns s
        → Ends (λ r. SameFns s r.0) (command_of h run argv s c)
    command_of-Ends [] s c nf = ended refl
    command_of-Ends (_ ∷ _) s c nf =
        let (o, c') = h.expand_cmd_argv s.outer c in
        bind-Ends
          (run_expanded-Ends (take_expand_errors o).0 (with_outer h s (take_expand_errors o).1) c'
            nf)
          (λ r k. ended k)

    dispatch_command-Ends :
        (s : Shell W) (c : Cmd) → NoFns s → Ends (λ r. SameFns s r.0) (dispatch_command h run s c)
    unfolding dispatch_command
    dispatch_command-Ends s c nf = command_of-Ends c.argv s c nf

    run_stages-Ends :
        (s : Shell W) (cs : List Cmd) → NoFns s → Ends (λ r. SameFns s r.0) (run_stages h run s cs)
    run_stages-Ends s [] nf = ended refl
    run_stages-Ends s (c ∷ []) nf = bind-Ends (dispatch_command-Ends s c nf) (λ r k. ended k)
    run_stages-Ends s (c ∷ d ∷ cs) nf = ended refl

    run_clean-Ends :
        (bad : Bool) (s : Shell W) (cs : List Cmd)
        → NoFns s
        → Ends (λ r. SameFns s r.0) (run_clean h run bad s cs)
    run_clean-Ends true s cs nf = ended refl
    run_clean-Ends false s cs nf = run_stages-Ends s cs nf

    pub dispatch_pipeline-Ends :
        (s : Shell W) (cs : List Cmd)
        → NoFns s
        → Ends (λ r. SameFns s r.0) (dispatch_pipeline h run s cs)
    unfolding dispatch_pipeline
    dispatch_pipeline-Ends s [] nf = ended refl
    dispatch_pipeline-Ends s (c ∷ cs) nf =
        let (o, cs') = expand_all h s.outer (c ∷ cs) in
        run_clean-Ends (take_expand_errors o).0 (with_outer h s (take_expand_errors o).1) cs' nf
