-- ===== src/Dispatch/Eval/Restores.antt =====
-- The induction over the evaluator: what is kept by commands, items and lists.
use petrush.Base.{
  ◌≡◌, Bool, true, false, Option, none, some, List, [], ◌∷◌, inl, inr, Bool-cases, if◌then◌else◌,
}
use petrush.Base.Int.{ℤ, pos}
use petrush.Text.{Bytes}
use petrush.Parser.Stage.{Cmd}
use petrush.Dispatch.Syntax.{Items}
use petrush.Dispatch.Shell.{Shell, Host, take_expand_errors}
use petrush.Dispatch.Functions.{enter_fn, fn_get}
use petrush.Dispatch.Functions.Grown.{Bounded-suc}
use petrush.Dispatch.Command.{
  with_outer, find_builtin, run_builtin, restored, with_world, builtin_or_external, cmd_needs_redir,
  Run, call_fn, fn_or_builtin, run_argv, run_expanded, command_of, dispatch_command, expand_all,
  run_stages, run_clean, dispatch_pipeline,
}
use petrush.Dispatch.Eval.Ensures.{Ensures, result, bind-Ensures, map-Ensures}
use petrush.Dispatch.Eval.Kept.{
  Kept, IsShell, Kept-refl, Kept-trans, Kept-IsShell, Kept-outer, leave_fn-Kept, RunKept,
  KeepsShell, KeepsOption, find_builtin-Keeps,
}

module _ {W : Type 0} (h : Host W) where
  restored-Kept : (s : Shell W) (r : Shell W × ℤ) → Kept s r.0 → Kept s (restored h r).0
  restored-Kept s (t, status) k = Kept-outer s t _ k

  if-run :
      (b : Bool) (s : Shell W) (x y : Shell W × ℤ)
      → Kept s x.0
      → Kept s y.0
      → Kept s (if b then x else y).0
  if-run true s x y kx ky = kx
  if-run false s x y kx ky = ky

  run_builtin-Kept :
      (fn : Shell W → Cmd → Shell W × ℤ) → KeepsShell h fn → KeepsShell h (run_builtin h fn)
  unfolding run_builtin
  run_builtin-Kept fn keeps s c = elim (Bool-cases (cmd_needs_redir c)) [
    | inr plain ↦ rw plain (keeps s c)
    | inl redirected ↦
        let w = (h.apply_redirs s.outer.world c).1 in
        rw redirected (
          restored-Kept s
            (if (h.apply_redirs s.outer.world c).0
              then fn (with_world h s w) c
              else (with_world h s w, pos 1))
            (if-run (h.apply_redirs s.outer.world c).0 s (fn (with_world h s w) c)
              (with_world h s w, pos 1)
              (Kept-trans (Kept-outer s s _ Kept-refl) (keeps (with_world h s w) c))
              (Kept-outer s s _ Kept-refl)))
  ]

  builtin_or_external-Kept :
      (o : Option (Shell W → Cmd → Shell W × ℤ)) (s : Shell W) (c : Cmd)
      → KeepsOption h o
      → Kept s (builtin_or_external h o s c).0
  builtin_or_external-Kept none s c keeps = Kept-outer s s _ Kept-refl
  builtin_or_external-Kept (some fn) s c keeps = run_builtin-Kept fn keeps s c

  module _ (run : Run h) (kept : RunKept h run) where
    pub call_fn-Kept :
        (name : Bytes) (args : List Bytes) (body : Items) (s : Shell W)
        → IsShell s
        → Ensures (λ r. Kept s r.0 × (r.0.locals ≡ s.locals)) (call_fn h run name args body s)
    unfolding call_fn
    call_fn-Kept name args body s v =
        bind-Ensures (kept (enter_fn name args s) body (Bounded-suc s.fn_depth s.locals v))
          (λ r k. result (leave_fn-Kept name args s r.0 v k))

    fn_or_builtin-Kept :
        (o : Option Items) (name : Bytes) (args : List Bytes) (s : Shell W) (c : Cmd)
        → IsShell s
        → Ensures (λ r. Kept s r.0) (fn_or_builtin h run o name args s c)
    fn_or_builtin-Kept none name args s c v =
        result (builtin_or_external-Kept (find_builtin h name) s c (find_builtin-Keeps h name))
    fn_or_builtin-Kept (some body) name args s c v =
        map-Ensures (λ r k. k.0) (call_fn-Kept name args body s v)

    run_argv-Kept :
        (argv : List Bytes) (s : Shell W) (c : Cmd)
        → IsShell s
        → Ensures (λ r. Kept s r.0) (run_argv h run argv s c)
    run_argv-Kept [] s c v = result (Kept-outer s s _ Kept-refl)
    run_argv-Kept (name ∷ args) s c v = fn_or_builtin-Kept (fn_get name s.fns) name args s c v

    run_expanded-Kept :
        (bad : Bool) (s t : Shell W) (c : Cmd)
        → Kept s t
        → IsShell s
        → Ensures (λ r. Kept s r.0) (run_expanded h run bad t c)
    run_expanded-Kept true s t c k v = result k
    run_expanded-Kept false s t c k v =
        map-Ensures (λ r k'. Kept-trans k k') (run_argv-Kept c.argv t c (Kept-IsShell k v))

    command_of-Kept :
        (argv : List Bytes) (s : Shell W) (c : Cmd)
        → IsShell s
        → Ensures (λ r. Kept s r.0) (command_of h run argv s c)
    command_of-Kept [] s c v = result Kept-refl
    command_of-Kept (_ ∷ _) s c v =
        let (o, c') = h.expand_cmd_argv s.outer c in
        bind-Ensures
          (run_expanded-Kept (take_expand_errors o).0 s (with_outer h s (take_expand_errors o).1) c'
            (Kept-outer s s (take_expand_errors o).1 Kept-refl) v)
          (λ r k. result k)

    dispatch_command-Kept :
        (s : Shell W) (c : Cmd) → IsShell s → Ensures (λ r. Kept s r.0) (dispatch_command h run s c)
    unfolding dispatch_command
    dispatch_command-Kept s c v = command_of-Kept c.argv s c v

    run_stages-Kept :
        (s : Shell W) (cs : List Cmd)
        → IsShell s
        → Ensures (λ r. Kept s r.0) (run_stages h run s cs)
    run_stages-Kept s [] v = result Kept-refl
    run_stages-Kept s (c ∷ []) v = bind-Ensures (dispatch_command-Kept s c v) (λ r k. result k)
    run_stages-Kept s (c ∷ d ∷ cs) v = result (Kept-outer s s _ Kept-refl)

    run_clean-Kept :
        (bad : Bool) (s t : Shell W) (cs : List Cmd)
        → Kept s t
        → IsShell s
        → Ensures (λ r. Kept s r.0) (run_clean h run bad t cs)
    run_clean-Kept true s t cs k v = result k
    run_clean-Kept false s t cs k v =
        map-Ensures (λ r k'. Kept-trans k k') (run_stages-Kept t cs (Kept-IsShell k v))

    pub dispatch_pipeline-Kept :
        (s : Shell W) (cs : List Cmd)
        → IsShell s
        → Ensures (λ r. Kept s r.0) (dispatch_pipeline h run s cs)
    unfolding dispatch_pipeline
    dispatch_pipeline-Kept s [] v = result Kept-refl
    dispatch_pipeline-Kept s (c ∷ cs) v =
        let (o, cs') = expand_all h s.outer (c ∷ cs) in
        run_clean-Kept (take_expand_errors o).0 s (with_outer h s (take_expand_errors o).1) cs'
          (Kept-outer s s (take_expand_errors o).1 Kept-refl) v
