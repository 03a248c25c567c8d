-- ===== src/Dispatch/Eval/Calls.antt =====
-- What a call of a function, and a list at the top level, leave as it was.
use petrush.Base.{
  ℕ, ◌≡◌, refl, true, false, some, List, [], inl, inr, subst, sym, ◌∙◌, arith, Bool-cases,
}
use petrush.Base.Int.{ℤ, pos}
use petrush.Text.{Bytes}
use petrush.Dispatch.Syntax.{Items}
use petrush.Dispatch.Shell.{Shell, Host}
use petrush.Dispatch.Functions.{enter_fn, leave_fn}
use petrush.Dispatch.Functions.Grown.{Grown, Bounded, Bounded-suc, Grown-zero}
use petrush.Dispatch.Command.{call_fn}
use petrush.Dispatch.Eval.{run_items, dispatch_list}
use petrush.Dispatch.Eval.Ensures.{Ensures, result, bind-Ensures, Ensures-some}
use petrush.Dispatch.Eval.Kept.{IsShell, leave_fn-Kept}
use petrush.Dispatch.Eval.Lists.{run_items-Kept, dispatch_list-Kept}

module _ {W : Type 0} where
  -- The caller's parameters, the depth, the condition counter and the saved values.
  pub record BackIn (s s' : Shell W) : Type 0 where
    pub same_depth : s'.fn_depth ≡ s.fn_depth
    pub same_condition : s'.no_errexit ≡ s.no_errexit
    pub same_locals : s'.locals ≡ s.locals
    pub same_args : s'.outer.positional.args ≡ s.outer.positional.args
    pub no_return : s'.returning ≡ false

  -- No function runs, nothing is saved, and no `return` is underway.
  abbrev pub AtTop : Shell W → Type 0
  AtTop s = (s.fn_depth ≡ 0) × (s.locals ≡ []) × (s.returning ≡ false)

module _ {W : Type 0} (h : Host W) where
  -- After a call of a function whose body ends, by `return` or not, the shell is back in the caller:
  -- its depth, its parameters `$1` and on, its condition counter and its stack of saved values are
  -- those from before, and no `return` is underway.
  pub call_fn-BackIn :
      (f : ℕ) (name : Bytes) (args : List Bytes) (body : Items) (s s' : Shell W) (status : ℤ)
      → IsShell s
      → call_fn h (run_items h f true (pos 0)) name args body s ≡ some (s', status)
      → BackIn s s'
  unfolding call_fn leave_fn
  call_fn-BackIn f name args body s s' status v e =
      let back : Ensures (λ r. BackIn s r.0)
          (call_fn h (run_items h f true (pos 0)) name args body s) =
        bind-Ensures
          (run_items-Kept h f true (pos 0) (enter_fn name args s) body
            (Bounded-suc s.fn_depth s.locals v))
          (λ r k.
            let (kept, locals) = leave_fn-Kept name args s r.0 v k in
            result (record {
              same_depth = kept.same_depth;
              same_condition = kept.same_condition;
              same_locals = locals;
              same_args = refl;
              no_return = refl;
            })) in
      Ensures-some back e

  -- A list that ends leaves a shell at the top level at the top level.
  pub dispatch_list-AtTop :
      (f : ℕ) (s s' : Shell W) (l l' : Items) (status : ℤ)
      → AtTop s
      → dispatch_list h f s l ≡ some (s', l', status)
      → AtTop s'
  dispatch_list-AtTop f s s' l l' status (depth, locals, returning) e =
      let v : IsShell s = subst (λ x. Bounded s.fn_depth x) (sym locals) tt in
      let k = dispatch_list-Kept h f s s' l l' status v e in
      (
        k.same_depth ∙ depth,
        Grown-zero (subst (λ d. Grown d s.locals s'.locals) depth k.grown) ∙ locals,
        elim (Bool-cases s'.returning) [
          | inr quiet ↦ quiet
          | inl now ↦ elim (k.returns now) [
            | inl before ↦ absurd cc
            | inr inside ↦ absurd (omega (arith, depth))
          ]
        ],
      )
