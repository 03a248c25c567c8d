-- ===== src/Dispatch/Eval/Kept.antt =====
-- What every list that ends leaves as it was: the depth of calls, the counter of conditions, and the
-- values that callers saved with `local`.
use petrush.Base.{
  ◌<◌, ◌≡◌, ◌⊎◌, refl, sym, ◌∙◌, subst, Bool, true, false, not, ◌||◌, Option, none, some, List,
  arith, inl, inr, Bool-cases, ltb, ◌==◌, if◌then◌else◌,
}
use petrush.Base.Int.{ℤ, pos, eq_ℤ}
use petrush.Text.{Bytes, codes, str_eq}
use petrush.Parser.Stage.{Cmd}
use petrush.Dispatch.Syntax.{Items}
use petrush.Dispatch.Env.{local_restore_frame}
use petrush.Expand.Options.{shellopt_get}
use petrush.Dispatch.Shell.{
  Outer, Shell, Host, maybe_errexit, enter_condition, leave_condition, andor_not_last, raise_abort,
}
use petrush.Dispatch.Functions.{
  builtin_local, builtin_return, leave_fn, enter_fn, return_with, return_code, no_args,
}
use petrush.Dispatch.Functions.Grown.{
  Grown, same, Bounded, Grown-trans, Grown-Bounded, restore-Grown, local_args-Grown,
}
use petrush.Dispatch.Set.{builtin_set}
use petrush.Dispatch.Command.{outside, find_builtin, arguments, Run}
use petrush.Dispatch.Eval.Ensures.{Ensures}

module _ {W : Type 0} where
  -- From the first state to the second one.
  pub record Kept (s s' : Shell W) : Type 0 where
    pub same_depth : s'.fn_depth ≡ s.fn_depth
    pub same_condition : s'.no_errexit ≡ s.no_errexit
    pub grown : Grown s.fn_depth s.locals s'.locals
    pub returns : s'.returning ≡ true → (s.returning ≡ true) ⊎ (0 < s.fn_depth)

  -- Entries of the stack belong to calls that run.
  abbrev pub IsShell : Shell W → Type 0
  IsShell s = Bounded s.fn_depth s.locals

  pub Kept-refl : {s : Shell W} → Kept s s
  Kept-refl = record {
    same_depth = refl;
    same_condition = refl;
    grown = same;
    returns = λ h. inl h;
  }

  pub Kept-trans : {s t u : Shell W} → Kept s t → Kept t u → Kept s u
  Kept-trans {s = s} {t = t} {u = u} a b = record {
    same_depth = b.same_depth ∙ a.same_depth;
    same_condition = b.same_condition ∙ a.same_condition;
    grown = Grown-trans a.grown (subst (λ d. Grown d t.locals u.locals) a.same_depth b.grown);
    returns =
        λ h. elim (b.returns h) [ inl r ↦ a.returns r | inr p ↦ inr (omega (arith, a.same_depth)) ];
  }

  pub Kept-IsShell : {s t : Shell W} → Kept s t → IsShell s → IsShell t
  Kept-IsShell {s = s} {t = t} k v =
      subst (λ d. Bounded d t.locals) (sym k.same_depth) (Grown-Bounded k.grown v)

  -- A change of what is outside the dispatcher.
  pub Kept-outer : (s t : Shell W) (o : Outer W) → Kept s t → Kept s (record t { outer = o })
  Kept-outer s t o k = record {
    same_depth = k.same_depth;
    same_condition = k.same_condition;
    grown = k.grown;
    returns = k.returns;
  }

  if-Kept : (b : Bool) (s x y : Shell W) → Kept s x → Kept s y → Kept s (if b then x else y)
  if-Kept true s x y kx ky = kx
  if-Kept false s x y kx ky = ky

  pub maybe_errexit-Kept :
      (s t : Shell W) (rest : Items) (status : ℤ) → Kept s t → Kept s (maybe_errexit rest status t)
  unfolding maybe_errexit
  maybe_errexit-Kept s t rest status k = if-Kept (eq_ℤ status (pos 0)) s t _ k (
      if-Kept (not (shellopt_get b'e' t.outer.opts)) s t _ k (
        if-Kept (ltb 0 t.no_errexit) s t _ k
          (if-Kept (andor_not_last rest) s t _ k (Kept-outer s t (raise_abort t.outer) k))))

  pub leave_condition-Kept :
      {s t : Shell W} → Kept (enter_condition s) t → Kept s (leave_condition t)
  leave_condition-Kept k = record {
    same_depth = k.same_depth;
    same_condition = omega (arith, k.same_condition);
    grown = k.grown;
    returns = k.returns;
  }

  pub leave_fn-Kept :
      (name : Bytes) (args : List Bytes) (s t : Shell W)
      → IsShell s
      → Kept (enter_fn name args s) t
      → Kept s (leave_fn s.outer.positional t) × ((leave_fn s.outer.positional t).locals ≡ s.locals)
  unfolding leave_fn
  leave_fn-Kept name args s t v k =
      let e : (local_restore_frame t.fn_depth t.locals t.outer.env).0 ≡ s.locals =
        subst (λ d. (local_restore_frame d t.locals t.outer.env).0 ≡ s.locals) (sym k.same_depth)
          (restore-Grown s.fn_depth t.outer.env v k.grown) in
      (
        record {
          same_depth = omega (arith, k.same_depth);
          same_condition = k.same_condition;
          grown = subst (Grown s.fn_depth s.locals) (sym e) same;
          returns = λ h. absurd cc;
        },
        e,
      )

-- A list, and the shell behind it.
module _ {W : Type 0} (h : Host W) where
  abbrev pub RunKept : Run h → Type 0
  RunKept run = (s : Shell W) (l : Items) → IsShell s → Ensures (λ r. Kept s r.0) (run s l)

  abbrev pub KeepsShell : (Shell W → Cmd → Shell W × ℤ) → Type 0
  KeepsShell fn = (s : Shell W) (c : Cmd) → Kept s (fn s c).0

  return_with-Kept : (o : Option ℤ) (s : Shell W) → 0 < s.fn_depth → Kept s (return_with o s).0
  return_with-Kept none s p = Kept-refl
  return_with-Kept (some v) s p = record {
    same_depth = refl;
    same_condition = refl;
    grown = same;
    returns = λ h. inr p;
  }

  builtin_return-Kept : (args : List Bytes) (s : Shell W) → Kept s (builtin_return args s).0
  unfolding builtin_return
  builtin_return-Kept args s = elim (Bool-cases (s.fn_depth == 0)) [
    | inl top ↦ rw top Kept-refl
    | inr inside ↦ rw inside (return_with-Kept (return_code args) s (ground arith))
  ]

  builtin_local-Kept : (args : List Bytes) (s : Shell W) → Kept s (builtin_local args s).0
  unfolding builtin_local
  builtin_local-Kept args s = elim (Bool-cases (s.fn_depth == 0 || no_args args)) [
    | inl refused ↦ rw refused Kept-refl
    | inr accepted ↦ rw accepted (record {
      same_depth = refl;
      same_condition = refl;
      grown = local_args-Grown s.fn_depth args (pos 0) s.outer.env s.locals (ground arith);
      returns = λ r. inl r;
    })
  ]

  -- Every builtin, as an option.
  abbrev pub KeepsOption : Option (Shell W → Cmd → Shell W × ℤ) → Type 0
  KeepsOption none = Unit
  KeepsOption (some fn) = KeepsShell fn

  outside-Keeps : (o : Option (Outer W → Cmd → Outer W × ℤ)) → KeepsOption (outside h o)
  outside-Keeps none = tt
  outside-Keeps (some fn) = λ s c. Kept-outer s s (fn s.outer c).0 Kept-refl

  if-Keeps :
      (b : Bool) (x y : Option (Shell W → Cmd → Shell W × ℤ))
      → KeepsOption x
      → KeepsOption y
      → KeepsOption (if b then x else y)
  if-Keeps true x y kx ky = kx
  if-Keeps false x y kx ky = ky

  pub find_builtin-Keeps : (name : Bytes) → KeepsOption (find_builtin h name)
  unfolding find_builtin
  find_builtin-Keeps name =
      if-Keeps (str_eq name (codes "return")) _ _ (λ s c. builtin_return-Kept (arguments c.argv) s)
        (if-Keeps (str_eq name (codes "local")) _ _ (λ s c. builtin_local-Kept (arguments c.argv) s)
          (if-Keeps (str_eq name (codes "true") || str_eq name (codes ":")) _ _ (λ s c. Kept-refl)
            (if-Keeps (str_eq name (codes "false")) _ _ (λ s c. Kept-refl)
              (if-Keeps (str_eq name (codes "test") || str_eq name (codes "[")) _ _
                (λ s c. Kept-refl)
                (if-Keeps (str_eq name (codes "set")) _ _
                  (outside-Keeps (some (λ o c. builtin_set h (arguments c.argv) o)))
                  (outside-Keeps (h.find_builtin name)))))))
