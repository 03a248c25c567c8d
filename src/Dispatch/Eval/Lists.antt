-- ===== src/Dispatch/Eval/Lists.antt =====
-- The induction over the evaluator: what lists and compound commands keep.
use petrush.Base.{
  ℕ, zero, suc, ◌≡◌, refl, Bool, true, false, Option, none, some, List, [], ◌∷◌, inl,
}
use petrush.Base.Int.{ℤ, pos}
use petrush.Text.{Bytes}
use petrush.Parser.Connector.{RunCond}
use petrush.Dispatch.Syntax.{
  Items, nil, cons, Item, pipeline, if_item, while_item, for_item, fn_item, case_item, dbracket,
  Arms, no_arms, if_arm, else_arm, CaseArms, no_cases, case_arm,
}
use petrush.Dispatch.Shell.{Shell, Host, Fn, set_status, enter_condition, leave_condition}
use petrush.Dispatch.Functions.Grown.{same}
use petrush.Dispatch.Command.{with_outer}
use petrush.Dispatch.Eval.{
  dispatch_dbracket, registered, item_done, put_item, run_items, run_item, run_arms, run_while,
  run_for, run_case, dispatch_list,
}
use petrush.Dispatch.Eval.Ensures.{
  Ensures, no_result, result, bind-Ensures, Ensures-some, map-Ensures, choose-Ensures,
  unless_stopped-Ensures,
}
use petrush.Dispatch.Eval.Kept.{
  Kept, IsShell, Kept-refl, Kept-trans, Kept-IsShell, Kept-outer, maybe_errexit-Kept,
  leave_condition-Kept,
}
use petrush.Dispatch.Eval.Restores.{dispatch_pipeline-Kept}

module _ {W : Type 0} (h : Host W) where
  -- The result of a run from a shell that keeps what the start has.
  put_item-Kept :
      (s : Shell W) (cond : RunCond) (bg : Bool) (it : Item) (o : Option (Shell W × Items × ℤ))
      → Ensures (λ r. Kept s r.0) o
      → Ensures (λ r. Kept s r.0) (put_item h cond bg it o)
  put_item-Kept s cond bg it o e = bind-Ensures e (λ r k. result k)

  item_done-Kept :
      (s t : Shell W) (rest : Items) (status : ℤ) (next : Shell W → Option (Shell W × Items × ℤ))
      → Kept s t
      → ((u : Shell W) → Kept s u → Ensures (λ r. Kept s r.0) (next u))
      → Ensures (λ r. Kept s r.0) (item_done h rest t status next)
  item_done-Kept s t rest status next k more =
      let status_set = Kept-outer s t _ k in
      let checked = maybe_errexit-Kept s (set_status status t) rest status status_set in
      choose-Ensures _ _ _ (result status_set)
        (choose-Ensures _ _ _ (result checked) (more _ (Kept-outer s _ _ checked)))

  registered-Kept : (s : Shell W) (o : Option (List (Option Fn))) → Kept s (registered h s o).0
  registered-Kept s none = Kept-refl
  registered-Kept s (some fns) = record {
    same_depth = refl;
    same_condition = refl;
    grown = same;
    returns = λ r. inl r;
  }

  dispatch_dbracket-Kept :
      (s : Shell W) (ws : List (Bytes × ℕ)) → Kept s (dispatch_dbracket h s ws).0
  unfolding dispatch_dbracket
  dispatch_dbracket-Kept s [] = Kept-refl
  dispatch_dbracket-Kept s (w ∷ ws) = Kept-outer s s _ Kept-refl

  mutual
    unfolding run_items

    pub run_items-Kept :
        (f : ℕ) (first : Bool) (status : ℤ) (s : Shell W) (l : Items)
        → IsShell s
        → Ensures (λ r. Kept s r.0) (run_items h f first status s l)
    run_items-Kept zero first status s l v = no_result
    run_items-Kept (suc f) first status s nil v = result Kept-refl
    run_items-Kept (suc f) first status s (cons cond bg it rest) v =
        choose-Ensures _ _ _ (put_item-Kept s cond bg it _ (run_items-Kept f false status s rest v))
          (bind-Ensures (run_item-Kept f s bg it v) (λ r k. put_item-Kept s cond bg r.1 _ (
            item_done-Kept s r.0 rest r.2 _ k (λ u k'.
              map-Ensures (λ r' k''. Kept-trans k' k'')
                (run_items-Kept f false r.2 u rest (Kept-IsShell k' v))))))

    run_item-Kept :
        (f : ℕ) (s : Shell W) (bg : Bool) (it : Item)
        → IsShell s
        → Ensures (λ r. Kept s r.0) (run_item h f s bg it)
    run_item-Kept zero s bg it v = no_result
    run_item-Kept (suc f) s true (pipeline cs) v = result (Kept-outer s s _ Kept-refl)
    run_item-Kept (suc f) s false (pipeline cs) v =
        bind-Ensures
          (dispatch_pipeline-Kept h (run_items h f true (pos 0))
            (λ t l w. run_items-Kept f true (pos 0) t l w) s cs v)
          (λ r k. result k)
    run_item-Kept (suc f) s bg (if_item arms) v =
        bind-Ensures (run_arms-Kept f s arms v) (λ r k. result k)
    run_item-Kept (suc f) s bg (while_item cond body) v = run_while-Kept f (pos 0) s cond body v
    run_item-Kept (suc f) s bg (for_item name words body) v =
        bind-Ensures (run_for-Kept f (pos 0) s name words body v) (λ r k. result k)
    run_item-Kept (suc f) s bg (fn_item name body) v = result (registered-Kept s _)
    run_item-Kept (suc f) s bg (case_item word arms) v =
        bind-Ensures (run_case-Kept f _ s _ _ arms (Kept-outer s s _ Kept-refl) v) (λ r k. result k)
    run_item-Kept (suc f) s bg (dbracket ws) v = result (dispatch_dbracket-Kept s ws)

    run_arms-Kept :
        (f : ℕ) (s : Shell W) (arms : Arms)
        → IsShell s
        → Ensures (λ r. Kept s r.0) (run_arms h f s arms)
    run_arms-Kept zero s arms v = no_result
    run_arms-Kept (suc f) s no_arms v = result Kept-refl
    run_arms-Kept (suc f) s (else_arm body rest) v =
        bind-Ensures (run_items-Kept f true (pos 0) s body v) (λ r k. result k)
    run_arms-Kept (suc f) s (if_arm cond body rest) v =
        bind-Ensures (run_items-Kept f true (pos 0) (enter_condition s) cond v) (λ r k.
          let k' = leave_condition-Kept k in
          let v' = Kept-IsShell k' v in
          unless_stopped-Ensures _ _ _ (λ status. result k')
            (choose-Ensures _ _ _
              (bind-Ensures (run_items-Kept f true (pos 0) (leave_condition r.0) body v')
                (λ r' k''. result (Kept-trans k' k'')))
              (bind-Ensures (run_arms-Kept f (leave_condition r.0) rest v')
                (λ r' k''. result (Kept-trans k' k'')))))

    run_while-Kept :
        (f : ℕ) (last : ℤ) (s : Shell W) (cond body : Items)
        → IsShell s
        → Ensures (λ r. Kept s r.0) (run_while h f last s cond body)
    run_while-Kept zero last s cond body v = no_result
    run_while-Kept (suc f) last s cond body v =
        bind-Ensures (run_items-Kept f true (pos 0) (enter_condition s) cond v) (λ r k.
          let k' = leave_condition-Kept k in
          let v' = Kept-IsShell k' v in
          unless_stopped-Ensures _ _ _ (λ status. result k')
            (choose-Ensures _ _ _
              (bind-Ensures (run_items-Kept f true (pos 0) (leave_condition r.0) body v') (λ r' k''.
                let all = Kept-trans k' k'' in
                unless_stopped-Ensures _ _ _ (λ status. result all)
                  (map-Ensures (λ t k₃. Kept-trans all k₃)
                    (run_while-Kept f r'.2 r'.0 r.1 r'.1 (Kept-IsShell all v)))))
              (result k')))

    run_for-Kept :
        (f : ℕ) (last : ℤ) (s : Shell W) (name : Bytes) (words : List Bytes) (body : Items)
        → IsShell s
        → Ensures (λ r. Kept s r.0) (run_for h f last s name words body)
    run_for-Kept zero last s name words body v = no_result
    run_for-Kept (suc f) last s name [] body v = result Kept-refl
    run_for-Kept (suc f) last s name (w ∷ ws) body v =
        choose-Ensures _ _ _
          (bind-Ensures (run_items-Kept f true (pos 0) (with_outer h s _) body v) (λ r k.
            let k' = Kept-trans (Kept-outer s s _ Kept-refl) k in
            unless_stopped-Ensures _ _ _ (λ status. result k')
              (map-Ensures (λ t k''. Kept-trans k' k'')
                (run_for-Kept f r.2 r.0 name ws body (Kept-IsShell k' v)))))
          (result Kept-refl)

    run_case-Kept :
        (f : ℕ) (bad : Bool) (s t : Shell W) (word : Bytes) (arms : CaseArms)
        → Kept s t
        → IsShell s
        → Ensures (λ r. Kept s r.0) (run_case h f bad t word arms)
    run_case-Kept zero bad s t word arms k v = no_result
    run_case-Kept (suc f) true s t word arms k v = result k
    run_case-Kept (suc f) false s t word no_cases k v = result k
    run_case-Kept (suc f) false s t word (case_arm patterns body rest) k v =
        choose-Ensures _ _ _
          (bind-Ensures (run_items-Kept f true (pos 0) t body (Kept-IsShell k v))
            (λ r k'. result (Kept-trans k k')))
          (run_case-Kept f false s t word rest k v)

  -- A list that ends leaves the depth of calls and the counter of conditions as they were. It takes
  -- no value off the stack of `local`, and puts on it only values of the call that it runs in; a
  -- `return` is underway behind it only where it was before, or within a function.
  pub dispatch_list-Kept :
      (f : ℕ) (s s' : Shell W) (l l' : Items) (status : ℤ)
      → IsShell s
      → dispatch_list h f s l ≡ some (s', l', status)
      → Kept s s'
  unfolding dispatch_list
  dispatch_list-Kept f s s' l l' status v e = Ensures-some (run_items-Kept f true (pos 0) s l v) e
