-- ===== src/Dispatch/Eval/Finish.antt =====
-- A list without `while` ends in a shell without functions.
use petrush.Base.{
  ℕ, zero, suc, ◌+◌, ◌≤◌, ◌≡◌, refl, sym, ◌∙◌, subst, Bool, true, false, not, ◌&&◌, Option, none,
  some, List, [], ◌∷◌, arith, length,
}
use petrush.Base.Int.{ℤ, pos}
use petrush.Text.{Bytes}
use petrush.Parser.Connector.{RunCond}
use petrush.Dispatch.Syntax.{
  Items, nil, cons, Item, pipeline, if_item, while_item, for_item, fn_item, case_item, dbracket,
  Arms, no_arms, if_arm, else_arm, CaseArms, no_cases, case_arm,
}
use petrush.Dispatch.Shell.{
  Shell, Host, set_status, take_expand_errors, enter_condition, leave_condition, passed_over,
}
use petrush.Dispatch.Functions.{fn_get}
use petrush.Dispatch.Command.{with_outer}
use petrush.Dispatch.Eval.{
  matches_any, dispatch_dbracket, item_done, put_item, run_items, run_item, run_arms, run_for,
  run_case, dispatch_list,
}
use petrush.Dispatch.Eval.Plain.{
  IsPlain, PlainItem, PlainArms, PlainCases, items_fuel, item_fuel, arms_fuel, cases_fuel,
}
use petrush.Dispatch.Eval.Ends.{
  Ends, ended, bind-Ends, map-Ends, choose-Ends, unless_stopped-Ends, SameFns, maybe_errexit-fns,
  NoFns, dispatch_pipeline-Ends,
}

module _ {W : Type 0} (h : Host W) where
  -- With the table of the start, which has no function.
  NoFns-same : (s t : Shell W) → SameFns s t → NoFns s → NoFns t
  NoFns-same s t e nf name = subst (λ fns. fn_get name fns ≡ none) (sym e) (nf name)

  put_item-Ends :
      (s : Shell W) (cond : RunCond) (bg : Bool) (it : Item) (o : Option (Shell W × Items × ℤ))
      → Ends (λ r. SameFns s r.0) o
      → Ends (λ r. SameFns s r.0) (put_item h cond bg it o)
  put_item-Ends s cond bg it o e = bind-Ends e (λ r k. ended k)

  item_done-Ends :
      (s t : Shell W) (rest : Items) (status : ℤ) (next : Shell W → Option (Shell W × Items × ℤ))
      → SameFns s t
      → ((u : Shell W) → SameFns s u → Ends (λ r. SameFns s r.0) (next u))
      → Ends (λ r. SameFns s r.0) (item_done h rest t status next)
  item_done-Ends s t rest status next k more =
      let checked = maybe_errexit-fns rest status (set_status status t) ∙ k in
      choose-Ends _ _ _ (ended k) (choose-Ends _ _ _ (ended checked) (more _ checked))

  dispatch_dbracket-fns :
      (s : Shell W) (ws : List (Bytes × ℕ)) → SameFns s (dispatch_dbracket h s ws).0
  unfolding dispatch_dbracket
  dispatch_dbracket-fns s [] = refl
  dispatch_dbracket-fns s (w ∷ ws) = refl

  mutual
    unfolding run_items IsPlain items_fuel

    run_items-Ends :
        (f : ℕ) (first : Bool) (status : ℤ) (s : Shell W) (l : Items)
        → IsPlain l
        → NoFns s
        → items_fuel l ≤ f
        → Ends (λ r. SameFns s r.0) (run_items h f first status s l)
    run_items-Ends zero first status s nil p nf room = absurd (omega arith)
    run_items-Ends zero first status s (cons cond bg it rest) p nf room = absurd (omega arith)
    run_items-Ends (suc f) first status s nil p nf room = ended refl
    run_items-Ends (suc f) first status s (cons cond bg it rest) (pit, prest) nf room =
        choose-Ends (not first && passed_over cond status) _ _
          (put_item-Ends s cond bg it _
            (run_items-Ends f false status s rest prest nf (omega arith)))
          (bind-Ends (run_item-Ends f s bg it pit nf (omega arith)) (λ r k.
            put_item-Ends s cond bg r.1 _ (
              item_done-Ends s r.0 rest r.2 _ k (λ u k'.
                map-Ends (λ r' k''. k'' ∙ k')
                  (run_items-Ends f false r.2 u rest prest (NoFns-same s u k' nf) (omega arith))))))

    run_item-Ends :
        (f : ℕ) (s : Shell W) (bg : Bool) (it : Item)
        → PlainItem it
        → NoFns s
        → item_fuel it ≤ f
        → Ends (λ r. SameFns s r.0) (run_item h f s bg it)
    run_item-Ends zero s bg (pipeline cs) p nf room = absurd (omega arith)
    run_item-Ends zero s bg (if_item arms) p nf room = absurd (omega arith)
    run_item-Ends zero s bg (while_item cond body) p nf room = absurd p
    run_item-Ends zero s bg (for_item name words body) p nf room = absurd (omega arith)
    run_item-Ends zero s bg (fn_item name body) p nf room = absurd p
    run_item-Ends zero s bg (case_item word arms) p nf room = absurd (omega arith)
    run_item-Ends zero s bg (dbracket ws) p nf room = absurd (omega arith)
    run_item-Ends (suc f) s true (pipeline cs) p nf room = ended refl
    run_item-Ends (suc f) s false (pipeline cs) p nf room =
        bind-Ends (dispatch_pipeline-Ends h (run_items h f true (pos 0)) s cs nf) (λ r k. ended k)
    run_item-Ends (suc f) s bg (if_item arms) p nf room =
        bind-Ends (run_arms-Ends f s arms p nf (omega arith)) (λ r k. ended k)
    run_item-Ends (suc f) s bg (while_item cond body) p nf room = absurd p
    run_item-Ends (suc f) s bg (for_item name words body) p nf room =
        bind-Ends (run_for-Ends f (pos 0) s name words body p nf (omega arith)) (λ r k. ended k)
    run_item-Ends (suc f) s bg (fn_item name body) p nf room = absurd p
    run_item-Ends (suc f) s bg (case_item word arms) p nf room =
        let (o, word') = h.expand_word s.outer word in
        bind-Ends
          (run_case-Ends f (take_expand_errors o).0 (with_outer h s (take_expand_errors o).1) word'
            arms p nf (omega arith))
          (λ r k. ended k)
    run_item-Ends (suc f) s bg (dbracket ws) p nf room = ended (dispatch_dbracket-fns s ws)

    run_arms-Ends :
        (f : ℕ) (s : Shell W) (arms : Arms)
        → PlainArms arms
        → NoFns s
        → arms_fuel arms ≤ f
        → Ends (λ r. SameFns s r.0) (run_arms h f s arms)
    run_arms-Ends zero s no_arms p nf room = absurd (omega arith)
    run_arms-Ends zero s (else_arm body rest) p nf room = absurd (omega arith)
    run_arms-Ends zero s (if_arm cond body rest) p nf room = absurd (omega arith)
    run_arms-Ends (suc f) s no_arms p nf room = ended refl
    run_arms-Ends (suc f) s (else_arm body rest) p nf room =
        bind-Ends (run_items-Ends f true (pos 0) s body p nf (omega arith)) (λ r k. ended k)
    run_arms-Ends (suc f) s (if_arm cond body rest) (pc, pb, pr) nf room =
        bind-Ends (run_items-Ends f true (pos 0) (enter_condition s) cond pc nf (omega arith))
          (λ r k.
            let left = leave_condition r.0 in
            let nf' = NoFns-same s left k nf in
            unless_stopped-Ends _ _ _ (λ status. ended k)
              (choose-Ends _ _ _
                (bind-Ends (run_items-Ends f true (pos 0) left body pb nf' (omega arith))
                  (λ r' k'. ended (k' ∙ k)))
                (bind-Ends (run_arms-Ends f left rest pr nf' (omega arith))
                  (λ r' k'. ended (k' ∙ k)))))

    run_for-Ends :
        (f : ℕ) (last : ℤ) (s : Shell W) (name : Bytes) (words : List Bytes) (body : Items)
        → IsPlain body
        → NoFns s
        → suc (length words + items_fuel body) ≤ f
        → Ends (λ r. SameFns s r.0) (run_for h f last s name words body)
    run_for-Ends zero last s name words body p nf room = absurd (omega arith)
    run_for-Ends (suc f) last s name [] body p nf room = ended refl
    run_for-Ends (suc f) last s name (w ∷ ws) body p nf room =
        choose-Ends _ _ _
          (bind-Ends (run_items-Ends f true (pos 0) (with_outer h s _) body p nf (omega arith))
            (λ r k.
              unless_stopped-Ends _ _ _ (λ status. ended k)
                (map-Ends (λ t k'. k' ∙ k)
                  (run_for-Ends f r.2 r.0 name ws body p (NoFns-same s r.0 k nf) (omega arith)))))
          (ended refl)

    run_case-Ends :
        (f : ℕ) (bad : Bool) (s : Shell W) (word : Bytes) (arms : CaseArms)
        → PlainCases arms
        → NoFns s
        → cases_fuel arms ≤ f
        → Ends (λ r. SameFns s r.0) (run_case h f bad s word arms)
    run_case-Ends zero bad s word no_cases p nf room = absurd (omega arith)
    run_case-Ends zero bad s word (case_arm patterns body rest) p nf room = absurd (omega arith)
    run_case-Ends (suc f) true s word arms p nf room = ended refl
    run_case-Ends (suc f) false s word no_cases p nf room = ended refl
    run_case-Ends (suc f) false s word (case_arm patterns body rest) (pb, pr) nf room =
        choose-Ends (matches_any patterns word) _ _
          (bind-Ends (run_items-Ends f true (pos 0) s body pb nf (omega arith)) (λ r k. ended k))
          (run_case-Ends f false s word rest pr nf (omega arith))

  -- A list without `while` and without definitions of functions, however nested its `if`, `for` and
  -- `case` are, ends in a shell without functions, on any fuel from `items_fuel` on, and the shell
  -- still has none.
  pub dispatch_list-ends :
      (f : ℕ) (s : Shell W) (l : Items)
      → IsPlain l
      → NoFns s
      → items_fuel l ≤ f
      → (s' : Shell W) × (l' : Items) × (status : ℤ) × (dispatch_list h f s l
          ≡ some (s', l', status))
        × NoFns s'
  unfolding dispatch_list
  dispatch_list-ends f s l p nf room = out _ (run_items-Ends f true (pos 0) s l p nf room)
    where
      out :
          (o : Option (Shell W × Items × ℤ))
          → Ends (λ r. SameFns s r.0) o
          → (s' : Shell W) × (l' : Items) × (status : ℤ) × (o ≡ some (s', l', status)) × NoFns s'
      out _ (ended {a = (s', l', status)} k) = (s', l', status, refl, NoFns-same s s' k nf)
