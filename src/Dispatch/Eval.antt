-- ===== src/Dispatch/Eval.antt =====
-- `dispatch_list` and what it calls (src/mid/dispatcher.c). Word expansion writes into the tree, so
-- each function returns the tree as well; the bodies of functions, `for` and `case` are copies, and
-- what becomes of a copy is dropped. `none` means that the fuel ran out.
pub mod Ensures
pub mod Kept
pub mod Restores
pub mod Lists
pub mod Calls
pub mod Ends
pub mod Plain
pub mod Finish
use petrush.Base.{
  ℕ, zero, suc, Bool, true, false, not, ◌&&◌, ◌||◌, Option, none, some, List, [], ◌∷◌, ◌==◌,
  if◌then◌else◌,
}
use petrush.Base.Int.{ℤ, pos, eq_ℤ}
use petrush.Text.{Bytes, codes, str_eq}
use petrush.Parser.Connector.{RunCond}
use petrush.Parser.Stage.{Cmd}
use petrush.Dispatch.Syntax.{
  Items, nil, cons, Item, pipeline, if_item, while_item, for_item, fn_item, case_item, dbracket,
  Arms, no_arms, if_arm, else_arm, CaseArms, no_cases, case_arm,
}
use petrush.Dispatch.Env.{setenv}
use petrush.Dispatch.Glob.{case_pat_match}
use petrush.Dispatch.Test.{Word, builtin_test, dbr_eval_expr}
use petrush.Dispatch.Shell.{
  Outer, Shell, Host, Fn, take_expand_errors, maybe_errexit, passed_over, set_status,
  enter_condition, leave_condition,
}
use petrush.Dispatch.Functions.{
  fn_get, fn_set, enter_fn, leave_fn, status_of_call, builtin_return, builtin_local,
}
use petrush.Dispatch.Command.{
  ◌>>=◌, choose, unless_stopped, is_some, cmd_needs_redir, arguments, with_outer, outside,
  find_builtin, with_world, restored, run_builtin, or_127, external, builtin_or_external, Run,
  call_fn, fn_or_builtin, run_argv, run_expanded, command_of, dispatch_command, expand_all,
  run_stages, run_clean, dispatch_pipeline,
}

abbrev pub matches_any : List Bytes → Bytes → Bool
matches_any [] word = false
matches_any (p ∷ ps) word = case_pat_match p word || matches_any ps word

module _ {W : Type 0} (h : Host W) where
  -- The tokens of `[[`, expanded; a quote on one is kept as a flag.
  unfoldable pub expand_words : Outer W → List (Bytes × ℕ) → Outer W × List Word
  expand_words o [] = (o, [])
  expand_words o ((w, quoted) ∷ ws) =
      let (o', w') = h.expand_word o w in
      let (o'', ws') = expand_words o' ws in (o'', (w', not (quoted == 0)) ∷ ws')

  abbrev pub status_or_error : Option ℕ → ℤ
  status_or_error none = pos 2
  status_or_error (some n) = pos n

  unfoldable pub dispatch_dbracket : Shell W → List (Bytes × ℕ) → Shell W × ℤ
  unfolding expand_words take_expand_errors dbr_eval_expr
  dispatch_dbracket s [] = (s, pos 1)
  dispatch_dbracket s (w ∷ ws) =
      let (o, words) = expand_words s.outer (w ∷ ws) in
      let (bad, o') = take_expand_errors o in
      (
        with_outer h s o',
        if bad then pos 1 else status_or_error (dbr_eval_expr (h.file_is o'.world) words),
      )

  abbrev pub registered : Shell W → Option (List (Option (Fn))) → Shell W × ℤ
  registered s none = (s, pos 1)
  registered s (some fns) = (record s { fns = fns }, pos 0)

  abbrev pub dispatch_fn_def : Bytes → Items → Shell W → Shell W × ℤ
  dispatch_fn_def name body s = registered s (fn_set name body s.fns)

  -- After a list: `return` unwinds with its status, and an abort with the list's.
  abbrev pub interrupted : Shell W → ℤ → Option ℤ
  interrupted s status =
      if s.returning
      then some s.return_status
      else if s.outer.shell_abort
      then some status
      else none

  -- Behind an item with the given status: unwinding, `set -e`, and the traps that wait.
  abbrev pub item_done :
      Items → Shell W → ℤ → (Shell W → Option (Shell W × Items × ℤ)) → Option (Shell W × Items × ℤ)
  item_done rest s status next =
      let s' = maybe_errexit rest status (set_status status s) in
      choose s.returning (λ _. some (set_status status s, rest, s.return_status))
        (λ _.
          choose s'.outer.shell_abort (λ _. some (s', rest, status))
            (λ _. next (with_outer h s' (h.traps_poll s'.outer))))

  abbrev pub put_item :
      RunCond → Bool → Item → Option (Shell W × Items × ℤ) → Option (Shell W × Items × ℤ)
  put_item cond bg it r = r >>= λ (s, rest, status). some (s, cons cond bg it rest, status)

  unfoldable mutual
    unfolding dispatch_pipeline dispatch_dbracket setenv case_pat_match fn_set maybe_errexit

    -- The loop of `dispatch_list`: whether this is the first item, and the status so far.
    pub run_items : ℕ → Bool → ℤ → Shell W → Items → Option (Shell W × Items × ℤ)
    run_items zero first status s l = none
    run_items (suc f) first status s nil = some (s, nil, status)
    run_items (suc f) first status s (cons cond bg it rest) =
        choose (not first && passed_over cond status)
          (λ _. put_item cond bg it (run_items f false status s rest))
          (λ _. run_item f s bg it >>= λ (s', it', status').
            put_item cond bg it'
              (item_done rest s' status' (λ s''. run_items f false status' s'' rest)))

    pub run_item : ℕ → Shell W → Bool → Item → Option (Shell W × Item × ℤ)
    run_item zero s bg it = none
    run_item (suc f) s true (pipeline cs) =
        let (o, status) = h.background s.outer cs in some (with_outer h s o, pipeline cs, status)
    run_item (suc f) s false (pipeline cs) =
        dispatch_pipeline h (run_items f true (pos 0)) s cs >>= λ (s', cs', status).
        some (s', pipeline cs', status)
    run_item (suc f) s bg (if_item arms) =
        run_arms f s arms >>= λ (s', arms', status). some (s', if_item arms', status)
    run_item (suc f) s bg (while_item cond body) = run_while f (pos 0) s cond body
    run_item (suc f) s bg (for_item name words body) =
        run_for f (pos 0) s name words body >>= λ (s', status).
        some (s', for_item name words body, status)
    run_item (suc f) s bg (fn_item name body) =
        let (s', status) = dispatch_fn_def name body s in some (s', fn_item name body, status)
    run_item (suc f) s bg (case_item word arms) =
        let (o, word') = h.expand_word s.outer word in
        let (bad, o') = take_expand_errors o in
        run_case f bad (with_outer h s o') word' arms >>= λ (s', status).
        some (s', case_item word arms, status)
    run_item (suc f) s bg (dbracket ws) =
        let (s', status) = dispatch_dbracket s ws in some (s', dbracket ws, status)

    -- `dispatch_if`.
    pub run_arms : ℕ → Shell W → Arms → Option (Shell W × Arms × ℤ)
    run_arms zero s arms = none
    run_arms (suc f) s no_arms = some (s, no_arms, pos 0)
    run_arms (suc f) s (else_arm body rest) =
        run_items f true (pos 0) s body >>= λ (s', body', status).
        some (s', else_arm body' rest, status)
    run_arms (suc f) s (if_arm cond body rest) =
        run_items f true (pos 0) (enter_condition s) cond >>= λ (s', cond', status).
        unless_stopped (interrupted (leave_condition s') status)
          (λ r. some (leave_condition s', if_arm cond' body rest, r))
          (λ _.
            choose (eq_ℤ status (pos 0))
              (λ _. run_items f true (pos 0) (leave_condition s') body >>= λ (t, body', status').
                some (t, if_arm cond' body' rest, status_of_call t status'))
              (λ _. run_arms f (leave_condition s') rest >>= λ (t, rest', status').
                some (t, if_arm cond' body rest', status')))

    -- The loop of `dispatch_while`, with the status of the last body.
    pub run_while : ℕ → ℤ → Shell W → Items → Items → Option (Shell W × Item × ℤ)
    run_while zero last s cond body = none
    run_while (suc f) last s cond body =
        run_items f true (pos 0) (enter_condition s) cond >>= λ (s', cond', status).
        unless_stopped (interrupted (leave_condition s') status)
          (λ r. some (leave_condition s', while_item cond' body, r))
          (λ _.
            choose (eq_ℤ status (pos 0))
              (λ _. run_items f true (pos 0) (leave_condition s') body >>= λ (t, body', status').
                unless_stopped (interrupted t status') (λ r. some (t, while_item cond' body', r))
                  (λ _. run_while f status' t cond' body'))
              (λ _. some (leave_condition s', while_item cond' body, last)))

    -- The loop of `dispatch_for`.
    pub run_for : ℕ → ℤ → Shell W → Bytes → List Bytes → Items → Option (Shell W × ℤ)
    run_for zero last s name words body = none
    run_for (suc f) last s name [] body = some (s, last)
    run_for (suc f) last s name (w ∷ ws) body =
        let (fine, env) = setenv name w s.outer.env in
        choose fine
          (λ _.
            run_items f true (pos 0) (with_outer h s (record s.outer { env = env })) body
            >>= λ (s', copy, status).
                unless_stopped (interrupted s' status) (λ r. some (s', r))
                  (λ _. run_for f status s' name ws body))
          (λ _. some (s, pos 1))

    -- The loop of `dispatch_case`; the flag tells that the expansion of the word failed.
    pub run_case : ℕ → Bool → Shell W → Bytes → CaseArms → Option (Shell W × ℤ)
    run_case zero bad s word arms = none
    run_case (suc f) true s word arms = some (s, pos 1)
    run_case (suc f) false s word no_cases = some (s, pos 0)
    run_case (suc f) false s word (case_arm patterns body rest) =
        choose (matches_any patterns word)
          (λ _. run_items f true (pos 0) s body >>= λ (s', copy, status).
            some (s', status_of_call s' status))
          (λ _. run_case f false s word rest)

  unfoldable pub dispatch_list : ℕ → Shell W → Items → Option (Shell W × Items × ℤ)
  unfolding run_items
  dispatch_list f s l = run_items f true (pos 0) s l
