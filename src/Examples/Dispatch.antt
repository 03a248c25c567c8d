-- ===== src/Examples/Dispatch.antt =====
-- The dispatcher (src/mid/dispatcher.c, tests/test_dispatcher.c): programs outside leave a record of
-- their words, and words expand to themselves.
use petrush.Base.{
  ◌≡◌, ◌↔◌, ◌≤◌, refl, arith, ltb, length, ◌+◌, true, false, none, some, Option, List, [], ◌∷◌,
  ◌++◌, ◌||◌, if◌then◌else◌,
}
use petrush.Base.Int.{ℤ, pos}
use petrush.Text.{Bytes, codes, str_eq}
use petrush.Parser.Connector.{cond_always, cond_or}
use petrush.Parser.Stage.{Cmd, cmd_zero}
use petrush.Expand.Arith.Int64.{parse_digits}
use petrush.Dispatch.Syntax.{Items, nil, cons, Item, pipeline, if_item, while_item, if_arm, no_arms}
use petrush.Dispatch.Glob.{case_pat_match}
use petrush.Dispatch.Glob.Matches.{Matches}
use petrush.Dispatch.Glob.Decides.{case_pat_match-Matches}
use petrush.Dispatch.Test.{Word, dbr_eval_expr, dbr_eval_term}
use petrush.Dispatch.Test.Chain.{Chain, words, meaning, IsTerm, dbr_eval_expr-meaning}
use petrush.Dispatch.Shell.{Outer, Shell, Host}
use petrush.Dispatch.Functions.{no_fns, fn_set, fn_get, enter_fn, leave_fn, builtin_local}
use petrush.Dispatch.Functions.Table.{get-fn_set}
use petrush.Dispatch.Functions.Locals.{SameEnv, leave_fn-local}
use petrush.Dispatch.Command.{call_fn, choose, unless_stopped, ◌>>=◌}
use petrush.Dispatch.Eval.{run_items, dispatch_list}
use petrush.Dispatch.Set.{builtin_set}
use petrush.Dispatch.Set.Answer.{contains, builtin_set-letters}
use petrush.Dispatch.Set.Lines.{
  Setting, by_letters, by_name, errexit, nounset, xtrace, written, settled, operands, behind_marker,
  builtin_set_lem,
}
use petrush.Expand.Options.{shellopt_get}
use petrush.Dispatch.Eval.Kept.{Kept}
use petrush.Dispatch.Eval.Lists.{dispatch_list-Kept}
use petrush.Dispatch.Eval.Calls.{BackIn, call_fn-BackIn}
use petrush.Dispatch.Eval.Plain.{IsPlain, items_fuel}
use petrush.Dispatch.Eval.Ends.{NoFns}
use petrush.Dispatch.Eval.Finish.{dispatch_list-ends}

abbrev World : Type 0
World = List (List Bytes)

abbrev start : Outer World
start = record {
  world = [];
  env = λ x. if str_eq x (codes "HOME") then some (codes "/root") else none;
  opts = record {
    opt_e = false;
    opt_u = false;
    opt_x = false;
    last_status = pos 0;
    arith_error = false;
    nounset_error = false;
  };
  positional = record { arg0 = some (codes "petrush"); args = codes "one" ∷ [] };
  shell_abort = false;
}

abbrev ran : Outer World → Cmd → Outer World
ran o c = record o { world = c.argv ∷ o.world }

abbrev host : Host World
host = record {
  expand_cmd_argv = λ o c. (o, c);
  expand_word = λ o w. (o, w);
  find_builtin = λ name. none;
  apply_redirs = λ w c. (true, w);
  restore_fds = λ w. w;
  execute_external = λ o c. (ran o c, true, pos 0);
  execute_pipeline = λ o cs. (o, true, pos 0);
  background = λ o cs. (o, pos 0);
  file_is = λ w test path. false;
  traps_poll = λ o. o;
  environ = λ o. codes "A=b" ∷ codes "C" ∷ [];
  print = λ text w. (text ∷ []) ∷ w;
}

abbrev shell : Shell World
shell = record {
  outer = start;
  fns = no_fns;
  fn_depth = 0;
  returning = false;
  return_status = pos 0;
  no_errexit = 0;
  locals = [];
}

abbrev run_cmd : List Bytes → Item
run_cmd argv = pipeline (record cmd_zero { argv = argv } ∷ [])

abbrev one : Item → Items
one it = cons cond_always false it nil

-- false || date; if true; then date; fi
abbrev two_dates : Items
two_dates = cons cond_always false (run_cmd (codes "false" ∷ [])) (
    cons cond_or false (run_cmd (codes "date" ∷ [])) (
      one (
        if_item (
          if_arm (one (run_cmd (codes "true" ∷ []))) (one (run_cmd (codes "date" ∷ []))) no_arms))))

abbrev shell_after : Option (Shell World × Items × ℤ) → Shell World
shell_after none = shell
shell_after (some (s, l, status)) = s

twice :
    (shell_after (dispatch_list host 40 shell two_dates)).outer.world
    ≡ (codes "date" ∷ []) ∷ (codes "date" ∷ []) ∷ []
unfolding dispatch_list choose unless_stopped ◌>>=◌
twice = refl

-- `$N` expands to the number of programs that ran, and the first of them alone are successful.
abbrev number : List Bytes → World → List Bytes
number [] w = []
number (a ∷ as') w = (if str_eq a (codes "$N") then (48 + length w) ∷ [] else a) ∷ number as' w

abbrev counting : Host World
counting = record host {
  expand_cmd_argv = λ o c. (o, record c { argv = number c.argv o.world });
  execute_external = λ o c. (ran o c, true, if ltb (length o.world) 4 then pos 0 else pos 1);
}

-- while next; do echo $N; done
abbrev counts_up : Items
counts_up = one (
    while_item (one (run_cmd (codes "next" ∷ []))) (one (run_cmd (codes "echo" ∷ codes "$N" ∷ []))))

-- The second round shows the number of the first one.
body_expanded_once :
    (shell_after (dispatch_list counting 40 shell counts_up)).outer.world
    ≡ (codes "next" ∷ [])
      ∷ (codes "echo" ∷ codes "1" ∷ [])
      ∷ (codes "next" ∷ [])
      ∷ (codes "echo" ∷ codes "1" ∷ [])
      ∷ (codes "next" ∷ [])
      ∷ []
unfolding dispatch_list choose unless_stopped ◌>>=◌
body_expanded_once = refl

abbrev end_of : Items → Shell World × Items × ℤ
end_of l = elim (dispatch_list host 40 shell l) [ none ↦ (shell, nil, pos 9) | some r ↦ r ]

two_dates-ends :
    dispatch_list host 40 shell two_dates
    ≡ some ((end_of two_dates).0, (end_of two_dates).1, (end_of two_dates).2)
unfolding dispatch_list choose unless_stopped ◌>>=◌
two_dates-ends = refl

dispatch_list-Kept_example : Kept shell (end_of two_dates).0
dispatch_list-Kept_example =
    dispatch_list-Kept host 40 shell (end_of two_dates).0 two_dates (end_of two_dates).1
      (end_of two_dates).2 tt two_dates-ends

-- date; return 3
abbrev body : Items
body =
    cons cond_always false (run_cmd (codes "date" ∷ []))
      (one (run_cmd (codes "return" ∷ codes "3" ∷ [])))

abbrev called : Option (Shell World × ℤ)
called = call_fn host (run_items host 20 true (pos 0)) (codes "f") (codes "x" ∷ []) body shell

abbrev caller : Shell World
caller = elim called [ none ↦ shell | some (s, status) ↦ s ]

called-returns : called ≡ some (caller, pos 3)
unfolding call_fn run_items choose unless_stopped ◌>>=◌ parse_digits
called-returns = refl

call_fn-BackIn_example : BackIn shell caller
call_fn-BackIn_example =
    call_fn-BackIn host 20 (codes "f") (codes "x" ∷ []) body shell caller (pos 3) tt called-returns

two_dates-IsPlain : IsPlain two_dates
unfolding IsPlain
two_dates-IsPlain = (tt, (tt, (((tt, tt), (tt, tt), tt), tt)))

shell-NoFns : NoFns shell
unfolding fn_get
shell-NoFns name = refl

enough : items_fuel two_dates ≤ 40
unfolding items_fuel
enough = omega arith

dispatch_list-ends_example :
    (s' : Shell World) × (l' : Items) × (status : ℤ) × (dispatch_list host 40 shell two_dates
      ≡ some (s', l', status))
    × NoFns s'
dispatch_list-ends_example =
    dispatch_list-ends host 40 shell two_dates two_dates-IsPlain shell-NoFns enough

case_pat_match-Matches_example :
    (case_pat_match (codes "*a?b") (codes "xaayb") ≡ true) ↔ Matches (codes "*a?b") (codes "xaayb")
case_pat_match-Matches_example = case_pat_match-Matches (codes "*a?b") (codes "xaayb")

abbrev nonempty : List Word
nonempty = (codes "-n", false) ∷ (codes "x", false) ∷ []

abbrev empty : List Word
empty = (codes "-z", false) ∷ (codes "x", false) ∷ []

nonempty-IsTerm : IsTerm (host.file_is []) nonempty 0
unfolding dbr_eval_term
nonempty-IsTerm = (omega arith, λ rest e. refl)

empty-IsTerm : IsTerm (host.file_is []) empty 1
unfolding dbr_eval_term
empty-IsTerm = (omega arith, λ rest e. refl)

-- [[ -n x && -z x || -n x ]]
abbrev tests : Chain
tests = (true, empty, 1) ∷ (false, nonempty, 0) ∷ []

dbr_eval_expr-meaning_example :
    dbr_eval_expr (host.file_is []) (nonempty ++ words tests) ≡ some (meaning 0 tests)
dbr_eval_expr-meaning_example =
    dbr_eval_expr-meaning (host.file_is []) nonempty 0 tests nonempty-IsTerm
      (empty-IsTerm, (nonempty-IsTerm, tt))

-- local HOME=/tmp HOME PATH=/bin
abbrev home_twice : List Bytes
home_twice = codes "HOME=/tmp" ∷ codes "HOME" ∷ codes "PATH=/bin" ∷ []

leave_fn-local_example :
    let s' =
      leave_fn start.positional (builtin_local home_twice (enter_fn (codes "f") [] shell)).0 in
    SameEnv s'.outer.env start.env × (s'.locals ≡ [])
leave_fn-local_example = leave_fn-local (codes "f") [] home_twice shell tt

abbrev with_f : List (Option petrush.Dispatch.Shell.Fn)
with_f = elim (fn_set (codes "f") body no_fns) [ none ↦ no_fns | some t ↦ t ]

f-accepted : fn_set (codes "f") body no_fns ≡ some with_f
unfolding fn_set
f-accepted = refl

get-fn_set_example :
    fn_get (codes "f") with_f
    ≡ (if str_eq (codes "f") (codes "f") then some body else fn_get (codes "f") no_fns)
get-fn_set_example = get-fn_set (codes "f") body no_fns with_f (codes "f") f-accepted

-- set -e; date; false; date
abbrev strict : Items
strict = cons cond_always false (run_cmd (codes "set" ∷ codes "-e" ∷ [])) (
    cons cond_always false (run_cmd (codes "date" ∷ []))
      (cons cond_always false (run_cmd (codes "false" ∷ [])) (one (run_cmd (codes "date" ∷ [])))))

stops_at_false :
    (shell_after (dispatch_list host 40 shell strict)).outer.world ≡ (codes "date" ∷ []) ∷ []
unfolding dispatch_list choose unless_stopped ◌>>=◌
stops_at_false = refl

abbrev after_eu : Outer World
after_eu = (builtin_set host (codes "-eu" ∷ []) start).0

eu-accepted : builtin_set host (codes "-eu" ∷ []) start ≡ (after_eu, pos 0)
unfolding builtin_set
eu-accepted = refl

builtin_set-letters_example :
    shellopt_get b'u' after_eu.opts ≡ (contains b'u' (codes "eu") || shellopt_get b'u' start.opts)
builtin_set-letters_example =
    builtin_set-letters host b'u' (codes "eu") start after_eu refl eu-accepted

-- -eu +o xtrace
abbrev eu_no_trace : List Setting
eu_no_trace = by_letters true errexit (nounset ∷ []) ∷ by_name false xtrace ∷ []

builtin_set_example :
    builtin_set host (written eu_no_trace (codes "--" ∷ codes "a" ∷ codes "-b" ∷ [])) start
    ≡ operands start (settled eu_no_trace start.opts) (codes "a" ∷ codes "-b" ∷ [])
builtin_set_example =
    builtin_set_lem host eu_no_trace (codes "--" ∷ codes "a" ∷ codes "-b" ∷ []) start
      (operands start (settled eu_no_trace start.opts) (codes "a" ∷ codes "-b" ∷ []))
      ((tt, (tt, tt)), (tt, tt)) (behind_marker (codes "a" ∷ codes "-b" ∷ [])) (λ e. cc)

lists_environment :
    (builtin_set host [] start).0.world ≡ (codes "C=\n" ∷ []) ∷ (codes "A=b\n" ∷ []) ∷ []
unfolding builtin_set
lists_environment = refl
