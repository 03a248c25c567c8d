-- ===== src/Parser/List.antt =====
-- `petrush_parse_list` and its descent (src/mid/parser.c): lists and the compound commands in them.
-- The text stays whole and each function takes a position in it; each call costs a unit of fuel.
-- An error drops what was parsed before it, so an item is put in front of the rest that follows it.
pub mod Shape
pub mod Ends
pub mod Advance
pub mod Total
pub mod Place
pub mod Written
pub mod Steps
pub mod Stops
pub mod Reads
use petrush.Base.{
  ℕ, zero, suc, ◌+◌, ◌*◌, Bool, true, false, not, ◌&&◌, Option, none, some, List, [], ◌∷◌, ◌==◌,
  if◌then◌else◌, length,
}
use petrush.Text.{Bytes, codes, at}
use petrush.Parser.Result.{Result, ok, error, out_of_fuel, ◌>>=◌, branch, answer}
use petrush.Parser.Stage.{Cmd}
use petrush.Parser.Connector.{RunCond, cond_always, cond_and, cond_or}
use petrush.Parser.Keyword.{
  kw_then, kw_else, kw_elif, kw_fi, kw_do, kw_done, kw_rbrace, kw_esac, kw_dsemi, skip_ws_pos,
  match_kw_at, match_lbrace_at, match_rbrace_at, match_dsemi_at, peek_kw_mask,
}
use petrush.Parser.Scan.{
  answered_by, Scanned, word_at, required, expect, for_words, case_patterns, db_tokens,
  scan_fn_name, match_empty_parens, looks_like_fn_def,
}
use petrush.Parser.Segment.{
  After, Segment, segment, empty_segment, parse_pipeline_item, take_conn_after,
}
use petrush.Dispatch.Syntax.{
  Items, nil, cons, Item, pipeline, if_item, while_item, for_item, fn_item, case_item, dbracket,
  Arms, no_arms, if_arm, else_arm, CaseArms, no_cases, case_arm,
}

-- What stands where an item may begin.
pub data Start : Type 0 where
  at_end at_stop : Start
  if_kw while_kw for_kw case_kw dbracket_kw function_kw fn_name : Start
  simple : Start

abbrev pub stops : Bytes → ℕ → ℕ → Bool
stops s mask i = not (mask == 0) && answered_by (peek_kw_mask s i mask)

-- The tests of the loop in their order, for an answer of `match_kw_at` to each keyword.
abbrev pub start_with : (Bytes → Bool) → Bool → Start
start_with kw fn =
    if kw (codes "if")
    then if_kw
    else if kw (codes "while")
    then while_kw
    else if kw (codes "for")
    then for_kw
    else if kw (codes "case")
    then case_kw
    else if kw (codes "[[")
    then dbracket_kw
    else if kw (codes "function")
    then function_kw
    else if fn
    then fn_name
    else simple

unfoldable pub start_of : Bytes → ℕ → ℕ → Start
unfolding match_kw_at peek_kw_mask looks_like_fn_def
start_of s mask i =
    if at s i == 0
    then at_end
    else if stops s mask i
    then at_stop
    else start_with (λ kw. answered_by (match_kw_at s i kw)) (looks_like_fn_def s i)

-- What is done at each start: at the end, at a keyword that stops the list, at a pipeline, and at a
-- compound command.
unfoldable pub by_start {ℓ} :
    {X : Type ℓ}
    → Start
    → (Unit {0} → Result X)
    → (Unit {0} → Result X)
    → (Unit {0} → Result X)
    → (Start → Result X)
    → Result X
by_start at_end end stop pipe compound = end tt
by_start at_stop end stop pipe compound = stop tt
by_start simple end stop pipe compound = pipe tt
by_start kw end stop pipe compound = compound kw

abbrev pub by_segment {ℓ} :
    {X : Type ℓ} → (After → Result X) → (List Cmd → After → Result X) → Segment → Result X
by_segment none_there there (empty_segment a) = none_there a
by_segment none_there there (segment p a) = there p a

-- `&&` or `||` with nothing behind it yet.
abbrev pub awaits : RunCond → Bool
awaits cond_always = false
awaits cond_and = true
awaits cond_or = true

-- The end of a list, in front of the end of the text or of a keyword that stops it.
abbrev pub list_end : Bool → RunCond → ℕ → Result (Items × ℕ)
list_end missing cond i =
    branch missing (λ _. error) λ _. branch (awaits cond) (λ _. error) (λ _. ok (nil, i))

-- A list whose last item has no connector behind it.
unfoldable pub last_end : Bytes → ℕ → Bool → ℕ → Result (Items × ℕ)
unfolding skip_ws_pos peek_kw_mask
last_end s mask require_term pos =
    let i = skip_ws_pos s pos in
    branch (at s i == 0) (λ _. list_end require_term cond_always i)
      λ _. branch (stops s mask i) (λ _. ok (nil, i)) (λ _. error)

-- An empty segment is dropped only where it is all that is left.
abbrev pub empty_end : RunCond → After → Result (Items × ℕ)
empty_end cond a = branch (not a.had_conn && not (awaits cond)) (λ _. ok (nil, a.pos)) (λ _. error)

abbrev pub put_parsed : RunCond → Bool → Item → Result (Items × ℕ) → Result (Items × ℕ)
put_parsed cond bg it r = r >>= λ (rest, e). ok (cons cond bg it rest, e)

-- The condition of `if`, `elif` and `while` has an item.
abbrev pub some_items : Items × ℕ → Result (Items × ℕ)
some_items (nil, j) = error
some_items (cons c bg it rest, j) = ok (cons c bg it rest, j)

-- A name that a function is defined for, and the position of its body's `{`.
abbrev pub fn_parens : Bytes → Bool → ℕ → Result ℕ
fn_parens s from_kw j =
    branch (at s j == b'(') (λ _. required (match_empty_parens s j))
      λ _. branch from_kw (λ _. ok j) (λ _. error)

abbrev pub fn_head : Bytes → Bool → Option (Bytes × ℕ) → Result (Bytes × ℕ)
fn_head s from_kw none = error
fn_head s from_kw (some (name, j)) = fn_parens s from_kw (skip_ws_pos s j) >>= λ k.
    required (match_lbrace_at s k) >>= λ l. ok (name, l)

abbrev pub arm_mask : ℕ
arm_mask = kw_elif + kw_else + kw_fi

abbrev pub case_mask : ℕ
case_mask = kw_dsemi + kw_esac

-- What an arm of `case` ends with: the position behind `;;`, or in front of `esac`.
unfoldable pub arm_end : Bytes → ℕ → Result ℕ
unfolding skip_ws_pos match_dsemi_at match_kw_at
arm_end s pos =
    let i = skip_ws_pos s pos in
    answer (match_dsemi_at s i)
      (λ _. branch (answered_by (match_kw_at s i (codes "esac"))) (λ _. ok i) (λ _. error)) ok

-- The position of the first pattern of an arm, behind a `(` if there is one.
abbrev pub arm_start : Bytes → ℕ → ℕ
arm_start s i = if at s i == b'(' then i + 1 else i

unfoldable mutual
  unfolding start_of last_end parse_pipeline_item take_conn_after for_words case_patterns db_tokens
      scan_fn_name match_lbrace_at match_rbrace_at match_empty_parens arm_end

  -- The rounds of the loop from the one on whose item gets the condition `cond`.
  pub parse_list_until : ℕ → Bytes → ℕ → Bool → RunCond → ℕ → Result (Items × ℕ)
  parse_list_until zero s mask require_term cond pos = out_of_fuel
  parse_list_until (suc f) s mask require_term cond pos =
      let i = skip_ws_pos s pos in
      by_start (start_of s mask i) (λ _. list_end require_term cond i) (λ _. list_end false cond i)
        (λ _.
          parse_pipeline_item s i
          >>= by_segment (empty_end cond) (λ p a. go_on f s mask require_term cond (pipeline p) a))
        (λ kw. parse_compound f s kw i >>= λ (it, j).
          go_on f s mask require_term cond it (take_conn_after s j))

  -- The item `it` with the condition `cond`, and the rest of the list.
  pub go_on : ℕ → Bytes → ℕ → Bool → RunCond → Item → After → Result (Items × ℕ)
  go_on zero s mask require_term cond it a = out_of_fuel
  go_on (suc f) s mask require_term cond it a = put_parsed cond a.bg it (
      branch a.had_conn (λ _. parse_list_until f s mask require_term a.cond a.pos)
        (λ _. last_end s mask require_term a.pos))

  pub parse_compound : ℕ → Bytes → Start → ℕ → Result (Item × ℕ)
  parse_compound zero s kw pos = out_of_fuel
  parse_compound (suc f) s if_kw pos = parse_if f s pos
  parse_compound (suc f) s while_kw pos = parse_while f s pos
  parse_compound (suc f) s for_kw pos = parse_for f s pos
  parse_compound (suc f) s case_kw pos = parse_case f s pos
  parse_compound (suc f) s dbracket_kw pos = parse_dbracket f s pos
  parse_compound (suc f) s function_kw pos =
      expect s (codes "function") pos >>= λ i. parse_fn f s true i
  parse_compound (suc f) s fn_name pos = parse_fn f s false pos
  parse_compound (suc f) s _ pos = error

  pub parse_if : ℕ → Bytes → ℕ → Result (Item × ℕ)
  parse_if zero s pos = out_of_fuel
  parse_if (suc f) s pos =
      expect s (codes "if") pos >>= λ i. parse_arm f s i >>= λ (arms, j). ok (if_item arms, j)

  -- Behind `if` or `elif`: a condition, a body, and the further arms.
  pub parse_arm : ℕ → Bytes → ℕ → Result (Arms × ℕ)
  parse_arm zero s pos = out_of_fuel
  parse_arm (suc f) s pos =
      parse_list_until f s kw_then true cond_always pos >>= some_items >>= λ (cond, i).
      expect s (codes "then") i >>= λ j.
      parse_list_until f s arm_mask true cond_always j >>= λ (body, k).
      parse_arms f s k >>= λ (arms, l). ok (if_arm cond body arms, l)

  -- Behind the body of an arm.
  pub parse_arms : ℕ → Bytes → ℕ → Result (Arms × ℕ)
  parse_arms zero s pos = out_of_fuel
  parse_arms (suc f) s pos =
      answer (match_kw_at s pos (codes "elif"))
        (λ _. parse_else f s pos (match_kw_at s pos (codes "else"))) (parse_arm f s)

  pub parse_else : ℕ → Bytes → ℕ → Option ℕ → Result (Arms × ℕ)
  parse_else zero s pos kw = out_of_fuel
  parse_else (suc f) s pos none = expect s (codes "fi") pos >>= λ i. ok (no_arms, i)
  parse_else (suc f) s pos (some i) = parse_list_until f s kw_fi true cond_always i >>= λ (body, j).
      expect s (codes "fi") j >>= λ k. ok (else_arm body no_arms, k)

  pub parse_while : ℕ → Bytes → ℕ → Result (Item × ℕ)
  parse_while zero s pos = out_of_fuel
  parse_while (suc f) s pos = expect s (codes "while") pos >>= λ i.
      parse_list_until f s kw_do true cond_always i >>= some_items >>= λ (cond, j).
      expect s (codes "do") j >>= λ k.
      parse_list_until f s kw_done true cond_always k >>= λ (body, l).
      expect s (codes "done") l >>= λ m. ok (while_item cond body, m)

  pub parse_for : ℕ → Bytes → ℕ → Result (Item × ℕ)
  parse_for zero s pos = out_of_fuel
  parse_for (suc f) s pos = expect s (codes "for") pos >>= λ i.
      branch (at s (skip_ws_pos s i) == b'(') (λ _. error) (λ _. word_at s (skip_ws_pos s i))
      >>= λ (name, j). expect s (codes "in") (skip_ws_pos s j) >>= λ k.
          for_words (suc (length s)) s k >>= λ (words, l).
          expect s (codes "do") (skip_ws_pos s l) >>= λ m.
          parse_list_until f s kw_done true cond_always m >>= λ (body, n).
          expect s (codes "done") n >>= λ e. ok (for_item (name.text) words body, e)

  pub parse_case : ℕ → Bytes → ℕ → Result (Item × ℕ)
  parse_case zero s pos = out_of_fuel
  parse_case (suc f) s pos = expect s (codes "case") pos >>= λ i.
      word_at s (skip_ws_pos s i) >>= λ (word, j). expect s (codes "in") (skip_ws_pos s j) >>= λ k.
      parse_case_arms f s k >>= λ (arms, e). ok (case_item (word.text) arms, e)

  pub parse_case_arms : ℕ → Bytes → ℕ → Result (CaseArms × ℕ)
  parse_case_arms zero s pos = out_of_fuel
  parse_case_arms (suc f) s pos =
      let i = skip_ws_pos s pos in
      answer (match_kw_at s i (codes "esac")) (λ _. parse_case_arm f s i)
        (λ end. ok (no_cases, end))

  pub parse_case_arm : ℕ → Bytes → ℕ → Result (CaseArms × ℕ)
  parse_case_arm zero s pos = out_of_fuel
  parse_case_arm (suc f) s pos =
      branch (at s pos == 0) (λ _. error) (λ _. ok (arm_start s pos)) >>= λ i.
      case_patterns (suc (length s)) s i >>= λ (patterns, j).
      parse_list_until f s case_mask true cond_always j >>= λ (body, k). arm_end s k >>= λ l.
      parse_case_arms f s l >>= λ (arms, e). ok (case_arm patterns body arms, e)

  pub parse_dbracket : ℕ → Bytes → ℕ → Result (Item × ℕ)
  parse_dbracket zero s pos = out_of_fuel
  parse_dbracket (suc f) s pos = expect s (codes "[[") pos >>= λ i.
      db_tokens (suc (length s)) s i >>= λ (words, e). ok (dbracket words, e)

  -- From the name of the function on; `function` stands in front of it where `from_kw` holds.
  pub parse_fn : ℕ → Bytes → Bool → ℕ → Result (Item × ℕ)
  parse_fn zero s from_kw pos = out_of_fuel
  parse_fn (suc f) s from_kw pos = fn_head s from_kw (scan_fn_name s pos) >>= λ (name, i).
      parse_list_until f s kw_rbrace true cond_always i >>= λ (body, j).
      required (match_rbrace_at s j) >>= λ e. ok (fn_item name body, e)

abbrev pub list_only : Items × ℕ → Result Items
list_only (items, pos) = ok items

-- The fuel is enough: between two bytes read there are at most eight calls.
abbrev pub list_fuel : Bytes → ℕ
list_fuel input = 8 * length input + 8

unfoldable pub parse_list : Bytes → Result Items
unfolding parse_list_until skip_ws_pos
parse_list input =
    let i = skip_ws_pos input 0 in
    branch (at input i == 0) (λ _. ok nil)
      (λ _. parse_list_until (list_fuel input) input 0 false cond_always i >>= list_only)
