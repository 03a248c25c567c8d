-- ===== src/Parser/List/Advance.antt =====
-- Every function of the descent moves forward within the text and builds trees of the shape in
-- Shape, on fuel in proportion to the text that is left.
use petrush.Base.{
  ℕ, zero, suc, ◌+◌, ◌*◌, ◌≤◌, ◌≡◌, refl, Bool, true, false, Option, none, some, arith, length,
}
use petrush.Text.{Bytes, codes}
use petrush.Parser.Result.{
  Yields, yields, yields_error, Yields-bind, Yields-weaken, Yields-branch, Yields-answer,
}
use petrush.Parser.Connector.{RunCond, cond_always}
use petrush.Parser.Keyword.{kw_then, kw_fi, kw_do, kw_done, kw_rbrace, skip_ws_pos, match_kw_at}
use petrush.Parser.Scan.Moves.{
  Between, Past, skip_ws_pos-Between, match_kw_at-Past, match_rbrace_at-Past, required-Yields,
  expect-Past,
}
use petrush.Parser.Scan.Progress.{
  IsWordAt, word_of-IsWordAt, for_words-Yields, case_patterns-Yields, db_tokens-Yields,
}
use petrush.Parser.Segment.{After, segment, empty_segment, take_conn_after}
use petrush.Parser.Segment.Bounds.{Parts, parse_pipeline_item-IsSegment, take_conn_after-Between}
use petrush.Parser.List.{
  Start, if_kw, while_kw, for_kw, case_kw, dbracket_kw, function_kw, fn_name, arm_mask, case_mask,
  parse_list_until, go_on, parse_compound, parse_if, parse_arm, parse_arms, parse_else, parse_while,
  parse_for, parse_case, parse_case_arms, parse_case_arm, parse_dbracket, parse_fn,
}
use petrush.Parser.List.Shape.{IsItem}
use petrush.Dispatch.Syntax.{Item, pipeline}
use petrush.Parser.List.Ends.{
  ListAt, ItemAt, IfAt, ArmsAt, CasesAt, list_end-ListAt, last_end-ListAt, Begins-Parted,
  some_items-ListAt, arm_end-Between, arm_start-Between, fn_head-IsFnName, Yields-by_start,
}

-- The fuel `f` is enough for a call at `pos` that itself makes `n` calls before the next byte.
abbrev pub Enough : ℕ → Bytes → ℕ → ℕ → Type 0
Enough n s pos f = (pos ≤ length s) × (8 * length s + n ≤ 8 * pos + f)

mutual
  unfolding parse_list_until

  pub parse_list_until-ListAt :
      (f : ℕ) (s : Bytes) (mask : ℕ) (require_term : Bool) (cond : RunCond) (pos : ℕ)
      → Enough 8 s pos f
      → Yields (ListAt s cond pos) (parse_list_until f s mask require_term cond pos)
  parse_list_until-ListAt zero s mask require_term cond pos (h, enough) = absurd (omega arith)
  parse_list_until-ListAt (suc f) s mask require_term cond pos (h, enough) =
      let i = skip_ws_pos s pos in
      let (from, to) = skip_ws_pos-Between s pos h in
      Yields-by_start _ _ _ _ _ (list_end-ListAt s require_term cond cond pos i (from, to))
        (list_end-ListAt s false cond cond pos i (from, to))
        (Yields-bind (parse_pipeline_item-IsSegment s i to) (elim [
          | segment p a ↦ λ (is, (lt, le), parts).
              go_on-ListAt f s mask require_term cond pos (pipeline p) a is (omega arith, le) parts
                (le, omega arith)
          | empty_segment a ↦ λ ((from', to'), parts).
              Yields-branch _ _ _ (λ _. yields (tt, tt, (omega arith, to'))) (λ _. yields_error)
        ]))
        λ kw.
          Yields-bind (parse_compound-ItemAt f s kw i (to, omega arith)) λ (it, j) (is, (lt, le)).
            let ((from', to'), parts) = take_conn_after-Between s j le in
            go_on-ListAt f s mask require_term cond pos it (take_conn_after s j) is
              (omega arith, to') parts (to', omega arith)

  go_on-ListAt :
      (f : ℕ) (s : Bytes) (mask : ℕ) (require_term : Bool) (cond : RunCond) (pos : ℕ) (it : Item)
      (a : After)
      → IsItem it
      → Past s pos a.pos
      → Parts a
      → Enough 9 s a.pos f
      → Yields (ListAt s cond pos) (go_on f s mask require_term cond it a)
  go_on-ListAt zero s mask require_term cond pos it a is p parts (h, enough) = absurd (omega arith)
  go_on-ListAt (suc f) s mask require_term cond pos it a is (lt, le) parts (h, enough) =
      Yields-bind {P = ListAt s a.cond a.pos}
        (Yields-branch _ _ _
          (λ _. parse_list_until-ListAt f s mask require_term a.cond a.pos (h, omega arith))
          (λ _. last_end-ListAt s mask require_term a.cond a.pos h))
        λ (rest, e) (begins, is_rest, (from, to)).
          yields
            (refl, (Begins-Parted a.bg a.cond rest parts begins, is, is_rest), (omega arith, to))

  parse_compound-ItemAt :
      (f : ℕ) (s : Bytes) (kw : Start) (pos : ℕ)
      → Enough 7 s pos f
      → Yields (ItemAt s pos) (parse_compound f s kw pos)
  parse_compound-ItemAt zero s kw pos (h, enough) = absurd (omega arith)
  parse_compound-ItemAt (suc f) s if_kw pos (h, enough) = parse_if-ItemAt f s pos (h, omega arith)
  parse_compound-ItemAt (suc f) s while_kw pos (h, enough) =
      parse_while-ItemAt f s pos (h, omega arith)
  parse_compound-ItemAt (suc f) s for_kw pos (h, enough) = parse_for-ItemAt f s pos (h, omega arith)
  parse_compound-ItemAt (suc f) s case_kw pos (h, enough) =
      parse_case-ItemAt f s pos (h, omega arith)
  parse_compound-ItemAt (suc f) s dbracket_kw pos (h, enough) =
      parse_dbracket-ItemAt f s pos (h, omega arith)
  parse_compound-ItemAt (suc f) s function_kw pos (h, enough) =
      Yields-bind (expect-Past s (codes "function") pos (omega arith)) λ i (lt, le).
        Yields-weaken (parse_fn-ItemAt f s true i (le, omega arith))
          λ (it, e) (is, (lt', le')). (is, (omega arith, le'))
  parse_compound-ItemAt (suc f) s fn_name pos (h, enough) =
      parse_fn-ItemAt f s false pos (h, omega arith)
  parse_compound-ItemAt (suc f) s _ pos h = yields_error

  parse_if-ItemAt :
      (f : ℕ) (s : Bytes) (pos : ℕ) → Enough 6 s pos f → Yields (ItemAt s pos) (parse_if f s pos)
  parse_if-ItemAt zero s pos (h, enough) = absurd (omega arith)
  parse_if-ItemAt (suc f) s pos (h, enough) =
      Yields-bind (expect-Past s (codes "if") pos (omega arith)) λ i (lt, le).
        Yields-bind (parse_arm-IfAt f s i (le, omega arith))
          λ (arms, j) (one, is, (from, to)). yields ((one, is), (omega arith, to))

  parse_arm-IfAt :
      (f : ℕ) (s : Bytes) (pos : ℕ) → Enough 9 s pos f → Yields (IfAt s pos) (parse_arm f s pos)
  parse_arm-IfAt zero s pos (h, enough) = absurd (omega arith)
  parse_arm-IfAt (suc f) s pos (h, enough) =
      Yields-bind
        (Yields-bind (parse_list_until-ListAt f s kw_then true cond_always pos (h, omega arith))
          (some_items-ListAt s cond_always pos))
        λ (cond, i) (one, (first, is, (from, to))).
          Yields-bind (expect-Past s (codes "then") i (omega arith)) λ j (lt, le).
            Yields-bind (parse_list_until-ListAt f s arm_mask true cond_always j (le, omega arith))
              λ (body, k) (first', is', (from', to')).
                Yields-bind (parse_arms-ArmsAt f s k (to', omega arith))
                  λ (arms, l) (is'', (from'', to'')).
                    yields (tt, (one, (first, is), (first', is'), is''), (omega arith, to''))

  parse_arms-ArmsAt :
      (f : ℕ) (s : Bytes) (pos : ℕ) → Enough 2 s pos f → Yields (ArmsAt s pos) (parse_arms f s pos)
  parse_arms-ArmsAt zero s pos (h, enough) = absurd (omega arith)
  parse_arms-ArmsAt (suc f) s pos (h, enough) =
      Yields-answer _ _ _ (λ _. parse_else-ArmsAt f s pos _ refl (h, omega arith))
        λ i e.
          let (lt, le) = match_kw_at-Past s pos (codes "elif") i (omega arith) e in
          Yields-weaken (parse_arm-IfAt f s i (le, omega arith))
            λ (arms, j) (one, is, (from, to)). (is, (omega arith, to))

  parse_else-ArmsAt :
      (f : ℕ) (s : Bytes) (pos : ℕ) (kw : Option ℕ)
      → match_kw_at s pos (codes "else") ≡ kw
      → Enough 1 s pos f
      → Yields (ArmsAt s pos) (parse_else f s pos kw)
  parse_else-ArmsAt zero s pos kw e (h, enough) = absurd (omega arith)
  parse_else-ArmsAt (suc f) s pos none e (h, enough) =
      Yields-bind (expect-Past s (codes "fi") pos (omega arith))
        λ i (lt, le). yields (tt, (omega arith, le))
  parse_else-ArmsAt (suc f) s pos (some i) e (h, enough) =
      let (lt, le) = match_kw_at-Past s pos (codes "else") i (omega arith) e in
      Yields-bind (parse_list_until-ListAt f s kw_fi true cond_always i (le, omega arith))
        λ (body, j) (first, is, (from, to)).
          Yields-bind (expect-Past s (codes "fi") j (omega arith))
            λ k (lt', le'). yields (((first, is), refl), (omega arith, le'))

  parse_while-ItemAt :
      (f : ℕ) (s : Bytes) (pos : ℕ) → Enough 6 s pos f → Yields (ItemAt s pos) (parse_while f s pos)
  parse_while-ItemAt zero s pos (h, enough) = absurd (omega arith)
  parse_while-ItemAt (suc f) s pos (h, enough) =
      Yields-bind (expect-Past s (codes "while") pos (omega arith)) λ i (lt, le).
        Yields-bind
          (Yields-bind (parse_list_until-ListAt f s kw_do true cond_always i (le, omega arith))
            (some_items-ListAt s cond_always i))
          λ (cond, j) (one, (first, is, (from, to))).
            Yields-bind (expect-Past s (codes "do") j (omega arith)) λ k (lt', le').
              Yields-bind
                (parse_list_until-ListAt f s kw_done true cond_always k (le', omega arith))
                λ (body, l) (first', is', (from', to')).
                  Yields-bind (expect-Past s (codes "done") l (omega arith)) λ m (lt'', le'').
                    yields ((one, (first, is), (first', is')), (omega arith, le''))

  parse_for-ItemAt :
      (f : ℕ) (s : Bytes) (pos : ℕ) → Enough 6 s pos f → Yields (ItemAt s pos) (parse_for f s pos)
  parse_for-ItemAt zero s pos (h, enough) = absurd (omega arith)
  parse_for-ItemAt (suc f) s pos (h, enough) =
      Yields-bind (expect-Past s (codes "for") pos (omega arith)) λ i (lt, le).
        let (from, to) = skip_ws_pos-Between s i le in
        Yields-bind {P = IsWordAt s (skip_ws_pos s i)}
          (Yields-branch _ _ _ (λ _. yields_error) (λ _. word_of-IsWordAt s _ _ to))
          λ (name, j) (full, (lt', le')).
            let (from', to') = skip_ws_pos-Between s j le' in
            Yields-bind (expect-Past s (codes "in") (skip_ws_pos s j) (omega arith))
              λ k (lt'', le'').
                Yields-bind (for_words-Yields (suc (length s)) s k le'' (omega arith))
                  λ (words, l) (fulls, (from'', to'')).
                    let (from3, to3) = skip_ws_pos-Between s l to'' in
                    Yields-bind (expect-Past s (codes "do") (skip_ws_pos s l) (omega arith))
                      λ m (lt3, le3).
                        Yields-bind
                          (parse_list_until-ListAt f s kw_done true cond_always m
                            (le3, omega arith))
                          λ (body, n) (first, is, (from4, to4)).
                            Yields-bind (expect-Past s (codes "done") n (omega arith))
                              λ e (lt5, le5).
                                yields ((full, fulls, (first, is)), (omega arith, le5))

  parse_case-ItemAt :
      (f : ℕ) (s : Bytes) (pos : ℕ) → Enough 6 s pos f → Yields (ItemAt s pos) (parse_case f s pos)
  parse_case-ItemAt zero s pos (h, enough) = absurd (omega arith)
  parse_case-ItemAt (suc f) s pos (h, enough) =
      Yields-bind (expect-Past s (codes "case") pos (omega arith)) λ i (lt, le).
        let (from, to) = skip_ws_pos-Between s i le in
        Yields-bind (word_of-IsWordAt s _ _ to) λ (word, j) (full, (lt', le')).
          let (from', to') = skip_ws_pos-Between s j le' in
          Yields-bind (expect-Past s (codes "in") (skip_ws_pos s j) (omega arith)) λ k (lt'', le'').
            Yields-bind (parse_case_arms-CasesAt f s k (le'', omega arith))
              λ (arms, e) (is, (from'', to'')). yields ((full, is), (omega arith, to''))

  parse_case_arms-CasesAt :
      (f : ℕ) (s : Bytes) (pos : ℕ)
      → Enough 3 s pos f
      → Yields (CasesAt s pos) (parse_case_arms f s pos)
  parse_case_arms-CasesAt zero s pos (h, enough) = absurd (omega arith)
  parse_case_arms-CasesAt (suc f) s pos (h, enough) =
      let (from, to) = skip_ws_pos-Between s pos h in
      Yields-answer _ _ _
        (λ _.
          Yields-weaken (parse_case_arm-CasesAt f s (skip_ws_pos s pos) (to, omega arith))
            λ (arms, e) (is, (from', to')). (is, (omega arith, to')))
        λ end e.
          let (lt, le) = match_kw_at-Past s _ (codes "esac") end (omega arith) e in
          yields (tt, (omega arith, le))

  parse_case_arm-CasesAt :
      (f : ℕ) (s : Bytes) (pos : ℕ)
      → Enough 2 s pos f
      → Yields (CasesAt s pos) (parse_case_arm f s pos)
  parse_case_arm-CasesAt zero s pos (h, enough) = absurd (omega arith)
  parse_case_arm-CasesAt (suc f) s pos (h, enough) =
      Yields-bind {P = Between s pos} (arm_start-Between s pos h) λ i (from, to).
        Yields-bind (case_patterns-Yields (suc (length s)) s i to (omega arith))
          λ (patterns, j) (are, (lt, le)).
            Yields-bind (parse_list_until-ListAt f s case_mask true cond_always j (le, omega arith))
              λ (body, k) (first, is, (from', to')).
                Yields-bind (arm_end-Between s k to') λ l (from'', to'').
                  Yields-bind (parse_case_arms-CasesAt f s l (to'', omega arith))
                    λ (arms, e) (ares, (from3, to3)).
                      yields ((are, (first, is), ares), (omega arith, to3))

  parse_dbracket-ItemAt :
      (f : ℕ) (s : Bytes) (pos : ℕ)
      → Enough 6 s pos f
      → Yields (ItemAt s pos) (parse_dbracket f s pos)
  parse_dbracket-ItemAt zero s pos (h, enough) = absurd (omega arith)
  parse_dbracket-ItemAt (suc f) s pos (h, enough) =
      Yields-bind (expect-Past s (codes "[[") pos (omega arith)) λ i (lt, le).
        Yields-bind (db_tokens-Yields (suc (length s)) s i le (omega arith))
          λ (words, e) (are, (lt', le')). yields (are, (omega arith, le'))

  parse_fn-ItemAt :
      (f : ℕ) (s : Bytes) (from_kw : Bool) (pos : ℕ)
      → Enough 6 s pos f
      → Yields (ItemAt s pos) (parse_fn f s from_kw pos)
  parse_fn-ItemAt zero s from_kw pos (h, enough) = absurd (omega arith)
  parse_fn-ItemAt (suc f) s from_kw pos (h, enough) =
      Yields-bind (fn_head-IsFnName s from_kw pos) λ (name, i) (named, (lt, le)).
        Yields-bind (parse_list_until-ListAt f s kw_rbrace true cond_always i (le, omega arith))
          λ (body, j) (first, is, (from, to)).
            Yields-bind (required-Yields (Past s j) _ (match_rbrace_at-Past s j))
              λ e (lt', le'). yields ((named, (first, is)), (omega arith, le'))
