-- ===== src/Parser/List/Reads.antt =====
-- The parser of lists reads every text of the grammar in Written.
use petrush.Base.{
  ℕ, zero, suc, ◌+◌, ◌*◌, ◌≡◌, ◌≢◌, refl, sym, ap, ◌∙◌, subst, Bool, true, false, none, some, [],
  ◌∷◌, ◌++◌, arith, ◌==◌, length, drop, Bool-cases, inl, inr,
}
use petrush.Text.{Bytes, codes, at, is_space}
use petrush.Parser.Result.{Result, ok, out_of_fuel, ◌>>=◌, branch, answer}
use petrush.Parser.Connector.{RunCond, cond_always}
use petrush.Parser.Keyword.{
  kw_then, kw_fi, kw_do, kw_done, blanks, skip_ws_pos, starts_with, match_kw_at, match_rbrace_at,
  match_dsemi_at, peek_kw_mask,
}
use petrush.Parser.Segment.{parse_pipeline_item, take_conn_after}
use petrush.Parser.Result.{Yields-ne-fuel}
use petrush.Parser.List.Advance.{parse_list_until-ListAt}
use petrush.Parser.List.{list_fuel, parse_list, list_end, by_segment, empty_end}
use petrush.Parser.List.{
  if_kw, while_kw, start_of, by_start, arm_mask, parse_list_until, go_on, parse_compound, parse_arm,
  parse_arms,
}
use petrush.Dispatch.Syntax.{Items, nil, cons, Item, pipeline, if_item, while_item, Arms}
use petrush.Parser.List.Place.{At, At-append, shift, match_kw_at-At}
use petrush.Parser.List.Written.{
  Written, finished, item, command, while_loop, branches, WrittenArms, arm, WrittenRest, fi,
  otherwise, elif,
}
use petrush.Parser.List.Steps.{
  Lands, Lands-bind, At-suc, NotOpening, start_of-while, start_of-if, after_sep, lost, lands,
}
use petrush.Parser.List.Stops.{
  Closes, EndsKw, finished-Lands, Lands-expect, Written-space, Joins-EndsKw, fi-Closes,
  Lands-nonempty, WrittenArms-space, rest-Closes, while-Closes, Command-Lands, compound-Lands,
  closes_text, closes_kw,
}

-- A keyword with space behind it.
opening-Closes :
    {b rest : Bytes} {cond : RunCond} {l : Items}
    → Written rest cond b l
    → (Closes kw_do true (codes "do" ++ b)) × (Closes kw_then true (codes "then" ++ b))
unfolding peek_kw_mask match_kw_at skip_ws_pos blanks starts_with match_rbrace_at match_dsemi_at
opening-Closes b =
    let (t, e) = Written-space b in rw e (closes_kw refl refl refl, closes_kw refl refl refl)

match-done :
    (rest : Bytes) → EndsKw rest → match_kw_at (codes "done" ++ rest) 0 (codes "done") ≡ some 4
unfolding match_kw_at skip_ws_pos blanks starts_with
match-done rest h = rw h refl

match-fi :
    (rest : Bytes)
    → EndsKw rest
    → (match_kw_at (codes "fi" ++ rest) 0 (codes "fi") ≡ some 2)
      × (match_kw_at (codes "fi" ++ rest) 0 (codes "elif") ≡ none)
      × (match_kw_at (codes "fi" ++ rest) 0 (codes "else") ≡ none)
unfolding match_kw_at skip_ws_pos blanks starts_with
match-fi rest h = (rw h refl, refl, refl)

-- The keywords that stand before a list.
match-opening :
    {t : Bytes}
    → (r : Bytes) × (t ≡ b' ' ∷ r)
    → (match_kw_at (codes "if" ++ t) 0 (codes "if") ≡ some 2)
      × (match_kw_at (codes "while" ++ t) 0 (codes "while") ≡ some 5)
      × (match_kw_at (codes "do" ++ t) 0 (codes "do") ≡ some 2)
      × (match_kw_at (codes "then" ++ t) 0 (codes "then") ≡ some 4)
      × (match_kw_at (codes "elif" ++ t) 0 (codes "elif") ≡ some 4)
      × (match_kw_at (codes "else" ++ t) 0 (codes "elif") ≡ none)
      × (match_kw_at (codes "else" ++ t) 0 (codes "else") ≡ some 4)
unfolding match_kw_at skip_ws_pos blanks starts_with
match-opening (r, e) = rw e (refl, refl, refl, refl, refl, refl, refl)

mutual
  unfolding parse_list_until by_start branch answer

  list-Lands :
      (f : ℕ) (s : Bytes) (mask : ℕ) (require_term : Bool) {rest t : Bytes} {cond : RunCond}
      {l : Items} (pos : ℕ)
      → NotOpening mask
      → Closes mask require_term rest
      → Written rest cond t l
      → At s pos t
      → Lands s rest (parse_list_until f s mask require_term cond pos) l
  list-Lands f s mask require_term pos shut closes finished h = finished-Lands f pos closes h
  list-Lands zero s mask require_term pos shut closes (item w j l) h = lost
  list-Lands (suc f) s mask require_term pos shut closes (item (command cmd) j l) h =
      Command-Lands f mask require_term pos cmd j l h
        (λ e at_r. go_on-Lands f s mask require_term e shut closes l at_r)
  list-Lands (suc f) s mask require_term pos shut closes (item (while_loop c full b) j l) h =
      let (c', e) = Written-space c in
      compound-Lands f mask require_term pos _ _ refl refl
        (start_of-while mask shut (subst (λ q. At s (pos + 1) (codes "while" ++ q)) e (At-suc h)))
        (λ _ _ _ _. refl) j l h (while-Lands f s (pos + 1) c full b (Joins-EndsKw _ j) (At-suc h))
        (λ e at_r. go_on-Lands f s mask require_term e shut closes l at_r)
  list-Lands (suc f) s mask require_term pos shut closes (item (branches arms) j l) h =
      let (c', e) = WrittenArms-space arms in
      compound-Lands f mask require_term pos _ _ refl refl
        (start_of-if mask shut (subst (λ q. At s (pos + 1) (codes "if" ++ q)) e (At-suc h)))
        (λ _ _ _ _. refl) j l h (if-Lands f s (pos + 1) arms (Joins-EndsKw _ j) (At-suc h))
        (λ e at_r. go_on-Lands f s mask require_term e shut closes l at_r)

  go_on-Lands :
      (f : ℕ) (s : Bytes) (mask : ℕ) (require_term : Bool) {rest r : Bytes} {cond c : RunCond}
      {bg : Bool} {it : Item} {l : Items} (pos : ℕ)
      → NotOpening mask
      → Closes mask require_term rest
      → Written rest c r l
      → At s pos r
      → Lands s rest (go_on f s mask require_term cond it (after_sep pos c bg)) (cons cond bg it l)
  go_on-Lands zero s mask require_term pos shut closes l h = lost
  go_on-Lands (suc f) s mask require_term pos shut closes l h =
      Lands-bind _ (list-Lands f s mask require_term pos shut closes l h) λ e at_rest. lands at_rest

  while-Lands :
      (f : ℕ) (s : Bytes) {rest c b : Bytes} {cond body : Items} (pos : ℕ)
      → Written (codes "do" ++ b) cond_always c cond
      → cond ≢ nil
      → Written (codes "done" ++ rest) cond_always b body
      → EndsKw rest
      → At s pos (codes "while" ++ c)
      → Lands s rest (parse_compound f s while_kw pos) (while_item cond body)
  while-Lands zero s pos c full b ends h = lost
  while-Lands (suc zero) s pos c full b ends h = lost
  while-Lands (suc (suc f)) s {rest} pos c full b ends h =
      Lands-expect (codes "while") _ _ (match-opening (Written-space c)).1 h λ i at_c.
        Lands-nonempty _ full (list-Lands f s kw_do true i (refl, refl) (opening-Closes b).0 c at_c)
          λ j at_do.
            Lands-expect (codes "do") _ _ (match-opening (Written-space b)).2 at_do λ k at_b.
              Lands-bind _
                (list-Lands f s kw_done true k (refl, refl) (while-Closes rest ends) b at_b)
                λ l at_done.
                  Lands-expect (codes "done") rest _ (match-done rest ends) at_done
                    λ e at_rest. lands at_rest

  if-Lands :
      (f : ℕ) (s : Bytes) {rest t : Bytes} {arms : Arms} (pos : ℕ)
      → WrittenArms rest t arms
      → EndsKw rest
      → At s pos (codes "if" ++ t)
      → Lands s rest (parse_compound f s if_kw pos) (if_item arms)
  if-Lands zero s pos arms ends h = lost
  if-Lands (suc zero) s pos arms ends h = lost
  if-Lands (suc (suc f)) s pos arms ends h =
      Lands-expect (codes "if") _ _ (match-opening (WrittenArms-space arms)).0 h
        λ i at_arms. Lands-bind _ (arm-Lands f s i arms ends at_arms) λ e at_rest. lands at_rest

  arm-Lands :
      (f : ℕ) (s : Bytes) {rest t : Bytes} {arms : Arms} (pos : ℕ)
      → WrittenArms rest t arms
      → EndsKw rest
      → At s pos t
      → Lands s rest (parse_arm f s pos) arms
  arm-Lands zero s pos arms ends h = lost
  arm-Lands (suc f) s pos (arm c full b more) ends h =
      Lands-nonempty _ full (list-Lands f s kw_then true pos (refl, refl) (opening-Closes b).1 c h)
        λ i at_then.
          Lands-expect (codes "then") _ _ (match-opening (Written-space b)).3 at_then λ j at_b.
            Lands-bind _
              (list-Lands f s arm_mask true j (refl, refl) (rest-Closes more ends) b at_b)
              λ k at_more.
                Lands-bind _ (rest-Lands f s k more ends at_more) λ e at_rest. lands at_rest

  rest-Lands :
      (f : ℕ) (s : Bytes) {rest t : Bytes} {arms : Arms} (pos : ℕ)
      → WrittenRest rest t arms
      → EndsKw rest
      → At s pos t
      → Lands s rest (parse_arms f s pos) arms
  rest-Lands zero s pos more ends h = lost
  rest-Lands (suc f) s pos (elif arms) ends h =
      rw
        (match_kw_at-At (codes "elif") h
          ∙ ap (shift pos) (match-opening (WrittenArms-space arms)).4)
        (arm-Lands f s (pos + 4) arms ends (At-append (codes "elif") _ h))
  rest-Lands (suc zero) s {rest} pos fi ends h =
      rw (match_kw_at-At (codes "elif") h ∙ ap (shift pos) (match-fi rest ends).1) lost
  rest-Lands (suc (suc f)) s {rest} pos fi ends h =
      rw (match_kw_at-At (codes "elif") h ∙ ap (shift pos) (match-fi rest ends).1) (
        rw (match_kw_at-At (codes "else") h ∙ ap (shift pos) (match-fi rest ends).2)
          (Lands-expect (codes "fi") rest _ (match-fi rest ends).0 h λ e at_rest. lands at_rest))
  rest-Lands (suc zero) s pos (otherwise b) ends h =
      rw (match_kw_at-At (codes "elif") h ∙ ap (shift pos) (match-opening (Written-space b)).5) lost
  rest-Lands (suc (suc f)) s {rest} pos (otherwise b) ends h =
      rw (match_kw_at-At (codes "elif") h ∙ ap (shift pos) (match-opening (Written-space b)).5) (
        rw (match_kw_at-At (codes "else") h ∙ ap (shift pos) (match-opening (Written-space b)).6) (
          Lands-bind _
            (list-Lands f s kw_fi true (pos + 4) (refl, refl) (fi-Closes rest (inl refl) ends) b
              (At-append (codes "else") _ h))
            λ j at_fi.
              Lands-expect (codes "fi") rest _ (match-fi rest ends).0 at_fi
                λ e at_rest. lands at_rest))

Lands-ok :
    {X : Type 0} {s rest : Bytes} {r : Result (X × ℕ)} {x : X}
    → Lands s rest r x
    → r ≢ out_of_fuel
    → (e : ℕ) × (r ≡ ok (x, e))
Lands-ok lost h = absurd (h refl)
Lands-ok (lands {e} place) h = (e, refl)

blanks-drop : (p : Bytes) → blanks (drop (blanks p) p) ≡ 0
unfolding blanks
blanks-drop [] = refl
blanks-drop (c ∷ cs) = elim (Bool-cases (is_space c)) [
  | inl e ↦ rw e (blanks-drop cs)
  | inr e ↦ rw e (rw e refl)
]

skip_ws_pos-twice : (s : Bytes) → skip_ws_pos s (skip_ws_pos s 0) ≡ skip_ws_pos s 0
unfolding skip_ws_pos
skip_ws_pos-twice s =
    let e : 0 + blanks s ≡ blanks s = omega arith in
    let z : blanks s + 0 ≡ blanks s = omega arith in rw e (rw (blanks-drop s) z)

-- Leading space makes no difference to the loop.
parse_list_until-skipped :
    (f : ℕ) (s : Bytes)
    → parse_list_until (suc f) s 0 false cond_always (skip_ws_pos s 0)
      ≡ parse_list_until (suc f) s 0 false cond_always 0
unfolding parse_list_until
parse_list_until-skipped f s =
    ap
      (λ i.
        by_start (start_of s 0 i) (λ _. list_end false cond_always i)
          (λ _. list_end false cond_always i)
          (λ _.
            parse_pipeline_item s i
            >>= by_segment (empty_end cond_always)
                (λ p a. go_on f s 0 false cond_always (pipeline p) a))
          (λ kw. parse_compound f s kw i >>= λ (it, j).
            go_on f s 0 false cond_always it (take_conn_after s j)))
      (skip_ws_pos-twice s)

parse_list_until-blank :
    (f : ℕ) (s : Bytes)
    → (at s (skip_ws_pos s 0) == 0) ≡ true
    → parse_list_until (suc f) s 0 false cond_always 0 ≡ ok (nil, skip_ws_pos s 0)
unfolding parse_list_until branch by_start start_of
parse_list_until-blank f s h = rw h refl

ok-item :
    {l l' : Items} {e e' : ℕ} → ◌≡◌ {A = Result (Items × ℕ)} (ok (l, e)) (ok (l', e')) → l ≡ l'
ok-item e = cc

-- A text that writes out a list, with a space before each item, a connector right behind each, and a
-- space at the end, is parsed as that list: commands with their connectors, and `while` and `if` with `elif`
-- and `else` however deep they are nested, around such lists. The commands are pipelines that are
-- parsed as such, that hold no connector outside quotes and no `$`, and that begin with no letter,
-- bracket or brace, so that no keyword stands there.
pub parse_list-Written : (t : Bytes) (l : Items) → Written [] cond_always t l → parse_list t ≡ ok l
unfolding parse_list branch
parse_list-Written t l w =
    let fuel : list_fuel t ≡ suc (8 * length t + 7) = omega arith in
    let landed =
      list-Lands (list_fuel t) t 0 false 0 (refl, refl) closes_text w (record { left = refl }) in
    let enough =
      parse_list_until-ListAt (list_fuel t) t 0 false cond_always 0 (omega arith, omega arith) in
    let (e, whole) = Lands-ok landed (Yields-ne-fuel enough) in
    let run : parse_list_until (suc (8 * length t + 7)) t 0 false cond_always 0 ≡ ok (l, e) =
      subst (λ f. parse_list_until f t 0 false cond_always 0 ≡ ok (l, e)) fuel whole in
    elim (Bool-cases (at t (skip_ws_pos t 0) == 0)) [
      | inl ended ↦
          rw ended (ap ok (ok-item (sym (parse_list_until-blank (8 * length t + 7) t ended) ∙ run)))
      | inr more ↦
          rw more (rw fuel (rw (parse_list_until-skipped (8 * length t + 7) t) (rw run refl)))
    ]
