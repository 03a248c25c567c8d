-- ===== src/Parser/List/Ends.antt =====
-- What the functions of the descent come to, and the pieces that end a list, an arm and the head of a
-- function.
use petrush.Base.{
  ℕ, ◌≤◌, ◌<◌, ◌≡◌, ◌≢◌, refl, ◌∙◌, Bool, true, false, Option, none, some, arith, ◌==◌, length,
  Bool-cases, inl, inr,
}
use petrush.Text.{Bytes, at}
use petrush.Parser.Result.{
  Result, ok, error, branch, Yields, yields, yields_error, Yields-bind, Yields-branch,
  Yields-answer,
}
use petrush.Parser.Connector.{RunCond, cond_always}
use petrush.Parser.Scan.{scan_fn_name}
use petrush.Parser.Scan.Moves.{
  Between, Past, skip_ws_pos-Between, match_lbrace_at-Past, match_dsemi_at-Past, at-inside,
  required-Yields, IsFnName, scan_fn_name-IsFnName, match_empty_parens-Past,
}
use petrush.Parser.List.{
  Start, at_end, at_stop, simple, by_start, list_end, last_end, some_items, fn_head, arm_end,
  arm_start,
}
use petrush.Parser.List.Shape.{Begins, Parted, Conditional, IsRest, IsItem, IsArms, AreCases}
use petrush.Dispatch.Syntax.{Items, nil, cons, Item, Arms, CaseArms}

-- What a list, an item, the arms of an `if` and those of a `case` come to.
abbrev pub ListAt : Bytes → RunCond → ℕ → Items × ℕ → Type 0
ListAt s cond pos (l, e) = Begins cond l × IsRest l × Between s pos e

abbrev pub ItemAt : Bytes → ℕ → Item × ℕ → Type 0
ItemAt s pos (it, e) = IsItem it × Past s pos e

abbrev pub IfAt : Bytes → ℕ → Arms × ℕ → Type 0
IfAt s pos (arms, e) = Conditional arms × IsArms arms × Between s pos e

abbrev pub ArmsAt : Bytes → ℕ → Arms × ℕ → Type 0
ArmsAt s pos (arms, e) = IsArms arms × Between s pos e

abbrev pub CasesAt : Bytes → ℕ → CaseArms × ℕ → Type 0
CasesAt s pos (arms, e) = AreCases arms × Between s pos e

pub list_end-ListAt :
    (s : Bytes) (missing : Bool) (cond c : RunCond) (pos i : ℕ)
    → Between s pos i
    → Yields (ListAt s c pos) (list_end missing cond i)
list_end-ListAt s missing cond c pos i (from, to) =
    Yields-branch _ _ _ (λ _. yields_error)
      λ _. Yields-branch _ _ _ (λ _. yields_error) (λ _. yields (tt, tt, (from, to)))

pub last_end-ListAt :
    (s : Bytes) (mask : ℕ) (require_term : Bool) (c : RunCond) (pos : ℕ)
    → pos ≤ length s
    → Yields (ListAt s c pos) (last_end s mask require_term pos)
unfolding last_end
last_end-ListAt s mask require_term c pos h =
    let (from, to) = skip_ws_pos-Between s pos h in
    Yields-branch _ _ _ (λ _. list_end-ListAt s require_term cond_always c pos _ (from, to))
      λ _. Yields-branch _ _ _ (λ _. yields (tt, tt, (from, to))) (λ _. yields_error)

pub Begins-Parted :
    (bg : Bool) (cond : RunCond) (rest : Items)
    → (bg ≡ true → cond ≡ cond_always)
    → Begins cond rest
    → Parted bg rest
Begins-Parted false cond rest p h = tt
Begins-Parted true cond nil p h = tt
Begins-Parted true cond (cons c bg it rest) p h = h ∙ p refl

pub some_items-ListAt :
    (s : Bytes) (c : RunCond) (pos : ℕ) (r : Items × ℕ)
    → ListAt s c pos r
    → Yields (λ (l, e). (l ≢ nil) × ListAt s c pos (l, e)) (some_items r)
some_items-ListAt s c pos (nil, e) h = yields_error
some_items-ListAt s c pos (cons c' bg it rest, e) h = yields ((λ q. cc), h)

pub arm_end-Between :
    (s : Bytes) (pos : ℕ) → pos ≤ length s → Yields (Between s pos) (arm_end s pos)
unfolding arm_end
arm_end-Between s pos h =
    let (from, to) = skip_ws_pos-Between s pos h in
    Yields-answer _ _ _ (λ _. Yields-branch _ _ _ (λ _. yields (from, to)) (λ _. yields_error))
      λ end e. let (lt, le) = match_dsemi_at-Past s _ end e in yields (omega arith, le)

pub arm_start-Between :
    (s : Bytes) (pos : ℕ)
    → pos ≤ length s
    → Yields (Between s pos) (branch (at s pos == 0) (λ _. error) (λ _. ok (arm_start s pos)))
arm_start-Between s pos h =
    Yields-branch _ _ _ (λ _. yields_error)
      λ e.
        let inside : pos < length s = ground (arith, at-inside s pos) in
        elim (Bool-cases (at s pos == b'(')) [
          | inl paren ↦ rw paren (yields (omega arith, omega arith))
          | inr other ↦ rw other (yields (omega arith, h))
        ]

pub fn_head-IsFnName :
    (s : Bytes) (from_kw : Bool) (pos : ℕ)
    → Yields (λ (name, e). IsFnName name × Past s pos e) (fn_head s from_kw (scan_fn_name s pos))
fn_head-IsFnName s from_kw pos = go (scan_fn_name s pos) refl
  where
    go :
        (o : Option (Bytes × ℕ))
        → scan_fn_name s pos ≡ o
        → Yields (λ (name, e). IsFnName name × Past s pos e) (fn_head s from_kw o)
    go none e = yields_error
    go (some (name, j)) e =
        let (is, (lt, le)) = scan_fn_name-IsFnName s pos name j e in
        let (from, to) = skip_ws_pos-Between s j le in
        Yields-bind {P = Between s j}
          (Yields-branch _ _ _
            (λ _.
              required-Yields _ _
                λ k m. let (lt', le') = match_empty_parens-Past s _ k m in (omega arith, le'))
            λ _. Yields-branch _ _ _ (λ _. yields (from, to)) (λ _. yields_error))
          λ k (from', to').
            Yields-bind (required-Yields (Past s k) _ λ l m. match_lbrace_at-Past s k l m)
              λ l (lt', le'). yields (is, (omega arith, le'))

pub Yields-by_start {ℓ} :
    {X : Type ℓ} {P : X → Type 0} (start : Start) (end stop pipe : Unit {0} → Result X)
    (compound : Start → Result X)
    → Yields P (end tt)
    → Yields P (stop tt)
    → Yields P (pipe tt)
    → ((kw : Start) → Yields P (compound kw))
    → Yields P (by_start start end stop pipe compound)
unfolding by_start
Yields-by_start at_end end stop pipe compound e s p c = e
Yields-by_start at_stop end stop pipe compound e s p c = s
Yields-by_start simple end stop pipe compound e s p c = p
Yields-by_start kw end stop pipe compound e s p c = c _
