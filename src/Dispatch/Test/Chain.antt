-- ===== src/Dispatch/Test/Chain.antt =====
-- What a chain of terms with `&&` and `||` means in `[[`.
use petrush.Base.{
  ℕ, zero, suc, ◌≤◌, ◌<◌, ◌≡◌, refl, sym, ap, ◌∙◌, Bool, true, false, not, ◌||◌, Option, none, some,
  List, [], ◌∷◌, ◌++◌, ◌==◌, if◌then◌else◌, length, length-append, arith, inl, inr, Bool-cases,
}
use petrush.Text.{Bytes, codes, str_eq}
use petrush.Dispatch.Test.{
  FileTest, Word, dbr_eval_term, dbr_skip_term, joined, dbr_loop, dbr_eval_expr,
}
use petrush.Dispatch.Test.Skip.{only_bangs, dbr_skip_term-eval}

-- A chain of terms, each with its connective (`true` is `&&`) and its status.
abbrev pub Chain : Type 0
Chain = List (Bool × List Word × ℕ)

abbrev pub connective : Bool → Word
connective true = (codes "&&", false)
connective false = (codes "||", false)

abbrev pub words : Chain → List Word
words [] = []
words ((conj, t, v) ∷ r) = connective conj ∷ (t ++ words r)

-- The right side of `&&` counts after a true term, that of `||` after a false one.
abbrev pub counts : Bool → ℕ → Bool
counts true st = st == 0
counts false st = not (st == 0)

-- Connectives of equal rank, from left to right.
abbrev pub meaning : ℕ → Chain → ℕ
meaning st [] = st
meaning st ((conj, t, v) ∷ r) = meaning (if counts conj st then v else st) r

if_lt : (b : Bool) (v st : ℕ) → v < 2 → st < 2 → (if b then v else st) < 2
if_lt true v st hv hs = hv
if_lt false v st hv hs = hs

-- The words of a term, in front of an end or a connective.
abbrev pub Ends : List Word → Type 0
Ends [] = Unit
Ends ((op, q) ∷ ws) = (str_eq op (codes "&&") || str_eq op (codes "||")) ≡ true

abbrev pub IsTerm : (FileTest → Bytes → Bool) → List Word → ℕ → Type 0
IsTerm file_is t v =
    (v < 2) × ((rest : List Word) → Ends rest → dbr_eval_term file_is false (t ++ rest) ≡ (v, rest))

abbrev pub AllTerms : (FileTest → Bytes → Bool) → Chain → Type 0
AllTerms file_is [] = Unit
AllTerms file_is ((conj, t, v) ∷ r) = IsTerm file_is t v × AllTerms file_is r

words-Ends : (r : Chain) → Ends (words r)
unfolding str_eq
words-Ends [] = tt
words-Ends ((true, t, v) ∷ r) = refl
words-Ends ((false, t, v) ∷ r) = refl

module _ (file_is : FileTest → Bytes → Bool) where
  skips-IsTerm :
      (v : ℕ) (t rest : List Word)
      → v < 2
      → dbr_eval_term file_is false (t ++ rest) ≡ (v, rest)
      → dbr_skip_term (t ++ rest) ≡ some rest
  skips-IsTerm v t rest bound e =
      let (shape, error) = dbr_skip_term-eval file_is false (t ++ rest) in
      elim (Bool-cases (only_bangs (t ++ rest))) [
        | inl none_there ↦
            let two : v ≡ 2 = sym (ap (λ r. r.0) e) ∙ error none_there in absurd (omega arith)
        | inr there ↦
            shape
            ∙ ap (λ b. if b then none else some (dbr_eval_term file_is false (t ++ rest)).1) there
            ∙ ap (λ r. some r.1) e
      ]

  -- A term that counts gives its status; one that does not keeps the status so far.
  joined-IsTerm :
      (taken : Bool) (st v : ℕ) (t rest : List Word) (next : ℕ → List Word → Option ℕ)
      → st < 2
      → IsTerm file_is t v
      → Ends rest
      → joined file_is taken st (t ++ rest) next ≡ next (if taken then v else st) rest
  joined-IsTerm true st v t rest next small (bound, reads) ends =
      let fine : (st == 2) ≡ false = ground arith in
      let right : (v == 2) ≡ false = ground arith in rw fine (rw (reads rest ends) (rw right refl))
  joined-IsTerm false st v t rest next small (bound, reads) ends =
      let fine : (st == 2) ≡ false = ground arith in
      rw fine (rw (skips-IsTerm v t rest bound (reads rest ends)) refl)

  dbr_loop-connective :
      (f st : ℕ) (conj : Bool) (ws : List Word)
      → dbr_loop file_is (suc f) st (connective conj ∷ ws)
        ≡ joined file_is (counts conj st) st ws (dbr_loop file_is f)
  unfolding dbr_loop
  dbr_loop-connective f st true ws = refl
  dbr_loop-connective f st false ws = refl

  dbr_loop-meaning :
      (f st : ℕ) (r : Chain)
      → st < 2
      → AllTerms file_is r
      → length (words r) ≤ f
      → dbr_loop file_is f st (words r) ≡ some (meaning st r)
  unfolding dbr_loop
  dbr_loop-meaning f st [] small terms le = refl
  dbr_loop-meaning zero st (_ ∷ _) small terms le = absurd (omega arith)
  dbr_loop-meaning (suc f) st ((conj, t, v) ∷ r) small (term, terms) le =
      let room : length (words r) ≤ f = omega (arith, length-append {0} t (words r)) in
      let next : (if counts conj st then v else st) < 2 =
        if_lt (counts conj st) v st term.0 small in
      dbr_loop-connective f st conj (t ++ words r)
      ∙ joined-IsTerm (counts conj st) st v t (words r) (dbr_loop file_is f) small term
          (words-Ends r)
      ∙ dbr_loop-meaning f (if counts conj st then v else st) r next terms room

  -- A chain of terms with `&&` and `||` between them is evaluated from left to right, both connectives
  -- with the same rank: the right side of a connective counts only where the status so far does not
  -- decide, and is passed over otherwise.
  pub dbr_eval_expr-meaning :
      (t : List Word) (v : ℕ) (r : Chain)
      → IsTerm file_is t v
      → AllTerms file_is r
      → dbr_eval_expr file_is (t ++ words r) ≡ some (meaning v r)
  unfolding dbr_eval_expr
  dbr_eval_expr-meaning [] v r (bound, reads) terms =
      let two : 2 ≡ v = ap (λ x. x.0) (reads [] tt) in absurd (omega arith)
  dbr_eval_expr-meaning (w ∷ t) v r (bound, reads) terms =
      rw (reads (words r) (words-Ends r))
        (dbr_loop-meaning (length (words r)) v r bound terms (omega arith))
