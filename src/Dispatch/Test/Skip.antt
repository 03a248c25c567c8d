-- ===== src/Dispatch/Test/Skip.antt =====
-- Skipping a term of `[[`, and the end of the evaluation.
use petrush.Base.{
  some-ne-none, some-inj, ℕ, zero, suc, ◌≤◌, ◌≡◌, ◌≢◌, refl, sym, ap, ◌∙◌, Bool, true, false, not,
  ◌&&◌, Option, none, some, List, [], ◌∷◌, ◌==◌, if◌then◌else◌, length, arith, inl, inr, Bool-cases,
  Option-cases,
}
use petrush.Text.{Bytes, codes, str_eq}
use petrush.Dispatch.Test.{
  FileTest, Word, is_bang, Primary, missing, unary, binary, string, primary_of, eval_primary,
  dbr_eval_term, words_after, dbr_skip_term, joined, dbr_loop, dbr_eval_expr,
}

-- There is no term behind the `!`.
unfoldable pub only_bangs : List Word → Bool
only_bangs [] = true
only_bangs (w ∷ ws) = is_bang w && only_bangs ws

module _ (file_is : FileTest → Bytes → Bool) where
  -- A primary that stands in front takes the same words whether it is evaluated or skipped.
  words_after-eval : (p : Primary) → p ≢ missing → words_after p ≡ some (eval_primary file_is p).1
  unfolding eval_primary
  words_after-eval missing ne = absurd (ne refl)
  words_after-eval (unary op operand rest) ne = refl
  words_after-eval (binary lhs op (rhs, q) rest) ne = refl
  words_after-eval (string s rest) ne = refl

  primary_of-ne : (w : Word) (ws : List Word) → primary_of (w ∷ ws) ≢ missing
  primary_of-ne (w, q) [] = λ e. cc
  primary_of-ne (w, q) ((v, q') ∷ []) = ground arith
  primary_of-ne (w, q) ((v, q') ∷ r ∷ rest) = ground arith

  -- A term that is skipped takes the words that it takes when it is evaluated; only where there is
  -- no term behind the `!` both are errors.
  pub dbr_skip_term-eval :
      (neg : Bool) (ws : List Word)
      → (dbr_skip_term ws ≡ (if only_bangs ws then none else some (dbr_eval_term file_is neg ws).1))
        × (only_bangs ws ≡ true → (dbr_eval_term file_is neg ws).0 ≡ 2)
  unfolding dbr_skip_term dbr_eval_term only_bangs
  dbr_skip_term-eval neg [] = (refl, λ h. refl)
  dbr_skip_term-eval neg (w ∷ ws) = elim (Bool-cases (is_bang w)) [
    | inl bang ↦ rw bang (dbr_skip_term-eval (not neg) ws)
    | inr other ↦ rw other (words_after-eval (primary_of (w ∷ ws)) (primary_of-ne w ws), λ h. cc)
  ]

  length-eval_primary :
      (w : Word) (ws : List Word)
      → length (eval_primary file_is (primary_of (w ∷ ws))).1 ≤ length ws
  unfolding eval_primary
  length-eval_primary (w, q) [] = omega arith
  length-eval_primary (w, q) ((v, q') ∷ []) = ground arith
  length-eval_primary (w, q) ((v, q') ∷ (r, q'') ∷ rest) = ground arith

  length-dbr_eval_term :
      (neg : Bool) (ws : List Word) → length (dbr_eval_term file_is neg ws).1 ≤ length ws
  unfolding dbr_eval_term
  length-dbr_eval_term neg [] = omega arith
  length-dbr_eval_term neg (w ∷ ws) =
      ground (arith, length-dbr_eval_term (not neg) ws, length-eval_primary w ws)

  skip-shorter : (ws rest : List Word) → dbr_skip_term ws ≡ some rest → length rest ≤ length ws
  skip-shorter ws rest e = elim (Bool-cases (only_bangs ws)) [
    | inl none_there ↦
        let shape = (dbr_skip_term-eval false ws).0 in
        absurd (
          some-ne-none (
            sym e
            ∙ shape
            ∙ ap (λ b. if b then none else some (dbr_eval_term file_is false ws).1) none_there))
    | inr there ↦
        let shape = (dbr_skip_term-eval false ws).0 in
        let taken : some rest ≡ some (dbr_eval_term file_is false ws).1 =
          sym e
          ∙ shape
          ∙ ap (λ b. if b then none else some (dbr_eval_term file_is false ws).1) there in
        omega (arith, length-dbr_eval_term false ws, ap length (some-inj taken))
  ]

  eval-total :
      (st : ℕ) (ws : List Word) (next : ℕ → List Word → Option ℕ)
      → ((r : ℕ) (rest : List Word) → length rest ≤ length ws → (n : ℕ) × (next r rest ≡ some n))
      → (n : ℕ) × ((if (dbr_eval_term file_is false ws).0 == 2
            then some 2
            else next (dbr_eval_term file_is false ws).0 (dbr_eval_term file_is false ws).1)
          ≡ some n)
  eval-total st ws next ends = elim (Bool-cases ((dbr_eval_term file_is false ws).0 == 2)) [
    | inl error ↦ rw error (2, refl)
    | inr fine ↦ rw fine (ends _ _ (length-dbr_eval_term false ws))
  ]

  joined-total :
      (taken : Bool) (st : ℕ) (ws : List Word) (next : ℕ → List Word → Option ℕ)
      → ((r : ℕ) (rest : List Word) → length rest ≤ length ws → (n : ℕ) × (next r rest ≡ some n))
      → (n : ℕ) × (joined file_is taken st ws next ≡ some n)
  joined-total taken st ws next ends = elim (Bool-cases (st == 2)) [
    | inl error ↦ rw error (2, refl)
    | inr fine ↦ rw fine (elim (Bool-cases taken) [
      | inl yes_taken ↦ rw yes_taken (eval-total st ws next ends)
      | inr passed ↦ rw passed (elim (Option-cases (dbr_skip_term ws)) [
        | inl e ↦ rw e (2, refl)
        | inr (rest, e) ↦ rw e (ends st rest (skip-shorter ws rest e))
      ])
    ])
  ]

  dbr_loop-total :
      (f st : ℕ) (ws : List Word) → length ws ≤ f → (n : ℕ) × (dbr_loop file_is f st ws ≡ some n)
  unfolding dbr_loop
  dbr_loop-total f st [] h = (st, refl)
  dbr_loop-total zero st (w ∷ ws) h = absurd (omega arith)
  dbr_loop-total (suc f) st ((op, q) ∷ ws) h =
      let ends : (taken : Bool)
          → (n : ℕ) × (joined file_is taken st ws (dbr_loop file_is f) ≡ some n) =
        λ taken.
          joined-total taken st ws (dbr_loop file_is f)
            (λ r rest le. dbr_loop-total f r rest (omega arith)) in
      elim (Bool-cases (str_eq op (codes "&&"))) [
        | inl conj ↦ rw conj (ends (st == 0))
        | inr other ↦ rw other (elim (Bool-cases (str_eq op (codes "||"))) [
          | inl disj ↦ rw disj (ends (not (st == 0)))
          | inr neither ↦ rw neither (2, refl)
        ])
      ]

  -- The evaluation of `[[` ends on every list of words.
  pub dbr_eval_expr-total : (ws : List Word) → (n : ℕ) × (dbr_eval_expr file_is ws ≡ some n)
  unfolding dbr_eval_expr
  dbr_eval_expr-total [] = (1, refl)
  dbr_eval_expr-total (w ∷ ws) =
      let (st, rest) = dbr_eval_term file_is false (w ∷ ws) in
      dbr_loop-total (length rest) st rest (omega arith)
