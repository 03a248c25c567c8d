-- ===== src/Expand/Word/Plain.antt =====
-- Word expansion without its fuel, and the text that it leaves as it is.
use petrush.Base.{
  ℕ, zero, suc, ◌≤◌, ◌<◌, ◌≡◌, refl, sym, ap, ◌∙◌, Bool, true, false, not, ◌&&◌, ◌||◌, [], ◌∷◌,
  ◌++◌, arith, ◌==◌, if◌then◌else◌, length, drop, length-drop, append_assoc, Bool-cases, inl, inr,
}
use petrush.Text.{Bytes, codes, at, AllBytes}
use petrush.Expand.Positional.{or_empty}
use petrush.Dispatch.Shell.{Outer}
use petrush.Expand.Word.{
  Step, Expansion, done, overflowed, lacks_fuel, Hook, escape_step, step, prefixed, then_on,
  proceed, with_tilde, expand_params_inner, expand_heredoc_body, expand_word,
}
use petrush.Expand.Word.Total.{Progress, emits, nests, halts, step-Progress}

-- Two functions give the same on texts shorter than `n`.
abbrev Agree :
    {W : Type 0} → ℕ → (Outer W → Bytes → Expansion W) → (Outer W → Bytes → Expansion W) → Type 0
Agree {W} n e e' = (o : Outer W) (w : Bytes) → length w < n → e o w ≡ e' o w

proceed-Agree :
    {W : Type 0} (word word' more more' : Outer W → Bytes → Expansion W) (o : Outer W) (p : Bytes)
    {st : Step W}
    → Progress (length p) st
    → 0 < length p
    → Agree (length p) word word'
    → Agree (length p) more more'
    → proceed word more o p st ≡ proceed word' more' o p st
unfolding proceed
proceed-Agree word word' more more' o p (emits {o = o'} {t} {k} h) some_text words mores =
    ap (prefixed t) (mores o' (drop k p) (omega (arith, length-drop k p)))
proceed-Agree word word' more more' o p (nests {w} {k} h l) some_text words mores =
    ap (λ r. then_on r (λ o' piece. prefixed piece (more o' (drop k p)))) (words o w l)
    ∙ next (word' o w)
  where
    next :
        (r : Expansion _)
        → then_on r (λ o' piece. prefixed piece (more o' (drop k p)))
          ≡ then_on r (λ o' piece. prefixed piece (more' o' (drop k p)))
    next (done o' t) = ap (prefixed t) (mores o' (drop k p) (omega (arith, length-drop k p)))
    next overflowed = refl
    next lacks_fuel = refl
proceed-Agree word word' more more' o p halts some_text words mores = refl

with_tilde-same :
    {W : Type 0} (e e' : Outer W → Bytes → Expansion W) (o : Outer W) (w : Bytes)
    → e o w ≡ e' o w
    → with_tilde e o w ≡ with_tilde e' o w
unfolding with_tilde
with_tilde-same e e' o w h =
    ap
      (λ r.
        if at w 0 == b'~' && (at w 1 == 0 || at w 1 == b'/')
        then done o (or_empty (o.env (codes "HOME")) ++ drop 1 w)
        else r)
      h

-- Any fuel that is enough gives the same.
expand-Agree :
    {W : Type 0} (hook : Hook W) (f g : ℕ) (heredoc_escapes : Bool) (o : Outer W) (p : Bytes)
    → length p ≤ f
    → length p ≤ g
    → expand_params_inner hook f heredoc_escapes o p
      ≡ expand_params_inner hook g heredoc_escapes o p
unfolding expand_params_inner
expand-Agree hook f g heredoc_escapes o [] hf hg = refl
expand-Agree hook zero g heredoc_escapes o (c ∷ cs) hf hg = absurd (omega arith)
expand-Agree hook (suc f) zero heredoc_escapes o (c ∷ cs) hf hg = absurd (omega arith)
expand-Agree hook (suc f) (suc g) heredoc_escapes o (c ∷ cs) hf hg =
    proceed-Agree (with_tilde (expand_params_inner hook f false))
      (with_tilde (expand_params_inner hook g false)) (expand_params_inner hook f heredoc_escapes)
      (expand_params_inner hook g heredoc_escapes) o (c ∷ cs)
      (step-Progress hook heredoc_escapes o c cs) (omega arith)
      (λ o' w l.
        with_tilde-same (expand_params_inner hook f false) (expand_params_inner hook g false) o' w
          (expand-Agree hook f g false o' w (omega arith) (omega arith)))
      λ o' w l. expand-Agree hook f g heredoc_escapes o' w (omega arith) (omega arith)

-- The loop over a text, without the test for `~` in front.
abbrev pub expand_text : {W : Type 0} → Hook W → Bool → Outer W → Bytes → Expansion W
expand_text hook heredoc_escapes o p = expand_params_inner hook (length p) heredoc_escapes o p

-- The recursion of the source.
pub expand_text-cons :
    {W : Type 0} (hook : Hook W) (heredoc_escapes : Bool) (o : Outer W) (c : ℕ) (cs : Bytes)
    → expand_text hook heredoc_escapes o (c ∷ cs)
      ≡ proceed
          (expand_word hook)
          (expand_text hook heredoc_escapes)
          o
          (c ∷ cs)
          (step hook heredoc_escapes o c cs)
unfolding expand_params_inner expand_word
expand_text-cons hook heredoc_escapes o c cs =
    proceed-Agree (with_tilde (expand_params_inner hook (length cs) false)) (expand_word hook)
      (expand_params_inner hook (length cs) heredoc_escapes) (expand_text hook heredoc_escapes) o
      (c ∷ cs) (step-Progress hook heredoc_escapes o c cs) (omega arith)
      (λ o' w l.
        with_tilde-same (expand_params_inner hook (length cs) false)
          (expand_params_inner hook (length w) false) o' w
          (expand-Agree hook (length cs) (length w) false o' w (omega arith) (omega arith)))
      λ o' w l.
        expand-Agree hook (length cs) (length w) heredoc_escapes o' w (omega arith) (omega arith)

prefixed-append :
    {W : Type 0} (a b : Bytes) (r : Expansion W) → prefixed a (prefixed b r) ≡ prefixed (a ++ b) r
prefixed-append a b (done o t) = ap (done o) (sym (append_assoc {0} a b t))
prefixed-append a b overflowed = refl
prefixed-append a b lacks_fuel = refl

prefixed-nil : {W : Type 0} (r : Expansion W) → prefixed [] r ≡ r
prefixed-nil (done o t) = refl
prefixed-nil overflowed = refl
prefixed-nil lacks_fuel = refl

-- Text without `$` is written as it is, whatever follows.
pub expand_text-plain :
    {W : Type 0} (hook : Hook W) (o : Outer W) (w rest : Bytes)
    → AllBytes (λ c. not (c == b'$')) w
    → expand_text hook false o (w ++ rest) ≡ prefixed w (expand_text hook false o rest)
unfolding step proceed
expand_text-plain hook o [] rest all = sym (prefixed-nil _)
expand_text-plain hook o (c ∷ w) rest all =
    let bare : (c == b'$') ≡ false = ground (arith, all.0) in
    expand_text-cons hook false o c (w ++ rest)
    ∙ rw bare (
        ap (prefixed (c ∷ [])) (expand_text-plain hook o w rest all.1)
        ∙ prefixed-append (c ∷ []) w (expand_text hook false o rest))

abbrev pub needs_escape : ℕ → Bool
needs_escape c = c == b'$' || c == b'`' || c == b'\\'

-- A text with a backslash in front of each `$`, each backquote and each backslash.
abbrev pub escaped : Bytes → Bytes
escaped [] = []
escaped (c ∷ cs) = if needs_escape c then b'\\' ∷ c ∷ escaped cs else c ∷ escaped cs

expand_text-escaped :
    {W : Type 0} (hook : Hook W) (o : Outer W) (t : Bytes)
    → expand_text hook true o (escaped t) ≡ done o t
unfolding step proceed escape_step expand_params_inner
expand_text-escaped hook o [] = refl
expand_text-escaped hook o (c ∷ cs) = elim (Bool-cases (needs_escape c)) [
  | inl e ↦ rw e (
      expand_text-cons hook true o b'\\' (c ∷ escaped cs)
      ∙ rw e (ap (prefixed (c ∷ [])) (expand_text-escaped hook o cs)))
  | inr e ↦
      let bare : (c == b'$') ≡ false = ground arith in
      let no_escape : (c == b'\\') ≡ false = ground arith in
      rw e (
        expand_text-cons hook true o c (escaped cs)
        ∙ rw no_escape (rw bare (ap (prefixed (c ∷ [])) (expand_text-escaped hook o cs))))
]

-- The body of a here-document, with its `$`, backquotes and backslashes escaped, expands to the text
-- itself, and the state stays as it was.
pub expand_heredoc_body-escaped :
    {W : Type 0} (hook : Hook W) (o : Outer W) (t : Bytes)
    → expand_heredoc_body hook o (escaped t) ≡ done o t
unfolding expand_heredoc_body
expand_heredoc_body-escaped hook o t = expand_text-escaped hook o t
