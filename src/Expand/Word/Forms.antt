-- ===== src/Expand/Word/Forms.antt =====
-- The forms of a parameter in a word: `$NAME`, `${NAME}`, `${#NAME}`, `${NAME:-word}`, `${NAME:+word}`.
use petrush.Base.{
  ℕ, suc, ◌+◌, ◌≡◌, ◌≢◌, refl, ap, ◌∙◌, Bool, true, false, not, ◌||◌, [], ◌∷◌, ◌++◌, arith, ◌==◌,
  if◌then◌else◌, length, length-append, Bool-cases, inl, inr, drop-append_left, append-nil, subst,
}
use petrush.Text.{Bytes, codes, at, AllBytes, decimal, is_digit, is_alpha}
use petrush.Expand.Positional.{or_empty}
use petrush.Expand.Arith.{is_name_char, run}
use petrush.Dispatch.Env.{is_nil}
use petrush.Dispatch.Shell.{Outer}
use petrush.Expand.Word.{
  emit, Expansion, Hook, nounset_check, lookup, brace_form, dollar_step, step, prefixed, then_on,
  proceed, expand_word, variable_step, operator_step,
}
use petrush.Expand.Word.Plain.{expand_text}
use petrush.Expand.Word.Braced.{
  run-IsNamed, at-behind, drop-behind, NoBrace, braced, expand_word-dollar, expand-emitted,
  expand-nested, name-NoBrace, NoBrace-append, length-name, name-head,
}

brace_form-name :
    {W : Type 0} (o : Outer W) (name : Bytes) (n : ℕ)
    → name ≢ []
    → AllBytes is_name_char name
    → brace_form o name n ≡ variable_step o name n
brace_form-name o name n h all =
    let whole : run is_name_char name ≡ name =
      subst (λ p. run is_name_char p ≡ name) (append-nil {0} name) (run-IsNamed name [] all refl) in
    let head : (at name 0 == b'#') ≡ false =
      subst (λ p. (at p 0 == b'#') ≡ false) (append-nil {0} name) (name-head name [] h all) in
    let same : (length name == length name) ≡ true = ground arith in
    rw head (rw whole (rw (length-name name h) (rw same refl)))

brace_form-length :
    {W : Type 0} (o : Outer W) (name : Bytes) (n : ℕ)
    → name ≢ []
    → AllBytes is_name_char name
    → brace_form o (b'#' ∷ name) n
      ≡ emit (nounset_check (lookup o name) o) (decimal (length (or_empty (lookup o name)))) n
brace_form-length o name n h all =
    let whole : run is_name_char name ≡ name =
      subst (λ p. run is_name_char p ≡ name) (append-nil {0} name) (run-IsNamed name [] all refl) in
    let same : (length name == length name) ≡ true = ground arith in
    rw whole (rw (length-name name h) (rw same refl))

brace_form-operator :
    {W : Type 0} (o : Outer W) (name word : Bytes) (op n : ℕ)
    → name ≢ []
    → AllBytes is_name_char name
    → (op == b'-' || op == b'+') ≡ true
    → brace_form o (name ++ (b':' ∷ op ∷ word)) n
      ≡ operator_step o op (or_empty (lookup o name)) word n
brace_form-operator o name word op n h all is_op =
    let inner = name ++ (b':' ∷ op ∷ word) in
    let e : length name ≡ length name + 0 = omega arith in
    let colon : at inner (length name) ≡ b':' = ap (at inner) e ∙ at-behind name _ 0 in
    let longer : (length name == length inner) ≡ false =
      ground (arith, length-append {0} name (b':' ∷ op ∷ word)) in
    rw (name-head name (b':' ∷ op ∷ word) h all) (
      rw (run-IsNamed name (b':' ∷ op ∷ word) all refl) (
        rw (length-name name h) (
          rw longer (
            rw colon (
              rw (at-behind name (b':' ∷ op ∷ word) 1)
                (rw is_op (rw (drop-behind name (b':' ∷ op ∷ word) 2) refl)))))))

step-variable :
    {W : Type 0} (hook : Hook W) (o : Outer W) (c : ℕ) (name rest : Bytes)
    → is_digit c ≡ false
    → AllBytes is_name_char (c ∷ name)
    → is_name_char (at rest 0) ≡ false
    → step hook false o b'$' (c ∷ name ++ rest)
      ≡ variable_step o (c ∷ name) (suc (length (c ∷ name)))
unfolding step dollar_step
step-variable hook o c name rest digit all ends =
    let solid : (c == 0) ≡ false = ground (arith, all.0) in
    let brace : (c == b'{') ≡ false = ground (arith, all.0) in
    let hash : (c == b'#') ≡ false = ground (arith, all.0) in
    let query : (c == b'?') ≡ false = ground (arith, all.0) in
    let minus : (c == b'-') ≡ false = ground (arith, all.0) in
    let at_sign : (c == b'@') ≡ false = ground (arith, all.0) in
    let star : (c == b'*') ≡ false = ground (arith, all.0) in
    let letter : (is_alpha c || false || c == b'_') ≡ true = ground (arith, all.0, digit) in
    rw solid (
      rw brace (
        rw hash (
          rw query (
            rw minus (
              rw at_sign
                (rw star (rw digit (rw letter (rw (run-IsNamed name rest all.1 ends) refl)))))))))

-- The value of the variable, or what the operator `op` puts in its place: the expansion of `word`.
abbrev pub operator_value :
    {W : Type 0}
    → Hook W
    → Outer W
    → ℕ
    → Bytes
    → Bytes
    → (Outer W → Bytes → Expansion W)
    → Expansion W
operator_value hook o op v word next =
    if (if op == b'-' then is_nil v else not (is_nil v))
    then then_on (expand_word hook o word) next
    else next o (if op == b'-' then v else [])

if-not {ℓ} : {A : Type ℓ} (b : Bool) (x y : A) → (if not b then x else y) ≡ (if b then y else x)
if-not true x y = refl
if-not false x y = refl

-- Both operators.
expand_word-operator :
    {W : Type 0} (hook : Hook W) (o : Outer W) (name word rest : Bytes) (op : ℕ)
    → name ≢ []
    → AllBytes is_name_char name
    → NoBrace word
    → (op == b'-' || op == b'+') ≡ true
    → expand_word hook o (braced (name ++ (b':' ∷ op ∷ word)) rest)
      ≡ operator_value hook o op
          (or_empty (lookup o name))
          word
          (λ o' t. prefixed t (expand_text hook false o' rest))
expand_word-operator hook o name word rest op named all free is_op =
    let inner = name ++ (b':' ∷ op ∷ word) in
    let v = or_empty (lookup o name) in
    let op_free : (not (op == b'}')) ≡ true = ground arith in
    let no_brace =
      NoBrace-append name (b':' ∷ op ∷ word) (name-NoBrace name all) (refl, (op_free, free)) in
    let form = brace_form-operator o name word op (length inner + 3) named all is_op in
    elim (Bool-cases (op == b'-')) [
      | inl minus ↦ elim (Bool-cases (is_nil v)) [
        | inl none_there ↦ rw minus (
            rw none_there (
              expand-nested hook o inner rest word no_brace (form ∙ rw minus (rw none_there refl))))
        | inr there ↦ rw minus (
            rw there
              (expand-emitted hook o o inner rest v no_brace (form ∙ rw minus (rw there refl))))
      ]
      | inr plus ↦ elim (Bool-cases (is_nil v)) [
        | inl none_there ↦ rw plus (
            rw none_there (
              expand-emitted hook o o inner rest [] no_brace (form ∙ rw plus (rw none_there refl))))
        | inr there ↦ rw plus (
            rw there
              (expand-nested hook o inner rest word no_brace (form ∙ rw plus (rw there refl))))
      ]
    ]

-- A text that is written in front of the expansion of the text behind it.
abbrev pub ahead : {W : Type 0} → Hook W → Bytes → Outer W → Bytes → Expansion W
ahead hook rest o t = prefixed t (expand_text hook false o rest)

-- `$NAME`, where no further byte of a name follows and the name begins with no digit, writes the value
-- of the variable; an unset variable counts as empty, and is an error with `set -u`.
expand_word-variable :
    {W : Type 0} (hook : Hook W) (o : Outer W) (c : ℕ) (name rest : Bytes)
    → is_digit c ≡ false
    → AllBytes is_name_char (c ∷ name)
    → is_name_char (at rest 0) ≡ false
    → expand_word hook o (b'$' ∷ c ∷ name ++ rest)
      ≡ ahead hook rest (nounset_check (lookup o (c ∷ name)) o) (or_empty (lookup o (c ∷ name)))
unfolding proceed
expand_word-variable hook o c name rest digit all ends =
    let v = lookup o (c ∷ name) in
    expand_word-dollar hook o (c ∷ name ++ rest)
    ∙ ap (proceed (expand_word hook) (expand_text hook false) o (b'$' ∷ c ∷ name ++ rest))
        (step-variable hook o c name rest digit all ends)
    ∙ ap (λ r. ahead hook r (nounset_check v o) (or_empty v)) (drop-append_left name rest)

-- The forms of a parameter between braces, in front of any text, for a name that is not empty and a
-- word without `}`: `${NAME}` writes the value of the variable and `${#NAME}` its length, where an
-- unset variable counts as empty, and is an error with `set -u`. `${NAME:-word}` writes the value, or
-- the expansion of the word where the variable is unset or empty; `${NAME:+word}` writes nothing where
-- it is unset or empty, else the expansion of the word; `set -u` does not count for these two. A name
-- is cut to 255 bytes. The text behind is expanded in the state that this leaves.
pub expand_word_forms :
    {W : Type 0} (hook : Hook W) (o : Outer W) (name word rest : Bytes)
    → name ≢ []
    → AllBytes is_name_char name
    → NoBrace word
    → (expand_word hook o (braced name rest)
        ≡ ahead hook rest (nounset_check (lookup o name) o) (or_empty (lookup o name)))
      × (expand_word hook o (braced (b'#' ∷ name) rest)
          ≡ ahead hook rest
              (nounset_check (lookup o name) o)
              (decimal (length (or_empty (lookup o name)))))
      × (expand_word hook o (braced (name ++ (codes ":-" ++ word)) rest) ≡ (
          if is_nil (or_empty (lookup o name))
          then then_on (expand_word hook o word) (ahead hook rest)
          else ahead hook rest o (or_empty (lookup o name))))
      × (expand_word hook o (braced (name ++ (codes ":+" ++ word)) rest) ≡ (
          if is_nil (or_empty (lookup o name))
          then ahead hook rest o []
          else then_on (expand_word hook o word) (ahead hook rest)))
expand_word_forms hook o name word rest named all free = (
  expand-emitted hook o _ name rest _ (name-NoBrace name all) (brace_form-name o name _ named all),
  expand-emitted hook o _ (b'#' ∷ name) rest _ (refl, name-NoBrace name all)
      (brace_form-length o name _ named all),
  expand_word-operator hook o name word rest b'-' named all free refl,
  expand_word-operator hook o name word rest b'+' named all free refl
      ∙ if-not (is_nil (or_empty (lookup o name))) _ _,
)
