-- ===== src/Expand/Word/Total.antt =====
-- Word expansion ends: every round passes a byte, and the word within braces is shorter than the text.
use petrush.Base.{
  ℕ, zero, suc, ◌+◌, ◌≤◌, ◌<◌, ◌≢◌, refl, Bool, true, false, not, ◌&&◌, ◌||◌, Option, none, some,
  [], ◌∷◌, arith, ltb, ◌==◌, if◌then◌else◌, length, drop, length-drop, Bool-cases, inl, inr,
}
use petrush.Text.{Bytes, at, is_digit}
use petrush.Parser.Span.{arith_span, cmdsubst_span}
use petrush.Expand.Arith.{Outcome, value, failed, undefined, out_of_fuel, is_name_char, run}
use petrush.Expand.Arith.Within.{Ends}
use petrush.Expand.Arith.Total.{eval_arith-Ends}
use petrush.Dispatch.Env.{is_nil}
use petrush.Dispatch.Shell.{Outer}
use petrush.Expand.Word.{
  Step, emit, nested, overflow, Expansion, done, overflowed, lacks_fuel, Hook, until_brace,
  operator_step, length_form, brace_form, expand_brace, arith_step, captured_step, cmdsubst_step,
  paren_step, dollar_step, escape_step, step, prefixed, then_on, proceed, with_tilde,
  expand_params_inner, expand_heredoc_body, expand_word,
}

-- The round passes at least one byte, and a word that it expands is shorter than `n` bytes.
pub data Progress {W : Type 0} (n : ℕ) : Step W → Type 0 where
  emits : {o : Outer W} {t : Bytes} {k : ℕ} → 0 < k → Progress n (emit o t k)
  nests : {w : Bytes} {k : ℕ} → 0 < k → length w < n → Progress n (nested w k)
  halts : Progress n overflow

passes_one : {W : Type 0} {n : ℕ} {o : Outer W} {t : Bytes} → Progress n (emit o t 1)
passes_one = emits (omega arith)

passes_two : {W : Type 0} {n : ℕ} {o : Outer W} {t : Bytes} → Progress n (emit o t 2)
passes_two = emits (omega arith)

if-Progress :
    {W : Type 0} {n : ℕ} (b : Bool) (x y : Step W)
    → Progress n x
    → Progress n y
    → Progress n (if b then x else y)
if-Progress true x y h k = h
if-Progress false x y h k = k

length-until_brace : (p : Bytes) → length (until_brace p) ≤ length p
unfolding until_brace
length-until_brace [] = omega arith
length-until_brace (c ∷ cs) = ground (arith, length-until_brace cs)

operator_step-Progress :
    {W : Type 0} (n : ℕ) (o : Outer W) (op : ℕ) (v word : Bytes) (k : ℕ)
    → 0 < k
    → length word < n
    → Progress n (operator_step o op v word k)
operator_step-Progress n o op v word k h l =
    if-Progress (op == b'-') _ _ (if-Progress (is_nil v) _ _ (nests h l) (emits h))
      (if-Progress (is_nil v) _ _ (emits h) (nests h l))

length_form-Progress :
    {W : Type 0} (n : ℕ) (o : Outer W) (inner : Bytes) (k : ℕ)
    → 0 < k
    → Progress n (length_form o inner k)
length_form-Progress n o inner k h =
    if-Progress (length (run is_name_char inner) == 0) _ _ (passes_one) (
      if-Progress (not (length (run is_name_char inner) == length inner)) _ _ (passes_one)
        (emits h))

brace_form-Progress :
    {W : Type 0} (n : ℕ) (o : Outer W) (inner : Bytes) (k : ℕ)
    → 0 < k
    → length inner < n
    → Progress n (brace_form o inner k)
brace_form-Progress n o inner k h l =
    if-Progress (at inner 0 == b'#') _ _ (length_form-Progress n o (drop 1 inner) k h) (
      if-Progress (length (run is_name_char inner) == 0) _ _ (passes_one) (
        if-Progress (length (run is_name_char inner) == length inner) _ _ (emits h) (
          if-Progress
            (at inner (length (run is_name_char inner)) == b':'
              && (at inner (length (run is_name_char inner) + 1) == b'-'
                  || at inner (length (run is_name_char inner) + 1) == b'+'))
            _ _
            (operator_step-Progress n o _ _ (drop (length (run is_name_char inner) + 2) inner) k h
              (omega (arith, length-drop (length (run is_name_char inner) + 2) inner)))
            (passes_one))))

expand_brace-Progress :
    {W : Type 0} (n : ℕ) (o : Outer W) (body : Bytes)
    → length body < n
    → Progress n (expand_brace o body)
unfolding expand_brace
expand_brace-Progress n o body l =
    if-Progress (not (at body (length (until_brace body)) == b'}')) _ _ passes_one (
      brace_form-Progress n o (until_brace body) (length (until_brace body) + 3) (omega arith)
        (omega (arith, length-until_brace body)))

arith_step-Progress :
    {W : Type 0} (n : ℕ) (o : Outer W) (r : Outcome) (k : ℕ)
    → r ≢ out_of_fuel
    → 0 < k
    → Progress n (arith_step o r k)
arith_step-Progress n o (value v rest) k h l = emits l
arith_step-Progress n o (failed e) k h l = emits l
arith_step-Progress n o undefined k h l = halts
arith_step-Progress n o out_of_fuel k h l = absurd (h refl)

captured_step-Progress :
    {W : Type 0} (n : ℕ) (r : Outer W × Option Bytes) (k : ℕ)
    → 0 < k
    → Progress n (captured_step r k)
captured_step-Progress n (o, none) k h = emits h
captured_step-Progress n (o, some t) k h = emits h

cmdsubst_step-Progress :
    {W : Type 0} (n : ℕ) (hook : Hook W) (o : Outer W) (p : Bytes) (k : ℕ)
    → 0 < k
    → Progress n (cmdsubst_step hook o p k)
cmdsubst_step-Progress n none o p k h = passes_one
cmdsubst_step-Progress n (some hook) o p k h = captured_step-Progress n _ k h

Ends-ne-fuel : (r : Outcome) → Ends r → r ≢ out_of_fuel
Ends-ne-fuel (value v rest) e = λ q. cc
Ends-ne-fuel (failed c) e = λ q. cc
Ends-ne-fuel undefined e = λ q. cc
Ends-ne-fuel out_of_fuel e = absurd e

paren_step-Progress :
    {W : Type 0} (n : ℕ) (hook : Hook W) (o : Outer W) (p : Bytes)
    → Progress n (paren_step hook o p)
paren_step-Progress n hook o p = elim (Bool-cases (ltb 0 (arith_span p))) [
  | inl is ↦ rw is (
      arith_step-Progress n o _ (arith_span p)
        (Ends-ne-fuel _ (eval_arith-Ends o.env o.positional _)) (ground arith))
  | inr other ↦ rw other (elim (Bool-cases (cmdsubst_span p == 0)) [
    | inl is ↦ rw is passes_one
    | inr some_span ↦
        rw some_span (cmdsubst_step-Progress n hook o p (cmdsubst_span p) (ground arith))
  ])
]

pub step-Progress :
    {W : Type 0} (hook : Hook W) (heredoc_escapes : Bool) (o : Outer W) (c : ℕ) (cs : Bytes)
    → Progress (suc (length cs)) (step hook heredoc_escapes o c cs)
unfolding step dollar_step escape_step
step-Progress hook heredoc_escapes o c cs =
    if-Progress (heredoc_escapes && c == b'\\') _ _
      (if-Progress (at cs 0 == b'$' || at cs 0 == b'`' || at cs 0 == b'\\') _ _ passes_two (
        if-Progress (at cs 0 == 10) _ _ passes_two
          (if-Progress (at cs 0 == 0) _ _ passes_one passes_two)))
      (if-Progress (c == b'$' && not (at cs 0 == 0)) _ _
        (if-Progress (at cs 0 == b'{') _ _
          (expand_brace-Progress (suc (length cs)) o (drop 2 (c ∷ cs))
            (omega (arith, length-drop 1 cs)))
          (if-Progress (at cs 0 == b'#') _ _ passes_two (
            if-Progress (at cs 0 == b'?') _ _ passes_two (
              if-Progress (at cs 0 == b'-') _ _ passes_two (
                if-Progress (at cs 0 == b'@' || at cs 0 == b'*') _ _ passes_two (
                  if-Progress (is_digit (at cs 0)) _ _ passes_two (
                    if-Progress (is_name_char (at cs 0)) _ _ (emits (omega arith)) (
                      if-Progress (at cs 0 == b'(') _ _
                        (paren_step-Progress (suc (length cs)) hook o (c ∷ cs)) passes_one))))))))
        passes_one)

-- The expansion is a text, or an overflow.
data Ended {W : Type 0} : Expansion W → Type 0 where
  ended : {o : Outer W} {t : Bytes} → Ended (done o t)
  ended_over : Ended overflowed

prefixed-Ended : {W : Type 0} (piece : Bytes) {r : Expansion W} → Ended r → Ended (prefixed piece r)
prefixed-Ended piece ended = ended
prefixed-Ended piece ended_over = ended_over

with_tilde-Ended :
    {W : Type 0} (inner : Outer W → Bytes → Expansion W) (o : Outer W) (w : Bytes)
    → Ended (inner o w)
    → Ended (with_tilde inner o w)
unfolding with_tilde
with_tilde-Ended inner o w h =
    elim (Bool-cases (at w 0 == b'~' && (at w 1 == 0 || at w 1 == b'/'))) [
      | inl e ↦ rw e ended
      | inr e ↦ rw e h
    ]

proceed-Ended :
    {W : Type 0} (word more : Outer W → Bytes → Expansion W) (o : Outer W) (p : Bytes) {st : Step W}
    → Progress (length p) st
    → ((o' : Outer W) (w : Bytes) → length w < length p → Ended (word o' w))
    → ((o' : Outer W) (w : Bytes) → length w < length p → Ended (more o' w))
    → 0 < length p
    → Ended (proceed word more o p st)
unfolding proceed
proceed-Ended word more o p (emits {o = o'} {t} {k} h) words mores some_text =
    prefixed-Ended t (mores o' (drop k p) (omega (arith, length-drop k p)))
proceed-Ended word more o p (nests {w} {k} h l) words mores some_text = go (word o w) (words o w l)
  where
    go :
        (r : Expansion _)
        → Ended r
        → Ended (then_on r (λ o' piece. prefixed piece (more o' (drop k p))))
    go (done o' t) e = prefixed-Ended t (mores o' (drop k p) (omega (arith, length-drop k p)))
    go overflowed e = ended_over
    go lacks_fuel e = e
proceed-Ended word more o p halts words mores some_text = ended_over

expand_params_inner-Ended :
    {W : Type 0} (hook : Hook W) (f : ℕ) (heredoc_escapes : Bool) (o : Outer W) (p : Bytes)
    → length p ≤ f
    → Ended (expand_params_inner hook f heredoc_escapes o p)
unfolding expand_params_inner
expand_params_inner-Ended hook f heredoc_escapes o [] h = ended
expand_params_inner-Ended hook zero heredoc_escapes o (c ∷ cs) h = absurd (omega arith)
expand_params_inner-Ended hook (suc f) heredoc_escapes o (c ∷ cs) h =
    proceed-Ended _ _ o (c ∷ cs) (step-Progress hook heredoc_escapes o c cs)
      (λ o' w l.
        with_tilde-Ended (expand_params_inner hook f false) o' w
          (expand_params_inner-Ended hook f false o' w (omega arith)))
      (λ o' w l. expand_params_inner-Ended hook f heredoc_escapes o' w (omega arith)) (omega arith)

Ended-ne-fuel : {W : Type 0} {r : Expansion W} → Ended r → r ≢ lacks_fuel
Ended-ne-fuel ended = λ e. cc
Ended-ne-fuel ended_over = λ e. cc

-- The expansion of a word, and that of the body of a here-document, end on every text, whatever the
-- hook of `$(...)` does: a round for each byte is enough, also for the words within braces.
pub expand_word-ne-fuel :
    {W : Type 0} (hook : Hook W) (o : Outer W) (w : Bytes)
    → (expand_word hook o w ≢ lacks_fuel) × (expand_heredoc_body hook o w ≢ lacks_fuel)
unfolding expand_word expand_heredoc_body
expand_word-ne-fuel hook o w = (
  Ended-ne-fuel (
      with_tilde-Ended (expand_params_inner hook (length w) false) o w
        (expand_params_inner-Ended hook (length w) false o w (omega arith))),
  Ended-ne-fuel (expand_params_inner-Ended hook (length w) true o w (omega arith)),
)
