-- ===== src/Expand/Word/Braced.antt =====
-- Words that begin with `${` and a text up to `}`: what the first round leads to.
use petrush.Base.{
  ℕ, suc, ◌+◌, ◌≡◌, ◌≢◌, refl, ap, ◌∙◌, false, not, [], ◌∷◌, ◌++◌, arith, ◌==◌, length, drop,
}
use petrush.Text.{Bytes, at, AllBytes}
use petrush.Expand.Arith.{is_name_char, run}
use petrush.Dispatch.Shell.{Outer}
use petrush.Expand.Word.{
  emit, nested, Hook, until_brace, brace_form, expand_brace, dollar_step, step, prefixed, then_on,
  proceed, expand_word,
}
use petrush.Expand.Word.Plain.{expand_text, expand_text-cons}

-- A name, with `rest` behind it that does not go on with it.
abbrev pub IsNamed : Bytes → Bytes → Type 0
IsNamed name rest = (name ≢ []) × AllBytes is_name_char name × (is_name_char (at rest 0) ≡ false)

pub run-IsNamed :
    (name rest : Bytes)
    → AllBytes is_name_char name
    → is_name_char (at rest 0) ≡ false
    → run is_name_char (name ++ rest) ≡ name
unfolding run
run-IsNamed [] [] all h = refl
run-IsNamed [] (c ∷ rest) all h = rw h refl
run-IsNamed (c ∷ name) rest all h = rw (all.0) (ap (◌∷◌ c) (run-IsNamed name rest all.1 h))

pub at-behind : (a b : Bytes) (i : ℕ) → at (a ++ b) (length a + i) ≡ at b i
at-behind [] b i = let e : 0 + i ≡ i = omega arith in ap (at b) e
at-behind (c ∷ a) b i =
    let e : suc (length a) + i ≡ suc (length a + i) = omega arith in
    ap (at (c ∷ a ++ b)) e ∙ at-behind a b i

pub drop-behind : (a b : Bytes) (i : ℕ) → drop (length a + i) (a ++ b) ≡ drop i b
drop-behind [] b i = let e : 0 + i ≡ i = omega arith in ap (λ n. drop n b) e
drop-behind (c ∷ a) b i =
    let e : suc (length a) + i ≡ suc (length a + i) = omega arith in
    ap (λ n. drop n (c ∷ a ++ b)) e ∙ drop-behind a b i

abbrev pub NoBrace : Bytes → Type 0
NoBrace p = AllBytes (λ c. not (c == b'}')) p

until_brace-NoBrace : (p rest : Bytes) → NoBrace p → until_brace (p ++ (b'}' ∷ rest)) ≡ p
unfolding until_brace
until_brace-NoBrace [] rest all = refl
until_brace-NoBrace (c ∷ p) rest all =
    let bare : (c == b'}') ≡ false = ground (arith, all.0) in
    rw bare (ap (◌∷◌ c) (until_brace-NoBrace p rest all.1))

-- `${`, the text within, `}` and what follows.
abbrev pub braced : Bytes → Bytes → Bytes
braced inner rest = b'$' ∷ b'{' ∷ (inner ++ (b'}' ∷ rest))

pub expand_word-dollar :
    {W : Type 0} (hook : Hook W) (o : Outer W) (cs : Bytes)
    → expand_word hook o (b'$' ∷ cs)
      ≡ proceed
          (expand_word hook)
          (expand_text hook false)
          o
          (b'$' ∷ cs)
          (step hook false o b'$' cs)
unfolding expand_word
expand_word-dollar hook o cs = expand_text-cons hook false o b'$' cs

step-braced :
    {W : Type 0} (hook : Hook W) (o : Outer W) (inner rest : Bytes)
    → NoBrace inner
    → step hook false o b'$' (b'{' ∷ (inner ++ (b'}' ∷ rest)))
      ≡ brace_form o inner (length inner + 3)
unfolding step dollar_step expand_brace
step-braced hook o inner rest all =
    let e : length inner ≡ length inner + 0 = omega arith in
    let closes : at (inner ++ (b'}' ∷ rest)) (length inner) ≡ b'}' =
      ap (at (inner ++ (b'}' ∷ rest))) e ∙ at-behind inner (b'}' ∷ rest) 0 in
    rw (until_brace-NoBrace inner rest all) (rw closes refl)

drop-braced : (inner rest : Bytes) → drop (length inner + 3) (braced inner rest) ≡ rest
drop-braced inner rest =
    let e : length inner + 3 ≡ suc (suc (length inner + 1)) = omega arith in
    ap (λ n. drop n (braced inner rest)) e ∙ drop-behind inner (b'}' ∷ rest) 1

pub expand-emitted :
    {W : Type 0} (hook : Hook W) (o o' : Outer W) (inner rest t : Bytes)
    → NoBrace inner
    → brace_form o inner (length inner + 3) ≡ emit o' t (length inner + 3)
    → expand_word hook o (braced inner rest) ≡ prefixed t (expand_text hook false o' rest)
unfolding proceed
expand-emitted hook o o' inner rest t all e =
    expand_word-dollar hook o (b'{' ∷ (inner ++ (b'}' ∷ rest)))
    ∙ ap (proceed (expand_word hook) (expand_text hook false) o (braced inner rest))
        (step-braced hook o inner rest all ∙ e)
    ∙ ap (λ r. prefixed t (expand_text hook false o' r)) (drop-braced inner rest)

pub expand-nested :
    {W : Type 0} (hook : Hook W) (o : Outer W) (inner rest w : Bytes)
    → NoBrace inner
    → brace_form o inner (length inner + 3) ≡ nested w (length inner + 3)
    → expand_word hook o (braced inner rest)
      ≡ then_on (expand_word hook o w) (λ o' t. prefixed t (expand_text hook false o' rest))
unfolding proceed
expand-nested hook o inner rest w all e =
    expand_word-dollar hook o (b'{' ∷ (inner ++ (b'}' ∷ rest)))
    ∙ ap (proceed (expand_word hook) (expand_text hook false) o (braced inner rest))
        (step-braced hook o inner rest all ∙ e)
    ∙ ap (λ r. then_on (expand_word hook o w) (λ o' t. prefixed t (expand_text hook false o' r)))
        (drop-braced inner rest)

pub name-NoBrace : (name : Bytes) → AllBytes is_name_char name → NoBrace name
name-NoBrace [] all = tt
name-NoBrace (c ∷ name) all = (ground (arith, all.0), name-NoBrace name all.1)

pub NoBrace-append : (a b : Bytes) → NoBrace a → NoBrace b → NoBrace (a ++ b)
NoBrace-append [] b ha hb = hb
NoBrace-append (c ∷ a) b ha hb = (ha.0, NoBrace-append a b ha.1 hb)

pub length-name : (name : Bytes) → name ≢ [] → (length name == 0) ≡ false
length-name [] h = absurd (h refl)
length-name (c ∷ name) h = ground arith

pub name-head :
    (name rest : Bytes)
    → name ≢ []
    → AllBytes is_name_char name
    → ((at (name ++ rest) 0 == b'#') ≡ false)
name-head [] rest h all = absurd (h refl)
name-head (c ∷ name) rest h all = ground (arith, all.0)
