-- ===== src/Dispatch/Set/Lines.antt =====
-- What `set` makes of a command line: the options on it, and what it ends with.
use petrush.Base.{
  ℕ, ◌≡◌, ◌≢◌, refl, sym, ap, ◌∙◌, Bool, true, false, not, ◌&&◌, ◌||◌, none, some, List, [], ◌∷◌,
  ◌++◌, arith, ◌==◌, append-nil,
}
use petrush.Base.Int.{ℤ, pos}
use petrush.Text.{Bytes, codes, str_eq}
use petrush.Expand.Options.{Options, shellopt_set}
use petrush.Expand.Positional.{or_empty}
use petrush.Dispatch.Shell.{Outer, Host}
use petrush.Dispatch.Set.{
  set_apply_letter, set_apply_o_name, set_letters, set_loop, set_then, builtin_set, SetArgs,
}

-- The options of `set`, with their letters and names.
pub data Flag : Type 0 where
  errexit nounset xtrace noclobber : Flag

abbrev pub letter_of : Flag → ℕ
letter_of errexit = b'e'
letter_of nounset = b'u'
letter_of xtrace = b'x'
letter_of noclobber = b'C'

abbrev pub name_of : Flag → Bytes
name_of errexit = codes "errexit"
name_of nounset = codes "nounset"
name_of xtrace = codes "xtrace"
name_of noclobber = codes "noclobber"

abbrev pub letters_of : List Flag → Bytes
letters_of [] = []
letters_of (f ∷ fs) = letter_of f ∷ letters_of fs

-- `noclobber` is always on, and cannot be turned off.
abbrev pub CanTurn : Bool → Flag → Type 0
CanTurn on errexit = Unit
CanTurn on nounset = Unit
CanTurn on xtrace = Unit
CanTurn on noclobber = on ≡ true

abbrev pub CanTurnAll : Bool → List Flag → Type 0
CanTurnAll on [] = Unit
CanTurnAll on (f ∷ fs) = CanTurn on f × CanTurnAll on fs

abbrev pub turn : Bool → Flag → Options → Options
turn on errexit o = record o { opt_e = on }
turn on nounset o = record o { opt_u = on }
turn on xtrace o = record o { opt_x = on }
turn on noclobber o = o

abbrev pub turn_all : Bool → List Flag → Options → Options
turn_all on [] o = o
turn_all on (f ∷ fs) o = turn_all on fs (turn on f o)

-- `-` turns on, `+` off: a word of letters, or `o` and a name.
pub data Setting : Type 0 where
  by_letters : Bool → Flag → List Flag → Setting
  by_name : Bool → Flag → Setting

abbrev pub sign : Bool → ℕ
sign true = b'-'
sign false = b'+'

abbrev pub written : List Setting → List Bytes → List Bytes
written [] args = args
written (by_letters on f fs ∷ ss) args = (sign on ∷ letters_of (f ∷ fs)) ∷ written ss args
written (by_name on f ∷ ss) args = (sign on ∷ codes "o") ∷ name_of f ∷ written ss args

abbrev pub Settable : List Setting → Type 0
Settable [] = Unit
Settable (by_letters on f fs ∷ ss) = CanTurnAll on (f ∷ fs) × Settable ss
Settable (by_name on f ∷ ss) = CanTurn on f × Settable ss

abbrev pub settled : List Setting → Options → Options
settled [] o = o
settled (by_letters on f fs ∷ ss) o = settled ss (turn_all on (f ∷ fs) o)
settled (by_name on f ∷ ss) o = settled ss (turn on f o)

-- A word that is not read as an option: empty, a sign alone, or one that begins with no sign.
abbrev pub is_operand : Bytes → Bool
is_operand [] = true
is_operand (c ∷ []) = true
is_operand (c ∷ d ∷ cs) = not (c == b'-' || c == b'+')

abbrev pub known_letter : Bool → ℕ → Bool
known_letter on c = c == b'e' || c == b'u' || c == b'x' || (c == b'C' && on)

abbrev pub known_name : Bool → Bytes → Bool
known_name on n =
    str_eq n (codes "errexit")
    || str_eq n (codes "nounset")
    || str_eq n (codes "xtrace")
    || (str_eq n (codes "noclobber") && on)

no_marker :
    (on : Bool) (f : Flag) (cs : Bytes)
    → (str_eq (sign on ∷ letter_of f ∷ cs) (codes "--") ≡ false)
      × (str_eq (letter_of f ∷ cs) (codes "o") ≡ false)
unfolding str_eq
no_marker true errexit cs = (refl, refl)
no_marker true nounset cs = (refl, refl)
no_marker true xtrace cs = (refl, refl)
no_marker true noclobber cs = (refl, refl)
no_marker false errexit cs = (refl, refl)
no_marker false nounset cs = (refl, refl)
no_marker false xtrace cs = (refl, refl)
no_marker false noclobber cs = (refl, refl)

set_apply_o_name-turn :
    (on : Bool) (f : Flag) (opts : Options)
    → CanTurn on f
    → set_apply_o_name (name_of f) on opts ≡ some (turn on f opts)
unfolding set_apply_o_name shellopt_set str_eq
set_apply_o_name-turn on errexit opts can = refl
set_apply_o_name-turn on nounset opts can = refl
set_apply_o_name-turn on xtrace opts can = refl
set_apply_o_name-turn on noclobber opts can = rw can refl

set_apply_letter-unknown :
    (on : Bool) (c : ℕ) (opts : Options)
    → known_letter on c ≡ false
    → set_apply_letter c on opts ≡ none
unfolding set_apply_letter
set_apply_letter-unknown on c opts h = ground arith

set_apply_o_name-unknown :
    (on : Bool) (name : Bytes) (opts : Options)
    → known_name on name ≡ false
    → set_apply_o_name name on opts ≡ none
unfolding set_apply_o_name
set_apply_o_name-unknown on name opts h = ground arith

letters-ne : (fs : List Flag) (c : ℕ) (cs : Bytes) → letters_of fs ++ (c ∷ cs) ≢ []
letters-ne [] c cs e = cc
letters-ne (f ∷ fs) c cs e = cc

and_none : (b : Bool) → (b && false) ≡ false
and_none true = refl
and_none false = refl

module _ {W : Type 0} where
  abbrev pub fails : Outer W → Options → Outer W × ℤ
  fails o opts = (record o { opts = opts; shell_abort = true }, pos 1)

  abbrev pub operands : Outer W → Options → List Bytes → Outer W × ℤ
  operands o opts args = (
    record o {
      opts = opts;
      positional = record { arg0 = some (or_empty o.positional.arg0); args = args };
    },
    pos 0,
  )

  -- What may stand behind the options, with the options that they lead to, and what `set` then gives.
  pub data Ending (o : Outer W) (opts : Options) : List Bytes → Outer W × ℤ → Type 0 where
    no_more : Ending o opts [] (record o { opts = opts }, pos 0)
    behind_marker : (args : List Bytes) → Ending o opts (codes "--" ∷ args) (operands o opts args)
    from_operand :
        (w : Bytes) (args : List Bytes)
        → is_operand w ≡ true
        → Ending o opts (w ∷ args) (operands o opts (w ∷ args))
    name_missing : (on : Bool) → Ending o opts ((sign on ∷ codes "o") ∷ []) (fails o opts)
    name_unknown :
        (on : Bool) (name : Bytes) (args : List Bytes)
        → known_name on name ≡ false
        → Ending o opts ((sign on ∷ codes "o") ∷ name ∷ args) (fails o opts)
    letter_unknown :
        (on : Bool) (fs : List Flag) (c : ℕ) (cs : Bytes) (args : List Bytes)
        → CanTurnAll on fs
        → known_letter on c ≡ false
        → str_eq (sign on ∷ (letters_of fs ++ (c ∷ cs))) (codes "--") ≡ false
        → str_eq (letters_of fs ++ (c ∷ cs)) (codes "o") ≡ false
        → Ending o opts
            ((sign on ∷ (letters_of fs ++ (c ∷ cs))) ∷ args)
            (fails o (turn_all on fs opts))

  set_letters-turn :
      (on : Bool) (f : Flag) (cs : Bytes) (next : SetArgs W) (o : Outer W)
      → CanTurn on f
      → set_letters (letter_of f ∷ cs) on next o
        ≡ set_letters cs on next (record o { opts = turn on f o.opts })
  unfolding set_letters set_apply_letter shellopt_set
  set_letters-turn on errexit cs next o can = refl
  set_letters-turn on nounset cs next o can = refl
  set_letters-turn on xtrace cs next o can = refl
  set_letters-turn on noclobber cs next o can = rw can refl

  set_letters-turn_all :
      (on : Bool) (fs : List Flag) (cs : Bytes) (next : SetArgs W) (o : Outer W)
      → CanTurnAll on fs
      → set_letters (letters_of fs ++ cs) on next o
        ≡ set_letters cs on next (record o { opts = turn_all on fs o.opts })
  set_letters-turn_all on [] cs next o can = refl
  set_letters-turn_all on (f ∷ fs) cs next o (can, all) =
      set_letters-turn on f (letters_of fs ++ cs) next o can
      ∙ set_letters-turn_all on fs cs next (record o { opts = turn on f o.opts }) all

  -- A word of letters in front of the arguments that are left.
  set_loop-letters :
      (on : Bool) (c : ℕ) (cs : Bytes) (args : List Bytes) (o : Outer W)
      → str_eq (sign on ∷ c ∷ cs) (codes "--") ≡ false
      → str_eq (c ∷ cs) (codes "o") ≡ false
      → set_loop ((sign on ∷ c ∷ cs) ∷ args) o ≡ set_letters (c ∷ cs) on (set_loop args) o
  unfolding set_loop
  set_loop-letters true c cs [] o m n = rw m (rw n refl)
  set_loop-letters true c cs (a ∷ args) o m n = rw m (rw n refl)
  set_loop-letters false c cs [] o m n = rw n refl
  set_loop-letters false c cs (a ∷ args) o m n = rw n refl

  set_loop-word :
      (on : Bool) (cs : Bytes) (args : List Bytes) (o : Outer W)
      → (cs ≢ [])
      → str_eq (sign on ∷ cs) (codes "--") ≡ false
      → str_eq cs (codes "o") ≡ false
      → set_loop ((sign on ∷ cs) ∷ args) o ≡ set_letters cs on (set_loop args) o
  set_loop-word on [] args o some_letter m n = absurd (some_letter refl)
  set_loop-word on (c ∷ cs) args o some_letter m n = set_loop-letters on c cs args o m n

  set_loop-operand :
      (w : Bytes) (args : List Bytes) (o : Outer W)
      → is_operand w ≡ true
      → set_loop (w ∷ args) o ≡ operands o o.opts (w ∷ args)
  unfolding set_loop str_eq
  set_loop-operand [] [] o h = refl
  set_loop-operand [] (a ∷ args) o h = refl
  set_loop-operand (c ∷ []) [] o h = rw (and_none (c == b'-')) refl
  set_loop-operand (c ∷ []) (a ∷ args) o h = rw (and_none (c == b'-')) refl
  set_loop-operand (c ∷ d ∷ cs) [] o h =
      let minus : (c == b'-') ≡ false = ground arith in
      let plus : (c == b'+') ≡ false = ground arith in rw minus (rw plus refl)
  set_loop-operand (c ∷ d ∷ cs) (a ∷ args) o h =
      let minus : (c == b'-') ≡ false = ground arith in
      let plus : (c == b'+') ≡ false = ground arith in rw minus (rw plus refl)

  builtin_set-loop :
      (h : Host W) (args : List Bytes) (o : Outer W)
      → args ≢ []
      → builtin_set h args o ≡ set_loop args o
  unfolding builtin_set
  builtin_set-loop h [] o some_args = absurd (some_args refl)
  builtin_set-loop h (a ∷ args) o some_args = refl

  set_loop-name :
      (on : Bool) (name : Bytes) (args : List Bytes) (o : Outer W)
      → set_loop ((sign on ∷ codes "o") ∷ name ∷ args) o
        ≡ set_then (set_apply_o_name name on o.opts) (set_loop args) o
  unfolding set_loop str_eq
  set_loop-name true name args o = refl
  set_loop-name false name args o = refl

  set_loop-written :
      (ss : List Setting) (args : List Bytes) (o : Outer W)
      → Settable ss
      → set_loop (written ss args) o ≡ set_loop args (record o { opts = settled ss o.opts })
  unfolding set_letters
  set_loop-written [] args o can = refl
  set_loop-written (by_letters on f fs ∷ ss) args o (can, all) =
      let (m, n) = no_marker on f (letters_of fs) in
      set_loop-letters on (letter_of f) (letters_of fs) (written ss args) o m n
      ∙ ap (λ cs. set_letters cs on (set_loop (written ss args)) o)
          (sym (append-nil {0} (letters_of (f ∷ fs))))
      ∙ set_letters-turn_all on (f ∷ fs) [] (set_loop (written ss args)) o can
      ∙ set_loop-written ss args (record o { opts = turn_all on (f ∷ fs) o.opts }) all
  set_loop-written (by_name on f ∷ ss) args o (can, all) =
      set_loop-name on (name_of f) (written ss args) o
      ∙ ap (λ r. set_then r (set_loop (written ss args)) o) (set_apply_o_name-turn on f o.opts can)
      ∙ set_loop-written ss args (record o { opts = turn on f o.opts }) all

  set_loop-Ending :
      (o : Outer W) (opts : Options) (args : List Bytes) (r : Outer W × ℤ)
      → Ending o opts args r
      → set_loop args (record o { opts = opts }) ≡ r
  unfolding set_loop set_letters str_eq
  set_loop-Ending o opts _ _ no_more = refl
  set_loop-Ending o opts _ _ (behind_marker []) = refl
  set_loop-Ending o opts _ _ (behind_marker (a ∷ args)) = refl
  set_loop-Ending o opts _ _ (from_operand w args h) = set_loop-operand w args _ h
  set_loop-Ending o opts _ _ (name_missing true) = refl
  set_loop-Ending o opts _ _ (name_missing false) = refl
  set_loop-Ending o opts _ _ (name_unknown on name args h) =
      set_loop-name on name args (record o { opts = opts })
      ∙ rw (set_apply_o_name-unknown on name opts h) refl
  set_loop-Ending o opts _ _ (letter_unknown on fs c cs args can h m n) =
      set_loop-word on (letters_of fs ++ (c ∷ cs)) args (record o { opts = opts })
        (λ e. letters-ne fs c cs e) m n
      ∙ set_letters-turn_all on fs (c ∷ cs) (set_loop args) (record o { opts = opts }) can
      ∙ rw (set_apply_letter-unknown on c (turn_all on fs opts) h) refl

  -- `set` applies the options on its command line from left to right, each as `-` or `+` and letters or
  -- as `-o` or `+o` and a name; `-` turns on and `+` off. Behind them: where nothing is left, or behind
  -- `--`, or from the first word on that is no option, it succeeds with status 0, and in the last two
  -- cases the words become the parameters, and $0 stays. A missing or unknown name, an unknown letter,
  -- and turning `noclobber` off fail with status 1 and end the script; the parameters stay, and so do
  -- the options that were applied before. Nothing else changes.
  pub builtin_set_lem :
      (h : Host W) (ss : List Setting) (args : List Bytes) (o : Outer W) (r : Outer W × ℤ)
      → Settable ss
      → Ending o (settled ss o.opts) args r
      → written ss args ≢ []
      → builtin_set h (written ss args) o ≡ r
  builtin_set_lem h ss args o r can end some_args =
      builtin_set-loop h (written ss args) o some_args
      ∙ set_loop-written ss args o can
      ∙ set_loop-Ending o (settled ss o.opts) args r end
