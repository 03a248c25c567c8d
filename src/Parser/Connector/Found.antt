-- ===== src/Parser/Connector/Found.antt =====
-- What `find_list_connector` finds: its bounds, and that it is the first connector outside quotes.
use petrush.Base.{
  ℕ, zero, suc, ◌+◌, ◌≤◌, ◌<◌, ◌≡◌, ◌⊎◌, refl, sym, ap, ◌∙◌, subst, Bool, true, false, ◌||◌, Option,
  none, some, [], ◌∷◌, ◌++◌, not, arith, ◌==◌, if◌then◌else◌, length, drop, length-drop,
  length-append, append_assoc, drop-append_left, append-nil, inl, inr,
}
use petrush.Text.{Bytes, at, AllBytes}
use petrush.Parser.Span.{is_quote}
use petrush.Parser.Token.{group_rest}
use petrush.Parser.Connector.{
  RunCond, cond_always, cond_and, cond_or, Connector, connector_at, quote_after, first_of,
  is_unquoted, scan, back, find_list_connector,
}

-- The bytes that connectors are made of.
abbrev pub is_connector : ℕ → Bool
is_connector c = c == b'&' || c == b'|' || c == b';'

-- A connector of a text whose first byte is byte `i`.
abbrev pub Lies : ℕ → Bytes → Connector → Type 0
Lies i p k =
    (n : ℕ) × (k.pos ≡ i + n)
    × (n < length p)
    × (n + k.len ≤ length p)
    × (is_connector (at p n) ≡ true)

connector_at-Lies :
    (before2 before1 c i : ℕ) (cs : Bytes) (k : Connector)
    → connector_at before2 before1 c cs i ≡ some k
    → Lies i (c ∷ cs) k
unfolding connector_at
connector_at-Lies before2 before1 c i [] k e =
    (0, ground arith, omega arith, ground arith, ground arith)
connector_at-Lies before2 before1 c i (d ∷ ds) k e =
    (0, ground arith, omega arith, ground arith, ground arith)

Lies-suc : (c i : ℕ) (cs : Bytes) (k : Connector) → Lies (i + 1) cs k → Lies i (c ∷ cs) k
Lies-suc c i cs k (n, e, lt, le, is) = (suc n, omega arith, omega arith, omega arith, is)

pub first_of-cases :
    (a b : Option Connector) (k : Connector) → first_of a b ≡ some k → (a ≡ some k) ⊎ (b ≡ some k)
first_of-cases none b k e = inr e
first_of-cases (some a) b k e = inl e

pub if-some :
    (b : Bool) (o : Option Connector) (k : Connector)
    → (if b then o else none) ≡ some k
    → o ≡ some k
if-some true o k e = e
if-some false o k e = absurd cc

scan-Lies :
    (skip quote before2 before1 i : ℕ) (p : Bytes) (k : Connector)
    → scan skip quote before2 before1 i p ≡ some k
    → Lies i p k
unfolding scan
scan-Lies skip quote before2 before1 i [] k e = absurd cc
scan-Lies (suc skip) quote before2 before1 i (c ∷ cs) k e =
    Lies-suc c i cs k (scan-Lies skip quote before1 c (i + 1) cs k e)
scan-Lies zero quote before2 before1 i (c ∷ cs) k e = elim (first_of-cases _ _ k e) [
  | inl here ↦ connector_at-Lies before2 before1 c i cs k (if-some (is_unquoted quote c) _ k here)
  | inr later ↦ Lies-suc c i cs k (scan-Lies _ _ before1 c (i + 1) cs k later)
]

pub at-drop : (n : ℕ) (p : Bytes) (i : ℕ) → at (drop n p) i ≡ at p (n + i)
at-drop zero p i = let e : i ≡ 0 + i = omega arith in ap (at p) e
at-drop (suc n) [] i = refl
at-drop (suc n) (c ∷ p) i =
    let e : suc (n + i) ≡ suc n + i = omega arith in at-drop n p i ∙ ap (at (c ∷ p)) e

-- A connector that is found from a position on stands at or behind it and ends within the text, and
-- begins with one of the bytes `&`, `|` and `;`.
pub find_list_connector-Lies :
    (s : Bytes) (from : ℕ) (k : Connector)
    → find_list_connector s from ≡ some k
    → (from ≤ k.pos)
      × (k.pos < length s)
      × (k.pos + k.len ≤ length s)
      × (is_connector (at s k.pos) ≡ true)
unfolding find_list_connector
find_list_connector-Lies s from k e =
    let (n, place, lt, le, is) = scan-Lies 0 0 _ _ from (drop from s) k e in
    let left = length-drop from s in
    (
      omega arith,
      omega arith,
      omega arith,
      subst (λ j. is_connector (at s j) ≡ true) (sym place)
          (subst (λ c. is_connector c ≡ true) (at-drop from s n) is),
    )

abbrev pub is_quiet : ℕ → Bool
is_quiet c = not (is_quote c || c == b'$' || is_connector c)

-- Text that hides no connector and opens none: plain bytes, quoted parts, a lone `|`, and the
-- redirections `&>` and `2>&1`.
pub data Quiet : Bytes → Type 0 where
  quiet_end : Quiet []
  quiet_byte : {c : ℕ} {p : Bytes} → is_quiet c ≡ true → Quiet p → Quiet (c ∷ p)
  quiet_quoted :
      {q : ℕ} {p : Bytes} (body : Bytes)
      → is_quote q ≡ true
      → AllBytes (λ c. not (c == q)) body
      → Quiet p
      → Quiet (q ∷ body ++ (q ∷ p))
  quiet_pipe : {c : ℕ} {p : Bytes} → (c == b'|') ≡ false → Quiet (c ∷ p) → Quiet (b'|' ∷ c ∷ p)
  quiet_both : {p : Bytes} → Quiet p → Quiet (b'&' ∷ b'>' ∷ p)
  quiet_merge : {p : Bytes} → Quiet p → Quiet (b'2' ∷ b'>' ∷ b'&' ∷ b'1' ∷ p)

connector_at-quiet :
    (before2 before1 c i : ℕ) (cs : Bytes)
    → is_quiet c ≡ true
    → connector_at before2 before1 c cs i ≡ none
unfolding connector_at
connector_at-quiet before2 before1 c i cs h = ground arith

connector_at-bar :
    (before2 before1 c i : ℕ) (cs : Bytes)
    → (c == b'|') ≡ false
    → connector_at before2 before1 b'|' (c ∷ cs) i ≡ none
unfolding connector_at
connector_at-bar before2 before1 c i cs h = ground arith

-- A byte outside quotes that is no quote and no `$` and where no connector stands.
scan-passed :
    (before2 before1 i c : ℕ) (cs : Bytes)
    → (is_quote c || c == b'$') ≡ false
    → connector_at before2 before1 c cs i ≡ none
    → scan 0 0 before2 before1 i (c ∷ cs) ≡ scan 0 0 before1 c (i + 1) cs
unfolding scan group_rest
scan-passed before2 before1 i c cs h k =
    let bare : is_unquoted 0 c ≡ true = ground arith in
    let shut : quote_after 0 c ≡ 0 = ground arith in
    let plain : (c == b'$') ≡ false = ground arith in rw bare (rw k (rw plain (rw shut refl)))

-- The rest of the text gives the result `f j` where it begins at byte j, whatever stands before it.
abbrev pub Gives : Bytes → (ℕ → Option Connector) → Type 0
Gives p f = (before2 before1 j : ℕ) → scan 0 0 before2 before1 j p ≡ f j

scan-quoted :
    (q : ℕ) (body p : Bytes) (f : ℕ → Option Connector) (before2 before1 i : ℕ)
    → is_quote q ≡ true
    → AllBytes (λ c. not (c == q)) body
    → Gives p f
    → scan 0 q before2 before1 i (body ++ (q ∷ p)) ≡ f (i + suc (length body))
unfolding scan
scan-quoted q [] p f before2 before1 i quote all gives =
    let outside : is_unquoted q q ≡ false = ground arith in
    let shut : quote_after q q ≡ 0 = ground arith in rw outside (rw shut (gives before1 q (i + 1)))
scan-quoted q (c ∷ cs) p f before2 before1 i quote all gives =
    let inside : is_unquoted q c ≡ false = ground arith in
    let still : quote_after q c ≡ q = ground arith in
    let e : i + 1 + suc (length cs) ≡ i + suc (suc (length cs)) = omega arith in
    rw inside (rw still (scan-quoted q cs p f before1 c (i + 1) quote all.1 gives ∙ ap f e))

pub scan-Quiet :
    (pre rest : Bytes) (f : ℕ → Option Connector) (before2 before1 i : ℕ)
    → Quiet pre
    → Gives rest f
    → scan 0 0 before2 before1 i (pre ++ rest) ≡ f (i + length pre)
unfolding scan connector_at group_rest
scan-Quiet [] rest f before2 before1 i quiet_end gives =
    let e : i ≡ i + 0 = omega arith in gives before2 before1 i ∙ ap f e
scan-Quiet (c ∷ pre) rest f before2 before1 i (quiet_byte h quiet) gives =
    let e : i + 1 + length pre ≡ i + suc (length pre) = omega arith in
    scan-passed before2 before1 i c (pre ++ rest) (ground arith)
      (connector_at-quiet before2 before1 c i (pre ++ rest) h)
    ∙ scan-Quiet pre rest f before1 c (i + 1) quiet gives
    ∙ ap f e
scan-Quiet (q ∷ _) rest f before2 before1 i (quiet_quoted {p = p} body quote all quiet) gives =
    let bare : is_unquoted 0 q ≡ false = ground arith in
    let begun : quote_after 0 q ≡ q = ground arith in
    let e : i + 1 + suc (length body) + length p ≡ i + suc (length (body ++ (q ∷ p))) =
      omega (arith, length-append {0} body (q ∷ p)) in
    rw bare (
      rw begun (
        ap (scan 0 q before1 q (i + 1)) (append_assoc {0} body (q ∷ p) rest)
        ∙ scan-quoted q body (p ++ rest) (λ j. f (j + length p)) before1 q (i + 1) quote all
            (λ b2 b1 j. scan-Quiet p rest f b2 b1 j quiet gives)
        ∙ ap f e))
scan-Quiet (_ ∷ _ ∷ _) rest f before2 before1 i (quiet_pipe {c} {p} h quiet) gives =
    let e : i + 1 + suc (length p) ≡ i + suc (suc (length p)) = omega arith in
    scan-passed before2 before1 i b'|' (c ∷ p ++ rest) refl
      (connector_at-bar before2 before1 c i (p ++ rest) h)
    ∙ scan-Quiet (c ∷ p) rest f before1 b'|' (i + 1) quiet gives
    ∙ ap f e
scan-Quiet (_ ∷ _ ∷ _) rest f before2 before1 i (quiet_both {p} quiet) gives =
    let e : i + 1 + 1 + length p ≡ i + suc (suc (length p)) = omega arith in
    scan-Quiet p rest f b'&' b'>' (i + 1 + 1) quiet gives ∙ ap f e
scan-Quiet (_ ∷ _ ∷ _ ∷ _ ∷ _) rest f before2 before1 i (quiet_merge {p} quiet) gives =
    let e : i + 1 + 1 + 1 + 1 + length p ≡ i + suc (suc (suc (suc (length p)))) = omega arith in
    scan-Quiet p rest f b'&' b'1' (i + 1 + 1 + 1 + 1) quiet gives ∙ ap f e

find-Quiet :
    (front pre rest : Bytes) (f : ℕ → Option Connector)
    → Quiet pre
    → Gives rest f
    → find_list_connector (front ++ (pre ++ rest)) (length front) ≡ f (length front + length pre)
unfolding find_list_connector
find-Quiet front pre rest f quiet gives =
    let s = front ++ (pre ++ rest) in
    let from = length front in
    ap (scan 0 0 (back s from 2) (back s from 1) from) (drop-append_left front (pre ++ rest))
    ∙ scan-Quiet pre rest f (back s from 2) (back s from 1) from quiet gives

abbrev pub connector : ℕ → RunCond → ℕ → Bool → Connector
connector pos cond len bg = record { pos = pos; cond = cond; len = len; bg = bg }

abbrev pub continues_ampersand : ℕ → Bool
continues_ampersand c = c == b'&' || c == b'>' || c == b'1'

-- A text that begins with a connector, with the condition, the length and the mark of the background.
pub data Stands : Bytes → RunCond → ℕ → Bool → Type 0 where
  and_here : {rest : Bytes} → Stands (b'&' ∷ b'&' ∷ rest) cond_and 2 false
  or_here : {rest : Bytes} → Stands (b'|' ∷ b'|' ∷ rest) cond_or 2 false
  semicolon_here :
      {rest : Bytes} → (at rest 0 == b';') ≡ false → Stands (b';' ∷ rest) cond_always 1 false
  double_here : {rest : Bytes} → Stands (b';' ∷ b';' ∷ rest) cond_always 0 false
  ampersand_here :
      {rest : Bytes}
      → continues_ampersand (at rest 0) ≡ false
      → Stands (b'&' ∷ rest) cond_always 1 true

connector_at-ampersand :
    (before2 before1 i : ℕ) (rest : Bytes)
    → continues_ampersand (at rest 0) ≡ false
    → connector_at before2 before1 b'&' rest i ≡ some (connector i cond_always 1 true)
unfolding connector_at
connector_at-ampersand before2 before1 i rest h = ground arith

pub Stands-Gives :
    {p : Bytes} {cond : RunCond} {len : ℕ} {bg : Bool}
    → Stands p cond len bg
    → Gives p (λ j. some (connector j cond len bg))
unfolding scan connector_at
Stands-Gives and_here b2 b1 j = refl
Stands-Gives or_here b2 b1 j = refl
Stands-Gives (semicolon_here h) b2 b1 j = rw h refl
Stands-Gives double_here b2 b1 j = refl
Stands-Gives (ampersand_here {rest} h) b2 b1 j =
    ap (λ o. first_of o (scan 0 0 b1 b'&' (j + 1) rest)) (connector_at-ampersand b2 b1 j rest h)

-- From the end of `front` on, and behind text with quoted parts, pipes, `&>` and `2>&1`, but otherwise
-- without quote, `$`, `&`, `|` and `;`, a connector is found where it stands, with its condition and
-- the bytes that it takes: `&&` and `||` whatever follows, `;;`, a `;` with no further `;` behind it,
-- and a `&` with no `&`, `>` or `1` behind it. Where the text ends there, none is found.
pub find_list_connector-Quiet :
    (front pre text : Bytes) (cond : RunCond) (len : ℕ) (bg : Bool)
    → Quiet pre
    → Stands text cond len bg
    → (find_list_connector (front ++ (pre ++ text)) (length front)
        ≡ some (connector (length front + length pre) cond len bg))
      × (find_list_connector (front ++ pre) (length front) ≡ none)
unfolding scan
find_list_connector-Quiet front pre text cond len bg quiet stands = (
  find-Quiet front pre text _ quiet (Stands-Gives stands),
  subst (λ t. find_list_connector (front ++ t) (length front) ≡ none) (append-nil {0} pre)
      (find-Quiet front pre [] (λ j. none) quiet (λ b2 b1 j. refl)),
)
