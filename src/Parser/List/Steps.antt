-- ===== src/Parser/List/Steps.antt =====
-- The steps of the loop over a list at the start of a command or a keyword, and at a connector.
use petrush.Base.{
  ℕ, ◌+◌, ◌-◌, ◌≡◌, refl, sym, ap, ◌∙◌, subst, Bool, true, false, some, List, [], ◌∷◌, ◌++◌, arith,
  ◌==◌, not, ◌&&◌, length, take-append_left,
}
use petrush.Text.{Bytes, codes, at, is_space, is_alpha, skip_space}
use petrush.Parser.Result.{Result, ok, out_of_fuel, ◌>>=◌}
use petrush.Parser.Stage.{Cmd, parse_pipeline}
use petrush.Parser.Connector.{RunCond, connector_at, scan, find_list_connector}
use petrush.Parser.Connector.Found.{
  Gives, scan-Quiet, connector, Stands-Gives, and_here, or_here, semicolon_here, ampersand_here,
}
use petrush.Parser.Token.{group_rest}
use petrush.Parser.Keyword.{
  kw_if, kw_while, blanks, skip_ws_pos, starts_with, match_kw_at, match_rbrace_at, match_dsemi_at,
  has, peek_kw_mask,
}
use petrush.Parser.Scan.{answered_by, scan_fn_name, looks_like_fn_def}
use petrush.Parser.Segment.{After, segment, segment_of, parse_pipeline_item, take_conn_after}
use petrush.Parser.List.{stops, if_kw, while_kw, simple, start_of}
use petrush.Parser.List.Place.{At, At-append, at-At, skip_ws_pos-At, stops-At, matches-At}
use petrush.Parser.List.Written.{is_head, Command, Joins, semicolon, ampersand, and_then, or_else}

-- The value with the place where `rest` stands, unless the fuel ran out.
pub data Lands {X : Type 0} (s rest : Bytes) : Result (X × ℕ) → X → Type 0 where
  lost : {x : X} → Lands s rest out_of_fuel x
  lands : {x : X} {e : ℕ} → At s e rest → Lands s rest (ok (x, e)) x

pub Lands-bind :
    {X Y : Type 0} {s rest rest' : Bytes} {r : Result (X × ℕ)} {x : X} {y : Y}
    (next : X × ℕ → Result (Y × ℕ))
    → Lands s rest r x
    → ((e : ℕ) → At s e rest → Lands s rest' (next (x, e)) y)
    → Lands s rest' (r >>= next) y
Lands-bind next lost k = lost
Lands-bind next (lands {e} h) k = k e h

pub at-here : {s : Bytes} {pos c : ℕ} {t : Bytes} → At s pos (c ∷ t) → at s pos ≡ c
at-here {s} {pos} h = let e : pos ≡ pos + 0 = omega arith in ap (at s) e ∙ at-At h 0

pub At-suc : {s : Bytes} {pos c : ℕ} {t : Bytes} → At s pos (c ∷ t) → At s (pos + 1) t
At-suc {c} {t} h = At-append (c ∷ []) t h

pub skip_ws_pos-here :
    {s : Bytes} {pos c : ℕ} {t : Bytes}
    → is_space c ≡ false
    → At s pos (c ∷ t)
    → skip_ws_pos s pos ≡ pos
unfolding blanks
skip_ws_pos-here {pos} h p = let e : pos + 0 ≡ pos = omega arith in skip_ws_pos-At p ∙ rw h e

pub skip_ws_pos-space :
    {s : Bytes} {pos c : ℕ} {t : Bytes}
    → is_space c ≡ false
    → At s pos (b' ' ∷ c ∷ t)
    → skip_ws_pos s pos ≡ pos + 1
unfolding blanks
skip_ws_pos-space {pos} h p = skip_ws_pos-At p ∙ rw h refl

pub and_false : (b : Bool) → (b && false) ≡ false
and_false true = refl
and_false false = refl

-- A command's text holds no keyword at its head.
pub stops-head : (c : ℕ) (t : Bytes) (mask : ℕ) → is_head c ≡ true → stops (c ∷ t) mask 0 ≡ false
unfolding peek_kw_mask match_kw_at match_rbrace_at match_dsemi_at skip_ws_pos blanks starts_with
stops-head c t mask h =
    let space : is_space c ≡ false = ground arith in
    let e : (c == b'e') ≡ false = ground arith in
    let n : (c == b't') ≡ false = ground arith in
    let f : (c == b'f') ≡ false = ground arith in
    let i : (c == b'i') ≡ false = ground arith in
    let w : (c == b'w') ≡ false = ground arith in
    let d : (c == b'd') ≡ false = ground arith in
    let brace : (c == b'}') ≡ false = ground arith in
    let semi : (c == b';') ≡ false = ground arith in
    rw space (rw e (rw n (rw f (rw i (rw w (rw d (rw brace (rw semi (and_false _)))))))))

pub matches-head :
    {s : Bytes} {pos c : ℕ} {t : Bytes} (k : ℕ) (ks : Bytes)
    → is_space c ≡ false
    → (c == k) ≡ false
    → At s pos (c ∷ t)
    → answered_by (match_kw_at s pos (k ∷ ks)) ≡ false
unfolding match_kw_at skip_ws_pos blanks starts_with
matches-head {c} {t} k ks space differs h = matches-At (k ∷ ks) h ∙ rw space (rw differs refl)

pub looks_like-head :
    {s : Bytes} {pos c : ℕ} {t : Bytes}
    → is_head c ≡ true
    → At s pos (c ∷ t)
    → looks_like_fn_def s pos ≡ false
unfolding looks_like_fn_def scan_fn_name
looks_like-head {s} {pos} {c} head h =
    let space : is_space c ≡ false = ground arith in
    let alpha : is_alpha c ≡ false = ground arith in
    let under : (c == b'_') ≡ false = ground arith in
    rw (skip_ws_pos-here space h) (rw (at-here h) (rw alpha (rw under refl)))

pub start_of-head :
    {s : Bytes} {pos c : ℕ} {t : Bytes} (mask : ℕ)
    → is_head c ≡ true
    → At s pos (c ∷ t)
    → start_of s mask pos ≡ simple
unfolding start_of
start_of-head {c} {t} mask head h =
    let space : is_space c ≡ false = ground arith in
    let zero_ : (c == 0) ≡ false = ground arith in
    let i : (c == b'i') ≡ false = ground arith in
    let w : (c == b'w') ≡ false = ground arith in
    let f : (c == b'f') ≡ false = ground arith in
    let e : (c == b'c') ≡ false = ground arith in
    let d : (c == b'[') ≡ false = ground arith in
    rw (at-here h) (
      rw zero_ (
        rw (stops-At mask h) (
          rw (stops-head c t mask head) (
            rw (matches-head b'i' (codes "f") space i h) (
              rw (matches-head b'w' (codes "hile") space w h) (
                rw (matches-head b'f' (codes "or") space f h) (
                  rw (matches-head b'c' (codes "ase") space e h) (
                    rw (matches-head b'[' (codes "[") space d h) (
                      rw (matches-head b'f' (codes "unction") space f h)
                        (rw (looks_like-head head h) refl))))))))))

-- A mask that neither `if` nor `while` stops.
abbrev pub NotOpening : ℕ → Type 0
NotOpening mask = (has mask kw_if ≡ false) × (has mask kw_while ≡ false)

pub start_of-while :
    {s : Bytes} {pos : ℕ} {t : Bytes} (mask : ℕ)
    → NotOpening mask
    → At s pos (codes "while" ++ (b' ' ∷ t))
    → start_of s mask pos ≡ while_kw
unfolding start_of match_kw_at skip_ws_pos blanks starts_with peek_kw_mask
start_of-while {t} mask (_, w) h = rw (at-here h) (
    rw (stops-At mask h) (
      rw w (
        rw (and_false (not (mask == 0)))
          (rw (matches-At (codes "if") h) (rw (matches-At (codes "while") h) refl)))))

pub start_of-if :
    {s : Bytes} {pos : ℕ} {t : Bytes} (mask : ℕ)
    → NotOpening mask
    → At s pos (codes "if" ++ (b' ' ∷ t))
    → start_of s mask pos ≡ if_kw
unfolding start_of match_kw_at skip_ws_pos blanks starts_with peek_kw_mask
start_of-if {t} mask (i, _) h = rw (at-here h) (
    rw (stops-At mask h)
      (rw i (rw (and_false (not (mask == 0))) (rw (matches-At (codes "if") h) refl))))

pub Joins-Gives :
    {sep : Bytes} {c : RunCond} {bg : Bool} (r : Bytes)
    → Joins sep c bg
    → Gives (sep ++ (b' ' ∷ r)) (λ j. some (connector j c (length sep) bg))
unfolding scan connector_at group_rest
Joins-Gives r semicolon = Stands-Gives (semicolon_here {rest = b' ' ∷ r} refl)
Joins-Gives r and_then = Stands-Gives (and_here {rest = b' ' ∷ r})
Joins-Gives r or_else = Stands-Gives (or_here {rest = b' ' ∷ r})
Joins-Gives r ampersand = Stands-Gives (ampersand_here {rest = b' ' ∷ r} refl)

pub find-Joins :
    {s sep : Bytes} {pos : ℕ} {c : RunCond} {bg : Bool} (r : Bytes)
    → Joins sep c bg
    → At s pos (sep ++ (b' ' ∷ r))
    → find_list_connector s pos ≡ some (connector pos c (length sep) bg)
unfolding find_list_connector
find-Joins {pos} r j h = rw h.left (Joins-Gives r j _ _ pos)

pub find-Command :
    {s w sep : Bytes} {cs : List Cmd} {pos : ℕ} {c : RunCond} {bg : Bool} (r : Bytes)
    → Command w cs
    → Joins sep c bg
    → At s pos (w ++ (sep ++ (b' ' ∷ r)))
    → find_list_connector s pos ≡ some (connector (pos + length w) c (length sep) bg)
unfolding find_list_connector
find-Command {w} {sep} {pos} r cmd j h =
    rw h.left (scan-Quiet w (sep ++ (b' ' ∷ r)) _ _ _ pos cmd.quiet (Joins-Gives r j))

abbrev pub after_sep : ℕ → RunCond → Bool → After
after_sep pos c bg = record { pos = pos; cond = c; had_conn = true; bg = bg }

pub sep-head :
    {sep : Bytes} {c : RunCond} {bg : Bool} (r : Bytes)
    → Joins sep c bg
    → (d : ℕ) × (t : Bytes) × (sep ++ (b' ' ∷ r) ≡ d ∷ t) × (is_space d ≡ false)
sep-head r semicolon = (_, _, refl, refl)
sep-head r ampersand = (_, _, refl, refl)
sep-head r and_then = (_, _, refl, refl)
sep-head r or_else = (_, _, refl, refl)

pub take_conn_after-Joins :
    {s sep : Bytes} {pos : ℕ} {c : RunCond} {bg : Bool} (r : Bytes)
    → Joins sep c bg
    → At s pos (sep ++ (b' ' ∷ r))
    → take_conn_after s pos ≡ after_sep (pos + length sep) c bg
unfolding take_conn_after
take_conn_after-Joins {s} {pos} r j h =
    let (d, t, e, solid) = sep-head r j in
    let same : (pos == pos) ≡ true = ground arith in
    rw (skip_ws_pos-here solid (subst (At s pos) e h)) (rw (find-Joins r j h) (rw same refl))

pub skip_space-Command : {w : Bytes} {cs : List Cmd} → Command w cs → skip_space w ≡ w
unfolding skip_space
skip_space-Command cmd =
    let solid : is_space cmd.head ≡ false = ground (arith, cmd.plain) in
    ap skip_space cmd.begins ∙ rw solid (sym cmd.begins)

pub segment_of-Command :
    {w : Bytes} {cs : List Cmd} → Command w cs → (a : After) → segment_of w a ≡ ok (segment cs a)
unfolding segment_of
segment_of-Command {w} {cs} cmd a =
    let parsed : parse_pipeline (cmd.head ∷ cmd.tail) ≡ ok cs =
      subst (λ t. parse_pipeline t ≡ ok cs) cmd.begins cmd.parsed in
    ap (λ t. segment_of t a) cmd.begins ∙ rw parsed refl

pub parse_pipeline_item-Command :
    {s w sep : Bytes} {cs : List Cmd} {pos : ℕ} {c : RunCond} {bg : Bool} (r : Bytes)
    → Command w cs
    → Joins sep c bg
    → At s pos (w ++ (sep ++ (b' ' ∷ r)))
    → parse_pipeline_item s pos ≡ ok (segment cs (after_sep (pos + length w + length sep) c bg))
unfolding parse_pipeline_item
parse_pipeline_item-Command {w} {sep} {pos} r cmd j h =
    let n : pos + length w - pos ≡ length w = omega arith in
    rw (find-Command r cmd j h) (
      rw n (
        rw h.left (
          rw (take-append_left w (sep ++ (b' ' ∷ r)))
            (rw (skip_space-Command cmd) (rw cmd.trimmed (segment_of-Command cmd _))))))
