-- ===== src/Parser/List/Stops.antt =====
-- What stands behind a list and behind a compound command, and the step over an item.
use petrush.Base.{
  ℕ, zero, suc, ◌+◌, ◌≡◌, ◌≢◌, refl, subst, Bool, true, false, some, List, [], ◌∷◌, ◌++◌, arith,
  ◌==◌, length, inl, inr, ◌⊎◌,
}
use petrush.Text.{Bytes, codes, at, is_space}
use petrush.Parser.Result.{Result, ◌>>=◌, branch}
use petrush.Parser.Stage.{Cmd}
use petrush.Parser.Connector.{RunCond, cond_always}
use petrush.Parser.Keyword.{
  kw_fi, kw_done, blanks, skip_ws_pos, starts_with, ends_kw, match_kw_at, match_rbrace_at,
  match_dsemi_at, peek_kw_mask,
}
use petrush.Parser.Scan.{expect}
use petrush.Parser.List.{
  Start, stops, start_of, by_start, some_items, arm_mask, parse_list_until, go_on, parse_compound,
}
use petrush.Dispatch.Syntax.{Items, nil, cons, Item, pipeline, Arms}
use petrush.Parser.List.Place.{At, At-append, at-At, skip_ws_pos-At, match_kw_at-At, stops-At}
use petrush.Parser.List.Written.{
  Command, Joins, semicolon, ampersand, and_then, or_else, Written, finished, item, WrittenArms,
  arm, WrittenRest, fi, otherwise, elif,
}
use petrush.Parser.List.Steps.{
  Lands, Lands-bind, at-here, At-suc, skip_ws_pos-space, start_of-head, after_sep,
  take_conn_after-Joins, parse_pipeline_item-Command, lost, lands,
}

-- What stands behind a list: the end of the text, or a keyword that stops it.
pub data Closes : ℕ → Bool → Bytes → Type 0 where
  closes_text : {mask : ℕ} → Closes mask false []
  closes_kw :
      {mask c : ℕ} {t : Bytes} {require_term : Bool}
      → is_space c ≡ false
      → (c == 0) ≡ false
      → stops (c ∷ t) mask 0 ≡ true
      → Closes mask require_term (c ∷ t)

abbrev pub EndsKw : Bytes → Type 0
EndsKw rest = ends_kw (at rest 0) ≡ true

pub finished-Lands :
    (f : ℕ) {s rest : Bytes} {mask : ℕ} {require_term : Bool} (pos : ℕ)
    → Closes mask require_term rest
    → At s pos (b' ' ∷ rest)
    → Lands s rest (parse_list_until f s mask require_term cond_always pos) nil
unfolding parse_list_until by_start start_of branch blanks
finished-Lands zero pos closes h = lost
finished-Lands (suc f) {s} pos closes_text h =
    let ended : at s (pos + 1) ≡ 0 = at-At h 1 in
    rw (skip_ws_pos-At h) (rw ended (lands (At-suc h)))
finished-Lands (suc f) {s} pos (closes_kw space solid stop) h =
    rw (skip_ws_pos-space space h)
      (rw (at-here (At-suc h)) (rw solid (rw (stops-At _ (At-suc h)) (rw stop (lands (At-suc h))))))

pub Lands-expect :
    {Y : Type 0} {s rest : Bytes} {pos : ℕ} {y : Y} (kw t : Bytes) (next : ℕ → Result (Y × ℕ))
    → match_kw_at (kw ++ t) 0 kw ≡ some (length kw)
    → At s pos (kw ++ t)
    → ((e : ℕ) → At s e t → Lands s rest (next e) y)
    → Lands s rest (expect s kw pos >>= next) y
Lands-expect {pos} kw t next m h k =
    rw (match_kw_at-At kw h) (rw m (k (pos + length kw) (At-append kw t h)))

pub Written-space :
    {rest t : Bytes} {cond : RunCond} {l : Items}
    → Written rest cond t l
    → (r : Bytes) × (t ≡ b' ' ∷ r)
Written-space finished = (_, refl)
Written-space (item w j l) = (_, refl)

pub Joins-EndsKw :
    {sep : Bytes} {c : RunCond} {bg : Bool} (r : Bytes) → Joins sep c bg → EndsKw (sep ++ r)
Joins-EndsKw r semicolon = refl
Joins-EndsKw r ampersand = refl
Joins-EndsKw r and_then = refl
Joins-EndsKw r or_else = refl

pub fi-Closes :
    {mask : ℕ} (rest : Bytes)
    → (mask ≡ kw_fi) ⊎ (mask ≡ arm_mask)
    → EndsKw rest
    → Closes mask true (codes "fi" ++ rest)
unfolding peek_kw_mask match_kw_at skip_ws_pos blanks starts_with match_rbrace_at match_dsemi_at
fi-Closes rest (inl e) h = rw e (closes_kw refl refl (rw h refl))
fi-Closes rest (inr e) h = rw e (closes_kw refl refl (rw h refl))

pub Lands-nonempty :
    {s rest rest' : Bytes} {Y : Type 0} {r : Result (Items × ℕ)} {l : Items} {y : Y}
    (next : Items × ℕ → Result (Y × ℕ))
    → l ≢ nil
    → Lands s rest r l
    → ((e : ℕ) → At s e rest → Lands s rest' (next (l, e)) y)
    → Lands s rest' (r >>= some_items >>= next) y
Lands-nonempty {l = nil} next some_item h k = absurd (some_item refl)
Lands-nonempty {l = cons c bg it l} next some_item lost k = lost
Lands-nonempty {l = cons c bg it l} next some_item (lands {e} h) k = k e h

pub WrittenArms-space :
    {rest t : Bytes} {arms : Arms} → WrittenArms rest t arms → (r : Bytes) × (t ≡ b' ' ∷ r)
WrittenArms-space (arm c full b w) = Written-space c

pub rest-Closes :
    {rest r : Bytes} {arms : Arms} → WrittenRest rest r arms → EndsKw rest → Closes arm_mask true r
unfolding peek_kw_mask match_kw_at skip_ws_pos blanks starts_with match_rbrace_at match_dsemi_at
rest-Closes {rest} fi h = fi-Closes rest (inr refl) h
rest-Closes {rest} (otherwise w) h = let (b, e) = Written-space w in rw e (closes_kw refl refl refl)
rest-Closes {rest} (elif w) h = let (b, e) = WrittenArms-space w in rw e (closes_kw refl refl refl)

pub while-Closes : (rest : Bytes) → EndsKw rest → Closes kw_done true (codes "done" ++ rest)
unfolding peek_kw_mask match_kw_at skip_ws_pos blanks starts_with match_rbrace_at match_dsemi_at
while-Closes rest h = closes_kw refl refl (rw h refl)

-- The step at a command.
pub Command-Lands :
    (f : ℕ) {s rest w sep r : Bytes} (mask : ℕ) (require_term : Bool) {cond c : RunCond} {bg : Bool}
    {cs : List Cmd} {l : Items} (pos : ℕ)
    → Command w cs
    → Joins sep c bg
    → Written rest c r l
    → At s pos (b' ' ∷ (w ++ (sep ++ r)))
    → ((e : ℕ)
        → At s e r
        → Lands s rest
            (go_on f s mask require_term cond (pipeline cs) (after_sep e c bg))
            (cons cond bg (pipeline cs) l))
    → Lands s rest
        (parse_list_until (suc f) s mask require_term cond pos)
        (cons cond bg (pipeline cs) l)
unfolding parse_list_until by_start
Command-Lands f {s} {w} {sep} {r} mask require_term pos cmd j l h k =
    let (r', e) = Written-space l in
    let solid : is_space cmd.head ≡ false = ground (arith, cmd.plain) in
    let here : At s pos (b' ' ∷ cmd.head ∷ (cmd.tail ++ (sep ++ r))) =
      subst (λ t. At s pos (b' ' ∷ (t ++ (sep ++ r)))) cmd.begins h in
    let text : At s (pos + 1) (w ++ (sep ++ (b' ' ∷ r'))) =
      subst (λ q. At s (pos + 1) (w ++ (sep ++ q))) e (At-suc h) in
    rw (skip_ws_pos-space solid here) (
      rw (start_of-head mask cmd.plain (At-suc here)) (
        rw (parse_pipeline_item-Command r' cmd j text)
          (k _ (At-append sep r (At-append w (sep ++ r) (At-suc h))))))

-- The step at a compound command, which `parse_compound` reads up to the connector behind it.
pub compound-Lands :
    (f : ℕ) {s rest t sep r : Bytes} (mask : ℕ) (require_term : Bool) {cond c : RunCond} {bg : Bool}
    {kw : Start} {it : Item} {l : Items} (pos : ℕ) (h0 : ℕ) (t0 : Bytes)
    → t ≡ h0 ∷ t0
    → is_space h0 ≡ false
    → start_of s mask (pos + 1) ≡ kw
    → ((pipe stop : Unit {0} → Result (Items × ℕ)) (compound : Start → Result (Items × ℕ))
          (end : Unit {0} → Result (Items × ℕ))
        → by_start kw end stop pipe compound ≡ compound kw)
    → Joins sep c bg
    → Written rest c r l
    → At s pos (b' ' ∷ t)
    → Lands s (sep ++ r) (parse_compound f s kw (pos + 1)) it
    → ((e : ℕ)
        → At s e r
        → Lands s rest (go_on f s mask require_term cond it (after_sep e c bg)) (cons cond bg it l))
    → Lands s rest (parse_list_until (suc f) s mask require_term cond pos) (cons cond bg it l)
unfolding parse_list_until
compound-Lands f {s} {sep} {r} mask require_term pos h0 t0 t_is solid start by_kw j l h reads k =
    let (r', e) = Written-space l in
    let here : At s pos (b' ' ∷ h0 ∷ t0) = subst (λ q. At s pos (b' ' ∷ q)) t_is h in
    rw (skip_ws_pos-space solid here) (
      rw start (
        rw (by_kw _ _ _ _) (
          Lands-bind _ reads λ i at_sep.
            let text : At s i (sep ++ (b' ' ∷ r')) = subst (λ q. At s i (sep ++ q)) e at_sep in
            rw (take_conn_after-Joins r' j text) (k _ (At-append sep r at_sep)))))
