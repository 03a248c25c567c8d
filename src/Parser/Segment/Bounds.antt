-- ===== src/Parser/Segment/Bounds.antt =====
-- The item that a segment gives: commands that are not empty, and a position behind it.
use petrush.Base.{
  ℕ, zero, suc, ◌+◌, ◌-◌, ◌≤◌, ◌<◌, ◌≡◌, ◌≢◌, refl, true, false, Option, none, some, List, [], ◌∷◌,
  arith, ◌==◌, length, take, drop, inl, inr, Bool-cases, length-take,
}
use petrush.Text.{Bytes, is_space, skip_space}
use petrush.Parser.Result.{
  Result, ok, error, out_of_fuel, ◌>>=◌, Yields, yields, yields_error, bind-ok,
}
use petrush.Parser.Token.Progress.{skip_space-cases}
use petrush.Parser.Token.{Token, next_token, tokens, tokenize}
use petrush.Parser.Stage.{Cmd, parse_pipeline}
use petrush.Parser.Stage.Shape.{AreStages, parse_pipeline_shape}
use petrush.Parser.Stage.Total.{parse-ne-fuel}
use petrush.Parser.Connector.{
  cond_always, Connector, connector_at, is_unquoted, scan, find_list_connector,
}
use petrush.Parser.Connector.Found.{first_of-cases, if-some, find_list_connector-Lies}
use petrush.Parser.Keyword.{skip_ws_pos}
use petrush.Parser.Scan.Moves.{Between, Past, skip_ws_pos-Between}
use petrush.Parser.Segment.{
  After, no_conn, past, rtrim_cons, rtrim, Segment, segment, empty_segment, segment_of,
  segment_text, segment_to, parse_pipeline_item, taken_at, take_conn_after,
}

connector_at-bg :
    (before2 before1 c i : ℕ) (cs : Bytes) (k : Connector)
    → connector_at before2 before1 c cs i ≡ some k
    → k.bg ≡ true
    → k.cond ≡ cond_always
unfolding connector_at
connector_at-bg before2 before1 c i cs k e b = ground arith

scan-bg :
    (skip quote before2 before1 i : ℕ) (p : Bytes) (k : Connector)
    → scan skip quote before2 before1 i p ≡ some k
    → k.bg ≡ true
    → k.cond ≡ cond_always
unfolding scan
scan-bg skip quote before2 before1 i [] k e = absurd cc
scan-bg (suc skip) quote before2 before1 i (c ∷ cs) k e =
    scan-bg skip quote before1 c (i + 1) cs k e
scan-bg zero quote before2 before1 i (c ∷ cs) k e = elim (first_of-cases _ _ k e) [
  | inl here ↦ connector_at-bg before2 before1 c i cs k (if-some (is_unquoted quote c) _ k here)
  | inr later ↦ scan-bg _ _ before1 c (i + 1) cs k later
]

-- An item that goes to the background is followed by one that always runs.
abbrev pub Parts : After → Type 0
Parts a = a.bg ≡ true → a.cond ≡ cond_always

past-Parts :
    (s : Bytes) (pos : ℕ) (k : Connector) → find_list_connector s pos ≡ some k → Parts (past k)
unfolding find_list_connector
past-Parts s pos k e = scan-bg 0 0 _ _ pos (drop pos s) k e

pub take_conn_after-Between :
    (s : Bytes) (pos : ℕ)
    → pos ≤ length s
    → Between s pos (take_conn_after s pos).pos × Parts (take_conn_after s pos)
unfolding take_conn_after
take_conn_after-Between s pos h =
    let i = skip_ws_pos s pos in
    let (from, to) = skip_ws_pos-Between s pos h in go i from to (find_list_connector s i) refl
  where
    go :
        (i : ℕ)
        → pos ≤ i
        → i ≤ length s
        → (o : Option Connector) → find_list_connector s i ≡ o
        → Between s pos (taken_at i o).pos × Parts (taken_at i o)
    go i from to none e = ((from, to), λ b. refl)
    go i from to (some k) e =
        let (lo, _, hi, _) = find_list_connector-Lies s i k e in
        elim (Bool-cases (k.pos == i)) [
          | inl here ↦ rw here ((omega arith, hi), past-Parts s i k e)
          | inr other ↦ rw other ((from, to), λ b. refl)
        ]

rtrim-nil : rtrim [] ≡ []
unfolding rtrim
rtrim-nil = refl

rtrim-head : (c : ℕ) (cs : Bytes) → is_space c ≡ false → (ds : Bytes) × (rtrim (c ∷ cs) ≡ c ∷ ds)
unfolding rtrim
rtrim-head c cs h = head (rtrim cs)
  where
    head : (r : Bytes) → (ds : Bytes) × (rtrim_cons c r ≡ c ∷ ds)
    head [] = ([], rw h refl)
    head (d ∷ ds) = (d ∷ ds, refl)

ok_cons-ne-nil :
    {t : Token} {more ts : List Token}
    → ◌≡◌ {A = Result (List Token)} (ok (t ∷ more)) (ok ts)
    → ts ≢ []
ok_cons-ne-nil e = λ q. cc

-- A text whose first byte is not space holds a token.
tokens-some :
    (f c : ℕ) (cs : Bytes) (ts : List Token)
    → is_space c ≡ false
    → tokens f (c ∷ cs) ≡ ok ts
    → ts ≢ []
unfolding tokens skip_space
tokens-some zero c cs ts h e = absurd (ground arith)
tokens-some (suc f) c cs ts h e =
    let (r, _, next) = bind-ok (next_token (c ∷ cs)) _ (rw (h, tokens) at e) in
    let (more, _, last) = bind-ok (tokens f r.1) _ next in ok_cons-ne-nil last

parse_pipeline-some :
    (c : ℕ) (cs : Bytes) (p : List Cmd)
    → is_space c ≡ false
    → parse_pipeline (c ∷ cs) ≡ ok p
    → (p ≢ []) × AreStages p
unfolding tokenize
parse_pipeline-some c cs p h e =
    let (ts, t, stages, shape) = parse_pipeline_shape (c ∷ cs) p e in
    let some_tokens = tokens-some (length (c ∷ cs)) c cs ts h t in
    (elim shape [ inl (none_left, _) ↦ absurd (some_tokens none_left) | inr n ↦ long p n ], stages)
  where
    long : {m : ℕ} (p : List Cmd) → length p ≡ suc m → p ≢ []
    long [] n = absurd (omega arith)
    long (d ∷ p) n = λ q. cc

-- A segment of commands with a position behind it, or an empty one.
abbrev pub IsSegment : Bytes → ℕ → Segment → Type 0
IsSegment s pos (segment p a) = ((p ≢ []) × AreStages p) × Past s pos a.pos × Parts a
IsSegment s pos (empty_segment a) = Between s pos a.pos × Parts a

segment_of-IsSegment :
    (s : Bytes) (pos : ℕ) (c : ℕ) (cs : Bytes) (a : After)
    → is_space c ≡ false
    → Past s pos a.pos
    → Parts a
    → Yields (IsSegment s pos) (segment_of (c ∷ cs) a)
unfolding segment_of
segment_of-IsSegment s pos c cs a h at_pos parts = go (parse_pipeline (c ∷ cs)) refl
  where
    go :
        (r : Result (List Cmd))
        → parse_pipeline (c ∷ cs) ≡ r
        → Yields (IsSegment s pos) (r >>= λ p. ok (segment p a))
    go error e = yields_error
    go out_of_fuel e = absurd ((parse-ne-fuel (c ∷ cs)).0 e)
    go (ok p) e = yields (parse_pipeline-some c cs p h e, at_pos, parts)

-- The segment up to `end`, where something stands before `end` only if `end` is behind `pos`.
segment_text-IsSegment :
    (s : Bytes) (pos end : ℕ) (a : After)
    → Between s pos a.pos
    → end ≤ a.pos
    → Parts a
    → Yields (IsSegment s pos) (segment_of (segment_text s pos end) a)
unfolding segment_of
segment_text-IsSegment s pos end a (from, to) reach parts =
    elim (skip_space-cases (take (end - pos) (drop pos s))) [
      | inl blank ↦ rw blank (rw rtrim-nil (yields ((from, to), parts)))
      | inr (c, cs, e, full, lt) ↦
          let (ds, d) = rtrim-head c cs full in
          let behind : pos < end = omega (arith, length-take (end - pos) (drop pos s)) in
          rw e (rw d (segment_of-IsSegment s pos c ds a full (omega arith, to) parts))
    ]

pub parse_pipeline_item-IsSegment :
    (s : Bytes) (pos : ℕ) → pos ≤ length s → Yields (IsSegment s pos) (parse_pipeline_item s pos)
unfolding parse_pipeline_item
parse_pipeline_item-IsSegment s pos h = go (find_list_connector s pos) refl
  where
    go :
        (o : Option Connector)
        → find_list_connector s pos ≡ o
        → Yields (IsSegment s pos) (segment_to s pos o)
    go none e =
        segment_text-IsSegment s pos (length s) (no_conn (length s)) (h, omega arith) (omega arith)
          (λ b. refl)
    go (some k) e =
        let (lo, _, hi, _) = find_list_connector-Lies s pos k e in
        segment_text-IsSegment s pos k.pos (past k) (omega arith, hi) (omega arith)
          (past-Parts s pos k e)
