-- ===== src/Dispatch/Glob/Decides.antt =====
-- The loop of `case_pat_match` goes back to the last star only; that loses no match.
use petrush.Base.{
  ℕ, zero, suc, ◌<◌, ◌≤◌, ◌≡◌, ◌↔◌, refl, sym, ◌∙◌, ap, Bool, true, false, ◌||◌, none, some, [],
  ◌∷◌, ◌++◌, ◌==◌, arith, inl, inr, Bool-cases, subst, if◌then◌else◌, length,
}
use petrush.Text.{Bytes}
use petrush.Dispatch.Glob.{
  star, mismatch, behind, Star, GlobLoop, glob_step, glob_loop, is_true, case_pat_match,
}
use petrush.Dispatch.Glob.Matches.{
  any_end, any_shorter, takes_one, glob, any_end_split, any_end_idem, Matches, at_end, any_text,
  any_byte, same_byte, Reach, here, met, Reach-stars, shorter, stars, Behind, Room, retry,
  retry-Behind, only_stars-glob,
}

-- What a retry can match is no more than what a star takes here.
absorbed : (b c : Bool) → (c ≡ true → b ≡ true) → b ≡ (b || c)
absorbed true c h = refl
absorbed false true h = h refl
absorbed false false h = refl

retry-star :
    (st : Star) (p s : Bytes) (x : ℕ)
    → Behind st (star ∷ p) (x ∷ s)
    → retry st ≡ true
    → any_end (glob p) (x ∷ s) ≡ true
retry-star st p s x b h =
    let e : any_end (glob p) s ≡ true =
      any_end_idem (glob p) s (retry-Behind st (star ∷ p) (x ∷ s) b h) in
    ground arith

retry-end : (st : Star) (p : Bytes) → Behind st p [] → retry st ≡ false
retry-end st p b = elim (Bool-cases (retry st)) [
  | inl h ↦ absurd (let e : false ≡ true = retry-Behind st p [] b h in cc)
  | inr h ↦ h
]

or-false : (b : Bool) → b ≡ (b || false)
or-false true = refl
or-false false = refl

met-Behind :
    (st : Star) (c x : ℕ) (p s : Bytes)
    → (c == star) ≡ false
    → Behind st (c ∷ p) (x ∷ s)
    → Behind st p s
unfolding Behind
met-Behind none c x p s other b = tt
met-Behind (some (sp, ss)) c x p s other b = met other b

-- Behind a byte that meets nothing the last star takes one more.
missed :
    (st : Star) (p s : Bytes) (x : ℕ) (less : ℕ → ℕ → GlobLoop) (takes : ℕ → GlobLoop)
    (steps : GlobLoop)
    → Behind st p (x ∷ s)
    → ((sp ss : Bytes)
        → st ≡ some (sp, ss)
        → Reach sp ss p (x ∷ s)
        → takes (suc (length (behind ss))) sp (behind ss) (some (sp, behind ss))
          ≡ some (glob sp (behind ss) || any_shorter (glob sp) (behind ss)))
    → glob_step mismatch p x s st less takes steps ≡ some (retry st)
unfolding Behind
missed none p s x less takes steps r ih = refl
missed (some (sp, ss)) p s x less takes steps r ih =
    ih sp ss refl r
    ∙ ap some (sym (any_end_split (glob sp) (behind ss)) ∙ sym (shorter sp ss p s x r).1)

-- The loop ends where no fuel is short, and says whether the rest matches, or the text behind a retry.
glob_loop_lem :
    (a b c : ℕ) (p s : Bytes) (st : Star)
    → stars p < a
    → Room b st
    → length s < c
    → Behind st p s
    → glob_loop a b c p s st ≡ some (glob p s || retry st)
unfolding glob_loop stars Room Behind
glob_loop_lem a b c p [] st ha hb hc r =
    ap some
      (only_stars-glob p ∙ or-false (glob p []) ∙ ap (λ t. glob p [] || t) (sym (retry-end st p r)))
glob_loop_lem zero b c p (x ∷ s) st ha hb hc r = absurd (omega arith)
glob_loop_lem (suc a) zero c p (x ∷ s) none ha hb hc r = absurd (omega arith)
glob_loop_lem (suc a) zero c p (x ∷ s) (some (sp, ss)) ha hb hc r = absurd (omega arith)
glob_loop_lem (suc a) (suc b) zero p (x ∷ s) st ha hb hc r = absurd (omega arith)
glob_loop_lem (suc a) (suc b) (suc c) [] (x ∷ s) st ha hb hc r =
    missed st [] s x (glob_loop a) (glob_loop (suc a) b) (glob_loop (suc a) (suc b) c) r
      (λ sp ss e r'.
        glob_loop_lem (suc a) b (suc (length (behind ss))) sp (behind ss) (some (sp, behind ss))
          (omega (arith, Reach-stars r'))
          (let room : length ss < suc b = subst (Room (suc b)) e hb in
            omega (arith, (shorter sp ss [] s x r').0))
          (omega arith) here)
glob_loop_lem (suc a) (suc b) (suc c) (d ∷ p) (x ∷ s) st ha hb hc r =
    elim (Bool-cases (d == star)) [
      | inl wild ↦
          let d-star : d ≡ star = ground arith in
          let r' = subst (λ q. Behind st (q ∷ p) (x ∷ s)) d-star r in
          let left : suc (stars p) < suc a =
            subst (λ t. (if t then suc (stars p) else stars p) < suc a) wild ha in
          rw wild (
            glob_loop_lem a (suc (length (x ∷ s))) (suc (length (x ∷ s))) p (x ∷ s)
              (some (p, x ∷ s)) (omega arith) (omega arith) (omega arith) here
            ∙ ap some (absorbed (any_end (glob p) (x ∷ s)) (retry st) (retry-star st p s x r')))
      | inr plain ↦
          let left : stars p < suc a =
            subst (λ t. (if t then suc (stars p) else stars p) < suc a) plain ha in
          elim (Bool-cases (d == b'?' || d == x)) [
            | inl meets ↦ rw plain (
                rw meets (
                  glob_loop_lem (suc a) (suc b) c p s st left hb (omega arith)
                    (met-Behind st d x p s plain r)))
            | inr fails ↦ rw plain (
                rw fails (
                  missed st (d ∷ p) s x (glob_loop a) (glob_loop (suc a) b)
                    (glob_loop (suc a) (suc b) c) r
                    (λ sp ss e r'.
                      glob_loop_lem (suc a) b (suc (length (behind ss))) sp (behind ss)
                        (some (sp, behind ss)) (omega (arith, Reach-stars r'))
                        (let room : length ss < suc b = subst (Room (suc b)) e hb in
                          omega (arith, (shorter sp ss (d ∷ p) s x r').0))
                        (omega arith) here)))
          ]
    ]

stars-le : (p : Bytes) → stars p ≤ length p
unfolding stars
stars-le [] = omega arith
stars-le (c ∷ p) = elim (Bool-cases (c == star)) [
  | inl wild ↦ rw wild (omega (arith, stars-le p))
  | inr plain ↦ rw plain (omega (arith, stars-le p))
]

case_pat_match-glob : (p s : Bytes) → case_pat_match p s ≡ glob p s
unfolding case_pat_match Room Behind
case_pat_match-glob p s =
    ap is_true (
      glob_loop_lem (suc (length p)) (suc (length s)) (suc (length s)) p s none
        (omega (arith, stars-le p)) (omega arith) (omega arith) tt)
    ∙ sym (or-false (glob p s))

any_end_take : (f : Bytes → Bool) (u s : Bytes) → f s ≡ true → any_end f (u ++ s) ≡ true
any_end_take f [] s h = any_end_split f s ∙ rw h refl
any_end_take f (x ∷ u) s h = ground (arith, any_end_take f u s h)

any_end_some :
    (f : Bytes → Bool) (s : Bytes)
    → any_end f s ≡ true
    → (u t : Bytes) × (s ≡ u ++ t) × (f t ≡ true)
any_end_some f [] h = ([], [], refl, h)
any_end_some f (x ∷ s) h = elim (Bool-cases (f (x ∷ s))) [
  | inl now ↦ ([], x ∷ s, refl, now)
  | inr later ↦
      let (u, t, e, g) = any_end_some f s (ground arith) in (x ∷ u, t, ap (λ l. x ∷ l) e, g)
]

Matches-glob : {p s : Bytes} → Matches p s → glob p s ≡ true
Matches-glob at_end = refl
Matches-glob (any_text {p = p} {s = s} u m) = any_end_take (glob p) u s (Matches-glob m)
Matches-glob (any_byte x m) = ground (arith, Matches-glob m)
Matches-glob (same_byte {p = p} {s = s} x m) =
    let rest : glob p s ≡ true = Matches-glob m in
    let any_rest = any_end_take (glob p) [] s rest in ground arith

one-Matches :
    (c : ℕ) (p s : Bytes)
    → ((t : Bytes) → glob p t ≡ true → Matches p t)
    → takes_one c (glob p) s ≡ true
    → Matches (c ∷ p) s
one-Matches c p [] ih h = absurd cc
one-Matches c p (x ∷ s) ih h = elim (Bool-cases (c == b'?')) [
  | inl any ↦
      let e : b'?' ≡ c = ground arith in
      subst (λ d. Matches (d ∷ p) (x ∷ s)) e (any_byte x (ih s (ground arith)))
  | inr plain ↦
      let e : x ≡ c = ground arith in
      subst (λ d. Matches (d ∷ p) (x ∷ s)) e (same_byte x (ih s (ground arith)))
]

glob-Matches : (p s : Bytes) → glob p s ≡ true → Matches p s
glob-Matches [] [] h = at_end
glob-Matches [] (x ∷ s) h = absurd cc
glob-Matches (c ∷ p) s h = elim (Bool-cases (c == star)) [
  | inl wild ↦
      let (u, t, e, g) =
        any_end_some (glob p) s
          (subst (λ b. (if b then any_end (glob p) s else takes_one c (glob p) s) ≡ true) wild h) in
      let c-star : star ≡ c = ground arith in
      subst (λ d. Matches (d ∷ p) s) c-star
        (subst (Matches (star ∷ p)) (sym e) (any_text u (glob-Matches p t g)))
  | inr plain ↦
      one-Matches c p s (glob-Matches p)
        (subst (λ b. (if b then any_end (glob p) s else takes_one c (glob p) s) ≡ true) plain h)
]

-- The matcher of `case` and `[[` accepts exactly the texts that the pattern matches, although it goes
-- back to the last star only.
pub case_pat_match-Matches : (pat str : Bytes) → (case_pat_match pat str ≡ true) ↔ Matches pat str
case_pat_match-Matches pat str = (
  λ h. glob-Matches pat str (sym (case_pat_match-glob pat str) ∙ h),
  λ m. case_pat_match-glob pat str ∙ Matches-glob m,
)
