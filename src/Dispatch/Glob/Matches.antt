-- ===== src/Dispatch/Glob/Matches.antt =====
-- What a pattern of `case` matches, and that `case_pat_match` decides it.
use petrush.Base.{
  ℕ, suc, ◌<◌, ◌≡◌, refl, ◌∙◌, ap, Bool, true, false, ◌&&◌, ◌||◌, none, some, [], ◌∷◌, ◌++◌, ◌==◌,
  arith, inl, inr, Bool-cases, subst, if◌then◌else◌, length,
}
use petrush.Text.{Bytes}
use petrush.Dispatch.Glob.{star, only_stars, behind, Star}

-- A star matches any text, `?` any byte, and every other byte itself.
pub data Matches : Bytes → Bytes → Type 0 where
  at_end : Matches [] []
  any_text : {p s : Bytes} (u : Bytes) → Matches p s → Matches (star ∷ p) (u ++ s)
  any_byte : {p s : Bytes} (x : ℕ) → Matches p s → Matches (b'?' ∷ p) (x ∷ s)
  same_byte : {p s : Bytes} (x : ℕ) → Matches p s → Matches (x ∷ p) (x ∷ s)

-- Some end of the text, and some end that is shorter.
abbrev pub any_end : (Bytes → Bool) → Bytes → Bool
any_end f [] = f []
any_end f (x ∷ s) = f (x ∷ s) || any_end f s

abbrev pub any_shorter : (Bytes → Bool) → Bytes → Bool
any_shorter f [] = false
any_shorter f (x ∷ s) = any_end f s

abbrev pub takes_one : ℕ → (Bytes → Bool) → Bytes → Bool
takes_one c f [] = false
takes_one c f (x ∷ s) = (c == b'?' || c == x) && f s

abbrev no_text : Bytes → Bool
no_text [] = true
no_text (x ∷ s) = false

-- The pattern read from left to right, with every end of the text tried for a star.
abbrev pub glob : Bytes → Bytes → Bool
glob [] s = no_text s
glob (c ∷ p) s = if c == star then any_end (glob p) s else takes_one c (glob p) s

pub any_end_split : (f : Bytes → Bool) (s : Bytes) → any_end f s ≡ (f s || any_shorter f s)
any_end_split f [] = ground arith
any_end_split f (x ∷ s) = refl

pub any_end_idem :
    (f : Bytes → Bool) (s : Bytes) → any_end (any_end f) s ≡ true → any_end f s ≡ true
any_end_idem f [] h = h
any_end_idem f (x ∷ s) h = ground (arith, any_end_idem f s)

pub any_shorter-any_end :
    (f : Bytes → Bool) (s : Bytes) → any_shorter f s ≡ true → any_end f s ≡ true
any_shorter-any_end f [] h = cc
any_shorter-any_end f (x ∷ s) h = ground arith

-- The pattern and the text behind a star, and what is left of both behind bytes that met.
pub data Reach (sp ss : Bytes) : Bytes → Bytes → Type 0 where
  here : Reach sp ss sp ss
  met :
      {c x : ℕ} {p s : Bytes} → (c == star) ≡ false → Reach sp ss (c ∷ p) (x ∷ s) → Reach sp ss p s

one-shorter :
    (c : ℕ) (f : Bytes → Bool) (s : Bytes)
    → any_end (takes_one c f) s ≡ true
    → any_shorter f s ≡ true
one-shorter c f [] h = h
one-shorter c f (x ∷ s) h = elim (Bool-cases (f s)) [
  | inl now ↦ ground (arith, any_end_split f s)
  | inr later ↦ any_shorter-any_end f s (one-shorter c f s (ground arith))
]

-- A shorter text that the star may take leaves less behind what met.
Reach-shorter :
    {sp ss p s : Bytes}
    → Reach sp ss p s
    → any_shorter (glob sp) ss ≡ true
    → any_shorter (glob p) s ≡ true
Reach-shorter here h = h
Reach-shorter (met {c = c} {x = x} {p = p} {s = s} other r) h =
    let step : any_end (λ t. if c == star then any_end (glob p) t else takes_one c (glob p) t) s
        ≡ true =
      Reach-shorter r h in
    one-shorter c (glob p) s (
      subst (λ b. any_end (λ t. if b then any_end (glob p) t else takes_one c (glob p) t) s ≡ true)
        other step)

unfoldable pub stars : Bytes → ℕ
stars [] = 0
stars (c ∷ p) = if c == star then suc (stars p) else stars p

pub Reach-stars : {sp ss p s : Bytes} → Reach sp ss p s → stars sp ≡ stars p
unfolding stars
Reach-stars here = refl
Reach-stars (met {c = c} {p = p} other r) =
    Reach-stars r ∙ ap (λ b. if b then suc (stars p) else stars p) other

Reach-nil : {sp p s : Bytes} → Reach sp [] p s → s ≡ []
Reach-nil here = refl
Reach-nil (met other r) = absurd (nonempty (Reach-nil r))
  where
    nonempty : {x : ℕ} {t : Bytes} → x ∷ t ≡ [] → ⊥
    nonempty e = cc

-- A text that the star may take next.
pub shorter :
    (sp ss p s : Bytes) (x : ℕ)
    → Reach sp ss p (x ∷ s)
    → (length (behind ss) < length ss) × (any_shorter (glob sp) ss ≡ any_end (glob sp) (behind ss))
shorter sp [] p s x r = absurd (let e = Reach-nil r in cc)
shorter sp (y ∷ ss) p s x r = (omega arith, refl)

-- What the loop knows of the last star, the fuel for it, and whether it can take more and match.
unfoldable pub Behind : Star → Bytes → Bytes → Type 0
Behind none p s = Unit
Behind (some (sp, ss)) p s = Reach sp ss p s

unfoldable pub Room : ℕ → Star → Type 0
Room b none = 0 < b
Room b (some (sp, ss)) = length ss < b

abbrev pub retry : Star → Bool
retry none = false
retry (some (sp, ss)) = any_shorter (glob sp) ss

pub retry-Behind :
    (st : Star) (p s : Bytes) → Behind st p s → retry st ≡ true → any_shorter (glob p) s ≡ true
unfolding Behind
retry-Behind none p s b h = absurd cc
retry-Behind (some (sp, ss)) p s b h = Reach-shorter b h

pub only_stars-glob : (p : Bytes) → only_stars p ≡ glob p []
unfolding only_stars
only_stars-glob [] = refl
only_stars-glob (c ∷ p) = ground (arith, only_stars-glob p)
