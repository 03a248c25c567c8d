-- ===== src/Parser/List/Place.antt =====
-- What the tests of the parser find at a place of a text, from the text that stands there.
use petrush.Base.{
  ℕ, zero, suc, ◌+◌, ◌≡◌, refl, sym, ap, ◌∙◌, Bool, true, false, Option, none, some, [], ◌∷◌, ◌++◌,
  arith, ◌==◌, not, ◌&&◌, length, drop, if◌then◌else◌,
}
use petrush.Text.{Bytes, codes, at}
use petrush.Parser.Connector.Found.{at-drop}
use petrush.Parser.Keyword.{
  blanks, skip_ws_pos, starts_with, ends_kw, match_kw_at, match_rbrace_at, match_dsemi_at, has,
  kw_if, kw_then, kw_else, kw_elif, kw_fi, kw_while, kw_do, kw_done, kw_rbrace, kw_esac, kw_dsemi,
  either, peek_with, peek_kw_mask,
}
use petrush.Parser.Scan.{answered_by}
use petrush.Parser.List.{stops}

-- The text from `pos` on is `t`.
pub record At (s : Bytes) (pos : ℕ) (t : Bytes) : Type 0 where
  pub left : drop pos s ≡ t

drop-add : (m n : ℕ) (s : Bytes) → drop (m + n) s ≡ drop n (drop m s)
drop-add zero n s = let e : 0 + n ≡ n = omega arith in ap (λ k. drop k s) e
drop-add (suc m) zero s = let e : suc m + 0 ≡ suc m = omega arith in ap (λ k. drop k s) e
drop-add (suc m) (suc n) [] =
    let e : suc m + suc n ≡ suc (m + suc n) = omega arith in ap (λ k. drop k []) e
drop-add (suc m) (suc n) (c ∷ cs) =
    let e : suc m + suc n ≡ suc (m + suc n) = omega arith in
    ap (λ k. drop k (c ∷ cs)) e ∙ drop-add m (suc n) cs

drop-append : (a t : Bytes) → drop (length a) (a ++ t) ≡ t
drop-append [] t = refl
drop-append (c ∷ a) t = drop-append a t

pub At-append : {s : Bytes} {pos : ℕ} (a t : Bytes) → At s pos (a ++ t) → At s (pos + length a) t
At-append {s} {pos} a t h = record {
  left = drop-add pos (length a) s ∙ ap (drop (length a)) h.left ∙ drop-append a t;
}

pub at-At : {s : Bytes} {pos : ℕ} {t : Bytes} → At s pos t → (i : ℕ) → at s (pos + i) ≡ at t i
at-At {s} {pos} h i = sym (at-drop pos s i) ∙ ap (λ p. at p i) h.left

pub skip_ws_pos-At :
    {s : Bytes} {pos : ℕ} {t : Bytes} → At s pos t → skip_ws_pos s pos ≡ pos + blanks t
unfolding skip_ws_pos
skip_ws_pos-At {pos} h = ap (λ p. pos + blanks p) h.left

-- An answer for a text that stands at `pos`.
abbrev pub shift : ℕ → Option ℕ → Option ℕ
shift pos none = none
shift pos (some e) = some (pos + e)

-- What stands at the byte `n` and at those behind it.
At-blanks : {s : Bytes} {pos : ℕ} {t : Bytes} (n : ℕ) → At s pos t → At s (pos + n) (drop n t)
At-blanks {s} {pos} n h = record { left = drop-add pos n s ∙ ap (drop n) h.left }

match_kw_at-place :
    {s : Bytes} {pos : ℕ} {t : Bytes} (kw : Bytes) (n : ℕ)
    → At s pos t
    → (if not (starts_with (drop (pos + n) s) kw)
        then none
        else if not (ends_kw (at s (pos + n + length kw)))
        then none
        else some (pos + n + length kw))
      ≡ shift pos (
          if not (starts_with (drop n t) kw)
          then none
          else if not (ends_kw (at t (n + length kw)))
          then none
          else some (n + length kw))
match_kw_at-place {s} {pos} {t} kw n h =
    let e : pos + n + length kw ≡ pos + (n + length kw) = omega arith in
    rw (At-blanks n h).left (rw e (rw (at-At h (n + length kw)) ground arith))

pub match_kw_at-At :
    {s : Bytes} {pos : ℕ} {t : Bytes} (kw : Bytes)
    → At s pos t
    → match_kw_at s pos kw ≡ shift pos (match_kw_at t 0 kw)
unfolding match_kw_at skip_ws_pos
match_kw_at-At {s} {pos} {t} kw h =
    let e : 0 + blanks t ≡ blanks t = omega arith in
    rw h.left (rw e (match_kw_at-place kw (blanks t) h))

match_rbrace_at-At :
    {s : Bytes} {pos : ℕ} {t : Bytes}
    → At s pos t
    → match_rbrace_at s pos ≡ shift pos (match_rbrace_at t 0)
unfolding match_rbrace_at skip_ws_pos
match_rbrace_at-At {s} {pos} {t} h =
    let e : 0 + blanks t ≡ blanks t = omega arith in
    let g : pos + blanks t + 1 ≡ pos + (blanks t + 1) = omega arith in
    rw h.left (rw e (rw (at-At h (blanks t)) (rw g (ground arith))))

match_dsemi_at-At :
    {s : Bytes} {pos : ℕ} {t : Bytes}
    → At s pos t
    → match_dsemi_at s pos ≡ shift pos (match_dsemi_at t 0)
unfolding match_dsemi_at skip_ws_pos
match_dsemi_at-At {s} {pos} {t} h =
    let e : 0 + blanks t ≡ blanks t = omega arith in
    let g : pos + blanks t + 1 ≡ pos + (blanks t + 1) = omega arith in
    let g2 : pos + blanks t + 2 ≡ pos + (blanks t + 2) = omega arith in
    rw h.left
      (rw e (rw (at-At h (blanks t)) (rw g (rw (at-At h (blanks t + 1)) (rw g2 (ground arith))))))

-- Both are an answer, or none.
data Agree : Option (ℕ × ℕ) → Option (ℕ × ℕ) → Type 0 where
  agree_none : Agree none none
  agree_some : {k k' : ℕ × ℕ} → Agree (some k) (some k')

either-Agree :
    (pos : ℕ) (o : Option ℕ) (b : Bool) (k : ℕ) {later later' : Option (ℕ × ℕ)}
    → Agree later' later
    → Agree (either (shift pos o) b k later') (either o b k later)
either-Agree pos none b k a = a
either-Agree pos (some end) true k a = agree_some
either-Agree pos (some end) false k a = a

peek_with-Agree :
    (pos : ℕ) (m m' : Bytes → Option ℕ) (r d : Option ℕ) (mask : ℕ)
    → ((kw : Bytes) → m' kw ≡ shift pos (m kw))
    → Agree (peek_with m' (shift pos r) (shift pos d) mask) (peek_with m r d mask)
peek_with-Agree pos m m' r d mask e = rw (e (codes "elif")) (
    rw (e (codes "else")) (
      rw (e (codes "then")) (
        rw (e (codes "fi")) (
          rw (e (codes "if")) (
            rw (e (codes "while")) (
              rw (e (codes "done")) (
                rw (e (codes "do")) (
                  rw (e (codes "esac")) (
                    either-Agree pos (m (codes "elif")) (has mask kw_elif) kw_elif (
                      either-Agree pos (m (codes "else")) (has mask kw_else) kw_else (
                        either-Agree pos (m (codes "then")) (has mask kw_then) kw_then (
                          either-Agree pos (m (codes "fi")) (has mask kw_fi) kw_fi (
                            either-Agree pos (m (codes "if")) (has mask kw_if) kw_if (
                              either-Agree pos (m (codes "while")) (has mask kw_while) kw_while (
                                either-Agree pos (m (codes "done")) (has mask kw_done) kw_done (
                                  either-Agree pos (m (codes "do")) (has mask kw_do) kw_do (
                                    either-Agree pos r (has mask kw_rbrace) kw_rbrace (
                                      either-Agree pos (m (codes "esac")) (has mask kw_esac) kw_esac
                                        (either-Agree pos d (has mask kw_dsemi) kw_dsemi
                                          agree_none)))))))))))))))))))

answered_by-Agree : {a b : Option (ℕ × ℕ)} → Agree a b → answered_by a ≡ answered_by b
answered_by-Agree agree_none = refl
answered_by-Agree agree_some = refl

answered_by-shift : (pos : ℕ) (o : Option ℕ) → answered_by (shift pos o) ≡ answered_by o
answered_by-shift pos none = refl
answered_by-shift pos (some e) = refl

-- Whether a keyword stops the list here is a matter of the text that stands here.
pub stops-At :
    {s : Bytes} {pos : ℕ} {t : Bytes} (mask : ℕ) → At s pos t → stops s mask pos ≡ stops t mask 0
unfolding peek_kw_mask
stops-At {s} {pos} {t} mask h =
    ap (λ b. not (mask == 0) && b)
      (rw (match_rbrace_at-At h) (
        rw (match_dsemi_at-At h) (
          answered_by-Agree (
            peek_with-Agree pos (match_kw_at t 0) (match_kw_at s pos) (match_rbrace_at t 0)
              (match_dsemi_at t 0) mask (λ kw. match_kw_at-At kw h)))))

pub matches-At :
    {s : Bytes} {pos : ℕ} {t : Bytes} (kw : Bytes)
    → At s pos t
    → answered_by (match_kw_at s pos kw) ≡ answered_by (match_kw_at t 0 kw)
matches-At {pos} kw h = ap answered_by (match_kw_at-At kw h) ∙ answered_by-shift pos _
