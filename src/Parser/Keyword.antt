-- ===== src/Parser/Keyword.antt =====
-- The keywords of compound commands (src/mid/parser.c): `match_kw_at` and its kin, `peek_kw_mask`.
pub mod Peek
use petrush.Base.{
  ℕ, ◌+◌, ◌/◌, ◌%◌, Bool, true, false, not, ◌&&◌, ◌||◌, Option, none, some, List, [], ◌∷◌, ◌==◌,
  if◌then◌else◌, length, drop, suc,
}
use petrush.Text.{Bytes, codes, at, is_space}

abbrev pub kw_if : ℕ
kw_if = 1

abbrev pub kw_then : ℕ
kw_then = 2

abbrev pub kw_else : ℕ
kw_else = 4

abbrev pub kw_elif : ℕ
kw_elif = 8

abbrev pub kw_fi : ℕ
kw_fi = 16

abbrev pub kw_while : ℕ
kw_while = 32

abbrev pub kw_do : ℕ
kw_do = 64

abbrev pub kw_done : ℕ
kw_done = 128

abbrev pub kw_rbrace : ℕ
kw_rbrace = 512

abbrev pub kw_esac : ℕ
kw_esac = 1024

abbrev pub kw_dsemi : ℕ
kw_dsemi = 2048

-- The number of space bytes that the text begins with.
unfoldable pub blanks : Bytes → ℕ
blanks [] = 0
blanks (c ∷ cs) = if is_space c then suc (blanks cs) else 0

unfoldable pub skip_ws_pos : Bytes → ℕ → ℕ
unfolding blanks
skip_ws_pos s pos = pos + blanks (drop pos s)

-- `strncmp(p, kw, strlen(kw)) == 0`.
unfoldable pub starts_with : Bytes → Bytes → Bool
starts_with p [] = true
starts_with [] (k ∷ ks) = false
starts_with (c ∷ cs) (k ∷ ks) = c == k && starts_with cs ks

-- What may stand behind a keyword.
abbrev pub ends_kw : ℕ → Bool
ends_kw c = c == 0 || is_space c || c == b';' || c == b'&' || c == b'|' || c == b'<' || c == b'>'

-- The end of the keyword, if it stands at the first byte from `pos` on that is not space.
unfoldable pub match_kw_at : Bytes → ℕ → Bytes → Option ℕ
unfolding skip_ws_pos starts_with
match_kw_at s pos kw =
    let i = skip_ws_pos s pos in
    if not (starts_with (drop i s) kw)
    then none
    else if not (ends_kw (at s (i + length kw)))
    then none
    else some (i + length kw)

unfoldable pub match_lbrace_at : Bytes → ℕ → Option ℕ
unfolding skip_ws_pos
match_lbrace_at s pos =
    let i = skip_ws_pos s pos in if not (at s i == b'{') then none else some (i + 1)

unfoldable pub match_rbrace_at : Bytes → ℕ → Option ℕ
unfolding skip_ws_pos
match_rbrace_at s pos =
    let i = skip_ws_pos s pos in if not (at s i == b'}') then none else some (i + 1)

unfoldable pub match_dsemi_at : Bytes → ℕ → Option ℕ
unfolding skip_ws_pos
match_dsemi_at s pos =
    let i = skip_ws_pos s pos in
    if not (at s i == b';') || not (at s (i + 1) == b';') then none else some (i + 2)

-- `mask & bit` for one bit.
abbrev pub has : ℕ → ℕ → Bool
has mask bit = not (mask / bit % 2 == 0)

-- A keyword that matches, with its end, where the mask has it; or else what the later tests give.
abbrev pub either : Option ℕ → Bool → ℕ → Option (ℕ × ℕ) → Option (ℕ × ℕ)
either none wanted kw later = later
either (some end) true kw later = some (kw, end)
either (some end) false kw later = later

-- The tests in their order, for `match_kw_at`, `match_rbrace_at` and `match_dsemi_at` at one place.
abbrev pub peek_with : (Bytes → Option ℕ) → Option ℕ → Option ℕ → ℕ → Option (ℕ × ℕ)
peek_with matches rbrace dsemi mask = either (matches (codes "elif")) (has mask kw_elif) kw_elif (
    either (matches (codes "else")) (has mask kw_else) kw_else (
      either (matches (codes "then")) (has mask kw_then) kw_then (
        either (matches (codes "fi")) (has mask kw_fi) kw_fi (
          either (matches (codes "if")) (has mask kw_if) kw_if (
            either (matches (codes "while")) (has mask kw_while) kw_while (
              either (matches (codes "done")) (has mask kw_done) kw_done (
                either (matches (codes "do")) (has mask kw_do) kw_do (
                  either rbrace (has mask kw_rbrace) kw_rbrace (
                    either (matches (codes "esac")) (has mask kw_esac) kw_esac
                      (either dsemi (has mask kw_dsemi) kw_dsemi none))))))))))

-- `none` is the result 0.
unfoldable pub peek_kw_mask : Bytes → ℕ → ℕ → Option (ℕ × ℕ)
unfolding match_kw_at match_rbrace_at match_dsemi_at
peek_kw_mask s pos mask =
    peek_with (match_kw_at s pos) (match_rbrace_at s pos) (match_dsemi_at s pos) mask
