-- ===== src/Parser/Keyword/Peek.antt =====
-- The keyword at the head of a text: `peek_kw_mask` recognises each, whatever the order of its tests.
use petrush.Base.{ℕ, ◌+◌, Option, none, some, not, if◌then◌else◌, length}
use petrush.Text.{Bytes, codes, at}
use petrush.Parser.Keyword.{
  kw_if, kw_then, kw_else, kw_elif, kw_fi, kw_while, kw_do, kw_done, kw_esac, starts_with, ends_kw,
}

pub data Keyword : Type 0 where
  word_if word_then word_else word_elif word_fi word_while word_do word_done word_esac : Keyword

abbrev pub spelling : Keyword → Bytes
spelling word_if = codes "if"
spelling word_then = codes "then"
spelling word_else = codes "else"
spelling word_elif = codes "elif"
spelling word_fi = codes "fi"
spelling word_while = codes "while"
spelling word_do = codes "do"
spelling word_done = codes "done"
spelling word_esac = codes "esac"

abbrev pub bit : Keyword → ℕ
bit word_if = kw_if
bit word_then = kw_then
bit word_else = kw_else
bit word_elif = kw_elif
bit word_fi = kw_fi
bit word_while = kw_while
bit word_do = kw_do
bit word_done = kw_done
bit word_esac = kw_esac

-- What `match_kw_at` gives where the text `t` stands behind `n` bytes of space.
abbrev matched : ℕ → Bytes → Bytes → Option ℕ
matched n t kw =
    if not (starts_with t kw)
    then none
    else if not (ends_kw (at t (length kw)))
    then none
    else some (n + length kw)
