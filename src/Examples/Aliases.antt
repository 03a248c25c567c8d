-- ===== src/Examples/Aliases.antt =====
-- The alias table (src/mid/alias.c, tests/test_alias.c).
use petrush.Base.{
  ◌≡◌, ◌↔◌, ◌⊎◌, ◌≤◌, ◌<◌, refl, true, false, none, some, [], ◌++◌, length, if◌then◌else◌,
}
use petrush.Text.{Bytes, codes, str_eq, skip_space}
use petrush.Alias.{
  Aliases, clear_all, alias_name_max, alias_val_max, valid_name, alias_set, alias_unset, alias_get,
  alias_list_print, alias_expand_line, update, fill, remove, first_word, after_word,
}
use petrush.Alias.Table.{used, get-alias_set, alias_set_refuses}
use petrush.Alias.Invariant.{IsAliases}
use petrush.Alias.Reach.{Reach, cleared, defined, undefined, Reach-IsAliases}
use petrush.Alias.Expand.{alias_expand_line_lem}

abbrev with_ll : Aliases
with_ll = (alias_set (codes "ll") (codes "ls -la") clear_all).1

ll_accepted : alias_set (codes "ll") (codes "ls -la") clear_all ≡ (true, with_ll)
unfolding alias_set valid_name update fill
ll_accepted = refl

expanded : alias_expand_line with_ll (codes "  ll /tmp") ≡ codes "ls -la /tmp"
unfolding alias_expand_line skip_space alias_get alias_set valid_name update fill first_word
    after_word str_eq
expanded = refl

removed : alias_list_print (alias_unset (codes "ll") with_ll).1 ≡ []
unfolding alias_list_print alias_unset remove alias_set valid_name update fill str_eq
removed = refl

bad_name : (alias_set (codes "2x") (codes "ls") clear_all).0 ≡ false
unfolding alias_set valid_name
bad_name = refl

with_ll-Reach : Reach with_ll
with_ll-Reach = defined (codes "ll") (codes "ls -la") cleared

Reach-IsAliases_example : IsAliases (alias_unset (codes "ll") with_ll).1
Reach-IsAliases_example = Reach-IsAliases (undefined (codes "ll") with_ll-Reach)

with_ll-IsAliases : IsAliases with_ll
with_ll-IsAliases = Reach-IsAliases with_ll-Reach

get-alias_set_example : alias_get (codes "ll") with_ll ≡ (
    if str_eq (codes "ll") (codes "ll")
    then some (codes "ls -la")
    else alias_get (codes "ll") clear_all)
get-alias_set_example =
    get-alias_set (codes "ll") (codes "ls -la") clear_all with_ll (codes "ll") ll_accepted

alias_set_refuses_example :
    (((alias_set (codes "2x") (codes "ls") with_ll).0 ≡ false) ↔ (
      (valid_name (codes "2x") ≡ false)
      ⊎ (alias_name_max ≤ length (codes "2x"))
      ⊎ (alias_val_max ≤ length (codes "ls"))
      ⊎ (alias_get (codes "2x") with_ll ≡ none) × (used with_ll ≡ length with_ll)))
    × ((alias_set (codes "2x") (codes "ls") with_ll).0 ≡ false
        → (alias_set (codes "2x") (codes "ls") with_ll).1 ≡ with_ll)
alias_set_refuses_example = alias_set_refuses (codes "2x") (codes "ls") with_ll

alias_expand_line_example :
    ((value : Bytes)
      → length (codes "ll") < alias_name_max
      → alias_get (codes "ll") with_ll ≡ some value
      → alias_expand_line with_ll (codes "  " ++ (codes "ll" ++ codes " /tmp"))
        ≡ value ++ codes " /tmp")
    × (alias_get (codes "ll") with_ll ≡ none
        → alias_expand_line with_ll (codes "  " ++ (codes "ll" ++ codes " /tmp"))
          ≡ codes "ll" ++ codes " /tmp")
alias_expand_line_example =
    alias_expand_line_lem with_ll (codes "  ") (codes "ll") (codes " /tmp") (refl, (refl, tt))
      (λ e. cc) (refl, (refl, tt)) refl
