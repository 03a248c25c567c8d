-- ===== src/Alias/Reach.antt =====
-- All alias tables that a shell session can reach (src/mid/alias.c).
use petrush.Text.{Bytes}
use petrush.Alias.{Aliases, clear_all, alias_set, alias_unset}
use petrush.Alias.Invariant.{
  IsAliases, clear_all-IsAliases, alias_set-IsAliases, alias_unset-IsAliases,
}

-- The tables after any calls in any order, refused ones included.
pub data Reach : Aliases → Type 0 where
  cleared : Reach clear_all
  defined : {t : Aliases} (name value : Bytes) → Reach t → Reach (alias_set name value t).1
  undefined : {t : Aliases} (name : Bytes) → Reach t → Reach (alias_unset name t).1

-- Every table that a session reaches has 64 entries; the names in it are valid, shorter than 64
-- bytes and distinct, and the values shorter than 512 bytes.
pub Reach-IsAliases : {t : Aliases} → Reach t → IsAliases t
Reach-IsAliases cleared = clear_all-IsAliases
Reach-IsAliases (defined {t} name value r) = alias_set-IsAliases name value t (Reach-IsAliases r)
Reach-IsAliases (undefined {t} name r) = alias_unset-IsAliases name t (Reach-IsAliases r)
