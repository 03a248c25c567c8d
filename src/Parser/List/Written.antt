-- ===== src/Parser/List/Written.antt =====
-- A grammar of lists: commands with their connectors, `while`, and `if` with `elif` and `else`.
use petrush.Base.{ℕ, ◌≡◌, ◌≢◌, Bool, true, false, not, ◌||◌, List, ◌∷◌, ◌++◌, ◌==◌}
use petrush.Text.{Bytes, codes, is_space, is_alpha}
use petrush.Parser.Result.{ok}
use petrush.Parser.Stage.{Cmd, parse_pipeline}
use petrush.Parser.Connector.{RunCond, cond_always, cond_and, cond_or}
use petrush.Parser.Connector.Found.{Quiet}
use petrush.Parser.Segment.{rtrim}
use petrush.Dispatch.Syntax.{
  Items, nil, cons, Item, pipeline, if_item, while_item, Arms, no_arms, if_arm, else_arm,
}

-- A byte that begins a command, and neither a keyword, a bracket, a brace nor the name of a function.
abbrev pub is_head : ℕ → Bool
is_head c =
    not (c == 0 || is_space c || is_alpha c || c == b'_' || c == b'[' || c == b'}' || c == b';')

-- The text of a pipeline: no connector stands in it outside quotes, and no space around it.
pub record Command (w : Bytes) (cs : List Cmd) : Type 0 where
  pub head : ℕ
  pub tail : Bytes
  pub begins : w ≡ head ∷ tail
  pub plain : is_head head ≡ true
  pub quiet : Quiet w
  pub trimmed : rtrim w ≡ w
  pub parsed : parse_pipeline w ≡ ok cs

-- A connector, the condition of the item behind it, and whether the item before it goes to the
-- background.
pub data Joins : Bytes → RunCond → Bool → Type 0 where
  semicolon : Joins (codes ";") cond_always false
  ampersand : Joins (codes "&") cond_always true
  and_then : Joins (codes "&&") cond_and false
  or_else : Joins (codes "||") cond_or false

-- `Written rest cond text l`: the text is that of the list, with `rest` behind it. Each item has a
-- space before it and a connector behind it; `cond` is the condition of the first item.
mutual
  pub data Written : Bytes → RunCond → Bytes → Items → Type 0 where
    finished : {rest : Bytes} → Written rest cond_always (b' ' ∷ rest) nil
    item :
        {rest sep r text : Bytes} {cond c : RunCond} {bg : Bool} {it : Item} {l : Items}
        → WrittenItem (sep ++ r) text it
        → Joins sep c bg
        → Written rest c r l
        → Written rest cond (b' ' ∷ text) (cons cond bg it l)

  pub data WrittenItem : Bytes → Bytes → Item → Type 0 where
    command :
        {rest w : Bytes} {cs : List Cmd} → Command w cs → WrittenItem rest (w ++ rest) (pipeline cs)
    while_loop :
        {rest c b : Bytes} {cond body : Items}
        → Written (codes "do" ++ b) cond_always c cond
        → cond ≢ nil
        → Written (codes "done" ++ rest) cond_always b body
        → WrittenItem rest (codes "while" ++ c) (while_item cond body)
    branches :
        {rest t : Bytes} {arms : Arms}
        → WrittenArms rest t arms
        → WrittenItem rest (codes "if" ++ t) (if_item arms)

  pub data WrittenArms : Bytes → Bytes → Arms → Type 0 where
    arm :
        {rest t b r : Bytes} {cond body : Items} {arms : Arms}
        → Written (codes "then" ++ b) cond_always t cond
        → cond ≢ nil
        → Written r cond_always b body
        → WrittenRest rest r arms
        → WrittenArms rest t (if_arm cond body arms)

  pub data WrittenRest : Bytes → Bytes → Arms → Type 0 where
    fi : {rest : Bytes} → WrittenRest rest (codes "fi" ++ rest) no_arms
    otherwise :
        {rest b : Bytes} {body : Items}
        → Written (codes "fi" ++ rest) cond_always b body
        → WrittenRest rest (codes "else" ++ b) (else_arm body no_arms)
    elif :
        {rest t : Bytes} {arms : Arms}
        → WrittenArms rest t arms
        → WrittenRest rest (codes "elif" ++ t) arms
