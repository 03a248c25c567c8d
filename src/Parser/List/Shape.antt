-- ===== src/Parser/List/Shape.antt =====
-- The shape of the trees that the parser of lists builds.
use petrush.Base.{◌≡◌, ◌≢◌, Bool, true, false, []}
use petrush.Parser.Connector.{RunCond, cond_always}
use petrush.Parser.Stage.Shape.{AreStages}
use petrush.Parser.Scan.Moves.{IsFnName}
use petrush.Parser.Scan.Progress.{AllFull, ArePatterns, AreTokens}
use petrush.Dispatch.Syntax.{
  Items, nil, cons, Item, pipeline, if_item, while_item, for_item, fn_item, case_item, dbracket,
  Arms, no_arms, if_arm, else_arm, CaseArms, no_cases, case_arm,
}

-- The first item of the list, if there is one, has this condition.
abbrev pub Begins : RunCond → Items → Type 0
Begins cond nil = Unit
Begins cond (cons c bg it rest) = c ≡ cond

-- An item in the background is no operand of a following `&&` or `||`.
abbrev pub Parted : Bool → Items → Type 0
Parted false rest = Unit
Parted true rest = Begins cond_always rest

-- The first arm has a condition.
abbrev pub Conditional : Arms → Type 0
Conditional no_arms = ⊥
Conditional (else_arm body arms) = ⊥
Conditional (if_arm cond body arms) = Unit

abbrev mutual
  pub IsRest : Items → Type 0
  IsRest nil = Unit
  IsRest (cons c bg it rest) = Parted bg rest × IsItem it × IsRest rest

  pub IsItem : Item → Type 0
  IsItem (pipeline cs) = (cs ≢ []) × AreStages cs
  IsItem (if_item arms) = Conditional arms × IsArms arms
  IsItem (while_item cond body) =
      (cond ≢ nil)
      × (Begins cond_always cond × IsRest cond)
      × (Begins cond_always body × IsRest body)
  IsItem (for_item name words body) =
      (name ≢ []) × AllFull words × (Begins cond_always body × IsRest body)
  IsItem (fn_item name body) = IsFnName name × (Begins cond_always body × IsRest body)
  IsItem (case_item word arms) = (word ≢ []) × AreCases arms
  IsItem (dbracket words) = AreTokens words

  -- No arm of an `if` stands behind its `else`.
  pub IsArms : Arms → Type 0
  IsArms no_arms = Unit
  IsArms (if_arm cond body arms) =
      (cond ≢ nil)
      × (Begins cond_always cond × IsRest cond)
      × (Begins cond_always body × IsRest body)
      × IsArms arms
  IsArms (else_arm body arms) = (Begins cond_always body × IsRest body) × (arms ≡ no_arms)

  pub AreCases : CaseArms → Type 0
  AreCases no_cases = Unit
  AreCases (case_arm patterns body arms) =
      ArePatterns patterns × (Begins cond_always body × IsRest body) × AreCases arms

-- A list runs its first item always.
abbrev pub IsList : Items → Type 0
IsList l = Begins cond_always l × IsRest l
