-- ===== src/Dispatch/Eval/Plain.antt =====
-- Lists without `while` and without definitions of functions, and the fuel that they need.
use petrush.Base.{ℕ, suc, ◌+◌, length}
use petrush.Dispatch.Syntax.{
  Items, nil, cons, Item, pipeline, if_item, while_item, for_item, fn_item, case_item, dbracket,
  Arms, no_arms, if_arm, else_arm, CaseArms, no_cases, case_arm,
}

unfoldable mutual
  pub IsPlain : Items → Type 0
  IsPlain nil = Unit
  IsPlain (cons cond bg it rest) = PlainItem it × IsPlain rest

  pub PlainItem : Item → Type 0
  PlainItem (pipeline cs) = Unit
  PlainItem (if_item arms) = PlainArms arms
  PlainItem (while_item cond body) = ⊥
  PlainItem (for_item name words body) = IsPlain body
  PlainItem (fn_item name body) = ⊥
  PlainItem (case_item word arms) = PlainCases arms
  PlainItem (dbracket ws) = Unit

  pub PlainArms : Arms → Type 0
  PlainArms no_arms = Unit
  PlainArms (if_arm cond body rest) = IsPlain cond × IsPlain body × PlainArms rest
  PlainArms (else_arm body rest) = IsPlain body

  pub PlainCases : CaseArms → Type 0
  PlainCases no_cases = Unit
  PlainCases (case_arm patterns body rest) = IsPlain body × PlainCases rest

unfoldable mutual
  pub items_fuel : Items → ℕ
  items_fuel nil = 1
  items_fuel (cons cond bg it rest) = suc (item_fuel it + items_fuel rest)

  pub item_fuel : Item → ℕ
  item_fuel (pipeline cs) = 1
  item_fuel (if_item arms) = suc (arms_fuel arms)
  item_fuel (while_item cond body) = 1
  item_fuel (for_item name words body) = suc (suc (length words + items_fuel body))
  item_fuel (fn_item name body) = 1
  item_fuel (case_item word arms) = suc (cases_fuel arms)
  item_fuel (dbracket ws) = 1

  pub arms_fuel : Arms → ℕ
  arms_fuel no_arms = 1
  arms_fuel (if_arm cond body rest) = suc (items_fuel cond + items_fuel body + arms_fuel rest)
  arms_fuel (else_arm body rest) = suc (items_fuel body)

  pub cases_fuel : CaseArms → ℕ
  cases_fuel no_cases = 1
  cases_fuel (case_arm patterns body rest) = suc (items_fuel body + cases_fuel rest)
