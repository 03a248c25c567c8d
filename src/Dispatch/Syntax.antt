-- ===== src/Dispatch/Syntax.antt =====
-- The syntax trees that lists are parsed into (include/petrush/parser.h).
use petrush.Base.{ℕ, Bool, List}
use petrush.Text.{Bytes}
use petrush.Parser.Connector.{RunCond}
use petrush.Parser.Stage.{Cmd}

mutual
  -- `petrush_list_t`: each item has its condition and its flag `background`.
  pub data Items : Type 0 where
    nil : Items
    cons : RunCond → Bool → Item → Items → Items

  -- `petrush_list_item_t` by its kind.
  pub data Item : Type 0 where
    pipeline : List Cmd → Item
    if_item : Arms → Item
    while_item : Items → Items → Item
    for_item : Bytes → List Bytes → Items → Item
    fn_item : Bytes → Items → Item
    case_item : Bytes → CaseArms → Item
    dbracket : List (Bytes × ℕ) → Item

  -- `petrush_if_t`: a condition and a body, or the body of an `else`.
  pub data Arms : Type 0 where
    no_arms : Arms
    if_arm : Items → Items → Arms → Arms
    else_arm : Items → Arms → Arms

  -- The arms of `petrush_case_t`: patterns and a body.
  pub data CaseArms : Type 0 where
    no_cases : CaseArms
    case_arm : List Bytes → Items → CaseArms → CaseArms
