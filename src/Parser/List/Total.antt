-- ===== src/Parser/List/Total.antt =====
-- The parser of lists ends on every input, with a tree of the right shape or the error -1.
use petrush.Base.{◌≡◌, ◌≢◌, false, arith}
use petrush.Text.{Bytes}
use petrush.Parser.Result.{
  ok, out_of_fuel, Yields, yields, Yields-bind, Yields-branch, Yields-ne-fuel, Yields-ok,
}
use petrush.Parser.Connector.{cond_always}
use petrush.Parser.Scan.Moves.{skip_ws_pos-Between}
use petrush.Parser.List.{list_fuel, parse_list}
use petrush.Parser.List.Shape.{IsList}
use petrush.Parser.List.Advance.{parse_list_until-ListAt}
use petrush.Dispatch.Syntax.{Items}

parse_list-IsList : (input : Bytes) → Yields IsList (parse_list input)
unfolding parse_list
parse_list-IsList input =
    let (from, to) = skip_ws_pos-Between input 0 (omega arith) in
    Yields-branch _ _ _ (λ _. yields (tt, tt))
      λ _.
        Yields-bind
          (parse_list_until-ListAt (list_fuel input) input 0 false cond_always _ (to, omega arith))
          λ (items, e) (first, is, bounds). yields (first, is)

-- Parsing a list ends on every input with a list or the error -1: eight calls for each byte of the
-- text, and eight more, are enough.
pub parse_list-ne-fuel : (input : Bytes) → parse_list input ≢ out_of_fuel
parse_list-ne-fuel input = Yields-ne-fuel (parse_list-IsList input)

-- A list that is accepted has the shape that the evaluator relies on: its first item runs always, as
-- does an item behind one that is sent to the background, and this holds of the lists inside
-- compound commands; a pipeline has a stage, and each stage a command word; the conditions of `if`
-- and `while` are not empty, and an `else` is the last arm; the words of `for` and `[[`, the words
-- and the patterns of `case` are not empty, an arm of `case` has a pattern; the name of a function is
-- a letter or `_` with letters, digits and `_` behind it.
pub parse_list_shape : (input : Bytes) (items : Items) → parse_list input ≡ ok items → IsList items
parse_list_shape input items e = Yields-ok (parse_list-IsList input) e
