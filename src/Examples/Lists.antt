-- ===== src/Examples/Lists.antt =====
-- Tests and witnesses on the parser of lists.
use petrush.Base.{ℕ, ◌≡◌, ◌≢◌, refl, true, false, List, [], ◌∷◌}
use petrush.Text.{Bytes, codes}
use petrush.Parser.Result.{ok, error, branch, answer}
use petrush.Parser.Connector.{cond_always, cond_and, cond_or}
use petrush.Parser.Stage.{Cmd, cmd_zero}
use petrush.Parser.List.{parse_list, by_start}
use petrush.Parser.Result.{out_of_fuel}
use petrush.Parser.Stage.{parse_pipeline}
use petrush.Parser.Segment.{rtrim}
use petrush.Parser.Connector.Found.{is_quiet, quiet_end, quiet_byte}
use petrush.Parser.List.Shape.{IsList}
use petrush.Parser.List.Total.{parse_list-ne-fuel, parse_list_shape}
use petrush.Parser.List.Written.{
  is_head, Command, semicolon, ampersand, and_then, Written, finished, item, command, while_loop,
}
use petrush.Parser.List.Reads.{parse_list-Written}
use petrush.Dispatch.Syntax.{
  Items, nil, cons, Item, pipeline, if_item, while_item, for_item, fn_item, case_item, dbracket,
  no_arms, if_arm, else_arm, no_cases, case_arm,
}

abbrev plain : Bytes → Item
plain w = pipeline (record cmd_zero { argv = w ∷ []; argv_quoted = 0 ∷ [] } ∷ [])

branches :
    parse_list (codes "if a; then b; elif c; then d; else e; fi && f &")
    ≡ ok (
        cons cond_always false
          (if_item (
            if_arm
              (cons cond_always false (plain (codes "a")) nil)
              (cons cond_always false (plain (codes "b")) nil)
              (if_arm
                (cons cond_always false (plain (codes "c")) nil)
                (cons cond_always false (plain (codes "d")) nil)
                (else_arm (cons cond_always false (plain (codes "e")) nil) no_arms))))
          (cons cond_and true (plain (codes "f")) nil))
unfolding parse_list branch answer by_start
branches = refl

loops :
    parse_list (codes "while a; do b || c; done; for i in x y; do z; done")
    ≡ ok (
        cons cond_always false
          (while_item (cons cond_always false (plain (codes "a")) nil) (
            cons cond_always false
              (plain (codes "b"))
              (cons cond_or false (plain (codes "c")) nil)))
          (cons cond_always false
            (for_item
              (codes "i")
              (codes "x" ∷ codes "y" ∷ [])
              (cons cond_always false (plain (codes "z")) nil))
            nil))
unfolding parse_list branch answer by_start
loops = refl

cases :
    parse_list (codes "case x in (a|b) c;; *) d; esac; f() { g; }; [[ ! 'h' == i && j ]]")
    ≡ ok (
        cons cond_always false
          (case_item (codes "x") (
            case_arm (codes "a" ∷ codes "b" ∷ []) (cons cond_always false (plain (codes "c")) nil) (
              case_arm (codes "*" ∷ []) (cons cond_always false (plain (codes "d")) nil) no_cases)))
          (cons cond_always false
            (fn_item (codes "f") (cons cond_always false (plain (codes "g")) nil))
            (cons cond_always false
              (dbracket (
                (codes "!", 0)
                ∷ (codes "h", 1)
                ∷ (codes "==", 0)
                ∷ (codes "i", 0)
                ∷ (codes "&&", 0)
                ∷ (codes "j", 0)
                ∷ []))
              nil)))
unfolding parse_list branch answer by_start
cases = refl

abbrev Rejected : Bytes → Type 0
Rejected s = parse_list s ≡ error

refused :
    Rejected (codes "; a")
    × Rejected (codes "a ;; b")
    × Rejected (codes "a &&")
    × Rejected (codes "if a; fi")
    × Rejected (codes "while ; do a; done")
    × Rejected (codes "[[ -z '' ]]")
    × Rejected (codes "for i in ''; do a; done")
    × Rejected (codes "if a; then b; fi c")
    × Rejected (codes "f() { a }")
unfolding parse_list branch answer by_start
refused = (refl, refl, refl, refl, refl, refl, refl, refl, refl)

parse_list-ne-fuel_example : parse_list (codes "while a; do b; done") ≢ out_of_fuel
parse_list-ne-fuel_example = parse_list-ne-fuel (codes "while a; do b; done")

abbrev one_function : Items
one_function =
    cons cond_always false (fn_item (codes "f") (cons cond_always false (plain (codes "g")) nil))
      nil

defined : parse_list (codes "f() { g; }") ≡ ok one_function
unfolding parse_list branch answer by_start
defined = refl

parse_list_shape_example : IsList one_function
parse_list_shape_example = parse_list_shape (codes "f() { g; }") one_function defined

abbrev stage : Bytes → List Cmd
stage w = record cmd_zero { argv = w ∷ []; argv_quoted = 0 ∷ [] } ∷ []

-- A command of two bytes.
Command-two :
    (c d : ℕ)
    → is_head c ≡ true
    → is_quiet c ≡ true
    → is_quiet d ≡ true
    → rtrim (c ∷ d ∷ []) ≡ c ∷ d ∷ []
    → parse_pipeline (c ∷ d ∷ []) ≡ ok (stage (c ∷ d ∷ []))
    → Command (c ∷ d ∷ []) (stage (c ∷ d ∷ []))
Command-two c d head quiet quiet' trim parse = record {
  head = c;
  tail = d ∷ [];
  begins = refl;
  plain = head;
  quiet = quiet_byte quiet (quiet_byte quiet' quiet_end);
  trimmed = trim;
  parsed = parse;
}

abbrev looping : Bytes
looping = codes " while ./; do 1x& 2y&& 3z; done; "

abbrev looping_items : Items
looping_items =
    cons cond_always false
      (while_item (cons cond_always false (plain (codes "./")) nil) (
        cons cond_always true (plain (codes "1x")) (
          cons cond_always false (plain (codes "2y"))
            (cons cond_and false (plain (codes "3z")) nil))))
      nil

looping-Written : Written [] cond_always looping looping_items
unfolding parse_pipeline rtrim
looping-Written =
    item
      (while_loop
        (item (command (Command-two b'.' b'/' refl refl refl refl refl)) semicolon finished)
        (λ q. cc)
        (item (command (Command-two b'1' b'x' refl refl refl refl refl)) ampersand (
          item (command (Command-two b'2' b'y' refl refl refl refl refl)) and_then
            (item (command (Command-two b'3' b'z' refl refl refl refl refl)) semicolon finished))))
      semicolon finished

parse_list-Written_example : parse_list looping ≡ ok looping_items
parse_list-Written_example = parse_list-Written looping looping_items looping-Written
