-- ===== src/Examples/Connectors.antt =====
-- Tests and witnesses on the connectors of lists and on keywords.
use petrush.Base.{◌≡◌, refl, true, false, none, some, ◌++◌, length}
use petrush.Text.{codes}
use petrush.Parser.Span.{cmdsubst_span, arith_span, dollar_group_span, span_loop, span_step}
use petrush.Parser.Token.{group_rest}
use petrush.Parser.Connector.{
  cond_always, cond_and, cond_or, connector_at, scan, find_list_connector,
}
use petrush.Parser.Connector.Found.{
  Quiet, quiet_end, quiet_byte, quiet_quoted, quiet_pipe, quiet_merge, connector, ampersand_here,
  find_list_connector-Quiet,
}
use petrush.Parser.Keyword.{blanks, skip_ws_pos, starts_with, match_kw_at, match_lbrace_at}

grouped :
    find_list_connector (codes "a $(b; c) 2>&1 && d") 0
    ≡ some (record { pos = 15; cond = cond_and; len = 2; bg = false })
unfolding find_list_connector scan connector_at group_rest dollar_group_span cmdsubst_span
    arith_span span_loop span_step
grouped = refl

found_later :
    find_list_connector (codes "a; b || c") 2
    ≡ some (record { pos = 5; cond = cond_or; len = 2; bg = false })
unfolding find_list_connector scan connector_at group_rest
found_later = refl

keyword_end : match_kw_at (codes "  then ls") 0 (codes "then") ≡ some 6
unfolding match_kw_at skip_ws_pos blanks starts_with
keyword_end = refl

keyword_longer : match_kw_at (codes "  thenls") 0 (codes "then") ≡ none
unfolding match_kw_at skip_ws_pos blanks starts_with
keyword_longer = refl

brace_end : match_lbrace_at (codes " {echo;}") 0 ≡ some 2
unfolding match_lbrace_at skip_ws_pos blanks
brace_end = refl

-- `a'&&'|b 2>&1`.
a_piped : Quiet (codes "a'&&'|b 2>&1")
a_piped = quiet_byte refl (
    quiet_quoted {q = 39} (codes "&&") refl (refl, (refl, tt))
      (quiet_pipe refl (quiet_byte refl (quiet_byte refl (quiet_merge quiet_end)))))

find_list_connector-Quiet_example :
    (find_list_connector (codes "x;" ++ (codes "a'&&'|b 2>&1" ++ codes "&c")) (length (codes "x;"))
      ≡ some (connector 14 cond_always 1 true))
    × (find_list_connector (codes "x;" ++ codes "a'&&'|b 2>&1") (length (codes "x;")) ≡ none)
find_list_connector-Quiet_example =
    find_list_connector-Quiet (codes "x;") (codes "a'&&'|b 2>&1") (codes "&c") cond_always 1 true
      a_piped (ampersand_here {rest = codes "c"} refl)
