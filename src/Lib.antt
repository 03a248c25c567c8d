-- ===== src/Lib.antt =====
-- petrush is an interactive shell in C. A line goes through history expansion and alias expansion,
-- is cut into tokens, and the tokens are built into the stages of a pipeline, each with its
-- arguments, redirections and here-document; jobs that were put in the background are reaped and
-- announced before each prompt; words are expanded with the shell's options and parameters; and
-- `pushd` and `popd` keep a stack of directories. The dispatcher runs the parsed lists: it picks
-- functions, builtins or programs for commands, and calls the other parts for everything else. A
-- program of its own, pudod, runs commands as root where a list of root's allows them.
--
-- Base       Boolean tests, lists over the native numbers, signed integers
-- Text       C strings as lists of bytes, <ctype.h> in the C locale, decimal numbers
-- Parser     src/mid/parser.c, include/petrush/parser.h: Span has petrush_cmdsubst_span,
--            petrush_arith_span and dollar_group_span; Token the operators, scan_word and tokenize;
--            Stage has petrush_cmd_t, build_stage, petrush_parse_pipeline and petrush_parse;
--            Connector has find_list_connector; Keyword match_kw_at, its kin and peek_kw_mask;
--            HereDoc cmd_heredoc_feed and its pipeline branch; Scan the readers of words and names in
--            compound commands; Segment parse_pipeline_item and take_conn_after; List
--            petrush_parse_list with parse_if, parse_while, parse_for, parse_case, parse_dbracket and
--            parse_fn
-- Job        src/foundation/job.c, include/petrush/job.h: the table of background jobs
-- Alias      src/mid/alias.c: the table of aliases and alias_expand_line
-- HistExpand src/mid/hist_expand.c: hist_expand_line
-- Expand     src/mid/expand.c: Options has set -e, -u, -x and `$-`, Positional `$1` and on with shift,
--            Arith the evaluator of `$((...))`, Word expand_word and expand_heredoc_body, Argv
--            expand_cmd_argv
-- Dispatch   src/mid/dispatcher.c: Syntax has the trees of parser.h; Env setenv and unsetenv of
--            src/foundation/env.c and the stack of `local`; Glob case_pat_match; Test builtin_test and
--            the expressions of `[[`; Shell the static variables and maybe_errexit; Functions the table
--            fn_set and fn_get, `return` and `local`; Set builtin_set; Command dispatch_command, call_fn and
--            dispatch_pipeline; Eval dispatch_list with dispatch_if, dispatch_while, dispatch_for,
--            dispatch_case and dispatch_dbracket
-- Pudod      src/pudod, the setuid helper: Paths has allow_resolve.c, target_check.c and
--            child_argv.c; AllowList load_allow_list and is_allowed; Main the rest of pudod.c
-- DirStack   src/mid/dirstack.c: dirstack_pushd, dirstack_popd, dirstack_print
-- Examples   tests by evaluation, and the theorems at concrete inputs
--
-- A pointer into a text is the rest of the text behind it, and the terminator is the end of the
-- list. Static tables are values that each operation takes and returns. An operation that returns
-- 0 or -1 returns a flag or an option. A function keeps the name that it has in C, without the
-- prefix of its file where the module says it already.
--
-- The tokenizer runs on fuel, one round for each byte of the line: every round takes a byte at
-- least, and so the fuel is enough. The parser of lists has eight calls for each byte of the text
-- and eight more, since each item and each keyword takes a byte at least within a fixed number of
-- calls. The expansion of a word has a round for each byte, and a word within braces is shorter
-- than what holds it. The arithmetic evaluator has a fuel for the depth of the parentheses, one
-- for the signs in a row and one for the operators in a row, each the length of the text and one
-- more; a signed overflow, which C leaves undefined, is an outcome of its own, and the decimal
-- reader is the one in C, not the assembly routine that a build may choose. The matcher of `case`
-- has a fuel for the stars, one for the bytes that a star takes and one for the text, and they are
-- enough. The dispatcher's functions call each other on one fuel, which bounds the depth of the
-- calls: items in a row, rounds of a loop and calls of functions each take some. A shell loop or a
-- recursive function may run for ever, and then no fuel is enough; for lists without `while` and
-- without definitions `items_fuel` says how much suffices. All other loops are structural
-- recursions: over the slots of a table, over the bytes of a text, or over the 64 words that a
-- history event is split into. The helper's loader runs on the length of the file, and takes a
-- byte at least for each line.
--
-- The kernel's `waitpid`, and `getcwd` and `chdir`, are parameters over an abstract state of the
-- world. The environment is a function from names. The history is the list of events that the UI
-- port serves. The expansion of a command takes the hook that runs the text of `$(...)`, which may
-- change the shell's state, and the listing of the files that match a pattern. The dispatcher
-- takes a record Host of what the other parts do: the expansion of words (Expand is not put in its
-- place), the builtins that are not in Dispatch, redirections, programs and pipelines, the tests
-- on files, the signal traps that wait, and the C library's `environ` and output, which `set`
-- lists the environment with; none of them changes the table of functions, the depth, the saved
-- values or the counter of conditions. So `source`, and `trap` with an action that defines a
-- function, are outside, as is `exit`, which does not return. The line that `set -x` prints is
-- left out, and file descriptors can be duplicated.
--
-- String arguments are not NULL, and allocation succeeds: the branches for memory that has run out
-- are not modelled, nor is memory's release; a copy of a tree is the tree. Also not modelled are
-- the search of a list and its compound commands for a here-document that waits, the builtins
-- `shift` and `trap`, the shell's side of the privilege helper and the plugin loader; processes,
-- terminals and the reports on the system are left out as input and output. In the helper the
-- messages to syslog are left out, and the file of its list holds no byte 0.
pub mod Base
pub mod Text
pub mod Job
pub mod Alias
pub mod DirStack
pub mod HistExpand
pub mod Parser
pub mod Expand
pub mod Dispatch
pub mod Pudod
mod Examples
