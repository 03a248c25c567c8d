-- ===== src/Dispatch.antt =====
-- The execution of lists (src/mid/dispatcher.c): and-or lists, compound commands, functions.
pub mod Syntax
pub mod Strtol
pub mod Env
pub mod Glob
pub mod Test
pub mod Shell
pub mod Functions
pub mod Set
pub mod Command
pub mod Eval
