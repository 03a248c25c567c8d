-- ===== src/Expand.antt =====
-- Word expansion (src/mid/expand.c): shell options, positional parameters, arithmetic.
pub mod Options
pub mod Positional
pub mod Arith
pub mod Word
pub mod Argv
