-- ===== src/Pudod.antt =====
-- The setuid helper (src/pudod): it runs a program as root where a list of root's names it.
pub mod Paths
pub mod AllowList
pub mod Main
pub mod Admitted
pub mod Guarded
pub mod Names
pub mod Split
