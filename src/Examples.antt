-- ===== src/Examples.antt =====
-- Tests of the definitions on inputs of the repository's own tests and docs, and results at inputs that
-- meet their hypotheses.
mod Jobs
mod Aliases
mod Session
mod Parse
mod Expand
mod Connectors
mod HereDocs
mod Lists
mod Dispatch
mod Pudod
mod Words
