-- ===== src/Parser.antt =====
-- The command line parser (src/mid/parser.c): spans of `$( )` and `$(( ))`, tokens, stages with
-- their redirections, pipelines, the connectors of lists, keywords, here-documents.
pub mod Result
pub mod Span
pub mod Token
pub mod Stage
pub mod Connector
pub mod Keyword
pub mod HereDoc
pub mod Scan
pub mod Segment
pub mod List
