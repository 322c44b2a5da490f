-- ===== src/Query.antt =====
-- The package query: the parser of the search language.
pub mod Token
pub mod Lexer
pub mod Parser
