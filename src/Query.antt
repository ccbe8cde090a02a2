-- ===== src/Query.antt =====
-- src/entityQueryLanguage.ts: the entity query language, from text to AST.
pub mod Syntax
pub mod Lexer
pub mod Literals
pub mod Predicate
pub mod Grammar
pub mod Parser
pub mod Ends
