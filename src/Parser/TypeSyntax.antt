-- ===== src/Parser/TypeSyntax.antt =====
-- aoba/parser/type.
pub mod Lexer
pub mod Parser
mod Tests
