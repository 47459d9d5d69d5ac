-- ===== src/Parser/Regexp.antt =====
-- aoba/parser/regexp.
pub mod Lexer
pub mod Parser
mod Tests
