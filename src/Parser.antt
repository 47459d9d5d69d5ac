-- ===== src/Parser.antt =====
-- aoba/parser.
pub mod Utils
pub mod Lexer
pub mod Regexp
pub mod TypeSyntax
pub mod JsDoc
pub mod Script
