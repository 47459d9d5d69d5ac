-- ===== src/Ast.antt =====
-- aoba/ast: the vocabulary of the lexers.
pub mod TokenKind
