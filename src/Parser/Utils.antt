-- ===== src/Parser/Utils.antt =====
-- aoba/parser/utils: what the lexers share.
pub mod LexerUtils
pub mod CharacterReader
pub mod BracketTracker
pub mod Steps
mod Tests
