-- ===== src/Parser/Lexer.antt =====
-- aoba/parser/lexer.
pub mod State
pub mod Punctuators
pub mod Numbers
pub mod Comments
pub mod Strings
pub mod Characters
pub mod Progress
pub mod Buffer
pub mod RoundTrip
mod Tests
