-- ===== src/Parser/JsDoc.antt =====
-- aoba/parser/jsdoc.
pub mod Tags
pub mod Parser
mod Tests
