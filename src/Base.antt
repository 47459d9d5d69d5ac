-- ===== src/Base.antt =====
-- aoba/base.
pub mod LineNumberCache
pub mod EscapedStringPiece
pub mod DoubleLinked
pub mod GraphSorter
pub mod SourceCodeRange
pub mod Zone
mod Tests
