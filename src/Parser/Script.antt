-- ===== src/Parser/Script.antt =====
-- aoba/parser/parser.{h,cc} and its companions: the parser of scripts.
pub mod Words
pub mod Nodes
pub mod Actions
pub mod Ranges
pub mod Reads
pub mod Looks
pub mod Rules
pub mod Calls
pub mod Bindings
pub mod Functions
pub mod Parameters
pub mod Properties
pub mod Literals
pub mod Primary
pub mod Operators
pub mod Expressions
pub mod Clauses
pub mod ForStatements
pub mod Keywords
pub mod Statements
pub mod Run
pub mod Progress
pub mod Termination
pub mod Tests
