-- ===== src/Parser/Script/Progress.antt =====
-- aoba/parser: how much of the tokens the functions of the parser leave, where their calls end.
pub mod Functions
pub mod Literals
pub mod Primary
pub mod Expressions
pub mod Levels
pub mod Clauses
pub mod Statements
use aoba.Prelude.{ℕ, suc}
use aoba.Parser.Script.Calls.{Caller, Phrase, Nonterminal, phrase, binding_element}
use aoba.Parser.Script.Reads.{Calm, Moves}
use aoba.Parser.Script.Bindings.Progress.{Ahead, Behind}

-- The calls end with less than `n` left and leave no more, a phrase leaves less, and an element
-- does where the token ahead can start one.
pub record CallsEnd (n : ℕ) (call : Caller) : Type 0 where
  pub calm : (x : Nonterminal) → Calm n (call x)
  pub moves : (x : Phrase) → Moves n (call (phrase x))
  pub ahead : Ahead n (call binding_element)
  pub behind : Behind n (call binding_element)
