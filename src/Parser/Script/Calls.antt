-- ===== src/Parser/Script/Calls.antt =====
-- The functions of aoba/parser/parser.h that call each other: each is called behind a token that was
-- consumed, so that a call has fuel left. `call` stands for the call.
use aoba.Parser.Utils.Steps.{Step}
use aoba.Parser.Script.Nodes.{JsTree}
use aoba.Parser.Script.Actions.{ScriptParser}

-- `ParseStatement`, `ParseExpression`, `ParseAssignmentExpression`, `ParseUnaryExpression`,
-- `ParseLeftHandSideExpression`, `ParseNewExpression` and `ParsePrimaryExpression`, which consume a
-- token where there is one.
pub data Phrase : Type 0 where
  statement expression assignment_expression unary_expression left_hand_side new_expression : Phrase
  primary_expression : Phrase

-- `ParseBindingElement` consumes a token where the token ahead can start one.
pub data Nonterminal : Type 0 where
  phrase : Phrase → Nonterminal
  binding_element : Nonterminal

abbrev pub Caller : Type 0
Caller = Nonterminal → Step ScriptParser JsTree
