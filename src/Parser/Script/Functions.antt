-- ===== src/Parser/Script/Functions.antt =====
-- aoba/parser/parser_declarations.cc: functions, methods and classes.
use aoba.Prelude.{ℕ, not, ◌&&◌, ◌||◌}
use aoba.Ast.TokenKind.{codes, left_brace, left_parenthesis, right_parenthesis}
use aoba.Parser.Utils.Steps.{if◌then◌else◌, Step, ◌>>=◌, ◌>>◌, pure}
use aoba.Parser.Script.Words.{
  function_invalid_arrow_function_body, class_expect_lbrace, function_expect_lbrace,
  function_expect_lparen, function_expect_rparen, property_invalid_property_name,
}
use aoba.Parser.Script.Nodes.{
  has_kind, is_name, is_word, is_literal, JsTree, leaf, nil, three, FunctionKind, MethodKind,
  class_of, function, method, parameter_list,
}
use aoba.Parser.Script.Actions.{ScriptParser, with_token, consume_token, if_kind, if_word}
use aoba.Parser.Script.Ranges.{
  add_error, new_node, new_empty_name, new_elision_expression, new_invalid_expression,
  new_invalid_statement, scope, expect_punctuator, optional_name,
}
use aoba.Parser.Script.Calls.{
  Caller, phrase, statement, assignment_expression, primary_expression, left_hand_side,
}
use aoba.Parser.Script.Bindings.{parse_bindings}

-- Each of these is called behind a token that was consumed.
module _ (n : ℕ) (call : Caller) where
  -- `ParseArrowFunctionBody`.
  unfoldable pub parse_arrow_body : Step ScriptParser JsTree
  parse_arrow_body =
      with_token (new_invalid_statement function_invalid_arrow_function_body) (λ token.
        if has_kind left_brace token
        then call (phrase statement)
        else call (phrase assignment_expression))

  -- `ParseParameterList`.
  unfoldable pub parse_parameters : Step ScriptParser JsTree
  parse_parameters = scope (
      if_kind left_parenthesis
        (if_kind right_parenthesis (new_node parameter_list nil) (do
          parameters ← parse_bindings n call nil
          expect_punctuator right_parenthesis function_expect_rparen
          new_node parameter_list parameters))
        (do add_error function_expect_lparen; new_node parameter_list nil))

  -- `ParseFunctionBody`.
  unfoldable pub parse_function_body : Step ScriptParser JsTree
  parse_function_body = with_token (new_invalid_statement function_expect_lbrace) (λ token.
      if has_kind left_brace token
      then scope (call (phrase statement))
      else new_invalid_statement function_expect_lbrace)

  -- `ParseFunction`.
  unfoldable pub parse_function : FunctionKind → Step ScriptParser JsTree
  parse_function kind = do
    name ← optional_name
    parameters ← parse_parameters
    body ← parse_function_body
    new_node (function kind) (three name parameters body)

  -- `ParsePropertyName`.
  unfoldable pub parse_property_name : Step ScriptParser JsTree
  parse_property_name = with_token (new_invalid_expression property_invalid_property_name) (λ token.
      if is_name token || is_literal token
      then consume_token >>= (λ name. pure (leaf name))
      else call (phrase primary_expression))

  -- `ParseMethod`.
  unfoldable pub parse_method : MethodKind → FunctionKind → Step ScriptParser JsTree
  parse_method method_kind kind = do
    name ← parse_property_name
    parameters ← parse_parameters
    body ← parse_function_body
    new_node (method method_kind kind) (three name parameters body)

  -- `ParseClassName`.
  unfoldable pub parse_class_name : Step ScriptParser JsTree
  parse_class_name = with_token new_empty_name (λ token.
      if is_name token && not (is_word (codes "extends") token)
      then consume_token >>= (λ name. pure (leaf name))
      else new_empty_name)

  -- `ParseClassHeritage`.
  unfoldable pub parse_class_heritage : Step ScriptParser JsTree
  parse_class_heritage =
      if_word (codes "extends") (call (phrase left_hand_side)) new_elision_expression

  -- `ParseClassBody`.
  unfoldable pub parse_class_body : Step ScriptParser JsTree
  parse_class_body = scope (
      with_token (new_invalid_expression class_expect_lbrace) (λ token.
        if has_kind left_brace token
        then call (phrase primary_expression)
        else new_invalid_expression class_expect_lbrace))

  -- `ParseClass`, behind its `class`, which begins the node.
  unfoldable pub class_behind : Step ScriptParser JsTree
  class_behind = do
    name ← parse_class_name
    heritage ← parse_class_heritage
    body ← parse_class_body
    new_node class_of (three name heritage body)

  -- `ParseClass`.
  unfoldable pub parse_class : Step ScriptParser JsTree
  parse_class = scope (consume_token >>= (λ keyword. class_behind))
