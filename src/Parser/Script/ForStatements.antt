-- ===== src/Parser/Script/ForStatements.antt =====
-- aoba/parser/parser_statements.cc: `for` and `try`, behind their keywords.
use aoba.Prelude.{ℕ, Option, some, none, min, max}
use aoba.Ast.TokenKind.{
  codes, TokenKind, left_parenthesis, right_parenthesis, left_brace, right_brace, semicolon,
}
use aoba.Prelude.{zero, suc}
use aoba.Parser.Utils.Steps.{if◌then◌else◌, Step, ◌>>=◌, ◌>>◌, pure, exhausted}
use aoba.Parser.Script.Words.{
  statement_expect_catch, statement_expect_lhs, statement_expect_lparen, statement_expect_rparen,
  statement_expect_semicolon, statement_invalid, statement_unexpect_annotation,
  statement_unexpect_initializer,
}
use aoba.Parser.Script.Nodes.{
  ScriptToken, has_kind, is_comment, is_js_doc, JsTree, JsTrees, leaf, node, nil, push, push_back,
  two, three, range_of, is_syntax, Syntax, for_statement, for_in_statement, for_of_statement,
  elision_expression, block_statement, catch_clause, try_catch_finally_statement,
  try_catch_statement, try_finally_statement,
}
use aoba.Parser.Script.Actions.{
  ScriptParser, with_token, peek_then, consume_token, if_kind, if_word,
}
use aoba.Parser.Script.Ranges.{
  check, add_range_error, add_token_error, new_node, new_empty_name, new_elision_expression,
  new_invalid_statement, scope, skip_kind, expect_punctuator,
}
use aoba.Parser.Script.Calls.{
  Caller, phrase, binding_element, statement, expression, assignment_expression,
}
use aoba.Parser.Script.Clauses.{
  binding_initializer_of, has_initializer, is_valid_for_binding, is_declaration_keyword,
  in_operands, is_left_hand_side,
}

abbrev pub four : JsTree → JsTree → JsTree → JsTree → JsTrees
four t u v w = push t (three u v w)

-- `CanPeekToken() && PeekToken() == kind ? NewElisionExpression() : ParseExpression()`.
unfoldable pub optional_expression : Caller → TokenKind → Step ScriptParser JsTree
optional_expression call kind =
    with_token (call (phrase expression))
      (λ token. if has_kind kind token then new_elision_expression else call (phrase expression))

-- `condition ';' step ')' statement`.
unfoldable pub for_clauses : Caller → JsTree → JsTree → Step ScriptParser JsTree
for_clauses call keyword init = do
  condition ← optional_expression call semicolon
  expect_punctuator semicolon statement_expect_semicolon
  step ← optional_expression call right_parenthesis
  expect_punctuator right_parenthesis statement_expect_rparen
  body ← call (phrase statement)
  new_node for_statement (push keyword (four init condition step body))

-- `')' statement`, of a loop over what `iterated` has.
unfoldable pub for_body : Caller → Syntax → JsTree → JsTree → JsTree → Step ScriptParser JsTree
for_body call syntax keyword init iterated = do
  expect_punctuator right_parenthesis statement_expect_rparen
  body ← call (phrase statement)
  new_node syntax (four keyword init iterated body)

-- `for (left in right)`, where the expression has been parsed with its `in`.
abbrev pub for_in_operands : Caller → JsTree → Option (JsTree × JsTree) → Step ScriptParser JsTree
for_in_operands call keyword none = new_invalid_statement statement_invalid
for_in_operands call keyword (some (left, right)) = do
  (if is_left_hand_side left then pure tt else add_range_error (range_of left) statement_expect_lhs)
  body ← call (phrase statement)
  new_node for_in_statement (four keyword left right body)

abbrev pub report_document : Option ScriptToken → Step ScriptParser (Unit {0})
report_document none = pure tt
report_document (some document) = add_token_error document statement_unexpect_annotation

-- `ParseForStatement` without a keyword behind the parenthesis.
unfoldable pub for_expression : Caller → Option ScriptToken → Step ScriptParser JsTree
for_expression call document = do
  keyword ← new_empty_name
  report_document document
  init ← optional_expression call semicolon
  if_kind semicolon (for_clauses call keyword init) (
      if_word (codes "of")
        (call (phrase assignment_expression) >>= for_body call for_of_statement keyword init)
        (if_kind right_parenthesis (for_in_operands call keyword (in_operands init))
          (new_invalid_statement statement_invalid)))

-- A loop over the elements or the names of an expression.
unfoldable pub for_each : Caller → Syntax → JsTree → JsTree → Step ScriptParser JsTree
for_each call syntax keyword binding = do
  (if is_syntax elision_expression (binding_initializer_of binding)
      then pure tt
      else add_range_error (range_of binding) statement_unexpect_initializer)
  iterated ← call (phrase expression)
  for_body call syntax keyword binding iterated

-- `ParseForStatement` with a keyword behind the parenthesis.
unfoldable pub for_binding : Caller → ScriptToken → Step ScriptParser JsTree
for_binding call keyword = do
  binding ← call binding_element
  (if is_valid_for_binding binding
      then if_word (codes "in") (for_each call for_in_statement (leaf keyword) binding) (
          if_word (codes "of") (for_each call for_of_statement (leaf keyword) binding) (
            if_kind semicolon (for_clauses call (leaf keyword) binding)
              (do skip_kind right_parenthesis; new_invalid_statement statement_invalid)))
      else new_invalid_statement statement_invalid)

-- `CanPeekToken() && PeekToken() == ast::SyntaxCode::JsDocDocument ? &ConsumeToken() : nullptr`.
unfoldable pub optional_document : Step ScriptParser (Option ScriptToken)
optional_document = with_token (pure none) (λ token.
    if is_js_doc token then consume_token >>= (λ document. pure (some document)) else pure none)

-- `ParseForStatement`.
unfoldable pub for_behind : Caller → Step ScriptParser JsTree
for_behind call = do
  expect_punctuator left_parenthesis statement_expect_lparen
  document ← optional_document
  with_token (for_expression call document) (λ token.
      if is_declaration_keyword token
      then consume_token >>= for_binding call
      else for_expression call document)

-- The loop of `ParseBlockStatement`, on fuel.
unfoldable pub statements_loop : ℕ → Caller → JsTrees → Step ScriptParser JsTrees
statements_loop zero call statements = exhausted
statements_loop (suc k) call statements = with_token (pure statements) (λ token.
    if has_kind right_brace token
    then consume_token >>= (λ consumed. pure statements)
    else if is_comment token
    then consume_token >>= (λ consumed. statements_loop k call statements)
    else call (phrase statement) >>= (λ next. statements_loop k call (push_back statements next)))

-- `ParseBlockStatement`.
unfoldable pub parse_block_statement : ℕ → Caller → Step ScriptParser JsTree
parse_block_statement n call = scope (
    peek_then (λ token. do
      check (has_kind left_brace token)
      consumed ← consume_token
      statements ← statements_loop n call nil
      new_node block_statement statements))

-- `ParseTryStatement`, behind `catch`.
unfoldable pub catch_behind : Caller → JsTree → ScriptToken → Step ScriptParser JsTree
catch_behind call try_block catch_token = do
  expect_punctuator left_parenthesis statement_expect_lparen
  parameter ← call binding_element
  (if has_initializer parameter
      then add_range_error (range_of parameter) statement_unexpect_initializer
      else pure tt)
  skip_kind right_parenthesis
  catch_block ← call (phrase statement)
  let clause =
        node catch_clause (min catch_token.start (range_of catch_block).0)
          (max catch_token.end (range_of catch_block).1) (two parameter catch_block) in
      if_word (codes "finally")
        (call (phrase statement) >>= (λ finally_block.
          new_node try_catch_finally_statement (three try_block clause finally_block)))
        (new_node try_catch_statement (two try_block clause))

-- `ParseTryStatement`, behind `try`.
unfoldable pub try_behind : ℕ → Caller → Step ScriptParser JsTree
try_behind n call = do
  try_block ← call (phrase statement)
  if_word (codes "finally")
      (parse_block_statement n call
        >>= (λ finally_block. new_node try_finally_statement (two try_block finally_block)))
      (with_token (new_invalid_statement statement_expect_catch) (λ catch_token.
        if_word (codes "catch") (catch_behind call try_block catch_token)
          (new_invalid_statement statement_expect_catch)))
