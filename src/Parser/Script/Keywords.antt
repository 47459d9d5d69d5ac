-- ===== src/Parser/Script/Keywords.antt =====
-- aoba/parser/parser_statements.cc: the statements that begin with a keyword, behind it.
use aoba.Prelude.{ℕ, zero, suc}
use aoba.Ast.TokenKind.{
  codes, left_parenthesis, right_parenthesis, left_brace, right_brace, semicolon, colon,
}
use aoba.Parser.Utils.Steps.{if◌then◌else◌, Step, ◌>>=◌, ◌>>◌, pure, exhausted, gets}
use aoba.Parser.Script.Words.{
  statement_expect_colon, statement_expect_lbrace, statement_expect_lparen, statement_expect_rparen,
  statement_expect_semicolon, statement_expect_while, statement_unexpect_newline,
}
use aoba.Parser.Script.Nodes.{
  ScriptToken, has_kind, JsTree, JsTrees, leaf, node, nil, push, push_back, one, two, three, Syntax,
  case_clause, do_statement, empty_statement, if_else_statement, if_statement, labeled_statement,
  return_statement, switch_statement, throw_statement,
}
use aoba.Parser.Script.Actions.{ScriptParser, with_token, consume_token, if_kind, if_word}
use aoba.Parser.Script.Ranges.{
  check, add_error, new_node, new_empty_name, new_elision_expression, new_invalid_statement,
  skip_kind, expect_punctuator, expect_semicolon, report_newline, optional_name,
}
use aoba.Parser.Script.Calls.{Caller, phrase, statement, expression}
use aoba.Parser.Script.Bindings.{parse_bindings}

-- `ParseParenthesisExpression`.
unfoldable pub parse_parenthesis_expression : Caller → Step ScriptParser JsTree
parse_parenthesis_expression call =
    if_kind left_parenthesis
      (do
        inner ← call (phrase expression)
        expect_punctuator right_parenthesis statement_expect_rparen
        pure inner)
      (add_error statement_expect_lparen >> call (phrase expression))

-- `ParseBreakStatement` and `ParseContinueStatement`.
unfoldable pub jump_behind : Syntax → Step ScriptParser JsTree
jump_behind syntax = do
  newline ← gets ScriptParser.is_separated_by_newline
  (if newline
      then (do
        report_newline statement_unexpect_newline
        label ← new_empty_name
        new_node syntax (one label))
      else (do label ← optional_name; expect_semicolon; new_node syntax (one label)))

abbrev empty_at : ScriptToken → JsTree
empty_at token = node empty_statement token.end token.end nil

unfoldable pub case_statement : Caller → JsTree → Step ScriptParser JsTree
case_statement call value = do body ← call (phrase statement); new_node case_clause (two value body)

-- `ParseCaseClause`, behind its colon.
unfoldable pub colon_behind : Caller → JsTree → ScriptToken → Step ScriptParser JsTree
colon_behind call value consumed = with_token (case_statement call value) (λ token.
    if has_kind right_brace token
    then (do
      disabled ← gets ScriptParser.disable_automatic_semicolon
      (if disabled then add_error statement_expect_semicolon else pure tt)
      new_node case_clause (two value (empty_at consumed)))
    else case_statement call value)

-- `ParseCaseClause`.
unfoldable pub case_behind : Caller → Step ScriptParser JsTree
case_behind call = do
  value ← call (phrase expression)
  with_token (add_error statement_expect_colon >> case_statement call value) (λ token.
      if has_kind colon token
      then consume_token >>= colon_behind call value
      else (add_error statement_expect_colon >> case_statement call value))

unfoldable pub labeled_body : Caller → JsTree → Step ScriptParser JsTree
labeled_body call label = do
  body ← call (phrase statement)
  new_node labeled_statement (two label body)

-- `HandleLabeledStatement`.
unfoldable pub handle_labeled_statement : Caller → JsTree → Step ScriptParser JsTree
handle_labeled_statement call label = do
  consumed ← consume_token
  check (has_kind colon consumed)
  disabled ← gets ScriptParser.disable_automatic_semicolon
  (if disabled
      then labeled_body call label
      else with_token (new_node labeled_statement (two label (empty_at consumed))) (λ token.
        if has_kind right_brace token
        then new_node labeled_statement (two label (empty_at consumed))
        else labeled_body call label))

-- `ParseDefaultLabel`.
unfoldable pub default_behind : Caller → ScriptToken → Step ScriptParser JsTree
default_behind call label = with_token (new_invalid_statement statement_expect_colon) (λ token.
    if has_kind colon token
    then handle_labeled_statement call (leaf label)
    else new_invalid_statement statement_expect_colon)

-- `ParseConstStatement`, `ParseLetStatement` and `ParseVarStatement`.
unfoldable pub declaration_behind : ℕ → Caller → Syntax → Step ScriptParser JsTree
declaration_behind n call syntax = do
  elements ← parse_bindings n call nil
  expect_semicolon
  new_node syntax elements

-- `ParseDoStatement`.
unfoldable pub do_behind : Caller → Step ScriptParser JsTree
do_behind call = do
  body ← call (phrase statement)
  if_word (codes "while")
      (do
        disabled ← gets ScriptParser.disable_automatic_semicolon
        condition ← parse_parenthesis_expression call
        (if disabled then expect_semicolon else skip_kind semicolon)
        new_node do_statement (two body condition))
      (new_invalid_statement statement_expect_while)

-- `ParseIfStatement`.
unfoldable pub if_behind : Caller → Step ScriptParser JsTree
if_behind call = do
  condition ← parse_parenthesis_expression call
  then_clause ← call (phrase statement)
  if_word (codes "else")
      (do
        else_clause ← call (phrase statement)
        new_node if_else_statement (three condition then_clause else_clause))
      (new_node if_statement (two condition then_clause))

unfoldable pub return_nothing : Step ScriptParser JsTree
return_nothing = do elision ← new_elision_expression; new_node return_statement (one elision)

unfoldable pub return_value : Caller → Step ScriptParser JsTree
return_value call = do
  value ← call (phrase expression)
  expect_semicolon
  new_node return_statement (one value)

-- `ParseReturnStatement`.
unfoldable pub return_behind : Caller → Step ScriptParser JsTree
return_behind call = do
  newline ← gets ScriptParser.is_separated_by_newline
  (if newline
      then (report_newline statement_unexpect_newline >> return_nothing)
      else with_token (return_value call) (λ token.
        if has_kind right_brace token
        then return_nothing
        else if has_kind semicolon token
        then consume_token >>= (λ consumed. return_nothing)
        else return_value call))

-- The loop of `ParseSwitchStatement`, on fuel.
unfoldable pub clauses_loop : ℕ → Caller → JsTrees → Step ScriptParser JsTrees
clauses_loop zero call clauses = exhausted
clauses_loop (suc k) call clauses = with_token (pure clauses) (λ token.
    if has_kind right_brace token
    then consume_token >>= (λ consumed. pure clauses)
    else call (phrase statement) >>= (λ clause. clauses_loop k call (push_back clauses clause)))

-- `ParseSwitchStatement`.
unfoldable pub switch_behind : ℕ → Caller → Step ScriptParser JsTree
switch_behind n call = do
  value ← parse_parenthesis_expression call
  if_kind left_brace
      (do clauses ← clauses_loop n call nil; new_node switch_statement (push value clauses))
      (add_error statement_expect_lbrace >> new_node switch_statement (one value))

-- `ParseThrowStatement`.
unfoldable pub throw_behind : Caller → Step ScriptParser JsTree
throw_behind call = do
  value ← call (phrase expression)
  expect_semicolon
  new_node throw_statement (one value)

-- `ParseWhileStatement` and `ParseWithStatement`.
unfoldable pub guarded_behind : Caller → Syntax → Step ScriptParser JsTree
guarded_behind call syntax = do
  guard ← parse_parenthesis_expression call
  body ← call (phrase statement)
  new_node syntax (two guard body)
