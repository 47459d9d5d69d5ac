-- ===== src/Parser/Script/Statements.antt =====
-- aoba/parser/parser_statements.cc: the statements.
use aoba.Prelude.{ℕ, ◌||◌, Option, some, none}
use aoba.Ast.TokenKind.{codes, left_brace, semicolon, colon, times}
use aoba.Parser.Utils.Steps.{if◌then◌else◌, Step, ◌>>=◌, ◌>>◌, pure, gets}
use aoba.Parser.Script.Words.{
  statement_reserved_word, statement_unexpect_annotation, statement_unexpect_newline,
}
use aoba.Parser.Script.Nodes
use aoba.Parser.Script.Nodes.{
  ScriptToken, has_kind, is_name, is_keyword, is_literal, is_js_doc, JsTree, JsTrees, leaf, node,
  nil, one, two, is_syntax, FunctionKind, normal, async, generator, class_of, function,
  break_statement, const_statement, continue_statement, let_statement, var_statement,
  while_statement, with_statement, expression_statement, empty_statement,
}
use aoba.Parser.Script.Actions.{ScriptParser, with_token, consume_token, push_back_token, if_kind}
use aoba.Parser.Script.Ranges.{
  add_token_error, new_node, new_invalid_statement, scope, expect_semicolon, report_newline,
  source_end,
}
use aoba.Parser.Script.Calls.{Caller, phrase, statement}
use aoba.Parser.Script.Parameters.{reference_to}
use aoba.Parser.Script.Functions.{parse_function, parse_class}
use aoba.Parser.Script.Expressions.{parse_expression}
use aoba.Parser.Script.Clauses.{
  declaration_of, statement_expression, StatementKeyword, statement_keyword_of, async_label,
  break_label, case_label, class_label, continue_label, const_label, debugger_label, default_label,
  do_label, for_label, function_label, if_label, let_label, return_label, switch_label, throw_label,
  try_label, var_label, while_label, with_label, reserved_label, other_label,
}
use aoba.Parser.Script.ForStatements.{for_behind, parse_block_statement, try_behind}
use aoba.Parser.Script.Keywords.{
  jump_behind, case_behind, handle_labeled_statement, default_behind, declaration_behind, do_behind,
  if_behind, return_behind, switch_behind, throw_behind, guarded_behind,
}

abbrev annotated : ScriptToken → JsTree → Step ScriptParser JsTree
annotated jsdoc t = new_node Nodes.annotation (two (leaf jsdoc) t)

abbrev pub annotate_declaration : ScriptToken → JsTree → Option JsTree → Step ScriptParser JsTree
annotate_declaration jsdoc body none = do
  add_token_error jsdoc statement_unexpect_annotation
  annotated jsdoc body
annotate_declaration jsdoc body (some declared) = annotated jsdoc declared

-- What `ParseJsDocAsStatement` makes of a statement that is no annotation.
abbrev pub annotate_statement : ScriptToken → JsTree → Option JsTree → Step ScriptParser JsTree
annotate_statement jsdoc body none = annotated jsdoc body
annotate_statement jsdoc body (some expression) =
    annotate_declaration jsdoc body (declaration_of expression)

module _ (n : ℕ) (call : Caller) where
  -- `ParseJsDocAsStatement`.
  unfoldable pub parse_js_doc_statement : Step ScriptParser JsTree
  parse_js_doc_statement = scope (do
    jsdoc ← consume_token
    body ← call (phrase statement)
    (if is_syntax Nodes.annotation body
        then (add_token_error jsdoc statement_unexpect_annotation >> annotated jsdoc body)
        else annotate_statement jsdoc body (statement_expression body)))

  -- `ParseExpressionStatement`, behind its expression.
  unfoldable pub end_expression : JsTree → Step ScriptParser JsTree
  end_expression expression =
      if is_syntax class_of expression || is_syntax (function normal) expression
      then pure expression
      else (expect_semicolon >> new_node expression_statement (one expression))

  -- `ParseExpressionStatement`.
  unfoldable pub parse_expression_statement : Step ScriptParser JsTree
  parse_expression_statement = parse_expression n call >>= end_expression

  -- `PushBackToken(token)` before an expression.
  unfoldable pub push_back_expression : ScriptToken → Step ScriptParser JsTree
  push_back_expression token = push_back_token token >> parse_expression_statement

  -- The switch of `ParseKeywordStatement`.
  abbrev pub keyword_statement : StatementKeyword → Step ScriptParser JsTree
  keyword_statement async_label = consume_token >>= (λ keyword.
      with_token (push_back_expression keyword) (λ token.
        if Nodes.is_word (codes "function") token
        then parse_function n call async
        else push_back_expression keyword))
  keyword_statement break_label = consume_token >>= (λ keyword. jump_behind break_statement)
  keyword_statement case_label = scope (consume_token >>= (λ keyword. case_behind call))
  keyword_statement class_label = parse_class n call
  keyword_statement continue_label = consume_token >>= (λ keyword. jump_behind continue_statement)
  keyword_statement const_label =
      consume_token >>= (λ keyword. declaration_behind n call const_statement)
  keyword_statement debugger_label = do
    keyword ← consume_token
    expect_semicolon
    new_node expression_statement (one (reference_to (leaf keyword)))
  keyword_statement default_label = scope (consume_token >>= (λ label. default_behind call label))
  keyword_statement do_label = consume_token >>= (λ keyword. do_behind call)
  keyword_statement for_label = consume_token >>= (λ keyword. for_behind call)
  keyword_statement function_label = consume_token >>= (λ keyword.
      if_kind times (parse_function n call generator) (parse_function n call normal))
  keyword_statement if_label = consume_token >>= (λ keyword. if_behind call)
  keyword_statement let_label =
      consume_token >>= (λ keyword. declaration_behind n call let_statement)
  keyword_statement return_label = consume_token >>= (λ keyword. return_behind call)
  keyword_statement switch_label = consume_token >>= (λ keyword. switch_behind n call)
  keyword_statement throw_label = consume_token >>= (λ keyword. throw_behind call)
  keyword_statement try_label = consume_token >>= (λ keyword. try_behind n call)
  keyword_statement var_label =
      consume_token >>= (λ keyword. declaration_behind n call var_statement)
  keyword_statement while_label = consume_token >>= (λ keyword. guarded_behind call while_statement)
  keyword_statement with_label = consume_token >>= (λ keyword. guarded_behind call with_statement)
  keyword_statement reserved_label =
      consume_token >>= (λ keyword. new_invalid_statement statement_reserved_word)
  keyword_statement other_label = parse_expression_statement

  -- `ParseKeywordStatement`.
  unfoldable pub parse_keyword_statement : ScriptToken → Step ScriptParser JsTree
  parse_keyword_statement keyword = scope (keyword_statement (statement_keyword_of keyword))

  -- `ParseNameAsStatement`, behind a name that is no keyword.
  unfoldable pub label_or_expression : ScriptToken → Step ScriptParser JsTree
  label_or_expression name = with_token (push_back_expression name) (λ token. do
    newline ← gets ScriptParser.is_separated_by_newline
    (if newline
        then (report_newline statement_unexpect_newline >> push_back_expression name)
        else if has_kind colon token
        then handle_labeled_statement call (leaf name)
        else push_back_expression name))

  -- `ParseNameAsStatement`.
  unfoldable pub parse_name_statement : ScriptToken → Step ScriptParser JsTree
  parse_name_statement name =
      if is_keyword name
      then parse_keyword_statement name
      else consume_token >>= label_or_expression

  unfoldable pub parse_empty_statement : ScriptToken → Step ScriptParser JsTree
  parse_empty_statement token =
      consume_token >>= (λ consumed. pure (node empty_statement token.start token.start nil))

  -- `ParseStatement`, at its token.
  unfoldable pub statement_at : ScriptToken → Step ScriptParser JsTree
  statement_at token =
      if is_js_doc token
      then parse_js_doc_statement
      else if is_name token
      then parse_name_statement token
      else if is_literal token
      then parse_expression_statement
      else if has_kind left_brace token
      then parse_block_statement n call
      else if has_kind semicolon token
      then parse_empty_statement token
      else parse_expression_statement

  -- `ParseStatement`.
  unfoldable pub parse_statement : Step ScriptParser JsTree
  parse_statement =
      with_token (source_end >>= (λ end. pure (node empty_statement end.0 end.1 nil)))
        (λ token. scope (statement_at token))
