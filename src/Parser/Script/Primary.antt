-- ===== src/Parser/Script/Primary.antt =====
-- aoba/parser/parser_expressions.cc: primary expressions.
use aoba.Prelude.{ℕ, zero, suc, Bool, true, false, ◌||◌}
use aoba.Ast.TokenKind.{
  codes, left_bracket, right_bracket, left_parenthesis, right_parenthesis, left_brace, comma, arrow,
  times, divide, divide_equal,
}
use aoba.Parser.Utils.Steps.{if◌then◌else◌, Step, ◌>>=◌, ◌>>◌, pure, exhausted}
use aoba.Parser.Script.Words.{
  expression_invalid, expression_unexpect_annotation, expression_primary_expect_arrow,
  expression_primary_expect_rparen,
}
use aoba.Parser.Script.Nodes.{
  ScriptToken, has_kind, is_name, is_word, is_keyword, is_literal, is_js_doc, JsTree, JsTrees, leaf,
  node, nil, push_back, one, two, range_of, normal, async, generator, annotation, array_initializer,
  arrow_function, binding_name_element, boolean_literal, group_expression, null_literal,
  parameter_list,
}
use aoba.Parser.Script.Actions.{ScriptParser, with_token, consume_token, if_kind, if_word}
use aoba.Parser.Script.Ranges.{
  add_token_error, new_node, new_elision_expression, new_invalid_at, new_invalid_expression, scope,
  expect_punctuator,
}
use aoba.Parser.Script.Calls.{Caller, phrase, expression, primary_expression}
use aoba.Parser.Script.Calls
use aoba.Parser.Script.Parameters.{binding_elements_of, can_have_js_doc, reference_to}
use aoba.Parser.Script.Functions.{parse_arrow_body, parse_function, parse_class}
use aoba.Parser.Script.Properties.{parse_object_initializer}
use aoba.Parser.Script.Literals.{parse_regexp_literal}

-- The loop of `ParseArrayInitializer`, on fuel.
unfoldable pub elements_loop : ℕ → Caller → JsTrees → Bool → Step ScriptParser JsTrees
elements_loop zero call elements has_expression = exhausted
elements_loop (suc k) call elements has_expression = with_token (pure elements) (λ token.
    if has_kind right_bracket token
    then consume_token >>= (λ consumed. pure elements)
    else if has_kind comma token
    then (do
      consumed ← consume_token
      (if has_expression
          then elements_loop k call elements false
          else new_elision_expression
            >>= (λ elision. elements_loop k call (push_back elements elision) false)))
    else call (phrase Calls.assignment_expression)
      >>= (λ element. elements_loop k call (push_back elements element) true))

module _ (n : ℕ) (call : Caller) where
  -- `ParseJsDocAsExpression`.
  unfoldable pub parse_js_doc_expression : Step ScriptParser JsTree
  parse_js_doc_expression = scope (do
    jsdoc ← consume_token
    annotated ← call (phrase primary_expression)
    (if can_have_js_doc annotated
        then pure tt
        else add_token_error jsdoc expression_unexpect_annotation)
    new_node annotation (two (leaf jsdoc) annotated))

  -- `ParseArrayInitializer`.
  unfoldable pub parse_array_initializer : Step ScriptParser JsTree
  parse_array_initializer = scope (do
    consumed ← consume_token
    elements ← elements_loop n call nil false
    new_node array_initializer elements)

  -- A name that is no literal and no function.
  unfoldable pub plain_name : ScriptToken → Step ScriptParser JsTree
  plain_name name =
      if is_keyword name
      then new_invalid_at (name.start, name.end) expression_invalid
      else if_kind arrow
          (do
            body ← parse_arrow_body n call
            elision ← new_elision_expression
            new_node (arrow_function normal) (
                two (node binding_name_element name.start name.end (two (leaf name) elision)) body))
          (pure (reference_to (leaf name)))

  -- `ParseNameAsExpression`, behind its name.
  unfoldable pub name_behind : ScriptToken → Step ScriptParser JsTree
  name_behind name =
      if is_word (codes "async") name
      then if_word (codes "function") (parse_function n call async) (plain_name name)
      else if is_word (codes "false") name
      then pure (node (boolean_literal false) name.start name.end nil)
      else if is_word (codes "function") name
      then if_kind times (parse_function n call generator) (parse_function n call normal)
      else if is_word (codes "null") name
      then pure (node null_literal name.start name.end nil)
      else if is_word (codes "super") name || is_word (codes "this") name
      then pure (reference_to (leaf name))
      else if is_word (codes "true") name
      then pure (node (boolean_literal true) name.start name.end nil)
      else plain_name name

  -- `ParseNameAsExpression`.
  unfoldable pub parse_name_expression : Step ScriptParser JsTree
  parse_name_expression = scope (consume_token >>= name_behind)

  unfoldable pub arrow_behind : Step ScriptParser JsTree
  arrow_behind = do
    parameters ← new_node parameter_list nil
    expect_punctuator arrow expression_primary_expect_arrow
    body ← parse_arrow_body n call
    new_node (arrow_function normal) (two parameters body)

  unfoldable pub group_behind : Step ScriptParser JsTree
  group_behind = do
    inner ← call (phrase expression)
    expect_punctuator right_parenthesis expression_primary_expect_rparen
    group ← new_node group_expression (one inner)
    if_kind arrow
        (do
          body ← parse_arrow_body n call
          new_node (arrow_function normal) (
              two
                (node parameter_list (range_of group).0 (range_of group).1
                  (binding_elements_of inner))
                body))
        (pure group)

  -- `ParseParenthesis`.
  unfoldable pub parse_parenthesis : Step ScriptParser JsTree
  parse_parenthesis =
      scope (consume_token >>= (λ consumed. if_kind right_parenthesis arrow_behind group_behind))

  -- `ParsePrimaryExpression`, at its token.
  unfoldable pub primary_at : ScriptToken → Step ScriptParser JsTree
  primary_at token =
      if is_js_doc token
      then parse_js_doc_expression
      else if is_literal token
      then consume_token >>= (λ literal. pure (leaf literal))
      else if is_word (codes "class") token
      then parse_class n call
      else if is_name token
      then parse_name_expression
      else if has_kind left_parenthesis token
      then parse_parenthesis
      else if has_kind left_bracket token
      then parse_array_initializer
      else if has_kind left_brace token
      then parse_object_initializer n call
      else if has_kind divide token || has_kind divide_equal token
      then parse_regexp_literal
      else (do
        invalid ← consume_token
        new_invalid_at (invalid.start, invalid.end) expression_invalid)

  -- `ParsePrimaryExpression`.
  unfoldable pub parse_primary_expression : Step ScriptParser JsTree
  parse_primary_expression = with_token (new_invalid_expression expression_invalid) primary_at
