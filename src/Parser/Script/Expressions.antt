-- ===== src/Parser/Script/Expressions.antt =====
-- aoba/parser/parser_expressions.cc: the expressions, from `new` to lists with commas.
use aoba.Prelude.{ℕ, zero, suc, ◌-◌, ◌&&◌, ◌||◌, min, max, ◌==◌}
use aoba.Ast.TokenKind.{codes, left_parenthesis, dot, semicolon, question, colon, times}
use aoba.Parser.Utils.Steps.{if◌then◌else◌, Step, ◌>>=◌, ◌>>◌, pure, gets}
use aoba.Parser.Script.Words.{
  precedence_index, expression_conditional_expect_colon, expression_expect_expression,
  expression_invalid, expression_unexpect_newline,
}
use aoba.Parser.Script.Nodes
use aoba.Parser.Script.Nodes.{
  ScriptToken, has_kind, is_word, is_punctuator, JsTree, JsTrees, leaf, node, nil, push, one, two,
  three, conditional_expression, unary_expression, name_yield_star,
}
use aoba.Parser.Script.Actions.{ScriptParser, with_token, peek_then, consume_token, if_kind}
use aoba.Parser.Script.Ranges.{
  new_node, new_elision_expression, new_invalid_expression, scope, expect_punctuator,
  report_newline,
}
use aoba.Parser.Script.Calls.{
  Caller, phrase, assignment_expression, unary_expression, left_hand_side, new_expression,
}
use aoba.Parser.Script.Calls
use aoba.Parser.Script.Parameters.{post_operator, reference_to}
use aoba.Parser.Script.Primary.{parse_primary_expression}
use aoba.Parser.Script.Operators.{
  category_of, is_keyword_operator, is_unary_operator, is_update_operator, members_behind,
  parse_arguments, calls_behind, binary_loop, comma_loop, new_comma,
}

-- `NewUnaryExpression`.
unfoldable pub new_unary : ScriptToken → JsTree → Step ScriptParser JsTree
new_unary op operand = new_node Nodes.unary_expression (two (leaf op) operand)

-- `IsUpdateOperator` behind an operand.
unfoldable pub after_operand : JsTree → Step ScriptParser JsTree
after_operand operand = with_token (pure operand) (λ token.
    if is_update_operator token
    then (do
      newline ← gets ScriptParser.is_separated_by_newline
      (if newline
          then (report_newline expression_unexpect_newline >> pure operand)
          else consume_token >>= (λ op. new_unary (post_operator op) operand)))
    else pure operand)

module _ (n : ℕ) (call : Caller) where
  -- `ParseNewExpression`, behind `new`.
  unfoldable pub new_behind : ScriptToken → Step ScriptParser JsTree
  new_behind name_new = with_token (new_invalid_expression expression_expect_expression) (λ token.
      if has_kind dot token then members_behind n call (reference_to (leaf name_new)) else (do
        member ← call (phrase Calls.new_expression)
        if_kind left_parenthesis
            (parse_arguments n call
              >>= (λ arguments. new_node Nodes.new_expression (push member arguments)))
            (new_node Nodes.new_expression (one member) >>= members_behind n call)))

  -- `ParseNewExpression`.
  unfoldable pub parse_new_expression : Step ScriptParser JsTree
  parse_new_expression = scope (
      peek_then (λ token.
        if is_word (codes "new") token
        then consume_token >>= new_behind
        else parse_primary_expression n call >>= members_behind n call))

  -- `ParseLeftHandSideExpression`.
  unfoldable pub parse_left_hand_side : Step ScriptParser JsTree
  parse_left_hand_side = scope (
      with_token (new_invalid_expression expression_invalid)
        (λ token. parse_new_expression >>= calls_behind n call (parse_arguments n call)))

  -- `ParseUpdateExpression`.
  unfoldable pub parse_update_expression : Step ScriptParser JsTree
  parse_update_expression = scope (
      peek_then (λ token.
        if is_update_operator token
        then (do op ← consume_token; operand ← call (phrase left_hand_side); new_unary op operand)
        else parse_left_hand_side >>= after_operand))

  -- `ParseYieldExpression`, behind `yield`.
  unfoldable pub yield_behind : ScriptToken → Step ScriptParser JsTree
  yield_behind keyword = with_token (new_elision_expression >>= new_unary keyword) (λ token.
      if has_kind times token
      then (do
        location ← gets (λ p. p.buffer.lexer.reader.location)
        consumed ← consume_token
        value ← call (phrase assignment_expression)
        new_node Nodes.unary_expression (
            two (node name_yield_star (min keyword.start location) (max keyword.end location) nil)
              value))
      else if has_kind semicolon token
      then new_elision_expression >>= new_unary keyword
      else call (phrase assignment_expression) >>= new_unary keyword)

  -- `ParseYieldExpression`.
  unfoldable pub parse_yield_expression : Step ScriptParser JsTree
  parse_yield_expression = scope (consume_token >>= yield_behind)

  -- `ParseUnaryExpression`.
  unfoldable pub parse_unary_expression : Step ScriptParser JsTree
  parse_unary_expression = scope (
      peek_then (λ token.
        if is_unary_operator token || is_keyword_operator token
        then (do op ← consume_token; operand ← call (phrase unary_expression); new_unary op operand)
        else if is_word (codes "yield") token
        then parse_yield_expression
        else parse_update_expression))

  -- `ParseBinaryExpression` at the category that is `level` below `None`.
  unfoldable pub parse_binary_expression : ℕ → Step ScriptParser JsTree
  parse_binary_expression zero = scope parse_unary_expression
  parse_binary_expression (suc level) = scope (do
    left ← parse_binary_expression level
    binary_loop n (11 - level) (parse_binary_expression level) left)

  -- `ParseConditionalExpression`, behind its condition.
  unfoldable pub conditional_behind : JsTree → Step ScriptParser JsTree
  conditional_behind condition =
      if_kind question
        (do
          if_true ← call (phrase assignment_expression)
          expect_punctuator colon expression_conditional_expect_colon
          if_false ← call (phrase assignment_expression)
          new_node conditional_expression (three condition if_true if_false))
        (pure condition)

  -- `ParseConditionalExpression`.
  unfoldable pub parse_conditional_expression : Step ScriptParser JsTree
  parse_conditional_expression = scope (parse_binary_expression 11 >>= conditional_behind)

  -- An assignment behind its left-hand side.
  unfoldable pub assignment_behind : JsTree → Step ScriptParser JsTree
  assignment_behind left = with_token (pure left) (λ token.
      if is_punctuator token && precedence_index (category_of token) == 0
      then (do
        op ← consume_token
        right ← call (phrase assignment_expression)
        new_node Nodes.assignment_expression (three left (leaf op) right))
      else pure left)

  -- `ParseAssignmentExpression`.
  unfoldable pub parse_assignment_expression : Step ScriptParser JsTree
  parse_assignment_expression =
      with_token (new_invalid_expression expression_invalid)
        (λ token. scope (parse_conditional_expression >>= assignment_behind))

  -- `ParseCommaExpression`.
  unfoldable pub parse_comma_expression : Step ScriptParser JsTree
  parse_comma_expression = scope (do
    first ← parse_assignment_expression
    expressions ← comma_loop n call (one first)
    new_comma expressions)

  -- `ParseExpression`.
  unfoldable pub parse_expression : Step ScriptParser JsTree
  parse_expression =
      with_token (new_invalid_expression expression_invalid) (λ token. scope parse_comma_expression)
