-- ===== src/Parser/Script/Operators.antt =====
-- aoba/parser/parser_expressions.cc: expressions with operators, members, calls and arguments.
use aoba.Prelude.{
  ℕ, zero, suc, ◌+◌, Bool, true, false, not, ◌&&◌, ◌||◌, List, [], ◌∷◌, min, max, ◌==◌,
}
use aoba.Prelude
use aoba.Ast.TokenKind.{
  codes, left_bracket, right_bracket, left_parenthesis, right_parenthesis, dot, comma, semicolon,
  bit_not, dot_dot_dot, logical_not, minus, plus, plus_plus, minus_minus,
}
use aoba.Parser.Lexer.State.{TokenNode, punctuator}
use aoba.Parser.Utils.Steps.{if◌then◌else◌, Step, ◌>>=◌, ◌>>◌, pure, exhausted}
use aoba.Parser.Script.Words.{
  OperatorPrecedence, precedence_index, category_of_kind, relational,
  expression_argument_list_expect_comma, expression_argument_list_expect_rparen,
  expression_expect_expression, expression_expect_name, expression_expect_rbracket,
}
use aoba.Parser.Script.Nodes.{
  ScriptToken, has_kind, is_name, is_any_word, JsTree, JsTrees, leaf, nil, push, push_back, two,
  three, binary_expression, call_expression, comma_expression, computed_member_expression,
  member_expression,
}
use aoba.Parser.Script.Actions.{ScriptParser, with_token, consume_token, if_kind}
use aoba.Parser.Script.Ranges.{add_error, new_node, expect_punctuator}
use aoba.Parser.Script.Calls.{Caller, phrase, expression}
use aoba.Parser.Script.Calls

abbrev category_of_node : TokenNode → OperatorPrecedence
category_of_node (punctuator kind) = category_of_kind kind
category_of_node other = OperatorPrecedence.none

-- `CategoryOf`.
unfoldable pub category_of : ScriptToken → OperatorPrecedence
category_of token =
    Prelude.if◌then◌else◌ (is_any_word (codes "instanceof" ∷ codes "in" ∷ []) token) relational
      (category_of_node token.node)

-- `IsKeywordOperator`.
unfoldable pub is_keyword_operator : ScriptToken → Bool
is_keyword_operator token =
    is_any_word (codes "await" ∷ codes "delete" ∷ codes "typeof" ∷ codes "void" ∷ []) token

-- `IsUnaryOperator`.
unfoldable pub is_unary_operator : ScriptToken → Bool
is_unary_operator token =
    has_kind bit_not token
    || has_kind dot_dot_dot token
    || has_kind logical_not token
    || has_kind minus token
    || has_kind plus token

-- `IsUpdateOperator`.
unfoldable pub is_update_operator : ScriptToken → Bool
is_update_operator token = has_kind plus_plus token || has_kind minus_minus token

-- `HandleComputedMember`.
unfoldable pub handle_computed_member : Caller → JsTree → Step ScriptParser JsTree
handle_computed_member call object = do
  name ← call (phrase expression)
  expect_punctuator right_bracket expression_expect_rbracket
  new_node computed_member_expression (two object name)

-- `HandleMember`.
unfoldable pub handle_member : JsTree → Step ScriptParser JsTree
handle_member object = with_token (add_error expression_expect_name >> pure object) (λ token.
    if is_name token
    then consume_token >>= (λ name. new_node member_expression (two object (leaf name)))
    else (add_error expression_expect_name >> pure object))

-- `HandleNewExpression`, on fuel.
unfoldable pub members_behind : ℕ → Caller → JsTree → Step ScriptParser JsTree
members_behind zero call object = exhausted
members_behind (suc k) call object =
    if_kind left_bracket (handle_computed_member call object >>= members_behind k call)
      (if_kind dot (handle_member object >>= members_behind k call) (pure object))

-- What follows an argument; `loop` parses on.
unfoldable pub after_argument :
    (JsTrees → Step ScriptParser JsTrees) → JsTrees → Step ScriptParser JsTrees
after_argument loop arguments = with_token (pure arguments) (λ token.
    if has_kind right_parenthesis token
    then consume_token >>= (λ consumed. pure arguments)
    else if has_kind semicolon token
    then (add_error expression_argument_list_expect_rparen >> pure arguments)
    else if has_kind comma token
    then consume_token >>= (λ consumed. loop arguments)
    else (add_error expression_argument_list_expect_comma >> loop arguments))

-- The loop of `ParseArgumentList`, on fuel.
unfoldable pub arguments_loop : ℕ → Caller → JsTrees → Step ScriptParser JsTrees
arguments_loop zero call arguments = exhausted
arguments_loop (suc k) call arguments = with_token (pure arguments) (λ token.
    call (phrase expression)
    >>= (λ argument. after_argument (arguments_loop k call) (push_back arguments argument)))

-- `ParseArgumentList`.
unfoldable pub parse_arguments : ℕ → Caller → Step ScriptParser JsTrees
parse_arguments n call = if_kind right_parenthesis (pure nil) (arguments_loop n call nil)

-- The loop of `ParseLeftHandSideExpression`, on fuel; `arguments` parses an argument list.
unfoldable pub calls_behind :
    ℕ → Caller → Step ScriptParser JsTrees → JsTree → Step ScriptParser JsTree
calls_behind zero call arguments object = exhausted
calls_behind (suc k) call arguments object =
    if_kind left_bracket (handle_computed_member call object >>= calls_behind k call arguments) (
      if_kind dot (handle_member object >>= calls_behind k call arguments) (
        if_kind left_parenthesis
          (do
            parsed ← arguments
            called ← new_node call_expression (push object parsed)
            calls_behind k call arguments called)
          (pure object)))

-- The loop of `ParseBinaryExpression` at a category, on fuel; `lower` parses an operand.
unfoldable pub binary_loop : ℕ → ℕ → Step ScriptParser JsTree → JsTree → Step ScriptParser JsTree
binary_loop zero category lower left = exhausted
binary_loop (suc k) category lower left = with_token (pure left) (λ token.
    if precedence_index (category_of token) == category
    then (do
      op ← consume_token
      with_token (add_error expression_expect_expression >> pure left) (λ next. do
        right ← lower
        parsed ← new_node binary_expression (three left (leaf op) right)
        binary_loop k category lower parsed))
    else pure left)

-- The loop of `ParseCommaExpression`, on fuel.
unfoldable pub comma_loop : ℕ → Caller → JsTrees → Step ScriptParser JsTrees
comma_loop zero call expressions = exhausted
comma_loop (suc k) call expressions =
    if_kind comma
      (call (phrase Calls.assignment_expression)
        >>= (λ next. comma_loop k call (push_back expressions next)))
      (pure expressions)

abbrev pub new_comma : JsTrees → Step ScriptParser JsTree
new_comma nil = new_node comma_expression nil
new_comma (push single nil) = pure single
new_comma (push first (push second rest)) =
    new_node comma_expression (push first (push second rest))
