-- ===== src/Parser/Script/Nodes.antt =====
-- The tokens that the parser of scripts reads and the trees that it builds, through
-- aoba/ast/node_factory.cc, whose own checks are not modelled.
use aoba.Prelude.{ℕ, Bool, true, false, ◌&&◌, ◌||◌, List, [], ◌∷◌, ◌==◌}
use aoba.Ast.TokenKind.{TokenKind, kind_index}
use aoba.Parser.Lexer.State.{
  TokenNode, comment, js_doc_document, name, string_literal, numeric_literal, punctuator,
}
use aoba.Parser.Regexp.Parser.Nodes.{Tree}
use aoba.Parser.Script.Words.{ErrorCode, keywords}

-- A token with its text, in which a name is compared with the words that the name table knows.
pub record ScriptToken : Type 0 where
  pub start : ℕ
  pub end : ℕ
  pub node : TokenNode
  pub text : List ℕ

unfoldable pub same_text : List ℕ → List ℕ → Bool
same_text [] [] = true
same_text [] (d ∷ ds) = false
same_text (c ∷ cs) [] = false
same_text (c ∷ cs) (d ∷ ds) = c == d && same_text cs ds

abbrev node_has_kind : TokenKind → TokenNode → Bool
node_has_kind kind (punctuator k) = kind_index k == kind_index kind
node_has_kind kind node = false

-- `token == kind`, of a punctuator.
abbrev pub has_kind : TokenKind → ScriptToken → Bool
has_kind kind token = node_has_kind kind token.node

abbrev node_is_name : TokenNode → Bool
node_is_name name = true
node_is_name node = false

-- `token == ast::SyntaxCode::Name`.
abbrev pub is_name : ScriptToken → Bool
is_name token = node_is_name token.node

-- `token == kind`, of a keyword or a known word: a name with its text.
abbrev pub is_word : List ℕ → ScriptToken → Bool
is_word word token = is_name token && same_text token.text word

unfoldable pub is_any_word : List (List ℕ) → ScriptToken → Bool
is_any_word [] token = false
is_any_word (word ∷ words) token = is_word word token || is_any_word words token

-- `Name::IsKeyword`.
unfoldable pub is_keyword : ScriptToken → Bool
is_keyword token = is_any_word keywords token

abbrev node_is_punctuator : TokenNode → Bool
node_is_punctuator (punctuator k) = true
node_is_punctuator node = false

-- `token == ast::SyntaxCode::Punctuator`.
abbrev pub is_punctuator : ScriptToken → Bool
is_punctuator token = node_is_punctuator token.node

abbrev node_is_literal : TokenNode → Bool
node_is_literal string_literal = true
node_is_literal (numeric_literal value) = true
node_is_literal node = false

-- `is_literal` of a token.
abbrev pub is_literal : ScriptToken → Bool
is_literal token = node_is_literal token.node

abbrev node_is_comment : TokenNode → Bool
node_is_comment comment = true
node_is_comment node = false

abbrev pub is_comment : ScriptToken → Bool
is_comment token = node_is_comment token.node

abbrev node_is_js_doc : TokenNode → Bool
node_is_js_doc js_doc_document = true
node_is_js_doc node = false

-- `token == ast::SyntaxCode::JsDocDocument`.
abbrev pub is_js_doc : ScriptToken → Bool
is_js_doc token = node_is_js_doc token.node

pub data FunctionKind : Type 0 where
  async generator getter normal setter : FunctionKind

pub data MethodKind : Type 0 where
  non_static static : MethodKind

-- `ast::SyntaxCode`, with the parameters of the syntax.
pub data Syntax : Type 0 where
  empty_name : Syntax
  invalid : ErrorCode → Syntax
  invalid_statement : ErrorCode → Syntax
  annotation array_initializer : Syntax
  arrow_function : FunctionKind → Syntax
  assignment_expression binary_expression : Syntax
  boolean_literal : Bool → Syntax
  call_expression comma_expression computed_member_expression conditional_expression : Syntax
  declaration delimiter_expression elision_expression group_expression : Syntax
  member_expression new_expression null_literal object_initializer property : Syntax
  reference_expression : Syntax
  regexp_literal : Tree → Syntax
  unary_expression name_yield_star array_binding_pattern binding_comma_element : Syntax
  binding_invalid_element binding_name_element binding_property binding_rest_element : Syntax
  object_binding_pattern class_of : Syntax
  function : FunctionKind → Syntax
  method : MethodKind → FunctionKind → Syntax
  parameter_list block_statement break_statement case_clause catch_clause : Syntax
  const_statement continue_statement do_statement empty_statement : Syntax
  expression_statement for_statement for_in_statement for_of_statement : Syntax
  if_else_statement if_statement labeled_statement let_statement return_statement : Syntax
  switch_statement throw_statement try_catch_finally_statement try_catch_statement : Syntax
  try_finally_statement var_statement while_statement with_statement externs : Syntax
  module_of : Syntax

unfoldable pub syntax_index : Syntax → ℕ
syntax_index empty_name = 0
syntax_index (invalid k) = 1
syntax_index (invalid_statement k) = 2
syntax_index annotation = 3
syntax_index array_initializer = 4
syntax_index (arrow_function k) = 5
syntax_index assignment_expression = 6
syntax_index binary_expression = 7
syntax_index (boolean_literal k) = 8
syntax_index call_expression = 9
syntax_index comma_expression = 10
syntax_index computed_member_expression = 11
syntax_index conditional_expression = 12
syntax_index declaration = 13
syntax_index delimiter_expression = 14
syntax_index elision_expression = 15
syntax_index group_expression = 16
syntax_index member_expression = 17
syntax_index new_expression = 18
syntax_index null_literal = 19
syntax_index object_initializer = 20
syntax_index property = 21
syntax_index reference_expression = 22
syntax_index (regexp_literal k) = 23
syntax_index unary_expression = 24
syntax_index name_yield_star = 25
syntax_index array_binding_pattern = 26
syntax_index binding_comma_element = 27
syntax_index binding_invalid_element = 28
syntax_index binding_name_element = 29
syntax_index binding_property = 30
syntax_index binding_rest_element = 31
syntax_index object_binding_pattern = 32
syntax_index class_of = 33
syntax_index (function k) = 34
syntax_index (method m k) = 35
syntax_index parameter_list = 36
syntax_index block_statement = 37
syntax_index break_statement = 38
syntax_index case_clause = 39
syntax_index catch_clause = 40
syntax_index const_statement = 41
syntax_index continue_statement = 42
syntax_index do_statement = 43
syntax_index empty_statement = 44
syntax_index expression_statement = 45
syntax_index for_statement = 46
syntax_index for_in_statement = 47
syntax_index for_of_statement = 48
syntax_index if_else_statement = 49
syntax_index if_statement = 50
syntax_index labeled_statement = 51
syntax_index let_statement = 52
syntax_index return_statement = 53
syntax_index switch_statement = 54
syntax_index throw_statement = 55
syntax_index try_catch_finally_statement = 56
syntax_index try_catch_statement = 57
syntax_index try_finally_statement = 58
syntax_index var_statement = 59
syntax_index while_statement = 60
syntax_index with_statement = 61
syntax_index externs = 62
syntax_index module_of = 63

-- A node has its syntax, its range and its children; a token can stand as a node.
mutual
  pub data JsTree : Type 0 where
    leaf : ScriptToken → JsTree
    node : Syntax → (start end : ℕ) → JsTrees → JsTree

  pub data JsTrees : Type 0 where
    nil : JsTrees
    push : JsTree → JsTrees → JsTrees

abbrev pub push_back : JsTrees → JsTree → JsTrees
push_back nil last = push last nil
push_back (push t ts) last = push t (push_back ts last)

abbrev pub one : JsTree → JsTrees
one t = push t nil

abbrev pub two : JsTree → JsTree → JsTrees
two t u = push t (push u nil)

abbrev pub three : JsTree → JsTree → JsTree → JsTrees
three t u v = push t (push u (push v nil))

abbrev pub range_of : JsTree → ℕ × ℕ
range_of (leaf token) = (token.start, token.end)
range_of (node syntax start end children) = (start, end)

-- `node == syntax`, without the parameters of the syntax.
abbrev pub is_syntax : Syntax → JsTree → Bool
is_syntax syntax (leaf token) = false
is_syntax syntax (node s start end children) = syntax_index s == syntax_index syntax

-- `NewElisionExpression(node)`: at the end of the node.
abbrev pub elision_behind : JsTree → JsTree
elision_behind t = node elision_expression (range_of t).1 (range_of t).1 nil
