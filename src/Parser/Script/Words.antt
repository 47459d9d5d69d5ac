-- ===== src/Parser/Script/Words.antt =====
-- The words of aoba/ast/lexical_grammar.h that the parser of scripts knows, the categories of its
-- operators, and the error codes of the parser in aoba/ast/error_codes.h.
use aoba.Prelude.{ℕ, ◌+◌, List, [], ◌∷◌}
use aoba.Ast.TokenKind.{TokenKind, codes}

-- `FOR_EACH_JAVASCRIPT_KEYWORD`.
abbrev pub keywords : List (List ℕ)
keywords =
    codes "await"
    ∷ codes "break"
    ∷ codes "case"
    ∷ codes "catch"
    ∷ codes "class"
    ∷ codes "const"
    ∷ codes "continue"
    ∷ codes "debugger"
    ∷ codes "default"
    ∷ codes "delete"
    ∷ codes "do"
    ∷ codes "else"
    ∷ codes "enum"
    ∷ codes "export"
    ∷ codes "extends"
    ∷ codes "false"
    ∷ codes "finally"
    ∷ codes "for"
    ∷ codes "function"
    ∷ codes "if"
    ∷ codes "implements"
    ∷ codes "import"
    ∷ codes "in"
    ∷ codes "instanceof"
    ∷ codes "interface"
    ∷ codes "let"
    ∷ codes "new"
    ∷ codes "null"
    ∷ codes "package"
    ∷ codes "private"
    ∷ codes "protected"
    ∷ codes "public"
    ∷ codes "return"
    ∷ codes "static"
    ∷ codes "super"
    ∷ codes "switch"
    ∷ codes "this"
    ∷ codes "throw"
    ∷ codes "true"
    ∷ codes "try"
    ∷ codes "typeof"
    ∷ codes "var"
    ∷ codes "void"
    ∷ codes "while"
    ∷ codes "with"
    ∷ codes "yield"
    ∷ codes "yield_star"
    ∷ []

-- `FOR_EACH_PARSER_ERROR_CODE`.
pub data ErrorCode : Type 0 where
  binding_expect_comma binding_invalid_element binding_unexpect_comma : ErrorCode
  binding_unexpect_rest bracket_expect_rbrace bracket_expect_rbracket : ErrorCode
  bracket_expect_rparen bracket_unexpect_rbrace bracket_unexpect_rbracket : ErrorCode
  bracket_unexpect_rparen class_expect_lbrace class_invalid : ErrorCode
  expression_argument_list_expect_comma expression_argument_list_expect_rparen
        expression_conditional_expect_colon :
      ErrorCode
  expression_expect_expression expression_expect_name expression_expect_rbracket : ErrorCode
  expression_invalid expression_parenthesis_not_clsoed expression_primary_expect_arrow : ErrorCode
  expression_primary_expect_rparen expression_unexpect_annotation expression_unexpect_newline :
      ErrorCode
  expression_update_expect_lhs function_expect_lbrace function_expect_lparen : ErrorCode
  function_expect_rparen function_invalid_arrow_function_body function_invalid_parameter : ErrorCode
  function_invalid_parameter_list jsdoc_multiple_file_overviews property_expect_comma : ErrorCode
  property_expect_rbracket property_invalid_property_name property_invalid_token : ErrorCode
  property_invalid_static statement_catch_expect_name statement_expect_catch : ErrorCode
  statement_expect_colon statement_expect_label statement_expect_lbrace : ErrorCode
  statement_expect_lhs statement_expect_lparen statement_expect_rbrace : ErrorCode
  statement_expect_rparen statement_expect_semicolon statement_expect_statement : ErrorCode
  statement_expect_while statement_invalid statement_reserved_word : ErrorCode
  statement_unexpect_annotation statement_unexpect_initializer statement_unexpect_newline :
      ErrorCode
  statement_switch_invalid_clause : ErrorCode

-- `static_cast<int>(error_code)`, from `kParserErrorCodeBase`.
abbrev pub error_number : ErrorCode → ℕ
error_number binding_expect_comma = 20000 + 1
error_number binding_invalid_element = 20000 + 2
error_number binding_unexpect_comma = 20000 + 3
error_number binding_unexpect_rest = 20000 + 4
error_number bracket_expect_rbrace = 20000 + 5
error_number bracket_expect_rbracket = 20000 + 6
error_number bracket_expect_rparen = 20000 + 7
error_number bracket_unexpect_rbrace = 20000 + 8
error_number bracket_unexpect_rbracket = 20000 + 9
error_number bracket_unexpect_rparen = 20000 + 10
error_number class_expect_lbrace = 20000 + 11
error_number class_invalid = 20000 + 12
error_number expression_argument_list_expect_comma = 20000 + 13
error_number expression_argument_list_expect_rparen = 20000 + 14
error_number expression_conditional_expect_colon = 20000 + 15
error_number expression_expect_expression = 20000 + 16
error_number expression_expect_name = 20000 + 17
error_number expression_expect_rbracket = 20000 + 18
error_number expression_invalid = 20000 + 19
error_number expression_parenthesis_not_clsoed = 20000 + 20
error_number expression_primary_expect_arrow = 20000 + 21
error_number expression_primary_expect_rparen = 20000 + 22
error_number expression_unexpect_annotation = 20000 + 23
error_number expression_unexpect_newline = 20000 + 24
error_number expression_update_expect_lhs = 20000 + 25
error_number function_expect_lbrace = 20000 + 26
error_number function_expect_lparen = 20000 + 27
error_number function_expect_rparen = 20000 + 28
error_number function_invalid_arrow_function_body = 20000 + 29
error_number function_invalid_parameter = 20000 + 30
error_number function_invalid_parameter_list = 20000 + 31
error_number jsdoc_multiple_file_overviews = 20000 + 32
error_number property_expect_comma = 20000 + 33
error_number property_expect_rbracket = 20000 + 34
error_number property_invalid_property_name = 20000 + 35
error_number property_invalid_token = 20000 + 36
error_number property_invalid_static = 20000 + 37
error_number statement_catch_expect_name = 20000 + 38
error_number statement_expect_catch = 20000 + 39
error_number statement_expect_colon = 20000 + 40
error_number statement_expect_label = 20000 + 41
error_number statement_expect_lbrace = 20000 + 42
error_number statement_expect_lhs = 20000 + 43
error_number statement_expect_lparen = 20000 + 44
error_number statement_expect_rbrace = 20000 + 45
error_number statement_expect_rparen = 20000 + 46
error_number statement_expect_semicolon = 20000 + 47
error_number statement_expect_statement = 20000 + 48
error_number statement_expect_while = 20000 + 49
error_number statement_invalid = 20000 + 50
error_number statement_reserved_word = 20000 + 51
error_number statement_unexpect_annotation = 20000 + 52
error_number statement_unexpect_initializer = 20000 + 53
error_number statement_unexpect_newline = 20000 + 54
error_number statement_switch_invalid_clause = 20000 + 55

-- `Parser::OperatorPrecedence`.
pub data OperatorPrecedence : Type 0 where
  assignment logical_or logical_and bitwise_or bitwise_xor bitwise_and : OperatorPrecedence
  equality relational shift additive multiplicative exponentiation none : OperatorPrecedence

abbrev pub precedence_index : OperatorPrecedence → ℕ
precedence_index assignment = 0
precedence_index logical_or = 1
precedence_index logical_and = 2
precedence_index bitwise_or = 3
precedence_index bitwise_xor = 4
precedence_index bitwise_and = 5
precedence_index equality = 6
precedence_index relational = 7
precedence_index shift = 8
precedence_index additive = 9
precedence_index multiplicative = 10
precedence_index exponentiation = 11
precedence_index none = 12

-- `CategoryMap`, the fourth column of `FOR_EACH_JAVASCRIPT_PUNCTUATOR`.
unfoldable pub category_of_kind : TokenKind → OperatorPrecedence
category_of_kind TokenKind.invalid = OperatorPrecedence.none
category_of_kind TokenKind.left_brace = OperatorPrecedence.none
category_of_kind TokenKind.right_brace = OperatorPrecedence.none
category_of_kind TokenKind.left_bracket = OperatorPrecedence.none
category_of_kind TokenKind.right_bracket = OperatorPrecedence.none
category_of_kind TokenKind.left_parenthesis = OperatorPrecedence.none
category_of_kind TokenKind.right_parenthesis = OperatorPrecedence.none
category_of_kind TokenKind.dot = OperatorPrecedence.none
category_of_kind TokenKind.dot_dot = OperatorPrecedence.none
category_of_kind TokenKind.dot_dot_dot = OperatorPrecedence.none
category_of_kind TokenKind.semicolon = OperatorPrecedence.none
category_of_kind TokenKind.comma = OperatorPrecedence.none
category_of_kind TokenKind.less_than = OperatorPrecedence.relational
category_of_kind TokenKind.less_than_or_equal = OperatorPrecedence.relational
category_of_kind TokenKind.greater_than = OperatorPrecedence.relational
category_of_kind TokenKind.greater_than_or_equal = OperatorPrecedence.relational
category_of_kind TokenKind.equal_equal = OperatorPrecedence.equality
category_of_kind TokenKind.equal_equal_equal = OperatorPrecedence.equality
category_of_kind TokenKind.plus = OperatorPrecedence.additive
category_of_kind TokenKind.minus = OperatorPrecedence.additive
category_of_kind TokenKind.times = OperatorPrecedence.multiplicative
category_of_kind TokenKind.modulo = OperatorPrecedence.multiplicative
category_of_kind TokenKind.plus_plus = OperatorPrecedence.none
category_of_kind TokenKind.post_plus_plus = OperatorPrecedence.none
category_of_kind TokenKind.minus_minus = OperatorPrecedence.none
category_of_kind TokenKind.post_minus_minus = OperatorPrecedence.none
category_of_kind TokenKind.left_shift = OperatorPrecedence.shift
category_of_kind TokenKind.right_shift = OperatorPrecedence.shift
category_of_kind TokenKind.unsigned_right_shift = OperatorPrecedence.shift
category_of_kind TokenKind.bit_and = OperatorPrecedence.bitwise_and
category_of_kind TokenKind.bit_or = OperatorPrecedence.bitwise_or
category_of_kind TokenKind.bit_xor = OperatorPrecedence.bitwise_xor
category_of_kind TokenKind.logical_not = OperatorPrecedence.none
category_of_kind TokenKind.not_equal = OperatorPrecedence.equality
category_of_kind TokenKind.not_equal_equal = OperatorPrecedence.equality
category_of_kind TokenKind.bit_not = OperatorPrecedence.none
category_of_kind TokenKind.logical_and = OperatorPrecedence.logical_and
category_of_kind TokenKind.logical_or = OperatorPrecedence.logical_or
category_of_kind TokenKind.question = OperatorPrecedence.none
category_of_kind TokenKind.colon = OperatorPrecedence.none
category_of_kind TokenKind.equal = OperatorPrecedence.assignment
category_of_kind TokenKind.plus_equal = OperatorPrecedence.assignment
category_of_kind TokenKind.minus_equal = OperatorPrecedence.assignment
category_of_kind TokenKind.times_equal = OperatorPrecedence.assignment
category_of_kind TokenKind.modulo_equal = OperatorPrecedence.assignment
category_of_kind TokenKind.left_shift_equal = OperatorPrecedence.assignment
category_of_kind TokenKind.right_shift_equal = OperatorPrecedence.assignment
category_of_kind TokenKind.unsigned_right_shift_equal = OperatorPrecedence.assignment
category_of_kind TokenKind.bit_and_equal = OperatorPrecedence.assignment
category_of_kind TokenKind.bit_or_equal = OperatorPrecedence.assignment
category_of_kind TokenKind.bit_xor_equal = OperatorPrecedence.assignment
category_of_kind TokenKind.arrow = OperatorPrecedence.none
category_of_kind TokenKind.times_times = OperatorPrecedence.exponentiation
category_of_kind TokenKind.times_times_equal = OperatorPrecedence.assignment
category_of_kind TokenKind.divide = OperatorPrecedence.multiplicative
category_of_kind TokenKind.divide_equal = OperatorPrecedence.assignment
