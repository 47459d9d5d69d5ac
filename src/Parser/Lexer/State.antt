-- ===== src/Parser/Lexer/State.antt =====
-- aoba/parser/lexer/lexer.{h,cc}: the state of `Lexer`, its tokens and its errors, and the helpers
-- that the handlers share.
use aoba.Prelude.{ℕ, Bool, true, false, List, [], ◌∷◌, ◌++◌, if◌then◌else◌}
use aoba.Prelude.Int.{ℤ}
use aoba.Ast.TokenKind.{TokenKind}
use aoba.Parser.Utils.BracketTracker.{BracketError}
use aoba.Parser.Utils.CharacterReader
use aoba.Parser.Utils.CharacterReader.{Reader, move_forward, peek_is, start_reader}

-- `FOR_EACH_LEXER_ERROR_CODE`.
pub data ErrorCode : Type 0 where
  block_comment_not_closed character_invalid character_no_more : ErrorCode
  numeric_literal_decimal_bad_digit numeric_literal_integer_bad_digit : ErrorCode
  numeric_literal_integer_no_digits numeric_literal_integer_octal : ErrorCode
  numeric_literal_integer_overflow numeric_literal_prefix_zero : ErrorCode
  punctuator_dot_dot regexp_expect_slash : ErrorCode
  string_literal_backslash string_literal_backslash_hex_digit : ErrorCode
  string_literal_backslash_unicode string_literal_newline string_literal_not_closed : ErrorCode

pub record LexerError : Type 0 where
  pub start : ℕ
  pub end : ℕ
  pub code : ErrorCode

-- The number that the lexer hands to the floating-point conversion: an integer, or
-- `digits_part * 10 ^ digits_scale * 10 ^ exponent`. The `double` itself and `std::pow` are not
-- modelled.
pub data NumericValue : Type 0 where
  integer : ℕ → NumericValue
  decimal : ℕ → ℤ → ℕ → NumericValue

-- The node of a token. The text of a name or a string literal is that of its range.
pub data TokenNode : Type 0 where
  comment js_doc_document name string_literal regexp_source : TokenNode
  numeric_literal : NumericValue → TokenNode
  punctuator : TokenKind → TokenNode

pub record Token : Type 0 where
  pub start : ℕ
  pub end : ℕ
  pub node : TokenNode

-- The option that the lexer reads.
pub record LexerContext : Type 0 where
  pub enable_strict_backslash : Bool

-- `errors` is what the error sink has received of the lexer, in order, and `js_doc_errors` what it has
-- received of the parser of documents. `ConsumeToken` and `PeekToken` keep the
-- current token; here each token is a result.
pub record Lexer : Type 0 where
  pub reader : Reader
  pub token_start : ℕ
  pub is_separated_by_newline : Bool
  pub errors : List LexerError
  pub js_doc_errors : List BracketError

abbrev pub start_lexer : ℕ → List ℕ → Lexer
start_lexer start text = record {
  reader = start_reader start text;
  token_start = start;
  is_separated_by_newline = false;
  errors = [];
  js_doc_errors = [];
}

abbrev pub location : Lexer → ℕ
location l = l.reader.location

unfoldable pub consume_char : Lexer → Lexer
unfolding move_forward
consume_char l = record l { reader = move_forward l.reader }

with_reader : Lexer → Bool × Reader → Bool × Lexer
with_reader l (found, r) = (found, record l { reader = r })

unfoldable pub consume_char_if : ℕ → Lexer → Bool × Lexer
unfolding with_reader CharacterReader.consume_char_if
consume_char_if c l = with_reader l (CharacterReader.consume_char_if c l.reader)

abbrev pub add_error_range : ℕ → ℕ → ErrorCode → Lexer → Lexer
add_error_range start end code l = record l {
  errors = l.errors ++ (record { start = start; end = end; code = code } ∷ []);
}

-- `AddError(MakeTokenRange(), code)`.
abbrev pub add_error : ErrorCode → Lexer → Lexer
add_error code l = add_error_range l.token_start (location l) code l

-- `AddError(RangeFrom(start), code)`.
abbrev pub add_error_from : ℕ → ErrorCode → Lexer → Lexer
add_error_from start code l = add_error_range start (location l) code l

-- A node over `MakeTokenRange()`.
abbrev pub new_token : TokenNode → Lexer → Token × Lexer
new_token node l = (record { start = l.token_start; end = location l; node = node }, l)

abbrev pub new_punctuator : TokenKind → Lexer → Token × Lexer
new_punctuator kind l = new_token (TokenNode.punctuator kind) l

abbrev pub set_newline : Bool → Lexer → Lexer
set_newline found l = record l {
  is_separated_by_newline = if found then true else l.is_separated_by_newline;
}
