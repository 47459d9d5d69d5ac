-- ===== src/Parser/Lexer/Characters.antt =====
-- aoba/parser/lexer/lexer.cc: `HandleCharacter` and `NextToken`.
use aoba.Prelude.{
  ℕ, zero, suc, ◌+◌, false, Option, none, some, List, [], ◌∷◌, ◌==◌, length, if◌then◌else◌,
}
use aoba.Ast.TokenKind.{
  invalid, left_brace, right_brace, left_bracket, right_bracket, left_parenthesis,
  right_parenthesis, dot, semicolon, comma, plus, minus, modulo, plus_plus, minus_minus, bit_and,
  bit_or, bit_xor, bit_not, logical_and, logical_or, question, colon, plus_equal, minus_equal,
  modulo_equal, bit_and_equal, bit_or_equal, bit_xor_equal, divide, divide_equal,
}
use aoba.Parser.Utils.LexerUtils.{
  is_digit_char, from_digit_char, is_identifier_part, is_identifier_start, is_line_terminator,
  is_whitespace,
}
use aoba.Parser.Utils.CharacterReader.{peek_char, peek_is, move_backward, fold_while, skip_while}
use aoba.Parser.Lexer.State.{
  Lexer, LexerContext, Token, location, consume_char, consume_char_if, new_punctuator, add_error,
  set_newline, character_invalid,
}
use aoba.Parser.Lexer.Punctuators.{
  if_char, handle_operator, handle_single, handle_exclamation, handle_asterisk, handle_dot_dot,
  handle_less_than, handle_equal, handle_greater_than,
}
use aoba.Parser.Lexer.Numbers.{
  handle_decimal, handle_decimal_after_dot, handle_digit_zero, handle_integer, integer_loop,
  fraction, exponent, exponent_sign, signed_exponent, decimal_step, fraction_step, exponent_step,
  integer_step,
}
use aoba.Parser.Lexer.Comments.{
  handle_block_comment, handle_line_comment, handle_name, block_comment_loop, close_block_comment,
  line_comment_loop,
}
use aoba.Parser.Lexer.Strings.{
  handle_string_literal, end_string, read_string, string_rounds, step_in, step_normal,
  step_backslash, step_backslash_zero, step_backslash_other, step_backslash_cr, step_backslash_ubx,
  accumulate,
}

abbrev pub Handler : Type 0
Handler = Lexer → Token × Lexer

-- `case '.'`.
unfoldable pub handle_dot_digit : Handler
handle_dot_digit l =
    if peek_is (λ c. is_digit_char c 10) l.reader
    then handle_decimal_after_dot 0 0 (record l { reader = move_backward l.reader })
    else new_punctuator dot l

unfoldable pub handle_dot : Handler
handle_dot l = if_char b'.' handle_dot_dot handle_dot_digit (consume_char l)

-- `case '/'`.
unfoldable pub handle_slash : Handler
handle_slash l =
    if_char b'=' (new_punctuator divide_equal)
      (if_char b'*' handle_block_comment (if_char b'/' handle_line_comment (new_punctuator divide)))
      (consume_char l)

unfoldable pub handle_zero : Handler
handle_zero l = handle_digit_zero (consume_char l)

-- The cases of the `switch`, in order, for `PeekChar() == c`.
unfoldable pub cases : LexerContext → ℕ → List (ℕ × Handler)
cases context c =
    (b'!', handle_exclamation)
    ∷ (b'"', handle_string_literal context c)
    ∷ (b'$', handle_name)
    ∷ (b'%', handle_operator c modulo invalid modulo_equal)
    ∷ (b'&', handle_operator c bit_and logical_and bit_and_equal)
    ∷ (b'\'', handle_string_literal context c)
    ∷ (b'(', handle_single left_parenthesis)
    ∷ (b')', handle_single right_parenthesis)
    ∷ (b'*', handle_asterisk)
    ∷ (b'+', handle_operator c plus plus_plus plus_equal)
    ∷ (b',', handle_single comma)
    ∷ (b'-', handle_operator c minus minus_minus minus_equal)
    ∷ (b'.', handle_dot)
    ∷ (b'/', handle_slash)
    ∷ (b'0', handle_zero)
    ∷ (b'1', handle_decimal c)
    ∷ (b'2', handle_decimal c)
    ∷ (b'3', handle_decimal c)
    ∷ (b'4', handle_decimal c)
    ∷ (b'5', handle_decimal c)
    ∷ (b'6', handle_decimal c)
    ∷ (b'7', handle_decimal c)
    ∷ (b'8', handle_decimal c)
    ∷ (b'9', handle_decimal c)
    ∷ (b':', handle_single colon)
    ∷ (b';', handle_single semicolon)
    ∷ (b'<', handle_less_than)
    ∷ (b'=', handle_equal)
    ∷ (b'>', handle_greater_than)
    ∷ (b'?', handle_single question)
    ∷ (b'`', handle_string_literal context c)
    ∷ (b'[', handle_single left_bracket)
    ∷ (b']', handle_single right_bracket)
    ∷ (b'_', handle_name)
    ∷ (b'^', handle_operator c bit_xor invalid bit_xor_equal)
    ∷ (b'~', handle_single bit_not)
    ∷ (b'{', handle_single left_brace)
    ∷ (b'}', handle_single right_brace)
    ∷ (b'|', handle_operator c bit_or logical_or bit_or_equal)
    ∷ []

-- The first case whose label is `c`.
unfoldable pub find_case {ℓ} : {A : Type ℓ} → ℕ → List (ℕ × A) → Option A
find_case c [] = none
find_case c ((k, handler) ∷ rest) = if c == k then some handler else find_case c rest

unfoldable pub returns : Token × Lexer → Option Token × Lexer
returns (token, l) = (some token, l)

-- Behind the `switch`.
unfoldable pub handle_other : ℕ → Lexer → Option Token × Lexer
handle_other c l =
    if is_identifier_start c
    then returns (handle_name l)
    else if is_whitespace c
    then (none, consume_char l)
    else (none, add_error character_invalid (consume_char l))

unfoldable pub run_case : Option Handler → ℕ → Lexer → Option Token × Lexer
run_case (some handler) c l = returns (handler l)
run_case none c l = handle_other c l

-- `c` is `PeekChar()`.
unfoldable pub handle_character : LexerContext → ℕ → Lexer → Option Token × Lexer
handle_character context c l =
    run_case (find_case c (cases context c)) c (record l { token_start = location l })

-- The end of a round of `NextToken`: a token is returned, and the loop goes on without one.
unfoldable pub or_else :
    (Lexer → Option Token × Lexer) → Option Token × Lexer → Option Token × Lexer
or_else loop (some token, l) = (some token, l)
or_else loop (none, l) = loop l

unfoldable pub next_token_loop : LexerContext → ℕ → Lexer → Option Token × Lexer
next_token_loop context zero l = (none, l)
next_token_loop context (suc fuel) l = elim (peek_char l.reader) [
  | none ↦ (none, l)
  | some c ↦
      or_else (next_token_loop context fuel)
        (handle_character context c (set_newline (is_line_terminator c) l))
]

-- Each round of the loop consumes a character, so this fuel is enough.
unfoldable pub next_token : LexerContext → Lexer → Option Token × Lexer
unfolding next_token_loop or_else handle_character run_case returns handle_other find_case cases
    handle_zero handle_dot handle_dot_digit handle_slash handle_operator handle_single
    handle_exclamation handle_asterisk handle_dot_dot handle_less_than handle_equal
    handle_greater_than if_char consume_char consume_char_if handle_decimal handle_decimal_after_dot
    handle_integer integer_loop handle_digit_zero fraction exponent exponent_sign signed_exponent
    decimal_step fraction_step exponent_step integer_step handle_block_comment handle_line_comment
    handle_name block_comment_loop close_block_comment line_comment_loop handle_string_literal
    end_string read_string string_rounds step_in step_normal step_backslash step_backslash_zero
    step_backslash_other step_backslash_cr step_backslash_ubx accumulate fold_while skip_while
    move_backward is_digit_char from_digit_char is_identifier_start is_identifier_part
    is_line_terminator is_whitespace
next_token context l =
    next_token_loop context (length l.reader.ahead + 1)
      (record l { is_separated_by_newline = false })
