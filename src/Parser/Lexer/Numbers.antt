-- ===== src/Parser/Lexer/Numbers.antt =====
-- aoba/parser/lexer/lexer.cc: the numeric literals. `uint64_t` arithmetic is taken modulo 2 ^ 64.
use aoba.Prelude.{
  ℕ, ◌+◌, ◌-◌, ◌*◌, ◌/◌, ◌%◌, ◌^◌, Bool, true, false, not, ◌&&◌, ◌||◌, Option, none, some, List, [],
  ◌∷◌, ◌++◌, ◌==◌, ltb, within, if◌then◌else◌,
}
use aoba.Prelude.Int.{ℤ, pos, negsuc, decrement}
use aoba.Parser.Utils.LexerUtils.{from_digit_char, is_digit_char, is_identifier_part}
use aoba.Parser.Utils.CharacterReader.{Reader, peek_char, fold_while, skip_while}
use aoba.Parser.Lexer.State.{
  Lexer, LexerError, Token, ErrorCode, integer, decimal, numeric_literal, location, consume_char,
  consume_char_if, new_token, add_error, add_error_from, numeric_literal_decimal_bad_digit,
  numeric_literal_integer_bad_digit, numeric_literal_integer_no_digits,
  numeric_literal_integer_octal, numeric_literal_integer_overflow,
}

abbrev pub uint64 : ℕ
uint64 = 2 ^ 64

-- `kMaxIntegerPart`, and `kMaxInteger` of `HandleInteger`.
abbrev pub max_integer : ℕ
max_integer = 2 ^ 53

abbrev pub is_decimal : ℕ → Bool
is_decimal c = is_digit_char c 10

-- `integer_part` and `integer_scale` of `HandleDecimal`.
pub record IntegerPart : Type 0 where
  pub part : ℕ
  pub scale : ℕ

unfoldable pub decimal_step : IntegerPart → ℕ → IntegerPart
decimal_step s c =
    let digit = from_digit_char c 10 in
    if ltb ((uint64 - 1) / 10 - digit) s.part
    then record s { scale = s.scale + 1 }
    else record s { part = (s.part * 10 + digit) % uint64 }

-- `digits_part` and `digits_scale` of `HandleDecimalAfterDot`.
pub record DigitsPart : Type 0 where
  pub part : ℕ
  pub scale : ℤ

unfoldable pub fraction_step : DigitsPart → ℕ → DigitsPart
fraction_step s c =
    let digit = from_digit_char c 10 in
    if ltb max_integer s.part
    then s
    else record { part = (s.part * 10 + digit) % uint64; scale = decrement s.scale }

unfoldable pub exponent_step : ℕ → ℕ → ℕ
exponent_step e c =
    let digit = from_digit_char c 10 in if ltb max_integer e then e else (e * 10 + digit) % uint64

-- The conversion of an `int` to `uint64_t`.
abbrev pub to_uint64 : ℤ → ℕ
to_uint64 (pos n) = n % uint64
to_uint64 (negsuc n) = (uint64 - 1 - n) % uint64

-- `exponent_part * exponent_sign`, whose type is `uint64_t`.
unfoldable pub signed_exponent : ℕ → ℤ → ℕ
signed_exponent exponent_part exponent_sign = exponent_part * to_uint64 exponent_sign % uint64

unfoldable pub fraction : DigitsPart → Lexer → DigitsPart × Lexer
fraction s l =
    let (found, l₁) = consume_char_if b'.' l in
    if found
    then (let (r, s') = fold_while is_decimal fraction_step l₁.reader s in
        (s', record l₁ { reader = r }))
    else (s, l₁)

unfoldable pub exponent_sign : Lexer → ℤ × Lexer
exponent_sign l =
    let (plus, l₁) = consume_char_if b'+' l in
    if plus
    then (pos 1, l₁)
    else (let (minus, l₂) = consume_char_if b'-' l₁ in
        if minus then (negsuc 0, l₂) else (pos 0, l₂))

-- The value of `exponent` at the end of `HandleDecimalAfterDot`.
unfoldable pub exponent : Lexer → ℕ × Lexer
exponent l =
    let (upper, l₁) = consume_char_if b'E' l in
    let (lower, l₂) = if upper then (true, l₁) else consume_char_if b'e' l₁ in
    if lower
    then (let (sign, l₃) = exponent_sign l₂ in
        let (r, part) = fold_while is_decimal exponent_step l₃.reader 0 in
        (signed_exponent part sign, record l₃ { reader = r }))
    else (signed_exponent 0 (pos 0), l₂)

-- `while (CanPeekChar() && IsIdentifierPart(PeekChar())) ConsumeChar();` with its error if that
-- moves the reader, and `otherwise` if not.
abbrev pub skip_invalid : ErrorCode → (Lexer → Lexer) → Lexer → Lexer
skip_invalid code otherwise l =
    let l' = record l { reader = skip_while is_identifier_part l.reader } in
    if ltb (location l) (location l') then add_error_from (location l) code l' else otherwise l'

unfoldable pub handle_decimal_after_dot : ℕ → ℕ → Lexer → Token × Lexer
handle_decimal_after_dot integer_part integer_scale l =
    let (s, l₁) = fraction (record { part = integer_part; scale = pos integer_scale }) l in
    let (e, l₂) = exponent l₁ in
    new_token (numeric_literal (decimal s.part s.scale e))
      (skip_invalid numeric_literal_decimal_bad_digit (λ l'. l') l₂)

-- `c` is the first digit, which `ConsumeChar` returns.
unfoldable pub handle_decimal : ℕ → Lexer → Token × Lexer
handle_decimal c l =
    let l₁ = consume_char l in
    let start : IntegerPart = record { part = from_digit_char c 10; scale = 0 } in
    let (r, s) = fold_while is_decimal decimal_step l₁.reader start in
    handle_decimal_after_dot s.part s.scale (record l₁ { reader = r })

-- The variables of the loop of `HandleInteger`, with the errors that it has added.
pub record IntegerLoop : Type 0 where
  pub accumulator : ℕ
  pub number_of_digits : ℕ
  pub is_overflow : Bool
  pub errors : List LexerError

-- The digits begin at `digits_start`, so the reader stands behind this one at
-- `digits_start + number_of_digits + 1` when the error is added.
unfoldable pub integer_step : (base token_start digits_start : ℕ) → IntegerLoop → ℕ → IntegerLoop
integer_step base token_start digits_start s c =
    let digit = from_digit_char c base in
    if not (digit == 0) && ltb (max_integer / base) s.accumulator
    then record {
      accumulator = s.accumulator;
      number_of_digits = s.number_of_digits + 1;
      is_overflow = true;
      errors =
          if s.is_overflow
          then s.errors
          else s.errors
            ++ (record {
              start = token_start;
              end = digits_start + s.number_of_digits + 1;
              code = numeric_literal_integer_overflow;
            }
                ∷ []);
    }
    else record s {
      accumulator = (s.accumulator * base + digit) % uint64;
      number_of_digits = s.number_of_digits + 1;
    }

-- The loop over the digits.
unfoldable pub integer_loop : ℕ → Lexer → Reader × IntegerLoop
integer_loop base l =
    let start : IntegerLoop = record {
      accumulator = 0;
      number_of_digits = 0;
      is_overflow = false;
      errors = l.errors;
    } in
    fold_while (λ c. is_digit_char c base) (integer_step base l.token_start (location l)) l.reader
      start

-- `number_of_digits == 0` is the `else if` behind the loop.
abbrev pub check_digits : ℕ → Lexer → Lexer
check_digits number_of_digits l =
    if number_of_digits == 0 then add_error numeric_literal_integer_no_digits l else l

unfoldable pub handle_integer : ℕ → Lexer → Token × Lexer
handle_integer base l =
    let (r, s) = integer_loop base l in
    new_token (numeric_literal (integer s.accumulator)) (
      skip_invalid numeric_literal_integer_bad_digit (check_digits s.number_of_digits)
        (record l { reader = r; errors = s.errors }))

abbrev pub handle_octal : Lexer → Token × Lexer
handle_octal l =
    let (token, l') = handle_integer 8 l in (token, add_error numeric_literal_integer_octal l')

abbrev pub handle_digit_after_zero : Option ℕ → Lexer → Token × Lexer
handle_digit_after_zero none l = new_token (numeric_literal (integer 0)) l
handle_digit_after_zero (some c) l =
    if within b'0' b'7' c
    then handle_octal l
    else if within b'8' b'9' c
    then handle_decimal c l
    else if c == b'b' || c == b'B'
    then handle_integer 2 (consume_char l)
    else if c == b'o' || c == b'O'
    then handle_integer 8 (consume_char l)
    else if c == b'x' || c == b'X'
    then handle_integer 16 (consume_char l)
    else handle_decimal_after_dot 0 0 l

-- The leading zero has been consumed.
unfoldable pub handle_digit_zero : Lexer → Token × Lexer
handle_digit_zero l = handle_digit_after_zero (peek_char l.reader) l
