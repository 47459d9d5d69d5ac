-- ===== src/Parser/Regexp/Lexer.antt =====
-- aoba/parser/regexp/regexp_lexer.{h,cc}: the tokens of a regular expression.
pub mod State
pub mod Numbers
pub mod Progress
use aoba.Prelude.{
  ℕ, zero, suc, ◌+◌, ◌-◌, ◌*◌, ◌/◌, ◌%◌, ◌^◌, ◌≤◌, ◌<◌, min, max, Bool, true, false, not, ◌&&◌,
  ◌||◌, Option, some, none, List, [], ◌∷◌, ◌++◌, ◌≡◌, ◌≢◌, ◌↔◌, ◌⊎◌, inl, inr, refl, sym, ap, ◌∙◌,
  length, take, drop, length-append, append_assoc, append-nil, Bool-cases, if◌then◌else◌, arith,
  ltb, leb, ◌==◌, within, take_while, drop_while, All, reverse_onto, ==_iff, leb→le, ltb→lt, le→leb,
  lt→ltb, get_elem?,
}
use aoba.Ast.TokenKind.{TokenKind}
use aoba.Parser.Utils.LexerUtils.{from_digit_char, is_digit_char}
use aoba.Parser.Utils.CharacterReader
use aoba.Parser.Utils.CharacterReader.{
  Reader, start_reader, can_peek_char, peek_char, peek_is, move_forward, move_backward, fold_while,
  skip_while,
}
unfoldable pub use aoba.Parser.Regexp.Lexer.State.{consume_char_if, if_char}
pub use aoba.Parser.Regexp.Lexer.State.{
  RegExpErrorCode, RegExpError, AssertionKind, RepeatMethod, regexp_infinity, RegExpNode,
  RegExpToken, RegExpLexer, start_regexp_lexer, Handler, consume_char, add_error, new_node,
  new_repeat, regexp_expect_char, regexp_expect_pattern, regexp_expect_primary,
  regexp_expect_rbrace, regexp_expect_rbracket, regexp_expect_rparen, regexp_invalid_dollar,
  regexp_invalid_grouping, regexp_invalid_number, regexp_invalid_repeat, assertion_start,
  assertion_end, boundary, boundary_not, greedy, lazy, any_char, char_set, complement_char_set,
  literal, assertion, repeat, syntax_char,
}

-- `PeekChar() == c`, at the end of the range no.
abbrev at_char : ℕ → Reader → Bool
at_char c r = peek_is (λ d. d == c) r

-- The loop of `HandleCharSet`, over the characters ahead.
unfoldable pub char_set_loop : List ℕ → Reader → Reader
char_set_loop [] r = r
char_set_loop (c ∷ []) r = if c == b']' then r else move_forward r
char_set_loop (c ∷ d ∷ cs) r =
    let plain = char_set_loop (d ∷ cs) (move_forward r) in
    let escaped = char_set_loop cs (move_forward (move_forward r)) in
    if c == b']' then r else if c == b'\\' then escaped else plain

abbrev char_set_node : Bool → Handler
char_set_node is_complement = new_node (if is_complement then complement_char_set else char_set)

unfoldable pub handle_char_set : Handler
handle_char_set l =
    let (is_complement, l₁) = consume_char_if b'^' l in
    if_char b']' (char_set_node is_complement)
      (λ l'. char_set_node is_complement (add_error regexp_expect_rbracket l'))
      (record l₁ { reader = char_set_loop l₁.reader.ahead l₁.reader })

-- The variables of the loop of `HandleDigits`, with the errors.
pub record DigitsLoop : Type 0 where
  pub number_of_digits : ℕ
  pub number : ℕ
  pub errors : List RegExpError

-- The digits begin at `digits_start`.
unfoldable pub digit_step : (base token_start digits_start : ℕ) → DigitsLoop → ℕ → DigitsLoop
digit_step base token_start digits_start s c =
    let digit = from_digit_char c base in
    let count = s.number_of_digits + 1 in
    if leb (regexp_infinity / base - digit) s.number
    then record {
      number_of_digits = count;
      number = s.number;
      errors =
          s.errors
          ++ (record {
            start = token_start;
            end = digits_start + count;
            code = regexp_invalid_number;
          }
              ∷ []);
    }
    else record { number_of_digits = count; number = s.number * base + digit; errors = s.errors }

unfoldable pub digits_loop : ℕ → RegExpLexer → Reader × DigitsLoop
digits_loop base l =
    let start : DigitsLoop = record { number_of_digits = 0; number = 0; errors = l.errors } in
    fold_while (λ c. is_digit_char c base) (digit_step base l.token_start l.reader.location)
      l.reader start

abbrev check_digits : ℕ → RegExpLexer → RegExpLexer
check_digits count l = if count == 0 then add_error regexp_invalid_number l else l

unfoldable pub handle_digits : ℕ → RegExpLexer → ℕ × RegExpLexer
handle_digits base l =
    let (r, s) = digits_loop base l in
    (s.number, check_digits s.number_of_digits (record l { reader = r; errors = s.errors }))

abbrev at_digit : RegExpLexer → Bool
at_digit l = peek_is (λ c. is_digit_char c 10) l.reader

-- The upper bound of a repeat.
unfoldable pub handle_max : RegExpLexer → ℕ × RegExpLexer
handle_max l = if at_digit l then handle_digits 10 l else (regexp_infinity, l)

-- Behind the lower bound and no closing brace.
unfoldable pub handle_repeat_max : ℕ → Handler
handle_repeat_max least l =
    let (comma, l₁) = consume_char_if b',' l in
    let (most, l₂) = handle_max (if comma then l₁ else add_error regexp_invalid_repeat l₁) in
    if_char b'}' (new_repeat least most)
      (λ l'. new_repeat least most (add_error regexp_expect_rbrace l')) l₂

unfoldable pub handle_repeat_min : Handler
handle_repeat_min l =
    let (least, l₁) = handle_digits 10 l in
    if_char b'}' (new_repeat least least) (handle_repeat_max least) l₁

unfoldable pub handle_repeat : Handler
handle_repeat l =
    if not l.strict && not (at_digit l) then new_node literal l else handle_repeat_min l

abbrev pub is_repeat_char : ℕ → Bool
is_repeat_char c = c == b'*' || c == b'+' || c == b'?' || c == b'{'

unfoldable pub is_syntax_char : RegExpLexer → ℕ → Bool
is_syntax_char l c =
    if c == b'$'
      || c == b'*'
      || c == b'+'
      || c == b'?'
      || c == b'|'
      || c == b'('
      || c == b'{'
      || c == b'['
      || c == b'\\'
    then true
    else if ltb 0 l.group && c == b')'
    then true
    else if not l.strict
    then false
    else c == b'^' || c == b'}' || c == b']'

-- Behind the `switch`: a literal runs to the next syntax character, and leaves its last character
-- to a repeat that follows.
unfoldable pub handle_literal : Handler
handle_literal l =
    let r = skip_while (λ c. not (is_syntax_char l c)) l.reader in
    if ltb (l.token_start + 1) r.location && peek_is is_repeat_char r
    then new_node literal (record l { reader = move_backward r })
    else new_node literal (record l { reader = r })

abbrev at_start : RegExpLexer → Bool
at_start l = l.token_start == l.range_start

abbrev pub handle_dollar : Handler
handle_dollar l =
    if not (can_peek_char l.reader) || l.strict
    then new_node (assertion assertion_end) l
    else handle_literal l

-- `*` and `+`, with the least number of repetitions.
abbrev pub handle_star : ℕ → Handler
handle_star least l =
    if not l.strict && at_start l then handle_literal l else new_repeat least regexp_infinity l

abbrev pub handle_group_other : Handler
handle_group_other l =
    new_node (syntax_char TokenKind.colon)
      (if l.strict then add_error regexp_invalid_grouping l else l)

abbrev pub handle_capture : Handler
handle_capture l =
    if l.strict
    then new_node (syntax_char TokenKind.colon) l
    else if not (can_peek_char l.reader) || at_char b')' l.reader
    then new_node literal l
    else new_node (syntax_char TokenKind.left_parenthesis) l

unfoldable pub handle_left_parenthesis : Handler
handle_left_parenthesis l =
    if_char b'?'
      (if_char b':' (new_node (syntax_char TokenKind.colon)) (
        if_char b'=' (new_node (syntax_char TokenKind.equal))
          (if_char b'!' (new_node (syntax_char TokenKind.logical_not)) handle_group_other)))
      handle_capture (record l { group = l.group + 1 })

abbrev pub handle_right_parenthesis : Handler
handle_right_parenthesis l =
    if ltb 0 l.group
    then new_node (syntax_char TokenKind.right_parenthesis) (record l { group = l.group - 1 })
    else if l.strict
    then new_node (syntax_char TokenKind.right_parenthesis) l
    else handle_literal l

abbrev pub handle_left_brace : Handler
handle_left_brace l = if not l.strict && at_start l then handle_literal l else handle_repeat l

abbrev pub handle_caret : Handler
handle_caret l =
    if at_start l || l.strict then new_node (assertion assertion_start) l else handle_literal l

-- At the end of the range the last `ConsumeChar` has no character to consume.
unfoldable pub handle_backslash : Handler
handle_backslash l =
    if_char b'b' (new_node (assertion boundary))
      (if_char b'B' (new_node (assertion boundary_not)) (λ l'. handle_literal (consume_char l')))
      (if can_peek_char l.reader then l else add_error regexp_expect_char l)

-- The `switch` of `NextToken` on the character consumed.
unfoldable pub handle_character : ℕ → Handler
handle_character c l =
    if c == b'$'
    then handle_dollar l
    else if c == b'*'
    then handle_star 0 l
    else if c == b'+'
    then handle_star 1 l
    else if c == b'.'
    then new_node any_char l
    else if c == b'?'
    then new_repeat 0 1 l
    else if c == b'('
    then handle_left_parenthesis l
    else if c == b')'
    then handle_right_parenthesis l
    else if c == b'['
    then handle_char_set l
    else if c == b'{'
    then handle_left_brace l
    else if c == b'^'
    then handle_caret l
    else if c == b'|'
    then new_node (syntax_char TokenKind.bit_or) l
    else if c == b'\\'
    then handle_backslash l
    else handle_literal l

abbrev returns : RegExpToken × RegExpLexer → Option RegExpToken × RegExpLexer
returns (token, l) = (some token, l)

abbrev next_at : List ℕ → RegExpLexer → Option RegExpToken × RegExpLexer
next_at [] l = (none, l)
next_at (c ∷ cs) l =
    returns (handle_character c (consume_char (record l { token_start = l.reader.location })))

unfoldable pub next_token : RegExpLexer → Option RegExpToken × RegExpLexer
next_token l = next_at l.reader.ahead l
