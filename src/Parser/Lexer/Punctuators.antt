-- ===== src/Parser/Lexer/Punctuators.antt =====
-- aoba/parser/lexer/lexer.cc: `HandleOperator`, and the cases of `HandleCharacter` that read a
-- punctuator with nested `ConsumeCharIf`.
use aoba.Prelude.{ℕ, Bool, true, false, if◌then◌else◌}
use aoba.Ast.TokenKind.{
  TokenKind, invalid, dot_dot, dot_dot_dot, less_than, less_than_or_equal, greater_than,
  greater_than_or_equal, equal_equal, equal_equal_equal, times, left_shift, right_shift,
  unsigned_right_shift, logical_not, not_equal, not_equal_equal, equal, times_equal,
  left_shift_equal, right_shift_equal, unsigned_right_shift_equal, arrow, times_times,
  times_times_equal,
}
use aoba.Parser.Lexer.State.{
  Lexer, Token, consume_char, consume_char_if, new_punctuator, add_error, punctuator_dot_dot,
}

-- `if (ConsumeCharIf(c)) return a; return b;`
unfoldable pub if_char :
    ℕ → (Lexer → Token × Lexer) → (Lexer → Token × Lexer) → Lexer → Token × Lexer
if_char c a b l = let (found, l') = consume_char_if c l in if found then a l' else b l'

-- `two != TokenKind::Invalid`.
unfoldable pub is_valid : TokenKind → Bool
is_valid invalid = false
is_valid _ = true

unfoldable pub handle_repeat : ℕ → TokenKind → TokenKind → Lexer → Token × Lexer
handle_repeat char_code one two l =
    if is_valid two
    then if_char char_code (new_punctuator two) (new_punctuator one) l
    else new_punctuator one l

-- `char_code` is the character that `ConsumeChar` returns.
unfoldable pub handle_operator : ℕ → TokenKind → TokenKind → TokenKind → Lexer → Token × Lexer
unfolding handle_repeat is_valid
handle_operator char_code one two equal_kind l =
    if_char b'=' (new_punctuator equal_kind) (handle_repeat char_code one two) (consume_char l)

-- A punctuator of one character.
unfoldable pub handle_single : TokenKind → Lexer → Token × Lexer
handle_single kind l = new_punctuator kind (consume_char l)

unfoldable pub handle_exclamation : Lexer → Token × Lexer
handle_exclamation l =
    if_char b'=' (if_char b'=' (new_punctuator not_equal_equal) (new_punctuator not_equal))
      (new_punctuator logical_not) (consume_char l)

unfoldable pub handle_asterisk : Lexer → Token × Lexer
handle_asterisk l =
    if_char b'=' (new_punctuator times_equal)
      (if_char b'*' (if_char b'=' (new_punctuator times_times_equal) (new_punctuator times_times))
        (new_punctuator times))
      (consume_char l)

-- After the second dot.
unfoldable pub handle_dot_dot : Lexer → Token × Lexer
handle_dot_dot l =
    if_char b'.' (new_punctuator dot_dot_dot)
      (λ l'. new_punctuator dot_dot (add_error punctuator_dot_dot l')) l

unfoldable pub handle_less_than : Lexer → Token × Lexer
handle_less_than l =
    if_char b'=' (new_punctuator less_than_or_equal)
      (if_char b'<' (if_char b'=' (new_punctuator left_shift_equal) (new_punctuator left_shift))
        (new_punctuator less_than))
      (consume_char l)

unfoldable pub handle_equal : Lexer → Token × Lexer
handle_equal l =
    if_char b'=' (if_char b'=' (new_punctuator equal_equal_equal) (new_punctuator equal_equal))
      (if_char b'>' (new_punctuator arrow) (new_punctuator equal)) (consume_char l)

unfoldable pub handle_greater_than : Lexer → Token × Lexer
handle_greater_than l =
    if_char b'=' (new_punctuator greater_than_or_equal)
      (if_char b'>'
        (if_char b'=' (new_punctuator right_shift_equal) (
          if_char b'>'
            (if_char b'=' (new_punctuator unsigned_right_shift_equal)
              (new_punctuator unsigned_right_shift))
            (new_punctuator right_shift)))
        (new_punctuator greater_than))
      (consume_char l)
