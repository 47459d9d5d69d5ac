-- ===== src/Parser/Lexer/Strings.antt =====
-- aoba/parser/lexer/lexer.cc: `HandleStringLiteral`. `step` is one round of the `while` loop.
use Prim.Native.Nat.{bit_or}
use aoba.Prelude.{
  ℕ, zero, suc, ◌+◌, ◌*◌, ◌%◌, ◌^◌, Bool, not, ◌&&◌, ◌||◌, none, some, List, [], ◌∷◌, ◌++◌, ◌==◌,
  ltb, length, if◌then◌else◌,
}
use aoba.Parser.Utils.LexerUtils.{
  from_digit_char, is_digit_char, is_line_terminator, line_separator, paragraph_separator,
  max_unicode_code_point,
}
use aoba.Parser.Utils.CharacterReader.{peek_char, peek_is}
use aoba.Parser.Lexer.State.{
  Lexer, LexerContext, Token, ErrorCode, string_literal, location, consume_char, consume_char_if,
  new_token, add_error, add_error_from, string_literal_backslash,
  string_literal_backslash_hex_digit, string_literal_backslash_unicode, string_literal_newline,
  string_literal_not_closed,
}

pub data State : Type 0 where
  backslash backslash_cr backslash_u backslash_u1 backslash_u2 backslash_u3 : State
  backslash_ub backslash_ubx backslash_x backslash_x1 normal : State

-- The variables of the loop, and the lexer. `accumulator` is the bit pattern of an `int`.
pub record StringLoop : Type 0 where
  pub state : State
  pub accumulator : ℕ
  pub backslash_start : ℕ
  pub characters : List ℕ
  pub lexer : Lexer

-- `closed` is the `return` at the delimiter.
pub data Round : Type 0 where
  continues : StringLoop → Round
  closed : Lexer → Round

-- `break` out of the switch: the round ends with `ConsumeChar()`.
abbrev pub break_switch : StringLoop → Round
break_switch s = continues (record s { lexer = consume_char s.lexer })

abbrev pub enter : State → StringLoop → Round
enter state s = break_switch (record s { state = state })

abbrev pub push : ℕ → StringLoop → StringLoop
push c s = record s { characters = s.characters ++ (c ∷ []) }

-- `state = State::Normal; characters.push_back(c); break;`
abbrev pub push_back : ℕ → StringLoop → Round
push_back c s = enter normal (push c s)

abbrev pub report : ErrorCode → StringLoop → StringLoop
report code s = record s { lexer = add_error_from s.backslash_start code s.lexer }

-- The label `invalid_hex_digit`, and the branches with the same text.
abbrev pub invalid_hex_digit : StringLoop → Round
invalid_hex_digit s = enter normal (report string_literal_backslash_hex_digit s)

abbrev pub is_hex : ℕ → Bool
is_hex c = is_digit_char c 16

-- `accumulator *= 16; accumulator |= FromDigitChar(c, 16);` Overflow of the `int`, which C++ leaves
-- undefined, wraps.
unfoldable pub accumulate : ℕ → ℕ → ℕ
accumulate accumulator c = bit_or (accumulator * 16 % 2 ^ 32) (from_digit_char c 16)

-- The conversion to `base::char16`.
abbrev pub to_char16 : ℕ → ℕ
to_char16 n = n % 2 ^ 16

unfoldable pub step_normal : ℕ → ℕ → StringLoop → Round
step_normal delimiter c s =
    if c == delimiter
    then closed (consume_char s.lexer)
    else if c == b'\\'
    then enter backslash (record s { backslash_start = location s.lexer })
    else if not (delimiter == b'`') && is_line_terminator c
    then break_switch (
        push c
          (record s { lexer = add_error_from s.lexer.token_start string_literal_newline s.lexer }))
    else break_switch (push c s)

-- `case '0'`, with the zero consumed.
unfoldable pub step_backslash_zero : LexerContext → StringLoop → Round
step_backslash_zero context s =
    let s' = record s { lexer = consume_char s.lexer; state = normal } in
    if context.enable_strict_backslash && peek_is (λ d. is_digit_char d 10) s'.lexer.reader
    then continues (report string_literal_backslash s')
    else continues (push 0 s')

-- `default`.
unfoldable pub step_backslash_other : LexerContext → ℕ → StringLoop → Round
step_backslash_other context c s =
    let s' = push c (record s { lexer = consume_char s.lexer; state = normal }) in
    continues (if context.enable_strict_backslash then report string_literal_backslash s' else s')

unfoldable pub step_backslash : LexerContext → ℕ → StringLoop → Round
step_backslash context c s =
    if c == b'\'' || c == b'"' || c == b'\\'
    then push_back c s
    else if c == b'0'
    then step_backslash_zero context s
    else if c == b'b'
    then push_back 0x08 s
    else if c == b'f'
    then push_back 0x0C s
    else if c == b'n'
    then push_back b'\n' s
    else if c == b'r'
    then push_back b'\r' s
    else if c == b't'
    then push_back b'\t' s
    else if c == b'v'
    then push_back 0x0B s
    else if c == b'\n' || c == line_separator || c == paragraph_separator
    then enter normal s
    else if c == b'\r'
    then enter backslash_cr s
    else if c == b'x'
    then enter backslash_x s
    else if c == b'u'
    then enter backslash_u s
    else step_backslash_other context c s

-- With no line feed the round ends by `continue`, and `c` is read again in the normal state.
unfoldable pub step_backslash_cr : StringLoop → Round
step_backslash_cr s =
    let (found, l) = consume_char_if b'\n' s.lexer in
    let s' = record s { state = normal; lexer = l } in
    if found then break_switch s' else continues s'

-- One more hexadecimal digit, and then `next`.
abbrev pub step_hex : ℕ → State → StringLoop → Round
step_hex c next s =
    if is_hex c
    then enter next (record s { accumulator = accumulate s.accumulator c })
    else invalid_hex_digit s

-- The last hexadecimal digit.
abbrev pub step_last_hex : ℕ → StringLoop → Round
step_last_hex c s =
    if is_hex c
    then (let s' = record s { accumulator = accumulate s.accumulator c } in
        push_back (to_char16 s'.accumulator) s')
    else invalid_hex_digit s

-- The first hexadecimal digit.
abbrev pub step_first_hex : ℕ → State → StringLoop → Round
step_first_hex c next s =
    if is_hex c
    then enter next (record s { accumulator = from_digit_char c 16 })
    else invalid_hex_digit s

-- `accumulator > kMaxUnicodeCodePoint`, of a signed `int`.
abbrev pub exceeds_unicode : ℕ → Bool
exceeds_unicode n = ltb max_unicode_code_point n && ltb n (2 ^ 31)

unfoldable pub step_backslash_ubx : ℕ → StringLoop → Round
step_backslash_ubx c s =
    if c == b'}'
    then (if exceeds_unicode s.accumulator
        then enter normal (report string_literal_backslash_unicode s)
        else push_back (to_char16 s.accumulator) s)
    else step_hex c backslash_ubx s

abbrev pub step_backslash_u : ℕ → StringLoop → Round
step_backslash_u c s =
    if is_hex c
    then enter backslash_u1 (record s { accumulator = from_digit_char c 16 })
    else if c == b'{'
    then enter backslash_ub s
    else invalid_hex_digit s

unfoldable pub step_in : LexerContext → ℕ → ℕ → State → StringLoop → Round
step_in context delimiter c normal s = step_normal delimiter c s
step_in context delimiter c backslash s = step_backslash context c s
step_in context delimiter c backslash_cr s = step_backslash_cr s
step_in context delimiter c backslash_u s = step_backslash_u c s
step_in context delimiter c backslash_u1 s = step_hex c backslash_u2 s
step_in context delimiter c backslash_u2 s = step_hex c backslash_u3 s
step_in context delimiter c backslash_u3 s = step_last_hex c s
step_in context delimiter c backslash_ub s = step_first_hex c backslash_ubx s
step_in context delimiter c backslash_ubx s = step_backslash_ubx c s
step_in context delimiter c backslash_x s = step_first_hex c backslash_x1 s
step_in context delimiter c backslash_x1 s = step_last_hex c s

-- How the loop ends: by `return` at the delimiter, by its condition, or with no fuel left.
pub data StringStop : Type 0 where
  at_delimiter at_end no_fuel : StringStop

-- What the loop leaves.
pub record StringEnd : Type 0 where
  pub stop : StringStop
  pub lexer : Lexer
  pub characters : List ℕ

unfoldable pub string_rounds : LexerContext → ℕ → ℕ → StringLoop → StringEnd
string_rounds context delimiter zero s = record {
  stop = no_fuel;
  lexer = s.lexer;
  characters = s.characters;
}
string_rounds context delimiter (suc fuel) s = elim (peek_char s.lexer.reader) [
  | none ↦ record { stop = at_end; lexer = s.lexer; characters = s.characters }
  | some c ↦ elim (step_in context delimiter c s.state s) [
    | continues s' ↦ string_rounds context delimiter fuel s'
    | closed l ↦ record { stop = at_delimiter; lexer = l; characters = s.characters }
  ]
]

-- A round consumes a character, except one that leaves `backslash_cr`, so two rounds for each
-- character are enough.
abbrev pub string_fuel : Lexer → ℕ
string_fuel l = 2 * length l.reader.ahead + 2

abbrev pub start_string : Lexer → StringLoop
start_string l = record {
  state = normal;
  accumulator = 0;
  backslash_start = 0;
  characters = [];
  lexer = l;
}

-- `delimiter` is the character that `ConsumeChar` returns.
unfoldable pub read_string : LexerContext → ℕ → Lexer → StringEnd
read_string context delimiter l =
    let l' = consume_char l in string_rounds context delimiter (string_fuel l') (start_string l')

-- Behind the loop. With no fuel left there is no token to return: it would be empty, which no token
-- of the lexer is.
unfoldable pub end_string : StringStop → Lexer → Token × Lexer
end_string at_delimiter l = new_token string_literal l
end_string at_end l = new_token string_literal (add_error string_literal_not_closed l)
end_string no_fuel l =
    (record { start = l.token_start; end = l.token_start; node = string_literal }, l)

unfoldable pub handle_string_literal : LexerContext → ℕ → Lexer → Token × Lexer
handle_string_literal context delimiter l =
    let s = read_string context delimiter l in end_string s.stop s.lexer
