-- ===== src/Parser/Utils/LexerUtils.antt =====
-- aoba/parser/utils/lexer_utils.{h,cc}: character classes and digits. A `base::char16` is a number.
use aoba.Prelude.{
  ℕ, ◌+◌, ◌-◌, ◌≤◌, ◌<◌, Bool, true, false, ◌||◌, ◌≡◌, ◌≢◌, ◌==◌, ◌⊎◌, leb, within, if◌then◌else◌,
  arith,
}

abbrev pub line_separator : ℕ
line_separator = 0x2028

abbrev pub paragraph_separator : ℕ
paragraph_separator = 0x2029

abbrev pub non_break_space : ℕ
non_break_space = 0x00A0

abbrev pub zero_width_no_break_space : ℕ
zero_width_no_break_space = 0xFEFF

abbrev pub max_unicode_code_point : ℕ
max_unicode_code_point = 0x10FFFF

-- `NOTREACHED()` in the source; the callers test `is_digit_char` first.
unfoldable pub from_digit_char : ℕ → ℕ → ℕ
from_digit_char char_code base =
    if base == 16
    then (if within b'0' b'9' char_code
        then char_code - b'0'
        else if within b'A' b'F' char_code
        then char_code - b'A' + 10
        else if within b'a' b'f' char_code
        then char_code - b'a' + 10
        else 0)
    else if within b'0' (b'0' + base - 1) char_code
    then char_code - b'0'
    else 0

unfoldable pub is_digit_char : ℕ → ℕ → Bool
is_digit_char char_code base =
    if base == 16
    then (if within b'0' b'9' char_code
        then true
        else if within b'A' b'F' char_code
        then true
        else within b'a' b'f' char_code)
    else within b'0' (b'0' + base - 1) char_code

unfoldable pub is_identifier_start : ℕ → Bool
is_identifier_start char_code =
    if within b'A' b'Z' char_code
    then true
    else if within b'a' b'z' char_code
    then true
    else if leb 0xA1 char_code
    then true
    else char_code == b'$' || char_code == b'_'

unfoldable pub is_identifier_part : ℕ → Bool
unfolding is_identifier_start
is_identifier_part char_code =
    if within b'0' b'9' char_code then true else is_identifier_start char_code

unfoldable pub is_line_terminator : ℕ → Bool
is_line_terminator char_code =
    char_code == b'\n'
    || char_code == b'\r'
    || char_code == line_separator
    || char_code == paragraph_separator

unfoldable pub is_whitespace : ℕ → Bool
unfolding is_line_terminator
is_whitespace char_code =
    is_line_terminator char_code
    || char_code == b' '
    || char_code == b'\t'
    || char_code == 0x0B
    || char_code == 0x0C
    || char_code == b'\r'
    || char_code == non_break_space
    || char_code == zero_width_no_break_space

-- A digit character denotes a number below the base, in each base from 2 to 10 and in base 16.
pub from_digit_char-lt :
    (c base : ℕ)
    → ((2 ≤ base) × (base ≤ 10)) ⊎ (base ≡ 16)
    → is_digit_char c base ≡ true
    → from_digit_char c base < base
unfolding is_digit_char from_digit_char
from_digit_char-lt c base b h = ground arith

pub is_identifier_start-part : (c : ℕ) → is_identifier_start c ≡ true → is_identifier_part c ≡ true
unfolding is_identifier_part
is_identifier_start-part c h = ground arith

-- No character may both start a name and be skipped as white space, but the byte order mark and
-- the two separators, which `IsIdentifierStart` takes first.
pub is_identifier_start-is_whitespace :
    (c : ℕ)
    → c ≢ line_separator
    → c ≢ paragraph_separator
    → c ≢ zero_width_no_break_space
    → is_identifier_start c ≡ true
    → is_whitespace c ≡ false
unfolding is_identifier_start is_whitespace
is_identifier_start-is_whitespace c p q r h = ground arith
