-- ===== src/Ast/TokenKind.antt =====
-- The punctuators of aoba/ast/lexical_grammar.h (`FOR_EACH_JAVASCRIPT_PUNCTUATOR`), in the order of
-- `ast::TokenKind`, with their spelling.
use Prim.Native.Char.{code}
use Prim.Native.String.{String}
use aoba.Prelude.{ℕ, List, [], ◌∷◌}

-- The code units of an ASCII text.
abbrev pub codes : String → List ℕ
codes String.[] = []
codes (String.◌∷◌ c s) = code c ∷ codes s

pub data TokenKind : Type 0 where
  invalid left_brace right_brace left_bracket right_bracket : TokenKind
  left_parenthesis right_parenthesis dot dot_dot dot_dot_dot semicolon comma : TokenKind
  less_than less_than_or_equal greater_than greater_than_or_equal : TokenKind
  equal_equal equal_equal_equal plus minus times modulo : TokenKind
  plus_plus post_plus_plus minus_minus post_minus_minus : TokenKind
  left_shift right_shift unsigned_right_shift : TokenKind
  bit_and bit_or bit_xor logical_not not_equal not_equal_equal bit_not : TokenKind
  logical_and logical_or question colon equal : TokenKind
  plus_equal minus_equal times_equal modulo_equal : TokenKind
  left_shift_equal right_shift_equal unsigned_right_shift_equal : TokenKind
  bit_and_equal bit_or_equal bit_xor_equal arrow times_times times_times_equal : TokenKind
  divide divide_equal : TokenKind

abbrev pub spelling : TokenKind → List ℕ
spelling invalid = codes "???"
spelling left_brace = codes "{"
spelling right_brace = codes "}"
spelling left_bracket = codes "["
spelling right_bracket = codes "]"
spelling left_parenthesis = codes "("
spelling right_parenthesis = codes ")"
spelling dot = codes "."
spelling dot_dot = codes ".."
spelling dot_dot_dot = codes "..."
spelling semicolon = codes ";"
spelling comma = codes ","
spelling less_than = codes "<"
spelling less_than_or_equal = codes "<="
spelling greater_than = codes ">"
spelling greater_than_or_equal = codes ">="
spelling equal_equal = codes "=="
spelling equal_equal_equal = codes "==="
spelling plus = codes "+"
spelling minus = codes "-"
spelling times = codes "*"
spelling modulo = codes "%"
spelling plus_plus = codes "++"
spelling post_plus_plus = codes "++"
spelling minus_minus = codes "--"
spelling post_minus_minus = codes "--"
spelling left_shift = codes "<<"
spelling right_shift = codes ">>"
spelling unsigned_right_shift = codes ">>>"
spelling bit_and = codes "&"
spelling bit_or = codes "|"
spelling bit_xor = codes "^"
spelling logical_not = codes "!"
spelling not_equal = codes "!="
spelling not_equal_equal = codes "!=="
spelling bit_not = codes "~"
spelling logical_and = codes "&&"
spelling logical_or = codes "||"
spelling question = codes "?"
spelling colon = codes ":"
spelling equal = codes "="
spelling plus_equal = codes "+="
spelling minus_equal = codes "-="
spelling times_equal = codes "*="
spelling modulo_equal = codes "%="
spelling left_shift_equal = codes "<<="
spelling right_shift_equal = codes ">>="
spelling unsigned_right_shift_equal = codes ">>>="
spelling bit_and_equal = codes "&="
spelling bit_or_equal = codes "|="
spelling bit_xor_equal = codes "^="
spelling arrow = codes "=>"
spelling times_times = codes "**"
spelling times_times_equal = codes "**="
spelling divide = codes "/"
spelling divide_equal = codes "/="

-- The value of the enumerator, from the first punctuator.
unfoldable pub kind_index : TokenKind → ℕ
kind_index invalid = 0
kind_index left_brace = 1
kind_index right_brace = 2
kind_index left_bracket = 3
kind_index right_bracket = 4
kind_index left_parenthesis = 5
kind_index right_parenthesis = 6
kind_index dot = 7
kind_index dot_dot = 8
kind_index dot_dot_dot = 9
kind_index semicolon = 10
kind_index comma = 11
kind_index less_than = 12
kind_index less_than_or_equal = 13
kind_index greater_than = 14
kind_index greater_than_or_equal = 15
kind_index equal_equal = 16
kind_index equal_equal_equal = 17
kind_index plus = 18
kind_index minus = 19
kind_index times = 20
kind_index modulo = 21
kind_index plus_plus = 22
kind_index post_plus_plus = 23
kind_index minus_minus = 24
kind_index post_minus_minus = 25
kind_index left_shift = 26
kind_index right_shift = 27
kind_index unsigned_right_shift = 28
kind_index bit_and = 29
kind_index bit_or = 30
kind_index bit_xor = 31
kind_index logical_not = 32
kind_index not_equal = 33
kind_index not_equal_equal = 34
kind_index bit_not = 35
kind_index logical_and = 36
kind_index logical_or = 37
kind_index question = 38
kind_index colon = 39
kind_index equal = 40
kind_index plus_equal = 41
kind_index minus_equal = 42
kind_index times_equal = 43
kind_index modulo_equal = 44
kind_index left_shift_equal = 45
kind_index right_shift_equal = 46
kind_index unsigned_right_shift_equal = 47
kind_index bit_and_equal = 48
kind_index bit_or_equal = 49
kind_index bit_xor_equal = 50
kind_index arrow = 51
kind_index times_times = 52
kind_index times_times_equal = 53
kind_index divide = 54
kind_index divide_equal = 55
