-- ===== src/Parser/Regexp/Lexer/State.antt =====
-- The tokens and the state of aoba/parser/regexp/regexp_lexer.{h,cc}, and the helpers on them.
use aoba.Prelude.{ℕ, ◌-◌, ◌^◌, Bool, List, [], ◌∷◌, ◌++◌, if◌then◌else◌}
use aoba.Ast.TokenKind.{TokenKind}
use aoba.Parser.Utils.CharacterReader
use aoba.Parser.Utils.CharacterReader.{
  Reader, start_reader, can_peek_char, peek_char, peek_is, move_forward, move_backward, fold_while,
  skip_while,
}

-- `FOR_EACH_REGEXP_ERROR_CODE`.
pub data RegExpErrorCode : Type 0 where
  regexp_expect_char regexp_expect_pattern regexp_expect_primary regexp_expect_rbrace :
      RegExpErrorCode
  regexp_expect_rbracket regexp_expect_rparen regexp_invalid_dollar : RegExpErrorCode
  regexp_invalid_grouping regexp_invalid_number regexp_invalid_repeat : RegExpErrorCode

pub record RegExpError : Type 0 where
  pub start : ℕ
  pub end : ℕ
  pub code : RegExpErrorCode

pub data AssertionKind : Type 0 where
  assertion_start assertion_end boundary boundary_not : AssertionKind

pub data RepeatMethod : Type 0 where
  greedy lazy : RepeatMethod

-- `kRegExpInfinity`, the largest `int`.
abbrev pub regexp_infinity : ℕ
regexp_infinity = 2 ^ 31 - 1

pub data RegExpNode : Type 0 where
  any_char char_set complement_char_set literal : RegExpNode
  assertion : AssertionKind → RegExpNode
  repeat : RepeatMethod → (min max : ℕ) → RegExpNode
  syntax_char : TokenKind → RegExpNode

pub record RegExpToken : Type 0 where
  pub start : ℕ
  pub end : ℕ
  pub node : RegExpNode

-- `range_start` is the start of the range, and `strict` the option `enable_strict_regexp`.
pub record RegExpLexer : Type 0 where
  pub reader : Reader
  pub group : ℕ
  pub token_start : ℕ
  pub range_start : ℕ
  pub strict : Bool
  pub errors : List RegExpError

abbrev pub start_regexp_lexer : Bool → ℕ → List ℕ → RegExpLexer
start_regexp_lexer strict start text = record {
  reader = start_reader start text;
  group = 0;
  token_start = 0;
  range_start = start;
  strict = strict;
  errors = [];
}

abbrev pub Handler : Type 0
Handler = RegExpLexer → RegExpToken × RegExpLexer

abbrev pub consume_char : RegExpLexer → RegExpLexer
consume_char l = record l { reader = move_forward l.reader }

abbrev with_reader : RegExpLexer → Bool × Reader → Bool × RegExpLexer
with_reader l (found, r) = (found, record l { reader = r })

unfoldable pub consume_char_if : ℕ → RegExpLexer → Bool × RegExpLexer
consume_char_if c l = with_reader l (CharacterReader.consume_char_if c l.reader)

abbrev pub add_error : RegExpErrorCode → RegExpLexer → RegExpLexer
add_error code l = record l {
  errors =
      l.errors ++ (record { start = l.token_start; end = l.reader.location; code = code } ∷ []);
}

-- A node over `MakeTokenRange()`.
abbrev pub new_node : RegExpNode → Handler
new_node node l = (record { start = l.token_start; end = l.reader.location; node = node }, l)

-- `if (ConsumeCharIf(c)) return a; return b;`
unfoldable pub if_char : ℕ → Handler → Handler → Handler
if_char c a b l = let (found, l') = consume_char_if c l in if found then a l' else b l'

-- A repeat that is lazy behind `?`.
abbrev pub new_repeat : ℕ → ℕ → Handler
new_repeat least most =
    if_char b'?' (new_node (repeat lazy least most)) (new_node (repeat greedy least most))
