-- ===== src/Parser/Script/Literals.antt =====
-- aoba/parser/parser_expressions.cc: regular expressions, whose tokens the lexer extends and whose
-- patterns the parser of regular expressions reads.
use aoba.Prelude.{ℕ, ◌+◌, ◌-◌, Option, some, none, List, [], ◌∷◌, ◌++◌, take, drop, ◌==◌}
use aoba.Parser.Utils.BracketTracker.{BracketError}
use aoba.Parser.Utils.Steps.{
  if◌then◌else◌, Outcome, returned, crashed, out_of_fuel, Step, ◌>>=◌, ◌>>◌, pure, gets,
}
use aoba.Parser.Lexer.Buffer.{TokenBuffer}
use aoba.Parser.Lexer.Buffer.Reaches.{extend_token}
use aoba.Parser.Regexp.Lexer.{RegExpError, RegExpErrorCode}
use aoba.Parser.Regexp.Parser
use aoba.Parser.Regexp.Parser.Nodes.{Tree}
use aoba.Parser.Regexp.Parser.Actions.{start_regexp_parser, RegExpParser}
use aoba.Parser.Regexp.Parser.Actions
use aoba.Parser.Script.Words.{expression_unexpect_newline}
use aoba.Parser.Script.Nodes.{ScriptToken, JsTree, regexp_literal, one}
use aoba.Parser.Script.Actions.{ScriptParser, lexed_token, consume_token}
use aoba.Parser.Script.Ranges.{
  expect, slice, add_range_error, source_code_range, new_node, new_empty_name, scope, optional_name,
}

abbrev pub take_extended : ScriptParser → Option TokenBuffer → Outcome ScriptParser (Unit {0})
take_extended p none = crashed
take_extended p (some buffer) = returned tt (record p { buffer = buffer })

-- `lexer_->ExtendTokenAsRegExp()`.
unfoldable pub extend_token_as_reg_exp : Step ScriptParser (Unit {0})
extend_token_as_reg_exp p = take_extended p (extend_token p.buffer)

-- `static_cast<int>(error_code)`, from `kRegExpErrorCodeBase`.
abbrev regexp_error_number : RegExpErrorCode → ℕ
regexp_error_number RegExpErrorCode.regexp_expect_char = 12000 + 1
regexp_error_number RegExpErrorCode.regexp_expect_pattern = 12000 + 2
regexp_error_number RegExpErrorCode.regexp_expect_primary = 12000 + 3
regexp_error_number RegExpErrorCode.regexp_expect_rbrace = 12000 + 4
regexp_error_number RegExpErrorCode.regexp_expect_rbracket = 12000 + 5
regexp_error_number RegExpErrorCode.regexp_expect_rparen = 12000 + 6
regexp_error_number RegExpErrorCode.regexp_invalid_dollar = 12000 + 7
regexp_error_number RegExpErrorCode.regexp_invalid_grouping = 12000 + 8
regexp_error_number RegExpErrorCode.regexp_invalid_number = 12000 + 9
regexp_error_number RegExpErrorCode.regexp_invalid_repeat = 12000 + 10

abbrev regexp_errors : List RegExpError → List BracketError
regexp_errors [] = []
regexp_errors (e ∷ es) =
    record { start = e.start; end = e.end; code = regexp_error_number e.code } ∷ regexp_errors es

abbrev pub take_regexp : ScriptParser → Actions.Outcome Tree → Outcome ScriptParser Tree
take_regexp p (Actions.returned tree q) =
    returned tree (record p { errors = p.errors ++ regexp_errors q.lexer.errors })
take_regexp p Actions.crashed = crashed
take_regexp p Actions.out_of_fuel = out_of_fuel

-- `RegExpParser(&context_, range, options_).Parse()`.
unfoldable pub run_regexp_parser : ℕ × ℕ → Step ScriptParser Tree
run_regexp_parser (start, end) p = take_regexp p (
    Parser.parse
      (start_regexp_parser p.enable_strict_regexp start (take (end - start) (drop start p.text))))

abbrev head : List ℕ → Option ℕ
head [] = none
head (c ∷ cs) = some c

-- `source_code().CharAt(offset)`.
unfoldable pub char_at : ℕ → Step ScriptParser ℕ
char_at offset = gets (λ p. head (drop offset p.text)) >>= expect

-- The literal behind its pattern.
unfoldable pub regexp_flags : Tree → Step ScriptParser JsTree
regexp_flags tree = do
  newline ← gets ScriptParser.is_separated_by_newline
  (if newline
      then (do
        disabled ← gets ScriptParser.disable_automatic_semicolon
        (if disabled
            then source_code_range >>= (λ range. add_range_error range expression_unexpect_newline)
            else pure tt)
        empty ← new_empty_name
        new_node (regexp_literal tree) (one empty))
      else optional_name >>= (λ flags. new_node (regexp_literal tree) (one flags)))

-- The range of the pattern, without the slashes.
unfoldable pub pattern_range : ScriptToken → Step ScriptParser (ℕ × ℕ)
pattern_range source = do
  last ← char_at (source.end - 1)
  (if last == b'/'
      then slice (source.start + 1) (source.end - 1)
      else slice (source.start + 1) source.end)

-- `ParseRegExpLiteral`.
unfoldable pub parse_regexp_literal : Step ScriptParser JsTree
parse_regexp_literal = scope (do
  extend_token_as_reg_exp
  lexed ← gets (λ p. lexed_token p.text p.buffer.current)
  source ← expect lexed
  consumed ← consume_token
  range ← pattern_range source
  tree ← run_regexp_parser range
  regexp_flags tree)
