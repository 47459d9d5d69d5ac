-- ===== src/Parser/TypeSyntax/Parser/Tests.antt =====
-- Runs of the parser of type annotations, and its theorem at a concrete input.
use aoba.Prelude.{◌≤◌, ◌≡◌, refl}
use aoba.Ast.TokenKind.{codes, kind_index}
use aoba.Parser.Utils.CharacterReader.{fold_while, skip_while, move_forward}
use aoba.Parser.Utils.LexerUtils.{is_whitespace, is_identifier_start, is_identifier_part}
use aoba.Parser.Utils.BracketTracker.{
  feed, out_of_range, compute_min, compute_max, feed_each, check, mark,
}
use aoba.Parser.Utils.Steps.{
  Ends, crashed, ◌>>=◌, pure, crash, gets, modify, exhausted, if◌then◌else◌,
}
use aoba.Parser.TypeSyntax.Lexer.{
  js_doc, next_token, next_token_loop, skip_whitespace, handle_character, handle_other, handle_name,
  handle_punctuator,
}
use aoba.Parser.TypeSyntax.Parser.Actions.{
  TypeParser, type_brackets, lex, feed_token, with_token, peek_token, consume_token, is_word,
  same_text, if_kind, if_word, new_node, scope, set_node_start, start_type_parser,
}
use aoba.Parser.TypeSyntax.Parser.{
  parse, parse_optional_type, union_loop, parse_union, parse_union_type, qualified_loop,
  parse_name_as_type, parse_named, parse_non_union_type, parse_non_optional_type,
}
use aoba.Parser.TypeSyntax.Parser.Rules.{remaining}
use aoba.Parser.TypeSyntax.Parser.Termination.{parse-Returns}

abbrev annotation : TypeParser
annotation = start_type_parser js_doc 0 (codes "?A|B.<C>=")

-- A union that ends with its bar: the parser reads a token that is not there.
open_union : parse (start_type_parser js_doc 0 (codes "A|")) ≡ crashed
unfolding kind_index ◌>>=◌ pure crash gets modify exhausted if◌then◌else◌ next_token next_token_loop
    skip_whitespace handle_character handle_other handle_name handle_punctuator fold_while
    skip_while move_forward is_whitespace is_identifier_start is_identifier_part feed out_of_range
    compute_min compute_max feed_each check mark type_brackets lex feed_token with_token peek_token
    consume_token is_word same_text if_kind if_word new_node scope set_node_start start_type_parser
    parse parse_optional_type union_loop parse_union parse_union_type qualified_loop
    parse_name_as_type parse_named parse_non_union_type parse_non_optional_type
open_union = refl

parse-Returns_example : Ends (λ type q. remaining q ≤ remaining annotation) (parse annotation)
parse-Returns_example = parse-Returns annotation
