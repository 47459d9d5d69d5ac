-- ===== src/Parser/Regexp/Tests.antt =====
-- Runs of the lexer and of the parser of regular expressions, and their theorems at concrete inputs.
use aoba.Prelude.{ℕ, zero, suc, ◌<◌, true, Option, some, none, List, [], ◌∷◌, ◌≡◌, refl}
use aoba.Ast.TokenKind.{codes, kind_index}
use aoba.Parser.Utils.CharacterReader
use aoba.Parser.Utils.CharacterReader.{fold_while, skip_while, move_forward, move_backward}
use aoba.Parser.Utils.LexerUtils.{is_digit_char, from_digit_char}
use aoba.Parser.Regexp.Lexer.{
  handle_character, handle_literal, is_syntax_char, handle_repeat, handle_repeat_min, if_char,
  consume_char_if, digits_loop, digit_step, handle_repeat_max, char_set_loop, handle_backslash,
  handle_char_set, handle_left_parenthesis, handle_max, RegExpLexer, RegExpToken, RegExpNode,
  RegExpError, start_regexp_lexer, next_token, handle_digits, regexp_infinity, repeat, greedy, lazy,
  literal, char_set,
}
use aoba.Parser.Regexp.Parser.{
  new_or, new_sequence, report_group, parse_group, parse_parenthesis, parse_capture, parse_other,
  parse_primary, parse_repeat, add_pattern, ends_sequence, sequence_loop, parse_sequence, or_member,
  or_loop, first_member, parse_or, parse,
}
use aoba.Parser.Regexp.Parser.Actions.{
  Outcome, returned, crashed, out_of_fuel, start_regexp_parser, can_peek_token, peek_token,
  consume_token, peek_is_kind, consume_kind, consume_repeat, scope_start, scope_end, last_start,
  top_group,
}
use aoba.Parser.Regexp.Parser.Fuel.{Ends, AtMost, remaining}
use aoba.Parser.Regexp.Parser.Termination.{parse-Ends}
use aoba.Parser.Regexp.Parser.Nodes.{Tree, nil, push, leaf, or_of, repeated, merge_nodes}
use aoba.Parser.Regexp.Lexer.Numbers.{handle_digits-lt}
use aoba.Parser.Regexp.Lexer.Progress.{Tiles, next_token-Tiles}

abbrev pattern_lexer : RegExpLexer
pattern_lexer = start_regexp_lexer true 0 (codes "ab{2,3}[x]*?")

-- The tokens of a pattern, and the errors.
tokens : ℕ → RegExpLexer → List RegExpToken × List RegExpError
tokens zero l = ([], l.errors)
tokens (suc n) l =
    let (t, m) = next_token l in
    elim t [
      | none ↦ ([], m.errors)
      | some token ↦ let (rest, errors) = tokens n m in (token ∷ rest, errors)
    ]

abbrev token : ℕ → ℕ → RegExpNode → RegExpToken
token start end node = record { start = start; end = end; node = node }

tokens_of_a_pattern : tokens 9 pattern_lexer ≡ (
  token 0 1 literal
      ∷ token 1 2 literal
      ∷ token 2 7 (repeat greedy 2 3)
      ∷ token 7 10 char_set
      ∷ token 10 12 (repeat lazy 0 regexp_infinity)
      ∷ [],
  [],
)
unfolding tokens next_token handle_digits handle_character handle_literal is_syntax_char
    handle_repeat handle_repeat_min if_char consume_char_if digits_loop digit_step handle_repeat_max
    char_set_loop handle_backslash handle_char_set handle_left_parenthesis handle_max skip_while
    move_forward move_backward fold_while CharacterReader.consume_char_if is_digit_char
    from_digit_char
tokens_of_a_pattern = refl

handle_digits-lt_example :
    (handle_digits 10 (start_regexp_lexer true 0 (codes "99999999999"))).0 < regexp_infinity
handle_digits-lt_example = handle_digits-lt (start_regexp_lexer true 0 (codes "99999999999"))

next_token-Tiles_example : Tiles pattern_lexer (next_token pattern_lexer)
unfolding next_token handle_character handle_literal skip_while move_forward is_syntax_char
    move_backward
next_token-Tiles_example = next_token-Tiles pattern_lexer refl

abbrev tree_of : Outcome Tree → Option Tree
tree_of (returned tree p) = some tree
tree_of crashed = none
tree_of out_of_fuel = none

-- The token that the parser has not consumed.
abbrev left_over : Outcome Tree → Option RegExpToken
left_over (returned tree p) = p.current
left_over crashed = none
left_over out_of_fuel = none

-- A group with a repeat, and an alternative.
group_and_alternative :
    tree_of (parse (start_regexp_parser true 0 (codes "ab|(?:c)*")))
    ≡ some (
        or_of 0 9 (
          push (leaf (token 0 2 literal)) (
            push
              (repeated 3 9
                (leaf (token 6 7 literal))
                (token 8 9 (repeat greedy 0 regexp_infinity)))
              nil)))
unfolding handle_digits next_token handle_character handle_literal is_syntax_char handle_repeat
    handle_repeat_min if_char consume_char_if digits_loop digit_step handle_repeat_max char_set_loop
    handle_backslash handle_char_set handle_left_parenthesis handle_max skip_while move_forward
    move_backward fold_while CharacterReader.consume_char_if is_digit_char from_digit_char
    start_regexp_parser can_peek_token peek_token consume_token peek_is_kind consume_kind
    consume_repeat scope_start scope_end last_start top_group new_or new_sequence report_group
    parse_group parse_parenthesis parse_capture parse_other parse_primary parse_repeat add_pattern
    ends_sequence sequence_loop parse_sequence or_member or_loop first_member parse_or parse
    merge_nodes kind_index
group_and_alternative = refl

-- The second `|` is consumed as an empty member, so the loop ends there and `b` is left.
second_bar_ends :
    left_over (parse (start_regexp_parser true 0 (codes "a||b"))) ≡ some (token 3 4 literal)
unfolding handle_digits next_token handle_character handle_literal is_syntax_char handle_repeat
    handle_repeat_min if_char consume_char_if digits_loop digit_step handle_repeat_max char_set_loop
    handle_backslash handle_char_set handle_left_parenthesis handle_max skip_while move_forward
    move_backward fold_while CharacterReader.consume_char_if is_digit_char from_digit_char
    start_regexp_parser can_peek_token peek_token consume_token peek_is_kind consume_kind
    consume_repeat scope_start scope_end last_start top_group new_or new_sequence report_group
    parse_group parse_parenthesis parse_capture parse_other parse_primary parse_repeat add_pattern
    ends_sequence sequence_loop parse_sequence or_member or_loop first_member parse_or parse
    merge_nodes kind_index
second_bar_ends = refl

-- A group that is open at the end of the pattern has no token where its tree would start.
open_group_crashes : parse (start_regexp_parser true 0 (codes "(?:")) ≡ crashed
unfolding handle_digits next_token handle_character handle_literal is_syntax_char handle_repeat
    handle_repeat_min if_char consume_char_if digits_loop digit_step handle_repeat_max char_set_loop
    handle_backslash handle_char_set handle_left_parenthesis handle_max skip_while move_forward
    move_backward fold_while CharacterReader.consume_char_if is_digit_char from_digit_char
    start_regexp_parser can_peek_token peek_token consume_token peek_is_kind consume_kind
    consume_repeat scope_start scope_end last_start top_group new_or new_sequence report_group
    parse_group parse_parenthesis parse_capture parse_other parse_primary parse_repeat add_pattern
    ends_sequence sequence_loop parse_sequence or_member or_loop first_member parse_or parse
    merge_nodes kind_index
open_group_crashes = refl

parse-Ends_example :
    Ends
      (AtMost (remaining (start_regexp_parser true 0 (codes "a||b"))))
      (parse (start_regexp_parser true 0 (codes "a||b")))
parse-Ends_example = parse-Ends (start_regexp_parser true 0 (codes "a||b"))
