-- ===== src/Parser/JsDoc/Parser.antt =====
-- aoba/parser/jsdoc/jsdoc_parser.{h,cc}: the documents of JSDoc comments. A function is a step on
-- the parser's state; a number is the fuel of the loops in it. Actions has the state with its
-- helpers, Texts the names and descriptions, this file the types, the tags and the document.
pub mod Actions
pub mod Texts
pub mod Rules
pub mod Termination
pub mod Blocks
use aoba.Prelude.{
  ℕ, zero, suc, ◌+◌, ◌-◌, Bool, true, false, not, ◌&&◌, ◌||◌, Option, some, none, List, [], ◌∷◌,
  ◌++◌, length, take, ltb, ◌==◌,
}
use aoba.Prelude
use aoba.Ast.TokenKind.{codes}
use aoba.Parser.Utils.CharacterReader.{Reader, move_forward, skip_while, start_reader}
use aoba.Parser.Utils.LexerUtils.{
  is_identifier_part, is_identifier_start, is_line_terminator, is_whitespace,
}
use aoba.Parser.Utils.BracketTracker.{BracketError}
use aoba.Parser.Utils.Steps.{
  if◌then◌else◌, Outcome, returned, crashed, out_of_fuel, Step, ◌>>=◌, ◌>>◌, pure, exhausted, gets,
  modify,
}
use aoba.Parser.TypeSyntax.Lexer.{js_doc}
use aoba.Parser.TypeSyntax.Parser.Nodes.{TypeTree}
use aoba.Parser.TypeSyntax.Parser.Actions.{TypeParser, start_type_parser}
use aoba.Parser.TypeSyntax.Parser
use aoba.Parser.JsDoc.Tags.{
  TagSyntax, unknown, description, modifies, name_list, no_parameter, single_line, optional_type,
  type, type_description, type_names, type_parameter_description, tag_syntax_of, JsDocErrorCode,
  expect_arguments_or_this, expect_lbrace, expect_name, expect_names, expect_rbrace, unknown_tag,
  error_number, JsDocTree, JsDocTrees, document, tag, text, name, empty, annotation, nil, push,
  push_back, is_empty, is_named, new_type_names, new_reference,
}
use aoba.Parser.JsDoc.Parser.Actions.{
  JsDocParser, start_js_doc_parser, location, ahead, add_error_range, add_error, new_node,
  with_head, with_char, consume_head, consume_char, if_char, skip, skip_whitespaces, set_node_start,
  scope, expect_closing,
}
use aoba.Parser.JsDoc.Parser.Texts.{
  read_name, parse_name, parse_tag_name, names_loop, parse_names, parse_name_list, parse_modifies,
  single_line_loop, parse_single_line, BlockState, report_inline_tag, normal_round, block_round,
  block_loop, skip_to_block_tag, parse_description, brace, inline_tag, normal, whitespace,
}

-- The braces of `ParseType`.
unfoldable pub braces_loop : ℕ → ℕ → Step JsDocParser (Unit {0})
braces_loop zero number_of_braces = exhausted
braces_loop (suc k) number_of_braces = with_char (pure tt) (λ c.
    if c == b'{'
    then (consume_char >>= (λ consumed. braces_loop k (number_of_braces + 1)))
    else if c == b'}'
    then (if number_of_braces == 0
        then pure tt
        else (consume_char >>= (λ consumed. braces_loop k (number_of_braces - 1))))
    else (consume_char >>= (λ consumed. braces_loop k number_of_braces)))

abbrev pub take_type : JsDocParser → Outcome TypeParser TypeTree → Outcome JsDocParser TypeTree
take_type p (returned parsed q) = returned parsed (record p { errors = p.errors ++ q.errors })
take_type p crashed = crashed
take_type p out_of_fuel = out_of_fuel

-- The type parser over a text that begins at `start`.
unfoldable pub run_type_parser : ℕ → List ℕ → Step JsDocParser TypeTree
run_type_parser start source p = take_type p (Parser.parse (start_type_parser js_doc start source))

-- `ParseType`.
unfoldable pub parse_type : ℕ → Step JsDocParser JsDocTree
parse_type k = skip_whitespaces >>= (λ skipped. scope (
    if_char b'{'
      (do
        start ← gets location
        before ← gets ahead
        braces_loop k 0
        end ← gets location
        parsed ← run_type_parser start (take (end - start) before)
        expect_closing
        pure (annotation parsed))
      (add_error expect_lbrace >> new_node text)))

abbrev pub one : JsDocTree → JsDocTrees
one t = push t nil

-- `CanPeekChar() && PeekChar() == kLeftBrace` of `ParseTag`.
unfoldable pub optional_type_parameters : ℕ → Step JsDocParser JsDocTrees
optional_type_parameters k =
    with_char (pure nil)
      (λ c. if c == b'{' then (parse_type k >>= (λ parsed. pure (one parsed))) else pure nil)

abbrev pub range_of : JsDocTree → ℕ × ℕ
range_of (name start end spelled) = (start, end)
range_of tree = (0, 0)

abbrev pub text_of : JsDocTree → List ℕ
text_of (name start end spelled) = spelled
text_of tree = []

-- The parameters of a tag by its syntax.
abbrev pub parse_parameters : ℕ → TagSyntax → JsDocTree → Step JsDocParser JsDocTrees
parse_parameters k unknown tag_name =
    modify (add_error_range (range_of tag_name).0 (range_of tag_name).1 unknown_tag) >> pure nil
parse_parameters k description tag_name = do
  skip_whitespaces
  described ← parse_description k
  pure (one described)
parse_parameters k modifies tag_name = parse_modifies >>= (λ named. pure (one named))
parse_parameters k name_list tag_name = parse_name_list k
parse_parameters k no_parameter tag_name = pure nil
parse_parameters k single_line tag_name = parse_single_line k >>= (λ line. pure (one line))
parse_parameters k optional_type tag_name =
    skip_whitespaces >>= (λ skipped. optional_type_parameters k)
parse_parameters k type tag_name = parse_type k >>= (λ parsed. pure (one parsed))
parse_parameters k type_description tag_name = do
  parsed ← parse_type k
  described ← parse_description k
  pure (push parsed (one described))
parse_parameters k type_names tag_name = parse_names k >>= (λ names. pure (new_type_names names))
parse_parameters k type_parameter_description tag_name = do
  parsed ← parse_type k
  named ← parse_name
  described ← parse_description k
  pure (push parsed (push (new_reference named) (one described)))

-- `ParseTag`.
unfoldable pub parse_tag : ℕ → JsDocTree → Step JsDocParser JsDocTree
parse_tag k tag_name = do
  parameters ← parse_parameters k (tag_syntax_of (text_of tag_name)) tag_name
  new_node (λ start end. tag start end tag_name parameters)

abbrev pub add_text : ℕ → ℕ → JsDocTrees → JsDocTrees
add_text start end nodes =
    Prelude.if◌then◌else◌ (ltb start end) (push_back nodes (text start end)) nodes

-- The tag ahead, and the white space behind it.
unfoldable pub parse_block_tag : ℕ → Step JsDocParser JsDocTree
parse_block_tag k =
    scope
      (do tag_name ← parse_tag_name; parsed ← parse_tag k tag_name; skip_whitespaces; pure parsed)

-- The nodes of `Parse`, and the number of tags.
unfoldable pub document_loop : ℕ → JsDocTrees → ℕ → ℕ → Step JsDocParser (JsDocTrees × ℕ)
document_loop zero nodes number_of_tags text_start = exhausted
document_loop (suc k) nodes number_of_tags text_start =
    with_char (pure (nodes, number_of_tags)) (λ c. do
      text_end ← skip_to_block_tag (suc k)
      with_char (pure (add_text text_start text_end nodes, number_of_tags)) (λ at_sign. do
        parsed ← parse_block_tag (suc k)
        start ← gets location
        document_loop k (push_back (add_text text_start text_end nodes) parsed) (number_of_tags + 1)
            start))

-- `Parse`, with fuel for each character of the range.
unfoldable pub parse_document : ℕ → Step JsDocParser (Option JsDocTree)
parse_document k = scope (do
  skip_whitespaces
  start ← gets location
  result ← document_loop k nil 0 start
  (if result.1 == 0
      then pure none
      else (new_node (λ start end. document start end result.0) >>= (λ node. pure (some node)))))

unfoldable pub parse : Step JsDocParser (Option JsDocTree)
parse p = parse_document (length (ahead p) + 1) p
