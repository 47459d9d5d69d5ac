-- ===== src/Parser/JsDoc/Parser/Texts.antt =====
-- aoba/parser/jsdoc/jsdoc_parser.cc: names, lines and descriptions, up to the next block tag.
use aoba.Prelude.{ℕ, zero, suc, ◌+◌, ◌-◌, Bool, not, ◌||◌, List, take, ◌==◌}
use aoba.Ast.TokenKind.{codes}
use aoba.Parser.Utils.LexerUtils.{
  is_identifier_part, is_identifier_start, is_line_terminator, is_whitespace,
}
use aoba.Parser.Utils.Steps.{if◌then◌else◌, Step, ◌>>=◌, ◌>>◌, pure, exhausted, gets, modify}
use aoba.Parser.JsDoc.Tags.{
  expect_arguments_or_this, expect_lbrace, expect_name, expect_names, expect_rbrace, JsDocTree,
  JsDocTrees, text, name, empty, nil, push, push_back, is_empty, is_named,
}
use aoba.Parser.JsDoc.Parser.Actions.{
  JsDocParser, location, ahead, add_error_range, add_error, new_node, with_char, consume_char,
  if_char, skip, skip_whitespaces, scope, expect_closing,
}

-- A name over the node's range, of the characters that `test` accepts.
unfoldable pub read_name : (ℕ → Bool) → List ℕ → Step JsDocParser JsDocTree
read_name test before = do
  skip test
  new_node (λ start end. name start end (take (end - start) before))

-- `ParseName`.
unfoldable pub parse_name : Step JsDocParser JsDocTree
parse_name = skip_whitespaces >>= (λ skipped. scope (do
  before ← gets ahead
  named ← read_name is_identifier_part before
  is_missing ← gets (λ p. p.node_start == location p)
  if is_missing then (add_error expect_name >> new_node empty) else pure named))

-- `ParseTagName`, at the at sign.
unfoldable pub parse_tag_name : Step JsDocParser JsDocTree
parse_tag_name =
    scope (do before ← gets ahead; consumed ← consume_char; read_name is_identifier_part before)

-- `ParseNames`.
unfoldable pub names_loop : ℕ → JsDocTrees → Step JsDocParser JsDocTrees
names_loop zero names = exhausted
names_loop (suc k) names = with_char (pure names) (λ c.
    if not (is_identifier_start c) then (add_error expect_name >> pure names) else (do
      named ← parse_name
      skip_whitespaces
      if_char b',' (skip_whitespaces >>= (λ skipped. names_loop k (push_back names named)))
          (pure (push_back names named))))

unfoldable pub parse_names : ℕ → Step JsDocParser JsDocTrees
parse_names k = do
  skip_whitespaces
  names ← names_loop k nil
  (if is_empty names then add_error expect_names else pure tt)
  pure names

-- `ParseNameList`.
unfoldable pub parse_name_list : ℕ → Step JsDocParser JsDocTrees
parse_name_list k = skip_whitespaces >>= (λ skipped. scope (
    if_char b'{' (do names ← parse_names k; expect_closing; pure names)
      (do add_error expect_lbrace; missing ← new_node text; pure (push missing nil))))

-- `ParseModifies`.
unfoldable pub parse_modifies : Step JsDocParser JsDocTree
parse_modifies = do
  skip_whitespaces
  if_char b'{' (pure tt) (add_error expect_lbrace)
  named ← parse_name
  (if is_named (codes "arguments") named || is_named (codes "this") named
      then pure tt
      else add_error expect_arguments_or_this)
  skip_whitespaces
  expect_closing
  pure named

-- The end of the text that `ParseSingleLine` takes.
unfoldable pub single_line_loop : ℕ → ℕ → Step JsDocParser ℕ
single_line_loop zero text_end = exhausted
single_line_loop (suc k) text_end = with_char (pure text_end) (λ ahead. do
  c ← consume_char
  end ← gets location
  (if is_line_terminator c
      then pure text_end
      else if is_whitespace c
      then single_line_loop k text_end
      else single_line_loop k end))

-- `ParseSingleLine`.
unfoldable pub parse_single_line : ℕ → Step JsDocParser JsDocTree
parse_single_line k = do
  skip_whitespaces
  start ← gets location
  end ← single_line_loop k start
  pure (text start end)

-- The states of `SkipToBlockTag`. The C++ code goes round its loop to enter `Normal`, with the
-- same character ahead; here the round of `Normal` is run at once.
pub data BlockState : Type 0 where
  brace inline_tag normal whitespace : BlockState

abbrev pub report_inline_tag : BlockState → ℕ → Step JsDocParser (Unit {0})
report_inline_tag inline_tag start =
    modify (λ p. add_error_range start (location p) expect_rbrace p)
report_inline_tag state start = pure tt

-- A round in the state `Normal`, at the character `c`.
unfoldable pub normal_round :
    (BlockState → ℕ → ℕ → Step JsDocParser ℕ) → ℕ → ℕ → ℕ → Step JsDocParser ℕ
normal_round loop c text_end inline_tag_start = do
  start ← gets location
  consumed ← consume_char
  (if is_whitespace c
      then loop whitespace text_end inline_tag_start
      else if c == b'{'
      then loop brace (start + 1) start
      else loop normal (start + 1) inline_tag_start)

-- A round at the character `c`.
abbrev pub block_round :
    (BlockState → ℕ → ℕ → Step JsDocParser ℕ) → BlockState → ℕ → ℕ → ℕ → Step JsDocParser ℕ
block_round loop brace c text_end inline_tag_start =
    if c == b'@'
    then (consume_char >>= (λ consumed. loop inline_tag text_end inline_tag_start))
    else if c == b'{'
    then (consume_char >>= (λ consumed. loop brace text_end inline_tag_start))
    else normal_round loop c text_end inline_tag_start
block_round loop inline_tag c text_end inline_tag_start = do
  consumed ← consume_char
  end ← gets location
  (if c == b'}'
      then loop normal end inline_tag_start
      else loop inline_tag text_end inline_tag_start)
block_round loop normal c text_end inline_tag_start = normal_round loop c text_end inline_tag_start
block_round loop whitespace c text_end inline_tag_start =
    if is_whitespace c
    then (consume_char >>= (λ consumed. loop whitespace text_end inline_tag_start))
    else if c == b'@'
    then pure text_end
    else normal_round loop c text_end inline_tag_start

unfoldable pub block_loop : ℕ → BlockState → ℕ → ℕ → Step JsDocParser ℕ
block_loop zero state text_end inline_tag_start = exhausted
block_loop (suc k) state text_end inline_tag_start =
    with_char (report_inline_tag state inline_tag_start >> pure text_end)
      (λ c. block_round (block_loop k) state c text_end inline_tag_start)

-- `SkipToBlockTag`.
unfoldable pub skip_to_block_tag : ℕ → Step JsDocParser ℕ
skip_to_block_tag k = do skip_whitespaces; start ← gets location; block_loop k whitespace start 0

-- `ParseDescription`.
unfoldable pub parse_description : ℕ → Step JsDocParser JsDocTree
parse_description k = do
  skip_whitespaces
  start ← gets location
  let through = skip_to_block_tag k >>= (λ end. pure (text start end)) in
      with_char through (λ c.
        if is_line_terminator c
        then (consume_char >>= (λ consumed. pure (text start start)))
        else through)
