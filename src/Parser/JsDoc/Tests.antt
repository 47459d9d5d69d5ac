-- ===== src/Parser/JsDoc/Tests.antt =====
-- Runs of the parser of JSDoc comments, and its theorem at a concrete input.
use aoba.Prelude.{false, ◌≤◌, arith}
use aoba.Ast.TokenKind.{codes}
use aoba.Parser.Utils.Steps.{Ends, Succeeds}
use aoba.Parser.JsDoc.Parser.{parse}
use aoba.Parser.JsDoc.Parser.Actions.{JsDocParser, start_js_doc_parser}
use aoba.Parser.JsDoc.Parser.Rules.{remaining}
use aoba.Parser.Utils.CharacterReader.{skip_while}
use aoba.Parser.JsDoc.Parser.Texts.{skip_to_block_tag}
use aoba.Parser.JsDoc.Parser.Blocks.{
  StopsAtTag, from_block_tag, is_blank, skip_to_block_tag-StopsAtTag,
}
use aoba.Parser.JsDoc.Parser.Termination.{parse-EndsWithin}

abbrev comment : JsDocParser
comment =
    start_js_doc_parser 0
      (codes "/** text {@link x}\n * @param {?A|B} first one\n * @return {C\n */")

parse-EndsWithin_example : Ends (λ document q. remaining q ≤ remaining comment) (parse comment)
parse-EndsWithin_example = parse-EndsWithin comment

skip_to_block_tag-StopsAtTag_example :
    Succeeds
      (StopsAtTag 0 (from_block_tag b' ' false (skip_while is_blank comment.reader).ahead))
      (skip_to_block_tag 90 comment)
skip_to_block_tag-StopsAtTag_example = skip_to_block_tag-StopsAtTag 90 comment (omega arith)
