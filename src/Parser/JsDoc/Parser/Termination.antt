-- ===== src/Parser/JsDoc/Parser/Termination.antt =====
-- aoba/parser/jsdoc/jsdoc_parser.cc: the parser of documents ends.
use aoba.Prelude.{ℕ, zero, suc, ◌+◌, ◌≤◌, Bool, List, arith, ◌≡◌, refl}
use aoba.Parser.Utils.Steps
use aoba.Parser.Utils.Steps.{
  if◌then◌else◌, Outcome, returned, crashed, out_of_fuel, Step, ◌>>=◌, ◌>>◌, pure, exhausted, gets,
  modify, Ends,
}
use aoba.Parser.TypeSyntax.Lexer.{js_doc}
use aoba.Parser.TypeSyntax.Parser
use aoba.Parser.TypeSyntax.Parser.Nodes.{TypeTree}
use aoba.Parser.TypeSyntax.Parser.Actions.{TypeParser, start_type_parser}
use aoba.Parser.TypeSyntax.Parser.Termination.{parse-Returns}
use aoba.Parser.JsDoc.Tags.{
  TagSyntax, unknown, description, modifies, name_list, no_parameter, single_line, optional_type,
  type, type_description, type_names, type_parameter_description, JsDocTree, JsDocTrees,
}
use aoba.Parser.JsDoc.Parser.Actions.{JsDocParser, expect_closing}
use aoba.Parser.JsDoc.Parser.Texts.{
  read_name, parse_name, parse_tag_name, names_loop, parse_names, parse_name_list, parse_modifies,
  single_line_loop, parse_single_line, BlockState, report_inline_tag, normal_round, block_round,
  block_loop, skip_to_block_tag, parse_description, brace, inline_tag, normal, whitespace,
}
use aoba.Parser.JsDoc.Parser.{
  braces_loop, take_type, run_type_parser, parse_type, optional_type_parameters, parse_parameters,
  parse_tag, parse_block_tag, document_loop, parse_document, parse,
}
use aoba.Parser.JsDoc.Parser.Rules.{
  remaining, Still, Calm, CalmAhead, Moves, js_doc_rules, scope-Moves, scope-Calm,
}

expect_closing-Calm : (n : ℕ) → Calm n expect_closing
expect_closing-Calm zero = record { ends = λ s b le lt. absurd (omega arith) }
expect_closing-Calm (suc n) = search js_doc_rules depth 12 fits 4000

read_name-Calm : (n : ℕ) (test : ℕ → Bool) (before : List ℕ) → Calm n (read_name test before)
unfolding read_name
read_name-Calm n test before = search js_doc_rules depth 12 fits 4000

parse_name-Calm : (n : ℕ) → Calm n parse_name
unfolding parse_name
parse_name-Calm n = search (js_doc_rules, read_name-Calm, scope-Calm) depth 12 fits 4000

parse_tag_name-Moves : (n : ℕ) → Moves n parse_tag_name
unfolding parse_tag_name
parse_tag_name-Moves n = search (js_doc_rules, read_name-Calm, scope-Moves) depth 12 fits 4000

names_loop-Calm : (k : ℕ) (names : JsDocTrees) → Calm k (names_loop k names)
unfolding names_loop
names_loop-Calm zero names = Steps.exhausted-Calm remaining
names_loop-Calm (suc k) names =
    search (js_doc_rules, parse_name-Calm, names_loop-Calm k) depth 12 fits 4000

parse_names-Calm : (k : ℕ) → Calm k (parse_names k)
unfolding parse_names
parse_names-Calm k = search (js_doc_rules, names_loop-Calm) depth 12 fits 4000

parse_name_list-Calm : (k : ℕ) → Calm k (parse_name_list k)
unfolding parse_name_list
parse_name_list-Calm zero = record { ends = λ s b le lt. absurd (omega arith) }
parse_name_list-Calm (suc k) =
    search (js_doc_rules, scope-Calm, Steps.Calm-pred, parse_names-Calm, expect_closing-Calm) depth
      12 fits 4000

parse_modifies-Calm : (n : ℕ) → Calm n parse_modifies
unfolding parse_modifies
parse_modifies-Calm zero = record { ends = λ s b le lt. absurd (omega arith) }
parse_modifies-Calm (suc n) =
    search (js_doc_rules, parse_name-Calm, expect_closing-Calm) depth 12 fits 4000

single_line_loop-Calm : (k end : ℕ) → Calm k (single_line_loop k end)
unfolding single_line_loop
single_line_loop-Calm zero end = Steps.exhausted-Calm remaining
single_line_loop-Calm (suc k) end =
    search (js_doc_rules, single_line_loop-Calm k) depth 12 fits 4000

parse_single_line-Calm : (k : ℕ) → Calm k (parse_single_line k)
unfolding parse_single_line
parse_single_line-Calm k = search (js_doc_rules, single_line_loop-Calm) depth 12 fits 4000

report_inline_tag-Still : (state : BlockState) (start : ℕ) → Still (report_inline_tag state start)
unfolding modify
report_inline_tag-Still inline_tag start = record { keeps = λ s. refl }
report_inline_tag-Still brace start = search js_doc_rules
report_inline_tag-Still normal start = search js_doc_rules
report_inline_tag-Still whitespace start = search js_doc_rules

module _ (k : ℕ) (loop : BlockState → ℕ → ℕ → Step JsDocParser ℕ)
    (h : (state : BlockState) (a b : ℕ) → Calm k (loop state a b)) where
  normal_round-CalmAhead : (c a b : ℕ) → CalmAhead (suc k) (normal_round loop c a b)
  unfolding normal_round
  normal_round-CalmAhead c a b = search (js_doc_rules, h) depth 12 fits 4000

  block_round-CalmAhead :
      (state : BlockState) (c a b : ℕ) → CalmAhead (suc k) (block_round loop state c a b)
  block_round-CalmAhead brace c a b =
      search (js_doc_rules, h, normal_round-CalmAhead) depth 12 fits 4000
  block_round-CalmAhead inline_tag c a b = search (js_doc_rules, h) depth 12 fits 4000
  block_round-CalmAhead normal c a b = normal_round-CalmAhead c a b
  block_round-CalmAhead whitespace c a b =
      search (js_doc_rules, h, normal_round-CalmAhead) depth 12 fits 4000

block_loop-Calm : (k : ℕ) (state : BlockState) (a b : ℕ) → Calm k (block_loop k state a b)
unfolding block_loop
block_loop-Calm zero state a b = Steps.exhausted-Calm remaining
block_loop-Calm (suc k) state a b =
    search (js_doc_rules, report_inline_tag-Still, block_round-CalmAhead, block_loop-Calm k) depth
      12 fits 4000

skip_to_block_tag-Calm : (k : ℕ) → Calm k (skip_to_block_tag k)
unfolding skip_to_block_tag
skip_to_block_tag-Calm k = search (js_doc_rules, block_loop-Calm) depth 12 fits 4000

parse_description-Calm : (k : ℕ) → Calm k (parse_description k)
unfolding parse_description
parse_description-Calm k = search (js_doc_rules, skip_to_block_tag-Calm) depth 12 fits 4000

braces_loop-Calm : (k n : ℕ) → Calm k (braces_loop k n)
unfolding braces_loop
braces_loop-Calm zero n = Steps.exhausted-Calm remaining
braces_loop-Calm (suc k) n = search (js_doc_rules, braces_loop-Calm k) depth 12 fits 4000

take_type-Ends :
    (p : JsDocParser) (P : TypeTree → TypeParser → Type 0) (o : Outcome TypeParser TypeTree)
    → Ends P o
    → Ends (λ a q. remaining q ≡ remaining p) (take_type p o)
take_type-Ends p P (returned t q) h = refl
take_type-Ends p P crashed h = tt
take_type-Ends p P out_of_fuel h = absurd h

run_type_parser-Still : (start : ℕ) (source : List ℕ) → Still (run_type_parser start source)
unfolding run_type_parser
run_type_parser-Still start source = record {
  keeps = λ s.
      take_type-Ends s _ (Parser.parse (start_type_parser js_doc start source))
        (parse-Returns (start_type_parser js_doc start source));
}

braces_loop_pred-Calm : (k n : ℕ) → Calm k (braces_loop (suc k) n)
braces_loop_pred-Calm k n = Steps.Calm-pred remaining k _ (braces_loop-Calm (suc k) n)

parse_type-Calm : (k : ℕ) → Calm k (parse_type k)
unfolding parse_type
parse_type-Calm zero = record { ends = λ s b le lt. absurd (omega arith) }
parse_type-Calm (suc k) =
    search
      (js_doc_rules, scope-Calm, braces_loop_pred-Calm, run_type_parser-Still, expect_closing-Calm)
      depth 14 fits 4000

optional_type_parameters-Calm : (k : ℕ) → Calm k (optional_type_parameters k)
unfolding optional_type_parameters
optional_type_parameters-Calm k = search (js_doc_rules, parse_type-Calm) depth 12 fits 4000

parse_parameters-Calm :
    (k : ℕ) (syntax : TagSyntax) (name : JsDocTree) → Calm k (parse_parameters k syntax name)
parse_parameters-Calm k unknown t = search js_doc_rules depth 12 fits 4000
parse_parameters-Calm k description t =
    search (js_doc_rules, parse_description-Calm) depth 12 fits 4000
parse_parameters-Calm k modifies t = search (js_doc_rules, parse_modifies-Calm) depth 12 fits 4000
parse_parameters-Calm k name_list t = parse_name_list-Calm k
parse_parameters-Calm k no_parameter t = search js_doc_rules depth 12 fits 4000
parse_parameters-Calm k single_line t =
    search (js_doc_rules, parse_single_line-Calm) depth 12 fits 4000
parse_parameters-Calm k optional_type t =
    search (js_doc_rules, optional_type_parameters-Calm) depth 12 fits 4000
parse_parameters-Calm k type t = search (js_doc_rules, parse_type-Calm) depth 12 fits 4000
parse_parameters-Calm k type_description t =
    search (js_doc_rules, parse_type-Calm, parse_description-Calm) depth 12 fits 4000
parse_parameters-Calm k type_names t = search (js_doc_rules, parse_names-Calm) depth 12 fits 4000
parse_parameters-Calm k type_parameter_description t =
    search (js_doc_rules, parse_type-Calm, parse_name-Calm, parse_description-Calm) depth 12 fits
      4000

parse_tag-Calm : (k : ℕ) (name : JsDocTree) → Calm k (parse_tag k name)
unfolding parse_tag
parse_tag-Calm k t = search (js_doc_rules, parse_parameters-Calm) depth 12 fits 4000

parse_block_tag-Moves : (k : ℕ) → Moves k (parse_block_tag k)
unfolding parse_block_tag
parse_block_tag-Moves k =
    search (js_doc_rules, scope-Moves, parse_tag_name-Moves, parse_tag-Calm) depth 12 fits 4000

document_loop-Calm :
    (k : ℕ) (nodes : JsDocTrees) (n start : ℕ) → Calm k (document_loop k nodes n start)
unfolding document_loop
document_loop-Calm zero nodes n start = Steps.exhausted-Calm remaining
document_loop-Calm (suc k) nodes n start =
    search (js_doc_rules, skip_to_block_tag-Calm, parse_block_tag-Moves, document_loop-Calm k) depth
      14 fits 4000

parse_document-Calm : (k : ℕ) → Calm k (parse_document k)
unfolding parse_document
parse_document-Calm k = search (js_doc_rules, scope-Calm, document_loop-Calm) depth 12 fits 4000

-- `Parse` of a comment ends from any state, within the fuel of the text that is ahead: it returns
-- with no more text left than there was, or reads a token or a character that is not there.
pub parse-EndsWithin : (p : JsDocParser) → Ends (λ document q. remaining q ≤ remaining p) (parse p)
unfolding parse
parse-EndsWithin p =
    (parse_document-Calm (remaining p + 1)).ends p (remaining p) (omega arith) (omega arith)
