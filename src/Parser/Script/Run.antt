-- ===== src/Parser/Script/Run.antt =====
-- aoba/parser/parser.cc: `Run`, and the grammar tied together on fuel.
use aoba.Prelude.{
  ◌&&◌, ℕ, zero, suc, ◌+◌, Bool, true, false, ◌||◌, Option, some, none, List, length, min, max,
}
use aoba.Prelude
use aoba.Ast.TokenKind.{codes}
use aoba.Parser.Utils.BracketTracker.{finish}
use aoba.Parser.Utils.Steps.{
  if◌then◌else◌, Outcome, returned, Step, ◌>>=◌, ◌>>◌, pure, exhausted, gets, modify,
}
use aoba.Parser.JsDoc.Tags.{JsDocTree, JsDocTrees, is_named, document, tag}
use aoba.Parser.JsDoc.Parser
use aoba.Parser.JsDoc.Parser.Actions.{JsDocParser, start_js_doc_parser}
use aoba.Parser.Script.Words.{jsdoc_multiple_file_overviews}
use aoba.Parser.Script.Nodes.{
  ScriptToken, is_js_doc, JsTree, JsTrees, leaf, node, nil, push_back, externs, module_of,
}
use aoba.Parser.Script.Actions.{
  ScriptParser, with_token, consume_token, skip_comment_tokens, take_tracked,
}
use aoba.Parser.Script.Ranges.{add_range_error}
use aoba.Parser.Script.Calls.{
  Caller, Phrase, Nonterminal, phrase, statement, expression, assignment_expression,
  unary_expression, left_hand_side, new_expression, primary_expression, binding_element,
}
use aoba.Parser.Script.Bindings.{parse_binding_element}
use aoba.Parser.Script.Primary.{parse_primary_expression}
use aoba.Parser.Script.Expressions.{
  parse_new_expression, parse_left_hand_side, parse_unary_expression, parse_assignment_expression,
  parse_expression,
}
use aoba.Parser.Script.Statements.{parse_statement}

abbrev pub parse_phrase : ℕ → Caller → Phrase → Step ScriptParser JsTree
parse_phrase n call statement = parse_statement n call
parse_phrase n call expression = parse_expression n call
parse_phrase n call assignment_expression = parse_assignment_expression n call
parse_phrase n call unary_expression = parse_unary_expression n call
parse_phrase n call left_hand_side = parse_left_hand_side n call
parse_phrase n call new_expression = parse_new_expression n call
parse_phrase n call primary_expression = parse_primary_expression n call

abbrev pub parse_nonterminal : ℕ → Caller → Nonterminal → Step ScriptParser JsTree
parse_nonterminal n call (phrase x) = parse_phrase n call x
parse_nonterminal n call binding_element = parse_binding_element n call

-- The functions of the parser on fuel: a call behind a consumed token has one unit less.
unfoldable pub parse : ℕ → Caller
parse zero x = exhausted
parse (suc n) x = parse_nonterminal n (parse n) x

-- `element == ast::SyntaxCode::JsDocTag && element.child_at(0) == tag_id`.
abbrev is_tag : List ℕ → JsDocTree → Bool
is_tag word (tag start end tag_name parameters) = is_named word tag_name
is_tag word t = false

unfoldable pub any_tag : List ℕ → JsDocTrees → Bool
any_tag word JsDocTrees.nil = false
any_tag word (JsDocTrees.push t ts) = is_tag word t || any_tag word ts

abbrev has_tag_in : List ℕ → Outcome JsDocParser (Option JsDocTree) → Bool
has_tag_in word (returned (some (document start end nodes)) p) = any_tag word nodes
has_tag_in word outcome = false

-- `HasJsDocTag`, of the document that the lexer has made of the token's comment: the parser of
-- documents runs again on the same text, and a token that is a document is one where it returned.
unfoldable pub has_js_doc_tag : List ℕ → ScriptToken → Bool
has_js_doc_tag word token =
    has_tag_in word (Parser.parse (start_js_doc_parser token.start token.text))

abbrev pub report_overview : Option ScriptToken → ScriptToken → Step ScriptParser (Unit {0})
report_overview none found = pure tt
report_overview (some before) found =
    add_range_error (min before.start found.start, max before.end found.end)
      jsdoc_multiple_file_overviews

-- A document with `@fileoverview`.
unfoldable pub take_overview : Step ScriptParser JsTree
take_overview = do
  found ← consume_token
  before ← gets ScriptParser.file_overview
  report_overview before found
  modify (λ p. record p { file_overview = some found })
  pure (leaf found)

-- The loop of `Run`, on fuel for its rounds; `next` parses a statement.
unfoldable pub run_loop : ℕ → Step ScriptParser JsTree → JsTrees → Step ScriptParser JsTrees
run_loop zero next statements = exhausted
run_loop (suc k) next statements = with_token (pure statements) (λ token.
    if is_js_doc token && has_js_doc_tag (codes "@fileoverview") token
    then take_overview >>= (λ found. run_loop k next (push_back statements found))
    else next >>= (λ parsed. run_loop k next (push_back statements parsed)))

-- `Finish`.
unfoldable pub finish_brackets : Step ScriptParser (Unit {0})
finish_brackets = modify (λ p. take_tracked p (finish p.tracker))

abbrev root_of : Option ScriptToken → ℕ → JsTrees → JsTree
root_of none size statements = node module_of 0 size statements
root_of (some overview) size statements =
    Prelude.if◌then◌else◌ (has_js_doc_tag (codes "@externs") overview)
      (node externs 0 size statements) (node module_of 0 size statements)

-- `Run`, on fuel for the depth of the grammar and for the rounds of its loops.
unfoldable pub run_on : ℕ → Step ScriptParser JsTree
run_on n = do
  skip_comment_tokens
  statements ← run_loop n (parse n (phrase statement)) nil
  finish_brackets
  overview ← gets ScriptParser.file_overview
  size ← gets (λ p. length p.text)
  pure (root_of overview size statements)

-- `Run`, with fuel for each token that was put back and each character ahead.
unfoldable pub run : Step ScriptParser JsTree
run p = run_on (length p.stack + length p.buffer.lexer.reader.ahead + 2) p
