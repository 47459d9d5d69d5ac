-- ===== src/Parser/JsDoc/Parser/Actions.antt =====
-- The state of aoba/parser/jsdoc/jsdoc_parser.cc, and its helpers.
use aoba.Prelude.{ℕ, Bool, not, ◌&&◌, List, [], ◌∷◌, ◌++◌, ◌==◌}
use aoba.Parser.Utils.CharacterReader.{Reader, move_forward, skip_while, start_reader}
use aoba.Parser.Utils.LexerUtils.{is_line_terminator, is_whitespace}
use aoba.Parser.Utils.BracketTracker.{BracketError}
use aoba.Parser.Utils.Steps.{
  if◌then◌else◌, returned, crashed, Step, ◌>>=◌, ◌>>◌, pure, gets, modify,
}
use aoba.Parser.JsDoc.Tags.{JsDocErrorCode, expect_rbrace, error_number, JsDocTree}

-- `errors` is the error sink, which the type parser shares.
pub record JsDocParser : Type 0 where
  pub reader : Reader
  pub node_start : ℕ
  pub errors : List BracketError

-- The parser of a range.
abbrev pub start_js_doc_parser : ℕ → List ℕ → JsDocParser
start_js_doc_parser start source = record {
  reader = start_reader start source;
  node_start = start;
  errors = [];
}

abbrev pub location : JsDocParser → ℕ
location p = p.reader.location

abbrev pub ahead : JsDocParser → List ℕ
ahead p = p.reader.ahead

abbrev pub add_error_range : ℕ → ℕ → JsDocErrorCode → JsDocParser → JsDocParser
add_error_range start end code p = record p {
  errors = p.errors ++ (record { start = start; end = end; code = error_number code } ∷ []);
}

-- `AddError(error_code)`, over `ComputeNodeRange()`.
unfoldable pub add_error : JsDocErrorCode → Step JsDocParser (Unit {0})
add_error code = modify (λ p. add_error_range p.node_start (location p) code p)

-- A node over `ComputeNodeRange()`.
unfoldable pub new_node : (ℕ → ℕ → JsDocTree) → Step JsDocParser JsDocTree
new_node make = gets (λ p. make p.node_start (location p))

abbrev pub with_head :
    {A : Type 0} → List ℕ → Step JsDocParser A → (ℕ → Step JsDocParser A) → Step JsDocParser A
with_head [] absent present = absent
with_head (c ∷ cs) absent present = present c

-- `if (!CanPeekChar()) absent else present(PeekChar())`.
unfoldable pub with_char :
    {A : Type 0} → Step JsDocParser A → (ℕ → Step JsDocParser A) → Step JsDocParser A
with_char absent present p = with_head (ahead p) absent present p

abbrev pub consume_head : List ℕ → Step JsDocParser ℕ
consume_head [] p = crashed
consume_head (c ∷ cs) p = returned c (record p { reader = move_forward p.reader })

-- `ConsumeChar`.
unfoldable pub consume_char : Step JsDocParser ℕ
consume_char p = consume_head (ahead p) p

-- `if (ConsumeCharIf(char_code)) found else other`.
unfoldable pub if_char :
    {A : Type 0} → ℕ → Step JsDocParser A → Step JsDocParser A → Step JsDocParser A
if_char char_code found other =
    with_char other (λ c. if c == char_code then (consume_char >>= (λ consumed. found)) else other)

-- `while (CanPeekChar() && p(PeekChar())) ConsumeChar();`
unfoldable pub skip : (ℕ → Bool) → Step JsDocParser (Unit {0})
skip test = modify (λ p. record p { reader = skip_while test p.reader })

-- `SkipWhitespaces`.
unfoldable pub skip_whitespaces : Step JsDocParser (Unit {0})
skip_whitespaces = skip (λ c. is_whitespace c && not (is_line_terminator c))

unfoldable pub set_node_start : ℕ → Step JsDocParser (Unit {0})
set_node_start start = modify (λ p. record p { node_start = start })

-- `NodeRangeScope`: `node_start_` while `body` runs.
unfoldable pub scope : {A : Type 0} → Step JsDocParser A → Step JsDocParser A
scope body = do
  node_start ← gets JsDocParser.node_start
  start ← gets location
  set_node_start start
  result ← body
  set_node_start node_start
  pure result

abbrev pub expect_closing : Step JsDocParser (Unit {0})
expect_closing = if_char b'}' (pure tt) (add_error expect_rbrace)
