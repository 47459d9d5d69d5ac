-- ===== src/Parser/Script/Ranges.antt =====
-- The ranges and the errors of aoba/parser/parser.cc.
pub mod Semicolons
use aoba.Prelude.{
  ℕ, zero, suc, Bool, not, ◌&&◌, ◌||◌, Option, some, none, List, [], ◌∷◌, ◌++◌, length, leb, ◌==◌,
}
use aoba.Ast.TokenKind.{TokenKind, semicolon, right_brace}
use aoba.Parser.Utils.Steps.{if◌then◌else◌, Step, ◌>>=◌, ◌>>◌, pure, crash, gets, modify}
use aoba.Parser.Script.Words.{ErrorCode, error_number, statement_expect_semicolon}
use aoba.Parser.Script.Nodes
use aoba.Parser.Script.Nodes.{
  ScriptToken, has_kind, Syntax, JsTree, JsTrees, leaf, node, nil, empty_name, elision_expression,
  invalid, invalid_statement, elision_behind, empty_statement,
}
use aoba.Parser.Script.Actions.{ScriptParser, with_token, consume_token, if_kind, peeked}

-- What is there, and else a crash.
abbrev pub expect : {A : Type 0} → Option A → Step ScriptParser A
expect none = crash
expect (some a) = pure a

-- A failed DCHECK crashes.
unfoldable pub check : Bool → Step ScriptParser (Unit {0})
check found = if found then pure tt else crash

-- `source_code().Slice(start, end)`, with the DCHECKs of the range.
unfoldable pub slice : ℕ → ℕ → Step ScriptParser (ℕ × ℕ)
slice start end = do
  size ← gets (λ p. length p.text)
  check (leb start end && leb end size)
  pure (start, end)

-- `AddError(range, error_code)`: only the end of the source code may be an empty range.
unfoldable pub add_range_error : ℕ × ℕ → ErrorCode → Step ScriptParser (Unit {0})
add_range_error (start, end) code = do
  size ← gets (λ p. length p.text)
  check (not (start == end) || (start == size && end == size))
  modify (λ p. record p {
    errors = p.errors ++ (record { start = start; end = end; code = error_number code } ∷ []);
  })

-- `AddError(token, error_code)`.
unfoldable pub add_token_error : ScriptToken → ErrorCode → Step ScriptParser (Unit {0})
add_token_error token code = add_range_error (token.start, token.end) code

-- `source_code().end()`.
unfoldable pub source_end : Step ScriptParser (ℕ × ℕ)
source_end = gets (λ p. (length p.text, length p.text))

-- `AddError(error_code)`: at the token ahead, or at the end.
unfoldable pub add_error : ErrorCode → Step ScriptParser (Unit {0})
add_error code =
    with_token (source_end >>= (λ end. add_range_error end code))
      (λ token. add_token_error token code)

-- `last_token_`, where it is dereferenced.
unfoldable pub last_token : Step ScriptParser ScriptToken
last_token = gets ScriptParser.last_token >>= expect

-- `GetSourceCodeRange`.
unfoldable pub source_code_range : Step ScriptParser (ℕ × ℕ)
source_code_range = do last ← last_token; start ← gets ScriptParser.node_start; slice start last.end

-- A node over `GetSourceCodeRange()`.
unfoldable pub new_node : Syntax → JsTrees → Step ScriptParser JsTree
new_node syntax children = do range ← source_code_range; pure (node syntax range.0 range.1 children)

-- `NewEmptyName`.
unfoldable pub new_empty_name : Step ScriptParser JsTree
new_empty_name = do
  location ← gets (λ p. p.buffer.lexer.reader.location)
  pure (node empty_name location location nil)

-- `NewElisionExpression()`.
unfoldable pub new_elision_expression : Step ScriptParser JsTree
new_elision_expression = do last ← last_token; pure (elision_behind (leaf last))

-- `NewInvalidExpression(range, error_code)`.
unfoldable pub new_invalid_at : ℕ × ℕ → ErrorCode → Step ScriptParser JsTree
new_invalid_at range code = do
  add_range_error range code
  pure (node (invalid code) range.0 range.1 nil)

-- `NewInvalidExpression(error_code)`.
unfoldable pub new_invalid_expression : ErrorCode → Step ScriptParser JsTree
new_invalid_expression code =
    with_token (source_end >>= (λ end. new_invalid_at end code))
      (λ token. new_invalid_at (token.start, token.end) code)

-- `NewInvalidStatement`.
unfoldable pub new_invalid_statement : ErrorCode → Step ScriptParser JsTree
new_invalid_statement code = do
  range ← source_code_range
  add_range_error range code
  pure (node (invalid_statement code) range.0 range.1 nil)

unfoldable pub set_node_start : ℕ → Step ScriptParser (Unit {0})
set_node_start start = modify (λ p. record p { node_start = start })

abbrev start_of : Option ScriptToken → ℕ → ℕ
start_of none end = end
start_of (some token) end = token.start

-- `NodeRangeScope`: `node_start_` while `body` runs.
unfoldable pub scope : {A : Type 0} → Step ScriptParser A → Step ScriptParser A
scope body = do
  node_start ← gets ScriptParser.node_start
  start ← gets (λ p. start_of (peeked p) (length p.text))
  set_node_start start
  result ← body
  set_node_start node_start
  pure result

abbrev pub nth : ℕ → List ScriptToken → Option ScriptToken
nth n [] = none
nth zero (token ∷ tokens) = some token
nth (suc n) (token ∷ tokens) = nth n tokens

-- The error of `ExpectPunctuator`, up to the end of a token before.
unfoldable pub report_missing : ℕ → ErrorCode → Step ScriptParser (Unit {0})
report_missing back code = do
  tokens ← gets ScriptParser.tokens
  token ← expect (nth back tokens)
  start ← gets ScriptParser.node_start
  range ← slice start token.end
  add_range_error range code

-- `ConsumeTokenIf(kind)`, whose result is not read.
unfoldable pub skip_kind : TokenKind → Step ScriptParser (Unit {0})
skip_kind kind = if_kind kind (pure tt) (pure tt)

-- `ExpectPunctuator`.
unfoldable pub expect_punctuator : TokenKind → ErrorCode → Step ScriptParser (Unit {0})
expect_punctuator kind code =
    if_kind kind (pure tt) (with_token (report_missing 0 code) (λ token. report_missing 1 code))

-- `ExpectSemicolon`.
unfoldable pub expect_semicolon : Step ScriptParser (Unit {0})
expect_semicolon = do
  disabled ← gets ScriptParser.disable_automatic_semicolon
  newline ← gets ScriptParser.is_separated_by_newline
  (if disabled
      then expect_punctuator semicolon statement_expect_semicolon
      else with_token (pure tt) (λ token.
        if has_kind semicolon token
        then consume_token >>= (λ consumed. pure tt)
        else if has_kind right_brace token
        then pure tt
        else if newline
        then pure tt
        else expect_punctuator semicolon statement_expect_semicolon))

-- `if (options_.disable_automatic_semicolon()) AddError(error_code)`.
unfoldable pub report_newline : ErrorCode → Step ScriptParser (Unit {0})
report_newline code = do
  disabled ← gets ScriptParser.disable_automatic_semicolon
  (if disabled then add_error code else pure tt)

-- `CanPeekToken() && PeekToken() == ast::SyntaxCode::Name ? ConsumeToken() : NewEmptyName()`.
unfoldable pub optional_name : Step ScriptParser JsTree
optional_name = with_token new_empty_name (λ token.
    if Nodes.is_name token then consume_token >>= (λ name. pure (leaf name)) else new_empty_name)
