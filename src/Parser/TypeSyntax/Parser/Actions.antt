-- ===== src/Parser/TypeSyntax/Parser/Actions.antt =====
-- The state of aoba/parser/type/type_parser.cc, and its helpers.
use aoba.Prelude.{
  ℕ, ◌+◌, ◌-◌, Bool, true, false, ◌&&◌, ◌||◌, Option, some, none, List, [], ◌∷◌, ◌++◌, length, take,
  drop, ◌==◌,
}
use aoba.Ast.TokenKind.{
  TokenKind, kind_index, left_parenthesis, right_parenthesis, left_brace, right_brace, left_bracket,
  right_bracket, less_than, greater_than, question, times,
}
use aoba.Parser.Utils.BracketTracker.{BracketTracker, BracketError, Description, Node, feed, finish}
use aoba.Parser.Utils.Steps.{
  if◌then◌else◌, crashed, returned, Step, ◌>>=◌, ◌>>◌, pure, crash, gets, modify,
}
use aoba.Parser.TypeSyntax.Lexer.{
  TypeLexer, TypeToken, TypeNode, UnexpectDot, TypeLexerMode, start_type_lexer, next_token, name,
  punctuator,
}
use aoba.Parser.TypeSyntax.Parser.Nodes.{TypeTree}

-- `FOR_EACH_TYPE_ERROR_CODE`.
pub data TypeErrorCode : Type 0 where
  expect_colon expect_comma expect_lbrace expect_rangle expect_rbrace : TypeErrorCode
  expect_rbracket expect_rparen expect_type unexpect_dot unexpect_rangle : TypeErrorCode
  unexpect_rbrace unexpect_rbracket unexpect_rparen unexpect_token : TypeErrorCode

-- `static_cast<int>(error_code)`, from `kTypeErrorCodeBase`.
abbrev pub error_number : TypeErrorCode → ℕ
error_number expect_colon = 13000 + 1
error_number expect_comma = 13000 + 2
error_number expect_lbrace = 13000 + 3
error_number expect_rangle = 13000 + 4
error_number expect_rbrace = 13000 + 5
error_number expect_rbracket = 13000 + 6
error_number expect_rparen = 13000 + 7
error_number expect_type = 13000 + 8
error_number unexpect_dot = 13000 + 9
error_number unexpect_rangle = 13000 + 10
error_number unexpect_rbrace = 13000 + 11
error_number unexpect_rbracket = 13000 + 12
error_number unexpect_rparen = 13000 + 13
error_number unexpect_token = 13000 + 14

abbrev describe : TokenKind → TypeErrorCode → TokenKind → TypeErrorCode → Description
describe opening opening_code closing closing_code = record {
  open_kind = opening;
  open_error = error_number opening_code;
  close_kind = closing;
  close_error = error_number closing_code;
}

-- `NewBracketTracker`.
unfoldable pub type_brackets : List Description
type_brackets =
    describe left_parenthesis expect_rparen right_parenthesis unexpect_rparen
    ∷ describe left_brace expect_rbrace right_brace unexpect_rbrace
    ∷ describe left_bracket expect_rbracket right_bracket unexpect_rbracket
    ∷ describe less_than expect_rangle greater_than unexpect_rangle
    ∷ []

-- `current` is the lexer's `current_token_`. `errors` is the sink that the lexer and the tracker
-- share with the parser: their own lists are emptied into it. `text` is the text of the range, in
-- which a name is compared with the words that the name table knows.
pub record TypeParser : Type 0 where
  pub lexer : TypeLexer
  pub current : Option TypeToken
  pub tracker : BracketTracker
  pub node_start : ℕ
  pub range_start : ℕ
  pub range_end : ℕ
  pub text : List ℕ
  pub errors : List BracketError

abbrev dot_errors : List UnexpectDot → List BracketError
dot_errors [] = []
dot_errors (e ∷ es) =
    record { start = e.start; end = e.end; code = error_number unexpect_dot } ∷ dot_errors es

abbrev pub take_lexed : TypeParser → Option TypeToken × TypeLexer → TypeParser
take_lexed p (token, l) = record p {
  lexer = record l { errors = [] };
  current = token;
  errors = p.errors ++ dot_errors l.errors;
}

-- `TypeLexer::ConsumeToken`, behind the read of the current token.
unfoldable pub lex : TypeParser → TypeParser
lex p = take_lexed p (next_token p.lexer)

abbrev take_tracked : TypeParser → BracketTracker → TypeParser
take_tracked p t = record p { tracker = record t { errors = [] }; errors = p.errors ++ t.errors }

abbrev kind_of : TypeNode → Option TokenKind
kind_of name = none
kind_of (punctuator kind) = some kind

abbrev tracked_node : TypeToken → Node
tracked_node token = record { start = token.start; end = token.end; kind = kind_of token.node }

unfoldable pub feed_token : TypeToken → TypeParser → TypeParser
feed_token token p = take_tracked p (feed (tracked_node token) p.tracker)

-- The parser over a range that begins at `start`.
unfoldable pub start_type_parser : TypeLexerMode → ℕ → List ℕ → TypeParser
start_type_parser mode start text = lex (record {
  lexer = start_type_lexer mode start text;
  current = none;
  tracker = record {
    descriptions = type_brackets;
    range_end = start + length text;
    stack = [];
    errors = [];
  };
  node_start = start;
  range_start = start;
  range_end = start + length text;
  text = text;
  errors = [];
})

abbrev pub add_range_error : ℕ → ℕ → TypeErrorCode → TypeParser → TypeParser
add_range_error start end code p = record p {
  errors = p.errors ++ (record { start = start; end = end; code = error_number code } ∷ []);
}

abbrev pub add_error_at : Option TypeToken → TypeErrorCode → TypeParser → TypeParser
add_error_at none code p = add_range_error p.lexer.reader.location p.lexer.reader.location code p
add_error_at (some token) code p = add_range_error token.start token.end code p

-- `AddError(error_code)`: at the token ahead, or at the end.
unfoldable pub add_error : TypeErrorCode → Step TypeParser (Unit {0})
add_error code = modify (λ p. add_error_at p.current code p)

abbrev pub with_current :
    {A : Type 0}
    → Option TypeToken
    → Step TypeParser A
    → (TypeToken → Step TypeParser A)
    → Step TypeParser A
with_current none absent present = absent
with_current (some token) absent present = present token

-- `if (!CanPeekToken()) absent else present(PeekToken())`.
unfoldable pub with_token :
    {A : Type 0} → Step TypeParser A → (TypeToken → Step TypeParser A) → Step TypeParser A
with_token absent present p = with_current p.current absent present p

-- `PeekToken`.
unfoldable pub peek_token : Step TypeParser TypeToken
peek_token = with_token crash pure

abbrev pub consume_current : Option TypeToken → Step TypeParser TypeToken
consume_current none p = crashed
consume_current (some token) p = returned token (feed_token token (lex p))

-- `ConsumeToken`.
unfoldable pub consume_token : Step TypeParser TypeToken
consume_token p = consume_current p.current p

abbrev node_has_kind : TokenKind → TypeNode → Bool
node_has_kind kind name = false
node_has_kind kind (punctuator k) = kind_index k == kind_index kind

-- `token == kind`, of a punctuator.
abbrev pub has_kind : TokenKind → TypeToken → Bool
has_kind kind token = node_has_kind kind token.node

abbrev node_is_name : TypeNode → Bool
node_is_name name = true
node_is_name (punctuator k) = false

-- `token == ast::SyntaxCode::Name`.
abbrev pub is_name : TypeToken → Bool
is_name token = node_is_name token.node

unfoldable pub same_text : List ℕ → List ℕ → Bool
same_text [] [] = true
same_text [] (d ∷ ds) = false
same_text (c ∷ cs) [] = false
same_text (c ∷ cs) (d ∷ ds) = c == d && same_text cs ds

abbrev text_of : TypeToken → TypeParser → List ℕ
text_of token p = take (token.end - token.start) (drop (token.start - p.range_start) p.text)

-- `token == kind`, of a keyword: a name with its text.
unfoldable pub is_word : List ℕ → TypeToken → TypeParser → Bool
is_word word token p = is_name token && same_text (text_of token p) word

-- `if (ConsumeTokenIf(kind)) found else other`.
unfoldable pub if_kind :
    {A : Type 0} → TokenKind → Step TypeParser A → Step TypeParser A → Step TypeParser A
if_kind kind found other =
    with_token other
      (λ token. if has_kind kind token then consume_token >>= (λ consumed. found) else other)

-- The same with a keyword.
unfoldable pub if_word :
    {A : Type 0} → List ℕ → Step TypeParser A → Step TypeParser A → Step TypeParser A
if_word word found other = with_token other (λ token.
    gets (is_word word token)
    >>= (λ same. if same then consume_token >>= (λ consumed. found) else other))

abbrev pub end_of_node : Option TypeToken → TypeParser → ℕ
end_of_node none p = p.range_end
end_of_node (some token) p = token.end

-- A node over `ComputeNodeRange()`.
unfoldable pub new_node : (ℕ → ℕ → TypeTree) → Step TypeParser TypeTree
new_node make = gets (λ p. make p.node_start (end_of_node p.current p))

unfoldable pub set_node_start : ℕ → Step TypeParser (Unit {0})
set_node_start start = modify (λ p. record p { node_start = start })

-- `TypeNodeScope`: `node_start_` while `body` runs.
unfoldable pub scope : {A : Type 0} → Step TypeParser A → Step TypeParser A
scope body = with_token crash (λ token. do
  node_start ← gets TypeParser.node_start
  set_node_start token.start
  result ← body
  set_node_start node_start
  pure result)

abbrev pub can_start_type : TypeToken → Bool
can_start_type token =
    is_name token
    || has_kind left_parenthesis token
    || has_kind left_bracket token
    || has_kind left_brace token
    || has_kind question token
    || has_kind times token

-- `bracket_tracker_->Finish()`.
unfoldable pub finish_brackets : Step TypeParser (Unit {0})
finish_brackets = modify (λ p. take_tracked p (finish p.tracker))
