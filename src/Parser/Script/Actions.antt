-- ===== src/Parser/Script/Actions.antt =====
-- The state of aoba/parser/parser.{h,cc}, and its helpers.
use aoba.Prelude.{
  ℕ, zero, suc, ◌+◌, ◌-◌, Bool, false, ◌||◌, Option, some, none, List, [], ◌∷◌, ◌++◌, length, take,
  drop,
}
use aoba.Ast.TokenKind.{
  TokenKind, left_parenthesis, right_parenthesis, left_brace, right_brace, left_bracket,
  right_bracket,
}
use aoba.Parser.Utils.BracketTracker.{BracketTracker, BracketError, Description, Node, feed}
use aoba.Parser.Utils.Steps.{
  if◌then◌else◌, Outcome, crashed, returned, out_of_fuel, Step, ◌>>=◌, ◌>>◌, pure, crash, modify,
}
use aoba.Parser.Lexer.State.{LexerContext, Token, TokenNode, punctuator}
use aoba.Parser.Lexer.Buffer
use aoba.Parser.Lexer.Buffer.{TokenBuffer, start_buffer}
use aoba.Parser.Script.Words.{ErrorCode, error_number}
use aoba.Parser.Script.Nodes
use aoba.Parser.Script.Nodes.{ScriptToken, has_kind, is_comment, Syntax, JsTree, JsTrees, node, nil}

abbrev describe : TokenKind → ErrorCode → TokenKind → ErrorCode → Description
describe opening opening_code closing closing_code = record {
  open_kind = opening;
  open_error = error_number opening_code;
  close_kind = closing;
  close_error = error_number closing_code;
}

-- `NewBracketTracker`.
unfoldable pub script_brackets : List Description
script_brackets =
    describe left_parenthesis ErrorCode.bracket_expect_rparen right_parenthesis
      ErrorCode.bracket_unexpect_rparen
    ∷ describe left_brace ErrorCode.bracket_expect_rbrace right_brace
        ErrorCode.bracket_unexpect_rbrace
    ∷ describe left_bracket ErrorCode.bracket_expect_rbracket right_bracket
        ErrorCode.bracket_unexpect_rbracket
    ∷ []

-- The parser of a whole source code, whose text is `text`. `buffer` is the lexer with its current
-- token; `stack` and `tokens` are `token_stack_` and `tokens_` with the last token first.
-- `node_start` is -1 in the source before the first scope, where nothing reads it. `errors` is what
-- the parser and the tracker have put in the error sink; the lexer keeps its own.
pub record ScriptParser : Type 0 where
  pub buffer : TokenBuffer
  pub context : LexerContext
  pub text : List ℕ
  pub disable_automatic_semicolon : Bool
  pub enable_strict_regexp : Bool
  pub tracker : BracketTracker
  pub stack : List ScriptToken
  pub is_separated_by_newline : Bool
  pub last_token : Option ScriptToken
  pub tokens : List ScriptToken
  pub node_start : ℕ
  pub file_overview : Option ScriptToken
  pub errors : List BracketError

-- The constructor.
unfoldable pub start_script_parser : LexerContext → Bool → Bool → List ℕ → ScriptParser
start_script_parser context disable_automatic_semicolon enable_strict_regexp text = record {
  buffer = start_buffer context 0 text;
  context = context;
  text = text;
  disable_automatic_semicolon = disable_automatic_semicolon;
  enable_strict_regexp = enable_strict_regexp;
  tracker = record {
    descriptions = script_brackets;
    range_end = length text;
    stack = [];
    errors = [];
  };
  stack = [];
  is_separated_by_newline = false;
  last_token = none;
  tokens = [];
  node_start = 0;
  file_overview = none;
  errors = [];
}

abbrev pub script_token : List ℕ → Token → ScriptToken
script_token text token = record {
  start = token.start;
  end = token.end;
  node = token.node;
  text = take (token.end - token.start) (drop token.start text);
}

abbrev pub lexed_token : List ℕ → Option Token → Option ScriptToken
lexed_token text none = none
lexed_token text (some token) = some (script_token text token)

abbrev pub top : List ScriptToken → Option ScriptToken → Option ScriptToken
top [] lexed = lexed
top (token ∷ tokens) lexed = some token

-- The token that `PeekToken` returns, where `CanPeekToken` holds.
abbrev pub peeked : ScriptParser → Option ScriptToken
peeked p = top p.stack (lexed_token p.text p.buffer.current)

abbrev pub with_peeked :
    {A : Type 0}
    → Option ScriptToken
    → Step ScriptParser A
    → (ScriptToken → Step ScriptParser A)
    → Step ScriptParser A
with_peeked none absent present = absent
with_peeked (some token) absent present = present token

-- `if (!CanPeekToken()) absent else present(PeekToken())`.
unfoldable pub with_token :
    {A : Type 0} → Step ScriptParser A → (ScriptToken → Step ScriptParser A) → Step ScriptParser A
with_token absent present p = with_peeked (peeked p) absent present p

-- `PeekToken`, behind its DCHECK.
abbrev pub peek_then : {A : Type 0} → (ScriptToken → Step ScriptParser A) → Step ScriptParser A
peek_then present = with_token crash present

abbrev kind_of : TokenNode → Option TokenKind
kind_of (punctuator kind) = some kind
kind_of other = none

abbrev pub take_tracked : ScriptParser → BracketTracker → ScriptParser
take_tracked p t = record p { tracker = record t { errors = [] }; errors = p.errors ++ t.errors }

abbrev tracked_node : ScriptToken → Node
tracked_node token = record { start = token.start; end = token.end; kind = kind_of token.node }

-- A round of `SkipCommentTokens` before its test for a comment.
unfoldable pub note_token : ScriptToken → ScriptParser → ScriptParser
note_token token p =
    let q = take_tracked p (feed (tracked_node token) p.tracker) in
    record q {
      is_separated_by_newline = p.buffer.lexer.is_separated_by_newline || p.is_separated_by_newline;
      tokens = token ∷ p.tokens;
    }

abbrev pub take_buffer :
    ScriptParser → Option (Token × TokenBuffer) → Outcome ScriptParser (Unit {0})
take_buffer p none = crashed
take_buffer p (some (token, buffer)) = returned tt (record p { buffer = buffer })

-- `lexer_->ConsumeToken()`.
unfoldable pub lex : Step ScriptParser (Unit {0})
lex p = take_buffer p (Buffer.consume_token p.context p.buffer)

abbrev pub with_lexed :
    Option Token
    → Step ScriptParser (Unit {0})
    → Step ScriptParser (Unit {0})
    → Step ScriptParser (Unit {0})
with_lexed none absent present = absent
with_lexed (some token) absent present = present

-- `if (!lexer_->CanPeekToken()) absent else present`.
unfoldable pub if_lexed :
    Step ScriptParser (Unit {0}) → Step ScriptParser (Unit {0}) → Step ScriptParser (Unit {0})
if_lexed absent present p = with_lexed p.buffer.current absent present p

-- `SkipCommentTokens`, on fuel.
unfoldable pub skip_comments : ℕ → Step ScriptParser (Unit {0})
skip_comments zero p = out_of_fuel
skip_comments (suc k) p =
    if_lexed (pure tt)
      (peek_then (λ token. do
        modify (note_token token)
        (if is_comment token then (lex >> skip_comments k) else pure tt)))
      p

-- Fuel for each token that the text ahead can have.
unfoldable pub skip_comment_tokens : Step ScriptParser (Unit {0})
skip_comment_tokens p = skip_comments (length p.buffer.lexer.reader.ahead + 2) p

unfoldable pub set_newline : Bool → Step ScriptParser (Unit {0})
set_newline found = modify (λ p. record p { is_separated_by_newline = found })

abbrev pub advance_by : List ScriptToken → Step ScriptParser (Unit {0})
advance_by [] = do set_newline false; if_lexed (pure tt) (lex >> skip_comment_tokens)
advance_by (token ∷ tokens) = modify (λ p. record p { stack = tokens })

-- `Advance`.
unfoldable pub advance : Step ScriptParser (Unit {0})
advance p = advance_by p.stack p

unfoldable pub set_last_token : ScriptToken → Step ScriptParser (Unit {0})
set_last_token token = modify (λ p. record p { last_token = some token })

-- `ConsumeToken`.
unfoldable pub consume_token : Step ScriptParser ScriptToken
consume_token = peek_then (λ token. do advance; set_last_token token; pure token)

-- `PushBackToken`.
unfoldable pub push_back_token : ScriptToken → Step ScriptParser (Unit {0})
push_back_token token = modify (λ p. record p { stack = token ∷ p.stack })

-- `if (ConsumeTokenIf(kind)) found else other`.
unfoldable pub if_kind :
    {A : Type 0} → TokenKind → Step ScriptParser A → Step ScriptParser A → Step ScriptParser A
if_kind kind found other =
    with_token other
      (λ token. if has_kind kind token then consume_token >>= (λ consumed. found) else other)

-- The same with a keyword or a known word.
unfoldable pub if_word :
    {A : Type 0} → List ℕ → Step ScriptParser A → Step ScriptParser A → Step ScriptParser A
if_word word found other =
    with_token other
      (λ token. if Nodes.is_word word token then consume_token >>= (λ consumed. found) else other)
