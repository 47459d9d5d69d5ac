-- ===== src/Parser/Lexer/Comments.antt =====
-- aoba/parser/lexer/lexer.cc: comments, names and the extension of a token to a regular expression.
use aoba.Prelude.{
  ℕ, ◌-◌, Option, some, none, take, ◌++◌, Bool, true, false, ◌&&◌, ◌||◌, List, [], ◌∷◌, ◌==◌,
  if◌then◌else◌,
}
use aoba.Parser.Utils.Steps.{Outcome, returned, crashed, out_of_fuel}
use aoba.Parser.JsDoc.Tags.{JsDocTree}
use aoba.Parser.JsDoc.Parser
use aoba.Parser.JsDoc.Parser.Actions.{JsDocParser, start_js_doc_parser}
use aoba.Parser.Utils.LexerUtils.{is_line_terminator, is_identifier_part}
use aoba.Parser.Utils.CharacterReader.{Reader, move_forward, peek_is, skip_while}
use aoba.Parser.Lexer.State.{
  Lexer, Token, comment, js_doc_document, name, regexp_source, location, new_token, add_error,
  set_newline, block_comment_not_closed, regexp_expect_slash,
}

-- The variables of a loop that reads characters to a closing one: whether it has met that one, and
-- whether a line terminator was passed.
pub record Scan : Type 0 where
  pub closed : Bool
  pub newline : Bool
  pub reader : Reader

-- The loop of `HandleBlockComment`, over the characters ahead of the reader.
unfoldable pub block_comment_loop : List ℕ → Bool → Bool → Reader → Scan
block_comment_loop [] is_after_asterisk newline r = record {
  closed = false;
  newline = newline;
  reader = r;
}
block_comment_loop (c ∷ cs) is_after_asterisk newline r =
    if is_after_asterisk && c == b'/'
    then record { closed = true; newline = newline; reader = move_forward r }
    else block_comment_loop cs (c == b'*') (newline || is_line_terminator c) (move_forward r)

-- What the parser of documents makes of a comment. Where a DCHECK of it fails, `fault` is set, as for
-- one of the lexer's own; with no fuel left there is no token to return: it would be empty, which no
-- token of the lexer is.
unfoldable pub js_doc_token : Outcome JsDocParser (Option JsDocTree) → Lexer → Token × Lexer
js_doc_token (returned none p) l =
    new_token comment (record l { js_doc_errors = l.js_doc_errors ++ p.errors })
js_doc_token (returned (some found) p) l =
    new_token js_doc_document (record l { js_doc_errors = l.js_doc_errors ++ p.errors })
js_doc_token crashed l = new_token comment (record l { reader = record l.reader { fault = true } })
js_doc_token out_of_fuel l =
    (record { start = l.token_start; end = l.token_start; node = comment }, l)

-- `JsDocParser(&context_, range, options_).Parse()`.
unfoldable pub parse_js_doc : ℕ → List ℕ → Outcome JsDocParser (Option JsDocTree)
parse_js_doc start text = Parser.parse (start_js_doc_parser start text)

-- `text` is that of the comment.
unfoldable pub close_block_comment : Bool → List ℕ → Scan → Lexer → Token × Lexer
close_block_comment is_jsdoc text s l =
    let l' = set_newline s.newline (record l { reader = s.reader }) in
    if s.closed
    then (if is_jsdoc
        then js_doc_token (parse_js_doc l'.token_start text) l'
        else new_token comment l')
    else new_token comment (add_error block_comment_not_closed l')

-- The reader stands behind the opening `/*`.
unfoldable pub handle_block_comment : Lexer → Token × Lexer
handle_block_comment l =
    let s = block_comment_loop l.reader.ahead false false l.reader in
    close_block_comment (peek_is (λ c. c == b'*') l.reader)
      (b'/' ∷ b'*' ∷ take (s.reader.location - location l) l.reader.ahead) s l

-- The loop of `HandleLineComment`: the line terminator is consumed too.
unfoldable pub line_comment_loop : List ℕ → Reader → Scan
line_comment_loop [] r = record { closed = false; newline = false; reader = r }
line_comment_loop (c ∷ cs) r =
    if is_line_terminator c
    then record { closed = true; newline = true; reader = move_forward r }
    else line_comment_loop cs (move_forward r)

unfoldable pub handle_line_comment : Lexer → Token × Lexer
handle_line_comment l =
    let s = line_comment_loop l.reader.ahead l.reader in
    new_token comment (set_newline s.newline (record l { reader = s.reader }))

unfoldable pub handle_name : Lexer → Token × Lexer
handle_name l = new_token name (record l { reader = skip_while is_identifier_part l.reader })

-- The states of `ExtendTokenAsRegExp`.
pub data RegExpState : Type 0 where
  backslash bracket bracket_backslash normal : RegExpState

-- What one character does: the loop goes on in a state, or ends at the closing slash.
pub data RegExpStep : Type 0 where
  go_on : RegExpState → RegExpStep
  slash : RegExpStep

unfoldable pub regexp_step : RegExpState → ℕ → RegExpStep
regexp_step backslash c = go_on normal
regexp_step bracket c =
    go_on (if c == b'\\' then bracket_backslash else if c == b']' then normal else bracket)
regexp_step bracket_backslash c = go_on bracket
regexp_step normal c =
    if c == b'\\'
    then go_on backslash
    else if c == b'['
    then go_on bracket
    else if c == b'/'
    then slash
    else go_on normal

unfoldable pub regexp_loop : List ℕ → RegExpState → Reader → Scan
regexp_loop [] state r = record { closed = false; newline = false; reader = r }
regexp_loop (c ∷ cs) state r = elim (regexp_step state c) [
  | go_on next ↦ regexp_loop cs next (move_forward r)
  | slash ↦ record { closed = true; newline = false; reader = move_forward r }
]

-- `token` is the current token, `/` or `/=`, and the reader stands behind it.
unfoldable pub extend_token_as_reg_exp : Token → Lexer → Token × Lexer
extend_token_as_reg_exp token l =
    let s = regexp_loop l.reader.ahead normal l.reader in
    let l' = record l { token_start = token.start; reader = s.reader } in
    if s.closed
    then new_token regexp_source l'
    else new_token regexp_source (add_error regexp_expect_slash l')
