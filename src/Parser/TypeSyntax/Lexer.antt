-- ===== src/Parser/TypeSyntax/Lexer.antt =====
-- aoba/parser/type/type_lexer.{h,cc}: the tokens of a type annotation.
pub mod Progress
use aoba.Prelude.{
  ℕ, zero, suc, ◌+◌, ◌-◌, ◌*◌, ◌/◌, ◌%◌, ◌^◌, ◌≤◌, ◌<◌, min, max, Bool, true, false, not, ◌&&◌,
  ◌||◌, Option, some, none, List, [], ◌∷◌, ◌++◌, ◌≡◌, ◌≢◌, ◌↔◌, ◌⊎◌, inl, inr, refl, sym, ap, ◌∙◌,
  length, take, drop, length-append, append_assoc, append-nil, Bool-cases, if◌then◌else◌, arith,
  ltb, leb, ◌==◌, within, take_while, drop_while, All, reverse_onto, ==_iff, leb→le, ltb→lt, le→leb,
  lt→ltb, get_elem?,
}
use aoba.Ast.TokenKind.{
  TokenKind, invalid, dot, dot_dot_dot, logical_not, left_parenthesis, right_parenthesis, comma,
  times, colon, less_than, equal, greater_than, question, left_bracket, right_bracket, left_brace,
  right_brace, bit_or,
}
use aoba.Parser.Utils.LexerUtils.{
  is_whitespace, is_line_terminator, is_identifier_start, is_identifier_part,
}
use aoba.Parser.Utils.CharacterReader.{
  Reader, start_reader, peek_is, peek_char, move_forward, fold_while, skip_while,
}

-- `ERROR_TYPE_UNEXPECT_DOT`, the only error of the lexer, over a range.
pub record UnexpectDot : Type 0 where
  pub start : ℕ
  pub end : ℕ

pub data TypeNode : Type 0 where
  name : TypeNode
  punctuator : TokenKind → TypeNode

pub record TypeToken : Type 0 where
  pub start : ℕ
  pub end : ℕ
  pub node : TypeNode

pub data TypeLexerMode : Type 0 where
  normal js_doc : TypeLexerMode

pub record TypeLexer : Type 0 where
  pub mode : TypeLexerMode
  pub reader : Reader
  pub token_start : ℕ
  pub errors : List UnexpectDot

abbrev pub start_type_lexer : TypeLexerMode → ℕ → List ℕ → TypeLexer
start_type_lexer mode start text = record {
  mode = mode;
  reader = start_reader start text;
  token_start = 0;
  errors = [];
}

abbrev pub Handler : Type 0
Handler = TypeLexer → TypeToken × TypeLexer

abbrev pub new_node : TypeNode → Handler
new_node node l = (record { start = l.token_start; end = l.reader.location; node = node }, l)

abbrev pub consume_char : TypeLexer → TypeLexer
consume_char l = record l { reader = move_forward l.reader }

unfoldable pub handle_punctuator : TokenKind → Handler
handle_punctuator kind l = new_node (punctuator kind) (consume_char l)

-- Three consecutive dots, or one, are a token.
abbrev dots : ℕ → Handler
dots number_of_dots l =
    if number_of_dots == 1
    then new_node (punctuator dot) l
    else if number_of_dots == 3
    then new_node (punctuator dot_dot_dot) l
    else new_node (punctuator invalid) (record l {
      errors = l.errors ++ (record { start = l.token_start; end = l.reader.location } ∷ []);
    })

unfoldable pub handle_dots : Handler
handle_dots l =
    let (r, number_of_dots) = fold_while (λ c. c == b'.') (λ n c. n + 1) l.reader 0 in
    dots number_of_dots (record l { reader = r })

unfoldable pub handle_name : Handler
handle_name l =
    new_node name (record l { reader = skip_while is_identifier_part (move_forward l.reader) })

-- Behind the `switch`.
unfoldable pub handle_other : ℕ → Handler
handle_other c l = if is_identifier_start c then handle_name l else handle_punctuator invalid l

-- The `switch` on `PeekChar()`, which is `c`.
unfoldable pub handle_character : ℕ → Handler
handle_character c l =
    if c == b'!'
    then handle_punctuator logical_not l
    else if c == b'('
    then handle_punctuator left_parenthesis l
    else if c == b')'
    then handle_punctuator right_parenthesis l
    else if c == b','
    then handle_punctuator comma l
    else if c == b'*'
    then handle_punctuator times l
    else if c == b':'
    then handle_punctuator colon l
    else if c == b'<'
    then handle_punctuator less_than l
    else if c == b'='
    then handle_punctuator equal l
    else if c == b'>'
    then handle_punctuator greater_than l
    else if c == b'?'
    then handle_punctuator question l
    else if c == b'['
    then handle_punctuator left_bracket l
    else if c == b']'
    then handle_punctuator right_bracket l
    else if c == b'{'
    then handle_punctuator left_brace l
    else if c == b'|'
    then handle_punctuator bit_or l
    else if c == b'}'
    then handle_punctuator right_brace l
    else if c == b'.'
    then handle_dots l
    else handle_other c l

-- The loop over white space, and `found_newline`.
unfoldable pub skip_whitespace : Reader → Reader × Bool
skip_whitespace r =
    fold_while is_whitespace (λ newline c. if is_line_terminator c then true else newline) r false

abbrev in_js_doc : TypeLexerMode → Bool
in_js_doc normal = false
in_js_doc js_doc = true

-- `mode_ == JsDoc && found_newline && ConsumeCharIf('*')`.
abbrev pub skips_asterisk : TypeLexer → Bool → ℕ → Bool
skips_asterisk l found_newline c = in_js_doc l.mode && found_newline && c == b'*'

abbrev returns : TypeToken × TypeLexer → Option TypeToken × TypeLexer
returns (token, l) = (some token, l)

-- From `start_over`, with the times that it may be reached.
unfoldable pub next_token_loop : ℕ → TypeLexer → Option TypeToken × TypeLexer
next_token_loop zero l = (none, l)
next_token_loop (suc fuel) l =
    let (r, found_newline) = skip_whitespace l.reader in
    let l' = record l { reader = r } in
    elim (peek_char r) [
      | none ↦ (none, l')
      | some c ↦ elim (skips_asterisk l found_newline c) [
        | true ↦ next_token_loop fuel (consume_char l')
        | false ↦ returns (handle_character c (record l' { token_start = r.location }))
      ]
    ]

-- Each return to `start_over` has consumed an asterisk, so this fuel is enough.
unfoldable pub next_token : TypeLexer → Option TypeToken × TypeLexer
next_token l = next_token_loop (length l.reader.ahead + 1) l
