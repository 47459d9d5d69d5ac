-- ===== src/Parser/Lexer/Progress/Handlers.antt =====
-- aoba/parser/lexer/lexer.cc: what each handler consumes, and the range of its token.
use aoba.Prelude.{
  ◌==◌, within, Option, some, none, ◌||◌, ℕ, Bool, true, false, Option, some, none, List, [], ◌∷◌,
  ◌≡◌, inl, inr, refl, Bool-cases, if◌then◌else◌, arith, ◌||◌, ◌&&◌, ltb, ◌==◌,
}
use aoba.Ast.TokenKind.{TokenKind}
use aoba.Parser.Utils.CharacterReader.{peek_is, peek_char, Reader, move_forward, skip_while}
use aoba.Parser.Utils.CharacterReader.Reads.{
  Reads, Reads-refl, Reads-trans, Reads-move_forward, skip_while-Reads, fold_while-Reads,
}
use aoba.Parser.Utils.LexerUtils.{is_line_terminator, is_identifier_part}
use aoba.Parser.Lexer.State.{
  Lexer, LexerContext, Token, TokenNode, ErrorCode, location, consume_char, new_token,
  new_punctuator, add_error, set_newline,
}
use aoba.Parser.Lexer.State
use aoba.Parser.Utils.Steps.{Outcome, returned, crashed, out_of_fuel, Ends}
use aoba.Parser.JsDoc.Tags.{JsDocTree}
use aoba.Parser.JsDoc.Parser
use aoba.Parser.JsDoc.Parser.Actions.{JsDocParser, start_js_doc_parser}
use aoba.Parser.JsDoc.Parser.Termination.{parse-EndsWithin}
use aoba.Parser.Lexer.Punctuators.{
  is_valid, handle_operator, handle_repeat, handle_single, handle_exclamation, handle_asterisk,
  handle_dot_dot, handle_less_than, handle_equal, handle_greater_than,
}
use aoba.Parser.Lexer.Numbers.{
  integer_loop, check_digits, handle_octal, handle_integer, handle_digit_zero,
  handle_digit_after_zero, DigitsPart, fraction, fraction_step, exponent_sign, exponent,
  skip_invalid, is_decimal, handle_decimal_after_dot, handle_decimal, handle_integer,
  handle_digit_zero, handle_digit_after_zero, exponent_step,
}
use aoba.Parser.Lexer.Comments.{
  js_doc_token, parse_js_doc, block_comment_loop, close_block_comment, handle_block_comment,
  line_comment_loop, handle_line_comment, handle_name,
}
use aoba.Parser.Lexer.Progress.{
  Extends, Extends-refl, Extends-trans, Extends-reader, Extends-errors, Extends-consume_char_if,
  Makes, Makes-after, Makes-new_token, Makes-consume_char, Makes-if_char,
}

punctuator : (kind : TokenKind) (l : Lexer) → Makes l (new_punctuator kind l)
punctuator kind l = Makes-new_token _ l

Makes-handle_repeat :
    (c : ℕ) (one two : TokenKind) (l : Lexer) → Makes l (handle_repeat c one two l)
unfolding handle_repeat
Makes-handle_repeat c one two l = elim (Bool-cases (is_valid two)) [
  | inl e ↦ rw e (Makes-if_char c l (punctuator two) (punctuator one))
  | inr e ↦ rw e (punctuator one l)
]

pub Makes-handle_operator :
    (c : ℕ) (one two three : TokenKind) (l : Lexer)
    → Makes (consume_char l) (handle_operator c one two three l)
unfolding handle_operator
Makes-handle_operator c one two three l =
    (Makes-if_char b'=' _ (punctuator three) (Makes-handle_repeat c one two))

pub Makes-handle_single :
    (kind : TokenKind) (l : Lexer) → Makes (consume_char l) (handle_single kind l)
unfolding handle_single
Makes-handle_single kind l = (punctuator kind _)

pub Makes-handle_exclamation : (l : Lexer) → Makes (consume_char l) (handle_exclamation l)
unfolding handle_exclamation
Makes-handle_exclamation l =
    (Makes-if_char b'=' _ (λ k. Makes-if_char b'=' k (punctuator _) (punctuator _)) (punctuator _))

pub Makes-handle_asterisk : (l : Lexer) → Makes (consume_char l) (handle_asterisk l)
unfolding handle_asterisk
Makes-handle_asterisk l =
    (Makes-if_char b'=' _ (punctuator _) (λ k.
      Makes-if_char b'*' k (λ m. Makes-if_char b'=' m (punctuator _) (punctuator _))
        (punctuator _)))

pub Makes-handle_dot_dot : (l : Lexer) → Makes l (handle_dot_dot l)
unfolding handle_dot_dot
Makes-handle_dot_dot l =
    Makes-if_char b'.' l (punctuator _)
      (λ k. Makes-after (Extends-errors k _ refl refl) (punctuator _ _))

pub Makes-handle_less_than : (l : Lexer) → Makes (consume_char l) (handle_less_than l)
unfolding handle_less_than
Makes-handle_less_than l =
    (Makes-if_char b'=' _ (punctuator _) (λ k.
      Makes-if_char b'<' k (λ m. Makes-if_char b'=' m (punctuator _) (punctuator _))
        (punctuator _)))

pub Makes-handle_equal : (l : Lexer) → Makes (consume_char l) (handle_equal l)
unfolding handle_equal
Makes-handle_equal l =
    (Makes-if_char b'=' _ (λ k. Makes-if_char b'=' k (punctuator _) (punctuator _))
      (λ k. Makes-if_char b'>' k (punctuator _) (punctuator _)))

pub Makes-handle_greater_than : (l : Lexer) → Makes (consume_char l) (handle_greater_than l)
unfolding handle_greater_than
Makes-handle_greater_than l =
    (Makes-if_char b'=' _ (punctuator _) (λ k.
      Makes-if_char b'>' k
        (λ m. Makes-if_char b'=' m (punctuator _) (λ n.
          Makes-if_char b'>' n (λ o. Makes-if_char b'=' o (punctuator _) (punctuator _))
            (punctuator _)))
        (punctuator _)))

module _ {A : Type 0} where
  choice-Extends :
      (l : Lexer) (found : Bool) (x y : A × Lexer)
      → Extends l x.1
      → Extends l y.1
      → Extends l (if◌then◌else◌ {A = A × Lexer} found x y).1
  choice-Extends l true x y hx hy = hx
  choice-Extends l false x y hx hy = hy

Extends-fraction :
    (s : DigitsPart) (l : Lexer) → Extends (State.consume_char_if b'.' l).1 (fraction s l).1
unfolding fraction
Extends-fraction s l =
    choice-Extends (State.consume_char_if b'.' l).1 (State.consume_char_if b'.' l).0 _ _
      (Extends-reader _ _ _ (fold_while-Reads is_decimal fraction_step _ s)) (Extends-refl _)

Extends-exponent_sign : (l : Lexer) → Extends l (exponent_sign l).1
unfolding exponent_sign
Extends-exponent_sign l =
    let plus = Extends-consume_char_if b'+' l in
    let minus =
      Extends-trans plus (Extends-consume_char_if b'-' (State.consume_char_if b'+' l).1) in
    choice-Extends l (State.consume_char_if b'+' l).0 _ _ plus (
      choice-Extends l (State.consume_char_if b'-' (State.consume_char_if b'+' l).1).0 _ _ minus
        minus)

exponent_mark : Lexer → Bool × Lexer
exponent_mark l =
    let (upper, l₁) = State.consume_char_if b'E' l in
    if upper then (true, l₁) else State.consume_char_if b'e' l₁

Extends-exponent_mark : (l : Lexer) → Extends l (exponent_mark l).1
unfolding exponent_mark
Extends-exponent_mark l =
    let upper = Extends-consume_char_if b'E' l in
    choice-Extends l (State.consume_char_if b'E' l).0 _ _ upper
      (Extends-trans upper (Extends-consume_char_if b'e' (State.consume_char_if b'E' l).1))

Extends-exponent : (l : Lexer) → Extends l (exponent l).1
unfolding exponent exponent_mark
Extends-exponent l =
    let mark = Extends-exponent_mark l in
    choice-Extends l (exponent_mark l).0 _ _
      (Extends-trans mark (
        Extends-trans (Extends-exponent_sign (exponent_mark l).1)
          (Extends-reader _ _ _ (fold_while-Reads is_decimal exponent_step _ 0))))
      mark

choice-lexer :
    (l : Lexer) (found : Bool) (x y : Lexer)
    → Extends l x
    → Extends l y
    → Extends l (if found then x else y)
choice-lexer l true x y hx hy = hx
choice-lexer l false x y hx hy = hy

Extends-skip_invalid :
    (code : ErrorCode) (otherwise : Lexer → Lexer) (l : Lexer)
    → ((k : Lexer) → Extends k (otherwise k))
    → Extends l (skip_invalid code otherwise l)
Extends-skip_invalid code otherwise l h =
    let skip = Extends-reader l _ _ (skip_while-Reads is_identifier_part l.reader) in
    choice-lexer l (ltb (location l) (skip_while is_identifier_part l.reader).location) _ _
      (Extends-trans skip (Extends-errors _ _ refl refl)) (Extends-trans skip (h _))

-- `ConsumeCharIf('.')` comes first.
pub Makes-handle_decimal_after_dot :
    (part scale : ℕ) (l : Lexer)
    → Makes (State.consume_char_if b'.' l).1 (handle_decimal_after_dot part scale l)
unfolding handle_decimal_after_dot
Makes-handle_decimal_after_dot part scale l =
    Makes-after
      (Extends-trans (Extends-fraction _ l)
        (Extends-trans (Extends-exponent _) (Extends-skip_invalid _ _ _ Extends-refl)))
      (Makes-new_token _ _)

Makes-decimal : (part scale : ℕ) (l : Lexer) → Makes l (handle_decimal_after_dot part scale l)
Makes-decimal part scale l =
    Makes-after (Extends-consume_char_if b'.' l) (Makes-handle_decimal_after_dot part scale l)

pub Makes-handle_decimal : (c : ℕ) (l : Lexer) → Makes (consume_char l) (handle_decimal c l)
unfolding handle_decimal
Makes-handle_decimal c l =
    (Makes-after (Extends-reader _ _ _ (fold_while-Reads is_decimal _ _ _)) (Makes-decimal _ _ _))

pub choice-Makes :
    (l : Lexer) (found : Bool) (x y : Token × Lexer)
    → Makes l x
    → Makes l y
    → Makes l (if found then x else y)
choice-Makes l true x y hx hy = hx
choice-Makes l false x y hx hy = hy

Extends-integer_loop :
    (base : ℕ) (l : Lexer) → Extends l (record l { reader = (integer_loop base l).0 })
unfolding integer_loop
Extends-integer_loop base l = Extends-reader l _ _ (fold_while-Reads _ _ l.reader _)

Extends-check_digits : (n : ℕ) (l : Lexer) → Extends l (check_digits n l)
Extends-check_digits n l =
    choice-lexer l (n == 0) _ _ (Extends-errors _ _ refl refl) (Extends-refl l)

pub Makes-handle_integer : (base : ℕ) (l : Lexer) → Makes l (handle_integer base l)
unfolding handle_integer
Makes-handle_integer base l =
    Makes-after
      (Extends-trans (Extends-integer_loop base l) (
        Extends-trans (Extends-errors _ _ refl refl) (
          Extends-skip_invalid _ _ _
            (Extends-check_digits (integer_loop base l).1.number_of_digits))))
      (Makes-new_token _ _)

Makes-handle_octal : (l : Lexer) → Makes l (handle_octal l)
Makes-handle_octal l =
    let m = Makes-handle_integer 8 l in
    record {
      extends = Extends-trans m.extends (Extends-errors _ _ refl refl);
      start = m.start;
      end = m.end;
    }

Makes-handle_digit_after_zero : (o : Option ℕ) (l : Lexer) → Makes l (handle_digit_after_zero o l)
Makes-handle_digit_after_zero none l = Makes-new_token _ l
Makes-handle_digit_after_zero (some c) l =
    choice-Makes l (within b'0' b'7' c) _ _ (Makes-handle_octal l) (
      choice-Makes l (within b'8' b'9' c) _ _ (Makes-consume_char l (Makes-handle_decimal c l)) (
        choice-Makes l (c == b'b' || c == b'B') _ _
          (Makes-consume_char l (Makes-handle_integer 2 _))
          (choice-Makes l (c == b'o' || c == b'O') _ _
            (Makes-consume_char l (Makes-handle_integer 8 _))
            (choice-Makes l (c == b'x' || c == b'X') _ _
              (Makes-consume_char l (Makes-handle_integer 16 _)) (Makes-decimal 0 0 l)))))

pub Makes-handle_digit_zero : (l : Lexer) → Makes l (handle_digit_zero l)
unfolding handle_digit_zero
Makes-handle_digit_zero l = Makes-handle_digit_after_zero (peek_char l.reader) l

pub Makes-handle_name : (l : Lexer) → Makes l (handle_name l)
unfolding handle_name
Makes-handle_name l =
    Makes-after (Extends-reader l _ _ (skip_while-Reads is_identifier_part l.reader))
      (Makes-new_token _ _)

move_forward-loop :
    (r s : Reader) (c : ℕ) (cs : List ℕ)
    → r.ahead ≡ c ∷ cs
    → ((w : List ℕ) × Reads (move_forward r) w s)
    → (w : List ℕ) × Reads r w s
move_forward-loop r s c cs h (w, k) =
    (c ∷ w, Reads-trans (c ∷ []) w (Reads-move_forward r c cs h) k)

pub ahead-move_forward :
    (r : Reader) (c : ℕ) (cs : List ℕ) → r.ahead ≡ c ∷ cs → (move_forward r).ahead ≡ cs
unfolding move_forward
ahead-move_forward r c cs h = ground arith

Reads-block_comment_loop :
    (cs : List ℕ) (after newline : Bool) (r : Reader)
    → r.ahead ≡ cs
    → (w : List ℕ) × Reads r w (block_comment_loop cs after newline r).reader
unfolding block_comment_loop
Reads-block_comment_loop [] after newline r h = ([], Reads-refl r)
Reads-block_comment_loop (c ∷ cs) after newline r h = elim (Bool-cases (after && c == b'/')) [
  | inl e ↦ rw e (c ∷ [], Reads-move_forward r c cs h)
  | inr e ↦ rw e (
      move_forward-loop r _ c cs h (
        Reads-block_comment_loop cs (c == b'*') (newline || is_line_terminator c) (move_forward r)
          (ahead-move_forward r c cs h)))
]

Reads-line_comment_loop :
    (cs : List ℕ) (r : Reader)
    → r.ahead ≡ cs
    → (w : List ℕ) × Reads r w (line_comment_loop cs r).reader
unfolding line_comment_loop
Reads-line_comment_loop [] r h = ([], Reads-refl r)
Reads-line_comment_loop (c ∷ cs) r h = elim (Bool-cases (is_line_terminator c)) [
  | inl e ↦ rw e (c ∷ [], Reads-move_forward r c cs h)
  | inr e ↦ rw e (
      move_forward-loop r _ c cs h
        (Reads-line_comment_loop cs (move_forward r) (ahead-move_forward r c cs h)))
]

pub Makes-handle_line_comment : (l : Lexer) → Makes l (handle_line_comment l)
unfolding handle_line_comment
Makes-handle_line_comment l =
    let (w, h) = Reads-line_comment_loop l.reader.ahead l.reader refl in
    Makes-after (Extends-trans (Extends-reader l _ w h) (Extends-errors _ _ refl refl))
      (Makes-new_token _ _)

Makes-js_doc_token :
    (P : Option JsDocTree → JsDocParser → Type 0) (o : Outcome JsDocParser (Option JsDocTree))
    (l : Lexer)
    → Ends P o
    → Makes l (js_doc_token o l)
unfolding js_doc_token
Makes-js_doc_token P (returned none p) l h =
    Makes-after (Extends-errors _ _ refl refl) (Makes-new_token _ _)
Makes-js_doc_token P (returned (some found) p) l h =
    Makes-after (Extends-errors _ _ refl refl) (Makes-new_token _ _)
Makes-js_doc_token P crashed l h =
    Makes-after (Extends-reader l _ [] (record { text = refl; past = refl; moved = omega arith }))
      (Makes-new_token _ _)
Makes-js_doc_token P out_of_fuel l h = absurd h

Makes-parse_js_doc :
    (start : ℕ) (text : List ℕ) (l : Lexer) → Makes l (js_doc_token (parse_js_doc start text) l)
unfolding parse_js_doc
Makes-parse_js_doc start text l =
    Makes-js_doc_token _ (Parser.parse (start_js_doc_parser start text)) l
      (parse-EndsWithin (start_js_doc_parser start text))

pub Makes-handle_block_comment : (l : Lexer) → Makes l (handle_block_comment l)
unfolding handle_block_comment close_block_comment
Makes-handle_block_comment l =
    let (w, h) = Reads-block_comment_loop l.reader.ahead false false l.reader refl in
    let e = Extends-trans (Extends-reader l _ w h) (Extends-errors _ _ refl refl) in
    choice-Makes l (block_comment_loop l.reader.ahead false false l.reader).closed _ _
      (Makes-after e (
        choice-Makes _ (peek_is (λ c. c == b'*') l.reader) _ _ (Makes-parse_js_doc _ _ _)
          (Makes-new_token _ _)))
      (Makes-after (Extends-trans e (Extends-errors _ _ refl refl)) (Makes-new_token _ _))
