-- ===== src/Parser/Lexer/Progress/Characters.antt =====
-- aoba/parser/lexer/lexer.cc: what `HandleCharacter` and `NextToken` consume.
use aoba.Prelude.{
  ℕ, ◌<◌, Bool, true, List, [], ◌∷◌, ◌≡◌, inl, inr, sym, ap, ◌∙◌, length, Bool-cases, if◌then◌else◌,
  arith, take_while,
}
use aoba.Parser.Utils.CharacterReader.{Reader, move_forward, move_backward, peek_is}
use aoba.Parser.Utils.LexerUtils.{is_digit_char, is_identifier_part}
use aoba.Parser.Lexer.State.{
  Lexer, LexerContext, Token, ErrorCode, consume_char, location, set_newline, new_punctuator,
}
use aoba.Parser.Lexer.State
use mathlib.Core.Bool.{false≢true}
use aoba.Parser.Lexer.Punctuators.{if_char}
use aoba.Parser.Lexer.Comments.{handle_name}
use aoba.Parser.Lexer.Characters.{handle_dot, handle_dot_digit, handle_slash, handle_zero}
use aoba.Parser.Lexer.Progress.{
  Reads-move_forward, skip_while-Reads, skip_while, Extends-consume_char_if, consume_char_if-cases,
  lt-consume_char, Extends-location, Makes, Makes-after, Makes-new_token, Makes-consume_char,
  Makes-if_char,
}
use aoba.Parser.Lexer.Progress.Handlers.{
  Makes-handle_dot_dot, Makes-handle_decimal_after_dot, Makes-handle_digit_zero, Makes-handle_name,
  Makes-handle_line_comment, Makes-handle_block_comment,
}

pub Makes-handle_slash : (l : Lexer) → Makes (consume_char l) (handle_slash l)
unfolding handle_slash
Makes-handle_slash l =
    (Makes-if_char b'=' _ (λ k. Makes-new_token _ k)
      (λ k.
        Makes-if_char b'*' k Makes-handle_block_comment
          (λ m. Makes-if_char b'/' m Makes-handle_line_comment (λ n. Makes-new_token _ n))))

pub Makes-handle_zero : (l : Lexer) → Makes (consume_char l) (handle_zero l)
unfolding handle_zero
Makes-handle_zero l = (Makes-handle_digit_zero _)

-- Stepping back over the character that was just read gives the reader before it.
back-forward :
    (l : Lexer) (c : ℕ) (cs : List ℕ)
    → l.reader.ahead ≡ c ∷ cs
    → record (consume_char l) { reader = move_backward (consume_char l).reader } ≡ l
unfolding consume_char move_forward move_backward
back-forward l c cs h = ground arith

-- The handler's token is not empty.
pub record Consumes (l : Lexer) (made : Token × Lexer) : Type 0 where
  pub makes : Makes l made
  pub moves : location l < location made.1

module _ (l : Lexer) (c : ℕ) (cs : List ℕ) (h : l.reader.ahead ≡ c ∷ cs) where
  pub Consumes-consume_char : {made : Token × Lexer} → Makes (consume_char l) made → Consumes l made
  Consumes-consume_char m = record {
    makes = Makes-consume_char l m;
    moves = omega (arith, lt-consume_char l c cs h, Extends-location m.extends);
  }

-- The characters that start a decimal point's fraction, a name, and the rest.
lt-skip_while :
    (p : ℕ → Bool) (r : Reader) (c : ℕ) (cs : List ℕ)
    → r.ahead ≡ c ∷ cs
    → p c ≡ true
    → r.location < (skip_while p r).location
lt-skip_while p r c cs h e = omega (
  arith,
  (skip_while-Reads p r).moved,
  ap (λ w. length (take_while p w)) h,
  ap (λ (b : Bool). length {A = ℕ} (if b then c ∷ take_while p cs else [])) e,
)

consume_char_if-found :
    (c : ℕ) (l : Lexer) (cs : List ℕ)
    → l.reader.ahead ≡ c ∷ cs
    → (State.consume_char_if c l).0 ≡ true
unfolding State.consume_char_if
consume_char_if-found c l cs h = ground arith

lt-consume_char_if :
    (c : ℕ) (l : Lexer) (cs : List ℕ)
    → l.reader.ahead ≡ c ∷ cs
    → location l < location (State.consume_char_if c l).1
lt-consume_char_if c l cs h = elim (consume_char_if-cases c l) [
  | inl (found, moved) ↦
      omega (arith, (Reads-move_forward l.reader c cs h).moved, ap Reader.location moved)
  | inr (missing, same) ↦ absurd (false≢true (sym missing ∙ consume_char_if-found c l cs h))
]

module _ (l : Lexer) (c : ℕ) (cs : List ℕ) (h : l.reader.ahead ≡ c ∷ cs) where
  pub Consumes-name : is_identifier_part c ≡ true → Consumes l (handle_name l)
  unfolding handle_name
  Consumes-name e = record {
    makes = Makes-handle_name l;
    moves = lt-skip_while is_identifier_part l.reader c cs h e;
  }

  after_dot : Lexer
  after_dot = record (consume_char l) { reader = move_backward (consume_char l).reader }

  Consumes-handle_dot_digit : c ≡ b'.' → Consumes l (handle_dot_digit (consume_char l))
  unfolding handle_dot_digit
  Consumes-handle_dot_digit e =
      elim (Bool-cases (peek_is (λ d. is_digit_char d 10) (consume_char l).reader)) [
        | inl digit ↦
            rw (digit, back-forward l c cs h)
              (let m = Makes-handle_decimal_after_dot 0 0 l in
                record {
                  makes = Makes-after (Extends-consume_char_if b'.' l) m;
                  moves =
                      omega (
                        arith,
                        lt-consume_char_if b'.' l cs (rw e at h),
                        Extends-location m.extends,
                      );
                })
        | inr other ↦ rw other (Consumes-consume_char l c cs h (Makes-new_token _ _))
      ]

  pub Consumes-handle_dot : c ≡ b'.' → Consumes l (handle_dot l)
  unfolding handle_dot if_char
  Consumes-handle_dot e = elim (consume_char_if-cases b'.' (consume_char l)) [
    | inl (found, moved) ↦ rw found (
        Consumes-consume_char l c cs h
          (Makes-after (Extends-consume_char_if b'.' _) (Makes-handle_dot_dot _)))
    | inr (missing, same) ↦ rw (missing, same) (Consumes-handle_dot_digit e)
  ]
