-- ===== src/Parser/Lexer/Tests.antt =====
-- Runs of the lexer, and its theorems at concrete inputs.
use aoba.Prelude.{ℕ, zero, suc, false, some, none, Option, List, [], ◌∷◌, ◌≡◌, refl}
use aoba.Ast.TokenKind.{codes, unsigned_right_shift_equal, modulo_equal, equal_equal}
use aoba.Prelude.Int.{pos}
use aoba.Parser.Lexer.State.{
  Lexer, LexerContext, LexerError, Token, TokenNode, start_lexer, comment, name, string_literal,
  numeric_literal, punctuator, integer, decimal,
}
use aoba.Parser.Lexer.Characters.{next_token}
use aoba.Parser.Lexer.Buffer.Reaches.{
  Reaches, begin, extending, extend_token, WellPlaced, Reaches-WellPlaced,
}
use aoba.Ast.TokenKind.{kind_index}
use aoba.Parser.Lexer.Buffer.{
  TokenBuffer, drain, start_buffer, Drained, drain-Drained, at_end-MeetsChecks, lexed, MeetsChecks,
}
use aoba.Parser.Lexer.RoundTrip.{print, read_nodes, read_nodes-print}
use aoba.Parser.Lexer.Progress.Tokens.{ReadsOn, TokenWithin, next_token-Returns}

abbrev context : LexerContext
context = record { enable_strict_backslash = false }

-- The tokens of a text, and the errors.
tokens : ℕ → Lexer → List Token × List LexerError
tokens zero l = ([], l.errors)
tokens (suc n) l =
    let (t, l') = next_token context l in
    elim t [
      | none ↦ ([], l'.errors)
      | some token ↦ let (rest, errors) = tokens n l' in (token ∷ rest, errors)
    ]

abbrev token : ℕ → ℕ → TokenNode → Token
token start end node = record { start = start; end = end; node = node }

tokens_of_a_line :
    tokens 9 (start_lexer 0 (codes "a >>>= 0x1f 12 /* x */ 'q\\u0041' // zz\n == %=")) ≡ (
      token 0 1 name
          ∷ token 2 6 (punctuator unsigned_right_shift_equal)
          ∷ token 7 11 (numeric_literal (integer 31))
          ∷ token 12 14 (numeric_literal (decimal 12 (pos 0) 0))
          ∷ token 15 22 comment
          ∷ token 23 32 string_literal
          ∷ token 33 39 comment
          ∷ token 40 42 (punctuator equal_equal)
          ∷ token 43 45 (punctuator modulo_equal)
          ∷ [],
      [],
    )
unfolding tokens next_token
tokens_of_a_line = refl

-- The exponent of a decimal literal without a sign is lost.
exponent_without_sign :
    tokens 2 (start_lexer 0 (codes "12e3"))
    ≡ (token 0 4 (numeric_literal (decimal 12 (pos 0) 0)) ∷ [], [])
unfolding tokens next_token
exponent_without_sign = refl

next_token-Returns_example :
    ReadsOn (start_lexer 0 (codes " +x")) (next_token context (start_lexer 0 (codes " +x"))).1
    × TokenWithin (start_lexer 0 (codes " +x")) (next_token context (start_lexer 0 (codes " +x")))
unfolding next_token
next_token-Returns_example = next_token-Returns context (start_lexer 0 (codes " +x")) refl

read_nodes-print_example :
    read_nodes context 4
      (start_lexer 7 (print (unsigned_right_shift_equal ∷ modulo_equal ∷ equal_equal ∷ [])))
    ≡ (
      punctuator unsigned_right_shift_equal ∷ punctuator modulo_equal ∷ punctuator equal_equal ∷ [],
      [],
    )
read_nodes-print_example =
    read_nodes-print context (unsigned_right_shift_equal ∷ modulo_equal ∷ equal_equal ∷ [])
      (start_lexer 7 (print (unsigned_right_shift_equal ∷ modulo_equal ∷ equal_equal ∷ []))) refl
      refl

a_shift-MeetsChecks : MeetsChecks context (start_lexer 3 (codes "a >>x"))
unfolding next_token
a_shift-MeetsChecks zero = refl
a_shift-MeetsChecks (suc zero) = refl
a_shift-MeetsChecks (suc (suc zero)) = refl
a_shift-MeetsChecks (suc (suc (suc k))) =
    at_end-MeetsChecks context (lexed context 3 (start_lexer 3 (codes "a >>x"))) refl refl k

drain-Drained_example : Drained 3 8 (drain context 5 (start_buffer context 3 (codes "a >>x")))
drain-Drained_example = drain-Drained context 3 (codes "a >>x") a_shift-MeetsChecks

abbrev division : TokenBuffer
division = start_buffer context 0 (codes "/[/]/ x")

abbrev or_else : Option TokenBuffer → TokenBuffer
or_else none = division
or_else (some b) = b

-- The slash ahead is extended to the regular expression.
regexp_reached : Reaches context 0 (codes "/[/]/ x") (or_else (extend_token division))
unfolding extend_token start_buffer next_token kind_index
regexp_reached = extending (or_else (extend_token division)) begin refl

Reaches-WellPlaced_example : WellPlaced 0 7 (or_else (extend_token division))
Reaches-WellPlaced_example =
    Reaches-WellPlaced context 0 (codes "/[/]/ x") (or_else (extend_token division)) regexp_reached
