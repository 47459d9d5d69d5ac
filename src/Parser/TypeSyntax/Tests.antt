-- ===== src/Parser/TypeSyntax/Tests.antt =====
-- Runs of the lexer of type annotations, and its theorem at a concrete input.
use aoba.Prelude.{ℕ, zero, suc, some, none, List, [], ◌∷◌, ◌≡◌, refl}
use aoba.Ast.TokenKind.{codes, less_than, greater_than}
use aoba.Parser.Utils.CharacterReader.{fold_while, skip_while, move_forward}
use aoba.Parser.Utils.LexerUtils.{is_whitespace, is_identifier_start, is_identifier_part}
use aoba.Parser.TypeSyntax.Lexer.{
  next_token_loop, skip_whitespace, handle_character, handle_other, handle_name, handle_punctuator,
  TypeLexer, TypeToken, TypeNode, UnexpectDot, start_type_lexer, next_token, name, punctuator,
  js_doc,
}
use aoba.Parser.TypeSyntax.Lexer.Progress.{TokenWithin, next_token-TokenWithin}

abbrev annotation : TypeLexer
annotation = start_type_lexer js_doc 0 (codes "Array<\n * number>")

-- The tokens of an annotation, and the errors.
tokens : ℕ → TypeLexer → List TypeToken × List UnexpectDot
tokens zero l = ([], l.errors)
tokens (suc n) l =
    let (t, m) = next_token l in
    elim t [
      | none ↦ ([], m.errors)
      | some token ↦ let (rest, errors) = tokens n m in (token ∷ rest, errors)
    ]

abbrev token : ℕ → ℕ → TypeNode → TypeToken
token start end node = record { start = start; end = end; node = node }

tokens_of_an_annotation : tokens 9 annotation ≡ (
  token 0 5 name
      ∷ token 5 6 (punctuator less_than)
      ∷ token 10 16 name
      ∷ token 16 17 (punctuator greater_than)
      ∷ [],
  [],
)
unfolding tokens next_token next_token_loop skip_whitespace handle_character handle_other
    handle_name handle_punctuator fold_while is_whitespace is_identifier_start skip_while
    move_forward is_identifier_part
tokens_of_an_annotation = refl

next_token-TokenWithin_example : TokenWithin annotation (next_token annotation)
next_token-TokenWithin_example = next_token-TokenWithin annotation
