-- ===== src/Parser/Lexer/RoundTrip.antt =====
-- aoba/parser/lexer/lexer.cc and aoba/ast/lexical_grammar.h: punctuators that are printed with
-- their spelling are read back.
use aoba.Prelude.{
  ℕ, zero, suc, ◌+◌, Bool, true, false, some, none, List, [], ◌∷◌, ◌++◌, ◌&&◌, ◌≡◌, ◌∙◌, drop, sym,
  refl, length, Option, reverse_onto, ap, arith,
}
use aoba.Ast.TokenKind.{TokenKind, spelling, invalid, dot_dot, post_plus_plus, post_minus_minus}
use aoba.Parser.Lexer.State.{Lexer, LexerContext, LexerError, Token, TokenNode, punctuator}
use aoba.Parser.Lexer.Characters.{next_token, next_token_loop}

-- `invalid` and `dot_dot` are no tokens, and the two postfix operators are what the parser makes of
-- an operator that it finds behind an operand.
abbrev pub is_lexed : TokenKind → Bool
is_lexed invalid = false
is_lexed dot_dot = false
is_lexed post_plus_plus = false
is_lexed post_minus_minus = false
is_lexed kind = true

-- The location behind a text.
abbrev walk : List ℕ → ℕ → ℕ
walk [] n = n
walk (c ∷ cs) n = walk cs (n + 1)

walk_lem : (cs : List ℕ) (n : ℕ) → walk cs n ≡ n + length cs
walk_lem [] n = omega arith
walk_lem (c ∷ cs) n = omega (arith, walk_lem cs (n + 1))

abbrev at_text : List ℕ → Lexer → Lexer
at_text text l = record l { reader = record l.reader { ahead = text } }

-- `l` behind a space and the text `past`, with `ahead` left.
abbrev after : Lexer → List ℕ → List ℕ → Lexer
after l past ahead = record l {
  reader = record l.reader {
    behind = reverse_onto past (32 ∷ l.reader.behind);
    ahead = ahead;
    location = walk past (l.reader.location + 1);
  };
  token_start = l.reader.location + 1;
  is_separated_by_newline = false;
}

next_token_loop-fuel :
    (context : LexerContext) (l : Lexer) (n : ℕ)
    → length l.reader.ahead + 1 ≡ n
    → next_token context l
      ≡ next_token_loop context n (record l { is_separated_by_newline = false })
unfolding next_token
next_token_loop-fuel context l n h =
    ap (λ n. next_token_loop context n (record l { is_separated_by_newline = false })) h

next_token_loop-text :
    (context : LexerContext) (l : Lexer) (text : List ℕ)
    → l.reader.ahead ≡ text
    → next_token context l
      ≡ next_token_loop context
          (suc (length text))
          (record (at_text text l) { is_separated_by_newline = false })
next_token_loop-text context l text h =
    next_token_loop-fuel context l (suc (length l.reader.ahead)) (omega arith)
    ∙ ap
        (λ t.
          next_token_loop context (suc (length t))
            (record (at_text t l) { is_separated_by_newline = false }))
        h

module _ (context : LexerContext) (l : Lexer) (rest : List ℕ) where
  abbrev Reads : TokenKind → Type 0
  Reads kind =
      next_token_loop context (suc (length (32 ∷ spelling kind ++ 32 ∷ rest)))
        (record (at_text (32 ∷ spelling kind ++ 32 ∷ rest) l) { is_separated_by_newline = false })
      ≡ (
        some (record {
          start = l.reader.location + 1;
          end = walk (spelling kind) (l.reader.location + 1);
          node = punctuator kind;
        }),
        after l (spelling kind) (32 ∷ rest),
      )

  loop-spelling : (kind : TokenKind) → is_lexed kind ≡ true → Reads kind
  unfolding next_token
  loop-spelling TokenKind.invalid h = absurd (ground (arith, h))
  loop-spelling TokenKind.dot_dot h = absurd (ground (arith, h))
  loop-spelling TokenKind.post_plus_plus h = absurd (ground (arith, h))
  loop-spelling TokenKind.post_minus_minus h = absurd (ground (arith, h))
  loop-spelling kind h = refl

  -- The token of a spelling between two spaces, and the lexer at the second space.
  next_token-spelling :
      (kind : TokenKind)
      → is_lexed kind ≡ true
      → l.reader.ahead ≡ 32 ∷ spelling kind ++ 32 ∷ rest
      → next_token context l ≡ (
        some (record {
          start = l.reader.location + 1;
          end = walk (spelling kind) (l.reader.location + 1);
          node = punctuator kind;
        }),
        after l (spelling kind) (32 ∷ rest),
      )
  next_token-spelling kind h e =
      next_token_loop-text context l (32 ∷ spelling kind ++ 32 ∷ rest) e ∙ loop-spelling kind h

-- Punctuators with a space before each, and one at the end.
abbrev pub print : List TokenKind → List ℕ
print [] = 32 ∷ []
print (kind ∷ kinds) = 32 ∷ spelling kind ++ print kinds

abbrev pub are_lexed : List TokenKind → Bool
are_lexed [] = true
are_lexed (kind ∷ kinds) = is_lexed kind && are_lexed kinds

abbrev behind_token :
    (Lexer → List TokenNode × List LexerError)
    → Option Token × Lexer
    → List TokenNode × List LexerError
behind_token next (none, l) = ([], l.errors)
behind_token next (some token, l) = let (nodes, errors) = next l in (token.node ∷ nodes, errors)

-- The nodes of the first `n` tokens, and the errors.
unfoldable pub read_nodes : LexerContext → ℕ → Lexer → List TokenNode × List LexerError
read_nodes context zero l = ([], l.errors)
read_nodes context (suc n) l = behind_token (read_nodes context n) (next_token context l)

abbrev pub nodes_of : List TokenKind → List TokenNode
nodes_of [] = []
nodes_of (kind ∷ kinds) = punctuator kind ∷ nodes_of kinds

and-left : (a b : Bool) → (a && b) ≡ true → a ≡ true
and-left true b h = refl
and-left false b h = h

and-right : (a b : Bool) → (a && b) ≡ true → b ≡ true
and-right true b h = h
and-right false b h = absurd (ground (arith, h))

print-space : (kinds : List TokenKind) → print kinds ≡ 32 ∷ drop 1 (print kinds)
print-space [] = refl
print-space (kind ∷ kinds) = refl

read_nodes-end :
    (context : LexerContext) (l : Lexer)
    → l.reader.ahead ≡ 32 ∷ []
    → read_nodes context 1 l ≡ ([], l.errors)
unfolding read_nodes next_token
read_nodes-end context l e =
    ap (behind_token (read_nodes context 0)) (next_token_loop-text context l (32 ∷ []) e)

-- Lexed punctuators that are printed with a space before each are read back, in order and with no
-- error, by `NextToken` from any state of the lexer whose text is that print.
pub read_nodes-print :
    (context : LexerContext) (kinds : List TokenKind) (l : Lexer)
    → are_lexed kinds ≡ true
    → l.reader.ahead ≡ print kinds
    → read_nodes context (suc (length kinds)) l ≡ (nodes_of kinds, l.errors)
unfolding read_nodes
read_nodes-print context [] l h e = read_nodes-end context l e
read_nodes-print context (kind ∷ kinds) l h e =
    let rest = drop 1 (print kinds) in
    ap (behind_token (read_nodes context (suc (length kinds)))) (
      next_token-spelling context l rest kind (and-left (is_lexed kind) (are_lexed kinds) h)
        (e ∙ ap (λ t. 32 ∷ spelling kind ++ t) (print-space kinds)))
    ∙ ap (λ r. (punctuator kind ∷ r.0, r.1))
        (read_nodes-print context kinds (after l (spelling kind) (32 ∷ rest))
          (and-right (is_lexed kind) (are_lexed kinds) h) (sym (print-space kinds)))
