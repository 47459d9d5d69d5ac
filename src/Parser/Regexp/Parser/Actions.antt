-- ===== src/Parser/Regexp/Parser/Actions.antt =====
-- The state of aoba/parser/regexp/regexp_parser.cc, the outcomes of its functions, and its helpers.
use aoba.Prelude.{ℕ, Bool, true, false, Option, some, none, List, [], ◌∷◌, ◌++◌, ◌==◌}
use aoba.Ast.TokenKind.{TokenKind, kind_index}
use aoba.Parser.Regexp.Lexer.{
  RegExpErrorCode, RegExpToken, RegExpNode, RegExpLexer, start_regexp_lexer, next_token, literal,
  any_char, char_set, complement_char_set,
}

-- `current` is the lexer's `current_token_`, `last` is `last_token_`, and the errors are those of
-- the lexer, which share its sink.
pub record RegExpParser : Type 0 where
  pub lexer : RegExpLexer
  pub current : Option RegExpToken
  pub last : Option RegExpToken
  pub groups : List ℕ

-- A read of a token or of a character that is not there crashes: a failed DCHECK, or the use of a null
-- pointer.
pub data Outcome (A : Type 0) : Type 0 where
  returned : A → RegExpParser → Outcome A
  crashed : Outcome A
  out_of_fuel : Outcome A

abbrev pub M : Type 0 → Type 0
M A = RegExpParser → Outcome A

infixl 5 ◌>>=◌ ◌>>◌
abbrev pub ◌>>=◌ : {A B : Type 0} → M A → (A → M B) → M B
◌>>=◌ m f p = elim (m p) [ returned a q ↦ f a q | crashed ↦ crashed | out_of_fuel ↦ out_of_fuel ]

abbrev pub ◌>>◌ : {B : Type 0} → M (Unit {0}) → M B → M B
m >> k = m >>= λ _. k

abbrev pub pure : {A : Type 0} → A → M A
pure a p = returned a p

abbrev pub exhausted : {A : Type 0} → M A
exhausted p = out_of_fuel

-- What is there, and else a crash.
abbrev pub expect : {A : Type 0} → Option A → M A
expect none p = crashed
expect (some a) p = returned a p

abbrev pub advance : RegExpParser → Option RegExpToken × RegExpLexer → RegExpParser
advance p (token, l) = record p { lexer = l; current = token }

-- The lexer reads its first token when it is made.
unfoldable pub start_regexp_parser : Bool → ℕ → List ℕ → RegExpParser
start_regexp_parser strict start text =
    let l = start_regexp_lexer strict start text in
    advance (record { lexer = l; current = none; last = none; groups = [] }) (next_token l)

-- `CanPeekToken`.
unfoldable pub can_peek_token : M Bool
can_peek_token p = returned (elim p.current [ none ↦ false | some token ↦ true ]) p

unfoldable pub peek_token : M RegExpToken
peek_token p = expect p.current p

-- A failed DCHECK of the reader crashes.
abbrev pub checked : Bool → RegExpToken → M RegExpToken
checked true token p = crashed
checked false token p = returned token p

abbrev pub consume_current : Option RegExpToken → M RegExpToken
consume_current none p = crashed
consume_current (some token) p =
    checked (next_token p.lexer).1.reader.fault token
      (advance (record p { last = some token }) (next_token p.lexer))

-- `ConsumeToken`.
unfoldable pub consume_token : M RegExpToken
consume_token p = consume_current p.current p

abbrev pub has_kind : TokenKind → RegExpNode → Bool
has_kind kind any_char = false
has_kind kind char_set = false
has_kind kind complement_char_set = false
has_kind kind literal = false
has_kind kind (RegExpNode.assertion a) = false
has_kind kind (RegExpNode.repeat method least most) = false
has_kind kind (RegExpNode.syntax_char k) = kind_index k == kind_index kind

-- `CanPeekToken() && PeekToken() == kind`.
unfoldable pub peek_is_kind : TokenKind → M Bool
peek_is_kind kind p =
    returned (elim p.current [ none ↦ false | some token ↦ has_kind kind token.node ]) p

abbrev pub consume_if : Bool → M Bool
consume_if false = pure false
consume_if true = do token ← consume_token; pure true

-- `ConsumeTokenIf` of a token kind.
unfoldable pub consume_kind : TokenKind → M Bool
consume_kind kind = do found ← peek_is_kind kind; consume_if found

abbrev pub is_repeat : RegExpNode → Bool
is_repeat any_char = false
is_repeat char_set = false
is_repeat complement_char_set = false
is_repeat literal = false
is_repeat (RegExpNode.assertion a) = false
is_repeat (RegExpNode.repeat method least most) = true
is_repeat (RegExpNode.syntax_char k) = false

abbrev pub consume_repeat_if : Bool → M (Option RegExpToken)
consume_repeat_if false = pure none
consume_repeat_if true = do token ← consume_token; pure (some token)

-- `ConsumeTokenIf(RegExpRepeat)`, with the token consumed.
unfoldable pub consume_repeat : M (Option RegExpToken)
consume_repeat p =
    consume_repeat_if (elim p.current [ none ↦ false | some token ↦ is_repeat token.node ]) p

-- A `ScopedNodeFactory` starts where the token ahead starts.
unfoldable pub scope_start : M ℕ
scope_start = do token ← peek_token; pure token.start

-- The range of a `ScopedNodeFactory` ends where the last token ended.
unfoldable pub scope_end : M ℕ
scope_end p = (do token ← expect p.last; pure token.end) p

unfoldable pub last_start : M ℕ
last_start p = (do token ← expect p.last; pure token.start) p

abbrev pub add_error : ℕ → ℕ → RegExpErrorCode → M (Unit {0})
add_error start end code p = returned tt (record p {
  lexer = record p.lexer {
    errors = p.lexer.errors ++ (record { start = start; end = end; code = code } ∷ []);
  };
})

abbrev pub push_group : ℕ → M (Unit {0})
push_group start p = returned tt (record p { groups = start ∷ p.groups })

abbrev pub top : List ℕ → Option ℕ
top [] = none
top (start ∷ starts) = some start

unfoldable pub top_group : M ℕ
top_group p = expect (top p.groups) p

-- `groups_.pop()`, which `ParseParenthesis` calls on a stack that is not empty.
abbrev pub pop_group : M (Unit {0})
pop_group p = elim p.groups [
  | [] ↦ crashed
  | start ∷ starts ↦ returned tt (record p { groups = starts })
]

abbrev pub has_group : M Bool
has_group p = returned (elim p.groups [ [] ↦ false | start ∷ starts ↦ true ]) p

abbrev pub is_strict : M Bool
is_strict p = returned p.lexer.strict p

abbrev pub lexer_location : M ℕ
lexer_location p = returned p.lexer.reader.location p
