-- ===== src/Parser/Lexer/Buffer.antt =====
-- aoba/parser/lexer/lexer.{h,cc}: the token that `Lexer` keeps ahead, and the tokens of a whole
-- range.
pub mod Reaches
use aoba.Prelude.{
  false, if◌then◌else◌, ℕ, zero, suc, ◌+◌, ◌≤◌, ◌<◌, Option, some, none, List, [], ◌∷◌, ◌≡◌, refl,
  ap, sym, ◌∙◌, length, length-append, arith,
}
use mathlib.Core.Path.{subst}
use aoba.Parser.Lexer.State.{Lexer, LexerContext, Token, location, start_lexer}
use aoba.Parser.Lexer.Characters.{next_token}
use aoba.Parser.Lexer.Progress.Tokens.{Returns, next_token_lem}

-- `current` is `current_token_`.
pub record TokenBuffer : Type 0 where
  pub lexer : Lexer
  pub current : Option Token

abbrev pub buffer_of : Option Token × Lexer → TokenBuffer
buffer_of (token, l) = record { lexer = l; current = token }

-- The constructor of `Lexer`.
unfoldable pub start_buffer : LexerContext → ℕ → List ℕ → TokenBuffer
start_buffer context start text = buffer_of (next_token context (start_lexer start text))

-- A failed DCHECK of the reader leaves no buffer.
abbrev pub checked : Token → TokenBuffer → Option (Token × TokenBuffer)
checked token next = if next.lexer.reader.fault then none else some (token, next)

abbrev pub consume_current :
    LexerContext → Option Token → TokenBuffer → Option (Token × TokenBuffer)
consume_current context none b = none
consume_current context (some token) b = checked token (buffer_of (next_token context b.lexer))

-- `Lexer::ConsumeToken`, and `none` where a DCHECK of it or of the reader fails.
unfoldable pub consume_token : LexerContext → TokenBuffer → Option (Token × TokenBuffer)
consume_token context b = consume_current context b.current b

-- The lexer after some calls of `NextToken`.
abbrev pub lexed : LexerContext → ℕ → Lexer → Lexer
lexed context zero l = l
lexed context (suc k) l = lexed context k (next_token context l).1

-- However many calls of `NextToken` are made, no DCHECK of the reader or of the parser of documents
-- fails.
abbrev pub MeetsChecks : LexerContext → Lexer → Type 0
MeetsChecks context l = (k : ℕ) → (lexed context k l).reader.fault ≡ false

-- At the end of the range NextToken leaves the reader as it is.
next_token-at_end :
    (context : LexerContext) (l : Lexer)
    → l.reader.ahead ≡ []
    → (next_token context l).1.reader ≡ l.reader
unfolding next_token
next_token-at_end context l e = rw e

pub at_end-MeetsChecks :
    (context : LexerContext) (l : Lexer)
    → l.reader.ahead ≡ []
    → l.reader.fault ≡ false
    → MeetsChecks context l
at_end-MeetsChecks context l e met zero = met
at_end-MeetsChecks context l e met (suc k) =
    at_end-MeetsChecks context (next_token context l).1 (rw (next_token-at_end context l e) e)
      (rw (next_token-at_end context l e) met) k

-- `while (lexer.CanPeekToken()) tokens.push_back(lexer.ConsumeToken());`
abbrev drain_on :
    (TokenBuffer → List Token × TokenBuffer)
    → TokenBuffer
    → Option (Token × TokenBuffer)
    → List Token × TokenBuffer
drain_on loop b none = ([], b)
drain_on loop b (some (token, next)) = let (tokens, last) = loop next in (token ∷ tokens, last)

unfoldable pub drain : LexerContext → ℕ → TokenBuffer → List Token × TokenBuffer
drain context zero b = ([], b)
drain context (suc k) b = drain_on (drain context k) b (consume_token context b)

-- Nonempty tokens between two locations, none of which begins before the one ahead of it ends.
abbrev pub Ordered : ℕ → List Token → ℕ → Type 0
Ordered from [] to = from ≤ to
Ordered from (token ∷ tokens) to =
    (from ≤ token.start) × (token.start < token.end) × Ordered token.end tokens to

-- The token ahead begins at `from` or behind it, and ends where the lexer is; where there is none,
-- the range is at its end.
abbrev pub Holds : ℕ → Option Token → Lexer → Type 0
Holds from none l = (l.reader.ahead ≡ []) × (from ≤ location l)
Holds from (some token) l =
    (from ≤ token.start) × (token.start < token.end) × (token.end ≡ location l)

abbrev pub left_at : Option Token → Lexer → ℕ
left_at none l = 0
left_at (some token) l = suc (length l.reader.ahead)

pub next_token-Holds :
    (l : Lexer) (made : Option Token × Lexer) → Returns l made → Holds (location l) made.0 made.1
next_token-Holds l (none, m) (r, a) = (a, omega (arith, r.reads.moved))
next_token-Holds l (some token, m) (r, (a, b, e)) = (a, b, e)

pub next_token-left_at :
    (l : Lexer) (made : Option Token × Lexer)
    → Returns l made
    → left_at made.0 made.1 ≤ length l.reader.ahead
next_token-left_at l (none, m) (r, a) = omega arith
next_token-left_at l (some token, m) (r, (a, b, e)) =
    omega (
      arith,
      a,
      b,
      e,
      r.reads.moved,
      ap length r.reads.text,
      length-append {0} r.read m.reader.ahead,
    )

-- The tokens lie in order between `from` and `limit`, and nothing is left.
abbrev pub Drained : ℕ → ℕ → List Token × TokenBuffer → Type 0
Drained from limit (tokens, b) =
    Ordered from tokens limit × (b.current ≡ none) × (location b.lexer ≡ limit)

Drained-token :
    (token : Token) (from from' limit limit' : ℕ) (rest : List Token × TokenBuffer)
    → from ≤ token.start
    → token.start < token.end
    → token.end ≡ from'
    → limit' ≡ limit
    → Drained from' limit' rest
    → Drained from limit (token ∷ rest.0, rest.1)
Drained-token token from from' limit limit' rest a b e f (ordered, ended, at_limit) = (
  (
    a,
    b,
    subst (λ z. Ordered token.end rest.0 z) f
        (subst (λ z. Ordered z rest.0 limit') (sym e) ordered),
  ),
  ended,
  at_limit ∙ f,
)

pub next_token-limit :
    (l : Lexer) (made : Option Token × Lexer)
    → Returns l made
    → location made.1 + length made.1.reader.ahead ≡ location l + length l.reader.ahead
next_token-limit l made (r, a) =
    omega
      (arith, r.reads.moved, ap length r.reads.text, length-append {0} r.read made.1.reader.ahead)

drain-end :
    (from : ℕ) (l : Lexer)
    → Holds from none l
    → Drained from (location l + length l.reader.ahead) ([], record { lexer = l; current = none })
drain-end from l (a, b) = (omega (arith, b), refl, omega (arith, ap length a))

drain_lem :
    (context : LexerContext) (k from : ℕ) (current : Option Token) (l : Lexer)
    → MeetsChecks context l
    → Holds from current l
    → left_at current l ≤ k
    → Drained from
        (location l + length l.reader.ahead)
        (drain context k (record { lexer = l; current = current }))
unfolding drain consume_token
drain_lem context zero from none l m p h = drain-end from l p
drain_lem context zero from (some token) l m p h = absurd (omega (arith, h))
drain_lem context (suc k) from none l m p h = drain-end from l p
drain_lem context (suc k) from (some token) l m (a, b, e) h =
    let made = next_token context l in
    let returns = next_token_lem context l in
    rw (m 1) (
      Drained-token token from (location l) _ _ (drain context k (buffer_of made)) a b e
        (next_token-limit l made returns)
        (drain_lem context k (location l) made.0 made.1 (λ i. m (suc i))
          (next_token-Holds l made returns) (omega (arith, next_token-left_at l made returns, h))))

-- Where no DCHECK of the reader or of the parser of documents fails on it, the tokens of a text,
-- consumed one by one until there is none ahead, end after at most as many
-- as there are characters: they are not empty, lie in order in the range without overlap, and the
-- lexer is left at the end of the range with no token.
pub drain-Drained :
    (context : LexerContext) (start : ℕ) (text : List ℕ)
    → MeetsChecks context (start_lexer start text)
    → Drained start
        (start + length text)
        (drain context (length text) (start_buffer context start text))
unfolding start_buffer
drain-Drained context start text m =
    let l = start_lexer start text in
    let made = next_token context l in
    let returns = next_token_lem context l in
    subst (λ z. Drained start z (drain context (length text) (start_buffer context start text)))
      (next_token-limit l made returns)
      (drain_lem context (length text) start made.0 made.1 (λ i. m (suc i))
        (next_token-Holds l made returns) (next_token-left_at l made returns))
