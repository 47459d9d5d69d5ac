-- ===== src/Parser/Lexer/Buffer/Reaches.antt =====
-- aoba/parser/lexer/lexer.{h,cc}: the states of `Lexer` that its calls reach, `ExtendTokenAsRegExp`
-- among them.
use mathlib.Core.Path.{subst}
use aoba.Prelude.{
  ℕ, ◌+◌, ◌≤◌, Bool, false, ◌||◌, Option, some, none, List, [], ◌∷◌, ◌≡◌, ◌⊎◌, inl, inr, refl, ap,
  ◌∙◌, length, length-append, arith, ◌==◌, if◌then◌else◌, Bool-cases,
}
use aoba.Ast.TokenKind.{divide, divide_equal, kind_index}
use aoba.Parser.Utils.CharacterReader.{Reader, move_forward}
use aoba.Parser.Utils.CharacterReader.Reads.{
  Reads, Reads-refl, Reads-trans, Reads-move_forward, ahead-move_forward,
}
use aoba.Parser.Lexer.State.{
  Lexer, LexerContext, Token, TokenNode, location, start_lexer, punctuator,
}
use aoba.Parser.Lexer.Comments.{
  extend_token_as_reg_exp, regexp_loop, RegExpState, RegExpStep, regexp_step, go_on, slash, normal,
}
use aoba.Parser.Lexer.Characters.{next_token}
use aoba.Parser.Lexer.Progress.Tokens.{next_token_lem}
use aoba.Parser.Lexer.Buffer.{
  TokenBuffer, buffer_of, start_buffer, consume_token, consume_current, Holds, next_token-Holds,
  next_token-limit,
}

abbrev pub is_slash : TokenNode → Bool
is_slash (punctuator kind) =
    kind_index kind == kind_index divide || kind_index kind == kind_index divide_equal
is_slash node = false

abbrev pub extended : Token × Lexer → TokenBuffer
extended (token, l) = record { lexer = l; current = some token }

abbrev pub extend_current : Option Token → TokenBuffer → Option TokenBuffer
extend_current none b = none
extend_current (some token) b =
    if is_slash token.node then some (extended (extend_token_as_reg_exp token b.lexer)) else none

-- `Lexer::ExtendTokenAsRegExp` on the token ahead, and `none` where its DCHECK fails.
unfoldable pub extend_token : TokenBuffer → Option TokenBuffer
extend_token b = extend_current b.current b

-- What the calls of a parser make of the lexer of a text.
pub data Reaches (context : LexerContext) (start : ℕ) (text : List ℕ) : TokenBuffer → Type 0 where
  begin : Reaches context start text (start_buffer context start text)
  consuming :
      {b : TokenBuffer} (token : Token) (next : TokenBuffer)
      → Reaches context start text b
      → consume_token context b ≡ some (token, next)
      → Reaches context start text next
  extending :
      {b : TokenBuffer} (next : TokenBuffer)
      → Reaches context start text b
      → extend_token b ≡ some next
      → Reaches context start text next

-- The token ahead lies between `start` and `limit` and ends at the lexer's location; where there is
-- none, that location is `limit`.
abbrev pub WellPlaced : ℕ → ℕ → TokenBuffer → Type 0
WellPlaced start limit b =
    Holds start b.current b.lexer × (location b.lexer + length b.lexer.reader.ahead ≡ limit)

Holds-from :
    (from from' : ℕ) (current : Option Token) (l : Lexer)
    → from ≤ from'
    → Holds from' current l
    → Holds from current l
Holds-from from from' none l h (a, b) = (a, omega (arith, h, b))
Holds-from from from' (some token) l h (a, b, e) = (omega (arith, h, a), b, e)

Holds-location :
    (from : ℕ) (current : Option Token) (l : Lexer) → Holds from current l → from ≤ location l
Holds-location from none l (a, b) = b
Holds-location from (some token) l (a, b, e) = omega (arith, a, b, e)

WellPlaced-next_token :
    (context : LexerContext) (start limit : ℕ) (l : Lexer)
    → start ≤ location l
    → location l + length l.reader.ahead ≡ limit
    → WellPlaced start limit (buffer_of (next_token context l))
WellPlaced-next_token context start limit l h e =
    let made = next_token context l in
    let returns = next_token_lem context l in
    (
      Holds-from start (location l) made.0 made.1 h (next_token-Holds l made returns),
      next_token-limit l made returns ∙ e,
    )

some-eq {ℓ} : {A : Type ℓ} (a b : A) → some a ≡ some b → a ≡ b
some-eq a b e = cc

WellPlaced-consume :
    (context : LexerContext) (start limit : ℕ) (current : Option Token) (l : Lexer) (token : Token)
    (next : TokenBuffer)
    → WellPlaced start limit (record { lexer = l; current = current })
    → consume_current context current (record { lexer = l; current = current }) ≡ some (token, next)
    → WellPlaced start limit next
WellPlaced-consume context start limit none l token next h e = cc
WellPlaced-consume context start limit (some t) l token next (h, total) e =
    elim (Bool-cases (next_token context l).1.reader.fault) [
      | inl failed ↦ let f = rw failed at e in cc
      | inr met ↦
          subst (WellPlaced start limit)
            (ap (λ r. r.1)
              (some-eq (t, buffer_of (next_token context l)) (token, next) (rw met at e)))
            (WellPlaced-next_token context start limit l (Holds-location start (some t) l h) total)
    ]

RegExpStep-cases :
    (step : RegExpStep) → (step ≡ slash) ⊎ ((next : RegExpState) × (step ≡ go_on next))
RegExpStep-cases slash = inl refl
RegExpStep-cases (go_on next) = inr (next, refl)

regexp_loop-Reads :
    (cs : List ℕ) (state : RegExpState) (r : Reader)
    → r.ahead ≡ cs
    → (w : List ℕ) × Reads r w (regexp_loop cs state r).reader
unfolding regexp_loop
regexp_loop-Reads [] state r h = ([], Reads-refl r)
regexp_loop-Reads (c ∷ cs) state r h = elim (RegExpStep-cases (regexp_step state c)) [
  | inl e ↦ rw (regexp_loop, e) (c ∷ [], Reads-move_forward r c cs h)
  | inr (next, e) ↦
      let (w, reads) = regexp_loop-Reads cs next (move_forward r) (ahead-move_forward r c cs h) in
      rw (regexp_loop, e) (c ∷ w, Reads-trans (c ∷ []) w (Reads-move_forward r c cs h) reads)
]

-- The token that is extended keeps its start, and ends where the lexer then is.
pub extend_token_as_reg_exp-Reads :
    (token : Token) (l : Lexer)
    → ((w : List ℕ) × Reads l.reader w (extend_token_as_reg_exp token l).1.reader)
      × ((extend_token_as_reg_exp token l).0.start ≡ token.start)
      × ((extend_token_as_reg_exp token l).0.end ≡ location (extend_token_as_reg_exp token l).1)
unfolding extend_token_as_reg_exp
extend_token_as_reg_exp-Reads token l =
    elim (Bool-cases (regexp_loop l.reader.ahead normal l.reader).closed) [
      | inl e ↦ rw e (regexp_loop-Reads l.reader.ahead normal l.reader refl, refl, refl)
      | inr e ↦ rw e (regexp_loop-Reads l.reader.ahead normal l.reader refl, refl, refl)
    ]

WellPlaced-extended :
    (start limit : ℕ) (l : Lexer) (token : Token)
    → WellPlaced start limit (record { lexer = l; current = some token })
    → WellPlaced start limit (extended (extend_token_as_reg_exp token l))
WellPlaced-extended start limit l token ((a, b, e), total) =
    let made = extend_token_as_reg_exp token l in
    let ((w, reads), from, end) = extend_token_as_reg_exp-Reads token l in
    (
      (omega (arith, a, from), omega (arith, b, e, from, end, reads.moved), end),
      omega (
        arith,
        total,
        reads.moved,
        ap length reads.text,
        length-append {0} w made.1.reader.ahead,
      ),
    )

WellPlaced-extend :
    (start limit : ℕ) (current : Option Token) (l : Lexer) (next : TokenBuffer)
    → WellPlaced start limit (record { lexer = l; current = current })
    → extend_current current (record { lexer = l; current = current }) ≡ some next
    → WellPlaced start limit next
WellPlaced-extend start limit none l next h e = cc
WellPlaced-extend start limit (some token) l next h e = elim (Bool-cases (is_slash token.node)) [
  | inl found ↦
      subst (WellPlaced start limit)
        (some-eq (extended (extend_token_as_reg_exp token l)) next (rw found at e))
        (WellPlaced-extended start limit l token h)
  | inr other ↦ let f = rw other at e in cc
]

-- Whatever calls of `ConsumeToken` and `ExtendTokenAsRegExp` are made, in any order, the token
-- ahead is not empty, lies in the range and ends at the lexer's location, and where there is no
-- token ahead the lexer is at the end of the range.
pub Reaches-WellPlaced :
    (context : LexerContext) (start : ℕ) (text : List ℕ) (b : TokenBuffer)
    → Reaches context start text b
    → WellPlaced start (start + length text) b
unfolding start_buffer consume_token extend_token
Reaches-WellPlaced context start text b begin =
    WellPlaced-next_token context start (start + length text) (start_lexer start text) (omega arith)
      refl
Reaches-WellPlaced context start text b (consuming {b = c} token next r e) =
    WellPlaced-consume context start (start + length text) c.current c.lexer token next
      (Reaches-WellPlaced context start text c r) e
Reaches-WellPlaced context start text b (extending {b = c} next r e) =
    WellPlaced-extend start (start + length text) c.current c.lexer next
      (Reaches-WellPlaced context start text c r) e
