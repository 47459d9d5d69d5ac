-- ===== src/Parser/Regexp/Parser/Fuel.antt =====
-- aoba/parser/regexp/regexp_parser.cc: the text that is left, and what the helpers of the parser leave.
use aoba.Prelude.{
  ℕ, ◌+◌, ◌≤◌, ◌<◌, Bool, true, false, Option, some, none, ◌≡◌, refl, sym, ap, length,
  length-append, if◌then◌else◌, arith,
}
use aoba.Ast.TokenKind.{TokenKind}
use mathlib.Core.Path.{subst}
use aoba.Parser.Regexp.Lexer.{RegExpToken, RegExpLexer, next_token}
use aoba.Parser.Regexp.Lexer.Progress.{Tiles, next_token_lem}
use aoba.Parser.Regexp.Parser.Actions.{
  RegExpParser, Outcome, returned, crashed, out_of_fuel, M, ◌>>=◌, pure, advance, expect,
  peek_token, consume_token, consume_current, checked, peek_is_kind, consume_if, consume_kind,
  is_repeat, consume_repeat_if, consume_repeat, scope_start, scope_end, last_start, top_group,
  has_kind,
}

-- The characters ahead, and the token that is read already.
abbrev pub remaining : RegExpParser → ℕ
remaining p = length p.lexer.reader.ahead + elim p.current [ none ↦ 0 | some token ↦ 1 ]

-- The outcome has fuel, and what is returned is as `P` says.
abbrev pub Ends : {A : Type 0} → (A → RegExpParser → Type 0) → Outcome A → Type 0
Ends P (returned a q) = P a q
Ends P crashed = Unit {0}
Ends P out_of_fuel = ⊥

abbrev pub AtMost : {A : Type 0} → ℕ → A → RegExpParser → Type 0
AtMost b a q = remaining q ≤ b

abbrev pub Same : {A : Type 0} → RegExpParser → A → RegExpParser → Type 0
Same p a q = q ≡ p

abbrev pub Less : {A : Type 0} → ℕ → A → RegExpParser → Type 0
Less b a q = remaining q < b

pub Ends-bind :
    {A B : Type 0} (P : A → RegExpParser → Type 0) (Q : B → RegExpParser → Type 0) (o : Outcome A)
    (f : A → M B) (p : RegExpParser)
    → Ends P o
    → ((a : A) (q : RegExpParser) → P a q → Ends Q (f a q))
    → Ends Q (((λ x. o) >>= f) p)
Ends-bind P Q (returned a q) f p h k = k a q h
Ends-bind P Q crashed f p h k = tt
Ends-bind P Q out_of_fuel f p h k = h

pub Ends-weaken :
    {A : Type 0} (P Q : A → RegExpParser → Type 0) (o : Outcome A)
    → Ends P o
    → ((a : A) (q : RegExpParser) → P a q → Q a q)
    → Ends Q o
Ends-weaken P Q (returned a q) h k = k a q h
Ends-weaken P Q crashed h k = tt
Ends-weaken P Q out_of_fuel h k = h

pub Ends-if :
    {A : Type 0} (P : A → RegExpParser → Type 0) (c : Bool) (f g : M A) (p : RegExpParser)
    → (c ≡ true → Ends P (f p))
    → (c ≡ false → Ends P (g p))
    → Ends P ((if c then f else g) p)
Ends-if P true f g p h k = h refl
Ends-if P false f g p h k = k refl

advance-lt :
    (p : RegExpParser) (made : Option RegExpToken × RegExpLexer)
    → Tiles p.lexer made
    → remaining (advance p made) ≤ length p.lexer.reader.ahead
advance-lt p (none, l) h = rw h.1 (omega arith)
advance-lt p (some token, l) (ne, start, nonempty, end, read) = omega (
  arith,
  start,
  nonempty,
  end,
  read.1.moved,
  ap length read.1.text,
  length-append {0} read.0 l.reader.ahead,
)

checked-Ends :
    (failed : Bool) (token : RegExpToken) (p : RegExpParser) (b : ℕ)
    → remaining p < b
    → Ends (Less b) (checked failed token p)
checked-Ends true token p b h = tt
checked-Ends false token p b h = h

consume_current-Ends :
    (o : Option RegExpToken) (p : RegExpParser) (b : ℕ)
    → remaining (record p { current = o }) ≤ b
    → Ends (Less b) (consume_current o p)
consume_current-Ends none p b h = tt
consume_current-Ends (some token) p b h =
    checked-Ends (next_token p.lexer).1.reader.fault token
      (advance (record p { last = some token }) (next_token p.lexer)) b
      (omega (
        arith,
        h,
        advance-lt (record p { last = some token }) (next_token p.lexer) (next_token_lem p.lexer),
      ))

pub consume_token-Ends :
    (p : RegExpParser) (b : ℕ) → remaining p ≤ b → Ends (Less b) (consume_token p)
unfolding consume_token
consume_token-Ends p b h = consume_current-Ends p.current p b h

abbrev pub IfFound : ℕ → Bool → RegExpParser → Type 0
IfFound b found q = (found ≡ true → remaining q < b) × (remaining q ≤ b)

consume_if-Ends :
    (found : Bool) (p : RegExpParser) (b : ℕ)
    → remaining p ≤ b
    → Ends (IfFound b) (consume_if found p)
consume_if-Ends false p b h = ((λ e. cc), h)
consume_if-Ends true p b h =
    Ends-bind (Less b) (IfFound b) (consume_token p) (λ token. pure true) p
      (consume_token-Ends p b h) (λ a q lt. ((λ e. lt), omega (arith, lt)))

pub consume_kind-Ends :
    (kind : TokenKind) (p : RegExpParser) (b : ℕ)
    → remaining p ≤ b
    → Ends (IfFound b) (consume_kind kind p)
unfolding consume_kind peek_is_kind
consume_kind-Ends kind p b h =
    consume_if-Ends (elim p.current [ none ↦ false | some token ↦ has_kind kind token.node ]) p b h

consume_repeat_if-Ends :
    (found : Bool) (p : RegExpParser) (b : ℕ)
    → remaining p ≤ b
    → Ends (AtMost b) (consume_repeat_if found p)
consume_repeat_if-Ends false p b h = h
consume_repeat_if-Ends true p b h =
    Ends-bind (Less b) (AtMost b) (consume_token p) (λ token. pure (some token)) p
      (consume_token-Ends p b h) (λ a q lt. omega (arith, lt))

pub consume_repeat-Ends :
    (p : RegExpParser) (b : ℕ) → remaining p ≤ b → Ends (AtMost b) (consume_repeat p)
unfolding consume_repeat
consume_repeat-Ends p b h =
    consume_repeat_if-Ends (elim p.current [ none ↦ false | some token ↦ is_repeat token.node ]) p b
      h

-- What is expected leaves the parser as it is.
pub expect-Ends : {A : Type 0} (o : Option A) (p : RegExpParser) → Ends (Same p) (expect o p)
expect-Ends none p = tt
expect-Ends (some a) p = refl

pub peek_token-Ends : (p : RegExpParser) → Ends (Same p) (peek_token p)
unfolding peek_token
peek_token-Ends p = expect-Ends p.current p

pub scope_start-Ends : (p : RegExpParser) → Ends (Same p) (scope_start p)
unfolding scope_start
scope_start-Ends p =
    Ends-bind (Same p) (Same p) (peek_token p) (λ token. pure token.start) p (peek_token-Ends p)
      (λ a q e. e)

pub scope_end-Ends : (p : RegExpParser) → Ends (Same p) (scope_end p)
unfolding scope_end
scope_end-Ends p =
    Ends-bind (Same p) (Same p) (expect p.last p) (λ token. pure token.end) p (expect-Ends p.last p)
      (λ a q e. e)

pub last_start-Ends : (p : RegExpParser) → Ends (Same p) (last_start p)
unfolding last_start
last_start-Ends p =
    Ends-bind (Same p) (Same p) (expect p.last p) (λ token. pure token.start) p
      (expect-Ends p.last p) (λ a q e. e)

pub top_group-Ends : (p : RegExpParser) → Ends (Same p) (top_group p)
unfolding top_group
top_group-Ends p = expect-Ends _ p

pub Ends-keep :
    {A B : Type 0} (Q : B → RegExpParser → Type 0) (o : Outcome A) (f : A → M B) (p : RegExpParser)
    → Ends (Same p) o
    → ((a : A) → Ends Q (f a p))
    → Ends Q (((λ x. o) >>= f) p)
Ends-keep Q o f p h k =
    Ends-bind (Same p) Q o f p h
      (λ a q e. subst (λ (r : RegExpParser). Ends Q (f a r)) (sym e) (k a))
