-- ===== src/Parser/TypeSyntax/Parser/Rules.antt =====
-- aoba/parser/type/type_parser.cc: the text that is left, and how much of it the helpers of the
-- parser leave.
use aoba.Prelude.{
  ℕ, suc, ◌≤◌, ◌<◌, Option, some, none, List, ◌≡◌, refl, ap, length, length-append, arith,
}
use aoba.Ast.TokenKind.{TokenKind}
use aoba.Parser.Utils.Steps
use aoba.Parser.Utils.Steps.{
  if◌then◌else◌, Outcome, returned, crashed, out_of_fuel, Step, ◌>>=◌, ◌>>◌, pure, crash, exhausted,
  gets, modify, Ends,
}
use aoba.Parser.TypeSyntax.Lexer.{TypeToken, TypeLexer, next_token}
use aoba.Parser.TypeSyntax.Lexer.Progress.{TokenWithin, next_token-TokenWithin}
use aoba.Parser.TypeSyntax.Parser.Nodes.{TypeTree}
use aoba.Parser.TypeSyntax.Parser.Actions.{
  scope, set_node_start, TypeParser, TypeErrorCode, add_error_at, take_lexed, lex, feed_token,
  with_current, with_token, peek_token, consume_current, consume_token, has_kind, if_kind, if_word,
  is_word, new_node, add_error, finish_brackets,
}

-- The token ahead and the characters behind it; nothing is left where no token is.
abbrev pub left_at : Option TypeToken → ℕ → ℕ
left_at none n = 0
left_at (some token) n = suc n

abbrev pub remaining : TypeParser → ℕ
remaining p = left_at p.current (length p.lexer.reader.ahead)

abbrev pub Still : {A : Type 0} → Step TypeParser A → Type 0
Still = Steps.Still remaining

abbrev pub Calm : {A : Type 0} → ℕ → Step TypeParser A → Type 0
Calm = Steps.Calm remaining

abbrev pub CalmAhead : {A : Type 0} → ℕ → Step TypeParser A → Type 0
CalmAhead = Steps.CalmAhead remaining

abbrev pub Moves : {A : Type 0} → ℕ → Step TypeParser A → Type 0
Moves = Steps.Moves remaining

take_lexed-le :
    (p : TypeParser) (made : Option TypeToken × TypeLexer)
    → TokenWithin p.lexer made
    → remaining (take_lexed p made) ≤ length p.lexer.reader.ahead
take_lexed-le p (none, l) h = omega arith
take_lexed-le p (some token, l) (start, nonempty, end, read) = omega (
  arith,
  start,
  nonempty,
  end,
  read.1.moved,
  ap length read.1.text,
  length-append {0} read.0 l.reader.ahead,
)

lex-le : (p : TypeParser) → remaining (lex p) ≤ length p.lexer.reader.ahead
unfolding lex
lex-le p = take_lexed-le p (next_token p.lexer) (next_token-TokenWithin p.lexer)

feed_token-remaining :
    (token : TypeToken) (p : TypeParser) → remaining (feed_token token p) ≡ remaining p
unfolding feed_token
feed_token-remaining token p = refl

consume_current-Ends :
    (o : Option TypeToken) (p : TypeParser) (b : ℕ)
    → left_at o (length p.lexer.reader.ahead) ≤ b
    → 0 < b
    → Ends (λ a q. remaining q < b) (consume_current o p)
consume_current-Ends none p b h pos = tt
consume_current-Ends (some token) p b h pos =
    omega (arith, h, lex-le p, feed_token-remaining token (lex p))

pub consume_token-Moves : (n : ℕ) → Moves n consume_token
unfolding consume_token
consume_token-Moves n = record { ends = λ s b h pos lt. consume_current-Ends s.current s b h pos }

module _ {A : Type 0} (absent : Step TypeParser A) (present : TypeToken → Step TypeParser A) where
  with_current-Still :
      (o : Option TypeToken) (s : TypeParser)
      → Still absent
      → ((token : TypeToken) → Still (present token))
      → Ends (λ a q. remaining q ≡ remaining s) (with_current o absent present s)
  with_current-Still none s h k = h.keeps s
  with_current-Still (some token) s h k = (k token).keeps s

  pub with_token-Still :
      Still absent
      → ((token : TypeToken) → Still (present token))
      → Still (with_token absent present)
  unfolding with_token
  with_token-Still h k = record { keeps = λ s. with_current-Still s.current s h k }

  with_current-Calm :
      (n : ℕ) (o : Option TypeToken) (s : TypeParser) (b : ℕ)
      → Calm n absent
      → ((token : TypeToken) → CalmAhead n (present token))
      → left_at o (length s.lexer.reader.ahead) ≤ b
      → remaining s ≤ b
      → b < n
      → Ends (λ a q. remaining q ≤ b) (with_current o absent present s)
  with_current-Calm n none s b h k le le' lt = h.ends s b le' lt
  with_current-Calm n (some token) s b h k le le' lt = (k token).ends s b le' (omega (arith, le)) lt

  pub with_token-Calm :
      (n : ℕ)
      → Calm n absent
      → ((token : TypeToken) → CalmAhead n (present token))
      → Calm n (with_token absent present)
  unfolding with_token
  with_token-Calm n h k = record {
    ends = λ s b le lt. with_current-Calm n s.current s b h k le le lt;
  }

  with_current-Moves :
      (n : ℕ) (o : Option TypeToken) (s : TypeParser) (b : ℕ)
      → Moves n absent
      → ((token : TypeToken) → Moves n (present token))
      → remaining s ≤ b
      → 0 < b
      → b < n
      → Ends (λ a q. remaining q < b) (with_current o absent present s)
  with_current-Moves n none s b h k le pos lt = h.ends s b le pos lt
  with_current-Moves n (some token) s b h k le pos lt = (k token).ends s b le pos lt

  pub with_token-Moves :
      (n : ℕ)
      → Moves n absent
      → ((token : TypeToken) → Moves n (present token))
      → Moves n (with_token absent present)
  unfolding with_token
  with_token-Moves n h k = record {
    ends = λ s b le pos lt. with_current-Moves n s.current s b h k le pos lt;
  }

  with_current-Still-Moves :
      (n : ℕ) (o : Option TypeToken) (s : TypeParser) (b : ℕ)
      → Still absent
      → ((token : TypeToken) → Moves n (present token))
      → remaining s ≤ b
      → left_at o (length s.lexer.reader.ahead) ≡ remaining s
      → 0 < b
      → b < n
      → Ends (λ a q. remaining q < b) (with_current o absent present s)
  with_current-Still-Moves n none s b h k le e pos lt =
      Steps.Ends-weaken (λ a q. remaining q ≡ remaining s) (λ a q. remaining q < b) (absent s)
        (h.keeps s) (λ a q d. omega (arith, d, e, pos))
  with_current-Still-Moves n (some token) s b h k le e pos lt = (k token).ends s b le pos lt

  -- Nothing is left where no token is.
  pub with_token-Still-Moves :
      (n : ℕ)
      → Still absent
      → ((token : TypeToken) → Moves n (present token))
      → Moves n (with_token absent present)
  unfolding with_token
  with_token-Still-Moves n h k = record {
    ends = λ s b le pos lt. with_current-Still-Moves n s.current s b h k le refl pos lt;
  }

pub crash-Moves : {A : Type 0} (n : ℕ) → Moves {A = A} n crash
unfolding crash
crash-Moves n = record { ends = λ s b le pos lt. tt }

pub peek_token-Still : Still peek_token
unfolding peek_token
peek_token-Still =
    with_token-Still crash pure (Steps.crash-Still remaining)
      (λ token. Steps.pure-Still remaining token)

add_error_at-remaining :
    (o : Option TypeToken) (code : TypeErrorCode) (p : TypeParser)
    → remaining (add_error_at o code p) ≡ remaining p
add_error_at-remaining none code p = refl
add_error_at-remaining (some token) code p = refl

pub add_error-Still : (code : TypeErrorCode) → Still (add_error code)
unfolding add_error modify
add_error-Still code = record { keeps = λ s. add_error_at-remaining s.current code s }

pub new_node-Still : (make : ℕ → ℕ → TypeTree) → Still (new_node make)
unfolding new_node
new_node-Still make = Steps.gets-Still remaining _

pub finish_brackets-Still : Still finish_brackets
unfolding finish_brackets modify
finish_brackets-Still = record { keeps = λ s. refl }

module _ {A : Type 0} (found other : Step TypeParser A) where
  pub if_kind-Calm :
      (n : ℕ) (kind : TokenKind)
      → Calm n found
      → Calm (suc n) other
      → Calm (suc n) (if_kind kind found other)
  unfolding if_kind
  if_kind-Calm n kind h k = with_token-Calm other _ (suc n) k (λ token.
      Steps.if-CalmAhead remaining (has_kind kind token) _ other (suc n)
        (Steps.Moves-CalmAhead remaining (suc n) _ (
          Steps.bind-Moves remaining consume_token (λ consumed. found) n
            (consume_token-Moves (suc n)) (λ consumed. h)))
        (Steps.Calm-CalmAhead remaining (suc n) other k))

  pub if_kind-Moves :
      (n : ℕ) (kind : TokenKind)
      → Calm n found
      → Moves (suc n) other
      → Moves (suc n) (if_kind kind found other)
  unfolding if_kind
  if_kind-Moves n kind h k = with_token-Moves other _ (suc n) k (λ token.
      Steps.if-Moves remaining (has_kind kind token) _ other (suc n)
        (Steps.bind-Moves remaining consume_token (λ consumed. found) n
          (consume_token-Moves (suc n)) (λ consumed. h))
        k)

  pub if_word-Calm :
      (n : ℕ) (text : List ℕ)
      → Calm n found
      → Calm (suc n) other
      → Calm (suc n) (if_word text found other)
  unfolding if_word
  if_word-Calm n text h k = with_token-Calm other _ (suc n) k (λ token.
      Steps.bind-Still-CalmAhead remaining (gets (is_word text token)) _ (suc n)
        (Steps.gets-Still remaining (is_word text token))
        (λ same.
          Steps.if-CalmAhead remaining same _ other (suc n)
            (Steps.Moves-CalmAhead remaining (suc n) _ (
              Steps.bind-Moves remaining consume_token (λ consumed. found) n
                (consume_token-Moves (suc n)) (λ consumed. h)))
            (Steps.Calm-CalmAhead remaining (suc n) other k)))

pub set_node_start-Still : (start : ℕ) → Still (set_node_start start)
unfolding set_node_start modify
set_node_start-Still start = record { keeps = λ s. refl }

pub ruleset step_rules = (
  Steps.pure-Still, Steps.gets-Still, Steps.bind-Still, Steps.bind-Calm, Steps.bind-CalmAhead,
  Steps.bind-Still-CalmAhead, Steps.bind-Moves, Steps.bind-Calm-Moves, Steps.bind-Still-Moves,
  Steps.if-Still, Steps.if-Calm, Steps.if-CalmAhead, Steps.if-Moves, Steps.Still-Calm,
  Steps.Moves-CalmAhead, Steps.Calm-CalmAhead, consume_token-Moves, with_token-Calm,
  with_token-Still-Moves, peek_token-Still, add_error-Still, new_node-Still, finish_brackets-Still,
  set_node_start-Still, if_kind-Calm, if_kind-Moves, if_word-Calm,
)

module _ {A : Type 0} (body : Step TypeParser A) (n : ℕ) where
  pub scope-Moves : Moves n body → Moves n (scope body)
  unfolding scope
  scope-Moves h = search (step_rules, Steps.crash-Still) depth 12 fits 4000

  pub scope-Calm : Moves n body → Calm n (scope body)
  unfolding scope
  scope-Calm h = search (step_rules, Steps.crash-Still) depth 12 fits 4000
