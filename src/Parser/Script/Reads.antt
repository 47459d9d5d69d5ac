-- ===== src/Parser/Script/Reads.antt =====
-- aoba/parser/parser.cc: the tokens and the text that are left, and what the reads of a token leave.
pub mod Returns
use aoba.Prelude.{
  Bool-cases, inl, inr, ℕ, zero, suc, ◌+◌, ◌≤◌, ◌<◌, false, Option, some, none, List, [], ◌∷◌, ◌≡◌,
  refl, ap, length, arith,
}
use aoba.Parser.Utils.Steps
use aoba.Parser.Utils.Steps.{
  if◌then◌else◌, Outcome, returned, crashed, out_of_fuel, Step, ◌>>=◌, ◌>>◌, pure, crash, exhausted,
  gets, modify, Ends, Ends-and_then, Ends-weaken, if-Ends,
}
use aoba.Parser.Lexer.State.{Lexer, Token}
use aoba.Parser.Lexer.Characters.{next_token}
use aoba.Parser.Lexer.Progress.Tokens.{next_token_lem}
use aoba.Parser.Lexer.Buffer.{TokenBuffer, left_at, next_token-left_at, consume_current}
use aoba.Parser.Lexer.Buffer
use aoba.Parser.Script.Nodes.{ScriptToken, is_comment}
use aoba.Parser.Script.Actions.{
  ScriptParser, top, lexed_token, peeked, with_peeked, with_token, note_token, take_buffer, lex,
  with_lexed, if_lexed, skip_comments, skip_comment_tokens, set_newline, advance_by, advance,
  set_last_token, consume_token,
}

-- The lexer's token and the characters behind it.
abbrev pub left : ScriptParser → ℕ
left p = left_at p.buffer.current p.buffer.lexer

-- With the tokens that were pushed back; nothing is left where no token is.
abbrev pub remaining : ScriptParser → ℕ
remaining p = length p.stack + left p

abbrev pub Still : {A : Type 0} → Step ScriptParser A → Type 0
Still = Steps.Still remaining

abbrev pub Calm : {A : Type 0} → ℕ → Step ScriptParser A → Type 0
Calm = Steps.Calm remaining

abbrev pub CalmAhead : {A : Type 0} → ℕ → Step ScriptParser A → Type 0
CalmAhead = Steps.CalmAhead remaining

abbrev pub Moves : {A : Type 0} → ℕ → Step ScriptParser A → Type 0
Moves = Steps.Moves remaining

abbrev pub Follows : {A : Type 0} → ℕ → Step ScriptParser A → Type 0
Follows = Steps.Follows remaining

-- Something is left where there is a token, and nothing where there is none.
abbrev pub Shown : Option ScriptToken → ℕ → Type 0
Shown none r = r ≡ 0
Shown (some token) r = 0 < r

Shown-top :
    (text : List ℕ) (stack : List ScriptToken) (current : Option Token) (l : Lexer)
    → Shown (top stack (lexed_token text current)) (length stack + left_at current l)
Shown-top text [] none l = refl
Shown-top text [] (some token) l = omega arith
Shown-top text (t ∷ ts) current l = omega arith

pub peeked-Shown : (p : ScriptParser) → Shown (peeked p) (remaining p)
peeked-Shown p = Shown-top p.text p.stack p.buffer.current p.buffer.lexer

-- `q` has the stack of `p`, and no more of the lexer's text.
abbrev Below : ScriptParser → ScriptParser → Type 0
Below p q = (q.stack ≡ p.stack) × (left q ≤ left p)

abbrev Under : ScriptParser → ScriptParser → Type 0
Under p q = (q.stack ≡ p.stack) × (left q < left p)

take_buffer-Ends :
    (p : ScriptParser) (current : Option Token)
    → p.buffer.current ≡ current
    → Ends
        (λ a q. Under p q)
        (take_buffer p (
          consume_current p.context current (record { lexer = p.buffer.lexer; current = current })))
take_buffer-Ends p none e = tt
take_buffer-Ends p (some token) e =
    elim (Bool-cases (next_token p.context p.buffer.lexer).1.reader.fault) [
      | inl failed ↦ rw failed tt
      | inr met ↦ rw met (
        refl,
        omega (
          arith,
          next_token-left_at p.buffer.lexer (next_token p.context p.buffer.lexer)
              (next_token_lem p.context p.buffer.lexer),
          ap (λ o. left_at o p.buffer.lexer) e,
        ),
      )
    ]

lex-Ends : (p : ScriptParser) → Ends (λ a q. Under p q) (lex p)
unfolding lex Buffer.consume_token
lex-Ends p = take_buffer-Ends p p.buffer.current refl

module _ (k : ℕ) (loop : Step ScriptParser (Unit {0}))
    (ih : (p : ScriptParser) → left p < k → Ends (λ a q. Below p q) (loop p)) where
  lexed-Ends : (p : ScriptParser) → left p ≤ k → Ends (λ a q. Under p q) ((lex >> loop) p)
  unfolding ◌>>=◌
  lexed-Ends p h =
      Ends-and_then (λ a q. Under p q) (λ a q. Under p q) (lex p) (λ u. loop) (lex-Ends p)
        (λ a q (e, lt).
          Ends-weaken (λ b r. Below q r) (λ b r. Under p r) (loop q) (ih q (omega (arith, h, lt)))
            (λ b r (e', le). (cc, omega (arith, le, lt))))

  round-Ends :
      (o : Option ScriptToken) (p : ScriptParser)
      → left p ≤ k
      → Ends
          (λ a q. Below p q)
          (with_peeked o crash
            (λ token.
              modify (note_token token) >> (if is_comment token then (lex >> loop) else pure tt))
            p)
  unfolding ◌>>=◌ modify note_token pure crash
  round-Ends none p h = tt
  round-Ends (some token) p h =
      if-Ends (λ a q. Below p q) (is_comment token) (lex >> loop) (pure tt) (note_token token p)
        (Ends-weaken (λ a q. Under p q) (λ a q. Below p q) _ (lexed-Ends (note_token token p) h)
          (λ a q (e, lt). (e, omega (arith, lt))))
        (refl, omega arith)

with_lexed-Ends :
    (o : Option Token) (m : Step ScriptParser (Unit {0})) (p : ScriptParser)
    → Ends (λ a q. Below p q) (m p)
    → Ends (λ a q. Below p q) (with_lexed o (pure tt) m p)
unfolding pure
with_lexed-Ends none m p h = (refl, omega arith)
with_lexed-Ends (some token) m p h = h

skip_comments-Ends :
    (k : ℕ) (p : ScriptParser) → left p < k → Ends (λ a q. Below p q) (skip_comments k p)
unfolding skip_comments if_lexed with_token
skip_comments-Ends zero p h = omega arith
skip_comments-Ends (suc k) p h =
    with_lexed-Ends p.buffer.current (with_token crash _) p
      (round-Ends k (skip_comments k) (skip_comments-Ends k) (peeked p) p (omega (arith, h)))

left-fuel : (o : Option Token) (l : Lexer) → left_at o l < length l.reader.ahead + 2
left-fuel none l = omega arith
left-fuel (some token) l = omega arith

skip_comment_tokens-Ends : (p : ScriptParser) → Ends (λ a q. Below p q) (skip_comment_tokens p)
unfolding skip_comment_tokens
skip_comment_tokens-Ends p =
    skip_comments-Ends (length p.buffer.lexer.reader.ahead + 2) p
      (left-fuel p.buffer.current p.buffer.lexer)

pub skip_comment_tokens-Calm : (n : ℕ) → Calm n skip_comment_tokens
skip_comment_tokens-Calm n = record {
  ends = λ s b le lt.
      Ends-weaken (λ a q. Below s q) (λ a q. remaining q ≤ b) (skip_comment_tokens s)
        (skip_comment_tokens-Ends s) (λ a q (e, le'). omega (arith, ap length e, le, le'));
}

advance_by-Ends :
    (stack : List ScriptToken) (p : ScriptParser)
    → p.stack ≡ stack
    → 0 < remaining p
    → Ends (λ a q. remaining q < remaining p) (advance_by stack p)
unfolding ◌>>=◌ modify set_newline if_lexed pure
advance_by-Ends [] p e pos = lexed-cases p.buffer.current refl
  where
    lexed-cases :
        (o : Option Token)
        → p.buffer.current ≡ o
        → Ends
            (λ a q. remaining q < remaining p)
            (with_lexed o
              (pure tt)
              (lex >> skip_comment_tokens)
              (record p { is_separated_by_newline = false }))
    lexed-cases none e' =
        absurd (omega (arith, ap length e, ap (λ o. left_at o p.buffer.lexer) e', pos))
    lexed-cases (some token) e' =
        Ends-weaken (λ a q. Under p q) (λ a q. remaining q < remaining p) _
          (lexed-Ends (left p) skip_comment_tokens (λ q lt. skip_comment_tokens-Ends q)
            (record p { is_separated_by_newline = false }) (omega arith))
          (λ a q (f, lt). omega (arith, ap length f, lt))
advance_by-Ends (token ∷ tokens) p e pos = omega (arith, ap length e)

pub advance-Ends :
    (p : ScriptParser) → 0 < remaining p → Ends (λ a q. remaining q < remaining p) (advance p)
unfolding advance
advance-Ends p pos = advance_by-Ends p.stack p refl pos

consume-Ends :
    (o : Option ScriptToken) (p : ScriptParser)
    → Shown o (remaining p)
    → Ends
        (λ a q. remaining q < remaining p)
        (with_peeked o crash (λ token. advance >> (set_last_token token >> pure token)) p)
unfolding ◌>>=◌ set_last_token modify pure crash
consume-Ends none p h = tt
consume-Ends (some token) p h =
    Ends-and_then (λ a q. remaining q < remaining p) (λ a q. remaining q < remaining p) (advance p)
      _ (advance-Ends p h) (λ a q lt. lt)

pub consume_token-Moves : (n : ℕ) → Moves n consume_token
unfolding consume_token with_token
consume_token-Moves n = record {
  ends = λ s b le pos lt.
      Ends-weaken (λ a q. remaining q < remaining s) (λ a q. remaining q < b) (consume_token s)
        (consume-Ends (peeked s) s (peeked-Shown s)) (λ a q less. omega (arith, less, le));
}

pub consume_token-Calm : (n : ℕ) → Calm n consume_token
unfolding consume_token with_token
consume_token-Calm n = record {
  ends = λ s b le lt.
      Ends-weaken (λ a q. remaining q < remaining s) (λ a q. remaining q ≤ b) (consume_token s)
        (consume-Ends (peeked s) s (peeked-Shown s)) (λ a q less. omega (arith, less, le));
}
