-- ===== src/Parser/Script/Reads/Returns.antt =====
-- aoba/parser/parser.cc: `ConsumeToken` meets its DCHECKs where a token is ahead.
use aoba.Prelude.{
  ℕ, zero, suc, ◌<◌, Bool, true, false, Option, some, none, List, [], ◌∷◌, ◌≡◌, refl,
}
use mathlib.Core.Path.{subst}
use aoba.Parser.Utils.Steps.{
  Outcome, returned, crashed, out_of_fuel, Step, and_then, Ends, if◌then◌else◌, ◌>>=◌, ◌>>◌, pure,
  modify, crash,
}
use aoba.Parser.Lexer.State.{Token}
use aoba.Parser.Lexer.Buffer
use aoba.Parser.Lexer.Buffer.{MeetsChecks, consume_current}
use aoba.Parser.Script.Nodes.{ScriptToken, is_comment}
use aoba.Parser.Script.Actions.{
  ScriptParser, with_token, with_peeked, peeked, top, lexed_token, note_token, take_buffer, lex,
  with_lexed, if_lexed, skip_comments, skip_comment_tokens, set_newline, advance_by, advance,
  set_last_token, consume_token,
}
use aoba.Parser.Script.Ranges.Semicolons.{with_token-ahead}
use aoba.Parser.Script.Reads.{remaining, Shown, peeked-Shown, advance-Ends}

abbrev Safe : {A : Type 0} → Outcome ScriptParser A → Type 0
Safe (returned a q) = Unit {0}
Safe crashed = ⊥
Safe out_of_fuel = Unit {0}

-- The step returns, and what it returns is as `P` says.
abbrev pub Returned : {A : Type 0} → (A → ScriptParser → Type 0) → Outcome ScriptParser A → Type 0
Returned P (returned a q) = P a q
Returned P crashed = ⊥
Returned P out_of_fuel = ⊥

-- No DCHECK of the lexer fails on what is left of the text.
abbrev pub Meets : ScriptParser → Type 0
Meets p = MeetsChecks p.context p.buffer.lexer

if-Safe :
    {A : Type 0} (c : Bool) (f g : Step ScriptParser A) (p : ScriptParser)
    → Safe (f p)
    → Safe (g p)
    → Safe ((if c then f else g) p)
unfolding if◌then◌else◌
if-Safe true f g p h k = h
if-Safe false f g p h k = k

lex_then-Safe :
    (loop : Step ScriptParser (Unit {0}))
    → ((q : ScriptParser) → Meets q → Safe (loop q))
    → (p : ScriptParser) (token : Token) → Meets p
    → p.buffer.current ≡ some token
    → Safe ((lex >> loop) p)
unfolding ◌>>=◌ lex Buffer.consume_token
lex_then-Safe loop h p token m e = taken p.buffer.current e
  where
    taken :
        (o : Option Token)
        → o ≡ some token
        → Safe (
            and_then
              (take_buffer p (consume_current p.context o p.buffer))
              (λ (u : Unit {0}). loop))
    taken none f = absurd (cc f)
    taken (some next) f = rw (m 1) (h _ (λ k. m (suc k)))

lexed_then-Safe :
    (loop : Step ScriptParser (Unit {0}))
    → ((q : ScriptParser) → Meets q → Safe (loop q))
    → (p : ScriptParser) (o : Option Token) → Meets p
    → p.buffer.current ≡ o
    → Safe (with_lexed o (pure tt) (lex >> loop) p)
unfolding pure
lexed_then-Safe loop h p none m e = tt
lexed_then-Safe loop h p (some token) m e = lex_then-Safe loop h p token m e

peek-Safe :
    (body : ScriptToken → Step ScriptParser (Unit {0})) (p : ScriptParser) (token : Token)
    → ((t : ScriptToken) → Safe (body t p))
    → (stack : List ScriptToken) (o : Option Token) → o ≡ some token
    → Safe (with_peeked (top stack (lexed_token p.text o)) crash body p)
peek-Safe body p token h (t ∷ ts) o e = h t
peek-Safe body p token h [] none e = absurd (cc e)
peek-Safe body p token h [] (some next) e = h _

module _ (loop : Step ScriptParser (Unit {0}))
    (h : (q : ScriptParser) → Meets q → Safe (loop q)) where
  round-Safe :
      (p : ScriptParser) (o : Option Token)
      → Meets p
      → p.buffer.current ≡ o
      → Safe (
          with_lexed o
            (pure tt)
            (with_token crash (λ token.
              modify (note_token token) >> (if is_comment token then (lex >> loop) else pure tt)))
            p)
  unfolding pure with_token ◌>>=◌ modify note_token
  round-Safe p none m e = tt
  round-Safe p (some token) m e =
      peek-Safe _ p token
        (λ t.
          if-Safe (is_comment t) (lex >> loop) (pure tt) (note_token t p)
            (lex_then-Safe loop h (note_token t p) token m e) tt)
        p.stack p.buffer.current e

skip_comments-Safe : (k : ℕ) (p : ScriptParser) → Meets p → Safe (skip_comments k p)
unfolding skip_comments if_lexed
skip_comments-Safe zero p m = tt
skip_comments-Safe (suc k) p m =
    round-Safe (skip_comments k) (skip_comments-Safe k) p p.buffer.current m refl

advance_by-Safe :
    (stack : List ScriptToken) (p : ScriptParser) → Meets p → Safe (advance_by stack p)
unfolding ◌>>=◌ set_newline modify if_lexed skip_comment_tokens
advance_by-Safe [] p m =
    lexed_then-Safe skip_comment_tokens (λ q n. skip_comments-Safe _ q n) _ p.buffer.current m refl
advance_by-Safe (t ∷ ts) p m = tt

module _ (p : ScriptParser) (token : ScriptToken) where
  note_last-Returned :
      (o : Outcome ScriptParser (Unit {0}))
      → Ends (λ a q. remaining q < remaining p) o
      → Safe o
      → Returned
          (λ consumed q.
            (consumed ≡ token) × (q.last_token ≡ some token) × (remaining q < remaining p))
          (and_then o (λ u. set_last_token token >> pure token))
  unfolding ◌>>=◌ set_last_token modify pure
  note_last-Returned (returned a q) lt h = (refl, refl, lt)
  note_last-Returned crashed lt h = absurd h
  note_last-Returned out_of_fuel lt h = lt

-- Where a token is ahead, and no DCHECK of the lexer or of the parser of documents fails on the text
-- behind it, ConsumeToken returns that token, with no other DCHECK failed and the fuel for the
-- comments behind it not used up; the token is then the last token, and less of the tokens and the text is
-- left.
pub consume_token-Returned :
    (p : ScriptParser) (token : ScriptToken)
    → peeked p ≡ some token
    → Meets p
    → Returned
        (λ consumed q.
          (consumed ≡ token) × (q.last_token ≡ some token) × (remaining q < remaining p))
        (consume_token p)
unfolding consume_token advance ◌>>=◌
consume_token-Returned p token ahead m = rw (with_token-ahead _ _ p token ahead) (
    note_last-Returned p token (advance p)
      (advance-Ends p (subst (λ o. Shown o (remaining p)) ahead (peeked-Shown p)))
      (advance_by-Safe p.stack p m))
