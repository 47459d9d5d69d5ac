-- ===== src/Parser/Lexer/Progress.antt =====
-- What the handlers of the lexer consume, and the range of the token that each makes.
pub mod Handlers
pub mod Strings
pub mod Characters
pub mod Tokens
use aoba.Prelude.{
  ◌==◌, ℕ, zero, suc, ◌+◌, ◌≤◌, ◌<◌, Bool, true, false, Option, some, none, List, [], ◌∷◌, ◌++◌,
  ◌≡◌, ◌⊎◌, inl, inr, refl, sym, ap, ◌∙◌, length, Bool-cases, if◌then◌else◌, arith,
}
use aoba.Parser.Utils.CharacterReader.{
  peek_is, Reader, move_forward, skip_while, fold_while, consume_char_if,
}
use aoba.Parser.Utils.CharacterReader.Reads.{
  Reads, Reads-refl, Reads-trans, Reads-move_forward, skip_while-Reads, fold_while-Reads,
}
use aoba.Parser.Lexer.State.{
  Lexer, Token, TokenNode, ErrorCode, location, consume_char, new_token, new_punctuator, add_error,
}
use aoba.Parser.Lexer.State
use aoba.Parser.Lexer.Punctuators.{if_char}

-- The lexer `l'` is `l` after some characters, within the same token.
pub record Extends (l l' : Lexer) : Type 0 where
  pub read : List ℕ
  pub reads : Reads l.reader read l'.reader
  pub same_start : l'.token_start ≡ l.token_start

pub Extends-refl : (l : Lexer) → Extends l l
Extends-refl l = record { read = []; reads = Reads-refl l.reader; same_start = refl }

pub Extends-trans : {k l m : Lexer} → Extends k l → Extends l m → Extends k m
Extends-trans p q = record {
  read = p.read ++ q.read;
  reads = Reads-trans p.read q.read p.reads q.reads;
  same_start = q.same_start ∙ p.same_start;
}

pub Extends-errors :
    (l l' : Lexer) → l'.reader ≡ l.reader → l'.token_start ≡ l.token_start → Extends l l'
Extends-errors l l' e h = record { read = []; reads = rw e (Reads-refl l.reader); same_start = h }

-- `ConsumeChar`, at the end of the range too, where it fails and moves nothing.
forward-Reads :
    (cs : List ℕ) (r : Reader) → r.ahead ≡ cs → (w : List ℕ) × Reads r w (move_forward r)
unfolding move_forward
forward-Reads [] r h =
    ([], record { text = ground arith; past = ground arith; moved = ground arith })
forward-Reads (c ∷ cs) r h = (c ∷ [], Reads-move_forward r c cs h)

pub Extends-reader :
    (l : Lexer) (r : Reader) (w : List ℕ) → Reads l.reader w r → Extends l (record l { reader = r })
Extends-reader l r w h = record { read = w; reads = h; same_start = refl }

pub Extends-consume_char : (l : Lexer) → Extends l (consume_char l)
unfolding consume_char
Extends-consume_char l =
    let (w, h) = forward-Reads l.reader.ahead l.reader refl in Extends-reader l _ w h

pub lt-consume_char :
    (l : Lexer) (c : ℕ) (cs : List ℕ)
    → l.reader.ahead ≡ c ∷ cs
    → location l < location (consume_char l)
unfolding consume_char
lt-consume_char l c cs h = omega (arith, (Reads-move_forward l.reader c cs h).moved)

pub Extends-location : {l l' : Lexer} → Extends l l' → location l ≤ location l'
Extends-location e = omega (arith, e.reads.moved)

move_if-Reads :
    (r : Reader) (found : Bool)
    → (w : List ℕ) × Reads r w
        (if◌then◌else◌ {A = Bool × Reader} found (true, move_forward r) (false, r)).1
move_if-Reads r true = forward-Reads r.ahead r refl
move_if-Reads r false = ([], Reads-refl r)

pub Extends-consume_char_if : (c : ℕ) (l : Lexer) → Extends l (State.consume_char_if c l).1
unfolding State.consume_char_if
Extends-consume_char_if c l =
    let (w, h) = move_if-Reads l.reader (peek_is (λ d. d == c) l.reader) in Extends-reader l _ w h

-- The token lies behind the characters that the handler consumed.
pub record Makes (l : Lexer) (made : Token × Lexer) : Type 0 where
  pub extends : Extends l made.1
  pub start : made.0.start ≡ l.token_start
  pub end : made.0.end ≡ location made.1

pub Makes-after : {l m : Lexer} {made : Token × Lexer} → Extends l m → Makes m made → Makes l made
Makes-after e h = record {
  extends = Extends-trans e h.extends;
  start = h.start ∙ e.same_start;
  end = h.end;
}

pub Makes-new_token : (node : TokenNode) (l : Lexer) → Makes l (new_token node l)
Makes-new_token node l = record { extends = Extends-refl l; start = refl; end = refl }

pub Makes-consume_char :
    (l : Lexer) {made : Token × Lexer} → Makes (consume_char l) made → Makes l made
Makes-consume_char l = Makes-after (Extends-consume_char l)

module _ {a b : Lexer → Token × Lexer} where
  Makes-choice :
      (l : Lexer) (found : Bool)
      → ((l' : Lexer) → Makes l' (a l'))
      → ((l' : Lexer) → Makes l' (b l'))
      → Makes l (if found then a l else b l)
  Makes-choice l true ha hb = ha l
  Makes-choice l false ha hb = hb l

  pub Makes-if_char :
      (c : ℕ) (l : Lexer)
      → ((l' : Lexer) → Makes l' (a l'))
      → ((l' : Lexer) → Makes l' (b l'))
      → Makes l (if_char c a b l)
  unfolding if_char
  Makes-if_char c l ha hb =
      Makes-after (Extends-consume_char_if c l) (Makes-choice _ (State.consume_char_if c l).0 ha hb)

abbrev moved_if : Bool → Reader → Bool × Reader
moved_if found r = if◌then◌else◌ {A = Bool × Reader} found (true, move_forward r) (false, r)

move_if-cases :
    (l : Lexer) (found : Bool)
    → (((moved_if found l.reader).0 ≡ true) × ((moved_if found l.reader).1 ≡ move_forward l.reader))
      ⊎ (((moved_if found l.reader).0 ≡ false)
          × (record l { reader = (moved_if found l.reader).1 } ≡ l))
move_if-cases l true = inl (refl, refl)
move_if-cases l false = inr (refl, refl)

pub consume_char_if-cases :
    (c : ℕ) (l : Lexer)
    → (((State.consume_char_if c l).0 ≡ true)
        × ((State.consume_char_if c l).1.reader ≡ move_forward l.reader))
      ⊎ (((State.consume_char_if c l).0 ≡ false) × ((State.consume_char_if c l).1 ≡ l))
unfolding State.consume_char_if
consume_char_if-cases c l = move_if-cases l (peek_is (λ d. d == c) l.reader)
