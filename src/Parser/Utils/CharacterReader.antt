-- ===== src/Parser/Utils/CharacterReader.antt =====
-- aoba/parser/utils/character_reader.{h,cc}. `Reader` is the state of a `CharacterReader` over a
-- range: the characters of the range behind the current offset (last one first), those from it to
-- the range's end, and the offset. `fault` says that a `DCHECK` of the reader has failed, as when a
-- character is consumed at the end of the range; what the program does after that is not modelled.
-- The loops `while (CanPeekChar() && p(PeekChar())) ...` of the lexers are `skip_while` and
-- `fold_while`.
pub mod Reads
use aoba.Prelude.{
  ℕ, ◌+◌, ◌-◌, Bool, true, false, Option, none, some, List, [], ◌∷◌, ◌==◌, if◌then◌else◌,
}

pub record Reader : Type 0 where
  pub behind : List ℕ
  pub ahead : List ℕ
  pub location : ℕ
  pub fault : Bool

abbrev pub start_reader : ℕ → List ℕ → Reader
start_reader location text = record {
  behind = [];
  ahead = text;
  location = location;
  fault = false;
}

abbrev can_peek : List ℕ → Bool
can_peek [] = false
can_peek (c ∷ cs) = true

abbrev pub can_peek_char : Reader → Bool
can_peek_char r = can_peek r.ahead

abbrev head : List ℕ → Option ℕ
head [] = none
head (c ∷ cs) = some c

-- `PeekChar`, and `none` where the source's `DCHECK(CanPeekChar())` fails.
abbrev pub peek_char : Reader → Option ℕ
peek_char r = head r.ahead

-- `CanPeekChar() && p(PeekChar())`.
abbrev test_head : (ℕ → Bool) → List ℕ → Bool
test_head p [] = false
test_head p (c ∷ cs) = p c

abbrev pub peek_is : (ℕ → Bool) → Reader → Bool
peek_is p r = test_head p r.ahead

abbrev forward : Reader → List ℕ → Reader
forward r [] = record r { fault = true }
forward r (c ∷ cs) = record r { behind = c ∷ r.behind; ahead = cs; location = r.location + 1 }

unfoldable pub move_forward : Reader → Reader
move_forward r = forward r r.ahead

abbrev backward : Reader → List ℕ → Reader
backward r [] = record r { fault = true }
backward r (c ∷ cs) = record r { behind = cs; ahead = c ∷ r.ahead; location = r.location - 1 }

unfoldable pub move_backward : Reader → Reader
move_backward r = backward r r.behind

-- `ConsumeCharIf`: whether it consumed, and the reader after it.
unfoldable pub consume_char_if : ℕ → Reader → Bool × Reader
unfolding move_forward
consume_char_if c r = if peek_is (λ d. d == c) r then (true, move_forward r) else (false, r)

fold_ahead {ℓ} : {A : Type ℓ} (p : ℕ → Bool) (f : A → ℕ → A) (r : Reader) → List ℕ → A → Reader × A
fold_ahead p f r [] acc = (record r { ahead = [] }, acc)
fold_ahead p f r (c ∷ cs) acc =
    if p c
    then fold_ahead p f (record r { behind = c ∷ r.behind; ahead = cs; location = r.location + 1 })
        cs (f acc c)
    else (record r { ahead = c ∷ cs }, acc)

-- `while (CanPeekChar() && p(PeekChar())) acc = f(acc, ConsumeChar());`
unfoldable pub fold_while {ℓ} :
    {A : Type ℓ} (p : ℕ → Bool) (f : A → ℕ → A) (r : Reader) → A → Reader × A
unfolding fold_ahead
fold_while p f r acc = fold_ahead p f r r.ahead acc

-- `while (CanPeekChar() && p(PeekChar())) ConsumeChar();`
unfoldable pub skip_while : (ℕ → Bool) → Reader → Reader
unfolding fold_while
skip_while p r = (fold_while p (λ (u : Unit {0}) c. u) r tt).0
