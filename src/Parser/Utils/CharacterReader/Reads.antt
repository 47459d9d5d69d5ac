-- ===== src/Parser/Utils/CharacterReader/Reads.antt =====
-- What a reader consumes: `Reads r w s` says that the reader `r` has become `s` by consuming `w`.
use aoba.Prelude.{
  reverse_onto-append, ℕ, ◌+◌, Bool, true, false, some, none, List, [], ◌∷◌, ◌++◌, ◌≡◌, inl, inr,
  refl, sym, ◌∙◌, length, length-append, append_assoc, Bool-cases, if◌then◌else◌, arith, ◌==◌,
  take_while, drop_while, reverse_onto,
}
use mathlib.Core.List.{foldl}
use mathlib.Core.Path.{subst}
use aoba.Parser.Utils.CharacterReader.{
  backward, consume_char_if, move_backward, peek_is, peek_char, Reader, forward, move_forward,
  fold_ahead, fold_while, skip_while,
}

pub record Reads (r : Reader) (w : List ℕ) (s : Reader) : Type 0 where
  pub text : r.ahead ≡ w ++ s.ahead
  pub past : s.behind ≡ reverse_onto w r.behind
  pub moved : s.location ≡ r.location + length w

pub Reads-refl : (r : Reader) → Reads r [] r
Reads-refl r = record { text = refl; past = refl; moved = omega arith }

pub Reads-trans : {r s t : Reader} (v w : List ℕ) → Reads r v s → Reads s w t → Reads r (v ++ w) t
Reads-trans {r} {s} {t} v w p q = record {
  text = rw (p.text, q.text, append_assoc v w t.ahead);
  past = rw (q.past, p.past, reverse_onto-append v w r.behind);
  moved = omega (arith, p.moved, q.moved, length-append {0} v w);
}

pub Reads-one :
    (r : Reader) (c : ℕ) (cs : List ℕ)
    → r.ahead ≡ c ∷ cs
    → Reads r (c ∷ []) (record r { behind = c ∷ r.behind; ahead = cs; location = r.location + 1 })
Reads-one r c cs h = record { text = h; past = refl; moved = omega arith }

pub Reads-move_forward :
    (r : Reader) (c : ℕ) (cs : List ℕ) → r.ahead ≡ c ∷ cs → Reads r (c ∷ []) (move_forward r)
unfolding move_forward
Reads-move_forward r c cs h =
    subst (λ l. Reads r (c ∷ []) (forward r l)) (sym h) (Reads-one r c cs h)

module _ {ℓ} {A : Type ℓ} (p : ℕ → Bool) (f : A → ℕ → A) where
  fold_ahead-Reads :
      (cs : List ℕ) (r : Reader) (acc : A)
      → r.ahead ≡ cs
      → Reads r (take_while p cs) (fold_ahead p f r cs acc).0
  unfolding fold_ahead
  fold_ahead-Reads [] r acc h = record { text = h; past = refl; moved = omega arith }
  fold_ahead-Reads (c ∷ cs) r acc h = elim (Bool-cases (p c)) [
    | inl e ↦ rw e (
        Reads-trans (c ∷ []) (take_while p cs) (Reads-one r c cs h) (
          fold_ahead-Reads cs
            (record r { behind = c ∷ r.behind; ahead = cs; location = r.location + 1 }) (f acc c)
            refl))
    | inr e ↦ rw e (record { text = h; past = refl; moved = omega arith })
  ]

  fold_ahead-ahead :
      (cs : List ℕ) (r : Reader) (acc : A) → (fold_ahead p f r cs acc).0.ahead ≡ drop_while p cs
  unfolding fold_ahead
  fold_ahead-ahead [] r acc = refl
  fold_ahead-ahead (c ∷ cs) r acc = elim (Bool-cases (p c)) [
    | inl e ↦ rw e (fold_ahead-ahead cs _ (f acc c))
    | inr e ↦ rw e
  ]

  fold_ahead-acc :
      (cs : List ℕ) (r : Reader) (acc : A)
      → (fold_ahead p f r cs acc).1 ≡ foldl f acc (take_while p cs)
  unfolding fold_ahead
  fold_ahead-acc [] r acc = refl
  fold_ahead-acc (c ∷ cs) r acc = elim (Bool-cases (p c)) [
    | inl e ↦ rw e (fold_ahead-acc cs _ (f acc c))
    | inr e ↦ rw e
  ]

  -- A loop consumes the longest run that passes the test, folding over it from the left.
  pub fold_while-Reads :
      (r : Reader) (acc : A) → Reads r (take_while p r.ahead) (fold_while p f r acc).0
  unfolding fold_while
  fold_while-Reads r acc = fold_ahead-Reads r.ahead r acc refl

  pub fold_while-ahead :
      (r : Reader) (acc : A) → (fold_while p f r acc).0.ahead ≡ drop_while p r.ahead
  unfolding fold_while
  fold_while-ahead r acc = fold_ahead-ahead r.ahead r acc

  pub fold_while-acc :
      (r : Reader) (acc : A) → (fold_while p f r acc).1 ≡ foldl f acc (take_while p r.ahead)
  unfolding fold_while
  fold_while-acc r acc = fold_ahead-acc r.ahead r acc

pub skip_while-Reads : (p : ℕ → Bool) (r : Reader) → Reads r (take_while p r.ahead) (skip_while p r)
unfolding skip_while
skip_while-Reads p r = fold_while-Reads p _ r tt

pub skip_while-ahead : (p : ℕ → Bool) (r : Reader) → (skip_while p r).ahead ≡ drop_while p r.ahead
unfolding skip_while
skip_while-ahead p r = fold_while-ahead p _ r tt

pub peek_char-some : (r : Reader) (c : ℕ) (cs : List ℕ) → r.ahead ≡ c ∷ cs → peek_char r ≡ some c
peek_char-some r c cs h = ground arith

pub peek_char-none : (r : Reader) → r.ahead ≡ [] → peek_char r ≡ none
peek_char-none r h = ground arith

-- `ConsumeCharIf` reads at most one character.
moved_if : Bool → Reader → Bool × Reader
moved_if found r = if◌then◌else◌ {A = Bool × Reader} found (true, move_forward r) (false, r)

forward-Reads :
    (cs : List ℕ) (r : Reader) → r.ahead ≡ cs → (w : List ℕ) × Reads r w (move_forward r)
unfolding move_forward
forward-Reads [] r h =
    ([], record { text = ground arith; past = ground arith; moved = ground arith })
forward-Reads (c ∷ cs) r h = (c ∷ [], Reads-move_forward r c cs h)

pub move_forward-Reads : (r : Reader) → (w : List ℕ) × Reads r w (move_forward r)
move_forward-Reads r = forward-Reads r.ahead r refl

moved_if-Reads : (found : Bool) (r : Reader) → (w : List ℕ) × Reads r w (moved_if found r).1
unfolding moved_if
moved_if-Reads true r = move_forward-Reads r
moved_if-Reads false r = ([], Reads-refl r)

pub consume_char_if-Reads : (c : ℕ) (r : Reader) → (w : List ℕ) × Reads r w (consume_char_if c r).1
unfolding consume_char_if moved_if
consume_char_if-Reads c r = moved_if-Reads (peek_is (λ d. d == c) r) r

-- Stepping back undoes the last character that was read.
pub back-Reads :
    (r s : Reader) (w : List ℕ) (c : ℕ) → Reads r (w ++ c ∷ []) s → Reads r w (move_backward s)
unfolding move_backward
back-Reads r s w c h =
    subst (λ b. Reads r w (backward s b)) (sym (h.past ∙ reverse_onto-append w (c ∷ []) r.behind))
      (record {
        text = h.text ∙ append_assoc w (c ∷ []) s.ahead;
        past = refl;
        moved = omega (arith, h.moved, length-append {0} w (c ∷ []));
      })

pub ahead-move_forward :
    (r : Reader) (c : ℕ) (cs : List ℕ) → r.ahead ≡ c ∷ cs → (move_forward r).ahead ≡ cs
unfolding move_forward
ahead-move_forward r c cs h = ground arith
