-- ===== src/Parser/Regexp/Lexer/Numbers.antt =====
-- aoba/parser/regexp/regexp_lexer.cc: the size of the number that `HandleDigits` reads.
use aoba.Prelude.{ℕ, ◌<◌, List, [], ◌∷◌, sym, arith, take_while}
use mathlib.Core.List.{foldl}
use mathlib.Core.Path.{subst}
use aoba.Parser.Utils.CharacterReader.Reads.{fold_while-acc}
use aoba.Parser.Utils.LexerUtils.{is_digit_char}
use aoba.Parser.Regexp.Lexer.{
  RegExpLexer, DigitsLoop, digit_step, digits_loop, handle_digits, regexp_infinity,
}

digit_step-lt :
    (start first : ℕ) (s : DigitsLoop) (c : ℕ)
    → s.number < regexp_infinity
    → (digit_step 10 start first s c).number < regexp_infinity
unfolding digit_step
digit_step-lt start first s c h = ground arith

digits-lt :
    (start first : ℕ) (w : List ℕ) (s : DigitsLoop)
    → s.number < regexp_infinity
    → (foldl (digit_step 10 start first) s w).number < regexp_infinity
digits-lt start first [] s h = h
digits-lt start first (c ∷ w) s h = digits-lt start first w _ (digit_step-lt start first s c h)

digits_loop-lt : (l : RegExpLexer) → (digits_loop 10 l).1.number < regexp_infinity
unfolding digits_loop
digits_loop-lt l =
    let start : DigitsLoop = record { number_of_digits = 0; number = 0; errors = l.errors } in
    subst (λ (s : DigitsLoop). s.number < regexp_infinity)
      (sym (
        fold_while-acc (λ c. is_digit_char c 10) (digit_step 10 l.token_start l.reader.location)
          l.reader start))
      (digits-lt l.token_start l.reader.location
        (take_while (λ c. is_digit_char c 10) l.reader.ahead) start (omega arith))

-- Whatever digits stand ahead, and however many, the number that `HandleDigits` reads in base 10
-- is below `kRegExpInfinity`.
pub handle_digits-lt : (l : RegExpLexer) → (handle_digits 10 l).0 < regexp_infinity
unfolding handle_digits
handle_digits-lt l = digits_loop-lt l
