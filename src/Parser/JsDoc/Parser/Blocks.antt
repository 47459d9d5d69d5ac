-- ===== src/Parser/JsDoc/Parser/Blocks.antt =====
-- aoba/parser/jsdoc/jsdoc_parser.cc: where `SkipToBlockTag` stops.
use aoba.Prelude
use mathlib.Core.Bool.{false≢true}
use aoba.Prelude.{
  Bool-cases, ==_iff, inl, inr, sym, ◌∙◌, false, ℕ, zero, suc, ◌+◌, ◌≤◌, ◌<◌, Bool, true, not, ◌&&◌,
  List, [], ◌∷◌, ◌==◌, arith, ◌≡◌, refl, length,
}
use aoba.Parser.Utils.CharacterReader.{move_forward, skip_while}
use aoba.Parser.Utils.CharacterReader.Reads.{skip_while-Reads}
use aoba.Parser.Utils.LexerUtils.{is_whitespace, is_line_terminator}
use aoba.Parser.Utils.BracketTracker.{BracketError}
use aoba.Parser.Utils.Steps.{Step, ◌>>=◌, pure, gets, modify, Succeeds, if-Succeeds}
use aoba.Parser.JsDoc.Parser.Actions.{
  JsDocParser, location, ahead, with_char, consume_char, skip, skip_whitespaces,
}
use aoba.Parser.JsDoc.Parser.Texts.{
  BlockState, normal_round, block_round, block_loop, skip_to_block_tag, brace, inline_tag, normal,
  whitespace,
}
use aoba.Parser.JsDoc.Parser.Rules.{remaining, skip_while-le}

-- A text from its first block tag on: from an at sign behind white space, outside the inline tags,
-- which go from a left brace with an at sign behind it to a right brace. `before` is the character
-- ahead of the text, and `in_inline_tag` says whether the text begins in an inline tag.
unfoldable pub from_block_tag : (before : ℕ) (in_inline_tag : Bool) → List ℕ → List ℕ
from_block_tag before in_inline_tag [] = []
from_block_tag before true (c ∷ cs) = from_block_tag c (not (c == b'}')) cs
from_block_tag before false (c ∷ cs) =
    let rest = from_block_tag c (c == b'@' && before == b'{') cs in
    Prelude.if◌then◌else◌ (c == b'@' && is_whitespace before) (c ∷ cs) rest

-- What a state of the loop says of the character before and of inline tags.
abbrev Follows : BlockState → ℕ → Bool → Type 0
Follows brace before tag = (before ≡ b'{') × (tag ≡ false)
Follows inline_tag before tag = tag ≡ true
Follows normal before tag =
    (is_whitespace before ≡ false) × ((before == b'{') ≡ false) × (tag ≡ false)
Follows whitespace before tag = (is_whitespace before ≡ true) × (tag ≡ false)

-- The parser `q` stands at the text `goal`, and the text ends between the location `from` and that
-- of `q`.
pub record StopsAtTag (from : ℕ) (goal : List ℕ) (end : ℕ) (q : JsDocParser) : Type 0 where
  pub at_tag : ahead q ≡ goal
  pub after : from ≤ end
  pub before : end ≤ location q

-- An at sign is no white space, and a left brace neither.
at-whitespace : is_whitespace b'@' ≡ false
unfolding is_whitespace
at-whitespace = refl

brace-whitespace : is_whitespace b'{' ≡ false
unfolding is_whitespace
brace-whitespace = refl

whitespace-at : (c : ℕ) → is_whitespace c ≡ true → (c == b'@') ≡ false
whitespace-at c e = elim (Bool-cases (c == b'@')) [
  | inl same ↦ absurd (false≢true (sym at-whitespace ∙ (rw ((==_iff c b'@').0 same) at e)))
  | inr other ↦ other
]

-- The text goes on past a character that is no block tag.
from_block_tag-next :
    (before c : ℕ) (cs : List ℕ)
    → (c == b'@' && is_whitespace before) ≡ false
    → from_block_tag before false (c ∷ cs) ≡ from_block_tag c (c == b'@' && before == b'{') cs
unfolding from_block_tag
from_block_tag-next before c cs e = rw e

module _ (goal : List ℕ) (before c : ℕ) (cs : List ℕ)
    (h : from_block_tag before false (c ∷ cs) ≡ goal) where
  -- Behind a character that is no at sign.
  past_other : (c == b'@') ≡ false → from_block_tag c false cs ≡ goal
  unfolding from_block_tag
  past_other e = rw e at h

  -- Behind a character that has no white space and no left brace before it.
  past_plain :
      is_whitespace before ≡ false → (before == b'{') ≡ false → from_block_tag c false cs ≡ goal
  unfolding from_block_tag
  past_plain e f = elim (Bool-cases (c == b'@')) [
    | inl same ↦ rw (same, e, f) at h
    | inr other ↦ past_other other
  ]

  -- Behind an at sign that has a left brace before it.
  past_inline : before ≡ b'{' → (c == b'@') ≡ true → from_block_tag c true cs ≡ goal
  unfolding from_block_tag is_whitespace
  past_inline e f = rw (e, f) at h

module _ (from : ℕ) (goal : List ℕ) (fault : Bool) (node_start : ℕ)
    (errors : List BracketError) where
  abbrev at : List ℕ → List ℕ → ℕ → JsDocParser
  at behind ahead location = record {
    reader = record { behind = behind; ahead = ahead; location = location; fault = fault };
    node_start = node_start;
    errors = errors;
  }

  -- Where the rounds of a loop stop, from fewer than `k` characters ahead.
  abbrev Stops : ℕ → (BlockState → ℕ → ℕ → Step JsDocParser ℕ) → Type 0
  Stops k loop =
      (state : BlockState) (before : ℕ) (in_inline_tag : Bool) (end tag : ℕ) (behind ahead : List ℕ)
      (location : ℕ)
      → Follows state before in_inline_tag
      → from_block_tag before in_inline_tag ahead ≡ goal
      → length ahead < k
      → from ≤ end
      → end ≤ location
      → Succeeds (StopsAtTag from goal) (loop state end tag (at behind ahead location))

  module _ (k : ℕ) (loop : BlockState → ℕ → ℕ → Step JsDocParser ℕ) (ih : Stops k loop) where
    normal_round-StopsAtTag :
        (c end tag : ℕ) (behind cs : List ℕ) (location : ℕ)
        → from_block_tag c false cs ≡ goal
        → length cs < k
        → from ≤ end
        → end ≤ location
        → Succeeds
            (StopsAtTag from goal)
            (normal_round loop c end tag (at behind (c ∷ cs) location))
    unfolding normal_round gets consume_char move_forward ◌>>=◌
    normal_round-StopsAtTag c end tag behind cs location h lt le le' =
        if-Succeeds (StopsAtTag from goal) (is_whitespace c) _ _ _
          (λ e.
            ih whitespace c false end tag (c ∷ behind) cs (location + 1) (e, refl) h lt le
              (omega (arith, le')))
          (λ e.
            if-Succeeds (StopsAtTag from goal) (c == b'{') _ _ _
              (λ f.
                ih brace c false (location + 1) location (c ∷ behind) cs (location + 1)
                  ((==_iff c b'{').0 f, refl) h lt (omega (arith, le, le')) (omega arith))
              (λ f.
                ih normal c false (location + 1) tag (c ∷ behind) cs (location + 1) (e, f, refl) h
                  lt (omega (arith, le, le')) (omega arith)))

    -- A round in an inline tag.
    inline_round-StopsAtTag :
        (before c end tag : ℕ) (behind cs : List ℕ) (location : ℕ)
        → from_block_tag before true (c ∷ cs) ≡ goal
        → length cs < k
        → from ≤ end
        → end ≤ location
        → Succeeds
            (StopsAtTag from goal)
            (block_round loop inline_tag c end tag (at behind (c ∷ cs) location))
    unfolding gets consume_char move_forward ◌>>=◌ from_block_tag is_whitespace
    inline_round-StopsAtTag before c end tag behind cs location h lt le le' =
        if-Succeeds (StopsAtTag from goal) (c == b'}') _ _ _
          (λ e.
            ih normal c false (location + 1) tag (c ∷ behind) cs (location + 1)
              (rw ((==_iff c b'}').0 e) (refl, refl, refl)) (rw e at h) lt (omega (arith, le, le'))
              (omega arith))
          (λ e.
            ih inline_tag c true end tag (c ∷ behind) cs (location + 1) refl (rw e at h) lt le
              (omega (arith, le')))

    block_round-StopsAtTag :
        (state : BlockState) (before c end tag : ℕ) (behind cs : List ℕ) (location : ℕ)
        → Follows state before false
        → from_block_tag before false (c ∷ cs) ≡ goal
        → length cs < k
        → from ≤ end
        → end ≤ location
        → Succeeds
            (StopsAtTag from goal)
            (block_round loop state c end tag (at behind (c ∷ cs) location))
    unfolding gets consume_char move_forward ◌>>=◌ pure from_block_tag
    block_round-StopsAtTag brace before c end tag behind cs location (s, t) h lt le le' =
        if-Succeeds (StopsAtTag from goal) (c == b'@') _ _ _
          (λ e.
            ih inline_tag c true end tag (c ∷ behind) cs (location + 1) refl
              (past_inline goal before c cs h s e) lt le (omega (arith, le')))
          (λ e.
            if-Succeeds (StopsAtTag from goal) (c == b'{') _ _ _
              (λ f.
                ih brace c false end tag (c ∷ behind) cs (location + 1) ((==_iff c b'{').0 f, refl)
                  (past_other goal before c cs h e) lt le (omega (arith, le')))
              (λ f.
                normal_round-StopsAtTag c end tag behind cs location
                  (past_other goal before c cs h e) lt le le'))
    block_round-StopsAtTag inline_tag before c end tag behind cs location s h lt le le' =
        absurd (false≢true s)
    block_round-StopsAtTag normal before c end tag behind cs location (s, f, t) h lt le le' =
        normal_round-StopsAtTag c end tag behind cs location (past_plain goal before c cs h s f) lt
          le le'
    block_round-StopsAtTag whitespace before c end tag behind cs location (s, t) h lt le le' =
        if-Succeeds (StopsAtTag from goal) (is_whitespace c) _ _ _
          (λ e.
            ih whitespace c false end tag (c ∷ behind) cs (location + 1) (e, refl)
              (past_other goal before c cs h (whitespace-at c e)) lt le (omega (arith, le')))
          (λ e.
            if-Succeeds (StopsAtTag from goal) (c == b'@') _ _ _
              (λ f. record { at_tag = rw (f, s) at h; after = le; before = le' })
              (λ f.
                normal_round-StopsAtTag c end tag behind cs location
                  (past_other goal before c cs h f) lt le le'))

    -- A round in any state.
    any_round-StopsAtTag :
        (state : BlockState) (before : ℕ) (in_inline_tag : Bool) (c end tag : ℕ)
        (behind cs : List ℕ) (location : ℕ)
        → Follows state before in_inline_tag
        → from_block_tag before in_inline_tag (c ∷ cs) ≡ goal
        → length cs < k
        → from ≤ end
        → end ≤ location
        → Succeeds
            (StopsAtTag from goal)
            (block_round loop state c end tag (at behind (c ∷ cs) location))
    any_round-StopsAtTag inline_tag before true c end tag behind cs location s h =
        inline_round-StopsAtTag before c end tag behind cs location h
    any_round-StopsAtTag inline_tag before false c end tag behind cs location s h =
        absurd (false≢true s)
    any_round-StopsAtTag state before false c end tag behind cs location s h =
        block_round-StopsAtTag state before c end tag behind cs location s h
    any_round-StopsAtTag brace before true c end tag behind cs location (s, t) h =
        absurd (false≢true (sym t))
    any_round-StopsAtTag normal before true c end tag behind cs location (s, f, t) h =
        absurd (false≢true (sym t))
    any_round-StopsAtTag whitespace before true c end tag behind cs location (s, t) h =
        absurd (false≢true (sym t))

  block_loop-StopsAtTag : (k : ℕ) → Stops k (block_loop k)
  unfolding block_loop with_char ◌>>=◌ modify pure from_block_tag
  block_loop-StopsAtTag zero state before t end tag behind ahead location s h lt le le' =
      absurd (omega (arith, lt))
  block_loop-StopsAtTag (suc k) inline_tag before t end tag behind [] location s h lt le le' =
      record { at_tag = h; after = le; before = le' }
  block_loop-StopsAtTag (suc k) state before t end tag behind [] location s h lt le le' = record {
    at_tag = h;
    after = le;
    before = le';
  }
  block_loop-StopsAtTag (suc k) state before t end tag behind (c ∷ cs) location s h lt le le' =
      any_round-StopsAtTag k (block_loop k) (block_loop-StopsAtTag k) state before t c end tag
        behind cs location s h (omega (arith, lt)) le le'

abbrev pub is_blank : ℕ → Bool
is_blank c = is_whitespace c && not (is_line_terminator c)

-- `SkipToBlockTag` returns from any state, on more fuel than there are characters ahead. It skips
-- white space up to the end of the line, and from there it stops exactly at the first block tag, or
-- at the end of the range where there is none; a block tag is an at sign behind white space or at
-- that place, outside of inline tags. The text that it returns the end of lies between the location
-- that it began at and the one where it stops.
pub skip_to_block_tag-StopsAtTag :
    (k : ℕ) (p : JsDocParser)
    → remaining p < k
    → Succeeds
        (StopsAtTag (location p) (from_block_tag b' ' false (skip_while is_blank p.reader).ahead))
        (skip_to_block_tag k p)
unfolding skip_to_block_tag skip_whitespaces skip gets modify ◌>>=◌ is_whitespace
skip_to_block_tag-StopsAtTag k p lt =
    let r = skip_while is_blank p.reader in
    let reads = skip_while-Reads is_blank p.reader in
    block_loop-StopsAtTag (location p) _ r.fault p.node_start p.errors k whitespace b' ' false
      r.location 0 r.behind r.ahead r.location (refl, refl) refl
      (omega (arith, skip_while-le is_blank p, lt)) (omega (arith, reads.moved)) (omega arith)
