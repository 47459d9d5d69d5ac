-- ===== src/Parser/Utils/Tests.antt =====
-- The theorems of the bracket tracker at concrete inputs.
use aoba.Prelude.{ℕ, ◌+◌, Option, some, none, List, [], ◌∷◌, ◌≡◌, refl}
use aoba.Ast.TokenKind.{
  left_parenthesis, right_parenthesis, left_brace, right_brace, TokenKind, kind_index,
}
use aoba.Parser.Utils.BracketTracker.{
  Description, Node, BracketTracker, feed, feed_each, feed_all, finish,
}
use aoba.Parser.Utils.BracketTracker.Bounds.{feed-feed_each}
use aoba.Parser.Utils.BracketTracker.Nesting.{Nested, nothing, word, enclosed, finish-Nested, role}

abbrev parentheses : Description
parentheses = record {
  open_kind = left_parenthesis;
  open_error = 1;
  close_kind = right_parenthesis;
  close_error = 2;
}

abbrev braces : Description
braces = record {
  open_kind = left_brace;
  open_error = 3;
  close_kind = right_brace;
  close_error = 4;
}

abbrev brackets : List Description
brackets = parentheses ∷ braces ∷ []

abbrev tracker : BracketTracker
tracker = record { descriptions = brackets; range_end = 9; stack = []; errors = [] }

abbrev node : ℕ → Option TokenKind → Node
node start kind = record { start = start; end = start + 1; kind = kind }

-- `({x})`.
abbrev nested_tokens : List Node
nested_tokens =
    node 0 (some left_parenthesis)
    ∷ node 1 (some left_brace)
    ∷ node 2 none
    ∷ node 3 (some right_brace)
    ∷ node 4 (some right_parenthesis)
    ∷ []

nested_tokens-Nested : Nested brackets nested_tokens
unfolding role kind_index
nested_tokens-Nested =
    enclosed parentheses _ _
      (node 1 (some left_brace) ∷ node 2 none ∷ node 3 (some right_brace) ∷ []) [] refl refl refl
      refl
      (enclosed braces _ _ (node 2 none ∷ []) [] refl refl refl refl
        (word (node 2 none) [] refl nothing) nothing)
      nothing

finish-Nested_example :
    (feed_all nested_tokens tracker ≡ tracker) × (finish (feed_all nested_tokens tracker) ≡ tracker)
finish-Nested_example = finish-Nested nested_tokens tracker refl nested_tokens-Nested

-- A closing bracket that matches nothing.
feed-feed_each_example :
    feed (node 3 (some right_brace)) tracker
    ≡ feed_each right_brace (node 3 (some right_brace)) tracker.descriptions tracker
feed-feed_each_example = feed-feed_each right_brace (node 3 (some right_brace)) tracker refl
