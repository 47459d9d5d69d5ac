-- ===== src/Parser/Regexp/Parser/Nodes.antt =====
-- The trees that aoba/parser/regexp/regexp_parser.cc builds.
use aoba.Prelude.{ℕ, min, max, Bool, true, false, Option, some, none, if◌then◌else◌}
use aoba.Parser.Regexp.Lexer.{
  RegExpErrorCode, RegExpToken, RegExpNode, literal, any_char, char_set, complement_char_set,
}

-- `leaf` is a token that is a tree. Each other tree has its range; `repeated` has the token of the
-- repeat.
mutual
  pub data Tree : Type 0 where
    leaf : RegExpToken → Tree
    empty_range : (start end : ℕ) → Tree
    invalid : (start end : ℕ) → RegExpErrorCode → Tree
    capture : (start end : ℕ) → Tree → Tree
    or_of : (start end : ℕ) → Trees → Tree
    sequence : (start end : ℕ) → Trees → Tree
    repeated : (start end : ℕ) → Tree → RegExpToken → Tree

  pub data Trees : Type 0 where
    nil : Trees
    push : Tree → Trees → Trees

abbrev pub reverse_trees : Trees → Trees → Trees
reverse_trees nil done = done
reverse_trees (push t ts) done = reverse_trees ts (push t done)

-- The tokens that `ParsePrimary` returns as they are.
abbrev pub is_primary : RegExpNode → Bool
is_primary any_char = true
is_primary char_set = true
is_primary complement_char_set = true
is_primary literal = true
is_primary (RegExpNode.assertion kind) = true
is_primary (RegExpNode.repeat method least most) = false
is_primary (RegExpNode.syntax_char kind) = false

abbrev is_literal : RegExpNode → Bool
is_literal any_char = false
is_literal char_set = false
is_literal complement_char_set = false
is_literal literal = true
is_literal (RegExpNode.assertion kind) = false
is_literal (RegExpNode.repeat method least most) = false
is_literal (RegExpNode.syntax_char kind) = false

-- `pattern == ast::SyntaxCode::LiteralRegExp`, with the token.
abbrev as_literal : Tree → Option RegExpToken
as_literal (leaf token) = if is_literal token.node then some token else none
as_literal (empty_range start end) = none
as_literal (invalid start end code) = none
as_literal (capture start end pattern) = none
as_literal (or_of start end members) = none
as_literal (sequence start end members) = none
as_literal (repeated start end pattern repeat_token) = none

abbrev merge_tokens : Option RegExpToken → Option RegExpToken → Option Tree
merge_tokens none b = none
merge_tokens (some a) none = none
merge_tokens (some a) (some b) =
    some (leaf (record { start = min a.start b.start; end = max a.end b.end; node = literal }))

-- `CanMergeNodes`, with the merged literal where the nodes can be merged.
unfoldable pub merge_nodes : Tree → Tree → Option Tree
merge_nodes pattern₁ pattern₂ = merge_tokens (as_literal pattern₁) (as_literal pattern₂)
