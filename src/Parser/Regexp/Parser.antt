-- ===== src/Parser/Regexp/Parser.antt =====
-- aoba/parser/regexp/regexp_parser.{h,cc}: the trees of regular expressions. `Actions` has the
-- parser's state with its helpers, this file the grammar.
pub mod Nodes
pub mod Actions
pub mod Fuel
pub mod Termination
use aoba.Prelude.{
  ℕ, zero, suc, ◌+◌, ◌-◌, ◌*◌, ◌/◌, ◌%◌, ◌^◌, ◌≤◌, ◌<◌, min, max, Bool, true, false, not, ◌&&◌,
  ◌||◌, Option, some, none, List, [], ◌∷◌, ◌++◌, ◌≡◌, ◌≢◌, ◌↔◌, ◌⊎◌, inl, inr, refl, sym, ap, ◌∙◌,
  length, take, drop, length-append, append_assoc, append-nil, Bool-cases, if◌then◌else◌, arith,
  ltb, leb, ◌==◌, within, take_while, drop_while, All, reverse_onto, ==_iff, leb→le, ltb→lt, le→leb,
  lt→ltb, get_elem?,
}
use aoba.Ast.TokenKind.{TokenKind}
use aoba.Parser.Regexp.Lexer.{RegExpToken, regexp_expect_primary, regexp_expect_rparen, literal}
use aoba.Parser.Regexp.Parser.Nodes.{
  Tree, Trees, nil, push, leaf, empty_range, capture, or_of, sequence, repeated, invalid,
  merge_nodes, reverse_trees, is_primary,
}
use aoba.Parser.Regexp.Parser.Actions.{
  RegExpParser, Outcome, M, ◌>>=◌, ◌>>◌, pure, exhausted, scope_start, scope_end, can_peek_token,
  peek_is_kind, peek_token, consume_token, consume_kind, consume_repeat, add_error, push_group,
  pop_group, top_group, has_group, is_strict, last_start, lexer_location,
}

-- `NewOr` and `NewSequence`, of members in order: one member stands for itself.
unfoldable pub new_or : ℕ → Trees → M Tree
new_or start nil = do end ← scope_end; pure (or_of start end nil)
new_or start (push member nil) = pure member
new_or start (push first (push second rest)) = do
  end ← scope_end
  pure (or_of start end (push first (push second rest)))

unfoldable pub new_sequence : ℕ → Trees → M Tree
new_sequence start nil = do end ← scope_end; pure (sequence start end nil)
new_sequence start (push member nil) = pure member
new_sequence start (push first (push second rest)) = do
  end ← scope_end
  pure (sequence start end (push first (push second rest)))

unfoldable pub report_group : Bool → M (Unit {0})
report_group true = pure tt
report_group false = do top ← top_group; end ← scope_end; add_error top end regexp_expect_rparen

-- `ParseParenthesis`, behind the opening parenthesis; `alternatives` is `ParseOr`.
unfoldable pub parse_group : M Tree → M Tree
parse_group alternatives = do
  group ← last_start
  push_group group
  pattern ← alternatives
  closed ← consume_kind TokenKind.right_parenthesis
  report_group closed
  pop_group
  pure pattern

unfoldable pub parse_parenthesis : M Tree → M Tree
parse_parenthesis alternatives = do
  start ← scope_start
  closed ← consume_kind TokenKind.right_parenthesis
  if closed then new_sequence start nil else parse_group alternatives

unfoldable pub parse_capture : ℕ → M Tree → M Tree
parse_capture start alternatives = do
  pattern ← parse_parenthesis alternatives
  end ← scope_end
  pure (capture start end pattern)

-- What no other case of `ParsePrimary` takes.
unfoldable pub parse_other : ℕ → M Tree
parse_other start = do
  token ← consume_token
  strict ← is_strict
  if strict
      then (do
        end ← scope_end
        add_error start end regexp_expect_primary
        pure (invalid start end regexp_expect_primary))
      else pure (leaf (record { start = token.start; end = token.end; node = literal }))

unfoldable pub parse_primary : M Tree → M Tree
parse_primary alternatives = do
  start ← scope_start
  token ← peek_token
  if is_primary token.node then (do consumed ← consume_token; pure (leaf consumed)) else (do
    opens ← consume_kind TokenKind.left_parenthesis
    if opens then parse_capture start alternatives else (do
      groups ← consume_kind TokenKind.colon
      if groups then parse_parenthesis alternatives else parse_other start))

abbrev pub add_repeat : ℕ → Tree → Option RegExpToken → M Tree
add_repeat start pattern none = pure pattern
add_repeat start pattern (some repeat_token) = do
  end ← scope_end
  pure (repeated start end pattern repeat_token)

unfoldable pub parse_repeat : M Tree → M Tree
parse_repeat alternatives = do
  start ← scope_start
  pattern ← parse_primary alternatives
  repeat_token ← consume_repeat
  add_repeat start pattern repeat_token

-- A literal behind a literal is merged with it; the last pattern comes first.
unfoldable pub add_pattern : Tree → Trees → Trees
add_pattern pattern nil = push pattern nil
add_pattern pattern (push back rest) = elim (merge_nodes back pattern) [
  | none ↦ push pattern (push back rest)
  | some merged ↦ push merged rest
]

unfoldable pub ends_sequence : M Bool
ends_sequence = do
  more ← can_peek_token
  at_or ← peek_is_kind TokenKind.bit_or
  at_end ← peek_is_kind TokenKind.right_parenthesis
  grouped ← has_group
  pure (not more || at_or || (at_end && grouped))

-- The loop of `ParseSequence`.
unfoldable pub sequence_loop : ℕ → M Tree → Trees → M Trees
sequence_loop zero alternatives patterns = exhausted
sequence_loop (suc n) alternatives patterns = do
  ends ← ends_sequence
  if ends then pure patterns else (do
    pattern ← parse_repeat alternatives
    sequence_loop n alternatives (add_pattern pattern patterns))

unfoldable pub parse_sequence : ℕ → M Tree → M Tree
parse_sequence n alternatives = do
  start ← scope_start
  first ← parse_repeat alternatives
  patterns ← sequence_loop n alternatives (push first nil)
  new_sequence start (reverse_trees patterns nil)

-- What follows `|` in the loop of `ParseOr`: a member, and whether the loop goes on.
unfoldable pub or_member : M Tree → M (Tree × Bool)
or_member parse = do
  more ← can_peek_token
  at_end ← peek_is_kind TokenKind.right_parenthesis
  at_or ← peek_is_kind TokenKind.bit_or
  if not more
      then (do here ← lexer_location; pure (empty_range here here, false))
      else if at_end
      then (do token ← peek_token; pure (empty_range token.start token.end, false))
      else if at_or
      then (do token ← consume_token; pure (empty_range token.start token.end, true))
      else (do member ← parse; pure (member, true))

-- The loop of `ParseOr`; the last member comes first.
unfoldable pub or_loop : ℕ → M Tree → Trees → M Trees
or_loop zero parse members = exhausted
or_loop (suc n) parse members = do
  found ← consume_kind TokenKind.bit_or
  if not found then pure members else (do
    next ← or_member parse
    if next.1 then or_loop n parse (push next.0 members) else pure (push next.0 members))

unfoldable pub first_member : M Tree → M Tree
first_member parse = do
  at_or ← peek_is_kind TokenKind.bit_or
  if at_or then (do token ← peek_token; pure (empty_range token.start token.end)) else parse

-- `ParseOr`, on fuel for its depth and for the rounds of its loops.
unfoldable pub parse_or : ℕ → M Tree
parse_or zero = exhausted
parse_or (suc n) = do
  start ← scope_start
  first ← first_member (parse_sequence n (parse_or n))
  members ← or_loop (suc n) (parse_sequence n (parse_or n)) (push first nil)
  new_or start (reverse_trees members nil)

-- `Parse`, with fuel for each character of the range.
unfoldable pub parse : RegExpParser → Outcome Tree
parse p = parse_or (length p.lexer.reader.ahead + 2) p
