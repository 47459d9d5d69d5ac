-- ===== src/Parser/Script/Rules.antt =====
-- aoba/parser/parser.cc: how much of the tokens and the text the helpers of the parser leave.
use aoba.Prelude.{ℕ, Bool, Option, some, none, List, [], ◌∷◌, ◌++◌, ◌≡◌, refl}
use aoba.Ast.TokenKind.{TokenKind}
use aoba.Parser.Utils.BracketTracker.{BracketError}
use aoba.Parser.Utils.Steps
use aoba.Parser.Utils.Steps.{
  if◌then◌else◌, Outcome, returned, crashed, out_of_fuel, Step, ◌>>=◌, ◌>>◌, pure, crash, exhausted,
  gets, modify, Ends, Ends-and_then, Ends-weaken, if-Ends,
}
use aoba.Parser.Script.Nodes.{ScriptToken}
use aoba.Parser.Script.Actions.{ScriptParser}
use aoba.Parser.Script.Reads.{
  remaining, Still, Calm, CalmAhead, Moves, Follows, Shown, peeked-Shown, consume_token-Moves,
  consume_token-Calm,
}
use aoba.Parser.Script.Words.{error_number, ErrorCode}
use aoba.Parser.Script.Nodes.{Syntax, JsTrees}
use aoba.Parser.Script.Ranges.{
  expect, check, slice, add_range_error, add_token_error, source_end, add_error, last_token,
  source_code_range, new_node, new_empty_name, new_elision_expression, new_invalid_at,
  new_invalid_expression, new_invalid_statement, set_node_start, scope, report_missing, skip_kind,
  expect_punctuator, expect_semicolon, report_newline, optional_name,
}
use aoba.Parser.Script.Looks.{
  with_token-Still, with_token-Calm, with_token-Moves, if_kind-Calm, if_word-Calm,
  if_kind_flat-Calm, if_word_flat-Calm,
}

pub ruleset still_rules = (
  Steps.pure-Still, Steps.gets-Still, Steps.crash-Still, Steps.bind-Still, Steps.if-Still,
  with_token-Still,
)

pub expect-Still : {A : Type 0} (o : Option A) → Still (expect o)
expect-Still none = Steps.crash-Still remaining
expect-Still (some a) = Steps.pure-Still remaining a

pub check-Still : (measure : ScriptParser → ℕ) (found : Bool) → Steps.Still measure (check found)
unfolding check
check-Still measure found = search still_rules

pub slice-Still : (start end : ℕ) → Still (slice start end)
unfolding slice
slice-Still start end = search (still_rules, check-Still)

module _ (measure : ScriptParser → ℕ)
    (keeps : (p : ScriptParser) (errors : List BracketError)
      → measure (record p { errors = errors }) ≡ measure p) where
  push_error-Keeps :
      (start end : ℕ) (code : ErrorCode)
      → Steps.Still measure (
          modify (λ p. record p {
            errors =
                p.errors ++ (record { start = start; end = end; code = error_number code } ∷ []);
          }))
  unfolding modify
  push_error-Keeps start end code = record { keeps = λ s. keeps s _ }

  pub add_range_error-Keeps :
      (range : ℕ × ℕ) (code : ErrorCode) → Steps.Still measure (add_range_error range code)
  unfolding add_range_error
  add_range_error-Keeps (start, end) code = search (still_rules, check-Still, push_error-Keeps)

  -- An error keeps any measure that does not look at the errors.
  pub add_error-Keeps : (code : ErrorCode) → Steps.Still measure (add_error code)
  unfolding add_error add_token_error source_end
  add_error-Keeps code = search (still_rules, add_range_error-Keeps)

pub add_range_error-Still : (range : ℕ × ℕ) (code : ErrorCode) → Still (add_range_error range code)
add_range_error-Still = add_range_error-Keeps remaining (λ p errors. refl)

pub add_token_error-Still :
    (token : ScriptToken) (code : ErrorCode) → Still (add_token_error token code)
unfolding add_token_error
add_token_error-Still token code = add_range_error-Still (token.start, token.end) code

pub source_end-Still : Still source_end
unfolding source_end
source_end-Still = search still_rules

pub add_error-Still : (code : ErrorCode) → Still (add_error code)
add_error-Still = add_error-Keeps remaining (λ p errors. refl)

last_token-Still : Still last_token
unfolding last_token
last_token-Still = search (still_rules, expect-Still)

pub source_code_range-Still : Still source_code_range
unfolding source_code_range
source_code_range-Still = search (still_rules, last_token-Still, slice-Still)

pub new_node-Still : (syntax : Syntax) (children : JsTrees) → Still (new_node syntax children)
unfolding new_node
new_node-Still syntax children = search (still_rules, source_code_range-Still)

pub new_empty_name-Still : Still new_empty_name
unfolding new_empty_name
new_empty_name-Still = search still_rules

pub new_elision_expression-Still : Still new_elision_expression
unfolding new_elision_expression
new_elision_expression-Still = search (still_rules, last_token-Still)

pub new_invalid_at-Still : (range : ℕ × ℕ) (code : ErrorCode) → Still (new_invalid_at range code)
unfolding new_invalid_at
new_invalid_at-Still range code = search (still_rules, add_range_error-Still)

pub new_invalid_expression-Still : (code : ErrorCode) → Still (new_invalid_expression code)
unfolding new_invalid_expression
new_invalid_expression-Still code = search (still_rules, source_end-Still, new_invalid_at-Still)

pub new_invalid_statement-Still : (code : ErrorCode) → Still (new_invalid_statement code)
unfolding new_invalid_statement
new_invalid_statement-Still code =
    search (still_rules, source_code_range-Still, add_range_error-Still)

set_node_start-Still : (start : ℕ) → Still (set_node_start start)
unfolding set_node_start modify
set_node_start-Still start = record { keeps = λ s. refl }

report_missing-Still : (back : ℕ) (code : ErrorCode) → Still (report_missing back code)
unfolding report_missing
report_missing-Still back code =
    search (still_rules, expect-Still, slice-Still, add_range_error-Still)

pub report_newline-Still : (code : ErrorCode) → Still (report_newline code)
unfolding report_newline
report_newline-Still code = search (still_rules, add_error-Still)

-- The steps that the parser makes without a test of what they leave.
pub ruleset helper_rules = (
  still_rules, expect-Still, add_range_error-Still, add_token_error-Still, add_error-Still,
  source_code_range-Still, new_node-Still, new_empty_name-Still, new_elision_expression-Still,
  new_invalid_at-Still, new_invalid_expression-Still, new_invalid_statement-Still,
  report_newline-Still,
)

pub ruleset calm_rules = (
  helper_rules, Steps.bind-Calm, Steps.if-Calm, Steps.if-CalmAhead, Steps.Still-Calm,
  Steps.Calm-CalmAhead, with_token-Calm, consume_token-Calm, if_kind_flat-Calm, if_word_flat-Calm,
)

pub skip_kind-Calm : (n : ℕ) (kind : TokenKind) → Calm n (skip_kind kind)
unfolding skip_kind
skip_kind-Calm n kind = search calm_rules depth 12 fits 4000

pub expect_punctuator-Calm :
    (n : ℕ) (kind : TokenKind) (code : ErrorCode) → Calm n (expect_punctuator kind code)
unfolding expect_punctuator
expect_punctuator-Calm n kind code = search (calm_rules, report_missing-Still) depth 12 fits 4000

pub expect_semicolon-Calm : (n : ℕ) → Calm n expect_semicolon
unfolding expect_semicolon
expect_semicolon-Calm n = search (calm_rules, expect_punctuator-Calm) depth 14 fits 4000

pub optional_name-Calm : (n : ℕ) → Calm n optional_name
unfolding optional_name
optional_name-Calm n = search calm_rules depth 12 fits 4000

-- The steps that parse on.
pub ruleset step_rules = (
  helper_rules, Steps.bind-Calm, Steps.bind-CalmAhead, Steps.bind-Still-CalmAhead, Steps.bind-Moves,
  Steps.bind-Calm-Moves, Steps.bind-Still-Moves, Steps.if-Calm, Steps.if-CalmAhead, Steps.if-Moves,
  Steps.Still-Calm, Steps.Moves-CalmAhead, Steps.Calm-CalmAhead, consume_token-Moves,
  with_token-Calm, with_token-Moves, if_kind-Calm, if_word-Calm, skip_kind-Calm,
  expect_punctuator-Calm, expect_semicolon-Calm, optional_name-Calm,
)

-- The steps that follow one that moved, with no look at what they leave.
pub ruleset tail_rules =
    (calm_rules, skip_kind-Calm, expect_punctuator-Calm, expect_semicolon-Calm, optional_name-Calm)

module _ {A : Type 0} (body : Step ScriptParser A) (n : ℕ) where
  pub scope-Calm : Calm n body → Calm n (scope body)
  unfolding scope
  scope-Calm h = search (calm_rules, set_node_start-Still) depth 12 fits 4000

  pub scope-Moves : Moves n body → Moves n (scope body)
  unfolding scope
  scope-Moves h =
      search
        (
          still_rules, Steps.bind-Still-Moves, Steps.bind-Calm-Moves, Steps.Still-Calm,
          Steps.bind-Calm, set_node_start-Still,
        )
        depth 12 fits 4000

  pub scope-Still : Still body → Still (scope body)
  unfolding scope
  scope-Still h = search (still_rules, set_node_start-Still) depth 12 fits 4000

-- The steps that move, and what follows them at the same bound.
pub ruleset move_rules = (
  tail_rules, Steps.bind-Calm-Moves, Steps.bind-Still-Moves, Steps.if-Moves, consume_token-Moves,
  with_token-Moves, scope-Moves, scope-Calm,
)

-- What a scope returns, where the start of the node is not looked at.
pub scope-Ends :
    {A : Type 0} (P : A → ScriptParser → Type 0) (body : Step ScriptParser A) (s : ScriptParser)
    → ((start : ℕ) → Ends P (body (record s { node_start = start })))
    → ((a : A) (q : ScriptParser) (start : ℕ) → P a q → P a (record q { node_start = start }))
    → Ends P (scope body s)
unfolding scope ◌>>=◌ gets set_node_start modify pure
scope-Ends P body s h k =
    Steps.Ends-and_then P P (body _) _ (h _) (λ a q holds. k a q s.node_start holds)
