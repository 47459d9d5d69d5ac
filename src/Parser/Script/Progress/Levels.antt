-- ===== src/Parser/Script/Progress/Levels.antt =====
-- aoba/parser/parser_expressions.cc: each level of the expressions moves.
use aoba.Prelude.{ℕ, zero, suc, ◌-◌}
use aoba.Parser.Utils.Steps
use aoba.Parser.Utils.Steps.{if◌then◌else◌, Step, ◌>>=◌, ◌>>◌, pure}
use aoba.Parser.Script.Nodes.{ScriptToken, JsTree}
use aoba.Parser.Script.Calls.{Caller}
use aoba.Parser.Script.Reads.{remaining, Calm, Moves}
use aoba.Parser.Script.Rules.{step_rules, tail_rules, scope-Calm, scope-Moves}
use aoba.Parser.Script.Progress.{CallsEnd}
use aoba.Parser.Script.Progress.Primary.{parse_primary_expression-Moves}
use aoba.Parser.Script.Progress.Expressions.{
  members_behind-Calm, arguments_loop-Calm, calls_behind-Calm, binary_loop-Calm, comma_loop-Calm,
  new_comma-Still, new_unary-Still, after_operand-Calm,
}
use aoba.Parser.Script.Operators.{parse_arguments, members_behind, calls_behind}
use aoba.Parser.Script.Expressions.{
  new_behind, parse_new_expression, parse_left_hand_side, parse_update_expression, yield_behind,
  parse_yield_expression, parse_unary_expression, parse_binary_expression,
  parse_conditional_expression, conditional_behind, assignment_behind, parse_assignment_expression,
  parse_comma_expression, parse_expression,
}

module _ (n : ℕ) (call : Caller) (c : CallsEnd n call) where
  parse_arguments-Calm : Calm n (parse_arguments n call)
  unfolding parse_arguments
  parse_arguments-Calm = search (tail_rules, arguments_loop-Calm n call c.moves) depth 12 fits 4000

  members-Calm : (object : JsTree) → Calm n (members_behind n call object)
  members-Calm = members_behind-Calm n call c.calm

  new_behind-Calm : (name : ScriptToken) → Calm n (new_behind n call name)
  unfolding new_behind
  new_behind-Calm name =
      search (tail_rules, c.calm, members-Calm, parse_arguments-Calm) depth 14 fits 4000

  pub parse_new_expression-Moves : Moves (suc n) (parse_new_expression n call)
  unfolding parse_new_expression
  parse_new_expression-Moves =
      search
        (step_rules, scope-Moves, parse_primary_expression-Moves, new_behind-Calm, members-Calm)
        depth 14 fits 4000

  pub parse_new_expression-Calm : Calm (suc n) (parse_new_expression n call)
  unfolding parse_new_expression
  parse_new_expression-Calm =
      search (step_rules, scope-Calm, parse_primary_expression-Moves, new_behind-Calm, members-Calm)
        depth 14 fits 4000

  calls-Calm : (object : JsTree) → Calm n (calls_behind n call (parse_arguments n call) object)
  calls-Calm = calls_behind-Calm n call (parse_arguments n call) c.calm parse_arguments-Calm

  pub parse_left_hand_side-Moves : Moves (suc n) (parse_left_hand_side n call)
  unfolding parse_left_hand_side
  parse_left_hand_side-Moves =
      search (step_rules, scope-Moves, parse_new_expression-Moves, calls-Calm) depth 14 fits 4000

  pub parse_left_hand_side-Calm : Calm (suc n) (parse_left_hand_side n call)
  unfolding parse_left_hand_side
  parse_left_hand_side-Calm =
      search (step_rules, scope-Calm, parse_new_expression-Moves, calls-Calm) depth 14 fits 4000

  parse_update_expression-Moves : Moves (suc n) (parse_update_expression n call)
  unfolding parse_update_expression
  parse_update_expression-Moves =
      search
        (
          step_rules, scope-Moves, c.calm, new_unary-Still, parse_left_hand_side-Moves,
          after_operand-Calm,
        )
        depth 14 fits 4000

  yield_behind-Calm : (keyword : ScriptToken) → Calm n (yield_behind n call keyword)
  unfolding yield_behind
  yield_behind-Calm keyword = search (tail_rules, c.calm, new_unary-Still) depth 14 fits 4000

  parse_yield_expression-Moves : Moves (suc n) (parse_yield_expression n call)
  unfolding parse_yield_expression
  parse_yield_expression-Moves =
      search (step_rules, scope-Moves, yield_behind-Calm) depth 12 fits 4000

  pub parse_unary_expression-Moves : Moves (suc n) (parse_unary_expression n call)
  unfolding parse_unary_expression
  parse_unary_expression-Moves =
      search
        (
          step_rules, scope-Moves, c.calm, new_unary-Still, parse_yield_expression-Moves,
          parse_update_expression-Moves,
        )
        depth 14 fits 4000

  pub parse_unary_expression-Calm : Calm (suc n) (parse_unary_expression n call)
  unfolding parse_unary_expression
  parse_unary_expression-Calm =
      search
        (
          step_rules, scope-Calm, c.calm, new_unary-Still, parse_yield_expression-Moves,
          parse_update_expression-Moves,
        )
        depth 14 fits 4000

  parse_binary_expression-Calm : (level : ℕ) → Calm n (parse_binary_expression n call level)
  unfolding parse_binary_expression
  parse_binary_expression-Calm zero =
      scope-Calm _ n (Steps.Calm-pred remaining n _ parse_unary_expression-Calm)
  parse_binary_expression-Calm (suc level) = scope-Calm _ n (
      Steps.bind-Calm remaining (parse_binary_expression n call level) _ n
        (parse_binary_expression-Calm level)
        (binary_loop-Calm n (11 - level) _ (parse_binary_expression-Calm level)))

  parse_binary_expression-Moves : (level : ℕ) → Moves (suc n) (parse_binary_expression n call level)
  unfolding parse_binary_expression
  parse_binary_expression-Moves zero = scope-Moves _ (suc n) parse_unary_expression-Moves
  parse_binary_expression-Moves (suc level) = scope-Moves _ (suc n) (
      Steps.bind-Moves remaining (parse_binary_expression n call level) _ n
        (parse_binary_expression-Moves level)
        (binary_loop-Calm n (11 - level) _ (parse_binary_expression-Calm level)))

  conditional_behind-Calm : (condition : JsTree) → Calm n (conditional_behind n call condition)
  unfolding conditional_behind
  conditional_behind-Calm condition = search (tail_rules, c.calm) depth 12 fits 4000

  parse_conditional_expression-Moves : Moves (suc n) (parse_conditional_expression n call)
  unfolding parse_conditional_expression
  parse_conditional_expression-Moves =
      search (step_rules, scope-Moves, parse_binary_expression-Moves, conditional_behind-Calm) depth
        12 fits 4000

  assignment_behind-Calm : (left : JsTree) → Calm n (assignment_behind n call left)
  unfolding assignment_behind
  assignment_behind-Calm left = search (tail_rules, c.calm) depth 12 fits 4000

  pub parse_assignment_expression-Moves : Moves (suc n) (parse_assignment_expression n call)
  unfolding parse_assignment_expression
  parse_assignment_expression-Moves =
      search (step_rules, scope-Moves, parse_conditional_expression-Moves, assignment_behind-Calm)
        depth 12 fits 4000

  pub parse_assignment_expression-Calm : Calm (suc n) (parse_assignment_expression n call)
  unfolding parse_assignment_expression
  parse_assignment_expression-Calm =
      search (step_rules, scope-Moves, parse_conditional_expression-Moves, assignment_behind-Calm)
        depth 12 fits 4000

  parse_comma_expression-Moves : Moves (suc n) (parse_comma_expression n call)
  unfolding parse_comma_expression
  parse_comma_expression-Moves =
      search
        (
          step_rules,
          scope-Moves,
          parse_assignment_expression-Moves,
          comma_loop-Calm n call c.calm,
          new_comma-Still,
        )
        depth 12 fits 4000

  pub parse_expression-Moves : Moves (suc n) (parse_expression n call)
  unfolding parse_expression
  parse_expression-Moves =
      search (step_rules, scope-Moves, parse_comma_expression-Moves) depth 12 fits 4000

  pub parse_expression-Calm : Calm (suc n) (parse_expression n call)
  unfolding parse_expression
  parse_expression-Calm =
      search (step_rules, scope-Moves, parse_comma_expression-Moves) depth 12 fits 4000
