-- ===== src/Parser/Script/Progress/Statements.antt =====
-- aoba/parser/parser_statements.cc: statements move.
use aoba.Prelude.{ℕ, suc, Option, some, none}
use aoba.Parser.Utils.Steps
use aoba.Parser.Utils.Steps.{if◌then◌else◌, Step, ◌>>=◌, ◌>>◌, pure}
use aoba.Parser.Script.Nodes.{ScriptToken, JsTree}
use aoba.Parser.Script.Calls.{Caller}
use aoba.Parser.Script.Reads.{Calm, Moves, Follows, Still, consume_token-Moves}
use aoba.Parser.Script.Rules.{step_rules, tail_rules, helper_rules, scope-Moves, source_end-Still}
use aoba.Parser.Script.Looks.{push_back-Follows, with_token-Follows}
use aoba.Parser.Script.Progress.{CallsEnd}
use aoba.Parser.Script.Progress.Functions.{parse_function-Calm, parse_class-Moves}
use aoba.Parser.Script.Progress.Levels.{parse_expression-Moves}
use aoba.Parser.Script.Progress.Clauses.{
  for_behind-Calm, parse_block_statement-Moves, try_behind-Calm, jump_behind-Calm, case_behind-Calm,
  handle_labeled_statement-Calm, default_behind-Calm, declaration_behind-Calm, do_behind-Calm,
  if_behind-Calm, return_behind-Calm, switch_behind-Calm, throw_behind-Calm, guarded_behind-Calm,
}
use aoba.Parser.Script.Clauses.{
  StatementKeyword, async_label, break_label, case_label, class_label, continue_label, const_label,
  debugger_label, default_label, do_label, for_label, function_label, if_label, let_label,
  return_label, switch_label, throw_label, try_label, var_label, while_label, with_label,
  reserved_label, other_label,
}
use aoba.Parser.Script.Statements.{
  annotate_declaration, annotate_statement, parse_js_doc_statement, end_expression,
  parse_expression_statement, push_back_expression, keyword_statement, parse_keyword_statement,
  label_or_expression, parse_name_statement, parse_empty_statement, statement_at, parse_statement,
}

annotate_declaration-Still :
    (jsdoc : ScriptToken) (body : JsTree) (declared : Option JsTree)
    → Still (annotate_declaration jsdoc body declared)
annotate_declaration-Still jsdoc body none = search helper_rules
annotate_declaration-Still jsdoc body (some declared) = search helper_rules

annotate_statement-Still :
    (jsdoc : ScriptToken) (body : JsTree) (expression : Option JsTree)
    → Still (annotate_statement jsdoc body expression)
annotate_statement-Still jsdoc body none = search helper_rules
annotate_statement-Still jsdoc body (some expression) = annotate_declaration-Still jsdoc body _

-- What may follow a token that can be put back.
ruleset back_rules = (
  helper_rules, Steps.bind-Moves-Follows, Steps.bind-Still-Follows, Steps.if-Follows,
  Steps.Calm-Follows, with_token-Follows, consume_token-Moves,
)

module _ (n : ℕ) (call : Caller) (c : CallsEnd n call) where
  parse_js_doc_statement-Moves : Moves (suc n) (parse_js_doc_statement n call)
  unfolding parse_js_doc_statement
  parse_js_doc_statement-Moves =
      search (step_rules, scope-Moves, c.calm, annotate_statement-Still) depth 14 fits 4000

  end_expression-Calm : (expression : JsTree) → Calm n (end_expression n call expression)
  unfolding end_expression
  end_expression-Calm expression = search tail_rules depth 12 fits 4000

  parse_expression_statement-Moves : Moves (suc n) (parse_expression_statement n call)
  unfolding parse_expression_statement
  parse_expression_statement-Moves =
      search (step_rules, parse_expression-Moves, end_expression-Calm) depth 12 fits 4000

  push_back_expression-Follows :
      (token : ScriptToken) → Follows (suc n) (push_back_expression n call token)
  unfolding push_back_expression
  push_back_expression-Follows token =
      push_back-Follows (suc n) token (parse_expression_statement n call)
        parse_expression_statement-Moves

  async_statement-Moves : Moves (suc n) (keyword_statement n call async_label)
  async_statement-Moves =
      search (back_rules, push_back_expression-Follows, parse_function-Calm) depth 12 fits 4000

  function_statement-Moves : Moves (suc n) (keyword_statement n call function_label)
  function_statement-Moves =
      search (tail_rules, Steps.bind-Moves, consume_token-Moves, parse_function-Calm) depth 12 fits
        4000

  keyword_statement-Moves :
      (keyword : StatementKeyword) → Moves (suc n) (keyword_statement n call keyword)
  keyword_statement-Moves async_label = async_statement-Moves
  keyword_statement-Moves break_label = search (step_rules, jump_behind-Calm) depth 12 fits 4000
  keyword_statement-Moves case_label =
      search (step_rules, scope-Moves, case_behind-Calm) depth 12 fits 4000
  keyword_statement-Moves class_label = parse_class-Moves n call c
  keyword_statement-Moves continue_label = search (step_rules, jump_behind-Calm) depth 12 fits 4000
  keyword_statement-Moves const_label =
      search (step_rules, declaration_behind-Calm) depth 12 fits 4000
  keyword_statement-Moves debugger_label = search step_rules depth 12 fits 4000
  keyword_statement-Moves default_label =
      search (step_rules, scope-Moves, default_behind-Calm) depth 12 fits 4000
  keyword_statement-Moves do_label = search (step_rules, do_behind-Calm) depth 12 fits 4000
  keyword_statement-Moves for_label = search (step_rules, for_behind-Calm) depth 12 fits 4000
  keyword_statement-Moves function_label = function_statement-Moves
  keyword_statement-Moves if_label = search (step_rules, if_behind-Calm) depth 12 fits 4000
  keyword_statement-Moves let_label =
      search (step_rules, declaration_behind-Calm) depth 12 fits 4000
  keyword_statement-Moves return_label = search (step_rules, return_behind-Calm) depth 12 fits 4000
  keyword_statement-Moves switch_label = search (step_rules, switch_behind-Calm) depth 12 fits 4000
  keyword_statement-Moves throw_label = search (step_rules, throw_behind-Calm) depth 12 fits 4000
  keyword_statement-Moves try_label = search (step_rules, try_behind-Calm) depth 12 fits 4000
  keyword_statement-Moves var_label =
      search (step_rules, declaration_behind-Calm) depth 12 fits 4000
  keyword_statement-Moves while_label = search (step_rules, guarded_behind-Calm) depth 12 fits 4000
  keyword_statement-Moves with_label = search (step_rules, guarded_behind-Calm) depth 12 fits 4000
  keyword_statement-Moves reserved_label = search step_rules depth 12 fits 4000
  keyword_statement-Moves other_label = parse_expression_statement-Moves

  label_or_expression-Follows :
      (name : ScriptToken) → Follows (suc n) (label_or_expression n call name)
  unfolding label_or_expression
  label_or_expression-Follows name =
      search (back_rules, push_back_expression-Follows, handle_labeled_statement-Calm) depth 14 fits
        4000

  parse_name_statement-Moves :
      (name : ScriptToken) → Moves (suc n) (parse_name_statement n call name)
  unfolding parse_name_statement parse_keyword_statement
  parse_name_statement-Moves name =
      search
        (
          Steps.if-Moves, Steps.bind-Moves-Follows, consume_token-Moves, scope-Moves,
          keyword_statement-Moves, label_or_expression-Follows,
        )
        depth 12 fits 4000

  statement_at-Moves : (token : ScriptToken) → Moves (suc n) (statement_at n call token)
  unfolding statement_at parse_empty_statement
  statement_at-Moves token =
      search
        (
          step_rules, parse_js_doc_statement-Moves, parse_name_statement-Moves,
          parse_expression_statement-Moves, parse_block_statement-Moves,
        )
        depth 14 fits 4000

  pub parse_statement-Moves : Moves (suc n) (parse_statement n call)
  unfolding parse_statement
  parse_statement-Moves =
      search (step_rules, source_end-Still, scope-Moves, statement_at-Moves) depth 12 fits 4000

  pub parse_statement-Calm : Calm (suc n) (parse_statement n call)
  unfolding parse_statement
  parse_statement-Calm =
      search (step_rules, source_end-Still, scope-Moves, statement_at-Moves) depth 12 fits 4000
