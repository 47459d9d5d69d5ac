-- ===== src/Parser/Script/Progress/Clauses.antt =====
-- aoba/parser/parser_statements.cc: what follows the keyword of a statement ends.
use aoba.Prelude.{ℕ, zero, suc, Option, some, none}
use aoba.Ast.TokenKind.{TokenKind}
use aoba.Parser.Utils.Steps
use aoba.Parser.Utils.Steps.{if◌then◌else◌, Step, ◌>>=◌, ◌>>◌, pure}
use aoba.Parser.Script.Nodes.{ScriptToken, JsTree, JsTrees, Syntax}
use aoba.Parser.Script.Calls.{Caller, Phrase, phrase}
use aoba.Parser.Script.Reads.{remaining, Calm, Moves, Still}
use aoba.Parser.Script.Rules.{
  step_rules, tail_rules, helper_rules, scope-Calm, scope-Moves, check-Still,
}
use aoba.Parser.Script.Progress.{CallsEnd}
use aoba.Parser.Script.Progress.Functions.{bindings-Calm}
use aoba.Parser.Script.ForStatements.{
  optional_expression, for_clauses, for_body, for_in_operands, report_document, for_expression,
  for_each, for_binding, optional_document, for_behind, statements_loop, parse_block_statement,
  catch_behind, try_behind,
}
use aoba.Parser.Script.Keywords.{
  parse_parenthesis_expression, jump_behind, case_statement, colon_behind, case_behind,
  labeled_body, handle_labeled_statement, default_behind, declaration_behind, do_behind, if_behind,
  return_nothing, return_value, return_behind, clauses_loop, switch_behind, throw_behind,
  guarded_behind,
}

-- The phrases at a smaller bound.
phrases_pred :
    (k : ℕ) (call : Caller)
    → ((x : Phrase) → Moves (suc k) (call (phrase x)))
    → (x : Phrase) → Moves k (call (phrase x))
phrases_pred k call m x = Steps.Moves-pred remaining k (call (phrase x)) (m x)

statements_loop-Calm :
    (k : ℕ) (call : Caller)
    → ((x : Phrase) → Moves k (call (phrase x)))
    → (statements : JsTrees) → Calm k (statements_loop k call statements)
unfolding statements_loop
statements_loop-Calm zero call m statements = Steps.exhausted-Calm remaining
statements_loop-Calm (suc k) call m statements =
    search (step_rules, m, statements_loop-Calm k call (phrases_pred k call m)) depth 12 fits 4000

clauses_loop-Calm :
    (k : ℕ) (call : Caller)
    → ((x : Phrase) → Moves k (call (phrase x)))
    → (clauses : JsTrees) → Calm k (clauses_loop k call clauses)
unfolding clauses_loop
clauses_loop-Calm zero call m clauses = Steps.exhausted-Calm remaining
clauses_loop-Calm (suc k) call m clauses =
    search (step_rules, m, clauses_loop-Calm k call (phrases_pred k call m)) depth 12 fits 4000

report_document-Still : (document : Option ScriptToken) → Still (report_document document)
report_document-Still none = search helper_rules
report_document-Still (some document) = search helper_rules

module _ (n : ℕ) (call : Caller) (c : CallsEnd n call) where
  statements-Calm : (statements : JsTrees) → Calm n (statements_loop n call statements)
  statements-Calm = statements_loop-Calm n call c.moves

  optional_expression-Calm : (kind : TokenKind) → Calm n (optional_expression call kind)
  unfolding optional_expression
  optional_expression-Calm kind = search (tail_rules, c.calm) depth 12 fits 4000

  for_clauses-Calm : (keyword init : JsTree) → Calm n (for_clauses call keyword init)
  unfolding for_clauses
  for_clauses-Calm keyword init =
      search (tail_rules, c.calm, optional_expression-Calm) depth 14 fits 4000

  for_body-Calm :
      (syntax : Syntax) (keyword init iterated : JsTree)
      → Calm n (for_body call syntax keyword init iterated)
  unfolding for_body
  for_body-Calm syntax keyword init iterated = search (tail_rules, c.calm) depth 12 fits 4000

  for_in_operands-Calm :
      (keyword : JsTree) (operands : Option (JsTree × JsTree))
      → Calm n (for_in_operands call keyword operands)
  for_in_operands-Calm keyword none = search tail_rules depth 12 fits 4000
  for_in_operands-Calm keyword (some (left, right)) = search (tail_rules, c.calm) depth 12 fits 4000

  for_expression-Calm : (document : Option ScriptToken) → Calm n (for_expression call document)
  unfolding for_expression
  for_expression-Calm document =
      search
        (
          tail_rules, c.calm, report_document-Still, optional_expression-Calm, for_clauses-Calm,
          for_body-Calm, for_in_operands-Calm,
        )
        depth 14 fits 4000

  for_each-Calm :
      (syntax : Syntax) (keyword binding : JsTree) → Calm n (for_each call syntax keyword binding)
  unfolding for_each
  for_each-Calm syntax keyword binding =
      search (tail_rules, c.calm, for_body-Calm) depth 12 fits 4000

  for_binding-Calm : (keyword : ScriptToken) → Calm n (for_binding call keyword)
  unfolding for_binding
  for_binding-Calm keyword =
      search (tail_rules, c.calm, for_each-Calm, for_clauses-Calm) depth 14 fits 4000

  optional_document-Calm : Calm n optional_document
  unfolding optional_document
  optional_document-Calm = search tail_rules depth 12 fits 4000

  pub for_behind-Calm : Calm n (for_behind call)
  unfolding for_behind
  for_behind-Calm =
      search (tail_rules, optional_document-Calm, for_expression-Calm, for_binding-Calm) depth 14
        fits 4000

  pub parse_block_statement-Calm : Calm n (parse_block_statement n call)
  unfolding parse_block_statement
  parse_block_statement-Calm =
      search (tail_rules, scope-Calm, check-Still, statements-Calm) depth 14 fits 4000

  pub parse_block_statement-Moves : Moves (suc n) (parse_block_statement n call)
  unfolding parse_block_statement
  parse_block_statement-Moves =
      search (step_rules, scope-Moves, check-Still, statements-Calm) depth 14 fits 4000

  catch_behind-Calm :
      (try_block : JsTree) (catch_token : ScriptToken)
      → Calm n (catch_behind call try_block catch_token)
  unfolding catch_behind
  catch_behind-Calm try_block catch_token = search (tail_rules, c.calm) depth 16 fits 4000

  pub try_behind-Calm : Calm n (try_behind n call)
  unfolding try_behind
  try_behind-Calm =
      search (tail_rules, c.calm, parse_block_statement-Calm, catch_behind-Calm) depth 14 fits 4000

  parenthesis-Calm : Calm n (parse_parenthesis_expression call)
  unfolding parse_parenthesis_expression
  parenthesis-Calm = search (tail_rules, c.calm) depth 12 fits 4000

  pub jump_behind-Calm : (syntax : Syntax) → Calm n (jump_behind syntax)
  unfolding jump_behind
  jump_behind-Calm syntax = search tail_rules depth 14 fits 4000

  case_statement-Calm : (value : JsTree) → Calm n (case_statement call value)
  unfolding case_statement
  case_statement-Calm value = search (tail_rules, c.calm) depth 12 fits 4000

  colon_behind-Calm :
      (value : JsTree) (consumed : ScriptToken) → Calm n (colon_behind call value consumed)
  unfolding colon_behind
  colon_behind-Calm value consumed = search (tail_rules, case_statement-Calm) depth 14 fits 4000

  pub case_behind-Calm : Calm n (case_behind call)
  unfolding case_behind
  case_behind-Calm =
      search (tail_rules, c.calm, case_statement-Calm, colon_behind-Calm) depth 14 fits 4000

  labeled_body-Calm : (label : JsTree) → Calm n (labeled_body call label)
  unfolding labeled_body
  labeled_body-Calm label = search (tail_rules, c.calm) depth 12 fits 4000

  pub handle_labeled_statement-Calm :
      (label : JsTree) → Calm n (handle_labeled_statement call label)
  unfolding handle_labeled_statement
  handle_labeled_statement-Calm label =
      search (tail_rules, check-Still, labeled_body-Calm) depth 14 fits 4000

  pub default_behind-Calm : (label : ScriptToken) → Calm n (default_behind call label)
  unfolding default_behind
  default_behind-Calm label = search (tail_rules, handle_labeled_statement-Calm) depth 12 fits 4000

  pub declaration_behind-Calm : (syntax : Syntax) → Calm n (declaration_behind n call syntax)
  unfolding declaration_behind
  declaration_behind-Calm syntax = search (tail_rules, bindings-Calm) depth 12 fits 4000

  pub do_behind-Calm : Calm n (do_behind call)
  unfolding do_behind
  do_behind-Calm = search (tail_rules, c.calm, parenthesis-Calm) depth 14 fits 4000

  pub if_behind-Calm : Calm n (if_behind call)
  unfolding if_behind
  if_behind-Calm = search (tail_rules, c.calm, parenthesis-Calm) depth 14 fits 4000

  return_nothing-Still : Still return_nothing
  unfolding return_nothing
  return_nothing-Still = search helper_rules

  return_value-Calm : Calm n (return_value call)
  unfolding return_value
  return_value-Calm = search (tail_rules, c.calm) depth 12 fits 4000

  pub return_behind-Calm : Calm n (return_behind call)
  unfolding return_behind
  return_behind-Calm =
      search (tail_rules, return_nothing-Still, return_value-Calm) depth 14 fits 4000

  pub switch_behind-Calm : Calm n (switch_behind n call)
  unfolding switch_behind
  switch_behind-Calm =
      search (tail_rules, parenthesis-Calm, clauses_loop-Calm n call c.moves) depth 12 fits 4000

  pub throw_behind-Calm : Calm n (throw_behind call)
  unfolding throw_behind
  throw_behind-Calm = search (tail_rules, c.calm) depth 12 fits 4000

  pub guarded_behind-Calm : (syntax : Syntax) → Calm n (guarded_behind call syntax)
  unfolding guarded_behind
  guarded_behind-Calm syntax = search (tail_rules, c.calm, parenthesis-Calm) depth 12 fits 4000
