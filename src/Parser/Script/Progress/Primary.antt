-- ===== src/Parser/Script/Progress/Primary.antt =====
-- aoba/parser/parser_expressions.cc: primary expressions move, and what follows them ends.
use aoba.Prelude.{ℕ, zero, suc, Bool, Option, some, none}
use aoba.Parser.Utils.Steps
use aoba.Parser.Utils.Steps.{if◌then◌else◌, Step, ◌>>=◌, ◌>>◌, pure, Ends}
use aoba.Parser.Script.Nodes.{ScriptToken, JsTree, JsTrees, FunctionKind, MethodKind}
use aoba.Parser.Script.Actions.{ScriptParser}
use aoba.Parser.Script.Calls.{Caller, Phrase, Nonterminal, phrase}
use aoba.Parser.Script.Reads.{consume_token-Moves, remaining, Calm, Moves, Still}
use aoba.Parser.Script.Rules.{step_rules, tail_rules, move_rules, helper_rules, scope-Moves}
use aoba.Parser.Script.Progress.{CallsEnd}
use aoba.Parser.Script.Progress.Functions.{
  parse_arrow_body-Calm, parse_parameters-Calm, parse_function_body-Calm, parse_function-Calm,
  parse_property_name-Moves, parse_property_name-Calm, parse_method-Calm, parse_class-Moves,
}
use aoba.Parser.Script.Properties.{
  report_annotation, Members, parse_property_value, parse_property_after_name, static_member,
  plain_member, member_round, members_loop, parse_object_initializer,
}
use aoba.Parser.Script.Primary.{
  elements_loop, parse_js_doc_expression, parse_array_initializer, plain_name, name_behind,
  parse_name_expression, arrow_behind, group_behind, parse_parenthesis, primary_at,
  parse_primary_expression,
}
use aoba.Parser.Script.Progress.Literals.{parse_regexp_literal-Moves}

report_annotation-Still : (document : Option ScriptToken) → Still (report_annotation document)
report_annotation-Still none = search helper_rules
report_annotation-Still (some document) = search helper_rules

members_loop-Calm :
    (k : ℕ) (round : ScriptToken → JsTrees → Option ScriptToken → Step ScriptParser Members)
    → ((token : ScriptToken) (members : JsTrees) (document : Option ScriptToken)
        → Moves k (round token members document))
    → (members : JsTrees) (document : Option ScriptToken)
    → Calm k (members_loop k round members document)
unfolding members_loop
members_loop-Calm zero round h members document = Steps.exhausted-Calm remaining
members_loop-Calm (suc k) round h members document =
    search
      (
        step_rules,
        scope-Moves,
        h,
        members_loop-Calm k round (λ t m d. Steps.Moves-pred remaining k (round t m d) (h t m d)),
      )
      depth 12 fits 4000

elements_loop-Calm :
    (k : ℕ) (call : Caller)
    → ((x : Nonterminal) → Calm k (call x))
    → ((x : Phrase) → Moves k (call (phrase x)))
    → (elements : JsTrees) (has_expression : Bool)
    → Calm k (elements_loop k call elements has_expression)
unfolding elements_loop
elements_loop-Calm zero call h m elements has_expression = Steps.exhausted-Calm remaining
elements_loop-Calm (suc k) call h m elements has_expression =
    search
      (
        step_rules,
        m,
        elements_loop-Calm k call (λ x. Steps.Calm-pred remaining k (call x) (h x))
            (λ x. Steps.Moves-pred remaining k (call (phrase x)) (m x)),
      )
      depth 12 fits 4000

module _ (n : ℕ) (call : Caller) (c : CallsEnd n call) where
  parse_property_value-Calm :
      (name : JsTree) (token : ScriptToken) → Calm n (parse_property_value n call name token)
  unfolding parse_property_value
  parse_property_value-Calm name token = search (tail_rules, c.calm) depth 14 fits 4000

  parse_property_after_name-Calm :
      (name : JsTree) (method_kind : MethodKind) (kind : FunctionKind)
      → Calm n (parse_property_after_name n call name method_kind kind)
  unfolding parse_property_after_name
  parse_property_after_name-Calm name method_kind kind =
      search
        (
          tail_rules, parse_method-Calm, parse_parameters-Calm, parse_function_body-Calm,
          parse_property_value-Calm,
        )
        depth 12 fits 4000

  static_member-Moves :
      (members : JsTrees) (document : Option ScriptToken)
      → Moves n (static_member n call members document)
  unfolding static_member
  static_member-Moves members document =
      search
        (
          move_rules, parse_property_name-Moves, parse_property_name-Calm,
          parse_property_after_name-Calm, parse_method-Calm,
        )
        depth 16 fits 4000

  plain_member-Moves :
      (token : ScriptToken) (members : JsTrees) (document : Option ScriptToken)
      → Moves n (plain_member n call token members document)
  unfolding plain_member
  plain_member-Moves token members document =
      search (move_rules, parse_property_name-Moves, parse_property_after_name-Calm) depth 14 fits
        4000

  member_round-Moves :
      (token : ScriptToken) (members : JsTrees) (document : Option ScriptToken)
      → Moves n (member_round n call token members document)
  unfolding member_round
  member_round-Moves token members document =
      search
        (
          move_rules, report_annotation-Still, parse_method-Calm, static_member-Moves,
          plain_member-Moves,
        )
        depth 14 fits 4000

  parse_object_initializer-Moves : Moves (suc n) (parse_object_initializer n call)
  unfolding parse_object_initializer
  parse_object_initializer-Moves =
      search
        (step_rules, scope-Moves, report_annotation-Still, members_loop-Calm n, member_round-Moves)
        depth 12 fits 4000

  parse_js_doc_expression-Moves : Moves (suc n) (parse_js_doc_expression n call)
  unfolding parse_js_doc_expression
  parse_js_doc_expression-Moves = search (step_rules, scope-Moves, c.calm) depth 12 fits 4000

  parse_array_initializer-Moves : Moves (suc n) (parse_array_initializer n call)
  unfolding parse_array_initializer
  parse_array_initializer-Moves =
      search (step_rules, scope-Moves, elements_loop-Calm n call c.calm c.moves) depth 12 fits 4000

  plain_name-Calm : (name : ScriptToken) → Calm n (plain_name n call name)
  unfolding plain_name
  plain_name-Calm name = search (tail_rules, parse_arrow_body-Calm) depth 12 fits 4000

  name_behind-Calm : (name : ScriptToken) → Calm n (name_behind n call name)
  unfolding name_behind
  name_behind-Calm name =
      search (tail_rules, parse_function-Calm, plain_name-Calm) depth 16 fits 4000

  parse_name_expression-Moves : Moves (suc n) (parse_name_expression n call)
  unfolding parse_name_expression
  parse_name_expression-Moves =
      search (step_rules, scope-Moves, name_behind-Calm) depth 12 fits 4000

  arrow_behind-Calm : Calm n (arrow_behind n call)
  unfolding arrow_behind
  arrow_behind-Calm = search (tail_rules, parse_arrow_body-Calm) depth 12 fits 4000

  group_behind-Calm : Calm n (group_behind n call)
  unfolding group_behind
  group_behind-Calm = search (tail_rules, c.calm, parse_arrow_body-Calm) depth 12 fits 4000

  parse_parenthesis-Moves : Moves (suc n) (parse_parenthesis n call)
  unfolding parse_parenthesis
  parse_parenthesis-Moves =
      search
        (
          tail_rules, Steps.bind-Moves, consume_token-Moves, scope-Moves, arrow_behind-Calm,
          group_behind-Calm,
        )
        depth 12 fits 4000

  primary_at-Moves : (token : ScriptToken) → Moves (suc n) (primary_at n call token)
  unfolding primary_at
  primary_at-Moves token =
      search
        (
          move_rules, parse_js_doc_expression-Moves, parse_class-Moves, parse_name_expression-Moves,
          parse_parenthesis-Moves, parse_array_initializer-Moves, parse_object_initializer-Moves,
          parse_regexp_literal-Moves,
        )
        depth 16 fits 4000

  pub parse_primary_expression-Moves : Moves (suc n) (parse_primary_expression n call)
  unfolding parse_primary_expression
  parse_primary_expression-Moves = search (move_rules, primary_at-Moves) depth 12 fits 4000

  pub parse_primary_expression-Calm : Calm (suc n) (parse_primary_expression n call)
  unfolding parse_primary_expression
  parse_primary_expression-Calm = search (step_rules, primary_at-Moves) depth 12 fits 4000
