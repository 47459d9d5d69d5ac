-- ===== src/Parser/Script/Progress/Functions.antt =====
-- aoba/parser/parser_declarations.cc: what its functions leave.
use aoba.Prelude.{ℕ, suc}
use aoba.Parser.Script.Nodes.{JsTrees, FunctionKind, MethodKind}
use aoba.Parser.Script.Calls.{Caller}
use aoba.Parser.Script.Reads.{Calm, Moves}
use aoba.Parser.Script.Rules.{step_rules, tail_rules, scope-Calm, scope-Moves}
use aoba.Parser.Script.Bindings.{parse_bindings}
use aoba.Parser.Script.Bindings.Loops.{parse_bindings-Calm}
use aoba.Parser.Script.Progress.{CallsEnd}
use aoba.Parser.Script.Functions.{
  parse_arrow_body, parse_parameters, parse_function_body, parse_function, parse_property_name,
  parse_method, parse_class_name, parse_class_heritage, parse_class_body, class_behind, parse_class,
}

module _ (n : ℕ) (call : Caller) (c : CallsEnd n call) where
  pub bindings-Calm : (elements : JsTrees) → Calm n (parse_bindings n call elements)
  bindings-Calm = parse_bindings-Calm n call c.behind

  pub parse_arrow_body-Calm : Calm n (parse_arrow_body n call)
  unfolding parse_arrow_body
  parse_arrow_body-Calm = search (tail_rules, c.calm) depth 12 fits 4000

  pub parse_parameters-Calm : Calm n (parse_parameters n call)
  unfolding parse_parameters
  parse_parameters-Calm = search (tail_rules, scope-Calm, bindings-Calm) depth 12 fits 4000

  pub parse_function_body-Calm : Calm n (parse_function_body n call)
  unfolding parse_function_body
  parse_function_body-Calm = search (tail_rules, scope-Calm, c.calm) depth 12 fits 4000

  pub parse_function-Calm : (kind : FunctionKind) → Calm n (parse_function n call kind)
  unfolding parse_function
  parse_function-Calm kind =
      search (tail_rules, parse_parameters-Calm, parse_function_body-Calm) depth 12 fits 4000

  pub parse_property_name-Moves : Moves n (parse_property_name n call)
  unfolding parse_property_name
  parse_property_name-Moves = search (step_rules, c.moves) depth 12 fits 4000

  pub parse_property_name-Calm : Calm n (parse_property_name n call)
  unfolding parse_property_name
  parse_property_name-Calm = search (tail_rules, c.calm) depth 12 fits 4000

  pub parse_method-Calm :
      (method_kind : MethodKind) (kind : FunctionKind)
      → Calm n (parse_method n call method_kind kind)
  unfolding parse_method
  parse_method-Calm method_kind kind =
      search (tail_rules, parse_property_name-Calm, parse_parameters-Calm, parse_function_body-Calm)
        depth 12 fits 4000

  parse_class_name-Calm : Calm n (parse_class_name n call)
  unfolding parse_class_name
  parse_class_name-Calm = search tail_rules depth 12 fits 4000

  parse_class_heritage-Calm : Calm n (parse_class_heritage n call)
  unfolding parse_class_heritage
  parse_class_heritage-Calm = search (tail_rules, c.calm) depth 12 fits 4000

  parse_class_body-Calm : Calm n (parse_class_body n call)
  unfolding parse_class_body
  parse_class_body-Calm = search (tail_rules, scope-Calm, c.calm) depth 12 fits 4000

  class_behind-Calm : Calm n (class_behind n call)
  unfolding class_behind
  class_behind-Calm =
      search (tail_rules, parse_class_name-Calm, parse_class_heritage-Calm, parse_class_body-Calm)
        depth 12 fits 4000

  pub parse_class-Moves : Moves (suc n) (parse_class n call)
  unfolding parse_class
  parse_class-Moves = search (step_rules, scope-Moves, class_behind-Calm) depth 12 fits 4000
