-- ===== src/Parser/Script/Parameters.antt =====
-- aoba/parser/parser_expressions.cc: the expressions that turn out to be parameters of an arrow
-- function, and other conversions of trees.
pub mod Elements
use aoba.Prelude.{ℕ, Bool, true, false, ◌||◌, Option, some, none, min, max}
use aoba.Prelude
use aoba.Ast.TokenKind.{codes, equal, post_plus_plus, post_minus_minus, plus_plus}
use aoba.Parser.Lexer.State.{punctuator}
use aoba.Parser.Script.Nodes.{
  ScriptToken, has_kind, is_word, JsTree, JsTrees, leaf, node, nil, push, one, two, range_of,
  is_syntax, elision_behind, FunctionKind, MethodKind, reference_expression, array_initializer,
  object_initializer, property, assignment_expression, comma_expression, array_binding_pattern,
  object_binding_pattern, binding_name_element, binding_property, binding_invalid_element,
  annotation, group_expression, arrow_function, function, method, delimiter_expression,
}

-- `ReferenceExpression::NameOf`, of a reference.
abbrev reference_name : JsTree → JsTree
reference_name (node syntax start end (push name nil)) = name
reference_name t = t

-- `ConvertExpressionToBindingElement`. A null initializer is an elision behind the expression.
mutual
  pub convert : JsTree → JsTree → JsTree
  convert (node reference_expression start end (push name nil)) initializer =
      node binding_name_element start end (two name initializer)
  convert (node array_initializer start end elements) initializer =
      node array_binding_pattern start end (push initializer (convert_all elements))
  convert (node object_initializer start end members) initializer =
      node object_binding_pattern start end (push initializer (convert_all members))
  convert (node property start end (push name (push value nil))) initializer =
      Prelude.if◌then◌else◌ (is_syntax reference_expression name)
        (node binding_property start end
          (two (reference_name name) (convert value (elision_behind value))))
        (node binding_invalid_element start end nil)
  convert (node assignment_expression start end (push left (push (leaf op) (push right nil))))
        initializer =
      Prelude.if◌then◌else◌ (has_kind equal op) (convert left right)
        (node binding_invalid_element start end nil)
  convert t initializer = node binding_invalid_element (range_of t).0 (range_of t).1 nil

  pub convert_all : JsTrees → JsTrees
  convert_all nil = nil
  convert_all (push t ts) = push (convert t (elision_behind t)) (convert_all ts)

-- `ConvertExpressionToBindingElements`.
abbrev pub binding_elements_of : JsTree → JsTrees
binding_elements_of (node comma_expression start end members) = convert_all members
binding_elements_of t = one (convert t (elision_behind t))

-- `CanHaveJsDoc`.
abbrev pub can_have_js_doc : JsTree → Bool
can_have_js_doc t =
    is_syntax group_expression t
    || is_syntax (arrow_function FunctionKind.normal) t
    || is_syntax (function FunctionKind.normal) t
    || is_syntax (method MethodKind.non_static FunctionKind.normal) t

-- `FunctionKindOf`.
unfoldable pub function_kind_of : ScriptToken → FunctionKind
function_kind_of token = Prelude.if◌then◌else◌ (is_word (codes "async") token) FunctionKind.async (
    Prelude.if◌then◌else◌ (is_word (codes "get") token) FunctionKind.getter
      (Prelude.if◌then◌else◌ (is_word (codes "set") token) FunctionKind.setter FunctionKind.normal))

-- `ConvertToPostOperator`, of `++` or `--`.
abbrev pub post_operator : ScriptToken → ScriptToken
post_operator op =
    Prelude.if◌then◌else◌ (has_kind plus_plus op) (record op { node = punctuator post_plus_plus })
      (record op { node = punctuator post_minus_minus })

-- `TryAnnotate`.
abbrev pub try_annotate : Option ScriptToken → JsTree → JsTree
try_annotate none t = t
try_annotate (some document) t =
    node annotation (min document.start (range_of t).0) (max document.end (range_of t).1)
      (two (leaf document) t)

-- `NewReferenceExpression`.
abbrev pub reference_to : JsTree → JsTree
reference_to name = node reference_expression (range_of name).0 (range_of name).1 (one name)

-- `NewDelimiterExpression`.
abbrev pub delimiter_of : ScriptToken → JsTree
delimiter_of token = node delimiter_expression token.start token.end nil
