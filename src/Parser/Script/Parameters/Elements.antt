-- ===== src/Parser/Script/Parameters/Elements.antt =====
-- aoba/parser/parser_expressions.cc: the parameters that `ConvertExpressionToBindingElement` makes.
use aoba.Prelude.{ℕ, ◌≡◌, refl}
use aoba.Parser.Script.Nodes.{
  JsTree, JsTrees, node, nil, push, one, array_binding_pattern, object_binding_pattern,
  binding_name_element, reference_expression, array_initializer, object_initializer,
}
use aoba.Parser.Script.Parameters.{convert, convert_all}

-- The expressions that read as patterns: references, and arrays and objects of patterns.
mutual
  pub data IsPattern : JsTree → Type 0 where
    is_reference :
        {start end : ℕ} {name : JsTree} → IsPattern (node reference_expression start end (one name))
    is_array :
        {start end : ℕ} {elements : JsTrees}
        → ArePatterns elements
        → IsPattern (node array_initializer start end elements)
    is_object :
        {start end : ℕ} {members : JsTrees}
        → ArePatterns members
        → IsPattern (node object_initializer start end members)

  pub data ArePatterns : JsTrees → Type 0 where
    none_left : ArePatterns nil
    and_more : {t : JsTree} {ts : JsTrees} → IsPattern t → ArePatterns ts → ArePatterns (push t ts)

-- The expression that a binding element is written as, without its initializer.
mutual
  pub expression_of : JsTree → JsTree
  expression_of (node binding_name_element start end (push name rest)) =
      node reference_expression start end (one name)
  expression_of (node array_binding_pattern start end (push initializer elements)) =
      node array_initializer start end (expressions_of elements)
  expression_of (node object_binding_pattern start end (push initializer members)) =
      node object_initializer start end (expressions_of members)
  expression_of t = t

  pub expressions_of : JsTrees → JsTrees
  expressions_of nil = nil
  expressions_of (push t ts) = push (expression_of t) (expressions_of ts)

-- The initializer is the last child of a name's element and the first one of a pattern.
abbrev pub initializer_of : JsTree → JsTree
initializer_of (node binding_name_element start end (push name (push initializer rest))) =
    initializer
initializer_of (node array_binding_pattern start end (push initializer elements)) = initializer
initializer_of (node object_binding_pattern start end (push initializer members)) = initializer
initializer_of t = t

mutual
  unfolding convert convert_all expression_of expressions_of

  convert-expression :
      {t : JsTree}
      → (initializer : JsTree) → IsPattern t
      → expression_of (convert t initializer) ≡ t
  convert-expression initializer is_reference = refl
  convert-expression initializer (is_array h) = rw (convert_all-expressions h)
  convert-expression initializer (is_object h) = rw (convert_all-expressions h)

  convert_all-expressions : {ts : JsTrees} → ArePatterns ts → expressions_of (convert_all ts) ≡ ts
  convert_all-expressions none_left = refl
  convert_all-expressions (and_more h hs) = rw (convert-expression _ h, convert_all-expressions hs)
