-- ===== src/Parser/Script/Clauses.antt =====
-- aoba/parser/parser_statements.cc: what its statements test in the trees and the tokens.
use aoba.Prelude.{Bool, true, false, not, ◌&&◌, ◌||◌, Option, some, none, List, [], ◌∷◌}
use aoba.Prelude
use aoba.Ast.TokenKind.{codes, equal}
use aoba.Parser.Script.Nodes.{
  ScriptToken, has_kind, is_word, is_any_word, JsTree, leaf, node, nil, push, two, range_of,
  is_syntax, elision_behind, array_binding_pattern, binding_name_element, object_binding_pattern,
  binary_expression, assignment_expression, reference_expression, computed_member_expression,
  member_expression, object_initializer, elision_expression, declaration, expression_statement,
}

-- `BindingIntializerOf`; the source has no other binding here.
abbrev pub binding_initializer_of : JsTree → JsTree
binding_initializer_of (node binding_name_element start end (push name (push value nil))) = value
binding_initializer_of (node syntax start end (push value elements)) = value
binding_initializer_of t = t

-- `HasInitializer`.
abbrev pub has_initializer : JsTree → Bool
has_initializer t =
    (is_syntax binding_name_element t
      || is_syntax array_binding_pattern t
      || is_syntax object_binding_pattern t)
    && not (is_syntax elision_expression (binding_initializer_of t))

-- `ast::IsValidForBinding`.
abbrev pub is_valid_for_binding : JsTree → Bool
is_valid_for_binding t =
    is_syntax binding_name_element t
    || is_syntax array_binding_pattern t
    || is_syntax object_binding_pattern t

-- `ast::IsDeclarationKeyword`.
unfoldable pub is_declaration_keyword : ScriptToken → Bool
is_declaration_keyword token = is_any_word (codes "const" ∷ codes "let" ∷ codes "var" ∷ []) token

-- The operands where `IsInExpression` holds.
abbrev pub in_operands : JsTree → Option (JsTree × JsTree)
in_operands (node binary_expression start end (push left (push (leaf op) (push right nil)))) =
    Prelude.if◌then◌else◌ (is_word (codes "in") op) (some (left, right)) none
in_operands t = none

-- `IsLeftHandSide`.
abbrev pub is_left_hand_side : JsTree → Bool
is_left_hand_side t =
    is_syntax reference_expression t
    || is_syntax computed_member_expression t
    || is_syntax member_expression t
    || is_syntax object_initializer t

-- `ast::IsMemberExpression`.
abbrev pub is_member_expression : JsTree → Bool
is_member_expression t = is_syntax member_expression t || is_syntax computed_member_expression t

abbrev pub declare : JsTree → JsTree → JsTree → JsTree
declare expression member value =
    node declaration (range_of expression).0 (range_of expression).1 (two member value)

abbrev member_declaration : JsTree → Option JsTree
member_declaration t =
    Prelude.if◌then◌else◌ (is_member_expression t) (some (declare t t (elision_behind t))) none

-- The declaration that an annotated expression stands for, where it stands for one.
abbrev pub declaration_of : JsTree → Option JsTree
declaration_of
      (node assignment_expression start end (push left (push (leaf op) (push right nil)))) =
    Prelude.if◌then◌else◌ (has_kind equal op && is_member_expression left)
      (some (node declaration start end (two left right))) none
declaration_of t = member_declaration t

-- `ExpressionStatement::ExpressionOf`.
abbrev pub statement_expression : JsTree → Option JsTree
statement_expression (node expression_statement start end (push expression nil)) = some expression
statement_expression t = none

-- The labels of the switch in `ParseKeywordStatement`.
pub data StatementKeyword : Type 0 where
  async_label break_label case_label class_label continue_label const_label debugger_label :
      StatementKeyword
  default_label do_label for_label function_label if_label let_label return_label : StatementKeyword
  switch_label throw_label try_label var_label while_label with_label reserved_label :
      StatementKeyword
  other_label : StatementKeyword

abbrev pub statement_keywords : List (List (List Prelude.ℕ) × StatementKeyword)
statement_keywords =
    (codes "async" ∷ [], async_label)
    ∷ (codes "break" ∷ [], break_label)
    ∷ (codes "case" ∷ [], case_label)
    ∷ (codes "class" ∷ [], class_label)
    ∷ (codes "continue" ∷ [], continue_label)
    ∷ (codes "const" ∷ [], const_label)
    ∷ (codes "debugger" ∷ [], debugger_label)
    ∷ (codes "default" ∷ [], default_label)
    ∷ (codes "do" ∷ [], do_label)
    ∷ (codes "for" ∷ [], for_label)
    ∷ (codes "function" ∷ [], function_label)
    ∷ (codes "if" ∷ [], if_label)
    ∷ (codes "let" ∷ [], let_label)
    ∷ (codes "return" ∷ [], return_label)
    ∷ (codes "switch" ∷ [], switch_label)
    ∷ (codes "throw" ∷ [], throw_label)
    ∷ (codes "try" ∷ [], try_label)
    ∷ (codes "var" ∷ [], var_label)
    ∷ (codes "while" ∷ [], while_label)
    ∷ (codes "with" ∷ [], with_label)
    ∷ (
      codes "catch"
          ∷ codes "else"
          ∷ codes "enum"
          ∷ codes "finally"
          ∷ codes "interface"
          ∷ codes "package"
          ∷ codes "private"
          ∷ codes "protected"
          ∷ codes "public"
          ∷ codes "static"
          ∷ [],
      reserved_label,
    )
    ∷ []

unfoldable pub find_keyword :
    ScriptToken → List (List (List Prelude.ℕ) × StatementKeyword) → StatementKeyword
find_keyword token [] = other_label
find_keyword token ((words, keyword) ∷ rest) =
    Prelude.if◌then◌else◌ (is_any_word words token) keyword (find_keyword token rest)

-- The label for a keyword.
unfoldable pub statement_keyword_of : ScriptToken → StatementKeyword
statement_keyword_of token = find_keyword token statement_keywords
