-- ===== src/Parser/Script/Properties.antt =====
-- aoba/parser/parser_expressions.cc: the members of an object initializer or of a class.
use aoba.Prelude.{ℕ, zero, suc, Bool, true, false, not, ◌&&◌, ◌||◌, Option, some, none}
use aoba.Ast.TokenKind.{
  codes, left_bracket, left_parenthesis, right_brace, comma, colon, equal, semicolon, times,
}
use aoba.Parser.Utils.Steps.{if◌then◌else◌, Step, ◌>>=◌, ◌>>◌, pure, exhausted}
use aoba.Parser.Script.Words.{
  property_invalid_static, property_invalid_token, expression_unexpect_annotation,
}
use aoba.Parser.Script.Nodes.{
  ScriptToken, has_kind, is_name, is_word, is_literal, is_js_doc, JsTree, JsTrees, leaf, nil,
  push_back, two, three, FunctionKind, MethodKind, normal, generator, static, non_static, method,
  property, assignment_expression, object_initializer,
}
use aoba.Parser.Script.Actions.{ScriptParser, with_token, peek_then, consume_token}
use aoba.Parser.Script.Ranges.{add_error, add_token_error, new_node, new_invalid_at, scope}
use aoba.Parser.Script.Calls.{Caller, phrase}
use aoba.Parser.Script.Calls
use aoba.Parser.Script.Parameters.{function_kind_of, try_annotate, reference_to, delimiter_of}
use aoba.Parser.Script.Functions.{
  parse_parameters, parse_function_body, parse_property_name, parse_method,
}

-- `CanBePropertyName`.
unfoldable pub can_be_property_name : ScriptToken → Bool
can_be_property_name token = is_name token || has_kind left_bracket token || is_literal token

abbrev is_normal : FunctionKind → Bool
is_normal normal = true
is_normal kind = false

abbrev is_static : MethodKind → Bool
is_static static = true
is_static non_static = false

-- The annotation that no member has taken.
abbrev pub report_annotation : Option ScriptToken → Step ScriptParser (Unit {0})
report_annotation none = pure tt
report_annotation (some document) = add_token_error document expression_unexpect_annotation

-- Whether the loop goes on, the members so far, and the annotation of the next one.
abbrev pub Members : Type 0
Members = Bool × JsTrees × Option ScriptToken

abbrev pub add_member : JsTrees → Option ScriptToken → JsTree → Step ScriptParser Members
add_member members document member =
    pure (true, push_back members (try_annotate document member), none)

module _ (n : ℕ) (call : Caller) where
  -- `ParsePropertyAfterName` behind the tests for a method, at its token.
  unfoldable pub parse_property_value : JsTree → ScriptToken → Step ScriptParser JsTree
  parse_property_value name token =
      if has_kind right_brace token
      then pure name
      else if has_kind comma token
      then consume_token >>= (λ consumed. pure (reference_to name))
      else if has_kind colon token
      then (do
        consumed ← consume_token
        value ← call (phrase Calls.assignment_expression)
        new_node property (two name value))
      else if has_kind equal token
      then (do
        op ← consume_token
        value ← call (phrase Calls.assignment_expression)
        new_node assignment_expression (three name (leaf op) value))
      else (do
        invalid ← consume_token
        new_invalid_at (invalid.start, invalid.end) property_invalid_token)

  -- `ParsePropertyAfterName`.
  unfoldable pub parse_property_after_name :
      JsTree → MethodKind → FunctionKind → Step ScriptParser JsTree
  parse_property_after_name name method_kind kind = peek_then (λ token.
      if not (is_normal kind) && can_be_property_name token
      then parse_method n call method_kind kind
      else if has_kind left_parenthesis token
      then (do
        parameters ← parse_parameters n call
        body ← parse_function_body n call
        new_node (method method_kind normal) (three name parameters body))
      else ((if is_static method_kind then add_error property_invalid_static else pure tt)
          >> parse_property_value name token))

  -- A member that begins with `static`, which can be a name too.
  unfoldable pub static_member : JsTrees → Option ScriptToken → Step ScriptParser Members
  static_member members document = do
    name_static ← parse_property_name n call
    with_token (pure (false, members, none)) (λ token.
        if can_be_property_name token
        then (do
          name ← parse_property_name n call
          with_token (pure (false, members, none)) (λ next.
              parse_property_after_name name static (function_kind_of token)
              >>= add_member members document))
        else if has_kind times token
        then (do
          consumed ← consume_token
          member ← parse_method n call static generator
          add_member members document member)
        else (parse_property_after_name name_static non_static normal
            >>= add_member members document))

  unfoldable pub plain_member :
      ScriptToken → JsTrees → Option ScriptToken → Step ScriptParser Members
  plain_member token members document = do
    name ← parse_property_name n call
    with_token (pure (false, members, none)) (λ next.
        parse_property_after_name name non_static (function_kind_of token)
        >>= add_member members document)

  -- A round of the loop of `ParseObjectInitializer`.
  unfoldable pub member_round :
      ScriptToken → JsTrees → Option ScriptToken → Step ScriptParser Members
  member_round token members annotation =
      if has_kind right_brace token
      then consume_token >>= (λ consumed. pure (false, members, annotation))
      else if has_kind comma token || has_kind semicolon token
      then (do
        report_annotation annotation
        delimiter ← consume_token
        pure (true, push_back members (delimiter_of delimiter), annotation))
      else if is_js_doc token
      then (do
        report_annotation annotation
        document ← consume_token
        pure (true, members, some document))
      else if has_kind times token
      then (do
        consumed ← consume_token
        member ← parse_method n call non_static generator
        add_member members annotation member)
      else if is_word (codes "static") token
      then static_member members annotation
      else plain_member token members annotation

-- The loop of `ParseObjectInitializer`, on fuel; `round` parses a member.
unfoldable pub members_loop :
    ℕ
    → (ScriptToken → JsTrees → Option ScriptToken → Step ScriptParser Members)
    → JsTrees
    → Option ScriptToken
    → Step ScriptParser (JsTrees × Option ScriptToken)
members_loop zero round members annotation = exhausted
members_loop (suc k) round members annotation = with_token (pure (members, annotation)) (λ token. do
  next ← scope (round token members annotation)
  (if next.0 then members_loop k round next.1 next.2 else pure (next.1, next.2)))

-- `ParseObjectInitializer`.
unfoldable pub parse_object_initializer : ℕ → Caller → Step ScriptParser JsTree
parse_object_initializer n call = scope (do
  consumed ← consume_token
  parsed ← members_loop n (member_round n call) nil none
  report_annotation parsed.1
  new_node object_initializer parsed.0)
