-- ===== src/Parser/Script/Bindings.antt =====
-- aoba/parser/parser_bindings.cc: bindings of names and of patterns.
pub mod Progress
pub mod Loops
pub mod Patterns
pub mod Elements
use aoba.Prelude.{ℕ, zero, suc, Bool, true, false, not, ◌&&◌, ◌||◌, Option, some, none, ◌==◌}
use aoba.Ast.TokenKind.{
  TokenKind, dot_dot_dot, left_brace, right_brace, left_bracket, right_bracket, comma, equal, colon,
  right_parenthesis,
}
use aoba.Parser.Utils.Steps.{if◌then◌else◌, Step, ◌>>=◌, ◌>>◌, pure, crash, exhausted, gets}
use aoba.Parser.Utils.BracketTracker.{BracketTracker}
use aoba.Prelude.{length}
use aoba.Parser.Script.Words.{
  binding_expect_comma, binding_invalid_element, binding_unexpect_rest, binding_unexpect_comma,
}
use aoba.Parser.Script.Nodes
use aoba.Parser.Script.Nodes.{
  ScriptToken, has_kind, is_name, JsTree, JsTrees, leaf, node, nil, push, push_back, one, two,
  range_of, is_syntax, array_binding_pattern, object_binding_pattern, binding_comma_element,
  binding_invalid_element, binding_name_element, binding_property, binding_rest_element,
}
use aoba.Parser.Script.Actions.{ScriptParser, with_token, peek_then, consume_token, if_kind}
use aoba.Parser.Script.Ranges.{
  add_range_error, add_token_error, add_error, slice, new_node, new_elision_expression, scope,
  skip_kind, check,
}
use aoba.Parser.Script.Calls.{Caller, Nonterminal, phrase, binding_element, assignment_expression}

-- `CanStartBindingElement`.
unfoldable pub can_start_binding : ScriptToken → Bool
can_start_binding token =
    is_name token
    || has_kind dot_dot_dot token
    || has_kind left_brace token
    || has_kind left_bracket token

abbrev pub comma_element : ScriptToken → JsTree
comma_element token = node Nodes.binding_comma_element token.start token.end nil

-- `NewBindingNameElement`.
unfoldable pub new_binding_name : ScriptToken → JsTree → Step ScriptParser JsTree
new_binding_name name initializer =
    new_node Nodes.binding_name_element (two (leaf name) initializer)

-- A pattern's or a name's initializer, behind `=`, and an elision where there is none.
unfoldable pub initializer : Caller → (JsTree → Step ScriptParser JsTree) → Step ScriptParser JsTree
initializer call make =
    if_kind equal (call (phrase assignment_expression) >>= make) (new_elision_expression >>= make)

-- `ParseNameBindingElement`.
unfoldable pub parse_name_binding : Caller → Step ScriptParser JsTree
parse_name_binding call = do name ← consume_token; initializer call (new_binding_name name)

-- An element with no comma before it.
unfoldable pub without_comma :
    Step ScriptParser JsTrees → JsTrees → JsTree → Step ScriptParser JsTrees
without_comma loop elements element = do
  newline ← gets ScriptParser.is_separated_by_newline
  disabled ← gets ScriptParser.disable_automatic_semicolon
  (if newline && not disabled
      then pure elements
      else (add_range_error (range_of element) binding_expect_comma >> loop))

-- What follows an element in `ParseBindingElements`; `loop` parses on.
unfoldable pub after_element :
    Step ScriptParser JsTrees → JsTrees → JsTree → Step ScriptParser JsTrees
after_element loop elements element = if_kind comma loop (
    with_token (pure elements) (λ token.
      if can_start_binding token then without_comma loop elements element else pure elements))

-- `ParseBindingElements`, on fuel.
unfoldable pub parse_bindings : ℕ → Caller → JsTrees → Step ScriptParser JsTrees
parse_bindings zero call elements = exhausted
parse_bindings (suc k) call elements = with_token (pure elements) (λ token. do
  element ← call binding_element
  after_element (parse_bindings k call (push_back elements element)) (push_back elements element)
      element)

-- `IsCloseBracket`.
unfoldable pub is_close_bracket : ScriptToken → Bool
is_close_bracket token =
    has_kind right_brace token || has_kind right_bracket token || has_kind right_parenthesis token

abbrev pub depth : ScriptParser → ℕ
depth p = length p.tracker.stack

-- `while (CanPeekToken())` of `SkipToListElement`, whose result chooses how the caller goes on.
unfoldable pub skip_loop :
    {A : Type 0} → ℕ → ℕ → Step ScriptParser A → Step ScriptParser A → Step ScriptParser A
skip_loop zero current_depth found other = exhausted
skip_loop (suc k) current_depth found other = with_token other (λ token. do
  now ← gets depth
  (if not (now == current_depth)
      then consume_token >>= (λ consumed. skip_loop k current_depth found other)
      else if is_close_bracket token
      then other
      else consume_token >>= (λ consumed.
        if has_kind comma consumed then found else skip_loop k current_depth found other)))

-- `if (SkipToListElement()) found else other`.
unfoldable pub skip_to_list_element :
    {A : Type 0} → ℕ → Step ScriptParser A → Step ScriptParser A → Step ScriptParser A
skip_to_list_element k found other = do
  current_depth ← gets depth
  check (not (current_depth == 0))
  skip_loop k current_depth found other

-- A token that cannot start an element, in either pattern.
unfoldable pub skip_element :
    ℕ → ScriptToken → Step ScriptParser JsTrees → JsTrees → Step ScriptParser JsTrees
skip_element k token loop elements =
    skip_to_list_element k (add_token_error token binding_invalid_element >> loop) (pure elements)

abbrev last_of : JsTree → JsTrees → JsTree
last_of t nil = t
last_of t (push u us) = last_of u us

abbrev pub report_rest : JsTrees → Step ScriptParser (Unit {0})
report_rest nil = pure tt
report_rest (push t ts) =
    if is_syntax Nodes.binding_rest_element (last_of t ts)
    then add_range_error (range_of (last_of t ts)) binding_unexpect_rest
    else pure tt

-- The loop of `ParseArrayBindingPattern`.
unfoldable pub array_loop : ℕ → Caller → JsTrees → Step ScriptParser JsTrees
array_loop zero call elements = exhausted
array_loop (suc k) call elements = with_token (pure elements) (λ token.
    if has_kind right_bracket token
    then pure elements
    else (report_rest elements
        >> (if has_kind comma token
            then consume_token
              >>= (λ consumed. array_loop k call (push_back elements (comma_element consumed)))
            else if can_start_binding token
            then call binding_element
              >>= (λ element. array_loop k call (push_back elements element))
            else skip_element (suc k) token (array_loop k call elements) elements)))

-- `ParseArrayBindingPattern`.
unfoldable pub parse_array_pattern : ℕ → Caller → Step ScriptParser JsTree
parse_array_pattern n call = do
  elements ← array_loop n call nil
  skip_kind right_bracket
  initializer call (λ value. new_node array_binding_pattern (push value elements))

-- An element of `ParseObjectBindingPattern` that begins with a name, and whether it is the last.
unfoldable pub named_member : Caller → Step ScriptParser JsTree
named_member call = scope (do
  name ← consume_token
  with_token (new_elision_expression >>= new_binding_name name) (λ token.
      if_kind colon
        (do element ← call binding_element; new_node binding_property (two (leaf name) element))
        (if_kind equal (call (phrase assignment_expression) >>= new_binding_name name) (do
          range ← slice name.start token.start
          elision ← new_elision_expression
          pure (node Nodes.binding_name_element range.0 range.1 (two (leaf name) elision))))))

-- What follows an element of an object pattern.
unfoldable pub after_member :
    (JsTrees → Step ScriptParser JsTrees) → JsTrees → JsTree → Step ScriptParser JsTrees
after_member loop elements element = with_token (pure elements) (λ token.
    if has_kind comma token
    then consume_token >>= (λ consumed. loop (push_back elements (comma_element consumed)))
    else if can_start_binding token
    then (add_range_error (range_of element) binding_expect_comma >> loop elements)
    else loop elements)

-- The loop of `ParseObjectBindingPattern`.
unfoldable pub object_loop : ℕ → Caller → JsTrees → Step ScriptParser JsTrees
object_loop zero call elements = exhausted
object_loop (suc k) call elements = with_token (pure elements) (λ token.
    if has_kind right_brace token
    then pure elements
    else if has_kind comma token
    then (do
      add_error binding_unexpect_comma
      consumed ← consume_token
      object_loop k call (push_back elements (comma_element consumed)))
    else if can_start_binding token
    then ((if is_name token then named_member call else call binding_element)
        >>= (λ element. after_member (object_loop k call) (push_back elements element) element))
    else skip_element (suc k) token (object_loop k call elements) elements)

-- `ParseObjectBindingPattern`.
unfoldable pub parse_object_pattern : ℕ → Caller → Step ScriptParser JsTree
parse_object_pattern n call = do
  elements ← object_loop n call nil
  skip_kind right_brace
  initializer call (λ value. new_node object_binding_pattern (push value elements))

unfoldable pub invalid_element : Step ScriptParser JsTree
invalid_element = do
  add_error binding_invalid_element
  peek_then (λ token. pure (node Nodes.binding_invalid_element token.start token.end nil))

unfoldable pub parse_rest : Caller → Step ScriptParser JsTree
parse_rest call =
    call binding_element >>= (λ element. new_node Nodes.binding_rest_element (one element))

-- `ParseBindingElement`.
unfoldable pub parse_binding_element : ℕ → Caller → Step ScriptParser JsTree
parse_binding_element n call = scope (
    peek_then (λ token.
      if is_name token
      then parse_name_binding call
      else if has_kind dot_dot_dot token
      then consume_token >>= (λ consumed. parse_rest call)
      else if has_kind left_brace token
      then consume_token >>= (λ consumed. parse_object_pattern n call)
      else if has_kind left_bracket token
      then consume_token >>= (λ consumed. parse_array_pattern n call)
      else invalid_element))
