-- ===== src/Parser/TypeSyntax/Parser.antt =====
-- aoba/parser/type/type_parser.{h,cc}: the trees of type annotations. `Actions` has the parser's
-- state with its helpers, `Nodes` the trees, this file the grammar. `type` stands for
-- `ParseNonOptionalType` on less fuel, and a number for the rounds of a loop.
pub mod Nodes
pub mod Actions
pub mod Rules
pub mod Loops
pub mod Termination
pub mod Tests
use aoba.Prelude.{
  ℕ, zero, suc, ◌+◌, ◌-◌, ◌*◌, ◌/◌, ◌%◌, ◌^◌, ◌≤◌, ◌<◌, min, max, Bool, true, false, not, ◌&&◌,
  ◌||◌, Option, some, none, List, [], ◌∷◌, ◌++◌, ◌≡◌, ◌≢◌, ◌↔◌, ◌⊎◌, inl, inr, refl, sym, ap, ◌∙◌,
  length, take, drop, length-append, append_assoc, append-nil, Bool-cases, arith, ltb, leb, ◌==◌,
  within, take_while, drop_while, All, reverse_onto, ==_iff, leb→le, ltb→lt, le→leb, lt→ltb,
  get_elem?,
}
use aoba.Ast.TokenKind.{
  TokenKind, codes, left_parenthesis, right_parenthesis, left_brace, right_brace, left_bracket,
  right_bracket, less_than, greater_than, question, times, colon, comma, equal, dot, dot_dot_dot,
  logical_not, bit_or,
}
use aoba.Parser.Utils.Steps.{
  if◌then◌else◌, Outcome, Step, ◌>>=◌, ◌>>◌, pure, exhausted, crash, gets, modify,
}
use aoba.Parser.TypeSyntax.Lexer.{TypeToken}
use aoba.Parser.TypeSyntax.Parser.Nodes.{
  TypeTree, TypeTrees, nil, push, push_back, is_empty, FunctionTypeKind, normal_function,
  new_function, this_function, any_type, unknown_type, invalid_type, void_type, name, type_name,
  member_type, nullable_type, non_nullable_type, optional_type, rest_type, type_group, property,
  record_type, tuple_type, union_type, tuple, type_application, function_type,
}
use aoba.Parser.TypeSyntax.Parser.Actions.{
  TypeParser, TypeErrorCode, expect_colon, expect_comma, expect_type, unexpect_token, add_error,
  add_range_error, with_token, peek_token, consume_token, has_kind, is_name, if_kind, if_word,
  is_word, new_node, scope, can_start_type, finish_brackets,
}

-- `SkipTokensTo`.
unfoldable pub skip_tokens_to : ℕ → TokenKind → Step TypeParser (Unit {0})
skip_tokens_to zero kind = exhausted
skip_tokens_to (suc k) kind = with_token (pure tt) (λ token.
    if has_kind kind token then pure tt else consume_token >>= (λ skipped. skip_tokens_to k kind))

-- The end of a list: the rest up to the closing bracket is skipped, and the bracket consumed.
unfoldable pub close_list : ℕ → TokenKind → (ℕ → ℕ → TypeTree) → Step TypeParser TypeTree
close_list k kind make = do
  skip_tokens_to k kind
  result ← new_node make
  if_kind kind (pure result) (pure result)

-- `ParseOptionalType`.
unfoldable pub parse_optional_type : Step TypeParser TypeTree → Step TypeParser TypeTree
parse_optional_type type = do
  parsed ← type
  with_token (pure parsed) (λ token.
      if has_kind equal token
      then (do
        optional ← new_node (λ start end. optional_type start end parsed)
        consumed ← consume_token
        pure optional)
      else pure parsed)

-- The members of a union behind the first; `member` is `ParseNonUnionType`.
unfoldable pub union_loop : ℕ → Step TypeParser TypeTree → TypeTrees → Step TypeParser TypeTrees
union_loop zero member types = exhausted
union_loop (suc k) member types =
    if_kind bit_or (member >>= (λ parsed. union_loop k member (push_back types parsed)))
      (pure types)

-- `NewUnionType`.
unfoldable pub new_union : TypeTrees → Step TypeParser TypeTree
new_union nil = new_node (λ start end. union_type start end nil)
new_union (push member nil) = pure member
new_union (push first (push second rest)) =
    new_node (λ start end. union_type start end (push first (push second rest)))

unfoldable pub parse_union : ℕ → Step TypeParser TypeTree → Step TypeParser TypeTree
parse_union k member =
    scope (do first ← member; types ← union_loop k member (push first nil); new_union types)

unfoldable pub report_no_type : Step TypeParser TypeTree
report_no_type = do add_error expect_type; new_node invalid_type

-- `ParseUnionType`, behind the test that `ParseNonOptionalType` makes too.
unfoldable pub parse_union_type : ℕ → Step TypeParser TypeTree → Step TypeParser TypeTree
parse_union_type k member = with_token report_no_type (λ token. parse_union k member)

-- `ParseQualifiedName`, behind the first name.
unfoldable pub qualified_loop : ℕ → TypeTree → Step TypeParser TypeTree
qualified_loop zero member = exhausted
qualified_loop (suc k) member =
    if_kind dot
      (with_token (add_error expect_type >> pure member) (λ token.
        if is_name token
        then (do
          consumed ← consume_token
          next ←
              new_node
                (λ start end. member_type start end member (name consumed.start consumed.end))
          qualified_loop k next)
        else (add_error expect_type >> pure member)))
      (pure member)

-- The arguments of a type application, behind `<`.
unfoldable pub argument_loop : ℕ → Step TypeParser TypeTree → TypeTrees → Step TypeParser TypeTrees
argument_loop zero type arguments = exhausted
argument_loop (suc k) type arguments = with_token (pure arguments) (λ token.
    if has_kind greater_than token
    then pure arguments
    else (type >>= (λ argument.
        if_kind comma (argument_loop k type (push_back arguments argument))
          (pure (push_back arguments argument)))))

unfoldable pub parse_type_arguments : ℕ → Step TypeParser TypeTree → Step TypeParser TypeTree
parse_type_arguments k type = scope (do
  consumed ← consume_token
  arguments ← argument_loop k type nil
  close_list k greater_than (λ start end. tuple start end arguments))

unfoldable pub parse_name_as_type :
    ℕ → Step TypeParser TypeTree → TypeToken → Step TypeParser TypeTree
parse_name_as_type k type token = do
  named ← qualified_loop k (type_name token.start token.end)
  with_token (pure named) (λ next.
      if has_kind less_than next
      then (do
        arguments ← parse_type_arguments k type
        new_node (λ start end. type_application start end named arguments))
      else pure named)

-- `new:` and `this:` before the parameters, and whether a type is expected behind them.
unfoldable pub expect_colon_behind : FunctionTypeKind → Step TypeParser (FunctionTypeKind × Bool)
expect_colon_behind kind =
    if_kind colon (pure (kind, true)) (add_error expect_colon >> pure (kind, true))

unfoldable pub function_kind : Step TypeParser (FunctionTypeKind × Bool)
function_kind =
    if_word (codes "new") (expect_colon_behind new_function)
      (if_word (codes "this") (expect_colon_behind this_function) (pure (normal_function, false)))

-- What follows a parameter; `loop` parses on.
unfoldable pub after_parameter :
    Step TypeParser (TypeTrees × Bool) → TypeTrees → Step TypeParser (TypeTrees × Bool)
after_parameter loop parameters = with_token (pure (parameters, false)) (λ token.
    if has_kind right_parenthesis token
    then pure (parameters, false)
    else if_kind comma loop (add_error expect_comma >> loop))

-- The parameters, and whether a type is expected at their end.
unfoldable pub parameter_loop :
    ℕ → Step TypeParser TypeTree → TypeTrees → Bool → Step TypeParser (TypeTrees × Bool)
parameter_loop zero type parameters expects = exhausted
parameter_loop (suc k) type parameters expects = with_token (pure (parameters, expects)) (λ token.
    if has_kind right_parenthesis token
    then pure (parameters, expects)
    else if can_start_type token
    then (parse_optional_type type >>= (λ parameter.
        after_parameter (parameter_loop k type (push_back parameters parameter) true)
          (push_back parameters parameter)))
    else pure (parameters, false))

unfoldable pub parse_parameters :
    ℕ → Step TypeParser TypeTree → Step TypeParser (TypeTree × FunctionTypeKind)
parse_parameters k type = scope (do
  consumed ← consume_token
  head ← function_kind
  list ← parameter_loop k type nil head.1
  (if list.1 then add_error expect_type else pure tt)
  parameters ← close_list k right_parenthesis (λ start end. tuple start end list.0)
  pure (parameters, head.0))

-- The return type, and `void` at the lexer's location where there is none.
unfoldable pub parse_return_type : Step TypeParser TypeTree → Step TypeParser TypeTree
parse_return_type type =
    if_kind colon type (gets (λ p. void_type p.lexer.reader.location p.lexer.reader.location))

unfoldable pub parse_function_type :
    ℕ → Step TypeParser TypeTree → TypeToken → Step TypeParser TypeTree
parse_function_type k type token = with_token (pure (type_name token.start token.end)) (λ next.
    if has_kind left_parenthesis next
    then (do
      result ← parse_parameters k type
      return_type ← parse_return_type type
      new_node (λ start end. function_type start end result.1 result.0 return_type))
    else pure (type_name token.start token.end))

unfoldable pub after_member :
    (TypeTrees → Step TypeParser TypeTrees) → TypeTrees → Step TypeParser TypeTrees
after_member loop members = if_kind comma (loop members) (pure members)

-- A member with a type, behind its colon.
unfoldable pub typed_member :
    Step TypeParser TypeTree
    → (TypeTrees → Step TypeParser TypeTrees)
    → TypeTrees
    → TypeToken
    → Step TypeParser TypeTrees
typed_member type loop members label = with_token (pure members) (λ next. type >>= (λ parsed.
    after_member loop
      (push_back members (property label.start label.end (name label.start label.end) parsed))))

-- The members of a record behind `{`.
unfoldable pub member_loop : ℕ → Step TypeParser TypeTree → TypeTrees → Step TypeParser TypeTrees
member_loop zero type members = exhausted
member_loop (suc k) type members = with_token (pure members) (λ token.
    if has_kind right_brace token || not (is_name token)
    then pure members
    else (consume_token >>= (λ label.
        if_kind colon (typed_member type (member_loop k type) members label)
          (after_member (member_loop k type) (push_back members (name label.start label.end))))))

unfoldable pub parse_record_type : ℕ → Step TypeParser TypeTree → Step TypeParser TypeTree
parse_record_type k type = do
  members ← member_loop k type nil
  close_list k right_brace (λ start end. record_type start end members)

-- What follows a member of a tuple.
unfoldable pub after_element : Step TypeParser TypeTrees → TypeTrees → Step TypeParser TypeTrees
after_element loop members = with_token (pure members) (λ next.
    if_kind comma loop
      (if can_start_type next then (add_error expect_comma >> loop) else pure members))

-- The members of a tuple behind `[`.
unfoldable pub element_loop : ℕ → Step TypeParser TypeTree → TypeTrees → Step TypeParser TypeTrees
element_loop zero type members = exhausted
element_loop (suc k) type members = with_token (pure members) (λ token.
    if has_kind right_bracket token
    then pure members
    else (type >>= (λ member.
        after_element (element_loop k type (push_back members member)) (push_back members member))))

unfoldable pub parse_tuple_type : ℕ → Step TypeParser TypeTree → Step TypeParser TypeTree
parse_tuple_type k type = do
  members ← element_loop k type nil
  (if is_empty members then add_error expect_type else pure tt)
  close_list k right_bracket (λ start end. tuple_type start end members)

unfoldable pub parse_type_group : Step TypeParser TypeTree → Step TypeParser TypeTree
parse_type_group type = do
  parsed ← type
  group ← if_kind right_parenthesis (pure parsed) (pure parsed)
  new_node (λ start end. type_group start end group)

-- `NewNullableType` and its like over `ParseNonOptionalType`.
unfoldable pub new_node_of :
    (ℕ → ℕ → TypeTree → TypeTree) → Step TypeParser TypeTree → Step TypeParser TypeTree
new_node_of make type = do parsed ← type; new_node (λ start end. make start end parsed)

unfoldable pub parse_question : Step TypeParser TypeTree → Step TypeParser TypeTree
parse_question type = do
  mark ← consume_token
  with_token (pure (unknown_type mark.start mark.end)) (λ token.
      if can_start_type token
      then new_node_of nullable_type type
      else pure (unknown_type mark.start mark.end))

-- The cases of `ParseNonUnionType` from that of a record on.
unfoldable pub parse_bracketed : ℕ → Step TypeParser TypeTree → Step TypeParser TypeTree
parse_bracketed k type = if_kind left_brace (parse_record_type k type) (
    if_kind left_bracket (parse_tuple_type k type) (
      if_kind left_parenthesis (parse_type_group type) (
        if_kind dot_dot_dot (new_node_of rest_type type)
          (consume_token >>= (λ consumed. new_node invalid_type)))))

-- The cases of `ParseNonUnionType` of a name, and those behind it.
unfoldable pub parse_named : ℕ → Step TypeParser TypeTree → TypeToken → Step TypeParser TypeTree
parse_named k type token = gets (is_word (codes "function") token) >>= (λ is_function.
    if is_function
    then (consume_token >>= parse_function_type k type)
    else if is_name token
    then (consume_token >>= parse_name_as_type k type)
    else parse_bracketed k type)

unfoldable pub parse_non_union_type : ℕ → Step TypeParser TypeTree → Step TypeParser TypeTree
parse_non_union_type k type = scope (
    if_kind times (new_node any_type) (
      peek_token >>= (λ token.
        if has_kind question token
        then parse_question type
        else if_kind logical_not (new_node_of non_nullable_type type) (parse_named k type token))))

-- `ParseNonOptionalType`, on fuel for its depth and for the rounds of its loops.
unfoldable pub parse_non_optional_type : ℕ → Step TypeParser TypeTree
parse_non_optional_type zero = exhausted
parse_non_optional_type (suc n) =
    parse_union_type n (parse_non_union_type n (parse_non_optional_type n))

-- `Parse`, with fuel for each character of the range.
unfoldable pub parse : Step TypeParser TypeTree
parse p =
    (do
      type ← parse_optional_type (parse_non_optional_type (length p.lexer.reader.ahead + 2))
      finish_brackets
      with_token (pure type)
          (λ token. modify (add_range_error token.start token.end unexpect_token) >> pure type))
      p
