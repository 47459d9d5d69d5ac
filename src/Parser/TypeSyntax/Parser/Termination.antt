-- ===== src/Parser/TypeSyntax/Parser/Termination.antt =====
-- aoba/parser/type/type_parser.cc: what the functions that call one another leave, and their fuel.
use aoba.Prelude.{ℕ, zero, suc, ◌+◌, ◌≤◌, ◌<◌, Option, some, none, refl, length, arith}
use aoba.Ast.TokenKind.{question, times, logical_not}
use aoba.Parser.Utils.Steps
use aoba.Parser.Utils.Steps.{
  if◌then◌else◌, Outcome, Step, ◌>>=◌, ◌>>◌, pure, crash, exhausted, gets, modify, Ends,
}
use aoba.Parser.TypeSyntax.Lexer.{TypeToken}
use aoba.Parser.TypeSyntax.Parser.Nodes.{TypeTree, any_type, non_nullable_type}
use aoba.Parser.TypeSyntax.Parser.Actions.{
  TypeParser, with_token, if_kind, new_node, has_kind, peek_token, finish_brackets, add_range_error,
  unexpect_token, TypeErrorCode,
}
use aoba.Parser.TypeSyntax.Parser.Rules.{
  remaining, Still, Calm, Moves, step_rules, scope-Moves, scope-Calm, left_at,
}
use aoba.Parser.TypeSyntax.Parser.{
  parse_optional_type, parse_union_type, parse_type_arguments, parse_name_as_type, parse_parameters,
  parse_function_type, parse_record_type, parse_tuple_type, parse_type_group, new_node_of,
  parse_question, parse_bracketed, parse_named, parse_non_union_type, parse_non_optional_type,
  parse,
}
use aoba.Parser.TypeSyntax.Parser.Loops.{
  if_kind_back-Calm, close_list-Calm, parse_optional_type-Calm, parse_union_type-Calm,
  parse_union_type-Moves, qualified_loop-Calm, argument_loop-Calm, parameter_loop-Calm,
  member_loop-Calm, element_loop-Calm, function_kind-Calm, parse_return_type-Calm,
}

-- The functions that call `ParseNonOptionalType` on fuel `n`.
module _ (n : ℕ) (type : Step TypeParser TypeTree) (h : Calm n type) (m : Moves n type) where
  parse_type_arguments-Calm : Calm n (parse_type_arguments n type)
  unfolding parse_type_arguments
  parse_type_arguments-Calm =
      search (step_rules, scope-Calm, argument_loop-Calm n type, close_list-Calm n) depth 12 fits
        4000

  parse_name_as_type-Calm : (token : TypeToken) → Calm n (parse_name_as_type n type token)
  unfolding parse_name_as_type
  parse_name_as_type-Calm token =
      search (step_rules, qualified_loop-Calm n, parse_type_arguments-Calm) depth 12 fits 4000

  parse_parameters-Calm : Calm n (parse_parameters n type)
  unfolding parse_parameters
  parse_parameters-Calm =
      search
        (step_rules, scope-Calm, function_kind-Calm, parameter_loop-Calm n type, close_list-Calm n)
        depth 12 fits 4000

  parse_function_type-Calm : (token : TypeToken) → Calm n (parse_function_type n type token)
  unfolding parse_function_type
  parse_function_type-Calm token =
      search (step_rules, parse_parameters-Calm, parse_return_type-Calm n) depth 12 fits 4000

  parse_record_type-Calm : Calm n (parse_record_type n type)
  unfolding parse_record_type
  parse_record_type-Calm =
      search (step_rules, member_loop-Calm n type, close_list-Calm n) depth 12 fits 4000

  parse_tuple_type-Calm : Calm n (parse_tuple_type n type)
  unfolding parse_tuple_type
  parse_tuple_type-Calm =
      search (step_rules, element_loop-Calm n type, close_list-Calm n) depth 12 fits 4000

  parse_type_group-Calm : Calm n (parse_type_group type)
  unfolding parse_type_group
  parse_type_group-Calm = search (step_rules, if_kind_back-Calm n) depth 12 fits 4000

  new_node_of-Calm : (make : ℕ → ℕ → TypeTree → TypeTree) → Calm n (new_node_of make type)
  unfolding new_node_of
  new_node_of-Calm make = search step_rules depth 12 fits 4000

  parse_question-Moves : Moves (suc n) (parse_question type)
  unfolding parse_question
  parse_question-Moves = search (step_rules, new_node_of-Calm) depth 12 fits 4000

  parse_bracketed-Moves : Moves (suc n) (parse_bracketed n type)
  unfolding parse_bracketed
  parse_bracketed-Moves =
      search
        (
          step_rules, parse_record_type-Calm, parse_tuple_type-Calm, parse_type_group-Calm,
          new_node_of-Calm,
        )
        depth 12 fits 4000

  parse_named-Moves : (token : TypeToken) → Moves (suc n) (parse_named n type token)
  unfolding parse_named
  parse_named-Moves token =
      search (step_rules, parse_function_type-Calm, parse_name_as_type-Calm, parse_bracketed-Moves)
        depth 12 fits 4000

  non_union_body-Moves : Moves (suc n) (
      if_kind times (new_node any_type) (
        peek_token >>= (λ token.
          if has_kind question token
          then parse_question type
          else if_kind logical_not
              (new_node_of non_nullable_type type)
              (parse_named n type token))))
  non_union_body-Moves =
      search (step_rules, parse_question-Moves, new_node_of-Calm, parse_named-Moves) depth 12 fits
        4000

  parse_non_union_type-Moves : Moves (suc n) (parse_non_union_type n type)
  unfolding parse_non_union_type
  parse_non_union_type-Moves = scope-Moves _ (suc n) non_union_body-Moves

  parse_non_union_type-Calm : Calm (suc n) (parse_non_union_type n type)
  unfolding parse_non_union_type
  parse_non_union_type-Calm = scope-Calm _ (suc n) non_union_body-Moves

module _ (n : ℕ) (type : Step TypeParser TypeTree) (h : Calm n type) (m : Moves n type) where
  union_type-Calm : Calm (suc n) (parse_union_type n (parse_non_union_type n type))
  union_type-Calm =
      parse_union_type-Calm n (parse_non_union_type n type)
        (Steps.Calm-pred remaining n _ (parse_non_union_type-Calm n type h m))
        (parse_non_union_type-Moves n type h m)

  union_type-Moves : Moves (suc n) (parse_union_type n (parse_non_union_type n type))
  union_type-Moves =
      parse_union_type-Moves n (parse_non_union_type n type)
        (Steps.Calm-pred remaining n _ (parse_non_union_type-Calm n type h m))
        (parse_non_union_type-Moves n type h m)

parse_non_optional_type_lem :
    (n : ℕ) → Calm n (parse_non_optional_type n) × Moves n (parse_non_optional_type n)
unfolding parse_non_optional_type
parse_non_optional_type_lem zero =
    (Steps.exhausted-Calm remaining, record { ends = λ s b le pos lt. absurd (omega arith) })
parse_non_optional_type_lem (suc n) =
    let (h, m) = parse_non_optional_type_lem n in
    (
      union_type-Calm n (parse_non_optional_type n) h m,
      union_type-Moves n (parse_non_optional_type n) h m,
    )

add_range_error-Still :
    (start end : ℕ) (code : TypeErrorCode) → Still (modify (add_range_error start end code))
unfolding modify
add_range_error-Still start end code = record { keeps = λ s. refl }

module _ (n : ℕ) where
  non_optional-Calm : Calm n (parse_non_optional_type n)
  non_optional-Calm = (parse_non_optional_type_lem n).0

  -- The body of `parse` on fuel `n`.
  parse_body-Calm : Calm n (
      parse_optional_type (parse_non_optional_type n) >>= (λ type. finish_brackets >>= (λ finished.
        with_token
          (pure type)
          (λ token. modify (add_range_error token.start token.end unexpect_token) >> pure type))))
  parse_body-Calm =
      search (step_rules, non_optional-Calm, parse_optional_type-Calm, add_range_error-Still) depth
        12 fits 4000

left_at-lt : (o : Option TypeToken) (n : ℕ) → left_at o n < n + 2
left_at-lt none n = omega arith
left_at-lt (some token) n = omega arith

-- `Parse` ends from any state, within the fuel of the text that is ahead: it returns with no more
-- text left than there was, or reads a token that is not there.
pub parse-Returns : (p : TypeParser) → Ends (λ type q. remaining q ≤ remaining p) (parse p)
unfolding parse
parse-Returns p =
    (parse_body-Calm (length p.lexer.reader.ahead + 2)).ends p (remaining p) (omega arith)
      (left_at-lt p.current (length p.lexer.reader.ahead))
