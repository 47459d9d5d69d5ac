-- ===== src/Parser/TypeSyntax/Parser/Loops.antt =====
-- aoba/parser/type/type_parser.cc: what the loops of the grammar leave, and their fuel.
use aoba.Prelude.{ℕ, zero, suc, Bool, arith}
use aoba.Ast.TokenKind.{TokenKind}
use aoba.Parser.Utils.Steps
use aoba.Parser.Utils.Steps.{
  if◌then◌else◌, Outcome, Step, ◌>>=◌, ◌>>◌, pure, crash, exhausted, gets, modify, Ends,
}
use aoba.Parser.TypeSyntax.Lexer.{TypeToken}
use aoba.Parser.TypeSyntax.Parser.Nodes.{TypeTree, TypeTrees, nil, push, FunctionTypeKind}
use aoba.Parser.TypeSyntax.Parser.Actions.{TypeParser, if_kind}
use aoba.Parser.TypeSyntax.Parser.Rules.{remaining, Still, Calm, Moves, step_rules, scope-Moves}
use aoba.Parser.TypeSyntax.Parser.{
  skip_tokens_to, close_list, parse_optional_type, union_loop, new_union, parse_union,
  report_no_type, parse_union_type, qualified_loop, argument_loop, expect_colon_behind,
  function_kind, after_parameter, parameter_loop, parse_return_type, after_member, typed_member,
  after_element, member_loop, element_loop,
}

pub skip_tokens_to-Calm : (k : ℕ) (kind : TokenKind) → Calm k (skip_tokens_to k kind)
unfolding skip_tokens_to
skip_tokens_to-Calm zero kind = Steps.exhausted-Calm remaining
skip_tokens_to-Calm (suc k) kind = search (step_rules, skip_tokens_to-Calm k) depth 12 fits 4000

pub if_kind_back-Calm :
    {A : Type 0} (n : ℕ) (kind : TokenKind) (a : A) → Calm n (if_kind kind (pure a) (pure a))
unfolding if_kind
if_kind_back-Calm zero kind a = record { ends = λ s b le lt. absurd (omega arith) }
if_kind_back-Calm (suc n) kind a = search step_rules depth 12 fits 4000

pub close_list-Calm :
    (k : ℕ) (kind : TokenKind) (make : ℕ → ℕ → TypeTree) → Calm k (close_list k kind make)
unfolding close_list
close_list-Calm k kind make =
    search (step_rules, skip_tokens_to-Calm k, if_kind_back-Calm k) depth 12 fits 4000

pub parse_optional_type-Calm :
    (n : ℕ) (type : Step TypeParser TypeTree) → Calm n type → Calm n (parse_optional_type type)
unfolding parse_optional_type
parse_optional_type-Calm n type h = search (step_rules, Steps.bind-Calm-Moves) depth 12 fits 4000

pub parse_optional_type-Moves :
    (n : ℕ) (type : Step TypeParser TypeTree) → Moves n type → Moves n (parse_optional_type type)
unfolding parse_optional_type
parse_optional_type-Moves n type h = search (step_rules, Steps.bind-Calm-Moves) depth 12 fits 4000

pub union_loop-Calm :
    (k : ℕ) (member : Step TypeParser TypeTree)
    → Calm k member
    → Moves k member
    → (types : TypeTrees) → Calm k (union_loop k member types)
unfolding union_loop
union_loop-Calm zero member h m types = Steps.exhausted-Calm remaining
union_loop-Calm (suc k) member h m types =
    search (step_rules, Steps.Calm-pred, Steps.Moves-pred, union_loop-Calm k member) depth 12 fits
      4000

pub new_union-Still : (types : TypeTrees) → Still (new_union types)
unfolding new_union
new_union-Still nil = search step_rules
new_union-Still (push t nil) = search step_rules
new_union-Still (push t (push u ts)) = search step_rules

pub parse_union-Moves :
    (n : ℕ) (member : Step TypeParser TypeTree)
    → Calm n member
    → Moves (suc n) member
    → Moves (suc n) (parse_union n member)
unfolding parse_union
parse_union-Moves n member h m =
    search (step_rules, scope-Moves, Steps.Moves-pred, new_union-Still, union_loop-Calm n) depth 12
      fits 4000

pub report_no_type-Still : Still report_no_type
unfolding report_no_type
report_no_type-Still = search step_rules

pub parse_union_type-Calm :
    (n : ℕ) (member : Step TypeParser TypeTree)
    → Calm n member
    → Moves (suc n) member
    → Calm (suc n) (parse_union_type n member)
unfolding parse_union_type
parse_union_type-Calm n member h m =
    search (step_rules, report_no_type-Still, parse_union-Moves n) depth 12 fits 4000

pub parse_union_type-Moves :
    (n : ℕ) (member : Step TypeParser TypeTree)
    → Calm n member
    → Moves (suc n) member
    → Moves (suc n) (parse_union_type n member)
unfolding parse_union_type
parse_union_type-Moves n member h m =
    search (step_rules, report_no_type-Still, parse_union-Moves n) depth 12 fits 4000

pub qualified_loop-Calm : (k : ℕ) (member : TypeTree) → Calm k (qualified_loop k member)
unfolding qualified_loop
qualified_loop-Calm zero member = Steps.exhausted-Calm remaining
qualified_loop-Calm (suc k) member = search (step_rules, qualified_loop-Calm k) depth 12 fits 4000

pub argument_loop-Calm :
    (k : ℕ) (type : Step TypeParser TypeTree)
    → Calm k type
    → Moves k type
    → (arguments : TypeTrees) → Calm k (argument_loop k type arguments)
unfolding argument_loop
argument_loop-Calm zero type h m arguments = Steps.exhausted-Calm remaining
argument_loop-Calm (suc k) type h m arguments =
    search (step_rules, Steps.Calm-pred, Steps.Moves-pred, argument_loop-Calm k type) depth 12 fits
      4000

pub after_parameter-Calm :
    (n : ℕ) (next : Step TypeParser (TypeTrees × Bool)) (parameters : TypeTrees)
    → Calm n next
    → Calm n (after_parameter next parameters)
unfolding after_parameter
after_parameter-Calm zero next parameters h = record { ends = λ s b le lt. absurd (omega arith) }
after_parameter-Calm (suc n) next parameters h =
    search (step_rules, Steps.Calm-pred, Steps.Moves-pred) depth 12 fits 4000

pub parameter_loop-Calm :
    (k : ℕ) (type : Step TypeParser TypeTree)
    → Calm k type
    → Moves k type
    → (parameters : TypeTrees) (expects : Bool) → Calm k (parameter_loop k type parameters expects)
unfolding parameter_loop
parameter_loop-Calm zero type h m parameters expects = Steps.exhausted-Calm remaining
parameter_loop-Calm (suc k) type h m parameters expects =
    search
      (
        step_rules,
        Steps.Calm-pred,
        Steps.Moves-pred,
        parameter_loop-Calm k type,
        after_parameter-Calm k,
        parse_optional_type-Moves (suc k),
      )
      depth 12 fits 4000

pub after_member-Calm :
    (n : ℕ) (next : TypeTrees → Step TypeParser TypeTrees) (members : TypeTrees)
    → ((ms : TypeTrees) → Calm n (next ms))
    → Calm (suc n) (after_member next members)
unfolding after_member
after_member-Calm n next members h = search step_rules depth 12 fits 4000

pub typed_member-Calm :
    (n : ℕ) (type : Step TypeParser TypeTree) (next : TypeTrees → Step TypeParser TypeTrees)
    (members : TypeTrees) (label : TypeToken)
    → Calm n type
    → ((ms : TypeTrees) → Calm n (next ms))
    → Calm n (typed_member type next members label)
unfolding typed_member
typed_member-Calm n type next members label h k =
    search (step_rules, Steps.Calm-pred, after_member-Calm n) depth 12 fits 4000

pub member_loop-Calm :
    (k : ℕ) (type : Step TypeParser TypeTree)
    → Calm k type
    → Moves k type
    → (members : TypeTrees) → Calm k (member_loop k type members)
unfolding member_loop
member_loop-Calm zero type h m members = Steps.exhausted-Calm remaining
member_loop-Calm (suc k) type h m members =
    search
      (
        step_rules,
        Steps.Calm-pred,
        Steps.Moves-pred,
        member_loop-Calm k type,
        after_member-Calm k,
        typed_member-Calm k,
      )
      depth 12 fits 4000

pub after_element-Calm :
    (n : ℕ) (next : Step TypeParser TypeTrees) (members : TypeTrees)
    → Calm n next
    → Calm n (after_element next members)
unfolding after_element
after_element-Calm zero next members h = record { ends = λ s b le lt. absurd (omega arith) }
after_element-Calm (suc n) next members h = search (step_rules, Steps.Calm-pred) depth 12 fits 4000

pub element_loop-Calm :
    (k : ℕ) (type : Step TypeParser TypeTree)
    → Calm k type
    → Moves k type
    → (members : TypeTrees) → Calm k (element_loop k type members)
unfolding element_loop
element_loop-Calm zero type h m members = Steps.exhausted-Calm remaining
element_loop-Calm (suc k) type h m members =
    search
      (
        step_rules,
        Steps.Calm-pred,
        Steps.Moves-pred,
        element_loop-Calm k type,
        after_element-Calm k,
      )
      depth 12 fits 4000

pub expect_colon_behind-Calm : (n : ℕ) (kind : FunctionTypeKind) → Calm n (expect_colon_behind kind)
unfolding expect_colon_behind
expect_colon_behind-Calm zero kind = record { ends = λ s b le lt. absurd (omega arith) }
expect_colon_behind-Calm (suc n) kind = search step_rules depth 12 fits 4000

pub function_kind-Calm : (n : ℕ) → Calm n function_kind
unfolding function_kind
function_kind-Calm zero = record { ends = λ s b le lt. absurd (omega arith) }
function_kind-Calm (suc n) = search (step_rules, expect_colon_behind-Calm) depth 12 fits 4000

pub parse_return_type-Calm :
    (n : ℕ) (type : Step TypeParser TypeTree) → Calm n type → Calm n (parse_return_type type)
unfolding parse_return_type
parse_return_type-Calm zero type h = record { ends = λ s b le lt. absurd (omega arith) }
parse_return_type-Calm (suc n) type h = search (step_rules, Steps.Calm-pred) depth 12 fits 4000
