-- ===== src/Parser/Script/Progress/Expressions.antt =====
-- aoba/parser/parser_expressions.cc: expressions with operators move, and their loops end.
use aoba.Prelude.{ℕ, zero, suc}
use aoba.Parser.Utils.Steps
use aoba.Parser.Utils.Steps.{if◌then◌else◌, Step, ◌>>=◌, ◌>>◌, pure}
use aoba.Parser.Script.Nodes.{
  ScriptToken, JsTree, JsTrees, nil, push, leaf, three, binary_expression, call_expression,
}
use aoba.Parser.Script.Words.{expression_expect_expression}
use aoba.Parser.Script.Actions.{ScriptParser, with_token}
use aoba.Parser.Script.Ranges.{add_error, new_node}
use aoba.Parser.Script.Calls.{Caller, Phrase, Nonterminal, phrase}
use aoba.Parser.Script.Reads.{remaining, Calm, Moves, Still}
use aoba.Parser.Script.Rules.{step_rules, tail_rules, helper_rules}
use aoba.Parser.Script.Operators.{
  handle_computed_member, handle_member, members_behind, after_argument, arguments_loop,
  calls_behind, binary_loop, comma_loop, new_comma,
}
use aoba.Parser.Script.Expressions.{new_unary, after_operand}

-- The calls at a smaller bound.
pub calls_pred :
    (k : ℕ) (call : Caller)
    → ((x : Nonterminal) → Calm (suc k) (call x))
    → (x : Nonterminal) → Calm k (call x)
calls_pred k call h x = Steps.Calm-pred remaining k (call x) (h x)

pub handle_computed_member-Calm :
    (n : ℕ) (call : Caller)
    → ((x : Nonterminal) → Calm n (call x))
    → (object : JsTree) → Calm n (handle_computed_member call object)
unfolding handle_computed_member
handle_computed_member-Calm n call h object = search (tail_rules, h) depth 12 fits 4000

handle_member-Calm : (n : ℕ) (object : JsTree) → Calm n (handle_member object)
unfolding handle_member
handle_member-Calm n object = search tail_rules depth 12 fits 4000

pub members_behind-Calm :
    (k : ℕ) (call : Caller)
    → ((x : Nonterminal) → Calm k (call x))
    → (object : JsTree) → Calm k (members_behind k call object)
unfolding members_behind
members_behind-Calm zero call h object = Steps.exhausted-Calm remaining
members_behind-Calm (suc k) call h object =
    search
      (
        step_rules,
        handle_computed_member-Calm k call (calls_pred k call h),
        handle_member-Calm k,
        members_behind-Calm k call (calls_pred k call h),
      )
      depth 12 fits 4000

after_argument-Calm :
    (n : ℕ) (loop : JsTrees → Step ScriptParser JsTrees)
    → ((es : JsTrees) → Calm n (loop es))
    → (arguments : JsTrees) → Calm n (after_argument loop arguments)
unfolding after_argument
after_argument-Calm n loop h arguments = search (tail_rules, h) depth 14 fits 4000

pub arguments_loop-Calm :
    (k : ℕ) (call : Caller)
    → ((x : Phrase) → Moves k (call (phrase x)))
    → (arguments : JsTrees) → Calm k (arguments_loop k call arguments)
unfolding arguments_loop
arguments_loop-Calm zero call m arguments = Steps.exhausted-Calm remaining
arguments_loop-Calm (suc k) call m arguments =
    search
      (
        step_rules,
        m,
        after_argument-Calm k (arguments_loop k call) (
            arguments_loop-Calm k call (λ x. Steps.Moves-pred remaining k (call (phrase x)) (m x))),
      )
      depth 12 fits 4000

-- A call's arguments, and what follows the call.
call_round-Calm :
    (n : ℕ) (arguments : Step ScriptParser JsTrees) (loop : JsTree → Step ScriptParser JsTree)
    → Calm n arguments
    → ((t : JsTree) → Calm n (loop t))
    → (object : JsTree)
    → Calm n
        (do parsed ← arguments; called ← new_node call_expression (push object parsed); loop called)
call_round-Calm n arguments loop h l object = search tail_rules depth 12 fits 4000

pub calls_behind-Calm :
    (k : ℕ) (call : Caller) (arguments : Step ScriptParser JsTrees)
    → ((x : Nonterminal) → Calm k (call x))
    → Calm k arguments
    → (object : JsTree) → Calm k (calls_behind k call arguments object)
unfolding calls_behind
calls_behind-Calm zero call arguments h a object = Steps.exhausted-Calm remaining
calls_behind-Calm (suc k) call arguments h a object =
    search
      (
        step_rules,
        call_round-Calm k arguments (calls_behind k call arguments)
            (Steps.Calm-pred remaining k arguments a)
            (calls_behind-Calm k call arguments (calls_pred k call h)
              (Steps.Calm-pred remaining k arguments a)),
        handle_computed_member-Calm k call (calls_pred k call h),
        handle_member-Calm k,
        calls_behind-Calm k call arguments (calls_pred k call h)
            (Steps.Calm-pred remaining k arguments a),
      )
      depth 12 fits 4000

-- An operand behind its operator, and the operators behind it.
binary_round-Calm :
    (n : ℕ) (lower : Step ScriptParser JsTree) (loop : JsTree → Step ScriptParser JsTree)
    → Calm n lower
    → ((t : JsTree) → Calm n (loop t))
    → (left : JsTree) (op : ScriptToken)
    → Calm n (
        with_token (add_error expression_expect_expression >> pure left) (λ next. do
          right ← lower
          parsed ← new_node binary_expression (three left (leaf op) right)
          loop parsed))
binary_round-Calm n lower loop h l left op = search tail_rules depth 12 fits 4000

pub binary_loop-Calm :
    (k category : ℕ) (lower : Step ScriptParser JsTree)
    → Calm k lower
    → (left : JsTree) → Calm k (binary_loop k category lower left)
unfolding binary_loop
binary_loop-Calm zero category lower h left = Steps.exhausted-Calm remaining
binary_loop-Calm (suc k) category lower h left =
    search
      (
        step_rules,
        binary_round-Calm k lower (binary_loop k category lower)
            (Steps.Calm-pred remaining k lower h)
            (binary_loop-Calm k category lower (Steps.Calm-pred remaining k lower h)),
      )
      depth 12 fits 4000

pub comma_loop-Calm :
    (k : ℕ) (call : Caller)
    → ((x : Nonterminal) → Calm k (call x))
    → (expressions : JsTrees) → Calm k (comma_loop k call expressions)
unfolding comma_loop
comma_loop-Calm zero call h expressions = Steps.exhausted-Calm remaining
comma_loop-Calm (suc k) call h expressions =
    search (step_rules, calls_pred k call h, comma_loop-Calm k call (calls_pred k call h)) depth 12
      fits 4000

pub new_comma-Still : (expressions : JsTrees) → Still (new_comma expressions)
new_comma-Still nil = search helper_rules
new_comma-Still (push t nil) = search helper_rules
new_comma-Still (push t (push u us)) = search helper_rules

pub new_unary-Still : (op : ScriptToken) (operand : JsTree) → Still (new_unary op operand)
unfolding new_unary
new_unary-Still op operand = search helper_rules

pub after_operand-Calm : (n : ℕ) (operand : JsTree) → Calm n (after_operand operand)
unfolding after_operand
after_operand-Calm n operand = search (tail_rules, new_unary-Still) depth 14 fits 4000
