-- ===== src/Parser/Script/Termination.antt =====
-- aoba/parser/parser.cc: the parser of scripts ends, at the end of its text.
use aoba.Prelude.{ℕ, zero, suc, ◌+◌, ◌≤◌, ◌<◌, Bool, Option, some, none, ◌≡◌, refl, length, arith}
use aoba.Parser.Utils.Steps
use aoba.Parser.Utils.Steps.{
  if◌then◌else◌, Step, ◌>>=◌, ◌>>◌, pure, exhausted, gets, modify, Ends, Ends-and_then, Ends-weaken,
  if_cases-Ends,
}
use aoba.Parser.Lexer.State.{Lexer, Token}
use aoba.Parser.Lexer.Buffer.{left_at}
use aoba.Parser.Script.Nodes.{ScriptToken, JsTree, JsTrees, push_back}
use aoba.Parser.Script.Actions.{ScriptParser, peeked, with_peeked, with_token, skip_comment_tokens}
use aoba.Parser.Script.Calls.{
  Caller, Phrase, Nonterminal, phrase, statement, expression, assignment_expression,
  unary_expression, left_hand_side, new_expression, primary_expression, binding_element,
}
use aoba.Parser.Script.Reads.{
  remaining, Calm, Moves, Still, Shown, peeked-Shown, skip_comment_tokens-Calm,
}
use aoba.Parser.Script.Rules.{move_rules, helper_rules, add_range_error-Still}
use aoba.Parser.Script.Bindings.Elements.{
  parse_binding_element-Ahead, parse_binding_element-Behind, parse_binding_element-Calm,
}
use aoba.Parser.Script.Progress.{CallsEnd}
use aoba.Parser.Script.Progress.Primary.{
  parse_primary_expression-Moves, parse_primary_expression-Calm,
}
use aoba.Parser.Script.Progress.Levels.{
  parse_new_expression-Moves, parse_new_expression-Calm, parse_left_hand_side-Moves,
  parse_left_hand_side-Calm, parse_unary_expression-Moves, parse_unary_expression-Calm,
  parse_assignment_expression-Moves, parse_assignment_expression-Calm, parse_expression-Moves,
  parse_expression-Calm,
}
use aoba.Parser.Script.Progress.Statements.{parse_statement-Moves, parse_statement-Calm}
use aoba.Parser.Script.Run.{
  parse_phrase, parse_nonterminal, parse, report_overview, take_overview, run_loop, finish_brackets,
  run_on, run,
}

module _ (n : ℕ) (call : Caller) (c : CallsEnd n call) where
  parse_phrase-Moves : (x : Phrase) → Moves (suc n) (parse_phrase n call x)
  parse_phrase-Moves statement = parse_statement-Moves n call c
  parse_phrase-Moves expression = parse_expression-Moves n call c
  parse_phrase-Moves assignment_expression = parse_assignment_expression-Moves n call c
  parse_phrase-Moves unary_expression = parse_unary_expression-Moves n call c
  parse_phrase-Moves left_hand_side = parse_left_hand_side-Moves n call c
  parse_phrase-Moves new_expression = parse_new_expression-Moves n call c
  parse_phrase-Moves primary_expression = parse_primary_expression-Moves n call c

  parse_nonterminal-Calm : (x : Nonterminal) → Calm (suc n) (parse_nonterminal n call x)
  parse_nonterminal-Calm (phrase statement) = parse_statement-Calm n call c
  parse_nonterminal-Calm (phrase expression) = parse_expression-Calm n call c
  parse_nonterminal-Calm (phrase assignment_expression) = parse_assignment_expression-Calm n call c
  parse_nonterminal-Calm (phrase unary_expression) = parse_unary_expression-Calm n call c
  parse_nonterminal-Calm (phrase left_hand_side) = parse_left_hand_side-Calm n call c
  parse_nonterminal-Calm (phrase new_expression) = parse_new_expression-Calm n call c
  parse_nonterminal-Calm (phrase primary_expression) = parse_primary_expression-Calm n call c
  parse_nonterminal-Calm binding_element = parse_binding_element-Calm n call c.calm c.ahead

parse-CallsEnd : (n : ℕ) → CallsEnd n (parse n)
unfolding parse
parse-CallsEnd zero = record {
  calm = λ x. Steps.exhausted-Calm remaining;
  moves = λ x. record { ends = λ s b le pos lt. absurd (omega (arith, lt)) };
  ahead = record { ends = λ s b e le lt. absurd (omega (arith, lt)) };
  behind = record { ends = λ s b le lt. absurd (omega (arith, lt)) };
}
parse-CallsEnd (suc n) =
    let c = parse-CallsEnd n in
    record {
      calm = parse_nonterminal-Calm n (parse n) c;
      moves = parse_phrase-Moves n (parse n) c;
      ahead = parse_binding_element-Ahead n (parse n) c.calm c.ahead;
      behind = parse_binding_element-Behind n (parse n) c.calm c.ahead;
    }

-- Where a token is ahead, each function of statements and expressions ends, on fuel for what is
-- left, and has consumed a token of the text when it returns.
pub parse-Consumes :
    (x : Phrase) (n : ℕ) (p : ScriptParser) (token : ScriptToken)
    → peeked p ≡ some token
    → remaining p < n
    → Ends (λ tree q. remaining q < remaining p) (parse n (phrase x) p)
parse-Consumes x n p token e lt =
    ((parse-CallsEnd n).moves x).ends p (remaining p) (omega arith)
      (some-left (peeked p) (remaining p) token e (peeked-Shown p)) lt
  where
    some-left : (o : Option ScriptToken) (r : ℕ) (t : ScriptToken) → o ≡ some t → Shown o r → 0 < r
    some-left none r t f shown = cc
    some-left (some u) r t f shown = shown

report_overview-Still :
    (before : Option ScriptToken) (found : ScriptToken) → Still (report_overview before found)
report_overview-Still none found = search helper_rules
report_overview-Still (some before) found = add_range_error-Still _ _

set_overview-Still :
    (found : ScriptToken) → Still (modify (λ p. record p { file_overview = some found }))
unfolding modify
set_overview-Still found = record { keeps = λ s. refl }

take_overview-Moves : (n : ℕ) → Moves n take_overview
unfolding take_overview
take_overview-Moves n =
    search (move_rules, report_overview-Still, set_overview-Still) depth 14 fits 4000

-- A parser that moves, and the rounds behind it.
rounds-Ends :
    (k : ℕ) (m : Step ScriptParser JsTree) (f : JsTree → Step ScriptParser JsTrees)
    (s : ScriptParser)
    → Moves (suc k) m
    → ((t : JsTree) (q : ScriptParser) → remaining q < k → Ends (λ a r. peeked r ≡ none) (f t q))
    → 0 < remaining s
    → remaining s < suc k
    → Ends (λ a r. peeked r ≡ none) ((m >>= f) s)
unfolding ◌>>=◌
rounds-Ends k m f s h g pos lt =
    Ends-and_then (λ a q. remaining q < remaining s) (λ a r. peeked r ≡ none) (m s) f
      (h.ends s (remaining s) (omega arith) pos lt) (λ t q less. g t q (omega (arith, less, lt)))

module _ (k : ℕ) (next : Step ScriptParser JsTree) (h : Moves (suc k) next)
    (loop : JsTrees → Step ScriptParser JsTrees)
    (ih : (ts : JsTrees) (q : ScriptParser)
      → remaining q < k
      → Ends (λ a r. peeked r ≡ none) (loop ts q)) where
  run_round-Ends :
      (is_overview : ScriptToken → Bool) (statements : JsTrees) (o : Option ScriptToken)
      (s : ScriptParser)
      → peeked s ≡ o
      → Shown o (remaining s)
      → remaining s < suc k
      → Ends
          (λ a r. peeked r ≡ none)
          (with_peeked o
            (pure statements)
            (λ token.
              if is_overview token
              then take_overview >>= (λ found. loop (push_back statements found))
              else next >>= (λ parsed. loop (push_back statements parsed)))
            s)
  unfolding pure
  run_round-Ends is_overview statements none s e shown lt = e
  run_round-Ends is_overview statements (some token) s e shown lt =
      if_cases-Ends (λ a r. peeked r ≡ none) (is_overview token) _ _ s
        (λ c.
          rounds-Ends k take_overview _ s (take_overview-Moves (suc k)) (λ t q less. ih _ q less)
            shown lt)
        (λ c. rounds-Ends k next _ s h (λ t q less. ih _ q less) shown lt)

run_loop-Ends :
    (k : ℕ) (next : Step ScriptParser JsTree)
    → Moves k next
    → (statements : JsTrees) (s : ScriptParser) → remaining s < k
    → Ends (λ a r. peeked r ≡ none) (run_loop k next statements s)
unfolding run_loop with_token
run_loop-Ends zero next h statements s lt = absurd (omega (arith, lt))
run_loop-Ends (suc k) next h statements s lt =
    run_round-Ends k next h (run_loop k next)
      (run_loop-Ends k next (Steps.Moves-pred remaining k next h)) _ statements (peeked s) s refl
      (peeked-Shown s) lt

run_on-Ends :
    (n : ℕ) (p : ScriptParser) → remaining p < n → Ends (λ tree q. peeked q ≡ none) (run_on n p)
unfolding run_on ◌>>=◌ finish_brackets modify gets pure
run_on-Ends n p lt =
    Ends-and_then (λ a q. remaining q ≤ remaining p) (λ tree q. peeked q ≡ none)
      (skip_comment_tokens p) _ ((skip_comment_tokens-Calm n).ends p (remaining p) (omega arith) lt)
      (λ a q le.
        Ends-and_then (λ a r. peeked r ≡ none) (λ tree r. peeked r ≡ none)
          (run_loop n (parse n (phrase statement)) _ q) _
          (run_loop-Ends n (parse n (phrase statement)) ((parse-CallsEnd n).moves statement) _ q
            (omega (arith, le, lt)))
          (λ ts r e. e))

left-fuel : (o : Option Token) (l : Lexer) → left_at o l < length l.reader.ahead + 2
left-fuel none l = omega arith
left-fuel (some token) l = omega arith

-- `Run` ends from any state, within the fuel of the text that is ahead: it returns a tree when no
-- token is left, or a `DCHECK` fails.
pub run-Finishes : (p : ScriptParser) → Ends (λ tree q. peeked q ≡ none) (run p)
unfolding run
run-Finishes p =
    run_on-Ends (length p.stack + length p.buffer.lexer.reader.ahead + 2) p
      (omega (arith, left-fuel p.buffer.current p.buffer.lexer))
