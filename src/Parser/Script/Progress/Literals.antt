-- ===== src/Parser/Script/Progress/Literals.antt =====
-- aoba/parser/parser_expressions.cc: the literals of regular expressions move.
use aoba.Prelude.{
  ℕ, ◌≤◌, Option, some, none, ◌≡◌, refl, ap, length, length-append, arith, Bool-cases, inl, inr,
}
use aoba.Parser.Utils.Steps
use aoba.Parser.Utils.Steps.{if◌then◌else◌, Step, ◌>>=◌, ◌>>◌, pure, Ends}
use aoba.Parser.Lexer.State.{Lexer, Token}
use aoba.Parser.Lexer.Buffer.{left_at}
use aoba.Parser.Lexer.Comments
use aoba.Parser.Lexer.Buffer.Reaches.{
  extend_token, extend_current, is_slash, extend_token_as_reg_exp-Reads,
}
use aoba.Parser.Regexp.Parser
use aoba.Parser.Regexp.Parser.Actions
use aoba.Parser.Regexp.Parser.Actions.{RegExpParser, start_regexp_parser}
use aoba.Parser.Regexp.Parser.Fuel
use aoba.Parser.Regexp.Parser.Termination.{parse-Ends}
use aoba.Parser.Regexp.Parser.Nodes.{Tree}
use aoba.Parser.Script.Nodes.{ScriptToken}
use aoba.Parser.Script.Actions.{ScriptParser}
use aoba.Parser.Script.Reads.{remaining, left, Calm, Moves, Still}
use aoba.Parser.Script.Rules.{tail_rules, move_rules, helper_rules, slice-Still}
use aoba.Parser.Script.Literals.{
  take_extended, extend_token_as_reg_exp, take_regexp, run_regexp_parser, char_at, regexp_flags,
  pattern_range, parse_regexp_literal,
}

take_extended-Ends :
    (p : ScriptParser) (current : Option Token) (l : Lexer)
    → left p ≡ left_at current l
    → Ends
        (λ a q. remaining q ≤ remaining p)
        (take_extended p (extend_current current (record { lexer = l; current = current })))
take_extended-Ends p none l e = tt
take_extended-Ends p (some token) l e = elim (Bool-cases (is_slash token.node)) [
  | inl found ↦
      let made = Comments.extend_token_as_reg_exp token l in
      let ((w, reads), from, end) = extend_token_as_reg_exp-Reads token l in
      rw found (
        omega
          (arith, e, reads.moved, ap length reads.text, length-append {0} w made.1.reader.ahead))
  | inr other ↦ rw other tt
]

extend_token_as_reg_exp-Calm : (n : ℕ) → Calm n extend_token_as_reg_exp
unfolding extend_token_as_reg_exp extend_token
extend_token_as_reg_exp-Calm n = record {
  ends = λ s b le lt.
      Steps.Ends-weaken (λ a q. remaining q ≤ remaining s) (λ a q. remaining q ≤ b) _
        (take_extended-Ends s s.buffer.current s.buffer.lexer refl)
        (λ a q le'. omega (arith, le', le));
}

take_regexp-Ends :
    (p : ScriptParser) (P : Tree → RegExpParser → Type 0) (o : Actions.Outcome Tree)
    → Fuel.Ends P o
    → Ends (λ a q. remaining q ≡ remaining p) (take_regexp p o)
take_regexp-Ends p P (Actions.returned tree q) h = refl
take_regexp-Ends p P Actions.crashed h = tt
take_regexp-Ends p P Actions.out_of_fuel h = absurd h

run_regexp_parser-Still : (range : ℕ × ℕ) → Still (run_regexp_parser range)
unfolding run_regexp_parser
run_regexp_parser-Still (start, end) = record {
  keeps = λ s. take_regexp-Ends s _ (Parser.parse _) (parse-Ends _);
}

char_at-Still : (offset : ℕ) → Still (char_at offset)
unfolding char_at
char_at-Still offset = search helper_rules

regexp_flags-Calm : (n : ℕ) (tree : Tree) → Calm n (regexp_flags tree)
unfolding regexp_flags
regexp_flags-Calm n tree = search tail_rules depth 14 fits 4000

pattern_range-Still : (source : ScriptToken) → Still (pattern_range source)
unfolding pattern_range
pattern_range-Still source = search (helper_rules, slice-Still, char_at-Still)

literal_behind-Calm :
    (n : ℕ) (source : ScriptToken)
    → Calm n (
        pattern_range source >>= (λ range. run_regexp_parser range >>= (λ tree. regexp_flags tree)))
literal_behind-Calm n source =
    search (tail_rules, pattern_range-Still, run_regexp_parser-Still, regexp_flags-Calm) depth 12
      fits 4000

pub parse_regexp_literal-Moves : (n : ℕ) → Moves n parse_regexp_literal
unfolding parse_regexp_literal
parse_regexp_literal-Moves n =
    search
      (move_rules, Steps.bind_first-Calm-Moves, extend_token_as_reg_exp-Calm, literal_behind-Calm)
      depth 16 fits 4000
