-- ===== src/Parser/Script/Tests.antt =====
-- The theorems of the parser of scripts at concrete inputs.
use aoba.Prelude.{ℕ, zero, suc, ◌+◌, List, ◌∷◌, ◌<◌, false, some, none, [], ◌≡◌, refl, arith}
use aoba.Ast.TokenKind.{codes, equal}
use aoba.Parser.Utils.Steps.{Ends, returned}
use aoba.Parser.Lexer.State.{LexerContext, TokenNode, start_lexer}
use aoba.Parser.Lexer.Characters.{next_token}
use aoba.Parser.Lexer.Buffer.{lexed, at_end-MeetsChecks}
use aoba.Parser.Script.Nodes.{
  ScriptToken, JsTree, leaf, node, one, two, array_initializer, object_initializer,
}
use aoba.Parser.Script.Parameters.{reference_to}
use aoba.Parser.Script.Ranges.{expect_semicolon}
use aoba.Parser.Script.Ranges.Semicolons.{expect_semicolon-at_token}
use aoba.Parser.Script.Actions.{
  ScriptParser, script_brackets, start_script_parser, peeked, consume_token,
}
use aoba.Parser.Script.Calls.{phrase, statement}
use aoba.Parser.Script.Reads.{remaining}
use aoba.Parser.Script.Reads.Returns.{Returned, Meets, consume_token-Returned}
use aoba.Parser.Script.Run.{parse, run}
use aoba.Parser.Script.Termination.{run-Finishes, parse-Consumes}

abbrev context : LexerContext
context = record { enable_strict_backslash = false }

abbrev script : ScriptParser
script =
    start_script_parser context false false (
      codes
        "/** @const */ var [a, ...b] = c, {d: e} = /f/g;\nfor (x of y) if (!x) z => 1; else w\n")

run-Finishes_example : Ends (λ tree q. peeked q ≡ none) (run script)
run-Finishes_example = run-Finishes script

abbrev first_name : ScriptToken
first_name = record { start = 0; end = 1; node = TokenNode.name; text = codes "x" }

-- The parser of `x = y;` at its first name.
abbrev assignment : ScriptParser
assignment = record {
  buffer = record {
    lexer = start_lexer 1 (codes " = y;");
    current = some (record { start = 0; end = 1; node = TokenNode.name });
  };
  context = context;
  text = codes "x = y;";
  disable_automatic_semicolon = false;
  enable_strict_regexp = false;
  tracker = record { descriptions = script_brackets; range_end = 6; stack = []; errors = [] };
  stack = [];
  is_separated_by_newline = false;
  last_token = none;
  tokens = [];
  node_start = 0;
  file_overview = none;
  errors = [];
}

parse-Consumes_example :
    Ends (λ tree q. remaining q < remaining assignment) (parse 7 (phrase statement) assignment)
parse-Consumes_example = parse-Consumes statement 7 assignment first_name refl (omega arith)

abbrev word_at : ℕ → List ℕ → JsTree
word_at start text =
    leaf (record { start = start; end = start + 1; node = TokenNode.name; text = text })

abbrev equal_sign : ScriptToken
equal_sign = record { start = 8; end = 9; node = TokenNode.punctuator equal; text = codes "=" }

-- `[a, {b}] = c`.
abbrev nested : JsTree
nested = node array_initializer 0 8 (
    two (reference_to (word_at 1 (codes "a")))
      (node object_initializer 4 7 (one (reference_to (word_at 5 (codes "b"))))))

abbrev default_value : JsTree
default_value = reference_to (word_at 11 (codes "c"))

abbrev second_name : ScriptToken
second_name = record { start = 2; end = 3; node = TokenNode.name; text = codes "y" }

-- The parser of `x y` behind its first name.
abbrev two_names : ScriptParser
two_names = record assignment {
  buffer = record {
    lexer = start_lexer 3 [];
    current = some (record { start = 2; end = 3; node = TokenNode.name });
  };
  text = codes "x y";
  last_token = some first_name;
  tokens = second_name ∷ first_name ∷ [];
}

expect_semicolon-at_token_example :
    expect_semicolon two_names
    ≡ returned tt (record two_names { errors = record { start = 0; end = 1; code = 20047 } ∷ [] })
expect_semicolon-at_token_example =
    expect_semicolon-at_token two_names first_name second_name refl (omega arith) (omega arith) refl
      refl

-- The lexer of `assignment` meets its checks, up to the end of the text.
assignment-Meets : Meets assignment
unfolding next_token
assignment-Meets zero = refl
assignment-Meets (suc zero) = refl
assignment-Meets (suc (suc zero)) = refl
assignment-Meets (suc (suc (suc k))) =
    at_end-MeetsChecks context (lexed context 3 (start_lexer 1 (codes " = y;"))) refl refl k

consume_token-Returned_example :
    Returned
      (λ consumed q.
        (consumed ≡ first_name)
        × (q.last_token ≡ some first_name)
        × (remaining q < remaining assignment))
      (consume_token assignment)
consume_token-Returned_example = consume_token-Returned assignment first_name refl assignment-Meets
