-- ===== src/Parser/Script/Bindings/Progress.antt =====
-- aoba/parser/parser_bindings.cc: the loops end, and what an element leaves.
use aoba.Prelude.{refl, arith, ℕ, zero, suc, ◌≤◌, ◌<◌, Bool, true, false, Option, some, none, ◌≡◌}
use aoba.Parser.Utils.Steps
use aoba.Parser.Utils.Steps.{
  if◌then◌else◌, Step, ◌>>=◌, ◌>>◌, pure, crash, modify, Ends, Ends-weaken, Ends-and_then,
  if_cases-Ends,
}
use aoba.Parser.Script.Nodes.{ScriptToken, JsTree, JsTrees, push, nil}
use aoba.Parser.Script.Actions.{ScriptParser, peeked}
use aoba.Parser.Script.Calls.{Caller, Nonterminal}
use aoba.Parser.Script.Reads.{remaining, Still, Calm, Moves, consume_token-Moves}
use aoba.Parser.Script.Rules.{
  add_range_error-Keeps, still_rules, slice-Still, step_rules, tail_rules, scope-Moves, check-Still,
}
use aoba.Parser.Script.Bindings.{
  can_start_binding, new_binding_name, initializer, parse_name_binding, skip_loop,
  skip_to_list_element, skip_element, report_rest, named_member, after_member, parse_rest,
}

abbrev pub starts : Option ScriptToken → Bool
starts none = false
starts (some token) = can_start_binding token

-- Where the token ahead can start an element, the step moves.
pub record Ahead {A : Type 0} (n : ℕ) (m : Step ScriptParser A) : Type 0 where
  pub ends :
      (s : ScriptParser) (b : ℕ)
      → starts (peeked s) ≡ true
      → remaining s ≤ b
      → b < n
      → Ends (λ a q. remaining q < b) (m s)

-- Where the step does not move, the token that it leaves cannot start an element.
pub record Behind {A : Type 0} (n : ℕ) (m : Step ScriptParser A) : Type 0 where
  pub ends :
      (s : ScriptParser) (b : ℕ)
      → remaining s ≤ b
      → b < n
      → Ends (λ a q. (remaining q ≤ b) × (starts (peeked q) ≡ true → remaining q < b)) (m s)

new_binding_name-Still : (name : ScriptToken) (value : JsTree) → Still (new_binding_name name value)
unfolding new_binding_name
new_binding_name-Still name value = search step_rules

module _ (n : ℕ) (call : Caller) (h : (x : Nonterminal) → Calm n (call x)) where
  pub initializer-Calm :
      (make : JsTree → Step ScriptParser JsTree)
      → ((value : JsTree) → Still (make value))
      → Calm n (initializer call make)
  unfolding initializer
  initializer-Calm make k = search (tail_rules, h, k) depth 12 fits 4000

  pub parse_name_binding-Moves : Moves (suc n) (parse_name_binding call)
  unfolding parse_name_binding
  parse_name_binding-Moves =
      search (step_rules, initializer-Calm, new_binding_name-Still) depth 12 fits 4000

  pub named_member-Moves : Moves (suc n) (named_member call)
  unfolding named_member
  named_member-Moves =
      search
        (
          Steps.bind-Moves, consume_token-Moves, scope-Moves, tail_rules, h, new_binding_name-Still,
          slice-Still,
        )
        depth 14 fits 4000

  pub parse_rest-Calm : Calm n (parse_rest call)
  unfolding parse_rest
  parse_rest-Calm = search (tail_rules, h) depth 12 fits 4000

skip_loop_zero-Calm :
    {A : Type 0} (depth : ℕ) (found other : Step ScriptParser A)
    → Calm 0 (skip_loop 0 depth found other)
unfolding skip_loop
skip_loop_zero-Calm depth found other = Steps.exhausted-Calm remaining

skip_round-Calm :
    {A : Type 0} (k depth : ℕ) (found other : Step ScriptParser A)
    → Calm k found
    → Calm (suc k) other
    → Calm k (skip_loop k depth found other)
    → Calm (suc k) (skip_loop (suc k) depth found other)
unfolding skip_loop
skip_round-Calm k depth found other f g h = search step_rules depth 12 fits 4000

skip_loop-Calm :
    {A : Type 0} (k depth : ℕ) (found other : Step ScriptParser A)
    → Calm k found
    → Calm (suc k) other
    → Calm (suc k) (skip_loop (suc k) depth found other)
skip_loop-Calm zero depth found other f g =
    skip_round-Calm zero depth found other f g (skip_loop_zero-Calm depth found other)
skip_loop-Calm (suc k) depth found other f g = skip_round-Calm (suc k) depth found other f g (
    skip_loop-Calm k depth found other (Steps.Calm-pred remaining k found f)
      (Steps.Calm-pred remaining (suc k) other g))

pub skip_element-Calm :
    (k : ℕ) (token : ScriptToken) (loop : Step ScriptParser JsTrees) (elements : JsTrees)
    → Calm k loop
    → Calm (suc k) (skip_element (suc k) token loop elements)
unfolding skip_element skip_to_list_element
skip_element-Calm k token loop elements h =
    search (tail_rules, check-Still, skip_loop-Calm) depth 12 fits 4000

pub report_rest-Still : (elements : JsTrees) → Still (report_rest elements)
report_rest-Still nil = search step_rules
report_rest-Still (push t ts) = search step_rules

pub after_member-Calm :
    (n : ℕ) (loop : JsTrees → Step ScriptParser JsTrees)
    → ((es : JsTrees) → Calm n (loop es))
    → (elements : JsTrees) (element : JsTree) → Calm n (after_member loop elements element)
unfolding after_member
after_member-Calm n loop k elements element = search (tail_rules, k) depth 12 fits 4000

abbrev bit : Bool → ℕ
bit true = 1
bit false = 0

-- 1 where the token ahead can start an element.
abbrev pub flag : ScriptParser → ℕ
flag p = bit (starts (peeked p))

pub flag-eq : (p q : ScriptParser) → flag q ≡ flag p → starts (peeked q) ≡ starts (peeked p)
flag-eq p q e = bit-injective (starts (peeked q)) (starts (peeked p)) e
  where
    bit-injective : (c d : Bool) → bit c ≡ bit d → c ≡ d
    bit-injective true true h = refl
    bit-injective true false h = absurd (omega (arith, h))
    bit-injective false true h = absurd (omega (arith, h))
    bit-injective false false h = refl

pub report_rest-Keeps : (elements : JsTrees) → Steps.Still flag (report_rest elements)
report_rest-Keeps nil = search still_rules
report_rest-Keeps (push t ts) = search (still_rules, add_range_error-Keeps flag (λ p errors. refl))
