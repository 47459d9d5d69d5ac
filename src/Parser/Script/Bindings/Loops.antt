-- ===== src/Parser/Script/Bindings/Loops.antt =====
-- aoba/parser/parser_bindings.cc: the loops end, since each element of theirs moves.
use aoba.Prelude.{ℕ, zero, suc, ◌≤◌, ◌<◌, true, Option, some, none, ◌≡◌, ◌∙◌, ap, arith}
use aoba.Ast.TokenKind.{right_bracket, comma}
use aoba.Parser.Utils.Steps
use aoba.Parser.Utils.Steps.{
  if◌then◌else◌, Step, ◌>>=◌, ◌>>◌, pure, crash, modify, Ends, Ends-weaken, Ends-and_then,
  Ends-both, if_cases-Ends,
}
use aoba.Parser.Script.Nodes.{ScriptToken, JsTree, JsTrees, has_kind, push_back}
use aoba.Parser.Script.Actions.{
  ScriptParser, peeked, with_peeked, with_token, if_kind, consume_token,
}
use aoba.Parser.Script.Calls.{Caller, binding_element}
use aoba.Parser.Script.Reads.{remaining, Calm, Shown, peeked-Shown, consume_token-Moves}
use aoba.Parser.Script.Rules.{tail_rules}
use aoba.Parser.Script.Bindings.{
  without_comma, without_comma, can_start_binding, after_element, parse_bindings, skip_element,
  report_rest, comma_element,
}
use aoba.Parser.Script.Bindings.Progress.{
  report_rest-Keeps, flag, flag-eq, starts, Ahead, Behind, skip_element-Calm, report_rest-Still,
}

module _ {A : Type 0} where
  pub Ahead-pred : (n : ℕ) (m : Step ScriptParser A) → Ahead (suc n) m → Ahead n m
  Ahead-pred n m h = record { ends = λ s b e le lt. h.ends s b e le (omega (arith, lt)) }

  pub Behind-pred : (n : ℕ) (m : Step ScriptParser A) → Behind (suc n) m → Behind n m
  Behind-pred n m h = record { ends = λ s b le lt. h.ends s b le (omega (arith, lt)) }

-- An element and what is parsed behind it.
pub ahead_then-Ends :
    {A B : Type 0} (k : ℕ) (m : Step ScriptParser A) (f : A → Step ScriptParser B)
    → Ahead (suc k) m
    → ((a : A) → Calm k (f a))
    → (s : ScriptParser) (b : ℕ) → starts (peeked s) ≡ true
    → remaining s ≤ b
    → b < suc k
    → Ends (λ a q. remaining q ≤ b) ((m >>= f) s)
unfolding ◌>>=◌
ahead_then-Ends k m f h c s b e le lt =
    Ends-and_then (λ a q. remaining q < b) (λ a q. remaining q ≤ b) (m s) f (h.ends s b e le lt)
      (λ a q less.
        Ends-weaken (λ x r. remaining r ≤ remaining q) (λ x r. remaining r ≤ b) (f a q)
          ((c a).ends q (remaining q) (omega arith) (omega (arith, less, lt)))
          (λ x r le'. omega (arith, le', less)))

module _ (k : ℕ) (loop : Step ScriptParser JsTrees) (h : Calm k loop) (elements : JsTrees)
    (element : JsTree) where
  without_comma-Calm : Calm k (without_comma loop elements element)
  unfolding without_comma
  without_comma-Calm = search tail_rules depth 12 fits 4000

  unmarked-Ends :
      (o : Option ScriptToken) (s : ScriptParser) (b : ℕ)
      → remaining s ≤ b
      → (starts o ≡ true → remaining s < b)
      → b < suc k
      → Ends
          (λ a q. remaining q ≤ b)
          (with_peeked o
            (pure elements)
            (λ token.
              if can_start_binding token
              then without_comma loop elements element
              else pure elements)
            s)
  unfolding pure
  unmarked-Ends none s b le less lt = le
  unmarked-Ends (some token) s b le less lt =
      if_cases-Ends (λ a q. remaining q ≤ b) (can_start_binding token) _ (pure elements) s
        (λ e.
          Ends-weaken (λ a q. remaining q ≤ remaining s) (λ a q. remaining q ≤ b) _
            (without_comma-Calm.ends s (remaining s) (omega arith) (omega (arith, less e, lt)))
            (λ a q le'. omega (arith, le', le)))
        (λ e. le)

  marked-Ends :
      (other : Step ScriptParser JsTrees) (o : Option ScriptToken) (s : ScriptParser) (b : ℕ)
      → Shown o (remaining s)
      → remaining s ≤ b
      → b < suc k
      → Ends (λ a q. remaining q ≤ b) (other s)
      → Ends
          (λ a q. remaining q ≤ b)
          (with_peeked o other
            (λ token. if has_kind comma token then consume_token >>= (λ consumed. loop) else other)
            s)
  marked-Ends other none s b shown le lt g = g
  marked-Ends other (some token) s b shown le lt g =
      if_cases-Ends (λ a q. remaining q ≤ b) (has_kind comma token) _ other s
        (λ e.
          (Steps.Moves-CalmAhead remaining (suc k) _ (
              Steps.bind-Moves remaining consume_token (λ consumed. loop) k
                (consume_token-Moves (suc k)) (λ consumed. h))).ends
            s b le (omega (arith, shown, le)) lt)
        (λ e. g)

  after_element-Ends :
      (s : ScriptParser) (b : ℕ)
      → remaining s ≤ b
      → (starts (peeked s) ≡ true → remaining s < b)
      → b < suc k
      → Ends (λ a q. remaining q ≤ b) (after_element loop elements element s)
  unfolding after_element if_kind with_token
  after_element-Ends s b le less lt =
      marked-Ends _ (peeked s) s b (peeked-Shown s) le lt (unmarked-Ends (peeked s) s b le less lt)

bindings-Ends :
    (k : ℕ) (call : Caller) (loop : JsTrees → Step ScriptParser JsTrees) (elements : JsTrees)
    → Behind (suc k) (call binding_element)
    → ((es : JsTrees) → Calm k (loop es))
    → (o : Option ScriptToken) (s : ScriptParser) (b : ℕ) → remaining s ≤ b
    → b < suc k
    → Ends
        (λ a q. remaining q ≤ b)
        (with_peeked o
          (pure elements)
          (λ token. call binding_element >>= (λ element.
            after_element (loop (push_back elements element)) (push_back elements element) element))
          s)
unfolding ◌>>=◌ pure
bindings-Ends k call loop elements h ih none s b le lt = le
bindings-Ends k call loop elements h ih (some token) s b le lt =
    Ends-and_then (λ a q. (remaining q ≤ b) × (starts (peeked q) ≡ true → remaining q < b))
      (λ a q. remaining q ≤ b) (call binding_element s) _ (h.ends s b le lt)
      (λ element q (le', less).
        after_element-Ends k (loop (push_back elements element)) (ih (push_back elements element))
          (push_back elements element) element q b le' less lt)

-- `ParseBindingElements` ends, on fuel for what is left.
pub parse_bindings-Calm :
    (k : ℕ) (call : Caller)
    → Behind k (call binding_element)
    → (elements : JsTrees) → Calm k (parse_bindings k call elements)
unfolding parse_bindings with_token
parse_bindings-Calm zero call h elements = Steps.exhausted-Calm remaining
parse_bindings-Calm (suc k) call h elements = record {
  ends = λ s b le lt.
      bindings-Ends k call (parse_bindings k call) elements h
        (parse_bindings-Calm k call (Behind-pred k _ h)) (peeked s) s b le lt;
}

-- A round of a loop over a pattern, where the token ahead can start an element or where none is.
module _ (k : ℕ) (call : Caller) (a : Ahead (suc k) (call binding_element))
    (loop : JsTrees → Step ScriptParser JsTrees) (ih : (es : JsTrees) → Calm k (loop es)) where
  rested-Ends :
      (elements : JsTrees) (token : ScriptToken) (s : ScriptParser) (b : ℕ)
      → starts (peeked s) ≡ can_start_binding token
      → remaining s ≤ b
      → 0 < b
      → b < suc k
      → Ends
          (λ x q. remaining q ≤ b)
          ((if has_kind comma token
              then consume_token
                >>= (λ consumed. loop (push_back elements (comma_element consumed)))
              else if can_start_binding token
              then call binding_element >>= (λ element. loop (push_back elements element))
              else skip_element (suc k) token (loop elements) elements)
            s)
  rested-Ends elements token s b e le pos lt =
      if_cases-Ends (λ x q. remaining q ≤ b) (has_kind comma token) _ _ s
        (λ c.
          (Steps.Moves-CalmAhead remaining (suc k) _ (
              Steps.bind-Moves remaining consume_token _ k (consume_token-Moves (suc k))
                (λ consumed. ih _))).ends
            s b le pos lt)
        (λ c.
          if_cases-Ends (λ x q. remaining q ≤ b) (can_start_binding token) _ _ s
            (λ d. ahead_then-Ends k (call binding_element) _ a (λ element. ih _) s b (e ∙ d) le lt)
            (λ d.
              (skip_element-Calm k token (loop elements) elements (ih elements)).ends s b le lt))

  pub array-Ends :
      (elements : JsTrees) (o : Option ScriptToken) (s : ScriptParser) (b : ℕ)
      → peeked s ≡ o
      → Shown o (remaining s)
      → remaining s ≤ b
      → b < suc k
      → Ends
          (λ x q. remaining q ≤ b)
          (with_peeked o
            (pure elements)
            (λ token.
              if has_kind right_bracket token
              then pure elements
              else (report_rest elements
                  >> (if has_kind comma token
                      then consume_token
                        >>= (λ consumed. loop (push_back elements (comma_element consumed)))
                      else if can_start_binding token
                      then call binding_element >>= (λ element. loop (push_back elements element))
                      else skip_element (suc k) token (loop elements) elements)))
            s)
  unfolding ◌>>=◌ pure
  array-Ends elements none s b e shown le lt = le
  array-Ends elements (some token) s b e shown le lt =
      if_cases-Ends (λ x q. remaining q ≤ b) (has_kind right_bracket token) _ _ s (λ c. le)
        (λ c.
          Ends-and_then (λ x q. (remaining q ≡ remaining s) × (flag q ≡ flag s))
            (λ x q. remaining q ≤ b) (report_rest elements s) _
            (Ends-both (λ x q. remaining q ≡ remaining s) (λ x q. flag q ≡ flag s) _
              ((report_rest-Still elements).keeps s) ((report_rest-Keeps elements).keeps s))
            (λ x q (f, g).
              rested-Ends elements token q b (flag-eq s q g ∙ ap starts e) (omega (arith, f, le))
                (omega (arith, shown, le)) lt))
