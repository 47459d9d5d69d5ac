-- ===== src/Parser/Script/Bindings/Patterns.antt =====
-- aoba/parser/parser_bindings.cc: the patterns end, since each of their elements moves.
use aoba.Prelude.{
  ℕ, zero, suc, ◌≤◌, ◌<◌, Bool, true, false, Option, some, none, ◌≡◌, refl, ◌∙◌, ap, arith,
}
use aoba.Ast.TokenKind.{right_brace, comma}
use aoba.Parser.Utils.Steps
use aoba.Parser.Utils.Steps.{
  if◌then◌else◌, Step, ◌>>=◌, ◌>>◌, pure, crash, Ends, Ends-weaken, Ends-and_then, Ends-both,
  if_cases-Ends,
}
use aoba.Parser.Script.Words.{binding_unexpect_comma}
use aoba.Parser.Script.Nodes.{ScriptToken, JsTrees, has_kind, is_name, push_back}
use aoba.Parser.Script.Actions.{ScriptParser, peeked, with_peeked, with_token, consume_token}
use aoba.Parser.Script.Ranges.{add_error}
use aoba.Parser.Script.Calls.{Caller, Nonterminal, binding_element}
use aoba.Parser.Script.Reads.{remaining, Calm, Moves, Shown, peeked-Shown}
use aoba.Parser.Script.Rules.{step_rules}
use aoba.Parser.Script.Bindings.{
  can_start_binding, skip_element, array_loop, named_member, after_member, object_loop,
  comma_element,
}
use aoba.Parser.Script.Bindings.Progress.{
  starts, Ahead, named_member-Moves, skip_element-Calm, after_member-Calm,
}
use aoba.Parser.Script.Bindings.Loops.{array-Ends, Ahead-pred, ahead_then-Ends}

pub array_loop-Calm :
    (k : ℕ) (call : Caller)
    → Ahead k (call binding_element)
    → (elements : JsTrees) → Calm k (array_loop k call elements)
unfolding array_loop with_token
array_loop-Calm zero call a elements = Steps.exhausted-Calm remaining
array_loop-Calm (suc k) call a elements = record {
  ends = λ s b le lt.
      array-Ends k call a (array_loop k call) (array_loop-Calm k call (Ahead-pred k _ a)) elements
        (peeked s) s b refl (peeked-Shown s) le lt;
}

Moves-Ahead : {A : Type 0} (n : ℕ) (m : Step ScriptParser A) → Moves n m → Ahead n m
Moves-Ahead n m h = record {
  ends =
      λ s b e le lt. h.ends s b le (some-pos (peeked s) (remaining s) b e (peeked-Shown s) le) lt;
}
  where
    some-pos : (o : Option ScriptToken) (r b : ℕ) → starts o ≡ true → Shown o r → r ≤ b → 0 < b
    some-pos none r b e shown le = cc
    some-pos (some token) r b e shown le = omega (arith, shown, le)

if-Ahead :
    {A : Type 0} (n : ℕ) (c : Bool) (f g : Step ScriptParser A)
    → Ahead n f
    → Ahead n g
    → Ahead n (if c then f else g)
unfolding if◌then◌else◌
if-Ahead n true f g h k = h
if-Ahead n false f g h k = k

module _ (k : ℕ) (call : Caller) (h : (x : Nonterminal) → Calm k (call x))
    (a : Ahead (suc k) (call binding_element)) (loop : JsTrees → Step ScriptParser JsTrees)
    (ih : (es : JsTrees) → Calm k (loop es)) where
  comma_member-Moves :
      (elements : JsTrees)
      → Moves (suc k) (
          add_error binding_unexpect_comma
          >> (consume_token >>= (λ consumed. loop (push_back elements (comma_element consumed)))))
  comma_member-Moves elements = search (step_rules, ih) depth 12 fits 4000

  object-Ends :
      (elements : JsTrees) (o : Option ScriptToken) (s : ScriptParser) (b : ℕ)
      → peeked s ≡ o
      → Shown o (remaining s)
      → remaining s ≤ b
      → b < suc k
      → Ends
          (λ x q. remaining q ≤ b)
          (with_peeked o
            (pure elements)
            (λ token.
              if has_kind right_brace token
              then pure elements
              else if has_kind comma token
              then (add_error binding_unexpect_comma
                  >> (consume_token
                      >>= (λ consumed. loop (push_back elements (comma_element consumed)))))
              else if can_start_binding token
              then ((if is_name token then named_member call else call binding_element)
                  >>= (λ element. after_member loop (push_back elements element) element))
              else skip_element (suc k) token (loop elements) elements)
            s)
  unfolding pure
  object-Ends elements none s b e shown le lt = le
  object-Ends elements (some token) s b e shown le lt =
      if_cases-Ends (λ x q. remaining q ≤ b) (has_kind right_brace token) _ _ s (λ c. le)
        (λ c.
          if_cases-Ends (λ x q. remaining q ≤ b) (has_kind comma token) _ _ s
            (λ c.
              (Steps.Moves-CalmAhead remaining (suc k) _ (comma_member-Moves elements)).ends s b le
                (omega (arith, shown, le)) lt)
            (λ c.
              if_cases-Ends (λ x q. remaining q ≤ b) (can_start_binding token) _ _ s
                (λ d.
                  ahead_then-Ends k
                    (if is_name token then named_member call else call binding_element) _
                    (if-Ahead (suc k) (is_name token) (named_member call) (call binding_element)
                      (Moves-Ahead (suc k) (named_member call) (named_member-Moves k call h)) a)
                    (λ element. after_member-Calm k loop ih (push_back elements element) element) s
                    b (ap starts e ∙ d) le lt)
                (λ d.
                  (skip_element-Calm k token (loop elements) elements (ih elements)).ends s b le
                    lt)))

pub object_loop-Calm :
    (k : ℕ) (call : Caller)
    → ((x : Nonterminal) → Calm k (call x))
    → Ahead k (call binding_element)
    → (elements : JsTrees) → Calm k (object_loop k call elements)
unfolding object_loop with_token
object_loop-Calm zero call h a elements = Steps.exhausted-Calm remaining
object_loop-Calm (suc k) call h a elements =
    let below : (x : Nonterminal) → Calm k (call x) =
      λ x. Steps.Calm-pred remaining k (call x) (h x) in
    record {
      ends = λ s b le lt.
          object-Ends k call below a (object_loop k call)
            (object_loop-Calm k call below (Ahead-pred k _ a)) elements (peeked s) s b refl
            (peeked-Shown s) le lt;
    }
