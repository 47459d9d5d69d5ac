-- ===== src/Parser/Script/Bindings/Elements.antt =====
-- aoba/parser/parser_bindings.cc: an element moves where the token ahead can start one.
use aoba.Prelude.{
  inl, inr, ◌⊎◌, ℕ, suc, ◌≤◌, ◌<◌, true, false, Option, some, none, ◌≡◌, refl, arith,
}
use aoba.Ast.TokenKind.{dot_dot_dot, left_brace, left_bracket}
use aoba.Parser.Utils.Steps
use aoba.Parser.Utils.Steps.{
  if◌then◌else◌, Step, ◌>>=◌, ◌>>◌, pure, crash, Ends, Ends-weaken, Ends-and_then, Ends-both,
  if_cases-Ends,
}
use aoba.Parser.Script.Nodes.{ScriptToken, JsTree, has_kind, is_name}
use aoba.Parser.Script.Actions.{ScriptParser, peeked, with_peeked, with_token, consume_token}
use aoba.Parser.Script.Calls.{Caller, Nonterminal, binding_element}
use aoba.Parser.Script.Reads.{
  remaining, Still, Calm, Moves, Shown, peeked-Shown, consume_token-Moves,
}
use aoba.Parser.Script.Rules.{tail_rules, still_rules, scope-Ends, add_error-Keeps}
use aoba.Parser.Script.Bindings.{
  can_start_binding, parse_array_pattern, parse_object_pattern, invalid_element, parse_rest,
  parse_name_binding, parse_binding_element,
}
use aoba.Parser.Script.Bindings.Progress.{
  starts, Ahead, Behind, flag, flag-eq, initializer-Calm, parse_rest-Calm, parse_name_binding-Moves,
}
use aoba.Parser.Script.Bindings.Patterns.{array_loop-Calm, object_loop-Calm}

-- The step moved, or it left a token that cannot start an element, as the one that was ahead.
abbrev Moved : Option ScriptToken → ScriptParser → ℕ → ScriptParser → Type 0
Moved o s b q =
    (remaining q < b) ⊎ ((starts o ≡ false) × (flag q ≡ flag s) × (remaining q ≡ remaining s))

invalid_element-Still : Still invalid_element
unfolding invalid_element
invalid_element-Still = search (still_rules, add_error-Keeps remaining (λ p errors. refl))

invalid_element-Keeps : Steps.Still flag invalid_element
unfolding invalid_element
invalid_element-Keeps = search (still_rules, add_error-Keeps flag (λ p errors. refl))

-- The calls of the grammar end on fuel for what is left, and an element moves where it can start.
module _ (n : ℕ) (call : Caller) (h : (x : Nonterminal) → Calm n (call x))
    (a : Ahead n (call binding_element)) where
  parse_array_pattern-Calm : Calm n (parse_array_pattern n call)
  unfolding parse_array_pattern
  parse_array_pattern-Calm =
      search (tail_rules, array_loop-Calm, initializer-Calm) depth 12 fits 4000

  parse_object_pattern-Calm : Calm n (parse_object_pattern n call)
  unfolding parse_object_pattern
  parse_object_pattern-Calm =
      search (tail_rules, object_loop-Calm, initializer-Calm) depth 12 fits 4000

  call_ahead-Ends :
      (o : Option ScriptToken) (m : Step ScriptParser JsTree) (s : ScriptParser) (b : ℕ)
      → Moves (suc n) m
      → remaining s ≤ b
      → 0 < b
      → b < suc n
      → Ends (λ x q. Moved o s b q) (m s)
  call_ahead-Ends o m s b k le pos lt =
      Ends-weaken (λ x q. remaining q < b) (λ x q. Moved o s b q) (m s) (k.ends s b le pos lt)
        (λ x q less. inl less)

  consumed-Moves :
      (m : Step ScriptParser JsTree) → Calm n m → Moves (suc n) (consume_token >>= (λ consumed. m))
  consumed-Moves m k =
      Steps.bind-Moves remaining consume_token (λ consumed. m) n (consume_token-Moves (suc n))
        (λ consumed. k)

  unstarted-Ends :
      (token : ScriptToken) (s : ScriptParser) (b : ℕ)
      → is_name token ≡ false
      → has_kind dot_dot_dot token ≡ false
      → has_kind left_brace token ≡ false
      → has_kind left_bracket token ≡ false
      → Ends (λ x q. Moved (some token) s b q) (invalid_element s)
  unfolding can_start_binding
  unstarted-Ends token s b c d e f =
      Ends-weaken (λ x q. (flag q ≡ flag s) × (remaining q ≡ remaining s))
        (λ x q. Moved (some token) s b q) (invalid_element s)
        (Ends-both (λ x q. flag q ≡ flag s) (λ x q. remaining q ≡ remaining s) _
          (invalid_element-Keeps.keeps s) (invalid_element-Still.keeps s))
        (λ x q (g, r). inr (rw (c, d, e, f) refl, g, r))

  element-Ends :
      (o : Option ScriptToken) (s : ScriptParser) (b : ℕ)
      → Shown o (remaining s)
      → remaining s ≤ b
      → b < suc n
      → Ends
          (λ x q. Moved o s b q)
          (with_peeked o crash
            (λ token.
              if is_name token
              then parse_name_binding call
              else if has_kind dot_dot_dot token
              then consume_token >>= (λ consumed. parse_rest call)
              else if has_kind left_brace token
              then consume_token >>= (λ consumed. parse_object_pattern n call)
              else if has_kind left_bracket token
              then consume_token >>= (λ consumed. parse_array_pattern n call)
              else invalid_element)
            s)
  unfolding crash
  element-Ends none s b shown le lt = tt
  element-Ends (some token) s b shown le lt =
      if_cases-Ends (λ x q. Moved (some token) s b q) (is_name token) _ _ s
        (λ c.
          call_ahead-Ends (some token) _ s b (parse_name_binding-Moves n call h) le
            (omega (arith, shown, le)) lt)
        (λ c.
          if_cases-Ends (λ x q. Moved (some token) s b q) (has_kind dot_dot_dot token) _ _ s
            (λ d.
              call_ahead-Ends (some token) _ s b (consumed-Moves _ (parse_rest-Calm n call h)) le
                (omega (arith, shown, le)) lt)
            (λ d.
              if_cases-Ends (λ x q. Moved (some token) s b q) (has_kind left_brace token) _ _ s
                (λ e.
                  call_ahead-Ends (some token) _ s b (consumed-Moves _ parse_object_pattern-Calm) le
                    (omega (arith, shown, le)) lt)
                (λ e.
                  if_cases-Ends (λ x q. Moved (some token) s b q) (has_kind left_bracket token) _ _
                    s
                    (λ f.
                      call_ahead-Ends (some token) _ s b (consumed-Moves _ parse_array_pattern-Calm)
                        le (omega (arith, shown, le)) lt)
                    (λ f. unstarted-Ends token s b c d e f))))

  parse_binding_element-Moved :
      (s : ScriptParser) (b : ℕ)
      → remaining s ≤ b
      → b < suc n
      → Ends (λ x q. Moved (peeked s) s b q) (parse_binding_element n call s)
  unfolding parse_binding_element with_token
  parse_binding_element-Moved s b le lt =
      scope-Ends (λ x q. Moved (peeked s) s b q) _ s
        (λ start.
          element-Ends (peeked s) (record s { node_start = start }) b (peeked-Shown s) le lt)
        (λ x q start moved. moved)

  pub parse_binding_element-Ahead : Ahead (suc n) (parse_binding_element n call)
  parse_binding_element-Ahead = record {
    ends = λ s b e le lt.
        Ends-weaken (λ x q. Moved (peeked s) s b q) (λ x q. remaining q < b) _
          (parse_binding_element-Moved s b le lt)
          (λ x q moved. elim moved [ inl less ↦ less | inr (f, g, r) ↦ cc ]);
  }

  pub parse_binding_element-Behind : Behind (suc n) (parse_binding_element n call)
  parse_binding_element-Behind = record {
    ends = λ s b le lt.
        Ends-weaken (λ x q. Moved (peeked s) s b q)
          (λ x q. (remaining q ≤ b) × (starts (peeked q) ≡ true → remaining q < b)) _
          (parse_binding_element-Moved s b le lt)
          (λ x q moved. elim moved [
            | inl less ↦ (omega (arith, less), λ e. less)
            | inr (f, g, r) ↦ (omega (arith, r, le), λ e. let k = flag-eq s q g in cc)
          ]);
  }

  pub parse_binding_element-Calm : Calm (suc n) (parse_binding_element n call)
  parse_binding_element-Calm = record {
    ends = λ s b le lt.
        Ends-weaken _ (λ x q. remaining q ≤ b) _ (parse_binding_element-Behind.ends s b le lt)
          (λ x q (le', less). le');
  }
