-- ===== src/Parser/JsDoc/Parser/Rules.antt =====
-- aoba/parser/jsdoc/jsdoc_parser.cc: the text that is left, and how much of it the helpers of the
-- parser leave.
use aoba.Prelude.{
  ℕ, suc, ◌≤◌, ◌<◌, Bool, List, [], ◌∷◌, ◌≡◌, refl, ap, length, length-append, arith, take_while,
  ◌==◌,
}
use aoba.Parser.Utils.CharacterReader.{skip_while}
use aoba.Parser.Utils.CharacterReader.Reads.{skip_while-Reads, ahead-move_forward}
use aoba.Parser.Utils.Steps
use aoba.Parser.Utils.Steps.{
  if◌then◌else◌, returned, crashed, out_of_fuel, Outcome, Step, ◌>>=◌, pure, gets, modify, Ends,
}
use aoba.Parser.JsDoc.Tags.{JsDocErrorCode, JsDocTree}
use aoba.Parser.JsDoc.Parser.Actions.{
  JsDocParser, ahead, add_error_range, add_error, new_node, with_head, with_char, consume_head,
  consume_char, if_char, skip, skip_whitespaces, set_node_start, scope,
}

abbrev pub remaining : JsDocParser → ℕ
remaining p = length (ahead p)

abbrev pub Still : {A : Type 0} → Step JsDocParser A → Type 0
Still = Steps.Still remaining

abbrev pub Calm : {A : Type 0} → ℕ → Step JsDocParser A → Type 0
Calm = Steps.Calm remaining

abbrev pub CalmAhead : {A : Type 0} → ℕ → Step JsDocParser A → Type 0
CalmAhead = Steps.CalmAhead remaining

abbrev pub Moves : {A : Type 0} → ℕ → Step JsDocParser A → Type 0
Moves = Steps.Moves remaining

consume_head-Ends :
    (cs : List ℕ) (p : JsDocParser) (b : ℕ)
    → ahead p ≡ cs
    → length cs ≤ b
    → Ends (λ a q. remaining q < b) (consume_head cs p)
consume_head-Ends [] p b e h = tt
consume_head-Ends (c ∷ cs) p b e h =
    omega (arith, h, ap length (ahead-move_forward p.reader c cs e))

pub consume_char-Moves : (n : ℕ) → Moves n consume_char
unfolding consume_char
consume_char-Moves n = record { ends = λ s b h pos lt. consume_head-Ends (ahead s) s b refl h }

module _ {A : Type 0} (absent : Step JsDocParser A) (present : ℕ → Step JsDocParser A) where
  with_head-Ends :
      (n : ℕ) (cs : List ℕ) (s : JsDocParser) (b : ℕ)
      → Calm n absent
      → ((c : ℕ) → CalmAhead n (present c))
      → length cs ≤ b
      → remaining s ≤ b
      → b < n
      → Ends (λ a q. remaining q ≤ b) (with_head cs absent present s)
  with_head-Ends n [] s b h k le le' lt = h.ends s b le' lt
  with_head-Ends n (c ∷ cs) s b h k le le' lt = (k c).ends s b le' (omega (arith, le)) lt

  pub with_char-Calm :
      (n : ℕ)
      → Calm n absent
      → ((c : ℕ) → CalmAhead n (present c))
      → Calm n (with_char absent present)
  unfolding with_char
  with_char-Calm n h k = record { ends = λ s b le lt. with_head-Ends n (ahead s) s b h k le le lt }

pub skip_while-le :
    (test : ℕ → Bool) (p : JsDocParser) → length (skip_while test p.reader).ahead ≤ remaining p
skip_while-le test p =
    let r = skip_while-Reads test p.reader in
    omega (
      arith,
      ap length r.text,
      length-append (take_while test p.reader.ahead) (skip_while test p.reader).ahead,
    )

pub skip-Calm : (n : ℕ) (test : ℕ → Bool) → Calm n (skip test)
unfolding skip modify
skip-Calm n test = record { ends = λ s b le lt. omega (arith, skip_while-le test s, le) }

pub skip_whitespaces-Calm : (n : ℕ) → Calm n skip_whitespaces
unfolding skip_whitespaces
skip_whitespaces-Calm n = skip-Calm n _

pub add_error_range-Still :
    (start end : ℕ) (code : JsDocErrorCode) → Still (modify (add_error_range start end code))
unfolding modify
add_error_range-Still start end code = record { keeps = λ s. refl }

pub add_error-Still : (code : JsDocErrorCode) → Still (add_error code)
unfolding add_error modify
add_error-Still code = record { keeps = λ s. refl }

pub new_node-Still : (make : ℕ → ℕ → JsDocTree) → Still (new_node make)
unfolding new_node
new_node-Still make = Steps.gets-Still remaining _

pub set_node_start-Still : (start : ℕ) → Still (set_node_start start)
unfolding set_node_start modify
set_node_start-Still start = record { keeps = λ s. refl }

module _ {A : Type 0} (found other : Step JsDocParser A) where
  pub if_char-Calm :
      (n char_code : ℕ)
      → Calm n found
      → Calm (suc n) other
      → Calm (suc n) (if_char char_code found other)
  unfolding if_char
  if_char-Calm n char_code h k = with_char-Calm other _ (suc n) k (λ c.
      Steps.if-CalmAhead remaining (c == char_code) _ other (suc n)
        (Steps.Moves-CalmAhead remaining (suc n) _ (
          Steps.bind-Moves remaining consume_char (λ consumed. found) n (consume_char-Moves (suc n))
            (λ consumed. h)))
        (Steps.Calm-CalmAhead remaining (suc n) other k))

pub ruleset js_doc_rules = (
  Steps.pure-Still, Steps.gets-Still, Steps.bind-Still, Steps.bind-Calm, Steps.bind-CalmAhead,
  Steps.bind-Still-CalmAhead, Steps.bind-Moves, Steps.bind-Calm-Moves, Steps.bind-Still-Moves,
  Steps.if-Still, Steps.if-Calm, Steps.if-CalmAhead, Steps.if-Moves, Steps.Still-Calm,
  Steps.Moves-CalmAhead, Steps.Calm-CalmAhead, consume_char-Moves, with_char-Calm, skip-Calm,
  skip_whitespaces-Calm, add_error_range-Still, add_error-Still, new_node-Still,
  set_node_start-Still, if_char-Calm,
)

module _ {A : Type 0} (body : Step JsDocParser A) (n : ℕ) where
  pub scope-Moves : Moves n body → Moves n (scope body)
  unfolding scope
  scope-Moves h = search js_doc_rules depth 12 fits 4000

  pub scope-Calm : Calm n body → Calm n (scope body)
  unfolding scope
  scope-Calm h = search js_doc_rules depth 12 fits 4000
