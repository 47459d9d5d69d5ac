-- ===== src/Parser/Script/Looks.antt =====
-- aoba/parser/parser.cc: what is left by steps that look at the token ahead, consume it or put it back.
use aoba.Prelude.{ℕ, suc, ◌≤◌, ◌<◌, Bool, Option, some, none, List, ◌∷◌, ◌≡◌, arith}
use aoba.Ast.TokenKind.{TokenKind}
use aoba.Parser.Utils.Steps
use aoba.Parser.Utils.Steps.{
  if◌then◌else◌, Outcome, returned, crashed, out_of_fuel, Step, ◌>>=◌, ◌>>◌, pure, crash, exhausted,
  gets, modify, Ends, Ends-and_then, Ends-weaken, if-Ends,
}
use aoba.Parser.Script.Nodes.{ScriptToken, has_kind, is_word}
use aoba.Parser.Script.Actions.{
  ScriptParser, peeked, with_peeked, with_token, consume_token, push_back_token, if_kind, if_word,
}
use aoba.Parser.Script.Reads.{
  remaining, Still, Calm, CalmAhead, Moves, Follows, Shown, peeked-Shown, consume_token-Moves,
  consume_token-Calm,
}

-- What a step leaves of any measure of the state.
module _ (measure : ScriptParser → ℕ) {A : Type 0} (absent : Step ScriptParser A)
    (present : ScriptToken → Step ScriptParser A) where
  with_peeked-Still :
      (o : Option ScriptToken) (s : ScriptParser)
      → Steps.Still measure absent
      → ((token : ScriptToken) → Steps.Still measure (present token))
      → Ends (λ a q. measure q ≡ measure s) (with_peeked o absent present s)
  with_peeked-Still none s h k = h.keeps s
  with_peeked-Still (some token) s h k = (k token).keeps s

  pub with_token-Still :
      Steps.Still measure absent
      → ((token : ScriptToken) → Steps.Still measure (present token))
      → Steps.Still measure (with_token absent present)
  unfolding with_token
  with_token-Still h k = record { keeps = λ s. with_peeked-Still (peeked s) s h k }

module _ {A : Type 0} (absent : Step ScriptParser A)
    (present : ScriptToken → Step ScriptParser A) where
  with_peeked-Calm :
      (n : ℕ) (o : Option ScriptToken) (s : ScriptParser) (b : ℕ)
      → Calm n absent
      → ((token : ScriptToken) → CalmAhead n (present token))
      → Shown o (remaining s)
      → remaining s ≤ b
      → b < n
      → Ends (λ a q. remaining q ≤ b) (with_peeked o absent present s)
  with_peeked-Calm n none s b h k shown le lt = h.ends s b le lt
  with_peeked-Calm n (some token) s b h k shown le lt =
      (k token).ends s b le (omega (arith, shown, le)) lt

  pub with_token-Calm :
      (n : ℕ)
      → Calm n absent
      → ((token : ScriptToken) → CalmAhead n (present token))
      → Calm n (with_token absent present)
  unfolding with_token
  with_token-Calm n h k = record {
    ends = λ s b le lt. with_peeked-Calm n (peeked s) s b h k (peeked-Shown s) le lt;
  }

  with_peeked-Moves :
      (n : ℕ) (o : Option ScriptToken) (s : ScriptParser) (b : ℕ)
      → Still absent
      → ((token : ScriptToken) → Moves n (present token))
      → Shown o (remaining s)
      → remaining s ≤ b
      → 0 < b
      → b < n
      → Ends (λ a q. remaining q < b) (with_peeked o absent present s)
  with_peeked-Moves n none s b h k shown le pos lt =
      Ends-weaken (λ a q. remaining q ≡ remaining s) (λ a q. remaining q < b) (absent s) (h.keeps s)
        (λ a q e. omega (arith, e, shown, pos))
  with_peeked-Moves n (some token) s b h k shown le pos lt = (k token).ends s b le pos lt

  -- Nothing is left where no token is.
  pub with_token-Moves :
      (n : ℕ)
      → Still absent
      → ((token : ScriptToken) → Moves n (present token))
      → Moves n (with_token absent present)
  unfolding with_token
  with_token-Moves n h k = record {
    ends = λ s b le pos lt. with_peeked-Moves n (peeked s) s b h k (peeked-Shown s) le pos lt;
  }

  with_peeked-Follows :
      (n : ℕ) (o : Option ScriptToken) (s : ScriptParser) (b : ℕ)
      → Follows n absent
      → ((token : ScriptToken) → Follows n (present token))
      → remaining s < b
      → b < n
      → Ends (λ a q. remaining q < b) (with_peeked o absent present s)
  with_peeked-Follows n none s b h k lt lt' = h.ends s b lt lt'
  with_peeked-Follows n (some token) s b h k lt lt' = (k token).ends s b lt lt'

  pub with_token-Follows :
      (n : ℕ)
      → Follows n absent
      → ((token : ScriptToken) → Follows n (present token))
      → Follows n (with_token absent present)
  unfolding with_token
  with_token-Follows n h k = record {
    ends = λ s b lt lt'. with_peeked-Follows n (peeked s) s b h k lt lt';
  }

-- A token that was consumed can be put back, and parsed again.
pub push_back-Follows :
    {A : Type 0} (n : ℕ) (token : ScriptToken) (m : Step ScriptParser A)
    → Moves n m
    → Follows n (push_back_token token >> m)
unfolding ◌>>=◌ push_back_token modify
push_back-Follows n token m h = record {
  ends = λ s b lt lt'.
      h.ends (record s { stack = token ∷ s.stack }) b (omega (arith, lt)) (omega (arith, lt)) lt';
}

module _ {A : Type 0} (found other : Step ScriptParser A) where
  found-Moves : (n : ℕ) → Calm n found → Moves (suc n) (consume_token >>= (λ consumed. found))
  found-Moves n h =
      Steps.bind-Moves remaining consume_token (λ consumed. found) n (consume_token-Moves (suc n))
        (λ consumed. h)

  pub if_kind-Calm :
      (n : ℕ) (kind : TokenKind)
      → Calm n found
      → Calm (suc n) other
      → Calm (suc n) (if_kind kind found other)
  unfolding if_kind
  if_kind-Calm n kind h k = with_token-Calm other _ (suc n) k (λ token.
      Steps.if-CalmAhead remaining (has_kind kind token) _ other (suc n)
        (Steps.Moves-CalmAhead remaining (suc n) _ (found-Moves n h))
        (Steps.Calm-CalmAhead remaining (suc n) other k))

  pub if_word-Calm :
      (n : ℕ) (word : List ℕ)
      → Calm n found
      → Calm (suc n) other
      → Calm (suc n) (if_word word found other)
  unfolding if_word
  if_word-Calm n word h k = with_token-Calm other _ (suc n) k (λ token.
      Steps.if-CalmAhead remaining (is_word word token) _ other (suc n)
        (Steps.Moves-CalmAhead remaining (suc n) _ (found-Moves n h))
        (Steps.Calm-CalmAhead remaining (suc n) other k))

  flat-CalmAhead :
      (n : ℕ) (c : Bool)
      → Calm n found
      → Calm n other
      → CalmAhead n (if c then consume_token >>= (λ consumed. found) else other)
  flat-CalmAhead n c h k = Steps.Calm-CalmAhead remaining n _ (
      Steps.if-Calm remaining c _ other n
        (Steps.bind-Calm remaining consume_token (λ consumed. found) n (consume_token-Calm n)
          (λ consumed. h))
        k)

  -- Without the unit that the token leaves.
  pub if_kind_flat-Calm :
      (n : ℕ) (kind : TokenKind) → Calm n found → Calm n other → Calm n (if_kind kind found other)
  unfolding if_kind
  if_kind_flat-Calm n kind h k =
      with_token-Calm other _ n k (λ token. flat-CalmAhead n (has_kind kind token) h k)

  pub if_word_flat-Calm :
      (n : ℕ) (word : List ℕ) → Calm n found → Calm n other → Calm n (if_word word found other)
  unfolding if_word
  if_word_flat-Calm n word h k =
      with_token-Calm other _ n k (λ token. flat-CalmAhead n (is_word word token) h k)
