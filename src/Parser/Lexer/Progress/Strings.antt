-- ===== src/Parser/Lexer/Progress/Strings.antt =====
-- aoba/parser/lexer/lexer.cc: what the rounds of `HandleStringLiteral` consume, and where its loop
-- stops.
use aoba.Prelude.{
  ℕ, zero, suc, ◌+◌, ◌*◌, ◌≤◌, ◌<◌, List, [], ◌∷◌, ◌≡◌, ◌≢◌, ◌⊎◌, inl, inr, refl, ap, length,
  length-append, arith,
}
use aoba.Parser.Utils.CharacterReader.{Reader, move_forward}
use aoba.Parser.Utils.CharacterReader.Reads.{peek_char-some, peek_char-none}
use aoba.Parser.Lexer.State.{Lexer, LexerContext, Token, ErrorCode, consume_char, location}
use aoba.Parser.Lexer.State
use aoba.Parser.Lexer.Strings.{
  State, normal, backslash, backslash_cr, backslash_ubx, StringLoop, Round, continues, closed,
  StringEnd, StringStop, at_delimiter, at_end, no_fuel, end_string, step_in, step_normal,
  step_backslash, step_backslash_zero, step_backslash_other, step_backslash_cr, step_backslash_ubx,
  string_rounds, string_fuel, read_string, handle_string_literal, start_string,
}
use aoba.Parser.Lexer.Progress.{
  consume_char_if-cases, Extends, Extends-refl, Extends-trans, Extends-errors, Extends-consume_char,
  Extends-consume_char_if, Makes, Makes-after, Makes-new_token,
}
use aoba.Parser.Lexer.Progress.Handlers.{ahead-move_forward}

-- Rounds from this state that need not consume.
abbrev idle : State → ℕ
idle backslash_cr = 1
idle _ = 0

abbrev rank : StringLoop → ℕ
rank s = 2 * length s.lexer.reader.ahead + idle s.state

idle-le : (state : State) → idle state ≤ 1
idle-le backslash_cr = omega arith
idle-le _ = omega arith

abbrev round_lexer : Round → Lexer
round_lexer (continues s) = s.lexer
round_lexer (closed l) = l

-- The round has consumed one character and stays within the token.
abbrev ConsumesOne : StringLoop → Round → Type 0
ConsumesOne s x =
    ((round_lexer x).reader ≡ move_forward s.lexer.reader)
    × ((round_lexer x).token_start ≡ s.lexer.token_start)

module _ (s : StringLoop) (c : ℕ) where
  step_normal-ConsumesOne : (delimiter : ℕ) → ConsumesOne s (step_normal delimiter c s)
  unfolding step_normal consume_char
  step_normal-ConsumesOne delimiter = ground arith

  step_backslash_zero-ConsumesOne :
      (context : LexerContext) → ConsumesOne s (step_backslash_zero context s)
  unfolding step_backslash_zero consume_char
  step_backslash_zero-ConsumesOne context = ground arith

  step_backslash_other-ConsumesOne :
      (context : LexerContext) → ConsumesOne s (step_backslash_other context c s)
  unfolding step_backslash_other consume_char
  step_backslash_other-ConsumesOne context = ground arith

  step_backslash-ConsumesOne : (context : LexerContext) → ConsumesOne s (step_backslash context c s)
  unfolding step_backslash consume_char
  step_backslash-ConsumesOne context =
      ground
        (arith, step_backslash_zero-ConsumesOne context, step_backslash_other-ConsumesOne context)

  step_backslash_ubx-ConsumesOne : ConsumesOne s (step_backslash_ubx c s)
  unfolding step_backslash_ubx consume_char
  step_backslash_ubx-ConsumesOne = ground arith

  step_in-ConsumesOne :
      (context : LexerContext) (delimiter : ℕ) (state : State)
      → state ≢ backslash_cr
      → ConsumesOne s (step_in context delimiter c state s)
  unfolding step_in consume_char
  step_in-ConsumesOne context delimiter normal ne = step_normal-ConsumesOne delimiter
  step_in-ConsumesOne context delimiter backslash ne = step_backslash-ConsumesOne context
  step_in-ConsumesOne context delimiter backslash_cr ne = absurd (ne refl)
  step_in-ConsumesOne context delimiter backslash_ubx ne = step_backslash_ubx-ConsumesOne
  step_in-ConsumesOne context delimiter _ ne = ground arith

length-move_forward :
    (r : Reader) (c : ℕ) (cs : List ℕ)
    → r.ahead ≡ c ∷ cs
    → length (move_forward r).ahead + 1 ≡ length r.ahead
length-move_forward r c cs h =
    omega (
      arith,
      ap (λ l. length {A = ℕ} l) h,
      ap (λ l. length {A = ℕ} l) (ahead-move_forward r c cs h),
    )

move-Extends :
    (l m : Lexer) → m.reader ≡ move_forward l.reader → m.token_start ≡ l.token_start → Extends l m
unfolding consume_char
move-Extends l m e k =
    let h = Extends-consume_char l in record { read = h.read; reads = rw e h.reads; same_start = k }

-- What a round from `s` may do.
abbrev Progresses : StringLoop → Round → Type 0
Progresses s (continues t) = Extends s.lexer t.lexer × (rank t < rank s)
Progresses s (closed l) = Extends s.lexer l

ConsumesOne-Progresses :
    (s : StringLoop) (c : ℕ) (cs : List ℕ) (x : Round)
    → s.lexer.reader.ahead ≡ c ∷ cs
    → ConsumesOne s x
    → Progresses s x
ConsumesOne-Progresses s c cs (continues t) h (e, k) = (
  move-Extends s.lexer t.lexer e k,
  omega (
    arith,
    idle-le t.state,
    length-move_forward s.lexer.reader c cs h,
    ap (λ (r : Reader). length r.ahead) e,
  ),
)
ConsumesOne-Progresses s c cs (closed l) h (e, k) = move-Extends s.lexer l e k

Extends-length : {l l' : Lexer} → Extends l l' → length l'.reader.ahead ≤ length l.reader.ahead
Extends-length {l} {l'} e =
    omega (arith, ap (λ w. length {A = ℕ} w) e.reads.text, length-append {0} e.read l'.reader.ahead)

step_backslash_cr-Progresses :
    (s : StringLoop) (c : ℕ) (cs : List ℕ)
    → s.lexer.reader.ahead ≡ c ∷ cs
    → s.state ≡ backslash_cr
    → Progresses s (step_backslash_cr s)
unfolding step_backslash_cr
step_backslash_cr-Progresses s c cs h e =
    let l = (State.consume_char_if b'\n' s.lexer).1 in
    let first = Extends-consume_char_if b'\n' s.lexer in
    let rest = Extends-consume_char l in
    elim (consume_char_if-cases b'\n' s.lexer) [
      | inl (found, moved) ↦ rw found (
        Extends-trans first rest,
        omega (
          arith,
          Extends-length rest,
          length-move_forward s.lexer.reader c cs h,
          ap (λ (r : Reader). length r.ahead) moved,
          ap idle e,
        ),
      )
      | inr (missing, same) ↦
          rw missing
            (first, omega (arith, ap (λ (k : Lexer). length k.reader.ahead) same, ap idle e))
    ]

step_in-Progresses :
    (context : LexerContext) (delimiter : ℕ) (state : State) (s : StringLoop) (c : ℕ) (cs : List ℕ)
    → s.state ≡ state
    → s.lexer.reader.ahead ≡ c ∷ cs
    → Progresses s (step_in context delimiter c state s)
unfolding step_in
step_in-Progresses context delimiter backslash_cr s c cs e h =
    step_backslash_cr-Progresses s c cs h e
step_in-Progresses context delimiter state s c cs e h =
    ConsumesOne-Progresses s c cs _ h (step_in-ConsumesOne s c context delimiter state (λ q. cc))

Round-cases : (x : Round) → ((t : StringLoop) × (x ≡ continues t)) ⊎ ((l : Lexer) × (x ≡ closed l))
Round-cases (continues t) = inl (t, refl)
Round-cases (closed l) = inr (l, refl)

-- How the loop ends.
pub record Ends (l : Lexer) (e : StringEnd) : Type 0 where
  pub extends : Extends l e.lexer
  pub stops : e.stop ≢ no_fuel

string_rounds-Ends :
    (context : LexerContext) (delimiter fuel : ℕ) (s : StringLoop) (cs : List ℕ)
    → s.lexer.reader.ahead ≡ cs
    → rank s < fuel
    → Ends s.lexer (string_rounds context delimiter fuel s)
unfolding string_rounds
string_rounds-Ends context delimiter zero s cs h b = elim b [ ]
string_rounds-Ends context delimiter (suc fuel) s [] h b =
    rw (peek_char-none s.lexer.reader h, string_rounds)
      (record { extends = Extends-refl s.lexer; stops = λ q. cc })
string_rounds-Ends context delimiter (suc fuel) s (c ∷ cs) h b =
    let p = step_in-Progresses context delimiter s.state s c cs refl h in
    elim (Round-cases (step_in context delimiter c s.state s)) [
      | inl (t, e) ↦
          let q : Progresses s (continues t) = rw e at p in
          let rest =
            string_rounds-Ends context delimiter fuel t t.lexer.reader.ahead refl
              (omega (arith, q.1)) in
          rw (peek_char-some s.lexer.reader c cs h, e, string_rounds)
            (record { extends = Extends-trans q.0 rest.extends; stops = rest.stops })
      | inr (l, e) ↦
          let q : Progresses s (closed l) = rw e at p in
          rw (peek_char-some s.lexer.reader c cs h, e, string_rounds)
            (record { extends = q; stops = λ q. cc })
    ]

read_string-Ends :
    (context : LexerContext) (delimiter : ℕ) (l : Lexer)
    → Ends (consume_char l) (read_string context delimiter l)
unfolding read_string
read_string-Ends context delimiter l =
    string_rounds-Ends context delimiter (string_fuel (consume_char l))
      (start_string (consume_char l)) (consume_char l).reader.ahead refl (omega arith)

Makes-end_string : (stop : StringStop) (l : Lexer) → stop ≢ no_fuel → Makes l (end_string stop l)
unfolding end_string
Makes-end_string at_delimiter l ne = Makes-new_token _ l
Makes-end_string at_end l ne = Makes-after (Extends-errors _ _ refl refl) (Makes-new_token _ _)
Makes-end_string no_fuel l ne = absurd (ne refl)

pub Makes-handle_string_literal :
    (context : LexerContext) (delimiter : ℕ) (l : Lexer)
    → Makes (consume_char l) (handle_string_literal context delimiter l)
unfolding handle_string_literal
Makes-handle_string_literal context delimiter l =
    let e = read_string-Ends context delimiter l in
    Makes-after e.extends (Makes-end_string (read_string context delimiter l).stop _ e.stops)
