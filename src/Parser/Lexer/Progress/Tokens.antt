-- ===== src/Parser/Lexer/Progress/Tokens.antt =====
-- aoba/parser/lexer/lexer.cc: the rounds of `NextToken`, and the range of the token returned.
use aoba.Prelude.{
  ℕ, zero, suc, ◌+◌, ◌≤◌, ◌<◌, true, false, Option, some, none, List, [], ◌∷◌, ◌++◌, ◌≡◌, inl, inr,
  refl, ap, length, length-append, Bool-cases, arith, ◌==◌, ==_iff,
}
use aoba.Parser.Utils.CharacterReader.Reads.{
  Reads, Reads-refl, Reads-trans, peek_char-some, peek_char-none,
}
use aoba.Parser.Utils.LexerUtils.{
  is_identifier_start, is_identifier_part, is_identifier_start-part, is_whitespace,
  is_line_terminator,
}
use aoba.Parser.Lexer.State.{Lexer, LexerContext, Token, consume_char, location, set_newline}
use aoba.Parser.Lexer.Characters.{
  Handler, cases, find_case, returns, handle_other, run_case, handle_character, or_else,
  next_token_loop, next_token,
}
use aoba.Parser.Lexer.Progress.{
  Extends, Extends-trans, Extends-errors, Extends-consume_char, lt-consume_char, Makes,
}
use aoba.Parser.Lexer.Progress.Handlers.{
  Makes-handle_operator, Makes-handle_single, Makes-handle_exclamation, Makes-handle_asterisk,
  Makes-handle_less_than, Makes-handle_equal, Makes-handle_greater_than, Makes-handle_decimal,
}
use mathlib.Core.Path.{subst}
use aoba.Parser.Lexer.Progress.Strings.{Makes-handle_string_literal}
use aoba.Parser.Lexer.Progress.Characters.{
  Consumes, Consumes-consume_char, Consumes-name, Consumes-handle_dot, Makes-handle_slash,
  Makes-handle_zero,
}

-- Every case whose label is `c` consumes.
abbrev EachConsumes : ℕ → Lexer → List (ℕ × Handler) → Type 0
EachConsumes c l [] = Unit {0}
EachConsumes c l ((k, handler) ∷ rest) = (c ≡ k → Consumes l (handler l)) × EachConsumes c l rest

-- What `HandleCharacter` may do: a token, or characters with no token.
abbrev Steps : Lexer → Option Token × Lexer → Type 0
Steps l (some token, l') = Consumes l (token, l')
Steps l (none, l') = Extends l l' × (location l < location l')

some-eq : (f g : Handler) → some f ≡ some g → f ≡ g
some-eq f g e = cc

find_case-Consumes :
    (c : ℕ) (l : Lexer) (table : List (ℕ × Handler)) (handler : Handler)
    → EachConsumes c l table
    → find_case c table ≡ some handler
    → Consumes l (handler l)
unfolding find_case
find_case-Consumes c l [] handler h e = cc
find_case-Consumes c l ((k, first) ∷ rest) handler (hk, hrest) e = elim (Bool-cases (c == k)) [
  | inl same ↦
      let f = some-eq first handler (rw same at e) in
      subst (λ (g : Handler). Consumes l (g l)) f (hk ((==_iff c k).0 same))
  | inr other ↦ find_case-Consumes c l rest handler hrest (rw other at e)
]

module _ (context : LexerContext) (l : Lexer) (c : ℕ) (cs : List ℕ)
    (h : l.reader.ahead ≡ c ∷ cs) where
  consumes : {made : Token × Lexer} → Makes (consume_char l) made → Consumes l made
  consumes = Consumes-consume_char l c cs h

  name_starts : (k : ℕ) → is_identifier_part k ≡ true → c ≡ k → is_identifier_part c ≡ true
  name_starts k p e = rw e p

  cases-EachConsumes : EachConsumes c l (cases context c)
  unfolding cases is_identifier_part
  cases-EachConsumes = (
    λ e. consumes (Makes-handle_exclamation l),
    (
      λ e. consumes (Makes-handle_string_literal context c l),
      (
        λ e. Consumes-name l c cs h (name_starts b'$' refl e),
        (
          λ e. consumes (Makes-handle_operator c _ _ _ l),
          (
            λ e. consumes (Makes-handle_operator c _ _ _ l),
            (
              λ e. consumes (Makes-handle_string_literal context c l),
              (
                λ e. consumes (Makes-handle_single _ l),
                (
                  λ e. consumes (Makes-handle_single _ l),
                  (
                    λ e. consumes (Makes-handle_asterisk l),
                    (
                      λ e. consumes (Makes-handle_operator c _ _ _ l),
                      (
                        λ e. consumes (Makes-handle_single _ l),
                        (
                          λ e. consumes (Makes-handle_operator c _ _ _ l),
                          (
                            λ e. Consumes-handle_dot l c cs h e,
                            (
                              λ e. consumes (Makes-handle_slash l),
                              (
                                λ e. consumes (Makes-handle_zero l),
                                (
                                  λ e. consumes (Makes-handle_decimal c l),
                                  (
                                    λ e. consumes (Makes-handle_decimal c l),
                                    (
                                      λ e. consumes (Makes-handle_decimal c l),
                                      (
                                        λ e. consumes (Makes-handle_decimal c l),
                                        (
                                          λ e. consumes (Makes-handle_decimal c l),
                                          (
                                            λ e. consumes (Makes-handle_decimal c l),
                                            (
                                              λ e. consumes (Makes-handle_decimal c l),
                                              (
                                                λ e. consumes (Makes-handle_decimal c l),
                                                (
                                                  λ e. consumes (Makes-handle_decimal c l),
                                                  (
                                                    λ e. consumes (Makes-handle_single _ l),
                                                    (
                                                      λ e. consumes (Makes-handle_single _ l),
                                                      (
                                                        λ e. consumes (Makes-handle_less_than l),
                                                        (
                                                          λ e. consumes (Makes-handle_equal l),
                                                          (
                                                            λ e.
                                                            consumes (Makes-handle_greater_than l),
                                                            (
                                                            λ e. consumes (Makes-handle_single _ l),
                                                            (
                                                            λ e. consumes (
                                                            Makes-handle_string_literal context c
                                                            l),
                                                            (
                                                            λ e. consumes (Makes-handle_single _ l),
                                                            (
                                                            λ e. consumes (Makes-handle_single _ l),
                                                            (
                                                            λ e.
                                                            Consumes-name l c cs h
                                                            (name_starts b'_' refl e),
                                                            (
                                                            λ e.
                                                            consumes
                                                            (Makes-handle_operator c _ _ _ l),
                                                            (
                                                            λ e. consumes (Makes-handle_single _ l),
                                                            (
                                                            λ e. consumes (Makes-handle_single _ l),
                                                            (
                                                            λ e. consumes (Makes-handle_single _ l),
                                                            (
                                                            λ e.
                                                            consumes
                                                            (Makes-handle_operator c _ _ _ l),
                                                            tt,
                                                            ),
                                                            ),
                                                            ),
                                                            ),
                                                            ),
                                                            ),
                                                            ),
                                                            ),
                                                            ),
                                                            ),
                                                          ),
                                                        ),
                                                      ),
                                                    ),
                                                  ),
                                                ),
                                              ),
                                            ),
                                          ),
                                        ),
                                      ),
                                    ),
                                  ),
                                ),
                              ),
                            ),
                          ),
                        ),
                      ),
                    ),
                  ),
                ),
              ),
            ),
          ),
        ),
      ),
    ),
  )

  handle_other-Steps : Steps l (handle_other c l)
  unfolding handle_other returns
  handle_other-Steps = elim (Bool-cases (is_identifier_start c)) [
    | inl start ↦ rw start (Consumes-name l c cs h (is_identifier_start-part c start))
    | inr other ↦ rw other (elim (Bool-cases (is_whitespace c)) [
      | inl space ↦ rw space (Extends-consume_char l, lt-consume_char l c cs h)
      | inr invalid ↦ rw invalid (
        Extends-trans (Extends-consume_char l) (Extends-errors _ _ refl refl),
        lt-consume_char l c cs h,
      )
    ])
  ]

  run_case-Steps :
      (found : Option Handler)
      → find_case c (cases context c) ≡ found
      → Steps l (run_case found c l)
  unfolding run_case returns
  run_case-Steps (some handler) e =
      find_case-Consumes c l (cases context c) handler cases-EachConsumes e
  run_case-Steps none e = handle_other-Steps

-- `HandleCharacter` starts the token at the current location.
handle_character-Steps :
    (context : LexerContext) (l : Lexer) (c : ℕ) (cs : List ℕ)
    → l.reader.ahead ≡ c ∷ cs
    → Steps (record l { token_start = location l }) (handle_character context c l)
unfolding handle_character
handle_character-Steps context l c cs h =
    run_case-Steps context (record l { token_start = location l }) c cs h _ refl

-- What `NextToken` returns: a token that is not empty, begins at or behind the location at the
-- call and ends at the new location; or none, and then the range is read to its end.
abbrev pub TokenWithin : Lexer → Option Token × Lexer → Type 0
TokenWithin l (some token, l') =
    (location l ≤ token.start) × (token.start < token.end) × (token.end ≡ location l')
TokenWithin l (none, l') = l'.reader.ahead ≡ []

-- The second lexer has read on in the text of the first.
pub record ReadsOn (l l' : Lexer) : Type 0 where
  pub read : List ℕ
  pub reads : Reads l.reader read l'.reader

ReadsOn-trans : {k l m : Lexer} → ReadsOn k l → ReadsOn l m → ReadsOn k m
ReadsOn-trans p q = record {
  read = p.read ++ q.read;
  reads = Reads-trans p.read q.read p.reads q.reads;
}

abbrev pub Returns : Lexer → Option Token × Lexer → Type 0
Returns l made = ReadsOn l made.1 × TokenWithin l made

Returns-after :
    (k l : Lexer) (made : Option Token × Lexer) → ReadsOn k l → Returns l made → Returns k made
Returns-after k l (some token, m) r (reads, (a, b, e)) =
    (ReadsOn-trans r reads, (omega (arith, r.reads.moved), b, e))
Returns-after k l (none, m) r (reads, a) = (ReadsOn-trans r reads, a)

-- One round, with what the later rounds return.
round-Returns :
    (loop : Lexer → Option Token × Lexer) (l : Lexer) (made : Option Token × Lexer)
    → Steps l made
    → l.token_start ≡ location l
    → (ReadsOn l made.1 → location l < location made.1 → Returns made.1 (loop made.1))
    → Returns l (or_else loop made)
unfolding or_else
round-Returns loop l (some token, m) s start rest = (
  record { read = s.makes.extends.read; reads = s.makes.extends.reads },
  (omega (arith, s.makes.start), omega (arith, s.makes.start, s.makes.end, s.moves), s.makes.end),
)
round-Returns loop l (none, m) (e, lt) start rest =
    let r : ReadsOn l m = record { read = e.read; reads = e.reads } in
    Returns-after l m (loop m) r (rest r lt)

ReadsOn-length :
    {l m : Lexer}
    → ReadsOn l m
    → location l < location m
    → length m.reader.ahead < length l.reader.ahead
ReadsOn-length {l} {m} r lt = omega (
  arith,
  r.reads.moved,
  ap (λ w. length {A = ℕ} w) r.reads.text,
  length-append {0} r.read m.reader.ahead,
)

next_token_loop-Returns :
    (context : LexerContext) (fuel : ℕ) (l : Lexer) (cs : List ℕ)
    → l.reader.ahead ≡ cs
    → length cs < fuel
    → Returns l (next_token_loop context fuel l)
unfolding next_token_loop
next_token_loop-Returns context zero l cs h b = elim b [ ]
next_token_loop-Returns context (suc fuel) l [] h b =
    rw (peek_char-none l.reader h, next_token_loop)
      (record { read = []; reads = Reads-refl l.reader }, h)
next_token_loop-Returns context (suc fuel) l (c ∷ cs) h b =
    rw (peek_char-some l.reader c cs h, next_token_loop)
      (let k = set_newline (is_line_terminator c) l in
        Returns-after l (record k { token_start = location l }) _
          (record { read = []; reads = Reads-refl l.reader })
          (round-Returns (next_token_loop context fuel) (record k { token_start = location l })
            (handle_character context c k) (handle_character-Steps context k c cs h) refl
            (λ r lt.
              next_token_loop-Returns context fuel (handle_character context c k).1
                (handle_character context c k).1.reader.ahead refl
                (omega (arith, ReadsOn-length r lt, ap (λ w. length {A = ℕ} w) h)))))

-- Also where a DCHECK of the reader fails, after which the program does not go on.
pub next_token_lem :
    (context : LexerContext) (l : Lexer)
    → ReadsOn l (next_token context l).1 × TokenWithin l (next_token context l)
unfolding next_token
next_token_lem context l =
    let k = record l { is_separated_by_newline = false } in
    Returns-after l k _ (record { read = []; reads = Reads-refl l.reader })
      (next_token_loop-Returns context (length l.reader.ahead + 1) k l.reader.ahead refl
        (omega arith))

-- From any state, and where no DCHECK of the reader or of the parser of documents fails,
-- `NextToken` ends, with the fuel of none of its loops used up, reads on in the range, and either returns a token that is not
-- empty, begins at or behind the old location and ends at the new one, or stands at the end of
-- the range with no token.
pub next_token-Returns :
    (context : LexerContext) (l : Lexer)
    → (next_token context l).1.reader.fault ≡ false
    → ReadsOn l (next_token context l).1 × TokenWithin l (next_token context l)
next_token-Returns context l met = next_token_lem context l
