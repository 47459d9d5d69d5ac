-- ===== src/Parser/Regexp/Lexer/Progress.antt =====
-- aoba/parser/regexp/regexp_lexer.cc: what each handler consumes, and the range of its token.
use aoba.Prelude.{
  ℕ, ◌+◌, ◌<◌, Bool, true, false, not, ◌&&◌, Option, some, none, List, [], ◌∷◌, ◌++◌, ◌≡◌, ◌≢◌, inl,
  inr, refl, ap, ◌∙◌, length, length-append, Bool-cases, if◌then◌else◌, arith, ltb, ◌==◌, ltb→lt,
}
use aoba.Parser.Utils.CharacterReader.{
  move_backward, peek_is, skip_while, can_peek_char, Reader, move_forward,
}
use aoba.Parser.Utils.CharacterReader.Reads.{
  move_forward-Reads, skip_while-Reads, fold_while-Reads, back-Reads, Reads, Reads-refl,
  Reads-trans, Reads-move_forward, consume_char_if-Reads, ahead-move_forward,
}
use aoba.Parser.Regexp.Lexer.{
  is_syntax_char, is_repeat_char, handle_char_set, digits_loop, handle_digits, handle_max,
  handle_repeat_max, handle_repeat_min, handle_repeat, handle_literal, handle_dollar, handle_star,
  handle_group_other, handle_capture, handle_left_parenthesis, handle_right_parenthesis,
  handle_left_brace, handle_caret, handle_backslash, handle_character, next_token, next_at,
  at_digit, consume_char, RegExpToken, RegExpLexer, RegExpNode, Handler, new_node, new_repeat,
  if_char, consume_char_if, char_set_loop,
}

-- The lexer has read at least one character since `r`, where its token starts.
pub record Past (r : Reader) (l : RegExpLexer) : Type 0 where
  pub read : List ℕ
  pub reads : Reads r read l.reader
  pub moves : 0 < length read
  pub starts : l.token_start ≡ r.location

pub record MadeFrom (r : Reader) (made : RegExpToken × RegExpLexer) : Type 0 where
  pub past : Past r made.1
  pub start : made.0.start ≡ r.location
  pub end : made.0.end ≡ made.1.reader.location

module _ (r : Reader) where
  abbrev Keeps : Handler → Type 0
  Keeps h = (l : RegExpLexer) → Past r l → MadeFrom r (h l)

  new_node-Keeps : (node : RegExpNode) → Keeps (new_node node)
  new_node-Keeps node l p = record { past = p; start = p.starts; end = refl }

  Past-Reads :
      (l m : RegExpLexer) (w : List ℕ)
      → Past r l
      → Reads l.reader w m.reader
      → m.token_start ≡ l.token_start
      → Past r m
  Past-Reads l m w p h e = record {
    read = p.read ++ w;
    reads = Reads-trans p.read w p.reads h;
    moves = omega (arith, p.moves, length-append {0} p.read w);
    starts = e ∙ p.starts;
  }

  Past-same :
      (l m : RegExpLexer)
      → Past r l
      → m.reader ≡ l.reader
      → m.token_start ≡ l.token_start
      → Past r m
  Past-same l m p e f = Past-Reads l m [] p (rw e (Reads-refl l.reader)) f

  consume_char_if-Past : (c : ℕ) (l : RegExpLexer) → Past r l → Past r (consume_char_if c l).1
  unfolding consume_char_if
  consume_char_if-Past c l p =
      let (w, h) = consume_char_if-Reads c l.reader in Past-Reads l _ w p h refl

  choice-Keeps :
      (found : Bool) (x y : RegExpToken × RegExpLexer)
      → MadeFrom r x
      → MadeFrom r y
      → MadeFrom r (if found then x else y)
  choice-Keeps true x y hx hy = hx
  choice-Keeps false x y hx hy = hy

  if_char-Keeps : (c : ℕ) (a b : Handler) → Keeps a → Keeps b → Keeps (if_char c a b)
  unfolding if_char
  if_char-Keeps c a b ha hb l p =
      let q = consume_char_if-Past c l p in
      choice-Keeps (consume_char_if c l).0 _ _ (ha _ q) (hb _ q)

  new_repeat-Keeps : (least most : ℕ) → Keeps (new_repeat least most)
  new_repeat-Keeps least most l p = if_char-Keeps b'?' _ _ (new_node-Keeps _) (new_node-Keeps _) l p

char_set_loop-Reads :
    (cs : List ℕ) (r : Reader) → r.ahead ≡ cs → (w : List ℕ) × Reads r w (char_set_loop cs r)
unfolding char_set_loop
char_set_loop-Reads [] r h = ([], Reads-refl r)
char_set_loop-Reads (c ∷ []) r h = elim (Bool-cases (c == b']')) [
  | inl e ↦ rw e ([], Reads-refl r)
  | inr e ↦ rw e (c ∷ [], Reads-move_forward r c [] h)
]
char_set_loop-Reads (c ∷ d ∷ cs) r h =
    let one = Reads-move_forward r c (d ∷ cs) h in
    let h₁ = ahead-move_forward r c (d ∷ cs) h in
    let two = Reads-trans (c ∷ []) (d ∷ []) one (Reads-move_forward (move_forward r) d cs h₁) in
    let (v, plain) = char_set_loop-Reads (d ∷ cs) (move_forward r) h₁ in
    let (w, escaped) =
      char_set_loop-Reads cs (move_forward (move_forward r))
        (ahead-move_forward (move_forward r) d cs h₁) in
    elim (Bool-cases (c == b']')) [
      | inl e ↦ rw e ([], Reads-refl r)
      | inr e ↦ rw e (elim (Bool-cases (c == b'\\')) [
        | inl f ↦ rw f (_, Reads-trans (c ∷ d ∷ []) w two escaped)
        | inr f ↦ rw f (_, Reads-trans (c ∷ []) v one plain)
      ])
    ]

snoc-cases :
    (w : List ℕ) → 1 < length w → (v : List ℕ) × (c : ℕ) × (w ≡ v ++ c ∷ []) × (0 < length v)
snoc-cases [] h = absurd (omega arith)
snoc-cases (a ∷ []) h = absurd (omega arith)
snoc-cases (a ∷ b ∷ []) h = (a ∷ [], b, refl, omega arith)
snoc-cases (a ∷ b ∷ c ∷ w) h =
    let (v, d, e, lt) = snoc-cases (b ∷ c ∷ w) (omega arith) in
    (a ∷ v, d, ap (◌∷◌ a) e, omega arith)

module _ (r : Reader) where
  choice-Past :
      (found : Bool) (x y : RegExpLexer) → Past r x → Past r y → Past r (if found then x else y)
  choice-Past true x y hx hy = hx
  choice-Past false x y hx hy = hy

  back-Past :
      (l : RegExpLexer)
      → Past r l
      → l.token_start + 1 < l.reader.location
      → Past r (record l { reader = move_backward l.reader })
  back-Past l p lt =
      let (v, c, e, pos) = snoc-cases p.read (omega (arith, p.reads.moved, p.starts)) in
      record {
        read = v;
        reads = back-Reads r l.reader v c (rw e at p.reads);
        moves = pos;
        starts = p.starts;
      }

  handle_literal-Keeps : Keeps r handle_literal
  unfolding handle_literal
  handle_literal-Keeps l p =
      let k = skip_while (λ c. not (is_syntax_char l c)) l.reader in
      let q = Past-Reads r l (record l { reader = k }) _ p (skip_while-Reads _ l.reader) refl in
      let last = peek_is is_repeat_char k in
      elim (Bool-cases (ltb (l.token_start + 1) k.location)) [
        | inl e ↦ rw e (
            choice-Keeps r last _ _
              (new_node-Keeps r _ _ (back-Past (record l { reader = k }) q (ltb→lt _ _ e)))
              (new_node-Keeps r _ _ q))
        | inr e ↦ rw e (new_node-Keeps r _ _ q)
      ]

  handle_char_set-Keeps : Keeps r handle_char_set
  unfolding handle_char_set
  handle_char_set-Keeps l p =
      let k = (consume_char_if b'^' l).1 in
      let q = consume_char_if-Past r b'^' l p in
      let (w, h) = char_set_loop-Reads k.reader.ahead k.reader refl in
      if_char-Keeps r b']' _ _ (λ m s. new_node-Keeps r _ m s)
        (λ m s. new_node-Keeps r _ _ (Past-same r m _ s refl refl)) _ (Past-Reads r k _ w q h refl)

  digits_loop-Past :
      (base : ℕ) (l : RegExpLexer)
      → Past r l
      → Past r (record l { reader = (digits_loop base l).0 })
  unfolding digits_loop
  digits_loop-Past base l p = Past-Reads r l _ _ p (fold_while-Reads _ _ l.reader _) refl

  handle_digits-Past : (base : ℕ) (l : RegExpLexer) → Past r l → Past r (handle_digits base l).1
  unfolding handle_digits
  handle_digits-Past base l p =
      let q = digits_loop-Past base l p in
      choice-Past ((digits_loop base l).1.number_of_digits == 0) _ _ (Past-same r _ _ q refl refl)
        (Past-same r _ _ q refl refl)

  handle_max-Past : (l : RegExpLexer) → Past r l → Past r (handle_max l).1
  unfolding handle_max
  handle_max-Past l p = elim (Bool-cases (at_digit l)) [
    | inl e ↦ rw e (handle_digits-Past 10 l p)
    | inr e ↦ rw e p
  ]

  handle_repeat_max-Keeps : (least : ℕ) → Keeps r (handle_repeat_max least)
  unfolding handle_repeat_max
  handle_repeat_max-Keeps least l p =
      let q = consume_char_if-Past r b',' l p in
      let s =
        handle_max-Past _
          (choice-Past (consume_char_if b',' l).0 _ _ q (Past-same r _ _ q refl refl)) in
      if_char-Keeps r b'}' _ _ (new_repeat-Keeps r least _)
        (λ m t. new_repeat-Keeps r least _ _ (Past-same r m _ t refl refl)) _ s

  handle_repeat-Keeps : Keeps r handle_repeat
  unfolding handle_repeat handle_repeat_min
  handle_repeat-Keeps l p =
      choice-Keeps r (not l.strict && not (at_digit l)) _ _ (new_node-Keeps r _ l p) (
        if_char-Keeps r b'}' _ _ (new_repeat-Keeps r _ _) (handle_repeat_max-Keeps _) _
          (handle_digits-Past 10 l p))

  handle_star-Keeps : (least : ℕ) → Keeps r (handle_star least)
  handle_star-Keeps least l p =
      choice-Keeps r _ _ _ (handle_literal-Keeps l p) (new_repeat-Keeps r least _ l p)

  handle_dollar-Keeps : Keeps r handle_dollar
  handle_dollar-Keeps l p = choice-Keeps r _ _ _ (new_node-Keeps r _ l p) (handle_literal-Keeps l p)

  handle_group_other-Keeps : Keeps r handle_group_other
  handle_group_other-Keeps l p =
      new_node-Keeps r _ _ (choice-Past l.strict _ _ (Past-same r l _ p refl refl) p)

  handle_capture-Keeps : Keeps r handle_capture
  handle_capture-Keeps l p =
      choice-Keeps r l.strict _ _ (new_node-Keeps r _ l p)
        (choice-Keeps r _ _ _ (new_node-Keeps r _ l p) (new_node-Keeps r _ l p))

  handle_left_parenthesis-Keeps : Keeps r handle_left_parenthesis
  unfolding handle_left_parenthesis
  handle_left_parenthesis-Keeps l p =
      let node = new_node-Keeps r in
      if_char-Keeps r b'?' _ _
        (if_char-Keeps r b':' _ _ (node _) (
          if_char-Keeps r b'=' _ _ (node _)
            (if_char-Keeps r b'!' _ _ (node _) handle_group_other-Keeps)))
        handle_capture-Keeps _ (Past-same r l _ p refl refl)

  handle_right_parenthesis-Keeps : Keeps r handle_right_parenthesis
  handle_right_parenthesis-Keeps l p =
      choice-Keeps r _ _ _ (new_node-Keeps r _ _ (Past-same r l _ p refl refl))
        (choice-Keeps r l.strict _ _ (new_node-Keeps r _ l p) (handle_literal-Keeps l p))

  handle_left_brace-Keeps : Keeps r handle_left_brace
  handle_left_brace-Keeps l p =
      choice-Keeps r _ _ _ (handle_literal-Keeps l p) (handle_repeat-Keeps l p)

  handle_caret-Keeps : Keeps r handle_caret
  handle_caret-Keeps l p = choice-Keeps r _ _ _ (new_node-Keeps r _ l p) (handle_literal-Keeps l p)

  handle_backslash-Keeps : Keeps r handle_backslash
  unfolding handle_backslash
  handle_backslash-Keeps l p =
      if_char-Keeps r b'b' _ _ (new_node-Keeps r _)
        (if_char-Keeps r b'B' _ _ (new_node-Keeps r _) (λ m q.
          handle_literal-Keeps _
            (let (w, h) = move_forward-Reads m.reader in Past-Reads r m _ w q h refl)))
        _ (choice-Past (can_peek_char l.reader) _ _ p (Past-same r l _ p refl refl))

  handle_character-Keeps : (c : ℕ) → Keeps r (handle_character c)
  unfolding handle_character
  handle_character-Keeps c l p =
      let choice = choice-Keeps r in
      choice (c == b'$') _ _ (handle_dollar-Keeps l p) (
        choice (c == b'*') _ _ (handle_star-Keeps 0 l p) (
          choice (c == b'+') _ _ (handle_star-Keeps 1 l p) (
            choice (c == b'.') _ _ (new_node-Keeps r _ l p) (
              choice (c == b'?') _ _ (new_repeat-Keeps r _ _ l p) (
                choice (c == b'(') _ _ (handle_left_parenthesis-Keeps l p) (
                  choice (c == b')') _ _ (handle_right_parenthesis-Keeps l p) (
                    choice (c == b'[') _ _ (handle_char_set-Keeps l p) (
                      choice (c == b'{') _ _ (handle_left_brace-Keeps l p) (
                        choice (c == b'^') _ _ (handle_caret-Keeps l p) (
                          choice (c == b'|') _ _ (new_node-Keeps r _ l p) (
                            choice (c == b'\\') _ _ (handle_backslash-Keeps l p)
                              (handle_literal-Keeps l p))))))))))))

-- The token, if there is one, begins at the old location, ends at the new one and is not empty;
-- there is none exactly at the end of the range.
abbrev pub Tiles : RegExpLexer → Option RegExpToken × RegExpLexer → Type 0
Tiles l (some token, l') =
    (l.reader.ahead ≢ [])
    × (token.start ≡ l.reader.location)
    × (token.start < token.end)
    × (token.end ≡ l'.reader.location)
    × ((w : List ℕ) × Reads l.reader w l'.reader)
Tiles l (none, l') = (l.reader.ahead ≡ []) × (l' ≡ l)

next_at-Tiles : (l : RegExpLexer) (cs : List ℕ) → l.reader.ahead ≡ cs → Tiles l (next_at cs l)
next_at-Tiles l [] h = (h, refl)
next_at-Tiles l (c ∷ cs) h =
    let k = consume_char (record l { token_start = l.reader.location }) in
    let p : Past l.reader k = record {
      read = c ∷ [];
      reads = Reads-move_forward l.reader c cs h;
      moves = omega arith;
      starts = refl;
    } in
    let m = handle_character-Keeps l.reader c k p in
    (
      (λ e. ne_nil l.reader c cs h e),
      m.start,
      omega (arith, m.start, m.end, m.past.reads.moved, m.past.moves),
      m.end,
      (m.past.read, m.past.reads),
    )
  where
    ne_nil : (r : Reader) (c : ℕ) (cs : List ℕ) → r.ahead ≡ c ∷ cs → r.ahead ≢ []
    ne_nil r c cs h e = cc

-- Also where a DCHECK of the reader fails, after which the program does not go on.
pub next_token_lem : (l : RegExpLexer) → Tiles l (next_token l)
unfolding next_token
next_token_lem l = next_at-Tiles l l.reader.ahead refl

-- Where no DCHECK of the reader fails, `NextToken` of a regular expression returns a token exactly when characters are left. The token
-- is not empty, begins at the old location and ends at the new one, and the characters between
-- them are those that the reader consumed.
pub next_token-Tiles :
    (l : RegExpLexer) → (next_token l).1.reader.fault ≡ false → Tiles l (next_token l)
next_token-Tiles l met = next_token_lem l
