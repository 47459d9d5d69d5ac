-- ===== src/Parser/TypeSyntax/Lexer/Progress.antt =====
-- aoba/parser/type/type_lexer.cc: what each handler consumes, and the range of its token.
use aoba.Prelude.{
  ℕ, zero, suc, ◌+◌, ◌≤◌, ◌<◌, Bool, true, false, Option, some, none, List, [], ◌∷◌, ◌++◌, ◌≡◌, inl,
  inr, refl, ap, ◌∙◌, length, length-append, Bool-cases, if◌then◌else◌, arith, ◌==◌, take_while,
  ==_iff,
}
use aoba.Ast.TokenKind.{TokenKind}
use aoba.Parser.Utils.LexerUtils.{is_whitespace, is_identifier_start, is_identifier_part}
use aoba.Parser.Utils.CharacterReader.{Reader, move_forward, fold_while}
use aoba.Parser.Utils.CharacterReader.Reads.{
  Reads, Reads-trans, Reads-move_forward, skip_while-Reads, fold_while-Reads, peek_char-some,
  peek_char-none,
}
use aoba.Parser.TypeSyntax.Lexer.{
  TypeLexer, TypeToken, TypeNode, handle_punctuator, handle_dots, handle_name, handle_other,
  handle_character, skip_whitespace, skips_asterisk, next_token_loop, next_token, consume_char,
  new_node,
}

pub record MadeFrom (r : Reader) (made : TypeToken × TypeLexer) : Type 0 where
  pub read : List ℕ
  pub reads : Reads r read made.1.reader
  pub moves : 0 < length read
  pub start : made.0.start ≡ r.location
  pub end : made.0.end ≡ made.1.reader.location

module _ (l : TypeLexer) (c : ℕ) (cs : List ℕ) (h : l.reader.ahead ≡ c ∷ cs)
    (at : l.token_start ≡ l.reader.location) where
  handle_punctuator-MadeFrom : (kind : TokenKind) → MadeFrom l.reader (handle_punctuator kind l)
  unfolding handle_punctuator
  handle_punctuator-MadeFrom kind = record {
    read = c ∷ [];
    reads = Reads-move_forward l.reader c cs h;
    moves = omega arith;
    start = at;
    end = refl;
  }

  handle_name-MadeFrom : MadeFrom l.reader (handle_name l)
  unfolding handle_name
  handle_name-MadeFrom = record {
    read = c ∷ [] ++ take_while is_identifier_part (move_forward l.reader).ahead;
    reads =
        Reads-trans (c ∷ []) _ (Reads-move_forward l.reader c cs h)
          (skip_while-Reads is_identifier_part (move_forward l.reader));
    moves = omega arith;
    start = at;
    end = refl;
  }

  handle_other-MadeFrom : MadeFrom l.reader (handle_other c l)
  unfolding handle_other
  handle_other-MadeFrom = elim (Bool-cases (is_identifier_start c)) [
    | inl e ↦ rw e handle_name-MadeFrom
    | inr e ↦ rw e (handle_punctuator-MadeFrom _)
  ]

  choice-MadeFrom :
      (found : Bool) (x y : TypeToken × TypeLexer)
      → (found ≡ true → MadeFrom l.reader x)
      → MadeFrom l.reader y
      → MadeFrom l.reader (if found then x else y)
  choice-MadeFrom true x y hx hy = hx refl
  choice-MadeFrom false x y hx hy = hy

  dots_node :
      (m : TypeLexer) (node : TypeNode) (w : List ℕ)
      → Reads l.reader w m.reader
      → 0 < length w
      → m.token_start ≡ l.token_start
      → MadeFrom l.reader (new_node node m)
  dots_node m node w reads moves e = record {
    read = w;
    reads = reads;
    moves = moves;
    start = e ∙ at;
    end = refl;
  }

  handle_dots-MadeFrom : c ≡ b'.' → MadeFrom l.reader (handle_dots l)
  unfolding handle_dots
  handle_dots-MadeFrom e =
      let is_dot : ℕ → Bool = λ d. d == b'.' in
      let count : ℕ → ℕ → ℕ = λ n d. n + 1 in
      let reads = fold_while-Reads is_dot count l.reader 0 in
      let first : 0 < length (take_while is_dot l.reader.ahead) = rw (h, e) (omega arith) in
      let n = (fold_while is_dot count l.reader 0).1 in
      choice-MadeFrom (n == 1) _ _ (λ x. dots_node _ _ _ reads first refl)
        (choice-MadeFrom (n == 3) _ _ (λ x. dots_node _ _ _ reads first refl)
          (dots_node _ _ _ reads first refl))

  or_single :
      (found : Bool) (kind : TokenKind) (y : TypeToken × TypeLexer)
      → MadeFrom l.reader y
      → MadeFrom l.reader (if found then handle_punctuator kind l else y)
  or_single true kind y hy = handle_punctuator-MadeFrom kind
  or_single false kind y hy = hy

  handle_character-MadeFrom : MadeFrom l.reader (handle_character c l)
  unfolding handle_character
  handle_character-MadeFrom = or_single (c == b'!') _ _ (
      or_single (c == b'(') _ _ (
        or_single (c == b')') _ _ (
          or_single (c == b',') _ _ (
            or_single (c == b'*') _ _ (
              or_single (c == b':') _ _ (
                or_single (c == b'<') _ _ (
                  or_single (c == b'=') _ _ (
                    or_single (c == b'>') _ _ (
                      or_single (c == b'?') _ _ (
                        or_single (c == b'[') _ _ (
                          or_single (c == b']') _ _ (
                            or_single (c == b'{') _ _ (
                              or_single (c == b'|') _ _ (
                                or_single (c == b'}') _ _ (
                                  choice-MadeFrom (c == b'.') _ _
                                    (λ e. handle_dots-MadeFrom ((==_iff c b'.').0 e))
                                    handle_other-MadeFrom)))))))))))))))

-- What `NextToken` returns: a token that is not empty, begins at or behind the location at the
-- call and ends at the new location; or none, and then the range is read to its end.
abbrev pub TokenWithin : TypeLexer → Option TypeToken × TypeLexer → Type 0
TokenWithin l (some token, l') =
    (l.reader.location ≤ token.start)
    × (token.start < token.end)
    × (token.end ≡ l'.reader.location)
    × ((w : List ℕ) × Reads l.reader w l'.reader)
TokenWithin l (none, l') = (l'.reader.ahead ≡ []) × ((w : List ℕ) × Reads l.reader w l'.reader)

TokenWithin-after :
    (k l : TypeLexer) (made : Option TypeToken × TypeLexer) (w : List ℕ)
    → Reads k.reader w l.reader
    → TokenWithin l made
    → TokenWithin k made
TokenWithin-after k l (some token, m) w r (a, b, e, (v, s)) =
    (omega (arith, r.moved), b, e, (w ++ v, Reads-trans w v r s))
TokenWithin-after k l (none, m) w r (e, (v, s)) = (e, (w ++ v, Reads-trans w v r s))

skip_whitespace-Reads :
    (r : Reader) → Reads r (take_while is_whitespace r.ahead) (skip_whitespace r).0
unfolding skip_whitespace
skip_whitespace-Reads r = fold_while-Reads is_whitespace _ r false

Reads-length :
    (r s : Reader) (w : List ℕ) → Reads r w s → length r.ahead ≡ length w + length s.ahead
Reads-length r s w h = ap (λ v. length {A = ℕ} v) h.text ∙ length-append {0} w s.ahead

Reads-consume :
    (l : TypeLexer) (c : ℕ) (cs : List ℕ)
    → l.reader.ahead ≡ c ∷ cs
    → Reads l.reader (c ∷ []) (consume_char l).reader
Reads-consume l c cs h = Reads-move_forward l.reader c cs h

next_token_loop-TokenWithin :
    (fuel : ℕ) (l : TypeLexer) (cs : List ℕ)
    → (skip_whitespace l.reader).0.ahead ≡ cs
    → length l.reader.ahead < fuel
    → TokenWithin l (next_token_loop fuel l)
unfolding next_token_loop
next_token_loop-TokenWithin zero l cs h b = elim b [ ]
next_token_loop-TokenWithin (suc fuel) l [] h b =
    rw (peek_char-none (skip_whitespace l.reader).0 h, next_token_loop)
      (h, (_, skip_whitespace-Reads l.reader))
next_token_loop-TokenWithin (suc fuel) l (c ∷ cs) h b =
    let r = (skip_whitespace l.reader).0 in
    let k = record l { reader = r } in
    let skip = skip_whitespace-Reads l.reader in
    rw (peek_char-some r c cs h, next_token_loop)
      (elim (Bool-cases (skips_asterisk l (skip_whitespace l.reader).1 c)) [
        | inl e ↦ rw e (
            let one = Reads-consume k c cs h in
            TokenWithin-after l (consume_char k) _ _ (Reads-trans _ (c ∷ []) skip one) (
              next_token_loop-TokenWithin fuel (consume_char k)
                (skip_whitespace (consume_char k).reader).0.ahead refl
                (omega (arith, Reads-length _ _ _ skip, Reads-length _ _ _ one))))
        | inr e ↦ rw e (
            let m = handle_character-MadeFrom (record k { token_start = r.location }) c cs h refl in
            (
              omega (arith, m.start, skip.moved),
              omega (arith, m.start, m.end, m.reads.moved, m.moves),
              m.end,
              (_, Reads-trans _ m.read skip m.reads),
            ))
      ])

-- In both modes `NextToken` of a type annotation ends, and either returns a token that is not
-- empty, begins at or behind the old location and ends at the new one, or has read the range to
-- its end.
pub next_token-TokenWithin : (l : TypeLexer) → TokenWithin l (next_token l)
unfolding next_token
next_token-TokenWithin l =
    next_token_loop-TokenWithin (length l.reader.ahead + 1) l _ refl (omega arith)
