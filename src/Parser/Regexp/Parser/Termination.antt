-- ===== src/Parser/Regexp/Parser/Termination.antt =====
-- aoba/parser/regexp/regexp_parser.cc: what the functions of the grammar leave, and their fuel.
use aoba.Prelude.{
  ℕ, zero, suc, ◌+◌, ◌≤◌, ◌<◌, Bool, true, false, not, Option, some, none, List, [], ◌∷◌, ◌≡◌, refl,
  length, arith,
}
use aoba.Ast.TokenKind.{TokenKind}
use aoba.Parser.Regexp.Lexer.{RegExpToken}
use aoba.Parser.Regexp.Parser.Nodes.{Tree, Trees, nil, push, is_primary, reverse_trees}
use aoba.Parser.Regexp.Parser.Actions.{
  RegExpParser, returned, crashed, M, pure, scope_start, scope_end, peek_token, consume_token,
  consume_kind, consume_repeat, top_group, last_start, can_peek_token, peek_is_kind, pop_group,
}
use aoba.Parser.Regexp.Parser.Fuel.{
  remaining, Ends, AtMost, Less, Same, IfFound, Ends-bind, Ends-keep, Ends-weaken, Ends-if,
  consume_token-Ends, consume_kind-Ends, consume_repeat-Ends, peek_token-Ends, scope_start-Ends,
  scope_end-Ends, last_start-Ends, top_group-Ends,
}
use aoba.Parser.Regexp.Parser.{
  add_pattern, new_or, new_sequence, report_group, parse_group, parse_parenthesis, parse_capture,
  parse_other, parse_primary, add_repeat, parse_repeat, ends_sequence, sequence_loop,
  parse_sequence, or_member, or_loop, first_member, parse_or, parse,
}

new_or-Ends :
    (start : ℕ) (ts : Trees) (p : RegExpParser) (b : ℕ)
    → remaining p ≤ b
    → Ends (AtMost b) (new_or start ts p)
unfolding new_or
new_or-Ends start nil p b h = Ends-keep (AtMost b) (scope_end p) _ p (scope_end-Ends p) (λ a. h)
new_or-Ends start (push t nil) p b h = h
new_or-Ends start (push t (push u ts)) p b h =
    Ends-keep (AtMost b) (scope_end p) _ p (scope_end-Ends p) (λ a. h)

new_sequence-Ends :
    (start : ℕ) (ts : Trees) (p : RegExpParser) (b : ℕ)
    → remaining p ≤ b
    → Ends (AtMost b) (new_sequence start ts p)
unfolding new_sequence
new_sequence-Ends start nil p b h =
    Ends-keep (AtMost b) (scope_end p) _ p (scope_end-Ends p) (λ a. h)
new_sequence-Ends start (push t nil) p b h = h
new_sequence-Ends start (push t (push u ts)) p b h =
    Ends-keep (AtMost b) (scope_end p) _ p (scope_end-Ends p) (λ a. h)

report_group-Ends :
    (closed : Bool) (p : RegExpParser) (b : ℕ)
    → remaining p ≤ b
    → Ends (AtMost b) (report_group closed p)
unfolding report_group
report_group-Ends true p b h = h
report_group-Ends false p b h =
    Ends-keep (AtMost b) (top_group p) _ p (top_group-Ends p)
      (λ top. Ends-keep (AtMost b) (scope_end p) _ p (scope_end-Ends p) (λ end. h))

pop_group-Ends : (p : RegExpParser) (b : ℕ) → remaining p ≤ b → Ends (AtMost b) (pop_group p)
pop_group-Ends p b h = popped p.groups
  where
    popped :
        (groups : List ℕ)
        → Ends (AtMost b) (elim groups [
          | [] ↦ crashed
          | start ∷ starts ↦ returned tt (record p { groups = starts })
        ])
    popped [] = tt
    popped (start ∷ starts) = h

can_peek_token-Ends : (p : RegExpParser) → Ends (Same p) (can_peek_token p)
unfolding can_peek_token
can_peek_token-Ends p = refl

peek_is_kind-Ends : (kind : TokenKind) (p : RegExpParser) → Ends (Same p) (peek_is_kind kind p)
unfolding peek_is_kind
peek_is_kind-Ends kind p = refl

ends_sequence-Ends : (p : RegExpParser) → Ends (Same p) (ends_sequence p)
unfolding ends_sequence can_peek_token peek_is_kind
ends_sequence-Ends p = refl

-- The functions that call `ParseOr` on less text than `n`.
module _ (n : ℕ) (alternatives : M Tree)
    (enough : (q : RegExpParser)
      → remaining q < n
      → Ends (AtMost (remaining q)) (alternatives q)) where
  parse_group-Ends :
      (p : RegExpParser)
      → remaining p < n
      → Ends (AtMost (remaining p)) (parse_group alternatives p)
  unfolding parse_group
  parse_group-Ends p h =
      let b = remaining p in
      Ends-keep (AtMost b) (last_start p) _ p (last_start-Ends p) (λ group.
        let p₁ = record p { groups = group ∷ p.groups } in
        Ends-bind (AtMost b) (AtMost b) (alternatives p₁) _ p₁ (enough p₁ h) (λ pattern q le.
          Ends-bind (IfFound b) (AtMost b) (consume_kind TokenKind.right_parenthesis q) _ q
            (consume_kind-Ends TokenKind.right_parenthesis q b le)
            (λ closed r found.
              Ends-bind (AtMost b) (AtMost b) (report_group closed r) _ r
                (report_group-Ends closed r b found.1)
                (λ u s le'.
                  Ends-bind (AtMost b) (AtMost b) (pop_group s) _ s (pop_group-Ends s b le')
                    (λ v t le''. le'')))))

  parse_parenthesis-Ends :
      (p : RegExpParser)
      → remaining p < n
      → Ends (AtMost (remaining p)) (parse_parenthesis alternatives p)
  unfolding parse_parenthesis
  parse_parenthesis-Ends p h =
      let b = remaining p in
      Ends-keep (AtMost b) (scope_start p) _ p (scope_start-Ends p) (λ start.
        Ends-bind (IfFound b) (AtMost b) (consume_kind TokenKind.right_parenthesis p) _ p
          (consume_kind-Ends TokenKind.right_parenthesis p b (omega arith))
          (λ closed q found.
            Ends-if (AtMost b) closed (new_sequence start nil) (parse_group alternatives) q
              (λ e. new_sequence-Ends start nil q b found.1)
              (λ e.
                Ends-weaken (AtMost (remaining q)) (AtMost b) _
                  (parse_group-Ends q (omega (arith, h, found.1)))
                  (λ a r le. omega (arith, le, found.1)))))

  parse_capture-Ends :
      (start : ℕ) (p : RegExpParser)
      → remaining p < n
      → Ends (AtMost (remaining p)) (parse_capture start alternatives p)
  unfolding parse_capture
  parse_capture-Ends start p h =
      Ends-bind (AtMost (remaining p)) (AtMost (remaining p)) (parse_parenthesis alternatives p) _ p
        (parse_parenthesis-Ends p h)
        (λ pattern q le.
          Ends-keep (AtMost (remaining p)) (scope_end q) _ q (scope_end-Ends q) (λ end. le))

  parse_other-Ends :
      (start : ℕ) (p : RegExpParser) (b : ℕ) → remaining p ≤ b → Ends (Less b) (parse_other start p)
  unfolding parse_other
  parse_other-Ends start p b h =
      Ends-bind (Less b) (Less b) (consume_token p) _ p (consume_token-Ends p b h) (λ token q lt.
        Ends-if (Less b) q.lexer.strict _ _ q
          (λ e. Ends-keep (Less b) (scope_end q) _ q (scope_end-Ends q) (λ end. lt)) (λ e. lt))

  parse_primary-Ends :
      (p : RegExpParser) (b : ℕ)
      → remaining p ≤ b
      → b ≤ n
      → Ends (Less b) (parse_primary alternatives p)
  unfolding parse_primary
  parse_primary-Ends p b h le =
      Ends-keep (Less b) (scope_start p) _ p (scope_start-Ends p) (λ start.
        Ends-keep (Less b) (peek_token p) _ p (peek_token-Ends p) (λ token.
          Ends-if (Less b) (is_primary token.node) _ _ p
            (λ e.
              Ends-bind (Less b) (Less b) (consume_token p) _ p (consume_token-Ends p b h)
                (λ consumed q lt. lt))
            (λ e.
              Ends-bind (IfFound b) (Less b) (consume_kind TokenKind.left_parenthesis p) _ p
                (consume_kind-Ends TokenKind.left_parenthesis p b h)
                (λ opens q found.
                  Ends-if (Less b) opens (parse_capture start alternatives) _ q
                    (λ f.
                      Ends-weaken (AtMost (remaining q)) (Less b) _
                        (parse_capture-Ends start q (omega (arith, found.0 f, le)))
                        (λ a r le'. omega (arith, le', found.0 f)))
                    (λ f.
                      Ends-bind (IfFound b) (Less b) (consume_kind TokenKind.colon q) _ q
                        (consume_kind-Ends TokenKind.colon q b found.1)
                        (λ groups r found'.
                          Ends-if (Less b) groups (parse_parenthesis alternatives)
                            (parse_other start) r
                            (λ g.
                              Ends-weaken (AtMost (remaining r)) (Less b) _
                                (parse_parenthesis-Ends r (omega (arith, found'.0 g, le)))
                                (λ a s le'. omega (arith, le', found'.0 g)))
                            (λ g. parse_other-Ends start r b found'.1)))))))

  add_repeat-Ends :
      (start : ℕ) (pattern : Tree) (o : Option RegExpToken) (p : RegExpParser) (b : ℕ)
      → remaining p < b
      → Ends (Less b) (add_repeat start pattern o p)
  add_repeat-Ends start pattern none p b h = h
  add_repeat-Ends start pattern (some token) p b h =
      Ends-keep (Less b) (scope_end p) _ p (scope_end-Ends p) (λ end. h)

  parse_repeat-Ends :
      (p : RegExpParser) (b : ℕ)
      → remaining p ≤ b
      → b ≤ n
      → Ends (Less b) (parse_repeat alternatives p)
  unfolding parse_repeat
  parse_repeat-Ends p b h le = Ends-keep (Less b) (scope_start p) _ p (scope_start-Ends p) (λ start.
      Ends-bind (Less b) (Less b) (parse_primary alternatives p) _ p (parse_primary-Ends p b h le)
        (λ pattern q lt.
          Ends-bind (AtMost (remaining q)) (Less b) (consume_repeat q) _ q
            (consume_repeat-Ends q (remaining q) (omega arith))
            (λ o r le'. add_repeat-Ends start pattern o r b (omega (arith, lt, le')))))

  sequence_loop-Ends :
      (k : ℕ) (patterns : Trees) (p : RegExpParser) (b : ℕ)
      → remaining p ≤ b
      → b < k
      → b ≤ n
      → Ends (AtMost b) (sequence_loop k alternatives patterns p)
  unfolding sequence_loop
  sequence_loop-Ends zero patterns p b h lt le = omega arith
  sequence_loop-Ends (suc k) patterns p b h lt le =
      Ends-keep (AtMost b) (ends_sequence p) _ p (ends_sequence-Ends p) (λ ends.
        Ends-if (AtMost b) ends (pure patterns) _ p (λ e. h)
          (λ e.
            Ends-bind (Less b) (AtMost b) (parse_repeat alternatives p) _ p
              (parse_repeat-Ends p b h le)
              (λ pattern q less.
                Ends-weaken (AtMost (remaining q)) (AtMost b) _
                  (sequence_loop-Ends k (add_pattern pattern patterns) q (remaining q) (omega arith)
                    (omega (arith, lt, less)) (omega (arith, less, le)))
                  (λ a r le'. omega (arith, le', less)))))

  parse_sequence-Ends :
      (p : RegExpParser) (b : ℕ)
      → remaining p ≤ b
      → b ≤ n
      → Ends (Less b) (parse_sequence n alternatives p)
  unfolding parse_sequence
  parse_sequence-Ends p b h le =
      Ends-keep (Less b) (scope_start p) _ p (scope_start-Ends p) (λ start.
        Ends-bind (Less b) (Less b) (parse_repeat alternatives p) _ p (parse_repeat-Ends p b h le)
          (λ first q lt.
            Ends-bind (AtMost (remaining q)) (Less b)
              (sequence_loop n alternatives (push first nil) q) _ q
              (sequence_loop-Ends n (push first nil) q (remaining q) (omega arith)
                (omega (arith, lt, le)) (omega (arith, lt, le)))
              (λ patterns r le'.
                Ends-weaken (AtMost (remaining r)) (Less b) _
                  (new_sequence-Ends start (reverse_trees patterns nil) r (remaining r)
                    (omega arith))
                  (λ a s le''. omega (arith, le'', le', lt)))))

-- The loop of `ParseOr`, with a member's parser that ends.
module _ (n : ℕ) (sequence_parser : M Tree)
    (enough : (p : RegExpParser) (b : ℕ)
      → remaining p ≤ b
      → b ≤ n
      → Ends (Less b) (sequence_parser p)) where
  or_member-Ends :
      (p : RegExpParser) (b : ℕ)
      → remaining p ≤ b
      → b ≤ n
      → Ends (AtMost b) (or_member sequence_parser p)
  unfolding or_member
  or_member-Ends p b h le =
      Ends-keep (AtMost b) (can_peek_token p) _ p (can_peek_token-Ends p) (λ more.
        Ends-keep (AtMost b) (peek_is_kind TokenKind.right_parenthesis p) _ p
          (peek_is_kind-Ends TokenKind.right_parenthesis p)
          (λ at_end.
            Ends-keep (AtMost b) (peek_is_kind TokenKind.bit_or p) _ p
              (peek_is_kind-Ends TokenKind.bit_or p)
              (λ at_or.
                Ends-if (AtMost b) (not more) _ _ p (λ e. h)
                  (λ e.
                    Ends-if (AtMost b) at_end _ _ p
                      (λ f.
                        Ends-keep (AtMost b) (peek_token p) _ p (peek_token-Ends p) (λ token. h))
                      (λ f.
                        Ends-if (AtMost b) at_or _ _ p
                          (λ g.
                            Ends-bind (Less b) (AtMost b) (consume_token p) _ p
                              (consume_token-Ends p b h) (λ token q lt. omega (arith, lt)))
                          (λ g.
                            Ends-bind (Less b) (AtMost b) (sequence_parser p) _ p (enough p b h le)
                              (λ member q lt. omega (arith, lt))))))))

  or_loop-Ends :
      (k : ℕ) (members : Trees) (p : RegExpParser) (b : ℕ)
      → remaining p ≤ b
      → b < k
      → b ≤ n
      → Ends (AtMost b) (or_loop k sequence_parser members p)
  unfolding or_loop
  or_loop-Ends zero members p b h lt le = omega arith
  or_loop-Ends (suc k) members p b h lt le =
      Ends-bind (IfFound b) (AtMost b) (consume_kind TokenKind.bit_or p) _ p
        (consume_kind-Ends TokenKind.bit_or p b h)
        (λ found q moved.
          Ends-if (AtMost b) (not found) (pure members) _ q (λ e. moved.1)
            (λ e.
              let less = moved.0 (found_of found e) in
              Ends-bind (AtMost (remaining q)) (AtMost b) (or_member sequence_parser q) _ q
                (or_member-Ends q (remaining q) (omega arith) (omega (arith, less, le)))
                (λ next r le'.
                  Ends-if (AtMost b) next.1 _ _ r
                    (λ f.
                      Ends-weaken (AtMost (remaining r)) (AtMost b) _
                        (or_loop-Ends k (push next.0 members) r (remaining r) (omega arith)
                          (omega (arith, lt, less, le')) (omega (arith, less, le, le')))
                        (λ a s le''. omega (arith, le'', le', less)))
                    (λ f. omega (arith, le', less)))))
    where
      found_of : (found : Bool) → not found ≡ false → found ≡ true
      found_of true e = refl
      found_of false e = cc

  first_member-Ends :
      (p : RegExpParser) (b : ℕ)
      → remaining p ≤ b
      → b ≤ n
      → Ends (AtMost b) (first_member sequence_parser p)
  unfolding first_member
  first_member-Ends p b h le =
      Ends-keep (AtMost b) (peek_is_kind TokenKind.bit_or p) _ p
        (peek_is_kind-Ends TokenKind.bit_or p)
        (λ at_or.
          Ends-if (AtMost b) at_or _ _ p
            (λ e. Ends-keep (AtMost b) (peek_token p) _ p (peek_token-Ends p) (λ token. h))
            (λ e.
              Ends-weaken (Less b) (AtMost b) _ (enough p b h le) (λ a q lt. omega (arith, lt))))

parse_or-Ends :
    (n : ℕ) (p : RegExpParser) → remaining p < n → Ends (AtMost (remaining p)) (parse_or n p)
unfolding parse_or
parse_or-Ends zero p h = omega arith
parse_or-Ends (suc n) p h =
    let b = remaining p in
    let sequence_parser = parse_sequence n (parse_or n) in
    let enough = parse_sequence-Ends n (parse_or n) (parse_or-Ends n) in
    Ends-keep (AtMost b) (scope_start p) _ p (scope_start-Ends p) (λ start.
      Ends-bind (AtMost b) (AtMost b) (first_member sequence_parser p) _ p
        (first_member-Ends n sequence_parser enough p b (omega arith) (omega (arith, h)))
        (λ first q le.
          Ends-bind (AtMost b) (AtMost b) (or_loop (suc n) sequence_parser (push first nil) q) _ q
            (or_loop-Ends n sequence_parser enough (suc n) (push first nil) q b le h
              (omega (arith, h)))
            (λ members r le'. new_or-Ends start (reverse_trees members nil) r b le')))

-- From any state, `Parse` ends: it returns a tree, with no more text left than before, or reads a
-- token or a character that is not there.
pub parse-Ends : (p : RegExpParser) → Ends (AtMost (remaining p)) (parse p)
unfolding parse
parse-Ends p = parse_or-Ends (length p.lexer.reader.ahead + 2) p (remaining-lt p.current)
  where
    remaining-lt :
        (o : Option RegExpToken)
        → remaining (record p { current = o }) < length p.lexer.reader.ahead + 2
    remaining-lt none = omega arith
    remaining-lt (some token) = omega arith
