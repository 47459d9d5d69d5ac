-- ===== src/Parser/Script/Ranges/Semicolons.antt =====
-- aoba/parser/parser.cc: what `ExpectPunctuator` and `ExpectSemicolon` report.
use aoba.Prelude.{
  ℕ, suc, ◌+◌, ◌≤◌, ◌<◌, Bool, true, false, not, ◌&&◌, ◌||◌, Option, some, none, List, [], ◌∷◌,
  ◌++◌, length, le→leb, leb, ◌==◌, ◌≡◌, refl, arith,
}
use aoba.Prelude
use aoba.Ast.TokenKind.{TokenKind, semicolon, right_brace}
use aoba.Parser.Utils.Steps.{returned, Step, if◌then◌else◌, ◌>>=◌, gets, pure, modify, crash}
use aoba.Parser.Script.Words.{ErrorCode, error_number, statement_expect_semicolon}
use aoba.Parser.Script.Nodes.{ScriptToken, has_kind}
use aoba.Parser.Script.Actions.{ScriptParser, with_token, if_kind, peeked, consume_token}
use aoba.Parser.Script.Ranges.{
  check, slice, add_range_error, nth, report_missing, expect_punctuator, expect_semicolon,
}

lt→==-false : (a b : ℕ) → a < b → (a == b) ≡ false
lt→==-false a b h = ground arith

-- The parser with an error from the start of the node to the end of the token before.
abbrev with_missing : ScriptToken → ErrorCode → ScriptParser → ScriptParser
with_missing before code p = record p {
  errors =
      p.errors
      ++ (record { start = p.node_start; end = before.end; code = error_number code } ∷ []);
}

slice-returned :
    (p : ScriptParser) (start end : ℕ)
    → start ≤ end
    → end ≤ length p.text
    → slice start end p ≡ returned (start, end) p
unfolding slice check ◌>>=◌ gets pure crash if◌then◌else◌
slice-returned p start end le within = rw (le→leb start end le, le→leb end (length p.text) within)

-- A nonempty range meets the `DCHECK` of `AddError`.
add_range_error-returned :
    (p : ScriptParser) (start end : ℕ) (code : ErrorCode)
    → start < end
    → add_range_error (start, end) code p
      ≡ returned tt (record p {
        errors = p.errors ++ (record { start = start; end = end; code = error_number code } ∷ []);
      })
unfolding add_range_error check ◌>>=◌ gets modify pure crash if◌then◌else◌
add_range_error-returned p start end code lt = rw (lt→==-false start end lt)

pub with_token-ahead :
    {A : Type 0} (absent : Step ScriptParser A) (present : ScriptToken → Step ScriptParser A)
    (p : ScriptParser) (token : ScriptToken)
    → peeked p ≡ some token
    → with_token absent present p ≡ present token p
unfolding with_token
with_token-ahead absent present p token ahead = rw ahead

module _ (p : ScriptParser) (before : ScriptToken) (code : ErrorCode)
    (e : nth 1 p.tokens ≡ some before) (lt : p.node_start < before.end)
    (le : before.end ≤ length p.text) where
  report_missing-with_missing : report_missing 1 code p ≡ returned tt (with_missing before code p)
  unfolding report_missing ◌>>=◌ gets pure
  report_missing-with_missing = rw (
    e,
    slice-returned p p.node_start before.end (omega (arith, lt)) le,
    add_range_error-returned p p.node_start before.end code lt,
  )

  expect_punctuator-with_missing :
      (kind : TokenKind) (token : ScriptToken)
      → peeked p ≡ some token
      → has_kind kind token ≡ false
      → expect_punctuator kind code p ≡ returned tt (with_missing before code p)
  unfolding expect_punctuator if_kind if◌then◌else◌
  expect_punctuator-with_missing kind token ahead other = rw (
    with_token-ahead _ _ p token ahead,
    other,
    with_token-ahead (report_missing 0 code) (λ t. report_missing 1 code) p token ahead,
    report_missing-with_missing,
  )

semicolon-at_token :
    (p : ScriptParser) (before token : ScriptToken)
    → peeked p ≡ some token
    → has_kind semicolon token ≡ false
    → (disabled newline : Bool)
    → expect_punctuator semicolon statement_expect_semicolon p
      ≡ returned tt (with_missing before statement_expect_semicolon p)
    → (if disabled
          then expect_punctuator semicolon statement_expect_semicolon
          else with_token (pure tt) (λ found.
            if has_kind semicolon found
            then consume_token >>= (λ consumed. pure tt)
            else if has_kind right_brace found
            then pure tt
            else if newline
            then pure tt
            else expect_punctuator semicolon statement_expect_semicolon))
        p
      ≡ returned tt (
          Prelude.if◌then◌else◌
            (not disabled && (has_kind right_brace token || newline))
            p
            (with_missing before statement_expect_semicolon p))
unfolding if◌then◌else◌ pure
semicolon-at_token p before token ahead other true newline reported = reported
semicolon-at_token p before token ahead other false newline reported =
    rw (with_token-ahead _ _ p token ahead, other)
      (brace_cases (has_kind right_brace token) newline)
  where
    brace_cases :
        (brace newline : Bool)
        → (if brace
              then pure tt
              else if newline
              then pure tt
              else expect_punctuator semicolon statement_expect_semicolon)
            p
          ≡ returned tt (
              Prelude.if◌then◌else◌
                (brace || newline)
                p
                (with_missing before statement_expect_semicolon p))
    brace_cases true newline = refl
    brace_cases false true = refl
    brace_cases false false = reported

-- Where the language puts a semicolon: before a closing brace and behind a line terminator.
abbrev pub may_omit : ScriptToken → ScriptParser → Bool
may_omit token p =
    not p.disable_automatic_semicolon && (has_kind right_brace token || p.is_separated_by_newline)

-- Let the text from the start of the node to the end of the token before the one ahead be nonempty
-- and in the source. At a token that is no semicolon, ExpectSemicolon returns, consumes nothing, and
-- reports no error where automatic semicolons are enabled and the token is a closing brace or stands
-- behind a line terminator; otherwise it reports one error, over that text.
pub expect_semicolon-at_token :
    (p : ScriptParser) (before token : ScriptToken)
    → nth 1 p.tokens ≡ some before
    → p.node_start < before.end
    → before.end ≤ length p.text
    → peeked p ≡ some token
    → has_kind semicolon token ≡ false
    → expect_semicolon p
      ≡ returned tt (
          Prelude.if◌then◌else◌
            (may_omit token p)
            p
            (with_missing before statement_expect_semicolon p))
unfolding expect_semicolon gets ◌>>=◌
expect_semicolon-at_token p before token e lt le ahead other =
    semicolon-at_token p before token ahead other p.disable_automatic_semicolon
      p.is_separated_by_newline
      (expect_punctuator-with_missing p before statement_expect_semicolon e lt le semicolon token
        ahead other)
