-- ===== src/Parser/Utils/BracketTracker/Nesting.antt =====
-- Nested brackets: what a stream of tokens with matching brackets leaves in the tracker.
use aoba.Prelude.{
  Bool, true, false, some, none, List, [], ◌∷◌, ◌++◌, ◌≡◌, refl, ap, ◌∙◌, if◌then◌else◌, ==_iff,
}
use aoba.Ast.TokenKind.{TokenKind, kind_index}
use aoba.Parser.Utils.BracketTracker.{
  Description, Node, BracketTracker, ◌same_kind◌, mark, check, feed_each, feed, feed_kind, feed_all,
  finish,
}
use aoba.Parser.Utils.BracketTracker.Bounds.{feed-feed_each}

-- What a kind is in a list of descriptions: the first one that has it decides.
pub data Role : Type 0 where
  opens : Description → Role
  closes : Description → Role
  neither : Role

unfoldable pub role : TokenKind → List Description → Role
role kind [] = neither
role kind (d ∷ ds) =
    if kind same_kind d.open_kind
    then opens d
    else if kind same_kind d.close_kind
    then closes d
    else role kind ds

abbrev follow : TokenKind → Node → Role → BracketTracker → BracketTracker
follow kind token (opens d) t = mark kind token d t
follow kind token (closes d) t = check token d t
follow kind token neither t = t

feed_each-follow :
    (kind : TokenKind) (token : Node) (ds : List Description) (t : BracketTracker)
    → feed_each kind token ds t ≡ follow kind token (role kind ds) t
unfolding feed_each role
feed_each-follow kind token [] t = refl
feed_each-follow kind token (d ∷ ds) t =
    choice_follow (kind same_kind d.open_kind) (kind same_kind d.close_kind)
      (feed_each-follow kind token ds t)
  where
    choice_follow :
        (o c : Bool)
        → feed_each kind token ds t ≡ follow kind token (role kind ds) t
        → (if o
            then mark kind token d t
            else if c
            then check token d t
            else feed_each kind token ds t)
          ≡ follow kind token (if o then opens d else if c then closes d else role kind ds) t
    choice_follow true c e = refl
    choice_follow false true e = refl
    choice_follow false false e = e

-- Sequences of tokens in which the brackets of the descriptions match.
pub data Nested (ds : List Description) : List Node → Type 0 where
  nothing : Nested ds []
  word :
      (token : Node) (rest : List Node)
      → token.kind ≡ none
      → Nested ds rest
      → Nested ds (token ∷ rest)
  mark_of_no_bracket :
      (token : Node) (kind : TokenKind) (rest : List Node)
      → token.kind ≡ some kind
      → role kind ds ≡ neither
      → Nested ds rest
      → Nested ds (token ∷ rest)
  enclosed :
      (d : Description) (opening closing : Node) (inner rest : List Node)
      → opening.kind ≡ some d.open_kind
      → role d.open_kind ds ≡ opens d
      → closing.kind ≡ some d.close_kind
      → role d.close_kind ds ≡ closes d
      → Nested ds inner
      → Nested ds rest
      → Nested ds (opening ∷ inner ++ (closing ∷ rest))

feed-follow :
    (kind : TokenKind) (token : Node) (r : Role) (t : BracketTracker)
    → token.kind ≡ some kind
    → role kind t.descriptions ≡ r
    → feed token t ≡ follow kind token r t
feed-follow kind token r t h e =
    feed-feed_each kind token t h
    ∙ feed_each-follow kind token t.descriptions t
    ∙ ap (λ x. follow kind token x t) e

feed-none : (token : Node) (t : BracketTracker) → token.kind ≡ none → feed token t ≡ t
unfolding feed
feed-none token t h = ap (λ o. feed_kind o token t) h

feed_all-append :
    (xs ys : List Node) (t : BracketTracker) → feed_all (xs ++ ys) t ≡ feed_all ys (feed_all xs t)
unfolding feed_all
feed_all-append [] ys t = refl
feed_all-append (x ∷ xs) ys t = feed_all-append xs ys (feed x t)

check-mark :
    (opening closing : Node) (d : Description) (t : BracketTracker)
    → check closing d (mark d.open_kind opening d t) ≡ t
unfolding check mark
check-mark opening closing d t =
    rw ((==_iff (kind_index d.open_kind) (kind_index d.open_kind)).1 refl) refl

feed_all-Nested :
    (ds : List Description) (tokens : List Node) (t : BracketTracker)
    → Nested ds tokens
    → t.descriptions ≡ ds
    → feed_all tokens t ≡ t
unfolding feed_all mark
feed_all-Nested ds _ t nothing h = refl
feed_all-Nested ds _ t (word token rest n more) h =
    ap (feed_all rest) (feed-none token t n) ∙ feed_all-Nested ds rest t more h
feed_all-Nested ds _ t (mark_of_no_bracket token kind rest k r more) h =
    ap (feed_all rest) (feed-follow kind token neither t k (ap (role kind) h ∙ r))
    ∙ feed_all-Nested ds rest t more h
feed_all-Nested ds _ t (enclosed d opening closing inner rest k r k' r' more more') h =
    let marked = mark d.open_kind opening d t in
    ap (feed_all (inner ++ (closing ∷ rest)))
      (feed-follow d.open_kind opening (opens d) t k (ap (role d.open_kind) h ∙ r))
    ∙ feed_all-append inner (closing ∷ rest) marked
    ∙ ap (feed_all (closing ∷ rest))
        (feed_all-Nested ds inner marked more (mark_descriptions opening d t ∙ h))
    ∙ ap (feed_all rest) (
        feed-follow d.close_kind closing (closes d) marked k'
          (ap (role d.close_kind) (mark_descriptions opening d t ∙ h) ∙ r')
        ∙ check-mark opening closing d t)
    ∙ feed_all-Nested ds rest t more' h
  where
    mark_descriptions :
        (opening : Node) (d : Description) (t : BracketTracker)
        → (mark d.open_kind opening d t).descriptions ≡ t.descriptions
    mark_descriptions opening d t = refl

-- A stream of tokens in which the brackets of the tracker's descriptions match, fed to a tracker
-- that has no open bracket, leaves the tracker as it is, after `Finish` too: no error is reported
-- and no bracket stays open.
pub finish-Nested :
    (tokens : List Node) (t : BracketTracker)
    → t.stack ≡ []
    → Nested t.descriptions tokens
    → (feed_all tokens t ≡ t) × (finish (feed_all tokens t) ≡ t)
unfolding finish
finish-Nested tokens t empty nested =
    let same = feed_all-Nested t.descriptions tokens t nested refl in
    (same, ap finish same ∙ rw empty refl)
