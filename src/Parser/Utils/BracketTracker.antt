-- ===== src/Parser/Utils/BracketTracker.antt =====
-- aoba/parser/utils/bracket_tracker.{h,cc}: matching of brackets over a stream of tokens.
pub mod Bounds
pub mod Nesting
use aoba.Prelude.{
  ℕ, zero, suc, ◌+◌, ◌-◌, ◌*◌, ◌/◌, ◌%◌, ◌^◌, ◌≤◌, ◌<◌, min, max, Bool, true, false, not, ◌&&◌,
  ◌||◌, Option, some, none, List, [], ◌∷◌, ◌++◌, ◌≡◌, ◌≢◌, ◌↔◌, ◌⊎◌, inl, inr, refl, sym, ap, ◌∙◌,
  length, take, drop, length-append, append_assoc, append-nil, Bool-cases, if◌then◌else◌, arith,
  ltb, leb, ◌==◌, within, take_while, drop_while, All, reverse_onto, ==_iff, leb→le, ltb→lt, le→leb,
  lt→ltb, get_elem?,
}
use aoba.Ast.TokenKind.{TokenKind, kind_index}

-- The enumerators are compared by their values.
infix 50 ◌same_kind◌
abbrev pub ◌same_kind◌ : TokenKind → TokenKind → Bool
a same_kind b = kind_index a == kind_index b

pub record Description : Type 0 where
  pub open_kind : TokenKind
  pub open_error : ℕ
  pub close_kind : TokenKind
  pub close_error : ℕ

-- A node with its range; `kind` is there where the node is a punctuator.
pub record Node : Type 0 where
  pub start : ℕ
  pub end : ℕ
  pub kind : Option TokenKind

pub record BracketError : Type 0 where
  pub start : ℕ
  pub end : ℕ
  pub code : ℕ

-- `stack` has the last open bracket first.
pub record BracketTracker : Type 0 where
  pub descriptions : List Description
  pub range_end : ℕ
  pub stack : List (TokenKind × Node × Description)
  pub errors : List BracketError

-- `ComputeMinMax`, from the bounds so far.
unfoldable pub compute_min : ℕ → List Description → ℕ
compute_min least [] = least
compute_min least (d ∷ ds) =
    compute_min (min (min least (kind_index d.open_kind)) (kind_index d.close_kind)) ds

unfoldable pub compute_max : ℕ → List Description → ℕ
compute_max most [] = most
compute_max most (d ∷ ds) =
    compute_max (max (max most (kind_index d.open_kind)) (kind_index d.close_kind)) ds

-- `descriptions.front().open`; the source has at least one description.
abbrev pub front_open : List Description → ℕ
front_open [] = 0
front_open (d ∷ ds) = kind_index d.open_kind

-- `kind < min_max_.first || kind > min_max_.second`.
unfoldable pub out_of_range : TokenKind → List Description → Bool
out_of_range kind ds =
    ltb (kind_index kind) (compute_min (front_open ds) ds)
    || ltb (compute_max (front_open ds) ds) (kind_index kind)

abbrev pub add_error : ℕ → ℕ → ℕ → BracketTracker → BracketTracker
add_error start end code t = record t {
  errors = t.errors ++ (record { start = start; end = end; code = code } ∷ []);
}

-- `Check`, by the stack.
abbrev check_stack :
    Node → Description → List (TokenKind × Node × Description) → BracketTracker → BracketTracker
check_stack token actual [] t = add_error token.start token.end actual.close_error t
check_stack token actual ((open_kind, open_token, description) ∷ rest) t =
    if open_kind same_kind actual.open_kind
    then record t { stack = rest }
    else add_error (min token.start open_token.start) (max token.end open_token.end)
        actual.close_error t

unfoldable pub check : Node → Description → BracketTracker → BracketTracker
check token actual t = check_stack token actual t.stack t

unfoldable pub mark : TokenKind → Node → Description → BracketTracker → BracketTracker
mark kind token description t = record t { stack = (kind, token, description) ∷ t.stack }

-- The loop of `Feed` over the descriptions.
unfoldable pub feed_each : TokenKind → Node → List Description → BracketTracker → BracketTracker
feed_each kind token [] t = t
feed_each kind token (d ∷ ds) t =
    if kind same_kind d.open_kind
    then mark kind token d t
    else if kind same_kind d.close_kind
    then check token d t
    else feed_each kind token ds t

abbrev pub feed_kind : Option TokenKind → Node → BracketTracker → BracketTracker
feed_kind none token t = t
feed_kind (some kind) token t =
    if out_of_range kind t.descriptions then t else feed_each kind token t.descriptions t

unfoldable pub feed : Node → BracketTracker → BracketTracker
feed token t = feed_kind token.kind token t

abbrev finish_stack : List (TokenKind × Node × Description) → BracketTracker → BracketTracker
finish_stack [] t = t
finish_stack ((kind, open_bracket, description) ∷ rest) t =
    add_error open_bracket.start t.range_end description.open_error t

unfoldable pub finish : BracketTracker → BracketTracker
finish t = finish_stack t.stack t

-- The tokens of a parser, one after the other.
unfoldable pub feed_all : List Node → BracketTracker → BracketTracker
feed_all [] t = t
feed_all (token ∷ tokens) t = feed_all tokens (feed token t)
