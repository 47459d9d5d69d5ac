-- ===== src/Parser/Utils/BracketTracker/Bounds.antt =====
-- aoba/parser/utils/bracket_tracker.cc: the test of the bounds in `Feed`.
use aoba.Prelude.{
  ℕ, ◌≤◌, min, max, Bool, true, false, ◌||◌, some, List, [], ◌∷◌, ◌≡◌, ◌⊎◌, inl, inr, refl, sym, ap,
  ◌∙◌, Bool-cases, if◌then◌else◌, arith, ltb,
}
use aoba.Ast.TokenKind.{TokenKind, kind_index}
use aoba.Parser.Utils.BracketTracker.{
  Description, Node, BracketTracker, ◌same_kind◌, compute_min, compute_max, front_open,
  out_of_range, feed_each, feed, feed_kind,
}

-- A description of the list has the kind for its opening or closing bracket.
abbrev describes : TokenKind → List Description → Bool
describes kind [] = false
describes kind (d ∷ ds) =
    kind same_kind d.open_kind || kind same_kind d.close_kind || describes kind ds

compute_min-le : (least : ℕ) (ds : List Description) → compute_min least ds ≤ least
unfolding compute_min
compute_min-le least [] = omega arith
compute_min-le least (d ∷ ds) =
    omega (
      arith,
      compute_min-le (min (min least (kind_index d.open_kind)) (kind_index d.close_kind)) ds,
    )

compute_max-le : (most : ℕ) (ds : List Description) → most ≤ compute_max most ds
unfolding compute_max
compute_max-le most [] = omega arith
compute_max-le most (d ∷ ds) =
    omega
      (arith, compute_max-le (max (max most (kind_index d.open_kind)) (kind_index d.close_kind)) ds)

-- What a description has lies within the bounds.
in_bounds :
    (kind : TokenKind) (least most : ℕ) (ds : List Description)
    → describes kind ds ≡ true
    → (compute_min least ds ≤ kind_index kind) × (kind_index kind ≤ compute_max most ds)
unfolding compute_min compute_max
in_bounds kind least most [] h = cc
in_bounds kind least most (d ∷ ds) h = ground (
  arith,
  compute_min-le (min (min least (kind_index d.open_kind)) (kind_index d.close_kind)) ds,
  compute_max-le (max (max most (kind_index d.open_kind)) (kind_index d.close_kind)) ds,
  in_bounds kind (min (min least (kind_index d.open_kind)) (kind_index d.close_kind))
      (max (max most (kind_index d.open_kind)) (kind_index d.close_kind)) ds,
)

feed_each_other :
    (kind : TokenKind) (token : Node) (ds : List Description) (t : BracketTracker)
    → describes kind ds ≡ false
    → feed_each kind token ds t ≡ t
unfolding feed_each
feed_each_other kind token [] t h = refl
feed_each_other kind token (d ∷ ds) t h = ground (arith, feed_each_other kind token ds t)

feed_each-bounded :
    (kind : TokenKind) (token : Node) (least most : ℕ) (ds : List Description) (t : BracketTracker)
    → (ltb (kind_index kind) (compute_min least ds) || ltb (compute_max most ds) (kind_index kind))
      ≡ true
    → feed_each kind token ds t ≡ t
feed_each-bounded kind token least most ds t h = elim (Bool-cases (describes kind ds)) [
  | inl described ↦ ground (arith, in_bounds kind least most ds described)
  | inr other ↦ feed_each_other kind token ds t other
]

-- The test of the bounds only saves time: for a punctuator, `Feed` does what its loop over all
-- the descriptions does.
pub feed-feed_each :
    (kind : TokenKind) (token : Node) (t : BracketTracker)
    → token.kind ≡ some kind
    → feed token t ≡ feed_each kind token t.descriptions t
unfolding feed out_of_range
feed-feed_each kind token t h =
    ap (λ o. feed_kind o token t) h
    ∙ bounds_redundant (Bool-cases (out_of_range kind t.descriptions))
  where
    bounds_redundant :
        (out_of_range kind t.descriptions ≡ true) ⊎ (out_of_range kind t.descriptions ≡ false)
        → (if out_of_range kind t.descriptions then t else feed_each kind token t.descriptions t)
          ≡ feed_each kind token t.descriptions t
    bounds_redundant (inl out) = rw out (
        sym (
          feed_each-bounded kind token (front_open t.descriptions) (front_open t.descriptions)
            t.descriptions t out))
    bounds_redundant (inr inside) = rw inside refl
