-- ===== src/Base/GraphSorter.antt =====
-- aoba/base/graphs/graph_sorter.h: the depth-first orders of a graph. A node is a number, and
-- `successors` is `Direction::SuccessorsOf`.
pub mod Distinct
use aoba.Prelude.{
  ℕ, zero, suc, ◌+◌, ◌-◌, ◌*◌, ◌/◌, ◌%◌, ◌^◌, ◌≤◌, ◌<◌, min, max, Bool, true, false, not, ◌&&◌,
  ◌||◌, Option, some, none, List, [], ◌∷◌, ◌++◌, ◌≡◌, ◌≢◌, ◌↔◌, ◌⊎◌, inl, inr, refl, sym, ap, ◌∙◌,
  length, take, drop, length-append, append_assoc, append-nil, Bool-cases, if◌then◌else◌, arith,
  ltb, leb, ◌==◌, within, take_while, drop_while, All, reverse_onto, ==_iff, leb→le, ltb→lt, le→leb,
  lt→ltb, get_elem?,
}

pub data Order : Type 0 where
  pre_order post_order : Order

-- `visited_`, and the vector of the builder.
pub record Sorter : Type 0 where
  pub visited : List ℕ
  pub vector : List ℕ

-- `visited_.count(node)`.
unfoldable pub has : ℕ → List ℕ → Bool
has node [] = false
has node (x ∷ xs) = node == x || has node xs

abbrev pub add : ℕ → Sorter → Sorter
add node s = record s { vector = s.vector ++ (node ∷ []) }

abbrev pub enter : Order → ℕ → Sorter → Sorter
enter pre_order node s = add node (record s { visited = node ∷ s.visited })
enter post_order node s = record s { visited = node ∷ s.visited }

abbrev pub leave : Order → ℕ → Sorter → Sorter
leave pre_order node s = s
leave post_order node s = add node s

-- The loop over the successors.
unfoldable pub visit_each : (ℕ → Sorter → Sorter) → List ℕ → Sorter → Sorter
visit_each visit_one [] s = s
visit_each visit_one (x ∷ xs) s = visit_each visit_one xs (visit_one x s)

-- `Visit`, on fuel for its depth.
unfoldable pub visit : ℕ → Order → (ℕ → List ℕ) → ℕ → Sorter → Sorter
visit zero order successors node s = s
visit (suc n) order successors node s =
    let after = visit_each (visit n order successors) (successors node) (enter order node s) in
    if has node s.visited then s else leave order node after

-- No node is twice in a list, as the `DCHECK` of `OrderedList::Builder::Get` wants it.
unfoldable pub distinct : List ℕ → Bool
distinct [] = true
distinct (x ∷ xs) = not (has x xs) && distinct xs

-- `Sort`, with the fuel for `Visit`.
unfoldable pub sort : ℕ → Order → Bool → (ℕ → List ℕ) → ℕ → List ℕ
sort fuel order reversed successors entry =
    let s = visit fuel order successors entry (record { visited = []; vector = [] }) in
    if reversed then reverse_onto s.vector [] else s.vector
