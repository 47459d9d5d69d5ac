-- ===== src/Base/GraphSorter/Distinct.antt =====
-- aoba/base/graphs/graph_sorter.h: what a visit adds to the vector.
use aoba.Prelude.{
  ℕ, zero, suc, Bool, true, false, not, ◌&&◌, ◌||◌, List, [], ◌∷◌, ◌++◌, ◌≡◌, ◌⊎◌, inl, inr, refl,
  sym, ap, ◌∙◌, Bool-cases, if◌then◌else◌, arith, ◌==◌, reverse_onto, ==_iff,
}
use aoba.Base.GraphSorter.{
  Order, pre_order, post_order, Sorter, has, add, enter, leave, visit_each, visit, distinct, sort,
}

has-append : (y : ℕ) (xs ys : List ℕ) → has y (xs ++ ys) ≡ (has y xs || has y ys)
unfolding has
has-append y [] ys = refl
has-append y (x ∷ xs) ys = rw (has-append y xs ys) (sym (or_assoc (y == x) (has y xs) (has y ys)))
  where
    or_assoc : (a b c : Bool) → ((a || b) || c) ≡ (a || (b || c))
    or_assoc true b c = refl
    or_assoc false b c = refl

distinct-snoc :
    (xs : List ℕ) (x : ℕ) → distinct xs ≡ true → has x xs ≡ false → distinct (xs ++ (x ∷ [])) ≡ true
unfolding distinct has
distinct-snoc [] x h k = refl
distinct-snoc (y ∷ ys) x h k = ground (arith, distinct-snoc ys x, has-append y ys (x ∷ []))

-- What a visit does: it keeps what is visited, adds to the vector only what it visits, and keeps
-- the vector distinct.
pub record Grows (s t : Sorter) : Type 0 where
  pub seen : (y : ℕ) → has y s.visited ≡ true → has y t.visited ≡ true
  pub added :
      (y : ℕ)
      → has y t.vector ≡ true
      → (has y s.vector ≡ true) ⊎ ((has y s.visited ≡ false) × (has y t.visited ≡ true))
  pub keeps : distinct s.vector ≡ true → distinct t.vector ≡ true

-- Every node of the vector is visited.
abbrev pub IsVisited : Sorter → Type 0
IsVisited s = (y : ℕ) → has y s.vector ≡ true → has y s.visited ≡ true

Grows-refl : (s : Sorter) → Grows s s
Grows-refl s = record { seen = λ y h. h; added = λ y h. inl h; keeps = λ h. h }

Grows-IsVisited : (s t : Sorter) → Grows s t → IsVisited s → IsVisited t
Grows-IsVisited s t g v y h = elim (g.added y h) [ inl old ↦ g.seen y (v y old) | inr new ↦ new.1 ]

Grows-trans : (s t u : Sorter) → Grows s t → Grows t u → Grows s u
Grows-trans s t u g k = record {
  seen = λ y h. k.seen y (g.seen y h);
  added = λ y h. elim (k.added y h) [
    | inl middle ↦ elim (g.added y middle) [
      | inl old ↦ inl old
      | inr new ↦ inr (new.0, k.seen y new.1)
    ]
    | inr new ↦ elim (Bool-cases (has y s.visited)) [
      | inl before ↦ ground (arith, g.seen y before, new.0)
      | inr fresh ↦ inr (fresh, new.1)
    ]
  ];
  keeps = λ h. k.keeps (g.keeps h);
}

has_cons : (y x : ℕ) (xs : List ℕ) → has y xs ≡ true → has y (x ∷ xs) ≡ true
unfolding has
has_cons y x xs h = ground arith

has_self : (x : ℕ) (xs : List ℕ) → has x (x ∷ xs) ≡ true
unfolding has
has_self x xs = ground arith

has_last : (y x : ℕ) (xs : List ℕ) → has y (xs ++ (x ∷ [])) ≡ true → (has y xs ≡ true) ⊎ (y ≡ x)
unfolding has
has_last y x xs h = ground (arith, has-append y xs (x ∷ []))

not_in_vector :
    (s : Sorter) (x : ℕ) → IsVisited s → has x s.visited ≡ false → has x s.vector ≡ false
not_in_vector s x v fresh = elim (Bool-cases (has x s.vector)) [
  | inl within_vector ↦ ground (arith, v x within_vector, fresh)
  | inr outside ↦ outside
]

-- A node that is added to the vector was not visited before.
add-Grows :
    (s t : Sorter) (x : ℕ)
    → Grows s t
    → has x s.visited ≡ false
    → has x t.visited ≡ true
    → has x t.vector ≡ false
    → Grows s (add x t)
add-Grows s t x g fresh visited new = record {
  seen = g.seen;
  added = λ y h. elim (has_last y x t.vector h) [
    | inl before ↦ g.added y before
    | inr same ↦
        inr (ap (λ z. has z s.visited) same ∙ fresh, ap (λ z. has z t.visited) same ∙ visited)
  ];
  keeps = λ h. distinct-snoc t.vector x (g.keeps h) new;
}

marked-Grows : (s : Sorter) (x : ℕ) → Grows s (record s { visited = x ∷ s.visited })
marked-Grows s x = record {
  seen = λ y h. has_cons y x s.visited h;
  added = λ y h. inl h;
  keeps = λ h. h;
}

visit_each-Grows :
    (visit_one : ℕ → Sorter → Sorter) (xs : List ℕ) (s : Sorter)
    → ((x : ℕ) (t : Sorter) → IsVisited t → Grows t (visit_one x t))
    → IsVisited s
    → Grows s (visit_each visit_one xs s)
unfolding visit_each
visit_each-Grows visit_one [] s one v = Grows-refl s
visit_each-Grows visit_one (x ∷ xs) s one v = Grows-trans s (visit_one x s) _ (one x s v) (
    visit_each-Grows visit_one xs (visit_one x s) one
      (Grows-IsVisited s (visit_one x s) (one x s v) v))

enter-Grows :
    (order : Order) (x : ℕ) (s : Sorter)
    → has x s.visited ≡ false
    → IsVisited s
    → Grows s (enter order x s)
enter-Grows pre_order x s fresh v =
    add-Grows s (record s { visited = x ∷ s.visited }) x (marked-Grows s x) fresh
      (has_self x s.visited) (not_in_vector s x v fresh)
enter-Grows post_order x s fresh v = marked-Grows s x

leave-Grows :
    (order : Order) (x : ℕ) (s t : Sorter)
    → has x s.visited ≡ false
    → IsVisited s
    → Grows (enter order x s) t
    → Grows s (leave order x t)
leave-Grows pre_order x s t fresh v g =
    Grows-trans s (enter pre_order x s) t (enter-Grows pre_order x s fresh v) g
leave-Grows post_order x s t fresh v g =
    add-Grows s t x (Grows-trans s (enter post_order x s) t (marked-Grows s x) g) fresh
      (g.seen x (has_self x s.visited))
      (elim (Bool-cases (has x t.vector)) [
        | inl within_vector ↦ elim (g.added x within_vector) [
          | inl old ↦ ground (arith, v x old, fresh)
          | inr new ↦ ground (arith, has_self x s.visited, new.0)
        ]
        | inr outside ↦ outside
      ])

visit-Grows :
    (n : ℕ) (order : Order) (successors : ℕ → List ℕ) (x : ℕ) (s : Sorter)
    → IsVisited s
    → Grows s (visit n order successors x s)
unfolding visit
visit-Grows zero order successors x s v = Grows-refl s
visit-Grows (suc n) order successors x s v = elim (Bool-cases (has x s.visited)) [
  | inl before ↦ rw before (Grows-refl s)
  | inr fresh ↦ rw fresh (
      leave-Grows order x s _ fresh v (
        visit_each-Grows (visit n order successors) (successors x) (enter order x s)
          (visit-Grows n order successors)
          (Grows-IsVisited s (enter order x s) (enter-Grows order x s fresh v) v)))
]

reverse-distinct :
    (xs ys : List ℕ)
    → distinct xs ≡ true
    → distinct ys ≡ true
    → ((y : ℕ) → has y xs ≡ true → has y ys ≡ false)
    → distinct (reverse_onto xs ys) ≡ true
unfolding distinct has
reverse-distinct [] ys h k apart = k
reverse-distinct (x ∷ xs) ys h k apart =
    reverse-distinct xs (x ∷ ys) (rest_distinct (has x xs) (distinct xs) h)
      (new_distinct (has x ys) (apart x (has_self x xs)))
      (λ y within_rest. elim (Bool-cases (y == x)) [
        | inl same ↦ ground (arith, within_rest, h, ap (λ z. has z xs) ((==_iff y x).0 same))
        | inr other ↦ ground (arith, other, apart y (has_cons y x xs within_rest))
      ])
  where
    rest_distinct : (a b : Bool) → (not a && b) ≡ true → b ≡ true
    rest_distinct a b e = ground arith

    new_distinct : (a : Bool) → a ≡ false → (not a && distinct ys) ≡ true
    new_distinct a e = rw (e, k) refl

if-distinct :
    (b : Bool) (v : List ℕ)
    → distinct v ≡ true
    → distinct (if b then reverse_onto v [] else v) ≡ true
unfolding distinct has
if-distinct true v h = reverse-distinct v [] h refl (λ y within_it. refl)
if-distinct false v h = h

-- On any fuel and in each of the four orders, `Sort` lists no node twice.
pub sort-distinct :
    (fuel : ℕ) (order : Order) (reversed : Bool) (successors : ℕ → List ℕ) (entry : ℕ)
    → distinct (sort fuel order reversed successors entry) ≡ true
unfolding sort distinct has
sort-distinct fuel order reversed successors entry =
    let s = visit fuel order successors entry (record { visited = []; vector = [] }) in
    if-distinct reversed s.vector (
      (visit-Grows fuel order successors entry (record { visited = []; vector = [] })
          none_yet).keeps
        empty_distinct)
  where
    none_yet : IsVisited (record { visited = []; vector = [] })
    none_yet y h = h

    empty_distinct : distinct [] ≡ true
    empty_distinct = refl
