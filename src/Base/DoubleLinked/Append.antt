-- ===== src/Base/DoubleLinked/Append.antt =====
-- aoba/base/double_linked.h: `AppendNode` on the sequence of nodes.
use aoba.Prelude.{ℕ, some, none, List, [], ◌∷◌, ◌++◌, ◌≡◌, ◌≢◌, refl, sym, ap, ◌∙◌, append-nil}
use mathlib.Core.Path.{subst}
use aoba.Base.DoubleLinked.{DoubleLinked, Pointer, store, same, append_node, first, last}
use aoba.Base.DoubleLinked.Insert.{Distinct-insert}
use aoba.Base.DoubleLinked.Refines.{
  StandsFor, Walk, Linked, NotIn, Distinct, Open, Keeps, Not, Every, NotIn-Every, Open-keeps,
  Open-last, Walk-append, store-at, store-other, none-ne, some-ne,
}

-- The last node of a walk to `q`.
Walk-last :
    (h : DoubleLinked) (p q : Pointer) (xs : List ℕ)
    → Walk h p xs q
    → Open h p xs (h.previous q) × Linked h (h.previous q) q
Walk-last h p q [] (n, v) = (sym v, (ap h.next v ∙ n, refl))
Walk-last h p q (x ∷ xs) (l, w) = let (o, m) = Walk-last h (some x) q xs w in ((l, o), m)

appended : ℕ → DoubleLinked → DoubleLinked
appended new h = record {
  next = store (store h.next (some new) none) (last h) (some new);
  previous = store (store h.previous (some new) (last h)) none (some new);
}

module _ (h : DoubleLinked) (new : ℕ) where
  append_node-empty : first h ≡ none → last h ≡ none → append_node new h ≡ appended new h
  unfolding append_node appended store same
  append_node-empty f l = rw (f, l)

  append_node-some :
      (a b : ℕ) → first h ≡ some a → last h ≡ some b → append_node new h ≡ appended new h
  unfolding append_node appended store same
  append_node-some a b f l = rw (f, l)

Walk-some :
    (h : DoubleLinked) (x : ℕ) (xs : List ℕ) → Walk h (some x) xs none → (b : ℕ) × (last h ≡ some b)
Walk-some h x [] (n, v) = (x, v)
Walk-some h x (y ∷ ys) (l, w) = Walk-some h y ys w

append_node-appended :
    (h : DoubleLinked) (xs : List ℕ) (new : ℕ)
    → Walk h none xs none
    → append_node new h ≡ appended new h
append_node-appended h [] new (n, v) = append_node-empty h new n v
append_node-appended h (x ∷ xs) new ((n, v), w) =
    let (b, e) = Walk-some h x xs w in append_node-some h new x b n e

abbrev Other : ℕ → Pointer → Type 0
Other new b = (b ≢ some new) × (b ≢ none)

NotIn-Other : (new : ℕ) (xs : List ℕ) → NotIn new xs → Every (Other new) xs
NotIn-Other new [] out = tt
NotIn-Other new (x ∷ xs) (ne, out) =
    ((some-ne x new (λ s. ne (sym s)), (λ s. none-ne x (sym s))), NotIn-Other new xs out)

module _ (h : DoubleLinked) (new : ℕ) (l : Linked h (last h) none) where
  appended-Keeps : Keeps h (appended new h) (Not new) (Other new)
  unfolding appended
  appended-Keeps a b (n, v) na (nb, nn) = (
    store-other (store h.next (some new) none) (last h) (some new) a
          (λ s. nn (sym n ∙ ap h.next s ∙ l.0))
        ∙ store-other h.next (some new) none a na
        ∙ n,
    store-other (store h.previous (some new) (last h)) none (some new) b nn
        ∙ store-other h.previous (some new) (last h) b nb
        ∙ v,
  )

  appended-Linked :
      last h ≢ some new
      → Linked (appended new h) (last h) (some new) × Linked (appended new h) (some new) none
  unfolding appended
  appended-Linked apart = (
    (
      store-at (store h.next (some new) none) (last h) (some new),
      store-other (store h.previous (some new) (last h)) none (some new) (some new)
            (λ s. none-ne new (sym s))
          ∙ store-at h.previous (some new) (last h),
    ),
    (
      store-other (store h.next (some new) none) (last h) (some new) (some new) (λ s. apart (sym s))
          ∙ store-at h.next (some new) none,
      store-at (store h.previous (some new) (last h)) none (some new),
    ),
  )

-- Where the list object stands for nodes without `new`, `AppendNode` puts `new` behind them.
pub append_node-StandsFor :
    (h : DoubleLinked) (xs : List ℕ) (new : ℕ)
    → StandsFor h xs
    → NotIn new xs
    → StandsFor (append_node new h) (xs ++ new ∷ [])
append_node-StandsFor h xs new (w, d) fresh =
    let k = appended new h in
    let (o, l) = Walk-last h none none xs w in
    let apart = Open-last h none (last h) xs new o (none-ne new) fresh in
    let links = appended-Linked h new l apart in
    subst (λ g. StandsFor g (xs ++ new ∷ [])) (sym (append_node-appended h xs new w))
      (
        Walk-append k none (last h) none xs (new ∷ [])
            (Open-keeps h k (Not new) (Other new) (appended-Keeps h new l) none (last h) xs
              (none-ne new) (NotIn-Every new xs fresh) (NotIn-Other new xs fresh) o)
            links,
        Distinct-insert new xs [] (subst (NotIn new) (sym (append-nil xs)) fresh)
            (subst Distinct (sym (append-nil xs)) d),
      )
