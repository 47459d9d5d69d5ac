-- ===== src/Base/DoubleLinked/Insert.antt =====
-- aoba/base/double_linked.h: `InsertBefore` on the sequence of nodes.
use aoba.Prelude.{ℕ, some, none, List, [], ◌∷◌, ◌++◌, ◌≢◌, sym, ap, ◌∙◌}
use aoba.Base.DoubleLinked.{store, DoubleLinked, insert_before}
use aoba.Base.DoubleLinked.Refines.{
  Linked, NotIn, Distinct, StandsFor, Keeps, Not, Neither, NotIn-Every, Every-both, Open-keeps,
  Walk-keeps, NotIn-append, Distinct-remove, Walk-split, Walk-append, Open-last, store-at,
  store-other, some-ne, none-ne,
}

NotIn-insert : (x y : ℕ) (xs zs : List ℕ) → x ≢ y → NotIn x (xs ++ zs) → NotIn x (xs ++ y ∷ zs)
NotIn-insert x y [] zs ne h = (ne, h)
NotIn-insert x y (z ∷ xs) zs ne (n, h) = (n, NotIn-insert x y xs zs ne h)

pub Distinct-insert :
    (y : ℕ) (xs zs : List ℕ) → NotIn y (xs ++ zs) → Distinct (xs ++ zs) → Distinct (xs ++ y ∷ zs)
Distinct-insert y [] zs n d = (n, d)
Distinct-insert y (x ∷ xs) zs (ne, n) (m, d) =
    (NotIn-insert x y xs zs (λ s. ne (sym s)) m, Distinct-insert y xs zs n d)

module _ (h : DoubleLinked) (new ref : ℕ) (ne : new ≢ ref)
    (l : Linked h (h.previous (some ref)) (some ref)) where
  insert_before-Keeps : Keeps h (insert_before new (some ref) h) (Not new) (Neither new ref)
  unfolding insert_before
  insert_before-Keeps a b (n, v) na (nb, nr) =
      let e = h.previous (some ref) in
      (
        store-other (store h.next e (some new)) (some new) (some ref) a na
            ∙ store-other h.next e (some new) a (λ s. nr (sym n ∙ ap h.next s ∙ l.0))
            ∙ n,
        store-other (store h.previous (some new) e) (some ref) (some new) b nr
            ∙ store-other h.previous (some new) e b nb
            ∙ v,
      )

  insert_before-Linked :
      h.previous (some ref) ≢ some new
      → Linked (insert_before new (some ref) h) (h.previous (some ref)) (some new)
        × Linked (insert_before new (some ref) h) (some new) (some ref)
  unfolding insert_before
  insert_before-Linked apart =
      let e = h.previous (some ref) in
      (
        (
          store-other (store h.next e (some new)) (some new) (some ref) e apart
              ∙ store-at h.next e (some new),
          store-other (store h.previous (some new) e) (some ref) (some new) (some new)
                (some-ne new ref ne)
              ∙ store-at h.previous (some new) e,
        ),
        (
          store-at (store h.next e (some new)) (some new) (some ref),
          store-at (store h.previous (some new) e) (some ref) (some new),
        ),
      )

-- Where the list object stands for nodes with `ref` among them and without `new`, `InsertBefore`
-- puts `new` just ahead of `ref`, and leaves the others in their order.
pub insert_before-StandsFor :
    (h : DoubleLinked) (xs zs : List ℕ) (new ref : ℕ)
    → StandsFor h (xs ++ ref ∷ zs)
    → NotIn new (xs ++ ref ∷ zs)
    → StandsFor (insert_before new (some ref) h) (xs ++ new ∷ ref ∷ zs)
insert_before-StandsFor h xs zs new ref (w, d) fresh =
    let e = h.previous (some ref) in
    let k = insert_before new (some ref) h in
    let (o, l, v) = Walk-split h none none xs zs ref w in
    let (out, out', d') = Distinct-remove ref xs zs d in
    let (freshly, (ne, fresh')) = NotIn-append new xs (ref ∷ zs) fresh in
    let keeps = insert_before-Keeps h new ref ne l in
    let apart = Open-last h none e xs new o (none-ne new) freshly in
    let (first, second) = insert_before-Linked h new ref ne l apart in
    (
      Walk-append k none e none xs (new ∷ ref ∷ zs)
          (Open-keeps h k (Not new) (Neither new ref) keeps none e xs (none-ne new)
            (NotIn-Every new xs freshly) (Every-both new ref xs freshly out) o)
          (
            first,
            (
              second,
              Walk-keeps h k (Not new) (Neither new ref) keeps (some ref) zs
                  (some-ne ref new (λ s. ne (sym s))) (NotIn-Every new zs fresh')
                  (Every-both new ref zs fresh' out') (none-ne new, none-ne ref) v,
            ),
          ),
      Distinct-insert new xs (ref ∷ zs) fresh d,
    )
