-- ===== src/Base/DoubleLinked/Refines.antt =====
-- aoba/base/double_linked.h: the list of nodes that a `DoubleLinked` stands for.
use mathlib.Core.Path.{subst}
use aoba.Prelude.{
  ℕ, true, some, none, List, [], ◌∷◌, ◌++◌, ◌≡◌, ◌≢◌, inl, inr, refl, sym, ap, ◌∙◌, arith,
  Bool-cases, ==_iff,
}
use aoba.Base.DoubleLinked.{Pointer, same, store, DoubleLinked, remove_node}

same-eq : (a b : Pointer) → same a b ≡ true → a ≡ b
unfolding same
same-eq none none h = refl
same-eq none (some b) h = absurd (ground (arith, h))
same-eq (some a) none h = absurd (ground (arith, h))
same-eq (some a) (some b) h = ap some ((==_iff a b).0 h)

same_refl : (a : Pointer) → same a a ≡ true
unfolding same
same_refl none = refl
same_refl (some a) = (==_iff a a).1 refl

pub store-at : (f : Pointer → Pointer) (a v : Pointer) → store f a v a ≡ v
unfolding store
store-at f a v = rw (same_refl a)

pub store-other : (f : Pointer → Pointer) (a v x : Pointer) → x ≢ a → store f a v x ≡ f x
unfolding store
store-other f a v x h = elim (Bool-cases (same x a)) [
  | inl e ↦ absurd (h (same-eq x a e))
  | inr e ↦ rw e
]

-- `b` follows `a`, in both directions.
abbrev pub Linked : DoubleLinked → Pointer → Pointer → Type 0
Linked h a b = (h.next a ≡ b) × (h.previous b ≡ a)

-- The nodes `xs` lie between `p` and `q`.
abbrev pub Walk : DoubleLinked → Pointer → List ℕ → Pointer → Type 0
Walk h p [] q = Linked h p q
Walk h p (x ∷ xs) q = Linked h p (some x) × Walk h (some x) xs q

abbrev pub NotIn : ℕ → List ℕ → Type 0
NotIn y [] = Unit {0}
NotIn y (x ∷ xs) = (y ≢ x) × NotIn y xs

abbrev pub Distinct : List ℕ → Type 0
Distinct [] = Unit {0}
Distinct (x ∷ xs) = NotIn x xs × Distinct xs

-- The list object stands for the nodes `xs`, in this order.
abbrev pub StandsFor : DoubleLinked → List ℕ → Type 0
StandsFor h xs = Walk h none xs none × Distinct xs

-- The nodes from `p` on, of which `e` is the last.
abbrev pub Open : DoubleLinked → Pointer → List ℕ → Pointer → Type 0
Open h p [] e = p ≡ e
Open h p (x ∷ xs) e = Linked h p (some x) × Open h (some x) xs e

some-inj : (x y : ℕ) → some x ≡ some y → x ≡ y
some-inj x y e = cc

pub some-ne : (x y : ℕ) → x ≢ y → some x ≢ some y
some-ne x y h e = h (some-inj x y e)

pub none-ne : (y : ℕ) → none ≢ some y
none-ne y e = cc

-- `Walk` at a node of it.
pub Walk-split :
    (h : DoubleLinked) (p q : Pointer) (xs zs : List ℕ) (y : ℕ)
    → Walk h p (xs ++ y ∷ zs) q
    → Open h p xs (h.previous (some y))
      × Linked h (h.previous (some y)) (some y)
      × Walk h (some y) zs q
Walk-split h p q [] zs y ((n, v), w) = (sym v, (ap h.next v ∙ n, refl), w)
Walk-split h p q (x ∷ xs) zs y (l, w) =
    let (o, m, v) = Walk-split h (some x) q xs zs y w in ((l, o), m, v)

pub Walk-append :
    (h : DoubleLinked) (p e q : Pointer) (xs zs : List ℕ)
    → Open h p xs e
    → Walk h e zs q
    → Walk h p (xs ++ zs) q
Walk-append h p e q [] zs o w = subst (λ a. Walk h a zs q) (sym o) w
Walk-append h p e q (x ∷ xs) zs (l, o) w = (l, Walk-append h (some x) e q xs zs o w)

Walk-first :
    (h : DoubleLinked) (p q : Pointer) (zs : List ℕ) → Walk h p zs q → Linked h p (h.next p)
Walk-first h p q [] (n, v) = (refl, ap h.previous n ∙ v)
Walk-first h p q (z ∷ zs) ((n, v), w) = (refl, ap h.previous n ∙ v)

Walk-next :
    (h : DoubleLinked) (p : Pointer) (zs : List ℕ) (y : ℕ)
    → Walk h p zs none
    → NotIn y zs
    → h.next p ≢ some y
Walk-next h p [] y (n, v) out s = none-ne y (sym n ∙ s)
Walk-next h p (z ∷ zs) y ((n, v), w) (ne, out) s = ne (sym (some-inj z y (sym n ∙ s)))

pub Open-last :
    (h : DoubleLinked) (p e : Pointer) (xs : List ℕ) (y : ℕ)
    → Open h p xs e
    → p ≢ some y
    → NotIn y xs
    → e ≢ some y
Open-last h p e [] y o n out = λ s. n (o ∙ s)
Open-last h p e (x ∷ xs) y (l, o) n (ne, out) =
    Open-last h (some x) e xs y o (some-ne x y (λ s. ne (sym s))) out

-- `k` keeps the links of `h` from a node of `P` to a node of `Q`.
abbrev pub Keeps : DoubleLinked → DoubleLinked → (Pointer → Type 0) → (Pointer → Type 0) → Type 0
Keeps h k P Q = (a b : Pointer) → Linked h a b → P a → Q b → Linked k a b

abbrev pub Every : (Pointer → Type 0) → List ℕ → Type 0
Every P [] = Unit {0}
Every P (x ∷ xs) = P (some x) × Every P xs

abbrev pub Not : ℕ → Pointer → Type 0
Not y a = a ≢ some y

abbrev pub Neither : ℕ → ℕ → Pointer → Type 0
Neither y z a = (a ≢ some y) × (a ≢ some z)

pub NotIn-Every : (y : ℕ) (xs : List ℕ) → NotIn y xs → Every (Not y) xs
NotIn-Every y [] out = tt
NotIn-Every y (x ∷ xs) (ne, out) = (some-ne x y (λ s. ne (sym s)), NotIn-Every y xs out)

pub Every-both : (y z : ℕ) (xs : List ℕ) → NotIn y xs → NotIn z xs → Every (Neither y z) xs
Every-both y z [] a b = tt
Every-both y z (x ∷ xs) (m, a) (n, b) =
    ((some-ne x y (λ s. m (sym s)), some-ne x z (λ s. n (sym s))), Every-both y z xs a b)

module _ (h k : DoubleLinked) (P Q : Pointer → Type 0) (keeps : Keeps h k P Q) where
  pub Open-keeps :
      (p e : Pointer) (xs : List ℕ) → P p → Every P xs → Every Q xs → Open h p xs e → Open k p xs e
  Open-keeps p e [] n ps qs o = o
  Open-keeps p e (x ∷ xs) n (px, ps) (qx, qs) (l, o) =
      (keeps p (some x) l n qx, Open-keeps (some x) e xs px ps qs o)

  pub Walk-keeps :
      (p : Pointer) (xs : List ℕ)
      → P p
      → Every P xs
      → Every Q xs
      → Q none
      → Walk h p xs none
      → Walk k p xs none
  Walk-keeps p [] n ps qs q l = keeps p none l n q
  Walk-keeps p (x ∷ xs) n (px, ps) (qx, qs) q (l, w) =
      (keeps p (some x) l n qx, Walk-keeps (some x) xs px ps qs q w)

pub NotIn-append : (y : ℕ) (xs zs : List ℕ) → NotIn y (xs ++ zs) → NotIn y xs × NotIn y zs
NotIn-append y [] zs h = (tt, h)
NotIn-append y (x ∷ xs) zs (n, h) = let (a, b) = NotIn-append y xs zs h in ((n, a), b)

NotIn-remove : (x y : ℕ) (xs zs : List ℕ) → NotIn x (xs ++ y ∷ zs) → (x ≢ y) × NotIn x (xs ++ zs)
NotIn-remove x y [] zs (n, h) = (n, h)
NotIn-remove x y (z ∷ xs) zs (n, h) = let (a, b) = NotIn-remove x y xs zs h in (a, (n, b))

pub Distinct-remove :
    (y : ℕ) (xs zs : List ℕ)
    → Distinct (xs ++ y ∷ zs)
    → NotIn y xs × NotIn y zs × Distinct (xs ++ zs)
Distinct-remove y [] zs (n, d) = (tt, n, d)
Distinct-remove y (x ∷ xs) zs (n, d) =
    let (a, b, c) = Distinct-remove y xs zs d in
    let (ne, m) = NotIn-remove x y xs zs n in (((λ s. ne (sym s)), a), b, (m, c))

-- The nodes behind `y`, with `e` in place of `y`.
Walk-relink :
    (h k : DoubleLinked) (y : ℕ) (e : Pointer) (zs : List ℕ)
    → Keeps h k (Not y) (Not y)
    → NotIn y zs
    → Walk h (some y) zs none
    → Linked k e (h.next (some y))
    → Walk k e zs none
Walk-relink h k y e [] keeps out (n, v) l = subst (λ q. Linked k e q) n l
Walk-relink h k y e (z ∷ zs) keeps (ne, out) ((n, v), w) l = (
  subst (λ q. Linked k e q) n l,
  Walk-keeps h k (Not y) (Not y) keeps (some z) zs (some-ne z y (λ s. ne (sym s)))
      (NotIn-Every y zs out) (NotIn-Every y zs out) (none-ne y) w,
)

module _ (h : DoubleLinked) (y : ℕ) (l : Linked h (h.previous (some y)) (some y))
    (m : Linked h (some y) (h.next (some y))) where
  remove_node-Keeps : Keeps h (remove_node y h) (Not y) (Not y)
  unfolding remove_node
  remove_node-Keeps a b (n, v) na nb =
      let e = h.previous (some y) in
      let q = h.next (some y) in
      (
        store-other (store h.next e q) (some y) none a na
            ∙ store-other h.next e q a (λ s. nb (sym n ∙ ap h.next s ∙ l.0))
            ∙ n,
        store-other (store h.previous q e) (some y) none b nb
            ∙ store-other h.previous q e b (λ s. na (sym v ∙ ap h.previous s ∙ m.1))
            ∙ v,
      )

  remove_node-Linked :
      h.previous (some y) ≢ some y
      → h.next (some y) ≢ some y
      → Linked (remove_node y h) (h.previous (some y)) (h.next (some y))
  unfolding remove_node
  remove_node-Linked ne nq =
      let e = h.previous (some y) in
      let q = h.next (some y) in
      (
        store-other (store h.next e q) (some y) none e ne ∙ store-at h.next e q,
        store-other (store h.previous q e) (some y) none q nq ∙ store-at h.previous q e,
      )

-- Where the list object stands for nodes with `y` among them, `RemoveNode` takes `y` from them,
-- and leaves the others in their order; `y` is then linked to no node.
pub remove_node-StandsFor :
    (h : DoubleLinked) (xs zs : List ℕ) (y : ℕ)
    → StandsFor h (xs ++ y ∷ zs)
    → StandsFor (remove_node y h) (xs ++ zs)
      × ((remove_node y h).next (some y) ≡ none)
      × ((remove_node y h).previous (some y) ≡ none)
unfolding remove_node
remove_node-StandsFor h xs zs y (w, d) =
    let e = h.previous (some y) in
    let q = h.next (some y) in
    let (o, l, v) = Walk-split h none none xs zs y w in
    let m = Walk-first h (some y) none zs v in
    let (out, out', d') = Distinct-remove y xs zs d in
    let keeps = remove_node-Keeps h y l m in
    let ne = Open-last h none e xs y o (none-ne y) out in
    (
      (
        Walk-append (remove_node y h) none e none xs zs
            (Open-keeps h (remove_node y h) (Not y) (Not y) keeps none e xs (none-ne y)
              (NotIn-Every y xs out) (NotIn-Every y xs out) o)
            (Walk-relink h (remove_node y h) y e zs keeps out' v
              (remove_node-Linked h y l m ne (Walk-next h (some y) zs y v out'))),
        d',
      ),
      store-at (store h.next e q) (some y) none,
      store-at (store h.previous q e) (some y) none,
    )
