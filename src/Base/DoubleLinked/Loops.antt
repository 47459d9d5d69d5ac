-- ===== src/Base/DoubleLinked/Loops.antt =====
-- aoba/base/double_linked.h: the loops of `RemoveAll` and `Count`.
use aoba.Prelude.{ℕ, zero, suc, ◌≤◌, some, none, List, [], ◌∷◌, ◌≡◌, refl, ap, length, arith}
use aoba.Base.DoubleLinked.{DoubleLinked, Pointer, remove_node, remove_all, count_from, first}
use aoba.Base.DoubleLinked.Refines.{StandsFor, Walk, remove_node-StandsFor}

-- `RemoveAll` ends after as many rounds as there are nodes, and leaves the empty list.
pub remove_all-StandsFor :
    (k : ℕ) (h : DoubleLinked) (xs : List ℕ)
    → StandsFor h xs
    → length xs ≤ k
    → StandsFor (remove_all k h) []
unfolding remove_all
remove_all-StandsFor zero h [] s le = s
remove_all-StandsFor zero h (x ∷ xs) s le = absurd (omega (arith, le))
remove_all-StandsFor (suc k) h [] ((n, v), d) le = rw n ((n, v), d)
remove_all-StandsFor (suc k) h (x ∷ xs) (((n, v), w), d) le = rw n (
    remove_all-StandsFor k (remove_node x h) xs (remove_node-StandsFor h [] xs x (((n, v), w), d)).0
      (omega (arith, le)))

count_from-Walk :
    (k : ℕ) (h : DoubleLinked) (p : Pointer) (xs : List ℕ)
    → Walk h p xs none
    → length xs ≤ k
    → count_from k (h.next p) h ≡ length xs
unfolding count_from
count_from-Walk zero h p [] w le = refl
count_from-Walk zero h p (x ∷ xs) w le = absurd (omega (arith, le))
count_from-Walk (suc k) h p [] (n, v) le = rw n
count_from-Walk (suc k) h p (x ∷ xs) ((n, v), w) le =
    rw n (ap suc (count_from-Walk k h (some x) xs w (omega (arith, le))))

-- `Count` ends after as many rounds as there are nodes, and returns their number.
pub count_from-StandsFor :
    (k : ℕ) (h : DoubleLinked) (xs : List ℕ)
    → StandsFor h xs
    → length xs ≤ k
    → count_from k (first h) h ≡ length xs
count_from-StandsFor k h xs (w, d) le = count_from-Walk k h none xs w le
