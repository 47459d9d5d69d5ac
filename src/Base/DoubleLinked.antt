-- ===== src/Base/DoubleLinked.antt =====
-- aoba/base/double_linked.h: `DoubleLinked`, with its nodes at addresses. `none` stands for the list
-- object itself: `next none` is `first_`, `previous none` is `last_`, so that a null pointer is the
-- address of the list.
pub mod Refines
pub mod Loops
pub mod Insert
pub mod Append
use aoba.Prelude.{
  ℕ, zero, suc, ◌+◌, Bool, true, false, Option, some, none, ◌≡◌, ◌≢◌, ◌==◌, if◌then◌else◌,
}

abbrev pub Pointer : Type 0
Pointer = Option ℕ

unfoldable pub same : Pointer → Pointer → Bool
same none none = true
same none (some b) = false
same (some a) none = false
same (some a) (some b) = a == b

unfoldable pub store : (Pointer → Pointer) → Pointer → Pointer → Pointer → Pointer
store f a v x = if same x a then v else f x

pub record DoubleLinked : Type 0 where
  pub next : Pointer → Pointer
  pub previous : Pointer → Pointer

abbrev pub set_next : Pointer → Pointer → DoubleLinked → DoubleLinked
set_next a v h = record h { next = store h.next a v }

abbrev pub set_previous : Pointer → Pointer → DoubleLinked → DoubleLinked
set_previous a v h = record h { previous = store h.previous a v }

abbrev pub first : DoubleLinked → Pointer
first h = h.next none

abbrev pub last : DoubleLinked → Pointer
last h = h.previous none

abbrev pub if_null : Pointer → DoubleLinked → DoubleLinked → DoubleLinked
if_null none h k = h
if_null (some a) h k = k

-- `AppendNode`.
unfoldable pub append_node : ℕ → DoubleLinked → DoubleLinked
append_node new h =
    let a = set_previous (some new) (last h) (set_next (some new) none h) in
    let b = if_null (first a) (set_next none (some new) a) a in
    let c = if_null (last b) b (set_next (last b) (some new) b) in set_previous none (some new) c

-- `PrependNode`.
unfoldable pub prepend_node : ℕ → DoubleLinked → DoubleLinked
prepend_node new h =
    let a = set_previous (some new) none (set_next (some new) (first h) h) in
    let b = if_null (last a) (set_previous none (some new) a) a in
    let c = if_null (first b) b (set_previous (first b) (some new) b) in set_next none (some new) c

-- `InsertBefore`.
unfoldable pub insert_before : ℕ → Pointer → DoubleLinked → DoubleLinked
insert_before new none h = append_node new h
insert_before new (some ref) h =
    let previous = h.previous (some ref) in
    set_previous (some ref) (some new) (
      set_previous (some new) previous
        (set_next (some new) (some ref) (set_next previous (some new) h)))

-- `InsertAfter`.
unfoldable pub insert_after : ℕ → Pointer → DoubleLinked → DoubleLinked
insert_after new none h = prepend_node new h
insert_after new (some ref) h =
    let next = h.next (some ref) in
    set_next (some ref) (some new) (
      set_previous (some new) (some ref)
        (set_next (some new) next (set_previous next (some new) h)))

-- `RemoveNode`.
unfoldable pub remove_node : ℕ → DoubleLinked → DoubleLinked
remove_node old h =
    let next = h.next (some old) in
    let previous = h.previous (some old) in
    set_previous (some old) none
      (set_next (some old) none (set_next previous next (set_previous next previous h)))

-- `ReplaceNode`.
unfoldable pub replace_node : ℕ → ℕ → DoubleLinked → DoubleLinked
replace_node new old h =
    let next = h.next (some old) in
    let previous = h.previous (some old) in
    let cleared = set_previous (some old) none (set_next (some old) none h) in
    set_previous (some new) previous (
      set_next previous (some new)
        (set_next (some new) next (set_previous next (some new) cleared)))

abbrev pub remove_first : (DoubleLinked → DoubleLinked) → Pointer → DoubleLinked → DoubleLinked
remove_first loop none h = h
remove_first loop (some node) h = loop (remove_node node h)

-- `RemoveAll`, on fuel for the nodes.
unfoldable pub remove_all : ℕ → DoubleLinked → DoubleLinked
remove_all zero h = h
remove_all (suc k) h = remove_first (remove_all k) (first h) h

abbrev pub count_on : (Pointer → ℕ) → Pointer → DoubleLinked → ℕ
count_on loop none h = 0
count_on loop (some node) h = suc (loop (h.next (some node)))

-- The loop of `Count`, from the node `it`, on fuel for the nodes. The counter is an `int`, whose
-- overflow, undefined in C++, needs more nodes than a list of 32-bit length; it is not modelled.
unfoldable pub count_from : ℕ → Pointer → DoubleLinked → ℕ
count_from zero it h = 0
count_from (suc k) it h = count_on (λ p. count_from k p h) it h
