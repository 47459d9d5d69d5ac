-- ===== src/Base/Tests.antt =====
-- Runs of the modules of aoba/base, and their theorems at concrete inputs.
use aoba.Prelude.{
  none, ℕ, true, false, ◌||◌, some, List, [], ◌∷◌, ◌≡◌, refl, if◌then◌else◌, arith, ◌==◌,
}
use aoba.Ast.TokenKind.{codes}
use aoba.Base.DoubleLinked.{
  append_node, remove_all, count_from, first, Pointer, DoubleLinked, remove_node, insert_before,
}
use aoba.Base.DoubleLinked.Loops.{remove_all-StandsFor, count_from-StandsFor}
use aoba.Base.DoubleLinked.Append.{append_node-StandsFor}
use aoba.Base.DoubleLinked.Insert.{insert_before-StandsFor}
use aoba.Base.DoubleLinked.Refines.{StandsFor, remove_node-StandsFor}
use aoba.Base.EscapedStringPiece.{
  EscapedStringPiece, IsPrintableText, write, write_chars, write_char, write-IsPrintable,
}
use aoba.Base.GraphSorter.{pre_order, post_order, sort, visit, visit_each, has, distinct}
use aoba.Base.GraphSorter.Distinct.{sort-distinct}
use aoba.Base.SourceCodeRange.{
  SourceCode, SourceCodeRange, IsValid, Covers, slice, merge, contains, is_collapsed,
  collapse_to_end, collapse_to_start, merge_least, collapse_empty,
}
use aoba.Base.Zone.{
  Address, Zone, Allocates, allocate, new_zone, allocate-Allocates, new_zone-IsValid,
}
use aoba.Base.LineNumberCache.{new_cache, get, LineNumberCache}
use aoba.Base.LineNumberCache.Positions.{position, IsCached, get-position, new_cache-IsCached}

abbrev three_lines : List ℕ
three_lines = codes "ab\nc\n\nd"

abbrev scanned : LineNumberCache
scanned = (get 4 (new_cache three_lines)).1

scanned-IsCached : IsCached scanned
scanned-IsCached =
    (get-position 4 (new_cache three_lines) (omega arith) (new_cache-IsCached three_lines)).1

get-position_example :
    ((get 6 (new_cache three_lines)).0 ≡ position three_lines 6 1 0)
    × IsCached (get 6 (new_cache three_lines)).1
    × ((get 6 (new_cache three_lines)).1.source_code ≡ three_lines)
get-position_example =
    get-position 6 (new_cache three_lines) (omega arith) (new_cache-IsCached three_lines)

abbrev some_code : SourceCode
some_code = record { id = 1; size = 20 }

abbrev first_range : SourceCodeRange
first_range = slice some_code 2 5

abbrev second_range : SourceCodeRange
second_range = slice some_code 4 9

first_range-IsValid : IsValid first_range
first_range-IsValid = record { ordered = omega arith; within_source = omega arith }

second_range-IsValid : IsValid second_range
second_range-IsValid = record { ordered = omega arith; within_source = omega arith }

merge_least_example :
    IsValid (merge first_range second_range)
    × Covers (merge first_range second_range) first_range
    × Covers (merge first_range second_range) second_range
    × ((offset : ℕ)
        → (contains first_range offset || contains second_range offset) ≡ true
        → contains (merge first_range second_range) offset ≡ true)
    × ((outer : SourceCodeRange)
        → Covers outer first_range
        → Covers outer second_range
        → Covers outer (merge first_range second_range))
merge_least_example =
    merge_least first_range second_range first_range-IsValid second_range-IsValid refl

collapse_empty_example :
    IsValid (collapse_to_end first_range)
    × IsValid (collapse_to_start first_range)
    × ((collapse_to_end first_range).start ≡ first_range.end)
    × ((collapse_to_start first_range).start ≡ first_range.start)
    × ((collapse_to_end first_range).source_code ≡ first_range.source_code)
    × ((collapse_to_start first_range).source_code ≡ first_range.source_code)
    × (is_collapsed (collapse_to_end first_range) ≡ true)
    × (is_collapsed (collapse_to_start first_range) ≡ true)
    × ((offset : ℕ)
        → (contains (collapse_to_end first_range) offset
            || contains (collapse_to_start first_range) offset)
          ≡ false)
collapse_empty_example = collapse_empty first_range first_range-IsValid

allocate-Allocates_example :
    (address : Address) × (z : Zone) × (allocate 100 new_zone ≡ (some address, z))
    × Allocates 100 new_zone address z
allocate-Allocates_example = allocate-Allocates 100 new_zone (omega arith) new_zone-IsValid

abbrev newline_and_quote : EscapedStringPiece
newline_and_quote = record { text = codes "a\n'"; delimiter = b'\''; max_length = 9 }

written_with_escapes : write newline_and_quote ≡ codes "'a\\n\\''"
unfolding write write_chars write_char
written_with_escapes = refl

write-IsPrintable_example : IsPrintableText (write newline_and_quote)
write-IsPrintable_example = write-IsPrintable newline_and_quote (omega arith, omega arith)

-- The edges 1 to 2, 1 to 3, 2 to 3 and 3 to 1.
abbrev triangle : ℕ → List ℕ
triangle node = if node == 1 then 2 ∷ 3 ∷ [] else if node == 2 then 3 ∷ [] else 1 ∷ []

orders_of_a_triangle :
    (sort 4 pre_order false triangle 1 ≡ 1 ∷ 2 ∷ 3 ∷ [])
    × (sort 4 post_order true triangle 1 ≡ 1 ∷ 2 ∷ 3 ∷ [])
    × (sort 4 post_order false triangle 1 ≡ 3 ∷ 2 ∷ 1 ∷ [])
unfolding sort visit visit_each has
orders_of_a_triangle = (refl, refl, refl)

sort-distinct_example : distinct (sort 4 post_order true triangle 1) ≡ true
sort-distinct_example = sort-distinct 4 post_order true triangle 1

-- The list of the nodes 5 and 7.
next_of : Pointer → Pointer
next_of none = some 5
next_of (some a) = if a == 5 then some 7 else none

previous_of : Pointer → Pointer
previous_of none = some 7
previous_of (some a) = if a == 7 then some 5 else none

abbrev two_nodes : DoubleLinked
two_nodes = record { next = next_of; previous = previous_of }

two_nodes-StandsFor : StandsFor two_nodes (5 ∷ 7 ∷ [])
unfolding next_of previous_of
two_nodes-StandsFor = (
  ((refl, refl), ((refl, refl), (refl, refl))),
  (((λ e. absurd (omega (arith, e))), tt), (tt, tt)),
)

remove_node-StandsFor_example :
    StandsFor (remove_node 5 two_nodes) (7 ∷ [])
    × ((remove_node 5 two_nodes).next (some 5) ≡ none)
    × ((remove_node 5 two_nodes).previous (some 5) ≡ none)
remove_node-StandsFor_example = remove_node-StandsFor two_nodes [] (7 ∷ []) 5 two_nodes-StandsFor

insert_before-StandsFor_example : StandsFor (insert_before 6 (some 7) two_nodes) (5 ∷ 6 ∷ 7 ∷ [])
insert_before-StandsFor_example =
    insert_before-StandsFor two_nodes (5 ∷ []) [] 6 7 two_nodes-StandsFor
      ((λ e. absurd (omega (arith, e))), ((λ e. absurd (omega (arith, e))), tt))

remove_all-StandsFor_example : StandsFor (remove_all 2 two_nodes) []
remove_all-StandsFor_example =
    remove_all-StandsFor 2 two_nodes (5 ∷ 7 ∷ []) two_nodes-StandsFor (omega arith)

count_from-StandsFor_example : count_from 2 (first two_nodes) two_nodes ≡ 2
count_from-StandsFor_example =
    count_from-StandsFor 2 two_nodes (5 ∷ 7 ∷ []) two_nodes-StandsFor (omega arith)

append_node-StandsFor_example : StandsFor (append_node 9 two_nodes) (5 ∷ 7 ∷ 9 ∷ [])
append_node-StandsFor_example =
    append_node-StandsFor two_nodes (5 ∷ 7 ∷ []) 9 two_nodes-StandsFor
      ((λ e. absurd (omega (arith, e))), ((λ e. absurd (omega (arith, e))), tt))
