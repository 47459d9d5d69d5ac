-- ===== src/Base/SourceCodeRange.antt =====
-- aoba/base/source_code_range.{h,cc}: a half-open range of offsets in a source code. A source code
-- is an identity and a size; the `DCHECK`s of the constructor are `IsValid`.
use aoba.Prelude.{
  ℕ, ◌≤◌, min, max, Bool, true, false, ◌&&◌, ◌||◌, ◌≡◌, refl, ap, arith, ltb, leb, ◌==◌,
}

pub record SourceCode : Type 0 where
  pub id : ℕ
  pub size : ℕ

pub record SourceCodeRange : Type 0 where
  pub source_code : SourceCode
  pub start : ℕ
  pub end : ℕ

-- The `DCHECK`s of the constructor.
pub record IsValid (range : SourceCodeRange) : Type 0 where
  pub ordered : range.start ≤ range.end
  pub within_source : range.end ≤ range.source_code.size

-- `SourceCode::Slice`.
abbrev pub slice : SourceCode → ℕ → ℕ → SourceCodeRange
slice source_code start end = record { source_code = source_code; start = start; end = end }

-- `operator==`; the source codes are compared by their addresses.
unfoldable pub equals : SourceCodeRange → SourceCodeRange → Bool
equals a b = a.source_code.id == b.source_code.id && a.start == b.start && a.end == b.end

unfoldable pub contains : SourceCodeRange → ℕ → Bool
contains range offset = leb range.start offset && ltb offset range.end

unfoldable pub is_collapsed : SourceCodeRange → Bool
is_collapsed range = range.start == range.end

unfoldable pub collapse_to_end : SourceCodeRange → SourceCodeRange
collapse_to_end range = slice range.source_code range.end range.end

unfoldable pub collapse_to_start : SourceCodeRange → SourceCodeRange
collapse_to_start range = slice range.source_code range.start range.start

unfoldable pub merge : SourceCodeRange → SourceCodeRange → SourceCodeRange
merge a b = slice a.source_code (min a.start b.start) (max a.end b.end)

-- `outer` covers `inner`.
pub record Covers (outer inner : SourceCodeRange) : Type 0 where
  pub from : outer.start ≤ inner.start
  pub to : inner.end ≤ outer.end

-- `Merge` of two valid ranges of one source code is valid, covers both, contains each offset that
-- either contains, and every range that covers both covers it.
pub merge_least :
    (a b : SourceCodeRange)
    → IsValid a
    → IsValid b
    → b.source_code ≡ a.source_code
    → IsValid (merge a b)
      × Covers (merge a b) a
      × Covers (merge a b) b
      × ((offset : ℕ)
          → (contains a offset || contains b offset) ≡ true
          → contains (merge a b) offset ≡ true)
      × ((outer : SourceCodeRange) → Covers outer a → Covers outer b → Covers outer (merge a b))
unfolding merge contains
merge_least a b va vb e = (
  record {
    ordered = omega (arith, va.ordered, vb.ordered);
    within_source = omega (arith, va.within_source, vb.within_source, ap SourceCode.size e);
  },
  record { from = omega arith; to = omega arith },
  record { from = omega arith; to = omega arith },
  λ offset h. contains_max a.start a.end b.start b.end offset h,
  λ outer p q. record { from = omega arith; to = omega arith },
)
  where
    contains_max :
        (s e t f offset : ℕ)
        → ((leb s offset && ltb offset e) || (leb t offset && ltb offset f)) ≡ true
        → (leb (min s t) offset && ltb offset (max e f)) ≡ true
    contains_max s e t f offset h = ground arith

-- `CollapseToEnd` and `CollapseToStart` of a valid range are valid, collapsed and of the same source
-- code, stand at its end and at its start, and contain no offset.
pub collapse_empty :
    (range : SourceCodeRange)
    → IsValid range
    → IsValid (collapse_to_end range)
      × IsValid (collapse_to_start range)
      × ((collapse_to_end range).start ≡ range.end)
      × ((collapse_to_start range).start ≡ range.start)
      × ((collapse_to_end range).source_code ≡ range.source_code)
      × ((collapse_to_start range).source_code ≡ range.source_code)
      × (is_collapsed (collapse_to_end range) ≡ true)
      × (is_collapsed (collapse_to_start range) ≡ true)
      × ((offset : ℕ)
          → (contains (collapse_to_end range) offset || contains (collapse_to_start range) offset)
            ≡ false)
unfolding collapse_to_end collapse_to_start is_collapsed contains
collapse_empty range v = (
  record { ordered = omega arith; within_source = v.within_source },
  record { ordered = omega arith; within_source = omega (arith, v.ordered, v.within_source) },
  refl,
  refl,
  refl,
  refl,
  ground arith,
  ground arith,
  λ offset. ground arith,
)
