-- ===== src/Base/LineNumberCache.antt =====
-- aoba/base/line_number_cache.{h,cc}: line and column of an offset, with a cache of line starts.
-- An offset, a line and a column are `int`s that the source never makes negative.
pub mod Positions
use aoba.Prelude.{
  ℕ, zero, suc, ◌+◌, ◌-◌, Bool, true, false, ◌||◌, List, [], ◌∷◌, ◌++◌, ◌==◌, ltb, leb, length,
  if◌then◌else◌,
}
use aoba.Parser.Utils.LexerUtils.{is_line_terminator}

-- `source_code_.CharAt`, with 0 outside of the text.
abbrev pub char_at : List ℕ → ℕ → ℕ
char_at [] i = 0
char_at (c ∷ cs) zero = c
char_at (c ∷ cs) (suc i) = char_at cs i

-- `line_start_offsets` begins with the start of the second line.
pub record LineNumberCache : Type 0 where
  pub source_code : List ℕ
  pub last_offset : ℕ
  pub line_start_offsets : List ℕ

abbrev pub new_cache : List ℕ → LineNumberCache
new_cache source_code = record {
  source_code = source_code;
  last_offset = 0;
  line_start_offsets = [];
}

unfoldable pub is_end_of_line : List ℕ → ℕ → Bool
is_end_of_line text offset = offset == length text || is_line_terminator (char_at text offset)

-- `for (auto runner = last_offset_; runner < offset; ++runner)`, with the rounds that are left.
unfoldable pub extend : List ℕ → ℕ → ℕ → List ℕ → List ℕ
extend text zero runner starts = starts
extend text (suc rounds) runner starts =
    extend text rounds (runner + 1)
      (if is_end_of_line text runner then starts ++ (runner + 1) ∷ [] else starts)

-- `std::lower_bound` from the beginning: how many elements stand before the first that is not
-- below `offset`.
unfoldable pub lower_bound : ℕ → List ℕ → ℕ
lower_bound offset [] = 0
lower_bound offset (x ∷ xs) = if ltb x offset then suc (lower_bound offset xs) else 0

abbrev pub back : ℕ → List ℕ → ℕ
back x [] = x
back x (y ∷ ys) = back y ys

-- `*it == offset ? it : std::prev(it)`, as an index.
unfoldable pub start_index : ℕ → List ℕ → ℕ
start_index offset starts =
    let it = lower_bound offset starts in if char_at starts it == offset then it else it - 1

-- `Get` behind the extension of the cache.
unfoldable pub find_line : ℕ → List ℕ → ℕ × ℕ
find_line offset [] = (1, offset)
find_line offset (x ∷ xs) =
    if ltb offset x
    then (1, offset)
    else if leb (back x xs) offset
    then (length (x ∷ xs) + 1, offset - back x xs)
    else (let start = start_index offset (x ∷ xs) in (start + 2, offset - char_at (x ∷ xs) start))

unfoldable pub extend_to : ℕ → LineNumberCache → LineNumberCache
extend_to offset cache =
    if ltb cache.last_offset offset
    then record cache {
      line_start_offsets =
          extend cache.source_code (offset - cache.last_offset) cache.last_offset
            cache.line_start_offsets;
      last_offset = offset;
    }
    else cache

-- `Get`: line number, column number and the cache behind the call.
unfoldable pub get : ℕ → LineNumberCache → (ℕ × ℕ) × LineNumberCache
get offset cache =
    if offset == 0
    then ((1, 0), cache)
    else (let cache' = extend_to offset cache in
        (find_line offset cache'.line_start_offsets, cache'))
