-- ===== src/Base/LineNumberCache/Positions.antt =====
-- The cache of aoba/base/line_number_cache.cc against a walk over the text: `position` and `IsCached`.
use aoba.Prelude.{
  ℕ, zero, suc, ◌+◌, ◌-◌, ◌≤◌, ◌<◌, List, [], ◌∷◌, ◌++◌, ◌≡◌, inl, inr, refl, ap, ◌∙◌, length,
  append-nil, Bool-cases, if◌then◌else◌, arith, ltb, leb, ◌==◌, ==_iff, ltb→lt, le→leb,
}
use native.Mathlib.Nat.{add-zero}
use native.Mathlib.Numerals.{add-one}
use aoba.Parser.Utils.LexerUtils.{is_line_terminator}
use aoba.Base.LineNumberCache.{
  LineNumberCache, new_cache, char_at, is_end_of_line, extend, lower_bound, back, start_index,
  find_line, extend_to, get,
}

-- Line and column behind the first `offset` characters of the text, from a line and a column.
abbrev pub position : List ℕ → ℕ → ℕ → ℕ → ℕ × ℕ
position text zero line column = (line, column)
position [] (suc offset) line column = (line, column)
position (c ∷ cs) (suc offset) line column =
    if is_line_terminator c
    then position cs offset (line + 1) 0
    else position cs offset line (column + 1)

-- The starts of lines in the first `n` characters of a text that begins at `i`.
abbrev starts_from : ℕ → List ℕ → ℕ → List ℕ
starts_from i text zero = []
starts_from i [] (suc n) = []
starts_from i (c ∷ cs) (suc n) =
    if is_line_terminator c then (i + 1) ∷ starts_from (i + 1) cs n else starts_from (i + 1) cs n

-- The line of an offset, by a list of line starts.
abbrev lookup : List ℕ → ℕ → ℕ → ℕ → ℕ × ℕ
lookup [] offset line start = (line, offset - start)
lookup (x ∷ xs) offset line start =
    if leb x offset then lookup xs offset (line + 1) x else (line, offset - start)

abbrev Sorted : ℕ → List ℕ → Type 0
Sorted lo [] = Unit {0}
Sorted lo (x ∷ xs) = (lo < x) × Sorted x xs

Sorted-weaken : (lo lo' : ℕ) (xs : List ℕ) → lo ≤ lo' → Sorted lo' xs → Sorted lo xs
Sorted-weaken lo lo' [] h s = tt
Sorted-weaken lo lo' (x ∷ xs) h (a, s) = (omega arith, s)

starts_from-Sorted : (i : ℕ) (text : List ℕ) (n : ℕ) → Sorted i (starts_from i text n)
starts_from-Sorted i text zero = tt
starts_from-Sorted i [] (suc n) = tt
starts_from-Sorted i (c ∷ cs) (suc n) = elim (Bool-cases (is_line_terminator c)) [
  | inl e ↦ rw e (omega arith, starts_from-Sorted (i + 1) cs n)
  | inr e ↦ rw e (Sorted-weaken i (i + 1) _ (omega arith) (starts_from-Sorted (i + 1) cs n))
]

lookup_above :
    (offset line start : ℕ) (xs : List ℕ)
    → Sorted offset xs
    → lookup xs offset line start ≡ (line, offset - start)
lookup_above offset line start [] s = refl
lookup_above offset line start (x ∷ xs) (a, s) = ground arith

lookup-position :
    (text : List ℕ) (i offset n line start t column : ℕ)
    → offset ≤ n
    → offset ≤ length text
    → start ≤ i
    → t ≡ i + offset
    → column ≡ i - start
    → lookup (starts_from i text n) t line start ≡ position text offset line column
lookup-position text i zero n line start t column h m k e f =
    let e' : t ≡ i = omega arith in
    rw (e', f) (lookup_above i line start _ (starts_from-Sorted i text n))
lookup-position [] i (suc offset) n line start t column h m k e f = absurd (omega arith)
lookup-position (c ∷ cs) i (suc offset) zero line start t column h m k e f = absurd (omega arith)
lookup-position (c ∷ cs) i (suc offset) (suc n) line start t column h m k e f =
    elim (Bool-cases (is_line_terminator c)) [
      | inl lt ↦
          rw (lt, le→leb (i + 1) t (omega arith))
            (lookup-position cs (i + 1) offset n (line + 1) (i + 1) t 0 (omega arith) (omega arith)
              (omega arith) (omega arith) (omega arith))
      | inr other ↦ rw other (
          lookup-position cs (i + 1) offset n line start t (column + 1) (omega arith) (omega arith)
            (omega arith) (omega arith) (omega arith))
    ]

-- The scan of `Get` finds the line starts.
starts_from-suc :
    (text : List ℕ) (i n v : ℕ)
    → n < length text
    → v ≡ i + n + 1
    → starts_from i text (suc n)
      ≡ starts_from i text n ++ (if is_line_terminator (char_at text n) then v ∷ [] else [])
starts_from-suc [] i n v h e = absurd (omega arith)
starts_from-suc (c ∷ cs) i zero v h e = ground arith
starts_from-suc (c ∷ cs) i (suc n) v h e =
    ground (arith, starts_from-suc cs (i + 1) n v (omega arith) (omega arith))

next_starts :
    (text : List ℕ) (runner : ℕ)
    → runner < length text
    → (if is_end_of_line text runner
        then starts_from 0 text runner ++ suc runner ∷ []
        else starts_from 0 text runner)
      ≡ starts_from 0 text (suc runner)
unfolding is_end_of_line
next_starts text runner h =
    let e = starts_from-suc text 0 runner (suc runner) h (omega arith) in
    elim (Bool-cases (is_line_terminator (char_at text runner))) [
      | inl lt ↦ ground arith
      | inr other ↦ ground (arith, append-nil (starts_from 0 text runner))
    ]

extend-starts :
    (text : List ℕ) (rounds runner : ℕ)
    → runner + rounds ≤ length text
    → extend text rounds runner (starts_from 0 text runner) ≡ starts_from 0 text (runner + rounds)
unfolding extend
extend-starts text zero runner h = rw add-zero
extend-starts text (suc rounds) runner h =
    let e : runner + suc rounds ≡ suc runner + rounds = omega arith in
    rw (add-one, next_starts text runner (omega arith), e)
      (extend-starts text rounds (suc runner) (omega arith))

le-back : (x : ℕ) (xs : List ℕ) → Sorted x xs → x ≤ back x xs
le-back x [] s = omega arith
le-back x (y ∷ ys) (a, s) = omega (arith, le-back y ys s)

lookup-back :
    (offset line x : ℕ) (xs : List ℕ)
    → Sorted x xs
    → back x xs ≤ offset
    → lookup xs offset line x ≡ (line + length xs, offset - back x xs)
lookup-back offset line x [] s h = ground arith
lookup-back offset line x (y ∷ ys) (a, s) h =
    rw (le→leb y offset (omega (arith, le-back y ys s)))
      (lookup-back offset (line + 1) y ys s h ∙ ap (λ n. (n, offset - back y ys)) (omega arith))

start_index-cons :
    (offset x y : ℕ) (ys : List ℕ)
    → x < offset
    → y ≤ offset
    → start_index offset (x ∷ y ∷ ys) ≡ suc (start_index offset (y ∷ ys))
unfolding start_index lower_bound
start_index-cons offset x y ys h k = ground arith

start_index_here : (offset : ℕ) (xs : List ℕ) → start_index offset (offset ∷ xs) ≡ 0
unfolding start_index lower_bound
start_index_here offset xs = ground arith

start_index_before :
    (offset x y : ℕ) (ys : List ℕ) → x < offset → offset < y → start_index offset (x ∷ y ∷ ys) ≡ 0
unfolding start_index lower_bound
start_index_before offset x y ys h k = ground arith

lookup-start_index :
    (offset line x start : ℕ) (xs : List ℕ)
    → Sorted x xs
    → x ≤ offset
    → offset < back x xs
    → lookup (x ∷ xs) offset line start ≡ (
      start_index offset (x ∷ xs) + line + 1,
      offset - char_at (x ∷ xs) (start_index offset (x ∷ xs)),
    )
lookup-start_index offset line x start [] s h k = absurd (omega arith)
lookup-start_index offset line x start (y ∷ ys) (a, s) h k = ground (
  arith,
  start_index_here offset (y ∷ ys),
  start_index_before offset x y ys,
  start_index-cons offset x y ys,
  lookup-start_index offset (line + 1) y x ys s,
)

-- The search of `Get` finds the line.
find_line-lookup :
    (offset : ℕ) (starts : List ℕ)
    → Sorted 0 starts
    → find_line offset starts ≡ lookup starts offset 1 0
unfolding find_line
find_line-lookup offset [] s = ground arith
find_line-lookup offset (x ∷ xs) (a, s) =
    ground
      (arith, lookup-back offset 2 x xs s, lookup-start_index offset 1 x 0 xs s, le-back x xs s)

-- The cache holds the line starts of the text up to its last offset.
pub record IsCached (cache : LineNumberCache) : Type 0 where
  pub scanned : cache.last_offset ≤ length cache.source_code
  pub starts : cache.line_start_offsets ≡ starts_from 0 cache.source_code cache.last_offset

pub new_cache-IsCached : (text : List ℕ) → IsCached (new_cache text)
new_cache-IsCached text = record { scanned = omega arith; starts = refl }

extend_to-IsCached :
    (offset : ℕ) (cache : LineNumberCache)
    → offset ≤ length cache.source_code
    → IsCached cache
    → IsCached (extend_to offset cache)
unfolding extend_to
extend_to-IsCached offset cache h v = elim (Bool-cases (ltb cache.last_offset offset)) [
  | inl more ↦
      let e = extend-starts cache.source_code (offset - cache.last_offset) cache.last_offset in
      let sum : cache.last_offset + (offset - cache.last_offset) ≡ offset =
        omega (arith, ltb→lt cache.last_offset offset more) in
      rw more (record {
        scanned = h;
        starts = simp v.starts (e (omega arith) ∙ ap (starts_from 0 cache.source_code) sum);
      })
  | inr done ↦ rw done v
]

extend_to-scanned :
    (offset : ℕ) (cache : LineNumberCache) → offset ≤ (extend_to offset cache).last_offset
unfolding extend_to
extend_to-scanned offset cache = ground arith

source_code-extend_to :
    (offset : ℕ) (cache : LineNumberCache)
    → (extend_to offset cache).source_code ≡ cache.source_code
unfolding extend_to
source_code-extend_to offset cache = ground arith

find_line-position :
    (offset : ℕ) (cache : LineNumberCache)
    → offset ≤ length cache.source_code
    → offset ≤ cache.last_offset
    → IsCached cache
    → find_line offset cache.line_start_offsets ≡ position cache.source_code offset 1 0
find_line-position offset cache h k v =
    let sorted = starts_from-Sorted 0 cache.source_code cache.last_offset in
    simp v.starts (
      find_line-lookup offset _ sorted
      ∙ lookup-position cache.source_code 0 offset cache.last_offset 1 0 offset 0 k h (omega arith)
          (omega arith) (omega arith))

-- For any cache that earlier calls of `Get` have left, `Get` at an offset within the text returns
-- the line and the column that a walk over the text counts, and leaves such a cache again, of the
-- same text.
pub get-position :
    (offset : ℕ) (cache : LineNumberCache)
    → offset ≤ length cache.source_code
    → IsCached cache
    → ((get offset cache).0 ≡ position cache.source_code offset 1 0)
      × IsCached (get offset cache).1
      × ((get offset cache).1.source_code ≡ cache.source_code)
unfolding get
get-position offset cache h v = elim (Bool-cases (offset == 0)) [
  | inl e ↦ rw e (rw ((==_iff offset 0).0 e) refl, v, refl)
  | inr e ↦
      let c = extend_to offset cache in
      let same = source_code-extend_to offset cache in
      let v' = extend_to-IsCached offset cache h v in
      rw e (
        find_line-position offset c (rw same h) (extend_to-scanned offset cache) v'
            ∙ ap (λ t. position t offset 1 0) same,
        v',
        same,
      )
]
