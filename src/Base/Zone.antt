-- ===== src/Base/Zone.antt =====
-- aoba/base/memory/zone.{h,cc}: the arena allocator. A segment is its number, its size and the
-- offset of its free part; an address is a segment's number and an offset. `size_t` has 64 bits.
use aoba.Prelude.{
  ℕ, zero, suc, ◌+◌, ◌-◌, ◌*◌, ◌/◌, ◌%◌, ◌^◌, ◌≤◌, ◌<◌, true, false, Option, some, none, List, [],
  ◌∷◌, ◌≡◌, ◌⊎◌, inl, inr, refl, Bool-cases, if◌then◌else◌, arith, ltb,
}

abbrev pub size_mod : ℕ
size_mod = 2 ^ 64

abbrev pub allocate_unit : ℕ
allocate_unit = 8

abbrev pub min_segment_size : ℕ
min_segment_size = 8 * 1024

-- Both units are powers of two, so the wrapped sum is the only part that can overflow.
unfoldable pub round_up : ℕ → ℕ → ℕ
round_up num unit = (num + unit - 1) % size_mod / unit * unit

pub record Segment : Type 0 where
  pub number : ℕ
  pub max_offset : ℕ
  pub offset : ℕ

unfoldable pub new_segment : ℕ → ℕ → Segment
unfolding round_up
new_segment number size = record {
  number = number;
  max_offset = round_up size min_segment_size;
  offset = 0;
}

pub record Address : Type 0 where
  pub segment : ℕ
  pub offset : ℕ

-- `Segment::Allocate`.
unfoldable pub segment_allocate : ℕ → Segment → Option Address × Segment
unfolding round_up
segment_allocate size s =
    let next_offset = (s.offset + round_up size allocate_unit) % size_mod in
    if ltb s.max_offset next_offset then (none, s) else (
      some (record { segment = s.number; offset = s.offset }),
      record s { offset = next_offset },
    )

-- The zone's current segment, and those behind it.
pub record Zone : Type 0 where
  pub segment : Segment
  pub full : List Segment

unfoldable pub new_zone : Zone
unfolding new_segment
new_zone = record { segment = new_segment 0 0; full = [] }

abbrev retry :
    (Zone → Option Address × Zone) → Zone → Option Address × Segment → Option Address × Zone
retry loop z (some address, s) = (some address, record z { segment = s })
retry loop z (none, s) = loop z

abbrev pub add_segment : ℕ → Zone → Zone
add_segment size z = record {
  segment = new_segment (z.segment.number + 1) size;
  full = z.segment ∷ z.full;
}

-- `for (;;)`, with the rounds that may be made.
unfoldable pub allocate_loop : ℕ → ℕ → Zone → Option Address × Zone
allocate_loop zero size z = (none, z)
allocate_loop (suc rounds) size z =
    retry (λ z'. allocate_loop rounds size (add_segment size z')) z
      (segment_allocate size z.segment)

-- A new segment always has room, so two rounds are enough.
unfoldable pub allocate : ℕ → Zone → Option Address × Zone
unfolding allocate_loop segment_allocate new_segment
allocate = allocate_loop 2

-- The free part of the current segment lies within it and is aligned.
pub record IsValid (z : Zone) : Type 0 where
  pub free : z.segment.offset ≤ z.segment.max_offset
  pub aligned : z.segment.offset % 8 ≡ 0
  pub bounded : z.segment.max_offset < 2 ^ 63

-- The block at `address` lies in the current segment, behind what was handed out of it before and
-- before what is handed out later, and is aligned.
pub record Allocates (size : ℕ) (z : Zone) (address : Address) (z' : Zone) : Type 0 where
  pub in_segment : address.segment ≡ z'.segment.number
  pub fresh :
      ((z'.segment.number ≡ z.segment.number) × (z.segment.offset ≤ address.offset))
      ⊎ (z'.segment.number ≡ z.segment.number + 1)
  pub fits : address.offset + size ≤ z'.segment.offset
  pub is_aligned : address.offset % 8 ≡ 0
  pub valid : IsValid z'

round_up_bounds :
    (size : ℕ)
    → size < 2 ^ 62
    → (size ≤ round_up size 8)
      × (round_up size 8 ≤ round_up size min_segment_size)
      × (round_up size 8 % 8 ≡ 0)
      × (round_up size min_segment_size < 2 ^ 62 + 8192)
unfolding round_up
round_up_bounds size h = (omega arith, omega arith, omega arith, omega arith)

-- The current segment has room.
module _ (size : ℕ) (s : Segment) where
  abbrev next : ℕ
  next = (s.offset + round_up size allocate_unit) % size_mod

  segment_allocate_room :
      ltb s.max_offset next ≡ false
      → segment_allocate size s
        ≡ (some (record { segment = s.number; offset = s.offset }), record s { offset = next })
  unfolding segment_allocate
  segment_allocate_room e = rw e

  segment_allocate_full : ltb s.max_offset next ≡ true → segment_allocate size s ≡ (none, s)
  unfolding segment_allocate
  segment_allocate_full e = rw e

room-Allocates :
    (size : ℕ) (z : Zone)
    → size < 2 ^ 62
    → IsValid z
    → ltb z.segment.max_offset (next size z.segment) ≡ false
    → Allocates size z
        (record { segment = z.segment.number; offset = z.segment.offset })
        (record z { segment = record z.segment { offset = next size z.segment } })
room-Allocates size z h v e =
    let b = round_up_bounds size h in
    let le : next size z.segment ≤ z.segment.max_offset = ground arith in
    record {
      in_segment = refl;
      fresh = inl (refl, omega arith);
      fits = omega (arith, b.0, b.1, b.3, v.free, v.bounded);
      is_aligned = v.aligned;
      valid = record {
        free = le;
        aligned = omega (arith, b.2, b.1, b.3, v.free, v.bounded, v.aligned);
        bounded = v.bounded;
      };
    }

add_segment-IsValid : (size : ℕ) (z : Zone) → size < 2 ^ 62 → IsValid (add_segment size z)
unfolding new_segment
add_segment-IsValid size z h =
    let b = round_up_bounds size h in
    record { free = omega arith; aligned = refl; bounded = omega (arith, b.3) }

-- A new segment has room for the request that it was made for.
add_segment_room :
    (size : ℕ) (z : Zone)
    → size < 2 ^ 62
    → ltb (add_segment size z).segment.max_offset (next size (add_segment size z).segment) ≡ false
unfolding new_segment
add_segment_room size z h =
    let b = round_up_bounds size h in ltb-eq-false _ _ (omega (arith, b.1, b.3))
  where
    ltb-eq-false : (a b : ℕ) → b ≤ a → ltb a b ≡ false
    ltb-eq-false a b le = ground arith

-- From a valid zone, a request below 2 ^ 62 bytes is met in at most two rounds: the block is
-- aligned to 8 bytes, has room for the request, begins at or behind the part of its segment that was
-- handed out before, or in a new segment, and the zone stays valid.
pub allocate-Allocates :
    (size : ℕ) (z : Zone)
    → size < 2 ^ 62
    → IsValid z
    → (address : Address) × (z' : Zone) × (allocate size z ≡ (some address, z'))
      × Allocates size z address z'
unfolding allocate
allocate-Allocates size z h v = elim (Bool-cases (ltb z.segment.max_offset (next size z.segment))) [
  | inr room ↦
      (_, _, rw (segment_allocate_room size z.segment room), room-Allocates size z h v room)
  | inl full ↦
      let y = add_segment size z in
      let room = add_segment_room size z h in
      let a = room-Allocates size y h (add_segment-IsValid size z h) room in
      (
        _,
        _,
        rw (segment_allocate_full size z.segment full, segment_allocate_room size y.segment room),
        record {
          in_segment = a.in_segment;
          fresh = inr refl;
          fits = a.fits;
          is_aligned = a.is_aligned;
          valid = a.valid;
        },
      )
]

pub new_zone-IsValid : IsValid new_zone
unfolding new_zone
new_zone-IsValid = record { free = omega arith; aligned = refl; bounded = omega arith }
