-- ===== src/Track/Range.antt =====
-- lib/ngtcp2_range.c: half-open ranges `[begin, end)` of `uint64_t`.
use ngtcp.Base.{ltb, leb, ◌==◌, if◌then◌else◌, ℕ, ◌+◌, ◌-◌, ◌%◌, ◌≤◌, ◌<◌, min, max, Bool, ◌&&◌}

pub record Range : Type 0 where
  pub begin : ℕ
  pub end : ℕ

-- `uint64_t` subtraction of numbers below 2 ^ 64
abbrev pub sub_uint64 : ℕ → ℕ → ℕ
sub_uint64 a b = (a + 18446744073709551616 - b) % 18446744073709551616

-- `uint64_t` addition
abbrev pub add_uint64 : ℕ → ℕ → ℕ
add_uint64 a b = (a + b) % 18446744073709551616

unfoldable pub range_init : ℕ → ℕ → Range
range_init begin end = record { begin = begin; end = end }

unfoldable pub range_intersect : Range → Range → Range
range_intersect a b =
    let begin = max a.begin b.begin in
    let end = min a.end b.end in if ltb begin end then range_init begin end else range_init 0 0

unfoldable pub range_len : Range → ℕ
range_len r = sub_uint64 r.end r.begin

unfoldable pub range_equal : Range → Range → Bool
range_equal a b = (a.begin == b.begin) && (a.end == b.end)

-- `*left` and `*right`
unfoldable pub range_cut : Range → Range → Range × Range
range_cut a b = (range_init a.begin b.begin, range_init b.end a.end)

unfoldable pub range_not_after : Range → Range → Bool
range_not_after a b = leb a.end b.end

-- Whether `x` lies in the range.
unfoldable pub covers : Range → ℕ → Bool
covers r x = leb r.begin x && ltb x r.end

-- A range that is not reversed and fits 64 bits.
pub record RangeFits (r : Range) : Type 0 where
  pub ordered : r.begin ≤ r.end
  pub fits : r.end < 18446744073709551616
