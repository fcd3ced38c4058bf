-- ===== src/Strm/Rob/Read.antt =====
-- `ngtcp2_rob_data_at` and `ngtcp2_rob_pop` on a buffer that holds the bytes of a stream.
use ngtcp.Track.Range.{Range, add_uint64, covers}
use ngtcp.Base.{
  ltb, leb, le→leb, Bool-cases, le_cases, length, take, drop, ok, ℕ, zero, suc, ◌+◌, ◌-◌, ◌%◌, ◌≤◌,
  ◌<◌, min, ◌≡◌, refl, sym, ap, ◌∙◌, ◌⊎◌, inl, inr, true, false, Option, some, List, [], ◌∷◌, ◌++◌,
  arith,
}
use ngtcp.Track.Gaptr.{first_gap_offset}
use ngtcp.Track.Gaptr.Laws.{Ordered, missing, missing_below}
use ngtcp.Track.Gaptr.Trace.{missing_before}
use ngtcp.Strm.Rob.{RobData, Rob, read_cells, rob_data_at, rob_pop, rob_first_gap_offset}
use ngtcp.Strm.Rob.Chunks.{cell_at, byte_at, IsChunks, IsChunks-weaken, byte_at_below}
use ngtcp.Strm.Rob.Laws.{IsRob, Reaches}

-- The bytes of a stream, whose byte at `x` is `f x`, from an offset on.
abbrev pub segment : (ℕ → ℕ) → ℕ → ℕ → List ℕ
segment f offset zero = []
segment f offset (suc n) = f offset ∷ segment f (offset + 1) n

pub length-segment : (f : ℕ → ℕ) (offset n : ℕ) → length (segment f offset n) ≡ n
length-segment f offset zero = refl
length-segment f offset (suc n) = ap suc (length-segment f (offset + 1) n)

pub segment-append :
    (f : ℕ → ℕ) (offset m n : ℕ)
    → segment f offset (m + n) ≡ segment f offset m ++ segment f (offset + m) n
segment-append f offset zero n =
    let e : zero + n ≡ n = omega arith in
    let e' : offset + zero ≡ offset = omega arith in rw (e, e') refl
segment-append f offset (suc m) n =
    let e : suc m + n ≡ suc (m + n) = omega arith in
    let e' : offset + suc m ≡ offset + 1 + m = omega arith in
    rw (e, e') (ap (λ t. f offset ∷ t) (segment-append f (offset + 1) m n))

-- The gaps reach to the end of the offsets that a stream can use.
pub record Holds (f : ℕ → ℕ) (offset : ℕ) (rob : Rob) : Type 0 where
  pub valid : IsRob rob
  pub open_end : missing rob.gap 4611686018427387904 ≡ true
  pub bytes :
      (x : ℕ)
      → offset ≤ x
      → x < 4611686018427387904
      → missing rob.gap x ≡ false
      → byte_at rob.chunks x ≡ some (f x)

read_cells-segment :
    (f : ℕ → ℕ) (offset n : ℕ) (cells : List (Option ℕ))
    → ((i : ℕ) → i < n → cell_at cells i ≡ some (f (offset + i)))
    → read_cells (take n cells) ≡ ok (segment f offset n)
unfolding read_cells
read_cells-segment f offset zero cells h = refl
read_cells-segment f offset (suc n) [] h = cc (h 0 (omega arith))
read_cells-segment f offset (suc n) (c ∷ cells) h =
    let first : c ≡ some (f offset) = h 0 (omega arith) ∙ ap (λ i. some (f i)) (omega arith) in
    let rest =
      read_cells-segment f (offset + 1) n cells
        (λ i lt. h (suc i) (omega arith) ∙ ap (λ k. some (f k)) (omega arith)) in
    rw (first, rest) refl

cell_at-drop :
    (n i : ℕ) (cells : List (Option ℕ)) → cell_at (drop n cells) i ≡ cell_at cells (n + i)
cell_at-drop zero i cells = let e : zero + i ≡ i = omega arith in rw e refl
cell_at-drop (suc n) i [] = refl
cell_at-drop (suc n) i (c ∷ cells) =
    let e : suc n + i ≡ suc (n + i) = omega arith in rw e (cell_at-drop n i cells)

byte_at_first :
    (d : RobData) (ds : List RobData) (x : ℕ)
    → d.offset ≤ x
    → x < d.offset + length d.cells
    → byte_at (d ∷ ds) x ≡ cell_at d.cells (x - d.offset)
unfolding byte_at
byte_at_first d ds x le lt = ground arith

byte_at_rest :
    (d : RobData) (ds : List RobData) (x : ℕ)
    → d.offset + length d.cells ≤ x
    → byte_at (d ∷ ds) x ≡ byte_at ds x
unfolding byte_at
byte_at_rest d ds x le = ground arith

Reaches-weaken :
    (chunk : ℕ) (lo offset : ℕ) (ds : List RobData)
    → IsChunks chunk lo ds
    → offset ≤ lo
    → 0 < chunk
    → Reaches chunk offset ds
Reaches-weaken chunk lo offset [] h le pos = tt
Reaches-weaken chunk lo offset (d ∷ ds) h le pos = omega (arith, h.0)

-- The first chunk holds the byte at `offset`, if some chunk does.
first_chunk_lem :
    (chunk offset : ℕ) (d : RobData) (ds : List RobData) (b : ℕ)
    → IsChunks chunk 0 (d ∷ ds)
    → byte_at (d ∷ ds) offset ≡ some b
    → d.offset ≤ offset
unfolding byte_at
first_chunk_lem chunk offset d ds b h e = elim (le_cases d.offset offset) [
  | inl le ↦ le
  | inr lt ↦ ground (arith, byte_at_below chunk (d.offset + chunk) ds offset h.3)
]

-- A buffer that delivers: its first chunk ends behind `offset`, up to which it was read.
pub record IsRead (f : ℕ → ℕ) (offset : ℕ) (rob : Rob) : Type 0 where
  pub holds : Holds f offset rob
  pub reaches : Reaches rob.chunk offset rob.chunks

-- The gaps end the data that can be read below 2 ^ 62.
pub first_gap_bound :
    (gaps : List Range)
    → missing gaps 4611686018427387904 ≡ true
    → Ordered 0 gaps
    → (g : Range) × (gs : List Range) × (gaps ≡ g ∷ gs) × (g.begin ≤ 4611686018427387904)
unfolding missing covers
first_gap_bound [] e o = cc
first_gap_bound (g ∷ gaps) e o = (
  g,
  gaps,
  refl,
  elim (le_cases g.begin 4611686018427387904) [
    | inl le ↦ le
    | inr lt ↦ ground (arith, missing_below g.end gaps 4611686018427387904 o.3)
  ],
)

-- One call of `rob_data_at` with the call of `rob_pop` behind it.
abbrev pub Reads : (ℕ → ℕ) → ℕ → Rob → ℕ → Rob → Type 0
Reads f offset rob n rob' =
    (0 < n)
    × (offset + n ≤ rob_first_gap_offset rob)
    × (rob_data_at rob offset ≡ ok (segment f offset n))
    × (rob_pop rob offset n ≡ ok rob')
    × (rob'.gap ≡ rob.gap)
    × IsRead f (offset + n) rob'
    × ((length rob'.chunks < length rob.chunks) ⊎ (offset + n ≡ rob_first_gap_offset rob))

module _ (f : ℕ → ℕ) (offset chunk : ℕ) (g : Range) (gaps : List Range) (d : RobData)
    (ds : List RobData)
    (h : IsRead f offset record { gap = g ∷ gaps; chunks = d ∷ ds; chunk = chunk })
    (lt : offset < g.begin) (small : g.begin ≤ 4611686018427387904) where
  abbrev pub here : Rob
  here = record { gap = g ∷ gaps; chunks = d ∷ ds; chunk = chunk }

  abbrev pub count : ℕ
  count = min g.begin (d.offset + chunk) - offset

  byte_here : (x : ℕ) → offset ≤ x → x < g.begin → byte_at (d ∷ ds) x ≡ some (f x)
  unfolding first_gap_offset
  byte_here x le lt' =
      h.holds.bytes x le (omega arith) (missing_before (g ∷ gaps) x h.holds.valid.ordered lt')

  begins : d.offset ≤ offset
  begins =
      first_chunk_lem chunk offset d ds (f offset) h.holds.valid.chunks
        (byte_here offset (omega arith) lt)

  ends : add_uint64 d.offset chunk ≡ d.offset + chunk
  ends = omega (arith, h.holds.valid.chunk_fits, begins)

  read_bytes : rob_data_at here offset ≡ ok (segment f offset count)
  unfolding rob_data_at
  read_bytes =
      let before : leb g.begin offset ≡ false = ground arith in
      let first : leb d.offset offset ≡ true = le→leb d.offset offset begins in
      let inside : ltb offset (d.offset + chunk) ≡ true = ground (arith, h.reaches) in
      let cell : (i : ℕ)
          → i < count
          → cell_at (drop (offset - d.offset) d.cells) i ≡ some (f (offset + i)) =
        λ i less.
          let at : offset - d.offset + i ≡ offset + i - d.offset = omega (arith, begins) in
          cell_at-drop (offset - d.offset) i d.cells
          ∙ ap (λ k. cell_at d.cells k) at
          ∙ sym (
              byte_at_first d ds (offset + i) (omega (arith, begins))
                (omega (arith, h.holds.valid.chunks.2, less)))
          ∙ byte_here (offset + i) (omega arith) (omega (arith, less)) in
      rw (before, first, ends, inside)
        (read_cells-segment f offset count (drop (offset - d.offset) d.cells) cell)

  Holds-later : (n : ℕ) → Holds f (offset + n) here
  Holds-later n = record {
    valid = h.holds.valid;
    open_end = h.holds.open_end;
    bytes = λ x le lt' m. h.holds.bytes x (omega arith) lt' m;
  }

  pub read_first : (rob' : Rob) × Reads f offset here count rob'
  unfolding rob_pop rob_first_gap_offset
  read_first =
      let end : (offset + count) % 18446744073709551616 ≡ offset + count =
        omega (arith, begins, h.reaches) in
      let some_bytes : 0 < count = omega (arith, h.reaches) in
      elim (Bool-cases (ltb (offset + count) (d.offset + chunk))) [
        | inl e ↦ (
          here,
          (
            some_bytes,
            omega arith,
            read_bytes,
            rw (end, ends, e) refl,
            refl,
            record { holds = Holds-later count; reaches = ground arith },
            inr (ground (arith, h.reaches)),
          ),
        )
        | inr e ↦ (
          record { gap = g ∷ gaps; chunks = ds; chunk = chunk },
          (
            some_bytes,
            omega arith,
            read_bytes,
            rw (end, ends, e) refl,
            refl,
            record {
              holds = record {
                valid = record {
                  ordered = h.holds.valid.ordered;
                  chunks =
                      IsChunks-weaken chunk (d.offset + chunk) 0 ds (omega arith)
                        h.holds.valid.chunks.3;
                  chunk_pos = h.holds.valid.chunk_pos;
                  chunk_fits = h.holds.valid.chunk_fits;
                };
                open_end = h.holds.open_end;
                bytes = λ x le lt' m.
                    sym (byte_at_rest d ds x (ground (arith, h.holds.valid.chunks.2)))
                    ∙ h.holds.bytes x (omega arith) lt' m;
              };
              reaches =
                  Reaches-weaken chunk (d.offset + chunk) (offset + count) ds h.holds.valid.chunks.3
                    (omega (arith, h.reaches)) h.holds.valid.chunk_pos;
            },
            inl (omega arith),
          ),
        )
      ]

no_gap : missing [] 4611686018427387904 ≡ true → ⊥
unfolding missing
no_gap e = cc

no_chunk : (f : ℕ → ℕ) (offset : ℕ) → byte_at [] offset ≡ some (f offset) → ⊥
unfolding byte_at
no_chunk f offset e = cc

read_lists :
    (f : ℕ → ℕ) (offset : ℕ) (gap : List Range) (chunks : List RobData) (chunk : ℕ)
    → let rob : Rob = record { gap = gap; chunks = chunks; chunk = chunk } in
      IsRead f offset rob
      → offset < rob_first_gap_offset rob
      → (n : ℕ) × (rob' : Rob) × Reads f offset rob n rob'
unfolding rob_first_gap_offset
read_lists f offset [] chunks chunk h lt = absurd (no_gap h.holds.open_end)
read_lists f offset (g ∷ gaps) [] chunk h lt =
    let (g', gs, e, small) = first_gap_bound (g ∷ gaps) h.holds.open_end h.holds.valid.ordered in
    let same : g ≡ g' = cc e in
    let fits : offset < 4611686018427387904 =
      omega (arith, small, lt, ap (λ (r : Range). r.begin) same) in
    absurd (
      no_chunk f offset (
        h.holds.bytes offset (omega arith) fits
          (missing_before (g ∷ gaps) offset h.holds.valid.ordered (unfold first_gap_offset in lt))))
read_lists f offset (g ∷ gaps) (d ∷ ds) chunk h lt =
    let (g', gs, e, small) = first_gap_bound (g ∷ gaps) h.holds.open_end h.holds.valid.ordered in
    let same : g ≡ g' = cc e in
    let r =
      read_first f offset chunk g gaps d ds h lt
        (omega (arith, small, ap (λ (r : Range). r.begin) same)) in
    (
      count f offset chunk g gaps d ds h lt
          (omega (arith, small, ap (λ (r : Range). r.begin) same)),
      r.0,
      r.1,
    )

-- Where the data to be read ends behind `offset`, `rob_data_at` gives some of the bytes of the
-- stream, and `rob_pop` goes on behind them.
pub read_step :
    (f : ℕ → ℕ) (offset : ℕ) (rob : Rob)
    → IsRead f offset rob
    → offset < rob_first_gap_offset rob
    → (n : ℕ) × (rob' : Rob) × Reads f offset rob n rob'
read_step f offset rob h lt = read_lists f offset rob.gap rob.chunks rob.chunk h lt

pub first_gap_same :
    (rob rob' : Rob) → rob.gap ≡ rob'.gap → rob_first_gap_offset rob ≡ rob_first_gap_offset rob'
unfolding rob_first_gap_offset
first_gap_same rob rob' e = rw e refl

data_at_lists :
    (offset : ℕ) (gap : List Range) (chunks : List RobData) (chunk : ℕ)
    → let rob : Rob = record { gap = gap; chunks = chunks; chunk = chunk } in
      missing gap 4611686018427387904 ≡ true
      → rob_first_gap_offset rob ≤ offset
      → rob_data_at rob offset ≡ ok []
unfolding rob_data_at rob_first_gap_offset
data_at_lists offset [] chunks chunk e le = absurd (no_gap e)
data_at_lists offset (g ∷ gaps) chunks chunk e le = rw (le→leb g.begin offset le) refl

-- At a gap there is nothing to be read.
pub rob_data_at_end :
    (f : ℕ → ℕ) (offset : ℕ) (rob : Rob)
    → IsRead f offset rob
    → rob_first_gap_offset rob ≤ offset
    → rob_data_at rob offset ≡ ok []
rob_data_at_end f offset rob h le =
    data_at_lists offset rob.gap rob.chunks rob.chunk h.holds.open_end le

first_gap_small_lists :
    (gap : List Range) (chunks : List RobData) (chunk : ℕ)
    → missing gap 4611686018427387904 ≡ true
    → Ordered 0 gap
    → rob_first_gap_offset record { gap = gap; chunks = chunks; chunk = chunk }
      ≤ 4611686018427387904
unfolding rob_first_gap_offset
first_gap_small_lists gap chunks chunk e o =
    let (g, gs, same, small) = first_gap_bound gap e o in rw same small

pub first_gap_small :
    (f : ℕ → ℕ) (offset : ℕ) (rob : Rob)
    → Holds f offset rob
    → rob_first_gap_offset rob ≤ 4611686018427387904
first_gap_small f offset rob h =
    first_gap_small_lists rob.gap rob.chunks rob.chunk h.open_end h.valid.ordered
