-- ===== src/Strm/Rob.antt =====
-- lib/ngtcp2_rob.c: the reorder buffer of a stream. The linked list of the gaps is the list of their
-- ranges, and that of the data the list of its chunks. The memory of a chunk is the list of its
-- cells: `none` is a byte that nothing was written to.
pub mod Chunks
pub mod Write
pub mod Push
pub mod Laws
pub mod Read
use ngtcp.Base.{
  ltb, leb, ◌==◌, if◌then◌else◌, length, take, drop, replicate, nomem, Result, ok, err, fault,
  ◌>>=◌, ◌>>◌, assert, ℕ, zero, suc, ◌+◌, ◌-◌, ◌*◌, ◌/◌, min, Bool, true, false, not, ◌&&◌, Option,
  none, some, List, [], ◌∷◌, ◌++◌, map,
}
use ngtcp.Track.Range.{
  Range, sub_uint64, add_uint64, range_init, range_intersect, range_len, range_equal, range_cut,
  range_not_after,
}

-- `ngtcp2_rob_data`
pub record RobData : Type 0 where
  pub offset : ℕ
  pub cells : List (Option ℕ)

-- `ngtcp2_rob`, without the allocator; `chunks` is `data`
pub record Rob : Type 0 where
  pub gap : List Range
  pub chunks : List RobData
  pub chunk : ℕ

-- The allocator: whether the allocation of the gap for a range succeeds, and whether that of the
-- chunk for an offset does.
pub record RobMem : Type 0 where
  pub gap_new : Range → Bool
  pub data_new : ℕ → Bool

unfoldable pub rob_init : RobMem → ℕ → Result Rob
rob_init mem chunk =
    let r = range_init 0 18446744073709551615 in
    if mem.gap_new r then ok record { gap = r ∷ []; chunks = []; chunk = chunk } else err nomem

-- The chunk that `ngtcp2_rob_data_new` makes.
unfoldable pub new_chunk : ℕ → ℕ → RobData
new_chunk chunk offset = record { offset = offset; cells = replicate chunk none }

-- `memcpy((*pd)->begin + at, data, n)`, where `bytes` are the n bytes: a write outside the chunk is
-- a fault.
unfoldable pub copy_into : RobData → ℕ → List ℕ → Result RobData
copy_into d at bytes = do
  assert (leb (at + length bytes) (length d.cells))
  ok record {
    offset = d.offset;
    cells = take at d.cells ++ (map some bytes ++ drop (at + length bytes) d.cells);
  }

-- The chunks that an operation leaves, and what it returns.
abbrev pub Stored : Type 0
Stored = List RobData × Result (Unit {0})

abbrev pub behind : RobData → Stored → Stored
behind d (ds, rv) = (d ∷ ds, rv)

-- The part of a round that writes to `*pd`, which is `d`; `next` is the loop from the chunk behind
-- it on.
abbrev pub filled : RobData → List RobData → Bool → Stored → Result RobData → Stored
filled d ds done next (ok d') = if done then (d' ∷ ds, ok tt) else behind d' next
filled d ds done next (err e) = (d ∷ ds, err e)
filled d ds done next fault = (d ∷ ds, fault)

-- `n`, the number of bytes that a round writes
unfoldable pub round_len : ℕ → ℕ → List ℕ → RobData → ℕ
round_len chunk offset bytes d = min (length bytes) (sub_uint64 (add_uint64 d.offset chunk) offset)

unfoldable pub fill_chunk : ℕ → ℕ → List ℕ → RobData → List RobData → (ℕ → List ℕ → Stored) → Stored
fill_chunk chunk offset bytes d ds next =
    let n = round_len chunk offset bytes d in
    filled d ds (n == length bytes) (next (offset + n) (drop n bytes))
      (copy_into d (sub_uint64 offset d.offset) (take n bytes))

-- The loop of `rob_write_data`. A round moves on to the next chunk, or writes bytes into a new one,
-- so there are at most as many rounds as chunks and bytes.
unfoldable pub write_loop : RobMem → ℕ → ℕ → ℕ → List ℕ → List RobData → Stored
write_loop mem chunk zero offset bytes ds = (ds, fault)
write_loop mem chunk (suc fuel) offset bytes [] =
    let d = new_chunk chunk (offset / chunk * chunk) in
    let filled_new =
      fill_chunk chunk offset bytes d []
        (λ offset' bytes'. write_loop mem chunk fuel offset' bytes' []) in
    if mem.data_new d.offset then filled_new else ([], err nomem)
write_loop mem chunk (suc fuel) offset bytes (d ∷ ds) =
    let nd = new_chunk chunk (offset / chunk * chunk) in
    let filled_new =
      fill_chunk chunk offset bytes nd (d ∷ ds)
        (λ offset' bytes'. write_loop mem chunk fuel offset' bytes' (d ∷ ds)) in
    let filled_old =
      fill_chunk chunk offset bytes d ds
        (λ offset' bytes'. write_loop mem chunk fuel offset' bytes' ds) in
    let later = behind d (write_loop mem chunk fuel offset bytes ds) in
    if ltb offset d.offset
    then (if mem.data_new nd.offset then filled_new else (d ∷ ds, err nomem))
    else if ltb (add_uint64 d.offset chunk) offset
    then later
    else filled_old

unfoldable pub rob_write_data : RobMem → ℕ → ℕ → List ℕ → List RobData → Stored
rob_write_data mem chunk offset bytes ds =
    write_loop mem chunk (suc (length ds + length bytes)) offset bytes ds

-- The gaps and the chunks that `ngtcp2_rob_push` leaves, and what it returns.
abbrev pub Pushed : Type 0
Pushed = List Range × List RobData × Result (Unit {0})

-- `rest` is what becomes of the gaps behind this place, from the chunks as they are here.
abbrev pub past : Range → Pushed → Pushed
past g (gaps, ds, rv) = (g ∷ gaps, ds, rv)

-- `(*pg)->range` stays as `g`, and the loop goes on if it does.
abbrev pub leave_gap : Range → Range → List Range → (List RobData → Pushed) → List RobData → Pushed
leave_gap q g gaps rest ds = if range_not_after q g then (g ∷ gaps, ds, ok tt) else past g (rest ds)

-- The rest of a round, behind the call of `rob_write_data`: `gaps` is the list if that failed.
abbrev pub after_write : List Range → (List RobData → Pushed) → Stored → Pushed
after_write gaps rest (ds, ok t) = rest ds
after_write gaps rest (ds, err e) = (gaps, ds, err e)
after_write gaps rest (ds, fault) = (gaps, ds, fault)

-- `ngtcp2_range_cut` leaves something of the gap.
unfoldable pub cut_and_write :
    RobMem
    → Range
    → Range
    → Range
    → List Range
    → (List RobData → Pushed)
    → (List RobData → Stored)
    → List RobData
    → Pushed
cut_and_write mem q m g gaps rest write ds =
    let (l, r) = range_cut g m in
    if range_len l == 0
    then (if range_len r == 0
        then after_write (g ∷ gaps) (leave_gap q g gaps rest) (write ds)
        else after_write (r ∷ gaps) (leave_gap q r gaps rest) (write ds))
    else if range_len r == 0
    then after_write (l ∷ gaps) (leave_gap q l gaps rest) (write ds)
    else if mem.gap_new r
    then past l (after_write (r ∷ gaps) (leave_gap q r gaps rest) (write ds))
    else (l ∷ gaps, ds, err nomem)

-- The bytes of the pushed data at the range `m`.
unfoldable pub bytes_at : Range → Range → List ℕ → List ℕ
bytes_at q m bytes = take (range_len m) (drop (sub_uint64 m.begin q.begin) bytes)

-- The loop of `ngtcp2_rob_push` over the gaps.
unfoldable pub push_loop : RobMem → ℕ → Range → List ℕ → List Range → List RobData → Pushed
push_loop mem chunk q bytes [] ds = ([], ds, ok tt)
push_loop mem chunk q bytes (g ∷ gaps) ds =
    let m = range_intersect q g in
    let rest = push_loop mem chunk q bytes gaps in
    let write = λ (ds' : List RobData). rob_write_data mem chunk m.begin (bytes_at q m bytes) ds' in
    if range_len m == 0
    then leave_gap q g gaps rest ds
    else if range_equal g m
    then after_write gaps rest (write ds)
    else cut_and_write mem q m g gaps rest write ds

abbrev pub pushed_rob : Rob → Pushed → Rob × Result (Unit {0})
pushed_rob rob (gaps, ds, rv) = (record rob { gap = gaps; chunks = ds }, rv)

unfoldable pub rob_push : RobMem → Rob → ℕ → List ℕ → Rob × Result (Unit {0})
rob_push mem rob offset bytes =
    let q = range_init offset (add_uint64 offset (length bytes)) in
    pushed_rob rob (push_loop mem rob.chunk q bytes rob.gap rob.chunks)

-- The two loops of `ngtcp2_rob_remove_prefix`.
unfoldable pub gaps_from : ℕ → List Range → List Range
gaps_from offset [] = []
gaps_from offset (g ∷ gaps) =
    let rest = gaps_from offset gaps in
    if leb offset g.begin
    then g ∷ gaps
    else if ltb offset g.end
    then record { begin = offset; end = g.end } ∷ gaps
    else rest

unfoldable pub chunks_from : ℕ → ℕ → List RobData → List RobData
chunks_from chunk offset [] = []
chunks_from chunk offset (d ∷ ds) =
    let rest = chunks_from chunk offset ds in
    if leb offset d.offset
    then d ∷ ds
    else if ltb offset (add_uint64 d.offset chunk)
    then d ∷ ds
    else rest

unfoldable pub rob_remove_prefix : Rob → ℕ → Rob
rob_remove_prefix rob offset = record rob {
  gap = gaps_from offset rob.gap;
  chunks = chunks_from rob.chunk offset rob.chunks;
}

-- The bytes that a caller reads from cells: one that was never written is a fault.
unfoldable pub read_cells : List (Option ℕ) → Result (List ℕ)
read_cells [] = ok []
read_cells (none ∷ cells) = fault
read_cells (some b ∷ cells) = do bytes ← read_cells cells; ok (b ∷ bytes)

abbrev pub first_chunk : List RobData → Result RobData
first_chunk [] = fault
first_chunk (d ∷ ds) = ok d

abbrev pub head_gap : List Range → Result Range
head_gap [] = fault
head_gap (g ∷ gaps) = ok g

-- The bytes that `*pdest` points to, as many as the number returned.
unfoldable pub rob_data_at : Rob → ℕ → Result (List ℕ)
rob_data_at rob offset = do
  g ← head_gap rob.gap
  if leb g.begin offset then ok [] else do
    d ← first_chunk rob.chunks
    assert (leb d.offset offset)
    let end = add_uint64 d.offset rob.chunk
    assert (ltb offset end)
    read_cells (take (min g.begin end - offset) (drop (offset - d.offset) d.cells))

unfoldable pub rob_pop : Rob → ℕ → ℕ → Result Rob
rob_pop rob offset len = do
  d ← first_chunk rob.chunks
  let rest = record rob { chunks = drop 1 rob.chunks }
  ok (if ltb (add_uint64 offset len) (add_uint64 d.offset rob.chunk) then rob else rest)

unfoldable pub rob_first_gap_offset : Rob → ℕ
rob_first_gap_offset rob = elim rob.gap [ [] ↦ 18446744073709551615 | ◌∷◌ g (gaps → _) ↦ g.begin ]
