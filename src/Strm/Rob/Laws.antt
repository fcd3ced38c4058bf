-- ===== src/Strm/Rob/Laws.antt =====
-- What holds of a reorder buffer as a whole: after `ngtcp2_rob_init`, a push, and the removal of a
-- prefix.
use ngtcp.Base.{
  ltb, leb, if◌then◌else◌, Bool-cases, length, get_elem?, nomem, ok, err, ℕ, ◌+◌, ◌-◌, ◌%◌, ◌^◌,
  ◌≤◌, ◌<◌, ◌≡◌, refl, sym, ap₂, ◌⊎◌, inl, inr, not, ◌&&◌, List, [], ◌∷◌, arith,
}
use ngtcp.Track.Range.{Range, add_uint64, range_init, covers, RangeFits}
use ngtcp.Track.Gaptr.{gaptr_push}
use ngtcp.Track.Gaptr.Laws.{Ordered, missing, Ordered-weaken, missing_below}
use ngtcp.Track.Gaptr.Push.{push_range-Filled}
use ngtcp.Strm.Rob.{RobData, Rob, RobMem, rob_push, gaps_from, chunks_from, rob_remove_prefix}
use ngtcp.Strm.Rob.Chunks.{byte_at, IsChunks, IsChunks-weaken}
use ngtcp.Strm.Rob.Push.{Fails, push_loop-IsPushed}

-- A buffer whose gaps and chunks are in order.
pub record IsRob (rob : Rob) : Type 0 where
  pub ordered : Ordered 0 rob.gap
  pub chunks : IsChunks rob.chunk 0 rob.chunks
  pub chunk_pos : 0 < rob.chunk
  pub chunk_fits : rob.chunk < 2 ^ 63

-- A push of data that ends below 2 ^ 63 answers NGTCP2_ERR_NOMEM if an allocation failed; otherwise
-- it answers 0, the gaps are those that `gaptr_push` leaves of the same gaps, and the buffer holds the
-- pushed bytes where they were missing and is unchanged elsewhere: what is there already stays.
pub rob_push_lem :
    (mem : RobMem) (rob : Rob) (offset : ℕ) (bytes : List ℕ)
    → IsRob rob
    → offset + length bytes < 2 ^ 63
    → let (rob', rv) = rob_push mem rob offset bytes in
      ((rv ≡ ok tt)
        × IsRob rob'
        × (gaptr_push mem.gap_new rob.gap offset (length bytes) ≡ (rob'.gap, ok tt))
        × ((x : ℕ)
            → (missing rob'.gap x
                ≡ (missing rob.gap x && not (leb offset x && ltb x (offset + length bytes))))
              × (byte_at rob'.chunks x ≡ (
                  if missing rob.gap x && (leb offset x && ltb x (offset + length bytes))
                  then get_elem? bytes (x - offset)
                  else byte_at rob.chunks x))))
      ⊎ ((rv ≡ err nomem) × Fails mem)
unfolding rob_push gaptr_push range_init covers
rob_push_lem mem rob offset bytes h small =
    let end : (offset + length bytes) % 18446744073709551616 ≡ offset + length bytes =
      omega arith in
    let q = range_init offset (offset + length bytes) in
    let f : RangeFits q = record { ordered = omega arith; fits = omega arith } in
    let (o, m) = push_range-Filled mem.gap_new q f 0 rob.gap h.ordered in
    let (c, done) =
      push_loop-IsPushed mem rob.chunk h.chunk_pos h.chunk_fits q f bytes 0 rob.gap h.ordered
        (omega arith) small rob.chunks h.chunks in
    rw end (elim done [
      | inl (rv, gaps, spec, byte) ↦ inl (
        rv,
        record {
          ordered = rw gaps o;
          chunks = c;
          chunk_pos = h.chunk_pos;
          chunk_fits = h.chunk_fits;
        },
        ap₂ (λ a b. (a, b)) (sym gaps) spec,
        λ x. (rw gaps (m spec x), byte x),
      )
      | inr failed ↦ inr failed
    ])

gaps_from-Ordered :
    (offset lo : ℕ) (gaps : List Range) → Ordered lo gaps → Ordered lo (gaps_from offset gaps)
unfolding gaps_from
gaps_from-Ordered offset lo [] h = tt
gaps_from-Ordered offset lo (g ∷ gaps) h = ground (
  arith,
  Ordered-weaken lo g.end (gaps_from offset gaps) (omega arith)
      (gaps_from-Ordered offset g.end gaps h.3),
)

missing-gaps_from :
    (offset lo : ℕ) (gaps : List Range) (x : ℕ)
    → Ordered lo gaps
    → missing (gaps_from offset gaps) x ≡ (missing gaps x && leb offset x)
unfolding gaps_from missing covers
missing-gaps_from offset lo [] x h = refl
missing-gaps_from offset lo (g ∷ gaps) x h =
    ground (arith, missing-gaps_from offset g.end gaps x h.3, missing_below g.end gaps x h.3)

chunks_from-IsChunks :
    (chunk offset lo : ℕ) (ds : List RobData)
    → IsChunks chunk lo ds
    → IsChunks chunk lo (chunks_from chunk offset ds)
unfolding chunks_from
chunks_from-IsChunks chunk offset lo [] h = tt
chunks_from-IsChunks chunk offset lo (d ∷ ds) h =
    let rest =
      IsChunks-weaken chunk (d.offset + chunk) lo (chunks_from chunk offset ds) (omega (arith, h.0))
        (chunks_from-IsChunks chunk offset (d.offset + chunk) ds h.3) in
    elim (Bool-cases (leb offset d.offset)) [
      | inl e ↦ rw e h
      | inr e ↦ elim (Bool-cases (ltb offset (add_uint64 d.offset chunk))) [
        | inl f ↦ rw (e, f) h
        | inr f ↦ rw (e, f) rest
      ]
    ]

-- The first chunk ends behind `offset`.
abbrev pub Reaches : ℕ → ℕ → List RobData → Type 0
Reaches chunk offset [] = Unit {0}
Reaches chunk offset (d ∷ ds) = offset < d.offset + chunk

chunks_from-byte_at :
    (chunk offset lo : ℕ) (ds : List RobData)
    → IsChunks chunk lo ds
    → 0 < chunk
    → chunk < 2 ^ 63
    → offset < 2 ^ 63
    → Reaches chunk offset (chunks_from chunk offset ds)
      × ((x : ℕ) → offset ≤ x → byte_at (chunks_from chunk offset ds) x ≡ byte_at ds x)
unfolding chunks_from byte_at
chunks_from-byte_at chunk offset lo [] h pos fits small = (tt, λ x le. refl)
chunks_from-byte_at chunk offset lo (d ∷ ds) h pos fits small =
    let (reach, same) = chunks_from-byte_at chunk offset (d.offset + chunk) ds h.3 pos fits small in
    elim (Bool-cases (leb offset d.offset)) [
      | inl e ↦ rw e (ground arith, λ x le. refl)
      | inr e ↦ elim (Bool-cases (ltb offset (add_uint64 d.offset chunk))) [
        | inl f ↦ rw (e, f) (ground arith, λ x le. refl)
        | inr f ↦ rw (e, f) (reach, λ x le. ground (arith, same x le, h.2))
      ]
    ]

-- Behind a removed prefix nothing changes: an offset is missing as before, the bytes are as before,
-- and the first chunk left ends behind the prefix. The offsets of the prefix are not missing.
pub rob_remove_prefix_lem :
    (rob : Rob) (offset : ℕ)
    → IsRob rob
    → offset < 2 ^ 63
    → let rob' = rob_remove_prefix rob offset in
      IsRob rob'
      × Reaches rob'.chunk offset rob'.chunks
      × ((x : ℕ)
          → (missing rob'.gap x ≡ (missing rob.gap x && leb offset x))
            × (offset ≤ x → byte_at rob'.chunks x ≡ byte_at rob.chunks x))
unfolding rob_remove_prefix
rob_remove_prefix_lem rob offset h small =
    let (reach, same) =
      chunks_from-byte_at rob.chunk offset 0 rob.chunks h.chunks h.chunk_pos h.chunk_fits small in
    (
      record {
        ordered = gaps_from-Ordered offset 0 rob.gap h.ordered;
        chunks = chunks_from-IsChunks rob.chunk offset 0 rob.chunks h.chunks;
        chunk_pos = h.chunk_pos;
        chunk_fits = h.chunk_fits;
      },
      reach,
      λ x. (missing-gaps_from offset 0 rob.gap x h.ordered, same x),
    )
