-- ===== src/Strm/Rob/Write.antt =====
-- `rob_write_data` stores the bytes it is given and changes no others.
use ngtcp.Track.Range.{sub_uint64, add_uint64}
use native.Mathlib.Nat.{suc-mul}
use ngtcp.Base.{
  ltb, ◌==◌, if◌then◌else◌, Bool-cases, length, take, drop, length-append, length-take, length-drop,
  length-replicate, nomem, ok, err, ℕ, zero, suc, ◌+◌, ◌-◌, ◌*◌, ◌/◌, ◌^◌, ◌≤◌, ◌<◌, min, ◌≡◌, refl,
  sym, ap, ◌∙◌, ◌≢◌, ◌⊎◌, inl, inr, false, Option, none, some, List, [], ◌∷◌, ◌++◌, map, arith,
}
use ngtcp.Strm.Rob.{
  RobData, RobMem, new_chunk, copy_into, Stored, behind, round_len, fill_chunk, write_loop,
  rob_write_data,
}
use ngtcp.Strm.Rob.Chunks.{
  cell_at, byte_at, overlay, IsChunks, IsChunks-weaken, byte_at_below, copy_cells,
  cell_at-replicate, get_elem?-take, get_elem?-drop, floor_le, floor_lt, floor_above, floor_below,
}

length-map : (bytes : List ℕ) → length (map {B = Option ℕ} some bytes) ≡ length bytes
length-map [] = refl
length-map (b ∷ bytes) = ap suc (length-map bytes)

copy_into_lem :
    (d : RobData) (at : ℕ) (bytes : List ℕ)
    → at + length bytes ≤ length d.cells
    → (cells : List (Option ℕ)) × (copy_into d at bytes
        ≡ ok record { offset = d.offset; cells = cells })
      × (length cells ≡ length d.cells)
      × ((i : ℕ) → cell_at cells i ≡ overlay at bytes i (cell_at d.cells i))
unfolding copy_into
copy_into_lem d at bytes le = (
  take at d.cells ++ (map some bytes ++ drop (at + length bytes) d.cells),
  ground arith,
  omega (
    arith,
    length-append (take at d.cells) (map some bytes ++ drop (at + length bytes) d.cells),
    length-append (map some bytes) (drop (at + length bytes) d.cells),
    length-map bytes,
    length-take at d.cells,
    length-drop (at + length bytes) d.cells,
  ),
  λ i. copy_cells at bytes d.cells i le,
)

module _ (mem : RobMem) (chunk : ℕ) (pos : 0 < chunk) (fits : chunk < 2 ^ 63) where
  -- What is left when `bytes` are written at `offset`: the bytes are there and all others as before,
  -- or an allocation failed.
  abbrev pub IsWritten : ℕ → ℕ → List ℕ → List RobData → Stored → Type 0
  IsWritten lo offset bytes ds out =
      IsChunks chunk lo out.0
      × (((out.1 ≡ ok tt) × ((x : ℕ) → byte_at out.0 x ≡ overlay offset bytes x (byte_at ds x)))
          ⊎ ((out.1 ≡ err nomem) × (b : ℕ) × (mem.data_new b ≡ false)))

  -- The bytes of a chunk that is filled.
  filled-byte_at :
      (d : RobData) (ds ds' : List RobData) (cells : List (Option ℕ)) (offset n : ℕ)
      (bytes : List ℕ) (x : ℕ)
      → length cells ≡ length d.cells
      → ((i : ℕ)
          → cell_at cells i ≡ overlay (offset - d.offset) (take n bytes) i (cell_at d.cells i))
      → d.offset ≤ offset
      → n ≤ length bytes
      → offset + n ≤ d.offset + length d.cells
      → (n ≢ length bytes → offset + n ≡ d.offset + length d.cells)
      → byte_at ds' x ≡ overlay (offset + n) (drop n bytes) x (byte_at ds x)
      → byte_at (record { offset = d.offset; cells = cells } ∷ ds') x
        ≡ overlay offset bytes x (byte_at (d ∷ ds) x)
  unfolding byte_at
  filled-byte_at d ds ds' cells offset n bytes x el ec le ln room done h =
      let inside : x - d.offset - (offset - d.offset) ≡ x - offset = omega arith in
      ground (
        arith,
        h,
        ec (x - d.offset),
        length-take n bytes,
        length-drop n bytes,
        get_elem?-take n (x - offset) bytes,
        get_elem?-drop n (x - (offset + n)) bytes,
      )

  round_len_lem :
      (offset : ℕ) (bytes : List ℕ) (d : RobData)
      → d.offset ≤ offset
      → offset ≤ d.offset + chunk
      → offset < 2 ^ 63
      → round_len chunk offset bytes d ≡ min (length bytes) (d.offset + chunk - offset)
  unfolding round_len
  round_len_lem offset bytes d le room small = omega arith

  -- What the loop does behind the chunk `d` when there are bytes left.
  abbrev Goes : ℕ → List ℕ → RobData → List RobData → (ℕ → List ℕ → Stored) → Type 0
  Goes offset bytes d ds next =
      (offset' : ℕ) (bytes' : List ℕ)
      → 0 < length bytes'
      → offset' ≡ d.offset + chunk
      → offset' + length bytes' ≡ offset + length bytes
      → IsWritten (d.offset + chunk) offset' bytes' ds (next offset' bytes')

  fill_chunk-IsWritten :
      (lo offset : ℕ) (bytes : List ℕ) (d : RobData) (ds : List RobData)
      (next : ℕ → List ℕ → Stored)
      → IsChunks chunk lo (d ∷ ds)
      → d.offset ≤ offset
      → offset ≤ d.offset + chunk
      → offset + length bytes < 2 ^ 63
      → Goes offset bytes d ds next
      → IsWritten lo offset bytes (d ∷ ds) (fill_chunk chunk offset bytes d ds next)
  unfolding fill_chunk
  fill_chunk-IsWritten lo offset bytes d ds next h le room small go =
      let n = min (length bytes) (d.offset + chunk - offset) in
      let at : sub_uint64 offset d.offset ≡ offset - d.offset = omega arith in
      let (cells, written, len, cell) =
        copy_into_lem d (offset - d.offset) (take n bytes)
          (omega (arith, length-take n bytes, h.2)) in
      let byte = filled-byte_at d ds in
      rw (round_len_lem offset bytes d le room (omega arith), at, written)
        (elim (Bool-cases (n == length bytes)) [
          | inl e ↦ rw e (
            (h.0, h.1, len ∙ h.2, h.3),
            inl (
              refl,
              λ x.
                  byte ds cells offset n bytes x len cell le (omega arith) (omega (arith, h.2))
                    (λ ne. absurd (ne (ground arith))) (ground (arith, length-drop n bytes)),
            ),
          )
          | inr e ↦
              let left : n ≢ length bytes = λ q. ground arith in
              let full : offset + n ≡ d.offset + chunk = omega (arith, left) in
              let (chunks, done) =
                go (offset + n) (drop n bytes) (omega (arith, length-drop n bytes, left)) full
                  (omega (arith, length-drop n bytes)) in
              rw e (
                (h.0, h.1, len ∙ h.2, chunks),
                elim done [
                  | inl (rv, same) ↦ inl (
                    rv,
                    λ x.
                        byte (next (offset + n) (drop n bytes)).0 cells offset n bytes x len cell le
                          (omega arith) (omega (arith, h.2))
                          (λ ne. full ∙ ap (λ l. d.offset + l) (sym h.2)) (same x),
                  )
                  | inr failed ↦ inr failed
                ],
              )
        ])

  -- A new chunk before the others changes no byte.
  new_chunk-byte_at :
      (offset : ℕ) (ds : List RobData) (x : ℕ)
      → IsChunks chunk (offset + chunk) ds
      → byte_at (new_chunk chunk offset ∷ ds) x ≡ byte_at ds x
  unfolding byte_at new_chunk
  new_chunk-byte_at offset ds x h = ground (
    arith,
    length-replicate {A = Option ℕ} chunk none,
    cell_at-replicate chunk (x - offset),
    byte_at_below chunk (offset + chunk) ds x h,
  )

  -- The rounds that make a new chunk.
  fresh-IsWritten :
      (lo offset : ℕ) (bytes : List ℕ) (ds : List RobData) (next : ℕ → List ℕ → Stored) (k : ℕ)
      → IsChunks chunk (offset / chunk * chunk + chunk) ds
      → lo ≡ k * chunk
      → lo ≤ offset
      → offset + length bytes < 2 ^ 63
      → Goes offset bytes (new_chunk chunk (offset / chunk * chunk)) ds next
      → IsWritten lo offset bytes ds (
          if mem.data_new (offset / chunk * chunk)
          then fill_chunk chunk offset bytes (new_chunk chunk (offset / chunk * chunk)) ds next
          else (ds, err nomem))
  unfolding new_chunk
  fresh-IsWritten lo offset bytes ds next k h al le small go =
      let base = offset / chunk * chunk in
      let above = floor_above chunk pos k lo offset al le in
      elim (Bool-cases (mem.data_new base)) [
        | inl e ↦
            let (chunks, done) =
              fill_chunk-IsWritten lo offset bytes (new_chunk chunk base) ds next
                (above, (offset / chunk, refl), length-replicate chunk none, h)
                (floor_le chunk pos offset) (omega (arith, floor_lt chunk pos offset)) small go in
            rw e (
              chunks,
              elim done [
                | inl (rv, same) ↦ inl (
                  rv,
                  λ x. same x ∙ ap (λ b. overlay offset bytes x b) (new_chunk-byte_at base ds x h),
                )
                | inr failed ↦ inr failed
              ],
            )
        | inr e ↦ rw e (
          IsChunks-weaken chunk (base + chunk) lo ds (omega (arith, above)) h,
          inr (refl, base, e),
        )
      ]

  -- The rounds that pass a chunk.
  later-IsWritten :
      (lo offset : ℕ) (bytes : List ℕ) (d : RobData) (ds : List RobData) (out : Stored)
      → IsChunks chunk lo (d ∷ ds)
      → d.offset + chunk < offset
      → IsWritten (d.offset + chunk) offset bytes ds out
      → IsWritten lo offset bytes (d ∷ ds) (behind d out)
  unfolding byte_at
  later-IsWritten lo offset bytes d ds out h lt w = (
    (h.0, h.1, h.2, w.0),
    elim w.1 [
      | inl (rv, same) ↦ inl (rv, λ x. ground (arith, same x, h.2))
      | inr failed ↦ inr failed
    ],
  )

  write_loop-IsWritten :
      (fuel lo offset : ℕ) (bytes : List ℕ) (ds : List RobData) (k : ℕ)
      → IsChunks chunk lo ds
      → lo ≡ k * chunk
      → lo ≤ offset
      → offset + length bytes < 2 ^ 63
      → length ds + length bytes < fuel
      → IsWritten lo offset bytes ds (write_loop mem chunk fuel offset bytes ds)
  unfolding write_loop new_chunk
  write_loop-IsWritten zero lo offset bytes ds k h al le small lt = absurd (omega arith)
  write_loop-IsWritten (suc fuel) lo offset bytes [] k h al le small lt =
      let base = offset / chunk * chunk in
      fresh-IsWritten lo offset bytes [] (λ o b. write_loop mem chunk fuel o b []) k tt al le small
        (λ o b some eo eb.
          write_loop-IsWritten fuel (base + chunk) o b [] (suc (offset / chunk)) tt
            (omega (arith, suc-mul (offset / chunk) chunk)) (omega (arith, eo)) (omega arith)
            (omega (arith, floor_lt chunk pos offset)))
  write_loop-IsWritten (suc fuel) lo offset bytes (d ∷ ds) k h al le small lt =
      let base = offset / chunk * chunk in
      let (n, aligned) = h.1 in
      elim (Bool-cases (ltb offset d.offset)) [
        | inl e ↦
            let before : offset < d.offset = ground arith in
            let behind_new : IsChunks chunk (base + chunk) (d ∷ ds) =
              (floor_below chunk pos n d.offset offset aligned before, h.1, h.2, h.3) in
            rw e (
              fresh-IsWritten lo offset bytes (d ∷ ds)
                (λ o b. write_loop mem chunk fuel o b (d ∷ ds)) k behind_new al le small
                (λ o b some eo eb.
                  write_loop-IsWritten fuel (base + chunk) o b (d ∷ ds) (suc (offset / chunk))
                    behind_new (omega (arith, suc-mul (offset / chunk) chunk)) (omega (arith, eo))
                    (omega arith) (omega (arith, floor_lt chunk pos offset))))
        | inr e ↦ elim (Bool-cases (ltb (add_uint64 d.offset chunk) offset)) [
          | inl f ↦
              rw (e, f)
                (later-IsWritten lo offset bytes d ds (write_loop mem chunk fuel offset bytes ds) h
                  (ground arith)
                  (write_loop-IsWritten fuel (d.offset + chunk) offset bytes ds (suc n) h.3
                    (omega (arith, suc-mul n chunk, aligned)) (ground arith) small (omega arith)))
          | inr f ↦
              rw (e, f)
                (fill_chunk-IsWritten lo offset bytes d ds (λ o b. write_loop mem chunk fuel o b ds)
                  h (ground arith) (ground arith) small
                  (λ o b some eo eb.
                    write_loop-IsWritten fuel (d.offset + chunk) o b ds (suc n) h.3
                      (omega (arith, suc-mul n chunk, aligned)) (omega arith) (omega arith)
                      (ground arith)))
        ]
      ]

  -- `rob_write_data` stores the bytes, or an allocation failed.
  pub rob_write_data-IsWritten :
      (lo offset : ℕ) (bytes : List ℕ) (ds : List RobData) (k : ℕ)
      → IsChunks chunk lo ds
      → lo ≡ k * chunk
      → lo ≤ offset
      → offset + length bytes < 2 ^ 63
      → IsWritten lo offset bytes ds (rob_write_data mem chunk offset bytes ds)
  unfolding rob_write_data
  rob_write_data-IsWritten lo offset bytes ds k h al le small =
      write_loop-IsWritten (suc (length ds + length bytes)) lo offset bytes ds k h al le small
        (omega arith)
