-- ===== src/Pkt/RoundTrip/Blocks.antt =====
-- The blocks of an ACK frame: what is written is read back.
use ngtcp.Base.{
  length, length-append, ok, ℕ, ◌+◌, ◌-◌, ◌*◌, ◌≤◌, ◌≡◌, refl, List, [], ◌∷◌, ◌++◌, append_assoc,
  arith,
}
use ngtcp.Conv.RoundTrip.{
  varint_size, varint, IsVarint, varint_size_bounds, put_varint_len_lem, length-varint,
  put_varint_lem,
}
use ngtcp.Pkt.Frame.{AckBlk}
use ngtcp.Pkt.Encode.Data.{blks_len, put_blks}
use ngtcp.Pkt.Decode.Data.{skip_blks, take_blks}
use ngtcp.Pkt.RoundTrip.Step.{skip_varint-varint, take_varint-varint}

-- Every block can be encoded.
abbrev pub BlksFit : List AckBlk → Type 0
BlksFit [] = Unit {0}
BlksFit (blk ∷ blks) = IsVarint blk.gap × IsVarint blk.blklen × BlksFit blks

pub blks_bytes : List AckBlk → List ℕ
blks_bytes [] = []
blks_bytes (blk ∷ blks) = varint blk.gap ++ (varint blk.blklen ++ blks_bytes blks)

pub length-blks_bytes :
    (blk : AckBlk) (blks : List AckBlk)
    → length (blks_bytes (blk ∷ blks))
      ≡ varint_size blk.gap + varint_size blk.blklen + length (blks_bytes blks)
unfolding blks_bytes
length-blks_bytes blk blks = omega (
  arith,
  length-append (varint blk.gap) (varint blk.blklen ++ blks_bytes blks),
  length-append (varint blk.blklen) (blks_bytes blks),
  length-varint blk.gap,
  length-varint blk.blklen,
)

pub blks_len_lem :
    (blks : List AckBlk) → BlksFit blks → blks_len blks ≡ ok (length (blks_bytes blks))
unfolding blks_len
blks_len_lem [] h = unfold blks_bytes in refl
blks_len_lem (blk ∷ blks) (g, b, h) = rw (
  put_varint_len_lem blk.gap g,
  put_varint_len_lem blk.blklen b,
  blks_len_lem blks h,
  length-blks_bytes,
)

pub put_blks_lem : (blks : List AckBlk) → BlksFit blks → put_blks blks ≡ ok (blks_bytes blks)
unfolding put_blks blks_bytes
put_blks_lem [] h = refl
put_blks_lem (blk ∷ blks) (g, b, h) =
    rw (put_varint_lem blk.gap g, put_varint_lem blk.blklen b, put_blks_lem blks h)

pub length-le-blks_bytes : (blks : List AckBlk) → 2 * length blks ≤ length (blks_bytes blks)
length-le-blks_bytes [] = omega arith
length-le-blks_bytes (blk ∷ blks) = omega (
  arith,
  length-blks_bytes blk blks,
  length-le-blks_bytes blks,
  varint_size_bounds blk.gap,
  varint_size_bounds blk.blklen,
)

-- `len` counts two bytes for each block before the loop.
pub skip_blks_written :
    (blks : List AckBlk) (payloadlen len len' : ℕ) (rest : List ℕ)
    → BlksFit blks
    → len + length (blks_bytes blks) ≡ len' + 2 * length blks
    → 1 ≤ len
    → len' ≤ payloadlen
    → skip_blks (length blks) payloadlen len (blks_bytes blks ++ rest) ≡ ok (len', rest)
unfolding skip_blks blks_bytes
skip_blks_written [] payloadlen len len' rest h e pos fits = ground arith
skip_blks_written (blk ∷ blks) payloadlen len len' rest (g, b, h) e pos fits =
    let q = blks_bytes blks ++ rest in
    let len1 = len + varint_size blk.gap - 1 in
    let len2 = len1 + varint_size blk.blklen - 1 in
    let grow = length-blks_bytes blk blks in
    let room = length-le-blks_bytes blks in
    let s = varint_size_bounds blk.gap in
    let t = varint_size_bounds blk.blklen in
    rw
      (
        append_assoc (varint blk.gap) (varint blk.blklen ++ blks_bytes blks) rest,
        append_assoc (varint blk.blklen) (blks_bytes blks) rest,
      )
      (rw
        (
          skip_varint-varint payloadlen len blk.gap (varint blk.blklen ++ q) g (omega arith),
          skip_varint-varint payloadlen len1 blk.blklen q b (omega arith),
        )
        (skip_blks_written blks payloadlen len2 len' rest h (omega arith) (omega arith) fits))

pub take_blks_written :
    (blks : List AckBlk) (rest : List ℕ)
    → BlksFit blks
    → take_blks (length blks) (blks_bytes blks ++ rest) ≡ ok (blks, rest)
unfolding take_blks blks_bytes
take_blks_written [] rest h = refl
take_blks_written (blk ∷ blks) rest (g, b, h) =
    let q = blks_bytes blks ++ rest in
    rw
      (
        append_assoc (varint blk.gap) (varint blk.blklen ++ blks_bytes blks) rest,
        append_assoc (varint blk.blklen) (blks_bytes blks) rest,
      )
      (rw (
        take_varint-varint blk.gap (varint blk.blklen ++ q) g,
        take_varint-varint blk.blklen q b,
        take_blks_written blks rest h,
      ))
