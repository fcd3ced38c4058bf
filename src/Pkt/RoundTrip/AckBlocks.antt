-- ===== src/Pkt/RoundTrip/AckBlocks.antt =====
-- ACK frames: what the encoder writes, and that the decoder reads it back.
use ngtcp.Pkt.Cursor.{add_size, decoded}
use ngtcp.Base.{
  leb, if◌then◌else◌, le→leb, eq→==, length, length-append, nobuf, ok, err, ℕ, suc, ◌+◌, ◌-◌, ◌*◌,
  ◌≤◌, min, ◌≡◌, ap, List, ◌∷◌, ◌++◌, append_assoc, arith,
}
use ngtcp.Conv.RoundTrip.{
  varint_size, varint, IsVarint, put_varint_len_lem, length-varint, put_varint_lem,
  get_varint_len-varint, get_varint-varint,
}
use ngtcp.Pkt.Frame.{Ack}
use ngtcp.Pkt.Encode.Data.{encode_ack_frame}
use ngtcp.Pkt.Decode.Data.{
  pass_varint, pass_blks, max_ack_blks, scan_ack_frame, read_ack_frame, decode_ack_frame,
}
use ngtcp.Pkt.RoundTrip.Step.{
  drop-varint, skip_varint-varint, take_varint-varint, written, encoded_if,
}
use ngtcp.Pkt.RoundTrip.Blocks.{
  BlksFit, blks_bytes, blks_len_lem, put_blks_lem, length-le-blks_bytes, skip_blks_written,
  take_blks_written,
}

-- The bytes of an ACK frame.
unfoldable pub ack_bytes : Ack → List ℕ
ack_bytes fr =
    0x0e
    ∷ (varint fr.largest_ack
        ++ (varint fr.ack_delay
            ++ (varint (length fr.blks) ++ (varint fr.first_ack_blklen ++ blks_bytes fr.blks))))

-- An ACK frame whose fields fit the wire format.
pub record AckFits (fr : Ack) : Type 0 where
  pub largest : IsVarint fr.largest_ack
  pub delay : IsVarint fr.ack_delay
  pub first : IsVarint fr.first_ack_blklen
  pub count : length fr.blks ≤ max_ack_blks
  pub blocks : BlksFit fr.blks

length-ack_bytes :
    (fr : Ack)
    → length (ack_bytes fr)
      ≡ 1
        + varint_size fr.largest_ack
        + varint_size fr.ack_delay
        + varint_size (length fr.blks)
        + varint_size fr.first_ack_blklen
        + length (blks_bytes fr.blks)
unfolding ack_bytes
length-ack_bytes fr =
    let p = varint fr.first_ack_blklen ++ blks_bytes fr.blks in
    let q = varint (length fr.blks) ++ p in
    omega (
      arith,
      length-append (varint fr.largest_ack) (varint fr.ack_delay ++ q),
      length-append (varint fr.ack_delay) q,
      length-append (varint (length fr.blks)) p,
      length-append (varint fr.first_ack_blklen) (blks_bytes fr.blks),
      length-varint fr.largest_ack,
      length-varint fr.ack_delay,
      length-varint (length fr.blks),
      length-varint fr.first_ack_blklen,
    )

pub encode_ack_written :
    (fr : Ack)
    → AckFits fr
    → (outlen : ℕ)
    → encode_ack_frame outlen fr
      ≡ (if leb (length (ack_bytes fr)) outlen then ok (ack_bytes fr) else err nobuf)
unfolding encode_ack_frame ack_bytes
encode_ack_written fr f outlen =
    rw (put_varint_len_lem fr.largest_ack f.largest, put_varint_len_lem fr.ack_delay f.delay)
      (rw
        (
          put_varint_len_lem (length fr.blks) (omega (arith, f.count)),
          put_varint_len_lem fr.first_ack_blklen f.first,
          blks_len_lem fr.blks f.blocks,
        )
        (rw (put_varint_lem fr.largest_ack f.largest, put_varint_lem fr.ack_delay f.delay)
          (rw
            (
              put_varint_lem (length fr.blks) (omega (arith, f.count)),
              put_varint_lem fr.first_ack_blklen f.first,
              put_blks_lem fr.blks f.blocks,
            )
            (encoded_if outlen _ (ack_bytes fr) (length-ack_bytes fr)))))

ack_bytes-append :
    (fr : Ack) (rest : List ℕ)
    → ack_bytes fr ++ rest
      ≡ 0x0e
        ∷ (varint fr.largest_ack
            ++ (varint fr.ack_delay
                ++ (varint (length fr.blks)
                    ++ (varint fr.first_ack_blklen ++ (blks_bytes fr.blks ++ rest)))))
unfolding ack_bytes
ack_bytes-append fr rest = simp append_assoc

module _ (fr : Ack) (rest : List ℕ) (f : AckFits fr) where
  scan_ack_written :
      scan_ack_frame (ack_bytes fr ++ rest) ≡ ok (length fr.blks, length (ack_bytes fr))
  unfolding scan_ack_frame
  scan_ack_written =
      let a = fr.largest_ack in
      let d = fr.ack_delay in
      let b = length fr.blks in
      let c = fr.first_ack_blklen in
      let hb : IsVarint b = omega (arith, f.count) in
      let p4 = blks_bytes fr.blks ++ rest in
      let p3 = varint c ++ p4 in
      let p2 = varint b ++ p3 in
      let p1 = varint d ++ p2 in
      let total = suc (length (varint a ++ p1)) in
      let l0 = length-append (varint a) p1 in
      let l1 = length-append (varint d) p2 in
      let l2 = length-append (varint b) p3 in
      let l3 = length-append (varint c) p4 in
      let l4 = length-append (blks_bytes fr.blks) rest in
      let va = written a f.largest in
      let vd = written d f.delay in
      let vb = written b hb in
      let vc = written c f.first in
      let whole = length-ack_bytes fr in
      let room = length-le-blks_bytes fr.blks in
      let n1 = 5 + varint_size a - 1 in
      let n2 = n1 + varint_size d - 1 in
      let n3 = n2 + varint_size b - 1 in
      let n4 = add_size n3 (b * 2) in
      let n5 = n4 + varint_size c - 1 in
      let count = f.count in
      rw ack_bytes-append (
        rw
          (
            skip_varint-varint total 5 a p1 f.largest (omega arith),
            skip_varint-varint total n1 d p2 f.delay (omega arith),
            skip_varint-varint total n2 b p3 hb (omega arith),
          )
          (rw
            (get_varint-varint b p3 hb, le→leb 5 total (omega arith), le→leb n4 total (omega arith))
            (rw (
              skip_varint-varint total n4 c p4 f.first (omega arith),
              skip_blks_written fr.blks total n5 (length (ack_bytes fr)) rest f.blocks (omega arith)
                  (omega arith) (omega arith),
            ))))

  pub decode_ack_written : decode_ack_frame (ack_bytes fr ++ rest) ≡ ok (fr, length (ack_bytes fr))
  unfolding decode_ack_frame read_ack_frame pass_varint decoded pass_blks
  decode_ack_written =
      let a = fr.largest_ack in
      let d = fr.ack_delay in
      let b = length fr.blks in
      let c = fr.first_ack_blklen in
      let hb : IsVarint b = omega (arith, f.count) in
      let p4 = blks_bytes fr.blks ++ rest in
      let p3 = varint c ++ p4 in
      let p2 = varint b ++ p3 in
      let p1 = varint d ++ p2 in
      let all : min max_ack_blks b ≡ b = omega (arith, f.count) in
      let none_left : b - b ≡ 0 = omega arith in
      let span = ap length (ack_bytes-append fr rest) in
      rw scan_ack_written (
        rw (all, none_left, ack_bytes-append)
          (rw
            (
              take_varint-varint a p1 f.largest,
              take_varint-varint d p2 f.delay,
              get_varint_len-varint b p3 hb,
              drop-varint b p3,
            )
            (rw (take_varint-varint c p4 f.first, take_blks_written fr.blks rest f.blocks)
              (rw (
                eq→== (suc (length (varint a ++ p1)) - length rest) (length (ack_bytes fr))
                  (omega (arith, span, length-append (ack_bytes fr) rest)))))))
