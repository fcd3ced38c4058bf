-- ===== src/Pkt/AckRange.antt =====
-- lib/ngtcp2_pkt.c: `ngtcp2_pkt_validate_ack`, which checks that the blocks of an ACK frame stay
-- above packet number 0. An answer of 0 is `ok tt`.
use ngtcp.Base.{
  leb, if◌then◌else◌, ack_frame, Result, ok, err, ◌>>◌, guard, ℕ, ◌+◌, ◌-◌, ◌^◌, ◌<◌, ◌≡◌, List, [],
  ◌∷◌, arith,
}
use ngtcp.Pkt.Cursor.{add_size}
use ngtcp.Pkt.Frame.{AckBlk, Ack}

-- The loop: `largest_ack` runs down. `gap + 2` is an addition of `uint64_t`.
unfoldable pub validate_blks : ℕ → List AckBlk → Result (Unit {0})
validate_blks largest_ack [] = ok tt
validate_blks largest_ack (blk ∷ blks) = do
  guard (leb (add_size blk.gap 2) largest_ack) ack_frame
  let below = largest_ack - add_size blk.gap 2
  guard (leb blk.blklen below) ack_frame
  validate_blks (below - blk.blklen) blks

unfoldable pub validate_ack : Ack → Result (Unit {0})
validate_ack fr = do
  guard (leb fr.first_ack_blklen fr.largest_ack) ack_frame
  validate_blks (fr.largest_ack - fr.first_ack_blklen) fr.blks

-- How far the blocks reach below the number where they start: each leaves out `gap + 1` numbers
-- and takes in `blklen + 1`.
unfoldable pub reach : List AckBlk → ℕ
reach [] = 0
reach (blk ∷ blks) = blk.gap + 2 + blk.blklen + reach blks

-- No gap is so large that adding 2 would wrap; a varint is below 2 ^ 62.
abbrev pub GapsFit : List AckBlk → Type 0
GapsFit [] = Unit {0}
GapsFit (blk ∷ blks) = (blk.gap < 2 ^ 62) × GapsFit blks

validate_blks_lem :
    (largest_ack : ℕ) (blks : List AckBlk)
    → GapsFit blks
    → validate_blks largest_ack blks
      ≡ (if leb (reach blks) largest_ack then ok tt else err ack_frame)
unfolding validate_blks reach
validate_blks_lem largest_ack [] h = ground arith
validate_blks_lem largest_ack (blk ∷ blks) h =
    ground (arith, validate_blks_lem (largest_ack - (blk.gap + 2) - blk.blklen) blks h.1)

-- If each gap is below 2 ^ 62, as a varint is, `validate_ack` accepts a frame exactly if the packet
-- number where its last block ends is not below 0, that is if `first_ack_blklen` and all `gap + 2`
-- and `blklen` add up to at most `largest_ack`; it answers NGTCP2_ERR_ACK_FRAME if they do not.
pub validate_ack_lem :
    (fr : Ack)
    → GapsFit fr.blks
    → validate_ack fr
      ≡ (if leb (fr.first_ack_blklen + reach fr.blks) fr.largest_ack then ok tt else err ack_frame)
unfolding validate_ack
validate_ack_lem fr h =
    ground (arith, validate_blks_lem (fr.largest_ack - fr.first_ack_blklen) fr.blks h)
