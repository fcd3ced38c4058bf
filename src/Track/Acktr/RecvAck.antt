-- ===== src/Track/Acktr/RecvAck.antt =====
-- `ngtcp2_acktr_recv_ack` of lib/ngtcp2_acktr.c. `j` is the offset of `ent` in the ring, and `k` the
-- number of the entries behind it, `nacks - 1 - j`.
use ngtcp.Base.{
  ltb, leb, if◌then◌else◌, Result, ok, ◌>>=◌, ℕ, zero, suc, ◌+◌, Bool, not, ◌&&◌, List, [], ◌∷◌,
}
use ngtcp.Pkt.Frame.{AckBlk, Ack}
use ngtcp.Track.Ringbuf.{Ringbuf, sub_size, ringbuf_get, ringbuf_len}
use ngtcp.Track.Acktr.{AcktrAckEntry, Acktr}
use ngtcp.Track.Acktr.OnAck.{acktr_on_ack}

-- Where a loop over the entries ends: `return`, the call of `acktr_on_ack`, or `break`.
pub data Search : Type 0 where
  returns : Search
  found : ℕ → Search
  breaks : ℕ → ℕ → AcktrAckEntry → Search

-- The first loop, over the entries from `j` on.
unfoldable pub first_below : ℕ → ℕ → ℕ → Ringbuf AcktrAckEntry → Result Search
first_below largest_ack zero j acks = ok returns
first_below largest_ack (suc k) j acks = do
  ent ← ringbuf_get acks j
  (if leb ent.pkt_num largest_ack
      then ok (breaks k j ent)
      else first_below largest_ack k (j + 1) acks)

-- `if (unprotected && !ent->unprotected)`
unfoldable pub not_trusted : Bool → AcktrAckEntry → Bool
not_trusted unprotected ent = unprotected && not ent.unprotected

-- The loop on the first block.
unfoldable pub search_first :
    Bool → ℕ → ℕ → ℕ → ℕ → AcktrAckEntry → Ringbuf AcktrAckEntry → Result Search
search_first unprotected min_ack largest_ack zero j ent acks =
    if leb min_ack ent.pkt_num && leb ent.pkt_num largest_ack
    then (if not_trusted unprotected ent then ok returns else ok (found j))
    else ok (breaks zero j ent)
search_first unprotected min_ack largest_ack (suc k) j ent acks =
    let next = (do
      ent ← ringbuf_get acks (j + 1)
      search_first unprotected min_ack largest_ack k (j + 1) ent acks) in
    if leb min_ack ent.pkt_num && leb ent.pkt_num largest_ack
    then (if not_trusted unprotected ent then next else ok (found j))
    else ok (breaks (suc k) j ent)

-- The loop inside the loop over the other blocks.
unfoldable pub search_blk :
    Bool → ℕ → ℕ → ℕ → ℕ → AcktrAckEntry → Ringbuf AcktrAckEntry → Result Search
search_blk unprotected min_ack largest_ack zero j ent acks =
    if ltb largest_ack ent.pkt_num
    then ok returns
    else if ltb ent.pkt_num min_ack
    then ok (breaks zero j ent)
    else if not_trusted unprotected ent
    then ok returns
    else ok (found j)
search_blk unprotected min_ack largest_ack (suc k) j ent acks =
    let next = (do
      ent ← ringbuf_get acks (j + 1)
      search_blk unprotected min_ack largest_ack k (j + 1) ent acks) in
    if ltb largest_ack ent.pkt_num
    then next
    else if ltb ent.pkt_num min_ack
    then ok (breaks (suc k) j ent)
    else if not_trusted unprotected ent
    then next
    else ok (found j)

-- The loop over the blocks, from the entry where the last search ended.
unfoldable pub search_blks : Bool → ℕ → List AckBlk → Ringbuf AcktrAckEntry → Search → Result Search
search_blks unprotected min_ack blks acks returns = ok returns
search_blks unprotected min_ack blks acks (found j) = ok (found j)
search_blks unprotected min_ack [] acks (breaks k j ent) = ok returns
search_blks unprotected min_ack (blk ∷ blks) acks (breaks k j ent) = do
  let largest_ack = sub_size (sub_size min_ack blk.gap) 2
  let min_ack = sub_size largest_ack blk.blklen
  s ← search_blk unprotected min_ack largest_ack k j ent acks
  search_blks unprotected min_ack blks acks s

-- From the entry that the first loop has found.
unfoldable pub search_acks : Bool → Ack → Ringbuf AcktrAckEntry → Search → Result Search
search_acks unprotected fr acks returns = ok returns
search_acks unprotected fr acks (found j) = ok (found j)
search_acks unprotected fr acks (breaks k j ent) = do
  let min_ack = sub_size fr.largest_ack fr.first_ack_blklen
  s ← search_first unprotected min_ack fr.largest_ack k j ent acks
  search_blks unprotected min_ack fr.blks acks s

unfoldable pub call_on_ack : Acktr → Search → Result Acktr
call_on_ack acktr returns = ok acktr
call_on_ack acktr (found j) = acktr_on_ack acktr j
call_on_ack acktr (breaks k j ent) = ok acktr

unfoldable pub acktr_recv_ack : Acktr → Ack → Bool → Result Acktr
acktr_recv_ack acktr fr unprotected = do
  s ← first_below fr.largest_ack (ringbuf_len acktr.acks) 0 acktr.acks
  s ← search_acks unprotected fr acktr.acks s
  call_on_ack acktr s
