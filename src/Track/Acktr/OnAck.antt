-- ===== src/Track/Acktr/OnAck.antt =====
-- `acktr_on_ack` of lib/ngtcp2_acktr.c: the peer has acknowledged a packet with an ACK frame, and the
-- entries that this frame was about are taken out.
use ngtcp.Base.{
  ltb, leb, if◌then◌else◌, Result, ok, ◌>>=◌, ◌>>◌, ℕ, zero, suc, ◌+◌, ◌-◌, ◌&&◌, List, [], ◌∷◌,
  ◌++◌,
}
use ngtcp.Pkt.Frame.{AckBlk, Ack}
use ngtcp.Track.Ringbuf.{Ringbuf, sub_size, ringbuf_resize, ringbuf_get}
use ngtcp.Track.Acktr.{AcktrEntry, AcktrAckEntry, Acktr}

-- The first loop: the entries above `largest_ack`, and the others.
unfoldable pub skip_above : ℕ → List AcktrEntry → List AcktrEntry × List AcktrEntry
skip_above largest_ack [] = ([], [])
skip_above largest_ack (e ∷ ents) =
    let (above, rest) = skip_above largest_ack ents in
    if leb e.pkt_num largest_ack then ([], e ∷ ents) else (e ∷ above, rest)

-- The second loop. `acktr_remove` takes out the first entry and counts `nack` down.
unfoldable pub remove_first : ℕ → ℕ → List AcktrEntry → ℕ → List AcktrEntry × ℕ
remove_first min_ack largest_ack [] nack = ([], nack)
remove_first min_ack largest_ack (e ∷ ents) nack =
    let rest = remove_first min_ack largest_ack ents (sub_size nack 1) in
    if leb min_ack e.pkt_num && leb e.pkt_num largest_ack then rest else (e ∷ ents, nack)

-- The loop inside the loop over the blocks: the entries that it passes, those that it does not
-- reach, and `nack`.
unfoldable pub remove_blk : ℕ → ℕ → List AcktrEntry → ℕ → List AcktrEntry × List AcktrEntry × ℕ
remove_blk min_ack largest_ack [] nack = ([], [], nack)
remove_blk min_ack largest_ack (e ∷ ents) nack =
    let above = ltb largest_ack e.pkt_num in
    let below = ltb e.pkt_num min_ack in
    let left = if above then nack else sub_size nack 1 in
    let (passed, rest, left) = remove_blk min_ack largest_ack ents left in
    if above
    then (e ∷ passed, rest, left)
    else if below
    then ([], e ∷ ents, nack)
    else (passed, rest, left)

-- The loop over the blocks.
unfoldable pub remove_blks : ℕ → List AckBlk → List AcktrEntry → ℕ → List AcktrEntry × ℕ
remove_blks min_ack [] ents nack = (ents, nack)
remove_blks min_ack (blk ∷ blks) [] nack = ([], nack)
remove_blks min_ack (blk ∷ blks) (e ∷ ents) nack =
    let largest_ack = sub_size (sub_size min_ack blk.gap) 2 in
    let min_ack = sub_size largest_ack blk.blklen in
    let (passed, rest, nack) = remove_blk min_ack largest_ack (e ∷ ents) nack in
    let (left, nack) = remove_blks min_ack blks rest nack in (passed ++ left, nack)

-- What happens to the entries that are not above `largest_ack`.
unfoldable pub remove_acked : Ack → List AcktrEntry → ℕ → List AcktrEntry × ℕ
remove_acked fr [] nack = ([], nack)
remove_acked fr (e ∷ ents) nack =
    let min_ack = sub_size fr.largest_ack fr.first_ack_blklen in
    let (rest, nack) = remove_first min_ack fr.largest_ack (e ∷ ents) nack in
    remove_blks min_ack fr.blks rest nack

-- `for (i = ack_ent_offset; i < acktr->acks.len; ++i)`, with `k` rounds to go.
unfoldable pub free_acks : ℕ → ℕ → Ringbuf AcktrAckEntry → Result (Unit {0})
free_acks zero i acks = ok tt
free_acks (suc k) i acks = do ent ← ringbuf_get acks i; free_acks k (i + 1) acks

unfoldable pub acktr_on_ack : Acktr → ℕ → Result Acktr
acktr_on_ack acktr ack_ent_offset = do
  ent ← ringbuf_get acktr.acks ack_ent_offset
  let (above, ents) = skip_above ent.ack.largest_ack acktr.ent
  let (ents, nack) = remove_acked ent.ack ents acktr.nack
  free_acks (acktr.acks.len - ack_ent_offset) ack_ent_offset acktr.acks
  acks ← ringbuf_resize acktr.acks ack_ent_offset
  ok (record acktr { acks = acks; ent = above ++ ents; nack = nack })
