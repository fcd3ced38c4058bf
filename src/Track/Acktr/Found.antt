-- ===== src/Track/Acktr/Found.antt =====
-- `ngtcp2_acktr_recv_ack` as a whole.
use ngtcp.Base.{
  leb, leb→le, Bool-cases, length, elem_at, ok, ◌>>=◌, bind_assoc, ℕ, suc, ◌+◌, ◌-◌, ◌≤◌, ◌<◌, ◌≡◌,
  refl, sym, ap, ◌∙◌, ◌⊎◌, inl, inr, Bool, false, List, [], ◌∷◌, arith,
}
use ngtcp.Pkt.Frame.{AckBlk, Ack}
use ngtcp.Pkt.AckRange.{reach}
use ngtcp.Track.Ringbuf.{Ringbuf, sub_size, ringbuf_len}
use ngtcp.Track.Ringbuf.Refine.{Holds}
use ngtcp.Track.Acktr.{AcktrAckEntry, Acktr}
use ngtcp.Track.Acktr.RecvAck.{
  returns, found, breaks, first_below, search_blk, search_blks, search_acks, call_on_ack,
  acktr_recv_ack,
}
use ngtcp.Track.Acktr.Removal.{in_blks, acknowledges, in_blks-above}
use ngtcp.Track.Acktr.Acked.{IsValidAck, inside_frame, acknowledges-above}
use ngtcp.Track.Acktr.Search.{
  IsFalling, Under-le, AtRing, Holds-AtRing, find, find-none, wanted, Continues, in_either,
  search_blk_lem, search_first_lem,
}

-- One round of the loop over the blocks.
search_blks_step :
    (unprotected : Bool) (min_ack : ℕ) (blk : AckBlk) (blks : List AckBlk) (k j : ℕ)
    (y : AcktrAckEntry) (acks : Ringbuf AcktrAckEntry)
    → search_blks unprotected min_ack (blk ∷ blks) acks (breaks k j y) ≡ (
        search_blk unprotected
          (sub_size (sub_size (sub_size min_ack blk.gap) 2) blk.blklen)
          (sub_size (sub_size min_ack blk.gap) 2)
          k
          j
          y
          acks
        >>= search_blks unprotected
            (sub_size (sub_size (sub_size min_ack blk.gap) 2) blk.blklen)
            blks
            acks)
unfolding search_blks
search_blks_step unprotected min_ack blk blks k j y acks = refl

search_blks_end :
    (unprotected : Bool) (min_ack : ℕ) (acks : Ringbuf AcktrAckEntry) (k j : ℕ) (y : AcktrAckEntry)
    → search_blks unprotected min_ack [] acks (breaks k j y) ≡ ok returns
unfolding search_blks
search_blks_end unprotected min_ack acks k j y = refl

blks-Continues :
    (unprotected : Bool) (acks : Ringbuf AcktrAckEntry) (min_ack : ℕ) (blks : List AckBlk)
    → reach blks ≤ min_ack
    → min_ack < 4611686018427387904
    → Continues unprotected acks min_ack blks (in_blks min_ack blks)
unfolding in_blks reach wanted in_either
blks-Continues unprotected acks min_ack [] r m j y ys at u d =
    search_blks_end unprotected min_ack acks (length ys) j y ∙ ap ok (sym (find-none j (y ∷ ys)))
blks-Continues unprotected acks min_ack (blk ∷ blks) r m j y ys at u d =
    let largest = min_ack - (blk.gap + 2) in
    let smallest = largest - blk.blklen in
    let large : sub_size (sub_size min_ack blk.gap) 2 ≡ largest = omega arith in
    let small : sub_size largest blk.blklen ≡ smallest = omega arith in
    let below : reach blks ≤ smallest = omega (arith, r) in
    rw (search_blks_step unprotected min_ack blk blks (length ys) j y acks, large, small)
      (search_blk_lem unprotected acks smallest largest blks (in_blks smallest blks) (omega arith)
        (λ n h. in_blks-above smallest blks n below h)
        (blks-Continues unprotected acks smallest blks below (omega (arith, m))) j y ys at d)

find_step :
    (f : AcktrAckEntry → Bool) (j : ℕ) (y : AcktrAckEntry) (ys : List AcktrAckEntry)
    → f y ≡ false
    → find f j (y ∷ ys) ≡ find f (j + 1) ys
unfolding find
find_step f j y ys e = rw e refl

module _ (unprotected : Bool) (acks : Ringbuf AcktrAckEntry) (fr : Ack) (v : IsValidAck fr) where
  -- The search from the first entry that is not above the frame.
  search_from :
      (j : ℕ) (y : AcktrAckEntry) (ys : List AcktrAckEntry)
      → AtRing acks j (y ∷ ys)
      → IsFalling (y ∷ ys)
      → y.pkt_num ≤ fr.largest_ack
      → search_acks unprotected fr acks (breaks (length ys) j y)
        ≡ ok (find (wanted unprotected (acknowledges fr)) j (y ∷ ys))
  unfolding search_acks acknowledges wanted in_either
  search_from j y ys at d le =
      let largest = fr.largest_ack in
      let smallest = largest - fr.first_ack_blklen in
      let inside = inside_frame fr v in
      let small : sub_size largest fr.first_ack_blklen ≡ smallest =
        omega (arith, inside, v.varint) in
      let below : reach fr.blks ≤ smallest = omega (arith, inside) in
      rw small (
        search_first_lem unprotected acks smallest largest fr.blks (in_blks smallest fr.blks)
          (omega arith) (λ n h. in_blks-above smallest fr.blks n below h)
          (blks-Continues unprotected acks smallest fr.blks below (omega (arith, v.varint))) j y ys
          at d (omega (arith, le), Under-le y.pkt_num (largest + 1) ys (omega (arith, le)) d.0))

  nothing_below :
      (j : ℕ)
      → search_acks unprotected fr acks returns
        ≡ ok (find (wanted unprotected (acknowledges fr)) j [])
  unfolding search_acks find
  nothing_below j = refl

  not-wanted :
      (y : AcktrAckEntry)
      → fr.largest_ack < y.pkt_num
      → wanted unprotected (acknowledges fr) y ≡ false
  unfolding wanted
  not-wanted y lt = rw (acknowledges-above fr y.pkt_num v lt) refl

  acks_search :
      (j : ℕ) (ys : List AcktrAckEntry)
      → AtRing acks j ys
      → IsFalling ys
      → (first_below fr.largest_ack (length ys) j acks >>= search_acks unprotected fr acks)
        ≡ ok (find (wanted unprotected (acknowledges fr)) j ys)
  unfolding first_below
  acks_search j [] at d = nothing_below j
  acks_search j (y ∷ ys) at d = elim (Bool-cases (leb y.pkt_num fr.largest_ack)) [
    | inl a ↦ rw (at.0, a) (search_from j y ys at d (leb→le _ _ a))
    | inr a ↦
        rw (at.0, a, find_step _ j y ys (not-wanted y (ground (arith, a))))
          (acks_search (j + 1) ys at.1 d.1)
  ]

-- If a valid ACK frame arrives, the first frame in the ring counts as received that went out in a
-- packet which this one acknowledges; a frame from an unprotected packet confirms only such frames.
-- Without one nothing changes.
pub acktr_recv_ack_lem :
    (acktr : Acktr) (fr : Ack) (unprotected : Bool) (xs : List AcktrAckEntry)
    → Holds acktr.acks xs
    → IsFalling xs
    → IsValidAck fr
    → acktr_recv_ack acktr fr unprotected
      ≡ call_on_ack acktr (find (wanted unprotected (acknowledges fr)) 0 xs)
unfolding acktr_recv_ack ringbuf_len
acktr_recv_ack_lem acktr fr unprotected xs h d v =
    let at =
      Holds-AtRing acktr.acks 0 xs (λ i lt. let z : 0 + i ≡ i = omega arith in rw z (h.at i lt)) in
    let e = rw (sym h.count) at (acks_search unprotected acktr.acks fr v 0 xs at d) in
    (bind_assoc (first_below fr.largest_ack acktr.acks.len 0 acktr.acks)
        (search_acks unprotected fr acktr.acks) (call_on_ack acktr)
      ∙ ap (λ t. t >>= call_on_ack acktr) e)

pub find_cases :
    (f : AcktrAckEntry → Bool) (j : ℕ) (ys : List AcktrAckEntry)
    → (find f j ys ≡ returns)
      ⊎ ((i : ℕ) × (a : AcktrAckEntry) × (find f j ys ≡ found (j + i)) × (elem_at i ys ≡ ok a))
unfolding find
find_cases f j [] = inl refl
find_cases f j (y ∷ ys) = elim (Bool-cases (f y)) [
  | inl e ↦ let z : j + 0 ≡ j = omega arith in inr (0, y, rw (e, z) refl, refl)
  | inr e ↦ elim (find_cases f (j + 1) ys) [
    | inl n ↦ inl (rw (e, n) refl)
    | inr (i, a, n, at) ↦
        let s : j + suc i ≡ j + 1 + i = omega arith in inr (suc i, a, rw (e, n, s) refl, at)
  ]
]
