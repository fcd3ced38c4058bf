-- ===== src/Track/Acktr/Acked.antt =====
-- `acktr_on_ack` as a whole.
use ngtcp.Track.Ringbuf.Refine.{Holds, ringbuf_resize-Holds}
use ngtcp.Base.{
  Bool-cases, length, take, length-append, elem_at, elem_at_inside, elem_at_total, ok, ℕ, zero, suc,
  ◌+◌, ◌-◌, ◌≤◌, ◌<◌, ◌≡◌, refl, sym, ap, ◌∙◌, inl, inr, Bool, false, not, List, [], ◌∷◌, ◌++◌,
  arith,
}
use ngtcp.Pkt.Frame.{AckBlk, Ack}
use ngtcp.Pkt.AckRange.{validate_ack, reach, GapsFit, validate_ack_lem}
use ngtcp.Track.Ringbuf.{Ringbuf, sub_size, ringbuf_get}
use ngtcp.Track.Acktr.{AcktrEntry, AcktrAckEntry, Acktr}
use ngtcp.Track.Acktr.OnAck.{
  skip_above, remove_first, remove_blk, remove_blks, remove_acked, free_acks, acktr_on_ack,
}
use ngtcp.Track.Acktr.Order.{Below, IsDecreasing, IsAcktr, keep, keep-Below, keep-all}
use ngtcp.Track.Acktr.Removal.{
  in_blks, acknowledges, in_blks-above, around, around-not, remove_blk_lem, remove_first_lem,
  skip_above_lem,
}

-- A frame that `ngtcp2_pkt_validate_ack` accepts, with numbers that a varint can carry.
pub record IsValidAck (fr : Ack) : Type 0 where
  pub accepted : validate_ack fr ≡ ok tt
  pub gaps : GapsFit fr.blks
  pub varint : fr.largest_ack < 4611686018427387904

pub inside_frame : (fr : Ack) → IsValidAck fr → fr.first_ack_blklen + reach fr.blks ≤ fr.largest_ack
inside_frame fr v = ground (arith, validate_ack_lem fr v.gaps, v.accepted)

remove_blks_lem :
    (min_ack : ℕ) (blks : List AckBlk) (ents : List AcktrEntry) (nack c : ℕ)
    → reach blks ≤ min_ack
    → min_ack < 4611686018427387904
    → Below min_ack ents
    → IsDecreasing ents
    → nack ≡ c + length ents
    → nack ≤ 1024
    → let r = remove_blks min_ack blks ents nack in
      (r.0 ≡ keep (λ n. not (in_blks min_ack blks n)) ents) × (r.1 ≡ c + length r.0)
unfolding remove_blks in_blks reach keep
remove_blks_lem min_ack [] ents nack c r m b d e few = (sym (keep-all ents), e)
remove_blks_lem min_ack (blk ∷ blks) [] nack c r m b d e few = (refl, e)
remove_blks_lem min_ack (blk ∷ blks) (x ∷ ents) nack c r m b d e few =
    let largest = min_ack - (blk.gap + 2) in
    let smallest = largest - blk.blklen in
    let f : ℕ → Bool = λ n. not (in_blks smallest blks n) in
    let large : sub_size (sub_size min_ack blk.gap) 2 ≡ largest = omega arith in
    let small : sub_size largest blk.blklen ≡ smallest = omega arith in
    let step = remove_blk smallest largest (x ∷ ents) nack in
    let one = remove_blk_lem smallest largest f (x ∷ ents) nack c (omega arith) d e few in
    let rest =
      remove_blks_lem smallest blks step.1 step.2 (c + length step.0) (omega (arith, r))
        (omega (arith, m)) one.1 one.2 one.3 (omega (arith, one.4, few)) in
    let same : keep (λ n. not (in_blks min_ack (blk ∷ blks) n)) (x ∷ ents)
        ≡ keep (around smallest largest f) (x ∷ ents) =
      keep-Below min_ack (λ n. not (in_blks min_ack (blk ∷ blks) n)) (around smallest largest f)
        (x ∷ ents)
        (λ n h.
          around-not smallest largest n (in_blks smallest blks) (omega arith)
            (in_blks-above smallest blks n (omega (arith, r))))
        b in
    rw (large, small, same)
      (
        ap (λ t. step.0 ++ t) rest.0 ∙ sym one.0,
        rest.1 ∙ omega (arith, length-append step.0 (remove_blks smallest blks step.1 step.2).0),
      )

remove_acked_lem :
    (fr : Ack) (ents : List AcktrEntry) (nack c : ℕ)
    → IsValidAck fr
    → IsDecreasing ents
    → Below (fr.largest_ack + 1) ents
    → nack ≡ c + length ents
    → nack ≤ 1024
    → let r = remove_acked fr ents nack in
      (r.0 ≡ keep (λ n. not (acknowledges fr n)) ents) × (r.1 ≡ c + length r.0)
unfolding remove_acked acknowledges keep
remove_acked_lem fr [] nack c v d u e few = (refl, e)
remove_acked_lem fr (x ∷ ents) nack c v d u e few =
    let largest = fr.largest_ack in
    let smallest = largest - fr.first_ack_blklen in
    let q = in_blks smallest fr.blks in
    let inside = inside_frame fr v in
    let small : sub_size largest fr.first_ack_blklen ≡ smallest = omega (arith, inside, v.varint) in
    let step = remove_first smallest largest (x ∷ ents) nack in
    let one =
      remove_first_lem smallest largest (λ n. not (q n)) (x ∷ ents) nack c (omega arith) d u e
        few in
    let rest =
      remove_blks_lem smallest fr.blks step.0 step.1 c (omega (arith, inside))
        (omega (arith, v.varint)) one.1 one.2 one.3 (omega (arith, one.4, few)) in
    let same : keep (λ n. not (acknowledges fr n)) (x ∷ ents)
        ≡ keep (around smallest largest (λ n. not (q n))) (x ∷ ents) =
      keep-Below (largest + 1) (λ n. not (acknowledges fr n))
        (around smallest largest (λ n. not (q n))) (x ∷ ents)
        (λ n h.
          around-not smallest largest n q (omega arith)
            (in_blks-above smallest fr.blks n (omega (arith, inside))))
        u in
    rw (small, same) (rest.0 ∙ sym one.0, rest.1)

free_acks_lem :
    (acks : Ringbuf AcktrAckEntry) (xs : List AcktrAckEntry) (k i : ℕ)
    → Holds acks xs
    → i + k ≤ length xs
    → free_acks k i acks ≡ ok tt
unfolding free_acks
free_acks_lem acks xs zero i h le = refl
free_acks_lem acks xs (suc k) i h le =
    let (a, e) = elem_at_total i xs (omega arith) in
    rw (h.at i (omega arith), e) (free_acks_lem acks xs k (i + 1) h (omega arith))

Below-keep : (n : ℕ) (f : ℕ → Bool) (ents : List AcktrEntry) → Below n ents → Below n (keep f ents)
unfolding keep
Below-keep n f [] h = tt
Below-keep n f (x ∷ ents) h = elim (Bool-cases (f x.pkt_num)) [
  | inl e ↦ rw e (h.0, Below-keep n f ents h.1)
  | inr e ↦ rw e (Below-keep n f ents h.1)
]

keep-IsDecreasing :
    (f : ℕ → Bool) (ents : List AcktrEntry) → IsDecreasing ents → IsDecreasing (keep f ents)
unfolding keep
keep-IsDecreasing f [] h = tt
keep-IsDecreasing f (x ∷ ents) h = elim (Bool-cases (f x.pkt_num)) [
  | inl e ↦ rw e (Below-keep x.pkt_num f ents h.0, keep-IsDecreasing f ents h.1)
  | inr e ↦ rw e (keep-IsDecreasing f ents h.1)
]

length-keep : (f : ℕ → Bool) (ents : List AcktrEntry) → length (keep f ents) ≤ length ents
unfolding keep
length-keep f [] = omega arith
length-keep f (x ∷ ents) = ground (arith, length-keep f ents)

pub acknowledges-above :
    (fr : Ack) (n : ℕ) → IsValidAck fr → fr.largest_ack < n → acknowledges fr n ≡ false
unfolding acknowledges
acknowledges-above fr n v lt =
    let inside = inside_frame fr v in
    ground (
      arith,
      in_blks-above (fr.largest_ack - fr.first_ack_blklen) fr.blks n (omega (arith, inside))
          (omega (arith, lt)),
    )

-- An ACK frame that was sent earlier, at the place `offset` of the ring, is known to have arrived.
-- If it is valid, exactly the entries that it acknowledges go, `nack` stays the number of the
-- entries, and the ring keeps the frames before it, that is the later ones.
pub acktr_on_ack_lem :
    (acktr : Acktr) (xs : List AcktrAckEntry) (offset : ℕ) (sent : AcktrAckEntry)
    → Holds acktr.acks xs
    → elem_at offset xs ≡ ok sent
    → IsAcktr acktr
    → IsValidAck sent.ack
    → (after : Acktr) × (acktr_on_ack acktr offset ≡ ok after)
      × (after.ent ≡ keep (λ n. not (acknowledges sent.ack n)) acktr.ent)
      × IsAcktr after
      × Holds after.acks (take offset xs)
unfolding acktr_on_ack
acktr_on_ack_lem acktr xs offset sent h e inv v =
    let fr = sent.ack in
    let f : ℕ → Bool = λ n. not (acknowledges fr n) in
    let inside = elem_at_inside offset sent xs e in
    let got : ringbuf_get acktr.acks offset ≡ ok sent = h.at offset inside ∙ e in
    let (acks, resized, holds) =
      ringbuf_resize-Holds acktr.acks xs h offset (omega (arith, inside)) in
    let freed =
      free_acks_lem acktr.acks xs (acktr.acks.len - offset) offset h
        (omega (arith, h.count, inside)) in
    let parts = skip_above fr.largest_ack acktr.ent in
    let skip =
      skip_above_lem fr.largest_ack f acktr.ent inv.ordered
        (λ n lt. rw (acknowledges-above fr n v lt) refl) in
    let gone =
      remove_acked_lem fr parts.1 acktr.nack (length parts.0) v skip.2 skip.1
        (omega (arith, skip.3, inv.counted)) inv.few in
    let left = remove_acked fr parts.1 acktr.nack in
    let ent : parts.0 ++ left.0 ≡ keep f acktr.ent = ap (λ t. parts.0 ++ t) gone.0 ∙ sym skip.0 in
    let after = record acktr { acks = acks; ent = parts.0 ++ left.0; nack = left.1 } in
    let counted : left.1 ≡ length (parts.0 ++ left.0) =
      gone.1 ∙ sym (length-append parts.0 left.0) in
    (
      after,
      rw (got, freed, resized) refl,
      ent,
      record {
        ordered = rw ent (keep-IsDecreasing f acktr.ent inv.ordered);
        counted = counted;
        few = omega (arith, counted, ap length ent, length-keep f acktr.ent, inv.counted, inv.few);
      },
      holds,
    )
