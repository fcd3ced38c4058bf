-- ===== src/Track/Acktr/Removal.antt =====
-- Which entries `acktr_on_ack` takes out: those that the ACK frame acknowledges.
use ngtcp.Base.{
  ltb, leb, leb→le, Bool-cases, length, ℕ, ◌+◌, ◌-◌, ◌≤◌, ◌<◌, ◌≡◌, refl, ap, inl, inr, Bool, true,
  false, not, ◌&&◌, ◌||◌, List, [], ◌∷◌, ◌++◌, arith,
}
use ngtcp.Pkt.Frame.{AckBlk, Ack}
use ngtcp.Pkt.AckRange.{reach}
use ngtcp.Track.Ringbuf.{sub_size}
use ngtcp.Track.Acktr.{AcktrEntry}
use ngtcp.Track.Acktr.OnAck.{skip_above, remove_first, remove_blk}
use ngtcp.Track.Acktr.Order.{Below, IsDecreasing, keep, Below-le, keep-Below}

-- The numbers in the blocks behind the first one, which begin below `min_ack`.
unfoldable pub in_blks : ℕ → List AckBlk → ℕ → Bool
in_blks min_ack [] n = false
in_blks min_ack (blk ∷ blks) n =
    let largest = min_ack - (blk.gap + 2) in
    let smallest = largest - blk.blklen in
    (leb smallest n && leb n largest) || in_blks smallest blks n

-- The numbers that an ACK frame acknowledges.
unfoldable pub acknowledges : Ack → ℕ → Bool
acknowledges fr n =
    (leb (fr.largest_ack - fr.first_ack_blklen) n && leb n fr.largest_ack)
    || in_blks (fr.largest_ack - fr.first_ack_blklen) fr.blks n

pub in_blks-above :
    (min_ack : ℕ) (blks : List AckBlk) (n : ℕ)
    → reach blks ≤ min_ack
    → min_ack ≤ n
    → in_blks min_ack blks n ≡ false
unfolding in_blks reach
in_blks-above min_ack [] n r h = refl
in_blks-above min_ack (blk ∷ blks) n r h =
    ground (
      arith,
      in_blks-above (min_ack - (blk.gap + 2) - blk.blklen) blks n (omega arith) (omega arith),
    )

-- What is to stay of the entries below `n`, if `smallest` to `largest` go and `f` says what is to
-- stay below that.
unfoldable pub around : ℕ → ℕ → (ℕ → Bool) → ℕ → Bool
around smallest largest f n = ltb largest n || (ltb n smallest && f n)

pub around-not :
    (smallest largest n : ℕ) (q : ℕ → Bool)
    → smallest ≤ largest
    → (smallest ≤ n → q n ≡ false)
    → not ((leb smallest n && leb n largest) || q n) ≡ around smallest largest (λ m. not (q m)) n
unfolding around
around-not smallest largest n q le h = ground (arith, h, le)

pub remove_blk_lem :
    (smallest largest : ℕ) (f : ℕ → Bool) (ents : List AcktrEntry) (nack c : ℕ)
    → smallest ≤ largest
    → IsDecreasing ents
    → nack ≡ c + length ents
    → nack ≤ 1024
    → let r = remove_blk smallest largest ents nack in
      (keep (around smallest largest f) ents ≡ r.0 ++ keep f r.1)
      × Below smallest r.1
      × IsDecreasing r.1
      × (r.2 ≡ c + length r.0 + length r.1)
      × (r.2 ≤ nack)
unfolding remove_blk around keep
remove_blk_lem smallest largest f [] nack c le d e few =
    (refl, tt, tt, omega (arith, e), omega arith)
remove_blk_lem smallest largest f (x ∷ ents) nack c le d e few =
    elim (Bool-cases (ltb largest x.pkt_num)) [
      | inl a ↦
          let ih = remove_blk_lem smallest largest f ents nack (c + 1) le d.1 (omega arith) few in
          rw a (ap (λ t. x ∷ t) ih.0, ih.1, ih.2, omega (arith, ih.3), ih.4)
      | inr a ↦ elim (Bool-cases (ltb x.pkt_num smallest)) [
        | inl b ↦
            let same =
              keep-Below x.pkt_num (around smallest largest f) f ents
                (λ n h. ground (arith, a, b, le, h)) d.0 in
            rw (a, b)
              (
                rw same refl,
                (ground (arith, b), Below-le x.pkt_num smallest ents (ground (arith, b)) d.0),
                d,
                omega arith,
                omega arith,
              )
        | inr b ↦
            let s : sub_size nack 1 ≡ nack - 1 = omega arith in
            let ih =
              remove_blk_lem smallest largest f ents (nack - 1) c le d.1 (omega arith)
                (omega (arith, few)) in
            rw (a, b, s) (ih.0, ih.1, ih.2, ih.3, omega (arith, ih.4))
      ]
    ]

pub remove_first_lem :
    (smallest largest : ℕ) (f : ℕ → Bool) (ents : List AcktrEntry) (nack c : ℕ)
    → smallest ≤ largest
    → IsDecreasing ents
    → Below (largest + 1) ents
    → nack ≡ c + length ents
    → nack ≤ 1024
    → let r = remove_first smallest largest ents nack in
      (keep (around smallest largest f) ents ≡ keep f r.0)
      × Below smallest r.0
      × IsDecreasing r.0
      × (r.1 ≡ c + length r.0)
      × (r.1 ≤ nack)
unfolding remove_first around keep
remove_first_lem smallest largest f [] nack c le d u e few =
    (refl, tt, tt, omega (arith, e), omega arith)
remove_first_lem smallest largest f (x ∷ ents) nack c le d u e few =
    elim (Bool-cases (leb smallest x.pkt_num && leb x.pkt_num largest)) [
      | inl a ↦
          let s : sub_size nack 1 ≡ nack - 1 = omega arith in
          let ih =
            remove_first_lem smallest largest f ents (nack - 1) c le d.1 u.1 (omega arith)
              (omega (arith, few)) in
          let gone : (ltb largest x.pkt_num || (ltb x.pkt_num smallest && f x.pkt_num)) ≡ false =
            ground (arith, a) in
          rw (a, s, gone) (ih.0, ih.1, ih.2, ih.3, omega (arith, ih.4))
      | inr a ↦
          let below : x.pkt_num < smallest = ground (arith, a, u.0) in
          let same : keep (around smallest largest f) ents ≡ keep f ents =
            keep-Below x.pkt_num (around smallest largest f) f ents
              (λ n h. ground (arith, below, le, h)) d.0 in
          let stay : (ltb largest x.pkt_num || (ltb x.pkt_num smallest && f x.pkt_num))
              ≡ f x.pkt_num =
            ground (arith, below, le) in
          rw (a, stay)
            (
              rw same refl,
              (below, Below-le x.pkt_num smallest ents (omega (arith, below)) d.0),
              d,
              omega (arith, e),
              omega arith,
            )
    ]

pub skip_above_lem :
    (largest : ℕ) (f : ℕ → Bool) (ents : List AcktrEntry)
    → IsDecreasing ents
    → ((n : ℕ) → largest < n → f n ≡ true)
    → let r = skip_above largest ents in
      (keep f ents ≡ r.0 ++ keep f r.1)
      × Below (largest + 1) r.1
      × IsDecreasing r.1
      × (length ents ≡ length r.0 + length r.1)
unfolding skip_above keep
skip_above_lem largest f [] d all = (refl, tt, tt, refl)
skip_above_lem largest f (x ∷ ents) d all = elim (Bool-cases (leb x.pkt_num largest)) [
  | inl a ↦
      let le = leb→le _ _ a in
      rw a (
        refl,
        (omega (arith, le), Below-le x.pkt_num (largest + 1) ents (omega (arith, le)) d.0),
        d,
        omega arith,
      )
  | inr a ↦
      let ih = skip_above_lem largest f ents d.1 all in
      rw (a, all x.pkt_num (ground (arith, a)))
        (ap (λ t. x ∷ t) ih.0, ih.1, ih.2, omega (arith, ih.3))
]
