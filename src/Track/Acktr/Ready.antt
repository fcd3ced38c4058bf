-- ===== src/Track/Acktr/Ready.antt =====
-- The state of `ngtcp2_acktr` from `ngtcp2_acktr_init` on.
use ngtcp.Track.Acktr.Found.{acktr_recv_ack_lem, find_cases}
use ngtcp.Pkt.Safety.Step.{Ensures-bind}
use ngtcp.Track.Acktr.{AcktrAckEntry, Acktr, acktr_init, acktr_add_ack}
use ngtcp.Track.Acktr.Order.{IsAcktr}
use ngtcp.Base.{
  length, take, take-all, elem_at, elem_at_inside, ok, Ensures, ℕ, zero, suc, ◌+◌, ◌<◌, ◌≡◌, refl,
  ◌∙◌, inl, inr, Bool, Option, some, List, [], ◌∷◌, arith,
}
use ngtcp.Pkt.Frame.{Ack}
use ngtcp.Track.Ringbuf.Refine.{Holds, ringbuf_push_front-Holds, ringbuf_init-Holds}
use ngtcp.Track.Ringbuf.{ringbuf_init}
use ngtcp.Track.Ringbuf.Refine.{Holds, ringbuf_push_front-Holds, ringbuf_init-Holds}
use ngtcp.Track.Acktr.{AcktrAckEntry, Acktr, acktr_init, acktr_add_ack}
use ngtcp.Track.Acktr.RecvAck.{call_on_ack, acktr_recv_ack}
use ngtcp.Track.Acktr.Removal.{acknowledges}
use ngtcp.Track.Acktr.Acked.{IsValidAck, acktr_on_ack_lem}
use ngtcp.Track.Acktr.Search.{Under, IsFalling, wanted}

abbrev pub AllValid : List AcktrAckEntry → Type 0
AllValid [] = Unit {0}
AllValid (y ∷ ys) = IsValidAck y.ack × AllValid ys

-- A state as the connection keeps it: `xs` are the ACK frames that were sent, the last one first.
pub record IsReady (acktr : Acktr) (xs : List AcktrAckEntry) : Type 0 where
  pub inv : IsAcktr acktr
  pub holds : Holds acktr.acks xs
  pub falling : IsFalling xs
  pub valid : AllValid xs

valid_at :
    (i : ℕ) (xs : List AcktrAckEntry)
    → AllValid xs
    → i < length xs
    → Ensures (λ (b : AcktrAckEntry). IsValidAck b.ack) (elem_at i xs)
valid_at i [] h lt = absurd (omega (arith, lt))
valid_at zero (y ∷ ys) h lt = h.0
valid_at (suc i) (y ∷ ys) h lt = valid_at i ys h.1 (omega (arith, lt))

take-AllValid : (n : ℕ) (xs : List AcktrAckEntry) → AllValid xs → AllValid (take n xs)
take-AllValid zero xs h = tt
take-AllValid (suc n) [] h = tt
take-AllValid (suc n) (y ∷ ys) h = (h.0, take-AllValid n ys h.1)

Under-take : (m n : ℕ) (ys : List AcktrAckEntry) → Under m ys → Under m (take n ys)
Under-take m zero ys h = tt
Under-take m (suc n) [] h = tt
Under-take m (suc n) (y ∷ ys) h = (h.0, Under-take m n ys h.1)

take-IsFalling : (n : ℕ) (ys : List AcktrAckEntry) → IsFalling ys → IsFalling (take n ys)
take-IsFalling zero ys h = tt
take-IsFalling (suc n) [] h = tt
take-IsFalling (suc n) (y ∷ ys) h = (Under-take y.pkt_num n ys h.0, take-IsFalling n ys h.1)

-- `ngtcp2_acktr_recv_ack` ends without a fault on any valid frame, and leaves a state of the same
-- kind: the entries in order and counted, and of the frames that were sent the later ones.
pub acktr_recv_ack-IsReady :
    (acktr : Acktr) (fr : Ack) (unprotected : Bool) (xs : List AcktrAckEntry)
    → IsReady acktr xs
    → IsValidAck fr
    → (after : Acktr) × (n : ℕ) × (acktr_recv_ack acktr fr unprotected ≡ ok after)
      × IsReady after (take n xs)
unfolding call_on_ack
acktr_recv_ack-IsReady acktr fr unprotected xs h v =
    let run = acktr_recv_ack_lem acktr fr unprotected xs h.holds h.falling v in
    elim (find_cases (wanted unprotected (acknowledges fr)) 0 xs) [
      | inl e ↦ (acktr, length xs, run ∙ rw e refl, rw (take-all (length xs) xs (omega arith)) h)
      | inr (i, sent, e, at) ↦
          let z : 0 + i ≡ i = omega arith in
          let (after, done, ent, inv, holds) =
            acktr_on_ack_lem acktr xs i sent h.holds at h.inv
              (rw at at (valid_at i xs h.valid (elem_at_inside i sent xs at))) in
          (
            after,
            i,
            run ∙ rw (e, z) done,
            record {
              inv = inv;
              holds = holds;
              falling = take-IsFalling i xs h.falling;
              valid = take-AllValid i xs h.valid;
            },
          )
    ]

-- A valid ACK frame that goes out in a packet with a number above those before it comes first in
-- the ring; the entries stay as they are, and of more frames than the ring has slots the oldest goes.
pub acktr_add_ack-IsReady :
    (acktr : Acktr) (pkt_num : ℕ) (fr : Ack) (unprotected : Bool) (xs : List AcktrAckEntry)
    → IsReady acktr xs
    → Under pkt_num xs
    → IsValidAck fr
    → (after : Acktr) × (acktr_add_ack acktr pkt_num fr unprotected ≡ ok after)
      × (after.ent ≡ acktr.ent)
      × IsReady after (
          take acktr.acks.nmemb
            (record { ack = fr; pkt_num = pkt_num; unprotected = unprotected } ∷ xs))
unfolding acktr_add_ack
acktr_add_ack-IsReady acktr pkt_num fr unprotected xs h u v =
    let new : AcktrAckEntry = record { ack = fr; pkt_num = pkt_num; unprotected = unprotected } in
    let n = acktr.acks.nmemb in
    let (acks, done, holds, same) = ringbuf_push_front-Holds acktr.acks xs h.holds new in
    (
      record acktr { acks = acks },
      rw done refl,
      refl,
      record {
        inv = record { ordered = h.inv.ordered; counted = h.inv.counted; few = h.inv.few };
        holds = holds;
        falling = take-IsFalling n (new ∷ xs) (u, h.falling);
        valid = take-AllValid n (new ∷ xs) (v, h.valid);
      },
    )

-- A tracker as it begins: no entries, none that asks for an ACK frame, and no frames sent.
pub record IsEmpty (acktr : Acktr) : Type 0 where
  pub no_entries : acktr.ent ≡ []
  pub none_counted : acktr.nack ≡ 0
  pub inactive : acktr.active_ack ≡ 0
  pub ready : IsReady acktr []

-- If the allocator gives as many slots as it was asked for, the answer is an error or a tracker
-- without entries, with the count 0, not active, whose ring holds no frames.
pub acktr_init-IsEmpty :
    (malloc : ℕ → Option (List AcktrAckEntry))
    → ((buf : List AcktrAckEntry) → malloc 128 ≡ some buf → length buf ≡ 128)
    → Ensures IsEmpty (acktr_init malloc)
unfolding acktr_init
acktr_init-IsEmpty malloc given = elim (ringbuf_init-Holds malloc 128 24 (omega arith) given) [
  | inr n ↦ absurd (n.0 (7, omega arith, refl))
  | inl h ↦ Ensures-bind IsEmpty _ (ringbuf_init malloc 128 24) _ h.1 (λ acks k. record {
    no_entries = refl;
    none_counted = refl;
    inactive = refl;
    ready = record {
      inv = record { ordered = tt; counted = refl; few = omega arith };
      holds = k.0;
      falling = tt;
      valid = tt;
    };
  })
]
