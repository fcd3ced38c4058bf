-- ===== src/Track/Acktr/Tests.antt =====
-- Concrete runs of the ring and of the tracker of acknowledgements, and the theorems at concrete
-- inputs.
use ngtcp.Track.Acktr.Add.{added, acktr_add_lem}
use ngtcp.Track.Acktr.Removal.{acknowledges}
use ngtcp.Track.Acktr.Search.{find, wanted}
use ngtcp.Base.{
  if◌then◌else◌, length, take, replicate, length-replicate, elem_at, proto, ok, err, fault, Ensures,
  ℕ, zero, suc, ◌<◌, ◌≡◌, refl, sym, ap, ◌∙◌, ◌⊎◌, true, false, not, Option, some, List, [], ◌∷◌,
  arith,
}
use ngtcp.Pkt.Frame.{Ack}
use ngtcp.Pkt.AckRange.{validate_blks, validate_ack}
use ngtcp.Track.Ringbuf.{
  Ringbuf, ringbuf_init, ringbuf_push_front, ringbuf_resize, ringbuf_get, ringbuf_len, put_slot,
}
use ngtcp.Track.Ringbuf.Refine.{Holds, IsPower, ringbuf_push_front-Holds, ringbuf_init-Holds}
use ngtcp.Track.Acktr.{
  AcktrEntry, AcktrAckEntry, Acktr, acktr_init, add_entry, evict, acktr_add, acktr_add_ack,
}
use ngtcp.Track.Acktr.OnAck.{
  skip_above, remove_first, remove_blk, remove_blks, remove_acked, free_acks, acktr_on_ack,
}
use ngtcp.Track.Acktr.Order.{IsAcktr, keep, has_pkt_num}
use ngtcp.Track.Acktr.RecvAck.{
  first_below, not_trusted, search_first, search_blks, search_acks, call_on_ack, acktr_recv_ack,
}
use ngtcp.Track.Acktr.Acked.{IsValidAck, acktr_on_ack_lem}
use ngtcp.Track.Acktr.Ready.{
  IsReady, acktr_recv_ack-IsReady, acktr_add_ack-IsReady, IsEmpty, acktr_init-IsEmpty,
}
use ngtcp.Track.Acktr.Found.{acktr_recv_ack_lem}

-- A ring of four numbers with the last two pushed, 8 and then 9.
abbrev ring : Ringbuf ℕ
ring = record { buf = 0 ∷ 0 ∷ 9 ∷ 8 ∷ []; nmemb = 4; size = 8; first = 2; len = 2 }

ring-Holds : Holds ring (9 ∷ 8 ∷ [])
unfolding ringbuf_get
ring-Holds = record {
  ring = record {
    exponent = 2;
    small = omega arith;
    power = refl;
    slots = refl;
    fits = omega arith;
  };
  count = refl;
  at = λ i lt. at i lt;
}
  where
    at : (i : ℕ) → i < 2 → ringbuf_get ring i ≡ elem_at i (9 ∷ 8 ∷ [])
    at zero lt = refl
    at (suc zero) lt = refl
    at (suc (suc i)) lt = absurd (omega (arith, lt))

ringbuf_push_front_run :
    put_slot (ringbuf_push_front ring).1 7 (ringbuf_push_front ring).0
    ≡ ok (record { buf = 0 ∷ 7 ∷ 9 ∷ 8 ∷ []; nmemb = 4; size = 8; first = 1; len = 3 })
unfolding put_slot ringbuf_push_front
ringbuf_push_front_run = refl

ringbuf_push_front-Holds_example :
    (rb' : Ringbuf ℕ) × (put_slot (ringbuf_push_front ring).1 7 (ringbuf_push_front ring).0
      ≡ ok rb')
    × Holds rb' (take 4 (7 ∷ 9 ∷ 8 ∷ []))
    × (rb'.nmemb ≡ 4)
ringbuf_push_front-Holds_example = ringbuf_push_front-Holds ring (9 ∷ 8 ∷ []) ring-Holds 7

abbrev slots : ℕ → Option (List ℕ)
slots n = some (replicate n 0)

slots_given : (buf : List ℕ) → slots 4 ≡ some buf → length buf ≡ 4
slots_given buf e = let f : replicate 4 0 ≡ buf = cc in ap length (sym f)

ringbuf_init-Holds_example :
    (IsPower 4 × Ensures (λ rb. Holds rb [] × (rb.nmemb ≡ 4)) (ringbuf_init slots 4 8))
    ⊎ (¬ IsPower 4 × (ringbuf_init slots 4 8 ≡ fault))
ringbuf_init-Holds_example = ringbuf_init-Holds slots 4 8 (omega arith) slots_given

abbrev entry : ℕ → AcktrEntry
entry n = record { pkt_num = n; tstamp = 0; unprotected = false }

-- An ACK frame for the packets 6, 5 and 2, sent in packet 40.
abbrev frame : Ack
frame = record {
  largest_ack = 6;
  ack_delay = 0;
  first_ack_blklen = 1;
  blks = record { gap = 1; blklen = 0 } ∷ [];
}

abbrev sent : AcktrAckEntry
sent = record { ack = frame; pkt_num = 40; unprotected = false }

abbrev acks : Ringbuf AcktrAckEntry
acks = record { buf = sent ∷ []; nmemb = 1; size = 24; first = 0; len = 1 }

abbrev tracker : Acktr
tracker = record {
  acks = acks;
  ent = entry 7 ∷ entry 6 ∷ entry 5 ∷ entry 3 ∷ entry 2 ∷ [];
  nack = 5;
  active_ack = 0;
}

-- An ACK frame of the peer for packet 40.
abbrev reply : Ack
reply = record { largest_ack = 40; ack_delay = 0; first_ack_blklen = 0; blks = [] }

acktr_recv_ack_run :
    acktr_recv_ack tracker reply false
    ≡ ok (record tracker { acks = record acks { len = 0 }; ent = entry 7 ∷ entry 3 ∷ []; nack = 2 })
unfolding acktr_recv_ack ringbuf_len first_below ringbuf_get search_acks search_first not_trusted
    search_blks call_on_ack acktr_on_ack skip_above remove_acked remove_first remove_blks remove_blk
    free_acks ringbuf_resize
acktr_recv_ack_run = refl

acktr_add_run : acktr_add tracker (entry 4) 1 ≡ (
  record tracker {
    ent = entry 7 ∷ entry 6 ∷ entry 5 ∷ entry 4 ∷ entry 3 ∷ entry 2 ∷ [];
    nack = 6;
    active_ack = 1;
  },
  ok tt,
)
unfolding acktr_add add_entry evict
acktr_add_run = refl

tracker-IsAcktr : IsAcktr tracker
tracker-IsAcktr = record { ordered = omega arith; counted = refl; few = omega arith }

frame-IsValidAck : IsValidAck frame
unfolding validate_ack validate_blks
frame-IsValidAck = record { accepted = refl; gaps = omega arith; varint = omega arith }

reply-IsValidAck : IsValidAck reply
unfolding validate_ack validate_blks
reply-IsValidAck = record { accepted = refl; gaps = omega arith; varint = omega arith }

acks-Holds : Holds acks (sent ∷ [])
unfolding ringbuf_get
acks-Holds = record {
  ring = record {
    exponent = 0;
    small = omega arith;
    power = refl;
    slots = refl;
    fits = omega arith;
  };
  count = refl;
  at = λ i lt. at i lt;
}
  where
    at : (i : ℕ) → i < 1 → ringbuf_get acks i ≡ elem_at i (sent ∷ [])
    at zero lt = refl
    at (suc i) lt = absurd (omega (arith, lt))

tracker-IsReady : IsReady tracker (sent ∷ [])
tracker-IsReady = record {
  inv = tracker-IsAcktr;
  holds = acks-Holds;
  falling = (tt, tt);
  valid = (frame-IsValidAck, tt);
}

acktr_recv_ack_lem_example :
    acktr_recv_ack tracker reply false
    ≡ call_on_ack tracker (find (wanted false (acknowledges reply)) 0 (sent ∷ []))
acktr_recv_ack_lem_example =
    acktr_recv_ack_lem tracker reply false (sent ∷ []) acks-Holds (tt, tt) reply-IsValidAck

acktr_recv_ack-IsReady_example :
    (after : Acktr) × (n : ℕ) × (acktr_recv_ack tracker reply false ≡ ok after)
    × IsReady after (take n (sent ∷ []))
acktr_recv_ack-IsReady_example =
    acktr_recv_ack-IsReady tracker reply false (sent ∷ []) tracker-IsReady reply-IsValidAck

acktr_add_ack-IsReady_example :
    (after : Acktr) × (acktr_add_ack tracker 41 frame true ≡ ok after)
    × (after.ent ≡ tracker.ent)
    × IsReady after (take 1 (record { ack = frame; pkt_num = 41; unprotected = true } ∷ sent ∷ []))
acktr_add_ack-IsReady_example =
    acktr_add_ack-IsReady tracker 41 frame true (sent ∷ []) tracker-IsReady (omega arith)
      frame-IsValidAck

acktr_on_ack_lem_example :
    (after : Acktr) × (acktr_on_ack tracker 0 ≡ ok after)
    × (after.ent ≡ keep (λ n. not (acknowledges frame n)) tracker.ent)
    × IsAcktr after
    × Holds after.acks []
acktr_on_ack_lem_example =
    acktr_on_ack_lem tracker (sent ∷ []) 0 sent acks-Holds refl tracker-IsAcktr frame-IsValidAck

acktr_add_lem_example :
    (acktr_add tracker (entry 4) 1 ≡ (
      if has_pkt_num 4 tracker.ent
      then (tracker, err proto)
      else (added tracker (entry 4) 1, ok tt)))
    × IsAcktr (acktr_add tracker (entry 4) 1).0
acktr_add_lem_example = acktr_add_lem tracker (entry 4) 1 tracker-IsAcktr

abbrev ack_slots : ℕ → Option (List AcktrAckEntry)
ack_slots n = some (replicate n sent)

acktr_init-IsEmpty_example : Ensures IsEmpty (acktr_init ack_slots)
acktr_init-IsEmpty_example = acktr_init-IsEmpty ack_slots (λ buf e.
    let f : replicate 128 sent ≡ buf = cc in ap length (sym f) ∙ length-replicate 128 sent)
