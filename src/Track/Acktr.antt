-- ===== src/Track/Acktr.antt =====
-- lib/ngtcp2_acktr.c: the packets that were received and are to be acknowledged, and the ACK frames
-- that were sent for them. The linked list is the list of its entries; `tail` is its last entry
-- where the code reads it, so it is no field of its own.
pub mod OnAck
pub mod RecvAck
pub mod Order
pub mod Add
pub mod Removal
pub mod Acked
pub mod Search
pub mod Found
pub mod Ready
mod Tests
use ngtcp.Base.{
  ltb, ◌==◌, if◌then◌else◌, length, take, drop, proto, Result, ok, err, fault, ◌>>=◌, ◌>>◌, assert,
  ℕ, Bool, not, Option, List, [], ◌∷◌,
}
use ngtcp.Pkt.Cursor.{add_size}
use ngtcp.Pkt.Frame.{Ack}
use ngtcp.Track.Ringbuf.{Ringbuf, sub_size, ringbuf_init, ringbuf_push_front, put_slot}

-- `ngtcp2_acktr_entry`
pub record AcktrEntry : Type 0 where
  pub pkt_num : ℕ
  pub tstamp : ℕ
  pub unprotected : Bool

-- `ngtcp2_acktr_ack_entry`
pub record AcktrAckEntry : Type 0 where
  pub ack : Ack
  pub pkt_num : ℕ
  pub unprotected : Bool

-- `ngtcp2_acktr`
pub record Acktr : Type 0 where
  pub acks : Ringbuf AcktrAckEntry
  pub ent : List AcktrEntry
  pub nack : ℕ
  pub active_ack : ℕ

-- `sizeof(ngtcp2_acktr_ack_entry)` on a machine with pointers of 8 bytes
abbrev pub ack_entry_size : ℕ
ack_entry_size = 24

unfoldable pub acktr_init : (ℕ → Option (List AcktrAckEntry)) → Result Acktr
acktr_init malloc = do
  acks ← ringbuf_init malloc 128 ack_entry_size
  ok record { acks = acks; ent = []; nack = 0; active_ack = 0 }

-- The loop of `ngtcp2_acktr_add`, with the insertion: the list that it leaves, also on an error, and
-- what is returned.
unfoldable pub add_entry : AcktrEntry → List AcktrEntry → List AcktrEntry × Result (Unit {0})
add_entry ent [] = (ent ∷ [], ok tt)
add_entry ent (e ∷ ents) =
    let rest = add_entry ent ents in
    if ltb ent.pkt_num e.pkt_num
    then (e ∷ rest.0, rest.1)
    else if e.pkt_num == ent.pkt_num
    then (e ∷ ents, err proto)
    else (ent ∷ e ∷ ents, ok tt)

-- The entry that `tail` points to is taken out.
unfoldable pub remove_tail : List AcktrEntry → Result (List AcktrEntry)
remove_tail [] = fault
remove_tail (e ∷ []) = ok []
remove_tail (e ∷ e' ∷ ents) = do ents ← remove_tail (e' ∷ ents); ok (e ∷ ents)

-- `*tail->pprev = NULL` and what follows, on a list that `remove_tail` gave; the tracker is the one
-- before that.
abbrev pub cut_tail : Acktr → Result (List AcktrEntry) → Acktr × Result (Unit {0})
cut_tail acktr (ok ents) = (record acktr { ent = ents; nack = sub_size acktr.nack 1 }, ok tt)
cut_tail acktr (err e) = (acktr, err e)
cut_tail acktr fault = (acktr, fault)

-- With more than NGTCP2_ACKTR_MAX_ENT entries the last one goes.
unfoldable pub evict : Acktr → Acktr × Result (Unit {0})
evict acktr = if ltb 1024 acktr.nack then cut_tail acktr (remove_tail acktr.ent) else (acktr, ok tt)

-- What follows the loop, which left `ents` and returned, or went on.
abbrev pub entered : Acktr → ℕ → List AcktrEntry × Result (Unit {0}) → Acktr × Result (Unit {0})
entered acktr active_ack (ents, ok t) = evict (record acktr {
  ent = ents;
  active_ack = if active_ack == 0 then acktr.active_ack else 1;
  nack = add_size acktr.nack 1;
})
entered acktr active_ack (ents, err e) = (record acktr { ent = ents }, err e)
entered acktr active_ack (ents, fault) = (record acktr { ent = ents }, fault)

-- The tracker that `ngtcp2_acktr_add` leaves, also on an error, and what it returns.
unfoldable pub acktr_add : Acktr → AcktrEntry → ℕ → Acktr × Result (Unit {0})
acktr_add acktr ent active_ack = entered acktr active_ack (add_entry ent acktr.ent)

-- The loop of `ngtcp2_acktr_forget`, which counts down.
unfoldable pub forget_entries : List AcktrEntry → ℕ → ℕ
forget_entries [] nack = nack
forget_entries (e ∷ ents) nack = forget_entries ents (sub_size nack 1)

-- `ent` is the entry at the place `i` of the list.
unfoldable pub acktr_forget : Acktr → ℕ → Result Acktr
acktr_forget acktr i = do
  assert (ltb i (length acktr.ent))
  ok (record acktr { ent = take i acktr.ent; nack = forget_entries (drop i acktr.ent) acktr.nack })

unfoldable pub acktr_pop : Acktr → Result Acktr
acktr_pop acktr = do
  assert (not (length acktr.ent == 0))
  ok (record acktr { ent = drop 1 acktr.ent; nack = sub_size acktr.nack 1 })

unfoldable pub acktr_add_ack : Acktr → ℕ → Ack → Bool → Result Acktr
acktr_add_ack acktr pkt_num fr unprotected = do
  let (acks, slot) = ringbuf_push_front acktr.acks
  acks ← put_slot slot record { ack = fr; pkt_num = pkt_num; unprotected = unprotected } acks
  ok (record acktr { acks = acks })
