-- ===== src/Track/Acktr/Add.antt =====
-- `ngtcp2_acktr_add`, `ngtcp2_acktr_forget` and `ngtcp2_acktr_pop`.
use ngtcp.Pkt.Cursor.{add_size}
use ngtcp.Track.Ringbuf.{sub_size}
use ngtcp.Base.{
  ltb, ◌==◌, if◌then◌else◌, Bool-cases, length, take, drop, length-take, length-drop, take-all,
  proto, ok, err, Ensures, ℕ, zero, suc, ◌+◌, ◌-◌, ◌≤◌, ◌<◌, min, ◌≡◌, refl, ◌∙◌, inl, inr, true,
  false, List, [], ◌∷◌, arith,
}
use ngtcp.Track.Acktr.{
  AcktrEntry, Acktr, add_entry, remove_tail, evict, acktr_add, forget_entries, acktr_forget,
  acktr_pop,
}
use ngtcp.Track.Acktr.Order.{
  Below, IsDecreasing, IsAcktr, has_pkt_num, inserted, add_entry_lem, add_entry-IsDecreasing,
}

remove_tail_lem :
    (n : ℕ) (ents : List AcktrEntry) → length ents ≡ suc n → remove_tail ents ≡ ok (take n ents)
unfolding remove_tail
remove_tail_lem n [] h = absurd (omega arith)
remove_tail_lem zero (e ∷ []) h = refl
remove_tail_lem (suc n) (e ∷ []) h = absurd (omega arith)
remove_tail_lem zero (e ∷ e' ∷ ents) h = absurd (omega arith)
remove_tail_lem (suc n) (e ∷ e' ∷ ents) h = rw (remove_tail_lem n (e' ∷ ents) (omega arith)) refl

Below-take : (m n : ℕ) (ents : List AcktrEntry) → Below m ents → Below m (take n ents)
Below-take m zero ents h = tt
Below-take m (suc n) [] h = tt
Below-take m (suc n) (e ∷ ents) h = (h.0, Below-take m n ents h.1)

take-IsDecreasing :
    (n : ℕ) (ents : List AcktrEntry) → IsDecreasing ents → IsDecreasing (take n ents)
take-IsDecreasing zero ents h = tt
take-IsDecreasing (suc n) [] h = tt
take-IsDecreasing (suc n) (e ∷ ents) h =
    (Below-take e.pkt_num n ents h.0, take-IsDecreasing n ents h.1)

-- `evict` cuts a list of at most 1025 entries down to 1024.
evict_lem :
    (acktr : Acktr)
    → acktr.nack ≡ length acktr.ent
    → acktr.nack ≤ 1025
    → evict acktr ≡ (record acktr { ent = take 1024 acktr.ent; nack = min 1024 acktr.nack }, ok tt)
unfolding evict
evict_lem acktr e le = elim (Bool-cases (ltb 1024 acktr.nack)) [
  | inl h ↦
      let l : acktr.nack ≡ 1025 = ground (arith, h, le) in
      rw (h, remove_tail_lem 1024 acktr.ent (omega (arith, e, l)), l) refl
  | inr h ↦
      let l : min 1024 acktr.nack ≡ acktr.nack = ground (arith, h) in
      rw (h, take-all 1024 acktr.ent (ground (arith, h, e)), l) refl
]

-- What becomes of a state in which the number of `ent` is new.
pub added : Acktr → AcktrEntry → ℕ → Acktr
added acktr ent active_ack = record acktr {
  ent = take 1024 (inserted ent acktr.ent);
  nack = min 1024 (acktr.nack + 1);
  active_ack = if active_ack == 0 then acktr.active_ack else 1;
}

add_new :
    (acktr : Acktr) (ent : AcktrEntry) (active_ack : ℕ)
    → IsAcktr acktr
    → has_pkt_num ent.pkt_num acktr.ent ≡ false
    → (acktr_add acktr ent active_ack ≡ (added acktr ent active_ack, ok tt))
      × IsAcktr (added acktr ent active_ack)
unfolding acktr_add added
add_new acktr ent active_ack h new =
    let e : add_entry ent acktr.ent ≡ (inserted ent acktr.ent, ok tt) =
      rw new at (add_entry_lem ent acktr.ent h.ordered) in
    let d : IsDecreasing (inserted ent acktr.ent)
        × (ok tt ≡ ok tt → length (inserted ent acktr.ent) ≡ length acktr.ent + 1) =
      rw e at (add_entry-IsDecreasing ent acktr.ent h.ordered) in
    let nack : add_size acktr.nack 1 ≡ acktr.nack + 1 = omega (arith, h.few) in
    let entered : Acktr = record acktr {
      ent = inserted ent acktr.ent;
      nack = acktr.nack + 1;
      active_ack = if active_ack == 0 then acktr.active_ack else 1;
    } in
    (
      rw (e, nack) (evict_lem entered (omega (arith, d.1 refl, h.counted)) (omega (arith, h.few))),
      record {
        ordered = take-IsDecreasing 1024 (inserted ent acktr.ent) d.0;
        counted = omega (arith, length-take 1024 (inserted ent acktr.ent), d.1 refl, h.counted);
        few = omega arith;
      },
    )

-- A packet number that is there is refused with PROTO and the tracker stays as it was; any other
-- goes to its place in the decreasing order, and of more than 1024 entries the last one goes. The
-- order, the count and the bound are kept, whatever is returned.
pub acktr_add_lem :
    (acktr : Acktr) (ent : AcktrEntry) (active_ack : ℕ)
    → IsAcktr acktr
    → (acktr_add acktr ent active_ack ≡ (
        if has_pkt_num ent.pkt_num acktr.ent
        then (acktr, err proto)
        else (added acktr ent active_ack, ok tt)))
      × IsAcktr (acktr_add acktr ent active_ack).0
unfolding acktr_add
acktr_add_lem acktr ent active_ack h = elim (Bool-cases (has_pkt_num ent.pkt_num acktr.ent)) [
  | inl e ↦ rw (add_entry_lem ent acktr.ent h.ordered, e) (refl, h)
  | inr e ↦ let (run, inv) = add_new acktr ent active_ack h e in (rw e run, rw run inv)
]

forget_entries_lem :
    (ents : List AcktrEntry) (nack : ℕ)
    → length ents ≤ nack
    → nack ≤ 1024
    → forget_entries ents nack ≡ nack - length ents
unfolding forget_entries
forget_entries_lem [] nack h le = omega arith
forget_entries_lem (e ∷ ents) nack h le =
    let s : sub_size nack 1 ≡ nack - 1 = omega arith in
    rw (s, forget_entries_lem ents (nack - 1) (omega arith) (omega arith)) (omega arith)

-- The entries from the place `i` on go, `nack` stays their number, and the order is kept.
pub acktr_forget-IsAcktr :
    (acktr : Acktr) (i : ℕ)
    → IsAcktr acktr
    → i < length acktr.ent
    → (acktr_forget acktr i ≡ ok (record acktr { ent = take i acktr.ent; nack = i }))
      × Ensures IsAcktr (acktr_forget acktr i)
unfolding acktr_forget
acktr_forget-IsAcktr acktr i h lt =
    let inside : ltb i (length acktr.ent) ≡ true = ground arith in
    let left : forget_entries (drop i acktr.ent) acktr.nack ≡ i =
      forget_entries_lem (drop i acktr.ent) acktr.nack
        (omega (arith, length-drop i acktr.ent, h.counted)) h.few
      ∙ omega (arith, length-drop i acktr.ent, h.counted, lt) in
    rw (inside, left)
      (
        refl,
        record {
          ordered = take-IsDecreasing i acktr.ent h.ordered;
          counted = omega (arith, length-take i acktr.ent, lt);
          few = omega (arith, lt, h.counted, h.few);
        },
      )

pop_rest : (ents : List AcktrEntry) → IsDecreasing ents → IsDecreasing (drop 1 ents)
pop_rest [] h = tt
pop_rest (e ∷ ents) h = h.1

-- From a list with entries the first one goes, that is the largest packet number.
pub acktr_pop-IsAcktr :
    (acktr : Acktr)
    → IsAcktr acktr
    → 0 < length acktr.ent
    → (acktr_pop acktr ≡ ok (record acktr { ent = drop 1 acktr.ent; nack = acktr.nack - 1 }))
      × Ensures IsAcktr (acktr_pop acktr)
unfolding acktr_pop
acktr_pop-IsAcktr acktr h lt =
    let some : (length acktr.ent == 0) ≡ false = ground arith in
    let s : sub_size acktr.nack 1 ≡ acktr.nack - 1 = omega (arith, h.counted, h.few, lt) in
    rw (some, s)
      (
        refl,
        record {
          ordered = pop_rest acktr.ent h.ordered;
          counted = omega (arith, length-drop 1 acktr.ent, h.counted);
          few = omega (arith, h.few);
        },
      )
