-- ===== src/Conn/Flow.antt =====
-- Flow control of the data that the peer sends: the invariant, and what keeps it.
pub mod Recv
pub mod Handlers
pub mod Counts
use ngtcp.Track.Idtr.{Idtr}
use ngtcp.Base.{
  ◌==◌, if◌then◌else◌, Bool-cases, ℕ, ◌+◌, ◌^◌, ◌≤◌, ◌<◌, ◌≡◌, refl, inl, inr, Bool, true, false,
  some, List, [], ◌∷◌, arith,
}
use ngtcp.Pkt.Frame.{ack, max_stream_data}
use ngtcp.Strm.State.{Strm}
use ngtcp.Conn.{Conn, find_strm, update_strm, remove_strm, put_idtr}
use ngtcp.Conn.Keeps.{Quiet, IsKept}

-- What a stream adds to `rx_offset`: nothing if it is stream 0.
abbrev pub weight : Strm → ℕ
weight s = if s.stream_id == 0 then 0 else s.last_rx_offset

abbrev pub total : List Strm → ℕ
total [] = 0
total (s ∷ ss) = weight s + total ss

-- The data of each stream ends within the window that the peer knows.
abbrev pub Within : List Strm → Type 0
Within [] = Unit {0}
Within (s ∷ ss) =
    (s.last_rx_offset ≤ s.max_rx_offset) × (s.max_rx_offset ≤ 4611686018427387903) × Within ss

-- The connection has counted `spare` bytes more than the open streams have; it has not passed its own
-- window, nor a stream its.
pub record HasSpare (spare : ℕ) (conn : Conn) : Type 0 where
  pub counts : total conn.strms + spare ≤ conn.rx_offset
  pub within : conn.rx_offset ≤ conn.max_rx_offset
  pub varint : conn.max_rx_offset ≤ 4611686018427387903
  pub windows : Within conn.strms
  pub setting : conn.local_settings.max_stream_data < 2 ^ 32

abbrev pub IsFlow : Conn → Type 0
IsFlow conn = HasSpare 0 conn

pub HasSpare-less : (k : ℕ) (conn : Conn) → HasSpare k conn → IsFlow conn
HasSpare-less k conn h = record {
  counts = omega (arith, h.counts);
  within = h.within;
  varint = h.varint;
  windows = h.windows;
  setting = h.setting;
}

total-update :
    (id : ℕ) (g : Strm → Strm) (ss : List Strm) → Quiet g → total (update_strm id g ss) ≡ total ss
unfolding update_strm
total-update id g [] q = refl
total-update id g (s ∷ ss) q = ground (arith, q s, total-update id g ss q)

Within-update :
    (id : ℕ) (g : Strm → Strm) (ss : List Strm) → Quiet g → Within ss → Within (update_strm id g ss)
unfolding update_strm
Within-update id g [] q h = tt
Within-update id g (s ∷ ss) q h = ground (arith, q s, Within-update id g ss q h.2)

total-remove : (id : ℕ) (ss : List Strm) → total (remove_strm id ss) ≤ total ss
unfolding remove_strm
total-remove id [] = omega arith
total-remove id (s ∷ ss) = ground (arith, total-remove id ss)

Within-remove : (id : ℕ) (ss : List Strm) → Within ss → Within (remove_strm id ss)
unfolding remove_strm
Within-remove id [] h = tt
Within-remove id (s ∷ ss) h = ground (arith, Within-remove id ss h.2)

-- A write to the stream that was found.
pub total-update_found :
    (id : ℕ) (g : Strm → Strm) (ss : List Strm) (s : Strm)
    → find_strm id ss ≡ some s
    → total (update_strm id g ss) + weight s ≡ total ss + weight (g s)
unfolding update_strm find_strm
total-update_found id g [] s e = cc
total-update_found id g (x ∷ ss) s e = elim (Bool-cases (x.stream_id == id)) [
  | inl t ↦ let same : x ≡ s = ground arith in rw (t, same) (omega arith)
  | inr t ↦ rw t (omega (arith, total-update_found id g ss s (ground arith)))
]

pub Within-update_found :
    (id : ℕ) (g : Strm → Strm) (ss : List Strm) (s : Strm)
    → find_strm id ss ≡ some s
    → (g s).last_rx_offset ≤ (g s).max_rx_offset
    → (g s).max_rx_offset ≤ 4611686018427387903
    → Within ss
    → Within (update_strm id g ss)
unfolding update_strm find_strm
Within-update_found id g [] s e le small h = tt
Within-update_found id g (x ∷ ss) s e le small h = elim (Bool-cases (x.stream_id == id)) [
  | inl t ↦ let same : x ≡ s = ground arith in rw t (rw same (le, small, h.2))
  | inr t ↦ rw t (h.0, h.1, Within-update_found id g ss s (ground arith) le small h.2)
]

pub found-Within :
    (id : ℕ) (ss : List Strm) (s : Strm)
    → find_strm id ss ≡ some s
    → Within ss
    → (s.last_rx_offset ≤ s.max_rx_offset) × (s.max_rx_offset ≤ 4611686018427387903)
unfolding find_strm
found-Within id [] s e h = cc
found-Within id (x ∷ ss) s e h = elim (Bool-cases (x.stream_id == id)) [
  | inl t ↦ let same : x ≡ s = ground arith in rw (← same) (h.0, h.1)
  | inr t ↦ found-Within id ss s (ground arith) h.2
]

pub found_id : (id : ℕ) (ss : List Strm) (s : Strm) → find_strm id ss ≡ some s → s.stream_id ≡ id
unfolding find_strm
found_id id [] s e = cc
found_id id (x ∷ ss) s e = elim (Bool-cases (x.stream_id == id)) [
  | inl t ↦ let same : x ≡ s = ground arith in rw (← same) (ground arith)
  | inr t ↦ found_id id ss s (ground arith)
]

put_idtr-HasSpare :
    (k : ℕ) (conn : Conn) (b : Bool) (i : Idtr) → HasSpare k conn → HasSpare k (put_idtr conn b i)
put_idtr-HasSpare k conn true i h = ground arith
put_idtr-HasSpare k conn false i h = ground arith

pub HasSpare-IsKept : (k : ℕ) → IsKept (HasSpare k)
HasSpare-IsKept k = record {
  calls = λ conn calls h. ground arith;
  fc = λ conn ids h. ground arith;
  frq = λ conn fs h. ground arith;
  ack = λ conn b h. ground arith;
  remote_bidi = λ conn n h. ground arith;
  remote_uni = λ conn n h. ground arith;
  idtr = put_idtr-HasSpare k;
  write = λ conn id g q h. record {
    counts = omega (arith, h.counts, total-update id g conn.strms q);
    within = h.within;
    varint = h.varint;
    windows = Within-update id g conn.strms q h.windows;
    setting = h.setting;
  };
  remove = λ conn id h. record {
    counts = omega (arith, h.counts, total-remove id conn.strms);
    within = h.within;
    varint = h.varint;
    windows = Within-remove id conn.strms h.windows;
    setting = h.setting;
  };
}
