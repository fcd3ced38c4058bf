-- ===== src/Conn/Flow/Counts.antt =====
-- A RST_STREAM frame for a stream that is there: what it adds to the data of the connection.
use ngtcp.Conn.Order.Laws.{check_stream_id-IsAnswer}
use ngtcp.Base.{
  ltb, ◌==◌, Bool-cases, LibError, proto, final_offset_err, flow_control, err, ℕ, ◌+◌, ◌-◌, ◌≤◌,
  ◌≡◌, refl, ◌∙◌, ◌⊎◌, inl, inr, Bool, true, false, not, ◌||◌, some, arith,
}
use ngtcp.Track.Range.{sub_uint64, add_uint64}
use ngtcp.Pkt.Frame.{RstStream}
use ngtcp.Track.Idtr.{Idtr}
use ngtcp.Strm.State.{Strm}
use ngtcp.Conn.{App, Mem, Conn, Step, find_strm, set_strm, conn_max_data_violated, put_idtr}
use ngtcp.Conn.Control.{bad_final_offset, reset_read, rst_strm, conn_recv_rst_stream}
use ngtcp.Conn.Keeps.{IsKept, close_if_shut_rdwr-keeps}
use ngtcp.Conn.Flow.{IsFlow, found-Within}

put_idtr-rx_offset :
    (conn : Conn) (b : Bool) (i : Idtr) → (put_idtr conn b i).rx_offset ≡ conn.rx_offset
put_idtr-rx_offset conn true i = refl
put_idtr-rx_offset conn false i = refl

-- The other steps of a handler leave the count alone.
rx_offset-IsKept : (n : ℕ) → IsKept (λ conn. conn.rx_offset ≡ n)
rx_offset-IsKept n = record {
  calls = λ conn calls h. h;
  fc = λ conn ids h. h;
  frq = λ conn fs h. h;
  ack = λ conn b h. h;
  remote_bidi = λ conn k h. h;
  remote_uni = λ conn k h. h;
  idtr = λ conn b i h. put_idtr-rx_offset conn b i ∙ h;
  write = λ conn id g q h. h;
  remove = λ conn id h. h;
}

-- The frame is refused and nothing changes, or the data up to the final offset that was not counted
-- before is counted, and is within the windows.
abbrev pub Counts : Conn → Strm → ℕ → Step → Type 0
Counts conn s final step =
    ((e : LibError) × (step ≡ (conn, err e)))
    ⊎ ((s.last_rx_offset ≤ final)
        × (final ≤ s.max_rx_offset)
        × (step.0.rx_offset ≡ conn.rx_offset + (final - s.last_rx_offset))
        × (step.0.rx_offset ≤ conn.max_rx_offset))

final_behind : (s : Strm) (final : ℕ) → bad_final_offset s final ≡ false → s.last_rx_offset ≤ final
unfolding bad_final_offset
final_behind s final e = ground arith

has_room :
    (conn : Conn) (n : ℕ)
    → IsFlow conn
    → conn_max_data_violated conn n ≡ false
    → n ≤ conn.max_rx_offset - conn.rx_offset
unfolding conn_max_data_violated
has_room conn n h e =
    let left : sub_uint64 conn.max_rx_offset conn.rx_offset ≡ conn.max_rx_offset - conn.rx_offset =
      omega (arith, h.within, h.varint) in
    ground (arith, left)

rst_strm-Counts :
    (app : App) (conn : Conn) (fr : RstStream) (s : Strm)
    → IsFlow conn
    → s.max_rx_offset ≤ 4611686018427387903
    → s.last_rx_offset ≤ s.max_rx_offset
    → Counts conn s fr.final_offset (rst_strm app conn fr s)
unfolding rst_strm
rst_strm-Counts app conn fr s h small own =
    let datalen = sub_uint64 fr.final_offset s.last_rx_offset in
    elim (Bool-cases (bad_final_offset s fr.final_offset)) [
      | inl a ↦ rw a (inl (final_offset_err, refl))
      | inr a ↦
          elim (Bool-cases
            (ltb s.max_rx_offset fr.final_offset || conn_max_data_violated conn datalen)) [
              | inl b ↦ rw (a, b) (inl (flow_control, refl))
              | inr b ↦
                  let more : s.last_rx_offset ≤ fr.final_offset =
                    final_behind s fr.final_offset a in
                  let fits : fr.final_offset ≤ s.max_rx_offset = ground arith in
                  let new : datalen ≡ fr.final_offset - s.last_rx_offset =
                    omega (arith, more, fits, small) in
                  let room : datalen ≤ conn.max_rx_offset - conn.rx_offset =
                    has_room conn datalen h (ground arith) in
                  let sum : add_uint64 conn.rx_offset datalen ≡ conn.rx_offset + datalen =
                    omega (arith, h.within, h.varint, room) in
                  let count : Conn = record conn {
                    rx_offset = add_uint64 conn.rx_offset datalen;
                  } in
                  let after =
                    close_if_shut_rdwr-keeps (λ c. c.rx_offset ≡ add_uint64 conn.rx_offset datalen)
                      (rx_offset-IsKept (add_uint64 conn.rx_offset datalen)) app
                      (set_strm fr.stream_id reset_read count) fr.stream_id fr.app_error_code
                      refl in
                  rw (a, b)
                    (inr (
                      more,
                      fits,
                      omega (arith, after, sum, new),
                      omega (arith, after, sum, room, h.within),
                    ))
            ]
    ]

-- A RST_STREAM frame, for a stream other than 0 that is there, is refused with an error and changes
-- nothing, or its final offset is not before the end of what was received and is within the stream's
-- window, and just the bytes between are added to the data of the connection, which stays within its
-- window. The connection keeps the invariant of flow control before.
pub conn_recv_rst_stream-Counts :
    (mem : Mem) (app : App) (conn : Conn) (fr : RstStream) (s : Strm)
    → IsFlow conn
    → find_strm fr.stream_id conn.strms ≡ some s
    → Counts conn s fr.final_offset (conn_recv_rst_stream mem app conn fr)
unfolding conn_recv_rst_stream
conn_recv_rst_stream-Counts mem app conn fr s h found =
    let (own, small) = found-Within fr.stream_id conn.strms s found h.windows in
    elim (Bool-cases (not (fr.stream_id == 0))) [
      | inr a ↦ rw a (inl (proto, refl))
      | inl a ↦ elim (check_stream_id-IsAnswer conn fr.stream_id) [
        | inl (e, b) ↦ rw (a, b) (inl (e, refl))
        | inr b ↦ rw (a, b, found) (rst_strm-Counts app conn fr s h small own)
      ]
    ]
