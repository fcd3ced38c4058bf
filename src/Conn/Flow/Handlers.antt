-- ===== src/Conn/Flow/Handlers.antt =====
-- The handlers of frames keep the invariant of flow control, whatever they return.
use ngtcp.Conn.Control.{
  taken, if_free, rst_unknown, bad_final_offset, reset_read, rst_strm, conn_recv_rst_stream,
}
use ngtcp.Conn.Flow.Recv.{recv_strm-IsFlow}
use ngtcp.Base.{
  ltb, ◌==◌, if◌then◌else◌, length, proto, nomem, final_offset_err, Result, ok, err, fault, ◌>>◌,
  guard, ℕ, ◌+◌, ◌-◌, ◌^◌, ◌≤◌, ◌<◌, ◌≡◌, refl, Bool, true, false, not, ◌||◌, Option, none, some,
  ◌∷◌, arith,
}
use ngtcp.Track.Range.{Range, sub_uint64, add_uint64}
use ngtcp.Track.Gaptr.{gaptr_init}
use ngtcp.Strm.Rob.{RobMem, rob_init}
use ngtcp.Track.Idtr.{Idtr, idtr_open, idtr_is_open}
use ngtcp.Pkt.Frame.{Stream, RstStream}
use ngtcp.Strm.State.{StrmFlags, Strm, flag_none, strm_init, strm_shutdown_wr}
use ngtcp.Conn.{
  App, Mem, Conn, Step, and_then, find_strm, set_strm, if_known, conn_local_stream, bidi_stream,
  conn_max_data_violated, check_stream_id, get_idtr, put_idtr,
}
use ngtcp.Conn.Open.{put_found, put_strm, conn_init_stream, open_remote_strm}
use ngtcp.Conn.Recv.{recv_strm, is_in_use, open_new, check_stream, conn_recv_stream}
use ngtcp.Conn.Keeps.{and_then-keeps, checked-keeps, if-keeps, close_if_shut_rdwr-keeps}
use ngtcp.Conn.Flow.{IsFlow, HasSpare-IsKept}

put_found-IsFlow :
    (mem : Mem) (conn : Conn) (strm : Strm) (found : Option Strm)
    → IsFlow conn
    → strm.last_rx_offset ≡ 0
    → strm.max_rx_offset < 2 ^ 32
    → IsFlow (put_found mem conn strm found).0
put_found-IsFlow mem conn strm (some s) h z small = h
put_found-IsFlow mem conn strm none h z small =
    if-keeps IsFlow mem.table (record conn { strms = strm ∷ conn.strms }, ok tt) (conn, err nomem)
      (λ t. record {
        counts = ground (arith, h.counts);
        within = h.within;
        varint = h.varint;
        windows = (omega arith, omega arith, h.windows);
        setting = h.setting;
      })
      (λ t. h)

put_strm-IsFlow :
    (mem : Mem) (conn : Conn) (rv : Result Strm)
    → IsFlow conn
    → ((s : Strm) → rv ≡ ok s → (s.last_rx_offset ≡ 0) × (s.max_rx_offset < 2 ^ 32))
    → IsFlow (put_strm mem conn rv).0
put_strm-IsFlow mem conn (err e) h k = h
put_strm-IsFlow mem conn fault h k = h
put_strm-IsFlow mem conn (ok s) h k =
    let (z, small) = k s refl in
    put_found-IsFlow mem conn s (find_strm s.stream_id conn.strms) h z small

strm_init_lem :
    (malloc : Range → Bool) (mem : RobMem) (id : ℕ) (flags : StrmFlags) (rx tx : ℕ) (s : Strm)
    → strm_init malloc mem id flags rx tx ≡ ok s
    → (s.stream_id ≡ id) × (s.last_rx_offset ≡ 0) × (s.max_rx_offset ≡ rx)
unfolding strm_init gaptr_init rob_init
strm_init_lem malloc mem id flags rx tx s e = ground arith

conn_init_stream-IsFlow :
    (mem : Mem) (conn : Conn) (id : ℕ) → IsFlow conn → IsFlow (conn_init_stream mem conn id).0
unfolding conn_init_stream
conn_init_stream-IsFlow mem conn id h =
    let made =
      strm_init mem.gap mem.rob id flag_none conn.local_settings.max_stream_data
        conn.remote_settings.max_stream_data in
    if-keeps IsFlow mem.strm (put_strm mem conn made) (conn, err nomem)
      (λ t. put_strm-IsFlow mem conn made h (λ s e.
        let (_, last, window) =
          strm_init_lem mem.gap mem.rob id flag_none conn.local_settings.max_stream_data
            conn.remote_settings.max_stream_data s e in
        (last, omega (arith, window, h.setting))))
      (λ t. h)

open_remote_strm-IsFlow :
    (mem : Mem) (conn : Conn) (id : ℕ) → IsFlow conn → IsFlow (open_remote_strm mem conn id).0
unfolding open_remote_strm strm_shutdown_wr
open_remote_strm-IsFlow mem conn id h =
    and_then-keeps IsFlow (conn_init_stream mem conn id)
      (λ conn. if bidi_stream id then (conn, ok tt) else (set_strm id strm_shutdown_wr conn, ok tt))
      (conn_init_stream-IsFlow mem conn id h)
      (λ c hc.
        if-keeps IsFlow (bidi_stream id) (c, ok tt) (set_strm id strm_shutdown_wr c, ok tt)
          (λ t. hc)
          (λ t. (HasSpare-IsKept 0).write c id strm_shutdown_wr (λ s. (refl, refl, refl)) hc))

open_new-IsFlow :
    (mem : Mem) (conn : Conn) (id : ℕ) (rv : Result (Idtr × Result (Unit {0}))) (next : Conn → Step)
    → IsFlow conn
    → ((conn : Conn) → IsFlow conn → IsFlow (next conn).0)
    → IsFlow (open_new mem conn id rv next).0
open_new-IsFlow mem conn id (ok (idtr, ok t)) next h k =
    let conn' = put_idtr conn (bidi_stream id) idtr in
    and_then-keeps IsFlow (open_remote_strm mem conn' id) next
      (open_remote_strm-IsFlow mem conn' id ((HasSpare-IsKept 0).idtr conn (bidi_stream id) idtr h))
      k
open_new-IsFlow mem conn id (ok (idtr, err e)) next h k =
    let conn' = put_idtr conn (bidi_stream id) idtr in
    let h' = (HasSpare-IsKept 0).idtr conn (bidi_stream id) idtr h in
    if-keeps IsFlow (is_in_use e) (conn', ok tt) (conn', fault) (λ t. h') (λ t. h')
open_new-IsFlow mem conn id (ok (idtr, fault)) next h k =
    (HasSpare-IsKept 0).idtr conn (bidi_stream id) idtr h
open_new-IsFlow mem conn id (err e) next h k = h
open_new-IsFlow mem conn id fault next h k = h

pub if_known-keeps :
    (P : Conn → Type 0) (found : Option Strm) (known : Strm → Step) (unknown : Step)
    → ((s : Strm) → found ≡ some s → P (known s).0)
    → P unknown.0
    → P (if_known found known unknown).0
if_known-keeps P none known unknown h k = k
if_known-keeps P (some s) known unknown h k = h s refl

-- The handler of STREAM frames keeps the invariant of flow control, whatever it returns, also if an
-- allocation or the application fails: the connection has counted at least the data of its open
-- streams, stream 0 aside, and has not passed the window that the peer knows; nor has a stream its.
pub conn_recv_stream-IsFlow :
    (mem : Mem) (app : App) (conn : Conn) (fr : Stream)
    → fr.offset + length fr.content < 2 ^ 64
    → IsFlow conn
    → IsFlow (conn_recv_stream mem app conn fr).0
unfolding conn_recv_stream
conn_recv_stream-IsFlow mem app conn fr fits h =
    let id = fr.stream_id in
    let opened = idtr_open mem.gap (get_idtr conn (bidi_stream id)) id in
    checked-keeps IsFlow (check_stream conn fr) conn
      (if_known (find_strm id conn.strms) (λ s. recv_strm mem app fr id conn)
        (if conn_local_stream conn id
          then (conn, ok tt)
          else open_new mem conn id opened (recv_strm mem app fr id)))
      h
      (λ c.
        if_known-keeps IsFlow (find_strm id conn.strms) (λ s. recv_strm mem app fr id conn)
          (if conn_local_stream conn id
            then (conn, ok tt)
            else open_new mem conn id opened (recv_strm mem app fr id))
          (λ s e. recv_strm-IsFlow mem app fr id conn fits h)
          (if-keeps IsFlow (conn_local_stream conn id) (conn, ok tt)
            (open_new mem conn id opened (recv_strm mem app fr id)) (λ t. h)
            (λ t.
              open_new-IsFlow mem conn id opened (recv_strm mem app fr id) h
                (λ c hc. recv_strm-IsFlow mem app fr id c fits hc))))

taken-IsFlow :
    (conn : Conn) (bidi : Bool) (rv : Result (Idtr × Result (Unit {0})))
    → IsFlow conn
    → IsFlow (taken conn bidi rv).0
taken-IsFlow conn bidi (ok (idtr, rv)) h = (HasSpare-IsKept 0).idtr conn bidi idtr h
taken-IsFlow conn bidi (err e) h = h
taken-IsFlow conn bidi fault h = h

if_free-keeps :
    (P : Conn → Type 0) (conn : Conn) (rv : Result (Unit {0})) (next : Step)
    → P conn
    → P next.0
    → P (if_free conn rv next).0
if_free-keeps P conn (ok t) next h k = k
if_free-keeps P conn (err e) next h k = h
if_free-keeps P conn fault next h k = h

-- Bytes that the window has room for are counted.
add-IsFlow :
    (conn : Conn) (n : ℕ)
    → IsFlow conn
    → conn_max_data_violated conn n ≡ false
    → IsFlow (record conn { rx_offset = add_uint64 conn.rx_offset n })
unfolding conn_max_data_violated
add-IsFlow conn n h room =
    let left : sub_uint64 conn.max_rx_offset conn.rx_offset ≡ conn.max_rx_offset - conn.rx_offset =
      omega (arith, h.within, h.varint) in
    let le : n ≤ conn.max_rx_offset - conn.rx_offset = ground (arith, left, room) in
    let sum : add_uint64 conn.rx_offset n ≡ conn.rx_offset + n =
      omega (arith, h.within, h.varint, le) in
    record {
      counts = omega (arith, h.counts, sum);
      within = omega (arith, h.within, sum, le);
      varint = h.varint;
      windows = h.windows;
      setting = h.setting;
    }

rst_strm-IsFlow :
    (app : App) (conn : Conn) (fr : RstStream) (strm : Strm)
    → IsFlow conn
    → IsFlow (rst_strm app conn fr strm).0
unfolding rst_strm reset_read
rst_strm-IsFlow app conn fr strm h =
    let datalen = sub_uint64 fr.final_offset strm.last_rx_offset in
    if-keeps IsFlow (bad_final_offset strm fr.final_offset) _ _ (λ a. h)
      (λ a.
        if-keeps IsFlow
          (ltb strm.max_rx_offset fr.final_offset || conn_max_data_violated conn datalen) _ _
          (λ b. h)
          (λ b.
            close_if_shut_rdwr-keeps IsFlow (HasSpare-IsKept 0) app
              (set_strm fr.stream_id reset_read
                (record conn { rx_offset = add_uint64 conn.rx_offset datalen }))
              fr.stream_id fr.app_error_code
              ((HasSpare-IsKept 0).write
                (record conn { rx_offset = add_uint64 conn.rx_offset datalen }) fr.stream_id
                reset_read (λ s. (refl, refl, refl)) (add-IsFlow conn datalen h (ground arith)))))

count_reset-IsFlow :
    (conn : Conn) (bidi : Bool) (opened : Result (Idtr × Result (Unit {0}))) (n : ℕ)
    → IsFlow conn
    → conn_max_data_violated conn n ≡ false
    → IsFlow
        (and_then
          (taken conn bidi opened)
          (λ conn. (record conn { rx_offset = add_uint64 conn.rx_offset n }, ok tt))).0
unfolding conn_max_data_violated
count_reset-IsFlow conn bidi (err e) n h room = h
count_reset-IsFlow conn bidi fault n h room = h
count_reset-IsFlow conn true (ok (idtr, rv)) n h room =
    add-IsFlow (put_idtr conn true idtr) n (taken-IsFlow conn true (ok (idtr, rv)) h) room
count_reset-IsFlow conn false (ok (idtr, rv)) n h room =
    add-IsFlow (put_idtr conn false idtr) n (taken-IsFlow conn false (ok (idtr, rv)) h) room

rst_unknown-IsFlow :
    (mem : Mem) (conn : Conn) (fr : RstStream) → IsFlow conn → IsFlow (rst_unknown mem conn fr).0
unfolding rst_unknown
rst_unknown-IsFlow mem conn fr h =
    let bidi = bidi_stream fr.stream_id in
    let idtr = get_idtr conn bidi in
    let opened = idtr_open mem.gap idtr fr.stream_id in
    if-keeps IsFlow (conn_local_stream conn fr.stream_id) _ _
      (λ a.
        checked-keeps IsFlow (guard (bidi || (fr.final_offset == 0)) final_offset_err) conn
          (conn, ok tt) h (λ t. h))
      (λ a. if_free-keeps IsFlow conn (idtr_is_open idtr fr.stream_id) _ h (
        if-keeps IsFlow
          (ltb conn.local_settings.max_stream_data fr.final_offset
            || conn_max_data_violated conn fr.final_offset)
          _ _ (λ b. h) (λ b. count_reset-IsFlow conn bidi opened fr.final_offset h (ground arith))))

-- The handler of RST_STREAM frames keeps the invariant of flow control, whatever it returns.
pub conn_recv_rst_stream-IsFlow :
    (mem : Mem) (app : App) (conn : Conn) (fr : RstStream)
    → IsFlow conn
    → IsFlow (conn_recv_rst_stream mem app conn fr).0
unfolding conn_recv_rst_stream
conn_recv_rst_stream-IsFlow mem app conn fr h =
    checked-keeps IsFlow
      (guard (not (fr.stream_id == 0)) proto >> check_stream_id conn fr.stream_id) conn
      (if_known (find_strm fr.stream_id conn.strms) (rst_strm app conn fr)
        (rst_unknown mem conn fr))
      h
      (λ c.
        if_known-keeps IsFlow (find_strm fr.stream_id conn.strms) (rst_strm app conn fr)
          (rst_unknown mem conn fr) (λ s e. rst_strm-IsFlow app conn fr s h)
          (rst_unknown-IsFlow mem conn fr h))
