-- ===== src/Conn/Control.antt =====
-- The handlers of the frames that control streams: MAX_STREAM_DATA, RST_STREAM, STOP_SENDING, and of
-- PING and PONG.
use ngtcp.Base.{
  ltb, ◌==◌, if◌then◌else◌, length, proto, frame_format, final_offset_err, flow_control, Result, ok,
  err, fault, ◌>>◌, guard, ℕ, max, Bool, true, not, ◌||◌,
}
use ngtcp.Track.Range.{sub_uint64, add_uint64}
use ngtcp.Track.Idtr.{Idtr, idtr_open, idtr_is_open}
use ngtcp.Pkt.Frame.{RstStream, MaxStreamData, Ping, StopSending, Pong, Frame}
use ngtcp.Strm.State.{Strm}
use ngtcp.Conn.{
  App, Mem, Conn, Step, and_then, checked, find_strm, set_strm, if_known, conn_local_stream,
  bidi_stream, conn_max_data_violated, check_stream_id, get_idtr, put_idtr,
}
use ngtcp.Conn.Close.{conn_close_stream_if_shut_rdwr, queue_frame, conn_rst_stream}
use ngtcp.Conn.Recv.{is_in_use}
use ngtcp.Conn.Open.{open_remote_strm}

unfoldable pub grant : ℕ → Strm → Strm
grant limit strm = record strm { max_tx_offset = max strm.max_tx_offset limit }

-- `ngtcp2_idtr_open` in `conn_recv_max_stream_data`, where any answer but
-- NGTCP2_ERR_STREAM_IN_USE makes a stream.
abbrev pub open_granted : Mem → Conn → ℕ → Result (Idtr × Result (Unit {0})) → (Conn → Step) → Step
open_granted mem conn stream_id (ok (idtr, rv)) next =
    let conn' = put_idtr conn (bidi_stream stream_id) idtr in
    let made = and_then (open_remote_strm mem conn' stream_id) next in
    elim rv [ err e ↦ if is_in_use e then (conn', ok tt) else made | _ ↦ made ]
open_granted mem conn stream_id (err e) next = (conn, err e)
open_granted mem conn stream_id fault next = (conn, fault)

unfoldable pub conn_recv_max_stream_data : Mem → Conn → MaxStreamData → Step
conn_recv_max_stream_data mem conn fr =
    let id = fr.stream_id in
    checked (check_stream_id conn id) conn (
      if_known (find_strm id conn.strms) (λ s. (set_strm id (grant fr.max_stream_data) conn, ok tt))
        (if conn_local_stream conn id
          then (conn, ok tt)
          else open_granted mem conn id (idtr_open mem.gap (get_idtr conn (bidi_stream id)) id)
              (λ conn. (set_strm id (grant fr.max_stream_data) conn, ok tt))))

-- The ID of a stream that the peer opened without data is taken; the answer is not looked at.
abbrev pub taken : Conn → Bool → Result (Idtr × Result (Unit {0})) → Step
taken conn bidi (ok (idtr, rv)) = (put_idtr conn bidi idtr, ok tt)
taken conn bidi (err e) = (conn, err e)
taken conn bidi fault = (conn, fault)

-- What follows `ngtcp2_idtr_is_open` for a stream that is not there: `next` if the ID is free.
abbrev pub if_free : Conn → Result (Unit {0}) → Step → Step
if_free conn (ok t) next = next
if_free conn (err e) next = (conn, ok tt)
if_free conn fault next = (conn, fault)

-- RST_STREAM for a stream that is not there.
unfoldable pub rst_unknown : Mem → Conn → RstStream → Step
rst_unknown mem conn fr =
    let bidi = bidi_stream fr.stream_id in
    let idtr = get_idtr conn bidi in
    if conn_local_stream conn fr.stream_id
    then checked (guard (bidi || (fr.final_offset == 0)) final_offset_err) conn (conn, ok tt)
    else if_free conn (idtr_is_open idtr fr.stream_id) (
        if ltb conn.local_settings.max_stream_data fr.final_offset
          || conn_max_data_violated conn fr.final_offset
        then (conn, err flow_control)
        else and_then (taken conn bidi (idtr_open mem.gap idtr fr.stream_id))
            λ conn. (record conn { rx_offset = add_uint64 conn.rx_offset fr.final_offset }, ok tt))

-- The condition under which the final offset contradicts what was received.
unfoldable pub bad_final_offset : Strm → ℕ → Bool
bad_final_offset strm final_offset =
    if strm.flags.shut_rd
    then not (strm.last_rx_offset == final_offset)
    else ltb final_offset strm.last_rx_offset

unfoldable pub reset_read : Strm → Strm
reset_read strm = record strm { flags = record strm.flags { shut_rd = true; recv_rst = true } }

-- RST_STREAM for a stream that is there.
unfoldable pub rst_strm : App → Conn → RstStream → Strm → Step
rst_strm app conn fr strm =
    let datalen = sub_uint64 fr.final_offset strm.last_rx_offset in
    if bad_final_offset strm fr.final_offset
    then (conn, err final_offset_err)
    else if ltb strm.max_rx_offset fr.final_offset || conn_max_data_violated conn datalen
    then (conn, err flow_control)
    else conn_close_stream_if_shut_rdwr app
        (set_strm fr.stream_id reset_read
          (record conn { rx_offset = add_uint64 conn.rx_offset datalen }))
        fr.stream_id fr.app_error_code

unfoldable pub conn_recv_rst_stream : Mem → App → Conn → RstStream → Step
conn_recv_rst_stream mem app conn fr =
    checked (do guard (not (fr.stream_id == 0)) proto; check_stream_id conn fr.stream_id) conn
      (if_known (find_strm fr.stream_id conn.strms) (rst_strm app conn fr)
        (rst_unknown mem conn fr))

-- STOP_SENDING for a stream that is not there.
unfoldable pub stop_unknown : Mem → Conn → StopSending → Step
stop_unknown mem conn fr =
    let bidi = bidi_stream fr.stream_id in
    let idtr = get_idtr conn bidi in
    if conn_local_stream conn fr.stream_id
    then (conn, ok tt)
    else if_free conn (idtr_is_open idtr fr.stream_id)
        (taken conn bidi (idtr_open mem.gap idtr fr.stream_id))

unfoldable pub reset_write : Strm → Strm
reset_write strm = record strm { flags = record strm.flags { shut_wr = true; sent_rst = true } }

abbrev pub stopped : App → StopSending → Conn → Step
stopped app fr conn =
    conn_close_stream_if_shut_rdwr app (set_strm fr.stream_id reset_write conn) fr.stream_id
      fr.app_error_code

unfoldable pub conn_recv_stop_sending : Mem → App → Conn → StopSending → Step
conn_recv_stop_sending mem app conn fr =
    checked (do guard (not (fr.stream_id == 0)) proto; check_stream_id conn fr.stream_id) conn
      (if_known (find_strm fr.stream_id conn.strms)
        (λ strm. and_then (conn_rst_stream mem conn fr.stream_id 0) (stopped app fr))
        (stop_unknown mem conn fr))

unfoldable pub conn_recv_pong : Pong → Result (Unit {0})
conn_recv_pong fr = guard (not (length fr.content == 0)) frame_format

unfoldable pub conn_recv_ping : Mem → Conn → Ping → Step
conn_recv_ping mem conn fr =
    if length fr.content == 0
    then (conn, ok tt)
    else queue_frame mem (Frame.pong record { content = fr.content }) conn
