-- ===== src/Conn/Close.antt =====
-- Closing and resetting streams: `ngtcp2_conn_close_stream` and what leads to it, and the shutdown
-- of a stream by the application.
use ngtcp.Base.{
  ltb, leb, ◌==◌, if◌then◌else◌, invalid_argument, nomem, stream_not_found, Result, ok, err, ◌>>◌,
  guard, ℕ, ◌+◌, ◌-◌, Bool, true, not, ◌&&◌, ◌||◌, none, some, ◌∷◌,
}
use ngtcp.Track.Gaptr.{first_gap_offset}
use ngtcp.Track.Idtr.{Idtr, first_gap}
use ngtcp.Pkt.Frame.{Frame}
use ngtcp.Strm.State.{Strm}
use ngtcp.Strm.Rob.{rob_first_gap_offset}
use ngtcp.Conn.{
  stream_close, App, Mem, Conn, Step, and_then, checked, max_varint, find_strm, remove_strm,
  set_strm, with_strm, without_id, call_app, conn_local_stream, bidi_stream,
}

-- `handle_remote_stream_id_extension`. The last statement of the C function increments its pointer
-- and not the number that it points to, so the window start stays.
unfoldable pub extended_stream_id : ℕ → ℕ → Idtr → ℕ
extended_stream_id unsent_max window_start idtr =
    if leb unsent_max (max_varint - 4) && ltb window_start (first_gap idtr)
    then unsent_max + 4
    else unsent_max

unfoldable pub extend_remote_stream_id : ℕ → Conn → Conn
extend_remote_stream_id stream_id conn =
    if bidi_stream stream_id
    then record conn {
      unsent_max_remote_stream_id_bidi =
          extended_stream_id conn.unsent_max_remote_stream_id_bidi
            conn.remote_stream_id_bidi_window_start conn.remote_bidi_idtr;
    }
    else record conn {
      unsent_max_remote_stream_id_uni =
          extended_stream_id conn.unsent_max_remote_stream_id_uni
            conn.remote_stream_id_uni_window_start conn.remote_uni_idtr;
    }

-- The end of `ngtcp2_conn_close_stream`, behind the call of the application.
unfoldable pub closed : ℕ → Conn → Step
closed stream_id conn =
    let extended =
      if conn_local_stream conn stream_id then conn else extend_remote_stream_id stream_id conn in
    (
      record extended { fc_strms = without_id stream_id extended.fc_strms; immediate_ack = true },
      ok tt,
    )

unfoldable pub conn_close_stream : App → Conn → ℕ → ℕ → Step
conn_close_stream app conn stream_id app_error_code = with_strm stream_id conn λ strm.
    let code = if strm.app_error_code == 0 then strm.app_error_code else app_error_code in
    and_then
      (call_app app (stream_close stream_id code)
        (record conn { strms = remove_strm stream_id conn.strms }))
      (closed stream_id)

-- The condition of `ngtcp2_conn_close_stream_if_shut_rdwr`.
unfoldable pub is_finished : Strm → Bool
is_finished strm =
    strm.flags.shut_rd
    && strm.flags.shut_wr
    && (strm.flags.recv_rst || (rob_first_gap_offset strm.rob == strm.last_rx_offset))
    && (strm.flags.sent_rst || (first_gap_offset strm.acked_tx_offset == strm.tx_offset))

unfoldable pub conn_close_stream_if_shut_rdwr : App → Conn → ℕ → ℕ → Step
conn_close_stream_if_shut_rdwr app conn stream_id app_error_code = with_strm stream_id conn λ strm.
    if is_finished strm then conn_close_stream app conn stream_id app_error_code else (conn, ok tt)

-- A frame at the head of the queue, if its allocation succeeds.
unfoldable pub queue_frame : Mem → Frame → Conn → Step
queue_frame mem fr conn =
    if mem.frame then (record conn { frq = fr ∷ conn.frq }, ok tt) else (conn, err nomem)

unfoldable pub conn_rst_stream : Mem → Conn → ℕ → ℕ → Step
conn_rst_stream mem conn stream_id app_error_code = with_strm stream_id conn λ strm.
    queue_frame mem
      (Frame.rst_stream record {
        stream_id = stream_id;
        app_error_code = app_error_code;
        final_offset = strm.tx_offset;
      })
      conn

unfoldable pub conn_stop_sending : Mem → Conn → ℕ → ℕ → Step
conn_stop_sending mem conn stream_id app_error_code =
    let fr = Frame.stop_sending record { stream_id = stream_id; app_error_code = app_error_code } in
    and_then (queue_frame mem fr conn)
      λ conn. (record conn { fc_strms = without_id stream_id conn.fc_strms }, ok tt)

unfoldable pub reset_flags : ℕ → Strm → Strm
reset_flags app_error_code strm = record strm {
  flags = record strm.flags { shut_wr = true; sent_rst = true };
  app_error_code = app_error_code;
}

unfoldable pub conn_shutdown_strm_write : Mem → Conn → ℕ → ℕ → Step
conn_shutdown_strm_write mem conn stream_id app_error_code = with_strm stream_id conn λ strm.
    if strm.flags.sent_rst
    then (conn, ok tt)
    else conn_rst_stream mem (set_strm stream_id (reset_flags app_error_code) conn) stream_id
        app_error_code

unfoldable pub stop_flags : ℕ → Strm → Strm
stop_flags app_error_code strm = record strm {
  flags = record strm.flags { stop_sending = true };
  app_error_code = app_error_code;
}

unfoldable pub conn_shutdown_strm_read : Mem → Conn → ℕ → ℕ → Step
conn_shutdown_strm_read mem conn stream_id app_error_code = with_strm stream_id conn λ strm.
    if strm.flags.stop_sending
    then (conn, ok tt)
    else conn_stop_sending mem (set_strm stream_id (stop_flags app_error_code) conn) stream_id
        app_error_code

-- What the three functions of the application check first; NGTCP2_STOPPING is 0.
unfoldable pub check_shutdown : Conn → ℕ → ℕ → Result (Unit {0})
check_shutdown conn stream_id app_error_code = do
  guard (not (stream_id == 0 || app_error_code == 0)) invalid_argument
  elim (find_strm stream_id conn.strms) [ none ↦ err stream_not_found | some s ↦ ok tt ]

unfoldable pub conn_shutdown_stream : Mem → Conn → ℕ → ℕ → Step
conn_shutdown_stream mem conn stream_id app_error_code =
    checked (check_shutdown conn stream_id app_error_code) conn (
      and_then (conn_shutdown_strm_read mem conn stream_id app_error_code)
        λ conn. conn_shutdown_strm_write mem conn stream_id app_error_code)

unfoldable pub conn_shutdown_stream_write : Mem → Conn → ℕ → ℕ → Step
conn_shutdown_stream_write mem conn stream_id app_error_code =
    checked (check_shutdown conn stream_id app_error_code) conn
      (conn_shutdown_strm_write mem conn stream_id app_error_code)

unfoldable pub conn_shutdown_stream_read : Mem → Conn → ℕ → ℕ → Step
conn_shutdown_stream_read mem conn stream_id app_error_code =
    checked (check_shutdown conn stream_id app_error_code) conn
      (conn_shutdown_strm_read mem conn stream_id app_error_code)
