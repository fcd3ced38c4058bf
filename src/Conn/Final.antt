-- ===== src/Conn/Final.antt =====
-- A RST_STREAM frame that arrives twice.
use ngtcp.Conn.Close.{is_finished, conn_close_stream_if_shut_rdwr}
use ngtcp.Conn.Order.Strms.{find-update}
use ngtcp.Base.{
  ltb, ◌==◌, final_offset_err, ok, err, ◌≤◌, ◌<◌, ◌≡◌, refl, ap, ◌∙◌, ◌≢◌, true, false, not, some,
  arith,
}
use ngtcp.Track.Range.{sub_uint64, add_uint64}
use ngtcp.Pkt.Frame.{RstStream}
use ngtcp.Strm.State.{Strm}
use ngtcp.Conn.{
  App, Mem, Conn, Step, find_strm, set_strm, conn_local_stream, conn_max_data_violated,
  check_stream_id,
}
use ngtcp.Conn.Control.{bad_final_offset, reset_read, rst_strm, conn_recv_rst_stream}

-- The connection behind the first RST_STREAM.
abbrev after_reset : Conn → RstStream → Strm → Conn
after_reset conn fr s = set_strm fr.stream_id reset_read (record conn {
  rx_offset = add_uint64 conn.rx_offset (sub_uint64 fr.final_offset s.last_rx_offset);
})

module _ (mem : Mem) (app : App) (conn : Conn) (fr : RstStream) (s : Strm)
    (other : fr.stream_id ≢ 0) (passed : check_stream_id conn fr.stream_id ≡ ok tt)
    (found : find_strm fr.stream_id conn.strms ≡ some s) where
  found_again : find_strm fr.stream_id (after_reset conn fr s).strms ≡ some (reset_read s)
  unfolding reset_read
  found_again = find-update fr.stream_id reset_read conn.strms s found (λ x. refl)

  nonzero : not (fr.stream_id == 0) ≡ true
  nonzero = ground arith

  good_final :
      s.flags.shut_rd ≡ false
      → s.last_rx_offset < fr.final_offset
      → bad_final_offset s fr.final_offset ≡ false
  unfolding bad_final_offset
  good_final e lt = ground arith

  bad_final :
      s.last_rx_offset < fr.final_offset → bad_final_offset (reset_read s) fr.final_offset ≡ true
  unfolding bad_final_offset reset_read
  bad_final lt = ground arith

  open_lem : s.flags.shut_wr ≡ false → is_finished (reset_read s) ≡ false
  unfolding is_finished reset_read
  open_lem e = ground arith

  same_checks : check_stream_id (after_reset conn fr s) fr.stream_id ≡ ok tt
  unfolding check_stream_id conn_local_stream
  same_checks = passed

  still_open :
      is_finished (reset_read s) ≡ false
      → conn_close_stream_if_shut_rdwr app (after_reset conn fr s) fr.stream_id fr.app_error_code
        ≡ (after_reset conn fr s, ok tt)
  unfolding conn_close_stream_if_shut_rdwr
  still_open e = rw (found_again, e) refl

  first_reset :
      s.flags.shut_rd ≡ false
      → s.flags.shut_wr ≡ false
      → s.last_rx_offset < fr.final_offset
      → fr.final_offset ≤ s.max_rx_offset
      → conn_max_data_violated conn (sub_uint64 fr.final_offset s.last_rx_offset) ≡ false
      → conn_recv_rst_stream mem app conn fr ≡ (after_reset conn fr s, ok tt)
  unfolding conn_recv_rst_stream rst_strm
  first_reset open_rd open_wr more within room =
      let fine : bad_final_offset s fr.final_offset ≡ false = good_final open_rd more in
      let no_more : ltb s.max_rx_offset fr.final_offset ≡ false = ground arith in
      let unfinished : is_finished (reset_read s) ≡ false = open_lem open_wr in
      rw (nonzero, passed, found, fine, no_more, room) (still_open unfinished)

  second_reset :
      s.last_rx_offset < fr.final_offset
      → (conn_recv_rst_stream mem app (after_reset conn fr s) fr).1 ≡ err final_offset_err
  unfolding conn_recv_rst_stream rst_strm
  second_reset more =
      let same : check_stream_id (after_reset conn fr s) fr.stream_id ≡ ok tt = same_checks in
      let bad : bad_final_offset (reset_read s) fr.final_offset ≡ true = bad_final more in
      rw (nonzero, same, found_again, bad) refl

-- A RST_STREAM frame for a stream with data in flight, which it resets: its final offset is behind
-- what was received, within both windows, and the stream can still be written to. It is accepted, but
-- the same frame, if it arrives again, is answered by NGTCP2_ERR_FINAL_OFFSET.
pub conn_recv_rst_stream_again :
    (mem : Mem) (app : App) (conn : Conn) (fr : RstStream) (s : Strm)
    → (fr.stream_id ≢ 0)
    → check_stream_id conn fr.stream_id ≡ ok tt
    → find_strm fr.stream_id conn.strms ≡ some s
    → s.flags.shut_rd ≡ false
    → s.flags.shut_wr ≡ false
    → s.last_rx_offset < fr.final_offset
    → fr.final_offset ≤ s.max_rx_offset
    → conn_max_data_violated conn (sub_uint64 fr.final_offset s.last_rx_offset) ≡ false
    → let (conn', rv) = conn_recv_rst_stream mem app conn fr in
      (rv ≡ ok tt) × ((conn_recv_rst_stream mem app conn' fr).1 ≡ err final_offset_err)
conn_recv_rst_stream_again mem app conn fr s other passed found open_rd open_wr more within room =
    let first = first_reset mem app conn fr s other passed found open_rd open_wr more within room in
    let second = second_reset mem app conn fr s other passed found more in
    (
      ap (λ (step : Step). step.1) first,
      ap (λ (step : Step). (conn_recv_rst_stream mem app step.0 fr).1) first ∙ second,
    )
