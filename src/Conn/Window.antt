-- ===== src/Conn/Window.antt =====
-- The windows of flow control: what the peer grants, and what the application gives back.
use ngtcp.Track.Range.{sub_uint64}
use ngtcp.Base.{
  ltb, leb, if◌then◌else◌, stream_not_found, ok, err, ℕ, ◌+◌, ◌-◌, max, not, ◌&&◌, ◌||◌, none, some,
  ◌∷◌,
}
use ngtcp.Pkt.Frame.{MaxData, MaxStreamId}
use ngtcp.Strm.State.{Strm}
use ngtcp.Conn.{
  extend_max_stream_id, App, Conn, Step, max_varint, find_strm, set_strm, with_strm, mem_id,
  call_app, bidi_stream, conn_should_send_max_stream_data,
}

unfoldable pub extended_window : ℕ → Strm → Strm
extended_window datalen strm =
    if leb strm.unsent_max_rx_offset (sub_uint64 max_varint datalen)
    then record strm { unsent_max_rx_offset = strm.unsent_max_rx_offset + datalen }
    else strm

-- `conn_extend_max_stream_offset`, which the public function of nearly the same name calls
unfoldable pub conn_extend_max_strm_offset : Conn → ℕ → ℕ → Step
conn_extend_max_strm_offset conn stream_id datalen = with_strm stream_id conn λ strm.
    let strm' = extended_window datalen strm in
    let conn' = set_strm stream_id (extended_window datalen) conn in
    if not (strm'.flags.shut_rd || strm'.flags.stop_sending)
      && not (mem_id stream_id conn.fc_strms)
      && conn_should_send_max_stream_data conn strm'
    then (record conn' { fc_strms = stream_id ∷ conn.fc_strms }, ok tt)
    else (conn', ok tt)

-- `ngtcp2_conn_extend_max_stream_offset`
unfoldable pub conn_extend_max_stream_offset : Conn → ℕ → ℕ → Step
conn_extend_max_stream_offset conn stream_id datalen = elim (find_strm stream_id conn.strms) [
  | none ↦ (conn, err stream_not_found)
  | some s ↦ conn_extend_max_strm_offset conn stream_id datalen
]

-- `ngtcp2_conn_extend_max_offset`
unfoldable pub conn_extend_max_offset : Conn → ℕ → Conn
conn_extend_max_offset conn datalen =
    if ltb max_varint datalen || ltb (max_varint - datalen) conn.unsent_max_rx_offset
    then record conn { unsent_max_rx_offset = max_varint }
    else record conn { unsent_max_rx_offset = conn.unsent_max_rx_offset + datalen }

unfoldable pub conn_recv_max_data : Conn → MaxData → Conn
conn_recv_max_data conn fr = record conn { max_tx_offset = max conn.max_tx_offset fr.max_data }

unfoldable pub conn_recv_max_stream_id : App → Conn → MaxStreamId → Step
conn_recv_max_stream_id app conn fr =
    let conn' =
      if bidi_stream fr.max_stream_id
      then record conn {
        max_local_stream_id_bidi = max conn.max_local_stream_id_bidi fr.max_stream_id;
      }
      else record conn {
        max_local_stream_id_uni = max conn.max_local_stream_id_uni fr.max_stream_id;
      } in
    call_app app (extend_max_stream_id fr.max_stream_id) conn'
