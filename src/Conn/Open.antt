-- ===== src/Conn/Open.antt =====
-- How a connection begins, and how streams are opened.
use ngtcp.Track.Range.{add_uint64}
use ngtcp.Base.{
  ltb, if◌then◌else◌, replicate, nomem, stream_id_blocked, Result, ok, err, fault, ◌>>=◌, ◌>>◌,
  guard, ℕ, Bool, true, false, not, Option, none, some, List, [], ◌∷◌,
}
use ngtcp.Track.Idtr.{idtr_init, idtr_open}
use ngtcp.Track.Acktr.{AcktrAckEntry, acktr_init}
use ngtcp.Track.Acktr.{AcktrAckEntry, acktr_init}
use ngtcp.Pkt.Frame.{stream_id_blocked}
use ngtcp.Strm.State.{Strm, flag_none, strm_init, strm_shutdown_rd, strm_shutdown_wr}
use ngtcp.Conn.{Settings, Mem, Conn, Step, and_then, find_strm, set_strm, bidi_stream}

-- The zeros of `calloc`.
abbrev pub no_settings : Settings
no_settings = record {
  max_stream_data = 0;
  max_data = 0;
  max_stream_id_bidi = 0;
  max_stream_id_uni = 0;
  idle_timeout = 0;
  omit_connection_id = 0;
  max_packet_size = 0;
  stateless_reset_token = replicate 16 0;
  server_unicast_ip = record { ip0 = 0; ip1 = 0; ip2 = 0; ip3 = 0 };
  ack_delay_exponent = 0;
}

-- `conn_new`; the slots of the ring of sent ACK frames are what `ring` gives.
unfoldable pub conn_new :
    Mem → (ℕ → Option (List AcktrAckEntry)) → ℕ → Settings → Bool → Result Conn
conn_new mem ring version settings server = do
  guard mem.strm nomem
  strm0 ← strm_init mem.gap mem.rob 0 flag_none settings.max_stream_data 65535
  guard mem.table nomem
  remote_bidi_idtr ← idtr_init mem.gap (not server)
  remote_uni_idtr ← idtr_init mem.gap (not server)
  acktr ← acktr_init ring
  ok record {
    server = server;
    version = version;
    params_recved = false;
    strms = strm0 ∷ [];
    fc_strms = [];
    remote_bidi_idtr = remote_bidi_idtr;
    remote_uni_idtr = remote_uni_idtr;
    unsent_max_remote_stream_id_bidi = settings.max_stream_id_bidi;
    max_remote_stream_id_bidi = settings.max_stream_id_bidi;
    remote_stream_id_bidi_window_start = 0;
    max_local_stream_id_bidi = 0;
    next_local_stream_id_bidi = 0;
    unsent_max_remote_stream_id_uni = settings.max_stream_id_uni;
    max_remote_stream_id_uni = settings.max_stream_id_uni;
    remote_stream_id_uni_window_start = 0;
    max_local_stream_id_uni = 0;
    next_local_stream_id_uni = 0;
    unsent_max_rx_offset = settings.max_data;
    max_rx_offset = settings.max_data;
    rx_offset = 0;
    tx_offset = 0;
    max_tx_offset = 0;
    frq = [];
    acktr = acktr;
    local_settings = settings;
    remote_settings = no_settings;
    next_ack_expiry = 0;
    immediate_ack = false;
    calls = [];
  }

unfoldable pub conn_client_new :
    Mem → (ℕ → Option (List AcktrAckEntry)) → ℕ → Settings → Result Conn
conn_client_new mem ring version settings = do
  conn ← conn_new mem ring version settings false
  ok (record conn { next_local_stream_id_bidi = 4; next_local_stream_id_uni = 2 })

-- The answer of `ngtcp2_idtr_open` is not looked at.
unfoldable pub conn_server_new :
    Mem → (ℕ → Option (List AcktrAckEntry)) → ℕ → Settings → Result Conn
conn_server_new mem ring version settings = do
  conn ← conn_new mem ring version settings true
  (idtr, rv) ← idtr_open mem.gap conn.remote_bidi_idtr 0
  ok (record conn {
    remote_bidi_idtr = idtr;
    next_local_stream_id_bidi = 1;
    next_local_stream_id_uni = 3;
  })

-- A stream that was made is put into the table, in which its ID must not be: the assertion of
-- `ngtcp2_conn_init_stream`.
abbrev pub put_found : Mem → Conn → Strm → Option Strm → Step
put_found mem conn strm (some s) = (conn, fault)
put_found mem conn strm none =
    if mem.table then (record conn { strms = strm ∷ conn.strms }, ok tt) else (conn, err nomem)

abbrev pub put_strm : Mem → Conn → Result Strm → Step
put_strm mem conn (err e) = (conn, err e)
put_strm mem conn fault = (conn, fault)
put_strm mem conn (ok strm) = put_found mem conn strm (find_strm strm.stream_id conn.strms)

-- `ngtcp2_conn_init_stream`, with the allocation of the stream before it
unfoldable pub conn_init_stream : Mem → Conn → ℕ → Step
conn_init_stream mem conn stream_id =
    if mem.strm
    then put_strm mem conn (
        strm_init mem.gap mem.rob stream_id flag_none conn.local_settings.max_stream_data
          conn.remote_settings.max_stream_data)
    else (conn, err nomem)

unfoldable pub conn_open_bidi_stream : Mem → Conn → Conn × Result ℕ
conn_open_bidi_stream mem conn =
    let stream_id = conn.next_local_stream_id_bidi in
    if ltb conn.max_local_stream_id_bidi stream_id
    then (conn, err stream_id_blocked)
    else (let (conn', rv) = conn_init_stream mem conn stream_id in
        elim rv [
          | ok t ↦
              (record conn' { next_local_stream_id_bidi = add_uint64 stream_id 4 }, ok stream_id)
          | err e ↦ (conn', err e)
          | fault ↦ (conn', fault)
        ])

unfoldable pub conn_open_uni_stream : Mem → Conn → Conn × Result ℕ
conn_open_uni_stream mem conn =
    let stream_id = conn.next_local_stream_id_uni in
    if ltb conn.max_local_stream_id_uni stream_id
    then (conn, err stream_id_blocked)
    else (let (conn', rv) = conn_init_stream mem conn stream_id in
        elim rv [
          | ok t ↦ (
            record (set_strm stream_id strm_shutdown_rd conn') {
              next_local_stream_id_uni = add_uint64 stream_id 4;
            },
            ok stream_id,
          )
          | err e ↦ (conn', err e)
          | fault ↦ (conn', fault)
        ])

-- The part of the handlers of frames that makes a stream of the peer: a unidirectional one cannot
-- be written to.
unfoldable pub open_remote_strm : Mem → Conn → ℕ → Step
open_remote_strm mem conn stream_id = and_then (conn_init_stream mem conn stream_id) λ conn.
    if bidi_stream stream_id
    then (conn, ok tt)
    else (set_strm stream_id strm_shutdown_wr conn, ok tt)
