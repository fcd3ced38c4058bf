-- ===== src/Conn.antt =====
-- lib/ngtcp2_conn.c: the connection. The hash table of the streams is the list of the streams that
-- are in it, and a pointer to a stream is its ID: `update_strm` writes through it. The list of the
-- streams that wait for a MAX_STREAM_DATA frame is the list of their IDs, so `fc_pprev` is not NULL
-- if the ID is in it.
pub mod Close
pub mod Window
pub mod Open
pub mod Recv
pub mod Control
pub mod Keeps
pub mod Flow
pub mod Order
pub mod Final
pub mod Gap
mod Tests
use ngtcp.Base.{
  ltb, leb, ◌==◌, if◌then◌else◌, LibError, callback_failure, stream_state, stream_id_err,
  tls_handshake, tls_fatal_alert_generated, tls_fatal_alert_received, Result, ok, err, fault, guard,
  ℕ, ◌/◌, ◌%◌, bit_and, Bool, false, not, ◌||◌, Option, none, some, List, [], ◌∷◌, ◌++◌,
}
use ngtcp.Track.Range.{Range, sub_uint64}
use ngtcp.Track.Idtr.{Idtr}
use ngtcp.Track.Acktr.{Acktr}
use ngtcp.Pkt.Frame.{Frame}
use ngtcp.Strm.State.{Strm}
use ngtcp.Strm.Rob.{RobMem}
use ngtcp.Crypto.Params.{UnicastIp}

-- `ngtcp2_settings`
pub record Settings : Type 0 where
  pub max_stream_data : ℕ
  pub max_data : ℕ
  pub max_stream_id_bidi : ℕ
  pub max_stream_id_uni : ℕ
  pub idle_timeout : ℕ
  pub omit_connection_id : ℕ
  pub max_packet_size : ℕ
  pub stateless_reset_token : List ℕ
  pub server_unicast_ip : UnicastIp
  pub ack_delay_exponent : ℕ

-- A call of one of the application's functions.
pub data Call : Type 0 where
  recv_stream_data : ℕ → Bool → List ℕ → Call
  recv_stream0_data : List ℕ → Call
  stream_close : ℕ → ℕ → Call
  extend_max_stream_id : ℕ → Call

-- The application: what its functions return, `none` for 0. They do not call the library.
abbrev pub App : Type 0
App = Call → Option LibError

-- The allocator: which allocations succeed, of gaps, in the reorder buffers, of streams, of a larger
-- table of the streams, of frames, and of entries for received packets.
pub record Mem : Type 0 where
  pub gap : Range → Bool
  pub rob : RobMem
  pub strm : Bool
  pub table : Bool
  pub frame : Bool
  pub entry : Bool

-- `ngtcp2_conn`, without keys, packets that wait, and retransmission. `calls` is no field of the
-- C struct: it lists the calls of the application's functions so far.
pub record Conn : Type 0 where
  pub server : Bool
  pub version : ℕ
  pub params_recved : Bool
  pub strms : List Strm
  pub fc_strms : List ℕ
  pub remote_bidi_idtr : Idtr
  pub remote_uni_idtr : Idtr
  pub unsent_max_remote_stream_id_bidi : ℕ
  pub max_remote_stream_id_bidi : ℕ
  pub remote_stream_id_bidi_window_start : ℕ
  pub max_local_stream_id_bidi : ℕ
  pub next_local_stream_id_bidi : ℕ
  pub unsent_max_remote_stream_id_uni : ℕ
  pub max_remote_stream_id_uni : ℕ
  pub remote_stream_id_uni_window_start : ℕ
  pub max_local_stream_id_uni : ℕ
  pub next_local_stream_id_uni : ℕ
  pub unsent_max_rx_offset : ℕ
  pub max_rx_offset : ℕ
  pub rx_offset : ℕ
  pub tx_offset : ℕ
  pub max_tx_offset : ℕ
  pub frq : List Frame
  pub acktr : Acktr
  pub local_settings : Settings
  pub remote_settings : Settings
  pub next_ack_expiry : ℕ
  pub immediate_ack : Bool
  pub calls : List Call

-- The connection that an operation leaves, and what it returns.
abbrev pub Step : Type 0
Step = Conn × Result (Unit {0})

-- `if (rv != 0) return rv;` behind a call that changes the connection, and behind one that does not
abbrev pub and_then : Step → (Conn → Step) → Step
and_then (conn, ok t) next = next conn
and_then (conn, err e) next = (conn, err e)
and_then (conn, fault) next = (conn, fault)

abbrev pub checked : Result (Unit {0}) → Conn → Step → Step
checked (ok t) conn next = next
checked (err e) conn next = (conn, err e)
checked fault conn next = (conn, fault)

-- NGTCP2_MAX_VARINT
abbrev pub max_varint : ℕ
max_varint = 4611686018427387903

unfoldable pub find_strm : ℕ → List Strm → Option Strm
find_strm stream_id [] = none
find_strm stream_id (s ∷ ss) =
    let rest = find_strm stream_id ss in if s.stream_id == stream_id then some s else rest

-- What is written through the pointer to a stream.
unfoldable pub update_strm : ℕ → (Strm → Strm) → List Strm → List Strm
update_strm stream_id f [] = []
update_strm stream_id f (s ∷ ss) =
    let rest = update_strm stream_id f ss in if s.stream_id == stream_id then f s ∷ ss else s ∷ rest

unfoldable pub remove_strm : ℕ → List Strm → List Strm
remove_strm stream_id [] = []
remove_strm stream_id (s ∷ ss) =
    let rest = remove_strm stream_id ss in if s.stream_id == stream_id then ss else s ∷ rest

abbrev pub set_strm : ℕ → (Strm → Strm) → Conn → Conn
set_strm stream_id f conn = record conn { strms = update_strm stream_id f conn.strms }

-- A function that follows the pointer to a stream: without the stream the pointer dangles.
abbrev pub with_found : Conn → Option Strm → (Strm → Step) → Step
with_found conn none next = (conn, fault)
with_found conn (some s) next = next s

abbrev pub with_strm : ℕ → Conn → (Strm → Step) → Step
with_strm stream_id conn next = with_found conn (find_strm stream_id conn.strms) next

-- `if (strm == NULL) { ... }` and what follows
abbrev pub if_known : Option Strm → (Strm → Step) → Step → Step
if_known none known unknown = unknown
if_known (some s) known unknown = known s

-- Whether an ID is in the list of the streams that wait for a MAX_STREAM_DATA frame.
unfoldable pub mem_id : ℕ → List ℕ → Bool
mem_id stream_id [] = false
mem_id stream_id (x ∷ ids) = (x == stream_id) || mem_id stream_id ids

unfoldable pub without_id : ℕ → List ℕ → List ℕ
without_id stream_id [] = []
without_id stream_id (x ∷ ids) =
    let rest = without_id stream_id ids in if x == stream_id then ids else x ∷ rest

-- A call of one of the application's functions, with NGTCP2_ERR_CALLBACK_FAILURE for a value that
-- is not 0.
abbrev pub answer : Option LibError → Result (Unit {0})
answer none = ok tt
answer (some e) = err callback_failure

unfoldable pub call_app : App → Call → Conn → Step
call_app app call conn = (record conn { calls = conn.calls ++ (call ∷ []) }, answer (app call))

-- The `switch` of `conn_call_recv_stream0_data`
abbrev pub answer0 : Option LibError → Result (Unit {0})
answer0 none = ok tt
answer0 (some tls_handshake) = err tls_handshake
answer0 (some tls_fatal_alert_generated) = err tls_fatal_alert_generated
answer0 (some tls_fatal_alert_received) = err tls_fatal_alert_received
answer0 (some e) = err callback_failure

unfoldable pub call_recv_stream0_data : App → List ℕ → Conn → Step
call_recv_stream0_data app content conn =
    let call = recv_stream0_data content in
    (record conn { calls = conn.calls ++ (call ∷ []) }, answer0 (app call))

unfoldable pub conn_local_stream : Conn → ℕ → Bool
conn_local_stream conn stream_id =
    if conn.server then not (stream_id % 2 == 0) else stream_id % 2 == 0

unfoldable pub bidi_stream : ℕ → Bool
bidi_stream stream_id = bit_and stream_id 2 == 0

unfoldable pub conn_should_send_max_stream_data : Conn → Strm → Bool
conn_should_send_max_stream_data conn strm =
    ltb (conn.local_settings.max_stream_data / 2)
      (sub_uint64 strm.unsent_max_rx_offset strm.max_rx_offset)

unfoldable pub conn_should_send_max_data : Conn → Bool
conn_should_send_max_data conn =
    ltb (conn.local_settings.max_data / 2) (sub_uint64 conn.unsent_max_rx_offset conn.max_rx_offset)

unfoldable pub conn_max_data_violated : Conn → ℕ → Bool
conn_max_data_violated conn datalen = ltb (sub_uint64 conn.max_rx_offset conn.rx_offset) datalen

-- The checks of a stream ID that the handlers of frames share.
unfoldable pub check_stream_id : Conn → ℕ → Result (Unit {0})
check_stream_id conn stream_id =
    if bidi_stream stream_id
    then (if conn_local_stream conn stream_id
        then guard (ltb stream_id conn.next_local_stream_id_bidi) stream_state
        else guard (leb stream_id conn.max_remote_stream_id_bidi) stream_id_err)
    else if conn_local_stream conn stream_id
    then guard (ltb stream_id conn.next_local_stream_id_uni) stream_state
    else guard (leb stream_id conn.max_remote_stream_id_uni) stream_id_err

-- `idtr` of the handlers: the tracker for the peer's streams of a kind
abbrev pub get_idtr : Conn → Bool → Idtr
get_idtr conn bidi = if bidi then conn.remote_bidi_idtr else conn.remote_uni_idtr

abbrev pub put_idtr : Conn → Bool → Idtr → Conn
put_idtr conn bidi idtr =
    if bidi then record conn { remote_bidi_idtr = idtr } else record conn { remote_uni_idtr = idtr }
