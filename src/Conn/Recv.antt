-- ===== src/Conn/Recv.antt =====
-- `conn_recv_stream`: what a STREAM frame does.
use ngtcp.Base.{
  ltb, leb, ◌==◌, if◌then◌else◌, length, drop, LibError, proto, stream_in_use, frame_format,
  final_offset_err, flow_control, Result, ok, err, fault, ◌>>◌, guard, assert, ℕ, zero, suc, ◌-◌,
  max, Bool, true, false, not, ◌&&◌, ◌||◌, List, [],
}
use ngtcp.Track.Range.{sub_uint64, add_uint64}
use ngtcp.Track.Idtr.{Idtr, idtr_open}
use ngtcp.Track.Ringbuf.{sub_size}
use ngtcp.Pkt.Frame.{Stream}
use ngtcp.Strm.State.{Strm, strm_rx_offset, strm_recv_reordering, strm_shutdown_rd}
use ngtcp.Strm.Rob.{Rob, rob_remove_prefix, rob_data_at, rob_pop, rob_first_gap_offset}
use ngtcp.Conn.{
  recv_stream_data, App, Mem, Conn, Step, and_then, checked, max_varint, find_strm, set_strm,
  with_strm, if_known, without_id, call_app, call_recv_stream0_data, conn_local_stream, bidi_stream,
  conn_max_data_violated, check_stream_id, get_idtr, put_idtr,
}
use ngtcp.Conn.Close.{conn_close_stream_if_shut_rdwr}
use ngtcp.Conn.Window.{conn_extend_max_strm_offset}
use ngtcp.Conn.Open.{open_remote_strm}

-- What is called with the data that is in order: the offset behind it, and its bytes.
abbrev pub Deliver : Type 0
Deliver = ℕ → List ℕ → Conn → Step

-- What a loop over the pending data leaves: the reorder buffer, the connection, and the answer.
abbrev pub Emitted : Type 0
Emitted = Rob × Conn × Result (Unit {0})

-- The end of a round, with what `rob_pop` and the application's function gave; `next` is the rest
-- of the loop.
abbrev pub emit_pop : Rob → Result Rob → (Rob → Conn → Emitted) → Step → Emitted
emit_pop rob (ok rob') next (conn, ok t) = next rob' conn
emit_pop rob (err e) next (conn, ok t) = (rob, conn, err e)
emit_pop rob fault next (conn, ok t) = (rob, conn, fault)
emit_pop rob popped next (conn, err e) = (rob, conn, err e)
emit_pop rob popped next (conn, fault) = (rob, conn, fault)

-- A round, with what `rob_data_at` gave.
abbrev pub emit_round :
    Deliver → ℕ → Rob → (ℕ → Rob → Conn → Emitted) → Conn → Result (List ℕ) → Emitted
emit_round deliver rx_offset rob next conn (ok content) =
    if length content == 0
    then (if rx_offset == rob_first_gap_offset rob then (rob, conn, ok tt) else (rob, conn, fault))
    else emit_pop rob (rob_pop rob rx_offset (length content))
        (next (add_uint64 rx_offset (length content)))
        (deliver (add_uint64 rx_offset (length content)) content conn)
emit_round deliver rx_offset rob next conn (err e) = (rob, conn, err e)
emit_round deliver rx_offset rob next conn fault = (rob, conn, fault)

-- The loop of `conn_emit_pending_stream_data` and of `conn_emit_pending_stream0_data`.
unfoldable pub emit_loop : Deliver → ℕ → ℕ → Rob → Conn → Emitted
emit_loop deliver zero rx_offset rob conn = (rob, conn, fault)
emit_loop deliver (suc fuel) rx_offset rob conn =
    emit_round deliver rx_offset rob (emit_loop deliver fuel) conn (rob_data_at rob rx_offset)

-- Each round but the last two takes a chunk out of the buffer.
abbrev pub emit_fuel : Rob → ℕ
emit_fuel rob = suc (suc (length rob.chunks))

abbrev pub set_rob : Rob → Strm → Strm
set_rob rob strm = record strm { rob = rob }

abbrev pub emitted : ℕ → Emitted → Step
emitted stream_id (rob, conn, rv) = (set_strm stream_id (set_rob rob) conn, rv)

-- The call of the application with data of a stream other than 0: `fin` is set with the last of it.
unfoldable pub deliver_data : App → Strm → Deliver
deliver_data app strm rx_offset content = call_app app (
    recv_stream_data strm.stream_id (strm.flags.shut_rd && (rx_offset == strm.last_rx_offset))
      content)

unfoldable pub conn_emit_pending_stream_data : App → ℕ → ℕ → Conn → Step
conn_emit_pending_stream_data app stream_id rx_offset conn = with_strm stream_id conn λ strm.
    emitted stream_id
      (emit_loop (deliver_data app strm) (emit_fuel strm.rob) rx_offset strm.rob conn)

-- The same with data of stream 0, whose window is extended; `datalen` is added twice.
unfoldable pub deliver_data0 : App → ℕ → Deliver
deliver_data0 app stream_id rx_offset content conn =
    and_then (call_recv_stream0_data app content conn) λ conn.
      conn_extend_max_strm_offset
        (set_strm stream_id
          (λ strm. record strm {
            unsent_max_rx_offset = add_uint64 strm.unsent_max_rx_offset (length content);
          })
          conn)
        stream_id (length content)

unfoldable pub conn_emit_pending_stream0_data : App → ℕ → ℕ → Conn → Step
conn_emit_pending_stream0_data app stream_id rx_offset conn = with_strm stream_id conn λ strm.
    emitted stream_id
      (emit_loop (deliver_data0 app stream_id) (emit_fuel strm.rob) rx_offset strm.rob conn)

-- The last part of `conn_recv_stream` for data that begins at `rx_offset` or before it.
unfoldable pub recv_in_order : App → Conn → Strm → Stream → ℕ → Step
recv_in_order app conn strm fr rx_offset =
    let ncut = rx_offset - fr.offset in
    let content = drop ncut fr.content in
    let rx_offset' = add_uint64 rx_offset (sub_size (length fr.content) ncut) in
    let conn' =
      set_strm strm.stream_id (λ strm. record strm { rob = rob_remove_prefix strm.rob rx_offset' })
        conn in
    checked (assert (leb ncut (length fr.content))) conn' (
      if strm.stream_id == 0
      then and_then (call_recv_stream0_data app content conn')
          (conn_emit_pending_stream0_data app strm.stream_id rx_offset')
      else and_then (deliver_data app strm rx_offset' content conn')
          (conn_emit_pending_stream_data app strm.stream_id rx_offset'))

-- `return ngtcp2_conn_close_stream_if_shut_rdwr(conn, strm, NGTCP2_NO_ERROR);`
abbrev pub close_if_finished : App → ℕ → Conn → Step
close_if_finished app stream_id conn = conn_close_stream_if_shut_rdwr app conn stream_id 0

-- The last part of `conn_recv_stream`.
unfoldable pub recv_data : Mem → App → Conn → Strm → Stream → ℕ → Step
recv_data mem app conn strm fr rx_offset =
    and_then
      (if leb fr.offset rx_offset
        then recv_in_order app conn strm fr rx_offset
        else (let (strm', rv) = strm_recv_reordering mem.rob strm fr in
            (set_strm strm.stream_id (set_rob strm'.rob) conn, rv)))
      (close_if_finished app strm.stream_id)

unfoldable pub set_last : ℕ → Strm → Strm
set_last last_rx_offset strm = record strm { last_rx_offset = last_rx_offset }

-- The part of a frame with FIN behind the flags: nothing is left to be delivered, or `recv_data`.
unfoldable pub recv_ended : Mem → App → Strm → Stream → ℕ → Conn → Step
recv_ended mem app strm fr fr_end_offset conn =
    let id = strm.stream_id in
    let conn' : Conn = record conn { fc_strms = without_id id conn.fc_strms } in
    if fr_end_offset == strm_rx_offset strm
    then and_then (call_app app (recv_stream_data id true []) conn') (close_if_finished app id)
    else recv_data mem app conn' strm fr (strm_rx_offset strm)

unfoldable pub set_end : ℕ → Strm → Strm
set_end last_rx_offset strm = strm_shutdown_rd (set_last last_rx_offset strm)

-- `if (fr->fin) { ... }` and what follows
unfoldable pub recv_fin : Mem → App → Conn → Strm → Stream → ℕ → Step
recv_fin mem app conn strm fr fr_end_offset =
    let conn' = set_strm strm.stream_id (set_end fr_end_offset) conn in
    if strm.flags.shut_rd
    then (if strm.last_rx_offset == fr_end_offset
        then (conn, ok tt)
        else (conn, err final_offset_err))
    else if ltb fr_end_offset strm.last_rx_offset
    then (conn, err final_offset_err)
    else if strm.flags.stop_sending
    then conn_close_stream_if_shut_rdwr app conn' strm.stream_id strm.app_error_code
    else recv_ended mem app (set_end fr_end_offset strm) fr fr_end_offset conn'

-- `else { ... }` and what follows
unfoldable pub recv_part : Mem → App → Conn → Strm → Stream → ℕ → Step
recv_part mem app conn strm fr fr_end_offset =
    let id = strm.stream_id in
    let last_rx_offset = max strm.last_rx_offset fr_end_offset in
    let conn' = set_strm id (set_last last_rx_offset) conn in
    let rx_offset = strm_rx_offset strm in
    if strm.flags.shut_rd && ltb strm.last_rx_offset fr_end_offset
    then (conn, err final_offset_err)
    else if leb fr_end_offset rx_offset
    then (conn', ok tt)
    else if strm.flags.stop_sending
    then (conn', ok tt)
    else recv_data mem app conn' (set_last last_rx_offset strm) fr rx_offset

-- The flow control of the connection: what is received first counts, but not on stream 0.
unfoldable pub count_data : Conn → Strm → ℕ → Step
count_data conn strm fr_end_offset =
    let datalen = sub_uint64 fr_end_offset strm.last_rx_offset in
    if ltb strm.last_rx_offset fr_end_offset && not (strm.stream_id == 0)
    then (if conn_max_data_violated conn datalen
        then (conn, err flow_control)
        else (record conn { rx_offset = add_uint64 conn.rx_offset datalen }, ok tt))
    else (conn, ok tt)

-- The part of `conn_recv_stream` with a stream that is there.
unfoldable pub recv_strm : Mem → App → Stream → ℕ → Conn → Step
recv_strm mem app fr stream_id conn = with_strm stream_id conn λ strm.
    let fr_end_offset = add_uint64 fr.offset (length fr.content) in
    if ltb strm.max_rx_offset fr_end_offset
    then (conn, err flow_control)
    else and_then (count_data conn strm fr_end_offset) λ conn.
      if fr.fin
      then recv_fin mem app conn strm fr fr_end_offset
      else recv_part mem app conn strm fr fr_end_offset

abbrev pub is_in_use : LibError → Bool
is_in_use stream_in_use = true
is_in_use e = false

-- `ngtcp2_idtr_open` for a frame of a stream that is not there: one that was open has been closed,
-- and another is made. The handler of STREAM asserts that the tracker has no other error.
abbrev pub open_new : Mem → Conn → ℕ → Result (Idtr × Result (Unit {0})) → (Conn → Step) → Step
open_new mem conn stream_id (ok (idtr, ok t)) next =
    and_then (open_remote_strm mem (put_idtr conn (bidi_stream stream_id) idtr) stream_id) next
open_new mem conn stream_id (ok (idtr, err e)) next =
    let conn' = put_idtr conn (bidi_stream stream_id) idtr in
    if is_in_use e then (conn', ok tt) else (conn', fault)
open_new mem conn stream_id (ok (idtr, fault)) next =
    (put_idtr conn (bidi_stream stream_id) idtr, fault)
open_new mem conn stream_id (err e) next = (conn, err e)
open_new mem conn stream_id fault next = (conn, fault)

-- The checks that come before the stream is looked up.
unfoldable pub check_stream : Conn → Stream → Result (Unit {0})
check_stream conn fr = do
  guard (not (fr.stream_id == 0 && fr.fin)) proto
  guard (fr.fin || not (length fr.content == 0)) frame_format
  check_stream_id conn fr.stream_id
  guard
      (bidi_stream fr.stream_id
        || not (conn_local_stream conn fr.stream_id)
        || (add_uint64 fr.offset (length fr.content) == 0))
      final_offset_err
  guard (leb fr.offset (sub_uint64 max_varint (length fr.content))) proto

unfoldable pub conn_recv_stream : Mem → App → Conn → Stream → Step
conn_recv_stream mem app conn fr =
    let id = fr.stream_id in
    checked (check_stream conn fr) conn (
      if_known (find_strm id conn.strms) (λ s. recv_strm mem app fr id conn)
        (if conn_local_stream conn id
          then (conn, ok tt)
          else open_new mem conn id (idtr_open mem.gap (get_idtr conn (bidi_stream id)) id)
              (recv_strm mem app fr id)))
