-- ===== src/Conn/Keeps/Data.antt =====
-- The rules for the part of `conn_recv_stream` that hands data to the application.
use ngtcp.Base.{
  leb, ◌==◌, if◌then◌else◌, Bool-cases, length, drop, Result, ok, err, fault, assert, ℕ, zero, suc,
  ◌-◌, refl, inl, inr, not, ◌&&◌, ◌||◌, none, some, List, ◌∷◌, arith,
}
use ngtcp.Track.Range.{add_uint64}
use ngtcp.Track.Ringbuf.{sub_size}
use ngtcp.Pkt.Frame.{Stream}
use ngtcp.Strm.State.{Strm, strm_recv_reordering}
use ngtcp.Strm.Rob.{Rob, rob_remove_prefix, rob_data_at, rob_pop, rob_first_gap_offset}
use ngtcp.Conn.{
  recv_stream_data, App, Mem, Conn, Step, and_then, find_strm, set_strm, with_found, mem_id,
  call_recv_stream0_data, conn_should_send_max_stream_data,
}
use ngtcp.Conn.Window.{extended_window, conn_extend_max_strm_offset}
use ngtcp.Conn.Recv.{
  Deliver, Emitted, emit_pop, emit_round, emit_loop, emit_fuel, set_rob, emitted, deliver_data,
  conn_emit_pending_stream_data, deliver_data0, conn_emit_pending_stream0_data, recv_in_order,
  close_if_finished, recv_data,
}
use ngtcp.Conn.Keeps.{
  Quiet, IsKept, and_then-keeps, checked-keeps, with_strm-keeps, if-keeps, call_app-keeps,
  call_recv_stream0_data-keeps, close_if_shut_rdwr-keeps,
}

module _ (P : Conn → Type 0) (kept : IsKept P) (app : App) where
  extended_window-Quiet : (datalen : ℕ) → Quiet (extended_window datalen)
  unfolding extended_window
  extended_window-Quiet datalen s = ground arith

  pub extend_window-keeps :
      (conn : Conn) (id datalen : ℕ) → P conn → P (conn_extend_max_strm_offset conn id datalen).0
  unfolding conn_extend_max_strm_offset
  extend_window-keeps conn id datalen h =
      let conn' : Conn = set_strm id (extended_window datalen) conn in
      let h' : P conn' =
        kept.write conn id (extended_window datalen) (extended_window-Quiet datalen) h in
      elim (find_strm id conn.strms)
        as (λ found.
          P
            (with_found conn found (λ strm.
              let strm' = extended_window datalen strm in
              if not (strm'.flags.shut_rd || strm'.flags.stop_sending)
                && not (mem_id id conn.fc_strms)
                && conn_should_send_max_stream_data conn strm'
              then (record conn' { fc_strms = id ∷ conn.fc_strms }, ok tt)
              else (conn', ok tt))).0) [
                | none ↦ h
                | some s ↦
                    if-keeps P
                      (not (
                          (extended_window datalen s).flags.shut_rd
                          || (extended_window datalen s).flags.stop_sending)
                        && not (mem_id id conn.fc_strms)
                        && conn_should_send_max_stream_data conn (extended_window datalen s))
                      (record conn' { fc_strms = id ∷ conn.fc_strms }, ok tt) (conn', ok tt)
                      (λ t. kept.fc conn' (id ∷ conn.fc_strms) h') (λ t. h')
              ]

  deliver_data-keeps :
      (strm : Strm) (rx_offset : ℕ) (content : List ℕ) (conn : Conn)
      → P conn
      → P (deliver_data app strm rx_offset content conn).0
  unfolding deliver_data
  deliver_data-keeps strm rx_offset content conn h =
      call_app-keeps P kept app
        (recv_stream_data strm.stream_id (strm.flags.shut_rd && (rx_offset == strm.last_rx_offset))
          content)
        conn h

  deliver_data0-keeps :
      (id rx_offset : ℕ) (content : List ℕ) (conn : Conn)
      → P conn
      → P (deliver_data0 app id rx_offset content conn).0
  unfolding deliver_data0
  deliver_data0-keeps id rx_offset content conn h =
      let grow : Strm → Strm = λ strm. record strm {
        unsent_max_rx_offset = add_uint64 strm.unsent_max_rx_offset (length content);
      } in
      and_then-keeps P (call_recv_stream0_data app content conn)
        (λ conn. conn_extend_max_strm_offset (set_strm id grow conn) id (length content))
        (call_recv_stream0_data-keeps P kept app content conn h)
        (λ c hc.
          extend_window-keeps (set_strm id grow c) id (length content)
            (kept.write c id grow (λ s. (refl, refl, refl)) hc))

  module _ (deliver : Deliver)
      (quiet : (rx_offset : ℕ) (content : List ℕ) (conn : Conn)
        → P conn
        → P (deliver rx_offset content conn).0) where
    emit_pop-keeps :
        (rob : Rob) (popped : Result Rob) (next : Rob → Conn → Emitted) (step : Step)
        → ((rob' : Rob) (conn : Conn) → P conn → P (next rob' conn).1)
        → P step.0
        → P (emit_pop rob popped next step).1
    emit_pop-keeps rob (ok rob') next (conn, ok t) k h = k rob' conn h
    emit_pop-keeps rob (err e) next (conn, ok t) k h = h
    emit_pop-keeps rob fault next (conn, ok t) k h = h
    emit_pop-keeps rob (ok rob') next (conn, err e) k h = h
    emit_pop-keeps rob (err e') next (conn, err e) k h = h
    emit_pop-keeps rob fault next (conn, err e) k h = h
    emit_pop-keeps rob (ok rob') next (conn, fault) k h = h
    emit_pop-keeps rob (err e') next (conn, fault) k h = h
    emit_pop-keeps rob fault next (conn, fault) k h = h

    emit_round-keeps :
        (rx_offset : ℕ) (rob : Rob) (next : ℕ → Rob → Conn → Emitted) (conn : Conn)
        (content : Result (List ℕ))
        → ((n : ℕ) (rob' : Rob) (conn : Conn) → P conn → P (next n rob' conn).1)
        → P conn
        → P (emit_round deliver rx_offset rob next conn content).1
    emit_round-keeps rx_offset rob next conn (err e) k h = h
    emit_round-keeps rx_offset rob next conn fault k h = h
    emit_round-keeps rx_offset rob next conn (ok content) k h =
        elim (Bool-cases (length content == 0)) [
          | inl e ↦ elim (Bool-cases (rx_offset == rob_first_gap_offset rob)) [
            | inl e' ↦ rw (e, e') h
            | inr e' ↦ rw (e, e') h
          ]
          | inr e ↦
              let end = add_uint64 rx_offset (length content) in
              rw e (
                emit_pop-keeps rob (rob_pop rob rx_offset (length content)) (next end)
                  (deliver end content conn) (k end) (quiet end content conn h))
        ]

    emit_loop-keeps :
        (fuel rx_offset : ℕ) (rob : Rob) (conn : Conn)
        → P conn
        → P (emit_loop deliver fuel rx_offset rob conn).1
    unfolding emit_loop
    emit_loop-keeps zero rx_offset rob conn h = h
    emit_loop-keeps (suc fuel) rx_offset rob conn h =
        emit_round-keeps rx_offset rob (emit_loop deliver fuel) conn (rob_data_at rob rx_offset)
          (emit_loop-keeps fuel) h

    pub emitted-keeps :
        (id rx_offset : ℕ) (strm : Strm) (conn : Conn)
        → P conn
        → P (emitted id (emit_loop deliver (emit_fuel strm.rob) rx_offset strm.rob conn)).0
    emitted-keeps id rx_offset strm conn h =
        let out = emit_loop deliver (emit_fuel strm.rob) rx_offset strm.rob conn in
        kept.write out.1 id (set_rob out.0) (λ s. (refl, refl, refl))
          (emit_loop-keeps (emit_fuel strm.rob) rx_offset strm.rob conn h)

  emit_stream_data-keeps :
      (id rx_offset : ℕ) (conn : Conn)
      → P conn
      → P (conn_emit_pending_stream_data app id rx_offset conn).0
  unfolding conn_emit_pending_stream_data
  emit_stream_data-keeps id rx_offset conn h =
      with_strm-keeps P id conn
        (λ strm.
          emitted id
            (emit_loop (deliver_data app strm) (emit_fuel strm.rob) rx_offset strm.rob conn))
        h (λ s e. emitted-keeps (deliver_data app s) (deliver_data-keeps s) id rx_offset s conn h)

  emit_stream0_data-keeps :
      (id rx_offset : ℕ) (conn : Conn)
      → P conn
      → P (conn_emit_pending_stream0_data app id rx_offset conn).0
  unfolding conn_emit_pending_stream0_data
  emit_stream0_data-keeps id rx_offset conn h =
      with_strm-keeps P id conn
        (λ strm.
          emitted id
            (emit_loop (deliver_data0 app id) (emit_fuel strm.rob) rx_offset strm.rob conn))
        h
        (λ s e. emitted-keeps (deliver_data0 app id) (deliver_data0-keeps id) id rx_offset s conn h)

  recv_in_order-keeps :
      (conn : Conn) (strm : Strm) (fr : Stream) (rx_offset : ℕ)
      → P conn
      → P (recv_in_order app conn strm fr rx_offset).0
  unfolding recv_in_order
  recv_in_order-keeps conn strm fr rx_offset h =
      let ncut = rx_offset - fr.offset in
      let content = drop ncut fr.content in
      let end = add_uint64 rx_offset (sub_size (length fr.content) ncut) in
      let cut : Strm → Strm = λ strm. record strm { rob = rob_remove_prefix strm.rob end } in
      let conn' : Conn = set_strm strm.stream_id cut conn in
      let h' : P conn' = kept.write conn strm.stream_id cut (λ s. (refl, refl, refl)) h in
      let step0 =
        and_then (call_recv_stream0_data app content conn')
          (conn_emit_pending_stream0_data app strm.stream_id end) in
      let step =
        and_then (deliver_data app strm end content conn')
          (conn_emit_pending_stream_data app strm.stream_id end) in
      checked-keeps P (assert (leb ncut (length fr.content))) conn'
        (if strm.stream_id == 0 then step0 else step) h'
        (λ t.
          if-keeps P (strm.stream_id == 0) step0 step
            (λ z.
              and_then-keeps P (call_recv_stream0_data app content conn')
                (conn_emit_pending_stream0_data app strm.stream_id end)
                (call_recv_stream0_data-keeps P kept app content conn' h')
                (emit_stream0_data-keeps strm.stream_id end))
            (λ z.
              and_then-keeps P (deliver_data app strm end content conn')
                (conn_emit_pending_stream_data app strm.stream_id end)
                (deliver_data-keeps strm end content conn' h')
                (emit_stream_data-keeps strm.stream_id end)))

  pub recv_data-keeps :
      (mem : Mem) (conn : Conn) (strm : Strm) (fr : Stream) (rx_offset : ℕ)
      → P conn
      → P (recv_data mem app conn strm fr rx_offset).0
  unfolding recv_data
  recv_data-keeps mem conn strm fr rx_offset h =
      let out = strm_recv_reordering mem.rob strm fr in
      let stored : Step = (set_strm strm.stream_id (set_rob out.0.rob) conn, out.1) in
      and_then-keeps P
        (if leb fr.offset rx_offset then recv_in_order app conn strm fr rx_offset else stored)
        (close_if_finished app strm.stream_id)
        (if-keeps P (leb fr.offset rx_offset) (recv_in_order app conn strm fr rx_offset) stored
          (λ z. recv_in_order-keeps conn strm fr rx_offset h)
          (λ z. kept.write conn strm.stream_id (set_rob out.0.rob) (λ s. (refl, refl, refl)) h))
        (λ c hc. close_if_shut_rdwr-keeps P kept app c strm.stream_id 0 hc)
