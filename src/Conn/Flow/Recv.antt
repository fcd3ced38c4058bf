-- ===== src/Conn/Flow/Recv.antt =====
-- STREAM frames and flow control.
use ngtcp.Conn.Close.{conn_close_stream_if_shut_rdwr}
use ngtcp.Base.{
  ltb, leb, ◌==◌, if◌then◌else◌, Bool-cases, length, flow_control, ok, err, fault, ℕ, ◌+◌, ◌-◌, ◌^◌,
  ◌≤◌, ◌<◌, max, ◌≡◌, refl, ap₂, ◌∙◌, inl, inr, true, not, ◌&&◌, some, [], arith,
}
use ngtcp.Track.Range.{sub_uint64, add_uint64}
use ngtcp.Pkt.Frame.{Stream}
use ngtcp.Strm.State.{Strm, strm_rx_offset, strm_shutdown_rd}
use ngtcp.Conn.{
  recv_stream_data, App, Mem, Conn, Step, and_then, find_strm, set_strm, without_id, call_app,
  conn_max_data_violated,
}
use ngtcp.Conn.Recv.{
  close_if_finished, recv_data, set_last, recv_ended, set_end, recv_fin, recv_part, count_data,
  recv_strm,
}
use ngtcp.Conn.Keeps.{
  IsKept, and_then-keeps, with_strm-keeps, if-keeps, call_app-keeps, close_if_shut_rdwr-keeps,
}
use ngtcp.Conn.Keeps.Data.{recv_data-keeps}
use ngtcp.Conn.Flow.{
  HasSpare, IsFlow, HasSpare-less, total-update_found, Within-update_found, found-Within, found_id,
  HasSpare-IsKept,
}

-- What a stream's data up to `end` adds to the connection.
abbrev pub gain : Strm → ℕ → ℕ
gain strm end = if strm.stream_id == 0 then 0 else end - strm.last_rx_offset

-- The bytes that were counted ahead are used up when the end of the stream's data is set.
pub advance-IsFlow :
    (conn : Conn) (strm : Strm) (g : Strm → Strm) (end : ℕ)
    → HasSpare (gain strm end) conn
    → find_strm strm.stream_id conn.strms ≡ some strm
    → ((s : Strm)
        → ((g s).stream_id ≡ s.stream_id)
          × ((g s).last_rx_offset ≡ end)
          × ((g s).max_rx_offset ≡ s.max_rx_offset))
    → end ≤ strm.max_rx_offset
    → IsFlow (set_strm strm.stream_id g conn)
advance-IsFlow conn strm g end h e q le =
    let (within, small) = found-Within strm.stream_id conn.strms strm e h.windows in
    record {
      counts =
          ground (arith, h.counts, total-update_found strm.stream_id g conn.strms strm e, q strm);
      within = h.within;
      varint = h.varint;
      windows =
          Within-update_found strm.stream_id g conn.strms strm e (omega (arith, q strm, le))
            (omega (arith, q strm, small)) h.windows;
      setting = h.setting;
    }

count_data-HasSpare :
    (conn : Conn) (strm : Strm) (end : ℕ)
    → IsFlow conn
    → end ≤ strm.max_rx_offset
    → strm.max_rx_offset ≤ 4611686018427387903
    → strm.last_rx_offset ≤ strm.max_rx_offset
    → IsFlow (count_data conn strm end).0
      × ((count_data conn strm end).1 ≡ ok tt
          → HasSpare (gain strm end) (count_data conn strm end).0)
      × ((count_data conn strm end).0.strms ≡ conn.strms)
unfolding count_data conn_max_data_violated
count_data-HasSpare conn strm end h le small last =
    elim (Bool-cases (ltb strm.last_rx_offset end && not (strm.stream_id == 0))) [
      | inr e ↦
          let none_left : gain strm end ≡ 0 = ground arith in rw e (h, λ done. rw none_left h, refl)
      | inl e ↦
          let more : sub_uint64 end strm.last_rx_offset ≡ end - strm.last_rx_offset =
            ground arith in
          let room : sub_uint64 conn.max_rx_offset conn.rx_offset
              ≡ conn.max_rx_offset - conn.rx_offset =
            omega (arith, h.within, h.varint) in
          let added : gain strm end ≡ end - strm.last_rx_offset = ground arith in
          rw (e, more, room)
            (elim (Bool-cases
              (ltb (conn.max_rx_offset - conn.rx_offset) (end - strm.last_rx_offset))) [
                | inl v ↦ rw v (h, λ done. cc, refl)
                | inr v ↦
                    let sum : add_uint64 conn.rx_offset (end - strm.last_rx_offset)
                        ≡ conn.rx_offset + (end - strm.last_rx_offset) =
                      omega (arith, h.within, h.varint) in
                    rw (v, sum)
                      (
                        record {
                          counts = omega (arith, h.counts);
                          within = ground (arith, h.within);
                          varint = h.varint;
                          windows = h.windows;
                          setting = h.setting;
                        },
                        λ done. record {
                          counts = omega (arith, h.counts, added);
                          within = ground (arith, h.within);
                          varint = h.varint;
                          windows = h.windows;
                          setting = h.setting;
                        },
                        refl,
                      )
              ])
    ]

module _ (mem : Mem) (app : App) (fr : Stream) where
  abbrev flow : IsKept IsFlow
  flow = HasSpare-IsKept 0

  recv_ended-IsFlow :
      (strm : Strm) (end : ℕ) (conn : Conn)
      → IsFlow conn
      → IsFlow (recv_ended mem app strm fr end conn).0
  unfolding recv_ended
  recv_ended-IsFlow strm end conn h =
      let id = strm.stream_id in
      let conn' : Conn = record conn { fc_strms = without_id id conn.fc_strms } in
      let h' : IsFlow conn' = flow.fc conn (without_id id conn.fc_strms) h in
      let told = call_app app (recv_stream_data id true []) conn' in
      if-keeps IsFlow (end == strm_rx_offset strm) (and_then told (close_if_finished app id))
        (recv_data mem app conn' strm fr (strm_rx_offset strm))
        (λ d.
          and_then-keeps IsFlow told (close_if_finished app id)
            (call_app-keeps IsFlow flow app (recv_stream_data id true []) conn' h')
            (λ c hc. close_if_shut_rdwr-keeps IsFlow flow app c id 0 hc))
        (λ d. recv_data-keeps IsFlow flow app mem conn' strm fr (strm_rx_offset strm) h')

  recv_fin-IsFlow :
      (conn : Conn) (strm : Strm) (end : ℕ)
      → HasSpare (gain strm end) conn
      → find_strm strm.stream_id conn.strms ≡ some strm
      → end ≤ strm.max_rx_offset
      → IsFlow (recv_fin mem app conn strm fr end).0
  unfolding recv_fin set_end strm_shutdown_rd set_last
  recv_fin-IsFlow conn strm end h e le =
      let id = strm.stream_id in
      let conn' : Conn = set_strm id (set_end end) conn in
      let before : IsFlow conn = HasSpare-less (gain strm end) conn h in
      let after : IsFlow conn' =
        advance-IsFlow conn strm (set_end end) end h e (λ s. (refl, refl, refl)) le in
      let ended = recv_ended mem app (set_end end strm) fr end conn' in
      let closing = conn_close_stream_if_shut_rdwr app conn' id strm.app_error_code in
      if-keeps IsFlow strm.flags.shut_rd _ _
        (λ a. if-keeps IsFlow (strm.last_rx_offset == end) _ _ (λ b. before) (λ b. before))
        (λ a.
          if-keeps IsFlow (ltb end strm.last_rx_offset) _ _ (λ b. before)
            (λ b.
              if-keeps IsFlow strm.flags.stop_sending closing ended
                (λ c. close_if_shut_rdwr-keeps IsFlow flow app conn' id strm.app_error_code after)
                (λ c. recv_ended-IsFlow (set_end end strm) end conn' after)))

  recv_part-IsFlow :
      (conn : Conn) (strm : Strm) (end : ℕ)
      → HasSpare (gain strm end) conn
      → find_strm strm.stream_id conn.strms ≡ some strm
      → end ≤ strm.max_rx_offset
      → strm.last_rx_offset ≤ strm.max_rx_offset
      → IsFlow (recv_part mem app conn strm fr end).0
  unfolding recv_part set_last
  recv_part-IsFlow conn strm end h e le last =
      let id = strm.stream_id in
      let top = max strm.last_rx_offset end in
      let conn' : Conn = set_strm id (set_last top) conn in
      let before : IsFlow conn = HasSpare-less (gain strm end) conn h in
      let same : gain strm top ≡ gain strm end = ground arith in
      let after : IsFlow conn' =
        advance-IsFlow conn strm (set_last top) top (rw same h) e (λ s. (refl, refl, refl))
          (omega arith) in
      if-keeps IsFlow (strm.flags.shut_rd && ltb strm.last_rx_offset end) _ _ (λ a. before)
        (λ a.
          if-keeps IsFlow (leb end (strm_rx_offset strm)) _ _ (λ b. after)
            (λ b.
              if-keeps IsFlow strm.flags.stop_sending _ _ (λ c. after)
                (λ c.
                  recv_data-keeps IsFlow flow app mem conn' (set_last top strm) fr
                    (strm_rx_offset strm) after)))

  counted-IsFlow :
      (strm : Strm) (end : ℕ) (step : Step)
      → IsFlow step.0
      → (step.1 ≡ ok tt → HasSpare (gain strm end) step.0)
      → find_strm strm.stream_id step.0.strms ≡ some strm
      → end ≤ strm.max_rx_offset
      → strm.last_rx_offset ≤ strm.max_rx_offset
      → IsFlow
          (and_then step (λ conn.
            if fr.fin
            then recv_fin mem app conn strm fr end
            else recv_part mem app conn strm fr end)).0
  counted-IsFlow strm end (conn, err e) h spare found le last = h
  counted-IsFlow strm end (conn, fault) h spare found le last = h
  counted-IsFlow strm end (conn, ok t) h spare found le last =
      if-keeps IsFlow fr.fin (recv_fin mem app conn strm fr end)
        (recv_part mem app conn strm fr end)
        (λ z. recv_fin-IsFlow conn strm end (spare refl) found le)
        (λ z. recv_part-IsFlow conn strm end (spare refl) found le last)

  -- The part of the handler with the stream that is there.
  pub recv_strm-IsFlow :
      (id : ℕ) (conn : Conn)
      → fr.offset + length fr.content < 2 ^ 64
      → IsFlow conn
      → IsFlow (recv_strm mem app fr id conn).0
  unfolding recv_strm
  recv_strm-IsFlow id conn fits h =
      let end = add_uint64 fr.offset (length fr.content) in
      let finish : Strm → Conn → Step = λ strm conn.
        if fr.fin then recv_fin mem app conn strm fr end else recv_part mem app conn strm fr end in
      with_strm-keeps IsFlow id conn
        (λ strm.
          if ltb strm.max_rx_offset end
          then (conn, err flow_control)
          else and_then (count_data conn strm end) (finish strm))
        h
        (λ s e.
          let (last, small) = found-Within id conn.strms s e h.windows in
          if-keeps IsFlow (ltb s.max_rx_offset end) (conn, err flow_control)
            (and_then (count_data conn s end) (finish s)) (λ t. h)
            (λ t.
              let le : end ≤ s.max_rx_offset = ground arith in
              let (now, spare, same) = count_data-HasSpare conn s end h le small last in
              let found : find_strm s.stream_id (count_data conn s end).0.strms ≡ some s =
                ap₂ (λ i ss. find_strm i ss) (found_id id conn.strms s e) same ∙ e in
              counted-IsFlow s end (count_data conn s end) now spare found le last))
