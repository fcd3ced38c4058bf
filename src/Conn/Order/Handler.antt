-- ===== src/Conn/Order/Handler.antt =====
-- `conn_recv_stream` hands the data of a stream to the application in order.
use ngtcp.Track.Range.{sub_uint64, add_uint64}
use mathlib.Core.Path.{subst}
use ngtcp.Base.{
  ltb, leb, ◌==◌, if◌then◌else◌, Bool-cases, le_cases, length, LibError, final_offset_err,
  flow_control, ok, err, ℕ, ◌+◌, ◌≤◌, max, ◌≡◌, refl, sym, ap, ◌∙◌, ◌≢◌, ◌⊎◌, inl, inr, Bool, true,
  false, not, ◌&&◌, none, [], ◌∷◌, ◌++◌, append-nil, arith,
}
use ngtcp.Track.Gaptr.Laws.{missing}
use ngtcp.Pkt.Frame.{Stream}
use ngtcp.Strm.State.{Strm, strm_rx_offset, strm_shutdown_rd}
use ngtcp.Strm.Rob.{Rob, rob_first_gap_offset}
use ngtcp.Strm.Rob.Push.{Fails}
use ngtcp.Strm.Rob.Read.{segment}
use ngtcp.Conn.{
  Call, recv_stream_data, App, Mem, Conn, Step, and_then, find_strm, remove_strm, set_strm,
  without_id, call_app, conn_max_data_violated,
}
use ngtcp.Conn.Close.{conn_close_stream_if_shut_rdwr}
use ngtcp.Conn.Recv.{
  close_if_finished, recv_data, set_last, recv_ended, set_end, recv_fin, recv_part, count_data,
  recv_strm,
}
use ngtcp.Conn.Order.{delivered, delivered-append, delivered_one}
use ngtcp.Conn.Order.Strms.{find-update, remove-update, IsOrdered, present_before}
use ngtcp.Conn.Order.Frames.{Delivers, close_lem, recv_data_lem}

-- Where the data that the application has got reaches at least, if the frame is accepted: to the
-- end of the frame's data, if that begins where the application is, or before, and the stream is
-- neither stopped nor, for a frame with FIN, ended already.
unfoldable pub reach : Strm → Stream → ℕ
reach s fr =
    if leb fr.offset (strm_rx_offset s)
      && not s.flags.stop_sending
      && not (fr.fin && s.flags.shut_rd)
    then max (strm_rx_offset s) (fr.offset + length fr.content)
    else strm_rx_offset s

reach_end :
    (s : Strm) (fr : Stream)
    → fr.offset + length fr.content ≤ strm_rx_offset s
    → reach s fr ≤ strm_rx_offset s
unfolding reach
reach_end s fr le = ground arith

reach_stop : (s : Strm) (fr : Stream) → s.flags.stop_sending ≡ true → reach s fr ≤ strm_rx_offset s
unfolding reach
reach_stop s fr e = ground arith

reach_fin :
    (s : Strm) (fr : Stream)
    → fr.fin ≡ true
    → s.flags.shut_rd ≡ true
    → reach s fr ≤ strm_rx_offset s
unfolding reach
reach_fin s fr e e' = ground arith

pub write-IsOrdered :
    (f : ℕ → ℕ) (id : ℕ) (conn : Conn) (s : Strm) (g : Strm → Strm)
    → IsOrdered f id conn s
    → ((x : Strm) → (g x).stream_id ≡ x.stream_id)
    → (g s).rob ≡ s.rob
    → s.last_rx_offset ≤ (g s).last_rx_offset
    → (g s).last_rx_offset ≤ 4611686018427387903
    → IsOrdered f id (set_strm id g conn) (g s)
unfolding strm_rx_offset
write-IsOrdered f id conn s g h same rob le small = record {
  found = find-update id g conn.strms s h.found same;
  single = ap (find_strm id) (remove-update id g conn.strms same) ∙ h.single;
  holds = rw rob h.holds;
  ahead = λ x a b. ap (λ (r : Rob). missing r.gap x) rob ∙ h.ahead x (omega (arith, le)) b;
  small = small;
  order = rw rob h.order;
}

rx_le_last :
    (f : ℕ → ℕ) (id : ℕ) (conn : Conn) (s : Strm)
    → IsOrdered f id conn s
    → strm_rx_offset s ≤ s.last_rx_offset
unfolding strm_rx_offset
rx_le_last f id conn s h = elim (le_cases (rob_first_gap_offset s.rob) s.last_rx_offset) [
  | inl le ↦ le
  | inr lt ↦ cc (
    present_before f (rob_first_gap_offset s.rob) s.rob s.last_rx_offset h.holds lt,
    h.ahead s.last_rx_offset (omega arith) (omega (arith, h.small)),
  )
]

-- A change of the connection that leaves the streams and the calls as they are.
pub other-IsOrdered :
    (f : ℕ → ℕ) (id : ℕ) (conn conn' : Conn) (s : Strm)
    → IsOrdered f id conn s
    → conn'.strms ≡ conn.strms
    → conn'.calls ≡ conn.calls
    → IsOrdered f id conn' s
other-IsOrdered f id conn conn' s h strms calls = record {
  found = ap (find_strm id) strms ∙ h.found;
  single = ap (λ l. find_strm id (remove_strm id l)) strms ∙ h.single;
  holds = h.holds;
  ahead = h.ahead;
  small = h.small;
  order = ap (delivered id) calls ∙ h.order;
}

module _ (f : ℕ → ℕ) (app : App) (willing : (call : Call) → app call ≡ none) (id : ℕ) (mem : Mem)
    (ample : Fails mem.rob → ⊥) (other : id ≢ 0) (fr : Stream)
    (content : fr.content ≡ segment f fr.offset (length fr.content))
    (small : fr.offset + length fr.content ≤ 4611686018427387903) where
  stays :
      (s : Strm) (least : ℕ) (conn : Conn) (s' : Strm)
      → IsOrdered f id conn s'
      → strm_rx_offset s' ≡ strm_rx_offset s
      → least ≤ strm_rx_offset s
      → Delivers f id least (conn, ok tt)
  stays s least conn s' h same le =
      inr (refl, strm_rx_offset s', omega (arith, le, same), (h.order, inl (s', h, refl)))

  pub if-Delivers :
      (least : ℕ) (b : Bool) (x y : Step)
      → (b ≡ true → Delivers f id least x)
      → (b ≡ false → Delivers f id least y)
      → Delivers f id least (if b then x else y)
  if-Delivers least true x y h k = h refl
  if-Delivers least false x y h k = k refl

  -- The rest of the handler, with the end of the stream's data set.
  data-Delivers :
      (conn : Conn) (s s' : Strm)
      → s'.stream_id ≡ id
      → IsOrdered f id conn s'
      → strm_rx_offset s' ≡ strm_rx_offset s
      → strm_rx_offset s ≤ fr.offset + length fr.content
      → fr.offset + length fr.content ≤ s'.last_rx_offset
      → Delivers f id (reach s fr) (recv_data mem app conn s' fr (strm_rx_offset s))
  unfolding reach
  data-Delivers conn s s' own h same after within =
      let (done, n, more, all, left) =
        recv_data_lem f app willing id mem ample other conn s' fr own h content
          (omega (arith, same, after)) within in
      let all' : leb fr.offset (strm_rx_offset s) ≡ true → fr.offset + length fr.content ≤ n =
        λ e. all (ground (arith, e, same)) in
      let result : Delivers f id (reach s fr) (recv_data mem app conn s' fr (strm_rx_offset s')) =
        inr (done, n, ground (arith, more, all', same), left) in
      subst (λ o. Delivers f id (reach s fr) (recv_data mem app conn s' fr o)) same result

  recv_part_lem :
      (conn : Conn) (s : Strm)
      → s.stream_id ≡ id
      → fr.fin ≡ false
      → IsOrdered f id conn s
      → Delivers f id (reach s fr) (recv_part mem app conn s fr (fr.offset + length fr.content))
  unfolding recv_part set_last strm_rx_offset
  recv_part_lem conn s own part h =
      let end = fr.offset + length fr.content in
      let top = max s.last_rx_offset end in
      let s' = set_last top s in
      let conn' : Conn = set_strm s.stream_id (set_last top) conn in
      let h' : IsOrdered f id conn' s' =
        subst (λ i. IsOrdered f id (set_strm i (set_last top) conn) s') (sym own)
          (write-IsOrdered f id conn s (set_last top) h (λ x. refl) refl (omega arith)
            (omega (arith, h.small))) in
      if-Delivers (reach s fr) (s.flags.shut_rd && ltb s.last_rx_offset end)
        (conn, err final_offset_err) _ (λ e. inl (final_offset_err, refl))
        (λ e.
          if-Delivers (reach s fr) (leb end (strm_rx_offset s)) (conn', ok tt) _
            (λ e'. stays s (reach s fr) conn' s' h' refl (reach_end s fr (ground arith)))
            (λ e'.
              if-Delivers (reach s fr) s.flags.stop_sending (conn', ok tt)
                (recv_data mem app conn' s' fr (strm_rx_offset s))
                (λ stop. stays s (reach s fr) conn' s' h' refl (reach_stop s fr stop))
                (λ go. data-Delivers conn' s s' own h' refl (ground arith) (omega arith))))

  -- The stream is closed if it is finished.
  closes :
      (s s' : Strm) (code : ℕ) (conn : Conn)
      → s'.stream_id ≡ id
      → IsOrdered f id conn s'
      → strm_rx_offset s' ≡ strm_rx_offset s
      → reach s fr ≤ strm_rx_offset s
      → Delivers f id (reach s fr) (conn_close_stream_if_shut_rdwr app conn s'.stream_id code)
  closes s s' code conn own h same le =
      let (done, left) = close_lem f app willing id conn s' code h in
      let result : Delivers f id (reach s fr) (conn_close_stream_if_shut_rdwr app conn id code) =
        inr (done, strm_rx_offset s', omega (arith, le, same), left) in
      subst (λ i. Delivers f id (reach s fr) (conn_close_stream_if_shut_rdwr app conn i code))
        (sym own) result

  -- The application is told of the end of the data: it gets no more of it.
  told_end :
      (conn : Conn) (s : Strm)
      → s.stream_id ≡ id
      → IsOrdered f id conn s
      → (conn' : Conn) × (call_app app (recv_stream_data s.stream_id true []) conn ≡ (conn', ok tt))
        × IsOrdered f id conn' s
  unfolding call_app
  told_end conn s own h =
      let call = recv_stream_data s.stream_id true [] in
      (
        record conn { calls = conn.calls ++ (call ∷ []) },
        rw (willing call) refl,
        record {
          found = h.found;
          single = h.single;
          holds = h.holds;
          ahead = h.ahead;
          small = h.small;
          order =
              delivered-append id conn.calls (call ∷ [])
              ∙ ap (λ i. delivered id conn.calls ++ delivered id (recv_stream_data i true [] ∷ []))
                  own
              ∙ ap (λ t. delivered id conn.calls ++ t) (delivered_one id true [])
              ∙ append-nil (delivered id conn.calls)
              ∙ h.order;
        },
      )

  recv_ended_lem :
      (s s' : Strm) (conn : Conn)
      → s'.stream_id ≡ id
      → IsOrdered f id conn s'
      → strm_rx_offset s' ≡ strm_rx_offset s
      → strm_rx_offset s ≤ fr.offset + length fr.content
      → fr.offset + length fr.content ≤ s'.last_rx_offset
      → Delivers f id (reach s fr) (recv_ended mem app s' fr (fr.offset + length fr.content) conn)
  unfolding recv_ended
  recv_ended_lem s s' conn own h same after within =
      let end = fr.offset + length fr.content in
      let conn' : Conn = record conn { fc_strms = without_id s'.stream_id conn.fc_strms } in
      let h' = other-IsOrdered f id conn conn' s' h refl refl in
      let (conn3, call, h3) = told_end conn' s' own h' in
      let told : Step = call_app app (recv_stream_data s'.stream_id true []) conn' in
      if-Delivers (reach s fr) (end == strm_rx_offset s')
        (and_then told (close_if_finished app s'.stream_id))
        (recv_data mem app conn' s' fr (strm_rx_offset s'))
        (λ e.
          subst
            (λ step.
              Delivers f id (reach s fr) (and_then step (close_if_finished app s'.stream_id)))
            (sym call) (closes s s' 0 conn3 own h3 same (reach_end s fr (ground (arith, e, same)))))
        (λ e.
          subst (λ o. Delivers f id (reach s fr) (recv_data mem app conn' s' fr o)) (sym same)
            (data-Delivers conn' s s' own h' same after within))

  recv_fin_lem :
      (conn : Conn) (s : Strm)
      → s.stream_id ≡ id
      → fr.fin ≡ true
      → IsOrdered f id conn s
      → Delivers f id (reach s fr) (recv_fin mem app conn s fr (fr.offset + length fr.content))
  unfolding recv_fin set_end set_last strm_shutdown_rd strm_rx_offset
  recv_fin_lem conn s own fin h =
      let end = fr.offset + length fr.content in
      let s' = set_end end s in
      let conn' : Conn = set_strm s.stream_id (set_end end) conn in
      let set : ltb end s.last_rx_offset ≡ false → IsOrdered f id conn' s' = λ e.
        subst (λ i. IsOrdered f id (set_strm i (set_end end) conn) s') (sym own)
          (write-IsOrdered f id conn s (set_end end) h (λ x. refl) refl (ground arith) small) in
      let closing = conn_close_stream_if_shut_rdwr app conn' s.stream_id s.app_error_code in
      let ended = recv_ended mem app s' fr end conn' in
      let same_end : Step =
        if s.last_rx_offset == end then (conn, ok tt) else (conn, err final_offset_err) in
      let open_step : Step =
        if ltb end s.last_rx_offset
        then (conn, err final_offset_err)
        else (if s.flags.stop_sending then closing else ended) in
      if-Delivers (reach s fr) s.flags.shut_rd same_end open_step
        (λ shut.
          if-Delivers (reach s fr) (s.last_rx_offset == end) (conn, ok tt)
            (conn, err final_offset_err)
            (λ e. stays s (reach s fr) conn s h refl (reach_fin s fr fin shut))
            (λ e. inl (final_offset_err, refl)))
        (λ open_rd.
          if-Delivers (reach s fr) (ltb end s.last_rx_offset) (conn, err final_offset_err)
            (if s.flags.stop_sending then closing else ended) (λ e. inl (final_offset_err, refl))
            (λ e.
              if-Delivers (reach s fr) s.flags.stop_sending closing ended
                (λ stop. closes s s' s.app_error_code conn' own (set e) refl (reach_stop s fr stop))
                (λ go.
                  recv_ended_lem s s' conn' own (set e) refl
                    (ground (arith, rx_le_last f id conn s h)) (omega arith))))

  count_Delivers :
      (s : Strm) (step : Step)
      → s.stream_id ≡ id
      → ((e : LibError) × (step.1 ≡ err e)) ⊎ ((step.1 ≡ ok tt) × IsOrdered f id step.0 s)
      → Delivers f id (reach s fr) (
          and_then step (λ conn.
            if fr.fin
            then recv_fin mem app conn s fr (fr.offset + length fr.content)
            else recv_part mem app conn s fr (fr.offset + length fr.content)))
  count_Delivers s (conn, rv) own (inl (e, failed)) = rw failed (inl (e, refl))
  count_Delivers s (conn, rv) own (inr (done, h)) = rw done (
      if-Delivers (reach s fr) fr.fin (recv_fin mem app conn s fr (fr.offset + length fr.content))
        (recv_part mem app conn s fr (fr.offset + length fr.content))
        (λ e. recv_fin_lem conn s own e h) (λ e. recv_part_lem conn s own e h))

  count_data_lem :
      (conn : Conn) (s : Strm) (end : ℕ)
      → IsOrdered f id conn s
      → let step = count_data conn s end in
        ((e : LibError) × (step.1 ≡ err e)) ⊎ ((step.1 ≡ ok tt) × IsOrdered f id step.0 s)
  unfolding count_data
  count_data_lem conn s end h =
      let datalen = sub_uint64 end s.last_rx_offset in
      elim (Bool-cases (ltb s.last_rx_offset end && not (s.stream_id == 0))) [
        | inr e ↦ rw e (inr (refl, h))
        | inl e ↦ elim (Bool-cases (conn_max_data_violated conn datalen)) [
          | inl v ↦ rw (e, v) (inl (flow_control, refl))
          | inr v ↦
              rw (e, v)
                (inr (
                  refl,
                  other-IsOrdered f id conn
                      (record conn { rx_offset = add_uint64 conn.rx_offset datalen }) s h refl refl,
                ))
        ]
      ]

  pub recv_strm_lem :
      (conn : Conn) (s : Strm)
      → s.stream_id ≡ id
      → IsOrdered f id conn s
      → Delivers f id (reach s fr) (recv_strm mem app fr id conn)
  unfolding recv_strm
  recv_strm_lem conn s own h =
      let end : add_uint64 fr.offset (length fr.content) ≡ fr.offset + length fr.content =
        omega (arith, small) in
      rw (h.found, end)
        (if-Delivers (reach s fr) (ltb s.max_rx_offset (fr.offset + length fr.content))
          (conn, err flow_control) _ (λ e. inl (flow_control, refl))
          (λ e.
            count_Delivers s (count_data conn s (fr.offset + length fr.content)) own
              (count_data_lem conn s (fr.offset + length fr.content) h)))
