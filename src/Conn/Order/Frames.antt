-- ===== src/Conn/Order/Frames.antt =====
-- STREAM frames of one stream hand its data to the application in order.
use mathlib.Core.Path.{subst}
use ngtcp.Base.{
  leb, ◌==◌, if◌then◌else◌, le→leb, Bool-cases, le_cases, length, LibError, ok, err, ℕ, ◌+◌, ◌≤◌,
  ◌≡◌, refl, sym, ap, ◌∙◌, ◌≢◌, ◌⊎◌, inl, inr, false, none, List, [], ◌∷◌, ◌++◌, append-nil, arith,
}
use ngtcp.Pkt.Frame.{Stream}
use ngtcp.Strm.State.{Strm, strm_rx_offset, strm_recv_reordering}
use ngtcp.Strm.Rob.Push.{Fails}
use ngtcp.Strm.Rob.Read.{segment}
use ngtcp.Conn.{
  Call, stream_close, App, Mem, Conn, Step, and_then, find_strm, remove_strm, set_strm, call_app,
  conn_local_stream, bidi_stream,
}
use ngtcp.Conn.Close.{
  extend_remote_stream_id, closed, conn_close_stream, is_finished, conn_close_stream_if_shut_rdwr,
}
use ngtcp.Conn.Recv.{set_rob, recv_in_order, close_if_finished, recv_data}
use ngtcp.Conn.Order.{delivered, delivered-append}
use ngtcp.Conn.Order.Strms.{IsOrdered}
use ngtcp.Conn.Order.InPlace.{Moves, recv_in_order_lem}
use ngtcp.Conn.Order.Push.{reorder_lem}

-- What is left of the stream `id` when the application has got its data up to `n`: the stream with
-- the rest, or none if it was closed.
abbrev pub Left : (ℕ → ℕ) → ℕ → ℕ → Conn → Type 0
Left f id n conn =
    (delivered id conn.calls ≡ segment f 0 n)
    × (((s : Strm) × IsOrdered f id conn s × (strm_rx_offset s ≡ n))
        ⊎ (find_strm id conn.strms ≡ none))

-- A step that answers an error, or hands out data up to `n`, at least up to `least`.
abbrev pub Delivers : (ℕ → ℕ) → ℕ → ℕ → Step → Type 0
Delivers f id least step =
    ((e : LibError) × (step.1 ≡ err e))
    ⊎ ((step.1 ≡ ok tt) × (n : ℕ) × (least ≤ n) × Left f id n step.0)

closed_lem :
    (id : ℕ) (conn : Conn)
    → ((closed id conn).1 ≡ ok tt)
      × ((closed id conn).0.strms ≡ conn.strms)
      × ((closed id conn).0.calls ≡ conn.calls)
unfolding closed extend_remote_stream_id
closed_lem id conn = elim (Bool-cases (conn_local_stream conn id)) [
  | inl e ↦ rw e (refl, refl, refl)
  | inr e ↦ elim (Bool-cases (bidi_stream id)) [
    | inl b ↦ rw (e, b) (refl, refl, refl)
    | inr b ↦ rw (e, b) (refl, refl, refl)
  ]
]

delivered_close :
    (id code : ℕ) (calls : List Call)
    → delivered id (calls ++ (stream_close id code ∷ [])) ≡ delivered id calls
unfolding delivered
delivered_close id code calls =
    delivered-append id calls (stream_close id code ∷ []) ∙ append-nil (delivered id calls)

module _ (f : ℕ → ℕ) (app : App) (willing : (call : Call) → app call ≡ none) (id : ℕ) where
  close_stream_lem :
      (conn : Conn) (s : Strm) (code : ℕ)
      → IsOrdered f id conn s
      → ((conn_close_stream app conn id code).1 ≡ ok tt)
        × Left f id (strm_rx_offset s) (conn_close_stream app conn id code).0
  unfolding conn_close_stream call_app
  close_stream_lem conn s code h =
      let code' = if s.app_error_code == 0 then s.app_error_code else code in
      let call = stream_close id code' in
      let conn' : Conn = record conn {
        strms = remove_strm id conn.strms;
        calls = conn.calls ++ (call ∷ []);
      } in
      let (done, strms, calls) = closed_lem id conn' in
      rw (h.found, willing call)
        (
          done,
          (
            ap (delivered id) calls ∙ delivered_close id code' conn.calls ∙ h.order,
            inr (ap (find_strm id) strms ∙ h.single),
          ),
        )

  pub close_lem :
      (conn : Conn) (s : Strm) (code : ℕ)
      → IsOrdered f id conn s
      → ((conn_close_stream_if_shut_rdwr app conn id code).1 ≡ ok tt)
        × Left f id (strm_rx_offset s) (conn_close_stream_if_shut_rdwr app conn id code).0
  unfolding conn_close_stream_if_shut_rdwr
  close_lem conn s code h = rw h.found (elim (Bool-cases (is_finished s)) [
    | inl e ↦ rw e (close_stream_lem conn s code h)
    | inr e ↦ rw e (refl, (h.order, inl (s, h, refl)))
  ])

  -- The stream is closed behind a step that was successful.
  moved_lem :
      (s : Strm) (n : ℕ) (step : Step)
      → Moves f id s n step
      → ((and_then step (close_if_finished app id)).1 ≡ ok tt)
        × Left f id n (and_then step (close_if_finished app id)).0
  unfolding strm_rx_offset
  moved_lem s n (conn, rv) (e, rob, h, first) =
      let (done, left) = close_lem conn (set_rob rob s) 0 h in
      rw e (done, subst (λ k. Left f id k (close_if_finished app id conn).0) first left)

  module _ (mem : Mem) (ample : Fails mem.rob → ⊥) (other : id ≢ 0) where
    pub recv_data_lem :
        (conn : Conn) (s : Strm) (fr : Stream)
        → s.stream_id ≡ id
        → IsOrdered f id conn s
        → fr.content ≡ segment f fr.offset (length fr.content)
        → strm_rx_offset s ≤ fr.offset + length fr.content
        → fr.offset + length fr.content ≤ s.last_rx_offset
        → let step = recv_data mem app conn s fr (strm_rx_offset s) in
          (step.1 ≡ ok tt)
          × (n : ℕ) × (strm_rx_offset s ≤ n)
          × (fr.offset ≤ strm_rx_offset s → fr.offset + length fr.content ≤ n)
          × Left f id n step.0
    unfolding recv_data
    recv_data_lem conn s fr own h content after within =
        elim (le_cases fr.offset (strm_rx_offset s)) [
          | inl le ↦
              let (n, reach, moves) =
                recv_in_order_lem f app willing id conn s fr own other h content le after within in
              let (done, left) =
                moved_lem s n (recv_in_order app conn s fr (strm_rx_offset s)) moves in
              rw (le→leb fr.offset (strm_rx_offset s) le) (
                subst
                    (λ i.
                      (and_then (recv_in_order app conn s fr (strm_rx_offset s))
                        (close_if_finished app i)).1
                      ≡ ok tt)
                    (sym own) done,
                n,
                omega (arith, after, reach),
                λ l. reach,
                subst
                    (λ i.
                      Left f id n
                        (and_then (recv_in_order app conn s fr (strm_rx_offset s))
                          (close_if_finished app i)).0)
                    (sym own) left,
              )
          | inr late ↦
              let out = strm_recv_reordering mem.rob s fr in
              let (done, left) =
                moved_lem s (strm_rx_offset s)
                  (set_strm s.stream_id (set_rob out.0.rob) conn, out.1)
                  (reorder_lem f mem ample id conn s fr own h content late within) in
              let no : leb fr.offset (strm_rx_offset s) ≡ false = ground arith in
              rw no (
                subst
                    (λ i.
                      (and_then (set_strm s.stream_id (set_rob out.0.rob) conn, out.1)
                        (close_if_finished app i)).1
                      ≡ ok tt)
                    (sym own) done,
                strm_rx_offset s,
                omega arith,
                λ l. absurd (omega arith),
                subst
                    (λ i.
                      Left f id (strm_rx_offset s)
                        (and_then (set_strm s.stream_id (set_rob out.0.rob) conn, out.1)
                          (close_if_finished app i)).0)
                    (sym own) left,
              )
        ]
