-- ===== src/Conn/Order/InPlace.antt =====
-- `recv_in_order`: data that begins where the application has got to, or before, goes to it.
use ngtcp.Track.Range.{add_uint64}
use ngtcp.Track.Ringbuf.{sub_size}
use ngtcp.Pkt.Frame.{Stream}
use mathlib.Core.Path.{subst}
use ngtcp.Base.{
  leb, ◌==◌, le→leb, length, drop, ok, ℕ, ◌+◌, ◌-◌, ◌≤◌, ◌≡◌, refl, sym, ap, ap₂, ◌∙◌, ◌≢◌, true,
  false, none, some, List, ◌++◌, arith,
}
use ngtcp.Track.Gaptr.Laws.{missing}
use ngtcp.Strm.State.{Strm, strm_rx_offset}
use ngtcp.Strm.Rob.{Rob, rob_remove_prefix, rob_first_gap_offset}
use ngtcp.Strm.Rob.Read.{segment, segment-append, Holds, IsRead, first_gap_same}
use ngtcp.Conn.{Call, App, Conn, Step, find_strm, update_strm, remove_strm, set_strm}
use ngtcp.Conn.Recv.{emit_fuel, set_rob, conn_emit_pending_stream_data, recv_in_order}
use ngtcp.Conn.Order.{delivered, deliver_data-Gets, emit_loop_lem}
use ngtcp.Conn.Order.Strms.{find-update, remove-update, IsOrdered, drop-segment, prefix_lem}

-- Behind a step that was successful, the stream is there with data up to `n` handed out, and nothing
-- but its buffer has changed.
abbrev pub Moves : (ℕ → ℕ) → ℕ → Strm → ℕ → Step → Type 0
Moves f id s n step =
    (step.1 ≡ ok tt)
    × (rob : Rob) × IsOrdered f id step.0 (set_rob rob s)
    × (rob_first_gap_offset rob ≡ n)

segment_join : (f : ℕ → ℕ) (a b : ℕ) → a ≤ b → segment f 0 a ++ segment f a (b - a) ≡ segment f 0 b
segment_join f a b le =
    let zero_a : 0 + a ≡ a = omega arith in
    ap (λ o. segment f 0 a ++ segment f o (b - a)) (sym zero_a)
    ∙ sym (segment-append f 0 a (b - a))
    ∙ ap (segment f 0) (omega (arith, le))

order_step :
    (f : ℕ → ℕ) (id : ℕ) (s : Strm) (a b : ℕ) (calls calls' : List Call)
    → s.stream_id ≡ id
    → a ≤ b
    → delivered s.stream_id calls' ≡ delivered s.stream_id calls ++ segment f a (b - a)
    → delivered id calls ≡ segment f 0 a
    → delivered id calls' ≡ segment f 0 b
order_step f id s a b calls calls' own le got order =
    ap (λ i. delivered i calls') (sym own)
    ∙ got
    ∙ ap (λ i. delivered i calls ++ segment f a (b - a)) own
    ∙ ap (λ t. t ++ segment f a (b - a)) order
    ∙ segment_join f a b le

module _ (f : ℕ → ℕ) (app : App) (willing : (call : Call) → app call ≡ none) (id : ℕ) where
  -- The loop over the pending data, behind `offset`.
  emit_lem :
      (conn : Conn) (s : Strm) (offset : ℕ)
      → s.stream_id ≡ id
      → find_strm id conn.strms ≡ some s
      → find_strm id (remove_strm id conn.strms) ≡ none
      → IsRead f offset s.rob
      → offset ≤ rob_first_gap_offset s.rob
      → ((x : ℕ) → s.last_rx_offset ≤ x → x ≤ 4611686018427387904 → missing s.rob.gap x ≡ true)
      → s.last_rx_offset ≤ 4611686018427387903
      → delivered id conn.calls ≡ segment f 0 offset
      → Moves f id s (rob_first_gap_offset s.rob) (conn_emit_pending_stream_data app id offset conn)
  unfolding conn_emit_pending_stream_data strm_rx_offset
  emit_lem conn s offset own found single read le ahead small order =
      let g = rob_first_gap_offset s.rob in
      let (rob', conn', loop, gap, holds, gets) =
        emit_loop_lem f app willing s (emit_fuel s.rob) offset s.rob conn read le
          (λ less. omega arith) (omega arith) in
      let first : rob_first_gap_offset rob' ≡ g = first_gap_same rob' s.rob gap in
      let (calls, same, got) = gets in
      rw (found, loop, same)
        (
          refl,
          rob',
          record {
            found = find-update id (set_rob rob') conn.strms s found (λ x. refl);
            single =
                ap (find_strm id) (remove-update id (set_rob rob') conn.strms (λ x. refl)) ∙ single;
            holds = subst (λ o. Holds f o rob') (sym first) holds;
            ahead = λ x a b. ap (λ l. missing l x) gap ∙ ahead x a b;
            small = small;
            order =
                order_step f id s offset g conn.calls calls own le got order
                ∙ ap (segment f 0) (sym first);
          },
          first,
        )

  -- Data that the application lacks the beginning of goes to it, with what is behind it.
  pub recv_in_order_lem :
      (conn : Conn) (s : Strm) (fr : Stream)
      → s.stream_id ≡ id
      → id ≢ 0
      → IsOrdered f id conn s
      → fr.content ≡ segment f fr.offset (length fr.content)
      → fr.offset ≤ strm_rx_offset s
      → strm_rx_offset s ≤ fr.offset + length fr.content
      → fr.offset + length fr.content ≤ s.last_rx_offset
      → (n : ℕ) × (fr.offset + length fr.content ≤ n)
        × Moves f id s n (recv_in_order app conn s fr (strm_rx_offset s))
  unfolding recv_in_order strm_rx_offset
  recv_in_order_lem conn s fr own other h content before after within =
      let rx = rob_first_gap_offset s.rob in
      let len = length fr.content in
      let ncut = rx - fr.offset in
      let end = fr.offset + len in
      let left : sub_size len ncut ≡ len - ncut = omega (arith, h.small) in
      let stop : add_uint64 rx (len - ncut) ≡ end = omega (arith, h.small) in
      let cut : leb ncut len ≡ true = le→leb ncut len (omega arith) in
      let nonzero : (s.stream_id == 0) ≡ false = ground arith in
      let bytes : drop ncut fr.content ≡ segment f rx (end - rx) =
        ap (drop ncut) content
        ∙ drop-segment f ncut fr.offset len (omega arith)
        ∙ ap₂ (segment f) (omega arith) (omega arith) in
      let set : Strm → Strm = λ s. record s { rob = rob_remove_prefix s.rob end } in
      let conn1 : Conn = set_strm s.stream_id set conn in
      let (conn2, sent, gets) =
        deliver_data-Gets f app willing s end (segment f rx (end - rx)) conn1 in
      let (calls, same, got) = gets in
      let (read, le, gap) = prefix_lem f s.rob h.holds end (omega (arith, h.small)) after in
      let moved =
        emit_lem (record conn1 { calls = calls }) (set s) end own
          (ap (λ i. find_strm id (update_strm i set conn.strms)) own
            ∙ find-update id set conn.strms s h.found (λ x. refl))
          (ap (λ i. find_strm id (remove_strm id (update_strm i set conn.strms))) own
            ∙ ap (find_strm id) (remove-update id set conn.strms (λ x. refl))
            ∙ h.single)
          read le (λ x a b. gap x (omega arith) ∙ h.ahead x a b) h.small
          (order_step f id s rx end conn.calls calls own after got h.order) in
      (
        rob_first_gap_offset (rob_remove_prefix s.rob end),
        le,
        rw (left, stop, cut, nonzero, bytes, sent, same)
            (subst
              (λ i.
                Moves f id s (rob_first_gap_offset (rob_remove_prefix s.rob end))
                  (conn_emit_pending_stream_data app i end (record conn1 { calls = calls })))
              (sym own) moved),
      )
