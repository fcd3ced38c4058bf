-- ===== src/Conn/Gap.antt =====
-- A STREAM frame with FIN that comes before data that it does not bring, and one with FIN behind it.
use ngtcp.Conn.Order.Laws.{check_stream_lem}
use ngtcp.Conn.Flow.{found_id}
use ngtcp.Conn.Order.Strms.{find-update, rob_first_gap_lem}
use ngtcp.Conn.Order.Push.{first_gap_unique}
use ngtcp.Conn.Close.{is_finished, conn_close_stream_if_shut_rdwr}
use ngtcp.Conn.{
  App, Mem, Conn, Step, find_strm, update_strm, set_strm, without_id, conn_local_stream,
  conn_max_data_violated, check_stream_id,
}
use ngtcp.Conn.Recv.{
  set_rob, recv_data, set_last, recv_ended, set_end, recv_fin, count_data, recv_strm, check_stream,
  conn_recv_stream,
}
use ngtcp.Strm.Rob.Laws.{IsRob, rob_push_lem}
use ngtcp.Strm.Rob.Push.{Fails}
use ngtcp.Strm.Rob.{Rob, RobMem, rob_push, rob_first_gap_offset}
use ngtcp.Track.Gaptr.Laws.{missing}
use ngtcp.Track.Gaptr.Trace.{missing_before, missing_first}
use ngtcp.Track.Gaptr.{first_gap_offset}
use ngtcp.Strm.State.{Strm, strm_rx_offset, strm_recv_reordering, strm_shutdown_rd}
use ngtcp.Pkt.Frame.{Stream}
use ngtcp.Track.Range.{sub_uint64, add_uint64}
use ngtcp.Base.{
  ltb, leb, ◌==◌, if◌then◌else◌, Bool-cases, length, ok, ℕ, ◌+◌, ◌^◌, ◌≤◌, ◌<◌, ◌≡◌, refl, sym, ap,
  ◌∙◌, inl, inr, Bool, true, false, not, ◌&&◌, some, List, arith,
}

-- A STREAM frame with FIN that ends where the stream is known to end, and that passes the checks
-- before, is answered by 0 and changes nothing.
recv_stream_ended :
    (mem : Mem) (app : App) (conn : Conn) (fr : Stream) (s : Strm)
    → check_stream conn fr ≡ ok tt
    → find_strm fr.stream_id conn.strms ≡ some s
    → fr.fin ≡ true
    → s.flags.shut_rd ≡ true
    → s.last_rx_offset ≡ add_uint64 fr.offset (length fr.content)
    → s.last_rx_offset ≤ s.max_rx_offset
    → conn_recv_stream mem app conn fr ≡ (conn, ok tt)
unfolding conn_recv_stream recv_strm count_data recv_fin
recv_stream_ended mem app conn fr s passed found fin shut same le =
    let end = add_uint64 fr.offset (length fr.content) in
    let over : ltb s.max_rx_offset end ≡ false = ground arith in
    let no_more : (ltb s.last_rx_offset end && not (s.stream_id == 0)) ≡ false = ground arith in
    let at_end : (s.last_rx_offset == end) ≡ true = ground arith in
    rw (passed, found, over, no_more, fin, shut, at_end) refl

-- Bytes behind the first gap leave it where it is.
push_first_gap :
    (mem : RobMem) (rob : Rob) (offset : ℕ) (bytes : List ℕ)
    → (Fails mem → ⊥)
    → IsRob rob
    → rob_first_gap_offset rob < offset
    → offset + length bytes < 2 ^ 63
    → ((rob_push mem rob offset bytes).1 ≡ ok tt)
      × (rob_first_gap_offset (rob_push mem rob offset bytes).0 ≡ rob_first_gap_offset rob)
push_first_gap mem rob offset bytes ample h late small =
    let rx = first_gap_offset rob.gap in
    let same : rob_first_gap_offset rob ≡ rx = rob_first_gap_lem rob in
    elim (rob_push_lem mem rob offset bytes h small) [
      | inr (e, failed) ↦ absurd (ample failed)
      | inl (done, valid, gaps, at) ↦
          let rob' = (rob_push mem rob offset bytes).0 in
          let kept : (x : ℕ) → x < offset → missing rob'.gap x ≡ missing rob.gap x =
            λ x lt. ground (arith, (at x).0) in
          (
            done,
            rob_first_gap_lem rob'
                ∙ first_gap_unique rob'.gap rx valid.ordered (omega (arith, same))
                    (kept rx (omega (arith, same))
                      ∙ missing_first rob.gap h.ordered (omega (arith, same)))
                    (λ x lt. kept x (omega (arith, same)) ∙ missing_before rob.gap x h.ordered lt)
                ∙ sym same,
          )
    ]

if_true : (b : Bool) (x y z : Step) → b ≡ true → x ≡ z → (if b then x else y) ≡ z
if_true b x y z e same = rw e same

count_data_ok :
    (conn : Conn) (s : Strm) (end : ℕ)
    → conn_max_data_violated conn (sub_uint64 end s.last_rx_offset) ≡ false
    → (n : ℕ) × (count_data conn s end ≡ (record conn { rx_offset = n }, ok tt))
unfolding count_data
count_data_ok conn s end room =
    elim (Bool-cases (ltb s.last_rx_offset end && not (s.stream_id == 0))) [
      | inl e ↦ rw (e, room) (_, refl)
      | inr e ↦ rw e (conn.rx_offset, refl)
    ]

-- The connection behind a frame with FIN whose data waits in the reorder buffer.
abbrev ended_at : Strm → ℕ → ℕ → Rob → Conn → Conn
ended_at s end rx_offset rob conn =
    set_strm s.stream_id (set_rob rob)
      (record (set_strm s.stream_id (set_end end) (record conn { rx_offset = rx_offset })) {
        fc_strms = without_id s.stream_id conn.fc_strms;
      })

module _ (mem : Mem) (app : App) (conn : Conn) (s : Strm) (fr : Stream) (rx_offset : ℕ)
    (ample : Fails mem.rob → ⊥) (valid : IsRob s.rob)
    (small : fr.offset + length fr.content ≤ 4611686018427387903)
    (late : strm_rx_offset s < fr.offset) where
  abbrev fr_end : ℕ
  fr_end = add_uint64 fr.offset (length fr.content)

  abbrev rob' : Rob
  rob' = (rob_push mem.rob s.rob fr.offset fr.content).0

  abbrev strm' : Strm
  strm' = set_rob rob' (set_end fr_end s)

  pushed :
      ((rob_push mem.rob s.rob fr.offset fr.content).1 ≡ ok tt)
      × (rob_first_gap_offset rob' ≡ rob_first_gap_offset s.rob)
  unfolding strm_rx_offset
  pushed = push_first_gap mem.rob s.rob fr.offset fr.content ample valid late (omega (arith, small))

  find_ended :
      find_strm s.stream_id conn.strms ≡ some s
      → find_strm s.stream_id (ended_at s fr_end rx_offset rob' conn).strms ≡ some strm'
  unfolding set_end set_last strm_shutdown_rd
  find_ended found =
      find-update s.stream_id (set_rob rob') (update_strm s.stream_id (set_end fr_end) conn.strms)
        (set_end fr_end s) (find-update s.stream_id (set_end fr_end) conn.strms s found (λ x. refl))
        (λ x. refl)

  not_finished : s.flags.recv_rst ≡ false → is_finished strm' ≡ false
  unfolding is_finished set_end set_last strm_shutdown_rd strm_rx_offset
  not_finished open_rd = let e = pushed.1 in ground (arith, e, late, small)

  recv_fin_late :
      find_strm s.stream_id conn.strms ≡ some s
      → s.flags.shut_rd ≡ false
      → s.flags.stop_sending ≡ false
      → s.flags.recv_rst ≡ false
      → s.last_rx_offset ≤ fr_end
      → recv_fin mem app (record conn { rx_offset = rx_offset }) s fr fr_end
        ≡ (ended_at s fr_end rx_offset rob' conn, ok tt)
  unfolding recv_fin recv_ended recv_data strm_recv_reordering conn_close_stream_if_shut_rdwr
      strm_rx_offset set_end strm_shutdown_rd set_last
  recv_fin_late found open_rd wanted no_rst after =
      let forward : ltb fr_end s.last_rx_offset ≡ false = ground arith in
      let behind : (fr_end == strm_rx_offset s) ≡ false = ground (arith, late, small) in
      let waits : leb fr.offset (strm_rx_offset s) ≡ false = ground (arith, late) in
      let there = find_ended found in
      let still_open : is_finished strm' ≡ false = not_finished no_rst in
      rw (open_rd, forward, wanted, behind, waits, pushed.0, there, still_open) refl

  recv_stream_late :
      check_stream conn fr ≡ ok tt
      → find_strm fr.stream_id conn.strms ≡ some s
      → fr.fin ≡ true
      → s.flags.shut_rd ≡ false
      → s.flags.stop_sending ≡ false
      → s.flags.recv_rst ≡ false
      → s.last_rx_offset ≤ fr_end
      → fr_end ≤ s.max_rx_offset
      → count_data conn s fr_end ≡ (record conn { rx_offset = rx_offset }, ok tt)
      → conn_recv_stream mem app conn fr ≡ (ended_at s fr_end rx_offset rob' conn, ok tt)
  unfolding conn_recv_stream recv_strm
  recv_stream_late passed found fin open_rd wanted no_rst after within counted =
      let over : ltb s.max_rx_offset fr_end ≡ false = ground arith in
      let own : fr.stream_id ≡ s.stream_id = sym (found_id fr.stream_id conn.strms s found) in
      let found' : find_strm s.stream_id conn.strms ≡ some s =
        ap (λ i. find_strm i conn.strms) (sym own) ∙ found in
      rw (passed, found, over, counted)
        (if_true fr.fin _ _ _ fin (recv_fin_late found' open_rd wanted no_rst after))

  -- The checks before do not look at what the frame has changed.
  same_checks :
      (second : Stream)
      → check_stream conn second ≡ ok tt
      → check_stream (ended_at s fr_end rx_offset rob' conn) second ≡ ok tt
  unfolding check_stream check_stream_id conn_local_stream
  same_checks second passed = passed

  second_dropped :
      (second : Stream)
      → check_stream conn second ≡ ok tt
      → find_strm second.stream_id (ended_at s fr_end rx_offset rob' conn).strms ≡ some strm'
      → second.fin ≡ true
      → fr_end ≡ add_uint64 second.offset (length second.content)
      → fr_end ≤ s.max_rx_offset
      → conn_recv_stream mem app (ended_at s fr_end rx_offset rob' conn) second
        ≡ (ended_at s fr_end rx_offset rob' conn, ok tt)
  unfolding set_end set_last strm_shutdown_rd
  second_dropped second passed there fin ends within =
      recv_stream_ended mem app (ended_at s fr_end rx_offset rob' conn) second strm'
        (same_checks second passed) there fin refl ends within

-- Two STREAM frames with FIN for the same open stream, which agree on its end. The first one begins
-- behind the place that the application has got to, so its data waits; it is accepted and the
-- application is not called. The second one, whatever data it has, is answered by 0 and changes
-- nothing: if it has the data that was missing, this is thrown away, and the stream goes on missing
-- it. Both frames pass the checks of their IDs, the stream was neither stopped nor reset, both windows
-- have room, and no allocation in the reorder buffer fails.
pub conn_recv_stream_dropped :
    (mem : Mem) (app : App) (conn : Conn) (first second : Stream) (s : Strm)
    → (Fails mem.rob → ⊥)
    → IsRob s.rob
    → check_stream conn first ≡ ok tt
    → check_stream conn second ≡ ok tt
    → length first.content < 2 ^ 62
    → find_strm first.stream_id conn.strms ≡ some s
    → second.stream_id ≡ first.stream_id
    → first.fin ≡ true
    → second.fin ≡ true
    → add_uint64 first.offset (length first.content)
      ≡ add_uint64 second.offset (length second.content)
    → s.flags.shut_rd ≡ false
    → s.flags.stop_sending ≡ false
    → s.flags.recv_rst ≡ false
    → strm_rx_offset s < first.offset
    → s.last_rx_offset ≤ add_uint64 first.offset (length first.content)
    → add_uint64 first.offset (length first.content) ≤ s.max_rx_offset
    → conn_max_data_violated conn
        (sub_uint64 (add_uint64 first.offset (length first.content)) s.last_rx_offset)
      ≡ false
    → let (conn', rv) = conn_recv_stream mem app conn first in
      (rv ≡ ok tt)
      × (conn'.calls ≡ conn.calls)
      × (conn_recv_stream mem app conn' second ≡ (conn', ok tt))
      × (s' : Strm) × (find_strm second.stream_id conn'.strms ≡ some s')
      × (strm_rx_offset s' ≡ strm_rx_offset s)
unfolding strm_rx_offset
conn_recv_stream_dropped mem app conn first second s ample valid passed passed' size found same fin
      fin' ends open_rd wanted no_rst late after within room =
    let end = add_uint64 first.offset (length first.content) in
    let (n, counted) = count_data_ok conn s end room in
    elim (check_stream_lem conn first size) [
      | inl (e, failed) ↦ cc (failed, passed)
      | inr (_, small) ↦
          let rob = (rob_push mem.rob s.rob first.offset first.content).0 in
          let conn' = ended_at s end n rob conn in
          let run : conn_recv_stream mem app conn first ≡ (conn', ok tt) =
            recv_stream_late mem app conn s first n ample valid small late passed found fin open_rd
              wanted no_rst after within counted in
          let own : second.stream_id ≡ s.stream_id =
            same ∙ sym (found_id first.stream_id conn.strms s found) in
          let found' : find_strm s.stream_id conn.strms ≡ some s =
            ap (λ i. find_strm i conn.strms) (found_id first.stream_id conn.strms s found)
            ∙ found in
          let there : find_strm second.stream_id conn'.strms ≡ some (set_rob rob (set_end end s)) =
            ap (λ i. find_strm i conn'.strms) own
            ∙ find_ended mem app conn s first n ample valid small late found' in
          let again =
            second_dropped mem app conn s first n ample valid small late second passed' there fin'
              ends within in
          let gap = (pushed mem app conn s first n ample valid small late).1 in
          rw run (refl, refl, again, set_rob rob (set_end end s), there, gap)
    ]
