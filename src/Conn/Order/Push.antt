-- ===== src/Conn/Order/Push.antt =====
-- Data that begins behind the place that the application has got to waits in the buffer.
use ngtcp.Base.{
  ltb, leb, if◌then◌else◌, Bool-cases, le_cases, length, get_elem?, ℕ, zero, suc, ◌+◌, ◌-◌, ◌≤◌,
  ◌<◌, ◌≡◌, refl, sym, ap, ◌∙◌, inl, inr, Bool, true, false, not, ◌&&◌, Option, some, List, arith,
}
use ngtcp.Track.Range.{Range}
use ngtcp.Track.Gaptr.{first_gap_offset}
use ngtcp.Track.Gaptr.Laws.{Ordered, missing}
use ngtcp.Track.Gaptr.Trace.{missing_before, missing_first}
use ngtcp.Pkt.Frame.{Stream}
use ngtcp.Strm.State.{Strm, strm_rx_offset, strm_recv_reordering}
use ngtcp.Strm.Rob.{rob_push, rob_first_gap_offset}
use ngtcp.Strm.Rob.Chunks.{byte_at}
use ngtcp.Strm.Rob.Push.{Fails}
use ngtcp.Strm.Rob.Laws.{rob_push_lem}
use ngtcp.Strm.Rob.Read.{segment, here, first_gap_small}
use ngtcp.Conn.{Mem, Conn, find_strm, update_strm, remove_strm, set_strm}
use ngtcp.Conn.Recv.{set_rob}
use ngtcp.Conn.Order.Strms.{
  find-update, remove-update, rob_first_gap_lem, IsOrdered, missing_here, present_before,
}
use ngtcp.Conn.Order.InPlace.{Moves}

get_elem?-segment :
    (f : ℕ → ℕ) (offset n i : ℕ) → i < n → get_elem? (segment f offset n) i ≡ some (f (offset + i))
get_elem?-segment f offset zero i lt = absurd (omega arith)
get_elem?-segment f offset (suc n) zero lt =
    let e : offset + zero ≡ offset = omega arith in rw e refl
get_elem?-segment f offset (suc n) (suc i) lt =
    get_elem?-segment f (offset + 1) n i (omega arith) ∙ ap (λ o. some (f o)) (omega arith)

-- Gaps of which the first begins at `r`.
pub first_gap_unique :
    (gaps : List Range) (r : ℕ)
    → Ordered 0 gaps
    → r < 18446744073709551615
    → missing gaps r ≡ true
    → ((x : ℕ) → x < r → missing gaps x ≡ false)
    → first_gap_offset gaps ≡ r
first_gap_unique gaps r o small here before = elim (le_cases (first_gap_offset gaps) r) [
  | inl le ↦ elim (le_cases r (first_gap_offset gaps)) [
    | inl ge ↦ omega arith
    | inr lt ↦ cc (before (first_gap_offset gaps) lt, missing_first gaps o (omega arith))
  ]
  | inr gt ↦ cc (missing_before gaps r o gt, here)
]

-- The byte at `x` after the push is the stream's, whether it was pushed or was there.
push_byte_lem :
    (f : ℕ → ℕ) (fr : Stream) (was now : Bool) (x : ℕ) (before after : Option ℕ)
    → fr.content ≡ segment f fr.offset (length fr.content)
    → now ≡ (was && not (leb fr.offset x && ltb x (fr.offset + length fr.content)))
    → after ≡ (
        if was && (leb fr.offset x && ltb x (fr.offset + length fr.content))
        then get_elem? fr.content (x - fr.offset)
        else before)
    → now ≡ false
    → (was ≡ false → before ≡ some (f x))
    → after ≡ some (f x)
push_byte_lem f fr was now x before after content gap byte present there =
    let inside = leb fr.offset x && ltb x (fr.offset + length fr.content) in
    elim (Bool-cases (was && inside)) [
      | inl e ↦
          let i : x - fr.offset < length fr.content = ground arith in
          let at : fr.offset + (x - fr.offset) ≡ x = ground arith in
          byte
          ∙ (rw e refl)
          ∙ ap (λ l. get_elem? l (x - fr.offset)) content
          ∙ get_elem?-segment f fr.offset (length fr.content) (x - fr.offset) i
          ∙ ap (λ o. some (f o)) at
      | inr e ↦ byte ∙ (rw e refl) ∙ there (ground arith)
    ]

module _ (f : ℕ → ℕ) (mem : Mem) (ample : Fails mem.rob → ⊥) (id : ℕ) where
  -- The frame's data is stored; the application gets nothing.
  pub reorder_lem :
      (conn : Conn) (s : Strm) (fr : Stream)
      → s.stream_id ≡ id
      → IsOrdered f id conn s
      → fr.content ≡ segment f fr.offset (length fr.content)
      → strm_rx_offset s < fr.offset
      → fr.offset + length fr.content ≤ s.last_rx_offset
      → let (s', rv) = strm_recv_reordering mem.rob s fr in
        Moves f id s (strm_rx_offset s) (set_strm s.stream_id (set_rob s'.rob) conn, rv)
  unfolding strm_recv_reordering strm_rx_offset
  reorder_lem conn s fr own h content late within =
      let end = fr.offset + length fr.content in
      let rx = rob_first_gap_offset s.rob in
      let rob' = (rob_push mem.rob s.rob fr.offset fr.content).0 in
      elim (rob_push_lem mem.rob s.rob fr.offset fr.content h.holds.valid
        (omega (arith, h.small, within))) [
          | inr (e, failed) ↦ absurd (ample failed)
          | inl (done, valid, gaps, at) ↦
              let ahead : (x : ℕ) → end ≤ x → missing rob'.gap x ≡ missing s.rob.gap x =
                λ x le. ground (arith, (at x).0) in
              let kept : (x : ℕ) → x < fr.offset → missing rob'.gap x ≡ missing s.rob.gap x =
                λ x lt. ground (arith, (at x).0) in
              let small = first_gap_small f rx s.rob h.holds in
              let first : rob_first_gap_offset rob' ≡ rx =
                rob_first_gap_lem rob'
                ∙ first_gap_unique rob'.gap rx valid.ordered (omega (arith, small))
                    (kept rx late ∙ missing_here f rx s.rob h.holds)
                    (λ x lt. kept x (omega arith) ∙ present_before f rx s.rob x h.holds lt) in
              (
                done,
                rob',
                record {
                  found =
                      ap (λ i. find_strm id (update_strm i (set_rob rob') conn.strms)) own
                      ∙ find-update id (set_rob rob') conn.strms s h.found (λ x. refl);
                  single =
                      ap
                        (λ i.
                          find_strm id (remove_strm id (update_strm i (set_rob rob') conn.strms)))
                        own
                      ∙ ap (find_strm id) (remove-update id (set_rob rob') conn.strms (λ x. refl))
                      ∙ h.single;
                  holds = record {
                    valid = valid;
                    open_end =
                        ahead 4611686018427387904 (omega (arith, h.small, within))
                        ∙ h.holds.open_end;
                    bytes = λ x le lt m.
                        push_byte_lem f fr (missing s.rob.gap x) (missing rob'.gap x) x
                          (byte_at s.rob.chunks x) (byte_at rob'.chunks x) content (at x).0 (at x).1
                          m (h.holds.bytes x (omega (arith, le, first)) lt);
                  };
                  ahead = λ x a b. ahead x (omega (arith, within)) ∙ h.ahead x a b;
                  small = h.small;
                  order = h.order ∙ ap (segment f 0) (sym first);
                },
                first,
              )
        ]
