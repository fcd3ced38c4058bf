-- ===== src/Conn/Order/Strms.antt =====
-- A stream whose data is handed out in order: the invariant, and data that begins at the place that
-- the application has got to.
use ngtcp.Track.Gaptr.Trace.{missing_before, missing_first}
use ngtcp.Strm.Rob.Laws.{rob_remove_prefix_lem}
use ngtcp.Base.{
  leb, ◌==◌, leb→le, le→leb, Bool-cases, drop, ℕ, zero, suc, ◌+◌, ◌-◌, ◌≤◌, ◌<◌, ◌≡◌, refl, sym, ap,
  ◌∙◌, inl, inr, true, false, none, some, List, [], ◌∷◌, arith,
}
use ngtcp.Track.Range.{Range}
use ngtcp.Track.Gaptr.{first_gap_offset}
use ngtcp.Track.Gaptr.Laws.{missing}
use ngtcp.Strm.State.{Strm, strm_rx_offset}
use ngtcp.Strm.Rob.{RobData, Rob, rob_remove_prefix, rob_first_gap_offset}
use ngtcp.Strm.Rob.Read.{segment, Holds, IsRead, first_gap_small}
use ngtcp.Conn.{Conn, find_strm, update_strm, remove_strm}
use ngtcp.Conn.Order.{delivered}

pub find-update :
    (id : ℕ) (g : Strm → Strm) (ss : List Strm) (s : Strm)
    → find_strm id ss ≡ some s
    → ((x : Strm) → (g x).stream_id ≡ x.stream_id)
    → find_strm id (update_strm id g ss) ≡ some (g s)
unfolding update_strm find_strm
find-update id g [] s e q = cc
find-update id g (x ∷ ss) s e q = elim (Bool-cases (x.stream_id == id)) [
  | inl t ↦ let same : x ≡ s = ground arith in ground (arith, q x)
  | inr t ↦ ground (arith, find-update id g ss s)
]

pub remove-update :
    (id : ℕ) (g : Strm → Strm) (ss : List Strm)
    → ((x : Strm) → (g x).stream_id ≡ x.stream_id)
    → remove_strm id (update_strm id g ss) ≡ remove_strm id ss
unfolding update_strm remove_strm
remove-update id g [] q = refl
remove-update id g (x ∷ ss) q = ground (arith, q x, remove-update id g ss q)

first_gap_lists :
    (gap : List Range) (chunks : List RobData) (chunk : ℕ)
    → rob_first_gap_offset record { gap = gap; chunks = chunks; chunk = chunk }
      ≡ first_gap_offset gap
unfolding rob_first_gap_offset first_gap_offset
first_gap_lists [] chunks chunk = refl
first_gap_lists (g ∷ gaps) chunks chunk = refl

pub rob_first_gap_lem : (rob : Rob) → rob_first_gap_offset rob ≡ first_gap_offset rob.gap
rob_first_gap_lem rob = first_gap_lists rob.gap rob.chunks rob.chunk

-- The application has got the data of the stream up to where it first lacks some, in order; the
-- stream's buffer holds bytes of the same data behind that, none of them behind the end of what was
-- received. The ID stands only once in the table.
pub record IsOrdered (f : ℕ → ℕ) (id : ℕ) (conn : Conn) (s : Strm) : Type 0 where
  pub found : find_strm id conn.strms ≡ some s
  pub single : find_strm id (remove_strm id conn.strms) ≡ none
  pub holds : Holds f (strm_rx_offset s) s.rob
  pub ahead : (x : ℕ) → s.last_rx_offset ≤ x → x ≤ 4611686018427387904 → missing s.rob.gap x ≡ true
  pub small : s.last_rx_offset ≤ 4611686018427387903
  pub order : delivered id conn.calls ≡ segment f 0 (strm_rx_offset s)

pub drop-segment :
    (f : ℕ → ℕ) (n offset len : ℕ)
    → n ≤ len
    → drop n (segment f offset len) ≡ segment f (offset + n) (len - n)
drop-segment f zero offset len le =
    let e : offset + zero ≡ offset = omega arith in
    let e' : len - zero ≡ len = omega arith in rw (e, e') refl
drop-segment f (suc n) offset zero le = absurd (omega arith)
drop-segment f (suc n) offset (suc len) le =
    let e : offset + suc n ≡ offset + 1 + n = omega arith in
    let e' : suc len - suc n ≡ len - n = omega arith in
    rw (e, e') (drop-segment f n (offset + 1) len (omega arith))

-- Where the buffer first lacks data, it is missing.
pub missing_here :
    (f : ℕ → ℕ) (offset : ℕ) (rob : Rob)
    → Holds f offset rob
    → missing rob.gap (rob_first_gap_offset rob) ≡ true
missing_here f offset rob h =
    let e = rob_first_gap_lem rob in
    let small = first_gap_small f offset rob h in
    ap (λ o. missing rob.gap o) e ∙ missing_first rob.gap h.valid.ordered (omega (arith, e, small))

-- The buffer lacks nothing before that.
pub present_before :
    (f : ℕ → ℕ) (offset : ℕ) (rob : Rob) (x : ℕ)
    → Holds f offset rob
    → x < rob_first_gap_offset rob
    → missing rob.gap x ≡ false
present_before f offset rob x h lt =
    missing_before rob.gap x h.valid.ordered (omega (arith, lt, rob_first_gap_lem rob))

module _ (f : ℕ → ℕ) (rob : Rob) (h : Holds f (rob_first_gap_offset rob) rob) (end : ℕ)
    (small : end ≤ 4611686018427387903) (after : rob_first_gap_offset rob ≤ end) where
  -- What the buffer is without the data before `end`.
  pub prefix_lem :
      IsRead f end (rob_remove_prefix rob end)
      × (end ≤ rob_first_gap_offset (rob_remove_prefix rob end))
      × ((x : ℕ) → end ≤ x → missing (rob_remove_prefix rob end).gap x ≡ missing rob.gap x)
  prefix_lem =
      let rob' = rob_remove_prefix rob end in
      let (valid, reach, same) = rob_remove_prefix_lem rob end h.valid (omega arith) in
      let gap : (x : ℕ) → end ≤ x → missing rob'.gap x ≡ missing rob.gap x =
        λ x le. ground (arith, (same x).0, le→leb end x le) in
      let holds : Holds f end rob' = record {
        valid = valid;
        open_end = gap 4611686018427387904 (omega arith) ∙ h.open_end;
        bytes =
            λ x le lt m. (same x).1 le ∙ h.bytes x (omega (arith, after)) lt (sym (gap x le) ∙ m);
      } in
      let first : leb end (rob_first_gap_offset rob') ≡ true =
        ground (arith, missing_here f end rob' holds, (same (rob_first_gap_offset rob')).0) in
      (record { holds = holds; reaches = reach }, leb→le end (rob_first_gap_offset rob') first, gap)
