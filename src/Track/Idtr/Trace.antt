-- ===== src/Track/Idtr/Trace.antt =====
-- Sequences of calls of `idtr_open` on a tracker that `idtr_init` has set up.
use ngtcp.Base.{
  ◌==◌, if◌then◌else◌, Bool-cases, stream_in_use, nomem, Result, ok, err, fault, ℕ, ◌/◌, ◌^◌, ◌≤◌,
  ◌<◌, ◌≡◌, refl, sym, ap, inl, inr, Bool, true, false, not, ◌||◌, List, [], ◌∷◌, arith,
}
use ngtcp.Track.Range.{Range, range_init, covers}
use ngtcp.Track.Gaptr.{Outcome}
use ngtcp.Track.Gaptr.Laws.{missing}
use ngtcp.Track.Idtr.{
  Idtr, idtr_init, id_from_stream_id, own_stream_id, take_id, open_id, idtr_open, is_open_id,
  idtr_is_open,
}
use ngtcp.Track.Idtr.Laws.{Sorted, not_missing_below, Opened, open_id-Kept}

-- The stream IDs that were opened, the last first, and the tracker after it. A stream ID is a
-- varint, and each call may meet another state of the allocator.
pub data Opens : List ℕ → Idtr → Type 0 where
  start :
      (malloc : Range → Bool) (server : Bool) (idtr : Idtr)
      → idtr_init malloc server ≡ ok idtr
      → Opens [] idtr
  claim :
      (malloc : Range → Bool) (ids : List ℕ) (idtr idtr' : Idtr) (stream_id : ℕ)
      → Opens ids idtr
      → stream_id < 2 ^ 62
      → idtr_open malloc idtr stream_id ≡ ok (idtr', ok tt)
      → Opens (stream_id ∷ ids) idtr'

-- Whether an ID of the tracker's own numbering was opened.
unfoldable pub opened : List ℕ → ℕ → Bool
opened [] q = false
opened (id ∷ ids) q = (q == id / 4) || opened ids q

abbrev Traced : List ℕ → Idtr → Type 0
Traced ids idtr =
    Sorted 0 idtr.gap
    × ((x : ℕ) → x < 18446744073709551615 → missing idtr.gap x ≡ not (opened ids x))

step_traced :
    (q : ℕ) (ids : List ℕ) (gaps : List Range) (out : Outcome) (id : ℕ)
    → q ≡ id / 4
    → ((x : ℕ) → x < 18446744073709551615 → missing gaps x ≡ not (opened ids x))
    → Opened q gaps out
    → out.1 ≡ ok tt
    → (x : ℕ) → x < 18446744073709551615
    → missing out.0 x ≡ not (opened (id ∷ ids) x)
unfolding opened
step_traced q ids gaps (gaps', ok tt) id e m o k x lt = ground (arith, o.1 x, m x lt)
step_traced q ids gaps (gaps', err _) id e m o k x lt = absurd (ground arith)
step_traced q ids gaps (gaps', fault) id e m o k x lt = absurd o

idtr_open_inv :
    (malloc : Range → Bool) (idtr idtr' : Idtr) (stream_id : ℕ) (rv : Result (Unit {0}))
    → idtr_open malloc idtr stream_id ≡ ok (idtr', rv)
    → (idtr'.gap ≡ (open_id malloc (id_from_stream_id stream_id) idtr.gap).0)
      × (rv ≡ (open_id malloc (id_from_stream_id stream_id) idtr.gap).1)
unfolding idtr_open
idtr_open_inv malloc idtr idtr' stream_id rv e =
    elim (Bool-cases (own_stream_id idtr.server stream_id)) [
      | inl a ↦ ground arith
      | inr a ↦ ground arith
    ]

traced : (ids : List ℕ) (idtr : Idtr) → Opens ids idtr → Traced ids idtr
unfolding opened idtr_init range_init missing covers
traced _ _ (start malloc server idtr e) = (ground arith, λ x lt. ground arith)
traced _ _ (claim malloc ids idtr idtr' stream_id s small e) =
    let (o, m) = traced ids idtr s in
    let q = id_from_stream_id stream_id in
    let (gap_eq, ok_eq) = idtr_open_inv malloc idtr idtr' stream_id (ok tt) e in
    let (sorted, what) = open_id-Kept malloc q 0 idtr.gap o in
    rw gap_eq (
      sorted,
      step_traced q ids idtr.gap (open_id malloc q idtr.gap) stream_id
          (unfold id_from_stream_id in refl) m what (sym ok_eq),
    )

is_open_id_lem :
    (q lo top : ℕ) (gaps : List Range)
    → Sorted lo gaps
    → q ≤ top
    → missing gaps top ≡ true
    → is_open_id q gaps ≡ (if missing gaps q then ok tt else err stream_in_use)
unfolding is_open_id missing covers
is_open_id_lem q lo top [] h le m = absurd (ground arith)
is_open_id_lem q lo top (g ∷ gaps) h le m =
    ground (arith, is_open_id_lem q g.end top gaps h.3 le, not_missing_below g.end gaps q h.3)

opened_small :
    (ids : List ℕ) (idtr : Idtr) (x : ℕ) → Opens ids idtr → 2 ^ 60 ≤ x → opened ids x ≡ false
unfolding opened
opened_small _ _ x (start malloc server idtr e) h = refl
opened_small _ _ x (claim malloc ids idtr idtr' id s small e) h =
    ground (arith, opened_small ids idtr x s h)

open_id_allocated :
    (malloc : Range → Bool) (q : ℕ) (gaps : List Range)
    → ((r : Range) → malloc r ≡ true)
    → (open_id malloc q gaps).1 ≡ err nomem
    → ⊥
unfolding open_id take_id
open_id_allocated malloc q [] h e = ground arith
open_id_allocated malloc q (g ∷ gaps) h e =
    ground (arith, open_id_allocated malloc q gaps h, h (range_init g.begin q))

open_answer :
    (q : ℕ) (ids : List ℕ) (gaps : List Range) (out : Outcome)
    → missing gaps q ≡ not (opened ids q)
    → Opened q gaps out
    → (out.1 ≡ err nomem → ⊥)
    → out.1 ≡ (if opened ids q then err stream_in_use else ok tt)
open_answer q ids gaps (gaps', ok tt) m o k = ground arith
open_answer q ids gaps (gaps', err e) m (o, inl p) k = ground arith
open_answer q ids gaps (gaps', err e) m (o, inr p) k = absurd (k (ap err p))
open_answer q ids gaps (gaps', fault) m o k = absurd o

-- After any sequence of successful opens: for an ID below 2 ^ 62 that passes the assertions,
-- `idtr_is_open` answers NGTCP2_ERR_STREAM_IN_USE if an ID of the same number was opened and 0 if
-- not, and if no allocation fails `idtr_open` answers the same.
pub idtr_is_open-Opens :
    (ids : List ℕ) (idtr : Idtr) (stream_id : ℕ) (malloc : Range → Bool)
    → Opens ids idtr
    → stream_id < 2 ^ 62
    → own_stream_id idtr.server stream_id ≡ true
    → ((r : Range) → malloc r ≡ true)
    → (idtr_is_open idtr stream_id
        ≡ (if opened ids (stream_id / 4) then err stream_in_use else ok tt))
      × ((idtr' : Idtr) × (idtr_open malloc idtr stream_id
            ≡ ok (idtr', if opened ids (stream_id / 4) then err stream_in_use else ok tt)))
unfolding idtr_is_open idtr_open id_from_stream_id
idtr_is_open-Opens ids idtr stream_id malloc s small own h =
    let (o, m) = traced ids idtr s in
    let q = stream_id / 4 in
    let out = open_id malloc q idtr.gap in
    let top : missing idtr.gap 18446744073709551614 ≡ true =
      ground (arith, m 18446744073709551614, opened_small ids idtr 18446744073709551614 s) in
    (
      rw (own, is_open_id_lem q 0 18446744073709551614 idtr.gap o (omega arith) top)
          (ground (arith, m q (omega arith))),
      (
        record { gap = out.0; server = idtr.server },
        rw
            (
              own,
              open_answer q ids idtr.gap out (m q (omega arith))
                  (open_id-Kept malloc q 0 idtr.gap o).1 (open_id_allocated malloc q idtr.gap h),
            )
            refl,
      ),
    )
