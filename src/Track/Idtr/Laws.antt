-- ===== src/Track/Idtr/Laws.antt =====
-- `open_id` takes just one ID from the gaps, and answers whether it was there.
use ngtcp.Base.{
  ltb, leb, ◌==◌, Bool-cases, stream_in_use, nomem, ok, err, fault, ℕ, ◌+◌, ◌^◌, ◌≤◌, ◌<◌, ◌≡◌,
  refl, ◌⊎◌, inl, inr, Bool, true, false, not, ◌&&◌, ◌||◌, List, [], ◌∷◌, arith,
}
use ngtcp.Track.Range.{Range, range_init, range_len, covers}
use ngtcp.Track.Gaptr.{Outcome}
use ngtcp.Track.Gaptr.Laws.{missing}
use ngtcp.Track.Idtr.{take_id, open_id}

-- The gaps are in increasing order from `lo` on, do not overlap, and fit 64 bits. One may be empty:
-- taking the last ID of a gap that has others leaves `[q + 1, q + 1)` behind.
abbrev pub Sorted : ℕ → List Range → Type 0
Sorted lo [] = Unit {0}
Sorted lo (g ∷ gaps) = (lo ≤ g.begin) × (g.begin ≤ g.end) × (g.end < 2 ^ 64) × Sorted g.end gaps

pub Sorted-weaken : (lo hi : ℕ) (gaps : List Range) → lo ≤ hi → Sorted hi gaps → Sorted lo gaps
Sorted-weaken lo hi [] le h = tt
Sorted-weaken lo hi (g ∷ gaps) le h = (omega arith, h.1, h.2, h.3)

pub not_missing_below :
    (lo : ℕ) (gaps : List Range) (x : ℕ) → Sorted lo gaps → x < lo → missing gaps x ≡ false
unfolding missing covers
not_missing_below lo [] x h k = refl
not_missing_below lo (g ∷ gaps) x h k = ground (arith, not_missing_below g.end gaps x h.3)

-- By its answer, what `open_id` did with `q`.
abbrev pub Opened : ℕ → List Range → Outcome → Type 0
Opened q gaps (gaps', ok _) =
    (missing gaps q ≡ true) × ((x : ℕ) → missing gaps' x ≡ (missing gaps x && not (x == q)))
Opened q gaps (gaps', err e) =
    (gaps' ≡ gaps) × (((e ≡ stream_in_use) × (missing gaps q ≡ false)) ⊎ (e ≡ nomem))
Opened q gaps (gaps', fault) = ⊥

-- The gaps stay ordered, besides.
abbrev pub Kept : ℕ → ℕ → List Range → Outcome → Type 0
Kept lo q gaps out = Sorted lo out.0 × Opened q gaps out

module _ (malloc : Range → Bool) (q lo : ℕ) (g : Range) (gaps : List Range)
    (h : Sorted lo (g ∷ gaps)) where
  single_iff : (range_len g == 1) ≡ (g.end == g.begin + 1)
  unfolding range_len
  single_iff = ground arith

  missing_head : g.begin ≤ q → q < g.end → missing (g ∷ gaps) q ≡ true
  unfolding missing covers
  missing_head a b = ground arith

  -- What is missing in a first gap that loses `q`.
  lost :
      (x : ℕ) (b : Bool)
      → g.begin ≤ q
      → q < g.end
      → b ≡ ((leb g.begin x && ltb x q) || (leb (q + 1) x && ltb x g.end) || missing gaps x)
      → b ≡ (missing (g ∷ gaps) x && not (x == q))
  unfolding missing covers
  lost x b lo_q q_hi e = ground (arith, not_missing_below g.end gaps x h.3)

  take_id-Kept : g.begin ≤ q → q < g.end → Kept lo q (g ∷ gaps) (take_id malloc q g gaps)
  unfolding take_id range_init missing covers
  take_id-Kept a b =
      let here = missing_head a b in
      rw single_iff (elim (Bool-cases (q == g.begin)) [
        | inl c ↦ elim (Bool-cases (g.end == g.begin + 1)) [
          | inl d ↦
              rw (c, d)
                (
                  Sorted-weaken lo g.end gaps (omega arith) h.3,
                  (here, λ x. lost x (missing gaps x) a b (ground arith)),
                )
          | inr d ↦
              rw (c, d)
                ((omega arith, ground arith, h.2, h.3), (here, λ x. lost x _ a b (ground arith)))
        ]
        | inr c ↦ elim (Bool-cases (malloc (range_init g.begin q))) [
          | inl d ↦
              rw (c, d)
                (
                  (h.0, a, omega arith, (omega arith, omega arith, h.2, h.3)),
                  (here, λ x. lost x _ a b (ground arith)),
                )
          | inr d ↦ rw (c, d) (h, (refl, inr refl))
        ]
      ])

Opened-later :
    (q : ℕ) (g : Range) (gaps : List Range) (out : Outcome)
    → g.begin ≤ g.end
    → g.end ≤ q
    → Sorted g.end gaps
    → Sorted g.end out.0
    → Opened q gaps out
    → Opened q (g ∷ gaps) (g ∷ out.0, out.1)
unfolding missing covers
Opened-later q g gaps (gaps', ok tt) ord le h k o = (ground arith, λ x. ground (arith, o.1 x))
Opened-later q g gaps (gaps', err e) ord le h k o = (rw o.0 refl, ground arith)
Opened-later q g gaps (gaps', fault) ord le h k o = o

-- Whatever the allocator answers, `open_id` leaves sorted gaps sorted. If it answers 0, `q` was in a
-- gap, and just `q` is taken from the gaps; if it answers an error, the gaps are as they were, and
-- either the error is NGTCP2_ERR_STREAM_IN_USE and `q` was in no gap, or it is NGTCP2_ERR_NOMEM.
pub open_id-Kept :
    (malloc : Range → Bool) (q lo : ℕ) (gaps : List Range)
    → Sorted lo gaps
    → Kept lo q gaps (open_id malloc q gaps)
unfolding open_id
open_id-Kept malloc q lo [] h = (tt, (refl, inl (refl, unfold missing in refl)))
open_id-Kept malloc q lo (g ∷ gaps) h =
    let ih = open_id-Kept malloc q g.end gaps h.3 in
    elim (Bool-cases (ltb q g.begin)) [
      | inl a ↦ rw a (
        h,
        (
          refl,
          inl (
            refl,
            not_missing_below g.begin (g ∷ gaps) q (omega arith, h.1, h.2, h.3) (ground arith),
          ),
        ),
      )
      | inr a ↦ elim (Bool-cases (leb g.end q)) [
        | inl b ↦
            rw (a, b)
              (
                (h.0, h.1, h.2, ih.0),
                Opened-later q g gaps (open_id malloc q gaps) h.1 (ground arith) h.3 ih.0 ih.1,
              )
        | inr b ↦ rw (a, b) (take_id-Kept malloc q lo g gaps h (ground arith) (ground arith))
      ]
    ]
