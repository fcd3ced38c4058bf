-- ===== src/Track/Gaptr/Trace.antt =====
-- Sequences of calls of `gaptr_push` on a tracker that `gaptr_init` has set up.
use ngtcp.Track.Gaptr.Push.{push_range-Filled, push_range_ok}
use ngtcp.Base.{
  ltb, leb, ok, ℕ, ◌+◌, ◌%◌, ◌^◌, ◌<◌, ◌≡◌, refl, sym, ap, ◌⊎◌, inl, inr, Bool, true, false, not,
  ◌&&◌, ◌||◌, List, [], ◌∷◌, arith,
}
use ngtcp.Track.Range.{Range, range_init, covers}
use ngtcp.Track.Gaptr.{gaptr_init, gaptr_push, first_gap_offset}
use ngtcp.Track.Gaptr.Laws.{Ordered, missing, missing_below}

-- The offsets and lengths of the data received, the last first, and the gaps after it. Each call
-- may meet another state of the allocator.
pub data Receives : List (ℕ × ℕ) → List Range → Type 0 where
  start :
      (malloc : Range → Bool) (gaps : List Range) → gaptr_init malloc ≡ ok gaps → Receives [] gaps
  push :
      (malloc : Range → Bool) (done : List (ℕ × ℕ)) (gaps gaps' : List Range) (offset datalen : ℕ)
      → Receives done gaps
      → offset + datalen < 2 ^ 64
      → gaptr_push malloc gaps offset datalen ≡ (gaps', ok tt)
      → Receives ((offset, datalen) ∷ done) gaps'

-- Whether some of the data has a byte at `x`.
unfoldable pub received : List (ℕ × ℕ) → ℕ → Bool
received [] x = false
received ((offset, datalen) ∷ done) x =
    (leb offset x && ltb x (offset + datalen)) || received done x

gaptr_push_lem :
    (malloc : Range → Bool) (gaps : List Range) (offset datalen : ℕ)
    → Ordered 0 gaps
    → offset + datalen < 2 ^ 64
    → Ordered 0 (gaptr_push malloc gaps offset datalen).0
      × ((gaptr_push malloc gaps offset datalen).1 ≡ ok tt
          → (x : ℕ)
          → missing (gaptr_push malloc gaps offset datalen).0 x
            ≡ (missing gaps x && not (leb offset x && ltb x (offset + datalen))))
      × (((r : Range) → malloc r ≡ true) → (gaptr_push malloc gaps offset datalen).1 ≡ ok tt)
unfolding gaptr_push range_init covers
gaptr_push_lem malloc gaps offset datalen h fits =
    let q = range_init offset ((offset + datalen) % 18446744073709551616) in
    let (o, m) =
      push_range-Filled malloc q record { ordered = omega arith; fits = omega arith } 0 gaps h in
    (o, λ done x. ground (arith, m done x), push_range_ok malloc q gaps)

-- If no allocation fails, `gaptr_push` on ordered gaps, of data that ends below 2 ^ 64, answers 0 and
-- leaves ordered gaps; an offset is missing afterwards exactly if it was missing and is none of the
-- data's.
pub gaptr_push_total :
    (malloc : Range → Bool) (gaps : List Range) (offset datalen : ℕ)
    → Ordered 0 gaps
    → offset + datalen < 2 ^ 64
    → ((r : Range) → malloc r ≡ true)
    → (gaps' : List Range) × (gaptr_push malloc gaps offset datalen ≡ (gaps', ok tt))
      × Ordered 0 gaps'
      × ((x : ℕ)
          → missing gaps' x ≡ (missing gaps x && not (leb offset x && ltb x (offset + datalen))))
gaptr_push_total malloc gaps offset datalen h fits all =
    let (o, m, done) = gaptr_push_lem malloc gaps offset datalen h fits in
    let out = gaptr_push malloc gaps offset datalen in
    (out.0, ap (λ rv. (out.0, rv)) (done all), o, m (done all))

Traced : List (ℕ × ℕ) → List Range → Type 0
Traced done gaps =
    Ordered 0 gaps × ((x : ℕ) → x < 18446744073709551615 → missing gaps x ≡ not (received done x))

traced : (done : List (ℕ × ℕ)) (gaps : List Range) → Receives done gaps → Traced done gaps
unfolding Traced received gaptr_init range_init missing covers
traced _ _ (start malloc gaps e) = (ground arith, λ x lt. ground arith)
traced _ _ (push malloc done gaps gaps' offset datalen s fits e) =
    let prev = traced done gaps s in
    let (o, m, _) = gaptr_push_lem malloc gaps offset datalen prev.0 fits in
    let gaps_eq : (gaptr_push malloc gaps offset datalen).0 ≡ gaps' = ap (λ out. out.0) e in
    let ok_eq : (gaptr_push malloc gaps offset datalen).1 ≡ ok tt = ap (λ out. out.1) e in
    rw (sym gaps_eq) (o, λ x lt. ground (arith, m ok_eq x, prev.1 x lt))

-- Before the first gap nothing is missing.
pub missing_before :
    (gaps : List Range) (x : ℕ)
    → Ordered 0 gaps
    → x < first_gap_offset gaps
    → missing gaps x ≡ false
unfolding first_gap_offset missing covers
missing_before [] x h lt = refl
missing_before (g ∷ gaps) x h lt = ground (arith, missing_below g.end gaps x h.3)

-- The first gap begins with an offset that is missing.
pub missing_first :
    (gaps : List Range)
    → Ordered 0 gaps
    → first_gap_offset gaps < 18446744073709551615
    → missing gaps (first_gap_offset gaps) ≡ true
unfolding first_gap_offset missing covers
missing_first [] h lt = absurd (omega arith)
missing_first (g ∷ gaps) h lt = ground arith

first_gap_offset_bound :
    (gaps : List Range)
    → Ordered 0 gaps
    → (first_gap_offset gaps < 18446744073709551615)
      ⊎ (first_gap_offset gaps ≡ 18446744073709551615)
unfolding first_gap_offset
first_gap_offset_bound [] h = inr refl
first_gap_offset_bound (g ∷ gaps) h = inl (omega arith)

-- After any sequence of successful pushes, of data that ends below 2 ^ 64, the gaps are ordered,
-- and an offset below UINT64_MAX lies in a gap exactly if no push had it.
pub missing-Receives :
    (done : List (ℕ × ℕ)) (gaps : List Range) (x : ℕ)
    → Receives done gaps
    → x < 18446744073709551615
    → Ordered 0 gaps × (missing gaps x ≡ not (received done x))
unfolding Traced
missing-Receives done gaps x h lt = let (o, m) = traced done gaps h in (o, m x lt)

-- After any sequence of successful pushes, of data that ends below 2 ^ 64, each offset below
-- `first_gap_offset` was pushed, and that offset itself was not, or it is UINT64_MAX.
pub first_gap_offset-Receives :
    (done : List (ℕ × ℕ)) (gaps : List Range)
    → Receives done gaps
    → ((x : ℕ) → x < first_gap_offset gaps → received done x ≡ true)
      × (((first_gap_offset gaps < 18446744073709551615)
            × (received done (first_gap_offset gaps) ≡ false))
          ⊎ (first_gap_offset gaps ≡ 18446744073709551615))
unfolding Traced
first_gap_offset-Receives done gaps h =
    let (o, m) = traced done gaps h in
    elim (first_gap_offset_bound gaps o) [
      | inl lt ↦ (
        λ x low. ground (arith, m x (omega arith), missing_before gaps x o low),
        inl (lt, ground (arith, m (first_gap_offset gaps) lt, missing_first gaps o lt)),
      )
      | inr e ↦ (λ x low. ground (arith, m x (omega arith), missing_before gaps x o low), inr e)
    ]
