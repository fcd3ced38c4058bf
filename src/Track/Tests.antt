-- ===== src/Track/Tests.antt =====
-- Concrete runs of the trackers, and the theorems at concrete inputs.
use ngtcp.Base.{
  ltb, leb, if◌then◌else◌, stream_in_use, ok, err, ℕ, ◌+◌, ◌/◌, ◌<◌, ◌≡◌, refl, ◌⊎◌, Bool, true,
  false, not, ◌&&◌, List, [], ◌∷◌, arith,
}
use ngtcp.Track.Range.{
  Range, range_init, range_intersect, range_len, range_equal, range_cut, range_not_after,
}
use ngtcp.Track.Gaptr.{keep_gap, cut_gap, push_range, gaptr_init, gaptr_push, first_gap_offset}
use ngtcp.Track.Gaptr.Laws.{Ordered, missing}
use ngtcp.Track.Gaptr.Trace.{
  Receives, start, push, received, gaptr_push_total, missing-Receives, first_gap_offset-Receives,
}
use ngtcp.Track.Idtr.{
  Idtr, idtr_init, id_from_stream_id, own_stream_id, take_id, open_id, idtr_open, idtr_is_open,
  first_gap,
}
use ngtcp.Track.Idtr.Laws.{Kept, open_id-Kept}
use ngtcp.Track.Idtr.Trace.{Opens, start, claim, opened, idtr_is_open-Opens}

abbrev malloc : Range → Bool
malloc r = true

abbrev whole : List Range
whole = record { begin = 0; end = 18446744073709551615 } ∷ []

-- The gaps after 10 bytes at offset 5, and then 5 at offset 0.
abbrev gaps1 : List Range
gaps1 = record { begin = 0; end = 5 } ∷ record { begin = 15; end = 18446744073709551615 } ∷ []

abbrev gaps2 : List Range
gaps2 = record { begin = 15; end = 18446744073709551615 } ∷ []

init_run : gaptr_init malloc ≡ ok whole
unfolding gaptr_init range_init
init_run = refl

push_run1 : gaptr_push malloc whole 5 10 ≡ (gaps1, ok tt)
unfolding gaptr_push push_range range_init range_intersect range_len range_equal cut_gap range_cut
    keep_gap range_not_after
push_run1 = refl

push_run2 : gaptr_push malloc gaps1 0 5 ≡ (gaps2, ok tt)
unfolding gaptr_push push_range range_init range_intersect range_len range_equal cut_gap range_cut
    keep_gap range_not_after
push_run2 = refl

two_pushes : Receives ((0, 5) ∷ (5, 10) ∷ []) gaps2
two_pushes =
    push malloc ((5, 10) ∷ []) gaps1 gaps2 0 5
      (push malloc [] whole gaps1 5 10 (start malloc whole init_run) (omega arith) push_run1)
      (omega arith) push_run2

gaptr_push_total_example :
    (gaps' : List Range) × (gaptr_push malloc gaps1 7 20 ≡ (gaps', ok tt))
    × Ordered 0 gaps'
    × ((x : ℕ) → missing gaps' x ≡ (missing gaps1 x && not (leb 7 x && ltb x (7 + 20))))
gaptr_push_total_example =
    gaptr_push_total malloc gaps1 7 20 (omega arith) (omega arith) (λ r. refl)

missing-Receives_example :
    Ordered 0 gaps2 × (missing gaps2 7 ≡ not (received ((0, 5) ∷ (5, 10) ∷ []) 7))
missing-Receives_example = missing-Receives ((0, 5) ∷ (5, 10) ∷ []) gaps2 7 two_pushes (omega arith)

gaps2_offset : first_gap_offset gaps2 ≡ 15
unfolding first_gap_offset
gaps2_offset = refl

first_gap_offset-Receives_example :
    ((x : ℕ) → x < first_gap_offset gaps2 → received ((0, 5) ∷ (5, 10) ∷ []) x ≡ true)
    × (((first_gap_offset gaps2 < 18446744073709551615)
          × (received ((0, 5) ∷ (5, 10) ∷ []) (first_gap_offset gaps2) ≡ false))
        ⊎ (first_gap_offset gaps2 ≡ 18446744073709551615))
first_gap_offset-Receives_example =
    first_gap_offset-Receives ((0, 5) ∷ (5, 10) ∷ []) gaps2 two_pushes

-- A client's tracker, which takes even IDs.
abbrev fresh : Idtr
fresh = record { gap = whole; server = false }

-- After stream 8 is opened, which has number 2.
abbrev idtr1 : Idtr
idtr1 = record {
  gap = record { begin = 0; end = 2 } ∷ record { begin = 3; end = 18446744073709551615 } ∷ [];
  server = false;
}

fresh_run : idtr_init malloc false ≡ ok fresh
unfolding idtr_init range_init
fresh_run = refl

open_run : idtr_open malloc fresh 8 ≡ ok (idtr1, ok tt)
unfolding idtr_open own_stream_id id_from_stream_id open_id take_id range_init
open_run = refl

one_open : Opens (8 ∷ []) idtr1
one_open = claim malloc [] fresh idtr1 8 (start malloc false fresh fresh_run) (omega arith) open_run

own_8 : own_stream_id false 8 ≡ true
unfolding own_stream_id
own_8 = refl

idtr_is_open-Opens_example :
    (idtr_is_open idtr1 8 ≡ (if opened (8 ∷ []) (8 / 4) then err stream_in_use else ok tt))
    × ((idtr' : Idtr) × (idtr_open malloc idtr1 8
          ≡ ok (idtr', if opened (8 ∷ []) (8 / 4) then err stream_in_use else ok tt)))
idtr_is_open-Opens_example =
    idtr_is_open-Opens (8 ∷ []) idtr1 8 malloc one_open (omega arith) own_8 (λ r. refl)

open_id-Kept_example : Kept 0 1 idtr1.gap (open_id malloc 1 idtr1.gap)
open_id-Kept_example = open_id-Kept malloc 1 0 idtr1.gap (omega arith)

-- Numbers 5, 4 and 0 to 3 are opened, in this order: `first_gap` is 5, not 6, since taking number 4
-- out of `[0, 5)` leaves the empty gap `[5, 5)`.
abbrev ids_of : List Range → List ℕ → List Range
ids_of gaps [] = gaps
ids_of gaps (q ∷ qs) = ids_of (open_id malloc q gaps).0 qs

stale_first_gap :
    first_gap record { gap = ids_of whole (5 ∷ 4 ∷ 0 ∷ 1 ∷ 2 ∷ 3 ∷ []); server = false } ≡ 5
unfolding first_gap open_id take_id range_init range_len
stale_first_gap = refl
