-- ===== src/Track/Gaptr.antt =====
-- lib/ngtcp2_gaptr.c: the gaps in the data received so far. The linked list is the list of the
-- ranges. `malloc r` says whether the allocation of the gap for `r` succeeds.
pub mod Laws
pub mod Push
pub mod Trace
use ngtcp.Base.{◌==◌, if◌then◌else◌, nomem, Result, ok, err, ℕ, ◌+◌, ◌%◌, Bool, List, [], ◌∷◌}
use ngtcp.Track.Range.{
  Range, range_init, range_intersect, range_len, range_equal, range_cut, range_not_after,
}

-- The gaps that an operation leaves, and what it returns.
abbrev pub Outcome : Type 0
Outcome = List Range × Result (Unit {0})

-- `(*pg)->range` stays as `g`, and the loop goes on as `rest` if it does.
unfoldable pub keep_gap : Range → Range → List Range → Outcome → Outcome
keep_gap q g gaps rest = if range_not_after q g then (g ∷ gaps, ok tt) else (g ∷ rest.0, rest.1)

-- The part of a round where a part of the gap remains.
unfoldable pub cut_gap : (Range → Bool) → Range → Range → Range → List Range → Outcome → Outcome
cut_gap malloc q m g gaps rest =
    let (l, r) = range_cut g m in
    if range_len l == 0
    then (if range_len r == 0 then keep_gap q g gaps rest else keep_gap q r gaps rest)
    else if range_len r == 0
    then keep_gap q l gaps rest
    else if malloc r
    then (let (gaps', rv) = keep_gap q r gaps rest in (l ∷ gaps', rv))
    else (l ∷ gaps, err nomem)

-- The loop of `ngtcp2_gaptr_push`.
unfoldable pub push_range : (Range → Bool) → Range → List Range → Outcome
push_range malloc q [] = ([], ok tt)
push_range malloc q (g ∷ gaps) =
    let rest = push_range malloc q gaps in
    let m = range_intersect q g in
    if range_len m == 0
    then keep_gap q g gaps rest
    else if range_equal g m
    then rest
    else cut_gap malloc q m g gaps rest

unfoldable pub gaptr_init : (Range → Bool) → Result (List Range)
gaptr_init malloc =
    let r = range_init 0 18446744073709551615 in if malloc r then ok (r ∷ []) else err nomem

unfoldable pub gaptr_push : (Range → Bool) → List Range → ℕ → ℕ → Outcome
gaptr_push malloc gaps offset datalen =
    push_range malloc (range_init offset ((offset + datalen) % 18446744073709551616)) gaps

unfoldable pub first_gap_offset : List Range → ℕ
first_gap_offset [] = 18446744073709551615
first_gap_offset (g ∷ gaps) = g.begin
