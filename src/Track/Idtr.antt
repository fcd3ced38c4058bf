-- ===== src/Track/Idtr.antt =====
-- lib/ngtcp2_idtr.c: which stream IDs are open. The linked list of the gaps is the list of their
-- ranges, and `malloc r` says whether the allocation of the gap for `r` succeeds.
pub mod Laws
pub mod Trace
use ngtcp.Base.{
  ltb, leb, ◌==◌, if◌then◌else◌, stream_in_use, nomem, Result, ok, err, ◌>>=◌, ◌>>◌, assert, ℕ, ◌+◌,
  ◌/◌, ◌%◌, Bool, not, ◌&&◌, ◌||◌, List, [], ◌∷◌,
}
use ngtcp.Track.Range.{Range, range_init, range_len}
use ngtcp.Track.Gaptr.{Outcome}

-- `ngtcp2_idtr`, without the allocator
pub record Idtr : Type 0 where
  pub gap : List Range
  pub server : Bool

unfoldable pub idtr_init : (Range → Bool) → Bool → Result Idtr
idtr_init malloc server =
    let r = range_init 0 18446744073709551615 in
    if malloc r then ok record { gap = r ∷ []; server = server } else err nomem

unfoldable pub id_from_stream_id : ℕ → ℕ
id_from_stream_id stream_id = stream_id / 4

-- The condition of the assertions: `==` takes in the whole conjunction before it.
unfoldable pub own_stream_id : Bool → ℕ → Bool
own_stream_id server stream_id =
    let odd = not (stream_id % 2 == 0) in (server && odd) || not (not server && odd)

-- The gap that holds `q`, when `q` is taken from it.
unfoldable pub take_id : (Range → Bool) → ℕ → Range → List Range → Outcome
take_id malloc q g gaps =
    if q == g.begin
    then (if range_len g == 1
        then (gaps, ok tt)
        else (record { begin = g.begin + 1; end = g.end } ∷ gaps, ok tt))
    else if malloc (range_init g.begin q)
    then (range_init g.begin q ∷ record { begin = q + 1; end = g.end } ∷ gaps, ok tt)
    else (g ∷ gaps, err nomem)

-- The loop of `ngtcp2_idtr_open`.
unfoldable pub open_id : (Range → Bool) → ℕ → List Range → Outcome
open_id malloc q [] = ([], err stream_in_use)
open_id malloc q (g ∷ gaps) =
    let rest = open_id malloc q gaps in
    if ltb q g.begin
    then (g ∷ gaps, err stream_in_use)
    else if leb g.end q
    then (g ∷ rest.0, rest.1)
    else take_id malloc q g gaps

-- The tracker as it is left, and the answer.
unfoldable pub idtr_open : (Range → Bool) → Idtr → ℕ → Result (Idtr × Result (Unit {0}))
idtr_open malloc idtr stream_id = do
  assert (own_stream_id idtr.server stream_id)
  let (gap, rv) = open_id malloc (id_from_stream_id stream_id) idtr.gap
  ok (record { gap = gap; server = idtr.server }, rv)

-- The loop of `ngtcp2_idtr_is_open`.
unfoldable pub is_open_id : ℕ → List Range → Result (Unit {0})
is_open_id q [] = ok tt
is_open_id q (g ∷ gaps) =
    let rest = is_open_id q gaps in
    if ltb q g.begin then err stream_in_use else if leb g.end q then rest else ok tt

unfoldable pub idtr_is_open : Idtr → ℕ → Result (Unit {0})
idtr_is_open idtr stream_id = do
  assert (own_stream_id idtr.server stream_id)
  is_open_id (id_from_stream_id stream_id) idtr.gap

unfoldable pub first_gap : Idtr → ℕ
first_gap idtr = elim idtr.gap [ [] ↦ 18446744073709551615 | ◌∷◌ g (gaps → _) ↦ g.begin ]
