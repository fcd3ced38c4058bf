-- ===== src/Track/Gaptr/Push.antt =====
-- `gaptr_push` fills just the range it is given, and `first_gap_offset` is where the data that is
-- there from the start on ends.
use ngtcp.Base.{
  ltb, ◌==◌, Bool-cases, ok, ℕ, min, max, ◌≡◌, refl, inl, inr, Bool, true, false, not, ◌&&◌, ◌||◌,
  List, [], ◌∷◌, arith,
}
use ngtcp.Track.Range.{
  Range, range_init, range_intersect, range_len, range_equal, range_cut, covers, RangeFits,
}
use ngtcp.Track.Gaptr.{Outcome, keep_gap, cut_gap, push_range}
use ngtcp.Track.Gaptr.Laws.{
  Ordered, missing, Ordered-weaken, keep_gap-Ordered, keep_gap-missing, Meets, cut_cases,
  cut_gap-Ordered, cut_gap-missing,
}

-- The gaps that remain after `q` is filled.
abbrev pub Filled : ℕ → Range → List Range → Outcome → Type 0
Filled lo q gaps out =
    Ordered lo out.0
    × (out.1 ≡ ok tt → (x : ℕ) → missing out.0 x ≡ (missing gaps x && not (covers q x)))

module _ (malloc : Range → Bool) (q : Range) (f : RangeFits q) where
  pub meets_iff :
      (lo : ℕ) (g : Range) (gaps : List Range)
      → Ordered lo (g ∷ gaps)
      → (range_len (range_intersect q g) == 0) ≡ not (ltb (max q.begin g.begin) (min q.end g.end))
  unfolding range_len range_intersect range_init
  meets_iff lo g gaps h = ground arith

  pub intersect-Meets :
      (g : Range)
      → ltb (max q.begin g.begin) (min q.end g.end) ≡ true
      → Meets q f (range_intersect q g) g
  unfolding range_intersect range_init
  intersect-Meets g e = rw e (refl, refl, ground arith)

  pub apart :
      (g : Range) (x : ℕ)
      → ltb (max q.begin g.begin) (min q.end g.end) ≡ false
      → (covers g x && covers q x) ≡ false
  unfolding covers
  apart g x e = ground arith

  same :
      (g : Range) (x : ℕ) (gaps gaps' : List Range)
      → ltb (max q.begin g.begin) (min q.end g.end) ≡ true
      → range_equal g (range_intersect q g) ≡ true
      → missing gaps' x ≡ (missing gaps x && not (covers q x))
      → missing gaps' x ≡ ((covers g x || missing gaps x) && not (covers q x))
  unfolding covers range_equal range_intersect range_init
  same g x gaps gaps' e s k = ground arith

  pub push_range-Filled :
      (lo : ℕ) (gaps : List Range) → Ordered lo gaps → Filled lo q gaps (push_range malloc q gaps)
  unfolding push_range missing
  push_range-Filled lo [] h = (tt, λ done x. refl)
  push_range-Filled lo (g ∷ gaps) h =
      let (io, im) = push_range-Filled g.end gaps h.3 in
      let rest = push_range malloc q gaps in
      let m = range_intersect q g in
      rw (meets_iff lo g gaps h) (elim (Bool-cases (ltb (max q.begin g.begin) (min q.end g.end))) [
        | inr e ↦ rw e (
          keep_gap-Ordered q f lo g gaps rest h io,
          λ done x. keep_gap-missing q f lo g gaps rest x h (apart g x e) (λ d. im d x) done,
        )
        | inl e ↦ elim (Bool-cases (range_equal g m)) [
          | inl s ↦
              rw (e, s)
                (
                  Ordered-weaken lo g.end rest.0 (omega arith) io,
                  λ done x. same g x gaps rest.0 e s (im done x),
                )
          | inr s ↦
              rw (e, s)
                (
                  cut_gap-Ordered q f malloc lo m g gaps rest h io (intersect-Meets g e)
                      (cut_cases q f malloc lo m g gaps rest h (intersect-Meets g e) s),
                  λ done x.
                      cut_gap-missing q f malloc lo m g gaps rest x h (intersect-Meets g e)
                        (λ d. im d x)
                        (cut_cases q f malloc lo m g gaps rest h (intersect-Meets g e) s) done,
                )
        ]
      ])

keep_gap_ok :
    (q g : Range) (gaps : List Range) (rest : Outcome)
    → rest.1 ≡ ok tt
    → (keep_gap q g gaps rest).1 ≡ ok tt
unfolding keep_gap
keep_gap_ok q g gaps rest h = ground arith

cut_gap_ok :
    (malloc : Range → Bool) (q m g : Range) (gaps : List Range) (rest : Outcome)
    → ((r : Range) → malloc r ≡ true)
    → rest.1 ≡ ok tt
    → (cut_gap malloc q m g gaps rest).1 ≡ ok tt
unfolding cut_gap
cut_gap_ok malloc q m g gaps rest h k = rw (h (range_cut g m).1) (
    ground (
      arith,
      keep_gap_ok q g gaps rest k,
      keep_gap_ok q (range_cut g m).0 gaps rest k,
      keep_gap_ok q (range_cut g m).1 gaps rest k,
    ))

pub push_range_ok :
    (malloc : Range → Bool) (q : Range) (gaps : List Range)
    → ((r : Range) → malloc r ≡ true)
    → (push_range malloc q gaps).1 ≡ ok tt
unfolding push_range
push_range_ok malloc q [] h = refl
push_range_ok malloc q (g ∷ gaps) h =
    let rest = push_range malloc q gaps in
    let m = range_intersect q g in
    let ih = push_range_ok malloc q gaps h in
    ground (arith, ih, cut_gap_ok malloc q m g gaps rest h ih, keep_gap_ok q g gaps rest ih)
