-- ===== src/Track/Gaptr/Laws.antt =====
-- What `gaptr_push` does to the set of the offsets that are missing.
use ngtcp.Base.{
  leb, ◌==◌, Bool-cases, nomem, ok, err, ℕ, ◌^◌, ◌≤◌, ◌<◌, min, max, ◌≡◌, refl, ◌⊎◌, inl, inr, Bool,
  false, not, ◌&&◌, ◌||◌, List, [], ◌∷◌, arith,
}
use ngtcp.Track.Range.{
  Range, sub_uint64, range_init, range_len, range_equal, range_cut, range_not_after, covers,
  RangeFits,
}
use ngtcp.Track.Gaptr.{Outcome, keep_gap, cut_gap}

-- The gaps are not empty, in increasing order from `lo` on, do not overlap, and fit 64 bits.
abbrev pub Ordered : ℕ → List Range → Type 0
Ordered lo [] = Unit {0}
Ordered lo (g ∷ gaps) = (lo ≤ g.begin) × (g.begin < g.end) × (g.end < 2 ^ 64) × Ordered g.end gaps

-- Whether an offset lies in a gap.
unfoldable pub missing : List Range → ℕ → Bool
missing [] x = false
missing (g ∷ gaps) x = covers g x || missing gaps x

pub Ordered-weaken : (lo hi : ℕ) (gaps : List Range) → lo ≤ hi → Ordered hi gaps → Ordered lo gaps
Ordered-weaken lo hi [] le h = tt
Ordered-weaken lo hi (g ∷ gaps) le h = (omega arith, h.1, h.2, h.3)

pub missing_below :
    (lo : ℕ) (gaps : List Range) (x : ℕ) → Ordered lo gaps → x < lo → missing gaps x ≡ false
unfolding missing covers
missing_below lo [] x h k = refl
missing_below lo (g ∷ gaps) x h k = ground (arith, missing_below g.end gaps x h.3)

module _ (q : Range) (f : RangeFits q) where
  pub keep_gap-Ordered :
      (lo : ℕ) (g : Range) (gaps : List Range) (rest : Outcome)
      → Ordered lo (g ∷ gaps)
      → Ordered g.end rest.0
      → Ordered lo (keep_gap q g gaps rest).0
  unfolding keep_gap range_not_after
  keep_gap-Ordered lo g gaps rest h k = ground arith

  pub keep_gap-missing :
      (lo : ℕ) (g : Range) (gaps : List Range) (rest : Outcome) (x : ℕ)
      → Ordered lo (g ∷ gaps)
      → (covers g x && covers q x) ≡ false
      → (rest.1 ≡ ok tt → missing rest.0 x ≡ (missing gaps x && not (covers q x)))
      → (keep_gap q g gaps rest).1 ≡ ok tt
      → missing (keep_gap q g gaps rest).0 x ≡ (missing (g ∷ gaps) x && not (covers q x))
  unfolding keep_gap range_not_after missing covers
  keep_gap-missing lo g gaps rest x h apart k e = ground (arith, missing_below g.end gaps x h.3)

  -- `m` is what `q` and `g` have in common.
  abbrev pub Meets : Range → Range → Type 0
  Meets m g = (m.begin ≡ max q.begin g.begin) × (m.end ≡ min q.end g.end) × (m.begin < m.end)

  -- What is left of the gap on the left and on the right.
  abbrev left : Range → Range → Range
  left m g = record { begin = g.begin; end = m.begin }

  abbrev right : Range → Range → Range
  right m g = record { begin = m.end; end = g.end }

  -- What `cut_gap` does, by which parts are left.
  pub CutCases : (Range → Bool) → Range → Range → List Range → Outcome → Type 0
  CutCases malloc m g gaps rest =
      let out = cut_gap malloc q m g gaps rest in
      ((m.begin ≡ g.begin) × (m.end < g.end) × (out ≡ keep_gap q (right m g) gaps rest))
      ⊎ ((g.begin < m.begin) × (m.end ≡ g.end) × (out ≡ keep_gap q (left m g) gaps rest))
      ⊎ ((g.begin < m.begin)
          × (m.end < g.end)
          × (out ≡ (
            left m g ∷ (keep_gap q (right m g) gaps rest).0,
            (keep_gap q (right m g) gaps rest).1,
          )))
      ⊎ ((g.begin < m.begin) × (m.end < g.end) × (out ≡ (left m g ∷ gaps, err nomem)))

  empty_iff : (a b : ℕ) → b ≤ a → a < 2 ^ 64 → (sub_uint64 a b == 0) ≡ leb a b
  empty_iff a b h k = ground arith

  pub cut_cases :
      (malloc : Range → Bool) (lo : ℕ) (m g : Range) (gaps : List Range) (rest : Outcome)
      → Ordered lo (g ∷ gaps)
      → Meets m g
      → range_equal g m ≡ false
      → CutCases malloc m g gaps rest
  unfolding CutCases cut_gap range_cut range_len range_init range_equal
  cut_cases malloc lo m g gaps rest h e ne =
      rw
        (
          empty_iff m.begin g.begin (omega arith) (omega arith),
          empty_iff g.end m.end (omega arith) (omega arith),
        )
        (elim (Bool-cases (leb m.begin g.begin)) [
          | inl a ↦ elim (Bool-cases (leb g.end m.end)) [
            | inl b ↦ absurd (ground arith)
            | inr b ↦ rw (a, b) (inl (ground arith, ground arith, refl))
          ]
          | inr a ↦ elim (Bool-cases (leb g.end m.end)) [
            | inl b ↦ rw (a, b) (inr (inl (ground arith, ground arith, refl)))
            | inr b ↦ elim (Bool-cases (malloc (right m g))) [
              | inl c ↦ rw (a, b, c) (inr (inr (inl (ground arith, ground arith, refl))))
              | inr c ↦ rw (a, b, c) (inr (inr (inr (ground arith, ground arith, refl))))
            ]
          ]
        ])

  pub cut_gap-Ordered :
      (malloc : Range → Bool) (lo : ℕ) (m g : Range) (gaps : List Range) (rest : Outcome)
      → Ordered lo (g ∷ gaps)
      → Ordered g.end rest.0
      → Meets m g
      → CutCases malloc m g gaps rest
      → Ordered lo (cut_gap malloc q m g gaps rest).0
  unfolding CutCases
  cut_gap-Ordered malloc lo m g gaps rest h k e (inl (a, b, c)) =
      rw c (keep_gap-Ordered lo (right m g) gaps rest (omega arith, b, h.2, h.3) k)
  cut_gap-Ordered malloc lo m g gaps rest h k e (inr (inl (a, b, c))) = rw c (
      keep_gap-Ordered lo (left m g) gaps rest
        (h.0, a, omega arith, Ordered-weaken m.begin g.end gaps (omega arith) h.3)
        (Ordered-weaken m.begin g.end rest.0 (omega arith) k))
  cut_gap-Ordered malloc lo m g gaps rest h k e (inr (inr (inl (a, b, c)))) = rw c (
    h.0,
    a,
    omega arith,
    keep_gap-Ordered m.begin (right m g) gaps rest (omega arith, b, h.2, h.3) k,
  )
  cut_gap-Ordered malloc lo m g gaps rest h k e (inr (inr (inr (a, b, c)))) =
      rw c (h.0, a, omega arith, Ordered-weaken m.begin g.end gaps (omega arith) h.3)

  pub cut_gap-missing :
      (malloc : Range → Bool) (lo : ℕ) (m g : Range) (gaps : List Range) (rest : Outcome) (x : ℕ)
      → Ordered lo (g ∷ gaps)
      → Meets m g
      → (rest.1 ≡ ok tt → missing rest.0 x ≡ (missing gaps x && not (covers q x)))
      → CutCases malloc m g gaps rest
      → (cut_gap malloc q m g gaps rest).1 ≡ ok tt
      → missing (cut_gap malloc q m g gaps rest).0 x ≡ (missing (g ∷ gaps) x && not (covers q x))
  unfolding CutCases missing covers
  cut_gap-missing malloc lo m g gaps rest x h e k (inl (a, b, c)) done = ground (
    arith,
    keep_gap-missing lo (right m g) gaps rest x (omega arith, b, h.2, h.3) (ground arith) k,
  )
  cut_gap-missing malloc lo m g gaps rest x h e k (inr (inl (a, b, c))) done = ground (
    arith,
    keep_gap-missing lo (left m g) gaps rest x
        (h.0, a, omega arith, Ordered-weaken m.begin g.end gaps (omega arith) h.3) (ground arith) k,
  )
  cut_gap-missing malloc lo m g gaps rest x h e k (inr (inr (inl (a, b, c)))) done = ground (
    arith,
    keep_gap-missing lo (right m g) gaps rest x (omega arith, b, h.2, h.3) (ground arith) k,
  )
  cut_gap-missing malloc lo m g gaps rest x h e k (inr (inr (inr (a, b, c)))) done = ground arith
