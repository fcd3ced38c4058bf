-- ===== src/Strm/Rob/Push.antt =====
-- `ngtcp2_rob_push` stores the bytes that were missing, and fills the gaps as `ngtcp2_gaptr_push`
-- does.
use ngtcp.Track.Gaptr.Push.{meets_iff, intersect-Meets, apart}
use ngtcp.Base.{
  ltb, leb, ◌==◌, if◌then◌else◌, Bool-cases, length, drop, get_elem?, length-take, length-drop,
  nomem, ok, err, ℕ, ◌+◌, ◌-◌, ◌^◌, ◌≤◌, ◌<◌, min, max, ◌≡◌, refl, ap, ◌∙◌, ◌⊎◌, inl, inr, false,
  ◌&&◌, Option, List, [], ◌∷◌, arith,
}
use ngtcp.Track.Range.{
  Range, sub_uint64, range_init, range_intersect, range_len, range_equal, range_cut,
  range_not_after, covers, RangeFits,
}
use ngtcp.Track.Gaptr.{Outcome, keep_gap, cut_gap, push_range}
use ngtcp.Track.Gaptr.Laws.{Ordered, missing, missing_below, Meets}
use ngtcp.Strm.Rob.{
  RobData, RobMem, Stored, rob_write_data, Pushed, past, leave_gap, after_write, cut_and_write,
  bytes_at, push_loop,
}
use ngtcp.Strm.Rob.Chunks.{byte_at, overlay, IsChunks, get_elem?-take, get_elem?-drop}
use ngtcp.Strm.Rob.Write.{IsWritten, rob_write_data-IsWritten}

-- Some allocation fails.
abbrev pub Fails : RobMem → Type 0
Fails mem = ((b : ℕ) × (mem.data_new b ≡ false)) ⊎ ((r : Range) × (mem.gap_new r ≡ false))

-- The byte at `x` after a push of `bytes` at `q`, where it was `b`: the pushed one if `x` was
-- missing.
abbrev pub push_byte : List Range → Range → List ℕ → ℕ → Option ℕ → Option ℕ
push_byte gaps q bytes x b =
    if missing gaps x && covers q x then get_elem? bytes (x - q.begin) else b

module _ (mem : RobMem) (chunk : ℕ) (pos : 0 < chunk) (fits : chunk < 2 ^ 63) where
  -- The push leaves the gaps of `spec` and the bytes `want`, or an allocation failed.
  abbrev pub IsPushed : Outcome → (ℕ → Option ℕ) → Pushed → Type 0
  IsPushed spec want out =
      IsChunks chunk 0 out.1
      × (((out.2 ≡ ok tt)
            × (out.0 ≡ spec.0)
            × (spec.1 ≡ ok tt)
            × ((x : ℕ) → byte_at out.1 x ≡ want x))
          ⊎ ((out.2 ≡ err nomem) × Fails mem))

  same-IsPushed :
      (spec : Outcome) (want want' : ℕ → Option ℕ) (out : Pushed)
      → ((x : ℕ) → want x ≡ want' x)
      → IsPushed spec want out
      → IsPushed spec want' out
  same-IsPushed spec want want' out e (c, inl (rv, g, s, b)) = (c, inl (rv, g, s, λ x. b x ∙ e x))
  same-IsPushed spec want want' out e (c, inr failed) = (c, inr failed)

  past-IsPushed :
      (l : Range) (spec : Outcome) (want : ℕ → Option ℕ) (out : Pushed)
      → IsPushed spec want out
      → IsPushed (l ∷ spec.0, spec.1) want (past l out)
  past-IsPushed l spec want out (c, inl (rv, g, s, b)) = (c, inl (rv, ap (λ t. l ∷ t) g, s, b))
  past-IsPushed l spec want out (c, inr failed) = (c, inr failed)

  after-IsPushed :
      (offset : ℕ) (bytes : List ℕ) (ds : List RobData) (written : Stored) (gaps : List Range)
      (rest : List RobData → Pushed) (spec : Outcome) (change : ℕ → Option ℕ → Option ℕ)
      → IsWritten mem chunk pos fits 0 offset bytes ds written
      → ((ds' : List RobData)
          → IsChunks chunk 0 ds'
          → IsPushed spec (λ x. change x (byte_at ds' x)) (rest ds'))
      → IsPushed spec
          (λ x. change x (overlay offset bytes x (byte_at ds x)))
          (after_write gaps rest written)
  after-IsPushed offset bytes ds (ds', rv) gaps rest spec change (c, inl (e, b)) h = rw e (
      same-IsPushed spec (λ x. change x (byte_at ds' x))
        (λ x. change x (overlay offset bytes x (byte_at ds x))) (rest ds')
        (λ x. ap (change x) (b x)) (h ds' c))
  after-IsPushed offset bytes ds (ds', rv) gaps rest spec change (c, inr (e, b, failed)) h =
      rw e (c, inr (refl, inl (b, failed)))

  module _ (q : Range) (f : RangeFits q) (bytes : List ℕ) where
    -- The loop over the gaps behind one.
    abbrev pub Rest : List Range → (List RobData → Pushed) → Type 0
    Rest gaps rest =
        (ds : List RobData)
        → IsChunks chunk 0 ds
        → IsPushed (push_range mem.gap_new q gaps) (λ x. push_byte gaps q bytes x (byte_at ds x))
            (rest ds)

    behind_gap :
        (lo : ℕ) (gaps : List Range) (x : ℕ) (b : Option ℕ)
        → Ordered lo gaps
        → q.end ≤ lo
        → b ≡ push_byte gaps q bytes x b
    unfolding covers
    behind_gap lo gaps x b o le = ground (arith, missing_below lo gaps x o)

    leave_gap-IsPushed :
        (g g' : Range) (gaps : List Range) (rest : List RobData → Pushed) (ds : List RobData)
        → Ordered g.end gaps
        → g'.end ≤ g.end
        → Rest gaps rest
        → IsChunks chunk 0 ds
        → IsPushed
            (keep_gap q g' gaps (push_range mem.gap_new q gaps))
            (λ x. push_byte gaps q bytes x (byte_at ds x))
            (leave_gap q g' gaps rest ds)
    unfolding keep_gap range_not_after
    leave_gap-IsPushed g g' gaps rest ds o le h c = elim (Bool-cases (leb q.end g'.end)) [
      | inl e ↦
          rw e (
            c,
            inl (refl, refl, refl, λ x. behind_gap g.end gaps x (byte_at ds x) o (ground arith)),
          )
      | inr e ↦ rw e (
          past-IsPushed g' (push_range mem.gap_new q gaps)
            (λ x. push_byte gaps q bytes x (byte_at ds x)) (rest ds) (h ds c))
    ]

    cut-IsPushed :
        (m g : Range) (gaps : List Range) (rest : List RobData → Pushed)
        (write : List RobData → Stored) (want : ℕ → Option ℕ) (ds : List RobData)
        → m.begin ≤ g.end
        → ((g' : Range) (gs : List Range)
            → g'.end ≤ g.end
            → IsPushed
                (keep_gap q g' gaps (push_range mem.gap_new q gaps))
                want
                (after_write gs (leave_gap q g' gaps rest) (write ds)))
        → IsChunks chunk 0 ds
        → IsPushed
            (cut_gap mem.gap_new q m g gaps (push_range mem.gap_new q gaps))
            want
            (cut_and_write mem q m g gaps rest write ds)
    unfolding cut_gap cut_and_write range_cut range_init
    cut-IsPushed m g gaps rest write want ds le h c =
        let l : Range = record { begin = g.begin; end = m.begin } in
        let r : Range = record { begin = m.end; end = g.end } in
        elim (Bool-cases (range_len l == 0)) [
          | inl e ↦ elim (Bool-cases (range_len r == 0)) [
            | inl e' ↦ rw (e, e') (h g (g ∷ gaps) (omega arith))
            | inr e' ↦ rw (e, e') (h r (r ∷ gaps) (omega arith))
          ]
          | inr e ↦ elim (Bool-cases (range_len r == 0)) [
            | inl e' ↦ rw (e, e') (h l (l ∷ gaps) le)
            | inr e' ↦ elim (Bool-cases (mem.gap_new r)) [
              | inl a ↦
                  rw (e, e', a)
                    (past-IsPushed l (keep_gap q r gaps (push_range mem.gap_new q gaps)) want
                      (after_write (r ∷ gaps) (leave_gap q r gaps rest) (write ds))
                      (h r (r ∷ gaps) (omega arith)))
              | inr a ↦ rw (e, e', a) (c, inr (refl, inr (r, a)))
            ]
          ]
        ]

    bytes_at_lem :
        (g m : Range)
        → Meets q f m g
        → length bytes ≡ q.end - q.begin
        → (length (bytes_at q m bytes) ≡ m.end - m.begin)
          × ((i : ℕ)
              → i < m.end - m.begin
              → get_elem? (bytes_at q m bytes) i ≡ get_elem? bytes (m.begin - q.begin + i))
    unfolding bytes_at range_len
    bytes_at_lem g m meets len =
        let skip : sub_uint64 m.begin q.begin ≡ m.begin - q.begin = omega (arith, f) in
        let size : sub_uint64 m.end m.begin ≡ m.end - m.begin = omega (arith, f) in
        rw (skip, size)
          (
            omega (
              arith,
              length-take (m.end - m.begin) (drop (m.begin - q.begin) bytes),
              length-drop (m.begin - q.begin) bytes,
            ),
            λ i lt.
                get_elem?-take (m.end - m.begin) i (drop (m.begin - q.begin) bytes) lt
                ∙ get_elem?-drop (m.begin - q.begin) i bytes,
          )

    -- What the round stores of the gap `g`, with what is stored behind it.
    round_byte :
        (g m : Range) (gaps : List Range) (x : ℕ) (b : Option ℕ)
        → Meets q f m g
        → length bytes ≡ q.end - q.begin
        → push_byte gaps q bytes x (overlay m.begin (bytes_at q m bytes) x b)
          ≡ push_byte (g ∷ gaps) q bytes x b
    unfolding missing covers
    round_byte g m gaps x b meets len =
        let (size, byte) = bytes_at_lem g m meets len in
        let at : m.begin ≤ x → m.begin - q.begin + (x - m.begin) ≡ x - q.begin =
          λ le. omega arith in
        ground (arith, size, byte (x - m.begin), at)

    -- A round that writes.
    meet-IsPushed :
        (lo : ℕ) (g : Range) (gaps : List Range) (rest : List RobData → Pushed) (ds : List RobData)
        → Ordered lo (g ∷ gaps)
        → length bytes ≡ q.end - q.begin
        → q.end < 2 ^ 63
        → Meets q f (range_intersect q g) g
        → Rest gaps rest
        → IsChunks chunk 0 ds
        → (spec : Outcome) (gs : List Range) (next : List RobData → Pushed)
        → ((ds' : List RobData)
            → IsChunks chunk 0 ds'
            → IsPushed spec (λ x. push_byte gaps q bytes x (byte_at ds' x)) (next ds'))
        → IsPushed spec
            (λ x. push_byte (g ∷ gaps) q bytes x (byte_at ds x))
            (after_write gs next (
              rob_write_data mem chunk
                (range_intersect q g).begin
                (bytes_at q (range_intersect q g) bytes)
                ds))
    meet-IsPushed lo g gaps rest ds o len small meets h c spec gs next k =
        let m = range_intersect q g in
        let written =
          rob_write_data-IsWritten mem chunk pos fits 0 m.begin (bytes_at q m bytes) ds 0 c
            (omega arith) (omega arith) (omega (arith, bytes_at_lem g m meets len)) in
        let write = rob_write_data mem chunk m.begin (bytes_at q m bytes) ds in
        same-IsPushed spec
          (λ x. push_byte gaps q bytes x (overlay m.begin (bytes_at q m bytes) x (byte_at ds x)))
          (λ x. push_byte (g ∷ gaps) q bytes x (byte_at ds x)) (after_write gs next write)
          (λ x. round_byte g m gaps x (byte_at ds x) meets len)
          (after-IsPushed m.begin (bytes_at q m bytes) ds write gs next spec
            (λ x b. push_byte gaps q bytes x b) written k)

    apart_byte :
        (g : Range) (gaps : List Range) (x : ℕ) (b : Option ℕ)
        → ltb (max q.begin g.begin) (min q.end g.end) ≡ false
        → push_byte gaps q bytes x b ≡ push_byte (g ∷ gaps) q bytes x b
    unfolding missing
    apart_byte g gaps x b e = ground (arith, apart mem.gap_new q f g x e)

    nothing_byte : (x : ℕ) (b : Option ℕ) → b ≡ push_byte [] q bytes x b
    unfolding missing
    nothing_byte x b = refl

    pub push_loop-IsPushed :
        (lo : ℕ) (gaps : List Range)
        → Ordered lo gaps
        → length bytes ≡ q.end - q.begin
        → q.end < 2 ^ 63
        → Rest gaps (push_loop mem chunk q bytes gaps)
    unfolding push_loop push_range
    push_loop-IsPushed lo [] o len small ds c =
        (c, inl (refl, refl, refl, λ x. nothing_byte x (byte_at ds x)))
    push_loop-IsPushed lo (g ∷ gaps) o len small ds c =
        let m = range_intersect q g in
        let rest = push_loop mem chunk q bytes gaps in
        let ih = push_loop-IsPushed g.end gaps o.3 len small in
        let write =
          λ (ds' : List RobData). rob_write_data mem chunk m.begin (bytes_at q m bytes) ds' in
        let tail = push_range mem.gap_new q gaps in
        let want = λ (x : ℕ). push_byte (g ∷ gaps) q bytes x (byte_at ds x) in
        rw (meets_iff mem.gap_new q f lo g gaps o)
          (elim (Bool-cases (ltb (max q.begin g.begin) (min q.end g.end))) [
            | inr e ↦ rw e (
                same-IsPushed (keep_gap q g gaps tail)
                  (λ x. push_byte gaps q bytes x (byte_at ds x)) want (leave_gap q g gaps rest ds)
                  (λ x. apart_byte g gaps x (byte_at ds x) e)
                  (leave_gap-IsPushed g g gaps rest ds o.3 (omega arith) ih c))
            | inl e ↦
                let meets = intersect-Meets mem.gap_new q f g e in
                let round = meet-IsPushed lo g gaps rest ds o len small meets ih c in
                elim (Bool-cases (range_equal g m)) [
                  | inl s ↦ rw (e, s) (round tail gaps rest ih)
                  | inr s ↦
                      rw (e, s)
                        (cut-IsPushed m g gaps rest write want ds (omega arith)
                          (λ g' gs le.
                            round (keep_gap q g' gaps tail) gs (leave_gap q g' gaps rest)
                              (λ ds' c'. leave_gap-IsPushed g g' gaps rest ds' o.3 le ih c'))
                          c)
                ]
          ])
