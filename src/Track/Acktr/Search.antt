-- ===== src/Track/Acktr/Search.antt =====
-- Which of the ACK frames that were sent `ngtcp2_acktr_recv_ack` finds.
use ngtcp.Base.{
  ltb, leb, if◌then◌else◌, Bool-cases, length, elem_at, ok, ◌>>=◌, ℕ, suc, ◌+◌, ◌≤◌, ◌<◌, ◌≡◌, refl,
  ap, ◌∙◌, inl, inr, Bool, false, not, ◌&&◌, ◌||◌, List, [], ◌∷◌, arith,
}
use ngtcp.Pkt.Frame.{AckBlk}
use ngtcp.Track.Ringbuf.{Ringbuf, ringbuf_get}
use ngtcp.Track.Acktr.{AcktrAckEntry}
use ngtcp.Track.Acktr.RecvAck.{
  Search, returns, found, breaks, not_trusted, search_first, search_blk, search_blks,
}

abbrev pub Under : ℕ → List AcktrAckEntry → Type 0
Under n [] = Unit {0}
Under n (y ∷ ys) = (y.pkt_num < n) × Under n ys

-- The packets that carried the frames have decreasing numbers.
abbrev pub IsFalling : List AcktrAckEntry → Type 0
IsFalling [] = Unit {0}
IsFalling (y ∷ ys) = Under y.pkt_num ys × IsFalling ys

pub Under-le : (m n : ℕ) (ys : List AcktrAckEntry) → m ≤ n → Under m ys → Under n ys
Under-le m n [] le h = tt
Under-le m n (y ∷ ys) le h = (omega (arith, h.0), Under-le m n ys le h.1)

-- The ring holds `ys` from the offset `j` on.
abbrev pub AtRing : Ringbuf AcktrAckEntry → ℕ → List AcktrAckEntry → Type 0
AtRing acks j [] = Unit {0}
AtRing acks j (y ∷ ys) = (ringbuf_get acks j ≡ ok y) × AtRing acks (j + 1) ys

pub Holds-AtRing :
    (acks : Ringbuf AcktrAckEntry) (j : ℕ) (ys : List AcktrAckEntry)
    → ((i : ℕ) → i < length ys → ringbuf_get acks (j + i) ≡ elem_at i ys)
    → AtRing acks j ys
Holds-AtRing acks j [] h = tt
Holds-AtRing acks j (y ∷ ys) h =
    let e : j + 0 ≡ j = omega arith in
    (
      rw e at (h 0 (omega arith)),
      Holds-AtRing acks (j + 1) ys (λ i lt.
          let e : j + 1 + i ≡ j + suc i = omega arith in rw e (h (suc i) (omega (arith, lt)))),
    )

-- The first entry that passes a test.
unfoldable pub find : (AcktrAckEntry → Bool) → ℕ → List AcktrAckEntry → Search
find f j [] = returns
find f j (y ∷ ys) = let rest = find f (j + 1) ys in if f y then found j else rest

find-Under :
    (n : ℕ) (f g : AcktrAckEntry → Bool) (j : ℕ) (ys : List AcktrAckEntry)
    → ((y : AcktrAckEntry) → y.pkt_num < n → f y ≡ g y)
    → Under n ys
    → find f j ys ≡ find g j ys
unfolding find
find-Under n f g j [] e h = refl
find-Under n f g j (y ∷ ys) e h = rw (e y h.0, find-Under n f g (j + 1) ys e h.1) refl

pub find-none : (j : ℕ) (ys : List AcktrAckEntry) → find (λ y. false) j ys ≡ returns
unfolding find
find-none j [] = refl
find-none j (y ∷ ys) = find-none (j + 1) ys

-- An entry whose number passes `q`, and that may be taken at this level of protection.
unfoldable pub wanted : Bool → (ℕ → Bool) → AcktrAckEntry → Bool
wanted unprotected q y = q y.pkt_num && not (not_trusted unprotected y)

module _ (unprotected : Bool) (acks : Ringbuf AcktrAckEntry) where
  -- The search goes on below `n` as it should.
  abbrev pub Continues : ℕ → List AckBlk → (ℕ → Bool) → Type 0
  Continues n blks q =
      (j : ℕ) (y : AcktrAckEntry) (ys : List AcktrAckEntry)
      → AtRing acks j (y ∷ ys)
      → Under n (y ∷ ys)
      → IsFalling (y ∷ ys)
      → search_blks unprotected n blks acks (breaks (length ys) j y)
        ≡ ok (find (wanted unprotected q) j (y ∷ ys))

  module _ (smallest largest : ℕ) (blks : List AckBlk) (q : ℕ → Bool) (le : smallest ≤ largest)
      (above : (n : ℕ) → smallest ≤ n → q n ≡ false) (go : Continues smallest blks q) where
    unfoldable pub in_either : ℕ → Bool
    in_either n = (leb smallest n && leb n largest) || q n

    same_below :
        (j : ℕ) (ys : List AcktrAckEntry)
        → Under smallest ys
        → find (wanted unprotected q) j ys ≡ find (wanted unprotected in_either) j ys
    unfolding in_either wanted
    same_below j ys u =
        find-Under smallest (wanted unprotected q) (wanted unprotected in_either) j ys
          (λ y h. ground (arith, h)) u

    passes_above :
        (y : AcktrAckEntry) → largest < y.pkt_num → wanted unprotected in_either y ≡ false
    unfolding in_either wanted
    passes_above y h = ground (arith, h, le, above y.pkt_num (omega (arith, h, le)))

    passes_inside :
        (y : AcktrAckEntry)
        → y.pkt_num ≤ largest
        → smallest ≤ y.pkt_num
        → wanted unprotected in_either y ≡ not (not_trusted unprotected y)
    unfolding in_either wanted
    passes_inside y h k = ground (arith, h, k)

    pub search_blk_lem :
        (j : ℕ) (y : AcktrAckEntry) (ys : List AcktrAckEntry)
        → AtRing acks j (y ∷ ys)
        → IsFalling (y ∷ ys)
        → (search_blk unprotected smallest largest (length ys) j y acks
            >>= search_blks unprotected smallest blks acks)
          ≡ ok (find (wanted unprotected in_either) j (y ∷ ys))
    unfolding search_blk in_either wanted find search_blks
    search_blk_lem j y [] at d = elim (Bool-cases (ltb largest y.pkt_num)) [
      | inl a ↦ rw (a, passes_above y (ground (arith, a))) refl
      | inr a ↦ elim (Bool-cases (ltb y.pkt_num smallest)) [
        | inl b ↦
            let u : Under smallest (y ∷ []) = (ground (arith, b), tt) in
            rw (a, b) (go j y [] at u d ∙ ap ok (same_below j (y ∷ []) u))
        | inr b ↦
            let w = passes_inside y (ground (arith, a)) (ground (arith, b)) in
            elim (Bool-cases (not_trusted unprotected y)) [
              | inl t ↦ rw (w, a, b, t) refl
              | inr t ↦ rw (w, a, b, t) refl
            ]
      ]
    ]
    search_blk_lem j y (z ∷ ys) at d =
        let ih = search_blk_lem (j + 1) z ys at.1 d.1 in
        elim (Bool-cases (ltb largest y.pkt_num)) [
          | inl a ↦ rw (a, passes_above y (ground (arith, a)), at.1.0) ih
          | inr a ↦ elim (Bool-cases (ltb y.pkt_num smallest)) [
            | inl b ↦
                let u : Under smallest (y ∷ z ∷ ys) = (
                  ground (arith, b),
                  Under-le y.pkt_num smallest (z ∷ ys) (ground (arith, b)) d.0,
                ) in
                rw (a, b) (go j y (z ∷ ys) at u d ∙ ap ok (same_below j (y ∷ z ∷ ys) u))
            | inr b ↦
                let w = passes_inside y (ground (arith, a)) (ground (arith, b)) in
                elim (Bool-cases (not_trusted unprotected y)) [
                  | inl t ↦ rw (w, a, b, t, at.1.0) ih
                  | inr t ↦ rw (w, a, b, t) refl
                ]
          ]
        ]

    -- The first block, whose search does not look out for numbers above it.
    pub search_first_lem :
        (j : ℕ) (y : AcktrAckEntry) (ys : List AcktrAckEntry)
        → AtRing acks j (y ∷ ys)
        → IsFalling (y ∷ ys)
        → Under (largest + 1) (y ∷ ys)
        → (search_first unprotected smallest largest (length ys) j y acks
            >>= search_blks unprotected smallest blks acks)
          ≡ ok (find (wanted unprotected in_either) j (y ∷ ys))
    unfolding search_first wanted find search_blks
    search_first_lem j y [] at d top =
        elim (Bool-cases (leb smallest y.pkt_num && leb y.pkt_num largest)) [
          | inl a ↦
              let w = passes_inside y (ground (arith, a)) (ground (arith, a)) in
              elim (Bool-cases (not_trusted unprotected y)) [
                | inl t ↦ rw (w, a, t) refl
                | inr t ↦ rw (w, a, t) refl
              ]
          | inr a ↦
              let u : Under smallest (y ∷ []) = (ground (arith, a, top.0), tt) in
              rw a (go j y [] at u d ∙ ap ok (same_below j (y ∷ []) u))
        ]
    search_first_lem j y (z ∷ ys) at d top =
        let ih = search_first_lem (j + 1) z ys at.1 d.1 top.1 in
        elim (Bool-cases (leb smallest y.pkt_num && leb y.pkt_num largest)) [
          | inl a ↦
              let w = passes_inside y (ground (arith, a)) (ground (arith, a)) in
              elim (Bool-cases (not_trusted unprotected y)) [
                | inl t ↦ rw (w, a, t, at.1.0) ih
                | inr t ↦ rw (w, a, t) refl
              ]
          | inr a ↦
              let lt : y.pkt_num < smallest = ground (arith, a, top.0) in
              let u : Under smallest (y ∷ z ∷ ys) =
                (lt, Under-le y.pkt_num smallest (z ∷ ys) (omega (arith, lt)) d.0) in
              rw a (go j y (z ∷ ys) at u d ∙ ap ok (same_below j (y ∷ z ∷ ys) u))
        ]
