-- ===== src/Pkt/Safety/AckBlocks.antt =====
-- The decoder of ACK frames stays inside the payload.
use ngtcp.Base.{
  length, ok, Ensures, ℕ, zero, suc, ◌+◌, ◌-◌, ◌*◌, ◌^◌, ◌≤◌, ◌<◌, min, ◌≡◌, refl, List, [], ◌∷◌,
  arith,
}
use ngtcp.Conv.Read.{
  IsBytes, drop-IsBytes, vlen, varint_value, next, vlen_bounds, get_varint_len_lem, get_varint_lem,
  varint_value_lt,
}
use ngtcp.Pkt.Frame.{AckBlk}
use ngtcp.Pkt.Decode.Data.{
  skip_blks, take_blks, pass_varint, pass_blks, max_ack_blks, scan_ack_frame, read_ack_frame,
  decode_ack_frame,
}
use ngtcp.Pkt.Safety.Step.{
  length-next, skip_varint_lem, take_varint_lem, varint_at, InPayload, decoded_safe, Ensures-bind,
  check_bind, skip_bind,
}

pass_varint_lem : (p : List ℕ) → 0 < length p → pass_varint p ≡ ok (next p)
unfolding pass_varint
pass_varint_lem p h = rw (get_varint_len_lem p h)

-- What follows `k` pairs of varints, and that these lie inside the payload.
abbrev blks_end : ℕ → List ℕ → List ℕ
blks_end zero p = p
blks_end (suc k) p = blks_end k (next (next p))

abbrev Readable : ℕ → List ℕ → Type 0
Readable zero p = Unit {0}
Readable (suc k) p =
    (vlen p ≤ length p) × (vlen (next p) ≤ length (next p)) × Readable k (next (next p))

-- The loop over the ACK blocks keeps `len` the count of the bytes passed and still due.
skip_blks_safe :
    (k payloadlen len : ℕ) (p : List ℕ)
    → len + length p ≡ payloadlen + 2 * k
    → len ≤ payloadlen
    → Ensures
        (λ (r : ℕ × List ℕ).
          (r.1 ≡ blks_end k p) × (r.0 + length (blks_end k p) ≡ payloadlen) × Readable k p)
        (skip_blks k payloadlen len p)
unfolding skip_blks
skip_blks_safe zero payloadlen len p e h = (refl, omega arith, tt)
skip_blks_safe (suc k) payloadlen len p e h =
    let len' = len + vlen p - 1 in
    ground (
      arith,
      skip_varint_lem payloadlen len p,
      skip_varint_lem payloadlen len' (next p),
      varint_at p,
      varint_at (next p),
      skip_blks_safe k payloadlen (len' + vlen (next p) - 1) (next (next p)),
    )

take_blks_lem :
    (k m n : ℕ) (p : List ℕ)
    → n ≡ k + m
    → Readable n p
    → (blks : List AckBlk) × (take_blks k p ≡ ok (blks, blks_end k p))
      × Readable m (blks_end k p)
      × (blks_end m (blks_end k p) ≡ blks_end n p)
unfolding take_blks
take_blks_lem zero m n p e h = let e' : n ≡ m = omega arith in ([], refl, rw e' at h, rw e')
take_blks_lem (suc k) m zero p e h = absurd (omega arith)
take_blks_lem (suc k) m (suc n) p e h =
    let (blks, run, rest, end) = take_blks_lem k m n (next (next p)) (omega arith) h.2 in
    (
      record { gap = varint_value p; blklen = varint_value (next p) } ∷ blks,
      rw (take_varint_lem p h.0, take_varint_lem (next p) h.1, run),
      rest,
      end,
    )

pass_blks_lem : (k : ℕ) (p : List ℕ) → Readable k p → pass_blks k p ≡ ok (blks_end k p)
unfolding pass_blks
pass_blks_lem zero p h = refl
pass_blks_lem (suc k) p h = ground (
  arith,
  pass_varint_lem p,
  pass_varint_lem (next p),
  vlen_bounds p,
  vlen_bounds (next p),
  pass_blks_lem k (next (next p)),
)

length-blks_end : (k : ℕ) (p : List ℕ) → length (blks_end k p) ≤ length p
length-blks_end zero p = omega arith
length-blks_end (suc k) p =
    omega (arith, length-blks_end k (next (next p)), length-next p, length-next (next p))

-- The places of the fields behind the type: the largest number, the delay, the count, the first
-- block's length, the blocks.
record Scanned (p : List ℕ) (num_blks len : ℕ) : Type 0 where
  count : num_blks ≡ varint_value (next (next p))
  largest : vlen p ≤ length p
  delay : vlen (next p) ≤ length (next p)
  counted : vlen (next (next p)) ≤ length (next (next p))
  first : vlen (next (next (next p))) ≤ length (next (next (next p)))
  blocks : Readable num_blks (next (next (next (next p))))
  span : len + length (blks_end num_blks (next (next (next (next p))))) ≡ suc (length p)
  some_bytes : 0 < len

scan_ack_frame_safe :
    (t : ℕ) (p : List ℕ)
    → IsBytes p
    → suc (length p) < 2 ^ 63
    → Ensures (λ (r : ℕ × ℕ). Scanned p r.0 r.1) (scan_ack_frame (t ∷ p))
unfolding scan_ack_frame
scan_ack_frame_safe t p h small =
    let p1 = next p in
    let p2 = next p1 in
    let p3 = next p2 in
    let p4 = next p3 in
    let v0 = varint_at p in
    let v1 = varint_at p1 in
    let v2 = varint_at p2 in
    let v3 = varint_at p3 in
    let num = varint_value p2 in
    let bound = varint_value_lt p2 (drop-IsBytes (vlen p1) p1 (drop-IsBytes (vlen p) p h)) in
    let Q : ℕ × ℕ → Type 0 = λ r. Scanned p r.0 r.1 in
    let n = suc (length p) in
    check_bind Q n 5 _ (λ c0. skip_bind Q n 5 p _ (omega arith) (λ c1.
      skip_bind Q n _ p1 _ (omega arith) (λ c2. skip_bind Q n _ p2 _ (omega arith) (λ c3.
        rw (get_varint_lem p2 (omega arith)) (
          check_bind Q n _ _ (λ c4. skip_bind Q n _ p3 _ (omega arith) (λ c5.
            Ensures-bind Q _ (skip_blks num n _ p4) _
              (skip_blks_safe num n _ p4 (omega arith) (omega arith))
              (λ r b. record {
                count = refl;
                largest = omega arith;
                delay = omega arith;
                counted = omega arith;
                first = omega arith;
                blocks = b.2;
                span = b.1;
                some_bytes = omega (arith, length-blks_end num p4);
              }))))))))

read_ack_frame_safe :
    (t : ℕ) (p : List ℕ) (num_blks len : ℕ)
    → Scanned p num_blks len
    → InPayload (t ∷ p) (read_ack_frame num_blks len (t ∷ p))
unfolding read_ack_frame
read_ack_frame_safe t p num_blks len s =
    let p3 = next (next (next p)) in
    let k = min max_ack_blks num_blks in
    let (blks, run, rest, end) =
      take_blks_lem k (num_blks - k) num_blks (next p3) (omega arith) s.blocks in
    rw (take_varint_lem p s.largest, take_varint_lem (next p) s.delay)
      (rw (pass_varint_lem (next (next p)) (omega (arith, s.counted, vlen_bounds (next (next p)))))
        (rw (take_varint_lem p3 s.first, run, pass_blks_lem (num_blks - k) _ rest, end)
          (decoded_safe (t ∷ p) _ len _ s.some_bytes s.span)))

pub decode_ack_frame_safe :
    (t : ℕ) (p : List ℕ)
    → IsBytes p
    → suc (length p) < 2 ^ 63
    → InPayload (t ∷ p) (decode_ack_frame (t ∷ p))
unfolding decode_ack_frame
decode_ack_frame_safe t p h small =
    Ensures-bind _ _ (scan_ack_frame (t ∷ p)) _ (scan_ack_frame_safe t p h small)
      (λ r s. read_ack_frame_safe t p r.0 r.1 s)
