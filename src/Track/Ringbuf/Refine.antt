-- ===== src/Track/Ringbuf/Refine.antt =====
-- The ring against a list of bounded length.
use native.Mathlib.Nat.{mod-lt, mod-eq_of_lt}
use ngtcp.Base.{
  ltb, leb, ◌==◌, le→leb, Bool-cases, length, take, length-take, elem_at, set_elem, length-set_elem,
  elem_at-set_elem, elem_at-set_elem_other, elem_at-take, ok, fault, Ensures, ℕ, zero, suc, ◌+◌,
  ◌%◌, ◌^◌, ◌≤◌, ◌<◌, min, bit_and, ◌≡◌, refl, sym, ap, ◌∙◌, ◌⊎◌, inl, inr, true, Option, none,
  some, List, [], ◌∷◌, arith,
}
use ngtcp.Pkt.Cursor.{add_size}
use ngtcp.Track.Ringbuf.{
  Ringbuf, sub_size, popcount, allocated, ringbuf_init, ringbuf_push_front, ringbuf_resize,
  ringbuf_get, put_slot,
}
use ngtcp.Track.Ringbuf.Mask.{
  popcount-pow, popcount-one, pow_small, slot_lem, front_lem, behind_front, other_slot,
}

-- The slots are a power of two in number, and no more of them are in use.
pub record IsRing {ℓ} {A : Type ℓ} (rb : Ringbuf A) : Type 0 where
  pub exponent : ℕ
  pub small : exponent < 32
  pub power : rb.nmemb ≡ 2 ^ exponent
  pub slots : length rb.buf ≡ rb.nmemb
  pub fits : rb.len ≤ rb.nmemb

-- The ring holds the elements of a list, in the same order.
pub record Holds {ℓ} {A : Type ℓ} (rb : Ringbuf A) (xs : List A) : Type ℓ where
  pub ring : IsRing rb
  pub count : rb.len ≡ length xs
  pub at : (i : ℕ) → i < length xs → ringbuf_get rb i ≡ elem_at i xs

abbrev pub IsPower : ℕ → Type 0
IsPower n = (k : ℕ) × (k < 32) × (n ≡ 2 ^ k)

module _ {ℓ} {A : Type ℓ} where
  get_slot :
      (rb : Ringbuf A) (h : IsRing rb) (i : ℕ)
      → i < rb.len
      → ringbuf_get rb i ≡ elem_at ((rb.first + i) % rb.nmemb) rb.buf
  unfolding ringbuf_get
  get_slot rb h i lt =
      let e : ltb i rb.len ≡ true = ground arith in
      rw (h.power, e, slot_lem h.exponent h.small rb.first i) refl

  module _ (rb : Ringbuf A) (xs : List A) (h : Holds rb xs) where
    -- A ring that holds a list and is cut to at most its length holds that much of the list's
    -- beginning.
    pub ringbuf_resize-Holds :
        (len : ℕ)
        → len ≤ length xs
        → (rb' : Ringbuf A) × (ringbuf_resize rb len ≡ ok rb') × Holds rb' (take len xs)
    unfolding ringbuf_resize
    ringbuf_resize-Holds len le =
        let c = h.count in
        let e : leb len rb.nmemb ≡ true = le→leb len rb.nmemb (omega (arith, h.ring.fits, c)) in
        let rb' = record rb { len = len } in
        let ring' : IsRing rb' = record {
          exponent = h.ring.exponent;
          small = h.ring.small;
          power = h.ring.power;
          slots = h.ring.slots;
          fits = omega (arith, h.ring.fits, c);
        } in
        (
          rb',
          rw e refl,
          record {
            ring = ring';
            count = omega (arith, length-take len xs);
            at = λ i lt.
                let l = length-take len xs in
                get_slot rb' ring' i (omega (arith, lt, l))
                ∙ (sym (get_slot rb h.ring i (omega (arith, lt, l, c)))
                    ∙ (h.at i (omega (arith, lt, l))
                        ∙ sym (elem_at-take i len xs (omega (arith, lt, l)))));
          },
        )

    -- The slots after a push, counted from the slot that was filled.
    pushed_slot :
        (x : A) (first i : ℕ)
        → first ≡ (rb.first + 18446744073709551615) % rb.nmemb
        → first < rb.nmemb
        → i < min rb.nmemb (rb.len + 1)
        → elem_at ((first + i) % rb.nmemb) (set_elem first x rb.buf) ≡ elem_at i (x ∷ xs)
    pushed_slot x first zero e lt less =
        let sum : first + 0 ≡ first = omega arith in
        rw (sum, mod-eq_of_lt lt)
          (elem_at-set_elem first x rb.buf (omega (arith, lt, h.ring.slots)))
    pushed_slot x first (suc j) e lt less =
        let behind : (first + suc j) % rb.nmemb ≡ (rb.first + j) % rb.nmemb =
          rw (e, h.ring.power) (behind_front h.ring.exponent h.ring.small rb.first j) in
        elem_at-set_elem_other first ((first + suc j) % rb.nmemb) x rb.buf
          (other_slot rb.nmemb first j lt (omega (arith, less)))
        ∙ (ap (λ t. elem_at t rb.buf) behind
            ∙ (sym (get_slot rb h.ring j (omega (arith, less)))
                ∙ h.at j (omega (arith, less, h.count))))

    -- A push into a ring that holds a list, and the store through the pointer that it returns, put
    -- the element before the list; of more elements than the ring has slots the last one goes.
    pub ringbuf_push_front-Holds :
        (x : A)
        → (rb' : Ringbuf A) × (put_slot (ringbuf_push_front rb).1 x (ringbuf_push_front rb).0
            ≡ ok rb')
          × Holds rb' (take rb.nmemb (x ∷ xs))
          × (rb'.nmemb ≡ rb.nmemb)
    unfolding ringbuf_push_front put_slot
    ringbuf_push_front-Holds x =
        let k = h.ring.exponent in
        let small = h.ring.small in
        let c = h.count in
        let bound = pow_small k small in
        let p = h.ring.power in
        let first = (rb.first + 18446744073709551615) % 2 ^ k in
        let lt : first < rb.nmemb =
          rw p (mod-lt (rb.first + 18446744073709551615) (omega (arith, bound.0))) in
        let rb' = record rb {
          buf = set_elem first x rb.buf;
          first = first;
          len = min rb.nmemb (rb.len + 1);
        } in
        let len_eq : add_size rb.len 1 ≡ rb.len + 1 = omega (arith, h.ring.fits, p, bound.1) in
        let first_eq : bit_and (sub_size rb.first 1) (sub_size rb.nmemb 1) ≡ first =
          rw p (front_lem k small rb.first) in
        let inside : ltb first (length rb.buf) ≡ true = ground (arith, lt, h.ring.slots) in
        let ring' : IsRing rb' = record {
          exponent = k;
          small = small;
          power = p;
          slots = length-set_elem first x rb.buf ∙ h.ring.slots;
          fits = omega arith;
        } in
        let l = length-take rb.nmemb (x ∷ xs) in
        (
          rb',
          rw (first_eq, len_eq, inside) refl,
          record {
            ring = ring';
            count = omega (arith, l, c);
            at = λ i less.
                let less' : i < min rb.nmemb (rb.len + 1) = omega (arith, less, l, c) in
                get_slot rb' ring' i less'
                ∙ (pushed_slot x first i (rw p refl) lt less'
                    ∙ sym (elem_at-take i rb.nmemb (x ∷ xs) (omega (arith, less'))));
          },
          refl,
        )

allocated-Holds :
    {A : Type 0} (nmemb size : ℕ) (given : Option (List A))
    → ((buf : List A) → given ≡ some buf → length buf ≡ nmemb)
    → IsPower nmemb
    → Ensures (λ rb. Holds rb [] × (rb.nmemb ≡ nmemb)) (allocated nmemb size given)
unfolding allocated
allocated-Holds nmemb size none h is = tt
allocated-Holds nmemb size (some buf) h is = (
  record {
    ring = record {
      exponent = is.0;
      small = is.1;
      power = is.2;
      slots = h buf refl;
      fits = omega arith;
    };
    count = refl;
    at = λ i lt. absurd (omega (arith, lt));
  },
  refl,
)

-- For fewer than 2 ^ 32 elements the assertion of `ringbuf_init` holds exactly for the powers of
-- two. Then, if the allocator gives as many slots as it was asked for, the ring is empty and has
-- that many slots, or the answer is an error.
pub ringbuf_init-Holds :
    {A : Type 0} (malloc : ℕ → Option (List A)) (nmemb size : ℕ)
    → nmemb < 4294967296
    → ((buf : List A) → malloc nmemb ≡ some buf → length buf ≡ nmemb)
    → (IsPower nmemb
        × Ensures (λ rb. Holds rb [] × (rb.nmemb ≡ nmemb)) (ringbuf_init malloc nmemb size))
      ⊎ (¬ IsPower nmemb × (ringbuf_init malloc nmemb size ≡ fault))
unfolding ringbuf_init
ringbuf_init-Holds malloc nmemb size lt given =
    let word : nmemb % 4294967296 ≡ nmemb = omega (arith, lt) in
    elim (Bool-cases (popcount 32 nmemb == 1)) [
      | inl e ↦
          let is : IsPower nmemb = popcount-one 32 nmemb lt (ground (arith, e)) in
          inl (is, rw (word, e) (allocated-Holds nmemb size (malloc nmemb) given is))
      | inr e ↦
          let not_power : ¬ IsPower nmemb = λ p.
            let one : popcount 32 nmemb ≡ 1 = rw p.2 (popcount-pow 32 p.0 p.1) in
            ground (arith, e, one) in
          inr (not_power, rw (word, e) refl)
    ]
