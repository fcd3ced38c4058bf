-- ===== src/Track/Map/Table.antt =====
-- The table of `ngtcp2_map` against the list of all its entries.
use native.Mathlib.Nat.{mod-lt}
use ngtcp.Base.{
  ◌==◌, if◌then◌else◌, Bool-cases, length, elem_at, set_elem, length-set_elem, elem_at-set_elem,
  elem_at-set_elem_other, elem_at_inside, elem_at_total, invalid_argument, ok, err, ◌>>=◌,
  bit_and-ones, ℕ, zero, suc, ◌+◌, ◌-◌, ◌%◌, ◌^◌, ◌<◌, ◌≡◌, refl, sym, ap, ◌∙◌, ◌≢◌, inl, inr,
  false, Option, none, some, List, [], ◌∷◌, ◌++◌, append_assoc, arith,
}
use ngtcp.Conv.{put_uint64be}
use ngtcp.Track.Map.{MapEntry, fnv, hash, lookup, is_none, insert_entry}
use ngtcp.Track.Ringbuf.Mask.{pow_small}

pub hash-lt : (k key : ℕ) → k < 32 → hash key (2 ^ k) < 2 ^ k
unfolding hash
hash-lt k key lt =
    let b = pow_small k lt in
    let e : (2 ^ k + 4294967296 - 1) % 4294967296 ≡ 2 ^ k - 1 = omega (arith, b) in
    rw (e, bit_and-ones k (fnv (put_uint64be key) 0x811c9dc5))
      (mod-lt (fnv (put_uint64be key) 0x811c9dc5) (omega (arith, b.0)))

module _ {A : Type 0} where
  abbrev pub flatten : List (List (MapEntry A)) → List (MapEntry A)
  flatten [] = []
  flatten (c ∷ table) = c ++ flatten table

  -- The keys are different.
  abbrev pub IsDistinct : List (MapEntry A) → Type 0
  IsDistinct [] = Unit {0}
  IsDistinct (e ∷ es) = (lookup e.key es ≡ none) × IsDistinct es

  abbrev pub or_else : Option (MapEntry A) → Option (MapEntry A) → Option (MapEntry A)
  or_else none y = y
  or_else (some x) y = some x

  pub lookup-append :
      (key : ℕ) (xs ys : List (MapEntry A))
      → lookup key (xs ++ ys) ≡ or_else (lookup key xs) (lookup key ys)
  unfolding lookup
  lookup-append key [] ys = refl
  lookup-append key (x ∷ xs) ys = elim (Bool-cases (x.key == key)) [
    | inl e ↦ rw e refl
    | inr e ↦ rw e (lookup-append key xs ys)
  ]

  pub or_else-none : (x y : Option (MapEntry A)) → or_else x y ≡ none → (x ≡ none) × (y ≡ none)
  or_else-none none y h = (refl, h)
  or_else-none (some x) y h = (h, absurd (ground arith))

  -- An entry with a key that is not before it.
  pub lookup-middle :
      (e : MapEntry A) (key : ℕ) (pre rest : List (MapEntry A))
      → lookup e.key pre ≡ none
      → lookup key (pre ++ (e ∷ rest)) ≡ (if e.key == key then some e else lookup key (pre ++ rest))
  unfolding lookup
  lookup-middle e key [] rest h = refl
  lookup-middle e key (x ∷ pre) rest h = elim (Bool-cases (x.key == e.key)) [
    | inl a ↦ absurd (ground (arith, h, a))
    | inr a ↦
        let ih = lookup-middle e key pre rest (ground (arith, h, a)) in
        elim (Bool-cases (x.key == key)) [
          | inl b ↦ let c : (e.key == key) ≡ false = ground (arith, a, b) in rw (b, c) refl
          | inr b ↦ rw (b, ih) refl
        ]
  ]

  IsDistinct-middle :
      (e : MapEntry A) (pre rest : List (MapEntry A))
      → IsDistinct (pre ++ rest)
      → lookup e.key (pre ++ rest) ≡ none
      → IsDistinct (pre ++ (e ∷ rest))
  unfolding lookup
  IsDistinct-middle e [] rest d h = (h, d)
  IsDistinct-middle e (x ∷ pre) rest d h = elim (Bool-cases (x.key == e.key)) [
    | inl a ↦ absurd (ground (arith, h, a))
    | inr a ↦
        let later : lookup e.key (pre ++ rest) ≡ none = ground (arith, h, a) in
        let before =
          or_else-none (lookup e.key pre) (lookup e.key rest)
            (sym (lookup-append e.key pre rest) ∙ later) in
        let b : (e.key == x.key) ≡ false = ground (arith, a) in
        (lookup-middle e x.key pre rest before.0 ∙ rw b d.0, IsDistinct-middle e pre rest d.1 later)
  ]

  -- A chain, and what is before and behind it.
  pub chain_split :
      (i : ℕ) (c : List (MapEntry A)) (table : List (List (MapEntry A)))
      → elem_at i table ≡ ok c
      → (pre : List (MapEntry A)) × (post : List (MapEntry A)) × (flatten table
          ≡ pre ++ (c ++ post))
        × ((c' : List (MapEntry A)) → flatten (set_elem i c' table) ≡ pre ++ (c' ++ post))
  chain_split i c [] h = absurd (ground arith)
  chain_split zero c (x ∷ table) h =
      let e : x ≡ c = cc in ([], flatten table, rw e refl, λ c'. refl)
  chain_split (suc i) c (x ∷ table) h =
      let (pre, post, e, f) = chain_split i c table h in
      (
        x ++ pre,
        post,
        rw e (sym (append_assoc x pre (c ++ post))),
        λ c'. rw (f c') (sym (append_assoc x pre (c' ++ post))),
      )

  -- Every key is found where `hash` says, and no key twice.
  pub record IsTable (table : List (List (MapEntry A))) (tablelen : ℕ) : Type 0 where
    pub exponent : ℕ
    pub small : exponent < 32
    pub power : tablelen ≡ 2 ^ exponent
    pub slots : length table ≡ tablelen
    pub found :
        (key : ℕ)
        → (elem_at (hash key tablelen) table >>= λ c. ok (lookup key c))
          ≡ ok (lookup key (flatten table))
    pub distinct : IsDistinct (flatten table)

  pub chain_at :
      (table : List (List (MapEntry A))) (n key : ℕ)
      → IsTable table n
      → (c : List (MapEntry A)) × (elem_at (hash key n) table ≡ ok c)
        × (lookup key c ≡ lookup key (flatten table))
  chain_at table n key h =
      let lt : hash key n < length table = rw (h.slots, h.power) (hash-lt h.exponent key h.small) in
      let (c, at) = elem_at_total (hash key n) table lt in
      let same : ok (lookup key c) ≡ ok (lookup key (flatten table)) = rw at at (h.found key) in
      (c, at, cc)

  found_after :
      (table : List (List (MapEntry A))) (n : ℕ) (e : MapEntry A) (c : List (MapEntry A)) (key : ℕ)
      → IsTable table n
      → elem_at (hash e.key n) table ≡ ok c
      → (elem_at (hash key n) (set_elem (hash e.key n) (e ∷ c) table) >>= λ c. ok (lookup key c))
        ≡ ok (if e.key == key then some e else lookup key (flatten table))
  unfolding lookup
  found_after table n e c key h at = elim (Bool-cases (hash e.key n == hash key n)) [
    | inl a ↦
        let q : hash key n ≡ hash e.key n = ground (arith, a) in
        let there : ok (lookup key c) ≡ ok (lookup key (flatten table)) =
          rw (q, at) at (h.found key) in
        let same : lookup key c ≡ lookup key (flatten table) = cc in
        rw
          (
            q,
            elem_at-set_elem (hash e.key n) (e ∷ c) table
                (elem_at_inside (hash e.key n) c table at),
            same,
          )
          refl
    | inr a ↦
        let other : hash e.key n ≢ hash key n = λ q. ground (arith, a, q) in
        elim (Bool-cases (e.key == key)) [
          | inl b ↦ let q : e.key ≡ key = ground (arith, b) in absurd (other (ap (λ k. hash k n) q))
          | inr b ↦
              rw (b, elem_at-set_elem_other (hash e.key n) (hash key n) (e ∷ c) table other)
                (h.found key)
        ]
  ]

  pub insert_entry-IsTable :
      (table : List (List (MapEntry A))) (n : ℕ) (e : MapEntry A)
      → IsTable table n
      → lookup e.key (flatten table) ≡ none
      → (table' : List (List (MapEntry A))) × (insert_entry table n e ≡ ok table')
        × IsTable table' n
        × ((key : ℕ)
            → lookup key (flatten table')
              ≡ (if e.key == key then some e else lookup key (flatten table)))
  unfolding insert_entry is_none
  insert_entry-IsTable table n e h new =
      let i = hash e.key n in
      let (c, at, same) = chain_at table n e.key h in
      let (pre, post, flat, flat') = chain_split i c table at in
      let table' = set_elem i (e ∷ c) table in
      let lt = elem_at_inside i c table at in
      let absent : lookup e.key (pre ++ (c ++ post)) ≡ none = rw flat at new in
      let before =
        or_else-none (lookup e.key pre) (lookup e.key (c ++ post))
          (sym (lookup-append e.key pre (c ++ post)) ∙ absent) in
      let looks : (key : ℕ)
          → lookup key (flatten table')
            ≡ (if e.key == key then some e else lookup key (flatten table)) =
        λ key. rw (flat' (e ∷ c), flat) (lookup-middle e key pre (c ++ post) before.0) in
      (
        table',
        rw (at, same, new) refl,
        record {
          exponent = h.exponent;
          small = h.small;
          power = h.power;
          slots = length-set_elem i (e ∷ c) table ∙ h.slots;
          found = λ key. rw (looks key) (found_after table n e c key h at);
          distinct =
              rw (flat' (e ∷ c))
                (IsDistinct-middle e pre (c ++ post) (rw flat at h.distinct) absent);
        },
        looks,
      )

  pub insert_entry_present :
      (table : List (List (MapEntry A))) (n : ℕ) (e x : MapEntry A)
      → IsTable table n
      → lookup e.key (flatten table) ≡ some x
      → insert_entry table n e ≡ err invalid_argument
  unfolding insert_entry is_none
  insert_entry_present table n e x h old =
      let (c, at, same) = chain_at table n e.key h in rw (at, same, old) refl
