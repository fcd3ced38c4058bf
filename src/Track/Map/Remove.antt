-- ===== src/Track/Map/Remove.antt =====
-- `ngtcp2_map_remove` by what `ngtcp2_map_find` answers.
use ngtcp.Track.Ringbuf.{sub_size}
use ngtcp.Track.Map.Laws.{find_lem, ok-if}
use ngtcp.Base.{
  ◌==◌, if◌then◌else◌, Bool-cases, elem_at, set_elem, length-set_elem, elem_at-set_elem,
  elem_at-set_elem_other, elem_at_inside, ok, ◌>>=◌, ℕ, ◌≡◌, refl, sym, ap, ◌∙◌, ◌≢◌, inl, inr,
  false, none, some, List, [], ◌∷◌, ◌++◌, map, arith,
}
use ngtcp.Track.Map.{MapEntry, Map, hash, lookup, is_none, map_find, without, map_remove}
use ngtcp.Track.Map.Table.{
  flatten, IsDistinct, lookup-append, or_else-none, chain_split, IsTable, chain_at,
}

module _ {A : Type 0} where
  lookup-without :
      (k key : ℕ) (es : List (MapEntry A))
      → IsDistinct es
      → lookup key (without k es) ≡ (if k == key then none else lookup key es)
  unfolding lookup without
  lookup-without k key [] d = elim (Bool-cases (k == key)) [ inl a ↦ rw a refl | inr a ↦ rw a refl ]
  lookup-without k key (x ∷ es) d =
      let ih = lookup-without k key es d.1 in
      elim (Bool-cases (x.key == k)) [
        | inl a ↦
            let q : x.key ≡ k = ground (arith, a) in
            let gone : lookup k es ≡ none = rw q at d.0 in
            elim (Bool-cases (k == key)) [
              | inl b ↦ let r : k ≡ key = ground (arith, b) in rw (a, b) (rw r at gone)
              | inr b ↦ let c : (x.key == key) ≡ false = ground (arith, a, b) in rw (a, b, c) refl
            ]
        | inr a ↦ elim (Bool-cases (x.key == key)) [
          | inl b ↦ let c : (k == key) ≡ false = ground (arith, a, b) in rw (a, b, c) refl
          | inr b ↦ rw (a, b) ih
        ]
      ]

  without-IsDistinct : (k : ℕ) (es : List (MapEntry A)) → IsDistinct es → IsDistinct (without k es)
  unfolding without
  without-IsDistinct k [] d = tt
  without-IsDistinct k (x ∷ es) d = elim (Bool-cases (x.key == k)) [
    | inl a ↦ rw a d.1
    | inr a ↦
        let b : (k == x.key) ≡ false = ground (arith, a) in
        let gone : lookup x.key (without k es) ≡ none = lookup-without k x.key es d.1 ∙ rw b d.0 in
        rw a (gone, without-IsDistinct k es d.1)
  ]

  right-IsDistinct : (xs ys : List (MapEntry A)) → IsDistinct (xs ++ ys) → IsDistinct ys
  right-IsDistinct [] ys d = d
  right-IsDistinct (x ∷ xs) ys d = right-IsDistinct xs ys d.1

  left-IsDistinct : (xs ys : List (MapEntry A)) → IsDistinct (xs ++ ys) → IsDistinct xs
  left-IsDistinct [] ys d = tt
  left-IsDistinct (x ∷ xs) ys d = (
    (or_else-none (lookup x.key xs) (lookup x.key ys) (sym (lookup-append x.key xs ys) ∙ d.0)).0,
    left-IsDistinct xs ys d.1,
  )

  not_before :
      (k : ℕ) (x : MapEntry A) (pre ys : List (MapEntry A))
      → IsDistinct (pre ++ ys)
      → lookup k ys ≡ some x
      → lookup k pre ≡ none
  unfolding lookup
  not_before k x [] ys d h = refl
  not_before k x (e ∷ pre) ys d h = elim (Bool-cases (e.key == k)) [
    | inl a ↦
        let q : e.key ≡ k = ground (arith, a) in
        let gone : lookup e.key ys ≡ none =
          (or_else-none (lookup e.key pre) (lookup e.key ys)
            (sym (lookup-append e.key pre ys) ∙ d.0)).1 in
        let gone' : lookup k ys ≡ none = rw q at gone in absurd (ground (arith, h, gone'))
    | inr a ↦ rw a (not_before k x pre ys d.1 h)
  ]

  without-append :
      (k : ℕ) (x : MapEntry A) (c post : List (MapEntry A))
      → lookup k c ≡ some x
      → without k (c ++ post) ≡ without k c ++ post
  unfolding lookup without
  without-append k x [] post h = absurd (ground arith)
  without-append k x (e ∷ c) post h = elim (Bool-cases (e.key == k)) [
    | inl a ↦ rw a refl
    | inr a ↦
        let h' : lookup k c ≡ some x = rw a at h in
        rw a (ap (λ t. e ∷ t) (without-append k x c post h'))
  ]

  without-middle :
      (k : ℕ) (x : MapEntry A) (pre c post : List (MapEntry A))
      → lookup k pre ≡ none
      → lookup k c ≡ some x
      → without k (pre ++ (c ++ post)) ≡ pre ++ (without k c ++ post)
  unfolding lookup without
  without-middle k x [] c post h some_x = without-append k x c post some_x
  without-middle k x (e ∷ pre) c post h some_x = elim (Bool-cases (e.key == k)) [
    | inl a ↦ absurd (ground (arith, h, a))
    | inr a ↦
        let h' : lookup k pre ≡ none = rw a at h in
        rw a (ap (λ t. e ∷ t) (without-middle k x pre c post h' some_x))
  ]

  found_without :
      (table : List (List (MapEntry A))) (n k : ℕ) (c : List (MapEntry A)) (key : ℕ)
      → IsTable table n
      → elem_at (hash k n) table ≡ ok c
      → IsDistinct c
      → (elem_at (hash key n) (set_elem (hash k n) (without k c) table) >>= λ c. ok (lookup key c))
        ≡ ok (if k == key then none else lookup key (flatten table))
  found_without table n k c key h at d = elim (Bool-cases (hash k n == hash key n)) [
    | inl a ↦
        let q : hash key n ≡ hash k n = ground (arith, a) in
        let there : ok (lookup key c) ≡ ok (lookup key (flatten table)) =
          rw (q, at) at (h.found key) in
        let same : lookup key c ≡ lookup key (flatten table) = cc in
        rw
          (
            q,
            elem_at-set_elem (hash k n) (without k c) table (elem_at_inside (hash k n) c table at),
            lookup-without k key c d,
            same,
          )
          refl
    | inr a ↦
        let other : hash k n ≢ hash key n = λ q. ground (arith, a, q) in
        elim (Bool-cases (k == key)) [
          | inl b ↦ let q : k ≡ key = ground (arith, b) in absurd (other (ap (λ t. hash t n) q))
          | inr b ↦
              rw (b, elem_at-set_elem_other (hash k n) (hash key n) (without k c) table other)
                (h.found key)
        ]
  ]

  -- A key that is there is removed: then it is not found, and any other key as before.
  pub map_remove-IsTable :
      (map : Map A) (k : ℕ) (x : MapEntry A)
      → IsTable map.table map.tablelen
      → map_find map k ≡ ok (some x)
      → (map' : Map A) × (map_remove map k ≡ ok map')
        × IsTable map'.table map'.tablelen
        × (map'.size ≡ sub_size map.size 1)
        × ((key : ℕ) → map_find map' key ≡ (if k == key then ok none else map_find map key))
  unfolding map_remove is_none
  map_remove-IsTable map k x h old =
      let n = map.tablelen in
      let i = hash k n in
      let (c, at, same) = chain_at map.table n k h in
      let (pre, post, flat, flat') = chain_split i c map.table at in
      let there : ok (lookup k (flatten map.table)) ≡ ok (some x) = sym (find_lem map k h) ∙ old in
      let known : lookup k (flatten map.table) ≡ some x = cc in
      let here : lookup k c ≡ some x = same ∙ known in
      let d : IsDistinct (pre ++ (c ++ post)) = rw flat at h.distinct in
      let d' = right-IsDistinct pre (c ++ post) d in
      let dc = left-IsDistinct c post d' in
      let both : lookup k (c ++ post) ≡ some x = lookup-append k c post ∙ rw here refl in
      let before = not_before k x pre (c ++ post) d both in
      let left : flatten (set_elem i (without k c) map.table) ≡ without k (flatten map.table) =
        flat' (without k c)
        ∙ (sym (without-middle k x pre c post before here) ∙ ap (without k) (sym flat)) in
      let table' = set_elem i (without k c) map.table in
      let map' = record map { table = table'; size = sub_size map.size 1 } in
      let looks : (key : ℕ)
          → lookup key (flatten table')
            ≡ (if k == key then none else lookup key (flatten map.table)) =
        λ key. rw left (lookup-without k key (flatten map.table) h.distinct) in
      let ok' : IsTable table' n = record {
        exponent = h.exponent;
        small = h.small;
        power = h.power;
        slots = length-set_elem i (without k c) map.table ∙ h.slots;
        found = λ key. rw (looks key) (found_without map.table n k c key h at dc);
        distinct = rw left (without-IsDistinct k (flatten map.table) h.distinct);
      } in
      (
        map',
        rw (at, here) refl,
        ok',
        refl,
        λ key.
            find_lem map' key ok'
            ∙ rw (looks key, find_lem map key h)
                (ok-if (k == key) none (lookup key (flatten map.table))),
      )
