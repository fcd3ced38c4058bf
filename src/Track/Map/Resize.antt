-- ===== src/Track/Map/Resize.antt =====
-- `resize` and the operations of `ngtcp2_map`.
use ngtcp.Base.{
  ◌==◌, if◌then◌else◌, Bool-cases, replicate, length-replicate, elem_at, ok, ◌>>=◌, bind_assoc,
  bind_same, ℕ, zero, suc, ◌^◌, ◌<◌, ◌≡◌, refl, sym, ◌∙◌, inl, inr, true, false, Option, none, some,
  List, [], ◌∷◌, ◌++◌, arith,
}
use ngtcp.Track.Map.{
  MapEntry, Map, hash, lookup, insert_entry, unchecked, move_chain, move_table, resize,
}
use ngtcp.Track.Map.Table.{hash-lt, flatten, IsDistinct, or_else, IsTable, insert_entry-IsTable}

module _ {A : Type 0} where
  abbrev empty_table : ℕ → List (List (MapEntry A))
  empty_table n = replicate n []

  empty_chain : (i n : ℕ) → i < n → elem_at i (empty_table n) ≡ ok []
  empty_chain i zero lt = absurd (omega (arith, lt))
  empty_chain zero (suc n) lt = refl
  empty_chain (suc i) (suc n) lt = empty_chain i n (omega (arith, lt))

  flatten-empty : (n : ℕ) → flatten (empty_table n) ≡ []
  flatten-empty zero = refl
  flatten-empty (suc n) = flatten-empty n

  pub empty_table-IsTable : (k : ℕ) → k < 32 → IsTable (empty_table (2 ^ k)) (2 ^ k)
  unfolding lookup
  empty_table-IsTable k lt = record {
    exponent = k;
    small = lt;
    power = refl;
    slots = length-replicate (2 ^ k) [];
    found = λ key.
        rw (empty_chain (hash key (2 ^ k)) (2 ^ k) (hash-lt k key lt), flatten-empty (2 ^ k)) refl;
    distinct = rw (flatten-empty (2 ^ k)) tt;
  }

  move_chain-append :
      (n : ℕ) (xs ys : List (MapEntry A)) (t : List (List (MapEntry A)))
      → move_chain n (xs ++ ys) t ≡ (move_chain n xs t >>= move_chain n ys)
  unfolding move_chain
  move_chain-append n [] ys t = refl
  move_chain-append n (x ∷ xs) ys t =
      let u = unchecked t (insert_entry t n x) in
      bind_same u (move_chain n (xs ++ ys)) (λ t. move_chain n xs t >>= move_chain n ys)
        (λ t. move_chain-append n xs ys t)
      ∙ bind_assoc u (move_chain n xs) (move_chain n ys)

  move_table_lem :
      (n : ℕ) (table t : List (List (MapEntry A)))
      → move_table n table t ≡ move_chain n (flatten table) t
  unfolding move_table move_chain
  move_table_lem n [] t = refl
  move_table_lem n (c ∷ table) t =
      bind_same (move_chain n c t) (move_table n table) (move_chain n (flatten table))
        (λ t. move_table_lem n table t)
      ∙ sym (move_chain-append n c (flatten table) t)

  -- No key of the entries is in the table.
  abbrev Fresh : List (MapEntry A) → List (MapEntry A) → Type 0
  Fresh [] old = Unit {0}
  Fresh (e ∷ es) old = (lookup e.key old ≡ none) × Fresh es old

  Fresh-nil : (es : List (MapEntry A)) → Fresh es []
  unfolding lookup
  Fresh-nil [] = tt
  Fresh-nil (e ∷ es) = (refl, Fresh-nil es)

  Fresh-insert :
      (e : MapEntry A) (es old new : List (MapEntry A))
      → lookup e.key es ≡ none
      → Fresh es old
      → ((key : ℕ) → lookup key new ≡ (if e.key == key then some e else lookup key old))
      → Fresh es new
  unfolding lookup
  Fresh-insert e [] old new h f looks = tt
  Fresh-insert e (x ∷ es) old new h f looks = elim (Bool-cases (x.key == e.key)) [
    | inl a ↦ absurd (ground (arith, h, a))
    | inr a ↦
        let b : (e.key == x.key) ≡ false = ground (arith, a) in
        (looks x.key ∙ rw b f.0, Fresh-insert e es old new (ground (arith, h, a)) f.1 looks)
  ]

  move_chain-IsTable :
      (n : ℕ) (es : List (MapEntry A)) (t : List (List (MapEntry A)))
      → IsDistinct es
      → Fresh es (flatten t)
      → IsTable t n
      → (t' : List (List (MapEntry A))) × (move_chain n es t ≡ ok t')
        × IsTable t' n
        × ((key : ℕ) → lookup key (flatten t') ≡ or_else (lookup key es) (lookup key (flatten t)))
  unfolding move_chain lookup unchecked
  move_chain-IsTable n [] t d f h = (t, refl, h, λ key. refl)
  move_chain-IsTable n (e ∷ es) t d f h =
      let (t1, done, h1, looks) = insert_entry-IsTable t n e h f.0 in
      let (t2, rest, h2, found) =
        move_chain-IsTable n es t1 d.1 (Fresh-insert e es (flatten t) (flatten t1) d.0 f.1 looks)
          h1 in
      (
        t2,
        rw done rest,
        h2,
        λ key. found key ∙ elim (Bool-cases (e.key == key)) [
          | inl a ↦
              let q : e.key ≡ key = ground (arith, a) in
              let gone : lookup key es ≡ none = rw q at d.0 in rw (looks key, a, gone) refl
          | inr a ↦ rw (looks key, a) refl
        ],
      )

  or_else-end : (x : Option (MapEntry A)) → or_else x none ≡ x
  or_else-end none = refl
  or_else-end (some x) = refl

  -- `resize` keeps the entries that are found.
  pub resize_lem :
      (map : Map A) (n k : ℕ)
      → IsTable map.table n
      → k < 32
      → (map' : Map A) × (resize true map (2 ^ k) ≡ ok map')
        × IsTable map'.table map'.tablelen
        × (map'.size ≡ map.size)
        × ((key : ℕ) → lookup key (flatten map'.table) ≡ lookup key (flatten map.table))
  unfolding resize lookup
  resize_lem map n k h lt =
      let es = flatten map.table in
      let empty = flatten-empty (2 ^ k) in
      let (t, done, h', found) =
        move_chain-IsTable (2 ^ k) es (empty_table (2 ^ k)) h.distinct (rw empty (Fresh-nil es))
          (empty_table-IsTable k lt) in
      (
        record map { table = t; tablelen = 2 ^ k },
        rw (move_table_lem (2 ^ k) map.table (empty_table (2 ^ k)), done) refl,
        h',
        refl,
        λ key. found key ∙ rw empty (or_else-end (lookup key es)),
      )
