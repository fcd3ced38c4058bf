-- ===== src/Track/Map/Laws.antt =====
-- The operations of `ngtcp2_map` by what `ngtcp2_map_find` answers.
use native.Mathlib.Nat.{pow-suc}
use ngtcp.Base.{
  ltb, ◌==◌, if◌then◌else◌, Bool-cases, replicate, invalid_argument, nomem, Result, ok, err,
  Ensures, ℕ, suc, ◌+◌, ◌*◌, ◌%◌, ◌^◌, ◌<◌, ◌≡◌, refl, sym, ap, ◌∙◌, inl, inr, Bool, true, false,
  Option, none, some, [], map, arith,
}
use ngtcp.Pkt.Cursor.{add_size}
use ngtcp.Track.Map.{
  MapEntry, Map, lookup, resize, map_init, put_table, put_entry, map_insert, map_find,
}
use ngtcp.Track.Map.Table.{flatten, IsTable, insert_entry-IsTable, insert_entry_present}
use ngtcp.Track.Map.Resize.{empty_table-IsTable, resize_lem}

smaller : (k : ℕ) → k < 32 → 2 ^ k < 2147483648 → k < 31
smaller k lt small = elim (Bool-cases (k == 31)) [
  | inl e ↦
      let q : k ≡ 31 = ground (arith, e) in
      let s : 2 ^ 31 < 2147483648 = rw q at small in absurd (omega (arith, s))
  | inr e ↦ ground (arith, e, lt)
]

module _ {A : Type 0} where
  pub find_lem :
      (map : Map A) (key : ℕ)
      → IsTable map.table map.tablelen
      → map_find map key ≡ ok (lookup key (flatten map.table))
  unfolding map_find
  find_lem map key h = h.found key

  -- The table in which the new entry is looked for.
  grow :
      (map : Map A) (full : Bool)
      → IsTable map.table map.tablelen
      → map.tablelen < 2147483648
      → (map' : Map A) × ((if full then resize true map (map.tablelen * 2 % 4294967296) else ok map)
          ≡ ok map')
        × IsTable map'.table map'.tablelen
        × (map'.size ≡ map.size)
        × ((key : ℕ) → lookup key (flatten map'.table) ≡ lookup key (flatten map.table))
  grow map false h lt = (map, refl, h, refl, λ key. refl)
  grow map true h lt =
      let k = h.exponent in
      let small : 2 ^ k < 2147483648 = rw h.power at lt in
      let next = smaller k h.small small in
      let twice : map.tablelen * 2 % 4294967296 ≡ 2 ^ suc k =
        omega (arith, lt, h.power, pow-suc 2 k) in
      let (map', done, h', size, found) =
        resize_lem map map.tablelen (suc k) h (omega (arith, next)) in
      (map', rw twice done, h', size, found)

  pub ok-if :
      (b : Bool) (x y : Option (MapEntry A))
      → ◌≡◌ {A = Result (Option (MapEntry A))} (ok (if b then x else y)) (if b then ok x else ok y)
  ok-if true x y = refl
  ok-if false x y = refl

  -- An entry with a new key is inserted, also if the table has to grow for it; then it is found by
  -- its key, and by any other key what was found before. The table has fewer than 2 ^ 31 chains, and
  -- the allocation of a larger one succeeds.
  pub map_insert-IsTable :
      (map : Map A) (entry : MapEntry A)
      → IsTable map.table map.tablelen
      → map.tablelen < 2147483648
      → map_find map entry.key ≡ ok none
      → (map' : Map A) × (map_insert true map entry ≡ (map', ok tt))
        × IsTable map'.table map'.tablelen
        × (map'.size ≡ add_size map.size 1)
        × ((key : ℕ)
            → map_find map' key ≡ (if entry.key == key then ok (some entry) else map_find map key))
  unfolding map_insert put_entry put_table
  map_insert-IsTable map entry h lt new =
      let full = ltb (map.tablelen * 3 % 4294967296) ((map.size + 1) * 4 % 18446744073709551616) in
      let (map1, grown, h1, size, same) = grow map full h lt in
      let absent : ok (lookup entry.key (flatten map.table)) ≡ ok none =
        sym (find_lem map entry.key h) ∙ new in
      let gone : lookup entry.key (flatten map1.table) ≡ none = same entry.key ∙ cc in
      let (table, done, h2, looks) = insert_entry-IsTable map1.table map1.tablelen entry h1 gone in
      let map' = record map1 { table = table; size = add_size map1.size 1 } in
      (
        map',
        rw (grown, done) refl,
        h2,
        ap (λ t. add_size t 1) size,
        λ key.
            find_lem map' key h2
            ∙ rw (looks key, same key, find_lem map key h)
                (ok-if (entry.key == key) (some entry) (lookup key (flatten map.table))),
      )

  -- A key that is there is refused with INVALID_ARGUMENT, and every key is found as before, also if
  -- the table has grown; it has fewer than 2 ^ 31 chains, and the allocation of a larger one succeeds.
  pub map_insert_present :
      (map : Map A) (entry x : MapEntry A)
      → IsTable map.table map.tablelen
      → map.tablelen < 2147483648
      → map_find map entry.key ≡ ok (some x)
      → (map' : Map A) × (map_insert true map entry ≡ (map', err invalid_argument))
        × IsTable map'.table map'.tablelen
        × (map'.size ≡ map.size)
        × ((key : ℕ) → map_find map' key ≡ map_find map key)
  unfolding map_insert put_entry put_table
  map_insert_present map entry x h lt old =
      let full = ltb (map.tablelen * 3 % 4294967296) ((map.size + 1) * 4 % 18446744073709551616) in
      let (map1, grown, h1, size, same) = grow map full h lt in
      let there : ok (lookup entry.key (flatten map.table)) ≡ ok (some x) =
        sym (find_lem map entry.key h) ∙ old in
      let kept : lookup entry.key (flatten map1.table) ≡ some x = same entry.key ∙ cc in
      let refused = insert_entry_present map1.table map1.tablelen entry x h1 kept in
      (
        map1,
        rw (grown, refused) refl,
        h1,
        size,
        λ key. find_lem map1 key h1 ∙ rw (same key, find_lem map key h) refl,
      )

  -- If the allocation succeeds, the map begins as a table of 256 chains in which no key is found;
  -- if it does not, the answer is NOMEM.
  pub map_init-IsTable :
      (allocated : Bool)
      → (map_init {A = A} allocated ≡ (
          if allocated
          then ok (record { table = replicate 256 []; size = 0; tablelen = 256 })
          else err nomem))
        × Ensures
            (λ (map : Map A).
              IsTable map.table map.tablelen × ((key : ℕ) → map_find map key ≡ ok none))
            (map_init allocated)
  unfolding map_init map_find lookup
  map_init-IsTable true =
      let h : IsTable (replicate 256 []) 256 = empty_table-IsTable 8 (omega arith) in
      (refl, (h, λ key. h.found key))
  map_init-IsTable false = (refl, tt)
