-- ===== src/Track/Map.antt =====
-- lib/ngtcp2_map.c: the hash table of the streams. A chain of entries is a list, and `object` is the
-- object that an entry is part of; `next` of an entry that is to be inserted is NULL.
pub mod Table
pub mod Resize
pub mod Laws
pub mod Remove
mod Tests
use Prim.Native.Nat.{bit_xor}
use ngtcp.Base.{
  ltb, ◌==◌, if◌then◌else◌, replicate, elem_at, set_elem, invalid_argument, nomem, Result, ok, err,
  fault, ◌>>=◌, ◌>>◌, guard, ℕ, ◌+◌, ◌-◌, ◌*◌, ◌%◌, bit_and, Bool, true, false, not, Option, none,
  some, List, [], ◌∷◌, map,
}
use ngtcp.Conv.{put_uint64be}
use ngtcp.Pkt.Cursor.{add_size}
use ngtcp.Track.Ringbuf.{sub_size, allocated}

pub record MapEntry {ℓ} (A : Type ℓ) : Type ℓ where
  pub key : ℕ
  pub object : A

pub record Map {ℓ} (A : Type ℓ) : Type ℓ where
  pub table : List (List (MapEntry A))
  pub size : ℕ
  pub tablelen : ℕ

-- The loop of `hash` over the bytes of the key in network byte order, in numbers of 32 bits.
unfoldable pub fnv : List ℕ → ℕ → ℕ
fnv [] h = h
fnv (b ∷ p) h = fnv p (bit_xor h b * 0x01000193 % 4294967296)

unfoldable pub hash : ℕ → ℕ → ℕ
hash key modulus =
    bit_and (fnv (put_uint64be key) 0x811c9dc5) ((modulus + 4294967296 - 1) % 4294967296)

module _ {ℓ} {A : Type ℓ} where
  -- The entry with a key in a chain.
  unfoldable pub lookup : ℕ → List (MapEntry A) → Option (MapEntry A)
  lookup key [] = none
  lookup key (e ∷ es) = let rest = lookup key es in if e.key == key then some e else rest

  unfoldable pub is_none : Option (MapEntry A) → Bool
  is_none none = true
  is_none (some e) = false

  -- `insert`
  unfoldable pub insert_entry :
      List (List (MapEntry A)) → ℕ → MapEntry A → Result (List (List (MapEntry A)))
  insert_entry table tablelen entry = do
    chain ← elem_at (hash entry.key tablelen) table
    guard (is_none (lookup entry.key chain)) invalid_argument
    ok (set_elem (hash entry.key tablelen) (entry ∷ chain) table)

  -- A call of `insert` whose answer is not looked at.
  unfoldable pub unchecked :
      List (List (MapEntry A))
      → Result (List (List (MapEntry A)))
      → Result (List (List (MapEntry A)))
  unchecked table (ok table') = ok table'
  unchecked table (err e) = ok table
  unchecked table fault = fault

  -- The inner and the outer loop of `resize`.
  unfoldable pub move_chain :
      ℕ → List (MapEntry A) → List (List (MapEntry A)) → Result (List (List (MapEntry A)))
  move_chain tablelen [] new_table = ok new_table
  move_chain tablelen (e ∷ chain) new_table = do
    new_table ← unchecked new_table (insert_entry new_table tablelen e)
    move_chain tablelen chain new_table

  unfoldable pub move_table :
      ℕ → List (List (MapEntry A)) → List (List (MapEntry A)) → Result (List (List (MapEntry A)))
  move_table tablelen [] new_table = ok new_table
  move_table tablelen (chain ∷ table) new_table = do
    new_table ← move_chain tablelen chain new_table
    move_table tablelen table new_table

  -- `resize`; `allocated` says whether the allocation succeeds.
  unfoldable pub resize : Bool → Map A → ℕ → Result (Map A)
  resize allocated map new_tablelen = do
    guard allocated nomem
    table ← move_table new_tablelen map.table (replicate new_tablelen [])
    ok (record map { table = table; tablelen = new_tablelen })

  unfoldable pub map_init : Bool → Result (Map A)
  map_init allocated = do
    guard allocated nomem
    ok record { table = replicate 256 []; size = 0; tablelen = 256 }

  -- The table after `insert`, with the answer.
  unfoldable pub put_table : Map A → Result (List (List (MapEntry A))) → Map A × Result (Unit {0})
  put_table map (ok table) = (record map { table = table; size = add_size map.size 1 }, ok tt)
  put_table map (err e) = (map, err e)
  put_table map fault = (map, fault)

  -- What `ngtcp2_map_insert` does behind `resize`.
  unfoldable pub put_entry : Map A → MapEntry A → Result (Map A) → Map A × Result (Unit {0})
  put_entry map entry (ok map') = put_table map' (insert_entry map'.table map'.tablelen entry)
  put_entry map entry (err e) = (map, err e)
  put_entry map entry fault = (map, fault)

  unfoldable pub map_insert : Bool → Map A → MapEntry A → Map A × Result (Unit {0})
  map_insert allocated map entry =
      let full = ltb (map.tablelen * 3 % 4294967296) ((map.size + 1) * 4 % 18446744073709551616) in
      put_entry map entry
        (if full then resize allocated map (map.tablelen * 2 % 4294967296) else ok map)

  unfoldable pub map_find : Map A → ℕ → Result (Option (MapEntry A))
  map_find map key = do chain ← elem_at (hash key map.tablelen) map.table; ok (lookup key chain)

  -- The chain without the entry with a key.
  unfoldable pub without : ℕ → List (MapEntry A) → List (MapEntry A)
  without key [] = []
  without key (e ∷ es) = let rest = without key es in if e.key == key then es else e ∷ rest

  unfoldable pub map_remove : Map A → ℕ → Result (Map A)
  map_remove map key = do
    chain ← elem_at (hash key map.tablelen) map.table
    guard (not (is_none (lookup key chain))) invalid_argument
    ok (record map {
      table = set_elem (hash key map.tablelen) (without key chain) map.table;
      size = sub_size map.size 1;
    })

  unfoldable pub map_size : Map A → ℕ
  map_size map = map.size
