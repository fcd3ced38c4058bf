-- ===== src/Track/Map/Tests.antt =====
-- Concrete runs of the hash table, and the theorems at concrete inputs.
use ngtcp.Track.Map.Remove.{map_remove-IsTable}
use ngtcp.Track.Map.Laws.{map_insert-IsTable, map_insert_present}
use ngtcp.Base.{
  ◌==◌, if◌then◌else◌, invalid_argument, ok, err, ℕ, ◌≡◌, refl, true, none, some, [], ◌∷◌, arith,
}
use ngtcp.Conv.{put_uint16be, put_uint24be, put_uint32be, put_uint48be, put_uint64be}
use ngtcp.Track.Map.{
  MapEntry, Map, fnv, hash, lookup, is_none, insert_entry, unchecked, move_chain, move_table,
  resize, put_table, put_entry, map_insert, map_find, map_remove,
}
use ngtcp.Track.Map.Table.{hash-lt, IsTable}

-- A table with a single chain.
abbrev entry : MapEntry ℕ
entry = record { key = 4; object = 40 }

abbrev streams : Map ℕ
streams = record { table = (entry ∷ []) ∷ []; size = 1; tablelen = 1 }

streams-IsTable : IsTable streams.table 1
unfolding lookup
streams-IsTable = record {
  exponent = 0;
  small = omega arith;
  power = refl;
  slots = refl;
  found = λ key. let z : hash key 1 ≡ 0 = omega (arith, hash-lt 0 key (omega arith)) in rw z refl;
  distinct = (refl, tt);
}

find_run : map_find streams 4 ≡ ok (some entry)
unfolding map_find hash fnv put_uint64be put_uint48be put_uint32be put_uint24be put_uint16be lookup
find_run = refl

missing_run : map_find streams 8 ≡ ok none
unfolding map_find hash fnv put_uint64be put_uint48be put_uint32be put_uint24be put_uint16be lookup
missing_run = refl

abbrev fresh : MapEntry ℕ
fresh = record { key = 8; object = 80 }

-- The table grows to four chains in two steps.
insert_run : (map_insert true streams fresh).1 ≡ ok tt
unfolding map_insert resize move_table move_chain unchecked insert_entry is_none put_entry put_table
    hash fnv put_uint64be put_uint48be put_uint32be put_uint24be put_uint16be lookup
insert_run = refl

map_insert-IsTable_example :
    (map' : Map ℕ) × (map_insert true streams fresh ≡ (map', ok tt))
    × IsTable map'.table map'.tablelen
    × (map'.size ≡ 2)
    × ((key : ℕ) → map_find map' key ≡ (if 8 == key then ok (some fresh) else map_find streams key))
map_insert-IsTable_example =
    map_insert-IsTable streams fresh streams-IsTable (omega arith) missing_run

map_insert_present_example :
    (map' : Map ℕ) × (map_insert true streams entry ≡ (map', err invalid_argument))
    × IsTable map'.table map'.tablelen
    × (map'.size ≡ 1)
    × ((key : ℕ) → map_find map' key ≡ map_find streams key)
map_insert_present_example =
    map_insert_present streams entry entry streams-IsTable (omega arith) find_run

map_remove-IsTable_example :
    (map' : Map ℕ) × (map_remove streams 4 ≡ ok map')
    × IsTable map'.table map'.tablelen
    × (map'.size ≡ 0)
    × ((key : ℕ) → map_find map' key ≡ (if 4 == key then ok none else map_find streams key))
map_remove-IsTable_example = map_remove-IsTable streams 4 entry streams-IsTable find_run
