-- ===== src/Strm/Rob/Chunks.antt =====
-- The bytes that the chunks of the reorder buffer hold, and what `rob_write_data` does to them.
use native.Mathlib.Nat.{mul-le-mul_right, suc-mul}
use ngtcp.Base.{
  ltb, leb, if◌then◌else◌, le_cases, length, take, drop, get_elem?, replicate, ℕ, zero, suc, ◌+◌,
  ◌-◌, ◌*◌, ◌/◌, ◌≤◌, ◌<◌, ◌≡◌, refl, inl, inr, ◌&&◌, Option, none, some, List, [], ◌∷◌, ◌++◌, map,
  arith,
}
use ngtcp.Strm.Rob.{RobData}

-- The byte in a cell.
abbrev pub cell_at : List (Option ℕ) → ℕ → Option ℕ
cell_at [] i = none
cell_at (b ∷ cells) zero = b
cell_at (b ∷ cells) (suc i) = cell_at cells i

-- The byte at an offset.
unfoldable pub byte_at : List RobData → ℕ → Option ℕ
byte_at [] x = none
byte_at (d ∷ ds) x =
    let rest = byte_at ds x in
    if leb d.offset x && ltb x (d.offset + length d.cells)
    then cell_at d.cells (x - d.offset)
    else rest

-- The byte at `x` after `bytes` were written at `offset`, where it was `b`.
abbrev pub overlay : ℕ → List ℕ → ℕ → Option ℕ → Option ℕ
overlay offset bytes x b =
    if leb offset x && ltb x (offset + length bytes) then get_elem? bytes (x - offset) else b

-- The chunks have the same length and begin at multiples of it, in increasing order from `lo` on.
abbrev pub IsChunks : ℕ → ℕ → List RobData → Type 0
IsChunks chunk lo [] = Unit {0}
IsChunks chunk lo (d ∷ ds) =
    (lo ≤ d.offset)
    × ((k : ℕ) × (d.offset ≡ k * chunk))
    × (length d.cells ≡ chunk)
    × IsChunks chunk (d.offset + chunk) ds

pub IsChunks-weaken :
    (chunk lo lo' : ℕ) (ds : List RobData) → lo' ≤ lo → IsChunks chunk lo ds → IsChunks chunk lo' ds
IsChunks-weaken chunk lo lo' [] le h = tt
IsChunks-weaken chunk lo lo' (d ∷ ds) le h = (omega (arith, h.0), h.1, h.2, h.3)

pub byte_at_below :
    (chunk lo : ℕ) (ds : List RobData) (x : ℕ) → IsChunks chunk lo ds → x < lo → byte_at ds x ≡ none
unfolding byte_at
byte_at_below chunk lo [] x h lt = refl
byte_at_below chunk lo (d ∷ ds) x h lt =
    ground (arith, byte_at_below chunk (d.offset + chunk) ds x h.3)

copy_first :
    (bytes : List ℕ) (cells : List (Option ℕ)) (i : ℕ)
    → length bytes ≤ length cells
    → cell_at (map some bytes ++ drop (length bytes) cells) i ≡ overlay 0 bytes i (cell_at cells i)
copy_first [] cells i le = ground arith
copy_first (b ∷ bytes) [] i le = absurd (omega arith)
copy_first (b ∷ bytes) (c ∷ cells) zero le = ground arith
copy_first (b ∷ bytes) (c ∷ cells) (suc i) le = ground (arith, copy_first bytes cells i)

pub copy_cells :
    (at : ℕ) (bytes : List ℕ) (cells : List (Option ℕ)) (i : ℕ)
    → at + length bytes ≤ length cells
    → cell_at (take at cells ++ (map some bytes ++ drop (at + length bytes) cells)) i
      ≡ overlay at bytes i (cell_at cells i)
copy_cells zero bytes cells i le =
    let e : zero + length bytes ≡ length bytes = omega arith in
    rw e (ground (arith, copy_first bytes cells i))
copy_cells (suc at) bytes [] i le = absurd (omega arith)
copy_cells (suc at) bytes (c ∷ cells) zero le = ground arith
copy_cells (suc at) bytes (c ∷ cells) (suc i) le =
    let e : suc at + length bytes ≡ suc (at + length bytes) = omega arith in
    rw e (ground (arith, copy_cells at bytes cells i))

pub cell_at-replicate : (n i : ℕ) → cell_at (replicate n none) i ≡ none
cell_at-replicate zero i = refl
cell_at-replicate (suc n) zero = refl
cell_at-replicate (suc n) (suc i) = cell_at-replicate n i

pub get_elem?-take :
    (n i : ℕ) (bytes : List ℕ) → i < n → get_elem? (take n bytes) i ≡ get_elem? bytes i
get_elem?-take zero i bytes lt = absurd (omega arith)
get_elem?-take (suc n) i [] lt = refl
get_elem?-take (suc n) zero (b ∷ bytes) lt = refl
get_elem?-take (suc n) (suc i) (b ∷ bytes) lt = get_elem?-take n i bytes (omega arith)

pub get_elem?-drop :
    (n i : ℕ) (bytes : List ℕ) → get_elem? (drop n bytes) i ≡ get_elem? bytes (n + i)
get_elem?-drop zero i bytes = let e : zero + i ≡ i = omega arith in rw e refl
get_elem?-drop (suc n) i [] = refl
get_elem?-drop (suc n) i (b ∷ bytes) =
    let e : suc n + i ≡ suc (n + i) = omega arith in rw e (get_elem?-drop n i bytes)

module _ (chunk : ℕ) (pos : 0 < chunk) where
  pub floor_le : (o : ℕ) → o / chunk * chunk ≤ o
  floor_le o = omega arith

  pub floor_lt : (o : ℕ) → o < o / chunk * chunk + chunk
  floor_lt o = grind arith

  pub floor_above : (k a o : ℕ) → a ≡ k * chunk → a ≤ o → a ≤ o / chunk * chunk
  floor_above k a o e le = elim (le_cases k (o / chunk)) [
    | inl h ↦ omega (arith, mul-le-mul_right chunk h, e)
    | inr h ↦
        absurd (omega (arith, mul-le-mul_right chunk h, suc-mul (o / chunk) chunk, e, floor_lt o))
  ]

  pub floor_below : (k a o : ℕ) → a ≡ k * chunk → o < a → o / chunk * chunk + chunk ≤ a
  floor_below k a o e le = elim (le_cases k (o / chunk)) [
    | inl h ↦ absurd (omega (arith, mul-le-mul_right chunk h, e, floor_le o))
    | inr h ↦ omega (arith, mul-le-mul_right chunk h, suc-mul (o / chunk) chunk, e)
  ]
