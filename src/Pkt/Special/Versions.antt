-- ===== src/Pkt/Special/Versions.antt =====
-- What is written into a Version Negotiation packet is read back.
use ngtcp.Base.{
  leb, ◌==◌, if◌then◌else◌, length, drop, nobuf, ok, err, bit_and-bit_or-0x80, ℕ, zero, suc, ◌+◌,
  ◌*◌, ◌/◌, ◌%◌, ◌^◌, ◌≤◌, ◌<◌, bit_and, bit_or, ◌≡◌, refl, true, ◌||◌, List, [], ◌∷◌, ◌++◌, arith,
}
use ngtcp.Conv.{
  peek, get_be, get_uint32, put_uint16be, put_uint24be, put_uint32be, put_uint48be, put_uint64be,
}
use ngtcp.Conv.RoundTrip.{get_uint32-put_uint32be, get_uint64-put_uint64be}
use ngtcp.Pkt.Cursor.{has_bit}
use ngtcp.Pkt.Hd.{PktHd, pkt_hd_init, long_type, decode_hd_long, decode_hd}
use ngtcp.Pkt.RoundTrip.Step.{encoded_if}
use ngtcp.Pkt.Special.{
  put_versions, write_version_negotiation, get_versions, decode_version_negotiation,
}

-- Every element fits 32 bits.
abbrev pub AreVersions : List ℕ → Type 0
AreVersions [] = Unit {0}
AreVersions (v ∷ sv) = (v < 2 ^ 32) × AreVersions sv

length-put_versions : (sv : List ℕ) → length (put_versions sv) ≡ length sv * 4
unfolding put_versions put_uint32be put_uint24be put_uint16be
length-put_versions [] = refl
length-put_versions (v ∷ sv) = omega (arith, length-put_versions sv)

get_versions-put_versions :
    (n : ℕ) (sv : List ℕ)
    → length sv ≤ n
    → AreVersions sv
    → get_versions n (put_versions sv) ≡ ok sv
unfolding get_versions put_versions put_uint32be put_uint24be put_uint16be
get_versions-put_versions n [] h k = refl
get_versions-put_versions zero (v ∷ sv) h k = absurd (omega arith)
get_versions-put_versions (suc n) (v ∷ sv) h k = ground (
  arith,
  get_uint32-put_uint32be v (put_versions sv) k.0,
  get_versions-put_versions n sv (omega arith) k.1,
)

decode_version_negotiation-put_versions :
    (sv : List ℕ)
    → AreVersions sv
    → decode_version_negotiation (put_versions sv) ≡ ok (sv, length sv)
unfolding decode_version_negotiation
decode_version_negotiation-put_versions sv h =
    rw (length-put_versions sv)
      (ground (arith, get_versions-put_versions (length sv * 4) sv (omega arith) h))

version_negotiation_bytes : ℕ → ℕ → List ℕ → List ℕ
version_negotiation_bytes unused_random conn_id sv =
    bit_or 0x80 unused_random ∷ (put_uint64be conn_id ++ (put_uint32be 0 ++ put_versions sv))

length-version_negotiation_bytes :
    (unused_random conn_id : ℕ) (sv : List ℕ)
    → length (version_negotiation_bytes unused_random conn_id sv) ≡ 13 + length sv * 4
unfolding version_negotiation_bytes put_uint64be put_uint48be put_uint32be put_uint24be put_uint16be
length-version_negotiation_bytes unused_random conn_id sv = omega (arith, length-put_versions sv)

drop-version_negotiation_bytes :
    (unused_random conn_id : ℕ) (sv : List ℕ)
    → drop 13 (version_negotiation_bytes unused_random conn_id sv) ≡ put_versions sv
unfolding version_negotiation_bytes put_uint64be put_uint48be put_uint32be put_uint24be put_uint16be
drop-version_negotiation_bytes unused_random conn_id sv = refl

long_form : (r : ℕ) → r < 256 → has_bit (bit_or 0x80 r) 0x80 ≡ true
unfolding has_bit
long_form r h = rw (bit_and-bit_or-0x80 r h) refl

long_type-zero :
    (type : ℕ)
    → long_type type 0
      ≡ ok (if type == 0x7f || type == 0x7e || type == 0x7d || type == 0x7c then type else 0)
unfolding long_type
long_type-zero type = ground arith

decode_hd_written :
    (r conn_id v : ℕ) (sv : List ℕ)
    → r < 256
    → conn_id < 2 ^ 64
    → v < 2 ^ 32
    → (hd : PktHd) × (decode_hd (version_negotiation_bytes r conn_id (v ∷ sv)) ≡ ok (hd, 17))
      × (hd.version ≡ 0)
      × (hd.conn_id ≡ conn_id)
unfolding decode_hd decode_hd_long version_negotiation_bytes peek put_versions put_uint64be
    put_uint48be put_uint32be put_uint24be put_uint16be pkt_hd_init
decode_hd_written r conn_id v sv hr hc hv =
    let type = bit_and (bit_or 0x80 r) 0x7f in
    let rest = put_uint32be v ++ put_versions sv in
    (
      pkt_hd_init 0x01
          (if type == 0x7f || type == 0x7e || type == 0x7d || type == 0x7c then type else 0) conn_id
          v 0,
      ground (
        arith,
        long_form r hr,
        long_type-zero type,
        get_uint64-put_uint64be conn_id (put_uint32be 0 ++ rest) hc,
        get_uint32-put_uint32be 0 rest (omega arith),
        get_uint32-put_uint32be v (put_versions sv) hv,
      ),
      refl,
      refl,
    )

-- For versions `v ∷ sv` below 2 ^ 32, a connection ID below 2 ^ 64 and any random byte there are
-- bytes that `write_version_negotiation` writes if the buffer holds them, and it answers
-- NGTCP2_ERR_NOBUF if not; `decode_hd` reads a header of version 0 with that connection ID from
-- them, and `decode_version_negotiation` reads the same versions, and their number, from what is 13
-- bytes behind the start.
pub decode_version_negotiation-write_version_negotiation :
    (r conn_id v : ℕ) (sv : List ℕ)
    → r < 256
    → conn_id < 2 ^ 64
    → AreVersions (v ∷ sv)
    → (out : List ℕ) × ((destlen : ℕ)
        → write_version_negotiation destlen r conn_id (v ∷ sv)
          ≡ (if leb (length out) destlen then ok out else err nobuf))
      × ((hd : PktHd) × (decode_hd out ≡ ok (hd, 17)) × (hd.version ≡ 0) × (hd.conn_id ≡ conn_id))
      × (decode_version_negotiation (drop 13 out) ≡ ok (v ∷ sv, suc (length sv)))
unfolding write_version_negotiation version_negotiation_bytes
decode_version_negotiation-write_version_negotiation r conn_id v sv hr hc hv = (
  version_negotiation_bytes r conn_id (v ∷ sv),
  λ destlen.
      encoded_if destlen _ (version_negotiation_bytes r conn_id (v ∷ sv))
        (length-version_negotiation_bytes r conn_id (v ∷ sv)),
  decode_hd_written r conn_id v sv hr hc hv.0,
  rw (drop-version_negotiation_bytes r conn_id (v ∷ sv))
      (decode_version_negotiation-put_versions (v ∷ sv) hv),
)

get_versions_total :
    (n : ℕ) (p : List ℕ)
    → length p ≤ n
    → length p % 4 ≡ 0
    → (sv : List ℕ) × (get_versions n p ≡ ok sv) × (length sv * 4 ≡ length p)
unfolding get_versions get_uint32 get_be
get_versions_total n [] h k = ([], refl, refl)
get_versions_total zero (a ∷ p) h k = absurd (omega arith)
get_versions_total (suc n) (a ∷ []) h k = absurd (omega arith)
get_versions_total (suc n) (a ∷ b ∷ []) h k = absurd (omega arith)
get_versions_total (suc n) (a ∷ b ∷ c ∷ []) h k = absurd (omega arith)
get_versions_total (suc n) (a ∷ b ∷ c ∷ d ∷ p) h k =
    let (sv, e, l) = get_versions_total n p (omega arith) (omega arith) in
    let v = (((0 * 256 + a) * 256 + b) * 256 + c) * 256 + d in (v ∷ sv, rw e refl, omega arith)

counted :
    (payload sv : List ℕ)
    → length payload % 4 ≡ 0
    → get_versions (length payload) payload ≡ ok sv
    → length sv * 4 ≡ length payload
    → decode_version_negotiation payload ≡ ok (sv, length sv)
unfolding decode_version_negotiation
counted payload sv h e l =
    let quarter : length payload / 4 ≡ length sv = omega arith in rw (h, e, quarter) refl

-- On any payload whose length is a multiple of 4, `decode_version_negotiation` reads nothing behind
-- the payload and returns the number of the versions that it stores, a quarter of that length.
pub decode_version_negotiation_total :
    (payload : List ℕ)
    → length payload % 4 ≡ 0
    → (sv : List ℕ) × (decode_version_negotiation payload ≡ ok (sv, length sv))
      × (length sv * 4 ≡ length payload)
decode_version_negotiation_total payload h =
    let (sv, e, l) = get_versions_total (length payload) payload (omega arith) h in
    (sv, counted payload sv h e l, l)
