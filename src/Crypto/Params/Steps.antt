-- ===== src/Crypto/Params/Steps.antt =====
-- `ngtcp2_decode_transport_params` reads a parameter that `ngtcp2_encode_transport_params` put.
use Prim.Native.Nat.{ℕ}
use ngtcp.Base.{
  leb, ◌==◌, if◌then◌else◌, le→leb, length, length-append, drop-append, take-append, Result, ok,
  zero, suc, ◌+◌, ◌≤◌, ◌<◌, ◌≡◌, refl, sym, ap, ◌∙◌, ◌⊎◌, Bool, true, false, ◌&&◌, ◌||◌, List, [],
  ◌∷◌, ◌++◌, append_assoc, arith,
}
use ngtcp.Conv.{peek, put_uint16be, put_uint24be, put_uint32be}
use ngtcp.Conv.RoundTrip.{get_uint16-put_uint16be, get_uint32-put_uint32be, length-put_uint16be}
use ngtcp.Crypto.Params.Flags.{test_flag-set_flag}
use ngtcp.Crypto.Params.{UnicastIp, TransportParams, encrypted_extensions, new_session_ticket}
use ngtcp.Crypto.Params.Decode.{
  set_flag, test_flag, value_of, store_word, Loop, decode_word, decode_idle_timeout,
  decode_omit_connection_id, decode_max_packet_size, decode_stateless_reset_token, get_ip,
  decode_server_unicast_ip, decode_ack_delay_exponent, decode_param, decode_params,
}
use ngtcp.Crypto.Params.Encode.{put_param, put_ip}

-- The loop, begun with `s` and with any bound that is large enough, ends in `r`.
abbrev pub Loops : ℕ → Loop → Result Loop → Type 0
Loops exttype s r = (fuel : ℕ) → length s.2 ≤ fuel → decode_params fuel exttype s ≡ r

-- What the loop carries after an optional parameter.
unfoldable pub flag_if : Bool → ℕ → ℕ → ℕ
flag_if b type flags = if b then set_flag type flags else flags

pub test_flag-flag_if :
    (b : Bool) (i j flags : ℕ)
    → test_flag j (flag_if b i flags) ≡ ((b && (j == i)) || test_flag j flags)
unfolding flag_if
test_flag-flag_if true i j flags = test_flag-set_flag i j flags
test_flag-flag_if false i j flags = refl

pub length-put_param :
    (type len : ℕ) (value : List ℕ) → length (put_param type len value) ≡ 4 + length value
unfolding put_param put_uint16be
length-put_param type len value = omega arith

pub length-put_uint16be-append :
    (n : ℕ) (rest : List ℕ) → length (put_uint16be n ++ rest) ≡ 2 + length rest
length-put_uint16be-append n rest =
    omega (arith, length-append (put_uint16be n) rest, length-put_uint16be n)

value_of-put :
    (len : ℕ) (value rest : List ℕ)
    → len < 65536
    → length value ≡ len
    → value_of len (put_uint16be len ++ (value ++ rest)) ≡ ok (value ++ rest)
unfolding value_of
value_of-put len value rest lt e =
    rw
      (
        get_uint16-put_uint16be len (value ++ rest) lt,
        drop-append 2 (put_uint16be len) (value ++ rest) (sym (length-put_uint16be len)),
      )
      (ground (arith, length-append value rest))

pub length-put_uint32be : (n : ℕ) → length (put_uint32be n) ≡ 4
unfolding put_uint32be put_uint24be put_uint16be
length-put_uint32be n = refl

pub length-put_ip : (ip : UnicastIp) → length (put_ip ip) ≡ 16
unfolding put_ip put_uint32be put_uint24be put_uint16be
length-put_ip ip = refl

pub get_ip-put_ip :
    (ip : UnicastIp) (rest : List ℕ)
    → (ip.ip0 < 4294967296) × (ip.ip1 < 4294967296) × (ip.ip2 < 4294967296) × (ip.ip3 < 4294967296)
    → get_ip (put_ip ip ++ rest) ≡ ok ip
unfolding get_ip put_ip put_uint32be put_uint24be put_uint16be
get_ip-put_ip ip rest lt =
    rw
      (
        get_uint32-put_uint32be ip.ip0 _ lt.0,
        get_uint32-put_uint32be ip.ip1 _ lt.1,
        get_uint32-put_uint32be ip.ip2 _ lt.2,
        get_uint32-put_uint32be ip.ip3 _ lt.3,
      )
      refl

module _ (exttype : ℕ) where
  -- A round of the loop.
  round :
      (type len : ℕ) (params : TransportParams) (flags : ℕ) (value rest : List ℕ) (s : Loop)
      (r : Result Loop)
      → type < 65536
      → decode_param exttype type (params, flags, put_uint16be len ++ (value ++ rest)) ≡ ok s
      → length s.2 ≡ length rest
      → Loops exttype s r
      → Loops exttype (params, flags, put_param type len value ++ rest) r
  unfolding decode_params put_param
  round type len params flags value rest s r lt e l k zero le = absurd (
      omega (arith, length-append (put_param type len value) rest, length-put_param type len value))
  round type len params flags value rest s r lt e l k (suc fuel) le =
      let p = put_uint16be type ++ (put_uint16be len ++ (value ++ rest)) in
      let at : put_param type len value ++ rest ≡ p =
        append_assoc (put_uint16be type) (put_uint16be len ++ value) rest
        ∙ ap (λ t. put_uint16be type ++ t) (append_assoc (put_uint16be len) value rest) in
      let behind = length-put_uint16be-append len (value ++ rest) in
      let long : leb 4 (length p) ≡ true = le→leb 4 (length p) (
        omega
          (arith, behind, length-put_uint16be-append type (put_uint16be len ++ (value ++ rest)))) in
      rw
        (
          at,
          long,
          get_uint16-put_uint16be type (put_uint16be len ++ (value ++ rest)) lt,
          drop-append 2 (put_uint16be type) (put_uint16be len ++ (value ++ rest))
              (sym (length-put_uint16be type)),
          e,
        )
        (k fuel (
          omega (
            arith,
            l,
            length-append (put_param type len value) rest,
            length-put_param type len value,
          )))

  module _ (params : TransportParams) (flags : ℕ) (rest : List ℕ) (r : Result Loop) where
    pub word_round :
        (type v : ℕ) (after : TransportParams)
        → (type ≡ 0) ⊎ (type ≡ 1) ⊎ (type ≡ 2) ⊎ (type ≡ 8)
        → v < 4294967296
        → store_word exttype type v params ≡ ok after
        → Loops exttype (after, set_flag type flags, rest) r
        → Loops exttype (params, flags, put_param type 4 (put_uint32be v) ++ rest) r
    unfolding decode_param decode_word
    word_round type v after known lt e k =
        let w = put_uint32be v in
        let dec : decode_word exttype type (params, flags, put_uint16be 4 ++ (w ++ rest))
            ≡ ok (after, set_flag type flags, rest) =
          rw
            (
              value_of-put 4 w rest (omega arith) (length-put_uint32be v),
              get_uint32-put_uint32be v rest lt,
              e,
              drop-append 4 w rest (sym (length-put_uint32be v)),
            )
            refl in
        round type 4 params flags w rest (after, set_flag type flags, rest) r (ground arith)
          (ground (arith, dec)) refl k

    pub idle_timeout_round :
        (v : ℕ)
        → v < 65536
        → Loops exttype (record params { idle_timeout = v }, set_flag 3 flags, rest) r
        → Loops exttype (params, flags, put_param 3 2 (put_uint16be v) ++ rest) r
    unfolding decode_param decode_idle_timeout
    idle_timeout_round v lt k =
        round 3 2 params flags (put_uint16be v) rest _ r (omega arith)
          (rw
            (
              value_of-put 2 (put_uint16be v) rest (omega arith) (length-put_uint16be v),
              get_uint16-put_uint16be v rest lt,
              drop-append 2 (put_uint16be v) rest (sym (length-put_uint16be v)),
            )
            refl)
          refl k

    pub max_packet_size_round :
        (v : ℕ)
        → v < 65536
        → Loops exttype (record params { max_packet_size = v }, set_flag 5 flags, rest) r
        → Loops exttype (params, flags, put_param 5 2 (put_uint16be v) ++ rest) r
    unfolding decode_param decode_max_packet_size
    max_packet_size_round v lt k =
        round 5 2 params flags (put_uint16be v) rest _ r (omega arith)
          (rw
            (
              value_of-put 2 (put_uint16be v) rest (omega arith) (length-put_uint16be v),
              get_uint16-put_uint16be v rest lt,
              drop-append 2 (put_uint16be v) rest (sym (length-put_uint16be v)),
            )
            refl)
          refl k

    pub omit_connection_id_round :
        Loops exttype (record params { omit_connection_id = 1 }, set_flag 4 flags, rest) r
        → Loops exttype (params, flags, put_param 4 0 [] ++ rest) r
    unfolding decode_param decode_omit_connection_id
    omit_connection_id_round k =
        round 4 0 params flags [] rest _ r (omega arith)
          (rw (value_of-put 0 [] rest (omega arith) refl) refl) refl k

    pub stateless_reset_token_round :
        (token : List ℕ)
        → length token ≡ 16
        → (exttype == encrypted_extensions || exttype == new_session_ticket) ≡ true
        → Loops exttype (record params { stateless_reset_token = token }, set_flag 6 flags, rest) r
        → Loops exttype (params, flags, put_param 6 16 token ++ rest) r
    unfolding decode_param decode_stateless_reset_token
    stateless_reset_token_round token l side k =
        round 6 16 params flags token rest _ r (omega arith)
          (rw
            (
              side,
              value_of-put 16 token rest (omega arith) l,
              take-append 16 token rest (sym l),
              drop-append 16 token rest (sym l),
            )
            refl)
          refl k

    pub ack_delay_exponent_round :
        (v : ℕ)
        → v ≤ 20
        → Loops exttype (record params { ack_delay_exponent = v }, set_flag 7 flags, rest) r
        → Loops exttype (params, flags, put_param 7 1 (v ∷ []) ++ rest) r
    unfolding decode_param decode_ack_delay_exponent peek
    ack_delay_exponent_round v le k =
        round 7 1 params flags (v ∷ []) rest _ r (omega arith)
          (rw (value_of-put 1 (v ∷ []) rest (omega arith) refl, le→leb v 20 le) refl) refl k

    pub server_unicast_ip_round :
        (ip : UnicastIp)
        → (ip.ip0 < 4294967296)
          × (ip.ip1 < 4294967296)
          × (ip.ip2 < 4294967296)
          × (ip.ip3 < 4294967296)
        → Loops exttype (record params { server_unicast_ip = ip }, set_flag 9 flags, rest) r
        → Loops exttype (params, flags, put_param 9 16 (put_ip ip) ++ rest) r
    unfolding decode_param decode_server_unicast_ip
    server_unicast_ip_round ip lt k =
        round 9 16 params flags (put_ip ip) rest _ r (omega arith)
          (rw
            (
              value_of-put 16 (put_ip ip) rest (omega arith) (length-put_ip ip),
              get_ip-put_ip ip rest lt,
              drop-append 16 (put_ip ip) rest (sym (length-put_ip ip)),
            )
            refl)
          refl k
