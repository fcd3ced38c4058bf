-- ===== src/Crypto/Params/Decode.antt =====
-- `ngtcp2_decode_transport_params`.
use ngtcp.Base.{
  leb, ◌==◌, if◌then◌else◌, length, take, drop, required_transport_param, malformed_transport_param,
  Result, ok, fault, ◌>>=◌, ◌>>◌, guard, ℕ, zero, suc, ◌+◌, ◌/◌, ◌%◌, ◌^◌, bit_and, bit_or, Bool,
  not, ◌&&◌, ◌||◌, List, [], ◌∷◌,
}
use ngtcp.Conv.{peek, get_uint32, get_uint16}
use ngtcp.Pkt.Cursor.{has_bit}
use ngtcp.Crypto.Params.{
  UnicastIp, TransportParams, client_hello, encrypted_extensions, new_session_ticket,
}

-- `if (!b) return NGTCP2_ERR_MALFORMED_TRANSPORT_PARAM;`
abbrev pub well_formed : Bool → Result (Unit {0})
well_formed b = guard b malformed_transport_param

-- The numbers of type `uint32_t` that begin at `p`, and what follows them.
unfoldable pub take_words : ℕ → List ℕ → Result (List ℕ × List ℕ)
take_words zero p = ok ([], p)
take_words (suc n) p = do v ← get_uint32 p; (sv, p) ← take_words n (drop 4 p); ok (v ∷ sv, p)

unfoldable pub valid_stream_id_bidi : ℕ → ℕ → Result Bool
valid_stream_id_bidi n exttype =
    if exttype == client_hello
    then ok (bit_and n 0x3 == 0x1)
    else if exttype == encrypted_extensions || exttype == new_session_ticket
    then ok (bit_and n 0x3 == 0x0)
    else fault

unfoldable pub valid_stream_id_uni : ℕ → ℕ → Result Bool
valid_stream_id_uni n exttype =
    if exttype == client_hello
    then ok (bit_and n 0x3 == 0x3)
    else if exttype == encrypted_extensions || exttype == new_session_ticket
    then ok (bit_and n 0x3 == 0x2)
    else fault

-- `flags |= 1u << type`
unfoldable pub set_flag : ℕ → ℕ → ℕ
set_flag type flags = bit_or flags (2 ^ type)

-- `flags & (1u << type)`, as a test
unfoldable pub test_flag : ℕ → ℕ → Bool
test_flag type flags = has_bit flags (2 ^ type)

-- The length of a value must be `len`, and so many bytes must follow it.
unfoldable pub value_of : ℕ → List ℕ → Result (List ℕ)
value_of len p = do
  n ← get_uint16 p
  well_formed (n == len)
  well_formed (leb len (length (drop 2 p)))
  ok (drop 2 p)

-- The inner `switch` on the four parameters that are numbers of type `uint32_t`.
unfoldable pub store_word : ℕ → ℕ → ℕ → TransportParams → Result TransportParams
store_word exttype type v params =
    if type == 0
    then ok (record params { initial_max_stream_data = v })
    else if type == 1
    then ok (record params { initial_max_data = v })
    else if type == 2
    then (do
      valid ← valid_stream_id_bidi v exttype
      well_formed valid
      ok (record params { initial_max_stream_id_bidi = v }))
    else (do
      valid ← valid_stream_id_uni v exttype
      well_formed valid
      ok (record params { initial_max_stream_id_uni = v }))

-- What the loop carries: the parameters, the flags, and the pointer.
abbrev pub Loop : Type 0
Loop = TransportParams × ℕ × List ℕ

unfoldable pub decode_word : ℕ → ℕ → Loop → Result Loop
decode_word exttype type (params, flags, p) = do
  p ← value_of 4 p
  v ← get_uint32 p
  params ← store_word exttype type v params
  ok (params, set_flag type flags, drop 4 p)

unfoldable pub decode_idle_timeout : Loop → Result Loop
decode_idle_timeout (params, flags, p) = do
  p ← value_of 2 p
  v ← get_uint16 p
  ok (record params { idle_timeout = v }, set_flag 3 flags, drop 2 p)

unfoldable pub decode_omit_connection_id : Loop → Result Loop
decode_omit_connection_id (params, flags, p) = do
  p ← value_of 0 p
  ok (record params { omit_connection_id = 1 }, set_flag 4 flags, p)

unfoldable pub decode_max_packet_size : Loop → Result Loop
decode_max_packet_size (params, flags, p) = do
  p ← value_of 2 p
  v ← get_uint16 p
  ok (record params { max_packet_size = v }, set_flag 5 flags, drop 2 p)

unfoldable pub decode_stateless_reset_token : ℕ → Loop → Result Loop
decode_stateless_reset_token exttype (params, flags, p) = do
  well_formed (exttype == encrypted_extensions || exttype == new_session_ticket)
  p ← value_of 16 p
  ok (record params { stateless_reset_token = take 16 p }, set_flag 6 flags, drop 16 p)

-- The four numbers at `p`.
unfoldable pub get_ip : List ℕ → Result UnicastIp
get_ip p = do
  v0 ← get_uint32 p
  v1 ← get_uint32 (drop 4 p)
  v2 ← get_uint32 (drop 8 p)
  v3 ← get_uint32 (drop 12 p)
  ok record { ip0 = v0; ip1 = v1; ip2 = v2; ip3 = v3 }

unfoldable pub decode_server_unicast_ip : Loop → Result Loop
decode_server_unicast_ip (params, flags, p) = do
  p ← value_of 16 p
  ip ← get_ip p
  ok (record params { server_unicast_ip = ip }, set_flag 9 flags, drop 16 p)

unfoldable pub decode_ack_delay_exponent : Loop → Result Loop
decode_ack_delay_exponent (params, flags, p) = do
  p ← value_of 1 p
  v ← peek p
  well_formed (leb v 20)
  ok (record params { ack_delay_exponent = v }, set_flag 7 flags, drop 1 p)

-- A parameter of another type is passed over.
unfoldable pub skip_param : Loop → Result Loop
skip_param (params, flags, p) = do
  valuelen ← get_uint16 p
  well_formed (leb valuelen (length (drop 2 p)))
  ok (params, flags, drop valuelen (drop 2 p))

-- The `switch` on the type of a parameter; `p` stands behind the type.
unfoldable pub decode_param : ℕ → ℕ → Loop → Result Loop
decode_param exttype type s =
    if type == 0 || type == 1 || type == 2 || type == 8
    then decode_word exttype type s
    else if type == 3
    then decode_idle_timeout s
    else if type == 4
    then decode_omit_connection_id s
    else if type == 5
    then decode_max_packet_size s
    else if type == 6
    then decode_stateless_reset_token exttype s
    else if type == 9
    then decode_server_unicast_ip s
    else if type == 7
    then decode_ack_delay_exponent s
    else skip_param s

-- The loop, which goes on while at least 4 bytes are left; `fuel` bounds its rounds.
unfoldable pub decode_params : ℕ → ℕ → Loop → Result Loop
decode_params zero exttype (params, flags, p) =
    if leb 4 (length p) then fault else ok (params, flags, p)
decode_params (suc fuel) exttype (params, flags, p) =
    if leb 4 (length p)
    then (do
      type ← get_uint16 p
      s ← decode_param exttype type (params, flags, drop 2 p)
      decode_params fuel exttype s)
    else ok (params, flags, p)

-- What stands before the list: the parameters with the versions, `vlen`, and the pointer.
unfoldable pub decode_version : ℕ → TransportParams → List ℕ → Result (TransportParams × ℕ × List ℕ)
decode_version exttype params p =
    if exttype == client_hello
    then (do
      well_formed (leb 4 (length p))
      v ← get_uint32 p
      ok (record params { version = v }, 4, drop 4 p))
    else if exttype == encrypted_extensions
    then (do
      well_formed (leb 5 (length p))
      v ← get_uint32 p
      len ← peek (drop 4 p)
      well_formed (leb len (length (drop 5 p)) && (len % 4 == 0))
      (sv, p) ← take_words (len / 4) (drop 5 p)
      ok (record params { version = v; supported_versions = sv }, 4 + 1 + len, p))
    else ok (params, 0, p)

-- The parameters that were not in the list get their default values.
unfoldable pub set_defaults : ℕ → TransportParams → TransportParams
set_defaults flags params = record params {
  initial_max_stream_id_bidi = if test_flag 2 flags then params.initial_max_stream_id_bidi else 0;
  initial_max_stream_id_uni = if test_flag 8 flags then params.initial_max_stream_id_uni else 0;
  omit_connection_id = if test_flag 4 flags then params.omit_connection_id else 0;
  max_packet_size = if test_flag 5 flags then params.max_packet_size else 65527;
  ack_delay_exponent = if test_flag 7 flags then params.ack_delay_exponent else 3;
}

-- The checks of the flags behind the loop: 0x0b is NGTCP2_REQUIRED_TRANSPORT_PARAMS.
unfoldable pub check_required : ℕ → ℕ → Result (Unit {0})
check_required exttype flags = do
  guard (bit_and flags 0x0b == 0x0b) required_transport_param
  guard
      (not (exttype == encrypted_extensions || exttype == new_session_ticket) || test_flag 6 flags)
      required_transport_param

unfoldable pub decode_transport_params : TransportParams → ℕ → List ℕ → Result TransportParams
decode_transport_params params exttype bytes = do
  (params, vlen, p) ← decode_version exttype params bytes
  well_formed (leb 2 (length p))
  n ← get_uint16 p
  well_formed (vlen + 2 + n == length bytes)
  (params, flags, p) ← decode_params (length bytes) exttype (params, 0, drop 2 p)
  well_formed (length p == 0)
  check_required exttype flags
  ok (set_defaults flags params)
