-- ===== src/Crypto/Tests.antt =====
-- Concrete runs of the transport parameters and the nonce, and the theorems at concrete inputs.
use ngtcp.Base.{
  leb, if◌then◌else◌, length, replicate, nobuf, ok, err, Ensures, ℕ, max, ◌≡◌, refl, ◌≢◌, inl, inr,
  true, List, [], ◌∷◌, arith,
}
use ngtcp.Pkt.Cursor.{has_bit}
use ngtcp.Conv.{
  get_be, get_uint32, get_uint16, put_uint16be, put_uint24be, put_uint32be, put_uint48be,
  put_uint64be,
}
use ngtcp.Crypto.Nonce.{xor_bytes, create_nonce, create_nonce_distinct}
use ngtcp.Crypto.Params.{TransportParams}
use ngtcp.Crypto.Params.Encode.{params_len, encode_transport_params}
use ngtcp.Crypto.Params.Decode.{
  valid_stream_id_bidi, set_flag, test_flag, value_of, store_word, decode_word, decode_idle_timeout,
  skip_param, decode_param, decode_params, decode_version, set_defaults, check_required,
  decode_transport_params,
}
use ngtcp.Crypto.Params.Checked.{SafeParams}
use ngtcp.Crypto.Params.Safety.{decode_transport_params_safe}
use ngtcp.Crypto.Params.Written.{IsSendable}
use ngtcp.Crypto.Params.RoundTrip.{restored, decode_transport_params-encode_transport_params}

abbrev token : List ℕ
token = replicate 16 7

-- What a server sends.
abbrev offer : TransportParams
offer = record {
  version = 0xff00000c;
  supported_versions = 0xff00000c ∷ 0x1a2a3a4a ∷ [];
  initial_max_stream_data = 262144;
  initial_max_data = 1048576;
  initial_max_stream_id_bidi = 400;
  initial_max_stream_id_uni = 0;
  idle_timeout = 30;
  omit_connection_id = 1;
  max_packet_size = 65527;
  stateless_reset_token = token;
  server_unicast_ip = record { ip0 = 0; ip1 = 0; ip2 = 0xffff; ip3 = 0x0a000001 };
  ack_delay_exponent = 5;
}

abbrev blank : TransportParams
blank = record {
  version = 0;
  supported_versions = [];
  initial_max_stream_data = 0;
  initial_max_data = 0;
  initial_max_stream_id_bidi = 0;
  initial_max_stream_id_uni = 0;
  idle_timeout = 0;
  omit_connection_id = 0;
  max_packet_size = 0;
  stateless_reset_token = [];
  server_unicast_ip = record { ip0 = 0; ip1 = 0; ip2 = 0; ip3 = 0 };
  ack_delay_exponent = 0;
}

bidi_run : valid_stream_id_bidi 400 1 ≡ ok true
unfolding valid_stream_id_bidi
bidi_run = refl

offer-IsSendable : IsSendable 1 offer
offer-IsSendable = record {
  type = omega arith;
  version = omega arith;
  words = omega arith;
  versions = omega arith;
  stream_data = omega arith;
  data_limit = omega arith;
  bidi_word = omega arith;
  bidi_valid = inr bidi_run;
  uni_word = omega arith;
  uni_valid = inl refl;
  timeout = omega arith;
  omit = omega arith;
  packet_size = omega arith;
  token = refl;
  ip = omega arith;
  exponent = omega arith;
}

decode_transport_params-encode_transport_params_example :
    (bytes : List ℕ) × (encode_transport_params 200 1 offer
      ≡ (if leb (params_len 1 offer) 200 then ok bytes else err nobuf))
    × (length bytes ≡ params_len 1 offer)
    × (decode_transport_params blank 1 bytes ≡ ok (restored 1 blank offer))
decode_transport_params-encode_transport_params_example =
    decode_transport_params-encode_transport_params 1 offer offer-IsSendable 200 blank

-- The parameters of a client, and then one of an unknown type.
abbrev hello : List ℕ
hello =
    0xff ∷ 0 ∷ 0 ∷ 0x0c ∷ 0 ∷ 27 ∷ 0 ∷ 0 ∷ 0 ∷ 4 ∷ 0 ∷ 4 ∷ 0 ∷ 0 ∷ 0 ∷ 1 ∷ 0 ∷ 4 ∷ 0 ∷ 16 ∷ 0 ∷ 0
    ∷ 0 ∷ 3 ∷ 0 ∷ 2 ∷ 0 ∷ 30 ∷ 0x1f ∷ 0x1f ∷ 0 ∷ 1 ∷ 9 ∷ []

decode_run :
    decode_transport_params blank 0 hello
    ≡ ok (record blank {
      version = 0xff00000c;
      initial_max_stream_data = 262144;
      initial_max_data = 1048576;
      idle_timeout = 30;
      max_packet_size = 65527;
      ack_delay_exponent = 3;
    })
unfolding decode_transport_params decode_version get_uint32 get_uint16 get_be decode_params
    decode_param decode_word store_word value_of decode_idle_timeout skip_param set_flag
    check_required set_defaults test_flag has_bit
decode_run = refl

decode_transport_params_safe_example :
    Ensures (SafeParams 0 (max 63 0)) (decode_transport_params blank 0 hello)
decode_transport_params_safe_example =
    decode_transport_params_safe blank 0 hello (omega arith) (omega arith)

abbrev iv : List ℕ
iv = 1 ∷ 2 ∷ 3 ∷ 4 ∷ 5 ∷ 6 ∷ 7 ∷ 8 ∷ 9 ∷ 10 ∷ 11 ∷ 12 ∷ []

create_nonce_run :
    create_nonce iv 0x0100 ≡ ok (1 ∷ 2 ∷ 3 ∷ 4 ∷ 5 ∷ 6 ∷ 7 ∷ 8 ∷ 9 ∷ 10 ∷ 10 ∷ 12 ∷ [])
unfolding create_nonce xor_bytes put_uint64be put_uint48be put_uint32be put_uint24be put_uint16be
create_nonce_run = refl

create_nonce_distinct_example :
    (x : List ℕ) × (y : List ℕ) × (create_nonce iv 1 ≡ ok x)
    × (create_nonce iv 2 ≡ ok y)
    × (length x ≡ length iv)
    × (length y ≡ length iv)
    × (x ≢ y)
create_nonce_distinct_example =
    create_nonce_distinct iv 1 2 (omega arith) (omega arith) (omega arith) (omega arith)
      (omega arith)
