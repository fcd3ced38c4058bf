-- ===== src/Crypto/Params/RoundTrip.antt =====
-- `ngtcp2_decode_transport_params` reads what `ngtcp2_encode_transport_params` writes.
use ngtcp.Conv.RoundTrip.{get_uint16-put_uint16be, length-put_uint16be}
use ngtcp.Conv.{put_uint16be}
use ngtcp.Crypto.Params.Bytes.{
  with_version, decode_version-put_version, length-put_params, params_len_le, params_bytes,
  length-params_bytes, encode_written,
}
use ngtcp.Crypto.Params.Flags.{required_set}
use ngtcp.Pkt.Cursor.{has_bit}
use ngtcp.Base.{
  leb, ◌==◌, if◌then◌else◌, le→leb, eq→==, length, drop-append, nobuf, ok, err, ℕ, ◌+◌, ◌-◌, ◌%◌,
  ◌≤◌, ◌<◌, ◌≡◌, refl, sym, ◌∙◌, true, not, ◌&&◌, ◌||◌, List, ◌++◌, arith,
}
use ngtcp.Crypto.Params.{TransportParams, encrypted_extensions, new_session_ticket}
use ngtcp.Crypto.Params.Decode.{
  set_flag, test_flag, decode_version, set_defaults, check_required, decode_transport_params,
}
use ngtcp.Crypto.Params.Encode.{
  version_len, has_unicast_ip, params_len, put_params, encode_transport_params,
}
use ngtcp.Crypto.Params.Steps.{test_flag-flag_if, length-put_uint16be-append}
use ngtcp.Crypto.Params.Written.{IsSendable, sends_token, received, seen_flags, put_params_read}

-- What a receiver that had `base` has afterwards: the versions and the token only if this kind of
-- message carries them, the addresses only if there are some.
pub restored : ℕ → TransportParams → TransportParams → TransportParams
restored exttype base params = record params {
  version = if exttype == new_session_ticket then base.version else params.version;
  supported_versions =
      if exttype == encrypted_extensions
      then params.supported_versions
      else base.supported_versions;
  stateless_reset_token =
      if sends_token exttype then params.stateless_reset_token else base.stateless_reset_token;
  server_unicast_ip =
      if has_unicast_ip params.server_unicast_ip
      then params.server_unicast_ip
      else base.server_unicast_ip;
}

default_kept :
    (v old default : ℕ)
    → ◌≡◌ {A = ℕ}
        (if not (v == default) then (if not (v == default) then v else old) else default)
        v
default_kept v old default = ground arith

omit_kept :
    (v old : ℕ)
    → v ≤ 1
    → ◌≡◌ {A = ℕ} (if not (v == 0) then (if not (v == 0) then 1 else old) else 0) v
omit_kept v old h = ground arith

module _ (exttype : ℕ) (params : TransportParams) (c : IsSendable exttype params) where
  flag_test :
      (j : ℕ)
      → test_flag j (seen_flags exttype params) ≡ (
          (not (params.ack_delay_exponent == 3) && (j == 7))
          || ((has_unicast_ip params.server_unicast_ip && (j == 9))
              || ((not (params.max_packet_size == 65527) && (j == 5))
                  || ((not (params.omit_connection_id == 0) && (j == 4))
                      || ((not (params.initial_max_stream_id_uni == 0) && (j == 8))
                          || ((not (params.initial_max_stream_id_bidi == 0) && (j == 2))
                              || ((sends_token exttype && (j == 6)) || test_flag j 0x0b)))))))
  unfolding seen_flags set_flag
  flag_test j = simp test_flag-flag_if refl

  flag_7 : test_flag 7 (seen_flags exttype params) ≡ not (params.ack_delay_exponent == 3)
  unfolding test_flag has_bit
  flag_7 = flag_test 7 ∙ ground arith

  flag_5 : test_flag 5 (seen_flags exttype params) ≡ not (params.max_packet_size == 65527)
  unfolding test_flag has_bit
  flag_5 = flag_test 5 ∙ ground arith

  flag_4 : test_flag 4 (seen_flags exttype params) ≡ not (params.omit_connection_id == 0)
  unfolding test_flag has_bit
  flag_4 = flag_test 4 ∙ ground arith

  flag_8 : test_flag 8 (seen_flags exttype params) ≡ not (params.initial_max_stream_id_uni == 0)
  unfolding test_flag has_bit
  flag_8 = flag_test 8 ∙ ground arith

  flag_2 : test_flag 2 (seen_flags exttype params) ≡ not (params.initial_max_stream_id_bidi == 0)
  unfolding test_flag has_bit
  flag_2 = flag_test 2 ∙ ground arith

  flag_6 : test_flag 6 (seen_flags exttype params) ≡ sends_token exttype
  unfolding test_flag has_bit
  flag_6 = flag_test 6 ∙ ground arith

  flag_0 : test_flag 0 (seen_flags exttype params) ≡ true
  unfolding test_flag has_bit
  flag_0 = flag_test 0 ∙ ground arith

  flag_1 : test_flag 1 (seen_flags exttype params) ≡ true
  unfolding test_flag has_bit
  flag_1 = flag_test 1 ∙ ground arith

  flag_3 : test_flag 3 (seen_flags exttype params) ≡ true
  unfolding test_flag has_bit
  flag_3 = flag_test 3 ∙ ground arith

  all_required : check_required exttype (seen_flags exttype params) ≡ ok tt
  unfolding check_required
  all_required =
      rw (required_set (seen_flags exttype params) flag_0 flag_1 flag_3, flag_6) (ground arith)

  defaults_restored :
      (base : TransportParams)
      → set_defaults
          (seen_flags exttype params)
          (received exttype (with_version exttype base params) params)
        ≡ restored exttype base params
  unfolding set_defaults received with_version restored
  defaults_restored base =
      rw (flag_2, flag_4, flag_5, flag_7, flag_8)
        (simp (default_kept, omit_kept params.omit_connection_id base.omit_connection_id c.omit)
          refl)

  decode_list :
      (base : TransportParams) (bytes : List ℕ) (n : ℕ)
      → decode_version exttype base bytes
        ≡ ok (
          with_version exttype base params,
          version_len exttype params,
          put_uint16be n ++ put_params exttype params,
        )
      → n < 65536
      → version_len exttype params + 2 + n ≡ length bytes
      → length (put_params exttype params) ≤ length bytes
      → decode_transport_params base exttype bytes ≡ ok (restored exttype base params)
  unfolding decode_transport_params
  decode_list base bytes n e lt total le =
      let list = put_params exttype params in
      let some : leb 2 (length (put_uint16be n ++ list)) ≡ true =
        le→leb 2 _ (omega (arith, length-put_uint16be-append n list)) in
      rw
        (
          e,
          some,
          get_uint16-put_uint16be n list lt,
          eq→== _ _ total,
          drop-append 2 (put_uint16be n) list (sym (length-put_uint16be n)),
          put_params_read exttype (with_version exttype base params) params c (length bytes) le,
          all_required,
          defaults_restored base,
        )
        refl

  decode_params_bytes :
      (base : TransportParams)
      → decode_transport_params base exttype (params_bytes exttype params c)
        ≡ ok (restored exttype base params)
  unfolding params_bytes
  decode_params_bytes base =
      let n = params_len exttype params - version_len exttype params - 2 in
      let most = params_len_le exttype params c in
      let all = length-params_bytes exttype params c in
      let parts = length-put_params exttype params c in
      decode_list base (params_bytes exttype params c) (n % 65536)
        (decode_version-put_version exttype params base
          (put_uint16be (n % 65536) ++ put_params exttype params) c)
        (omega arith) (omega (arith, most, all, parts)) (omega (arith, all, parts))

-- With parameters in range, a buffer that is too small is refused with NOBUF and any other gets
-- `params_len` bytes; a peer that decodes these bytes accepts them and has what was sent. What this
-- kind of message does not carry is as it was in the struct that the peer decodes into: the versions
-- and the token, and also the addresses if all of them are zero.
pub decode_transport_params-encode_transport_params :
    (exttype : ℕ) (params : TransportParams)
    → IsSendable exttype params
    → (destlen : ℕ) (base : TransportParams)
    → (bytes : List ℕ) × (encode_transport_params destlen exttype params
        ≡ (if leb (params_len exttype params) destlen then ok bytes else err nobuf))
      × (length bytes ≡ params_len exttype params)
      × (decode_transport_params base exttype bytes ≡ ok (restored exttype base params))
decode_transport_params-encode_transport_params exttype params c destlen base = (
  params_bytes exttype params c,
  encode_written exttype params c destlen,
  length-params_bytes exttype params c,
  decode_params_bytes exttype params c base,
)
