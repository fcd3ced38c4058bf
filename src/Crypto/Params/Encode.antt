-- ===== src/Crypto/Params/Encode.antt =====
-- `ngtcp2_encode_transport_params`.
use ngtcp.Base.{
  leb, ◌==◌, if◌then◌else◌, length, take, nobuf, Result, ◌>>◌, guard, ℕ, ◌+◌, ◌-◌, ◌*◌, ◌%◌, Bool,
  not, ◌||◌, List, [], ◌∷◌, ◌++◌,
}
use ngtcp.Conv.{put_uint16be, put_uint32be}
use ngtcp.Pkt.Cursor.{encoded}
use ngtcp.Crypto.Params.{
  UnicastIp, TransportParams, client_hello, encrypted_extensions, new_session_ticket,
}

-- The length of what comes before the list of parameters.
unfoldable pub version_len : ℕ → TransportParams → ℕ
version_len exttype params =
    if exttype == client_hello
    then 4
    else if exttype == encrypted_extensions
    then 4 + 1 + length params.supported_versions * 4
    else 0

-- `server_unicast_ip` is not all zero.
unfoldable pub has_unicast_ip : UnicastIp → Bool
has_unicast_ip ip = not (ip.ip0 == 0) || not (ip.ip1 == 0) || not (ip.ip2 == 0) || not (ip.ip3 == 0)

-- `len` as it is when it is compared with `destlen`.
unfoldable pub params_len : ℕ → TransportParams → ℕ
params_len exttype params =
    2
    + 8
    + 8
    + 6
    + (if exttype == client_hello then 0 else 20)
    + version_len exttype params
    + (if params.initial_max_stream_id_bidi == 0 then 0 else 8)
    + (if params.initial_max_stream_id_uni == 0 then 0 else 8)
    + (if params.omit_connection_id == 0 then 0 else 4)
    + (if params.max_packet_size == 65527 then 0 else 6)
    + (if params.ack_delay_exponent == 3 then 0 else 5)
    + (if has_unicast_ip params.server_unicast_ip then 20 else 0)

-- `for (i = 0; i < params->v.ee.len; ++i) p = ngtcp2_put_uint32be(p, ...);`
unfoldable pub put_words : List ℕ → List ℕ
put_words [] = []
put_words (v ∷ sv) = put_uint32be v ++ put_words sv

unfoldable pub put_version : ℕ → TransportParams → List ℕ
put_version exttype params =
    if exttype == client_hello
    then put_uint32be params.version
    else if exttype == encrypted_extensions
    then put_uint32be params.version
      ++ ((length params.supported_versions * 4 % 256) ∷ put_words params.supported_versions)
    else []

-- A parameter: its type, its length, its value.
unfoldable pub put_param : ℕ → ℕ → List ℕ → List ℕ
put_param type len value = put_uint16be type ++ (put_uint16be len ++ value)

-- A parameter that is left out if it has its default value.
unfoldable pub put_param_if : Bool → ℕ → ℕ → List ℕ → List ℕ
put_param_if b type len value = if b then put_param type len value else []

unfoldable pub put_ip : UnicastIp → List ℕ
put_ip ip =
    put_uint32be ip.ip0 ++ (put_uint32be ip.ip1 ++ (put_uint32be ip.ip2 ++ put_uint32be ip.ip3))

-- The parameters in the order in which they are written.
unfoldable pub put_params : ℕ → TransportParams → List ℕ
put_params exttype params =
    put_param 0 4 (put_uint32be params.initial_max_stream_data)
    ++ (put_param 1 4 (put_uint32be params.initial_max_data)
        ++ (put_param 3 2 (put_uint16be params.idle_timeout)
            ++ (put_param_if (exttype == encrypted_extensions || exttype == new_session_ticket) 6 16
                  (take 16 params.stateless_reset_token)
                ++ (put_param_if (not (params.initial_max_stream_id_bidi == 0)) 2 4
                      (put_uint32be params.initial_max_stream_id_bidi)
                    ++ (put_param_if (not (params.initial_max_stream_id_uni == 0)) 8 4
                          (put_uint32be params.initial_max_stream_id_uni)
                        ++ (put_param_if (not (params.omit_connection_id == 0)) 4 0 []
                            ++ (put_param_if (not (params.max_packet_size == 65527)) 5 2
                                  (put_uint16be params.max_packet_size)
                                ++ (put_param_if (has_unicast_ip params.server_unicast_ip) 9 16
                                      (put_ip params.server_unicast_ip)
                                    ++ put_param_if (not (params.ack_delay_exponent == 3)) 7 1
                                        (params.ack_delay_exponent ∷ [])))))))))

unfoldable pub encode_transport_params : ℕ → ℕ → TransportParams → Result (List ℕ)
encode_transport_params destlen exttype params = do
  let len = params_len exttype params
  guard (leb len destlen) nobuf
  encoded len (
      put_version exttype params
      ++ (put_uint16be ((len - version_len exttype params - 2) % 65536)
          ++ put_params exttype params))
