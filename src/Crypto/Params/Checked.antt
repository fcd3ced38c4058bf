-- ===== src/Crypto/Params/Checked.antt =====
-- What each parameter in the list is checked for by `ngtcp2_decode_transport_params`.
use ngtcp.Pkt.Safety.Step.{Ensures-if}
use ngtcp.Base.{
  leb, ◌==◌, if◌then◌else◌, length, drop, length-drop, malformed_transport_param, Result, ok, err,
  Ensures, ℕ, ◌+◌, ◌-◌, ◌≤◌, ◌≡◌, refl, ◌⊎◌, true, false, ◌&&◌, ◌||◌, List, arith,
}
use ngtcp.Conv.{get_uint32, get_uint16}
use ngtcp.Conv.Read.{be_value, get_be_lem, peek_lem}
use ngtcp.Crypto.Params.{UnicastIp, TransportParams}
use ngtcp.Crypto.Params.Decode.{
  valid_stream_id_bidi, valid_stream_id_uni, test_flag, value_of, store_word, Loop, decode_word,
  decode_idle_timeout, decode_omit_connection_id, decode_max_packet_size,
  decode_stateless_reset_token, get_ip, decode_server_unicast_ip, decode_ack_delay_exponent,
  skip_param, decode_param,
}
use ngtcp.Crypto.Params.Flags.{test_flag-set_flag}

value_of_lem :
    (len : ℕ) (p : List ℕ)
    → 2 ≤ length p
    → value_of len p ≡ (
        if (be_value 2 0 p == len) && leb len (length p - 2)
        then ok (drop 2 p)
        else err malformed_transport_param)
unfolding value_of get_uint16
value_of_lem len p h = ground (arith, get_be_lem 2 0 p h, length-drop 2 p)

-- What the parameters in the list have been checked for.
pub record Checked (exttype most flags : ℕ) (params : TransportParams) : Type 0 where
  pub versions : length params.supported_versions ≤ most
  pub exponent : test_flag 7 flags ≡ true → params.ack_delay_exponent ≤ 20
  pub bidi :
      test_flag 2 flags ≡ true
      → valid_stream_id_bidi params.initial_max_stream_id_bidi exttype ≡ ok true
  pub uni :
      test_flag 8 flags ≡ true
      → valid_stream_id_uni params.initial_max_stream_id_uni exttype ≡ ok true

valid_stream_id_bidi_total :
    (v exttype : ℕ)
    → exttype ≤ 2
    → (valid_stream_id_bidi v exttype ≡ ok true) ⊎ (valid_stream_id_bidi v exttype ≡ ok false)
unfolding valid_stream_id_bidi
valid_stream_id_bidi_total v exttype h = ground arith

valid_stream_id_uni_total :
    (v exttype : ℕ)
    → exttype ≤ 2
    → (valid_stream_id_uni v exttype ≡ ok true) ⊎ (valid_stream_id_uni v exttype ≡ ok false)
unfolding valid_stream_id_uni
valid_stream_id_uni_total v exttype h = ground arith

ip_value : List ℕ → UnicastIp
ip_value p = record {
  ip0 = be_value 4 0 p;
  ip1 = be_value 4 0 (drop 4 p);
  ip2 = be_value 4 0 (drop 8 p);
  ip3 = be_value 4 0 (drop 12 p);
}

get_ip_lem : (p : List ℕ) → 16 ≤ length p → get_ip p ≡ ok (ip_value p)
unfolding get_ip get_uint32 ip_value
get_ip_lem p h =
    rw
      (
        get_be_lem 4 0 p (omega arith),
        get_be_lem 4 0 (drop 4 p) (omega (arith, length-drop 4 p)),
        get_be_lem 4 0 (drop 8 p) (omega (arith, length-drop 8 p)),
        get_be_lem 4 0 (drop 12 p) (omega (arith, length-drop 12 p)),
      )
      refl

-- What a server or a client relies on in parameters that were accepted.
abbrev pub SafeParams : ℕ → ℕ → TransportParams → Type 0
SafeParams exttype most r =
    (length r.supported_versions ≤ most)
    × (r.ack_delay_exponent ≤ 20)
    × ((r.initial_max_stream_id_bidi ≡ 0)
        ⊎ (valid_stream_id_bidi r.initial_max_stream_id_bidi exttype ≡ ok true))
    × ((r.initial_max_stream_id_uni ≡ 0)
        ⊎ (valid_stream_id_uni r.initial_max_stream_id_uni exttype ≡ ok true))

-- A round of the loop leaves fewer bytes.
abbrev Round : ℕ → ℕ → List ℕ → Result Loop → Type 0
Round exttype most p r = Ensures (λ s. (length s.2 + 2 ≤ length p) × Checked exttype most s.1 s.0) r

module _ (exttype most : ℕ) (small : exttype ≤ 2) (params : TransportParams) (flags : ℕ)
    (p : List ℕ) (c : Checked exttype most flags params) (h : 2 ≤ length p) where
  decode_omit_connection_id_safe :
      Round exttype most p (decode_omit_connection_id (params, flags, p))
  unfolding decode_omit_connection_id
  decode_omit_connection_id_safe = ground (
    arith,
    value_of_lem 0 p h,
    length-drop 2 p,
    test_flag-set_flag 4 7 flags,
    test_flag-set_flag 4 2 flags,
    test_flag-set_flag 4 8 flags,
  )

  decode_ack_delay_exponent_safe :
      Round exttype most p (decode_ack_delay_exponent (params, flags, p))
  unfolding decode_ack_delay_exponent
  decode_ack_delay_exponent_safe = ground (
    arith,
    value_of_lem 1 p h,
    length-drop 2 p,
    length-drop 1 (drop 2 p),
    peek_lem (drop 2 p),
    test_flag-set_flag 7 2 flags,
    test_flag-set_flag 7 8 flags,
  )

  decode_idle_timeout_safe : Round exttype most p (decode_idle_timeout (params, flags, p))
  unfolding decode_idle_timeout get_uint16
  decode_idle_timeout_safe = ground (
    arith,
    value_of_lem 2 p h,
    length-drop 2 p,
    length-drop 2 (drop 2 p),
    get_be_lem 2 0 (drop 2 p),
    test_flag-set_flag 3 7 flags,
    test_flag-set_flag 3 2 flags,
    test_flag-set_flag 3 8 flags,
  )

  decode_max_packet_size_safe : Round exttype most p (decode_max_packet_size (params, flags, p))
  unfolding decode_max_packet_size get_uint16
  decode_max_packet_size_safe = ground (
    arith,
    value_of_lem 2 p h,
    length-drop 2 p,
    length-drop 2 (drop 2 p),
    get_be_lem 2 0 (drop 2 p),
    test_flag-set_flag 5 7 flags,
    test_flag-set_flag 5 2 flags,
    test_flag-set_flag 5 8 flags,
  )

  decode_stateless_reset_token_safe :
      Round exttype most p (decode_stateless_reset_token exttype (params, flags, p))
  unfolding decode_stateless_reset_token
  decode_stateless_reset_token_safe = ground (
    arith,
    value_of_lem 16 p h,
    length-drop 2 p,
    length-drop 16 (drop 2 p),
    test_flag-set_flag 6 7 flags,
    test_flag-set_flag 6 2 flags,
    test_flag-set_flag 6 8 flags,
  )

  decode_server_unicast_ip_safe : Round exttype most p (decode_server_unicast_ip (params, flags, p))
  unfolding decode_server_unicast_ip
  decode_server_unicast_ip_safe = ground (
    arith,
    value_of_lem 16 p h,
    length-drop 2 p,
    length-drop 16 (drop 2 p),
    get_ip_lem (drop 2 p),
    test_flag-set_flag 9 7 flags,
    test_flag-set_flag 9 2 flags,
    test_flag-set_flag 9 8 flags,
  )

  skip_param_safe : Round exttype most p (skip_param (params, flags, p))
  unfolding skip_param get_uint16
  skip_param_safe =
      ground (arith, length-drop 2 p, get_be_lem 2 0 p h, length-drop (be_value 2 0 p) (drop 2 p))

  decode_word_safe :
      (type : ℕ)
      → (type ≡ 0) ⊎ (type ≡ 1) ⊎ (type ≡ 2) ⊎ (type ≡ 8)
      → Round exttype most p (decode_word exttype type (params, flags, p))
  unfolding decode_word store_word get_uint32
  decode_word_safe type known = ground (
    arith,
    value_of_lem 4 p h,
    length-drop 2 p,
    length-drop 4 (drop 2 p),
    get_be_lem 4 0 (drop 2 p),
    valid_stream_id_bidi_total (be_value 4 0 (drop 2 p)) exttype small,
    valid_stream_id_uni_total (be_value 4 0 (drop 2 p)) exttype small,
    test_flag-set_flag type 7 flags,
    test_flag-set_flag type 2 flags,
    test_flag-set_flag type 8 flags,
  )

  -- Every round of the loop.
  pub decode_param_safe :
      (type : ℕ) → Round exttype most p (decode_param exttype type (params, flags, p))
  unfolding decode_param
  decode_param_safe type =
      let round =
        Ensures-if (λ (s : Loop). (length s.2 + 2 ≤ length p) × Checked exttype most s.1 s.0) in
      round (type == 0 || type == 1 || type == 2 || type == 8) _ _
        (λ e. decode_word_safe type (ground arith))
        (round (type == 3) _ _ (λ _. decode_idle_timeout_safe)
          (round (type == 4) _ _ (λ _. decode_omit_connection_id_safe)
            (round (type == 5) _ _ (λ _. decode_max_packet_size_safe)
              (round (type == 6) _ _ (λ _. decode_stateless_reset_token_safe)
                (round (type == 9) _ _ (λ _. decode_server_unicast_ip_safe)
                  (round (type == 7) _ _ (λ _. decode_ack_delay_exponent_safe) skip_param_safe))))))
