-- ===== src/Crypto/Params/Written.antt =====
-- What the loop of `ngtcp2_decode_transport_params` makes of the list of parameters that
-- `ngtcp2_encode_transport_params` wrote.
use ngtcp.Base.{
  ◌==◌, if◌then◌else◌, length, take-all, Result, ok, ℕ, zero, suc, ◌≤◌, ◌<◌, ◌≡◌, refl, ◌⊎◌, inl,
  inr, Bool, true, false, not, ◌||◌, List, [], ◌∷◌, ◌++◌, append-nil, arith,
}
use ngtcp.Crypto.Params.{TransportParams, encrypted_extensions, new_session_ticket}
use ngtcp.Crypto.Params.Decode.{
  valid_stream_id_bidi, valid_stream_id_uni, set_flag, store_word, Loop, decode_params,
}
use ngtcp.Crypto.Params.Encode.{has_unicast_ip, put_param, put_param_if, put_params}
use ngtcp.Crypto.Params.Steps.{
  Loops, flag_if, word_round, idle_timeout_round, max_packet_size_round, omit_connection_id_round,
  stateless_reset_token_round, ack_delay_exponent_round, server_unicast_ip_round,
}

abbrev pub Words : List ℕ → Type 0
Words [] = Unit {0}
Words (v ∷ sv) = (v < 4294967296) × Words sv

-- The parameters are in the ranges of their fields, and a receiver accepts them.
pub record IsSendable (exttype : ℕ) (params : TransportParams) : Type 0 where
  pub type : exttype ≤ 2
  pub version : params.version < 4294967296
  pub words : Words params.supported_versions
  pub versions : length params.supported_versions ≤ 63
  pub stream_data : params.initial_max_stream_data < 4294967296
  pub data_limit : params.initial_max_data < 4294967296
  pub bidi_word : params.initial_max_stream_id_bidi < 4294967296
  pub bidi_valid :
      (params.initial_max_stream_id_bidi ≡ 0)
      ⊎ (valid_stream_id_bidi params.initial_max_stream_id_bidi exttype ≡ ok true)
  pub uni_word : params.initial_max_stream_id_uni < 4294967296
  pub uni_valid :
      (params.initial_max_stream_id_uni ≡ 0)
      ⊎ (valid_stream_id_uni params.initial_max_stream_id_uni exttype ≡ ok true)
  pub timeout : params.idle_timeout < 65536
  pub omit : params.omit_connection_id ≤ 1
  pub packet_size : params.max_packet_size < 65536
  pub token : length params.stateless_reset_token ≡ 16
  pub ip :
      (params.server_unicast_ip.ip0 < 4294967296)
      × (params.server_unicast_ip.ip1 < 4294967296)
      × (params.server_unicast_ip.ip2 < 4294967296)
      × (params.server_unicast_ip.ip3 < 4294967296)
  pub exponent : params.ack_delay_exponent ≤ 20

abbrev pub sends_token : ℕ → Bool
sends_token exttype = exttype == encrypted_extensions || exttype == new_session_ticket

-- The parameters that are read, over those that were there before.
unfoldable pub received : ℕ → TransportParams → TransportParams → TransportParams
received exttype base params = record base {
  initial_max_stream_data = params.initial_max_stream_data;
  initial_max_data = params.initial_max_data;
  idle_timeout = params.idle_timeout;
  stateless_reset_token =
      if sends_token exttype then params.stateless_reset_token else base.stateless_reset_token;
  initial_max_stream_id_bidi =
      if not (params.initial_max_stream_id_bidi == 0)
      then params.initial_max_stream_id_bidi
      else base.initial_max_stream_id_bidi;
  initial_max_stream_id_uni =
      if not (params.initial_max_stream_id_uni == 0)
      then params.initial_max_stream_id_uni
      else base.initial_max_stream_id_uni;
  omit_connection_id = if not (params.omit_connection_id == 0) then 1 else base.omit_connection_id;
  max_packet_size =
      if not (params.max_packet_size == 65527)
      then params.max_packet_size
      else base.max_packet_size;
  server_unicast_ip =
      if has_unicast_ip params.server_unicast_ip
      then params.server_unicast_ip
      else base.server_unicast_ip;
  ack_delay_exponent =
      if not (params.ack_delay_exponent == 3)
      then params.ack_delay_exponent
      else base.ack_delay_exponent;
}

-- The flags of the parameters that were read.
unfoldable pub seen_flags : ℕ → TransportParams → ℕ
seen_flags exttype params = flag_if (not (params.ack_delay_exponent == 3)) 7 (
    flag_if (has_unicast_ip params.server_unicast_ip) 9 (
      flag_if (not (params.max_packet_size == 65527)) 5 (
        flag_if (not (params.omit_connection_id == 0)) 4 (
          flag_if (not (params.initial_max_stream_id_uni == 0)) 8 (
            flag_if (not (params.initial_max_stream_id_bidi == 0)) 2
              (flag_if (sends_token exttype) 6 (set_flag 3 (set_flag 1 (set_flag 0 0)))))))))

store_bidi :
    (exttype v : ℕ) (params : TransportParams)
    → not (v == 0) ≡ true
    → (v ≡ 0) ⊎ (valid_stream_id_bidi v exttype ≡ ok true)
    → store_word exttype 2 v params ≡ ok (record params { initial_max_stream_id_bidi = v })
unfolding store_word
store_bidi exttype v params b c = ground arith

store_uni :
    (exttype v : ℕ) (params : TransportParams)
    → not (v == 0) ≡ true
    → (v ≡ 0) ⊎ (valid_stream_id_uni v exttype ≡ ok true)
    → store_word exttype 8 v params ≡ ok (record params { initial_max_stream_id_uni = v })
unfolding store_word
store_uni exttype v params b c = ground arith

module _ (exttype : ℕ) where
  -- A parameter that is there only if `b` holds.
  if_round :
      (b : Bool) (type len : ℕ) (value : List ℕ) (params : TransportParams)
      (after : Bool → TransportParams) (flags : ℕ) (rest : List ℕ) (r : Result Loop)
      → after false ≡ params
      → (b ≡ true
          → Loops exttype (after true, set_flag type flags, rest) r
          → Loops exttype (params, flags, put_param type len value ++ rest) r)
      → Loops exttype (after b, flag_if b type flags, rest) r
      → Loops exttype (params, flags, put_param_if b type len value ++ rest) r
  unfolding flag_if put_param_if
  if_round true type len value params after flags rest r e one k = one refl k
  if_round false type len value params after flags rest r e one k = rw e at k

  end_round :
      (params : TransportParams) (flags : ℕ)
      → Loops exttype (params, flags, []) (ok (params, flags, []))
  unfolding decode_params
  end_round params flags zero le = refl
  end_round params flags (suc fuel) le = refl

  last_round :
      (params : TransportParams) (flags : ℕ) (bytes : List ℕ) (r : Result Loop)
      → Loops exttype (params, flags, bytes ++ []) r
      → Loops exttype (params, flags, bytes) r
  last_round params flags bytes r h = rw (append-nil bytes) at h

  module _ (base params : TransportParams) (c : IsSendable exttype params) where
    pub put_params_read :
        Loops exttype
          (base, 0, put_params exttype params)
          (ok (received exttype base params, seen_flags exttype params, []))
    unfolding put_params received seen_flags store_word
    put_params_read =
        let r : Result Loop = ok (received exttype base params, seen_flags exttype params, []) in
        let p0 = record base { initial_max_stream_data = params.initial_max_stream_data } in
        let p1 = record p0 { initial_max_data = params.initial_max_data } in
        let p3 = record p1 { idle_timeout = params.idle_timeout } in
        let a6 : Bool → TransportParams = λ b. record p3 {
          stateless_reset_token =
              if b then params.stateless_reset_token else p3.stateless_reset_token;
        } in
        let p6 = a6 (sends_token exttype) in
        let a2 : Bool → TransportParams = λ b. record p6 {
          initial_max_stream_id_bidi =
              if b then params.initial_max_stream_id_bidi else p6.initial_max_stream_id_bidi;
        } in
        let p2 = a2 (not (params.initial_max_stream_id_bidi == 0)) in
        let a8 : Bool → TransportParams = λ b. record p2 {
          initial_max_stream_id_uni =
              if b then params.initial_max_stream_id_uni else p2.initial_max_stream_id_uni;
        } in
        let p8 = a8 (not (params.initial_max_stream_id_uni == 0)) in
        let a4 : Bool → TransportParams =
          λ b. record p8 { omit_connection_id = if b then 1 else p8.omit_connection_id } in
        let p4 = a4 (not (params.omit_connection_id == 0)) in
        let a5 : Bool → TransportParams = λ b. record p4 {
          max_packet_size = if b then params.max_packet_size else p4.max_packet_size;
        } in
        let p5 = a5 (not (params.max_packet_size == 65527)) in
        let a9 : Bool → TransportParams = λ b. record p5 {
          server_unicast_ip = if b then params.server_unicast_ip else p5.server_unicast_ip;
        } in
        let p9 = a9 (has_unicast_ip params.server_unicast_ip) in
        let a7 : Bool → TransportParams = λ b. record p9 {
          ack_delay_exponent = if b then params.ack_delay_exponent else p9.ack_delay_exponent;
        } in
        word_round exttype base 0 _ r 0 _ p0 (inl refl) c.stream_data refl (
          word_round exttype p0 _ _ r 1 _ p1 (inr (inl refl)) c.data_limit refl (
            idle_timeout_round exttype p1 _ _ r _ c.timeout (
              if_round (sends_token exttype) 6 16 _ p3 a6 _ _ r refl
                (λ b k. rw (take-all 16 params.stateless_reset_token (omega (arith, c.token))) (
                  stateless_reset_token_round exttype p3 _ _ r params.stateless_reset_token c.token
                    b k))
                (if_round _ 2 4 _ p6 a2 _ _ r refl
                  (λ b k.
                    word_round exttype p6 _ _ r 2 _ (a2 true) (inr (inr (inl refl))) c.bidi_word
                      (store_bidi exttype _ p6 b c.bidi_valid) k)
                  (if_round _ 8 4 _ p2 a8 _ _ r refl
                    (λ b k.
                      word_round exttype p2 _ _ r 8 _ (a8 true) (inr (inr (inr refl))) c.uni_word
                        (store_uni exttype _ p2 b c.uni_valid) k)
                    (if_round _ 4 0 _ p8 a4 _ _ r refl
                      (λ b k. omit_connection_id_round exttype p8 _ _ r k)
                      (if_round _ 5 2 _ p4 a5 _ _ r refl
                        (λ b k. max_packet_size_round exttype p4 _ _ r _ c.packet_size k)
                        (if_round _ 9 16 _ p5 a9 _ _ r refl
                          (λ b k. server_unicast_ip_round exttype p5 _ _ r _ c.ip k)
                          (last_round p9 _ _ r (
                            if_round _ 7 1 _ p9 a7 _ _ r refl
                              (λ b k. ack_delay_exponent_round exttype p9 _ _ r _ c.exponent k)
                              (end_round _ _)))))))))))
