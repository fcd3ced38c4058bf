-- ===== src/Crypto/Params.antt =====
-- `ngtcp2_transport_params` of lib/includes/ngtcp2/ngtcp2.h.
pub mod Encode
pub mod Decode
pub mod Flags
pub mod Checked
pub mod Safety
pub mod Steps
pub mod Written
pub mod Bytes
pub mod RoundTrip
use ngtcp.Base.{ℕ, List}

-- `server_unicast_ip`
pub record UnicastIp : Type 0 where
  pub ip0 : ℕ
  pub ip1 : ℕ
  pub ip2 : ℕ
  pub ip3 : ℕ

-- Both members of the union `v` begin with a version, `v.ch.initial_version` and
-- `v.ee.negotiated_version`, at the same place: it is `version`. `supported_versions` is
-- `v.ee.supported_versions` with `v.ee.len`.
pub record TransportParams : Type 0 where
  pub version : ℕ
  pub supported_versions : List ℕ
  pub initial_max_stream_data : ℕ
  pub initial_max_data : ℕ
  pub initial_max_stream_id_bidi : ℕ
  pub initial_max_stream_id_uni : ℕ
  pub idle_timeout : ℕ
  pub omit_connection_id : ℕ
  pub max_packet_size : ℕ
  pub stateless_reset_token : List ℕ
  pub server_unicast_ip : UnicastIp
  pub ack_delay_exponent : ℕ

-- NGTCP2_TRANSPORT_PARAMS_TYPE_CLIENT_HELLO, _ENCRYPTED_EXTENSIONS and _NEW_SESSION_TICKET
abbrev pub client_hello : ℕ
client_hello = 0

abbrev pub encrypted_extensions : ℕ
encrypted_extensions = 1

abbrev pub new_session_ticket : ℕ
new_session_ticket = 2
